-- ===== src/Ai/Buyers.antt =====
-- Whatever kind of computer player buys (sai/saibuy.c), it ends, and the shop is in order.
use xscorch.Prelude.{ℕ, ◌<◌, Option, some, ◌≡◌, refl, length}
use xscorch.Items.{WeaponInfo}
use xscorch.Player.{Player}
use xscorch.Prelude.Int.{ℤ}
use xscorch.HashList.Keyed.{int_keys}
use xscorch.HashList.Laws.{IsTable}
use xscorch.Ai.{
  RealAiType, human, network, moron, shooter, spreader, chooser, calculater, annihilater, insanity,
  random, Shop, Market, Judgement,
}
use xscorch.Ai.Buy.{
  buy_auto_defense, buy_contact_triggers, buy_last_shields, buy_last_weapons, buy_batteries,
  buy_shield_sappers, buy_by_statistic, buy_best_shields,
}
use xscorch.Ai.Shopping.{annihilate, buyers, player_buy, ◌then_buy◌}
use xscorch.Ai.Purchases.{IsReady}
use xscorch.Ai.Solvent.{
  buy_last_weapons-Buys, buy_auto_defense-Buys, buy_contact_triggers-Buys, buy_last_shields-Buys,
  buy_batteries-Buys,
}
use xscorch.Ai.Ranked.{buy_by_statistic-Buys, buy_best_shields-Buys}

module _ {Score : Type 0} (judgement : Judgement Score) (market : Market) (place : ℤ → ℕ) (fuel : ℕ)
    (arms : IsTable int_keys place market.weapon_config.registry.hashlist)
    (tools : IsTable int_keys place market.accessory_config.registry.hashlist)
    (enough : length market.weapon_config.registry.hashlist.order < fuel)
    (enough' : length market.accessory_config.registry.hashlist.order < fuel) where
  -- A buyer that returns from every shop in order, with the shop in order.
  abbrev IsBuyer : (Shop → Option Shop) → Type 0
  IsBuyer buy = (s : Shop) → IsReady market s → (s' : Shop) × (buy s ≡ some s') × IsReady market s'

  infixl 5 ◌and_then◌
  ◌and_then◌ :
      {first next : Shop → Option Shop}
      → IsBuyer first
      → IsBuyer next
      → IsBuyer (λ s. first s then_buy next)
  unfolding ◌then_buy◌
  ◌and_then◌ h k s ready = let (s', e, ready') = h s ready in rw e (k s' ready')

  sappers : IsBuyer (buy_shield_sappers judgement market place fuel)
  unfolding buy_shield_sappers
  sappers s h = (s, refl, h)

  budgeted :
      (budget : Shop → ℤ) (buy : Shop → Option Shop)
      → IsBuyer buy
      → IsBuyer (λ s. buy (record s { budget = budget s }))
  budgeted budget buy h s ready =
      h (record s { budget = budget s })
        (record {
          solvent = ready.solvent;
          weapons_held = ready.weapons_held;
          weapons_priced = ready.weapons_priced;
          accessories_held = ready.accessories_held;
          accessories_priced = ready.accessories_priced;
          weapons_numbered = ready.weapons_numbered;
          accessories_numbered = ready.accessories_numbered;
        })

  triggers : IsBuyer (buy_contact_triggers judgement market place fuel)
  triggers = buy_contact_triggers-Buys judgement market place fuel arms tools enough enough'

  defense : IsBuyer (buy_auto_defense judgement market place fuel)
  defense = buy_auto_defense-Buys judgement market place fuel arms tools enough enough'

  last_shields : IsBuyer (buy_last_shields judgement market place fuel)
  last_shields = buy_last_shields-Buys judgement market place fuel arms tools enough enough'

  best_shields : IsBuyer (buy_best_shields judgement market place fuel)
  best_shields = buy_best_shields-Buys judgement market place fuel arms tools enough enough'

  by_statistic :
      (statistic : Player → WeaponInfo → Score)
      → IsBuyer (buy_by_statistic judgement market place fuel statistic)
  by_statistic = buy_by_statistic-Buys judgement market place fuel arms tools enough enough'

  batteries : IsBuyer (buy_batteries judgement market place fuel)
  batteries = buy_batteries-Buys judgement market place fuel arms tools enough enough'

  last_weapons : IsBuyer (buy_last_weapons judgement market place fuel)
  last_weapons = buy_last_weapons-Buys judgement market place fuel arms tools enough enough'

  annihilate-IsBuyer : IsBuyer (annihilate judgement market place fuel)
  unfolding annihilate
  annihilate-IsBuyer =
      budgeted (λ s. judgement.most_of s.p.money) (buy_contact_triggers judgement market place fuel)
        triggers
      and_then by_statistic judgement.yield
      and_then budgeted (λ s. s.p.money) (buy_auto_defense judgement market place fuel) defense
      and_then best_shields
      and_then batteries
      and_then sappers

  precise : IsBuyer (λ s.
      buy_contact_triggers judgement market place fuel s
      then_buy buy_auto_defense judgement market place fuel
      then_buy buy_best_shields judgement market place fuel
      then_buy buy_shield_sappers judgement market place fuel
      then_buy buy_by_statistic judgement market place fuel judgement.precision_yield
      then_buy buy_batteries judgement market place fuel)
  precise =
      triggers
      and_then defense
      and_then best_shields
      and_then sappers
      and_then by_statistic judgement.precision_yield
      and_then batteries

  buyers-IsBuyer : (type : RealAiType) → IsBuyer (buyers judgement market place fuel type)
  unfolding buyers
  buyers-IsBuyer human = λ s h. (s, refl, h)
  buyers-IsBuyer network = λ s h. (s, refl, h)
  buyers-IsBuyer random = λ s h. (s, refl, h)
  buyers-IsBuyer moron = triggers and_then defense and_then last_shields and_then last_weapons
  buyers-IsBuyer shooter =
      triggers
      and_then defense
      and_then best_shields
      and_then sappers
      and_then by_statistic judgement.econ_yield
  buyers-IsBuyer spreader =
      triggers
      and_then defense
      and_then best_shields
      and_then by_statistic judgement.yield
      and_then sappers
  buyers-IsBuyer chooser = precise
  buyers-IsBuyer calculater = precise
  buyers-IsBuyer annihilater = annihilate-IsBuyer
  buyers-IsBuyer insanity = annihilate-IsBuyer

  -- Whatever the kind of a computer player, its round of purchases ends without reading a good that
  -- is not there, the player is not in debt afterwards, no stock is outside its limits, and prices
  -- and numbers of the goods are in order. The registries of weapons and accessories are well-formed
  -- tables, the fuel exceeds their lengths, and all of this holds of the shop before.
  pub player_buy-IsReady :
      (type : RealAiType) (s : Shop)
      → IsReady market s
      → (s' : Shop) × (player_buy judgement market place fuel type s ≡ some s') × IsReady market s'
  unfolding player_buy
  player_buy-IsReady type =
      budgeted judgement.budget (buyers judgement market place fuel type) (buyers-IsBuyer type)
