-- ===== src/Ai/Shopping.antt =====
-- `sc_ai_player_buy` of sai/saibuy.c, less its answer, which says only whether the player is a human.
use xscorch.Prelude.{ℕ, Option, none, some}
use xscorch.Prelude.Int.{ℤ}
use xscorch.Ai.{
  RealAiType, human, network, moron, shooter, spreader, annihilater, insanity, random, Shop, Market,
  Judgement,
}
use xscorch.Ai.Buy.{
  buy_last_weapons, buy_auto_defense, buy_contact_triggers, buy_last_shields, buy_batteries,
  buy_shield_sappers, buy_by_statistic, buy_best_shields,
}

-- The buyers run one after the other.
infixl 5 ◌then_buy◌
unfoldable pub ◌then_buy◌ : Option Shop → (Shop → Option Shop) → Option Shop
none then_buy next = none
some s then_buy next = next s

module _ {Score : Type 0} (judgement : Judgement Score) (market : Market) (place : ℤ → ℕ)
    (fuel : ℕ) where
  -- The weapons by the damage they do, by the damage for the price, and by precision.
  abbrev pub buy_weapons_by_score : Shop → Option Shop
  buy_weapons_by_score = buy_by_statistic judgement market place fuel judgement.yield

  abbrev pub buy_weapons_by_weighted_score : Shop → Option Shop
  buy_weapons_by_weighted_score = buy_by_statistic judgement market place fuel judgement.econ_yield

  abbrev pub buy_precision_weapons : Shop → Option Shop
  buy_precision_weapons = buy_by_statistic judgement market place fuel judgement.precision_yield

  unfoldable pub annihilate : Shop → Option Shop
  unfolding ◌then_buy◌
  annihilate s =
      buy_contact_triggers judgement market place fuel
        (record s { budget = judgement.most_of s.p.money })
      then_buy buy_weapons_by_score
      then_buy (λ s'.
          buy_auto_defense judgement market place fuel (record s' { budget = s'.p.money }))
      then_buy buy_best_shields judgement market place fuel
      then_buy buy_batteries judgement market place fuel
      then_buy buy_shield_sappers judgement market place fuel

  -- The buyers of an AI, one after the other; a human buys nothing here.
  unfoldable pub buyers : RealAiType → Shop → Option Shop
  unfolding ◌then_buy◌
  buyers human s = some s
  buyers network s = some s
  buyers random s = some s
  buyers moron s =
      buy_contact_triggers judgement market place fuel s
      then_buy buy_auto_defense judgement market place fuel
      then_buy buy_last_shields judgement market place fuel
      then_buy buy_last_weapons judgement market place fuel
  buyers shooter s =
      buy_contact_triggers judgement market place fuel s
      then_buy buy_auto_defense judgement market place fuel
      then_buy buy_best_shields judgement market place fuel
      then_buy buy_shield_sappers judgement market place fuel
      then_buy buy_weapons_by_weighted_score
  buyers spreader s =
      buy_contact_triggers judgement market place fuel s
      then_buy buy_auto_defense judgement market place fuel
      then_buy buy_best_shields judgement market place fuel
      then_buy buy_weapons_by_score
      then_buy buy_shield_sappers judgement market place fuel
  buyers annihilater s = annihilate s
  buyers insanity s = annihilate s
  buyers _ s =
      buy_contact_triggers judgement market place fuel s
      then_buy buy_auto_defense judgement market place fuel
      then_buy buy_best_shields judgement market place fuel
      then_buy buy_shield_sappers judgement market place fuel
      then_buy buy_precision_weapons
      then_buy buy_batteries judgement market place fuel

  unfoldable pub player_buy : RealAiType → Shop → Option Shop
  unfolding buyers
  player_buy type s = buyers type (record s { budget = judgement.budget s })
