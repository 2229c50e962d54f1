-- ===== src/Ai/Solvent.antt =====
-- The buyers of sai/saibuy.c that take the goods as they come end, and keep the shop in order.

use xscorch.Prelude.{
  ℕ, zero, suc, ◌<◌, Bool, true, false, Option, some, ◌≡◌, refl, ◌&&◌, if◌then◌else◌, Bool-cases,
  Option-cases, inl, inr, length,
}
use xscorch.Prelude.Int.{ℤ, pos, ltb_ℤ}
use xscorch.Items.{WeaponInfo, AccessoryInfo, accessory_is_shield}
use xscorch.Player.{Player}
use xscorch.HashList.Keyed.{int_keys}
use xscorch.HashList.Laws.{IsTable}
use xscorch.Inventory.{can_buy_weapon, can_buy_accessory}
use xscorch.Registry.{registry_reverse}
use xscorch.Goods.{weapon_goods}
use xscorch.Goods.Listing.{listing}
use xscorch.Goods.Folds.{fold_over}
use xscorch.Ai.{
  Shop, Market, Judgement, all_forward, all_reverse, buy_max_of_weapon, purchase_accessory,
}
use xscorch.Ai.Buy.{
  try_weapon, find_accessory, buy_first, last_weapons, buy_last_weapons, buy_auto_defense,
  buy_contact_triggers, buy_last_shields, batteries_held, buy_batteries,
}
use xscorch.Ai.Purchases.{IsReady, purchase_weapon-IsReady, purchase_accessory-IsReady}
use xscorch.Ai.Loops.{fold_over-keeps, weapons_reverse, found_forward, found_default, found_reverse}
use xscorch.Ai.{accessory_is_auto_def, accessory_is_trigger, accessory_is_battery, max_batteries}
use xscorch.Inventory.{stock}

module _ {Score : Type 0} (judgement : Judgement Score) (market : Market) (place : ℤ → ℕ) (fuel : ℕ)
    (arms : IsTable int_keys place market.weapon_config.registry.hashlist)
    (tools : IsTable int_keys place market.accessory_config.registry.hashlist)
    (enough : length market.weapon_config.registry.hashlist.order < fuel)
    (enough' : length market.accessory_config.registry.hashlist.order < fuel) where
  abbrev pub Ready : Shop → Type 0
  Ready = IsReady market

  -- A buyer that returns, with the shop in order.
  abbrev pub Buys : Option Shop → Type 0
  Buys r = (s' : Shop) × (r ≡ some s') × Ready s'

  pub try_weapon-Ready :
      (wanted : Player → WeaponInfo → Bool) (s : Shop) (a : ℕ)
      → Ready s
      → Ready (try_weapon judgement market place fuel wanted s a)
  unfolding try_weapon
  try_weapon-Ready wanted s a h =
      elim (Bool-cases
        (can_buy_weapon s.p (some (s.weapons a)) s.budget && wanted s.p (s.weapons a))) [
          | inl e ↦ rw e (purchase_weapon-IsReady market s a h)
          | inr e ↦ rw e h
        ]

  buy_first-Buys :
      (flags : ℕ) (wanted : AccessoryInfo → Bool) (s : Shop)
      → Ready s
      → ((test : AccessoryInfo → Bool)
          → (r : Option ℕ) × (find_accessory judgement market place fuel flags test s ≡ some r))
      → Buys (buy_first judgement market place fuel flags wanted s)
  unfolding buy_first
  buy_first-Buys flags wanted s h total =
      let (r, e) = total (λ info. can_buy_accessory s.p (some info) s.budget && wanted info) in
      elim (Option-cases r) [
        | inl f ↦ rw (e, buy_first, f) (s, refl, h)
        | inr (a, f) ↦
            rw (e, buy_first, f)
              (purchase_accessory s a, refl, purchase_accessory-IsReady market s a h)
      ]

  last_weapons-Buys :
      (outer : ℕ) (s : Shop) → Ready s → Buys (last_weapons judgement market place fuel outer s)
  unfolding last_weapons
  last_weapons-Buys zero s h = (s, refl, h)
  last_weapons-Buys (suc outer) s h =
      let step = try_weapon judgement market place fuel judgement.deadly in
      let items =
        listing (weapon_goods s.weapons) market.weapon_config all_reverse registry_reverse in
      rw
        (
          weapons_reverse judgement market place fuel arms tools enough enough' step s s h,
          last_weapons,
        )
        (last_weapons-Buys outer (fold_over step items s)
          (fold_over-keeps Ready step items s (λ t a k. try_weapon-Ready judgement.deadly t a k) h))

  pub buy_last_weapons-Buys :
      (s : Shop) → Ready s → Buys (buy_last_weapons judgement market place fuel s)
  unfolding buy_last_weapons
  buy_last_weapons-Buys s h = last_weapons-Buys buy_max_of_weapon s h

  -- A buyer that some setting of the game switches on.
  pub on-Buys : (b : Bool) (x y : Option Shop) → Buys x → Buys y → Buys (if b then x else y)
  on-Buys true x y h k = h
  on-Buys false x y h k = k

  pub buy_auto_defense-Buys :
      (s : Shop) → Ready s → Buys (buy_auto_defense judgement market place fuel s)
  unfolding buy_auto_defense
  buy_auto_defense-Buys s h =
      on-Buys market.synchronous (some s)
        (buy_first judgement market place fuel all_forward accessory_is_auto_def s) (s, refl, h)
        (buy_first-Buys all_forward accessory_is_auto_def s h
          (λ test. found_forward judgement market place fuel arms tools enough enough' test s h))

  pub buy_contact_triggers-Buys :
      (s : Shop) → Ready s → Buys (buy_contact_triggers judgement market place fuel s)
  unfolding buy_contact_triggers
  buy_contact_triggers-Buys s h =
      on-Buys market.tunneling
        (buy_first judgement market place fuel all_forward accessory_is_trigger s) (some s)
        (buy_first-Buys all_forward accessory_is_trigger s h
          (λ test. found_forward judgement market place fuel arms tools enough enough' test s h))
        (s, refl, h)

  pub buy_last_shields-Buys :
      (s : Shop) → Ready s → Buys (buy_last_shields judgement market place fuel s)
  unfolding buy_last_shields
  buy_last_shields-Buys s h =
      buy_first-Buys all_reverse accessory_is_shield s h
        (λ test. found_reverse judgement market place fuel arms tools enough enough' test s h)

  batteries_held-Counts :
      (s : Shop) → Ready s → (n : ℤ) × (batteries_held judgement market place fuel s ≡ some n)
  unfolding batteries_held
  batteries_held-Counts s h =
      let (r, e) =
        found_default judgement market place fuel arms tools enough enough'
          (λ info. accessory_is_battery info && ltb_ℤ (pos 0) (stock info.inventories s.p.index)) s
          h in
      elim (Option-cases r) [
        | inl f ↦ (pos 0, rw (e, batteries_held, f) refl)
        | inr (a, f) ↦
            (stock (s.accessories a).inventories s.p.index, rw (e, batteries_held, f) refl)
      ]

  pub buy_batteries-Buys : (s : Shop) → Ready s → Buys (buy_batteries judgement market place fuel s)
  unfolding buy_batteries
  buy_batteries-Buys s h =
      let (n, e) = batteries_held-Counts s h in
      rw (e, buy_batteries)
        (buy_first-Buys all_forward (λ info. accessory_is_battery info && ltb_ℤ n max_batteries) s h
          (λ test. found_forward judgement market place fuel arms tools enough enough' test s h))
