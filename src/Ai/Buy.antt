-- ===== src/Ai/Buy.antt =====
-- The buyers of sai/saibuy.c.
use mathlib.Core.List.{reverse}
use xscorch.Prelude.{
  ℕ, zero, suc, List, [], ◌∷◌, ◌++◌, Bool, true, false, ◌&&◌, ◌||◌, Option, none, some,
  if◌then◌else◌, length, map,
}
use xscorch.Prelude.Int.{ℤ, pos, ◌+ℤ◌, ◌-ℤ◌, ◌/ℤ◌, ltb_ℤ}
use xscorch.Items.{WeaponInfo, AccessoryInfo, accessory_is_shield}
use xscorch.Player.{Player}
use xscorch.Inventory.{stock, can_buy_weapon, can_buy_accessory}
use xscorch.Goods.{weapon_goods, accessory_goods, limit_all, count, first, lookup}
use xscorch.Goods.Folds.{fold_goods, find_good}
use xscorch.Ai.{
  Shop, Market, Judgement, all_forward, all_reverse, buy_max_of_weapon, inventory_high,
  max_batteries, accessory_is_auto_def, accessory_is_trigger, accessory_is_battery, purchase_weapon,
  purchase_accessory, sort_outer,
}

-- The two exchanges of the integer scores of shields, by sums and differences.
unfoldable pub exchange_ints : ℤ → ℤ → ℤ × ℤ
exchange_ints x y = let x' = x +ℤ y in let y' = x' -ℤ y in (x' -ℤ y', y')

module _ {Score : Type 0} (judgement : Judgement Score) (market : Market) (place : ℤ → ℕ)
    (fuel : ℕ) where
  -- Whether to buy a weapon that is looked at, and its purchase.
  unfoldable pub try_weapon : (Player → WeaponInfo → Bool) → Shop → ℕ → Shop
  unfolding purchase_weapon
  try_weapon wanted s a =
      if can_buy_weapon s.p (some (s.weapons a)) s.budget && wanted s.p (s.weapons a)
      then purchase_weapon s a
      else s

  -- A loop over all weapons. There is memory for the walk that counts them; the source counts once
  -- for several loops, of which none changes the count.
  unfoldable pub every_weapon {ν} : {S : Type ν} → ℕ → (S → ℕ → S) → Shop → S → Option S
  unfolding fold_goods
  every_weapon flags step s start =
      elim (count (weapon_goods s.weapons) market.weapon_config true fuel limit_all) [
        | none ↦ none
        | some rounds ↦
            fold_goods (weapon_goods s.weapons) market.weapon_config place fuel flags step rounds
              (first (weapon_goods s.weapons) market.weapon_config fuel flags) start
      ]

  unfoldable pub every_accessory {ν} : {S : Type ν} → ℕ → (S → ℕ → S) → Shop → S → Option S
  unfolding fold_goods
  every_accessory flags step s start =
      elim (count (accessory_goods s.accessories) market.accessory_config true fuel limit_all) [
        | none ↦ none
        | some rounds ↦
            fold_goods (accessory_goods s.accessories) market.accessory_config place fuel flags step
              rounds (first (accessory_goods s.accessories) market.accessory_config fuel flags)
              start
      ]

  -- A loop over the accessories that ends at the first that passes a test.
  unfoldable pub find_accessory : ℕ → (AccessoryInfo → Bool) → Shop → Option (Option ℕ)
  unfolding find_good
  find_accessory flags test s =
      elim (count (accessory_goods s.accessories) market.accessory_config true fuel limit_all) [
        | none ↦ none
        | some rounds ↦
            find_good (accessory_goods s.accessories) market.accessory_config place fuel flags
              (λ a. test (s.accessories a)) rounds
              (first (accessory_goods s.accessories) market.accessory_config fuel flags)
      ]

  -- Such a loop that buys the accessory, and returns.
  unfoldable pub buy_first : ℕ → (AccessoryInfo → Bool) → Shop → Option Shop
  unfolding find_accessory purchase_accessory
  buy_first flags wanted s =
      elim (find_accessory flags (λ info. can_buy_accessory s.p (some info) s.budget && wanted info)
        s) [
          | none ↦ none
          | some found ↦ elim found [ none ↦ some s | some a ↦ some (purchase_accessory s a) ]
        ]

  -- The outer loop, from the rounds left.
  unfoldable pub last_weapons : ℕ → Shop → Option Shop
  unfolding every_weapon try_weapon
  last_weapons zero s = some s
  last_weapons (suc outer) s = elim (every_weapon all_reverse (try_weapon judgement.deadly) s s) [
    | none ↦ none
    | some s' ↦ last_weapons outer s'
  ]

  unfoldable pub buy_last_weapons : Shop → Option Shop
  unfolding last_weapons
  buy_last_weapons s = last_weapons buy_max_of_weapon s

  unfoldable pub buy_auto_defense : Shop → Option Shop
  unfolding buy_first
  buy_auto_defense s =
      if market.synchronous then some s else buy_first all_forward accessory_is_auto_def s

  unfoldable pub buy_contact_triggers : Shop → Option Shop
  unfolding buy_first
  buy_contact_triggers s =
      if market.tunneling then buy_first all_forward accessory_is_trigger s else some s

  unfoldable pub buy_last_shields : Shop → Option Shop
  unfolding buy_first
  buy_last_shields s = buy_first all_reverse accessory_is_shield s

  -- `sc_player_battery_count`
  unfoldable pub batteries_held : Shop → Option ℤ
  unfolding find_accessory
  batteries_held s =
      elim (find_accessory limit_all
        (λ info. accessory_is_battery info && ltb_ℤ (pos 0) (stock info.inventories s.p.index)) s) [
          | none ↦ none
          | some found ↦ elim found [
            | none ↦ some (pos 0)
            | some a ↦ some (stock (s.accessories a).inventories s.p.index)
          ]
        ]

  unfoldable pub buy_batteries : Shop → Option Shop
  unfolding buy_first batteries_held
  buy_batteries s = elim (batteries_held s) [
    | none ↦ none
    | some held ↦
        buy_first all_forward (λ info. accessory_is_battery info && ltb_ℤ held max_batteries) s
  ]

  -- It returns before it buys anything.
  unfoldable pub buy_shield_sappers : Shop → Option Shop
  buy_shield_sappers s = some s

  -- A pass over the list from its end; `others` says that it is not the first pass.
  unfoldable pub weapons_pass : Bool → List ℤ → Shop → Shop
  unfolding try_weapon
  weapons_pass others [] s = s
  weapons_pass others (ident ∷ ordering) s =
      let bought : Shop =
        elim (lookup (weapon_goods s.weapons) market.weapon_config place ident limit_all) [
          | none ↦ s
          | some a ↦
              try_weapon
                (λ p info.
                  judgement.yields p info
                  && (others
                      || ltb_ℤ (stock info.inventories p.index /ℤ info.bundle) inventory_high))
                s a
        ] in
      weapons_pass others ordering bought

  unfoldable pub weapons_from_list : List ℤ → Shop → Shop
  unfolding weapons_pass
  weapons_from_list ordering s =
      weapons_pass true (reverse ordering)
        (weapons_pass true (reverse ordering) (weapons_pass false (reverse ordering) s))

  -- The idents of the weapons in the order of their scores.
  unfoldable pub weapon_ordering : (Player → WeaponInfo → Score) → Shop → Option (List ℤ)
  unfolding every_weapon sort_outer
  weapon_ordering statistic s =
      elim (every_weapon {S = List (ℤ × Score)} all_forward
        (λ xs a. xs ++ (((s.weapons a).ident, statistic s.p (s.weapons a)) ∷ [])) s []) [
          | none ↦ none
          | some scores ↦ some (
              map (λ x. x.0)
                (sort_outer judgement.above judgement.exchanged (length scores) 0 scores))
        ]

  unfoldable pub buy_by_statistic : (Player → WeaponInfo → Score) → Shop → Option Shop
  unfolding weapon_ordering weapons_from_list
  buy_by_statistic statistic s =
      if market.memory
      then (elim (weapon_ordering statistic s) [
        | none ↦ none
        | some ordering ↦ some (weapons_from_list ordering s)
      ])
      else some s

  -- The shields from the end of the list on; the first that can be bought is.
  unfoldable pub shields_from_list : List ℤ → Shop → Option Shop
  unfolding purchase_accessory
  shields_from_list [] s = some s
  shields_from_list (ident ∷ ordering) s =
      let rest = shields_from_list ordering s in
      elim (lookup (accessory_goods s.accessories) market.accessory_config place ident limit_all) [
        | none ↦ none
        | some a ↦
            if accessory_is_shield (s.accessories a)
              && can_buy_accessory s.p (some (s.accessories a)) s.budget
            then some (purchase_accessory s a)
            else rest
      ]

  -- The idents of the accessories in the order of their shields.
  unfoldable pub shield_ordering : Shop → Option (List ℤ)
  unfolding every_accessory sort_outer
  shield_ordering s =
      elim (every_accessory {S = List (ℤ × ℤ)} all_forward
        (λ xs a. xs ++ (((s.accessories a).ident, (s.accessories a).shield) ∷ [])) s []) [
          | none ↦ none
          | some scores ↦ some (
              map (λ x. x.0) (sort_outer (λ x y. ltb_ℤ y x) exchange_ints (length scores) 0 scores))
        ]

  unfoldable pub buy_best_shields : Shop → Option Shop
  unfolding shield_ordering shields_from_list
  buy_best_shields s =
      if market.memory
      then (elim (shield_ordering s) [
        | none ↦ none
        | some ordering ↦ shields_from_list (reverse ordering) s
      ])
      else some s
