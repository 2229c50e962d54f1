-- ===== src/Ai/Ranked.antt =====
-- The buyers of sai/saibuy.c that rank the goods first end, and keep the shop in order.
use mathlib.Core.List.{reverse}
use xscorch.Prelude.{
  ℕ, ◌<◌, List, [], ◌∷◌, ◌++◌, Bool, true, false, some, ◌≡◌, refl, ◌&&◌, ◌||◌, Bool-cases,
  Option-cases, inl, inr, length, map,
}
use xscorch.Prelude.Int.{ℤ, ◌/ℤ◌, ltb_ℤ}
use xscorch.Items.{WeaponInfo, accessory_is_shield}
use xscorch.Player.{Player}
use xscorch.HashList.Keyed.{int_keys}
use xscorch.HashList.Laws.{IsTable}
use xscorch.Inventory.{stock, can_buy_accessory}
use xscorch.Registry.{registry_forward}
use xscorch.Goods.{weapon_goods, accessory_goods, limit_all, viewable, lookup}
use xscorch.Goods.Listing.{listing}
use xscorch.Goods.Folds.{fold_over}
use xscorch.Ai.{
  Shop, Market, Judgement, all_forward, inventory_high, purchase_accessory, sort_outer,
}
use xscorch.Ai.Buy.{
  try_weapon, weapons_pass, weapons_from_list, weapon_ordering, buy_by_statistic, shields_from_list,
  shield_ordering, buy_best_shields, exchange_ints,
}
use xscorch.Ai.Purchases.{IsReady, purchase_accessory-IsReady}
use xscorch.Ai.Orderings.{
  All, All-append, All-reverse, AllIdents, sort_outer-AllIdents, AllIdents-map,
}
use xscorch.Ai.Loops.{weapons_forward, accessories_forward}
use xscorch.Ai.Found.{fold_over-All, order-IsFound}
use xscorch.Ai.Solvent.{Buys, on-Buys, try_weapon-Ready}

module _ {Score : Type 0} (judgement : Judgement Score) (market : Market) (place : ℤ → ℕ) (fuel : ℕ)
    (arms : IsTable int_keys place market.weapon_config.registry.hashlist)
    (tools : IsTable int_keys place market.accessory_config.registry.hashlist)
    (enough : length market.weapon_config.registry.hashlist.order < fuel)
    (enough' : length market.accessory_config.registry.hashlist.order < fuel) where
  weapons_pass-Ready :
      (others : Bool) (ordering : List ℤ) (s : Shop)
      → IsReady market s
      → IsReady market (weapons_pass judgement market place fuel others ordering s)
  unfolding weapons_pass
  weapons_pass-Ready others [] s h = h
  weapons_pass-Ready others (ident ∷ ordering) s h =
      elim (Option-cases
        (lookup (weapon_goods s.weapons) market.weapon_config place ident limit_all)) [
          | inl e ↦ rw (e, weapons_pass) (weapons_pass-Ready others ordering s h)
          | inr (a, e) ↦
              let wanted : Player → WeaponInfo → Bool = λ p info.
                judgement.yields p info
                && (others
                    || ltb_ℤ (stock info.inventories p.index /ℤ info.bundle) inventory_high) in
              rw (e, weapons_pass)
                (weapons_pass-Ready others ordering
                  (try_weapon judgement market place fuel wanted s a)
                  (try_weapon-Ready judgement market place fuel arms tools enough enough' wanted s a
                    h))
        ]

  weapons_from_list-Ready :
      (ordering : List ℤ) (s : Shop)
      → IsReady market s
      → IsReady market (weapons_from_list judgement market place fuel ordering s)
  unfolding weapons_from_list
  weapons_from_list-Ready ordering s h =
      let best = reverse ordering in
      let first = weapons_pass judgement market place fuel false best s in
      weapons_pass-Ready true best (weapons_pass judgement market place fuel true best first)
        (weapons_pass-Ready true best first (weapons_pass-Ready false best s h))

  weapon_ordering_ends :
      (statistic : Player → WeaponInfo → Score) (s : Shop)
      → IsReady market s
      → (ordering : List ℤ) × (weapon_ordering judgement market place fuel statistic s
          ≡ some ordering)
  unfolding weapon_ordering
  weapon_ordering_ends statistic s h =
      let step : List (ℤ × Score) → ℕ → List (ℤ × Score) =
        λ xs a. xs ++ (((s.weapons a).ident, statistic s.p (s.weapons a)) ∷ []) in
      let scores =
        fold_over step
          (listing (weapon_goods s.weapons) market.weapon_config all_forward registry_forward) [] in
      (
        map (λ x. x.0) (sort_outer judgement.above judgement.exchanged (length scores) 0 scores),
        rw
            (
              weapons_forward judgement market place fuel arms tools enough enough' step s [] h,
              weapon_ordering,
            )
            refl,
      )

  pub buy_by_statistic-Buys :
      (statistic : Player → WeaponInfo → Score) (s : Shop)
      → IsReady market s
      → Buys judgement market place fuel arms tools enough enough'
          (buy_by_statistic judgement market place fuel statistic s)
  unfolding buy_by_statistic
  buy_by_statistic-Buys statistic s h =
      let (ordering, e) = weapon_ordering_ends statistic s h in
      let bought = weapons_from_list judgement market place fuel ordering s in
      rw (e, buy_by_statistic)
        (on-Buys judgement market place fuel arms tools enough enough' market.memory (some bought)
          (some s) (bought, refl, weapons_from_list-Ready ordering s h) (s, refl, h))

  -- Looking the number up finds a good.
  abbrev IsKnown : Shop → ℤ → Type 0
  IsKnown s ident =
      (a : ℕ) × (lookup (accessory_goods s.accessories) market.accessory_config place ident
          limit_all
        ≡ some a)

  shields_from_list-Buys :
      (s : Shop)
      → IsReady market s
      → (ordering : List ℤ) → All (IsKnown s) ordering
      → Buys judgement market place fuel arms tools enough enough'
          (shields_from_list judgement market place fuel ordering s)
  unfolding shields_from_list
  shields_from_list-Buys s h [] known = (s, refl, h)
  shields_from_list-Buys s h (ident ∷ ordering) known =
      let (a, e) = known.0 in
      elim (Bool-cases (
        accessory_is_shield (s.accessories a)
        && can_buy_accessory s.p (some (s.accessories a)) s.budget)) [
          | inl b ↦
              rw (e, shields_from_list, b)
                (purchase_accessory s a, refl, purchase_accessory-IsReady market s a h)
          | inr b ↦ rw (e, shields_from_list, b) (shields_from_list-Buys s h ordering known.1)
        ]

  shield_ordering-IsKnown :
      (s : Shop)
      → IsReady market s
      → (ordering : List ℤ) × (shield_ordering judgement market place fuel s ≡ some ordering)
        × All (IsKnown s) ordering
  unfolding shield_ordering viewable
  shield_ordering-IsKnown s h =
      let goods = accessory_goods s.accessories in
      let config = market.accessory_config in
      let above : ℤ → ℤ → Bool = λ x y. ltb_ℤ y x in
      let step : List (ℤ × ℤ) → ℕ → List (ℤ × ℤ) =
        λ xs a. xs ++ (((s.accessories a).ident, (s.accessories a).shield) ∷ []) in
      let items = listing goods config all_forward registry_forward in
      let scores = fold_over step items [] in
      let sorted = sort_outer above exchange_ints (length scores) 0 scores in
      let found =
        order-IsFound goods config place tools h.accessories_numbered fuel enough' []
          config.registry.hashlist.order refl in
      let collected : AllIdents above exchange_ints (IsKnown s) scores =
        fold_over-All (λ a. lookup goods config place (goods.ident a) limit_all ≡ some a)
          (AllIdents above exchange_ints (IsKnown s)) step items []
          (λ xs a f all.
            All-append (λ x. IsKnown s x.0) xs
              (((s.accessories a).ident, (s.accessories a).shield) ∷ []) all ((a, f), tt))
          found tt in
      (
        map (λ x. x.0) sorted,
        rw
            (
              accessories_forward judgement market place fuel arms tools enough enough' step s [] h,
              shield_ordering,
            )
            refl,
        AllIdents-map above exchange_ints (IsKnown s) sorted (
            sort_outer-AllIdents above exchange_ints (IsKnown s) (length scores) 0 scores
              collected),
      )

  pub buy_best_shields-Buys :
      (s : Shop)
      → IsReady market s
      → Buys judgement market place fuel arms tools enough enough'
          (buy_best_shields judgement market place fuel s)
  unfolding buy_best_shields
  buy_best_shields-Buys s h =
      let (ordering, e, known) = shield_ordering-IsKnown s h in
      rw (e, buy_best_shields)
        (on-Buys judgement market place fuel arms tools enough enough' market.memory
          (shields_from_list judgement market place fuel (reverse ordering) s) (some s)
          (shields_from_list-Buys s h (reverse ordering) (All-reverse (IsKnown s) ordering known))
          (s, refl, h))
