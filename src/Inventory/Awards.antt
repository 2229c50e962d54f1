-- ===== src/Inventory/Awards.antt =====
-- `sc_inventory_award_weapon` of sgame/sinventory.c.
use xscorch.Prelude.{ℕ, true, ◌≡◌, refl, ◌≢◌, ◌↔◌, arith, get_or-set_ne, Bool-cases, inl, inr}
use xscorch.Prelude.Int.{ℤ, pos, negsuc, ◌+ℤ◌, ◌-ℤ◌, ◌≤ℤ◌, ◌<ℤ◌, leb_ℤ, int_laws}
use xscorch.Items.{WeaponInfo}
use xscorch.Inventory.{max_items, stock, quantity, award_weapon}
use xscorch.Inventory.Limits.{AllCounts, AllCounts-stock, AllCounts-set, IsCount, quantity_bounds}

award_weapon_tests :
    (info : WeaponInfo) (player : ℕ)
    → ((award_weapon info player).0 ≡ true)
      ↔ (pos 0 <ℤ quantity (stock info.inventories player) info.bundle)
unfolding award_weapon
award_weapon_tests info player = ground arith

quantity_pos_iff :
    (held bundle : ℤ)
    → IsCount held
    → pos 0 ≤ℤ bundle
    → (pos 0 <ℤ quantity held bundle) ↔ ((held <ℤ max_items) × (pos 0 <ℤ bundle))
unfolding quantity ◌-ℤ◌ ◌+ℤ◌
quantity_pos_iff (pos h) (pos b) v k = ground arith
quantity_pos_iff (negsuc h) b v k = absurd (omega arith)
quantity_pos_iff h (negsuc b) v k = absurd (omega arith)

-- Either branch leaves legal stocks, and the stocks of the others alone.
award_weapon_stocks :
    (info : WeaponInfo) (player : ℕ)
    → AllCounts info.inventories
    → pos 0 ≤ℤ info.bundle
    → AllCounts (award_weapon info player).1.inventories
      × ((other : ℕ)
          → player ≢ other
          → stock (award_weapon info player).1.inventories other ≡ stock info.inventories other)
unfolding award_weapon
award_weapon_stocks info player h b =
    let c = AllCounts-stock info.inventories player h in
    let q = quantity_bounds (stock info.inventories player) info.bundle c b in
    elim (Bool-cases (leb_ℤ (quantity (stock info.inventories player) info.bundle) (pos 0))) [
      | inl e ↦ rw e (h, λ other n. refl)
      | inr e ↦ rw e (
        AllCounts-set info.inventories player _ (omega int_laws) h,
        λ other n. get_or-set_ne info.inventories player other _ (pos 0) n,
      )
    ]

-- An award goes through exactly when the player has room for one more and the bundle is not empty.
-- Either way every stock stays legal and the other players' stocks stay as they were.
-- Assumed: legal stocks, and a bundle that is not negative.
pub award_weapon_lem :
    (info : WeaponInfo) (player : ℕ)
    → AllCounts info.inventories
    → pos 0 ≤ℤ info.bundle
    → let (done, info1) = award_weapon info player in
      ((done ≡ true) ↔ ((stock info.inventories player <ℤ max_items) × (pos 0 <ℤ info.bundle)))
      × AllCounts info1.inventories
      × ((other : ℕ)
          → player ≢ other
          → stock info1.inventories other ≡ stock info.inventories other)
award_weapon_lem info player h b =
    let held : ℤ = stock info.inventories player in
    let z = quantity_pos_iff held info.bundle (AllCounts-stock info.inventories player h) b in
    let t = award_weapon_tests info player in
    let s = award_weapon_stocks info player h b in ((λ e. z.0 (t.0 e), λ g. t.1 (z.1 g)), s.0, s.1)
