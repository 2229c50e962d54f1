-- ===== src/Weapons/Verify.antt =====
-- `sc_phoenix_verify` of sgame/sphoenix.c: the check of a phoenix weapon against loops and missing
-- children. The cache of ancestors is the list of their numbers, from its head on; the weapon's own
-- entry, where the loop over the cache stops, is added for the child. `lookup` is `sc_weapon_lookup`
-- without limits; `fuel` bounds the depth of the recursion, and none says that it ran out.
use xscorch.Prelude.{
  ℕ, zero, suc, ◌+◌, List, [], ◌∷◌, ◌++◌, Bool, true, false, not, ◌&&◌, Option, none, some,
  if◌then◌else◌, ◌==◌,
}
use xscorch.Prelude.Int.{ℤ, negsuc, eqb_ℤ}
use xscorch.Items.{WeaponInfo}
use xscorch.Goods.{GoodsConfig}
use xscorch.Goods.Weapons.{weapon_lookup}
use xscorch.Weapons.{
  limit_none, is_phoenix, phoenix_is_detonate, phoenix_is_chain, phoenix_is_spider,
  phoenix_is_scatter,
}

-- The scan of the ancestors.
unfoldable pub is_among : ℤ → List ℤ → Bool
is_among type [] = false
is_among type (id ∷ cache) = if eqb_ℤ type id then true else is_among type cache

-- A weapon that needs a child.
unfoldable pub needs_child : WeaponInfo → Bool
needs_child info = is_phoenix info && not (phoenix_is_detonate info)

-- `count`, after the levels under each type of the phoenix are added.
unfoldable pub levels_above : WeaponInfo → ℕ → ℕ
levels_above info level =
    1
    + (if phoenix_is_chain info then level else 0)
    + (if phoenix_is_spider info then level else 0)
    + (if phoenix_is_scatter info then level else 0)

-- The tests of a weapon with a child, and what the levels under the child make of it.
unfoldable pub levels_with : WeaponInfo → WeaponInfo → List ℤ → Option ℕ → Option ℕ
unfolding is_among levels_above
levels_with info child cache level =
    if eqb_ℤ info.ident child.ident
    then some 0
    else if is_among info.ident cache
    then some 0
    else elim level [ none ↦ none | some l ↦ some (if l == 0 then 0 else levels_above info l) ]

unfoldable pub safe_verify : (ℤ → Option WeaponInfo) → ℕ → WeaponInfo → List ℤ → Option ℕ
unfolding needs_child levels_with
safe_verify lookup zero info cache = none
safe_verify lookup (suc fuel) info cache =
    if needs_child info
    then elim (lookup info.ph_ch) [
      | none ↦ some 0
      | some child ↦
          let level = safe_verify lookup fuel child (cache ++ (info.ident ∷ [])) in
          levels_with info child cache level
    ]
    else some 1

unfoldable pub phoenix_verify : (ℤ → ℕ) → GoodsConfig WeaponInfo → ℕ → WeaponInfo → Option ℕ
unfolding safe_verify
phoenix_verify place config fuel info =
    safe_verify (λ id. weapon_lookup (λ w. w) config place id limit_none) fuel info (negsuc 0 ∷ [])
