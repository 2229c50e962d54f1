-- ===== src/Goods/Weapons.antt =====
-- The lists of weapons of sgame/sweapon.c: the functions on goods, for data that is cast to weapons.
use xscorch.Prelude.{ℕ, Bool, Option}
use xscorch.Prelude.Int.{ℤ}
use xscorch.Items.{WeaponInfo}
use xscorch.Goods.{
  GoodsConfig, weapon_goods, viewable, test_count, count, lookup, lookup_by_name, test_viewable,
  first, next,
}

module _ {κ} {D : Type κ} (cast : D → WeaponInfo) (config : GoodsConfig D) where
  abbrev pub weapon_viewable : D → ℕ → Bool
  weapon_viewable = viewable (weapon_goods cast) config

  abbrev pub weapon_test_count : ℕ → D → ℕ → Bool × ℕ
  weapon_test_count = test_count (weapon_goods cast) config

  abbrev pub weapon_count : Bool → ℕ → ℕ → Option ℕ
  weapon_count = count (weapon_goods cast) config

  abbrev pub weapon_lookup : (ℤ → ℕ) → ℤ → ℕ → Option D
  weapon_lookup = lookup (weapon_goods cast) config

  abbrev pub weapon_lookup_by_name : Bool → ℕ → (D → Bool) → ℕ → Option (Option D)
  weapon_lookup_by_name = lookup_by_name (weapon_goods cast) config

  abbrev pub weapon_test_viewable : ℕ → D → Unit {0} → Bool × Unit {0}
  weapon_test_viewable = test_viewable (weapon_goods cast) config

  abbrev pub weapon_first : ℕ → ℕ → Option (Option D)
  weapon_first = first (weapon_goods cast) config

  abbrev pub weapon_next : (ℤ → ℕ) → ℕ → D → ℕ → Option (Option D)
  weapon_next = next (weapon_goods cast) config
