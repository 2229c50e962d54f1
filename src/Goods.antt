-- ===== src/Goods.antt =====
-- The lists of goods: sgame/saccessory.c, and the same functions of sgame/sweapon.c. The source
-- writes them out twice, for accessories and for weapons; here they are written once, over what they
-- read of the registered data (`Goods`): Weapons gives those of weapons. Registered data is of any type `D`: the
-- casts from `void *` are functions from it. `fuel` bounds the walks over the registry, and `malloc`
-- says whether there is memory for an iterator.
pub mod Weapons
pub mod Listing
pub mod Cycle
pub mod Folds
pub mod Scans
mod Tests
use xscorch.Prelude.{
  ℕ, zero, suc, Bool, true, false, not, ◌&&◌, ◌||◌, Option, none, some, if◌then◌else◌,
}
use xscorch.Prelude.Int.{ℤ, pos, ltb_ℤ, leb_ℤ}
use xscorch.Items.{WeaponInfo, AccessoryInfo, has_bit}
use xscorch.Registry.{Registry, Direction, registry_forward, registry_reverse, find_by_int}
use xscorch.Registry.Find.{iter_new, iterate, find_first, find_next}

-- SC_ACCESSORY_LIMIT_ARMS and so on, the same numbers as SC_WEAPON_LIMIT_ARMS and so on
abbrev pub limit_arms : ℕ
limit_arms = 0x0001

abbrev pub limit_useless : ℕ
limit_useless = 0x0002

abbrev pub limit_indirect : ℕ
limit_indirect = 0x0004

abbrev pub limit_all : ℕ
limit_all = 0x00ff

abbrev pub scan_reverse : ℕ
scan_reverse = 0x0200

-- What the functions read of the data.
pub record Goods {κ} (D : Type κ) : Type κ where
  pub ident : D → ℤ
  pub armslevel : D → ℤ
  pub useless : D → Bool
  pub indirect : D → Bool

abbrev pub accessory_goods {κ} : {D : Type κ} → (D → AccessoryInfo) → Goods D
accessory_goods cast = record {
  ident = λ datum. (cast datum).ident;
  armslevel = λ datum. (cast datum).armslevel;
  useless = λ datum. (cast datum).useless;
  indirect = λ datum. (cast datum).indirect;
}

abbrev pub weapon_goods {κ} : {D : Type κ} → (D → WeaponInfo) → Goods D
weapon_goods cast = record {
  ident = λ datum. (cast datum).ident;
  armslevel = λ datum. (cast datum).armslevel;
  useless = λ datum. (cast datum).useless;
  indirect = λ datum. (cast datum).indirect;
}

-- The cast where there are only accessories.
abbrev pub itself : AccessoryInfo → AccessoryInfo
itself info = info

-- `sc_accessory_config`, `sc_weapon_config`: what is read here
pub record GoodsConfig {κ} (D : Type κ) : Type κ where
  pub armslevel : ℤ
  pub uselessitems : Bool
  pub registry : Registry ℤ D
  pub registryclass : ℕ

abbrev pub direction_of : ℕ → Direction
direction_of flags = if has_bit flags scan_reverse then registry_reverse else registry_forward

module _ {κ} {D : Type κ} (goods : Goods D) (config : GoodsConfig D) where
  unfoldable pub viewable : D → ℕ → Bool
  viewable info flags =
      (not (has_bit flags limit_arms) || leb_ℤ (goods.armslevel info) config.armslevel)
      && (not (has_bit flags limit_useless) || config.uselessitems || not (goods.useless info))
      && (not (has_bit flags limit_indirect) || not (goods.indirect info))

  -- A counter is what the test's argument points to.
  unfoldable pub test_count : ℕ → D → ℕ → Bool × ℕ
  unfolding viewable
  test_count flags info counter = (false, if viewable info flags then suc counter else counter)

  unfoldable pub count : Bool → ℕ → ℕ → Option ℕ
  unfolding iter_new iterate test_count
  count malloc fuel flags =
      elim (iter_new {K = ℤ} {D = D} malloc config.registryclass registry_forward) [
        | none ↦ some 0
        | some iter ↦ elim (iterate fuel config.registry (some (test_count flags)) iter 0) [
          | none ↦ none
          | some (info, iter', counter) ↦ some counter
        ]
      ]

  -- A good that was found, if the rules allow to view it.
  abbrev allowed : ℕ → Option D → Option D
  allowed flags none = none
  allowed flags (some info) = if viewable info flags then some info else none

  unfoldable pub lookup : (ℤ → ℕ) → ℤ → ℕ → Option D
  unfolding find_by_int viewable
  lookup place id flags =
      if ltb_ℤ id (pos 0) then none else allowed flags (find_by_int place config.registry id)

  -- `strsimilar(info->name, name)` of libj is the parameter `similar`.
  unfoldable pub lookup_by_name : Bool → ℕ → (D → Bool) → ℕ → Option (Option D)
  unfolding iter_new iterate viewable
  lookup_by_name malloc fuel similar flags =
      elim (iter_new {K = ℤ} {D = D} malloc config.registryclass (direction_of flags)) [
        | none ↦ some none
        | some iter ↦
            elim (iterate {S = Unit {0}} fuel config.registry
              (some (λ info arg. (similar info, arg))) iter tt) [
                | none ↦ none
                | some (info, iter', arg) ↦ some (allowed flags info)
              ]
      ]

  unfoldable pub test_viewable : ℕ → D → Unit {0} → Bool × Unit {0}
  unfolding viewable
  test_viewable flags info arg = (viewable info flags, arg)

  -- The answer of a walk, without the test's argument.
  abbrev answer : Option (Option D × Unit {0}) → Option (Option D)
  answer none = none
  answer (some (info, arg)) = some info

  unfoldable pub first : ℕ → ℕ → Option (Option D)
  unfolding find_first test_viewable
  first fuel flags = answer (
      find_first fuel config.registry config.registryclass (direction_of flags)
        (some (test_viewable flags)) tt)

  -- The wrap at the end of the list.
  abbrev pub or_first : ℕ → ℕ → Option (Option D) → Option (Option D)
  or_first fuel flags none = none
  or_first fuel flags (some none) = first fuel flags
  or_first fuel flags (some (some nxtnfo)) = some (some nxtnfo)

  unfoldable pub next : (ℤ → ℕ) → ℕ → D → ℕ → Option (Option D)
  unfolding find_next test_viewable
  next place fuel info flags = or_first fuel flags (
      answer (
        find_next place fuel config.registry config.registryclass (goods.ident info)
          (direction_of flags) (some (test_viewable flags)) tt))
