-- ===== src/Items.antt =====
-- The goods of the game: `sc_weapon_info` (sgame/sweapon.h) and `sc_accessory_info`
-- (sgame/saccessory.h), with the state bits that the modelled code tests. Names, descriptions and
-- the fields that only the explosion code reads are left out. State words are bit patterns.
use Prim.Native.Nat.{bit_and}
use xscorch.Prelude.{ℕ, List, Bool, not, ◌==◌, ◌||◌}
use xscorch.Prelude.Int.{ℤ, pos, leb_ℤ}

pub record WeaponInfo : Type 0 where
  pub ident : ℤ
  pub armslevel : ℤ
  pub price : ℤ
  pub bundle : ℤ
  pub state : ℕ
  pub scatter : ℤ
  pub children : ℤ
  pub ph_ch : ℤ
  pub ph_fl : ℕ
  pub inventories : List ℤ
  pub useless : Bool
  pub indirect : Bool

pub record AccessoryInfo : Type 0 where
  pub ident : ℤ
  pub armslevel : ℤ
  pub price : ℤ
  pub bundle : ℤ
  pub shield : ℤ
  pub fuel : ℤ
  pub repulsion : ℤ
  pub state : ℕ
  pub inventories : List ℤ
  pub useless : Bool
  pub indirect : Bool

-- `word & bit`, read as a truth value.
abbrev pub has_bit : ℕ → ℕ → Bool
has_bit word bit = not (bit_and word bit == 0)

abbrev pub accessory_state_consumable : ℕ
accessory_state_consumable = 0x000002

abbrev pub accessory_state_permanent : ℕ
accessory_state_permanent = 0x000004

abbrev pub accessory_state_shield : ℕ
accessory_state_shield = 0x010000

abbrev pub accessory_state_recharge : ℕ
accessory_state_recharge = 0x400000

abbrev pub weapon_is_infinite : WeaponInfo → Bool
weapon_is_infinite info = leb_ℤ info.bundle (pos 0) || leb_ℤ info.price (pos 0)

abbrev pub accessory_is_infinite : AccessoryInfo → Bool
accessory_is_infinite info = leb_ℤ info.bundle (pos 0) || leb_ℤ info.price (pos 0)

abbrev pub accessory_is_permanent : AccessoryInfo → Bool
accessory_is_permanent info = has_bit info.state accessory_state_permanent

abbrev pub accessory_is_shield : AccessoryInfo → Bool
accessory_is_shield info = has_bit info.state accessory_state_shield
