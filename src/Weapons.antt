-- ===== src/Weapons.antt =====
-- Weapons: the words of sgame/sweapon.h and sgame/sphoenix.h that the children read. A phoenix is a
-- weapon that turns into others on its way.
pub mod Verify
pub mod Levels
pub mod Ancestors
pub mod Passes
pub mod Verified
pub mod Flight
pub mod Phoenix
pub mod Track
pub mod Budget
pub mod Actions
pub mod Dispatch
pub mod Rounds
pub mod Ends
mod Tests
use xscorch.Prelude.{ℕ, Bool, not, ◌==◌}
use xscorch.Items.{WeaponInfo, has_bit}

-- SC_WEAPON_LIMIT_NONE
abbrev pub limit_none : ℕ
limit_none = 0x0000

abbrev pub is_phoenix : WeaponInfo → Bool
is_phoenix info = not (info.ph_fl == 0)

abbrev pub phoenix_is_chain : WeaponInfo → Bool
phoenix_is_chain info = has_bit info.ph_fl 0x0001

abbrev pub phoenix_is_spider : WeaponInfo → Bool
phoenix_is_spider info = has_bit info.ph_fl 0x0002

abbrev pub phoenix_is_scatter : WeaponInfo → Bool
phoenix_is_scatter info = has_bit info.ph_fl 0x0004

abbrev pub phoenix_is_convert : WeaponInfo → Bool
phoenix_is_convert info = has_bit info.ph_fl 0x0008

abbrev pub phoenix_is_detonate : WeaponInfo → Bool
phoenix_is_detonate info = has_bit info.ph_fl 0x0010
