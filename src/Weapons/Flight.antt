-- ===== src/Weapons/Flight.antt =====
-- A weapon in flight, `sc_weapon` of sgame/sweapon.h, and what sgame/sphoenix.c and sgame/strack.c
-- call for it. A chain of weapons is a list. Trajectories are of any type `T` and all that lies
-- outside these two files (land, players, window, the random numbers) is of any type `W`: the
-- trajectories (sgame/sphysics.c) are computed on doubles. There is memory for every new weapon.
use xscorch.Prelude.{ℕ, Bool, Option}
use xscorch.Prelude.Int.{ℤ, pos}
use xscorch.Items.{WeaponInfo, has_bit}
use xscorch.Game.Queue.{Expl}

-- `deferring` is the bit SC_WEAPON_STATE_DEFER of `state`, and `state` the other bits. `exp_res`
-- is a power of SC_PHOENIX_INCREASE_FACTOR: its exponent.
pub record Weapon (T : Type 0) : Type 0 where
  pub tr : T
  pub exp_res : ℕ
  pub state : ℕ
  pub deferring : Bool
  pub playerid : ℕ
  pub children : ℤ
  pub triggered : Bool
  pub weaponinfo : WeaponInfo

-- `sc_trajectory_result`; the impacts are told apart only by whether it is a shield.
pub data StepResult : Type 0 where
  continue impact impact_shield sizzle : StepResult

pub data TrajectoryType : Type 0 where
  roller digger : TrajectoryType

-- The calls into the files that are not modelled.
pub record Calls (W T : Type 0) : Type 0 where
  -- `sc_traj_step`, with `_sc_weapon_track_point` at each point.
  pub step : W → Weapon T → StepResult × T × W
  -- The velocity is not downwards, or nothing has been flown yet; and it is not upwards.
  pub going_up : T → Bool
  pub not_rising : T → Bool
  -- `sc_shield_absorb_hit`, on the trajectory's victim; whether by a sapper.
  pub absorb_hit : W → T → Bool → W
  pub landfall : W → T → W
  -- `game_drand() < SC_PHOENIX_PROB_AT_RAND`
  pub chance : W → Bool × W
  -- `sc_trajectory_convert`, and whether the trajectory has been converted.
  pub is_converted : TrajectoryType → T → Bool
  pub convert : W → Weapon T → TrajectoryType → Bool × T × W
  -- `sc_weapon_get_explosion` at the weapon's place, and whether in the turret's direction. None
  -- says that there is no memory.
  pub get_explosion : W → Weapon T → Bool → Option Expl
  -- The explosion of a bounce, with the radius and the force of the child.
  pub scaled : W → Weapon T → WeaponInfo → Expl → Expl
  -- A leg of a spider: an explosion, if there is memory, and whether a place was found for it.
  pub leg : W → Weapon T → WeaponInfo → Option (Option Expl) × W
  -- `game_lrand`
  pub lrand : W → ℤ → ℤ × W
  -- The trajectory back above the ground, that of a bounce, and those of scattered weapons.
  pub surface : W → T → T
  pub bounce : W → Weapon T → T
  pub scattered : W → Weapon T → ℤ → T

module _ {T : Type 0} where
  -- `sc_weapon_new`, with the trajectory that it makes.
  unfoldable pub weapon_new : WeaponInfo → T → Bool → ℕ → Weapon T
  weapon_new info tr has_contact_trigger playerid = record {
    tr = tr;
    exp_res = 0;
    state = info.state;
    deferring = has_bit info.state 0x000002;
    playerid = playerid;
    children = pos 0;
    triggered = has_contact_trigger;
    weaponinfo = info;
  }
