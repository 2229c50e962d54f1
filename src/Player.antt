-- ===== src/Player.antt =====
-- The players: `sc_player` (sgame/splayer.h), with the `sc_tank_profile` (sgame/stankpro.h) and
-- the `sc_shield` (sgame/sshield.h) that it points to. Left out are the name, the AI state, the
-- position in flight and what only the drawing code reads. The children model the operations.
use xscorch.Prelude.{ℕ, Bool, Option, not, ◌&&◌}
use xscorch.Prelude.Int.{ℤ, pos, ltb_ℤ}
use xscorch.Items.{AccessoryInfo}

pub data AiType : Type 0 where
  human network computer : AiType

pub record TankProfile : Type 0 where
  pub radius : ℤ
  pub shelfsize : ℤ
  pub efficiency : ℤ
  pub hardness : ℤ
  pub mobile : Bool

pub record Shield : Type 0 where
  pub life : ℤ
  pub info : AccessoryInfo

pub record Player : Type 0 where
  pub index : ℕ
  pub tank : TankProfile
  pub aitype : AiType
  pub turret : ℤ
  pub power : ℤ
  pub life : ℤ
  pub dead : Bool
  pub numwins : ℤ
  pub kills : ℤ
  pub suicides : ℤ
  pub killedby : ℤ
  pub money : ℤ
  pub armed : Bool
  pub contacttriggers : Bool
  pub ac_state : ℕ
  pub shield : Option Shield

-- `SC_PLAYER_IS_ALIVE`
abbrev pub is_alive : Player → Bool
is_alive p = not p.dead && ltb_ℤ (pos 0) p.life
