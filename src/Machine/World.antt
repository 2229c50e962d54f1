-- ===== src/Machine/World.antt =====
-- What the state machine works on: `sc_config` (sgame/sconfig.h) as far as sgame/sstate.c and
-- sgame/sgame.c read it, `sc_game` (sgame/sgame.h), and the calls that go out of the two files.
-- The model is of the build without USE_NETWORK. Calls that only draw, play a sound or show a
-- message are left out.
use xscorch.Prelude.{ℕ, List, [], ◌∷◌, Bool, true, false, ◌&&◌, ◌||◌, not, if◌then◌else◌}
use xscorch.Prelude.Int.{ℤ}
use xscorch.Player.{Player}
use xscorch.Game.{Timeval}
use xscorch.Game.Queue.{Chain, Expl}

-- `sc_config_mode`
pub data Mode : Type 0 where
  sequential synchronous : Mode

-- `sc_weapon_track_result`
pub data Track : Type 0 where
  no_action need_recurse detonate sizzle : Track

-- `W` is the rest of the configuration, which the modelled code does not look into. `players` holds
-- the slots in use, and `plorder` the same players in turn order, by their index in `players`.
pub record Config (W : Type 0) : Type 0 where
  pub players : List Player
  pub plorder : List ℕ
  pub numplayers : ℕ
  pub mode : Mode
  pub interleave : Bool
  pub gfxfast : Bool
  pub gfxcompfast : Bool
  pub componly : Bool
  pub curround : ℤ
  pub numrounds : ℤ
  pub lottery_winner : Bool
  pub survivalbonus : ℤ
  pub deathloss : ℤ
  pub world : W

-- The five chains of explosions of `sc_game`.
pub record Queues : Type 0 where
  pub expl_init : Chain
  pub expl_draw : Chain
  pub expl_clear_init : Chain
  pub expl_clear : Chain
  pub expl_done : Chain

pub record Game : Type 0 where
  pub curplayer : ℕ
  pub timeout : Timeval
  pub state : ℕ
  pub substate : ℕ
  pub activity : Bool
  pub queues : Queues

-- The calls that sgame/sstate.c makes of other files, each with its effect on the configuration. A
-- player is named by the index in `players`; an `sc_explosion **` that a call may add to is handed
-- over and handed back. `ai_player_buy` and `ai_player_turn` answer whether the result was
-- SC_AI_CONTINUE, the two talks whether there is a message.
pub record Calls (W : Type 0) : Type 0 where
  pub time : Config W → Timeval × Config W
  pub config_init_game : Config W → Config W
  pub config_init_round : Config W → Config W
  pub config_init_turn : Config W → Config W
  pub economy_interest : Config W → Config W
  pub ai_player_buy : Config W → ℕ → Bool × Config W
  pub ai_player_turn : Config W → ℕ → Bool × Config W
  pub preround_auto_defense : Config W → ℕ → Bool × Config W
  pub preround_lottery : Config W → Bool × Config W
  pub player_talk : Config W → ℕ → Bool × Config W
  pub player_death_talk : Config W → ℕ → Config W
  pub player_death : Config W → ℕ → Chain → Chain × Config W
  pub player_drop_all : Config W → Bool × Config W
  pub player_damage_all : Config W → Expl → Config W
  pub weapon_create_all : Config W → Chain → Bool × Chain × Config W
  pub weapon_track_all : Config W → Chain → Track × Chain × Config W
  pub expl_annihilate : Config W → Expl → Bool × Config W
  pub expl_annihilate_continue : Config W → Expl → Bool × Config W
  pub expl_annihilate_clear : Config W → Expl → Bool × Config W
  pub expl_annihilate_clear_continue : Config W → Expl → Bool × Config W
  pub land_drop : Config W → ℤ → ℤ → Bool × Config W

module _ {W : Type 0} where
  -- `SC_CONFIG_GFX_FAST`
  abbrev pub gfx_fast : Config W → Bool
  gfx_fast c = c.gfxfast || c.componly && c.gfxcompfast

  -- `SC_STATE_FAST`
  abbrev pub fast : Config W → ℕ → ℕ
  fast c t = if gfx_fast c then 0 else t

abbrev pub is_empty : Chain → Bool
is_empty [] = true
is_empty (e ∷ q) = false

-- `SC_STATE_ANY_EXPL`
abbrev pub any_expl : Queues → Bool
any_expl q =
    not (is_empty q.expl_init)
    || not (is_empty q.expl_draw)
    || not (is_empty q.expl_clear_init)
    || not (is_empty q.expl_clear)
    || not (is_empty q.expl_done)

-- SC_DELAY_SHORT (which is also SC_DELAY_PROMPT), SC_DELAY_LONG, SC_DELAY_TALK
abbrev pub delay_short : ℕ
delay_short = 50

abbrev pub delay_prompt : ℕ
delay_prompt = 50

abbrev pub delay_long : ℕ
delay_long = 800

abbrev pub delay_talk : ℕ
delay_talk = 1200

-- SC_STATE_MACHINE_INTERVAL, SC_STATE_EXPLOSION_STEPS, SC_STATE_NEXTITER_STEPS
abbrev pub machine_interval : ℕ
machine_interval = 50

abbrev pub explosion_steps : ℕ
explosion_steps = 10

abbrev pub nextiter_steps : ℕ
nextiter_steps = 1
