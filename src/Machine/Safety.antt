-- ===== src/Machine/Safety.antt =====
-- The state machine of sgame/sstate.c never reads `c->players` or `c->plorder` out of range: what
-- the configuration must look like, what is assumed of the calls that go out, and what holds of the
-- player counter in each state.
pub mod Turns
pub mod Rounds
pub mod Runs
pub mod Steps
mod Tests
use xscorch.Prelude.{
  ℕ, zero, suc, ◌<◌, List, [], ◌∷◌, Bool, true, false, Option, none, some, ◌≡◌, refl, ◌∙◌, arith,
  length, get_elem?, set, length-set, leb, if◌then◌else◌,
}
use xscorch.Prelude.Int.{ℤ}
use xscorch.Player.{Player}
use xscorch.Game.Queue.{Chain, Expl}
use xscorch.Machine.Codes.{
  State, inventory_pl_begin, inventory_pl_idle, inventory_pl_done, turn_pl_begin, turn_pl_idle,
  turn_pl_done, run_talk, code, decode, decode-code,
}
use xscorch.Machine.World.{Config, Game, Calls}
use xscorch.Game.{postpone_timeout}
use xscorch.Machine.Handlers.{
  Next, wait, again, fault, out_of_fuel, player_at, order_at, reinstate, reinstate_now,
  reinstate_allow_now, set_state, set_state_now, set_state_now_then, set_state_asap,
  set_state_allow_now,
}

abbrev pub AllBelow : ℕ → List ℕ → Type 0
AllBelow n [] = Unit {0}
AllBelow n (j ∷ js) = (j < n) × AllBelow n js

-- There are `n` players, at least one, and the turn order names none but them.
pub record IsSized {W : Type 0} (n : ℕ) (c : Config W) : Type 0 where
  pub count : c.numplayers ≡ n
  pub slots : length c.players ≡ n
  pub order : length c.plorder ≡ n
  pub below : AllBelow n c.plorder
  pub someone : 0 < n

-- What is assumed of the calls: they neither add nor remove players, and the turn order that
-- `sc_config_init_round` makes is one of the players that there are.
pub record Keeps {W : Type 0} (n : ℕ) (calls : Calls W) : Type 0 where
  pub time : (c : Config W) → IsSized n c → IsSized n (calls.time c).1
  pub config_init_game : (c : Config W) → IsSized n c → IsSized n (calls.config_init_game c)
  pub config_init_round : (c : Config W) → IsSized n c → IsSized n (calls.config_init_round c)
  pub config_init_turn : (c : Config W) → IsSized n c → IsSized n (calls.config_init_turn c)
  pub economy_interest : (c : Config W) → IsSized n c → IsSized n (calls.economy_interest c)
  pub ai_player_buy : (c : Config W) (i : ℕ) → IsSized n c → IsSized n (calls.ai_player_buy c i).1
  pub ai_player_turn : (c : Config W) (i : ℕ) → IsSized n c → IsSized n (calls.ai_player_turn c i).1
  pub preround_auto_defense :
      (c : Config W) (i : ℕ) → IsSized n c → IsSized n (calls.preround_auto_defense c i).1
  pub preround_lottery : (c : Config W) → IsSized n c → IsSized n (calls.preround_lottery c).1
  pub player_talk : (c : Config W) (i : ℕ) → IsSized n c → IsSized n (calls.player_talk c i).1
  pub player_death_talk :
      (c : Config W) (i : ℕ) → IsSized n c → IsSized n (calls.player_death_talk c i)
  pub player_death :
      (c : Config W) (i : ℕ) (q : Chain) → IsSized n c → IsSized n (calls.player_death c i q).1
  pub player_drop_all : (c : Config W) → IsSized n c → IsSized n (calls.player_drop_all c).1
  pub player_damage_all :
      (c : Config W) (e : Expl) → IsSized n c → IsSized n (calls.player_damage_all c e)
  pub weapon_create_all :
      (c : Config W) (q : Chain) → IsSized n c → IsSized n (calls.weapon_create_all c q).2
  pub weapon_track_all :
      (c : Config W) (q : Chain) → IsSized n c → IsSized n (calls.weapon_track_all c q).2
  pub expl_annihilate :
      (c : Config W) (e : Expl) → IsSized n c → IsSized n (calls.expl_annihilate c e).1
  pub expl_annihilate_continue :
      (c : Config W) (e : Expl) → IsSized n c → IsSized n (calls.expl_annihilate_continue c e).1
  pub expl_annihilate_clear :
      (c : Config W) (e : Expl) → IsSized n c → IsSized n (calls.expl_annihilate_clear c e).1
  pub expl_annihilate_clear_continue :
      (c : Config W) (e : Expl)
      → IsSized n c
      → IsSized n (calls.expl_annihilate_clear_continue c e).1
  pub land_drop : (c : Config W) (x r : ℤ) → IsSized n c → IsSized n (calls.land_drop c x r).1

-- The states in which `g->curplayer` must name a player.
abbrev pub needs_player : State → Bool
needs_player inventory_pl_begin = true
needs_player inventory_pl_idle = true
needs_player inventory_pl_done = true
needs_player turn_pl_begin = true
needs_player turn_pl_idle = true
needs_player turn_pl_done = true
needs_player run_talk = true
needs_player _ = false

abbrev pub code_needs_player : Option State → Bool
code_needs_player none = false
code_needs_player (some s) = needs_player s

abbrev pub HasPlayer : ℕ → Game → Type 0
HasPlayer n g = code_needs_player (decode g.state) ≡ true → g.curplayer < n

pub record IsReady {W : Type 0} (n : ℕ) (c : Config W) (g : Game) : Type 0 where
  pub sized : IsSized n c
  pub player : HasPlayer n g

-- What a handler may come back with: anything but a fault, and ready for the next step.
pub data IsGood {W : Type 0} (n : ℕ) : Next W → Type 0 where
  waits : {c : Config W} {g : Game} → IsReady n c g → IsGood n (wait c g)
  runs : {c : Config W} {g : Game} {later : Bool} → IsReady n c g → IsGood n (again c g later)
  spent : IsGood n out_of_fuel

module _ {W : Type 0} {n : ℕ} where
  ready :
      (s : State) (c : Config W) (g : Game)
      → IsSized n c
      → (needs_player s ≡ true → g.curplayer < n)
      → IsReady n c (record g { state = code s })
  ready s c g z h = record { sized = z; player = λ k. h (rw decode-code at k) }

  pub wait-IsGood :
      (c : Config W) (g : Game) (s : State) (delay : ℕ)
      → IsSized n c
      → (needs_player s ≡ true → g.curplayer < n)
      → IsGood n (wait c (set_state g s delay))
  unfolding set_state
  wait-IsGood c g s delay z h =
      waits (ready s c (record g { timeout = postpone_timeout g.timeout delay }) z h)

  pub reinstate-IsGood :
      (c : Config W) (g : Game) (delay : ℕ)
      → IsSized n c
      → HasPlayer n g
      → IsGood n (wait c (reinstate g delay))
  unfolding reinstate
  reinstate-IsGood c g delay z h = waits (record { sized = z; player = h })

  pub if_IsGood :
      (b : Bool) {x y : Next W}
      → (b ≡ true → IsGood n x)
      → (b ≡ false → IsGood n y)
      → IsGood n (if b then x else y)
  if_IsGood true h k = h refl
  if_IsGood false h k = k refl

-- The ways to set a state, each good where the state's needs are met.
module _ {W : Type 0} {calls : Calls W} {n : ℕ} (keeps : Keeps n calls) where
  pub now-IsGood :
      (c : Config W) (g : Game) (s : State)
      → IsSized n c
      → (needs_player s ≡ true → g.curplayer < n)
      → IsGood n (set_state_now calls c g s)
  unfolding set_state_now
  now-IsGood c g s z h =
      runs (ready s _ (record g { timeout = (calls.time c).0 }) (keeps.time c z) h)

  pub now_then-IsGood :
      (c : Config W) (g : Game) (s : State)
      → IsSized n c
      → (needs_player s ≡ true → g.curplayer < n)
      → IsGood n (set_state_now_then calls c g s)
  unfolding set_state_now_then
  now_then-IsGood c g s z h =
      runs (ready s _ (record g { timeout = (calls.time c).0 }) (keeps.time c z) h)

  pub asap-IsGood :
      (c : Config W) (g : Game) (s : State)
      → IsSized n c
      → (needs_player s ≡ true → g.curplayer < n)
      → IsGood n (set_state_asap calls c g s)
  unfolding set_state_asap
  asap-IsGood c g s z h =
      waits (ready s _ (record g { timeout = (calls.time c).0 }) (keeps.time c z) h)

  pub allow_now-IsGood :
      (c : Config W) (g : Game) (s : State) (delay : ℕ)
      → IsSized n c
      → (needs_player s ≡ true → g.curplayer < n)
      → IsGood n (set_state_allow_now calls c g s delay)
  unfolding set_state_allow_now
  allow_now-IsGood c g s delay z h =
      if_IsGood (leb delay 0) (λ _. now-IsGood c g s z h) (λ _. wait-IsGood c g s delay z h)

  pub reinstate_now-IsGood :
      (c : Config W) (g : Game) → IsSized n c → HasPlayer n g → IsGood n (reinstate_now calls c g)
  unfolding reinstate_now
  reinstate_now-IsGood c g z h = runs (record { sized = keeps.time c z; player = h })

  pub reinstate_allow_now-IsGood :
      (c : Config W) (g : Game) (delay : ℕ)
      → IsSized n c
      → HasPlayer n g
      → IsGood n (reinstate_allow_now calls c g delay)
  unfolding reinstate_allow_now
  reinstate_allow_now-IsGood c g delay z h =
      if_IsGood (leb delay 0) (λ _. reinstate_now-IsGood c g z h)
        (λ _. reinstate-IsGood c g delay z h)

pub get_elem?_in {ℓ} :
    {A : Type ℓ} (xs : List A) (i : ℕ) → i < length xs → (x : A) × (get_elem? xs i ≡ some x)
get_elem?_in [] i h = elim h [ ]
get_elem?_in (x ∷ xs) zero h = (x, refl)
get_elem?_in (x ∷ xs) (suc i) h = get_elem?_in xs i (omega arith)

AllBelow-get_elem? :
    (n : ℕ) (js : List ℕ) (i : ℕ) {j : ℕ} → AllBelow n js → get_elem? js i ≡ some j → j < n
AllBelow-get_elem? n [] i h e = cc
AllBelow-get_elem? n (k ∷ js) zero h e = ground arith
AllBelow-get_elem? n (k ∷ js) (suc i) h e = AllBelow-get_elem? n js i h.1 e

module _ {W : Type 0} {n : ℕ} (c : Config W) (z : IsSized n c) where
  -- A read of a slot in use does not fault.
  pub player_at-IsGood :
      (i : ℕ) (k : Player → Next W)
      → i < n
      → ((p : Player) → get_elem? c.players i ≡ some p → IsGood n (k p))
      → IsGood n (player_at c i k)
  player_at-IsGood i k h good =
      let (p, e) = get_elem?_in c.players i (omega (arith, z.slots)) in rw (e, player_at) (good p e)

  pub order_at-IsGood :
      (i : ℕ) (k : ℕ → Player → Next W)
      → i < n
      → ((j : ℕ) (p : Player) → j < n → IsGood n (k j p))
      → IsGood n (order_at c i k)
  order_at-IsGood i k h good =
      let (j, e) = get_elem?_in c.plorder i (omega (arith, z.order)) in
      let jn = AllBelow-get_elem? n c.plorder i z.below e in
      rw (e, order_at) (player_at-IsGood j (k j) jn (λ p _. good j p jn))

  -- Writing a slot keeps the sizes.
  pub IsSized-set : (i : ℕ) (p : Player) → IsSized n (record c { players = set c.players i p })
  IsSized-set i p = record {
    count = z.count;
    slots = length-set c.players i p ∙ z.slots;
    order = z.order;
    below = z.below;
    someone = z.someone;
  }
