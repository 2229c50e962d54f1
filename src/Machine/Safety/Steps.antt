-- ===== src/Machine/Safety/Steps.antt =====
-- `sc_state_run` of sgame/sstate.c as a whole never reads a player out of range.
use xscorch.Prelude.{
  ℕ, zero, suc, ◌<◌, Bool, true, false, Option, none, some, ◌≡◌, Bool-cases, inl, inr,
}
use xscorch.Game.{is_due}
use xscorch.Machine.Codes.{
  State, inventory_pl_begin, turn_pl_begin, turn_pl_done, run_talk, prelude_begin, game_begin,
  game_end, game_end_done, inventory_begin, inventory_pl_done, round_begin, auto_defense_loop,
  lottery_display, round_end, round_end_done, turn_begin, turn_pl_next, turn_end, run_creation,
  run_weapons, run_explosion, run_player_drop, run_player_death, run_end, decode,
}
use xscorch.Machine.World.{Config, Game, Calls, delay_long}
use xscorch.Machine.Handlers.{Next}
use xscorch.Machine.Run.{Outcome, rest, fault, out_of_fuel, dispatch, resume, run}
use xscorch.Machine.Safety.{
  IsSized, Keeps, HasPlayer, IsReady, IsGood, waits, runs, spent, code_needs_player,
  reinstate-IsGood,
}
use xscorch.Machine.Safety.Rounds.{
  prelude_begin-IsGood, game_begin-IsGood, game_end-IsGood, inventory_begin-IsGood,
  inventory_pl_begin-IsGood, inventory_pl_done-IsGood, round_begin-IsGood, auto_defense-IsGood,
  lottery_display-IsGood,
}
use xscorch.Machine.Safety.Turns.{
  round_end-IsGood, turn_begin-IsGood, turn_pl_begin-IsGood, turn_pl_done-IsGood,
  turn_pl_next-IsGood, run_talk-IsGood,
}
use xscorch.Machine.Safety.Runs.{
  run_creation-IsGood, run_weapons-IsGood, run_explosion-IsGood, run_player_drop-IsGood,
  run_player_death-IsGood, run_end-IsGood,
}

module _ {W : Type 0} {calls : Calls W} {n : ℕ} (keeps : Keeps n calls) where
  dispatch-IsGood :
      (fuel : ℕ) (o : Option State) (c : Config W) (g : Game)
      → IsSized n c
      → HasPlayer n g
      → (code_needs_player o ≡ true → g.curplayer < n)
      → IsGood n (dispatch calls fuel o c g)
  unfolding dispatch
  dispatch-IsGood fuel none c g z h k = reinstate-IsGood c g delay_long z h
  dispatch-IsGood fuel (some prelude_begin) c g z h k = prelude_begin-IsGood keeps c g z
  dispatch-IsGood fuel (some game_end_done) c g z h k = prelude_begin-IsGood keeps c g z
  dispatch-IsGood fuel (some game_begin) c g z h k = game_begin-IsGood keeps c g z
  dispatch-IsGood fuel (some game_end) c g z h k = game_end-IsGood keeps c g z
  dispatch-IsGood fuel (some inventory_begin) c g z h k = inventory_begin-IsGood keeps c g z
  dispatch-IsGood fuel (some round_end_done) c g z h k = inventory_begin-IsGood keeps c g z
  dispatch-IsGood fuel (some inventory_pl_begin) c g z h k =
      inventory_pl_begin-IsGood keeps c g z (k cc)
  dispatch-IsGood fuel (some inventory_pl_done) c g z h k = inventory_pl_done-IsGood keeps c g z
  dispatch-IsGood fuel (some auto_defense_loop) c g z h k = auto_defense-IsGood keeps c g z
  dispatch-IsGood fuel (some lottery_display) c g z h k = lottery_display-IsGood keeps c g z
  dispatch-IsGood fuel (some round_begin) c g z h k = round_begin-IsGood keeps c g z
  dispatch-IsGood fuel (some round_end) c g z h k = round_end-IsGood keeps c g z
  dispatch-IsGood fuel (some turn_begin) c g z h k = turn_begin-IsGood keeps c g z
  dispatch-IsGood fuel (some turn_end) c g z h k = turn_begin-IsGood keeps c g z
  dispatch-IsGood fuel (some turn_pl_begin) c g z h k = turn_pl_begin-IsGood keeps c g z (k cc)
  dispatch-IsGood fuel (some turn_pl_done) c g z h k = turn_pl_done-IsGood keeps c g z (k cc)
  dispatch-IsGood fuel (some turn_pl_next) c g z h k = turn_pl_next-IsGood keeps c g z
  dispatch-IsGood fuel (some run_talk) c g z h k = run_talk-IsGood keeps c g z (k cc)
  dispatch-IsGood fuel (some run_creation) c g z h k = run_creation-IsGood keeps c g z
  dispatch-IsGood fuel (some run_weapons) c g z h k = run_weapons-IsGood keeps c g z h
  dispatch-IsGood fuel (some run_explosion) c g z h k = run_explosion-IsGood keeps c g z fuel
  dispatch-IsGood fuel (some run_player_drop) c g z h k = run_player_drop-IsGood keeps c g z h
  dispatch-IsGood fuel (some run_player_death) c g z h k = run_player_death-IsGood keeps c g z h
  dispatch-IsGood fuel (some run_end) c g z h k = run_end-IsGood keeps c g z
  dispatch-IsGood fuel (some _) c g z h k = reinstate-IsGood c g delay_long z h

-- What a run may come to: a rest that is ready for the next timer event, or the end of the fuel.
pub data IsSafe {W : Type 0} (n : ℕ) : Outcome W → Type 0 where
  rests : {c : Config W} {g : Game} → IsReady n c g → IsSafe n (rest c g)
  stops : IsSafe n out_of_fuel

resume-IsSafe :
    {W : Type 0} {n : ℕ} (later : Bool) (o : Outcome W) → IsSafe n o → IsSafe n (resume later o)
resume-IsSafe true (rest c g) (rests r) = rests (record { sized = r.sized; player = r.player })
resume-IsSafe false (rest c g) (rests r) = rests r
resume-IsSafe later fault s = elim s [ ]
resume-IsSafe _ out_of_fuel stops = stops

module _ {W : Type 0} {calls : Calls W} {n : ℕ} (keeps : Keeps n calls) where
  finish-IsSafe :
      (expl_fuel fuel : ℕ) (x : Next W)
      → IsGood n x
      → ((c : Config W) (g : Game) → IsReady n c g → IsSafe n (run calls expl_fuel fuel c g))
      → IsSafe n (elim x [
        | Next.wait c g ↦ rest c g
        | Next.again c g later ↦ resume later (run calls expl_fuel fuel c g)
        | Next.fault ↦ fault
        | Next.out_of_fuel ↦ out_of_fuel
      ])
  finish-IsSafe expl_fuel fuel (Next.wait c g) (waits r) next = rests r
  finish-IsSafe expl_fuel fuel (Next.again c g later) (runs r) next =
      resume-IsSafe later (run calls expl_fuel fuel c g) (next c g r)
  finish-IsSafe expl_fuel fuel Next.fault g next = elim g [ ]
  finish-IsSafe expl_fuel fuel Next.out_of_fuel spent next = stops

  -- From a configuration of n players, n at least 1, with a turn order that names only players, and
  -- with a player counter that is in range where the state reads it, the machine reads no player
  -- and no turn out of range, whichever way the calls it makes come out and however long it runs;
  -- and when it waits for the next timer event, all this holds again. Assumed: the calls that go out
  -- keep the number of players and keep the turn order one of players.
  pub run-IsSafe :
      (expl_fuel fuel : ℕ) (c : Config W) (g : Game)
      → IsReady n c g
      → IsSafe n (run calls expl_fuel fuel c g)
  unfolding run
  run-IsSafe expl_fuel zero c g r = stops
  run-IsSafe expl_fuel (suc fuel) c g r =
      let c' = (calls.time c).1 in
      let z = keeps.time c r.sized in
      elim (Bool-cases (is_due (calls.time c).0 g.timeout)) [
        | inl e ↦
            rw (e, run)
              (finish-IsSafe expl_fuel fuel (dispatch calls expl_fuel (decode g.state) c' g)
                (dispatch-IsGood keeps expl_fuel (decode g.state) c' g z r.player r.player)
                (run-IsSafe expl_fuel fuel))
        | inr e ↦ rw (e, run) (rests (record { sized = z; player = r.player }))
      ]
