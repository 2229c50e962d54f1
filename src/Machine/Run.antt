-- ===== src/Machine/Run.antt =====
-- `sc_state_run` of sgame/sstate.c: the switch over the states, and the machine run until it waits
-- for the next timer event. A handler that sets a state `now` calls `sc_state_run` again; each such
-- call takes fuel.
use xscorch.Prelude.{ℕ, zero, suc, ◌+◌, Bool, true, false, Option, some}
use xscorch.Game.{is_due}
use xscorch.Machine.Codes.{
  State, prelude_begin, game_begin, game_end, game_end_done, inventory_begin, inventory_pl_begin,
  inventory_pl_done, round_begin, auto_defense_loop, lottery_display, round_end, round_end_done,
  turn_begin, turn_pl_begin, turn_pl_done, turn_pl_next, turn_end, run_talk, run_creation,
  run_weapons, run_explosion, run_player_drop, run_player_death, run_end, decode,
}
use xscorch.Machine.World.{Config, Game, Calls, delay_long}
use xscorch.Machine.Handlers.{
  Next, wait, again, reinstate, do_prelude_begin, do_game_begin, do_game_end, do_inventory_begin,
  do_inventory_pl_begin, do_inventory_pl_done, do_round_begin, do_auto_defense, do_lottery_display,
  do_round_end, do_turn_begin, do_turn_pl_begin, do_turn_pl_done, do_turn_pl_next, do_run_talk,
  do_run_creation, do_run_weapons, do_run_explosion, do_run_player_drop, do_run_player_death,
  do_run_end,
}

pub data Outcome (W : Type 0) : Type 0 where
  rest : Config W → Game → Outcome W
  fault : Outcome W
  out_of_fuel : Outcome W

abbrev pub bump : Bool → Game → Game
bump true g = record g { substate = g.substate + 1 }
bump false g = g

-- What is left to do once the call that a handler made has returned.
abbrev pub resume : {W : Type 0} → Bool → Outcome W → Outcome W
resume later (rest c g) = rest c (bump later g)
resume later fault = fault
resume later out_of_fuel = out_of_fuel

module _ {W : Type 0} (calls : Calls W) where
  -- The switch. `fuel` is for the loop over the explosion queues.
  unfoldable pub dispatch : ℕ → Option State → Config W → Game → Next W
  dispatch fuel (some prelude_begin) c g = do_prelude_begin calls c g
  dispatch fuel (some game_end_done) c g = do_prelude_begin calls c g
  dispatch fuel (some game_begin) c g = do_game_begin calls c g
  dispatch fuel (some game_end) c g = do_game_end calls c g
  dispatch fuel (some inventory_begin) c g = do_inventory_begin calls c g
  dispatch fuel (some round_end_done) c g = do_inventory_begin calls c g
  dispatch fuel (some inventory_pl_begin) c g = do_inventory_pl_begin calls c g
  dispatch fuel (some inventory_pl_done) c g = do_inventory_pl_done calls c g
  dispatch fuel (some auto_defense_loop) c g = do_auto_defense calls c g
  dispatch fuel (some lottery_display) c g = do_lottery_display calls c g
  dispatch fuel (some round_begin) c g = do_round_begin calls c g
  dispatch fuel (some round_end) c g = do_round_end calls c g
  dispatch fuel (some turn_begin) c g = do_turn_begin calls c g
  dispatch fuel (some turn_end) c g = do_turn_begin calls c g
  dispatch fuel (some turn_pl_begin) c g = do_turn_pl_begin calls c g
  dispatch fuel (some turn_pl_done) c g = do_turn_pl_done calls c g
  dispatch fuel (some turn_pl_next) c g = do_turn_pl_next calls c g
  dispatch fuel (some run_talk) c g = do_run_talk calls c g
  dispatch fuel (some run_creation) c g = do_run_creation calls c g
  dispatch fuel (some run_weapons) c g = do_run_weapons calls c g
  dispatch fuel (some run_explosion) c g = do_run_explosion calls fuel c g
  dispatch fuel (some run_player_drop) c g = do_run_player_drop calls c g
  dispatch fuel (some run_player_death) c g = do_run_player_death calls c g
  dispatch fuel (some run_end) c g = do_run_end calls c g
  dispatch fuel _ c g = wait c (reinstate g delay_long)

  -- `expl_fuel` is what every loop over the explosion queues gets.
  unfoldable pub run : ℕ → ℕ → Config W → Game → Outcome W
  unfolding dispatch
  run expl_fuel zero c g = out_of_fuel
  run expl_fuel (suc fuel) c g =
      let (now, c') = calls.time c in
      elim (is_due now g.timeout) [
        | false ↦ rest c' g
        | true ↦ elim (dispatch expl_fuel (decode g.state) c' g) [
          | wait c1 g1 ↦ rest c1 g1
          | again c1 g1 later ↦ resume later (run expl_fuel fuel c1 g1)
          | Next.fault ↦ fault
          | Next.out_of_fuel ↦ out_of_fuel
        ]
      ]
