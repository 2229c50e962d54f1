-- ===== src/Machine/Graph.antt =====
-- The state diagram of `sc_state_run` in sgame/sstate.c: which states may follow which.
use xscorch.Prelude.{ℕ, List, [], ◌∷◌, Bool, true, false, ◌||◌, some, ◌≡◌, refl, arith, ◌==◌}
use xscorch.Machine.Codes.{
  State, prelude_begin, prelude_idle, game_begin, game_end, game_end_idle, game_end_done,
  inventory_begin, inventory_pl_begin, inventory_pl_idle, inventory_pl_done, round_begin,
  auto_defense, auto_defense_loop, lottery_display, lottery_display_wait, round_end, round_end_idle,
  round_end_done, turn_begin, turn_pl_begin, turn_pl_idle, turn_pl_done, turn_pl_next, turn_end,
  run_talk, run_creation, run_weapons, run_explosion, run_player_drop, run_player_death, run_end,
  code,
}
use xscorch.Machine.World.{Config, Game, Calls, Mode, sequential, synchronous}
use xscorch.Machine.Handlers.{
  Next, wait, again, fault, out_of_fuel, reinstate, set_state, reinstate_now, set_state_now,
  set_state_now_then, set_state_asap, set_state_allow_now, reinstate_allow_now, do_prelude_begin,
  do_game_begin, do_game_end, do_inventory_begin, do_inventory_pl_begin, do_inventory_pl_done,
  do_round_begin, do_auto_defense, do_lottery_display, do_round_end, do_turn_begin,
  do_turn_pl_begin, do_turn_pl_done, do_turn_pl_next, do_run_talk, do_run_creation, do_run_weapons,
  explosion_next, do_run_explosion, do_run_player_drop, kill_player, after_death,
  do_run_player_death, do_run_end,
}
use xscorch.Machine.Run.{dispatch}

-- The diagram that the comments over the cases of the switch draw. AUTO_DEFENSE_LOOP and
-- LOTTERY_DISPLAY have none. A state that the switch has no case for stays.
abbrev pub drawn : Mode → State → List State
drawn m prelude_begin = prelude_idle ∷ []
drawn m game_end_done = prelude_idle ∷ []
drawn m game_begin = inventory_begin ∷ []
drawn m game_end = game_end_idle ∷ []
drawn m inventory_begin = inventory_pl_begin ∷ []
drawn m round_end_done = inventory_pl_begin ∷ []
drawn m inventory_pl_begin = inventory_pl_idle ∷ inventory_pl_done ∷ []
drawn m inventory_pl_done = inventory_pl_begin ∷ auto_defense_loop ∷ []
drawn m auto_defense_loop = []
drawn m lottery_display = []
drawn m round_begin = turn_begin ∷ []
drawn m round_end = round_end_idle ∷ game_end ∷ []
drawn m turn_begin = turn_pl_begin ∷ round_end ∷ []
drawn m turn_end = turn_pl_begin ∷ round_end ∷ []
drawn m turn_pl_begin = turn_pl_done ∷ turn_pl_idle ∷ []
drawn sequential turn_pl_done = run_talk ∷ []
drawn synchronous turn_pl_done = turn_pl_next ∷ []
drawn sequential turn_pl_next = turn_pl_begin ∷ turn_end ∷ []
drawn synchronous turn_pl_next = turn_pl_begin ∷ run_talk ∷ []
drawn sequential run_talk = run_creation ∷ []
drawn synchronous run_talk = run_talk ∷ run_creation ∷ []
drawn m run_creation = run_weapons ∷ run_explosion ∷ []
drawn m run_weapons = run_weapons ∷ run_explosion ∷ run_end ∷ []
drawn m run_explosion = run_explosion ∷ run_player_drop ∷ []
drawn m run_player_drop = run_player_drop ∷ run_player_death ∷ []
drawn m run_player_death = run_player_death ∷ run_end ∷ []
drawn sequential run_end = turn_pl_next ∷ []
drawn synchronous run_end = turn_end ∷ []
drawn m s = s ∷ []

-- The states that may follow a state: those of the drawing, but for four states whose comments name
-- others than the code sets, and the two that have no drawing.
abbrev pub successors : Mode → State → List State
successors m inventory_pl_done = inventory_pl_begin ∷ round_begin ∷ []
successors m auto_defense_loop = auto_defense_loop ∷ auto_defense ∷ lottery_display ∷ []
successors m lottery_display = lottery_display_wait ∷ turn_begin ∷ []
successors m round_begin = auto_defense_loop ∷ []
successors m run_player_drop = run_player_drop ∷ run_weapons ∷ run_player_death ∷ []
successors m run_player_death = run_player_death ∷ run_explosion ∷ run_weapons ∷ []
successors m s = drawn m s

abbrev pub is_code_of : ℕ → List State → Bool
is_code_of n [] = false
is_code_of n (s ∷ ss) = n == code s || is_code_of n ss

-- The state that a handler has set is the number of one on the list, if it set one.
abbrev pub leads_to : {W : Type 0} → List State → Next W → Bool
leads_to ss (wait c g) = is_code_of g.state ss
leads_to ss (again c g later) = is_code_of g.state ss
leads_to ss fault = true
leads_to ss out_of_fuel = true

module _ {W : Type 0} (calls : Calls W) (fuel : ℕ) (c : Config W) (g : Game) where
  -- Whatever the calls do, a handler that is run in a state leaves the game in a state that may
  -- follow it in the game's mode, unless it faults or a loop runs out of fuel. What may follow is
  -- what the comments over the switch's cases draw, but for six states: after INVENTORY_PL_DONE
  -- ROUND_BEGIN in place of AUTO_DEFENSE_LOOP, after ROUND_BEGIN AUTO_DEFENSE_LOOP in place of
  -- TURN_BEGIN, after RUN_PLAYER_DROP RUN_WEAPONS too, after RUN_PLAYER_DEATH RUN_WEAPONS and
  -- RUN_EXPLOSION in place of RUN_END; and after AUTO_DEFENSE_LOOP and LOTTERY_DISPLAY, which have
  -- no drawing, either itself, AUTO_DEFENSE or LOTTERY_DISPLAY, and LOTTERY_DISPLAY_WAIT or
  -- TURN_BEGIN.
  pub dispatch-successors :
      (s : State)
      → g.state ≡ code s
      → leads_to (successors c.mode s) (dispatch calls fuel (some s) c g) ≡ true
  unfolding code dispatch reinstate set_state reinstate_now set_state_now set_state_now_then
      set_state_asap set_state_allow_now reinstate_allow_now do_prelude_begin do_game_begin
      do_game_end do_inventory_begin do_inventory_pl_begin do_inventory_pl_done do_round_begin
      do_auto_defense do_lottery_display do_round_end do_turn_begin do_turn_pl_begin do_turn_pl_done
      do_turn_pl_next do_run_talk do_run_creation do_run_weapons explosion_next do_run_explosion
      do_run_player_drop kill_player after_death do_run_player_death do_run_end
  dispatch-successors prelude_begin h = refl
  dispatch-successors game_end_done h = refl
  dispatch-successors game_begin h = refl
  dispatch-successors game_end h = refl
  dispatch-successors inventory_begin h = refl
  dispatch-successors round_end_done h = refl
  dispatch-successors inventory_pl_begin h = ground arith
  dispatch-successors inventory_pl_done h = ground arith
  dispatch-successors round_begin h = refl
  dispatch-successors auto_defense_loop h = ground arith
  dispatch-successors lottery_display h = ground arith
  dispatch-successors round_end h = ground arith
  dispatch-successors turn_begin h = ground arith
  dispatch-successors turn_end h = ground arith
  dispatch-successors turn_pl_begin h = ground arith
  dispatch-successors turn_pl_done h = ground arith
  dispatch-successors turn_pl_next h = ground arith
  dispatch-successors run_talk h = ground arith
  dispatch-successors run_creation h = ground arith
  dispatch-successors run_weapons h = ground arith
  dispatch-successors run_explosion h = ground arith
  dispatch-successors run_player_drop h = ground arith
  dispatch-successors run_player_death h = ground arith
  dispatch-successors run_end h = ground arith
  dispatch-successors _ h = ground arith
