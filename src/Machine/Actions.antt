-- ===== src/Machine/Actions.antt =====
-- The actions on one explosion, and the loop over the queues: `_sc_state_run_draw_expl` to
-- `_sc_state_run_explosion_nosimult` of sgame/sstate.c. An action's state is the configuration
-- beside the five queues.
use xscorch.Prelude.{ℕ, zero, suc, Bool, not, true, false, ◌||◌, Option, none, some, if◌then◌else◌}
use xscorch.Game.Queue.{
  Expl, queue_item_free, queue_item_move, queue_item_move_prepend, queue_postpone,
  queue_do_runnable, queue_run_first,
}
use xscorch.Machine.World.{Config, Queues, Calls, fast, explosion_steps, nextiter_steps, is_empty}

-- `sc_game_expl_queue_postpone`: the explosion is on one of the five chains.
unfoldable pub postpone : ℕ → ℕ → Queues → Queues
unfolding queue_postpone
postpone e delay q = record {
  expl_init = queue_postpone e delay q.expl_init;
  expl_draw = queue_postpone e delay q.expl_draw;
  expl_clear_init = queue_postpone e delay q.expl_clear_init;
  expl_clear = queue_postpone e delay q.expl_clear;
  expl_done = queue_postpone e delay q.expl_done;
}

-- The moves between the chains that the actions make.
unfoldable pub init_to_clear_init : ℕ → Queues → Queues
init_to_clear_init e q =
    let (dst, src) = queue_item_move_prepend q.expl_clear_init q.expl_init e in
    record q { expl_clear_init = dst; expl_init = src }

unfoldable pub init_to_draw : ℕ → Queues → Queues
init_to_draw e q =
    let (dst, src) = queue_item_move q.expl_draw q.expl_init e in
    record q { expl_draw = dst; expl_init = src }

unfoldable pub draw_to_clear_init : ℕ → Queues → Queues
draw_to_clear_init e q =
    let (dst, src) = queue_item_move_prepend q.expl_clear_init q.expl_draw e in
    record q { expl_clear_init = dst; expl_draw = src }

unfoldable pub clear_init_to_done : ℕ → Queues → Queues
clear_init_to_done e q =
    let (dst, src) = queue_item_move q.expl_done q.expl_clear_init e in
    record q { expl_done = dst; expl_clear_init = src }

unfoldable pub clear_init_to_clear : ℕ → Queues → Queues
clear_init_to_clear e q =
    let (dst, src) = queue_item_move q.expl_clear q.expl_clear_init e in
    record q { expl_clear = dst; expl_clear_init = src }

unfoldable pub clear_to_done : ℕ → Queues → Queues
clear_to_done e q =
    let (dst, src) = queue_item_move q.expl_done q.expl_clear e in
    record q { expl_done = dst; expl_clear = src }

unfoldable pub free_done : ℕ → Queues → Queues
free_done e q = record q { expl_done = queue_item_free q.expl_done e }

module _ {W : Type 0} (calls : Calls W) where
  open calls use {
    expl_annihilate, expl_annihilate_continue, expl_annihilate_clear,
    expl_annihilate_clear_continue, player_damage_all, land_drop,
  }

  unfoldable pub run_draw_expl : Config W × Queues → Expl → Bool × (Config W × Queues)
  run_draw_expl (c, q) e =
      let (executing, c') = expl_annihilate c e in
      if executing
      then (true, (c', postpone e.id (fast c' nextiter_steps) (init_to_draw e.id q)))
      else (true, (c', postpone e.id (fast c' explosion_steps) (init_to_clear_init e.id q)))

  unfoldable pub run_draw_expl_cont : Config W × Queues → Expl → Bool × (Config W × Queues)
  run_draw_expl_cont (c, q) e =
      let (executing, c') = expl_annihilate_continue c e in
      if executing
      then (true, (c', postpone e.id (fast c' nextiter_steps) q))
      else (true, (c', postpone e.id (fast c' explosion_steps) (draw_to_clear_init e.id q)))

  unfoldable pub run_clear_expl : Config W × Queues → Expl → Bool × (Config W × Queues)
  run_clear_expl (c, q) e =
      let (executing, c') = expl_annihilate_clear (player_damage_all c e) e in
      if executing
      then (true, (c', postpone e.id (fast c' nextiter_steps) (clear_init_to_clear e.id q)))
      else (true, (c', postpone e.id (fast c' nextiter_steps) (clear_init_to_done e.id q)))

  unfoldable pub run_clear_expl_cont : Config W × Queues → Expl → Bool × (Config W × Queues)
  run_clear_expl_cont (c, q) e =
      let (executing, c') = expl_annihilate_clear_continue c e in
      if executing
      then (true, (c', postpone e.id (fast c' nextiter_steps) q))
      else (true, (c', postpone e.id (fast c' nextiter_steps) (clear_to_done e.id q)))

  unfoldable pub run_land_fall : Config W × Queues → Expl → Bool × (Config W × Queues)
  run_land_fall (c, q) e =
      let (falling, c') = land_drop c e.centerx e.radius in
      if falling
      then (true, (c', postpone e.id (fast c' nextiter_steps) q))
      else (false, (c', free_done e.id q))

  -- Every queue in turn.
  unfoldable pub run_explosion_simult : Config W × Queues → Bool × (Config W × Queues)
  run_explosion_simult s =
      let (r1, s1) = queue_do_runnable run_draw_expl s.1.expl_init s in
      let (r2, s2) = queue_do_runnable run_draw_expl_cont s1.1.expl_draw s1 in
      let (r3, s3) = queue_do_runnable run_clear_expl s2.1.expl_clear_init s2 in
      let (r4, s4) = queue_do_runnable run_clear_expl_cont s3.1.expl_clear s3 in
      let (r5, s5) = queue_do_runnable run_land_fall s4.1.expl_done s4 in
      (r5 || (r4 || (r3 || (r2 || r1))), s5)

  -- One explosion, of the first of the queues `done`, `clear`, `clear_init`, `draw` and `init` that
  -- is not empty.
  unfoldable pub run_explosion_nosimult : Config W × Queues → Bool × (Config W × Queues)
  run_explosion_nosimult s =
      if not (is_empty s.1.expl_done)
      then queue_run_first run_land_fall s.1.expl_done s
      else if not (is_empty s.1.expl_clear)
      then queue_run_first run_clear_expl_cont s.1.expl_clear s
      else if not (is_empty s.1.expl_clear_init)
      then queue_run_first run_clear_expl s.1.expl_clear_init s
      else if not (is_empty s.1.expl_draw)
      then queue_run_first run_draw_expl_cont s.1.expl_draw s
      else if not (is_empty s.1.expl_init)
      then queue_run_first run_draw_expl s.1.expl_init s
      else (false, s)

  -- The body of the loop of `_sc_state_run_explosion`, and the loop, on fuel.
  unfoldable pub explosion_pass : Config W × Queues → Bool × (Config W × Queues)
  explosion_pass s = if s.0.interleave then run_explosion_simult s else run_explosion_nosimult s

  unfoldable pub explosion_loop : ℕ → Config W × Queues → Option (Config W × Queues)
  explosion_loop zero s = none
  explosion_loop (suc fuel) s =
      let (result, s') = explosion_pass s in
      let rest = explosion_loop fuel s' in if result then rest else some s'
