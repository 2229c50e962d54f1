-- ===== src/Machine/Explosions/Tests.antt =====
-- A run of the loop over the explosions, and instances of its properties.
use xscorch.Prelude.{[], ◌∷◌, ◌+◌, ◌≤◌, some, ◌≡◌, refl, arith}
use xscorch.Machine.Tests.{still, duel, blast, one_blast}
use xscorch.Game.Queue.{queue_run_first, queue_item_move_prepend}
use xscorch.Machine.World.{Config, Queues, explosion_steps}
use xscorch.Machine.Actions.{
  postpone, init_to_clear_init, run_draw_expl, run_draw_expl_cont, run_clear_expl,
  run_clear_expl_cont, run_land_fall, explosion_pass, explosion_loop, run_explosion_nosimult,
}
use xscorch.Machine.Explosions.{held, actions-occurs}
use xscorch.Machine.Explosions.Passes.{explosion_loop-occurs}
use xscorch.Machine.Explosions.Lighter.{weight, IsSlow}
use xscorch.Machine.Explosions.Ends.{explosion_loop_ends}
use xscorch.Prelude.{ℕ}

-- The explosion has been drawn, and waits to be cleared.
abbrev drawn : Queues
drawn = record one_blast {
  expl_init = [];
  expl_clear_init = record blast { counter = explosion_steps } ∷ [];
}

draws_one_blast : explosion_loop still 5 (duel, one_blast) ≡ some (duel, drawn)
unfolding explosion_loop explosion_pass run_explosion_nosimult queue_run_first run_draw_expl
    postpone init_to_clear_init queue_item_move_prepend
draws_one_blast = refl

explosion_loop-occurs_example : held 7 (duel, drawn) ≤ held 7 (duel, one_blast)
explosion_loop-occurs_example =
    explosion_loop-occurs still 5 7 (duel, one_blast) (duel, drawn) draws_one_blast

actions-occurs_example :
    (held 7 (run_draw_expl still (duel, one_blast) blast).1 ≡ held 7 (duel, one_blast))
    × (held 7 (run_draw_expl_cont still (duel, one_blast) blast).1 ≡ held 7 (duel, one_blast))
    × (held 7 (run_clear_expl still (duel, one_blast) blast).1 ≡ held 7 (duel, one_blast))
    × (held 7 (run_clear_expl_cont still (duel, one_blast) blast).1 ≡ held 7 (duel, one_blast))
    × (held 7 (duel, one_blast) ≡ held 7 (run_land_fall still (duel, one_blast) blast).1 + 0)
actions-occurs_example = actions-occurs still 7 (duel, one_blast) blast

still-IsSlow : IsSlow still
still-IsSlow = record {
  expl_annihilate = λ c e h. h;
  expl_annihilate_continue = λ c e h. h;
  expl_annihilate_clear = λ c e h. h;
  expl_annihilate_clear_continue = λ c e h. h;
  player_damage_all = λ c e h. h;
  land_drop = λ c x r h. h;
}

explosion_loop_ends_example :
    (t : Config ℕ × Queues) × (explosion_loop still 3 (duel, one_blast) ≡ some t)
    × (weight t ≤ weight (duel, one_blast))
explosion_loop_ends_example =
    explosion_loop_ends still-IsSlow 3 (duel, one_blast) refl (omega arith)
