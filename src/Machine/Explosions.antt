-- ===== src/Machine/Explosions.antt =====
-- What the explosion actions of sgame/sstate.c do to the five chains together: none of them doubles
-- an explosion, and only the fall of the land lets one go.
pub mod Passes
pub mod Weights
pub mod Lighter
pub mod Ends
mod Tests
use xscorch.Prelude.{
  ℕ, zero, suc, ◌+◌, ◌≤◌, ◌<◌, Bool, true, false, not, ◌≡◌, refl, sym, ◌∙◌, arith, ◌==◌,
  if◌then◌else◌, Option, some, Bool-cases, inl, inr,
}
use mathlib.Core.Option.{some-injective}
use mathlib.Core.Path.{subst}
use xscorch.Game.Queue.{
  Chain, Expl, queue_item_move, queue_item_move_prepend, queue_postpone, queue_item_free,
}
use xscorch.Game.Queue.Laws.{
  occurs, queue_item_move-occurs, queue_item_move_prepend-occurs, queue_postpone-occurs,
  queue_item_free-occurs,
}
use xscorch.Game.Queue.Visits.{do_runnable_inv, run_first_inv}
use xscorch.Machine.World.{Config, Queues, Calls, fast, explosion_steps, nextiter_steps, is_empty}
use xscorch.Machine.Actions.{
  postpone, init_to_clear_init, init_to_draw, draw_to_clear_init, clear_init_to_done,
  clear_init_to_clear, clear_to_done, free_done, run_draw_expl, run_draw_expl_cont, run_clear_expl,
  run_clear_expl_cont, run_land_fall, run_explosion_simult, run_explosion_nosimult, explosion_pass,
  explosion_loop,
}

-- A measure of the chains, summed over the five.
abbrev pub total : (Chain → ℕ) → Queues → ℕ
total m q = m q.expl_init + m q.expl_draw + m q.expl_clear_init + m q.expl_clear + m q.expl_done

-- A measure that a move from chain to chain leaves as it is.
pub record IsMoved (m : Chain → ℕ) : Type 0 where
  pub move :
      (dst src : Chain) (e : ℕ)
      → m (queue_item_move dst src e).0 + m (queue_item_move dst src e).1 ≡ m dst + m src
  pub prepend :
      (dst src : Chain) (e : ℕ)
      → m (queue_item_move_prepend dst src e).0 + m (queue_item_move_prepend dst src e).1
        ≡ m dst + m src

module _ {m : Chain → ℕ} (moved : IsMoved m) (e : ℕ) (q : Queues) where
  pub total-init_to_clear_init : total m (init_to_clear_init e q) ≡ total m q
  unfolding init_to_clear_init
  total-init_to_clear_init = let h = moved.prepend q.expl_clear_init q.expl_init e in omega arith

  pub total-init_to_draw : total m (init_to_draw e q) ≡ total m q
  unfolding init_to_draw
  total-init_to_draw = let h = moved.move q.expl_draw q.expl_init e in omega arith

  pub total-draw_to_clear_init : total m (draw_to_clear_init e q) ≡ total m q
  unfolding draw_to_clear_init
  total-draw_to_clear_init = let h = moved.prepend q.expl_clear_init q.expl_draw e in omega arith

  pub total-clear_init_to_done : total m (clear_init_to_done e q) ≡ total m q
  unfolding clear_init_to_done
  total-clear_init_to_done = let h = moved.move q.expl_done q.expl_clear_init e in omega arith

  pub total-clear_init_to_clear : total m (clear_init_to_clear e q) ≡ total m q
  unfolding clear_init_to_clear
  total-clear_init_to_clear = let h = moved.move q.expl_clear q.expl_clear_init e in omega arith

  pub total-clear_to_done : total m (clear_to_done e q) ≡ total m q
  unfolding clear_to_done
  total-clear_to_done = let h = moved.move q.expl_done q.expl_clear e in omega arith

occurs-IsMoved : (n : ℕ) → IsMoved (occurs n)
occurs-IsMoved n = record {
  move = queue_item_move-occurs n;
  prepend = queue_item_move_prepend-occurs n;
}

postpone-occurs :
    (n e delay : ℕ) (q : Queues) → total (occurs n) (postpone e delay q) ≡ total (occurs n) q
unfolding postpone
postpone-occurs n e delay q =
    let a = queue_postpone-occurs n e delay q.expl_init in
    let b = queue_postpone-occurs n e delay q.expl_draw in
    let c = queue_postpone-occurs n e delay q.expl_clear_init in
    let d = queue_postpone-occurs n e delay q.expl_clear in
    let f = queue_postpone-occurs n e delay q.expl_done in omega arith

-- How often an address is on the five chains.
abbrev pub held : {W : Type 0} → ℕ → Config W × Queues → ℕ
held n s = total (occurs n) s.1

if_held :
    {W : Type 0} {k : ℕ} (n : ℕ) (b : Bool) (x y : Bool × (Config W × Queues))
    → held n x.1 ≡ k
    → held n y.1 ≡ k
    → held n (if b then x else y).1 ≡ k
if_held n true x y h l = h
if_held n false x y h l = l

module _ {W : Type 0} (calls : Calls W) (n : ℕ) where
  draw_held : (s : Config W × Queues) (e : Expl) → held n (run_draw_expl calls s e).1 ≡ held n s
  unfolding run_draw_expl
  draw_held (c, q) e =
      if_held n (calls.expl_annihilate c e).0 _ _
        (postpone-occurs n e.id _ (init_to_draw e.id q)
          ∙ total-init_to_draw (occurs-IsMoved n) e.id q)
        (postpone-occurs n e.id _ (init_to_clear_init e.id q)
          ∙ total-init_to_clear_init (occurs-IsMoved n) e.id q)

  draw_cont_held :
      (s : Config W × Queues) (e : Expl) → held n (run_draw_expl_cont calls s e).1 ≡ held n s
  unfolding run_draw_expl_cont
  draw_cont_held (c, q) e =
      if_held n (calls.expl_annihilate_continue c e).0 _ _ (postpone-occurs n e.id _ q) (
        postpone-occurs n e.id _ (draw_to_clear_init e.id q)
        ∙ total-draw_to_clear_init (occurs-IsMoved n) e.id q)

  clear_held : (s : Config W × Queues) (e : Expl) → held n (run_clear_expl calls s e).1 ≡ held n s
  unfolding run_clear_expl
  clear_held (c, q) e =
      if_held n (calls.expl_annihilate_clear (calls.player_damage_all c e) e).0 _ _
        (postpone-occurs n e.id _ (clear_init_to_clear e.id q)
          ∙ total-clear_init_to_clear (occurs-IsMoved n) e.id q)
        (postpone-occurs n e.id _ (clear_init_to_done e.id q)
          ∙ total-clear_init_to_done (occurs-IsMoved n) e.id q)

  clear_cont_held :
      (s : Config W × Queues) (e : Expl) → held n (run_clear_expl_cont calls s e).1 ≡ held n s
  unfolding run_clear_expl_cont
  clear_cont_held (c, q) e =
      if_held n (calls.expl_annihilate_clear_continue c e).0 _ _ (postpone-occurs n e.id _ q) (
        postpone-occurs n e.id _ (clear_to_done e.id q)
        ∙ total-clear_to_done (occurs-IsMoved n) e.id q)

  free_held :
      (e : ℕ) (q : Queues)
      → total (occurs n) q
        ≡ total (occurs n) (free_done e q)
          + (if n == e then (if occurs e q.expl_done == 0 then 0 else 1) else 0)
  unfolding free_done
  free_held e q = let h = queue_item_free-occurs n q.expl_done e in omega arith

  -- The four actions that draw and clear keep every explosion on the five chains as often as it was
  -- there. The fall of the land does so too while the land still falls; when it has fallen, the
  -- explosion is taken off the chain `expl_done` once, if it is there, and no other is.
  pub actions-occurs :
      (s : Config W × Queues) (e : Expl)
      → (held n (run_draw_expl calls s e).1 ≡ held n s)
        × (held n (run_draw_expl_cont calls s e).1 ≡ held n s)
        × (held n (run_clear_expl calls s e).1 ≡ held n s)
        × (held n (run_clear_expl_cont calls s e).1 ≡ held n s)
        × (held n s
            ≡ held n (run_land_fall calls s e).1
              + (if (calls.land_drop s.0 e.centerx e.radius).0
                  then 0
                  else if n == e.id
                  then (if occurs e.id s.1.expl_done == 0 then 0 else 1)
                  else 0))
  unfolding run_land_fall
  actions-occurs (c, q) e = (
    draw_held (c, q) e,
    draw_cont_held (c, q) e,
    clear_held (c, q) e,
    clear_cont_held (c, q) e,
    elim (Bool-cases (calls.land_drop c e.centerx e.radius).0) [
      | inl f ↦
          let h =
            postpone-occurs n e.id (fast (calls.land_drop c e.centerx e.radius).1 nextiter_steps)
              q in
          rw (f, run_land_fall) (omega arith)
      | inr f ↦ rw (f, run_land_fall) (free_held e.id q)
    ],
  )
