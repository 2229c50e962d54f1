-- ===== src/Machine/Explosions/Passes.antt =====
-- No pass over the queues of sgame/sstate.c, and no run of the loop, adds or doubles an explosion.
use mathlib.Core.Option.{some-injective}
use mathlib.Core.Path.{subst}
use xscorch.Prelude.{
  ℕ, zero, suc, ◌+◌, ◌≤◌, Bool, true, false, not, ◌≡◌, arith, if◌then◌else◌, some, Bool-cases, inl,
  inr,
}
use xscorch.Game.Queue.{Expl}
use xscorch.Game.Queue.Visits.{do_runnable_inv, run_first_inv}
use xscorch.Machine.World.{Config, Queues, Calls, is_empty}
use xscorch.Machine.Actions.{
  run_draw_expl, run_draw_expl_cont, run_clear_expl, run_clear_expl_cont, run_land_fall,
  run_explosion_simult, run_explosion_nosimult, explosion_pass, explosion_loop,
}
use xscorch.Machine.Explosions.{held, actions-occurs}

le_of_part : (a b x k : ℕ) → a ≡ b + x → a ≤ k → b ≤ k
le_of_part a b x k e h = omega arith

le_of_eq : (a b k : ℕ) → b ≡ a → a ≤ k → b ≤ k
le_of_eq a b k e h = omega arith

module _ {W : Type 0} (n k : ℕ) where
  -- The address is on the chains at most so often.
  abbrev AtMost : Config W × Queues → Type 0
  AtMost s = held n s ≤ k

  if_most :
      (b : Bool) (x y : Bool × (Config W × Queues))
      → AtMost x.1
      → AtMost y.1
      → AtMost (if b then x else y).1
  if_most true x y h l = h
  if_most false x y h l = l

module _ {W : Type 0} (calls : Calls W) (n k : ℕ) where
  draw_most :
      (s : Config W × Queues) (e : Expl) → AtMost n k s → AtMost n k (run_draw_expl calls s e).1
  draw_most s e h = let (a, _, _, _, _) = actions-occurs calls n s e in le_of_eq _ _ k a h

  draw_cont_most :
      (s : Config W × Queues) (e : Expl)
      → AtMost n k s
      → AtMost n k (run_draw_expl_cont calls s e).1
  draw_cont_most s e h = let (_, a, _, _, _) = actions-occurs calls n s e in le_of_eq _ _ k a h

  clear_most :
      (s : Config W × Queues) (e : Expl) → AtMost n k s → AtMost n k (run_clear_expl calls s e).1
  clear_most s e h = let (_, _, a, _, _) = actions-occurs calls n s e in le_of_eq _ _ k a h

  clear_cont_most :
      (s : Config W × Queues) (e : Expl)
      → AtMost n k s
      → AtMost n k (run_clear_expl_cont calls s e).1
  clear_cont_most s e h = let (_, _, _, a, _) = actions-occurs calls n s e in le_of_eq _ _ k a h

  land_most :
      (s : Config W × Queues) (e : Expl) → AtMost n k s → AtMost n k (run_land_fall calls s e).1
  land_most s e h = let (_, _, _, _, a) = actions-occurs calls n s e in le_of_part _ _ _ k a h

  simult_most : (s : Config W × Queues) → AtMost n k s → AtMost n k (run_explosion_simult calls s).1
  unfolding run_explosion_simult
  simult_most s h = do_runnable_inv (run_land_fall calls) (AtMost n k) land_most _ _ (
      do_runnable_inv (run_clear_expl_cont calls) (AtMost n k) clear_cont_most _ _ (
        do_runnable_inv (run_clear_expl calls) (AtMost n k) clear_most _ _ (
          do_runnable_inv (run_draw_expl_cont calls) (AtMost n k) draw_cont_most _ _
            (do_runnable_inv (run_draw_expl calls) (AtMost n k) draw_most _ s h))))

  nosimult_most :
      (s : Config W × Queues) → AtMost n k s → AtMost n k (run_explosion_nosimult calls s).1
  unfolding run_explosion_nosimult
  nosimult_most s h =
      if_most n k (not (is_empty s.1.expl_done)) _ _
        (run_first_inv (run_land_fall calls) (AtMost n k) land_most _ s h)
        (if_most n k (not (is_empty s.1.expl_clear)) _ _
          (run_first_inv (run_clear_expl_cont calls) (AtMost n k) clear_cont_most _ s h)
          (if_most n k (not (is_empty s.1.expl_clear_init)) _ _
            (run_first_inv (run_clear_expl calls) (AtMost n k) clear_most _ s h)
            (if_most n k (not (is_empty s.1.expl_draw)) _ _
              (run_first_inv (run_draw_expl_cont calls) (AtMost n k) draw_cont_most _ s h)
              (if_most n k (not (is_empty s.1.expl_init)) _ _
                (run_first_inv (run_draw_expl calls) (AtMost n k) draw_most _ s h) h))))

  pub pass_most : (s : Config W × Queues) → AtMost n k s → AtMost n k (explosion_pass calls s).1
  unfolding explosion_pass
  pass_most s h = if_most n k s.0.interleave _ _ (simult_most s h) (nosimult_most s h)

  loop_most :
      (fuel : ℕ) (s t : Config W × Queues)
      → AtMost n k s
      → explosion_loop calls fuel s ≡ some t
      → AtMost n k t
  unfolding explosion_loop
  loop_most zero s t h e = cc
  loop_most (suc fuel) s t h e = elim (Bool-cases (explosion_pass calls s).0) [
    | inl r ↦ loop_most fuel (explosion_pass calls s).1 t (pass_most s h) (rw r at e)
    | inr r ↦ subst (AtMost n k) (some-injective _ _ (rw r at e)) (pass_most s h)
  ]

-- When the loop over the explosions ends, no address is on the five chains more often than it was
-- before: an explosion that was on one chain, once, has not been doubled, and none has been made up.
pub explosion_loop-occurs :
    {W : Type 0} (calls : Calls W) (fuel n : ℕ) (s t : Config W × Queues)
    → explosion_loop calls fuel s ≡ some t
    → held n t ≤ held n s
explosion_loop-occurs calls fuel n s t e = loop_most calls n (held n s) fuel s t (omega arith) e
