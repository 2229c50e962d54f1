-- ===== src/Machine/Explosions/Ends.antt =====
-- The loop of `_sc_state_run_explosion` of sgame/sstate.c ends: each pass that acts puts an explosion
-- off, or releases it. That is so when the graphics are not set to be fast: at fast graphics an
-- explosion is put off by no time, and how long the loop runs is up to the drawing code.
use xscorch.Prelude.{
  ℕ, zero, suc, ◌≤◌, ◌<◌, [], ◌∷◌, Bool, true, false, not, ◌||◌, ◌≡◌, refl, arith, ◌==◌,
  if◌then◌else◌, some, Bool-cases, inl, inr,
}
use xscorch.Game.Queue.{Chain, Expl, do_runnable_from, queue_do_runnable, queue_run_first}
use xscorch.Game.Queue.Laws.{live}
use xscorch.Machine.World.{Config, Queues, Calls, gfx_fast, is_empty}
use xscorch.Machine.Actions.{
  run_draw_expl, run_draw_expl_cont, run_clear_expl, run_clear_expl_cont, run_land_fall,
  run_explosion_simult, run_explosion_nosimult, explosion_pass, explosion_loop,
}
use xscorch.Machine.Explosions.Lighter.{
  weight, IsLighter, IsSlow, draw-IsLighter, draw_cont-IsLighter, clear-IsLighter,
  clear_cont-IsLighter, land-IsLighter,
}

-- The explosions of `q` that may run are live on `chain`.
abbrev AllLive : Chain → Chain → Type 0
AllLive chain [] = Unit {0}
AllLive chain (e ∷ q) = (e.counter ≡ 0 → 0 < live e.id chain) × AllLive chain q

AllLive-cons : (x : Expl) (chain q : Chain) → AllLive chain q → AllLive (x ∷ chain) q
AllLive-cons x chain [] h = tt
AllLive-cons x chain (e ∷ q) h = ((λ k. let l = h.0 k in ground arith), AllLive-cons x chain q h.1)

AllLive-self : (q : Chain) → AllLive q q
AllLive-self [] = tt
AllLive-self (e ∷ q) = ((λ k. ground arith), AllLive-cons e q q (AllLive-self q))

module _ {W : Type 0} where
  -- After a walk that found nothing to run, and after one that did.
  record IsWalked (s : Config W × Queues) (x : Bool × (Config W × Queues)) : Type 0 where
    slow : gfx_fast x.1.0 ≡ false
    most : weight x.1 ≤ weight s
    less : x.0 ≡ true → weight x.1 < weight s

  module _ (action : Config W × Queues → Expl → Bool × (Config W × Queues)) (chain : Queues → Chain)
      (light : (s : Config W × Queues) (e : Expl)
        → gfx_fast s.0 ≡ false
        → IsLighter chain s e.id (action s e).1) where
    -- Once the weight is down, it stays down.
    walk_on :
        (k : ℕ) (acted : Bool) (q : Chain) (s : Config W × Queues)
        → gfx_fast s.0 ≡ false
        → weight s < k
        → (gfx_fast (do_runnable_from action acted q s).1.0 ≡ false)
          × (weight (do_runnable_from action acted q s).1 < k)
    unfolding do_runnable_from
    walk_on k acted [] s h l = (h, l)
    walk_on k acted (e ∷ q) s h l = elim (Bool-cases (e.counter == 0)) [
      | inl d ↦
          let r = light s e h in
          let m = r.most in
          rw (d, do_runnable_from)
            (walk_on k ((action s e).0 || acted) q (action s e).1 r.slow (omega arith))
      | inr d ↦ rw (d, do_runnable_from) (walk_on k acted q s h l)
    ]

    walk :
        (q : Chain) (s : Config W × Queues)
        → gfx_fast s.0 ≡ false
        → AllLive (chain s.1) q
        → IsWalked s (do_runnable_from action false q s)
    unfolding do_runnable_from
    walk [] s h a = record { slow = h; most = omega arith; less = λ b. cc }
    walk (e ∷ q) s h a = elim (Bool-cases (e.counter == 0)) [
      | inl d ↦
          let r = light s e h in
          let l = r.less (a.0 (ground arith)) in
          let w = walk_on (weight s) ((action s e).0 || false) q (action s e).1 r.slow l in
          let m = w.1 in
          rw (d, do_runnable_from) (record { slow = w.0; most = omega arith; less = λ b. m })
      | inr d ↦ rw (d, do_runnable_from) (walk q s h a.1)
    ]

    do_runnable-IsWalked :
        (s : Config W × Queues)
        → gfx_fast s.0 ≡ false
        → IsWalked s (queue_do_runnable action (chain s.1) s)
    unfolding queue_do_runnable
    do_runnable-IsWalked s h = walk (chain s.1) s h (AllLive-self (chain s.1))

    first :
        (q : Chain) (s : Config W × Queues)
        → gfx_fast s.0 ≡ false
        → AllLive (chain s.1) q
        → IsWalked s (queue_run_first action q s)
    unfolding queue_run_first
    first [] s h a = record { slow = h; most = omega arith; less = λ b. cc }
    first (e ∷ q) s h a = elim (Bool-cases (e.counter == 0)) [
      | inl d ↦
          let r = light s e h in
          let l = r.less (a.0 (ground arith)) in
          rw (d, queue_run_first) (record { slow = r.slow; most = r.most; less = λ b. l })
      | inr d ↦ rw (d, queue_run_first) (first q s h a.1)
    ]

    run_first-IsWalked :
        (s : Config W × Queues)
        → gfx_fast s.0 ≡ false
        → IsWalked s (queue_run_first action (chain s.1) s)
    run_first-IsWalked s h = first (chain s.1) s h (AllLive-self (chain s.1))

  if_IsWalked :
      {s : Config W × Queues} (b : Bool) (x y : Bool × (Config W × Queues))
      → IsWalked s x
      → IsWalked s y
      → IsWalked s (if b then x else y)
  if_IsWalked true x y h k = h
  if_IsWalked false x y h k = k

  -- One walk after another.
  then_IsWalked :
      (s : Config W × Queues) (a b : Bool) (t u : Config W × Queues)
      → IsWalked s (a, t)
      → IsWalked t (b, u)
      → IsWalked s (b || a, u)
  then_IsWalked s a b t u h k =
      let m = h.most in
      let m' = k.most in
      record { slow = k.slow; most = omega arith; less = either b a h.less k.less }
    where
      either :
          (b a : Bool)
          → (a ≡ true → weight t < weight s)
          → (b ≡ true → weight u < weight t)
          → b || a ≡ true
          → weight u < weight s
      either true a f g e = let l = g refl in let m = h.most in omega arith
      either false a f g e = let l = f e in let m = k.most in omega arith

module _ {W : Type 0} {calls : Calls W} (slow : IsSlow calls) where
  simult-IsWalked :
      (s : Config W × Queues) → gfx_fast s.0 ≡ false → IsWalked s (run_explosion_simult calls s)
  unfolding run_explosion_simult
  simult-IsWalked s h =
      let w1 =
        do_runnable-IsWalked (run_draw_expl calls) (λ q. q.expl_init) (draw-IsLighter slow) s h in
      let w2 =
        do_runnable-IsWalked (run_draw_expl_cont calls) (λ q. q.expl_draw)
          (draw_cont-IsLighter slow) _ w1.slow in
      let w3 =
        do_runnable-IsWalked (run_clear_expl calls) (λ q. q.expl_clear_init) (clear-IsLighter slow)
          _ w2.slow in
      let w4 =
        do_runnable-IsWalked (run_clear_expl_cont calls) (λ q. q.expl_clear)
          (clear_cont-IsLighter slow) _ w3.slow in
      let w5 =
        do_runnable-IsWalked (run_land_fall calls) (λ q. q.expl_done) (land-IsLighter slow) _
          w4.slow in
      then_IsWalked s _ _ _ _
        (then_IsWalked s _ _ _ _ (then_IsWalked s _ _ _ _ (then_IsWalked s _ _ _ _ w1 w2) w3) w4) w5

  nosimult-IsWalked :
      (s : Config W × Queues) → gfx_fast s.0 ≡ false → IsWalked s (run_explosion_nosimult calls s)
  unfolding run_explosion_nosimult
  nosimult-IsWalked s h =
      if_IsWalked (not (is_empty s.1.expl_done)) _ _
        (run_first-IsWalked (run_land_fall calls) (λ q. q.expl_done) (land-IsLighter slow) s h)
        (if_IsWalked (not (is_empty s.1.expl_clear)) _ _
          (run_first-IsWalked (run_clear_expl_cont calls) (λ q. q.expl_clear)
            (clear_cont-IsLighter slow) s h)
          (if_IsWalked (not (is_empty s.1.expl_clear_init)) _ _
            (run_first-IsWalked (run_clear_expl calls) (λ q. q.expl_clear_init)
              (clear-IsLighter slow) s h)
            (if_IsWalked (not (is_empty s.1.expl_draw)) _ _
              (run_first-IsWalked (run_draw_expl_cont calls) (λ q. q.expl_draw)
                (draw_cont-IsLighter slow) s h)
              (if_IsWalked (not (is_empty s.1.expl_init)) _ _
                (run_first-IsWalked (run_draw_expl calls) (λ q. q.expl_init) (draw-IsLighter slow) s
                  h)
                (record { slow = h; most = omega arith; less = λ b. cc })))))

  pass-IsWalked :
      (s : Config W × Queues) → gfx_fast s.0 ≡ false → IsWalked s (explosion_pass calls s)
  unfolding explosion_pass
  pass-IsWalked s h = if_IsWalked s.0.interleave _ _ (simult-IsWalked s h) (nosimult-IsWalked s h)

  -- The loop over the explosions ends, in no more rounds than there are explosions on the five
  -- chains, those whose counter is 0 counted twice, and one more; and it ends with all of that no
  -- larger. Assumed: the graphics are not set to be fast, and the calls do not set them so.
  pub explosion_loop_ends :
      (fuel : ℕ) (s : Config W × Queues)
      → gfx_fast s.0 ≡ false
      → weight s < fuel
      → (t : Config W × Queues) × (explosion_loop calls fuel s ≡ some t) × (weight t ≤ weight s)
  unfolding explosion_loop
  explosion_loop_ends zero s h l = elim l [ ]
  explosion_loop_ends (suc fuel) s h l =
      let w = pass-IsWalked s h in
      let m = w.most in
      elim (Bool-cases (explosion_pass calls s).0) [
        | inl r ↦
            let n = w.less r in
            let (t, e, k) =
              explosion_loop_ends fuel (explosion_pass calls s).1 w.slow (omega arith) in
            (t, rw r e, omega arith)
        | inr r ↦ ((explosion_pass calls s).1, rw r refl, m)
      ]
