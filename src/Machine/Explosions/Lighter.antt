-- ===== src/Machine/Explosions/Lighter.antt =====
-- Each explosion action of sgame/sstate.c makes the chains lighter.
use xscorch.Prelude.{ℕ, ◌≤◌, ◌<◌, Bool, true, false, ◌≡◌, refl, arith, if◌then◌else◌}
use xscorch.Game.Queue.{Chain, Expl}
use xscorch.Game.Queue.Laws.{live}
use xscorch.Prelude.Int.{ℤ}
use xscorch.Machine.World.{Config, Queues, Calls, gfx_fast, fast, explosion_steps, nextiter_steps}
use xscorch.Machine.Actions.{
  postpone, free_done, run_draw_expl, run_draw_expl_cont, run_clear_expl, run_clear_expl_cont,
  run_land_fall,
}
use xscorch.Machine.Explosions.{
  total, total-init_to_clear_init, total-init_to_draw, total-draw_to_clear_init,
  total-clear_init_to_done, total-clear_init_to_clear, total-clear_to_done,
}
use xscorch.Machine.Explosions.Weights.{
  weigh, weigh-IsMoved, live-IsMoved, weigh-free, postpone-weight,
}

module _ {W : Type 0} where
  abbrev pub weight : Config W × Queues → ℕ
  weight s = total weigh s.1

  -- What an action on an explosion of `chain` must do for the loop to end.
  pub record IsLighter (chain : Queues → Chain) (s : Config W × Queues) (e : ℕ)
      (s' : Config W × Queues) : Type 0 where
    pub slow : gfx_fast s'.0 ≡ false
    pub most : weight s' ≤ weight s
    pub less : 0 < live e (chain s.1) → weight s' < weight s

  fast-pos : (c : Config W) (d : ℕ) → gfx_fast c ≡ false → 0 < d → 0 < fast c d
  fast-pos c d h k = rw h k

  -- An action that moves and puts off.
  lighter :
      (chain : Queues → Chain) (c c' : Config W) (q q' : Queues) (e d : ℕ)
      → gfx_fast c' ≡ false
      → 0 < d
      → total weigh q' ≡ total weigh q
      → total (live e) q' ≡ total (live e) q
      → live e (chain q) ≤ total (live e) q
      → IsLighter chain (c, q) e (c', postpone e (fast c' d) q')
  lighter chain c c' q q' e d h k a b l =
      let p = postpone-weight e (fast c' d) q' (fast-pos c' d h k) in
      record { slow = h; most = omega arith; less = λ m. omega arith }

  if_IsLighter :
      {chain : Queues → Chain} {s : Config W × Queues} {e : ℕ} (b : Bool)
      (x y : Bool × (Config W × Queues))
      → IsLighter chain s e x.1
      → IsLighter chain s e y.1
      → IsLighter chain s e (if b then x else y).1
  if_IsLighter true x y h k = h
  if_IsLighter false x y h k = k

-- What is assumed of the calls: they do not set the graphics to be fast.
pub record IsSlow {W : Type 0} (calls : Calls W) : Type 0 where
  pub expl_annihilate :
      (c : Config W) (e : Expl)
      → gfx_fast c ≡ false
      → gfx_fast (calls.expl_annihilate c e).1 ≡ false
  pub expl_annihilate_continue :
      (c : Config W) (e : Expl)
      → gfx_fast c ≡ false
      → gfx_fast (calls.expl_annihilate_continue c e).1 ≡ false
  pub expl_annihilate_clear :
      (c : Config W) (e : Expl)
      → gfx_fast c ≡ false
      → gfx_fast (calls.expl_annihilate_clear c e).1 ≡ false
  pub expl_annihilate_clear_continue :
      (c : Config W) (e : Expl)
      → gfx_fast c ≡ false
      → gfx_fast (calls.expl_annihilate_clear_continue c e).1 ≡ false
  pub player_damage_all :
      (c : Config W) (e : Expl)
      → gfx_fast c ≡ false
      → gfx_fast (calls.player_damage_all c e) ≡ false
  pub land_drop :
      (c : Config W) (x r : ℤ) → gfx_fast c ≡ false → gfx_fast (calls.land_drop c x r).1 ≡ false

module _ {W : Type 0} {calls : Calls W} (slow : IsSlow calls) where
  pub draw-IsLighter :
      (s : Config W × Queues) (e : Expl)
      → gfx_fast s.0 ≡ false
      → IsLighter (λ q. q.expl_init) s e.id (run_draw_expl calls s e).1
  unfolding run_draw_expl
  draw-IsLighter (c, q) e h =
      let h' = slow.expl_annihilate c e h in
      if_IsLighter (calls.expl_annihilate c e).0 _ _
        (lighter _ c _ q _ e.id nextiter_steps h' (omega arith)
          (total-init_to_draw weigh-IsMoved e.id q) (total-init_to_draw (live-IsMoved e.id) e.id q)
          (omega arith))
        (lighter _ c _ q _ e.id explosion_steps h' (omega arith)
          (total-init_to_clear_init weigh-IsMoved e.id q)
          (total-init_to_clear_init (live-IsMoved e.id) e.id q) (omega arith))

  pub draw_cont-IsLighter :
      (s : Config W × Queues) (e : Expl)
      → gfx_fast s.0 ≡ false
      → IsLighter (λ q. q.expl_draw) s e.id (run_draw_expl_cont calls s e).1
  unfolding run_draw_expl_cont
  draw_cont-IsLighter (c, q) e h =
      let h' = slow.expl_annihilate_continue c e h in
      if_IsLighter (calls.expl_annihilate_continue c e).0 _ _
        (lighter _ c _ q q e.id nextiter_steps h' (omega arith) refl refl (omega arith))
        (lighter _ c _ q _ e.id explosion_steps h' (omega arith)
          (total-draw_to_clear_init weigh-IsMoved e.id q)
          (total-draw_to_clear_init (live-IsMoved e.id) e.id q) (omega arith))

  pub clear-IsLighter :
      (s : Config W × Queues) (e : Expl)
      → gfx_fast s.0 ≡ false
      → IsLighter (λ q. q.expl_clear_init) s e.id (run_clear_expl calls s e).1
  unfolding run_clear_expl
  clear-IsLighter (c, q) e h =
      let h' = slow.expl_annihilate_clear _ e (slow.player_damage_all c e h) in
      if_IsLighter (calls.expl_annihilate_clear (calls.player_damage_all c e) e).0 _ _
        (lighter _ c _ q _ e.id nextiter_steps h' (omega arith)
          (total-clear_init_to_clear weigh-IsMoved e.id q)
          (total-clear_init_to_clear (live-IsMoved e.id) e.id q) (omega arith))
        (lighter _ c _ q _ e.id nextiter_steps h' (omega arith)
          (total-clear_init_to_done weigh-IsMoved e.id q)
          (total-clear_init_to_done (live-IsMoved e.id) e.id q) (omega arith))

  pub clear_cont-IsLighter :
      (s : Config W × Queues) (e : Expl)
      → gfx_fast s.0 ≡ false
      → IsLighter (λ q. q.expl_clear) s e.id (run_clear_expl_cont calls s e).1
  unfolding run_clear_expl_cont
  clear_cont-IsLighter (c, q) e h =
      let h' = slow.expl_annihilate_clear_continue c e h in
      if_IsLighter (calls.expl_annihilate_clear_continue c e).0 _ _
        (lighter _ c _ q q e.id nextiter_steps h' (omega arith) refl refl (omega arith))
        (lighter _ c _ q _ e.id nextiter_steps h' (omega arith)
          (total-clear_to_done weigh-IsMoved e.id q)
          (total-clear_to_done (live-IsMoved e.id) e.id q) (omega arith))

  free-IsLighter :
      (c c' : Config W) (e : ℕ) (q : Queues)
      → gfx_fast c' ≡ false
      → IsLighter (λ r. r.expl_done) (c, q) e (c', free_done e q)
  unfolding free_done
  free-IsLighter c c' e q h =
      let (a, b) = weigh-free q.expl_done e in
      record { slow = h; most = omega arith; less = λ l. let b' = b l in omega arith }

  pub land-IsLighter :
      (s : Config W × Queues) (e : Expl)
      → gfx_fast s.0 ≡ false
      → IsLighter (λ q. q.expl_done) s e.id (run_land_fall calls s e).1
  unfolding run_land_fall
  land-IsLighter (c, q) e h =
      let h' = slow.land_drop c e.centerx e.radius h in
      if_IsLighter (calls.land_drop c e.centerx e.radius).0 _ _
        (lighter _ c _ q q e.id nextiter_steps h' (omega arith) refl refl (omega arith))
        (free-IsLighter c _ e.id q h')
