-- ===== src/Machine/Explosions/Weights.antt =====
-- A weight of the chains of explosions of sgame/sgame.c that falls when an explosion is put off or
-- released.
use xscorch.Prelude.{ℕ, suc, ◌+◌, ◌≤◌, ◌<◌, [], ◌∷◌, ◌≡◌, refl, arith, length}
use xscorch.Game.Queue.{
  Chain, Expl, queue_item_free, queue_postpone, expl_add, queue_item_move, queue_item_move_prepend,
}
use xscorch.Game.Queue.Laws.{
  runnable, live, queue_item_move-runnable, queue_item_move_prepend-runnable, queue_item_move-live,
  queue_item_move_prepend-live, queue_postpone-runnable,
}
use xscorch.Machine.World.{Queues}
use xscorch.Machine.Actions.{postpone}
use xscorch.Machine.Explosions.{total, IsMoved}

-- The weight of a chain: its explosions, those that may run counted twice.
abbrev pub weigh : Chain → ℕ
weigh q = runnable q + length q

length-expl_add : (q : Chain) (e : Expl) → length (expl_add q (e ∷ [])) ≡ suc (length q)
unfolding expl_add
length-expl_add [] e = refl
length-expl_add (x ∷ q) e = omega (arith, length-expl_add q e)

length-move :
    (dst src : Chain) (e : ℕ)
    → length (queue_item_move dst src e).0 + length (queue_item_move dst src e).1
      ≡ length dst + length src
unfolding queue_item_move
length-move dst [] e = refl
length-move dst (cur ∷ src) e = ground (arith, length-move dst src e, length-expl_add dst cur)

length-prepend :
    (dst src : Chain) (e : ℕ)
    → length (queue_item_move_prepend dst src e).0 + length (queue_item_move_prepend dst src e).1
      ≡ length dst + length src
unfolding queue_item_move_prepend
length-prepend dst [] e = refl
length-prepend dst (cur ∷ src) e = ground (arith, length-prepend dst src e)

length-postpone : (e delay : ℕ) (q : Chain) → length (queue_postpone e delay q) ≡ length q
unfolding queue_postpone
length-postpone e delay [] = refl
length-postpone e delay (cur ∷ q) = omega (arith, length-postpone e delay q)

pub weigh-free :
    (q : Chain) (e : ℕ)
    → (weigh (queue_item_free q e) ≤ weigh q)
      × (0 < live e q → weigh (queue_item_free q e) < weigh q)
unfolding queue_item_free
weigh-free [] e = (omega arith, λ h. elim h [ ])
weigh-free (cur ∷ q) e = let (a, b) = weigh-free q e in (ground arith, ground arith)

pub weigh-IsMoved : IsMoved weigh
weigh-IsMoved = record {
  move = λ dst src e.
      let a = queue_item_move-runnable dst src e in let b = length-move dst src e in omega arith;
  prepend = λ dst src e.
      let a = queue_item_move_prepend-runnable dst src e in
      let b = length-prepend dst src e in omega arith;
}

pub live-IsMoved : (n : ℕ) → IsMoved (live n)
live-IsMoved n = record { move = queue_item_move-live n; prepend = queue_item_move_prepend-live n }

weigh-postpone :
    (e delay : ℕ) (q : Chain) → 0 < delay → weigh (queue_postpone e delay q) + live e q ≡ weigh q
weigh-postpone e delay q h =
    let a = queue_postpone-runnable e delay q h in let b = length-postpone e delay q in omega arith

-- An explosion that is put off is no longer live.
pub postpone-weight :
    (e delay : ℕ) (q : Queues)
    → 0 < delay
    → total weigh (postpone e delay q) + total (live e) q ≡ total weigh q
unfolding postpone
postpone-weight e delay q h =
    let a = weigh-postpone e delay q.expl_init h in
    let b = weigh-postpone e delay q.expl_draw h in
    let c = weigh-postpone e delay q.expl_clear_init h in
    let d = weigh-postpone e delay q.expl_clear h in
    let f = weigh-postpone e delay q.expl_done h in omega arith
