-- ===== src/Game/Queue.antt =====
-- The chains of explosions: `sc_expl_add`, `sc_expl_count` and the like of sgame/sexplosion.c, and
-- the queue functions of sgame/sgame.c. A function that writes `*dst` and `*src` returns both.
pub mod Laws
pub mod Links
pub mod Visits
use xscorch.Prelude.{
  ℕ, zero, suc, ◌+◌, ◌-◌, List, [], ◌∷◌, Bool, true, false, ◌||◌, Option, none, some, ◌==◌,
  if◌then◌else◌,
}
use xscorch.Prelude.Int.{ℤ}

-- What the queues and the state machine read of `sc_explosion`. `id` stands for the address.
pub record Expl : Type 0 where
  pub id : ℕ
  pub counter : ℕ
  pub centerx : ℤ
  pub radius : ℤ
  pub playerid : ℕ

abbrev pub Chain : Type 0
Chain = List Expl

-- Walks to the end of the chain, and hangs `add` there.
unfoldable pub expl_add : Chain → Chain → Chain
expl_add [] add = add
expl_add (e ∷ chain) add = e ∷ expl_add chain add

unfoldable pub expl_index : Chain → ℕ → Option Expl
expl_index [] index = none
expl_index (e ∷ chain) zero = some e
expl_index (e ∷ chain) (suc index) = expl_index chain index

count_from : ℕ → Chain → ℕ
count_from count [] = count
count_from count (e ∷ chain) = count_from (count + 1) chain

unfoldable pub expl_count : Chain → ℕ
unfolding count_from
expl_count chain = count_from 0 chain

-- Releases the head.
unfoldable pub expl_free : Chain → Chain
expl_free [] = []
expl_free (e ∷ chain) = chain

unfoldable pub queue_head_move : Chain → Chain → Chain × Chain
unfolding expl_add
queue_head_move dst [] = (dst, [])
queue_head_move dst (e ∷ src) = (expl_add dst (e ∷ []), src)

unfoldable pub queue_head_move_prepend : Chain → Chain → Chain × Chain
queue_head_move_prepend dst [] = (dst, [])
queue_head_move_prepend dst (e ∷ src) = (e ∷ dst, src)

unfoldable pub queue_move : Chain → Chain → Chain × Chain
unfolding expl_add
queue_move dst src = (expl_add dst src, [])

reverse_onto : Chain → Chain → Chain
reverse_onto new [] = new
reverse_onto new (cur ∷ queue) = reverse_onto (cur ∷ new) queue

unfoldable pub queue_reverse : Chain → Chain
unfolding reverse_onto
queue_reverse queue = reverse_onto [] queue

-- The functions below look for an explosion by its address.
unfoldable pub queue_item_free : Chain → ℕ → Chain
queue_item_free [] e = []
queue_item_free (cur ∷ queue) e = if cur.id == e then queue else cur ∷ queue_item_free queue e

unfoldable pub queue_item_move : Chain → Chain → ℕ → Chain × Chain
unfolding expl_add
queue_item_move dst [] e = (dst, [])
queue_item_move dst (cur ∷ src) e =
    let (dst', src') = queue_item_move dst src e in
    if cur.id == e then (expl_add dst (cur ∷ []), src) else (dst', cur ∷ src')

unfoldable pub queue_item_move_prepend : Chain → Chain → ℕ → Chain × Chain
queue_item_move_prepend dst [] e = (dst, [])
queue_item_move_prepend dst (cur ∷ src) e =
    let (dst', src') = queue_item_move_prepend dst src e in
    if cur.id == e then (cur ∷ dst, src) else (dst', cur ∷ src')

-- `sc_game_expl_queue_postpone` writes the counter of one explosion, on whichever chain it is.
unfoldable pub queue_postpone : ℕ → ℕ → Chain → Chain
queue_postpone e delay [] = []
queue_postpone e delay (cur ∷ queue) =
    (if cur.id == e then record cur { counter = delay } else cur) ∷ queue_postpone e delay queue

-- `if(e->counter > 0) --e->counter;` at each explosion.
unfoldable pub queue_update : Chain → Chain
queue_update [] = []
queue_update (e ∷ queue) = record e { counter = e.counter - 1 } ∷ queue_update queue

-- The two iterators, over the queue as it was when they were called: they save the next pointer
-- before they call the action, which may only take its own explosion off the queue. Game/Queue/Links
-- has the walks along the pointers. `S` is all that the action may change.
module _ {S : Type 0} (action : S → Expl → Bool × S) where
  unfoldable pub do_runnable_from : Bool → Chain → S → Bool × S
  do_runnable_from acted [] s = (acted, s)
  do_runnable_from acted (cur ∷ queue) s = elim (cur.counter == 0) [
    | true ↦ let (result, s') = action s cur in do_runnable_from (result || acted) queue s'
    | false ↦ do_runnable_from acted queue s
  ]

  unfoldable pub queue_do_runnable : Chain → S → Bool × S
  unfolding do_runnable_from
  queue_do_runnable queue s = do_runnable_from false queue s

  unfoldable pub queue_run_first : Chain → S → Bool × S
  queue_run_first [] s = (false, s)
  queue_run_first (cur ∷ queue) s = elim (cur.counter == 0) [
    | true ↦ action s cur
    | false ↦ queue_run_first queue s
  ]
