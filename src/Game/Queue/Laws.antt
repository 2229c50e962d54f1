-- ===== src/Game/Queue/Laws.antt =====
-- The chains of sgame/sgame.c as multisets of addresses: what each queue function moves, and that
-- none of them loses or doubles an explosion.
use mathlib.Core.List.{reverse, reverse-reverse, reverse_aux}
use xscorch.Prelude.{
  ℕ, suc, ◌+◌, ◌≤◌, ◌<◌, [], ◌∷◌, ◌++◌, ◌≡◌, refl, ◌∙◌, ap, arith, ◌==◌, if◌then◌else◌, length,
}
use xscorch.Game.Queue.{
  Expl, Chain, expl_add, count_from, expl_count, reverse_onto, queue_reverse, queue_item_free,
  queue_item_move, queue_item_move_prepend, queue_postpone,
}

pub expl_add-append : (q add : Chain) → expl_add q add ≡ q ++ add
unfolding expl_add
expl_add-append [] add = refl
expl_add-append (e ∷ q) add = ap (λ r. e ∷ r) (expl_add-append q add)

-- How often an address is on a chain.
abbrev pub occurs : ℕ → Chain → ℕ
occurs n [] = 0
occurs n (e ∷ q) = let rest = occurs n q in if e.id == n then suc rest else rest

-- How many explosions of a chain may run, and how many of those at one address.
abbrev pub runnable : Chain → ℕ
runnable [] = 0
runnable (e ∷ q) = let rest = runnable q in if e.counter == 0 then suc rest else rest

abbrev pub live : ℕ → Chain → ℕ
live n [] = 0
live n (e ∷ q) =
    let rest = live n q in if e.id == n then (if e.counter == 0 then suc rest else rest) else rest

pub occurs-expl_add :
    (n : ℕ) (q add : Chain) → occurs n (expl_add q add) ≡ occurs n q + occurs n add
unfolding expl_add
occurs-expl_add n [] add = omega arith
occurs-expl_add n (e ∷ q) add = ground (arith, occurs-expl_add n q add)

pub runnable-expl_add : (q add : Chain) → runnable (expl_add q add) ≡ runnable q + runnable add
unfolding expl_add
runnable-expl_add [] add = omega arith
runnable-expl_add (e ∷ q) add = ground (arith, runnable-expl_add q add)

pub live-expl_add : (n : ℕ) (q add : Chain) → live n (expl_add q add) ≡ live n q + live n add
unfolding expl_add
live-expl_add n [] add = omega arith
live-expl_add n (e ∷ q) add = ground (arith, live-expl_add n q add)

-- Moving an item keeps what the two chains hold together.
pub queue_item_move-occurs :
    (n : ℕ) (dst src : Chain) (e : ℕ)
    → let (dst', src') = queue_item_move dst src e in
      occurs n dst' + occurs n src' ≡ occurs n dst + occurs n src
unfolding queue_item_move
queue_item_move-occurs n dst [] e = refl
queue_item_move-occurs n dst (cur ∷ src) e =
    ground (arith, queue_item_move-occurs n dst src e, occurs-expl_add n dst (cur ∷ []))

pub queue_item_move-runnable :
    (dst src : Chain) (e : ℕ)
    → let (dst', src') = queue_item_move dst src e in
      runnable dst' + runnable src' ≡ runnable dst + runnable src
unfolding queue_item_move
queue_item_move-runnable dst [] e = refl
queue_item_move-runnable dst (cur ∷ src) e =
    ground (arith, queue_item_move-runnable dst src e, runnable-expl_add dst (cur ∷ []))

pub queue_item_move-live :
    (n : ℕ) (dst src : Chain) (e : ℕ)
    → let (dst', src') = queue_item_move dst src e in
      live n dst' + live n src' ≡ live n dst + live n src
unfolding queue_item_move
queue_item_move-live n dst [] e = refl
queue_item_move-live n dst (cur ∷ src) e =
    ground (arith, queue_item_move-live n dst src e, live-expl_add n dst (cur ∷ []))

pub queue_item_move_prepend-occurs :
    (n : ℕ) (dst src : Chain) (e : ℕ)
    → let (dst', src') = queue_item_move_prepend dst src e in
      occurs n dst' + occurs n src' ≡ occurs n dst + occurs n src
unfolding queue_item_move_prepend
queue_item_move_prepend-occurs n dst [] e = refl
queue_item_move_prepend-occurs n dst (cur ∷ src) e =
    ground (arith, queue_item_move_prepend-occurs n dst src e)

pub queue_item_move_prepend-runnable :
    (dst src : Chain) (e : ℕ)
    → let (dst', src') = queue_item_move_prepend dst src e in
      runnable dst' + runnable src' ≡ runnable dst + runnable src
unfolding queue_item_move_prepend
queue_item_move_prepend-runnable dst [] e = refl
queue_item_move_prepend-runnable dst (cur ∷ src) e =
    ground (arith, queue_item_move_prepend-runnable dst src e)

pub queue_item_move_prepend-live :
    (n : ℕ) (dst src : Chain) (e : ℕ)
    → let (dst', src') = queue_item_move_prepend dst src e in
      live n dst' + live n src' ≡ live n dst + live n src
unfolding queue_item_move_prepend
queue_item_move_prepend-live n dst [] e = refl
queue_item_move_prepend-live n dst (cur ∷ src) e =
    ground (arith, queue_item_move_prepend-live n dst src e)

-- A counter that is set moves no explosion; one that is set above zero stops what was live there.
pub queue_postpone-occurs :
    (n e delay : ℕ) (q : Chain) → occurs n (queue_postpone e delay q) ≡ occurs n q
unfolding queue_postpone
queue_postpone-occurs n e delay [] = refl
queue_postpone-occurs n e delay (cur ∷ q) = ground (arith, queue_postpone-occurs n e delay q)

pub queue_postpone-runnable :
    (e delay : ℕ) (q : Chain)
    → 0 < delay
    → runnable (queue_postpone e delay q) + live e q ≡ runnable q
unfolding queue_postpone
queue_postpone-runnable e delay [] h = refl
queue_postpone-runnable e delay (cur ∷ q) h = ground (arith, queue_postpone-runnable e delay q h)

-- What is released is one occurrence of its address, if there is one.
pub queue_item_free-occurs :
    (n : ℕ) (q : Chain) (e : ℕ)
    → occurs n q
      ≡ occurs n (queue_item_free q e) + (if n == e then (if occurs e q == 0 then 0 else 1) else 0)
unfolding queue_item_free
queue_item_free-occurs n [] e = ground arith
queue_item_free-occurs n (cur ∷ q) e = ground (arith, queue_item_free-occurs n q e)

pub queue_item_free-runnable : (q : Chain) (e : ℕ) → runnable (queue_item_free q e) ≤ runnable q
unfolding queue_item_free
queue_item_free-runnable [] e = omega arith
queue_item_free-runnable (cur ∷ q) e = ground (arith, queue_item_free-runnable q e)

pub live-le-occurs : (n : ℕ) (q : Chain) → live n q ≤ occurs n q
live-le-occurs n [] = omega arith
live-le-occurs n (e ∷ q) = ground (arith, live-le-occurs n q)

-- Where the address occurs once, and is live, its release leaves one fewer to run.
pub queue_item_free-runnable_lt :
    (q : Chain) (e : ℕ)
    → occurs e q ≤ 1
    → 0 < live e q
    → runnable (queue_item_free q e) < runnable q
unfolding queue_item_free
queue_item_free-runnable_lt [] e h l = elim l [ ]
queue_item_free-runnable_lt (cur ∷ q) e h l =
    ground (arith, live-le-occurs e q, queue_item_free-runnable_lt q e)

-- An item that is found goes to the end of `dst`, or to its front, and the order of all the others
-- stays as it was. Assumed: its address does not occur before it on `src`.
pub queue_item_move_lem :
    (dst before after : Chain) (e : Expl)
    → occurs e.id before ≡ 0
    → (queue_item_move dst (before ++ (e ∷ after)) e.id ≡ (dst ++ (e ∷ []), before ++ after))
      × (queue_item_move_prepend dst (before ++ (e ∷ after)) e.id ≡ (e ∷ dst, before ++ after))
unfolding queue_item_move queue_item_move_prepend
queue_item_move_lem dst [] after e h = ground (arith, expl_add-append dst (e ∷ []))
queue_item_move_lem dst (cur ∷ before) after e h =
    ground (arith, queue_item_move_lem dst before after e)

reverse_onto-reverse_aux : (new q : Chain) → reverse_onto new q ≡ reverse_aux q new
unfolding reverse_onto
reverse_onto-reverse_aux new [] = refl
reverse_onto-reverse_aux new (cur ∷ q) = reverse_onto-reverse_aux (cur ∷ new) q

-- The reversal in place is that of the list, so doing it twice gives the queue back.
pub queue_reverse_lem :
    (q : Chain) → (queue_reverse q ≡ reverse q) × (queue_reverse (queue_reverse q) ≡ q)
unfolding queue_reverse
queue_reverse_lem q =
    let e = reverse_onto-reverse_aux in
    (e [] q, e [] (reverse_onto [] q) ∙ ap reverse (e [] q) ∙ reverse-reverse q)

count_from-length : (n : ℕ) (q : Chain) → count_from n q ≡ n + length q
unfolding count_from
count_from-length n [] = omega arith
count_from-length n (e ∷ q) = omega (arith, count_from-length (n + 1) q)

-- The count of a chain is its length.
pub expl_count_lem : (q : Chain) → expl_count q ≡ length q
unfolding expl_count
expl_count_lem q = omega (arith, count_from-length 0 q)
