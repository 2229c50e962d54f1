-- ===== src/Game/Queue/Visits.antt =====
-- `sc_game_expl_queue_do_runnable` and `sc_game_expl_queue_run_first` of sgame/sgame.c: which
-- explosions they visit, as walks over a list and along the pointers, and what an action that keeps a
-- property makes of the whole walk.
use xscorch.Prelude.{
  ℕ, zero, suc, ◌≤◌, ◌≢◌, Option, none, some, length, arith, ap, ◌∙◌, [], ◌∷◌, Bool, false, ◌||◌,
  ◌≡◌, refl, inl, inr, ◌==◌, if◌then◌else◌, Bool-cases,
}
use xscorch.Game.Queue.Links.{Memory, walk_runnable, walk_first}
use xscorch.Game.Queue.{Expl, Chain, do_runnable_from, queue_do_runnable, queue_run_first}

-- The explosions of a queue that may run, in its order.
abbrev pub due : Chain → Chain
due [] = []
due (e ∷ q) = let rest = due q in if e.counter == 0 then e ∷ rest else rest

abbrev pub head_id : Chain → Option ℕ
head_id [] = none
head_id (e ∷ q) = some e.id

-- No explosion of the list is at the address.
abbrev pub IsAbsent : ℕ → Chain → Type 0
IsAbsent a [] = Unit {0}
IsAbsent a (e ∷ q) = (e.id ≢ a) × IsAbsent a q

module _ {S : Type 0} (action : S → Expl → Bool × S) where
  -- The action on every explosion of a list, in order, with whether any of them acted.
  abbrev pub act_on_all : Bool → Chain → S → Bool × S
  act_on_all acted [] s = (acted, s)
  act_on_all acted (e ∷ q) s = let (result, s') = action s e in act_on_all (result || acted) q s'

  abbrev pub act_on_first : Chain → S → Bool × S
  act_on_first [] s = (false, s)
  act_on_first (e ∷ q) s = action s e

  do_runnable_from-due :
      (acted : Bool) (q : Chain) (s : S)
      → do_runnable_from action acted q s ≡ act_on_all acted (due q) s
  unfolding do_runnable_from
  do_runnable_from-due acted [] s = refl
  do_runnable_from-due acted (e ∷ q) s = elim (Bool-cases (e.counter == 0)) [
    | inl h ↦
        rw (h, do_runnable_from) (do_runnable_from-due ((action s e).0 || acted) q (action s e).1)
    | inr h ↦ rw (h, do_runnable_from) (do_runnable_from-due acted q s)
  ]

  run_first-due : (q : Chain) (s : S) → queue_run_first action q s ≡ act_on_first (due q) s
  unfolding queue_run_first
  run_first-due [] s = refl
  run_first-due (e ∷ q) s = elim (Bool-cases (e.counter == 0)) [
    | inl h ↦ rw (h, queue_run_first)
    | inr h ↦ rw (h, queue_run_first) (run_first-due q s)
  ]

  visits :
      (q : Chain) (s : S)
      → (queue_do_runnable action q s ≡ act_on_all false (due q) s)
        × (queue_run_first action q s ≡ act_on_first (due q) s)
  unfolding queue_do_runnable
  visits q s = (do_runnable_from-due false q s, run_first-due q s)

  module _ (memory : Memory S) where
    open memory use {expl_at, chain}

    -- The explosions of a list are linked in the memory from the first on, at different addresses,
    -- and behind the last there is no other.
    abbrev pub IsLinked : S → Chain → Type 0
    IsLinked s [] = Unit {0}
    IsLinked s (e ∷ q) =
        (expl_at s e.id ≡ some e) × (chain s e.id ≡ head_id q) × IsAbsent e.id q × IsLinked s q

    module _
        (harmless : (s : S) (e : Expl) (q : Chain)
          → IsLinked s (e ∷ q)
          → IsLinked (action s e).1 q) where
      walk_runnable_lem :
          (q : Chain) (acted : Bool) (s : S) (fuel : ℕ)
          → IsLinked s q
          → length q ≤ fuel
          → walk_runnable memory action fuel acted (head_id q) s
            ≡ some (do_runnable_from action acted q s)
      unfolding walk_runnable do_runnable_from
      walk_runnable_lem [] acted s fuel h l = refl
      walk_runnable_lem (e ∷ q) acted s zero h l = absurd (omega (arith, l))
      walk_runnable_lem (e ∷ q) acted s (suc fuel) h l = elim (Bool-cases (e.counter == 0)) [
        | inl k ↦
            rw (h.0, walk_runnable, k, h.1)
              (rw (k, do_runnable_from)
                (walk_runnable_lem q ((action s e).0 || acted) (action s e).1 fuel
                  (harmless s e q h) (omega (arith, l))))
        | inr k ↦
            rw (h.0, walk_runnable, k, h.1)
              (rw (k, do_runnable_from) (walk_runnable_lem q acted s fuel h.3 (omega (arith, l))))
      ]

      walk_first_lem :
          (q : Chain) (s : S) (fuel : ℕ)
          → IsLinked s q
          → length q ≤ fuel
          → walk_first memory action fuel (head_id q) s ≡ some (queue_run_first action q s)
      unfolding walk_first queue_run_first
      walk_first_lem [] s fuel h l = refl
      walk_first_lem (e ∷ q) s zero h l = absurd (omega (arith, l))
      walk_first_lem (e ∷ q) s (suc fuel) h l = elim (Bool-cases (e.counter == 0)) [
        | inl k ↦ rw (h.0, walk_first, k) (rw (k, queue_run_first) refl)
        | inr k ↦
            rw (h.0, walk_first, k, h.1)
              (rw (k, queue_run_first) (walk_first_lem q s fuel h.3 (omega (arith, l))))
      ]

      -- Walking along the pointers while the action relinks explosions: the walk ends and follows no
      -- wrong pointer; it runs the action on exactly the explosions of the queue as it was at the
      -- call whose counter is 0, each once and in order, and says whether one of them acted. The
      -- other walk runs it on the first of them only, and on none if there is none. Both are the
      -- walks over a list that the state machine is modelled with. Assumed: the explosions are
      -- linked in the memory, at different addresses; the action on an explosion leaves those behind
      -- it in the queue linked as they are, and their counters; and the fuel is no less than the
      -- length of the queue.
      pub walks_lem :
          (q : Chain) (s : S) (fuel : ℕ)
          → IsLinked s q
          → length q ≤ fuel
          → (walk_runnable memory action fuel false (head_id q) s
              ≡ some (act_on_all false (due q) s))
            × (walk_first memory action fuel (head_id q) s ≡ some (act_on_first (due q) s))
            × (queue_do_runnable action q s ≡ act_on_all false (due q) s)
            × (queue_run_first action q s ≡ act_on_first (due q) s)
      unfolding queue_do_runnable
      walks_lem q s fuel h l =
          let (all, first) = visits q s in
          (
            walk_runnable_lem q false s fuel h l ∙ ap some all,
            walk_first_lem q s fuel h l ∙ ap some first,
            all,
            first,
          )

  module _ (P : S → Type 0) (keep : (s : S) (e : Expl) → P s → P (action s e).1) where
    do_runnable_from_inv :
        (acted : Bool) (q : Chain) (s : S) → P s → P (do_runnable_from action acted q s).1
    unfolding do_runnable_from
    do_runnable_from_inv acted [] s h = h
    do_runnable_from_inv acted (e ∷ q) s h = elim (Bool-cases (e.counter == 0)) [
      | inl k ↦
          rw (k, do_runnable_from)
            (do_runnable_from_inv ((action s e).0 || acted) q (action s e).1 (keep s e h))
      | inr k ↦ rw (k, do_runnable_from) (do_runnable_from_inv acted q s h)
    ]

    pub do_runnable_inv : (q : Chain) (s : S) → P s → P (queue_do_runnable action q s).1
    unfolding queue_do_runnable
    do_runnable_inv q s h = do_runnable_from_inv false q s h

    pub run_first_inv : (q : Chain) (s : S) → P s → P (queue_run_first action q s).1
    unfolding queue_run_first
    run_first_inv [] s h = h
    run_first_inv (e ∷ q) s h = elim (Bool-cases (e.counter == 0)) [
      | inl k ↦ rw (k, queue_run_first) (keep s e h)
      | inr k ↦ rw (k, queue_run_first) (run_first_inv q s h)
    ]
