-- ===== src/Game/Queue/Links.antt =====
-- The two iterators of sgame/sgame.c over the queues as the source has them: by the `chain` fields,
-- in a memory that the action writes. `S` is that memory and all else that the action may change.
-- None stands for a walk that follows a pointer to where no explosion is, and for fuel that runs out.
use xscorch.Prelude.{ℕ, zero, suc, Bool, true, false, ◌||◌, Option, none, some, ◌==◌}
use xscorch.Game.Queue.{Expl}

-- The explosion at an address, and its field `chain`.
pub record Memory (S : Type 0) : Type 0 where
  pub expl_at : S → ℕ → Option Expl
  pub chain : S → ℕ → Option ℕ

module _ {S : Type 0} (memory : Memory S) (action : S → Expl → Bool × S) where
  -- The loops, from the variables `acted` and `queue` on; the fuel counts rounds.
  unfoldable pub walk_runnable : ℕ → Bool → Option ℕ → S → Option (Bool × S)
  walk_runnable fuel acted none s = some (acted, s)
  walk_runnable zero acted (some cur) s = none
  walk_runnable (suc fuel) acted (some cur) s =
      let queue = memory.chain s cur in
      elim (memory.expl_at s cur) [
        | none ↦ none
        | some e ↦ elim (e.counter == 0) [
          | true ↦ let (result, s') = action s e in walk_runnable fuel (result || acted) queue s'
          | false ↦ walk_runnable fuel acted queue s
        ]
      ]

  unfoldable pub walk_first : ℕ → Option ℕ → S → Option (Bool × S)
  walk_first fuel none s = some (false, s)
  walk_first zero (some cur) s = none
  walk_first (suc fuel) (some cur) s =
      let queue = memory.chain s cur in
      elim (memory.expl_at s cur) [
        | none ↦ none
        | some e ↦ elim (e.counter == 0) [
          | true ↦ some (action s e)
          | false ↦ walk_first fuel queue s
        ]
      ]
