-- ===== src/Registry/Find.antt =====
-- The walks of sgame/sregistry.c over the items of a class that pass a test.
use xscorch.Prelude.{ℕ, zero, suc, Bool, true, false, Option, none, some}
use xscorch.Prelude.Int.{ℤ}
use xscorch.HashList.{Item, HashList}
use xscorch.HashList.Keyed.{find_by_int}
use xscorch.Registry.{Registry, Direction, find_on, data_of}

-- A test (`sc_registry_test_func`) on some data, with what its argument points to. The test that is
-- NULL always holds.
abbrev pub run_test {κ ν} : {D : Type κ} {S : Type ν} → Option (D → S → Bool × S) → D → S → Bool × S
run_test none value arg = (true, arg)
run_test (some function) value arg = function value arg

module _ {ℓ κ ν} {K : Type ℓ} {D : Type κ} {S : Type ν} where
  -- The loop, on fuel: none where the fuel runs out, and else the item and what the test's argument
  -- points to.
  unfoldable pub internal_iter :
      ℕ
      → HashList K D
      → Option (Item K D)
      → ℕ
      → Direction
      → Option (D → S → Bool × S)
      → S
      → Option (Option (Item K D) × S)
  unfolding find_on
  internal_iter zero list item class direction function arg = none
  internal_iter (suc fuel) list item class direction function arg =
      elim (find_on list item class direction) [
        | none ↦ some (none, arg)
        | some next ↦
            let (passes, arg') = run_test function next.value arg in
            elim passes [
              | true ↦ some (some next, arg')
              | false ↦ internal_iter fuel list (some next) class direction function arg'
            ]
      ]

  -- The data of what a walk finds.
  abbrev pub data_found : Option (Option (Item K D) × S) → Option (Option D × S)
  data_found none = none
  data_found (some (item, arg)) = some (data_of item, arg)

  unfoldable pub find_first :
      ℕ → Registry K D → ℕ → Direction → Option (D → S → Bool × S) → S → Option (Option D × S)
  unfolding internal_iter
  find_first fuel registry class direction function arg =
      data_found (internal_iter fuel registry.hashlist none class direction function arg)

module _ {κ ν} {D : Type κ} {S : Type ν} (place : ℤ → ℕ) where
  unfoldable pub find_next :
      ℕ → Registry ℤ D → ℕ → ℤ → Direction → Option (D → S → Bool × S) → S → Option (Option D × S)
  unfolding internal_iter find_by_int
  find_next fuel registry class key direction function arg = data_found (
      internal_iter fuel registry.hashlist (find_by_int place registry.hashlist key) class direction
        function arg)

-- `sc_registry_iter`: the registry, the test and its argument are given with each iteration.
pub record Iter {ℓ κ} (K : Type ℓ) (D : Type κ) : Type (ℓ ⊔ κ) where
  pub class : ℕ
  pub current : Option (Item K D)
  pub direction : Direction
  pub running : Bool

module _ {ℓ κ} {K : Type ℓ} {D : Type κ} where
  -- Where there is memory.
  unfoldable pub iter_new : Bool → ℕ → Direction → Option (Iter K D)
  iter_new false class direction = none
  iter_new true class direction =
      some (record { class = class; current = none; direction = direction; running = true })

module _ {ℓ κ ν} {K : Type ℓ} {D : Type κ} {S : Type ν} where
  -- The iterator after a search.
  abbrev moved : Iter K D → Option (Option (Item K D) × S) → Option (Option D × Iter K D × S)
  moved iter none = none
  moved iter (some (none, arg)) = some (none, record iter { current = none; running = false }, arg)
  moved iter (some (some item, arg)) =
      some (some item.value, record iter { current = some item }, arg)

  unfoldable pub iterate :
      ℕ → Registry K D → Option (D → S → Bool × S) → Iter K D → S → Option (Option D × Iter K D × S)
  unfolding internal_iter
  iterate fuel registry function iter arg = elim iter.running [
    | false ↦ some (none, iter, arg)
    | true ↦
        moved iter
          (internal_iter fuel registry.hashlist iter.current iter.class iter.direction function arg)
  ]
