-- ===== src/HashList/Tests.antt =====
-- Runs of the hash list of sutil/shashlist.c on integer keys, and the theorems at work on them.
use mathlib.Core.Path.{◌≡◌, refl}
use xscorch.Prelude.{◌+◌, if◌then◌else◌, ℕ, List, [], ◌∷◌, none, some, arith, map}
use xscorch.Prelude.Int.{eqb_ℤ, ℤ, pos}
use xscorch.HashList.{
  Item, HashList, insert_from, insert_order, insert, first_with_key, find, remove,
}
use xscorch.HashList.Keyed.{int_keys, insert_by_int}
use xscorch.HashList.Laws.{IsTable}
use xscorch.HashList.Removes.{remove_lem}
use xscorch.HashList.Ascending.{IsAscending}
use xscorch.HashList.Sorted.{insert_lem}

-- One chain for all keys.
abbrev one_chain : ℤ → ℕ
one_chain key = 0

abbrev entry : ℕ → ℕ → Item ℤ ℕ
entry id key = record { id = id; class = 1; key = pos key; value = 100 + key }

abbrev small : HashList ℤ ℕ
small = record { order = entry 11 2 ∷ entry 12 5 ∷ []; hash = (entry 11 2 ∷ entry 12 5 ∷ []) ∷ [] }

small-IsTable : IsTable int_keys one_chain small
small-IsTable = record {
  chained = λ key. refl;
  keyed = λ key. ground arith;
  addressed = λ id. ground arith;
  placed = λ key. omega arith;
}

abbrev after_insertions : List ℕ → HashList ℤ ℕ → List (Item ℤ ℕ)
after_insertions [] list = list.order
after_insertions (key ∷ keys) list =
    after_insertions keys (insert_by_int one_chain list (some key) (some 0) 1 (pos key)).1

-- A key that stands before the head goes after it, and the key of the head is then taken again.
head_twice :
    map
      (λ (item : Item ℤ ℕ). item.key)
      (after_insertions (5 ∷ 3 ∷ 5 ∷ []) (record { order = []; hash = [] ∷ [] }))
    ≡ pos 5 ∷ pos 3 ∷ pos 5 ∷ []
unfolding insert_by_int insert insert_order insert_from
head_twice = refl

insert_lem_example :
    (insert int_keys one_chain small (some (entry 13 3))
      ≡ (some (entry 13 3), (insert int_keys one_chain small (some (entry 13 3))).1))
    × ((k : ℤ)
        → find int_keys one_chain (insert int_keys one_chain small (some (entry 13 3))).1 k
          ≡ (if eqb_ℤ (pos 3) k then some (entry 13 3) else find int_keys one_chain small k))
    × IsAscending int_keys (insert int_keys one_chain small (some (entry 13 3))).1.order
unfolding find first_with_key
insert_lem_example =
    insert_lem int_keys one_chain small (entry 13 3) small-IsTable ((refl, refl), tt) refl refl

remove_lem_example :
    (remove int_keys one_chain small (pos 5)
      ≡ (some (entry 12 5), (remove int_keys one_chain small (pos 5)).1))
    × ((k : ℤ)
        → find int_keys one_chain (remove int_keys one_chain small (pos 5)).1 k
          ≡ (if eqb_ℤ (pos 5) k then none else find int_keys one_chain small k))
    × IsTable int_keys one_chain (remove int_keys one_chain small (pos 5)).1
unfolding find first_with_key
remove_lem_example = remove_lem int_keys one_chain small (pos 5) small-IsTable
