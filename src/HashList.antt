-- ===== src/HashList.antt =====
-- sutil/shashlist.c: items on a doubly linked list, in the order of their keys, and on the chains of a
-- hash table. The code is written out twice in the source, for keys that are integers and for keys
-- that are strings; here it is written once, over the comparisons of keys (`Keys`), and Keyed gives
-- both. An address is a number, `id`. The list from `head` is the list of items, and walking `prev`
-- from `tail` is walking that list backwards; `hash` is the array of chains. The place of a key in
-- the array is a parameter: `shash` of sutil/shash.c computes with doubles.
pub mod Keyed
pub mod Laws
pub mod Inserts
pub mod Removes
pub mod Ascending
pub mod Sorted
mod Tests
use mathlib.Core.List.{reverse}
use xscorch.Prelude.{
  ℕ, zero, suc, List, [], ◌∷◌, ◌++◌, Bool, true, false, ◌||◌, Option, none, some, ◌==◌, ◌≡◌, ◌↔◌,
  if◌then◌else◌, get_or, set,
}

-- How keys are compared, with what the code relies on.
pub record Keys {ℓ} (K : Type ℓ) : Type ℓ where
  pub le : K → K → Bool
  pub same : K → K → Bool
  pub same_iff : (a b : K) → (same a b ≡ true) ↔ (a ≡ b)
  pub le_same : (a b : K) → le a b ≡ true → le b a ≡ true → a ≡ b
  pub le_trans : (a b c : K) → le a b ≡ true → le b c ≡ true → le a c ≡ true
  pub le_total : (a b : K) → le a b ≡ false → le b a ≡ true

-- `shashlist_item`
pub record Item {ℓ κ} (K : Type ℓ) (D : Type κ) : Type (ℓ ⊔ κ) where
  pub id : ℕ
  pub class : ℕ
  pub key : K
  pub value : D

-- `shashlist`
pub record HashList {ℓ κ} (K : Type ℓ) (D : Type κ) : Type (ℓ ⊔ κ) where
  pub order : List (Item K D)
  pub hash : List (List (Item K D))

-- SHASHLIST_ALL_CLASSES
abbrev pub all_classes : ℕ
all_classes = 0

abbrev pub has_class {ℓ κ} : {K : Type ℓ} {D : Type κ} → ℕ → Item K D → Bool
has_class class item = class == all_classes || item.class == class

-- The search along the list for an item of a class.
unfoldable pub first_of_class {ℓ κ} :
    {K : Type ℓ} {D : Type κ} → ℕ → List (Item K D) → Option (Item K D)
first_of_class class [] = none
first_of_class class (item ∷ items) =
    if has_class class item then some item else first_of_class class items

-- What follows an item, by its address.
unfoldable pub after {ℓ κ} : {K : Type ℓ} {D : Type κ} → ℕ → List (Item K D) → List (Item K D)
after id [] = []
after id (item ∷ items) = if item.id == id then items else after id items

-- The items to search: all, or those after a given one.
abbrev pub onward {ℓ κ} :
    {K : Type ℓ} {D : Type κ} → Option (Item K D) → List (Item K D) → List (Item K D)
onward none items = items
onward (some item) items = after item.id items

unfoldable pub find_next {ℓ κ} :
    {K : Type ℓ} {D : Type κ} → HashList K D → Option (Item K D) → ℕ → Option (Item K D)
unfolding first_of_class after
find_next list item class = first_of_class class (onward item list.order)

unfoldable pub find_prev {ℓ κ} :
    {K : Type ℓ} {D : Type κ} → HashList K D → Option (Item K D) → ℕ → Option (Item K D)
unfolding first_of_class after
find_prev list item class = first_of_class class (onward item (reverse list.order))

-- The unlinking of an item from the list.
unfoldable pub unlink {ℓ κ} : {K : Type ℓ} {D : Type κ} → ℕ → List (Item K D) → List (Item K D)
unlink id [] = []
unlink id (item ∷ items) =
    let rest = unlink id items in if item.id == id then items else item ∷ rest

-- The chain of a key; a place beyond the array does not occur (an empty chain here).
abbrev pub chain_at {ℓ κ} : {K : Type ℓ} {D : Type κ} → (K → ℕ) → HashList K D → K → List (Item K D)
chain_at place list key = get_or list.hash (place key) []

module _ {ℓ κ} {K : Type ℓ} {D : Type κ} (keys : Keys K) where
  -- The walk from `temp` to the place of the new item, which fails at an equal key.
  unfoldable pub insert_from : Item K D → List (Item K D) → Item K D → Option (List (Item K D))
  insert_from temp [] item = if keys.same temp.key item.key then none else some (temp ∷ item ∷ [])
  insert_from temp (next ∷ rest) item =
      let farther = insert_from next rest item in
      if keys.le next.key item.key
      then elim farther [ none ↦ none | some items ↦ some (temp ∷ items) ]
      else if keys.same temp.key item.key
      then none
      else some (temp ∷ item ∷ next ∷ rest)

  unfoldable pub insert_order : List (Item K D) → Item K D → Option (List (Item K D))
  unfolding insert_from
  insert_order [] item = some (item ∷ [])
  insert_order (head ∷ items) item = insert_from head items item

  unfoldable pub first_with_key : K → List (Item K D) → Option (Item K D)
  first_with_key key [] = none
  first_with_key key (item ∷ chain) =
      if keys.same item.key key then some item else first_with_key key chain

  -- A chain without its first item of a key.
  unfoldable pub drop_key : K → List (Item K D) → List (Item K D)
  drop_key key [] = []
  drop_key key (item ∷ chain) =
      let rest = drop_key key chain in if keys.same item.key key then chain else item ∷ rest

module _ {ℓ κ} {K : Type ℓ} {D : Type κ} (keys : Keys K) (place : K → ℕ) where
  -- An insertion with its allocation: `new` is the item, or none where there is no memory.
  unfoldable pub insert : HashList K D → Option (Item K D) → Option (Item K D) × HashList K D
  unfolding insert_order
  insert list none = (none, list)
  insert list (some item) = elim (insert_order keys list.order item) [
    | none ↦ (none, list)
    | some items ↦ (
      some item,
      record {
        order = items;
        hash = set list.hash (place item.key) (chain_at place list item.key ++ (item ∷ []));
      },
    )
  ]

  unfoldable pub find : HashList K D → K → Option (Item K D)
  unfolding first_with_key
  find list key = first_with_key keys key (chain_at place list key)

  unfoldable pub remove : HashList K D → K → Option (Item K D) × HashList K D
  unfolding first_with_key drop_key unlink
  remove list key = elim (first_with_key keys key (chain_at place list key)) [
    | none ↦ (none, list)
    | some item ↦ (
      some item,
      record {
        order = unlink item.id list.order;
        hash = set list.hash (place key) (drop_key keys key (chain_at place list key));
      },
    )
  ]
