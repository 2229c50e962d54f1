-- ===== src/HashList/Laws.antt =====
-- Items by key and by address, on the list and on the chains of sutil/shashlist.c; and what it means
-- for the two to hold the same items.
use xscorch.Prelude.{
  ℕ, ◌≤◌, ◌<◌, List, [], ◌∷◌, true, false, Option, ◌≡◌, refl, arith, ◌==◌, Bool-cases, inl, inr,
  length, filter, head?,
}
use xscorch.HashList.{Keys, Item, HashList, first_with_key, drop_key, chain_at}

abbrev pub with_id {ℓ κ} : {K : Type ℓ} {D : Type κ} → ℕ → List (Item K D) → List (Item K D)
with_id id items = filter (λ item. item.id == id) items

pub same_refl {ℓ} : {K : Type ℓ} (keys : Keys K) (a : K) → keys.same a a ≡ true
same_refl keys a = (keys.same_iff a a).1 refl

module _ {ℓ κ} {K : Type ℓ} {D : Type κ} (keys : Keys K) where
  abbrev pub with_key : K → List (Item K D) → List (Item K D)
  with_key key items = filter (λ item. keys.same item.key key) items

  pub first_with_key-head? :
      (key : K) (items : List (Item K D))
      → first_with_key keys key items ≡ head? (with_key key items)
  unfolding first_with_key
  first_with_key-head? key [] = refl
  first_with_key-head? key (item ∷ items) = ground (arith, first_with_key-head? key items)

  -- Dropping one item of a key leaves the items of all other keys.
  pub drop_key_other :
      (key other : K) (items : List (Item K D))
      → keys.same key other ≡ false
      → with_key other (drop_key keys key items) ≡ with_key other items
  unfolding drop_key
  drop_key_other key other [] h = refl
  drop_key_other key other (item ∷ items) h = elim (Bool-cases (keys.same item.key key)) [
    | inl e ↦
        let k : item.key ≡ key = (keys.same_iff item.key key).0 e in
        let o : keys.same item.key other ≡ false = rw k h in rw (e, o) refl
    | inr e ↦ rw e (ground (arith, drop_key_other key other items h))
  ]

  pub drop_key_same :
      (key : K) (items : List (Item K D))
      → length (with_key key items) ≤ 1
      → with_key key (drop_key keys key items) ≡ []
  unfolding drop_key
  drop_key_same key [] h = refl
  drop_key_same key (item ∷ items) h = elim (Bool-cases (keys.same item.key key)) [
    | inl e ↦
        let h' : length (item ∷ with_key key items) ≤ 1 = rw e at h in
        rw e (none_left (with_key key items) (omega arith))
    | inr e ↦
        let h' : length (with_key key items) ≤ 1 = rw e at h in
        rw (e, e) (drop_key_same key items h')
  ]
    where
      none_left : (items : List (Item K D)) → length items ≤ 0 → items ≡ []
      none_left [] h = refl
      none_left (item ∷ items) h = elim h [ ]

-- The list and the chains hold the same items of each key, and at most one; addresses differ; and
-- every key has a place in the array.
pub record IsTable {ℓ κ} {K : Type ℓ} {D : Type κ} (keys : Keys K) (place : K → ℕ)
    (t : HashList K D) : Type (ℓ ⊔ κ) where
  pub chained : (key : K) → with_key keys key (chain_at place t key) ≡ with_key keys key t.order
  pub keyed : (key : K) → length (with_key keys key t.order) ≤ 1
  pub addressed : (id : ℕ) → length (with_id id t.order) ≤ 1
  pub placed : (key : K) → place key < length t.hash

-- The item of a key, on the list.
abbrev pub lookup {ℓ κ} : {K : Type ℓ} {D : Type κ} → Keys K → HashList K D → K → Option (Item K D)
lookup keys t key = head? (with_key keys key t.order)
