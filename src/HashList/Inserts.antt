-- ===== src/HashList/Inserts.antt =====
-- What an insertion of sutil/shashlist.c does to the list and to the chains.
use xscorch.Prelude.{
  ℕ, ◌≤◌, List, [], ◌∷◌, ◌++◌, Bool, true, false, none, some, ◌≡◌, refl, sym, ◌∙◌, arith, ◌==◌,
  if◌then◌else◌, Bool-cases, Option-cases, inl, inr, get_or, set, length, filter, head?,
  filter-append, length-set, get_or-set_self, get_or-set_ne,
}
use mathlib.Core.Option.{some-injective}
use mathlib.Core.Path.{subst}
use mathlib.Core.List.{append-nil}
use xscorch.HashList.{Keys, Item, HashList, insert_from, insert_order, insert, chain_at}
use xscorch.HashList.Laws.{with_id, with_key, same_refl, IsTable, lookup}

-- A list with an item put in somewhere.
pub data IsPutIn {ℓ} {A : Type ℓ} (item : A) : List A → List A → Type ℓ where
  here : (xs : List A) → IsPutIn item xs (item ∷ xs)
  there : (x : A) (xs ys : List A) → IsPutIn item xs ys → IsPutIn item (x ∷ xs) (x ∷ ys)

module _ {ℓ κ} {K : Type ℓ} {D : Type κ} (keys : Keys K) where
  insert_from-IsPutIn :
      (temp : Item K D) (items : List (Item K D)) (item : Item K D) (items' : List (Item K D))
      → insert_from keys temp items item ≡ some items'
      → IsPutIn item (temp ∷ items) items'
  unfolding insert_from
  insert_from-IsPutIn temp [] item items' e = elim (Bool-cases (keys.same temp.key item.key)) [
    | inl s ↦ let n = rw s at e in cc
    | inr s ↦
        subst (IsPutIn item (temp ∷ [])) (some-injective _ _ (rw s at e))
          (there temp [] (item ∷ []) (here []))
  ]
  insert_from-IsPutIn temp (next ∷ rest) item items' e =
      elim (Bool-cases (keys.le next.key item.key)) [
        | inl l ↦ elim (Option-cases (insert_from keys next rest item)) [
          | inl n ↦ let r = rw (l, n, insert_from) at e in cc
          | inr (farther, n) ↦
              subst (IsPutIn item (temp ∷ next ∷ rest))
                (some-injective _ _ (rw (l, n, insert_from) at e))
                (there temp (next ∷ rest) farther (insert_from-IsPutIn next rest item farther n))
        ]
        | inr l ↦ elim (Bool-cases (keys.same temp.key item.key)) [
          | inl s ↦ let r = rw (l, s) at e in cc
          | inr s ↦
              subst (IsPutIn item (temp ∷ next ∷ rest)) (some-injective _ _ (rw (l, s) at e))
                (there temp (next ∷ rest) (item ∷ next ∷ rest) (here (next ∷ rest)))
        ]
      ]

  insert_order-IsPutIn :
      (items : List (Item K D)) (item : Item K D) (items' : List (Item K D))
      → insert_order keys items item ≡ some items'
      → IsPutIn item items items'
  unfolding insert_order
  insert_order-IsPutIn [] item items' e = subst (IsPutIn item []) (some-injective _ _ e) (here [])
  insert_order-IsPutIn (head ∷ items) item items' e = insert_from-IsPutIn head items item items' e

-- What a test keeps of a list with an item put in.
module _ {ℓ} {A : Type ℓ} (test : A → Bool) (item : A) where
  pub filter-put_other :
      (xs ys : List A) → IsPutIn item xs ys → test item ≡ false → filter test ys ≡ filter test xs
  filter-put_other _ _ (here xs) h = rw h refl
  filter-put_other _ _ (there x xs ys p) h = ground (arith, filter-put_other xs ys p h)

  pub filter-put_empty :
      (xs ys : List A)
      → IsPutIn item xs ys
      → test item ≡ true
      → filter test xs ≡ []
      → filter test ys ≡ item ∷ []
  filter-put_empty _ _ (here xs) h e = rw (h, e) refl
  filter-put_empty _ _ (there x xs ys p) h e = elim (Bool-cases (test x)) [
    | inl t ↦ let n = rw t at e in cc
    | inr t ↦ rw t (filter-put_empty xs ys p h (rw t at e))
  ]

nil_of_head? {ℓ} : {A : Type ℓ} (xs : List A) → head? xs ≡ none → xs ≡ []
nil_of_head? [] e = refl
nil_of_head? (x ∷ xs) e = cc

module _ {ℓ κ} {K : Type ℓ} {D : Type κ} (keys : Keys K) (place : K → ℕ) (t : HashList K D)
    (item : Item K D) (h : IsTable keys place t) (absent : lookup keys t item.key ≡ none) where
  abbrev old : List (Item K D)
  old = chain_at place t item.key

  no_item : with_key keys item.key t.order ≡ []
  no_item = nil_of_head? (with_key keys item.key t.order) absent

  -- The chains of the new table, by key.
  chain_same :
      with_key keys item.key
        (get_or (set t.hash (place item.key) (old ++ (item ∷ []))) (place item.key) [])
      ≡ item ∷ []
  chain_same =
      let at_place =
        get_or-set_self t.hash (place item.key) (old ++ (item ∷ [])) [] (h.placed item.key) in
      let apart = filter-append (λ i. keys.same i.key item.key) old (item ∷ []) in
      let none_there = h.chained item.key ∙ no_item in
      rw (at_place, apart, none_there, same_refl keys item.key) refl

  chain_other :
      (k : K)
      → keys.same item.key k ≡ false
      → with_key keys k (get_or (set t.hash (place item.key) (old ++ (item ∷ []))) (place k) [])
        ≡ with_key keys k t.order
  chain_other k o = elim (Bool-cases (place item.key == place k)) [
    | inl e ↦
        let p : place k ≡ place item.key = ground arith in
        let at_place =
          get_or-set_self t.hash (place item.key) (old ++ (item ∷ [])) [] (h.placed item.key) in
        let apart = filter-append (λ i. keys.same i.key k) old (item ∷ []) in
        let before = rw p at (h.chained k) in
        rw (p, at_place, apart, o) (append-nil (with_key keys k old) ∙ before)
    | inr e ↦
        let at_place =
          get_or-set_ne t.hash (place item.key) (place k) (old ++ (item ∷ [])) []
            (λ q. ground arith) in
        rw at_place (h.chained k)
  ]

  module _ (items : List (Item K D)) (put : IsPutIn item t.order items) where
    chained_new :
        (k : K)
        → with_key keys k (get_or (set t.hash (place item.key) (old ++ (item ∷ []))) (place k) [])
          ≡ with_key keys k items
    chained_new k = elim (Bool-cases (keys.same item.key k)) [
      | inl s ↦
          let same : k ≡ item.key = sym ((keys.same_iff item.key k).0 s) in
          rw same (
            chain_same
            ∙ sym (
                filter-put_empty (λ i. keys.same i.key item.key) item t.order items put
                  (same_refl keys item.key) no_item))
      | inr s ↦
          chain_other k s ∙ sym (filter-put_other (λ i. keys.same i.key k) item t.order items put s)
    ]

    keyed_new : (k : K) → length (with_key keys k items) ≤ 1
    keyed_new k = elim (Bool-cases (keys.same item.key k)) [
      | inl s ↦
          let same : k ≡ item.key = sym ((keys.same_iff item.key k).0 s) in
          let one =
            filter-put_empty (λ i. keys.same i.key item.key) item t.order items put
              (same_refl keys item.key) no_item in
          rw (same, one) (omega arith)
      | inr s ↦
          let other = filter-put_other (λ i. keys.same i.key k) item t.order items put s in
          rw other (h.keyed k)
    ]

    addressed_new : with_id item.id t.order ≡ [] → (n : ℕ) → length (with_id n items) ≤ 1
    addressed_new fresh n = elim (Bool-cases (item.id == n)) [
      | inl s ↦
          let same : n ≡ item.id = ground arith in
          let one =
            filter-put_empty (λ i. i.id == item.id) item t.order items put (ground arith) fresh in
          rw (same, one) (omega arith)
      | inr s ↦
          let other = filter-put_other (λ i. i.id == n) item t.order items put s in
          rw other (h.addressed n)
    ]

  -- An item of a new key, with a new address, goes into the table.
  pub insert-IsTable :
      (items : List (Item K D))
      → with_id item.id t.order ≡ []
      → insert_order keys t.order item ≡ some items
      → IsTable keys place (insert keys place t (some item)).1
  unfolding insert
  insert-IsTable items fresh e =
      let put = insert_order-IsPutIn keys t.order item items e in
      rw (e, insert)
        (record {
          chained = chained_new items put;
          keyed = keyed_new items put;
          addressed = addressed_new items put fresh;
          placed = λ k. rw (length-set t.hash (place item.key) (old ++ (item ∷ []))) (h.placed k);
        })

  -- It is found under its key, and the items of other keys are what they were.
  pub lookup-insert :
      (items : List (Item K D))
      → insert_order keys t.order item ≡ some items
      → (k : K)
      → lookup keys (insert keys place t (some item)).1 k
        ≡ (if keys.same item.key k then some item else lookup keys t k)
  unfolding insert
  lookup-insert items e k =
      let put = insert_order-IsPutIn keys t.order item items e in
      elim (Bool-cases (keys.same item.key k)) [
        | inl s ↦
            let same : k ≡ item.key = sym ((keys.same_iff item.key k).0 s) in
            let one =
              filter-put_empty (λ i. keys.same i.key item.key) item t.order items put
                (same_refl keys item.key) no_item in
            rw (e, insert, s, same, one) refl
        | inr s ↦
            let other = filter-put_other (λ i. keys.same i.key k) item t.order items put s in
            rw (e, insert, s, other) refl
      ]
