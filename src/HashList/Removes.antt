-- ===== src/HashList/Removes.antt =====
-- What a removal of sutil/shashlist.c does to the list and to the chains, and what is found.
use mathlib.Core.Option.{some-injective}
use xscorch.Prelude.{
  ℕ, suc, ◌≤◌, ◌<◌, List, [], ◌∷◌, true, false, Option, none, some, ◌≡◌, refl, sym, ◌∙◌, ap, arith,
  ◌==◌, if◌then◌else◌, Bool-cases, Option-cases, inl, inr, get_or, set, length, head?, length-set,
  get_or-set_self, get_or-set_ne,
}
use xscorch.HashList.{
  Keys, Item, HashList, chain_at, find, first_with_key, drop_key, unlink, remove,
}
use xscorch.HashList.Laws.{
  with_id, with_key, IsTable, lookup, first_with_key-head?, drop_key_other, drop_key_same,
}

module _ {ℓ κ} {K : Type ℓ} {D : Type κ} where
  pub with_id-unlink_le :
      (n id : ℕ) (items : List (Item K D))
      → length (with_id n (unlink id items)) ≤ length (with_id n items)
  unfolding unlink
  with_id-unlink_le n id [] = omega arith
  with_id-unlink_le n id (item ∷ items) = ground (arith, with_id-unlink_le n id items)

module _ {ℓ κ} {K : Type ℓ} {D : Type κ} (keys : Keys K) where
  -- Where the one item of a key is unlinked by its address, the key is gone, and all other keys
  -- stay.
  pub head_key :
      (key : K) (items : List (Item K D)) (item : Item K D)
      → head? (with_key keys key items) ≡ some item
      → item.key ≡ key
  head_key key [] item e = cc
  head_key key (x ∷ items) item e = elim (Bool-cases (keys.same x.key key)) [
    | inl s ↦
        let i : some x ≡ some item = rw s at e in
        rw (sym (some-injective _ _ i)) ((keys.same_iff x.key key).0 s)
    | inr s ↦ head_key key items item (rw s at e)
  ]

  has_id :
      (key : K) (items : List (Item K D)) (item : Item K D)
      → head? (with_key keys key items) ≡ some item
      → 0 < length (with_id item.id items)
  has_id key [] item e = cc
  has_id key (x ∷ items) item e = elim (Bool-cases (keys.same x.key key)) [
    | inl s ↦ let i : x ≡ item = some-injective _ _ (rw s at e) in rw (sym i) (ground arith)
    | inr s ↦ let r = has_id key items item (rw s at e) in ground arith
  ]

  nil_of_length : (items : List (Item K D)) → length items ≤ 0 → items ≡ []
  nil_of_length [] h = refl
  nil_of_length (item ∷ items) h = elim h [ ]

  unlink_key :
      (key : K) (items : List (Item K D)) (item : Item K D)
      → head? (with_key keys key items) ≡ some item
      → length (with_key keys key items) ≤ 1
      → length (with_id item.id items) ≤ 1
      → (k : K)
      → with_key keys k (unlink item.id items)
        ≡ (if keys.same key k then [] else with_key keys k items)
  unfolding unlink
  unlink_key key [] item e h i k = cc
  unlink_key key (x ∷ items) item e h i k = elim (Bool-cases (keys.same x.key key)) [
    | inl s ↦
        let it : x ≡ item = some-injective _ _ (rw s at e) in
        let id : x.id == item.id ≡ true = rw (sym it) (ground arith) in
        let kx : x.key ≡ key = (keys.same_iff x.key key).0 s in
        let one : suc (length (with_key keys key items)) ≤ 1 = rw s at h in
        elim (Bool-cases (keys.same key k)) [
          | inl t ↦
              let kk : k ≡ key = sym ((keys.same_iff key k).0 t) in
              rw (id, t, kk) (nil_of_length (with_key keys key items) (omega arith))
          | inr t ↦ let tx : keys.same x.key k ≡ false = rw kx t in rw (id, t, tx) refl
        ]
    | inr s ↦
        let e' : head? (with_key keys key items) ≡ some item = rw s at e in
        let h' : length (with_key keys key items) ≤ 1 = rw s at h in
        let some_id = has_id key items item e' in
        let id : x.id == item.id ≡ false = ground arith in
        let rest = unlink_key key items item e' h' (ground arith) k in
        elim (Bool-cases (keys.same key k)) [
          | inl t ↦
              let kk : k ≡ key = sym ((keys.same_iff key k).0 t) in
              let tx : keys.same x.key k ≡ false = rw kk s in
              let gone = rw t at rest in rw (id, t, tx) gone
          | inr t ↦ let same = rw t at rest in rw (id, t) (ground (arith, same))
        ]
  ]

  pub find-lookup :
      (place : K → ℕ) (t : HashList K D) (key : K)
      → IsTable keys place t
      → find keys place t key ≡ lookup keys t key
  unfolding find
  find-lookup place t key h =
      first_with_key-head? keys key (chain_at place t key) ∙ ap head? (h.chained key)

module _ {ℓ κ} {K : Type ℓ} {D : Type κ} (keys : Keys K) (place : K → ℕ) (t : HashList K D)
    (key : K) (h : IsTable keys place t) where
  abbrev chain : List (Item K D)
  chain = chain_at place t key

  chain_without :
      (k : K)
      → with_key keys k (get_or (set t.hash (place key) (drop_key keys key chain)) (place k) [])
        ≡ (if keys.same key k then [] else with_key keys k t.order)
  chain_without k = elim (Bool-cases (keys.same key k)) [
    | inl s ↦
        let same : k ≡ key = sym ((keys.same_iff key k).0 s) in
        let at_place =
          get_or-set_self t.hash (place key) (drop_key keys key chain) [] (h.placed key) in
        let one : length (with_key keys key chain) ≤ 1 = rw (h.chained key) (h.keyed key) in
        rw (s, same, at_place) (drop_key_same keys key chain one)
    | inr s ↦ elim (Bool-cases (place key == place k)) [
      | inl e ↦
          let p : place k ≡ place key = ground arith in
          let at_place =
            get_or-set_self t.hash (place key) (drop_key keys key chain) [] (h.placed key) in
          let before = rw p at (h.chained k) in
          rw (s, p, at_place) (drop_key_other keys key k chain s ∙ before)
      | inr e ↦
          let at_place =
            get_or-set_ne t.hash (place key) (place k) (drop_key keys key chain) []
              (λ q. ground arith) in
          rw (s, at_place) (h.chained k)
    ]
  ]

  module _ (item : Item K D) (found : lookup keys t key ≡ some item) where
    found_first : first_with_key keys key chain ≡ some item
    found_first = first_with_key-head? keys key chain ∙ ap head? (h.chained key) ∙ found

    without :
        (k : K)
        → with_key keys k (unlink item.id t.order)
          ≡ (if keys.same key k then [] else with_key keys k t.order)
    without = unlink_key keys key t.order item found (h.keyed key) (h.addressed item.id)

    keyed_without : (k : K) → length (with_key keys k (unlink item.id t.order)) ≤ 1
    keyed_without k = let o = h.keyed k in rw (without k) (ground arith)

    pub remove-IsTable : IsTable keys place (remove keys place t key).1
    unfolding remove
    remove-IsTable =
        rw (found_first, remove)
          (record {
            chained = λ k. chain_without k ∙ sym (without k);
            keyed = keyed_without;
            addressed = λ n.
                let a = with_id-unlink_le n item.id t.order in let b = h.addressed n in omega arith;
            placed = λ k. rw (length-set t.hash (place key) (drop_key keys key chain)) (h.placed k);
          })

    -- The item is handed out, and its key is gone; the items of other keys are what they were.
    pub lookup-remove :
        ((remove keys place t key).0 ≡ some item)
        × ((k : K)
            → lookup keys (remove keys place t key).1 k
              ≡ (if keys.same key k then none else lookup keys t k))
    unfolding remove
    lookup-remove = rw (found_first, remove) (refl, λ k. rw (without k) (ground arith))

  -- Where there is no item of the key, nothing happens.
  pub remove-none : lookup keys t key ≡ none → remove keys place t key ≡ (none, t)
  unfolding remove
  remove-none e =
      let n : first_with_key keys key chain ≡ none =
        first_with_key-head? keys key chain ∙ ap head? (h.chained key) ∙ e in
      rw (n, remove) refl

  -- The list, if something was found.
  abbrev pub changed_if : Option (Item K D) → HashList K D → HashList K D
  changed_if none new = t
  changed_if (some item) new = new

  -- A removal hands out what is found under the key; then nothing is found under it, all other keys
  -- give what they gave, and the list and the chains still hold the same items. Where nothing is
  -- found it changes nothing. Assumed: the list and the chains hold the same items, one of each key,
  -- at different addresses.
  pub remove_lem :
      (remove keys place t key
        ≡ (find keys place t key, changed_if (find keys place t key) (remove keys place t key).1))
      × ((k : K)
          → find keys place (remove keys place t key).1 k
            ≡ (if keys.same key k then none else find keys place t k))
      × IsTable keys place (remove keys place t key).1
  remove_lem =
      let at_key = find-lookup keys place t key h in
      elim (Option-cases (find keys place t key)) [
        | inl e ↦
            let nothing = remove-none (sym at_key ∙ e) in
            (rw (e, nothing) refl, λ k. rw nothing (same_key_none e k), rw nothing h)
        | inr (item, e) ↦
            let found = sym at_key ∙ e in
            let table = remove-IsTable item found in
            let (out, look) = lookup-remove item found in
            (
              rw e (ap (λ o. (o, (remove keys place t key).1)) out),
              λ k.
                  find-lookup keys place (remove keys place t key).1 k table
                  ∙ look k
                  ∙ ap (λ r. if keys.same key k then none else r)
                      (sym (find-lookup keys place t k h)),
              table,
            )
      ]
    where
      same_key_none :
          find keys place t key ≡ none
          → (k : K) → find keys place t k ≡ (if keys.same key k then none else find keys place t k)
      same_key_none e k = elim (Bool-cases (keys.same key k)) [
        | inl s ↦
            let same : k ≡ key = sym ((keys.same_iff key k).0 s) in
            rw s (ap (find keys place t) same ∙ e)
        | inr s ↦ rw s refl
      ]
