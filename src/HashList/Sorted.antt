-- ===== src/HashList/Sorted.antt =====
-- Insertions of sutil/shashlist.c into a list whose keys ascend, at a key that does not stand before
-- the head: the list stays ascending, and a key that is there already is refused. (The insertion
-- does not compare a key with the head before it walks, so a key before the head goes after it.)
use mathlib.Core.Option.{some-injective}
use mathlib.Core.Path.{subst}
use xscorch.Prelude.{
  ℕ, List, [], ◌∷◌, Option, none, some, ◌≡◌, refl, sym, ◌∙◌, ap, if◌then◌else◌, Bool-cases,
  Option-cases, inl, inr, head?,
}
use xscorch.HashList.{Keys, Item, HashList, insert_order, insert, find}
use xscorch.HashList.Laws.{with_id, with_key, IsTable, lookup}
use xscorch.HashList.Inserts.{insert-IsTable, lookup-insert}
use xscorch.HashList.Removes.{find-lookup}
use xscorch.HashList.Ascending.{
  IsAscending, IsNotFirst, insert_from_twice, insert_from_absent, insert_from-IsAscending,
}

module _ {ℓ κ} {K : Type ℓ} {D : Type κ} (keys : Keys K) (place : K → ℕ) (t : HashList K D)
    (item : Item K D) (h : IsTable keys place t) where
  insert_order-IsAscending :
      (items items' : List (Item K D))
      → IsAscending keys items
      → IsNotFirst keys items item.key
      → insert_order keys items item ≡ some items'
      → IsAscending keys items'
  unfolding insert_order
  insert_order-IsAscending [] items' a n e = subst (IsAscending keys) (some-injective _ _ e) tt
  insert_order-IsAscending (x ∷ items) items' a n e =
      (insert_from-IsAscending keys x items item items' a n e).1

  insert_order_absent :
      (items : List (Item K D))
      → head? (with_key keys item.key items) ≡ none
      → (items' : List (Item K D)) × (insert_order keys items item ≡ some items')
  unfolding insert_order
  insert_order_absent [] e = (item ∷ [], refl)
  insert_order_absent (x ∷ items) e = insert_from_absent keys x items item e

  insert_order_twice :
      (items : List (Item K D)) (found : Item K D)
      → IsAscending keys items
      → IsNotFirst keys items item.key
      → head? (with_key keys item.key items) ≡ some found
      → insert_order keys items item ≡ none
  unfolding insert_order
  insert_order_twice [] found a n e = cc
  insert_order_twice (x ∷ items) found a n e = insert_from_twice keys x items item found a n e

  -- An item of a key that is not there, with a new address, is taken.
  pub insert_absent :
      with_id item.id t.order ≡ []
      → lookup keys t item.key ≡ none
      → ((insert keys place t (some item)).0 ≡ some item)
        × IsTable keys place (insert keys place t (some item)).1
        × ((k : K)
            → lookup keys (insert keys place t (some item)).1 k
              ≡ (if keys.same item.key k then some item else lookup keys t k))
  unfolding insert
  insert_absent fresh absent =
      let (items, e) = insert_order_absent t.order absent in
      (
        rw (e, insert) refl,
        insert-IsTable keys place t item h absent items fresh e,
        lookup-insert keys place t item h absent items e,
      )

  -- What an insertion answers and leaves, by what was found under the key.
  abbrev pub unless_found : Option (Item K D) → HashList K D → Option (Item K D) × HashList K D
  unless_found none new = (some item, new)
  unless_found (some found) new = (none, t)

  -- What is under the key of the new item then.
  abbrev pub found_or_new : Option (Item K D) → Option (Item K D)
  found_or_new none = some item
  found_or_new (some found) = some found

  -- An insertion at a key that does not stand before the head of an ascending list. If there is no
  -- item of the key, the new item is handed out and will be found under its key; if there is one,
  -- the insertion fails and nothing changes. All other keys give what they gave, and the list still
  -- ascends. Assumed: the list and the chains hold the same items, one of each key, and the address
  -- is new.
  pub insert_lem :
      IsAscending keys t.order
      → IsNotFirst keys t.order item.key
      → with_id item.id t.order ≡ []
      → (insert keys place t (some item)
          ≡ unless_found (find keys place t item.key) (insert keys place t (some item)).1)
        × ((k : K)
            → find keys place (insert keys place t (some item)).1 k ≡ (
                if keys.same item.key k
                then found_or_new (find keys place t item.key)
                else find keys place t k))
        × IsAscending keys (insert keys place t (some item)).1.order
  unfolding insert
  insert_lem a n fresh =
      let at_key = find-lookup keys place t item.key h in
      elim (Option-cases (find keys place t item.key)) [
        | inl e ↦
            let absent = sym at_key ∙ e in
            let (out, table, look) = insert_absent fresh absent in
            let (items, o) = insert_order_absent t.order absent in
            (
              rw e (ap (λ r. (r, (insert keys place t (some item)).1)) out),
              λ k.
                  find-lookup keys place (insert keys place t (some item)).1 k table
                  ∙ look k
                  ∙ rw e (
                      ap (λ r. if keys.same item.key k then some item else r)
                        (sym (find-lookup keys place t k h))),
              rw (o, insert) (insert_order-IsAscending t.order items a n o),
            )
        | inr (found, e) ↦
            let nothing : insert keys place t (some item) ≡ (none, t) =
              rw (insert_order_twice t.order found a n (sym at_key ∙ e), insert) refl in
            (rw (e, nothing) refl, λ k. rw (nothing, e) (same_key_found found e k), rw nothing a)
      ]
    where
      same_key_found :
          (found : Item K D)
          → find keys place t item.key ≡ some found
          → (k : K)
          → find keys place t k ≡ (if keys.same item.key k then some found else find keys place t k)
      same_key_found found e k = elim (Bool-cases (keys.same item.key k)) [
        | inl s ↦
            let same : k ≡ item.key = sym ((keys.same_iff item.key k).0 s) in
            rw s (ap (find keys place t) same ∙ e)
        | inr s ↦ rw s refl
      ]
