-- ===== src/HashList/Ascending.antt =====
-- Lists of sutil/shashlist.c whose keys ascend, and the walk of an insertion along them.
use mathlib.Core.Option.{some-injective}
use mathlib.Core.Path.{subst}
use xscorch.Prelude.{
  List, [], ◌∷◌, true, false, none, some, ◌≡◌, refl, sym, ◌∙◌, Bool-cases, Option-cases, inl, inr,
  head?,
}
use xscorch.HashList.{Keys, Item, insert_from}
use xscorch.HashList.Laws.{with_key}

-- One key stands before another.
abbrev pub IsBefore {ℓ} : {K : Type ℓ} → Keys K → K → K → Type 0
IsBefore keys a b = (keys.le a b ≡ true) × (keys.same a b ≡ false)

module _ {ℓ} {K : Type ℓ} (keys : Keys K) where
  pub le_refl : (a : K) → keys.le a a ≡ true
  le_refl a = elim (Bool-cases (keys.le a a)) [ inl e ↦ e | inr e ↦ keys.le_total a a e ]

  before_not_after : (a b : K) → IsBefore keys a b → keys.le b a ≡ false
  before_not_after a b (l, s) = elim (Bool-cases (keys.le b a)) [
    | inl m ↦ let t : keys.same a b ≡ true = (keys.same_iff a b).1 (keys.le_same a b l m) in cc
    | inr m ↦ m
  ]

  after_of_not_le : (a b : K) → keys.le a b ≡ false → IsBefore keys b a
  after_of_not_le a b n = (
    keys.le_total a b n,
    elim (Bool-cases (keys.same b a)) [
      | inl t ↦
          let e : b ≡ a = (keys.same_iff b a).0 t in
          let r : keys.le a b ≡ true = rw e (le_refl a) in cc
      | inr t ↦ t
    ],
  )

  not_same : (a b : K) → keys.le a b ≡ false → keys.same a b ≡ false
  not_same a b n = elim (Bool-cases (keys.same a b)) [
    | inl t ↦
        let e : a ≡ b = (keys.same_iff a b).0 t in
        let r : keys.le a b ≡ true = rw e (le_refl b) in cc
    | inr t ↦ t
  ]

  -- What stands before another key is not the same as a key not before that.
  before_apart : (a b c : K) → IsBefore keys a b → keys.le b c ≡ true → keys.same a c ≡ false
  before_apart a b c h m = elim (Bool-cases (keys.same a c)) [
    | inl t ↦
        let e : a ≡ c = (keys.same_iff a c).0 t in
        let back : keys.le b a ≡ true = rw e m in let no = before_not_after a b h in cc
    | inr t ↦ t
  ]

module _ {ℓ κ} {K : Type ℓ} {D : Type κ} (keys : Keys K) where
  abbrev pub IsAscending : List (Item K D) → Type 0
  IsAscending [] = Unit {0}
  IsAscending (x ∷ []) = Unit {0}
  IsAscending (x ∷ y ∷ items) = IsBefore keys x.key y.key × IsAscending (y ∷ items)

  -- A key that does not stand before the head.
  abbrev pub IsNotFirst : List (Item K D) → K → Type 0
  IsNotFirst [] key = Unit {0}
  IsNotFirst (x ∷ items) key = keys.le x.key key ≡ true

  -- A key that stands before the first of an ascending list is not there.
  pub not_there :
      (x : Item K D) (items : List (Item K D)) (key : K)
      → IsAscending (x ∷ items)
      → keys.le x.key key ≡ false
      → head? (with_key keys key (x ∷ items)) ≡ none
  not_there x [] key a n = rw (not_same keys x.key key n) refl
  not_there x (y ∷ items) key a n =
      let next : keys.le y.key key ≡ false = elim (Bool-cases (keys.le y.key key)) [
        | inl m ↦ let r = keys.le_trans x.key y.key key a.0.0 m in cc
        | inr m ↦ m
      ] in
      rw (not_same keys x.key key n) (not_there y items key a.1 next)

  pub insert_from_twice :
      (temp : Item K D) (items : List (Item K D)) (item found : Item K D)
      → IsAscending (temp ∷ items)
      → keys.le temp.key item.key ≡ true
      → head? (with_key keys item.key (temp ∷ items)) ≡ some found
      → insert_from keys temp items item ≡ none
  unfolding insert_from
  insert_from_twice temp [] item found a l e = elim (Bool-cases (keys.same temp.key item.key)) [
    | inl s ↦ rw s refl
    | inr s ↦ let n = rw s at e in cc
  ]
  insert_from_twice temp (next ∷ rest) item found a l e =
      elim (Bool-cases (keys.le next.key item.key)) [
        | inl m ↦
            let apart : keys.same temp.key item.key ≡ false =
              before_apart keys temp.key next.key item.key a.0 m in
            let farther = insert_from_twice next rest item found a.1 m (rw apart at e) in
            rw (m, farther, insert_from) refl
        | inr m ↦ elim (Bool-cases (keys.same temp.key item.key)) [
          | inl s ↦ rw (m, s) refl
          | inr s ↦
              let gone = not_there next rest item.key a.1 m in
              let e' : head? (with_key keys item.key (next ∷ rest)) ≡ some found = rw s at e in
              let clash = sym e' ∙ gone in cc
        ]
      ]

  pub insert_from_absent :
      (temp : Item K D) (items : List (Item K D)) (item : Item K D)
      → head? (with_key keys item.key (temp ∷ items)) ≡ none
      → (items' : List (Item K D)) × (insert_from keys temp items item ≡ some items')
  unfolding insert_from
  insert_from_absent temp [] item e = elim (Bool-cases (keys.same temp.key item.key)) [
    | inl s ↦ let n = rw s at e in cc
    | inr s ↦ (temp ∷ item ∷ [], rw s refl)
  ]
  insert_from_absent temp (next ∷ rest) item e = elim (Bool-cases (keys.same temp.key item.key)) [
    | inl s ↦ let n = rw s at e in cc
    | inr s ↦ elim (Bool-cases (keys.le next.key item.key)) [
      | inl m ↦
          let (farther, f) = insert_from_absent next rest item (rw s at e) in
          (temp ∷ farther, rw (m, f, insert_from) refl)
      | inr m ↦ (temp ∷ item ∷ next ∷ rest, rw (m, s) refl)
    ]
  ]

  cons-IsAscending :
      (x y : Item K D) (items : List (Item K D))
      → head? items ≡ some y
      → IsBefore keys x.key y.key
      → IsAscending items
      → IsAscending (x ∷ items)
  cons-IsAscending x y [] h b a = cc
  cons-IsAscending x y (z ∷ items) h b a =
      let e : y ≡ z = sym (some-injective _ _ h) in (subst (λ w. IsBefore keys x.key w.key) e b, a)

  -- The walk keeps its first item, and the order of the keys.
  pub insert_from-IsAscending :
      (temp : Item K D) (items : List (Item K D)) (item : Item K D) (items' : List (Item K D))
      → IsAscending (temp ∷ items)
      → keys.le temp.key item.key ≡ true
      → insert_from keys temp items item ≡ some items'
      → (head? items' ≡ some temp) × IsAscending items'
  unfolding insert_from
  insert_from-IsAscending temp [] item items' a l e =
      elim (Bool-cases (keys.same temp.key item.key)) [
        | inl s ↦ let n = rw s at e in cc
        | inr s ↦
            subst (λ r. (head? r ≡ some temp) × IsAscending r) (some-injective _ _ (rw s at e))
              (refl, ((l, s), tt))
      ]
  insert_from-IsAscending temp (next ∷ rest) item items' a l e =
      elim (Bool-cases (keys.le next.key item.key)) [
        | inl m ↦ elim (Option-cases (insert_from keys next rest item)) [
          | inl n ↦ let r = rw (m, n, insert_from) at e in cc
          | inr (farther, n) ↦
              let (h, f) = insert_from-IsAscending next rest item farther a.1 m n in
              subst (λ r. (head? r ≡ some temp) × IsAscending r)
                (some-injective _ _ (rw (m, n, insert_from) at e))
                (refl, cons-IsAscending temp next farther h a.0 f)
        ]
        | inr m ↦ elim (Bool-cases (keys.same temp.key item.key)) [
          | inl s ↦ let r = rw (m, s) at e in cc
          | inr s ↦
              subst (λ r. (head? r ≡ some temp) × IsAscending r)
                (some-injective _ _ (rw (m, s) at e))
                (refl, ((l, s), (after_of_not_le keys next.key item.key m, a.1)))
        ]
      ]
