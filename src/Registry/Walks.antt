-- ===== src/Registry/Walks.antt =====
-- What the walks of sgame/sregistry.c find, against a single pass over the list.
use mathlib.Core.List.{reverse, reverse-cons, append_assoc}
use xscorch.Prelude.{
  ℕ, zero, suc, ◌≤◌, ◌<◌, List, [], ◌∷◌, ◌++◌, Bool, true, false, Option, none, some, ◌≡◌, refl,
  sym, ◌∙◌, ap, arith, ◌==◌, Bool-cases, inl, inr, length, filter-append, length-append,
}
use xscorch.HashList.{
  Item, HashList, has_class, first_of_class, after, onward, find_next, find_prev,
}
use xscorch.HashList.Laws.{with_id}
use xscorch.Registry.{Direction, registry_forward, registry_reverse, find_on}
use xscorch.Registry.Find.{run_test, internal_iter}

-- The list, in the direction of a walk.
abbrev pub walk {ℓ κ} : {K : Type ℓ} {D : Type κ} → Direction → HashList K D → List (Item K D)
walk registry_forward list = list.order
walk registry_reverse list = reverse list.order

-- A pass over the items: the first of the class that passes the test, and what is then left of the
-- test's argument.
unfoldable pub pass_over {ℓ κ ν} :
    {K : Type ℓ} {D : Type κ} {S : Type ν}
    → ℕ
    → Option (D → S → Bool × S)
    → S
    → List (Item K D)
    → Option (Item K D) × S
pass_over class function arg [] = (none, arg)
pass_over class function arg (item ∷ items) =
    let (passes, arg') = run_test function item.value arg in
    elim (has_class class item) [
      | false ↦ pass_over class function arg items
      | true ↦ elim passes [
        | true ↦ (some item, arg')
        | false ↦ pass_over class function arg' items
      ]
    ]

module _ {ℓ κ} {K : Type ℓ} {D : Type κ} where
  with_id-reverse :
      (n : ℕ) (items : List (Item K D))
      → length (with_id n (reverse items)) ≡ length (with_id n items)
  with_id-reverse n [] = refl
  with_id-reverse n (x ∷ items) =
      let parts = filter-append (λ item. item.id == n) (reverse items) (x ∷ []) in
      let sum = length-append (with_id n (reverse items)) (with_id n (x ∷ [])) in
      let rest = with_id-reverse n items in
      rw (reverse-cons x items, parts, sum, rest) (ground arith)

  -- What follows an item that stands in a list of different addresses.
  pub after-split :
      (front items : List (Item K D)) (x : Item K D)
      → length (with_id x.id (front ++ (x ∷ items))) ≤ 1
      → after x.id (front ++ (x ∷ items)) ≡ items
  unfolding after
  after-split [] items x h = ground arith
  after-split (y ∷ front) items x h = elim (Bool-cases (y.id == x.id)) [
    | inl e ↦
        let parts = filter-append (λ item. item.id == x.id) front (x ∷ items) in
        let sum = length-append (with_id x.id front) (with_id x.id (x ∷ items)) in
        let two = rw (e, parts, sum) at h in ground arith
    | inr e ↦ rw e (after-split front items x (rw e at h))
  ]

  -- What follows is the end of the list.
  after-end :
      (id : ℕ) (items : List (Item K D))
      → (front : List (Item K D)) × (items ≡ front ++ after id items)
  unfolding after
  after-end id [] = ([], refl)
  after-end id (x ∷ items) = elim (Bool-cases (x.id == id)) [
    | inl e ↦ (x ∷ [], rw e refl)
    | inr e ↦ let (front, f) = after-end id items in (x ∷ front, rw e (ap (λ r. x ∷ r) f))
  ]

  onward-end :
      (item : Option (Item K D)) (items : List (Item K D))
      → (front : List (Item K D)) × (items ≡ front ++ onward item items)
  onward-end none items = ([], refl)
  onward-end (some item) items = after-end item.id items

  pub walk_lem :
      (direction : Direction) (list : HashList K D) (item : Option (Item K D)) (class : ℕ)
      → find_on list item class direction ≡ first_of_class class (onward item (walk direction list))
  unfolding find_on find_next find_prev
  walk_lem registry_forward list item class = refl
  walk_lem registry_reverse list item class = refl

  pub walk_addressed :
      (direction : Direction) (list : HashList K D)
      → ((id : ℕ) → length (with_id id list.order) ≤ 1)
      → (id : ℕ) → length (with_id id (walk direction list)) ≤ 1
  walk_addressed registry_forward list h id = h id
  walk_addressed registry_reverse list h id = rw (with_id-reverse id list.order) (h id)

module _ {ℓ κ ν} {K : Type ℓ} {D : Type κ} {S : Type ν} (list : HashList K D) (class : ℕ)
    (direction : Direction) (function : Option (D → S → Bool × S))
    (h : (id : ℕ) → length (with_id id list.order) ≤ 1) where
  iter_from :
      (items front : List (Item K D)) (item : Option (Item K D)) (arg : S) (fuel : ℕ)
      → walk direction list ≡ front ++ items
      → first_of_class class (onward item (walk direction list)) ≡ first_of_class class items
      → length items < fuel
      → internal_iter fuel list item class direction function arg
        ≡ some (pass_over class function arg items)
  unfolding internal_iter pass_over first_of_class
  iter_from items front item arg zero w f l = elim l [ ]
  iter_from [] front item arg (suc fuel) w f l =
      let step = walk_lem direction list item class ∙ f in rw (step, internal_iter) refl
  iter_from (x ∷ items) front item arg (suc fuel) w f l = elim (Bool-cases (has_class class x)) [
    | inl c ↦
        let step : find_on list item class direction ≡ some x =
          walk_lem direction list item class ∙ f ∙ (rw c refl) in
        let next : after x.id (walk direction list) ≡ items =
          rw w (after-split front items x (rw w at (walk_addressed direction list h x.id))) in
        let front' : walk direction list ≡ (front ++ (x ∷ [])) ++ items =
          w ∙ sym (append_assoc front (x ∷ []) items) in
        elim (Bool-cases (run_test function x.value arg).0) [
          | inl p ↦ rw (step, internal_iter, c, pass_over, p) refl
          | inr p ↦
              rw (step, internal_iter, c, pass_over, p)
                (iter_from items (front ++ (x ∷ [])) (some x) (run_test function x.value arg).1 fuel
                  front' (ap (first_of_class class) next) (omega arith))
        ]
    | inr c ↦
        let front' : walk direction list ≡ (front ++ (x ∷ [])) ++ items =
          w ∙ sym (append_assoc front (x ∷ []) items) in
        rw (c, pass_over)
          (iter_from items (front ++ (x ∷ [])) item arg (suc fuel) front' (f ∙ rw c refl)
            (omega arith))
  ]

  -- A walk over the items of a class, in either direction, from the end of the list or from any
  -- item, is one pass over the items that follow: it finds the first of them that is of the class
  -- and passes the test, the test having been run on those before it, in order, and on no others.
  -- The loop ends: fuel beyond the length of the list is enough. Assumed: no two items share an
  -- address.
  pub internal_iter_lem :
      (item : Option (Item K D)) (arg : S) (fuel : ℕ)
      → length (walk direction list) < fuel
      → internal_iter fuel list item class direction function arg
        ≡ some (pass_over class function arg (onward item (walk direction list)))
  internal_iter_lem item arg fuel l =
      let (front, f) = onward-end item (walk direction list) in
      let sum = length-append front (onward item (walk direction list)) in
      let whole = ap length f in
      iter_from (onward item (walk direction list)) front item arg fuel f refl (omega arith)
