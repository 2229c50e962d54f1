-- ===== src/Goods/Listing.antt =====
-- Single passes over the goods of sgame/saccessory.c and sgame/sweapon.c, and lists around one of
-- their items.
use mathlib.Core.List.{reverse, reverse-cons, reverse-append, reverse-reverse, append_assoc}
use mathlib.Core.Option.{some-injective}
use xscorch.Prelude.{
  ℕ, zero, suc, ◌+◌, ◌≤◌, List, [], ◌∷◌, ◌++◌, Bool, true, ◌&&◌, none, some, ◌≡◌, refl, sym, ◌∙◌,
  ap, arith, Bool-cases, inl, inr, length, filter, head?, filter-append, length-append, get_elem?,
}
use xscorch.Prelude.Int.{ℤ}
use xscorch.HashList.{Item, has_class}
use xscorch.Registry.{Direction}
use xscorch.Registry.Walks.{walk, pass_over}
use xscorch.Goods.{Goods, GoodsConfig, viewable, test_count, test_viewable}

pub head?-get_elem? {ℓ} : {A : Type ℓ} (xs : List A) → head? xs ≡ get_elem? xs 0
head?-get_elem? [] = refl
head?-get_elem? (x ∷ xs) = refl

pub get_elem?-beyond {ℓ} :
    {A : Type ℓ} (xs : List A) (i : ℕ) → length xs ≤ i → get_elem? xs i ≡ none
get_elem?-beyond [] i l = refl
get_elem?-beyond (x ∷ xs) zero l = elim l [ ]
get_elem?-beyond (x ∷ xs) (suc i) l = get_elem?-beyond xs i (omega arith)

pub get_elem?-before {ℓ} :
    {A : Type ℓ} (xs : List A) (i : ℕ) (x : A)
    → get_elem? xs (suc i) ≡ some x
    → (y : A) × (get_elem? xs i ≡ some y)
get_elem?-before [] i x e = cc
get_elem?-before (y ∷ xs) zero x e = (y, refl)
get_elem?-before (y ∷ xs) (suc i) x e = get_elem?-before xs i x e

-- A list around one of its items.
pub get_elem?-split {ℓ} :
    {A : Type ℓ} (test : A → Bool) (xs : List A) (i : ℕ) (x : A)
    → get_elem? (filter test xs) i ≡ some x
    → (front : List A) × (rest : List A) × (xs ≡ front ++ (x ∷ rest))
      × (head? (filter test rest) ≡ get_elem? (filter test xs) (suc i))
get_elem?-split test [] i x e = cc
get_elem?-split test (y ∷ xs) zero x e = elim (Bool-cases (test y)) [
  | inl t ↦
      let same : y ≡ x = some-injective _ _ (rw t at e) in
      ([], xs, ap (λ z. z ∷ xs) same, rw t (head?-get_elem? (filter test xs)))
  | inr t ↦
      let (front, rest, s, h) = get_elem?-split test xs zero x (rw t at e) in
      (y ∷ front, rest, ap (λ r. y ∷ r) s, rw t h)
]
get_elem?-split test (y ∷ xs) (suc i) x e = elim (Bool-cases (test y)) [
  | inl t ↦
      let (front, rest, s, h) = get_elem?-split test xs i x (rw t at e) in
      (y ∷ front, rest, ap (λ r. y ∷ r) s, rw t h)
  | inr t ↦
      let (front, rest, s, h) = get_elem?-split test xs (suc i) x (rw t at e) in
      (y ∷ front, rest, ap (λ r. y ∷ r) s, rw t h)
]

-- The one item that passes a test, in either direction.
pub only_one {ℓ} :
    {A : Type ℓ} (test : A → Bool) (front rest : List A) (x : A)
    → test x ≡ true
    → length (filter test (front ++ (x ∷ rest))) ≤ 1
    → head? (filter test (front ++ (x ∷ rest))) ≡ some x
only_one test [] rest x t l = rw t refl
only_one test (y ∷ front) rest x t l = elim (Bool-cases (test y)) [
  | inl u ↦
      let parts = filter-append test front (x ∷ rest) in
      let sum = length-append (filter test front) (filter test (x ∷ rest)) in
      let two = rw (u, parts, sum) at l in ground arith
  | inr u ↦ rw u (only_one test front rest x t (rw u at l))
]

pub reverse_split {ℓ} :
    {A : Type ℓ} (xs front rest : List A) (x : A)
    → reverse xs ≡ front ++ (x ∷ rest)
    → xs ≡ reverse rest ++ (x ∷ reverse front)
reverse_split xs front rest x e =
    sym (reverse-reverse xs)
    ∙ ap reverse e
    ∙ reverse-append front (x ∷ rest)
    ∙ ap (λ r. r ++ reverse front) (reverse-cons x rest)
    ∙ append_assoc (reverse rest) (x ∷ []) (reverse front)

pub length-filter-reverse {ℓ} :
    {A : Type ℓ} (test : A → Bool) (xs : List A)
    → length (filter test (reverse xs)) ≡ length (filter test xs)
length-filter-reverse test [] = refl
length-filter-reverse test (x ∷ xs) =
    let parts = filter-append test (reverse xs) (x ∷ []) in
    let sum = length-append (filter test (reverse xs)) (filter test (x ∷ [])) in
    let rest = length-filter-reverse test xs in
    rw (reverse-cons x xs, parts, sum, rest) (ground arith)

pub length-reverse {ℓ} : {A : Type ℓ} (xs : List A) → length (reverse xs) ≡ length xs
length-reverse [] = refl
length-reverse (x ∷ xs) =
    rw (reverse-cons x xs) (omega (arith, length-append (reverse xs) (x ∷ []), length-reverse xs))

module _ {κ} {D : Type κ} (goods : Goods D) (config : GoodsConfig D) (flags : ℕ) where
  -- The goods of the class that may be viewed, in the order of the walk.
  abbrev pub listed : Item ℤ D → Bool
  listed item = has_class config.registryclass item && viewable goods config item.value flags

  abbrev pub listing : Direction → List (Item ℤ D)
  listing direction = filter listed (walk direction config.registry.hashlist)

  pub pass_over-count :
      (items : List (Item ℤ D)) (counter : ℕ)
      → pass_over config.registryclass (some (test_count goods config flags)) counter items
        ≡ (none, counter + length (filter listed items))
  unfolding pass_over test_count
  pass_over-count [] counter = ground arith
  pass_over-count (x ∷ items) counter =
      let same = pass_over-count items counter in
      let more = pass_over-count items (suc counter) in
      elim (Bool-cases (has_class config.registryclass x)) [
        | inl c ↦ elim (Bool-cases (viewable goods config x.value flags)) [
          | inl v ↦ rw (c, pass_over, v) (more ∙ ap (λ n. (none, n)) (omega arith))
          | inr v ↦ rw (c, pass_over, v) same
        ]
        | inr c ↦ rw (c, pass_over) same
      ]

  pub pass_over-viewable :
      (items : List (Item ℤ D))
      → pass_over config.registryclass (some (test_viewable goods config flags)) tt items
        ≡ (head? (filter listed items), tt)
  unfolding pass_over test_viewable
  pass_over-viewable [] = refl
  pass_over-viewable (x ∷ items) = elim (Bool-cases (has_class config.registryclass x)) [
    | inl c ↦ elim (Bool-cases (viewable goods config x.value flags)) [
      | inl v ↦ rw (c, pass_over, v) refl
      | inr v ↦ rw (c, pass_over, v) (pass_over-viewable items)
    ]
    | inr c ↦ rw (c, pass_over) (pass_over-viewable items)
  ]
