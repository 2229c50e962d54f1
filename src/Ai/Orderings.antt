-- ===== src/Ai/Orderings.antt =====
-- The orderings of goods in sai/saibuy.c: what holds of every good holds after the sort.
use mathlib.Core.List.{reverse, reverse-cons}
use xscorch.Prelude.{
  ℕ, zero, suc, List, [], ◌∷◌, ◌++◌, Bool, some, ◌≡◌, Bool-cases, Option-cases, inl, inr, get_elem?,
  set, map,
}
use mathlib.Core.Option.{some-injective}
use mathlib.Core.Path.{subst}
use xscorch.Prelude.Int.{ℤ}
use xscorch.Ai.{compare_scores, sort_inner, sort_outer}

module _ {ℓ κ} {A : Type ℓ} (P : A → Type κ) where
  abbrev pub All : List A → Type κ
  All [] = Unit
  All (x ∷ xs) = P x × All xs

  pub All-append : (xs ys : List A) → All xs → All ys → All (xs ++ ys)
  All-append [] ys h k = k
  All-append (x ∷ xs) ys h k = (h.0, All-append xs ys h.1 k)

  pub All-reverse : (xs : List A) → All xs → All (reverse xs)
  All-reverse [] h = tt
  All-reverse (x ∷ xs) h =
      rw (reverse-cons x xs) (All-append (reverse xs) (x ∷ []) (All-reverse xs h.1) (h.0, tt))

  All-get : (xs : List A) (i : ℕ) (x : A) → All xs → get_elem? xs i ≡ some x → P x
  All-get [] i x h e = cc
  All-get (y ∷ xs) zero x h e = subst P (some-injective _ _ e) h.0
  All-get (y ∷ xs) (suc i) x h e = All-get xs i x h.1 e

  All-set : (xs : List A) (i : ℕ) (x : A) → All xs → P x → All (set xs i x)
  All-set [] i x h p = tt
  All-set (y ∷ xs) zero x h p = (p, h.1)
  All-set (y ∷ xs) (suc i) x h p = (h.0, All-set xs i x h.1 p)

module _ {Score : Type 0} (above : Score → Score → Bool) (exchanged : Score → Score → Score × Score)
    (P : ℤ → Type 0) where
  abbrev pub AllIdents : List (ℤ × Score) → Type 0
  AllIdents xs = All (λ x. P x.0) xs

  compare_scores-AllIdents :
      (outer inner : ℕ) (xs : List (ℤ × Score))
      → AllIdents xs
      → AllIdents (compare_scores above exchanged outer inner xs)
  unfolding compare_scores
  compare_scores-AllIdents outer inner xs h = elim (Option-cases (get_elem? xs inner)) [
    | inl e ↦ rw (e, compare_scores) h
    | inr (x, e) ↦ elim (Option-cases (get_elem? xs outer)) [
      | inl f ↦ rw (e, compare_scores, f) h
      | inr (y, f) ↦ elim (Bool-cases (above x.1 y.1)) [
        | inr b ↦ rw (e, compare_scores, f, b) h
        | inl b ↦
            rw (e, compare_scores, f, b)
              (All-set (λ z. P z.0) (set xs inner (y.0, (exchanged x.1 y.1).0)) outer
                (x.0, (exchanged x.1 y.1).1)
                (All-set (λ z. P z.0) xs inner (y.0, (exchanged x.1 y.1).0) h
                  (All-get (λ z. P z.0) xs outer y h f))
                (All-get (λ z. P z.0) xs inner x h e))
      ]
    ]
  ]

  sort_inner-AllIdents :
      (rounds outer inner : ℕ) (xs : List (ℤ × Score))
      → AllIdents xs
      → AllIdents (sort_inner above exchanged rounds outer inner xs)
  unfolding sort_inner
  sort_inner-AllIdents zero outer inner xs h = h
  sort_inner-AllIdents (suc rounds) outer inner xs h =
      sort_inner-AllIdents rounds outer (suc inner) (compare_scores above exchanged outer inner xs)
        (compare_scores-AllIdents outer inner xs h)

  pub sort_outer-AllIdents :
      (rounds outer : ℕ) (xs : List (ℤ × Score))
      → AllIdents xs
      → AllIdents (sort_outer above exchanged rounds outer xs)
  unfolding sort_outer
  sort_outer-AllIdents zero outer xs h = h
  sort_outer-AllIdents (suc rounds) outer xs h =
      sort_outer-AllIdents rounds (suc outer) (sort_inner above exchanged outer outer 0 xs)
        (sort_inner-AllIdents outer outer 0 xs h)

  pub AllIdents-map : (xs : List (ℤ × Score)) → AllIdents xs → All P (map (λ x. x.0) xs)
  AllIdents-map [] h = tt
  AllIdents-map (x ∷ xs) h = (h.0, AllIdents-map xs h.1)
