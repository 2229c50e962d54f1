-- ===== src/Ai/Ranking.antt =====
-- The sorts of sai/saibuy.c rank the goods by their scores.
use xscorch.Prelude.{
  ℕ, zero, suc, ◌+◌, ◌<◌, List, [], ◌∷◌, Bool, true, false, ◌≡◌, refl, ◌∙◌, ap, arith, Bool-cases,
  Option-cases, inl, inr, get_elem?, set, length,
}
use xscorch.Prelude.Int.{ℤ, ◌+ℤ◌, ◌-ℤ◌, +ℤ-sub, int_laws}
use xscorch.Players.Orders.{compare_at, compare_with, sort_from}
use xscorch.Players.Shuffles.{occurs}
use xscorch.Players.Sorted.{IsOrdered, sort_from-IsOrdered}
use xscorch.Ai.{compare_scores, sort_inner, sort_outer}
use xscorch.Ai.Buy.{exchange_ints}

set_comm {ℓ} :
    {A : Type ℓ} (xs : List A) (i j : ℕ) (x y : A)
    → i < j
    → set (set xs i x) j y ≡ set (set xs j y) i x
set_comm [] i j x y l = refl
set_comm (z ∷ xs) zero zero x y l = elim l [ ]
set_comm (z ∷ xs) zero (suc j) x y l = refl
set_comm (z ∷ xs) (suc i) zero x y l = elim l [ ]
set_comm (z ∷ xs) (suc i) (suc j) x y l = ap (λ r. z ∷ r) (set_comm xs i j x y (omega (arith, l)))

-- The good that is ranked first is exchanged with one before it of a higher score.
abbrev pub ranks : {Score : Type 0} → (Score → Score → Bool) → ℤ × Score → ℤ × Score → Bool
ranks above p q = above q.1 p.1

module _ {Score : Type 0} (above : Score → Score → Bool) (exchanged : Score → Score → Score × Score)
    (exact : (x y : Score) → exchanged x y ≡ (y, x)) where
  compare_scores_lem :
      (outer inner : ℕ) (xs : List (ℤ × Score))
      → inner < outer
      → compare_scores above exchanged outer inner xs ≡ compare_at (ranks above) outer inner xs
  unfolding compare_scores compare_at
  compare_scores_lem outer inner xs l = elim (Option-cases (get_elem? xs inner)) [
    | inl e ↦ elim (Option-cases (get_elem? xs outer)) [
      | inl f ↦ rw (e, compare_scores, compare_at, f) refl
      | inr (p, f) ↦ rw (e, compare_scores, compare_at, f) (rw e refl)
    ]
    | inr (q, e) ↦ elim (Option-cases (get_elem? xs outer)) [
      | inl f ↦ rw (e, compare_scores, compare_at, f) refl
      | inr (p, f) ↦ elim (Bool-cases (above q.1 p.1)) [
        | inl b ↦
            rw (e, compare_scores, compare_at, f, exact q.1 p.1, b)
              (rw (e, b) (set_comm xs inner outer p q l))
        | inr b ↦ rw (e, compare_scores, compare_at, f, b) (rw (e, b) refl)
      ]
    ]
  ]

  sort_inner_lem :
      (rounds outer inner : ℕ) (xs : List (ℤ × Score))
      → rounds + inner ≡ outer
      → sort_inner above exchanged rounds outer inner xs
        ≡ compare_with (ranks above) rounds outer inner xs
  unfolding sort_inner compare_with
  sort_inner_lem zero outer inner xs e = refl
  sort_inner_lem (suc rounds) outer inner xs e =
      ap (sort_inner above exchanged rounds outer (suc inner))
        (compare_scores_lem outer inner xs (omega (arith, e)))
      ∙ sort_inner_lem rounds outer (suc inner) (compare_at (ranks above) outer inner xs)
          (omega (arith, e))

  sort_outer-sort_from :
      (rounds outer : ℕ) (xs : List (ℤ × Score))
      → sort_outer above exchanged rounds outer xs ≡ sort_from (ranks above) rounds outer xs
  unfolding sort_outer sort_from
  sort_outer-sort_from zero outer xs = refl
  sort_outer-sort_from (suc rounds) outer xs =
      ap (sort_outer above exchanged rounds (suc outer))
        (sort_inner_lem outer outer 0 xs (omega arith))
      ∙ sort_outer-sort_from rounds (suc outer) (compare_with (ranks above) outer outer 0 xs)

  -- Where the exchange of two scores is exact, and their comparison is an order with ties, the sort
  -- ranks all goods from the lowest score to the highest: no good stands before one of a lower
  -- score, and each stands there with its score as often as before.
  pub sort_outer_lem :
      ((x y z : Score) → above x y ≡ false → above y z ≡ false → above x z ≡ false)
      → ((x y : Score) → above x y ≡ true → above y x ≡ false)
      → (xs : List (ℤ × Score))
      → IsOrdered (ranks above) (sort_outer above exchanged (length xs) 0 xs)
        × ((test : ℤ × Score → Bool)
            → occurs test (sort_outer above exchanged (length xs) 0 xs) ≡ occurs test xs)
  sort_outer_lem later not_both xs =
      rw (sort_outer-sort_from (length xs) 0 xs) (
        sort_from-IsOrdered (ranks above) (λ p q r. later p.1 q.1 r.1) (λ p q. not_both q.1 p.1) xs)

-- The sums and differences of the source exchange two integers.
pub exchange_ints_lem : (x y : ℤ) → exchange_ints x y ≡ (y, x)
unfolding exchange_ints
exchange_ints_lem x y =
    let first : x +ℤ y -ℤ y ≡ x = +ℤ-sub x y in rw first (ap (λ z. (z, x)) (omega int_laws))
