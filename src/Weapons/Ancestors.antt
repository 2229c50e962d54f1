-- ===== src/Weapons/Ancestors.antt =====
-- The cache of ancestors of `_sc_phoenix_safe_verify` (sgame/sphoenix.c): what a further entry makes
-- of it.
use xscorch.Prelude.{
  ◌≤◌, ◌<◌, List, [], ◌∷◌, ◌++◌, true, false, not, ◌≡◌, ◌⊎◌, inl, inr, refl, sym, ◌∙◌, ap, arith,
  Bool-cases, length, filter,
}
use xscorch.Prelude.Int.{ℤ, eqb_ℤ, eq_of_parts}
use xscorch.Weapons.Verify.{is_among}

pub eqb_refl : (a : ℤ) → eqb_ℤ a a ≡ true
eqb_refl a = ground arith

pub eqb→eq : (a b : ℤ) → eqb_ℤ a b ≡ true → a ≡ b
eqb→eq a b h = eq_of_parts a b (ground arith)

pub is_among-append :
    (id : ℤ) (cache : List ℤ) (last : ℤ)
    → is_among id (cache ++ (last ∷ [])) ≡ true
    → (is_among id cache ≡ true) ⊎ (id ≡ last)
unfolding is_among
is_among-append id [] last h = elim (Bool-cases (eqb_ℤ id last)) [
  | inl e ↦ inr (eqb→eq id last e)
  | inr e ↦ inl (rw e at h)
]
is_among-append id (other ∷ cache) last h = elim (Bool-cases (eqb_ℤ id other)) [
  | inl e ↦ inl (rw e refl)
  | inr e ↦ rw e (is_among-append id cache last (rw e at h))
]

pub is_among-append_self :
    (id : ℤ) (cache : List ℤ) (last : ℤ)
    → is_among id cache ≡ true
    → is_among id (cache ++ (last ∷ [])) ≡ true
unfolding is_among
is_among-append_self id [] last h = cc
is_among-append_self id (other ∷ cache) last h = elim (Bool-cases (eqb_ℤ id other)) [
  | inl e ↦ rw e refl
  | inr e ↦ rw e (is_among-append_self id cache last (rw e at h))
]

pub is_among-append_last : (cache : List ℤ) (last : ℤ) → is_among last (cache ++ (last ∷ [])) ≡ true
unfolding is_among
is_among-append_last [] last = rw (eqb_refl last) refl
is_among-append_last (other ∷ cache) last = elim (Bool-cases (eqb_ℤ last other)) [
  | inl e ↦ rw e refl
  | inr e ↦ rw e (is_among-append_last cache last)
]

pub unseen-shrinks :
    (cache : List ℤ) (last : ℤ) (keys : List ℤ)
    → length (filter (λ id. not (is_among id (cache ++ (last ∷ [])))) keys)
      ≤ length (filter (λ id. not (is_among id cache)) keys)
unseen-shrinks cache last [] = omega arith
unseen-shrinks cache last (key ∷ keys) = elim (Bool-cases (is_among key cache)) [
  | inl e ↦ rw (is_among-append_self key cache last e, e) (unseen-shrinks cache last keys)
  | inr e ↦ elim (Bool-cases (is_among key (cache ++ (last ∷ [])))) [
    | inl f ↦ rw (e, f) (omega (arith, unseen-shrinks cache last keys))
    | inr f ↦ rw (e, f) (omega (arith, unseen-shrinks cache last keys))
  ]
]

pub unseen-falls :
    (cache : List ℤ) (last : ℤ) (keys : List ℤ)
    → is_among last cache ≡ false
    → is_among last keys ≡ true
    → length (filter (λ id. not (is_among id (cache ++ (last ∷ [])))) keys)
      < length (filter (λ id. not (is_among id cache)) keys)
unfolding is_among
unseen-falls cache last [] new h = cc
unseen-falls cache last (key ∷ keys) new h = elim (Bool-cases (eqb_ℤ last key)) [
  | inl e ↦
      let same = eqb→eq last key e in
      let gone : is_among key (cache ++ (last ∷ [])) ≡ true =
        ap (λ k. is_among k (cache ++ (last ∷ []))) (sym same) ∙ is_among-append_last cache last in
      let there : is_among key cache ≡ false = ap (λ k. is_among k cache) (sym same) ∙ new in
      rw (gone, there) (omega (arith, unseen-shrinks cache last keys))
  | inr e ↦
      let less = unseen-falls cache last keys new (rw e at h) in
      elim (Bool-cases (is_among key cache)) [
        | inl f ↦ rw (is_among-append_self key cache last f, f) less
        | inr f ↦ elim (Bool-cases (is_among key (cache ++ (last ∷ [])))) [
          | inl g ↦ rw (f, g) (omega arith)
          | inr g ↦ rw (f, g) (omega arith)
        ]
      ]
]
