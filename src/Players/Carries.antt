-- ===== src/Players/Carries.antt =====
-- The inner loop of the orders of winners and losers in sgame/splayer.c, as a carry along the list.
use mathlib.Core.List.{append_assoc}
use xscorch.Prelude.{
  ℕ, suc, ◌+◌, List, [], ◌∷◌, ◌++◌, Bool, some, ◌≡◌, refl, sym, ◌∙◌, ap, arith, if◌then◌else◌,
  Bool-cases, inl, inr, get_elem?, set, length, length-append,
}
use xscorch.Players.Orders.{compare_at, compare_with}
use xscorch.Players.Shuffles.{occurs, get_elem?-append, set-append}

module _ {ℓ} {A : Type ℓ} (better : A → A → Bool) where
  -- The inner loop carries the better of two players back into the list.
  abbrev pub carry : List A → A → List A
  carry [] x = x ∷ []
  carry (q ∷ players) x =
      let taken = carry players q in
      let passed = carry players x in if better x q then x ∷ taken else q ∷ passed

  -- A round of the inner loop, on a list that is written out around the two places.
  compare_at_lem :
      (front mid rest : List A) (q x : A) (i j : ℕ)
      → i ≡ length front + suc (length mid)
      → j ≡ length front
      → compare_at better i j (front ++ (q ∷ (mid ++ (x ∷ rest)))) ≡ (
          if better x q
          then front ++ (x ∷ (mid ++ (q ∷ rest)))
          else front ++ (q ∷ (mid ++ (x ∷ rest))))
  unfolding compare_at
  compare_at_lem front mid rest q x i j e f =
      let both = front ++ (q ∷ mid) in
      let e' : i ≡ length both = omega (arith, length-append front (q ∷ mid), e) in
      let apart : both ++ (x ∷ rest) ≡ front ++ (q ∷ (mid ++ (x ∷ rest))) =
        append_assoc front (q ∷ mid) (x ∷ rest) in
      let apart' : both ++ (q ∷ rest) ≡ front ++ (q ∷ (mid ++ (q ∷ rest))) =
        append_assoc front (q ∷ mid) (q ∷ rest) in
      let at_j = get_elem?-append front (mid ++ (x ∷ rest)) q j f in
      let at_i : get_elem? (front ++ (q ∷ (mid ++ (x ∷ rest)))) i ≡ some x =
        rw (sym apart) (get_elem?-append both rest x i e') in
      elim (Bool-cases (better x q)) [
        | inl b ↦
            rw (at_i, compare_at, at_j, b)
              (ap (λ r. set (set r i q) j x) (sym apart)
                ∙ ap (λ r. set r j x) (set-append both rest x q i e' ∙ apart')
                ∙ set-append front (mid ++ (q ∷ rest)) q x j f)
        | inr b ↦ rw (at_i, compare_at, at_j, b) refl
      ]

  pub compare_with_lem :
      (players front rest : List A) (x : A) (i j : ℕ)
      → i ≡ length front + length players
      → j ≡ length front
      → compare_with better (length players) i j (front ++ (players ++ (x ∷ rest)))
        ≡ front ++ (carry players x ++ rest)
  unfolding compare_with
  compare_with_lem [] front rest x i j e f = refl
  compare_with_lem (q ∷ players) front rest x i j e f = elim (Bool-cases (better x q)) [
    | inl b ↦
        let longer = front ++ (x ∷ []) in
        let step = compare_at_lem front players rest q x i j e f in
        let further =
          compare_with_lem players longer rest q i (suc j)
            (omega (arith, length-append front (x ∷ []), e))
            (omega (arith, length-append front (x ∷ []), f)) in
        ap (compare_with better (length players) i (suc j)) (step ∙ rw b refl)
        ∙ ap (compare_with better (length players) i (suc j))
            (sym (append_assoc front (x ∷ []) (players ++ (q ∷ rest))))
        ∙ further
        ∙ append_assoc front (x ∷ []) (carry players q ++ rest)
        ∙ rw (carry, b) refl
    | inr b ↦
        let longer = front ++ (q ∷ []) in
        let step = compare_at_lem front players rest q x i j e f in
        let further =
          compare_with_lem players longer rest x i (suc j)
            (omega (arith, length-append front (q ∷ []), e))
            (omega (arith, length-append front (q ∷ []), f)) in
        ap (compare_with better (length players) i (suc j)) (step ∙ rw b refl)
        ∙ ap (compare_with better (length players) i (suc j))
            (sym (append_assoc front (q ∷ []) (players ++ (x ∷ rest))))
        ∙ further
        ∙ append_assoc front (q ∷ []) (carry players x ++ rest)
        ∙ rw (carry, b) refl
  ]

  pub length-carry : (players : List A) (x : A) → length (carry players x) ≡ suc (length players)
  length-carry [] x = refl
  length-carry (q ∷ players) x = elim (Bool-cases (better x q)) [
    | inl b ↦ rw (carry, b) (ap suc (length-carry players q))
    | inr b ↦ rw (carry, b) (ap suc (length-carry players x))
  ]

  pub occurs-carry :
      (test : A → Bool) (players : List A) (x : A)
      → occurs test (carry players x) ≡ occurs test (x ∷ players)
  occurs-carry test [] x = refl
  occurs-carry test (q ∷ players) x =
      let taken = occurs-carry test players q in
      let passed = occurs-carry test players x in
      elim (Bool-cases (better x q)) [
        | inl b ↦ rw (carry, b) (ground arith)
        | inr b ↦ rw (carry, b) (ground arith)
      ]
