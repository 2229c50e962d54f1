-- ===== src/Goods/Folds.antt =====
-- The loops of sgame/sshield.c and sgame/splayer.c over all goods, with `first` and `next`.
use xscorch.Prelude.{
  ℕ, zero, suc, ◌+◌, ◌<◌, List, [], ◌∷◌, Bool, Bool-cases, inl, inr, if◌then◌else◌, Option, none,
  some, ◌≡◌, refl, sym, ◌∙◌, ap, arith, get_elem?, length, head?,
}
use xscorch.Prelude.Int.{ℤ}
use xscorch.HashList.{Item}
use xscorch.HashList.Keyed.{int_keys}
use xscorch.HashList.Laws.{IsTable}
use xscorch.Registry.Walks.{walk}
use xscorch.Goods.{Goods, GoodsConfig, next, direction_of}
use xscorch.Goods.Listing.{listing, head?-get_elem?}
use xscorch.Goods.Cycle.{IsNumbered, next_lem}

-- The loop with the rounds left, from what `first` or `next` found; none stands for reading a good
-- that is NULL, and for fuel that runs out.
unfoldable pub fold_goods {κ ν} :
    {D : Type κ} {S : Type ν}
    → Goods D
    → GoodsConfig D
    → (ℤ → ℕ)
    → ℕ
    → ℕ
    → (S → D → S)
    → ℕ
    → Option (Option D)
    → S
    → Option S
unfolding next
fold_goods goods config place fuel flags step zero found state = some state
fold_goods goods config place fuel flags step (suc rounds) none state = none
fold_goods goods config place fuel flags step (suc rounds) (some none) state = none
fold_goods goods config place fuel flags step (suc rounds) (some (some info)) state =
    fold_goods goods config place fuel flags step rounds (next goods config place fuel info flags)
      (step state info)

-- The same over a list.
abbrev pub fold_over {κ ν} : {D : Type κ} {S : Type ν} → (S → D → S) → List (Item ℤ D) → S → S
fold_over step [] state = state
fold_over step (x ∷ items) state = fold_over step items (step state x.value)

module _ {κ ν} {D : Type κ} {S : Type ν} (goods : Goods D) (config : GoodsConfig D) (flags : ℕ)
    (place : ℤ → ℕ) (h : IsTable int_keys place config.registry.hashlist)
    (numbered : IsNumbered goods config flags config.registry.hashlist.order) (fuel : ℕ)
    (enough : length (walk (direction_of flags) config.registry.hashlist) < fuel)
    (step : S → D → S) where
  pub fold_goods_lem :
      (rest : List (Item ℤ D)) (i : ℕ) (found : Option (Option D)) (state : S)
      → ((k : ℕ)
          → get_elem? (listing goods config flags (direction_of flags)) (i + k) ≡ get_elem? rest k)
      → ((x : Item ℤ D) → head? rest ≡ some x → found ≡ some (some x.value))
      → fold_goods goods config place fuel flags step (length rest) found state
        ≡ some (fold_over step rest state)
  unfolding fold_goods
  fold_goods_lem [] i found state at start = refl
  fold_goods_lem (x ∷ rest) i found state at start =
      let all = listing goods config flags (direction_of flags) in
      let here : get_elem? all i ≡ some x = ap (get_elem? all) (omega arith) ∙ at 0 in
      let following = next_lem goods config flags place h numbered fuel enough i x here in
      let later : (k : ℕ) → get_elem? all (suc i + k) ≡ get_elem? rest k =
        λ k. ap (get_elem? all) (omega arith) ∙ at (suc k) in
      let after_this : (y : Item ℤ D)
          → head? rest ≡ some y
          → next goods config place fuel x.value flags ≡ some (some y.value) =
        λ y e.
          let there : get_elem? all (suc i) ≡ some y =
            ap (get_elem? all) (omega arith) ∙ later 0 ∙ sym (head?-get_elem? rest) ∙ e in
          following ∙ rw there refl in
      rw (start x refl, fold_goods)
        (fold_goods_lem rest (suc i) (next goods config place fuel x.value flags)
          (step state x.value) later after_this)

-- The first good that passes a test, in such a loop that returns from inside; the good, or none.
unfoldable pub find_good {κ} :
    {D : Type κ}
    → Goods D
    → GoodsConfig D
    → (ℤ → ℕ)
    → ℕ
    → ℕ
    → (D → Bool)
    → ℕ
    → Option (Option D)
    → Option (Option D)
unfolding next
find_good goods config place fuel flags test zero found = some none
find_good goods config place fuel flags test (suc rounds) none = none
find_good goods config place fuel flags test (suc rounds) (some none) = none
find_good goods config place fuel flags test (suc rounds) (some (some info)) =
    let rest =
      find_good goods config place fuel flags test rounds
        (next goods config place fuel info flags) in
    if test info then some (some info) else rest

-- The same over a list.
abbrev pub first_over {κ} : {D : Type κ} → (D → Bool) → List (Item ℤ D) → Option D
first_over test [] = none
first_over test (x ∷ items) =
    let rest = first_over test items in if test x.value then some x.value else rest

module _ {κ} {D : Type κ} (goods : Goods D) (config : GoodsConfig D) (flags : ℕ) (place : ℤ → ℕ)
    (h : IsTable int_keys place config.registry.hashlist)
    (numbered : IsNumbered goods config flags config.registry.hashlist.order) (fuel : ℕ)
    (enough : length (walk (direction_of flags) config.registry.hashlist) < fuel)
    (test : D → Bool) where
  pub find_good_lem :
      (rest : List (Item ℤ D)) (i : ℕ) (found : Option (Option D))
      → ((k : ℕ)
          → get_elem? (listing goods config flags (direction_of flags)) (i + k) ≡ get_elem? rest k)
      → ((x : Item ℤ D) → head? rest ≡ some x → found ≡ some (some x.value))
      → find_good goods config place fuel flags test (length rest) found
        ≡ some (first_over test rest)
  unfolding find_good
  find_good_lem [] i found at start = refl
  find_good_lem (x ∷ rest) i found at start =
      let all = listing goods config flags (direction_of flags) in
      let here : get_elem? all i ≡ some x = ap (get_elem? all) (omega arith) ∙ at 0 in
      let following = next_lem goods config flags place h numbered fuel enough i x here in
      let later : (k : ℕ) → get_elem? all (suc i + k) ≡ get_elem? rest k =
        λ k. ap (get_elem? all) (omega arith) ∙ at (suc k) in
      let after_this : (y : Item ℤ D)
          → head? rest ≡ some y
          → next goods config place fuel x.value flags ≡ some (some y.value) =
        λ y e.
          let there : get_elem? all (suc i) ≡ some y =
            ap (get_elem? all) (omega arith) ∙ later 0 ∙ sym (head?-get_elem? rest) ∙ e in
          following ∙ rw there refl in
      let more =
        find_good_lem rest (suc i) (next goods config place fuel x.value flags) later after_this in
      elim (Bool-cases (test x.value)) [
        | inl t ↦ rw (start x refl, find_good, t) refl
        | inr t ↦ rw (start x refl, find_good, t) more
      ]
