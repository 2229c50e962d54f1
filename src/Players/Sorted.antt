-- ===== src/Players/Sorted.antt =====
-- The orders of winners and losers in sgame/splayer.c are sorted, and hold every player.
use mathlib.Core.List.{append-nil}
use xscorch.Prelude.{
  ℕ, suc, ◌+◌, ◌-◌, List, [], ◌∷◌, ◌++◌, Bool, true, false, ◌≡◌, refl, sym, ◌∙◌, ap, arith,
  Bool-cases, inl, inr, length,
}
use xscorch.Prelude.Int.{ℤ, ltb_ℤ}
use xscorch.Player.{Player}
use xscorch.Players.Orders.{compare_with, sort_from, score, random_order, winner_order, loser_order}
use xscorch.Players.Shuffles.{occurs, occurs-random_order}
use xscorch.Players.Carries.{carry, compare_with_lem, length-carry, occurs-carry}

module _ {ℓ} {A : Type ℓ} (better : A → A → Bool) where
  -- No player stands before a better one.
  abbrev pub IsOrdered : List A → Type 0
  IsOrdered [] = Unit
  IsOrdered (p ∷ []) = Unit
  IsOrdered (p ∷ q ∷ players) = (better q p ≡ false) × IsOrdered (q ∷ players)

  -- All of a list carried in, one by one.
  abbrev carry_all : List A → List A → List A
  carry_all players [] = players
  carry_all players (x ∷ rest) = carry_all (carry better players x) rest

  sort_from_lem :
      (rest players : List A) (i : ℕ)
      → i ≡ length players
      → sort_from better (length rest) i (players ++ rest) ≡ carry_all players rest
  unfolding sort_from
  sort_from_lem [] players i e = append-nil players
  sort_from_lem (x ∷ rest) players i e =
      let inner : compare_with better i i 0 (players ++ (x ∷ rest))
          ≡ carry better players x ++ rest =
        rw e (compare_with_lem better players [] rest x (length players) 0 (omega arith) refl) in
      ap (sort_from better (length rest) (suc i)) inner
      ∙ sort_from_lem rest (carry better players x) (suc i)
          (omega (arith, length-carry better players x, e))

  occurs-carry_all :
      (test : A → Bool) (rest players : List A)
      → occurs test (carry_all players rest) ≡ occurs test players + occurs test rest
  occurs-carry_all test [] players = omega arith
  occurs-carry_all test (x ∷ rest) players =
      let later = occurs-carry_all test rest (carry better players x) in
      let carried = occurs-carry better test players x in ground arith

  module _ (later : (p q r : A) → better q p ≡ false → better r q ≡ false → better r p ≡ false)
      (not_both : (p q : A) → better p q ≡ true → better q p ≡ false) where
    cons-IsOrdered :
        (p q : A) (players : List A)
        → better q p ≡ false
        → IsOrdered (q ∷ players)
        → IsOrdered (p ∷ players)
    cons-IsOrdered p q [] h o = tt
    cons-IsOrdered p q (r ∷ players) h o = (later p q r h o.0, o.1)

    carry-behind-IsOrdered :
        (players : List A) (p x : A)
        → IsOrdered (p ∷ players)
        → better x p ≡ false
        → IsOrdered (p ∷ carry better players x)
    carry-behind-IsOrdered [] p x o h = (h, tt)
    carry-behind-IsOrdered (q ∷ players) p x o h = elim (Bool-cases (better x q)) [
      | inl b ↦
          let n = not_both x q b in
          rw (carry, b) (h, carry-behind-IsOrdered players x q (cons-IsOrdered x q players n o.1) n)
      | inr b ↦ rw (carry, b) (o.0, carry-behind-IsOrdered players q x o.1 b)
    ]

    carry-IsOrdered :
        (players : List A) (x : A) → IsOrdered players → IsOrdered (carry better players x)
    carry-IsOrdered [] x o = tt
    carry-IsOrdered (q ∷ players) x o = elim (Bool-cases (better x q)) [
      | inl b ↦
          let n = not_both x q b in
          rw (carry, b) (carry-behind-IsOrdered players x q (cons-IsOrdered x q players n o) n)
      | inr b ↦ rw (carry, b) (carry-behind-IsOrdered players q x o b)
    ]

    carry_all-IsOrdered :
        (rest players : List A) → IsOrdered players → IsOrdered (carry_all players rest)
    carry_all-IsOrdered [] players o = o
    carry_all-IsOrdered (x ∷ rest) players o =
        carry_all-IsOrdered rest (carry better players x) (carry-IsOrdered players x o)

    pub sort_from-IsOrdered :
        (players : List A)
        → IsOrdered (sort_from better (length players) 0 players)
          × ((test : A → Bool)
              → occurs test (sort_from better (length players) 0 players) ≡ occurs test players)
    sort_from-IsOrdered players = rw (sort_from_lem players [] 0 refl) (
      carry_all-IsOrdered players [] tt,
      λ test. let sum = occurs-carry_all test players [] in ground arith,
    )

    sort_lem :
        (players : List A) (n : ℕ)
        → length players ≡ n
        → IsOrdered (sort_from better (n - 1) 1 players)
          × ((test : A → Bool)
              → occurs test (sort_from better (n - 1) 1 players) ≡ occurs test players)
    unfolding sort_from
    sort_lem [] n e = rw (sym e) (tt, λ test. refl)
    sort_lem (x ∷ rest) n e =
        let rounds : n - 1 ≡ length rest = omega (arith, e) in
        let all : sort_from better (n - 1) 1 (x ∷ rest) ≡ carry_all (x ∷ []) rest =
          ap (λ k. sort_from better k 1 (x ∷ rest)) rounds ∙ sort_from_lem rest (x ∷ []) 1 refl in
        rw all (
          carry_all-IsOrdered rest (x ∷ []) tt,
          λ test. let sum = occurs-carry_all test rest (x ∷ []) in ground arith,
        )

length_of_occurs : (players : List Player) → occurs (λ p. true) players ≡ length players
length_of_occurs [] = refl
length_of_occurs (p ∷ players) = ap suc (length_of_occurs players)

-- The order of winners and the order of losers hold every player as often as the configuration does,
-- whatever is drawn at random; in the first nobody stands before a player with a higher score (kills
-- less suicides), in the second nobody before one with a lower score.
pub winner_order_lem :
    (lrand : ℕ → ℕ → ℕ) (players : List Player)
    → IsOrdered (λ p q. ltb_ℤ (score q) (score p)) (winner_order lrand (length players) players)
      × IsOrdered (λ p q. ltb_ℤ (score p) (score q)) (loser_order lrand (length players) players)
      × ((test : Player → Bool)
          → (occurs test (winner_order lrand (length players) players) ≡ occurs test players)
            × (occurs test (loser_order lrand (length players) players) ≡ occurs test players))
unfolding winner_order loser_order
winner_order_lem lrand players =
    let start = random_order lrand (length players) players in
    let same = occurs-random_order lrand players in
    let n : length start ≡ length players =
      sym (length_of_occurs start) ∙ same (λ p. true) ∙ length_of_occurs players in
    let (won, all_won) =
      sort_lem (λ p q. ltb_ℤ (score q) (score p))
        (λ p q r. score_trans (score r) (score q) (score p))
        (λ p q. score_not_both (score q) (score p)) start (length players) n in
    let (lost, all_lost) =
      sort_lem (λ p q. ltb_ℤ (score p) (score q))
        (λ p q r h k. score_trans (score p) (score q) (score r) k h)
        (λ p q. score_not_both (score p) (score q)) start (length players) n in
    (won, lost, λ test. (all_won test ∙ same test, all_lost test ∙ same test))
  where
    score_trans : (a b c : ℤ) → ltb_ℤ c b ≡ false → ltb_ℤ b a ≡ false → ltb_ℤ c a ≡ false
    score_trans a b c h k = ground arith

    score_not_both : (a b : ℤ) → ltb_ℤ a b ≡ true → ltb_ℤ b a ≡ false
    score_not_both a b h = ground arith
