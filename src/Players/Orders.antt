-- ===== src/Players/Orders.antt =====
-- The orders of players in sgame/splayer.c: at random, the winners first and the losers first. What
-- `game_lrand(100)` draws in a round of the two loops is a parameter, and so is its test. Reading
-- beyond an array does not occur.
use xscorch.Prelude.{
  ℕ, zero, suc, ◌+◌, ◌-◌, List, [], ◌∷◌, Bool, not, ◌&&◌, none, some, ◌==◌, if◌then◌else◌,
  get_elem?, get_or, set, ltb,
}
use xscorch.Prelude.Int.{ℤ, ◌-ℤ◌, ltb_ℤ}
use xscorch.Player.{Player}

-- `a, a + 1, …`, that many of them.
abbrev pub count_from : ℕ → ℕ → List ℕ
count_from zero a = []
count_from (suc n) a = a ∷ count_from n (suc a)

-- The exchange of two entries, by sums and differences.
unfoldable pub exchange : ℕ → ℕ → List ℕ → List ℕ
exchange i j order =
    let order1 = set order i (get_or order i 0 + get_or order j 0) in
    let order2 = set order1 j (get_or order1 i 0 - get_or order1 j 0) in
    set order2 i (get_or order2 i 0 - get_or order2 j 0)

module _ (lrand : ℕ → ℕ → ℕ) where
  -- The inner loop, from `j` on, with the number of rounds left.
  unfoldable pub shuffle_with : ℕ → ℕ → ℕ → List ℕ → List ℕ
  unfolding exchange
  shuffle_with zero i j order = order
  shuffle_with (suc rounds) i j order =
      shuffle_with rounds i (suc j)
        (if not (i == j) && ltb (lrand i j) 50 then exchange i j order else order)

  -- The outer loop, from `i` on.
  unfoldable pub shuffle : ℕ → ℕ → ℕ → List ℕ → List ℕ
  unfolding shuffle_with
  shuffle numplayers zero i order = order
  shuffle numplayers (suc rounds) i order =
      shuffle numplayers rounds (suc i) (shuffle_with numplayers i 0 order)

unfoldable pub pick {ℓ} : {A : Type ℓ} → List A → List ℕ → List A
pick players [] = []
pick players (k ∷ order) =
    let rest = pick players order in elim (get_elem? players k) [ none ↦ rest | some p ↦ p ∷ rest ]

-- `playerlist`, over the players `players` of the configuration.
unfoldable pub random_order : (ℕ → ℕ → ℕ) → ℕ → List Player → List Player
unfolding shuffle pick
random_order lrand numplayers players =
    pick players (shuffle lrand numplayers numplayers 0 (count_from numplayers 0))

-- kills - suicides
abbrev pub score : Player → ℤ
score p = p.kills -ℤ p.suicides

-- A round of the inner loop: the two are exchanged if the one at `i` is better.
unfoldable pub compare_at {ℓ} : {A : Type ℓ} → (A → A → Bool) → ℕ → ℕ → List A → List A
compare_at better i j playerlist = elim (get_elem? playerlist i) [
  | none ↦ playerlist
  | some p ↦ elim (get_elem? playerlist j) [
    | none ↦ playerlist
    | some q ↦ if better p q then set (set playerlist i q) j p else playerlist
  ]
]

unfoldable pub compare_with {ℓ} : {A : Type ℓ} → (A → A → Bool) → ℕ → ℕ → ℕ → List A → List A
unfolding compare_at
compare_with better zero i j playerlist = playerlist
compare_with better (suc rounds) i j playerlist =
    compare_with better rounds i (suc j) (compare_at better i j playerlist)

-- The outer loop, from `i` on; the inner one has `i` rounds.
unfoldable pub sort_from {ℓ} : {A : Type ℓ} → (A → A → Bool) → ℕ → ℕ → List A → List A
unfolding compare_with
sort_from better zero i playerlist = playerlist
sort_from better (suc rounds) i playerlist =
    sort_from better rounds (suc i) (compare_with better i i 0 playerlist)

unfoldable pub winner_order : (ℕ → ℕ → ℕ) → ℕ → List Player → List Player
unfolding random_order sort_from
winner_order lrand numplayers players =
    sort_from (λ p q. ltb_ℤ (score q) (score p)) (numplayers - 1) 1
      (random_order lrand numplayers players)

unfoldable pub loser_order : (ℕ → ℕ → ℕ) → ℕ → List Player → List Player
unfolding random_order sort_from
loser_order lrand numplayers players =
    sort_from (λ p q. ltb_ℤ (score p) (score q)) (numplayers - 1) 1
      (random_order lrand numplayers players)
