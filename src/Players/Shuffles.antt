-- ===== src/Players/Shuffles.antt =====
-- The lists that sgame/splayer.c makes hold every player once: exchanges change no counts.
use mathlib.Core.List.{append_assoc}
use mathlib.Core.Option.{some-injective}
use xscorch.Prelude.{
  get_elem?-set_ne, ℕ, zero, suc, ◌+◌, ◌-◌, ◌≤◌, ◌<◌, ◌≢◌, List, [], ◌∷◌, ◌++◌, Bool, true, false,
  not, ◌&&◌, none, some, ◌≡◌, refl, sym, ◌∙◌, ap, arith, ◌==◌, ltb, Bool-cases, Option-cases, inl,
  inr, get_elem?, get_or, set, length, filter, length-set, length-append, set-set, get_or-set_self,
  get_or-set_ne,
}
use xscorch.Player.{Player}
use xscorch.Players.Orders.{count_from, exchange, shuffle_with, shuffle, pick, random_order}

-- How many items pass a test.
abbrev pub occurs {ℓ} : {A : Type ℓ} → (A → Bool) → List A → ℕ
occurs test xs = length (filter test xs)

abbrev pub one_if : Bool → ℕ
one_if true = 1
one_if false = 0

module _ {ℓ} {A : Type ℓ} where
  pub occurs-set :
      (test : A → Bool) (xs : List A) (i : ℕ) (u v : A)
      → get_elem? xs i ≡ some u
      → occurs test (set xs i v) + one_if (test u) ≡ occurs test xs + one_if (test v)
  occurs-set test [] i u v e = cc
  occurs-set test (x ∷ xs) zero u v e =
      let same : x ≡ u = some-injective _ _ e in rw same (ground arith)
  occurs-set test (x ∷ xs) (suc i) u v e = let rest = occurs-set test xs i u v e in ground arith

  -- Two entries that change places.
  pub occurs-swap :
      (test : A → Bool) (xs : List A) (i j : ℕ) (u v : A)
      → i ≢ j
      → get_elem? xs i ≡ some u
      → get_elem? xs j ≡ some v
      → occurs test (set (set xs i v) j u) ≡ occurs test xs
  occurs-swap test xs i j u v h e f =
      let first = occurs-set test xs i u v e in
      let second = occurs-set test (set xs i v) j v u (get_elem?-set_ne xs i j v h ∙ f) in
      omega arith

  set_comm : (xs : List A) (i j : ℕ) (u v : A) → i ≢ j → set (set xs i u) j v ≡ set (set xs j v) i u
  set_comm [] i j u v h = refl
  set_comm (x ∷ xs) zero zero u v h = absurd (h refl)
  set_comm (x ∷ xs) zero (suc j) u v h = refl
  set_comm (x ∷ xs) (suc i) zero u v h = refl
  set_comm (x ∷ xs) (suc i) (suc j) u v h =
      ap (λ r. x ∷ r) (set_comm xs i j u v (λ e. h (ap suc e)))

  get_or-elem :
      (xs : List A) (i : ℕ) (d : A) → i < length xs → get_elem? xs i ≡ some (get_or xs i d)
  get_or-elem [] i d l = elim l [ ]
  get_or-elem (x ∷ xs) zero d l = refl
  get_or-elem (x ∷ xs) (suc i) d l = get_or-elem xs i d (omega arith)

-- The sums and differences exchange the two entries.
exchange_lem :
    (i j : ℕ) (order : List ℕ)
    → i ≢ j
    → i < length order
    → j < length order
    → exchange i j order ≡ set (set order i (get_or order j 0)) j (get_or order i 0)
unfolding exchange
exchange_lem i j order h l m =
    let a = get_or order i 0 in
    let b = get_or order j 0 in
    let order1 = set order i (a + b) in
    let at_i : get_or order1 i 0 ≡ a + b = get_or-set_self order i (a + b) 0 l in
    let at_j : get_or order1 j 0 ≡ b = get_or-set_ne order i j (a + b) 0 h in
    let left : a + b - b ≡ a = omega arith in
    let still_i : get_or (set order1 j a) i 0 ≡ a + b =
      get_or-set_ne order1 j i a 0 (λ q. h (sym q)) ∙ at_i in
    let new_j : get_or (set order1 j a) j 0 ≡ a =
      get_or-set_self order1 j a 0 (rw (length-set order i (a + b)) m) in
    let right : a + b - a ≡ b = omega arith in
    rw (at_i, at_j, left, still_i, new_j, right)
      (set_comm order1 j i a b (λ q. h (sym q)) ∙ ap (λ r. set r j a) (set-set order i (a + b) b))

occurs-exchange :
    (test : ℕ → Bool) (i j : ℕ) (order : List ℕ)
    → i ≢ j
    → i < length order
    → j < length order
    → occurs test (exchange i j order) ≡ occurs test order
occurs-exchange test i j order h l m = rw (exchange_lem i j order h l m) (
    occurs-swap test order i j (get_or order i 0) (get_or order j 0) h (get_or-elem order i 0 l)
      (get_or-elem order j 0 m))

length-exchange : (i j : ℕ) (order : List ℕ) → length (exchange i j order) ≡ length order
unfolding exchange
length-exchange i j order = length-set _ i _ ∙ length-set _ j _ ∙ length-set order i _

module _ (lrand : ℕ → ℕ → ℕ) (test : ℕ → Bool) where
  occurs-shuffle_with :
      (rounds i j : ℕ) (order : List ℕ)
      → i < length order
      → j + rounds ≤ length order
      → (occurs test (shuffle_with lrand rounds i j order) ≡ occurs test order)
        × (length (shuffle_with lrand rounds i j order) ≡ length order)
  unfolding shuffle_with
  occurs-shuffle_with zero i j order l m = (refl, refl)
  occurs-shuffle_with (suc rounds) i j order l m =
      elim (Bool-cases (not (i == j) && ltb (lrand i j) 50)) [
        | inl b ↦
            let n = length-exchange i j order in
            let apart : i ≢ j =
              λ e. let q : i == j ≡ true = ground arith in let r = rw q at b in cc in
            let (same, len) =
              occurs-shuffle_with rounds i (suc j) (exchange i j order) (rw n l)
                (rw n (omega arith)) in
            rw b (same ∙ occurs-exchange test i j order apart l (omega arith), len ∙ n)
        | inr b ↦ rw b (occurs-shuffle_with rounds i (suc j) order l (omega arith))
      ]

  occurs-shuffle :
      (numplayers rounds i : ℕ) (order : List ℕ)
      → length order ≡ numplayers
      → i + rounds ≤ numplayers
      → occurs test (shuffle lrand numplayers rounds i order) ≡ occurs test order
  unfolding shuffle
  occurs-shuffle numplayers zero i order e l = refl
  occurs-shuffle numplayers (suc rounds) i order e l =
      let (same, len) = occurs-shuffle_with numplayers i 0 order (omega arith) (omega arith) in
      occurs-shuffle numplayers rounds (suc i) (shuffle_with lrand numplayers i 0 order) (len ∙ e)
        (omega arith)
      ∙ same

module _ {ℓ} {A : Type ℓ} where
  abbrev holds_at : (A → Bool) → List A → ℕ → Bool
  holds_at test players k = elim (get_elem? players k) [ none ↦ false | some p ↦ test p ]

  occurs-pick :
      (test : A → Bool) (players : List A) (order : List ℕ)
      → occurs test (pick players order) ≡ occurs (holds_at test players) order
  unfolding pick
  occurs-pick test players [] = refl
  occurs-pick test players (k ∷ order) = elim (Option-cases (get_elem? players k)) [
    | inl e ↦
        let held : holds_at test players k ≡ false = rw (e, holds_at) refl in
        rw (e, pick, held) (occurs-pick test players order)
    | inr (p, e) ↦
        let held : holds_at test players k ≡ test p = rw (e, holds_at) refl in
        let rest = occurs-pick test players order in
        elim (Bool-cases (test p)) [
          | inl t ↦ rw (e, pick, held, t) (ap suc rest)
          | inr t ↦ rw (e, pick, held, t) rest
        ]
  ]

  pub get_elem?-append :
      (front rest : List A) (x : A) (i : ℕ)
      → i ≡ length front
      → get_elem? (front ++ (x ∷ rest)) i ≡ some x
  get_elem?-append [] rest x zero e = refl
  get_elem?-append [] rest x (suc i) e = absurd (omega (arith, e))
  get_elem?-append (y ∷ front) rest x zero e = absurd (omega (arith, e))
  get_elem?-append (y ∷ front) rest x (suc i) e = get_elem?-append front rest x i (omega (arith, e))

  pub set-append :
      (front rest : List A) (x v : A) (i : ℕ)
      → i ≡ length front
      → set (front ++ (x ∷ rest)) i v ≡ front ++ (v ∷ rest)
  set-append [] rest x v zero e = refl
  set-append [] rest x v (suc i) e = absurd (omega (arith, e))
  set-append (y ∷ front) rest x v zero e = absurd (omega (arith, e))
  set-append (y ∷ front) rest x v (suc i) e =
      ap (λ r. y ∷ r) (set-append front rest x v i (omega (arith, e)))

  -- All places, in order, pick all.
  pick-count_from :
      (front rest : List A) → pick (front ++ rest) (count_from (length rest) (length front)) ≡ rest
  unfolding pick
  pick-count_from front [] = refl
  pick-count_from front (x ∷ rest) =
      let moved : front ++ (x ∷ rest) ≡ (front ++ (x ∷ [])) ++ rest =
        sym (append_assoc front (x ∷ []) rest) in
      let longer : suc (length front) ≡ length (front ++ (x ∷ [])) =
        omega (arith, length-append front (x ∷ [])) in
      let tail : pick (front ++ (x ∷ rest)) (count_from (length rest) (suc (length front))) ≡ rest =
        rw (moved, longer) (pick-count_from (front ++ (x ∷ [])) rest) in
      rw (get_elem?-append front rest x (length front) refl, pick) (ap (λ r. x ∷ r) tail)

length-count_from : (n a : ℕ) → length (count_from n a) ≡ n
length-count_from zero a = refl
length-count_from (suc n) a = ap suc (length-count_from n (suc a))

-- A random order holds what the players hold.
pub occurs-random_order :
    (lrand : ℕ → ℕ → ℕ) (players : List Player) (test : Player → Bool)
    → occurs test (random_order lrand (length players) players) ≡ occurs test players
unfolding random_order
occurs-random_order lrand players test =
    let n = length players in
    let order = count_from n 0 in
    occurs-pick test players (shuffle lrand n n 0 order)
    ∙ occurs-shuffle lrand (holds_at test players) n n 0 order (length-count_from n 0) (omega arith)
    ∙ sym (occurs-pick test players order)
    ∙ ap (occurs test) (pick-count_from [] players)
