-- ===== src/Players/Sums.antt =====
-- What players count for in the bookkeeping of deaths (sgame/splayer.c), and its sum over the slots.
use mathlib.Core.Option.{some-injective}
use xscorch.Prelude.{
  get_elem?-within, ℕ, zero, suc, ◌+◌, ◌<◌, List, [], ◌∷◌, some, ◌≡◌, refl, ◌∙◌, arith,
  if◌then◌else◌, Option-cases, inl, inr, get_elem?, set, length, length-set, set-set, set-set,
}
use xscorch.Prelude.Int.{ℤ, pos, ◌+ℤ◌, int_laws, pos_part, neg_part}
use xscorch.Player.{Player, is_alive}
use xscorch.Players.Damage.{update}

-- What a player counts for: a living tank, each kill and each suicide count one.
abbrev pub account : Player → ℤ
account p = p.kills +ℤ p.suicides +ℤ (if is_alive p then pos 1 else pos 0)

abbrev pub accounts : List Player → ℤ
accounts [] = pos 0
accounts (p ∷ players) = account p +ℤ accounts players

pub within :
    (players : List Player) (i : ℕ) (p : Player) → get_elem? players i ≡ some p → i < length players
within [] i p e = cc
within (x ∷ players) zero p e = omega arith
within (x ∷ players) (suc i) p e = let r = within players i p e in omega arith

pub parts_of : {a b : ℤ} → a ≡ b → pos_part a + neg_part b ≡ pos_part b + neg_part a
parts_of e = rw e (omega arith)

pub accounts-set :
    (players : List Player) (i : ℕ) (p q : Player)
    → get_elem? players i ≡ some p
    → accounts (set players i q) +ℤ account p ≡ accounts players +ℤ account q
accounts-set [] i p q e = cc
accounts-set (x ∷ players) zero p q e =
    let same : x ≡ p = some-injective _ _ e in
    rw same (add_swap (account q) (accounts players) (account p))
  where
    add_swap : (a b c : ℤ) → a +ℤ b +ℤ c ≡ c +ℤ b +ℤ a
    add_swap a b c = omega int_laws
accounts-set (x ∷ players) (suc i) p q e =
    add_front (account x) (accounts (set players i q)) (account p) (accounts players) (account q)
      (parts_of (accounts-set players i p q e))
  where
    add_front :
        (x a b c d : ℤ)
        → pos_part (a +ℤ b) + neg_part (c +ℤ d) ≡ pos_part (c +ℤ d) + neg_part (a +ℤ b)
        → (x +ℤ a) +ℤ b ≡ (x +ℤ c) +ℤ d
    add_front x a b c d h = omega (int_laws, h)

pub update-some :
    (players : List Player) (i : ℕ) (change : Player → Player) (p : Player)
    → get_elem? players i ≡ some p
    → update i change players ≡ set players i (change p)
unfolding update
update-some players i change p e = rw (e, update) refl

pub update-set :
    (players : List Player) (i : ℕ) (change : Player → Player) (p : Player)
    → i < length players
    → update i change (set players i p) ≡ set players i (change p)
update-set players i change p l =
    update-some (set players i p) i change p (get_elem?-set players i p l)
    ∙ set-set players i p (change p)
  where
    get_elem?-set :
        (players : List Player) (i : ℕ) (p : Player)
        → i < length players
        → get_elem? (set players i p) i ≡ some p
    get_elem?-set [] i p l = elim l [ ]
    get_elem?-set (x ∷ players) zero p l = refl
    get_elem?-set (x ∷ players) (suc i) p l = get_elem?-set players i p (omega arith)

pub add_zero : (a : ℤ) → a +ℤ pos 0 ≡ a
add_zero a = omega int_laws

-- A write that changes what a player counts for changes the sum by as much.
pub accounts-update :
    (players : List Player) (i : ℕ) (change : Player → Player) (d : ℤ)
    → i < length players
    → ((p : Player) → account (change p) ≡ account p +ℤ d)
    → accounts (update i change players) ≡ accounts players +ℤ d
accounts-update players i change d l h =
    let (p, e) = get_elem?-within players i l in
    rw (update-some players i change p e) (
      balance (accounts (set players i (change p))) (account p) (accounts players)
        (account (change p)) d (parts_of (accounts-set players i p (change p) e)) (parts_of (h p)))
  where
    balance :
        (a b c d' d : ℤ)
        → pos_part (a +ℤ b) + neg_part (c +ℤ d') ≡ pos_part (c +ℤ d') + neg_part (a +ℤ b)
        → pos_part d' + neg_part (b +ℤ d) ≡ pos_part (b +ℤ d) + neg_part d'
        → a ≡ c +ℤ d
    balance a b c d' d h k = omega (int_laws, h, k)

pub length-update :
    (players : List Player) (i : ℕ) (change : Player → Player)
    → length (update i change players) ≡ length players
unfolding update
length-update players i change = elim (Option-cases (get_elem? players i)) [
  | inl e ↦ rw (e, update) refl
  | inr (p, e) ↦ rw (update-some players i change p e) (length-set players i (change p))
]
