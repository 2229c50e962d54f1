-- ===== src/Weapons/Budget.antt =====
-- How many weapons may come out of a weapon by the actions of sgame/sphoenix.c, if its children come
-- to an end.
use xscorch.Prelude.{
  ℕ, zero, suc, ◌+◌, ◌*◌, ◌≤◌, List, [], ◌∷◌, ◌++◌, Bool, true, false, Option, some, ◌≡◌, refl,
  arith, if◌then◌else◌,
}
use xscorch.Prelude.Int.{ℤ, pos_part}
use xscorch.Items.{WeaponInfo}
use xscorch.Game.Queue.{Expl, Chain, expl_add}
use xscorch.Weapons.Verify.{needs_child, levels_above}
use xscorch.Weapons.Levels.{Descends}
use xscorch.Weapons.Flight.{Weapon}

abbrev pub has_explosions : Chain → Bool
has_explosions [] = false
has_explosions (x ∷ e) = true

pub expl_add-has_explosions : (e : Chain) (x : Expl) → has_explosions (expl_add e (x ∷ [])) ≡ true
unfolding expl_add
expl_add-has_explosions [] x = refl
expl_add-has_explosions (y ∷ e) x = refl

module _ (lookup : ℤ → Option WeaponInfo) where
  -- The weapons that come out of one in flight are no more than `n`, itself counted: each action
  -- makes one bounce, or its children, and no more than two actions are run for a weapon at once.
  abbrev pub Lasts : ℕ → WeaponInfo → ℕ → Type 0
  Lasts zero info n = (needs_child info ≡ false) × (1 ≤ n)
  Lasts (suc d) info n =
      (needs_child info ≡ true)
      × (child : WeaponInfo) × (m : ℕ) × (lookup info.ph_ch ≡ some child)
      × Lasts d child m
      × (3 + 2 * (pos_part info.children * m) ≤ n)

  pub Descends-Lasts :
      (d l : ℕ) (info : WeaponInfo) → Descends lookup d info l → (n : ℕ) × Lasts d info n
  Descends-Lasts zero l info h = (1, (h.0, omega arith))
  Descends-Lasts (suc d) l info (parent, child, m, e, h, f) =
      let (n, lasts) = Descends-Lasts d m child h in
      (3 + 2 * (pos_part info.children * n), (parent, child, n, e, lasts, omega arith))

  pub Lasts-Descends :
      (d n : ℕ) (info : WeaponInfo) → Lasts d info n → (l : ℕ) × Descends lookup d info l
  Lasts-Descends zero n info h = (1, (h.0, refl))
  Lasts-Descends (suc d) n info (parent, child, m, e, h, f) =
      let (l, descends) = Lasts-Descends d m child h in
      (levels_above info l, (parent, child, l, e, descends, refl))

  pub Lasts-pos : (d n : ℕ) (info : WeaponInfo) → Lasts d info n → 1 ≤ n
  Lasts-pos zero n info h = h.1
  Lasts-pos (suc d) n info (parent, child, m, e, h, f) = omega arith

  module _ {T : Type 0} where
    -- A weapon that waits for the next round is passed over in this one.
    abbrev pub Lives : Weapon T → ℕ → Type 0
    Lives wp n = (d : ℕ) × (m : ℕ) × Lasts d wp.weaponinfo m × ((if wp.deferring then 1 else m) ≤ n)

    -- No more than `n` weapons are tracked when those of the list are.
    abbrev pub Budget : List (Weapon T) → ℕ → Type 0
    Budget [] n = Unit
    Budget (wp ∷ weapons) n = (a : ℕ) × (b : ℕ) × Lives wp a × Budget weapons b × (a + b ≤ n)

    pub Budget-mono :
        (weapons : List (Weapon T)) (m n : ℕ) → m ≤ n → Budget weapons m → Budget weapons n
    Budget-mono [] m n l h = tt
    Budget-mono (wp ∷ weapons) m n l (a, b, lives, budget, sum) = (a, b, lives, budget, omega arith)

    pub Budget-append :
        (xs ys : List (Weapon T)) (m n : ℕ) → Budget xs m → Budget ys n → Budget (xs ++ ys) (m + n)
    Budget-append [] ys m n h k = Budget-mono ys n (m + n) (omega arith) k
    Budget-append (x ∷ xs) ys m n (a, b, lives, budget, sum) k =
        (a, b + n, lives, Budget-append xs ys b n budget k, omega arith)

    pub Lives-pos : (wp : Weapon T) (n : ℕ) → Lives wp n → 1 ≤ n
    Lives-pos wp n (d, m, h, l) = let more = Lasts-pos d m wp.weaponinfo h in ground arith
