-- ===== src/Land/Columns/Heights.antt =====
-- What `sc_land_height` of sgame/sland.c and the functions after it answer.
use xscorch.Prelude.{
  ℕ, zero, suc, ◌+◌, ◌*◌, ◌≤◌, ◌<◌, false, ◌≡◌, refl, arith, ltb, some, if◌then◌else◌, Bool-cases,
  Option-cases, inl, inr, ◌⊎◌,
}
use xscorch.Prelude.Int.{ℤ, pos, ◌+ℤ◌, ◌-ℤ◌, int_laws}
use xscorch.Land.{Land}
use xscorch.Land.Columns.{bounded, height_at, max_from, min_from, height_around, min_height_around}

min_from_zero : (l : Land) (y0 rounds : ℕ) (x : ℤ) → min_from l y0 rounds x 0 ≡ 0
unfolding min_from
min_from_zero l y0 zero x = refl
min_from_zero l y0 (suc rounds) x = elim (Option-cases (height_at l x y0)) [
  | inl e ↦ rw (e, min_from) (min_from_zero l y0 rounds (x +ℤ pos 1))
  | inr (ch, e) ↦
      let n : ltb ch 0 ≡ false = ground arith in
      rw (e, n, min_from) (min_from_zero l y0 rounds (x +ℤ pos 1))
]

-- The minimum of the heights around a column is found to be 0, whatever the land.
pub min_height_around_lem : (l : Land) (x : ℤ) (y0 w : ℕ) → min_height_around l x y0 w ≡ 0
unfolding min_height_around
min_height_around_lem l x y0 w = min_from_zero l (bounded l y0) (2 * w + 1) (x -ℤ pos w)

max_from_grows :
    (l : Land) (y0 rounds : ℕ) (x : ℤ) (height : ℕ) → height ≤ max_from l y0 rounds x height
unfolding max_from
max_from_grows l y0 zero x height = omega arith
max_from_grows l y0 (suc rounds) x height = elim (Option-cases (height_at l x y0)) [
  | inl e ↦ rw (e, max_from) (max_from_grows l y0 rounds (x +ℤ pos 1) height)
  | inr (ch, e) ↦
      let grown = max_from_grows l y0 rounds (x +ℤ pos 1) (if ltb height ch then ch else height) in
      rw (e, max_from) (ground arith)
]

max_from_covers :
    (l : Land) (y0 rounds : ℕ) (x : ℤ) (height k ch : ℕ)
    → k < rounds
    → height_at l (x +ℤ pos k) y0 ≡ some ch
    → ch ≤ max_from l y0 rounds x height
unfolding max_from
max_from_covers l y0 zero x height k ch h e = elim h [ ]
max_from_covers l y0 (suc rounds) x height zero ch h e =
    let x0 : x +ℤ pos 0 ≡ x = omega int_laws in
    let found : height_at l x y0 ≡ some ch = rw x0 at e in
    let grown = max_from_grows l y0 rounds (x +ℤ pos 1) (if ltb height ch then ch else height) in
    rw (found, max_from) (ground arith)
max_from_covers l y0 (suc rounds) x height (suc k) ch h e =
    let next : x +ℤ pos (suc k) ≡ x +ℤ pos 1 +ℤ pos k = omega int_laws in
    let later : height_at l (x +ℤ pos 1 +ℤ pos k) y0 ≡ some ch = rw next at e in
    elim (Option-cases (height_at l x y0)) [
      | inl f ↦
          rw (f, max_from)
            (max_from_covers l y0 rounds (x +ℤ pos 1) height k ch (omega arith) later)
      | inr (c0, f) ↦
          rw (f, max_from)
            (max_from_covers l y0 rounds (x +ℤ pos 1) (if ltb height c0 then c0 else height) k ch
              (omega arith) later)
    ]

-- A height that a loop over columns has found: the one it began with, or that of a column.
abbrev pub IsFound : Land → ℕ → ℕ → ℤ → ℕ → ℕ → Type 0
IsFound l y0 rounds x height h =
    (h ≡ height) ⊎ ((k : ℕ) × (k < rounds) × (height_at l (x +ℤ pos k) y0 ≡ some h))

found_next :
    (l : Land) (y0 rounds : ℕ) (x : ℤ) (h : ℕ)
    → (k : ℕ) × (k < rounds) × (height_at l (x +ℤ pos 1 +ℤ pos k) y0 ≡ some h)
    → (k : ℕ) × (k < suc rounds) × (height_at l (x +ℤ pos k) y0 ≡ some h)
found_next l y0 rounds x h (k, b, e) =
    let next : x +ℤ pos 1 +ℤ pos k ≡ x +ℤ pos (suc k) = omega int_laws in
    (suc k, omega arith, rw next at e)

IsFound-later :
    (l : Land) (y0 rounds : ℕ) (x : ℤ) (height h : ℕ)
    → IsFound l y0 rounds (x +ℤ pos 1) height h
    → IsFound l y0 (suc rounds) x height h
IsFound-later l y0 rounds x height h (inl e) = inl e
IsFound-later l y0 rounds x height h (inr r) = inr (found_next l y0 rounds x h r)

max_from-IsFound :
    (l : Land) (y0 rounds : ℕ) (x : ℤ) (height : ℕ)
    → IsFound l y0 rounds x height (max_from l y0 rounds x height)
unfolding max_from
max_from-IsFound l y0 zero x height = inl refl
max_from-IsFound l y0 (suc rounds) x height = elim (Option-cases (height_at l x y0)) [
  | inl f ↦
      rw (f, max_from)
        (IsFound-later l y0 rounds x height _ (max_from-IsFound l y0 rounds (x +ℤ pos 1) height))
  | inr (ch, f) ↦ elim (Bool-cases (ltb height ch)) [
    | inl m ↦ elim (max_from-IsFound l y0 rounds (x +ℤ pos 1) ch) [
      | inl e ↦
          let x0 : x +ℤ pos 0 ≡ x = omega int_laws in
          rw (f, m, max_from) (inr (0, omega arith, rw (x0, e) f))
      | inr r ↦ rw (f, m, max_from) (inr (found_next l y0 rounds x _ r))
    ]
    | inr m ↦
        rw (f, m, max_from)
          (IsFound-later l y0 rounds x height _ (max_from-IsFound l y0 rounds (x +ℤ pos 1) height))
  ]
]

-- The maximum of the heights around a column, from x - w to x + w, is at least the height at each of
-- these columns that is on the land; and it is the height at one of them, or it is 0.
pub height_around_lem :
    (l : Land) (x : ℤ) (y0 w : ℕ)
    → ((k ch : ℕ)
        → k ≤ 2 * w
        → height_at l (x -ℤ pos w +ℤ pos k) (bounded l y0) ≡ some ch
        → ch ≤ height_around l x y0 w)
      × ((height_around l x y0 w ≡ 0)
          ⊎ ((k : ℕ) × (k < 2 * w + 1)
              × (height_at l (x -ℤ pos w +ℤ pos k) (bounded l y0) ≡ some (height_around l x y0 w))))
unfolding height_around
height_around_lem l x y0 w = (
  λ k ch h e. max_from_covers l (bounded l y0) (2 * w + 1) (x -ℤ pos w) 0 k ch (omega arith) e,
  max_from-IsFound l (bounded l y0) (2 * w + 1) (x -ℤ pos w) 0,
)
