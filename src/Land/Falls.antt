-- ===== src/Land/Falls.antt =====
-- The fall of a column of the land (`_sc_land_drop_column` of sgame/sland.c) neither makes nor loses
-- ground, and keeps to its column.
use xscorch.Prelude.{
  ℕ, zero, suc, ◌+◌, ◌-◌, ◌≤◌, ◌<◌, ◌≢◌, ◌⊎◌, List, [], ◌∷◌, Bool, true, false, ◌≡◌, refl, sym, ◌∙◌,
  arith, ◌==◌, Bool-cases, inl, inr, get_or, set, length, length-set, get_or-set_self,
  get_or-set_ne,
}
use xscorch.Land.Columns.{is_ground, skip_ground, skip_gap, fall_cell, fall}

abbrev pub bit : Bool → ℕ
bit true = 1
bit false = 0

-- The cells of ground on a screen.
abbrev pub grounds : List ℕ → ℕ
grounds [] = 0
grounds (v ∷ screen) = bit (is_ground v) + grounds screen

grounds-set :
    (s : List ℕ) (i v : ℕ)
    → i < length s
    → grounds (set s i v) + bit (is_ground (get_or s i 0)) ≡ grounds s + bit (is_ground v)
grounds-set [] i v h = elim h [ ]
grounds-set (x ∷ s) zero v h = omega arith
grounds-set (x ∷ s) (suc i) v h = let r = grounds-set s i v (omega arith) in omega arith

-- What one round does, and the whole loop: the gap from `down` to `y` holds no ground.
abbrev pub IsGap : List ℕ → ℕ → ℕ → ℕ → Type 0
IsGap s base down y = (j : ℕ) → down ≤ j → j < y → is_ground (get_or s (base + j) 0) ≡ false

module _ (sky : ℕ → ℕ) (open_sky : (y : ℕ) → is_ground (sky y) ≡ false) (base : ℕ) where
  grounds-fall_cell :
      (s : List ℕ) (down y : ℕ)
      → down < y
      → base + y < length s
      → IsGap s base down y
      → grounds (fall_cell sky base s down y) ≡ grounds s
  unfolding fall_cell
  grounds-fall_cell s down y h l gap = elim (Bool-cases (is_ground (get_or s (base + y) 0))) [
    | inl e ↦
        let v = get_or s (base + y) 0 in
        let s1 = set s (base + down) v in
        let a = grounds-set s (base + down) v (omega arith) in
        let n = length-set s (base + down) v in
        let b = grounds-set s1 (base + y) (sky y) (omega (arith, n)) in
        let same = get_or-set_ne s (base + down) (base + y) v 0 (λ k. omega arith) in
        let g = gap down (omega arith) h in
        let o = open_sky y in
        let a1 : grounds s1 + 0 ≡ grounds s + 1 = rw (g, e) at a in
        let b1 : grounds (set s1 (base + y) (sky y)) + 1 ≡ grounds s1 + 0 = rw (same, e, o) at b in
        rw (e, fall_cell) (omega arith)
    | inr e ↦ rw (e, fall_cell) refl
  ]

  length-fall_cell : (s : List ℕ) (down y : ℕ) → length (fall_cell sky base s down y) ≡ length s
  unfolding fall_cell
  length-fall_cell s down y = elim (Bool-cases (is_ground (get_or s (base + y) 0))) [
    | inl e ↦
        rw (e, fall_cell)
          (length-set (set s (base + down) (get_or s (base + y) 0)) (base + y) (sky y)
            ∙ length-set s (base + down) (get_or s (base + y) 0))
    | inr e ↦ rw (e, fall_cell) refl
  ]

  fall_cell_other :
      (s : List ℕ) (down y i : ℕ)
      → i ≢ base + down
      → i ≢ base + y
      → get_or (fall_cell sky base s down y) i 0 ≡ get_or s i 0
  unfolding fall_cell
  fall_cell_other s down y i h k = elim (Bool-cases (is_ground (get_or s (base + y) 0))) [
    | inl e ↦
        rw (e, fall_cell)
          (get_or-set_ne (set s (base + down) (get_or s (base + y) 0)) (base + y) i (sky y) 0
              (λ q. k (sym q))
            ∙ get_or-set_ne s (base + down) i (get_or s (base + y) 0) 0 (λ q. h (sym q)))
    | inr e ↦ rw (e, fall_cell) refl
  ]

  fall_cell_top :
      (s : List ℕ) (down y : ℕ)
      → base + y < length s
      → is_ground (get_or (fall_cell sky base s down y) (base + y) 0) ≡ false
  unfolding fall_cell
  fall_cell_top s down y l = elim (Bool-cases (is_ground (get_or s (base + y) 0))) [
    | inl e ↦
        let s1 = set s (base + down) (get_or s (base + y) 0) in
        let n = length-set s (base + down) (get_or s (base + y) 0) in
        let top = get_or-set_self s1 (base + y) (sky y) 0 (omega (arith, n)) in
        rw (e, fall_cell) (rw top (open_sky y))
    | inr e ↦ rw (e, fall_cell) e
  ]

  fall_cell-IsGap :
      (s : List ℕ) (down y : ℕ)
      → down < y
      → base + y < length s
      → IsGap s base down y
      → IsGap (fall_cell sky base s down y) base (down + 1) (y + 1)
  fall_cell-IsGap s down y h l gap j m n = elim (Bool-cases (j == y)) [
    | inl e ↦ let same : j ≡ y = ground arith in rw same (fall_cell_top s down y l)
    | inr e ↦
        let other = fall_cell_other s down y (base + j) (λ q. ground arith) (λ q. ground arith) in
        rw other (gap j (omega arith) (ground arith))
  ]

  pub grounds-fall :
      (rounds : ℕ) (s : List ℕ) (down y : ℕ)
      → down < y
      → base + y + rounds ≤ length s
      → IsGap s base down y
      → grounds (fall sky base rounds s down y) ≡ grounds s
  unfolding fall
  grounds-fall zero s down y h l gap = refl
  grounds-fall (suc rounds) s down y h l gap =
      let n = length-fall_cell s down y in
      grounds-fall rounds (fall_cell sky base s down y) (down + 1) (y + 1) (omega arith)
        (omega arith) (fall_cell-IsGap s down y h (omega arith) gap)
      ∙ grounds-fall_cell s down y h (omega arith) gap

  pub fall_other :
      (rounds : ℕ) (s : List ℕ) (down y i : ℕ)
      → down < y
      → (i < base + down) ⊎ (base + y + rounds ≤ i)
      → get_or (fall sky base rounds s down y) i 0 ≡ get_or s i 0
  unfolding fall
  fall_other zero s down y i h o = refl
  fall_other (suc rounds) s down y i h o =
      fall_other rounds (fall_cell sky base s down y) (down + 1) (y + 1) i (omega arith)
        (elim o [ inl k ↦ inl (omega arith) | inr k ↦ inr (omega arith) ])
      ∙ fall_cell_other s down y i (λ q. elim o [ inl k ↦ omega arith | inr k ↦ omega arith ])
          (λ q. elim o [ inl k ↦ omega arith | inr k ↦ omega arith ])

  pub length-fall :
      (rounds : ℕ) (s : List ℕ) (down y : ℕ) → length (fall sky base rounds s down y) ≡ length s
  unfolding fall
  length-fall zero s down y = refl
  length-fall (suc rounds) s down y =
      length-fall rounds (fall_cell sky base s down y) (down + 1) (y + 1)
      ∙ length-fall_cell s down y

-- The two scans.
pub skip_ground_lem :
    (rounds : ℕ) (s : List ℕ) (base y : ℕ)
    → (y ≤ skip_ground rounds s base y)
      × (skip_ground rounds s base y ≤ y + rounds)
      × (skip_ground rounds s base y < y + rounds
          → is_ground (get_or s (base + skip_ground rounds s base y) 0) ≡ false)
unfolding skip_ground
skip_ground_lem zero s base y = (omega arith, omega arith, λ h. ground arith)
skip_ground_lem (suc rounds) s base y = elim (Bool-cases (is_ground (get_or s (base + y) 0))) [
  | inl e ↦
      let (a, b, c) = skip_ground_lem rounds s base (y + 1) in
      rw (e, skip_ground) (omega arith, omega arith, λ h. c (omega arith))
  | inr e ↦ rw (e, skip_ground) (omega arith, omega arith, λ h. e)
]

pub skip_gap_lem :
    (rounds : ℕ) (s : List ℕ) (base y : ℕ)
    → (y ≤ skip_gap rounds s base y)
      × (skip_gap rounds s base y ≤ y + rounds)
      × IsGap s base y (skip_gap rounds s base y)
      × (skip_gap rounds s base y < y + rounds
          → is_ground (get_or s (base + skip_gap rounds s base y) 0) ≡ true)
unfolding skip_gap
skip_gap_lem zero s base y = (omega arith, omega arith, (λ j h k. ground arith), λ h. ground arith)
skip_gap_lem (suc rounds) s base y = elim (Bool-cases (is_ground (get_or s (base + y) 0))) [
  | inl e ↦ rw (e, skip_gap) (omega arith, omega arith, (λ j h k. ground arith), λ h. e)
  | inr e ↦
      let (a, b, c, d) = skip_gap_lem rounds s base (y + 1) in
      rw (e, skip_gap)
        (
          omega arith,
          omega arith,
          λ j h k. elim (Bool-cases (j == y)) [
            | inl q ↦ let same : j ≡ y = ground arith in rw same e
            | inr q ↦ c j (ground arith) k
          ],
          λ h. d (omega arith),
        )
]

-- Where the two scans of a column end short of its top, the gap between is not empty.
pub scans_apart :
    (height base : ℕ) (s : List ℕ)
    → let y1 = skip_ground height s base 0 in
      let y2 = skip_gap (height - y1) s base y1 in y2 < height → y1 < y2
scans_apart height base s h =
    let y1 = skip_ground height s base 0 in
    let y2 = skip_gap (height - y1) s base y1 in
    let (a, b, open_cell) = skip_ground_lem height s base 0 in
    let (d, e, gap, shut) = skip_gap_lem (height - y1) s base y1 in
    let c1 = open_cell (omega arith) in
    let c2 = shut (omega arith) in
    elim (Bool-cases (y1 == y2)) [
      | inl q ↦ let same : y2 ≡ y1 = ground arith in let c3 = rw same at c2 in cc
      | inr q ↦ ground arith
    ]
