-- ===== src/Land/Coords.antt =====
-- Where the coordinates of sgame/sland.c end up.
use xscorch.Prelude.{
  ℕ, zero, suc, ◌+◌, ◌≤◌, ◌<◌, true, false, ◌≡◌, refl, arith, Bool-cases, inl, inr, ◌↔◌,
}
use xscorch.Prelude.Int.{
  ℤ, pos, ◌+ℤ◌, ◌-ℤ◌, ◌≤ℤ◌, ◌<ℤ◌, pos_part, neg_part, ltb_ℤ, leb_ℤ, int_laws, +ℤ_parts, -ℤ_parts,
}
use xscorch.Land.{
  Land, wraps, walled, wrap_down, wrap_up, wrap, translate_x, range_down, range_up,
  translate_x_range,
}

-- The coordinates from 0 to w - 1.
abbrev pub InRange : ℕ → ℤ → Type 0
InRange w x = (pos 0 ≤ℤ x) × (x <ℤ pos w)

-- Coordinates a whole number of turns apart.
pub data SameColumn (w : ℕ) (x : ℤ) : ℤ → Type 0 where
  here : SameColumn w x x
  right : (y : ℤ) → SameColumn w x y → SameColumn w x (y +ℤ pos w)
  left : (y : ℤ) → SameColumn w x y → SameColumn w x (y -ℤ pos w)

pub wrap_down_lem :
    (fuel w : ℕ) (x y : ℤ)
    → 0 < w
    → pos_part y ≤ fuel
    → SameColumn w x y
    → (wrap_down fuel w y <ℤ pos w)
      × (pos 0 ≤ℤ y → pos 0 ≤ℤ wrap_down fuel w y)
      × SameColumn w x (wrap_down fuel w y)
unfolding wrap_down
wrap_down_lem zero w x y h f s = (omega arith, (λ k. k), s)
wrap_down_lem (suc fuel) w x y h f s = elim (Bool-cases (leb_ℤ (pos w) y)) [
  | inl e ↦
      let p = -ℤ_parts y (pos w) in
      let (a, b, c) = wrap_down_lem fuel w x (y -ℤ pos w) h (ground arith) (left y s) in
      rw e (a, (λ k. b (ground arith)), c)
  | inr e ↦ rw e (ground arith, (λ k. k), s)
]

pub wrap_up_lem :
    (fuel w : ℕ) (x y : ℤ)
    → 0 < w
    → neg_part y ≤ fuel
    → SameColumn w x y
    → y <ℤ pos w
    → InRange w (wrap_up fuel w y) × SameColumn w x (wrap_up fuel w y)
unfolding wrap_up
wrap_up_lem zero w x y h f s l = ((omega arith, l), s)
wrap_up_lem (suc fuel) w x y h f s l = elim (Bool-cases (ltb_ℤ y (pos 0))) [
  | inl e ↦
      let p = +ℤ_parts y (pos w) in
      rw e (wrap_up_lem fuel w x (y +ℤ pos w) h (ground arith) (right y s) (ground arith))
  | inr e ↦ rw e ((ground arith, l), s)
]

wrap_lem : (w : ℕ) (x : ℤ) → 0 < w → InRange w (wrap w x) × SameColumn w x (wrap w x)
unfolding wrap
wrap_lem w x h =
    let x' = wrap_down (pos_part x) w x in
    let (a, _, c) = wrap_down_lem (pos_part x) w x x h (omega arith) here in
    wrap_up_lem (neg_part x') w x x' h (omega arith) c a

wrap_down_in : (fuel w : ℕ) (x : ℤ) → x <ℤ pos w → wrap_down fuel w x ≡ x
unfolding wrap_down
wrap_down_in zero w x h = refl
wrap_down_in (suc fuel) w x h = ground arith

wrap_up_in : (fuel w : ℕ) (x : ℤ) → pos 0 ≤ℤ x → wrap_up fuel w x ≡ x
unfolding wrap_up
wrap_up_in zero w x h = refl
wrap_up_in (suc fuel) w x h = ground arith

wrap_in : (w : ℕ) (x : ℤ) → InRange w x → wrap w x ≡ x
unfolding wrap
wrap_in w x (h, k) = rw (wrap_down_in (pos_part x) w x k) (wrap_up_in (neg_part x) w x h)

-- A translated coordinate is on the land whenever the answer says so, and always when the land wraps
-- or is walled. On a land that wraps the answer is always yes, and the coordinate has moved by whole
-- turns. A coordinate that is on the land stays as it is, and is accepted on every land; on one that
-- does not wrap nothing else is. Assumed: the land is not empty.
pub translate_x_lem :
    (l : Land) (x : ℤ)
    → 0 < l.width
    → ((translate_x l x).0 ≡ true → InRange l.width (translate_x l x).1)
      × (wraps l ≡ true → ((translate_x l x).0 ≡ true) × SameColumn l.width x (translate_x l x).1)
      × (walled l ≡ true → InRange l.width (translate_x l x).1)
      × (InRange l.width x → ((translate_x l x).0 ≡ true) × ((translate_x l x).1 ≡ x))
      × (wraps l ≡ false → (translate_x l x).0 ≡ true → InRange l.width x)
unfolding translate_x
translate_x_lem l x h = elim (Bool-cases (wraps l)) [
  | inl e ↦
      let (a, b) = wrap_lem l.width x h in
      rw e ((λ _. a), (λ _. (refl, b)), (λ _. a), (λ k. (refl, wrap_in l.width x k)), (λ k. cc))
  | inr e ↦
      let p = -ℤ_parts (pos l.width) (pos 1) in
      rw e (ground arith, ground arith, ground arith, ground arith, ground arith)
]

-- Two intervals of the same length.
abbrev IsMoved : ℤ × ℤ → ℤ × ℤ → Type 0
IsMoved a b =
    pos_part a.1 + neg_part a.0 + pos_part b.0 + neg_part b.1
    ≡ neg_part a.1 + pos_part a.0 + neg_part b.0 + pos_part b.1

range_down_lem :
    (fuel w : ℕ) (a b : ℤ × ℤ)
    → 0 < w
    → pos_part b.0 ≤ fuel
    → IsMoved a b
    → ((range_down fuel w b).0 <ℤ pos w)
      × IsMoved a (range_down fuel w b)
      × (pos 0 ≤ℤ b.0 → pos 0 ≤ℤ (range_down fuel w b).0)
unfolding range_down
range_down_lem zero w a (x1, x2) h f m = (omega arith, m, (λ k. k))
range_down_lem (suc fuel) w a (x1, x2) h f m = elim (Bool-cases (leb_ℤ (pos w) x1)) [
  | inl e ↦
      let p = -ℤ_parts x1 (pos w) in
      let q = -ℤ_parts x2 (pos w) in
      let (r, s, t) =
        range_down_lem fuel w a (x1 -ℤ pos w, x2 -ℤ pos w) h (ground arith) (omega arith) in
      rw e (r, s, (λ k. t (ground arith)))
  | inr e ↦ rw e (ground arith, m, (λ k. k))
]

range_up_lem :
    (fuel w : ℕ) (a b : ℤ × ℤ)
    → 0 < w
    → neg_part b.1 ≤ fuel
    → IsMoved a b
    → b.0 <ℤ pos w
    → b.0 ≤ℤ b.1
    → ((range_up fuel w b).0 <ℤ pos w)
      × (pos 0 ≤ℤ (range_up fuel w b).1)
      × IsMoved a (range_up fuel w b)
unfolding range_up
range_up_lem zero w a (x1, x2) h f m l o = (l, omega arith, m)
range_up_lem (suc fuel) w a (x1, x2) h f m l o = elim (Bool-cases (ltb_ℤ x2 (pos 0))) [
  | inl e ↦
      let p = +ℤ_parts x1 (pos w) in
      let q = +ℤ_parts x2 (pos w) in
      rw e (
        range_up_lem fuel w a (x1 +ℤ pos w, x2 +ℤ pos w) h (ground arith) (omega arith)
          (ground arith) (ground arith))
  | inr e ↦ rw e (l, ground arith, m)
]

ranged :
    (w : ℕ) (x1 x2 : ℤ)
    → 0 < w
    → x1 ≤ℤ x2
    → let down = range_down (pos_part x1) w (x1, x2) in
      let (r1, r2) = range_up (neg_part down.1) w down in
      (r1 <ℤ pos w) × (pos 0 ≤ℤ r2) × (r2 -ℤ r1 ≡ x2 -ℤ x1)
ranged w x1 x2 h o =
    let down = range_down (pos_part x1) w (x1, x2) in
    let (a, m, _) =
      range_down_lem (pos_part x1) w (x1, x2) (x1, x2) h (omega arith) (omega arith) in
    let (b, c, k) =
      range_up_lem (neg_part down.1) w (x1, x2) down h (omega arith) m a (omega arith) in
    (b, c, omega int_laws)

-- On a land that wraps, an interval keeps its length and gets a column on the land. On another it is
-- cut down to its columns on the land, exactly, and the answer says whether there are any. Assumed:
-- the land is not empty, and neither is the interval.
pub translate_x_range_lem :
    (l : Land) (x1 x2 : ℤ)
    → 0 < l.width
    → x1 ≤ℤ x2
    → let (ok, (r1, r2)) = translate_x_range l (x1, x2) in
      (wraps l ≡ true → (ok ≡ true) × (r1 <ℤ pos l.width) × (pos 0 ≤ℤ r2) × (r2 -ℤ r1 ≡ x2 -ℤ x1))
      × (wraps l ≡ false
          → (ok ≡ true → r1 ≤ℤ r2)
            × ((x : ℤ)
                → ((ok ≡ true) × (r1 ≤ℤ x) × (x ≤ℤ r2))
                  ↔ ((x1 ≤ℤ x) × (x ≤ℤ x2) × InRange l.width x)))
unfolding translate_x_range
translate_x_range_lem l x1 x2 h o =
    let n : ltb_ℤ x2 x1 ≡ false = ground arith in
    elim (Bool-cases (wraps l)) [
      | inl e ↦
          let (a, b, c) = ranged l.width x1 x2 h o in rw (n, e) ((λ _. (refl, a, b, c)), (λ k. cc))
      | inr e ↦
          let p = -ℤ_parts (pos l.width) (pos 1) in
          rw (n, e) ((λ k. cc), (λ _. (ground arith, λ x. (ground arith, ground arith))))
    ]
