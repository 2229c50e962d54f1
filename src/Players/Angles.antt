-- ===== src/Players/Angles.antt =====
-- Where the controls of sgame/splayer.c leave the power and the turret.
use xscorch.Prelude.{
  ℕ, zero, suc, ◌≤◌, ◌≡◌, refl, sym, ◌∙◌, ap, arith, Bool-cases, inl, inr, if◌then◌else◌,
}
use xscorch.Prelude.Int.{
  ℤ, pos, negsuc, ◌+ℤ◌, ◌-ℤ◌, ◌≤ℤ◌, pos_part, neg_part, ltb_ℤ, eqb_ℤ, +ℤ_parts, -ℤ_parts,
  eq_of_parts,
}
use xscorch.Land.Coords.{SameColumn, here, left, right}
use xscorch.Player.{Player}
use xscorch.Players.{max_power}
use xscorch.Players.Controls.{
  at_most, at_least_0, life_power, advance_power, set_power, turn_down, turn_up, advance_turret,
  set_turret,
}

-- From 0 to a limit.
abbrev pub IsWithin : ℤ → ℤ → Type 0
IsWithin limit x = (pos 0 ≤ℤ x) × (x ≤ℤ limit)

abbrev clamp : ℤ → ℤ → ℤ
clamp limit x = at_most limit (at_most max_power (at_least_0 x))

clamp_same :
    (limit x : ℤ)
    → pos 0 ≤ℤ limit
    → at_least_0 (at_most limit (at_most max_power x)) ≡ clamp limit x
clamp_same limit x h = ground arith

clamp-IsWithin : (limit x : ℤ) → pos 0 ≤ℤ limit → IsWithin limit (clamp limit x)
clamp-IsWithin limit x h = ground arith

clamp_max : (limit x : ℤ) → pos 0 ≤ℤ limit → IsWithin max_power (clamp limit x)
clamp_max limit x h = ground arith

set_power_lem : (p : Player) (x : ℤ) → set_power p x ≡ record p { power = clamp (life_power p) x }
unfolding set_power
set_power_lem p x = elim (Bool-cases (eqb_ℤ p.power (clamp (life_power p) x))) [
  | inl e ↦
      let same : clamp (life_power p) x ≡ p.power =
        eq_of_parts (clamp (life_power p) x) p.power (ground arith) in
      rw (e, same) refl
  | inr e ↦ rw e refl
]

-- Advancing the power is setting it to the sum, and both leave it between 0 and the least of what
-- the life allows and the maximum. Nothing but the power changes. Assumed: the life allows a power
-- that is not negative.
pub power_lem :
    (p : Player) (delta : ℤ)
    → pos 0 ≤ℤ life_power p
    → (advance_power p delta ≡ set_power p (p.power +ℤ delta))
      × IsWithin (life_power p) (set_power p (p.power +ℤ delta)).power
      × IsWithin max_power (set_power p (p.power +ℤ delta)).power
      × (record (set_power p (p.power +ℤ delta)) { power = p.power } ≡ p)
unfolding advance_power set_power
power_lem p delta h =
    let s = p.power +ℤ delta in
    rw (set_power_lem p s) (
      ap (λ x. record p { power = x }) (clamp_same (life_power p) s h),
      clamp-IsWithin (life_power p) s h,
      clamp_max (life_power p) s h,
      refl,
    )

turn_down_lem :
    (fuel : ℕ) (x y : ℤ)
    → pos_part y ≤ fuel
    → SameColumn 180 x y
    → (turn_down fuel y ≤ℤ pos 180)
      × (pos 0 ≤ℤ y → pos 0 ≤ℤ turn_down fuel y)
      × SameColumn 180 x (turn_down fuel y)
unfolding turn_down
turn_down_lem zero x y f s = (omega arith, (λ k. k), s)
turn_down_lem (suc fuel) x y f s = elim (Bool-cases (ltb_ℤ (pos 180) y)) [
  | inl e ↦
      let p = -ℤ_parts y (pos 180) in
      let (a, b, c) = turn_down_lem fuel x (y -ℤ pos 180) (ground arith) (left y s) in
      rw e (a, (λ k. b (ground arith)), c)
  | inr e ↦ rw e (ground arith, (λ k. k), s)
]

turn_up_lem :
    (fuel : ℕ) (x y : ℤ)
    → neg_part y ≤ fuel
    → SameColumn 180 x y
    → (pos 0 ≤ℤ turn_up fuel y)
      × (y ≤ℤ pos 180 → turn_up fuel y ≤ℤ pos 180)
      × SameColumn 180 x (turn_up fuel y)
unfolding turn_up
turn_up_lem zero x y f s = (omega arith, (λ k. k), s)
turn_up_lem (suc fuel) x y f s = elim (Bool-cases (ltb_ℤ y (pos 0))) [
  | inl e ↦
      let p = +ℤ_parts y (pos 180) in
      let (a, b, c) = turn_up_lem fuel x (y +ℤ pos 180) (ground arith) (right y s) in
      rw e (a, (λ k. b (ground arith)), c)
  | inr e ↦ rw e (ground arith, (λ k. k), s)
]

turn_down_in : (fuel : ℕ) (x : ℤ) → x ≤ℤ pos 180 → turn_down fuel x ≡ x
unfolding turn_down
turn_down_in zero x h = refl
turn_down_in (suc fuel) x h = ground arith

turn_up_in : (fuel : ℕ) (x : ℤ) → pos 0 ≤ℤ x → turn_up fuel x ≡ x
unfolding turn_up
turn_up_in zero x h = refl
turn_up_in (suc fuel) x h = ground arith

abbrev down : ℤ → ℤ
down x = turn_down (pos_part x) x

abbrev up : ℤ → ℤ
up x = turn_up (neg_part x) x

-- The two loops may run in either order.
down-up : (x : ℤ) → down (up x) ≡ up (down x)
down-up (pos n) =
    let (a, b, c) = turn_down_lem n (pos n) (pos n) (omega arith) here in
    rw (turn_up_in 0 (pos n) (omega arith))
      (sym (turn_up_in (neg_part (down (pos n))) (down (pos n)) (b (omega arith))))
down-up (negsuc n) =
    let (a, b, c) = turn_up_lem (suc n) (negsuc n) (negsuc n) (omega arith) here in
    rw (turn_down_in 0 (negsuc n) (omega arith))
      (turn_down_in (pos_part (up (negsuc n))) (up (negsuc n)) (b (omega arith)))

same_turret :
    (p : Player) (x : ℤ)
    → (if eqb_ℤ p.turret x then p else record p { turret = x }) ≡ record p { turret = x }
same_turret p x = elim (Bool-cases (eqb_ℤ p.turret x)) [
  | inl e ↦ let same : x ≡ p.turret = eq_of_parts x p.turret (ground arith) in rw (e, same) refl
  | inr e ↦ rw e refl
]

-- Turning the turret by an angle is setting it to the sum, and both leave it between 0 and 180, a
-- whole number of half turns from the sum: the loops have ended. Nothing but the turret changes.
pub turret_lem :
    (p : Player) (delta : ℤ)
    → (advance_turret p delta ≡ set_turret p (p.turret +ℤ delta))
      × IsWithin (pos 180) (advance_turret p delta).turret
      × SameColumn 180 (p.turret +ℤ delta) (advance_turret p delta).turret
      × (record (advance_turret p delta) { turret = p.turret } ≡ p)
unfolding advance_turret set_turret
turret_lem p delta =
    let x = p.turret +ℤ delta in
    let (a, b, c) = turn_down_lem (pos_part x) x x (omega arith) here in
    let (d, e, f) = turn_up_lem (neg_part (down x)) x (down x) (omega arith) c in
    (
      ap (λ t. record p { turret = t }) (sym (down-up x)) ∙ sym (same_turret p (down (up x))),
      (d, e a),
      f,
      refl,
    )
