-- ===== src/Shields/Absorb.antt =====
-- What the shields of sgame/sshield.c take, and what they let through.
use xscorch.Prelude.{
  ℕ, Bool, true, false, Option, none, some, ◌≡◌, ◌↔◌, refl, arith, Bool-cases, Option-cases, inl,
  inr,
}
use mathlib.Core.Option.{some-injective}
use mathlib.Core.Path.{subst}
use xscorch.Prelude.Int.{ℤ, pos, ◌-ℤ◌, ◌≤ℤ◌, ◌<ℤ◌, leb_ℤ, int_laws, +ℤ_parts, -ℤ_parts}
use xscorch.Player.{Player, Shield}
use xscorch.Shields.{
  recharge_rate, hit_cost, recharge, shield_init_turn, weaken, absorb_hit, undealt,
  absorb_explosion,
}

-- The life that a player's shield has left.
abbrev pub shield_life : Option Shield → ℤ
shield_life none = pos 0
shield_life (some sh) = sh.life

-- A shield that is up has life left, and no more than its kind has when it is new.
abbrev pub IsUp : Option Shield → Type 0
IsUp none = Unit {0}
IsUp (some sh) = (pos 0 <ℤ sh.life) × (sh.life ≤ℤ sh.info.shield)

IsUp-weaken : (cost : ℤ) (sh : Shield) → pos 0 ≤ℤ cost → IsUp (some sh) → IsUp (weaken cost sh)
unfolding weaken
IsUp-weaken cost sh h (a, b) = elim (Bool-cases (leb_ℤ (sh.life -ℤ cost) (pos 0))) [
  | inl e ↦ rw e tt
  | inr e ↦ let p = -ℤ_parts sh.life cost in rw e (ground arith, omega arith)
]

hit_cost_pos : (sapper : Bool) → pos 0 ≤ℤ hit_cost sapper
hit_cost_pos true = omega arith
hit_cost_pos false = omega arith

IsUp-recharge : (state : ℕ) (sh : Shield) → IsUp (some sh) → IsUp (some (recharge state sh))
unfolding recharge
IsUp-recharge state sh (a, b) =
    let p = +ℤ_parts sh.life recharge_rate in (ground arith, ground arith)

undealt_lem :
    (napalm : Bool) (damage : ℤ) (sh : Shield)
    → pos 0 ≤ℤ damage
    → pos 0 <ℤ sh.life
    → (pos 0 ≤ℤ undealt napalm damage sh)
      × (undealt napalm damage sh ≤ℤ damage)
      × (napalm ≡ false
          → undealt napalm damage sh -ℤ damage ≡ shield_life (weaken damage sh) -ℤ sh.life)
unfolding undealt weaken
undealt_lem napalm damage sh h k =
    let p = -ℤ_parts sh.life damage in
    let q = -ℤ_parts (pos 0) (sh.life -ℤ damage) in
    elim (Bool-cases (leb_ℤ (sh.life -ℤ damage) (pos 0))) [
      | inl e ↦ elim (Bool-cases napalm) [
        | inl n ↦ rw (e, n) (omega arith, omega arith, λ k. cc)
        | inr n ↦ rw (e, n) (ground arith, ground arith, λ k. omega int_laws)
      ]
      | inr e ↦ rw e (omega arith, omega arith, λ k. omega int_laws)
    ]

-- A shield is released exactly when it pays all the life it has.
weaken-none_iff : (cost : ℤ) (sh : Shield) → (weaken cost sh ≡ none) ↔ (sh.life ≤ℤ cost)
unfolding weaken
weaken-none_iff cost sh =
    let p = -ℤ_parts sh.life cost in
    elim (Bool-cases (leb_ℤ (sh.life -ℤ cost) (pos 0))) [
      | inl e ↦ rw e (λ h. ground arith, λ h. refl)
      | inr e ↦ rw e (λ h. cc, λ h. absurd (ground arith))
    ]

recharge_lem :
    (state : ℕ) (sh : Shield)
    → sh.life ≤ℤ sh.info.shield
    → (sh.life ≤ℤ (recharge state sh).life) × ((recharge state sh).info ≡ sh.info)
unfolding recharge
recharge_lem state sh h = let p = +ℤ_parts sh.life recharge_rate in (ground arith, ground arith)

-- A hit or an explosion releases a shield that is up exactly when the shield has no more life than
-- the hit costs or the explosion does damage, and else leaves it up; a new turn leaves it up, of the
-- same kind and with no less life. It never has more life than its kind has when it is new. A player
-- without a shield gets none. Assumed: the damage is not below zero.
pub shields-IsUp :
    (p : Player) (sapper napalm : Bool) (damage : ℤ)
    → pos 0 ≤ℤ damage
    → IsUp p.shield
    → let after_hit = (absorb_hit p sapper).1.shield in
      let after_explosion = (absorb_explosion p napalm damage).1.shield in
      let after_turn = (shield_init_turn p).shield in
      IsUp after_hit
      × IsUp after_explosion
      × IsUp after_turn
      × ((sh : Shield)
          → p.shield ≡ some sh
          → ((after_hit ≡ none) ↔ (sh.life ≤ℤ hit_cost sapper))
            × ((after_explosion ≡ none) ↔ (sh.life ≤ℤ damage))
            × ((sh' : Shield) × (after_turn ≡ some sh')
                × (sh'.info ≡ sh.info)
                × (sh.life ≤ℤ sh'.life)))
      × (p.shield ≡ none → (after_hit ≡ none) × (after_explosion ≡ none) × (after_turn ≡ none))
unfolding absorb_hit absorb_explosion shield_init_turn
shields-IsUp p sapper napalm damage h up = elim (Option-cases p.shield) [
  | inl e ↦ rw e (tt, tt, tt, (λ sh k. cc), λ k. (refl, refl, refl))
  | inr (sh, e) ↦
      let up' : IsUp (some sh) = rw e at up in
      rw e (
        IsUp-weaken (hit_cost sapper) sh (hit_cost_pos sapper) up',
        IsUp-weaken damage sh h up',
        IsUp-recharge p.ac_state sh up',
        (λ sh1 k.
            subst
              (λ (x : Shield).
                ((weaken (hit_cost sapper) sh ≡ none) ↔ (x.life ≤ℤ hit_cost sapper))
                × ((weaken damage sh ≡ none) ↔ (x.life ≤ℤ damage))
                × ((sh' : Shield) × (some (recharge p.ac_state sh) ≡ some sh')
                    × (sh'.info ≡ x.info)
                    × (x.life ≤ℤ sh'.life)))
              (some-injective _ _ k)
              (
                weaken-none_iff (hit_cost sapper) sh,
                weaken-none_iff damage sh,
                (
                  recharge p.ac_state sh,
                  refl,
                  (recharge_lem p.ac_state sh up'.1).1,
                  (recharge_lem p.ac_state sh up'.1).0,
                ),
              )),
        λ k. cc,
      )
]

-- An explosion deals no less than nothing and no more than its damage to the tank under a shield
-- that is up; unless it is napalm, the shield loses exactly what the tank is spared. A tank without a
-- shield takes it all. Assumed: the damage is not below zero.
pub absorb_explosion_lem :
    (p : Player) (napalm : Bool) (damage : ℤ)
    → pos 0 ≤ℤ damage
    → IsUp p.shield
    → let (left, p') = absorb_explosion p napalm damage in
      (pos 0 ≤ℤ left)
      × (left ≤ℤ damage)
      × (napalm ≡ false → left -ℤ damage ≡ shield_life p'.shield -ℤ shield_life p.shield)
      × (p.shield ≡ none → left ≡ damage)
unfolding absorb_explosion
absorb_explosion_lem p napalm damage h up = elim (Option-cases p.shield) [
  | inl e ↦ rw e (h, omega arith, (λ k. omega int_laws), λ k. refl)
  | inr (sh, e) ↦
      let up' : IsUp (some sh) = rw e at up in
      let (a, b, c) = undealt_lem napalm damage sh h up'.0 in rw e (a, b, c, λ k. cc)
]
