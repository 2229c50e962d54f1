-- ===== src/Shields.antt =====
-- Shields under fire: `sc_shield_new`, `sc_shield_init_turn`, `sc_shield_absorb_hit` and
-- `sc_shield_absorb_explosion` of sgame/sshield.c. A released shield is `none`. The sapper's factor
-- of 2.0 is exact, so its 700 * 2.0 is 1400. What they do is proved in Shields/Absorb.
pub mod Absorb
pub mod Best
pub mod Choices
mod Tests
use xscorch.Prelude.{ℕ, Bool, true, false, Option, none, some, if◌then◌else◌}
use xscorch.Prelude.Int.{ℤ, pos, ◌+ℤ◌, ◌-ℤ◌, ltb_ℤ, leb_ℤ}
use xscorch.Items.{AccessoryInfo, accessory_is_shield, accessory_state_recharge, has_bit}
use xscorch.Player.{Player, Shield}

abbrev pub recharge_rate : ℤ
recharge_rate = pos 500

-- SC_SHIELD_ABSORB_HIT, and times SC_SHIELD_SAPPER_RATE.
abbrev pub hit_cost : Bool → ℤ
hit_cost true = pos 1400
hit_cost false = pos 700

unfoldable pub shield_new : AccessoryInfo → Option Shield
shield_new acc =
    if accessory_is_shield acc then some (record { life = acc.shield; info = acc }) else none

unfoldable pub recharge : ℕ → Shield → Shield
recharge ac_state sh =
    let life' = sh.life +ℤ recharge_rate in
    if has_bit ac_state accessory_state_recharge
    then record sh { life = if ltb_ℤ sh.info.shield life' then sh.info.shield else life' }
    else sh

unfoldable pub shield_init_turn : Player → Player
unfolding recharge
shield_init_turn p = elim p.shield [
  | none ↦ p
  | some sh ↦ record p { shield = some (recharge p.ac_state sh) }
]

-- `sh->life -= cost`, and the release of a shield that has no life left.
unfoldable pub weaken : ℤ → Shield → Option Shield
weaken cost sh =
    let life' = sh.life -ℤ cost in
    if leb_ℤ life' (pos 0) then none else some (record sh { life = life' })

unfoldable pub absorb_hit : Player → Bool → Bool × Player
unfolding weaken
absorb_hit p sapper = elim p.shield [
  | none ↦ (false, p)
  | some sh ↦ (true, record p { shield = weaken (hit_cost sapper) sh })
]

-- `napalm` stands for `e->type == SC_EXPLOSION_NAPALM`. The answer is the damage left to deal.
unfoldable pub undealt : Bool → ℤ → Shield → ℤ
undealt napalm damage sh =
    let life' = sh.life -ℤ damage in
    if leb_ℤ life' (pos 0) then (if napalm then pos 0 else pos 0 -ℤ life') else pos 0

unfoldable pub absorb_explosion : Player → Bool → ℤ → ℤ × Player
unfolding weaken undealt
absorb_explosion p napalm damage = elim p.shield [
  | none ↦ (damage, p)
  | some sh ↦ (undealt napalm damage sh, record p { shield = weaken damage sh })
]
