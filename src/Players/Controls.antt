-- ===== src/Players/Controls.antt =====
-- The controls of a tank in sgame/splayer.c: power, turret and contact triggers.
use xscorch.Prelude.{ℕ, zero, suc, Bool, not, ◌&&◌, if◌then◌else◌}
use xscorch.Prelude.Int.{ℤ, pos, ◌+ℤ◌, ◌-ℤ◌, ltb_ℤ, eqb_ℤ, pos_part, neg_part}
use xscorch.Items.{has_bit}
use xscorch.Player.{Player}
use xscorch.Players.{int_round_div, max_power}

-- `if(x > limit) x = limit;` and `if(x < 0) x = 0;`
abbrev pub at_most : ℤ → ℤ → ℤ
at_most limit x = if ltb_ℤ limit x then limit else x

abbrev pub at_least_0 : ℤ → ℤ
at_least_0 x = if ltb_ℤ x (pos 0) then pos 0 else x

-- The power that the life of a player allows.
abbrev pub life_power : Player → ℤ
life_power p = int_round_div p.life p.tank.hardness

unfoldable pub advance_power : Player → ℤ → Player
advance_power p delta = record p {
  power = at_least_0 (at_most (life_power p) (at_most max_power (p.power +ℤ delta)));
}

unfoldable pub set_power : Player → ℤ → Player
set_power p power =
    let power' = at_most (life_power p) (at_most max_power (at_least_0 power)) in
    if eqb_ℤ p.power power' then p else record p { power = power' }

-- The bounds on the power at the beginning of a turn; the shields are recharged then.
unfoldable pub limit_power : Player → Player
limit_power p = record p { power = at_least_0 (at_most (life_power p) p.power) }

-- `while(turret > 180) turret -= 180;` and `while(turret < 0) turret += 180;`, on fuel.
unfoldable pub turn_down : ℕ → ℤ → ℤ
turn_down zero turret = turret
turn_down (suc fuel) turret =
    let rest = turn_down fuel (turret -ℤ pos 180) in if ltb_ℤ (pos 180) turret then rest else turret

unfoldable pub turn_up : ℕ → ℤ → ℤ
turn_up zero turret = turret
turn_up (suc fuel) turret =
    let rest = turn_up fuel (turret +ℤ pos 180) in if ltb_ℤ turret (pos 0) then rest else turret

-- Each round brings the angle at least one closer, so its distance from zero is fuel enough.
unfoldable pub advance_turret : Player → ℤ → Player
unfolding turn_down turn_up
advance_turret p delta =
    let turret1 = p.turret +ℤ delta in
    let turret2 = turn_down (pos_part turret1) turret1 in
    record p { turret = turn_up (neg_part turret2) turret2 }

unfoldable pub set_turret : Player → ℤ → Player
unfolding turn_down turn_up
set_turret p turret =
    let turret1 = turn_up (neg_part turret) turret in
    let turret2 = turn_down (pos_part turret1) turret1 in
    if eqb_ℤ p.turret turret2 then p else record p { turret = turret2 }

-- SC_ACCESSORY_STATE_TRIGGER
abbrev pub accessory_state_trigger : ℕ
accessory_state_trigger = 0x080000

unfoldable pub set_contact_triggers : Player → Bool → Player
set_contact_triggers p flag = record p {
  contacttriggers = flag && has_bit p.ac_state accessory_state_trigger;
}

unfoldable pub toggle_contact_triggers : Player → Player
unfolding set_contact_triggers
toggle_contact_triggers p = set_contact_triggers p (not p.contacttriggers)
