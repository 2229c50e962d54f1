-- ===== src/Weapons/Track.antt =====
-- The tracking of weapons: `_sc_weapon_track`, `_sc_weapon_track_chain` and `sc_weapon_track_all` of
-- sgame/strack.c. `fuel` bounds the loop over a chain, to which phoenix weapons add as it runs; none
-- says that it ran out, or that sgame/sphoenix.c read through NULL. Drawing is left out.
use xscorch.Prelude.{
  ℕ, zero, suc, List, [], ◌∷◌, ◌++◌, Bool, true, false, ◌&&◌, Option, none, some, if◌then◌else◌,
}
use xscorch.Prelude.Int.{ℤ}
use xscorch.Items.{WeaponInfo, has_bit}
use xscorch.Game.Queue.{Chain}
use xscorch.Weapons.Flight.{Weapon, StepResult, impact, impact_shield, Calls}
use xscorch.Weapons.Phoenix.{PhoenixResult, sizzle, detonate, reset, Split, blow_up, still, phoenix}

abbrev pub weapon_is_liquid : ℕ → Bool
weapon_is_liquid state = has_bit state 0x000200

abbrev pub weapon_is_sapper : ℕ → Bool
weapon_is_sapper state = has_bit state 0x010000

abbrev pub phoenix_is_at_rand : WeaponInfo → Bool
phoenix_is_at_rand info = has_bit info.ph_fl 0x0100

abbrev pub phoenix_is_at_apex : WeaponInfo → Bool
phoenix_is_at_apex info = has_bit info.ph_fl 0x0400

abbrev pub phoenix_is_at_land : WeaponInfo → Bool
phoenix_is_at_land info = has_bit info.ph_fl 0x0800

-- `sc_weapon_track_result`
pub data TrackResult : Type 0 where
  nothing need_recurse detonated sizzled : TrackResult

-- Where the tracking of a weapon leaves it, if it has not been freed, the weapons behind it, the
-- explosions and the rest.
pub record Tracked (W T : Type 0) : Type 0 where
  pub result : TrackResult
  pub kept : Option (Weapon T)
  pub inserted : List (Weapon T)
  pub e : Chain
  pub w : W

module _ {W T : Type 0} (calls : Calls W T) where
  -- The landfall and the release of the weapon.
  abbrev pub gone : TrackResult → Split W T → Tracked W T
  gone result split = record {
    result = result;
    kept = none;
    inserted = split.inserted;
    e = split.e;
    w = calls.landfall split.w split.weapon.tr;
  }

  abbrev pub live : Split W T → Tracked W T
  live split = record {
    result = need_recurse;
    kept = some split.weapon;
    inserted = split.inserted;
    e = split.e;
    w = split.w;
  }

  -- The weapon, where a phoenix has been run before.
  abbrev pub again : Split W T → Split W T → Split W T
  again before split = record split { inserted = split.inserted ++ before.inserted }

  abbrev pub is_impact : StepResult → Bool
  is_impact impact = true
  is_impact impact_shield = true
  is_impact _ = false

  abbrev pub is_sizzle : StepResult → Bool
  is_sizzle StepResult.sizzle = true
  is_sizzle _ = false

  -- The damage to a shield, after which the weapon sizzles.
  unfoldable pub shield_hit : StepResult → W → Weapon T → StepResult × W
  shield_hit impact_shield w wp =
      if weapon_is_liquid wp.state
      then (impact_shield, w)
      else (StepResult.sizzle, calls.absorb_hit w wp.tr (weapon_is_sapper wp.state))
  shield_hit stepres w wp = (stepres, w)

  unfoldable pub explode_or_wait : Split W T → Tracked W T
  unfolding blow_up
  explode_or_wait split = elim split.e [
    | [] ↦
        let exploded =
          blow_up split.w split.weapon [] (calls.get_explosion split.w split.weapon false) in
        gone detonated (record split { e = exploded.e })
    | x ∷ e ↦ live split
  ]

  module _ (lookup : ℤ → Option WeaponInfo) where
    -- The weapon, after the impact, where it is not a phoenix or the phoenix failed.
    abbrev pub after_land : PhoenixResult → Split W T → Tracked W T
    after_land detonate split = gone detonated split
    after_land sizzle split = gone sizzled split
    after_land reset split = live split
    after_land _ split = explode_or_wait split

    unfoldable pub track_impact : Split W T → Option (Tracked W T)
    unfolding explode_or_wait phoenix
    track_impact split =
        if phoenix_is_at_land split.weapon.weaponinfo
        then elim (phoenix calls lookup false split.w split.weapon split.e) [
          | none ↦ none
          | some split' ↦ some (after_land split'.result split')
        ]
        else some (explode_or_wait split)

    abbrev pub after_air :
        PhoenixResult → (Split W T → Option (Tracked W T)) → Split W T → Option (Tracked W T)
    after_air sizzle rest split = some (gone sizzled split)
    after_air detonate rest split = some (gone detonated split)
    after_air _ rest split = rest split

    -- A phoenix in mid-air, which ends the tracking or goes on with `rest`.
    unfoldable pub phoenix_or :
        Bool → (Split W T → Option (Tracked W T)) → Split W T → Option (Tracked W T)
    unfolding phoenix
    phoenix_or now rest split =
        if now
        then elim (phoenix calls lookup false split.w split.weapon split.e) [
          | none ↦ none
          | some split' ↦ after_air split'.result rest (again split split')
        ]
        else rest split

    -- The chance is drawn only for the weapons that it may change.
    unfoldable pub track_rand : Split W T → Option (Tracked W T)
    unfolding phoenix_or
    track_rand split =
        if phoenix_is_at_rand split.weapon.weaponinfo
        then (let (now, w') = calls.chance split.w in
            phoenix_or now (λ s. some (live s)) (record split { w = w' }))
        else some (live split)

    unfoldable pub track_flight : Bool → Split W T → Option (Tracked W T)
    unfolding phoenix_or track_rand
    track_flight goingup split =
        phoenix_or
          (goingup
            && calls.not_rising split.weapon.tr
            && phoenix_is_at_apex split.weapon.weaponinfo)
          track_rand split

    -- What is decided on the result of the step.
    unfoldable pub after_step : StepResult → Bool → Split W T → Option (Tracked W T)
    after_step stepres goingup split =
        if is_impact stepres
        then track_impact split
        else if is_sizzle stepres
        then some (gone sizzled split)
        else track_flight goingup split

    -- The tracking of a weapon that does not wait.
    unfoldable pub track_live : W → Weapon T → Chain → Option (Tracked W T)
    track_live w wp e =
        let (stepres, tr, w') = calls.step w wp in
        let wp' = record wp { tr = tr } in
        let (stepres', w'') = shield_hit stepres w' wp' in
        after_step stepres' (calls.going_up wp.tr) (still w'' wp' e)

    unfoldable pub track : W → Weapon T → Chain → Option (Tracked W T)
    track w wp e =
        if wp.deferring
        then some (live (still w (record wp { deferring = false }) e))
        else track_live w wp e

    -- What a weapon makes of the result for its chain.
    unfoldable pub join : TrackResult → TrackResult → TrackResult
    join result detonated = detonated
    join nothing need_recurse = need_recurse
    join result _ = result

    abbrev pub keep : Option (Weapon T) → List (Weapon T) → List (Weapon T)
    keep none chain = chain
    keep (some wp) chain = wp ∷ chain

    -- `result` is what the weapons before made of it.
    unfoldable pub track_chain :
        List (Weapon T)
        → ℕ
        → TrackResult
        → W
        → Chain
        → Option (TrackResult × List (Weapon T) × Chain × W)
    unfolding track join
    track_chain [] fuel result w e = some (result, [], e, w)
    track_chain (wp ∷ chain) zero result w e = none
    track_chain (wp ∷ chain) (suc fuel) result w e = elim (track w wp e) [
      | none ↦ none
      | some t ↦ elim (track_chain (t.inserted ++ chain) fuel (join result t.result) t.w t.e) [
        | none ↦ none
        | some (result', chain', e', w') ↦ some (result', keep t.kept chain', e', w')
      ]
    ]

    -- What a player's chain makes of the result for all.
    unfoldable pub track_all :
        List (List (Weapon T))
        → ℕ
        → TrackResult
        → W
        → Chain
        → Option (TrackResult × List (List (Weapon T)) × Chain × W)
    unfolding track_chain join
    track_all [] fuel result w e = some (result, [], e, w)
    track_all (weapons ∷ players) fuel result w e = elim (track_chain weapons fuel nothing w e) [
      | none ↦ none
      | some (r, weapons', e', w') ↦ elim (track_all players fuel (join result r) w' e') [
        | none ↦ none
        | some (result', players', e'', w'') ↦ some (result', weapons' ∷ players', e'', w'')
      ]
    ]
