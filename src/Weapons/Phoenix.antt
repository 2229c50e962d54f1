-- ===== src/Weapons/Phoenix.antt =====
-- The actions of phoenix weapons and their dispatch: `_sc_phoenix_chain`, `_sc_phoenix_spider`,
-- `_sc_phoenix_scatter`, `_sc_phoenix_convert`, `_sc_phoenix_detonate` and `sc_phoenix` of
-- sgame/sphoenix.c. None says that the code reads through NULL, or frees what it never set: a child
-- that is not registered, and the first explosion of a spider when there is no memory for it.
use xscorch.Prelude.{
  ℕ, zero, suc, List, [], ◌∷◌, ◌++◌, Bool, true, false, ◌||◌, Option, none, some, if◌then◌else◌,
}
use xscorch.Prelude.Int.{ℤ, pos, pos_part, ◌+ℤ◌, ◌/ℤ◌, leb_ℤ}
use xscorch.Items.{WeaponInfo, has_bit}
use xscorch.Game.Queue.{Expl, Chain, expl_add}
use xscorch.Weapons.{
  phoenix_is_detonate, phoenix_is_chain, phoenix_is_spider, phoenix_is_scatter, phoenix_is_convert,
}
use xscorch.Weapons.Flight.{Weapon, TrajectoryType, roller, digger, Calls, weapon_new}

pub data PhoenixResult : Type 0 where
  no_action failure sizzle detonate reset : PhoenixResult

abbrev pub is_failure : PhoenixResult → Bool
is_failure failure = true
is_failure _ = false

abbrev pub is_detonate : PhoenixResult → Bool
is_detonate detonate = true
is_detonate _ = false

abbrev pub is_reset : PhoenixResult → Bool
is_reset reset = true
is_reset _ = false

abbrev pub add_leg : Option Expl → Chain → Chain
add_leg none e = e
add_leg (some cure) e = expl_add e (cure ∷ [])

-- Where an action leaves the weapon, the weapons that it hung behind it, and the explosions.
pub record Split (W T : Type 0) : Type 0 where
  pub result : PhoenixResult
  pub weapon : Weapon T
  pub inserted : List (Weapon T)
  pub e : Chain
  pub w : W

module _ {W T : Type 0} where
  abbrev pub unless_out : Split W T → Split W T → PhoenixResult → Split W T
  unless_out split next reset = next
  unless_out split next _ = split

  abbrev pub still : W → Weapon T → Chain → Split W T
  still w wp e = record { result = no_action; weapon = wp; inserted = []; e = e; w = w }

  -- `sc_expl_add` of an explosion that there may be no memory for: DETONATE, or FAILURE.
  unfoldable pub blow_up : W → Weapon T → Chain → Option Expl → Split W T
  unfolding expl_add
  blow_up w wp e none = record (still w wp e) { result = failure }
  blow_up w wp e (some expl) = record (still w wp e) {
    result = detonate;
    e = expl_add e (expl ∷ []);
  }

module _ {W T : Type 0} (calls : Calls W T) (lookup : ℤ → Option WeaponInfo) where
  unfoldable pub phoenix_chain : W → Weapon T → Chain → Option (Split W T)
  unfolding expl_add
  phoenix_chain w wp e =
      if leb_ℤ wp.weaponinfo.children wp.children
      then some (still w wp e)
      else let wp' = record wp { tr = calls.surface w wp.tr } in
        let ph_wp =
          record (weapon_new wp.weaponinfo (calls.bounce w wp') wp.triggered wp.playerid) {
            exp_res = suc wp.exp_res;
            deferring = true;
            children = wp.children +ℤ pos 1;
          } in
        let split = record (still w wp' e) { inserted = ph_wp ∷ [] } in
        elim (calls.get_explosion w wp' false) [
          | none ↦ some (record split { result = failure })
          | some expl ↦ elim (lookup wp.weaponinfo.ph_ch) [
            | none ↦ none
            | some ph_i ↦ some (record split {
              result = detonate;
              e = expl_add e (calls.scaled w wp' ph_i expl ∷ []);
            })
          ]
        ]

  -- The legs of a spider; a leg without a place is given up.
  unfoldable pub phoenix_legs : WeaponInfo → ℕ → W → Weapon T → Chain → Split W T
  unfolding expl_add
  phoenix_legs ph_i zero w wp e = record (still w wp e) { result = detonate }
  phoenix_legs ph_i (suc count) w wp e =
      let (cure, w') = calls.leg w wp ph_i in
      elim cure [
        | none ↦ record (still w' wp e) { result = failure }
        | some found ↦ phoenix_legs ph_i count w' wp (add_leg found e)
      ]

  unfoldable pub phoenix_spider : W → Weapon T → Chain → Option (Split W T)
  unfolding phoenix_legs expl_add
  phoenix_spider w wp e = elim (lookup wp.weaponinfo.ph_ch) [
    | none ↦ none
    | some ph_i ↦
        let half = wp.weaponinfo.children /ℤ pos 2 in
        let (more, w') = calls.lrand w half in
        elim (calls.get_explosion w' wp false) [
          | none ↦ none
          | some expl ↦
              some (phoenix_legs ph_i (pos_part (half +ℤ more)) w' wp (expl_add e (expl ∷ [])))
        ]
  ]

  -- The scattered weapons, from the first on.
  unfoldable pub phoenix_children : WeaponInfo → ℕ → W → Weapon T → List (Weapon T)
  unfolding weapon_new
  phoenix_children ph_i zero w wp = []
  phoenix_children ph_i (suc ph_count) w wp =
      weapon_new ph_i (calls.scattered w wp (pos (suc ph_count))) wp.triggered wp.playerid
      ∷ phoenix_children ph_i ph_count w wp

  unfoldable pub phoenix_scatter : W → Weapon T → Chain → Option (Split W T)
  unfolding phoenix_children
  phoenix_scatter w wp e = elim (lookup wp.weaponinfo.ph_ch) [
    | none ↦ none
    | some ph_i ↦ some (record (still w wp e) {
      result = sizzle;
      inserted = phoenix_children ph_i (pos_part wp.weaponinfo.children) w wp;
    })
  ]

  unfoldable pub convert_to : TrajectoryType → W → Weapon T → Chain → Split W T
  unfolding blow_up
  convert_to type w wp e =
      if calls.is_converted type wp.tr
      then still w wp e
      else let (converted, tr, w') = calls.convert w wp type in
        let wp' = record wp { tr = tr } in
        if converted
        then record (still w' wp' e) { result = reset }
        else blow_up w' wp' e (calls.get_explosion w' wp' false)

  -- The step for diggers is reached where there was none for rollers, or it has converted.
  unfoldable pub convert_digger : Split W T → Split W T
  unfolding convert_to
  convert_digger split =
      if has_bit split.weapon.state 0x008000
      then convert_to digger split.w split.weapon split.e
      else split

  unfoldable pub phoenix_convert : W → Weapon T → Chain → Option (Split W T)
  unfolding convert_to convert_digger
  phoenix_convert w wp e =
      if has_bit wp.state 0x004000
      then (let split = convert_to roller w wp e in
          some (unless_out split (convert_digger split) split.result))
      else some (convert_digger (still w wp e))

  unfoldable pub phoenix_detonate : W → Weapon T → Chain → Bool → Option (Split W T)
  unfolding blow_up
  phoenix_detonate w wp e at_tank = some (blow_up w wp e (calls.get_explosion w wp at_tank))

  -- One `if` of the dispatch: an action that the weapon has is run where the last one left it, and
  -- the results named by `out` end the dispatch.
  unfoldable pub stage :
      Bool
      → (PhoenixResult → Bool)
      → (W → Weapon T → Chain → Option (Split W T))
      → (Split W T → Option (Split W T))
      → Split W T
      → Option (Split W T)
  stage enabled out action rest split =
      if enabled
      then elim (action split.w split.weapon split.e) [
        | none ↦ none
        | some next ↦
            let next' = record next { inserted = next.inserted ++ split.inserted } in
            if is_failure next.result || out next.result then some next' else rest next'
      ]
      else rest split

  -- "All of the remaining operations require children."
  unfoldable pub phoenix_remaining : WeaponInfo → Split W T → Option (Split W T)
  unfolding stage phoenix_convert phoenix_chain phoenix_spider phoenix_scatter
  phoenix_remaining info s =
      if leb_ℤ info.ph_ch (pos 0) || leb_ℤ info.children (pos 0)
      then some s
      else stage (phoenix_is_convert info) is_reset phoenix_convert
          (stage (phoenix_is_chain info) is_detonate phoenix_chain (
            stage (phoenix_is_spider info) is_detonate phoenix_spider
              (stage (phoenix_is_scatter info) is_detonate phoenix_scatter (λ t. some t))))
          s

  unfoldable pub phoenix : Bool → W → Weapon T → Chain → Option (Split W T)
  unfolding stage phoenix_detonate phoenix_remaining
  phoenix at_tank w wp e =
      stage (phoenix_is_detonate wp.weaponinfo) is_detonate
        (λ w wp e. phoenix_detonate w wp e at_tank) (phoenix_remaining wp.weaponinfo) (still w wp e)
