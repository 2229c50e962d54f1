-- ===== src/Players/Batteries.antt =====
-- Batteries in sgame/splayer.c, and the search for a good in a player's inventory. Like the
-- functions of Inventory, those that use up a good answer with the good as it is then. `fuel`
-- bounds the walks over the registry, and `malloc` says whether there is memory.
use xscorch.Prelude.{
  ℕ, zero, suc, Bool, true, false, Option, none, some, ◌&&◌, if◌then◌else◌, get_or, set,
}
use xscorch.Prelude.Int.{ℤ, pos, ◌+ℤ◌, ◌-ℤ◌, ◌*ℤ◌, ◌/ℤ◌, ltb_ℤ, leb_ℤ}
use xscorch.Items.{AccessoryInfo, has_bit}
use xscorch.Player.{Player}
use xscorch.Goods.{limit_all, itself, GoodsConfig, accessory_goods, count, first, next}
use xscorch.Players.Controls.{at_most}

-- SC_ACCESSORY_STATE_BATTERY
abbrev pub accessory_state_battery : ℕ
accessory_state_battery = 0x200000

-- SC_PLAYER_MAX_LIFE, and SC_BATTERY_RECHARGE_PERCT
abbrev pub max_life : ℤ
max_life = pos 1000

abbrev pub recharge_percentage : ℤ
recharge_percentage = pos 1

abbrev pub in_stock : AccessoryInfo → ℕ → ℤ
in_stock info index = get_or info.inventories index (pos 0)

abbrev pub is_battery_of : ℕ → AccessoryInfo → Bool
is_battery_of index info =
    has_bit info.state accessory_state_battery && ltb_ℤ (pos 0) (in_stock info index)

module _ (place : ℤ → ℕ) (config : GoodsConfig AccessoryInfo) (malloc : Bool) (fuel : ℕ) where
  -- The loop over the goods, with the rounds left, from what `first` or `next` found; none stands
  -- for reading a good that is NULL, and for fuel that runs out.
  unfoldable pub search_goods :
      (AccessoryInfo → Bool) → ℕ → Option (Option AccessoryInfo) → Option (Option AccessoryInfo)
  unfolding next
  search_goods test zero found = some none
  search_goods test (suc rounds) none = none
  search_goods test (suc rounds) (some none) = none
  search_goods test (suc rounds) (some (some info)) =
      let rest =
        search_goods test rounds (next (accessory_goods itself) config place fuel info limit_all) in
      if test info then some (some info) else rest

  unfoldable pub find_battery : ℕ → Option (Option AccessoryInfo)
  unfolding search_goods count first
  find_battery index = elim (count (accessory_goods itself) config malloc fuel limit_all) [
    | none ↦ none
    | some rounds ↦
        search_goods (is_battery_of index) rounds
          (first (accessory_goods itself) config fuel limit_all)
  ]

  unfoldable pub battery_count : ℕ → Option ℤ
  unfolding find_battery
  battery_count index = elim (find_battery index) [
    | none ↦ none
    | some found ↦ elim found [ none ↦ some (pos 0) | some info ↦ some (in_stock info index) ]
  ]

  -- A life after a battery, up to the most there is.
  abbrev pub recharged : Player → Player
  recharged p =
      let maxlife = max_life *ℤ p.tank.hardness in
      record p { life = at_most maxlife (p.life +ℤ recharge_percentage *ℤ maxlife /ℤ pos 100) }

  -- The answer, the player, and the battery that was used.
  unfoldable pub activate_battery : Player → Option (Bool × Player × Option AccessoryInfo)
  unfolding find_battery
  activate_battery p =
      let found = find_battery p.index in
      if leb_ℤ (max_life *ℤ p.tank.hardness) p.life then some (false, p, none) else elim found [
        | none ↦ none
        | some battery ↦ elim battery [
          | none ↦ some (false, p, none)
          | some info ↦ some (
            true,
            recharged p,
            some (record info {
              inventories = set info.inventories p.index (in_stock info p.index -ℤ pos 1);
            }),
          )
        ]
      ]
