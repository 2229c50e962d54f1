-- ===== src/Players/Stocks.antt =====
-- The search for a battery in sgame/splayer.c finds the first that is in stock, and ends.

use xscorch.Prelude.{
  ℕ, ◌<◌, List, Bool, true, false, Option, none, some, length, set, filter, head?,
}
use xscorch.Prelude.Int.{ℤ, pos, ◌-ℤ◌}
use xscorch.Player.{Player}
use xscorch.Items.{AccessoryInfo}
use xscorch.HashList.{Item}
use xscorch.HashList.Keyed.{int_keys}
use xscorch.HashList.Laws.{IsTable}
use xscorch.Registry.{registry_forward}
use xscorch.Goods.{limit_all, itself, GoodsConfig, accessory_goods}
use xscorch.Goods.Listing.{listing}
use xscorch.Goods.Cycle.{IsNumbered}
use xscorch.Players.Batteries.{in_stock, is_battery_of, recharged}

module _ (place : ℤ → ℕ) (config : GoodsConfig AccessoryInfo)
    (h : IsTable int_keys place config.registry.hashlist)
    (numbered : IsNumbered (accessory_goods itself) config limit_all config.registry.hashlist.order)
    (fuel : ℕ) (enough : length config.registry.hashlist.order < fuel) where
  -- The accessories that the rules allow, in order.
  abbrev pub allowed : List (Item ℤ AccessoryInfo)
  allowed = listing (accessory_goods itself) config limit_all registry_forward

  -- The first battery that the player of an index has in stock.
  abbrev pub first_battery : ℕ → Option (Item ℤ AccessoryInfo)
  first_battery index = head? (filter (λ item. is_battery_of index item.value) allowed)

  -- What becomes of a player whose life is low, by the battery that there is.
  abbrev pub after_search : Player → Option AccessoryInfo → Bool × Player × Option AccessoryInfo
  after_search p none = (false, p, none)
  after_search p (some info) = (
    true,
    recharged place config true fuel p,
    some (record info {
      inventories = set info.inventories p.index (in_stock info p.index -ℤ pos 1);
    }),
  )
