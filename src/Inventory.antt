-- ===== src/Inventory.antt =====
-- sgame/sinventory.c: what a player may buy, sell and be awarded, and for how much.
-- A pointer to an item is an `Option`, NULL being `none`; a function that writes through its
-- pointers returns the new player and the new item. Reads of `inventories` at `p->index` are in
-- range when `index` is below the array's length, which the theorems assume.
-- The markups are doubles in the source. Half of an `int` is exact there; `1.30 * n`, rounded to
-- a double and then truncated, is the integer part of 13 n / 10 for every 32-bit n.
pub mod Limits
pub mod Trade
mod Offers
pub mod Awards
mod Tests
use Prim.Native.Nat.{bit_and, bit_or, bit_xor}
use xscorch.Prelude.{
  ℕ, List, Bool, true, false, Option, none, some, ◌&&◌, if◌then◌else◌, get_or, set,
}
use xscorch.Prelude.Int.{ℤ, pos, negsuc, ◌+ℤ◌, ◌-ℤ◌, ◌*ℤ◌, ◌/ℤ◌, ltb_ℤ, leb_ℤ, eqb_ℤ}
use xscorch.Items.{
  WeaponInfo, AccessoryInfo, weapon_is_infinite, accessory_is_infinite, accessory_is_permanent,
}
use xscorch.Player.{Player}

abbrev pub max_items : ℤ
max_items = pos 99

-- `SC_INVENTORY_INFINITE`
abbrev pub infinite : ℤ
infinite = negsuc 0

-- `info->inventories[index]`
abbrev pub stock : List ℤ → ℕ → ℤ
stock inventories index = get_or inventories index (pos 0)

unfoldable pub quantity : ℤ → ℤ → ℤ
unfolding ◌+ℤ◌ ◌-ℤ◌
quantity current bundlesize =
    if leb_ℤ (current +ℤ bundlesize) max_items then bundlesize else max_items -ℤ current

-- The two prices take the fields `price` and `bundle` of the item.
unfoldable pub purchase_price : ℤ → ℤ → ℤ → ℤ
unfolding ◌*ℤ◌ ◌/ℤ◌
purchase_price price bundle count =
    if ltb_ℤ count bundle then (price /ℤ bundle *ℤ count) *ℤ pos 13 /ℤ pos 10 else price

unfoldable pub sale_price : ℤ → ℤ → ℤ → ℤ
unfolding ◌*ℤ◌ ◌/ℤ◌
sale_price price bundle count =
    if ltb_ℤ count bundle then (price /ℤ bundle *ℤ count) /ℤ pos 2 else price /ℤ pos 2

-- `budget >= 0 && cost > budget`
abbrev over_budget : ℤ → ℤ → Bool
over_budget budget cost = leb_ℤ (pos 0) budget && ltb_ℤ budget cost

unfoldable pub can_buy_weapon : Player → Option WeaponInfo → ℤ → Bool
can_buy_weapon p none budget = false
can_buy_weapon p (some info) budget =
    let count = quantity (stock info.inventories p.index) info.bundle in
    let cost = purchase_price info.price info.bundle count in
    if eqb_ℤ count (pos 0)
    then false
    else if ltb_ℤ p.money cost
    then false
    else if over_budget budget cost
    then false
    else true

unfoldable pub buy_weapon : Player → WeaponInfo → Bool × Player × WeaponInfo
buy_weapon p info =
    let count = quantity (stock info.inventories p.index) info.bundle in
    let cost = purchase_price info.price info.bundle count in
    if can_buy_weapon p (some info) infinite
    then (
      true,
      record p { money = p.money -ℤ cost },
      record info {
        inventories = set info.inventories p.index (stock info.inventories p.index +ℤ count);
      },
    )
    else (false, p, info)

unfoldable pub can_buy_accessory : Player → Option AccessoryInfo → ℤ → Bool
can_buy_accessory p none budget = false
can_buy_accessory p (some info) budget =
    let held = stock info.inventories p.index in
    let count = quantity held info.bundle in
    let cost = purchase_price info.price info.bundle count in
    if accessory_is_permanent info && ltb_ℤ (pos 0) held
    then false
    else if eqb_ℤ count (pos 0)
    then false
    else if ltb_ℤ p.money cost
    then false
    else if over_budget budget cost
    then false
    else true

unfoldable pub buy_accessory : Player → AccessoryInfo → Bool × Player × AccessoryInfo
buy_accessory p info =
    let count = quantity (stock info.inventories p.index) info.bundle in
    let cost = purchase_price info.price info.bundle count in
    if can_buy_accessory p (some info) infinite
    then (
      true,
      record p { money = p.money -ℤ cost; ac_state = bit_or p.ac_state info.state },
      record info {
        inventories = set info.inventories p.index (stock info.inventories p.index +ℤ count);
      },
    )
    else (false, p, info)

unfoldable pub can_sell_weapon : Player → Option WeaponInfo → Bool
can_sell_weapon p none = false
can_sell_weapon p (some info) =
    if leb_ℤ (stock info.inventories p.index) (pos 0)
    then false
    else if weapon_is_infinite info
    then false
    else true

-- `count = info->inventories[p->index]; if(count > info->bundle) count = info->bundle;`
abbrev pub sale_count : ℤ → ℤ → ℤ
sale_count held bundle = if ltb_ℤ bundle held then bundle else held

unfoldable pub sell_weapon : Player → WeaponInfo → Bool × Player × WeaponInfo
sell_weapon p info =
    let count = sale_count (stock info.inventories p.index) info.bundle in
    let cost = sale_price info.price info.bundle count in
    if can_sell_weapon p (some info)
    then (
      true,
      record p { money = p.money +ℤ cost },
      record info {
        inventories = set info.inventories p.index (stock info.inventories p.index -ℤ count);
      },
    )
    else (false, p, info)

unfoldable pub can_sell_accessory : Player → Option AccessoryInfo → Bool
can_sell_accessory p none = false
can_sell_accessory p (some info) =
    if leb_ℤ (stock info.inventories p.index) (pos 0)
    then false
    else if accessory_is_infinite info
    then false
    else true

-- `p->ac_state &= ~info->state`, on 32 bits.
abbrev pub clear_bits : ℕ → ℕ → ℕ
clear_bits word bits = bit_and word (bit_xor 0xffff_ffff bits)

unfoldable pub sell_accessory : Player → AccessoryInfo → Bool × Player × AccessoryInfo
sell_accessory p info =
    let count = sale_count (stock info.inventories p.index) info.bundle in
    let cost = sale_price info.price info.bundle count in
    if can_sell_accessory p (some info)
    then (
      true,
      record p { money = p.money +ℤ cost; ac_state = clear_bits p.ac_state info.state },
      record info {
        inventories = set info.inventories p.index (stock info.inventories p.index -ℤ count);
      },
    )
    else (false, p, info)

unfoldable pub award_weapon : WeaponInfo → ℕ → Bool × WeaponInfo
award_weapon info player =
    let count = quantity (stock info.inventories player) info.bundle in
    if leb_ℤ count (pos 0) then (false, info) else (
      true,
      record info {
        inventories = set info.inventories player (stock info.inventories player +ℤ count);
      },
    )
