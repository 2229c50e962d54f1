-- ===== src/Inventory/Tests.antt =====
-- Runs and instances for sgame/sinventory.c.
use xscorch.Prelude.{ℕ, [], ◌∷◌, true, false, none, some, ◌≡◌, ◌≢◌, ◌↔◌, refl, arith, set}
use xscorch.Prelude.Int.{ℤ, pos, negsuc, ◌+ℤ◌, ◌-ℤ◌, ◌/ℤ◌, ◌≤ℤ◌, ◌<ℤ◌}
use xscorch.Items.{WeaponInfo, AccessoryInfo}
use xscorch.Player.{Player, TankProfile, human}
use xscorch.Inventory.{
  max_items, infinite, stock, quantity, purchase_price, can_buy_weapon, can_buy_accessory,
  can_sell_accessory, buy_weapon, buy_accessory, sell_weapon, sell_accessory, award_weapon,
}
use xscorch.Inventory.Limits.{
  AllCounts, buy_weapon-AllCounts, accessory-AllCounts, sell_weapon-AllCounts,
}
use xscorch.Inventory.Offers.{IsAffordable, buy_weapon_lem}
use xscorch.Inventory.Trade.{sell_weapon-buy_weapon, can_buy_accessory-buy_accessory}
use xscorch.Inventory.Awards.{award_weapon_lem}

abbrev tank : TankProfile
tank = record {
  radius = pos 5;
  shelfsize = pos 3;
  efficiency = pos 100;
  hardness = pos 100;
  mobile = true;
}

abbrev buyer : Player
buyer = record {
  index = 1;
  tank = tank;
  aitype = human;
  turret = pos 0;
  power = pos 0;
  life = pos 1000;
  dead = false;
  numwins = pos 0;
  kills = pos 0;
  suicides = pos 0;
  killedby = negsuc 0;
  money = pos 5000;
  armed = false;
  contacttriggers = false;
  ac_state = 0;
  shield = none;
}

abbrev missile : WeaponInfo
missile = record {
  ident = pos 2;
  armslevel = pos 0;
  price = pos 2000;
  bundle = pos 10;
  state = 0;
  scatter = pos 0;
  children = pos 0;
  ph_ch = pos 0;
  ph_fl = 0;
  inventories = pos 0 ∷ pos 5 ∷ pos 95 ∷ [];
  useless = false;
  indirect = false;
}

abbrev solar_panel : AccessoryInfo
solar_panel = record {
  ident = pos 7;
  armslevel = pos 0;
  price = pos 2500;
  bundle = pos 1;
  shield = pos 0;
  fuel = pos 0;
  repulsion = pos 0;
  state = 0x400004;
  inventories = pos 0 ∷ pos 0 ∷ pos 0 ∷ [];
  useless = false;
  indirect = false;
}

-- A split bundle: four of ten, at 1.3 times the unit price.
split_bundle : quantity (pos 95) (pos 10) ≡ pos 4
unfolding quantity
split_bundle = refl

split_price : purchase_price (pos 2000) (pos 10) (pos 4) ≡ pos 1040
unfolding purchase_price
split_price = refl

buy_missiles : (buy_weapon buyer missile).2.inventories ≡ pos 0 ∷ pos 15 ∷ pos 95 ∷ []
unfolding buy_weapon can_buy_weapon quantity purchase_price
buy_missiles = refl

sell_panel :
    (sell_accessory
      (record buyer { ac_state = 0x400006 })
      (record solar_panel { inventories = pos 0 ∷ pos 2 ∷ [] })).1.ac_state
    ≡ 2
unfolding sell_accessory can_sell_accessory
sell_panel = refl

buy_weapon-AllCounts_example :
    AllCounts (buy_weapon buyer missile).2.inventories
    × (pos 0 ≤ℤ buyer.money → pos 0 ≤ℤ (buy_weapon buyer missile).1.money)
buy_weapon-AllCounts_example = buy_weapon-AllCounts buyer missile (omega arith) (omega arith)

accessory-AllCounts_example :
    (AllCounts (buy_accessory buyer solar_panel).2.inventories
      × (pos 0 ≤ℤ buyer.money → pos 0 ≤ℤ (buy_accessory buyer solar_panel).1.money))
    × (AllCounts (sell_accessory buyer solar_panel).2.inventories
        × (buyer.money ≤ℤ (sell_accessory buyer solar_panel).1.money))
accessory-AllCounts_example = accessory-AllCounts buyer solar_panel (omega arith) (omega arith)

sell_weapon-AllCounts_example :
    AllCounts (sell_weapon buyer missile).2.inventories
    × (buyer.money ≤ℤ (sell_weapon buyer missile).1.money)
sell_weapon-AllCounts_example = sell_weapon-AllCounts buyer missile (omega arith) (omega arith)

buy_weapon_lem_example :
    ((can_buy_weapon buyer (some missile) (pos 1500) ≡ true) ↔ (
      (n : ℤ) × IsAffordable buyer missile n
      × (pos 0 ≤ℤ pos 1500 → purchase_price (pos 2000) (pos 10) n ≤ℤ pos 1500)))
    × ((n : ℤ)
        → IsAffordable buyer missile n
        → buy_weapon buyer missile ≡ (
          true,
          record buyer { money = pos 5000 -ℤ purchase_price (pos 2000) (pos 10) n },
          record missile { inventories = set (pos 0 ∷ pos 5 ∷ pos 95 ∷ []) 1 (pos 5 +ℤ n) },
        ))
    × (((n : ℤ) → ¬ IsAffordable buyer missile n)
        → buy_weapon buyer missile ≡ (false, buyer, missile))
buy_weapon_lem_example = buy_weapon_lem buyer missile (pos 1500) (omega arith) (omega arith)

sell_weapon-buy_weapon_example :
    let (_, p1, info1) = buy_weapon buyer missile in
    let (done, p2, info2) = sell_weapon p1 info1 in
    (done ≡ true)
    × (info2.inventories ≡ pos 0 ∷ pos 5 ∷ pos 95 ∷ [])
    × (p2.money ≡ pos 5000 -ℤ pos 2000 +ℤ pos 2000 /ℤ pos 2)
unfolding ◌+ℤ◌
sell_weapon-buy_weapon_example =
    sell_weapon-buy_weapon buyer missile (omega arith) (omega arith) (omega arith) (omega arith)
      (omega arith) (omega arith)

can_buy_accessory-buy_accessory_example :
    let (_, p1, info1) = buy_accessory buyer solar_panel in
    can_buy_accessory p1 (some info1) infinite ≡ false
unfolding buy_accessory can_buy_accessory quantity purchase_price
can_buy_accessory-buy_accessory_example =
    can_buy_accessory-buy_accessory buyer solar_panel infinite (omega arith) (omega arith)
      (omega arith) refl refl

award_weapon_lem_example :
    let (done, info1) = award_weapon missile 2 in
    ((done ≡ true) ↔ ((pos 95 <ℤ max_items) × (pos 0 <ℤ pos 10)))
    × AllCounts info1.inventories
    × ((other : ℕ) → 2 ≢ other → stock info1.inventories other ≡ stock missile.inventories other)
award_weapon_lem_example = award_weapon_lem missile 2 (omega arith) (omega arith)
