-- ===== src/Ai/Tests.antt =====
-- Computer players in a shop with two weapons and two accessories.
use xscorch.Prelude.{Bool, ℕ, List, [], ◌∷◌, true, false, Option, none, some, ◌≡◌, refl, arith}
use xscorch.Prelude.Int.{ℤ, pos, negsuc, ◌/ℤ◌, ltb_ℤ, ◌+ℤ◌, ◌-ℤ◌}
use xscorch.Items.{WeaponInfo, AccessoryInfo}
use xscorch.Player.{Player, human}
use xscorch.HashList.{Item, find}
use xscorch.HashList.Keyed.{int_keys}
use xscorch.HashList.Laws.{IsTable}
use xscorch.Goods.{GoodsConfig, count, first, lookup}
use xscorch.Ai.{sort_outer, Shop, Market, Judgement, annihilater}
use xscorch.Inventory.{can_buy_accessory, can_buy_weapon, quantity, purchase_price}
use xscorch.Ai.Buy.{
  exchange_ints, buy_contact_triggers, buy_by_statistic, buy_auto_defense, buy_best_shields,
  buy_batteries, buy_shield_sappers,
}
use xscorch.Ai.Shopping.{player_buy, annihilate}
use xscorch.Ai.Purchases.{IsReady}
use xscorch.Ai.Buyers.{player_buy-IsReady}
use xscorch.Ai.Ranking.{ranks, exchange_ints_lem, sort_outer_lem}
use xscorch.Players.Shuffles.{occurs}
use xscorch.Players.Sorted.{IsOrdered}

abbrev buyer : Player
buyer = record {
  index = 0;
  tank = record {
    radius = pos 5;
    shelfsize = pos 3;
    efficiency = pos 100;
    hardness = pos 100;
    mobile = true;
  };
  aitype = human;
  turret = pos 0;
  power = pos 0;
  life = pos 1000;
  dead = false;
  numwins = pos 0;
  kills = pos 0;
  suicides = pos 0;
  killedby = negsuc 0;
  money = pos 5000;
  armed = false;
  contacttriggers = false;
  ac_state = 0;
  shield = none;
}

abbrev weapon_at : ℕ → WeaponInfo
weapon_at a = record {
  ident = pos a;
  armslevel = pos 0;
  price = pos 2000;
  bundle = pos 5;
  state = 0;
  scatter = pos 0;
  children = pos 0;
  ph_ch = pos 0;
  ph_fl = 0;
  inventories = pos 97 ∷ [];
  useless = false;
  indirect = false;
}

-- A shield of that many points; it is also a battery.
abbrev accessory_at : ℕ → AccessoryInfo
accessory_at a = record {
  ident = pos a;
  armslevel = pos 0;
  price = pos 300;
  bundle = pos 1;
  shield = pos a;
  fuel = pos 0;
  repulsion = pos 0;
  state = 0x210000;
  inventories = pos 0 ∷ [];
  useless = false;
  indirect = false;
}

-- Goods are at the addresses that are their numbers.
abbrev goods : List (Item ℤ ℕ)
goods =
    record { id = 10; class = 2; key = pos 0; value = 0 }
    ∷ record { id = 11; class = 2; key = pos 1; value = 1 }
    ∷ []

abbrev one_chain : ℤ → ℕ
one_chain key = 0

abbrev config : GoodsConfig ℕ
config = record {
  armslevel = pos 4;
  uselessitems = false;
  registry = record {
    hashlist = record { order = goods; hash = goods ∷ [] };
    nextclass = 3;
    nextkey = 2;
  };
  registryclass = 2;
}

goods-IsTable : IsTable int_keys one_chain config.registry.hashlist
goods-IsTable = record {
  chained = λ key. refl;
  keyed = λ key. ground arith;
  addressed = λ id. ground arith;
  placed = λ key. omega arith;
}

abbrev market : Market
market = record {
  weapon_config = config;
  accessory_config = config;
  synchronous = false;
  tunneling = true;
  memory = true;
}

abbrev shop : Shop
shop = record { p = buyer; weapons = weapon_at; accessories = accessory_at; budget = pos 0 }

shop-IsReady : IsReady market shop
shop-IsReady = record {
  solvent = omega arith;
  weapons_held = λ a. ((omega arith, omega arith), tt);
  weapons_priced = λ a. (omega arith, omega arith);
  accessories_held = λ a. ((omega arith, omega arith), tt);
  accessories_priced = λ a. (omega arith, omega arith);
  weapons_numbered = (refl, refl, (refl, refl, tt));
  accessories_numbered = (refl, refl, (refl, refl, tt));
}

-- Scores that are stocks and prices.
abbrev judgement : Judgement ℤ
judgement = record {
  deadly = λ p info. true;
  yields = λ p info. true;
  yield = λ p info. info.ident;
  econ_yield = λ p info. info.price;
  precision_yield = λ p info. info.price;
  above = λ x y. ltb_ℤ y x;
  exchanged = λ x y. (y, x);
  budget = λ s. s.p.money;
  most_of = λ money. money /ℤ pos 2;
}

player_buy-IsReady_example :
    (s : Shop) × (player_buy judgement market one_chain 3 annihilater shop ≡ some s)
    × IsReady market s
player_buy-IsReady_example =
    player_buy-IsReady judgement market one_chain 3 goods-IsTable goods-IsTable (omega arith)
      (omega arith) annihilater shop shop-IsReady

-- What is left of the money, and of each good.
abbrev left : Option Shop → Option (ℤ × List ℤ × List ℤ × List ℤ)
left none = none
left (some s) = some (
  s.p.money,
  (s.weapons 1).inventories,
  (s.accessories 0).inventories,
  (s.accessories 1).inventories,
)

annihilater_buys :
    left (player_buy judgement market one_chain 3 annihilater shop)
    ≡ some (pos 3360, pos 99 ∷ [], pos 1 ∷ [], pos 1 ∷ [])
unfolding player_buy annihilate buy_contact_triggers count first can_buy_accessory quantity
    purchase_price find buy_by_statistic buy_auto_defense lookup can_buy_weapon buy_best_shields
    buy_batteries buy_shield_sappers
annihilater_buys = refl

-- Idents with their scores.
abbrev scored : List (ℤ × ℤ)
scored = (pos 0, pos 30) ∷ (pos 1, pos 10) ∷ (pos 2, pos 20) ∷ (pos 3, pos 10) ∷ []

abbrev higher : ℤ → ℤ → Bool
higher x y = ltb_ℤ y x

higher_trans : (x y z : ℤ) → higher x y ≡ false → higher y z ≡ false → higher x z ≡ false
higher_trans x y z h k = ground arith

higher_not_both : (x y : ℤ) → higher x y ≡ true → higher y x ≡ false
higher_not_both x y h = ground arith

sort_outer_lem_example :
    IsOrdered (ranks higher) (sort_outer higher exchange_ints 4 0 scored)
    × ((test : ℤ × ℤ → Bool)
        → occurs test (sort_outer higher exchange_ints 4 0 scored) ≡ occurs test scored)
sort_outer_lem_example =
    sort_outer_lem higher exchange_ints exchange_ints_lem higher_trans higher_not_both scored

ranked :
    sort_outer higher exchange_ints 4 0 scored
    ≡ (pos 1, pos 10) ∷ (pos 3, pos 10) ∷ (pos 2, pos 20) ∷ (pos 0, pos 30) ∷ []
unfolding sort_outer exchange_ints ◌-ℤ◌ ◌+ℤ◌
ranked = refl
