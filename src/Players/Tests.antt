-- ===== src/Players/Tests.antt =====
-- A tank's controls and an explosion that kills, on concrete players.
use mathlib.Core.Path.{◌≡◌, refl}
use xscorch.Prelude.{◌+◌}
use xscorch.Prelude.Int.{◌*ℤ◌, ◌/ℤ◌}
use xscorch.Items.{AccessoryInfo}
use xscorch.HashList.{Item}
use xscorch.Goods.{GoodsConfig}
use xscorch.Prelude.{ℕ, List, zero, suc, [], ◌∷◌, Bool, true, false, none, arith, map, length}
use xscorch.Prelude.Int.{ℤ, pos, negsuc, ◌+ℤ◌, ◌-ℤ◌, ◌*ℤ◌, ◌/ℤ◌}
use xscorch.Player.{Player, TankProfile, human, is_alive}
use xscorch.Shields.{absorb_explosion}
use xscorch.Land.Coords.{SameColumn}
use xscorch.Players.{int_round_div, max_power}
use xscorch.Players.Controls.{
  life_power, advance_power, set_power, advance_turret, set_turret, turn_down, turn_up,
}
use xscorch.Players.Angles.{IsWithin, power_lem, turret_lem}
use xscorch.Players.Damage.{
  Economics, Blast, hurt, credit_death, deal, damage_slot, damage_all, update,
}
use xscorch.Players.Sums.{accounts}
use xscorch.Players.Accounts.{damage_all-accounts}
use xscorch.Prelude.Int.{ltb_ℤ}
use xscorch.Players.Orders.{
  score, pick, exchange, shuffle_with, shuffle, random_order, compare_at, compare_with, sort_from,
  winner_order, loser_order,
}
use xscorch.Players.Shuffles.{occurs}
use xscorch.Players.Sorted.{IsOrdered, winner_order_lem}

abbrev tank : TankProfile
tank = record {
  radius = pos 5;
  shelfsize = pos 3;
  efficiency = pos 100;
  hardness = pos 100;
  mobile = true;
}

abbrev first_tank : Player
first_tank = record {
  index = 0;
  tank = tank;
  aitype = human;
  turret = pos 170;
  power = pos 400;
  life = pos 55000;
  dead = false;
  numwins = pos 0;
  kills = pos 0;
  suicides = pos 0;
  killedby = negsuc 0;
  money = pos 5000;
  armed = false;
  contacttriggers = false;
  ac_state = 0;
  shield = none;
}

abbrev second_tank : Player
second_tank = record first_tank { index = 1; life = pos 20000 }

-- 550 of 1000 life units are left, and so is the power.
power_left : (advance_power first_tank (pos 300)).power ≡ pos 550
unfolding advance_power int_round_div ◌+ℤ◌ ◌-ℤ◌ ◌*ℤ◌ ◌/ℤ◌
power_left = refl

turned : (advance_turret first_tank (pos 200)).turret ≡ pos 10
unfolding advance_turret turn_down turn_up ◌+ℤ◌ ◌-ℤ◌
turned = refl

power_lem_example :
    (advance_power first_tank (pos 300) ≡ set_power first_tank (pos 400 +ℤ pos 300))
    × IsWithin (life_power first_tank) (set_power first_tank (pos 400 +ℤ pos 300)).power
    × IsWithin max_power (set_power first_tank (pos 400 +ℤ pos 300)).power
    × (record (set_power first_tank (pos 400 +ℤ pos 300)) { power = pos 400 } ≡ first_tank)
unfolding int_round_div ◌+ℤ◌ ◌-ℤ◌ ◌*ℤ◌ ◌/ℤ◌
power_lem_example = power_lem first_tank (pos 300) (omega arith)

turret_lem_example :
    (advance_turret first_tank (pos 200) ≡ set_turret first_tank (pos 170 +ℤ pos 200))
    × IsWithin (pos 180) (advance_turret first_tank (pos 200)).turret
    × SameColumn 180 (pos 170 +ℤ pos 200) (advance_turret first_tank (pos 200)).turret
    × (record (advance_turret first_tank (pos 200)) { turret = pos 170 } ≡ first_tank)
turret_lem_example = turret_lem first_tank (pos 200)

abbrev economics : Economics
economics = record {
  killbonus = pos 5000;
  damagebonus = pos 100;
  damageloss = pos 50;
  suicideloss = pos 2000;
}

-- An explosion of the first player, of a force of 300 everywhere.
abbrev blast : Blast
blast = record { playerid = 0; napalm = false }

abbrev force : Blast → Player → ℤ
force e p = pos 300

abbrev no_shield : Player → Player
no_shield p = p

second_dies :
    map {B = Bool × ℤ}
      (λ (p : Player). (is_alive p, p.kills))
      (damage_all economics force no_shield blast 2 (first_tank ∷ second_tank ∷ []))
    ≡ (true, pos 1) ∷ (false, pos 0) ∷ []
unfolding damage_all damage_slot deal hurt credit_death update absorb_explosion ◌+ℤ◌ ◌-ℤ◌ ◌*ℤ◌
second_dies = refl

damage_all-accounts_example :
    (accounts (damage_all economics force no_shield blast 2 (first_tank ∷ second_tank ∷ []))
      ≡ accounts (first_tank ∷ second_tank ∷ []))
    × (length (damage_all economics force no_shield blast 2 (first_tank ∷ second_tank ∷ [])) ≡ 2)
damage_all-accounts_example =
    damage_all-accounts economics force no_shield blast (λ p. (refl, refl, refl)) 2
      (first_tank ∷ second_tank ∷ []) (omega arith)

-- Three players with scores 2, 0 and 5, of whom the first and the second change places at random.
abbrev three : List Player
three =
    record first_tank { kills = pos 2 }
    ∷ second_tank
    ∷ record first_tank { kills = pos 6; suicides = pos 1 }
    ∷ []

abbrev draws : ℕ → ℕ → ℕ
draws zero (suc zero) = 10
draws i j = 90

best_first : map score (winner_order draws 3 three) ≡ pos 5 ∷ pos 2 ∷ pos 0 ∷ []
unfolding winner_order random_order shuffle shuffle_with exchange pick sort_from compare_with
    compare_at ◌-ℤ◌
best_first = refl

winner_order_lem_example :
    IsOrdered (λ p q. ltb_ℤ (score q) (score p)) (winner_order draws 3 three)
    × IsOrdered (λ p q. ltb_ℤ (score p) (score q)) (loser_order draws 3 three)
    × ((test : Player → Bool)
        → (occurs test (winner_order draws 3 three) ≡ occurs test three)
          × (occurs test (loser_order draws 3 three) ≡ occurs test three))
winner_order_lem_example = winner_order_lem draws three

abbrev battery : ℕ → ℕ → AccessoryInfo
battery ident count = record {
  ident = pos ident;
  armslevel = pos 0;
  price = pos 5000;
  bundle = pos 10;
  shield = pos 0;
  fuel = pos 0;
  repulsion = pos 0;
  state = 0x200002;
  inventories = pos count ∷ pos 0 ∷ [];
  useless = false;
  indirect = false;
}

abbrev registered : ℕ → ℕ → Item ℤ AccessoryInfo
registered ident count = record {
  id = 20 + ident;
  class = 2;
  key = pos ident;
  value = battery ident count;
}

abbrev batteries : List (Item ℤ AccessoryInfo)
batteries = registered 0 0 ∷ registered 1 4 ∷ []

abbrev config : GoodsConfig AccessoryInfo
config = record {
  armslevel = pos 4;
  uselessitems = true;
  registry = record {
    hashlist = record { order = batteries; hash = batteries ∷ [] };
    nextclass = 3;
    nextkey = 2;
  };
  registryclass = 2;
}

abbrev one_chain : ℤ → ℕ
one_chain key = 0
