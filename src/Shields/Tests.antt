-- ===== src/Shields/Tests.antt =====
-- A player under a shield, and instances of the properties of sgame/sshield.c.
use xscorch.Prelude.{◌↔◌, ℕ, List, ◌∷◌, arith}
use xscorch.Items.{AccessoryInfo}
use xscorch.HashList.{Item}
use xscorch.Goods.{GoodsConfig}
use xscorch.Prelude.{[], true, false, some, none, ◌≡◌, arith}
use xscorch.Prelude.Int.{ℤ, pos, negsuc, ◌-ℤ◌, ◌≤ℤ◌}
use xscorch.Player.{Player, Shield, human}
use xscorch.Shields.{hit_cost, absorb_hit, absorb_explosion, shield_init_turn}
use xscorch.Shields.Absorb.{IsUp, shield_life, shields-IsUp, absorb_explosion_lem}

abbrev shielded : Player
shielded = record {
  index = 0;
  tank = record {
    radius = pos 5;
    shelfsize = pos 3;
    efficiency = pos 100;
    hardness = pos 100;
    mobile = true;
  };
  aitype = human;
  turret = pos 0;
  power = pos 0;
  life = pos 1000;
  dead = false;
  numwins = pos 0;
  kills = pos 0;
  suicides = pos 0;
  killedby = negsuc 0;
  money = pos 0;
  armed = false;
  contacttriggers = false;
  ac_state = 0x400000;
  shield = some (record {
    life = pos 900;
    info = record {
      ident = pos 1;
      armslevel = pos 0;
      price = pos 5000;
      bundle = pos 1;
      shield = pos 1000;
      fuel = pos 0;
      repulsion = pos 0;
      state = 0x010000;
      inventories = [];
      useless = false;
      indirect = false;
    };
  });
}

shields-IsUp_example :
    let after_hit = (absorb_hit shielded true).1.shield in
    let after_explosion = (absorb_explosion shielded false (pos 1200)).1.shield in
    let after_turn = (shield_init_turn shielded).shield in
    IsUp after_hit
    × IsUp after_explosion
    × IsUp after_turn
    × ((sh : Shield)
        → shielded.shield ≡ some sh
        → ((after_hit ≡ none) ↔ (sh.life ≤ℤ hit_cost true))
          × ((after_explosion ≡ none) ↔ (sh.life ≤ℤ pos 1200))
          × ((sh' : Shield) × (after_turn ≡ some sh')
              × (sh'.info ≡ sh.info)
              × (sh.life ≤ℤ sh'.life)))
    × (shielded.shield ≡ none → (after_hit ≡ none) × (after_explosion ≡ none) × (after_turn ≡ none))
shields-IsUp_example =
    shields-IsUp shielded true false (pos 1200) (omega arith) (omega arith, omega arith)

absorb_explosion_lem_example :
    let (left, p') = absorb_explosion shielded false (pos 1200) in
    (pos 0 ≤ℤ left)
    × (left ≤ℤ pos 1200)
    × (false ≡ false → left -ℤ pos 1200 ≡ shield_life p'.shield -ℤ shield_life shielded.shield)
    × (shielded.shield ≡ none → left ≡ pos 1200)
absorb_explosion_lem_example =
    absorb_explosion_lem shielded false (pos 1200) (omega arith) (omega arith, omega arith)

-- A standard shield and a stronger one, both in stock.
abbrev shield_kind : ℕ → ℕ → AccessoryInfo
shield_kind ident strength = record {
  ident = pos ident;
  armslevel = pos 0;
  price = pos 5000;
  bundle = pos 1;
  shield = pos strength;
  fuel = pos 0;
  repulsion = pos 0;
  state = 0x010100;
  inventories = pos 1 ∷ [];
  useless = false;
  indirect = false;
}

abbrev shields : List (Item ℤ AccessoryInfo)
shields =
    record { id = 30; class = 2; key = pos 0; value = shield_kind 0 1000 }
    ∷ record { id = 31; class = 2; key = pos 1; value = shield_kind 1 3000 }
    ∷ []

abbrev config : GoodsConfig AccessoryInfo
config = record {
  armslevel = pos 4;
  uselessitems = true;
  registry = record {
    hashlist = record { order = shields; hash = shields ∷ [] };
    nextclass = 3;
    nextkey = 2;
  };
  registryclass = 2;
}

abbrev one_chain : ℤ → ℕ
one_chain key = 0
