-- ===== src/Goods/Tests.antt =====
-- A round over three weapons, one of which is useless.
use mathlib.Core.Path.{◌≡◌, refl}
use xscorch.Prelude.{◌+◌, ℕ, ◌≡◌, List, [], ◌∷◌, some, Bool, true, false, arith}
use xscorch.Prelude.Int.{ℤ, pos}
use xscorch.Items.{WeaponInfo}
use xscorch.HashList.{Item, first_of_class, after, find_next}
use xscorch.HashList.Keyed.{int_keys}
use xscorch.HashList.Laws.{IsTable}
use xscorch.Registry.{find_on}
use xscorch.Registry.Find.{internal_iter, iterate, iter_new}
use xscorch.Goods.{GoodsConfig, limit_useless, weapon_goods, count, test_count, viewable}
use xscorch.Goods.Weapons.{weapon_count, weapon_first}
use xscorch.Goods.Cycle.{visit, visit-IsRound}

abbrev weapon : ℕ → Bool → WeaponInfo
weapon ident useless = record {
  ident = pos ident;
  armslevel = pos 0;
  price = pos 2000;
  bundle = pos 10;
  state = 0;
  scatter = pos 0;
  children = pos 0;
  ph_ch = pos 0;
  ph_fl = 0;
  inventories = [];
  useless = useless;
  indirect = false;
}

abbrev registered : ℕ → Bool → Item ℤ WeaponInfo
registered ident useless = record {
  id = 10 + ident;
  class = 2;
  key = pos ident;
  value = weapon ident useless;
}

abbrev arms : List (Item ℤ WeaponInfo)
arms = registered 0 false ∷ registered 1 true ∷ registered 2 false ∷ []

abbrev one_chain : ℤ → ℕ
one_chain key = 0

abbrev config : GoodsConfig WeaponInfo
config = record {
  armslevel = pos 4;
  uselessitems = false;
  registry = record {
    hashlist = record { order = arms; hash = arms ∷ [] };
    nextclass = 3;
    nextkey = 3;
  };
  registryclass = 2;
}

abbrev itself : WeaponInfo → WeaponInfo
itself info = info

arms-IsTable : IsTable int_keys one_chain config.registry.hashlist
arms-IsTable = record {
  chained = λ key. refl;
  keyed = λ key. ground arith;
  addressed = λ id. ground arith;
  placed = λ key. omega arith;
}

two_weapons : weapon_count itself config true 4 limit_useless ≡ some 2
unfolding count iterate iter_new internal_iter test_count viewable find_on find_next first_of_class
    after
two_weapons = refl

visit-IsRound_example :
    (visit (weapon_goods itself) config limit_useless one_chain 4 1 ≡ some (some (weapon 2 false)))
    × (visit (weapon_goods itself) config limit_useless one_chain 4 2
        ≡ weapon_first itself config 4 limit_useless)
unfolding viewable
visit-IsRound_example =
    visit-IsRound (weapon_goods itself) config limit_useless one_chain arms-IsTable
      (refl, refl, (refl, refl, (refl, refl, tt))) 4 (omega arith) 1 (omega arith)
