-- ===== src/Weapons/Tests.antt =====
-- A weapon that scatters into three missiles at its apex: its check, and a round of tracking.
use xscorch.Prelude.{
  ℕ, ◌≤◌, List, [], ◌∷◌, true, false, none, some, ◌≡◌, ◌≢◌, ◌↔◌, refl, arith, inl,
}
use xscorch.Prelude.Int.{ℤ, pos}
use xscorch.Items.{WeaponInfo}
use xscorch.Game.Queue.{Chain}
use xscorch.HashList.{Item, find}
use xscorch.HashList.Keyed.{int_keys}
use xscorch.HashList.Laws.{IsTable}
use xscorch.Goods.{GoodsConfig, viewable, lookup}
use xscorch.Weapons.Verify.{needs_child, levels_above, phoenix_verify}
use xscorch.Weapons.Levels.{Descends}
use xscorch.Weapons.Verified.{registered, phoenix_verify_lem}
use xscorch.Weapons.Flight.{Weapon, Calls, continue}
use xscorch.Weapons.Track.{TrackResult, nothing, detonated, sizzled, track_all}
use xscorch.Weapons.Budget.{has_explosions}
use xscorch.Weapons.Ends.{PlayersDescend, AllLanded, track_all_ends}

abbrev weapon : ℕ → ℕ → ℕ → WeaponInfo
weapon ident ph_ch ph_fl = record {
  ident = pos ident;
  armslevel = pos 0;
  price = pos 2000;
  bundle = pos 10;
  state = 0;
  scatter = pos 5;
  children = pos 3;
  ph_ch = pos ph_ch;
  ph_fl = ph_fl;
  inventories = [];
  useless = false;
  indirect = false;
}

abbrev missile : WeaponInfo
missile = weapon 1 0 0

-- SC_PHOENIX_AT_APEX | SC_PHOENIX_TYPE_SCATTER
abbrev mirv : WeaponInfo
mirv = weapon 2 1 0x0404

abbrev arms : List (Item ℤ WeaponInfo)
arms =
    record { id = 10; class = 2; key = pos 1; value = missile }
    ∷ record { id = 11; class = 2; key = pos 2; value = mirv }
    ∷ []

abbrev one_chain : ℤ → ℕ
one_chain key = 0

abbrev config : GoodsConfig WeaponInfo
config = record {
  armslevel = pos 4;
  uselessitems = false;
  registry = record {
    hashlist = record { order = arms; hash = arms ∷ [] };
    nextclass = 3;
    nextkey = 3;
  };
  registryclass = 2;
}

arms-IsTable : IsTable int_keys one_chain config.registry.hashlist
arms-IsTable = record {
  chained = λ key. refl;
  keyed = λ key. ground arith;
  addressed = λ id. ground arith;
  placed = λ key. omega arith;
}

phoenix_verify_lem_example :
    (n : ℕ) × (phoenix_verify one_chain config 4 mirv ≡ some n)
    × ((n ≢ 0) ↔ ((d : ℕ) × Descends (registered one_chain config) d mirv n))
    × ((d l : ℕ) → Descends (registered one_chain config) d mirv l → n ≡ l)
unfolding lookup viewable find
phoenix_verify_lem_example =
    phoenix_verify_lem one_chain config arms-IsTable (refl, refl, (refl, refl, tt)) mirv (inl refl)
      refl 4 (omega arith)

two_levels : phoenix_verify one_chain config 4 mirv ≡ some 2
unfolding phoenix_verify viewable lookup find
two_levels = refl

mirv-Descends : Descends (registered one_chain config) 1 mirv 2
unfolding needs_child levels_above viewable lookup find
mirv-Descends = (refl, missile, 1, refl, (refl, refl), refl)

-- Trajectories that are heights, at their apex.
abbrev calls : Calls ℕ ℕ
calls = record {
  step = λ w wp. (continue, wp.tr, w);
  going_up = λ tr. true;
  not_rising = λ tr. true;
  absorb_hit = λ w tr sapper. w;
  landfall = λ w tr. w;
  chance = λ w. (false, w);
  is_converted = λ type tr. false;
  convert = λ w wp type. (true, wp.tr, w);
  get_explosion = λ w wp at_tank.
      some
        (record { id = w; counter = 0; centerx = pos 0; radius = pos 20; playerid = wp.playerid });
  scaled = λ w wp info expl. expl;
  leg = λ w wp info. (some none, w);
  lrand = λ w n. (pos 0, w);
  surface = λ w tr. tr;
  bounce = λ w wp. wp.tr;
  scattered = λ w wp i. wp.tr;
}

abbrev flying : List (List (Weapon ℕ))
flying =
    (record {
      tr = 40;
      exp_res = 0;
      state = 0;
      deferring = false;
      playerid = 0;
      children = pos 0;
      triggered = false;
      weaponinfo = mirv;
    }
      ∷ [])
    ∷ []
    ∷ []

track_all_ends_example :
    (n : ℕ) × ((fuel : ℕ)
      → n ≤ fuel
      → (w : ℕ) (e : Chain)
      → (result : TrackResult) × (left : List (List (Weapon ℕ))) × (e' : Chain) × (w' : ℕ)
        × (track_all calls (registered one_chain config) flying fuel nothing w e
            ≡ some (result, left, e', w'))
        × PlayersDescend calls (registered one_chain config) left
        × (result ≢ sizzled)
        × (result ≡ detonated → has_explosions e' ≡ true)
        × (result ≡ nothing → AllLanded calls (registered one_chain config) left))
track_all_ends_example =
    track_all_ends calls (registered one_chain config) (λ w wp at_tank. (_, refl)) flying
      (((1, 2, mirv-Descends), tt), (tt, tt))
