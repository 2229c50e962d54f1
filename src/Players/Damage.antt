-- ===== src/Players/Damage.antt =====
-- The damage that an explosion does to the tanks (`_sc_player_damage` and `sc_player_damage_all` of
-- sgame/splayer.c). The force of the explosion at a tank (`sc_expl_damage_at_point` of
-- sgame/sexplosion.c, on doubles) and the shield that auto defence puts up
-- (`sc_player_activate_auto_shield`) are parameters. A slot that holds no player is passed over;
-- `e->playerid` is a number, as sc_weapon_new asserts.
use xscorch.Prelude.{ℕ, zero, suc, List, Bool, none, some, ◌==◌, if◌then◌else◌, get_elem?, set}
use xscorch.Prelude.Int.{ℤ, pos, ◌+ℤ◌, ◌-ℤ◌, ◌*ℤ◌, leb_ℤ}
use xscorch.Player.{Player, is_alive}
use xscorch.Shields.{absorb_explosion}

-- The part of `sc_economy_config` that damage reads.
pub record Economics : Type 0 where
  pub killbonus : ℤ
  pub damagebonus : ℤ
  pub damageloss : ℤ
  pub suicideloss : ℤ

-- The part of `sc_explosion` that damage reads; `napalm` stands for its type.
pub record Blast : Type 0 where
  pub playerid : ℕ
  pub napalm : Bool

-- SC_TANK_NORMAL_HARDNESS
abbrev pub normal_hardness : ℤ
normal_hardness = pos 100

-- A write through a pointer to a player.
unfoldable pub update : ℕ → (Player → Player) → List Player → List Player
update i change players = elim (get_elem? players i) [
  | none ↦ players
  | some p ↦ set players i (change p)
]

abbrev pub inc_suicides : Player → Player
inc_suicides p = record p { suicides = p.suicides +ℤ pos 1 }

-- `++kills` and `money += killbonus`
abbrev pub inc_kills : Economics → Player → Player
inc_kills economics p = record p {
  kills = p.kills +ℤ pos 1;
  money = p.money +ℤ economics.killbonus;
}

abbrev pub add_money : ℤ → Player → Player
add_money amount p = record p { money = p.money +ℤ amount }

abbrev pub take_money : ℤ → Player → Player
take_money amount p = record p { money = p.money -ℤ amount }

module _ (economics : Economics) (damage_at_point : Blast → Player → ℤ)
    (activate_auto_shield : Player → Player) (e : Blast) where
  -- The player, its shield having absorbed what it can, after the remaining damage.
  unfoldable pub hurt : ℤ → Player → Player
  hurt damage p =
      let p1 = record p { life = p.life -ℤ damage *ℤ normal_hardness } in
      take_money economics.damageloss (if is_alive p1 then activate_auto_shield p1 else p1)

  -- The death of the player in a slot, and who is credited with it.
  unfoldable pub credit_death : ℕ → Player → List Player → List Player
  unfolding update
  credit_death i p players =
      let players1 = update i (λ q. record q { life = pos 0; killedby = pos e.playerid }) players in
      if e.playerid == p.index
      then update i (take_money economics.suicideloss) (update e.playerid inc_suicides players1)
      else update e.playerid (inc_kills economics) players1

  -- What the damage left by the shield does.
  unfoldable pub deal : ℕ → ℤ → Player → List Player → List Player
  unfolding hurt credit_death update
  deal i damage p players =
      let p1 = hurt damage p in
      let players1 = set players i p1 in
      let players2 = if is_alive p1 then players1 else credit_death i p1 players1 in
      if e.playerid == p1.index
      then players2
      else update e.playerid (add_money economics.damagebonus) players2

  unfoldable pub damage_slot : ℕ → List Player → List Player
  unfolding deal absorb_explosion
  damage_slot i players = elim (get_elem? players i) [
    | none ↦ players
    | some p ↦
        let hit = damage_at_point e p in
        let (damage, p1) = absorb_explosion p e.napalm hit in
        if is_alive p
        then (if leb_ℤ hit (pos 0)
            then players
            else if leb_ℤ damage (pos 0)
            then set players i p1
            else deal i damage p1 players)
        else players
  ]

  -- The loop from `i = n - 1` down to 0.
  unfoldable pub damage_all : ℕ → List Player → List Player
  unfolding damage_slot
  damage_all zero players = players
  damage_all (suc i) players = damage_all i (damage_slot i players)
