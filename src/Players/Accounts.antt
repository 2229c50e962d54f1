-- ===== src/Players/Accounts.antt =====
-- Every death by damage (sgame/splayer.c) is credited once.

use xscorch.Prelude.{
  ℕ, zero, suc, ◌+◌, ◌<◌, List, Bool, true, false, some, ◌≡◌, refl, sym, ◌∙◌, ◌==◌, not, ◌&&◌,
  if◌then◌else◌, Bool-cases, Option-cases, inl, inr, get_elem?, set, length, length-set,
}
use xscorch.Prelude.Int.{ℤ, pos, ◌+ℤ◌, ◌-ℤ◌, ◌*ℤ◌, leb_ℤ, int_laws, pos_part, neg_part}
use xscorch.Player.{Player, is_alive}
use xscorch.Shields.{absorb_explosion}
use xscorch.Players.Damage.{
  Economics, Blast, update, inc_suicides, inc_kills, add_money, take_money, hurt, credit_death,
  deal, damage_slot, damage_all,
}
use xscorch.Players.Sums.{
  account, accounts, within, parts_of, accounts-set, update-set, add_zero, accounts-update,
  length-update,
}

module _ (economics : Economics) (damage_at_point : Blast → Player → ℤ)
    (activate_auto_shield : Player → Player) (e : Blast)
    (keeps : (p : Player)
      → (is_alive (activate_auto_shield p) ≡ is_alive p)
        × ((activate_auto_shield p).kills ≡ p.kills)
        × ((activate_auto_shield p).suicides ≡ p.suicides)) where
  hurt_lem :
      (damage : ℤ) (p : Player)
      → ((hurt economics damage_at_point activate_auto_shield e damage p).kills ≡ p.kills)
        × ((hurt economics damage_at_point activate_auto_shield e damage p).suicides ≡ p.suicides)
  unfolding hurt
  hurt_lem damage p =
      let p1 = record p { life = p.life -ℤ damage *ℤ pos 100 } in
      let k = keeps p1 in
      elim (Bool-cases (is_alive p1)) [ inl a ↦ rw a (k.1, k.2) | inr a ↦ rw a (refl, refl) ]

  absorbed_lem :
      (p : Player) (damage : ℤ)
      → ((absorb_explosion p e.napalm damage).1.kills ≡ p.kills)
        × ((absorb_explosion p e.napalm damage).1.suicides ≡ p.suicides)
        × (is_alive (absorb_explosion p e.napalm damage).1 ≡ is_alive p)
  unfolding absorb_explosion
  absorbed_lem p damage = elim (Option-cases p.shield) [
    | inl n ↦ rw (n, absorb_explosion) (refl, refl, refl)
    | inr (sh, n) ↦ rw (n, absorb_explosion) (refl, refl, refl)
  ]

  account-inc_suicides : (p : Player) → account (inc_suicides p) ≡ account p +ℤ pos 1
  account-inc_suicides p = omega int_laws

  account-inc_kills : (p : Player) → account (inc_kills economics p) ≡ account p +ℤ pos 1
  account-inc_kills p = omega int_laws

  account-add_money : (amount : ℤ) (p : Player) → account (add_money amount p) ≡ account p +ℤ pos 0
  account-add_money amount p = omega int_laws

  account-take_money :
      (amount : ℤ) (p : Player) → account (take_money amount p) ≡ account p +ℤ pos 0
  account-take_money amount p = omega int_laws

  abbrev hurt_by : ℤ → Player → Player
  hurt_by = hurt economics damage_at_point activate_auto_shield e

  -- Damage that a living player outlives does not change what it counts for.
  outlived :
      (damage : ℤ) (p : Player)
      → is_alive p ≡ true
      → is_alive (hurt_by damage p) ≡ true
      → account (hurt_by damage p) ≡ account p
  outlived damage p a b = let (k, s) = hurt_lem damage p in rw (a, b, k, s) refl

  -- Damage that kills it takes one off.
  killed :
      (damage : ℤ) (p : Player)
      → is_alive p ≡ true
      → account (record (hurt_by damage p) { life = pos 0; killedby = pos e.playerid }) +ℤ pos 1
        ≡ account p
  killed damage p a =
      let (k, s) = hurt_lem damage p in
      let alive : account p ≡ p.kills +ℤ p.suicides +ℤ pos 1 = rw a refl in
      rw (k, s) (one_less p.kills p.suicides (hurt_by damage p).dead ∙ sym alive)
    where
      one_less :
          (k s : ℤ) (dead : Bool)
          → k +ℤ s +ℤ (if not dead && false then pos 1 else pos 0) +ℤ pos 1 ≡ k +ℤ s +ℤ pos 1
      one_less k s true = omega int_laws
      one_less k s false = omega int_laws

  -- The credit adds one.
  credit_lem :
      (own : Bool) (i : ℕ) (players : List Player)
      → i < length players
      → e.playerid < length players
      → accounts (
          if own
          then update i (take_money economics.suicideloss) (update e.playerid inc_suicides players)
          else update e.playerid (inc_kills economics) players)
        ≡ accounts players +ℤ pos 1
  credit_lem true i players l m =
      let same_length = length-update players e.playerid inc_suicides in
      accounts-update (update e.playerid inc_suicides players) i (take_money economics.suicideloss)
        (pos 0) (rw same_length l) (account-take_money economics.suicideloss)
      ∙ add_zero (accounts (update e.playerid inc_suicides players))
      ∙ accounts-update players e.playerid inc_suicides (pos 1) m account-inc_suicides
  credit_lem false i players l m =
      accounts-update players e.playerid (inc_kills economics) (pos 1) m account-inc_kills

  credited :
      (i : ℕ) (damage : ℤ) (p p0 : Player) (players : List Player)
      → get_elem? players i ≡ some p0
      → account p ≡ account p0
      → is_alive p ≡ true
      → i < length players
      → e.playerid < length players
      → accounts (
          credit_death economics damage_at_point activate_auto_shield e i
            (hurt_by damage p)
            (set players i (hurt_by damage p)))
        ≡ accounts players
  unfolding credit_death
  credited i damage p p0 players at_i same a l m =
      let change : Player → Player = λ q. record q { life = pos 0; killedby = pos e.playerid } in
      let p2 = change (hurt_by damage p) in
      let players1 = set players i p2 in
      let len = length-set players i p2 in
      rw (update-set players i change (hurt_by damage p) l) (
        credit_lem (e.playerid == (hurt_by damage p).index) i players1 (rw len l) (rw len m)
        ∙ settle (accounts players1) (accounts players) (account p0) (account p2)
            (parts_of (accounts-set players i p0 p2 at_i)) (parts_of (killed damage p a ∙ same)))
    where
      settle :
          (x y b c : ℤ)
          → pos_part (x +ℤ b) + neg_part (y +ℤ c) ≡ pos_part (y +ℤ c) + neg_part (x +ℤ b)
          → pos_part (c +ℤ pos 1) + neg_part b ≡ pos_part b + neg_part (c +ℤ pos 1)
          → x +ℤ pos 1 ≡ y
      settle x y b c h k = omega (int_laws, h, k)

  length-credit_death :
      (i : ℕ) (p : Player) (players : List Player)
      → length (credit_death economics damage_at_point activate_auto_shield e i p players)
        ≡ length players
  unfolding credit_death
  length-credit_death i p players =
      let change : Player → Player = λ q. record q { life = pos 0; killedby = pos e.playerid } in
      let first = length-update players i change in
      elim (Bool-cases (e.playerid == p.index)) [
        | inl own ↦ rw own (
            length-update (update e.playerid inc_suicides (update i change players)) i
              (take_money economics.suicideloss)
            ∙ length-update (update i change players) e.playerid inc_suicides
            ∙ first)
        | inr other ↦
            rw other
              (length-update (update i change players) e.playerid (inc_kills economics) ∙ first)
      ]

  -- The bonus for damage does not count.
  bonus :
      (own : Bool) (players : List Player)
      → e.playerid < length players
      → accounts
          (if own then players else update e.playerid (add_money economics.damagebonus) players)
        ≡ accounts players
  bonus true players m = refl
  bonus false players m =
      accounts-update players e.playerid (add_money economics.damagebonus) (pos 0) m
        (account-add_money economics.damagebonus)
      ∙ add_zero (accounts players)

  length-bonus :
      (own : Bool) (players : List Player)
      → length
          (if own then players else update e.playerid (add_money economics.damagebonus) players)
        ≡ length players
  length-bonus true players = refl
  length-bonus false players = length-update players e.playerid (add_money economics.damagebonus)

  -- A slot that is written with a player that counts as much.
  rewritten :
      (players : List Player) (i : ℕ) (p q : Player)
      → get_elem? players i ≡ some p
      → account q ≡ account p
      → accounts (set players i q) ≡ accounts players
  rewritten players i p q at_i same =
      cancel (accounts (set players i q)) (accounts players) (account p) (account q)
        (parts_of (accounts-set players i p q at_i)) (parts_of same)
    where
      cancel :
          (x y b c : ℤ)
          → pos_part (x +ℤ b) + neg_part (y +ℤ c) ≡ pos_part (y +ℤ c) + neg_part (x +ℤ b)
          → pos_part c + neg_part b ≡ pos_part b + neg_part c
          → x ≡ y
      cancel x y b c h k = omega (int_laws, h, k)

  deal_lem :
      (i : ℕ) (damage : ℤ) (p p0 : Player) (players : List Player)
      → get_elem? players i ≡ some p0
      → account p ≡ account p0
      → is_alive p ≡ true
      → i < length players
      → e.playerid < length players
      → (accounts (deal economics damage_at_point activate_auto_shield e i damage p players)
          ≡ accounts players)
        × (length (deal economics damage_at_point activate_auto_shield e i damage p players)
            ≡ length players)
  unfolding deal
  deal_lem i damage p p0 players at_i same a l m =
      let p1 = hurt_by damage p in
      let players1 = set players i p1 in
      let credited1 = credit_death economics damage_at_point activate_auto_shield e i p1 players1 in
      let len1 = length-set players i p1 in
      let dealt : (accounts (if is_alive p1 then players1 else credited1) ≡ accounts players)
          × (length (if is_alive p1 then players1 else credited1) ≡ length players) =
        elim (Bool-cases (is_alive p1)) [
          | inl b ↦ rw b (rewritten players i p0 p1 at_i (outlived damage p a b ∙ same), len1)
          | inr b ↦ rw b (
            credited i damage p p0 players at_i same a l m,
            length-credit_death i p1 players1 ∙ len1,
          )
        ] in
      (
        bonus (e.playerid == p1.index) (if is_alive p1 then players1 else credited1) (rw dealt.1 m)
            ∙ dealt.0,
        length-bonus (e.playerid == p1.index) (if is_alive p1 then players1 else credited1)
            ∙ dealt.1,
      )

  slot_lem :
      (i : ℕ) (players : List Player)
      → e.playerid < length players
      → (accounts (damage_slot economics damage_at_point activate_auto_shield e i players)
          ≡ accounts players)
        × (length (damage_slot economics damage_at_point activate_auto_shield e i players)
            ≡ length players)
  unfolding damage_slot
  slot_lem i players m = elim (Option-cases (get_elem? players i)) [
    | inl n ↦ rw (n, damage_slot) (refl, refl)
    | inr (p, n) ↦
        let hit = damage_at_point e p in
        let q = absorb_explosion p e.napalm hit in
        let (k, s, alive) = absorbed_lem p hit in
        let same : account q.1 ≡ account p = rw (k, s, alive) refl in
        let l = within players i p n in
        elim (Bool-cases (is_alive p)) [
          | inr a ↦ rw (n, damage_slot, a) (refl, refl)
          | inl a ↦ elim (Bool-cases (leb_ℤ hit (pos 0))) [
            | inl h ↦ rw (n, damage_slot, a, h) (refl, refl)
            | inr h ↦ elim (Bool-cases (leb_ℤ q.0 (pos 0))) [
              | inl d ↦
                  rw (n, damage_slot, a, h, d)
                    (rewritten players i p q.1 n same, length-set players i q.1)
              | inr d ↦
                  rw (n, damage_slot, a, h, d) (deal_lem i q.0 q.1 p players n same (alive ∙ a) l m)
            ]
          ]
        ]
  ]

  -- Whatever an explosion does to the players, the kills and the suicides of all of them and the
  -- number of those alive add up to what they did before: each death by damage is credited to one
  -- player, as a kill or as a suicide, and nothing else is. No slot comes or goes. Assumed: the
  -- explosion belongs to a player, and the shields that auto defence puts up change neither kills
  -- nor suicides, nor who is alive.
  pub damage_all-accounts :
      (n : ℕ) (players : List Player)
      → e.playerid < length players
      → (accounts (damage_all economics damage_at_point activate_auto_shield e n players)
          ≡ accounts players)
        × (length (damage_all economics damage_at_point activate_auto_shield e n players)
            ≡ length players)
  unfolding damage_all
  damage_all-accounts zero players m = (refl, refl)
  damage_all-accounts (suc i) players m =
      let players1 = damage_slot economics damage_at_point activate_auto_shield e i players in
      let (a, b) = slot_lem i players m in
      let (c, d) = damage_all-accounts i players1 (rw b m) in (c ∙ a, d ∙ b)
