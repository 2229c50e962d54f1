-- ===== src/Game/Players.antt =====
-- What sgame/sgame.c does to all players at once (`sc_game_victor`, `sc_game_set_victor`, the loop
-- of `sc_game_mass_kill`), with `sc_player_inc_wins` and `sc_player_died` of sgame/splayer.c. The
-- loops run over the first `n` slots of `c->players`; a slot outside the list is passed over.
pub mod Victor
use xscorch.Prelude.{
  ℕ, zero, suc, ◌+◌, List, Bool, true, Option, none, some, leb, if◌then◌else◌, get_elem?, set,
}
use xscorch.Prelude.Int.{ℤ, pos, ◌+ℤ◌, ◌-ℤ◌}
use xscorch.Player.{Player, is_alive}

unfoldable pub inc_wins : ℤ → Player → Player
inc_wins survivalbonus p = record p {
  numwins = p.numwins +ℤ pos 1;
  money = p.money +ℤ survivalbonus;
}

unfoldable pub died : ℤ → Player → Player
died deathloss p = record p { dead = true; money = p.money -ℤ deathloss }

-- The loop from `i = n - 1` down to 0, which counts the living.
unfoldable pub count_alive : ℕ → List Player → ℕ
count_alive zero players = 0
count_alive (suc i) players =
    let rest = count_alive i players in
    elim (get_elem? players i) [ none ↦ rest | some p ↦ if is_alive p then suc rest else rest ]

unfoldable pub victor : ℕ → List Player → Bool
unfolding count_alive
victor n players = leb (count_alive n players) 1

-- A round of the loop of `sc_game_set_victor`: a slot that holds a living player.
unfoldable pub reward_slot : ℤ → ℕ → List Player → List Player
unfolding inc_wins
reward_slot survivalbonus i players = elim (get_elem? players i) [
  | none ↦ players
  | some p ↦ if is_alive p then set players i (inc_wins survivalbonus p) else players
]

-- The loop, from `i = n - 1` down to 0.
unfoldable pub set_victor : ℤ → ℕ → List Player → List Player
set_victor survivalbonus zero players = players
set_victor survivalbonus (suc i) players =
    set_victor survivalbonus i (reward_slot survivalbonus i players)

unfoldable pub kill_slot : ℕ → List Player → List Player
kill_slot i players = elim (get_elem? players i) [
  | none ↦ players
  | some p ↦ set players i (record p { dead = true })
]

-- The loop of `sc_game_mass_kill`, from `i` on, with the number of rounds left.
unfoldable pub kill_all : ℕ → ℕ → List Player → List Player
kill_all zero i players = players
kill_all (suc rounds) i players = kill_all rounds (i + 1) (kill_slot i players)
