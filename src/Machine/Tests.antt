-- ===== src/Machine/Tests.antt =====
-- Calls that change nothing but a clock, two players, and runs of the state machine on them.
use xscorch.Prelude.{ℕ, ◌+◌, [], ◌∷◌, true, false, some, none, ◌≡◌, refl}
use xscorch.Prelude.Int.{pos, negsuc}
use xscorch.Player.{Player, TankProfile, human}
use xscorch.Game.Queue.{Expl}
use xscorch.Prelude.{◌⊎◌, get_elem?, ltb, if◌then◌else◌}
use xscorch.Game.Players.Victor.{killed}
use xscorch.Game.Timer.{micros}
use xscorch.Machine.Victors.{mass_kill-victor}
use xscorch.Machine.Codes.{
  round_end, round_end_idle, game_end_idle, unpaused, set_pause, clear_pause, clear_pause-set_pause,
  turn_begin, turn_pl_idle, code, decode,
}
use xscorch.Game.Players.{victor}
use xscorch.Machine.Handlers.{mass_kill, do_turn_begin, set_state_now, do_turn_pl_begin, set_state}
use xscorch.Machine.World.{Config, Game, Calls, Queues, sequential, no_action}
use xscorch.Machine.Run.{Outcome, rest, dispatch, run}
use xscorch.Machine.Graph.{successors, leads_to, dispatch-successors}

-- The rest of the configuration is a clock in seconds, which advances at each look.
abbrev pub still : Calls ℕ
still = record {
  time = λ c. (record { tv_sec = c.world; tv_usec = 0 }, record c { world = c.world + 1 });
  config_init_game = λ c. c;
  config_init_round = λ c. c;
  config_init_turn = λ c. c;
  economy_interest = λ c. c;
  ai_player_buy = λ c i. (false, c);
  ai_player_turn = λ c i. (false, c);
  preround_auto_defense = λ c i. (false, c);
  preround_lottery = λ c. (false, c);
  player_talk = λ c i. (false, c);
  player_death_talk = λ c i. c;
  player_death = λ c i q. (q, c);
  player_drop_all = λ c. (false, c);
  player_damage_all = λ c e. c;
  weapon_create_all = λ c q. (false, q, c);
  weapon_track_all = λ c q. (no_action, q, c);
  expl_annihilate = λ c e. (false, c);
  expl_annihilate_continue = λ c e. (false, c);
  expl_annihilate_clear = λ c e. (false, c);
  expl_annihilate_clear_continue = λ c e. (false, c);
  land_drop = λ c x r. (false, c);
}

abbrev tank : TankProfile
tank = record {
  radius = pos 5;
  shelfsize = pos 3;
  efficiency = pos 100;
  hardness = pos 100;
  mobile = true;
}

abbrev pub gunner : ℕ → Player
gunner i = record {
  index = i;
  tank = tank;
  aitype = human;
  turret = pos 0;
  power = pos 0;
  life = pos 1000;
  dead = false;
  numwins = pos 0;
  kills = pos 0;
  suicides = pos 0;
  killedby = negsuc 0;
  money = pos 0;
  armed = false;
  contacttriggers = false;
  ac_state = 0;
  shield = none;
}

abbrev pub duel : Config ℕ
duel = record {
  players = gunner 0 ∷ gunner 1 ∷ [];
  plorder = 1 ∷ 0 ∷ [];
  numplayers = 2;
  mode = sequential;
  interleave = false;
  gfxfast = false;
  gfxcompfast = false;
  componly = false;
  curround = pos 0;
  numrounds = pos 10;
  lottery_winner = false;
  survivalbonus = pos 5000;
  deathloss = pos 0;
  world = 100;
}

abbrev pub blast : Expl
blast = record { id = 7; counter = 0; centerx = pos 40; radius = pos 10; playerid = 0 }

abbrev pub one_blast : Queues
one_blast = record {
  expl_init = blast ∷ [];
  expl_draw = [];
  expl_clear_init = [];
  expl_clear = [];
  expl_done = [];
}

abbrev pub opening : Game
opening = record {
  curplayer = 0;
  timeout = record { tv_sec = 0; tv_usec = 0 };
  state = code turn_begin;
  substate = 0;
  activity = false;
  queues = one_blast;
}

abbrev state_at_rest : {W : Type 0} → Outcome W → ℕ
state_at_rest (rest c g) = g.state
state_at_rest _ = 0

-- A turn begins, and the first player of the turn order is asked for orders.
asks_first_player : state_at_rest (run still 5 3 duel opening) ≡ code turn_pl_idle
unfolding run code decode do_turn_begin victor set_state_now do_turn_pl_begin set_state
asks_first_player = refl

dispatch-successors_example :
    leads_to (successors duel.mode turn_begin) (dispatch still 5 (some turn_begin) duel opening)
    ≡ true
dispatch-successors_example = dispatch-successors still 5 duel opening turn_begin refl

clear_pause-set_pause_example :
    (clear_pause (set_pause (code round_end_idle)) ≡ code (unpaused round_end_idle))
    × ((decode (set_pause (code round_end_idle)) ≡ none)
        ⊎ (decode (set_pause (code round_end_idle)) ≡ some game_end_idle)
        ⊎ (decode (set_pause (code round_end_idle)) ≡ some round_end_idle))
clear_pause-set_pause_example = clear_pause-set_pause round_end_idle

mass_kill-victor_example :
    let (c', g') = mass_kill duel opening in
    (victor c'.numplayers c'.players ≡ true)
    × ((j : ℕ)
        → get_elem? c'.players j
          ≡ (if ltb j 2 then killed (get_elem? duel.players j) else get_elem? duel.players j))
    × (c' ≡ record duel { players = c'.players })
    × (decode g'.state ≡ some round_end)
    × (micros g'.timeout ≡ micros opening.timeout)
    × (g' ≡ record opening { state = code round_end; timeout = g'.timeout })
mass_kill-victor_example = mass_kill-victor duel opening
