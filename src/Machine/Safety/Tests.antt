-- ===== src/Machine/Safety/Tests.antt =====
-- An instance of the safety of the state machine.
use xscorch.Prelude.{refl, arith}
use xscorch.Machine.Tests.{still, duel, opening}
use xscorch.Machine.Run.{run}
use xscorch.Machine.Safety.{IsSized, Keeps, IsReady}
use xscorch.Machine.Safety.Steps.{IsSafe, run-IsSafe}

duel-IsSized : IsSized 2 duel
duel-IsSized = record {
  count = refl;
  slots = refl;
  order = refl;
  below = (omega arith, (omega arith, tt));
  someone = omega arith;
}

still-Keeps : Keeps 2 still
still-Keeps = record {
  time = λ c z. record {
    count = z.count;
    slots = z.slots;
    order = z.order;
    below = z.below;
    someone = z.someone;
  };
  config_init_game = λ c z. z;
  config_init_round = λ c z. z;
  config_init_turn = λ c z. z;
  economy_interest = λ c z. z;
  ai_player_buy = λ c i z. z;
  ai_player_turn = λ c i z. z;
  preround_auto_defense = λ c i z. z;
  preround_lottery = λ c z. z;
  player_talk = λ c i z. z;
  player_death_talk = λ c i z. z;
  player_death = λ c i q z. z;
  player_drop_all = λ c z. z;
  player_damage_all = λ c e z. z;
  weapon_create_all = λ c q z. z;
  weapon_track_all = λ c q z. z;
  expl_annihilate = λ c e z. z;
  expl_annihilate_continue = λ c e z. z;
  expl_annihilate_clear = λ c e z. z;
  expl_annihilate_clear_continue = λ c e z. z;
  land_drop = λ c x r z. z;
}

opening-IsReady : IsReady 2 duel opening
opening-IsReady = record { sized = duel-IsSized; player = λ h. omega arith }

run-IsSafe_example : IsSafe 2 (run still 5 9 duel opening)
run-IsSafe_example = run-IsSafe still-Keeps 5 9 duel opening opening-IsReady
