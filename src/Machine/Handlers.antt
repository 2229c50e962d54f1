-- ===== src/Machine/Handlers.antt =====
-- The handlers of the states: `_sc_state_prelude_begin` to `_sc_state_run_end` of sgame/sstate.c,
-- over `sc_game_set_state` and its kin of sgame/sgame.c. A handler ends by waiting for the next
-- timer event, or by running the machine again at once.
use xscorch.Prelude.{
  ℕ, ◌+◌, [], Bool, true, false, not, ◌&&◌, ◌||◌, none, some, leb, if◌then◌else◌, get_elem?, set,
}
use xscorch.Prelude.Int.{pos, ◌+ℤ◌, leb_ℤ}
use xscorch.Player.{Player, AiType, network}
use xscorch.Game.{postpone_timeout}
use xscorch.Game.Queue.{queue_update}
use xscorch.Game.Players.{died, victor, set_victor, kill_all}
use xscorch.Machine.Codes.{
  State, prelude_begin, prelude_idle, game_end, game_end_idle, inventory_begin, inventory_pl_begin,
  inventory_pl_idle, inventory_pl_done, round_begin, auto_defense, auto_defense_loop,
  lottery_display, lottery_display_wait, round_end, round_end_idle, turn_begin, turn_pl_begin,
  turn_pl_idle, turn_pl_done, turn_pl_next, turn_end, run_talk, run_creation, run_weapons,
  run_explosion, run_player_drop, run_player_death, run_end, code, set_pause, clear_pause,
}
use xscorch.Machine.World.{
  sequential, synchronous, no_action, need_recurse, detonate, sizzle, Config, Queues, Game, Calls,
  gfx_fast, fast, any_expl, delay_short, delay_prompt, delay_talk, machine_interval,
}
use xscorch.Machine.Actions.{explosion_loop}

-- `again c g later`: `sc_state_run` is called on `c` and `g`, and `later` says whether `g->substate`
-- is incremented once that call has returned. `fault` is an array read out of range.
pub data Next (W : Type 0) : Type 0 where
  wait : Config W → Game → Next W
  again : Config W → Game → Bool → Next W
  fault : Next W
  out_of_fuel : Next W

abbrev pub is_network : AiType → Bool
is_network network = true
is_network _ = false

unfoldable pub reinstate : Game → ℕ → Game
reinstate g delay = record g { timeout = postpone_timeout g.timeout delay }

unfoldable pub set_state : Game → State → ℕ → Game
set_state g s delay = record g { state = code s; timeout = postpone_timeout g.timeout delay }

-- The updates of the counters once the loop over the queues has ended.
abbrev pub update_all : Queues → Queues
update_all q = record {
  expl_init = queue_update q.expl_init;
  expl_draw = queue_update q.expl_draw;
  expl_clear_init = queue_update q.expl_clear_init;
  expl_clear = queue_update q.expl_clear;
  expl_done = queue_update q.expl_done;
}

module _ {W : Type 0} where
  -- `c->players[i]`, and `c->plorder[i]`.
  abbrev pub player_at : Config W → ℕ → (Player → Next W) → Next W
  player_at c i k = elim (get_elem? c.players i) [ none ↦ fault | some p ↦ k p ]

  abbrev pub order_at : Config W → ℕ → (ℕ → Player → Next W) → Next W
  order_at c i k = elim (get_elem? c.plorder i) [ none ↦ fault | some j ↦ player_at c j (k j) ]

  -- `nextstate` of the handler, and the player counter that goes with it.
  abbrev pub talk_next : Config W → Game → State × ℕ
  talk_next c g = elim c.mode [
    | sequential ↦ (run_creation, g.curplayer)
    | synchronous ↦
        if leb c.numplayers (g.curplayer + 1)
        then (run_creation, g.curplayer)
        else (run_talk, g.curplayer + 1)
  ]

unfoldable pub pause : Game → Game
unfolding set_pause
pause g = record g { state = set_pause g.state }

-- `sc_game_mass_kill`
unfoldable pub mass_kill : {W : Type 0} → Config W → Game → Config W × Game
unfolding kill_all set_state
mass_kill c g = (record c { players = kill_all c.numplayers 0 c.players }, set_state g round_end 0)

module _ {W : Type 0} (calls : Calls W) where
  unfoldable pub reinstate_now : Config W → Game → Next W
  reinstate_now c g = let (t, c') = calls.time c in again c' (record g { timeout = t }) false

  unfoldable pub set_state_now : Config W → Game → State → Next W
  set_state_now c g s =
      let (t, c') = calls.time c in again c' (record g { state = code s; timeout = t }) false

  -- `sc_game_set_state_now(c, g, s); ++g->substate;`
  unfoldable pub set_state_now_then : Config W → Game → State → Next W
  set_state_now_then c g s =
      let (t, c') = calls.time c in again c' (record g { state = code s; timeout = t }) true

  unfoldable pub set_state_asap : Config W → Game → State → Next W
  set_state_asap c g s =
      let (t, c') = calls.time c in wait c' (record g { state = code s; timeout = t })

  unfoldable pub set_state_allow_now : Config W → Game → State → ℕ → Next W
  set_state_allow_now c g s delay =
      if leb delay 0 then set_state_now c g s else wait c (set_state g s delay)

  unfoldable pub reinstate_allow_now : Config W → Game → ℕ → Next W
  reinstate_allow_now c g delay =
      if leb delay 0 then reinstate_now c g else wait c (reinstate g delay)

  unfoldable pub do_prelude_begin : Config W → Game → Next W
  do_prelude_begin c g = wait c (set_state g prelude_idle delay_prompt)

  -- `sc_game_init`, which `sc_config_init_game` calls, empties the queues and clears the counters.
  unfoldable pub game_init : Config W → Game → Config W × Game
  game_init c g =
      let (t, c') = calls.time c in
      (
        c',
        record g {
          substate = 0;
          curplayer = 0;
          timeout = postpone_timeout t 0;
          state = code prelude_begin;
          queues = record {
            expl_init = [];
            expl_draw = [];
            expl_clear_init = [];
            expl_clear = [];
            expl_done = [];
          };
        },
      )

  unfoldable pub unpause : Config W → Game → Config W × Game
  unfolding clear_pause
  unpause c g =
      let (t, c') = calls.time c in (c', record g { state = clear_pause g.state; timeout = t })

  unfoldable pub do_game_begin : Config W → Game → Next W
  unfolding game_init
  do_game_begin c g =
      let (c', g') = game_init (calls.config_init_game c) g in set_state_asap c' g' inventory_begin

  unfoldable pub do_game_end : Config W → Game → Next W
  do_game_end c g = wait c (set_state g game_end_idle delay_prompt)

  unfoldable pub do_inventory_begin : Config W → Game → Next W
  do_inventory_begin c g = set_state_now c (record g { curplayer = 0 }) inventory_pl_begin

  unfoldable pub do_inventory_pl_begin : Config W → Game → Next W
  do_inventory_pl_begin c g = player_at c g.curplayer λ p.
      let (continue, c') = calls.ai_player_buy c g.curplayer in
      if continue
      then set_state_now c' g inventory_pl_done
      else wait c' (set_state g inventory_pl_idle delay_prompt)

  unfoldable pub do_inventory_pl_done : Config W → Game → Next W
  do_inventory_pl_done c g =
      let next = g.curplayer + 1 in
      if leb c.numplayers next
      then set_state_now c (record g { curplayer = 0 }) round_begin
      else set_state_now c (record g { curplayer = next }) inventory_pl_begin

  unfoldable pub do_round_begin : Config W → Game → Next W
  do_round_begin c g = set_state_asap (calls.config_init_round c) g auto_defense_loop

  unfoldable pub do_auto_defense : Config W → Game → Next W
  do_auto_defense c g =
      let g' = record g { curplayer = g.curplayer + 1 } in
      if leb c.numplayers g.curplayer
      then set_state_now c (record g { curplayer = 0 }) lottery_display
      else player_at c g.curplayer λ p.
        if is_network p.aitype
        then set_state_now c g' auto_defense_loop
        else let (shown, c') = calls.preround_auto_defense c g.curplayer in
          if shown
          then wait c' (set_state g' auto_defense delay_prompt)
          else set_state_now c' g' auto_defense_loop

  unfoldable pub do_lottery_display : Config W → Game → Next W
  do_lottery_display c g =
      let (shown, c') = calls.preround_lottery c in
      if c.lottery_winner
      then if shown
        then wait c' (set_state g lottery_display_wait delay_prompt)
        else set_state_now c' g turn_begin
      else set_state_now c g turn_begin

  unfoldable pub do_round_end : Config W → Game → Next W
  do_round_end c g =
      let won = record c { players = set_victor c.survivalbonus c.numplayers c.players } in
      let c' = calls.economy_interest won in
      if leb_ℤ c'.numrounds (c'.curround +ℤ pos 1)
      then set_state_now c' g game_end
      else wait c' (set_state g round_end_idle delay_prompt)

  unfoldable pub do_turn_begin : Config W → Game → Next W
  do_turn_begin c g =
      let (t, c0) = calls.time c in
      let c' = calls.config_init_turn c0 in
      let g' = record g { timeout = t } in
      if victor c'.numplayers c'.players
      then set_state_now c' g' round_end
      else set_state_now c' (record g' { curplayer = 0 }) turn_pl_begin

  unfoldable pub do_turn_pl_begin : Config W → Game → Next W
  do_turn_pl_begin c g = order_at c g.curplayer λ j p.
      let (continue, c') = calls.ai_player_turn c j in
      if p.dead
      then wait c (set_state g turn_pl_done delay_short)
      else if continue
      then wait c' (set_state g turn_pl_done delay_short)
      else wait c' (set_state g turn_pl_idle delay_prompt)

  unfoldable pub do_turn_pl_done : Config W → Game → Next W
  do_turn_pl_done c g = order_at c g.curplayer λ j p.
      let armed = record c { players = set c.players j (record p { armed = true }) } in
      let c' = if p.dead then c else armed in
      elim c'.mode [
        | sequential ↦ set_state_asap c' g run_talk
        | synchronous ↦ set_state_now c' g turn_pl_next
      ]

  unfoldable pub do_turn_pl_next : Config W → Game → Next W
  do_turn_pl_next c g =
      let g' = record g { curplayer = g.curplayer + 1 } in
      if leb c.numplayers (g.curplayer + 1)
      then elim c.mode [
        | sequential ↦ set_state_now c g' turn_end
        | synchronous ↦ set_state_asap c (record g { curplayer = 0 }) run_talk
      ]
      else set_state_now c g' turn_pl_begin

  unfoldable pub do_run_talk : Config W → Game → Next W
  do_run_talk c g = order_at c g.curplayer λ j p.
      let (nextstate, next) = talk_next c g in
      let g' = record g { curplayer = next } in
      let (message, c') = calls.player_talk c j in
      if not p.dead && p.armed
      then if not (gfx_fast c') && message
        then wait c' (set_state g' nextstate delay_talk)
        else set_state_now c' g' nextstate
      else set_state_now c g' nextstate

  unfoldable pub do_run_creation : Config W → Game → Next W
  do_run_creation c g =
      let (t, c0) = calls.time c in
      let (explosions, init, c') = calls.weapon_create_all c0 g.queues.expl_init in
      let g' = record g {
        activity = false;
        timeout = t;
        queues = record g.queues { expl_init = init };
      } in
      if explosions then set_state_now c' g' run_explosion else set_state_now c' g' run_weapons

  unfoldable pub do_run_weapons : Config W → Game → Next W
  do_run_weapons c g =
      let (track, init, c') = calls.weapon_track_all c g.queues.expl_init in
      let g' = record g { queues = record g.queues { expl_init = init } } in
      elim track [
        | no_action ↦
            if c'.interleave && g'.activity
            then set_state_now c' (record g' { activity = false }) run_explosion
            else set_state_now c' g' run_end
        | need_recurse ↦
            if any_expl g'.queues
            then set_state_now c' g' run_explosion
            else wait c' (reinstate g' (fast c' machine_interval))
        | detonate ↦ set_state_now c' g' run_explosion
        | sizzle ↦ wait c' g'
      ]

  -- Where the handler goes on from the explosions.
  unfoldable pub explosion_next : Config W → Queues → Game → Next W
  explosion_next c1 q g =
      let (t, c') = calls.time c1 in
      let g' = record g { queues = q; timeout = t; activity = g.activity || any_expl q } in
      if c'.interleave
      then set_state_now c' g' run_player_drop
      else if any_expl q
      then set_state_allow_now c' g' run_explosion (fast c' machine_interval)
      else set_state_now c' g' run_player_drop

  -- `fuel` bounds the loop over the queues.
  unfoldable pub do_run_explosion : ℕ → Config W → Game → Next W
  do_run_explosion fuel c g = elim (explosion_loop calls fuel (c, g.queues)) [
    | none ↦ out_of_fuel
    | some (c1, q) ↦ explosion_next c1 (update_all q) g
  ]

  -- Which players drop.
  unfoldable pub do_run_player_drop : Config W → Game → Next W
  do_run_player_drop c g =
      let (dropped, c') = calls.player_drop_all c in
      let g' = record g { activity = true } in
      if dropped
      then if c'.interleave
        then wait c' (set_state g' run_weapons (fast c' machine_interval))
        else reinstate_allow_now c' g' (fast c' machine_interval)
      else set_state_now c' (record g { substate = 0 }) run_player_death

  -- The death of a player who has no life left but is not dead yet.
  unfoldable pub kill_player : Config W → Game → ℕ → Config W × Game
  kill_player c g i =
      let (init, c1) = calls.player_death (calls.player_death_talk c i) i g.queues.expl_init in
      let c2 : Config W = elim (get_elem? c1.players i) [
        | none ↦ c1
        | some p ↦ record c1 { players = set c1.players i (died c1.deathloss p) }
      ] in
      (c2, record g { activity = true; queues = record g.queues { expl_init = init } })

  -- Where the handler goes on after a death.
  unfoldable pub after_death : Config W → Game → Next W
  after_death c g =
      if c.interleave
      then reinstate_now c (record g { substate = g.substate + 1 })
      else set_state_now_then c g run_explosion

  unfoldable pub do_run_player_death : Config W → Game → Next W
  do_run_player_death c g =
      let bumped = record g { substate = g.substate + 1 } in
      if leb c.numplayers g.substate
      then wait c (set_state g run_weapons (fast c machine_interval))
      else player_at c g.substate λ p.
        if not p.dead && leb_ℤ p.life (pos 0)
        then after_death (kill_player c g g.substate).0 (kill_player c g g.substate).1
        else reinstate_now c bumped

  unfoldable pub do_run_end : Config W → Game → Next W
  do_run_end c g = elim c.mode [
    | sequential ↦ set_state_now c g turn_pl_next
    | synchronous ↦ set_state_now c g turn_end
  ]
