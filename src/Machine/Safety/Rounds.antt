-- ===== src/Machine/Safety/Rounds.antt =====
-- No read out of range in the handlers of sgame/sstate.c around a round: prelude, inventory,
-- automatic defence, lottery, start and end of rounds and games.
use xscorch.Prelude.{ℕ, ◌+◌, ◌<◌, false, ◌≡◌, arith, leb}
use xscorch.Machine.Codes.{
  prelude_idle, game_end_idle, inventory_begin, inventory_pl_begin, inventory_pl_idle,
  inventory_pl_done, round_begin, auto_defense, auto_defense_loop, lottery_display,
  lottery_display_wait, turn_begin,
}
use xscorch.Machine.World.{Config, Game, Calls}
use xscorch.Machine.Handlers.{
  is_network, do_prelude_begin, do_game_begin, do_game_end, do_inventory_begin,
  do_inventory_pl_begin, do_inventory_pl_done, do_round_begin, do_auto_defense, do_lottery_display,
}
use xscorch.Machine.Safety.{
  IsSized, Keeps, IsGood, if_IsGood, wait-IsGood, now-IsGood, asap-IsGood, player_at-IsGood,
}

module _ {W : Type 0} {calls : Calls W} {n : ℕ} (keeps : Keeps n calls) (c : Config W) (g : Game)
    (z : IsSized n c) where
  pub prelude_begin-IsGood : IsGood n (do_prelude_begin calls c g)
  unfolding do_prelude_begin
  prelude_begin-IsGood = wait-IsGood c g prelude_idle _ z (λ e. cc)

  pub game_begin-IsGood : IsGood n (do_game_begin calls c g)
  unfolding do_game_begin
  game_begin-IsGood =
      asap-IsGood keeps _ _ inventory_begin (keeps.time _ (keeps.config_init_game c z)) (λ e. cc)

  pub game_end-IsGood : IsGood n (do_game_end calls c g)
  unfolding do_game_end
  game_end-IsGood = wait-IsGood c g game_end_idle _ z (λ e. cc)

  pub inventory_begin-IsGood : IsGood n (do_inventory_begin calls c g)
  unfolding do_inventory_begin
  inventory_begin-IsGood = now-IsGood keeps c _ inventory_pl_begin z (λ e. z.someone)

  pub inventory_pl_begin-IsGood : g.curplayer < n → IsGood n (do_inventory_pl_begin calls c g)
  unfolding do_inventory_pl_begin
  inventory_pl_begin-IsGood h = player_at-IsGood c z g.curplayer _ h λ p e.
      let z' = keeps.ai_player_buy c g.curplayer z in
      if_IsGood (calls.ai_player_buy c g.curplayer).0
        (λ _. now-IsGood keeps _ g inventory_pl_done z' (λ _. h))
        (λ _. wait-IsGood _ g inventory_pl_idle _ z' (λ _. h))

  pub inventory_pl_done-IsGood : IsGood n (do_inventory_pl_done calls c g)
  unfolding do_inventory_pl_done
  inventory_pl_done-IsGood =
      if_IsGood (leb c.numplayers (g.curplayer + 1))
        (λ _. now-IsGood keeps c _ round_begin z (λ e. cc))
        (λ e. now-IsGood keeps c _ inventory_pl_begin z (λ _. more e))
    where
      more : leb c.numplayers (g.curplayer + 1) ≡ false → g.curplayer + 1 < n
      more e = let k = z.count in ground arith

  pub round_begin-IsGood : IsGood n (do_round_begin calls c g)
  unfolding do_round_begin
  round_begin-IsGood =
      asap-IsGood keeps _ g auto_defense_loop (keeps.config_init_round c z) (λ e. cc)

  pub auto_defense-IsGood : IsGood n (do_auto_defense calls c g)
  unfolding do_auto_defense
  auto_defense-IsGood =
      if_IsGood (leb c.numplayers g.curplayer)
        (λ _. now-IsGood keeps c _ lottery_display z (λ e. cc))
        (λ e. player_at-IsGood c z g.curplayer _ (more e) λ p _.
          if_IsGood (is_network p.aitype) (λ _. now-IsGood keeps c _ auto_defense_loop z (λ e. cc))
            (λ _.
              let z' = keeps.preround_auto_defense c g.curplayer z in
              if_IsGood (calls.preround_auto_defense c g.curplayer).0
                (λ _. wait-IsGood _ _ auto_defense _ z' (λ e. cc))
                (λ _. now-IsGood keeps _ _ auto_defense_loop z' (λ e. cc))))
    where
      more : leb c.numplayers g.curplayer ≡ false → g.curplayer < n
      more e = let k = z.count in ground arith

  pub lottery_display-IsGood : IsGood n (do_lottery_display calls c g)
  unfolding do_lottery_display
  lottery_display-IsGood =
      let z' = keeps.preround_lottery c z in
      if_IsGood c.lottery_winner
        (λ _.
          if_IsGood (calls.preround_lottery c).0
            (λ _. wait-IsGood _ g lottery_display_wait _ z' (λ e. cc))
            (λ _. now-IsGood keeps _ g turn_begin z' (λ e. cc)))
        (λ _. now-IsGood keeps c g turn_begin z (λ e. cc))
