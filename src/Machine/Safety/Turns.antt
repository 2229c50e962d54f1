-- ===== src/Machine/Safety/Turns.antt =====
-- No read out of range in the handlers of sgame/sstate.c for a player's turn, and at a round's end.
use xscorch.Prelude.{
  ℕ, zero, suc, ◌+◌, ◌<◌, Bool, true, false, ◌≡◌, refl, ◌∙◌, arith, leb, inl, inr, set, get_elem?,
  List, length, length-set, Option-cases, if◌then◌else◌, not, ◌&&◌,
}
use xscorch.Prelude.Int.{ℤ, pos, ◌+ℤ◌, leb_ℤ}
use xscorch.Player.{Player, is_alive}
use xscorch.Game.Players.{reward_slot, set_victor, victor, inc_wins}
use xscorch.Machine.Codes.{
  game_end, round_end, round_end_idle, turn_pl_begin, turn_pl_idle, turn_pl_done, turn_pl_next,
  turn_end, run_talk,
}
use xscorch.Machine.World.{Config, Game, Calls, Mode, sequential, synchronous, gfx_fast}
use xscorch.Machine.Handlers.{
  Next, do_round_end, do_turn_begin, do_turn_pl_begin, do_turn_pl_done, do_turn_pl_next,
  do_run_talk, talk_next,
}
use xscorch.Machine.Safety.{
  IsSized, IsSized-set, Keeps, IsGood, if_IsGood, wait-IsGood, now-IsGood, asap-IsGood,
  order_at-IsGood, needs_player,
}

length-reward_slot :
    (bonus : ℤ) (i : ℕ) (ps : List Player) → length (reward_slot bonus i ps) ≡ length ps
unfolding reward_slot
length-reward_slot bonus i ps = elim (Option-cases (get_elem? ps i)) [
  | inl e ↦ rw (e, reward_slot)
  | inr (p, e) ↦ rw (e, reward_slot) (if_length (is_alive p) _ (length-set ps i (inc_wins bonus p)))
]
  where
    if_length :
        (b : Bool) (qs : List Player)
        → length qs ≡ length ps
        → length (if b then qs else ps) ≡ length ps
    if_length true qs h = h
    if_length false qs h = refl

length-set_victor :
    (bonus : ℤ) (i : ℕ) (ps : List Player) → length (set_victor bonus i ps) ≡ length ps
unfolding set_victor
length-set_victor bonus zero ps = refl
length-set_victor bonus (suc i) ps =
    length-set_victor bonus i (reward_slot bonus i ps) ∙ length-reward_slot bonus i ps

pub mode-IsGood :
    {W : Type 0} {n : ℕ} (m : Mode) {x y : Next W}
    → IsGood n x
    → IsGood n y
    → IsGood n (elim m [ sequential ↦ x | synchronous ↦ y ])
mode-IsGood sequential h k = h
mode-IsGood synchronous h k = k

module _ {W : Type 0} {calls : Calls W} {n : ℕ} (keeps : Keeps n calls) (c : Config W) (g : Game)
    (z : IsSized n c) where
  pub round_end-IsGood : IsGood n (do_round_end calls c g)
  unfolding do_round_end
  round_end-IsGood =
      let won : Config W = record c {
        players = set_victor c.survivalbonus c.numplayers c.players;
      } in
      let zw : IsSized n won = record {
        count = z.count;
        slots = length-set_victor c.survivalbonus c.numplayers c.players ∙ z.slots;
        order = z.order;
        below = z.below;
        someone = z.someone;
      } in
      let z' = keeps.economy_interest won zw in
      if_IsGood
        (leb_ℤ (calls.economy_interest won).numrounds
          ((calls.economy_interest won).curround +ℤ pos 1))
        (λ _. now-IsGood keeps _ g game_end z' (λ e. cc))
        (λ _. wait-IsGood _ g round_end_idle _ z' (λ e. cc))

  pub turn_begin-IsGood : IsGood n (do_turn_begin calls c g)
  unfolding do_turn_begin
  turn_begin-IsGood =
      let c' = calls.config_init_turn (calls.time c).1 in
      let z' = keeps.config_init_turn _ (keeps.time c z) in
      if_IsGood (victor c'.numplayers c'.players)
        (λ _. now-IsGood keeps c' _ round_end z' (λ e. cc))
        (λ _. now-IsGood keeps c' _ turn_pl_begin z' (λ e. z.someone))

  pub turn_pl_begin-IsGood : g.curplayer < n → IsGood n (do_turn_pl_begin calls c g)
  unfolding do_turn_pl_begin
  turn_pl_begin-IsGood h = order_at-IsGood c z g.curplayer _ h λ j p jn.
      let z' = keeps.ai_player_turn c j z in
      if_IsGood p.dead (λ _. wait-IsGood c g turn_pl_done _ z (λ _. h))
        (λ _.
          if_IsGood (calls.ai_player_turn c j).0 (λ _. wait-IsGood _ g turn_pl_done _ z' (λ _. h))
            (λ _. wait-IsGood _ g turn_pl_idle _ z' (λ _. h)))

  pub turn_pl_next-IsGood : IsGood n (do_turn_pl_next calls c g)
  unfolding do_turn_pl_next
  turn_pl_next-IsGood =
      if_IsGood (leb c.numplayers (g.curplayer + 1))
        (λ _.
          mode-IsGood c.mode (now-IsGood keeps c _ turn_end z (λ e. cc))
            (asap-IsGood keeps c _ run_talk z (λ _. z.someone)))
        (λ e. now-IsGood keeps c _ turn_pl_begin z (λ _. more e))
    where
      more : leb c.numplayers (g.curplayer + 1) ≡ false → g.curplayer + 1 < n
      more e = let k = z.count in ground arith

  pub turn_pl_done-IsGood : g.curplayer < n → IsGood n (do_turn_pl_done calls c g)
  unfolding do_turn_pl_done
  turn_pl_done-IsGood h = order_at-IsGood c z g.curplayer _ h λ j p jn.
      let armed : Config W = record c { players = set c.players j (record p { armed = true }) } in
      let z' : IsSized n (if p.dead then c else armed) =
        if_IsSized p.dead z (IsSized-set c z j (record p { armed = true })) in
      mode-IsGood (if p.dead then c else armed).mode
        (asap-IsGood keeps (if p.dead then c else armed) g run_talk z' (λ _. h))
        (now-IsGood keeps (if p.dead then c else armed) g turn_pl_next z' (λ e. cc))
    where
      if_IsSized :
          (b : Bool) {x y : Config W} → IsSized n x → IsSized n y → IsSized n (if b then x else y)
      if_IsSized true h k = h
      if_IsSized false h k = k

  pub run_talk-IsGood : g.curplayer < n → IsGood n (do_run_talk calls c g)
  unfolding do_run_talk
  run_talk-IsGood h = order_at-IsGood c z g.curplayer _ h λ j p jn.
      let z' = keeps.player_talk c j z in
      if_IsGood (not p.dead && p.armed)
        (λ _.
          if_IsGood (not (gfx_fast (calls.player_talk c j).1) && (calls.player_talk c j).0)
            (λ _. wait-IsGood _ _ (talk_next c g).0 _ z' more)
            (λ _. now-IsGood keeps _ _ (talk_next c g).0 z' more))
        (λ _. now-IsGood keeps c _ (talk_next c g).0 z more)
    where
      more : needs_player (talk_next c g).0 ≡ true → (talk_next c g).1 < n
      more e = let k = z.count in ground arith
