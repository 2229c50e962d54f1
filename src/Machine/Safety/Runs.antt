-- ===== src/Machine/Safety/Runs.antt =====
-- No read out of range in the handlers of sgame/sstate.c that fire the weapons, run the explosions
-- and drop and kill the players.
use mathlib.Core.Path.{subst}
use mathlib.Core.Option.{some-injective}
use xscorch.Machine.Safety.Turns.{mode-IsGood}
use xscorch.Prelude.{
  ℕ, zero, suc, ◌+◌, ◌<◌, Bool, true, false, ◌≡◌, arith, leb, Bool-cases, inl, inr, get_elem?, some,
  Option-cases, ◌&&◌, not, if◌then◌else◌,
}
use xscorch.Prelude.Int.{pos, leb_ℤ}
use xscorch.Game.Queue.{Expl}
use xscorch.Game.Queue.Visits.{do_runnable_inv, run_first_inv}
use xscorch.Game.Players.{died}
use xscorch.Machine.Codes.{
  run_weapons, run_explosion, run_player_drop, run_player_death, run_end, turn_pl_next, turn_end,
}
use xscorch.Machine.World.{
  Config, Queues, Game, Calls, Track, no_action, need_recurse, detonate, sizzle, any_expl, is_empty,
}
use xscorch.Machine.Actions.{
  run_draw_expl, run_draw_expl_cont, run_clear_expl, run_clear_expl_cont, run_land_fall,
  run_explosion_simult, run_explosion_nosimult, explosion_pass, explosion_loop,
}
use xscorch.Machine.Handlers.{
  Next, do_run_creation, do_run_weapons, do_run_explosion, explosion_next, do_run_player_drop,
  do_run_player_death, do_run_end, update_all, kill_player, after_death,
}
use xscorch.Machine.Safety.{
  IsSized, IsSized-set, Keeps, HasPlayer, IsGood, waits, spent, if_IsGood, wait-IsGood, now-IsGood,
  now_then-IsGood, allow_now-IsGood, reinstate-IsGood, reinstate_now-IsGood,
  reinstate_allow_now-IsGood, player_at-IsGood,
}

-- What the explosion actions keep: the sizes of the configuration beside the queues.
abbrev SizedPair : {W : Type 0} → ℕ → Config W × Queues → Type 0
SizedPair n s = IsSized n s.0

if_pair :
    {W : Type 0} {n : ℕ} (b : Bool) (x y : Bool × (Config W × Queues))
    → SizedPair n x.1
    → SizedPair n y.1
    → SizedPair n (if b then x else y).1
if_pair true x y h k = h
if_pair false x y h k = k

module _ {W : Type 0} {calls : Calls W} {n : ℕ} (keeps : Keeps n calls) where
  draw_sized :
      (s : Config W × Queues) (e : Expl) → SizedPair n s → SizedPair n (run_draw_expl calls s e).1
  unfolding run_draw_expl
  draw_sized (c, q) e z =
      if_pair (calls.expl_annihilate c e).0 _ _ (keeps.expl_annihilate c e z)
        (keeps.expl_annihilate c e z)

  draw_cont_sized :
      (s : Config W × Queues) (e : Expl)
      → SizedPair n s
      → SizedPair n (run_draw_expl_cont calls s e).1
  unfolding run_draw_expl_cont
  draw_cont_sized (c, q) e z =
      let z' = keeps.expl_annihilate_continue c e z in
      if_pair (calls.expl_annihilate_continue c e).0 _ _ z' z'

  clear_sized :
      (s : Config W × Queues) (e : Expl) → SizedPair n s → SizedPair n (run_clear_expl calls s e).1
  unfolding run_clear_expl
  clear_sized (c, q) e z =
      let z' = keeps.expl_annihilate_clear _ e (keeps.player_damage_all c e z) in
      if_pair (calls.expl_annihilate_clear (calls.player_damage_all c e) e).0 _ _ z' z'

  clear_cont_sized :
      (s : Config W × Queues) (e : Expl)
      → SizedPair n s
      → SizedPair n (run_clear_expl_cont calls s e).1
  unfolding run_clear_expl_cont
  clear_cont_sized (c, q) e z =
      let z' = keeps.expl_annihilate_clear_continue c e z in
      if_pair (calls.expl_annihilate_clear_continue c e).0 _ _ z' z'

  land_sized :
      (s : Config W × Queues) (e : Expl) → SizedPair n s → SizedPair n (run_land_fall calls s e).1
  unfolding run_land_fall
  land_sized (c, q) e z =
      let z' = keeps.land_drop c e.centerx e.radius z in
      if_pair (calls.land_drop c e.centerx e.radius).0 _ _ z' z'

  simult_sized :
      (s : Config W × Queues) → SizedPair n s → SizedPair n (run_explosion_simult calls s).1
  unfolding run_explosion_simult
  simult_sized s z =
      let P = λ (t : Config W × Queues). SizedPair n t in
      do_runnable_inv (run_land_fall calls) P land_sized _ _ (
        do_runnable_inv (run_clear_expl_cont calls) P clear_cont_sized _ _ (
          do_runnable_inv (run_clear_expl calls) P clear_sized _ _ (
            do_runnable_inv (run_draw_expl_cont calls) P draw_cont_sized _ _
              (do_runnable_inv (run_draw_expl calls) P draw_sized _ s z))))

  nosimult_sized :
      (s : Config W × Queues) → SizedPair n s → SizedPair n (run_explosion_nosimult calls s).1
  unfolding run_explosion_nosimult
  nosimult_sized s z =
      let P = λ (t : Config W × Queues). SizedPair n t in
      if_pair (not (is_empty s.1.expl_done)) _ _
        (run_first_inv (run_land_fall calls) P land_sized _ s z)
        (if_pair (not (is_empty s.1.expl_clear)) _ _
          (run_first_inv (run_clear_expl_cont calls) P clear_cont_sized _ s z)
          (if_pair (not (is_empty s.1.expl_clear_init)) _ _
            (run_first_inv (run_clear_expl calls) P clear_sized _ s z)
            (if_pair (not (is_empty s.1.expl_draw)) _ _
              (run_first_inv (run_draw_expl_cont calls) P draw_cont_sized _ s z)
              (if_pair (not (is_empty s.1.expl_init)) _ _
                (run_first_inv (run_draw_expl calls) P draw_sized _ s z) z))))

  pass_sized : (s : Config W × Queues) → SizedPair n s → SizedPair n (explosion_pass calls s).1
  unfolding explosion_pass
  pass_sized s z = if_pair s.0.interleave _ _ (simult_sized s z) (nosimult_sized s z)

  loop_sized :
      (fuel : ℕ) (s t : Config W × Queues)
      → SizedPair n s
      → explosion_loop calls fuel s ≡ some t
      → SizedPair n t
  unfolding explosion_loop
  loop_sized zero s t z e = cc
  loop_sized (suc fuel) s t z e = elim (Bool-cases (explosion_pass calls s).0) [
    | inl r ↦ loop_sized fuel (explosion_pass calls s).1 t (pass_sized s z) (rw r at e)
    | inr r ↦ subst (SizedPair n) (some-injective _ _ (rw r at e)) (pass_sized s z)
  ]

module _ {W : Type 0} {calls : Calls W} {n : ℕ} (keeps : Keeps n calls) (c : Config W) (g : Game)
    (z : IsSized n c) where
  pub run_creation-IsGood : IsGood n (do_run_creation calls c g)
  unfolding do_run_creation
  run_creation-IsGood =
      let z' = keeps.weapon_create_all _ g.queues.expl_init (keeps.time c z) in
      if_IsGood (calls.weapon_create_all (calls.time c).1 g.queues.expl_init).0
        (λ _. now-IsGood keeps _ _ run_explosion z' (λ e. cc))
        (λ _. now-IsGood keeps _ _ run_weapons z' (λ e. cc))

  pub run_player_drop-IsGood : HasPlayer n g → IsGood n (do_run_player_drop calls c g)
  unfolding do_run_player_drop
  run_player_drop-IsGood h =
      let z' = keeps.player_drop_all c z in
      if_IsGood (calls.player_drop_all c).0
        (λ _.
          if_IsGood (calls.player_drop_all c).1.interleave
            (λ _. wait-IsGood _ _ run_weapons _ z' (λ e. cc))
            (λ _. reinstate_allow_now-IsGood keeps _ _ _ z' h))
        (λ _. now-IsGood keeps _ _ run_player_death z' (λ e. cc))

  pub run_end-IsGood : IsGood n (do_run_end calls c g)
  unfolding do_run_end
  run_end-IsGood =
      mode-IsGood c.mode (now-IsGood keeps c g turn_pl_next z (λ e. cc))
        (now-IsGood keeps c g turn_end z (λ e. cc))

  track-IsGood :
      (t : Track) {x y w v : Next W}
      → IsGood n x
      → IsGood n y
      → IsGood n w
      → IsGood n v
      → IsGood n (elim t [ no_action ↦ x | need_recurse ↦ y | detonate ↦ w | sizzle ↦ v ])
  track-IsGood no_action h k l m = h
  track-IsGood need_recurse h k l m = k
  track-IsGood detonate h k l m = l
  track-IsGood sizzle h k l m = m

  pub run_weapons-IsGood : HasPlayer n g → IsGood n (do_run_weapons calls c g)
  unfolding do_run_weapons
  run_weapons-IsGood h =
      let r = calls.weapon_track_all c g.queues.expl_init in
      let z' = keeps.weapon_track_all c g.queues.expl_init z in
      track-IsGood r.0
        (if_IsGood (r.2.interleave && g.activity)
          (λ _. now-IsGood keeps _ _ run_explosion z' (λ e. cc))
          (λ _. now-IsGood keeps _ _ run_end z' (λ e. cc)))
        (if_IsGood (any_expl (record g.queues { expl_init = r.1 }))
          (λ _. now-IsGood keeps _ _ run_explosion z' (λ e. cc)) (λ _. reinstate-IsGood _ _ _ z' h))
        (now-IsGood keeps _ _ run_explosion z' (λ e. cc))
        (waits (record { sized = z'; player = h }))

  explosion_next-IsGood : (q : Queues) → IsGood n (explosion_next calls c q g)
  unfolding explosion_next
  explosion_next-IsGood q =
      let z' = keeps.time c z in
      if_IsGood (calls.time c).1.interleave (λ _. now-IsGood keeps _ _ run_player_drop z' (λ e. cc))
        (λ _.
          if_IsGood (any_expl q) (λ _. allow_now-IsGood keeps _ _ run_explosion _ z' (λ e. cc))
            (λ _. now-IsGood keeps _ _ run_player_drop z' (λ e. cc)))

  after_death-IsGood : HasPlayer n g → IsGood n (after_death calls c g)
  unfolding after_death
  after_death-IsGood h =
      if_IsGood c.interleave
        (λ _. reinstate_now-IsGood keeps c (record g { substate = g.substate + 1 }) z h)
        (λ _. now_then-IsGood keeps c g run_explosion z (λ e. cc))

module _ {W : Type 0} {calls : Calls W} {n : ℕ} (keeps : Keeps n calls) (c : Config W) (g : Game)
    (z : IsSized n c) where
  pub run_explosion-IsGood : (fuel : ℕ) → IsGood n (do_run_explosion calls fuel c g)
  unfolding do_run_explosion
  run_explosion-IsGood fuel = elim (Option-cases (explosion_loop calls fuel (c, g.queues))) [
    | inl e ↦ rw (e, do_run_explosion) spent
    | inr (s, e) ↦
        let z' = loop_sized keeps fuel (c, g.queues) s z e in
        rw (e, do_run_explosion) (explosion_next-IsGood keeps s.0 g z' (update_all s.1))
  ]

  killed-IsSized : (i : ℕ) → IsSized n (kill_player calls c g i).0
  unfolding kill_player
  killed-IsSized i =
      let c1 = (calls.player_death (calls.player_death_talk c i) i g.queues.expl_init).1 in
      let z1 = keeps.player_death _ i g.queues.expl_init (keeps.player_death_talk c i z) in
      elim (Option-cases (get_elem? c1.players i)) [
        | inl e ↦ rw (e, kill_player) z1
        | inr (p, e) ↦ rw (e, kill_player) (IsSized-set c1 z1 i (died c1.deathloss p))
      ]

  killed_player : (i : ℕ) → HasPlayer n g → HasPlayer n (kill_player calls c g i).1
  unfolding kill_player
  killed_player i h = h

  pub run_player_death-IsGood : HasPlayer n g → IsGood n (do_run_player_death calls c g)
  unfolding do_run_player_death
  run_player_death-IsGood h =
      if_IsGood (leb c.numplayers g.substate) (λ _. wait-IsGood c g run_weapons _ z (λ e. cc))
        (λ e. player_at-IsGood c z g.substate _ (more e) λ p _.
          if_IsGood (not p.dead && leb_ℤ p.life (pos 0))
            (λ _.
              after_death-IsGood keeps _ (kill_player calls c g g.substate).1
                (killed-IsSized g.substate) (killed_player g.substate h))
            (λ _. reinstate_now-IsGood keeps c _ z h))
    where
      more : leb c.numplayers g.substate ≡ false → g.substate < n
      more e = let k = z.count in ground arith
