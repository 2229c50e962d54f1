-- ===== src/Weapons/Ends.antt =====
-- The loops of sgame/strack.c over the chains of weapons end, and what their results say.
use mathlib.Core.Path.{subst}
use xscorch.Prelude.{
  ℕ, zero, suc, ◌+◌, ◌≤◌, List, [], ◌∷◌, ◌++◌, Bool, true, Option, none, some, ◌≡◌, ◌≢◌, refl, sym,
  arith, inl, inr, ◌⊎◌,
}
use xscorch.Prelude.Int.{ℤ}
use xscorch.Items.{WeaponInfo}
use xscorch.Game.Queue.{Expl, Chain}
use xscorch.Weapons.Levels.{Descends}
use xscorch.Weapons.Flight.{Weapon, Calls}
use xscorch.Weapons.Track.{
  TrackResult, nothing, need_recurse, detonated, sizzled, join, keep, track_chain, track_all,
}
use xscorch.Weapons.Budget.{
  has_explosions, Descends-Lasts, Lasts-Descends, Lasts-pos, Lives, Lives-pos, Budget,
  Budget-append,
}
use xscorch.Weapons.Rounds.{KeptAs, track-Tracks}

module _ {W T : Type 0} (calls : Calls W T) (lookup : ℤ → Option WeaponInfo) where
  -- The children of every weapon come to an end.
  abbrev pub AllDescend : List (Weapon T) → Type 0
  AllDescend [] = Unit
  AllDescend (wp ∷ weapons) =
      ((d : ℕ) × (l : ℕ) × Descends lookup d wp.weaponinfo l) × AllDescend weapons

  abbrev pub PlayersDescend : List (List (Weapon T)) → Type 0
  PlayersDescend [] = Unit
  PlayersDescend (weapons ∷ players) = AllDescend weapons × PlayersDescend players

  -- No weapon is in flight.
  abbrev pub AllLanded : List (List (Weapon T)) → Type 0
  AllLanded [] = Unit
  AllLanded (weapons ∷ players) = (weapons ≡ []) × AllLanded players

  AllDescend-Budget :
      (weapons : List (Weapon T)) → AllDescend weapons → (n : ℕ) × Budget lookup weapons n
  AllDescend-Budget [] h = (0, tt)
  AllDescend-Budget (wp ∷ weapons) ((d, l, descends), h) =
      let (m, lasts) = Descends-Lasts lookup d l wp.weaponinfo descends in
      let (n, budget) = AllDescend-Budget weapons h in
      let more = Lasts-pos lookup d m wp.weaponinfo lasts in
      (m + n, (m, n, (d, m, lasts, ground arith), budget, omega arith))

  module _
      (memory : (w : W) (wp : Weapon T) (at_tank : Bool)
        → (expl : Expl) × (calls.get_explosion w wp at_tank ≡ some expl)) where
    -- A run over a list of chains, of weapons or of players: `Left` says what is left, `Landed` that
    -- nothing is.
    abbrev pub Ended :
        {A : Type 0}
        → (A → Type 0)
        → (A → Type 0)
        → TrackResult
        → Chain
        → Option (TrackResult × A × Chain × W)
        → Type 0
    Ended {A} Left Landed result e r =
        (result' : TrackResult) × (left : A) × (e' : Chain) × (w' : W) × (r
          ≡ some (result', left, e', w'))
        × Left left
        × (result' ≡ sizzled → result ≡ sizzled)
        × (has_explosions e ≡ true → has_explosions e' ≡ true)
        × (result' ≡ detonated → (result ≡ detonated) ⊎ (has_explosions e' ≡ true))
        × (result' ≡ nothing → (result ≡ nothing) × Landed left)

    join-nothing :
        (result r : TrackResult) → join calls lookup result r ≡ nothing → result ≡ nothing
    unfolding join
    join-nothing result r h = ground arith

    join-detonated :
        (result r : TrackResult)
        → join calls lookup result r ≡ detonated
        → (result ≡ detonated) ⊎ (r ≡ detonated)
    unfolding join
    join-detonated result r h = ground arith

    join-sizzled :
        (result r : TrackResult) → join calls lookup result r ≡ sizzled → result ≡ sizzled
    unfolding join
    join-sizzled result r h = ground arith

    join-nothing_last :
        (result r : TrackResult)
        → join calls lookup result r ≡ nothing
        → (r ≡ nothing) ⊎ (r ≡ sizzled)
    unfolding join
    join-nothing_last result r h = ground arith

    keep-AllDescend :
        (info : WeaponInfo) (kept : Option (Weapon T)) (r : TrackResult) (left : List (Weapon T))
        → KeptAs calls lookup memory info kept r
        → (d : ℕ) × (l : ℕ) × Descends lookup d info l
        → AllDescend left
        → AllDescend (keep calls lookup kept left)
    keep-AllDescend info none r left h g k = k
    keep-AllDescend info (some wp) r left h (d, l, descends) k =
        ((d, l, subst (λ i. Descends lookup d i l) (sym h.0) descends), k)

    keep-nil :
        (info : WeaponInfo) (kept : Option (Weapon T)) (r result : TrackResult)
        (left : List (Weapon T))
        → KeptAs calls lookup memory info kept r
        → join calls lookup result r ≡ nothing
        → left ≡ []
        → keep calls lookup kept left ≡ []
    unfolding join
    keep-nil info none r result left h j k = k
    keep-nil info (some wp) r result left h j k =
        let start = join-nothing result r j in
        let waits : join calls lookup nothing need_recurse ≡ nothing = rw (start, h.1) at j in
        absurd (let clash : need_recurse ≡ nothing = waits in cc)

    Lives-Descends :
        (wp : Weapon T) (n : ℕ)
        → Lives lookup wp n
        → (d : ℕ) × (l : ℕ) × Descends lookup d wp.weaponinfo l
    Lives-Descends wp n (d, m, lasts, l) =
        let (levels, descends) = Lasts-Descends lookup d m wp.weaponinfo lasts in
        (d, levels, descends)

    blown_later :
        (result r r' : TrackResult) (e' e'' : Chain)
        → (r ≡ detonated → has_explosions e' ≡ true)
        → (has_explosions e' ≡ true → has_explosions e'' ≡ true)
        → (r' ≡ detonated → (join calls lookup result r ≡ detonated) ⊎ (has_explosions e'' ≡ true))
        → r' ≡ detonated
        → (result ≡ detonated) ⊎ (has_explosions e'' ≡ true)
    blown_later result r r' e' e'' now keeps later h = elim (later h) [
      | inr lit ↦ inr lit
      | inl j ↦ elim (join-detonated result r j) [
        | inl before ↦ inl before
        | inr here ↦ inr (keeps (now here))
      ]
    ]

    chain_ends :
        (fuel : ℕ) (weapons : List (Weapon T)) (n : ℕ) (result : TrackResult) (w : W) (e : Chain)
        → Budget lookup weapons n
        → n ≤ fuel
        → Ended AllDescend
            (λ left. left ≡ [])
            result
            e
            (track_chain calls lookup weapons fuel result w e)
    unfolding track_chain
    chain_ends fuel [] n result w e h l =
        (result, [], e, w, refl, tt, λ z. z, λ lit. lit, λ b. inl b, λ b. (b, refl))
    chain_ends zero (wp ∷ weapons) n result w e (a, b, lives, budget, sum) l =
        let more = Lives-pos lookup wp a lives in absurd (omega arith)
    chain_ends (suc fuel) (wp ∷ weapons) n result w e (a, b, lives, budget, sum) l =
        let (t, k, ran, room, goes) = track-Tracks calls lookup memory w wp e a lives in
        let rest = Budget-append lookup t.inserted weapons k b goes.within budget in
        let (result', left, e', w', ended, all, quiet, keeps, blown, landed) =
          chain_ends fuel (t.inserted ++ weapons) (k + b) (join calls lookup result t.result) t.w
            t.e rest (omega arith) in
        (
          result',
          keep calls lookup t.kept left,
          e',
          w',
          rw (ran, track_chain, ended) refl,
          keep-AllDescend wp.weaponinfo t.kept t.result left goes.same (Lives-Descends wp a lives)
              all,
          λ z. join-sizzled result t.result (quiet z),
          λ lit. keeps (goes.keeps lit),
          blown_later result t.result result' t.e e' goes.blown keeps blown,
          λ none_left.
              let (j, nil) = landed none_left in
              (
                join-nothing result t.result j,
                keep-nil wp.weaponinfo t.kept t.result result left goes.same j nil,
              ),
        )

    only_here :
        (e' : Chain) → (nothing ≡ detonated) ⊎ (has_explosions e' ≡ true) → has_explosions e' ≡ true
    only_here e' (inl clash) = cc
    only_here e' (inr lit) = lit

    all_end :
        (players : List (List (Weapon T)))
        → PlayersDescend players
        → (n : ℕ) × ((fuel : ℕ)
            → n ≤ fuel
            → (result : TrackResult) (w : W) (e : Chain)
            → Ended PlayersDescend AllLanded result e
                (track_all calls lookup players fuel result w e))
    unfolding track_all
    all_end [] h = (
      0,
      λ fuel l result w e.
          (result, [], e, w, refl, tt, λ z. z, λ lit. lit, λ b. inl b, λ b. (b, tt)),
    )
    all_end (weapons ∷ players) (h, hs) =
        let (n, budget) = AllDescend-Budget weapons h in
        let (m, rest) = all_end players hs in
        (
          n + m,
          λ fuel l result w e.
              let (r, left, e', w', ended, all, quiet, keeps, blown, landed) =
                chain_ends fuel weapons n nothing w e budget (omega arith) in
              let (r', lefts, e'', w'', ended', all', quiet', keeps', blown', landed') =
                rest fuel (omega arith) (join calls lookup result r) w' e' in
              (
                r',
                left ∷ lefts,
                e'',
                w'',
                rw (ended, track_all, ended') refl,
                (all, all'),
                λ z. join-sizzled result r (quiet' z),
                λ lit. keeps' (keeps lit),
                blown_later result r r' e' e'' (λ b. only_here e' (blown b)) keeps' blown',
                λ none_left.
                    let (j, nil) = landed' none_left in
                    (
                      join-nothing result r j,
                      ((landed (last_nothing quiet (join-nothing_last result r j))).1, nil),
                    ),
              ),
        )
      where
        last_nothing :
            {r : TrackResult}
            → (r ≡ sizzled → nothing ≡ sizzled)
            → (r ≡ nothing) ⊎ (r ≡ sizzled)
            → r ≡ nothing
        last_nothing quiet (inl h) = h
        last_nothing quiet (inr h) = let clash = quiet h in cc

    -- A round of tracking ends for all players, with nothing read through NULL, whatever the
    -- trajectories do. If it reports a detonation, there is an explosion to run; if it reports that
    -- tracking is complete, no weapon is left in flight; and the weapons that are left can be tracked
    -- again, as their children come to an end too. Assumed: the children of every weapon in flight
    -- come to an end, with none missing, and there is memory for explosions.
    pub track_all_ends :
        (players : List (List (Weapon T)))
        → PlayersDescend players
        → (n : ℕ) × ((fuel : ℕ)
            → n ≤ fuel
            → (w : W) (e : Chain)
            → (result : TrackResult) × (left : List (List (Weapon T))) × (e' : Chain) × (w' : W)
              × (track_all calls lookup players fuel nothing w e ≡ some (result, left, e', w'))
              × PlayersDescend left
              × (result ≢ sizzled)
              × (result ≡ detonated → has_explosions e' ≡ true)
              × (result ≡ nothing → AllLanded left))
    track_all_ends players h =
        let (n, runs) = all_end players h in
        (
          n,
          λ fuel l w e.
              let (result, left, e', w', ended, all, quiet, keeps, blown, landed) =
                runs fuel l nothing w e in
              (
                result,
                left,
                e',
                w',
                ended,
                all,
                λ z. let clash = quiet z in cc,
                λ b. only_here e' (blown b),
                λ b. (landed b).1,
              ),
        )
