-- ===== src/Weapons/Rounds.antt =====
-- One weapon in a round of tracking (`_sc_weapon_track` of sgame/strack.c): what it leaves behind,
-- where its children come to an end and there is memory for explosions.
use mathlib.Core.Path.{subst}
use xscorch.Prelude.{
  ℕ, zero, suc, ◌+◌, ◌*◌, ◌≤◌, [], ◌∷◌, Bool, true, false, Option, none, some, ◌≡◌, refl, sym, ◌∙◌,
  arith, if◌then◌else◌, Bool-cases, inl, inr, ◌⊎◌,
}
use xscorch.Prelude.Int.{ℤ}
use xscorch.Items.{WeaponInfo}
use xscorch.Game.Queue.{Expl, Chain, expl_add}
use xscorch.Weapons.Flight.{Weapon, Calls, StepResult}
use xscorch.Weapons.Phoenix.{
  PhoenixResult, no_action, failure, sizzle, detonate, reset, Split, still, blow_up, phoenix,
}
use xscorch.Weapons.Track.{
  TrackResult, need_recurse, detonated, sizzled, Tracked, gone, live, again, is_impact, is_sizzle,
  shield_hit, explode_or_wait, after_land, after_air, track_impact, phoenix_or, track_rand,
  track_flight, after_step, track_live, track, phoenix_is_at_land, phoenix_is_at_rand,
}
use xscorch.Weapons.Budget.{has_explosions, Lasts, Lasts-pos, Lives, Budget, Budget-append}
use xscorch.Weapons.Actions.{Fits, Runs, still-Fits}
use xscorch.Weapons.Dispatch.{Fits-mono, phoenix_without_child, phoenix_with_child}

module _ {W T : Type 0} (calls : Calls W T) (lookup : ℤ → Option WeaponInfo)
    (memory : (w : W) (wp : Weapon T) (at_tank : Bool)
      → (expl : Expl) × (calls.get_explosion w wp at_tank ≡ some expl)) where
  phoenix_room :
      (d n : ℕ) (w : W) (wp : Weapon T) (e : Chain)
      → Lasts lookup d wp.weaponinfo n
      → (k : ℕ) × (1 + 2 * k ≤ n)
        × Runs calls lookup memory wp.weaponinfo e k (phoenix calls lookup false w wp e)
  phoenix_room zero n w wp e h =
      (0, omega (arith, h.1), phoenix_without_child calls lookup memory false w wp e h.0)
  phoenix_room (suc d) n w wp e h = phoenix_with_child calls lookup memory false d n w wp e h

  -- A weapon is freed as it detonates or sizzles, and is else kept for the next round.
  abbrev pub KeptAs : WeaponInfo → Option (Weapon T) → TrackResult → Type 0
  KeptAs info none r = (r ≡ detonated) ⊎ (r ≡ sizzled)
  KeptAs info (some wp) r = (wp.weaponinfo ≡ info) × (r ≡ need_recurse)

  module _ (info : WeaponInfo) (e : Chain) where
    pub record Goes (k : ℕ) (t : Tracked W T) : Type 0 where
      pub same : KeptAs info t.kept t.result
      pub within : Budget lookup t.inserted k
      pub keeps : has_explosions e ≡ true → has_explosions t.e ≡ true
      pub blown : t.result ≡ detonated → has_explosions t.e ≡ true

    abbrev pub Tracks : ℕ → Option (Tracked W T) → Type 0
    Tracks n r = (t : Tracked W T) × (k : ℕ) × (r ≡ some t) × (k + 1 ≤ n) × Goes k t

    abbrev FitsHere : ℕ → Split W T → Type 0
    FitsHere = Fits calls lookup memory info e

    live-Tracks :
        (n k : ℕ) (s : Split W T) → k + 1 ≤ n → FitsHere k s → Tracks n (some (live calls s))
    live-Tracks n k s l h = (
      live calls s,
      k,
      refl,
      l,
      record { same = (h.same, refl); within = h.within; keeps = h.keeps; blown = λ b. cc },
    )

    sizzled-Tracks :
        (n k : ℕ) (s : Split W T)
        → k + 1 ≤ n
        → FitsHere k s
        → Tracks n (some (gone calls sizzled s))
    sizzled-Tracks n k s l h = (
      gone calls sizzled s,
      k,
      refl,
      l,
      record { same = inr refl; within = h.within; keeps = h.keeps; blown = λ b. cc },
    )

    detonated-Tracks :
        (n k : ℕ) (s : Split W T)
        → k + 1 ≤ n
        → FitsHere k s
        → has_explosions s.e ≡ true
        → Tracks n (some (gone calls detonated s))
    detonated-Tracks n k s l h lit = (
      gone calls detonated s,
      k,
      refl,
      l,
      record { same = inl refl; within = h.within; keeps = h.keeps; blown = λ b. lit },
    )

    Chain-cases : (c : Chain) → (c ≡ []) ⊎ ((x : Expl) × (c' : Chain) × (c ≡ x ∷ c'))
    Chain-cases [] = inl refl
    Chain-cases (x ∷ c) = inr (x, c, refl)

    explode_or_wait-Tracks :
        (n k : ℕ) (s : Split W T)
        → k + 1 ≤ n
        → FitsHere k s
        → Tracks n (some (explode_or_wait calls s))
    unfolding explode_or_wait blow_up expl_add
    explode_or_wait-Tracks n k s l h = elim (Chain-cases s.e) [
      | inr (x, c, f) ↦ rw (f, explode_or_wait) (live-Tracks n k s l h)
      | inl f ↦
          let (expl, m) = memory s.w s.weapon false in
          rw (f, explode_or_wait, m)
            (
              _,
              k,
              refl,
              l,
              record { same = inl refl; within = h.within; keeps = λ b. refl; blown = λ b. refl },
            )
    ]

    -- A phoenix that is run where a weapon stands.
    phoenix_here :
        (d n j : ℕ) (s : Split W T)
        → Lasts lookup d info n
        → FitsHere j s
        → (k : ℕ) × (s' : Split W T) × (1 + 2 * k ≤ n)
          × (phoenix calls lookup false s.w s.weapon s.e ≡ some s')
          × FitsHere k s'
    phoenix_here d n j s lasts h =
        let (k, l, (s', ran, f)) =
          phoenix_room d n s.w s.weapon s.e (subst (λ i. Lasts lookup d i n) (sym h.same) lasts) in
        (
          k,
          s',
          l,
          ran,
          record {
            same = f.same ∙ h.same;
            within = f.within;
            keeps = λ lit. f.keeps (h.keeps lit);
            blown = f.blown;
          },
        )

    after_land-Tracks :
        (n k : ℕ) (s : Split W T) (r : PhoenixResult)
        → s.result ≡ r
        → k + 1 ≤ n
        → FitsHere k s
        → Tracks n (some (after_land calls lookup r s))
    after_land-Tracks n k s no_action f l h = explode_or_wait-Tracks n k s l h
    after_land-Tracks n k s failure f l h = explode_or_wait-Tracks n k s l h
    after_land-Tracks n k s sizzle f l h = sizzled-Tracks n k s l h
    after_land-Tracks n k s detonate f l h = detonated-Tracks n k s l h (h.blown f)
    after_land-Tracks n k s reset f l h = live-Tracks n k s l h

    track_impact-Tracks :
        (d n : ℕ) (s : Split W T)
        → Lasts lookup d info n
        → 1 ≤ n
        → FitsHere 0 s
        → Tracks n (track_impact calls lookup s)
    unfolding track_impact
    track_impact-Tracks d n s lasts l h =
        let (k, s', room, ran, f) = phoenix_here d n 0 s lasts h in
        elim (Bool-cases (phoenix_is_at_land s.weapon.weaponinfo)) [
          | inr o ↦ rw o (explode_or_wait-Tracks n 0 s l h)
          | inl o ↦
              rw (o, ran, track_impact) (after_land-Tracks n k s' s'.result refl (omega arith) f)
        ]

    after_air-Tracks :
        (n k : ℕ) (r : PhoenixResult) (rest : Split W T → Option (Tracked W T)) (s : Split W T)
        → s.result ≡ r
        → k + 1 ≤ n
        → FitsHere k s
        → Tracks n (rest s)
        → Tracks n (after_air calls lookup r rest s)
    after_air-Tracks n k no_action rest s f l h goes = goes
    after_air-Tracks n k failure rest s f l h goes = goes
    after_air-Tracks n k sizzle rest s f l h goes = sizzled-Tracks n k s l h
    after_air-Tracks n k detonate rest s f l h goes = detonated-Tracks n k s l h (h.blown f)
    after_air-Tracks n k reset rest s f l h goes = goes

    -- Two phoenixes may be run for a weapon in the air: `j` is what the first made.
    phoenix_or-Tracks :
        (d n j : ℕ) (now : Bool) (rest : Split W T → Option (Tracked W T)) (s : Split W T)
        → Lasts lookup d info n
        → 1 + 2 * j ≤ n
        → FitsHere j s
        → ((s' : Split W T) (k : ℕ) → 1 + 2 * k ≤ n → FitsHere (k + j) s' → Tracks n (rest s'))
        → Tracks n (phoenix_or calls lookup now rest s)
    unfolding phoenix_or
    phoenix_or-Tracks d n j false rest s lasts l h goes =
        goes s 0 (omega arith) (Fits-mono calls lookup memory info e j (0 + j) s (omega arith) h)
    phoenix_or-Tracks d n j true rest s lasts l h goes =
        let (k, s', room, ran, f) = phoenix_here d n j s lasts h in
        let f' : FitsHere (k + j) (again calls s s') = record {
          same = f.same;
          within = Budget-append lookup s'.inserted s.inserted k j f.within h.within;
          keeps = f.keeps;
          blown = f.blown;
        } in
        rw (ran, phoenix_or)
          (after_air-Tracks n (k + j) s'.result rest (again calls s s') refl (omega arith) f'
            (goes (again calls s s') k room f'))

    track_rand-Tracks :
        (d n j : ℕ) (s : Split W T)
        → Lasts lookup d info n
        → 1 + 2 * j ≤ n
        → FitsHere j s
        → Tracks n (track_rand calls lookup s)
    unfolding track_rand
    track_rand-Tracks d n j s lasts l h =
        elim (Bool-cases (phoenix_is_at_rand s.weapon.weaponinfo)) [
          | inr o ↦ rw o (live-Tracks n j s (omega arith) h)
          | inl o ↦
              rw (o, track_rand)
                (phoenix_or-Tracks d n j (calls.chance s.w).0 (λ t. some (live calls t))
                  (record s { w = (calls.chance s.w).1 }) lasts l
                  (record { same = h.same; within = h.within; keeps = h.keeps; blown = h.blown })
                  (λ s' k room f. live-Tracks n (k + j) s' (omega arith) f))
        ]

    track_flight-Tracks :
        (d n : ℕ) (goingup : Bool) (s : Split W T)
        → Lasts lookup d info n
        → 1 ≤ n
        → FitsHere 0 s
        → Tracks n (track_flight calls lookup goingup s)
    unfolding track_flight
    track_flight-Tracks d n goingup s lasts l h =
        phoenix_or-Tracks d n 0 _ (track_rand calls lookup) s lasts (omega arith) h (λ s' k room f.
          track_rand-Tracks d n k s' lasts room
            (Fits-mono calls lookup memory info e (k + 0) k s' (omega arith) f))

  after_step-Tracks :
      (info : WeaponInfo) (e : Chain) (d n : ℕ) (stepres : StepResult) (goingup : Bool)
      (s : Split W T)
      → Lasts lookup d info n
      → 1 ≤ n
      → FitsHere info e 0 s
      → Tracks info e n (after_step calls lookup stepres goingup s)
  unfolding after_step
  after_step-Tracks info e d n stepres goingup s lasts l h =
      elim (Bool-cases (is_impact calls stepres)) [
        | inl i ↦ rw i (track_impact-Tracks info e d n s lasts l h)
        | inr i ↦ elim (Bool-cases (is_sizzle calls stepres)) [
          | inl z ↦ rw (i, z) (sizzled-Tracks info e n 0 s l h)
          | inr z ↦ rw (i, z) (track_flight-Tracks info e d n goingup s lasts l h)
        ]
      ]

  relax :
      (info : WeaponInfo) (e : Chain) (m n : ℕ) (r : Option (Tracked W T))
      → m ≤ n
      → Tracks info e m r
      → Tracks info e n r
  relax info e m n r l (t, k, f, room, goes) = (t, k, f, omega arith, goes)

  track_live-Tracks :
      (w : W) (wp : Weapon T) (e : Chain) (d n : ℕ)
      → Lasts lookup d wp.weaponinfo n
      → Tracks wp.weaponinfo e n (track_live calls lookup w wp e)
  unfolding track_live
  track_live-Tracks w wp e d n lasts =
      let wp' = record wp { tr = (calls.step w wp).1 } in
      let hit = shield_hit calls (calls.step w wp).0 (calls.step w wp).2 wp' in
      after_step-Tracks wp.weaponinfo e d n hit.0 (calls.going_up wp.tr) (still hit.1 wp' e) lasts
        (Lasts-pos lookup d n wp.weaponinfo lasts)
        (still-Fits calls lookup memory wp.weaponinfo hit.1 wp' e refl)

  by_deferring :
      (info : WeaponInfo) (e : Chain) (m n : ℕ) (waits : Bool) (now later : Option (Tracked W T))
      → Tracks info e 1 later
      → Tracks info e m now
      → (if waits then 1 else m) ≤ n
      → Tracks info e n (if waits then later else now)
  by_deferring info e m n true now later h k l = relax info e 1 n later l h
  by_deferring info e m n false now later h k l = relax info e m n now l k

  -- A round for a weapon ends, with no more weapons behind it than its budget has room for.
  pub track-Tracks :
      (w : W) (wp : Weapon T) (e : Chain) (n : ℕ)
      → Lives lookup wp n
      → Tracks wp.weaponinfo e n (track calls lookup w wp e)
  unfolding track
  track-Tracks w wp e n (d, m, lasts, l) =
      by_deferring wp.weaponinfo e m n wp.deferring (track_live calls lookup w wp e) _
        (live-Tracks wp.weaponinfo e 1 0 _ (omega arith)
          (still-Fits calls lookup memory wp.weaponinfo w (record wp { deferring = false }) e refl))
        (track_live-Tracks w wp e d m lasts) l
