-- ===== src/Weapons/Dispatch.antt =====
-- The dispatch of `sc_phoenix` (sgame/sphoenix.c) over the actions of a weapon.

use xscorch.Prelude.{
  ℕ, suc, ◌+◌, ◌*◌, ◌≤◌, ◌++◌, Bool, true, false, ◌||◌, Option, some, ◌≡◌, refl, ap, arith,
  Bool-cases, inl, inr, ◌==◌, ==_iff,
}
use xscorch.Prelude.Int.{ℤ, pos, pos_part, leb_ℤ}
use xscorch.Items.{WeaponInfo, has_bit}
use xscorch.Game.Queue.{Expl, Chain}
use xscorch.Weapons.{
  phoenix_is_detonate, phoenix_is_chain, phoenix_is_spider, phoenix_is_scatter, phoenix_is_convert,
}
use xscorch.Weapons.Verify.{needs_child}
use xscorch.Weapons.Flight.{Weapon, Calls}
use xscorch.Weapons.Phoenix.{
  blow_up, PhoenixResult, Split, still, stage, is_failure, is_detonate, is_reset, phoenix_chain,
  phoenix_spider, phoenix_scatter, phoenix_convert, phoenix_detonate, phoenix_remaining, phoenix,
}
use xscorch.Weapons.Budget.{expl_add-has_explosions, Lasts, Budget-append, Budget-mono}
use xscorch.Weapons.Actions.{
  Fits, Runs, still-Fits, phoenix_detonate-Runs, phoenix_convert-Runs, phoenix_chain-Runs,
  phoenix_spider-Runs, phoenix_scatter-Runs,
}

module _ {W T : Type 0} (calls : Calls W T) (lookup : ℤ → Option WeaponInfo)
    (memory : (w : W) (wp : Weapon T) (at_tank : Bool)
      → (expl : Expl) × (calls.get_explosion w wp at_tank ≡ some expl))
    (info : WeaponInfo) (e : Chain) where
  abbrev FitsHere : ℕ → Split W T → Type 0
  FitsHere = Fits calls lookup memory info e

  abbrev RunsHere : ℕ → Option (Split W T) → Type 0
  RunsHere = Runs calls lookup memory info e

  pub Fits-mono : (m n : ℕ) (s : Split W T) → m ≤ n → FitsHere m s → FitsHere n s
  Fits-mono m n s l h = record {
    same = h.same;
    within = Budget-mono lookup s.inserted m n l h.within;
    keeps = h.keeps;
    blown = h.blown;
  }

  stage-Runs :
      (enabled : Bool) (out : PhoenixResult → Bool)
      (action : W → Weapon T → Chain → Option (Split W T)) (rest : Split W T → Option (Split W T))
      (split : Split W T) (a n total : ℕ)
      → ((w : W) (wp : Weapon T) (e' : Chain)
          → wp.weaponinfo ≡ info
          → Runs calls lookup memory info e' a (action w wp e'))
      → ((s : Split W T) → FitsHere (a + n) s → RunsHere total (rest s))
      → a + n ≤ total
      → FitsHere n split
      → RunsHere total (stage calls lookup enabled out action rest split)
  unfolding stage
  stage-Runs false out action rest split a n total acts goes l h =
      goes split (Fits-mono n (a + n) split (omega arith) h)
  stage-Runs true out action rest split a n total acts goes l h =
      let (next, ran, f) = acts split.w split.weapon split.e h.same in
      let next' = record next { inserted = next.inserted ++ split.inserted } in
      let f' : FitsHere (a + n) next' = record {
        same = f.same;
        within = Budget-append lookup next.inserted split.inserted a n f.within h.within;
        keeps = λ lit. f.keeps (h.keeps lit);
        blown = f.blown;
      } in
      rw (ran, stage)
        (elim (Bool-cases (is_failure next.result || out next.result)) [
          | inl stop ↦ rw stop (next', refl, Fits-mono (a + n) total next' l f')
          | inr more ↦ rw more (goes next' f')
        ])

  done-Runs : (n total : ℕ) (s : Split W T) → n ≤ total → FitsHere n s → RunsHere total (some s)
  done-Runs n total s l h = (s, refl, Fits-mono n total s l h)

  module _ (d m n : ℕ) (child : WeaponInfo) (found : lookup info.ph_ch ≡ some child)
      (below : Lasts lookup d child m) (lasts : Lasts lookup (suc d) info n) where
    abbrev made : ℕ
    made = pos_part info.children * m

    scatter_stage :
        (s : Split W T) (k : ℕ)
        → k ≤ 1
        → FitsHere k s
        → RunsHere (1 + made) (
            stage calls lookup
              (phoenix_is_scatter info)
              is_detonate
              (phoenix_scatter calls lookup)
              (λ s. some s)
              s)
    scatter_stage s k l =
        stage-Runs (phoenix_is_scatter info) is_detonate (phoenix_scatter calls lookup)
          (λ s. some s) s made k (1 + made)
          (phoenix_scatter-Runs calls lookup memory info d m n child found below)
          (λ s h. done-Runs (made + k) (1 + made) s (omega arith) h) (omega arith)

    spider_stage :
        (s : Split W T) (k : ℕ)
        → k ≤ 1
        → FitsHere k s
        → RunsHere (1 + made) (
            stage calls lookup
              (phoenix_is_spider info)
              is_detonate
              (phoenix_spider calls lookup)
              (stage calls lookup
                (phoenix_is_scatter info)
                is_detonate
                (phoenix_scatter calls lookup)
                (λ s. some s))
              s)
    spider_stage s k l =
        stage-Runs (phoenix_is_spider info) is_detonate (phoenix_spider calls lookup) _ s 0 k
          (1 + made) (phoenix_spider-Runs calls lookup memory info child found)
          (λ s h. scatter_stage s (0 + k) (omega arith) h) (omega arith)

    chain_stage :
        (s : Split W T)
        → FitsHere 0 s
        → RunsHere (1 + made) (
            stage calls lookup
              (phoenix_is_chain info)
              is_detonate
              (phoenix_chain calls lookup)
              (stage calls lookup
                (phoenix_is_spider info)
                is_detonate
                (phoenix_spider calls lookup)
                (stage calls lookup
                  (phoenix_is_scatter info)
                  is_detonate
                  (phoenix_scatter calls lookup)
                  (λ s. some s)))
              s)
    chain_stage s =
        stage-Runs (phoenix_is_chain info) is_detonate (phoenix_chain calls lookup) _ s 1 0
          (1 + made)
          (λ w wp e' k.
            phoenix_chain-Runs calls lookup memory info d m n child found below w wp e' lasts k)
          (λ s h. spider_stage s (1 + 0) (omega arith) h) (omega arith)

    convert_stage :
        (s : Split W T)
        → FitsHere 0 s
        → RunsHere (1 + made) (
            stage calls lookup
              (phoenix_is_convert info)
              is_reset
              (phoenix_convert calls lookup)
              (stage calls lookup (phoenix_is_chain info) is_detonate (phoenix_chain calls lookup) (
                stage calls lookup
                  (phoenix_is_spider info)
                  is_detonate
                  (phoenix_spider calls lookup)
                  (stage calls lookup
                    (phoenix_is_scatter info)
                    is_detonate
                    (phoenix_scatter calls lookup)
                    (λ s. some s))))
              s)
    convert_stage s =
        stage-Runs (phoenix_is_convert info) is_reset (phoenix_convert calls lookup) _ s 0 0
          (1 + made) (phoenix_convert-Runs calls lookup memory info)
          (λ s h. chain_stage s (Fits-mono (0 + 0) 0 s (omega arith) h)) (omega arith)

    remaining-Runs :
        (s : Split W T) → FitsHere 0 s → RunsHere (1 + made) (phoenix_remaining calls lookup info s)
    unfolding phoenix_remaining
    remaining-Runs s h =
        elim (Bool-cases (leb_ℤ info.ph_ch (pos 0) || leb_ℤ info.children (pos 0))) [
          | inl childless ↦ rw childless (done-Runs 0 (1 + made) s (omega arith) h)
          | inr more ↦ rw more (convert_stage s h)
        ]

-- A weapon whose children come to an end makes no more of them than its budget has room for, twice
-- over.
module _ {W T : Type 0} (calls : Calls W T) (lookup : ℤ → Option WeaponInfo)
    (memory : (w : W) (wp : Weapon T) (at_tank : Bool)
      → (expl : Expl) × (calls.get_explosion w wp at_tank ≡ some expl)) where
  remaining_off :
      (info : WeaponInfo) (split : Split W T)
      → phoenix_is_convert info ≡ false
      → phoenix_is_chain info ≡ false
      → phoenix_is_spider info ≡ false
      → phoenix_is_scatter info ≡ false
      → phoenix_remaining calls lookup info split ≡ some split
  unfolding phoenix_remaining
  remaining_off info split c h s t =
      elim (Bool-cases (leb_ℤ info.ph_ch (pos 0) || leb_ℤ info.children (pos 0))) [
        | inl childless ↦ rw childless refl
        | inr more ↦ rw (more, c, h, s, t) refl
      ]

  no_stages :
      (at_tank : Bool) (w : W) (wp : Weapon T) (e : Chain)
      → phoenix_is_detonate wp.weaponinfo ≡ false
      → phoenix_is_convert wp.weaponinfo ≡ false
      → phoenix_is_chain wp.weaponinfo ≡ false
      → phoenix_is_spider wp.weaponinfo ≡ false
      → phoenix_is_scatter wp.weaponinfo ≡ false
      → phoenix calls lookup at_tank w wp e ≡ some (still w wp e)
  unfolding phoenix
  no_stages at_tank w wp e d c h s t = rw d (remaining_off wp.weaponinfo (still w wp e) c h s t)

  pub phoenix_without_child :
      (at_tank : Bool) (w : W) (wp : Weapon T) (e : Chain)
      → needs_child wp.weaponinfo ≡ false
      → Runs calls lookup memory wp.weaponinfo e 0 (phoenix calls lookup at_tank w wp e)
  unfolding phoenix phoenix_detonate blow_up needs_child
  phoenix_without_child at_tank w wp e leaf = elim (Bool-cases (wp.weaponinfo.ph_fl == 0)) [
    | inl none_set ↦
        let flags : wp.weaponinfo.ph_fl ≡ 0 = (==_iff wp.weaponinfo.ph_fl 0).0 none_set in
        let bit = λ (b : ℕ). ap (λ f. has_bit f b) flags in
        (
          still w wp e,
          no_stages at_tank w wp e (bit 0x0010) (bit 0x0008) (bit 0x0001) (bit 0x0002) (bit 0x0004),
          still-Fits calls lookup memory wp.weaponinfo w wp e refl,
        )
    | inr set ↦
        let detonates : phoenix_is_detonate wp.weaponinfo ≡ true = ground arith in
        let (expl, m) = memory w wp at_tank in
        let full = expl_add-has_explosions e expl in
        rw (detonates, phoenix, m)
          (_, refl, record { same = refl; within = tt; keeps = λ h. full; blown = λ h. full })
  ]

  pub phoenix_with_child :
      (at_tank : Bool) (d n : ℕ) (w : W) (wp : Weapon T) (e : Chain)
      → Lasts lookup (suc d) wp.weaponinfo n
      → (k : ℕ) × (1 + 2 * k ≤ n)
        × Runs calls lookup memory wp.weaponinfo e k (phoenix calls lookup at_tank w wp e)
  unfolding phoenix
  phoenix_with_child at_tank d n w wp e h =
      let (parent, child, m, found, below, bound) = h in
      let info = wp.weaponinfo in
      let made = pos_part info.children * m in
      (
        1 + made,
        omega arith,
        stage-Runs calls lookup memory info e (phoenix_is_detonate info) is_detonate
            (λ w wp e. phoenix_detonate calls lookup w wp e at_tank) _ (still w wp e) 0 0 (1 + made)
            (λ w wp e' k. phoenix_detonate-Runs calls lookup memory info w wp e' at_tank k)
            (λ s h'.
              remaining-Runs calls lookup memory info e d m n child found below h s
                (Fits-mono calls lookup memory info e (0 + 0) 0 s (omega arith) h'))
            (omega arith) (still-Fits calls lookup memory info w wp e refl),
      )
