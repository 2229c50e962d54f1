-- ===== src/Weapons/Actions.antt =====
-- What each action of sgame/sphoenix.c leaves, for a weapon whose children come to an end and with
-- memory for its explosions: the same kind of weapon, no more weapons than its budget, and an
-- explosion where it says so.
use mathlib.Core.Path.{subst}
use xscorch.Prelude.{
  ℕ, zero, suc, ◌*◌, [], ◌∷◌, Bool, true, false, Option, none, some, ◌≡◌, refl, sym, ◌∙◌, ap, arith,
  Bool-cases, Option-cases, inl, inr,
}
use xscorch.Prelude.Int.{ℤ, pos, pos_part, ◌+ℤ◌, ◌/ℤ◌, leb_ℤ}
use xscorch.Items.{WeaponInfo, has_bit}
use xscorch.Game.Queue.{Expl, Chain, expl_add}
use xscorch.Weapons.Flight.{Weapon, TrajectoryType, roller, digger, Calls, weapon_new}
use xscorch.Weapons.Phoenix.{
  PhoenixResult, no_action, failure, sizzle, detonate, reset, Split, still, blow_up, phoenix_chain,
  add_leg, phoenix_legs, phoenix_spider, phoenix_children, unless_out, phoenix_scatter, convert_to,
  convert_digger, phoenix_convert, phoenix_detonate,
}
use xscorch.Weapons.Budget.{has_explosions, expl_add-has_explosions, Lasts, Lasts-pos, Budget}

module _ {W T : Type 0} (calls : Calls W T) (lookup : ℤ → Option WeaponInfo)
    (memory : (w : W) (wp : Weapon T) (at_tank : Bool)
      → (expl : Expl) × (calls.get_explosion w wp at_tank ≡ some expl))
    (info : WeaponInfo) where
  pub record Fits (e : Chain) (n : ℕ) (s : Split W T) : Type 0 where
    pub same : s.weapon.weaponinfo ≡ info
    pub within : Budget lookup s.inserted n
    pub keeps : has_explosions e ≡ true → has_explosions s.e ≡ true
    pub blown : s.result ≡ detonate → has_explosions s.e ≡ true

  -- A run of an action that fits.
  abbrev pub Runs : Chain → ℕ → Option (Split W T) → Type 0
  Runs e n r = (s : Split W T) × (r ≡ some s) × Fits e n s

  pub still-Fits :
      (w : W) (wp : Weapon T) (e : Chain) → wp.weaponinfo ≡ info → Fits e 0 (still w wp e)
  still-Fits w wp e k = record { same = k; within = tt; keeps = λ h. h; blown = λ h. cc }

  blow_up-Fits :
      (w : W) (wp : Weapon T) (e : Chain) (at_tank : Bool)
      → wp.weaponinfo ≡ info
      → Fits e 0 (blow_up w wp e (calls.get_explosion w wp at_tank))
  unfolding blow_up
  blow_up-Fits w wp e at_tank k =
      let (expl, m) = memory w wp at_tank in
      let full = expl_add-has_explosions e expl in
      rw (m, blow_up) (record { same = k; within = tt; keeps = λ h. full; blown = λ h. full })

  pub phoenix_detonate-Runs :
      (w : W) (wp : Weapon T) (e : Chain) (at_tank : Bool)
      → wp.weaponinfo ≡ info
      → Runs e 0 (phoenix_detonate calls lookup w wp e at_tank)
  unfolding phoenix_detonate
  phoenix_detonate-Runs w wp e at_tank k =
      (blow_up w wp e (calls.get_explosion w wp at_tank), refl, blow_up-Fits w wp e at_tank k)

  convert_to-Fits :
      (type : TrajectoryType) (w : W) (wp : Weapon T) (e : Chain)
      → wp.weaponinfo ≡ info
      → Fits e 0 (convert_to calls lookup type w wp e)
  unfolding convert_to
  convert_to-Fits type w wp e k = elim (Bool-cases (calls.is_converted type wp.tr)) [
    | inl c ↦ rw c (still-Fits w wp e k)
    | inr c ↦ elim (Bool-cases (calls.convert w wp type).0) [
      | inl d ↦ rw (c, d) (record { same = k; within = tt; keeps = λ h. h; blown = λ h. cc })
      | inr d ↦ rw (c, d) (blow_up-Fits _ _ e false k)
    ]
  ]

  convert_digger-Fits :
      (e : Chain) (split : Split W T)
      → Fits e 0 split
      → Fits e 0 (convert_digger calls lookup split)
  unfolding convert_digger
  convert_digger-Fits e split h = elim (Bool-cases (has_bit split.weapon.state 0x008000)) [
    | inr o ↦ rw o h
    | inl o ↦
        let f = convert_to-Fits digger split.w split.weapon split.e h.same in
        rw o (record {
          same = f.same;
          within = f.within;
          keeps = λ lit. f.keeps (h.keeps lit);
          blown = f.blown;
        })
  ]

  unless_out-Fits :
      (e : Chain) (split next : Split W T)
      → Fits e 0 split
      → Fits e 0 next
      → (r : PhoenixResult) → Fits e 0 (unless_out split next r)
  unless_out-Fits e split next h k no_action = h
  unless_out-Fits e split next h k failure = h
  unless_out-Fits e split next h k sizzle = h
  unless_out-Fits e split next h k detonate = h
  unless_out-Fits e split next h k reset = k

  pub phoenix_convert-Runs :
      (w : W) (wp : Weapon T) (e : Chain)
      → wp.weaponinfo ≡ info
      → Runs e 0 (phoenix_convert calls lookup w wp e)
  unfolding phoenix_convert
  phoenix_convert-Runs w wp e k = elim (Bool-cases (has_bit wp.state 0x004000)) [
    | inr o ↦ rw o (_, refl, convert_digger-Fits e (still w wp e) (still-Fits w wp e k))
    | inl o ↦
        let split = convert_to calls lookup roller w wp e in
        let h = convert_to-Fits roller w wp e k in
        rw o (
          _,
          refl,
          unless_out-Fits e split (convert_digger calls lookup split) h
              (convert_digger-Fits e split h) split.result,
        )
  ]

  add_leg-has_explosions :
      (cure : Option Expl) (e : Chain)
      → has_explosions e ≡ true
      → has_explosions (add_leg cure e) ≡ true
  add_leg-has_explosions none e lit = lit
  add_leg-has_explosions (some expl) e lit = expl_add-has_explosions e expl

  phoenix_legs-Fits :
      (ph_i : WeaponInfo) (count : ℕ) (w : W) (wp : Weapon T) (e : Chain)
      → wp.weaponinfo ≡ info
      → has_explosions e ≡ true
      → Fits e 0 (phoenix_legs calls lookup ph_i count w wp e)
  unfolding phoenix_legs
  phoenix_legs-Fits ph_i zero w wp e k lit = record {
    same = k;
    within = tt;
    keeps = λ h. h;
    blown = λ h. lit;
  }
  phoenix_legs-Fits ph_i (suc count) w wp e k lit =
      let w' = (calls.leg w wp ph_i).1 in
      elim (Option-cases (calls.leg w wp ph_i).0) [
        | inl none_made ↦
            rw (none_made, phoenix_legs)
              (record { same = k; within = tt; keeps = λ h. h; blown = λ h. cc })
        | inr (cure, made) ↦
            let f =
              phoenix_legs-Fits ph_i count w' wp (add_leg cure e) k
                (add_leg-has_explosions cure e lit) in
            rw (made, phoenix_legs)
              (record {
                same = f.same;
                within = f.within;
                keeps = λ h. f.keeps (add_leg-has_explosions cure e lit);
                blown = f.blown;
              })
      ]

  pub phoenix_spider-Runs :
      (child : WeaponInfo)
      → lookup info.ph_ch ≡ some child
      → (w : W) (wp : Weapon T) (e : Chain) → wp.weaponinfo ≡ info
      → Runs e 0 (phoenix_spider calls lookup w wp e)
  unfolding phoenix_spider
  phoenix_spider-Runs child found w wp e k =
      let c : lookup wp.weaponinfo.ph_ch ≡ some child = ap (λ i. lookup i.ph_ch) k ∙ found in
      let half = wp.weaponinfo.children /ℤ pos 2 in
      let w' = (calls.lrand w half).1 in
      let legs = pos_part (half +ℤ (calls.lrand w half).0) in
      let (expl, m) = memory w' wp false in
      let lit = expl_add-has_explosions e expl in
      let f = phoenix_legs-Fits child legs w' wp (expl_add e (expl ∷ [])) k lit in
      rw (c, phoenix_spider, m)
        (
          _,
          refl,
          record { same = f.same; within = f.within; keeps = λ h. f.keeps lit; blown = f.blown },
        )

  module _ (d m n : ℕ) (child : WeaponInfo) (found : lookup info.ph_ch ≡ some child)
      (below : Lasts lookup d child m) where
    pub phoenix_chain-Runs :
        (w : W) (wp : Weapon T) (e : Chain)
        → Lasts lookup (suc d) info n
        → wp.weaponinfo ≡ info
        → Runs e 1 (phoenix_chain calls lookup w wp e)
    unfolding phoenix_chain weapon_new
    phoenix_chain-Runs w wp e h k =
        let c : lookup wp.weaponinfo.ph_ch ≡ some child = ap (λ i. lookup i.ph_ch) k ∙ found in
        let wp' = record wp { tr = calls.surface w wp.tr } in
        let (expl, mem) = memory w wp' false in
        let lit = expl_add-has_explosions e (calls.scaled w wp' child expl) in
        elim (Bool-cases (leb_ℤ wp.weaponinfo.children wp.children)) [
          | inl last ↦
              rw (last, phoenix_chain)
                (_, refl, record { same = k; within = tt; keeps = λ h. h; blown = λ h. cc })
          | inr more ↦
              rw (more, phoenix_chain, mem, c)
                (
                  _,
                  refl,
                  record {
                    same = k;
                    within = (
                      1,
                      0,
                      (suc d, n, subst (λ i. Lasts lookup (suc d) i n) (sym k) h, omega arith),
                      tt,
                      omega arith,
                    );
                    keeps = λ h. lit;
                    blown = λ h. lit;
                  },
                )
        ]

    phoenix_children-Budget :
        (count : ℕ) (w : W) (wp : Weapon T)
        → Budget lookup (phoenix_children calls lookup child count w wp) (count * m)
    unfolding phoenix_children weapon_new
    phoenix_children-Budget zero w wp = tt
    phoenix_children-Budget (suc count) w wp =
        let more = Lasts-pos lookup d m child below in
        (m, count * m, (d, m, below, ground arith), phoenix_children-Budget count w wp, grind arith)

    pub phoenix_scatter-Runs :
        (w : W) (wp : Weapon T) (e : Chain)
        → wp.weaponinfo ≡ info
        → Runs e (pos_part info.children * m) (phoenix_scatter calls lookup w wp e)
    unfolding phoenix_scatter
    phoenix_scatter-Runs w wp e k =
        let c : lookup wp.weaponinfo.ph_ch ≡ some child = ap (λ i. lookup i.ph_ch) k ∙ found in
        rw (c, phoenix_scatter)
          (
            _,
            refl,
            record {
              same = k;
              within =
                  subst
                    (λ i.
                      Budget lookup (phoenix_children calls lookup child (pos_part i.children) w wp)
                        (pos_part info.children * m))
                    (sym k) (phoenix_children-Budget (pos_part info.children) w wp);
              keeps = λ h. h;
              blown = λ h. cc;
            },
          )
