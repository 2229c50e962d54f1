-- ===== src/Weapons/Levels.antt =====
-- What `sc_phoenix_verify` of sgame/sphoenix.c decides: whether the children of a weapon come to an
-- end, said without the cache of ancestors.
use xscorch.Prelude.{
  ℕ, zero, suc, List, [], ◌∷◌, ◌++◌, true, false, Option, none, some, ◌≡◌, ◌≢◌, ◌⊎◌, inl, inr, refl,
  sym, ◌∙◌, ap, arith, Bool-cases, Option-cases,
}
use xscorch.Prelude.Int.{ℤ}
use mathlib.Core.Option.{some-injective}
use xscorch.Items.{WeaponInfo}
use xscorch.Weapons.Verify.{needs_child, levels_above, levels_with, safe_verify}

module _ (lookup : ℤ → Option WeaponInfo) where
  -- The weapon has no child after `depth` steps from child to child, each of which is there; and
  -- its levels, each counted once for every type of the phoenix above it.
  abbrev pub Descends : ℕ → WeaponInfo → ℕ → Type 0
  Descends zero info levels = (needs_child info ≡ false) × (levels ≡ 1)
  Descends (suc depth) info levels =
      (needs_child info ≡ true)
      × (child : WeaponInfo) × (l : ℕ) × (lookup info.ph_ch ≡ some child)
      × Descends depth child l
      × (levels ≡ levels_above info l)

  -- The weapon is the one that its number finds, or its number is not taken yet.
  abbrev pub IsKnown : WeaponInfo → Type 0
  IsKnown info = (lookup info.ident ≡ some info) ⊎ (lookup info.ident ≡ none)

  pub Descends-unique :
      (d d' : ℕ) (info : WeaponInfo) (l l' : ℕ)
      → Descends d info l
      → Descends d' info l'
      → (d ≡ d') × (l ≡ l')
  Descends-unique zero zero info l l' h h' = (refl, h.1 ∙ sym h'.1)
  Descends-unique zero (suc d') info l l' h h' = cc
  Descends-unique (suc d) zero info l l' h h' = cc
  Descends-unique (suc d) (suc d') info l l' (n, c, m, e, h, f) (n', c', m', e', h', f') =
      let same : c ≡ c' = cc in
      let (p, q) = Descends-unique d d' c m m' h (rw same h') in (ap suc p, f ∙ rw q (sym f'))

  passed :
      (info child : WeaponInfo) (cache : List ℤ) (level : Option ℕ) (n : ℕ)
      → levels_with info child cache level ≡ some n
      → n ≢ 0
      → (l : ℕ) × (level ≡ some l) × (l ≢ 0) × (n ≡ levels_above info l)
  unfolding levels_with
  passed info child cache none n h k = absurd (ground arith)
  passed info child cache (some l) n h k = (l, refl, ground arith, ground arith)

  -- A check that passes has followed the children to their end.
  pub verify_sound :
      (fuel : ℕ) (info : WeaponInfo) (cache : List ℤ) (n : ℕ)
      → safe_verify lookup fuel info cache ≡ some n
      → n ≢ 0
      → (d : ℕ) × Descends d info n
  unfolding safe_verify
  verify_sound zero info cache n h k = cc
  verify_sound (suc fuel) info cache n h k = elim (Bool-cases (needs_child info)) [
    | inr leaf ↦ (0, (leaf, some-injective _ _ (sym (rw leaf at h))))
    | inl parent ↦ elim (Option-cases (lookup info.ph_ch)) [
      | inl e ↦ absurd (k (some-injective _ _ (sym (rw (parent, e) at h))))
      | inr (child, e) ↦
          let (l, f, positive, sum) =
            passed info child cache (safe_verify lookup fuel child (cache ++ (info.ident ∷ []))) n
              (rw (parent, e, safe_verify) at h) k in
          let (d, descends) = verify_sound fuel child (cache ++ (info.ident ∷ [])) l f positive in
          (suc d, (parent, child, l, e, descends, sum))
    ]
  ]
