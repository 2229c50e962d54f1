-- ===== src/Weapons/Passes.antt =====
-- The recursion of `_sc_phoenix_safe_verify` (sgame/sphoenix.c) ends, and it refuses no weapon whose
-- children come to an end.
use xscorch.Prelude.{
  ℕ, zero, suc, ◌<◌, List, [], ◌∷◌, ◌++◌, true, false, not, Option, none, some, ◌≡◌, inl, inr, refl,
  sym, ◌∙◌, ap, arith, ◌==◌, if◌then◌else◌, Bool-cases, Option-cases, length, filter,
}
use xscorch.Prelude.Int.{ℤ, eqb_ℤ}
use mathlib.Core.Option.{some-injective}
use xscorch.Items.{WeaponInfo}
use xscorch.Weapons.Verify.{is_among, needs_child, levels_above, levels_with, safe_verify}
use xscorch.Weapons.Ancestors.{eqb→eq, is_among-append, unseen-falls}
use xscorch.Weapons.Levels.{Descends, IsKnown, Descends-unique}

module _ (lookup : ℤ → Option WeaponInfo)
    (numbered : (id : ℤ) (w : WeaponInfo) → lookup id ≡ some w → w.ident ≡ id) where
  found-IsRegistered : (id : ℤ) (w : WeaponInfo) → lookup id ≡ some w → lookup w.ident ≡ some w
  found-IsRegistered id w e = ap lookup (numbered id w e) ∙ e

  only_known :
      (info other : WeaponInfo) (id : ℤ)
      → IsKnown lookup info
      → id ≡ info.ident
      → lookup id ≡ some other
      → other ≡ info
  only_known info other id (inl k) e f = some-injective _ _ (sym f ∙ ap lookup e ∙ k)
  only_known info other id (inr k) e f =
      let clash : some other ≡ none = sym f ∙ ap lookup e ∙ k in cc

  -- All weapons that the cache names have further to descend.
  abbrev pub IsBelow : ℕ → List ℤ → Type 0
  IsBelow d cache =
      (id : ℤ)
      → is_among id cache ≡ true
      → (a : WeaponInfo) (m l : ℕ) → lookup id ≡ some a
      → Descends lookup m a l
      → d < m

  deeper :
      (d l : ℕ) (info : WeaponInfo) (cache : List ℤ)
      → Descends lookup (suc d) info l
      → IsKnown lookup info
      → IsBelow (suc d) cache
      → IsBelow d (cache ++ (info.ident ∷ []))
  deeper d l info cache h known below id among a m l' e h' =
      elim (is_among-append id cache info.ident among) [
        | inl old ↦ let more = below id old a m l' e h' in omega arith
        | inr new ↦
            let same = only_known info a id known new e in
            let (depth, levels) = Descends-unique lookup m (suc d) info l' l (rw same at h') h in
            omega arith
      ]

  fresh :
      (d l : ℕ) (child : WeaponInfo) (cache : List ℤ)
      → lookup child.ident ≡ some child
      → Descends lookup d child l
      → IsBelow d cache
      → is_among child.ident cache ≡ false
  fresh d l child cache e h below = elim (Bool-cases (is_among child.ident cache)) [
    | inr no_member ↦ no_member
    | inl member ↦ let more = below child.ident member child d l e h in absurd (omega arith)
  ]

  not_itself :
      (d l l' : ℕ) (info child : WeaponInfo)
      → Descends lookup (suc d) info l
      → Descends lookup d child l'
      → IsKnown lookup info
      → lookup child.ident ≡ some child
      → eqb_ℤ info.ident child.ident ≡ false
  not_itself d l l' info child h h' known e = elim (Bool-cases (eqb_ℤ info.ident child.ident)) [
    | inr different ↦ different
    | inl same ↦
        let it =
          only_known info child child.ident known (sym (eqb→eq info.ident child.ident same)) e in
        let (depth, levels) = Descends-unique lookup d (suc d) info l' l (rw it at h') h in
        absurd (omega arith)
  ]

  pub levels_pos : (d l : ℕ) (info : WeaponInfo) → Descends lookup d info l → 0 < l
  unfolding levels_above
  levels_pos zero l info h = omega (arith, h.1)
  levels_pos (suc d) l info (n, c, m, e, h, f) = ground arith

  passing :
      (info child : WeaponInfo) (cache : List ℤ) (m : ℕ)
      → eqb_ℤ info.ident child.ident ≡ false
      → is_among info.ident cache ≡ false
      → 0 < m
      → levels_with info child cache (some m) ≡ some (levels_above info m)
  unfolding levels_with
  passing info child cache m e f positive = ground arith

  -- A check of a weapon whose children come to an end counts its levels.
  pub verify_complete :
      (fuel d l n : ℕ) (info : WeaponInfo) (cache : List ℤ)
      → Descends lookup d info l
      → IsKnown lookup info
      → is_among info.ident cache ≡ false
      → IsBelow d cache
      → safe_verify lookup fuel info cache ≡ some n
      → n ≡ l
  unfolding safe_verify
  verify_complete zero d l n info cache h known new below r = cc
  verify_complete (suc fuel) zero l n info cache h known new below r =
      some-injective _ _ (sym (rw h.0 at r)) ∙ sym h.1
  verify_complete (suc fuel) (suc d) l n info cache h known new below r =
      let (parent, child, m, e, h', f) = h in
      let registered = found-IsRegistered info.ph_ch child e in
      let itself = not_itself d l m info child h h' known registered in
      let below' = deeper d l info cache h known below in
      let cache' = cache ++ (info.ident ∷ []) in
      let rest = safe_verify lookup fuel child cache' in
      let answer : levels_with info child cache rest ≡ some n = rw (parent, e, safe_verify) at r in
      elim (Option-cases rest) [
        | inl out ↦ let failed = rw (out, levels_with, itself, new) at answer in cc
        | inr (k, ended) ↦
            let counted : k ≡ m =
              verify_complete fuel d m k child cache' h' (inl registered)
                (fresh d m child cache' registered h' below') below' ended in
            let positive = levels_pos d m child h' in
            let shown : levels_with info child cache (some m) ≡ some n =
              rw counted at (rw ended at answer) in
            some-injective _ _ (sym shown ∙ passing info child cache m itself new positive) ∙ sym f
      ]

  module _ (keys : List ℤ)
      (present : (id : ℤ) (w : WeaponInfo) → lookup id ≡ some w → is_among id keys ≡ true) where
    -- The registered numbers that the cache does not name yet.
    abbrev pub unseen : List ℤ → ℕ
    unseen cache = length (filter (λ id. not (is_among id cache)) keys)

    one_level :
        (fuel : ℕ) (info : WeaponInfo) (cache : List ℤ)
        → ((child : WeaponInfo)
            → lookup info.ph_ch ≡ some child
            → is_among info.ident cache ≡ false
            → (n : ℕ) × (safe_verify lookup fuel child (cache ++ (info.ident ∷ [])) ≡ some n))
        → (n : ℕ) × (safe_verify lookup (suc fuel) info cache ≡ some n)
    unfolding safe_verify levels_with
    one_level fuel info cache h = elim (Bool-cases (needs_child info)) [
      | inr leaf ↦ (1, rw leaf refl)
      | inl parent ↦ elim (Option-cases (lookup info.ph_ch)) [
        | inl e ↦ (0, rw (parent, e, safe_verify) refl)
        | inr (child, e) ↦ elim (Bool-cases (is_among info.ident cache)) [
          | inl member ↦ (0, rw (parent, e, safe_verify, member) (ground arith))
          | inr new ↦
              let (k, ended) = h child e new in
              elim (Bool-cases (eqb_ℤ info.ident child.ident)) [
                | inl itself ↦ (0, rw (parent, e, safe_verify, itself) refl)
                | inr other ↦ (
                  if k == 0 then 0 else levels_above info k,
                  rw (parent, e, safe_verify, new, other, ended) refl,
                )
              ]
        ]
      ]
    ]

    -- The recursion ends: every level but the first names another registered weapon.
    verify_total :
        (fuel : ℕ) (info : WeaponInfo) (cache : List ℤ)
        → lookup info.ident ≡ some info
        → unseen cache < fuel
        → (n : ℕ) × (safe_verify lookup fuel info cache ≡ some n)
    verify_total zero info cache e l = elim l [ ]
    verify_total (suc fuel) info cache e l = one_level fuel info cache (λ child f new.
        verify_total fuel child (cache ++ (info.ident ∷ [])) (found-IsRegistered info.ph_ch child f)
          (omega (arith, unseen-falls cache info.ident keys new (present info.ident info e))))

    pub verify_ends :
        (fuel : ℕ) (info : WeaponInfo) (cache : List ℤ)
        → unseen (cache ++ (info.ident ∷ [])) < fuel
        → (n : ℕ) × (safe_verify lookup (suc fuel) info cache ≡ some n)
    verify_ends fuel info cache l = one_level fuel info cache (λ child f new.
        verify_total fuel child (cache ++ (info.ident ∷ [])) (found-IsRegistered info.ph_ch child f)
          l)
