-- ===== src/Weapons/Verified.antt =====
-- What the answer of `sc_phoenix_verify` (sgame/sphoenix.c) says of a weapon, over the registry.
use mathlib.Core.Option.{some-injective}
use xscorch.Prelude.{
  ℕ, zero, suc, ◌+◌, ◌≤◌, ◌<◌, List, [], ◌∷◌, ◌++◌, Bool, true, false, not, Option, none, some, ◌≡◌,
  ◌≢◌, ◌↔◌, refl, sym, ◌∙◌, ap, arith, Bool-cases, Option-cases, inl, inr, length, filter, head?,
  map,
}
use xscorch.Prelude.Int.{ℤ, pos, negsuc, ltb_ℤ, eqb_ℤ}
use xscorch.Items.{WeaponInfo}
use xscorch.HashList.{Item}
use xscorch.HashList
use xscorch.HashList.Keyed
use xscorch.HashList.Keyed.{int_keys}
use xscorch.HashList.Laws.{IsTable, with_key}
use xscorch.HashList.Removes.{find-lookup}
use xscorch.Registry.{data_of}
use xscorch.Registry
use xscorch.Goods.{GoodsConfig, weapon_goods, lookup, viewable}
use xscorch.Goods.Weapons.{weapon_lookup}
use xscorch.Goods.Cycle.{IsNumbered}
use xscorch.Weapons.{limit_none}
use xscorch.Weapons.Verify.{is_among, phoenix_verify}
use xscorch.Weapons.Ancestors.{eqb→eq, eqb_refl}
use xscorch.Weapons.Levels.{Descends, IsKnown, verify_sound}
use xscorch.Weapons.Passes.{IsBelow, levels_pos, verify_complete, verify_ends}

abbrev pub itself : WeaponInfo → WeaponInfo
itself info = info

abbrev keys_of : List (Item ℤ WeaponInfo) → List ℤ
keys_of items = map (λ item. item.key) items

length-keys_of : (items : List (Item ℤ WeaponInfo)) → length (keys_of items) ≡ length items
length-keys_of [] = refl
length-keys_of (x ∷ items) = ap suc (length-keys_of items)

length-filter-le {ℓ} :
    {A : Type ℓ} (test : A → Bool) (xs : List A) → length (filter test xs) ≤ length xs
length-filter-le test [] = omega arith
length-filter-le test (x ∷ xs) = ground (arith, length-filter-le test xs)

module _ (place : ℤ → ℕ) (config : GoodsConfig WeaponInfo) where
  -- The weapon that the registry has under a number.
  abbrev pub registered : ℤ → Option WeaponInfo
  registered id = weapon_lookup itself config place id limit_none

  on_order :
      (items : List (Item ℤ WeaponInfo)) (id : ℤ) (item : Item ℤ WeaponInfo)
      → IsNumbered (weapon_goods itself) config limit_none items
      → head? (with_key int_keys id items) ≡ some item
      → (item.value.ident ≡ id) × (is_among id (keys_of items) ≡ true)
  unfolding is_among
  on_order [] id item h e = cc
  on_order (x ∷ items) id item h e = elim (Bool-cases (eqb_ℤ x.key id)) [
    | inl same ↦
        let it : x ≡ item = some-injective _ _ (rw same at e) in
        let k = eqb→eq x.key id same in (rw (sym it) (sym h.0 ∙ k), rw (sym k, eqb_refl x.key) refl)
    | inr other ↦
        let (i, m) = on_order items id item h.2 (rw other at e) in
        (i, elim (Bool-cases (eqb_ℤ id x.key)) [ inl e' ↦ rw e' refl | inr e' ↦ rw e' m ])
  ]

  module _ (h : IsTable int_keys place config.registry.hashlist)
      (numbered : IsNumbered
        (weapon_goods itself)
        config
        limit_none
        config.registry.hashlist.order) where
    finds :
        (id : ℤ)
        → HashList.find int_keys place config.registry.hashlist id
          ≡ head? (with_key int_keys id config.registry.hashlist.order)
    finds id = find-lookup int_keys place config.registry.hashlist id h

    found :
        (id : ℤ) (w : WeaponInfo)
        → registered id ≡ some w
        → (item : Item ℤ WeaponInfo) × (item.value ≡ w)
          × (head? (with_key int_keys id config.registry.hashlist.order) ≡ some item)
    unfolding lookup viewable Registry.find_by_int Keyed.find_by_int
    found id w e = elim (Bool-cases (ltb_ℤ id (pos 0))) [
      | inl negative ↦ let clash : none ≡ some w = rw negative at e in cc
      | inr positive ↦
          elim (Option-cases (head? (with_key int_keys id config.registry.hashlist.order))) [
            | inl nothing ↦ let clash : none ≡ some w = rw (positive, finds id, nothing) at e in cc
            | inr (item, f) ↦
                let it : some item.value ≡ some w = rw (positive, finds id, f) at e in
                (item, some-injective _ _ it, f)
          ]
    ]

    registered-ident : (id : ℤ) (w : WeaponInfo) → registered id ≡ some w → w.ident ≡ id
    registered-ident id w e =
        let (item, it, f) = found id w e in
        ap (λ v. v.ident) (sym it) ∙ (on_order config.registry.hashlist.order id item numbered f).0

    registered-is_among :
        (id : ℤ) (w : WeaponInfo)
        → registered id ≡ some w
        → is_among id (keys_of config.registry.hashlist.order) ≡ true
    registered-is_among id w e =
        let (item, it, f) = found id w e in
        (on_order config.registry.hashlist.order id item numbered f).1

    -- The head of the cache, -1, is no weapon's number.
    head-IsBelow : (d : ℕ) → IsBelow registered registered-ident d (negsuc 0 ∷ [])
    unfolding is_among lookup
    head-IsBelow d id among a m l e h = elim (Bool-cases (eqb_ℤ id (negsuc 0))) [
      | inl same ↦ let clash : none ≡ some a = rw (eqb→eq id (negsuc 0) same) at e in cc
      | inr other ↦ let clash : false ≡ true = rw other at among in cc
    ]

    -- The check of a weapon ends. Its answer is not 0 exactly when the weapon's children come to an
    -- end, with none missing on the way, and then it is the number of levels, each counted once for
    -- every type of the phoenix above it. Assumed: the list and the chains of the registry hold the
    -- same items, one of each key; every weapon is registered under its own number; the weapon's
    -- number is not negative, and it is the one registered under that number or nothing is; and the
    -- fuel is beyond the length of the list and one more.
    pub phoenix_verify_lem :
        (info : WeaponInfo)
        → IsKnown registered info
        → ltb_ℤ info.ident (pos 0) ≡ false
        → (fuel : ℕ) → length config.registry.hashlist.order + 1 < fuel
        → (n : ℕ) × (phoenix_verify place config fuel info ≡ some n)
          × ((n ≢ 0) ↔ ((d : ℕ) × Descends registered d info n))
          × ((d l : ℕ) → Descends registered d info l → n ≡ l)
    unfolding phoenix_verify is_among
    phoenix_verify_lem info known positive zero enough = elim enough [ ]
    phoenix_verify_lem info known positive (suc fuel) enough =
        let fits =
          length-filter-le (λ id. not (is_among id ((negsuc 0 ∷ []) ++ (info.ident ∷ []))))
            (keys_of config.registry.hashlist.order) in
        let (n, e) =
          verify_ends registered registered-ident (keys_of config.registry.hashlist.order)
            registered-is_among fuel info (negsuc 0 ∷ [])
            (omega (arith, fits, length-keys_of config.registry.hashlist.order)) in
        let exact : (d l : ℕ) → Descends registered d info l → n ≡ l = λ d l h.
          verify_complete registered registered-ident (suc fuel) d l n info (negsuc 0 ∷ []) h known
            (elim (Bool-cases (eqb_ℤ info.ident (negsuc 0))) [
              | inr other ↦ rw other refl
              | inl same ↦ absurd (
                  let clash : true ≡ false = rw (eqb→eq info.ident (negsuc 0) same) at positive in
                  cc)
            ])
            (head-IsBelow d) e in
        (
          n,
          e,
          (
            verify_sound registered (suc fuel) info (negsuc 0 ∷ []) n e,
            λ (d, h) zero_levels.
                let more = levels_pos registered registered-ident d n info h in omega arith,
          ),
          exact,
        )
