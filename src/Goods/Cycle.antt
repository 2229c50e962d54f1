-- ===== src/Goods/Cycle.antt =====
-- What a round over the goods meets (sgame/saccessory.c, sgame/sweapon.c): their number, and each of
-- them in order.
use mathlib.Core.List.{reverse}
use xscorch.Prelude.{
  get_elem?-within, ℕ, zero, suc, ◌≤◌, ◌<◌, List, [], ◌∷◌, ◌++◌, true, false, Option, none, some,
  ◌≡◌, refl, sym, ◌∙◌, ap, arith, length, get_elem?,
}
use xscorch.Prelude.Int.{ℤ, pos, ltb_ℤ}
use xscorch.HashList.{Item, onward}
use xscorch.HashList.Keyed.{int_keys, find_by_int}
use xscorch.HashList.Laws.{IsTable, with_id, same_refl}
use xscorch.HashList.Removes.{find-lookup}
use xscorch.Registry.{Direction, registry_forward, registry_reverse, data_of}
use xscorch.Registry.Find.{find_first, find_next, data_found, iterate, iter_new}
use xscorch.Registry.Walks.{walk, pass_over, internal_iter_lem, after-split, walk_addressed}
use xscorch.Goods.{
  Goods, GoodsConfig, direction_of, test_count, test_viewable, count, or_first, first, next,
}
use xscorch.Goods.Listing.{
  head?-get_elem?, get_elem?-beyond, get_elem?-before, get_elem?-split, only_one, reverse_split,
  listed, listing, pass_over-count, pass_over-viewable,
}

module _ {κ} {D : Type κ} (goods : Goods D) (config : GoodsConfig D) (flags : ℕ) where
  -- Each good is registered under its own number.
  abbrev pub IsNumbered : List (Item ℤ D) → Type 0
  IsNumbered [] = Unit
  IsNumbered (x ∷ items) =
      (x.key ≡ goods.ident x.value) × (ltb_ℤ x.key (pos 0) ≡ false) × IsNumbered items

  pub numbered_at :
      (front rest : List (Item ℤ D)) (x : Item ℤ D)
      → IsNumbered (front ++ (x ∷ rest))
      → (x.key ≡ goods.ident x.value) × (ltb_ℤ x.key (pos 0) ≡ false)
  numbered_at [] rest x h = (h.0, h.1)
  numbered_at (y ∷ front) rest x h = numbered_at front rest x h.2

  -- The goods from the first on, one by one.
  unfoldable pub visit : (ℤ → ℕ) → ℕ → ℕ → Option (Option D)
  unfolding first next
  visit place fuel zero = first goods config fuel flags
  visit place fuel (suc n) = elim (visit place fuel n) [
    | none ↦ none
    | some none ↦ some none
    | some (some info) ↦ next goods config place fuel info flags
  ]

  module _ (place : ℤ → ℕ) (h : IsTable int_keys place config.registry.hashlist)
      (numbered : IsNumbered config.registry.hashlist.order) (fuel : ℕ)
      (enough : length (walk (direction_of flags) config.registry.hashlist) < fuel) where
    abbrev items : List (Item ℤ D)
    items = walk (direction_of flags) config.registry.hashlist

    order_split :
        (direction : Direction) (front rest : List (Item ℤ D)) (x : Item ℤ D)
        → walk direction config.registry.hashlist ≡ front ++ (x ∷ rest)
        → (front' : List (Item ℤ D)) × (rest' : List (Item ℤ D)) × (config.registry.hashlist.order
            ≡ front' ++ (x ∷ rest'))
    order_split registry_forward front rest x e = (front, rest, e)
    order_split registry_reverse front rest x e =
        (reverse rest, reverse front, reverse_split config.registry.hashlist.order front rest x e)

    pub first_lem :
        first goods config fuel flags
        ≡ some (data_of (get_elem? (listing goods config flags (direction_of flags)) 0))
    unfolding first find_first
    first_lem =
        let walked =
          internal_iter_lem config.registry.hashlist config.registryclass (direction_of flags)
            (some (test_viewable goods config flags)) h.addressed none tt fuel enough
          ∙ ap some (pass_over-viewable goods config flags items) in
        rw walked (
          ap (λ r. some (data_of r))
            (head?-get_elem? (listing goods config flags (direction_of flags))))

    pub found_at :
        (x : Item ℤ D) (front rest : List (Item ℤ D))
        → items ≡ front ++ (x ∷ rest)
        → find_by_int place config.registry.hashlist (goods.ident x.value) ≡ some x
    unfolding find_by_int
    found_at x front rest e =
        let (front', rest', s) = order_split (direction_of flags) front rest x e in
        let (key, positive) = numbered_at front' rest' x (rw (sym s) numbered) in
        let one = rw s at (h.keyed x.key) in
        let it =
          only_one (λ item. int_keys.same item.key x.key) front' rest' x (same_refl int_keys x.key)
            one in
        rw (sym key, positive)
          (find-lookup int_keys place config.registry.hashlist x.key h ∙ rw s it)

    abbrev pub following_good : Option (Item ℤ D) → Option (Option D)
    following_good none = first goods config fuel flags
    following_good (some y) = some (some y.value)

    or_first_lem :
        (o : Option (Item ℤ D))
        → or_first goods config fuel flags (some (data_of o)) ≡ following_good o
    or_first_lem none = refl
    or_first_lem (some y) = refl

    pub next_lem :
        (i : ℕ) (x : Item ℤ D)
        → get_elem? (listing goods config flags (direction_of flags)) i ≡ some x
        → next goods config place fuel x.value flags
          ≡ following_good (get_elem? (listing goods config flags (direction_of flags)) (suc i))
    unfolding next find_next
    next_lem i x e =
        let (front, rest, s, hd) = get_elem?-split (listed goods config flags) items i x e in
        let item = found_at x front rest s in
        let following : onward (some x) items ≡ rest = rw s (
          after-split front rest x (
            rw s at
              (walk_addressed (direction_of flags) config.registry.hashlist h.addressed x.id))) in
        let walked =
          internal_iter_lem config.registry.hashlist config.registryclass (direction_of flags)
            (some (test_viewable goods config flags)) h.addressed (some x) tt fuel enough
          ∙ ap some (
              ap (pass_over config.registryclass (some (test_viewable goods config flags)) tt)
                following)
          ∙ ap some (pass_over-viewable goods config flags rest ∙ ap (λ r. (r, tt)) hd) in
        let answered : find_next place fuel config.registry config.registryclass
              (goods.ident x.value) (direction_of flags) (some (test_viewable goods config flags))
              tt
            ≡ some (
              data_of (get_elem? (listing goods config flags (direction_of flags)) (suc i)),
              tt,
            ) =
          rw (item, find_next) (ap data_found walked) in
        rw (answered, next)
          (or_first_lem (get_elem? (listing goods config flags (direction_of flags)) (suc i)))

    visit_lem :
        (i : ℕ) (x : Item ℤ D)
        → get_elem? (listing goods config flags (direction_of flags)) i ≡ some x
        → visit place fuel i ≡ some (some x.value)
    unfolding visit
    visit_lem zero x e = first_lem ∙ rw e refl
    visit_lem (suc i) x e =
        let (y, f) = get_elem?-before (listing goods config flags (direction_of flags)) i x e in
        rw (visit_lem i y f, visit) (next_lem i y f ∙ rw e refl)

    -- A round over the goods: `first`, and then `next` as many times as there are goods of the class
    -- that may be viewed under the flags, meets the good at each place of their list (or of the list
    -- backwards, as the flags say), each at its turn, and is then back at the first. No walk runs
    -- out of fuel. Assumed: the list and the chains of the registry hold the same items, one of each
    -- key; every good is registered under its own number; the place is on the list; and the fuel is
    -- beyond the length of the list.
    pub visit-IsRound :
        (i : ℕ)
        → i < length (listing goods config flags (direction_of flags))
        → (visit place fuel i
            ≡ some (data_of (get_elem? (listing goods config flags (direction_of flags)) i)))
          × (visit place fuel (length (listing goods config flags (direction_of flags)))
              ≡ first goods config fuel flags)
    unfolding visit
    visit-IsRound i l =
        let (x, e) = get_elem?-within (listing goods config flags (direction_of flags)) i l in
        (
          visit_lem i x e ∙ rw e refl,
          round_end (length (listing goods config flags (direction_of flags))) refl (omega arith),
        )
      where
        round_end :
            (n : ℕ)
            → length (listing goods config flags (direction_of flags)) ≡ n
            → 0 < n
            → visit place fuel n ≡ first goods config fuel flags
        round_end zero e l = elim l [ ]
        round_end (suc n) e l =
            let (x, f) =
              get_elem?-within (listing goods config flags (direction_of flags)) n (omega arith) in
            let beyond =
              get_elem?-beyond (listing goods config flags (direction_of flags)) (suc n)
                (omega arith) in
            rw (visit_lem n x f, visit) (next_lem n x f ∙ rw beyond refl)

-- Where there is memory, the count is the number of goods that may be viewed.
module _ {κ} {D : Type κ} (goods : Goods D) (config : GoodsConfig D) (flags : ℕ)
    (h : (id : ℕ) → length (with_id id config.registry.hashlist.order) ≤ 1) where
  pub count_lem :
      (fuel : ℕ)
      → length config.registry.hashlist.order < fuel
      → count goods config true fuel flags
        ≡ some (length (listing goods config flags registry_forward))
  unfolding count iterate iter_new
  count_lem fuel l =
      let walked =
        internal_iter_lem config.registry.hashlist config.registryclass registry_forward
          (some (test_count goods config flags)) h none 0 fuel l
        ∙ ap some (pass_over-count goods config flags config.registry.hashlist.order 0) in
      rw (walked, count, iterate) (ap some (omega arith))
