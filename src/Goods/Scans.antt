-- ===== src/Goods/Scans.antt =====
-- A whole loop over the goods, from the count on: it ends, and it is a pass over their list.

use xscorch.Prelude.{
  ℕ, ◌<◌, Bool, Option, none, some, true, head?, ◌≡◌, refl, sym, ◌∙◌, ap, arith, get_elem?, length,
}
use xscorch.Prelude.Int.{ℤ}
use xscorch.HashList.{Item}
use xscorch.HashList.Keyed.{int_keys}
use xscorch.HashList.Laws.{IsTable}
use xscorch.Registry.{registry_forward}
use xscorch.Registry.Walks.{walk}
use xscorch.Goods.{Goods, GoodsConfig, limit_all, count, first, direction_of}
use xscorch.Goods.Listing.{listing, head?-get_elem?}
use xscorch.Goods.Cycle.{IsNumbered, first_lem, count_lem}
use xscorch.Goods.Folds.{
  fold_goods, fold_over, fold_goods_lem, find_good, first_over, find_good_lem,
}

module _ {κ} {D : Type κ} (goods : Goods D) (config : GoodsConfig D) (flags : ℕ) (place : ℤ → ℕ)
    (h : IsTable int_keys place config.registry.hashlist)
    (numbered : IsNumbered goods config flags config.registry.hashlist.order) (fuel : ℕ)
    (enough : length config.registry.hashlist.order < fuel)
    (walked : length (walk (direction_of flags) config.registry.hashlist)
      ≡ length config.registry.hashlist.order)
    (counted : length (listing goods config limit_all registry_forward)
      ≡ length (listing goods config flags (direction_of flags))) where
  counted_all :
      count goods config true fuel limit_all
      ≡ some (length (listing goods config flags (direction_of flags)))
  counted_all = count_lem goods config limit_all h.addressed fuel enough ∙ ap some counted

  start :
      (x : Item ℤ D)
      → head? (listing goods config flags (direction_of flags)) ≡ some x
      → first goods config fuel flags ≡ some (some x.value)
  start x e =
      first_lem goods config flags place h numbered fuel (omega (arith, walked, enough))
      ∙ rw (sym (head?-get_elem? (listing goods config flags (direction_of flags))) ∙ e) refl

  pub scan_fold {ν} :
      {S : Type ν} (step : S → D → S) (state : S)
      → (elim (count goods config true fuel limit_all) as (λ _. Option S) [
        | none ↦ none
        | some rounds ↦
            fold_goods goods config place fuel flags step rounds
              (first goods config fuel flags)
              state
      ])
        ≡ some (fold_over step (listing goods config flags (direction_of flags)) state)
  scan_fold step state = rw counted_all (
      fold_goods_lem goods config flags place h numbered fuel (omega (arith, walked, enough)) step
        (listing goods config flags (direction_of flags)) 0 (first goods config fuel flags) state
        (λ k. ap (get_elem? (listing goods config flags (direction_of flags))) (omega arith)) start)

  pub scan_find :
      (test : D → Bool)
      → (elim (count goods config true fuel limit_all) as (λ _. Option (Option D)) [
        | none ↦ none
        | some rounds ↦
            find_good goods config place fuel flags test rounds (first goods config fuel flags)
      ])
        ≡ some (first_over test (listing goods config flags (direction_of flags)))
  scan_find test = rw counted_all (
      find_good_lem goods config flags place h numbered fuel (omega (arith, walked, enough)) test
        (listing goods config flags (direction_of flags)) 0 (first goods config fuel flags)
        (λ k. ap (get_elem? (listing goods config flags (direction_of flags))) (omega arith)) start)
