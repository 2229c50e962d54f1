-- ===== src/Ai/Found.antt =====
-- The goods that the loops of sai/saibuy.c list are found again by their numbers.
use mathlib.Core.List.{append_assoc}
use xscorch.Prelude.{
  ℕ, ◌<◌, List, [], ◌∷◌, ◌++◌, true, some, ◌≡◌, refl, sym, ◌∙◌, Bool-cases, inl, inr, length,
  filter,
}
use xscorch.Prelude.Int.{ℤ}
use xscorch.HashList.{Item, has_class}
use xscorch.HashList.Keyed.{int_keys}
use xscorch.HashList.Laws.{IsTable}
use xscorch.Registry.{find_by_int}
use xscorch.Goods.{Goods, GoodsConfig, limit_all, viewable, lookup}
use xscorch.Goods.Listing.{listed}
use xscorch.Goods.Cycle.{IsNumbered, numbered_at, found_at}
use xscorch.Goods.Folds.{fold_over}
use xscorch.Ai.Orderings.{All}

pub fold_over-All {κ ν τ υ} :
    {D : Type κ} {S : Type ν} (Q : D → Type υ) (P : S → Type τ) (step : S → D → S)
    (items : List (Item ℤ D)) (s : S)
    → ((t : S) (a : D) → Q a → P t → P (step t a))
    → All (λ x. Q x.value) items
    → P s
    → P (fold_over step items s)
fold_over-All Q P step [] s keep all h = h
fold_over-All Q P step (x ∷ items) s keep all h =
    fold_over-All Q P step items (step s x.value) keep all.1 (keep s x.value all.0 h)

module _ {κ} {D : Type κ} (goods : Goods D) (config : GoodsConfig D) (place : ℤ → ℕ)
    (h : IsTable int_keys place config.registry.hashlist)
    (numbered : IsNumbered goods config limit_all config.registry.hashlist.order) (fuel : ℕ)
    (enough : length config.registry.hashlist.order < fuel) where
  listed-IsFound :
      (front rest : List (Item ℤ D)) (x : Item ℤ D)
      → config.registry.hashlist.order ≡ front ++ (x ∷ rest)
      → viewable goods config x.value limit_all ≡ true
      → lookup goods config place (goods.ident x.value) limit_all ≡ some x.value
  unfolding lookup find_by_int
  listed-IsFound front rest x e v =
      let (key, positive) = numbered_at goods config limit_all front rest x (rw e at numbered) in
      let found = found_at goods config limit_all place h numbered fuel enough x front rest e in
      rw (found, v, sym key, positive) refl

  pub order-IsFound :
      (front rest : List (Item ℤ D))
      → config.registry.hashlist.order ≡ front ++ rest
      → All
          (λ x. lookup goods config place (goods.ident x.value) limit_all ≡ some x.value)
          (filter (listed goods config limit_all) rest)
  order-IsFound front [] e = tt
  order-IsFound front (x ∷ rest) e =
      let later =
        order-IsFound (front ++ (x ∷ [])) rest (e ∙ sym (append_assoc front (x ∷ []) rest)) in
      elim (Bool-cases (has_class config.registryclass x)) [
        | inl c ↦ elim (Bool-cases (viewable goods config x.value limit_all)) [
          | inl v ↦ rw (c, v) (listed-IsFound front rest x e v, later)
          | inr v ↦ rw (c, v) later
        ]
        | inr c ↦ rw c later
      ]
