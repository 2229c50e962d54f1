-- ===== src/Ai/Loops.antt =====
-- The loops of sai/saibuy.c over the goods end, and are passes over the lists of the goods.

use xscorch.Prelude.{ℕ, ◌<◌, List, [], ◌∷◌, Bool, Option, some, ◌≡◌, refl, sym, length}
use xscorch.Prelude.Int.{ℤ}
use xscorch.Items.{AccessoryInfo}
use xscorch.HashList.{Item}
use xscorch.HashList.Keyed.{int_keys}
use xscorch.HashList.Laws.{IsTable}
use xscorch.Registry.{registry_forward, registry_reverse}
use xscorch.Goods.{weapon_goods, accessory_goods, limit_all, viewable}
use xscorch.Goods.Listing.{listing, listed, length-reverse, length-filter-reverse}
use xscorch.Goods.Folds.{fold_over}
use xscorch.Goods.Scans.{scan_fold, scan_find}
use xscorch.Ai.{Shop, Market, Judgement, all_forward, all_reverse}
use xscorch.Ai.Buy.{every_weapon, every_accessory, find_accessory}
use xscorch.Ai.Purchases.{IsReady}

pub fold_over-keeps {κ ν τ} :
    {D : Type κ} {S : Type ν} (P : S → Type τ) (step : S → D → S) (items : List (Item ℤ D)) (s : S)
    → ((t : S) (a : D) → P t → P (step t a))
    → P s
    → P (fold_over step items s)
fold_over-keeps P step [] s keep h = h
fold_over-keeps P step (x ∷ items) s keep h =
    fold_over-keeps P step items (step s x.value) keep (keep s x.value h)

module _ {Score : Type 0} (judgement : Judgement Score) (market : Market) (place : ℤ → ℕ) (fuel : ℕ)
    (arms : IsTable int_keys place market.weapon_config.registry.hashlist)
    (tools : IsTable int_keys place market.accessory_config.registry.hashlist)
    (enough : length market.weapon_config.registry.hashlist.order < fuel)
    (enough' : length market.accessory_config.registry.hashlist.order < fuel) where
  pub weapons_reverse :
      (step : Shop → ℕ → Shop) (s start : Shop)
      → IsReady market s
      → every_weapon judgement market place fuel all_reverse step s start
        ≡ some (
            fold_over step
              (listing (weapon_goods s.weapons) market.weapon_config all_reverse registry_reverse)
              start)
  unfolding every_weapon viewable
  weapons_reverse step s start h =
      scan_fold (weapon_goods s.weapons) market.weapon_config all_reverse place arms
        h.weapons_numbered fuel enough (length-reverse market.weapon_config.registry.hashlist.order)
        (sym (
          length-filter-reverse (listed (weapon_goods s.weapons) market.weapon_config limit_all)
            market.weapon_config.registry.hashlist.order))
        step start

  pub weapons_forward :
      {S : Type 0} (step : S → ℕ → S) (s : Shop) (start : S)
      → IsReady market s
      → every_weapon judgement market place fuel all_forward step s start
        ≡ some (
            fold_over step
              (listing (weapon_goods s.weapons) market.weapon_config all_forward registry_forward)
              start)
  unfolding every_weapon viewable
  weapons_forward step s start h =
      scan_fold (weapon_goods s.weapons) market.weapon_config all_forward place arms
        h.weapons_numbered fuel enough refl refl step start

  pub accessories_forward :
      {S : Type 0} (step : S → ℕ → S) (s : Shop) (start : S)
      → IsReady market s
      → every_accessory judgement market place fuel all_forward step s start
        ≡ some (
            fold_over step
              (listing
                (accessory_goods s.accessories)
                market.accessory_config
                all_forward
                registry_forward)
              start)
  unfolding every_accessory viewable
  accessories_forward step s start h =
      scan_fold (accessory_goods s.accessories) market.accessory_config all_forward place tools
        h.accessories_numbered fuel enough' refl refl step start

  pub found_forward :
      (test : AccessoryInfo → Bool) (s : Shop)
      → IsReady market s
      → (r : Option ℕ) × (find_accessory judgement market place fuel all_forward test s ≡ some r)
  unfolding find_accessory viewable
  found_forward test s h = (
    _,
    scan_find (accessory_goods s.accessories) market.accessory_config all_forward place tools
        h.accessories_numbered fuel enough' refl refl (λ a. test (s.accessories a)),
  )

  pub found_default :
      (test : AccessoryInfo → Bool) (s : Shop)
      → IsReady market s
      → (r : Option ℕ) × (find_accessory judgement market place fuel limit_all test s ≡ some r)
  unfolding find_accessory viewable
  found_default test s h = (
    _,
    scan_find (accessory_goods s.accessories) market.accessory_config limit_all place tools
        h.accessories_numbered fuel enough' refl refl (λ a. test (s.accessories a)),
  )

  pub found_reverse :
      (test : AccessoryInfo → Bool) (s : Shop)
      → IsReady market s
      → (r : Option ℕ) × (find_accessory judgement market place fuel all_reverse test s ≡ some r)
  unfolding find_accessory viewable
  found_reverse test s h = (
    _,
    scan_find (accessory_goods s.accessories) market.accessory_config all_reverse place tools
        h.accessories_numbered fuel enough'
        (length-reverse market.accessory_config.registry.hashlist.order)
        (sym (
          length-filter-reverse
            (listed (accessory_goods s.accessories) market.accessory_config limit_all)
            market.accessory_config.registry.hashlist.order))
        (λ a. test (s.accessories a)),
  )
