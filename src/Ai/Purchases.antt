-- ===== src/Ai/Purchases.antt =====
-- A purchase of sai/saibuy.c keeps the shop in order.
use xscorch.Prelude.{ℕ, List, [], ◌∷◌, some, ◌≡◌, refl, sym, ◌∙◌, arith, ◌==◌, Bool-cases, inl, inr}
use xscorch.Prelude.Int.{ℤ, pos, ◌≤ℤ◌}
use xscorch.Items.{WeaponInfo, AccessoryInfo}
use xscorch.Player.{Player}
use xscorch.HashList.{Item}
use xscorch.Inventory.{infinite, can_buy_weapon, can_buy_accessory, buy_weapon, buy_accessory}
use xscorch.Inventory.Limits.{AllCounts, IsPriced, buy_weapon-AllCounts, accessory-AllCounts}
use xscorch.Goods.{Goods, GoodsConfig, weapon_goods, accessory_goods, limit_all}
use xscorch.Goods.Cycle.{IsNumbered}
use xscorch.Ai.{Shop, Market, put, purchase_weapon, purchase_accessory}

-- What a purchase leaves of a good.
bought_weapon_kept :
    (p : Player) (info : WeaponInfo)
    → ((buy_weapon p info).2.ident ≡ info.ident)
      × ((buy_weapon p info).2.price ≡ info.price)
      × ((buy_weapon p info).2.bundle ≡ info.bundle)
unfolding buy_weapon
bought_weapon_kept p info = elim (Bool-cases (can_buy_weapon p (some info) infinite)) [
  | inl e ↦ rw e (refl, refl, refl)
  | inr e ↦ rw e (refl, refl, refl)
]

bought_accessory_kept :
    (p : Player) (info : AccessoryInfo)
    → ((buy_accessory p info).2.ident ≡ info.ident)
      × ((buy_accessory p info).2.price ≡ info.price)
      × ((buy_accessory p info).2.bundle ≡ info.bundle)
unfolding buy_accessory
bought_accessory_kept p info = elim (Bool-cases (can_buy_accessory p (some info) infinite)) [
  | inl e ↦ rw e (refl, refl, refl)
  | inr e ↦ rw e (refl, refl, refl)
]

-- The numbers of goods are all that IsNumbered reads of them.
IsNumbered-same {κ} :
    {D : Type κ} (goods goods' : Goods D) (config : GoodsConfig D) (flags : ℕ)
    (items : List (Item ℤ D))
    → ((a : D) → goods'.ident a ≡ goods.ident a)
    → IsNumbered goods config flags items
    → IsNumbered goods' config flags items
IsNumbered-same goods goods' config flags [] same h = tt
IsNumbered-same goods goods' config flags (x ∷ items) same h =
    (h.0 ∙ sym (same x.value), h.1, IsNumbered-same goods goods' config flags items same h.2)

-- Whatever holds of a store and of what is put there holds afterwards.
put-all {ℓ κ} :
    {A : Type ℓ} (P : ℕ → A → Type κ) (address : ℕ) (value : A) (store : ℕ → A)
    → ((a : ℕ) → P a (store a))
    → P address value
    → (a : ℕ) → P a (put address value store a)
put-all P address value store h new a = elim (Bool-cases (a == address)) [
  | inl e ↦ let same : a ≡ address = ground arith in rw (e, same) new
  | inr e ↦ rw e (h a)
]

module _ (market : Market) where
  -- The player is not in debt, the stocks are within their limits, and the goods are priced and
  -- registered under their own numbers.
  pub record IsReady (s : Shop) : Type 0 where
    pub solvent : pos 0 ≤ℤ s.p.money
    pub weapons_held : (a : ℕ) → AllCounts (s.weapons a).inventories
    pub weapons_priced : (a : ℕ) → IsPriced (s.weapons a).price (s.weapons a).bundle
    pub accessories_held : (a : ℕ) → AllCounts (s.accessories a).inventories
    pub accessories_priced : (a : ℕ) → IsPriced (s.accessories a).price (s.accessories a).bundle
    pub weapons_numbered :
        IsNumbered
          (weapon_goods s.weapons)
          market.weapon_config
          limit_all
          market.weapon_config.registry.hashlist.order
    pub accessories_numbered :
        IsNumbered
          (accessory_goods s.accessories)
          market.accessory_config
          limit_all
          market.accessory_config.registry.hashlist.order

  pub purchase_weapon-IsReady : (s : Shop) (a : ℕ) → IsReady s → IsReady (purchase_weapon s a)
  unfolding purchase_weapon
  purchase_weapon-IsReady s a h =
      let info = s.weapons a in
      let info' = (buy_weapon s.p info).2 in
      let kept = bought_weapon_kept s.p info in
      let bought = buy_weapon-AllCounts s.p info (h.weapons_priced a) (h.weapons_held a) in
      record {
        solvent = bought.1 h.solvent;
        weapons_held =
            put-all (λ _ i. AllCounts i.inventories) a info' s.weapons h.weapons_held bought.0;
        weapons_priced =
            put-all (λ _ i. IsPriced i.price i.bundle) a info' s.weapons h.weapons_priced
              (rw (kept.1, kept.2) (h.weapons_priced a));
        accessories_held = h.accessories_held;
        accessories_priced = h.accessories_priced;
        weapons_numbered =
            IsNumbered-same (weapon_goods s.weapons) (weapon_goods (put a info' s.weapons))
              market.weapon_config limit_all market.weapon_config.registry.hashlist.order
              (put-all (λ b i. i.ident ≡ (s.weapons b).ident) a info' s.weapons (λ b. refl) kept.0)
              h.weapons_numbered;
        accessories_numbered = h.accessories_numbered;
      }

  pub purchase_accessory-IsReady : (s : Shop) (a : ℕ) → IsReady s → IsReady (purchase_accessory s a)
  unfolding purchase_accessory
  purchase_accessory-IsReady s a h =
      let info = s.accessories a in
      let info' = (buy_accessory s.p info).2 in
      let kept = bought_accessory_kept s.p info in
      let bought =
        (accessory-AllCounts s.p info (h.accessories_priced a) (h.accessories_held a)).0 in
      record {
        solvent = bought.1 h.solvent;
        weapons_held = h.weapons_held;
        weapons_priced = h.weapons_priced;
        accessories_held =
            put-all (λ _ i. AllCounts i.inventories) a info' s.accessories h.accessories_held
              bought.0;
        accessories_priced =
            put-all (λ _ i. IsPriced i.price i.bundle) a info' s.accessories h.accessories_priced
              (rw (kept.1, kept.2) (h.accessories_priced a));
        weapons_numbered = h.weapons_numbered;
        accessories_numbered =
            IsNumbered-same (accessory_goods s.accessories)
              (accessory_goods (put a info' s.accessories)) market.accessory_config limit_all
              market.accessory_config.registry.hashlist.order
              (put-all (λ b i. i.ident ≡ (s.accessories b).ident) a info' s.accessories (λ b. refl)
                kept.0)
              h.accessories_numbered;
      }
