-- ===== src/Inventory/Trade.antt =====
-- What a trade of sgame/sinventory.c does: when it goes through, what it changes, and that buying
-- and selling back loses half of the price.
use mathlib.Core.Bool.{false≢true}
use xscorch.Prelude.{
  ◌<◌, List, true, false, some, ◌≡◌, ◌≢◌, ◌↔◌, refl, ◌∙◌, arith, length, set, inl, inr, Bool-cases,
  get_or-set_self, set-set, set-get_or_self,
}
use xscorch.Prelude.Int.{ℤ, pos, negsuc, ◌+ℤ◌, ◌-ℤ◌, ◌/ℤ◌, ◌≤ℤ◌, ◌<ℤ◌, int_laws, +ℤ-sub}
use xscorch.Items.{WeaponInfo, AccessoryInfo, accessory_is_permanent}
use xscorch.Player.{Player}
use xscorch.Inventory.{
  max_items, infinite, stock, quantity, purchase_price, sale_price, sale_count, can_buy_weapon,
  can_buy_accessory, can_sell_weapon, buy_weapon, buy_accessory, sell_weapon,
}
use xscorch.Inventory.Limits.{AllCounts, AllCounts-stock, IsCount, IsPriced, quantity_bounds}

-- Something is on offer exactly when the stock is below the limit and the bundle is not empty.
quantity_zero_iff :
    (held bundle : ℤ)
    → IsCount held
    → pos 0 ≤ℤ bundle
    → (quantity held bundle ≢ pos 0) ↔ ((held <ℤ max_items) × (pos 0 <ℤ bundle))
unfolding quantity ◌-ℤ◌ ◌+ℤ◌
quantity_zero_iff (pos h) (pos b) v k = ground arith
quantity_zero_iff (negsuc h) b v k = absurd (omega arith)
quantity_zero_iff h (negsuc b) v k = absurd (omega arith)

can_buy_weapon_tests :
    (p : Player) (info : WeaponInfo) (budget : ℤ)
    → let count = quantity (stock info.inventories p.index) info.bundle in
      let cost = purchase_price info.price info.bundle count in
      (can_buy_weapon p (some info) budget ≡ true)
      ↔ ((count ≢ pos 0) × (cost ≤ℤ p.money) × (pos 0 ≤ℤ budget → cost ≤ℤ budget))
unfolding can_buy_weapon
can_buy_weapon_tests p info budget = ground arith

-- There is room for one more, the bundle is not empty, and the cost is within the money and the budget.
pub can_buy_weapon_iff :
    (p : Player) (info : WeaponInfo) (budget : ℤ)
    → IsPriced info.price info.bundle
    → AllCounts info.inventories
    → let held = stock info.inventories p.index in
      let cost = purchase_price info.price info.bundle (quantity held info.bundle) in
      (can_buy_weapon p (some info) budget ≡ true) ↔ (
        (held <ℤ max_items)
        × (pos 0 <ℤ info.bundle)
        × (cost ≤ℤ p.money)
        × (pos 0 ≤ℤ budget → cost ≤ℤ budget))
can_buy_weapon_iff p info budget v h =
    let t = can_buy_weapon_tests p info budget in
    let z =
      quantity_zero_iff (stock info.inventories p.index) info.bundle
        (AllCounts-stock info.inventories p.index h) v.1 in
    (
      λ e. let (n, c, b) = t.0 e in ((z.0 n).0, (z.0 n).1, c, b),
      λ g. t.1 (z.1 (g.0, g.1), g.2, g.3),
    )

-- A whole bundle, where it fits, costs the price.
whole_bundle :
    (price bundle held : ℤ)
    → held +ℤ bundle ≤ℤ max_items
    → (quantity held bundle ≡ bundle) × (purchase_price price bundle bundle ≡ price)
unfolding quantity purchase_price
whole_bundle price bundle held h = ground arith

-- Sold back, it goes as a whole bundle again.
sold_back :
    (price bundle held : ℤ)
    → pos 0 ≤ℤ held
    → (sale_count (held +ℤ bundle) bundle ≡ bundle)
      × (sale_price price bundle bundle ≡ price /ℤ pos 2)
unfolding sale_price ◌+ℤ◌
sold_back price bundle held h = ground arith

can_sell_weapon_in_stock :
    (p : Player) (info : WeaponInfo)
    → pos 0 <ℤ info.price
    → pos 0 <ℤ info.bundle
    → pos 0 <ℤ stock info.inventories p.index
    → can_sell_weapon p (some info) ≡ true
unfolding can_sell_weapon
can_sell_weapon_in_stock p info a b c = ground arith

-- What a purchase that goes through leaves.
pub buy_weapon_done :
    (p : Player) (info : WeaponInfo)
    → can_buy_weapon p (some info) infinite ≡ true
    → let count = quantity (stock info.inventories p.index) info.bundle in
      buy_weapon p info ≡ (
        true,
        record p { money = p.money -ℤ purchase_price info.price info.bundle count },
        record info {
          inventories = set info.inventories p.index (stock info.inventories p.index +ℤ count);
        },
      )
unfolding buy_weapon
buy_weapon_done p info e = rw e

sell_weapon_done :
    (p : Player) (info : WeaponInfo)
    → can_sell_weapon p (some info) ≡ true
    → let count = sale_count (stock info.inventories p.index) info.bundle in
      sell_weapon p info ≡ (
        true,
        record p { money = p.money +ℤ sale_price info.price info.bundle count },
        record info {
          inventories = set info.inventories p.index (stock info.inventories p.index -ℤ count);
        },
      )
unfolding sell_weapon
sell_weapon_done p info e = rw e

-- Buying a whole bundle and selling it back at once restores every stock, and loses the price but
-- for half of it, rounded down. Assumed: the stocks are legal, the price and the bundle are above
-- zero, the player's index is in the array, the bundle fits, and the player can pay the price.
pub sell_weapon-buy_weapon :
    (p : Player) (info : WeaponInfo)
    → AllCounts info.inventories
    → pos 0 <ℤ info.price
    → pos 0 <ℤ info.bundle
    → p.index < length info.inventories
    → stock info.inventories p.index +ℤ info.bundle ≤ℤ max_items
    → info.price ≤ℤ p.money
    → let (_, p1, info1) = buy_weapon p info in
      let (done, p2, info2) = sell_weapon p1 info1 in
      (done ≡ true)
      × (info2.inventories ≡ info.inventories)
      × (p2.money ≡ p.money -ℤ info.price +ℤ info.price /ℤ pos 2)
sell_weapon-buy_weapon p info h pr b inside room rich =
    let held : ℤ = stock info.inventories p.index in
    let v = AllCounts-stock info.inventories p.index h in
    let w = whole_bundle info.price info.bundle held room in
    let s = sold_back info.price info.bundle held v.0 in
    let can =
      (can_buy_weapon_iff p info infinite (omega arith, omega arith) h).1
        (omega int_laws, b, rw (w.0, w.1) rich, λ c. absurd (omega arith)) in
    let new : List ℤ = set info.inventories p.index (held +ℤ info.bundle) in
    let p1 : Player = record p { money = p.money -ℤ info.price } in
    let info1 : WeaponInfo = record info { inventories = new } in
    let got : stock new p.index ≡ held +ℤ info.bundle =
      get_or-set_self info.inventories p.index (held +ℤ info.bundle) (pos 0) inside in
    let can' = can_sell_weapon_in_stock p1 info1 pr b (rw got (omega int_laws)) in
    let bought : buy_weapon p info ≡ (true, p1, info1) =
      buy_weapon_done p info can ∙ rw (w.0, w.1) in
    rw (bought, sell_weapon_done p1 info1 can', got, s.0, s.1, +ℤ-sub held info.bundle)
      (
        refl,
        set-set info.inventories p.index (held +ℤ info.bundle) held
            ∙ set-get_or_self info.inventories p.index (pos 0),
        refl,
      )

can_buy_accessory_held :
    (p : Player) (info : AccessoryInfo) (budget : ℤ)
    → accessory_is_permanent info ≡ true
    → pos 0 <ℤ stock info.inventories p.index
    → can_buy_accessory p (some info) budget ≡ false
unfolding can_buy_accessory
can_buy_accessory_held p info budget e h = rw e (ground arith)

can_buy_accessory_count :
    (p : Player) (info : AccessoryInfo) (budget : ℤ)
    → can_buy_accessory p (some info) budget ≡ true
    → quantity (stock info.inventories p.index) info.bundle ≢ pos 0
unfolding can_buy_accessory
can_buy_accessory_count p info budget e z = ground arith

pos_of_nonneg : (n : ℤ) → pos 0 ≤ℤ n → n ≢ pos 0 → pos 0 <ℤ n
pos_of_nonneg n h z = ground arith

can_buy_accessory-pos :
    (p : Player) (info : AccessoryInfo) (budget : ℤ)
    → IsPriced info.price info.bundle
    → AllCounts info.inventories
    → can_buy_accessory p (some info) budget ≡ true
    → pos 0
      <ℤ stock info.inventories p.index +ℤ quantity (stock info.inventories p.index) info.bundle
can_buy_accessory-pos p info budget v h e =
    let c = AllCounts-stock info.inventories p.index h in
    let q = quantity_bounds (stock info.inventories p.index) info.bundle c v.1 in
    let n = pos_of_nonneg _ q.0 (can_buy_accessory_count p info budget e) in omega int_laws

-- A permanent accessory is bought at most once: after a purchase of it that went through, no
-- budget lets the same player buy it again. Assumed: legal stocks, a price and a bundle that are
-- not negative, and the player's index within the array.
pub can_buy_accessory-buy_accessory :
    (p : Player) (info : AccessoryInfo) (budget : ℤ)
    → IsPriced info.price info.bundle
    → AllCounts info.inventories
    → p.index < length info.inventories
    → accessory_is_permanent info ≡ true
    → (buy_accessory p info).0 ≡ true
    → let (_, p1, info1) = buy_accessory p info in can_buy_accessory p1 (some info1) budget ≡ false
unfolding buy_accessory
can_buy_accessory-buy_accessory p info budget v h inside perm done =
    elim (Bool-cases (can_buy_accessory p (some info) infinite)) [
      | inl e ↦ rw e (
          can_buy_accessory_held _ _ budget perm (
            rw (get_or-set_self info.inventories p.index _ (pos 0) inside)
              (can_buy_accessory-pos p info infinite v h e)))
      | inr e ↦ absurd (false≢true (rw e at done))
    ]
