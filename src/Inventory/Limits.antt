-- ===== src/Inventory/Limits.antt =====
-- The limits that sgame/sinventory.c keeps: no stock below 0 or above SC_INVENTORY_MAX_ITEMS, and
-- no purchase that the player cannot pay.
use xscorch.Prelude.{
  ℕ, zero, suc, ◌*◌, ◌/◌, ◌≤◌, ◌<◌, List, [], ◌∷◌, true, some, ◌≡◌, ◌⊎◌, inl, inr, arith, set,
  Bool-cases,
}
use xscorch.Prelude.Int.{ℤ, pos, negsuc, ◌+ℤ◌, ◌-ℤ◌, ◌/ℤ◌, ◌≤ℤ◌, int_laws}
use xscorch.Items.{WeaponInfo, AccessoryInfo}
use xscorch.Player.{Player}
use xscorch.Inventory.{
  max_items, infinite, stock, quantity, purchase_price, sale_price, sale_count, can_buy_weapon,
  can_buy_accessory, can_sell_weapon, can_sell_accessory, buy_weapon, buy_accessory, sell_weapon,
  sell_accessory,
}

-- A count that an inventory may hold.
abbrev pub IsCount : ℤ → Type 0
IsCount n = (pos 0 ≤ℤ n) × (n ≤ℤ max_items)

abbrev pub AllCounts : List ℤ → Type 0
AllCounts [] = Unit {0}
AllCounts (n ∷ ns) = IsCount n × AllCounts ns

pub AllCounts-stock : (ns : List ℤ) (i : ℕ) → AllCounts ns → IsCount (stock ns i)
AllCounts-stock [] i h = omega arith
AllCounts-stock (n ∷ ns) zero h = h.0
AllCounts-stock (n ∷ ns) (suc i) h = AllCounts-stock ns i h.1

pub AllCounts-set :
    (ns : List ℤ) (i : ℕ) (n : ℤ) → IsCount n → AllCounts ns → AllCounts (set ns i n)
AllCounts-set [] i n v h = tt
AllCounts-set (m ∷ ns) zero n v h = (v, h.1)
AllCounts-set (m ∷ ns) (suc i) n v h = (h.0, AllCounts-set ns i n v h.1)

-- What the data file promises of an item: neither the price nor the bundle is negative.
abbrev pub IsPriced : ℤ → ℤ → Type 0
IsPriced price bundle = (pos 0 ≤ℤ price) × (pos 0 ≤ℤ bundle)

-- The quantity on offer is what fits of the bundle: never negative, and never above the limit.
pub quantity_bounds :
    (held bundle : ℤ)
    → IsCount held
    → pos 0 ≤ℤ bundle
    → (pos 0 ≤ℤ quantity held bundle)
      × (quantity held bundle ≤ℤ bundle)
      × (held +ℤ quantity held bundle ≤ℤ max_items)
      × ((quantity held bundle ≡ bundle) ⊎ (held +ℤ quantity held bundle ≡ max_items))
unfolding quantity
quantity_bounds (pos h) (pos b) v k = ground arith
quantity_bounds (negsuc h) b v k = absurd (omega arith)
quantity_bounds h (negsuc b) v k = absurd (omega arith)

-- Neither price is negative.
pub purchase_price_nonneg :
    (price bundle count : ℤ)
    → IsPriced price bundle
    → pos 0 ≤ℤ count
    → pos 0 ≤ℤ purchase_price price bundle count
unfolding purchase_price
purchase_price_nonneg (pos p) (pos b) (pos n) v k = ground arith
purchase_price_nonneg (negsuc p) b n v k = absurd (omega arith)
purchase_price_nonneg p (negsuc b) n v k = absurd (omega arith)
purchase_price_nonneg p b (negsuc n) v k = absurd (omega arith)

share-le : (p b n : ℕ) → n < b → p / b * n ≤ p
share-le p b n h = grind arith

-- A sale brings in at least nothing and at most half of the bundle's price.
pub sale_price_bounds :
    (price bundle count : ℤ)
    → IsPriced price bundle
    → pos 0 ≤ℤ count
    → (pos 0 ≤ℤ sale_price price bundle count) × (sale_price price bundle count ≤ℤ price /ℤ pos 2)
unfolding sale_price ◌/ℤ◌
sale_price_bounds (pos p) (pos b) (pos n) v k = ground (arith, share-le p b n)
sale_price_bounds (negsuc p) b n v k = absurd (omega arith)
sale_price_bounds p (negsuc b) n v k = absurd (omega arith)
sale_price_bounds p b (negsuc n) v k = absurd (omega arith)

pub sale_count_bounds :
    (held bundle : ℤ)
    → IsCount held
    → pos 0 ≤ℤ bundle
    → (pos 0 ≤ℤ sale_count held bundle) × (sale_count held bundle ≤ℤ held)
sale_count_bounds held bundle v k = ground arith

-- What a test that lets a purchase through has seen.
pub can_buy_weapon_sound :
    (p : Player) (info : WeaponInfo) (budget : ℤ)
    → can_buy_weapon p (some info) budget ≡ true
    → purchase_price info.price info.bundle (quantity (stock info.inventories p.index) info.bundle)
      ≤ℤ p.money
unfolding can_buy_weapon
can_buy_weapon_sound p info budget h = ground arith

pub can_buy_accessory_sound :
    (p : Player) (info : AccessoryInfo) (budget : ℤ)
    → can_buy_accessory p (some info) budget ≡ true
    → purchase_price info.price info.bundle (quantity (stock info.inventories p.index) info.bundle)
      ≤ℤ p.money
unfolding can_buy_accessory
can_buy_accessory_sound p info budget h = ground arith

-- A purchase that was let through leaves a legal stock.
bought :
    (ns : List ℤ) (i : ℕ) (bundle : ℤ)
    → AllCounts ns
    → pos 0 ≤ℤ bundle
    → AllCounts (set ns i (stock ns i +ℤ quantity (stock ns i) bundle))
bought ns i bundle h b =
    let v = AllCounts-stock ns i h in
    AllCounts-set ns i _ (omega (int_laws, quantity_bounds (stock ns i) bundle v b)) h

sold :
    (ns : List ℤ) (i : ℕ) (bundle : ℤ)
    → AllCounts ns
    → pos 0 ≤ℤ bundle
    → AllCounts (set ns i (stock ns i -ℤ sale_count (stock ns i) bundle))
sold ns i bundle h b =
    let v = AllCounts-stock ns i h in
    AllCounts-set ns i _ (omega (int_laws, sale_count_bounds (stock ns i) bundle v b)) h

-- What a sale pays.
abbrev pub income : List ℤ → ℕ → ℤ → ℤ → ℤ
income ns i price bundle = sale_price price bundle (sale_count (stock ns i) bundle)

income_nonneg :
    (ns : List ℤ) (i : ℕ) (price bundle : ℤ)
    → AllCounts ns
    → IsPriced price bundle
    → pos 0 ≤ℤ income ns i price bundle
income_nonneg ns i price bundle h v =
    (sale_price_bounds price bundle _ v
      (sale_count_bounds (stock ns i) bundle (AllCounts-stock ns i h) v.1).0).0

-- Buying a weapon keeps every stock within its limits, and takes no more than a player who is not in
-- debt has. Assumed: the price and the bundle are not below zero, and the stocks are within their
-- limits before.
pub buy_weapon-AllCounts :
    (p : Player) (info : WeaponInfo)
    → IsPriced info.price info.bundle
    → AllCounts info.inventories
    → AllCounts (buy_weapon p info).2.inventories
      × (pos 0 ≤ℤ p.money → pos 0 ≤ℤ (buy_weapon p info).1.money)
unfolding buy_weapon
buy_weapon-AllCounts p info v h = elim (Bool-cases (can_buy_weapon p (some info) infinite)) [
  | inl e ↦ rw e (
    bought info.inventories p.index info.bundle h v.1,
    λ _. omega (int_laws, can_buy_weapon_sound p info infinite e),
  )
  | inr e ↦ rw e (h, λ m. m)
]

bought_accessory :
    (p : Player) (info : AccessoryInfo)
    → IsPriced info.price info.bundle
    → AllCounts info.inventories
    → AllCounts (buy_accessory p info).2.inventories
      × (pos 0 ≤ℤ p.money → pos 0 ≤ℤ (buy_accessory p info).1.money)
unfolding buy_accessory
bought_accessory p info v h = elim (Bool-cases (can_buy_accessory p (some info) infinite)) [
  | inl e ↦ rw e (
    bought info.inventories p.index info.bundle h v.1,
    λ _. omega (int_laws, can_buy_accessory_sound p info infinite e),
  )
  | inr e ↦ rw e (h, λ m. m)
]

-- Selling a weapon keeps every stock within its limits, and never takes money. Assumed: the price
-- and the bundle are not below zero, and the stocks are within their limits before.
pub sell_weapon-AllCounts :
    (p : Player) (info : WeaponInfo)
    → IsPriced info.price info.bundle
    → AllCounts info.inventories
    → AllCounts (sell_weapon p info).2.inventories × (p.money ≤ℤ (sell_weapon p info).1.money)
unfolding sell_weapon
sell_weapon-AllCounts p info v h = elim (Bool-cases (can_sell_weapon p (some info))) [
  | inl e ↦ rw e (
    sold info.inventories p.index info.bundle h v.1,
    omega (int_laws, income_nonneg info.inventories p.index info.price info.bundle h v),
  )
  | inr e ↦ rw e (h, omega arith)
]

sold_accessory :
    (p : Player) (info : AccessoryInfo)
    → IsPriced info.price info.bundle
    → AllCounts info.inventories
    → AllCounts (sell_accessory p info).2.inventories × (p.money ≤ℤ (sell_accessory p info).1.money)
unfolding sell_accessory
sold_accessory p info v h = elim (Bool-cases (can_sell_accessory p (some info))) [
  | inl e ↦ rw e (
    sold info.inventories p.index info.bundle h v.1,
    omega (int_laws, income_nonneg info.inventories p.index info.price info.bundle h v),
  )
  | inr e ↦ rw e (h, omega arith)
]

-- Buying an accessory keeps every stock within its limits, and takes no more than a player who is
-- not in debt has; selling one keeps every stock within its limits, and never takes money. Assumed:
-- the price and the bundle are as `IsPriced` says, and the stocks are within their limits before.
pub accessory-AllCounts :
    (p : Player) (info : AccessoryInfo)
    → IsPriced info.price info.bundle
    → AllCounts info.inventories
    → (AllCounts (buy_accessory p info).2.inventories
        × (pos 0 ≤ℤ p.money → pos 0 ≤ℤ (buy_accessory p info).1.money))
      × (AllCounts (sell_accessory p info).2.inventories
          × (p.money ≤ℤ (sell_accessory p info).1.money))
accessory-AllCounts p info v h = (bought_accessory p info v h, sold_accessory p info v h)
