-- ===== src/Inventory/Offers.antt =====
-- What sgame/sinventory.c lets a player buy: the most items of a bundle that fit into the stock.
use xscorch.Prelude.{true, false, some, ◌≡◌, ◌↔◌, sym, arith, set, inl, inr, Bool-cases}
use xscorch.Prelude.Int.{ℤ, pos, ◌+ℤ◌, ◌-ℤ◌, ◌≤ℤ◌, ◌<ℤ◌, leb_ℤ, int_laws, +ℤ_parts, -ℤ_parts}
use xscorch.Items.{WeaponInfo}
use xscorch.Player.{Player}
use xscorch.Inventory.{
  max_items, infinite, stock, quantity, purchase_price, can_buy_weapon, buy_weapon,
}
use xscorch.Inventory.Limits.{AllCounts, IsPriced}
use xscorch.Inventory.Trade.{can_buy_weapon_iff, buy_weapon_done}

-- The most items of a bundle that fit, if any do.
pub record IsOffer (held bundle n : ℤ) : Type 0 where
  pub some_items : pos 0 <ℤ n
  pub of_bundle : n ≤ℤ bundle
  pub fits : held +ℤ n ≤ℤ max_items
  pub most : (m : ℤ) → m ≤ℤ bundle → held +ℤ m ≤ℤ max_items → m ≤ℤ n

quantity-IsOffer :
    (held bundle : ℤ)
    → held <ℤ max_items
    → pos 0 <ℤ bundle
    → IsOffer held bundle (quantity held bundle)
unfolding quantity
quantity-IsOffer held bundle h b =
    let p = +ℤ_parts held bundle in
    let q = -ℤ_parts max_items held in
    let r = +ℤ_parts held (max_items -ℤ held) in
    elim (Bool-cases (leb_ℤ (held +ℤ bundle) max_items)) [
      | inl e ↦ rw e (record {
        some_items = b;
        of_bundle = omega arith;
        fits = ground arith;
        most = λ m k l. k;
      })
      | inr e ↦ rw e (record {
        some_items = omega int_laws;
        of_bundle = ground arith;
        fits = omega int_laws;
        most = λ m k l. omega int_laws;
      })
    ]

-- Two numbers that are the most are the same.
offer_unique : (held bundle n m : ℤ) → IsOffer held bundle n → IsOffer held bundle m → n ≡ m
offer_unique held bundle n m h k =
    let a = k.most n h.of_bundle h.fits in let b = h.most m k.of_bundle k.fits in omega int_laws

offer_room : (held bundle n : ℤ) → IsOffer held bundle n → (held <ℤ max_items) × (pos 0 <ℤ bundle)
offer_room held bundle n o =
    let a = o.some_items in
    let b = o.of_bundle in let c = o.fits in (omega int_laws, omega int_laws)

buy_weapon_refused :
    (p : Player) (info : WeaponInfo)
    → can_buy_weapon p (some info) infinite ≡ false
    → buy_weapon p info ≡ (false, p, info)
unfolding buy_weapon
buy_weapon_refused p info e = rw e

-- That many items are on offer, and the player can pay for them.
abbrev pub IsAffordable : Player → WeaponInfo → ℤ → Type 0
IsAffordable p info n =
    IsOffer (stock info.inventories p.index) info.bundle n
    × (purchase_price info.price info.bundle n ≤ℤ p.money)

-- A weapon can be bought exactly when the most items of a bundle that fit into the stock are at least
-- one, and their cost is within the player's money and within the budget, if one is set (it is not
-- negative). A purchase goes through exactly when that is so without a budget; it then takes that
-- cost and adds that many items, and otherwise it changes nothing. Assumed: the price and the bundle
-- are not below zero, and the stocks are within their limits before.
pub buy_weapon_lem :
    (p : Player) (info : WeaponInfo) (budget : ℤ)
    → IsPriced info.price info.bundle
    → AllCounts info.inventories
    → let held = stock info.inventories p.index in
      ((can_buy_weapon p (some info) budget ≡ true) ↔ (
        (n : ℤ) × IsAffordable p info n
        × (pos 0 ≤ℤ budget → purchase_price info.price info.bundle n ≤ℤ budget)))
      × ((n : ℤ)
          → IsAffordable p info n
          → buy_weapon p info ≡ (
            true,
            record p { money = p.money -ℤ purchase_price info.price info.bundle n },
            record info { inventories = set info.inventories p.index (held +ℤ n) },
          ))
      × (((n : ℤ) → ¬ IsAffordable p info n) → buy_weapon p info ≡ (false, p, info))
buy_weapon_lem p info budget v h =
    let held : ℤ = stock info.inventories p.index in
    let count : ℤ = quantity held info.bundle in
    let can = can_buy_weapon_iff p info budget v h in
    let can' = can_buy_weapon_iff p info infinite v h in
    let counted : (n : ℤ) → IsOffer held info.bundle n → n ≡ count = λ n o.
      offer_unique held info.bundle n count o (
        quantity-IsOffer held info.bundle (offer_room held info.bundle n o).0
          (offer_room held info.bundle n o).1) in
    (
      (
        λ e.
            let (room, filled, paid, planned) = can.0 e in
            (count, (quantity-IsOffer held info.bundle room filled, paid), planned),
        λ (n, (o, paid), planned).
            let (room, filled) = offer_room held info.bundle n o in
            let same = counted n o in
            can.1 (room, filled, rw (sym same) paid, λ b. rw (sym same) (planned b)),
      ),
      (λ n (o, paid).
          let (room, filled) = offer_room held info.bundle n o in
          let same = counted n o in
          let yes = can'.1 (room, filled, rw (sym same) paid, λ b. absurd (omega arith)) in
          rw same (buy_weapon_done p info yes)),
      (λ never. elim (Bool-cases (can_buy_weapon p (some info) infinite)) [
        | inl e ↦
            let (room, filled, paid, planned) = can'.0 e in
            absurd (never count (quantity-IsOffer held info.bundle room filled, paid))
        | inr e ↦ buy_weapon_refused p info e
      ]),
    )
