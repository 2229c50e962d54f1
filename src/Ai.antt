-- ===== src/Ai.antt =====
-- Computer players: what they buy, sai/saibuy.c. Goods are registered by their addresses, numbers,
-- and the store says what stands at an address: a purchase writes there. What it writes is not read
-- by the loops over the goods. The statistics of weapons and the share of the money that may be
-- spent are computed on doubles, and are parameters (`Judgement`); so are the scores, of any type.
-- None stands for reading a good that is NULL, and for fuel that runs out.
pub mod Buy
mod Shopping
pub mod Purchases
pub mod Orderings
mod Ranking
mod Loops
mod Found
mod Solvent
mod Ranked
mod Buyers
mod Tests
use xscorch.Prelude.{
  ℕ, zero, suc, List, [], ◌∷◌, ◌++◌, Bool, true, false, not, ◌&&◌, ◌||◌, Option, none, some, ◌==◌,
  if◌then◌else◌, get_elem?, set,
}
use mathlib.Core.List.{reverse}
use xscorch.Prelude.Int.{ℤ, pos, ◌+ℤ◌, ◌-ℤ◌, ◌/ℤ◌, ltb_ℤ}
use xscorch.Items.{WeaponInfo, AccessoryInfo, has_bit, accessory_is_shield}
use xscorch.Player.{Player}
use xscorch.Inventory.{stock, can_buy_weapon, buy_weapon, can_buy_accessory, buy_accessory}
use xscorch.Goods.{
  Goods, GoodsConfig, weapon_goods, accessory_goods, limit_all, count, first, lookup,
}
use xscorch.Goods.Folds.{fold_goods, find_good}

-- SC_ACCESSORY_LIMIT_ALL | SC_ACCESSORY_SCAN_FORWARD, and with SCAN_REVERSE; the same for weapons
abbrev pub all_forward : ℕ
all_forward = 0x01ff

abbrev pub all_reverse : ℕ
all_reverse = 0x02ff

-- SC_AI_BUY_MAX_OF_WEAPON, SC_AI_INVENTORY_HIGH and SC_AI_MAX_BATTERIES
abbrev pub buy_max_of_weapon : ℕ
buy_max_of_weapon = 3

abbrev pub inventory_high : ℤ
inventory_high = pos 2

abbrev pub max_batteries : ℤ
max_batteries = pos 30

abbrev pub accessory_is_auto_def : AccessoryInfo → Bool
accessory_is_auto_def info = has_bit info.state 0x040000

abbrev pub accessory_is_trigger : AccessoryInfo → Bool
accessory_is_trigger info = has_bit info.state 0x080000

abbrev pub accessory_is_battery : AccessoryInfo → Bool
accessory_is_battery info = has_bit info.state 0x200000

-- `sc_ai_type`
pub data RealAiType : Type 0 where
  human network moron shooter spreader chooser calculater annihilater insanity random : RealAiType

-- What a purchase reads and writes: the player, the goods at their addresses, and `*budget`.
pub record Shop : Type 0 where
  pub p : Player
  pub weapons : ℕ → WeaponInfo
  pub accessories : ℕ → AccessoryInfo
  pub budget : ℤ

abbrev pub put {ℓ} : {A : Type ℓ} → ℕ → A → (ℕ → A) → ℕ → A
put address value store a = if a == address then value else store a

unfoldable pub purchase_weapon : Shop → ℕ → Shop
unfolding buy_weapon
purchase_weapon s a =
    let (bought, p', info') = buy_weapon s.p (s.weapons a) in
    record s { p = p'; weapons = put a info' s.weapons; budget = s.budget -ℤ (s.weapons a).price }

unfoldable pub purchase_accessory : Shop → ℕ → Shop
unfolding buy_accessory
purchase_accessory s a =
    let (bought, p', info') = buy_accessory s.p (s.accessories a) in
    record s {
      p = p';
      accessories = put a info' s.accessories;
      budget = s.budget -ℤ (s.accessories a).price;
    }

-- The configuration that the buyers read, and whether there is memory for the arrays of a sort.
pub record Market : Type 0 where
  pub weapon_config : GoodsConfig ℕ
  pub accessory_config : GoodsConfig ℕ
  pub synchronous : Bool
  pub tunneling : Bool
  pub memory : Bool

-- The statistics and the budgets. `Score` is the type of the statistics.
pub record Judgement (Score : Type 0) : Type 0 where
  -- Whether a weapon's yield is above 0, and whether it is not 0.
  pub deadly : Player → WeaponInfo → Bool
  pub yields : Player → WeaponInfo → Bool
  pub yield : Player → WeaponInfo → Score
  pub econ_yield : Player → WeaponInfo → Score
  pub precision_yield : Player → WeaponInfo → Score
  -- `>`, and the exchange of two scores by sums and differences.
  pub above : Score → Score → Bool
  pub exchanged : Score → Score → Score × Score
  -- `_sc_ai_budget`, and 0.85 of the money.
  pub budget : Shop → ℤ
  pub most_of : ℤ → ℤ

-- A round of the inner loop of a sort, over the two arrays as one list of pairs; the exchange of
-- two numbers by sums and differences is exact.
module _ {Score : Type 0} (above : Score → Score → Bool)
    (exchanged : Score → Score → Score × Score) where
  unfoldable pub compare_scores : ℕ → ℕ → List (ℤ × Score) → List (ℤ × Score)
  compare_scores outer inner xs = elim (get_elem? xs inner) [
    | none ↦ xs
    | some (a, x) ↦ elim (get_elem? xs outer) [
      | none ↦ xs
      | some (b, y) ↦
          let (x', y') = exchanged x y in
          if above x y then set (set xs inner (b, x')) outer (a, y') else xs
    ]
  ]

  unfoldable pub sort_inner : ℕ → ℕ → ℕ → List (ℤ × Score) → List (ℤ × Score)
  unfolding compare_scores
  sort_inner zero outer inner xs = xs
  sort_inner (suc rounds) outer inner xs =
      sort_inner rounds outer (suc inner) (compare_scores outer inner xs)

  unfoldable pub sort_outer : ℕ → ℕ → List (ℤ × Score) → List (ℤ × Score)
  unfolding sort_inner
  sort_outer zero outer xs = xs
  sort_outer (suc rounds) outer xs = sort_outer rounds (suc outer) (sort_inner outer outer 0 xs)
