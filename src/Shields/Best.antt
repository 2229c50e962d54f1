-- ===== src/Shields/Best.antt =====
-- The best shield of a player's inventory: `sc_shield_find_best` of sgame/sshield.c. `fuel` bounds
-- the walks over the registry, and `malloc` says whether there is memory.
use xscorch.Prelude.{ℕ, Bool, true, false, Option, none, some, ◌&&◌, if◌then◌else◌, get_or}
use xscorch.Prelude.Int.{ℤ, pos, ltb_ℤ, eqb_ℤ}
use xscorch.Items.{AccessoryInfo, accessory_is_shield, has_bit}
use xscorch.Goods.{limit_all, itself, GoodsConfig, accessory_goods, count, first}
use xscorch.Goods.Folds.{fold_goods}

-- SC_ACCESSORY_LIMIT_ALL | SC_ACCESSORY_SCAN_REVERSE
abbrev pub limit_all_reverse : ℕ
limit_all_reverse = 0x02ff

abbrev pub shield_is_standard : AccessoryInfo → Bool
shield_is_standard info = has_bit info.state 0x000100

abbrev pub shield_is_magnetic : AccessoryInfo → Bool
shield_is_magnetic info = has_bit info.state 0x000200

abbrev pub shield_is_force : AccessoryInfo → Bool
shield_is_force info = has_bit info.state 0x000400

-- A shield that the player of an index has in stock.
unfoldable pub owned : ℕ → AccessoryInfo → Bool
owned index info = accessory_is_shield info && ltb_ℤ (pos 0) (get_or info.inventories index (pos 0))

-- Whether a shield takes the place of the best so far.
unfoldable pub is_better : AccessoryInfo → AccessoryInfo → Bool
is_better info best =
    if ltb_ℤ best.shield info.shield
    then true
    else if eqb_ℤ info.shield best.shield
    then (if shield_is_force info
        then true
        else if shield_is_standard info && shield_is_magnetic best
        then true
        else if shield_is_magnetic info && shield_is_magnetic best
        then ltb_ℤ best.repulsion info.repulsion
        else false)
    else false

-- A round of the loop.
unfoldable pub choose : ℕ → Option AccessoryInfo → AccessoryInfo → Option AccessoryInfo
unfolding owned is_better
choose index best info =
    if owned index info
    then elim best [ none ↦ some info | some b ↦ if is_better info b then some info else some b ]
    else best

unfoldable pub find_best :
    (ℤ → ℕ) → GoodsConfig AccessoryInfo → Bool → ℕ → ℕ → Option (Option AccessoryInfo)
unfolding choose count first fold_goods
find_best place config malloc fuel index =
    elim (count (accessory_goods itself) config malloc fuel limit_all) [
      | none ↦ none
      | some rounds ↦
          fold_goods (accessory_goods itself) config place fuel limit_all_reverse (choose index)
            rounds (first (accessory_goods itself) config fuel limit_all_reverse) none
    ]
