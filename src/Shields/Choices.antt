-- ===== src/Shields/Choices.antt =====
-- The shield that `sc_shield_find_best` of sgame/sshield.c finds is in stock, and none is stronger.
use xscorch.Prelude.{ℕ, List, [], ◌∷◌, Option, none, some, ◌≡◌, get_elem?, filter}
use xscorch.Prelude.Int.{ℤ, ◌≤ℤ◌}
use xscorch.Items.{AccessoryInfo}
use xscorch.HashList.{Item}
use xscorch.Shields.Best.{owned}

abbrev pub IsAtMost : ℤ → List (Item ℤ AccessoryInfo) → Type 0
IsAtMost limit [] = Unit
IsAtMost limit (x ∷ items) = (x.value.shield ≤ℤ limit) × IsAtMost limit items

abbrev pub IsAmong : AccessoryInfo → List (Item ℤ AccessoryInfo) → Type 0
IsAmong info items =
    (i : ℕ) × (x : Item ℤ AccessoryInfo) × (get_elem? items i ≡ some x) × (x.value ≡ info)

module _ (index : ℕ) where
  -- The shields in stock.
  abbrev pub stock : List (Item ℤ AccessoryInfo) → List (Item ℤ AccessoryInfo)
  stock items = filter (λ item. owned index item.value) items

  abbrev pub IsBest : Option AccessoryInfo → List (Item ℤ AccessoryInfo) → Type 0
  IsBest none items = stock items ≡ []
  IsBest (some best) items = IsAmong best (stock items) × IsAtMost best.shield (stock items)
