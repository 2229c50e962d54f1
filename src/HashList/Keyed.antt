-- ===== src/HashList/Keyed.antt =====
-- The functions of sutil/shashlist.c by integer and by string, with their checks of the arguments.
-- `malloc` is the address of the new item, or none; a string is of any type `S`, compared by
-- `strcomp` of libj, of which the laws are assumed, and no longer than SHASHLIST_MAX_KEYSTR_LEN.
use xscorch.Prelude.{ℕ, ◌≡◌, ◌↔◌, true, false, Option, none, some, arith, if◌then◌else◌}
use xscorch.Prelude.Int.{ℤ, pos, ltb_ℤ, leb_ℤ, eqb_ℤ, eq_of_parts}
use xscorch.HashList.{Keys, Item, HashList, insert, find, remove}

pub int_same_iff : (a b : ℤ) → (eqb_ℤ a b ≡ true) ↔ (a ≡ b)
int_same_iff a b = ((λ h. eq_of_parts a b (ground arith)), λ e. ground arith)

pub int_le_same : (a b : ℤ) → leb_ℤ a b ≡ true → leb_ℤ b a ≡ true → a ≡ b
int_le_same a b h k = eq_of_parts a b (ground arith)

pub int_le_trans : (a b c : ℤ) → leb_ℤ a b ≡ true → leb_ℤ b c ≡ true → leb_ℤ a c ≡ true
int_le_trans a b c h k = ground arith

pub int_le_total : (a b : ℤ) → leb_ℤ a b ≡ false → leb_ℤ b a ≡ true
int_le_total a b h = ground arith

abbrev pub int_keys : Keys ℤ
int_keys = record {
  le = leb_ℤ;
  same = eqb_ℤ;
  same_iff = int_same_iff;
  le_same = int_le_same;
  le_trans = int_le_trans;
  le_total = int_le_total;
}

abbrev new_item {ℓ κ} : {K : Type ℓ} {D : Type κ} → Option ℕ → D → ℕ → K → Option (Item K D)
new_item none value class key = none
new_item (some id) value class key =
    some (record { id = id; class = class; key = key; value = value })

module _ {κ} {D : Type κ} (place : ℤ → ℕ) where
  unfoldable pub insert_by_int :
      HashList ℤ D → Option ℕ → Option D → ℕ → ℤ → Option (Item ℤ D) × HashList ℤ D
  insert_by_int list malloc none class key = (none, list)
  insert_by_int list malloc (some value) class key =
      if ltb_ℤ key (pos 0)
      then (none, list)
      else insert int_keys place list (new_item malloc value class key)

  unfoldable pub remove_by_int : HashList ℤ D → ℤ → Option (Item ℤ D) × HashList ℤ D
  remove_by_int list key =
      if ltb_ℤ key (pos 0) then (none, list) else remove int_keys place list key

  unfoldable pub find_by_int : HashList ℤ D → ℤ → Option (Item ℤ D)
  find_by_int list key = if ltb_ℤ key (pos 0) then none else find int_keys place list key

module _ {ℓ κ} {S : Type ℓ} {D : Type κ} (strcomp : Keys S) (place : S → ℕ) where
  unfoldable pub insert_by_string :
      HashList S D → Option ℕ → Option D → ℕ → Option S → Option (Item S D) × HashList S D
  insert_by_string list malloc (some value) class (some key) =
      insert strcomp place list (new_item malloc value class key)
  insert_by_string list malloc _ class _ = (none, list)

  unfoldable pub remove_by_string : HashList S D → Option S → Option (Item S D) × HashList S D
  remove_by_string list none = (none, list)
  remove_by_string list (some key) = remove strcomp place list key

  unfoldable pub find_by_string : HashList S D → Option S → Option (Item S D)
  find_by_string list none = none
  find_by_string list (some key) = find strcomp place list key
