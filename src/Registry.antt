-- ===== src/Registry.antt =====
-- sgame/sregistry.c: the registry of the game's data, a hash list with counters for its classes and
-- keys, and the walks over the items of a class. A test that a walk calls may change what its
-- argument points to: that is the state `S` it is given. A pointer to the registry is never NULL
-- here; the memory that a function asks for is an argument.
pub mod Find
pub mod Walks
pub mod Requests
pub mod Refines
mod Tests
use xscorch.Prelude.{ℕ, zero, suc, Bool, true, false, Option, none, some}
use xscorch.Prelude.Int.{ℤ}
use xscorch.HashList.{Keys, Item, HashList, find_next, find_prev}
use xscorch.HashList.Keyed

-- `sc_registry`, for one kind of keys
pub record Registry {ℓ κ} (K : Type ℓ) (D : Type κ) : Type (ℓ ⊔ κ) where
  pub hashlist : HashList K D
  pub nextclass : ℕ
  pub nextkey : ℕ

-- `sc_registry_direction`
pub data Direction : Type 0 where
  registry_forward registry_reverse : Direction

-- SHASHLIST_FIRST_CLASS
abbrev pub first_class : ℕ
first_class = 2

module _ {ℓ κ} {K : Type ℓ} {D : Type κ} where
  -- The memory for the registry and the new hash list, each of which may fail.
  unfoldable pub registry_new : Bool → Option (HashList K D) → Option (Registry K D)
  registry_new false hashlist = none
  registry_new true none = none
  registry_new true (some hashlist) =
      some (record { hashlist = hashlist; nextclass = first_class; nextkey = 0 })

  unfoldable pub get_new_class_id : Registry K D → ℕ × Registry K D
  get_new_class_id registry =
      (registry.nextclass, record registry { nextclass = suc registry.nextclass })

  unfoldable pub get_next_new_key : Registry K D → ℕ × Registry K D
  get_next_new_key registry = (registry.nextkey, record registry { nextkey = suc registry.nextkey })

  -- What an insertion answers and leaves: whether there is an item, and the new hash list.
  abbrev pub added : Registry K D → Option (Item K D) × HashList K D → Bool × Registry K D
  added registry (none, list) = (false, record registry { hashlist = list })
  added registry (some item, list) = (true, record registry { hashlist = list })

  -- What a removal answers and leaves: the data of the item, which is freed.
  abbrev pub deleted : Registry K D → Option (Item K D) × HashList K D → Option D × Registry K D
  deleted registry (none, list) = (none, record registry { hashlist = list })
  deleted registry (some item, list) = (some item.value, record registry { hashlist = list })

  -- The data of what a search finds.
  abbrev pub data_of : Option (Item K D) → Option D
  data_of none = none
  data_of (some item) = some item.value

module _ {κ} {D : Type κ} (place : ℤ → ℕ) where
  unfoldable pub add_by_int : Registry ℤ D → Option ℕ → Option D → ℕ → ℤ → Bool × Registry ℤ D
  unfolding Keyed.insert_by_int
  add_by_int registry malloc value class key =
      added registry (Keyed.insert_by_int place registry.hashlist malloc value class key)

  unfoldable pub del_by_int : Registry ℤ D → ℤ → Option D × Registry ℤ D
  unfolding Keyed.remove_by_int
  del_by_int registry key = deleted registry (Keyed.remove_by_int place registry.hashlist key)

  unfoldable pub find_by_int : Registry ℤ D → ℤ → Option D
  unfolding Keyed.find_by_int
  find_by_int registry key = data_of (Keyed.find_by_int place registry.hashlist key)

module _ {ℓ κ} {S : Type ℓ} {D : Type κ} (strcomp : Keys S) (place : S → ℕ) where
  unfoldable pub add_by_string :
      Registry S D → Option ℕ → Option D → ℕ → Option S → Bool × Registry S D
  unfolding Keyed.insert_by_string
  add_by_string registry malloc value class key =
      added registry (Keyed.insert_by_string strcomp place registry.hashlist malloc value class key)

  unfoldable pub del_by_string : Registry S D → Option S → Option D × Registry S D
  unfolding Keyed.remove_by_string
  del_by_string registry key =
      deleted registry (Keyed.remove_by_string strcomp place registry.hashlist key)

  unfoldable pub find_by_string : Registry S D → Option S → Option D
  unfolding Keyed.find_by_string
  find_by_string registry key = data_of (Keyed.find_by_string strcomp place registry.hashlist key)

-- One step of a walk, in either direction.
unfoldable pub find_on {ℓ κ} :
    {K : Type ℓ} {D : Type κ} → HashList K D → Option (Item K D) → ℕ → Direction → Option (Item K D)
unfolding find_next find_prev
find_on list item class registry_forward = find_next list item class
find_on list item class registry_reverse = find_prev list item class
