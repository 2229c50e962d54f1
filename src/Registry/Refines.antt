-- ===== src/Registry/Refines.antt =====
-- sgame/sregistry.c as its clients use it (sgame/saddconf.c): data is entered under the next new key,
-- looked up and deleted by key. It implements a map from keys to data.
use mathlib.Core.Option.{some-injective}
use xscorch.Prelude.{
  if◌then◌else◌, ℕ, zero, suc, ◌≤◌, ◌<◌, List, [], ◌∷◌, true, false, Option, none, some, ◌≡◌, refl,
  sym, ◌∙◌, ap, arith, get_or, length,
}
use xscorch.Prelude.Int.{ℤ, pos, negsuc, ltb_ℤ, eqb_ℤ}
use xscorch.HashList.{Item, HashList, insert, remove}
use xscorch.HashList.Keyed
use xscorch.HashList.Keyed.{int_keys}
use xscorch.HashList.Laws.{with_id, IsTable, lookup}
use xscorch.HashList.Removes.{find-lookup, remove_lem}
use xscorch.HashList.Sorted.{insert_absent}
use xscorch.Registry.{
  Registry, registry_new, get_next_new_key, add_by_int, del_by_int, find_by_int, data_of, added,
  deleted,
}
use xscorch.Registry.Requests.{
  Request, register, delete, look_up, registered, data_answer, answers, Contents, serve_contents,
  no_contents, serve, IsFresh, empty_chains, empty_registry,
}

length-empty_chains {ℓ} : (A : Type ℓ) (n : ℕ) → length (empty_chains {A = A} n) ≡ n
length-empty_chains A zero = refl
length-empty_chains A (suc n) = ap suc (length-empty_chains A n)

empty_chain {ℓ} : (A : Type ℓ) (n i : ℕ) → get_or (empty_chains {A = A} n) i [] ≡ []
empty_chain A zero i = refl
empty_chain A (suc n) zero = refl
empty_chain A (suc n) (suc i) = empty_chain A n i

cons_eq {ℓ} : {A : Type ℓ} {x y : A} {xs ys : List A} → x ≡ y → xs ≡ ys → x ∷ xs ≡ y ∷ ys
cons_eq e f = rw (e, f) refl

not_negative : (n : ℕ) → ltb_ℤ (pos n) (pos 0) ≡ false
not_negative n = ground arith

is_negative : (n : ℕ) → ltb_ℤ (negsuc n) (pos 0) ≡ true
is_negative n = ground arith

module _ {κ} {D : Type κ} (place : ℤ → ℕ) where
  record Represents (r : Registry ℤ D) (c : Contents D) : Type κ where
    table : IsTable int_keys place r.hashlist
    next_key : r.nextkey ≡ c.next
    unused : (n : ℕ) → c.next ≤ n → lookup int_keys r.hashlist (pos n) ≡ none
    contents : (n : ℕ) → data_of (lookup int_keys r.hashlist (pos n)) ≡ c.value_at (pos n)
    negative : (n : ℕ) → c.value_at (negsuc n) ≡ none

  find_by_int-lookup :
      (r : Registry ℤ D) (n : ℕ)
      → IsTable int_keys place r.hashlist
      → find_by_int place r (pos n) ≡ data_of (lookup int_keys r.hashlist (pos n))
  unfolding find_by_int Keyed.find_by_int
  find_by_int-lookup r n h =
      rw (not_negative n) (ap data_of (find-lookup int_keys place r.hashlist (pos n) h))

  find_lem :
      (r : Registry ℤ D) (c : Contents D) (key : ℤ)
      → Represents r c
      → find_by_int place r key ≡ c.value_at key
  unfolding find_by_int Keyed.find_by_int
  find_lem r c (pos n) h = find_by_int-lookup r n h.table ∙ h.contents n
  find_lem r c (negsuc n) h = rw (is_negative n) (sym (h.negative n))

  added-some :
      (r : Registry ℤ D) (item : Item ℤ D) (p : Option (Item ℤ D) × HashList ℤ D)
      → p.0 ≡ some item
      → added r p ≡ (true, record r { hashlist = p.1 })
  added-some r item (none, list) e = cc
  added-some r item (some x, list) e = refl

  deleted_lem :
      (r : Registry ℤ D) (p : Option (Item ℤ D) × HashList ℤ D)
      → deleted r p ≡ (data_of p.0, record r { hashlist = p.1 })
  deleted_lem r (none, list) = refl
  deleted_lem r (some x, list) = refl

  module _ (r : Registry ℤ D) (c : Contents D) (h : Represents r c) where
    register_lem :
        (address class : ℕ) (value : D)
        → with_id address r.hashlist.order ≡ []
        → ((serve place r (register address class value)).0
            ≡ (serve_contents c (register address class value)).0)
          × Represents
              (serve place r (register address class value)).1
              (serve_contents c (register address class value)).1
    unfolding serve serve_contents get_next_new_key add_by_int Keyed.insert_by_int
    register_lem address class value fresh =
        let item : Item ℤ D = record {
          id = address;
          class = class;
          key = pos r.nextkey;
          value = value;
        } in
        let absent : lookup int_keys r.hashlist (pos r.nextkey) ≡ none =
          rw h.next_key (h.unused c.next (omega arith)) in
        let (out, table, look) =
          insert_absent int_keys place r.hashlist item h.table fresh absent in
        let done =
          added-some (record r { nextkey = suc r.nextkey }) item
            (insert int_keys place r.hashlist (some item)) out in
        rw (not_negative r.nextkey, done)
          (
            ap (registered true) h.next_key,
            record {
              table = table;
              next_key = ap suc h.next_key;
              unused = λ n l.
                  look (pos n)
                  ∙ (let u = h.unused n (omega arith) in let k = h.next_key in ground arith);
              contents = λ n.
                  ap data_of (look (pos n))
                  ∙ (let q = h.contents n in let k = h.next_key in ground arith);
              negative = λ n. let q = h.negative n in ground arith;
            },
          )

    delete_lem :
        (key : ℤ)
        → ((serve place r (delete key)).0 ≡ (serve_contents c (delete key)).0)
          × Represents (serve place r (delete key)).1 (serve_contents c (delete key)).1
    unfolding serve serve_contents del_by_int Keyed.remove_by_int
    delete_lem (pos n) =
        let gone = deleted_lem r (remove int_keys place r.hashlist (pos n)) in
        let (out, look, table) = remove_lem int_keys place r.hashlist (pos n) h.table in
        let left = (remove int_keys place r.hashlist (pos n)).1 in
        let seen : (m : ℕ)
            → lookup int_keys left (pos m)
              ≡ (if eqb_ℤ (pos n) (pos m) then none else lookup int_keys r.hashlist (pos m)) =
          λ m.
            sym (find-lookup int_keys place left (pos m) table)
            ∙ look (pos m)
            ∙ ap (λ o. if eqb_ℤ (pos n) (pos m) then none else o)
                (find-lookup int_keys place r.hashlist (pos m) h.table) in
        rw (not_negative n, gone)
          (
            ap data_answer (
                ap (λ p. data_of p.0) out
                ∙ ap data_of (find-lookup int_keys place r.hashlist (pos n) h.table)
                ∙ h.contents n),
            record {
              table = table;
              next_key = h.next_key;
              unused = λ m l. seen m ∙ (let u = h.unused m l in ground arith);
              contents = λ m. ap data_of (seen m) ∙ (let q = h.contents m in ground arith);
              negative = λ m. let q = h.negative m in ground arith;
            },
          )
    delete_lem (negsuc n) = rw (is_negative n) (
      ap data_answer (sym (h.negative n)),
      record {
        table = h.table;
        next_key = h.next_key;
        unused = h.unused;
        contents = λ m. let q = h.contents m in ground arith;
        negative = λ m. let q = h.negative m in ground arith;
      },
    )

  answers_lem :
      (requests : List (Request D)) (r : Registry ℤ D) (c : Contents D)
      → Represents r c
      → IsFresh place r requests
      → answers (serve place) r requests ≡ answers serve_contents c requests
  unfolding answers serve serve_contents
  answers_lem [] r c h f = refl
  answers_lem (register address class value ∷ requests) r c h f =
      let (same, h') = register_lem r c h address class value f.0 in
      cons_eq same (answers_lem requests _ _ h' f.1)
  answers_lem (delete key ∷ requests) r c h f =
      let (same, h') = delete_lem r c h key in cons_eq same (answers_lem requests _ _ h' f)
  answers_lem (look_up key ∷ requests) r c h f =
      cons_eq (ap data_answer (find_lem r c key h)) (answers_lem requests r c h f)

  empty_registry-Represents :
      (size : ℕ)
      → ((key : ℤ) → place key < size)
      → Represents (empty_registry place size) no_contents
  empty_registry-Represents size p = record {
    table = record {
      chained = λ key. rw (empty_chain _ size (place key)) refl;
      keyed = λ key. omega arith;
      addressed = λ id. omega arith;
      placed = λ key. rw (length-empty_chains _ size) (p key);
    };
    next_key = refl;
    unused = λ n l. refl;
    contents = λ n. refl;
    negative = λ n. refl;
  }

  -- Whatever is asked of a new registry (data entered under the next new key, deleted and looked up
  -- by any key, in any order), it answers what a plain map from keys to data answers: every entry is
  -- taken and gets a key of its own, a deletion hands out the data and then the key is unknown, and
  -- no key gives what was entered under another. Assumed: the array has room for the place of every
  -- key and starts with empty chains, and a new item never comes at the address of a stored one.
  pub answers-serve :
      (size : ℕ)
      → ((key : ℤ) → place key < size)
      → (registry : Registry ℤ D)
      → registry_new true (some (empty_registry place size).hashlist) ≡ some registry
      → (requests : List (Request D)) → IsFresh place registry requests
      → answers (serve place) registry requests ≡ answers serve_contents no_contents requests
  unfolding registry_new
  answers-serve size p registry e requests f =
      let same : registry ≡ empty_registry place size = sym (some-injective _ _ e) in
      answers_lem requests registry no_contents (rw same (empty_registry-Represents size p)) f
