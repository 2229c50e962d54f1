-- ===== src/Registry/Requests.antt =====
-- How clients use sgame/sregistry.c (sgame/saddconf.c): data is entered under the next new key,
-- looked up and deleted by key; and the plain map from keys to data that answers the same.
use xscorch.Prelude.{
  ℕ, zero, suc, List, [], ◌∷◌, Bool, true, Option, none, some, ◌≡◌, if◌then◌else◌,
}
use xscorch.Prelude.Int.{ℤ, pos, eqb_ℤ}
use xscorch.HashList.Laws.{with_id}
use xscorch.Registry.{Registry, get_next_new_key, add_by_int, del_by_int, find_by_int}

-- What a client asks: `register` comes with the address of the new item.
pub data Request {κ} (D : Type κ) : Type κ where
  register : (address : ℕ) (class : ℕ) (value : D) → Request D
  delete : (key : ℤ) → Request D
  look_up : (key : ℤ) → Request D

pub data Answer {κ} (D : Type κ) : Type κ where
  registered : Bool → ℕ → Answer D
  data_answer : Option D → Answer D

-- The answers to a list of requests, by what serves them.
unfoldable pub answers {κ ν} :
    {D : Type κ} {S : Type ν}
    → (S → Request D → Answer D × S)
    → S
    → List (Request D)
    → List (Answer D)
answers serve state [] = []
answers serve state (request ∷ requests) =
    (serve state request).0 ∷ answers serve (serve state request).1 requests

-- The abstract registry: a map, and the next key.
pub record Contents {κ} (D : Type κ) : Type κ where
  pub value_at : ℤ → Option D
  pub next : ℕ

unfoldable pub serve_contents {κ} : {D : Type κ} → Contents D → Request D → Answer D × Contents D
serve_contents c (register address class value) = (
  registered true c.next,
  record {
    value_at = λ key. if eqb_ℤ (pos c.next) key then some value else c.value_at key;
    next = suc c.next;
  },
)
serve_contents c (delete key) = (
  data_answer (c.value_at key),
  record c { value_at = λ k. if eqb_ℤ key k then none else c.value_at k },
)
serve_contents c (look_up key) = (data_answer (c.value_at key), c)

abbrev pub no_contents {κ} : {D : Type κ} → Contents D
no_contents = record { value_at = λ key. none; next = 0 }

module _ {κ} {D : Type κ} (place : ℤ → ℕ) where
  unfoldable pub serve : Registry ℤ D → Request D → Answer D × Registry ℤ D
  unfolding get_next_new_key add_by_int del_by_int find_by_int
  serve r (register address class value) =
      let (key, r1) = get_next_new_key r in
      let (ok, r2) = add_by_int place r1 (some address) (some value) class (pos key) in
      (registered ok key, r2)
  serve r (delete key) = let (value, r1) = del_by_int place r key in (data_answer value, r1)
  serve r (look_up key) = (data_answer (find_by_int place r key), r)

  -- Each new item comes at an address where no item of the list stands.
  abbrev pub IsFresh : Registry ℤ D → List (Request D) → Type κ
  IsFresh r [] = Unit
  IsFresh r (register address class value ∷ requests) =
      (with_id address r.hashlist.order ≡ [])
      × IsFresh (serve r (register address class value)).1 requests
  IsFresh r (delete key ∷ requests) = IsFresh (serve r (delete key)).1 requests
  IsFresh r (look_up key ∷ requests) = IsFresh r requests

abbrev pub empty_chains {ℓ} : {A : Type ℓ} → ℕ → List (List A)
empty_chains zero = []
empty_chains (suc n) = [] ∷ empty_chains n

module _ {κ} {D : Type κ} (place : ℤ → ℕ) where
  -- The new registry, of a hash list whose chains are all empty.
  abbrev pub empty_registry : ℕ → Registry ℤ D
  empty_registry size = record {
    hashlist = record { order = []; hash = empty_chains size };
    nextclass = 2;
    nextkey = 0;
  }
