-- ===== src/Registry/Tests.antt =====
-- The registry of sgame/sregistry.c at work: two data are entered, and one is deleted.
use mathlib.Core.Path.{◌≡◌, refl}
use xscorch.Prelude.{suc, ℕ, List, [], ◌∷◌, none, some, Bool, true, ◌==◌, arith}
use xscorch.Prelude.Int.{ℤ, pos}
use xscorch.HashList.{
  HashList, insert_from, insert_order, insert, first_with_key, drop_key, unlink, remove,
}
use xscorch.HashList.Keyed
use xscorch.Registry.{
  registry_new, registry_forward, add_by_int, del_by_int, find_by_int, get_next_new_key,
}
use xscorch.Registry.Find.{internal_iter}
use xscorch.Registry.Walks.{pass_over, internal_iter_lem}
use xscorch.Registry.Requests.{
  Request, register, delete, look_up, registered, data_answer, answers, serve, serve_contents,
  no_contents, empty_registry,
}
use xscorch.Registry.Refines.{answers-serve}

abbrev one_chain : ℤ → ℕ
one_chain key = 0

abbrev requests : List (Request ℕ)
requests =
    register 11 2 50
    ∷ register 12 3 60
    ∷ look_up (pos 0)
    ∷ delete (pos 0)
    ∷ look_up (pos 0)
    ∷ register 11 2 70
    ∷ look_up (pos 2)
    ∷ []

contents_answers :
    answers serve_contents no_contents requests
    ≡ registered true 0
      ∷ registered true 1
      ∷ data_answer (some 50)
      ∷ data_answer (some 50)
      ∷ data_answer none
      ∷ registered true 2
      ∷ data_answer (some 70)
      ∷ []
unfolding answers serve_contents
contents_answers = refl

answers-serve_example :
    answers (serve one_chain) (empty_registry {D = ℕ} one_chain 1) requests
    ≡ answers serve_contents no_contents requests
unfolding registry_new serve get_next_new_key add_by_int del_by_int find_by_int Keyed.insert_by_int
    Keyed.remove_by_int Keyed.find_by_int insert insert_order insert_from remove first_with_key
    drop_key unlink
answers-serve_example =
    answers-serve one_chain 1 (λ key. omega arith) (empty_registry one_chain 1) refl requests
      (refl, (refl, (refl, tt)))

abbrev listed : HashList ℤ ℕ
listed = record {
  order =
      record { id = 11; class = 2; key = pos 0; value = 5 }
      ∷ record { id = 12; class = 3; key = pos 1; value = 6 }
      ∷ record { id = 13; class = 2; key = pos 2; value = 7 }
      ∷ [];
  hash = [];
}

-- A test that counts the data it is asked about, and holds for the datum 7.
abbrev is_seven : ℕ → ℕ → Bool × ℕ
is_seven value counter = (value == 7, suc counter)

internal_iter_lem_example :
    internal_iter 4 listed none 2 registry_forward (some is_seven) 0
    ≡ some (pass_over 2 (some is_seven) 0 listed.order)
internal_iter_lem_example =
    internal_iter_lem listed 2 registry_forward (some is_seven) (λ id. ground arith) none 0 4
      (omega arith)
