-- ===== src/Game/Players/Victor.antt =====
-- Who is left: `sc_game_victor`, `sc_game_set_victor` and `sc_game_mass_kill` of sgame/sgame.c.
use xscorch.Prelude.{
  ℕ, zero, suc, ◌+◌, ◌<◌, List, [], ◌∷◌, Bool, ◌==◌, ◌&&◌, true, false, Option, none, some, ◌≡◌,
  refl, ap, arith, Option-cases, Bool-cases, inl, inr, get_elem?, set, if◌then◌else◌, leb, ltb,
}
use xscorch.Prelude.Int.{ℤ}
use xscorch.Player.{Player, is_alive}
use xscorch.Game.Players.{
  inc_wins, reward_slot, set_victor, kill_slot, kill_all, count_alive, victor,
}

get_elem?-set :
    (ps : List Player) (i j : ℕ) (p q : Player)
    → get_elem? ps i ≡ some q
    → get_elem? (set ps i p) j ≡ (if j == i then some p else get_elem? ps j)
get_elem?-set [] i j p q h = cc
get_elem?-set (x ∷ ps) zero zero p q h = refl
get_elem?-set (x ∷ ps) zero (suc j) p q h = ground arith
get_elem?-set (x ∷ ps) (suc i) zero p q h = ground arith
get_elem?-set (x ∷ ps) (suc i) (suc j) p q h = ground (arith, get_elem?-set ps i j p q h)

same_slot : (ps : List Player) (i j : ℕ) → j == i ≡ true → get_elem? ps j ≡ get_elem? ps i
same_slot ps i j h = ap (get_elem? ps) (ground arith)

-- What a slot holds once the living have been rewarded.
abbrev pub rewarded : ℤ → Option Player → Option Player
rewarded bonus none = none
rewarded bonus (some p) = some (if is_alive p then inc_wins bonus p else p)

reward_slot_lem :
    (bonus : ℤ) (i j : ℕ) (ps : List Player)
    → get_elem? (reward_slot bonus i ps) j
      ≡ (if j == i then rewarded bonus (get_elem? ps j) else get_elem? ps j)
unfolding reward_slot
reward_slot_lem bonus i j ps =
    let slot = same_slot ps i j in
    elim (Option-cases (get_elem? ps i)) [
      | inl e ↦ rw (e, reward_slot) (ground (arith, e, slot))
      | inr (p, e) ↦ elim (Bool-cases (is_alive p)) [
        | inl a ↦
            rw (e, a, reward_slot)
              (ground (arith, e, a, slot, get_elem?-set ps i j (inc_wins bonus p) p e))
        | inr a ↦ rw (e, a, reward_slot) (ground (arith, e, a, slot))
      ]
    ]

-- At the end of a round each player among the first n who is alive gets one win and the survival
-- bonus, once; the dead, and the slots from n on, stay as they were.
pub set_victor_lem :
    (bonus : ℤ) (n j : ℕ) (ps : List Player)
    → get_elem? (set_victor bonus n ps) j
      ≡ (if ltb j n then rewarded bonus (get_elem? ps j) else get_elem? ps j)
unfolding set_victor
set_victor_lem bonus zero j ps = ground arith
set_victor_lem bonus (suc i) j ps =
    ground (arith, set_victor_lem bonus i j (reward_slot bonus i ps), reward_slot_lem bonus i j ps)

-- What a slot holds once it has been killed.
abbrev pub killed : Option Player → Option Player
killed none = none
killed (some p) = some (record p { dead = true })

kill_slot_lem :
    (i j : ℕ) (ps : List Player)
    → get_elem? (kill_slot i ps) j ≡ (if j == i then killed (get_elem? ps j) else get_elem? ps j)
unfolding kill_slot
kill_slot_lem i j ps =
    let slot = same_slot ps i j in
    elim (Option-cases (get_elem? ps i)) [
      | inl e ↦ rw (e, kill_slot) (ground (arith, e, slot))
      | inr (p, e) ↦
          rw (e, kill_slot)
            (ground (arith, e, slot, get_elem?-set ps i j (record p { dead = true }) p e))
    ]

-- Killing everyone marks the slots from `i` on, as many as there are rounds, and only those, dead,
-- and changes nothing else of a player.
kill_all_lem :
    (rounds i j : ℕ) (ps : List Player)
    → get_elem? (kill_all rounds i ps) j
      ≡ (if leb i j && ltb j (i + rounds) then killed (get_elem? ps j) else get_elem? ps j)
unfolding kill_all
kill_all_lem zero i j ps = ground arith
kill_all_lem (suc rounds) i j ps =
    ground (arith, kill_all_lem rounds (i + 1) j (kill_slot i ps), kill_slot_lem i j ps)

abbrev lives : Option Player → Bool
lives none = false
lives (some p) = is_alive p

count_alive_none :
    (n : ℕ) (ps : List Player)
    → ((j : ℕ) → j < n → lives (get_elem? ps j) ≡ false)
    → count_alive n ps ≡ 0
unfolding count_alive
count_alive_none zero ps h = refl
count_alive_none (suc i) ps h =
    let rest = count_alive_none i ps (λ j k. h j (omega arith)) in
    let dead = h i (omega arith) in
    elim (Option-cases (get_elem? ps i)) [
      | inl e ↦ rw (e, count_alive) rest
      | inr (p, e) ↦ let d : is_alive p ≡ false = rw e at dead in rw (e, d, count_alive) rest
    ]

lives-killed : (o : Option Player) → lives (killed o) ≡ false
lives-killed none = refl
lives-killed (some p) = refl

-- With the first n slots killed no more than one of the players there is left.
pub kill_all-victor :
    (n : ℕ) (ps : List Player)
    → (victor n (kill_all n 0 ps) ≡ true)
      × ((j : ℕ)
          → get_elem? (kill_all n 0 ps) j
            ≡ (if ltb j n then killed (get_elem? ps j) else get_elem? ps j))
unfolding victor
kill_all-victor n ps =
    let marked : (j : ℕ)
        → get_elem? (kill_all n 0 ps) j
          ≡ (if ltb j n then killed (get_elem? ps j) else get_elem? ps j) =
      λ j. ground (arith, kill_all_lem n 0 j ps) in
    let none_left = count_alive_none n (kill_all n 0 ps) λ j h.
      let e : get_elem? (kill_all n 0 ps) j ≡ killed (get_elem? ps j) = ground (arith, marked j) in
      rw e (lives-killed (get_elem? ps j)) in
    (rw none_left refl, marked)
