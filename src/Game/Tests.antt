-- ===== src/Game/Tests.antt =====
-- Instances of the properties of sgame/sgame.c's timers, queues and players.
use xscorch.Prelude.{if◌then◌else◌, Bool, Option, ◌==◌, arith}
use xscorch.Prelude.{ℕ, [], ◌∷◌, ◌++◌, ◌+◌, ◌*◌, ◌<◌, ◌≡◌, true, false, refl, get_elem?, some, none}
use xscorch.Prelude.Int.{pos, negsuc}
use xscorch.Player.{Player, TankProfile, human}
use xscorch.Game.Clock.{Timeval, postpone_timeout}
use xscorch.Game.Timer.{micros, postpone_timeout_lem}
use xscorch.Game.Queue.{
  Chain, Expl, queue_item_move, queue_item_move_prepend, queue_do_runnable, queue_run_first,
}
use xscorch.Game.Queue.Laws.{queue_item_move_lem}
use xscorch.Game.Queue.Links.{Memory, walk_runnable, walk_first}
use xscorch.Game.Queue.Visits.{due, act_on_all, act_on_first, IsAbsent, IsLinked, walks_lem}
use xscorch.Game.Players.{set_victor}
use xscorch.Game.Players.Victor.{rewarded, set_victor_lem}

abbrev late : Timeval
late = record { tv_sec = 10; tv_usec = 999000 }

postpone_timeout_lem_example :
    (micros (postpone_timeout late 1050) ≡ micros late + 1050 * 1000)
    × ((postpone_timeout late 1050).tv_usec < 1000000)
postpone_timeout_lem_example = postpone_timeout_lem late 1050

abbrev shot : ℕ → ℕ → Expl
shot id counter = record {
  id = id;
  counter = counter;
  centerx = pos 0;
  radius = pos 20;
  playerid = 0;
}

queue_item_move_lem_example :
    (queue_item_move (shot 4 0 ∷ []) ((shot 1 0 ∷ []) ++ (shot 2 5 ∷ shot 3 0 ∷ [])) 2
      ≡ ((shot 4 0 ∷ []) ++ (shot 2 5 ∷ []), (shot 1 0 ∷ []) ++ (shot 3 0 ∷ [])))
    × (queue_item_move_prepend (shot 4 0 ∷ []) ((shot 1 0 ∷ []) ++ (shot 2 5 ∷ shot 3 0 ∷ [])) 2
        ≡ (shot 2 5 ∷ shot 4 0 ∷ [], (shot 1 0 ∷ []) ++ (shot 3 0 ∷ [])))
queue_item_move_lem_example =
    queue_item_move_lem (shot 4 0 ∷ []) (shot 1 0 ∷ []) (shot 3 0 ∷ []) (shot 2 5) refl

-- A memory with the `chain` fields, the explosions, and the head of another queue.
record Heap : Type 0 where
  chains : ℕ → Option ℕ
  expls : ℕ → Expl
  other : Option ℕ

abbrev memory : Memory Heap
memory = record { expl_at = λ h a. some (h.expls a); chain = λ h a. h.chains a }

-- An action that puts off its explosion and moves it to the head of the other queue.
abbrev move_away : Heap → Expl → Bool × Heap
move_away h e = (
  true,
  record {
    chains = λ a. if a == e.id then h.other else h.chains a;
    expls = λ a. if a == e.id then record e { counter = 20 } else h.expls a;
    other = some e.id;
  },
)

move_away-IsLinked :
    (h : Heap) (e : Expl) (q : Chain)
    → IsAbsent e.id q
    → IsLinked move_away memory h q
    → IsLinked move_away memory (move_away h e).1 q
move_away-IsLinked h e [] absent linked = tt
move_away-IsLinked h e (x ∷ q) absent linked =
    let away : x.id == e.id ≡ false = ground (arith, absent.0) in
    (rw away linked.0, rw away linked.1, linked.2, move_away-IsLinked h e q absent.1 linked.3)

abbrev three_shots : Chain
three_shots = shot 1 0 ∷ shot 2 9 ∷ shot 3 0 ∷ []

abbrev heap : Heap
heap = record {
  chains = λ a. if a == 1 then some 2 else (if a == 2 then some 3 else none);
  expls = λ a. shot a (if a == 2 then 9 else 0);
  other = none;
}

walks_lem_example :
    (walk_runnable memory move_away 3 false (some 1) heap
      ≡ some (act_on_all move_away false (due three_shots) heap))
    × (walk_first memory move_away 3 (some 1) heap
        ≡ some (act_on_first move_away (due three_shots) heap))
    × (queue_do_runnable move_away three_shots heap
        ≡ act_on_all move_away false (due three_shots) heap)
    × (queue_run_first move_away three_shots heap ≡ act_on_first move_away (due three_shots) heap)
walks_lem_example =
    walks_lem move_away memory (λ h e q linked. move_away-IsLinked h e q linked.2 linked.3)
      three_shots heap 3
      (
        refl,
        refl,
        (ground arith, (ground arith, tt)),
        (refl, refl, (ground arith, tt), (refl, refl, tt, tt)),
      )
      (omega arith)

abbrev tank : TankProfile
tank = record {
  radius = pos 5;
  shelfsize = pos 3;
  efficiency = pos 100;
  hardness = pos 100;
  mobile = true;
}

abbrev survivor : Player
survivor = record {
  index = 0;
  tank = tank;
  aitype = human;
  turret = pos 0;
  power = pos 0;
  life = pos 400;
  dead = false;
  numwins = pos 2;
  kills = pos 0;
  suicides = pos 0;
  killedby = negsuc 0;
  money = pos 100;
  armed = false;
  contacttriggers = false;
  ac_state = 0;
  shield = none;
}

abbrev casualty : Player
casualty = record survivor { index = 1; dead = true }

set_victor_lem_example :
    get_elem? (set_victor (pos 5000) 2 (casualty ∷ survivor ∷ [])) 1
    ≡ rewarded (pos 5000) (some survivor)
set_victor_lem_example = set_victor_lem (pos 5000) 2 1 (casualty ∷ survivor ∷ [])
