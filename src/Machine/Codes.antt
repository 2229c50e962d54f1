-- ===== src/Machine/Codes.antt =====
-- The states of sgame/sstate.h, as their numbers, and the pause flag that sgame/sgame.c sets.
use Prim.Native.Nat.{bit_and, bit_or, bit_xor}
use xscorch.Prelude.{
  ℕ, List, [], ◌∷◌, Option, none, some, ◌≡◌, refl, ◌⊎◌, inl, inr, ◌==◌, if◌then◌else◌,
}

-- One constructor for each SC_STATE_ name.
pub data State : Type 0 where
  prelude_begin prelude_idle : State
  game_begin game_end game_end_idle game_end_done : State
  inventory_begin inventory_pl_begin inventory_pl_idle inventory_pl_done : State
  round_begin auto_defense auto_defense_loop lottery_display lottery_display_wait : State
  round_end round_end_idle round_end_done : State
  turn_begin turn_pl_begin turn_pl_idle turn_pl_done turn_pl_next turn_end : State
  run_talk run_creation run_weapons run_explosion run_player_drop run_player_death run_end : State

abbrev pub prompt_flag : ℕ
prompt_flag = 0x010000

abbrev pub inventory_flag : ℕ
inventory_flag = 0x020000

abbrev pub options_flag : ℕ
options_flag = 0x040000

abbrev pub pause_flag : ℕ
pause_flag = 0x080000

abbrev pub round_flag : ℕ
round_flag = 0x100000

abbrev pub done_flag : ℕ
done_flag = 0x800000

-- `x & ~y` on the 32 bits of an `int`.
abbrev pub and_not : ℕ → ℕ → ℕ
and_not x y = bit_and x (bit_xor 0xffff_ffff y)

-- The `#define`s.
unfoldable pub code : State → ℕ
code prelude_begin = bit_or 0x00 options_flag
code prelude_idle = bit_or 0x01 options_flag
code game_begin = 0x10
code game_end = 0x1e
code game_end_idle = bit_or 0x1f pause_flag
code game_end_done = and_not (bit_or 0x1f pause_flag) pause_flag
code inventory_begin = 0x20
code inventory_pl_begin = bit_or 0x21 inventory_flag
code inventory_pl_idle = bit_or 0x22 inventory_flag
code inventory_pl_done = bit_or (bit_or 0x22 inventory_flag) done_flag
code round_begin = 0x40
code auto_defense = 0x41
code auto_defense_loop = bit_or 0x41 done_flag
code lottery_display = 0x42
code lottery_display_wait = bit_or 0x42 done_flag
code round_end = 0x4e
code round_end_idle = bit_or 0x4f pause_flag
code round_end_done = and_not (bit_or 0x4f pause_flag) pause_flag
code turn_begin = bit_or 0x51 round_flag
code turn_pl_begin = bit_or (bit_or 0x52 round_flag) prompt_flag
code turn_pl_idle = bit_or (bit_or 0x53 round_flag) prompt_flag
code turn_pl_done = bit_or (bit_or (bit_or 0x53 round_flag) prompt_flag) done_flag
code turn_pl_next = bit_or 0x54 round_flag
code turn_end = bit_or 0x5f round_flag
code run_talk = bit_or 0x80 round_flag
code run_creation = bit_or 0x81 round_flag
code run_weapons = bit_or 0x82 round_flag
code run_explosion = bit_or 0x83 round_flag
code run_player_drop = bit_or 0x93 round_flag
code run_player_death = bit_or 0x95 round_flag
code run_end = bit_or 0xff round_flag

-- Every state, in the order of the header.
abbrev pub states : List State
states =
    prelude_begin ∷ prelude_idle ∷ game_begin ∷ game_end ∷ game_end_idle ∷ game_end_done
    ∷ inventory_begin ∷ inventory_pl_begin ∷ inventory_pl_idle ∷ inventory_pl_done ∷ round_begin
    ∷ auto_defense ∷ auto_defense_loop ∷ lottery_display ∷ lottery_display_wait ∷ round_end
    ∷ round_end_idle ∷ round_end_done ∷ turn_begin ∷ turn_pl_begin ∷ turn_pl_idle ∷ turn_pl_done
    ∷ turn_pl_next ∷ turn_end ∷ run_talk ∷ run_creation ∷ run_weapons ∷ run_explosion
    ∷ run_player_drop ∷ run_player_death ∷ run_end ∷ []

-- The first state of a list with a given number.
unfoldable pub find_code : ℕ → List State → Option State
unfolding code
find_code n [] = none
find_code n (s ∷ ss) = if n == code s then some s else find_code n ss

unfoldable pub decode : ℕ → Option State
unfolding find_code
decode n = find_code n states

-- No two states share a number: the number of a state determines it.
pub decode-code : (s : State) → decode (code s) ≡ some s
unfolding decode
decode-code prelude_begin = refl
decode-code _ = refl

unfoldable pub set_pause : ℕ → ℕ
set_pause state = bit_or state pause_flag

unfoldable pub clear_pause : ℕ → ℕ
clear_pause state = and_not state pause_flag

-- The states in which the game waits for the user, paused from the start.
abbrev pub unpaused : State → State
unpaused game_end_idle = game_end_done
unpaused round_end_idle = round_end_done
unpaused s = s

-- A pause that is taken back gives the state from before it, but that the idle states at the end of
-- a round and of a game go on to their `done` states; and while paused, no state but those two idle
-- ones (and the `done` states, which the pause turns back into them) has a number that the state
-- machine's switch knows.
pub clear_pause-set_pause :
    (s : State)
    → (clear_pause (set_pause (code s)) ≡ code (unpaused s))
      × ((decode (set_pause (code s)) ≡ none)
          ⊎ (decode (set_pause (code s)) ≡ some game_end_idle)
          ⊎ (decode (set_pause (code s)) ≡ some round_end_idle))
unfolding clear_pause set_pause code decode
clear_pause-set_pause game_end_idle = (refl, inr (inl refl))
clear_pause-set_pause game_end_done = (refl, inr (inl refl))
clear_pause-set_pause round_end_idle = (refl, inr (inr refl))
clear_pause-set_pause round_end_done = (refl, inr (inr refl))
clear_pause-set_pause _ = (refl, inl refl)
