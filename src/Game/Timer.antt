-- ===== src/Game/Timer.antt =====
-- The timeout that `sc_game_reinstate` of sgame/sgame.c sets.
use xscorch.Prelude.{ℕ, zero, suc, ◌+◌, ◌-◌, ◌*◌, ◌%◌, ◌≤◌, ◌<◌, ◌≡◌, true, ◌↔◌, arith}
use xscorch.Game.Clock.{Timeval, carry, postpone_timeout, is_due}

-- The instant in microseconds.
abbrev pub micros : Timeval → ℕ
micros t = t.tv_sec * 1000000 + t.tv_usec

carry_lem :
    (fuel : ℕ) (t : Timeval)
    → t.tv_usec < (fuel + 1) * 1000000
    → (micros (carry fuel t) ≡ micros t) × ((carry fuel t).tv_usec < 1000000)
unfolding carry
carry_lem zero t h = omega arith
carry_lem (suc fuel) t h =
    ground
      (arith, carry_lem fuel (record t { tv_usec = t.tv_usec - 1000000; tv_sec = t.tv_sec + 1 }))

-- Postponing a timeout moves it by exactly the delay, in milliseconds, and leaves the microseconds
-- below a second, whatever they were.
pub postpone_timeout_lem :
    (t : Timeval) (delay : ℕ)
    → (micros (postpone_timeout t delay) ≡ micros t + delay * 1000)
      × ((postpone_timeout t delay).tv_usec < 1000000)
unfolding postpone_timeout
postpone_timeout_lem t delay = omega (
  arith,
  carry_lem (t.tv_usec + delay % 1000 * 1000)
      (record t { tv_usec = t.tv_usec + delay % 1000 * 1000 }),
)

-- With the microseconds of both below a second, the state machine's test says that the instant has
-- come.
pub is_due_iff :
    (now timeout : Timeval)
    → now.tv_usec < 1000000
    → timeout.tv_usec < 1000000
    → (is_due now timeout ≡ true) ↔ (micros timeout ≤ micros now)
is_due_iff now timeout h k = ground arith
