-- ===== src/Game/Clock.antt =====
-- `struct timeval`, and the timeout arithmetic of `sc_game_reinstate` in sgame/sgame.c.
use xscorch.Prelude.{
  ℕ, zero, suc, ◌+◌, ◌-◌, ◌*◌, ◌/◌, ◌%◌, Bool, ◌&&◌, ◌||◌, ltb, leb, ◌==◌, if◌then◌else◌,
}

pub record Timeval : Type 0 where
  pub tv_sec : ℕ
  pub tv_usec : ℕ

-- `while(tv_usec >= 1000000) { tv_usec -= 1000000; tv_sec++; }`; each round takes fuel.
unfoldable pub carry : ℕ → Timeval → Timeval
carry zero t = t
carry (suc fuel) t =
    let rest = carry fuel (record t { tv_usec = t.tv_usec - 1000000; tv_sec = t.tv_sec + 1 }) in
    if leb 1000000 t.tv_usec then rest else t

-- `delay` is in milliseconds.
unfoldable pub postpone_timeout : Timeval → ℕ → Timeval
postpone_timeout t delay =
    let usec = t.tv_usec + delay % 1000 * 1000 in
    let t' = carry usec (record t { tv_usec = usec }) in
    record t' { tv_sec = t'.tv_sec + delay / 1000 }

-- The test of `sc_state_run`: the timeout has come.
abbrev pub is_due : Timeval → Timeval → Bool
is_due now timeout =
    ltb timeout.tv_sec now.tv_sec || now.tv_sec == timeout.tv_sec && leb timeout.tv_usec now.tv_usec
