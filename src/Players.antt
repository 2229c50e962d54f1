-- ===== src/Players.antt =====
-- The operations on players of sgame/splayer.c: the controls of a tank (Controls), batteries
-- (Batteries), damage (Damage) and the orders of players (Orders). Network messages and drawing are
-- left out. A pointer to a player or to the configuration is never NULL here.
pub mod Controls
pub mod Angles
pub mod Damage
pub mod Sums
pub mod Accounts
pub mod Orders
pub mod Shuffles
pub mod Carries
pub mod Sorted
pub mod Batteries
pub mod Stocks
mod Tests
use xscorch.Prelude.{ℕ}
use xscorch.Prelude.Int.{ℤ, pos, ◌+ℤ◌, ◌-ℤ◌, ◌*ℤ◌, ◌/ℤ◌}

-- INT_ROUND_DIV, with the `%` of C
unfoldable pub int_round_div : ℤ → ℤ → ℤ
int_round_div a b = a /ℤ b +ℤ ((a -ℤ (a /ℤ b) *ℤ b) *ℤ pos 2) /ℤ b

-- SC_PLAYER_MAX_POWER
abbrev pub max_power : ℤ
max_power = pos 1000
