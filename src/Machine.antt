-- ===== src/Machine.antt =====
-- sgame/sstate.c: the state machine that drives a game.
pub mod Codes
pub mod World
pub mod Actions
pub mod Explosions
pub mod Handlers
pub mod Run
pub mod Safety
pub mod Graph
mod Victors
mod Tests
