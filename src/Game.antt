-- ===== src/Game.antt =====
-- sgame/sgame.c: the game structure, its timeout, its victor, and the queues of explosions.
-- A chain of explosions is a list; an explosion's `id` stands for its address, and each explosion
-- is on one chain at most. `time` of the source (gettimeofday) is an argument `now`.
mod Clock
pub mod Timer
pub mod Queue
pub mod Players
mod Tests
unfoldable pub use Clock.*
