-- ===== src/Lib.antt =====
-- Verification of the game logic of xscorch, a clone of Scorched Earth in C.
--
-- The program's heart is a state machine (sgame/sstate.c) that a timer drives. It takes the players
-- through the inventory, the turns and the rounds, and in a run it lets weapons fly, explosions
-- burn, land fall and players die. Its state is the game (sgame/sgame.h: counters, a timeout, a state
-- code and five chains of explosions) beside the configuration (sgame/sconfig.h: players, turn
-- order, options). It calls the other parts, which change the configuration.
--
-- Prelude: shared names, C arrays as lists, the C `int` as an integer. Overflow of an `int` is not
--   modelled.
-- Items, Player: the records of sgame/sweapon.h, sgame/saccessory.h, sgame/splayer.h,
--   sgame/stankpro.h and sgame/sshield.h.
-- Inventory: sgame/sinventory.c, one function per function of the source (`buy_weapon` is
--   `sc_inventory_buy_weapon`). The functions that buy, sell and award take an item that is there;
--   at a NULL one the source answers false and changes nothing.
-- Game: sgame/sgame.c and the chains of sgame/sexplosion.c. Game/Clock is the arithmetic of
--   timeouts, Game/Queue the queue functions, with an address as a number,
--   Game/Queue/Links the two iterators along the pointers, Game/Players the loops over players.
-- Machine: sgame/sstate.c. Machine/Codes has the state codes, Machine/World the state and the
--   record `Calls` of the functions of other files that the machine calls, Machine/Actions the
--   actions on explosions, Machine/Handlers a function for each `_sc_state_` function, Machine/Run
--   the switch and the machine that runs until it waits. Machine/Safety, Machine/Graph,
--   Machine/Victors and Machine/Explosions hold the proofs.
-- Land: sgame/sland.c. Land is the translation of coordinates, Land/Columns the heights and the
--   falls of columns, the others the proofs.
-- HashList: sutil/shashlist.c, with its array of chains as a list of lists; HashList/Keyed has the
--   functions by integer and by string, the others the proofs.
-- Registry: sgame/sregistry.c on top of it. Registry/Find has the walks over the items of a class,
--   Registry/Walks what they find, Registry/Requests how clients use the registry, and
--   Registry/Refines the registry as a map.
-- Goods: the lists of accessories and weapons, sgame/saccessory.c and sgame/sweapon.c, that the
--   registry holds, and the rounds over them.
-- Players: sgame/splayer.c. Players/Controls has power, turret and contact triggers,
--   Players/Batteries the batteries, Players/Damage what an explosion does, Players/Orders the
--   orders of players, the others the proofs.
-- Weapons: Weapons/Verify is the check of phoenix weapons in sgame/sphoenix.c, Weapons/Phoenix their
--   actions, Weapons/Track sgame/strack.c, and Weapons/Flight what these two call; the others are
--   proofs.
-- Ai: sai/saibuy.c. Ai has the purchases and the sorts, Ai/Buy the buyers, Ai/Shopping who
--   calls which; the others are proofs.
-- Shields: the part of sgame/sshield.c that works on whole numbers; Shields/Best is the choice of a
--   shield.
--
-- A handler that sets a state `now` calls `sc_state_run` again, from inside. The model's `run` takes
-- fuel for each such call, and the loop over the explosions takes fuel of its own: how much of it is
-- enough is a theorem, for graphics that are not set to be fast. How long a run of handlers goes on is
-- up to the calls. The loops that bring a coordinate onto the land get its distance from zero as
-- fuel, since each round brings it at least one closer; the loop that carries microseconds gets
-- their number, and those that turn a turret its angle. The walks of the registry take fuel for each
-- item, and one more than the list has is enough; the check of a weapon takes it for each level, and
-- the tracking for each weapon: that there is enough of it is a theorem. Reading `players` or `plorder` out of range is a
-- result of its own, `fault`.
--
-- Not modelled: networking, the user interfaces, sound and file formats, which are input and output;
-- the steps of a trajectory, the scoring and the aiming of the computer players, which work on
-- floating-point and random numbers and are calls of the machine; the vendored libraries; memory
-- allocation. Of sgame/splayer.c the drops, the moves and the use of triggers are still missing.
pub mod Prelude
pub mod Items
pub mod Player
pub mod Inventory
pub mod Game
pub mod Machine
pub mod Land
pub mod Shields
pub mod HashList
pub mod Registry
pub mod Goods
pub mod Players
pub mod Weapons
pub mod Ai
