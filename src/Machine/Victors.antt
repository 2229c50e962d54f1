-- ===== src/Machine/Victors.antt =====
-- What a mass kill of sgame/sgame.c leaves to the state machine.
use xscorch.Prelude.{ℕ, true, some, ◌≡◌, refl, arith, ◌∙◌, if◌then◌else◌, get_elem?, ltb}
use xscorch.Game.Players.{victor}
use xscorch.Game.Players.Victor.{killed, kill_all-victor}
use xscorch.Game.Timer.{micros, postpone_timeout_lem}
use xscorch.Machine.Codes.{round_end, code, decode}
use xscorch.Machine.World.{Config, Game}
use xscorch.Machine.Handlers.{mass_kill}

-- After a mass kill exactly the players in use are marked dead, and nothing else of them or of the
-- configuration has changed, so that at most one of them counts as alive; and the round is over: the
-- game is in the state that ends it, to be run at the same instant as the state before, with its
-- counters and its explosions as they were.
pub mass_kill-victor :
    {W : Type 0} (c : Config W) (g : Game)
    → let (c', g') = mass_kill c g in
      (victor c'.numplayers c'.players ≡ true)
      × ((j : ℕ)
          → get_elem? c'.players j ≡ (
              if ltb j c.numplayers then killed (get_elem? c.players j) else get_elem? c.players j))
      × (c' ≡ record c { players = c'.players })
      × (decode g'.state ≡ some round_end)
      × (micros g'.timeout ≡ micros g.timeout)
      × (g' ≡ record g { state = code round_end; timeout = g'.timeout })
unfolding mass_kill decode code
mass_kill-victor c g =
    let (over, marked) = kill_all-victor c.numplayers c.players in
    let same = (postpone_timeout_lem g.timeout 0).0 in
    (over, marked, refl, refl, same ∙ omega arith, refl)
