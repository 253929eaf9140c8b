-- ===== src/Server/Process/Relays.antt =====
-- example/server/async/socks_server_async.cpp: the relays of a running server.
use socks.Base.{List, [], ◌∷◌, All}
use socks.Server.{relay}
use socks.Server.Relay.Flow.{Delivers, Reach-Delivers}
use socks.Server.Run.Invariant.{Holds}
use socks.Server.Run.Reached.{waits_for-Holds}
use socks.Server.Process.{Peer, talks, relays, running, Serving}
use socks.Server.Process.Lives.{Lives, Serving-Lives}

-- What a connection with a relay was when it started it, and what its two loops have delivered.
abbrev pub PassesOn : Peer → Type 0
PassesOn (talks w) = Unit
PassesOn (relays w r) =
    Holds w.sent w.local_endpoint w.joined (w.connection, relay)
    × Delivers r.from_client
    × Delivers r.from_target

Lives-PassesOn : (p : Peer) → Lives p → PassesOn p
Lives-PassesOn (talks w) h = tt
Lives-PassesOn (relays w r) (reached, e, went) =
    let (c, t) = Reach-Delivers went in (waits_for-Holds reached e, c, t)

All-PassesOn : (peers : List Peer) → All Lives peers → All PassesOn peers
All-PassesOn [] h = tt
All-PassesOn (p ∷ peers) (h, hs) = (Lives-PassesOn p h, All-PassesOn peers hs)

-- However the server interleaves the acceptance of connections, their operations and those of their relays, and as long as it
-- runs, every connection with a relay has its target socket connected and has sent, last, a reply that
-- grants the request; and in each of its two loops no byte is lost but those that a short write left in the buffer,
-- which are counted; as long as there are none, what was delivered and what waits are what was received, in its
-- order; and every read has a buffer of 1024 bytes and finds nothing that waits.
pub Serving-PassesOn : {peers : List Peer} → Serving (running peers) → All PassesOn peers
Serving-PassesOn {peers} h = All-PassesOn peers (Serving-Lives h)
