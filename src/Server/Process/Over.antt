-- ===== src/Server/Process/Over.antt =====
-- example/server/async/socks_server_async.cpp: how the process of the server ends.
use socks.Base.{◌≡◌, inl, inr, none, some, List, ◌∷◌, ◌++◌, arith}
use socks.Endpoint.{Endpoint, no_endpoint}
use socks.Server.Run.{World, Event, handle, Reach}
use socks.Server.Run.Reached.{waits_for-Holds}
use socks.Server.Run.Refused.{Refused, command_v4, command_v5, unresolved, unopened, Reach-Refused}
use socks.Server.Run.Faults.{OutcomeOf, IsReply, opened, OrThrows, Reach-OrThrows}
use socks.Server.Process.{threw, Peer, talks, running, over, Runs, throws, Serving, later}
use socks.Server.Process.Lives.{All-middle, Serving-Lives}

Refused-OutcomeOf :
    {w : World} {event : Event} → Reach w → Refused w event → OutcomeOf w.waits_for w event
Refused-OutcomeOf {w} r (command_v4 k cmd rest e other short) =
    let (_, size, _, _) = waits_for-Holds r e in
    let (over_now, _) = Reach-Refused r (command_v4 k cmd rest e other short) in
    rw e (omega arith, inr (inl (rw e at over_now)))
Refused-OutcomeOf {w} r (command_v5 k cmd rest e other short) =
    let (_, size, _, _) = waits_for-Holds r e in
    let (over_now, _) = Reach-Refused r (command_v5 k cmd rest e other short) in
    rw e (omega arith, inr (inl (rw e at over_now)))
Refused-OutcomeOf {w} r (unresolved name port ec found e f) = rw e tt
Refused-OutcomeOf {w} r (unopened ep ec (inl e) f) = rw e (inl f)
Refused-OutcomeOf {w} r (unopened ep ec (inr e) f) = rw e (inl f)

-- One connection is enough to end the server with all its connections. In every state that the server can reach, once a
-- connection that has no relay yet has read a request for another command than CONNECT, no longer than its
-- buffer, or its resolver has failed, or no socket could be opened for its target, the process ends by the
-- exception of that connection's handler.
pub Serving-Refused :
    {w : World} (front back : List Peer) (event : Event)
    → Serving (running (front ++ talks w ∷ back))
    → Refused w event
    → Runs (running (front ++ talks w ∷ back)) (over (threw w event))
Serving-Refused {w} front back event h refused =
    let r = All-middle (talks w) front back (Serving-Lives h) in
    throws w front back event (Refused-OutcomeOf r refused) (Reach-Refused r refused).1

throws_only :
    (w : World) (event : Event) (ep : Endpoint)
    → handle event w ≡ none
    → OrThrows w (handle event w) (handle event (opened ep w))
    → (w.local_endpoint ≡ none)
      × ((w' : World) × (handle event (opened ep w) ≡ some w') × IsReply w'.waits_for)
throws_only w event ep fault (w', e, inl (_, closed, reply)) = (closed, (w', e, reply))
throws_only w event ep fault (w', e, inr (u, went, _, _)) = absurd (cc)

-- Where the exception of a connection's handler has ended the server, the connection was in a state that it can reach,
-- with an outcome of the operation that it waited for; its target socket was not open, and with an open one the
-- handler would have sent a reply.
pub Serving-over :
    {w : World} {event : Event}
    → Serving (over (threw w event))
    → Reach w
      × OutcomeOf w.waits_for w event
      × (w.local_endpoint ≡ none)
      × ((ep : Endpoint)
          → (w' : World) × (handle event (opened ep w) ≡ some w') × IsReply w'.waits_for)
Serving-over (later h (throws w front back event outcome fault)) =
    let r = All-middle (talks w) front back (Serving-Lives h) in
    let only =
      λ (ep : Endpoint). throws_only w event ep fault (Reach-OrThrows event r outcome ep) in
    (r, outcome, (only no_endpoint).0, λ ep. (only ep).1)
