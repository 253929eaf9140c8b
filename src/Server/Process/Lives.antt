-- ===== src/Server/Process/Lives.antt =====
-- example/server/async/socks_server_async.cpp: the connections of a running server.
use socks.Base.{Option, ◌≡◌, refl, List, [], ◌∷◌, ◌++◌, All}
use socks.Base.Ensures.{Ensures, gives, Ensures-if, Ensures-bind, Ensures-result}
use socks.Endpoint.{Endpoint}
use socks.Error.{ErrorCode, failed}
use socks.Server.{Action, read_greeting, read_userpass, read_request, relay}
use socks.Server.Relay
use socks.Server.Relay.{Relay, do_relay}
use socks.Server.Run
use socks.Server.Run.{
  World, Event, was_read, was_written, was_resolved, was_connected, Allowed, completes,
}
use socks.Server.Run.Faults.{OutcomeOf}
use socks.Server.Process.{
  Peer, talks, relays, goes_to, Moves, handled, passed, Process, running, over, on_accepted, Runs,
  accepts, accept_throws, SocksServer, moves, throws, Serving, listening, later,
}

pub OutcomeOf-Allowed :
    (a : Action) (w : World) (event : Event) → OutcomeOf a w event → Allowed w event
OutcomeOf-Allowed (read_greeting k) w (was_read ec bytes) (fits, _) = fits
OutcomeOf-Allowed (read_userpass k) w (was_read ec bytes) (fits, _) = fits
OutcomeOf-Allowed (read_request k) w (was_read ec bytes) (fits, _) = fits
OutcomeOf-Allowed _ w (was_written ec) h = tt
OutcomeOf-Allowed _ w (was_resolved ec found) h = tt
OutcomeOf-Allowed _ w (was_connected ec local) h = tt
OutcomeOf-Allowed _ w (was_read ec bytes) h = absurd h

-- A connection that talks is in a state that one alone can reach; one that relays was in such a state when its relay
-- started, and the relay is in a state that it can reach from there.
abbrev pub Lives : Peer → Type 0
Lives (talks w) = Run.Reach w
Lives (relays w r) = Run.Reach w × (w.waits_for ≡ relay) × Relay.Reach w.connection.buffer [] r

goes_to-Lives : (a : Action) (w : World) → w.waits_for ≡ a → Run.Reach w → Lives (goes_to a w)
goes_to-Lives relay w e r = (r, e, Relay.start)
goes_to-Lives _ w e r = r

Moves-Lives : {p p' : Peer} → Moves p p' → Lives p → Lives p'
Moves-Lives (handled {w} {w'} event outcome did) r =
    goes_to-Lives w'.waits_for w' refl
      (Run.next r (completes event (OutcomeOf-Allowed w.waits_for w event outcome) did))
Moves-Lives (passed st) (r, e, went) = (r, e, Relay.later went st)

on_accepted-Lives :
    (ec : ErrorCode) (remote_endpoint : Option Endpoint) (peers : SocksServer)
    → All Lives peers
    → Ensures (All Lives) (on_accepted ec remote_endpoint peers)
unfolding on_accepted
on_accepted-Lives ec remote_endpoint peers h =
    Ensures-if (failed ec) _ _ (λ _. gives h)
      (λ _. Ensures-bind remote_endpoint _ (λ _. gives (Run.here, h)))

replaced :
    (p p' : Peer) (front back : List Peer)
    → Moves p p'
    → All Lives (front ++ p ∷ back)
    → All Lives (front ++ p' ∷ back)
replaced p p' [] back m (h, hs) = (Moves-Lives m h, hs)
replaced p p' (q ∷ front) back m (h, hs) = (h, replaced p p' front back m hs)

-- The connections of a process that still runs.
abbrev pub AllLive : Process → Type 0
AllLive (running peers) = All Lives peers
AllLive (over cause) = Unit

Runs-AllLive : {p q : Process} → Runs p q → AllLive p → AllLive q
Runs-AllLive (accepts {peers} ec remote_endpoint went) h =
    Ensures-result (on_accepted-Lives ec remote_endpoint peers h) went
Runs-AllLive (accept_throws ec remote_endpoint fault) h = tt
Runs-AllLive (moves {p} {p'} front back m) h = replaced p p' front back m h
Runs-AllLive (throws w front back event outcome fault) h = tt

pub All-middle : (p : Peer) (front back : List Peer) → All Lives (front ++ p ∷ back) → Lives p
All-middle p [] back (h, _) = h
All-middle p (q ∷ front) back (_, hs) = All-middle p front back hs

-- However the server interleaves the acceptance of connections with the operations of those that it has, and as long
-- as it runs: a connection that talks is in a state that one alone can reach; and one that relays came from such a
-- state, where it goes on to the relay, and its relay is in a state that the two loops can reach from there.
pub Serving-Lives : {p : Process} → Serving p → AllLive p
Serving-Lives listening = tt
Serving-Lives (later h s) = Runs-AllLive s (Serving-Lives h)
