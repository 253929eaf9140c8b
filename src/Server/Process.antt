-- ===== src/Server/Process.antt =====
-- example/server/async/socks_server_async.cpp: the process of the server. `socks_server` accepts connections while
-- others run, each of which talks to its client and then relays; an exception of a handler leaves
-- `ioc.run()`, and `main` returns.
pub mod Lives
pub mod Over
pub mod Relays
use socks.Base.{ℕ, ◌≡◌, Option, none, some, List, [], ◌∷◌, ◌++◌, if◌then◌else◌}
use socks.Base.Access.{◌>>=◌}
use socks.Endpoint.{Endpoint}
use socks.Error.{ErrorCode, failed}
use socks.Server.{Action, relay}
use socks.Server.Relay
use socks.Server.Relay.{Relay, do_relay}
use socks.Server.Run.{World, Event, handle, accepted}
use socks.Server.Run.Faults.{OutcomeOf}

-- A connection, before its relay and with it.
pub data Peer : Type 0 where
  talks : World → Peer
  relays : World → Relay → Peer

abbrev pub goes_to : Action → World → Peer
goes_to relay w = relays w (do_relay w.connection.buffer [])
goes_to _ w = talks w

-- A handler that grants the request has called `do_relay`. `target_buffer_` is empty until then.
abbrev pub enter : World → Peer
enter w = goes_to w.waits_for w

-- The completion of an operation of one connection.
pub data Moves : Peer → Peer → Type 0 where
  handled :
      {w w' : World} (event : Event)
      → OutcomeOf w.waits_for w event
      → handle event w ≡ some w'
      → Moves (talks w) (enter w')
  passed : {w : World} {r r' : Relay} → Relay.Step r r' → Moves (relays w r) (relays w r')

-- The connections that were started.
abbrev pub SocksServer : Type 0
SocksServer = List Peer

-- The exception that left `ioc.run()`: that of `start`, or that of the handler of a connection, on its completion.
pub data Cause : Type 0 where
  no_remote_endpoint : Cause
  threw : World → Event → Cause

pub data Process : Type 0 where
  running : SocksServer → Process
  over : Cause → Process

-- The completion of `async_accept` in `do_accept`, which calls it again. `start` asks the accepted socket for its
-- remote endpoint, to print it; `none` is that this throws, as when the client is gone.
unfoldable pub on_accepted : ErrorCode → Option Endpoint → SocksServer → Option SocksServer
on_accepted ec remote_endpoint peers =
    if failed ec then some peers else do _ ← remote_endpoint; some (talks accepted ∷ peers)

-- What `io_context::run` may do next: it finds a completion, of the acceptor or of any connection, and calls its
-- handler, which may throw.
pub data Runs : Process → Process → Type 0 where
  accepts :
      {peers peers' : SocksServer} (ec : ErrorCode) (remote_endpoint : Option Endpoint)
      → on_accepted ec remote_endpoint peers ≡ some peers'
      → Runs (running peers) (running peers')
  accept_throws :
      {peers : SocksServer} (ec : ErrorCode) (remote_endpoint : Option Endpoint)
      → on_accepted ec remote_endpoint peers ≡ none
      → Runs (running peers) (over no_remote_endpoint)
  moves :
      {p p' : Peer} (front back : List Peer)
      → Moves p p'
      → Runs (running (front ++ p ∷ back)) (running (front ++ p' ∷ back))
  throws :
      (w : World) (front back : List Peer) (event : Event)
      → OutcomeOf w.waits_for w event
      → handle event w ≡ none
      → Runs (running (front ++ talks w ∷ back)) (over (threw w event))

pub data Serving : Process → Type 0 where
  listening : Serving (running [])
  later : {p q : Process} → Serving p → Runs p q → Serving q
