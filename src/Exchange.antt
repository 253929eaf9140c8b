-- ===== src/Exchange.antt =====
-- include/boost/socks/impl/connect.hpp with example/server/async/socks_server_async.cpp: the client's stream, when
-- the other end of it is the example server.
-- The network loses nothing and keeps the order, but in how many parts a message arrives is a parameter; so is how the
-- resolver and the target answer. The client reads the end of the stream where the server has sent too little and
-- waits, or is gone: where a handler throws, that is the end of the process, and of its sockets.
pub mod Reads
pub mod Whole
pub mod Stages
pub mod Answer
pub mod Session
pub mod Completes
pub mod Credentials
pub mod Userpass
pub mod Together
pub mod CompletesV4
pub mod Steps
pub mod Program
use socks.Base.{ℕ, zero, suc, Option, none, some, List, [], ◌++◌, length, if◌then◌else◌}
use socks.Base.Memory.{overlay}
use socks.Base.Access.{◌>>=◌}
use socks.Error.{ErrorCode, no_error}
use socks.Endpoint.{Endpoint}
use socks.Server.{
  Action, write_choice, write_status, write_reply, write_reply_v4, read_greeting, read_userpass,
  read_request, resolve, connect_target, connect_target_v4, thrown,
}
use socks.Server.Run.{
  World, Event, was_read, was_written, was_resolved, was_connected, condition, handle, accepted,
}
use socks.Stream.{SyncStream}
use socks.Stream.Chunks.{Pace, take_in}
use socks.Stream.Played.{play_read, play_cond}

-- In what parts the bytes arrive at each read of the server and at the client's, and the outcomes of the resolution
-- of a name and of the connection to the target, with the endpoint that was found and the target socket's own, which opens.
pub record Outside : Type 0 where
  pub server_pace : Action → Pace
  pub client_pace : Pace
  pub resolve_error : ErrorCode
  pub found : Endpoint
  pub connect_error : ErrorCode
  pub bound : Endpoint

-- The condition of the server's read, on the bytes received so far.
abbrev pub asked : World → List ℕ → Option ℕ
asked w got = condition w.waits_for (overlay got w.connection.buffer) no_error (length got)

-- The read of the server, of the bytes in `inbox`: none if it waits for more.
abbrev pub server_read : Pace → ℕ → World → List ℕ → Option (Event × List ℕ × List ℕ)
server_read pace k w inbox = do
  (got, rest, over) ← take_in (asked w) pace k 0 [] inbox
  if over then some (was_read no_error got, rest, []) else none

-- The server behind a handler: where that threw, there is none.
abbrev pub completed : Option World → World → World
completed none w = record w { waits_for = thrown }
completed (some w') w = w'

module _ (o : Outside) where
  -- The outcome of the operation that the server waits for, what is left of `inbox`, and what the server sends.
  abbrev pub outcome : Action → World → List ℕ → Option (Event × List ℕ × List ℕ)
  outcome (read_greeting k) w inbox = server_read (o.server_pace (read_greeting k)) k w inbox
  outcome (read_userpass k) w inbox = server_read (o.server_pace (read_userpass k)) k w inbox
  outcome (read_request k) w inbox = server_read (o.server_pace (read_request k)) k w inbox
  outcome (write_choice bytes) w inbox = some (was_written no_error, inbox, bytes)
  outcome (write_status bytes) w inbox = some (was_written no_error, inbox, bytes)
  outcome (write_reply bytes) w inbox = some (was_written no_error, inbox, bytes)
  outcome (write_reply_v4 bytes) w inbox = some (was_written no_error, inbox, bytes)
  outcome (resolve name port) w inbox = some (was_resolved o.resolve_error o.found, inbox, [])
  outcome (connect_target ep) w inbox =
      some (was_connected o.connect_error (some o.bound), inbox, [])
  outcome (connect_target_v4 ep) w inbox =
      some (was_connected o.connect_error (some o.bound), inbox, [])
  outcome _ w inbox = none

  -- The server, what the client sent to it, and what it sent to the client.
  abbrev pub Both : Type 0
  Both = World × List ℕ × List ℕ

  abbrev pub advance : Both → Option Both
  advance (w, inbox, outbox) = do
    (event, inbox', out) ← outcome w.waits_for w inbox
    some (completed (handle event w) w, inbox', outbox ++ out)

  -- The server runs until it waits for the client or a handler throws, for at most so many operations.
  unfoldable pub settle : ℕ → Both → Both
  settle zero b = b
  settle (suc n) b = elim (advance b) [ none ↦ b | some b' ↦ settle n b' ]

  -- A write runs the server: no message of the client takes it more than four operations.
  abbrev pub exchange : SyncStream
  exchange = record {
    State = Both;
    write = λ (w, inbox, outbox) bytes. (settle 4 (w, inbox ++ bytes, outbox), no_error);
    read = λ (w, inbox, outbox) k.
        let (outbox', got, e) = play_read outbox k in ((w, inbox, outbox'), got, e);
    read_cond = λ (w, inbox, outbox) k cond.
        let (outbox', got, e) = play_cond o.client_pace outbox k cond in
        ((w, inbox, outbox'), got, e);
  }
