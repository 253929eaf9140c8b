-- ===== src/Server/Run.antt =====
-- example/server/async/socks_server_async.cpp: a whole `socks_connection`, from `start` to the relay. The
-- completions of the operations come from outside, with any outcome that the operation allows.
pub mod Invariant
pub mod Handlers
pub mod Reached
pub mod Refused
pub mod Throws
pub mod Completions
pub mod Faults
use socks.Base.{
  ℕ, ◌+◌, ◌-◌, ◌≤◌, ◌≡◌, Bool, false, not, Option, none, some, List, [], ◌∷◌, ◌++◌, length,
  replicate, if◌then◌else◌,
}
use socks.Base.Memory.{overlay}
use socks.Base.Access.{◌>>=◌}
use socks.Error.{ErrorCode, failed}
use socks.Endpoint.{Endpoint, no_endpoint}
use socks.Server.{
  Connection, Action, write_choice, write_status, write_reply, write_reply_v4, read_greeting,
  read_userpass, read_request, resolve, connect_target, connect_target_v4, relay, close, stop,
}
use socks.Server.Greeting.{greeting_cond, userpass_cond, on_choice_written, on_status_written}
use socks.Server.Request.{
  request_cond, on_greeting, on_userpass, on_request, on_resolved, on_target, on_target_v4,
}
use socks.Server.Reply.{on_reply_written, on_reply_v4_written}

-- The constructor: `buffer_(258, 0x00)`.
unfoldable pub create : Connection
create = record { buffer = replicate 258 0; server_choice = 0x00; target = no_endpoint }

-- `start`
unfoldable pub start : Connection → Connection × Action
start c = (c, read_greeting (length c.buffer))

-- A connection, the operation that it waits for, the local endpoint of the target socket once that is open,
-- what was written to the client, the last message first, and whether the target socket is connected.
pub record World : Type 0 where
  pub connection : Connection
  pub waits_for : Action
  pub local_endpoint : Option Endpoint
  pub sent : List (List ℕ)
  pub joined : Bool

-- The outcome of an operation. That of a connection has the local endpoint of the target socket, or `none` if the socket
-- could not be opened.
pub data Event : Type 0 where
  was_read : ErrorCode → List ℕ → Event
  was_written : ErrorCode → Event
  was_resolved : ErrorCode → Endpoint → Event
  was_connected : ErrorCode → Option Endpoint → Event

-- The message is on the wire if the write succeeded.
abbrev after_write : ErrorCode → List ℕ → List (List ℕ) → List (List ℕ)
after_write ec bytes sent = if failed ec then sent else bytes ∷ sent

abbrev pub wrote : ErrorCode → List ℕ → World → World
wrote ec bytes w = record w { sent = after_write ec bytes w.sent }

abbrev pub received : World → List ℕ → Connection
received w bytes = record w.connection { buffer = overlay bytes w.connection.buffer }

abbrev pub now_open : Option Endpoint → Option Endpoint → Option Endpoint
now_open none before = before
now_open (some local) before = some local

abbrev pub connected : ErrorCode → Option Endpoint → World → World
connected ec local w = record w {
  local_endpoint = now_open local w.local_endpoint;
  joined = not (failed ec);
}

abbrev goes_on : World → Connection × Action → World
goes_on w (c, next) = record w { connection = c; waits_for = next }

abbrev pub went_on : World → Option (Connection × Action) → Option World
went_on w r = do (c, next) ← r; some (record w { connection = c; waits_for = next })

-- The handler of the operation, called with its outcome. `none` is a fault, an exception, or an outcome of
-- another operation.
unfoldable pub on_event : Action → Event → World → Option World
on_event (read_greeting k) (was_read ec bytes) w =
    went_on w (on_greeting w.local_endpoint ec (length bytes) (received w bytes))
on_event (read_userpass k) (was_read ec bytes) w =
    went_on w (on_userpass ec (length bytes) (received w bytes))
on_event (read_request k) (was_read ec bytes) w =
    went_on w (on_request w.local_endpoint ec (length bytes) (received w bytes))
on_event (write_choice bytes) (was_written ec) w =
    some (goes_on (wrote ec bytes w) (on_choice_written ec w.connection))
on_event (write_status bytes) (was_written ec) w =
    some (goes_on (wrote ec bytes w) (on_status_written ec w.connection))
on_event (write_reply bytes) (was_written ec) w =
    went_on (wrote ec bytes w) (on_reply_written ec w.connection)
on_event (write_reply_v4 bytes) (was_written ec) w =
    went_on (wrote ec bytes w) (on_reply_v4_written ec w.connection)
on_event (resolve name port) (was_resolved ec found) w =
    went_on w (on_resolved w.local_endpoint ec found w.connection)
on_event (connect_target ep) (was_connected ec local) w =
    went_on (connected ec local w) (on_target (connected ec local w).local_endpoint ec w.connection)
on_event (connect_target_v4 ep) (was_connected ec local) w =
    went_on (connected ec local w)
      (on_target_v4 (connected ec local w).local_endpoint ec w.connection)
on_event _ _ w = none

unfoldable pub handle : Event → World → Option World
unfolding on_event
handle event w = on_event w.waits_for event w

abbrev pub accepted : World
accepted = record {
  connection = (start create).0;
  waits_for = (start create).1;
  local_endpoint = none;
  sent = [];
  joined = false;
}

-- The condition of the read that the connection waits for.
abbrev pub condition : Action → List ℕ → ErrorCode → ℕ → Option ℕ
condition (read_greeting k) buf ec n = greeting_cond buf ec n
condition (read_userpass k) buf ec n = userpass_cond buf ec n
condition (read_request k) buf ec n = request_cond buf ec n
condition _ buf ec n = some 0

-- A read brings at most as many bytes as its buffer holds.
abbrev pub Allowed : World → Event → Type 0
Allowed w (was_read ec bytes) = length bytes ≤ length w.connection.buffer
Allowed w _ = Unit

pub data Step (w : World) : World → Type 0 where
  completes : {w' : World} (event : Event) → Allowed w event → handle event w ≡ some w' → Step w w'

pub data Reach : World → Type 0 where
  here : Reach accepted
  next : {w w' : World} → Reach w → Step w w' → Reach w'
