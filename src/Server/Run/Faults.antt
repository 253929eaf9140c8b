-- ===== src/Server/Run/Faults.antt =====
-- example/server/async/socks_server_async.cpp: no handler of a connection reads out of its buffer, whatever the client
-- sends; what a handler may do is throw, where it refuses a request before the target socket is open.
use socks.Base.{
  ℕ, ◌≤◌, ◌≡◌, refl, ◌⊎◌, inl, inr, true, false, Option, none, some, List, length, arith,
}
use socks.Base.Memory.{overlay}
use socks.Error.{ErrorCode, failed}
use socks.Endpoint.{Endpoint}
use socks.Server.{
  Connection, Action, write_choice, write_status, write_reply, write_reply_v4, read_greeting,
  read_userpass, read_request, resolve, connect_target, connect_target_v4,
}
use socks.Server.Request.{on_greeting, on_userpass, on_request, on_resolved}
use socks.Server.Run.{
  World, Event, was_read, was_written, was_resolved, was_connected, condition, wrote, received,
  handle, on_event, went_on, Reach,
}
use socks.Server.Run.Invariant.{Holds}
use socks.Server.Run.Reached.{Reach-Valid}
use socks.Server.Run.Completions.{
  greeting_nonempty, request_length, on_greeting-Throws, on_userpass-Throws, on_request-Throws,
  length-Replied, reply_written_total, reply_v4_written_total, target_throws, target_replies,
  target_v4_throws, target_v4_replies,
}
use socks.Server.Run.Throws.{Throws, same, throws, throws_v4, resolved-Throws}

-- A read is over: it has failed, its condition asks for no more bytes, or the buffer is full.
abbrev pub Completed : Action → World → ErrorCode → List ℕ → Type 0
Completed a w ec bytes =
    (length bytes ≤ length w.connection.buffer)
    × ((failed ec ≡ true)
        ⊎ (condition a (overlay bytes w.connection.buffer) ec (length bytes) ≡ some 0)
        ⊎ (length bytes ≡ length w.connection.buffer))

-- A socket that is connected is open; one that is not may be.
abbrev pub OpenIfJoined : ErrorCode → Option Endpoint → Type 0
OpenIfJoined ec local = (failed ec ≡ true) ⊎ ((ep : Endpoint) × (local ≡ some ep))

-- The outcomes of an operation.
abbrev pub OutcomeOf : Action → World → Event → Type 0
OutcomeOf (read_greeting k) w (was_read ec bytes) = Completed (read_greeting k) w ec bytes
OutcomeOf (read_userpass k) w (was_read ec bytes) = Completed (read_userpass k) w ec bytes
OutcomeOf (read_request k) w (was_read ec bytes) = Completed (read_request k) w ec bytes
OutcomeOf (write_choice bytes) w (was_written ec) = Unit
OutcomeOf (write_status bytes) w (was_written ec) = Unit
OutcomeOf (write_reply bytes) w (was_written ec) = Unit
OutcomeOf (write_reply_v4 bytes) w (was_written ec) = Unit
OutcomeOf (resolve name port) w (was_resolved ec found) = Unit
OutcomeOf (connect_target ep) w (was_connected ec local) = OpenIfJoined ec local
OutcomeOf (connect_target_v4 ep) w (was_connected ec local) = OpenIfJoined ec local
OutcomeOf _ w event = ⊥

abbrev pub IsReply : Action → Type 0
IsReply (write_reply bytes) = Unit
IsReply (write_reply_v4 bytes) = Unit
IsReply _ = ⊥

-- The connection, had its target socket been opened before.
abbrev pub opened : Endpoint → World → World
opened ep w = record w { local_endpoint = some ep }

-- What a handler gives as it is, and with an open target socket: the same, or it throws in place of a reply.
abbrev pub OrThrows : World → Option World → Option World → Type 0
OrThrows w x y =
    (w' : World) × (y ≡ some w')
    × (((x ≡ none) × (w.local_endpoint ≡ none) × IsReply w'.waits_for)
        ⊎ ((u : World) × (x ≡ some u)
            × (u.waits_for ≡ w'.waits_for)
            × (u.connection ≡ w'.connection)))

Throws-OrThrows :
    (w v : World) {x y : Option (Connection × Action)}
    → w.local_endpoint ≡ none
    → Throws x y
    → OrThrows w (went_on w x) (went_on v y)
Throws-OrThrows w v closed (same r) = (_, refl, inr (_, refl, refl, refl))
Throws-OrThrows w v closed (throws c bytes) = (_, refl, inl (refl, closed, tt))
Throws-OrThrows w v closed (throws_v4 c bytes) = (_, refl, inl (refl, closed, tt))

-- A handler that is given the local endpoint of the target socket.
went_on-OrThrows :
    (ep : Endpoint) (w : World) (f : Option Endpoint → Option (Connection × Action))
    → w.local_endpoint ≡ none
    → Throws (f none) (f (some ep))
    → OrThrows w (went_on w (f w.local_endpoint)) (went_on (opened ep w) (f (some ep)))
went_on-OrThrows ep w f closed h = Throws-OrThrows w (opened ep w) closed (rw closed h)

alike-OrThrows :
    (w u v : World) (x : Option (Connection × Action))
    → (r : Connection × Action) × (x ≡ some r)
    → OrThrows w (went_on u x) (went_on v x)
alike-OrThrows w u v x (r, e) = rw e (_, refl, inr (_, refl, refl, refl))

unless_failed : {A : Type 0} (ec : ErrorCode) → failed ec ≡ false → (failed ec ≡ true) ⊎ A → A
unless_failed ec ok (inl e) = absurd (ground arith)
unless_failed ec ok (inr a) = a

event-OrThrows :
    (ep : Endpoint) (a : Action) (event : Event) (w : World)
    → Holds w.sent w.local_endpoint w.joined (w.connection, a)
    → OutcomeOf a w event
    → OrThrows w (on_event a event w) (on_event a event (opened ep w))
unfolding on_event
event-OrThrows ep (read_greeting k) (was_read ec bytes) w (_, size, _, closed) (_, over) =
    went_on-OrThrows ep w (λ l. on_greeting l ec (length bytes) (received w bytes)) closed
      (on_greeting-Throws ep w.connection ec bytes
        (λ ok. greeting_nonempty w.connection.buffer ec bytes size ok (unless_failed ec ok over)))
event-OrThrows ep (read_userpass k) (was_read ec bytes) w (_, size, _, closed) (_, over) =
    went_on-OrThrows ep w (λ l. on_userpass ec (length bytes) (received w bytes)) closed
      (on_userpass-Throws ep w.connection ec bytes)
event-OrThrows ep (read_request k) (was_read ec bytes) w (_, size, _, closed) (_, over) =
    went_on-OrThrows ep w (λ l. on_request l ec (length bytes) (received w bytes)) closed
      (on_request-Throws ep w.connection ec bytes
        (λ ok. request_length w.connection.buffer ec bytes size ok (unless_failed ec ok over)))
event-OrThrows ep (write_choice bytes) (was_written ec) w h _ = (_, refl, inr (_, refl, refl, refl))
event-OrThrows ep (write_status bytes) (was_written ec) w h _ = (_, refl, inr (_, refl, refl, refl))
event-OrThrows ep (write_reply bytes) (was_written ec) w (e, _, replied, _) _ =
    alike-OrThrows w (wrote ec bytes w) (wrote ec bytes (opened ep w)) _ (
      reply_written_total ec w.connection
        (rw e (length-Replied w.local_endpoint w.joined bytes replied)))
event-OrThrows ep (write_reply_v4 bytes) (was_written ec) w (e, _, (long, _, _), _) _ =
    alike-OrThrows w (wrote ec bytes w) (wrote ec bytes (opened ep w)) _
      (reply_v4_written_total ec w.connection (rw e long))
event-OrThrows ep (resolve name port) (was_resolved ec found) w (_, closed) _ =
    went_on-OrThrows ep w (λ l. on_resolved l ec found w.connection) closed
      (resolved-Throws ep w.connection ec found)
event-OrThrows ep (connect_target to) (was_connected ec none) w (_, _, closed) _ =
    let (c, bytes, replied) = target_replies ep ec w.connection in
    rw (closed, target_throws ec w.connection, replied) (_, refl, inl (refl, refl, tt))
event-OrThrows ep (connect_target to) (was_connected ec (some local)) w h _ =
    let (c, bytes, replied) = target_replies local ec w.connection in
    rw replied (_, refl, inr (_, refl, refl, refl))
event-OrThrows ep (connect_target_v4 to) (was_connected ec none) w (_, _, closed) _ =
    let (c, bytes, replied) = target_v4_replies ep ec w.connection in
    rw (closed, target_v4_throws ec w.connection, replied) (_, refl, inl (refl, refl, tt))
event-OrThrows ep (connect_target_v4 to) (was_connected ec (some local)) w h _ =
    let (c, bytes, replied) = target_v4_replies local ec w.connection in
    rw replied (_, refl, inr (_, refl, refl, refl))
event-OrThrows ep _ _ w h outcome = absurd outcome

-- In every state that a connection can reach, with any outcome of the operation that it waits for: had its target socket
-- been open, the handler would not fault, so it reads no byte outside its buffer, whatever was received;
-- and as it is, the handler either goes on alike, or it throws, while that socket is not open, where it
-- would have sent a reply.
pub Reach-OrThrows :
    {w : World} (event : Event)
    → Reach w
    → OutcomeOf w.waits_for w event
    → (ep : Endpoint) → OrThrows w (handle event w) (handle event (opened ep w))
unfolding handle
Reach-OrThrows {w} event r outcome ep =
    event-OrThrows ep w.waits_for event w (Reach-Valid r) outcome
