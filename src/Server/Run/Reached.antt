-- ===== src/Server/Run/Reached.antt =====
-- example/server/async/socks_server_async.cpp: the states that a connection can reach.
use socks.Base.{
  ℕ, ◌≤◌, ◌≡◌, ◌⊎◌, refl, ◌∙◌, subst, inl, inr, Bool, true, Option, some, List, [], ◌∷◌, length,
  get_or, arith,
}
use socks.Base.Memory.{overlay, length-overlay}
use socks.Base.Ensures.{Ensures, faults, gives, Ensures-result}
use socks.Error.{ErrorCode}
use socks.Endpoint.{Endpoint}
use socks.Server.{
  Connection, Action, write_choice, write_status, write_reply, write_reply_v4, read_greeting,
  read_userpass, read_request, resolve, connect_target, connect_target_v4, relay,
}
use socks.Server.Conditions.{greeting_cond_total, request_cond_total, userpass_cond_total}
use socks.Server.Reply.{granted_bytes}
use socks.Server.Run.{
  World, Event, was_read, was_written, was_resolved, was_connected, on_event, condition, handle,
  received, connected, wrote, went_on, create, start, Step, completes, Reach, here, next,
}
use socks.Server.Run.Invariant.{IsOpen, Negotiated, Holds, Valid}
use socks.Server.Run.Handlers.{
  greeting-Holds, userpass-Holds, request-Holds, resolved-Holds, target-Holds, target_v4-Holds,
  choice_written-Holds, status_written-Holds, reply_written-Holds, reply_v4_written-Holds,
}

went_on-Valid :
    (w : World) (r : Option (Connection × Action))
    → Ensures (Holds w.sent w.local_endpoint w.joined) r
    → Ensures Valid (went_on w r)
went_on-Valid w r faults = faults
went_on-Valid w r (gives h) = gives h

event-Valid :
    (a : Action) (event : Event) (w : World)
    → Holds w.sent w.local_endpoint w.joined (w.connection, a)
    → Ensures Valid (on_event a event w)
unfolding on_event
event-Valid (read_greeting k) (was_read ec bytes) w (_, _, hs, hl) =
    went_on-Valid w _ (rw (hs, hl) (greeting-Holds w.joined (received w bytes) ec (length bytes)))
event-Valid (read_userpass k) (was_read ec bytes) w (_, _, hs, hl) =
    went_on-Valid w _ (rw (hs, hl) (userpass-Holds w.joined (received w bytes) ec (length bytes)))
event-Valid (read_request k) (was_read ec bytes) w (_, _, h, hl) =
    went_on-Valid w _ (rw hl (request-Holds w.sent w.joined (received w bytes) ec (length bytes) h))
event-Valid (write_choice bytes) (was_written ec) w (same, h, hs, hl) =
    gives (rw (same, hs, hl) (choice_written-Holds w.joined w.connection ec h))
event-Valid (write_status bytes) (was_written ec) w (same, hs, hl) =
    gives (rw (same, hs, hl) (status_written-Holds w.joined w.connection ec))
event-Valid (write_reply bytes) (was_written ec) w (same, h, replied, _) =
    went_on-Valid (wrote ec bytes w) _
      (reply_written-Holds w.sent w.local_endpoint w.joined w.connection ec bytes same h replied)
event-Valid (write_reply_v4 bytes) (was_written ec) w (same, hs, replied, _) =
    went_on-Valid (wrote ec bytes w) _
      (rw hs (reply_v4_written-Holds w.local_endpoint w.joined w.connection ec bytes same replied))
event-Valid (resolve name port) (was_resolved ec found) w (h, hl) =
    went_on-Valid w _ (rw hl (resolved-Holds w.sent w.joined w.connection ec found h))
event-Valid (connect_target ep) (was_connected ec local) w (_, h, hl) =
    went_on-Valid (connected ec local w) _ (rw hl (target-Holds w.sent local w.connection ec h))
event-Valid (connect_target_v4 ep) (was_connected ec local) w (_, hs, hl) =
    went_on-Valid (connected ec local w) _ (rw (hs, hl) (target_v4-Holds local w.connection ec))
event-Valid _ _ w h = faults

Step-Valid : {w w' : World} → Valid w → Step w w' → Valid w'
unfolding handle
Step-Valid {w} h (completes event _ run) = Ensures-result (event-Valid w.waits_for event w h) run

-- In every state that a connection can reach: a read waits for its message in a buffer of the size that its
-- condition counts with; a request is read only after exactly the messages of the negotiation; a
-- reply that grants a request waits to be written only if the target socket is connected; and the
-- relay runs only if the target socket is connected and the last message sent granted the request.
pub Reach-Valid : {w : World} → Reach w → Valid w
unfolding start create
Reach-Valid here = (refl, refl, refl, refl)
Reach-Valid (next r s) = Step-Valid (Reach-Valid r) s

pub waits_for-Holds :
    {w : World} {a : Action}
    → Reach w
    → w.waits_for ≡ a
    → Holds w.sent w.local_endpoint w.joined (w.connection, a)
waits_for-Holds {w} r e =
    subst (λ a. Holds w.sent w.local_endpoint w.joined (w.connection, a)) e (Reach-Valid r)

-- A connection that can be reached runs the relay only if the target socket is connected, and the messages
-- that it sent to the client are exactly: the choice of a method, the acceptance of the credentials if it
-- chose them, and a SOCKS5 reply that grants the request and names the local endpoint of the target
-- socket; or a SOCKS4 reply that grants the request, alone.
pub Reach-relay :
    {w : World}
    → Reach w
    → w.waits_for ≡ relay
    → (w.joined ≡ true)
      × (((bnd : Endpoint) × (earlier : List (List ℕ)) × (w.local_endpoint ≡ some bnd)
            × (w.sent ≡ granted_bytes bnd.address bnd.port ∷ earlier)
            × Negotiated earlier)
          ⊎ ((bytes : List ℕ) × (w.sent ≡ bytes ∷ [])
              × (get_or bytes 0 0 ≡ 4)
              × (get_or bytes 1 0 ≡ 90)))
Reach-relay r e = waits_for-Holds r e

-- A connection that can be reached waits to write a reply, over SOCKS5 or SOCKS4, only if its target socket
-- is open.
pub Reach-IsOpen :
    {w : World}
    → Reach w
    → (bytes : List ℕ) → (w.waits_for ≡ write_reply bytes) ⊎ (w.waits_for ≡ write_reply_v4 bytes)
    → IsOpen w.local_endpoint
Reach-IsOpen r bytes (inl e) = let (_, _, _, is_open) = waits_for-Holds r e in is_open
Reach-IsOpen r bytes (inr e) = let (_, _, _, is_open) = waits_for-Holds r e in is_open

condition_total :
    (a : Action) (c : Connection) (sent : List (List ℕ)) (local : Option Endpoint) (joined : Bool)
    → Holds sent local joined (c, a)
    → (ec : ErrorCode) (bytes : List ℕ) → length bytes ≤ length c.buffer
    → (v : ℕ) × (condition a (overlay bytes c.buffer) ec (length bytes) ≡ some v)
condition_total (read_greeting k) c sent local joined (_, size, _, _) ec bytes h =
    greeting_cond_total _ ec _ (length-overlay bytes c.buffer h ∙ size)
condition_total (read_userpass k) c sent local joined (_, size, _, _) ec bytes h =
    userpass_cond_total _ ec _ (length-overlay bytes c.buffer h ∙ size) (omega arith)
condition_total (read_request k) c sent local joined (_, size, _, _) ec bytes h =
    request_cond_total _ ec _ (length-overlay bytes c.buffer h ∙ size)
condition_total _ c sent local joined holds ec bytes h = (0, refl)

-- In every state that a connection can reach, with no more bytes received than the buffer holds, the
-- condition of the read that it waits for reads no byte outside the buffer, whatever was received and
-- whatever the error code is.
pub Reach-condition :
    {w : World}
    → Reach w
    → (ec : ErrorCode) (bytes : List ℕ) → length bytes ≤ length w.connection.buffer
    → (v : ℕ) × (condition w.waits_for (overlay bytes w.connection.buffer) ec (length bytes)
        ≡ some v)
Reach-condition {w} r =
    condition_total w.waits_for w.connection w.sent w.local_endpoint w.joined (Reach-Valid r)
