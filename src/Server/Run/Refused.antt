-- ===== src/Server/Run/Refused.antt =====
-- example/server/async/socks_server_async.cpp: requests that are refused before the target socket is open.
use socks.Base.{
  ◌⊎◌, inl, inr, ℕ, suc, ◌≤◌, ◌≡◌, refl, true, drop, ◌++◌, none, some, List, ◌∷◌, length, arith,
}
use socks.Base.Memory.{overlay, length-overlay}
use socks.Error.{ErrorCode, no_error, failed}
use socks.Endpoint.{Endpoint}
use socks.Server.{
  Connection, read_greeting, read_request, resolve, connect_target, connect_target_v4,
}
use socks.Server.Greeting.{greeting_cond}
use socks.Server.Request.{
  request_cond, on_greeting, on_request, on_resolved, parse_socks_connect, parse_socks_connect_v4,
}
use socks.Server.Reply.{do_connect_reply, do_connect_reply_v4}
use socks.Server.Conditions.{resize-overlay}
use socks.Server.Run.{
  World, Event, was_read, was_resolved, was_connected, condition, handle, on_event, Reach,
}
use socks.Server.Run.Completions.{target_throws, target_v4_throws}
use socks.Server.Run.Reached.{waits_for-Holds}

-- A request for another command than CONNECT, over SOCKS4 or SOCKS5, the failure of the resolver, and a connection to the
-- target for which no socket could be opened.
pub data Refused (w : World) : Event → Type 0 where
  command_v4 :
      (k cmd : ℕ) (rest : List ℕ)
      → w.waits_for ≡ read_greeting k
      → ¬ (cmd ≡ 1)
      → length rest ≤ 256
      → Refused w (was_read no_error (4 ∷ cmd ∷ rest))
  command_v5 :
      (k cmd : ℕ) (rest : List ℕ)
      → w.waits_for ≡ read_request k
      → ¬ (cmd ≡ 1)
      → length rest ≤ 261
      → Refused w (was_read no_error (5 ∷ cmd ∷ rest))
  unresolved :
      (name : List ℕ) (port : ℕ) (ec : ErrorCode) (found : Endpoint)
      → w.waits_for ≡ resolve name port
      → failed ec ≡ true
      → Refused w (was_resolved ec found)
  unopened :
      (ep : Endpoint) (ec : ErrorCode)
      → (w.waits_for ≡ connect_target ep) ⊎ (w.waits_for ≡ connect_target_v4 ep)
      → failed ec ≡ true
      → Refused w (was_connected ec none)

-- The operation is over: a read is, when its condition asks for no more bytes.
abbrev pub IsOver : World → Event → Type 0
IsOver w (was_read ec bytes) =
    condition w.waits_for (overlay bytes w.connection.buffer) ec (length bytes) ≡ some 0
IsOver w _ = Unit

parse_v4_refused :
    (c : Connection) (cmd : ℕ) (rest : List ℕ)
    → ¬ (cmd ≡ 1)
    → parse_socks_connect_v4 none (record c { buffer = 4 ∷ cmd ∷ rest }) ≡ none
unfolding parse_socks_connect_v4 do_connect_reply_v4
parse_v4_refused c cmd rest h = ground arith

parse_refused :
    (c : Connection) (cmd : ℕ) (rest : List ℕ)
    → ¬ (cmd ≡ 1)
    → parse_socks_connect none (record c { buffer = 5 ∷ cmd ∷ rest }) ≡ none
unfolding parse_socks_connect do_connect_reply
parse_refused c cmd rest h = ground arith

greeting_refused :
    (c : Connection) (cmd : ℕ) (rest : List ℕ)
    → ¬ (cmd ≡ 1)
    → let bytes : List ℕ = 4 ∷ cmd ∷ rest in
      on_greeting none no_error (length bytes) (record c { buffer = overlay bytes c.buffer }) ≡ none
unfolding on_greeting failed
greeting_refused c cmd rest h =
    rw (resize-overlay (4 ∷ cmd ∷ rest) c.buffer, parse_v4_refused c cmd rest h) refl

request_refused :
    (c : Connection) (cmd : ℕ) (rest : List ℕ)
    → ¬ (cmd ≡ 1)
    → let bytes : List ℕ = 5 ∷ cmd ∷ rest in
      on_request none no_error (length bytes) (record c { buffer = overlay bytes c.buffer }) ≡ none
unfolding on_request failed
request_refused c cmd rest h =
    rw (resize-overlay (5 ∷ cmd ∷ rest) c.buffer, parse_refused c cmd rest h) refl

resolve_refused :
    (c : Connection) (ec : ErrorCode) (found : Endpoint)
    → failed ec ≡ true
    → on_resolved none ec found c ≡ none
unfolding on_resolved do_connect_reply
resolve_refused c ec found f = rw f refl

greeting_over :
    (c : Connection) (cmd : ℕ) (rest : List ℕ)
    → ¬ (cmd ≡ 1)
    → let bytes : List ℕ = 4 ∷ cmd ∷ rest in
      greeting_cond (overlay bytes c.buffer) no_error (length bytes) ≡ some 0
unfolding greeting_cond failed
greeting_over c cmd rest h = ground arith

other_over :
    (cmd n : ℕ) (tail : List ℕ)
    → ¬ (cmd ≡ 1)
    → 3 ≤ length tail
    → request_cond (5 ∷ cmd ∷ tail) no_error (suc (suc n)) ≡ some 0
unfolding request_cond failed
other_over cmd n (b2 ∷ b3 ∷ b4 ∷ tail) h l = ground arith
other_over cmd n _ h l = absurd (omega arith)

request_over :
    (c : Connection) (cmd : ℕ) (rest : List ℕ)
    → ¬ (cmd ≡ 1)
    → length rest ≤ 261
    → length c.buffer ≡ 263
    → let bytes : List ℕ = 5 ∷ cmd ∷ rest in
      request_cond (overlay bytes c.buffer) no_error (length bytes) ≡ some 0
request_over c cmd rest h short size =
    let bytes : List ℕ = 5 ∷ cmd ∷ rest in
    other_over cmd (length rest) (rest ++ drop (length bytes) c.buffer) h
      (omega (arith, length-overlay bytes c.buffer))

-- In every state that a connection can reach, once a request for another command than CONNECT has been read, no longer
-- than the buffer, or the resolver has failed, or no socket could be opened: the operation is over, and its handler throws before
-- anything is answered.
pub Reach-Refused :
    {w : World} {event : Event}
    → Reach w
    → Refused w event
    → IsOver w event × (handle event w ≡ none)
unfolding handle on_event
Reach-Refused {w} r (command_v4 k cmd rest e h short) =
    let (_, size, _, closed) = waits_for-Holds r e in
    (
      rw e (greeting_over w.connection cmd rest h),
      rw (e, closed) (rw (greeting_refused w.connection cmd rest h) refl),
    )
Reach-Refused {w} r (command_v5 k cmd rest e h short) =
    let (_, size, _, closed) = waits_for-Holds r e in
    (
      rw e (request_over w.connection cmd rest h short size),
      rw (e, closed) (rw (request_refused w.connection cmd rest h) refl),
    )
Reach-Refused {w} r (unresolved name port ec found e f) =
    let (_, closed) = waits_for-Holds r e in
    (tt, rw (e, closed) (rw (resolve_refused w.connection ec found f) refl))
Reach-Refused {w} r (unopened ep ec (inl e) f) =
    let (_, _, closed) = waits_for-Holds r e in
    (tt, rw (e, closed) (rw (target_throws ec w.connection) refl))
Reach-Refused {w} r (unopened ep ec (inr e) f) =
    let (_, _, closed) = waits_for-Holds r e in
    (tt, rw (e, closed) (rw (target_v4_throws ec w.connection) refl))
