-- ===== src/Exchange/CompletesV4.antt =====
-- include/boost/socks/impl/connect_v4.hpp with example/server/async/socks_server_async.cpp: a SOCKS4 session whose
-- request's first two bytes arrive together.
use socks.Base.{
  ℕ, suc, ◌/◌, ◌%◌, ◌^◌, ◌<◌, ◌≡◌, refl, ◌∙◌, inl, inr, false, not, none, some, List, [], ◌∷◌, ◌++◌,
  length, replicate, take, drop, drop_all, take_all, All, arith, Bool-cases, if◌then◌else◌,
}
use socks.Base.Bits.{bit_and-byte}
use socks.Error.{no_error, failed, socks_code, is_eof, equals_succeeded}
use socks.Codes.{to_reply_code_v4}
use socks.Endpoint.{Address, v4, Endpoint, no_endpoint, IsByte}
use socks.Replies.{MakesV4}
use socks.Stream.Played.{as_bytes_lem}
use socks.V4.Request.Layout.{request_v4_bytes}
use socks.V4.Reply.{parse_reply_v4}
use socks.V4.Reply.Granted.{parse_reply_v4_shifted}
use socks.V4.Connect.{connect_v4}
use socks.V4.Connect.Session.{session_v4, connect_v4-session_v4}
use socks.Server.{read_greeting, write_reply_v4, connect_target_v4, relay, close}
use socks.Server.Greeting.{has}
use socks.Server.Request.{on_greeting, on_target_v4}
use socks.Server.Reply.{do_connect_reply_v4, on_reply_v4_written}
use socks.Server.Interop.{parse_socks_connect_v4_lem}
use socks.Server.Run.{
  World, was_read, was_written, was_connected, handle, on_event, accepted, create, start,
}
use socks.Server.Conditions.{resize-overlay}
use socks.Exchange.{Outside, exchange, settle}
use socks.Exchange.Stages.{settle-advance, settle-none}
use socks.Exchange.Session.{begun}
use socks.Exchange.Together.{take_in-request_v4_bytes}

-- The server's reply, for a target socket at an IPv4 endpoint.
abbrev pub answer_v4 : Outside → ℕ → ℕ → ℕ → ℕ → ℕ → List ℕ
answer_v4 o x y z w q =
    if failed o.connect_error
    then 4 ∷ 91 ∷ 0 ∷ 0 ∷ 0 ∷ 0 ∷ 0 ∷ 0 ∷ []
    else 4 ∷ 90 ∷ q / 256 ∷ q % 256 ∷ x ∷ y ∷ z ∷ w ∷ []

abbrev pub bound_to : Outside → ℕ → ℕ → ℕ → ℕ → ℕ → Outside
bound_to o x y z w q = record o { bound = record { address = v4 x y z w; port = q } }

module _ (o : Outside) (x y z w q : ℕ) (ep : Endpoint) where
  abbrev requested_v4 : List ℕ → World
  requested_v4 bytes = record {
    connection = record { buffer = bytes; server_choice = 0; target = ep };
    waits_for = connect_target_v4 ep;
    local_endpoint = none;
    sent = [];
    joined = false;
  }

  abbrev replying_v4 : World
  replying_v4 = record {
    connection = record { buffer = answer_v4 o x y z w q; server_choice = 0; target = ep };
    waits_for = write_reply_v4 (answer_v4 o x y z w q);
    local_endpoint = some (record { address = v4 x y z w; port = q });
    sent = [];
    joined = not (failed o.connect_error);
  }

  -- The server behind its answer: at the relay, or at the end of the connection.
  abbrev pub answered_v4 : World
  answered_v4 = record {
    connection = record { buffer = answer_v4 o x y z w q; server_choice = 0; target = ep };
    waits_for = if failed o.connect_error then close else relay;
    local_endpoint = some (record { address = v4 x y z w; port = q });
    sent = answer_v4 o x y z w q ∷ [];
    joined = not (failed o.connect_error);
  }

  connect_stage :
      (bytes : List ℕ)
      → q < 65536
      → handle
          (was_connected o.connect_error (some (record { address = v4 x y z w; port = q })))
          (requested_v4 bytes)
        ≡ some replying_v4
  unfolding handle on_event on_target_v4 do_connect_reply_v4
  connect_stage bytes valid = elim (Bool-cases (failed o.connect_error)) [
    | inl e ↦ rw e refl
    | inr e ↦ rw (e, bit_and-byte (q / 2 ^ 8), bit_and-byte q) (ground arith)
  ]

  reply_stage : handle (was_written no_error) replying_v4 ≡ some answered_v4
  unfolding handle on_event on_reply_v4_written failed
  reply_stage = elim (Bool-cases (failed o.connect_error)) [ inl e ↦ rw e refl | inr e ↦ rw e refl ]

  parse_reply_v4-answer :
      (mk : ℕ → Address)
      → MakesV4 mk
      → q < 65536
      → All IsByte (x ∷ y ∷ z ∷ w ∷ [])
      → parse_reply_v4 mk 8 (answer_v4 o x y z w q)
        ≡ some (
          if failed o.connect_error
              then no_endpoint
              else record { address = v4 (q % 256) x y z; port = q },
          socks_code (if failed o.connect_error then 91 else 90),
        )
  unfolding parse_reply_v4 to_reply_code_v4 equals_succeeded
  parse_reply_v4-answer mk m valid octets = elim (Bool-cases (failed o.connect_error)) [
    | inl e ↦ rw e refl
    | inr e ↦ rw e (parse_reply_v4_shifted mk m 4 q x y z w [] (inr refl) valid octets)
  ]

  answer_v4-IsByte :
      q < 65536 → All IsByte (x ∷ y ∷ z ∷ w ∷ []) → All IsByte (answer_v4 o x y z w q)
  answer_v4-IsByte valid octets = elim (Bool-cases (failed o.connect_error)) [
    | inl e ↦ rw e (omega arith)
    | inr e ↦ rw e (omega arith)
  ]

  answer_v4-length : length (answer_v4 o x y z w q) ≡ 8
  answer_v4-length = elim (Bool-cases (failed o.connect_error)) [
    | inl e ↦ rw e refl
    | inr e ↦ rw e refl
  ]

module _ (o : Outside) (more : ℕ) (port a b c d : ℕ) (user : List ℕ) (x y z w q : ℕ)
    (together : o.server_pace (read_greeting 258) 0 ≡ suc more) (valid : port < 65536)
    (no_nul : has 0 user ≡ false) (hq : q < 65536) where
  abbrev to : Endpoint
  to = record { address = v4 a b c d; port = port }

  -- The part of the request that the buffer holds, and what is left of it.
  abbrev held : List ℕ
  held = take 258 (request_v4_bytes port a b c d user)

  abbrev left : List ℕ
  left = drop 258 (request_v4_bytes port a b c d user)

  read_stage : handle (was_read no_error held) accepted ≡ some (requested_v4 o x y z w q to held)
  unfolding handle on_event on_greeting create start failed
  read_stage =
      rw
        (
          resize-overlay held (replicate 258 0),
          parse_socks_connect_v4_lem none create port a b c d (take 250 (user ++ 0 ∷ [])) valid,
        )
        refl

  settle-request_v4_bytes :
      settle (bound_to o x y z w q) 4 (accepted, request_v4_bytes port a b c d user, [])
      ≡ (answered_v4 o x y z w q to, left, answer_v4 o x y z w q)
  unfolding create start
  settle-request_v4_bytes =
      let bytes : List ℕ = request_v4_bytes port a b c d user in
      let here = bound_to o x y z w q in
      settle-advance here 3 (accepted, bytes, []) (requested_v4 o x y z w q to held, left, [])
        (rw
          (take_in-request_v4_bytes (port / 256) (port % 256) a b c d user no_nul
            (o.server_pace (read_greeting 258)) more together)
          (rw read_stage refl))
      ∙ settle-advance here 2 (requested_v4 o x y z w q to held, left, [])
          (replying_v4 o x y z w q to, left, []) (rw (connect_stage o x y z w q to held hq) refl)
      ∙ settle-advance here 1 (replying_v4 o x y z w q to, left, [])
          (answered_v4 o x y z w q to, left, answer_v4 o x y z w q)
          (rw (reply_stage o x y z w q to) refl)
      ∙ settle-none here 1 (answered_v4 o x y z w q to, left, answer_v4 o x y z w q)
          (elim (Bool-cases (failed o.connect_error)) [ inl e ↦ rw e refl | inr e ↦ rw e refl ])

-- Between the client and the example server, with a network that loses nothing, that delivers the first two bytes of the
-- client's message together and the others in any parts, a target's side that answers the connection with any
-- error code and with a valid IPv4 endpoint, a `make_address_v4` that gives the address of a number, an
-- IPv4 endpoint with a valid port, and a user of any length without a 0: the server reads the first 258
-- bytes of the request, or all of it if it is shorter, and what it has not read of the request is left to
-- the relay; it connects to the client's endpoint, sends one reply, and runs the relay or, if that
-- connection failed, closes. `connect_v4` returns the code 90 with the target socket's port, but an
-- address that begins with the low byte of the port and lacks its last byte; or, if the connection failed,
-- the code 91 and no endpoint. No byte is left unread on the client's side.
pub connect_v4-together :
    (o : Outside) (more : ℕ) (mk : ℕ → Address) (port a b c d : ℕ) (user : List ℕ) (x y z w q : ℕ)
    → o.server_pace (read_greeting 258) 0 ≡ suc more
    → MakesV4 mk
    → port < 65536
    → has 0 user ≡ false
    → All IsByte (x ∷ y ∷ z ∷ w ∷ [])
    → q < 65536
    → let ep : Endpoint = record { address = v4 a b c d; port = port } in
      connect_v4 (exchange (bound_to o x y z w q)) mk begun ep user
      ≡ some (
        (answered_v4 o x y z w q ep, drop 258 (request_v4_bytes port a b c d user), []),
        if failed o.connect_error
            then no_endpoint
            else record { address = v4 (q % 256) x y z; port = q },
        socks_code (if failed o.connect_error then 91 else 90),
      )
unfolding session_v4 failed is_eof
connect_v4-together o more mk port a b c d user x y z w q e m valid no_nul octets hq =
    let ep : Endpoint = record { address = v4 a b c d; port = port } in
    let here = bound_to o x y z w q in
    let answer : List ℕ = answer_v4 o x y z w q in
    let size : length answer ≡ 8 = answer_v4-length o x y z w q ep in
    connect_v4-session_v4 (exchange here) mk begun port a b c d user valid
    ∙ rw
        (
          settle-request_v4_bytes o more port a b c d user x y z w q e valid no_nul hq,
          size,
          drop_all 8 answer (omega arith),
          take_all 8 answer (omega arith),
          as_bytes_lem answer (answer_v4-IsByte o x y z w q ep hq octets),
          size,
          parse_reply_v4-answer o x y z w q ep mk m hq octets,
        )
        refl
