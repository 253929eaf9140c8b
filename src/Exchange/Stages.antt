-- ===== src/Exchange/Stages.antt =====
-- example/server/async/socks_server_async.cpp: each operation of the server in the session of the client.
use socks.Base.{
  ℕ, zero, suc, ◌≡◌, refl, ◌∙◌, true, false, not, none, some, List, [], ◌∷◌, length, Bool-cases,
  inl, inr, if◌then◌else◌,
}
use socks.Error.{no_error, failed}
use socks.Endpoint.{Endpoint, host, named, DomainEndpoint, IsTarget, IsEndpoint}
use socks.Requests.Layout.{request_bytes}
use socks.Replies.Accept.{reply_bytes}
use socks.Server.{
  Connection, write_reply, read_request, connect_target, resolve, relay, close, thrown,
}
use socks.Server.Request.{on_request, on_resolved, on_target, do_target_connect}
use socks.Server.Reply.{do_connect_reply, on_reply_written}
use socks.Server.Interop.{
  reply-bytes, parse_socks_connect-request_bytes_host, parse_socks_connect-request_bytes_named,
}
use socks.Server.Run.{World, was_read, was_written, was_resolved, was_connected, handle, on_event}
use socks.Server.Conditions.{resize-overlay}
use socks.Exchange.{Outside, settle, advance, Both}
use socks.Exchange.Whole.{take_in-request_bytes}

-- The server before the request, after it, and at the relay.
abbrev pub waiting : Connection → List (List ℕ) → World
waiting c sent = record {
  connection = c;
  waits_for = read_request 263;
  local_endpoint = none;
  sent = sent;
  joined = false;
}

abbrev requested : Connection → List (List ℕ) → List ℕ → Endpoint → World
requested c sent bytes to = record {
  connection = record c { buffer = bytes; target = to };
  waits_for = connect_target to;
  local_endpoint = none;
  sent = sent;
  joined = false;
}

-- What the server answers to a request: that it is granted, or that the host was not reached.
abbrev pub refused_bytes : List ℕ
refused_bytes = 5 ∷ 4 ∷ 0 ∷ 1 ∷ 0 ∷ 0 ∷ 0 ∷ 0 ∷ 0 ∷ 0 ∷ []

abbrev pub answer : Outside → List ℕ
answer o = if failed o.connect_error then refused_bytes else reply_bytes 0 o.bound

abbrev pub replying : Connection → List (List ℕ) → Endpoint → Outside → World
replying c sent to o = record {
  connection = record c { buffer = answer o; target = to };
  waits_for = write_reply (answer o);
  local_endpoint = some o.bound;
  sent = sent;
  joined = not (failed o.connect_error);
}

-- The server behind its answer: at the relay, or at the end of the connection.
abbrev pub answered : Connection → List (List ℕ) → Endpoint → Outside → World
answered c sent to o = record {
  connection = record c { buffer = answer o; target = to };
  waits_for = if failed o.connect_error then close else relay;
  local_endpoint = some o.bound;
  sent = answer o ∷ sent;
  joined = not (failed o.connect_error);
}

abbrev pub resolving : Connection → List (List ℕ) → DomainEndpoint → World
resolving c sent d = record {
  connection = record c { buffer = request_bytes (named d) };
  waits_for = resolve d.domain d.port;
  local_endpoint = none;
  sent = sent;
  joined = false;
}

-- The process is over while it had the name resolved.
abbrev pub threw : Connection → List (List ℕ) → DomainEndpoint → World
threw c sent d = record (resolving c sent d) { waits_for = thrown }

named_stage :
    (c : Connection) (sent : List (List ℕ)) (d : DomainEndpoint)
    → IsTarget (named d)
    → handle (was_read no_error (request_bytes (named d))) (waiting c sent)
      ≡ some (resolving c sent d)
unfolding handle on_event on_request failed
named_stage c sent d h =
    rw
      (
        resize-overlay (request_bytes (named d)) c.buffer,
        parse_socks_connect-request_bytes_named none c d h,
      )
      refl

resolve_stage :
    (c : Connection) (sent : List (List ℕ)) (d : DomainEndpoint) (o : Outside)
    → failed o.resolve_error ≡ false
    → handle (was_resolved o.resolve_error o.found) (resolving c sent d)
      ≡ some (requested c sent (request_bytes (named d)) o.found)
unfolding handle on_event on_resolved do_target_connect
resolve_stage c sent d o f = rw f refl

throws_stage :
    (c : Connection) (sent : List (List ℕ)) (d : DomainEndpoint) (o : Outside)
    → failed o.resolve_error ≡ true
    → handle (was_resolved o.resolve_error o.found) (resolving c sent d) ≡ none
unfolding handle on_event on_resolved do_connect_reply
throws_stage c sent d o f = rw f refl

pub request_stage :
    (c : Connection) (sent : List (List ℕ)) (ep : Endpoint)
    → IsEndpoint ep
    → handle (was_read no_error (request_bytes (host ep))) (waiting c sent)
      ≡ some (requested c sent (request_bytes (host ep)) ep)
unfolding handle on_event on_request failed
request_stage c sent ep h =
    rw
      (
        resize-overlay (request_bytes (host ep)) c.buffer,
        parse_socks_connect-request_bytes_host none c ep h,
      )
      refl

-- What follows the connection to the target, however that ends.
module _ (o : Outside) (c : Connection) (sent : List (List ℕ)) (to : Endpoint) where
  pub connect_stage :
      (bytes : List ℕ)
      → IsEndpoint o.bound
      → handle (was_connected o.connect_error (some o.bound)) (requested c sent bytes to)
        ≡ some (replying c sent to o)
  unfolding handle on_event on_target do_connect_reply
  connect_stage bytes h = elim (Bool-cases (failed o.connect_error)) [
    | inl e ↦ rw e refl
    | inr e ↦ rw (e, reply-bytes o.bound.address o.bound.port h.1) refl
  ]

  pub reply_stage :
      handle (was_written no_error) (replying c sent to o) ≡ some (answered c sent to o)
  unfolding handle on_event on_reply_written failed
  reply_stage = elim (Bool-cases (failed o.connect_error)) [ inl e ↦ rw e refl | inr e ↦ rw e refl ]

pub settle-advance :
    (o : Outside) (n : ℕ) (b b' : Both o)
    → advance o b ≡ some b'
    → settle o (suc n) b ≡ settle o n b'
unfolding settle
settle-advance o n b b' e = rw (e, settle) refl

pub settle-none : (o : Outside) (n : ℕ) (b : Both o) → advance o b ≡ none → settle o n b ≡ b
unfolding settle
settle-none o zero b e = refl
settle-none o (suc n) b e = rw (e, settle) refl

-- The request runs the server to its answer.
module _ (o : Outside) (h : IsEndpoint o.bound) (c : Connection) (sent : List (List ℕ))
    (size : length c.buffer ≡ 263) where
  answered-ends : (to : Endpoint) → advance o (answered c sent to o, [], answer o) ≡ none
  answered-ends to = elim (Bool-cases (failed o.connect_error)) [
    | inl e ↦ rw e refl
    | inr e ↦ rw e refl
  ]

  from_request :
      (n : ℕ) (bytes : List ℕ) (to : Endpoint)
      → settle o (suc (suc n)) (requested c sent bytes to, [], [])
        ≡ (answered c sent to o, [], answer o)
  from_request n bytes to =
      settle-advance o (suc n) (requested c sent bytes to, [], []) (replying c sent to o, [], [])
        (rw (connect_stage o c sent to bytes h) refl)
      ∙ settle-advance o n (replying c sent to o, [], []) (answered c sent to o, [], answer o)
          (rw (reply_stage o c sent to) refl)
      ∙ settle-none o n (answered c sent to o, [], answer o) (answered-ends to)

  pub settle-host :
      (ep : Endpoint)
      → IsEndpoint ep
      → settle o 4 (waiting c sent, request_bytes (host ep), [])
        ≡ (answered c sent ep o, [], answer o)
  settle-host ep k =
      settle-advance o 3 (waiting c sent, request_bytes (host ep), [])
        (requested c sent (request_bytes (host ep)) ep, [], [])
        (rw (take_in-request_bytes (host ep) c.buffer k size (o.server_pace (read_request 263)))
          (rw (request_stage c sent ep k) refl))
      ∙ from_request 1 (request_bytes (host ep)) ep

  -- The name is looked up first: where that fails, the target socket has no local endpoint, and the server throws.
  pub settle-named :
      (d : DomainEndpoint)
      → IsTarget (named d)
      → failed o.resolve_error ≡ false
      → settle o 4 (waiting c sent, request_bytes (named d), [])
        ≡ (answered c sent o.found o, [], answer o)
  settle-named d k f =
      settle-advance o 3 (waiting c sent, request_bytes (named d), []) (resolving c sent d, [], [])
        (rw (take_in-request_bytes (named d) c.buffer k size (o.server_pace (read_request 263)))
          (rw (named_stage c sent d k) refl))
      ∙ settle-advance o 2 (resolving c sent d, [], [])
          (requested c sent (request_bytes (named d)) o.found, [], [])
          (rw (resolve_stage c sent d o f) refl)
      ∙ from_request 0 (request_bytes (named d)) o.found

  pub settle-unresolved :
      (d : DomainEndpoint)
      → IsTarget (named d)
      → failed o.resolve_error ≡ true
      → settle o 4 (waiting c sent, request_bytes (named d), []) ≡ (threw c sent d, [], [])
  settle-unresolved d k f =
      settle-advance o 3 (waiting c sent, request_bytes (named d), []) (resolving c sent d, [], [])
        (rw (take_in-request_bytes (named d) c.buffer k size (o.server_pace (read_request 263)))
          (rw (named_stage c sent d k) refl))
      ∙ settle-advance o 2 (resolving c sent d, [], []) (threw c sent d, [], [])
          (rw (throws_stage c sent d o f) refl)
      ∙ settle-none o 2 (threw c sent d, [], []) refl
