-- ===== src/Connect/Session/Refines.antt =====
-- include/boost/socks/impl/connect.hpp: the synchronous `connect`, with its buffer, against the session.
use socks.Base.{
  ℕ, ◌≡◌, refl, ap, ◌∙◌, not, ◌&&◌, inl, inr, Option, some, List, length, take-append, drop, ◌!=◌,
  if◌then◌else◌, Bool-cases, arith,
}
use mathlib.Core.Path.{fun_ext}
use socks.Base.Memory.{overlay}
use socks.Base.Access.{◌>>=◌}
use socks.Error.{ErrorCode, failed, is_eof, make_error_code, bad_reply_size}
use socks.Endpoint.{
  Address, Endpoint, no_endpoint, Target, host, named, AuthOptions, IsTarget, FitsRequest, code,
}
use socks.Requests.Layout.{request_bytes}
use socks.Replies.{read_reply_cond, parse_reply_v5}
use socks.Replies.Frame.{parse_reply_v5-append, parse_reply_v5-Outcome}
use socks.Stream.{SyncStream, IsLawful}
use socks.Connect.{Io, write_connect_request, read_connect_reply, connect_host, connect_domain}
use socks.Connect.Session.{
  readable, session_auth, session_condition, session_reply, session_request, session,
}
use socks.Connect.Session.Messages.{
  condition-overlay, bind_assoc, not-readable, either, request_ready,
}
use socks.Connect.Session.Negotiates.{authenticate-Ends}

module _ (S : SyncStream) (law : IsLawful S) where
  open S use {State, write, read, read_cond}

  -- The request is written whole, and the reply read as its own bytes.
  module _ (mk : ℕ → Address) where
    read_connect_reply_lem :
        (s : State) (buf : List ℕ) (ec : ErrorCode)
        → (do
          (got, ep) ← read_connect_reply S mk 513 (record { stream = s; buffer = buf; ec = ec })
          some (got.stream, ep, got.ec))
          ≡ session_reply S mk s
    unfolding read_connect_reply session_reply
    read_connect_reply_lem s buf ec =
        let (s1, answer, e1) = read_cond s 22 session_condition in
        rw (fun_ext (λ got. fun_ext (condition-overlay buf got)), not-readable e1)
          (elim (Bool-cases (readable e1)) [
            | inr r ↦ rw r refl
            | inl r ↦ elim (Bool-cases (length answer != 10 && length answer != 22)) [
              | inl n ↦ rw (r, n) refl
              | inr n ↦
                  rw
                    (
                      r,
                      n,
                      parse_reply_v5-append mk answer (drop (length answer) buf) (ground arith),
                    )
                    (bind_assoc (parse_reply_v5 mk (length answer) answer) _ _)
            ]
          ])

    -- With the request written, what is left of the two functions.
    request_lem :
        (t : Target) (s : State) (buf : List ℕ) (ec : ErrorCode)
        → IsTarget t
        → length buf ≡ 513
        → (do
          (sent, _) ← write_connect_request S 513 t (record { stream = s; buffer = buf; ec = ec })
          if failed sent.ec
              then some (sent.stream, no_endpoint, sent.ec)
              else do (got, ep) ← read_connect_reply S mk 513 sent; some (got.stream, ep, got.ec))
          ≡ session_request S mk s t
    unfolding write_connect_request session_request
    request_lem t s buf ec valid h =
        let rb : List ℕ = request_bytes t in
        rw (request_ready t buf valid h, take-append rb (drop (length rb) buf))
          (elim (Bool-cases (failed (write s rb).1)) [
            | inl e ↦ rw e refl
            | inr e ↦ rw e (read_connect_reply_lem (write s rb).0 (overlay rb buf) (write s rb).1)
          ])

    -- On a lawful stream, with a valid endpoint, credentials of at most 255 bytes each and a buffer of 513
    -- bytes that held anything, `connect` to an endpoint gives what the session gives.
    pub connect_host-session :
        (ep : Endpoint) (opt : AuthOptions) (s : State) (buf : List ℕ) (ec : ErrorCode)
        → IsTarget (host ep)
        → FitsRequest opt
        → length buf ≡ 513
        → connect_host S mk buf s ep opt ec ≡ session S mk s (host ep) opt
    unfolding connect_host session
    connect_host-session ep opt s buf ec valid fits h =
        let (io, c, run, at, code, whole) = authenticate-Ends S law opt s buf ec fits h in
        rw (run, code, at)
          (elim (Bool-cases (failed (session_auth S s opt).1)) [
            | inl e ↦ rw e refl
            | inr e ↦ rw e (
                request_lem (host ep) io.stream io.buffer io.ec valid whole
                ∙ ap (λ s1. session_request S mk s1 (host ep)) at)
          ])

    -- The check that `connect` to a name makes last changes nothing.
    last_check :
        (io : Io State)
        → let checked_reply : Option (State × Endpoint × ErrorCode) = (do
          (got, ep) ← read_connect_reply S mk 513 io
          if failed got.ec
              then some (got.stream, no_endpoint, got.ec)
              else some (got.stream, ep, got.ec)) in
          let plain_reply : Option (State × Endpoint × ErrorCode) = (do
            (got, ep) ← read_connect_reply S mk 513 io
            some (got.stream, ep, got.ec)) in
          checked_reply ≡ plain_reply
    unfolding read_connect_reply
    last_check io =
        let (s1, answer, e1) =
          read_cond io.stream 22
            (λ got e. read_reply_cond (overlay got io.buffer) e (length got)) in
        elim (Bool-cases (failed e1 && not (is_eof e1))) [
          | inl r ↦ rw r (either (failed e1))
          | inr r ↦ elim (Bool-cases (length answer != 10 && length answer != 22)) [
            | inl n ↦ rw (r, n) (either (failed (make_error_code bad_reply_size)))
            | inr n ↦
                let (ep, ec, e, refused) = parse_reply_v5-Outcome mk answer (ground arith) in
                rw
                  (
                    r,
                    n,
                    parse_reply_v5-append mk answer (drop (length answer) io.buffer) (ground arith),
                    e,
                  )
                  (elim (Bool-cases (failed ec)) [
                    | inl f ↦ rw (f, refused f) refl
                    | inr f ↦ rw f refl
                  ])
          ]
        ]

    -- On a lawful stream, with a name of at most 255 bytes, credentials of at most 255 bytes each and a
    -- buffer of 513 bytes that held anything, `connect` to a name gives what the session gives.
    pub connect_domain-session :
        (name : List ℕ) (port : ℕ) (opt : AuthOptions) (s : State) (buf : List ℕ) (ec : ErrorCode)
        → IsTarget (named (record { domain = name; port = port }))
        → FitsRequest opt
        → length buf ≡ 513
        → connect_domain S mk buf s name port opt ec
          ≡ session S mk s (named (record { domain = name; port = port })) opt
    unfolding connect_domain session
    connect_domain-session name port opt s buf ec valid fits h =
        let t : Target = named (record { domain = name; port = port }) in
        let (io, c, run, at, code, whole) = authenticate-Ends S law opt s buf ec fits h in
        rw (run, code, at)
          (elim (Bool-cases (failed (session_auth S s opt).1)) [
            | inl e ↦ rw e refl
            | inr e ↦ rw e (
                simp last_check (
                  request_lem t io.stream io.buffer io.ec valid whole
                  ∙ ap (λ s1. session_request S mk s1 t) at))
          ])
