-- ===== src/V4/Connect/Session.antt =====
-- include/boost/socks/impl/connect_v4.hpp: the SOCKS4 session as an exchange of messages, with no buffer,
-- against `connect_v4` and `connect_v4_op`.
use socks.Base.{
  ℕ, ◌+◌, ◌<◌, ◌≡◌, refl, ap, ◌∙◌, inl, inr, true, not, ◌&&◌, Option, some, List, [], ◌∷◌, ◌++◌,
  length, length-append, length-replicate, drop, drop_all, take_all, append-nil, replicate, ◌==◌,
  ◌!=◌, ==_iff, if◌then◌else◌, Bool-cases, Option-cases, arith,
}
use socks.Base.Access.{◌>>=◌}
use socks.Error.{ErrorCode, make_error_code, failed, is_eof, bad_reply_size}
use socks.Endpoint.{Address, v4, Endpoint, no_endpoint}
use socks.Stream.{SyncStream}
use socks.V4.Request.{prepare_request_v4}
use socks.V4.Request.Layout.{request_v4_bytes, prepare_request_v4-Emits}
use socks.V4.Reply.{parse_reply_v4}
use socks.V4.Connect.{new_op, on_reply, resume, connect_v4, act, run, async_connect_v4}

-- A buffer of the request's size holds the request and nothing else.
request_v4_ready :
    (port a b c d : ℕ) (user : List ℕ)
    → port < 65536
    → prepare_request_v4
        (9 + length user)
        (record { address = v4 a b c d; port = port })
        user
        (replicate (9 + length user) 0)
      ≡ some (9 + length user, request_v4_bytes port a b c d user)
request_v4_ready port a b c d user h =
    let bytes : List ℕ = request_v4_bytes port a b c d user in
    let buf : List ℕ = replicate (9 + length user) 0 in
    let zeros : length buf ≡ 9 + length user = length-replicate (9 + length user) 0 in
    let size : length bytes ≡ 9 + length user = omega (arith, length-append user (0 ∷ [])) in
    (prepare_request_v4-Emits (9 + length user) port a b c d user h (omega arith)).run buf
      (omega arith)
    ∙ ap (λ l. some (9 + length user, bytes ++ l)) (drop_all (length bytes) buf (omega arith))
    ∙ rw append-nil refl

-- A reply of 8 bytes is read alike in the buffer and alone.
parse_reply_v4-append :
    (mk : ℕ → Address) (answer rest : List ℕ)
    → length answer ≡ 8
    → parse_reply_v4 mk (length answer) (answer ++ rest) ≡ parse_reply_v4 mk (length answer) answer
unfolding parse_reply_v4
parse_reply_v4-append mk (x0 ∷ x1 ∷ x2 ∷ x3 ∷ x4 ∷ x5 ∷ x6 ∷ x7 ∷ []) rest e = refl
parse_reply_v4-append mk _ rest e = absurd (omega arith)

module _ (S : SyncStream) (mk : ℕ → Address) where
  open S use {State, write, read}

  unfoldable pub session_v4 :
      State → ℕ → ℕ → ℕ → ℕ → ℕ → List ℕ → Option (State × Endpoint × ErrorCode)
  session_v4 s port a b c d user =
      let (s1, e1) = write s (request_v4_bytes port a b c d user) in
      let (s2, answer, e2) = read s1 8 in
      if failed e1
      then some (s1, no_endpoint, e1)
      else if failed e2 && not (is_eof e2)
      then some (s2, no_endpoint, e2)
      else if length answer != 8
      then some (s2, no_endpoint, make_error_code bad_reply_size)
      else do (ep, ec) ← parse_reply_v4 mk (length answer) answer; some (s2, ep, ec)

  -- With an IPv4 target and a valid port `connect_v4` gives what the session gives, on every stream.
  pub connect_v4-session_v4 :
      (s : State) (port a b c d : ℕ) (user : List ℕ)
      → port < 65536
      → connect_v4 S mk s (record { address = v4 a b c d; port = port }) user
        ≡ session_v4 s port a b c d user
  unfolding connect_v4 session_v4
  connect_v4-session_v4 s port a b c d user h =
      let bytes : List ℕ = request_v4_bytes port a b c d user in
      let size : length bytes ≡ 9 + length user = omega (arith, length-append user (0 ∷ [])) in
      let exact : (9 + length user == length bytes) ≡ true = (==_iff _ _).1 (omega arith) in
      rw
        (
          request_v4_ready port a b c d user h,
          exact,
          take_all (9 + length user) bytes (omega arith),
        )
        (elim (Bool-cases (failed (write s bytes).1)) [
          | inl e ↦ rw e refl
          | inr e ↦
              let (s2, answer, e2) = read (write s bytes).0 8 in
              elim (Bool-cases (failed e2 && not (is_eof e2))) [
                | inl r ↦ rw (e, r) refl
                | inr r ↦ elim (Bool-cases (length answer != 8)) [
                  | inl n ↦ rw (e, r, n) refl
                  | inr n ↦
                      rw
                        (
                          e,
                          r,
                          n,
                          parse_reply_v4-append mk answer (drop (length answer) bytes)
                              (ground arith),
                        )
                        refl
                ]
              ]
        ])

  -- With an IPv4 target and a valid port the asynchronous operation is completed within two actions and
  -- gives what the session gives, on every stream.
  pub async_connect_v4-session_v4 :
      (s : State) (port a b c d : ℕ) (user : List ℕ)
      → port < 65536
      → async_connect_v4 S mk s (record { address = v4 a b c d; port = port }) user
        ≡ session_v4 s port a b c d user
  unfolding async_connect_v4 new_op resume run act on_reply session_v4
  async_connect_v4-session_v4 s port a b c d user h =
      let bytes : List ℕ = request_v4_bytes port a b c d user in
      let size : length bytes ≡ 9 + length user = omega (arith, length-append user (0 ∷ [])) in
      let exact : (9 + length user == length bytes) ≡ true = (==_iff _ _).1 (omega arith) in
      rw (request_v4_ready port a b c d user h, exact)
        (elim (Bool-cases (failed (write s bytes).1)) [
          | inl e ↦ rw e refl
          | inr e ↦
              let (s2, answer, e2) = read (write s bytes).0 8 in
              elim (Bool-cases (failed e2 && not (is_eof e2))) [
                | inl r ↦ rw (e, r) refl
                | inr r ↦ elim (Bool-cases (length answer != 8)) [
                  | inl n ↦ rw (e, r, n) refl
                  | inr n ↦
                      rw
                        (
                          e,
                          r,
                          n,
                          parse_reply_v4-append mk answer (drop (length answer) bytes)
                              (ground arith),
                        )
                        (elim (Option-cases (parse_reply_v4 mk (length answer) answer)) [
                          | inl p ↦ rw p refl
                          | inr (q, p) ↦ rw p refl
                        ])
                ]
              ]
        ])
