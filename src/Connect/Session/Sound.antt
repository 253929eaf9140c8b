-- ===== src/Connect/Session/Sound.antt =====
-- The session of `connect` (include/boost/socks/impl/connect.hpp), and the messages of the server in it.
use socks.Base.{
  ℕ, ◌≤◌, ◌≡◌, ◌⊎◌, refl, sym, ap, ◌∙◌, inl, inr, true, false, ◌&&◌, some, List, [], ◌∷◌, ◌++◌,
  length, take, take-append, length-append, replicate, All, All-append, ◌!=◌, if◌then◌else◌,
  Bool-cases, arith,
}
use socks.Error.{ErrorCode, failed, make_error_code, socks_code}
use socks.Endpoint.{Address, Endpoint, no_endpoint, Target, AuthOptions, IsEndpoint, IsByte, code}
use socks.Requests.Layout.{greeting_bytes, userpass_bytes, request_bytes}
use socks.Replies.{MakesV4, parse_reply_v5}
use socks.Replies.Accept.{reply_bytes}
use socks.Replies.Reject.{parse_reply_v5-Granted}
use socks.Replies.Frame.{parse_reply_v5-append, parse_reply_v5-Outcome}
use socks.Stream.{SyncStream, IsLawful}
use socks.Connect.Session.{
  choice_result, userpass_result, readable, session_userpass, session_choice, session_auth,
  session_condition, session_reply, session_request, session,
}

-- The parser on the bytes of a whole reply.
reply_whole :
    (mk : ℕ → Address) (answer : List ℕ) (ep : Endpoint) (ec : ErrorCode)
    → MakesV4 mk
    → (length answer ≡ 10) ⊎ (length answer ≡ 22)
    → All IsByte answer
    → parse_reply_v5 mk (length answer) answer ≡ some (ep, ec)
    → failed ec ≡ false
    → (rsv : ℕ) × (answer ≡ reply_bytes rsv ep) × IsEndpoint ep × (ec ≡ socks_code 0)
reply_whole mk answer ep ec m size bytes e f =
    let pad : List ℕ = replicate 12 0 in
    let ((rsv, rest, whole, same, valid), code) =
      parse_reply_v5-Granted mk m (length answer) ep ec (answer ++ pad)
        (omega (arith, length-append answer pad)) (All-append IsByte answer pad bytes (omega arith))
        (parse_reply_v5-append mk answer pad size ∙ e) f in
    let cut : take (length answer) (answer ++ pad)
        ≡ take (length answer) (reply_bytes rsv ep ++ rest) =
      ap (take (length answer)) whole in
    (
      rsv,
      sym (take-append answer pad) ∙ cut ∙ rw same (take-append (reply_bytes rsv ep) rest),
      valid,
      code,
    )

pub choice_accepted :
    (answer : List ℕ) (opt : AuthOptions) (e : ErrorCode)
    → length answer ≤ 2
    → failed (if readable e then choice_result answer opt e else e) ≡ false
    → (answer ≡ 5 ∷ 0 ∷ []) ⊎ ((answer ≡ 5 ∷ 2 ∷ []) × (opt.is_userpass ≡ true))
unfolding choice_result failed make_error_code
choice_accepted [] opt e h f = ground arith
choice_accepted (x ∷ []) opt e h f = ground arith
choice_accepted (b ∷ c ∷ []) opt e h f = ground arith
choice_accepted (b ∷ c ∷ d ∷ rest) opt e h f = absurd (omega arith)

userpass_accepted :
    (answer : List ℕ) (e : ErrorCode)
    → failed (if readable e then userpass_result answer e else e) ≡ false
    → answer ≡ 1 ∷ 0 ∷ []
unfolding userpass_result failed make_error_code
userpass_accepted [] e f = ground arith
userpass_accepted (x ∷ []) e f = ground arith
userpass_accepted (b ∷ c ∷ []) e f = ground arith
userpass_accepted (b ∷ c ∷ d ∷ rest) e f = ground arith

module _ (S : SyncStream) where
  open S use {State, write, read, read_cond}

  -- The answers that the negotiation accepts.
  abbrev pub Negotiated : State → AuthOptions → Type 0
  Negotiated s opt =
      let s1 = (write s (greeting_bytes opt)).0 in
      let s2 = (read s1 2).0 in
      let s3 = (write s2 (userpass_bytes opt)).0 in
      ((read s1 2).1 ≡ 5 ∷ 0 ∷ [])
      ⊎ (((read s1 2).1 ≡ 5 ∷ 2 ∷ []) × (opt.is_userpass ≡ true) × ((read s3 2).1 ≡ 1 ∷ 0 ∷ []))

  userpass_part :
      (s : State) (opt : AuthOptions)
      → failed (session_userpass S s opt).1 ≡ false
      → (read (write s (userpass_bytes opt)).0 2).1 ≡ 1 ∷ 0 ∷ []
  unfolding session_userpass
  userpass_part s opt f =
      let (s1, e1) = write s (userpass_bytes opt) in
      let (s2, answer, e2) = read s1 2 in
      elim (Bool-cases (failed e1)) [
        | inl a ↦ absurd (ground arith)
        | inr a ↦ userpass_accepted answer e2 (rw (a, session_userpass) at f)
      ]

  chosen :
      (s : State) (answer : List ℕ) (opt : AuthOptions) (e : ErrorCode)
      → length answer ≤ 2
      → failed
          (session_choice S s answer opt (if readable e then choice_result answer opt e else e)).1
        ≡ false
      → (answer ≡ 5 ∷ 0 ∷ [])
        ⊎ ((answer ≡ 5 ∷ 2 ∷ [])
            × (opt.is_userpass ≡ true)
            × ((read (write s (userpass_bytes opt)).0 2).1 ≡ 1 ∷ 0 ∷ []))
  unfolding session_choice
  chosen s answer opt e h f =
      let ec : ErrorCode = if readable e then choice_result answer opt e else e in
      elim (Bool-cases (failed ec)) [
        | inl a ↦ absurd (ground arith)
        | inr a ↦ elim (choice_accepted answer opt e h a) [
          | inl b ↦ inl b
          | inr (b, u) ↦ inr (b, u, userpass_part s opt (rw (a, b, session_choice) at f))
        ]
      ]

  -- A negotiation without an error: the server chose a method that was offered, and accepted the
  -- credentials if it asked for them.
  pub session_auth-Negotiated :
      (s : State) (opt : AuthOptions)
      → IsLawful S
      → failed (session_auth S s opt).1 ≡ false
      → Negotiated s opt
  unfolding session_auth
  session_auth-Negotiated s opt law f =
      let (s1, e1) = write s (greeting_bytes opt) in
      let (s2, answer, e2) = read s1 2 in
      elim (Bool-cases (failed e1)) [
        | inl a ↦ absurd (ground arith)
        | inr a ↦ chosen s2 answer opt e2 (law.read_le s1 2) (rw (a, session_auth) at f)
      ]

  -- Every session ends: with an endpoint, or refused and without one.
  pub session_total :
      (mk : ℕ → Address) (s : State) (t : Target) (opt : AuthOptions)
      → (r : State × Endpoint × ErrorCode) × (session S mk s t opt ≡ some r)
        × (failed r.2 ≡ true → r.1 ≡ no_endpoint)
  unfolding session session_request session_reply
  session_total mk s t opt =
      let (s1, e1) = session_auth S s opt in
      let (s2, e2) = write s1 (request_bytes t) in
      let (s3, answer, e3) = read_cond s2 22 session_condition in
      elim (Bool-cases (failed e1)) [
        | inl a ↦ rw a (_, refl, λ _. refl)
        | inr a ↦ elim (Bool-cases (failed e2)) [
          | inl b ↦ rw (a, b) (_, refl, λ _. refl)
          | inr b ↦ elim (Bool-cases (readable e3)) [
            | inr c ↦ rw (a, b, c) (_, refl, λ _. refl)
            | inl c ↦ elim (Bool-cases (length answer != 10 && length answer != 22)) [
              | inl n ↦ rw (a, b, c, n) (_, refl, λ _. refl)
              | inr n ↦
                  let (ep, ec, e, refused) = parse_reply_v5-Outcome mk answer (ground arith) in
                  rw (a, b, c, n, e) (_, refl, refused)
            ]
          ]
        ]
      ]

  reply_accepted :
      (mk : ℕ → Address) (s s' : State) (ep : Endpoint) (ec : ErrorCode)
      → IsLawful S
      → MakesV4 mk
      → session_reply S mk s ≡ some (s', ep, ec)
      → failed ec ≡ false
      → (rsv : ℕ) × ((read_cond s 22 session_condition).1 ≡ reply_bytes rsv ep)
        × IsEndpoint ep
        × (ec ≡ socks_code 0)
  unfolding session_reply failed make_error_code
  reply_accepted mk s s' ep ec law m e f =
      let (s3, answer, e3) = read_cond s 22 session_condition in
      elim (Bool-cases (readable e3)) [
        | inr c ↦ absurd (ground arith)
        | inl c ↦ elim (Bool-cases (length answer != 10 && length answer != 22)) [
          | inl n ↦ absurd (ground arith)
          | inr n ↦
              let size : (length answer ≡ 10) ⊎ (length answer ≡ 22) = ground arith in
              let (ep1, ec1, e1, refused) = parse_reply_v5-Outcome mk answer size in
              reply_whole mk answer ep ec m size (law.read_cond_bytes s 22 session_condition)
                (ground arith) f
        ]
      ]

  -- A session that ends without an error: the negotiation was accepted, and the endpoint is the one
  -- in the server's reply, which was a granted reply and nothing else.
  pub session_accepted :
      (mk : ℕ → Address) (s s' : State) (t : Target) (opt : AuthOptions) (ep : Endpoint)
      (ec : ErrorCode)
      → IsLawful S
      → MakesV4 mk
      → session S mk s t opt ≡ some (s', ep, ec)
      → failed ec ≡ false
      → let s1 = (session_auth S s opt).0 in
        let s2 = (write s1 (request_bytes t)).0 in
        Negotiated s opt
        × ((rsv : ℕ) × ((read_cond s2 22 session_condition).1 ≡ reply_bytes rsv ep)
            × IsEndpoint ep
            × (ec ≡ socks_code 0))
  unfolding session session_request
  session_accepted mk s s' t opt ep ec law m e f =
      let (s1, e1) = session_auth S s opt in
      let (s2, e2) = write s1 (request_bytes t) in
      elim (Bool-cases (failed e1)) [
        | inl a ↦ absurd (ground arith)
        | inr a ↦ elim (Bool-cases (failed e2)) [
          | inl b ↦ absurd (ground arith)
          | inr b ↦ (
            session_auth-Negotiated s opt law a,
            reply_accepted mk s2 s' ep ec law m (rw (a, b, session, session_request) at e) f,
          )
        ]
      ]
