-- ===== src/Exchange/Answer.antt =====
-- include/boost/socks/impl/connect.hpp: the client's read of the server's answer, in whatever parts it arrives.
use socks.Base.{
  ℕ, zero, suc, ◌≤◌, ◌<◌, ◌≡◌, ◌⊎◌, inl, inr, refl, ap, subst, Bool-cases, false, some, List, [],
  ◌∷◌, length, length-append, length-take, take, All, All-append, arith, get_or, append-nil, ◌!=◌,
  ◌&&◌, if◌then◌else◌,
}
use socks.Error.{no_error, failed, socks_code, equals_succeeded}
use socks.Codes.{ip_v4, to_address_type, to_reply_code}
use socks.Endpoint.{Address, v4, v6, no_endpoint, IsAddress, IsByte, IsEndpoint}
use socks.Requests.Layout.{port_bytes}
use socks.Replies.{MakesV4, read_reply_cond, parse_reply_v5}
use socks.Replies.Checks.{read_reply_cond_iff}
use socks.Replies.Accept.{reply_bytes, parse_reply_v5-reply_bytes}
use socks.Stream.Chunks.{Pace}
use socks.Stream.Chunks.Ends.{takes}
use socks.Stream.Played.{as_bytes_lem, play_cond, took}
use socks.Connect.Session.{session_condition}
use socks.Exchange.{Outside}
use socks.Exchange.Stages.{answer}

-- A message of the length that its fourth byte tells: ten bytes behind the type of an IPv4 address, 22 otherwise.
abbrev IsWhole : List ℕ → Type 0
IsWhole bytes =
    ((length bytes ≡ 10) × (to_address_type (get_or bytes 3 0) ≡ ip_v4))
    ⊎ ((length bytes ≡ 22) × ¬ (to_address_type (get_or bytes 3 0) ≡ ip_v4))

get_or-take : (bytes : List ℕ) → 10 ≤ length bytes → get_or (take 10 bytes) 3 0 ≡ get_or bytes 3 0
get_or-take (x0 ∷ x1 ∷ x2 ∷ x3 ∷ bytes) h = refl
get_or-take _ h = absurd (omega arith)

more_than : (v : ℕ) → ¬ (v ≡ 0) → (more : ℕ) × (some v ≡ some (suc more))
more_than zero h = absurd (h refl)
more_than (suc more) h = (more, refl)

asks :
    (bytes : List ℕ) (n : ℕ)
    → IsWhole bytes
    → n < length bytes
    → (more : ℕ) × (some (session_condition (take n bytes) no_error) ≡ some (suc more))
asks bytes n whole l =
    let k : n ≡ length (take n bytes) = omega (arith, length-take n bytes) in
    let more : ¬ (read_reply_cond (take n bytes) no_error n ≡ 0) = λ z.
      elim ((read_reply_cond_iff (take n bytes) n (ground arith)).0 z) [
        | inl e ↦ absurd (ground arith)
        | inr (e, is_v4) ↦ elim whole [
          | inl (size, _) ↦ absurd (omega arith)
          | inr (size, no_v4) ↦
              absurd (no_v4 (rw (← get_or-take bytes (omega arith)) (rw e at is_v4)))
        ]
      ] in
    more_than _ (subst (λ m. ¬ (read_reply_cond (take n bytes) no_error m ≡ 0)) k more)

stops : (bytes : List ℕ) → IsWhole bytes → some (session_condition bytes no_error) ≡ some 0
stops bytes whole = ap some (
    (read_reply_cond_iff bytes (length bytes) (ground arith)).1
      (elim whole [ inl (size, is_v4) ↦ inr (size, is_v4) | inr (size, _) ↦ inl size ]))

pub play_cond_whole :
    (pace : Pace) (bytes : List ℕ)
    → IsWhole bytes
    → All IsByte bytes
    → play_cond pace bytes 22 session_condition ≡ ([], bytes, no_error)
play_cond_whole pace bytes whole h = rw (as_bytes_lem bytes h) (
    ap took (
      takes (λ got. some (session_condition got no_error)) pace bytes 0 (stops bytes whole)
        (λ n _ l. asks bytes n whole l) 22 0 [] bytes refl (omega arith) (ground arith)))

reply_bytes-IsWhole :
    (a : Address) (p : ℕ) → IsAddress a → IsWhole (reply_bytes 0 (record { address = a; port = p }))
unfolding to_address_type
reply_bytes-IsWhole (v4 a b c d) p h = inl (refl, refl)
reply_bytes-IsWhole (v6 bytes) p h =
    inr (omega (arith, length-append bytes (port_bytes p)), λ e. absurd (cc))

reply_bytes-IsByte :
    (a : Address) (p : ℕ)
    → IsAddress a
    → p < 65536
    → All IsByte (reply_bytes 0 (record { address = a; port = p }))
reply_bytes-IsByte (v4 a b c d) p h hp = omega arith
reply_bytes-IsByte (v6 bytes) p h hp =
    let all = All-append IsByte bytes (port_bytes p) h.1 (omega arith) in
    (omega arith, (omega arith, (omega arith, (omega arith, all))))

module _ (o : Outside) (h : IsEndpoint o.bound) where
  answer-IsWhole : IsWhole (answer o)
  unfolding to_address_type
  answer-IsWhole = elim (Bool-cases (failed o.connect_error)) [
    | inl e ↦ rw e (inl (refl, refl))
    | inr e ↦ rw e (reply_bytes-IsWhole o.bound.address o.bound.port h.0)
  ]

  answer-IsByte : All IsByte (answer o)
  answer-IsByte = elim (Bool-cases (failed o.connect_error)) [
    | inl e ↦ rw e (omega arith)
    | inr e ↦ rw e (reply_bytes-IsByte o.bound.address o.bound.port h.0 h.1)
  ]

  pub play_cond-answer :
      (pace : Pace) → play_cond pace (answer o) 22 session_condition ≡ ([], answer o, no_error)
  play_cond-answer pace = play_cond_whole pace (answer o) answer-IsWhole answer-IsByte

  pub answer-length : (length (answer o) != 10 && length (answer o) != 22) ≡ false
  answer-length = elim answer-IsWhole [
    | inl (size, _) ↦ rw size refl
    | inr (size, _) ↦ rw size refl
  ]

  -- What the client makes of the answer.
  pub parse_reply_v5-answer :
      (mk : ℕ → Address)
      → MakesV4 mk
      → parse_reply_v5 mk (length (answer o)) (answer o)
        ≡ some (
          if failed o.connect_error then no_endpoint else o.bound,
          socks_code (if failed o.connect_error then 4 else 0),
        )
  unfolding parse_reply_v5 to_reply_code equals_succeeded
  parse_reply_v5-answer mk m = elim (Bool-cases (failed o.connect_error)) [
    | inl e ↦ rw e refl
    | inr e ↦
        let bytes = reply_bytes 0 o.bound in
        rw e (
          subst (λ b. parse_reply_v5 mk (length bytes) b ≡ some (o.bound, socks_code 0))
            (append-nil bytes) (parse_reply_v5-reply_bytes mk m o.bound 0 [] h))
  ]
