-- ===== src/Connect/Session/Sent.antt =====
-- include/boost/socks/impl/connect.hpp: what the client writes in a session, on a stream that keeps a record of it.
use socks.Base.{
  ℕ, ◌≡◌, ◌⊎◌, inl, inr, refl, ◌∙◌, true, false, some, List, [], ◌∷◌, length, get_or, ◌==◌, ==_iff,
  if◌then◌else◌, Bool-cases, arith,
}
use socks.Base.Ensures.{Ensures, gives, Ensures-result, Ensures-map, ensures_rules}
use socks.Error.{ErrorCode, failed, make_error_code}
use socks.Endpoint.{Address, Endpoint, Target, host, AuthOptions, IsTarget, FitsRequest}
use socks.Requests.Layout.{greeting_bytes, userpass_bytes, request_bytes}
use socks.Stream.{SyncStream, IsLawful}
use socks.Connect.{connect_host}
use socks.Connect.Session.{
  session, session_auth, session_choice, session_userpass, session_request, session_reply,
  choice_result, readable,
}
use socks.Connect.Session.Sound.{session_total}
use socks.Connect.Session.Refines.{connect_host-session}

-- The stream, with the messages that were written, the last one first.
abbrev pub recorder : SyncStream → SyncStream
recorder S = record {
  State = S.State × List (List ℕ);
  write = λ (s, log) bytes. let (s', e) = S.write s bytes in ((s', bytes ∷ log), e);
  read = λ (s, log) k. let (s', got, e) = S.read s k in ((s', log), got, e);
  read_cond = λ (s, log) k cond. let (s', got, e) = S.read_cond s k cond in ((s', log), got, e);
}

-- What is written before the request: the greeting, and behind it the credentials, if there are any.
abbrev pub Greeted : AuthOptions → List (List ℕ) → Type 0
Greeted opt log =
    (log ≡ greeting_bytes opt ∷ [])
    ⊎ ((opt.is_userpass ≡ true) × (log ≡ userpass_bytes opt ∷ greeting_bytes opt ∷ []))

-- What is written in a session: that, and the request behind it or not.
abbrev pub Requested : Target → AuthOptions → List (List ℕ) → Type 0
Requested t opt log =
    (before : List (List ℕ)) × Greeted opt before × (log ≡ request_bytes t ∷ before)

abbrev pub Sent : Target → AuthOptions → List (List ℕ) → Type 0
Sent t opt log = Greeted opt log ⊎ Requested t opt log

choice_offered :
    (answer : List ℕ) (opt : AuthOptions) (ec : ErrorCode)
    → failed (choice_result answer opt ec) ≡ false
    → get_or answer 1 0 ≡ 2
    → opt.is_userpass ≡ true
unfolding choice_result failed make_error_code
choice_offered [] opt ec h e = ground arith
choice_offered (v ∷ []) opt ec h e = ground arith
choice_offered (v ∷ c ∷ rest) opt ec h e = ground arith

readable_offered :
    (answer : List ℕ) (opt : AuthOptions) (ec : ErrorCode)
    → failed (if readable ec then choice_result answer opt ec else ec) ≡ false
    → get_or answer 1 0 ≡ 2
    → opt.is_userpass ≡ true
readable_offered answer opt ec h e = elim (Bool-cases (readable ec)) [
  | inl r ↦ choice_offered answer opt ec (rw r at h) e
  | inr r ↦ absurd (ground arith)
]

module _ (S : SyncStream) where
  choice-Greeted :
      (s : S.State) (answer : List ℕ) (opt : AuthOptions) (ec : ErrorCode)
      → (failed ec ≡ false → get_or answer 1 0 ≡ 2 → opt.is_userpass ≡ true)
      → Greeted opt (session_choice (recorder S) (s, greeting_bytes opt ∷ []) answer opt ec).0.1
  unfolding session_choice session_userpass
  choice-Greeted s answer opt ec offered = elim (Bool-cases (failed ec)) [
    | inl e ↦ rw e (inl refl)
    | inr e ↦ elim (Bool-cases (get_or answer 1 0 == 2)) [
      | inl two ↦ elim (Bool-cases (failed (S.write s (userpass_bytes opt)).1)) [
        | inl w ↦ rw (e, two, w) (inr (offered e ((==_iff _ _).0 two), refl))
        | inr w ↦ rw (e, two, w) (inr (offered e ((==_iff _ _).0 two), refl))
      ]
      | inr other ↦ rw (e, other) (inl refl)
    ]
  ]

  auth-Greeted :
      (s : S.State) (opt : AuthOptions) → Greeted opt (session_auth (recorder S) (s, []) opt).0.1
  unfolding session_auth
  auth-Greeted s opt =
      let (s1, e1) = S.write s (greeting_bytes opt) in
      let (s2, answer, e2) = S.read s1 2 in
      elim (Bool-cases (failed e1)) [
        | inl e ↦ rw e (inl refl)
        | inr e ↦ rw e (
            choice-Greeted s2 answer opt (if readable e2 then choice_result answer opt e2 else e2)
              (readable_offered answer opt e2))
      ]

  -- The reply is only read.
  reply_log :
      (mk : ℕ → Address) (s : S.State) (log : List (List ℕ))
      → Ensures (λ r. r.0.1 ≡ log) (session_reply (recorder S) mk (s, log))
  unfolding session_reply
  reply_log mk s log = search ensures_rules depth 20

  -- The request is written if the session succeeds.
  pub session-Sent :
      (mk : ℕ → Address) (s : S.State) (t : Target) (opt : AuthOptions)
      → Ensures
          (λ r. Sent t opt r.0.1 × (failed r.2 ≡ false → Requested t opt r.0.1))
          (session (recorder S) mk (s, []) t opt)
  unfolding session session_request
  session-Sent mk s t opt =
      let (sa, ea) = session_auth (recorder S) (s, []) opt in
      let greeted : Greeted opt sa.1 = auth-Greeted s opt in
      elim (Bool-cases (failed ea)) [
        | inl e ↦ rw e (gives (inl greeted, λ ok. absurd (ground arith)))
        | inr e ↦
            let asked : Requested t opt (request_bytes t ∷ sa.1) = (sa.1, greeted, refl) in
            let (s1, e1) = S.write sa.0 (request_bytes t) in
            elim (Bool-cases (failed e1)) [
              | inl w ↦ rw (e, w) (gives (inr asked, λ ok. absurd (ground arith)))
              | inr w ↦
                  rw (e, w)
                    (Ensures-map _ (λ r same. rw same (inr asked, λ ok. asked))
                      (reply_log mk s1 (request_bytes t ∷ sa.1)))
            ]
      ]

module _ (S : SyncStream) (law : IsLawful S) (mk : ℕ → Address) where
  pub recorder-IsLawful : IsLawful (recorder S)
  recorder-IsLawful = record {
    read_le = λ s k. law.read_le s.0 k;
    read_full = λ s k f. law.read_full s.0 k f;
    read_short = λ s k f. law.read_short s.0 k f;
    read_bytes = λ s k. law.read_bytes s.0 k;
    read_cond_le = λ s k cond. law.read_cond_le s.0 k cond;
    read_cond_stops = λ s k cond f. law.read_cond_stops s.0 k cond f;
    read_cond_bytes = λ s k cond. law.read_cond_bytes s.0 k cond;
  }

  -- On a lawful stream, whatever the server answers, with a valid endpoint, credentials of at most 255 bytes each
  -- and a buffer of 513 bytes: `connect` returns, and has written the greeting, and behind it at most the
  -- credentials, which are written only if the options have them, and the request, each of them once and whole;
  -- and if it returns without an error, the request is the last of them.
  pub connect_host-Sent :
      (ep : Endpoint) (opt : AuthOptions) (s : S.State) (buf : List ℕ) (ec : ErrorCode)
      → IsTarget (host ep)
      → FitsRequest opt
      → length buf ≡ 513
      → (r : (S.State × List (List ℕ)) × Endpoint × ErrorCode) × (connect_host
            (recorder S)
            mk
            buf
            (s, [])
            ep
            opt
            ec
          ≡ some r)
        × Sent (host ep) opt r.0.1
        × (failed r.2 ≡ false → Requested (host ep) opt r.0.1)
  connect_host-Sent ep opt s buf ec valid fits whole =
      let (r, run, _) = session_total (recorder S) mk (s, []) (host ep) opt in
      let (sent, last) = Ensures-result (session-Sent S mk s (host ep) opt) run in
      (
        r,
        connect_host-session (recorder S) recorder-IsLawful mk ep opt (s, []) buf ec valid fits
              whole
            ∙ run,
        sent,
        last,
      )
