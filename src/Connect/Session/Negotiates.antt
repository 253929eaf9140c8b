-- ===== src/Connect/Session/Negotiates.antt =====
-- include/boost/socks/impl/connect.hpp: `authenticate` against the negotiation of the session.
use socks.Base.{
  ℕ, ◌≤◌, ◌≡◌, refl, inl, inr, Option, some, List, length, take-append, drop, get_or,
  get_elem?-get_or, get_or-append, ◌==◌, if◌then◌else◌, Bool-cases, arith,
}
use socks.Base.Memory.{overlay}
use socks.Error.{ErrorCode, failed}
use socks.Endpoint.{AuthOptions, FitsRequest}
use socks.Requests.Layout.{greeting_bytes, userpass_bytes}
use socks.Stream.{SyncStream, IsLawful}
use socks.Connect.{Io, authenticate_userpass, authenticate}
use socks.Connect.Session.{choice_result, readable, session_userpass, session_choice, session_auth}
use socks.Connect.Session.Messages.{
  validate_server_choice-overlay, validate_userpass_reply-overlay, choice_taken, greeting_size,
  checked, whole_buffer, greeting_ready, userpass_ready, userpass_size,
}

module _ (S : SyncStream) (law : IsLawful S) where
  open S use {State, write, read, read_cond}

  -- A part of `connect` ends as the session does, with the buffer still whole.
  abbrev pub Ends : Option (Io State × ℕ) → State × ErrorCode → Type 0
  Ends r (s, e) =
      (io : Io State) × (c : ℕ) × (r ≡ some (io, c))
      × (io.stream ≡ s)
      × (io.ec ≡ e)
      × (length io.buffer ≡ 513)

  pub authenticate_userpass-Ends :
      (opt : AuthOptions) (s : State) (buf : List ℕ) (ec : ErrorCode)
      → FitsRequest opt
      → length buf ≡ 513
      → Ends
          (authenticate_userpass S 513 opt (record { stream = s; buffer = buf; ec = ec }))
          (session_userpass S s opt)
  unfolding authenticate_userpass session_userpass
  authenticate_userpass-Ends opt s buf ec fits h =
      let ub : List ℕ = userpass_bytes opt in
      let sent : length (overlay ub buf) ≡ 513 = whole_buffer ub buf h (userpass_size opt fits) in
      rw (userpass_ready opt buf fits h, take-append ub (drop (length ub) buf))
        (elim (Bool-cases (failed (write s ub).1)) [
          | inl e ↦ rw e (_, 0, refl, refl, refl, sent)
          | inr e ↦
              let (s2, answer, e2) = read (write s ub).0 2 in
              let small : length answer ≤ 2 = law.read_le (write s ub).0 2 in
              let got : length (overlay answer (overlay ub buf)) ≡ 513 =
                whole_buffer answer (overlay ub buf) sent (omega arith) in
              rw
                (
                  e,
                  checked (readable e2) _ _ e2
                      (validate_userpass_reply-overlay answer (overlay ub buf) e2),
                  get_elem?-get_or (overlay answer (overlay ub buf)) 1 0 (omega arith),
                )
                (_, _, refl, refl, refl, got)
        ])

  -- After the answer to the greeting, with `buf` holding it at its front.
  pub choice-Ends :
      (opt : AuthOptions) (s : State) (answer buf : List ℕ) (e : ErrorCode)
      → FitsRequest opt
      → length buf ≡ 513
      → length answer ≤ 2
      → let ec = if readable e then choice_result answer opt e else e in
        let io : Io State = record { stream = s; buffer = overlay answer buf; ec = ec } in
        let choice = get_or (overlay answer buf) 1 0 in
        Ends
          (if failed ec
            then some (io, choice)
            else if choice == 2
            then authenticate_userpass S 513 opt io
            else some (io, choice))
          (session_choice S s answer opt ec)
  unfolding session_choice
  choice-Ends opt s answer buf e fits h k =
      let ec : ErrorCode = if readable e then choice_result answer opt e else e in
      let whole : length (overlay answer buf) ≡ 513 = whole_buffer answer buf h (omega arith) in
      elim (Bool-cases (failed ec)) [
        | inl f ↦ rw f (_, _, refl, refl, refl, whole)
        | inr f ↦
            rw
              (f, get_or-append answer (drop (length answer) buf) 1 0 (choice_taken answer opt e f))
              (elim (Bool-cases (get_or answer 1 0 == 2)) [
                | inl c ↦ rw c (authenticate_userpass-Ends opt s (overlay answer buf) ec fits whole)
                | inr c ↦ rw c (_, _, refl, refl, refl, whole)
              ])
      ]

  pub authenticate-Ends :
      (opt : AuthOptions) (s : State) (buf : List ℕ) (ec : ErrorCode)
      → FitsRequest opt
      → length buf ≡ 513
      → Ends
          (authenticate S 513 opt (record { stream = s; buffer = buf; ec = ec }))
          (session_auth S s opt)
  unfolding authenticate session_auth
  authenticate-Ends opt s buf ec fits h =
      let gb : List ℕ = greeting_bytes opt in
      let (long, short) = greeting_size opt in
      let sent : length (overlay gb buf) ≡ 513 = whole_buffer gb buf h (omega arith) in
      rw (greeting_ready opt buf h, long, take-append gb (drop (length gb) buf))
        (elim (Bool-cases (failed (write s gb).1)) [
          | inl e ↦ rw e (_, 0, refl, refl, refl, sent)
          | inr e ↦
              let (s2, answer, e2) = read (write s gb).0 2 in
              let small : length answer ≤ 2 = law.read_le (write s gb).0 2 in
              let got : length (overlay answer (overlay gb buf)) ≡ 513 =
                whole_buffer answer (overlay gb buf) sent (omega arith) in
              rw
                (
                  e,
                  checked (readable e2) _ _ e2
                      (validate_server_choice-overlay answer (overlay gb buf) opt e2),
                  get_elem?-get_or (overlay answer (overlay gb buf)) 1 0 (omega arith),
                )
                (choice-Ends opt s2 answer (overlay gb buf) e2 fits sent small)
        ])
