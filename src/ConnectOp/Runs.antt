-- ===== src/ConnectOp/Runs.antt =====
-- include/boost/socks/impl/connect.hpp: the runs of `connect_op` against the session.
use socks.Base.{
  ℕ, suc, ◌≤◌, ◌≡◌, refl, inl, inr, ◌⊎◌, true, false, List, length, replicate, take-append, drop,
  get_or, get_elem?-get_or, get_or-append, ◌==◌, if◌then◌else◌, Bool-cases, arith,
}
use socks.Base.Memory.{overlay}
use socks.Error.{ErrorCode, failed}
use socks.Endpoint.{Address, no_endpoint, Target, AuthOptions, IsTarget, FitsRequest}
use socks.Requests.Layout.{greeting_bytes, userpass_bytes}
use socks.Stream.{SyncStream, IsLawful, FailsByEof}
use socks.Connect.Session.{
  choice_result, readable, session_userpass, session_choice, session_auth, session,
}
use socks.Connect.Session.Messages.{
  validate_server_choice-overlay, choice_taken, greeting_ready, userpass_ready, whole_buffer,
  checked, greeting_size, userpass_size,
}
use socks.Connect.Session.Sound.{choice_accepted}
use socks.ConnectOp.{
  Coro, read_choice, new_op, send_greeting, send_userpass, on_choice, resume, act, run,
  async_connect_any,
}
use socks.ConnectOp.Resumes.{run_complete, at_label, Leads, request_run, rest_of, status_run}

module _ (S : SyncStream) (mk : ℕ → Address) where
  open S use {State, write, read, read_cond}

  userpass_run :
      (fuel : ℕ) (s : State) (c : Coro) (buf : List ℕ) (t : Target) (opt : AuthOptions)
      → IsLawful S
      → FailsByEof S
      → IsTarget t
      → FitsRequest opt
      → length buf ≡ 513
      → Leads S mk
          (suc (suc (suc (suc fuel))))
          s
          (send_userpass (at_label S mk c buf t opt))
          (rest_of S mk (session_userpass S s opt) t)
  unfolding run act resume send_userpass session_userpass
  userpass_run fuel s c buf t opt law eof valid fits h =
      let ub : List ℕ = userpass_bytes opt in
      let sent : length (overlay ub buf) ≡ 513 = whole_buffer ub buf h (userpass_size opt fits) in
      let s1 = (write s ub).0 in
      let (s2, answer, e2) = read s1 2 in
      let all_read : readable e2 ≡ true = elim (Bool-cases (failed e2)) [
        | inl f ↦ rw f (eof.read_eof s1 2 f)
        | inr f ↦ rw f refl
      ] in
      let (op, next, resumed, runs) =
        status_run S mk fuel s2 (overlay ub buf) answer e2 t opt valid sent (law.read_le s1 2)
          (law.read_short s1 2) in
      rw (h, userpass_ready opt buf fits h, take-append ub (drop (length ub) buf))
        (
          _,
          _,
          refl,
          elim (Bool-cases (failed (write s ub).1)) [
            | inl e ↦ rw (e, e) (run_complete S mk (suc (suc (suc fuel))) _ _ _ no_endpoint)
            | inr e ↦ rw (e, resumed, all_read) runs
          ],
        )

  -- Every read that is answered is looked at, or no credentials are asked for.
  abbrev pub StatusRead : AuthOptions → Type 0
  StatusRead opt = (opt.is_userpass ≡ false) ⊎ FailsByEof S

  asked :
      (answer : List ℕ) (opt : AuthOptions) (e : ErrorCode)
      → StatusRead opt
      → length answer ≤ 2
      → failed (if readable e then choice_result answer opt e else e) ≡ false
      → (get_or answer 1 0 == 2) ≡ true
      → FailsByEof S
  asked answer opt e (inr eof) k f c = eof
  asked answer opt e (inl none_set) k f c = elim (choice_accepted answer opt e k f) [
    | inl a ↦ let wrong = rw a at c in absurd (ground arith)
    | inr (a, set) ↦ absurd (ground arith)
  ]

  choice_run :
      (s : State) (buf answer : List ℕ) (e : ErrorCode) (t : Target) (opt : AuthOptions)
      → IsLawful S
      → StatusRead opt
      → IsTarget t
      → FitsRequest opt
      → length buf ≡ 513
      → length answer ≤ 2
      → let ec = if readable e then choice_result answer opt e else e in
        Leads S mk 4 s
          (on_choice (at_label S mk read_choice (overlay answer buf) t opt) e (length answer))
          (rest_of S mk (session_choice S s answer opt ec) t)
  unfolding on_choice session_choice
  choice_run s buf answer e t opt law status valid fits h k =
      let ec : ErrorCode = if readable e then choice_result answer opt e else e in
      let whole : length (overlay answer buf) ≡ 513 = whole_buffer answer buf h (omega arith) in
      rw (checked (readable e) _ _ e (validate_server_choice-overlay answer buf opt e))
        (elim (Bool-cases (failed ec)) [
          | inl f ↦ rw (f, f) (_, _, refl, run_complete S mk 4 s _ _ no_endpoint)
          | inr f ↦
              let two : 2 ≤ length answer = choice_taken answer opt e f in
              rw
                (
                  f,
                  get_elem?-get_or (overlay answer buf) 1 0 (omega arith),
                  get_or-append answer (drop (length answer) buf) 1 0 two,
                )
                (elim (Bool-cases (get_or answer 1 0 == 2)) [
                  | inl c ↦ rw c (
                      userpass_run 0 s read_choice (overlay answer buf) t opt law
                        (asked answer opt e status k f c) valid fits whole)
                  | inr c ↦
                      rw (c, f)
                        (request_run S mk 2 s read_choice (overlay answer buf) t opt valid whole)
                ])
        ])

  -- On a lawful stream where reads fail only by the end of the stream, or without credentials, and with a
  -- valid target and credentials of at most 255 bytes each, the asynchronous operation is completed within
  -- six actions and gives what the session gives.
  pub async_connect_any-session :
      (s : State) (t : Target) (opt : AuthOptions)
      → IsLawful S
      → StatusRead opt
      → IsTarget t
      → FitsRequest opt
      → async_connect_any S mk s t opt ≡ session S mk s t opt
  unfolding async_connect_any session session_auth run act resume send_greeting new_op
  async_connect_any-session s t opt law status valid fits =
      let buf : List ℕ = replicate 513 0 in
      let gb : List ℕ = greeting_bytes opt in
      let (long, short) = greeting_size opt in
      let sent : length (overlay gb buf) ≡ 513 = whole_buffer gb buf refl (omega arith) in
      let s1 = (write s gb).0 in
      let (s2, answer, e2) = read s1 2 in
      let (op, next, resumed, runs) =
        choice_run s2 (overlay gb buf) answer e2 t opt law status valid fits sent
          (law.read_le s1 2) in
      rw (greeting_ready opt buf refl, long, take-append gb (drop (length gb) buf))
        (elim (Bool-cases (failed (write s gb).1)) [
          | inl e ↦ rw (e, e) refl
          | inr e ↦ rw (e, resumed) runs
        ])
