-- ===== src/ConnectOp/Resumes.antt =====
-- include/boost/socks/impl/connect.hpp: the runs of `connect_op` from the credentials on.
use socks.Base.{
  ℕ, zero, suc, ◌≤◌, ◌<◌, ◌≡◌, refl, inl, inr, true, not, ◌&&◌, Option, some, List, [], ◌∷◌, length,
  take-append, drop, ◌!=◌, if◌then◌else◌, Bool-cases, arith,
}
use mathlib.Core.Path.{fun_ext}
use socks.Base.Memory.{overlay}
use socks.Error.{ErrorCode, failed, is_eof, make_error_code}
use socks.Endpoint.{Address, Endpoint, no_endpoint, Target, AuthOptions, IsTarget}
use socks.Requests.Layout.{request_bytes}
use socks.Replies.Frame.{parse_reply_v5-append, parse_reply_v5-Outcome}
use socks.Stream.{SyncStream}
use socks.Connect.Session.{
  userpass_result, readable, session_condition, session_reply, session_request,
}
use socks.Connect.Session.Messages.{
  validate_userpass_reply-overlay, condition-overlay, request_ready, whole_buffer, not-readable,
}
use socks.ConnectOp.{
  Coro, ConnectOp, Action, complete, async_read_reply, read_reply, read_status, send_request,
  on_status, on_reply, resume, act, run,
}

module _ (S : SyncStream) (mk : ℕ → Address) where
  open S use {State, write, read, read_cond}

  pub run_complete :
      (fuel : ℕ) (s : State) (op : ConnectOp) (ec : ErrorCode) (ep : Endpoint)
      → run S mk fuel s op (complete ec ep) ≡ some (s, ep, ec)
  unfolding run act
  run_complete zero s op ec ep = refl
  run_complete (suc fuel) s op ec ep = run_complete fuel s op ec ep

  abbrev pub at_label : Coro → List ℕ → Target → AuthOptions → ConnectOp
  at_label c buf t opt = record { coro = c; buf = buf; target = t; opt = opt }

  pub reply_run :
      (fuel : ℕ) (s : State) (buf : List ℕ) (t : Target) (opt : AuthOptions)
      → run S mk (suc fuel) s (at_label read_reply buf t opt) async_read_reply
        ≡ session_reply S mk s
  unfolding run act resume on_reply session_reply
  reply_run fuel s buf t opt =
      let (s1, answer, e1) = read_cond s 22 session_condition in
      rw (fun_ext (λ got. fun_ext (condition-overlay buf got)), not-readable e1)
        (elim (Bool-cases (readable e1)) [
          | inr r ↦ rw r (run_complete fuel s1 _ e1 no_endpoint)
          | inl r ↦ elim (Bool-cases (length answer != 10 && length answer != 22)) [
            | inl n ↦ rw (r, n) (run_complete fuel s1 _ _ no_endpoint)
            | inr n ↦
                let (ep, ec, e, refused) = parse_reply_v5-Outcome mk answer (ground arith) in
                rw
                  (
                    r,
                    n,
                    parse_reply_v5-append mk answer (drop (length answer) buf) (ground arith),
                    e,
                  )
                  (run_complete fuel s1 _ ec ep)
          ]
        ])

  -- A resumption does not fault, and so many actions from it end with this result.
  abbrev pub Leads :
      ℕ → State → Option (ConnectOp × Action) → Option (State × Endpoint × ErrorCode) → Type 0
  Leads fuel s resumed result =
      (op : ConnectOp) × (next : Action) × (resumed ≡ some (op, next))
      × (run S mk fuel s op next ≡ result)

  -- From the request on: two actions.
  pub request_run :
      (fuel : ℕ) (s : State) (c : Coro) (buf : List ℕ) (t : Target) (opt : AuthOptions)
      → IsTarget t
      → length buf ≡ 513
      → Leads (suc (suc fuel)) s (send_request (at_label c buf t opt)) (session_request S mk s t)
  unfolding run act resume send_request session_request
  request_run fuel s c buf t opt valid h =
      let rb : List ℕ = request_bytes t in
      rw (h, request_ready t buf valid h, take-append rb (drop (length rb) buf))
        (
          _,
          _,
          refl,
          elim (Bool-cases (failed (write s rb).1)) [
            | inl e ↦ rw e (run_complete (suc fuel) _ _ _ no_endpoint)
            | inr e ↦ rw e (reply_run fuel (write s rb).0 (overlay rb buf) t opt)
          ],
        )

  -- With the negotiation over, what is left of a session.
  abbrev pub rest_of : State × ErrorCode → Target → Option (State × Endpoint × ErrorCode)
  rest_of (s, e) t = if failed e then some (s, no_endpoint, e) else session_request S mk s t

  -- A status that is taken came without an error, as a failed read is short.
  pub status_lem :
      (answer : List ℕ) (e : ErrorCode)
      → (failed e ≡ true → length answer < 2)
      → (failed (userpass_result answer e) && not (is_eof (userpass_result answer e)))
        ≡ failed (userpass_result answer e)
  unfolding userpass_result failed make_error_code is_eof
  status_lem [] e h = refl
  status_lem (x ∷ []) e h = refl
  status_lem (b ∷ c ∷ []) e h = elim (Bool-cases (failed e)) [
    | inl f ↦ absurd (omega (arith, h f))
    | inr f ↦ ground arith
  ]
  status_lem (b ∷ c ∷ d ∷ rest) e h = refl

  pub status_run :
      (fuel : ℕ) (s : State) (buf answer : List ℕ) (e : ErrorCode) (t : Target) (opt : AuthOptions)
      → IsTarget t
      → length buf ≡ 513
      → length answer ≤ 2
      → (failed e ≡ true → length answer < 2)
      → Leads
          (suc (suc fuel))
          s
          (on_status (at_label read_status (overlay answer buf) t opt) e (length answer))
          (rest_of (s, userpass_result answer e) t)
  unfolding on_status
  status_run fuel s buf answer e t opt valid h k short =
      let whole : length (overlay answer buf) ≡ 513 = whole_buffer answer buf h (omega arith) in
      rw (validate_userpass_reply-overlay answer buf e, status_lem answer e short)
        (elim (Bool-cases (failed (userpass_result answer e))) [
          | inl f ↦ rw f (_, _, refl, run_complete (suc (suc fuel)) s _ _ no_endpoint)
          | inr f ↦ rw f (request_run fuel s read_status (overlay answer buf) t opt valid whole)
        ])
