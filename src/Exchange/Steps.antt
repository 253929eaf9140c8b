-- ===== src/Exchange/Steps.antt =====
-- example/server/async/socks_server_async.cpp: the server of an exchange as one run among those of the step relation, alone
-- and as a connection of a server that has others.
use socks.Base.{ℕ, zero, suc, ◌≡◌, refl, List, [], ◌∷◌, ◌++◌, length, Option-cases, inl, inr, arith}
use socks.Base.Ensures.{Ensures, faults, gives, Ensures-if, Ensures-then, Ensures-result}
use socks.Error.{no_error}
use socks.Server.{
  Action, write_choice, write_status, write_reply, write_reply_v4, read_greeting, read_userpass,
  read_request, resolve, connect_target, connect_target_v4, relay, close, stop, thrown,
}
use socks.Server.Run.{World, Event, was_read, handle, Reach}
use socks.Server.Run.Invariant.{Holds}
use socks.Server.Run.Reached.{Reach-Valid}
use socks.Server.Run.Faults.{Completed, OutcomeOf}
use socks.Server.Process
use socks.Server.Process.{Peer, talks, goes_to, enter, handled, running, moves, Serving}
use socks.Server.Process.Lives.{Lives, All-middle, Serving-Lives}
use socks.Stream.Chunks.{Pace, take_in-Brought}
use socks.Exchange.{Outside, asked, server_read, outcome, advance, settle, completed}
use socks.Exchange.Stages.{settle-none}

-- A read that the server has done is over.
server_read-Completed :
    (pace : Pace) (a : Action) (k : ℕ) (w : World) (inbox : List ℕ) (P : Event → Type 0)
    → w.waits_for ≡ a
    → k ≡ length w.connection.buffer
    → ((got : List ℕ) → Completed a w no_error got → P (was_read no_error got))
    → Ensures (λ r. P r.0) (server_read pace k w inbox)
server_read-Completed pace a k w inbox P at size use_it =
    Ensures-then _ _ (take_in-Brought (asked w) pace k 0 [] inbox k (omega arith))
      (λ (got, rest, over) (le, stops).
        Ensures-if over _ _
          (λ e. gives (
            use_it got (
              omega arith,
              inr (elim (stops e) [ inl full ↦ inr (omega arith) | inr met ↦ inl (rw at at met) ]),
            )))
          (λ _. faults))

module _ (o : Outside) where
  outcome-OutcomeOf :
      (a : Action) (w : World) (inbox : List ℕ)
      → w.waits_for ≡ a
      → Holds w.sent w.local_endpoint w.joined (w.connection, a)
      → Ensures (λ r. OutcomeOf a w r.0) (outcome o a w inbox)
  outcome-OutcomeOf (read_greeting k) w inbox at (e, size, _, _) =
      server_read-Completed (o.server_pace (read_greeting k)) (read_greeting k) k w inbox
        (OutcomeOf (read_greeting k) w) at (omega arith) (λ got h. h)
  outcome-OutcomeOf (read_userpass k) w inbox at (e, size, _, _) =
      server_read-Completed (o.server_pace (read_userpass k)) (read_userpass k) k w inbox
        (OutcomeOf (read_userpass k) w) at (omega arith) (λ got h. h)
  outcome-OutcomeOf (read_request k) w inbox at (e, size, _, _) =
      server_read-Completed (o.server_pace (read_request k)) (read_request k) k w inbox
        (OutcomeOf (read_request k) w) at (omega arith) (λ got h. h)
  outcome-OutcomeOf (write_choice bytes) w inbox at h = gives tt
  outcome-OutcomeOf (write_status bytes) w inbox at h = gives tt
  outcome-OutcomeOf (write_reply bytes) w inbox at h = gives tt
  outcome-OutcomeOf (write_reply_v4 bytes) w inbox at h = gives tt
  outcome-OutcomeOf (resolve name port) w inbox at h = gives tt
  outcome-OutcomeOf (connect_target ep) w inbox at h = gives (inr (o.bound, refl))
  outcome-OutcomeOf (connect_target_v4 ep) w inbox at h = gives (inr (o.bound, refl))
  outcome-OutcomeOf relay w inbox at h = faults
  outcome-OutcomeOf close w inbox at h = faults
  outcome-OutcomeOf stop w inbox at h = faults
  outcome-OutcomeOf thrown w inbox at h = faults

  -- An operation that the server has done is one that it may do.
  advance-OutcomeOf :
      (w : World) (inbox outbox : List ℕ)
      → Reach w
      → Ensures
          (λ b.
            (event : Event) × OutcomeOf w.waits_for w event × (b.0 ≡ completed (handle event w) w))
          (advance o (w, inbox, outbox))
  advance-OutcomeOf w inbox outbox r =
      Ensures-then _ _ (outcome-OutcomeOf w.waits_for w inbox refl (Reach-Valid r))
        (λ (event, rest, out) can. gives (event, can, refl))

  -- Nothing follows the end of the process.
  settle-thrown :
      (n : ℕ) (w : World) (inbox outbox : List ℕ)
      → w.waits_for ≡ thrown
      → (settle o n (w, inbox, outbox)).0.waits_for ≡ thrown
  settle-thrown n w inbox outbox e = rw (settle-none o n (w, inbox, outbox) (rw e refl)) e

  -- A connection that still does an operation has no relay.
  OutcomeOf-talks :
      (a : Action) (w : World) (event : Event) → OutcomeOf a w event → goes_to a w ≡ talks w
  OutcomeOf-talks relay w event h = absurd h
  OutcomeOf-talks _ w event h = refl

  -- A connection among others is in a state that it can reach alone.
  goes_to-Reach : (a : Action) (w : World) → Lives (goes_to a w) → Reach w
  goes_to-Reach relay w (r, _, _) = r
  goes_to-Reach _ w r = r

  -- In whatever parts the messages arrive, whatever the client has sent and however many operations the executable server
  -- is run for, as one connection of a server that has any others: from a state that the server can reach, and unless a
  -- handler threw, it comes to one that the server can reach, with its relay started if it got there, and with the other
  -- connections as they were.
  pub settle-Serving :
      (front back : List Peer) (n : ℕ) (w : World) (inbox outbox : List ℕ)
      → ¬ ((settle o n (w, inbox, outbox)).0.waits_for ≡ thrown)
      → Serving (running (front ++ enter w ∷ back))
      → Serving (running (front ++ enter (settle o n (w, inbox, outbox)).0 ∷ back))
  unfolding settle
  settle-Serving front back zero w inbox outbox live h = h
  settle-Serving front back (suc n) w inbox outbox live h =
      elim (Option-cases (advance o (w, inbox, outbox))) [
        | inl stuck ↦ rw (stuck, settle) h
        | inr ((w', inbox', outbox'), did) ↦
            let r =
              goes_to-Reach w.waits_for w (All-middle (enter w) front back (Serving-Lives h)) in
            let (event, can, went) = Ensures-result (advance-OutcomeOf w inbox outbox r) did in
            let here = rw (OutcomeOf-talks w.waits_for w event can) at h in
            let live' : ¬ ((settle o n (w', inbox', outbox')).0.waits_for ≡ thrown) =
              rw (did, settle) at live in
            rw (did, settle)
              (elim (Option-cases (handle event w)) [
                | inl fault ↦
                    absurd (live' (settle-thrown n w' inbox' outbox' (rw (went, fault) refl)))
                | inr (v, gave) ↦
                    let same : w' ≡ v = rw gave at went in
                    settle-Serving front back n w' inbox' outbox' live'
                      (Process.later here (moves front back (handled event can (rw same gave))))
              ])
      ]
