-- ===== src/Tests/Peers.antt =====
-- The server with its connections: as a process, and with the relay of one.
use socks.Base.{◌≤◌, ◌≡◌, ℕ, refl, inl, inr, none, some, List, [], ◌∷◌, length, All, subst, arith}
use socks.Error.{no_error, failed}
use socks.Endpoint.{Endpoint, host}
use socks.Server.Request.{request_cond}
use socks.Server.Relay.{Relay, reading, do_relay, do_relay_from, on_client_read, client_read}
use socks.Server.Run.{World, Event, was_read, handle, accepted, create}
use socks.Server.Run
use socks.Server.Run.Refused.{Refused, command_v4}
use socks.Server.Run.Faults.{OutcomeOf, IsReply, opened, OrThrows, Reach-OrThrows}
use socks.Server.Process
use socks.Server.Process.{
  SocksServer, enter, Peer, talks, relays, passed, moves, running, over, threw, Runs, accepts,
  Serving, listening, on_accepted,
}
use socks.Server.Process.Relays.{PassesOn, Serving-PassesOn}
use socks.Server.Process.Over.{Serving-Refused, Serving-over}
use socks.Exchange.Steps.{settle-Serving}
use socks.Exchange.Stages.{waiting, answered, settle-host}
use socks.Exchange.Session.{negotiated, greeting_stage}
use socks.Requests.Layout.{request_bytes}
use socks.Tests.Meeting.{quick, gate, shop, choice_sent, waits_for_request}

-- A BIND request, over SOCKS5 and SOCKS4.
abbrev binds : List ℕ
binds = 5 ∷ 2 ∷ 0 ∷ 1 ∷ 10 ∷ 0 ∷ 0 ∷ 7 ∷ 31 ∷ 144 ∷ []

abbrev binds_v4 : List ℕ
binds_v4 = 4 ∷ 2 ∷ 31 ∷ 144 ∷ 10 ∷ 0 ∷ 0 ∷ 7 ∷ 0 ∷ []

binds_over :
    OutcomeOf
      (waiting negotiated choice_sent).waits_for
      (waiting negotiated choice_sent)
      (was_read no_error binds)
unfolding request_cond failed
binds_over = (omega arith, inr (inl refl))

Reach-OrThrows_example :
    let w = waiting negotiated choice_sent in
    OrThrows w
      (handle (was_read no_error binds) w)
      (handle (was_read no_error binds) (opened gate w))
Reach-OrThrows_example = Reach-OrThrows (was_read no_error binds) waits_for_request binds_over gate

two : Serving (running (talks accepted ∷ talks accepted ∷ []))
unfolding on_accepted failed
two =
    Process.later (Process.later listening (accepts no_error (some shop) refl))
      (accepts no_error (some gate) refl)

-- A connection that asked for `shop`, and got it, and its relay.
abbrev served : World
served = answered negotiated choice_sent shop quick

abbrev started : Relay
started = do_relay served.connection.buffer []

waits : Serving (running (talks (waiting negotiated choice_sent) ∷ []))
unfolding Run.start create on_accepted failed
waits =
    subst (λ b. Serving (running (enter b.0 ∷ []))) (greeting_stage quick)
      (settle-Serving quick [] [] 4 accepted (5 ∷ 1 ∷ 0 ∷ []) []
        (λ e. let k = rw (greeting_stage quick) at e in absurd (cc))
        (Process.later listening (accepts no_error (some shop) refl)))

serves : Serving (running (relays served started ∷ []))
unfolding failed
serves =
    subst (λ b. Serving (running (enter b.0 ∷ [])))
      (settle-host quick (omega arith) negotiated choice_sent refl shop (omega arith))
      (settle-Serving quick [] [] 4 (waiting negotiated choice_sent) (request_bytes (host shop)) []
        (λ e.
          let k =
            rw (settle-host quick (omega arith) negotiated choice_sent refl shop (omega arith)) at
              e in
          absurd (cc))
        waits)

first_size : 2 ≤ length started.from_client.buffer
unfolding do_relay do_relay_from failed
first_size = omega arith

is_reading : started.from_client.half ≡ reading
unfolding do_relay do_relay_from failed
is_reading = refl

Serving-PassesOn_example :
    All PassesOn (relays served (on_client_read no_error (7 ∷ 8 ∷ []) started) ∷ [])
Serving-PassesOn_example = Serving-PassesOn (
    Process.later serves
      (moves [] [] (passed (client_read no_error (7 ∷ 8 ∷ []) (is_reading, first_size)))))

abbrev refused : Event
refused = was_read no_error binds_v4

refuses : Refused accepted refused
unfolding Run.start create
refuses =
    command_v4 258 2 (31 ∷ 144 ∷ 10 ∷ 0 ∷ 0 ∷ 7 ∷ 0 ∷ []) refl (λ e. absurd (omega arith))
      (omega arith)

Serving-Refused_example :
    Runs (running (talks accepted ∷ talks accepted ∷ [])) (over (threw accepted refused))
Serving-Refused_example = Serving-Refused (talks accepted ∷ []) [] refused two refuses

Serving-over_example :
    Run.Reach accepted
    × OutcomeOf accepted.waits_for accepted refused
    × (accepted.local_endpoint ≡ none)
    × ((ep : Endpoint)
        → (w' : World) × (handle refused (opened ep accepted) ≡ some w') × IsReply w'.waits_for)
Serving-over_example =
    Serving-over (Process.later two (Serving-Refused (talks accepted ∷ []) [] refused two refuses))
