-- ===== src/Exchange/Userpass.antt =====
-- include/boost/socks/impl/connect.hpp with example/server/async/socks_server_async.cpp: a session with
-- credentials, from the greeting to the server's answer.
use socks.Base.{
  ℕ, zero, suc, ◌+◌, ◌≤◌, ◌<◌, ◌≡◌, refl, ◌∙◌, true, false, none, some, List, [], ◌∷◌, length,
  length-append, take, replicate, arith, Bool-cases, inl, inr, ◌==◌, ==_iff, if◌then◌else◌,
}
use socks.Error.{ErrorCode, no_error, failed, socks_code, make_error_code, bad_reply_size, is_eof}
use socks.Endpoint.{
  Address, Endpoint, no_endpoint, host, AuthOptions, IsEndpoint, FitsRequest, Target,
}
use socks.Requests.Layout.{userpass_bytes}
use socks.Replies.{MakesV4}
use socks.Stream.Chunks.{Pace, take_in}
use socks.Stream.Chunks.Ends.{takes}
use socks.Connect.{connect_host}
use socks.Connect.Session.{
  session_auth, session_choice, session_userpass, session, choice_result, userpass_result,
}
use socks.Connect.Session.Refines.{connect_host-session}
use socks.Server.{Connection, read_greeting, write_choice, write_status}
use socks.Server.Greeting.{
  greeting_cond, userpass_cond, parse_socks_greeting, do_server_choice, do_userpass_greet,
  do_read_connect_request, on_choice_written, on_status_written,
}
use socks.Server.Request.{request_cond, on_greeting, on_userpass}
use socks.Server.Interop.{parse_userpass_greeting_iff}
use socks.Server.Run.{World, was_read, accepted, handle, on_event, create, start}
use socks.Server.Conditions.{resize-overlay}
use socks.Exchange.{Outside, asked, exchange, settle}
use socks.Exchange.Stages.{waiting, answered, settle-advance, settle-host}
use socks.Exchange.Session.{begun, reply_stage, session_stage, exchange-IsLawful}
use socks.Exchange.Credentials.{awaiting, settle-userpass_bytes, filled}

chosen : World
chosen = record {
  connection = record { buffer = 5 ∷ 2 ∷ []; server_choice = 2; target = no_endpoint };
  waits_for = write_choice (5 ∷ 2 ∷ []);
  local_endpoint = none;
  sent = [];
  joined = false;
}

-- The connection when it waits for the credentials, and when it waits for the request behind them.
abbrev pub offered : Connection
offered = record { buffer = 5 ∷ 2 ∷ replicate 511 0; server_choice = 2; target = no_endpoint }

abbrev pub admitted : Connection
admitted = record { buffer = 1 ∷ 0 ∷ replicate 261 0; server_choice = 2; target = no_endpoint }

abbrev pub both_sent : List (List ℕ)
both_sent = (1 ∷ 0 ∷ []) ∷ (5 ∷ 2 ∷ []) ∷ []

accepting : World
accepting = record {
  connection = record { buffer = 1 ∷ 0 ∷ []; server_choice = 2; target = no_endpoint };
  waits_for = write_status (1 ∷ 0 ∷ []);
  local_endpoint = none;
  sent = (5 ∷ 2 ∷ []) ∷ [];
  joined = false;
}

-- The read of the greeting of four bytes, in whatever parts they arrive.
greeting_read :
    (pace : Pace)
    → take_in (asked accepted) pace 258 0 [] (5 ∷ 2 ∷ 0 ∷ 2 ∷ [])
      ≡ some (5 ∷ 2 ∷ 0 ∷ 2 ∷ [], [], true)
unfolding greeting_cond create start failed
greeting_read pace =
    takes (asked accepted) pace (5 ∷ 2 ∷ 0 ∷ 2 ∷ []) 0 refl goes 258 0 [] (5 ∷ 2 ∷ 0 ∷ 2 ∷ []) refl
      (omega arith) (omega arith)
  where
    goes :
        (n : ℕ)
        → 0 ≤ n
        → n < 4
        → (more : ℕ) × (asked accepted (take n (5 ∷ 2 ∷ 0 ∷ 2 ∷ [])) ≡ some (suc more))
    goes zero h l = (257, refl)
    goes (suc zero) h l = (256, refl)
    goes (suc (suc zero)) h l = (1, refl)
    goes (suc (suc (suc zero))) h l = (0, refl)
    goes (suc (suc (suc (suc n)))) h l = absurd (omega arith)

module _ (o : Outside) (opt : AuthOptions) where
  greeting_stage :
      settle o 4 (accepted, 5 ∷ 2 ∷ 0 ∷ 2 ∷ [], []) ≡ (awaiting offered, [], 5 ∷ 2 ∷ [])
  unfolding chosen settle handle on_event on_greeting parse_socks_greeting do_server_choice
      on_choice_written do_userpass_greet greeting_cond userpass_cond create start failed
  greeting_stage =
      settle-advance o 3 (accepted, 5 ∷ 2 ∷ 0 ∷ 2 ∷ [], []) (chosen, [], [])
        (rw (greeting_read (o.server_pace (read_greeting 258))) refl)
      ∙ refl

  module _ (fits : length (userpass_bytes opt) ≤ 513) where
    userpass_stage :
        length opt.user ≤ length opt.pass
        → handle (was_read no_error (userpass_bytes opt)) (awaiting offered) ≡ some accepting
    unfolding accepting handle on_event on_userpass failed
    userpass_stage h =
        rw
          (
            resize-overlay (userpass_bytes opt) offered.buffer,
            (parse_userpass_greeting_iff offered opt).1 h,
          )
          refl

    settle-filled :
        length (userpass_bytes opt) ≡ 513
        → length opt.user ≤ length opt.pass
        → settle o 4 (awaiting offered, userpass_bytes opt, [])
          ≡ (waiting admitted both_sent, [], 1 ∷ 0 ∷ [])
    unfolding accepting settle handle on_event on_status_written do_read_connect_request
        request_cond failed
    settle-filled l h =
        settle-advance o 3 (awaiting offered, userpass_bytes opt, []) (accepting, [], [])
          (rw (filled o offered opt refl fits l) (rw (userpass_stage h) refl))
        ∙ refl

    -- The credentials are accepted where they fill the server's buffer, and not answered where they do not.
    auth_filled :
        opt.is_userpass ≡ true
        → length (userpass_bytes opt) ≡ 513
        → length opt.user ≤ length opt.pass
        → session_auth (exchange o) begun opt ≡ ((waiting admitted both_sent, [], []), no_error)
    unfolding session_auth session_choice session_userpass choice_result userpass_result failed
    auth_filled e l h = rw e (rw greeting_stage (rw (settle-filled l h) refl))

    auth_unanswered :
        opt.is_userpass ≡ true
        → length (userpass_bytes opt) < 513
        → session_auth (exchange o) begun opt
          ≡ ((awaiting offered, userpass_bytes opt, []), make_error_code bad_reply_size)
    unfolding session_auth session_choice session_userpass choice_result userpass_result failed
        is_eof
    auth_unanswered e l =
        rw e (rw greeting_stage (rw (settle-userpass_bytes o offered opt refl fits 4 l) refl))

    session_unanswered :
        (mk : ℕ → Address) (t : Target)
        → opt.is_userpass ≡ true
        → length (userpass_bytes opt) < 513
        → session (exchange o) mk begun t opt
          ≡ some (
            (awaiting offered, userpass_bytes opt, []),
            no_endpoint,
            make_error_code bad_reply_size,
          )
    unfolding session failed make_error_code
    session_unanswered mk t e l = rw (auth_unanswered e l) refl

-- Between the client and the example server, with a network that loses nothing and delivers each message in any parts, a
-- target's side that answers the connection with any error code and with a valid endpoint `bound`, a
-- `make_address_v4` that gives the address of a number, options with user/pass whose strings have at
-- most 255 bytes, a valid endpoint and a buffer of 513 bytes: only if both strings have 255 bytes does the
-- server read the credentials to their end; then it accepts them, and `connect` returns as without
-- credentials. Else the server waits for more, with all of the credentials received and nothing
-- answered, and `connect` fails with `bad_reply_size` when the connection ends.
pub connect_host-userpass :
    (o : Outside) (mk : ℕ → Address) (buf : List ℕ) (ep : Endpoint) (opt : AuthOptions)
    (ec : ErrorCode)
    → IsEndpoint o.bound
    → MakesV4 mk
    → IsEndpoint ep
    → FitsRequest opt
    → opt.is_userpass ≡ true
    → length buf ≡ 513
    → connect_host (exchange o) mk buf begun ep opt ec ≡ (
        if length opt.user + length opt.pass == 510
        then some (
          (answered admitted both_sent ep o, [], []),
          if failed o.connect_error then no_endpoint else o.bound,
          socks_code (if failed o.connect_error then 4 else 0),
        )
        else some (
          (awaiting offered, userpass_bytes opt, []),
          no_endpoint,
          make_error_code bad_reply_size,
        ))
connect_host-userpass o mk buf ep opt ec h m valid fits e whole =
    let size = length-append opt.user (length opt.user ∷ opt.pass) in
    let total : length (userpass_bytes opt) ≡ 3 + length opt.user + length opt.pass = omega arith in
    let all : length (userpass_bytes opt) ≤ 513 = omega arith in
    connect_host-session (exchange o) (exchange-IsLawful o) mk ep opt begun buf ec valid fits whole
    ∙ elim (Bool-cases (length opt.user + length opt.pass == 510)) [
      | inl full ↦
          let sum = (==_iff _ _).0 full in
          rw full (
            session_stage o mk (host ep) opt _ _ _
              (auth_filled o opt all e (omega arith) (omega arith))
              (settle-host o h admitted both_sent refl ep valid)
            ∙ reply_stage o mk (answered admitted both_sent ep o) m h)
      | inr part ↦
          let short : length (userpass_bytes opt) < 513 = ground arith in
          rw part (session_unanswered o opt all mk (host ep) e short)
    ]
