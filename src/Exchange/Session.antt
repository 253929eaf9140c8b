-- ===== src/Exchange/Session.antt =====
-- include/boost/socks/impl/connect.hpp with example/server/async/socks_server_async.cpp: the parts of a session,
-- from the greeting to the server's answer.
use socks.Base.{
  ℕ, zero, suc, ◌<◌, ◌≤◌, ◌≡◌, refl, ◌∙◌, true, false, some, none, List, [], ◌∷◌, take, arith,
  replicate, if◌then◌else◌,
}
use socks.Error.{no_error, failed, socks_code, make_error_code, bad_reply_size, is_eof}
use socks.Endpoint.{Address, no_endpoint, Target, AuthOptions, IsEndpoint}
use socks.Requests.Layout.{request_bytes}
use socks.Replies.{MakesV4, read_reply_cond}
use socks.Stream.{IsLawful}
use socks.Stream.Chunks.{Pace, take_in}
use socks.Stream.Chunks.Ends.{takes}
use socks.Stream.Played.{paced-IsLawful}
use socks.Connect.Session.{
  session_auth, session, session_choice, session_reply, session_request, choice_result,
}
use socks.Server.{Connection, read_greeting, write_choice}
use socks.Server.Run.{World, accepted, handle, on_event, create, start}
use socks.Server.Greeting.{
  greeting_cond, parse_socks_greeting, do_server_choice, do_read_connect_request, on_choice_written,
}
use socks.Server.Request.{request_cond, on_greeting}
use socks.Exchange.{Outside, asked, exchange, settle}
use socks.Exchange.Stages.{waiting, answer, settle-advance}
use socks.Exchange.Answer.{play_cond-answer, answer-length, parse_reply_v5-answer}

-- Both sides before the session, and what the server's connection is after the greeting.
abbrev pub begun : World × List ℕ × List ℕ
begun = (accepted, [], [])

abbrev pub negotiated : Connection
negotiated = record { buffer = 5 ∷ 0 ∷ replicate 261 0; server_choice = 0; target = no_endpoint }

abbrev pub greeted : List (List ℕ)
greeted = (5 ∷ 0 ∷ []) ∷ []

chosen : World
chosen = record {
  connection = record { buffer = 5 ∷ 0 ∷ []; server_choice = 0; target = no_endpoint };
  waits_for = write_choice (5 ∷ 0 ∷ []);
  local_endpoint = none;
  sent = [];
  joined = false;
}

-- The read of the greeting of three bytes, in whatever parts they arrive.
greeting_read :
    (pace : Pace)
    → take_in (asked accepted) pace 258 0 [] (5 ∷ 1 ∷ 0 ∷ []) ≡ some (5 ∷ 1 ∷ 0 ∷ [], [], true)
unfolding greeting_cond create start failed
greeting_read pace =
    takes (asked accepted) pace (5 ∷ 1 ∷ 0 ∷ []) 0 refl goes 258 0 [] (5 ∷ 1 ∷ 0 ∷ []) refl
      (omega arith) (omega arith)
  where
    goes :
        (n : ℕ)
        → 0 ≤ n
        → n < 3
        → (more : ℕ) × (asked accepted (take n (5 ∷ 1 ∷ 0 ∷ [])) ≡ some (suc more))
    goes zero h l = (257, refl)
    goes (suc zero) h l = (256, refl)
    goes (suc (suc zero)) h l = (0, refl)
    goes (suc (suc (suc n))) h l = absurd (omega arith)

module _ (o : Outside) where
  pub greeting_stage :
      settle o 4 (accepted, 5 ∷ 1 ∷ 0 ∷ [], []) ≡ (waiting negotiated greeted, [], 5 ∷ 0 ∷ [])
  unfolding chosen settle handle on_event on_greeting parse_socks_greeting do_server_choice
      on_choice_written do_read_connect_request greeting_cond request_cond create start failed
  greeting_stage =
      settle-advance o 3 (accepted, 5 ∷ 1 ∷ 0 ∷ [], []) (chosen, [], [])
        (rw (greeting_read (o.server_pace (read_greeting 258))) refl)
      ∙ refl

  pub auth_stage :
      (opt : AuthOptions)
      → opt.is_userpass ≡ false
      → session_auth (exchange o) begun opt ≡ ((waiting negotiated greeted, [], []), no_error)
  unfolding session_auth session_choice choice_result failed
  auth_stage opt e = rw e (rw greeting_stage refl)

  pub reply_stage :
      (mk : ℕ → Address) (w : World)
      → MakesV4 mk
      → IsEndpoint o.bound
      → session_reply (exchange o) mk (w, [], answer o)
        ≡ some (
          (w, [], []),
          if failed o.connect_error then no_endpoint else o.bound,
          socks_code (if failed o.connect_error then 4 else 0),
        )
  unfolding session_reply failed
  reply_stage mk w m h =
      rw (play_cond-answer o h o.client_pace, answer-length o h, parse_reply_v5-answer o h mk m)
        refl

  -- A server that waits and has not answered.
  pub silent_stage :
      (mk : ℕ → Address) (w : World)
      → session_reply (exchange o) mk (w, [], [])
        ≡ some ((w, [], []), no_endpoint, make_error_code bad_reply_size)
  unfolding session_reply failed is_eof read_reply_cond
  silent_stage mk w = refl

  pub exchange-IsLawful : IsLawful (exchange o)
  exchange-IsLawful = record {
    read_le = λ s k. (paced-IsLawful o.client_pace).read_le s.2 k;
    read_full = λ s k f. (paced-IsLawful o.client_pace).read_full s.2 k f;
    read_short = λ s k f. (paced-IsLawful o.client_pace).read_short s.2 k f;
    read_bytes = λ s k. (paced-IsLawful o.client_pace).read_bytes s.2 k;
    read_cond_le = λ s k cond. (paced-IsLawful o.client_pace).read_cond_le s.2 k cond;
    read_cond_stops = λ s k cond f. (paced-IsLawful o.client_pace).read_cond_stops s.2 k cond f;
    read_cond_bytes = λ s k cond. (paced-IsLawful o.client_pace).read_cond_bytes s.2 k cond;
  }

  -- The session, from what the greeting, the credentials and the request make of the server.
  pub session_stage :
      (mk : ℕ → Address) (t : Target) (opt : AuthOptions) (w w' : World) (out : List ℕ)
      → session_auth (exchange o) begun opt ≡ ((w, [], []), no_error)
      → settle o 4 (w, request_bytes t, []) ≡ (w', [], out)
      → session (exchange o) mk begun t opt ≡ session_reply (exchange o) mk (w', [], out)
  unfolding session session_request failed
  session_stage mk t opt w w' out auth run = rw auth (rw run refl)
