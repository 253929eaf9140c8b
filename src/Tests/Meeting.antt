-- ===== src/Tests/Meeting.antt =====
-- The server in the states that it reaches, and the client's session with it.
use socks.Base.{ℕ, ◌≡◌, refl, false, some, none, List, [], ◌∷◌, replicate, arith}
use socks.Base.Memory.{overlay}
use socks.Error.{no_error, failed, socks_code, make_error_code, bad_reply_size}
use socks.Endpoint.{
  v4, Endpoint, no_endpoint, no_auth, DomainEndpoint, host, AuthOptions, with_userpass,
}
use socks.Connect.{connect_host, connect_domain}
use socks.Requests.Layout.{request_bytes, userpass_bytes}
use socks.Server.{write_choice}
use socks.Server.Greeting.{
  on_choice_written, do_read_connect_request, parse_socks_greeting, do_server_choice,
}
use socks.Server.Request.{request_cond, on_greeting}
use socks.Server.Run
use socks.Server.Run.{
  World, was_read, was_written, was_connected, handle, on_event, accepted, create, completes, Reach,
  here, next,
}
use socks.Server.Run.Invariant.{Valid}
use socks.Server.Run.Reached.{Reach-Valid, Reach-condition}
use socks.Exchange.{Outside, exchange}
use socks.Exchange.Stages.{replying, waiting, answered, request_stage, connect_stage, reply_stage}
use socks.Exchange.Session.{begun, negotiated}
use socks.Exchange.Completes.{connect_host-exchange, connect_domain-exchange}
use socks.Exchange.Userpass.{connect_host-userpass, offered}
use socks.Exchange.CompletesV4.{connect_v4-together, answered_v4}
use socks.V4.Connect.{connect_v4}
use socks.Exchange.Credentials.{awaiting}
use socks.Tests.Script.{from_host_order, from_host_order-MakesV4}

abbrev Is : ℕ → ℕ → Type 0
Is a b = a ≡ b

abbrev pub shop : Endpoint
shop = record { address = v4 10 0 0 7; port = 8080 }

abbrev pub gate : Endpoint
gate = record { address = v4 192 168 1 9; port = 4660 }

abbrev shop_name : DomainEndpoint
shop_name = record { domain = 97 ∷ 46 ∷ 98 ∷ []; port = 443 }

abbrev pub eva : AuthOptions
eva = with_userpass (101 ∷ []) (112 ∷ 119 ∷ [])

-- Bytes in pairs, and a target that is reached.
abbrev pub quick : Outside
quick = record {
  server_pace = λ a n. 1;
  client_pace = λ n. 3;
  resolve_error = no_error;
  found = shop;
  connect_error = no_error;
  bound = gate;
}

abbrev slow : Outside
slow = record quick { server_pace = λ a n. 0 }

abbrev pub choice_sent : List (List ℕ)
choice_sent = (5 ∷ 0 ∷ []) ∷ []

connect_host-exchange_example :
    connect_host (exchange quick) from_host_order (replicate 513 0) begun shop no_auth no_error
    ≡ some ((answered negotiated choice_sent shop quick, [], []), gate, socks_code 0)
unfolding failed
connect_host-exchange_example =
    connect_host-exchange quick (omega arith) from_host_order (replicate 513 0) shop no_auth
      no_error from_host_order-MakesV4 (omega arith) (omega arith) refl refl

connect_domain-exchange_example :
    connect_domain
      (exchange quick)
      from_host_order
      (replicate 513 0)
      begun
      (97 ∷ 46 ∷ 98 ∷ [])
      443
      no_auth
      no_error
    ≡ some ((answered negotiated choice_sent shop quick, [], []), gate, socks_code 0)
unfolding failed
connect_domain-exchange_example =
    connect_domain-exchange quick (omega arith) from_host_order (replicate 513 0) shop_name no_auth
      no_error from_host_order-MakesV4 (omega arith) (omega arith) refl refl

connect_host-userpass_example :
    connect_host (exchange quick) from_host_order (replicate 513 0) begun shop eva no_error
    ≡ some ((awaiting offered, userpass_bytes eva, []), no_endpoint, make_error_code bad_reply_size)
connect_host-userpass_example =
    connect_host-userpass quick from_host_order (replicate 513 0) shop eva no_error (omega arith)
      from_host_order-MakesV4 (omega arith) (omega arith) refl refl

abbrev chosen : World
chosen = record {
  connection = record { buffer = 5 ∷ 0 ∷ []; server_choice = 0; target = no_endpoint };
  waits_for = write_choice (5 ∷ 0 ∷ []);
  local_endpoint = none;
  sent = [];
  joined = false;
}

greets : Reach chosen
unfolding handle on_event on_greeting parse_socks_greeting do_server_choice failed create Run.start
greets = next here (completes (was_read no_error (5 ∷ 1 ∷ 0 ∷ [])) (omega arith) refl)

pub waits_for_request : Reach (waiting negotiated choice_sent)
unfolding handle on_event on_choice_written do_read_connect_request failed
waits_for_request = next greets (completes (was_written no_error) tt refl)

replies : Reach (replying negotiated choice_sent shop quick)
replies =
    let asked = next waits_for_request (
      completes (was_read no_error (request_bytes (host shop))) (omega arith)
        (request_stage negotiated choice_sent shop (omega arith))) in
    next asked (
      completes (was_connected no_error (some gate)) tt
        (connect_stage quick negotiated choice_sent shop (request_bytes (host shop)) (omega arith)))

relays : Reach (answered negotiated choice_sent shop quick)
relays =
    next replies
      (completes (was_written no_error) tt (reply_stage quick negotiated choice_sent shop))

-- 4660 is 0x1234: the address begins with 0x34.
connect_v4-together_example :
    connect_v4 (exchange quick) from_host_order begun shop (101 ∷ [])
    ≡ some (
      (answered_v4 quick 192 168 1 9 4660 shop, [], []),
      record { address = v4 52 192 168 1; port = 4660 },
      socks_code 90,
    )
unfolding failed
connect_v4-together_example =
    connect_v4-together quick 0 from_host_order 8080 10 0 0 7 (101 ∷ []) 192 168 1 9 4660 refl
      from_host_order-MakesV4 (omega arith) refl (omega arith) (omega arith)

Reach-Valid_example : Valid chosen
Reach-Valid_example = Reach-Valid greets

Reach-condition_example :
    (v : ℕ) × (request_cond (overlay (5 ∷ 1 ∷ []) negotiated.buffer) no_error 2 ≡ some v)
Reach-condition_example = Reach-condition waits_for_request no_error (5 ∷ 1 ∷ []) (omega arith)

-- The name has 257 bytes: the server has the name "a" resolved.
abbrev long_name : DomainEndpoint
long_name = record { domain = replicate 257 97; port = 443 }
