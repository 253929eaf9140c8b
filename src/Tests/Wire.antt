-- ===== src/Tests/Wire.antt =====
-- The functions that write requests and read replies, on concrete bytes.
use socks.Base.{
  ℕ, ◌≡◌, ◌↔◌, ◌⊎◌, refl, inl, true, false, some, List, [], ◌∷◌, ◌++◌, replicate, take, arith,
}
use socks.Error.{ErrorCode, failed, socks_code}
use socks.Endpoint.{v4, v6, Endpoint, no_endpoint, Target, named, AuthOptions, with_userpass}
use socks.Requests.{prepare_request, prepare_userpass_request}
use socks.Requests.Decode.{decode_request, decode_userpass}
use socks.Requests.RoundTrip.{
  prepare_request-decode_request, prepare_userpass_request-decode_userpass,
}
use socks.Replies.{parse_reply_v5}
use socks.Replies.Accept.{reply_bytes, parse_reply_v5-reply_bytes}
use socks.Replies.Reject.{Granted, parse_reply_v5-Granted}
use socks.Replies.Frame.{Outcome, parse_reply_v5-Outcome}
use socks.V4.Request.{prepare_request_v4}
use socks.V4.Request.Layout.{decode_request_v4, prepare_request_v4-decode_request_v4}
use socks.V4.Reply.{parse_reply_v4}
use socks.V4.Reply.Granted.{parse_reply_v4_iff, parse_reply_v4-failed_iff}
use socks.V4.Connect.{connect_v4, async_connect_v4}
use socks.V4.Connect.Session.{session_v4, connect_v4-session_v4}
use socks.Stream.Played.{script}
use socks.V4.Connect.Agrees.{async_connect_v4-connect_v4}
use socks.Tests.Script.{from_host_order, from_host_order-MakesV4}

abbrev Is : ℕ → ℕ → Type 0
Is a b = a ≡ b

abbrev bob : AuthOptions
bob = with_userpass (98 ∷ 111 ∷ 98 ∷ []) (112 ∷ 119 ∷ [])

abbrev site : Target
site = named (record { domain = 97 ∷ 46 ∷ 98 ∷ []; port = 443 })

abbrev bnd_v6 : Endpoint
bnd_v6 = record {
  address = v6 (32 ∷ 1 ∷ 13 ∷ 184 ∷ 0 ∷ 0 ∷ 0 ∷ 0 ∷ 0 ∷ 0 ∷ 0 ∷ 0 ∷ 0 ∷ 0 ∷ 0 ∷ 1 ∷ []);
  port = 1080;
}

abbrev bnd_v4 : Endpoint
bnd_v4 = record { address = v4 192 168 1 9; port = 4660 }

prepare_request-decode_request_example :
    (k : ℕ) × (buf' : List ℕ) × (prepare_request 16 site (replicate 20 7) ≡ some (k, buf'))
    × (decode_request (take k buf') ≡ some site)
prepare_request-decode_request_example =
    prepare_request-decode_request 16 site (replicate 20 7) (omega arith) (omega arith)
      (omega arith)

prepare_userpass_request-decode_userpass_example :
    (k : ℕ) × (buf' : List ℕ) × (prepare_userpass_request 16 bob (replicate 20 7) ≡ some (k, buf'))
    × ((decode_userpass (take k buf') ≡ some (98 ∷ 111 ∷ 98 ∷ [], 112 ∷ 119 ∷ [], [])) ↔ (Is 3 2))
prepare_userpass_request-decode_userpass_example =
    prepare_userpass_request-decode_userpass 16 bob (replicate 20 7) (omega arith) (omega arith)
      (omega arith)

parse_reply_v5-reply_bytes_example :
    parse_reply_v5 from_host_order 22 (reply_bytes 0 bnd_v6 ++ 9 ∷ []) ≡ some (bnd_v6, socks_code 0)
parse_reply_v5-reply_bytes_example =
    parse_reply_v5-reply_bytes from_host_order from_host_order-MakesV4 bnd_v6 0 (9 ∷ [])
      (omega arith)

accepted_v4 :
    parse_reply_v5 from_host_order 10 (reply_bytes 0 bnd_v4 ++ replicate 12 0)
    ≡ some (bnd_v4, socks_code 0)
accepted_v4 =
    parse_reply_v5-reply_bytes from_host_order from_host_order-MakesV4 bnd_v4 0 (replicate 12 0)
      (omega arith)

code_0_passes : failed (socks_code 0) ≡ false
unfolding failed
code_0_passes = refl

parse_reply_v5-Granted_example :
    Granted 10 (reply_bytes 0 bnd_v4 ++ replicate 12 0) bnd_v4 × (socks_code 0 ≡ socks_code 0)
parse_reply_v5-Granted_example =
    parse_reply_v5-Granted from_host_order from_host_order-MakesV4 10 bnd_v4 (socks_code 0)
      (reply_bytes 0 bnd_v4 ++ replicate 12 0) (omega arith) (omega arith) accepted_v4 code_0_passes

parse_reply_v5-Outcome_example :
    Outcome from_host_order (parse_reply_v5 from_host_order 10 (reply_bytes 0 bnd_v4))
parse_reply_v5-Outcome_example =
    parse_reply_v5-Outcome from_host_order (reply_bytes 0 bnd_v4) (inl refl)

prepare_request_v4-decode_request_v4_example :
    let ep : Endpoint = record { address = v4 10 0 0 7; port = 8080 } in
    (buf' : List ℕ) × (prepare_request_v4 10 ep (97 ∷ []) (replicate 10 0) ≡ some (10, buf'))
    × (decode_request_v4 buf' ≡ some (ep, 97 ∷ [], []))
prepare_request_v4-decode_request_v4_example =
    prepare_request_v4-decode_request_v4 8080 10 0 0 7 (97 ∷ []) (replicate 10 0) (omega arith)
      (ground arith) refl

parse_reply_v4_iff_example :
    (parse_reply_v4 from_host_order 8 (0 ∷ 90 ∷ 18 ∷ 52 ∷ 192 ∷ 168 ∷ 1 ∷ 9 ∷ [])
      ≡ some (bnd_v4, socks_code 90))
    ↔ ((Is 52 192) × (Is 192 168) × (Is 168 1) × (Is 1 9))
parse_reply_v4_iff_example =
    parse_reply_v4_iff from_host_order from_host_order-MakesV4 0 4660 192 168 1 9 [] (inl refl)
      (omega arith) (omega arith)

parse_reply_v4-failed_iff_example :
    (ep : Endpoint) × (ec : ErrorCode) × (parse_reply_v4 from_host_order 8
        (0 ∷ 91 ∷ 0 ∷ 0 ∷ 0 ∷ 0 ∷ 0 ∷ 0 ∷ [])
      ≡ some (ep, ec))
    × ((failed ec ≡ false) ↔ (((Is 0 0) ⊎ (Is 0 4)) × (Is 91 90)))
    × (failed ec ≡ true → ep ≡ no_endpoint)
parse_reply_v4-failed_iff_example =
    parse_reply_v4-failed_iff from_host_order from_host_order-MakesV4 0 91 0 0 0 0 0 0 []
      (omega arith)

abbrev granted_v4 : List ℕ
granted_v4 = 0 ∷ 90 ∷ 18 ∷ 52 ∷ 192 ∷ 168 ∷ 1 ∷ 9 ∷ []

connect_v4-session_v4_example :
    connect_v4 script from_host_order granted_v4
      (record { address = v4 10 0 0 7; port = 8080 })
      (97 ∷ [])
    ≡ session_v4 script from_host_order granted_v4 8080 10 0 0 7 (97 ∷ [])
connect_v4-session_v4_example =
    connect_v4-session_v4 script from_host_order granted_v4 8080 10 0 0 7 (97 ∷ []) (omega arith)

async_connect_v4-connect_v4_example :
    let ep : Endpoint = record { address = v4 10 0 0 7; port = 8080 } in
    async_connect_v4 script from_host_order granted_v4 ep (97 ∷ [])
    ≡ connect_v4 script from_host_order granted_v4 ep (97 ∷ [])
async_connect_v4-connect_v4_example =
    async_connect_v4-connect_v4 script from_host_order granted_v4
      (record { address = v4 10 0 0 7; port = 8080 }) (97 ∷ []) refl (omega arith)
