-- ===== src/Tests/Client.antt =====
-- The connect functions on scripts of a server's answers.
use socks.Base.{ℕ, ◌≡◌, refl, ◌∙◌, inr, true, false, some, List, [], ◌∷◌, ◌++◌, replicate, arith}
use socks.Error.{
  ErrorCode, no_error, failed, is_eof, equals_succeeded, socks_code, make_error_code,
  bad_reply_size,
}
use socks.Endpoint.{
  v4, Endpoint, no_endpoint, DomainEndpoint, host, named, AuthOptions, IsEndpoint, no_auth,
  with_userpass,
}
use socks.Requests.Layout.{request_bytes, userpass_bytes}
use socks.Codes.{to_reply_code, to_address_type}
use socks.Replies.{read_reply_cond, parse_reply_v5}
use socks.Replies.Accept.{reply_bytes}
use socks.Connect.{connect_host, connect_domain}
use socks.Connect.Session.{
  readable, session, session_auth, session_condition, session_userpass, session_choice,
  session_request, session_reply, choice_result, userpass_result,
}
use socks.Connect.Session.Refines.{connect_host-session, connect_domain-session}
use socks.Connect.Session.Sound.{Negotiated}
use socks.Connect.Overrun.{connect_host-overrun}
use socks.Connect.Session.Sent.{recorder, Sent, Requested, connect_host-Sent}
use socks.Connect.Correct.{connect_host_total, connect_host_accepted}
use socks.ConnectOp.{async_connect_host, async_connect_domain}
use socks.ConnectOp.Agrees.{async_connect_host-connect_host, async_connect_domain-connect_domain}
use socks.Stream.Played.{paced, script, script-IsLawful, script-FailsByEof}
use socks.Tests.Script.{from_host_order, from_host_order-MakesV4, broken}

abbrev ann : AuthOptions
ann = with_userpass (97 ∷ 110 ∷ []) (112 ∷ 119 ∷ [])

abbrev app : Endpoint
app = record { address = v4 10 0 0 7; port = 8080 }

abbrev bound : Endpoint
bound = record { address = v4 192 168 1 9; port = 4660 }

abbrev app_name : DomainEndpoint
app_name = record { domain = 97 ∷ 46 ∷ 98 ∷ []; port = 443 }

-- The method user/pass, the status 0, and a granted reply.
abbrev answers : List ℕ
answers = 5 ∷ 2 ∷ 1 ∷ 0 ∷ 5 ∷ 0 ∷ 0 ∷ 1 ∷ 192 ∷ 168 ∷ 1 ∷ 9 ∷ 18 ∷ 52 ∷ []

abbrev zeros : List ℕ
zeros = replicate 513 0

connect_host-session_example :
    connect_host script from_host_order zeros answers app ann no_error
    ≡ session script from_host_order answers (host app) ann
connect_host-session_example =
    connect_host-session script script-IsLawful from_host_order app ann answers zeros no_error
      (omega arith) (omega arith) refl

connect_domain-session_example :
    connect_domain script from_host_order zeros answers (97 ∷ 46 ∷ 98 ∷ []) 443 ann no_error
    ≡ session script from_host_order answers (named app_name) ann
connect_domain-session_example =
    connect_domain-session script script-IsLawful from_host_order (97 ∷ 46 ∷ 98 ∷ []) 443 ann
      answers zeros no_error (omega arith) (omega arith) refl

connect_host_total_example :
    (r : List ℕ × Endpoint × ErrorCode) × (connect_host script from_host_order zeros answers app ann
        no_error
      ≡ some r)
    × (failed r.2 ≡ true → r.1 ≡ no_endpoint)
connect_host_total_example =
    connect_host_total script script-IsLawful from_host_order app ann answers zeros no_error
      (omega arith) (omega arith) refl

not_failed : failed (socks_code 0) ≡ false
unfolding failed
not_failed = refl

connected :
    connect_host script from_host_order zeros answers app ann no_error
    ≡ some ([], bound, socks_code 0)
unfolding session session_auth session_choice session_userpass session_request session_reply
    choice_result userpass_result failed is_eof read_reply_cond parse_reply_v5 to_reply_code
    to_address_type equals_succeeded
connected =
    connect_host-session script script-IsLawful from_host_order app ann answers zeros no_error
      (omega arith) (omega arith) refl
    ∙ refl

connect_host_accepted_example :
    let s1 = (session_auth script answers ann).0 in
    let s2 = (script.write s1 (request_bytes (host app))).0 in
    Negotiated script answers ann
    × ((rsv : ℕ) × ((script.read_cond s2 22 session_condition).1 ≡ reply_bytes rsv bound)
        × IsEndpoint bound
        × (socks_code 0 ≡ socks_code 0))
connect_host_accepted_example =
    connect_host_accepted script script-IsLawful from_host_order app ann answers [] zeros no_error
      (socks_code 0) bound from_host_order-MakesV4 (omega arith) (omega arith) refl connected
      not_failed

async_connect_host-connect_host_example :
    async_connect_host script from_host_order answers app ann
    ≡ connect_host script from_host_order zeros answers app ann no_error
async_connect_host-connect_host_example =
    async_connect_host-connect_host script from_host_order app ann answers zeros no_error
      script-IsLawful (inr script-FailsByEof) (omega arith) (omega arith) refl

async_connect_domain-connect_domain_example :
    async_connect_domain script from_host_order answers (97 ∷ 46 ∷ 98 ∷ []) 443 ann
    ≡ connect_domain script from_host_order zeros answers (97 ∷ 46 ∷ 98 ∷ []) 443 ann no_error
async_connect_domain-connect_domain_example =
    async_connect_domain-connect_domain script from_host_order app_name ann answers zeros no_error
      script-IsLawful (inr script-FailsByEof) (omega arith) (omega arith) refl

written : failed (broken.write 7 (userpass_bytes ann)).1 ≡ false
unfolding failed
written = refl

unreadable : readable (broken.read 7 2).2 ≡ false
unfolding failed is_eof
unreadable = refl

connect_host-Sent_example :
    (r : (List ℕ × List (List ℕ)) × Endpoint × ErrorCode) × (connect_host
        (recorder script)
        from_host_order
        zeros
        (answers, [])
        app
        ann
        no_error
      ≡ some r)
    × Sent (host app) ann r.0.1
    × (failed r.2 ≡ false → Requested (host app) ann r.0.1)
connect_host-Sent_example =
    connect_host-Sent script script-IsLawful from_host_order app ann answers zeros no_error
      (omega arith) (omega arith) refl

-- A reply with two bytes behind it.
connect_host-overrun_example :
    connect_host
      (paced (λ n. 20))
      from_host_order
      zeros
      (5 ∷ 0 ∷ (reply_bytes 0 bound ++ 72 ∷ 105 ∷ []))
      app
      no_auth
      no_error
    ≡ some ([], no_endpoint, make_error_code bad_reply_size)
connect_host-overrun_example =
    connect_host-overrun (λ n. 20) from_host_order zeros app no_auth no_error 192 168 1 9 4660 72
      (105 ∷ []) (omega arith) (omega arith) (omega arith) refl refl (omega arith) (omega arith)
      (omega arith)
