-- ===== src/Server/Run/Handlers.antt =====
-- example/server/async/socks_server_async.cpp: each handler, from an operation of a connection to the next
-- one.
use socks.Base.{
  ℕ, ◌≡◌, refl, inl, inr, Bool, false, not, Option, none, some, List, [], ◌∷◌, if◌then◌else◌, ◌==◌,
  ◌&&◌, ◌||◌, Bool-cases, arith,
}
use socks.Base.Access.{◌>>=◌, read_at}
use socks.Base.Ensures.{Ensures, faults, gives, ensures_rules}
use socks.Error.{ErrorCode, failed}
use socks.Endpoint.{Endpoint}
use socks.Server.{Connection, relay, close}
use socks.Server.Greeting.{
  parse_socks_greeting, do_server_choice, parse_userpass_greeting, do_userpass_greet,
  do_read_connect_request, on_choice_written, on_status_written,
}
use socks.Server.Request.{
  parse_ipv4, parse_ipv6, parse_domain, parse_socks_connect, parse_socks_connect_v4,
  do_target_connect, do_target_connect_v4, on_greeting, on_userpass, on_request, on_resolved,
  on_target, on_target_v4,
}
use socks.Server.Reply.{
  do_connect_reply, do_connect_reply_v4, on_reply_written, on_reply_v4_written,
}
use socks.Server.Relay.Flow.{length-resize}
use socks.Server.Run.{now_open}
use socks.Server.Run.Invariant.{Negotiated, Chosen, Replied, RepliedV4, Holds}

-- While the target socket is not open, no reply is sent.
parse_greeting-Holds :
    (joined : Bool) (c : Connection) → Ensures (Holds [] none joined) (parse_socks_greeting c)
unfolding parse_socks_greeting do_server_choice
parse_greeting-Holds joined c = search (ensures_rules, arith)

parse_connect-Holds :
    (sent : List (List ℕ)) (joined : Bool) (c : Connection)
    → Negotiated sent
    → Ensures (Holds sent none joined) (parse_socks_connect none c)
unfolding parse_socks_connect parse_ipv4 parse_ipv6 parse_domain do_connect_reply do_target_connect
parse_connect-Holds sent joined c h = search ensures_rules depth 40

parse_connect_v4-Holds :
    (joined : Bool) (c : Connection)
    → Ensures (Holds [] none joined) (parse_socks_connect_v4 none c)
unfolding parse_socks_connect_v4 do_connect_reply_v4 do_target_connect_v4
parse_connect_v4-Holds joined c = search ensures_rules depth 40

parse_userpass-Holds :
    (joined : Bool) (c : Connection)
    → Ensures (Holds ((5 ∷ 2 ∷ []) ∷ []) none joined) (parse_userpass_greeting c)
unfolding parse_userpass_greeting
parse_userpass-Holds joined c = search ensures_rules depth 40

pub greeting-Holds :
    (joined : Bool) (c : Connection) (ec : ErrorCode) (n : ℕ)
    → Ensures (Holds [] none joined) (on_greeting none ec n c)
unfolding on_greeting
greeting-Holds joined c ec n =
    search (ensures_rules, parse_greeting-Holds, parse_connect_v4-Holds) depth 40

pub userpass-Holds :
    (joined : Bool) (c : Connection) (ec : ErrorCode) (n : ℕ)
    → Ensures (Holds ((5 ∷ 2 ∷ []) ∷ []) none joined) (on_userpass ec n c)
unfolding on_userpass
userpass-Holds joined c ec n = search (ensures_rules, parse_userpass-Holds) depth 40

pub request-Holds :
    (sent : List (List ℕ)) (joined : Bool) (c : Connection) (ec : ErrorCode) (n : ℕ)
    → Negotiated sent
    → Ensures (Holds sent none joined) (on_request none ec n c)
unfolding on_request
request-Holds sent joined c ec n h = search (ensures_rules, parse_connect-Holds) depth 40

pub resolved-Holds :
    (sent : List (List ℕ)) (joined : Bool) (c : Connection) (ec : ErrorCode) (found : Endpoint)
    → Negotiated sent
    → Ensures (Holds sent none joined) (on_resolved none ec found c)
unfolding on_resolved do_connect_reply do_target_connect
resolved-Holds sent joined c ec found h = search ensures_rules depth 40

-- Where the target socket could not be opened, the handler throws.
pub target-Holds :
    (sent : List (List ℕ)) (local : Option Endpoint) (c : Connection) (ec : ErrorCode)
    → Negotiated sent
    → let now = now_open local none in
      Ensures (Holds sent now (not (failed ec))) (on_target now ec c)
unfolding on_target do_connect_reply
target-Holds sent none c ec h = elim (Bool-cases (failed ec)) [
  | inl e ↦ rw e faults
  | inr e ↦ rw e faults
]
target-Holds sent (some local) c ec h = elim (Bool-cases (failed ec)) [
  | inl e ↦ rw e (gives (refl, h, inl (λ z. absurd (ground arith)), (local, refl)))
  | inr e ↦ rw e (gives (refl, h, inr (refl, (local, refl, refl)), (local, refl)))
]

pub target_v4-Holds :
    (local : Option Endpoint) (c : Connection) (ec : ErrorCode)
    → let now = now_open local none in
      Ensures (Holds [] now (not (failed ec))) (on_target_v4 now ec c)
unfolding on_target_v4 do_connect_reply_v4
target_v4-Holds none c ec = elim (Bool-cases (failed ec)) [
  | inl e ↦ rw e faults
  | inr e ↦ rw e faults
]
target_v4-Holds (some local) c ec = elim (Bool-cases (failed ec)) [
  | inl e ↦
      rw e
        (gives (refl, refl, (omega arith, refl, inl (λ z. absurd (ground arith))), (local, refl)))
  | inr e ↦ rw e (gives (refl, refl, (omega arith, refl, inr refl), (local, refl)))
]

pub choice_written-Holds :
    (joined : Bool) (c : Connection) (ec : ErrorCode)
    → Chosen c.server_choice
    → Holds
        (if failed ec then [] else (5 ∷ c.server_choice ∷ []) ∷ [])
        none
        joined
        (on_choice_written ec c)
unfolding on_choice_written do_userpass_greet do_read_connect_request
choice_written-Holds joined c ec h = elim (Bool-cases (failed ec)) [
  | inl e ↦ rw e tt
  | inr e ↦ elim h [
    | inl z ↦ rw (e, z) (refl, length-resize 263 c.buffer, inl refl, refl)
    | inr (inl z) ↦ rw (e, z) (refl, length-resize 513 c.buffer, refl, refl)
    | inr (inr z) ↦ rw (e, z) tt
  ]
]

pub status_written-Holds :
    (joined : Bool) (c : Connection) (ec : ErrorCode)
    → let sent : List (List ℕ) = (5 ∷ 2 ∷ []) ∷ [] in
      Holds (if failed ec then sent else (1 ∷ 0 ∷ []) ∷ sent) none joined (on_status_written ec c)
unfolding on_status_written do_read_connect_request
status_written-Holds joined c ec = elim (Bool-cases (failed ec)) [
  | inl e ↦ rw e tt
  | inr e ↦ rw e (refl, length-resize 263 c.buffer, inr refl, refl)
]

-- The connection goes on to the relay only after a reply that grants the request.
granted-Holds :
    (sent : List (List ℕ)) (local : Option Endpoint) (joined : Bool) (c : Connection)
    (bytes : List ℕ)
    → Negotiated sent
    → Replied local joined bytes
    → Ensures
        (Holds (bytes ∷ sent) local joined)
        (do rep ← read_at bytes 1; some (c, if rep == 0x00 then relay else close))
granted-Holds sent local joined c [] h replied = faults
granted-Holds sent local joined c (v ∷ []) h replied = faults
granted-Holds sent local joined c (v ∷ rep ∷ rest) h (inl refused) =
    let e : rep == 0x00 ≡ false = ground arith in gives (rw e tt)
granted-Holds sent local joined c (v ∷ rep ∷ rest) h (inr (on, (bnd, named, same))) =
    elim (Bool-cases (rep == 0x00)) [
      | inl e ↦ gives (rw e (on, inl (bnd, sent, named, rw same, h)))
      | inr e ↦ gives (rw e tt)
    ]

pub reply_written-Holds :
    (sent : List (List ℕ)) (local : Option Endpoint) (joined : Bool) (c : Connection)
    (ec : ErrorCode) (bytes : List ℕ)
    → c.buffer ≡ bytes
    → Negotiated sent
    → Replied local joined bytes
    → Ensures
        (Holds (if failed ec then sent else bytes ∷ sent) local joined)
        (on_reply_written ec c)
unfolding on_reply_written
reply_written-Holds sent local joined c ec bytes same h replied = elim (Bool-cases (failed ec)) [
  | inl e ↦ rw e (gives tt)
  | inr e ↦ simp (e, same) (granted-Holds sent local joined c bytes h replied)
]

granted_v4-Holds :
    (local : Option Endpoint) (joined : Bool) (c : Connection) (bytes : List ℕ)
    → RepliedV4 joined bytes
    → Ensures (Holds (bytes ∷ []) local joined) (do
      v ← read_at bytes 0
      rep ← read_at bytes 1
      some (c, if (v == 0x05 && rep == 0x00) || (v == 0x04 && rep == 90) then relay else close))
granted_v4-Holds local joined c [] replied = faults
granted_v4-Holds local joined c (v ∷ []) replied = faults
granted_v4-Holds local joined c (v ∷ rep ∷ rest) (_, v4, inl refused) =
    let e : rep == 90 ≡ false = ground arith in rw v4 (gives (rw e tt))
granted_v4-Holds local joined c (v ∷ rep ∷ rest) (_, v4, inr on) =
    rw v4 (elim (Bool-cases (rep == 90)) [
      | inl e ↦ gives (rw e (on, inr (4 ∷ rep ∷ rest, refl, refl, ground arith)))
      | inr e ↦ gives (rw e tt)
    ])

pub reply_v4_written-Holds :
    (local : Option Endpoint) (joined : Bool) (c : Connection) (ec : ErrorCode) (bytes : List ℕ)
    → c.buffer ≡ bytes
    → RepliedV4 joined bytes
    → Ensures (Holds (if failed ec then [] else bytes ∷ []) local joined) (on_reply_v4_written ec c)
unfolding on_reply_v4_written
reply_v4_written-Holds local joined c ec bytes same replied = elim (Bool-cases (failed ec)) [
  | inl e ↦ rw e (gives tt)
  | inr e ↦ simp (e, same) (granted_v4-Holds local joined c bytes replied)
]
