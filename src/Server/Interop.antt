-- ===== src/Server/Interop.antt =====
-- example/server/async/socks_server_async.cpp and the library's client: what each reads of the other's
-- messages.
use socks.Base.{
  ℕ, ◌+◌, ◌-◌, ◌/◌, ◌%◌, ◌^◌, ◌≤◌, ◌<◌, ◌≡◌, ◌↔◌, refl, false, Option, some, List, [], ◌∷◌, ◌++◌,
  length, length-append, ◌!=◌, if◌then◌else◌, arith, append_assoc, suc, get_elem?,
}
use socks.Base.Bits.{bit_and-byte}
use socks.Base.Access.{read_each}
use socks.Error.{socks_code}
use socks.Endpoint.{
  Address, v4, v6, Endpoint, DomainEndpoint, host, named, AuthOptions, IsEndpoint, IsTarget,
  IsAddress,
}
use socks.Requests.Layout.{userpass_bytes, request_bytes, port_bytes}
use socks.Replies.{MakesV4, parse_reply_v5}
use socks.Replies.Accept.{reply_bytes, parse_reply_v5-reply_bytes, port_value}
use socks.Server.{
  Connection, write_choice, write_status, write_reply, resolve, connect_target, connect_target_v4,
}
use socks.Server.Greeting.{has, do_server_choice, parse_socks_greeting, parse_userpass_greeting}
use socks.Server.Request.{
  parse_socks_connect, parse_socks_connect_v4, do_target_connect, do_target_connect_v4,
}
use socks.Server.Reply.{granted_bytes, do_connect_reply}

-- A connection whose buffer holds what was received.
abbrev with_buffer : Connection → List ℕ → Connection
with_buffer c buf = record c { buffer = buf }

get_elem?-middle :
    (xs : List ℕ) (y : ℕ) (ys : List ℕ) → get_elem? (xs ++ y ∷ ys) (length xs) ≡ some y
get_elem?-middle [] y ys = refl
get_elem?-middle (x ∷ xs) y ys = get_elem?-middle xs y ys

get_elem?-at :
    (xs : List ℕ) (y : ℕ) (ys : List ℕ) (i : ℕ)
    → i ≡ length xs
    → get_elem? (xs ++ y ∷ ys) i ≡ some y
get_elem?-at xs y ys i e = rw e (get_elem?-middle xs y ys)

read_each-at :
    (front xs rest : List ℕ) (i : ℕ)
    → i ≡ length front
    → read_each (front ++ (xs ++ rest)) i (length xs) ≡ some xs
read_each-at front [] rest i e = refl
read_each-at front (x ∷ xs) rest i e =
    let next : i + 1 ≡ length (front ++ x ∷ []) = omega (arith, length-append front (x ∷ [])) in
    let later : read_each (front ++ x ∷ (xs ++ rest)) (i + 1) (length xs) ≡ some xs =
      rw (append_assoc front (x ∷ []) (xs ++ rest)) at
        (read_each-at (front ++ x ∷ []) xs rest (i + 1) next) in
    rw (later, e, get_elem?-middle front x (xs ++ rest)) refl

-- To a greeting with any methods, at most 255 of them, the server answers with user/pass if it is among
-- them, else with no authentication if that is, else with 255.
pub parse_socks_greeting_lem :
    (c : Connection) (methods : List ℕ)
    → length methods ≤ 255
    → let choice : ℕ = if has 2 methods then 2 else if has 0 methods then 0 else 255 in
      parse_socks_greeting (with_buffer c (5 ∷ length methods ∷ methods))
      ≡ some (
        record c { buffer = 5 ∷ choice ∷ []; server_choice = choice },
        write_choice (5 ∷ choice ∷ []),
      )
unfolding parse_socks_greeting do_server_choice
parse_socks_greeting_lem c methods h = ground arith

pub reply-bytes :
    (a : Address) (p : ℕ)
    → p < 65536
    → granted_bytes a p ≡ reply_bytes 0 (record { address = a; port = p })
unfolding granted_bytes
reply-bytes (v4 a b c d) p h = rw (bit_and-byte (p / 2 ^ 8), bit_and-byte p) (ground arith)
reply-bytes (v6 bytes) p h = rw (bit_and-byte (p / 2 ^ 8), bit_and-byte p) (ground arith)

-- Where `make_address_v4` gives the address of a number, with a valid bound endpoint the server
-- sends a granted reply for it, and the client that receives the reply, with anything behind it in
-- its buffer, accepts it and reads that endpoint.
pub do_connect_reply-parse_reply_v5 :
    (mk : ℕ → Address) (bnd : Endpoint) (c : Connection) (rest : List ℕ)
    → MakesV4 mk
    → IsEndpoint bnd
    → let sent = reply_bytes 0 bnd in
      (do_connect_reply (some bnd) 0 c ≡ some (record c { buffer = sent }, write_reply sent))
      × (parse_reply_v5 mk (length sent) (sent ++ rest) ≡ some (bnd, socks_code 0))
unfolding do_connect_reply
do_connect_reply-parse_reply_v5 mk bnd c rest m h =
    (rw (reply-bytes bnd.address bnd.port h.1) refl, parse_reply_v5-reply_bytes mk m bnd 0 rest h)

-- Given exactly the bytes of the client's user/pass request, the server's parser accepts them if and only if the user
-- is not longer than the password.
pub parse_userpass_greeting_iff :
    (c : Connection) (opt : AuthOptions)
    → let accepted : List ℕ = 1 ∷ 0 ∷ [] in
      (parse_userpass_greeting (with_buffer c (userpass_bytes opt))
        ≡ some (record c { buffer = accepted }, write_status accepted))
      ↔ (length opt.user ≤ length opt.pass)
unfolding parse_userpass_greeting
parse_userpass_greeting_iff c opt =
    let idlen : 2 + length opt.user ≡ suc (suc (length opt.user)) = omega arith in
    let total = length-append opt.user (length opt.user ∷ opt.pass) in
    rw (idlen, get_elem?-middle opt.user (length opt.user) opt.pass) (ground arith)

-- To the client's request for a valid endpoint the server connects to that endpoint.
pub parse_socks_connect-request_bytes_host :
    (local_endpoint : Option Endpoint) (c : Connection) (ep : Endpoint)
    → IsEndpoint ep
    → parse_socks_connect local_endpoint (with_buffer c (request_bytes (host ep)))
      ≡ some (record c { buffer = request_bytes (host ep); target = ep }, connect_target ep)
unfolding parse_socks_connect do_target_connect
parse_socks_connect-request_bytes_host local_endpoint c ep (h, hp) =
    connects ep.address ep.port h hp
  where
    connects :
        (a : Address) (p : ℕ)
        → IsAddress a
        → p < 65536
        → let to : Endpoint = record { address = a; port = p } in
          parse_socks_connect local_endpoint (with_buffer c (request_bytes (host to)))
          ≡ some (record c { buffer = request_bytes (host to); target = to }, connect_target to)
    connects (v4 x y z w) p k kp = rw (port_value p kp) refl
    connects
          (v6 (
            x0 ∷ x1 ∷ x2 ∷ x3 ∷ x4 ∷ x5 ∷ x6 ∷ x7 ∷ x8 ∷ x9 ∷ x10 ∷ x11 ∷ x12 ∷ x13 ∷ x14 ∷ x15
            ∷ []))
          p k kp =
        rw (port_value p kp) refl
    connects (v6 _) p k kp = absurd (omega arith)

-- To the client's request for a name of at most 255 bytes the server looks up that name and port.
pub parse_socks_connect-request_bytes_named :
    (local_endpoint : Option Endpoint) (c : Connection) (d : DomainEndpoint)
    → IsTarget (named d)
    → parse_socks_connect local_endpoint (with_buffer c (request_bytes (named d)))
      ≡ some (with_buffer c (request_bytes (named d)), resolve d.domain d.port)
unfolding parse_socks_connect
parse_socks_connect-request_bytes_named local_endpoint c d (h, hp) =
    let bytes : List ℕ = request_bytes (named d) in
    let front : List ℕ = 5 ∷ 1 ∷ 0 ∷ 3 ∷ length d.domain ∷ [] in
    let size : length bytes ≡ 7 + length d.domain =
      omega (arith, length-append d.domain (port_bytes d.port)) in
    let exact : (length bytes != 7 + length d.domain) ≡ false = ground arith in
    let name_bytes : List ℕ = front ++ d.domain in
    let high = d.port / 256 in
    let low = d.port % 256 in
    let at_high : get_elem? bytes (length bytes - 2) ≡ some high =
      get_elem?-at name_bytes high (low ∷ []) (length bytes - 2) (omega arith) in
    let at_low : get_elem? bytes (length bytes - 1) ≡ some low = rw append_assoc at (
      get_elem?-at (name_bytes ++ high ∷ []) low [] (length bytes - 1)
        (omega (arith, length-append name_bytes (high ∷ [])))) in
    rw (exact, read_each-at front d.domain (port_bytes d.port) 5 refl, at_high, at_low)
      (rw (port_value d.port hp) (ground arith))

-- To the first eight bytes of the client's SOCKS4 request for a valid port the server connects to the endpoint in
-- them, whatever follows them.
pub parse_socks_connect_v4_lem :
    (local_endpoint : Option Endpoint) (c : Connection) (port x y z w : ℕ) (tail : List ℕ)
    → port < 65536
    → let ep : Endpoint = record { address = v4 x y z w; port = port } in
      let bytes : List ℕ = 4 ∷ 1 ∷ port / 256 ∷ port % 256 ∷ x ∷ y ∷ z ∷ w ∷ tail in
      parse_socks_connect_v4 local_endpoint (with_buffer c bytes)
      ≡ some (record c { buffer = bytes; target = ep }, connect_target_v4 ep)
unfolding parse_socks_connect_v4 do_target_connect_v4
parse_socks_connect_v4_lem local_endpoint c port x y z w tail h =
    rw (port_value port h) (ground arith)
