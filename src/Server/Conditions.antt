-- ===== src/Server/Conditions.antt =====
-- example/server/async/socks_server_async.cpp: the conditions of the reads on the client's messages.
use socks.Base.{
  take-append, drop, append-nil, Bool, true, false, Option, refl, Bool-cases, ltb, leb, ◌&&◌, ◌!=◌,
  if◌then◌else◌, get_elem?-get_or, ℕ, ◌+◌, ◌-◌, ◌≤◌, ◌≡◌, some, List, [], ◌∷◌, ◌++◌, length,
  length-append, get_elem?, Option-cases, inl, inr, arith,
}
use socks.Base.Memory.{overlay}
use socks.Server.{resize}
use socks.Error.{ErrorCode, no_error, failed}
use socks.Endpoint.{Address, v4, v6, Target, host, named, IsTarget, IsAddress}
use socks.Requests.Layout.{request_bytes, port_bytes}
use socks.Server.Request.{request_cond}
use socks.Server.Greeting.{greeting_cond, userpass_cond}

-- With five bytes or more of the client's request in the buffer, and no error, the condition of the
-- request's read asks for as many bytes as the request still lacks.
pub request_cond-request_bytes :
    (t : Target) (rest : List ℕ) (n : ℕ)
    → IsTarget t
    → 5 ≤ n
    → n ≤ length (request_bytes t)
    → request_cond (request_bytes t ++ rest) no_error n ≡ some (length (request_bytes t) - n)
unfolding request_cond failed
request_cond-request_bytes (host ep) rest n (h, hp) k l = asks ep.address ep.port h l
  where
    asks :
        (a : Address) (p : ℕ)
        → IsAddress a
        → let t = host (record { address = a; port = p }) in
          n ≤ length (request_bytes t)
          → request_cond (request_bytes t ++ rest) no_error n ≡ some (length (request_bytes t) - n)
    asks (v4 a b c d) p h l = ground arith
    asks (v6 (x ∷ bytes)) p h l =
        let size : length (bytes ++ port_bytes p) ≡ 17 =
          omega (arith, length-append bytes (port_bytes p)) in
        ground arith
    asks (v6 []) p h l = absurd (omega arith)
request_cond-request_bytes (named d) rest n h k l =
    let size = length-append d.domain (port_bytes d.port) in ground arith

-- Without an error and after the version byte 1 the condition of the credentials' read asks for at
-- least 3 bytes, however many were received.
pub userpass_cond_lem :
    (buf : List ℕ) (n k : ℕ) → userpass_cond (1 ∷ buf) no_error n ≡ some k → 3 ≤ k
unfolding userpass_cond failed
userpass_cond_lem [] n k e = ground arith
userpass_cond_lem (idlen ∷ rest) n k e =
    elim (Option-cases (get_elem? (1 ∷ idlen ∷ rest) (2 + idlen))) [
      | inl p ↦ ground arith
      | inr (q, p) ↦ ground arith
    ]

-- With their buffers the conditions read no byte outside.
pub greeting_cond_total :
    (buf : List ℕ) (ec : ErrorCode) (n : ℕ)
    → length buf ≡ 258
    → (v : ℕ) × (greeting_cond buf ec n ≡ some v)
unfolding greeting_cond
greeting_cond_total [] ec n size = absurd (omega arith)
greeting_cond_total (a ∷ []) ec n size = absurd (omega arith)
greeting_cond_total (a ∷ b ∷ rest) ec n size = (_, refl)

pub request_cond_total :
    (buf : List ℕ) (ec : ErrorCode) (n : ℕ)
    → length buf ≡ 263
    → (v : ℕ) × (request_cond buf ec n ≡ some v)
unfolding request_cond
request_cond_total (a ∷ b ∷ c ∷ d ∷ e ∷ rest) ec n size = (_, refl)
request_cond_total _ ec n size = absurd (omega arith)

if-some :
    (b : Bool) (x y : Option ℕ)
    → (v : ℕ) × (x ≡ some v)
    → (v : ℕ) × (y ≡ some v)
    → (v : ℕ) × ((if b then x else y) ≡ some v)
if-some true x y hx hy = hx
if-some false x y hx hy = hy

pub userpass_cond_total :
    (buf : List ℕ) (ec : ErrorCode) (n : ℕ)
    → length buf ≡ 513
    → n ≤ 513
    → (v : ℕ) × (userpass_cond buf ec n ≡ some v)
unfolding userpass_cond
userpass_cond_total (a ∷ idlen ∷ rest) ec n size h = elim (Bool-cases (ltb (2 + idlen) n)) [
  | inl e ↦
      let at_pwlen = get_elem?-get_or (a ∷ idlen ∷ rest) (2 + idlen) 0 (ground arith) in
      rw (e, at_pwlen)
        (if-some (failed ec) _ _ (0, refl)
          (if-some (leb 1 n && a != 1) _ _ (0, refl) (if-some (ltb n 2) _ _ (_, refl) (_, refl))))
  | inr e ↦ rw e (
      if-some (failed ec) _ _ (0, refl)
        (if-some (leb 1 n && a != 1) _ _ (0, refl) (if-some (ltb n 2) _ _ (_, refl) (_, refl))))
]
userpass_cond_total _ ec n size h = absurd (omega arith)

-- The buffer, resized to what was received.
pub resize-overlay : (bytes buf : List ℕ) → resize (length bytes) (overlay bytes buf) ≡ bytes
resize-overlay bytes buf =
    let rest = drop (length bytes) buf in
    let none_left : length bytes - length (bytes ++ rest) ≡ 0 =
      omega (arith, length-append bytes rest) in
    rw (take-append bytes rest, none_left, append-nil bytes)
