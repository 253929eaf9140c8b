-- ===== src/Requests/RoundTrip.antt =====
-- What a server reads from the requests that the code writes, with `take` for the part that is sent.
use socks.Base.{
  ℕ, ◌+◌, ◌≤◌, ◌≡◌, ◌↔◌, some, List, [], length, take, drop, take-append, length-append, ◌∷◌, arith,
}
use socks.Base.Memory.{overlay}
use socks.Endpoint.{Target, AuthOptions, IsTarget, FitsRequest}
use socks.Requests.{prepare_request, prepare_userpass_request}
use socks.Requests.Layout.{
  request_bytes, userpass_bytes, prepare_request-Emits, prepare_userpass_request-Emits,
}
use socks.Requests.Decode.{
  decode_request, decode_userpass, decode_request-request_bytes, decode_userpass_iff,
}

-- For every target that its C++ type can hold, with a name of at most 255 bytes, and every buffer with
-- room for the request, `prepare_request` writes without a fault, and the server that reads the bytes
-- so written, and no other, gets back the target.
pub prepare_request-decode_request :
    (n : ℕ) (t : Target) (buf : List ℕ)
    → IsTarget t
    → length (request_bytes t) ≤ n
    → n ≤ length buf
    → (k : ℕ) × (buf' : List ℕ) × (prepare_request n t buf ≡ some (k, buf'))
      × (decode_request (take k buf') ≡ some t)
prepare_request-decode_request n t buf valid room fits =
    let bytes : List ℕ = request_bytes t in
    (
      length bytes,
      overlay bytes buf,
      (prepare_request-Emits n t valid room).run buf (omega arith),
      rw (take-append bytes (drop (length bytes) buf)) (decode_request-request_bytes t valid),
    )

-- For every user and password of at most 255 bytes and every buffer with room for the request,
-- `prepare_userpass_request` writes without a fault, and the server reads back the user and the
-- password, with nothing left over, exactly if both have the same length.
pub prepare_userpass_request-decode_userpass :
    (n : ℕ) (opt : AuthOptions) (buf : List ℕ)
    → FitsRequest opt
    → length (userpass_bytes opt) ≤ n
    → n ≤ length buf
    → (k : ℕ) × (buf' : List ℕ) × (prepare_userpass_request n opt buf ≡ some (k, buf'))
      × ((decode_userpass (take k buf') ≡ some (opt.user, opt.pass, []))
          ↔ (length opt.user ≡ length opt.pass))
prepare_userpass_request-decode_userpass n opt buf fit room fits =
    let bytes : List ℕ = userpass_bytes opt in
    let size : length opt.user + length opt.pass + 3 ≡ length bytes =
      omega (arith, length-append opt.user (length opt.user ∷ opt.pass)) in
    (
      _,
      overlay bytes buf,
      (prepare_userpass_request-Emits n opt fit (omega arith)).run buf (omega arith),
      rw (size, take-append bytes (drop (length bytes) buf)) (decode_userpass_iff opt),
    )
