-- ===== src/Exchange/Whole.antt =====
-- example/server/async/socks_server_async.cpp: the reads of the greeting and of the request take the client's
-- message whole, in whatever parts it arrives.
use socks.Base.{
  ℕ, zero, suc, ◌≤◌, ◌<◌, ◌≡◌, refl, subst, true, Option, some, List, [], length, length-append,
  length-take, take_all, take, arith,
}
use socks.Base.Memory.{overlay, length-overlay}
use socks.Error.{no_error}
use socks.Endpoint.{Address, v4, v6, IsAddress, Target, host, named, IsTarget}
use socks.Requests.Layout.{request_bytes, port_bytes}
use socks.Server.Request.{request_cond}
use socks.Server.Conditions.{request_cond_total}
use socks.Exchange.Reads.{request_cond-partial}
use socks.Stream.Chunks.{Pace, take_in}
use socks.Stream.Chunks.Ends.{takes}

request_bytes-length : (t : Target) → IsTarget t → length (request_bytes t) ≤ 263
request_bytes-length (host ep) (h, _) = of_address ep.address ep.port h
  where
    of_address :
        (a : Address) (p : ℕ)
        → IsAddress a
        → length (request_bytes (host (record { address = a; port = p }))) ≤ 263
    of_address (v4 a b c d) p h = omega arith
    of_address (v6 bytes) p h = omega (arith, length-append bytes (port_bytes p))
request_bytes-length (named d) h = omega (arith, length-append d.domain (port_bytes d.port))

-- The condition of the request's read, on the bytes received so far.
abbrev pub on_request_bytes : List ℕ → List ℕ → Option ℕ
on_request_bytes buf got = request_cond (overlay got buf) no_error (length got)

module _ (t : Target) (buf : List ℕ) (h : IsTarget t) (size : length buf ≡ 263) where
  asks_more :
      (n : ℕ)
      → n < length (request_bytes t)
      → (v : ℕ) × (request_cond (overlay (take n (request_bytes t)) buf) no_error n ≡ some v)
      → (more : ℕ) × (request_cond (overlay (take n (request_bytes t)) buf) no_error n
          ≡ some (suc more))
  asks_more n l (zero, e) =
      absurd (omega (arith, (request_cond-partial t buf n h size (omega arith)).0 e))
  asks_more n l (suc more, e) = (more, e)

  asks :
      (n : ℕ)
      → n < length (request_bytes t)
      → (more : ℕ) × (on_request_bytes buf (take n (request_bytes t)) ≡ some (suc more))
  asks n l =
      let part : List ℕ = take n (request_bytes t) in
      let k : n ≡ length part = omega (arith, length-take n (request_bytes t)) in
      let room : length (overlay part buf) ≡ 263 =
        omega (arith, length-overlay part buf, request_bytes-length t h) in
      subst (λ m. (more : ℕ) × (request_cond (overlay part buf) no_error m ≡ some (suc more))) k
        (asks_more n l (request_cond_total (overlay part buf) no_error n room))

  -- The read of the request, with nothing behind it.
  pub take_in-request_bytes :
      (pace : Pace)
      → take_in (on_request_bytes buf) pace 263 0 [] (request_bytes t)
        ≡ some (request_bytes t, [], true)
  take_in-request_bytes pace =
      let bytes : List ℕ = request_bytes t in
      let whole : take (length bytes) bytes ≡ bytes = take_all (length bytes) bytes (omega arith) in
      let stops : on_request_bytes buf bytes ≡ some 0 =
        subst (λ l. request_cond (overlay l buf) no_error (length bytes) ≡ some 0) whole
          ((request_cond-partial t buf (length bytes) h size (omega arith)).1 refl) in
      takes (on_request_bytes buf) pace bytes 0 stops (λ n _ l. asks n l) 263 0 [] bytes refl
        (omega arith) (request_bytes-length t h)
