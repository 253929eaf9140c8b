-- ===== src/Exchange/Reads.antt =====
-- example/server/async/socks_server_async.cpp: the condition of the read, on parts of the client's
-- request.
use socks.Base.{
  ◌⊎◌, inl, inr, ℕ, zero, suc, ◌+◌, ◌-◌, ◌≤◌, ◌≡◌, ◌↔◌, refl, some, List, [], ◌∷◌, ◌++◌, length,
  length-append, take, drop, arith,
}
use socks.Base.Memory.{overlay}
use socks.Error.{no_error, failed}
use socks.Endpoint.{Address, v4, v6, Target, host, named, IsTarget, IsAddress}
use socks.Requests.Layout.{request_bytes, port_bytes}
use socks.Server.Request.{request_cond}

-- A byte short of five, the condition asks for more, whatever stands behind the bytes received.
module _ (x0 x1 x2 x3 x4 : ℕ) (buf : List ℕ) where
  abbrev stale : List ℕ
  stale = x0 ∷ x1 ∷ x2 ∷ x3 ∷ x4 ∷ buf

  early :
      (atyp b4 : ℕ) (rest : List ℕ) (n : ℕ)
      → n ≤ 4
      → (atyp ≡ 1) ⊎ (atyp ≡ 3) ⊎ (atyp ≡ 4)
      → ¬ (request_cond (overlay (take n (5 ∷ 1 ∷ 0 ∷ atyp ∷ b4 ∷ rest)) stale) no_error n ≡ some 0)
  unfolding request_cond failed
  early atyp b4 rest zero h known = ground arith
  early atyp b4 rest (suc zero) h known = ground arith
  early atyp b4 rest (suc (suc zero)) h known = ground arith
  early atyp b4 rest (suc (suc (suc zero))) h known = ground arith
  early atyp b4 rest (suc (suc (suc (suc zero)))) h known = ground arith
  early atyp b4 rest (suc (suc (suc (suc (suc n))))) h known = absurd (omega arith)

-- From five bytes on, the condition asks for what the request lacks.
late :
    (size : ℕ) (atyp b4 : ℕ) (rest : List ℕ) (n : ℕ)
    → ((atyp ≡ 1) × (size ≡ 10)) ⊎ ((atyp ≡ 3) × (size ≡ 7 + b4)) ⊎ ((atyp ≡ 4) × (size ≡ 22))
    → suc (suc (suc (suc (suc n)))) ≤ size
    → request_cond (5 ∷ 1 ∷ 0 ∷ atyp ∷ b4 ∷ rest) no_error (suc (suc (suc (suc (suc n)))))
      ≡ some (size - (5 + n))
unfolding request_cond failed
late size atyp b4 rest n known h = ground arith

-- The first bytes of a request, and how they tell its size.
HasHead : List ℕ → Type 0
HasHead bytes =
    (atyp : ℕ) × (b4 : ℕ) × (rest : List ℕ) × (bytes ≡ 5 ∷ 1 ∷ 0 ∷ atyp ∷ b4 ∷ rest)
    × ((((atyp ≡ 1) × (length bytes ≡ 10))
        ⊎ ((atyp ≡ 3) × (length bytes ≡ 7 + b4))
        ⊎ ((atyp ≡ 4) × (length bytes ≡ 22))))

request_bytes-HasHead : (t : Target) → IsTarget t → HasHead (request_bytes t)
unfolding HasHead
request_bytes-HasHead (host ep) (h, hp) = of_address ep.address ep.port h
  where
    of_address :
        (a : Address) (p : ℕ)
        → IsAddress a
        → HasHead (request_bytes (host (record { address = a; port = p })))
    of_address (v4 a b c d) p h = (1, a, b ∷ c ∷ d ∷ port_bytes p, refl, inl (refl, refl))
    of_address (v6 []) p h = absurd (omega arith)
    of_address (v6 (x ∷ bytes)) p h = (
      4,
      x,
      bytes ++ port_bytes p,
      refl,
      inr (inr (refl, omega (arith, length-append bytes (port_bytes p)))),
    )
request_bytes-HasHead (named d) h =
    let size = length-append d.domain (port_bytes d.port) in
    (3, length d.domain, d.domain ++ port_bytes d.port, refl, inr (inl (refl, omega arith)))

partial :
    (bytes buf : List ℕ) (n : ℕ)
    → HasHead bytes
    → length buf ≡ 263
    → n ≤ length bytes
    → (request_cond (overlay (take n bytes) buf) no_error n ≡ some 0) ↔ (n ≡ length bytes)
unfolding HasHead
partial bytes (x0 ∷ x1 ∷ x2 ∷ x3 ∷ x4 ∷ buf) (suc (suc (suc (suc (suc m)))))
      (atyp, b4, rest, same, known) size l =
    let sizes : ((atyp ≡ 1) × (length bytes ≡ 10))
        ⊎ ((atyp ≡ 3) × (length bytes ≡ 7 + b4))
        ⊎ ((atyp ≡ 4) × (length bytes ≡ 22)) =
      known in
    let asks =
      late (length bytes) atyp b4 (take m rest ++ drop (length (take m rest)) buf) m sizes l in
    let whole : length bytes ≡ 5 + length rest = rw same (omega arith) in
    rw (same, asks) (ground arith)
partial bytes (x0 ∷ x1 ∷ x2 ∷ x3 ∷ x4 ∷ buf) n (atyp, b4, rest, same, known) size l = rw same (
  (λ e. absurd (early x0 x1 x2 x3 x4 buf atyp b4 rest n (omega arith) (ground arith) e)),
  (λ e. absurd (ground arith)),
)
partial _ _ _ _ size l = absurd (omega arith)

-- With the first `n` bytes of the client's request in a buffer of 263 bytes, whatever the others are, the
-- condition of the request's read says that the read is over exactly if the request is whole.
pub request_cond-partial :
    (t : Target) (buf : List ℕ) (n : ℕ)
    → IsTarget t
    → length buf ≡ 263
    → n ≤ length (request_bytes t)
    → (request_cond (overlay (take n (request_bytes t)) buf) no_error n ≡ some 0)
      ↔ (n ≡ length (request_bytes t))
request_cond-partial t buf n h = partial (request_bytes t) buf n (request_bytes-HasHead t h)
