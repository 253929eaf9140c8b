-- ===== src/V4/Request/Layout.antt =====
-- include/boost/socks/impl/connect_v4.ipp: the bytes of a SOCKS4 request, `prepare_request_v4`, and a
-- decoder for the server.
use socks.Base.{
  ℕ, ◌+◌, ◌*◌, ◌/◌, ◌%◌, ◌^◌, ◌≤◌, ◌<◌, ◌≡◌, ◌≢◌, refl, Option, none, some, List, [], ◌∷◌, ◌++◌,
  length, All, length-append, drop_all, append-nil, arith, le→leb, ◌==◌, if◌then◌else◌, ◌&&◌,
}
use socks.Base.Bits.{bit_and-byte}
use socks.Base.Memory.{
  overlay, Emits, Emits-each, Emits-pure, Emits-byte, Emits-bind, Emits-write_at, Emits-assert,
}
use socks.Endpoint.{v4, Endpoint}
use socks.V4.Request.{write_ip, prepare_request_v4}

-- VER | CMD | DSTPORT | DSTIP | USERID | NULL
abbrev pub request_v4_bytes : ℕ → ℕ → ℕ → ℕ → ℕ → List ℕ → List ℕ
request_v4_bytes port a b c d user =
    4 ∷ 1 ∷ port / 256 ∷ port % 256 ∷ a ∷ b ∷ c ∷ d ∷ (user ++ 0 ∷ [])

write_ip-Emits :
    (a b c d : ℕ) (front : List ℕ)
    → length front ≡ 4
    → Emits (write_ip (v4 a b c d)) front (a ∷ b ∷ c ∷ d ∷ []) tt
unfolding write_ip
write_ip-Emits a b c d (w ∷ x ∷ y ∷ z ∷ []) e =
    let front : List ℕ = w ∷ x ∷ y ∷ z ∷ [] in
    Emits-byte 4 a _ front _ _ refl (
      Emits-byte 5 b _ (front ++ a ∷ []) _ _ refl (
        Emits-byte 6 c _ (front ++ a ∷ b ∷ []) _ _ refl
          (Emits-write_at 7 d (front ++ a ∷ b ∷ c ∷ []) refl)))
write_ip-Emits a b c d _ e = absurd (omega arith)

-- With a valid port and room for the request `prepare_request_v4` writes the request to an IPv4 endpoint
-- whole, and returns its size.
pub prepare_request_v4-Emits :
    (n port a b c d : ℕ) (user : List ℕ)
    → port < 65536
    → 9 + length user ≤ n
    → Emits
        (prepare_request_v4 n (record { address = v4 a b c d; port = port }) user)
        []
        (request_v4_bytes port a b c d user)
        (9 + length user)
unfolding prepare_request_v4 write_ip
prepare_request_v4-Emits n port a b c d user h k =
    let high : port / 2 ^ 8 % 256 ≡ port / 256 = omega arith in
    let front : List ℕ = 4 ∷ 1 ∷ port / 256 ∷ port % 256 ∷ a ∷ b ∷ c ∷ d ∷ [] in
    rw (high, bit_and-byte port)
      (Emits-assert _ _ [] _ _ (le→leb _ _ k) (
        Emits-byte 0 4 _ [] _ _ refl (
          Emits-byte 1 1 _ (4 ∷ []) _ _ refl (
            Emits-byte 2 (port / 256) _ (4 ∷ 1 ∷ []) _ _ refl (
              Emits-byte 3 (port % 256) _ (4 ∷ 1 ∷ port / 256 ∷ []) _ _ refl (
                Emits-bind _ _ _ (a ∷ b ∷ c ∷ d ∷ []) _ tt _
                  (write_ip-Emits a b c d (4 ∷ 1 ∷ port / 256 ∷ port % 256 ∷ []) refl)
                  (Emits-each 8 0 user _ front _ _ refl (
                    Emits-byte (8 + length user) 0 _ (front ++ user) [] _
                      (omega (arith, length-append front user))
                      (Emits-pure (9 + length user) (front ++ user ++ 0 ∷ []))))))))))

-- A string that ends with a NUL, and what follows the NUL.
until_nul : List ℕ → Option (List ℕ × List ℕ)
until_nul [] = none
until_nul (b ∷ bs) =
    let rest = until_nul bs in
    if b == 0 then some ([], bs) else elim rest [ none ↦ none | some (xs, ys) ↦ some (b ∷ xs, ys) ]

-- What a server reads, by the SOCKS4 protocol: the endpoint, the user, and what follows the request.
unfoldable pub decode_request_v4 : List ℕ → Option (Endpoint × List ℕ × List ℕ)
unfolding until_nul
decode_request_v4 (ver ∷ cmd ∷ h ∷ l ∷ a ∷ b ∷ c ∷ d ∷ bs) =
    if ver == 4 && cmd == 1
    then elim (until_nul bs) [
      | none ↦ none
      | some (user, rest) ↦ some (record { address = v4 a b c d; port = h * 256 + l }, user, rest)
    ]
    else none
decode_request_v4 _ = none

until_nul-append :
    (user rest : List ℕ) → All (λ b. b ≢ 0) user → until_nul (user ++ 0 ∷ rest) ≡ some (user, rest)
unfolding until_nul
until_nul-append [] rest h = refl
until_nul-append (b ∷ bs) rest (hb, hs) = rw (until_nul-append bs rest hs) (ground arith)

-- A user without a NUL: the server reads back the endpoint and the user, and nothing is left over.
pub decode_request_v4-request_v4_bytes :
    (port a b c d : ℕ) (user : List ℕ)
    → All (λ x. x ≢ 0) user
    → decode_request_v4 (request_v4_bytes port a b c d user)
      ≡ some (record { address = v4 a b c d; port = port }, user, [])
unfolding decode_request_v4
decode_request_v4-request_v4_bytes port a b c d user h =
    rw (until_nul-append user [] h) (ground arith)

-- For every IPv4 endpoint with a valid port and every user without a NUL, `prepare_request_v4` fills a buffer of its size
-- without a fault, and the server that reads it gets back the endpoint and the user, with nothing
-- left over.
pub prepare_request_v4-decode_request_v4 :
    (port a b c d : ℕ) (user buf : List ℕ)
    → port < 65536
    → All (λ x. x ≢ 0) user
    → length buf ≡ 9 + length user
    → let ep : Endpoint = record { address = v4 a b c d; port = port } in
      (buf' : List ℕ) × (prepare_request_v4 (9 + length user) ep user buf
        ≡ some (9 + length user, buf'))
      × (decode_request_v4 buf' ≡ some (ep, user, []))
prepare_request_v4-decode_request_v4 port a b c d user buf h no_nul size =
    let bytes : List ℕ = request_v4_bytes port a b c d user in
    let total : length bytes ≡ 9 + length user = omega (arith, length-append user (0 ∷ [])) in
    (
      overlay bytes buf,
      (prepare_request_v4-Emits (9 + length user) port a b c d user h (omega arith)).run buf
          (omega arith),
      rw (drop_all (length bytes) buf (omega arith), append-nil)
          (decode_request_v4-request_v4_bytes port a b c d user no_nul),
    )
