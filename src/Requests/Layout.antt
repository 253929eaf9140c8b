-- ===== src/Requests/Layout.antt =====
-- include/boost/socks/impl/connect.ipp: the bytes of each SOCKS5 request and the functions that write them.
use socks.Base.{
  ℕ, ◌+◌, ◌/◌, ◌%◌, ◌^◌, ◌≤◌, ◌<◌, ◌≡◌, refl, Bool, true, false, List, [], ◌∷◌, ◌++◌, length,
  length-append, append-nil, arith, ◌==◌, ==_iff, le→leb, Bool-cases, inl, inr, if◌then◌else◌,
}
use socks.Base.Bits.{bit_and-byte}
use socks.Base.Memory.{
  Emits, Emits-cast, Emits-each, Emits-pure, Emits-bind, Emits-byte, Emits-write_at,
  Emits-write_each, Emits-assert, write_each, assert, ◌>>=◌, ◌>>◌, pure, write_at,
}
use socks.Endpoint.{
  Address, v4, v6, Target, host, named, is_v6, to_bytes, AuthOptions, IsTarget, FitsRequest,
  IsAddress,
}
use socks.Codes.{address_type_byte, ip_v4, ip_v6}
use socks.Requests.{
  prepare_greeting_methods, prepare_greeting, prepare_userpass_request, write_ver_cmd_rsv,
  write_port, write_host, write_domain, write_target_host, dst_addr_size, prepare_request,
}

-- VER | NMETHODS | METHODS
abbrev pub greeting_bytes : AuthOptions → List ℕ
greeting_bytes opt = if opt.is_userpass then 5 ∷ 2 ∷ 0 ∷ 2 ∷ [] else 5 ∷ 1 ∷ 0 ∷ []

-- VER | IDLEN | ID | PWLEN | PW, with the length of the user in both places.
abbrev pub userpass_bytes : AuthOptions → List ℕ
userpass_bytes opt = 1 ∷ length opt.user ∷ (opt.user ++ length opt.user ∷ opt.pass)

abbrev pub port_bytes : ℕ → List ℕ
port_bytes p = (p / 256) ∷ (p % 256) ∷ []

-- ATYP | DST.ADDR | DST.PORT
abbrev pub target_bytes : Target → List ℕ
target_bytes (host ep) =
    (if is_v6 ep.address then 4 else 1) ∷ (to_bytes ep.address ++ port_bytes ep.port)
target_bytes (named d) = 3 ∷ length d.domain ∷ (d.domain ++ port_bytes d.port)

-- VER | CMD | RSV | ATYP | DST.ADDR | DST.PORT
abbrev pub request_bytes : Target → List ℕ
request_bytes t = 5 ∷ 1 ∷ 0 ∷ target_bytes t

greeting_methods-Emits :
    (n : ℕ) (methods : List ℕ)
    → length methods ≤ 255
    → 2 + length methods ≤ n
    → Emits
        (prepare_greeting_methods n methods)
        []
        (5 ∷ length methods ∷ methods)
        (2 + length methods)
unfolding prepare_greeting_methods
greeting_methods-Emits n methods h k =
    let small : length methods % 256 ≡ length methods = omega arith in
    Emits-assert _ _ [] _ _ (le→leb _ _ h) (
      Emits-assert _ _ [] _ _ (le→leb _ _ k) (
        rw small (
          Emits-byte 0 5 _ [] _ _ refl (
            Emits-byte 1 (length methods) _ (5 ∷ []) _ _ refl
              (Emits-write_each 0 methods (5 ∷ length methods ∷ []) 2 refl)))))

-- With room for four bytes `prepare_greeting` writes the greeting whole and returns its size: the greeting
-- offers "no authentication", and user/pass if the options hold credentials.
pub prepare_greeting-Emits :
    (n : ℕ) (opt : AuthOptions)
    → 4 ≤ n
    → Emits (prepare_greeting n opt) [] (greeting_bytes opt) (length (greeting_bytes opt))
unfolding prepare_greeting
prepare_greeting-Emits n opt h = elim (Bool-cases opt.is_userpass) [
  | inl e ↦ rw e (greeting_methods-Emits n (0 ∷ 2 ∷ []) (omega arith) (omega arith))
  | inr e ↦ rw e (greeting_methods-Emits n (0 ∷ []) (omega arith) (omega arith))
]

-- From the password length on, behind `front`.
userpass_tail-Emits :
    (pass front : List ℕ) (l i n2 : ℕ)
    → i ≡ length front
    → i + 1 + length pass ≡ n2
    → Emits
        (do write_at i l; j ← write_each 0 (i + 1) pass; assert (j == n2); pure n2)
        front
        (l ∷ pass)
        n2
userpass_tail-Emits pass front l i n2 e total = Emits-byte i l _ front pass n2 e (
    Emits-cast _ (front ++ l ∷ []) (pass ++ []) pass n2 n2 (append-nil pass) refl (
      Emits-each 0 (i + 1) pass _ (front ++ l ∷ []) [] n2
        (omega (arith, length-append front (l ∷ [])))
        (Emits-assert _ _ _ [] n2 ((==_iff _ n2).1 total) (Emits-pure n2 _))))

-- With a user and a password of at most 255 bytes and room for the request `prepare_userpass_request`
-- writes it whole and returns its size. The request repeats the length of the user where the length of the
-- password belongs.
pub prepare_userpass_request-Emits :
    (n : ℕ) (opt : AuthOptions)
    → FitsRequest opt
    → length opt.user + length opt.pass + 3 ≤ n
    → Emits
        (prepare_userpass_request n opt)
        []
        (userpass_bytes opt)
        (length opt.user + length opt.pass + 3)
unfolding prepare_userpass_request
prepare_userpass_request-Emits n opt (hu, hp) h =
    let n2 : ℕ = length opt.user + length opt.pass + 3 in
    let small : length opt.user % 256 ≡ length opt.user = omega arith in
    Emits-assert _ _ [] _ _ (le→leb _ _ hu) (
      Emits-assert _ _ [] _ _ (le→leb _ _ hp) (
        Emits-assert _ _ [] _ _ (le→leb _ _ h) (
          rw small (
            Emits-byte 0 1 _ [] _ _ refl (
              Emits-byte 1 (length opt.user) _ (1 ∷ []) _ _ refl (
                Emits-bind (write_each 0 2 opt.user) _ (1 ∷ length opt.user ∷ []) opt.user
                  (length opt.user ∷ opt.pass) (2 + length opt.user) n2
                  (Emits-write_each 0 opt.user (1 ∷ length opt.user ∷ []) 2 refl)
                  (userpass_tail-Emits opt.pass (1 ∷ length opt.user ∷ opt.user) (length opt.user)
                    (2 + length opt.user) n2 (omega arith) (omega arith))))))))

write_port-Emits :
    (base i port : ℕ) (front : List ℕ)
    → base + i ≡ length front
    → port < 65536
    → Emits (write_port base i port) front (port_bytes port) (i + 2)
unfolding write_port
write_port-Emits base i port front e h =
    let high : port / 2 ^ 8 % 256 ≡ port / 256 = omega arith in
    rw (high, bit_and-byte port)
      (Emits-byte (base + i) (port / 256) _ front (port % 256 ∷ []) _ e (
        Emits-byte (base + (i + 1)) (port % 256) _ (front ++ port / 256 ∷ []) [] _
          (omega (arith, length-append front (port / 256 ∷ []))) (Emits-pure (i + 2) _)))

atyp_lem : (b : Bool) → address_type_byte (if b then ip_v6 else ip_v4) ≡ (if b then 4 else 1)
atyp_lem true = refl
atyp_lem false = refl

-- An address of `bytes`, or a name, and the port behind it.
pub address_port-Emits :
    (base i port : ℕ) (bytes front : List ℕ)
    → base + i ≡ length front
    → port < 65536
    → Emits
        (do j ← write_each base i bytes; write_port base j port)
        front
        (bytes ++ port_bytes port)
        (i + length (bytes ++ port_bytes port))
address_port-Emits base i port bytes front e h =
    Emits-each base i bytes _ front (port_bytes port) _ e (
      Emits-cast _ _ (port_bytes port) (port_bytes port) (i + length bytes + 2) _ refl
        (omega (arith, length-append bytes (port_bytes port)))
        (write_port-Emits base (i + length bytes) port (front ++ bytes)
          (omega (arith, length-append front bytes)) h))

write_target_host-Emits :
    (base : ℕ) (t : Target) (front : List ℕ)
    → base ≡ length front
    → IsTarget t
    → Emits (write_target_host base t) front (target_bytes t) (length (target_bytes t))
unfolding write_target_host write_host write_domain
write_target_host-Emits base (host ep) front e (ha, hp) =
    let atyp : ℕ = if is_v6 ep.address then 4 else 1 in
    rw (atyp_lem (is_v6 ep.address)) (
      Emits-byte (base + 0) atyp _ front _ _ (omega arith) (
        Emits-cast _ _ _ _ _ _ refl (omega arith) (
          address_port-Emits base 1 ep.port (to_bytes ep.address) (front ++ atyp ∷ [])
            (omega (arith, length-append front (atyp ∷ []))) hp)))
write_target_host-Emits base (named d) front e (hd, hp) =
    let l : ℕ = length d.domain in
    let small : l % 256 ≡ l = omega arith in
    rw small (
      Emits-byte (base + 0) 3 _ front _ _ (omega arith) (
        Emits-byte (base + 1) l _ (front ++ 3 ∷ []) _ _
          (omega (arith, length-append front (3 ∷ [])))
          (Emits-cast _ _ _ _ _ _ refl (omega arith) (
            address_port-Emits base 2 d.port d.domain ((front ++ 3 ∷ []) ++ l ∷ [])
              (omega
                (arith, length-append front (3 ∷ []), length-append (front ++ 3 ∷ []) (l ∷ [])))
              hp))))

length-to_bytes : (a : Address) → IsAddress a → length (to_bytes a) ≡ (if is_v6 a then 16 else 4)
length-to_bytes (v4 a b c d) h = refl
length-to_bytes (v6 bytes) h = h.0

pub dst_addr_size-length :
    (t : Target) → IsTarget t → dst_addr_size t + 6 ≡ length (request_bytes t)
unfolding dst_addr_size
dst_addr_size-length (host ep) (h, _) =
    omega (
      arith,
      length-append (to_bytes ep.address) (port_bytes ep.port),
      length-to_bytes ep.address h,
    )
dst_addr_size-length (named d) h = omega (arith, length-append d.domain (port_bytes d.port))

pub ver_cmd_rsv-Emits : Emits write_ver_cmd_rsv [] (5 ∷ 1 ∷ 0 ∷ []) tt
unfolding write_ver_cmd_rsv
ver_cmd_rsv-Emits =
    Emits-byte 0 5 _ [] (1 ∷ 0 ∷ []) tt refl
      (Emits-byte 1 1 _ (5 ∷ []) (0 ∷ []) tt refl (Emits-write_at 2 0 (5 ∷ 1 ∷ []) refl))

-- With a valid target, a name being of at most 255 bytes, and room for the request, `prepare_request` writes
-- the CONNECT request whole and returns its size.
pub prepare_request-Emits :
    (n : ℕ) (t : Target)
    → IsTarget t
    → length (request_bytes t) ≤ n
    → Emits (prepare_request n t) [] (request_bytes t) (length (request_bytes t))
unfolding prepare_request
prepare_request-Emits n t h k =
    let size : dst_addr_size t + 6 ≡ length (request_bytes t) = dst_addr_size-length t h in
    Emits-assert _ _ [] _ _ (le→leb _ _ (omega arith)) (
      Emits-bind write_ver_cmd_rsv _ [] (5 ∷ 1 ∷ 0 ∷ []) (target_bytes t) tt _ ver_cmd_rsv-Emits (
        Emits-cast _ (5 ∷ 1 ∷ 0 ∷ []) (target_bytes t ++ []) (target_bytes t) (dst_addr_size t + 6)
          _ (append-nil (target_bytes t)) size
          (Emits-bind (write_target_host 3 t) _ (5 ∷ 1 ∷ 0 ∷ []) (target_bytes t) [] _
            (dst_addr_size t + 6) (write_target_host-Emits 3 t (5 ∷ 1 ∷ 0 ∷ []) refl h)
            (Emits-pure _ _))))
