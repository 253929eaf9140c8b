-- ===== src/Requests/Long.antt =====
-- include/boost/socks/impl/connect.ipp: the request for a name that is longer than its length byte can count.
use socks.Base.{
  ◌∙◌, ℕ, zero, suc, ◌*◌, ◌/◌, sym, All, append_assoc, ◌+◌, ◌%◌, ◌≤◌, ◌<◌, ◌≡◌, refl, List, [], ◌∷◌,
  ◌++◌, length, take, length-append, append-nil, arith, le→leb,
}
use socks.Base.Memory.{Emits, Emits-cast, Emits-pure, Emits-bind, Emits-byte, Emits-assert}
use socks.Endpoint.{DomainEndpoint, named, IsByte, IsTarget}
use socks.Requests.{
  write_ver_cmd_rsv, write_domain, write_target_host, dst_addr_size, prepare_request,
}
use socks.Requests.Layout.{request_bytes, port_bytes, address_port-Emits, ver_cmd_rsv-Emits}

abbrev pub name_bytes : DomainEndpoint → List ℕ
name_bytes d = 3 ∷ (length d.domain % 256) ∷ (d.domain ++ port_bytes d.port)

name-Emits :
    (d : DomainEndpoint) (front : List ℕ)
    → 3 ≡ length front
    → d.port < 65536
    → Emits (write_target_host 3 (named d)) front (name_bytes d) (4 + length d.domain)
unfolding write_target_host write_domain
name-Emits d front e hp =
    let l : ℕ = length d.domain in
    Emits-byte (3 + 0) 3 _ front _ _ (omega arith) (
      Emits-byte (3 + 1) (l % 256) _ (front ++ 3 ∷ []) _ _
        (omega (arith, length-append front (3 ∷ [])))
        (Emits-cast _ _ _ _ _ _ refl (omega (arith, length-append d.domain (port_bytes d.port))) (
          address_port-Emits 3 2 d.port d.domain ((front ++ 3 ∷ []) ++ (l % 256) ∷ [])
            (omega (
              arith,
              length-append front (3 ∷ []),
              length-append (front ++ 3 ∷ []) ((l % 256) ∷ []),
            ))
            hp)))

pub request-Emits :
    (n : ℕ) (d : DomainEndpoint)
    → d.port < 65536
    → 7 + length d.domain ≤ n
    → Emits (prepare_request n (named d)) [] (5 ∷ 1 ∷ 0 ∷ name_bytes d) (7 + length d.domain)
unfolding prepare_request dst_addr_size
request-Emits n d hp k = Emits-assert _ _ [] _ _ (le→leb _ _ (omega arith)) (
    Emits-bind write_ver_cmd_rsv _ [] (5 ∷ 1 ∷ 0 ∷ []) (name_bytes d) tt _ ver_cmd_rsv-Emits (
      Emits-cast _ (5 ∷ 1 ∷ 0 ∷ []) (name_bytes d ++ []) (name_bytes d) _ _
        (append-nil (name_bytes d)) (omega arith)
        (Emits-bind (write_target_host 3 (named d)) _ (5 ∷ 1 ∷ 0 ∷ []) (name_bytes d) [] _ _
          (name-Emits d (5 ∷ 1 ∷ 0 ∷ []) refl hp) (Emits-pure _ _))))

parts :
    (n : ℕ) (xs : List ℕ)
    → n + 2 ≤ length xs
    → (us : List ℕ) × (hi : ℕ) × (lo : ℕ) × (rest : List ℕ) × (xs ≡ us ++ hi ∷ lo ∷ rest)
      × (length us ≡ n)
      × (take n xs ≡ us)
parts zero (hi ∷ lo ∷ rest) h = ([], hi, lo, rest, refl, refl, refl)
parts (suc n) (x ∷ xs) h =
    let (us, hi, lo, rest, whole, size, first) = parts n xs (omega arith) in
    (x ∷ us, hi, lo, rest, rw whole refl, rw size refl, rw first refl)
parts _ _ h = absurd (omega arith)

two_bytes : (hi lo : ℕ) → lo < 256 → port_bytes (hi * 256 + lo) ≡ hi ∷ lo ∷ []
two_bytes hi lo h =
    let high : (hi * 256 + lo) / 256 ≡ hi = omega arith in
    let low : (hi * 256 + lo) % 256 ≡ lo = omega arith in rw (high, low) refl

bytes_at :
    (us : List ℕ) (hi lo : ℕ) (rest : List ℕ)
    → All IsByte (us ++ hi ∷ lo ∷ rest)
    → (hi < 256) × (lo < 256)
bytes_at [] hi lo rest h = (h.0, h.1.0)
bytes_at (u ∷ us) hi lo rest h = bytes_at us hi lo rest h.1

name_and_rest :
    (us : List ℕ) (hi lo port : ℕ) (rest domain : List ℕ)
    → domain ≡ us ++ hi ∷ lo ∷ rest
    → lo < 256
    → domain ++ port_bytes port ≡ (us ++ port_bytes (hi * 256 + lo)) ++ (rest ++ port_bytes port)
name_and_rest us hi lo port rest domain e h =
    rw (e, two_bytes hi lo h)
      (append_assoc us (hi ∷ lo ∷ rest) (port_bytes port)
        ∙ sym (append_assoc us (hi ∷ lo ∷ []) (rest ++ port_bytes port)))

-- The bytes begin with a request for another name and another port, which stand in the name.
pub name_bytes-request_bytes :
    (d : DomainEndpoint)
    → 255 < length d.domain
    → All IsByte d.domain
    → (found : DomainEndpoint) × (tail : List ℕ) × IsTarget (named found)
      × (found.domain ≡ take (length d.domain % 256) d.domain)
      × (length found.domain ≡ length d.domain % 256)
      × (5 ∷ 1 ∷ 0 ∷ name_bytes d ≡ request_bytes (named found) ++ tail)
name_bytes-request_bytes d long bytes =
    of_parts (length d.domain % 256) refl (parts (length d.domain % 256) d.domain (omega arith))
  where
    of_parts :
        (k : ℕ)
        → k ≡ length d.domain % 256
        → ((us : List ℕ) × (hi : ℕ) × (lo : ℕ) × (rest : List ℕ) × (d.domain ≡ us ++ hi ∷ lo ∷ rest)
            × (length us ≡ k)
            × (take k d.domain ≡ us))
        → (found : DomainEndpoint) × (tail : List ℕ) × IsTarget (named found)
          × (found.domain ≡ take k d.domain)
          × (length found.domain ≡ k)
          × (5 ∷ 1 ∷ 0 ∷ name_bytes d ≡ request_bytes (named found) ++ tail)
    of_parts k is_rest (us, hi, lo, rest, whole, size, first) =
        let (high, low) = bytes_at us hi lo rest (rw whole at bytes) in
        let len : length d.domain % 256 ≡ length us = omega arith in
        (
          record { domain = us; port = hi * 256 + lo },
          rest ++ port_bytes d.port,
          (omega arith, omega arith),
          sym first,
          size,
          rw (len, name_and_rest us hi lo d.port rest d.domain whole low) refl,
        )
