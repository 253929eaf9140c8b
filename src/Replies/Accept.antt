-- ===== src/Replies/Accept.antt =====
-- include/boost/socks/impl/connect.ipp: `parse_reply_v5` on a granted reply.
use socks.Base.{ℕ, ◌+◌, ◌*◌, ◌/◌, ◌%◌, ◌^◌, ◌<◌, ◌≡◌, List, [], ◌∷◌, ◌++◌, length, arith, some}
use native.Mathlib.Nat.{mod-eq_of_lt}
use socks.Base.Bits.{bit_or-byte}
use socks.Error.{socks_code, equals_succeeded}
use socks.Codes.{to_address_type, to_reply_code}
use socks.Endpoint.{Address, v4, v6, Endpoint, host, IsAddress, IsEndpoint}
use socks.Requests.Layout.{target_bytes}
use socks.Replies.{MakesV4, shift_in, parse_reply_v5}

pub shift_in_lem : (w x b : ℕ) → x * 256 < 2 ^ w → b < 256 → shift_in w x b ≡ x * 256 + b
shift_in_lem w x b h k = rw (mod-eq_of_lt h) (bit_or-byte x b k)

pub port_value : (p : ℕ) → p < 65536 → shift_in 16 (p / 256) (p % 256) ≡ p
port_value p h = omega (arith, shift_in_lem 16 (p / 256) (p % 256) (omega arith) (omega arith))

-- What a server sends to grant a request: VER | REP | RSV | ATYP | BND.ADDR | BND.PORT.
abbrev pub reply_bytes : ℕ → Endpoint → List ℕ
reply_bytes rsv ep = 5 ∷ 0 ∷ rsv ∷ target_bytes (host ep)

module _ (mk : ℕ → Address) (m : MakesV4 mk) where
  pub v4_value :
      (a b c d : ℕ)
      → IsAddress (v4 a b c d)
      → mk (shift_in 32 (shift_in 32 (shift_in 32 a b) c) d) ≡ v4 a b c d
  v4_value a b c d (ha, hb, hc, hd) = ground (
    arith,
    shift_in_lem 32 a b (omega arith) hb,
    shift_in_lem 32 (a * 256 + b) c (omega arith) hc,
    shift_in_lem 32 ((a * 256 + b) * 256 + c) d (omega arith) hd,
    m a b c d ha hb hc hd,
  )

  granted :
      (a : Address) (p rsv : ℕ) (rest : List ℕ)
      → IsAddress a
      → p < 65536
      → let ep : Endpoint = record { address = a; port = p } in
        let buf = reply_bytes rsv ep ++ rest in
        parse_reply_v5 mk (length (reply_bytes rsv ep)) buf ≡ some (ep, socks_code 0)
  unfolding parse_reply_v5 to_reply_code to_address_type equals_succeeded
  granted (v4 a b c d) p rsv rest h hp = rw (v4_value a b c d h, port_value p hp)
  granted
        (v6 (
          x0 ∷ x1 ∷ x2 ∷ x3 ∷ x4 ∷ x5 ∷ x6 ∷ x7 ∷ x8 ∷ x9 ∷ x10 ∷ x11 ∷ x12 ∷ x13 ∷ x14 ∷ x15 ∷ []))
        p rsv rest h hp =
      rw (port_value p hp)
  granted (v6 _) p rsv rest h hp = absurd (omega arith)

  -- Where `make_address_v4` gives the address of a number: a granted reply for a valid IPv4 or IPv6
  -- endpoint, with anything behind it in the buffer, is accepted, and gives back that endpoint.
  pub parse_reply_v5-reply_bytes :
      (ep : Endpoint) (rsv : ℕ) (rest : List ℕ)
      → IsEndpoint ep
      → parse_reply_v5 mk (length (reply_bytes rsv ep)) (reply_bytes rsv ep ++ rest)
        ≡ some (ep, socks_code 0)
  parse_reply_v5-reply_bytes ep rsv rest h = granted ep.address ep.port rsv rest h.0 h.1
