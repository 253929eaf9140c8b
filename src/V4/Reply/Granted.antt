-- ===== src/V4/Reply/Granted.antt =====
-- include/boost/socks/impl/connect_v4.ipp: `parse_reply_v4`, and the address that it reads.
use socks.Base.{
  ℕ, ◌+◌, ◌*◌, ◌/◌, ◌%◌, ◌<◌, ◌≡◌, ◌⊎◌, ◌↔◌, inl, inr, refl, true, false, List, [], ◌∷◌, All, arith,
  some, ◌==◌, ◌!=◌, ◌&&◌, Bool-cases,
}
use socks.Error.{
  ErrorCode, failed, socks_code, default_error_condition, equals_succeeded, make_error_code,
}
use socks.Codes.{reply_code_v4_byte, to_reply_code_v4}
use socks.Endpoint.{Address, v4, Endpoint, no_endpoint, IsByte}
use socks.Replies.{MakesV4}
use socks.Replies.Accept.{shift_in_lem, v4_value}
use socks.V4.Reply.{parse_reply_v4}

not_granted :
    (rep : ℕ)
    → (rep == 90) ≡ false
    → rep < 256
    → let ec = socks_code (reply_code_v4_byte (to_reply_code_v4 rep)) in
      (equals_succeeded ec ≡ false) × (failed ec ≡ true)
unfolding to_reply_code_v4 equals_succeeded failed default_error_condition
not_granted rep h k = ground arith

module _ (mk : ℕ → Address) (m : MakesV4 mk) where
  -- A granted reply for a valid endpoint is accepted, but the address is read one byte too early: it begins with the low
  -- byte of the port, and lacks the last byte of the address.
  pub parse_reply_v4_shifted :
      (ver port a b c d : ℕ) (rest : List ℕ)
      → (ver ≡ 0) ⊎ (ver ≡ 4)
      → port < 65536
      → All IsByte (a ∷ b ∷ c ∷ d ∷ [])
      → parse_reply_v4 mk 8 (ver ∷ 90 ∷ port / 256 ∷ port % 256 ∷ a ∷ b ∷ c ∷ d ∷ rest)
        ≡ some (record { address = v4 (port % 256) a b c; port = port }, socks_code 90)
  unfolding parse_reply_v4 to_reply_code_v4 equals_succeeded
  parse_reply_v4_shifted ver port a b c d rest v h bytes =
      let value = v4_value mk m (port % 256) a b c (omega arith) in
      let same = shift_in_lem 16 (port / 256) (port % 256) (omega arith) (omega arith) in
      let back : port / 256 * 256 + port % 256 ≡ port = omega arith in
      rw (value, same, back) (ground arith)

  -- Where `make_address_v4` gives the address of a number: from a granted reply for a valid
  -- endpoint the client reads that endpoint exactly if the low byte of the port and the four bytes
  -- of the address are all the same.
  pub parse_reply_v4_iff :
      (ver port a b c d : ℕ) (rest : List ℕ)
      → (ver ≡ 0) ⊎ (ver ≡ 4)
      → port < 65536
      → All IsByte (a ∷ b ∷ c ∷ d ∷ [])
      → (parse_reply_v4 mk 8 (ver ∷ 90 ∷ port / 256 ∷ port % 256 ∷ a ∷ b ∷ c ∷ d ∷ rest)
          ≡ some (record { address = v4 a b c d; port = port }, socks_code 90))
        ↔ ((port % 256 ≡ a) × (a ≡ b) × (b ≡ c) × (c ≡ d))
  parse_reply_v4_iff ver port a b c d rest v h bytes =
      rw (parse_reply_v4_shifted ver port a b c d rest v h bytes) (ground arith)

  -- Any 8 bytes, with anything behind them, are parsed without a fault. The reply is accepted exactly if the
  -- version is 0 or 4 and the code 90, and where it is refused no endpoint is returned.
  pub parse_reply_v4-failed_iff :
      (ver rep p q a b c d : ℕ) (rest : List ℕ)
      → rep < 256
      → (ep : Endpoint) × (ec : ErrorCode) × (parse_reply_v4 mk 8
            (ver ∷ rep ∷ p ∷ q ∷ a ∷ b ∷ c ∷ d ∷ rest)
          ≡ some (ep, ec))
        × ((failed ec ≡ false) ↔ (((ver ≡ 0) ⊎ (ver ≡ 4)) × (rep ≡ 90)))
        × (failed ec ≡ true → ep ≡ no_endpoint)
  unfolding parse_reply_v4 to_reply_code_v4 equals_succeeded failed make_error_code
  parse_reply_v4-failed_iff ver rep p q a b c d rest h = elim (Bool-cases (ver != 0 && ver != 4)) [
    | inl e ↦ rw e (_, _, refl, ground arith, λ _. refl)
    | inr e ↦ elim (Bool-cases (rep == 90)) [
      | inl f ↦
          let granted : rep ≡ 90 = ground arith in
          rw (e, granted) (_, _, refl, ground arith, ground arith)
      | inr f ↦
          let (code, refused) = not_granted rep f h in
          rw (e, code) (_, _, refl, ground arith, λ _. refl)
    ]
  ]
