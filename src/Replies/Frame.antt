-- ===== src/Replies/Frame.antt =====
-- include/boost/socks/impl/connect.ipp: `parse_reply_v5` on a reply of 10 or 22 bytes.
use socks.Base.{
  ℕ, ◌≡◌, ◌⊎◌, inl, inr, refl, true, false, List, [], ◌∷◌, ◌++◌, length, arith, Option, some,
  Bool-cases, ◌!=◌,
}
use socks.Error.{ErrorCode, failed, socks_code, equals_succeeded, make_error_code}
use socks.Codes.{
  AddressType, ReplyCode, ip_v4, ip_v6, to_address_type, reply_code_byte, to_reply_code,
}
use socks.Endpoint.{Address, Endpoint, no_endpoint}
use socks.Replies.{reply_endpoint, parse_reply_v5}

module _ (mk : ℕ → Address) where
  endpoint_append_10 :
      (ec : ErrorCode) (t : AddressType) (ver rep rsv atyp a b c d h l : ℕ) (rest : List ℕ)
      → let answer = ver ∷ rep ∷ rsv ∷ atyp ∷ a ∷ b ∷ c ∷ d ∷ h ∷ l ∷ [] in
        reply_endpoint mk 10 ec t (answer ++ rest) ≡ reply_endpoint mk 10 ec t answer
  unfolding reply_endpoint
  endpoint_append_10 ec ip_v4 ver rep rsv atyp a b c d h l rest = refl
  endpoint_append_10 ec _ ver rep rsv atyp a b c d h l rest = refl

  endpoint_append_22 :
      (ec : ErrorCode) (t : AddressType)
      (ver rep rsv atyp a b c d h l y0 y1 y2 y3 y4 y5 y6 y7 y8 y9 y10 y11 : ℕ) (rest : List ℕ)
      → let answer =
          ver ∷ rep ∷ rsv ∷ atyp ∷ a ∷ b ∷ c ∷ d ∷ h ∷ l ∷ y0 ∷ y1 ∷ y2 ∷ y3 ∷ y4 ∷ y5 ∷ y6 ∷ y7
          ∷ y8 ∷ y9 ∷ y10 ∷ y11 ∷ [] in
        reply_endpoint mk 22 ec t (answer ++ rest) ≡ reply_endpoint mk 22 ec t answer
  unfolding reply_endpoint
  endpoint_append_22 ec ip_v4 ver rep rsv atyp a b c d h l y0 y1 y2 y3 y4 y5 y6 y7 y8 y9 y10 y11
        rest =
      refl
  endpoint_append_22 ec _ ver rep rsv atyp a b c d h l y0 y1 y2 y3 y4 y5 y6 y7 y8 y9 y10 y11 rest =
      refl

  append_10 :
      (answer rest : List ℕ)
      → length answer ≡ 10
      → parse_reply_v5 mk 10 (answer ++ rest) ≡ parse_reply_v5 mk 10 answer
  unfolding parse_reply_v5
  append_10 (ver ∷ rep ∷ rsv ∷ atyp ∷ a ∷ b ∷ c ∷ d ∷ h ∷ l ∷ []) rest e = rw (
      endpoint_append_10 (socks_code (reply_code_byte (to_reply_code rep))) (to_address_type atyp)
        ver rep rsv atyp a b c d h l rest)
  append_10 _ rest e = absurd (omega arith)

  append_22 :
      (answer rest : List ℕ)
      → length answer ≡ 22
      → parse_reply_v5 mk 22 (answer ++ rest) ≡ parse_reply_v5 mk 22 answer
  unfolding parse_reply_v5
  append_22
        (ver ∷ rep ∷ rsv ∷ atyp ∷ a ∷ b ∷ c ∷ d ∷ h ∷ l ∷ y0 ∷ y1 ∷ y2 ∷ y3 ∷ y4 ∷ y5 ∷ y6 ∷ y7 ∷ y8
          ∷ y9 ∷ y10 ∷ y11 ∷ [])
        rest e =
      rw (
        endpoint_append_22 (socks_code (reply_code_byte (to_reply_code rep))) (to_address_type atyp)
          ver rep rsv atyp a b c d h l y0 y1 y2 y3 y4 y5 y6 y7 y8 y9 y10 y11 rest)
  append_22 _ rest e = absurd (omega arith)

  pub parse_reply_v5-append :
      (answer rest : List ℕ)
      → (length answer ≡ 10) ⊎ (length answer ≡ 22)
      → parse_reply_v5 mk (length answer) (answer ++ rest)
        ≡ parse_reply_v5 mk (length answer) answer
  parse_reply_v5-append answer rest (inl e) = rw e (append_10 answer rest e)
  parse_reply_v5-append answer rest (inr e) = rw e (append_22 answer rest e)
      -- A result of the parser: defined, and without an endpoint where it is refused.

  abbrev pub Outcome : Option (Endpoint × ErrorCode) → Type 0
  Outcome r =
      (ep : Endpoint) × (ec : ErrorCode) × (r ≡ some (ep, ec))
      × (failed ec ≡ true → ep ≡ no_endpoint)

  rep_cases :
      (rep : ℕ)
      → (to_reply_code rep ≡ ReplyCode.succeeded)
        ⊎ (equals_succeeded (socks_code (reply_code_byte (to_reply_code rep))) ≡ false)
  unfolding to_reply_code equals_succeeded
  rep_cases rep = ground arith

  code_0 : equals_succeeded (socks_code 0) ≡ true
  unfolding equals_succeeded
  code_0 = refl

  -- The outcome for 10 bytes: refused without an endpoint, or accepted.
  endpoint_10 :
      (t : AddressType) (ver rep rsv atyp a b c d h l : ℕ)
      → Outcome (
          reply_endpoint mk 10
            (socks_code 0)
            t
            (ver ∷ rep ∷ rsv ∷ atyp ∷ a ∷ b ∷ c ∷ d ∷ h ∷ l ∷ []))
  unfolding reply_endpoint make_error_code failed
  endpoint_10 ip_v4 ver rep rsv atyp a b c d h l = (_, _, refl, ground arith)
  endpoint_10 ip_v6 ver rep rsv atyp a b c d h l = (_, _, refl, ground arith)
  endpoint_10 _ ver rep rsv atyp a b c d h l = (_, _, refl, ground arith)

  parse-Outcome_10 : (answer : List ℕ) → length answer ≡ 10 → Outcome (parse_reply_v5 mk 10 answer)
  unfolding parse_reply_v5
  parse-Outcome_10 (ver ∷ rep ∷ rsv ∷ atyp ∷ a ∷ b ∷ c ∷ d ∷ h ∷ l ∷ []) e =
      elim (Bool-cases (ver != 5)) [
        | inl v ↦ rw v (_, _, refl, λ _. refl)
        | inr v ↦ elim (rep_cases rep) [
          | inl z ↦
              rw (v, z, code_0) (endpoint_10 (to_address_type atyp) ver rep rsv atyp a b c d h l)
          | inr z ↦ rw (v, z) (_, _, refl, λ _. refl)
        ]
      ]
  parse-Outcome_10 _ e = absurd (omega arith)

  -- The outcome for 22 bytes: refused without an endpoint, or accepted.
  endpoint_22 :
      (t : AddressType) (ver rep rsv atyp a b c d h l y0 y1 y2 y3 y4 y5 y6 y7 y8 y9 y10 y11 : ℕ)
      → Outcome (
          reply_endpoint mk 22 (socks_code 0) t (
            ver ∷ rep ∷ rsv ∷ atyp ∷ a ∷ b ∷ c ∷ d ∷ h ∷ l ∷ y0 ∷ y1 ∷ y2 ∷ y3 ∷ y4 ∷ y5 ∷ y6 ∷ y7
            ∷ y8 ∷ y9 ∷ y10 ∷ y11 ∷ []))
  unfolding reply_endpoint make_error_code failed
  endpoint_22 ip_v4 ver rep rsv atyp a b c d h l y0 y1 y2 y3 y4 y5 y6 y7 y8 y9 y10 y11 =
      (_, _, refl, ground arith)
  endpoint_22 ip_v6 ver rep rsv atyp a b c d h l y0 y1 y2 y3 y4 y5 y6 y7 y8 y9 y10 y11 =
      (_, _, refl, ground arith)
  endpoint_22 _ ver rep rsv atyp a b c d h l y0 y1 y2 y3 y4 y5 y6 y7 y8 y9 y10 y11 =
      (_, _, refl, ground arith)

  parse-Outcome_22 : (answer : List ℕ) → length answer ≡ 22 → Outcome (parse_reply_v5 mk 22 answer)
  unfolding parse_reply_v5
  parse-Outcome_22
        (ver ∷ rep ∷ rsv ∷ atyp ∷ a ∷ b ∷ c ∷ d ∷ h ∷ l ∷ y0 ∷ y1 ∷ y2 ∷ y3 ∷ y4 ∷ y5 ∷ y6 ∷ y7 ∷ y8
          ∷ y9 ∷ y10 ∷ y11 ∷ [])
        e =
      elim (Bool-cases (ver != 5)) [
        | inl v ↦ rw v (_, _, refl, λ _. refl)
        | inr v ↦ elim (rep_cases rep) [
          | inl z ↦
              rw (v, z, code_0)
                (endpoint_22 (to_address_type atyp) ver rep rsv atyp a b c d h l y0 y1 y2 y3 y4 y5
                  y6 y7 y8 y9 y10 y11)
          | inr z ↦ rw (v, z) (_, _, refl, λ _. refl)
        ]
      ]
  parse-Outcome_22 _ e = absurd (omega arith)

  -- Any reply of 10 or 22 bytes is parsed without a fault, and where it is refused no endpoint is
  -- returned.
  pub parse_reply_v5-Outcome :
      (answer : List ℕ)
      → (length answer ≡ 10) ⊎ (length answer ≡ 22)
      → Outcome (parse_reply_v5 mk (length answer) answer)
  parse_reply_v5-Outcome answer (inl e) = rw e (parse-Outcome_10 answer e)
  parse_reply_v5-Outcome answer (inr e) = rw e (parse-Outcome_22 answer e)
