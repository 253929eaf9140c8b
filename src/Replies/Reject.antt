-- ===== src/Replies/Reject.antt =====
-- include/boost/socks/impl/connect.ipp: `parse_reply_v5` on a reply that it does not refuse.
use socks.Base.{
  ℕ, ◌+◌, ◌*◌, ◌≤◌, ◌<◌, ◌≡◌, ◌≢◌, ◌⊎◌, inl, inr, refl, false, List, [], ◌∷◌, ◌++◌, length, All,
  arith, some,
}
use socks.Error.{ErrorCode, failed, socks_code, equals_succeeded, make_error_code}
use socks.Codes.{AddressType, ip_v4, ip_v6, domain_name, unknown, to_address_type, to_reply_code}
use socks.Endpoint.{Address, v4, v6, Endpoint, IsEndpoint, IsByte}
use socks.Replies.{MakesV4, reply_endpoint, parse_reply_v5}
use socks.Replies.Accept.{reply_bytes, shift_in_lem, v4_value}

module _ (mk : ℕ → Address) where
  header :
      (n ver rep rsv atyp : ℕ) (body : List ℕ) (ep : Endpoint) (ec : ErrorCode)
      → rep < 256
      → parse_reply_v5 mk n (ver ∷ rep ∷ rsv ∷ atyp ∷ body) ≡ some (ep, ec)
      → failed ec ≡ false
      → (ver ≡ 5)
        × (rep ≡ 0)
        × (reply_endpoint mk n (socks_code 0) (to_address_type atyp) (ver ∷ rep ∷ rsv ∷ atyp ∷ body)
            ≡ some (ep, ec))
  unfolding parse_reply_v5 to_reply_code equals_succeeded failed make_error_code
  header n ver rep rsv atyp body ep ec h e f = ground arith

  atyp_cases :
      (t : ℕ)
      → t < 256
      → ((t ≡ 1) × (to_address_type t ≡ ip_v4))
        ⊎ ((t ≡ 4) × (to_address_type t ≡ ip_v6))
        ⊎ (to_address_type t ≡ domain_name)
        ⊎ (to_address_type t ≡ unknown)
  unfolding to_address_type
  atyp_cases t h = ground arith

-- The buffer begins with a granted reply for `ep`, which is all of the `n` bytes received.
abbrev pub Granted : ℕ → List ℕ → Endpoint → Type 0
Granted n buf ep =
    (rsv : ℕ) × (rest : List ℕ) × (buf ≡ reply_bytes rsv ep ++ rest)
    × (n ≡ length (reply_bytes rsv ep))
    × IsEndpoint ep

module _ (mk : ℕ → Address) (m : MakesV4 mk) (n : ℕ) (ep : Endpoint) (ec : ErrorCode) where
  granted_v4 :
      (rsv a b c d h l : ℕ) (rest : List ℕ)
      → let buf = 5 ∷ 0 ∷ rsv ∷ 1 ∷ a ∷ b ∷ c ∷ d ∷ h ∷ l ∷ rest in
        All IsByte (a ∷ b ∷ c ∷ d ∷ h ∷ l ∷ rest)
        → reply_endpoint mk n (socks_code 0) ip_v4 buf ≡ some (ep, ec)
        → failed ec ≡ false
        → Granted n buf ep × (ec ≡ socks_code 0)
  unfolding reply_endpoint failed make_error_code
  granted_v4 rsv a b c d h l rest bytes e f =
      let value = v4_value mk m a b c d (omega arith) in
      let port = shift_in_lem 16 h l (omega arith) (omega arith) in
      let here : ep ≡ record { address = v4 a b c d; port = h * 256 + l } = ground arith in
      (
        (rsv, rest, rw here (ground arith), rw here (ground arith), rw here (omega arith)),
        ground arith,
      )

  granted_v6 :
      (rsv a b c d h l : ℕ) (rest : List ℕ)
      → let buf = 5 ∷ 0 ∷ rsv ∷ 4 ∷ a ∷ b ∷ c ∷ d ∷ h ∷ l ∷ rest in
        12 ≤ length rest
        → All IsByte (a ∷ b ∷ c ∷ d ∷ h ∷ l ∷ rest)
        → reply_endpoint mk n (socks_code 0) ip_v6 buf ≡ some (ep, ec)
        → failed ec ≡ false
        → Granted n buf ep × (ec ≡ socks_code 0)
  unfolding reply_endpoint failed make_error_code
  granted_v6 rsv a b c d h l (y0 ∷ y1 ∷ y2 ∷ y3 ∷ y4 ∷ y5 ∷ y6 ∷ y7 ∷ y8 ∷ y9 ∷ y10 ∷ y11 ∷ rest) k
        bytes e f =
      let port = shift_in_lem 16 y10 y11 (omega arith) (omega arith) in
      let ip : List ℕ =
        a ∷ b ∷ c ∷ d ∷ h ∷ l ∷ y0 ∷ y1 ∷ y2 ∷ y3 ∷ y4 ∷ y5 ∷ y6 ∷ y7 ∷ y8 ∷ y9 ∷ [] in
      let here : ep ≡ record { address = v6 ip; port = y10 * 256 + y11 } = ground arith in
      (
        (rsv, rest, rw here (ground arith), rw here (ground arith), rw here (omega arith)),
        ground arith,
      )
  granted_v6 rsv a b c d h l _ k bytes e f = absurd (omega arith)

  refused :
      (t : AddressType) (buf : List ℕ)
      → t ≢ ip_v4
      → t ≢ ip_v6
      → reply_endpoint mk n (socks_code 0) t buf ≡ some (ep, ec)
      → ¬ (failed ec ≡ false)
  unfolding reply_endpoint failed make_error_code
  refused ip_v4 buf h k e f = h refl
  refused ip_v6 buf h k e f = k refl
  refused _ buf h k e f = ground arith

  -- Where `make_address_v4` gives the address of a number, and when a buffer of 22 bytes or more is
  -- parsed without a failure, it begins with a granted reply, which is all of the bytes received,
  -- and the endpoint returned is valid and the one that it names.
  pub parse_reply_v5-Granted :
      (buf : List ℕ)
      → 22 ≤ length buf
      → All IsByte buf
      → parse_reply_v5 mk n buf ≡ some (ep, ec)
      → failed ec ≡ false
      → Granted n buf ep × (ec ≡ socks_code 0)
  parse_reply_v5-Granted (ver ∷ rep ∷ r ∷ atyp ∷ a ∷ b ∷ c ∷ d ∷ h ∷ l ∷ rest) k bytes e f =
      let (is_5, is_0, e') =
        header mk n ver rep r atyp (a ∷ b ∷ c ∷ d ∷ h ∷ l ∷ rest) ep ec (omega arith) e f in
      elim (atyp_cases mk atyp (omega arith)) [
        | inl (is_v4, t) ↦
            rw (is_5, is_0, is_v4)
              (granted_v4 r a b c d h l rest bytes.1.1.1.1 (rw (t, is_5, is_0, is_v4) at e') f)
        | inr (inl (is_v6, t)) ↦
            rw (is_5, is_0, is_v6)
              (granted_v6 r a b c d h l rest (omega arith) bytes.1.1.1.1
                (rw (t, is_5, is_0, is_v6) at e') f)
        | inr (inr (inl t)) ↦ absurd (refused domain_name _ (λ q. cc) (λ q. cc) (rw t at e') f)
        | inr (inr (inr t)) ↦ absurd (refused unknown _ (λ q. cc) (λ q. cc) (rw t at e') f)
      ]
  parse_reply_v5-Granted _ k bytes e f = absurd (omega arith)
