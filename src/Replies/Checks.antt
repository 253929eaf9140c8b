-- ===== src/Replies/Checks.antt =====
-- include/boost/socks/impl/connect.ipp and impl/connect.hpp: the checks of the negotiation replies, and
-- the condition of the read of the CONNECT reply.
use socks.Base.{
  ℕ, ◌≤◌, ◌≡◌, ◌↔◌, ◌⊎◌, false, List, ◌∷◌, arith, some, get_or, Option-cases, inl, inr,
}
use socks.Error.{ErrorCode, no_error, failed, make_error_code}
use socks.Codes.{ip_v4, to_address_type}
use socks.Endpoint.{AuthOptions, code}
use socks.Replies.{
  validate_userpass_reply, validate_server_choice, validate_server_choice_code, read_reply_cond,
}

-- With two bytes in the buffer the check of the server's choice returns. The error code that it leaves
-- of a read without an error is no failure exactly if two bytes were read, the version is 5 and the
-- method is "no authentication" or the one of the options.
pub validate_server_choice_iff :
    (n b c : ℕ) (rest : List ℕ) (opt : AuthOptions)
    → (ec' : ErrorCode) × (validate_server_choice n opt no_error (b ∷ c ∷ rest) ≡ some ec')
      × ((failed ec' ≡ false) ↔ ((2 ≤ n) × (b ≡ 5) × ((c ≡ 0) ⊎ (c ≡ code opt))))
unfolding validate_server_choice validate_server_choice_code failed make_error_code
validate_server_choice_iff n b c rest opt =
    elim (Option-cases (validate_server_choice n opt no_error (b ∷ c ∷ rest))) [
      | inl e ↦ absurd (ground arith)
      | inr (ec', e) ↦ (ec', e, ground arith)
    ]

-- With two bytes in the buffer the check of the status returns. The error code that it leaves is no
-- failure exactly if two bytes were read without an error, the version is 1 and the status 0.
pub validate_userpass_reply_iff :
    (n b s : ℕ) (rest : List ℕ) (ec : ErrorCode)
    → (ec' : ErrorCode) × (validate_userpass_reply n ec (b ∷ s ∷ rest) ≡ some ec')
      × ((failed ec' ≡ false) ↔ ((n ≡ 2) × (b ≡ 1) × (s ≡ 0) × (failed ec ≡ false)))
unfolding validate_userpass_reply failed make_error_code
validate_userpass_reply_iff n b s rest ec =
    elim (Option-cases (validate_userpass_reply n ec (b ∷ s ∷ rest))) [
      | inl e ↦ absurd (ground arith)
      | inr (ec', e) ↦ (ec', e, ground arith)
    ]

-- Without an error and with at most 22 bytes read, the condition ends the read exactly if 22 bytes are
-- there, or ten of which the fourth is the type of an IPv4 address.
pub read_reply_cond_iff :
    (buf : List ℕ) (n : ℕ)
    → n ≤ 22
    → (read_reply_cond buf no_error n ≡ 0)
      ↔ ((n ≡ 22) ⊎ ((n ≡ 10) × (to_address_type (get_or buf 3 0) ≡ ip_v4)))
unfolding read_reply_cond failed
read_reply_cond_iff buf n h = ground arith
