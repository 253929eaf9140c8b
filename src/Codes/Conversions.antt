-- ===== src/Codes/Conversions.antt =====
-- include/boost/socks/detail/impl/: the conversions of reply bytes, and their codes cast to `error`.
use socks.Base.{ℕ, ◌<◌, ◌≡◌, ◌≢◌, ◌↔◌, arith, ◌==◌, ◌%◌, if◌then◌else◌, leb, ◌&&◌}
use socks.Codes.{
  AddressType, ReplyCode, ReplyCodeV4, unknown, address_type_byte, reply_code_byte,
  reply_code_v4_byte, to_address_type, to_reply_code, to_reply_code_v4,
}
use socks.Error.{default_error_condition, Condition, of_condition, reply_error}

-- What a byte is turned into, by arithmetic alone.
abbrev pub reply_value : ℕ → ℕ
reply_value b = if leb b 8 then b else 0xFF

abbrev pub reply_value_v4 : ℕ → ℕ
reply_value_v4 b = if leb 90 b && leb b 93 then b else 0xFF

-- The SOCKS5 reply code of a byte has the byte's own value up to 8, and 0xFF above.
pub reply_code_byte-to_reply_code :
    (b : ℕ) → b < 256 → reply_code_byte (to_reply_code b) ≡ reply_value b
unfolding to_reply_code
reply_code_byte-to_reply_code b h = ground arith

pub reply_code_v4_byte-to_reply_code_v4 :
    (b : ℕ) → b < 256 → reply_code_v4_byte (to_reply_code_v4 b) ≡ reply_value_v4 b
unfolding to_reply_code_v4
reply_code_v4_byte-to_reply_code_v4 b h = ground arith

-- A byte is turned into a known address type exactly if it is the byte of that type.
pub to_address_type_iff :
    (b : ℕ) (t : AddressType)
    → b < 256
    → t ≢ unknown
    → (to_address_type b ≡ t) ↔ (b ≡ address_type_byte t)
unfolding to_address_type
to_address_type_iff b t h k = ground arith

pub to_reply_code-reply_code_byte : (r : ReplyCode) → to_reply_code (reply_code_byte r) ≡ r
unfolding to_reply_code
to_reply_code-reply_code_byte r = ground arith

pub to_reply_code_v4-reply_code_v4_byte :
    (r : ReplyCodeV4) → to_reply_code_v4 (reply_code_v4_byte r) ≡ r
unfolding to_reply_code_v4
to_reply_code_v4-reply_code_v4_byte r = ground arith

-- The `error` that a SOCKS5 reply code is cast to has the condition `succeeded` if the lowest byte is 0, and
-- `reply_error` otherwise.
pub reply_code_condition :
    (b : ℕ)
    → default_error_condition (reply_code_byte (to_reply_code b))
      ≡ (if b % 256 == 0 then of_condition Condition.succeeded else of_condition reply_error)
unfolding to_reply_code default_error_condition
reply_code_condition b = ground arith
