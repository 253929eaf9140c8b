-- ===== src/Replies.antt =====
-- include/boost/socks/impl/connect.ipp and impl/connect.hpp: the functions that read the server's
-- SOCKS5 replies from the buffer. `make_address_v4`, of Asio, is a parameter.
pub mod Accept
pub mod Reject
pub mod Checks
pub mod Frame
use socks.Base.{
  ℕ, ◌+◌, ◌-◌, ◌*◌, ◌%◌, ◌^◌, ◌<◌, ◌≡◌, Option, some, Bool, true, false, not, ◌&&◌, ◌||◌, List,
  get_or, leb, ltb, ◌==◌, ◌!=◌, bit_or, if◌then◌else◌,
}
use socks.Base.Access.{◌>>=◌, ◌>>◌, assert, read_at, read_each}
use socks.Error.{
  ErrorCode, socks_code, make_error_code, failed, equals_succeeded, bad_reply_size,
  bad_reply_version, bad_server_choice, bad_address_type, access_denied,
}
use socks.Codes.{AddressType, ip_v4, ip_v6, to_address_type, reply_code_byte, to_reply_code}
use socks.Endpoint.{Address, v4, v6, Endpoint, no_endpoint, AuthOptions, code}

unfoldable pub validate_userpass_reply : ℕ → ErrorCode → List ℕ → Option ErrorCode
validate_userpass_reply n ec buf = if n != 2 then some (make_error_code bad_reply_size) else do
  b ← read_at buf 0
  if b != 0x01
      then some (make_error_code bad_reply_version)
      else do s ← read_at buf 1; if s != 0x00 then some (make_error_code access_denied) else some ec

-- `validate_server_choice` over the code
unfoldable pub validate_server_choice_code : ℕ → ℕ → ErrorCode → List ℕ → Option ErrorCode
validate_server_choice_code n method ec buf =
    if ltb n 2 then some (make_error_code bad_reply_size) else do
      b ← read_at buf 0
      if b != 0x05 then some (make_error_code bad_reply_version) else do
        c ← read_at buf 1
        if c != method && c != 0x00 then some (make_error_code bad_server_choice) else some ec

-- `validate_server_choice` over the options
unfoldable pub validate_server_choice : ℕ → AuthOptions → ErrorCode → List ℕ → Option ErrorCode
validate_server_choice n opt ec buf = validate_server_choice_code n (code opt) ec buf

abbrev is_ip_v4 : AddressType → Bool
is_ip_v4 ip_v4 = true
is_ip_v4 _ = false

-- `struct read_reply_cond`: how many bytes the next `read_some` may bring. The count wraps at 64 bits.
unfoldable pub read_reply_cond : List ℕ → ErrorCode → ℕ → ℕ
read_reply_cond buf ec n =
    if (n == 10 && is_ip_v4 (to_address_type (get_or buf 3 0))) || failed ec
    then 0
    else (2 ^ 64 + 22 - n) % 2 ^ 64

-- `make_address_v4` of a number in host order.
abbrev pub MakesV4 : (ℕ → Address) → Type 0
MakesV4 make_address_v4 =
    (a b c d : ℕ)
    → a < 256
    → b < 256
    → c < 256
    → d < 256
    → make_address_v4 (((a * 256 + b) * 256 + c) * 256 + d) ≡ v4 a b c d

-- `x = (x << 8) | b` on a word of `w` bits
abbrev pub shift_in : ℕ → ℕ → ℕ → ℕ
shift_in w x b = bit_or (x * 2 ^ 8 % 2 ^ w) b

module _ (make_address_v4 : ℕ → Address) where
  -- The cases of the `switch` on the address type.
  reply_endpoint : ℕ → ErrorCode → AddressType → List ℕ → Option (Endpoint × ErrorCode)
  reply_endpoint n ec ip_v4 buf =
      if n != 10 then some (no_endpoint, make_error_code bad_reply_size) else do
        b4 ← read_at buf 4
        b5 ← read_at buf 5
        b6 ← read_at buf 6
        b7 ← read_at buf 7
        let ip = shift_in 32 (shift_in 32 (shift_in 32 b4 b5) b6) b7
        b8 ← read_at buf 8
        b9 ← read_at buf 9
        some (record { address = make_address_v4 ip; port = shift_in 16 b8 b9 }, ec)
  reply_endpoint n ec ip_v6 buf =
      if n != 22 then some (no_endpoint, make_error_code bad_reply_size) else do
        ip ← read_each buf 4 16
        b20 ← read_at buf 20
        b21 ← read_at buf 21
        some (record { address = v6 ip; port = shift_in 16 b20 b21 }, ec)
  reply_endpoint n ec _ buf = some (no_endpoint, make_error_code bad_address_type)

  unfoldable pub parse_reply_v5 : ℕ → List ℕ → Option (Endpoint × ErrorCode)
  unfolding reply_endpoint
  parse_reply_v5 n buf = do
    assert (n == 10 || n == 22)
    ver ← read_at buf 0
    if ver != 0x05 then some (no_endpoint, make_error_code bad_reply_version) else do
      rep ← read_at buf 1
      let ec = socks_code (reply_code_byte (to_reply_code rep))
      if not (equals_succeeded ec)
          then some (no_endpoint, ec)
          else do atyp ← read_at buf 3; reply_endpoint n ec (to_address_type atyp) buf
