-- ===== src/V4/Reply.antt =====
-- include/boost/socks/impl/connect_v4.ipp: `parse_reply_v4`, which reads the SOCKS4 reply.
pub mod Granted
use socks.Base.{ℕ, Bool, not, ◌&&◌, Option, some, List, ◌==◌, ◌!=◌, if◌then◌else◌}
use socks.Base.Access.{◌>>=◌, ◌>>◌, assert, read_at}
use socks.Error.{ErrorCode, socks_code, make_error_code, equals_succeeded, bad_reply_version}
use socks.Codes.{reply_code_v4_byte, to_reply_code_v4}
use socks.Endpoint.{Address, Endpoint, no_endpoint}
use socks.Replies.{shift_in}

-- The address is read from the bytes 3 to 6, as the source has it.
unfoldable pub parse_reply_v4 : (ℕ → Address) → ℕ → List ℕ → Option (Endpoint × ErrorCode)
parse_reply_v4 make_address_v4 n buf = do
  assert (n == 8)
  ver ← read_at buf 0
  if ver != 0x00 && ver != 0x04 then some (no_endpoint, make_error_code bad_reply_version) else do
    rep ← read_at buf 1
    let ec = socks_code (reply_code_v4_byte (to_reply_code_v4 rep))
    if not (equals_succeeded ec) then some (no_endpoint, ec) else do
      b2 ← read_at buf 2
      b3 ← read_at buf 3
      let port = shift_in 16 b2 b3
      b4 ← read_at buf 4
      b5 ← read_at buf 5
      b6 ← read_at buf 6
      let ip = shift_in 32 (shift_in 32 (shift_in 32 b3 b4) b5) b6
      some (record { address = make_address_v4 ip; port = port }, ec)
