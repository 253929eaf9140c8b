-- ===== src/V4/Request.antt =====
-- include/boost/socks/impl/connect_v4.ipp: `prepare_request_v4`, which writes the SOCKS4 request.
pub mod Layout
use socks.Base.{ℕ, ◌+◌, ◌/◌, ◌%◌, ◌^◌, false, List, length, leb, bit_and}
use socks.Base.Memory.{Mem, pure, ◌>>=◌, ◌>>◌, assert, write_at, write_each}
use socks.Codes.{version_byte, socks_4, command_byte, connect}
use socks.Endpoint.{Address, v4, v6, Endpoint}

-- DSTIP. `to_v4()` throws `bad_address_cast` for an IPv6 address, which is `none` here.
unfoldable pub write_ip : Address → Mem (Unit {0})
write_ip (v4 a b c d) = do write_at 4 a; write_at 5 b; write_at 6 c; write_at 7 d
write_ip (v6 bytes) = assert false

unfoldable pub prepare_request_v4 : ℕ → Endpoint → List ℕ → Mem ℕ
prepare_request_v4 n target_host socks_user = do
  assert (leb (9 + length socks_user) n)
  write_at 0 (version_byte socks_4)
  write_at 1 (command_byte connect)
  let target_port = target_host.port
  write_at 2 (target_port / 2 ^ 8 % 256)
  write_at 3 (bit_and target_port 0xFF)
  write_ip target_host.address
  _ ← write_each 8 0 socks_user
  write_at (8 + length socks_user) 0x00
  pure (9 + length socks_user)
