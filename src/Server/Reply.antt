-- ===== src/Server/Reply.antt =====
-- example/server/async/socks_server_async.cpp: the replies to a request, over SOCKS5 and SOCKS4. The
-- local endpoint of the target socket is an argument; `none` is that `local_endpoint()` throws.
use socks.Base.{
  ℕ, ◌/◌, ◌^◌, ◌&&◌, ◌||◌, Option, some, List, [], ◌∷◌, ◌++◌, ◌==◌, ◌!=◌, bit_and, if◌then◌else◌,
}
use socks.Base.Access.{◌>>=◌, read_at}
use socks.Error.{ErrorCode, failed}
use socks.Endpoint.{Address, v4, v6, Endpoint}
use socks.Server.{Connection, Action, write_reply, write_reply_v4, relay, close, stop}

port_part : ℕ → List ℕ
port_part p = bit_and (p / 2 ^ 8) 0xFF ∷ bit_and p 0xFF ∷ []

-- The buffer with `rep` 0x00: each byte of it is assigned.
unfoldable pub granted_bytes : Address → ℕ → List ℕ
unfolding port_part
granted_bytes (v4 a b c d) p = 0x05 ∷ 0x00 ∷ 0x00 ∷ 0x01 ∷ a ∷ b ∷ c ∷ d ∷ port_part p
granted_bytes (v6 bytes) p = 0x05 ∷ 0x00 ∷ 0x00 ∷ 0x04 ∷ (bytes ++ port_part p)

unfoldable pub do_connect_reply : Option Endpoint → ℕ → Connection → Option (Connection × Action)
unfolding granted_bytes
do_connect_reply local_endpoint rep c = do
  bnd_ep ← local_endpoint
  let buf =
      if rep != 0x00
      then 0x05 ∷ rep ∷ 0x00 ∷ 0x01 ∷ 0x00 ∷ 0x00 ∷ 0x00 ∷ 0x00 ∷ 0x00 ∷ 0x00 ∷ []
      else granted_bytes bnd_ep.address bnd_ep.port
  some (record c { buffer = buf }, write_reply buf)

-- The completion of the write in `do_connect_reply`.
unfoldable pub on_reply_written : ErrorCode → Connection → Option (Connection × Action)
on_reply_written ec c =
    if failed ec
    then some (c, stop)
    else do rep ← read_at c.buffer 1; some (c, if rep == 0x00 then relay else close)

-- The last four bytes of the buffer.
ip_part : Address → List ℕ
ip_part (v4 a b c d) = a ∷ b ∷ c ∷ d ∷ []
ip_part (v6 bytes) = 0x00 ∷ 0x00 ∷ 0x00 ∷ 0x00 ∷ []

unfoldable pub do_connect_reply_v4 : Option Endpoint → ℕ → Connection → Option (Connection × Action)
unfolding port_part ip_part
do_connect_reply_v4 local_endpoint rep c = do
  bnd_ep ← local_endpoint
  let buf =
      0x04
      ∷ rep
      ∷ (if rep != 90
          then 0x00 ∷ 0x00 ∷ 0x00 ∷ 0x00 ∷ 0x00 ∷ 0x00 ∷ []
          else port_part bnd_ep.port ++ ip_part bnd_ep.address)
  some (record c { buffer = buf }, write_reply_v4 buf)

-- The completion of the write in `do_connect_reply_v4`.
unfoldable pub on_reply_v4_written : ErrorCode → Connection → Option (Connection × Action)
on_reply_v4_written ec c = if failed ec then some (c, stop) else do
  v ← read_at c.buffer 0
  rep ← read_at c.buffer 1
  some (c, if (v == 0x05 && rep == 0x00) || (v == 0x04 && rep == 90) then relay else close)
