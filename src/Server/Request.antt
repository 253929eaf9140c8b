-- ===== src/Server/Request.antt =====
-- example/server/async/socks_server_async.cpp: the requests, over SOCKS5 and SOCKS4, with the condition
-- that ends the read, and the connection to the target. Where a request is refused the reply needs
-- the local endpoint of the target socket, as in Server/Reply.antt.
use socks.Base.{
  ℕ, ◌+◌, ◌-◌, ◌&&◌, ◌||◌, Option, some, List, length, leb, ltb, ◌==◌, ◌!=◌, if◌then◌else◌,
}
use socks.Base.Access.{◌>>=◌, read_at, read_each}
use socks.Error.{ErrorCode, failed}
use socks.Endpoint.{v4, v6, Endpoint}
use socks.Replies.{shift_in}
use socks.Server.{Connection, Action, resolve, connect_target, connect_target_v4, stop, resize}
use socks.Server.Greeting.{parse_socks_greeting, parse_userpass_greeting}
use socks.Server.Reply.{do_connect_reply, do_connect_reply_v4}

-- The condition of the read in `do_read_connect_request`, in a buffer of 263 bytes.
unfoldable pub request_cond : List ℕ → ErrorCode → ℕ → Option ℕ
request_cond buf ec n = do
  b0 ← read_at buf 0
  b1 ← read_at buf 1
  b2 ← read_at buf 2
  b3 ← read_at buf 3
  b4 ← read_at buf 4
  let req_n =
      if b3 == 0x01
      then 10
      else if b3 == 0x03
      then 7 + (if ltb 4 n then b4 else 256)
      else if b3 == 0x04
      then 22
      else 0
  some (
      if failed ec || (leb 1 n && b0 != 0x05) || (leb 2 n && b1 != 0x01) || (leb 3 n && b2 != 0x00)
      then 0
      else if ltb n 4
      then 263 - n
      else if ltb n req_n
      then req_n - n
      else 0)

unfoldable pub do_target_connect : Connection → Connection × Action
do_target_connect c = (c, connect_target c.target)

unfoldable pub do_target_connect_v4 : Connection → Connection × Action
do_target_connect_v4 c = (c, connect_target_v4 c.target)

-- The part of `parse_socks_connect` for each address type.
unfoldable pub parse_ipv4 : Option Endpoint → Connection → Option (Connection × Action)
parse_ipv4 local_endpoint c =
    if length c.buffer != 10 then do_connect_reply local_endpoint 0x08 c else do
      b4 ← read_at c.buffer 4
      b5 ← read_at c.buffer 5
      b6 ← read_at c.buffer 6
      b7 ← read_at c.buffer 7
      b8 ← read_at c.buffer 8
      b9 ← read_at c.buffer 9
      some (
          do_target_connect
            (record c { target = record { address = v4 b4 b5 b6 b7; port = shift_in 16 b8 b9 } }))

unfoldable pub parse_ipv6 : Option Endpoint → Connection → Option (Connection × Action)
parse_ipv6 local_endpoint c =
    if length c.buffer != 22 then do_connect_reply local_endpoint 0x08 c else do
      addr ← read_each c.buffer 4 16
      b20 ← read_at c.buffer 20
      b21 ← read_at c.buffer 21
      some (
          do_target_connect
            (record c { target = record { address = v6 addr; port = shift_in 16 b20 b21 } }))

unfoldable pub parse_domain : Option Endpoint → Connection → Option (Connection × Action)
parse_domain local_endpoint c = do
  n ← read_at c.buffer 4
  if length c.buffer != 7 + n then do_connect_reply local_endpoint 0x08 c else do
    name ← read_each c.buffer 5 n
    h ← read_at c.buffer (length c.buffer - 2)
    l ← read_at c.buffer (length c.buffer - 1)
    some (c, resolve name (shift_in 16 h l))

unfoldable pub parse_socks_connect : Option Endpoint → Connection → Option (Connection × Action)
unfolding parse_ipv4 parse_ipv6 parse_domain
parse_socks_connect local_endpoint c =
    let size = length c.buffer in
    if size == 0 then some (c, stop) else do
      ver ← read_at c.buffer 0
      if ver != 0x05 || size == 1 then do_connect_reply local_endpoint 0x02 c else do
        cmd ← read_at c.buffer 1
        if cmd != 0x01
            then do_connect_reply local_endpoint 0x07 c
            else if size == 2
            then do_connect_reply local_endpoint 0x02 c
            else do
              rsv ← read_at c.buffer 2
              if rsv != 0x00 || size == 3 then do_connect_reply local_endpoint 0x02 c else do
                atyp ← read_at c.buffer 3
                if atyp == 0x01
                    then parse_ipv4 local_endpoint c
                    else if atyp == 0x04
                    then parse_ipv6 local_endpoint c
                    else if atyp == 0x03
                    then parse_domain local_endpoint c
                    else do_connect_reply local_endpoint 0x08 c

-- The completion of `async_resolve`, with the first endpoint found.
unfoldable pub on_resolved :
    Option Endpoint → ErrorCode → Endpoint → Connection → Option (Connection × Action)
on_resolved local_endpoint ec found c =
    if failed ec
    then do_connect_reply local_endpoint 0x04 c
    else some (do_target_connect (record c { target = found }))

-- The completion of `async_connect` in `do_target_connect`.
unfoldable pub on_target : Option Endpoint → ErrorCode → Connection → Option (Connection × Action)
on_target local_endpoint ec c = do_connect_reply local_endpoint (if failed ec then 0x04 else 0x00) c

unfoldable pub parse_socks_connect_v4 : Option Endpoint → Connection → Option (Connection × Action)
parse_socks_connect_v4 local_endpoint c =
    let size = length c.buffer in
    if size == 0 then some (c, stop) else do
      ver ← read_at c.buffer 0
      if ver != 0x04 || size == 1 then do_connect_reply_v4 local_endpoint 91 c else do
        cmd ← read_at c.buffer 1
        if cmd != 0x01 || ltb size 8 then do_connect_reply_v4 local_endpoint 91 c else do
          b2 ← read_at c.buffer 2
          b3 ← read_at c.buffer 3
          b4 ← read_at c.buffer 4
          b5 ← read_at c.buffer 5
          b6 ← read_at c.buffer 6
          b7 ← read_at c.buffer 7
          let ep : Endpoint = record { address = v4 b4 b5 b6 b7; port = shift_in 16 b2 b3 }
          some (do_target_connect_v4 (record c { target = ep }))

-- The completion of `async_connect` in `do_target_connect_v4`.
unfoldable pub on_target_v4 :
    Option Endpoint → ErrorCode → Connection → Option (Connection × Action)
on_target_v4 local_endpoint ec c =
    do_connect_reply_v4 local_endpoint (if failed ec then 91 else 90) c

-- The completion of the first read: `n` bytes are in the buffer.
unfoldable pub on_greeting :
    Option Endpoint → ErrorCode → ℕ → Connection → Option (Connection × Action)
on_greeting local_endpoint ec n c =
    let c' = record c { buffer = resize n c.buffer } in
    if failed ec then some (c, stop) else do
      ver ← read_at c'.buffer 0
      if ver == 0x05
          then parse_socks_greeting c'
          else if ver == 0x04
          then parse_socks_connect_v4 local_endpoint c'
          else some (c', stop)

-- The completion of the read in `do_userpass_greet`.
unfoldable pub on_userpass : ErrorCode → ℕ → Connection → Option (Connection × Action)
on_userpass ec n c =
    if failed ec
    then some (c, stop)
    else parse_userpass_greeting (record c { buffer = resize n c.buffer })

-- The completion of the read in `do_read_connect_request`.
unfoldable pub on_request :
    Option Endpoint → ErrorCode → ℕ → Connection → Option (Connection × Action)
on_request local_endpoint ec n c =
    if failed ec
    then some (c, stop)
    else parse_socks_connect local_endpoint (record c { buffer = resize n c.buffer })
