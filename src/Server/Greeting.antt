-- ===== src/Server/Greeting.antt =====
-- example/server/async/socks_server_async.cpp: the greeting, the choice of a method, and the
-- credentials, with the conditions that end their reads.
use socks.Base.{
  ℕ, ◌+◌, ◌-◌, ◌%◌, ◌^◌, Bool, false, ◌&&◌, ◌||◌, Option, some, List, [], ◌∷◌, length, take, drop,
  leb, ltb, ◌==◌, ◌!=◌, if◌then◌else◌,
}
use socks.Base.Access.{◌>>=◌, read_at}
use socks.Error.{ErrorCode, failed}
use socks.Server.{
  Connection, Action, write_choice, write_status, read_userpass, read_request, stop, resize,
}

-- A loop that looks for a byte.
abbrev pub has : ℕ → List ℕ → Bool
has v [] = false
has v (b ∷ bs) = b == v || has v bs

-- The condition of the first read, in a buffer of 258 bytes.
unfoldable pub greeting_cond : List ℕ → ErrorCode → ℕ → Option ℕ
greeting_cond buf ec n = do
  b0 ← read_at buf 0
  b1 ← read_at buf 1
  some (
      if failed ec || (ltb 0 n && b0 != 0x05 && b0 != 0x04)
      then 0
      else if b0 == 0x04
      then (if leb 1 n && b1 != 0x01
          then 0
          else if leb 9 n && has 0x00 (take (n - 8) (drop 8 buf))
          then 0
          else (2 ^ 64 + length buf - n) % 2 ^ 64)
      else if leb 2 n
      then (if ltb n (2 + b1) then 2 + b1 - n else 0)
      else 258 - n)

unfoldable pub do_server_choice : Connection → Connection × Action
do_server_choice c =
    let buf = 0x05 ∷ c.server_choice ∷ [] in (record c { buffer = buf }, write_choice buf)

unfoldable pub parse_socks_greeting : Connection → Option (Connection × Action)
parse_socks_greeting c = if length c.buffer == 0 then some (c, stop) else do
  ver ← read_at c.buffer 0
  if ver != 0x05 || length c.buffer == 1 then some (c, stop) else do
    n ← read_at c.buffer 1
    let methods = drop 2 c.buffer
    if n != length c.buffer - 2
        then some (c, stop)
        else if has 0x02 methods
        then some (do_server_choice (record c { server_choice = 0x02 }))
        else if has 0x00 methods
        then some (do_server_choice (record c { server_choice = 0x00 }))
        else some (do_server_choice (record c { server_choice = 0xFF }))

unfoldable pub do_read_connect_request : Connection → Connection × Action
do_read_connect_request c = (record c { buffer = resize 263 c.buffer }, read_request 263)

unfoldable pub do_userpass_greet : Connection → Connection × Action
do_userpass_greet c = (record c { buffer = resize 513 c.buffer }, read_userpass 513)

-- The completion of the write in `do_server_choice`.
unfoldable pub on_choice_written : ErrorCode → Connection → Connection × Action
on_choice_written ec c =
    if failed ec
    then (c, stop)
    else if c.server_choice == 0xFF
    then (c, stop)
    else if c.server_choice == 0x02
    then do_userpass_greet c
    else do_read_connect_request c

-- The condition of the read in `do_userpass_greet`, in a buffer of 513 bytes. It never subtracts what
-- was read.
unfoldable pub userpass_cond : List ℕ → ErrorCode → ℕ → Option ℕ
userpass_cond buf ec n = if failed ec then some 0 else do
  b0 ← read_at buf 0
  if leb 1 n && b0 != 0x01 then some 0 else do
    idlen ← read_at buf 1
    pwlen ← (if ltb (2 + idlen) n then read_at buf (2 + idlen) else some 256)
    if ltb n 2 then some 513 else some (3 + idlen + pwlen)

unfoldable pub parse_userpass_greeting : Connection → Option (Connection × Action)
parse_userpass_greeting c =
    let size = length c.buffer in
    if size == 0 then some (c, stop) else do
      ver ← read_at c.buffer 0
      if ver != 0x01 || size == 1 then some (c, stop) else do
        idlen ← read_at c.buffer 1
        if ltb size (idlen + 2) || ltb size (idlen + 3) then some (c, stop) else do
          passlen ← read_at c.buffer (2 + idlen)
          if ltb size (idlen + 3 + passlen) then some (c, stop) else do
            let status = 0x01 ∷ 0x00 ∷ []
            some (record c { buffer = status }, write_status status)

-- The completion of the write in `parse_userpass_greeting`.
unfoldable pub on_status_written : ErrorCode → Connection → Connection × Action
on_status_written ec c = if failed ec then (c, stop) else do_read_connect_request c
