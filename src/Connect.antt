-- ===== src/Connect.antt =====
-- include/boost/socks/impl/connect.hpp: the synchronous `connect` through a SOCKS5 server. The array
-- `buffer[513]` is uninitialised, so its first contents are an argument.
pub mod Session
pub mod Correct
pub mod Overrun
use socks.Base.{
  ℕ, ◌≡◌, Bool, true, false, not, ◌&&◌, ◌||◌, Option, none, some, List, length, take, ltb, ◌==◌,
  ◌!=◌, if◌then◌else◌,
}
use socks.Base.Memory.{overlay}
use socks.Base.Access.{◌>>=◌, ◌>>◌, assert, read_at}
use socks.Error.{ErrorCode, no_error, failed, is_eof, make_error_code, bad_reply_size}
use socks.Codes.{auth_method_byte, AuthMethod}
use socks.Endpoint.{
  Address, Endpoint, no_endpoint, DomainEndpoint, Target, host, named, AuthOptions,
}
use socks.Requests.{prepare_greeting, prepare_userpass_request, prepare_request}
use socks.Replies.{validate_userpass_reply, validate_server_choice, read_reply_cond, parse_reply_v5}
use socks.Stream.{SyncStream}

-- The stream, the buffer and the `error_code&` that the functions share.
pub record Io (State : Type 0) : Type 0 where
  pub stream : State
  pub buffer : List ℕ
  pub ec : ErrorCode

module _ (S : SyncStream) where
  open S use {State, write, read, read_cond}

  -- `asio::write(stream, asio::buffer(buffer, n), ec)`
  abbrev pub send : ℕ → Io State → Io State
  send n io = let (s, e) = write io.stream (take n io.buffer) in record io { stream = s; ec = e }

  -- `asio::read(stream, asio::buffer(buffer, k), ec)`, with the number of bytes read
  abbrev pub receive : ℕ → Io State → Io State × ℕ
  receive k io =
      let (s, bytes, e) = read io.stream k in
      (record io { stream = s; buffer = overlay bytes io.buffer; ec = e }, length bytes)

  -- `asio::read(stream, asio::buffer(buffer, 22), read_reply_cond{buffer}, ec)`
  abbrev pub receive_reply : Io State → Io State × ℕ
  receive_reply io =
      let (s, bytes, e) =
        read_cond io.stream 22 (λ got e. read_reply_cond (overlay got io.buffer) e (length got)) in
      (record io { stream = s; buffer = overlay bytes io.buffer; ec = e }, length bytes)

  -- The user/pass part of `authenticate`.
  unfoldable pub authenticate_userpass : ℕ → AuthOptions → Io State → Option (Io State × ℕ)
  authenticate_userpass n opt io = do
    (n2, buf) ← prepare_userpass_request n opt io.buffer
    let sent = send n2 (record io { buffer = buf })
    if failed sent.ec then some (sent, 0) else do
      let (got, rn) = receive 2 sent
      ec ←
          (if not (failed got.ec) || is_eof got.ec
            then validate_userpass_reply rn got.ec got.buffer
            else some got.ec)
      choice ← read_at got.buffer 1
      some (record got { ec = ec }, choice)

  unfoldable pub authenticate : ℕ → AuthOptions → Io State → Option (Io State × ℕ)
  authenticate n opt io = do
    (gn, buf) ← prepare_greeting n opt io.buffer
    assert (ltb 2 gn)
    let sent = send gn (record io { buffer = buf })
    if failed sent.ec then some (sent, 0) else do
      let (got, rn) = receive 2 sent
      ec ←
          (if not (failed got.ec) || is_eof got.ec
            then validate_server_choice rn opt got.ec got.buffer
            else some got.ec)
      choice ← read_at got.buffer 1
      if failed ec
          then some (record got { ec = ec }, choice)
          else (if choice == auth_method_byte AuthMethod.userpass
              then authenticate_userpass n opt (record got { ec = ec })
              else some (record got { ec = ec }, choice))

  unfoldable pub write_connect_request : ℕ → Target → Io State → Option (Io State × ℕ)
  write_connect_request n target_host io = do
    (n', buf) ← prepare_request n target_host io.buffer
    some (send n' (record io { buffer = buf }), n')

  unfoldable pub read_connect_reply : (ℕ → Address) → ℕ → Io State → Option (Io State × Endpoint)
  read_connect_reply make_address_v4 n io =
      let (got, rn) = receive_reply io in
      if failed got.ec && not (is_eof got.ec)
      then some (got, no_endpoint)
      else if rn != 10 && rn != 22
      then some (record got { ec = make_error_code bad_reply_size }, no_endpoint)
      else do
        (ep, ec) ← parse_reply_v5 make_address_v4 rn got.buffer
        some (record got { ec = ec }, ep)

  -- `connect` to an endpoint
  unfoldable pub connect_host :
      (ℕ → Address)
      → List ℕ
      → State
      → Endpoint
      → AuthOptions
      → ErrorCode
      → Option (State × Endpoint × ErrorCode)
  connect_host make_address_v4 buffer stream target_host opt ec = do
    (authed, _) ← authenticate 513 opt (record { stream = stream; buffer = buffer; ec = ec })
    if failed authed.ec then some (authed.stream, no_endpoint, authed.ec) else do
      (sent, _) ← write_connect_request 513 (host target_host) authed
      if failed sent.ec then some (sent.stream, no_endpoint, sent.ec) else do
        (got, ep) ← read_connect_reply make_address_v4 513 sent
        some (got.stream, ep, got.ec)

  -- `connect` to a domain name and a port
  unfoldable pub connect_domain :
      (ℕ → Address)
      → List ℕ
      → State
      → List ℕ
      → ℕ
      → AuthOptions
      → ErrorCode
      → Option (State × Endpoint × ErrorCode)
  connect_domain make_address_v4 buffer stream target_host target_port opt ec = do
    (authed, _) ← authenticate 513 opt (record { stream = stream; buffer = buffer; ec = ec })
    if failed authed.ec then some (authed.stream, no_endpoint, authed.ec) else do
      let target : DomainEndpoint = record { domain = target_host; port = target_port }
      (sent, _) ← write_connect_request 513 (named target) authed
      if failed sent.ec then some (sent.stream, no_endpoint, sent.ec) else do
        (got, ep) ← read_connect_reply make_address_v4 513 sent
        if failed got.ec
            then some (got.stream, no_endpoint, got.ec)
            else some (got.stream, ep, got.ec)
