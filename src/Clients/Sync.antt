-- ===== src/Clients/Sync.antt =====
-- example/client/sync/socks_client_sync.cpp: the synchronous client.
use socks.Base.{
  ℕ, Bool, true, false, not, ◌&&◌, ◌||◌, Option, none, some, ◌⊎◌, inl, inr, List, [], ◌∷◌, ◌==◌,
  if◌then◌else◌,
}
use socks.Base.Access.{◌>>=◌}
use socks.Error.{ErrorCode, no_error, failed}
use socks.Endpoint.{Address, is_v6, Endpoint, no_endpoint, no_auth, with_userpass}
use socks.Connect.{connect_host, connect_domain}
use socks.V4.Connect.{connect_v4}
use socks.Clients.{
  Url, Urls, Network, is_name, is_ipv4, is_ipv6, default_port, get_endpoint_unchecked, version_of,
}

-- How `socks_request` ends: the report that it prints, with its code.
pub data Outcome : Type 0 where
  done : Outcome
  parse_target parse_socks resolve_failed connect_failed socks_connect : ErrorCode → Outcome
  write_failed read_failed shutdown_failed : ErrorCode → Outcome
  invalid_scheme no_ipv6 unsupported_host : Outcome

-- What `socks_request` returns: `fail` returns false.
abbrev pub returns : Outcome → Bool
returns done = true
returns _ = false

-- The address of `make_address_v4`, and what the array `buffer[513]` holds at first.
module _ (urls : Urls) (net : Network) (make_address_v4 : ℕ → Address) (buffer : List ℕ) where
  open net use {stream, resolve, connect, http_write, http_read, shutdown, host_not_found}

  -- The loop of `resolve_and_connect_v4`.
  unfoldable pub try_each :
      stream.State
      → List Endpoint
      → ℕ
      → List ℕ
      → ErrorCode
      → Option (stream.State × Endpoint × ErrorCode)
  try_each s [] target_port socks_user ec = some (s, no_endpoint, ec)
  try_each s (ep ∷ eps) target_port socks_user ec =
      if is_v6 ep.address
      then try_each s eps target_port socks_user (if not (failed ec) then host_not_found else ec)
      else do
        (s', bnd, ec') ←
            connect_v4 stream make_address_v4 s (record ep { port = target_port }) socks_user
        if failed ec' then try_each s' eps target_port socks_user ec' else some (s', bnd, ec')

  unfoldable pub resolve_and_connect_v4 :
      stream.State → List ℕ → ℕ → List ℕ → Option (stream.State × Endpoint × ErrorCode)
  unfolding try_each
  resolve_and_connect_v4 s target_host target_port socks_user =
      let (s1, eps, ec) = resolve s target_host target_port in
      if failed ec then some (s1, no_endpoint, ec) else try_each s1 eps target_port socks_user ec

  -- The part of `socks_request` that connects to the SOCKS server: an early `fail`, or the socket and the code.
  unfoldable pub connect_server : stream.State → Url → Option (stream.State × (Outcome ⊎ ErrorCode))
  connect_server s socks =
      if is_name socks.host_type
      then (let (s1, eps, ec) = resolve s socks.encoded_host (default_port socks) in
          let (s2, ec') = connect s1 eps in
          some (if failed ec then (s1, inl (resolve_failed ec)) else (s2, inr ec')))
      else if is_ipv4 socks.host_type || is_ipv6 socks.host_type
      then (do
        ep ← get_endpoint_unchecked urls socks
        let (s1, ec) = connect s (ep ∷ [])
        some (s1, inr ec))
      else some (s, inl unsupported_host)

  -- The part that sends the CONNECT request; the code is `no_error` before it.
  unfoldable pub send_connect : stream.State → ℕ → Url → Url → Option (stream.State × ErrorCode)
  send_connect s socks_version target socks =
      let opt =
        if socks.has_userinfo
        then with_userpass socks.encoded_user socks.encoded_password
        else no_auth in
      if socks_version == 0x05
      then (if is_name target.host_type
          then (do
            (s', _, ec) ←
                connect_domain stream make_address_v4 buffer s target.encoded_host
                  (default_port target) opt no_error
            some (s', ec))
          else if is_ipv4 target.host_type || is_ipv6 target.host_type
          then (do
            ep ← get_endpoint_unchecked urls target
            (s', _, ec) ← connect_host stream make_address_v4 buffer s ep opt no_error
            some (s', ec))
          else some (s, no_error))
      else (if is_name target.host_type
          then (do
            (s', _, ec) ←
                resolve_and_connect_v4 s target.encoded_host (default_port target)
                  socks.encoded_user
            some (s', ec))
          else if is_ipv4 target.host_type || is_ipv6 target.host_type
          then (do
            ep ← get_endpoint_unchecked urls target
            (s', _, ec) ← connect_v4 stream make_address_v4 s ep socks.encoded_user
            some (s', ec))
          else some (s, no_error))

  -- The part that talks HTTP to the target.
  unfoldable pub request_page : stream.State → ℕ → Url → stream.State × Outcome
  request_page s http_version target =
      let (s1, e1) = http_write s target.encoded_path target.encoded_host http_version in
      let (s2, e2) = http_read s1 in
      let (s3, e3) = shutdown s2 in
      if failed e1
      then (s1, write_failed e1)
      else if failed e2 && not (net.is_end_of_stream e2)
      then (s2, read_failed e2)
      else if failed e3 && not (net.is_not_connected e3)
      then (s3, shutdown_failed e3)
      else (s3, done)

  unfoldable pub socks_request :
      stream.State → ℕ → List ℕ → List ℕ → Option (stream.State × Outcome)
  unfolding connect_server send_connect request_page
  socks_request s http_version target_str socks_str = elim (urls.parse_uri target_str) [
    | inr ec ↦ some (s, parse_target ec)
    | inl target ↦ elim (urls.parse_uri socks_str) [
      | inr ec ↦ some (s, parse_socks ec)
      | inl socks ↦ elim (version_of socks.scheme) [
        | none ↦ some (s, invalid_scheme)
        | some socks_version ↦
            if socks_version == 0x04 && is_ipv6 target.host_type then some (s, no_ipv6) else do
              (s1, met) ← connect_server s socks
              elim met [
                | inl outcome ↦ some (s1, outcome)
                | inr ec ↦ if failed ec then some (s1, connect_failed ec) else do
                  (s2, ec') ← send_connect s1 socks_version target socks
                  if failed ec'
                      then some (s2, socks_connect ec')
                      else some (request_page s2 http_version target)
              ]
      ]
    ]
  ]

  -- `main`, with the arguments after the program's name; the result is whether it is `EXIT_SUCCESS`.
  unfoldable pub main : stream.State → List (List ℕ) → Option (stream.State × Bool)
  unfolding socks_request
  main s (target ∷ socks ∷ []) = do
    (s', outcome) ← socks_request s 11 target socks
    some (s', returns outcome)
  main s _ = some (s, false)
