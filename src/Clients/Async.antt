-- ===== src/Clients/Async.antt =====
-- example/client/async/socks_client_async.cpp: the asynchronous client, `socks_client`. Each function runs to the
-- operation that it starts, whose completion calls the next one.
use socks.Base.{
  ℕ, zero, suc, Bool, false, not, ◌&&◌, ◌||◌, Option, none, some, ◌⊎◌, inl, inr, List, [], ◌∷◌,
  ◌==◌, if◌then◌else◌,
}
use socks.Base.Access.{◌>>=◌}
use socks.Error.{ErrorCode, no_error, failed}
use socks.Endpoint.{Address, is_v6, Endpoint, AuthOptions, no_auth, with_userpass}
use socks.ConnectOp.{async_connect_host, async_connect_domain}
use socks.V4.Connect.{async_connect_v4}
use socks.Clients.{
  Url, Urls, Network, is_name, is_ipv4, is_ipv6, default_port, get_endpoint_unchecked, version_of,
}

-- The fields that the protocol uses.
pub record SocksClient : Type 0 where
  pub http_version : ℕ
  pub target : Url
  pub socks : Url
  pub socks_version : ℕ
  pub ec : ErrorCode

-- The operation that a function starts. `idle` is none: `ioc.run()` has nothing left to do.
pub data Action : Type 0 where
  resolve_proxy : List ℕ → ℕ → Action
  connect_proxy : List Endpoint → Action
  connect_name : List ℕ → ℕ → AuthOptions → Action
  connect_endpoint : Endpoint → AuthOptions → Action
  resolve_target : List ℕ → ℕ → Action
  connect_endpoint_v4 : Endpoint → List ℕ → Action
  write_page : List ℕ → List ℕ → ℕ → Action
  read_page idle : Action

-- `fail`, whose message is printed only.
abbrev pub fail : ErrorCode → SocksClient → SocksClient × Action
fail ec c = (record c { ec = ec }, idle)

unfoldable pub do_socks_response : SocksClient → SocksClient × Action
do_socks_response c = (c, read_page)

unfoldable pub on_written : ErrorCode → SocksClient → SocksClient × Action
unfolding do_socks_response
on_written ec c = if failed ec then fail ec c else do_socks_response c

-- The request is for the host, where the synchronous client asks for the path.
unfoldable pub do_socks_request : SocksClient → SocksClient × Action
do_socks_request c = (c, write_page c.target.encoded_host c.target.encoded_host c.http_version)

-- The callback of the connect functions.
unfoldable pub on_socks_connected : ErrorCode → SocksClient → SocksClient × Action
unfolding do_socks_request
on_socks_connected ec c = if failed ec then fail ec c else do_socks_request c

-- The loop over the endpoints of the target.
unfoldable pub first_v4 : List Endpoint → Option Endpoint
first_v4 [] = none
first_v4 (ep ∷ eps) = let later = first_v4 eps in if is_v6 ep.address then later else some ep

module _ (urls : Urls) (net : Network) where
  unfoldable pub on_target_resolved : ErrorCode → List Endpoint → SocksClient → SocksClient × Action
  unfolding first_v4
  on_target_resolved ec eps c = if failed ec then fail ec c else elim (first_v4 eps) [
    | some ep ↦ (c, connect_endpoint_v4 ep c.socks.encoded_user)
    | none ↦ fail net.host_not_found c
  ]

  unfoldable pub do_socks_connect : SocksClient → Option (SocksClient × Action)
  do_socks_connect c =
      let opt =
        if c.socks.has_userinfo
        then with_userpass c.socks.encoded_user c.socks.encoded_password
        else no_auth in
      if c.socks_version == 0x05
      then (if is_name c.target.host_type
          then some (c, connect_name c.target.encoded_host (default_port c.target) opt)
          else if is_ipv4 c.target.host_type || is_ipv6 c.target.host_type
          then (do ep ← get_endpoint_unchecked urls c.target; some (c, connect_endpoint ep opt))
          else some (c, idle))
      else (if is_name c.target.host_type
          then some (c, resolve_target c.target.encoded_host (default_port c.target))
          else if is_ipv4 c.target.host_type || is_ipv6 c.target.host_type
          then (do
            ep ← get_endpoint_unchecked urls c.target
            some (c, connect_endpoint_v4 ep c.socks.encoded_user))
          else some (c, idle))

  unfoldable pub do_proxy_connect : List Endpoint → SocksClient → SocksClient × Action
  do_proxy_connect eps c = (c, connect_proxy eps)

  unfoldable pub on_proxy_connected : ErrorCode → SocksClient → Option (SocksClient × Action)
  unfolding do_socks_connect
  on_proxy_connected ec c = if failed ec then some (fail ec c) else do_socks_connect c

  unfoldable pub on_proxy_resolved : ErrorCode → List Endpoint → SocksClient → SocksClient × Action
  unfolding do_proxy_connect
  on_proxy_resolved ec eps c = if failed ec then fail ec c else do_proxy_connect eps c

  unfoldable pub do_proxy_resolve : SocksClient → Option (SocksClient × Action)
  unfolding do_proxy_connect
  do_proxy_resolve c =
      if is_name c.socks.host_type
      then some (c, resolve_proxy c.socks.encoded_host (default_port c.socks))
      else if is_ipv4 c.socks.host_type || is_ipv6 c.socks.host_type
      then (do ep ← get_endpoint_unchecked urls c.socks; some (do_proxy_connect (ep ∷ []) c))
      else some (fail net.operation_not_supported c)

  -- The parts of `parse_urls`, each with the result that it looks at.
  unfoldable pub checked : Option ℕ → SocksClient → SocksClient
  checked none c = record c { ec = net.no_protocol_option }
  checked (some v) c =
      let c' = record c { socks_version = v } in
      if v == 0x04 && is_ipv6 c.target.host_type
      then record c' { ec = net.no_protocol_option }
      else c'

  unfoldable pub with_socks : Url ⊎ ErrorCode → SocksClient → SocksClient
  unfolding checked
  with_socks (inr ec) c = record c { ec = ec }
  with_socks (inl socks) c = checked (version_of socks.scheme) (record c { socks = socks })

  unfoldable pub with_target : Url ⊎ ErrorCode → List ℕ → SocksClient → SocksClient
  unfolding with_socks
  with_target (inr ec) socks_str c = record c { ec = ec }
  with_target (inl target) socks_str c =
      with_socks (urls.parse_uri socks_str) (record c { target = target })

  unfoldable pub parse_urls : List ℕ → List ℕ → SocksClient → SocksClient
  unfolding with_target
  parse_urls target_str socks_str c = with_target (urls.parse_uri target_str) socks_str c

  -- The constructor, which goes on if the URLs are good.
  abbrev pub fresh : ℕ → SocksClient
  fresh http_version = record {
    http_version = http_version;
    target = urls.empty_url;
    socks = urls.empty_url;
    socks_version = 0x04;
    ec = no_error;
  }

  unfoldable pub start : SocksClient → Option (SocksClient × Action)
  unfolding do_proxy_resolve
  start c = if failed c.ec then some (c, idle) else do_proxy_resolve c

  unfoldable pub create : ℕ → List ℕ → List ℕ → Option (SocksClient × Action)
  unfolding parse_urls start
  create http_version target_str socks_str =
      start (parse_urls target_str socks_str (fresh http_version))

  -- The completion of `http::async_read`, with what `shutdown` leaves.
  unfoldable pub on_response : ErrorCode → ErrorCode → SocksClient → SocksClient × Action
  on_response ec shutdown_ec c =
      if failed ec && not (net.is_end_of_stream ec)
      then fail ec c
      else if failed shutdown_ec && not (net.is_not_connected shutdown_ec)
      then fail shutdown_ec c
      else (c, idle)

  module _ (make_address_v4 : ℕ → Address) where
    open net use {stream, resolve, connect, http_write, http_read, shutdown}

    abbrev on_socket : stream.State → SocksClient × Action → stream.State × SocksClient × Action
    on_socket s (c, a) = (s, c, a)

    -- An action is done on the network, and its completion is called.
    unfoldable pub act :
        stream.State → SocksClient → Action → Option (stream.State × SocksClient × Action)
    unfolding on_proxy_resolved on_proxy_connected on_socks_connected on_target_resolved on_written
        on_response
    act s c (resolve_proxy host port) =
        let (s1, eps, ec) = resolve s host port in some (on_socket s1 (on_proxy_resolved ec eps c))
    act s c (connect_proxy eps) = do
      let (s1, ec) = connect s eps
      next ← on_proxy_connected ec c
      some (on_socket s1 next)
    act s c (connect_name host port opt) = do
      (s1, _, ec) ← async_connect_domain stream make_address_v4 s host port opt
      some (on_socket s1 (on_socks_connected ec c))
    act s c (connect_endpoint ep opt) = do
      (s1, _, ec) ← async_connect_host stream make_address_v4 s ep opt
      some (on_socket s1 (on_socks_connected ec c))
    act s c (resolve_target host port) =
        let (s1, eps, ec) = resolve s host port in some (on_socket s1 (on_target_resolved ec eps c))
    act s c (connect_endpoint_v4 ep user) = do
      (s1, _, ec) ← async_connect_v4 stream make_address_v4 s ep user
      some (on_socket s1 (on_socks_connected ec c))
    act s c (write_page path host version) =
        let (s1, ec) = http_write s path host version in some (on_socket s1 (on_written ec c))
    act s c read_page =
        let (s1, ec) = http_read s in
        let (s2, ec') = shutdown s1 in
        some (
          on_socket (if failed ec && not (net.is_end_of_stream ec) then s1 else s2)
            (on_response ec ec' c))
    act s c idle = some (s, c, idle)

    -- `ioc.run()`: at most six operations.
    unfoldable pub run :
        ℕ → stream.State → SocksClient → Action → Option (stream.State × SocksClient × Action)
    unfolding act
    run zero s c a = some (s, c, a)
    run (suc n) s c a = do (s', c', a') ← act s c a; run n s' c' a'

    -- `main`, with the arguments after the program's name; the result is whether it is `EXIT_SUCCESS`.
    unfoldable pub main : stream.State → List (List ℕ) → Option (stream.State × Bool)
    unfolding create run
    main s (target ∷ socks ∷ []) = do
      (c, a) ← create 11 target socks
      (s', c', a') ← run 6 s c a
      some (s', not (failed c'.ec))
    main s _ = some (s, false)
