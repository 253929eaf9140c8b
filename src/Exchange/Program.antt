-- ===== src/Exchange/Program.antt =====
-- example/client/ with example/server/async/socks_server_async.cpp: the programs of the two clients, when the SOCKS
-- server that they connect to is the example server.
use socks.Base.{
  ℕ, ◌≡◌, refl, ◌∙◌, ap, true, false, Bool, some, inl, inr, List, [], ◌∷◌, length, Bool-cases,
  arith, if◌then◌else◌,
}
use socks.Base.Access.{◌>>=◌}
use socks.Error.{ErrorCode, no_error, failed, socks_code, make_error_code, bad_reply_size}
use socks.Endpoint.{Address, Endpoint, IsEndpoint, DomainEndpoint, IsDomain, no_auth}
use socks.Replies.{MakesV4}
use socks.Server.Run.{World}
use socks.Exchange.{Outside, exchange}
use socks.Exchange.Stages.{answered, threw}
use socks.Exchange.Session.{begun, negotiated, greeted, exchange-IsLawful}
use socks.Exchange.Completes.{connect_domain-exchange}
use socks.Clients.{Url, Urls, Network, is_name, default_port, version_of}
use socks.Clients.Sync
use socks.Clients.Sync.{returns, connect_server, send_connect, request_page}
use socks.Clients.Async
use socks.Clients.Stages.{page_of, behind_proxy}
use socks.Clients.Alike.{made, request_stage, main-main}

-- The client's socket, with the server and the bytes between the two.
abbrev pub Socket : Type 0
Socket = World × List ℕ × List ℕ

-- What a client asks of Asio and Beast on that socket, apart from the session.
pub record Surroundings : Type 0 where
  pub resolve : Socket → List ℕ → ℕ → Socket × List Endpoint × ErrorCode
  pub connect : Socket → List Endpoint → Socket × ErrorCode
  pub http_write : Socket → List ℕ → List ℕ → ℕ → Socket × ErrorCode
  pub http_read : Socket → Socket × ErrorCode
  pub shutdown : Socket → Socket × ErrorCode
  pub host_not_found : ErrorCode
  pub operation_not_supported : ErrorCode
  pub no_protocol_option : ErrorCode
  pub is_end_of_stream : ErrorCode → Bool
  pub is_not_connected : ErrorCode → Bool

abbrev pub network : Outside → Surroundings → Network
network o a = record {
  stream = exchange o;
  resolve = a.resolve;
  connect = a.connect;
  http_write = a.http_write;
  http_read = a.http_read;
  shutdown = a.shutdown;
  host_not_found = a.host_not_found;
  operation_not_supported = a.operation_not_supported;
  no_protocol_option = a.no_protocol_option;
  is_end_of_stream = a.is_end_of_stream;
  is_not_connected = a.is_not_connected;
}

-- The name that the target's URL has.
abbrev pub named_host : Url → DomainEndpoint
named_host u = record { domain = u.encoded_host; port = default_port u }

module _ (o : Outside) (a : Surroundings) (urls : Urls) (mk : ℕ → Address) (buffer : List ℕ) where
  -- How a client ends, with the HTTP version 11: whether it is `EXIT_SUCCESS`. `write` sends its HTTP request.
  abbrev pub ends : (Socket → List ℕ → List ℕ → ℕ → Socket × ErrorCode) → Url → Socket × Bool
  ends write target =
      if failed o.resolve_error
      then ((threw negotiated greeted (named_host target), [], []), false)
      else if failed o.connect_error
      then ((answered negotiated greeted o.found o, [], []), false)
      else let (s', outcome) =
          request_page urls (network o (record a { http_write = write })) mk buffer
            (answered negotiated greeted o.found o, [], []) 11 target in
        (s', returns outcome)

  module _ (h : IsEndpoint o.bound) (target socks : Url) (by_name : is_name target.host_type ≡ true)
      (valid : IsDomain (named_host target)) (no_user : socks.has_userinfo ≡ false) (m : MakesV4 mk)
      (whole : length buffer ≡ 513) where
    send_stage : send_connect urls (network o a) mk buffer begun 5 target socks ≡ (
        if failed o.resolve_error
        then some
            ((threw negotiated greeted (named_host target), [], []), make_error_code bad_reply_size)
        else some (
          (answered negotiated greeted o.found o, [], []),
          socks_code (if failed o.connect_error then 4 else 0),
        ))
    unfolding send_connect
    send_stage =
        rw (by_name, no_user)
          (ap (λ r. do (s', _, ec) ← r; some (s', ec))
              (connect_domain-exchange o h mk buffer (named_host target) no_auth no_error m valid
                (omega arith) refl whole)
            ∙ elim (Bool-cases (failed o.resolve_error)) [ inl f ↦ rw f refl | inr f ↦ rw f refl ])

    behind_proxy-ends :
        (write : Socket → List ℕ → List ℕ → ℕ → Socket × ErrorCode)
        → (do
          (s', outcome) ←
              behind_proxy urls
                (network o a)
                mk
                buffer
                (page_of urls (network o (record a { http_write = write })) mk buffer)
                (made urls (network o a) mk buffer 5 target socks)
                (begun, inr no_error)
          some (s', returns outcome))
          ≡ some (ends write target)
    unfolding failed make_error_code
    behind_proxy-ends write = rw send_stage (elim (Bool-cases (failed o.resolve_error)) [
      | inl f ↦ rw f refl
      | inr f ↦ elim (Bool-cases (failed o.connect_error)) [
        | inl g ↦ rw (f, g) refl
        | inr g ↦ rw (f, g) refl
      ]
    ])

    -- The synchronous client, from its arguments on, whatever its HTTP request asks for.
    sync_ends :
        (write : Socket → List ℕ → List ℕ → ℕ → Socket × ErrorCode)
        → (s : Socket) (target_str socks_str : List ℕ) → urls.parse_uri target_str ≡ inl target
        → urls.parse_uri socks_str ≡ inl socks
        → version_of socks.scheme ≡ some 5
        → connect_server urls (network o a) mk buffer s socks ≡ some (begun, inr no_error)
        → Sync.main urls
            (network o (record a { http_write = write }))
            mk
            buffer
            s
            (target_str ∷ socks_str ∷ [])
          ≡ some (ends write target)
    unfolding Sync.main
    sync_ends write s target_str socks_str pt ps five met =
        ap (λ r. do (s', outcome) ← r; some (s', returns outcome))
          (request_stage urls (network o a) mk buffer 5 target_str socks_str target socks pt ps five
            refl write s)
        ∙ rw met (behind_proxy-ends write)

  -- With URLs that parse, a target's URL that names a host which fits a request, a SOCKS server's URL for SOCKS5 without
  -- credentials, a network between the client and the example server that loses nothing and delivers
  -- each message in any parts, a resolver and a target's side that answer the server with any error codes, with
  -- any endpoint `found` and with a valid endpoint `bound`, a `make_address_v4` that gives the address of a number,
  -- codes for an unsupported host and for an unknown one that are failures, and a buffer of 513 bytes: once the
  -- client is connected to the server, both clients end alike up to the HTTP request. They fail if the server's resolver
  -- failed, and then the server has thrown, or if its connection to `found` failed, and then the server closes;
  -- else they send the HTTP request, for the path or for the host, to a server that runs its relay to `found`, with
  -- no byte of the session left unread, and exit as that request ends.
  pub main-exchange :
      (s : Socket) (target_str socks_str : List ℕ) (target socks : Url)
      → IsEndpoint o.bound
      → urls.parse_uri target_str ≡ inl target
      → urls.parse_uri socks_str ≡ inl socks
      → is_name target.host_type ≡ true
      → IsDomain (named_host target)
      → version_of socks.scheme ≡ some 5
      → socks.has_userinfo ≡ false
      → connect_server urls (network o a) mk buffer s socks ≡ some (begun, inr no_error)
      → failed a.operation_not_supported ≡ true
      → failed a.host_not_found ≡ true
      → MakesV4 mk
      → length buffer ≡ 513
      → (Sync.main urls (network o a) mk buffer s (target_str ∷ socks_str ∷ [])
          ≡ some (ends a.http_write target))
        × (Async.main urls (network o a) mk s (target_str ∷ socks_str ∷ [])
            ≡ some (ends (λ t path host version. a.http_write t host host version) target))
  main-exchange s target_str socks_str target socks h pt ps by_name valid five no_user met refused
        unknown m whole =
      let ends_with = λ (write : Socket → List ℕ → List ℕ → ℕ → Socket × ErrorCode).
        sync_ends h target socks by_name valid no_user m whole write s target_str socks_str pt ps
          five met in
      (
        ends_with a.http_write,
        main-main urls (network o a) mk buffer s target_str socks_str target socks pt ps
              (inl (
                five,
                inl (by_name, valid),
                rw no_user (omega arith),
                inl (rw no_user refl),
                exchange-IsLawful o,
                whole,
              ))
              refused unknown
            ∙ ends_with (λ t path host version. a.http_write t host host version),
      )
