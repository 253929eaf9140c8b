-- ===== src/Clients/Alike.antt =====
-- example/client/: the two clients from their arguments to their exit codes.
use socks.Base.{
  ℕ, ◌≡◌, ◌⊎◌, ◌<◌, ◌==◌, ◌&&◌, false, refl, ◌∙◌, true, not, Option, none, some, List, [], ◌∷◌,
  length, if◌then◌else◌, inl, inr,
}
use socks.Base.Access.{◌>>=◌}
use socks.Base.Ensures.{Ensures}
use socks.Error.{ErrorCode, no_error, failed}
use socks.Endpoint.{Address, is_v6, FitsRequest}
use socks.Stream.{IsLawful}
use socks.ConnectOp.Runs.{StatusRead}
use socks.Clients.{
  Url, Urls, Network, HostType, no_host, name, ipv4, ipv6, ipvfuture, is_name, is_ipv4, is_ipv6,
  version_of, get_endpoint_unchecked, default_port,
}
use socks.Clients.Sync
use socks.Clients.Sync.{
  Outcome, done, returns, connect_failed, socks_connect, send_connect, connect_server, request_page,
}
use socks.Clients.Async
use socks.Clients.Async.{
  SocksClient, Action, resolve_proxy, connect_proxy, write_page, idle, do_socks_connect,
  on_socks_connected, act, run, do_proxy_resolve,
}
use socks.Clients.Agree.{
  options, HasTarget, do_socks_connect-send_connect, do_socks_connect-send_connect_v4,
}
use socks.Clients.Named.{AtMostOne, do_socks_connect-send_connect_named}
use socks.Clients.Stages.{
  asks_for_host, Sends, exits, exits_sync, behind_proxy, page_of, resolve_stage,
}

module _ (urls : Urls) (net : Network) (mk : ℕ → Address) (buffer : List ℕ) where
  open net use {stream}

  exits_run :
      (n : ℕ) (s : stream.State) (m : Option (SocksClient × Action))
      → (do (c, a) ← m; (s', c', a') ← run urls net mk n s c a; some (s', not (failed c'.ec)))
        ≡ exits urls net mk buffer (do (c, a) ← m; run urls net mk n s c a)
  exits_run n s none = refl
  exits_run n s (some (c, a)) = refl

  exits_request :
      (page : SocksClient → stream.State → stream.State × Outcome)
      (m : Option (stream.State × (Outcome ⊎ ErrorCode))) (c : SocksClient)
      → (do
        met ← m
        o ← behind_proxy urls net mk buffer page c met
        some (exits_sync urls net mk buffer o))
        ≡ (do
          (s, outcome) ← (do met ← m; behind_proxy urls net mk buffer page c met)
          some (s, returns outcome))
  exits_request page none c = refl
  exits_request page (some met) c = refl

  -- The asynchronous client behind its constructor.
  abbrev pub made : ℕ → Url → Url → SocksClient
  made v target socks = record {
    http_version = 11;
    target = target;
    socks = socks;
    socks_version = v;
    ec = no_error;
  }

  module _ (v : ℕ) (target_str socks_str : List ℕ) (target socks : Url)
      (pt : urls.parse_uri target_str ≡ inl target) (ps : urls.parse_uri socks_str ≡ inl socks)
      (ver : version_of socks.scheme ≡ some v)
      (kind : v == 4 && is_ipv6 target.host_type ≡ false) where
    create_stage :
        Async.create urls net 11 target_str socks_str
        ≡ do_proxy_resolve urls net (made v target socks)
    unfolding Async.create Async.parse_urls Async.with_target Async.with_socks Async.checked
        Async.start do_proxy_resolve failed
    create_stage = rw (pt, ps, ver) (rw kind refl)

    -- The synchronous client, whatever its HTTP request asks for: nothing before that depends on it.
    pub request_stage :
        (write : stream.State → List ℕ → List ℕ → ℕ → stream.State × ErrorCode) (s : stream.State)
        → let page : Network = record net { http_write = write } in
          Sync.socks_request urls page mk buffer s 11 target_str socks_str ≡ (do
            met ← connect_server urls net mk buffer s socks
            behind_proxy urls net mk buffer (page_of urls page mk buffer) (made v target socks) met)
    unfolding Sync.socks_request connect_server send_connect request_page
        Sync.resolve_and_connect_v4
    request_stage write s =
        rw (pt, ps, ver, Sync.socks_request)
          (rw kind (by_outcome (connect_server urls net mk buffer s socks)))
      where
        by_outcome :
            (m : Option (stream.State × (Outcome ⊎ ErrorCode)))
            → let page : Network = record net { http_write = write } in
              (do
                (s1, met) ← m
                elim met [
                  | inl outcome ↦ some (s1, outcome)
                  | inr ec ↦ if failed ec then some (s1, connect_failed ec) else do
                    (s2, ec') ← send_connect urls net mk buffer s1 v target socks
                    if failed ec'
                        then some (s2, socks_connect ec')
                        else some (request_page urls page mk buffer s2 11 target)
                ])
              ≡ (do
                met ← m
                behind_proxy urls net mk buffer
                    (page_of urls page mk buffer)
                    (made v target socks)
                    met)
        by_outcome none = refl
        by_outcome (some (s1, inl outcome)) = refl
        by_outcome (some (s1, inr ec)) = refl

  alike :
      (v : ℕ) (s : stream.State) (target_str socks_str : List ℕ) (target socks : Url)
      → urls.parse_uri target_str ≡ inl target
      → urls.parse_uri socks_str ≡ inl socks
      → version_of socks.scheme ≡ some v
      → v == 4 && is_ipv6 target.host_type ≡ false
      → Sends urls net mk buffer (made v target socks)
      → failed net.operation_not_supported ≡ true
      → Async.main urls net mk s (target_str ∷ socks_str ∷ [])
        ≡ Sync.main urls (asks_for_host net) mk buffer s (target_str ∷ socks_str ∷ [])
  unfolding Async.main Sync.main failed
  alike v s target_str socks_str target socks pt ps ver kind sends refused =
      let c : SocksClient = made v target socks in
      rw
        (
          create_stage v target_str socks_str target socks pt ps ver kind,
          request_stage v target_str socks_str target socks pt ps ver kind
              (λ t path host version. net.http_write t host host version) s,
        )
        (exits_run 6 s (do_proxy_resolve urls net c)
          ∙ resolve_stage urls net mk buffer c sends refl s refused
          ∙ exits_request (page_of urls (asks_for_host net) mk buffer)
              (connect_server urls net mk buffer s socks) c)

  -- The hosts of a URL are of one kind.
  ipv4-not_others : (t : HostType) → is_ipv4 t ≡ true → (is_name t ≡ false) × (is_ipv6 t ≡ false)
  ipv4-not_others no_host h = absurd (cc)
  ipv4-not_others name h = absurd (cc)
  ipv4-not_others ipv4 h = (refl, refl)
  ipv4-not_others ipv6 h = absurd (cc)
  ipv4-not_others ipvfuture h = absurd (cc)

  name-not_ipv6 : (t : HostType) → is_name t ≡ true → is_ipv6 t ≡ false
  name-not_ipv6 no_host h = absurd (cc)
  name-not_ipv6 name h = refl
  name-not_ipv6 ipv4 h = absurd (cc)
  name-not_ipv6 ipv6 h = absurd (cc)
  name-not_ipv6 ipvfuture h = absurd (cc)

  -- With URLs that parse, and codes for an unsupported host and for an unknown one that are failures: the asynchronous
  -- client ends as the synchronous one would if its HTTP request asked for the host in place of the path, with the same
  -- socket and the same exit code, or both fault, whatever fails on the way. It is
  -- so over SOCKS5, with a target's URL that names a host which fits a request, credentials of at most 255 bytes each, a
  -- lawful stream where reads fail only by the end of the stream, or without credentials, and a buffer of 513 bytes;
  -- over SOCKS4, on any stream, with a target's URL that names an IPv4 address with a valid port; and over SOCKS4, on any
  -- stream, with a target's URL that has a name and a valid port, and a resolver that fails or finds some endpoint for it
  -- and at most one of IPv4, with that port.
  pub main-main :
      (s : stream.State) (target_str socks_str : List ℕ) (target socks : Url)
      → urls.parse_uri target_str ≡ inl target
      → urls.parse_uri socks_str ≡ inl socks
      → ((version_of socks.scheme ≡ some 5)
          × HasTarget urls target
          × FitsRequest (options socks)
          × StatusRead stream mk (options socks)
          × IsLawful stream
          × (length buffer ≡ 513))
        ⊎ ((version_of socks.scheme ≡ some 4)
            × (is_ipv4 target.host_type ≡ true)
            × Ensures
                (λ ep. (is_v6 ep.address ≡ false) × (ep.port < 65536))
                (get_endpoint_unchecked urls target))
        ⊎ ((version_of socks.scheme ≡ some 4)
            × (is_name target.host_type ≡ true)
            × (default_port target < 65536)
            × ((t : stream.State)
                → let (t', eps, ec) = net.resolve t target.encoded_host (default_port target) in
                  failed ec ≡ false → AtMostOne (default_port target) eps))
      → failed net.operation_not_supported ≡ true
      → failed net.host_not_found ≡ true
      → Async.main urls net mk s (target_str ∷ socks_str ∷ [])
        ≡ Sync.main urls (asks_for_host net) mk buffer s (target_str ∷ socks_str ∷ [])
  main-main s target_str socks_str target socks pt ps (inl (ver, has, fits, status, law, whole))
        refused unknown =
      alike 5 s target_str socks_str target socks pt ps ver refl
        (inl (λ t.
          do_socks_connect-send_connect urls net mk buffer t (made 5 target socks) law status fits
            has refl whole))
        refused
  main-main s target_str socks_str target socks pt ps (inr (inl (ver, by_ipv4, valid))) refused
        unknown =
      let (no_name, no_ipv6) = ipv4-not_others target.host_type by_ipv4 in
      alike 4 s target_str socks_str target socks pt ps ver (rw no_ipv6 refl)
        (inl (λ t.
          do_socks_connect-send_connect_v4 urls net mk buffer t (made 4 target socks) no_name
            (rw by_ipv4 refl) valid refl))
        refused
  main-main s target_str socks_str target socks pt ps (inr (inr (ver, by_name, bound, one))) refused
        unknown =
      alike 4 s target_str socks_str target socks pt ps ver
        (rw (name-not_ipv6 target.host_type by_name) refl)
        (inr (λ t.
          do_socks_connect-send_connect_named urls net mk buffer t (made 4 target socks) refl
            by_name bound (one t) unknown))
        refused
