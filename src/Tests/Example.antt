-- ===== src/Tests/Example.antt =====
-- The example clients, with a Boost.URL that knows two texts and a network that plays a script.
use socks.Base.{
  ℕ, zero, suc, ◌≡◌, refl, inl, inr, true, false, some, none, ◌⊎◌, List, [], ◌∷◌, replicate, arith,
  if◌then◌else◌,
}
use socks.Base.Ensures.{Ensures}
use socks.Error.{ErrorCode, no_error, io_failure, failed}
use socks.Endpoint.{v4, v6, is_v6, Endpoint, no_endpoint}
use socks.Stream.Played.{script, script-IsLawful, script-FailsByEof}
use socks.Clients.{
  Url, Urls, Network, IsLawfulUrls, name, ipv4, http, other, default_port, get_endpoint_unchecked,
  version_of,
}
use socks.Clients.Sync.{resolve_and_connect_v4, send_connect}
use socks.Clients.Async.{
  SocksClient, idle, connect_proxy, connect_endpoint_v4, on_target_resolved, do_socks_connect,
  do_proxy_connect, on_proxy_connected, do_proxy_resolve, checked, with_socks, with_target,
  parse_urls, start, create, on_socks_connected, first_v4, act, run,
}
use socks.Clients.Attempts.{attempts, v4_only, none_found, resolve_and_connect_v4-attempts}
use socks.Clients.Targets.{run-SendsV4}
use socks.Clients.Ends.{run-ends}
use socks.Clients.Sync
use socks.Clients.Async
use socks.Clients.Stages.{asks_for_host}
use socks.Clients.Alike.{main-main}
use socks.Tests.Script.{from_host_order}

-- http://a.b/
abbrev pub page : Url
page = record {
  scheme = 104 ∷ 116 ∷ 116 ∷ 112 ∷ [];
  scheme_id = http;
  host_type = name;
  encoded_host = 97 ∷ 46 ∷ 98 ∷ [];
  has_port = false;
  port_number = 0;
  has_userinfo = false;
  encoded_user = [];
  encoded_password = [];
  encoded_path = 47 ∷ [];
}

-- socks4://10.0.0.7 and socks5://10.0.0.7
abbrev pub proxy : ℕ → Url
proxy version = record {
  scheme = 115 ∷ 111 ∷ 99 ∷ 107 ∷ 115 ∷ version ∷ [];
  scheme_id = other;
  host_type = ipv4;
  encoded_host = 49 ∷ 48 ∷ 46 ∷ 48 ∷ 46 ∷ 48 ∷ 46 ∷ 55 ∷ [];
  has_port = false;
  port_number = 0;
  has_userinfo = false;
  encoded_user = [];
  encoded_password = [];
  encoded_path = [];
}

abbrev pub parsed : List ℕ → Url ⊎ ErrorCode
parsed [] = inr (io_failure 22)
parsed (zero ∷ text) = inl page
parsed (suc c ∷ text) = inl (proxy (suc c))

abbrev pub two_urls : Urls
two_urls = record {
  empty_url = page;
  parse_uri = parsed;
  parse_ipv4_address = λ host. some (v4 10 0 0 7);
  parse_ipv6_address = λ host. none;
}

parsed_error : (text : List ℕ) (ec : ErrorCode) → parsed text ≡ inr ec → failed ec ≡ true
unfolding failed
parsed_error [] ec e = ground arith
parsed_error (zero ∷ text) ec e = absurd (cc)
parsed_error (suc c ∷ text) ec e = absurd (cc)

two_urls-IsLawful : IsLawfulUrls two_urls
two_urls-IsLawful = record { ipv4_kind = λ host a e. ground arith; parse_error = parsed_error }

abbrev found : List Endpoint
found =
    record { address = v6 (replicate 16 0); port = 80 }
    ∷ record { address = v4 10 0 0 9; port = 80 }
    ∷ []

abbrev net : Network
net = record {
  stream = script;
  resolve = λ s host port. (s, found, no_error);
  connect = λ s eps. (s, no_error);
  http_write = λ s path host version. (s, no_error);
  http_read = λ s. (s, no_error);
  shutdown = λ s. (s, no_error);
  host_not_found = io_failure 1;
  operation_not_supported = io_failure 95;
  no_protocol_option = io_failure 92;
  is_end_of_stream = λ ec. false;
  is_not_connected = λ ec. false;
}

pub fails : (n : ℕ) → failed (io_failure n) ≡ true
unfolding failed
fails n = refl

resolve_and_connect_v4-attempts_example :
    resolve_and_connect_v4 two_urls net from_host_order
      (replicate 513 0)
      []
      (97 ∷ 46 ∷ 98 ∷ [])
      80
      []
    ≡ (if failed no_error
        then some ([], no_endpoint, no_error)
        else attempts two_urls net from_host_order
            (replicate 513 0)
            []
            (v4_only found)
            80
            []
            (none_found (io_failure 1) found no_error))
resolve_and_connect_v4-attempts_example =
    resolve_and_connect_v4-attempts two_urls net from_host_order (replicate 513 0) []
      (97 ∷ 46 ∷ 98 ∷ []) 80 [] (fails 1)

abbrev client : ℕ → ℕ → SocksClient
client version v = record {
  http_version = 11;
  target = page;
  socks = proxy version;
  socks_version = v;
  ec = no_error;
}

abbrev proxy_endpoint : Endpoint
proxy_endpoint = record { address = v4 10 0 0 7; port = 1080 }

creates :
    create two_urls net 11 (0 ∷ []) (52 ∷ [])
    ≡ some (client 52 4, connect_proxy (proxy_endpoint ∷ []))
unfolding create parse_urls with_target with_socks checked version_of start do_proxy_resolve
    do_proxy_connect get_endpoint_unchecked default_port failed
creates = refl

runs :
    run two_urls net from_host_order 2 [] (client 52 4) (connect_proxy (proxy_endpoint ∷ []))
    ≡ some ([], client 52 4, connect_endpoint_v4 (record { address = v4 10 0 0 9; port = 80 }) [])
unfolding run act on_proxy_connected do_socks_connect on_target_resolved first_v4 default_port
    failed
runs = refl

run-SendsV4_example : is_v6 (v4 10 0 0 9) ≡ false
run-SendsV4_example =
    run-SendsV4 two_urls net two_urls-IsLawful from_host_order 11 2 (0 ∷ []) (52 ∷ []) [] []
      (client 52 4) (client 52 4) (connect_proxy (proxy_endpoint ∷ []))
      (record { address = v4 10 0 0 9; port = 80 }) [] (fails 92) creates runs

run-ends_example :
    let a = connect_proxy (proxy_endpoint ∷ []) in
    (run two_urls net from_host_order 8 [] (client 52 4) a
      ≡ run two_urls net from_host_order 6 [] (client 52 4) a)
    × Ensures (λ r. r.2 ≡ idle) (run two_urls net from_host_order 6 [] (client 52 4) a)
run-ends_example =
    run-ends two_urls net from_host_order 11 8 (0 ∷ []) (52 ∷ []) [] (client 52 4)
      (connect_proxy (proxy_endpoint ∷ [])) creates (omega arith)

pub port_80 : default_port page ≡ 80
unfolding default_port
port_80 = refl

pub version_5 : version_of (proxy 53).scheme ≡ some 5
unfolding version_of
version_5 = refl

main-main_example :
    Async.main two_urls net from_host_order [] ((0 ∷ []) ∷ (53 ∷ []) ∷ [])
    ≡ Sync.main two_urls
        (asks_for_host net)
        from_host_order
        (replicate 513 0)
        []
        ((0 ∷ []) ∷ (53 ∷ []) ∷ [])
main-main_example =
    main-main two_urls net from_host_order (replicate 513 0) [] (0 ∷ []) (53 ∷ []) page (proxy 53)
      refl refl
      (inl (
        version_5,
        inl (refl, (omega arith, omega (arith, port_80))),
        omega arith,
        inr script-FailsByEof,
        script-IsLawful,
        refl,
      ))
      (fails 95) (fails 1)
