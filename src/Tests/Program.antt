-- ===== src/Tests/Program.antt =====
-- The example clients on the network of the example server.
use socks.Base.{◌≡◌, refl, some, inr, false, [], ◌∷◌, ◌++◌, replicate, arith}
use socks.Error.{no_error, io_failure}
use socks.Clients.{default_port, get_endpoint_unchecked}
use socks.Clients.Sync
use socks.Clients.Sync.{connect_server}
use socks.Clients.Async
use socks.Exchange.Session.{begun}
use socks.Exchange.Program.{Surroundings, network, ends, main-exchange}
use socks.Tests.Script.{from_host_order, from_host_order-MakesV4}
use socks.Tests.Meeting.{quick}
use socks.Tests.Example.{page, proxy, two_urls, port_80, version_5, fails}

abbrev near : Surroundings
near = record {
  resolve = λ s host port. (s, [], no_error);
  connect = λ s eps. (begun, no_error);
  http_write = λ (w, inbox, outbox) path host version. ((w, inbox ++ path, outbox), no_error);
  http_read = λ s. (s, no_error);
  shutdown = λ s. (s, no_error);
  host_not_found = io_failure 1;
  operation_not_supported = io_failure 95;
  no_protocol_option = io_failure 92;
  is_end_of_stream = λ ec. false;
  is_not_connected = λ ec. false;
}

meets :
    connect_server two_urls (network quick near) from_host_order (replicate 513 0) begun (proxy 53)
    ≡ some (begun, inr no_error)
unfolding connect_server get_endpoint_unchecked default_port
meets = refl

main-exchange_example :
    (Sync.main two_urls
        (network quick near)
        from_host_order
        (replicate 513 0)
        begun
        ((0 ∷ []) ∷ (53 ∷ []) ∷ [])
      ≡ some (ends quick near two_urls from_host_order (replicate 513 0) near.http_write page))
    × (Async.main two_urls (network quick near) from_host_order begun ((0 ∷ []) ∷ (53 ∷ []) ∷ [])
        ≡ some (
            ends quick near two_urls from_host_order
              (replicate 513 0)
              (λ t path host version. near.http_write t host host version)
              page))
main-exchange_example =
    main-exchange quick near two_urls from_host_order (replicate 513 0) begun (0 ∷ []) (53 ∷ [])
      page (proxy 53) (omega arith) refl refl refl (omega arith, omega (arith, port_80)) version_5
      refl meets (fails 95) (fails 1) from_host_order-MakesV4 refl
