-- ===== src/Clients/Stages.antt =====
-- example/client/: the two clients, from the connection to the SOCKS server to the end of the HTTP exchange.
use socks.Base.{
  ℕ, suc, ◌≡◌, ◌⊎◌, refl, ap, ◌∙◌, Bool, true, false, not, ◌&&◌, ◌||◌, Option, some, List, [], ◌∷◌,
  if◌then◌else◌, Option-cases, Bool-cases, inl, inr,
}
use socks.Base.Access.{◌>>=◌}
use socks.Error.{ErrorCode, failed}
use socks.Endpoint.{Address, Endpoint}
use socks.Clients.{Urls, Network, is_name, is_ipv4, is_ipv6, default_port, get_endpoint_unchecked}
use socks.Clients.Sync.{
  Outcome, returns, connect_failed, socks_connect, send_connect, connect_server, request_page,
}
use socks.Clients.Async
use socks.Clients.Async.{
  SocksClient, Action, resolve_proxy, connect_proxy, write_page, idle, do_socks_connect,
  on_socks_connected, act, run, do_proxy_resolve,
}
use socks.Clients.Ends.{run_idle}
use socks.Clients.Steps.{run_later, run_two, run_from, run_step}

-- The network, for a client whose HTTP request asks for the host in place of a path, as `do_socks_request` of the
-- asynchronous client does.
abbrev pub asks_for_host : Network → Network
asks_for_host net = record net {
  http_write = λ s path host version. net.http_write s host host version;
}

and_first : (a b : Bool) → a && b ≡ true → a ≡ true
and_first true b h = refl
and_first false b h = h

module _ (urls : Urls) (net : Network) (mk : ℕ → Address) (buffer : List ℕ) where
  open net use {stream}

  -- The HTTP exchange of the synchronous client.
  abbrev pub page_of : SocksClient → stream.State → stream.State × Outcome
  page_of c s = request_page urls net mk buffer s c.http_version c.target

module _ (urls : Urls) (net : Network) (mk : ℕ → Address) (buffer : List ℕ) where
  open net use {stream}

  -- What `main` makes of a run of the asynchronous client, and of the synchronous one.
  abbrev pub exits : Option (stream.State × SocksClient × Action) → Option (stream.State × Bool)
  exits r = do (s, c, a) ← r; some (s, not (failed c.ec))

  abbrev pub exits_sync : stream.State × Outcome → stream.State × Bool
  exits_sync (s, outcome) = (s, returns outcome)

  page_alike :
      (n : ℕ) (s : stream.State) (c : SocksClient)
      → failed c.ec ≡ false
      → exits (
          run urls net mk
            (suc (suc n))
            s
            c
            (write_page c.target.encoded_host c.target.encoded_host c.http_version))
        ≡ some
            (exits_sync (request_page urls (asks_for_host net) mk buffer s c.http_version c.target))
  unfolding run act request_page Async.on_written Async.do_socks_response Async.on_response
  page_alike n s c good =
      let host = c.target.encoded_host in
      let version = c.http_version in
      let (s1, e1) = net.http_write s host host version in
      let (s2, e2) = net.http_read s1 in
      let (s3, e3) = net.shutdown s2 in
      elim (Bool-cases (failed e1)) [
        | inl w ↦ rw (w, run_idle urls net mk n) (rw w refl)
        | inr w ↦ elim (Bool-cases (failed e2 && not (net.is_end_of_stream e2))) [
          | inl r ↦ rw (w, r, run_idle urls net mk n) (rw (and_first (failed e2) _ r) refl)
          | inr r ↦ elim (Bool-cases (failed e3 && not (net.is_not_connected e3))) [
            | inl d ↦ rw (w, r, d, run_idle urls net mk n) (rw (and_first (failed e3) _ d) refl)
            | inr d ↦ rw (w, r, d, run_idle urls net mk n) (rw good refl)
          ]
        ]
      ]

  -- From the code of the CONNECT request on.
  page_stage :
      (n : ℕ) (s : stream.State) (c : SocksClient) (ec : ErrorCode)
      → failed c.ec ≡ false
      → exits (let (c', a) = on_socks_connected ec c in run urls net mk (suc (suc n)) s c' a)
        ≡ some (
            exits_sync (
              if failed ec
              then (s, socks_connect ec)
              else request_page urls (asks_for_host net) mk buffer s c.http_version c.target))
  unfolding on_socks_connected Async.do_socks_request
  page_stage n s c ec good = elim (Bool-cases (failed ec)) [
    | inl e ↦ rw (e, run_idle urls net mk (suc (suc n))) (rw e refl)
    | inr e ↦ rw e (page_alike n s c good)
  ]

  -- What the synchronous client's CONNECT request makes of the asynchronous client.
  abbrev sent_alike : SocksClient → stream.State → Option (stream.State × SocksClient × Action)
  sent_alike c s = do
    (s', ec) ← send_connect urls net mk buffer s c.socks_version c.target c.socks
    let (c', a) = on_socks_connected ec c
    some (s', c', a)

  -- Both clients send the same CONNECT request: the operation that the asynchronous client starts, or the two, leave the
  -- socket as the synchronous one leaves it, and pass the same code on.
  abbrev pub Sends : SocksClient → Type 0
  Sends c =
      ((s : stream.State)
        → (do (c', a) ← do_socks_connect urls net c; act urls net mk s c' a) ≡ sent_alike c s)
      ⊎ ((s : stream.State)
          → (do
            (c1, a1) ← do_socks_connect urls net c
            (s2, c2, a2) ← act urls net mk s c1 a1
            act urls net mk s2 c2 a2)
            ≡ sent_alike c s)

  -- The run from what the CONNECT request leaves.
  sent_stage :
      (n : ℕ) (s : stream.State) (c : SocksClient)
      → failed c.ec ≡ false
      → exits (do (s', c', a) ← sent_alike c s; run urls net mk (suc (suc n)) s' c' a) ≡ (do
        (s', ec) ← send_connect urls net mk buffer s c.socks_version c.target c.socks
        some (
            exits_sync (
              if failed ec
              then (s', socks_connect ec)
              else request_page urls (asks_for_host net) mk buffer s' c.http_version c.target)))
  sent_stage n s c good =
      elim (Option-cases (send_connect urls net mk buffer s c.socks_version c.target c.socks)) [
        | inl fault ↦ rw fault refl
        | inr ((s', ec), gave) ↦ rw gave (page_stage n s' c ec good)
      ]

  connect_stage :
      (n : ℕ) (s : stream.State) (c : SocksClient)
      → Sends c
      → failed c.ec ≡ false
      → exits (do
        (c', a) ← do_socks_connect urls net c
        run urls net mk (suc (suc (suc (suc n)))) s c' a)
        ≡ (do
          (s', ec) ← send_connect urls net mk buffer s c.socks_version c.target c.socks
          some (
              exits_sync (
                if failed ec
                then (s', socks_connect ec)
                else request_page urls (asks_for_host net) mk buffer s' c.http_version c.target)))
  connect_stage n s c (inl once) good =
      ap exits (run_later urls net mk (suc (suc (suc n))) s (do_socks_connect urls net c))
      ∙ ap (λ r. exits (do (s', c', a) ← r; run urls net mk (suc (suc (suc n))) s' c' a)) (once s)
      ∙ sent_stage (suc n) s c good
  connect_stage n s c (inr twice) good =
      ap exits (run_two urls net mk (suc (suc n)) s (do_socks_connect urls net c))
      ∙ ap (λ r. exits (do (s', c', a) ← r; run urls net mk (suc (suc n)) s' c' a)) (twice s)
      ∙ sent_stage n s c good

  -- What the synchronous client does behind the connection to the SOCKS server, with its HTTP exchange.
  abbrev pub request_and_page :
      (SocksClient → stream.State → stream.State × Outcome)
      → SocksClient
      → stream.State
      → Option (stream.State × Outcome)
  request_and_page page c s = do
    (s', ec) ← send_connect urls net mk buffer s c.socks_version c.target c.socks
    if failed ec then some (s', socks_connect ec) else some (page c s')

  abbrev pub behind_proxy :
      (SocksClient → stream.State → stream.State × Outcome)
      → SocksClient
      → stream.State × (Outcome ⊎ ErrorCode)
      → Option (stream.State × Outcome)
  behind_proxy page c (s, inl outcome) = some (s, outcome)
  behind_proxy page c (s, inr ec) =
      if failed ec then some (s, connect_failed ec) else request_and_page page c s

  module _ (c : SocksClient) (sends : Sends c) (good : failed c.ec ≡ false) where
    connected_stage :
        (n : ℕ) (s : stream.State)
        → exits (do
          (c', a) ← do_socks_connect urls net c
          run urls net mk (suc (suc (suc (suc n)))) s c' a)
          ≡ (do
            o ← request_and_page (page_of urls (asks_for_host net) mk buffer) c s
            some (exits_sync o))
    connected_stage n s =
        connect_stage n s c sends good
        ∙ elim (Option-cases (send_connect urls net mk buffer s c.socks_version c.target c.socks)) [
          | inl fault ↦ rw fault refl
          | inr ((s', ec), gave) ↦ elim (Bool-cases (failed ec)) [
            | inl e ↦ rw (gave, e) refl
            | inr e ↦ rw (gave, e) refl
          ]
        ]

    proxy_stage :
        (n : ℕ) (s : stream.State) (eps : List Endpoint)
        → exits (run urls net mk (suc (suc (suc (suc (suc n))))) s c (connect_proxy eps)) ≡ (do
          o ←
              behind_proxy
                (page_of urls (asks_for_host net) mk buffer)
                c
                ((net.connect s eps).0, inr (net.connect s eps).1)
          some (exits_sync o))
    unfolding act Async.on_proxy_connected
    proxy_stage n s eps =
        let (s1, ec) = net.connect s eps in
        ap exits (run_step urls net mk (suc (suc (suc (suc n)))) s c (connect_proxy eps))
        ∙ elim (Bool-cases (failed ec)) [
          | inl e ↦ rw (e, run_idle urls net mk (suc (suc (suc (suc n))))) (rw e refl)
          | inr e ↦ rw e (
              ap exits
                (run_from urls net mk (suc (suc (suc (suc n)))) s1 (do_socks_connect urls net c))
              ∙ connected_stage n s1)
        ]

    pub resolve_stage :
        (s : stream.State)
        → failed net.operation_not_supported ≡ true
        → exits (do (c', a) ← do_proxy_resolve urls net c; run urls net mk 6 s c' a) ≡ (do
          met ← connect_server urls net mk buffer s c.socks
          o ← behind_proxy (page_of urls (asks_for_host net) mk buffer) c met
          some (exits_sync o))
    unfolding do_proxy_resolve Async.do_proxy_connect connect_server act Async.on_proxy_resolved
    resolve_stage s refused = elim (Bool-cases (is_name c.socks.host_type)) [
      | inl by_name ↦
          let (s1, eps, ec) = net.resolve s c.socks.encoded_host (default_port c.socks) in
          rw by_name (
            ap exits (
              run_step urls net mk 5 s c
                (resolve_proxy c.socks.encoded_host (default_port c.socks)))
            ∙ elim (Bool-cases (failed ec)) [
              | inl e ↦ rw (e, run_idle urls net mk 5) (rw e refl)
              | inr e ↦ rw e (proxy_stage 0 s1 eps)
            ])
      | inr other ↦ elim (Bool-cases (is_ipv4 c.socks.host_type || is_ipv6 c.socks.host_type)) [
        | inl by_address ↦ elim (Option-cases (get_endpoint_unchecked urls c.socks)) [
          | inl fault ↦ rw (other, by_address, fault) refl
          | inr (ep, found) ↦ rw (other, by_address, found) (proxy_stage 1 s (ep ∷ []))
        ]
        | inr neither ↦ rw (other, neither, run_idle urls net mk 6) (rw refused refl)
      ]
    ]
