-- ===== src/Clients/Targets.antt =====
-- example/client/async/socks_client_async.cpp: what the client asks of a SOCKS4 server.
use socks.Base.{
  ℕ, zero, suc, ◌≡◌, Bool, true, false, not, ◌&&◌, ◌||◌, some, inl, inr, List, [], ◌∷◌, ◌==◌,
  if◌then◌else◌, Bool-cases, Option-cases, arith,
}
use socks.Base.Access.{◌>>=◌}
use socks.Base.Ensures.{
  Ensures, faults, gives, Ensures-if, Ensures-bind, Ensures-result, Ensures-then, ensures_rules,
}
use socks.Error.{ErrorCode, failed}
use socks.Endpoint.{Address, is_v6, Endpoint}
use socks.Clients.{Url, Urls, Network, IsLawfulUrls, is_ipv4, is_ipv6, get_endpoint_unchecked}
use socks.Clients.Supported.{Suited, parse_urls-Suited}
use socks.Clients.Async.{
  SocksClient, Action, resolve_proxy, connect_proxy, connect_name, connect_endpoint, resolve_target,
  connect_endpoint_v4, write_page, read_page, idle, do_socks_response, on_written, do_socks_request,
  on_socks_connected, first_v4, on_target_resolved, do_socks_connect, do_proxy_connect,
  on_proxy_connected, on_proxy_resolved, do_proxy_resolve, parse_urls, fresh, start, create,
  on_response, act, run,
}

-- What holds while an operation runs: the endpoint in a SOCKS4 request is an IPv4 one.
abbrev pub Holds : SocksClient × Action → Type 0
Holds (c, idle) = Unit
Holds (c, connect_endpoint_v4 ep user) = Suited c × (is_v6 ep.address ≡ false)
Holds (c, _) = Suited c

not_v6 :
    (c : SocksClient) → c.socks_version == 5 ≡ false → Suited c → is_ipv6 c.target.host_type ≡ false
not_v6 c older (inl five) = absurd (ground arith)
not_v6 c older (inr other) = other

first_v4-v4 : (eps : List Endpoint) → Ensures (λ ep. is_v6 ep.address ≡ false) (first_v4 eps)
unfolding first_v4
first_v4-v4 [] = faults
first_v4-v4 (ep ∷ eps) = elim (Bool-cases (is_v6 ep.address)) [
  | inl e ↦ rw e (first_v4-v4 eps)
  | inr e ↦ rw e (gives e)
]

Holds-if : (b : Bool) (x y : SocksClient × Action) → Holds x → Holds y → Holds (if b then x else y)
Holds-if true x y hx hy = hx
Holds-if false x y hx hy = hy

module _ (urls : Urls) (net : Network) (law : IsLawfulUrls urls) where
  open net use {stream, resolve, connect}

  get_endpoint-v4 :
      (u : Url)
      → is_ipv6 u.host_type ≡ false
      → is_ipv4 u.host_type || is_ipv6 u.host_type ≡ true
      → Ensures (λ ep. is_v6 ep.address ≡ false) (get_endpoint_unchecked urls u)
  unfolding get_endpoint_unchecked
  get_endpoint-v4 u h k =
      let four : is_ipv4 u.host_type ≡ true = ground arith in
      rw four (elim (Option-cases (urls.parse_ipv4_address u.encoded_host)) [
        | inl none_ ↦ rw none_ faults
        | inr (ip, found) ↦ rw found (gives (law.ipv4_kind u.encoded_host ip found))
      ])

  host_v4-Holds :
      (c : SocksClient)
      → Suited c
      → is_ipv6 c.target.host_type ≡ false
      → is_ipv4 c.target.host_type || is_ipv6 c.target.host_type ≡ true
      → Ensures Holds (do
        ep ← get_endpoint_unchecked urls c.target
        some (c, connect_endpoint_v4 ep c.socks.encoded_user))
  host_v4-Holds c h other k =
      Ensures-then (get_endpoint_unchecked urls c.target)
        (λ ep. some (c, connect_endpoint_v4 ep c.socks.encoded_user))
        (get_endpoint-v4 c.target other k)
        (λ ep four. gives {a = (c, connect_endpoint_v4 ep c.socks.encoded_user)} (h, four))

  socks_connect-Holds : (c : SocksClient) → Suited c → Ensures Holds (do_socks_connect urls net c)
  unfolding do_socks_connect
  socks_connect-Holds c h =
      Ensures-if _ _ _ (λ _. search ensures_rules depth 20)
        (λ older.
          let other = not_v6 c older h in search (ensures_rules, host_v4-Holds c h other) depth 20)

  target_resolved-Holds :
      (c : SocksClient) (ec : ErrorCode) (eps : List Endpoint)
      → Suited c
      → Holds (on_target_resolved urls net ec eps c)
  unfolding on_target_resolved
  target_resolved-Holds c ec eps h = elim (Bool-cases (failed ec)) [
    | inl e ↦ rw e tt
    | inr e ↦ rw e (elim (Option-cases (first_v4 eps)) [
      | inl none_ ↦ rw none_ tt
      | inr (ep, found) ↦ rw found (h, Ensures-result (first_v4-v4 eps) found)
    ])
  ]

  act-Holds :
      (mk : ℕ → Address) (s : stream.State) (c : SocksClient) (a : Action)
      → Holds (c, a)
      → Ensures (λ r. Holds (r.1, r.2)) (act urls net mk s c a)
  unfolding act on_proxy_resolved on_proxy_connected on_socks_connected on_written on_response
      do_proxy_connect do_socks_request do_socks_response
  act-Holds mk s c (resolve_proxy host port) h =
      gives (Holds-if (failed (resolve s host port).2) _ _ tt h)
  act-Holds mk s c (connect_proxy eps) h =
      Ensures-then _ _
        (Ensures-if (failed (connect s eps).1) _ _ (λ _. gives tt) (λ _. socks_connect-Holds c h))
        (λ next k. gives k)
  act-Holds mk s c (connect_name host port opt) h =
      Ensures-bind _ _ (λ r. gives (Holds-if (failed r.2) _ _ tt h))
  act-Holds mk s c (connect_endpoint ep opt) h =
      Ensures-bind _ _ (λ r. gives (Holds-if (failed r.2) _ _ tt h))
  act-Holds mk s c (resolve_target host port) h =
      gives (target_resolved-Holds c (resolve s host port).2 (resolve s host port).1 h)
  act-Holds mk s c (connect_endpoint_v4 ep user) (h, _) =
      Ensures-bind _ _ (λ r. gives (Holds-if (failed r.2) _ _ tt h))
  act-Holds mk s c (write_page path host version) h =
      gives (Holds-if (failed (net.http_write s path host version).1) _ _ tt h)
  act-Holds mk s c read_page h =
      let (s1, ec) = net.http_read s in
      let (s2, ec') = net.shutdown s1 in
      gives (
        Holds-if (failed ec && not (net.is_end_of_stream ec)) _ _ tt
          (Holds-if (failed ec' && not (net.is_not_connected ec')) _ _ tt tt))
  act-Holds mk s c idle h = gives tt

  run-Holds :
      (mk : ℕ → Address) (n : ℕ) (s : stream.State) (c : SocksClient) (a : Action)
      → Holds (c, a)
      → Ensures (λ r. Holds (r.1, r.2)) (run urls net mk n s c a)
  unfolding run
  run-Holds mk zero s c a h = gives h
  run-Holds mk (suc n) s c a h =
      Ensures-then _ _ (act-Holds mk s c a h) (λ (s', c', a') k. run-Holds mk n s' c' a' k)

  proxy_resolve-Holds : (c : SocksClient) → Suited c → Ensures Holds (do_proxy_resolve urls net c)
  unfolding do_proxy_resolve do_proxy_connect
  proxy_resolve-Holds c h = search ensures_rules depth 20

  start-Holds :
      (c : SocksClient) → (failed c.ec ≡ false → Suited c) → Ensures Holds (start urls net c)
  unfolding start
  start-Holds c h =
      Ensures-if (failed c.ec) (some (c, idle)) _ (λ _. gives tt)
        (λ ok. proxy_resolve-Holds c (h ok))

  create-Holds :
      (http_version : ℕ) (target socks : List ℕ)
      → failed net.no_protocol_option ≡ true
      → Ensures Holds (create urls net http_version target socks)
  unfolding create
  create-Holds http_version target socks h =
      start-Holds (parse_urls urls net target socks (fresh urls net http_version))
        (parse_urls-Suited urls net law target socks (fresh urls net http_version) h)

  -- Where Boost.URL's parser of IPv4 addresses gives IPv4 addresses, a failed parse of a URL gives an error, and the
  -- code of "no protocol option" is one: whatever the two URLs are and however far the client has come,
  -- the endpoint that it sends to a SOCKS4 server is an IPv4 one.
  pub run-SendsV4 :
      (mk : ℕ → Address) (http_version n : ℕ) (target socks : List ℕ) (s s' : stream.State)
      (c c' : SocksClient) (a : Action) (ep : Endpoint) (user : List ℕ)
      → failed net.no_protocol_option ≡ true
      → create urls net http_version target socks ≡ some (c, a)
      → run urls net mk n s c a ≡ some (s', c', connect_endpoint_v4 ep user)
      → is_v6 ep.address ≡ false
  run-SendsV4 mk http_version n target socks s s' c c' a ep user h begun ran =
      let k = Ensures-result (create-Holds http_version target socks h) begun in
      (Ensures-result (run-Holds mk n s c a k) ran).1
