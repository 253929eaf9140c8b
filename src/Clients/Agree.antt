-- ===== src/Clients/Agree.antt =====
-- example/client/: the two clients, where they send the CONNECT request.
use socks.Base.{
  ◌<◌, ℕ, ◌≡◌, ◌⊎◌, refl, true, false, ◌||◌, some, List, length, if◌then◌else◌, Option-cases, inl,
  inr,
}
use socks.V4.Connect.{connect_v4}
use socks.V4.Connect.Agrees.{async_connect_v4-connect_v4}
use socks.Base.Access.{◌>>=◌}
use socks.Base.Ensures.{Ensures, Ensures-result}
use socks.Error.{no_error}
use socks.Endpoint.{
  is_v6, Address, AuthOptions, no_auth, with_userpass, IsEndpoint, IsDomain, FitsRequest,
}
use socks.Stream.{IsLawful}
use socks.Connect.{connect_host, connect_domain}
use socks.ConnectOp.Runs.{StatusRead}
use socks.ConnectOp.Agrees.{async_connect_host-connect_host, async_connect_domain-connect_domain}
use socks.Clients.{
  Url, Urls, Network, is_name, is_ipv4, is_ipv6, default_port, get_endpoint_unchecked,
}
use socks.Clients.Sync.{send_connect}
use socks.Clients.Async.{SocksClient, do_socks_connect, on_socks_connected, act}

-- The options that both clients make from the URL of the SOCKS server.
abbrev pub options : Url → AuthOptions
options socks =
    if socks.has_userinfo then with_userpass socks.encoded_user socks.encoded_password else no_auth

-- The URL names a host that a request can hold: a name of at most 255 bytes, or an address; with its port.
abbrev pub HasTarget : Urls → Url → Type 0
HasTarget urls u =
    ((is_name u.host_type ≡ true)
      × IsDomain (record { domain = u.encoded_host; port = default_port u }))
    ⊎ ((is_name u.host_type ≡ false)
        × (is_ipv4 u.host_type || is_ipv6 u.host_type ≡ true)
        × Ensures IsEndpoint (get_endpoint_unchecked urls u))

-- On a lawful stream where reads fail only by the end of the stream, or without credentials in the SOCKS server's URL, with
-- credentials of at most 255 bytes each, a target's URL that names a host which fits a request, SOCKS5 and a buffer
-- of 513 bytes: the operation that the asynchronous client starts to send the CONNECT request leaves the socket
-- as the synchronous client leaves it, and passes the same code on to the callback.
pub do_socks_connect-send_connect :
    (urls : Urls) (net : Network) (mk : ℕ → Address) (buffer : List ℕ) (s : net.stream.State)
    (c : SocksClient)
    → IsLawful net.stream
    → StatusRead net.stream mk (options c.socks)
    → FitsRequest (options c.socks)
    → HasTarget urls c.target
    → c.socks_version ≡ 5
    → length buffer ≡ 513
    → (do (c', a) ← do_socks_connect urls net c; act urls net mk s c' a) ≡ (do
      (s', ec) ← send_connect urls net mk buffer s 5 c.target c.socks
      let (c', a) = on_socks_connected ec c
      some (s', c', a))
unfolding do_socks_connect send_connect act
do_socks_connect-send_connect urls net mk buffer s c law status fits (inl (e, valid)) five whole =
    rw (five, e)
      (rw
        (async_connect_domain-connect_domain net.stream mk
          (record { domain = c.target.encoded_host; port = default_port c.target })
          (options c.socks) s buffer no_error law status valid fits whole)
        (elim (Option-cases (
          connect_domain net.stream mk buffer s c.target.encoded_host (default_port c.target)
            (options c.socks) no_error)) [
              | inl fault ↦ rw fault refl
              | inr (r, gave) ↦ rw gave refl
            ]))
do_socks_connect-send_connect urls net mk buffer s c law status fits (inr (e, f, valid)) five
      whole =
    elim (Option-cases (get_endpoint_unchecked urls c.target)) [
      | inl none_ ↦ rw (five, e, f, none_) refl
      | inr (ep, found) ↦
          rw (five, e, f, found)
            (rw
              (async_connect_host-connect_host net.stream mk ep (options c.socks) s buffer no_error
                law status (Ensures-result valid found) fits whole)
              (elim (Option-cases
                (connect_host net.stream mk buffer s ep (options c.socks) no_error)) [
                  | inl fault ↦ rw fault refl
                  | inr (r, gave) ↦ rw gave refl
                ]))
    ]

-- With SOCKS4 and a target's URL that names an IPv4 address with a valid port, on every stream: the operation that the
-- asynchronous client starts to send the CONNECT request leaves the socket as the synchronous client leaves
-- it, and passes the same code on to the callback.
pub do_socks_connect-send_connect_v4 :
    (urls : Urls) (net : Network) (mk : ℕ → Address) (buffer : List ℕ) (s : net.stream.State)
    (c : SocksClient)
    → is_name c.target.host_type ≡ false
    → is_ipv4 c.target.host_type || is_ipv6 c.target.host_type ≡ true
    → Ensures
        (λ ep. (is_v6 ep.address ≡ false) × (ep.port < 65536))
        (get_endpoint_unchecked urls c.target)
    → c.socks_version ≡ 4
    → (do (c', a) ← do_socks_connect urls net c; act urls net mk s c' a) ≡ (do
      (s', ec) ← send_connect urls net mk buffer s 4 c.target c.socks
      let (c', a) = on_socks_connected ec c
      some (s', c', a))
unfolding do_socks_connect send_connect act
do_socks_connect-send_connect_v4 urls net mk buffer s c e f valid four =
    elim (Option-cases (get_endpoint_unchecked urls c.target)) [
      | inl none_ ↦ rw (four, e, f, none_) refl
      | inr (ep, found) ↦
          let (kind, port) = Ensures-result valid found in
          let user = c.socks.encoded_user in
          rw (four, e, f, found)
            (rw (async_connect_v4-connect_v4 net.stream mk s ep user kind port)
              (elim (Option-cases (connect_v4 net.stream mk s ep user)) [
                | inl fault ↦ rw fault refl
                | inr (r, gave) ↦ rw gave refl
              ]))
    ]
