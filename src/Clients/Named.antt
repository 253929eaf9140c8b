-- ===== src/Clients/Named.antt =====
-- example/client/: the two clients over SOCKS4 with a target's URL that has a name, which both resolve themselves. The
-- synchronous client tries the IPv4 endpoints found in turn, the asynchronous one only the first.
use socks.Base.{
  ℕ, ◌<◌, ◌≡◌, ◌⊎◌, refl, sym, subst, ap, true, false, none, some, List, [], ◌∷◌, Bool-cases,
  Option-cases, inl, inr,
}
use socks.Base.Access.{◌>>=◌}
use socks.Error.{failed}
use socks.Endpoint.{Address, is_v6, Endpoint}
use socks.V4.Connect.{connect_v4}
use socks.V4.Connect.Agrees.{async_connect_v4-connect_v4}
use socks.Clients.{Urls, Network, is_name, default_port}
use socks.Clients.Sync.{send_connect}
use socks.Clients.Async.{
  SocksClient, do_socks_connect, on_target_resolved, first_v4, on_socks_connected, act,
}
use socks.Clients.Attempts.{v4_only, attempts, resolve_and_connect_v4-attempts}

-- The endpoints found, at most one of which is IPv4; that one has the port asked for.
abbrev pub AtMostOne : ℕ → List Endpoint → Type 0
AtMostOne port eps =
    ((ep : Endpoint) × (more : List Endpoint) × (eps ≡ ep ∷ more) × (v4_only eps ≡ []))
    ⊎ ((ep : Endpoint) × (v4_only eps ≡ ep ∷ []) × (ep.port ≡ port))

first_v4-v4_only :
    (eps rest : List Endpoint)
    → v4_only eps ≡ rest
    → first_v4 eps ≡ elim rest [ [] ↦ none | ep ∷ more ↦ some ep ]
unfolding first_v4
first_v4-v4_only [] rest e = subst (λ l. none ≡ elim l [ [] ↦ none | ep ∷ more ↦ some ep ]) e refl
first_v4-v4_only (ep ∷ eps) rest e = elim (Bool-cases (is_v6 ep.address)) [
  | inl six ↦ rw six (first_v4-v4_only eps rest (rw six at e))
  | inr four ↦
      subst (λ l. first_v4 (ep ∷ eps) ≡ elim l [ [] ↦ none | ep ∷ more ↦ some ep ]) e (rw four refl)
]

v4_only-kind :
    (eps : List Endpoint) (ep : Endpoint) (more : List Endpoint)
    → v4_only eps ≡ ep ∷ more
    → is_v6 ep.address ≡ false
v4_only-kind [] ep more e = absurd (cc)
v4_only-kind (x ∷ eps) ep more e = elim (Bool-cases (is_v6 x.address)) [
  | inl six ↦ v4_only-kind eps ep more (rw six at e)
  | inr four ↦
      let same : x ∷ v4_only eps ≡ ep ∷ more = rw four at e in
      let first : x ≡ ep = cc same in subst (λ (y : Endpoint). is_v6 y.address ≡ false) first four
]

module _ (urls : Urls) (net : Network) (mk : ℕ → Address) (buffer : List ℕ) where
  open net use {stream, resolve, host_not_found}

  -- With SOCKS4, a target's URL that has a name, a resolver that fails or finds some endpoint and at most one of IPv4, and a code for an unknown
  -- host that is a failure: the two operations that the asynchronous client does to send the CONNECT request leave
  -- the socket as the synchronous client leaves it, and the same code goes on to the callback.
  pub do_socks_connect-send_connect_named :
      (s : stream.State) (c : SocksClient)
      → c.socks_version ≡ 4
      → is_name c.target.host_type ≡ true
      → default_port c.target < 65536
      → (let (s1, eps, ec) = resolve s c.target.encoded_host (default_port c.target) in
          failed ec ≡ false → AtMostOne (default_port c.target) eps)
      → failed host_not_found ≡ true
      → (do
        (c1, a1) ← do_socks_connect urls net c
        (s2, c2, a2) ← act urls net mk s c1 a1
        act urls net mk s2 c2 a2)
        ≡ (do
          (s', ec) ← send_connect urls net mk buffer s 4 c.target c.socks
          let (c', a) = on_socks_connected ec c
          some (s', c', a))
  unfolding do_socks_connect send_connect act on_target_resolved attempts
  do_socks_connect-send_connect_named s c four by_name bound one unknown =
      let port = default_port c.target in
      let user = c.socks.encoded_user in
      let (s1, eps, ec) = resolve s c.target.encoded_host port in
      rw
        (
          four,
          by_name,
          resolve_and_connect_v4-attempts urls net mk buffer s c.target.encoded_host port user
              unknown,
        )
        (elim (Bool-cases (failed ec)) [
          | inl f ↦ rw f (rw f refl)
          | inr f ↦ elim (one f) [
            | inl (x, more, shape, no_v4) ↦
                rw (f, first_v4-v4_only eps [] no_v4, no_v4) (rw (shape, f) (rw unknown refl))
            | inr (ep, only, same) ↦
                rw (f, first_v4-v4_only eps (ep ∷ []) only, only)
                  (let to : record ep { port = port } ≡ ep =
                      ap (λ p. record ep { port = p }) (sym same) in
                    let kind = v4_only-kind eps ep [] only in
                    rw
                      (
                        to,
                        async_connect_v4-connect_v4 stream mk s1 ep user kind
                            (subst (λ p. p < 65536) (sym same) bound),
                      )
                      (elim (Option-cases (connect_v4 stream mk s1 ep user)) [
                        | inl fault ↦ rw fault refl
                        | inr ((s', bnd, ec'), gave) ↦ rw gave (elim (Bool-cases (failed ec')) [
                          | inl g ↦ rw g (rw g refl)
                          | inr g ↦ rw g (rw g refl)
                        ])
                      ]))
          ]
        ])
