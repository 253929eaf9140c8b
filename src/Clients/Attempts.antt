-- ===== src/Clients/Attempts.antt =====
-- example/client/sync/socks_client_sync.cpp: `resolve_and_connect_v4`, which tries the endpoints in turn.
use socks.Base.{
  ℕ, ◌≡◌, refl, ◌∙◌, true, Option, some, List, [], ◌∷◌, if◌then◌else◌, Bool-cases, Option-cases,
  inl, inr,
}
use socks.Base.Access.{◌>>=◌}
use socks.Error.{ErrorCode, failed}
use socks.Endpoint.{Address, is_v6, Endpoint, no_endpoint}
use socks.V4.Connect.{connect_v4}
use socks.Clients.{Urls, Network}
use socks.Clients.Sync.{try_each, resolve_and_connect_v4}

abbrev pub v4_only : List Endpoint → List Endpoint
v4_only [] = []
v4_only (ep ∷ eps) = if is_v6 ep.address then v4_only eps else ep ∷ v4_only eps

-- The code before an attempt, when some endpoints were found.
abbrev pub none_found : ErrorCode → List Endpoint → ErrorCode → ErrorCode
none_found host_not_found [] ec = ec
none_found host_not_found (ep ∷ eps) ec = if failed ec then ec else host_not_found

none_found-failed :
    (host_not_found : ErrorCode) (eps : List Endpoint) (ec : ErrorCode)
    → failed ec ≡ true
    → none_found host_not_found eps ec ≡ ec
none_found-failed host_not_found [] ec h = refl
none_found-failed host_not_found (ep ∷ eps) ec h = rw h refl

module _ (urls : Urls) (net : Network) (mk : ℕ → Address) (buffer : List ℕ) where
  open net use {stream, resolve, host_not_found}

  -- Attempts on IPv4 endpoints until one is accepted; the code is that of the last.
  unfoldable pub attempts :
      stream.State
      → List Endpoint
      → ℕ
      → List ℕ
      → ErrorCode
      → Option (stream.State × Endpoint × ErrorCode)
  attempts s [] port user ec = some (s, no_endpoint, ec)
  attempts s (ep ∷ eps) port user ec = do
    (s', bnd, ec') ← connect_v4 stream mk s (record ep { port = port }) user
    if failed ec' then attempts s' eps port user ec' else some (s', bnd, ec')

  try_each-attempts :
      (s : stream.State) (eps : List Endpoint) (port : ℕ) (user : List ℕ) (ec : ErrorCode)
      → failed host_not_found ≡ true
      → try_each urls net mk buffer s eps port user ec
        ≡ attempts s (v4_only eps) port user (none_found host_not_found eps ec)
  unfolding try_each attempts
  try_each-attempts s [] port user ec h = refl
  try_each-attempts s (ep ∷ eps) port user ec h = elim (Bool-cases (is_v6 ep.address)) [
    | inl six ↦ rw six (elim (Bool-cases (failed ec)) [
      | inl e ↦ rw e (
          try_each-attempts s eps port user ec h
          ∙ rw (none_found-failed host_not_found eps ec e) refl)
      | inr e ↦ rw e (
          try_each-attempts s eps port user host_not_found h
          ∙ rw (none_found-failed host_not_found eps host_not_found h) refl)
    ])
    | inr four ↦
        rw four (elim (Option-cases (connect_v4 stream mk s (record ep { port = port }) user)) [
          | inl fault ↦ rw fault refl
          | inr ((s', bnd, ec'), gave) ↦ rw gave (elim (Bool-cases (failed ec')) [
            | inl e ↦ rw e (
                try_each-attempts s' eps port user ec' h
                ∙ rw (none_found-failed host_not_found eps ec' e) refl)
            | inr e ↦ rw e refl
          ])
        ])
  ]

  -- Where the code of "host not found" is an error: `resolve_and_connect_v4` fails with the resolver's error if there
  -- is one; otherwise it tries the IPv4 endpoints found, in order and with the port asked for, until one is
  -- accepted, and never an IPv6 one; and if there are none among those found, it fails with "host not found".
  pub resolve_and_connect_v4-attempts :
      (s : stream.State) (host : List ℕ) (port : ℕ) (user : List ℕ)
      → failed host_not_found ≡ true
      → let (s1, eps, ec) = resolve s host port in
        resolve_and_connect_v4 urls net mk buffer s host port user ≡ (
          if failed ec
          then some (s1, no_endpoint, ec)
          else attempts s1 (v4_only eps) port user (none_found host_not_found eps ec))
  unfolding resolve_and_connect_v4
  resolve_and_connect_v4-attempts s host port user h =
      let (s1, eps, ec) = resolve s host port in rw (try_each-attempts s1 eps port user ec h)
