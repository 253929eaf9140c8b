-- ===== src/Connect/Correct.antt =====
-- include/boost/socks/impl/connect.hpp: what the caller of the synchronous `connect` gets.
use socks.Base.{ℕ, ◌≡◌, sym, ◌∙◌, true, false, some, List, length}
use socks.Error.{ErrorCode, failed}
use socks.Endpoint.{
  Address, Endpoint, no_endpoint, DomainEndpoint, host, named, AuthOptions, IsTarget, FitsRequest,
  IsEndpoint,
}
use socks.Error.{socks_code}
use socks.Requests.Layout.{request_bytes}
use socks.Replies.{MakesV4}
use socks.Replies.Accept.{reply_bytes}
use socks.Stream.{SyncStream, IsLawful}
use socks.Connect.{connect_host, connect_domain}
use socks.Connect.Session.{session_auth, session_condition}
use socks.Connect.Session.Refines.{connect_host-session, connect_domain-session}
use socks.Connect.Session.Sound.{Negotiated, session_total, session_accepted}

module _ (S : SyncStream) (law : IsLawful S) (mk : ℕ → Address) where
  open S use {State, write, read, read_cond}

  -- On a lawful stream, with a valid target, credentials of at most 255 bytes each and a buffer of 513 bytes, `connect` to
  -- an endpoint returns without a fault, and where it returns an error it returns no endpoint.
  pub connect_host_total :
      (ep : Endpoint) (opt : AuthOptions) (s : State) (buf : List ℕ) (ec : ErrorCode)
      → IsTarget (host ep)
      → FitsRequest opt
      → length buf ≡ 513
      → (r : State × Endpoint × ErrorCode) × (connect_host S mk buf s ep opt ec ≡ some r)
        × (failed r.2 ≡ true → r.1 ≡ no_endpoint)
  connect_host_total ep opt s buf ec valid fits whole =
      let (r, run, refused) = session_total S mk s (host ep) opt in
      (r, connect_host-session S law mk ep opt s buf ec valid fits whole ∙ run, refused)

  -- On a lawful stream, with a name of at most 255 bytes, credentials of at most 255 bytes each and a
  -- buffer of 513 bytes, `connect` to a name returns without a fault, and where it returns an error it
  -- returns no endpoint.
  pub connect_domain_total :
      (d : DomainEndpoint) (opt : AuthOptions) (s : State) (buf : List ℕ) (ec : ErrorCode)
      → IsTarget (named d)
      → FitsRequest opt
      → length buf ≡ 513
      → (r : State × Endpoint × ErrorCode) × (connect_domain S mk buf s d.domain d.port opt ec
          ≡ some r)
        × (failed r.2 ≡ true → r.1 ≡ no_endpoint)
  connect_domain_total d opt s buf ec valid fits whole =
      let (r, run, refused) = session_total S mk s (named d) opt in
      (
        r,
        connect_domain-session S law mk d.domain d.port opt s buf ec valid fits whole ∙ run,
        refused,
      )

  -- On a lawful stream, where `make_address_v4` gives the address of a number, with a valid target,
  -- credentials of at most 255 bytes each and a buffer of 513 bytes: when `connect` to an endpoint
  -- returns without an error, the server chose a method that the client offered and accepted the
  -- credentials if it asked for them; and what it answered to the request is a granted reply, whole
  -- and alone, for the endpoint that `connect` returns.
  pub connect_host_accepted :
      (ep : Endpoint) (opt : AuthOptions) (s s' : State) (buf : List ℕ) (ec ec' : ErrorCode)
      (bnd : Endpoint)
      → MakesV4 mk
      → IsTarget (host ep)
      → FitsRequest opt
      → length buf ≡ 513
      → connect_host S mk buf s ep opt ec ≡ some (s', bnd, ec')
      → failed ec' ≡ false
      → let s1 = (session_auth S s opt).0 in
        let s2 = (write s1 (request_bytes (host ep))).0 in
        Negotiated S s opt
        × ((rsv : ℕ) × ((read_cond s2 22 session_condition).1 ≡ reply_bytes rsv bnd)
            × IsEndpoint bnd
            × (ec' ≡ socks_code 0))
  connect_host_accepted ep opt s s' buf ec ec' bnd m valid fits whole e f =
      session_accepted S mk s s' (host ep) opt bnd ec' law m
        (sym (connect_host-session S law mk ep opt s buf ec valid fits whole) ∙ e) f
