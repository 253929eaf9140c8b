-- ===== src/ConnectOp/Agrees.antt =====
-- include/boost/socks/impl/connect.hpp: `async_connect` against `connect`.
use socks.Base.{ℕ, ◌≡◌, sym, ◌∙◌, List, length}
use socks.Error.{ErrorCode}
use socks.Endpoint.{
  Address, Endpoint, DomainEndpoint, host, named, AuthOptions, IsTarget, FitsRequest,
}
use socks.Stream.{SyncStream, IsLawful}
use socks.Connect.{connect_host, connect_domain}
use socks.Connect.Session.Refines.{connect_host-session, connect_domain-session}
use socks.ConnectOp.{async_connect_host, async_connect_domain}
use socks.ConnectOp.Runs.{StatusRead, async_connect_any-session}

module _ (S : SyncStream) (mk : ℕ → Address) where
  open S use {State}

  -- On a lawful stream where reads fail only by the end of the stream, or without credentials, and with a
  -- valid endpoint, credentials of at most 255 bytes each and a buffer of 513 bytes, the asynchronous
  -- connect to an endpoint, run for six actions, gives what `connect` gives.
  pub async_connect_host-connect_host :
      (ep : Endpoint) (opt : AuthOptions) (s : State) (buf : List ℕ) (ec : ErrorCode)
      → IsLawful S
      → StatusRead S mk opt
      → IsTarget (host ep)
      → FitsRequest opt
      → length buf ≡ 513
      → async_connect_host S mk s ep opt ≡ connect_host S mk buf s ep opt ec
  unfolding async_connect_host
  async_connect_host-connect_host ep opt s buf ec law status valid fits whole =
      async_connect_any-session S mk s (host ep) opt law status valid fits
      ∙ sym (connect_host-session S law mk ep opt s buf ec valid fits whole)

  -- On a lawful stream where reads fail only by the end of the stream, or without credentials, and with a
  -- name of at most 255 bytes, credentials of at most 255 bytes each and a buffer of 513 bytes, the
  -- asynchronous connect to a name, run for six actions, gives what `connect` gives.
  pub async_connect_domain-connect_domain :
      (d : DomainEndpoint) (opt : AuthOptions) (s : State) (buf : List ℕ) (ec : ErrorCode)
      → IsLawful S
      → StatusRead S mk opt
      → IsTarget (named d)
      → FitsRequest opt
      → length buf ≡ 513
      → async_connect_domain S mk s d.domain d.port opt
        ≡ connect_domain S mk buf s d.domain d.port opt ec
  unfolding async_connect_domain
  async_connect_domain-connect_domain d opt s buf ec law status valid fits whole =
      async_connect_any-session S mk s (named d) opt law status valid fits
      ∙ sym (connect_domain-session S law mk d.domain d.port opt s buf ec valid fits whole)
