-- ===== src/Exchange/Completes.antt =====
-- include/boost/socks/impl/connect.hpp with example/server/async/socks_server_async.cpp: a session without
-- credentials, from the greeting to the server's answer.
use socks.Base.{
  ℕ, ◌≡◌, refl, ◌∙◌, false, some, List, [], length, Bool-cases, inl, inr, if◌then◌else◌,
}
use socks.Error.{ErrorCode, failed, socks_code, make_error_code, bad_reply_size}
use socks.Endpoint.{
  Address, Endpoint, no_endpoint, host, named, DomainEndpoint, AuthOptions, IsTarget, IsEndpoint,
  FitsRequest,
}
use socks.Replies.{MakesV4}
use socks.Connect.{connect_host, connect_domain}
use socks.Connect.Session.Refines.{connect_host-session, connect_domain-session}
use socks.Exchange.{Outside, exchange}
use socks.Exchange.Stages.{threw, answered, settle-host, settle-named, settle-unresolved}
use socks.Exchange.Session.{
  begun, negotiated, greeted, auth_stage, reply_stage, silent_stage, session_stage,
  exchange-IsLawful,
}

module _ (o : Outside) (h : IsEndpoint o.bound) where
  -- Between the client and the example server, with a network that loses nothing and delivers each message in
  -- any parts, a target's side that answers the connection with any error code and with a valid endpoint
  -- `bound`, a `make_address_v4` that gives the address of a number, options without user/pass whose
  -- strings have at most 255 bytes, a valid endpoint and a buffer of 513 bytes: `connect` returns, without an
  -- error and with `bound` if the server's connection to the client's endpoint did not fail, and else with
  -- the code 4 and no endpoint; the server has sent its choice and one reply, and runs the relay if that
  -- connection did not fail, and else closes; and no byte is left unread on either side.
  pub connect_host-exchange :
      (mk : ℕ → Address) (buf : List ℕ) (ep : Endpoint) (opt : AuthOptions) (ec : ErrorCode)
      → MakesV4 mk
      → IsEndpoint ep
      → FitsRequest opt
      → opt.is_userpass ≡ false
      → length buf ≡ 513
      → connect_host (exchange o) mk buf begun ep opt ec
        ≡ some (
          (answered negotiated greeted ep o, [], []),
          if failed o.connect_error then no_endpoint else o.bound,
          socks_code (if failed o.connect_error then 4 else 0),
        )
  connect_host-exchange mk buf ep opt ec m valid fits e whole =
      connect_host-session (exchange o) (exchange-IsLawful o) mk ep opt begun buf ec valid fits
        whole
      ∙ session_stage o mk (host ep) opt _ _ _ (auth_stage o opt e)
          (settle-host o h negotiated greeted refl ep valid)
      ∙ reply_stage o mk (answered negotiated greeted ep o) m h

  -- Between the client and the example server, with a network that loses nothing and delivers each message in
  -- any parts, a resolver that answers with any error code and endpoint `found`, a target's side that answers
  -- the connection with any error code and with a valid endpoint `bound`, a `make_address_v4` that gives
  -- the address of a number, options without user/pass whose strings have at most 255 bytes, a name of
  -- at most 255 bytes with a valid port and a buffer of 513 bytes: if the server's resolver failed, the handler
  -- throws, which ends the server, which has answered nothing, and `connect` returns `bad_reply_size` and no
  -- endpoint; else `connect` returns as for an endpoint, and the server has connected to `found`. No byte is
  -- left unread on either side.
  pub connect_domain-exchange :
      (mk : ℕ → Address) (buf : List ℕ) (d : DomainEndpoint) (opt : AuthOptions) (ec : ErrorCode)
      → MakesV4 mk
      → IsTarget (named d)
      → FitsRequest opt
      → opt.is_userpass ≡ false
      → length buf ≡ 513
      → connect_domain (exchange o) mk buf begun d.domain d.port opt ec ≡ (
          if failed o.resolve_error
          then some
              ((threw negotiated greeted d, [], []), no_endpoint, make_error_code bad_reply_size)
          else some (
            (answered negotiated greeted o.found o, [], []),
            if failed o.connect_error then no_endpoint else o.bound,
            socks_code (if failed o.connect_error then 4 else 0),
          ))
  connect_domain-exchange mk buf d opt ec m valid fits e whole =
      connect_domain-session (exchange o) (exchange-IsLawful o) mk d.domain d.port opt begun buf ec
        valid fits whole
      ∙ elim (Bool-cases (failed o.resolve_error)) [
        | inl f ↦
            session_stage o mk (named d) opt _ _ _ (auth_stage o opt e)
              (settle-unresolved o h negotiated greeted refl d valid f)
            ∙ silent_stage o mk (threw negotiated greeted d)
            ∙ rw f refl
        | inr f ↦
            session_stage o mk (named d) opt _ _ _ (auth_stage o opt e)
              (settle-named o h negotiated greeted refl d valid f)
            ∙ reply_stage o mk (answered negotiated greeted o.found o) m h
            ∙ rw f refl
      ]
