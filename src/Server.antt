-- ===== src/Server.antt =====
-- example/server/async/socks_server_async.cpp: `socks_connection`, the server's side of one client.
-- Each function of the class runs to the operation that it starts on a socket or on the resolver, whose
-- completion calls the next one. `fail` only prints, and is left out.
pub mod Greeting
pub mod Request
pub mod Reply
pub mod Interop
pub mod Conditions
pub mod Relay
pub mod Run
pub mod Process
pub mod Listen
pub mod Misread
use socks.Base.{ℕ, ◌-◌, List, length, take, replicate, ◌++◌}
use socks.Endpoint.{Endpoint}

-- The fields that the protocol uses.
pub record Connection : Type 0 where
  pub buffer : List ℕ
  pub server_choice : ℕ
  pub target : Endpoint

-- The operation that a function starts. `stop` is none: the last reference to the connection goes.
-- `thrown` is none either: a handler threw, the exception left `ioc.run()`, and `main` returns.
pub data Action : Type 0 where
  write_choice write_status write_reply write_reply_v4 : List ℕ → Action
  read_greeting read_userpass read_request : ℕ → Action
  resolve : List ℕ → ℕ → Action
  connect_target connect_target_v4 : Endpoint → Action
  relay close stop thrown : Action

-- `std::vector::resize`
abbrev pub resize : ℕ → List ℕ → List ℕ
resize n buf = take n buf ++ replicate (n - length buf) 0
