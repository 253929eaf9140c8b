-- ===== src/Server/Listen.antt =====
-- example/server/async/socks_server_async.cpp: `main` and the constructor of `socks_server`. The resolver and the
-- acceptor are parameters; the signals and the output are left out.
use socks.Base.{ℕ, Bool, Option, none, some, List, [], ◌∷◌, if◌then◌else◌}
use socks.Base.Access.{◌>>=◌}
use socks.Endpoint.{Endpoint}
use socks.Server.Process.{SocksServer}

-- "localhost" and "1080"
abbrev pub localhost : List ℕ
localhost = 108 ∷ 111 ∷ 99 ∷ 97 ∷ 108 ∷ 104 ∷ 111 ∷ 115 ∷ 116 ∷ []

abbrev pub port_1080 : List ℕ
port_1080 = 49 ∷ 48 ∷ 56 ∷ 48 ∷ []

-- The address and the port to listen on, from the arguments after the program's name. With a number of them other than
-- two the usage is printed too.
unfoldable pub listen_arguments : List (List ℕ) → List ℕ × List ℕ
listen_arguments [] = (localhost, port_1080)
listen_arguments (address ∷ []) = (address, port_1080)
listen_arguments (address ∷ port ∷ more) = (address, port)

-- The endpoints that `resolve` finds, and whether the acceptor can be opened on one; `none` and false are that they
-- throw.
module _ (resolve : List ℕ → List ℕ → Option (List Endpoint)) (opens : Endpoint → Bool) where
  -- `*resolve(...)`
  first : List Endpoint → Option Endpoint
  first [] = none
  first (ep ∷ eps) = some ep

  -- The constructor: where the server listens, with no connection yet.
  unfoldable pub socks_server : List ℕ → List ℕ → Option (Endpoint × SocksServer)
  unfolding first
  socks_server address port = do
    eps ← resolve address port
    listen_endpoint ← first eps
    if opens listen_endpoint then some (listen_endpoint, []) else none

  -- `main`, to `ioc.run()`. What is thrown is caught, and `main` returns `EXIT_SUCCESS` all the same.
  unfoldable pub main : List (List ℕ) → Option (Endpoint × SocksServer)
  unfolding listen_arguments socks_server
  main args = let (address, port) = listen_arguments args in socks_server address port
