-- ===== src/V4/Connect/Agrees.antt =====
-- include/boost/socks/impl/connect_v4.hpp: `async_connect_v4` against `connect_v4`.
use socks.Base.{ℕ, ◌<◌, ◌≡◌, sym, ◌∙◌, false, List, arith}
use socks.Endpoint.{Address, v4, v6, is_v6, Endpoint}
use socks.Stream.{SyncStream}
use socks.V4.Connect.{connect_v4, async_connect_v4}
use socks.V4.Connect.Session.{connect_v4-session_v4, async_connect_v4-session_v4}

-- On every stream, with an IPv4 endpoint and a valid port, the asynchronous connect, run for two actions, gives what
-- `connect_v4` gives.
pub async_connect_v4-connect_v4 :
    (S : SyncStream) (mk : ℕ → Address) (s : S.State) (ep : Endpoint) (user : List ℕ)
    → is_v6 ep.address ≡ false
    → ep.port < 65536
    → async_connect_v4 S mk s ep user ≡ connect_v4 S mk s ep user
async_connect_v4-connect_v4 S mk s ep user four h = for_address ep.address ep.port four h
  where
    for_address :
        (a : Address) (p : ℕ)
        → is_v6 a ≡ false
        → p < 65536
        → let to : Endpoint = record { address = a; port = p } in
          async_connect_v4 S mk s to user ≡ connect_v4 S mk s to user
    for_address (v4 a b c d) p four h =
        async_connect_v4-session_v4 S mk s p a b c d user h
        ∙ sym (connect_v4-session_v4 S mk s p a b c d user h)
    for_address (v6 bytes) p four h = absurd (ground arith)
