-- ===== src/Server/Run/Invariant.antt =====
-- example/server/async/socks_server_async.cpp: what holds of a connection in every state that it can reach.
use socks.Base.{ℕ, ◌≤◌, ◌≡◌, ◌⊎◌, Bool, true, Option, none, some, List, [], ◌∷◌, length, get_or}
use socks.Endpoint.{Endpoint}
use socks.Server.{
  Connection, Action, write_choice, write_status, write_reply, write_reply_v4, read_greeting,
  read_userpass, read_request, resolve, connect_target, connect_target_v4, relay, close, stop,
  thrown,
}
use socks.Server.Reply.{granted_bytes}
use socks.Server.Run.{World}

-- What was sent when a request may be read: the choice of no authentication, or the choice of user/pass and
-- the status that accepts the credentials.
abbrev pub Negotiated : List (List ℕ) → Type 0
Negotiated sent = (sent ≡ (5 ∷ 0 ∷ []) ∷ []) ⊎ (sent ≡ (1 ∷ 0 ∷ []) ∷ (5 ∷ 2 ∷ []) ∷ [])

abbrev pub Chosen : ℕ → Type 0
Chosen choice = (choice ≡ 0) ⊎ (choice ≡ 2) ⊎ (choice ≡ 255)

-- A SOCKS5 reply after the negotiation, which grants the request only if the target is connected, and then
-- names the local endpoint of the target socket.
abbrev pub Replied : Option Endpoint → Bool → List ℕ → Type 0
Replied local joined bytes =
    ¬ (get_or bytes 1 0 ≡ 0)
    ⊎ ((joined ≡ true)
        × ((bnd : Endpoint) × (local ≡ some bnd) × (bytes ≡ granted_bytes bnd.address bnd.port)))

abbrev pub RepliedV4 : Bool → List ℕ → Type 0
RepliedV4 joined bytes =
    (2 ≤ length bytes) × (get_or bytes 0 0 ≡ 4) × (¬ (get_or bytes 1 0 ≡ 90) ⊎ (joined ≡ true))

-- The target socket is open.
abbrev pub IsOpen : Option Endpoint → Type 0
IsOpen local = (bnd : Endpoint) × (local ≡ some bnd)

-- What holds while the connection waits for an operation: `sent`, the local endpoint and `joined` are
-- those of the world.
abbrev pub Holds : List (List ℕ) → Option Endpoint → Bool → Connection × Action → Type 0
Holds sent local joined (c, read_greeting k) =
    (k ≡ 258) × (length c.buffer ≡ 258) × (sent ≡ []) × (local ≡ none)
Holds sent local joined (c, write_choice bytes) =
    (bytes ≡ 5 ∷ c.server_choice ∷ []) × Chosen c.server_choice × (sent ≡ []) × (local ≡ none)
Holds sent local joined (c, read_userpass k) =
    (k ≡ 513) × (length c.buffer ≡ 513) × (sent ≡ (5 ∷ 2 ∷ []) ∷ []) × (local ≡ none)
Holds sent local joined (c, write_status bytes) =
    (bytes ≡ 1 ∷ 0 ∷ []) × (sent ≡ (5 ∷ 2 ∷ []) ∷ []) × (local ≡ none)
Holds sent local joined (c, read_request k) =
    (k ≡ 263) × (length c.buffer ≡ 263) × Negotiated sent × (local ≡ none)
Holds sent local joined (c, resolve name port) = Negotiated sent × (local ≡ none)
Holds sent local joined (c, connect_target ep) = (ep ≡ c.target) × Negotiated sent × (local ≡ none)
Holds sent local joined (c, connect_target_v4 ep) = (ep ≡ c.target) × (sent ≡ []) × (local ≡ none)
Holds sent local joined (c, write_reply bytes) =
    (c.buffer ≡ bytes) × Negotiated sent × Replied local joined bytes × IsOpen local
Holds sent local joined (c, write_reply_v4 bytes) =
    (c.buffer ≡ bytes) × (sent ≡ []) × RepliedV4 joined bytes × IsOpen local
Holds sent local joined (c, relay) =
    (joined ≡ true)
    × (((bnd : Endpoint) × (earlier : List (List ℕ)) × (local ≡ some bnd)
          × (sent ≡ granted_bytes bnd.address bnd.port ∷ earlier)
          × Negotiated earlier)
        ⊎ ((bytes : List ℕ) × (sent ≡ bytes ∷ [])
            × (get_or bytes 0 0 ≡ 4)
            × (get_or bytes 1 0 ≡ 90)))
Holds sent local joined (c, close) = Unit
Holds sent local joined (c, stop) = Unit
Holds sent local joined (c, thrown) = ⊥

abbrev pub Valid : World → Type 0
Valid w = Holds w.sent w.local_endpoint w.joined (w.connection, w.waits_for)
