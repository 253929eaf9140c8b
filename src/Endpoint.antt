-- ===== src/Endpoint.antt =====
-- include/boost/socks/endpoint.hpp, auth_options.hpp and the endpoint views of impl/connect.hpp.
-- An `asio::ip::tcp::endpoint` is a value: the bytes of its address, in network order, and a port.
use socks.Base.{ℕ, ◌<◌, ◌≤◌, ◌≡◌, Bool, true, false, List, [], ◌∷◌, length, All, if◌then◌else◌}

pub data Address : Type 0 where
  v4 : ℕ → ℕ → ℕ → ℕ → Address
  v6 : List ℕ → Address

abbrev pub is_v6 : Address → Bool
is_v6 (v4 a b c d) = false
is_v6 (v6 bytes) = true

-- `to_v4().to_bytes()` or `to_v6().to_bytes()`
abbrev pub to_bytes : Address → List ℕ
to_bytes (v4 a b c d) = a ∷ b ∷ c ∷ d ∷ []
to_bytes (v6 bytes) = bytes

-- `using endpoint`
pub record Endpoint : Type 0 where
  pub address : Address
  pub port : ℕ

-- `endpoint{}`
abbrev pub no_endpoint : Endpoint
no_endpoint = record { address = v4 0 0 0 0; port = 0 }

-- `struct domain_endpoint_view` and `struct domain_endpoint`; a string is the list of its bytes.
pub record DomainEndpoint : Type 0 where
  pub domain : List ℕ
  pub port : ℕ

-- The two overloads, and the `Endpoint` parameter of `connect_op`.
pub data Target : Type 0 where
  host : Endpoint → Target
  named : DomainEndpoint → Target

abbrev pub IsByte : ℕ → Type 0
IsByte b = b < 256

abbrev pub IsAddress : Address → Type 0
IsAddress (v4 a b c d) = (a < 256) × (b < 256) × (c < 256) × (d < 256)
IsAddress (v6 bytes) = (length bytes ≡ 16) × All IsByte bytes

-- The values that the C++ types can hold.
abbrev pub IsEndpoint : Endpoint → Type 0
IsEndpoint ep = IsAddress ep.address × (ep.port < 65536)

-- A name of at most 255 bytes, which is what its length byte can count.
abbrev pub IsDomain : DomainEndpoint → Type 0
IsDomain d = (length d.domain ≤ 255) × (d.port < 65536)

abbrev pub IsTarget : Target → Type 0
IsTarget (host ep) = IsEndpoint ep
IsTarget (named d) = IsDomain d

-- `struct auth_options`
pub record AuthOptions : Type 0 where
  pub is_userpass : Bool
  pub user : List ℕ
  pub pass : List ℕ

-- `auth_options(none const&)`
abbrev pub no_auth : AuthOptions
no_auth = record { is_userpass = false; user = []; pass = [] }

-- `auth_options(userpass const&)`
abbrev pub with_userpass : List ℕ → List ℕ → AuthOptions
with_userpass user pass = record { is_userpass = true; user = user; pass = pass }

-- `auth_options::code`
abbrev pub code : AuthOptions → ℕ
code opt = if opt.is_userpass then 0x02 else 0x00

-- Credentials that fit the length bytes of the user/pass request.
abbrev pub FitsRequest : AuthOptions → Type 0
FitsRequest opt = (length opt.user ≤ 255) × (length opt.pass ≤ 255)
