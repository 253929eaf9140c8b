-- ===== src/Clients.antt =====
-- example/client/sync/socks_client_sync.cpp and example/client/async/socks_client_async.cpp: what the two example
-- clients share. Boost.URL, the resolver, `asio::connect` and Boost.Beast are parameters.
pub mod Sync
pub mod Async
pub mod Attempts
pub mod Agree
pub mod Supported
pub mod Targets
pub mod Ends
pub mod Named
pub mod Steps
pub mod Stages
pub mod Alike
use socks.Base.{
  ℕ, ◌≡◌, Bool, true, false, ◌||◌, Option, none, some, ◌⊎◌, inr, List, [], ◌∷◌, ◌==◌, if◌then◌else◌,
}
use socks.Base.Access.{◌>>=◌}
use socks.Error.{ErrorCode, failed}
use socks.Endpoint.{Address, is_v6, Endpoint, IsAddress}
use socks.Stream.{SyncStream}

-- `urls::host_type` and the schemes of `urls::scheme` that the clients compare with.
pub data HostType : Type 0 where
  no_host name ipv4 ipv6 ipvfuture : HostType

pub data SchemeId : Type 0 where
  http https other : SchemeId

-- What the clients ask of a `urls::url_view`.
pub record Url : Type 0 where
  pub scheme : List ℕ
  pub scheme_id : SchemeId
  pub host_type : HostType
  pub encoded_host : List ℕ
  pub has_port : Bool
  pub port_number : ℕ
  pub has_userinfo : Bool
  pub encoded_user : List ℕ
  pub encoded_password : List ℕ
  pub encoded_path : List ℕ

-- Boost.URL, with the value of a default-constructed `urls::url`. A parser of an address gives `none` where its result holds no value.
pub record Urls : Type 0 where
  pub empty_url : Url
  pub parse_uri : List ℕ → Url ⊎ ErrorCode
  pub parse_ipv4_address : List ℕ → Option Address
  pub parse_ipv6_address : List ℕ → Option Address

-- Asio and Beast on one socket, which is the state of `stream`, and the codes of theirs that the clients name.
-- `is_end_of_stream` and `is_not_connected` compare a code with the one so named.
pub record Network : Type 1 where
  pub stream : SyncStream
  pub resolve : stream.State → List ℕ → ℕ → stream.State × List Endpoint × ErrorCode
  pub connect : stream.State → List Endpoint → stream.State × ErrorCode
  pub http_write : stream.State → List ℕ → List ℕ → ℕ → stream.State × ErrorCode
  pub http_read : stream.State → stream.State × ErrorCode
  pub shutdown : stream.State → stream.State × ErrorCode
  pub host_not_found : ErrorCode
  pub operation_not_supported : ErrorCode
  pub no_protocol_option : ErrorCode
  pub is_end_of_stream : ErrorCode → Bool
  pub is_not_connected : ErrorCode → Bool

abbrev pub is_name : HostType → Bool
is_name name = true
is_name _ = false

abbrev pub is_ipv4 : HostType → Bool
is_ipv4 ipv4 = true
is_ipv4 _ = false

abbrev pub is_ipv6 : HostType → Bool
is_ipv6 ipv6 = true
is_ipv6 _ = false

abbrev is_http : SchemeId → Bool
is_http http = true
is_http _ = false

abbrev is_https : SchemeId → Bool
is_https https = true
is_https _ = false

-- `std::string_view::starts_with` and `==`
abbrev pub starts_with : List ℕ → List ℕ → Bool
starts_with text [] = true
starts_with [] (p ∷ prefix) = false
starts_with (c ∷ text) (p ∷ prefix) = if c == p then starts_with text prefix else false

abbrev pub equals : List ℕ → List ℕ → Bool
equals [] [] = true
equals (a ∷ xs) (b ∷ ys) = if a == b then equals xs ys else false
equals _ _ = false

-- "socks"
abbrev pub socks_prefix : List ℕ
socks_prefix = 115 ∷ 111 ∷ 99 ∷ 107 ∷ 115 ∷ []

unfoldable pub default_port : Url → ℕ
default_port u =
    if u.has_port
    then u.port_number
    else if is_http u.scheme_id
    then 80
    else if is_https u.scheme_id
    then 445
    else if starts_with u.scheme socks_prefix
    then 1080
    else u.port_number

-- `none` is that `value()` throws.
unfoldable pub get_endpoint_unchecked : Urls → Url → Option Endpoint
get_endpoint_unchecked urls u =
    if is_ipv4 u.host_type
    then (do
      ip ← urls.parse_ipv4_address u.encoded_host
      some (record { address = ip; port = default_port u }))
    else do
      ip ← urls.parse_ipv6_address u.encoded_host
      some (record { address = ip; port = default_port u })

-- The SOCKS version that the scheme of the server's URL names.
unfoldable pub version_of : List ℕ → Option ℕ
version_of scheme =
    if equals scheme (115 ∷ 111 ∷ 99 ∷ 107 ∷ 115 ∷ 53 ∷ [])
    then some 0x05
    else if equals scheme (115 ∷ 111 ∷ 99 ∷ 107 ∷ 115 ∷ 52 ∷ [])
        || equals scheme (115 ∷ 111 ∷ 99 ∷ 107 ∷ 115 ∷ 52 ∷ 97 ∷ [])
    then some 0x04
    else none

-- What Boost.URL documents: the parser of IPv4 addresses gives IPv4 addresses, and a failed parse gives an error.
pub record IsLawfulUrls (urls : Urls) : Type 0 where
  pub ipv4_kind :
      (host : List ℕ) (a : Address) → urls.parse_ipv4_address host ≡ some a → is_v6 a ≡ false
  pub parse_error :
      (text : List ℕ) (ec : ErrorCode) → urls.parse_uri text ≡ inr ec → failed ec ≡ true
