-- ===== src/Error.antt =====
-- include/boost/socks/error.hpp and impl/error.ipp: the enumerations `error` and `condition`, and
-- the two categories. A `boost::system::error_code` is a value of `ErrorCode`.
pub mod Conditions
use Prim.Native.String.{String}
use socks.Base.{
  ℕ, List, [], ◌∷◌, Bool, true, false, Option, none, some, ◌==◌, ◌!=◌, ◌&&◌, if◌then◌else◌,
}

-- `enum class error`
pub data Error : Type 0 where
  succeeded general_failure connection_not_allowed_by_ruleset network_unreachable : Error
  host_unreachable connection_refused ttl_expired command_not_supported : Error
  address_type_not_supported : Error
  request_granted request_rejected_or_failed cannot_connect_to_identd_on_the_client : Error
  client_and_identd_report_different_user_ids : Error
  bad_reply_size bad_reply_version bad_server_choice bad_reply_command : Error
  bad_reserved_component bad_address_type access_denied unassigned_reply_code : Error

-- The value of an enumerator; those after `bad_reply_size` count on from 0xA0.
unfoldable pub to_int : Error → ℕ
to_int succeeded = 0x00
to_int general_failure = 0x01
to_int connection_not_allowed_by_ruleset = 0x02
to_int network_unreachable = 0x03
to_int host_unreachable = 0x04
to_int connection_refused = 0x05
to_int ttl_expired = 0x06
to_int command_not_supported = 0x07
to_int address_type_not_supported = 0x08
to_int request_granted = 90
to_int request_rejected_or_failed = 91
to_int cannot_connect_to_identd_on_the_client = 92
to_int client_and_identd_report_different_user_ids = 93
to_int bad_reply_size = 0xA0
to_int bad_reply_version = 0xA1
to_int bad_server_choice = 0xA2
to_int bad_reply_command = 0xA3
to_int bad_reserved_component = 0xA4
to_int bad_address_type = 0xA5
to_int access_denied = 0xA6
to_int unassigned_reply_code = 0xFF

abbrev pub all_errors : List Error
all_errors =
    succeeded ∷ general_failure ∷ connection_not_allowed_by_ruleset ∷ network_unreachable
    ∷ host_unreachable ∷ connection_refused ∷ ttl_expired ∷ command_not_supported
    ∷ address_type_not_supported ∷ request_granted ∷ request_rejected_or_failed
    ∷ cannot_connect_to_identd_on_the_client ∷ client_and_identd_report_different_user_ids
    ∷ bad_reply_size ∷ bad_reply_version ∷ bad_server_choice ∷ bad_reply_command
    ∷ bad_reserved_component ∷ bad_address_type ∷ access_denied ∷ unassigned_reply_code ∷ []

-- The enumerator that a `switch (static_cast<error>(ev))` meets, if there is one.
find_error : List Error → ℕ → Option Error
find_error [] ev = none
find_error (e ∷ es) ev = let rest = find_error es ev in if ev == to_int e then some e else rest

unfoldable pub of_int : ℕ → Option Error
unfolding find_error to_int
of_int ev = find_error all_errors ev

-- `enum class condition`
pub data Condition : Type 0 where
  succeeded reply_error io_error : Condition

abbrev pub to_int_condition : Condition → ℕ
to_int_condition succeeded = 0
to_int_condition reply_error = 1
to_int_condition io_error = 2

abbrev find_condition : ℕ → Option Condition
find_condition cv =
    if cv == 0
    then some Condition.succeeded
    else if cv == 1
    then some reply_error
    else if cv == 2
    then some io_error
    else none

-- The enumerators of the two `switch` statements of the category; `none` is their `default`.
abbrev message_of : Option Error → String
message_of none = "Unassigned"
message_of (some succeeded) = "Succeeded"
message_of (some general_failure) = "General SOCKS server failure"
message_of (some connection_not_allowed_by_ruleset) = "Connection not allowed by ruleset"
message_of (some network_unreachable) = "Network unreachable"
message_of (some host_unreachable) = "Host unreachable"
message_of (some connection_refused) = "Connection refused"
message_of (some ttl_expired) = "TTL expired"
message_of (some command_not_supported) = "Command not supported"
message_of (some address_type_not_supported) = "Address type not supported"
message_of (some request_granted) = "Request granted"
message_of (some request_rejected_or_failed) = "General SOCKS server failure"
message_of (some cannot_connect_to_identd_on_the_client) = "Connection not allowed by ruleset"
message_of (some client_and_identd_report_different_user_ids) = "Network unreachable"
message_of (some bad_reply_size) = "Bad reply size"
message_of (some bad_reply_version) = "Bad reply version"
message_of (some bad_server_choice) = "Bad authentication server choice"
message_of (some bad_reply_command) = "Bad reply command"
message_of (some bad_reserved_component) = "Bad reserved component"
message_of (some bad_address_type) = "Bad address type"
message_of (some access_denied) = "Access denied"
message_of (some unassigned_reply_code) = "Unassigned"

-- `socks_category::message`
unfoldable pub message : ℕ → String
unfolding of_int
message ev = message_of (of_int ev)

-- An error condition: one of the library's, or `{ev, *this}`.
pub data ErrorCondition : Type 0 where
  of_condition : Condition → ErrorCondition
  same_value : ℕ → ErrorCondition

abbrev condition_of : ℕ → Option Error → ErrorCondition
condition_of ev none = same_value ev
condition_of ev (some succeeded) = of_condition Condition.succeeded
condition_of ev (some request_granted) = of_condition Condition.succeeded
condition_of ev (some general_failure) = of_condition reply_error
condition_of ev (some connection_not_allowed_by_ruleset) = of_condition reply_error
condition_of ev (some network_unreachable) = of_condition reply_error
condition_of ev (some host_unreachable) = of_condition reply_error
condition_of ev (some connection_refused) = of_condition reply_error
condition_of ev (some ttl_expired) = of_condition reply_error
condition_of ev (some command_not_supported) = of_condition reply_error
condition_of ev (some address_type_not_supported) = of_condition reply_error
condition_of ev (some request_rejected_or_failed) = of_condition reply_error
condition_of ev (some cannot_connect_to_identd_on_the_client) = of_condition reply_error
condition_of ev (some client_and_identd_report_different_user_ids) = of_condition reply_error
condition_of ev (some unassigned_reply_code) = of_condition reply_error
condition_of ev (some bad_reply_size) = of_condition io_error
condition_of ev (some bad_reply_version) = of_condition io_error
condition_of ev (some bad_server_choice) = of_condition io_error
condition_of ev (some bad_reply_command) = of_condition io_error
condition_of ev (some bad_reserved_component) = of_condition io_error
condition_of ev (some bad_address_type) = of_condition io_error
condition_of ev (some access_denied) = of_condition io_error

-- `socks_category::default_error_condition`
unfoldable pub default_error_condition : ℕ → ErrorCondition
unfolding of_int
default_error_condition ev = condition_of ev (of_int ev)

-- `socks_category::failed`
unfoldable pub category_failed : ℕ → Bool
category_failed ev = ev != 0 && ev != 90

-- `condition_category::message`
unfoldable pub condition_message : ℕ → String
condition_message cv = elim (find_condition cv) [
  | some Condition.succeeded ↦ "SOCKS reply successful"
  | some reply_error ↦ "SOCKS reply with error"
  | some io_error ↦ "I/O error"
  | none ↦ "Unassigned"
]

-- `no_error` is `error_code{}`; `eof` is `asio::error::eof`; `io_failure` is any other error that a
-- stream reports; `socks_code` holds the value of a code of the library's own category.
pub data ErrorCode : Type 0 where
  no_error eof : ErrorCode
  io_failure socks_code : ℕ → ErrorCode

unfoldable pub make_error_code : Error → ErrorCode
unfolding to_int
make_error_code e = socks_code (to_int e)

-- `make_error_condition`
unfoldable pub make_error_condition : Condition → ErrorCondition
make_error_condition c = of_condition c

-- `ec.failed()`
unfoldable pub failed : ErrorCode → Bool
unfolding category_failed
failed no_error = false
failed eof = true
failed (io_failure k) = true
failed (socks_code v) = category_failed v

-- `ec == asio::error::eof`
unfoldable pub is_eof : ErrorCode → Bool
is_eof eof = true
is_eof _ = false

abbrev is_succeeded : ErrorCondition → Bool
is_succeeded (of_condition Condition.succeeded) = true
is_succeeded _ = false

-- `ec == condition::succeeded`, which asks the code's category.
unfoldable pub equals_succeeded : ErrorCode → Bool
unfolding default_error_condition
equals_succeeded (socks_code v) = is_succeeded (default_error_condition v)
equals_succeeded _ = false
