-- ===== src/Codes.antt =====
-- include/boost/socks/detail/: the enumerations of the wire format, their bytes, and the conversions
-- of detail/impl/. An `unsigned` is cast to an 8-bit enumeration by its lowest byte.
pub mod Conversions
use socks.Base.{ℕ, ◌%◌, Bool, ◌==◌, if◌then◌else◌}

-- `enum class version`
pub data Version : Type 0 where
  socks_4 socks_5 : Version

abbrev pub version_byte : Version → ℕ
version_byte socks_4 = 0x04
version_byte socks_5 = 0x05

-- `enum class command`
pub data Command : Type 0 where
  connect bind udp_associate unsupported : Command

abbrev pub command_byte : Command → ℕ
command_byte connect = 0x01
command_byte bind = 0x02
command_byte udp_associate = 0x03
command_byte unsupported = 0xFF

-- `enum class auth_method`
pub data AuthMethod : Type 0 where
  no_authentication gssapi userpass challenge_handshake unassigned challenge_response : AuthMethod
  ssl nds_authentication multi_authentication_framework json_parameter_block : AuthMethod
  private_authentication no_acceptable_method : AuthMethod

abbrev pub auth_method_byte : AuthMethod → ℕ
auth_method_byte no_authentication = 0x00
auth_method_byte gssapi = 0x01
auth_method_byte userpass = 0x02
auth_method_byte challenge_handshake = 0x03
auth_method_byte unassigned = 0x04
auth_method_byte challenge_response = 0x05
auth_method_byte ssl = 0x06
auth_method_byte nds_authentication = 0x07
auth_method_byte multi_authentication_framework = 0x08
auth_method_byte json_parameter_block = 0x09
auth_method_byte private_authentication = 0x80
auth_method_byte no_acceptable_method = 0xFF

-- `enum class address_type`
pub data AddressType : Type 0 where
  ip_v4 domain_name ip_v6 unknown : AddressType

abbrev pub address_type_byte : AddressType → ℕ
address_type_byte ip_v4 = 0x01
address_type_byte domain_name = 0x03
address_type_byte ip_v6 = 0x04
address_type_byte unknown = 0xFF

-- The `switch` returns the cast value, which is the enumerator that it met.
unfoldable pub to_address_type : ℕ → AddressType
to_address_type v =
    if v % 256 == address_type_byte ip_v4
    then ip_v4
    else if v % 256 == address_type_byte domain_name
    then domain_name
    else if v % 256 == address_type_byte ip_v6
    then ip_v6
    else unknown

-- `enum class reply_code`
pub data ReplyCode : Type 0 where
  succeeded general_failure connection_not_allowed_by_ruleset network_unreachable : ReplyCode
  host_unreachable connection_refused ttl_expired command_not_supported : ReplyCode
  address_type_not_supported unassigned : ReplyCode

abbrev pub reply_code_byte : ReplyCode → ℕ
reply_code_byte succeeded = 0x00
reply_code_byte general_failure = 0x01
reply_code_byte connection_not_allowed_by_ruleset = 0x02
reply_code_byte network_unreachable = 0x03
reply_code_byte host_unreachable = 0x04
reply_code_byte connection_refused = 0x05
reply_code_byte ttl_expired = 0x06
reply_code_byte command_not_supported = 0x07
reply_code_byte address_type_not_supported = 0x08
reply_code_byte unassigned = 0xFF

unfoldable pub to_reply_code : ℕ → ReplyCode
to_reply_code v =
    let b = v % 256 in
    if b == reply_code_byte succeeded
    then succeeded
    else if b == reply_code_byte general_failure
    then general_failure
    else if b == reply_code_byte connection_not_allowed_by_ruleset
    then connection_not_allowed_by_ruleset
    else if b == reply_code_byte network_unreachable
    then network_unreachable
    else if b == reply_code_byte host_unreachable
    then host_unreachable
    else if b == reply_code_byte connection_refused
    then connection_refused
    else if b == reply_code_byte ttl_expired
    then ttl_expired
    else if b == reply_code_byte command_not_supported
    then command_not_supported
    else if b == reply_code_byte address_type_not_supported
    then address_type_not_supported
    else ReplyCode.unassigned

-- `enum class reply_code_v4`
pub data ReplyCodeV4 : Type 0 where
  request_granted request_rejected_or_failed : ReplyCodeV4
  cannot_connect_to_identd_on_the_client client_and_identd_report_different_user_ids : ReplyCodeV4
  unassigned : ReplyCodeV4

abbrev pub reply_code_v4_byte : ReplyCodeV4 → ℕ
reply_code_v4_byte request_granted = 90
reply_code_v4_byte request_rejected_or_failed = 91
reply_code_v4_byte cannot_connect_to_identd_on_the_client = 92
reply_code_v4_byte client_and_identd_report_different_user_ids = 93
reply_code_v4_byte unassigned = 0xFF

unfoldable pub to_reply_code_v4 : ℕ → ReplyCodeV4
to_reply_code_v4 v =
    let b = v % 256 in
    if b == reply_code_v4_byte request_granted
    then request_granted
    else if b == reply_code_v4_byte request_rejected_or_failed
    then request_rejected_or_failed
    else if b == reply_code_v4_byte cannot_connect_to_identd_on_the_client
    then cannot_connect_to_identd_on_the_client
    else if b == reply_code_v4_byte client_and_identd_report_different_user_ids
    then client_and_identd_report_different_user_ids
    else ReplyCodeV4.unassigned
