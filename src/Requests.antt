-- ===== src/Requests.antt =====
-- include/boost/socks/impl/connect.ipp: the functions that write the SOCKS5 requests into the buffer.
pub mod Layout
pub mod Decode
pub mod RoundTrip
pub mod Long
use socks.Base.{
  ℕ, ◌+◌, ◌/◌, ◌%◌, ◌^◌, List, [], ◌∷◌, length, leb, ◌==◌, ◌!=◌, bit_and, if◌then◌else◌,
}
use socks.Base.Memory.{Mem, pure, ◌>>=◌, ◌>>◌, assert, write_at, write_each}
use socks.Codes.{
  version_byte, socks_5, command_byte, connect, address_type_byte, ip_v4, ip_v6, domain_name,
}
use socks.Endpoint.{
  Endpoint, DomainEndpoint, Target, host, named, is_v6, to_bytes, AuthOptions, code,
}

-- `prepare_greeting` over the list of methods
unfoldable pub prepare_greeting_methods : ℕ → List ℕ → Mem ℕ
prepare_greeting_methods n methods = do
  assert (leb (length methods) 255)
  assert (leb (2 + length methods) n)
  write_at 0 (version_byte socks_5)
  write_at 1 (length methods % 256)
  write_each 0 2 methods

-- `prepare_greeting` over the options
unfoldable pub prepare_greeting : ℕ → AuthOptions → Mem ℕ
prepare_greeting n opt =
    let auth_code = code opt in
    if auth_code != 0x00
    then prepare_greeting_methods n (0x00 ∷ auth_code ∷ [])
    else prepare_greeting_methods n (0x00 ∷ [])

unfoldable pub prepare_userpass_request : ℕ → AuthOptions → Mem ℕ
prepare_userpass_request n opt = do
  assert (leb (length opt.user) 255)
  assert (leb (length opt.pass) 255)
  let n2 = length opt.user + length opt.pass + 3
  assert (leb n2 n)
  write_at 0 0x01
  write_at 1 (length opt.user % 256)
  i ← write_each 0 2 opt.user
  write_at i (length opt.user % 256)
  j ← write_each 0 (i + 1) opt.pass
  assert (j == n2)
  pure n2

unfoldable pub write_ver_cmd_rsv : Mem (Unit {0})
write_ver_cmd_rsv = do
  write_at 0 (version_byte socks_5)
  write_at 1 (command_byte connect)
  write_at 2 0x00

-- The port, high byte first.
pub write_port : ℕ → ℕ → ℕ → Mem ℕ
write_port base i port = do
  write_at (base + i) (port / 2 ^ 8 % 256)
  write_at (base + (i + 1)) (bit_and port 0xFF)
  pure (i + 2)

-- `write_target_host(buffer + base, …)` for an endpoint
unfoldable pub write_host : ℕ → Endpoint → Mem ℕ
unfolding write_port
write_host base target_host = do
  write_at (base + 0) (address_type_byte (if is_v6 target_host.address then ip_v6 else ip_v4))
  i ← write_each base 1 (to_bytes target_host.address)
  write_port base i target_host.port

-- `write_target_host(buffer + base, …)` for a domain name
unfoldable pub write_domain : ℕ → DomainEndpoint → Mem ℕ
unfolding write_port
write_domain base target_host = do
  write_at (base + 0) (address_type_byte domain_name)
  write_at (base + 1) (length target_host.domain % 256)
  i ← write_each base 2 target_host.domain
  write_port base i target_host.port

unfoldable pub write_target_host : ℕ → Target → Mem ℕ
write_target_host base (host ep) = write_host base ep
write_target_host base (named d) = write_domain base d

unfoldable pub dst_addr_size : Target → ℕ
dst_addr_size (host ep) = if is_v6 ep.address then 16 else 4
dst_addr_size (named d) = 1 + length d.domain

unfoldable pub prepare_request : ℕ → Target → Mem ℕ
prepare_request n target_host = do
  let n_dst_addr = dst_addr_size target_host
  assert (leb (6 + n_dst_addr) n)
  write_ver_cmd_rsv
  _ ← write_target_host 3 target_host
  pure (n_dst_addr + 6)
