-- ===== src/Tests/Script.antt =====
-- Streams and addresses for the tests.
use socks.Base.{ℕ, ◌/◌, ◌%◌, inl, [], ◌==◌, if◌then◌else◌, arith}
use socks.Error.{no_error, io_failure, failed}
use socks.Endpoint.{Address, v4}
use socks.Replies.{MakesV4}
use socks.Stream.{SyncStream, IsLawful}

-- A stream whose reads fail with another error than the end of the stream.
abbrev pub broken : SyncStream
broken = record {
  State = ℕ;
  write = λ s bytes. (s, no_error);
  read = λ s k. (s, [], if k == 0 then no_error else io_failure 104);
  read_cond = λ s k cond. (s, [], if k == 0 then no_error else io_failure 104);
}

pub broken-IsLawful : IsLawful broken
unfolding failed
broken-IsLawful = record {
  read_le = λ s k. omega arith;
  read_full = λ s k f. ground arith;
  read_short = λ s k f. ground arith;
  read_bytes = λ s k. tt;
  read_cond_le = λ s k cond. omega arith;
  read_cond_stops = λ s k cond f. inl (ground arith);
  read_cond_bytes = λ s k cond. tt;
}

-- `make_address_v4` of a number in host order.
abbrev pub from_host_order : ℕ → Address
from_host_order n = v4 (n / 16777216) (n / 65536 % 256) (n / 256 % 256) (n % 256)

pub from_host_order-MakesV4 : MakesV4 from_host_order
from_host_order-MakesV4 a b c d ha hb hc hd = ground arith
