-- ===== src/V4/Connect.antt =====
-- include/boost/socks/impl/connect_v4.hpp: `connect_v4`, and the coroutine `connect_v4_op` of
-- `async_connect_v4`. A `std::vector` of bytes starts with zeros.
pub mod Session
pub mod Agrees
use socks.Base.{
  ℕ, zero, suc, ◌+◌, Bool, not, ◌&&◌, Option, none, some, List, [], length, take, replicate, ◌==◌,
  ◌!=◌, if◌then◌else◌,
}
use socks.Base.Memory.{overlay}
use socks.Base.Access.{◌>>=◌, ◌>>◌, assert}
use socks.Error.{ErrorCode, no_error, make_error_code, failed, is_eof, bad_reply_size}
use socks.Endpoint.{Address, Endpoint, no_endpoint}
use socks.Stream.{SyncStream}
use socks.V4.Request.{prepare_request_v4}
use socks.V4.Reply.{parse_reply_v4}

-- Where `connect_v4_op` is suspended: after the operation that it names.
pub data Coro : Type 0 where
  start wrote_request read_reply done : Coro

pub record ConnectV4Op : Type 0 where
  pub coro : Coro
  pub buf : List ℕ

-- What a resumption starts.
pub data Action : Type 0 where
  async_write : List ℕ → Action
  async_read : ℕ → Action
  complete : ErrorCode → Endpoint → Action

-- The constructor, which prepares the request.
unfoldable pub new_op : Endpoint → List ℕ → Option ConnectV4Op
new_op target_host socks_user = do
  (n, buf) ←
      prepare_request_v4 (9 + length socks_user) target_host socks_user
        (replicate (9 + length socks_user) 0)
  assert (n == length buf)
  some (record { coro = start; buf = buf })

-- The label `complete`: the buffer is freed before the handler is called.
abbrev pub finish : ConnectV4Op → ErrorCode → Endpoint → Option (ConnectV4Op × Action)
finish op ec ep = some (record op { coro = done; buf = [] }, complete ec ep)

unfoldable pub on_reply :
    (ℕ → Address) → ConnectV4Op → ErrorCode → ℕ → Option (ConnectV4Op × Action)
on_reply make_address_v4 op ec n =
    if failed ec && not (is_eof ec)
    then finish op ec no_endpoint
    else if n != 8
    then finish op (make_error_code bad_reply_size) no_endpoint
    else do (ep, ec') ← parse_reply_v4 make_address_v4 n op.buf; finish op ec' ep

-- `operator()`: the body from the label where the coroutine is suspended.
resume_at : (ℕ → Address) → Coro → ConnectV4Op → ErrorCode → ℕ → Option (ConnectV4Op × Action)
resume_at mk start op ec n = some (record op { coro = wrote_request }, async_write op.buf)
resume_at mk wrote_request op ec n =
    if failed ec
    then finish op ec no_endpoint
    else some (record op { coro = read_reply }, async_read 8)
resume_at mk read_reply op ec n = on_reply mk op ec n
resume_at mk done op ec n = none

unfoldable pub resume : (ℕ → Address) → ConnectV4Op → ErrorCode → ℕ → Option (ConnectV4Op × Action)
unfolding resume_at
resume make_address_v4 op ec n = resume_at make_address_v4 op.coro op ec n

module _ (S : SyncStream) (make_address_v4 : ℕ → Address) where
  open S use {State, write, read}

  unfoldable pub connect_v4 : State → Endpoint → List ℕ → Option (State × Endpoint × ErrorCode)
  connect_v4 stream target_host socks_user = do
    (n, buf) ←
        prepare_request_v4 (9 + length socks_user) target_host socks_user
          (replicate (9 + length socks_user) 0)
    assert (n == length buf)
    let (s1, e1) = write stream (take n buf)
    if failed e1 then some (s1, no_endpoint, e1) else do
      let (s2, bytes, e2) = read s1 8
      let buf' = overlay bytes buf
      (if failed e2 && not (is_eof e2)
          then some (s2, no_endpoint, e2)
          else if length bytes != 8
          then some (s2, no_endpoint, make_error_code bad_reply_size)
          else do (ep, ec) ← parse_reply_v4 make_address_v4 (length bytes) buf'; some (s2, ep, ec))

  -- An action is done on the stream, and the coroutine is resumed.
  unfoldable pub act : State → ConnectV4Op → Action → Option (State × ConnectV4Op × Action)
  act s op (async_write bytes) = do
    let (s', e) = write s bytes
    (op', next) ← resume make_address_v4 op e (length bytes)
    some (s', op', next)
  act s op (async_read k) = do
    let (s', got, e) = read s k
    (op', next) ← resume make_address_v4 (record op { buf = overlay got op.buf }) e (length got)
    some (s', op', next)
  act s op (complete ec ep) = some (s, op, complete ec ep)

  abbrev outcome : State → Action → Option (State × Endpoint × ErrorCode)
  outcome s (complete ec ep) = some (s, ep, ec)
  outcome s _ = none

  -- So many actions. `none` is a fault, or that the operation was not completed by then.
  unfoldable pub run : ℕ → State → ConnectV4Op → Action → Option (State × Endpoint × ErrorCode)
  run zero s op next = outcome s next
  run (suc fuel) s op next = do (s', op', next') ← act s op next; run fuel s' op' next'

  -- `async_connect_v4`, driven to its completion: two actions.
  unfoldable pub async_connect_v4 :
      State → Endpoint → List ℕ → Option (State × Endpoint × ErrorCode)
  async_connect_v4 s target_host socks_user = do
    op ← new_op target_host socks_user
    (op', first) ← resume make_address_v4 op no_error 0
    run 2 s op' first
