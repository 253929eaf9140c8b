-- ===== src/ConnectOp.antt =====
-- include/boost/socks/impl/connect.hpp: `connect_op`, the asynchronous `connect` through a SOCKS5
-- server. Each resumption of the coroutine runs to its next yield, where it starts one operation on
-- the stream, or to its completion.
pub mod Resumes
pub mod Runs
pub mod Agrees
use socks.Base.{
  ℕ, zero, suc, Bool, true, false, not, ◌&&◌, ◌||◌, Option, none, some, List, [], length, take,
  replicate, ltb, ◌==◌, ◌!=◌, if◌then◌else◌,
}
use socks.Base.Memory.{overlay}
use socks.Base.Access.{◌>>=◌, ◌>>◌, assert, read_at}
use socks.Error.{ErrorCode, no_error, failed, is_eof, make_error_code, bad_reply_size}
use socks.Codes.{auth_method_byte, AuthMethod}
use socks.Endpoint.{
  Address, Endpoint, no_endpoint, DomainEndpoint, Target, host, named, AuthOptions,
}
use socks.Requests.{prepare_greeting, prepare_userpass_request, prepare_request}
use socks.Replies.{validate_userpass_reply, validate_server_choice, read_reply_cond, parse_reply_v5}
use socks.Stream.{SyncStream}

-- Where the coroutine is suspended: after the operation that it names.
pub data Coro : Type 0 where
  start wrote_greeting read_choice wrote_userpass read_status wrote_request read_reply done : Coro

pub record ConnectOp : Type 0 where
  pub coro : Coro
  pub buf : List ℕ
  pub target : Target
  pub opt : AuthOptions

-- What a resumption starts: an operation of Asio, whose completion resumes the coroutine, or the call
-- of the completion handler.
pub data Action : Type 0 where
  async_write : List ℕ → Action
  async_read : ℕ → Action
  async_read_reply : Action
  complete : ErrorCode → Endpoint → Action

-- `buf_(513, 0x00, a)`
fresh_buffer : List ℕ
fresh_buffer = replicate 513 0

-- The constructor.
unfoldable pub new_op : Target → AuthOptions → ConnectOp
unfolding fresh_buffer
new_op target opt = record { coro = start; buf = fresh_buffer; target = target; opt = opt }

-- The label `complete`: the buffer is freed before the handler is called.
abbrev pub finish : ConnectOp → ErrorCode → Endpoint → Option (ConnectOp × Action)
finish op ec ep = some (record op { coro = done; buf = [] }, complete ec ep)

unfoldable pub send_greeting : ConnectOp → Option (ConnectOp × Action)
send_greeting op = do
  (n, buf) ← prepare_greeting (length op.buf) op.opt op.buf
  assert (ltb 2 n)
  some (record op { coro = wrote_greeting; buf = buf }, async_write (take n buf))

unfoldable pub send_userpass : ConnectOp → Option (ConnectOp × Action)
send_userpass op = do
  (n, buf) ← prepare_userpass_request (length op.buf) op.opt op.buf
  some (record op { coro = wrote_userpass; buf = buf }, async_write (take n buf))

unfoldable pub send_request : ConnectOp → Option (ConnectOp × Action)
send_request op = do
  (n, buf) ← prepare_request (length op.buf) op.target op.buf
  some (record op { coro = wrote_request; buf = buf }, async_write (take n buf))

unfoldable pub on_choice : ConnectOp → ErrorCode → ℕ → Option (ConnectOp × Action)
on_choice op ec n = do
  ec' ←
      (if not (failed ec) || is_eof ec then validate_server_choice n op.opt ec op.buf else some ec)
  if failed ec' then finish op ec' no_endpoint else do
    choice ← read_at op.buf 1
    if choice == auth_method_byte AuthMethod.userpass then send_userpass op else send_request op

-- The status is checked whatever the read reported.
unfoldable pub on_status : ConnectOp → ErrorCode → ℕ → Option (ConnectOp × Action)
on_status op ec n = do
  ec' ← validate_userpass_reply n ec op.buf
  if failed ec' && not (is_eof ec') then finish op ec' no_endpoint else send_request op

unfoldable pub on_reply : (ℕ → Address) → ConnectOp → ErrorCode → ℕ → Option (ConnectOp × Action)
on_reply make_address_v4 op ec n =
    if failed ec && not (is_eof ec)
    then finish op ec no_endpoint
    else if n != 10 && n != 22
    then finish op (make_error_code bad_reply_size) no_endpoint
    else do (ep, ec') ← parse_reply_v5 make_address_v4 n op.buf; finish op ec' ep

-- The body from the label `coro` on. A completed coroutine is not resumed.
resume_at : (ℕ → Address) → Coro → ConnectOp → ErrorCode → ℕ → Option (ConnectOp × Action)
resume_at mk start op ec n = send_greeting op
resume_at mk wrote_greeting op ec n =
    if failed ec
    then finish op ec no_endpoint
    else some (record op { coro = read_choice }, async_read 2)
resume_at mk read_choice op ec n = on_choice op ec n
resume_at mk wrote_userpass op ec n =
    if failed ec
    then finish op ec no_endpoint
    else some (record op { coro = read_status }, async_read 2)
resume_at mk read_status op ec n = on_status op ec n
resume_at mk wrote_request op ec n =
    if failed ec
    then finish op ec no_endpoint
    else some (record op { coro = read_reply }, async_read_reply)
resume_at mk read_reply op ec n = on_reply mk op ec n
resume_at mk done op ec n = none

-- `operator()(self, ec, n)`
unfoldable pub resume : (ℕ → Address) → ConnectOp → ErrorCode → ℕ → Option (ConnectOp × Action)
unfolding resume_at
resume make_address_v4 op ec n = resume_at make_address_v4 op.coro op ec n

module _ (S : SyncStream) (make_address_v4 : ℕ → Address) where
  open S use {State, write, read, read_cond}

  -- The event loop, for this operation: the action is done on the stream, its bytes are put in the
  -- buffer, and the coroutine is resumed. After the call of the handler nothing is left to do.
  unfoldable pub act : State → ConnectOp → Action → Option (State × ConnectOp × Action)
  act s op (async_write bytes) = do
    let (s', e) = write s bytes
    (op', next) ← resume make_address_v4 op e (length bytes)
    some (s', op', next)
  act s op (async_read k) = do
    let (s', got, e) = read s k
    (op', next) ← resume make_address_v4 (record op { buf = overlay got op.buf }) e (length got)
    some (s', op', next)
  act s op async_read_reply = do
    let (s', got, e) = read_cond s 22 (λ got e. read_reply_cond (overlay got op.buf) e (length got))
    (op', next) ← resume make_address_v4 (record op { buf = overlay got op.buf }) e (length got)
    some (s', op', next)
  act s op (complete ec ep) = some (s, op, complete ec ep)

  abbrev outcome : State → Action → Option (State × Endpoint × ErrorCode)
  outcome s (complete ec ep) = some (s, ep, ec)
  outcome s _ = none

  -- So many actions. `none` is a fault, or that the operation was not completed by then.
  unfoldable pub run : ℕ → State → ConnectOp → Action → Option (State × Endpoint × ErrorCode)
  run zero s op next = outcome s next
  run (suc fuel) s op next = do (s', op', next') ← act s op next; run fuel s' op' next'

  -- `async_connect_any`, driven to its completion: at most six actions.
  unfoldable pub async_connect_any :
      State → Target → AuthOptions → Option (State × Endpoint × ErrorCode)
  async_connect_any s target opt = do
    (op, first) ← resume make_address_v4 (new_op target opt) no_error 0
    run 6 s op first

  -- The two overloads of `async_connect`.
  unfoldable pub async_connect_host :
      State → Endpoint → AuthOptions → Option (State × Endpoint × ErrorCode)
  async_connect_host s target_host opt = async_connect_any s (host target_host) opt

  unfoldable pub async_connect_domain :
      State → List ℕ → ℕ → AuthOptions → Option (State × Endpoint × ErrorCode)
  async_connect_domain s app_domain app_port opt =
      async_connect_any s (named (record { domain = app_domain; port = app_port })) opt
