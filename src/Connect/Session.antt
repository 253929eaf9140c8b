-- ===== src/Connect/Session.antt =====
-- The SOCKS5 session as an exchange of messages, with no buffer: what `connect` is to do.
pub mod Messages
pub mod Negotiates
pub mod Refines
pub mod Sound
pub mod Sent
use socks.Base.{
  ℕ, ◌≡◌, Bool, true, false, not, ◌&&◌, ◌||◌, Option, none, some, List, [], ◌∷◌, length, get_or,
  ◌==◌, ◌!=◌, if◌then◌else◌,
}
use socks.Base.Access.{◌>>=◌}
use socks.Error.{
  ErrorCode, failed, is_eof, make_error_code, bad_reply_size, bad_reply_version, bad_server_choice,
  access_denied,
}
use socks.Endpoint.{Address, Endpoint, no_endpoint, Target, AuthOptions, code}
use socks.Requests.Layout.{greeting_bytes, userpass_bytes, request_bytes}
use socks.Replies.{read_reply_cond, parse_reply_v5}
use socks.Stream.{SyncStream}

-- The code that an answer to the greeting leaves.
unfoldable pub choice_result : List ℕ → AuthOptions → ErrorCode → ErrorCode
choice_result (ver ∷ choice ∷ rest) opt ec =
    if ver != 5
    then make_error_code bad_reply_version
    else if choice == code opt || choice == 0
    then ec
    else make_error_code bad_server_choice
choice_result _ opt ec = make_error_code bad_reply_size

-- The code that an answer to the credentials leaves.
unfoldable pub userpass_result : List ℕ → ErrorCode → ErrorCode
userpass_result (ver ∷ status ∷ []) ec =
    if ver != 1
    then make_error_code bad_reply_version
    else if status == 0
    then ec
    else make_error_code access_denied
userpass_result _ ec = make_error_code bad_reply_size

-- An answer is looked at if the read succeeded or met the end of the stream.
abbrev pub readable : ErrorCode → Bool
readable ec = not (failed ec) || is_eof ec

abbrev pub session_condition : List ℕ → ErrorCode → ℕ
session_condition got e = read_reply_cond got e (length got)

module _ (S : SyncStream) where
  open S use {State, write, read, read_cond}

  unfoldable pub session_userpass : State → AuthOptions → State × ErrorCode
  session_userpass s opt =
      let (s1, e1) = write s (userpass_bytes opt) in
      let (s2, answer, e2) = read s1 2 in
      if failed e1 then (s1, e1) else (s2, if readable e2 then userpass_result answer e2 else e2)

  -- What follows the answer to the greeting.
  unfoldable pub session_choice : State → List ℕ → AuthOptions → ErrorCode → State × ErrorCode
  session_choice s answer opt ec =
      if failed ec
      then (s, ec)
      else if get_or answer 1 0 == 2
      then session_userpass s opt
      else (s, ec)

  unfoldable pub session_auth : State → AuthOptions → State × ErrorCode
  session_auth s opt =
      let (s1, e1) = write s (greeting_bytes opt) in
      let (s2, answer, e2) = read s1 2 in
      if failed e1
      then (s1, e1)
      else session_choice s2 answer opt (if readable e2 then choice_result answer opt e2 else e2)

  unfoldable pub session_reply : (ℕ → Address) → State → Option (State × Endpoint × ErrorCode)
  session_reply make_address_v4 s =
      let (s1, answer, e1) = read_cond s 22 session_condition in
      if not (readable e1)
      then some (s1, no_endpoint, e1)
      else if length answer != 10 && length answer != 22
      then some (s1, no_endpoint, make_error_code bad_reply_size)
      else do (ep, ec) ← parse_reply_v5 make_address_v4 (length answer) answer; some (s1, ep, ec)

  unfoldable pub session_request :
      (ℕ → Address) → State → Target → Option (State × Endpoint × ErrorCode)
  session_request make_address_v4 s target =
      let (s1, e1) = write s (request_bytes target) in
      if failed e1 then some (s1, no_endpoint, e1) else session_reply make_address_v4 s1

  -- Greeting, credentials if the server chose them, request, reply.
  unfoldable pub session :
      (ℕ → Address) → State → Target → AuthOptions → Option (State × Endpoint × ErrorCode)
  session make_address_v4 s target opt =
      let (s1, e1) = session_auth s opt in
      if failed e1 then some (s1, no_endpoint, e1) else session_request make_address_v4 s1 target
