-- ===== src/Connect/Session/Messages.antt =====
-- include/boost/socks/impl/connect.hpp: each message in the buffer of 513 bytes, prepared or received.
use socks.Base.{
  ℕ, ◌+◌, ◌≤◌, ◌≡◌, refl, Bool, true, false, not, ◌&&◌, inl, inr, Option, none, some, List, [], ◌∷◌,
  length, drop, get_or-append, ltb, ◌==◌, if◌then◌else◌, Bool-cases, arith, length-append,
}
use socks.Base.Memory.{overlay, length-overlay}
use socks.Base.Access.{◌>>=◌}
use socks.Error.{ErrorCode, failed, is_eof, make_error_code}
use socks.Endpoint.{Target, host, named, AuthOptions, IsTarget, FitsRequest}
use socks.Requests.{prepare_greeting, prepare_userpass_request, prepare_request, dst_addr_size}
use socks.Requests.Layout.{
  greeting_bytes, userpass_bytes, request_bytes, prepare_greeting-Emits,
  prepare_userpass_request-Emits, prepare_request-Emits, dst_addr_size-length,
}
use socks.Replies.{
  validate_userpass_reply, validate_server_choice, validate_server_choice_code, read_reply_cond,
}
use socks.Connect.Session.{choice_result, userpass_result, readable, session_condition}

pub validate_server_choice-overlay :
    (answer buf : List ℕ) (opt : AuthOptions) (ec : ErrorCode)
    → validate_server_choice (length answer) opt ec (overlay answer buf)
      ≡ some (choice_result answer opt ec)
unfolding validate_server_choice validate_server_choice_code choice_result
validate_server_choice-overlay [] buf opt ec = refl
validate_server_choice-overlay (x ∷ []) buf opt ec = refl
validate_server_choice-overlay (b ∷ c ∷ rest) buf opt ec = ground arith

pub validate_userpass_reply-overlay :
    (answer buf : List ℕ) (ec : ErrorCode)
    → validate_userpass_reply (length answer) ec (overlay answer buf)
      ≡ some (userpass_result answer ec)
unfolding validate_userpass_reply userpass_result
validate_userpass_reply-overlay [] buf ec = refl
validate_userpass_reply-overlay (x ∷ []) buf ec = refl
validate_userpass_reply-overlay (b ∷ c ∷ []) buf ec = ground arith
validate_userpass_reply-overlay (b ∷ c ∷ d ∷ rest) buf ec = ground arith

pub condition-overlay :
    (buf got : List ℕ) (e : ErrorCode)
    → read_reply_cond (overlay got buf) e (length got) ≡ session_condition got e
unfolding read_reply_cond
condition-overlay buf got e = elim (Bool-cases (length got == 10)) [
  | inl h ↦ rw (get_or-append got (drop (length got) buf) 3 0 (ground arith))
  | inr h ↦ rw h
]

-- A choice that is not refused came with both of its bytes.
pub choice_taken :
    (answer : List ℕ) (opt : AuthOptions) (e : ErrorCode)
    → failed (if readable e then choice_result answer opt e else e) ≡ false
    → 2 ≤ length answer
unfolding choice_result failed make_error_code
choice_taken [] opt e h = ground arith
choice_taken (x ∷ []) opt e h = ground arith
choice_taken (b ∷ c ∷ rest) opt e h = omega arith

pub greeting_size :
    (opt : AuthOptions)
    → (ltb 2 (length (greeting_bytes opt)) ≡ true) × (length (greeting_bytes opt) ≤ 4)
greeting_size opt = ground arith

pub bind_assoc {ℓ κ μ} :
    {A : Type ℓ} {B : Type κ} {C : Type μ} (x : Option A) (f : A → Option B) (g : B → Option C)
    → (x >>= f >>= g) ≡ (x >>= λ a. f a >>= g)
bind_assoc none f g = refl
bind_assoc (some a) f g = refl

pub not-readable : (e : ErrorCode) → (failed e && not (is_eof e)) ≡ not (readable e)
not-readable e = ground arith

pub request_size : (t : Target) → IsTarget t → length (request_bytes t) ≤ 513
unfolding dst_addr_size
request_size (host ep) h = ground (arith, dst_addr_size-length (host ep) h)
request_size (named d) h = omega (arith, dst_addr_size-length (named d) h)

pub either {ℓ} : {A : Type ℓ} {x : A} (c : Bool) → (if c then x else x) ≡ x
either true = refl
either false = refl

pub checked {ℓ} :
    {A : Type ℓ} (c : Bool) (x : Option A) (y e : A)
    → x ≡ some y
    → (if c then x else some e) ≡ some (if c then y else e)
checked true x y e h = h
checked false x y e h = refl

-- A buffer of 513 bytes stays one when a message of at most 513 bytes is put at its front.
pub whole_buffer :
    (front buf : List ℕ) → length buf ≡ 513 → length front ≤ 513 → length (overlay front buf) ≡ 513
whole_buffer front buf h k = omega (arith, length-overlay front buf (omega arith))

-- Each request is prepared in a buffer of 513 bytes.
pub greeting_ready :
    (opt : AuthOptions) (buf : List ℕ)
    → length buf ≡ 513
    → prepare_greeting 513 opt buf
      ≡ some (length (greeting_bytes opt), overlay (greeting_bytes opt) buf)
greeting_ready opt buf h =
    (prepare_greeting-Emits 513 opt (omega arith)).run buf (omega (arith, greeting_size opt))

pub userpass_ready :
    (opt : AuthOptions) (buf : List ℕ)
    → FitsRequest opt
    → length buf ≡ 513
    → prepare_userpass_request 513 opt buf
      ≡ some (length (userpass_bytes opt), overlay (userpass_bytes opt) buf)
userpass_ready opt buf fits h =
    let size : length opt.user + length opt.pass + 3 ≡ length (userpass_bytes opt) =
      omega (arith, length-append opt.user (length opt.user ∷ opt.pass)) in
    rw (← size) ((prepare_userpass_request-Emits 513 opt fits (omega arith)).run buf (omega arith))

pub userpass_size : (opt : AuthOptions) → FitsRequest opt → length (userpass_bytes opt) ≤ 513
userpass_size opt fits = omega (arith, length-append opt.user (length opt.user ∷ opt.pass))

pub request_ready :
    (t : Target) (buf : List ℕ)
    → IsTarget t
    → length buf ≡ 513
    → prepare_request 513 t buf ≡ some (length (request_bytes t), overlay (request_bytes t) buf)
request_ready t buf valid h =
    (prepare_request-Emits 513 t valid (request_size t valid)).run buf
      (omega (arith, request_size t valid))
