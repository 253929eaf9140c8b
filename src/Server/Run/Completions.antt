-- ===== src/Server/Run/Completions.antt =====
-- example/server/async/socks_server_async.cpp: the handlers of a connection, where each has the bytes that it reads.
use socks.Base.{
  ℕ, ◌≤◌, ◌≡◌, refl, ◌⊎◌, inl, inr, Bool, false, Bool-cases, Option, none, some, List, [], ◌∷◌,
  length, get_or, get_elem?-get_or, ◌==◌, ◌&&◌, ◌||◌, if◌then◌else◌, arith,
}
use socks.Base.Memory.{overlay}
use socks.Error.{ErrorCode, failed}
use socks.Endpoint.{Address, v4, v6, Endpoint}
use socks.Server.{Connection, Action, relay, close, stop, write_reply, write_reply_v4}
use socks.Server.Conditions.{resize-overlay}
use socks.Server.Greeting.{greeting_cond}
use socks.Server.Request.{
  request_cond, on_greeting, on_userpass, on_request, on_target, on_target_v4,
}
use socks.Server.Reply.{
  do_connect_reply, do_connect_reply_v4, granted_bytes, on_reply_written, on_reply_v4_written,
}
use socks.Server.Run.Invariant.{Replied}
use socks.Server.Run.Throws.{
  Throws, Throws-if, Throws-read, same, HasLength, connect-Throws, connect_v4-Throws,
  greeting-Throws, userpass-Throws,
}

-- The first read is not over before a byte is there.
pub greeting_nonempty :
    (buf : List ℕ) (ec : ErrorCode) (bytes : List ℕ)
    → length buf ≡ 258
    → failed ec ≡ false
    → (greeting_cond (overlay bytes buf) ec (length bytes) ≡ some 0) ⊎ (length bytes ≡ length buf)
    → 1 ≤ length bytes
unfolding greeting_cond
greeting_nonempty (b0 ∷ b1 ∷ buf) ec [] size ok (inl e) = absurd (ground arith)
greeting_nonempty buf ec [] size ok (inr e) = absurd (omega arith)
greeting_nonempty buf ec (b ∷ bytes) size ok over = omega arith
greeting_nonempty _ ec [] size ok (inl e) = absurd (omega arith)

-- The read of a request that names a host is not over before its length byte is there.
pub request_length :
    (buf : List ℕ) (ec : ErrorCode) (bytes : List ℕ)
    → length buf ≡ 263
    → failed ec ≡ false
    → (request_cond (overlay bytes buf) ec (length bytes) ≡ some 0) ⊎ (length bytes ≡ length buf)
    → (get_or bytes 0 0 ≡ 5)
    → (get_or bytes 1 0 ≡ 1)
    → (get_or bytes 2 0 ≡ 0)
    → (get_or bytes 3 0 ≡ 3)
    → 5 ≤ length bytes
unfolding request_cond
request_length buf ec bytes size ok (inr full) v c r t = omega arith
request_length buf ec (a ∷ b ∷ c ∷ d ∷ e ∷ bytes) size ok (inl over) hv hc hr ht = omega arith
request_length (b0 ∷ b1 ∷ b2 ∷ b3 ∷ b4 ∷ buf) ec (a ∷ b ∷ c ∷ d ∷ []) size ok (inl over) hv hc hr
      ht =
    absurd (ground arith)
request_length _ ec (a ∷ b ∷ c ∷ d ∷ []) size ok (inl over) hv hc hr ht = absurd (omega arith)
request_length buf ec (a ∷ b ∷ c ∷ []) size ok (inl over) hv hc hr ht = absurd (omega arith)
request_length buf ec (a ∷ b ∷ []) size ok (inl over) hv hc hr ht = absurd (omega arith)
request_length buf ec (a ∷ []) size ok (inl over) hv hc hr ht = absurd (omega arith)
request_length buf ec [] size ok (inl over) hv hc hr ht = absurd (omega arith)

module _ (ep : Endpoint) (c : Connection) (ec : ErrorCode) (bytes : List ℕ) where
  abbrev pub read_into : Connection
  read_into = record c { buffer = overlay bytes c.buffer }

  pub on_greeting-Throws :
      (failed ec ≡ false → 1 ≤ length bytes)
      → Throws
          (on_greeting none ec (length bytes) read_into)
          (on_greeting (some ep) ec (length bytes) read_into)
  unfolding on_greeting
  on_greeting-Throws h =
      let c' : Connection = record c { buffer = bytes } in
      elim (Bool-cases (failed ec)) [
        | inl e ↦ rw e (same _)
        | inr e ↦
            rw (e, resize-overlay bytes c.buffer)
              (Throws-read bytes 0 _ _ (h e) (
                Throws-if (get_or bytes 0 0 == 5) _ _ _ _ (λ _. greeting-Throws ep c')
                  (λ _.
                    Throws-if (get_or bytes 0 0 == 4) _ _ _ _ (λ _. connect_v4-Throws ep c')
                      (λ _. same _))))
      ]

  pub on_userpass-Throws :
      Throws (on_userpass ec (length bytes) read_into) (on_userpass ec (length bytes) read_into)
  unfolding on_userpass
  on_userpass-Throws = elim (Bool-cases (failed ec)) [
    | inl e ↦ rw e (same _)
    | inr e ↦
        rw (e, resize-overlay bytes c.buffer) (userpass-Throws ep (record c { buffer = bytes }))
  ]

  pub on_request-Throws :
      (failed ec ≡ false → HasLength ep c bytes)
      → Throws
          (on_request none ec (length bytes) read_into)
          (on_request (some ep) ec (length bytes) read_into)
  unfolding on_request
  on_request-Throws h = elim (Bool-cases (failed ec)) [
    | inl e ↦ rw e (same _)
    | inr e ↦
        rw (e, resize-overlay bytes c.buffer)
          (connect-Throws ep (record c { buffer = bytes }) (h e))
  ]

granted_size : (a : Address) (p : ℕ) → 2 ≤ length (granted_bytes a p)
unfolding granted_bytes
granted_size (v4 a b c d) p = omega arith
granted_size (v6 bytes) p = omega arith

pub length-Replied :
    (local : Option Endpoint) (joined : Bool) (bytes : List ℕ)
    → Replied local joined bytes
    → 2 ≤ length bytes
length-Replied local joined bytes (inr (on, (bnd, named, e))) =
    rw e (granted_size bnd.address bnd.port)
length-Replied local joined [] (inl h) = absurd (h refl)
length-Replied local joined (v ∷ []) (inl h) = absurd (h refl)
length-Replied local joined (v ∷ rep ∷ rest) (inl h) = omega arith

pub reply_written_total :
    (ec : ErrorCode) (c : Connection)
    → 2 ≤ length c.buffer
    → (r : Connection × Action) × (on_reply_written ec c ≡ some r)
unfolding on_reply_written
reply_written_total ec c h = elim (Bool-cases (failed ec)) [
  | inl e ↦ ((c, stop), rw e refl)
  | inr e ↦
      let rep : ℕ = get_or c.buffer 1 0 in
      (
        (c, if rep == 0x00 then relay else close),
        rw (e, get_elem?-get_or c.buffer 1 0 (omega arith)) refl,
      )
]

pub reply_v4_written_total :
    (ec : ErrorCode) (c : Connection)
    → 2 ≤ length c.buffer
    → (r : Connection × Action) × (on_reply_v4_written ec c ≡ some r)
unfolding on_reply_v4_written
reply_v4_written_total ec c h = elim (Bool-cases (failed ec)) [
  | inl e ↦ ((c, stop), rw e refl)
  | inr e ↦
      let v : ℕ = get_or c.buffer 0 0 in
      let rep : ℕ = get_or c.buffer 1 0 in
      (
        (c, if (v == 0x05 && rep == 0x00) || (v == 0x04 && rep == 90) then relay else close),
        rw
            (
              e,
              get_elem?-get_or c.buffer 0 0 (omega arith),
              get_elem?-get_or c.buffer 1 0 (omega arith),
            )
            refl,
      )
]

-- The handler of the connection: it throws if the target socket is not open, and else replies.
pub target_throws : (ec : ErrorCode) (c : Connection) → on_target none ec c ≡ none
unfolding on_target do_connect_reply
target_throws ec c = refl

pub target_replies :
    (local : Endpoint) (ec : ErrorCode) (c : Connection)
    → (c' : Connection) × (bytes : List ℕ) × (on_target (some local) ec c
        ≡ some (c', write_reply bytes))
unfolding on_target do_connect_reply
target_replies local ec c = (_, _, refl)

pub target_v4_throws : (ec : ErrorCode) (c : Connection) → on_target_v4 none ec c ≡ none
unfolding on_target_v4 do_connect_reply_v4
target_v4_throws ec c = refl

pub target_v4_replies :
    (local : Endpoint) (ec : ErrorCode) (c : Connection)
    → (c' : Connection) × (bytes : List ℕ) × (on_target_v4 (some local) ec c
        ≡ some (c', write_reply_v4 bytes))
unfolding on_target_v4 do_connect_reply_v4
target_v4_replies local ec c = (_, _, refl)
