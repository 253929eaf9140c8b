-- ===== src/Requests/Decode.antt =====
-- What a server reads from the requests, by RFC 1928 and RFC 1929: decoders that share nothing with
-- the code which writes the bytes.
use socks.Base.{
  ℕ, zero, suc, ◌+◌, ◌*◌, ◌≡◌, ◌↔◌, refl, ◌&&◌, List, [], ◌∷◌, ◌++◌, length, append-nil, arith,
  Option, none, some, inl, inr, Option-cases, sym, ◌==◌, if◌then◌else◌,
}
use socks.Endpoint.{Address, v4, v6, Target, host, named, AuthOptions, IsTarget, IsAddress}
use socks.Requests.Layout.{userpass_bytes, request_bytes, port_bytes}

-- The first `n` bytes and the rest.
pub split_at : ℕ → List ℕ → Option (List ℕ × List ℕ)
split_at zero bs = some ([], bs)
split_at (suc n) [] = none
split_at (suc n) (b ∷ bs) = elim (split_at n bs) [ none ↦ none | some (xs, ys) ↦ some (b ∷ xs, ys) ]

split_at-append : (n : ℕ) (xs ys : List ℕ) → n ≡ length xs → split_at n (xs ++ ys) ≡ some (xs, ys)
unfolding split_at
split_at-append zero [] ys e = refl
split_at-append zero (x ∷ xs) ys e = absurd (omega arith)
split_at-append (suc n) [] ys e = absurd (omega arith)
split_at-append (suc n) (x ∷ xs) ys e = rw (split_at-append n xs ys (omega arith))

pub split_at_parts :
    (n : ℕ) (bs xs ys : List ℕ) → split_at n bs ≡ some (xs, ys) → (n ≡ length xs) × (bs ≡ xs ++ ys)
unfolding split_at
split_at_parts zero bs xs ys e = ground arith
split_at_parts (suc n) [] xs ys e = absurd (cc)
split_at_parts (suc n) (b ∷ bs) xs ys e = elim (Option-cases (split_at n bs)) [
  | inl r ↦ ground arith
  | inr ((us, vs), r) ↦ ground (arith, split_at_parts n bs us vs r)
]

-- A string behind its length.
unfoldable pub counted : List ℕ → Option (List ℕ × List ℕ)
counted [] = none
counted (n ∷ bs) = split_at n bs

-- Exactly a port.
unfoldable pub port_of : List ℕ → Option ℕ
port_of (h ∷ l ∷ []) = some (h * 256 + l)
port_of _ = none

v4_target : List ℕ → Option Target
unfolding port_of
v4_target (a ∷ b ∷ c ∷ d ∷ bs) = elim (port_of bs) [
  | none ↦ none
  | some p ↦ some (host (record { address = v4 a b c d; port = p }))
]
v4_target _ = none

v6_target : Option (List ℕ × List ℕ) → Option Target
unfolding port_of
v6_target none = none
v6_target (some (bytes, bs)) = elim (port_of bs) [
  | none ↦ none
  | some p ↦ some (host (record { address = v6 bytes; port = p }))
]

unfoldable pub named_target : Option (List ℕ × List ℕ) → Option Target
unfolding port_of
named_target none = none
named_target (some (name, bs)) = elim (port_of bs) [
  | none ↦ none
  | some p ↦ some (named (record { domain = name; port = p }))
]

-- VER | CMD | RSV | ATYP | DST.ADDR | DST.PORT with VER 5, CMD 1 and RSV 0: bytes that are one request and no more.
unfoldable pub decode_request : List ℕ → Option Target
unfolding v4_target v6_target named_target
decode_request (ver ∷ cmd ∷ rsv ∷ atyp ∷ bs) =
    if ver == 5 && cmd == 1 && rsv == 0
    then (if atyp == 1
        then v4_target bs
        else if atyp == 3
        then named_target (counted bs)
        else if atyp == 4
        then v6_target (split_at 16 bs)
        else none)
    else none
decode_request _ = none

-- VER | IDLEN | ID | PWLEN | PW with VER 1, and what follows it.
after_user_password : List ℕ → Option (List ℕ × List ℕ) → Option (List ℕ × List ℕ × List ℕ)
after_user_password user none = none
after_user_password user (some (pass, rest)) = some (user, pass, rest)

after_user : Option (List ℕ × List ℕ) → Option (List ℕ × List ℕ × List ℕ)
after_user none = none
after_user (some (user, bs)) = after_user_password user (counted bs)

pub decode_userpass : List ℕ → Option (List ℕ × List ℕ × List ℕ)
decode_userpass [] = none
decode_userpass (ver ∷ bs) = if ver == 1 then after_user (counted bs) else none

-- The server reads back the target that the client was asked to connect to.
pub decode_request-request_bytes :
    (t : Target) → IsTarget t → decode_request (request_bytes t) ≡ some t
unfolding decode_request counted
decode_request-request_bytes (host ep) (h, hp) = host_case ep.address ep.port h
  where
    host_case :
        (a : Address) (p : ℕ)
        → IsAddress a
        → decode_request (request_bytes (host (record { address = a; port = p })))
          ≡ some (host (record { address = a; port = p }))
    host_case (v4 a b c d) p h = ground arith
    host_case (v6 bytes) p h =
        rw (split_at-append 16 bytes (port_bytes p) (sym h.0), v6_target) (ground arith)
decode_request-request_bytes (named d) h =
    rw (split_at-append (length d.domain) d.domain (port_bytes d.port) refl, named_target)
      (ground arith)

password_only :
    (user pass : List ℕ) (r : Option (List ℕ × List ℕ))
    → (after_user_password user r ≡ some (user, pass, [])) ↔ (r ≡ some (pass, []))
unfolding after_user_password
password_only user pass r = ground arith

-- The server reads back the whole credentials exactly when both have the same length.
pub decode_userpass_iff :
    (opt : AuthOptions)
    → (decode_userpass (userpass_bytes opt) ≡ some (opt.user, opt.pass, []))
      ↔ (length opt.user ≡ length opt.pass)
unfolding decode_userpass counted after_user
decode_userpass_iff opt =
    let first : split_at (length opt.user) (opt.user ++ length opt.user ∷ opt.pass)
        ≡ some (opt.user, length opt.user ∷ opt.pass) =
      split_at-append (length opt.user) opt.user (length opt.user ∷ opt.pass) refl in
    rw (first, after_user)
      (
        λ e.
            (split_at_parts (length opt.user) opt.pass opt.pass []
              ((password_only opt.user opt.pass _).0 e)).0,
        λ e.
            (password_only opt.user opt.pass _).1
              (rw append-nil at (split_at-append (length opt.user) opt.pass [] e)),
      )
