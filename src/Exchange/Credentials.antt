-- ===== src/Exchange/Credentials.antt =====
-- example/server/async/socks_server_async.cpp: the read of the client's credentials.
use socks.Base.{
  ℕ, zero, suc, ◌≤◌, ◌<◌, ◌≡◌, refl, ap, false, none, some, List, [], ◌∷◌, ◌++◌, length,
  length-append, drop, subst, arith,
}
use socks.Base.Memory.{overlay, length-overlay}
use socks.Error.{no_error, failed}
use socks.Endpoint.{AuthOptions}
use socks.Requests.Layout.{userpass_bytes}
use socks.Stream.Chunks.Ends.{waits, fills}
use socks.Server.{Connection, read_userpass}
use socks.Server.Greeting.{userpass_cond}
use socks.Server.Conditions.{userpass_cond_lem, userpass_cond_total}
use socks.Server.Run.{World, was_read}
use socks.Exchange.{Outside, asked, server_read, advance, settle}
use socks.Exchange.Stages.{settle-none}

never_ends :
    (buf bytes got rest : List ℕ)
    → length buf ≡ 513
    → 1 ∷ bytes ≡ got ++ rest
    → ¬ (userpass_cond (overlay got buf) no_error (length got) ≡ some 0)
unfolding userpass_cond failed
never_ends (x ∷ y ∷ buf) bytes [] rest size same e = ground arith
never_ends (x ∷ y ∷ buf) bytes (b ∷ got) rest size same e =
    let one : b ≡ 1 = ground arith in
    let left = drop (length got) (y ∷ buf) in
    let from_one : userpass_cond (1 ∷ (got ++ left)) no_error (suc (length got)) ≡ some 0 =
      subst (λ v. userpass_cond (v ∷ (got ++ left)) no_error (suc (length got)) ≡ some 0) one e in
    absurd (omega (arith, userpass_cond_lem (got ++ left) (suc (length got)) 0 from_one))
never_ends _ bytes got rest size same e = absurd (omega arith)

abbrev pub awaiting : Connection → World
awaiting c = record {
  connection = c;
  waits_for = read_userpass 513;
  local_endpoint = none;
  sent = (5 ∷ 2 ∷ []) ∷ [];
  joined = false;
}

module _ (o : Outside) (c : Connection) (opt : AuthOptions) (size : length c.buffer ≡ 513)
    (fits : length (userpass_bytes opt) ≤ 513) where
  goes :
      (got rest : List ℕ)
      → userpass_bytes opt ≡ got ++ rest
      → (more : ℕ) × (asked (awaiting c) got ≡ some (suc more))
  goes got rest same =
      let room : length got ≤ 513 = omega (arith, ap length same, length-append got rest) in
      let whole : length (overlay got c.buffer) ≡ 513 =
        omega (arith, length-overlay got c.buffer) in
      let (v, e) = userpass_cond_total (overlay got c.buffer) no_error (length got) whole room in
      not_zero v e
    where
      not_zero :
          (v : ℕ)
          → asked (awaiting c) got ≡ some v
          → (more : ℕ) × (asked (awaiting c) got ≡ some (suc more))
      not_zero zero e = absurd (never_ends c.buffer _ got rest size same e)
      not_zero (suc more) e = (more, e)

  still_waiting :
      length (userpass_bytes opt) < 513 → advance o (awaiting c, userpass_bytes opt, []) ≡ none
  still_waiting l =
      rw
        (waits (asked (awaiting c)) (o.server_pace (read_userpass 513)) (userpass_bytes opt) goes
          513 0 [] (userpass_bytes opt) refl l)
        refl

  -- However many operations the server is run for, it waits where the request does not fill the buffer.
  pub settle-userpass_bytes :
      (n : ℕ)
      → length (userpass_bytes opt) < 513
      → settle o n (awaiting c, userpass_bytes opt, []) ≡ (awaiting c, userpass_bytes opt, [])
  settle-userpass_bytes n l = settle-none o n (awaiting c, userpass_bytes opt, []) (still_waiting l)

  pub filled :
      length (userpass_bytes opt) ≡ 513
      → server_read (o.server_pace (read_userpass 513)) 513 (awaiting c) (userpass_bytes opt)
        ≡ some (was_read no_error (userpass_bytes opt), [], [])
  filled l =
      rw
        (fills (asked (awaiting c)) (o.server_pace (read_userpass 513)) (userpass_bytes opt) goes
          513 0 [] (userpass_bytes opt) refl l)
        refl
