-- ===== src/Server/Run/Throws.antt =====
-- example/server/async/socks_server_async.cpp: where the functions of a connection fault. What a function does while
-- the target socket is not open stands against what it does with an open one.
use socks.Base.{
  ℕ, zero, suc, ◌+◌, ◌-◌, ◌≤◌, ◌<◌, ◌≡◌, refl, Bool, true, false, Option, none, some, List, [], ◌∷◌,
  length, drop, get_elem?-get_or, get_or, ◌==◌, ◌!=◌, ◌||◌, ltb, if◌then◌else◌, arith,
}
use socks.Base.Access.{◌>>=◌, read_at, read_each}
use socks.Error.{ErrorCode, failed}
use socks.Endpoint.{Endpoint}
use socks.Server.{Connection, Action, write_reply, write_reply_v4}
use socks.Server.Greeting.{has, parse_socks_greeting, parse_userpass_greeting}
use socks.Server.Request.{
  parse_ipv4, parse_ipv6, parse_domain, parse_socks_connect, parse_socks_connect_v4, on_resolved,
}
use socks.Server.Reply.{do_connect_reply, do_connect_reply_v4}

-- The two do the same, or the first throws where the second sends a reply. Neither reads out of a buffer.
pub data Throws : Option (Connection × Action) → Option (Connection × Action) → Type 0 where
  same : (r : Connection × Action) → Throws (some r) (some r)
  throws : (c : Connection) (bytes : List ℕ) → Throws none (some (c, write_reply bytes))
  throws_v4 : (c : Connection) (bytes : List ℕ) → Throws none (some (c, write_reply_v4 bytes))

abbrev Handler : Type 0
Handler = Option (Connection × Action)

pub Throws-if :
    (b : Bool) (x y x' y' : Handler)
    → (b ≡ true → Throws x x')
    → (b ≡ false → Throws y y')
    → Throws (if b then x else y) (if b then x' else y')
Throws-if true x y x' y' hx hy = hx refl
Throws-if false x y x' y' hx hy = hy refl

pub Throws-read :
    (buf : List ℕ) (i : ℕ) (f g : ℕ → Handler)
    → i < length buf
    → Throws (f (get_or buf i 0)) (g (get_or buf i 0))
    → Throws (read_at buf i >>= f) (read_at buf i >>= g)
Throws-read buf i f g h rest = rw (get_elem?-get_or buf i 0 h) rest

read_each_total :
    (buf : List ℕ) (i n : ℕ)
    → i + n ≤ length buf
    → (bytes : List ℕ) × (read_each buf i n ≡ some bytes)
read_each_total buf i zero h = ([], refl)
read_each_total buf i (suc n) h =
    let (bytes, e) = read_each_total buf (i + 1) n (omega arith) in
    (get_or buf i 0 ∷ bytes, rw (get_elem?-get_or buf i 0 (omega arith), e) refl)

Throws-each :
    (buf : List ℕ) (i n : ℕ) (f g : List ℕ → Handler)
    → i + n ≤ length buf
    → ((bytes : List ℕ) → Throws (f bytes) (g bytes))
    → Throws (read_each buf i n >>= f) (read_each buf i n >>= g)
Throws-each buf i n f g h rest = let (bytes, e) = read_each_total buf i n h in rw e (rest bytes)

pub reply-Throws :
    (ep : Endpoint) (rep : ℕ) (c : Connection)
    → Throws (do_connect_reply none rep c) (do_connect_reply (some ep) rep c)
unfolding do_connect_reply
reply-Throws ep rep c = throws _ _

reply_v4-Throws :
    (ep : Endpoint) (rep : ℕ) (c : Connection)
    → Throws (do_connect_reply_v4 none rep c) (do_connect_reply_v4 (some ep) rep c)
unfolding do_connect_reply_v4
reply_v4-Throws ep rep c = throws_v4 _ _

module _ (ep : Endpoint) (c : Connection) where
  ipv4-Throws : Throws (parse_ipv4 none c) (parse_ipv4 (some ep) c)
  unfolding parse_ipv4
  ipv4-Throws =
      Throws-if (length c.buffer != 10) _ _ _ _ (λ _. reply-Throws ep 8 c)
        (λ e.
          let size : length c.buffer ≡ 10 = ground arith in
          Throws-read c.buffer 4 _ _ (omega arith) (
            Throws-read c.buffer 5 _ _ (omega arith) (
              Throws-read c.buffer 6 _ _ (omega arith) (
                Throws-read c.buffer 7 _ _ (omega arith) (
                  Throws-read c.buffer 8 _ _ (omega arith)
                    (Throws-read c.buffer 9 _ _ (omega arith) (same _)))))))

  ipv6-Throws : Throws (parse_ipv6 none c) (parse_ipv6 (some ep) c)
  unfolding parse_ipv6
  ipv6-Throws =
      Throws-if (length c.buffer != 22) _ _ _ _ (λ _. reply-Throws ep 8 c)
        (λ e.
          let size : length c.buffer ≡ 22 = ground arith in
          Throws-each c.buffer 4 16 _ _ (omega arith) (λ addr.
            Throws-read c.buffer 20 _ _ (omega arith)
              (Throws-read c.buffer 21 _ _ (omega arith) (same _))))

  domain-Throws : 5 ≤ length c.buffer → Throws (parse_domain none c) (parse_domain (some ep) c)
  unfolding parse_domain
  domain-Throws h =
      let n : ℕ = get_or c.buffer 4 0 in
      Throws-read c.buffer 4 _ _ (omega arith) (
        Throws-if (length c.buffer != 7 + n) _ _ _ _ (λ _. reply-Throws ep 8 c)
          (λ e.
            let size : length c.buffer ≡ 7 + n = ground arith in
            Throws-each c.buffer 5 n _ _ (omega arith) (λ name.
              Throws-read c.buffer (length c.buffer - 2) _ _ (omega arith)
                (Throws-read c.buffer (length c.buffer - 1) _ _ (omega arith) (same _)))))

  -- What the condition of the request's read gives: a request with a name has its length byte.
  abbrev pub HasLength : List ℕ → Type 0
  HasLength buf =
      get_or buf 0 0 ≡ 5
      → get_or buf 1 0 ≡ 1
      → get_or buf 2 0 ≡ 0
      → get_or buf 3 0 ≡ 3
      → 5 ≤ length buf

  pub connect-Throws :
      HasLength c.buffer → Throws (parse_socks_connect none c) (parse_socks_connect (some ep) c)
  unfolding parse_socks_connect
  connect-Throws h =
      let buf = c.buffer in
      let size = length buf in
      Throws-if (size == 0) _ _ _ _ (λ _. same _)
        (λ e0. Throws-read buf 0 _ _ (ground arith) (
          Throws-if (get_or buf 0 0 != 5 || size == 1) _ _ _ _ (λ _. reply-Throws ep 2 c)
            (λ e1. Throws-read buf 1 _ _ (ground arith) (
              Throws-if (get_or buf 1 0 != 1) _ _ _ _ (λ _. reply-Throws ep 7 c)
                (λ e2.
                  Throws-if (size == 2) _ _ _ _ (λ _. reply-Throws ep 2 c)
                    (λ e3. Throws-read buf 2 _ _ (ground arith) (
                      Throws-if (get_or buf 2 0 != 0 || size == 3) _ _ _ _
                        (λ _. reply-Throws ep 2 c)
                        (λ e4. Throws-read buf 3 _ _ (ground arith) (
                          Throws-if (get_or buf 3 0 == 1) _ _ _ _ (λ _. ipv4-Throws)
                            (λ _.
                              Throws-if (get_or buf 3 0 == 4) _ _ _ _ (λ _. ipv6-Throws)
                                (λ _.
                                  Throws-if (get_or buf 3 0 == 3) _ _ _ _
                                    (λ e5. domain-Throws (
                                      h (ground arith) (ground arith) (ground arith)
                                        (ground arith)))
                                    (λ _. reply-Throws ep 8 c))))))))))))

  pub connect_v4-Throws :
      Throws (parse_socks_connect_v4 none c) (parse_socks_connect_v4 (some ep) c)
  unfolding parse_socks_connect_v4
  connect_v4-Throws =
      let buf = c.buffer in
      let size = length buf in
      Throws-if (size == 0) _ _ _ _ (λ _. same _)
        (λ e0. Throws-read buf 0 _ _ (ground arith) (
          Throws-if (get_or buf 0 0 != 4 || size == 1) _ _ _ _ (λ _. reply_v4-Throws ep 91 c)
            (λ e1. Throws-read buf 1 _ _ (ground arith) (
              Throws-if (get_or buf 1 0 != 1 || ltb size 8) _ _ _ _ (λ _. reply_v4-Throws ep 91 c)
                (λ e2.
                  let long : 8 ≤ size = ground arith in
                  Throws-read buf 2 _ _ (omega arith) (
                    Throws-read buf 3 _ _ (omega arith) (
                      Throws-read buf 4 _ _ (omega arith) (
                        Throws-read buf 5 _ _ (omega arith) (
                          Throws-read buf 6 _ _ (omega arith)
                            (Throws-read buf 7 _ _ (omega arith) (same _)))))))))))

  pub greeting-Throws : Throws (parse_socks_greeting c) (parse_socks_greeting c)
  unfolding parse_socks_greeting
  greeting-Throws =
      let buf = c.buffer in
      let size = length buf in
      Throws-if (size == 0) _ _ _ _ (λ _. same _)
        (λ e0. Throws-read buf 0 _ _ (ground arith) (
          Throws-if (get_or buf 0 0 != 5 || size == 1) _ _ _ _ (λ _. same _)
            (λ e1. Throws-read buf 1 _ _ (ground arith) (
              Throws-if (get_or buf 1 0 != size - 2) _ _ _ _ (λ _. same _)
                (λ _.
                  let methods = drop 2 buf in
                  Throws-if (has 2 methods) _ _ _ _ (λ _. same _)
                    (λ _. Throws-if (has 0 methods) _ _ _ _ (λ _. same _) (λ _. same _)))))))

  pub userpass-Throws : Throws (parse_userpass_greeting c) (parse_userpass_greeting c)
  unfolding parse_userpass_greeting
  userpass-Throws =
      let buf = c.buffer in
      let size = length buf in
      let idlen = get_or buf 1 0 in
      Throws-if (size == 0) _ _ _ _ (λ _. same _)
        (λ e0. Throws-read buf 0 _ _ (ground arith) (
          Throws-if (get_or buf 0 0 != 1 || size == 1) _ _ _ _ (λ _. same _)
            (λ e1. Throws-read buf 1 _ _ (ground arith) (
              Throws-if (ltb size (idlen + 2) || ltb size (idlen + 3)) _ _ _ _ (λ _. same _)
                (λ e2. Throws-read buf (2 + idlen) _ _ (ground arith) (
                  let end = idlen + 3 + get_or buf (2 + idlen) 0 in
                  Throws-if (ltb size end) _ _ _ _ (λ _. same _) (λ _. same _)))))))

  pub resolved-Throws :
      (ec : ErrorCode) (found : Endpoint)
      → Throws (on_resolved none ec found c) (on_resolved (some ep) ec found c)
  unfolding on_resolved
  resolved-Throws ec found = Throws-if (failed ec) _ _ _ _ (λ _. reply-Throws ep 4 c) (λ _. same _)
