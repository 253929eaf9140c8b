-- ===== src/Connect/Overrun.antt =====
-- include/boost/socks/impl/connect.hpp: a granted reply that data of the target follows.
use socks.Base.{
  ℕ, zero, suc, ◌+◌, ◌-◌, ◌/◌, ◌%◌, ◌<◌, ◌≤◌, ◌≡◌, refl, ap, ◌∙◌, inl, inr, true, false, Bool-cases,
  some, Option, List, [], ◌∷◌, ◌++◌, length, length-take, take, drop, drop_all, All, All-append,
  arith, leb, le→leb, ◌!=◌, ◌&&◌, not, if◌then◌else◌,
}
use socks.Base.Access.{◌>>=◌}
use socks.Error.{
  ErrorCode, no_error, eof, failed, is_eof, make_error_code, bad_reply_size, equals_succeeded,
}
use socks.Codes.{to_address_type, to_reply_code}
use socks.Endpoint.{
  Address, v4, Endpoint, no_endpoint, Target, host, AuthOptions, IsByte, IsTarget, FitsRequest,
}
use socks.Replies.{read_reply_cond, parse_reply_v5}
use socks.Replies.Accept.{reply_bytes}
use socks.Stream.Chunks.{Pace, take_in, least}
use socks.Stream.Chunks.Ends.{starves, overflows}
use socks.Stream.Played.{as_bytes_lem, paced, paced-IsLawful, play_cond, took}
use socks.Connect.{connect_host}
use socks.Connect.Session.{
  session, session_auth, session_choice, session_request, session_reply, session_condition,
  readable, choice_result,
}
use socks.Connect.Session.Refines.{connect_host-session}

-- The client's condition on the bytes received so far.
abbrev asks_for : List ℕ → Option ℕ
asks_for got = some (session_condition got no_error)

-- Between 11 and 21 bytes the condition asks for more.
asks_past :
    (bytes : List ℕ) (n : ℕ)
    → 11 ≤ n
    → n ≤ length bytes
    → n < 22
    → (more : ℕ) × (asks_for (take n bytes) ≡ some (suc more))
unfolding read_reply_cond failed
asks_past bytes n h l k =
    let size : length (take n bytes) ≡ n = omega (arith, length-take n bytes) in
    (21 - n, rw size (ground arith))

ten_more : (n : ℕ) → 10 ≤ n → (c : ℕ) × (least 21 n ≡ 10 + c)
ten_more n h = elim (Bool-cases (leb 21 n)) [
  | inl e ↦ (11, rw e refl)
  | inr e ↦ (n - 10, rw e (omega arith))
]

take-drop : (k : ℕ) (bs : List ℕ) → bs ≡ take k bs ++ drop k bs
take-drop zero bs = refl
take-drop (suc k) [] = refl
take-drop (suc k) (b ∷ bs) = ap (λ l. b ∷ l) (take-drop k bs)

module _ (pace : Pace) (together : 10 ≤ pace 0) (a b c d h l x : ℕ) (rest : List ℕ) where
  -- The reply and the first byte behind it.
  abbrev with_data : List ℕ → List ℕ
  with_data more = 5 ∷ 0 ∷ 0 ∷ 1 ∷ a ∷ b ∷ c ∷ d ∷ h ∷ l ∷ x ∷ more

  first_part :
      (credit : ℕ)
      → least 21 (pace 0) ≡ 10 + credit
      → take_in asks_for pace 22 0 [] (with_data rest)
        ≡ take_in asks_for pace 11 credit (with_data []) rest
  unfolding read_reply_cond failed
  first_part credit e =
      let ten : 10 + credit ≡ suc (suc (suc (suc (suc (suc (suc (suc (suc (suc credit))))))))) =
        omega arith in
      rw (e, ten) refl

  read_short :
      length rest < 11
      → take_in asks_for pace 22 0 [] (with_data rest) ≡ some (with_data rest, [], false)
  read_short s =
      let (credit, e) = ten_more (pace 0) together in
      first_part credit e
      ∙ starves asks_for pace (with_data rest) 11
          (λ n f k. asks_past (with_data rest) n f k (omega arith)) 11 credit (with_data []) rest
          refl (omega arith) s

  read_long :
      11 ≤ length rest
      → take_in asks_for pace 22 0 [] (with_data rest)
        ≡ some (with_data (take 11 rest), drop 11 rest, true)
  read_long s =
      let (credit, e) = ten_more (pace 0) together in
      let size : length (take 11 rest) ≡ 11 = omega (arith, length-take 11 rest) in
      first_part credit e
      ∙ ap (take_in asks_for pace 11 credit (with_data [])) (take-drop 11 rest)
      ∙ overflows asks_for pace (with_data (take 11 rest)) (drop 11 rest) 11
          (λ n f k. asks_past (with_data (take 11 rest)) n f (omega arith) (omega arith)) 11 credit
          (with_data []) (take 11 rest) refl (omega arith) size

  played_short :
      All IsByte (with_data rest)
      → length rest < 11
      → play_cond pace (with_data rest) 22 session_condition ≡ ([], with_data rest, eof)
  played_short octets s =
      ap (λ bytes. took (take_in asks_for pace 22 0 [] bytes))
        (as_bytes_lem (with_data rest) octets)
      ∙ ap took (read_short s)

  played_long :
      All IsByte (with_data rest)
      → 11 ≤ length rest
      → play_cond pace (with_data rest) 22 session_condition
        ≡ (drop 11 rest, with_data (take 11 rest), no_error)
  played_long octets s =
      ap (λ bytes. took (take_in asks_for pace 22 0 [] bytes))
        (as_bytes_lem (with_data rest) octets)
      ∙ ap took (read_long s)

  -- What the client makes of the read.
  abbrev judged :
      (ℕ → Address) → List ℕ × List ℕ × ErrorCode → Option (List ℕ × Endpoint × ErrorCode)
  judged mk (s1, got, e1) =
      if not (readable e1)
      then some (s1, no_endpoint, e1)
      else if length got != 10 && length got != 22
      then some (s1, no_endpoint, make_error_code bad_reply_size)
      else do (ep, ec) ← parse_reply_v5 mk (length got) got; some (s1, ep, ec)

  reply_judged :
      (mk : ℕ → Address)
      → session_reply (paced pace) mk (with_data rest)
        ≡ judged mk (play_cond pace (with_data rest) 22 session_condition)
  unfolding session_reply
  reply_judged mk = refl

  judged_short :
      (mk : ℕ → Address)
      → length rest < 11
      → judged mk ([], with_data rest, eof)
        ≡ some (drop 12 (x ∷ rest), no_endpoint, make_error_code bad_reply_size)
  unfolding failed is_eof
  judged_short mk s =
      let wrong : (length (with_data rest) != 10 && length (with_data rest) != 22) ≡ true =
        ground arith in
      let none_left : drop 11 rest ≡ [] = drop_all 11 rest (omega arith) in
      rw (wrong, none_left) refl

  judged_long :
      (mk : ℕ → Address)
      → 11 ≤ length rest
      → judged mk (drop 11 rest, with_data (take 11 rest), no_error)
        ≡ some (drop 12 (x ∷ rest), no_endpoint, make_error_code bad_reply_size)
  unfolding parse_reply_v5 to_reply_code to_address_type equals_succeeded failed
  judged_long mk s =
      let size : length (take 11 rest) ≡ 11 = omega (arith, length-take 11 rest) in rw size refl

  reply_stage :
      (mk : ℕ → Address)
      → All IsByte (with_data rest)
      → session_reply (paced pace) mk (with_data rest)
        ≡ some (drop 12 (x ∷ rest), no_endpoint, make_error_code bad_reply_size)
  reply_stage mk octets = elim (Bool-cases (leb 11 (length rest))) [
    | inl long ↦
        let s : 11 ≤ length rest = ground arith in
        reply_judged mk ∙ ap (judged mk) (played_long octets s) ∙ judged_long mk s
    | inr short ↦
        let s : length rest < 11 = ground arith in
        reply_judged mk ∙ ap (judged mk) (played_short octets s) ∙ judged_short mk s
  ]

  auth_stage :
      (opt : AuthOptions)
      → opt.is_userpass ≡ false
      → session_auth (paced pace) (5 ∷ 0 ∷ with_data rest) opt ≡ (with_data rest, no_error)
  unfolding session_auth session_choice choice_result failed
  auth_stage opt e =
      let enough : leb 2 (length (5 ∷ 0 ∷ with_data rest)) ≡ true = le→leb _ _ (omega arith) in
      rw (e, enough) refl

  session_stage :
      (mk : ℕ → Address) (t : Target) (opt : AuthOptions)
      → opt.is_userpass ≡ false
      → All IsByte (with_data rest)
      → session (paced pace) mk (5 ∷ 0 ∷ with_data rest) t opt
        ≡ some (drop 12 (x ∷ rest), no_endpoint, make_error_code bad_reply_size)
  unfolding session session_request failed
  session_stage mk t opt e octets = rw (auth_stage opt e) (reply_stage mk octets)

-- On a stream that plays the server's bytes and delivers the first eleven bytes behind the choice of a method, or more,
-- together, whatever the pace is after them, with options without user/pass whose strings have at most 255 bytes,
-- a valid target, and a buffer of 513 bytes: if the server has chosen no authentication, granted the request with a
-- valid IPv4 endpoint, and sent one byte of data or more behind its reply, `connect` returns
-- `bad_reply_size` and no endpoint, and up to twelve bytes of the data are lost.
pub connect_host-overrun :
    (pace : Pace) (mk : ℕ → Address) (buf : List ℕ) (ep : Endpoint) (opt : AuthOptions)
    (ec : ErrorCode) (a b c d port x : ℕ) (rest : List ℕ)
    → 10 ≤ pace 0
    → IsTarget (host ep)
    → FitsRequest opt
    → opt.is_userpass ≡ false
    → length buf ≡ 513
    → All IsByte (a ∷ b ∷ c ∷ d ∷ [])
    → port < 65536
    → All IsByte (x ∷ rest)
    → let bound : Endpoint = record { address = v4 a b c d; port = port } in
      connect_host (paced pace) mk buf (5 ∷ 0 ∷ (reply_bytes 0 bound ++ x ∷ rest)) ep opt ec
      ≡ some (drop 12 (x ∷ rest), no_endpoint, make_error_code bad_reply_size)
connect_host-overrun pace mk buf ep opt ec a b c d port x rest together valid fits e whole
      (ha, (hb, (hc, (hd, _)))) hp (hx, hrest) =
    let octets : All IsByte
        (with_data pace together a b c d (port / 256) (port % 256) x rest rest) =
      All-append IsByte (reply_bytes 0 (record { address = v4 a b c d; port = port })) (x ∷ rest)
        (omega arith) (hx, hrest) in
    connect_host-session (paced pace) (paced-IsLawful pace) mk ep opt _ buf ec valid fits whole
    ∙ session_stage pace together a b c d (port / 256) (port % 256) x rest mk (host ep) opt e octets
