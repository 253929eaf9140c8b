-- ===== src/Clients/Ends.antt =====
-- example/client/async/socks_client_async.cpp: how many operations the client starts.
use socks.Base.{
  ℕ, zero, suc, ◌-◌, ◌≤◌, ◌≡◌, refl, sym, Bool, true, false, not, ◌&&◌, some, List, if◌then◌else◌,
  Option-cases, inl, inr, arith,
}
use socks.Base.Ensures.{
  Ensures, gives, Ensures-if, Ensures-bind, Ensures-result, Ensures-then, ensures_rules,
}
use socks.Error.{ErrorCode, failed}
use socks.Endpoint.{Address, Endpoint}
use socks.Clients.{Urls, Network}
use socks.Clients.Async.{
  SocksClient, Action, resolve_proxy, connect_proxy, connect_name, connect_endpoint, resolve_target,
  connect_endpoint_v4, write_page, read_page, idle, do_socks_response, on_written, do_socks_request,
  on_socks_connected, first_v4, on_target_resolved, do_socks_connect, do_proxy_connect,
  on_proxy_connected, on_proxy_resolved, do_proxy_resolve, start, create, on_response, act, run,
}

-- How many operations there can be from here on.
abbrev rank : Action → ℕ
rank (resolve_proxy host port) = 6
rank (connect_proxy eps) = 5
rank (resolve_target host port) = 4
rank (connect_name host port opt) = 3
rank (connect_endpoint ep opt) = 3
rank (connect_endpoint_v4 ep user) = 3
rank (write_page path host version) = 2
rank read_page = 1
rank idle = 0

rank-idle : (a : Action) → rank a ≤ 0 → a ≡ idle
rank-idle idle h = refl
rank-idle (resolve_proxy host port) h = absurd (omega arith)
rank-idle (connect_proxy eps) h = absurd (omega arith)
rank-idle (resolve_target host port) h = absurd (omega arith)
rank-idle (connect_name host port opt) h = absurd (omega arith)
rank-idle (connect_endpoint ep opt) h = absurd (omega arith)
rank-idle (connect_endpoint_v4 ep user) h = absurd (omega arith)
rank-idle (write_page path host version) h = absurd (omega arith)
rank-idle read_page h = absurd (omega arith)

-- At most `n` operations are left.
abbrev AtMost : ℕ → SocksClient × Action → Type 0
AtMost n (c, a) = rank a ≤ n

AtMost-if :
    (n : ℕ) (b : Bool) (x y : SocksClient × Action)
    → AtMost n x
    → AtMost n y
    → AtMost n (if b then x else y)
AtMost-if n true x y hx hy = hx
AtMost-if n false x y hx hy = hy

module _ (urls : Urls) (net : Network) where
  open net use {stream, resolve, connect}

  socks_connect-AtMost : (c : SocksClient) → Ensures (AtMost 4) (do_socks_connect urls net c)
  unfolding do_socks_connect
  socks_connect-AtMost c = search (ensures_rules, arith) depth 20

  target_resolved-AtMost :
      (c : SocksClient) (ec : ErrorCode) (eps : List Endpoint)
      → AtMost 3 (on_target_resolved urls net ec eps c)
  unfolding on_target_resolved
  target_resolved-AtMost c ec eps =
      AtMost-if 3 (failed ec) _ _ (omega arith) (elim (Option-cases (first_v4 eps)) [
        | inl none_ ↦ rw none_ (omega arith)
        | inr (ep, found) ↦ rw found (omega arith)
      ])

  act-AtMost :
      (mk : ℕ → Address) (s : stream.State) (c : SocksClient) (a : Action)
      → Ensures (λ r. rank r.2 ≤ rank a - 1) (act urls net mk s c a)
  unfolding act on_proxy_resolved on_proxy_connected on_socks_connected on_written on_response
      do_proxy_connect do_socks_request do_socks_response
  act-AtMost mk s c (resolve_proxy host port) =
      gives (AtMost-if 5 (failed (resolve s host port).2) _ _ (omega arith) (omega arith))
  act-AtMost mk s c (connect_proxy eps) =
      Ensures-then _ _
        (Ensures-if (failed (connect s eps).1) _ _ (λ _. gives (omega arith))
          (λ _. socks_connect-AtMost c))
        (λ next k. gives k)
  act-AtMost mk s c (connect_name host port opt) =
      Ensures-bind _ _ (λ r. gives (AtMost-if 2 (failed r.2) _ _ (omega arith) (omega arith)))
  act-AtMost mk s c (connect_endpoint ep opt) =
      Ensures-bind _ _ (λ r. gives (AtMost-if 2 (failed r.2) _ _ (omega arith) (omega arith)))
  act-AtMost mk s c (resolve_target host port) =
      gives (target_resolved-AtMost c (resolve s host port).2 (resolve s host port).1)
  act-AtMost mk s c (connect_endpoint_v4 ep user) =
      Ensures-bind _ _ (λ r. gives (AtMost-if 2 (failed r.2) _ _ (omega arith) (omega arith)))
  act-AtMost mk s c (write_page path host version) =
      gives (
        AtMost-if 1 (failed (net.http_write s path host version).1) _ _ (omega arith) (omega arith))
  act-AtMost mk s c read_page =
      let (s1, ec) = net.http_read s in
      let (s2, ec') = net.shutdown s1 in
      gives (
        AtMost-if 0 (failed ec && not (net.is_end_of_stream ec)) _ _ (omega arith) (
          AtMost-if 0 (failed ec' && not (net.is_not_connected ec')) _ _ (omega arith)
            (omega arith)))
  act-AtMost mk s c idle = gives (omega arith)

  pub run_idle :
      (mk : ℕ → Address) (n : ℕ) (s : stream.State) (c : SocksClient)
      → run urls net mk n s c idle ≡ some (s, c, idle)
  unfolding run act
  run_idle mk zero s c = refl
  run_idle mk (suc n) s c = run_idle mk n s c

  run-AtMost :
      (mk : ℕ → Address) (n : ℕ) (s : stream.State) (c : SocksClient) (a : Action)
      → rank a ≤ n
      → Ensures (λ r. r.2 ≡ idle) (run urls net mk n s c a)
  unfolding run
  run-AtMost mk zero s c a h = gives (rank-idle a h)
  run-AtMost mk (suc n) s c a h =
      Ensures-then _ _ (act-AtMost mk s c a)
        (λ (s', c', a') k. run-AtMost mk n s' c' a' (omega arith))

  run_enough :
      (mk : ℕ → Address) (n m : ℕ) (s : stream.State) (c : SocksClient) (a : Action)
      → rank a ≤ n
      → rank a ≤ m
      → run urls net mk n s c a ≡ run urls net mk m s c a
  unfolding run
  run_enough mk zero m s c a h k = rw (rank-idle a h) (sym (run_idle mk m s c))
  run_enough mk (suc n) zero s c a h k = rw (rank-idle a k) (run_idle mk n s c)
  run_enough mk (suc n) (suc m) s c a h k = elim (Option-cases (act urls net mk s c a)) [
    | inl fault ↦ rw fault refl
    | inr ((s', c', a'), did) ↦
        let less = Ensures-result (act-AtMost mk s c a) did in
        rw did (run_enough mk n m s' c' a' (omega arith) (omega arith))
  ]

  create-AtMost :
      (http_version : ℕ) (target socks : List ℕ)
      → Ensures (AtMost 6) (create urls net http_version target socks)
  unfolding create start do_proxy_resolve do_proxy_connect
  create-AtMost http_version target socks = search (ensures_rules, arith) depth 20

  -- Whatever the two URLs are, the client ends after at most six operations: more of them change nothing, and unless one
  -- faults, nothing is left to run.
  pub run-ends :
      (mk : ℕ → Address) (http_version n : ℕ) (target socks : List ℕ) (s : stream.State)
      (c : SocksClient) (a : Action)
      → create urls net http_version target socks ≡ some (c, a)
      → 6 ≤ n
      → (run urls net mk n s c a ≡ run urls net mk 6 s c a)
        × Ensures (λ r. r.2 ≡ idle) (run urls net mk 6 s c a)
  run-ends mk http_version n target socks s c a begun h =
      let six : rank a ≤ 6 = Ensures-result (create-AtMost http_version target socks) begun in
      (run_enough mk n 6 s c a (omega arith) six, run-AtMost mk 6 s c a six)
