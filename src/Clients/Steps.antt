-- ===== src/Clients/Steps.antt =====
-- example/client/async/socks_client_async.cpp: the run of the asynchronous client, taken apart at its first actions.
use socks.Base.{ℕ, suc, ◌≡◌, refl, Option, none, some, Option-cases, inl, inr}
use socks.Base.Access.{◌>>=◌}
use socks.Endpoint.{Address}
use socks.Clients.{Urls, Network}
use socks.Clients.Async.{SocksClient, Action, act, run}

module _ (urls : Urls) (net : Network) (mk : ℕ → Address) where
  open net use {stream}

  -- The run from the first action of what `m` starts, and the run behind that action.
  pub run_later :
      (n : ℕ) (s : stream.State) (m : Option (SocksClient × Action))
      → (do (c, a) ← m; run urls net mk (suc n) s c a)
        ≡ (do (s', c', a') ← (do (c, a) ← m; act urls net mk s c a); run urls net mk n s' c' a')
  unfolding run
  run_later n s none = refl
  run_later n s (some (c, a)) = refl

  pub run_two :
      (n : ℕ) (s : stream.State) (m : Option (SocksClient × Action))
      → (do (c, a) ← m; run urls net mk (suc (suc n)) s c a) ≡ (do
        (s', c', a') ← (do
          (c1, a1) ← m
          (s2, c2, a2) ← act urls net mk s c1 a1
          act urls net mk s2 c2 a2)
        run urls net mk n s' c' a')
  unfolding run
  run_two n s none = refl
  run_two n s (some (c, a)) = elim (Option-cases (act urls net mk s c a)) [
    | inl fault ↦ rw fault refl
    | inr (r, gave) ↦ rw gave refl
  ]

  pub run_from :
      (n : ℕ) (s : stream.State) (m : Option (SocksClient × Action))
      → (do (s', c', a') ← (do (c, a) ← m; some (s, c, a)); run urls net mk n s' c' a')
        ≡ (do (c, a) ← m; run urls net mk n s c a)
  run_from n s none = refl
  run_from n s (some (c, a)) = refl

  pub run_step :
      (n : ℕ) (s : stream.State) (c : SocksClient) (a : Action)
      → run urls net mk (suc n) s c a
        ≡ (do (s', c', a') ← act urls net mk s c a; run urls net mk n s' c' a')
  unfolding run
  run_step n s c a = refl
