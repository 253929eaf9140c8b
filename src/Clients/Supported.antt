-- ===== src/Clients/Supported.antt =====
-- example/client/async/socks_client_async.cpp: `parse_urls`, and what it refuses.
use socks.Base.{
  ℕ, ◌≡◌, ◌⊎◌, refl, sym, subst, true, false, Option, none, some, inl, inr, List, Bool-cases, arith,
}
use socks.Base.Ensures.{Ensures, gives, ensures_rules}
use socks.Error.{ErrorCode, failed}
use socks.Clients.{Url, Urls, Network, IsLawfulUrls, is_ipv6, version_of}
use socks.Clients.Async.{SocksClient, checked, with_socks, with_target, parse_urls}

-- The client speaks SOCKS5, or its target is not an IPv6 address.
abbrev pub Suited : SocksClient → Type 0
Suited c = (c.socks_version ≡ 5) ⊎ (is_ipv6 c.target.host_type ≡ false)

version_of-known : (scheme : List ℕ) → Ensures (λ v. (v ≡ 5) ⊎ (v ≡ 4)) (version_of scheme)
unfolding version_of
version_of-known scheme = search (ensures_rules, arith)

module _ (urls : Urls) (net : Network) (law : IsLawfulUrls urls) where
  checked_4-Suited :
      (c : SocksClient)
      → failed net.no_protocol_option ≡ true
      → failed (checked urls net (some 4) c).ec ≡ false
      → Suited (checked urls net (some 4) c)
  unfolding checked
  checked_4-Suited c h ok = elim (Bool-cases (is_ipv6 c.target.host_type)) [
    | inl six ↦ absurd (ground arith)
    | inr other ↦ rw other (inr other)
  ]

  checked-Suited :
      (v : Option ℕ) (c : SocksClient)
      → Ensures (λ v. (v ≡ 5) ⊎ (v ≡ 4)) v
      → failed net.no_protocol_option ≡ true
      → failed (checked urls net v c).ec ≡ false
      → Suited (checked urls net v c)
  unfolding checked
  checked-Suited none c k h ok = absurd (ground arith)
  checked-Suited (some v) c (gives (inl five)) h ok =
      subst (λ v. Suited (checked urls net (some v) c)) (sym five) (inl refl)
  checked-Suited (some v) c (gives (inr four)) h ok =
      subst
        (λ v.
          failed (checked urls net (some v) c).ec ≡ false → Suited (checked urls net (some v) c))
        (sym four) (checked_4-Suited c h) ok

  socks-Suited :
      (r : Url ⊎ ErrorCode) (c : SocksClient)
      → ((ec : ErrorCode) → r ≡ inr ec → failed ec ≡ true)
      → failed net.no_protocol_option ≡ true
      → failed (with_socks urls net r c).ec ≡ false
      → Suited (with_socks urls net r c)
  unfolding with_socks
  socks-Suited (inr ec) c err h ok = let e = err ec refl in absurd (ground arith)
  socks-Suited (inl socks) c err h ok =
      checked-Suited (version_of socks.scheme) _ (version_of-known socks.scheme) h ok

  target-Suited :
      (r : Url ⊎ ErrorCode) (socks : List ℕ) (c : SocksClient)
      → ((ec : ErrorCode) → r ≡ inr ec → failed ec ≡ true)
      → failed net.no_protocol_option ≡ true
      → failed (with_target urls net r socks c).ec ≡ false
      → Suited (with_target urls net r socks c)
  unfolding with_target
  target-Suited (inr ec) socks c err h ok = let e = err ec refl in absurd (ground arith)
  target-Suited (inl target) socks c err h ok =
      socks-Suited (urls.parse_uri socks) _ (law.parse_error socks) h ok

  -- Where the code of "no protocol option" is an error, and a failed parse gives one: URLs that `parse_urls` does not
  -- refuse name SOCKS5, or a target that is no IPv6 address.
  pub parse_urls-Suited :
      (target socks : List ℕ) (c : SocksClient)
      → failed net.no_protocol_option ≡ true
      → failed (parse_urls urls net target socks c).ec ≡ false
      → Suited (parse_urls urls net target socks c)
  unfolding parse_urls
  parse_urls-Suited target socks c =
      target-Suited (urls.parse_uri target) socks c (law.parse_error target)
