-- ===== src/Resolve/Lookups.antt =====
-- Which server answers a lookup of resolve/resolver.go, and what is kept of the answer.
use zju_portal_core.Base.{
  ℕ, ◌≤◌, ◌+◌, ◌≡◌, ◌≢◌, refl, ap, ◌∙◌, true, false, some, List, [], ◌∷◌, String, ◌⊎◌, inl, inr,
  if-cases,
}
use zju_portal_core.Core.Error.{Error}
use zju_portal_core.Stream.{Result, ok, err, fault}
use zju_portal_core.Resolve.{
  Ip, Library, CacheOps, Resolver, Network, get_dns_cache, set_dns_cache, first_target,
  secondary_from, resolve_with_secondary_dns, cache_remote_result, switch_to_tcp, after_tcp,
  after_udp, resolve_remote, lookup_timeout,
}
use zju_portal_core.Resolve.Keeping.{IsCache}

-- A failed lookup.
abbrev pub Failed : Error ⊎ List Ip → Type 0
Failed answer = (e : Error) × (answer ≡ inl e)

-- A lookup whose first address is this.
abbrev pub Gives : Ip → Error ⊎ List Ip → Type 0
Gives ip answer = (rest : List Ip) × (answer ≡ inr (ip ∷ rest))

-- No use of UDP: it failed, or TCP is in use.
abbrev pub NoUdp : {C : Type 0} → Network → Resolver C → String → Type 0
NoUdp net r host = (r.use_tcp ≡ true) ⊎ Failed (net.remote_udp (lookup_timeout r) host)

-- The server that an address is of: the first of the remote server by UDP, the same by TCP, the secondary one
-- for IPv4, and the secondary one for IPv6, that was asked and did not fail.
pub data IsOf {C : Type 0} (net : Network) (r : Resolver C) (host : String) (ip : Ip) : Type 0 where
  by_udp :
      r.use_tcp ≡ false → Gives ip (net.remote_udp (lookup_timeout r) host) → IsOf net r host ip
  by_tcp : NoUdp net r host → Gives ip (net.remote_tcp (lookup_timeout r) host) → IsOf net r host ip
  by_secondary :
      NoUdp net r host
      → Failed (net.remote_tcp (lookup_timeout r) host)
      → Gives ip (net.secondary_ip4 host)
        ⊎ (Failed (net.secondary_ip4 host) × Gives ip (net.secondary_ip6 host))
      → IsOf net r host ip

-- Why there is no address: the remote server answers with none, or all that are asked fail.
pub data IsUnknown {C : Type 0} (net : Network) (r : Resolver C) (host : String) : Type 0 where
  no_udp_address :
      r.use_tcp ≡ false → net.remote_udp (lookup_timeout r) host ≡ inr [] → IsUnknown net r host
  no_tcp_address :
      NoUdp net r host → net.remote_tcp (lookup_timeout r) host ≡ inr [] → IsUnknown net r host
  all_failed :
      NoUdp net r host
      → Failed (net.remote_tcp (lookup_timeout r) host)
      → Failed (net.secondary_ip4 host)
      → Failed (net.secondary_ip6 host)
      → IsUnknown net r host

-- `LookupIP` of the secondary resolver answers with an error rather than without an address.
pub record IsLookup (net : Network) : Type 0 where
  pub some_ip4 : (host : String) → net.secondary_ip4 host ≢ inr []
  pub some_ip6 : (host : String) → net.secondary_ip6 host ≢ inr []

module _ {C : Type 0} (cache : CacheOps C) (lib : Library) (ttl : ℕ) (laws : IsCache cache ttl)
    (net : Network) (lookups : IsLookup net) (now : ℕ) (host : String) where
  -- An address is of the right server and is found in the cache until it expires; without one the cache is
  -- as before.
  abbrev pub IsAnswered : Resolver C → Resolver C × Result Error Ip → Type 0
  IsAnswered r (r', ok ip) =
      IsOf net r host ip
      × ((t : ℕ) → now ≤ t → t ≤ now + ttl → get_dns_cache cache lib t r' host ≡ some ip)
  IsAnswered r (r', err e) = IsUnknown net r host × (r'.dns_cache ≡ r.dns_cache)
  IsAnswered r (r', fault) = ⊥

  set_dns_cache-get :
      (r : Resolver C) (ip : Ip) (t : ℕ)
      → now ≤ t
      → t ≤ now + ttl
      → get_dns_cache cache lib t (set_dns_cache cache lib now r host ip) host ≡ some ip
  unfolding get_dns_cache set_dns_cache
  set_dns_cache-get r ip t h k = laws.set_fresh now t _ ip r.dns_cache h k

  cache_remote_result-IsAnswered :
      (r s : Resolver C) (targets : List Ip)
      → s.dns_cache ≡ r.dns_cache
      → (targets ≡ [] → IsUnknown net r host)
      → ((ip : Ip) (rest : List Ip) → targets ≡ ip ∷ rest → IsOf net r host ip)
      → IsAnswered r (cache_remote_result cache lib now s host targets)
  unfolding cache_remote_result
  cache_remote_result-IsAnswered r s [] e u f = (u refl, e)
  cache_remote_result-IsAnswered r s (ip ∷ rest) e u f = (f ip rest refl, set_dns_cache-get s ip)

  first_target-IsAnswered :
      (r : Resolver C) (targets : List Ip)
      → targets ≢ []
      → ((ip : Ip) (rest : List Ip) → targets ≡ ip ∷ rest → IsOf net r host ip)
      → IsAnswered r (first_target cache lib now r host targets)
  unfolding first_target
  first_target-IsAnswered r [] n f = absurd (n refl)
  first_target-IsAnswered r (ip ∷ rest) n f = (f ip rest refl, set_dns_cache-get r ip)

  secondary_from-IsAnswered :
      (r : Resolver C) (ip4 ip6 : Error ⊎ List Ip)
      → NoUdp net r host
      → Failed (net.remote_tcp (lookup_timeout r) host)
      → net.secondary_ip4 host ≡ ip4
      → net.secondary_ip6 host ≡ ip6
      → IsAnswered r (secondary_from cache lib now r host ip4 ip6)
  unfolding secondary_from
  secondary_from-IsAnswered r (inr targets) ip6 n f e₄ e₆ =
      first_target-IsAnswered r targets
        (λ (z : targets ≡ []). lookups.some_ip4 host (e₄ ∙ ap inr z))
        (λ (ip : Ip) (rest : List Ip) (z : targets ≡ ip ∷ rest).
          by_secondary n f (inl (rest, e₄ ∙ ap inr z)))
  secondary_from-IsAnswered r (inl e) (inr targets) n f e₄ e₆ =
      first_target-IsAnswered r targets
        (λ (z : targets ≡ []). lookups.some_ip6 host (e₆ ∙ ap inr z))
        (λ (ip : Ip) (rest : List Ip) (z : targets ≡ ip ∷ rest).
          by_secondary n f (inr ((e, e₄), (rest, e₆ ∙ ap inr z))))
  secondary_from-IsAnswered r (inl e) (inl e') n f e₄ e₆ = (all_failed n f (e, e₄) (e', e₆), refl)

  resolve_with_secondary_dns-IsAnswered :
      (r : Resolver C)
      → NoUdp net r host
      → Failed (net.remote_tcp (lookup_timeout r) host)
      → IsAnswered r (resolve_with_secondary_dns cache lib net now r host)
  unfolding resolve_with_secondary_dns
  resolve_with_secondary_dns-IsAnswered r n f = secondary_from-IsAnswered r _ _ n f refl refl

  after_tcp-IsAnswered :
      (r : Resolver C) (tcp : Error ⊎ List Ip)
      → r.use_tcp ≡ true
      → net.remote_tcp (lookup_timeout r) host ≡ tcp
      → IsAnswered r (after_tcp cache lib net now r host tcp)
  unfolding after_tcp
  after_tcp-IsAnswered r (inl e) n z = resolve_with_secondary_dns-IsAnswered r (inl n) (e, z)
  after_tcp-IsAnswered r (inr ips) n z =
      cache_remote_result-IsAnswered r r ips refl
        (λ (y : ips ≡ []). no_tcp_address (inl n) (z ∙ ap inr y))
        (λ (ip : Ip) (rest : List Ip) (y : ips ≡ ip ∷ rest). by_tcp (inl n) (rest, z ∙ ap inr y))

  after_udp-IsAnswered :
      (r : Resolver C) (udp tcp : Error ⊎ List Ip)
      → r.use_tcp ≡ false
      → net.remote_udp (lookup_timeout r) host ≡ udp
      → net.remote_tcp (lookup_timeout r) host ≡ tcp
      → IsAnswered r (after_udp cache lib net now r host udp tcp)
  unfolding after_udp
  after_udp-IsAnswered r (inr ips) tcp n y z =
      cache_remote_result-IsAnswered r r ips refl
        (λ (x : ips ≡ []). no_udp_address n (y ∙ ap inr x))
        (λ (ip : Ip) (rest : List Ip) (x : ips ≡ ip ∷ rest). by_udp n (rest, y ∙ ap inr x))
  after_udp-IsAnswered r (inl e) (inr ips) n y z =
      cache_remote_result-IsAnswered r (switch_to_tcp cache lib r) ips refl
        (λ (x : ips ≡ []). no_tcp_address (inr (e, y)) (z ∙ ap inr x))
        (λ (ip : Ip) (rest : List Ip) (x : ips ≡ ip ∷ rest).
          by_tcp (inr (e, y)) (rest, z ∙ ap inr x))
  after_udp-IsAnswered r (inl e) (inl e') n y z =
      resolve_with_secondary_dns-IsAnswered r (inr (e, y)) (e', z)

  -- With a cache that keeps its promises and a secondary resolver that never answers without an address:
  -- `resolveRemote` does not panic; an address is of the first server in the order UDP, TCP, secondary IPv4,
  -- secondary IPv6 that was to be asked and did not fail, and the cache has it until it expires; an error means
  -- that the remote server knows no address or that all asked servers failed, and leaves the cache as it was.
  pub resolve_remote-IsAnswered :
      (r : Resolver C) → IsAnswered r (resolve_remote cache lib net now r host)
  unfolding resolve_remote
  resolve_remote-IsAnswered r =
      if-cases (IsAnswered r) r.use_tcp (λ (n : r.use_tcp ≡ true). after_tcp-IsAnswered r _ n refl)
        (λ (n : r.use_tcp ≡ false). after_udp-IsAnswered r _ _ n refl refl)
