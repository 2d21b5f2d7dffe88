-- ===== src/Resolve/Keeping.antt =====
-- What the lookups of resolve/resolver.go leave alone: the static entries, in the cache and beside it.
use zju_portal_core.Base.{
  ℕ, ◌≤◌, ◌+◌, ◌≡◌, ◌≢◌, refl, ap, ◌∙◌, true, none, some, List, [], ◌∷◌, String, string_eq, ◌⊎◌,
  inl, inr, arith,
}
use zju_portal_core.Base.Map.{lookup}
use zju_portal_core.Core.Error.{Error}
use zju_portal_core.Resolve.{
  Ip, Library, Expiration, default_expiration, no_expiration, CacheOps, Resolver, Network,
  normalize_dns_name, set_dns_cache, first_target, secondary_from, resolve_with_secondary_dns,
  cache_remote_result, switch_to_tcp, after_tcp, after_udp,
}

-- What go-cache documents: an entry is found until it expires, one without expiration always, and a key's
-- entry changes no other key's.
pub record IsCache {C : Type 0} (cache : CacheOps C) (ttl : ℕ) : Type 0 where
  pub set_fresh :
      (now t : ℕ) (key : String) (ip : Ip) (c : C)
      → now ≤ t
      → t ≤ now + ttl
      → cache.get t key (cache.set now key ip default_expiration c) ≡ some ip
  pub set_forever :
      (now t : ℕ) (key : String) (ip : Ip) (c : C)
      → cache.get t key (cache.set now key ip no_expiration c) ≡ some ip
  pub set_other :
      (now t : ℕ) (key other : String) (ip : Ip) (e : Expiration) (c : C)
      → key ≢ other
      → cache.get t other (cache.set now key ip e c) ≡ cache.get t other c

-- Static entries are always found in the cache, and TCP is in use only under a timer that ends it, until
-- the resolver is closed.
pub record IsResolver {C : Type 0} (cache : CacheOps C) (r : Resolver C) : Type 0 where
  pub permanent :
      (key : String) (ip : Ip)
      → lookup key r.permanent_dns ≡ some ip
      → (t : ℕ) → cache.get t key r.dns_cache ≡ some ip
  pub timed : r.use_tcp ≡ true → (r.timer ≡ true) ⊎ (r.closed ≡ true)

module _ {C : Type 0} (cache : CacheOps C) (lib : Library) (ttl : ℕ)
    (laws : IsCache cache ttl) where
  -- An entry for a key that has no static address leaves the static ones alone.
  pub set_dns_cache-IsResolver :
      (now : ℕ) (r : Resolver C) (host : String) (ip : Ip)
      → lookup (normalize_dns_name lib host) r.permanent_dns ≡ none
      → IsResolver cache r
      → IsResolver cache (set_dns_cache cache lib now r host ip)
  unfolding set_dns_cache
  set_dns_cache-IsResolver now r host ip absent v = record {
    permanent = λ key other found t.
        laws.set_other now t _ key ip default_expiration r.dns_cache
          (λ (e : normalize_dns_name lib host ≡ key).
            ground (arith, absent, ap (λ (k : String). lookup k r.permanent_dns) e, found))
        ∙ v.permanent key other found t;
    timed = v.timed;
  }

  -- What a lookup does: it keeps the invariant, and the static entries are the same.
  abbrev pub Keeps : Resolver C → Resolver C → Type 0
  Keeps r r' = IsResolver cache r' × (r'.permanent_dns ≡ r.permanent_dns)

  module _ (host : String) where
    abbrev pub IsAbsent : Resolver C → Type 0
    IsAbsent r = lookup (normalize_dns_name lib host) r.permanent_dns ≡ none

    first_target-Keeps :
        (now : ℕ) (r : Resolver C) (targets : List Ip)
        → IsAbsent r
        → IsResolver cache r
        → Keeps r (first_target cache lib now r host targets).0
    unfolding first_target set_dns_cache
    first_target-Keeps now r [] a v = (v, refl)
    first_target-Keeps now r (ip ∷ rest) a v = (set_dns_cache-IsResolver now r host ip a v, refl)

    cache_remote_result-Keeps :
        (now : ℕ) (r : Resolver C) (targets : List Ip)
        → IsAbsent r
        → IsResolver cache r
        → Keeps r (cache_remote_result cache lib now r host targets).0
    unfolding cache_remote_result set_dns_cache
    cache_remote_result-Keeps now r [] a v = (v, refl)
    cache_remote_result-Keeps now r (ip ∷ rest) a v =
        (set_dns_cache-IsResolver now r host ip a v, refl)

    secondary_from-Keeps :
        (now : ℕ) (r : Resolver C) (ip4 ip6 : Error ⊎ List Ip)
        → IsAbsent r
        → IsResolver cache r
        → Keeps r (secondary_from cache lib now r host ip4 ip6).0
    unfolding secondary_from
    secondary_from-Keeps now r (inr targets) ip6 a v = first_target-Keeps now r targets a v
    secondary_from-Keeps now r (inl e) (inr targets) a v = first_target-Keeps now r targets a v
    secondary_from-Keeps now r (inl e) (inl e') a v = (v, refl)

    pub resolve_with_secondary_dns-Keeps :
        (net : Network) (now : ℕ) (r : Resolver C)
        → IsAbsent r
        → IsResolver cache r
        → Keeps r (resolve_with_secondary_dns cache lib net now r host).0
    unfolding resolve_with_secondary_dns
    resolve_with_secondary_dns-Keeps net now r a v =
        secondary_from-Keeps now r (net.secondary_ip4 host) (net.secondary_ip6 host) a v

    switch_to_tcp-IsResolver :
        (r : Resolver C) → IsResolver cache r → IsResolver cache (switch_to_tcp cache lib r)
    switch_to_tcp-IsResolver r v = record { permanent = v.permanent; timed = λ e. inl refl }

    pub after_tcp-Keeps :
        (net : Network) (now : ℕ) (r : Resolver C) (tcp : Error ⊎ List Ip)
        → IsAbsent r
        → IsResolver cache r
        → Keeps r (after_tcp cache lib net now r host tcp).0
    unfolding after_tcp
    after_tcp-Keeps net now r (inl e) a v = resolve_with_secondary_dns-Keeps net now r a v
    after_tcp-Keeps net now r (inr ips) a v = cache_remote_result-Keeps now r ips a v

    pub after_udp-Keeps :
        (net : Network) (now : ℕ) (r : Resolver C) (udp tcp : Error ⊎ List Ip)
        → IsAbsent r
        → IsResolver cache r
        → Keeps r (after_udp cache lib net now r host udp tcp).0
    unfolding after_udp
    after_udp-Keeps net now r (inr ips) tcp a v = cache_remote_result-Keeps now r ips a v
    after_udp-Keeps net now r (inl e) (inl e') a v = resolve_with_secondary_dns-Keeps net now r a v
    after_udp-Keeps net now r (inl e) (inr ips) a v =
        cache_remote_result-Keeps now (switch_to_tcp cache lib r) ips a
          (switch_to_tcp-IsResolver r v)
