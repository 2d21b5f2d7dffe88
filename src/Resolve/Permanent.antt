-- ===== src/Resolve/Permanent.antt =====
-- Static DNS entries of resolve/cache.go: what keeps them in the cache, and the timer of resolve/resolver.go.
use zju_portal_core.Base.{
  ℕ, ◌≡◌, refl, sym, ap, ◌∙◌, Bool, Option, none, some, List, String, ◌==◌, string_eq, ◌⊎◌, inl,
  inr, none, Bool-cases, arith, if-elim, eq_iff,
}
use zju_portal_core.Base.Map.{lookup, lookup-insert}
use zju_portal_core.Core.Error.{Error}
use zju_portal_core.Resource.{DomainResource}
use zju_portal_core.Stream.{ok}
use zju_portal_core.Resolve.{
  Ip, Library, no_expiration, CacheOps, Resolver, Network, Context, normalize_dns_name,
  new_resolver, get_dns_cache, put_permanent, set_permanent_dns, resolve_static, static_or_resource,
  timer_fires, close, Flight, cache_or_rest, resolve_normalized, resolve, after_tcp, after_udp,
  resolve_with_secondary_dns,
}
use zju_portal_core.Resolve.Keeping.{
  IsCache, IsResolver, after_tcp-Keeps, after_udp-Keeps, resolve_with_secondary_dns-Keeps,
}

-- The steps of a resolver that change it, in any order: the calls that set a static address and that close it, its timer,
-- and the end of a lookup, by the answers of TCP, of UDP and TCP, or of the secondary servers. The lookup may have
-- begun at any time before; at its end its host has no static address.
pub data Step {C : Type 0} (cache : CacheOps C) (lib : Library) (r : Resolver C)
    : Resolver C → Type 0 where
  puts :
      (now : ℕ) (host : String) (ip : Option Ip)
      → Step cache lib r (set_permanent_dns cache lib now r host ip).0
  ends_tcp :
      (net : Network) (now : ℕ) (host : String) (tcp : Error ⊎ List Ip)
      → lookup (normalize_dns_name lib host) r.permanent_dns ≡ none
      → Step cache lib r (after_tcp cache lib net now r host tcp).0
  ends_udp :
      (net : Network) (now : ℕ) (host : String) (udp tcp : Error ⊎ List Ip)
      → lookup (normalize_dns_name lib host) r.permanent_dns ≡ none
      → Step cache lib r (after_udp cache lib net now r host udp tcp).0
  ends_secondary :
      (net : Network) (now : ℕ) (host : String)
      → lookup (normalize_dns_name lib host) r.permanent_dns ≡ none
      → Step cache lib r (resolve_with_secondary_dns cache lib net now r host).0
  fires : Step cache lib r (timer_fires cache lib r)
  closes : Step cache lib r (close cache lib r)

pub data Reach {C : Type 0} (cache : CacheOps C) (lib : Library) (r : Resolver C)
    : Resolver C → Type 0 where
  here : Reach cache lib r r
  next : {s t : Resolver C} → Reach cache lib r s → Step cache lib s t → Reach cache lib r t

module _ {C : Type 0} (cache : CacheOps C) (lib : Library) (ttl : ℕ)
    (laws : IsCache cache ttl) where
  put_permanent-IsResolver :
      (now : ℕ) (r : Resolver C) (key : String) (ip : Option Ip)
      → IsResolver cache r
      → IsResolver cache (put_permanent cache lib now r key ip).0
  unfolding put_permanent
  put_permanent-IsResolver now r key none v = v
  put_permanent-IsResolver now r key (some ip) v = record {
    permanent = λ other found-ip found t. elim (Bool-cases (key == other)) [
      | inl same ↦
          let e = (eq_iff key other).0 same in
          let given : some ip ≡ some found-ip =
            ground (arith, lookup-insert key other ip r.permanent_dns) in
          ap (λ (k : String). cache.get t k (cache.set now key ip no_expiration r.dns_cache))
            (sym e)
          ∙ laws.set_forever now t key ip r.dns_cache
          ∙ given
      | inr apart ↦
          laws.set_other now t key other ip no_expiration r.dns_cache
            (λ (e : key ≡ other). ground (arith, (eq_iff key other).1 e))
          ∙ v.permanent other found-ip (ground (arith, lookup-insert key other ip r.permanent_dns))
              t
    ];
    timed = v.timed;
  }

  Step-IsResolver :
      {r s : Resolver C} → Step cache lib r s → IsResolver cache r → IsResolver cache s
  unfolding set_permanent_dns timer_fires close
  Step-IsResolver {r = r} (puts now host ip) v =
      if-elim (λ (x : Resolver C × Option Error). IsResolver cache x.0)
        (normalize_dns_name lib host == "") v (put_permanent-IsResolver now r _ ip v)
  Step-IsResolver {r = r} (ends_tcp net now host tcp absent) v =
      (after_tcp-Keeps cache lib ttl laws host net now r tcp absent v).0
  Step-IsResolver {r = r} (ends_udp net now host udp tcp absent) v =
      (after_udp-Keeps cache lib ttl laws host net now r udp tcp absent v).0
  Step-IsResolver {r = r} (ends_secondary net now host absent) v =
      (resolve_with_secondary_dns-Keeps cache lib ttl laws host net now r absent v).0
  Step-IsResolver {r = r} fires v =
      if-elim (IsResolver cache) r.timer
        (record { permanent = v.permanent; timed = λ e. ground (arith, e) }) v
  Step-IsResolver {r = r} closes v =
      if-elim (IsResolver cache) r.closed v
        (record { permanent = v.permanent; timed = λ e. inr refl })

  Reach-keeps : {r s : Resolver C} → Reach cache lib r s → IsResolver cache r → IsResolver cache s
  Reach-keeps here v = v
  Reach-keeps (next reach step) v = Step-IsResolver step (Reach-keeps reach v)

pub Reach-IsResolver :
    {C : Type 0} (cache : CacheOps C) (lib : Library) (ttl : ℕ)
    → IsCache cache ttl
    → (c : C) (domains : List (String × DomainResource)) (records : List (String × Ip))
      (remote : Bool)
    → {r : Resolver C} → Reach cache lib (new_resolver lib c domains records remote) r
    → IsResolver cache r
unfolding new_resolver lookup
Reach-IsResolver cache lib ttl laws c domains records remote reach =
    Reach-keeps cache lib ttl laws reach (record {
      permanent = λ key ip e t. absurd (ground (arith, e));
      timed = λ e. absurd (ground (arith, e));
    })

-- In such a state a name with a static address, which normalizing again does not change, is resolved to it
-- by `ResolveStatic` and by `Resolve`, which asks no server and changes nothing.
pub resolve-static :
    {C : Type 0} (cache : CacheOps C) (lib : Library) (r : Resolver C) (name : String) (ip : Ip)
    → IsResolver cache r
    → normalize_dns_name lib (normalize_dns_name lib name) ≡ normalize_dns_name lib name
    → lookup (normalize_dns_name lib name) r.permanent_dns ≡ some ip
    → (net : Network) (flights : List Flight) (now : ℕ) (ctx : Context)
    → (resolve_static cache lib r name ≡ some ip)
      × ((resolve cache lib net flights now ctx r name).0 ≡ r)
      × ((resolve cache lib net flights now ctx r name).2 ≡ some (ok ip))
unfolding resolve resolve_static static_or_resource resolve_normalized cache_or_rest get_dns_cache
resolve-static cache lib r name ip v plain found net flights now ctx =
    let cached : cache.get now (normalize_dns_name lib (normalize_dns_name lib name)) r.dns_cache
        ≡ some ip =
      ap (λ (k : String). cache.get now k r.dns_cache) plain ∙ v.permanent _ ip found now in
    (rw found refl, ground (arith, cached), ground (arith, cached))
