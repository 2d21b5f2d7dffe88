-- ===== src/Tests/ResolveTests.antt =====
-- Runs of the models of resolve/ at concrete inputs.
use zju_portal_core.Base.{
  ℕ, ◌≤◌, ◌+◌, ◌≡◌, ◌≢◌, refl, true, ◌&&◌, Option, none, some, [], ◌∷◌, String, ◌==◌, string_eq,
  eq_iff, leb, ◌⊎◌, inl, inr, arith, if◌then◌else◌, test_refl,
}
use zju_portal_core.Base.Map.{lookup, insert}
use zju_portal_core.Core.Error.{plain}
use zju_portal_core.Resolve.{
  Ip, Library, Expiration, default_expiration, no_expiration, CacheOps, Resolver, Network, Context,
  normalize_dns_name, new_resolver, set_permanent_dns, put_permanent, resolve_remote, after_udp,
  timer_fires,
}
use zju_portal_core.Resolve.Keeping.{IsCache, IsResolver}
use zju_portal_core.Resolve.Permanent.{Reach, here, next, puts, ends_udp, fires, Reach-IsResolver}
use zju_portal_core.Resolve.Lookups.{IsLookup, IsAnswered, resolve_remote-IsAnswered}

-- Entries by time and key, with a life of 60.
abbrev Entries : Type 0
Entries = ℕ → String → Option Ip

abbrev found_at : Expiration → ℕ → ℕ → Ip → Option Ip
found_at default_expiration now t ip = if leb now t && leb t (now + 60) then some ip else none
found_at no_expiration now t ip = some ip

abbrev entries : CacheOps Entries
entries = record {
  get = λ t key c. c t key;
  set = λ now key ip e c. λ t other. if key == other then found_at e now t ip else c t other;
}

entries_fresh :
    (now t : ℕ) (key : String) (ip : Ip) (c : Entries)
    → now ≤ t
    → t ≤ now + 60
    → entries.get t key (entries.set now key ip default_expiration c) ≡ some ip
entries_fresh now t key ip c h k = ground (arith, test_refl key)

entries_forever :
    (now t : ℕ) (key : String) (ip : Ip) (c : Entries)
    → entries.get t key (entries.set now key ip no_expiration c) ≡ some ip
entries_forever now t key ip c = ground (arith, test_refl key)

entries_other :
    (now t : ℕ) (key other : String) (ip : Ip) (e : Expiration) (c : Entries)
    → key ≢ other
    → entries.get t other (entries.set now key ip e c) ≡ entries.get t other c
entries_other now t key other ip e c apart = ground (arith, eq_iff key other, apart)

entries-IsCache : IsCache entries 60
entries-IsCache = record {
  set_fresh = entries_fresh;
  set_forever = entries_forever;
  set_other = entries_other;
}

abbrev library : Library
library = record {
  trim_space = λ s. s;
  to_lower = λ s. s;
  trim_suffix = λ s suffix. s;
  has_suffix = λ s suffix. s == suffix;
}

-- UDP fails, TCP answers.
abbrev network : Network
network = record {
  remote_udp = λ timeout host. inl (plain "timeout");
  remote_tcp = λ timeout host. inr ((10 ∷ 1 ∷ 2 ∷ 3 ∷ []) ∷ []);
  secondary_ip4 = λ host. inl (plain "no such host");
  secondary_ip6 = λ host. inl (plain "no such host");
}

inl_not_inr : {A B : Type 0} (a : A) (b : B) → ◌≢◌ {A = A ⊎ B} (inl a) (inr b)
inl_not_inr a b h = absurd (ground arith)

network-IsLookup : IsLookup network
network-IsLookup = record {
  some_ip4 = λ host. inl_not_inr (plain "no such host") [];
  some_ip6 = λ host. inl_not_inr (plain "no such host") [];
}

abbrev new : Resolver Entries
new = new_resolver library (λ t key. none) [] [] true

abbrev context : Context
context = record { resolve_host = none; domain_resource = none }

abbrev router_ip : Ip
router_ip = 192 ∷ 168 ∷ 0 ∷ 1 ∷ []

abbrev with_router : Resolver Entries
with_router = (set_permanent_dns entries library 5 new "router" (some router_ip)).0

abbrev after_lookup : Resolver Entries
after_lookup =
    (after_udp entries library network 7 with_router "host" (network.remote_udp 5 "host")
      (network.remote_tcp 5 "host")).0

host_absent : lookup (normalize_dns_name library "host") with_router.permanent_dns ≡ none
unfolding set_permanent_dns put_permanent insert lookup new_resolver normalize_dns_name
host_absent = refl

-- A static entry, a lookup that switches to TCP, and the timer that switches back.
abbrev three_steps : Reach entries library new (timer_fires entries library after_lookup)
three_steps =
    next
      (next (next here (puts 5 "router" (some router_ip))) (
        ends_udp network 7 "host" (network.remote_udp 5 "host") (network.remote_tcp 5 "host")
          host_absent))
      fires

with_router-IsResolver : IsResolver entries with_router
with_router-IsResolver =
    Reach-IsResolver entries library 60 entries-IsCache (λ t key. none) [] [] true
      (next here (puts 5 "router" (some router_ip)))

router_found :
    lookup (normalize_dns_name library "router") with_router.permanent_dns ≡ some router_ip
unfolding set_permanent_dns put_permanent insert lookup new_resolver normalize_dns_name
router_found = refl

router_plain :
    normalize_dns_name library (normalize_dns_name library "router")
    ≡ normalize_dns_name library "router"
unfolding normalize_dns_name
router_plain = refl

resolve_remote-IsAnswered_example :
    IsAnswered entries library 60 entries-IsCache network network-IsLookup 7 "host" new
      (resolve_remote entries library network 7 new "host")
resolve_remote-IsAnswered_example =
    resolve_remote-IsAnswered entries library 60 entries-IsCache network network-IsLookup 7 "host"
      new
