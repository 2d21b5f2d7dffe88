-- ===== src/Resolve.antt =====
-- resolve/resolver.go and resolve/cache.go: how a host name gets its address. The cache is a library, an
-- argument with its `Get` and `Set`; what the servers answer to the lookups of a call is an argument, too.
-- The functions of a lookup are a call during which nothing else changes the resolver; the steps of calls that overlap
-- are in Resolve/Permanent. Times are nanoseconds.
pub mod Keeping
pub mod Permanent
pub mod Lookups
use zju_portal_core.Base.{
  ℕ, Bool, true, false, ◌&&◌, ◌||◌, not, Option, none, some, List, [], ◌∷◌, ◌++◌, String, ◌==◌,
  string_eq, ◌⊎◌, inl, inr, if◌then◌else◌, ℤ, is_positive, to_nat,
}
use zju_portal_core.Base.Map.{lookup, insert}
use zju_portal_core.Core.Error.{Error, plain, wrapf, is_error}
use zju_portal_core.Resource.{DomainResource}
use zju_portal_core.Stream.{Result, ok, err, fault}

abbrev pub Ip : Type 0
Ip = List ℕ

-- The functions of `strings`.
pub record Library : Type 0 where
  pub trim_space : String → String
  pub to_lower : String → String
  pub trim_suffix : String → String → String
  pub has_suffix : String → String → Bool

pub data Expiration : Type 0 where
  default_expiration no_expiration : Expiration

-- A `*cache.Cache` of github.com/patrickmn/go-cache at a time.
pub record CacheOps (C : Type 0) : Type 0 where
  pub get : ℕ → String → C → Option Ip
  pub set : ℕ → String → Ip → Expiration → C → C

-- `timer` tells whether there is a timer, `closed` the state of `closeOnce`. The resolvers of the net
-- package are in `Network`.
pub record Resolver (C : Type 0) : Type 0 where
  pub remote_dns_timeout : ℤ
  pub domain_resources : List (String × DomainResource)
  pub dns_resource : List (String × Ip)
  pub permanent_dns : List (String × Ip)
  pub use_remote_dns : Bool
  pub dns_cache : C
  pub timer : Bool
  pub use_tcp : Bool
  pub closed : Bool

-- What `LookupIP` of the three resolvers answers: of the remote ones at a timeout, for a host.
pub record Network : Type 0 where
  pub remote_udp : ℕ → String → Error ⊎ List Ip
  pub remote_tcp : ℕ → String → Error ⊎ List Ip
  pub secondary_ip4 : String → Error ⊎ List Ip
  pub secondary_ip6 : String → Error ⊎ List Ip

-- The values that the resolver puts into a context.
pub record Context : Type 0 where
  pub resolve_host : Option String
  pub domain_resource : Option DomainResource

unfoldable pub normalize_dns_name : Library → String → String
normalize_dns_name lib host = lib.trim_suffix (lib.to_lower (lib.trim_space host)) "."

unfoldable pub normalize_from :
    Library → List (String × Ip) → List (String × Ip) → List (String × Ip)
normalize_from lib [] normalized = normalized
normalize_from lib ((host, address) ∷ records) normalized =
    normalize_from lib records (insert (normalize_dns_name lib host) address normalized)

unfoldable pub normalize_dns_records : Library → List (String × Ip) → List (String × Ip)
normalize_dns_records lib records = normalize_from lib records []

-- The fields that `NewResolverWithSecondaryDialer` sets beside the resolvers; `cache` is that of `cache.New`.
unfoldable pub new_resolver :
    {C : Type 0}
    → Library
    → C
    → List (String × DomainResource)
    → List (String × Ip)
    → Bool
    → Resolver C
new_resolver lib cache domain_resources dns_resource use_remote_dns = record {
  remote_dns_timeout = ℤ.pos 0;
  domain_resources = domain_resources;
  dns_resource = normalize_dns_records lib dns_resource;
  permanent_dns = [];
  use_remote_dns = use_remote_dns;
  dns_cache = cache;
  timer = false;
  use_tcp = false;
  closed = false;
}

abbrev default_remote_dns_lookup_timeout : ℕ
default_remote_dns_lookup_timeout = 1500000000

-- The timeout of `lookupRemoteIP`.
unfoldable pub lookup_timeout : {C : Type 0} → Resolver C → ℕ
lookup_timeout r =
    if is_positive r.remote_dns_timeout
    then to_nat r.remote_dns_timeout
    else default_remote_dns_lookup_timeout

unfoldable pub match_domain :
    Library → String → List (String × DomainResource) → Option DomainResource
match_domain lib host [] = none
match_domain lib host ((domain, resource) ∷ rest) =
    if lib.has_suffix host domain then some resource else match_domain lib host rest

unfoldable pub match_domain_resource :
    {C : Type 0} → Library → Resolver C → String → Option DomainResource
match_domain_resource lib r host = match_domain lib host r.domain_resources

abbrev is_found {ℓ} : {A : Type ℓ} → Option A → Bool
is_found none = false
is_found (some a) = true

unfoldable pub is_vpn_domain : {C : Type 0} → Library → Resolver C → String → Bool
is_vpn_domain lib r host = is_found (match_domain_resource lib r (normalize_dns_name lib host))

module _ {C : Type 0} (cache : CacheOps C) (lib : Library) where
  unfoldable pub get_dns_cache : ℕ → Resolver C → String → Option Ip
  get_dns_cache now r host = cache.get now (normalize_dns_name lib host) r.dns_cache

  unfoldable pub set_dns_cache : ℕ → Resolver C → String → Ip → Resolver C
  set_dns_cache now r host ip = record r {
    dns_cache = cache.set now (normalize_dns_name lib host) ip default_expiration r.dns_cache;
  }

  -- An address is nil, or bytes that the resolver copies.
  unfoldable pub put_permanent : ℕ → Resolver C → String → Option Ip → Resolver C × Option Error
  put_permanent now r host none = (r, some (plain "static DNS address is invalid"))
  put_permanent now r host (some ip) = (
    record r {
      permanent_dns = insert host ip r.permanent_dns;
      dns_cache = cache.set now host ip no_expiration r.dns_cache;
    },
    none,
  )

  unfoldable pub set_permanent_dns : ℕ → Resolver C → String → Option Ip → Resolver C × Option Error
  unfolding put_permanent
  set_permanent_dns now r host ip =
      if normalize_dns_name lib host == ""
      then (r, some (plain "static DNS host is empty"))
      else put_permanent now r (normalize_dns_name lib host) ip

  unfoldable pub static_or_resource : Resolver C → String → Option Ip → Option Ip
  static_or_resource r host (some ip) = some ip
  static_or_resource r host none = lookup host r.dns_resource

  unfoldable pub resolve_static : Resolver C → String → Option Ip
  unfolding static_or_resource
  resolve_static r host =
      static_or_resource r (normalize_dns_name lib host)
        (lookup (normalize_dns_name lib host) r.permanent_dns)

  -- `targets[0]`, kept in the cache.
  unfoldable pub first_target : ℕ → Resolver C → String → List Ip → Resolver C × Result Error Ip
  first_target now r host [] = (r, fault)
  first_target now r host (ip ∷ rest) = (set_dns_cache now r host ip, ok ip)

  unfoldable pub secondary_from :
      ℕ → Resolver C → String → Error ⊎ List Ip → Error ⊎ List Ip → Resolver C × Result Error Ip
  secondary_from now r host (inr targets) ip6 = first_target now r host targets
  secondary_from now r host (inl e) (inr targets) = first_target now r host targets
  secondary_from now r host (inl e) (inl e6) = (r, err e6)

  unfoldable pub resolve_with_secondary_dns :
      Network → ℕ → Resolver C → String → Resolver C × Result Error Ip
  resolve_with_secondary_dns net now r host =
      secondary_from now r host (net.secondary_ip4 host) (net.secondary_ip6 host)

  unfoldable pub cache_remote_result :
      ℕ → Resolver C → String → List Ip → Resolver C × Result Error Ip
  cache_remote_result now r host [] = (r, err (plain "remote DNS returned no IPv4 addresses"))
  cache_remote_result now r host (ip ∷ rest) = (set_dns_cache now r host ip, ok ip)

  -- UDP failed and TCP did not: until the timer fires, after ten minutes, TCP is asked.
  abbrev pub switch_to_tcp : Resolver C → Resolver C
  switch_to_tcp r = record r { use_tcp = true; timer = true }

  unfoldable pub after_tcp :
      Network → ℕ → Resolver C → String → Error ⊎ List Ip → Resolver C × Result Error Ip
  after_tcp net now r host (inl e) = resolve_with_secondary_dns net now r host
  after_tcp net now r host (inr ips) = cache_remote_result now r host ips

  unfoldable pub after_udp :
      Network
      → ℕ
      → Resolver C
      → String
      → Error ⊎ List Ip
      → Error ⊎ List Ip
      → Resolver C × Result Error Ip
  after_udp net now r host (inr ips) tcp = cache_remote_result now r host ips
  after_udp net now r host (inl e) (inr ips) = cache_remote_result now (switch_to_tcp r) host ips
  after_udp net now r host (inl e) (inl e') = resolve_with_secondary_dns net now r host

  unfoldable pub resolve_remote : Network → ℕ → Resolver C → String → Resolver C × Result Error Ip
  resolve_remote net now r host =
      if r.use_tcp
      then after_tcp net now r host (net.remote_tcp (lookup_timeout r) host)
      else after_udp net now r host (net.remote_udp (lookup_timeout r) host)
          (net.remote_tcp (lookup_timeout r) host)

  -- The function of the timer.
  unfoldable pub timer_fires : Resolver C → Resolver C
  timer_fires r = if r.timer then record r { use_tcp = false; timer = false } else r

  unfoldable pub close : Resolver C → Resolver C
  close r = if r.closed then r else record r { timer = false; closed = true }

abbrev pub canceled : String
canceled = "context canceled"

abbrev pub deadline_exceeded : String
deadline_exceeded = "context deadline exceeded"

-- One round of the loop of `Resolve`: the context ends first, with its error; the goroutine runs the lookup
-- itself, which others may share; or it is handed the result of a lookup that another one runs. The last
-- argument tells whether the context has ended when the result arrives.
pub data Flight : Type 0 where
  context_done : Error → Flight
  own_lookup : Network → ℕ → Bool → Bool → Flight
  joined : Result Error Ip → Bool → Flight

unfoldable pub is_canceled : Result Error Ip → Bool
is_canceled (err e) = is_error e canceled || is_error e deadline_exceeded
is_canceled (ok ip) = false
is_canceled fault = false

-- Whether the loop goes on.
unfoldable pub retries : Bool → Bool → Result Error Ip → Bool
retries shared context_ended result = shared && not context_ended && is_canceled result

module _ {C : Type 0} (cache : CacheOps C) (lib : Library) where
  unfoldable pub own_round :
      Bool → Bool → Resolver C × Result Error Ip → Resolver C × Option (Result Error Ip)
  own_round shared ended (r, result) =
      (r, if retries shared ended result then none else some result)

  -- `none` is a result for which the loop goes on.
  unfoldable pub round : Flight → Resolver C → String → Resolver C × Option (Result Error Ip)
  round (context_done e) r host = (r, some (err e))
  round (own_lookup net now shared ended) r host =
      own_round shared ended (resolve_remote cache lib net now r host)
  round (joined result ended) r host = (r, if retries true ended result then none else some result)

  unfoldable pub next_round :
      Resolver C × Option (Result Error Ip)
      → (Resolver C → Resolver C × Option (Result Error Ip))
      → Resolver C × Option (Result Error Ip)
  next_round (r, some result) rest = (r, some result)
  next_round (r, none) rest = rest r

  -- `none` at the end: it waits for a further round.
  unfoldable pub fly : List Flight → String → Resolver C → Resolver C × Option (Result Error Ip)
  fly [] host r = (r, none)
  fly (flight ∷ flights) host r = next_round (round flight r host) (fly flights host)

  -- `Resolve` of a normalized host after the cache and the DNS resource.
  unfoldable pub resolve_network :
      Network → List Flight → ℕ → Resolver C → String → Resolver C × Option (Result Error Ip)
  resolve_network net flights now r host = if r.use_remote_dns then fly flights host r else (
    (resolve_with_secondary_dns cache lib net now r host).0,
    some (resolve_with_secondary_dns cache lib net now r host).1,
  )

  unfoldable pub resource_or_network :
      Network
      → List Flight
      → ℕ
      → Resolver C
      → String
      → Option Ip
      → Resolver C × Option (Result Error Ip)
  resource_or_network net flights now r host (some ip) = (r, some (ok ip))
  resource_or_network net flights now r host none = resolve_network net flights now r host

  unfoldable pub cache_or_rest :
      Network
      → List Flight
      → ℕ
      → Resolver C
      → String
      → Option Ip
      → Resolver C × Option (Result Error Ip)
  cache_or_rest net flights now r host (some ip) = (r, some (ok ip))
  cache_or_rest net flights now r host none =
      resource_or_network net flights now r host (lookup host r.dns_resource)

  abbrev with_host : String → Context → Option (Result Error Ip) → Context
  with_host host ctx (some (ok ip)) = record ctx { resolve_host = some host }
  with_host host ctx other = ctx

  abbrev with_domain : Option DomainResource → Context → Context
  with_domain none ctx = ctx
  with_domain (some resource) ctx = record ctx { domain_resource = some resource }

  unfoldable pub resolve_normalized :
      Network → List Flight → ℕ → Resolver C → String → Resolver C × Option (Result Error Ip)
  resolve_normalized net flights now r host =
      cache_or_rest net flights now r host (get_dns_cache cache lib now r host)

  unfoldable pub resolve :
      Network
      → List Flight
      → ℕ
      → Context
      → Resolver C
      → String
      → Resolver C × Context × Option (Result Error Ip)
  resolve net flights now ctx r name =
      let host = normalize_dns_name lib name in
      let (r', result) = resolve_normalized net flights now r host in
      (r', with_host host (with_domain (match_domain_resource lib r host) ctx) result, result)
