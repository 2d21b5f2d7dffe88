-- ===== src/FakeIp.antt =====
-- internal/networkruntime/tun_fakeip.go: the addresses that stand for domain names behind the TUN.
-- Addresses are 32-bit numbers. A `*fakeIPEntry` is known by its address, which it keeps for ever,
-- and stands in `entries`; both maps hold such pointers. `normalize` is `normalizeDomain`, a chain
-- of three functions of the library `strings`. Times are nanoseconds; a map is walked in the order
-- of its entries.
pub mod Range
pub mod Bijection
pub mod Reuse
use mathlib.Core.Option
use zju_portal_core.Base.{
  ℕ, ◌+◌, ◌-◌, ◌*◌, ◌/◌, ◌%◌, ◌^◌, Bool, true, false, not, ◌&&◌, ◌||◌, Option, none, some, List, [],
  ◌∷◌, String, ◌==◌, string_eq, nat_eq, ltb, leb, if◌then◌else◌,
}
use zju_portal_core.Base.Map.{lookup, insert, delete}

pub record FakeIpEntry : Type 0 where
  pub domain : String
  pub address : ℕ
  pub resolved : Option ℕ
  pub last_used : ℕ

pub record FakeIpStore : Type 0 where
  pub entries : List (ℕ × FakeIpEntry)
  pub domain_to_ip : List (String × ℕ)
  pub ip_to_domain : List (ℕ × ℕ)
  pub next : ℕ
  pub last : ℕ

abbrev pub fake_ip_reuse_after : ℕ
fake_ip_reuse_after = 30 * 60 * 1000000000

-- What `netip.ParsePrefix` returns: whether the address is IPv4, its number, and the prefix length.
pub record Prefix : Type 0 where
  pub is4 : Bool
  pub address : ℕ
  pub bits : ℕ

-- `none` is an error. `Masked` clears the bits behind the prefix; `next` and `last` have 32 bits.
unfoldable pub new_fake_ip_store : Option Prefix → Option FakeIpStore
new_fake_ip_store none = none
new_fake_ip_store (some prefix) =
    if not prefix.is4 || ltb prefix.bits 8 || ltb 30 prefix.bits
    then none
    else let count = 2 ^ (32 - prefix.bits) in
      let base = prefix.address / count * count in
      some (record {
        entries = [];
        domain_to_ip = [];
        ip_to_domain = [];
        next = (base + 2) % 2 ^ 32;
        last = (base + count - 2) % 2 ^ 32;
      })

abbrev pub entry_used : FakeIpStore → ℕ → ℕ
entry_used st p = elim (lookup p st.entries) [ some e ↦ e.last_used | none ↦ 0 ]

abbrev pub domain_at : FakeIpStore → ℕ → String
domain_at st p = elim (lookup p st.entries) [ some e ↦ e.domain | none ↦ "" ]

-- The entry was used after the cutoff, or the one kept so far was used no later.
unfoldable pub skip_entry : FakeIpStore → ℕ → ℕ → Option ℕ → Bool
skip_entry st now p none = ltb now (entry_used st p + fake_ip_reuse_after)
skip_entry st now p (some q) =
    ltb now (entry_used st p + fake_ip_reuse_after) || leb (entry_used st q) (entry_used st p)

unfoldable pub oldest_in : FakeIpStore → ℕ → List (String × ℕ) → Option ℕ → Option ℕ
unfolding skip_entry
oldest_in st now [] oldest = oldest
oldest_in st now ((d, p) ∷ rest) oldest =
    oldest_in st now rest (if skip_entry st now p oldest then oldest else some p)

unfoldable pub oldest_reusable : FakeIpStore → ℕ → Option ℕ
unfolding oldest_in
oldest_reusable st now = oldest_in st now st.domain_to_ip none

abbrev pub modify : ℕ → (FakeIpEntry → FakeIpEntry) → FakeIpStore → FakeIpStore
modify p f st = elim (lookup p st.entries) [
  | some e ↦ record st { entries = insert p (f e) st.entries }
  | none ↦ st
]

-- A domain that has an address already.
unfoldable pub refresh : ℕ → Option ℕ → ℕ → FakeIpStore → FakeIpStore
refresh now resolved p st = modify p (λ e. record e { resolved = resolved; last_used = now }) st

-- An old entry changes hands.
unfoldable pub reassign : ℕ → String → Option ℕ → ℕ → FakeIpStore → FakeIpStore
reassign now domain resolved p st =
    let freed : FakeIpStore = record st {
      domain_to_ip = delete (domain_at st p) st.domain_to_ip;
    } in
    let taken =
      modify p (λ e. record e { domain = domain; resolved = resolved; last_used = now }) freed in
    record taken { domain_to_ip = insert domain p taken.domain_to_ip }

-- A new entry at the next address.
unfoldable pub allocate : ℕ → String → Option ℕ → FakeIpStore → FakeIpStore
allocate now domain resolved st =
    let address = st.next in
    let entry : FakeIpEntry = record {
      domain = domain;
      address = address;
      resolved = resolved;
      last_used = now;
    } in
    record st {
      entries = insert address entry st.entries;
      domain_to_ip = insert domain address st.domain_to_ip;
      ip_to_domain = insert address address st.ip_to_domain;
      next = (st.next + 1) % 2 ^ 32;
    }

abbrev pub address_of : FakeIpStore → ℕ → ℕ
address_of st p = elim (lookup p st.entries) [ some e ↦ e.address | none ↦ 0 ]

-- `assign` of a normalized domain; `none` is the error of an exhausted range.
unfoldable pub assign : ℕ → String → Option ℕ → FakeIpStore → FakeIpStore × Option ℕ
unfolding refresh reassign allocate oldest_reusable
assign now domain resolved st = elim (lookup domain st.domain_to_ip) [
  | some p ↦ (refresh now resolved p st, some (address_of st p))
  | none ↦
      if ltb st.last st.next
      then elim (oldest_reusable st now) [
        | none ↦ (st, none)
        | some p ↦ (reassign now domain resolved p st, some (address_of st p))
      ]
      else (allocate now domain resolved st, some st.next)
]

-- `Assign`, `AssignResolved`: an address is `some a` if it is IPv4.
unfoldable pub assign_domain : (String → String) → ℕ → String → FakeIpStore → FakeIpStore × Option ℕ
assign_domain normalize now domain st = assign now (normalize domain) none st

unfoldable pub assign_resolved :
    (String → String) → ℕ → String → Option ℕ → FakeIpStore → FakeIpStore × Option ℕ
assign_resolved normalize now domain none st = (st, none)
assign_resolved normalize now domain (some ip) st = assign now (normalize domain) (some ip) st

unfoldable pub lookup_destination : ℕ → ℕ → FakeIpStore → FakeIpStore × Option (String × Option ℕ)
lookup_destination now address st = elim (lookup address st.ip_to_domain) [
  | none ↦ (st, none)
  | some p ↦ (
    modify p (λ e. record e { last_used = now }) st,
    Option.map (λ (e : FakeIpEntry). (e.domain, e.resolved)) (lookup p st.entries),
  )
]
