-- ===== src/FakeIp/Bijection.antt =====
-- The two maps of internal/networkruntime/tun_fakeip.go are inverse to one another.
use mathlib.Core.Option.{some-injective}
use zju_portal_core.Base.{
  ℕ, ◌+◌, ◌^◌, ◌≤◌, ◌<◌, ◌≡◌, refl, ◌⊎◌, Bool, true, false, ◌&&◌, Option, none, some, inl, inr,
  List, [], ◌∷◌, String, ◌==◌, string_eq, nat_eq, eq_iff, Bool-cases, Option-cases, arith, ltb,
  nat_beq,
}
use zju_portal_core.Base.Map.{
  lookup, delete, lookup-insert, lookup-delete, IsMap, HasEntry, lookup-HasEntry, insert-IsMap,
  delete-IsMap,
}
use zju_portal_core.FakeIp.{
  FakeIpEntry, FakeIpStore, domain_at, entry_used, fake_ip_reuse_after, oldest_in, oldest_reusable,
  skip_entry, modify, refresh, reassign, allocate, assign,
}

-- The entry at p is that of the domain d, and knows its address.
abbrev pub holds : FakeIpStore → ℕ → String → Bool
holds st p d = elim (lookup p st.entries) [
  | some e ↦ e.domain == d && nat_beq e.address p
  | none ↦ false
]

pub record IsStore (st : FakeIpStore) : Type 0 where
  -- A domain leads to its own entry, which its address leads to as well.
  pub owner :
      (d : String) (p : ℕ)
      → lookup d st.domain_to_ip ≡ some p
      → (holds st p d ≡ true) × (lookup p st.ip_to_domain ≡ some p)
  -- An address that was given out leads to an entry whose domain leads back to it.
  pub holder :
      (a p : ℕ)
      → lookup a st.ip_to_domain ≡ some p
      → (p ≡ a) × (lookup (domain_at st a) st.domain_to_ip ≡ some a)
  -- Addresses are given out from the start of the range up to `next`.
  pub fresh : (a : ℕ) → st.next ≤ a → lookup a st.ip_to_domain ≡ none
  pub distinct : IsMap st.domain_to_ip
  pub bounded : st.next ≤ st.last + 1
  pub no_wrap : st.last + 1 < 2 ^ 32

refresh-IsStore :
    (now : ℕ) (resolved : Option ℕ) (p : ℕ) (st : FakeIpStore)
    → IsStore st
    → IsStore (refresh now resolved p st)
unfolding refresh
refresh-IsStore now resolved p st s = elim (Option-cases (lookup p st.entries)) [
  | inl e ↦ rw (e, modify, refresh) s
  | inr (c, e) ↦
      let c' = record c { resolved = resolved; last_used = now } in
      rw (e, modify, refresh)
        (record {
          owner = λ d q h. ground (arith, lookup-insert p q c' st.entries, s.owner d q);
          holder = λ a q h. ground (arith, lookup-insert p a c' st.entries, s.holder a q);
          fresh = s.fresh;
          distinct = s.distinct;
          bounded = s.bounded;
          no_wrap = s.no_wrap;
        })
]

allocate-IsStore :
    (now : ℕ) (domain : String) (resolved : Option ℕ) (st : FakeIpStore)
    → IsStore st
    → lookup domain st.domain_to_ip ≡ none
    → st.next ≤ st.last
    → IsStore (allocate now domain resolved st)
unfolding allocate
allocate-IsStore now domain resolved st s new room =
    let entry : FakeIpEntry = record {
      domain = domain;
      address = st.next;
      resolved = resolved;
      last_used = now;
    } in
    record {
      owner = λ d q h. ground (
        arith,
        lookup-insert st.next q entry st.entries,
        lookup-insert domain d st.next st.domain_to_ip,
        lookup-insert st.next q st.next st.ip_to_domain,
        eq_iff domain d,
        s.owner d q,
        s.fresh st.next,
      );
      holder = λ a q h. ground (
        arith,
        lookup-insert st.next a entry st.entries,
        lookup-insert domain (domain_at st a) st.next st.domain_to_ip,
        lookup-insert domain domain st.next st.domain_to_ip,
        lookup-insert st.next a st.next st.ip_to_domain,
        eq_iff domain (domain_at st a),
        eq_iff domain domain,
        s.holder a q,
        s.fresh st.next,
      );
      fresh = λ a h.
          ground (arith, lookup-insert st.next a st.next st.ip_to_domain, s.fresh a, s.no_wrap);
      distinct = insert-IsMap domain st.next st.domain_to_ip s.distinct;
      bounded = omega (arith, s.no_wrap);
      no_wrap = s.no_wrap;
    }

reassign-IsStore :
    (now : ℕ) (domain : String) (resolved : Option ℕ) (p : ℕ) (st : FakeIpStore)
    → IsStore st
    → lookup domain st.domain_to_ip ≡ none
    → lookup p st.ip_to_domain ≡ some p
    → IsStore (reassign now domain resolved p st)
unfolding reassign
reassign-IsStore now domain resolved p st s new there = elim (Option-cases (lookup p st.entries)) [
  | inl e ↦ absurd (ground (arith, s.holder p p, s.owner (domain_at st p) p))
  | inr (c, e) ↦
      let c' = record c { domain = domain; resolved = resolved; last_used = now } in
      let old : domain_at st p ≡ c.domain = ground arith in
      let back : lookup c.domain st.domain_to_ip ≡ some p = ground (arith, s.holder p p) in
      let kept = delete c.domain st.domain_to_ip in
      rw (e, modify, reassign)
        (record {
          owner = λ d q h. ground (
            arith,
            lookup-insert domain d p kept,
            lookup-delete c.domain d st.domain_to_ip,
            lookup-insert p q c' st.entries,
            s.owner d q,
            s.owner c.domain p,
            eq_iff domain d,
            eq_iff c.domain d,
          );
          holder = λ a q h. ground (
            arith,
            lookup-insert p a c' st.entries,
            lookup-insert domain domain p kept,
            lookup-insert domain (domain_at st a) p kept,
            lookup-delete c.domain (domain_at st a) st.domain_to_ip,
            s.holder a q,
            eq_iff domain domain,
            eq_iff domain (domain_at st a),
            eq_iff c.domain (domain_at st a),
          );
          fresh = s.fresh;
          distinct =
              insert-IsMap domain p _ (delete-IsMap (domain_at st p) st.domain_to_ip s.distinct);
          bounded = s.bounded;
          no_wrap = s.no_wrap;
        })
]

-- What `oldestReusable` finds is an entry of the map that was idle for the whole interval.
record IsReusable (st : FakeIpStore) (now p : ℕ) (entries : List (String × ℕ)) (acc : Option ℕ)
    : Type 0 where
  idle : entry_used st p + fake_ip_reuse_after ≤ now
  seen : (acc ≡ some p) ⊎ ((d : String) × HasEntry d p entries)

abbrev AccIdle : FakeIpStore → ℕ → Option ℕ → Type 0
AccIdle st now none = Unit {0}
AccIdle st now (some p) = entry_used st p + fake_ip_reuse_after ≤ now

oldest_in-IsReusable :
    (st : FakeIpStore) (now p : ℕ) (entries : List (String × ℕ)) (acc : Option ℕ)
    → AccIdle st now acc
    → oldest_in st now entries acc ≡ some p
    → IsReusable st now p entries acc
unfolding oldest_in skip_entry
oldest_in-IsReusable st now p [] none a h = cc
oldest_in-IsReusable st now p [] (some q) a h = record { idle = ground arith; seen = inl h }
oldest_in-IsReusable st now p ((d, q) ∷ rest) acc a h =
    elim (Bool-cases (skip_entry st now q acc)) [
      | inl skip ↦
          let r = oldest_in-IsReusable st now p rest acc a (rw skip at h) in
          record { idle = r.idle; seen = passed r.seen }
      | inr take ↦
          let r = oldest_in-IsReusable st now p rest (some q) (fit acc take) (rw take at h) in
          record { idle = r.idle; seen = taken r.seen }
    ]
  where
    passed :
        (acc ≡ some p) ⊎ ((d : String) × HasEntry d p rest)
        → (acc ≡ some p) ⊎ ((e : String) × HasEntry e p ((d, q) ∷ rest))
    passed (inl e) = inl e
    passed (inr (e, i)) = inr (e, inr i)

    taken :
        (◌≡◌ {A = Option ℕ} (some q) (some p)) ⊎ ((d : String) × HasEntry d p rest)
        → (acc ≡ some p) ⊎ ((e : String) × HasEntry e p ((d, q) ∷ rest))
    taken (inl e) = inr (d, inl (refl, some-injective _ _ e))
    taken (inr (e, i)) = inr (e, inr i)

    fit :
        (acc : Option ℕ)
        → skip_entry st now q acc ≡ false
        → entry_used st q + fake_ip_reuse_after ≤ now
    fit none e = ground arith
    fit (some z) e = ground arith

pub oldest_reusable-IsReusable :
    (st : FakeIpStore) (now p : ℕ)
    → IsStore st
    → oldest_reusable st now ≡ some p
    → (entry_used st p + fake_ip_reuse_after ≤ now) × (lookup p st.ip_to_domain ≡ some p)
unfolding oldest_reusable
oldest_reusable-IsReusable st now p s h =
    let r = oldest_in-IsReusable st now p st.domain_to_ip none tt h in
    (
      r.idle,
      elim r.seen [
        | inl e ↦ cc
        | inr (d, i) ↦ (s.owner d p (lookup-HasEntry d p st.domain_to_ip s.distinct i)).1
      ],
    )

-- Every call of `assign` keeps the maps inverse to one another.
pub assign-IsStore :
    (now : ℕ) (domain : String) (resolved : Option ℕ) (st : FakeIpStore)
    → IsStore st
    → IsStore (assign now domain resolved st).0
unfolding assign
assign-IsStore now domain resolved st s = elim (Option-cases (lookup domain st.domain_to_ip)) [
  | inr (p, e) ↦ rw (e, assign) (refresh-IsStore now resolved p st s)
  | inl new ↦ elim (Bool-cases (ltb st.last st.next)) [
    | inr room ↦
        rw (new, assign, room) (allocate-IsStore now domain resolved st s new (ground arith))
    | inl full ↦ elim (Option-cases (oldest_reusable st now)) [
      | inl nobody ↦ rw (new, assign, full, nobody) s
      | inr (p, found) ↦
          rw (new, assign, full, found)
            (reassign-IsStore now domain resolved p st s new
              (oldest_reusable-IsReusable st now p s found).1)
    ]
  ]
]
