-- ===== src/FakeIp/Reuse.antt =====
-- What a caller of internal/networkruntime/tun_fakeip.go relies on: an address leads back to the
-- domain it was given for, and no domain loses its address while it is in use.
use zju_portal_core.Base.{
  ℕ, ◌+◌, ◌^◌, ◌≤◌, ◌<◌, ◌≡◌, ◌≢◌, sym, ap, subst, ◌∙◌, not, ◌||◌, Option, some, inl, inr, [],
  String, string_eq, nat_eq, eq_iff, Bool-cases, Option-cases, arith, ltb,
}
use zju_portal_core.Base.Map.{lookup, insert, delete, lookup-insert, lookup-delete, IsMap}
use zju_portal_core.FakeIp.{
  FakeIpEntry, FakeIpStore, Prefix, new_fake_ip_store, domain_at, entry_used, fake_ip_reuse_after,
  oldest_reusable, modify, refresh, reassign, assign, address_of, lookup_destination,
}
use zju_portal_core.FakeIp.Range.{new_fake_ip_store_range}
use zju_portal_core.FakeIp.Bijection.{IsStore, assign-IsStore, oldest_reusable-IsReusable}

new_fake_ip_store_empty :
    (prefix : Prefix) (st : FakeIpStore)
    → new_fake_ip_store (some prefix) ≡ some st
    → (st.domain_to_ip ≡ []) × (st.ip_to_domain ≡ [])
unfolding new_fake_ip_store
new_fake_ip_store_empty prefix st e =
    elim (Bool-cases (not prefix.is4 || ltb prefix.bits 8 || ltb 30 prefix.bits)) [
      | inl bad ↦ absurd (ground arith)
      | inr good ↦ ground arith
    ]

-- The store of an accepted prefix is consistent.
pub new_fake_ip_store-IsStore :
    (prefix : Prefix) (st : FakeIpStore)
    → prefix.address < 2 ^ 32
    → new_fake_ip_store (some prefix) ≡ some st
    → IsStore st
unfolding lookup
new_fake_ip_store-IsStore prefix st h e =
    let (_, _, some_room, below) = new_fake_ip_store_range prefix st h e in
    let (domains, addresses) = new_fake_ip_store_empty prefix st e in
    record {
      owner = λ d p q. ground arith;
      holder = λ a p q. ground arith;
      fresh = λ a q. ground arith;
      distinct = subst (λ l. IsMap l) (sym domains) tt;
      bounded = omega (arith, some_room);
      no_wrap = below;
    }

seen_at :
    (later a : ℕ) (st : FakeIpStore) (e : FakeIpEntry)
    → lookup a st.ip_to_domain ≡ some a
    → lookup a st.entries ≡ some e
    → (lookup_destination later a st).1 ≡ some (e.domain, e.resolved)
unfolding lookup_destination
seen_at later a st e h k = ground arith

refresh_seen :
    (now later p : ℕ) (domain : String) (resolved : Option ℕ) (st : FakeIpStore)
    → IsStore st
    → lookup domain st.domain_to_ip ≡ some p
    → (address_of st p ≡ p)
      × ((lookup_destination later p (refresh now resolved p st)).1 ≡ some (domain, resolved))
unfolding refresh
refresh_seen now later p domain resolved st s h = elim (Option-cases (lookup p st.entries)) [
  | inl e ↦ absurd (ground (arith, s.owner domain p))
  | inr (c, e) ↦
      let c' = record c { resolved = resolved; last_used = now } in
      let mine : c.domain ≡ domain = ground (arith, s.owner domain p, eq_iff c.domain domain) in
      (
        ground (arith, s.owner domain p),
        rw (e, modify, refresh)
            (seen_at later p (record st { entries = insert p c' st.entries }) c'
                (ground (arith, s.owner domain p)) (ground (arith, lookup-insert p p c' st.entries))
              ∙ ap (λ d. some (d, resolved)) mine),
      )
]

reassign_seen :
    (now later p : ℕ) (domain : String) (resolved : Option ℕ) (st : FakeIpStore)
    → IsStore st
    → lookup p st.ip_to_domain ≡ some p
    → (address_of st p ≡ p)
      × ((lookup_destination later p (reassign now domain resolved p st)).1
          ≡ some (domain, resolved))
unfolding reassign
reassign_seen now later p domain resolved st s there = elim (Option-cases (lookup p st.entries)) [
  | inl e ↦ absurd (ground (arith, s.holder p p, s.owner (domain_at st p) p))
  | inr (c, e) ↦
      let c' = record c { domain = domain; resolved = resolved; last_used = now } in
      (
        ground (arith, s.holder p p, s.owner (domain_at st p) p),
        rw (e, modify, reassign)
            (seen_at later p _ c' there (ground (arith, lookup-insert p p c' st.entries))),
      )
]

-- In a consistent store, after `assign` returns an address for a domain, `lookup_destination` of
-- that address gives the domain and what it was last resolved to.
pub lookup_destination-assign :
    (now later : ℕ) (domain : String) (resolved : Option ℕ) (st : FakeIpStore) (a : ℕ)
    → IsStore st
    → (assign now domain resolved st).1 ≡ some a
    → (lookup_destination later a (assign now domain resolved st).0).1 ≡ some (domain, resolved)
unfolding assign
lookup_destination-assign now later domain resolved st a s h =
    elim (Option-cases (lookup domain st.domain_to_ip)) [
      | inr (p, e) ↦
          let (same, seen) = refresh_seen now later p domain resolved st s e in
          let this : a ≡ p = ground arith in rw (this, e, assign) seen
      | inl new ↦ elim (Bool-cases (ltb st.last st.next)) [
        | inr room ↦
            let this : a ≡ st.next = ground arith in
            let e : FakeIpEntry = record {
              domain = domain;
              address = st.next;
              resolved = resolved;
              last_used = now;
            } in
            rw (this, new, assign, room)
              (seen_at later st.next _ e
                (ground (arith, lookup-insert st.next st.next st.next st.ip_to_domain))
                (ground (arith, lookup-insert st.next st.next e st.entries)))
        | inl full ↦ elim (Option-cases (oldest_reusable st now)) [
          | inl nobody ↦ absurd (ground arith)
          | inr (p, found) ↦
              let (same, seen) =
                reassign_seen now later p domain resolved st s
                  (oldest_reusable-IsReusable st now p s found).1 in
              let this : a ≡ p = ground arith in rw (this, new, assign, full, found) seen
        ]
      ]
    ]

-- In a consistent store no two domains share an address.
pub address_unique :
    (st : FakeIpStore) (d e : String) (p : ℕ)
    → IsStore st
    → lookup d st.domain_to_ip ≡ some p
    → lookup e st.domain_to_ip ≡ some p
    → d ≡ e
address_unique st d e p s h k = elim (Option-cases (lookup p st.entries)) [
  | inl none? ↦ absurd (ground (arith, s.owner d p))
  | inr (c, found) ↦
      let one : c.domain ≡ d = ground (arith, s.owner d p, eq_iff c.domain d) in
      let two : c.domain ≡ e = ground (arith, s.owner e p, eq_iff c.domain e) in sym one ∙ two
]

-- In a consistent store a domain whose address was used within the last thirty minutes keeps it when another domain asks
-- for one.
pub assign_keeps_active :
    (now : ℕ) (domain d : String) (resolved : Option ℕ) (st : FakeIpStore) (p : ℕ)
    → IsStore st
    → domain ≢ d
    → lookup d st.domain_to_ip ≡ some p
    → now < entry_used st p + fake_ip_reuse_after
    → lookup d (assign now domain resolved st).0.domain_to_ip ≡ some p
unfolding assign
assign_keeps_active now domain d resolved st p s other mine active =
    elim (Option-cases (lookup domain st.domain_to_ip)) [
      | inr (q, e) ↦ rw (e, assign) (refreshed q)
      | inl new ↦ elim (Bool-cases (ltb st.last st.next)) [
        | inr room ↦
            rw (new, assign, room)
              (ground (arith, lookup-insert domain d st.next st.domain_to_ip, eq_iff domain d))
        | inl full ↦ elim (Option-cases (oldest_reusable st now)) [
          | inl nobody ↦ rw (new, assign, full, nobody) mine
          | inr (q, found) ↦
              rw (new, assign, full, found) (moved q (oldest_reusable-IsReusable st now q s found))
        ]
      ]
    ]
  where
    refreshed : (q : ℕ) → lookup d (refresh now resolved q st).domain_to_ip ≡ some p
    refreshed q = elim (Option-cases (lookup q st.entries)) [
      | inl e ↦ rw (e, modify, refresh) mine
      | inr (c, e) ↦ rw (e, modify, refresh) mine
    ]

    moved :
        (q : ℕ)
        → (entry_used st q + fake_ip_reuse_after ≤ now) × (lookup q st.ip_to_domain ≡ some q)
        → lookup d (reassign now domain resolved q st).domain_to_ip ≡ some p
    moved q r = elim (Option-cases (lookup q st.entries)) [
      | inl e ↦ absurd (ground (arith, s.holder q q, s.owner (domain_at st q) q))
      | inr (c, e) ↦
          rw (e, modify, reassign)
            (ground (
              arith,
              lookup-insert domain d q (delete c.domain st.domain_to_ip),
              lookup-delete c.domain d st.domain_to_ip,
              eq_iff domain d,
              eq_iff c.domain d,
              s.holder q q,
              s.owner d p,
            ))
    ]

-- A run of calls from an accepted prefix, by any goroutines in any order.
pub data Reach (st : FakeIpStore) : FakeIpStore → Type 0 where
  here : Reach st st
  assigned :
      {t : FakeIpStore} (now : ℕ) (domain : String) (resolved : Option ℕ)
      → Reach st t
      → Reach st (assign now domain resolved t).0
  looked_up : {t : FakeIpStore} (now a : ℕ) → Reach st t → Reach st (lookup_destination now a t).0

lookup_destination-IsStore :
    (now a : ℕ) (st : FakeIpStore) → IsStore st → IsStore (lookup_destination now a st).0
unfolding lookup_destination
lookup_destination-IsStore now a st s = elim (Option-cases (lookup a st.ip_to_domain)) [
  | inl e ↦ rw (e, lookup_destination) s
  | inr (p, e) ↦ elim (Option-cases (lookup p st.entries)) [
    | inl f ↦ rw (e, lookup_destination, f, modify) s
    | inr (c, f) ↦
        let c' = record c { last_used = now } in
        rw (e, lookup_destination, f, modify)
          (record {
            owner = λ d q h. ground (arith, lookup-insert p q c' st.entries, s.owner d q);
            holder = λ b q h. ground (arith, lookup-insert p b c' st.entries, s.holder b q);
            fresh = s.fresh;
            distinct = s.distinct;
            bounded = s.bounded;
            no_wrap = s.no_wrap;
          })
  ]
]

-- Every store that calls of `assign` and `lookup_destination` reach from a consistent one, so from
-- that of any accepted prefix, is consistent: its two maps are inverse to one another, and no address
-- past the range is given out.
pub Reach-IsStore : {st t : FakeIpStore} → IsStore st → Reach st t → IsStore t
Reach-IsStore s here = s
Reach-IsStore s (assigned {t} now domain resolved r) =
    assign-IsStore now domain resolved t (Reach-IsStore s r)
Reach-IsStore s (looked_up {t} now a r) = lookup_destination-IsStore now a t (Reach-IsStore s r)
