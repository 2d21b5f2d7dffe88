-- ===== src/L3Tunnel/Conntrack/Consistent.antt =====
-- What holds of the table of client/atrust/l3tunnelconntrack.go between calls, and what making and evicting
-- entries does to it.
use zju_portal_core.Base.{
  ℕ, zero, suc, ◌+◌, ◌-◌, ◌<◌, ◌≡◌, refl, ◌⊎◌, inl, inr, Bool, true, false, not, ◌&&◌, none, some,
  List, [], ◌∷◌, String, ◌==◌, string_eq, nat_eq, leb, if◌then◌else◌, length, arith, Option-cases,
  Bool-cases, eq_iff,
}
use zju_portal_core.Base.Map.{
  lookup, lookup-insert, lookup-delete, IsMap, insert-IsMap, delete-IsMap,
}
use zju_portal_core.L3Tunnel.Conntrack.{
  Conntrack, ConntrackMgr, new_conntrack_mgr, completed, used_at, forget, sweep, find_oldest, evict,
  cleanup, create, get_or_create, new_conntrack, modify,
}
use zju_portal_core.L3Tunnel.Conntrack.Eviction.{find_oldest_least_recent}

-- A conntrack whose channel is still open.
abbrev pub waiting : ConntrackMgr → ℕ → Bool
waiting m id = elim (lookup id m.store) [ some ct ↦ not ct.auth_closed | none ↦ false ]

abbrev pub has_key : ConntrackMgr → ℕ → String → Bool
has_key m p k = elim (lookup p m.store) [ some ct ↦ ct.key == k | none ↦ false ]

pub record IsConsistent (m : ConntrackMgr) : Type 0 where
  -- The IDs that can be answered are exactly those whose channel is open.
  pub ids : (id : ℕ) → lookup id m.by_id ≡ (if waiting m id then some id else none)
  -- The key map leads to a conntrack of that key.
  pub keys : (k : String) (p : ℕ) → lookup k m.by_key ≡ some p → has_key m p k ≡ true
  pub distinct : IsMap m.by_key
  -- Authentication IDs are given out once.
  pub fresh : (id : ℕ) → m.next_auth_id < id → lookup id m.store ≡ none
  -- No channel was closed twice.
  pub no_panic : m.panics ≡ 0

pub new_conntrack_mgr-IsConsistent : IsConsistent new_conntrack_mgr
unfolding new_conntrack_mgr lookup
new_conntrack_mgr-IsConsistent = record {
  ids = λ id. refl;
  keys = λ k p h. cc;
  distinct = tt;
  fresh = λ id h. refl;
  no_panic = refl;
}

pub forget-IsConsistent :
    (key : String) (p : ℕ) (m : ConntrackMgr)
    → completed m p ≡ true
    → IsConsistent m
    → IsConsistent (forget key p m)
unfolding forget
forget-IsConsistent key p m done c = record {
  ids = λ id. ground (arith, lookup-delete p id m.by_id, c.ids id);
  keys = λ k q h. ground (arith, lookup-delete key k m.by_key, c.keys k q);
  distinct = delete-IsMap key m.by_key c.distinct;
  fresh = c.fresh;
  no_panic = c.no_panic;
}

pub sweep-IsConsistent :
    (cutoff : ℕ) (entries : List (String × ℕ)) (m : ConntrackMgr)
    → IsConsistent m
    → IsConsistent (sweep cutoff entries m)
unfolding sweep
sweep-IsConsistent cutoff [] m c = c
sweep-IsConsistent cutoff ((key, p) ∷ rest) m c =
    sweep-IsConsistent cutoff rest _ (one (Bool-cases (completed m p && leb (used_at m p) cutoff)))
  where
    one :
        ((completed m p && leb (used_at m p) cutoff) ≡ true)
          ⊎ ((completed m p && leb (used_at m p) cutoff) ≡ false)
        → IsConsistent (if completed m p && leb (used_at m p) cutoff then forget key p m else m)
    one (inl e) = rw e (forget-IsConsistent key p m (ground arith) c)
    one (inr e) = rw e c

pub evict-IsConsistent :
    (fuel : ℕ) (m : ConntrackMgr) → IsConsistent m → IsConsistent (evict fuel m)
unfolding evict
evict-IsConsistent zero m c = c
evict-IsConsistent (suc fuel) m c = elim (Bool-cases (leb m.limit (length m.by_key))) [
  | inr below ↦ rw (below, evict) c
  | inl full ↦ elim (Option-cases (find_oldest m m.by_key none)) [
    | inl nobody ↦ rw (full, evict, nobody) c
    | inr ((key, p), found) ↦
        rw (full, evict, found)
          (evict-IsConsistent fuel (forget key p m)
            (forget-IsConsistent key p m (find_oldest_least_recent m (key, p) found).0 c))
  ]
]

pub cleanup-IsConsistent :
    (now : ℕ) (m : ConntrackMgr) → IsConsistent m → IsConsistent (cleanup now m)
unfolding cleanup
cleanup-IsConsistent now m c =
    evict-IsConsistent _ _ (sweep-IsConsistent (now - m.idle_after) m.by_key m c)

pub create-IsConsistent :
    (now : ℕ) (key app_id node_group_id : String) (m : ConntrackMgr)
    → IsConsistent m
    → IsConsistent (create now key app_id node_group_id m).0
unfolding create
create-IsConsistent now key app_id node_group_id m c = record {
  ids = λ id. ground (
    arith,
    lookup-insert (m.next_auth_id + 1) id (m.next_auth_id + 1) m.by_id,
    lookup-insert {K = ℕ} {V = Conntrack} (m.next_auth_id + 1) id
        (new_conntrack now (m.next_auth_id + 1) key app_id node_group_id) m.store,
    c.ids id,
  );
  keys = λ k p h. ground (
    arith,
    eq_iff key k,
    lookup-insert key k (m.next_auth_id + 1) m.by_key,
    lookup-insert {K = ℕ} {V = Conntrack} (m.next_auth_id + 1) p
        (new_conntrack now (m.next_auth_id + 1) key app_id node_group_id) m.store,
    c.keys k p,
    c.fresh p,
  );
  distinct = insert-IsMap key (m.next_auth_id + 1) m.by_key c.distinct;
  fresh = λ id h. ground (
    arith,
    lookup-insert {K = ℕ} {V = Conntrack} (m.next_auth_id + 1) id
        (new_conntrack now (m.next_auth_id + 1) key app_id node_group_id) m.store,
    c.fresh id,
  );
  no_panic = c.no_panic;
}

-- A change of a conntrack that leaves its key and its channel alone.
pub modify-IsConsistent :
    (p : ℕ) (f : Conntrack → Conntrack) (m : ConntrackMgr)
    → ((ct : Conntrack) → (f ct).auth_closed ≡ ct.auth_closed)
    → ((ct : Conntrack) → (f ct).key ≡ ct.key)
    → IsConsistent m
    → IsConsistent (modify p f m)
modify-IsConsistent p f m closed same c = elim (Option-cases (lookup p m.store)) [
  | inl e ↦ rw (e, modify) c
  | inr (ct, e) ↦
      rw (e, modify)
        (record {
          ids = λ id. ground (arith, lookup-insert p id (f ct) m.store, c.ids id, closed ct);
          keys = λ k q h. ground (arith, lookup-insert p q (f ct) m.store, c.keys k q, same ct);
          distinct = c.distinct;
          fresh = λ id h. ground (arith, lookup-insert p id (f ct) m.store, c.fresh id);
          no_panic = c.no_panic;
        })
]

pub get_or_create-IsConsistent :
    (now : ℕ) (key app_id node_group_id : String) (m : ConntrackMgr)
    → IsConsistent m
    → IsConsistent (get_or_create now key app_id node_group_id m).0
unfolding get_or_create
get_or_create-IsConsistent now key app_id node_group_id m c =
    elim (Option-cases (lookup key m.by_key)) [
      | inr (p, e) ↦ rw (e, get_or_create) (modify-IsConsistent p _ m (λ ct. refl) (λ ct. refl) c)
      | inl e ↦ rw (e, get_or_create) (create-IsConsistent now key app_id node_group_id _ roomy)
    ]
  where
    roomy : IsConsistent (if leb m.limit (length m.by_key) then cleanup now m else m)
    roomy = elim (Bool-cases (leb m.limit (length m.by_key))) [
      | inl full ↦ rw full (cleanup-IsConsistent now m c)
      | inr below ↦ rw below c
    ]
