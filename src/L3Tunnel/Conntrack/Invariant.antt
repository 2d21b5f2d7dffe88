-- ===== src/L3Tunnel/Conntrack/Invariant.antt =====
-- The table of client/atrust/l3tunnelconntrack.go under any interleaving of its calls.
use zju_portal_core.Base.{
  ℕ, ◌<◌, ◌≡◌, refl, inl, inr, true, false, Option, none, some, String, string_eq, nat_eq,
  if◌then◌else◌, arith, Option-cases, Bool-cases, nat_beq, nat_beq_iff,
}
use zju_portal_core.Base.Map.{lookup, delete, lookup-insert, lookup-delete, IsMap, delete-IsMap}
use zju_portal_core.Core.Error.{Error}
use zju_portal_core.L3Tunnel.Conntrack.{
  Conntrack, ConntrackMgr, new_conntrack_mgr, get_or_create, mark_auth, timeout_auth, modify,
  close_auth, drop_key,
}
use zju_portal_core.L3Tunnel.Conntrack.Consistent.{
  waiting, has_key, IsConsistent, new_conntrack_mgr-IsConsistent, get_or_create-IsConsistent,
}

-- The state between taking an ID from `byID` and closing its channel.
record IsSettling (id : ℕ) (m : ConntrackMgr) : Type 0 where
  open_still : waiting m id ≡ true
  ids :
      (j : ℕ)
      → lookup j m.by_id ≡ (if nat_beq id j then none else if waiting m j then some j else none)
  keys : (k : String) (p : ℕ) → lookup k m.by_key ≡ some p → has_key m p k ≡ true
  distinct : IsMap m.by_key
  fresh : (j : ℕ) → m.next_auth_id < j → lookup j m.store ≡ none
  no_panic : m.panics ≡ 0

take-IsSettling :
    (id p : ℕ) (m : ConntrackMgr)
    → IsConsistent m
    → lookup id m.by_id ≡ some p
    → (p ≡ id) × IsSettling id (record m { by_id = delete id m.by_id })
take-IsSettling id p m c e = (
  ground (arith, c.ids id),
  record {
    open_still = ground (arith, c.ids id);
    ids = λ j. ground (arith, lookup-delete id j m.by_id, c.ids j);
    keys = c.keys;
    distinct = c.distinct;
    fresh = c.fresh;
    no_panic = c.no_panic;
  },
)

modify-IsSettling :
    (id : ℕ) (f : Conntrack → Conntrack) (m : ConntrackMgr)
    → ((ct : Conntrack) → (f ct).auth_closed ≡ ct.auth_closed)
    → ((ct : Conntrack) → (f ct).key ≡ ct.key)
    → IsSettling id m
    → IsSettling id (modify id f m)
modify-IsSettling id f m closed same c = elim (Option-cases (lookup id m.store)) [
  | inl e ↦ rw (e, modify) c
  | inr (ct, e) ↦
      rw (e, modify)
        (record {
          open_still = ground (arith, lookup-insert id id (f ct) m.store, c.open_still, closed ct);
          ids = λ j. ground (arith, lookup-insert id j (f ct) m.store, c.ids j, closed ct);
          keys = λ k q h. ground (arith, lookup-insert id q (f ct) m.store, c.keys k q, same ct);
          distinct = c.distinct;
          fresh = λ j h. ground (arith, lookup-insert id j (f ct) m.store, c.fresh j);
          no_panic = c.no_panic;
        })
]

close_auth-IsConsistent :
    (id : ℕ) (m : ConntrackMgr) → IsSettling id m → IsConsistent (close_auth id m)
close_auth-IsConsistent id m c = elim (Option-cases (lookup id m.store)) [
  | inl e ↦ absurd (ground (arith, c.open_still))
  | inr (ct, e) ↦
      let opened : ct.auth_closed ≡ false = ground (arith, c.open_still) in
      rw (e, close_auth, opened)
        (record {
          ids = λ j. ground (
            arith,
            lookup-insert {K = ℕ} {V = Conntrack} id j (record ct { auth_closed = true }) m.store,
            c.ids j,
          );
          keys = λ k q h. ground (
            arith,
            lookup-insert {K = ℕ} {V = Conntrack} id q (record ct { auth_closed = true }) m.store,
            c.keys k q,
          );
          distinct = c.distinct;
          fresh = λ j h. ground (
            arith,
            lookup-insert {K = ℕ} {V = Conntrack} id j (record ct { auth_closed = true }) m.store,
            c.fresh j,
          );
          no_panic = c.no_panic;
        })
]

pub mark_auth-IsConsistent :
    (id : ℕ) (token : String) (e : Option Error) (m : ConntrackMgr)
    → IsConsistent m
    → IsConsistent (mark_auth id token e m)
unfolding mark_auth
mark_auth-IsConsistent id token e m c = elim (Option-cases (lookup id m.by_id)) [
  | inl gone ↦ rw (gone, mark_auth) c
  | inr (p, there) ↦
      let (same, settling) = take-IsSettling id p m c there in
      rw (there, mark_auth, same)
        (close_auth-IsConsistent id _ (modify-IsSettling id _ _ (λ ct. refl) (λ ct. refl) settling))
]

drop_key-IsSettling :
    (key : String) (p id : ℕ) (m : ConntrackMgr)
    → IsSettling id m
    → IsSettling id (drop_key key p m)
drop_key-IsSettling key p id m c = elim (Option-cases (lookup key m.by_key)) [
  | inl e ↦ rw (e, drop_key) c
  | inr (q, e) ↦ elim (Bool-cases (nat_beq q p)) [
    | inr other ↦ rw (e, drop_key, other) c
    | inl this ↦
        rw (e, drop_key, this)
          (record {
            open_still = c.open_still;
            ids = c.ids;
            keys = λ k r h. ground (arith, lookup-delete key k m.by_key, c.keys k r);
            distinct = delete-IsMap key m.by_key c.distinct;
            fresh = c.fresh;
            no_panic = c.no_panic;
          })
  ]
]

pub timeout_auth-IsConsistent :
    (ct : Conntrack) (e : Option Error) (m : ConntrackMgr)
    → IsConsistent m
    → IsConsistent (timeout_auth ct e m).0
unfolding timeout_auth
timeout_auth-IsConsistent ct e m c = elim (Option-cases (lookup ct.auth_id m.by_id)) [
  | inl gone ↦ rw (gone, timeout_auth) c
  | inr (p, there) ↦
      let (same, settling) = take-IsSettling ct.auth_id p m c there in
      rw (there, timeout_auth, same, (nat_beq_iff ct.auth_id ct.auth_id).1 refl)
        (close_auth-IsConsistent ct.auth_id _ (
          modify-IsSettling ct.auth_id _ _ (λ c. refl) (λ c. refl)
            (drop_key-IsSettling ct.key ct.auth_id ct.auth_id _ settling)))
]

-- One call on the table, by whichever goroutine holds the lock.
pub data Step (m : ConntrackMgr) : ConntrackMgr → Type 0 where
  gets :
      (now : ℕ) (key app_id node_group_id : String)
      → Step m (get_or_create now key app_id node_group_id m).0
  marks : (id : ℕ) (token : String) (e : Option Error) → Step m (mark_auth id token e m)
  times_out : (ct : Conntrack) (e : Option Error) → Step m (timeout_auth ct e m).0

pub data Reach (m : ConntrackMgr) : ConntrackMgr → Type 0 where
  here : Reach m m
  next : {t u : ConntrackMgr} → Reach m t → Step t u → Reach m u

Step-IsConsistent : {m t : ConntrackMgr} → Step m t → IsConsistent m → IsConsistent t
Step-IsConsistent {m} (gets now key app_id node_group_id) c =
    get_or_create-IsConsistent now key app_id node_group_id m c
Step-IsConsistent {m} (marks id token e) c = mark_auth-IsConsistent id token e m c
Step-IsConsistent {m} (times_out ct e) c = timeout_auth-IsConsistent ct e m c

-- After any sequence of calls from a new table: the IDs that `markAuth` and
-- `timeoutAuth` find are exactly those of conntracks whose channel is still open, the key map leads
-- only to conntracks of the key, an authentication ID is given out once, and no channel was closed a
-- second time.
pub Reach-IsConsistent : {m : ConntrackMgr} → Reach new_conntrack_mgr m → IsConsistent m
Reach-IsConsistent here = new_conntrack_mgr-IsConsistent
Reach-IsConsistent (next r s) = Step-IsConsistent s (Reach-IsConsistent r)

-- In a consistent table `timeoutAuth` ends the wait of exactly the conntracks whose channel is still open.
pub timeout_auth_ends :
    (ct : Conntrack) (e : Option Error) (m : ConntrackMgr)
    → IsConsistent m
    → (timeout_auth ct e m).1 ≡ waiting m ct.auth_id
unfolding timeout_auth
timeout_auth_ends ct e m c = ground (arith, c.ids ct.auth_id)
