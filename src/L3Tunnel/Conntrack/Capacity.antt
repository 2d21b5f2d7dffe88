-- ===== src/L3Tunnel/Conntrack/Capacity.antt =====
-- The size of the table of client/atrust/l3tunnelconntrack.go, and the entries that are never evicted.
use mathlib.Core.Option.{some-injective}
use zju_portal_core.Base.{
  ℕ, zero, suc, ◌+◌, ◌-◌, ◌≤◌, ◌<◌, ◌≡◌, refl, sym, subst, ◌∙◌, ◌⊎◌, inl, inr, true, false, ◌&&◌,
  none, some, List, [], ◌∷◌, String, ◌==◌, string_eq, nat_eq, leb, if◌then◌else◌, length, arith,
  Option-cases, Bool-cases, eq_iff,
}
use zju_portal_core.Base.Map.{lookup, lookup-delete, length-insert_le, IsMap, delete-IsMap}
use zju_portal_core.L3Tunnel.Conntrack.{
  Conntrack, ConntrackMgr, completed, used_at, forget, sweep, find_oldest, evict, cleanup, create,
  modify, touch, get_or_create,
}
use zju_portal_core.L3Tunnel.Conntrack.Eviction.{
  Among, Among-lookup, AllPending, evict_post, find_oldest_least_recent,
}

sweep-limit :
    (cutoff : ℕ) (entries : List (String × ℕ)) (m : ConntrackMgr)
    → (sweep cutoff entries m).limit ≡ m.limit
unfolding sweep
sweep-limit cutoff [] m = refl
sweep-limit cutoff ((key, p) ∷ rest) m =
    sweep-limit cutoff rest
      (if completed m p && leb (used_at m p) cutoff then forget key p m else m)
    ∙ ground arith

-- After `cleanup` the table is below its limit, or nothing is left in it that may be evicted.
pub cleanup_post :
    (now : ℕ) (m : ConntrackMgr)
    → (length (cleanup now m).by_key < m.limit) ⊎ AllPending (cleanup now m) (cleanup now m).by_key
unfolding cleanup
cleanup_post now m =
    let swept = sweep (now - m.idle_after) m.by_key m in
    elim (evict_post (length swept.by_key) swept (omega arith)) [
      | inl room ↦ inl (omega (arith, sweep-limit (now - m.idle_after) m.by_key m))
      | inr pending ↦ inr pending
    ]

modify-by_key :
    (p : ℕ) (f : Conntrack → Conntrack) (m : ConntrackMgr) → (modify p f m).by_key ≡ m.by_key
modify-by_key p f m = ground arith

-- From a table within its limit, `getOrCreate` leaves it within the limit, or all that `cleanup`
-- leaves in it still waits for authentication.
pub get_or_create_bound :
    (now : ℕ) (key app_id node_group_id : String) (m : ConntrackMgr)
    → length m.by_key ≤ m.limit
    → let t = (get_or_create now key app_id node_group_id m).0 in
      (length t.by_key ≤ m.limit) ⊎ AllPending (cleanup now m) (cleanup now m).by_key
unfolding get_or_create create
get_or_create_bound now key app_id node_group_id m h = elim (Option-cases (lookup key m.by_key)) [
  | inr (p, e) ↦ inl (rw (e, get_or_create) (rw (modify-by_key p (touch now) m) h))
  | inl e ↦ elim (Bool-cases (leb m.limit (length m.by_key))) [
    | inr below ↦ inl (
        rw (e, get_or_create, below)
          (ground (arith, length-insert_le key (m.next_auth_id + 1) m.by_key)))
    | inl full ↦ elim (cleanup_post now m) [
      | inr pending ↦ inr pending
      | inl room ↦ inl (
          rw (e, get_or_create, full)
            (omega (
              arith,
              length-insert_le key ((cleanup now m).next_auth_id + 1) (cleanup now m).by_key,
            )))
    ]
  ]
]

-- An entry whose authentication is under way.
module _ (key : String) (p : ℕ) where
  abbrev Kept : ConntrackMgr → Type 0
  Kept m = (lookup key m.by_key ≡ some p) × (completed m p ≡ false) × IsMap m.by_key

  forget-Kept :
      (k : String) (q : ℕ) (m : ConntrackMgr)
      → completed m q ≡ true
      → (k ≡ key → q ≡ p)
      → Kept m
      → Kept (forget k q m)
  unfolding forget
  forget-Kept k q m done one h = (
    ground (arith, lookup-delete k key m.by_key, eq_iff k key, one),
    h.1,
    delete-IsMap k m.by_key h.2,
  )

  sweep-Kept :
      (cutoff : ℕ) (entries : List (String × ℕ)) (m : ConntrackMgr)
      → ((q : ℕ) → lookup key entries ≡ some q → q ≡ p)
      → IsMap entries
      → Kept m
      → Kept (sweep cutoff entries m)
  unfolding sweep lookup
  sweep-Kept cutoff [] m one d h = h
  sweep-Kept cutoff ((k, q) ∷ rest) m one d h =
      sweep-Kept cutoff rest (if completed m q && leb (used_at m q) cutoff then forget k q m else m)
        later d.1 (step (Bool-cases (completed m q && leb (used_at m q) cutoff)))
    where
      later : (r : ℕ) → lookup key rest ≡ some r → r ≡ p
      later r e = one r (ground (arith, eq_iff k key, d.0))

      step :
          ((completed m q && leb (used_at m q) cutoff) ≡ true)
            ⊎ ((completed m q && leb (used_at m q) cutoff) ≡ false)
          → Kept (if completed m q && leb (used_at m q) cutoff then forget k q m else m)
      step (inl old) =
          rw old (forget-Kept k q m (ground arith) (λ e. one q (ground (arith, eq_iff k key))) h)
      step (inr young) = rw young h

  Among-unique :
      (q : ℕ) (entries : List (String × ℕ))
      → IsMap entries
      → lookup key entries ≡ some p
      → Among (key, q) entries
      → q ≡ p
  unfolding lookup
  Among-unique q [] d h i = absurd i
  Among-unique q ((k, r) ∷ rest) d h (inl e) = ground (arith, eq_iff k key)
  Among-unique q ((k, r) ∷ rest) d h (inr i) = elim (Bool-cases (k == key)) [
    | inl same ↦ let (v, s) = Among-lookup key q rest i in ground (arith, eq_iff k key, d.0)
    | inr other ↦ Among-unique q rest d.1 (rw other at h) i
  ]

  evict-Kept : (fuel : ℕ) (m : ConntrackMgr) → Kept m → Kept (evict fuel m)
  unfolding evict
  evict-Kept zero m h = h
  evict-Kept (suc fuel) m h = elim (Bool-cases (leb m.limit (length m.by_key))) [
    | inr below ↦ rw (below, evict) h
    | inl full ↦ elim (Option-cases (find_oldest m m.by_key none)) [
      | inl nobody ↦ rw (full, evict, nobody) h
      | inr ((k, q), found) ↦
          let (done, there, _) = find_oldest_least_recent m (k, q) found in
          rw (full, evict, found)
            (evict-Kept fuel (forget k q m) (
              forget-Kept k q m done
                (λ e. Among-unique q m.by_key h.2 h.0 (subst (λ x. Among (x, q) m.by_key) e there))
                h))
    ]
  ]

-- `cleanup` never takes a flow whose authentication is under way out of the table.
pub cleanup_keeps_pending :
    (key : String) (p now : ℕ) (m : ConntrackMgr)
    → IsMap m.by_key
    → lookup key m.by_key ≡ some p
    → completed m p ≡ false
    → lookup key (cleanup now m).by_key ≡ some p
unfolding cleanup
cleanup_keeps_pending key p now m d there pending =
    (evict-Kept key p (length (sweep (now - m.idle_after) m.by_key m).by_key) _ (
      sweep-Kept key p (now - m.idle_after) m.by_key m (λ q e. some-injective _ _ (sym e ∙ there)) d
        (there, pending, d))).0
