-- ===== src/L3Tunnel/Conntrack/Eviction.antt =====
-- `cleanup` of client/atrust/l3tunnelconntrack.go: what it leaves behind and what it never takes.
use mathlib.Core.Option.{some-injective}
use native.Mathlib.Nat.{le_trans}
use zju_portal_core.Base.{
  sym, subst, ℕ, zero, suc, ◌≤◌, ◌<◌, ◌≡◌, ◌≢◌, refl, ◌⊎◌, inl, inr, true, false, Option, none,
  some, List, [], ◌∷◌, String, ◌==◌, string_eq, nat_eq, leb, length, arith, Option-cases,
  Bool-cases, eq_iff,
}
use zju_portal_core.Base.Map.{lookup, length-delete-lt}
use zju_portal_core.L3Tunnel.Conntrack.{
  ConntrackMgr, completed, used_at, forget, skip_entry, find_oldest, evict,
}

-- Every entry of the key map still waits for its authentication.
abbrev pub AllPending : ConntrackMgr → List (String × ℕ) → Type 0
AllPending m [] = Unit {0}
AllPending m ((key, p) ∷ rest) = (completed m p ≡ false) × AllPending m rest

-- An entry stands in a list of entries.
abbrev pub Among : String × ℕ → List (String × ℕ) → Type 0
Among x [] = ⊥
Among x (y ∷ ys) = (x ≡ y) ⊎ Among x ys

find_oldest-some :
    (m : ConntrackMgr) (entries : List (String × ℕ)) (x : String × ℕ)
    → find_oldest m entries (some x) ≢ none
unfolding find_oldest
find_oldest-some m [] x = λ h. cc
find_oldest-some m ((key, p) ∷ rest) x = elim (Bool-cases (skip_entry m p (some x))) [
  | inl e ↦ rw e (find_oldest-some m rest x)
  | inr e ↦ rw e (find_oldest-some m rest (key, p))
]

-- No entry is found only if all of them wait.
find_oldest-none :
    (m : ConntrackMgr) (entries : List (String × ℕ))
    → find_oldest m entries none ≡ none
    → AllPending m entries
unfolding find_oldest
find_oldest-none m [] h = tt
find_oldest-none m ((key, p) ∷ rest) h = elim (Bool-cases (completed m p)) [
  | inl e ↦ absurd (find_oldest-some m rest (key, p) (rw e at h))
  | inr e ↦ (e, find_oldest-none m rest (rw e at h))
]

-- The choice of an entry among those seen and the one kept so far.
record Oldest (m : ConntrackMgr) (entries : List (String × ℕ)) (acc : Option (String × ℕ))
    (x : String × ℕ) : Type 0 where
  done : completed m x.1 ≡ true
  seen : (acc ≡ some x) ⊎ Among x entries
  first :
      (y : String × ℕ) → Among y entries → completed m y.1 ≡ true → used_at m x.1 ≤ used_at m y.1
  kept : (y : String × ℕ) → acc ≡ some y → used_at m x.1 ≤ used_at m y.1

abbrev AccCompleted : ConntrackMgr → Option (String × ℕ) → Type 0
AccCompleted m none = Unit {0}
AccCompleted m (some x) = completed m x.1 ≡ true

taken :
    (m : ConntrackMgr) (key : String) (p : ℕ) (rest : List (String × ℕ)) (x : String × ℕ)
    (acc : Option (String × ℕ))
    → (◌≡◌ {A = Option (String × ℕ)} (some (key, p)) (some x)) ⊎ Among x rest
    → (acc ≡ some x) ⊎ Among x ((key, p) ∷ rest)
taken m key p rest x acc (inl e) = inr (inl (sym (some-injective _ _ e)))
taken m key p rest x acc (inr i) = inr (inr i)

passed :
    (m : ConntrackMgr) (key : String) (p : ℕ) (rest : List (String × ℕ)) (x : String × ℕ)
    (acc : Option (String × ℕ))
    → (acc ≡ some x) ⊎ Among x rest
    → (acc ≡ some x) ⊎ Among x ((key, p) ∷ rest)
passed m key p rest x acc (inl e) = inl e
passed m key p rest x acc (inr i) = inr (inr i)

first-cons :
    (m : ConntrackMgr) (key : String) (p : ℕ) (rest : List (String × ℕ)) (x : String × ℕ)
    → ((y : String × ℕ) → Among y rest → completed m y.1 ≡ true → used_at m x.1 ≤ used_at m y.1)
    → (completed m p ≡ true → used_at m x.1 ≤ used_at m p)
    → (y : String × ℕ) → Among y ((key, p) ∷ rest)
    → completed m y.1 ≡ true
    → used_at m x.1 ≤ used_at m y.1
first-cons m key p rest x old new y (inl e) c =
    subst (λ w. used_at m x.1 ≤ used_at m w.1) (sym e)
      (new (subst (λ w. completed m w.1 ≡ true) e c))
first-cons m key p rest x old new y (inr i) c = old y i c

skipped :
    (m : ConntrackMgr) (p : ℕ) (z : String × ℕ) (u : ℕ)
    → skip_entry m p (some z) ≡ true
    → completed m p ≡ true
    → u ≤ used_at m z.1
    → u ≤ used_at m p
unfolding skip_entry
skipped m p z u e c h = ground arith

better :
    (m : ConntrackMgr) (p : ℕ) (z : String × ℕ)
    → skip_entry m p (some z) ≡ false
    → (completed m p ≡ true) × (used_at m p ≤ used_at m z.1)
unfolding skip_entry
better m p z e = ground arith

find_oldest-Oldest :
    (m : ConntrackMgr) (entries : List (String × ℕ)) (acc : Option (String × ℕ)) (x : String × ℕ)
    → AccCompleted m acc
    → find_oldest m entries acc ≡ some x
    → Oldest m entries acc x
unfolding find_oldest
find_oldest-Oldest m [] none x a h = cc
find_oldest-Oldest m [] (some z) x a h = record {
  done = ground (arith);
  seen = inl h;
  first = λ y i. absurd i;
  kept = λ y e. ground arith;
}
find_oldest-Oldest m ((key, p) ∷ rest) none x a h = elim (Bool-cases (completed m p)) [
  | inl e ↦
      let o = find_oldest-Oldest m rest (some (key, p)) x e (rw e at h) in
      record {
        done = o.done;
        seen = taken m key p rest x none o.seen;
        first = first-cons m key p rest x o.first (λ _. o.kept (key, p) refl);
        kept = λ y q. cc;
      }
  | inr e ↦
      let o = find_oldest-Oldest m rest none x tt (rw e at h) in
      record {
        done = o.done;
        seen = passed m key p rest x none o.seen;
        first = first-cons m key p rest x o.first (λ c. cc);
        kept = λ y q. cc;
      }
]
find_oldest-Oldest m ((key, p) ∷ rest) (some z) x a h =
    elim (Bool-cases (skip_entry m p (some z))) [
      | inl e ↦
          let o = find_oldest-Oldest m rest (some z) x a (rw e at h) in
          record {
            done = o.done;
            seen = passed m key p rest x (some z) o.seen;
            first =
                first-cons m key p rest x o.first
                  (λ c. skipped m p z (used_at m x.1) e c (o.kept z refl));
            kept = o.kept;
          }
      | inr e ↦
          let o = find_oldest-Oldest m rest (some (key, p)) x (better m p z e).0 (rw e at h) in
          record {
            done = o.done;
            seen = taken m key p rest x (some z) o.seen;
            first = first-cons m key p rest x o.first (λ _. o.kept (key, p) refl);
            kept = λ y q.
                subst (λ w. used_at m x.1 ≤ used_at m w.1) (some-injective _ _ q)
                  (le_trans (o.kept (key, p) refl) (better m p z e).1);
          }
    ]

-- The entry that `cleanup` evicts is a completed one of the table that no completed one precedes in
-- time of last use.
pub find_oldest_least_recent :
    (m : ConntrackMgr) (x : String × ℕ)
    → find_oldest m m.by_key none ≡ some x
    → (completed m x.1 ≡ true)
      × Among x m.by_key
      × ((y : String × ℕ)
          → Among y m.by_key
          → completed m y.1 ≡ true
          → used_at m x.1 ≤ used_at m y.1)
find_oldest_least_recent m x h =
    let o = find_oldest-Oldest m m.by_key none x tt h in
    (o.done, elim o.seen [ inl e ↦ cc | inr i ↦ i ], o.first)

pub Among-lookup :
    (key : String) (p : ℕ) (entries : List (String × ℕ))
    → Among (key, p) entries
    → (q : ℕ) × (lookup key entries ≡ some q)
unfolding lookup
Among-lookup key p [] i = absurd i
Among-lookup key p ((k, q) ∷ rest) (inl e) = (q, ground (arith, eq_iff k key))
Among-lookup key p ((k, q) ∷ rest) (inr i) = elim (Bool-cases (k == key)) [
  | inl e ↦ (q, rw e refl)
  | inr e ↦ let (v, h) = Among-lookup key p rest i in (v, rw e h)
]

AllPending-empty :
    (m : ConntrackMgr) (entries : List (String × ℕ)) → length entries ≤ 0 → AllPending m entries
AllPending-empty m [] h = tt
AllPending-empty m (x ∷ rest) h = absurd (omega arith)

pub evict_post :
    (fuel : ℕ) (m : ConntrackMgr)
    → length m.by_key ≤ fuel
    → (length (evict fuel m).by_key < m.limit) ⊎ AllPending (evict fuel m) (evict fuel m).by_key
unfolding evict
evict_post zero m h = inr (AllPending-empty m m.by_key h)
evict_post (suc fuel) m h = elim (Bool-cases (leb m.limit (length m.by_key))) [
  | inr below ↦ rw (below, evict) (inl (ground arith))
  | inl full ↦ elim (Option-cases (find_oldest m m.by_key none)) [
    | inl nobody ↦ rw (full, evict, nobody) (inr (find_oldest-none m m.by_key nobody))
    | inr ((key, p), found) ↦
        let (q, there) =
          Among-lookup key p m.by_key (find_oldest_least_recent m (key, p) found).1 in
        let shorter = length-delete-lt key q m.by_key there in
        rw (full, evict, found) (evict_post fuel (forget key p m) (omega arith))
  ]
]
