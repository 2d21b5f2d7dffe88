-- ===== src/L3Tunnel/Sending/Labels.antt =====
-- client/atrust/l3tunnelconntrack.go: every conntrack stands in the store under its own authentication ID.
use zju_portal_core.Base.{
  ℕ, ◌≡◌, inl, inr, refl, none, some, List, [], ◌∷◌, String, string_eq, nat_eq, length, arith,
  Option-cases, Bool-cases, if-elim, subst, ◌∙◌, ◌&&◌, ◌+◌, ◌-◌, leb, nat_beq, zero, suc,
  if◌then◌else◌,
}
use zju_portal_core.Base.Map.{lookup, lookup-insert}
use zju_portal_core.L3Tunnel.Conntrack.{
  Conntrack, ConntrackMgr, get_or_create, modify, completed, sweep, forget, used_at, evict,
  find_oldest, cleanup, create, new_conntrack, touch,
}

-- Each conntrack stands under its own ID.
abbrev pub IsLabelled : ConntrackMgr → Type 0
IsLabelled m = (id : ℕ) (ct : Conntrack) → lookup id m.store ≡ some ct → ct.auth_id ≡ id

sweep-store :
    (cutoff : ℕ) (entries : List (String × ℕ)) (m : ConntrackMgr)
    → (sweep cutoff entries m).store ≡ m.store
unfolding sweep forget
sweep-store cutoff [] m = refl
sweep-store cutoff ((key, p) ∷ rest) m =
    let test = completed m p && leb (used_at m p) cutoff in
    sweep-store cutoff rest (if test then forget key p m else m)
    ∙ if-elim (λ (x : ConntrackMgr). x.store ≡ m.store) test refl refl

evict-store : (fuel : ℕ) (m : ConntrackMgr) → (evict fuel m).store ≡ m.store
unfolding evict forget
evict-store zero m = refl
evict-store (suc fuel) m = elim (Bool-cases (leb m.limit (length m.by_key))) [
  | inr small ↦ rw (evict, small) refl
  | inl full ↦ elim (Option-cases (find_oldest m m.by_key none)) [
    | inl stuck ↦ rw (evict, full, stuck) refl
    | inr ((key, p), oldest) ↦ rw (evict, full, oldest) (evict-store fuel (forget key p m))
  ]
]

cleanup-store : (now : ℕ) (m : ConntrackMgr) → (cleanup now m).store ≡ m.store
unfolding cleanup
cleanup-store now m =
    let swept = sweep (now - m.idle_after) m.by_key m in
    evict-store (length swept.by_key) swept ∙ sweep-store (now - m.idle_after) m.by_key m

create-IsLabelled :
    (now : ℕ) (key appID nodeGroupID : String) (m : ConntrackMgr)
    → IsLabelled m
    → IsLabelled (create now key appID nodeGroupID m).0
unfolding create
create-IsLabelled now key appID nodeGroupID m l id ct h =
    let made = new_conntrack now (m.next_auth_id + 1) key appID nodeGroupID in
    elim (Bool-cases (nat_beq (m.next_auth_id + 1) id)) [
      | inl same ↦ ground (arith, same, h, lookup-insert (m.next_auth_id + 1) id made m.store)
      | inr apart ↦
          l id ct (ground (arith, apart, h, lookup-insert (m.next_auth_id + 1) id made m.store))
    ]

touch-IsLabelled :
    (now p : ℕ) (m : ConntrackMgr) → IsLabelled m → IsLabelled (modify p (touch now) m)
touch-IsLabelled now p m l = elim (Option-cases (lookup p m.store)) [
  | inl absent ↦ rw (absent, modify) l
  | inr (old, there) ↦
      rw (there, modify)
        (λ (id : ℕ) (ct : Conntrack) h. elim (Bool-cases (nat_beq p id)) [
          | inl same ↦
              ground (arith, same, l p old there, h, lookup-insert p id (touch now old) m.store)
          | inr apart ↦
              l id ct (ground (arith, apart, h, lookup-insert p id (touch now old) m.store))
        ])
]

pub get_or_create-IsLabelled :
    (now : ℕ) (key appID nodeGroupID : String) (m : ConntrackMgr)
    → IsLabelled m
    → IsLabelled (get_or_create now key appID nodeGroupID m).0
unfolding get_or_create
get_or_create-IsLabelled now key appID nodeGroupID m l = elim (Option-cases (lookup key m.by_key)) [
  | inl new ↦
      rw (get_or_create, new)
        (create-IsLabelled now key appID nodeGroupID
          (if leb m.limit (length m.by_key) then cleanup now m else m)
          (if-elim IsLabelled (leb m.limit (length m.by_key))
            (λ (id : ℕ) (ct : Conntrack) h.
              l id ct (
                subst (λ (s : List (ℕ × Conntrack)). lookup id s ≡ some ct) (cleanup-store now m)
                  h))
            l))
  | inr (p, known) ↦ rw (get_or_create, known) (touch-IsLabelled now p m l)
]
