-- ===== src/L3Tunnel/Conntrack.antt =====
-- client/atrust/l3tunnelconntrack.go: the table of authenticated flows. A `*conntrack` is known by
-- its authID, which the 64-bit counter gives out once, and stands in `store`; `by_key` and `by_id`
-- are the two maps of pointers. `authCh` is closed or not; a second close would be a panic, counted
-- in `panics`. Times are nanoseconds since the epoch. A map is walked in the order of its entries.
pub mod Consistent
pub mod Invariant
pub mod Eviction
pub mod Capacity
use zju_portal_core.Base.{
  ℕ, zero, suc, ◌+◌, ◌-◌, ◌*◌, Bool, true, false, not, ◌&&◌, ◌||◌, Option, none, some, List, [],
  ◌∷◌, String, ◌==◌, string_eq, nat_eq, leb, nat_beq, if◌then◌else◌, length,
}
use zju_portal_core.Base.Map.{lookup, insert, delete}
use zju_portal_core.Core.Error.{Error}

pub record Conntrack : Type 0 where
  pub key : String
  pub auth_id : ℕ
  pub connect_token : String
  pub app_id : String
  pub node_group_id : String
  pub auth_closed : Bool
  pub auth_err : Option Error
  pub auth_started : Bool
  pub last_used : ℕ

pub record ConntrackMgr : Type 0 where
  pub next_auth_id : ℕ
  pub store : List (ℕ × Conntrack)
  pub by_key : List (String × ℕ)
  pub by_id : List (ℕ × ℕ)
  pub limit : ℕ
  pub idle_after : ℕ
  pub panics : ℕ

abbrev pub default_conntrack_limit : ℕ
default_conntrack_limit = 4096

abbrev pub default_conntrack_idle_after : ℕ
default_conntrack_idle_after = 30 * 60 * 1000000000

unfoldable pub new_conntrack_mgr : ConntrackMgr
new_conntrack_mgr = record {
  next_auth_id = 0;
  store = [];
  by_key = [];
  by_id = [];
  limit = default_conntrack_limit;
  idle_after = default_conntrack_idle_after;
  panics = 0;
}

abbrev pub completed : ConntrackMgr → ℕ → Bool
completed m p = elim (lookup p m.store) [ some ct ↦ ct.auth_closed | none ↦ false ]

abbrev pub used_at : ConntrackMgr → ℕ → ℕ
used_at m p = elim (lookup p m.store) [ some ct ↦ ct.last_used | none ↦ 0 ]

-- The two `delete` calls of `cleanup`.
unfoldable pub forget : String → ℕ → ConntrackMgr → ConntrackMgr
forget key p m = record m { by_key = delete key m.by_key; by_id = delete p m.by_id }

-- The first loop of `cleanup`: entries that are completed and idle since `cutoff`.
unfoldable pub sweep : ℕ → List (String × ℕ) → ConntrackMgr → ConntrackMgr
unfolding forget
sweep cutoff [] m = m
sweep cutoff ((key, p) ∷ rest) m =
    sweep cutoff rest (if completed m p && leb (used_at m p) cutoff then forget key p m else m)

-- The inner loop: `oldest` is the best entry so far.
unfoldable pub skip_entry : ConntrackMgr → ℕ → Option (String × ℕ) → Bool
skip_entry m p none = not (completed m p)
skip_entry m p (some (k, q)) = not (completed m p) || leb (used_at m q) (used_at m p)

unfoldable pub find_oldest :
    ConntrackMgr → List (String × ℕ) → Option (String × ℕ) → Option (String × ℕ)
unfolding skip_entry
find_oldest m [] oldest = oldest
find_oldest m ((key, p) ∷ rest) oldest =
    find_oldest m rest (if skip_entry m p oldest then oldest else some (key, p))

-- The loop `for len(m.byKey) >= m.limit`; each round takes an entry away, so that the number of
-- entries is fuel enough.
unfoldable pub evict : ℕ → ConntrackMgr → ConntrackMgr
unfolding forget find_oldest
evict zero m = m
evict (suc fuel) m = elim (leb m.limit (length m.by_key)) [
  | false ↦ m
  | true ↦ elim (find_oldest m m.by_key none) [
    | none ↦ m
    | some (key, p) ↦ evict fuel (forget key p m)
  ]
]

unfoldable pub cleanup : ℕ → ConntrackMgr → ConntrackMgr
unfolding sweep evict
cleanup now m =
    let swept = sweep (now - m.idle_after) m.by_key m in evict (length swept.by_key) swept

abbrev pub new_conntrack : ℕ → ℕ → String → String → String → Conntrack
new_conntrack now auth_id key app_id node_group_id = record {
  key = key;
  auth_id = auth_id;
  connect_token = "";
  app_id = app_id;
  node_group_id = node_group_id;
  auth_closed = false;
  auth_err = none;
  auth_started = false;
  last_used = now;
}

-- A new conntrack under the next authID.
unfoldable pub create : ℕ → String → String → String → ConntrackMgr → ConntrackMgr × ℕ
create now key app_id node_group_id m =
    let auth_id = m.next_auth_id + 1 in
    (
      record m {
        next_auth_id = auth_id;
        store = insert auth_id (new_conntrack now auth_id key app_id node_group_id) m.store;
        by_key = insert key auth_id m.by_key;
        by_id = insert auth_id auth_id m.by_id;
      },
      auth_id,
    )

abbrev pub touch : ℕ → Conntrack → Conntrack
touch now ct = record ct { last_used = now }

abbrev pub modify : ℕ → (Conntrack → Conntrack) → ConntrackMgr → ConntrackMgr
modify p f m = elim (lookup p m.store) [
  | some ct ↦ record m { store = insert p (f ct) m.store }
  | none ↦ m
]

unfoldable pub get_or_create : ℕ → String → String → String → ConntrackMgr → ConntrackMgr × ℕ
unfolding cleanup create
get_or_create now key app_id node_group_id m = elim (lookup key m.by_key) [
  | some p ↦ (modify p (touch now) m, p)
  | none ↦
      create now key app_id node_group_id
        (if leb m.limit (length m.by_key) then cleanup now m else m)
]

-- `close(ct.authCh)`.
abbrev pub close_auth : ℕ → ConntrackMgr → ConntrackMgr
close_auth p m = elim (lookup p m.store) [
  | some ct ↦
      if ct.auth_closed
      then record m { panics = suc m.panics }
      else record m { store = insert p (record ct { auth_closed = true }) m.store }
  | none ↦ m
]

abbrev pub settle : String → Option Error → Conntrack → Conntrack
settle token e ct = record ct {
  connect_token = if token == "" then ct.connect_token else token;
  auth_err = e;
}

unfoldable pub mark_auth : ℕ → String → Option Error → ConntrackMgr → ConntrackMgr
mark_auth auth_id token e m = elim (lookup auth_id m.by_id) [
  | none ↦ m
  | some p ↦ close_auth p (modify p (settle token e) (record m { by_id = delete auth_id m.by_id }))
]

-- `delete(m.byKey, ct.key)` if the entry is still this one.
abbrev pub drop_key : String → ℕ → ConntrackMgr → ConntrackMgr
drop_key key p m = elim (lookup key m.by_key) [
  | some q ↦ if nat_beq q p then record m { by_key = delete key m.by_key } else m
  | none ↦ m
]

-- The returned Boolean is whether this call ended the wait.
unfoldable pub timeout_auth : Conntrack → Option Error → ConntrackMgr → ConntrackMgr × Bool
timeout_auth ct e m = elim (lookup ct.auth_id m.by_id) [
  | none ↦ (m, false)
  | some p ↦
      if nat_beq p ct.auth_id
      then (
        close_auth p (
            modify p (λ c. record c { auth_err = e })
              (drop_key ct.key p (record m { by_id = delete ct.auth_id m.by_id }))),
        true,
      )
      else (m, false)
]
