-- ===== src/Tracker.antt =====
-- internal/networkruntime/tracker.go: the table of the connections that inbounds accepted. A connection is
-- known by its number, that of its ID; `store` has the objects, `connections` is the map. Each method
-- holds the lock or an atomic counter; times are nanoseconds.
pub mod Once
pub mod Outbound
use zju_portal_core.Base.{
  ℕ, suc, ◌+◌, ◌%◌, Bool, true, false, Option, none, some, List, [], ◌∷◌, ◌++◌, String, nat_eq, leb,
  nat_beq, length, if◌then◌else◌,
}
use zju_portal_core.Base.Map.{lookup, insert, delete}
use zju_portal_core.Core.Error.{Error, join, wrap_error, connection_not_found}

pub record ConnectionMetadata : Type 0 where
  pub inbound : String
  pub outbound : String
  pub route_reason : String
  pub source : String
  pub network : String
  pub destination : String
  pub transport_connection_id : String

-- `close_func` is what `closeFunc` answers, if there is one; `close_calls` counts its calls, and `close_done`
-- is the state of `closeOnce`.
pub record LogicalConnection : Type 0 where
  pub metadata : ConnectionMetadata
  pub opened_at : ℕ
  pub last_activity : ℕ
  pub uploaded : ℕ
  pub downloaded : ℕ
  pub close_func : Option (Option Error)
  pub close_calls : ℕ
  pub close_done : Bool
  pub close_err : Option Error

pub record ConnectionTracker : Type 0 where
  pub started : ℕ
  pub next_id : ℕ
  pub total : ℕ
  pub store : List (ℕ × LogicalConnection)
  pub connections : List (ℕ × ℕ)

abbrev pub two_64 : ℕ
two_64 = 18446744073709551616

unfoldable pub new_connection_tracker : ℕ → ConnectionTracker
new_connection_tracker now = record {
  started = now;
  next_id = 0;
  total = 0;
  store = [];
  connections = [];
}

abbrev pub new_connection : ℕ → ConnectionMetadata → Option (Option Error) → LogicalConnection
new_connection now metadata close_func = record {
  metadata = metadata;
  opened_at = now;
  last_activity = now;
  uploaded = 0;
  downloaded = 0;
  close_func = close_func;
  close_calls = 0;
  close_done = false;
  close_err = none;
}

unfoldable pub open_connection :
    ℕ → ConnectionMetadata → Option (Option Error) → ConnectionTracker → ConnectionTracker × ℕ
open_connection now metadata close_func t =
    let id = suc t.next_id in
    (
      record t {
        next_id = id;
        total = suc t.total;
        store = insert id (new_connection now metadata close_func) t.store;
        connections = insert id id t.connections;
      },
      id,
    )

-- The body of `closeOnce`.
abbrev pub closed_once : LogicalConnection → LogicalConnection
closed_once c = elim c.close_func [
  | none ↦ record c { close_done = true }
  | some e ↦ record c { close_done = true; close_err = e; close_calls = suc c.close_calls }
]

-- `Close` of a connection.
unfoldable pub close_logical : ℕ → ConnectionTracker → ConnectionTracker × Option Error
close_logical id t = elim (lookup id t.store) [
  | none ↦ (t, none)
  | some c ↦ if c.close_done then (t, c.close_err) else (
    record t { store = insert id (closed_once c) t.store; connections = delete id t.connections },
    (closed_once c).close_err,
  )
]

unfoldable pub close_connection : ℕ → ConnectionTracker → ConnectionTracker × Option Error
unfolding close_logical
close_connection id t = elim (lookup id t.connections) [
  | none ↦ (t, some (wrap_error connection_not_found "connection not found" false none))
  | some p ↦ close_logical p t
]

-- `errors.Join`, which passes over nil.
abbrev pub join_errors : Option Error → Option Error → Option Error
join_errors none b = b
join_errors (some a) none = some a
join_errors (some a) (some b) = some (join a b)

-- The loop of `Close` over the connections that were there.
unfoldable pub close_each : List (ℕ × ℕ) → ConnectionTracker → ConnectionTracker × Option Error
unfolding close_logical
close_each [] t = (t, none)
close_each ((id, p) ∷ rest) t =
    let (t₁, e) = close_logical p t in
    let (t₂, more) = close_each rest t₁ in (t₂, join_errors e more)

unfoldable pub close : ConnectionTracker → ConnectionTracker × Option Error
unfolding close_each
close t = close_each t.connections t

abbrev pub update :
    ℕ → (LogicalConnection → LogicalConnection) → ConnectionTracker → ConnectionTracker
update id f t = elim (lookup id t.store) [
  | none ↦ t
  | some c ↦ record t { store = insert id (f c) t.store }
]

abbrev pub add_uploaded : ℕ → ℕ → LogicalConnection → LogicalConnection
add_uploaded now count c = record c {
  uploaded = (c.uploaded + count) % two_64;
  last_activity = now;
}

abbrev pub add_downloaded : ℕ → ℕ → LogicalConnection → LogicalConnection
add_downloaded now count c = record c {
  downloaded = (c.downloaded + count) % two_64;
  last_activity = now;
}

unfoldable pub record_uploaded : ℕ → ℕ → ℕ → ConnectionTracker → ConnectionTracker
record_uploaded now count id t = if nat_beq count 0 then t else update id (add_uploaded now count) t

unfoldable pub record_downloaded : ℕ → ℕ → ℕ → ConnectionTracker → ConnectionTracker
record_downloaded now count id t =
    if nat_beq count 0 then t else update id (add_downloaded now count) t

pub record TrafficStats : Type 0 where
  pub active_connections : ℕ
  pub total_connections : ℕ
  pub started_at : ℕ
  pub timestamp : ℕ

unfoldable pub traffic_stats : ℕ → ConnectionTracker → TrafficStats
traffic_stats now t = record {
  active_connections = length t.connections;
  total_connections = t.total;
  started_at = t.started;
  timestamp = now;
}

-- A connection goes in front of the later ones, `sort.Slice` by `OpenedAt`.
abbrev pub sorted_in :
    (ℕ × LogicalConnection) → List (ℕ × LogicalConnection) → List (ℕ × LogicalConnection)
sorted_in x [] = x ∷ []
sorted_in (i, c) ((j, d) ∷ rest) =
    let later = sorted_in (i, c) rest in
    if leb c.opened_at d.opened_at then (i, c) ∷ (j, d) ∷ rest else (j, d) ∷ later

unfoldable pub listed : List (ℕ × ℕ) → ConnectionTracker → List (ℕ × LogicalConnection)
listed [] t = []
listed ((id, p) ∷ rest) t = elim (lookup p t.store) [
  | none ↦ listed rest t
  | some c ↦ sorted_in (id, c) (listed rest t)
]

-- `Connections`: the objects from which `info` makes its records.
unfoldable pub connections_of : ConnectionTracker → List (ℕ × LogicalConnection)
unfolding listed
connections_of t = listed t.connections t
