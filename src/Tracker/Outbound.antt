-- ===== src/Tracker/Outbound.antt =====
-- internal/networkruntime/tracker.go: the outbound that counts what its transport connections carry. A
-- connection is known by its number; what the connections beneath answer are arguments.
pub mod Totals
use zju_portal_core.Base.{
  ℕ, suc, ◌+◌, ◌-◌, ◌*◌, ◌%◌, Bool, true, false, not, ◌||◌, Option, none, some, List, [], ◌∷◌,
  String, nat_eq, nat_beq, leb, length, if◌then◌else◌,
}
use zju_portal_core.Base.Map.{lookup, insert, delete}
use zju_portal_core.Stream.{Result, ok, err}
use zju_portal_core.Core.Error.{Error}
use zju_portal_core.Tracker.{two_64, join_errors}

pub record TrackedConn : Type 0 where
  pub network : String
  pub destination : String
  pub opened_at : ℕ
  pub last_activity : ℕ
  pub uploaded : ℕ
  pub downloaded : ℕ
  pub close_answer : Option Error
  pub close_done : Bool
  pub close_err : Option Error

pub record TrackedOutbound : Type 0 where
  pub started : ℕ
  pub next_id : ℕ
  pub uploaded : ℕ
  pub download : ℕ
  pub total : ℕ
  pub store : List (ℕ × TrackedConn)
  pub connections : List (ℕ × ℕ)

unfoldable pub new_tracked_outbound : ℕ → TrackedOutbound
new_tracked_outbound now = record {
  started = now;
  next_id = 0;
  uploaded = 0;
  download = 0;
  total = 0;
  store = [];
  connections = [];
}

abbrev pub new_conn : ℕ → String → String → Option Error → TrackedConn
new_conn now network address close_answer = record {
  network = network;
  destination = address;
  opened_at = now;
  last_activity = now;
  uploaded = 0;
  downloaded = 0;
  close_answer = close_answer;
  close_done = false;
  close_err = none;
}

-- `DialContext`; the first argument is the error of the outbound beneath.
unfoldable pub dial_context :
    Option Error
    → ℕ
    → String
    → String
    → Option Error
    → TrackedOutbound
    → TrackedOutbound × Result Error ℕ
dial_context (some e) now network address close_answer o = (o, err e)
dial_context none now network address close_answer o =
    let id = suc o.next_id in
    (
      record o {
        next_id = id;
        store = insert id (new_conn now network address close_answer) o.store;
        connections = insert id id o.connections;
        total = (o.total + 1) % two_64;
      },
      ok id,
    )

unfoldable pub remove : ℕ → TrackedOutbound → TrackedOutbound
remove id o = record o { connections = delete id o.connections }

-- How an error answers `errors.Is` with `io.EOF` or `net.ErrClosed`, and, if it is a `net.Error`, `Timeout`.
pub record ConnError : Type 0 where
  pub is_end : Bool
  pub timeout : Option Bool

unfoldable pub is_terminal_connection_error : Option ConnError → Bool
is_terminal_connection_error none = false
is_terminal_connection_error (some e) =
    if e.is_end then true else elim e.timeout [ none ↦ true | some t ↦ not t ]

abbrev pub finish_on : Option ConnError → ℕ → TrackedOutbound → TrackedOutbound
finish_on e id o = if is_terminal_connection_error e then remove id o else o

abbrev pub add_downloaded : ℕ → ℕ → TrackedConn → TrackedConn
add_downloaded now count c = record c {
  downloaded = (c.downloaded + count) % two_64;
  last_activity = now;
}

abbrev pub add_uploaded : ℕ → ℕ → TrackedConn → TrackedConn
add_uploaded now count c = record c {
  uploaded = (c.uploaded + count) % two_64;
  last_activity = now;
}

-- The counters of one connection and of the outbound, for a count that is not 0.
unfoldable pub count_download : ℕ → ℕ → ℕ → TrackedOutbound → TrackedOutbound
count_download now count id o = elim (lookup id o.store) [
  | none ↦ o
  | some c ↦ if nat_beq count 0 then o else record o {
    store = insert id (add_downloaded now count c) o.store;
    download = (o.download + count) % two_64;
  }
]

unfoldable pub count_upload : ℕ → ℕ → ℕ → TrackedOutbound → TrackedOutbound
count_upload now count id o = elim (lookup id o.store) [
  | none ↦ o
  | some c ↦ if nat_beq count 0 then o else record o {
    store = insert id (add_uploaded now count c) o.store;
    uploaded = (o.uploaded + count) % two_64;
  }
]

-- `Read` and `Write` of a connection, which gave a count and an error.
unfoldable pub conn_read : ℕ → ℕ → Option ConnError → ℕ → TrackedOutbound → TrackedOutbound
unfolding remove count_download is_terminal_connection_error
conn_read now count e id o = finish_on e id (count_download now count id o)

unfoldable pub conn_write : ℕ → ℕ → Option ConnError → ℕ → TrackedOutbound → TrackedOutbound
unfolding remove count_upload is_terminal_connection_error
conn_write now count e id o = finish_on e id (count_upload now count id o)

abbrev pub closed_conn : TrackedConn → TrackedConn
closed_conn c = record c { close_done = true; close_err = c.close_answer }

-- `Close` of a connection.
unfoldable pub conn_close : ℕ → TrackedOutbound → TrackedOutbound × Option Error
unfolding remove
conn_close id o = elim (lookup id o.store) [
  | none ↦ (o, none)
  | some c ↦
      if c.close_done
      then (o, c.close_err)
      else (remove id (record o { store = insert id (closed_conn c) o.store }), c.close_answer)
]

unfoldable pub close_each : List (ℕ × ℕ) → TrackedOutbound → TrackedOutbound × Option Error
unfolding conn_close
close_each [] o = (o, none)
close_each ((k, id) ∷ rest) o =
    let (o₁, e) = conn_close id o in let (o₂, more) = close_each rest o₁ in (o₂, join_errors e more)

-- `Close`; the argument is the error of the outbound beneath.
unfoldable pub close : Option Error → TrackedOutbound → TrackedOutbound × Option Error
unfolding close_each
close delegate o = let (o₁, e) = close_each o.connections o in (o₁, join_errors e delegate)

pub record TransportStats : Type 0 where
  pub uploaded_bytes : ℕ
  pub downloaded_bytes : ℕ
  pub open_transport_connections : ℕ
  pub total_transport_connections : ℕ
  pub started_at : ℕ
  pub timestamp : ℕ

unfoldable pub traffic_stats : ℕ → TrackedOutbound → TransportStats
traffic_stats now o = record {
  uploaded_bytes = o.uploaded;
  downloaded_bytes = o.download;
  open_transport_connections = length o.connections;
  total_transport_connections = o.total;
  started_at = o.started;
  timestamp = now;
}

abbrev pub transport_idle_after : ℕ
transport_idle_after = 5 * 1000000000

-- The state that `info` tells: whether the connection is idle.
unfoldable pub is_idle : ℕ → TrackedConn → Bool
is_idle now c = leb transport_idle_after (now - c.last_activity)
