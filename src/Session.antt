-- ===== src/Session.antt =====
-- internal/atrustruntime/session.go: a session's state, its events and how it changes state. A runtime
-- and a network runtime are known by a number, `none` is nil. An event leaves out the session's ID and
-- the time. `mu` makes each update one step; `cancel` is `some true` once the context is cancelled.
pub mod Lifecycle
pub mod Events
pub mod Moves
pub mod States
pub mod Delay
pub mod Resume
use zju_portal_core.Base.{
  ℕ, zero, suc, ◌+◌, ◌-◌, ◌*◌, min, Bool, true, false, not, ◌&&◌, ◌||◌, String, ◌==◌, string_eq,
  Option, none, some, List, [], ◌∷◌, ◌++◌, length, drop, leb, ltb, nat_beq, if◌then◌else◌,
}
use zju_portal_core.Base.Map.{lookup, insert}
use zju_portal_core.Core.Error.{
  Error, ErrorCode, plain, wrapf, join, coded, coded_wrap, wrap_error, session_start_failed,
}
use zju_portal_core.Core.State.{
  SessionState, idle, discovering_auth, authenticating, fetching_resources, selecting_nodes,
  establishing_tunnel, ready, reconnecting, failed, stopping, stopped, validate_transition,
}
use zju_portal_core.Config.{ResumeState}
use zju_portal_core.Resource.{IpResource, DomainResource}

pub record ServiceStatus : Type 0 where
  pub service_type : String
  pub address : String
  pub running : Bool
  pub last_error : String

pub record Resources : Type 0 where
  pub client_ip : String
  pub ip_resources : Option (List IpResource)
  pub domain_resources : Option (List (String × DomainResource))
  pub dns_records : Option (List (String × List ℕ))
  pub stale : Bool

pub record CleanupResult : Type 0 where
  pub component : String
  pub error : String

pub data Event : Type 0 where
  state_changed : SessionState → SessionState → Event
  session_error : Error → Event
  reconnect_scheduled : ℕ → ℕ → Error → Event
  reconnect_failed : ℕ → Error → Event
  reconnected : ℕ → Event
  resources_updated : Resources → Event
  node_selected : List (String × String) → Event
  service_started service_stopped : ServiceStatus → Event
  resume_invalidated : ℕ → Event
  resume_updated : ℕ → Bool → Event
  shutdown_completed : List CleanupResult → Event

pub record Session : Type 0 where
  pub state : SessionState
  pub last_error : Option Error
  pub runtime : Option ℕ
  pub network : Option ℕ
  pub cancel : Option Bool
  pub stage_err : Option Error
  pub resources : Option Resources
  pub selected_nodes : List (String × String)
  pub resume_state : Option ResumeState
  pub events : List Event

abbrev pub session_event_buffer : ℕ
session_event_buffer = 32

unfoldable pub new_session : Session
new_session = record {
  state = idle;
  last_error = none;
  runtime = none;
  network = none;
  cancel = none;
  stage_err = none;
  resources = none;
  selected_nodes = [];
  resume_state = none;
  events = [];
}

-- The channel `events`, oldest first: a full one loses its oldest event.
unfoldable pub push : Event → List Event → List Event
push event events =
    if ltb (length events) session_event_buffer
    then events ++ event ∷ []
    else drop 1 events ++ event ∷ []

abbrev pub emit : Event → Session → Session
emit event s = record s { events = push event s.events }

-- The first `*core.Error` that `errors.As` meets.
unfoldable pub find_core_error : Error → Option Error
find_core_error (plain t) = none
find_core_error (wrapf t e) = find_core_error e
find_core_error (join a b) = elim (find_core_error a) [ none ↦ find_core_error b | some e ↦ some e ]
find_core_error (coded c m r) = some (coded c m r)
find_core_error (coded_wrap c m d r e) = some (coded_wrap c m d r e)

unfoldable pub as_core_error : ErrorCode → String → Error → Error
unfolding find_core_error
as_core_error code message e = elim (find_core_error e) [
  | some core ↦ core
  | none ↦ wrap_error code message false (some e)
]

unfoldable pub transition : SessionState → Session → Session × Option Error
transition next s = elim (validate_transition s.state next) [
  | some e ↦ (s, some e)
  | none ↦ (emit (state_changed s.state next) (record s { state = next }), none)
]

abbrev pub is_stopping : SessionState → Bool
is_stopping stopping = true
is_stopping stopped = true
is_stopping _ = false

abbrev pub is_failed : SessionState → Bool
is_failed failed = true
is_failed _ = false

abbrev pub is_ready : SessionState → Bool
is_ready ready = true
is_ready _ = false

abbrev pub is_reconnecting : SessionState → Bool
is_reconnecting reconnecting = true
is_reconnecting _ = false

unfoldable pub fail_with : ErrorCode → String → Error → Session → Session
unfolding transition as_core_error
fail_with code message e s =
    let core = as_core_error code message e in
    let noted : Session = record s { last_error = some core } in
    emit (session_error core)
      (if is_stopping s.state || is_failed s.state then noted else (transition failed noted).0)

unfoldable pub fail : Error → Session → Session
unfolding fail_with
fail e s = fail_with session_start_failed "start session" e s

-- client/atrust/setup.go: `other_stage` is any text that is none of the constants.
pub data SetupStage : Type 0 where
  stage_discovering_auth stage_authenticating stage_fetching_resources stage_selecting_nodes :
      SetupStage
  stage_establishing_tunnel : SetupStage
  other_stage : String → SetupStage

unfoldable pub setup_stage_state : SetupStage → Option SessionState
setup_stage_state stage_discovering_auth = some discovering_auth
setup_stage_state stage_authenticating = some authenticating
setup_stage_state stage_fetching_resources = some fetching_resources
setup_stage_state stage_selecting_nodes = some selecting_nodes
setup_stage_state stage_establishing_tunnel = some establishing_tunnel
setup_stage_state (other_stage s) = none

-- `s.stageErr` keeps the first error.
abbrev pub note_stage_err : Error → Session → Session
note_stage_err e s = elim s.stage_err [ some first ↦ s | none ↦ record s { stage_err = some e } ]

unfoldable pub handle_setup_stage : SetupStage → Session → Session
unfolding setup_stage_state transition
handle_setup_stage stage s = elim (setup_stage_state stage) [
  | none ↦ s
  | some next ↦
      let moved = transition next s in
      elim moved.1 [ none ↦ moved.0 | some e ↦ note_stage_err e moved.0 ]
]

-- A missing key reads as the empty text.
unfoldable pub equal_entries : List (String × String) → List (String × String) → Bool
equal_entries [] right = true
equal_entries ((key, value) ∷ rest) right =
    elim (lookup key right) [ some v ↦ v | none ↦ "" ] == value && equal_entries rest right

unfoldable pub equal_string_maps : List (String × String) → List (String × String) → Bool
unfolding equal_entries
equal_string_maps left right = nat_beq (length left) (length right) && equal_entries left right

unfoldable pub handle_node_selection : List (String × String) → Session → Session
unfolding equal_string_maps
handle_node_selection nodes s =
    let chosen : Session = record s { selected_nodes = nodes } in
    if not (equal_string_maps s.selected_nodes nodes) && is_ready s.state
    then emit (node_selected nodes) chosen
    else chosen

unfoldable pub emit_resources_updated : Resources → Session → Session
emit_resources_updated resources s = elim resources.ip_resources [
  | some a ↦ emit (resources_updated resources) s
  | none ↦ elim resources.domain_resources [
    | some a ↦ emit (resources_updated resources) s
    | none ↦ elim resources.dns_records [ some a ↦ emit (resources_updated resources) s | none ↦ s ]
  ]
]

unfoldable pub emit_selected_nodes : Session → Session
emit_selected_nodes s =
    if nat_beq (length s.selected_nodes) 0 then s else emit (node_selected s.selected_nodes) s

-- `emitServiceEvents` with the type `service.started`.
unfoldable pub emit_started : List ServiceStatus → Session → Session
emit_started [] s = s
emit_started (status ∷ rest) s =
    emit_started rest (if status.running then emit (service_started status) s else s)

-- The loop of `close` over the services.
unfoldable pub emit_stopped : List ServiceStatus → Session → Session
emit_stopped [] s = s
emit_stopped (status ∷ rest) s =
    emit_stopped rest (emit (service_stopped (record status { running = false })) s)

-- `byType`: the last status of each type.
unfoldable pub by_type :
    List ServiceStatus → List (String × ServiceStatus) → List (String × ServiceStatus)
by_type [] types = types
by_type (status ∷ rest) types = by_type rest (insert status.service_type status types)

abbrev pub merge_status : Option ServiceStatus → ServiceStatus → ServiceStatus
merge_status none old = old
merge_status (some status) old = record old {
  running = status.running;
  last_error = status.last_error;
  address = if old.address == "" then status.address else old.address;
}

unfoldable pub merge_all : List (String × ServiceStatus) → List ServiceStatus → List ServiceStatus
merge_all types [] = []
merge_all types (old ∷ rest) =
    merge_status (lookup old.service_type types) old ∷ merge_all types rest

unfoldable pub merge_stopped_service_statuses :
    List ServiceStatus → List ServiceStatus → List ServiceStatus
unfolding merge_all by_type
merge_stopped_service_statuses before after = merge_all (by_type after []) before

abbrev pub reconnect_max_delay : ℕ
reconnect_max_delay = 30 * 1000000000

-- The loop of `reconnectDelay`; the first number counts `attempt - current`.
unfoldable pub delay_loop : ℕ → ℕ → ℕ
delay_loop zero delay = delay
delay_loop (suc rounds) delay =
    let next = if ltb reconnect_max_delay (delay * 2) then reconnect_max_delay else delay * 2 in
    let rest = delay_loop rounds next in if ltb delay reconnect_max_delay then rest else delay

unfoldable pub reconnect_delay : ℕ → ℕ
unfolding delay_loop
reconnect_delay attempt = if leb attempt 1 then 0 else delay_loop (attempt - 2) 1000000000
