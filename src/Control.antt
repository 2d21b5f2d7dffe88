-- ===== src/Control.antt =====
-- control/v1/service.go: the subscribers of the control service and the authentication challenges that wait
-- for an answer. `eventMu` makes each method one step. `X` is what the service passes on of an event unread.
pub mod Pending
pub mod Channels
pub mod Waiting
pub mod Delivery
pub mod Calls
pub mod Rest
use zju_portal_core.Base.{
  ℕ, ◌+◌, Bool, true, false, ◌&&◌, ◌||◌, not, Option, none, some, List, [], ◌∷◌, ◌++◌, String, ◌==◌,
  string_eq, nat_eq, ltb, length, if◌then◌else◌,
}
use zju_portal_core.Base.Map.{lookup, insert, delete}
use zju_portal_core.Core.State.{SessionState, failed, stopping, stopped}

-- core/event.go.
pub data EventType : Type 0 where
  session_state_changed auth_required auth_browser_required auth_completed : EventType
  resources_updated node_selected service_started service_stopped session_error : EventType
  reconnect_scheduled reconnect_failed reconnected routing_mode_changed : EventType
  shutdown_completed resume_state_updated resume_state_invalidated log_event : EventType

-- `auth` is the ID of the event's challenge, `none` where `Auth` is nil.
pub record Event (X : Type 0) : Type 0 where
  pub session_id : String
  pub event_type : EventType
  pub state : SessionState
  pub auth : Option String
  pub payload : X

-- A subscriber's channel: what its reader has taken out and what is still in it.
pub record Channel (X : Type 0) : Type 0 where
  pub received : List (Event X)
  pub buffered : List (Event X)

abbrev pub service_event_buffer : ℕ
service_event_buffer = 128

-- A channel stands in `subscribers` while the service may send to it. `detached` has the closed ones, which
-- the service no longer knows; their readers still do. `event_done` is closed when `done` holds.
pub record Service (X : Type 0) : Type 0 where
  pub next_event_id : ℕ
  pub subscribers : List (ℕ × Channel X)
  pub detached : List (ℕ × Channel X)
  pub pending_auth : List (String × Event X)
  pub done : Bool

abbrev is_ending : SessionState → Bool
is_ending failed = true
is_ending stopping = true
is_ending stopped = true
is_ending _ = false

module _ {X : Type 0} where
  unfoldable pub new_service : Service X
  new_service = record {
    next_event_id = 0;
    subscribers = [];
    detached = [];
    pending_auth = [];
    done = false;
  }

  -- `clearPendingAuthForSession`.
  unfoldable pub clear_session : String → List (String × Event X) → List (String × Event X)
  clear_session session [] = []
  clear_session session ((id, e) ∷ rest) =
      if e.session_id == session
      then clear_session session rest
      else (id, e) ∷ clear_session session rest

  unfoldable pub add_challenge :
      Option String → Event X → List (String × Event X) → List (String × Event X)
  add_challenge none e pending = pending
  add_challenge (some id) e pending = if id == "" then pending else insert id e pending

  unfoldable pub complete_challenge :
      Option String → Event X → List (String × Event X) → List (String × Event X)
  complete_challenge none e pending = clear_session e.session_id pending
  complete_challenge (some id) e pending =
      if id == "" then clear_session e.session_id pending else delete id pending

  unfoldable pub update_by_type :
      EventType → Event X → List (String × Event X) → List (String × Event X)
  update_by_type auth_required e pending = add_challenge e.auth e pending
  update_by_type auth_browser_required e pending = add_challenge e.auth e pending
  update_by_type auth_completed e pending = complete_challenge e.auth e pending
  update_by_type session_error e pending = clear_session e.session_id pending
  update_by_type shutdown_completed e pending = clear_session e.session_id pending
  update_by_type session_state_changed e pending =
      if is_ending e.state then clear_session e.session_id pending else pending
  update_by_type _ e pending = pending

  unfoldable pub update_pending_auth : Event X → List (String × Event X) → List (String × Event X)
  update_pending_auth e pending = update_by_type e.event_type e pending

  abbrev pub push : Event X → Channel X → Channel X
  push e c = record c { buffered = c.buffered ++ (e ∷ []) }

  abbrev pub has_room : Channel X → Bool
  has_room c = ltb (length c.buffered) service_event_buffer

  -- The subscribers that take an event, and those that have no room for it.
  unfoldable pub taking : Event X → List (ℕ × Channel X) → List (ℕ × Channel X)
  taking e [] = []
  taking e ((id, c) ∷ rest) = if has_room c then (id, push e c) ∷ taking e rest else taking e rest

  unfoldable pub full : List (ℕ × Channel X) → List (ℕ × Channel X)
  full [] = []
  full ((id, c) ∷ rest) = if has_room c then full rest else (id, c) ∷ full rest

  unfoldable pub broadcast : Event X → Service X → Service X
  broadcast e s = record s {
    pending_auth = update_pending_auth e s.pending_auth;
    subscribers = taking e s.subscribers;
    detached = full s.subscribers ++ s.detached;
  }

  unfoldable pub snapshot : List (String × Event X) → List (Event X)
  snapshot [] = []
  snapshot ((id, e) ∷ rest) = e ∷ snapshot rest

  -- `none` is a send that blocks for ever: no one reads the channel before it is returned.
  unfoldable pub subscribe : Service X → Option (Service X × ℕ)
  subscribe s =
      if ltb service_event_buffer (length s.pending_auth)
      then none
      else some (
        record s {
          next_event_id = s.next_event_id + 1;
          subscribers =
              insert (s.next_event_id + 1)
                (record { received = []; buffered = snapshot s.pending_auth }) s.subscribers;
        },
        s.next_event_id + 1,
      )

  unfoldable pub detach : ℕ → Option (Channel X) → Service X → Service X
  detach id none s = s
  detach id (some c) s = record s {
    subscribers = delete id s.subscribers;
    detached = (id, c) ∷ s.detached;
  }

  unfoldable pub remove_subscriber : ℕ → Service X → Service X
  unfolding detach
  remove_subscriber id s = detach id (lookup id s.subscribers) s

  unfoldable pub close_subscribers : Service X → Service X
  close_subscribers s = record s { subscribers = []; detached = s.subscribers ++ s.detached }

  unfoldable pub drain_manager_events : List (Event X) → Service X → Service X
  drain_manager_events [] s = s
  drain_manager_events (e ∷ events) s = drain_manager_events events (broadcast e s)

  -- The end of `forwardEvents`: after `Close` with what is still in the manager's channel, or when that
  -- channel is closed, with nothing.
  unfoldable pub end_forwarding : List (Event X) → Service X → Service X
  end_forwarding events s = record (close_subscribers (drain_manager_events events s)) {
    done = true;
  }

  -- The reader of a channel takes an event.
  abbrev pub take_one : Channel X → List (Event X) → Channel X
  take_one c [] = c
  take_one c (e ∷ rest) = record { received = c.received ++ (e ∷ []); buffered = rest }

  unfoldable pub receive_from : ℕ → Option (Channel X) → Service X → Service X
  receive_from id none s = s
  receive_from id (some c) s = record s {
    subscribers = insert id (take_one c c.buffered) s.subscribers;
  }

  unfoldable pub receive : ℕ → Service X → Service X
  unfolding receive_from
  receive id s = receive_from id (lookup id s.subscribers) s
