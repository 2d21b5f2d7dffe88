-- ===== src/Manager.antt =====
-- manager/manager.go: the sessions of a process. A session is known by a number, its pointer; what its
-- methods and the protocols' factories do to the rest of the program, a state `W`, is the interface
-- `Sessions`. A context's `Err()` is an argument. `operationMu` makes Start, Stop and Close atomic.
pub mod RuntimeConfig
pub mod Single
pub mod AuthBroker
pub mod Responses
use zju_portal_core.Base.{
  ℕ, ◌+◌, ◌-◌, Bool, true, false, not, String, ◌==◌, string_eq, Option, none, some, List, [], ◌∷◌,
  ◌++◌, length, leb, nat_beq, if◌then◌else◌,
}
use zju_portal_core.Core.Error.{
  Error, config_invalid, session_start_failed, session_not_found, wrap_error,
}
use zju_portal_core.Core.State.{SessionState}
use zju_portal_core.Config.{Config}
use zju_portal_core.Stream.{Result, ok, err, fault}

-- What the manager calls: the methods of `Session` that it uses itself, and the factories by protocol.
-- A factory may return no session.
pub record Sessions (W : Type 0) : Type 0 where
  pub id : ℕ → String
  pub start : ℕ → W → W × Option Error
  pub close : ℕ → W → W × Option Error
  pub wait_closed : ℕ → W → W × Option Error
  pub factory : String → Option (String → Config → W → W × Result Error (Option ℕ))
  pub session_name : ℕ → String

-- `active` is the coordinator's, which all managers of a process share.
pub record Manager : Type 0 where
  pub next_id : ℕ
  pub current : Option ℕ
  pub active : Option ℕ

abbrev pub set_active : ℕ → Manager → Manager
set_active s m = record m { active = some s }

abbrev pub clear_active : ℕ → Manager → Manager
clear_active s m = elim m.active [
  | some a ↦ if nat_beq a s then record m { active = none } else m
  | none ↦ m
]

module _ {W : Type 0} (sessions : Sessions W) where
  -- Close, and wait if that fails: the error that is left, and the one to report.
  abbrev pub shut : ℕ → W → W × Option Error × Option Error
  shut s w =
      let closed = sessions.close s w in
      let waited = sessions.wait_closed s closed.0 in
      elim closed.1 [
        | none ↦ (closed.0, none, none)
        | some e ↦ elim waited.1 [
          | none ↦ (waited.0, none, some e)
          | some e₂ ↦ (waited.0, some e, some e)
        ]
      ]

  unfoldable pub close_active : Manager → W → (Manager × W) × Option Error
  close_active m w = elim m.active [
    | none ↦ ((m, w), none)
    | some s ↦
        let done = shut s w in
        elim done.1 [ some e ↦ ((m, done.0), some e) | none ↦ ((clear_active s m, done.0), none) ]
  ]

  unfoldable pub stop : String → Manager → W → (Manager × W) × Option Error
  stop id m w = elim m.active [
    | none ↦ ((m, w), none)
    | some s ↦
        if sessions.id s == id
        then (let done = shut s w in
            elim done.1 [
              | some e ↦ ((m, done.0), some e)
              | none ↦ ((clear_active s m, done.0), done.2)
            ])
        else ((m, w), none)
  ]

  -- From `setActive` on.
  unfoldable pub run_session : String → ℕ → Manager → W → (Manager × W) × Result Error String
  run_session id s m w =
      let running : Manager = record m { active = some s; current = some s } in
      let started = sessions.start s w in
      elim started.1 [
        | none ↦ ((running, started.0), ok id)
        | some e ↦ ((clear_active s running, (sessions.close s started.0).0), err e)
      ]

  abbrev pub protocol_of : Config → String
  protocol_of config = if config.protocol == "" then "atrust" else config.protocol

  abbrev pub named : Config → Manager → Manager
  named config m = if config.session_id == "" then record m { next_id = m.next_id + 1 } else m

  abbrev pub id_of : Config → Manager → String
  id_of config m =
      if config.session_id == "" then sessions.session_name (m.next_id + 1) else config.session_id

  -- From the choice of the ID on.
  unfoldable pub new_session : Config → Manager → W → (Manager × W) × Result Error String
  unfolding run_session
  new_session config m w = elim (sessions.factory (protocol_of config)) [
    | none ↦
        ((named config m, w), err (wrap_error config_invalid "unsupported protocol" false none))
    | some make ↦
        let made = make (id_of config m) config w in
        elim made.1 [
          | err e ↦ ((named config m, made.0), err e)
          | fault ↦ ((named config m, made.0), fault)
          | ok session ↦ elim session [
            | none ↦ (
              (named config m, made.0),
              err (wrap_error session_start_failed "protocol returned no session" false none),
            )
            | some s ↦ run_session (id_of config m) s (named config m) made.0
          ]
        ]
  ]

  -- `Start`. The ID that the code returns beside the error of a session that did not start is left out.
  unfoldable pub start : Option Error → Config → Manager → W → (Manager × W) × Result Error String
  unfolding close_active new_session
  start ctx_err config m w =
      let closed = close_active m w in
      elim closed.1 [
        | some e ↦ (closed.0, err e)
        | none ↦ elim ctx_err [
          | some e ↦ (closed.0, err e)
          | none ↦ new_session config closed.0.0 closed.0.1
        ]
      ]

  -- `session`: what the queries of a session begin with.
  unfoldable pub session : String → Manager → Result Error ℕ
  session id m = elim m.current [
    | none ↦ err (wrap_error session_not_found "session not found" false none)
    | some s ↦
        if sessions.id s == id
        then ok s
        else err (wrap_error session_not_found "session not found" false none)
  ]

  -- `Resources`, `Outbound`, `Services`, `TrafficStats`, `Connections`, `CloseConnection`,
  -- `TransportConnections`, `RoutingMode`, `SetRoutingMode`, `ResumeState`: a method of the session.
  unfoldable pub query :
      {A : Type 0} → (ℕ → W → W × Result Error A) → String → Manager → W → W × Result Error A
  unfolding session
  query method id m w = elim (session id m) [
    | ok s ↦ method s w
    | err e ↦ (w, err e)
    | fault ↦ (w, fault)
  ]

  unfoldable pub refresh_resources :
      {A : Type 0}
      → (ℕ → W → W × Option Error)
      → (ℕ → W → W × Result Error A)
      → String
      → Manager
      → W
      → W × Result Error A
  unfolding session
  refresh_resources refresh resources id m w = elim (session id m) [
    | err e ↦ (w, err e)
    | fault ↦ (w, fault)
    | ok s ↦
        let refreshed = refresh s w in
        elim refreshed.1 [ some e ↦ (refreshed.0, err e) | none ↦ resources s refreshed.0 ]
  ]

abbrev pub manager_event_buffer : ℕ
manager_event_buffer = 128

abbrev pub manager_auth_event_reserve : ℕ
manager_auth_event_reserve = 8

-- The buffered channel `events`, oldest first; an event of a session is dropped when only the reserve is
-- left.
unfoldable pub emit_session_event : {E : Type 0} → E → List E → List E
emit_session_event event events =
    if leb (manager_event_buffer - manager_auth_event_reserve) (length events)
    then events
    else events ++ event ∷ []
