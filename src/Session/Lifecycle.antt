-- ===== src/Session/Lifecycle.antt =====
-- The start, the reconnection and the close of a session of internal/atrustruntime/session.go. What
-- runtimes, networks and contexts answer are arguments, in the order in which the code asks.
use zju_portal_core.Base.{
  ℕ, Bool, true, false, not, ◌||◌, String, string_eq, Option, none, some, List, [], ◌∷◌, ◌++◌,
  if◌then◌else◌, nat_beq,
}
use zju_portal_core.Core.Error.{
  Error, coded, coded_wrap, plain, wrap_error, error_text, join, error_code_of, is_retryable,
  resources_unavailable, session_close_failed, session_reconnect_failed, outbound_unavailable,
  tun_unavailable,
}
use zju_portal_core.Core.State.{
  ready, reconnecting, stopping, stopped, state_terminal, validate_transition,
}
use zju_portal_core.Config.{ResumeState}
use zju_portal_core.Stream.{Result, ok, err, fault}
use zju_portal_core.Session.{
  Session, Resources, ServiceStatus, CleanupResult, emit, transition, fail, fail_with,
  as_core_error, is_stopping, is_reconnecting, emit_resources_updated, emit_selected_nodes,
  emit_started, emit_stopped, resume_invalidated, resume_updated, reconnect_scheduled,
  reconnect_failed, reconnected, shutdown_completed, state_changed, merge_stopped_service_statuses,
  reconnect_delay,
}

abbrev pub canceled : Session → Session
canceled s = record s { cancel = some true }

-- `cancel` of `close`, which is nil before the start.
abbrev pub cancel_if_started : Session → Session
cancel_if_started s = record s { cancel = elim s.cancel [ none ↦ none | some c ↦ some true ] }

-- What a runtime that was set up comes with.
pub record Started : Type 0 where
  pub runtime : ℕ
  pub network : Option ℕ
  pub resources : Result Error Resources
  pub resume_state : Option ResumeState
  pub services : List ServiceStatus

-- A resume state without data is none.
abbrev pub emit_resume : Option ResumeState → Option ResumeState → Session → Session
emit_resume old none s = s
emit_resume none (some r) s = emit (resume_updated r.revision r.reused) s
emit_resume (some o) (some r) s =
    emit (resume_updated r.revision r.reused)
      (if r.reused then s else emit (resume_invalidated o.revision) s)

abbrev pub start_error : Option Error → Session → Option Error
start_error (some e) s = some e
start_error none s = elim s.stage_err [
  | some e ↦ some e
  | none ↦ if is_stopping s.state then some (plain "context canceled") else none
]

-- `start` once the runtime is there.
unfoldable pub go_ready :
    Option ResumeState → Started → Resources → Session → Session × Option Error
go_ready old started resources s =
    let filled : Session = record s {
      runtime = some started.runtime;
      network = started.network;
      resources = some resources;
      resume_state = started.resume_state;
    } in
    let moved = transition ready filled in
    elim moved.1 [
      | some e ↦ (fail e (canceled moved.0), some e)
      | none ↦ (
        emit_resume old started.resume_state (
            emit_started started.services
              (emit_selected_nodes (emit_resources_updated resources moved.0))),
        none,
      )
    ]

-- `start` after `startWithStageHandler`, whose error comes first; `old` is the configured resume state.
unfoldable pub finish_start :
    Option Error → Option ResumeState → Started → Session → Session × Option Error
unfolding go_ready
finish_start setup_err old started s = elim (start_error setup_err s) [
  | some e ↦ (fail e (canceled s), some e)
  | none ↦ elim started.resources [
    | ok resources ↦ go_ready old started resources s
    | fault ↦ (s, none)
    | err e ↦
        let wrapped =
          wrap_error resources_unavailable "read initial resource snapshot" false (some e) in
        (
          fail_with resources_unavailable "read initial resource snapshot" wrapped (canceled s),
          some wrapped,
        )
  ]
]

-- What `monitorRuntime` does when a runtime stops with an error and does not reconnect.
unfoldable pub stop_monitor : Bool → Error → Session → Option Session
stop_monitor disable_auto_reconnect e s = elim (error_code_of (some e)) [
  | tun_unavailable ↦ some (fail_with tun_unavailable "TUN service stopped" e s)
  | _ ↦
      if disable_auto_reconnect
      then some (fail_with session_reconnect_failed "VPN network runtime stopped" e s)
      else none
]

-- `reconnect` before its loop; the Boolean is whether the loop begins.
unfoldable pub begin_reconnect : ℕ → Session → Session × Bool
begin_reconnect failed_runtime s =
    let moved = transition reconnecting s in
    elim moved.1 [
      | some e ↦ (moved.0, false)
      | none ↦ elim s.runtime [
        | none ↦ (moved.0, true)
        | some r ↦
            (if nat_beq r failed_runtime then record moved.0 { runtime = none } else moved.0, true)
      ]
    ]

-- An attempt of the loop begins.
unfoldable pub schedule_reconnect : ℕ → Error → Session → Session
schedule_reconnect attempt e s =
    emit
      (reconnect_scheduled attempt (reconnect_delay attempt)
        (as_core_error session_reconnect_failed "VPN network runtime stopped" e))
      s

abbrev pub message_of : Error → String
message_of (coded c m r) = m
message_of (coded_wrap c m d r e) = m
message_of _ = ""

-- An attempt that failed; the Boolean is whether the loop goes on.
unfoldable pub attempt_failed : ℕ → Error → Session → Session × Bool
attempt_failed attempt e s =
    let core = as_core_error session_reconnect_failed "reconnect session" e in
    let noted = emit (reconnect_failed attempt core) (record s { last_error = some core }) in
    if is_retryable (some e)
    then (noted, true)
    else (fail_with (error_code_of (some core)) (message_of core) core noted, false)

abbrev pub stale_resources : Option Resources → Option Resources
stale_resources none = some (record {
  client_ip = "";
  ip_resources = none;
  domain_resources = none;
  dns_records = none;
  stale = true;
})
stale_resources (some r) = some (record r { stale = true })

-- `installReconnectedRuntime`; the Booleans are `ctx.Err() != nil` and the result.
unfoldable pub install_reconnected_runtime : Bool → Started → Session → Session × Bool
install_reconnected_runtime ctx_done started s =
    if ctx_done || not (is_reconnecting s.state)
    then (s, false)
    else elim (validate_transition s.state ready) [
      | some e ↦ (s, false)
      | none ↦
          let filled : Session = record s {
            runtime = some started.runtime;
            network = started.network;
            resources = elim started.resources [ ok r ↦ some r | _ ↦ stale_resources s.resources ];
            resume_state = elim started.resume_state [ some r ↦ some r | none ↦ s.resume_state ];
            state = ready;
            last_error = none;
          } in
          let announced = emit (state_changed s.state ready) filled in
          let listed : Session = elim started.resources [
            | ok r ↦ emit_resources_updated r announced
            | _ ↦ announced
          ] in
          (emit_selected_nodes listed, true)
    ]

-- The end of a successful attempt; `resume` is what the new runtime answers to `ResumeState`.
unfoldable pub finish_reconnect : ℕ → Option ResumeState → Option ResumeState → Session → Session
finish_reconnect attempt old resume s = emit (reconnected attempt) (emit_resume old resume s)

-- What the parts answer that `close` closes, `none` for no error, and their services before and after.
pub record Closing : Type 0 where
  pub network_err : Option Error
  pub runtime_err : Option Error
  pub services_before : List ServiceStatus
  pub services_after : List ServiceStatus

-- The text and the error that closing the network leaves.
abbrev pub close_network : Closing → Session → String × Option Error
close_network closing s = elim s.network [
  | none ↦ ("", none)
  | some n ↦ elim closing.network_err [
    | none ↦ ("", none)
    | some e ↦ (
      error_text e,
      some (wrap_error session_close_failed "close VPN network runtime" false (some e)),
    )
  ]
]

abbrev pub close_runtime : Closing → Session → String × Option Error → String × Option Error
close_runtime closing s (text, close_err) = elim s.runtime [
  | none ↦ (text, close_err)
  | some r ↦ elim closing.runtime_err [
    | none ↦ (text, close_err)
    | some e ↦ elim close_err [
      | some c ↦ (error_text (join c e), some c)
      | none ↦ (
        error_text e,
        some (wrap_error session_close_failed "close aTrust runtime" false (some e)),
      )
    ]
  ]
]

-- The move to `stopping` with its line of the report.
unfoldable pub begin_close : Session → Session × List CleanupResult
begin_close s =
    let asked = cancel_if_started s in
    if is_stopping s.state
    then (asked, [])
    else let moved = transition stopping asked in
      elim moved.1 [
        | none ↦ (moved.0, [])
        | some e ↦ (moved.0, record { component = "session.state"; error = error_text e } ∷ [])
      ]

-- The move to `stopped` with the error of `close`.
unfoldable pub end_close : Option Error → Session → Session × Option Error
end_close close_err s =
    if state_terminal s.state
    then (s, close_err)
    else let moved = transition stopped s in
      elim moved.1 [
        | none ↦ (moved.0, close_err)
        | some e ↦ elim close_err [
          | some c ↦ (moved.0, some c)
          | none ↦ (
            moved.0,
            some (wrap_error session_close_failed "mark session stopped" false (some e)),
          )
        ]
      ]

unfoldable pub close : Closing → Session → (Session × List CleanupResult) × Option Error
unfolding begin_close end_close
close closing s =
    let begun = begin_close s in
    let network = close_network closing begun.0 in
    let outcome = close_runtime closing begun.0 network in
    let services = merge_stopped_service_statuses closing.services_before closing.services_after in
    let report = begun.1 ++ record { component = "atrust.runtime"; error = outcome.0 } ∷ [] in
    let ended = end_close outcome.1 (emit_stopped services begun.0) in
    ((emit (shutdown_completed report) ended.0, report), ended.1)

-- `Outbound`.
unfoldable pub outbound : Session → Result Error ℕ
outbound s = elim s.network [
  | none ↦ err (wrap_error outbound_unavailable "session outbound is unavailable" true none)
  | some n ↦
      if is_stopping s.state
      then err (wrap_error outbound_unavailable "session outbound is unavailable" true none)
      else ok n
]
