-- ===== src/Session/States.antt =====
-- Every change of a session's state in internal/atrustruntime/session.go follows the table of
-- core/state.go.
use zju_portal_core.Base.{
  ℕ, ◌≡◌, refl, subst, inl, inr, Bool, true, false, not, ◌||◌, String, string_eq, nat_beq, Option,
  none, some, List, [], ◌∷◌, arith, Bool-cases, Option-cases,
}
use zju_portal_core.Core.Error.{Error, ErrorCode, is_retryable}
use zju_portal_core.Core.State.{
  SessionState, ready, reconnecting, stopping, stopped, can_transition, validate_transition,
  state_valid, state_terminal,
}
use zju_portal_core.Core.State.Paths.{History, start, step}
use zju_portal_core.Config.{ResumeState}
use zju_portal_core.Stream.Laws.{Result-cases}
use zju_portal_core.Session.{
  Session, transition, fail_with, is_stopping, is_reconnecting, SetupStage, handle_setup_stage,
  handle_node_selection, Resources, emit_resources_updated, emit_selected_nodes, emit_started,
  emit_stopped, merge_stopped_service_statuses,
}
use zju_portal_core.Session.Lifecycle.{
  Started, Closing, go_ready, finish_start, start_error, canceled, cancel_if_started,
  begin_reconnect, attempt_failed, schedule_reconnect, install_reconnected_runtime, begin_close,
  end_close, close, close_network, close_runtime, finish_reconnect,
}
use zju_portal_core.Session.Moves.{
  transition-History, fail_with-History, fail-History, handle_setup_stage-History,
  handle_node_selection-state, emit_resources_updated-state, emit_selected_nodes-state,
  emit_started-state, emit_stopped-state, emit_resume-state, History-append,
}

go_ready-History :
    (old : Option ResumeState) (started : Started) (r : Resources) (s : Session)
    → History s.state (go_ready old started r s).0.state
unfolding go_ready
go_ready-History old started r s =
    let filled : Session = record s {
      runtime = some started.runtime;
      network = started.network;
      resources = some r;
      resume_state = started.resume_state;
    } in
    elim (Option-cases (transition ready filled).1) [
      | inr (e, x) ↦
          rw (x, go_ready)
            (History-append (transition-History ready filled)
              (fail-History e (canceled (transition ready filled).0)))
      | inl x ↦
          let listed = emit_selected_nodes (emit_resources_updated r (transition ready filled).0) in
          rw
            (
              x,
              go_ready,
              emit_resume-state old started.resume_state (emit_started started.services listed),
              emit_started-state started.services listed,
              emit_selected_nodes-state (emit_resources_updated r (transition ready filled).0),
              emit_resources_updated-state r (transition ready filled).0,
            )
            (transition-History ready filled)
    ]

finish_start-History :
    (setup_err : Option Error) (old : Option ResumeState) (started : Started) (s : Session)
    → History s.state (finish_start setup_err old started s).0.state
unfolding finish_start
finish_start-History setup_err old started s = elim (Option-cases (start_error setup_err s)) [
  | inr (e, x) ↦ rw (x, finish_start) (fail-History e (canceled s))
  | inl x ↦ elim (Result-cases started.resources) [
    | inl (r, y) ↦ rw (x, finish_start, y) (go_ready-History old started r s)
    | inr (inl (e, y)) ↦ rw (x, finish_start, y) (fail_with-History _ _ _ (canceled s))
    | inr (inr y) ↦ rw (x, finish_start, y) start
  ]
]

begin_reconnect-History :
    (failed_runtime : ℕ) (s : Session) → History s.state (begin_reconnect failed_runtime s).0.state
unfolding begin_reconnect
begin_reconnect-History failed_runtime s = elim (Option-cases (transition reconnecting s).1) [
  | inr (e, x) ↦ rw (x, begin_reconnect) (transition-History reconnecting s)
  | inl x ↦ elim (Option-cases s.runtime) [
    | inl y ↦ rw (x, begin_reconnect, y) (transition-History reconnecting s)
    | inr (r, y) ↦ elim (Bool-cases (nat_beq r failed_runtime)) [
      | inl z ↦ rw (x, begin_reconnect, y, z) (transition-History reconnecting s)
      | inr z ↦ rw (x, begin_reconnect, y, z) (transition-History reconnecting s)
    ]
  ]
]

attempt_failed-History :
    (attempt : ℕ) (e : Error) (s : Session) → History s.state (attempt_failed attempt e s).0.state
unfolding attempt_failed
attempt_failed-History attempt e s = elim (Bool-cases (is_retryable (some e))) [
  | inl x ↦ rw (x, attempt_failed) start
  | inr x ↦ rw (x, attempt_failed) (fail_with-History _ _ _ _)
]

install_reconnected_runtime-History :
    (ctx_done : Bool) (started : Started) (s : Session)
    → History s.state (install_reconnected_runtime ctx_done started s).0.state
unfolding install_reconnected_runtime validate_transition
install_reconnected_runtime-History ctx_done started s =
    elim (Bool-cases (ctx_done || not (is_reconnecting s.state))) [
      | inl x ↦ rw (x, install_reconnected_runtime) start
      | inr x ↦ elim (Bool-cases (can_transition s.state ready)) [
        | inr y ↦ rw (x, install_reconnected_runtime, y, validate_transition) start
        | inl y ↦ elim (Result-cases started.resources) [
          | inl (r, z) ↦
              rw
                (
                  x, install_reconnected_runtime, y, validate_transition, z,
                  emit_selected_nodes-state, emit_resources_updated-state,
                )
                (step ready y start)
          | inr (inl (e, z)) ↦
              rw
                (
                  x, install_reconnected_runtime, y, validate_transition, z,
                  emit_selected_nodes-state,
                )
                (step ready y start)
          | inr (inr z) ↦
              rw
                (
                  x, install_reconnected_runtime, y, validate_transition, z,
                  emit_selected_nodes-state,
                )
                (step ready y start)
        ]
      ]
    ]

begin_close-History : (s : Session) → History s.state (begin_close s).0.state
unfolding begin_close
begin_close-History s = elim (Bool-cases (is_stopping s.state)) [
  | inl x ↦ rw (x, begin_close) start
  | inr x ↦ elim (Option-cases (transition stopping (cancel_if_started s)).1) [
    | inl y ↦ rw (x, begin_close, y) (transition-History stopping (cancel_if_started s))
    | inr (e, y) ↦ rw (x, begin_close, y) (transition-History stopping (cancel_if_started s))
  ]
]

end_close-History :
    (close_err : Option Error) (s : Session) → History s.state (end_close close_err s).0.state
unfolding end_close
end_close-History close_err s = elim (Bool-cases (state_terminal s.state)) [
  | inl x ↦ rw (x, end_close) start
  | inr x ↦ elim (Option-cases (transition stopped s).1) [
    | inl y ↦ rw (x, end_close, y) (transition-History stopped s)
    | inr (e, y) ↦ elim (Option-cases close_err) [
      | inl z ↦ rw (x, end_close, y, z) (transition-History stopped s)
      | inr (c, z) ↦ rw (x, end_close, y, z) (transition-History stopped s)
    ]
  ]
]

close-History : (closing : Closing) (s : Session) → History s.state (close closing s).0.0.state
unfolding close
close-History closing s =
    let begun = (begin_close s).0 in
    let services = merge_stopped_service_statuses closing.services_before closing.services_after in
    History-append (begin_close-History s) (
      subst (λ a. History a (close closing s).0.0.state) (emit_stopped-state services begun)
        (end_close-History (close_runtime closing begun (close_network closing begun)).1
          (emit_stopped services begun)))

-- What goroutines do to a session, with what the rest of the program answers.
pub data Action : Type 0 where
  sets_up : SetupStage → Action
  selects : List (String × String) → Action
  finishes_start : Option Error → Option ResumeState → Started → Action
  fails : ErrorCode → String → Error → Action
  begins_reconnect : ℕ → Action
  schedules : ℕ → Error → Action
  fails_attempt : ℕ → Error → Action
  installs : Bool → Started → Action
  finishes_reconnect : ℕ → Option ResumeState → Option ResumeState → Action
  closes : Closing → Action

unfoldable pub act : Action → Session → Session
act (sets_up stage) s = handle_setup_stage stage s
act (selects nodes) s = handle_node_selection nodes s
act (finishes_start e old started) s = (finish_start e old started s).0
act (fails code message e) s = fail_with code message e s
act (begins_reconnect r) s = (begin_reconnect r s).0
act (schedules attempt e) s = schedule_reconnect attempt e s
act (fails_attempt attempt e) s = (attempt_failed attempt e s).0
act (installs ctx_done started) s = (install_reconnected_runtime ctx_done started s).0
act (finishes_reconnect attempt old resume) s = finish_reconnect attempt old resume s
act (closes closing) s = (close closing s).0.0

act-History : (a : Action) (s : Session) → History s.state (act a s).state
unfolding act schedule_reconnect finish_reconnect
act-History (sets_up stage) s = handle_setup_stage-History stage s
act-History (selects nodes) s = rw (handle_node_selection-state nodes s) start
act-History (finishes_start e old started) s = finish_start-History e old started s
act-History (fails code message e) s = fail_with-History code message e s
act-History (begins_reconnect r) s = begin_reconnect-History r s
act-History (schedules attempt e) s = start
act-History (fails_attempt attempt e) s = attempt_failed-History attempt e s
act-History (installs ctx_done started) s = install_reconnected_runtime-History ctx_done started s
act-History (finishes_reconnect attempt old resume) s = rw (emit_resume-state old resume s) start
act-History (closes closing) s = close-History closing s

-- Actions by several goroutines, one after another.
unfoldable pub acts : List Action → Session → Session
unfolding act
acts [] s = s
acts (a ∷ rest) s = acts rest (act a s)

-- Whatever actions a session takes, in any order, its state moves only along the table of allowed
-- transitions.
pub acts-History : (rest : List Action) (s : Session) → History s.state (acts rest s).state
unfolding acts
acts-History [] s = start
acts-History (a ∷ rest) s = History-append (act-History a s) (acts-History rest (act a s))

can_stop :
    (a : SessionState)
    → state_valid a ≡ true
    → is_stopping a ≡ false
    → can_transition a stopping ≡ true
unfolding state_valid can_transition
can_stop a v n = ground arith

transition-allowed :
    (next : SessionState) (s : Session)
    → can_transition s.state next ≡ true
    → ((transition next s).1 ≡ none) × ((transition next s).0.state ≡ next)
unfolding transition validate_transition
transition-allowed next s h = rw (h, transition, validate_transition) (refl, refl)

begin_close-is_stopping :
    (s : Session) → state_valid s.state ≡ true → is_stopping (begin_close s).0.state ≡ true
unfolding begin_close
begin_close-is_stopping s v = elim (Bool-cases (is_stopping s.state)) [
  | inl x ↦ rw (x, begin_close) x
  | inr x ↦
      let (made, there) =
        transition-allowed stopping (cancel_if_started s) (can_stop s.state v x) in
      rw (x, begin_close, made, there) refl
]

end_close-stopped :
    (close_err : Option Error) (s : Session)
    → is_stopping s.state ≡ true
    → (end_close close_err s).0.state ≡ stopped
unfolding end_close transition validate_transition can_transition state_terminal
end_close-stopped close_err s h = ground arith

-- `close` leaves a session in a valid state stopped, whatever its parts answer.
pub close-stopped :
    (closing : Closing) (s : Session)
    → state_valid s.state ≡ true
    → (close closing s).0.0.state ≡ stopped
unfolding close
close-stopped closing s v =
    let services = merge_stopped_service_statuses closing.services_before closing.services_after in
    let begun = (begin_close s).0 in
    end_close-stopped (close_runtime closing begun (close_network closing begun)).1
      (emit_stopped services begun)
      (rw (emit_stopped-state services begun) (begin_close-is_stopping s v))
