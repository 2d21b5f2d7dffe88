-- ===== src/Session/Moves.antt =====
-- How the handlers of internal/atrustruntime/session.go change a session's state.
use zju_portal_core.Base.{
  ◌≡◌, refl, inl, inr, false, ◌||◌, String, string_eq, Option, none, some, List, [], ◌∷◌, arith,
  Bool-cases, Option-cases,
}
use zju_portal_core.Core.Error.{Error, ErrorCode}
use zju_portal_core.Core.State.{SessionState, failed, can_transition, validate_transition}
use zju_portal_core.Core.State.Paths.{History, start, step}
use zju_portal_core.Config.{ResumeState}
use zju_portal_core.Session.{
  Session, Event, emit, transition, fail_with, fail, as_core_error, is_stopping, is_failed,
  SetupStage, setup_stage_state, handle_setup_stage, note_stage_err, handle_node_selection,
  Resources, ServiceStatus, emit_resources_updated, emit_selected_nodes, emit_started, emit_stopped,
}
use zju_portal_core.Session.Lifecycle.{emit_resume}

pub History-append : {a b c : SessionState} → History a b → History b c → History a c
History-append start k = k
History-append (step t e h) k = step t e (History-append h k)

-- A transition that is made is one of the table.
pub transition-History :
    (next : SessionState) (s : Session) → History s.state (transition next s).0.state
unfolding transition validate_transition
transition-History next s = elim (Bool-cases (can_transition s.state next)) [
  | inl e ↦ rw (e, transition, validate_transition) (step next e start)
  | inr e ↦ rw (e, transition, validate_transition) start
]

pub fail_with-History :
    (code : ErrorCode) (message : String) (e : Error) (s : Session)
    → History s.state (fail_with code message e s).state
unfolding fail_with
fail_with-History code message e s = elim (Bool-cases (is_stopping s.state || is_failed s.state)) [
  | inl x ↦ rw (x, fail_with) start
  | inr x ↦
      rw (x, fail_with)
        (transition-History failed (record s { last_error = some (as_core_error code message e) }))
]

pub fail-History : (e : Error) (s : Session) → History s.state (fail e s).state
unfolding fail
fail-History e s = fail_with-History _ _ e s

pub note_stage_err-state : (e : Error) (s : Session) → (note_stage_err e s).state ≡ s.state
note_stage_err-state e s = ground arith

pub handle_setup_stage-History :
    (stage : SetupStage) (s : Session) → History s.state (handle_setup_stage stage s).state
unfolding handle_setup_stage
handle_setup_stage-History stage s = elim (Option-cases (setup_stage_state stage)) [
  | inl x ↦ rw (x, handle_setup_stage) start
  | inr (next, x) ↦ elim (Option-cases (transition next s).1) [
    | inl y ↦ rw (x, handle_setup_stage, y) (transition-History next s)
    | inr (e, y) ↦
        rw (x, handle_setup_stage, y, note_stage_err-state e (transition next s).0)
          (transition-History next s)
  ]
]

pub handle_node_selection-state :
    (nodes : List (String × String)) (s : Session) → (handle_node_selection nodes s).state ≡ s.state
unfolding handle_node_selection
handle_node_selection-state nodes s = ground arith

pub emit_resources_updated-state :
    (r : Resources) (s : Session) → (emit_resources_updated r s).state ≡ s.state
unfolding emit_resources_updated
emit_resources_updated-state r s = ground arith

pub emit_selected_nodes-state : (s : Session) → (emit_selected_nodes s).state ≡ s.state
unfolding emit_selected_nodes
emit_selected_nodes-state s = ground arith

pub emit_started-state : (l : List ServiceStatus) (s : Session) → (emit_started l s).state ≡ s.state
unfolding emit_started
emit_started-state [] s = refl
emit_started-state (x ∷ l) s =
    ground (arith, emit_started-state l s, emit_started-state l (emit (Event.service_started x) s))

pub emit_stopped-state : (l : List ServiceStatus) (s : Session) → (emit_stopped l s).state ≡ s.state
unfolding emit_stopped
emit_stopped-state [] s = refl
emit_stopped-state (x ∷ l) s =
    ground
      (arith, emit_stopped-state l (emit (Event.service_stopped (record x { running = false })) s))

pub emit_resume-state :
    (a b : Option ResumeState) (s : Session) → (emit_resume a b s).state ≡ s.state
emit_resume-state a none s = ground arith
emit_resume-state none (some r) s = refl
emit_resume-state (some o) (some r) s = ground arith
