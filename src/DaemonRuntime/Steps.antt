-- ===== src/DaemonRuntime/Steps.antt =====
-- The runs of daemonruntime/controller.go.
use zju_portal_core.Base.{
  ◌≡◌, refl, true, false, Option, none, some, String, ◌==◌, string_eq, ◌⊎◌, inl, inr, Bool-cases,
  arith, if-elim, if-cases,
}
use zju_portal_core.Core.Error.{Error}
use zju_portal_core.Config.{ResumeState}
use zju_portal_core.Dial.{RoutingMode}
use zju_portal_core.DaemonConfig.{DaemonConfig}
use zju_portal_core.DaemonConfig.Validate.{Library, validate, core_config}
use zju_portal_core.DaemonConfig.Changes.Pending.{SameCore}
use zju_portal_core.DaemonRuntime.{
  Controller, Snapshot, Manager, StartOptions, ApplyMode, new_controller, with_resume_state,
  set_initial_resume_state, initialize_with, initialize_started, initialize_valid, initialize,
  set_config, patch_config, reload_config, apply_config, start_session, stop, set_routing_mode,
}
use zju_portal_core.DaemonRuntime.Invariant.{IsController, Kept, same-Kept, trans-Kept, resume-Kept}
use zju_portal_core.DaemonRuntime.Kept.{
  set_config_locked-Kept, patch_merged-Kept, reload_loaded-Kept, apply_config-Kept,
  start_session-Kept, stop-Kept, set_routing_mode-Kept,
}

-- An operation, with what the manager does.
pub data Step (lib : Library) {W : Type 0} (m : Manager W) (c : Controller)
    : Controller → Type 0 where
  initializes : (config : DaemonConfig) (w : W) → Step lib m c (initialize lib m config c w).0
  resumes : (state : Option ResumeState) → Step lib m c (set_initial_resume_state state c)
  sets : (config : DaemonConfig) (w : W) → Step lib m c (set_config lib m config c w).0
  patches :
      (merge : DaemonConfig → Error ⊎ DaemonConfig) (w : W)
      → Step lib m c (patch_config lib m merge c w).0
  reloads :
      (load : String → Error ⊎ DaemonConfig) (w : W) → Step lib m c (reload_config lib m load c w).0
  applies : (mode : ApplyMode) (w : W) → Step lib m c (apply_config lib m mode c w).0
  starts : (o : StartOptions) (w : W) → Step lib m c (start_session lib m o c w).0
  stops : (id : String) (w : W) → Step lib m c (stop lib m id c w).0
  sets_mode :
      (id : String) (mode : RoutingMode) (w : W)
      → Step lib m c (set_routing_mode lib m id mode c w).0

pub data Reach (lib : Library) {W : Type 0} (m : Manager W) (c : Controller)
    : Controller → Type 0 where
  here : Reach lib m c c
  next : {d e : Controller} → Reach lib m c d → Step lib m d e → Reach lib m c e

module _ (lib : Library) {W : Type 0} (m : Manager W) where
  -- A configuration that starts with the program.
  initialize_with-Kept :
      (config : DaemonConfig) (id : String) (c : Controller)
      → validate lib config ≡ none
      → c.initialized ≡ false
      → Kept lib c (initialize_with lib m config id c)
  initialize_with-Kept config id c valid e = (
    record {
      valid = λ _. valid;
      one_mode = refl;
      counted = λ _. (omega arith, omega arith);
      idle = λ f. absurd (ground arith);
    },
    λ i. absurd (ground (arith, i, e)),
  )

  initialize_started-Kept :
      (config : DaemonConfig) (c : Controller) (x : W × (Error ⊎ String))
      → validate lib config ≡ none
      → c.initialized ≡ false
      → IsController lib c
      → Kept lib c (initialize_started lib m config c x).0
  unfolding initialize_started
  initialize_started-Kept config c (w, inr id) valid e v = initialize_with-Kept config id c valid e
  initialize_started-Kept config c (w, inl x) valid e v = same-Kept lib c v

  initialize_valid-Kept :
      (o : Option String) (config : DaemonConfig) (c : Controller) (w : W)
      → validate lib config ≡ o
      → IsController lib c
      → Kept lib c (initialize_valid lib m o config c w).0
  unfolding initialize_valid
  initialize_valid-Kept (some x) config c w valid v = same-Kept lib c v
  initialize_valid-Kept none config c w valid v =
      if-cases (λ (x : Controller × W × Option Error). Kept lib c x.0) c.initialized
        (λ _. same-Kept lib c v)
        (λ (e : c.initialized ≡ false).
          if-elim (λ (x : Controller × W × Option Error). Kept lib c x.0) config.session.auto_start
            (initialize_started-Kept config c
              (m.start (with_resume_state c.resume_state (core_config config)) w) valid e v)
            (initialize_with-Kept config "" c valid e))

  Step-Kept : {c d : Controller} → Step lib m c d → IsController lib c → Kept lib c d
  unfolding initialize set_initial_resume_state set_config patch_config reload_config
  Step-Kept {c = c} (initializes config w) v =
      initialize_valid-Kept (validate lib config) config c w refl v
  Step-Kept {c = c} (resumes state) v = resume-Kept lib c state v
  Step-Kept {c = c} (sets config w) v = set_config_locked-Kept lib m config false c w v
  Step-Kept {c = c} (patches merge w) v =
      if-elim (λ (x : Controller × W × (Error ⊎ Snapshot)). Kept lib c x.0) c.initialized
        (patch_merged-Kept lib m (merge c.configured) c w v) (same-Kept lib c v)
  Step-Kept {c = c} (reloads load w) v = elim (Bool-cases (c.config_path == "")) [
    | inl e ↦ rw e (same-Kept lib c v)
    | inr e ↦ rw e (reload_loaded-Kept lib m (load c.config_path) c w v)
  ]
  Step-Kept {c = c} (applies mode w) v = apply_config-Kept lib m mode c w v
  Step-Kept {c = c} (starts o w) v = start_session-Kept lib m o c w v
  Step-Kept {c = c} (stops id w) v = stop-Kept lib m id c w v
  Step-Kept {c = c} (sets_mode id mode w) v = set_routing_mode-Kept lib m id mode c w v

  Reach-Kept : {c d : Controller} → Reach lib m c d → IsController lib c → Kept lib c d
  Reach-Kept {c = c} here v = same-Kept lib c v
  Reach-Kept {c = c} (next {d = d} reach step) v =
      trans-Kept lib c d _ (Reach-Kept reach v) (λ (u : IsController lib d). Step-Kept step u)

  -- From a new controller on, whatever operations are called and whatever the manager does: once a configuration
  -- is initialized, the one that is set is one that `Validate` accepts and both revisions are positive; before that
  -- there is no session; and the active routing mode is the one that is set.
  pub Reach-IsController :
      (empty : DaemonConfig) (path : String) {c : Controller}
      → Reach lib m (new_controller empty path) c
      → IsController lib c
  unfolding new_controller
  Reach-IsController empty path reach =
      (Reach-Kept reach (record {
        valid = λ e. absurd (ground arith);
        one_mode = refl;
        counted = λ e. absurd (ground arith);
        idle = λ e. refl;
      })).0

  -- From an initialized state on, whatever is set, patched, reloaded, applied, started or stopped, the active
  -- configuration keeps its settings of log, control, automatic start, state and TUN.
  pub Reach-SameCore :
      {c d : Controller}
      → IsController lib c
      → c.initialized ≡ true
      → Reach lib m c d
      → SameCore c.active d.active
  Reach-SameCore v i reach = ((Reach-Kept reach v).1 i).1
