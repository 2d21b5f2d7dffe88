-- ===== src/DaemonRuntime.antt =====
-- daemonruntime/controller.go: the configuration that is set, the one that is active, and the session that runs
-- with it. `operationMu` makes each operation one step. The manager is an interface on a state `W`; loading and
-- merging a configuration are arguments. A snapshot that the code returns beside an error is left out, and so are values
-- in the texts of errors.
pub mod Invariant
pub mod Kept
pub mod Steps
pub mod Applied
use zju_portal_core.Base.{
  ℕ, ◌+◌, Bool, true, false, not, ◌&&◌, ◌||◌, Option, none, some, List, [], ◌∷◌, String, ◌==◌,
  string_eq, nat_beq, ◌⊎◌, inl, inr, if◌then◌else◌,
}
use zju_portal_core.Core.Error.{
  Error, plain, wrap_error, config_invalid, config_unavailable, invalid_state_transition,
  invalid_request, restart_required, session_start_failed, session_already_running,
  resume_state_invalid, resume_state_scope, wrapf,
}
use zju_portal_core.Config.{Config, ResumeState}
use zju_portal_core.Dial.{RoutingMode, mode_valid}
use zju_portal_core.DaemonConfig.{DaemonConfig}
use zju_portal_core.DaemonConfig.Validate.{Library, validate, core_config}
use zju_portal_core.DaemonConfig.Changes.{
  ApplyRequirement, live, session_restart, core_restart, Change, changes, Leaf, leaves,
  collect_changes, mode_test, leaf_test,
}

pub record Controller : Type 0 where
  pub config_path : String
  pub configured : DaemonConfig
  pub active : DaemonConfig
  pub revision : ℕ
  pub active_revision : ℕ
  pub initialized : Bool
  pub active_session_id : String
  pub resume_state : Option ResumeState

pub record Snapshot : Type 0 where
  pub revision : ℕ
  pub configured : DaemonConfig
  pub active : DaemonConfig
  pub active_revision : ℕ
  pub pending : List Change

-- The methods of the manager that the controller calls.
pub record Manager (W : Type 0) : Type 0 where
  pub start : Config → W → W × (Error ⊎ String)
  pub stop : String → W → W × Option Error
  pub resume_state : String → W → (Error ⊎ ResumeState)
  pub set_routing_mode : String → RoutingMode → W → W × Option Error

-- `unset_policy` is the empty string, `other_policy` any other one.
pub data ResumePolicy : Type 0 where
  resume_auto resume_none resume_provided unset_policy : ResumePolicy
  other_policy : String → ResumePolicy

pub record StartOptions : Type 0 where
  pub session_id : String
  pub resume : ResumePolicy
  pub resume_state : Option ResumeState

-- `session` is "restart-session".
pub data ApplyMode : Type 0 where
  restart_session : ApplyMode
  other_apply_mode : String → ApplyMode

unfoldable pub new_controller : DaemonConfig → String → Controller
new_controller empty path = record {
  config_path = path;
  configured = empty;
  active = empty;
  revision = 0;
  active_revision = 0;
  initialized = false;
  active_session_id = "";
  resume_state = none;
}

unfoldable pub config_snapshot : Controller → Snapshot
config_snapshot c = record {
  revision = c.revision;
  configured = c.configured;
  active = c.active;
  active_revision = c.active_revision;
  pending = changes c.active c.configured;
}

abbrev pub session_config_candidate : DaemonConfig → DaemonConfig → DaemonConfig
session_config_candidate active configured = record configured {
  log = active.log;
  control = active.control;
  session = record configured.session { auto_start = active.session.auto_start };
  resume_file = active.resume_file;
  inbounds = record configured.inbounds { tun = active.inbounds.tun };
}

unfoldable pub matches_config : Option ResumeState → Config → Bool
matches_config none config = false
matches_config (some state) config =
    state.scope.server_address == config.server_address
    && nat_beq state.scope.server_port config.server_port
    && (state.scope.username == "" || state.scope.username == config.username)

-- `CoreConfig` of a configuration, with a resume state if it matches.
unfoldable pub with_resume_state : Option ResumeState → Config → Config
with_resume_state state config =
    if matches_config state config then record config { resume_state = state } else config

abbrev pub set_active_config : DaemonConfig → String → Controller → Controller
set_active_config config id c = record c {
  active = config;
  active_revision = c.active_revision + 1;
  active_session_id = id;
}

unfoldable pub set_initial_resume_state : Option ResumeState → Controller → Controller
set_initial_resume_state state c = record c { resume_state = state }

unfoldable pub set_mode : RoutingMode → DaemonConfig → DaemonConfig
set_mode mode config = record config { routing = record config.routing { mode = mode } }

abbrev invalid : String → Error
invalid e = wrap_error config_invalid "validate configuration" false (some (plain e))

abbrev not_initialized : Error
not_initialized = wrap_error config_unavailable "configuration is not initialized" true none

abbrev pub is_core : ApplyRequirement → Bool
is_core core_restart = true
is_core _ = false

-- Whether a change needs a restart of the core.
unfoldable pub has_core_change : List Change → Bool
has_core_change [] = false
has_core_change (c ∷ cs) = is_core c.requires || has_core_change cs

-- `reflect.DeepEqual` of two configurations.
abbrev pub is_empty {ℓ} : {A : Type ℓ} → List A → Bool
is_empty [] = true
is_empty (x ∷ xs) = false

unfoldable pub same_config : DaemonConfig → DaemonConfig → Bool
same_config a b = is_empty (collect_changes (leaves a) (leaves b))

-- The end of `setConfigLocked`: the active configuration with the mode that is set, and without a session
-- with all settings that a session starts with.
unfoldable pub mode_changed : DaemonConfig → Controller → Bool
mode_changed config c = not (mode_test config.routing.mode c.active.routing.mode)

unfoldable pub with_mode : DaemonConfig → Controller → DaemonConfig
with_mode config c =
    if mode_changed config c then set_mode config.routing.mode c.active else c.active

unfoldable pub next_active : DaemonConfig → Controller → DaemonConfig
next_active config c =
    if c.active_session_id == ""
    then session_config_candidate (with_mode config c) config
    else with_mode config c

unfoldable pub commit_config : DaemonConfig → Controller → Controller
commit_config config c = record c {
  configured = config;
  active = next_active config c;
  revision = c.revision + 1;
  active_revision =
      if mode_changed config c || not (same_config (next_active config c) (with_mode config c))
      then c.active_revision + 1
      else c.active_revision;
}

module _ {W : Type 0} (lib : Library) (m : Manager W) where
  abbrev initialize_with : DaemonConfig → String → Controller → Controller
  initialize_with config id c = record c {
    configured = config;
    active = config;
    revision = 1;
    active_revision = 1;
    initialized = true;
    active_session_id = id;
  }

  unfoldable pub initialize_started :
      DaemonConfig → Controller → W × (Error ⊎ String) → Controller × W × Option Error
  initialize_started config c (w, inr id) = (initialize_with config id c, w, none)
  initialize_started config c (w, inl e) = (c, w, some e)

  unfoldable pub initialize_valid :
      Option String → DaemonConfig → Controller → W → Controller × W × Option Error
  unfolding initialize_started
  initialize_valid (some e) config c w = (c, w, some (invalid e))
  initialize_valid none config c w =
      if c.initialized
      then (
        c,
        w,
        some
            (wrap_error invalid_state_transition "configuration is already initialized" false none),
      )
      else if config.session.auto_start
      then initialize_started config c
          (m.start (with_resume_state c.resume_state (core_config config)) w)
      else (initialize_with config "" c, w, none)

  unfoldable pub initialize : DaemonConfig → Controller → W → Controller × W × Option Error
  initialize config c w = initialize_valid (validate lib config) config c w

  -- The routing mode of a session that runs is set at once.
  unfoldable pub set_live_mode : RoutingMode → Controller → W → W × Option Error
  set_live_mode mode c w =
      if c.active_session_id == "" then (w, none) else m.set_routing_mode c.active_session_id mode w

  unfoldable pub commit_after :
      DaemonConfig → Controller → W × Option Error → Controller × W × (Error ⊎ Snapshot)
  commit_after config c (w, some e) = (c, w, inl e)
  commit_after config c (w, none) =
      (commit_config config c, w, inr (config_snapshot (commit_config config c)))

  unfoldable pub set_mode_first : DaemonConfig → Controller → W → W × Option Error
  set_mode_first config c w =
      if mode_changed config c then set_live_mode config.routing.mode c w else (w, none)

  unfoldable pub set_valid_config :
      Option String → DaemonConfig → Bool → Controller → W → Controller × W × (Error ⊎ Snapshot)
  set_valid_config (some e) config allow c w = (c, w, inl (invalid e))
  set_valid_config none config allow c w =
      if not c.initialized
      then (c, w, inl not_initialized)
      else if same_config config c.configured
      then (c, w, inr (config_snapshot c))
      else if not allow && has_core_change (changes c.configured config)
      then (
        c,
        w,
        inl (
            wrap_error restart_required
              "Core configuration must be changed in the configuration file and Core restarted"
              false (some (plain "core restart required"))),
      )
      else commit_after config c (set_mode_first config c w)

  unfoldable pub set_config_locked :
      DaemonConfig → Bool → Controller → W → Controller × W × (Error ⊎ Snapshot)
  set_config_locked config allow c w = set_valid_config (validate lib config) config allow c w

  unfoldable pub set_config : DaemonConfig → Controller → W → Controller × W × (Error ⊎ Snapshot)
  set_config config c w = set_config_locked config false c w

  unfoldable pub patch_merged :
      Error ⊎ DaemonConfig → Controller → W → Controller × W × (Error ⊎ Snapshot)
  patch_merged (inl e) c w =
      (c, w, inl (wrap_error config_invalid "merge configuration patch" false (some e)))
  patch_merged (inr config) c w = set_config_locked config false c w

  -- `merge` is `MergeJSON` with the patch.
  unfoldable pub patch_config :
      (DaemonConfig → Error ⊎ DaemonConfig) → Controller → W → Controller × W × (Error ⊎ Snapshot)
  patch_config merge c w =
      if c.initialized then patch_merged (merge c.configured) c w else (c, w, inl not_initialized)

  unfoldable pub reload_loaded :
      Error ⊎ DaemonConfig → Controller → W → Controller × W × (Error ⊎ Snapshot)
  reload_loaded (inl e) c w =
      (c, w, inl (wrap_error config_invalid "reload configuration" false (some e)))
  reload_loaded (inr config) c w = set_config_locked config true c w

  -- `load` is `Load`.
  unfoldable pub reload_config :
      (String → Error ⊎ DaemonConfig) → Controller → W → Controller × W × (Error ⊎ Snapshot)
  reload_config load c w =
      if c.config_path == ""
      then (
        c,
        w,
        inl (wrap_error config_unavailable "no configuration file was specified" false none),
      )
      else reload_loaded (load c.config_path) c w

  unfoldable pub store_state : (Error ⊎ ResumeState) → Controller → Controller
  store_state (inr state) c = record c { resume_state = some state }
  store_state (inl e) c = c

  unfoldable pub cache_resume_state : String → Controller → W → Controller
  cache_resume_state id c w = store_state (m.resume_state id w) c

  unfoldable pub rolled_back :
      Error → Controller → W × (Error ⊎ String) → Controller × W × (Error ⊎ Snapshot)
  rolled_back e c (w, inr id) = (record c { active_session_id = id }, w, inl e)
  rolled_back e c (w, inl e') = (
    record c { active_session_id = "" },
    w,
    inl (
        wrap_error session_start_failed "apply configuration and restore previous session" true
          (some (wrapf "apply and rollback" e))),
  )

  unfoldable pub applied :
      DaemonConfig → Controller → W × (Error ⊎ String) → Controller × W × (Error ⊎ Snapshot)
  applied candidate c (w, inr id) = (
    set_active_config candidate id c,
    w,
    inr (config_snapshot (set_active_config candidate id c)),
  )
  applied candidate c (w, inl e) =
      rolled_back e c (m.start (with_resume_state c.resume_state (core_config c.active)) w)

  -- With the resume state of the session that runs.
  unfoldable pub apply_candidate :
      DaemonConfig → Controller → W → Controller × W × (Error ⊎ Snapshot)
  apply_candidate candidate c w =
      applied candidate c (m.start (with_resume_state c.resume_state (core_config candidate)) w)

  unfoldable pub apply_config : ApplyMode → Controller → W → Controller × W × (Error ⊎ Snapshot)
  apply_config (other_apply_mode mode) c w =
      (c, w, inl (wrap_error invalid_request "unsupported config apply mode" false none))
  apply_config restart_session c w =
      if not c.initialized
      then (c, w, inl not_initialized)
      else if c.active_session_id == ""
      then (
        set_active_config (session_config_candidate c.active c.configured) "" c,
        w,
        inr (
            config_snapshot
              (set_active_config (session_config_candidate c.active c.configured) "" c)),
      )
      else apply_candidate (session_config_candidate c.active c.configured)
          (cache_resume_state c.active_session_id c w) w

  unfoldable pub provided_state : Option ResumeState → Config → Error ⊎ Option ResumeState
  provided_state none config = inl (
      wrap_error resume_state_invalid "resume_state is required when resume is provided" false none)
  provided_state (some state) config =
      if matches_config (some state) config
      then inr (some state)
      else inl (
          wrap_error resume_state_scope "resume state does not match session configuration" false
            none)

  unfoldable pub select_resume_state :
      ResumePolicy → StartOptions → Config → Controller → Error ⊎ Option ResumeState
  select_resume_state resume_none o config c = inr none
  select_resume_state resume_provided o config c = provided_state o.resume_state config
  select_resume_state (other_policy p) o config c =
      inl (wrap_error invalid_request "unsupported resume policy" false none)
  select_resume_state _ o config c =
      inr (if matches_config c.resume_state config then c.resume_state else none)

  abbrev keep_provided : StartOptions → Controller → Controller
  keep_provided o c = elim o.resume [
    | resume_provided ↦ record c { resume_state = o.resume_state }
    | _ ↦ c
  ]

  unfoldable pub session_started :
      StartOptions
      → DaemonConfig
      → Controller
      → W × (Error ⊎ String)
      → Controller × W × (Error ⊎ String)
  session_started o candidate c (w, inr id) =
      (set_active_config candidate id (keep_provided o c), w, inr id)
  session_started o candidate c (w, inl e) = (c, w, inl e)

  unfoldable pub start_selected :
      StartOptions
      → DaemonConfig
      → Controller
      → W
      → Error ⊎ Option ResumeState
      → Controller × W × (Error ⊎ String)
  start_selected o candidate c w (inr state) =
      session_started o candidate c
        (m.start (record (core_config candidate) { resume_state = state }) w)
  start_selected o candidate c w (inl e) = (c, w, inl e)

  unfoldable pub start_candidate :
      StartOptions → DaemonConfig → Controller → W → Controller × W × (Error ⊎ String)
  start_candidate o candidate c w =
      if not (o.session_id == "") && not (o.session_id == candidate.session.id)
      then (
        c,
        w,
        inl (wrap_error invalid_request "session_id does not match configured session" false none),
      )
      else start_selected o candidate c w (select_resume_state o.resume o (core_config candidate) c)

  unfoldable pub start_session : StartOptions → Controller → W → Controller × W × (Error ⊎ String)
  start_session o c w =
      if not c.initialized
      then (c, w, inl not_initialized)
      else if not (c.active_session_id == "")
      then (c, w, inl (wrap_error session_already_running "session is already running" false none))
      else start_candidate o (session_config_candidate c.active c.configured) c w

  unfoldable pub stopped_session :
      String → Controller → W × Option Error → Controller × W × Option Error
  stopped_session id c (w, some e) = (c, w, some e)
  stopped_session id c (w, none) =
      (if c.active_session_id == id then record c { active_session_id = "" } else c, w, none)

  unfoldable pub stop : String → Controller → W → Controller × W × Option Error
  stop id c w = stopped_session id (cache_resume_state id c w) (m.stop id w)

  unfoldable pub mode_was_set :
      RoutingMode → Controller → W × Option Error → Controller × W × Option Error
  mode_was_set mode c (w, some e) = (c, w, some e)
  mode_was_set mode c (w, none) = (
    record c {
      configured = set_mode mode c.configured;
      active = set_mode mode c.active;
      revision = c.revision + 1;
      active_revision = c.active_revision + 1;
    },
    w,
    none,
  )

  unfoldable pub set_routing_mode :
      String → RoutingMode → Controller → W → Controller × W × Option Error
  set_routing_mode id mode c w =
      if mode_valid mode
      then mode_was_set mode c (m.set_routing_mode id mode w)
      else (c, w, some (wrap_error config_invalid "routing.mode is invalid" false none))
