-- ===== src/Tests/RuntimeTests.antt =====
-- Runs of the models of daemonruntime/controller.go and daemonconfig/lifecycle.go at concrete inputs.
use zju_portal_core.Base.{
  ℕ, ◌+◌, ◌≡◌, ◌↔◌, refl, true, none, some, [], ◌∷◌, ◌⊎◌, inl, inr, nat_beq, if◌then◌else◌,
}
use zju_portal_core.Core.Error.{Error, plain}
use zju_portal_core.Dial.{global, mode_valid}
use zju_portal_core.Config.{outbound_type_valid}
use zju_portal_core.DaemonConfig.{DaemonConfig, default_config}
use zju_portal_core.DaemonConfig.Validate.{Library, validate, refuse}
use zju_portal_core.DaemonConfig.Changes.{
  changes, leaves, collect_changes, leaf_test, session_restart, core_restart, change_at, sorted,
  place, before, requirement_for_path,
}
use zju_portal_core.DaemonConfig.Changes.Settings.{NoCoreChange}
use zju_portal_core.DaemonConfig.Changes.Pending.{
  SameCore, changes-none_iff, changes-NoCoreChange_iff,
}
use zju_portal_core.DaemonConfig.Merge.{
  Object, no_fields, field, scalar, object, get, put, merge_object,
}
use zju_portal_core.DaemonConfig.Merge.Fields.{IsObject, merged_field, get-merge_object}
use zju_portal_core.DaemonRuntime.{
  Controller, Manager, new_controller, initialize, initialize_valid, initialize_started, set_config,
  Snapshot, patch_config, apply_config, apply_candidate, applied, rolled_back, cache_resume_state,
  store_state, restart_session, set_routing_mode,
}
use zju_portal_core.DaemonRuntime.Invariant.{IsController}
use zju_portal_core.DaemonRuntime.Steps.{
  Reach, here, next, initializes, sets_mode, Reach-IsController, Reach-SameCore,
}
use zju_portal_core.DaemonRuntime.Applied.{
  KeepsCore, IsUndone, set_config-SameCore, apply_config-IsUndone,
}

abbrev library : Library
library = record {
  text_length = λ s. 1;
  parse_ip = λ s. some (127 ∷ 0 ∷ 0 ∷ 1 ∷ []);
  parse_prefix = λ s. some true;
  split_host = λ s. some s;
  is_loopback = λ ip. true;
}

-- A manager whose state counts the sessions that it starts.
abbrev manager : Manager ℕ
manager = record {
  start = λ config n. (n + 1, inr "default");
  stop = λ id n. (n, none);
  resume_state = λ id n. inl (plain "no resume state");
  set_routing_mode = λ id mode n. (n, none);
}

abbrev with_server : DaemonConfig
with_server = record default_config { atrust = record default_config.atrust { server = "vpn" } }

abbrev running : Controller
running = (initialize library manager with_server (new_controller default_config "") 0).0

abbrev initialized_once : Reach library manager (new_controller default_config "") running
initialized_once = next here (initializes with_server 0)

Reach-IsController_example : IsController library running
Reach-IsController_example = Reach-IsController library manager default_config "" initialized_once

running_is_initialized : running.initialized ≡ true
unfolding initialize initialize_valid initialize_started new_controller default_config validate
    refuse mode_valid outbound_type_valid
running_is_initialized = refl

Reach-SameCore_example :
    SameCore running.active (set_routing_mode library manager "default" global running 1).0.active
Reach-SameCore_example =
    Reach-SameCore library manager
      (Reach-IsController library manager default_config "" initialized_once) running_is_initialized
      (next here (sets_mode "default" global 1))

set_config-SameCore_example :
    KeepsCore running (set_config library manager default_config running 1).0
    × KeepsCore running (patch_config library manager (λ c. inr default_config) running 1).0
set_config-SameCore_example =
    set_config-SameCore library manager default_config (λ c. inr default_config) running 1

-- A manager that starts one session and fails to start another.
abbrev one_start : Manager ℕ
one_start = record {
  start =
      λ config n. if nat_beq n 0 then (1, inr "default") else (n + 1, inl (plain "no connection"));
  stop = λ id n. (n, none);
  resume_state = λ id n. inl (plain "no resume state");
  set_routing_mode = λ id mode n. (n, none);
}

abbrev running_once : Controller
running_once = (initialize library one_start with_server (new_controller default_config "") 0).0

-- Neither the new session nor the old one can be started.
abbrev failed_apply : Controller × ℕ × (Error ⊎ Snapshot)
failed_apply = apply_config library one_start restart_session running_once 1

apply_fails : (failed_apply.0.active_session_id ≡ "") × (failed_apply.1 ≡ 3)
unfolding initialize initialize_valid initialize_started new_controller default_config validate
    refuse mode_valid outbound_type_valid apply_config apply_candidate applied rolled_back
    cache_resume_state store_state
apply_fails = (refl, refl)

apply_config-IsUndone_example : IsUndone library one_start running_once failed_apply
apply_config-IsUndone_example =
    apply_config-IsUndone library one_start restart_session running_once 1

-- Two changes, in the order of their paths.
abbrev changed : DaemonConfig
changed = record default_config {
  resume_file = "resume.json";
  session = record { id = "work"; auto_start = true; auto_reconnect = true };
}

two_changes : changes default_config changed ≡ (
    record { path = "session.id"; requires = session_restart }
    ∷ record { path = "state.resume-file"; requires = core_restart }
    ∷ [])
unfolding changes leaves collect_changes leaf_test default_config sorted place before change_at
    requirement_for_path
two_changes = refl

changes-none_iff_example : (changes default_config changed ≡ []) ↔ (default_config ≡ changed)
changes-none_iff_example = changes-none_iff default_config changed

changes-NoCoreChange_iff_example :
    NoCoreChange (changes default_config changed) ↔ SameCore default_config changed
changes-NoCoreChange_iff_example = changes-NoCoreChange_iff default_config changed

-- A patch of one setting of the log, beside another one that stays.
abbrev base_object : Object
base_object =
    field "log"
      (object (field "level" (scalar "info") (field "output" (scalar "stderr") no_fields)))
      no_fields

abbrev patch_object : Object
patch_object = field "log" (object (field "level" (scalar "debug") no_fields)) no_fields

merged :
    merge_object base_object patch_object
    ≡ field "log"
        (object (field "level" (scalar "debug") (field "output" (scalar "stderr") no_fields)))
        no_fields
unfolding merge_object get put
merged = refl

patch_object-IsObject : IsObject patch_object
unfolding get
patch_object-IsObject = (refl, tt)

get-merge_object_example :
    get "log" (merge_object base_object patch_object)
    ≡ merged_field (get "log" patch_object) (get "log" base_object)
get-merge_object_example = get-merge_object "log" base_object patch_object patch_object-IsObject
