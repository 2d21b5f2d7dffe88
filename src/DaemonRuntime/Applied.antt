-- ===== src/DaemonRuntime/Applied.antt =====
-- daemonruntime/controller.go: what setting and applying a configuration leave alone.
use zju_portal_core.Base.{
  ◌≡◌, ◌≢◌, refl, ap, List, [], ◌∷◌, false, not, Option, none, some, List, String, ◌==◌, string_eq,
  ◌⊎◌, inl, inr, Bool-cases, arith, if-elim,
}
use zju_portal_core.Core.Error.{Error}
use zju_portal_core.Config.{ResumeState}
use zju_portal_core.DaemonConfig.{DaemonConfig}
use zju_portal_core.DaemonConfig.Validate.{Library, validate, core_config}
use zju_portal_core.DaemonConfig.Changes.{changes}
use zju_portal_core.DaemonConfig.Changes.Pending.{SameCore}
use zju_portal_core.DaemonRuntime.{
  Controller, Snapshot, Manager, ApplyMode, restart_session, other_apply_mode, with_resume_state,
  same_config, has_core_change, commit_config, commit_after, set_mode_first, set_valid_config,
  set_config_locked, set_config, patch_merged, patch_config, store_state, cache_resume_state,
  rolled_back, applied, apply_candidate, apply_config,
}
use zju_portal_core.DaemonConfig.Changes.{
  Change, ApplyRequirement, live, session_restart, core_restart,
}
use zju_portal_core.DaemonConfig.Changes.Settings.{NoCoreChange}
use zju_portal_core.DaemonConfig.Changes.Pending.{changes-NoCoreChange_iff}
use zju_portal_core.DaemonRuntime.{is_core}

is_core-false : (r : ApplyRequirement) → is_core r ≡ false → r ≢ core_restart
is_core-false live h = λ e. absurd (ground arith)
is_core-false session_restart h = λ e. absurd (ground arith)
is_core-false core_restart h = absurd (ground arith)

has_core_change-false : (cs : List Change) → has_core_change cs ≡ false → NoCoreChange cs
unfolding has_core_change
has_core_change-false [] h = tt
has_core_change-false (c ∷ cs) h =
    (is_core-false c.requires (ground (arith, h)), has_core_change-false cs (ground (arith, h)))

-- The configuration that is set has the same core settings.
abbrev pub KeepsCore : Controller → Controller → Type 0
KeepsCore c d = SameCore c.configured d.configured

abbrev same_core : (c : DaemonConfig) → SameCore c c
same_core c = record {
  log = refl;
  control = refl;
  auto_start = refl;
  resume_file = refl;
  tun = refl;
}

-- The configurations and their revisions are as before.
pub record SameConfigs (c d : Controller) : Type 0 where
  pub configured : d.configured ≡ c.configured
  pub active : d.active ≡ c.active
  pub revision : d.revision ≡ c.revision
  pub active_revision : d.active_revision ≡ c.active_revision

abbrev same_configs : (c : Controller) → SameConfigs c c
same_configs c = record {
  configured = refl;
  active = refl;
  revision = refl;
  active_revision = refl;
}

module _ (lib : Library) {W : Type 0} (m : Manager W) where
  commit_after-KeepsCore :
      (config : DaemonConfig) (c : Controller) (x : W × Option Error)
      → SameCore c.configured config
      → KeepsCore c (commit_after lib m config c x).0
  unfolding commit_after commit_config
  commit_after-KeepsCore config c (w, some e) s = same_core c.configured
  commit_after-KeepsCore config c (w, none) s = s

  set_valid_config-KeepsCore :
      (o : Option String) (config : DaemonConfig) (c : Controller) (w : W)
      → KeepsCore c (set_valid_config lib m o config false c w).0
  unfolding set_valid_config
  set_valid_config-KeepsCore (some e) config c w = same_core c.configured
  set_valid_config-KeepsCore none config c w = elim (Bool-cases c.initialized) [
    | inr e ↦ rw (ap not e) (same_core c.configured)
    | inl i ↦ elim (Bool-cases (same_config config c.configured)) [
      | inl e ↦ rw (ap not i) (rw e (same_core c.configured))
      | inr e ↦ elim (Bool-cases (has_core_change (changes c.configured config))) [
        | inl f ↦ rw (ap not i) (rw e (rw f (same_core c.configured)))
        | inr f ↦ rw (ap not i) (
            rw e (
              rw f (
                commit_after-KeepsCore config c (set_mode_first lib m config c w)
                  ((changes-NoCoreChange_iff c.configured config).0 (has_core_change-false _ f)))))
      ]
    ]
  ]

  patch_merged-KeepsCore :
      (o : Error ⊎ DaemonConfig) (c : Controller) (w : W) → KeepsCore c (patch_merged lib m o c w).0
  unfolding patch_merged set_config_locked
  patch_merged-KeepsCore (inl e) c w = same_core c.configured
  patch_merged-KeepsCore (inr config) c w =
      set_valid_config-KeepsCore (validate lib config) config c w

  -- `SetConfig` and `PatchConfig` never change the settings of log, control, automatic start, state and TUN of the
  -- configuration that is set, whatever configuration or patch they are given.
  pub set_config-SameCore :
      (config : DaemonConfig) (merge : DaemonConfig → Error ⊎ DaemonConfig) (c : Controller) (w : W)
      → KeepsCore c (set_config lib m config c w).0 × KeepsCore c (patch_config lib m merge c w).0
  unfolding set_config patch_config set_config_locked
  set_config-SameCore config merge c w = (
    set_valid_config-KeepsCore (validate lib config) config c w,
    if-elim (λ (x : Controller × W × (Error ⊎ Snapshot)). KeepsCore c x.0) c.initialized
        (patch_merged-KeepsCore (merge c.configured) c w) (same_core c.configured),
  )

  -- A result with an error leaves the configurations and the revisions as they are.
  abbrev pub IsUndone : {A : Type 0} → Controller → Controller × W × (Error ⊎ A) → Type 0
  IsUndone c (d, w, inl e) = SameConfigs c d
  IsUndone c (d, w, inr a) = Unit {0}

  rolled_back-IsUndone :
      (e : Error) (c : Controller) (x : W × (Error ⊎ String)) → IsUndone c (rolled_back lib m e c x)
  unfolding rolled_back
  rolled_back-IsUndone e c (w, inr id) = record {
    configured = refl;
    active = refl;
    revision = refl;
    active_revision = refl;
  }
  rolled_back-IsUndone e c (w, inl e') = record {
    configured = refl;
    active = refl;
    revision = refl;
    active_revision = refl;
  }

  applied-IsUndone :
      (candidate : DaemonConfig) (c : Controller) (x : W × (Error ⊎ String))
      → IsUndone c (applied lib m candidate c x)
  unfolding applied
  applied-IsUndone candidate c (w, inr id) = tt
  applied-IsUndone candidate c (w, inl e) =
      rolled_back-IsUndone e c (m.start (with_resume_state c.resume_state (core_config c.active)) w)

  cached-IsUndone :
      (o : Error ⊎ ResumeState) (c : Controller) (x : Controller × W × (Error ⊎ Snapshot))
      → IsUndone (store_state lib m o c) x
      → IsUndone c x
  unfolding store_state
  cached-IsUndone (inl e) c x h = h
  cached-IsUndone (inr state) c (d, w, inl e) h = record {
    configured = h.configured;
    active = h.active;
    revision = h.revision;
    active_revision = h.active_revision;
  }
  cached-IsUndone (inr state) c (d, w, inr a) h = tt

  apply_candidate-IsUndone :
      (candidate : DaemonConfig) (o : Error ⊎ ResumeState) (c : Controller) (w : W)
      → IsUndone c (apply_candidate lib m candidate (store_state lib m o c) w)
  unfolding apply_candidate
  apply_candidate-IsUndone candidate o c w =
      cached-IsUndone o c (apply_candidate lib m candidate (store_state lib m o c) w)
        (applied-IsUndone candidate (store_state lib m o c) _)

  -- An `ApplyConfig` that fails, also where the old session cannot be started again, leaves the configuration that
  -- is set, the active one and both revisions as they are.
  pub apply_config-IsUndone :
      (mode : ApplyMode) (c : Controller) (w : W) → IsUndone c (apply_config lib m mode c w)
  unfolding apply_config cache_resume_state
  apply_config-IsUndone (other_apply_mode mode) c w = same_configs c
  apply_config-IsUndone restart_session c w =
      if-elim (IsUndone c) (not c.initialized) (same_configs c) (
        if-elim (IsUndone c) (c.active_session_id == "") tt
          (apply_candidate-IsUndone _ (m.resume_state c.active_session_id w) c w))
