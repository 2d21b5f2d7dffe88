-- ===== src/DaemonRuntime/Kept.antt =====
-- What every operation of daemonruntime/controller.go keeps.
use zju_portal_core.Base.{
  ◌≡◌, refl, sym, ap, subst, ◌∙◌, Bool, true, false, not, ◌&&◌, Option, none, some, String, ◌==◌,
  string_eq, ◌⊎◌, inl, inr, Bool-cases, arith, if-elim,
}
use zju_portal_core.Core.Error.{Error}
use zju_portal_core.Config.{ResumeState}
use zju_portal_core.Dial.{RoutingMode, mode_valid}
use zju_portal_core.DaemonConfig.{DaemonConfig}
use zju_portal_core.DaemonConfig.Validate.{Library, validate, core_config}
use zju_portal_core.DaemonConfig.Changes.{changes}
use zju_portal_core.DaemonRuntime.{
  Controller, Manager, ResumePolicy, resume_provided, resume_auto, resume_none, unset_policy,
  other_policy, StartOptions, ApplyMode, restart_session, other_apply_mode,
  session_config_candidate, with_resume_state, set_active_config, same_config, has_core_change,
  commit_after, set_mode_first, set_valid_config, set_config_locked, patch_merged, reload_loaded,
  store_state, cache_resume_state, rolled_back, applied, apply_candidate, apply_config,
  keep_provided, session_started, start_selected, start_candidate, start_session, stopped_session,
  stop, mode_was_set, set_routing_mode,
}
use zju_portal_core.DaemonRuntime.Invariant.{
  IsController, Kept, same-Kept, set_mode-valid, set_mode-lem, commit_config-Kept, session-Kept,
  no_session-Kept, resume-Kept, trans-Kept, activate-Kept,
}

module _ (lib : Library) {W : Type 0} (m : Manager W) where
  commit_after-Kept :
      (config : DaemonConfig) (c : Controller) (x : W × Option Error)
      → validate lib config ≡ none
      → c.initialized ≡ true
      → IsController lib c
      → Kept lib c (commit_after lib m config c x).0
  unfolding commit_after
  commit_after-Kept config c (w, some e) valid i v = same-Kept lib c v
  commit_after-Kept config c (w, none) valid i v = commit_config-Kept lib config c valid i v

  set_valid_config-Kept :
      (o : Option String) (config : DaemonConfig) (allow : Bool) (c : Controller) (w : W)
      → validate lib config ≡ o
      → IsController lib c
      → Kept lib c (set_valid_config lib m o config allow c w).0
  unfolding set_valid_config
  set_valid_config-Kept (some e) config allow c w valid v = same-Kept lib c v
  set_valid_config-Kept none config allow c w valid v = elim (Bool-cases c.initialized) [
    | inr e ↦ rw (ap not e) (same-Kept lib c v)
    | inl i ↦ elim (Bool-cases (same_config config c.configured)) [
      | inl e ↦ rw (ap not i) (rw e (same-Kept lib c v))
      | inr e ↦ elim (Bool-cases (not allow && has_core_change (changes c.configured config))) [
        | inl f ↦ rw (ap not i) (rw e (rw f (same-Kept lib c v)))
        | inr f ↦
            rw (ap not i)
              (rw e (rw f (commit_after-Kept config c (set_mode_first lib m config c w) valid i v)))
      ]
    ]
  ]

  pub set_config_locked-Kept :
      (config : DaemonConfig) (allow : Bool) (c : Controller) (w : W)
      → IsController lib c
      → Kept lib c (set_config_locked lib m config allow c w).0
  unfolding set_config_locked
  set_config_locked-Kept config allow c w v =
      set_valid_config-Kept (validate lib config) config allow c w refl v

  pub patch_merged-Kept :
      (o : Error ⊎ DaemonConfig) (c : Controller) (w : W)
      → IsController lib c
      → Kept lib c (patch_merged lib m o c w).0
  unfolding patch_merged
  patch_merged-Kept (inl e) c w v = same-Kept lib c v
  patch_merged-Kept (inr config) c w v = set_config_locked-Kept config false c w v

  pub reload_loaded-Kept :
      (o : Error ⊎ DaemonConfig) (c : Controller) (w : W)
      → IsController lib c
      → Kept lib c (reload_loaded lib m o c w).0
  unfolding reload_loaded
  reload_loaded-Kept (inl e) c w v = same-Kept lib c v
  reload_loaded-Kept (inr config) c w v = set_config_locked-Kept config true c w v

  store_state-Kept :
      (o : Error ⊎ ResumeState) (c : Controller)
      → IsController lib c
      → Kept lib c (store_state lib m o c)
  unfolding store_state
  store_state-Kept (inl e) c v = same-Kept lib c v
  store_state-Kept (inr state) c v = resume-Kept lib c (some state) v

  rolled_back-Kept :
      (e : Error) (c : Controller) (x : W × (Error ⊎ String))
      → c.initialized ≡ true
      → IsController lib c
      → Kept lib c (rolled_back lib m e c x).0
  unfolding rolled_back
  rolled_back-Kept e c (w, inr id) i v = session-Kept lib c id i v
  rolled_back-Kept e c (w, inl e') i v = no_session-Kept lib c v

  applied-Kept :
      (candidate : DaemonConfig) (c : Controller) (x : W × (Error ⊎ String))
      → candidate ≡ session_config_candidate c.active c.configured
      → c.initialized ≡ true
      → IsController lib c
      → Kept lib c (applied lib m candidate c x).0
  unfolding applied
  applied-Kept candidate c (w, inr id) same i v =
      subst (λ (d : DaemonConfig). Kept lib c (set_active_config d id c)) (sym same)
        (activate-Kept lib c id i v)
  applied-Kept candidate c (w, inl e) same i v =
      rolled_back-Kept e c (m.start (with_resume_state c.resume_state (core_config c.active)) w) i v

  -- Only the resume state is new.
  store_state-lem :
      (o : Error ⊎ ResumeState) (c : Controller)
      → ((store_state lib m o c).initialized ≡ c.initialized)
        × (session_config_candidate c.active c.configured
            ≡ session_config_candidate
                (store_state lib m o c).active
                (store_state lib m o c).configured)
  unfolding store_state
  store_state-lem (inl e) c = (refl, refl)
  store_state-lem (inr state) c = (refl, refl)

  apply_candidate-Kept :
      (o : Error ⊎ ResumeState) (c : Controller) (w : W)
      → c.initialized ≡ true
      → IsController lib c
      → Kept lib c
          (apply_candidate lib m
            (session_config_candidate c.active c.configured)
            (store_state lib m o c)
            w).0
  unfolding apply_candidate
  apply_candidate-Kept o c w i v =
      let (init, same) = store_state-lem o c in
      trans-Kept lib c (store_state lib m o c) _ (store_state-Kept o c v)
        (λ (u : IsController lib (store_state lib m o c)).
          applied-Kept _ (store_state lib m o c) _ same (init ∙ i) u)

  pub apply_config-Kept :
      (mode : ApplyMode) (c : Controller) (w : W)
      → IsController lib c
      → Kept lib c (apply_config lib m mode c w).0
  unfolding apply_config cache_resume_state
  apply_config-Kept (other_apply_mode mode) c w v = same-Kept lib c v
  apply_config-Kept restart_session c w v = elim (Bool-cases c.initialized) [
    | inr e ↦ rw (ap not e) (same-Kept lib c v)
    | inl i ↦ elim (Bool-cases (c.active_session_id == "")) [
      | inl e ↦ rw (ap not i) (rw e (activate-Kept lib c "" i v))
      | inr e ↦
          rw (ap not i) (rw e (apply_candidate-Kept (m.resume_state c.active_session_id w) c w i v))
    ]
  ]

  keep_provided-lem :
      (o : StartOptions) (c : Controller)
      → IsController lib c
      → Kept lib c (keep_provided lib m o c)
        × (session_config_candidate c.active c.configured
            ≡ session_config_candidate
                (keep_provided lib m o c).active
                (keep_provided lib m o c).configured)
        × ((keep_provided lib m o c).initialized ≡ c.initialized)
  keep_provided-lem o c v = by_policy o.resume
    where
      by_policy :
          (p : ResumePolicy)
          → (let d : Controller = elim p [
            | resume_provided ↦ record c { resume_state = o.resume_state }
            | _ ↦ c
          ] in
              Kept lib c d
              × (session_config_candidate c.active c.configured
                  ≡ session_config_candidate d.active d.configured)
              × (d.initialized ≡ c.initialized))
      by_policy resume_provided = (resume-Kept lib c o.resume_state v, refl, refl)
      by_policy resume_auto = (same-Kept lib c v, refl, refl)
      by_policy resume_none = (same-Kept lib c v, refl, refl)
      by_policy unset_policy = (same-Kept lib c v, refl, refl)
      by_policy (other_policy p) = (same-Kept lib c v, refl, refl)

  session_started-Kept :
      (o : StartOptions) (c : Controller) (x : W × (Error ⊎ String))
      → c.initialized ≡ true
      → IsController lib c
      → Kept lib c (session_started lib m o (session_config_candidate c.active c.configured) c x).0
  unfolding session_started
  session_started-Kept o c (w, inl e) i v = same-Kept lib c v
  session_started-Kept o c (w, inr id) i v =
      let (kept, same, init) = keep_provided-lem o c v in
      trans-Kept lib c (keep_provided lib m o c) _ kept
        (λ (u : IsController lib (keep_provided lib m o c)).
          subst
            (λ (d : DaemonConfig).
              Kept lib (keep_provided lib m o c) (set_active_config d id (keep_provided lib m o c)))
            (sym same) (activate-Kept lib (keep_provided lib m o c) id (init ∙ i) u))

  start_selected-Kept :
      (o : StartOptions) (c : Controller) (w : W) (s : Error ⊎ Option ResumeState)
      → c.initialized ≡ true
      → IsController lib c
      → Kept lib c (start_selected lib m o (session_config_candidate c.active c.configured) c w s).0
  unfolding start_selected
  start_selected-Kept o c w (inl e) i v = same-Kept lib c v
  start_selected-Kept o c w (inr s) i v = session_started-Kept o c _ i v

  start_candidate-Kept :
      (o : StartOptions) (c : Controller) (w : W)
      → c.initialized ≡ true
      → IsController lib c
      → Kept lib c (start_candidate lib m o (session_config_candidate c.active c.configured) c w).0
  unfolding start_candidate
  start_candidate-Kept o c w i v =
      elim (Bool-cases
        (not (o.session_id == "") && not (o.session_id == c.configured.session.id))) [
          | inl e ↦ rw e (same-Kept lib c v)
          | inr e ↦ rw e (start_selected-Kept o c w _ i v)
        ]

  pub start_session-Kept :
      (o : StartOptions) (c : Controller) (w : W)
      → IsController lib c
      → Kept lib c (start_session lib m o c w).0
  unfolding start_session
  start_session-Kept o c w v = elim (Bool-cases c.initialized) [
    | inr e ↦ rw (ap not e) (same-Kept lib c v)
    | inl i ↦ elim (Bool-cases (c.active_session_id == "")) [
      | inr e ↦ rw (ap not i) (rw (ap not e) (same-Kept lib c v))
      | inl e ↦ rw (ap not i) (rw (ap not e) (start_candidate-Kept o c w i v))
    ]
  ]

  stopped_session-Kept :
      (id : String) (c : Controller) (x : W × Option Error)
      → IsController lib c
      → Kept lib c (stopped_session lib m id c x).0
  unfolding stopped_session
  stopped_session-Kept id c (w, some e) v = same-Kept lib c v
  stopped_session-Kept id c (w, none) v =
      if-elim (Kept lib c) (c.active_session_id == id) (no_session-Kept lib c v) (same-Kept lib c v)

  pub stop-Kept :
      (id : String) (c : Controller) (w : W) → IsController lib c → Kept lib c (stop lib m id c w).0
  unfolding stop cache_resume_state
  stop-Kept id c w v =
      trans-Kept lib c (store_state lib m (m.resume_state id w) c) _ (store_state-Kept _ c v)
        (stopped_session-Kept id (store_state lib m (m.resume_state id w) c) (m.stop id w))

  mode_was_set-Kept :
      (mode : RoutingMode) (c : Controller) (x : W × Option Error)
      → mode_valid mode ≡ true
      → IsController lib c
      → Kept lib c (mode_was_set lib m mode c x).0
  unfolding mode_was_set
  mode_was_set-Kept mode c (w, some e) h v = same-Kept lib c v
  mode_was_set-Kept mode c (w, none) h v =
      let (active_mode, core) = set_mode-lem lib mode c.active in
      let (mode_set, _) = set_mode-lem lib mode c.configured in
      (
        record {
          valid = λ i. set_mode-valid lib mode c.configured h (v.valid i);
          one_mode = active_mode ∙ sym mode_set;
          counted = λ i. (omega arith, omega arith);
          idle = v.idle;
        },
        λ i. (i, core),
      )

  pub set_routing_mode-Kept :
      (id : String) (mode : RoutingMode) (c : Controller) (w : W)
      → IsController lib c
      → Kept lib c (set_routing_mode lib m id mode c w).0
  unfolding set_routing_mode
  set_routing_mode-Kept id mode c w v = elim (Bool-cases (mode_valid mode)) [
    | inl e ↦ rw e (mode_was_set-Kept mode c _ e v)
    | inr e ↦ rw e (same-Kept lib c v)
  ]
