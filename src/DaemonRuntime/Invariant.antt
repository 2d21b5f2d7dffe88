-- ===== src/DaemonRuntime/Invariant.antt =====
-- What holds of the state of daemonruntime/controller.go between two operations, and the parts of operations that
-- keep it.
use zju_portal_core.Base.{
  ℕ, ◌+◌, ◌<◌, ◌≡◌, refl, sym, ◌∙◌, Bool, true, false, Option, none, String, ◌==◌, string_eq, inl,
  inr, Bool-cases, arith, if◌then◌else◌, if-elim,
}
use zju_portal_core.Config.{ResumeState}
use zju_portal_core.Dial.{RoutingMode, mode_valid}
use zju_portal_core.DaemonConfig.{DaemonConfig}
use zju_portal_core.DaemonConfig.Validate.{Library, validate}
use zju_portal_core.DaemonConfig.Validate.Checked.{validate-IsChecked}
use zju_portal_core.DaemonConfig.Changes.{mode_test}
use zju_portal_core.DaemonConfig.Changes.Leaves.{mode_test-eq}
use zju_portal_core.DaemonConfig.Changes.Pending.{SameCore}
use zju_portal_core.DaemonRuntime.{
  Controller, session_config_candidate, set_active_config, set_mode, mode_changed, with_mode,
  next_active, commit_config,
}

-- Once it is initialized, the configuration that is set is one that `Validate` accepts and both revisions count;
-- before that there is no session. The active routing mode is always the one that is set.
pub record IsController (lib : Library) (c : Controller) : Type 0 where
  pub valid : c.initialized ≡ true → validate lib c.configured ≡ none
  pub one_mode : c.active.routing.mode ≡ c.configured.routing.mode
  pub counted : c.initialized ≡ true → (0 < c.revision) × (0 < c.active_revision)
  pub idle : c.initialized ≡ false → c.active_session_id ≡ ""

-- The invariant holds after a step, and an initialized controller stays so and its active configuration keeps
-- the settings that the core does not change while it runs.
abbrev pub Kept : Library → Controller → Controller → Type 0
Kept lib c c' =
    IsController lib c'
    × (c.initialized ≡ true → (c'.initialized ≡ true) × SameCore c.active c'.active)

abbrev same_core : (c : DaemonConfig) → SameCore c c
same_core c = record {
  log = refl;
  control = refl;
  auto_start = refl;
  resume_file = refl;
  tun = refl;
}

module _ (lib : Library) where
  pub same-Kept : (c : Controller) → IsController lib c → Kept lib c c
  same-Kept c v = (v, λ i. (i, same_core c.active))

  -- A validated configuration is accepted with any other valid mode.
  pub set_mode-valid :
      (mode : RoutingMode) (c : DaemonConfig)
      → mode_valid mode ≡ true
      → validate lib c ≡ none
      → validate lib (set_mode mode c) ≡ none
  unfolding validate set_mode
  set_mode-valid mode c h v =
      let e : mode_valid mode ≡ mode_valid c.routing.mode =
        h ∙ sym (validate-IsChecked lib c v).mode in
      rw e v

  pub set_mode-lem :
      (mode : RoutingMode) (a : DaemonConfig)
      → ((set_mode mode a).routing.mode ≡ mode) × SameCore a (set_mode mode a)
  unfolding set_mode
  set_mode-lem mode a = (
    refl,
    record { log = refl; control = refl; auto_start = refl; resume_file = refl; tun = refl },
  )

  candidate-SameCore : (a b : DaemonConfig) → SameCore a (session_config_candidate a b)
  candidate-SameCore a b = record {
    log = refl;
    control = refl;
    auto_start = refl;
    resume_file = refl;
    tun = refl;
  }

  unchanged :
      (config : DaemonConfig) (c : Controller)
      → mode_changed config c ≡ false
      → mode_test config.routing.mode c.active.routing.mode ≡ true
  unfolding mode_changed
  unchanged config c e = ground (arith, e)

  with_mode-lem :
      (config : DaemonConfig) (c : Controller)
      → ((with_mode config c).routing.mode ≡ config.routing.mode)
        × SameCore c.active (with_mode config c)
  unfolding with_mode
  with_mode-lem config c = elim (Bool-cases (mode_changed config c)) [
    | inl e ↦ rw e (set_mode-lem config.routing.mode c.active)
    | inr e ↦ rw e (
      sym (mode_test-eq config.routing.mode c.active.routing.mode (unchanged config c e)),
      same_core c.active,
    )
  ]

  next_active-lem :
      (config : DaemonConfig) (c : Controller)
      → ((next_active config c).routing.mode ≡ config.routing.mode)
        × SameCore c.active (next_active config c)
  unfolding next_active
  next_active-lem config c =
      let (mode, core) = with_mode-lem config c in
      if-elim (λ (x : DaemonConfig). (x.routing.mode ≡ config.routing.mode) × SameCore c.active x)
        (c.active_session_id == "")
        (
          refl,
          record {
            log = core.log;
            control = core.control;
            auto_start = core.auto_start;
            resume_file = core.resume_file;
            tun = core.tun;
          },
        )
        (mode, core)

  grows : (t : Bool) (n : ℕ) → 0 < n → 0 < (if t then n + 1 else n)
  grows t n h = if-elim (λ (x : ℕ). 0 < x) t (omega arith) h

  pub commit_config-Kept :
      (config : DaemonConfig) (c : Controller)
      → validate lib config ≡ none
      → c.initialized ≡ true
      → IsController lib c
      → Kept lib c (commit_config config c)
  unfolding commit_config
  commit_config-Kept config c valid i v =
      let (mode, core) = next_active-lem config c in
      let (rev, active_rev) = v.counted i in
      (
        record {
          valid = λ _. valid;
          one_mode = mode;
          counted = λ _. (omega arith, grows _ c.active_revision active_rev);
          idle = λ e. absurd (ground (arith, i, e));
        },
        λ _. (i, core),
      )

  -- The session and the resume state are no part of the invariant of an initialized controller.
  pub session-Kept :
      (c : Controller) (id : String)
      → c.initialized ≡ true
      → IsController lib c
      → Kept lib c (record c { active_session_id = id })
  session-Kept c id i v = (
    record {
      valid = v.valid;
      one_mode = v.one_mode;
      counted = v.counted;
      idle = λ e. absurd (ground (arith, i, e));
    },
    λ i. (i, same_core c.active),
  )

  pub no_session-Kept :
      (c : Controller) → IsController lib c → Kept lib c (record c { active_session_id = "" })
  no_session-Kept c v = (
    record { valid = v.valid; one_mode = v.one_mode; counted = v.counted; idle = λ e. refl },
    λ i. (i, same_core c.active),
  )

  pub resume-Kept :
      (c : Controller) (state : Option ResumeState)
      → IsController lib c
      → Kept lib c (record c { resume_state = state })
  resume-Kept c state v = (
    record { valid = v.valid; one_mode = v.one_mode; counted = v.counted; idle = v.idle },
    λ i. (i, same_core c.active),
  )

  pub trans-Kept :
      (a b c : Controller) → Kept lib a b → (IsController lib b → Kept lib b c) → Kept lib a c
  trans-Kept a b c (v, h) next =
      let (w, k) = next v in
      (
        w,
        λ i.
            let (j, s) = h i in
            let (l, t) = k j in
            (
              l,
              record {
                log = t.log ∙ s.log;
                control = t.control ∙ s.control;
                auto_start = t.auto_start ∙ s.auto_start;
                resume_file = t.resume_file ∙ s.resume_file;
                tun = t.tun ∙ s.tun;
              },
            ),
      )

  -- The candidate for a session becomes active.
  pub activate-Kept :
      (c : Controller) (id : String)
      → c.initialized ≡ true
      → IsController lib c
      → Kept lib c (set_active_config (session_config_candidate c.active c.configured) id c)
  activate-Kept c id i v = (
    record {
      valid = v.valid;
      one_mode = refl;
      counted = λ i. ((v.counted i).0, omega arith);
      idle = λ e. absurd (ground (arith, i, e));
    },
    λ i. (i, candidate-SameCore c.active c.configured),
  )
