-- ===== src/DaemonConfig/Changes/Pending.antt =====
-- daemonconfig/lifecycle.go: when two configurations have no changes, and when none of them needs a restart of
-- the core.
use zju_portal_core.Base.{◌≡◌, ◌↔◌, sym, ap, ◌∙◌, [], string_eq, arith}
use zju_portal_core.DaemonConfig.{DaemonConfig}
use zju_portal_core.DaemonConfig.Changes.{leaves, requirement_for_path, sorted, changes}
use zju_portal_core.DaemonConfig.Changes.Settings.{
  Same, CoreSame, NoCoreChange, collect-Same, collect_self, collect-CoreSame, CoreSame-collect,
  sorted-NoCore, NoCore-sorted, sorted-none,
}

-- The settings that the core keeps until it is restarted: log, control, automatic start, state and TUN.
pub record SameCore (a c : DaemonConfig) : Type 0 where
  pub log : c.log ≡ a.log
  pub control : c.control ≡ a.control
  pub auto_start : c.session.auto_start ≡ a.session.auto_start
  pub resume_file : c.resume_file ≡ a.resume_file
  pub tun : c.inbounds.tun ≡ a.inbounds.tun

module _ (a c : DaemonConfig) where
  leaves-SameCore : CoreSame (leaves a) (leaves c) → SameCore a c
  unfolding leaves requirement_for_path
  leaves-SameCore h = record {
    log = ground arith;
    control = ground arith;
    auto_start = ground arith;
    resume_file = ground arith;
    tun = ground arith;
  }

  leaves-eq : Same (leaves a) (leaves c) → a ≡ c
  unfolding leaves
  leaves-eq h = ground arith

  SameCore-leaves : SameCore a c → CoreSame (leaves a) (leaves c)
  unfolding leaves requirement_for_path
  SameCore-leaves s = ground arith

-- `Changes` answers with nothing for exactly two configurations that are the same.
pub changes-none_iff : (a c : DaemonConfig) → (changes a c ≡ []) ↔ (a ≡ c)
unfolding changes sorted
changes-none_iff a c = (
  λ h. leaves-eq a c (collect-Same (leaves a) (leaves c) (sorted-none _ h)),
  λ h. ap (λ (x : DaemonConfig). changes a x) (sym h) ∙ ap sorted (collect_self (leaves a)),
)

-- No change that `Changes` answers with needs a restart of the core, for exactly two configurations that have
-- the same settings of log, control, automatic start, state and TUN.
pub changes-NoCoreChange_iff : (a c : DaemonConfig) → NoCoreChange (changes a c) ↔ SameCore a c
unfolding changes
changes-NoCoreChange_iff a c = (
  λ h. leaves-SameCore a c (collect-CoreSame (leaves a) (leaves c) (NoCore-sorted _ h)),
  λ h. sorted-NoCore _ (CoreSame-collect (leaves a) (leaves c) (SameCore-leaves a c h)),
)
