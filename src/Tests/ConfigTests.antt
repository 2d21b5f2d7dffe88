-- ===== src/Tests/ConfigTests.antt =====
-- Runs of the model of daemonconfig/config.go at concrete inputs.
use zju_portal_core.Base.{◌≡◌, refl, true, false, none, some, string_eq, [], ◌∷◌}
use zju_portal_core.DaemonConfig.{DaemonConfig, default_config}
use zju_portal_core.DaemonConfig.Validate.{Library, validate, refuse}
use zju_portal_core.DaemonConfig.Validate.Checked.{IsChecked, validate-IsChecked}
use zju_portal_core.Dial.{mode_valid}
use zju_portal_core.Config.{outbound_type_valid}

abbrev library : Library
library = record {
  text_length = λ s. 4;
  parse_ip = λ s. some (127 ∷ 0 ∷ 0 ∷ 1 ∷ []);
  parse_prefix = λ s. some true;
  split_host = λ s. some "127.0.0.1";
  is_loopback = λ ip. true;
}

-- The defaults name no server, which a start by itself wants.
abbrev without_start : DaemonConfig
without_start = record default_config {
  session = record default_config.session { auto_start = false };
}

accepted_without_start : validate library without_start ≡ none
unfolding validate default_config refuse mode_valid outbound_type_valid
accepted_without_start = refl

validate-IsChecked_example : IsChecked library without_start
validate-IsChecked_example = validate-IsChecked library without_start accepted_without_start
