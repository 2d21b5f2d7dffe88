-- ===== src/Tests/SessionTests.antt =====
-- Runs of the model of internal/atrustruntime/session.go at concrete inputs.
use zju_portal_core.Base.{
  ◌≡◌, ◌≢◌, refl, false, some, List, [], ◌∷◌, String, ◌==◌, string_eq, inl, inr, arith, eq_iff,
}
use zju_portal_core.Core.Error.{plain, session_start_failed}
use zju_portal_core.Core.State.{stopped, state_valid}
use zju_portal_core.Core.State.Paths.{History}
use zju_portal_core.Session.{new_session, stage_discovering_auth, stage_authenticating}
use zju_portal_core.Session.Lifecycle.{Closing, close}
use zju_portal_core.Session.States.{
  Action, sets_up, fails, closes, acts, acts-History, close-stopped,
}
use zju_portal_core.Session.Resume.{
  Codec, IsCodec, decode_resume_state, encode_resume_state, decode-encode_resume_state,
}
use zju_portal_core.DaemonConfig.{default_config}
use zju_portal_core.DaemonConfig.Validate.{core_config}
use zju_portal_core.Manager.RuntimeConfig.{RuntimeConfig, to_runtime_config}

abbrev failing_close : Closing
failing_close = record {
  network_err = some (plain "busy");
  runtime_err = some (plain "busy");
  services_before = [];
  services_after = [];
}

abbrev short_life : List Action
short_life =
    sets_up stage_discovering_auth
    ∷ sets_up stage_authenticating
    ∷ fails session_start_failed "start session" (plain "refused")
    ∷ closes failing_close
    ∷ []

acts-History_example : History new_session.state (acts short_life new_session).state
acts-History_example = acts-History short_life new_session

close-stopped_example : (close failing_close new_session).0.0.state ≡ stopped
unfolding new_session state_valid
close-stopped_example = close-stopped failing_close new_session refl

other_group : ◌≢◌ {A = String} "b" "a"
other_group e = ground (arith, eq_iff "b" "a")

-- A codec for one byte of client data.
abbrev codec : Codec
codec = record {
  equal_fold = λ s t. s == t;
  decode_string = λ text. inr (7 ∷ []);
  encode_to_string = λ bytes. "Bw==";
  device_id = λ bytes. inr "device";
}

codec-IsCodec : IsCodec codec (7 ∷ [])
codec-IsCodec = record { folds = λ s. ground (arith, eq_iff s s); decodes = refl }

abbrev runtime : RuntimeConfig
runtime = to_runtime_config (core_config default_config)

decode-encode_resume_state_example :
    decode_resume_state codec runtime (encode_resume_state codec runtime "" false (7 ∷ []) 3 1000)
    ≡ inr (7 ∷ [], 3)
decode-encode_resume_state_example =
    decode-encode_resume_state codec runtime "" false (7 ∷ []) 3 1000 "device" codec-IsCodec
      (λ e. absurd (ground arith)) refl (ground (arith, eq_iff "device" "")) (inl refl)
