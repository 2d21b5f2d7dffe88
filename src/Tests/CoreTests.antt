-- ===== src/Tests/CoreTests.antt =====
-- Runs of the models of core/ at concrete inputs.
use zju_portal_core.Base.{◌≡◌, refl, ◌↔◌, false, none, [], ◌∷◌}
use zju_portal_core.Core.Error.{auth_response_invalid, wrap_error, Error}
use zju_portal_core.Core.State.{
  idle, discovering_auth, authenticating, fetching_resources, selecting_nodes, establishing_tunnel,
  ready, reconnecting, can_transition,
}
use zju_portal_core.Core.State.Paths.{History, start, step}
use zju_portal_core.Core.Auth.{
  AuthChallenge, AuthResponse, password, select_authentication_method, validate_challenge,
  validate_response, validate_choices, has_choice,
}
use zju_portal_core.Core.Auth.Choices.{IsChallenge, Answers, validate_response_iff}

abbrev password_challenge : AuthChallenge
password_challenge = record {
  id = "1";
  kind = password;
  prompt = "";
  url = "";
  image = [];
  allow_skip = false;
  choices = [];
}

abbrev pub method_challenge : AuthChallenge
method_challenge = record {
  id = "2";
  kind = select_authentication_method;
  prompt = "";
  url = "";
  image = [];
  allow_skip = false;
  choices = record { id = "cas"; label = "CAS"; description = "" } ∷ [];
}

abbrev pub method_response : AuthResponse
method_response = record { challenge_id = "2"; value = ""; skip = false; choice_id = "cas" }

abbrev pub wrong_choice : AuthResponse
wrong_choice = record { challenge_id = "2"; value = ""; skip = false; choice_id = "totp" }

abbrev reconnected : History idle ready
unfolding can_transition
reconnected = step discovering_auth refl (
    step authenticating refl (
      step fetching_resources refl (
        step selecting_nodes refl (
          step establishing_tunnel refl
            (step ready refl (step reconnecting refl (step ready refl start)))))))

validate_response_iff_example :
    (validate_response method_response method_challenge ≡ none)
    ↔ (IsChallenge method_challenge × Answers method_response method_challenge)
validate_response_iff_example = validate_response_iff method_response method_challenge

method_response_accepted : validate_response method_response method_challenge ≡ none
unfolding validate_response validate_challenge validate_choices has_choice
method_response_accepted = refl

abbrev choice_error : Error
choice_error = wrap_error auth_response_invalid "authentication method choice is invalid" false none
