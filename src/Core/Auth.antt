-- ===== src/Core/Auth.antt =====
-- core/auth.go: authentication challenges, responses, and their validation. Texts of errors that
-- quote a value keep the constant part.
pub mod Choices
use zju_portal_core.Base.{
  ℕ, ◌*◌, String, Bool, true, false, not, ◌&&◌, ◌||◌, Option, none, some, List, [], ◌∷◌, ◌==◌,
  string_eq, ltb, if◌then◌else◌, length, nat_beq,
}
use zju_portal_core.Core.Error.{Error, auth_challenge_invalid, auth_response_invalid, wrap_error}

-- `other_kind` is any string that is none of the constants.
pub data AuthChallengeKind : Type 0 where
  password sms secondary_sms totp cas_callback oauth_callback graph_text : AuthChallengeKind
  graph_click select_authentication_method : AuthChallengeKind
  other_kind : String → AuthChallengeKind

pub record AuthChoice : Type 0 where
  pub id : String
  pub label : String
  pub description : String

pub record AuthChallenge : Type 0 where
  pub id : String
  pub kind : AuthChallengeKind
  pub prompt : String
  pub url : String
  pub image : List ℕ
  pub allow_skip : Bool
  pub choices : List AuthChoice

pub record AuthResponse : Type 0 where
  pub challenge_id : String
  pub value : String
  pub skip : Bool
  pub choice_id : String

abbrev pub max_auth_challenge_image_size : ℕ
max_auth_challenge_image_size = 4 * 1024 * 1024

unfoldable pub kind_valid : AuthChallengeKind → Bool
kind_valid (other_kind s) = false
kind_valid password = true
kind_valid _ = true

abbrev pub is_select : AuthChallengeKind → Bool
is_select select_authentication_method = true
is_select _ = false

invalid_auth_challenge : String → Error
invalid_auth_challenge message = wrap_error auth_challenge_invalid message false none

invalid_auth_response : String → Error
invalid_auth_response message = wrap_error auth_response_invalid message false none

abbrev pub contains : List String → String → Bool
contains [] s = false
contains (x ∷ xs) s = x == s || contains xs s

-- The loop over the choices; `seen` holds the keys of `choiceIDs`.
unfoldable pub validate_choices : List String → List AuthChoice → Option Error
unfolding invalid_auth_challenge
validate_choices seen [] = none
validate_choices seen (c ∷ cs) =
    let rest = validate_choices (c.id ∷ seen) cs in
    if c.id == ""
    then some (invalid_auth_challenge "authentication choice ID is empty")
    else if contains seen c.id
    then some (invalid_auth_challenge "authentication choice ID is duplicated")
    else rest

unfoldable pub validate_challenge : AuthChallenge → Option Error
unfolding invalid_auth_challenge kind_valid
validate_challenge c =
    if c.id == ""
    then some (invalid_auth_challenge "authentication challenge ID is empty")
    else if not (kind_valid c.kind)
    then some (invalid_auth_challenge "authentication challenge kind is invalid")
    else if ltb max_auth_challenge_image_size (length c.image)
    then some (invalid_auth_challenge "authentication challenge image exceeds the limit")
    else elim (validate_choices [] c.choices) [
      | some e ↦ some e
      | none ↦
          if is_select c.kind && nat_beq (length c.choices) 0
          then some (invalid_auth_challenge "authentication method challenge has no choices")
          else none
    ]

-- The loop that looks for the chosen ID.
unfoldable pub has_choice : List AuthChoice → String → Bool
has_choice [] s = false
has_choice (c ∷ cs) s = c.id == s || has_choice cs s

unfoldable pub validate_response : AuthResponse → AuthChallenge → Option Error
unfolding invalid_auth_response
validate_response r c = elim (validate_challenge c) [
  | some e ↦ some e
  | none ↦
      if not (r.challenge_id == c.id)
      then some (invalid_auth_response "authentication response challenge ID does not match")
      else if r.skip && not c.allow_skip
      then some (invalid_auth_response "authentication challenge cannot be skipped")
      else if is_select c.kind
      then if r.choice_id == ""
        then some (invalid_auth_response "authentication method choice is empty")
        else if has_choice c.choices r.choice_id
        then none
        else some (invalid_auth_response "authentication method choice is invalid")
      else if r.value == ""
      then some (invalid_auth_response "authentication response value is empty")
      else none
]
