-- ===== src/Session/Resume.antt =====
-- internal/atrustruntime/resume.go: resume states of a session. base64, JSON and `strings.EqualFold` are parameters;
-- `now` is the current time. The values in the texts of errors are left out.
use zju_portal_core.Base.{
  ℕ, ◌≡◌, ◌≢◌, refl, Bool, true, false, not, ◌&&◌, ◌||◌, none, some, List, [], ◌∷◌, String, ◌==◌,
  string_eq, nat_beq, eq_iff, ◌⊎◌, inl, inr, Bool-cases, arith, if◌then◌else◌,
}
use zju_portal_core.Core.Error.{
  Error, wrap_error, resume_state_invalid, resume_state_scope, resume_state_unavailable,
}
use zju_portal_core.Config.{ResumeState}
use zju_portal_core.Manager.RuntimeConfig.{RuntimeConfig}

-- `device_id` is the device ID of the client data that are encoded in bytes.
pub record Codec : Type 0 where
  pub equal_fold : String → String → Bool
  pub decode_string : String → Error ⊎ List ℕ
  pub encode_to_string : List ℕ → String
  pub device_id : List ℕ → Error ⊎ String

abbrev pub format_atrust_client_data : String
format_atrust_client_data = "atrust-client-data"

abbrev scope_error : String → Error
scope_error message = wrap_error resume_state_scope message false none

unfoldable pub decode_client : Error ⊎ String → List ℕ → ℕ → Error ⊎ (List ℕ × ℕ)
decode_client (inl e) bytes revision =
    inl (wrap_error resume_state_invalid "parse resume state client data" false (some e))
decode_client (inr id) bytes revision =
    if id == ""
    then inl (wrap_error resume_state_invalid "resume state device ID is empty" false none)
    else inr (bytes, revision)

unfoldable pub decode_bytes : Codec → Error ⊎ List ℕ → ℕ → Error ⊎ (List ℕ × ℕ)
decode_bytes codec (inl e) revision =
    inl (wrap_error resume_state_invalid "decode resume state data" false (some e))
decode_bytes codec (inr bytes) revision = decode_client (codec.device_id bytes) bytes revision

unfoldable pub decode_resume_state : Codec → RuntimeConfig → ResumeState → Error ⊎ (List ℕ × ℕ)
decode_resume_state codec config state =
    if not (state.format == format_atrust_client_data) || not (nat_beq state.version 1)
    then inl
        (wrap_error resume_state_invalid "unsupported resume state format or version" false none)
    else if not (codec.equal_fold state.scope.server_address config.server_address)
        || not (nat_beq state.scope.server_port config.server_port)
    then inl (scope_error "resume state server does not match session config")
    else if not (state.scope.username == "")
        && not (config.username == "")
        && not (state.scope.username == config.username)
    then inl (scope_error "resume state username does not match session config")
    else decode_bytes codec (codec.decode_string state.data_text) state.revision

-- The name that the client logged in with, or that of the configuration.
unfoldable pub scope_username : RuntimeConfig → String → String
scope_username config username = if username == "" then config.username else username

abbrev empty_state : ResumeState
empty_state = record {
  format = "";
  version = 0;
  revision = 0;
  scope = record { server_address = ""; server_port = 0; username = "" };
  updated_at = 0;
  data_text = "";
  reused = false;
}

unfoldable pub encode_resume_state :
    Codec → RuntimeConfig → String → Bool → List ℕ → ℕ → ℕ → ResumeState
encode_resume_state codec config username reused [] revision now = empty_state
encode_resume_state codec config username reused (b ∷ bytes) revision now = record {
  format = format_atrust_client_data;
  version = 1;
  revision = revision;
  scope = record {
    server_address = config.server_address;
    server_port = config.server_port;
    username = scope_username config username;
  };
  updated_at = now;
  data_text = codec.encode_to_string (b ∷ bytes);
  reused = reused;
}

unfoldable pub resume_state : ResumeState → Error ⊎ ResumeState
resume_state state =
    if state.data_text == ""
    then inl (wrap_error resume_state_unavailable "resume state is unavailable" true none)
    else inr state

-- What the libraries promise: of the bytes, and of every text.
pub record IsCodec (codec : Codec) (bytes : List ℕ) : Type 0 where
  pub folds : (s : String) → codec.equal_fold s s ≡ true
  pub decodes : codec.decode_string (codec.encode_to_string bytes) ≡ inr bytes

-- The test of the user names of a scope and a configuration.
abbrev differs : String → String → Bool
differs name other = not (name == "") && not (other == "") && not (name == other)

scope_username-same :
    (config : RuntimeConfig) (username : String)
    → (username ≡ "") ⊎ (config.username ≡ "") ⊎ (username ≡ config.username)
    → differs (scope_username config username) config.username ≡ false
unfolding scope_username
scope_username-same config username same = elim (Bool-cases (username == "")) [
  | inl none_given ↦ rw none_given (ground (arith, eq_iff config.username config.username))
  | inr given ↦ rw given (
      ground (
        arith,
        given,
        same,
        eq_iff username "",
        eq_iff config.username "",
        eq_iff username config.username,
      ))
]

decode_bytes-decoded :
    (codec : Codec) (bytes : List ℕ) (revision : ℕ) (id : String)
    → IsCodec codec bytes
    → codec.device_id bytes ≡ inr id
    → id ≢ ""
    → decode_bytes codec (codec.decode_string (codec.encode_to_string bytes)) revision
      ≡ inr (bytes, revision)
unfolding decode_bytes decode_client
decode_bytes-decoded codec bytes revision id laws has full =
    rw laws.decodes (rw has (ground (arith, full, eq_iff id "")))

-- For client data with a device ID, and a client that logged in under the name of the configuration, if both have
-- one, `decodeResumeState` takes the state of `encodeResumeState` for the same configuration, and gives back the
-- data and the revision.
pub decode-encode_resume_state :
    (codec : Codec) (config : RuntimeConfig) (username : String) (reused : Bool) (bytes : List ℕ)
    (revision now : ℕ) (id : String)
    → IsCodec codec bytes
    → bytes ≢ []
    → codec.device_id bytes ≡ inr id
    → id ≢ ""
    → (username ≡ "") ⊎ (config.username ≡ "") ⊎ (username ≡ config.username)
    → decode_resume_state codec config
        (encode_resume_state codec config username reused bytes revision now)
      ≡ inr (bytes, revision)
unfolding decode_resume_state encode_resume_state
decode-encode_resume_state codec config username reused [] revision now id laws filled has full
      same =
    absurd (filled refl)
decode-encode_resume_state codec config username reused (b ∷ bytes) revision now id laws filled has
      full same =
    ground (
      arith,
      laws.folds config.server_address,
      scope_username-same config username same,
      decode_bytes-decoded codec (b ∷ bytes) revision id laws has full,
    )
