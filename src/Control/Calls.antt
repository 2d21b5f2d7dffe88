-- ===== src/Control/Calls.antt =====
-- control/v1/service.go `Call` and control/v1/server.go `handleLine`: the methods of the control protocol. The
-- manager is an interface on a state `W`; JSON is a library, `Decoder` its `Unmarshal` of each kind of
-- parameters. Raw messages are texts, `V` are the values that the service only passes on.
pub mod Replies
use zju_portal_core.Base.{
  ℕ, Bool, true, false, ◌&&◌, ◌||◌, not, Option, none, some, List, [], ◌∷◌, String, ◌==◌, string_eq,
  ◌⊎◌, inl, inr, ℤ, nat_beq, if◌then◌else◌,
}
use Prim.Native.String.{◌++◌}
use zju_portal_core.Core.Error.{
  Error, wrap_error, error_text, protocol_unsupported, method_not_found, session_not_found,
  invalid_request, unknown,
}
use zju_portal_core.Session.{find_core_error}
use zju_portal_core.Stream.{Result, ok, err, fault}

pub data Method : Type 0 where
  hello session_start auth_respond session_stop session_status resources_get resources_refresh :
      Method
  services_get traffic_get connections_list connection_close transport_connections_list : Method
  routing_mode_get routing_mode_set resume_state_get : Method
  config_get config_set config_patch config_apply config_reload : Method
  other_method : String → Method

unfoldable pub find_method : String → List (String × Method) → Method
find_method name [] = other_method name
find_method name ((text, method) ∷ rest) = if text == name then method else find_method name rest

abbrev pub methods : List (String × Method)
methods =
    ("hello", hello)
    ∷ ("session.start", session_start)
    ∷ ("auth.respond", auth_respond)
    ∷ ("session.stop", session_stop)
    ∷ ("session.status", session_status)
    ∷ ("resources.get", resources_get)
    ∷ ("resources.refresh", resources_refresh)
    ∷ ("services.get", services_get)
    ∷ ("traffic.get", traffic_get)
    ∷ ("connections.list", connections_list)
    ∷ ("connection.close", connection_close)
    ∷ ("transport_connections.list", transport_connections_list)
    ∷ ("routing.mode.get", routing_mode_get)
    ∷ ("routing.mode.set", routing_mode_set)
    ∷ ("resume_state.get", resume_state_get)
    ∷ ("config.get", config_get)
    ∷ ("config.set", config_set)
    ∷ ("config.patch", config_patch)
    ∷ ("config.apply", config_apply)
    ∷ ("config.reload", config_reload)
    ∷ []

pub record Decoder (V : Type 0) : Type 0 where
  pub request : String → Error ⊎ (String × String × String)
  pub protocol_version : String → Error ⊎ ℤ
  pub start_params : String → Error ⊎ (String × V)
  pub auth_response : String → Error ⊎ V
  pub session_id : String → Error ⊎ String
  pub connection_ids : String → Error ⊎ (String × String)
  pub routing_params : String → Error ⊎ (String × V)
  pub config : String → Error ⊎ V
  pub patch : String → Error ⊎ String
  pub apply_mode : String → Error ⊎ V

-- The methods of a manager with control of the configuration, and of one that starts the configured session.
pub record ConfigController (W V : Type 0) : Type 0 where
  pub config_snapshot : W → V
  pub set_config : V → W → W × Result Error V
  pub patch_config : String → W → W × Result Error V
  pub apply_config : V → W → W × Result Error V
  pub reload_config : W → W × Result Error V

pub record Manager (W V : Type 0) : Type 0 where
  pub config_controller : Option (ConfigController W V)
  pub start_session : Option (String → V → W → W × Result Error String)
  pub respond_auth : V → W → W × Option Error
  pub stop : String → W → W × Option Error
  pub status : String → W → String × V
  pub resources : String → W → Result Error V
  pub refresh_resources : String → W → W × Result Error V
  pub services : String → W → Result Error V
  pub traffic_stats : String → W → Result Error V
  pub connections : String → W → Result Error V
  pub close_connection : String → String → W → W × Option Error
  pub transport_connections : String → W → Result Error V
  pub routing_mode : String → W → Result Error V
  pub set_routing_mode : String → V → W → W × Option Error
  pub resume_state : String → W → Result Error V
  -- The revision and whether the state was used again, of a resume state.
  pub revision : V → ℕ × Bool

pub data CallResult (V : Type 0) : Type 0 where
  hello_result : String → ℤ → List String → CallResult V
  session_started : String → ℕ → Bool → CallResult V
  empty_object session_stopped connection_closed : CallResult V
  routing_mode_result : V → CallResult V
  of_manager : V → CallResult V

-- `coreVersion` and `capabilities` of the service, and the formats `%d` and `%q`.
pub record Info : Type 0 where
  pub core_version : String
  pub capabilities : List String
  pub show_int : ℤ → String
  pub quote : String → String

abbrev pub protocol_version : ℤ
protocol_version = ℤ.pos 2

abbrev is_version : ℤ → Bool
is_version (ℤ.pos n) = nat_beq n 2
is_version (ℤ.negsuc n) = false

-- The parameters that are decoded.
abbrev pub raw_params : String → String
raw_params raw = if raw == "" then "{}" else raw

abbrev pub undecoded {ℓ} : {A : Type ℓ} → Error → Result Error A
undecoded e = err (wrap_error invalid_request "decode request params" false (some e))

abbrev pub unavailable {ℓ} : {A : Type ℓ} → String → Result Error A
unavailable what = err (wrap_error method_not_found (what ++ " control is unavailable") false none)

unfoldable pub passed_on : {V : Type 0} → Result Error V → Result Error (CallResult V)
passed_on (ok v) = ok (of_manager v)
passed_on (err e) = err e
passed_on fault = fault

unfoldable pub mode_result : {V : Type 0} → Result Error V → Result Error (CallResult V)
mode_result (ok mode) = ok (routing_mode_result mode)
mode_result (err e) = err e
mode_result fault = fault

module _ {W V : Type 0} where
  -- With the parameters of a call: their error, or what is done with them.
  unfoldable pub with_params {ℓ} :
      {A : Type ℓ}
      → Error ⊎ A
      → (A → W → W × Result Error (CallResult V))
      → W
      → W × Result Error (CallResult V)
  with_params (inl e) f w = (w, undecoded e)
  with_params (inr a) f w = f a w

  unfoldable pub done_with : CallResult V → W × Option Error → W × Result Error (CallResult V)
  done_with result (w, none) = (w, ok result)
  done_with result (w, some e) = (w, err e)

  abbrev pub query : (W → Result Error V) → W → W × Result Error (CallResult V)
  query f w = (w, passed_on (f w))

  abbrev pub change : (W → W × Result Error V) → W → W × Result Error (CallResult V)
  change f w = let (w', result) = f w in (w', passed_on result)

  unfoldable pub with_revision : Manager W V → String → Result Error V → CallResult V
  with_revision m id (ok state) = session_started id (m.revision state).0 (m.revision state).1
  with_revision m id other = session_started id 0 false

  unfoldable pub started : Manager W V → W × Result Error String → W × Result Error (CallResult V)
  started m (w, ok id) = (w, ok (with_revision m id (m.resume_state id w)))
  started m (w, err e) = (w, err e)
  started m (w, fault) = (w, fault)

  unfoldable pub found_status : W → String × V → W × Result Error (CallResult V)
  found_status w (id, status) =
      if id == ""
      then (w, err (wrap_error session_not_found "session not found" false none))
      else (w, ok (of_manager status))

  unfoldable pub with_controller :
      Option (ConfigController W V)
      → (ConfigController W V → W → W × Result Error (CallResult V))
      → W
      → W × Result Error (CallResult V)
  with_controller none f w = (w, unavailable "configuration")
  with_controller (some c) f w = f c w

  unfoldable pub start_with :
      Manager W V
      → Decoder V
      → String
      → Option (String → V → W → W × Result Error String)
      → W
      → W × Result Error (CallResult V)
  start_with m d raw none w = (w, unavailable "configured session")
  start_with m d raw (some start) w =
      with_params (d.start_params raw) (λ (p : String × V) (w : W). started m (start p.0 p.1 w)) w

  unfoldable pub call_method :
      Manager W V → Decoder V → Info → Method → String → W → W × Result Error (CallResult V)
  call_method m d info hello raw w =
      with_params (d.protocol_version raw)
        (λ (n : ℤ) (w : W).
          if is_version n
          then (w, ok (hello_result info.core_version protocol_version info.capabilities))
          else (
            w,
            err (
                wrap_error protocol_unsupported
                  ("protocol version " ++ info.show_int n ++ " is unsupported") false none),
          ))
        w
  call_method m d info session_start raw w = start_with m d raw m.start_session w
  call_method m d info auth_respond raw w =
      with_params (d.auth_response raw)
        (λ (r : V) (w : W). done_with empty_object (m.respond_auth r w)) w
  call_method m d info session_stop raw w =
      with_params (d.session_id raw)
        (λ (id : String) (w : W). done_with session_stopped (m.stop id w)) w
  call_method m d info session_status raw w =
      with_params (d.session_id raw) (λ (id : String) (w : W). found_status w (m.status id w)) w
  call_method m d info resources_get raw w =
      with_params (d.session_id raw) (λ (id : String). query (m.resources id)) w
  call_method m d info resources_refresh raw w =
      with_params (d.session_id raw) (λ (id : String). change (m.refresh_resources id)) w
  call_method m d info services_get raw w =
      with_params (d.session_id raw) (λ (id : String). query (m.services id)) w
  call_method m d info traffic_get raw w =
      with_params (d.session_id raw) (λ (id : String). query (m.traffic_stats id)) w
  call_method m d info connections_list raw w =
      with_params (d.session_id raw) (λ (id : String). query (m.connections id)) w
  call_method m d info connection_close raw w =
      with_params (d.connection_ids raw)
        (λ (ids : String × String) (w : W).
          done_with connection_closed (m.close_connection ids.0 ids.1 w))
        w
  call_method m d info transport_connections_list raw w =
      with_params (d.session_id raw) (λ (id : String). query (m.transport_connections id)) w
  call_method m d info routing_mode_get raw w =
      with_params (d.session_id raw)
        (λ (id : String) (w : W). (w, mode_result (m.routing_mode id w))) w
  call_method m d info routing_mode_set raw w =
      with_params (d.routing_params raw)
        (λ (p : String × V) (w : W).
          done_with (routing_mode_result p.1) (m.set_routing_mode p.0 p.1 w))
        w
  call_method m d info resume_state_get raw w =
      with_params (d.session_id raw) (λ (id : String). query (m.resume_state id)) w
  call_method m d info config_get raw w =
      with_controller m.config_controller
        (λ (c : ConfigController W V) (w : W). (w, ok (of_manager (c.config_snapshot w)))) w
  call_method m d info config_set raw w =
      with_controller m.config_controller
        (λ (c : ConfigController W V).
          with_params (d.config raw) (λ (config : V). change (c.set_config config)))
        w
  call_method m d info config_patch raw w =
      with_controller m.config_controller
        (λ (c : ConfigController W V). with_params (d.patch raw) (λ (patch : String) (w : W).
          if patch == ""
          then (w, err (wrap_error invalid_request "config patch is required" false none))
          else change (c.patch_config patch) w))
        w
  call_method m d info config_apply raw w =
      with_controller m.config_controller
        (λ (c : ConfigController W V).
          with_params (d.apply_mode raw) (λ (mode : V). change (c.apply_config mode)))
        w
  call_method m d info config_reload raw w =
      with_controller m.config_controller (λ (c : ConfigController W V). change c.reload_config) w
  call_method m d info (other_method name) raw w = (
    w,
    err (
        wrap_error method_not_found ("method " ++ info.quote name ++ " is not supported") false
          none),
  )

  unfoldable pub call :
      Manager W V → Decoder V → Info → String → String → W → W × Result Error (CallResult V)
  call m d info name raw w = call_method m d info (find_method name methods) (raw_params raw) w

-- `ID`, `Result` and `Error` of a response.
pub record Response (V : Type 0) : Type 0 where
  pub id : String
  pub result : Option (CallResult V)
  pub error : Option Error

unfoldable pub or_unknown : Error → Option Error → Error
or_unknown e (some core) = core
or_unknown e none = wrap_error unknown (error_text e) false (some e)

unfoldable pub as_core_error : Error → Error
unfolding or_unknown
as_core_error e = or_unknown e (find_core_error e)

abbrev pub normalize_id : String → String
normalize_id id = if id == "" then "null" else id

module _ {W V : Type 0} where
  -- A panic of the manager ends the program: there is no response.
  unfoldable pub respond : String → W × Result Error (CallResult V) → W × Option (Response V)
  respond id (w, ok result) = (w, some (record { id = id; result = some result; error = none }))
  respond id (w, err e) =
      (w, some (record { id = id; result = none; error = some (as_core_error e) }))
  respond id (w, fault) = (w, none)

  unfoldable pub refuse : String → Error → W → W × Option (Response V)
  refuse id e w = (w, some (record { id = id; result = none; error = some e }))

  unfoldable pub handle_request :
      Manager W V
      → Decoder V
      → Info
      → Error ⊎ (String × String × String)
      → W
      → W × Option (Response V)
  handle_request m d info (inl e) w =
      refuse "null" (wrap_error invalid_request "decode JSONL request" false (some e)) w
  handle_request m d info (inr (id, name, params)) w =
      if id == "" || name == ""
      then refuse (normalize_id id)
          (wrap_error invalid_request "request ID and method are required" false none) w
      else respond id (call m d info name params w)

  unfoldable pub handle_line : Manager W V → Decoder V → Info → String → W → W × Option (Response V)
  handle_line m d info line w = handle_request m d info (d.request line) w
