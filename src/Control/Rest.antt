-- ===== src/Control/Rest.antt =====
-- control/rest/server.go: the control protocol over HTTP, on `call` of Control/Calls. net/http's mux, JSON, net/url
-- and the functions of strings are parameters. A reply keeps its status, the headers `Allow` and `Cache-Control`, and
-- its body; the events that a stream sends are those of a subscriber of Control. The state `W` is the manager's.
pub mod Guarded
pub mod Reading
pub mod Replies
pub mod Handlers
pub mod Served
use zju_portal_core.Base.{
  ℕ, ℤ, Bool, true, false, ◌&&◌, ◌||◌, not, Option, none, some, List, [], ◌∷◌, String, ◌==◌,
  string_eq, ◌⊎◌, inl, inr, if◌then◌else◌,
}
use Prim.Native.String.{◌++◌}
use zju_portal_core.Core.Error.{
  Error, ErrorCode, plain, wrap_error, error_code_of, unknown, resource_data_read_failed,
  client_data_write_failed, atrust_setup_failed, invalid_state_transition, auth_challenge_invalid,
  auth_response_invalid, auth_handler_unavailable, session_start_failed, session_already_running,
  session_reconnect_failed, session_close_failed, invalid_request, method_not_found,
  protocol_unsupported, session_not_found, session_not_ready, resources_unavailable,
  network_setup_failed, outbound_unavailable, auth_challenge_not_found, connection_not_found,
  resume_state_invalid, resume_state_scope, resume_state_unavailable, config_invalid,
  config_unavailable, restart_required, address_in_use, permission_denied, tun_unavailable,
  interface_unavailable, route_setup_failed, dns_start_failed,
}
use zju_portal_core.Stream.{Result, ok, err, fault}
use zju_portal_core.Control.Calls.{
  Manager, Decoder, Info, CallResult, call, as_core_error, protocol_version,
}

pub data HttpMethod : Type 0 where
  get post put patch delete : HttpMethod
  other_http_method : String → HttpMethod

pub data Handler : Type 0 where
  handles_hello handles_sessions handles_session handles_auth_response handles_events : Handler
  handles_config handles_config_apply handles_config_reload : Handler

-- `access_token` is the parameter of the query; `has_flusher` whether the writer is an `http.Flusher`.
pub record Request : Type 0 where
  pub method : HttpMethod
  pub path : String
  pub host : String
  pub origin : String
  pub authorization : String
  pub access_token : String
  pub body : String
  pub has_flusher : Bool

-- The targets that a body is decoded into, and the parameters that are encoded for a call.
pub data Target : Type 0 where
  start_target auth_target routing_target config_target patch_target apply_target : Target

pub data Params (V : Type 0) : Type 0 where
  hello_params : ℤ → Params V
  start_params auth_response set_params patch_params apply_params : V → Params V
  session_id_params : String → Params V
  connection_close_params : String → String → Params V
  routing_params : String → V → Params V

-- What a second `Decode` finds.
pub data Rest : Type 0 where
  end_of_body another_value : Rest
  failed : Error → Rest

-- `decode_first` gives the first value of a body and the rest of it, `decode_rest` decodes on.
pub record Library (V : Type 0) : Type 0 where
  pub mux : List (String × Handler) → String → Option Handler
  pub trim_prefix : String → String → String
  pub split : String → String → List String
  pub path_unescape : String → Error ⊎ String
  pub parse_origin : String → Error ⊎ (String × String)
  pub decode_first : Target → String → Error ⊎ (V × String)
  pub decode_rest : String → Rest
  pub encode : Params V → String

pub record Server (W V : Type 0) : Type 0 where
  pub manager : Manager W V
  pub decoder : Decoder V
  pub info : Info
  pub library : Library V
  pub token : String

pub record Envelope (V : Type 0) : Type 0 where
  pub status : ℕ
  pub allow : List HttpMethod
  pub no_store : Bool
  pub result : Option (CallResult V)
  pub error : Option Error

-- `not_found_page` is the reply of `http.NotFound`, `mux_reply` that of a mux without a handler, `aborted` the end of
-- a connection whose handler panics.
pub data Reply (V : Type 0) : Type 0 where
  json_reply : Envelope V → Reply V
  not_found_page mux_reply event_stream aborted : Reply V

abbrev pub api_base_path : String
api_base_path = "/api/v1"

abbrev pub handlers : List (String × Handler)
handlers =
    (api_base_path ++ "/hello", handles_hello)
    ∷ (api_base_path ++ "/sessions", handles_sessions)
    ∷ (api_base_path ++ "/sessions/", handles_session)
    ∷ (api_base_path ++ "/auth/responses", handles_auth_response)
    ∷ (api_base_path ++ "/events", handles_events)
    ∷ (api_base_path ++ "/config", handles_config)
    ∷ (api_base_path ++ "/config/apply", handles_config_apply)
    ∷ (api_base_path ++ "/config/reload", handles_config_reload)
    ∷ []

unfoldable pub status_for_error : ErrorCode → ℕ
status_for_error invalid_request = 400
status_for_error auth_response_invalid = 400
status_for_error auth_challenge_invalid = 400
status_for_error config_invalid = 400
status_for_error session_not_found = 404
status_for_error auth_challenge_not_found = 404
status_for_error connection_not_found = 404
status_for_error session_not_ready = 409
status_for_error session_already_running = 409
status_for_error session_start_failed = 409
status_for_error session_close_failed = 409
status_for_error restart_required = 409
status_for_error address_in_use = 409
status_for_error permission_denied = 403
status_for_error tun_unavailable = 503
status_for_error interface_unavailable = 503
status_for_error route_setup_failed = 503
status_for_error dns_start_failed = 503
status_for_error outbound_unavailable = 503
status_for_error method_not_found = 404
status_for_error config_unavailable = 404
status_for_error protocol_unsupported = 426
status_for_error _ = 500

module _ {V : Type 0} where
  abbrev pub write_error : ℕ → Error → Reply V
  write_error status e =
      json_reply
        (record { status = status; allow = []; no_store = false; result = none; error = some e })

  abbrev pub method_not_allowed : List HttpMethod → Reply V
  method_not_allowed methods = json_reply (record {
    status = 405;
    allow = methods;
    no_store = false;
    result = none;
    error = some (wrap_error method_not_found "HTTP method is not supported" false none);
  })

  -- The header that is set before the call.
  unfoldable pub without_store : Reply V → Reply V
  without_store (json_reply e) = json_reply (record e { no_store = true })
  without_store reply = reply

  unfoldable pub decode_end : Rest → V → Error ⊎ V
  decode_end end_of_body v = inr v
  decode_end another_value v = inl (plain "request body contains multiple JSON values")
  decode_end (failed e) v = inl e

module _ {W V : Type 0} where
  unfoldable pub replied : W × Result Error (CallResult V) → W × Reply V
  unfolding status_for_error
  replied (w, ok result) = (
    w,
    json_reply
        (record { status = 200; allow = []; no_store = false; result = some result; error = none }),
  )
  replied (w, err e) =
      (w, write_error (status_for_error (error_code_of (some (as_core_error e)))) (as_core_error e))
  replied (w, fault) = (w, aborted)

  abbrev pub bad_request : String → Error → W → W × Reply V
  bad_request message e w = (w, write_error 400 (wrap_error invalid_request message false (some e)))

module _ {W V : Type 0} (s : Server W V) where
  -- `name` and what it is called with.
  unfoldable pub call_context : String → String → W → W × Reply V
  call_context name raw w = replied (call s.manager s.decoder s.info name raw w)

  unfoldable pub decoded_first : Error ⊎ (V × String) → Error ⊎ V
  decoded_first (inl e) = inl e
  decoded_first (inr (v, rest)) = decode_end (s.library.decode_rest rest) v

  unfoldable pub with_body : Error ⊎ V → (V → W → W × Reply V) → W → W × Reply V
  with_body (inl e) f w = bad_request "decode request body" e w
  with_body (inr v) f w = f v w

  -- A body that is decoded, encoded again as parameters, and called with.
  unfoldable pub call_with_body : Target → (V → Params V) → String → Request → W → W × Reply V
  call_with_body target params name request w =
      with_body (decoded_first (s.library.decode_first target request.body))
        (λ (v : V) (w : W). call_context name (s.library.encode (params v)) w) w

  unfoldable pub handle_hello : HttpMethod → W → W × Reply V
  handle_hello get w = call_context "hello" (s.library.encode (hello_params protocol_version)) w
  handle_hello _ w = (w, method_not_allowed (get ∷ []))

  unfoldable pub handle_sessions : HttpMethod → Request → W → W × Reply V
  handle_sessions post request w =
      call_with_body start_target start_params "session.start" request w
  handle_sessions _ request w = (w, method_not_allowed (post ∷ []))

  unfoldable pub handle_auth_response : HttpMethod → Request → W → W × Reply V
  handle_auth_response post request w =
      call_with_body auth_target auth_response "auth.respond" request w
  handle_auth_response _ request w = (w, method_not_allowed (post ∷ []))

  unfoldable pub handle_events : HttpMethod → Request → W → W × Reply V
  handle_events get request w =
      if request.has_flusher
      then (w, event_stream)
      else (w, write_error 500 (wrap_error unknown "streaming is unsupported" false none))
  handle_events _ request w = (w, method_not_allowed (get ∷ []))

  unfoldable pub handle_config : HttpMethod → Request → W → W × Reply V
  handle_config get request w = call_context "config.get" "" w
  handle_config put request w = call_with_body config_target set_params "config.set" request w
  handle_config patch request w = call_with_body patch_target patch_params "config.patch" request w
  handle_config _ request w = (w, method_not_allowed (get ∷ put ∷ patch ∷ []))

  unfoldable pub handle_config_apply : HttpMethod → Request → W → W × Reply V
  handle_config_apply post request w =
      call_with_body apply_target apply_params "config.apply" request w
  handle_config_apply _ request w = (w, method_not_allowed (post ∷ []))

  unfoldable pub handle_config_reload : HttpMethod → W → W × Reply V
  handle_config_reload post w = call_context "config.reload" "" w
  handle_config_reload _ w = (w, method_not_allowed (post ∷ []))

  -- A method that takes the session's ID alone.
  unfoldable pub call_session : String → String → W → W × Reply V
  call_session name id w = call_context name (s.library.encode (session_id_params id)) w

  unfoldable pub handle_one_session : HttpMethod → String → W → W × Reply V
  handle_one_session get id w = call_session "session.status" id w
  handle_one_session delete id w = call_session "session.stop" id w
  handle_one_session _ id w = (w, method_not_allowed (get ∷ delete ∷ []))

  unfoldable pub close_unescaped : String → Error ⊎ String → W → W × Reply V
  close_unescaped id (inl e) w = bad_request "invalid connection ID" e w
  close_unescaped id (inr connection) w =
      call_context "connection.close" (s.library.encode (connection_close_params id connection)) w

  unfoldable pub handle_connection : HttpMethod → String → String → W → W × Reply V
  handle_connection delete id part w = close_unescaped id (s.library.path_unescape part) w
  handle_connection _ id part w = (w, method_not_allowed (delete ∷ []))

  unfoldable pub handle_refresh : HttpMethod → String → W → W × Reply V
  handle_refresh post id w = call_session "resources.refresh" id w
  handle_refresh _ id w = (w, method_not_allowed (post ∷ []))

  unfoldable pub handle_routing : HttpMethod → String → Request → W → W × Reply V
  handle_routing get id request w = call_session "routing.mode.get" id w
  handle_routing put id request w =
      call_with_body routing_target (routing_params id) "routing.mode.set" request w
  handle_routing _ id request w = (w, method_not_allowed (get ∷ put ∷ []))

  unfoldable pub handle_part : HttpMethod → String → String → W → W × Reply V
  handle_part get part id w =
      if part == "resources"
      then call_session "resources.get" id w
      else if part == "services"
      then call_session "services.get" id w
      else if part == "traffic"
      then call_session "traffic.get" id w
      else if part == "connections"
      then call_session "connections.list" id w
      else if part == "transport-connections"
      then call_session "transport_connections.list" id w
      else if part == "resume-state"
      then (
        (call_session "resume_state.get" id w).0,
        without_store (call_session "resume_state.get" id w).1,
      )
      else (w, not_found_page)
  handle_part _ part id w = (w, method_not_allowed (get ∷ []))

  -- The parts of the path behind the session's ID.
  unfoldable pub handle_parts : List String → String → Request → W → W × Reply V
  handle_parts [] id request w = handle_one_session request.method id w
  handle_parts (part ∷ []) id request w =
      if part == "routing"
      then handle_routing request.method id request w
      else handle_part request.method part id w
  handle_parts (part ∷ sub ∷ []) id request w =
      if part == "connections"
      then handle_connection request.method id sub w
      else if part == "resources" && sub == "refresh"
      then handle_refresh request.method id w
      else (w, not_found_page)
  handle_parts (part ∷ sub ∷ _ ∷ _) id request w = (w, not_found_page)

  unfoldable pub with_session_id : Error ⊎ String → List String → Request → W → W × Reply V
  with_session_id (inl e) parts request w = bad_request "invalid session ID" e w
  with_session_id (inr id) parts request w = handle_parts parts id request w

  unfoldable pub handle_split : List String → Request → W → W × Reply V
  handle_split [] request w = (w, not_found_page)
  handle_split (part ∷ parts) request w =
      if part == ""
      then (w, not_found_page)
      else with_session_id (s.library.path_unescape part) parts request w

  unfoldable pub handle_session : Request → W → W × Reply V
  handle_session request w =
      handle_split
        (s.library.split (s.library.trim_prefix request.path (api_base_path ++ "/sessions/")) "/")
        request w

  unfoldable pub handle : Option Handler → Request → W → W × Reply V
  handle none request w = (w, mux_reply)
  handle (some handles_hello) request w = handle_hello request.method w
  handle (some handles_sessions) request w = handle_sessions request.method request w
  handle (some handles_session) request w = handle_session request w
  handle (some handles_auth_response) request w = handle_auth_response request.method request w
  handle (some handles_events) request w = handle_events request.method request w
  handle (some handles_config) request w = handle_config request.method request w
  handle (some handles_config_apply) request w = handle_config_apply request.method request w
  handle (some handles_config_reload) request w = handle_config_reload request.method w

  unfoldable pub authorized : Request → Bool
  authorized request =
      s.token == ""
      || s.library.trim_prefix request.authorization "Bearer " == s.token
      || (request.path == (api_base_path ++ "/events") && request.access_token == s.token)

  unfoldable pub from_host : Error ⊎ (String × String) → Request → Bool
  from_host (inl e) request = false
  from_host (inr (scheme, host)) request =
      host == request.host && (scheme == "http" || scheme == "https")

  unfoldable pub same_origin : Request → Bool
  same_origin request =
      request.origin == "" || from_host (s.library.parse_origin request.origin) request

  unfoldable pub serve_http : Request → W → W × Reply V
  serve_http request w =
      if not (authorized request)
      then (
        w,
        write_error 401 (wrap_error invalid_request "unauthorized control request" false none),
      )
      else if not (same_origin request)
      then (
        w,
        write_error 403
            (wrap_error invalid_request "cross-origin control request is forbidden" false none),
      )
      else handle (s.library.mux handlers request.path) request w
