-- ===== src/Control/Calls/Replies.antt =====
-- What control/v1/server.go writes for a request, and which requests reach the manager.
use zju_portal_core.Base.{
  ◌≡◌, ◌≢◌, refl, sym, subst, true, false, ◌||◌, Option, none, some, String, ◌==◌, string_eq,
  eq_iff, ◌⊎◌, inl, inr, Option-cases, arith, if-cases,
}
use zju_portal_core.Core.Error.{
  Error, plain, wrapf, join, coded, coded_wrap, wrap_error, error_code_of, method_not_found,
  invalid_request, find_coded,
}
use zju_portal_core.Session.{find_core_error}
use zju_portal_core.Stream.{Result, ok, err, fault}
use zju_portal_core.Control.Calls.{
  Method, hello, session_start, auth_respond, session_stop, session_status, resources_get,
  resources_refresh, services_get, traffic_get, connections_list, connection_close,
  transport_connections_list, routing_mode_get, routing_mode_set, resume_state_get, config_get,
  config_set, config_patch, config_apply, config_reload, other_method, Decoder, ConfigController,
  Manager, CallResult, Info, Response, with_params, with_controller, start_with, call_method, call,
  find_method, methods, raw_params, or_unknown, as_core_error, normalize_id, respond, refuse,
  handle_request, handle_line,
}

-- Parameters that do not decode.
abbrev pub Failed : {A : Type 0} → Error ⊎ A → Type 0
Failed decoded = (e : Error) × (decoded ≡ inl e)

-- The parameters of a method do not decode, or there is no such method.
abbrev pub Undecodable : {V : Type 0} → Decoder V → Method → String → Type 0
Undecodable d hello raw = Failed (d.protocol_version raw)
Undecodable d session_start raw = Failed (d.start_params raw)
Undecodable d auth_respond raw = Failed (d.auth_response raw)
Undecodable d connection_close raw = Failed (d.connection_ids raw)
Undecodable d routing_mode_set raw = Failed (d.routing_params raw)
Undecodable d config_get raw = ⊥
Undecodable d config_reload raw = ⊥
Undecodable d config_set raw = Failed (d.config raw)
Undecodable d config_patch raw = Failed (d.patch raw)
Undecodable d config_apply raw = Failed (d.apply_mode raw)
Undecodable d (other_method name) raw = Unit {0}
Undecodable d _ raw = Failed (d.session_id raw)

-- The codes of a request that is at fault.
abbrev pub IsRefusal : Error → Type 0
IsRefusal e =
    (error_code_of (some e) ≡ invalid_request) ⊎ (error_code_of (some e) ≡ method_not_found)

module _ {W V : Type 0} where
  -- Nothing was done, and the request is refused.
  abbrev pub Refused : W → W × Result Error (CallResult V) → Type 0
  Refused w x = (x.0 ≡ w) × (e : Error) × (x.1 ≡ err e) × IsRefusal e

  with_params-Refused :
      {A : Type 0} (decoded : Error ⊎ A) (f : A → W → W × Result Error (CallResult V)) (w : W)
      → Failed decoded
      → Refused w (with_params decoded f w)
  unfolding with_params error_code_of wrap_error find_coded
  with_params-Refused (inl e) f w h =
      (refl, wrap_error invalid_request "decode request params" false (some e), refl, inl refl)
  with_params-Refused (inr a) f w (e, h) = absurd (ground arith)

  with_controller-Refused :
      (o : Option (ConfigController W V))
      (f : ConfigController W V → W → W × Result Error (CallResult V)) (w : W)
      → ((c : ConfigController W V) → Refused w (f c w))
      → Refused w (with_controller o f w)
  unfolding with_controller error_code_of wrap_error find_coded
  with_controller-Refused none f w h = (refl, _, refl, inr refl)
  with_controller-Refused (some c) f w h = h c

  start_with-Refused :
      (m : Manager W V) (d : Decoder V) (raw : String)
      (o : Option (String → V → W → W × Result Error String)) (w : W)
      → Failed (d.start_params raw)
      → Refused w (start_with m d raw o w)
  unfolding start_with error_code_of wrap_error find_coded
  start_with-Refused m d raw none w h = (refl, _, refl, inr refl)
  start_with-Refused m d raw (some start) w h = with_params-Refused (d.start_params raw) _ w h

  module _ (m : Manager W V) (d : Decoder V) (info : Info) (raw : String) (w : W) where
    call_method-Refused :
        (method : Method) → Undecodable d method raw → Refused w (call_method m d info method raw w)
    unfolding call_method error_code_of wrap_error find_coded
    call_method-Refused hello h = with_params-Refused (d.protocol_version raw) _ w h
    call_method-Refused session_start h = start_with-Refused m d raw m.start_session w h
    call_method-Refused auth_respond h = with_params-Refused (d.auth_response raw) _ w h
    call_method-Refused session_stop h = with_params-Refused (d.session_id raw) _ w h
    call_method-Refused session_status h = with_params-Refused (d.session_id raw) _ w h
    call_method-Refused resources_get h = with_params-Refused (d.session_id raw) _ w h
    call_method-Refused resources_refresh h = with_params-Refused (d.session_id raw) _ w h
    call_method-Refused services_get h = with_params-Refused (d.session_id raw) _ w h
    call_method-Refused traffic_get h = with_params-Refused (d.session_id raw) _ w h
    call_method-Refused connections_list h = with_params-Refused (d.session_id raw) _ w h
    call_method-Refused connection_close h = with_params-Refused (d.connection_ids raw) _ w h
    call_method-Refused transport_connections_list h = with_params-Refused (d.session_id raw) _ w h
    call_method-Refused routing_mode_get h = with_params-Refused (d.session_id raw) _ w h
    call_method-Refused routing_mode_set h = with_params-Refused (d.routing_params raw) _ w h
    call_method-Refused resume_state_get h = with_params-Refused (d.session_id raw) _ w h
    call_method-Refused config_get h = absurd h
    call_method-Refused config_set h =
        with_controller-Refused m.config_controller _ w
          (λ (c : ConfigController W V). with_params-Refused (d.config raw) _ w h)
    call_method-Refused config_patch h =
        with_controller-Refused m.config_controller _ w
          (λ (c : ConfigController W V). with_params-Refused (d.patch raw) _ w h)
    call_method-Refused config_apply h =
        with_controller-Refused m.config_controller _ w
          (λ (c : ConfigController W V). with_params-Refused (d.apply_mode raw) _ w h)
    call_method-Refused config_reload h = absurd h
    call_method-Refused (other_method name) h = (refl, _, refl, inr refl)

  -- A call of a method that the protocol does not have, or with parameters that do not decode as its own, changes
  -- nothing and is refused with INVALID_REQUEST or METHOD_NOT_FOUND.
  pub call-Refused :
      (m : Manager W V) (d : Decoder V) (info : Info) (name raw : String) (w : W)
      → Undecodable d (find_method name methods) (raw_params raw)
      → Refused w (call m d info name raw w)
  unfolding call
  call-Refused m d info name raw w h =
      call_method-Refused m d info (raw_params raw) w (find_method name methods) h

-- The ID that the response to a line has.
abbrev pub reply_id : Error ⊎ (String × String × String) → String
reply_id (inl e) = "null"
reply_id (inr (id, name, params)) = normalize_id id

-- A result, or a `*core.Error`, never both.
abbrev pub IsResponse : {V : Type 0} → String → Response V → Type 0
IsResponse {V = V} id r =
    (r.id ≡ id)
    × (((v : CallResult V) × (r.result ≡ some v) × (r.error ≡ none))
        ⊎ ((e : Error) × (r.result ≡ none) × (r.error ≡ some e) × (find_core_error e ≡ some e)))

find_core_error-core :
    (e core : Error) → find_core_error e ≡ some core → find_core_error core ≡ some core
unfolding find_core_error
find_core_error-core (plain t) core h = absurd (ground arith)
find_core_error-core (wrapf t e) core h = find_core_error-core e core h
find_core_error-core (join a b) core h = elim (Option-cases (find_core_error a)) [
  | inl no_core ↦ find_core_error-core b core (ground (arith, no_core, h))
  | inr (x, has) ↦ find_core_error-core a core (ground (arith, has, h))
]
find_core_error-core (coded c m r) core h = ground arith
find_core_error-core (coded_wrap c m d r e) core h = ground arith

or_unknown-core :
    (e : Error) (o : Option Error)
    → find_core_error e ≡ o
    → find_core_error (or_unknown e o) ≡ some (or_unknown e o)
unfolding or_unknown wrap_error
or_unknown-core e (some core) h = find_core_error-core e core h
or_unknown-core e none h = unfold find_core_error in refl

-- A reply in which nothing was done.
abbrev pub IsRefused : {W V : Type 0} → W → W × Option (Response V) → Type 0
IsRefused {V = V} w x =
    (x.0 ≡ w)
    × (r : Response V) × (e : Error) × (x.1 ≡ some r)
    × (r.error ≡ some e)
    × (error_code_of (some e) ≡ invalid_request)

-- A line that is no request.
abbrev pub IsMalformed : Error ⊎ (String × String × String) → Type 0
IsMalformed (inl e) = Unit {0}
IsMalformed (inr (id, name, params)) = (id ≡ "") ⊎ (name ≡ "")

module _ {W V : Type 0} (m : Manager W V) (d : Decoder V) (info : Info) (w : W) where
  respond-IsResponse :
      (id : String) (x : W × Result Error (CallResult V))
      → x.1 ≢ fault
      → (r : Response V) × ((respond id x).1 ≡ some r) × IsResponse id r
  unfolding respond as_core_error
  respond-IsResponse id (w', ok v) n = (_, refl, (refl, inl (v, refl, refl)))
  respond-IsResponse id (w', err e) n = (
    _,
    refl,
    (refl, inr (as_core_error e, refl, refl, or_unknown-core e (find_core_error e) refl)),
  )
  respond-IsResponse id (w', fault) n = absurd (n refl)

  refuse-IsResponse :
      (id : String) (e : Error)
      → find_core_error e ≡ some e
      → (r : Response V) × ((refuse id e w).1 ≡ some r) × IsResponse id r
  unfolding refuse
  refuse-IsResponse id e h = (_, refl, (refl, inr (e, refl, refl, h)))

  handle_request-IsResponse :
      (decoded : Error ⊎ (String × String × String))
      → ((name params : String) → (call m d info name params w).1 ≢ fault)
      → (r : Response V) × ((handle_request m d info decoded w).1 ≡ some r)
        × IsResponse (reply_id decoded) r
  unfolding handle_request wrap_error find_core_error
  handle_request-IsResponse (inl e) n = refuse-IsResponse "null" _ refl
  handle_request-IsResponse (inr (id, name, params)) n =
      if-cases
        (λ (x : W × Option (Response V)).
          (r : Response V) × (x.1 ≡ some r) × IsResponse (normalize_id id) r)
        (id == "" || name == "")
        (λ (h : (id == "" || name == "") ≡ true). refuse-IsResponse (normalize_id id) _ refl)
        (λ (h : (id == "" || name == "") ≡ false).
          let full : normalize_id id ≡ id = ground (arith, h) in
          subst
            (λ (i : String).
              (r : Response V) × ((respond id (call m d info name params w)).1 ≡ some r)
              × IsResponse i r)
            (sym full) (respond-IsResponse id (call m d info name params w) (n name params)))

  -- Where no method of the manager panics, every line gets a response, with the ID of its request, or `null` if
  -- it has none, and either a result or an error that is a `*core.Error`.
  pub handle_line-IsResponse :
      (line : String)
      → ((name params : String) → (call m d info name params w).1 ≢ fault)
      → (r : Response V) × ((handle_line m d info line w).1 ≡ some r)
        × IsResponse (reply_id (d.request line)) r
  unfolding handle_line
  handle_line-IsResponse line n = handle_request-IsResponse (d.request line) n

  handle_request-IsRefused :
      (decoded : Error ⊎ (String × String × String))
      → IsMalformed decoded
      → IsRefused w (handle_request m d info decoded w)
  unfolding handle_request refuse wrap_error error_code_of find_coded
  handle_request-IsRefused (inl e) h = (refl, _, _, refl, refl, refl)
  handle_request-IsRefused (inr (id, name, params)) h =
      let empty : (id == "" || name == "") ≡ true =
        ground (arith, h, eq_iff id "", eq_iff name "") in
      rw empty (refl, _, _, refl, refl, refl)

  -- A line that is no request, or one without an ID or a method, is answered with INVALID_REQUEST and changes
  -- nothing.
  pub handle_line-IsRefused :
      (line : String) → IsMalformed (d.request line) → IsRefused w (handle_line m d info line w)
  unfolding handle_line
  handle_line-IsRefused line h = handle_request-IsRefused (d.request line) h
