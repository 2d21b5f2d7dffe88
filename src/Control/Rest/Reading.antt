-- ===== src/Control/Rest/Reading.antt =====
-- control/rest/server.go: which requests can change the state of the manager.
use zju_portal_core.Base.{
  ◌≡◌, refl, sym, subst, ◌∙◌, not, ◌&&◌, Option, none, some, List, [], ◌∷◌, String, ◌==◌, string_eq,
  ◌⊎◌, inl, inr, if◌then◌else◌, if-elim,
}
use zju_portal_core.Core.Error.{Error}
use zju_portal_core.Stream.{Result, ok, err, fault}
use zju_portal_core.Control.Calls.{
  Method, hello, session_start, auth_respond, session_stop, session_status, resources_get,
  resources_refresh, services_get, traffic_get, connections_list, connection_close,
  transport_connections_list, routing_mode_get, routing_mode_set, resume_state_get, config_get,
  config_set, config_patch, config_apply, config_reload, other_method, Decoder, ConfigController,
  Manager, CallResult, Info, with_params, with_controller, found_status, call_method, call,
  find_method, methods, raw_params, protocol_version,
}
use zju_portal_core.Control.Rest.{
  HttpMethod, get, Handler, handles_hello, handles_sessions, handles_session, handles_auth_response,
  handles_events, handles_config, handles_config_apply, handles_config_reload, Request, Server,
  Reply, hello_params, session_id_params, replied, call_context, handle_hello, handle_sessions,
  handle_auth_response, handle_events, handle_config, handle_config_apply, handle_config_reload,
  call_session, handle_one_session, handle_connection, handle_refresh, handle_routing, handle_part,
  handle_parts, with_session_id, handle_split, handle_session, handle, authorized, same_origin,
  serve_http, handlers,
}

-- The methods that only read.
abbrev IsQuery : Method → Type 0
IsQuery hello = Unit {0}
IsQuery session_status = Unit {0}
IsQuery resources_get = Unit {0}
IsQuery services_get = Unit {0}
IsQuery traffic_get = Unit {0}
IsQuery connections_list = Unit {0}
IsQuery transport_connections_list = Unit {0}
IsQuery routing_mode_get = Unit {0}
IsQuery resume_state_get = Unit {0}
IsQuery config_get = Unit {0}
IsQuery _ = ⊥

module _ {W V : Type 0} where
  with_params-keeps :
      {A : Type 0} (decoded : Error ⊎ A) (f : A → W → W × Result Error (CallResult V)) (w : W)
      → ((a : A) → (f a w).0 ≡ w)
      → (with_params decoded f w).0 ≡ w
  unfolding with_params
  with_params-keeps (inl e) f w h = refl
  with_params-keeps (inr a) f w h = h a

  with_controller-keeps :
      (o : Option (ConfigController W V))
      (f : ConfigController W V → W → W × Result Error (CallResult V)) (w : W)
      → ((c : ConfigController W V) → (f c w).0 ≡ w)
      → (with_controller o f w).0 ≡ w
  unfolding with_controller
  with_controller-keeps none f w h = refl
  with_controller-keeps (some c) f w h = h c

  found_status-keeps : (w : W) (found : String × V) → (found_status w found).0 ≡ w
  unfolding found_status
  found_status-keeps w (id, status) =
      if-elim (λ (x : W × Result Error (CallResult V)). x.0 ≡ w) (id == "") refl refl

  call_method-keeps :
      (m : Manager W V) (d : Decoder V) (info : Info) (method : Method) (raw : String) (w : W)
      → IsQuery method
      → (call_method m d info method raw w).0 ≡ w
  unfolding call_method
  call_method-keeps m d info hello raw w q =
      with_params-keeps (d.protocol_version raw) _ w
        (λ n. if-elim (λ (x : W × Result Error (CallResult V)). x.0 ≡ w) _ refl refl)
  call_method-keeps m d info session_status raw w q =
      with_params-keeps (d.session_id raw) _ w (λ id. found_status-keeps w (m.status id w))
  call_method-keeps m d info resources_get raw w q =
      with_params-keeps (d.session_id raw) _ w (λ id. refl)
  call_method-keeps m d info services_get raw w q =
      with_params-keeps (d.session_id raw) _ w (λ id. refl)
  call_method-keeps m d info traffic_get raw w q =
      with_params-keeps (d.session_id raw) _ w (λ id. refl)
  call_method-keeps m d info connections_list raw w q =
      with_params-keeps (d.session_id raw) _ w (λ id. refl)
  call_method-keeps m d info transport_connections_list raw w q =
      with_params-keeps (d.session_id raw) _ w (λ id. refl)
  call_method-keeps m d info routing_mode_get raw w q =
      with_params-keeps (d.session_id raw) _ w (λ id. refl)
  call_method-keeps m d info resume_state_get raw w q =
      with_params-keeps (d.session_id raw) _ w (λ id. refl)
  call_method-keeps m d info config_get raw w q =
      with_controller-keeps m.config_controller _ w (λ c. refl)
  call_method-keeps m d info session_start raw w q = absurd q
  call_method-keeps m d info auth_respond raw w q = absurd q
  call_method-keeps m d info session_stop raw w q = absurd q
  call_method-keeps m d info resources_refresh raw w q = absurd q
  call_method-keeps m d info connection_close raw w q = absurd q
  call_method-keeps m d info routing_mode_set raw w q = absurd q
  call_method-keeps m d info config_set raw w q = absurd q
  call_method-keeps m d info config_patch raw w q = absurd q
  call_method-keeps m d info config_apply raw w q = absurd q
  call_method-keeps m d info config_reload raw w q = absurd q
  call_method-keeps m d info (other_method name) raw w q = absurd q

  replied-keeps : (x : W × Result Error (CallResult V)) → (replied x).0 ≡ x.0
  unfolding replied
  replied-keeps (w, ok v) = refl
  replied-keeps (w, err e) = refl
  replied-keeps (w, fault) = refl

module _ {W V : Type 0} (s : Server W V) (w : W) where
  call_context-keeps :
      (name raw : String) → IsQuery (find_method name methods) → (call_context s name raw w).0 ≡ w
  unfolding call_context call
  call_context-keeps name raw q =
      replied-keeps (call s.manager s.decoder s.info name raw w)
      ∙ call_method-keeps s.manager s.decoder s.info (find_method name methods) (raw_params raw) w q

  handle_part-keeps : (part id : String) → (handle_part s get part id w).0 ≡ w
  unfolding handle_part call_session find_method
  handle_part-keeps part id =
      let read = λ (name : String) (q : IsQuery (find_method name methods)).
        call_context-keeps name (s.library.encode (session_id_params id)) q in
      let P = λ (x : W × Reply V). x.0 ≡ w in
      if-elim P (part == "resources") (read "resources.get" tt) (
        if-elim P (part == "services") (read "services.get" tt) (
          if-elim P (part == "traffic") (read "traffic.get" tt) (
            if-elim P (part == "connections") (read "connections.list" tt) (
              if-elim P (part == "transport-connections") (read "transport_connections.list" tt)
                (if-elim P (part == "resume-state") (read "resume_state.get" tt) refl)))))

  session_part-keeps :
      (request : Request) (part id : String)
      → (if part == "routing"
          then handle_routing s get id request w
          else handle_part s get part id w).0
        ≡ w
  unfolding handle_routing call_session find_method
  session_part-keeps request part id =
      if-elim (λ (x : W × Reply V). x.0 ≡ w) (part == "routing")
        (call_context-keeps "routing.mode.get" (s.library.encode (session_id_params id)) tt)
        (handle_part-keeps part id)

  handle_parts-keeps :
      (parts : List String) (id : String) (request : Request)
      → request.method ≡ get
      → (handle_parts s parts id request w).0 ≡ w
  unfolding handle_parts handle_one_session call_session find_method handle_connection
      handle_refresh
  handle_parts-keeps [] id request h =
      subst (λ (x : HttpMethod). (handle_one_session s x id w).0 ≡ w) (sym h)
        (call_context-keeps "session.status" (s.library.encode (session_id_params id)) tt)
  handle_parts-keeps (part ∷ []) id request h =
      subst
        (λ (x : HttpMethod).
          (if part == "routing"
            then handle_routing s x id request w
            else handle_part s x part id w).0
          ≡ w)
        (sym h) (session_part-keeps request part id)
  handle_parts-keeps (part ∷ sub ∷ []) id request h =
      let P = λ (x : W × Reply V). x.0 ≡ w in
      if-elim P (part == "connections")
        (subst (λ (x : HttpMethod). (handle_connection s x id sub w).0 ≡ w) (sym h) refl)
        (if-elim P (part == "resources" && sub == "refresh")
          (subst (λ (x : HttpMethod). (handle_refresh s x id w).0 ≡ w) (sym h) refl) refl)
  handle_parts-keeps (part ∷ sub ∷ _ ∷ _) id request h = refl

  with_session_id-keeps :
      (unescaped : Error ⊎ String) (parts : List String) (request : Request)
      → request.method ≡ get
      → (with_session_id s unescaped parts request w).0 ≡ w
  unfolding with_session_id
  with_session_id-keeps (inl e) parts request h = refl
  with_session_id-keeps (inr id) parts request h = handle_parts-keeps parts id request h

  handle_split-keeps :
      (parts : List String) (request : Request)
      → request.method ≡ get
      → (handle_split s parts request w).0 ≡ w
  unfolding handle_split
  handle_split-keeps [] request h = refl
  handle_split-keeps (part ∷ parts) request h =
      if-elim (λ (x : W × Reply V). x.0 ≡ w) (part == "") refl
        (with_session_id-keeps (s.library.path_unescape part) parts request h)

  handle_events-keeps : (request : Request) → (handle_events s get request w).0 ≡ w
  unfolding handle_events
  handle_events-keeps request = if-elim (λ (x : W × Reply V). x.0 ≡ w) request.has_flusher refl refl

  handle-keeps :
      (found : Option Handler) (request : Request)
      → request.method ≡ get
      → (handle s found request w).0 ≡ w
  unfolding handle handle_hello handle_sessions handle_auth_response handle_config
      handle_config_apply handle_config_reload handle_session find_method
  handle-keeps none request h = refl
  handle-keeps (some handles_hello) request h =
      subst (λ (x : HttpMethod). (handle_hello s x w).0 ≡ w) (sym h)
        (call_context-keeps "hello" (s.library.encode (hello_params protocol_version)) tt)
  handle-keeps (some handles_sessions) request h =
      subst (λ (x : HttpMethod). (handle_sessions s x request w).0 ≡ w) (sym h) refl
  handle-keeps (some handles_session) request h = handle_split-keeps _ request h
  handle-keeps (some handles_auth_response) request h =
      subst (λ (x : HttpMethod). (handle_auth_response s x request w).0 ≡ w) (sym h) refl
  handle-keeps (some handles_events) request h =
      subst (λ (x : HttpMethod). (handle_events s x request w).0 ≡ w) (sym h)
        (handle_events-keeps request)
  handle-keeps (some handles_config) request h =
      subst (λ (x : HttpMethod). (handle_config s x request w).0 ≡ w) (sym h)
        (call_context-keeps "config.get" "" tt)
  handle-keeps (some handles_config_apply) request h =
      subst (λ (x : HttpMethod). (handle_config_apply s x request w).0 ≡ w) (sym h) refl
  handle-keeps (some handles_config_reload) request h =
      subst (λ (x : HttpMethod). (handle_config_reload s x w).0 ≡ w) (sym h) refl

  -- A request by GET changes nothing of the manager, whatever its path, and whether it is admitted or not.
  pub serve_http-get : (request : Request) → request.method ≡ get → (serve_http s request w).0 ≡ w
  unfolding serve_http
  serve_http-get request h =
      let P = λ (x : W × Reply V). x.0 ≡ w in
      if-elim P (not (authorized s request)) refl (
        if-elim P (not (same_origin s request)) refl
          (handle-keeps (s.library.mux handlers request.path) request h))
