-- ===== src/Control/Rest/Served.antt =====
-- control/rest/server.go: the form of the replies to requests.
use zju_portal_core.Base.{
  refl, not, ◌&&◌, Option, none, some, List, [], ◌∷◌, String, ◌==◌, string_eq, ◌⊎◌, inl, inr, arith,
  if-elim,
}
use zju_portal_core.Core.Error.{Error}
use zju_portal_core.Control.Rest.{
  HttpMethod, get, post, put, patch, delete, other_http_method, Handler, handles_hello,
  handles_sessions, handles_session, handles_auth_response, handles_events, handles_config,
  handles_config_apply, handles_config_reload, Request, Server, session_id_params, call_session,
  handle_part, handle_parts, with_session_id, handle_split, handle_session, handle, authorized,
  same_origin, serve_http, handlers,
}
use zju_portal_core.Control.Rest.Replies.{
  Replies, not_allowed-IsReply, without_store-IsReply, call_context-IsReply,
}
use zju_portal_core.Control.Rest.Handlers.{
  handle_hello-IsReply, handle_sessions-IsReply, handle_auth_response-IsReply,
  handle_events-IsReply, handle_config-IsReply, handle_config_apply-IsReply,
  handle_config_reload-IsReply, handle_one_session-IsReply, handle_connection-IsReply,
  handle_refresh-IsReply, handle_routing-IsReply,
}

module _ {W V : Type 0} (s : Server W V) (w : W) where
  handle_part-IsReply :
      (method : HttpMethod) (part id : String) → Replies method (handle_part s method part id w)
  unfolding handle_part call_session
  handle_part-IsReply get part id =
      let read = λ (name : String).
        call_context-IsReply s w get name (s.library.encode (session_id_params id)) in
      let P = Replies get in
      if-elim P (part == "resources") (read "resources.get") (
        if-elim P (part == "services") (read "services.get") (
          if-elim P (part == "traffic") (read "traffic.get") (
            if-elim P (part == "connections") (read "connections.list") (
              if-elim P (part == "transport-connections") (read "transport_connections.list") (
                if-elim P (part == "resume-state")
                  (without_store-IsReply get _ (read "resume_state.get")) tt)))))
  handle_part-IsReply post part id = not_allowed-IsReply post get [] (λ h. ground arith)
  handle_part-IsReply put part id = not_allowed-IsReply put get [] (λ h. ground arith)
  handle_part-IsReply patch part id = not_allowed-IsReply patch get [] (λ h. ground arith)
  handle_part-IsReply delete part id = not_allowed-IsReply delete get [] (λ h. ground arith)
  handle_part-IsReply (other_http_method x) part id =
      not_allowed-IsReply (other_http_method x) get [] (λ h. ground arith)

  handle_parts-IsReply :
      (parts : List String) (id : String) (request : Request)
      → Replies request.method (handle_parts s parts id request w)
  unfolding handle_parts
  handle_parts-IsReply [] id request = handle_one_session-IsReply s w request.method id
  handle_parts-IsReply (part ∷ []) id request =
      if-elim (Replies request.method) (part == "routing")
        (handle_routing-IsReply s w request.method id request)
        (handle_part-IsReply request.method part id)
  handle_parts-IsReply (part ∷ sub ∷ []) id request =
      if-elim (Replies request.method) (part == "connections")
        (handle_connection-IsReply s w request.method id sub)
        (if-elim (Replies request.method) (part == "resources" && sub == "refresh")
          (handle_refresh-IsReply s w request.method id) tt)
  handle_parts-IsReply (part ∷ sub ∷ _ ∷ _) id request = tt

  with_session_id-IsReply :
      (unescaped : Error ⊎ String) (parts : List String) (request : Request)
      → Replies request.method (with_session_id s unescaped parts request w)
  unfolding with_session_id
  with_session_id-IsReply (inl e) parts request =
      inr (_, omega arith, refl, refl, inl (omega arith, refl))
  with_session_id-IsReply (inr id) parts request = handle_parts-IsReply parts id request

  handle_split-IsReply :
      (parts : List String) (request : Request)
      → Replies request.method (handle_split s parts request w)
  unfolding handle_split
  handle_split-IsReply [] request = tt
  handle_split-IsReply (part ∷ parts) request =
      if-elim (Replies request.method) (part == "") tt
        (with_session_id-IsReply (s.library.path_unescape part) parts request)

  handle-IsReply :
      (found : Option Handler) (request : Request)
      → Replies request.method (handle s found request w)
  unfolding handle handle_session
  handle-IsReply none request = tt
  handle-IsReply (some handles_hello) request = handle_hello-IsReply s w request.method
  handle-IsReply (some handles_sessions) request =
      handle_sessions-IsReply s w request.method request
  handle-IsReply (some handles_session) request = handle_split-IsReply _ request
  handle-IsReply (some handles_auth_response) request =
      handle_auth_response-IsReply s w request.method request
  handle-IsReply (some handles_events) request = handle_events-IsReply s w request.method request
  handle-IsReply (some handles_config) request = handle_config-IsReply s w request.method request
  handle-IsReply (some handles_config_apply) request =
      handle_config_apply-IsReply s w request.method request
  handle-IsReply (some handles_config_reload) request =
      handle_config_reload-IsReply s w request.method

  -- Every JSON reply has either a result and status 200, or an error and a status from 400 on; it names methods in
  -- `Allow` exactly under status 405, and the method of the request is not one of them.
  pub serve_http-IsReply : (request : Request) → Replies request.method (serve_http s request w)
  unfolding serve_http
  serve_http-IsReply request =
      if-elim (Replies request.method) (not (authorized s request))
        (inr (_, omega arith, refl, refl, inl (omega arith, refl)))
        (if-elim (Replies request.method) (not (same_origin s request))
          (inr (_, omega arith, refl, refl, inl (omega arith, refl)))
          (handle-IsReply (s.library.mux handlers request.path) request))
