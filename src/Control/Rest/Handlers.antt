-- ===== src/Control/Rest/Handlers.antt =====
-- control/rest/server.go: the form of the replies of the handlers.
use zju_portal_core.Base.{refl, [], ◌∷◌, String, string_eq, inl, inr, arith, if-elim}
use zju_portal_core.Control.Rest.{
  HttpMethod, get, post, put, patch, delete, other_http_method, Request, Server, handle_hello,
  handle_sessions, handle_auth_response, handle_events, handle_config, handle_config_apply,
  handle_config_reload, call_session, handle_one_session, handle_connection, handle_refresh,
  handle_routing,
}
use zju_portal_core.Control.Rest.Replies.{
  Replies, not_allowed-IsReply, call_context-IsReply, call_with_body-IsReply,
  close_unescaped-IsReply,
}

module _ {W V : Type 0} (s : Server W V) (w : W) where
  pub handle_hello-IsReply : (method : HttpMethod) → Replies method (handle_hello s method w)
  unfolding handle_hello
  handle_hello-IsReply get = call_context-IsReply s w get "hello" _
  handle_hello-IsReply post = not_allowed-IsReply post get [] (λ h. ground arith)
  handle_hello-IsReply put = not_allowed-IsReply put get [] (λ h. ground arith)
  handle_hello-IsReply patch = not_allowed-IsReply patch get [] (λ h. ground arith)
  handle_hello-IsReply delete = not_allowed-IsReply delete get [] (λ h. ground arith)
  handle_hello-IsReply (other_http_method x) =
      not_allowed-IsReply (other_http_method x) get [] (λ h. ground arith)

  pub handle_sessions-IsReply :
      (method : HttpMethod) (request : Request)
      → Replies method (handle_sessions s method request w)
  unfolding handle_sessions
  handle_sessions-IsReply get request = not_allowed-IsReply get post [] (λ h. ground arith)
  handle_sessions-IsReply post request = call_with_body-IsReply s w post _ _ "session.start" request
  handle_sessions-IsReply put request = not_allowed-IsReply put post [] (λ h. ground arith)
  handle_sessions-IsReply patch request = not_allowed-IsReply patch post [] (λ h. ground arith)
  handle_sessions-IsReply delete request = not_allowed-IsReply delete post [] (λ h. ground arith)
  handle_sessions-IsReply (other_http_method x) request =
      not_allowed-IsReply (other_http_method x) post [] (λ h. ground arith)

  pub handle_auth_response-IsReply :
      (method : HttpMethod) (request : Request)
      → Replies method (handle_auth_response s method request w)
  unfolding handle_auth_response
  handle_auth_response-IsReply get request = not_allowed-IsReply get post [] (λ h. ground arith)
  handle_auth_response-IsReply post request =
      call_with_body-IsReply s w post _ _ "auth.respond" request
  handle_auth_response-IsReply put request = not_allowed-IsReply put post [] (λ h. ground arith)
  handle_auth_response-IsReply patch request = not_allowed-IsReply patch post [] (λ h. ground arith)
  handle_auth_response-IsReply delete request =
      not_allowed-IsReply delete post [] (λ h. ground arith)
  handle_auth_response-IsReply (other_http_method x) request =
      not_allowed-IsReply (other_http_method x) post [] (λ h. ground arith)

  pub handle_events-IsReply :
      (method : HttpMethod) (request : Request) → Replies method (handle_events s method request w)
  unfolding handle_events
  handle_events-IsReply get request =
      if-elim (Replies get) request.has_flusher tt
        (inr (_, omega arith, refl, refl, inl (omega arith, refl)))
  handle_events-IsReply post request = not_allowed-IsReply post get [] (λ h. ground arith)
  handle_events-IsReply put request = not_allowed-IsReply put get [] (λ h. ground arith)
  handle_events-IsReply patch request = not_allowed-IsReply patch get [] (λ h. ground arith)
  handle_events-IsReply delete request = not_allowed-IsReply delete get [] (λ h. ground arith)
  handle_events-IsReply (other_http_method x) request =
      not_allowed-IsReply (other_http_method x) get [] (λ h. ground arith)

  pub handle_config-IsReply :
      (method : HttpMethod) (request : Request) → Replies method (handle_config s method request w)
  unfolding handle_config
  handle_config-IsReply get request = call_context-IsReply s w get "config.get" ""
  handle_config-IsReply post request =
      not_allowed-IsReply post get (put ∷ patch ∷ []) (λ h. ground arith)
  handle_config-IsReply put request = call_with_body-IsReply s w put _ _ "config.set" request
  handle_config-IsReply patch request = call_with_body-IsReply s w patch _ _ "config.patch" request
  handle_config-IsReply delete request =
      not_allowed-IsReply delete get (put ∷ patch ∷ []) (λ h. ground arith)
  handle_config-IsReply (other_http_method x) request =
      not_allowed-IsReply (other_http_method x) get (put ∷ patch ∷ []) (λ h. ground arith)

  pub handle_config_apply-IsReply :
      (method : HttpMethod) (request : Request)
      → Replies method (handle_config_apply s method request w)
  unfolding handle_config_apply
  handle_config_apply-IsReply get request = not_allowed-IsReply get post [] (λ h. ground arith)
  handle_config_apply-IsReply post request =
      call_with_body-IsReply s w post _ _ "config.apply" request
  handle_config_apply-IsReply put request = not_allowed-IsReply put post [] (λ h. ground arith)
  handle_config_apply-IsReply patch request = not_allowed-IsReply patch post [] (λ h. ground arith)
  handle_config_apply-IsReply delete request =
      not_allowed-IsReply delete post [] (λ h. ground arith)
  handle_config_apply-IsReply (other_http_method x) request =
      not_allowed-IsReply (other_http_method x) post [] (λ h. ground arith)

  pub handle_config_reload-IsReply :
      (method : HttpMethod) → Replies method (handle_config_reload s method w)
  unfolding handle_config_reload
  handle_config_reload-IsReply get = not_allowed-IsReply get post [] (λ h. ground arith)
  handle_config_reload-IsReply post = call_context-IsReply s w post "config.reload" ""
  handle_config_reload-IsReply put = not_allowed-IsReply put post [] (λ h. ground arith)
  handle_config_reload-IsReply patch = not_allowed-IsReply patch post [] (λ h. ground arith)
  handle_config_reload-IsReply delete = not_allowed-IsReply delete post [] (λ h. ground arith)
  handle_config_reload-IsReply (other_http_method x) =
      not_allowed-IsReply (other_http_method x) post [] (λ h. ground arith)

  pub handle_one_session-IsReply :
      (method : HttpMethod) (id : String) → Replies method (handle_one_session s method id w)
  unfolding handle_one_session call_session
  handle_one_session-IsReply get id = call_context-IsReply s w get "session.status" _
  handle_one_session-IsReply post id =
      not_allowed-IsReply post get (delete ∷ []) (λ h. ground arith)
  handle_one_session-IsReply put id = not_allowed-IsReply put get (delete ∷ []) (λ h. ground arith)
  handle_one_session-IsReply patch id =
      not_allowed-IsReply patch get (delete ∷ []) (λ h. ground arith)
  handle_one_session-IsReply delete id = call_context-IsReply s w delete "session.stop" _
  handle_one_session-IsReply (other_http_method x) id =
      not_allowed-IsReply (other_http_method x) get (delete ∷ []) (λ h. ground arith)

  pub handle_connection-IsReply :
      (method : HttpMethod) (id part : String)
      → Replies method (handle_connection s method id part w)
  unfolding handle_connection
  handle_connection-IsReply get id part = not_allowed-IsReply get delete [] (λ h. ground arith)
  handle_connection-IsReply post id part = not_allowed-IsReply post delete [] (λ h. ground arith)
  handle_connection-IsReply put id part = not_allowed-IsReply put delete [] (λ h. ground arith)
  handle_connection-IsReply patch id part = not_allowed-IsReply patch delete [] (λ h. ground arith)
  handle_connection-IsReply delete id part =
      close_unescaped-IsReply s w delete id (s.library.path_unescape part)
  handle_connection-IsReply (other_http_method x) id part =
      not_allowed-IsReply (other_http_method x) delete [] (λ h. ground arith)

  pub handle_refresh-IsReply :
      (method : HttpMethod) (id : String) → Replies method (handle_refresh s method id w)
  unfolding handle_refresh call_session
  handle_refresh-IsReply get id = not_allowed-IsReply get post [] (λ h. ground arith)
  handle_refresh-IsReply post id = call_context-IsReply s w post "resources.refresh" _
  handle_refresh-IsReply put id = not_allowed-IsReply put post [] (λ h. ground arith)
  handle_refresh-IsReply patch id = not_allowed-IsReply patch post [] (λ h. ground arith)
  handle_refresh-IsReply delete id = not_allowed-IsReply delete post [] (λ h. ground arith)
  handle_refresh-IsReply (other_http_method x) id =
      not_allowed-IsReply (other_http_method x) post [] (λ h. ground arith)

  pub handle_routing-IsReply :
      (method : HttpMethod) (id : String) (request : Request)
      → Replies method (handle_routing s method id request w)
  unfolding handle_routing call_session
  handle_routing-IsReply get id request = call_context-IsReply s w get "routing.mode.get" _
  handle_routing-IsReply post id request =
      not_allowed-IsReply post get (put ∷ []) (λ h. ground arith)
  handle_routing-IsReply put id request =
      call_with_body-IsReply s w put _ _ "routing.mode.set" request
  handle_routing-IsReply patch id request =
      not_allowed-IsReply patch get (put ∷ []) (λ h. ground arith)
  handle_routing-IsReply delete id request =
      not_allowed-IsReply delete get (put ∷ []) (λ h. ground arith)
  handle_routing-IsReply (other_http_method x) id request =
      not_allowed-IsReply (other_http_method x) get (put ∷ []) (λ h. ground arith)
