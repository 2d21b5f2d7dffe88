-- ===== src/Control/Rest/Replies.antt =====
-- control/rest/server.go: the form of a reply, and what keeps to it.
use zju_portal_core.Base.{
  ◌≡◌, ◌≢◌, refl, ℕ, ◌≤◌, Bool, true, not, ◌&&◌, none, some, List, [], ◌∷◌, String, string_eq, ◌⊎◌,
  inl, inr, arith, leb, nat_beq,
}
use zju_portal_core.Core.Error.{
  Error, ErrorCode, invalid_request, error_code_of, unknown, resource_data_read_failed,
  client_data_write_failed, atrust_setup_failed, invalid_state_transition, auth_challenge_invalid,
  auth_response_invalid, auth_handler_unavailable, session_start_failed, session_already_running,
  session_reconnect_failed, session_close_failed, method_not_found, protocol_unsupported,
  session_not_found, session_not_ready, resources_unavailable, network_setup_failed,
  outbound_unavailable, auth_challenge_not_found, connection_not_found, resume_state_invalid,
  resume_state_scope, resume_state_unavailable, config_invalid, config_unavailable,
  restart_required, address_in_use, permission_denied, tun_unavailable, interface_unavailable,
  route_setup_failed, dns_start_failed,
}
use zju_portal_core.Stream.{Result, ok, err, fault}
use zju_portal_core.Control.Calls.{CallResult, call, as_core_error}
use zju_portal_core.Control.Rest.{
  HttpMethod, Request, Server, Envelope, Reply, json_reply, not_found_page, mux_reply, event_stream,
  aborted, Target, Params, method_not_allowed, without_store, status_for_error, replied,
  call_context, with_body, decoded_first, call_with_body, close_unescaped,
}

-- A result under 200; or an error under a status from 400 on, with the methods that the path takes, of which that of
-- the request is none, exactly under 405.
abbrev pub IsMember : HttpMethod → List HttpMethod → Type 0
IsMember x [] = ⊥
IsMember x (y ∷ ys) = (y ≡ x) ⊎ IsMember x ys

abbrev pub IsEnvelope : {V : Type 0} → HttpMethod → Envelope V → Type 0
IsEnvelope {V = V} method e =
    (((v : CallResult V) × (e.status ≡ 200)
        × (e.result ≡ some v)
        × (e.error ≡ none)
        × (e.allow ≡ []))
      ⊎ ((x : Error) × (400 ≤ e.status)
          × (e.result ≡ none)
          × (e.error ≡ some x)
          × ((e.status ≢ 405) × (e.allow ≡ [])
              ⊎ (e.status ≡ 405) × (e.allow ≢ []) × ¬ IsMember method e.allow)))

abbrev pub IsReply : {V : Type 0} → HttpMethod → Reply V → Type 0
IsReply method (json_reply e) = IsEnvelope method e
IsReply method _ = Unit {0}

-- A status from 400 on that is not 405.
abbrev is_failure : ℕ → Bool
is_failure n = leb 400 n && not (nat_beq n 405)

status_for_error-is_failure : (c : ErrorCode) → is_failure (status_for_error c) ≡ true
unfolding status_for_error
status_for_error-is_failure invalid_request = refl
status_for_error-is_failure unknown = refl
status_for_error-is_failure resource_data_read_failed = refl
status_for_error-is_failure client_data_write_failed = refl
status_for_error-is_failure atrust_setup_failed = refl
status_for_error-is_failure invalid_state_transition = refl
status_for_error-is_failure auth_challenge_invalid = refl
status_for_error-is_failure auth_response_invalid = refl
status_for_error-is_failure auth_handler_unavailable = refl
status_for_error-is_failure session_start_failed = refl
status_for_error-is_failure session_already_running = refl
status_for_error-is_failure session_reconnect_failed = refl
status_for_error-is_failure session_close_failed = refl
status_for_error-is_failure method_not_found = refl
status_for_error-is_failure protocol_unsupported = refl
status_for_error-is_failure session_not_found = refl
status_for_error-is_failure session_not_ready = refl
status_for_error-is_failure resources_unavailable = refl
status_for_error-is_failure network_setup_failed = refl
status_for_error-is_failure outbound_unavailable = refl
status_for_error-is_failure auth_challenge_not_found = refl
status_for_error-is_failure connection_not_found = refl
status_for_error-is_failure resume_state_invalid = refl
status_for_error-is_failure resume_state_scope = refl
status_for_error-is_failure resume_state_unavailable = refl
status_for_error-is_failure config_invalid = refl
status_for_error-is_failure config_unavailable = refl
status_for_error-is_failure restart_required = refl
status_for_error-is_failure address_in_use = refl
status_for_error-is_failure permission_denied = refl
status_for_error-is_failure tun_unavailable = refl
status_for_error-is_failure interface_unavailable = refl
status_for_error-is_failure route_setup_failed = refl
status_for_error-is_failure dns_start_failed = refl

status_for_error-bound : (c : ErrorCode) → (400 ≤ status_for_error c) × (status_for_error c ≢ 405)
status_for_error-bound c = ground (arith, status_for_error-is_failure c)

abbrev pub Replies : {W V : Type 0} → HttpMethod → W × Reply V → Type 0
Replies method x = IsReply method x.1

module _ {V : Type 0} where
  pub not_allowed-IsReply :
      (method allowed : HttpMethod) (more : List HttpMethod)
      → ¬ IsMember method (allowed ∷ more)
      → IsReply {V = V} method (method_not_allowed (allowed ∷ more))
  not_allowed-IsReply method allowed more h =
      inr (_, omega arith, refl, refl, inr (refl, λ e. absurd (ground arith), h))

  pub without_store-IsReply :
      (method : HttpMethod) (reply : Reply V)
      → IsReply method reply
      → IsReply method (without_store reply)
  unfolding without_store
  without_store-IsReply method (json_reply e) h = h
  without_store-IsReply method not_found_page h = tt
  without_store-IsReply method mux_reply h = tt
  without_store-IsReply method event_stream h = tt
  without_store-IsReply method aborted h = tt

module _ {W V : Type 0} where
  replied-IsReply :
      (method : HttpMethod) (x : W × Result Error (CallResult V)) → IsReply method (replied x).1
  unfolding replied
  replied-IsReply method (w, ok v) = inl (v, refl, refl, refl, refl)
  replied-IsReply method (w, err e) =
      let (big, other) = status_for_error-bound (error_code_of (some (as_core_error e))) in
      inr (as_core_error e, big, refl, refl, inl (other, refl))
  replied-IsReply method (w, fault) = tt

module _ {W V : Type 0} (s : Server W V) (w : W) where
  with_body-IsReply :
      (method : HttpMethod) (decoded : Error ⊎ V) (f : V → W → W × Reply V)
      → ((v : V) → Replies method (f v w))
      → Replies method (with_body s decoded f w)
  unfolding with_body
  with_body-IsReply method (inl e) f h = inr (_, omega arith, refl, refl, inl (omega arith, refl))
  with_body-IsReply method (inr v) f h = h v

  pub call_context-IsReply :
      (method : HttpMethod) (name raw : String) → Replies method (call_context s name raw w)
  unfolding call_context
  call_context-IsReply method name raw =
      replied-IsReply method (call s.manager s.decoder s.info name raw w)

  pub call_with_body-IsReply :
      (method : HttpMethod) (target : Target) (params : V → Params V) (name : String)
      (request : Request)
      → Replies method (call_with_body s target params name request w)
  unfolding call_with_body
  call_with_body-IsReply method target params name request =
      with_body-IsReply method (decoded_first s (s.library.decode_first target request.body)) _
        (λ v. call_context-IsReply method name (s.library.encode (params v)))

  pub close_unescaped-IsReply :
      (method : HttpMethod) (id : String) (unescaped : Error ⊎ String)
      → Replies method (close_unescaped s id unescaped w)
  unfolding close_unescaped
  close_unescaped-IsReply method id (inl e) =
      inr (_, omega arith, refl, refl, inl (omega arith, refl))
  close_unescaped-IsReply method id (inr connection) =
      call_context-IsReply method "connection.close" _
