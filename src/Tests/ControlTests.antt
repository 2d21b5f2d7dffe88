-- ===== src/Tests/ControlTests.antt =====
-- Runs of the models of control/v1/ at concrete inputs.
use zju_portal_core.Base.{
  ℕ, ◌+◌, ◌≡◌, ◌≢◌, refl, false, none, some, List, [], ◌∷◌, ◌++◌, String, ◌==◌, string_eq, nat_eq,
  ◌⊎◌, inl, inr, arith, if◌then◌else◌, ℤ,
}
use zju_portal_core.Base.Map.{lookup, insert, IsMap}
use zju_portal_core.Core.Error.{Error, plain}
use zju_portal_core.Core.State.{ready}
use zju_portal_core.Stream.{Result, ok, err, fault}
use zju_portal_core.Control.{
  Event, EventType, auth_required, auth_completed, Channel, Service, new_service, broadcast,
  subscribe, snapshot, taking, update_pending_auth, update_by_type, add_challenge, receive,
  receive_from,
}
use zju_portal_core.Control.Channels.{Follows, here, next, broadcasts, receives}
use zju_portal_core.Control.Delivery.{Follows-IsService, subscribe-sent}
use zju_portal_core.Control.Pending.{IsPending, after_event, lookup-update_pending_auth}
use zju_portal_core.Control.Waiting.{Follows-IsPending}
use zju_portal_core.Control.Calls.{
  Method, hello, session_start, auth_respond, session_stop, session_status, resources_get,
  resources_refresh, services_get, traffic_get, connections_list, connection_close,
  transport_connections_list, routing_mode_get, routing_mode_set, resume_state_get, config_get,
  config_set, config_patch, config_apply, config_reload, other_method, Decoder, Manager, CallResult,
  Info, call, call_method, find_method, with_params, done_with, passed_on, methods, raw_params,
  start_with, with_controller, found_status, mode_result,
}
use zju_portal_core.Control.Calls.Replies.{Refused, Undecodable, call-Refused}

abbrev challenge : String → EventType → Event ℕ
challenge id t = record {
  session_id = "s1";
  event_type = t;
  state = ready;
  auth = some id;
  payload = 0;
}

-- One challenge waits.
abbrev waiting : Service ℕ
waiting = broadcast (challenge "c1" auth_required) new_service

abbrev one_sent : Follows new_service waiting (challenge "c1" auth_required ∷ [])
one_sent = next here (broadcasts (challenge "c1" auth_required))

Follows-IsPending_example : IsPending waiting.pending_auth
Follows-IsPending_example = Follows-IsPending one_sent

abbrev channel_one : Channel ℕ
channel_one = record { received = []; buffered = challenge "c1" auth_required ∷ [] }

abbrev subscribed : Service ℕ
subscribed = record waiting { next_event_id = 1; subscribers = (1, channel_one) ∷ [] }

waiting-subscribe : subscribe waiting ≡ some (subscribed, 1)
unfolding subscribe broadcast new_service taking update_pending_auth update_by_type add_challenge
    insert snapshot
waiting-subscribe = refl

-- The reader takes the challenge out, and the answer to it is sent.
abbrev answered_once : Service ℕ
answered_once = broadcast (challenge "c1" auth_completed) (receive 1 subscribed)

abbrev channel_two : Channel ℕ
channel_two = record {
  received = challenge "c1" auth_required ∷ [];
  buffered = challenge "c1" auth_completed ∷ [];
}

answered-lookup : lookup 1 answered_once.subscribers ≡ some channel_two
unfolding broadcast receive receive_from taking lookup insert
answered-lookup = refl

subscribe-sent_example :
    channel_two.received ++ channel_two.buffered
    ≡ snapshot waiting.pending_auth ++ (([] ++ []) ++ (challenge "c1" auth_completed ∷ []))
subscribe-sent_example =
    subscribe-sent (Follows-IsService one_sent) waiting-subscribe
      (next (next here (receives 1)) (broadcasts (challenge "c1" auth_completed))) answered-lookup

abbrev one_pending : List (String × Event ℕ)
one_pending = ("c1", challenge "c1" auth_required) ∷ []

one_pending-IsMap : IsMap one_pending
unfolding lookup
one_pending-IsMap = (refl, tt)

lookup-update_pending_auth_example :
    lookup "c1" (update_pending_auth (challenge "c1" auth_completed) one_pending)
    ≡ after_event (challenge "c1" auth_completed) "c1" (lookup "c1" one_pending)
lookup-update_pending_auth_example =
    lookup-update_pending_auth (challenge "c1" auth_completed) "c1" one_pending one_pending-IsMap

-- A manager that counts what it is asked to change.
abbrev pub manager : Manager ℕ String
manager = record {
  config_controller = none;
  start_session = none;
  respond_auth = λ v n. (n + 1, none);
  stop = λ id n. (n + 1, none);
  status = λ id n. (id, "ready");
  resources = λ id n. ok "resources";
  refresh_resources = λ id n. (n + 1, ok "resources");
  services = λ id n. ok "services";
  traffic_stats = λ id n. ok "traffic";
  connections = λ id n. ok "connections";
  close_connection = λ id c n. (n + 1, none);
  transport_connections = λ id n. ok "transport";
  routing_mode = λ id n. ok "rule";
  set_routing_mode = λ id mode n. (n + 1, none);
  resume_state = λ id n. err (plain "no resume state");
  revision = λ v. (0, false);
}

abbrev text_or : {A : Type 0} → (String → A) → String → Error ⊎ A
text_or f raw = if raw == "bad" then inl (plain "unexpected character") else inr (f raw)

abbrev pub decoder : Decoder String
decoder = record {
  request = text_or (λ line. ("1", line, "bad"));
  protocol_version = text_or (λ raw. ℤ.pos 2);
  start_params = text_or (λ raw. (raw, raw));
  auth_response = text_or (λ raw. raw);
  session_id = text_or (λ raw. raw);
  connection_ids = text_or (λ raw. (raw, raw));
  routing_params = text_or (λ raw. (raw, raw));
  config = text_or (λ raw. raw);
  patch = text_or (λ raw. raw);
  apply_mode = text_or (λ raw. raw);
}

abbrev pub info : Info
info = record { core_version = "1"; capabilities = []; show_int = λ n. "n"; quote = λ s. s }

bad_params : Undecodable decoder (find_method "session.stop" methods) (raw_params "bad")
unfolding find_method
bad_params = (plain "unexpected character", refl)

call-Refused_example : Refused 4 (call manager decoder info "session.stop" "bad" 4)
call-Refused_example = call-Refused manager decoder info "session.stop" "bad" 4 bad_params

with_params_returns :
    {A : Type 0} (x : Error ⊎ A) (f : A → ℕ → ℕ × Result Error (CallResult String)) (n : ℕ)
    → ((a : A) → (f a n).1 ≢ fault)
    → (with_params x f n).1 ≢ fault
unfolding with_params
with_params_returns (inl e) f n h = λ g. absurd (ground arith)
with_params_returns (inr a) f n h = h a

manager_returns :
    (method : Method) (raw : String) (n : ℕ)
    → (call_method manager decoder info method raw n).1 ≢ fault
unfolding call_method start_with with_controller done_with passed_on found_status mode_result
manager_returns hello raw n =
    with_params_returns (decoder.protocol_version raw) _ n (λ a g. absurd (ground arith))
manager_returns session_start raw n = λ g. absurd (ground arith)
manager_returns auth_respond raw n =
    with_params_returns (decoder.auth_response raw) _ n (λ a g. absurd (ground arith))
manager_returns session_stop raw n =
    with_params_returns (decoder.session_id raw) _ n (λ a g. absurd (ground arith))
manager_returns session_status raw n =
    with_params_returns (decoder.session_id raw) _ n (λ a g. absurd (ground arith))
manager_returns resources_get raw n =
    with_params_returns (decoder.session_id raw) _ n (λ a g. absurd (ground arith))
manager_returns resources_refresh raw n =
    with_params_returns (decoder.session_id raw) _ n (λ a g. absurd (ground arith))
manager_returns services_get raw n =
    with_params_returns (decoder.session_id raw) _ n (λ a g. absurd (ground arith))
manager_returns traffic_get raw n =
    with_params_returns (decoder.session_id raw) _ n (λ a g. absurd (ground arith))
manager_returns connections_list raw n =
    with_params_returns (decoder.session_id raw) _ n (λ a g. absurd (ground arith))
manager_returns connection_close raw n =
    with_params_returns (decoder.connection_ids raw) _ n (λ a g. absurd (ground arith))
manager_returns transport_connections_list raw n =
    with_params_returns (decoder.session_id raw) _ n (λ a g. absurd (ground arith))
manager_returns routing_mode_get raw n =
    with_params_returns (decoder.session_id raw) _ n (λ a g. absurd (ground arith))
manager_returns routing_mode_set raw n =
    with_params_returns (decoder.routing_params raw) _ n (λ a g. absurd (ground arith))
manager_returns resume_state_get raw n =
    with_params_returns (decoder.session_id raw) _ n (λ a g. absurd (ground arith))
manager_returns config_get raw n = λ g. absurd (ground arith)
manager_returns config_set raw n = λ g. absurd (ground arith)
manager_returns config_patch raw n = λ g. absurd (ground arith)
manager_returns config_apply raw n = λ g. absurd (ground arith)
manager_returns config_reload raw n = λ g. absurd (ground arith)
manager_returns (other_method name) raw n = λ g. absurd (ground arith)

every_call_returns : (name params : String) → (call manager decoder info name params 4).1 ≢ fault
unfolding call
every_call_returns name params = manager_returns (find_method name methods) (raw_params params) 4
