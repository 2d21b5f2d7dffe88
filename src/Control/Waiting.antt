-- ===== src/Control/Waiting.antt =====
-- The challenges that wait in every state of control/v1/service.go.
use zju_portal_core.Base.{
  ℕ, ◌≡◌, sym, subst, Option, none, some, List, [], ◌∷◌, string_eq, nat_eq, arith,
}
use zju_portal_core.Base.Map.{lookup}
use zju_portal_core.Control.{
  Event, Channel, Service, new_service, broadcast, subscribe, detach, remove_subscriber,
  close_subscribers, drain_manager_events, end_forwarding, receive_from, receive,
}
use zju_portal_core.Control.Channels.{
  Step, broadcasts, subscribes, removes, receives, ends, Follows, here, next,
}
use zju_portal_core.Control.Pending.{IsPending, update_pending_auth-IsPending}

module _ {X : Type 0} where
  abbrev Waits : Service X → Type 0
  Waits s = IsPending s.pending_auth

  drain-IsPending :
      (events : List (Event X)) (s : Service X) → Waits s → Waits (drain_manager_events events s)
  unfolding drain_manager_events broadcast
  drain-IsPending [] s w = w
  drain-IsPending (e ∷ events) s w =
      drain-IsPending events (broadcast e s) (update_pending_auth-IsPending e s.pending_auth w)

  detach-pending :
      (id : ℕ) (old : Option (Channel X)) (s : Service X) → Waits s → Waits (detach id old s)
  unfolding detach
  detach-pending id none s w = w
  detach-pending id (some c) s w = w

  receive_from-pending :
      (id : ℕ) (old : Option (Channel X)) (s : Service X) → Waits s → Waits (receive_from id old s)
  unfolding receive_from
  receive_from-pending id none s w = w
  receive_from-pending id (some c) s w = w

  subscribe-pending :
      (s : Service X) {t : Service X} {id : ℕ}
      → subscribe s ≡ some (t, id)
      → t.pending_auth ≡ s.pending_auth
  unfolding subscribe
  subscribe-pending s e = ground arith

  Step-pending : {s t : Service X} {more : List (Event X)} → Step s t more → Waits s → Waits t
  unfolding broadcast remove_subscriber receive end_forwarding close_subscribers
  Step-pending {s = s} (broadcasts e) w = update_pending_auth-IsPending e s.pending_auth w
  Step-pending {s = s} (subscribes e) w = subst IsPending (sym (subscribe-pending s e)) w
  Step-pending {s = s} (removes id) w = detach-pending id (lookup id s.subscribers) s w
  Step-pending {s = s} (receives id) w = receive_from-pending id (lookup id s.subscribers) s w
  Step-pending {s = s} (ends events) w = drain-IsPending events s w

  -- From a new service on, whatever it broadcasts, whoever subscribes, reads or leaves: each challenge that
  -- waits stands once, under its own ID, which is not empty, with an event that asked for its answer.
  pub Follows-IsPending :
      {s : Service X} {sent : List (Event X)}
      → Follows (new_service {X = X}) s sent
      → IsPending s.pending_auth
  unfolding new_service lookup
  Follows-IsPending here = record { unique = tt; asked = λ id e h. absurd (ground arith) }
  Follows-IsPending (next f step) = Step-pending step (Follows-IsPending f)
