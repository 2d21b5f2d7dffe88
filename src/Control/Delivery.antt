-- ===== src/Control/Delivery.antt =====
-- What the subscribers of control/v1/service.go get to read.
use mathlib.Core.List.{append_assoc}
use zju_portal_core.Base.{
  ℕ, ◌+◌, ◌≤◌, ◌≡◌, inl, inr, refl, subst, sym, ap, ◌∙◌, Option, none, some, List, ◌++◌, string_eq,
  nat_eq, nat_beq, nat_beq_iff, length, Bool-cases, arith,
}
use zju_portal_core.Base.Map.{lookup, IsMap, insert-IsMap, delete-IsMap}
use zju_portal_core.Control.{
  Event, Channel, Service, new_service, broadcast, snapshot, subscribe, detach, remove_subscriber,
  close_subscribers, end_forwarding, receive_from, receive,
}
use zju_portal_core.Control.Channels.{
  sent_to, IsService, Step, broadcasts, subscribes, removes, receives, ends, Follows, here, next,
  Came, same-Came, kept-Came, taking-IsMap, lookup-taking, detach-Came, receive_from-Came, fresh,
  subscribe-some, subscribe-lookup, Step-Came, detach-next, receive_from-next, Step-next,
}

module _ {X : Type 0} where
  detach-IsMap :
      (j : ℕ) (old : Option (Channel X)) (s : Service X)
      → IsMap s.subscribers
      → IsMap (detach j old s).subscribers
  unfolding detach
  detach-IsMap j none s u = u
  detach-IsMap j (some c) s u = delete-IsMap j s.subscribers u

  receive_from-IsMap :
      (j : ℕ) (old : Option (Channel X)) (s : Service X)
      → IsMap s.subscribers
      → IsMap (receive_from j old s).subscribers
  unfolding receive_from
  receive_from-IsMap j none s u = u
  receive_from-IsMap j (some c) s u = insert-IsMap j _ s.subscribers u

  Step-IsMap :
      {s t : Service X} {more : List (Event X)}
      → Step s t more
      → IsMap s.subscribers
      → IsMap t.subscribers
  unfolding broadcast remove_subscriber receive end_forwarding close_subscribers
  Step-IsMap {s = s} (broadcasts e) u = taking-IsMap e s.subscribers u
  Step-IsMap {s = s} (subscribes e) u =
      subst IsMap (sym (subscribe-some s e).2) (insert-IsMap _ _ s.subscribers u)
  Step-IsMap {s = s} (removes j) u = detach-IsMap j (lookup j s.subscribers) s u
  Step-IsMap {s = s} (receives j) u = receive_from-IsMap j (lookup j s.subscribers) s u
  Step-IsMap (ends events) u = tt

  Came-known :
      (s : Service X) (id : ℕ) (more : List (Event X)) (c' : Channel X)
      → IsService s
      → Came (lookup id s.subscribers) more c'
      → (id ≤ s.next_event_id) × (length c'.buffered ≤ 128)
  Came-known s id more c' v (c, e, sent, b) = (v.known id c e, b (v.bounded id c e))

  new-known :
      (s : Service X) {t : Service X} {new : ℕ} (id : ℕ) (c' : Channel X)
      → subscribe s ≡ some (t, new)
      → IsService s
      → lookup id t.subscribers ≡ some c'
      → (id ≤ t.next_event_id) × (length c'.buffered ≤ 128)
  new-known s id c' e v h = elim (Bool-cases (nat_beq (s.next_event_id + 1) id)) [
    | inl same ↦
        let first : fresh s ≡ c' = ground (arith, h, subscribe-lookup id s e) in
        (
          omega (arith, (subscribe-some s e).0, (nat_beq_iff (s.next_event_id + 1) id).0 same),
          rw (← first) (subscribe-some s e).3,
        )
    | inr apart ↦
        let old : lookup id s.subscribers ≡ some c' = ground (arith, h, subscribe-lookup id s e) in
        (omega (arith, (subscribe-some s e).0, v.known id c' old), v.bounded id c' old)
  ]

  -- A subscriber after a step has an ID that was given out, and no more events than its buffer takes.
  Step-known :
      {s t : Service X} {more : List (Event X)}
      → Step s t more
      → IsService s
      → (id : ℕ) (c' : Channel X) → lookup id t.subscribers ≡ some c'
      → (id ≤ t.next_event_id) × (length c'.buffered ≤ 128)
  unfolding broadcast remove_subscriber receive end_forwarding close_subscribers lookup
  Step-known {s = s} (broadcasts e) v id c' h = Came-known s id _ c' v (
      kept-Came e (lookup id s.subscribers) c'
        (sym (lookup-taking e id s.subscribers v.unique) ∙ h))
  Step-known {s = s} (subscribes e) v id c' h = new-known s id c' e v h
  Step-known {s = s} (removes j) v id c' h =
      let (k, b) = Came-known s id _ c' v (detach-Came id j s (lookup j s.subscribers) c' h) in
      (omega (arith, detach-next j (lookup j s.subscribers) s), b)
  Step-known {s = s} (receives j) v id c' h =
      let (k, b) =
        Came-known s id _ c' v (receive_from-Came id j s (lookup j s.subscribers) c' refl h) in
      (omega (arith, receive_from-next j (lookup j s.subscribers) s), b)
  Step-known (ends events) v id c' h = absurd (ground arith)

  Step-IsService :
      {s t : Service X} {more : List (Event X)} → Step s t more → IsService s → IsService t
  Step-IsService step v = record {
    unique = Step-IsMap step v.unique;
    known = λ id c h. (Step-known step v id c h).0;
    bounded = λ id c h. (Step-known step v id c h).1;
  }

  Follows-keeps :
      {s t : Service X} {sent : List (Event X)} → IsService s → Follows s t sent → IsService t
  Follows-keeps v here = v
  Follows-keeps v (next f step) = Step-IsService step (Follows-keeps v f)

  Follows-next :
      {s t : Service X} {sent : List (Event X)}
      → Follows s t sent
      → s.next_event_id ≤ t.next_event_id
  Follows-next here = omega arith
  Follows-next (next f step) = omega (arith, Follows-next f, Step-next step)

  Follows-Came :
      {s t : Service X} {sent : List (Event X)}
      → IsService s
      → Follows s t sent
      → (id : ℕ) (c' : Channel X) → id ≤ s.next_event_id
      → lookup id t.subscribers ≡ some c'
      → Came (lookup id s.subscribers) sent c'
  Follows-Came v here id c' b h = same-Came _ c' h
  Follows-Came v (next {sent = before} {more = more} f step) id c' b h =
      let (d, e, sent, bound) =
        Step-Came step (Follows-keeps v f).unique id c' (omega (arith, Follows-next f)) h in
      let (c, e', sent', bound') = Follows-Came v f id d b e in
      (
        c,
        e',
        sent ∙ ap (λ (l : List (Event X)). l ++ more) sent' ∙ append_assoc (sent_to c) before more,
        λ x. bound (bound' x),
      )

  -- From a new service on, whatever it broadcasts, whoever subscribes, reads or leaves: every subscriber's ID is
  -- one that was given out, no ID stands twice, and no subscriber's buffer holds more than its 128 places.
  pub Follows-IsService :
      {s : Service X} {sent : List (Event X)} → Follows (new_service {X = X}) s sent → IsService s
  unfolding new_service lookup
  Follows-IsService f =
      Follows-keeps
        (record {
          unique = tt;
          known = λ id c h. absurd (ground arith);
          bounded = λ id c h. absurd (ground arith);
        })
        f

  -- A channel that `Subscribe` returned and that still stands among the subscribers was sent, in order and
  -- each once, the challenges that waited when it subscribed and then every event broadcast since.
  pub subscribe-sent :
      {s t u : Service X} {id : ℕ} {sent : List (Event X)} {c : Channel X}
      → IsService s
      → subscribe s ≡ some (t, id)
      → Follows t u sent
      → lookup id u.subscribers ≡ some c
      → c.received ++ c.buffered ≡ snapshot s.pending_auth ++ sent
  subscribe-sent {s = s} {id = id} {sent = sent} {c = c} v e f h =
      let (d, was, all, bound) =
        Follows-Came (Step-IsService (subscribes e) v) f id c
          (omega (arith, (subscribe-some s e).0, (subscribe-some s e).1)) h in
      let first : fresh s ≡ d = ground (
        arith,
        was,
        (subscribe-some s e).1,
        subscribe-lookup id s e,
        nat_beq_iff (s.next_event_id + 1) id,
      ) in
      all ∙ ap (λ (x : Channel X). sent_to x ++ sent) (sym first)
