-- ===== src/Control/Channels.antt =====
-- What one step of control/v1/service.go does to a subscriber's channel.
use mathlib.Core.List.{append_assoc, append-nil}
use zju_portal_core.Base.{
  ℕ, ◌+◌, ◌≤◌, ◌<◌, ◌≡◌, inl, inr, refl, sym, ap, ◌∙◌, true, false, Option, none, some, List, [],
  ◌∷◌, ◌++◌, String, string_eq, nat_eq, nat_beq, nat_beq_iff, ltb, length, length-append,
  Bool-cases, arith, if◌then◌else◌, if-elim,
}
use zju_portal_core.Base.Map.{lookup, insert, lookup-insert, lookup-delete, IsMap}
use zju_portal_core.Control.{
  Event, Channel, Service, push, has_room, taking, broadcast, snapshot, subscribe, detach,
  remove_subscriber, close_subscribers, drain_manager_events, end_forwarding, take_one,
  receive_from, receive,
}

few_pending : (n : ℕ) → ltb 128 n ≡ false → n ≤ 128
few_pending n h = ground arith

module _ {X : Type 0} where
  -- All that was sent to a channel, in order.
  abbrev pub sent_to : Channel X → List (Event X)
  sent_to c = c.received ++ c.buffered

  -- The IDs are unique and given out, and no channel holds more than its buffer.
  pub record IsService (s : Service X) : Type 0 where
    pub unique : IsMap s.subscribers
    pub known : (id : ℕ) (c : Channel X) → lookup id s.subscribers ≡ some c → id ≤ s.next_event_id
    pub bounded :
        (id : ℕ) (c : Channel X) → lookup id s.subscribers ≡ some c → length c.buffered ≤ 128

  -- One step of the service or of a reader, with the events that it broadcasts.
  pub data Step (s : Service X) : Service X → List (Event X) → Type 0 where
    broadcasts : (e : Event X) → Step s (broadcast e s) (e ∷ [])
    subscribes : {t : Service X} {id : ℕ} → subscribe s ≡ some (t, id) → Step s t []
    removes : (id : ℕ) → Step s (remove_subscriber id s) []
    receives : (id : ℕ) → Step s (receive id s) []
    ends : (events : List (Event X)) → Step s (end_forwarding events s) events

  pub data Follows (s : Service X) : Service X → List (Event X) → Type 0 where
    here : Follows s s []
    next :
        {t u : Service X} {sent more : List (Event X)}
        → Follows s t sent
        → Step t u more
        → Follows s u (sent ++ more)

  -- What a broadcast makes of a subscriber.
  abbrev pub kept : Event X → Option (Channel X) → Option (Channel X)
  kept e none = none
  kept e (some c) = if has_room c then some (push e c) else none

  taking-none :
      (e : Event X) (id : ℕ) (subs : List (ℕ × Channel X))
      → lookup id subs ≡ none
      → lookup id (taking e subs) ≡ none
  unfolding taking lookup
  taking-none e id [] h = refl
  taking-none e id ((j, c) ∷ rest) h = ground (arith, taking-none e id rest)

  pub taking-IsMap :
      (e : Event X) (subs : List (ℕ × Channel X)) → IsMap subs → IsMap (taking e subs)
  unfolding taking
  taking-IsMap e [] h = tt
  taking-IsMap e ((j, c) ∷ rest) (h, k) =
      if-elim IsMap (has_room c) (taking-none e j rest h, taking-IsMap e rest k)
        (taking-IsMap e rest k)

  pub lookup-taking :
      (e : Event X) (id : ℕ) (subs : List (ℕ × Channel X))
      → IsMap subs
      → lookup id (taking e subs) ≡ kept e (lookup id subs)
  unfolding taking lookup
  lookup-taking e id [] h = refl
  lookup-taking e id ((j, c) ∷ rest) (h, k) = elim (Bool-cases (nat_beq j id)) [
    | inl same ↦ ground (arith, same, taking-none e id rest, nat_beq_iff j id, h)
    | inr apart ↦ ground (arith, apart, lookup-taking e id rest k)
  ]

  -- The channel that a channel was, and what was sent to it since.
  abbrev pub Came : Option (Channel X) → List (Event X) → Channel X → Type 0
  Came old more c' =
      (c : Channel X) × (old ≡ some c)
      × (sent_to c' ≡ sent_to c ++ more)
      × (length c.buffered ≤ 128 → length c'.buffered ≤ 128)

  pub same-Came : (old : Option (Channel X)) (c' : Channel X) → old ≡ some c' → Came old [] c'
  same-Came old c' h = (c', h, sym (append-nil (sent_to c')), λ x. x)

  ltb_room : (c : Channel X) → has_room c ≡ true → length c.buffered < 128
  ltb_room c h = ground arith

  pub kept-Came :
      (e : Event X) (old : Option (Channel X)) (c' : Channel X)
      → kept e old ≡ some c'
      → Came old (e ∷ []) c'
  kept-Came e none c' h = absurd (ground arith)
  kept-Came e (some c) c' h = elim (Bool-cases (has_room c)) [
    | inl room ↦
        let same : push e c ≡ c' = ground arith in
        (
          c,
          refl,
          ap (λ (d : Channel X). sent_to d) (sym same)
              ∙ sym (append_assoc c.received c.buffered (e ∷ [])),
          λ b. rw (← same) (omega (arith, length-append {0} c.buffered (e ∷ []), ltb_room c room)),
        )
    | inr no_room ↦ absurd (ground arith)
  ]

  take_one-sent :
      (r b : List (Event X)) → sent_to (take_one (record { received = r; buffered = b }) b) ≡ r ++ b
  take_one-sent r [] = refl
  take_one-sent r (e ∷ rest) = append_assoc r (e ∷ []) rest

  take_one-bounded :
      (c : Channel X) (b : List (Event X))
      → length b ≤ 128
      → c.buffered ≡ b
      → length (take_one c b).buffered ≤ 128
  take_one-bounded c [] h e = rw e h
  take_one-bounded c (x ∷ rest) h e = omega arith

  pub receive_from-Came :
      (id j : ℕ) (s : Service X) (old : Option (Channel X)) (c' : Channel X)
      → lookup j s.subscribers ≡ old
      → lookup id (receive_from j old s).subscribers ≡ some c'
      → Came (lookup id s.subscribers) [] c'
  unfolding receive_from
  receive_from-Came id j s none c' e h = same-Came _ c' h
  receive_from-Came id j s (some c) c' e h = elim (Bool-cases (nat_beq j id)) [
    | inl same ↦
        let taken : take_one c c.buffered ≡ c' =
          ground (arith, lookup-insert j id (take_one c c.buffered) s.subscribers) in
        let j-id = (nat_beq_iff j id).0 same in
        (
          c,
          ap (λ (k : ℕ). lookup k s.subscribers) (sym j-id) ∙ e,
          ap (λ (d : Channel X). sent_to d) (sym taken)
              ∙ take_one-sent c.received c.buffered
              ∙ sym (append-nil (sent_to c)),
          λ b. rw (← taken) (take_one-bounded c c.buffered b refl),
        )
    | inr apart ↦
        same-Came _ c' (ground (arith, lookup-insert j id (take_one c c.buffered) s.subscribers))
  ]

  pub detach-Came :
      (id j : ℕ) (s : Service X) (old : Option (Channel X)) (c' : Channel X)
      → lookup id (detach j old s).subscribers ≡ some c'
      → Came (lookup id s.subscribers) [] c'
  unfolding detach
  detach-Came id j s none c' h = same-Came _ c' h
  detach-Came id j s (some c) c' h =
      same-Came _ c' (ground (arith, lookup-delete j id s.subscribers))

  length-snapshot : (pending : List (String × Event X)) → length (snapshot pending) ≡ length pending
  unfolding snapshot
  length-snapshot [] = refl
  length-snapshot ((id, e) ∷ rest) = omega (arith, length-snapshot rest)

  -- A new subscriber's channel.
  abbrev pub fresh : Service X → Channel X
  fresh s = record { received = []; buffered = snapshot s.pending_auth }

  pub subscribe-some :
      (s : Service X) {t : Service X} {new : ℕ}
      → subscribe s ≡ some (t, new)
      → (t.next_event_id ≡ s.next_event_id + 1)
        × (new ≡ s.next_event_id + 1)
        × (t.subscribers ≡ insert (s.next_event_id + 1) (fresh s) s.subscribers)
        × (length (fresh s).buffered ≤ 128)
  unfolding subscribe
  subscribe-some s e = elim (Bool-cases (ltb 128 (length s.pending_auth))) [
    | inl many ↦ absurd (ground arith)
    | inr few ↦ (
      ground arith,
      ground arith,
      ground arith,
      omega (arith, length-snapshot s.pending_auth, few_pending (length s.pending_auth) few),
    )
  ]

  pub subscribe-lookup :
      (id : ℕ) (s : Service X) {t : Service X} {new : ℕ}
      → subscribe s ≡ some (t, new)
      → lookup id t.subscribers
        ≡ (if nat_beq (s.next_event_id + 1) id then some (fresh s) else lookup id s.subscribers)
  subscribe-lookup id s e =
      ap (λ (m : List (ℕ × Channel X)). lookup id m) (subscribe-some s e).2
      ∙ lookup-insert (s.next_event_id + 1) id (fresh s) s.subscribers

  -- A subscriber after a step was one before it, unless the step subscribes it.
  pub Step-Came :
      {s t : Service X} {more : List (Event X)}
      → Step s t more
      → IsMap s.subscribers
      → (id : ℕ) (c' : Channel X) → id ≤ s.next_event_id
      → lookup id t.subscribers ≡ some c'
      → Came (lookup id s.subscribers) more c'
  unfolding broadcast remove_subscriber receive end_forwarding close_subscribers lookup
  Step-Came {s = s} (broadcasts e) u id c' b h =
      kept-Came e (lookup id s.subscribers) c' (sym (lookup-taking e id s.subscribers u) ∙ h)
  Step-Came {s = s} (subscribes e) u id c' b h =
      same-Came _ c' (ground (arith, h, b, subscribe-lookup id s e))
  Step-Came {s = s} (removes j) u id c' b h = detach-Came id j s (lookup j s.subscribers) c' h
  Step-Came {s = s} (receives j) u id c' b h =
      receive_from-Came id j s (lookup j s.subscribers) c' refl h
  Step-Came (ends events) u id c' b h = absurd (ground arith)

  -- The IDs that are given out stay given out.
  drain-next :
      (events : List (Event X)) (s : Service X)
      → (drain_manager_events events s).next_event_id ≡ s.next_event_id
  unfolding drain_manager_events broadcast
  drain-next [] s = refl
  drain-next (e ∷ events) s = drain-next events (broadcast e s)

  pub detach-next :
      (j : ℕ) (old : Option (Channel X)) (s : Service X)
      → (detach j old s).next_event_id ≡ s.next_event_id
  unfolding detach
  detach-next j none s = refl
  detach-next j (some c) s = refl

  pub receive_from-next :
      (j : ℕ) (old : Option (Channel X)) (s : Service X)
      → (receive_from j old s).next_event_id ≡ s.next_event_id
  unfolding receive_from
  receive_from-next j none s = refl
  receive_from-next j (some c) s = refl

  pub Step-next :
      {s t : Service X} {more : List (Event X)} → Step s t more → s.next_event_id ≤ t.next_event_id
  unfolding broadcast remove_subscriber receive end_forwarding close_subscribers
  Step-next (broadcasts e) = omega arith
  Step-next {s = s} (subscribes e) = omega (arith, (subscribe-some s e).0)
  Step-next {s = s} (removes j) = omega (arith, detach-next j (lookup j s.subscribers) s)
  Step-next {s = s} (receives j) = omega (arith, receive_from-next j (lookup j s.subscribers) s)
  Step-next {s = s} (ends events) = omega (arith, drain-next events s)
