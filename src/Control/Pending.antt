-- ===== src/Control/Pending.antt =====
-- The challenges that control/v1/service.go keeps for new subscribers, and what becomes of each with an event.
use zju_portal_core.Base.{
  ◌≡◌, inl, inr, refl, sym, subst, ◌∙◌, Bool, true, false, ◌&&◌, not, Option, none, some, List, [],
  ◌∷◌, String, ◌==◌, string_eq, eq_iff, Bool-cases, arith, if◌then◌else◌, if-elim,
}
use zju_portal_core.Base.Map.{
  lookup, lookup-insert, lookup-delete, IsMap, insert-IsMap, delete-IsMap,
}
use zju_portal_core.Core.State.{SessionState, failed, stopping, stopped}
use zju_portal_core.Control.{
  Event, EventType, session_state_changed, auth_required, auth_browser_required, auth_completed,
  session_error, shutdown_completed, clear_session, add_challenge, complete_challenge, is_ending,
  update_by_type, update_pending_auth,
}

-- Whether an event names a challenge by this ID.
abbrev pub names : Option String → String → Bool
names none id = false
names (some other) id = other == id && not (other == "")

abbrev nameless : Option String → Bool
nameless none = true
nameless (some id) = id == ""

abbrev pub asks : EventType → Bool
asks auth_required = true
asks auth_browser_required = true
asks _ = false

-- An event that asks for an answer to the challenge of this ID.
abbrev pub opens_challenge : {X : Type 0} → Event X → String → Bool
opens_challenge e id = asks e.event_type && names e.auth id

abbrev completes : EventType → Bool
completes auth_completed = true
completes _ = false

-- An event that ends the challenge of this ID alone.
abbrev pub ends_challenge : {X : Type 0} → Event X → String → Bool
ends_challenge e id = completes e.event_type && names e.auth id

abbrev finishes : EventType → SessionState → Option String → Bool
finishes auth_completed state auth = nameless auth
finishes session_error state auth = true
finishes shutdown_completed state auth = true
finishes session_state_changed failed auth = true
finishes session_state_changed stopping auth = true
finishes session_state_changed stopped auth = true
finishes _ state auth = false

-- An event that ends all challenges of its session.
abbrev pub ends_all : {X : Type 0} → Event X → Bool
ends_all e = finishes e.event_type e.state e.auth

abbrev without : {X : Type 0} → String → Option (Event X) → Option (Event X)
without session none = none
without session (some e) = if e.session_id == session then none else some e

-- What waits under an ID after an event, by what waited under it before.
abbrev pub after_event : {X : Type 0} → Event X → String → Option (Event X) → Option (Event X)
after_event e id old =
    if opens_challenge e id
    then some e
    else if ends_challenge e id
    then none
    else if ends_all e
    then without e.session_id old
    else old

module _ {X : Type 0} where
  clear_session-none :
      (session id : String) (m : List (String × Event X))
      → lookup id m ≡ none
      → lookup id (clear_session session m) ≡ none
  unfolding clear_session lookup
  clear_session-none session id [] h = refl
  clear_session-none session id ((j, e) ∷ m) h = ground (arith, clear_session-none session id m)

  clear_session-IsMap :
      (session : String) (m : List (String × Event X)) → IsMap m → IsMap (clear_session session m)
  unfolding clear_session
  clear_session-IsMap session [] h = tt
  clear_session-IsMap session ((j, e) ∷ m) (h, k) =
      if-elim IsMap (e.session_id == session) (clear_session-IsMap session m k)
        (clear_session-none session j m h, clear_session-IsMap session m k)

  lookup-clear_session :
      (session id : String) (m : List (String × Event X))
      → IsMap m
      → lookup id (clear_session session m) ≡ without session (lookup id m)
  unfolding clear_session lookup
  lookup-clear_session session id [] h = refl
  lookup-clear_session session id ((j, e) ∷ m) (h, k) = elim (Bool-cases (j == id)) [
    | inl same ↦ ground (arith, same, clear_session-none session id m, eq_iff j id, h)
    | inr apart ↦ ground (arith, apart, lookup-clear_session session id m k)
  ]

  lookup-add_challenge :
      (auth : Option String) (e : Event X) (id : String) (m : List (String × Event X))
      → lookup id (add_challenge auth e m) ≡ (if names auth id then some e else lookup id m)
  unfolding add_challenge
  lookup-add_challenge none e id m = refl
  lookup-add_challenge (some other) e id m = elim (Bool-cases (other == "")) [
    | inl empty ↦ ground (arith, empty)
    | inr full ↦ ground (arith, full, lookup-insert other id e m)
  ]

  lookup-complete_challenge :
      (auth : Option String) (e : Event X) (id : String) (m : List (String × Event X))
      → IsMap m
      → lookup id (complete_challenge auth e m) ≡ (
          if names auth id
          then none
          else if nameless auth
          then without e.session_id (lookup id m)
          else lookup id m)
  unfolding complete_challenge
  lookup-complete_challenge none e id m h = lookup-clear_session e.session_id id m h
  lookup-complete_challenge (some other) e id m h = elim (Bool-cases (other == "")) [
    | inl empty ↦ ground (arith, empty, lookup-clear_session e.session_id id m h)
    | inr full ↦ ground (arith, full, lookup-delete other id m)
  ]

  lookup-state_changed :
      (state : SessionState) (auth : Option String) (e : Event X) (id : String)
      (m : List (String × Event X))
      → IsMap m
      → lookup id (if is_ending state then clear_session e.session_id m else m) ≡ (
          if finishes session_state_changed state auth
          then without e.session_id (lookup id m)
          else lookup id m)
  lookup-state_changed failed auth e id m h = lookup-clear_session e.session_id id m h
  lookup-state_changed stopping auth e id m h = lookup-clear_session e.session_id id m h
  lookup-state_changed stopped auth e id m h = lookup-clear_session e.session_id id m h
  lookup-state_changed _ auth e id m h = refl

  lookup-update_by_type :
      (t : EventType) (e : Event X) (id : String) (m : List (String × Event X))
      → IsMap m
      → lookup id (update_by_type t e m) ≡ (
          if asks t && names e.auth id
          then some e
          else if completes t && names e.auth id
          then none
          else if finishes t e.state e.auth
          then without e.session_id (lookup id m)
          else lookup id m)
  unfolding update_by_type
  lookup-update_by_type auth_required e id m h = lookup-add_challenge e.auth e id m
  lookup-update_by_type auth_browser_required e id m h = lookup-add_challenge e.auth e id m
  lookup-update_by_type auth_completed e id m h = lookup-complete_challenge e.auth e id m h
  lookup-update_by_type session_error e id m h = lookup-clear_session e.session_id id m h
  lookup-update_by_type shutdown_completed e id m h = lookup-clear_session e.session_id id m h
  lookup-update_by_type session_state_changed e id m h =
      lookup-state_changed e.state e.auth e id m h
  lookup-update_by_type _ e id m h = refl

  add_challenge-IsMap :
      (auth : Option String) (e : Event X) (m : List (String × Event X))
      → IsMap m
      → IsMap (add_challenge auth e m)
  unfolding add_challenge
  add_challenge-IsMap none e m h = h
  add_challenge-IsMap (some id) e m h = if-elim IsMap (id == "") h (insert-IsMap id e m h)

  complete_challenge-IsMap :
      (auth : Option String) (e : Event X) (m : List (String × Event X))
      → IsMap m
      → IsMap (complete_challenge auth e m)
  unfolding complete_challenge
  complete_challenge-IsMap none e m h = clear_session-IsMap e.session_id m h
  complete_challenge-IsMap (some id) e m h =
      if-elim IsMap (id == "") (clear_session-IsMap e.session_id m h) (delete-IsMap id m h)

  update_by_type-IsMap :
      (t : EventType) (e : Event X) (m : List (String × Event X))
      → IsMap m
      → IsMap (update_by_type t e m)
  unfolding update_by_type
  update_by_type-IsMap auth_required e m h = add_challenge-IsMap e.auth e m h
  update_by_type-IsMap auth_browser_required e m h = add_challenge-IsMap e.auth e m h
  update_by_type-IsMap auth_completed e m h = complete_challenge-IsMap e.auth e m h
  update_by_type-IsMap session_error e m h = clear_session-IsMap e.session_id m h
  update_by_type-IsMap shutdown_completed e m h = clear_session-IsMap e.session_id m h
  update_by_type-IsMap session_state_changed e m h =
      if-elim IsMap (is_ending e.state) (clear_session-IsMap e.session_id m h) h
  update_by_type-IsMap _ e m h = h

  -- Each challenge that waits stands once, under its own ID, which is not empty, with the event that asked for
  -- its answer.
  pub record IsPending (m : List (String × Event X)) : Type 0 where
    pub unique : IsMap m
    pub asked : (id : String) (e : Event X) → lookup id m ≡ some e → opens_challenge e id ≡ true

  -- Of a map in which no ID stands twice: what waits under an ID after an event is the event itself if it asks
  -- for an answer to that challenge; nothing if it completes that challenge; nothing if it ends the challenges
  -- of the session of what waited there, by a completion without ID, an error, a shutdown or a final state; and
  -- otherwise what waited there before.
  pub lookup-update_pending_auth :
      (e : Event X) (id : String) (m : List (String × Event X))
      → IsMap m
      → lookup id (update_pending_auth e m) ≡ after_event e id (lookup id m)
  unfolding update_pending_auth
  lookup-update_pending_auth e id m h = lookup-update_by_type e.event_type e id m h

  after_event-asked :
      (e : Event X) (id : String) (old : Option (Event X)) (x : Event X)
      → ((y : Event X) → old ≡ some y → opens_challenge y id ≡ true)
      → after_event e id old ≡ some x
      → opens_challenge x id ≡ true
  after_event-asked e id old x was h = elim (Bool-cases (opens_challenge e id)) [
    | inl opened ↦
        let same : e ≡ x = ground (arith, opened, h) in
        subst (λ (y : Event X). opens_challenge y id ≡ true) same opened
    | inr other ↦ was x (kept_old old (ground (arith, other, h)))
  ]
    where
      kept_old :
          (o : Option (Event X))
          → (if ends_challenge e id then none else if ends_all e then without e.session_id o else o)
            ≡ some x
          → o ≡ some x
      kept_old none g = ground arith
      kept_old (some y) g = ground arith

  pub update_pending_auth-IsPending :
      (e : Event X) (m : List (String × Event X))
      → IsPending m
      → IsPending (update_pending_auth e m)
  unfolding update_pending_auth
  update_pending_auth-IsPending e m v = record {
    unique = update_by_type-IsMap e.event_type e m v.unique;
    asked = λ id x h.
        after_event-asked e id (lookup id m) x (v.asked id)
          (sym (lookup-update_by_type e.event_type e id m v.unique) ∙ h);
  }
