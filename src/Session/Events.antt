-- ===== src/Session/Events.antt =====
-- The event queue and the comparison of node selections of internal/atrustruntime/session.go.
use zju_portal_core.Base.{
  ◌≤◌, ◌≡◌, ◌≢◌, refl, ◌⊎◌, inl, inr, true, false, String, string_eq, none, List, [], ◌∷◌, ◌++◌,
  length, arith, Bool-cases, ltb, length-append, eq_iff,
}
use zju_portal_core.Base.Map.{lookup}
use zju_portal_core.Session.{Event, push, equal_string_maps}

-- A new event is always queued, behind the others; the queue stays within its 32 places, and only a full
-- queue loses an event, its oldest.
pub push_keeps_newest :
    (event : Event) (events : List Event)
    → length events ≤ 32
    → (kept : List Event) × (push event events ≡ kept ++ event ∷ [])
      × (length (push event events) ≤ 32)
      × ((kept ≡ events) ⊎ ((length events ≡ 32) × (oldest : Event) × (events ≡ oldest ∷ kept)))
unfolding push
push_keeps_newest event events h = elim (Bool-cases (ltb (length events) 32)) [
  | inl room ↦ (
    events,
    rw (room, push) refl,
    rw (room, push) (ground (arith, length-append events (event ∷ []))),
    inl refl,
  )
  | inr full ↦ by_list events h full
]
  where
    by_list :
        (l : List Event)
        → length l ≤ 32
        → ltb (length l) 32 ≡ false
        → (kept : List Event) × (push event l ≡ kept ++ event ∷ [])
          × (length (push event l) ≤ 32)
          × ((kept ≡ l) ⊎ ((length l ≡ 32) × (oldest : Event) × (l ≡ oldest ∷ kept)))
    by_list [] p q = absurd (ground arith)
    by_list (oldest ∷ kept) p q = (
      kept,
      rw (q, push) refl,
      rw (q, push) (ground (arith, length-append kept (event ∷ []))),
      inr (ground arith, oldest, refl),
    )

-- Two selections of one node group each, under different names, compare as equal if the first has the
-- empty address: a missing key reads as the empty text.
pub equal_string_maps_missing :
    (key other value : String)
    → other ≢ key
    → equal_string_maps ((key, "") ∷ []) ((other, value) ∷ []) ≡ true
unfolding equal_string_maps
equal_string_maps_missing key other value n =
    let missing : lookup key ((other, value) ∷ []) ≡ none =
      unfold lookup in ground (arith, eq_iff other key) in
    rw (missing, equal_string_maps) refl
