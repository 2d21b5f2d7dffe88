-- ===== src/Core/State/Paths.antt =====
-- The transition table of core/state.go as a graph: what every history of a session obeys.
use zju_portal_core.Base.{
  ℕ, ◌+◌, ◌<◌, ◌≤◌, length, ◌≡◌, refl, ap, ◌↔◌, ◌⊎◌, inl, inr, true, false, List, [], ◌∷◌, ◌++◌,
  arith, dec_lt,
}
use zju_portal_core.Core.State.{
  SessionState, idle, discovering_auth, authenticating, fetching_resources, selecting_nodes,
  establishing_tunnel, ready, reconnecting, failed, stopping, stopped, other, state_valid,
  state_terminal, can_transition,
}

-- A history of allowed transitions.
pub data History : SessionState → SessionState → Type 0 where
  start : {s : SessionState} → History s s
  step :
      {s u : SessionState} (t : SessionState)
      → can_transition s t ≡ true
      → History t u
      → History s u

-- The states that a history enters, in order.
unfoldable pub entered : {s u : SessionState} → History s u → List SessionState
entered start = []
entered (step t e h) = t ∷ entered h

-- How far a session has come; only a reconnect goes back.
abbrev pub phase : SessionState → ℕ
phase idle = 0
phase discovering_auth = 1
phase authenticating = 2
phase fetching_resources = 3
phase selecting_nodes = 4
phase establishing_tunnel = 5
phase ready = 6
phase reconnecting = 7
phase failed = 8
phase stopping = 9
phase stopped = 10
phase (other s) = 11

-- Every allowed transition moves a session forward, but for the return from reconnecting to ready.
pub can_transition-phase :
    (s t : SessionState)
    → can_transition s t ≡ true
    → (phase s < phase t) ⊎ ((s ≡ reconnecting) × (t ≡ ready))
unfolding can_transition
can_transition-phase s t e = ground arith

-- Both ends of an allowed transition are states that the table names.
pub can_transition-valid :
    (s t : SessionState)
    → can_transition s t ≡ true
    → (state_valid s ≡ true) × (state_valid t ≡ true)
unfolding can_transition state_valid
can_transition-valid s t e = ground arith

down : {s : SessionState} → History s ready → 7 < phase s → ⊥
down start p = omega arith
down {s} (step t e h) p = elim (can_transition-phase s t e) [
  | inl f ↦ down h (omega arith)
  | inr (q, _) ↦ ground (arith, ap phase q)
]

-- One step on the way to ready.
forward :
    (s t : SessionState)
    → phase s < 6
    → can_transition s t ≡ true
    → (phase t ≡ phase s + 1) ⊎ (7 < phase t)
unfolding can_transition
forward s t p e = ground arith

-- The states between a setup state and ready.
abbrev pub route : SessionState → List SessionState
route idle = discovering_auth ∷ route_authenticating
  where
    route_authenticating : List SessionState
    route_authenticating =
        authenticating ∷ fetching_resources ∷ selecting_nodes ∷ establishing_tunnel ∷ ready ∷ []
route discovering_auth =
    authenticating ∷ fetching_resources ∷ selecting_nodes ∷ establishing_tunnel ∷ ready ∷ []
route authenticating = fetching_resources ∷ selecting_nodes ∷ establishing_tunnel ∷ ready ∷ []
route fetching_resources = selecting_nodes ∷ establishing_tunnel ∷ ready ∷ []
route selecting_nodes = establishing_tunnel ∷ ready ∷ []
route establishing_tunnel = ready ∷ []
route _ = []

route_step : (s t : SessionState) → phase s < 6 → phase t ≡ phase s + 1 → route s ≡ t ∷ route t
route_step s t p e = ground arith

after_ready : (t : SessionState) → ¬ (phase t < 6) → phase t < 7 → route t ≡ []
after_ready t p q = ground arith

route-entered :
    {s : SessionState} (h : History s ready)
    → phase s < 6
    → (rest : List SessionState) × (entered h ≡ route s ++ rest)
unfolding entered
route-entered start p = absurd (omega arith)
route-entered {s} (step t e h) p = elim (forward s t p e) [
  | inr far ↦ absurd (down h far)
  | inl near ↦ elim (dec_lt (phase t) 6) [
    | yes q ↦ let (rest, r) = route-entered h q in (rest, rw (r, route_step s t p near))
    | no q ↦ (entered h, rw (route_step s t p near, after_ready t q (omega arith)))
  ]
]

-- A session that came from idle to ready entered the five setup states and ready first, in the
-- table's order; whatever followed is `rest`.
pub setup_order :
    (h : History idle ready)
    → (rest : List SessionState) × (entered h
        ≡ (discovering_auth ∷ authenticating ∷ fetching_resources ∷ selecting_nodes
            ∷ establishing_tunnel ∷ ready ∷ [])
          ++ rest)
setup_order h = route-entered h (omega arith)

-- From every valid state a session can be stopped, in at most two transitions.
pub History-stopped :
    (s : SessionState) → state_valid s ≡ true → (h : History s stopped) × (length (entered h) ≤ 2)
unfolding can_transition state_valid entered
History-stopped stopped v = (start, omega arith)
History-stopped stopping v = (step stopped refl start, omega arith)
History-stopped idle v = (step stopping refl (step stopped refl start), omega arith)
History-stopped discovering_auth v = (step stopping refl (step stopped refl start), omega arith)
History-stopped authenticating v = (step stopping refl (step stopped refl start), omega arith)
History-stopped fetching_resources v = (step stopping refl (step stopped refl start), omega arith)
History-stopped selecting_nodes v = (step stopping refl (step stopped refl start), omega arith)
History-stopped establishing_tunnel v = (step stopping refl (step stopped refl start), omega arith)
History-stopped ready v = (step stopping refl (step stopped refl start), omega arith)
History-stopped reconnecting v = (step stopping refl (step stopped refl start), omega arith)
History-stopped failed v = (step stopping refl (step stopped refl start), omega arith)
History-stopped (other s) v = cc

-- `Terminal` holds of exactly the valid states with no way out.
pub state_terminal_iff :
    (s : SessionState)
    → (state_terminal s ≡ true)
      ↔ ((state_valid s ≡ true) × ((t : SessionState) → can_transition s t ≡ false))
unfolding can_transition state_valid state_terminal
state_terminal_iff stopped = (λ _. (refl, λ t. refl), λ _. refl)
state_terminal_iff (other s) = (λ h. cc, λ h. cc (h.0))
state_terminal_iff idle = (λ h. cc, λ h. cc (h.1 stopping))
state_terminal_iff stopping = (λ h. cc, λ h. cc (h.1 stopped))
state_terminal_iff _ = (λ h. cc, λ h. cc (h.1 stopping))
