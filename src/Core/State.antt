-- ===== src/Core/State.antt =====
-- core/state.go: the states of a session and the table of allowed transitions.
pub mod Paths
use zju_portal_core.Base.{String, Bool, true, false, Option, none, some}
use zju_portal_core.Core.Error.{Error, invalid_state_transition, wrap_error}

-- `other` is any string that is none of the constants.
pub data SessionState : Type 0 where
  idle discovering_auth authenticating fetching_resources selecting_nodes : SessionState
  establishing_tunnel ready reconnecting failed stopping stopped : SessionState
  other : String → SessionState

unfoldable pub state_valid : SessionState → Bool
state_valid (other s) = false
state_valid idle = true
state_valid _ = true

unfoldable pub state_terminal : SessionState → Bool
state_terminal stopped = true
state_terminal _ = false

unfoldable pub can_transition : SessionState → SessionState → Bool
can_transition idle discovering_auth = true
can_transition idle failed = true
can_transition idle stopping = true
can_transition discovering_auth authenticating = true
can_transition discovering_auth failed = true
can_transition discovering_auth stopping = true
can_transition authenticating fetching_resources = true
can_transition authenticating failed = true
can_transition authenticating stopping = true
can_transition fetching_resources selecting_nodes = true
can_transition fetching_resources failed = true
can_transition fetching_resources stopping = true
can_transition selecting_nodes establishing_tunnel = true
can_transition selecting_nodes failed = true
can_transition selecting_nodes stopping = true
can_transition establishing_tunnel ready = true
can_transition establishing_tunnel failed = true
can_transition establishing_tunnel stopping = true
can_transition ready reconnecting = true
can_transition ready failed = true
can_transition ready stopping = true
can_transition reconnecting ready = true
can_transition reconnecting failed = true
can_transition reconnecting stopping = true
can_transition failed stopping = true
can_transition stopping stopped = true
can_transition _ _ = false

-- `nil` is `none`. The text with the two states' names is not kept.
unfoldable pub validate_transition : SessionState → SessionState → Option Error
unfolding can_transition
validate_transition from to = elim (can_transition from to) [
  | true ↦ none
  | false ↦ some (wrap_error invalid_state_transition "cannot transition session state" false none)
]
