-- ===== src/Manager/AuthBroker.antt =====
-- The authentication broker of manager/manager.go. A `*pendingAuth` is known by a number and stands in
-- `pendings`; `items` has the pointers by challenge ID. A response that `respond` has put into the
-- channel of capacity one is `received`; a step is what happens while the lock is held, or a send.
use zju_portal_core.Base.{
  ℕ, ◌+◌, Bool, true, false, String, Option, none, some, List, string_eq, nat_eq, nat_beq,
  if◌then◌else◌,
}
use zju_portal_core.Base.Map.{lookup, insert, delete}
use zju_portal_core.Core.Error.{
  Error, auth_challenge_invalid, auth_challenge_not_found, auth_response_invalid, wrap_error,
}
use zju_portal_core.Core.Auth.{AuthChallenge, AuthResponse, validate_challenge, validate_response}
use zju_portal_core.Stream.{Result, ok, err, fault}

pub record PendingAuth : Type 0 where
  pub session_id : String
  pub challenge : AuthChallenge
  pub response : Option AuthResponse
  pub responded : Bool

pub record AuthBroker : Type 0 where
  pub next : ℕ
  pub pendings : List (ℕ × PendingAuth)
  pub items : List (String × ℕ)

abbrev pub new_pending : String → AuthChallenge → PendingAuth
new_pending session_id challenge = record {
  session_id = session_id;
  challenge = challenge;
  response = none;
  responded = false;
}

-- `Handle` up to its first event: the number of the new pending challenge.
unfoldable pub handle : String → AuthChallenge → AuthBroker → AuthBroker × Result Error ℕ
handle session_id challenge b = elim (validate_challenge challenge) [
  | some e ↦ (b, err e)
  | none ↦ elim (lookup challenge.id b.items) [
    | some p ↦ (
      b,
      err (
          wrap_error auth_challenge_invalid "authentication challenge ID is already pending" false
            none),
    )
    | none ↦ (
      record b {
        next = b.next + 1;
        pendings = insert b.next (new_pending session_id challenge) b.pendings;
        items = insert challenge.id b.next b.items;
      },
      ok b.next,
    )
  ]
]

-- The deferred call at the end of `Handle`.
unfoldable pub leave : AuthChallenge → AuthBroker → AuthBroker
leave challenge b = record b { items = delete challenge.id b.items }

-- `pending.responded = true`.
unfoldable pub mark : ℕ → PendingAuth → AuthBroker → AuthBroker
mark p pending b = record b { pendings = insert p (record pending { responded = true }) b.pendings }

-- `respond` up to the send: the pointer of the challenge it answers.
unfoldable pub claim : AuthResponse → AuthBroker → AuthBroker × Result Error ℕ
unfolding mark
claim response b = elim (lookup response.challenge_id b.items) [
  | none ↦ (
    b,
    err (wrap_error auth_challenge_not_found "authentication challenge is not pending" false none),
  )
  | some p ↦ elim (lookup p b.pendings) [
    | none ↦ (b, fault)
    | some pending ↦
        if pending.responded
        then (
          b,
          err (
              wrap_error auth_response_invalid "authentication challenge already has a response"
                false none),
        )
        else elim (validate_response response pending.challenge) [
          | some e ↦ (b, err e)
          | none ↦ (mark p pending b, ok p)
        ]
  ]
]

-- `case <-ctx.Done()` of `respond`.
unfoldable pub unmark : AuthResponse → ℕ → AuthBroker → AuthBroker
unmark response p b = elim (lookup response.challenge_id b.items) [
  | none ↦ b
  | some q ↦
      if nat_beq q p
      then elim (lookup p b.pendings) [
        | none ↦ b
        | some pending ↦ record b {
          pendings = insert p (record pending { responded = false }) b.pendings;
        }
      ]
      else b
]

-- `case pending.response <- response` of `respond`.
unfoldable pub deliver : AuthResponse → ℕ → AuthBroker → AuthBroker
deliver response p b = elim (lookup p b.pendings) [
  | none ↦ b
  | some pending ↦ record b {
    pendings = insert p (record pending { response = some response }) b.pendings;
  }
]
