-- ===== src/Manager/Responses.antt =====
-- The broker of manager/manager.go answers a challenge once; session events leave it room.
use zju_portal_core.Base.{
  ℕ, ◌≤◌, ◌≡◌, refl, inl, inr, true, false, string_eq, nat_eq, none, some, List, arith, length,
  Bool-cases, Option-cases, [], ◌∷◌, length-append,
}
use zju_portal_core.Base.Map.{lookup, lookup-insert}
use zju_portal_core.Core.Error.{Error, error_code_of, auth_response_invalid, wrap_error}
use zju_portal_core.Core.Auth.{AuthResponse, validate_response}
use zju_portal_core.Stream.{ok, err}
use zju_portal_core.Manager.{emit_session_event}
use zju_portal_core.Manager.AuthBroker.{PendingAuth, AuthBroker, claim}

-- `respond` goes on to send only a response that is valid for the challenge that is pending under its
-- ID and has none yet, and leaves the challenge marked.
pub claim_valid :
    (r : AuthResponse) (b : AuthBroker) (p : ℕ)
    → (claim r b).1 ≡ ok p
    → (pending : PendingAuth) × (lookup r.challenge_id b.items ≡ some p)
      × (lookup p b.pendings ≡ some pending)
      × (pending.responded ≡ false)
      × (validate_response r pending.challenge ≡ none)
      × (lookup p (claim r b).0.pendings ≡ some (record pending { responded = true }))
unfolding claim
claim_valid r b p h = elim (Option-cases (lookup r.challenge_id b.items)) [
  | inl e ↦ absurd (ground arith)
  | inr (q, e) ↦ elim (Option-cases (lookup q b.pendings)) [
    | inl f ↦ absurd (ground arith)
    | inr (pending, f) ↦ elim (Bool-cases pending.responded) [
      | inl g ↦ absurd (ground arith)
      | inr g ↦ elim (Option-cases (validate_response r pending.challenge)) [
        | inr (x, v) ↦ absurd (ground arith)
        | inl v ↦
            let this : q ≡ p = ground arith in
            (
              pending,
              ground arith,
              ground arith,
              g,
              v,
              ground (arith, lookup-insert q p (record pending { responded = true }) b.pendings),
            )
      ]
    ]
  ]
]

-- After a response was taken, `respond` refuses every other one with the same ID, until the first is
-- withdrawn.
pub claim_once :
    (r other : AuthResponse) (b : AuthBroker) (p : ℕ)
    → (claim r b).1 ≡ ok p
    → other.challenge_id ≡ r.challenge_id
    → (e : Error) × ((claim other (claim r b).0).1 ≡ err e)
      × (error_code_of (some e) ≡ auth_response_invalid)
unfolding claim error_code_of wrap_error
claim_once r other b p h same =
    let (pending, item, there, open?, valid, marked) = claim_valid r b p h in
    let kept : lookup r.challenge_id (claim r b).0.items ≡ some p = ground arith in
    (
      wrap_error auth_response_invalid "authentication challenge already has a response" false none,
      rw (same, kept, marked, claim) refl,
      refl,
    )

-- The event queue never grows past its capacity by a session's event, and a session's event never takes
-- the reserve of eight.
pub emit_session_event_reserve :
    {E : Type 0} (event : E) (events : List E)
    → (length events ≤ 128 → length (emit_session_event event events) ≤ 128)
      × (length events ≤ 120 → length (emit_session_event event events) ≤ 120)
unfolding emit_session_event
emit_session_event_reserve event events = (
  λ h. ground (arith, length-append events (event ∷ [])),
  λ h. ground (arith, length-append events (event ∷ [])),
)
