-- ===== src/L3Tunnel/Pool/Outcome.antt =====
-- What `writePacket` and `terminate` of the tunnel (client/atrust/l3tunnel*.go) end with.
use zju_portal_core.Base.{
  ℕ, ◌<◌, ◌≤◌, ◌≡◌, ◌⊎◌, inl, inr, refl, true, false, Option, some, [], String, arith, Bool-cases,
}
use zju_portal_core.Stream.{Result, ok, err, fault}
use zju_portal_core.Core.Error.{Error, is_error?}
use zju_portal_core.L3Tunnel.Pool.{
  Pool, terminate, evict_and_close, Dialing, get_conn, finish_write, retry_write, try_write,
  write_packet, is_auth_timeout_err,
}
use zju_portal_core.L3Tunnel.Pool.Live.{member, IsPool, terminate-IsPool}

finish_write_no_timeout :
    (group : String) (id : ℕ) (e : Option Error) (p : Pool)
    → is_auth_timeout_err (finish_write group id e p).1 ≡ false
unfolding finish_write is_error?
finish_write_no_timeout group id e p = elim (Bool-cases (is_auth_timeout_err e)) [
  | inl t ↦ rw (finish_write, t) refl
  | inr t ↦ rw (finish_write, t) t
]

-- The error of a call of `getConn`.
abbrev pub GetConnError : Error → String → Type 0
GetConnError e group = (d : Dialing) × (p : Pool) × ((get_conn d group p).1 ≡ err e)

retry_write_timeout :
    (group : String) (second : Option Error) (e : Error) (r : Pool × Result Error ℕ)
    → (retry_write group second r).1 ≡ some e
    → is_auth_timeout_err (some e) ≡ true
    → r.1 ≡ err e
unfolding retry_write
retry_write_timeout group second e (p, ok id) h t =
    absurd (ground (arith, finish_write_no_timeout group id second p))
retry_write_timeout group second e (p, err x) h t = ground arith
retry_write_timeout group second e (p, fault) h t = absurd (ground arith)

try_write_timeout :
    (d : Dialing) (group : String) (first second : Option Error) (e : Error)
    (r : Pool × Result Error ℕ)
    → (try_write d group first second r).1 ≡ some e
    → is_auth_timeout_err (some e) ≡ true
    → (r.1 ≡ err e) ⊎ GetConnError e group
unfolding try_write
try_write_timeout d group first second e (p, err x) h t = inl (ground arith)
try_write_timeout d group first second e (p, fault) h t = absurd (ground arith)
try_write_timeout d group first second e (p, ok id) h t =
    elim (Bool-cases (is_auth_timeout_err first)) [
      | inl late ↦ inr (
        d,
        evict_and_close group id p,
        retry_write_timeout group second e (get_conn d group (evict_and_close group id p))
            (ground arith) t,
      )
      | inr fine ↦ absurd (ground (arith, finish_write_no_timeout group id first p))
    ]

-- `writePacket` never returns the timeout of an authentication of the flow: a first one is tried again on
-- a new connection and a second one drops the packet. An error of that kind can only come from `getConn`.
pub write_packet_timeout :
    (d₁ d₂ : Dialing) (group : String) (first second : Option Error) (p : Pool) (e : Error)
    → (write_packet d₁ d₂ group first second p).1 ≡ some e
    → is_auth_timeout_err (some e) ≡ true
    → GetConnError e group
unfolding write_packet
write_packet_timeout d₁ d₂ group first second p e h t =
    elim (try_write_timeout d₂ group first second e (get_conn d₁ group p) h t) [
      | inl x ↦ (d₁, p, x)
      | inr x ↦ x
    ]

terminate-terminated : (e : Option Error) (p : Pool) → (terminate e p).terminated ≡ true
unfolding terminate
terminate-terminated e p = ground arith

terminate-opened : (e : Option Error) (p : Pool) → (terminate e p).opened ≡ p.opened
unfolding terminate
terminate-opened e p = ground arith

terminate-dialing : (e : Option Error) (p : Pool) → (terminate e p).dialing ≡ p.dialing
unfolding terminate
terminate-dialing e p = ground arith

-- `terminate` closes every connection that was opened, if none is being dialled.
pub terminate_closes :
    (e : Option Error) (p : Pool) (id : ℕ)
    → IsPool p
    → p.dialing ≡ []
    → 0 < id
    → id ≤ p.opened
    → member id (terminate e p).closed ≡ true
terminate_closes e p id h quiet a b =
    let over = terminate-IsPool e p h in
    ground (
      arith,
      over.kept id a (rw (terminate-opened e p) b),
      over.over (terminate-terminated e p),
      terminate-dialing e p,
    )
