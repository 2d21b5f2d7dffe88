-- ===== src/L3Tunnel/Sending/Sent.antt =====
-- What `WritePacket` of client/atrust/l3tunnelconn.go sends when it returns no error.
use zju_portal_core.Base.{
  ℕ, ◌<◌, ◌≡◌, ◌≢◌, inl, inr, refl, true, false, Option, none, some, List, [], ◌∷◌, String,
  string_eq, nat_eq, length, drop, arith, eq_iff, Option-cases, Bool-cases, ◌==◌, ltb, if-elim,
  if-cases, sym, subst, ◌⊎◌,
}
use zju_portal_core.Base.Map.{lookup}
use zju_portal_core.Stream.{ok}
use zju_portal_core.Core.Error.{Error}
use zju_portal_core.L3Tunnel.Conntrack.{Conntrack, ConntrackMgr, get_or_create, timeout_auth}
use zju_portal_core.L3Tunnel.Conntrack.Consistent.{IsConsistent, get_or_create-IsConsistent}
use zju_portal_core.L3Tunnel.DataPayload.{build_data_payload, parse_data_payload}
use zju_portal_core.L3Tunnel.DataPayload.RoundTrip.{parse-build_data_payload}
use zju_portal_core.L3Tunnel.Connection.{L3TunnelConn}
use zju_portal_core.L3Tunnel.Sending.{
  Meeting, write_frame, after_timeout, after_request, send_after_auth, write_to, await_auth,
  wait_auth, start_auth, ensure_auth, send_data, write_packet, token_of, conntrack_at,
}
use zju_portal_core.L3Tunnel.Sending.Kept.{Keeps, modify-IsConsistent, send_auth_request-table}
use zju_portal_core.L3Tunnel.Sending.Labels.{IsLabelled, get_or_create-IsLabelled}

-- A conntrack that is done, if it is there: its channel is closed and it has no error.
abbrev IsDone : ConntrackMgr → ℕ → Type 0
IsDone m id =
    (lookup id m.store ≡ none)
    ⊎ ((ct : Conntrack) × (lookup id m.store ≡ some ct)
        × (ct.auth_closed ≡ true)
        × (ct.auth_err ≡ none))

await_auth-IsDone :
    (ct : Conntrack) (m : ConntrackMgr)
    → IsConsistent m
    → (await_auth ct m).1 ≡ none
    → IsDone (await_auth ct m).0 ct.auth_id
unfolding await_auth timeout_auth after_timeout
await_auth-IsDone ct m h e = elim (Option-cases (lookup ct.auth_id m.store)) [
  | inl absent ↦
      let unanswered : lookup ct.auth_id m.by_id ≡ none =
        ground (arith, h.ids ct.auth_id, absent) in
      let same : await_auth ct m ≡ (m, none) = ground (arith, absent, unanswered) in
      subst (λ (r : ConntrackMgr × Option Error). IsDone r.0 ct.auth_id) (sym same) (inl absent)
  | inr (found, there) ↦ elim (Bool-cases found.auth_closed) [
    | inl done ↦
        let same : await_auth ct m ≡ (m, found.auth_err) = ground (arith, there, done) in
        subst (λ (r : ConntrackMgr × Option Error). IsDone r.0 ct.auth_id) (sym same)
          (inr (found, there, done, ground (arith, e, there, done)))
    | inr open_yet ↦
        let waits : lookup ct.auth_id m.by_id ≡ some ct.auth_id =
          ground (arith, h.ids ct.auth_id, there, open_yet) in
        absurd (ground (arith, e, there, open_yet, waits))
  ]
]

wait_auth-IsDone :
    (w : Meeting) (ct : Conntrack) (c : L3TunnelConn)
    → Keeps w.meanwhile
    → IsConsistent c.conntrack_mgr
    → (wait_auth w ct c).1 ≡ none
    → IsDone (wait_auth w ct c).0.conntrack_mgr ct.auth_id
unfolding wait_auth
wait_auth-IsDone w ct c k h e = await_auth-IsDone ct _ (k c.conntrack_mgr h) e

after_request-IsDone :
    (w : Meeting) (ct : Conntrack) (r : L3TunnelConn × Option Error)
    → Keeps w.meanwhile
    → IsConsistent r.0.conntrack_mgr
    → (after_request w ct r).1 ≡ none
    → IsDone (after_request w ct r).0.conntrack_mgr ct.auth_id
unfolding after_request
after_request-IsDone w ct (c, some x) k h e = absurd (ground arith)
after_request-IsDone w ct (c, none) k h e = wait_auth-IsDone w ct c k h e

-- `ensureAuth` returns no error only for a conntrack that is done.
ensure_auth-IsDone :
    (w : Meeting) (ct : Conntrack) (c : L3TunnelConn)
    → Keeps w.meanwhile
    → IsConsistent c.conntrack_mgr
    → lookup ct.auth_id c.conntrack_mgr.store ≡ some ct
    → (ensure_auth w ct c).1 ≡ none
    → IsDone (ensure_auth w ct c).0.conntrack_mgr ct.auth_id
unfolding ensure_auth start_auth
ensure_auth-IsDone w ct c k h there =
    let P = λ (r : L3TunnelConn × Option Error). r.1 ≡ none → IsDone r.0.conntrack_mgr ct.auth_id in
    if-cases P ct.auth_closed
      (λ (done : ct.auth_closed ≡ true) (e : ct.auth_err ≡ none). inr (ct, there, done, e))
      (λ (waits : ct.auth_closed ≡ false). if-elim P ct.auth_started (wait_auth-IsDone w ct c k h) (
        after_request-IsDone w ct _ k
          (rw (send_auth_request-table w ct _) (modify-IsConsistent ct.auth_id c.conntrack_mgr h))))

-- The conntrack under an ID is done without an error and has this token.
abbrev pub HasToken : ConntrackMgr → ℕ → String → Type 0
HasToken m id token =
    (ct : Conntrack) × (lookup id m.store ≡ some ct)
    × (ct.auth_closed ≡ true)
    × (ct.auth_err ≡ none)
    × (ct.connect_token ≡ token)

-- The newest frame carries the packet alone, under the token of the conntrack, which is done, and was written
-- without an error.
abbrev pub WasSent : Meeting → List ℕ → ℕ → L3TunnelConn → Type 0
WasSent w pkt id c =
    (token : String) × (rest : List (List ℕ)) × (token ≢ "")
    × HasToken c.conntrack_mgr id token
    × (w.write_error ≡ none)
    × (c.sent ≡ build_data_payload (w.bytes token) (pkt ∷ []) ∷ rest)
    × (parse_data_payload (drop 2 (build_data_payload (w.bytes token) (pkt ∷ []))) ≡ ok (pkt ∷ []))

IsDone-HasToken :
    (m : ConntrackMgr) (id : ℕ) → IsDone m id → token_of m id ≢ "" → HasToken m id (token_of m id)
IsDone-HasToken m id (inl absent) named = absurd (named (ground (arith, absent)))
IsDone-HasToken m id (inr (ct, there, done, fine)) named =
    (ct, there, done, fine, ground (arith, there))

send_data-WasSent :
    (w : Meeting) (pkt : List ℕ) (id : ℕ) (c : L3TunnelConn)
    → length pkt < 65536
    → IsDone c.conntrack_mgr id
    → (send_data w (token_of c.conntrack_mgr id) pkt c).1 ≡ none
    → WasSent w pkt id (send_data w (token_of c.conntrack_mgr id) pkt c).0
unfolding send_data write_frame
send_data-WasSent w pkt id c short done h =
    let token = token_of c.conntrack_mgr id in
    elim (Bool-cases (token == "")) [
      | inl e ↦ absurd (ground arith)
      | inr named ↦ elim (Bool-cases (ltb 0xFF (length (w.bytes token)))) [
        | inl e ↦ absurd (ground arith)
        | inr fits ↦
            let full : token ≢ "" = ground (arith, eq_iff token "") in
            rw (send_data, named, fits)
              (
                token,
                c.sent,
                full,
                IsDone-HasToken c.conntrack_mgr id done full,
                ground arith,
                refl,
                parse-build_data_payload (w.bytes token) (pkt ∷ []) (ground arith) (omega arith)
                    (short, tt),
              )
      ]
    ]

after_auth-WasSent :
    (w : Meeting) (pkt : List ℕ) (id : ℕ) (r : L3TunnelConn × Option Error)
    → length pkt < 65536
    → (r.1 ≡ none → IsDone r.0.conntrack_mgr id)
    → (send_after_auth w pkt id r).1 ≡ none
    → WasSent w pkt id (send_after_auth w pkt id r).0
unfolding send_after_auth
after_auth-WasSent w pkt id (c, some e) short done h = absurd (ground arith)
after_auth-WasSent w pkt id (c, none) short done h =
    send_data-WasSent w pkt id c short (done refl) h

write_to-WasSent :
    (w : Meeting) (pkt : List ℕ) (id : ℕ) (o : Option Conntrack) (c : L3TunnelConn)
    → Keeps w.meanwhile
    → IsConsistent c.conntrack_mgr
    → IsLabelled c.conntrack_mgr
    → lookup id c.conntrack_mgr.store ≡ o
    → length pkt < 65536
    → (write_to w pkt o c).1 ≡ none
    → WasSent w pkt id (write_to w pkt o c).0
unfolding write_to
write_to-WasSent w pkt id none c k v l e short h = absurd (ground arith)
write_to-WasSent w pkt id (some ct) c k v l e short h =
    let own = l id ct e in
    subst (λ (i : ℕ). WasSent w pkt i (write_to w pkt (some ct) c).0) own
      (after_auth-WasSent w pkt ct.auth_id (ensure_auth w ct c) short
        (ensure_auth-IsDone w ct c k v
          (subst (λ (i : ℕ). lookup i c.conntrack_mgr.store ≡ some ct) (sym own) e))
        h)

-- When `WritePacket` returns no error, the authentication of the packet's flow is over without one, and the newest
-- frame was written without an error and carries the packet alone under the token of that flow, which is not empty;
-- `parseDataPayload` gives the packet back. The packet is below 65536 bytes, the table is consistent with each flow
-- under its own ID, and other goroutines keep it consistent during the wait.
pub write_packet-WasSent :
    (w : Meeting) (key appID nodeGroupID : String) (pkt : List ℕ) (c : L3TunnelConn)
    → Keeps w.meanwhile
    → IsConsistent c.conntrack_mgr
    → IsLabelled c.conntrack_mgr
    → length pkt < 65536
    → (write_packet w key appID nodeGroupID pkt c).1 ≡ none
    → WasSent w pkt
        (get_or_create w.now key appID nodeGroupID c.conntrack_mgr).1
        (write_packet w key appID nodeGroupID pkt c).0
unfolding write_packet
write_packet-WasSent w key appID nodeGroupID pkt c k v l short h =
    let got = get_or_create w.now key appID nodeGroupID c.conntrack_mgr in
    write_to-WasSent w pkt got.1 (conntrack_at got.1 got.0) (record c { conntrack_mgr = got.0 }) k
      (get_or_create-IsConsistent w.now key appID nodeGroupID c.conntrack_mgr v)
      (get_or_create-IsLabelled w.now key appID nodeGroupID c.conntrack_mgr l) refl short h
