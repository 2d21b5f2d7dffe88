-- ===== src/L3Tunnel/Sending/Kept.antt =====
-- What `WritePacket` of client/atrust/l3tunnelconn.go keeps of the table of flows.
use zju_portal_core.Base.{
  ℕ, ◌≡◌, inl, inr, Bool, true, false, Option, none, some, List, String, string_eq, nat_eq, arith,
  Option-cases, if-elim,
}
use zju_portal_core.Base.Map.{lookup, lookup-insert}
use zju_portal_core.Core.Error.{Error}
use zju_portal_core.L3Tunnel.Conntrack.{Conntrack, ConntrackMgr, modify, completed}
use zju_portal_core.L3Tunnel.Conntrack.Consistent.{IsConsistent, get_or_create-IsConsistent}
use zju_portal_core.L3Tunnel.Conntrack.Invariant.{mark_auth-IsConsistent, timeout_auth-IsConsistent}
use zju_portal_core.L3Tunnel.Connection.{L3TunnelConn}
use zju_portal_core.L3Tunnel.Sending.{
  Meeting, write_frame, send_auth_request, auth_timeout, after_timeout, after_request,
  send_after_auth, write_to, await_auth, wait_auth, started, start_auth, ensure_auth, send_data,
  write_packet,
}

pub modify-IsConsistent :
    (id : ℕ) (m : ConntrackMgr) → IsConsistent m → IsConsistent (modify id started m)
modify-IsConsistent id m c = elim (Option-cases (lookup id m.store)) [
  | inl e ↦ rw (e, modify) c
  | inr (ct, e) ↦
      rw (e, modify)
        (record {
          ids = λ j. ground (arith, lookup-insert id j (started ct) m.store, c.ids j);
          keys = λ k q h. ground (arith, lookup-insert id q (started ct) m.store, c.keys k q);
          distinct = c.distinct;
          fresh = λ j h. ground (arith, lookup-insert id j (started ct) m.store, c.fresh j);
          no_panic = c.no_panic;
        })
]

-- The calls of other goroutines keep the table consistent.
abbrev pub Keeps : (ConntrackMgr → ConntrackMgr) → Type 0
Keeps f = (m : ConntrackMgr) → IsConsistent m → IsConsistent (f m)

after_timeout-IsConsistent :
    (id : ℕ) (r : ConntrackMgr × Bool) → IsConsistent r.0 → IsConsistent (after_timeout id r).0
unfolding after_timeout
after_timeout-IsConsistent id (m, true) h = h
after_timeout-IsConsistent id (m, false) h = h

await_auth-IsConsistent :
    (ct : Conntrack) (m : ConntrackMgr) → IsConsistent m → IsConsistent (await_auth ct m).0
unfolding await_auth
await_auth-IsConsistent ct m h =
    if-elim (λ (r : ConntrackMgr × Option Error). IsConsistent r.0) (completed m ct.auth_id) h
      (after_timeout-IsConsistent ct.auth_id _ (timeout_auth-IsConsistent ct auth_timeout m h))

wait_auth-IsConsistent :
    (w : Meeting) (ct : Conntrack) (c : L3TunnelConn)
    → Keeps w.meanwhile
    → IsConsistent c.conntrack_mgr
    → IsConsistent (wait_auth w ct c).0.conntrack_mgr
unfolding wait_auth
wait_auth-IsConsistent w ct c k h = await_auth-IsConsistent ct _ (k c.conntrack_mgr h)

after_request-IsConsistent :
    (w : Meeting) (ct : Conntrack) (r : L3TunnelConn × Option Error)
    → Keeps w.meanwhile
    → IsConsistent r.0.conntrack_mgr
    → IsConsistent (after_request w ct r).0.conntrack_mgr
unfolding after_request
after_request-IsConsistent w ct (c, some e) k h =
    mark_auth-IsConsistent ct.auth_id "" (some e) c.conntrack_mgr h
after_request-IsConsistent w ct (c, none) k h = wait_auth-IsConsistent w ct c k h

pub send_auth_request-table :
    (w : Meeting) (ct : Conntrack) (c : L3TunnelConn)
    → (send_auth_request w ct c).0.conntrack_mgr ≡ c.conntrack_mgr
unfolding send_auth_request write_frame
send_auth_request-table w ct c = ground arith

ensure_auth-IsConsistent :
    (w : Meeting) (ct : Conntrack) (c : L3TunnelConn)
    → Keeps w.meanwhile
    → IsConsistent c.conntrack_mgr
    → IsConsistent (ensure_auth w ct c).0.conntrack_mgr
unfolding ensure_auth start_auth
ensure_auth-IsConsistent w ct c k h =
    if-elim (λ (r : L3TunnelConn × Option Error). IsConsistent r.0.conntrack_mgr) ct.auth_closed h
      (if-elim (λ (r : L3TunnelConn × Option Error). IsConsistent r.0.conntrack_mgr) ct.auth_started
        (wait_auth-IsConsistent w ct c k h)
        (after_request-IsConsistent w ct _ k
          (rw (send_auth_request-table w ct _) (modify-IsConsistent ct.auth_id c.conntrack_mgr h))))

send_data-table :
    (w : Meeting) (token : String) (pkt : List ℕ) (c : L3TunnelConn)
    → (send_data w token pkt c).0.conntrack_mgr ≡ c.conntrack_mgr
unfolding send_data write_frame
send_data-table w token pkt c = ground arith

after_auth-IsConsistent :
    (w : Meeting) (pkt : List ℕ) (id : ℕ) (r : L3TunnelConn × Option Error)
    → IsConsistent r.0.conntrack_mgr
    → IsConsistent (send_after_auth w pkt id r).0.conntrack_mgr
unfolding send_after_auth
after_auth-IsConsistent w pkt id (c, some e) h = h
after_auth-IsConsistent w pkt id (c, none) h = rw (send_data-table w _ pkt c) h

write_to-IsConsistent :
    (w : Meeting) (pkt : List ℕ) (ct : Option Conntrack) (c : L3TunnelConn)
    → Keeps w.meanwhile
    → IsConsistent c.conntrack_mgr
    → IsConsistent (write_to w pkt ct c).0.conntrack_mgr
unfolding write_to
write_to-IsConsistent w pkt none c k h = h
write_to-IsConsistent w pkt (some ct) c k h =
    after_auth-IsConsistent w pkt ct.auth_id _ (ensure_auth-IsConsistent w ct c k h)

-- `WritePacket` keeps the table of flows consistent, whatever happens to its request, provided that the
-- calls of other goroutines during its wait do.
pub write_packet-IsConsistent :
    (w : Meeting) (key appID nodeGroupID : String) (pkt : List ℕ) (c : L3TunnelConn)
    → Keeps w.meanwhile
    → IsConsistent c.conntrack_mgr
    → IsConsistent (write_packet w key appID nodeGroupID pkt c).0.conntrack_mgr
unfolding write_packet
write_packet-IsConsistent w key appID nodeGroupID pkt c k h =
    write_to-IsConsistent w pkt _ _ k
      (get_or_create-IsConsistent w.now key appID nodeGroupID c.conntrack_mgr h)
