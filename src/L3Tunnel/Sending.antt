-- ===== src/L3Tunnel/Sending.antt =====
-- client/atrust/l3tunnelconn.go: `WritePacket`, which waits until the flow of a packet is authenticated.
-- What other goroutines do to the table while it waits is an argument.
pub mod Kept
pub mod Labels
pub mod Sent
use zju_portal_core.Base.{
  ℕ, Bool, true, false, Option, none, some, ◌⊎◌, inl, inr, List, [], ◌∷◌, String, string_eq, nat_eq,
  ◌==◌, length, ltb, if◌then◌else◌,
}
use zju_portal_core.Base.Map.{lookup}
use zju_portal_core.Core.Error.{Error, plain, wrapf}
use zju_portal_core.L3Tunnel.Conntrack.{
  Conntrack, ConntrackMgr, completed, get_or_create, mark_auth, timeout_auth, modify,
}
use zju_portal_core.L3Tunnel.DataPayload.{build_data_payload}
use zju_portal_core.L3Tunnel.Frames.{cmd_auth_req, request_frame}
use zju_portal_core.L3Tunnel.Connection.{L3TunnelConn, err_l3_tunnel_auth_timeout}

-- What a call of `WritePacket` meets: the time, `buildAuthRequest` of a conntrack, the error of writing
-- the request and of writing the packet, what happens to the table during the wait of eight seconds,
-- and the bytes of a text.
pub record Meeting : Type 0 where
  pub now : ℕ
  pub request : Conntrack → Error ⊎ List ℕ
  pub request_error : Option Error
  pub write_error : Option Error
  pub meanwhile : ConntrackMgr → ConntrackMgr
  pub bytes : String → List ℕ

unfoldable pub write_frame : Option Error → List ℕ → L3TunnelConn → L3TunnelConn × Option Error
write_frame failed frame c = (record c { sent = frame ∷ c.sent }, failed)

unfoldable pub send_auth_request : Meeting → Conntrack → L3TunnelConn → L3TunnelConn × Option Error
unfolding write_frame
send_auth_request w ct c = elim (w.request ct) [
  | inl e ↦ (c, some e)
  | inr req ↦ write_frame w.request_error (request_frame cmd_auth_req req) c
]

abbrev pub auth_error : ConntrackMgr → ℕ → Option Error
auth_error m p = elim (lookup p m.store) [ some ct ↦ ct.auth_err | none ↦ none ]

abbrev pub token_of : ConntrackMgr → ℕ → String
token_of m p = elim (lookup p m.store) [ some ct ↦ ct.connect_token | none ↦ "" ]

abbrev pub auth_timeout : Option Error
auth_timeout = some (wrapf "l3-tunnel auth timeout" (plain err_l3_tunnel_auth_timeout))

-- Whether the wait was ended by `timeoutAuth`; if not, the answer came first.
unfoldable pub after_timeout : ℕ → ConntrackMgr × Bool → ConntrackMgr × Option Error
after_timeout id (m, true) = (m, auth_timeout)
after_timeout id (m, false) = (m, auth_error m id)

-- The second `select`, after the other goroutines' calls: the answer, or the end of the wait.
unfoldable pub await_auth : Conntrack → ConntrackMgr → ConntrackMgr × Option Error
unfolding after_timeout
await_auth ct m =
    if completed m ct.auth_id
    then (m, auth_error m ct.auth_id)
    else after_timeout ct.auth_id (timeout_auth ct auth_timeout m)

unfoldable pub wait_auth : Meeting → Conntrack → L3TunnelConn → L3TunnelConn × Option Error
unfolding await_auth
wait_auth w ct c =
    let (m, e) = await_auth ct (w.meanwhile c.conntrack_mgr) in (record c { conntrack_mgr = m }, e)

abbrev pub started : Conntrack → Conntrack
started ct = record ct { auth_started = true }

unfoldable pub after_request :
    Meeting → Conntrack → L3TunnelConn × Option Error → L3TunnelConn × Option Error
unfolding wait_auth
after_request w ct (c, some e) =
    (record c { conntrack_mgr = mark_auth ct.auth_id "" (some e) c.conntrack_mgr }, some e)
after_request w ct (c, none) = wait_auth w ct c

-- The start of an authentication: the `CompareAndSwap` was won.
unfoldable pub start_auth : Meeting → Conntrack → L3TunnelConn → L3TunnelConn × Option Error
unfolding send_auth_request after_request
start_auth w ct c = after_request w ct (
    send_auth_request w ct (record c { conntrack_mgr = modify ct.auth_id started c.conntrack_mgr }))

unfoldable pub ensure_auth : Meeting → Conntrack → L3TunnelConn → L3TunnelConn × Option Error
unfolding start_auth
ensure_auth w ct c =
    if ct.auth_closed
    then (c, ct.auth_err)
    else if ct.auth_started
    then wait_auth w ct c
    else start_auth w ct c

unfoldable pub send_data : Meeting → String → List ℕ → L3TunnelConn → L3TunnelConn × Option Error
unfolding write_frame
send_data w token pkt c =
    if token == ""
    then (c, some (plain "l3-tunnel missing connect token"))
    else if ltb 0xFF (length (w.bytes token))
    then (c, some (plain "l3-tunnel connect token too long"))
    else write_frame w.write_error (build_data_payload (w.bytes token) (pkt ∷ [])) c

-- The conntrack that `getOrCreate` returned, which is always there.
abbrev pub conntrack_at : ℕ → ConntrackMgr → Option Conntrack
conntrack_at p m = lookup p m.store

-- `WritePacket` after `ensureAuth`.
unfoldable pub send_after_auth :
    Meeting → List ℕ → ℕ → L3TunnelConn × Option Error → L3TunnelConn × Option Error
unfolding send_data
send_after_auth w pkt id (c, some e) = (c, some e)
send_after_auth w pkt id (c, none) = send_data w (token_of c.conntrack_mgr id) pkt c

unfoldable pub write_to :
    Meeting → List ℕ → Option Conntrack → L3TunnelConn → L3TunnelConn × Option Error
unfolding ensure_auth send_after_auth
write_to w pkt none c = (c, some (plain "no conntrack"))
write_to w pkt (some ct) c = send_after_auth w pkt ct.auth_id (ensure_auth w ct c)

unfoldable pub write_packet :
    Meeting → String → String → String → List ℕ → L3TunnelConn → L3TunnelConn × Option Error
unfolding write_to
write_packet w key appID nodeGroupID pkt c =
    let (m, p) = get_or_create w.now key appID nodeGroupID c.conntrack_mgr in
    write_to w pkt (conntrack_at p m) (record c { conntrack_mgr = m })
