-- ===== src/TcpTunnel/Setup/Closed.antt =====
-- What `DialTCP` of client/atrust/tcptunnel.go leaves behind.
use zju_portal_core.Base.{
  ℕ, Bool, true, false, Option, none, some, List, String, ◌≡◌, ◌≢◌, ◌⊎◌, refl, arith, eq_iff, not,
  ◌&&◌,
}
use zju_portal_core.Stream.{Result, ok, err, fault}
use zju_portal_core.TcpTunnel.{TcpError, TcpTunnelConn, wait_for_tcp_connect}
use zju_portal_core.TcpTunnel.Handshake.{IsConnected}
use zju_portal_core.TcpTunnel.Accepts.{wait_for_tcp_connect_iff}
use zju_portal_core.TcpTunnel.Setup.{
  Client, Network, Dialed, reported, send_and_wait, establish_tcp_connection, init_message,
  node_addr, clear_deadline_and_return, connect, dial_tcp,
}

abbrev pub is_ok : Result TcpError TcpTunnelConn → Bool
is_ok (ok t) = true
is_ok r = false

abbrev pub leaves_open : Dialed → Bool
leaves_open d = d.opened && not d.closed

return-open :
    (failed : Option TcpError) (r : Result TcpError (List ℕ) × List TcpError)
    → leaves_open (clear_deadline_and_return failed r)
      ≡ is_ok (clear_deadline_and_return failed r).result
unfolding clear_deadline_and_return
return-open failed (err e, health) = refl
return-open failed (fault, health) = refl
return-open (some e) (ok rest, health) = refl
return-open none (ok rest, health) = refl

connect-open :
    (c : Client) (net : Network) (request : Result TcpError (List ℕ))
    → leaves_open (connect c net request) ≡ is_ok (connect c net request).result
unfolding connect
connect-open c net (err e) = refl
connect-open c net fault = refl
connect-open c net (ok request) = ground (
  arith,
  return-open net.clear_deadline (establish_tcp_connection net c.skip_tcp_tunnel_wait request),
)

-- `DialTCP` leaves a TLS connection open exactly if it returns it: every failure after the TLS dial
-- closes it.
pub dial_tcp-open :
    (c : Client) (resource : String × String × String) (net : Network) (ip : List ℕ) (port : ℕ)
    → leaves_open (dial_tcp c resource net ip port) ≡ is_ok (dial_tcp c resource net ip port).result
unfolding dial_tcp
dial_tcp-open c resource net ip port =
    ground (arith, connect-open c net (init_message c resource.0 resource.2 ip port))

-- What a dial that returns a connection went through.
abbrev pub WasGranted : Client → Network → TcpTunnelConn → Type 0
WasGranted c net t =
    (net.ctx_after ≡ none) × ((c.skip_tcp_tunnel_wait ≡ true) ⊎ IsConnected net.answers t.stream)

reported-ok :
    (r : Result TcpError (List ℕ)) (rest : List ℕ) → (reported r).0 ≡ ok rest → r ≡ ok rest
reported-ok (ok s) rest h = h
reported-ok (err e) rest h = absurd (ground arith)
reported-ok fault rest h = absurd (ground arith)

establish-granted :
    (net : Network) (skip : Bool) (request rest : List ℕ)
    → (establish_tcp_connection net skip request).0 ≡ ok rest
    → (net.ctx_after ≡ none) × ((skip ≡ true) ⊎ (wait_for_tcp_connect net.answers ≡ ok rest))
unfolding establish_tcp_connection send_and_wait
establish-granted net skip request rest h =
    ground (arith, reported-ok (wait_for_tcp_connect net.answers) rest)

return-inv :
    (failed : Option TcpError) (r : Result TcpError (List ℕ) × List TcpError) (t : TcpTunnelConn)
    → (clear_deadline_and_return failed r).result ≡ ok t
    → r.0 ≡ ok t.stream
unfolding clear_deadline_and_return
return-inv failed (err e, health) t h = absurd (ground arith)
return-inv failed (fault, health) t h = absurd (ground arith)
return-inv (some e) (ok rest, health) t h = absurd (ground arith)
return-inv none (ok rest, health) t h = ground arith

connect-WasGranted :
    (c : Client) (net : Network) (request : Result TcpError (List ℕ)) (t : TcpTunnelConn)
    → (connect c net request).result ≡ ok t
    → WasGranted c net t
unfolding connect
connect-WasGranted c net (err e) t h = absurd (ground arith)
connect-WasGranted c net fault t h = absurd (ground arith)
connect-WasGranted c net (ok request) t h =
    let given : (establish_tcp_connection net c.skip_tcp_tunnel_wait request).0 ≡ ok t.stream =
      ground (
        arith,
        return-inv net.clear_deadline (establish_tcp_connection net c.skip_tcp_tunnel_wait request)
            t,
      ) in
    ground (
      arith,
      establish-granted net c.skip_tcp_tunnel_wait request t.stream given,
      (wait_for_tcp_connect_iff net.answers t.stream).0,
    )

-- A dial that returns a connection had an application and a node for it, no cancelled context, and a
-- portal that granted the connection, unless the client does not wait; what the connection reads first
-- is what followed the portal's answers.
pub dial_tcp-WasGranted :
    (c : Client) (resource : String × String × String) (net : Network) (ip : List ℕ) (port : ℕ)
    (t : TcpTunnelConn)
    → (dial_tcp c resource net ip port).result ≡ ok t
    → (resource.0 ≢ "") × (node_addr c resource.1 ≢ "") × WasGranted c net t
unfolding dial_tcp
dial_tcp-WasGranted c resource net ip port t h = ground (
  arith,
  eq_iff resource.0 "",
  eq_iff (node_addr c resource.1) "",
  connect-WasGranted c net (init_message c resource.0 resource.2 ip port) t,
)
