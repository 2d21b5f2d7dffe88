-- ===== src/TcpTunnel/Ends.antt =====
-- `Read` of client/atrust/tcptunnel.go always ends: each round of its loop takes bytes of the stream.
use zju_portal_core.Base.{
  ℕ, zero, suc, ◌+◌, ◌<◌, ◌≤◌, ◌≡◌, ◌≢◌, ◌⊎◌, inl, inr, refl, subst, some, List, length, arith,
  Option-cases, length-drop, if-elim, ltb,
}
use zju_portal_core.Stream.{Result, err, fault, be16}
use zju_portal_core.TcpTunnel.Slices.{keep_rest-copied}
use zju_portal_core.TcpTunnel.{
  TcpError, out_of_fuel, copied, slice_from, keep_rest, deliver, TcpTunnelConn, read_n, read_sized,
  read_data, read_control, read_protocol, Round, finished, again, FrameKind, application_data,
  control, protocol_response, unknown_frame, frame_kind, read_frame, read_round, read_loop,
  tcp_read, validate_tcp_protocol_response,
}

-- The code's own results.
abbrev pub IsAnswer : Result TcpError (List ℕ) → Type 0
IsAnswer r = (r ≢ err out_of_fuel) × (r ≢ fault)

abbrev Progress : ℕ → Round → Type 0
Progress n (finished c r) = IsAnswer r
Progress n (again c) = length c.stream < n

read_n-le : (n : ℕ) (c : TcpTunnelConn) → length (read_n n c).0.stream ≤ length c.stream
unfolding read_n
read_n-le n c = ground (arith, length-drop n c.stream)

read_n-some :
    (n : ℕ) (c : TcpTunnelConn) (b : List ℕ)
    → (read_n n c).1 ≡ some b
    → length (read_n n c).0.stream + n ≡ length c.stream
unfolding read_n
read_n-some n c b h = ground (arith, length-drop n c.stream)

read_sized-le : (c : TcpTunnelConn) → length (read_sized c).0.stream ≤ length c.stream
unfolding read_sized
read_sized-le c = elim (Option-cases (read_n 2 c).1) [
  | inl e ↦ rw (read_sized, e) (read_n-le 2 c)
  | inr (l, e) ↦
      rw (read_sized, e) (omega (arith, read_n-le 2 c, read_n-le (be16 l) (read_n 2 c).0))
]

-- No slice is out of range.
keep_rest-IsAnswer :
    (n : ℕ) (p : List ℕ) (c : TcpTunnelConn)
    → IsAnswer (keep_rest (copied n p) p (slice_from (copied n p) p) c).1
keep_rest-IsAnswer n p c = rw (keep_rest-copied n p c) (ground arith)

deliver-IsAnswer : (n : ℕ) (p : List ℕ) (c : TcpTunnelConn) → IsAnswer (deliver n p c).1
unfolding deliver
deliver-IsAnswer n p c =
    if-elim (λ (r : TcpTunnelConn × Result TcpError (List ℕ)). IsAnswer r.1)
      (ltb (copied n p) (length p)) (keep_rest-IsAnswer n p c) (ground arith)

read_data-IsAnswer : (n : ℕ) (c : TcpTunnelConn) → IsAnswer (read_data n c).1
unfolding read_data
read_data-IsAnswer n c = elim (Option-cases (read_sized c).1) [
  | inl e ↦ rw (read_data, e) (ground arith)
  | inr (bytes, e) ↦ rw (read_data, e) (deliver-IsAnswer n bytes (read_sized c).0)
]

read_control-Progress :
    (n : ℕ) (c : TcpTunnelConn) → length c.stream < n → Progress n (read_control c)
unfolding read_control
read_control-Progress n c h = ground (arith, read_n-le 2 c)

read_protocol-Progress :
    (n : ℕ) (c : TcpTunnelConn) → length c.stream < n → Progress n (read_protocol c)
unfolding read_protocol validate_tcp_protocol_response
read_protocol-Progress n c h = ground (arith, read_sized-le c)

read_frame-Progress :
    (k : FrameKind) (n m : ℕ) (c : TcpTunnelConn)
    → length c.stream < m
    → Progress m (read_frame k n c)
unfolding read_frame
read_frame-Progress application_data n m c h = read_data-IsAnswer n c
read_frame-Progress control n m c h = read_control-Progress m c h
read_frame-Progress protocol_response n m c h = read_protocol-Progress m c h
read_frame-Progress unknown_frame n m c h = h

read_round-Progress : (n : ℕ) (c : TcpTunnelConn) → Progress (length c.stream) (read_round n c)
unfolding read_round
read_round-Progress n c = elim (Option-cases (read_n 2 c).1) [
  | inl e ↦ rw (read_round, e) (ground arith)
  | inr (h, e) ↦
      rw (read_round, e)
        (read_frame-Progress (frame_kind h) n (length c.stream) (read_n 2 c).0
          (omega (arith, read_n-some 2 c h e)))
]

Round-cases :
    (r : Round)
    → ((c : TcpTunnelConn) × (a : Result TcpError (List ℕ)) × (r ≡ finished c a))
      ⊎ ((c : TcpTunnelConn) × (r ≡ again c))
Round-cases (finished c a) = inl (c, a, refl)
Round-cases (again c) = inr (c, refl)

le_trans_lt : {a b f : ℕ} → a < b → b < suc f → a < f
le_trans_lt p q = omega (arith, p, q)

read_loop-IsAnswer :
    (fuel n : ℕ) (c : TcpTunnelConn) → length c.stream < fuel → IsAnswer (read_loop fuel n c).1
unfolding read_loop
read_loop-IsAnswer zero n c h = absurd (omega arith)
read_loop-IsAnswer (suc fuel) n c h = elim (Round-cases (read_round n c)) [
  | inl (c₁, a, e) ↦
      rw (read_loop, e) (subst (Progress (length c.stream)) e (read_round-Progress n c))
  | inr (c₁, e) ↦
      rw (read_loop, e)
        (read_loop-IsAnswer fuel n c₁
          (le_trans_lt (subst (Progress (length c.stream)) e (read_round-Progress n c)) h))
]

-- `Read` always comes back, on any stream and for a slice of any size: with bytes, or with one of the code's
-- errors, never for lack of fuel or with a slice out of range.
pub tcp_read-IsAnswer : (n : ℕ) (c : TcpTunnelConn) → IsAnswer (tcp_read n c).1
unfolding tcp_read
tcp_read-IsAnswer n c =
    ground
      (arith, read_loop-IsAnswer (suc (length c.stream)) n c, keep_rest-IsAnswer n c.read_buf c)
