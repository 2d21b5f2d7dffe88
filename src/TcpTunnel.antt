-- ===== src/TcpTunnel.antt =====
-- client/atrust/tcptunnel.go: the handshake and the framing of a TCP connection through the portal.
-- `stream` is what the peer sends until it closes; a read past its end takes the rest and is an error.
-- A text is its bytes.
pub mod Handshake
pub mod Framing
pub mod Slices
pub mod Ends
pub mod Accepts
pub mod Setup
use zju_portal_core.Base.{
  ℕ, zero, suc, ◌+◌, Bool, true, false, not, ◌&&◌, ◌||◌, Option, none, some, List, [], ◌∷◌, ◌++◌,
  String, length, take, drop, leb, ltb, nat_beq, if◌then◌else◌,
}
use zju_portal_core.Stream.{Result, ok, err, fault, ◌>>=◌, ◌>>◌, read_full, index, be16, put16}

-- `session_invalid` wraps `client.ErrSessionInvalid`; `wrap` is `fmt.Errorf` with one `%w`.
pub data TcpError : Type 0 where
  io_error session_invalid closed_by_server data_too_large : TcpError
  setup_failed : List ℕ → TcpError
  unexpected_status unexpected_response : ℕ → ℕ → TcpError
  unexpected_address_type : ℕ → TcpError
  server_failure not_allowed network_unreachable host_unreachable connection_refused : TcpError
  ttl_expired command_not_supported address_type_not_supported : TcpError
  connect_failed : ℕ → TcpError
  short_write out_of_fuel : TcpError
  canceled : TcpError
  plain_error : String → TcpError
  wrap : String → TcpError → TcpError

-- `strings.HasPrefix` and `strings.Contains`, the text first.
unfoldable pub has_prefix : List ℕ → List ℕ → Bool
has_prefix s [] = true
has_prefix [] (x ∷ xs) = false
has_prefix (y ∷ s) (x ∷ xs) = nat_beq y x && has_prefix s xs

unfoldable pub contains : List ℕ → List ℕ → Bool
unfolding has_prefix
contains [] t = has_prefix [] t
contains (x ∷ s) t = has_prefix (x ∷ s) t || contains s t

abbrev pub ok_text : List ℕ
ok_text = b'O' ∷ b'K' ∷ []

abbrev pub invalid_sid_text : List ℕ
invalid_sid_text = b'i' ∷ b'n' ∷ b'v' ∷ b'a' ∷ b'l' ∷ b'i' ∷ b'd' ∷ b' ' ∷ b'S' ∷ b'I' ∷ b'D' ∷ []

unfoldable pub read_tcp_protocol_response : List ℕ → Result TcpError (List ℕ × List ℕ)
read_tcp_protocol_response s = do
  (lengthBytes, s₁) ← read_full io_error 2 s
  read_full io_error (be16 lengthBytes) s₁

unfoldable pub validate_tcp_protocol_response : List ℕ → Option TcpError
validate_tcp_protocol_response response =
    if contains response ok_text
    then none
    else if contains response invalid_sid_text
    then some session_invalid
    else some (setup_failed response)

-- The length byte of a domain.
unfoldable pub domain_length : List ℕ → Result TcpError (ℕ × List ℕ)
domain_length s = do (lengthByte, s₁) ← read_full io_error 1 s; n ← index lengthByte 0; ok (n, s₁)

-- The `switch` on the address type: the length of the address.
unfoldable pub address_length : ℕ → List ℕ → Result TcpError (ℕ × List ℕ)
unfolding domain_length
address_length addrType s =
    if nat_beq addrType 1
    then ok (4, s)
    else if nat_beq addrType 3
    then domain_length s
    else if nat_beq addrType 4
    then ok (16, s)
    else err (unexpected_address_type addrType)

unfoldable pub read_bound_address : ℕ → List ℕ → Result TcpError (List ℕ)
unfolding address_length
read_bound_address addrType s = do
  (n, s₁) ← address_length addrType s
  (_, s₂) ← read_full io_error (n + 2) s₁
  ok s₂

unfoldable pub read_tcp_connect_status : List ℕ → Result TcpError (ℕ × List ℕ)
unfolding read_bound_address
read_tcp_connect_status s = do
  (header, s₁) ← read_full io_error 4 s
  version ← index header 0
  status ← index header 1
  addrType ← index header 3
  if not (nat_beq version 5)
      then err (unexpected_status version status)
      else if not (nat_beq status 0)
      then ok (status, s₁)
      else read_bound_address addrType s₁ >>= λ s₂. ok (status, s₂)

-- The `switch` at the end of `waitForTCPConnect`.
unfoldable pub status_error : ℕ → Option TcpError
status_error status =
    if nat_beq status 0
    then none
    else if nat_beq status 1
    then some server_failure
    else if nat_beq status 2
    then some not_allowed
    else if nat_beq status 3
    then some network_unreachable
    else if nat_beq status 4
    then some host_unreachable
    else if nat_beq status 5
    then some connection_refused
    else if nat_beq status 6
    then some ttl_expired
    else if nat_beq status 7
    then some command_not_supported
    else if nat_beq status 8
    then some address_type_not_supported
    else some (connect_failed status)

abbrev pub wrapped {ℓ} : {A : Type ℓ} → String → Result TcpError A → Result TcpError A
wrapped text (ok a) = ok a
wrapped text (err e) = err (wrap text e)
wrapped text fault = fault

-- `waitForTCPConnect` after the loop: the bytes that are left.
unfoldable pub finish_connect : List ℕ → Result TcpError (List ℕ)
unfolding status_error
finish_connect s = do
  (status, s₁) ← wrapped "failed to read tcp tunnel connect status" (read_tcp_connect_status s)
  elim (status_error status) [ none ↦ ok s₁ | some e ↦ err e ]

-- From the header of the protocol response on.
unfoldable pub read_setup : List ℕ → Result TcpError (List ℕ)
unfolding finish_connect
read_setup s = do
  (response, s₁) ←
      wrapped "failed to read tcp tunnel protocol response" (read_tcp_protocol_response s)
  elim (validate_tcp_protocol_response response) [ none ↦ finish_connect s₁ | some e ↦ err e ]

-- `waitForTCPConnect`; each round takes the two bytes of a header.
unfoldable pub wait_for_tcp_connect : List ℕ → Result TcpError (List ℕ)
unfolding read_setup
wait_for_tcp_connect [] = err (wrap "failed to read tcp tunnel response" io_error)
wait_for_tcp_connect (a ∷ []) = err (wrap "failed to read tcp tunnel response" io_error)
wait_for_tcp_connect (a ∷ b ∷ s) = elim (nat_beq a 5 && nat_beq b 0x81) [
  | true ↦ wait_for_tcp_connect s
  | false ↦ if nat_beq a 0x53 && nat_beq b 0 then read_setup s else err (unexpected_response a b)
]

pub record TcpTunnelConn : Type 0 where
  pub stream : List ℕ
  pub read_buf : List ℕ
  pub sent : List ℕ
  pub closed : Bool
  pub health_errors : List TcpError

-- `io.ReadFull` of n bytes; what there was is taken in any case.
unfoldable pub read_n : ℕ → TcpTunnelConn → TcpTunnelConn × Option (List ℕ)
read_n n c =
    if leb n (length c.stream)
    then (record c { stream = drop n c.stream }, some (take n c.stream))
    else (record c { stream = [] }, none)

-- A frame with a 16-bit length in front of its bytes.
unfoldable pub read_sized : TcpTunnelConn → TcpTunnelConn × Option (List ℕ)
unfolding read_n
read_sized c =
    let (c₁, size) = read_n 2 c in elim size [ none ↦ (c₁, none) | some l ↦ read_n (be16 l) c₁ ]

-- How many bytes `copy` moves into a slice of n bytes.
abbrev pub copied : ℕ → List ℕ → ℕ
copied n p = if leb n (length p) then n else length p

-- `p[a:]`.
unfoldable pub slice_from : ℕ → List ℕ → Result TcpError (List ℕ)
slice_from a p = if leb a (length p) then ok (drop a p) else fault

-- The first bytes are copied, the rest waits in `readBuf`.
unfoldable pub keep_rest :
    ℕ → List ℕ → Result TcpError (List ℕ) → TcpTunnelConn → TcpTunnelConn × Result TcpError (List ℕ)
keep_rest k p (ok rest) c = (record c { read_buf = rest }, ok (take k p))
keep_rest k p (err e) c = (c, err e)
keep_rest k p fault c = (c, fault)

unfoldable pub deliver : ℕ → List ℕ → TcpTunnelConn → TcpTunnelConn × Result TcpError (List ℕ)
unfolding slice_from keep_rest
deliver n bytes c =
    let k = copied n bytes in
    if ltb k (length bytes)
    then keep_rest k bytes (slice_from k bytes) c
    else (c, ok (take k bytes))

-- Application data for a slice of n bytes.
unfoldable pub read_data : ℕ → TcpTunnelConn → TcpTunnelConn × Result TcpError (List ℕ)
unfolding read_sized deliver
read_data n c =
    let (c₁, body) = read_sized c in
    elim body [ none ↦ (c₁, err io_error) | some bytes ↦ deliver n bytes c₁ ]

-- The error of a protocol response ends the connection; `reportHealthError` learns of an invalid session.
unfoldable pub refuse_response : TcpError → TcpTunnelConn → TcpTunnelConn
refuse_response session_invalid c = record c {
  health_errors = session_invalid ∷ c.health_errors;
  closed = true;
}
refuse_response e c = record c { closed = true }

pub data FrameKind : Type 0 where
  application_data control protocol_response unknown_frame : FrameKind

abbrev pub frame_kind : List ℕ → FrameKind
frame_kind (a ∷ b ∷ []) =
    if nat_beq a 1 && nat_beq b 0
    then application_data
    else if nat_beq a 1 && nat_beq b 1
    then control
    else if nat_beq a 0x53 && nat_beq b 0
    then protocol_response
    else unknown_frame
frame_kind _ = unknown_frame

abbrev pub is_close_message : List ℕ → Bool
is_close_message (a ∷ b ∷ []) = nat_beq a 0x30 && nat_beq b 0x30
is_close_message _ = false

-- What one round of the loop of `Read` gives: a result, or the state to go on from.
pub data Round : Type 0 where
  finished : TcpTunnelConn → Result TcpError (List ℕ) → Round
  again : TcpTunnelConn → Round

unfoldable pub read_control : TcpTunnelConn → Round
unfolding read_n
read_control c =
    let (c₁, body) = read_n 2 c in
    elim body [
      | none ↦ finished c₁ (err io_error)
      | some b ↦
          if is_close_message b
          then finished (record c₁ { closed = true }) (err closed_by_server)
          else again c₁
    ]

unfoldable pub read_protocol : TcpTunnelConn → Round
unfolding read_sized refuse_response validate_tcp_protocol_response
read_protocol c =
    let (c₁, body) = read_sized c in
    elim body [
      | none ↦ finished c₁ (err io_error)
      | some response ↦ elim (validate_tcp_protocol_response response) [
        | none ↦ again c₁
        | some e ↦ finished (refuse_response e c₁) (err e)
      ]
    ]

-- The branches of the loop on the header of the frame.
unfoldable pub read_frame : FrameKind → ℕ → TcpTunnelConn → Round
read_frame application_data n c = let (c₁, r) = read_data n c in finished c₁ r
read_frame control n c = read_control c
read_frame protocol_response n c = read_protocol c
read_frame unknown_frame n c = again c

unfoldable pub read_round : ℕ → TcpTunnelConn → Round
unfolding read_n
read_round n c =
    let (c₁, header) = read_n 2 c in
    elim header [ none ↦ finished c₁ (err io_error) | some h ↦ read_frame (frame_kind h) n c₁ ]

-- The loop of `Read`; each round takes at least two bytes.
unfoldable pub read_loop : ℕ → ℕ → TcpTunnelConn → TcpTunnelConn × Result TcpError (List ℕ)
unfolding read_round
read_loop zero n c = (c, err out_of_fuel)
read_loop (suc fuel) n c = elim (read_round n c) [
  | finished c₁ r ↦ (c₁, r)
  | again c₁ ↦ read_loop fuel n c₁
]

-- `Read` into a slice of n bytes.
unfoldable pub tcp_read : ℕ → TcpTunnelConn → TcpTunnelConn × Result TcpError (List ℕ)
unfolding read_loop slice_from keep_rest
tcp_read n c = elim c.read_buf [
  | [] ↦ read_loop (suc (length c.stream)) n c
  | x ∷ rest ↦ let k = copied n c.read_buf in keep_rest k c.read_buf (slice_from k c.read_buf) c
]

unfoldable pub data_frame : List ℕ → List ℕ
data_frame b = 1 ∷ 0 ∷ (put16 (length b) ++ b)

-- `Write`; the argument is the error of the TLS connection.
unfoldable pub tcp_write :
    Option TcpError → List ℕ → TcpTunnelConn → TcpTunnelConn × ℕ × Option TcpError
unfolding data_frame
tcp_write tls_err b c =
    if ltb 0xFFFF (length b)
    then (c, 0, some data_too_large)
    else (record c { sent = c.sent ++ data_frame b }, length b, tls_err)

unfoldable pub tcp_close : TcpTunnelConn → TcpTunnelConn
tcp_close c = record c { sent = c.sent ++ 1 ∷ 1 ∷ 0 ∷ 0 ∷ []; closed = true }
