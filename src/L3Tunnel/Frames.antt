-- ===== src/L3Tunnel/Frames.antt =====
-- client/atrust/l3tunnelconn.go: the frames that the portal sends, `readFrame`, and the frames of a
-- request. `stream` is what the portal sends until it closes.
pub mod Reading
use zju_portal_core.Base.{
  ℕ, zero, suc, ◌+◌, Bool, true, false, ◌&&◌, ◌||◌, Option, none, some, List, [], ◌∷◌, ◌++◌, length,
  drop, nat_beq, if◌then◌else◌,
}
use zju_portal_core.Stream.{Result, ok, err, fault, ◌>>=◌, read_full, index, be16, put16}
use zju_portal_core.L3Tunnel.DataPayload.{l3_version, ReadError, DataMode, read_data_resp_payload}

abbrev pub cmd_auth_req : ℕ
cmd_auth_req = 0x13

abbrev pub cmd_auth_resp : ℕ
cmd_auth_resp = 0x93

abbrev pub cmd_data_resp : ℕ
cmd_data_resp = 0x94

abbrev pub cmd_heartbeat_req : ℕ
cmd_heartbeat_req = 0x15

abbrev pub cmd_heartbeat_resp : ℕ
cmd_heartbeat_resp = 0x95

abbrev pub cmd_second_vip_resp : ℕ
cmd_second_vip_resp = 0x96

pub record Frame : Type 0 where
  pub cmd : ℕ
  pub status : ℕ
  pub payload : List ℕ
  pub data_mode : Option DataMode

pub data FrameError : Type 0 where
  read_error out_of_fuel : FrameError
  unexpected_header : ℕ → ℕ → FrameError

-- A 16-bit length and that many bytes.
unfoldable pub read_sized : List ℕ → Result FrameError (List ℕ × List ℕ)
read_sized s = do (lenBytes, s₁) ← read_full read_error 2 s; read_full read_error (be16 lenBytes) s₁

unfoldable pub read_status_frame : ℕ → List ℕ → Result FrameError (Frame × List ℕ)
read_status_frame cmd s = do
  (statusLen, s₁) ← read_full read_error 3 s
  status ← index statusLen 0
  (payload, s₂) ← read_full read_error (be16 (drop 1 statusLen)) s₁
  ok (record { cmd = cmd; status = status; payload = payload; data_mode = none }, s₂)

abbrev pub data_frame_of :
    Result ReadError ((List ℕ × DataMode) × List ℕ) → Result FrameError (Frame × List ℕ)
data_frame_of (ok ((payload, mode), s)) =
    ok (record { cmd = cmd_data_resp; status = 0; payload = payload; data_mode = some mode }, s)
data_frame_of (err e) = err read_error
data_frame_of fault = fault

unfoldable pub read_other_frame : ℕ → List ℕ → Result FrameError (Frame × List ℕ)
unfolding read_sized
read_other_frame cmd s = do
  (payload, s₁) ← read_sized s
  ok (record { cmd = cmd; status = 0; payload = payload; data_mode = none }, s₁)

-- A frame with the version in front.
unfoldable pub read_versioned : ℕ → List ℕ → Result FrameError (Frame × List ℕ)
unfolding read_status_frame read_other_frame
read_versioned cmd s =
    if nat_beq cmd cmd_auth_resp || nat_beq cmd cmd_second_vip_resp
    then read_status_frame cmd s
    else if nat_beq cmd cmd_data_resp
    then data_frame_of (read_data_resp_payload s)
    else read_other_frame cmd s

-- The loop of `readFrame`: a protocol frame is passed over.
unfoldable pub read_frame_loop : ℕ → List ℕ → Result FrameError (Frame × List ℕ)
unfolding read_versioned
read_frame_loop zero s = err out_of_fuel
read_frame_loop (suc fuel) [] = err read_error
read_frame_loop (suc fuel) (a ∷ []) = err read_error
read_frame_loop (suc fuel) (a ∷ b ∷ s) =
    if nat_beq a l3_version
    then read_versioned b s
    else if nat_beq a 0x53 && nat_beq b 0
    then (read_sized s >>= λ r. read_frame_loop fuel r.1)
    else err (unexpected_header a b)

-- Each frame takes two bytes or more.
unfoldable pub read_frame : List ℕ → Result FrameError (Frame × List ℕ)
unfolding read_frame_loop
read_frame s = read_frame_loop (suc (length s)) s

-- The frame that `sendAuthRequest` and the heartbeat send.
unfoldable pub request_frame : ℕ → List ℕ → List ℕ
request_frame cmd payload = l3_version ∷ cmd ∷ (put16 (length payload) ++ payload)

-- `wrapAuthReqData`: the message of `authTunnel` with the SOCKS5 lines around it.
unfoldable pub wrap_auth_req_data : List ℕ → ℕ → List ℕ
wrap_auth_req_data payload addrType =
    l3_version
    ∷ 1
    ∷ 0xD0
    ∷ 0x53
    ∷ 0
    ∷ (put16 (length payload) ++ (payload ++ 5 ∷ 4 ∷ 0 ∷ addrType ∷ 0 ∷ 0 ∷ 0 ∷ 0 ∷ 0 ∷ 0 ∷ []))

unfoldable pub vip_payload_length : ℕ → ℕ
vip_payload_length addrType =
    if nat_beq addrType 1
    then 6
    else if nat_beq addrType 4
    then 18
    else if nat_beq addrType 5
    then 22
    else 4
