-- ===== src/L3Tunnel/Connection.antt =====
-- client/atrust/l3tunnelconn.go: a connection of the layer 3 tunnel: how it fails and closes, what it
-- does with each frame, and how a packet is authenticated and sent. encoding/json and `net.ParseIP`
-- are parameters. A send into `incoming` is taken once there is room.
pub mod Loop
use Prim.Native.String.{◌++◌ as append}
use zju_portal_core.Base.{
  ℕ, zero, suc, ◌-◌, ◌*◌, ◌⊎◌, inl, inr, Bool, true, false, not, ◌&&◌, Option, none, some, List, [],
  ◌∷◌, ◌++◌, String, string_eq, nat_eq, ◌==◌, leb, ltb, nat_beq, length, if◌then◌else◌,
}
use zju_portal_core.Base.Map.{lookup}
use zju_portal_core.Stream.{Result, ok, err, fault}
use zju_portal_core.Core.Error.{Error, plain, wrapf, error_text, is_error?}
use zju_portal_core.L3Tunnel.Conntrack.{
  Conntrack, ConntrackMgr, get_or_create, mark_auth, timeout_auth, modify,
}
use zju_portal_core.L3Tunnel.DataPayload.{
  ParseError, len_mode, token_mode, parse_data_payload, build_data_payload,
}
use zju_portal_core.L3Tunnel.Frames.{
  Frame, FrameError, read_error, out_of_fuel, unexpected_header, cmd_auth_req, cmd_auth_resp,
  cmd_data_resp, cmd_heartbeat_resp, cmd_second_vip_resp, read_frame, request_frame,
}

-- `sent` are the frames that were written, `closes` counts the calls that close the TLS connection, `vips`
-- and `health` are what `onVIP` and `onHealthError` were given, the newest first.
pub record L3TunnelConn : Type 0 where
  pub incoming : List (List ℕ)
  pub closed : Bool
  pub closes : ℕ
  pub terminal_err : Option Error
  pub last_heartbeat : ℕ
  pub conntrack_mgr : ConntrackMgr
  pub vips : List (List (List ℕ))
  pub health : List Error
  pub sent : List (List ℕ)

-- The fields of `authResponseIP` that the code reads; the code is 0 or not.
pub record AuthResponseIp : Type 0 where
  pub code_is_zero : Bool
  pub message : String
  pub conntrack_hash : ℕ
  pub connect_token : String
  pub token : String

-- `interface{}` as `json.Unmarshal` fills it; the members of an object are in the order of the visit.
mutual
  pub data Json : Type 0 where
    object array : JsonList → Json
    text : String → Json
    other : Json

  pub data JsonList : Type 0 where
    end : JsonList
    item : Json → JsonList → JsonList

-- `invalid_sid` is the test of `classifyL3SessionError` for the lower case text.
pub record Library : Type 0 where
  pub unmarshal_auth : List ℕ → Error ⊎ AuthResponseIp
  pub unmarshal_any : List ℕ → Option Json
  pub parse_ip : String → Option (List ℕ)
  pub trim_space : String → String
  pub invalid_sid : String → Bool

abbrev pub err_session_invalid : String
err_session_invalid = "session is invalid"

abbrev pub err_l3_tunnel_auth_timeout : String
err_l3_tunnel_auth_timeout = "l3-tunnel auth timeout"

abbrev pub err_l3_heartbeat_timeout : String
err_l3_heartbeat_timeout = "l3-tunnel heartbeat timeout"

unfoldable pub close : L3TunnelConn → L3TunnelConn
close c = if c.closed then c else record c { closed = true; closes = suc c.closes }

-- The first error stays.
unfoldable pub record_error : Option Error → L3TunnelConn → L3TunnelConn
record_error none c = c
record_error (some e) c = elim c.terminal_err [
  | some first ↦ c
  | none ↦ record c { terminal_err = some e }
]

unfoldable pub fail : Option Error → L3TunnelConn → L3TunnelConn
unfolding close record_error
fail e c = close (record_error e c)

abbrev pub heartbeat_timeout : ℕ
heartbeat_timeout = 75 * 1000000000

unfoldable pub heartbeat_expired : ℕ → L3TunnelConn → Bool
heartbeat_expired now c = leb heartbeat_timeout (now - c.last_heartbeat)

-- A tick of `watchHeartbeats`, if the connection is open.
unfoldable pub watch_heartbeats : ℕ → L3TunnelConn → L3TunnelConn
unfolding heartbeat_expired fail
watch_heartbeats now c =
    if c.closed
    then c
    else if heartbeat_expired now c
    then fail (some (plain err_l3_heartbeat_timeout)) c
    else c

unfoldable pub report_health_error : Option Error → L3TunnelConn → L3TunnelConn
report_health_error none c = c
report_health_error (some e) c =
    if is_error? (some e) err_session_invalid then record c { health = e ∷ c.health } else c

unfoldable pub classify_l3_session_error : Library → Option Error → String → Option Error
classify_l3_session_error lib none message = none
classify_l3_session_error lib (some e) message =
    if lib.invalid_sid message
    then some (wrapf (append (error_text e) ": session is invalid") (plain err_session_invalid))
    else some e

unfoldable pub mark : ℕ → String → Option Error → L3TunnelConn → L3TunnelConn
mark hash token e c = record c { conntrack_mgr = mark_auth hash token e c.conntrack_mgr }

unfoldable pub mark_auth_error_from_payload : Library → List ℕ → Error → L3TunnelConn → L3TunnelConn
unfolding report_health_error classify_l3_session_error mark
mark_auth_error_from_payload lib payload e c = elim (lib.unmarshal_auth payload) [
  | inr resp ↦
      let classified = classify_l3_session_error lib (some e) resp.message in
      report_health_error classified
        (if nat_beq resp.conntrack_hash 0 then c else mark resp.conntrack_hash "" classified c)
  | inl _ ↦ report_health_error (some e) c
]

abbrev pub response_error : Library → AuthResponseIp → Option Error
response_error lib resp =
    if resp.code_is_zero
    then none
    else classify_l3_session_error lib (some (plain "auth failed")) resp.message

abbrev pub response_token : Library → AuthResponseIp → String
response_token lib resp =
    let t = lib.trim_space resp.connect_token in if t == "" then lib.trim_space resp.token else t

abbrev pub or_missing : String → Option Error → Option Error
or_missing token (some e) = some e
or_missing token none = if token == "" then some (plain "missing connect token") else none

-- The end of `handleAuthResp`.
unfoldable pub settle_response : Library → AuthResponseIp → L3TunnelConn → L3TunnelConn
unfolding report_health_error mark classify_l3_session_error
settle_response lib resp c =
    let token = response_token lib resp in
    let e = or_missing token (response_error lib resp) in
    report_health_error e (mark resp.conntrack_hash token e c)

unfoldable pub handle_auth_resp : Library → ℕ → List ℕ → L3TunnelConn → L3TunnelConn
unfolding mark_auth_error_from_payload settle_response
handle_auth_resp lib status payload c =
    if not (nat_beq status 0)
    then mark_auth_error_from_payload lib payload (plain "auth status") c
    else elim (lib.unmarshal_auth payload) [
      | inl e ↦ mark_auth_error_from_payload lib payload e c
      | inr resp ↦
          if nat_beq resp.conntrack_hash 0
          then mark_auth_error_from_payload lib payload (plain "missing conntrack hash") c
          else settle_response lib resp c
    ]

-- `visitJSONValues`: the texts of a value.
unfoldable mutual
  pub visit_json_values : Json → List String
  visit_json_values (object items) = visit_json_list items
  visit_json_values (array items) = visit_json_list items
  visit_json_values (text s) = s ∷ []
  visit_json_values other = []

  pub visit_json_list : JsonList → List String
  visit_json_list end = []
  visit_json_list (item v rest) = visit_json_values v ++ visit_json_list rest

abbrev pub parsed_ips : Library → List String → List (List ℕ)
parsed_ips lib [] = []
parsed_ips lib (s ∷ rest) = elim (lib.parse_ip s) [
  | some ip ↦ ip ∷ parsed_ips lib rest
  | none ↦ parsed_ips lib rest
]

unfoldable pub extract_vips : Library → List ℕ → List (List ℕ)
unfolding visit_json_values
extract_vips lib payload = elim (lib.unmarshal_any payload) [
  | none ↦ []
  | some v ↦ parsed_ips lib (visit_json_values v)
]

unfoldable pub handle_second_vip_resp : Library → ℕ → List ℕ → L3TunnelConn → L3TunnelConn
unfolding extract_vips
handle_second_vip_resp lib status payload c =
    if not (nat_beq status 0) then c else elim (extract_vips lib payload) [
      | [] ↦ c
      | ip ∷ ips ↦ record c { vips = (ip ∷ ips) ∷ c.vips }
    ]

-- The sends into `incoming`; a closed connection takes none.
unfoldable pub deliver : List (List ℕ) → L3TunnelConn → L3TunnelConn
deliver packets c = if c.closed then c else record c { incoming = c.incoming ++ packets }

unfoldable pub deliver_parsed : Result ParseError (List (List ℕ)) → L3TunnelConn → L3TunnelConn
unfolding deliver
deliver_parsed (ok packets) c = deliver packets c
deliver_parsed (err e) c = c
deliver_parsed fault c = c

unfoldable pub handle_data : Frame → L3TunnelConn → L3TunnelConn
unfolding deliver_parsed
handle_data fr c = elim fr.data_mode [
  | some len_mode ↦ deliver (fr.payload ∷ []) c
  | _ ↦ deliver_parsed (parse_data_payload fr.payload) c
]

unfoldable pub touch_heartbeat : ℕ → L3TunnelConn → L3TunnelConn
touch_heartbeat now c = record c { last_heartbeat = now }

-- The `switch` of `readLoop`.
unfoldable pub handle_frame : Library → ℕ → Frame → L3TunnelConn → L3TunnelConn
unfolding handle_data handle_auth_resp handle_second_vip_resp touch_heartbeat
handle_frame lib now fr c =
    if nat_beq fr.cmd cmd_data_resp
    then handle_data fr c
    else if nat_beq fr.cmd cmd_auth_resp
    then handle_auth_resp lib fr.status fr.payload c
    else if nat_beq fr.cmd cmd_second_vip_resp
    then handle_second_vip_resp lib fr.status fr.payload c
    else if nat_beq fr.cmd cmd_heartbeat_resp
    then touch_heartbeat now c
    else c

abbrev pub frame_error : FrameError → Error
frame_error read_error = plain "EOF"
frame_error out_of_fuel = plain "out of fuel"
frame_error (unexpected_header a b) = plain "unexpected header"

-- A frame whose packets find the connection closed ends the loop.
unfoldable pub has_packets : Frame → Bool
has_packets fr = elim fr.data_mode [
  | some token_mode ↦ elim (parse_data_payload fr.payload) [ ok (p ∷ ps) ↦ true | _ ↦ false ]
  | _ ↦ false
]

-- `readLoop`; `clock` tells the time by the bytes that are left. A frame takes bytes.
unfoldable pub read_loop : Library → (ℕ → ℕ) → ℕ → List ℕ → L3TunnelConn → L3TunnelConn
unfolding handle_frame has_packets fail
read_loop lib clock zero s c = c
read_loop lib clock (suc fuel) s c = elim (read_frame s) [
  | err e ↦ fail (some (frame_error e)) c
  | fault ↦ c
  | ok (fr, rest) ↦ elim (c.closed && has_packets fr) [
    | true ↦ c
    | false ↦ read_loop lib clock fuel rest (handle_frame lib (clock (length rest)) fr c)
  ]
]

-- `ReadPacket` when there is a packet or the connection is closed; `none` waits.
unfoldable pub read_packet : L3TunnelConn → L3TunnelConn × Option (Result Error (List ℕ))
read_packet c = elim c.incoming [
  | pkt ∷ rest ↦ (record c { incoming = rest }, some (ok pkt))
  | [] ↦
      if c.closed
      then (c, some (err (elim c.terminal_err [ some e ↦ e | none ↦ plain "EOF" ])))
      else (c, none)
]
