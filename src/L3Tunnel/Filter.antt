-- ===== src/L3Tunnel/Filter.antt =====
-- client/atrust/l3tunnelpacket.go: which resource an outgoing IP packet belongs to, and what the
-- tunnel remembers of it. `sprintf_key` is `fmt.Sprintf` with the format of `connTrackKey`.
pub mod Choice
use zju_portal_core.Base.{
  ℕ, Bool, true, false, ◌&&◌, ◌||◌, Option, none, some, List, [], ◌∷◌, String, ◌==◌, string_eq, leb,
  nat_beq, if◌then◌else◌, not,
}
use zju_portal_core.Stream.{Result, ok, err, fault, ◌>>=◌}
use zju_portal_core.Packet.{
  icmp, tcp, udp, payload, protocol, source_ip, destination_ip, ipv4_valid, source_port,
  destination_port, tcp_valid, udp_valid,
}
use zju_portal_core.Resource.{IpResource, bytes_le}

-- The last three wrap `client.ErrResourceNotFound`.
pub data PacketError : Type 0 where
  invalid_ipv4 invalid_tcp invalid_udp unsupported_protocol no_resource : PacketError

-- The protocol of a packet, with the destination port of TCP and UDP.
pub data Flow : Type 0 where
  tcp_flow udp_flow : ℕ → Flow
  icmp_flow : Flow

abbrev pub flow_name : Flow → String
flow_name (tcp_flow port) = "tcp"
flow_name (udp_flow port) = "udp"
flow_name icmp_flow = "icmp"

tcp_flow_of : List ℕ → Result PacketError Flow
tcp_flow_of segment =
    if not (tcp_valid segment)
    then err invalid_tcp
    else do port ← destination_port segment; ok (tcp_flow port)

udp_flow_of : List ℕ → Result PacketError Flow
udp_flow_of segment = do
  valid ← udp_valid segment
  if not valid then err invalid_udp else do port ← destination_port segment; ok (udp_flow port)

-- The `switch` on the protocol.
unfoldable pub flow_of : List ℕ → Result PacketError Flow
unfolding tcp_flow_of udp_flow_of
flow_of packet = do
  p ← protocol packet
  if nat_beq p tcp
      then payload packet >>= tcp_flow_of
      else if nat_beq p udp
      then payload packet >>= udp_flow_of
      else if nat_beq p icmp
      then ok icmp_flow
      else err unsupported_protocol

abbrev port_fits : Flow → IpResource → Bool
port_fits (tcp_flow port) r = leb r.port_min port && leb port r.port_max
port_fits (udp_flow port) r = leb r.port_min port && leb port r.port_max
port_fits icmp_flow r = true

-- The tests of the loop over the resources.
unfoldable pub grants : List ℕ → Flow → IpResource → Bool
grants destination flow r =
    bytes_le r.ip_min destination
    && bytes_le destination r.ip_max
    && (r.protocol == flow_name flow || r.protocol == "all")
    && port_fits flow r

unfoldable pub first_grant : List ℕ → Flow → List IpResource → Option IpResource
first_grant destination flow [] = none
first_grant destination flow (r ∷ rs) =
    if grants destination flow r then some r else first_grant destination flow rs

-- `processIPV4` up to its call of `writePacket`: the resource whose application and node group
-- carry the packet.
unfoldable pub process_ipv4 : List IpResource → List ℕ → Result PacketError IpResource
unfolding first_grant
process_ipv4 resources packet = do
  valid ← ipv4_valid packet
  if not valid then err invalid_ipv4 else do
    flow ← flow_of packet
    destination ← destination_ip packet
    elim (first_grant destination flow resources) [ some r ↦ ok r | none ↦ err no_resource ]

pub record PacketMeta : Type 0 where
  pub atype : ℕ
  pub proto : ℕ
  pub src_ip : List ℕ
  pub dst_ip : List ℕ
  pub src_port : ℕ
  pub dst_port : ℕ

segment_ports : List ℕ → Result PacketError (ℕ × ℕ)
segment_ports segment = do src ← source_port segment; dst ← destination_port segment; ok (src, dst)

ports_of : ℕ → List ℕ → Result PacketError (ℕ × ℕ)
unfolding segment_ports
ports_of proto packet =
    if nat_beq proto icmp
    then ok (0, 0)
    else if nat_beq proto tcp || nat_beq proto udp
    then payload packet >>= segment_ports
    else err unsupported_protocol

unfoldable pub build_packet_meta : List ℕ → Result PacketError PacketMeta
unfolding ports_of
build_packet_meta packet = do
  proto ← protocol packet
  ports ← ports_of proto packet
  src ← source_ip packet
  dst ← destination_ip packet
  ok (record {
    atype = 4;
    proto = proto;
    src_ip = src;
    dst_ip = dst;
    src_port = ports.0;
    dst_port = ports.1;
  })

unfoldable pub conn_track_key : (ℕ → List ℕ → ℕ → List ℕ → ℕ → String) → PacketMeta → String
conn_track_key sprintf_key m = sprintf_key m.atype m.src_ip m.src_port m.dst_ip m.dst_port
