-- ===== src/Tests/TunnelTests.antt =====
-- Runs of the models of client/atrust/ at concrete inputs.
use zju_portal_core.Base.{
  ℕ, ◌≡◌, refl, ◌⊎◌, ◌≤◌, ◌++◌, length, drop, none, List, [], ◌∷◌, string_eq, nat_eq, arith,
}
use zju_portal_core.Base.Map.{lookup, insert}
use zju_portal_core.Stream.{ok, be16, index, slice}
use zju_portal_core.L3Tunnel.DataPayload.{
  build_data_payload, parse_data_payload, read_data_resp_payload, token_mode,
}
use zju_portal_core.L3Tunnel.DataPayload.RoundTrip.{read-build_data_payload}
use zju_portal_core.L3Tunnel.Conntrack.{
  ConntrackMgr, new_conntrack_mgr, get_or_create, mark_auth, cleanup, find_oldest,
}
use zju_portal_core.L3Tunnel.Conntrack.Consistent.{IsConsistent}
use zju_portal_core.L3Tunnel.Conntrack.Invariant.{
  Reach, here, next, gets, marks, Reach-IsConsistent,
}
use zju_portal_core.L3Tunnel.Conntrack.Eviction.{AllPending}
use zju_portal_core.L3Tunnel.Conntrack.Capacity.{get_or_create_bound}
use zju_portal_core.Resource.{IpResource, bytes_le}
use zju_portal_core.Packet.{
  destination_ip, ipv4_valid, header_len, total_len, uint16_at, protocol, payload, udp_valid,
  udp_length, destination_port, ip_at,
}
use zju_portal_core.L3Tunnel.Filter.{PacketError, Flow, flow_of, grants, process_ipv4}
use zju_portal_core.L3Tunnel.Filter.Choice.{Allows, IsFlow, IsFirst, process_ipv4-IsFirst}
use zju_portal_core.Packet.Bounds.{IsIpv4}

abbrev no_token : List ℕ
no_token = []

abbrev two_packets : List (List ℕ)
two_packets = (69 ∷ 1 ∷ []) ∷ (69 ∷ 2 ∷ 3 ∷ []) ∷ []

read-build_data_payload_example :
    (payload : List ℕ) × (read_data_resp_payload
        (drop 2 (build_data_payload no_token two_packets) ++ 5 ∷ [])
      ≡ ok ((payload, token_mode), 5 ∷ []))
    × (parse_data_payload payload ≡ ok two_packets)
unfolding build_data_payload be16
read-build_data_payload_example =
    read-build_data_payload no_token two_packets (5 ∷ []) (omega arith) (omega arith)
      (omega arith, (omega arith, tt)) refl

abbrev one_flow : ConntrackMgr
one_flow = (get_or_create 10 "k" "app" "group" new_conntrack_mgr).0

abbrev answered : ConntrackMgr
answered = mark_auth 1 "token" none one_flow

abbrev answered_reached : Reach new_conntrack_mgr answered
answered_reached = next (next here (gets 10 "k" "app" "group")) (marks 1 "token" none)

Reach-IsConsistent_example : IsConsistent answered
Reach-IsConsistent_example = Reach-IsConsistent answered_reached

one_flow-IsConsistent : IsConsistent one_flow
one_flow-IsConsistent = Reach-IsConsistent (next here (gets 10 "k" "app" "group"))

get_or_create_bound_example :
    (length (get_or_create 20 "j" "app" "group" answered).0.by_key ≤ answered.limit)
    ⊎ AllPending (cleanup 20 answered) (cleanup 20 answered).by_key
unfolding mark_auth get_or_create lookup find_oldest new_conntrack_mgr insert
get_or_create_bound_example = get_or_create_bound 20 "j" "app" "group" answered (omega arith)

-- A UDP packet to 10.0.0.2:53 under a resource of that address.
abbrev dns_packet : List ℕ
dns_packet =
    69 ∷ 0 ∷ 0 ∷ 28 ∷ 0 ∷ 0 ∷ 0 ∷ 0 ∷ 64 ∷ 17 ∷ 0 ∷ 0 ∷ 10 ∷ 0 ∷ 0 ∷ 1 ∷ 10 ∷ 0 ∷ 0 ∷ 2 ∷ 16 ∷ 0 ∷ 0
    ∷ 53 ∷ 0 ∷ 8 ∷ 0 ∷ 0 ∷ []

abbrev server : List ℕ
server = 0 ∷ 0 ∷ 0 ∷ 0 ∷ 0 ∷ 0 ∷ 0 ∷ 0 ∷ 0 ∷ 0 ∷ 255 ∷ 255 ∷ 10 ∷ 0 ∷ 0 ∷ 2 ∷ []

abbrev client : List ℕ
client = 0 ∷ 0 ∷ 0 ∷ 0 ∷ 0 ∷ 0 ∷ 0 ∷ 0 ∷ 0 ∷ 0 ∷ 255 ∷ 255 ∷ 10 ∷ 0 ∷ 0 ∷ 1 ∷ []

abbrev dns_resource : IpResource
dns_resource = record {
  ip_min = server;
  ip_max = server;
  port_min = 53;
  port_max = 53;
  protocol = "udp";
  app_id = "dns";
  node_group_id = "group";
}

process_ipv4-IsFirst_example :
    IsIpv4 PacketError dns_packet
    × (flow : Flow) × (d : List ℕ) × (flow_of dns_packet ≡ ok flow)
    × IsFlow dns_packet flow
    × (destination_ip {E = PacketError} dns_packet ≡ ok d)
    × IsFirst (Allows d flow) dns_resource (dns_resource ∷ [])
unfolding process_ipv4 ipv4_valid flow_of grants destination_ip bytes_le index header_len total_len
    uint16_at protocol payload slice udp_valid udp_length destination_port ip_at
process_ipv4-IsFirst_example = process_ipv4-IsFirst (dns_resource ∷ []) dns_packet dns_resource refl
