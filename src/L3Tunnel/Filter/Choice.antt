-- ===== src/L3Tunnel/Filter/Choice.antt =====
-- `processIPV4` of client/atrust/l3tunnelpacket.go: it never reads out of range, and it picks the
-- first resource that grants the packet.
use zju_portal_core.Base.{
  ℕ, ◌≡◌, ◌≢◌, ◌≤◌, ◌↔◌, ◌⊎◌, ap, subst, eq_iff, inl, inr, true, none, some, List, [], ◌∷◌, ◌++◌,
  length, arith, if◌then◌else◌, Bool-cases, leb, nat_beq,
}
use zju_portal_core.Stream.{ok, fault, index}
use zju_portal_core.Stream.Laws.{Result-cases}
use zju_portal_core.Packet.{
  icmp, tcp, udp, payload, uint16_at, protocol, destination_ip, tcp_valid, source_port,
  destination_port,
}
use zju_portal_core.Packet.Bounds.{
  index-ok, uint16_at-ok, IsIpv4, ipv4_valid-IsIpv4, ipv4_valid-ok, payload-ok, destination_ip-ok,
  source_ip-ok, udp_valid-ok,
}
use zju_portal_core.Resource.{IpResource, bytes_le}
use zju_portal_core.L3Tunnel.Filter.{
  PacketError, Flow, tcp_flow, udp_flow, icmp_flow, flow_name, flow_of, grants, first_grant,
  process_ipv4, PacketMeta, ports_of, build_packet_meta,
}

flow_of-ne-fault : (p : List ℕ) → IsIpv4 PacketError p → flow_of p ≢ fault
unfolding flow_of protocol tcp_valid destination_port
flow_of-ne-fault p v =
    let (n, e) = index-ok {E = PacketError} p 9 (omega (arith, v.long)) in
    let (segment, there, _) = payload-ok p v in
    let (u, ue, enough) = udp_valid-ok {E = PacketError} segment in
    elim (Bool-cases (leb 4 (length segment))) [
      | inl fits ↦
          let (port, pe) = uint16_at-ok {E = PacketError} 2 segment (ground arith) in
          ground (arith, e, there, ue, pe, enough)
      | inr short ↦ ground (arith, e, there, ue, enough)
    ]

-- `processIPV4` never reads out of the packet's bytes, whatever they are.
pub process_ipv4-ne-fault :
    (resources : List IpResource) (packet : List ℕ) → process_ipv4 resources packet ≢ fault
unfolding process_ipv4
process_ipv4-ne-fault resources packet =
    let (valid, e) = ipv4_valid-ok {E = PacketError} packet in
    elim (Bool-cases valid) [
      | inr bad ↦ ground arith
      | inl good ↦
          let v = ipv4_valid-IsIpv4 {E = PacketError} packet (ground arith) in
          let (ip, there) = destination_ip-ok {E = PacketError} packet v.long in
          let flows = flow_of-ne-fault packet v in ground arith
    ]

-- A resource that allows a flow to a destination: its range of addresses has the destination, it is for the flow's
-- protocol or for all, and, for TCP and UDP, its range of ports has the port.
abbrev InPorts : Flow → IpResource → Type 0
InPorts (tcp_flow port) r = (r.port_min ≤ port) × (port ≤ r.port_max)
InPorts (udp_flow port) r = (r.port_min ≤ port) × (port ≤ r.port_max)
InPorts icmp_flow r = Unit {0}

abbrev pub Allows : List ℕ → Flow → IpResource → Type 0
Allows destination flow r =
    (bytes_le r.ip_min destination ≡ true)
    × (bytes_le destination r.ip_max ≡ true)
    × ((r.protocol ≡ flow_name flow) ⊎ (r.protocol ≡ "all"))
    × InPorts flow r

grants_iff :
    (d : List ℕ) (flow : Flow) (r : IpResource) → (grants d flow r ≡ true) ↔ Allows d flow r
unfolding grants
grants_iff d (tcp_flow port) r = ground (arith, eq_iff r.protocol "tcp", eq_iff r.protocol "all")
grants_iff d (udp_flow port) r = ground (arith, eq_iff r.protocol "udp", eq_iff r.protocol "all")
grants_iff d icmp_flow r = ground (arith, eq_iff r.protocol "icmp", eq_iff r.protocol "all")

abbrev pub NoneOf : (IpResource → Type 0) → List IpResource → Type 0
NoneOf holds [] = Unit {0}
NoneOf holds (r ∷ rs) = ¬ holds r × NoneOf holds rs

-- The first entry of a list of which a predicate holds, with those in front of it.
pub record IsFirst (holds : IpResource → Type 0) (r : IpResource) (rs : List IpResource)
    : Type 0 where
  pub before : List IpResource
  pub after : List IpResource
  pub split : rs ≡ before ++ r ∷ after
  pub passes : holds r
  pub failed : NoneOf holds before

first_grant-IsFirst :
    (d : List ℕ) (flow : Flow) (rs : List IpResource) (r : IpResource)
    → first_grant d flow rs ≡ some r
    → IsFirst (Allows d flow) r rs
unfolding first_grant
first_grant-IsFirst d flow [] r h = cc
first_grant-IsFirst d flow (x ∷ rs) r h = elim (Bool-cases (grants d flow x)) [
  | inl here ↦
      let same : x ≡ r = ground arith in
      record {
        before = [];
        after = rs;
        split = ap (λ y. y ∷ rs) same;
        passes = subst (Allows d flow) same ((grants_iff d flow x).0 here);
        failed = tt;
      }
  | inr later ↦
      let f = first_grant-IsFirst d flow rs r (rw later at h) in
      record {
        before = x ∷ f.before;
        after = f.after;
        split = ap (λ l. x ∷ l) f.split;
        passes = f.passes;
        failed = (
          λ (a : Allows d flow x). absurd (ground (arith, later, (grants_iff d flow x).1 a)),
          f.failed,
        );
      }
]

first_grant-none :
    (d : List ℕ) (flow : Flow) (rs : List IpResource)
    → first_grant d flow rs ≡ none
    → NoneOf (Allows d flow) rs
unfolding first_grant
first_grant-none d flow [] h = tt
first_grant-none d flow (x ∷ rs) h = elim (Bool-cases (grants d flow x)) [
  | inl here ↦ absurd (ground arith)
  | inr later ↦ (
    λ (a : Allows d flow x). absurd (ground (arith, later, (grants_iff d flow x).1 a)),
    first_grant-none d flow rs (rw later at h),
  )
]

-- The flow of a packet, by its protocol byte and the destination port of its payload.
abbrev pub IsFlow : List ℕ → Flow → Type 0
IsFlow p (tcp_flow port) =
    (index {E = PacketError} p 9 ≡ ok tcp)
    × (s : List ℕ) × (payload {E = PacketError} p ≡ ok s)
    × (20 ≤ length s)
    × (uint16_at {E = PacketError} 2 s ≡ ok port)
IsFlow p (udp_flow port) =
    (index {E = PacketError} p 9 ≡ ok udp)
    × (s : List ℕ) × (payload {E = PacketError} p ≡ ok s)
    × (8 ≤ length s)
    × (uint16_at {E = PacketError} 2 s ≡ ok port)
IsFlow p icmp_flow = index {E = PacketError} p 9 ≡ ok icmp

flow_of-IsFlow :
    (p : List ℕ) (flow : Flow) → IsIpv4 PacketError p → flow_of p ≡ ok flow → IsFlow p flow
unfolding flow_of protocol tcp_valid destination_port
flow_of-IsFlow p (tcp_flow port) v h =
    let (n, e) = index-ok {E = PacketError} p 9 (omega (arith, v.long)) in
    let (segment, there, _) = payload-ok p v in
    let (u, ue, enough) = udp_valid-ok {E = PacketError} segment in
    elim (Bool-cases (leb 4 (length segment))) [
      | inl fits ↦
          let (q, pe) = uint16_at-ok {E = PacketError} 2 segment (ground arith) in
          (
            ground (arith, e, there, ue, pe, h),
            segment,
            there,
            ground (arith, e, there, ue, pe, h),
            ground (arith, e, there, ue, pe, h),
          )
      | inr short ↦ absurd (ground (arith, e, there, ue, enough, h))
    ]
flow_of-IsFlow p (udp_flow port) v h =
    let (n, e) = index-ok {E = PacketError} p 9 (omega (arith, v.long)) in
    let (segment, there, _) = payload-ok p v in
    let (u, ue, enough) = udp_valid-ok {E = PacketError} segment in
    elim (Bool-cases (leb 4 (length segment))) [
      | inl fits ↦
          let (q, pe) = uint16_at-ok {E = PacketError} 2 segment (ground arith) in
          (
            ground (arith, e, there, ue, pe, h),
            segment,
            there,
            ground (arith, e, there, ue, pe, h, enough),
            ground (arith, e, there, ue, pe, h),
          )
      | inr short ↦ absurd (ground (arith, e, there, ue, enough, h))
    ]
flow_of-IsFlow p icmp_flow v h =
    let (n, e) = index-ok {E = PacketError} p 9 (omega (arith, v.long)) in
    let (segment, there, _) = payload-ok p v in
    let (u, ue, enough) = udp_valid-ok {E = PacketError} segment in
    elim (Bool-cases (leb 4 (length segment))) [
      | inl fits ↦
          let (q, pe) = uint16_at-ok {E = PacketError} 2 segment (ground arith) in
          ground (arith, e, there, ue, pe, h)
      | inr short ↦ ground (arith, e, there, ue, enough, h)
    ]

-- A packet is sent under a resource only if its IPv4 header is whole and gives lengths that the packet has, it is of
-- TCP, UDP or ICMP, with a whole header of the first two, and the resource is the first in the list whose addresses
-- have the packet's destination, whose protocol is the packet's or all, and whose ports have its destination port,
-- for TCP and UDP.
pub process_ipv4-IsFirst :
    (resources : List IpResource) (packet : List ℕ) (r : IpResource)
    → process_ipv4 resources packet ≡ ok r
    → IsIpv4 PacketError packet
      × (flow : Flow) × (d : List ℕ) × (flow_of packet ≡ ok flow)
      × IsFlow packet flow
      × (destination_ip {E = PacketError} packet ≡ ok d)
      × IsFirst (Allows d flow) r resources
unfolding process_ipv4
process_ipv4-IsFirst resources packet r h =
    let (valid, e) = ipv4_valid-ok {E = PacketError} packet in
    elim (Bool-cases valid) [
      | inr bad ↦ absurd (ground arith)
      | inl good ↦
          let v = ipv4_valid-IsIpv4 {E = PacketError} packet (ground arith) in
          let (ip, there) = destination_ip-ok {E = PacketError} packet v.long in
          elim (Result-cases (flow_of packet)) [
            | inl (flow, fits) ↦ (
              v,
              flow,
              ip,
              fits,
              flow_of-IsFlow packet flow v fits,
              there,
              first_grant-IsFirst ip flow resources r (ground arith),
            )
            | inr (inl (x, bad)) ↦ absurd (ground arith)
            | inr (inr bad) ↦ absurd (ground arith)
          ]
    ]

ports_of-ok :
    (p : List ℕ) (flow : Flow) (n : ℕ)
    → IsIpv4 PacketError p
    → flow_of p ≡ ok flow
    → index {E = PacketError} p 9 ≡ ok n
    → (ports : ℕ × ℕ) × (ports_of n p ≡ ok ports)
unfolding flow_of ports_of protocol tcp_valid destination_port source_port
ports_of-ok p flow n v h e =
    let (segment, there, _) = payload-ok p v in
    let (u, ue, enough) = udp_valid-ok {E = PacketError} segment in
    elim (Bool-cases (leb 4 (length segment))) [
      | inl fits ↦
          let (dst, de) = uint16_at-ok {E = PacketError} 2 segment (ground arith) in
          let (src, se) = uint16_at-ok {E = PacketError} 0 segment (ground arith) in
          (
            if nat_beq n icmp then (0, 0) else (src, dst),
            ground (arith, e, there, ue, de, se, enough),
          )
      | inr short ↦ ((0, 0), ground (arith, e, there, ue, enough))
    ]

-- Whatever `processIPV4` hands to `writePacket`, `buildPacketMeta` accepts.
pub build_packet_meta_total :
    (resources : List IpResource) (packet : List ℕ) (r : IpResource)
    → process_ipv4 resources packet ≡ ok r
    → (m : PacketMeta) × (build_packet_meta packet ≡ ok m)
unfolding process_ipv4 build_packet_meta protocol
build_packet_meta_total resources packet r h =
    let (_, flow, d, fits, _, there, _) = process_ipv4-IsFirst resources packet r h in
    let (valid, e) = ipv4_valid-ok {E = PacketError} packet in
    elim (Bool-cases valid) [
      | inr bad ↦ absurd (ground arith)
      | inl good ↦
          let v = ipv4_valid-IsIpv4 {E = PacketError} packet (ground arith) in
          let (src, s) = source_ip-ok {E = PacketError} packet v.long in
          let (n, p) = index-ok {E = PacketError} packet 9 (omega (arith, v.long)) in
          let (ports, q) = ports_of-ok packet flow n v fits p in
          (
            record {
              atype = 4;
              proto = n;
              src_ip = src;
              dst_ip = d;
              src_port = ports.0;
              dst_port = ports.1;
            },
            ground arith,
          )
    ]
