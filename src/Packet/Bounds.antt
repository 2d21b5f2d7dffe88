-- ===== src/Packet/Bounds.antt =====
-- The reads of internal/zctcpip on packets that pass `Valid`.
use zju_portal_core.Base.{
  ℕ, ◌+◌, ◌-◌, ◌*◌, ◌/◌, ◌%◌, ◌≤◌, ◌<◌, ◌≡◌, Bool, true, false, ◌&&◌, List, length, arith,
  get_elem?-some, take, drop, length-take, length-drop, Bool-cases, inl, inr, not, leb, ltb,
  nat_beq,
}
use zju_portal_core.Stream.{ok, index, slice}
use zju_portal_core.Packet.{
  uint16_at, ip_v4, total_len, header_len, payload, ip_at, source_ip, destination_ip, ipv4_valid,
  udp_length, udp_valid, ipv4_header_size,
}

pub index-ok :
    {E : Type 0} (p : List ℕ) (i : ℕ) → i < length p → (x : ℕ) × (index {E = E} p i ≡ ok x)
unfolding index
index-ok p i h = let (x, e) = get_elem?-some p i h in (x, ground arith)

pub uint16_at-ok :
    {E : Type 0} (i : ℕ) (p : List ℕ) → i + 1 < length p → (x : ℕ) × (uint16_at {E = E} i p ≡ ok x)
unfolding uint16_at
uint16_at-ok i p h =
    let (a, e) = get_elem?-some p i (omega arith) in
    let (b, f) = get_elem?-some p (i + 1) h in (a * 256 + b, ground arith)

-- What `IPv4Packet.Valid` promises the other reads.
pub record IsIpv4 (E : Type 0) (p : List ℕ) : Type 0 where
  pub long : ipv4_header_size ≤ length p
  pub from : ℕ
  pub to : ℕ
  pub header : header_len {E = E} p ≡ ok from
  pub total : total_len {E = E} p ≡ ok to
  pub ordered : (ipv4_header_size ≤ from) × (from ≤ to) × (to ≤ length p)

pub ipv4_valid-IsIpv4 : {E : Type 0} (p : List ℕ) → ipv4_valid {E = E} p ≡ ok true → IsIpv4 E p
unfolding ipv4_valid header_len total_len
ipv4_valid-IsIpv4 {E} p h = elim (Bool-cases (ltb (length p) ipv4_header_size)) [
  | inl short ↦ absurd (ground arith)
  | inr enough ↦
      let (b, first) = index-ok {E = E} p 0 (ground arith) in
      let (n, second) = uint16_at-ok {E = E} 2 p (ground arith) in
      record {
        long = ground arith;
        from = b % 16 * 4 % 65536;
        to = n;
        header = ground arith;
        total = ground arith;
        ordered = ground arith;
      }
]

-- The payload of a valid packet is there, and has the length that the header says.
pub payload-ok :
    {E : Type 0} (p : List ℕ)
    → IsIpv4 E p
    → (xs : List ℕ) × (payload {E = E} p ≡ ok xs) × (length xs + 20 ≤ length p)
unfolding payload slice
payload-ok p v = (
  take (v.to - v.from) (drop v.from p),
  ground (arith, v.header, v.total, v.ordered),
  omega
      (arith, length-take (v.to - v.from) (drop v.from p), length-drop v.from p, v.ordered, v.long),
)

pub destination_ip-ok :
    {E : Type 0} (p : List ℕ) → 20 ≤ length p → (ip : List ℕ) × (destination_ip {E = E} p ≡ ok ip)
unfolding destination_ip ip_at
destination_ip-ok {E} p h =
    let (a, ea) = index-ok {E = E} p 16 (omega arith) in
    let (b, eb) = index-ok {E = E} p 17 (omega arith) in
    let (c, ec) = index-ok {E = E} p 18 (omega arith) in
    let (d, ed) = index-ok {E = E} p 19 (omega arith) in (ip_v4 a b c d, ground arith)

pub source_ip-ok :
    {E : Type 0} (p : List ℕ) → 20 ≤ length p → (ip : List ℕ) × (source_ip {E = E} p ≡ ok ip)
unfolding source_ip ip_at
source_ip-ok {E} p h =
    let (a, ea) = index-ok {E = E} p 12 (omega arith) in
    let (b, eb) = index-ok {E = E} p 13 (omega arith) in
    let (c, ec) = index-ok {E = E} p 14 (omega arith) in
    let (d, ed) = index-ok {E = E} p 15 (omega arith) in (ip_v4 a b c d, ground arith)

pub udp_valid-ok :
    {E : Type 0} (p : List ℕ)
    → (v : Bool) × (udp_valid {E = E} p ≡ ok v) × (v ≡ true → 8 ≤ length p)
unfolding udp_valid udp_length
udp_valid-ok {E} p = elim (Bool-cases (ltb (length p) 8)) [
  | inl short ↦ (false, ground arith, ground arith)
  | inr enough ↦
      let (n, e) = uint16_at-ok {E = E} 4 p (ground arith) in
      (leb n (length p % 65536), ground arith, ground arith)
]

pub ipv4_valid-ok : {E : Type 0} (p : List ℕ) → (v : Bool) × (ipv4_valid {E = E} p ≡ ok v)
unfolding ipv4_valid header_len total_len
ipv4_valid-ok {E} p = elim (Bool-cases (ltb (length p) ipv4_header_size)) [
  | inl short ↦ (false, ground arith)
  | inr enough ↦
      let (b, first) = index-ok {E = E} p 0 (ground arith) in
      let (n, second) = uint16_at-ok {E = E} 2 p (ground arith) in
      elim (Bool-cases (not (nat_beq (b / 16) 4))) [
        | inl other ↦ (false, ground arith)
        | inr four ↦ (
          leb 20 (b % 16 * 4 % 65536) && leb (b % 16 * 4 % 65536) n && leb n (length p % 65536),
          ground arith,
        )
      ]
]
