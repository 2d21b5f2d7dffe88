-- ===== src/Packet.antt =====
-- internal/zctcpip: the headers of IPv4, TCP and UDP packets. A packet is its bytes; a read out of
-- range is a `fault`. Lengths are converted to 16 bits where the source does.
pub mod Bounds
use zju_portal_core.Base.{
  ℕ, ◌+◌, ◌*◌, ◌/◌, ◌%◌, Bool, true, false, ◌&&◌, ◌||◌, not, List, [], ◌∷◌, ◌++◌, leb, ltb, nat_beq,
  if◌then◌else◌, length, drop, get_or, Option, none, some,
}
use zju_portal_core.Stream.{Result, ok, err, fault, ◌>>=◌, index, slice, be16}

abbrev pub icmp : ℕ
icmp = 0x01

abbrev pub tcp : ℕ
tcp = 0x06

abbrev pub udp : ℕ
udp = 0x11

abbrev pub ipv4_header_size : ℕ
ipv4_header_size = 20

abbrev pub ipv4_version : ℕ
ipv4_version = 4

abbrev pub tcp_header_size : ℕ
tcp_header_size = 20

abbrev pub udp_header_size : ℕ
udp_header_size = 8

-- `binary.BigEndian.Uint16(p[i:])`.
unfoldable pub uint16_at : {E : Type 0} → ℕ → List ℕ → Result E ℕ
unfolding index
uint16_at i p = do a ← index p i; b ← index p (i + 1); ok (a * 256 + b)

unfoldable pub total_len : {E : Type 0} → List ℕ → Result E ℕ
total_len p = uint16_at 2 p

unfoldable pub header_len : {E : Type 0} → List ℕ → Result E ℕ
header_len p = do b ← index p 0; ok (b % 16 * 4 % 65536)

unfoldable pub payload : {E : Type 0} → List ℕ → Result E (List ℕ)
payload p = do a ← header_len p; b ← total_len p; slice p a b

unfoldable pub protocol : {E : Type 0} → List ℕ → Result E ℕ
protocol p = index p 9

-- `net.IPv4(a, b, c, d)`, in its 16-byte form.
unfoldable pub ip_v4 : ℕ → ℕ → ℕ → ℕ → List ℕ
ip_v4 a b c d = 0 ∷ 0 ∷ 0 ∷ 0 ∷ 0 ∷ 0 ∷ 0 ∷ 0 ∷ 0 ∷ 0 ∷ 255 ∷ 255 ∷ a ∷ b ∷ c ∷ d ∷ []

unfoldable pub ip_at : {E : Type 0} → ℕ → List ℕ → Result E (List ℕ)
unfolding ip_v4
ip_at i p = do
  a ← index p i
  b ← index p (i + 1)
  c ← index p (i + 2)
  d ← index p (i + 3)
  ok (ip_v4 a b c d)

unfoldable pub source_ip : {E : Type 0} → List ℕ → Result E (List ℕ)
source_ip p = ip_at 12 p

unfoldable pub destination_ip : {E : Type 0} → List ℕ → Result E (List ℕ)
destination_ip p = ip_at 16 p

unfoldable pub ipv4_valid : {E : Type 0} → List ℕ → Result E Bool
ipv4_valid p = if ltb (length p) ipv4_header_size then ok false else do
  v ← index p 0
  if not (nat_beq (v / 16) ipv4_version) then ok false else do
    header_length ← header_len p
    total_length ← total_len p
    ok (
        leb ipv4_header_size header_length
        && leb header_length total_length
        && leb total_length (length p % 65536))

unfoldable pub source_port : {E : Type 0} → List ℕ → Result E ℕ
source_port p = uint16_at 0 p

unfoldable pub destination_port : {E : Type 0} → List ℕ → Result E ℕ
destination_port p = uint16_at 2 p

unfoldable pub tcp_valid : List ℕ → Bool
tcp_valid p = leb tcp_header_size (length p)

unfoldable pub udp_length : {E : Type 0} → List ℕ → Result E ℕ
udp_length p = uint16_at 4 p

unfoldable pub udp_valid : {E : Type 0} → List ℕ → Result E Bool
udp_valid p =
    if ltb (length p) udp_header_size
    then ok false
    else do n ← udp_length p; ok (leb n (length p % 65536))
