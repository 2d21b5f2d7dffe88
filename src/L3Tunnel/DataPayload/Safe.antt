-- ===== src/L3Tunnel/DataPayload/Safe.antt =====
-- `parseDataPayload` on bytes that no one has checked.
use zju_portal_core.Base.{
  ℕ, zero, suc, ◌+◌, ◌-◌, ◌≤◌, ◌≡◌, ◌≢◌, List, [], ◌∷◌, length, arith, get_elem?, get_elem?-some,
  take, drop, length-take, length-drop, Option-cases, inl, inr,
}
use zju_portal_core.Stream.{ok, fault, be16, index, slice}
use zju_portal_core.L3Tunnel.DataPayload.{parse_packets, parse_data_payload}

parse_packets-ne-fault :
    (count idx : ℕ) (payload : List ℕ) → parse_packets count idx payload ≢ fault
unfolding parse_packets slice
parse_packets-ne-fault zero idx payload = λ h. cc
parse_packets-ne-fault (suc count) idx payload = ground (
  arith,
  parse_packets-ne-fault count (idx + 2 + be16 (take (idx + 2 - idx) (drop idx payload))) payload,
)

-- `parseDataPayload` never indexes or slices out of range, whatever bytes it is given.
pub parse_data_payload-ne-fault : (payload : List ℕ) → parse_data_payload payload ≢ fault
unfolding parse_data_payload index
parse_data_payload-ne-fault [] = λ h. cc
parse_data_payload-ne-fault (t ∷ payload) =
    elim (Option-cases (get_elem? (t ∷ payload) (1 + t + 2))) [
      | inl e ↦ ground (arith, get_elem?-some (t ∷ payload) (1 + t + 2))
      | inr (k, e) ↦ ground (arith, parse_packets-ne-fault k (1 + t + 2 + 1) (t ∷ payload))
    ]

-- The room that packets take behind their 16-bit lengths.
abbrev pub weight : List (List ℕ) → ℕ
weight [] = 0
weight (p ∷ ps) = 2 + length p + weight ps

parse_packets_bounds :
    (count idx : ℕ) (payload : List ℕ) (ps : List (List ℕ))
    → idx ≤ length payload
    → parse_packets count idx payload ≡ ok ps
    → (length ps ≡ count) × (idx + weight ps ≤ length payload)
unfolding parse_packets slice
parse_packets_bounds zero idx payload ps h e = ground arith
parse_packets_bounds (suc count) idx payload [] h e = ground arith
parse_packets_bounds (suc count) idx payload (p ∷ ps) h e = ground (
  arith,
  length-take (be16 (take (idx + 2 - idx) (drop idx payload))) (drop (idx + 2) payload),
  length-drop (idx + 2) payload,
  parse_packets_bounds count (idx + 2 + be16 (take (idx + 2 - idx) (drop idx payload))) payload ps,
)

-- The packets that `parseDataPayload` returns, with two bytes in front of each, fit into the
-- payload beside its four bytes of headers: it invents no data.
pub parse_data_payload_bounds :
    (payload : List ℕ) (ps : List (List ℕ))
    → parse_data_payload payload ≡ ok ps
    → 4 + weight ps ≤ length payload
unfolding parse_data_payload index
parse_data_payload_bounds [] ps e = ground arith
parse_data_payload_bounds (t ∷ payload) ps e =
    elim (Option-cases (get_elem? (t ∷ payload) (1 + t + 2))) [
      | inl none? ↦ ground arith
      | inr (k, some?) ↦ ground (arith, parse_packets_bounds k (1 + t + 2 + 1) (t ∷ payload) ps)
    ]
