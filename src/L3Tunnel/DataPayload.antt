-- ===== src/L3Tunnel/DataPayload.antt =====
-- client/atrust/l3tunnelconn.go: the body of a data frame, `buildDataPayload`, `parseDataPayload`
-- and `readDataRespPayload`. A token is its bytes. Texts of errors are constructors.
pub mod RoundTrip
pub mod Safe
use zju_portal_core.Base.{
  ℕ, zero, suc, ◌+◌, ◌-◌, ◌*◌, ◌/◌, ◌%◌, Bool, true, false, ◌&&◌, Option, none, some, List, [], ◌∷◌,
  ◌++◌, leb, ltb, nat_beq, if◌then◌else◌, length, take, drop, get_elem?,
}
use zju_portal_core.Stream.{Result, ok, err, fault, ◌>>=◌, read_full, be16, put16, index, slice}

abbrev pub l3_version : ℕ
l3_version = 0x05

abbrev pub cmd_data_req : ℕ
cmd_data_req = 0x14

pub data ParseError : Type 0 where
  payload_too_short token_overflow packet_length_overflow packet_data_overflow : ParseError

-- The loop over the packets.
unfoldable pub build_packets : List (List ℕ) → List ℕ
build_packets [] = []
build_packets (p ∷ ps) = put16 (length p) ++ (p ++ build_packets ps)

unfoldable pub build_data_payload : List ℕ → List (List ℕ) → List ℕ
unfolding build_packets
build_data_payload token packets =
    l3_version
    ∷ cmd_data_req
    ∷ (length token % 256)
    ∷ (token ++ 0 ∷ 0 ∷ (length packets % 256) ∷ build_packets packets)

-- The loop `for i := 0; i < count; i++`; `count` falls, `idx` is the position in the payload.
unfoldable pub parse_packets : ℕ → ℕ → List ℕ → Result ParseError (List (List ℕ))
parse_packets zero idx payload = ok []
parse_packets (suc count) idx payload =
    if ltb (length payload) (idx + 2) then err packet_length_overflow else do
      lenBytes ← slice payload idx (idx + 2)
      if ltb (length payload) (idx + 2 + be16 lenBytes) then err packet_data_overflow else do
        pkt ← slice payload (idx + 2) (idx + 2 + be16 lenBytes)
        packets ← parse_packets count (idx + 2 + be16 lenBytes) payload
        ok (pkt ∷ packets)

unfoldable pub parse_data_payload : List ℕ → Result ParseError (List (List ℕ))
unfolding parse_packets
parse_data_payload payload = if ltb (length payload) 4 then err payload_too_short else do
  tokenLen ← index payload 0
  if ltb (length payload) (1 + tokenLen + 3) then err token_overflow else do
    count ← index payload (1 + tokenLen + 2)
    parse_packets count (1 + tokenLen + 2 + 1) payload

pub data ReadError : Type 0 where
  read_failed : ReadError

-- How a payload was delimited: by a length, or by its own token and packet headers.
pub data DataMode : Type 0 where
  len_mode token_mode : DataMode

abbrev pub max_data_payload : ℕ
max_data_payload = 4096

-- The loop over the packets of `readDataRespPayload`: the bytes read, with their lengths.
unfoldable pub read_packets : ℕ → List ℕ → Result ReadError (List ℕ × List ℕ)
read_packets zero s = ok ([], s)
read_packets (suc count) s = do
  (lenBytes, s₁) ← read_full read_failed 2 s
  (pkt, s₂) ← read_full read_failed (be16 lenBytes) s₁
  (more, s₃) ← read_packets count s₂
  ok (lenBytes ++ (pkt ++ more), s₃)

unfoldable pub read_token_payload : List ℕ → Result ReadError (List ℕ × List ℕ)
unfolding read_packets
read_token_payload s = do
  (tokenLen, s₁) ← read_full read_failed 1 s
  n ← index tokenLen 0
  (token, s₂) ← read_full read_failed n s₁
  (reserved, s₃) ← read_full read_failed 2 s₂
  (count, s₄) ← read_full read_failed 1 s₃
  k ← index count 0
  (packets, s₅) ← read_packets k s₄
  ok (tokenLen ++ (token ++ (reserved ++ (count ++ packets))), s₅)

abbrev pub with_mode :
    DataMode → Result ReadError (List ℕ × List ℕ) → Result ReadError ((List ℕ × DataMode) × List ℕ)
with_mode m (ok (payload, s)) = ok ((payload, m), s)
with_mode m (err e) = err e
with_mode m fault = fault

unfoldable pub read_len_payload : ℕ → List ℕ → Result ReadError (List ℕ × List ℕ)
read_len_payload n s = do (_, s₁) ← read_full read_failed 2 s; read_full read_failed n s₁

-- `Peek(2)` decides; its two bytes are read again.
unfoldable pub read_data_resp_payload : List ℕ → Result ReadError ((List ℕ × DataMode) × List ℕ)
unfolding read_len_payload read_token_payload
read_data_resp_payload s = do
  (peek, _) ← read_full read_failed 2 s
  if ltb 0 (be16 peek) && leb (be16 peek) max_data_payload
      then with_mode len_mode (read_len_payload (be16 peek) s)
      else with_mode token_mode (read_token_payload s)
