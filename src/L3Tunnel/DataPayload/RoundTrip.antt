-- ===== src/L3Tunnel/DataPayload/RoundTrip.antt =====
-- What `parseDataPayload` and `readDataRespPayload` make of what `buildDataPayload` writes.
use mathlib.Core.List.{append_assoc}
use native.Mathlib.Nat.{suc-add}
use zju_portal_core.Base.{
  ℕ, suc, ◌+◌, ◌%◌, ◌≤◌, ◌<◌, ◌≡◌, refl, sym, ap, subst, ◌∙◌, Bool, true, false, ◌&&◌, List, [],
  ◌∷◌, ◌++◌, drop, leb, ltb, length, get_elem?-append, length-append, arith,
}
use zju_portal_core.Stream.{AllBytes, ok, ◌>>=◌, read_full, be16, put16, index, slice}
use zju_portal_core.Stream.Laws.{slice-append, length-put16, read_full-append}
use zju_portal_core.L3Tunnel.DataPayload.{
  ParseError, build_packets, build_data_payload, parse_packets, parse_data_payload, read_failed,
  len_mode, token_mode, max_data_payload, read_packets, read_token_payload, read_data_resp_payload,
}

-- Every packet's length fits the 16 bits in front of it.
abbrev pub Fits : List (List ℕ) → Type 0
Fits [] = Unit {0}
Fits (p ∷ ps) = (length p < 65536) × Fits ps

be16_two : (n : ℕ) → n < 65536 → be16 (put16 n) ≡ n
unfolding be16 put16
be16_two n h = omega arith

parse_packets-cons :
    (count : ℕ) (pre p rest : List ℕ)
    → length p < 65536
    → parse_packets (suc count) (length pre) (pre ++ (put16 (length p) ++ (p ++ rest))) ≡ (
        parse_packets count (length pre + 2 + length p) (pre ++ (put16 (length p) ++ (p ++ rest)))
        >>= λ ps. ok (p ∷ ps))
unfolding parse_packets
parse_packets-cons count pre p rest h =
    let total : length (pre ++ (put16 (length p) ++ (p ++ rest)))
        ≡ length pre + 2 + length p + length rest =
      omega (
        arith,
        length-append pre (put16 (length p) ++ (p ++ rest)),
        length-append (put16 (length p)) (p ++ rest),
        length-append p rest,
        length-put16 (length p),
      ) in
    let head =
      slice-append {E = ParseError} (length pre) (length pre + 2) pre (put16 (length p)) (p ++ rest)
        refl (omega (arith, length-put16 (length p))) in
    let body =
      subst (λ l. slice {E = ParseError} l (length pre + 2) (length pre + 2 + length p) ≡ ok p)
        (append_assoc pre (put16 (length p)) (p ++ rest))
        (slice-append {E = ParseError} (length pre + 2) (length pre + 2 + length p)
          (pre ++ put16 (length p)) p rest
          (omega (arith, length-append pre (put16 (length p)), length-put16 (length p)))
          (omega (arith, length-append pre (put16 (length p)), length-put16 (length p)))) in
    ground (arith, total, head, body, be16_two (length p))

regroup : (pre a p rest : List ℕ) → pre ++ (a ++ (p ++ rest)) ≡ (pre ++ (a ++ p)) ++ rest
regroup pre a p rest =
    ap (λ l. pre ++ l) (sym (append_assoc a p rest)) ∙ sym (append_assoc pre (a ++ p) rest)

parse_packets-build :
    (pre : List ℕ) (ps : List (List ℕ)) (n : ℕ)
    → n ≡ length pre
    → Fits ps
    → parse_packets (length ps) n (pre ++ build_packets ps) ≡ ok ps
unfolding build_packets
parse_packets-build pre [] n e f = unfold parse_packets in refl
parse_packets-build pre (p ∷ ps) n e f =
    let next =
      parse_packets-build (pre ++ (put16 (length p) ++ p)) ps (length pre + 2 + length p)
        (omega (
          arith,
          length-append pre (put16 (length p) ++ p),
          length-append (put16 (length p)) p,
          length-put16 (length p),
        ))
        f.1 in
    rw e (
      parse_packets-cons (length ps) pre p (build_packets ps) f.0
      ∙ rw (regroup pre (put16 (length p)) p (build_packets ps), next) refl)

-- A data payload within the limits of its headers (a token of at most 255 bytes, at most 255
-- packets of at most 65535 bytes each) is parsed back to the packets that it was built from. The
-- parser is given what follows the two bytes for the version and the command.
pub parse-build_data_payload :
    (token : List ℕ) (packets : List (List ℕ))
    → length token < 256
    → length packets < 256
    → Fits packets
    → parse_data_payload (drop 2 (build_data_payload token packets)) ≡ ok packets
unfolding parse_data_payload build_data_payload index
parse-build_data_payload token packets ht hp f =
    let body = 0 ∷ 0 ∷ (length packets % 256) ∷ build_packets packets in
    let total : length (token ++ body) ≡ length token + 3 + length (build_packets packets) =
      omega (arith, length-append token body) in
    let count = get_elem?-append token body 2 in
    let pre = (length token % 256) ∷ (token ++ 0 ∷ 0 ∷ (length packets % 256) ∷ []) in
    let loop =
      subst
        (λ l.
          parse_packets (length packets) (1 + length token + 2 + 1) ((length token % 256) ∷ l)
          ≡ ok packets)
        (append_assoc token (0 ∷ 0 ∷ (length packets % 256) ∷ []) (build_packets packets))
        (parse_packets-build pre packets (1 + length token + 2 + 1)
          (omega (arith, length-append token (0 ∷ 0 ∷ (length packets % 256) ∷ []))) f) in
    let small : length token % 256 ≡ length token = omega arith in
    let small' : length packets % 256 ≡ length packets = omega arith in
    ground (arith, suc-add (length token) 2)

read_packets-build :
    (packets : List (List ℕ)) (rest : List ℕ)
    → Fits packets
    → read_packets (length packets) (build_packets packets ++ rest)
      ≡ ok (build_packets packets, rest)
unfolding build_packets read_packets
read_packets-build [] rest f = refl
read_packets-build (p ∷ ps) rest f =
    let head =
      read_full-append read_failed 2 (put16 (length p)) (p ++ (build_packets ps ++ rest))
        (sym (length-put16 (length p))) in
    let body = read_full-append read_failed (length p) p (build_packets ps ++ rest) refl in
    rw
      (
        append_assoc (put16 (length p)) (p ++ build_packets ps) rest,
        append_assoc p (build_packets ps) rest,
      )
      (ground (arith, head, body, be16_two (length p), read_packets-build ps rest f.1))

-- What decides how `readDataRespPayload` reads: the 16-bit number in front.
abbrev pub looks_like_length : List ℕ → Bool
looks_like_length s = ltb 0 (be16 s) && leb (be16 s) max_data_payload

read_token-build :
    (token : List ℕ) (packets : List (List ℕ)) (rest : List ℕ)
    → length token < 256
    → length packets < 256
    → Fits packets
    → read_token_payload (drop 2 (build_data_payload token packets) ++ rest)
      ≡ ok (drop 2 (build_data_payload token packets), rest)
unfolding read_token_payload build_data_payload index
read_token-build token packets rest ht hp f =
    let small : length token % 256 ≡ length token = omega arith in
    let small' : length packets % 256 ≡ length packets = omega arith in
    let tail = build_packets packets ++ rest in
    let token_read =
      read_full-append read_failed (length token) token (0 ∷ 0 ∷ length packets ∷ tail) refl in
    let regrouped = append_assoc token (0 ∷ 0 ∷ length packets ∷ build_packets packets) rest in
    let first =
      read_full-append read_failed 1 (length token ∷ []) (token ++ (0 ∷ 0 ∷ length packets ∷ tail))
        refl in
    let zeros = read_full-append read_failed 2 (0 ∷ 0 ∷ []) (length packets ∷ tail) refl in
    let count = read_full-append read_failed 1 (length packets ∷ []) tail refl in
    rw (small, small', regrouped)
      (ground (arith, first, token_read, zeros, count, read_packets-build packets rest f))

read_data_resp-token :
    (a b : ℕ) (s payload rest : List ℕ)
    → looks_like_length (a ∷ b ∷ s) ≡ false
    → read_token_payload (a ∷ b ∷ s) ≡ ok (payload, rest)
    → read_data_resp_payload (a ∷ b ∷ s) ≡ ok ((payload, token_mode), rest)
unfolding read_data_resp_payload read_full be16
read_data_resp-token a b s payload rest h e = ground arith

-- A data frame of the tunnel's own format, within the limits of its headers, on a stream whose first two bytes do not look like a
-- length, is read exactly, the bytes behind it are left, and its packets are those it was built
-- from.
pub read-build_data_payload :
    (token : List ℕ) (packets : List (List ℕ)) (rest : List ℕ)
    → length token < 256
    → length packets < 256
    → Fits packets
    → looks_like_length (drop 2 (build_data_payload token packets) ++ rest) ≡ false
    → (payload : List ℕ) × (read_data_resp_payload
          (drop 2 (build_data_payload token packets) ++ rest)
        ≡ ok ((payload, token_mode), rest))
      × (parse_data_payload payload ≡ ok packets)
unfolding read_data_resp_payload build_data_payload
read-build_data_payload token packets rest ht hp f h = (
  drop 2 (build_data_payload token packets),
  go token h (read_token-build token packets rest ht hp f),
  parse-build_data_payload token packets ht hp f,
)
  where
    go :
        (t : List ℕ)
        → looks_like_length (drop 2 (build_data_payload t packets) ++ rest) ≡ false
        → read_token_payload (drop 2 (build_data_payload t packets) ++ rest)
          ≡ ok (drop 2 (build_data_payload t packets), rest)
        → read_data_resp_payload (drop 2 (build_data_payload t packets) ++ rest)
          ≡ ok ((drop 2 (build_data_payload t packets), token_mode), rest)
    go [] l r = read_data_resp-token _ _ _ _ rest l r
    go (x ∷ xs) l r = read_data_resp-token _ _ _ _ rest l r

-- A length between 1 and 4096 in front is read as one: that many bytes are the payload.
pub read_data_resp_len :
    (payload rest : List ℕ)
    → 0 < length payload
    → length payload ≤ max_data_payload
    → read_data_resp_payload (put16 (length payload) ++ (payload ++ rest))
      ≡ ok ((payload, len_mode), rest)
unfolding read_data_resp_payload
read_data_resp_len payload rest p q =
    let head =
      read_full-append read_failed 2 (put16 (length payload)) (payload ++ rest)
        (sym (length-put16 (length payload))) in
    let body = read_full-append read_failed (length payload) payload rest refl in
    ground (arith, head, body, be16_two (length payload))

-- A data frame whose token has between 1 and 15 bytes, and stands in the frame as the parser expects
-- it, always looks like a length.
pub short_token_looks_like_length :
    (token : List ℕ) (packets : List (List ℕ)) (rest : List ℕ)
    → 0 < length token
    → length token < 16
    → AllBytes token
    → looks_like_length (drop 2 (build_data_payload token packets) ++ rest) ≡ true
unfolding build_data_payload be16
short_token_looks_like_length [] packets rest p q b = absurd (omega arith)
short_token_looks_like_length (x ∷ xs) packets rest p q b = ground arith
