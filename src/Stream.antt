-- ===== src/Stream.antt =====
-- Reading a connection's bytes: `io.ReadFull`, `Peek`, `ReadByte` and big-endian 16-bit numbers, as
-- client/atrust/l3tunnelconn.go and client/atrust/tcptunnel.go use them. A reader maps the bytes
-- that the peer sends until it closes to a value and the bytes left.
pub mod Laws
pub mod Meets
use zju_portal_core.Base.{
  ℕ, suc, ◌+◌, ◌-◌, ◌*◌, ◌/◌, ◌%◌, ◌<◌, Bool, true, false, Option, none, some, List, [], ◌∷◌, leb,
  if◌then◌else◌, length, take, drop, get_elem?,
}

-- `fault` is a Go run-time panic, an index or a slice out of range.
pub data Result {ℓ} (E : Type 0) (A : Type ℓ) : Type ℓ where
  ok : A → Result E A
  err : E → Result E A
  fault : Result E A

infixl 5 ◌>>=◌ ◌>>◌
abbrev pub ◌>>=◌ {ℓ κ} :
    {E : Type 0} {A : Type ℓ} {B : Type κ} → Result E A → (A → Result E B) → Result E B
ok a >>= f = f a
err e >>= f = err e
fault >>= f = fault

abbrev pub ◌>>◌ {κ} : {E : Type 0} {B : Type κ} → Result E (Unit {0}) → Result E B → Result E B
m >> k = m >>= λ _. k

-- Every entry is a byte.
abbrev pub AllBytes : List ℕ → Type 0
AllBytes [] = Unit {0}
AllBytes (x ∷ xs) = (x < 256) × AllBytes xs

-- `io.ReadFull` of n bytes: all or an error.
unfoldable pub read_full : {E : Type 0} → E → ℕ → List ℕ → Result E (List ℕ × List ℕ)
read_full e n s = if leb n (length s) then ok (take n s, drop n s) else err e

unfoldable pub be16 : List ℕ → ℕ
be16 (a ∷ b ∷ _) = a * 256 + b
be16 (a ∷ []) = 0
be16 [] = 0

-- `binary.BigEndian.PutUint16(_, uint16(n))`.
unfoldable pub put16 : ℕ → List ℕ
put16 n = (n % 65536 / 256) ∷ (n % 256) ∷ []

-- `p[i]` of a slice.
unfoldable pub index : {E : Type 0} → List ℕ → ℕ → Result E ℕ
index p i = elim (get_elem? p i) [ some x ↦ ok x | none ↦ fault ]

-- `p[a:b]` of a slice whose capacity is its length.
unfoldable pub slice : {E : Type 0} → List ℕ → ℕ → ℕ → Result E (List ℕ)
slice p a b =
    if leb a b then (if leb b (length p) then ok (take (b - a) (drop a p)) else fault) else fault
