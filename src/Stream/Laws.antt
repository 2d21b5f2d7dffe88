-- ===== src/Stream/Laws.antt =====
-- The laws of the readers on a stream that begins with known bytes.
use zju_portal_core.Base.{
  ℕ, ◌+◌, ◌-◌, ◌<◌, ◌≡◌, ◌⊎◌, refl, List, ◌++◌, length, take, arith, length-append,
  take-length_append, drop-length_append, length-drop, length-take, take-append-drop, inl, inr,
}
use zju_portal_core.Stream.{Result, ok, err, fault, ◌>>=◌, read_full, be16, put16, slice}

pub read_full-append :
    {E : Type 0} (e : E) (n : ℕ) (xs ys : List ℕ)
    → n ≡ length xs
    → read_full e n (xs ++ ys) ≡ ok (xs, ys)
unfolding read_full
read_full-append e n xs ys h =
    rw (h) (ground (arith, length-append xs ys, take-length_append xs ys, drop-length_append xs ys))

pub be16-put16 : (n : ℕ) (s : List ℕ) → n < 65536 → be16 (put16 n ++ s) ≡ n
unfolding be16 put16
be16-put16 n s h = omega arith

pub length-put16 : (n : ℕ) → length (put16 n) ≡ 2
unfolding put16
length-put16 n = omega arith

-- A read takes bytes away.
pub read_full-length :
    {E : Type 0} (e : E) (n : ℕ) (s : List ℕ) {xs ys : List ℕ}
    → read_full e n s ≡ ok (xs, ys)
    → length s ≡ n + length ys
unfolding read_full
read_full-length e n s h = ground (arith, length-drop n s)

take-eq : (n : ℕ) (xs ys : List ℕ) → n ≡ length xs → take n (xs ++ ys) ≡ xs
take-eq n xs ys h = rw h (take-length_append xs ys)

-- A slice between two known prefixes.
pub slice-append :
    {E : Type 0} (a b : ℕ) (pre mid post : List ℕ)
    → a ≡ length pre
    → b ≡ length pre + length mid
    → slice {E = E} (pre ++ (mid ++ post)) a b ≡ ok mid
unfolding slice
slice-append a b pre mid post p q =
    rw (q, p, drop-length_append pre (mid ++ post))
      (ground (
        arith,
        length-append pre (mid ++ post),
        length-append mid post,
        take-eq (length pre + length mid - length pre) mid post (omega arith),
      ))

pub Result-cases {ℓ} :
    {E : Type 0} {A : Type ℓ} (x : Result E A)
    → ((a : A) × (x ≡ ok a)) ⊎ ((e : E) × (x ≡ err e)) ⊎ (x ≡ fault)
Result-cases (ok a) = inl (a, refl)
Result-cases (err e) = inr (inl (e, refl))
Result-cases fault = inr (inr refl)

-- What was read stands in front.
pub read_full-split :
    {E : Type 0} (e : E) (n : ℕ) (s : List ℕ) {xs ys : List ℕ}
    → read_full e n s ≡ ok (xs, ys)
    → (s ≡ xs ++ ys) × (length xs ≡ n)
unfolding read_full
read_full-split e n s h = ground (arith, take-append-drop n s, length-take n s)

-- A chain that succeeds has a first step that does.
pub bind-ok {ℓ κ} :
    {E : Type 0} {A : Type ℓ} {B : Type κ} (m : Result E A) (f : A → Result E B) {b : B}
    → (m >>= f) ≡ ok b
    → (a : A) × (m ≡ ok a) × (f a ≡ ok b)
bind-ok (ok a) f h = (a, refl, h)
bind-ok (err e) f h = absurd (ground arith)
bind-ok fault f h = absurd (ground arith)
