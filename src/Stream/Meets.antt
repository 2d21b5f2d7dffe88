-- ===== src/Stream/Meets.antt =====
-- What a reader gives, and what its errors may be: a calculus for chains of reads that cannot fault.
use zju_portal_core.Base.{
  ℕ, ◌+◌, ◌<◌, ◌≡◌, List, length, arith, length-take, length-drop, get_elem?-some, inl, inr, refl,
  ◌⊎◌, leb, Bool-cases,
}
use zju_portal_core.Stream.{Result, ok, err, ◌>>=◌, read_full, index}

pub data Meets {ℓ} {E : Type 0} {A : Type ℓ} (P : A → Type 0) (Q : E → Type 0)
    : Result E A → Type ℓ where
  gives : {a : A} → P a → Meets P Q (ok a)
  fails : {e : E} → Q e → Meets P Q (err e)

pub bind-Meets {ℓ κ} :
    {E : Type 0} {A : Type ℓ} {B : Type κ} {P : A → Type 0} {R : B → Type 0} {Q : E → Type 0}
    {m : Result E A} (f : A → Result E B)
    → Meets P Q m
    → ((a : A) → P a → Meets R Q (f a))
    → Meets R Q (m >>= f)
bind-Meets f (gives h) k = k _ h
bind-Meets f (fails h) k = fails h

pub weaken-Meets {ℓ} :
    {E : Type 0} {A : Type ℓ} {P R : A → Type 0} {Q : E → Type 0} {m : Result E A}
    → Meets P Q m
    → ((a : A) → P a → R a)
    → Meets R Q m
weaken-Meets (gives h) k = gives (k _ h)
weaken-Meets (fails h) k = fails h

pub read_full-Meets :
    {E : Type 0} {Q : E → Type 0} (e : E) (n : ℕ) (s : List ℕ)
    → Q e
    → Meets (λ r. (length r.0 ≡ n) × (length r.1 + n ≡ length s)) Q (read_full e n s)
unfolding read_full
read_full-Meets e n s q = elim (Bool-cases (leb n (length s))) [
  | inl h ↦ rw h (gives (ground (arith, length-take n s, length-drop n s)))
  | inr h ↦ rw h (fails q)
]

pub index-Meets :
    {E : Type 0} {Q : E → Type 0} (p : List ℕ) (i : ℕ)
    → i < length p
    → Meets (λ x. Unit {0}) Q (index p i)
unfolding index
index-Meets p i h = let (x, e) = get_elem?-some p i h in rw (index, e) (gives tt)

pub Meets-cases {ℓ} :
    {E : Type 0} {A : Type ℓ} {P : A → Type 0} {Q : E → Type 0} {m : Result E A}
    → Meets P Q m
    → ((a : A) × (m ≡ ok a) × P a) ⊎ ((e : E) × (m ≡ err e) × Q e)
Meets-cases (gives h) = inl (_, refl, h)
Meets-cases (fails h) = inr (_, refl, h)
