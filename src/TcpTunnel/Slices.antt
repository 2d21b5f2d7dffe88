-- ===== src/TcpTunnel/Slices.antt =====
-- What the slices of `Read` of client/atrust/tcptunnel.go are: none is out of range.
use zju_portal_core.Base.{
  ℕ, zero, suc, ◌≤◌, ◌≡◌, refl, ap, List, [], ◌∷◌, length, take, drop, true, leb, ltb, arith,
  Bool-cases, inl, inr,
}
use zju_portal_core.Stream.{ok}
use zju_portal_core.TcpTunnel.{TcpTunnelConn, copied, slice_from, keep_rest, deliver}

take-whole : (n : ℕ) (xs : List ℕ) → length xs ≤ n → take n xs ≡ xs
take-whole zero [] h = refl
take-whole (suc n) [] h = refl
take-whole zero (x ∷ xs) h = absurd (omega (arith, h))
take-whole (suc n) (x ∷ xs) h = ap (λ l. x ∷ l) (take-whole n xs (omega (arith, h)))

drop-whole : (n : ℕ) (xs : List ℕ) → length xs ≤ n → drop n xs ≡ []
drop-whole zero [] h = refl
drop-whole (suc n) [] h = refl
drop-whole zero (x ∷ xs) h = absurd (omega (arith, h))
drop-whole (suc n) (x ∷ xs) h = drop-whole n xs (omega (arith, h))

take-copied : (n : ℕ) (p : List ℕ) → take (copied n p) p ≡ take n p
take-copied n p = elim (Bool-cases (leb n (length p))) [
  | inl short ↦ ground (arith, short)
  | inr long ↦
      ground
        (arith, long, take-whole n p (ground (arith, long)), take-whole (length p) p (omega arith))
]

-- What was copied, and what is kept.
pub keep_rest-copied :
    (n : ℕ) (p : List ℕ) (c : TcpTunnelConn)
    → keep_rest (copied n p) p (slice_from (copied n p) p) c
      ≡ (record c { read_buf = drop n p }, ok (take n p))
unfolding keep_rest slice_from
keep_rest-copied n p c = elim (Bool-cases (leb n (length p))) [
  | inl short ↦ ground (arith, short)
  | inr long ↦
      let all : leb (length p) (length p) ≡ true = ground arith in
      rw
        (
          long,
          all,
          take-whole n p (ground (arith, long)),
          drop-whole n p (ground (arith, long)),
          take-whole (length p) p (omega arith),
          drop-whole (length p) p (omega arith),
        )
        refl
]

pub deliver-copied :
    (n : ℕ) (p : List ℕ) (c : TcpTunnelConn)
    → c.read_buf ≡ []
    → deliver n p c ≡ (record c { read_buf = drop n p }, ok (take n p))
unfolding deliver
deliver-copied n p c e = elim (Bool-cases (ltb (copied n p) (length p))) [
  | inl more ↦ rw (deliver, more) (keep_rest-copied n p c)
  | inr no_more ↦
      let enough : length p ≤ n = ground (arith, no_more) in
      rw (deliver, no_more, drop-whole n p enough, take-copied n p) (ground (arith, e))
]
