-- ===== src/Session/Delay.antt =====
-- The delay between attempts to reconnect: `reconnectDelay` of internal/atrustruntime/session.go.
use native.Mathlib.Nat.{pow-suc}
use zju_portal_core.Base.{
  ℕ, zero, suc, ◌+◌, ◌*◌, ◌^◌, ◌≤◌, ◌≡◌, refl, true, false, arith, if◌then◌else◌, Bool-cases, ltb,
  inl, inr, dec_le,
}
use zju_portal_core.Session.{delay_loop, reconnect_delay, reconnect_max_delay}

one_le_pow : (n : ℕ) → 1 ≤ 2 ^ n
one_le_pow zero = omega arith
one_le_pow (suc n) = rw (pow-suc) (omega (arith, one_le_pow n))

capped : (n : ℕ) → delay_loop n 30000000000 ≡ 30000000000
unfolding delay_loop
capped zero = refl
capped (suc n) = refl

-- One round below the limit.
delay_loop-near :
    (n k : ℕ) → k * 2 ≤ 30 → delay_loop (suc n) (k * 1000000000) ≡ delay_loop n (k * 2 * 1000000000)
unfolding delay_loop
delay_loop-near n k p =
    let below : ltb (k * 1000000000) reconnect_max_delay ≡ true = ground arith in
    let fits : ltb reconnect_max_delay (k * 1000000000 * 2) ≡ false = ground arith in
    let swap : k * 1000000000 * 2 ≡ k * 2 * 1000000000 = omega arith in rw (below, fits, swap) refl

-- One round that reaches the limit.
delay_loop-far :
    (n k : ℕ) → k ≤ 30 → ¬ (k * 2 ≤ 30) → delay_loop (suc n) (k * 1000000000) ≡ 30000000000
unfolding delay_loop
delay_loop-far n k p q = elim (Bool-cases (ltb (k * 1000000000) reconnect_max_delay)) [
  | inl below ↦
      let over : ltb reconnect_max_delay (k * 1000000000 * 2) ≡ true = ground arith in
      rw (below, over) (capped n)
  | inr above ↦ rw above (ground arith)
]

grows_lem : (a p : ℕ) → 1 ≤ p → a ≤ a * p
grows_lem a zero h = absurd (omega arith)
grows_lem a (suc p) h = omega arith

delay_loop-min :
    (n k : ℕ)
    → 1 ≤ k
    → k ≤ 30
    → delay_loop n (k * 1000000000)
      ≡ (if ltb 30 (k * 2 ^ n) then 30000000000 else k * 2 ^ n * 1000000000)
delay_loop-min zero k p q = unfold delay_loop in ground arith
delay_loop-min (suc n) k p q =
    let turn : k * (2 ^ n * 2) ≡ k * 2 * 2 ^ n = grind arith in
    let grows : k * 2 ≤ k * 2 * 2 ^ n = grows_lem (k * 2) (2 ^ n) (one_le_pow n) in
    elim (dec_le (k * 2) 30) [
      | no far ↦
          let over : ltb 30 (k * 2 * 2 ^ n) ≡ true = ground arith in
          rw (pow-suc, turn, delay_loop-far n k q far, over) refl
      | yes near ↦
          rw (pow-suc, turn, delay_loop-near n k near, delay_loop-min n (k * 2) (omega arith) near)
            refl
    ]

-- The attempts after the first wait 1, 2, 4, 8 and 16 seconds, and 30 from then on: the delay of attempt
-- n + 2 is 2 ^ n seconds, or 30 if that is more.
pub reconnect_delay_doubles :
    (n : ℕ)
    → reconnect_delay (n + 2) ≡ (if ltb 30 (2 ^ n) then 30 * 1000000000 else 2 ^ n * 1000000000)
unfolding reconnect_delay
reconnect_delay_doubles n = ground (arith, delay_loop-min n 1)
