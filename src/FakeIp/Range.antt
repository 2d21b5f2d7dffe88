-- ===== src/FakeIp/Range.antt =====
-- `newFakeIPStore` of internal/networkruntime/tun_fakeip.go: the range that a prefix gives.
use native.Mathlib.Nat.{pow-suc, zero-add, suc-add}
use zju_portal_core.Base.{
  ℕ, zero, suc, ◌+◌, ◌-◌, ◌*◌, ◌/◌, ◌^◌, ◌≤◌, ◌<◌, ◌≡◌, sym, ap, subst, ◌∙◌, not, ◌||◌, some, inl,
  inr, Bool-cases, arith, ltb,
}
use zju_portal_core.FakeIp.{FakeIpStore, Prefix, new_fake_ip_store}

sub_restore : (bits : ℕ) → bits ≤ 30 → 32 ≡ 32 - bits + bits
sub_restore bits q = omega arith

pow_add : (a b : ℕ) → 2 ^ (a + b) ≡ 2 ^ a * 2 ^ b
pow_add zero b = rw zero-add (omega arith)
pow_add (suc a) b = rw (suc-add) (rw (pow-suc 2 (a + b), pow-suc 2 a, pow_add a b) (grind arith))

pow_pos : (k : ℕ) → 1 ≤ 2 ^ k
pow_pos zero = omega arith
pow_pos (suc k) = rw (pow-suc) (omega (arith, pow_pos k))

-- A multiple of c below c * d leaves room for c more.
room : (x c d : ℕ) → 1 ≤ c → x < c * d → x / c * c + c ≤ c * d
room x c d p h = grind arith

four_le_pow : (k : ℕ) → 2 ≤ k → 4 ≤ 2 ^ k
four_le_pow zero h = absurd (omega arith)
four_le_pow (suc zero) h = absurd (omega arith)
four_le_pow (suc (suc k)) h = rw (pow-suc) (rw (pow-suc) (omega (arith, pow_pos k)))

-- The numbers of a prefix of the accepted lengths.
base_bounds :
    (x bits : ℕ)
    → 8 ≤ bits
    → bits ≤ 30
    → x < 2 ^ 32
    → (4 ≤ 2 ^ (32 - bits)) × (x / 2 ^ (32 - bits) * 2 ^ (32 - bits) + 2 ^ (32 - bits) ≤ 2 ^ 32)
base_bounds x bits p q h =
    let whole : 2 ^ 32 ≡ 2 ^ (32 - bits) * 2 ^ bits =
      ap (λ (n : ℕ). 2 ^ n) (sub_restore bits q) ∙ pow_add (32 - bits) bits in
    (
      four_le_pow (32 - bits) (omega arith),
      subst (λ n. x / 2 ^ (32 - bits) * 2 ^ (32 - bits) + 2 ^ (32 - bits) ≤ n) (sym whole)
          (room x (2 ^ (32 - bits)) (2 ^ bits) (pow_pos (32 - bits)) (subst (λ n. x < n) whole h)),
    )

-- The store of an accepted prefix hands out addresses from `next` to `last`: it starts two above the
-- network's base, has at least one address, stops below the broadcast address, and the 32-bit
-- counter cannot wrap before the range is used up.
pub new_fake_ip_store_range :
    (prefix : Prefix) (st : FakeIpStore)
    → prefix.address < 2 ^ 32
    → new_fake_ip_store (some prefix) ≡ some st
    → let count = 2 ^ (32 - prefix.bits) in
      (st.next ≡ prefix.address / count * count + 2)
      × (st.last + 2 ≡ prefix.address / count * count + count)
      × (st.next ≤ st.last)
      × (st.last + 1 < 2 ^ 32)
unfolding new_fake_ip_store
new_fake_ip_store_range prefix st h e =
    elim (Bool-cases (not prefix.is4 || ltb prefix.bits 8 || ltb 30 prefix.bits)) [
      | inl bad ↦ absurd (ground arith)
      | inr good ↦
          let (four, fits) =
            base_bounds prefix.address prefix.bits (ground arith) (ground arith) h in
          ground arith
    ]
