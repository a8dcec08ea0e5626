-- ===== src/Bits/Laws.antt =====
-- What the macros of Include/oskal/common.h do to each digit of a word.
use cr_dk.Base.{
  refl, false, ◌≢◌, ne→==, bit_and, ℕ, ◌%◌, ◌^◌, ◌<◌, ◌≡◌, ◌∙◌, true, not, ◌&&◌, ◌||◌, arith, ◌==◌,
  ltb, Bool-cases, inl, inr, ltb→le, testbit, testbit-bit_and, ap, ◌+◌, ◌-◌, testbit-zero,
  testbit-bit_or, testbit-mod, testbit-pow, testbit-complement, testbit-out, eq_of_testbit,
}
use cr_dk.Bits.{u32, bit, gen_msk, complement, set_bits, clr_bits}
use native.Mathlib.Nat.{mod-lt, pow-le-pow_right, one-le-pow}

pub testbit-bit : (k i : ℕ) → k < 64 → testbit (bit k) i ≡ (i == k)
unfolding bit
testbit-bit k i h = testbit-mod (2 ^ k) 64 i ∙ ground (arith, testbit-pow k i)

pub testbit-set_bits : (v m i : ℕ) → testbit (set_bits v m) i ≡ (testbit v i || testbit m i)
unfolding set_bits
testbit-set_bits v m i = testbit-bit_or v m i

-- The digits of a 32-bit value stand below 32.
pub below_32 : (v i : ℕ) → v < 2 ^ 32 → testbit v i ≡ true → i < 32
below_32 v i h e = elim (Bool-cases (ltb i 32)) [
  | inl low ↦ ground arith
  | inr high ↦ ground (arith, testbit-out 32 v i h (ltb→le i 32 high))
]

pub testbit-clr_bits :
    (v m i : ℕ)
    → v < 2 ^ 32
    → m < 2 ^ 64
    → testbit (clr_bits v m) i ≡ (testbit v i && not (testbit m i))
unfolding clr_bits
testbit-clr_bits v m i h k =
    testbit-bit_and v (complement m) i ∙ ground (arith, digits, below_32 v i h)
  where
    digits : testbit (complement m) i ≡ (ltb i 64 && not (testbit m i))
    digits = testbit-complement 64 m i k

pub testbit-u32 : (v i : ℕ) → testbit (u32 v) i ≡ (ltb i 32 && testbit v i)
testbit-u32 v i = testbit-mod v 32 i

-- A number is below `2 ^ w` if all its digits stand below `w`.
pub lt_of_testbit : (w v : ℕ) → ((i : ℕ) → testbit v i ≡ (ltb i w && testbit v i)) → v < 2 ^ w
lt_of_testbit w v h =
    let same : v ≡ v % 2 ^ w =
      eq_of_testbit v (v % 2 ^ w) (λ i. ground (arith, h i, testbit-mod v w i)) in
    omega (arith, same, mod-lt v (one-le-pow w 2 (omega arith)))

bit-lt : (k : ℕ) → bit k < 2 ^ 64
unfolding bit
bit-lt k = omega arith

-- `BIT(k) - 1`: the digits below `k`.
pub testbit-ones : (k i : ℕ) → k < 64 → testbit ((bit k + 2 ^ 64 - 1) % 2 ^ 64) i ≡ ltb i k
unfolding bit
testbit-ones k i h =
    ap (λ (t : ℕ). testbit t i) ones
    ∙ testbit-complement k 0 i (one-le-pow k 2 (omega arith))
    ∙ ground (arith, testbit-zero i)
  where
    small : 2 ^ k < 2 ^ 64
    small = omega (arith, pow-le-pow_right {n = 2} (omega arith) {i = k} {j = 63} (omega arith))

    ones : (2 ^ k % 2 ^ 64 + 2 ^ 64 - 1) % 2 ^ 64 ≡ 2 ^ k - 1 - 0
    ones = omega (arith, small, one-le-pow k 2 (omega arith))

pub testbit-gen_msk :
    (high low i : ℕ)
    → high < 32
    → low < 64
    → testbit (gen_msk high low) i ≡ (ltb i (high + 1) && not (ltb i low))
unfolding gen_msk
testbit-gen_msk high low i h l =
    testbit-bit_and ((bit (high + 1) + 2 ^ 64 - 1) % 2 ^ 64)
      (complement ((bit low + 2 ^ 64 - 1) % 2 ^ 64)) i
    ∙ ground (
      arith,
      testbit-ones (high + 1) i (omega arith),
      testbit-ones low i l,
      testbit-complement 64 ((bit low + 2 ^ 64 - 1) % 2 ^ 64) i (omega arith),
    )

-- `v & BIT(k)` is nonzero exactly when digit `k` is set.
pub bit_and-bit : (v k : ℕ) → k < 64 → not (bit_and v (bit k) == 0) ≡ testbit v k
bit_and-bit v k h = elim (Bool-cases (testbit v k)) [
  | inl on ↦ rw on (ground (arith, ne→== (bit_and v (bit k)) 0 (nonzero on)))
  | inr off ↦ rw (off, zero off) refl
]
  where
    digit : (i : ℕ) → testbit (bit_and v (bit k)) i ≡ (testbit v i && (i == k))
    digit i = testbit-bit_and v (bit k) i ∙ ground (arith, testbit-bit k i h)

    nonzero : testbit v k ≡ true → bit_and v (bit k) ≢ 0
    nonzero on e = ground (arith, digit k, testbit-zero k, ap (λ (t : ℕ). testbit t k) e)

    zero : testbit v k ≡ false → bit_and v (bit k) ≡ 0
    zero off =
        eq_of_testbit _ 0
          λ i. digit i ∙ ground (arith, testbit-zero i, ap (λ (t : ℕ). testbit v t) {x = i} {y = k})

pub u32_u32 : (v : ℕ) → u32 (u32 v) ≡ u32 v
u32_u32 v = omega arith
