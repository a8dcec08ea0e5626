-- ===== src/Base/Digits.antt =====
-- The binary digits of a number, and what `&`, `|`, `^`, shifts and remainders do to them.
-- Two numbers with the same digits are equal, so laws of the bit operations are shown digit by digit.
use Prim.Native.Nat.{
  ℕ, zero, suc, ◌+◌, ◌-◌, ◌*◌, ◌/◌, ◌%◌, ◌^◌, ◌≤◌, ◌<◌, min, max, digits, bit_and, bit_or,
  bit_and-bitwise, bit_or-bitwise,
}
use mathlib.Core.Path.{◌≡◌, refl, sym, ap, ◌∙◌}
use mathlib.Core.Logic.{inl, inr}
use mathlib.Core.Bool.{Bool, false, not, ◌&&◌, ◌||◌}
use native.Mathlib.Nat.{pow-suc, one-le-pow, mod-lt, div-add-mod'}
use native.Mathlib.Omega.{arith}
use cr_dk.Base.Tests.{ltb, ◌==◌, if◌then◌else◌, Bool-cases, ltb→le}

-- Digit `i` of `x`.
unfoldable pub testbit : ℕ → ℕ → Bool
testbit x zero = x % 2 == 1
testbit x (suc i) = testbit (x / 2) i

pub testbit-zero : (i : ℕ) → testbit 0 i ≡ false
unfolding testbit
testbit-zero zero = refl
testbit-zero (suc i) = testbit-zero i

-- The native operations mean a recursion on the digits of their first argument, on fuel.
and_digits :
    (n a b i : ℕ) → a ≤ n → testbit (digits (λ _. 0) min n a b) i ≡ (testbit a i && testbit b i)
unfolding testbit
and_digits zero zero b i le = ground (arith, testbit-zero i)
and_digits zero (suc a) b i le = absurd (omega arith)
and_digits (suc n) zero b i le = ground (arith, testbit-zero i)
and_digits (suc n) (suc a) b zero le = ground arith
and_digits (suc n) (suc a) b (suc i) le =
    let above : ℕ = digits (λ _. 0) min n (suc a / 2) (b / 2) in
    let half : (above * 2 + min (suc a % 2) (b % 2)) / 2 ≡ above = omega arith in
    ap (λ (t : ℕ). testbit t i) half ∙ and_digits n (suc a / 2) (b / 2) i (omega arith)

or_digits :
    (n a b i : ℕ) → a ≤ n → testbit (digits (λ y. y) max n a b) i ≡ (testbit a i || testbit b i)
unfolding testbit
or_digits zero zero b i le = ground (arith, testbit-zero i)
or_digits zero (suc a) b i le = absurd (omega arith)
or_digits (suc n) zero b i le = ground (arith, testbit-zero i)
or_digits (suc n) (suc a) b zero le = ground arith
or_digits (suc n) (suc a) b (suc i) le =
    let above : ℕ = digits (λ y. y) max n (suc a / 2) (b / 2) in
    let half : (above * 2 + max (suc a % 2) (b % 2)) / 2 ≡ above = omega arith in
    ap (λ (t : ℕ). testbit t i) half ∙ or_digits n (suc a / 2) (b / 2) i (omega arith)

pub testbit-bit_and : (a b i : ℕ) → testbit (bit_and a b) i ≡ (testbit a i && testbit b i)
testbit-bit_and a b i =
    ap (λ (t : ℕ). testbit t i) (bit_and-bitwise a b) ∙ and_digits a a b i (omega arith)

pub testbit-bit_or : (a b i : ℕ) → testbit (bit_or a b) i ≡ (testbit a i || testbit b i)
testbit-bit_or a b i =
    ap (λ (t : ℕ). testbit t i) (bit_or-bitwise a b) ∙ or_digits a a b i (omega arith)

-- All digits of a number below `2 ^ w` stand below `w`.
pub testbit-out : (w x i : ℕ) → x < 2 ^ w → w ≤ i → testbit x i ≡ false
unfolding testbit
testbit-out zero x i h le = ap (λ (t : ℕ). testbit t i) (omega arith) ∙ testbit-zero i
testbit-out (suc w) x zero h le = absurd (omega arith)
testbit-out (suc w) x (suc i) h le =
    testbit-out w (x / 2) i (omega (arith, pow-suc 2 w)) (omega arith)

-- Numbers with the same digits are equal.
ext_fuel : (n a b : ℕ) → a ≤ n → b ≤ n → ((i : ℕ) → testbit a i ≡ testbit b i) → a ≡ b
unfolding testbit
ext_fuel zero a b p q h = omega arith
ext_fuel (suc n) zero zero p q h = refl
ext_fuel (suc n) a b p q h =
    ground (arith, h 0, ext_fuel n (a / 2) (b / 2) (omega arith) (omega arith) (λ i. h (suc i)))

pub eq_of_testbit : (a b : ℕ) → ((i : ℕ) → testbit a i ≡ testbit b i) → a ≡ b
eq_of_testbit a b h = ext_fuel (a + b) a b (omega arith) (omega arith) h

mul-pow-suc : (q k : ℕ) → q * 2 ^ suc k ≡ 2 * (q * 2 ^ k)
mul-pow-suc q k = omega (arith, ap (λ (t : ℕ). q * t) (pow-suc 2 k))

-- `q` shifted up by `k` digits above the `k` digits of `r`.
pub testbit-join :
    (k q r i : ℕ)
    → r < 2 ^ k
    → testbit (q * 2 ^ k + r) i ≡ (if ltb i k then testbit r i else testbit q (i - k))
unfolding testbit
testbit-join zero q r i h =
    let whole : q * 2 ^ zero + r ≡ q = omega arith in
    ap (λ (t : ℕ). testbit t i) whole ∙ ground (arith, ap (λ (t : ℕ). testbit q t) (sub_zero i))
  where
    sub_zero : (n : ℕ) → n ≡ n - 0
    sub_zero n = omega arith
testbit-join (suc k) q r zero h = ground (arith, mul-pow-suc q k)
testbit-join (suc k) q r (suc i) h =
    let half : (q * 2 ^ suc k + r) / 2 ≡ q * 2 ^ k + r / 2 = omega (arith, mul-pow-suc q k) in
    ap (λ (t : ℕ). testbit t i) half
    ∙ testbit-join k q (r / 2) i (omega (arith, pow-suc 2 k))
    ∙ ground (arith, ap (λ (t : ℕ). testbit q t) (sub_suc i k))
  where
    sub_suc : (n m : ℕ) → n - m ≡ suc n - suc m
    sub_suc n m = omega arith

pub testbit-shl :
    (x k i : ℕ) → testbit (x * 2 ^ k) i ≡ (if ltb i k then false else testbit x (i - k))
testbit-shl x k i =
    ap (λ (t : ℕ). testbit t i) (omega arith)
    ∙ testbit-join k x 0 i (one-le-pow k 2 (omega arith))
    ∙ ground (arith, testbit-zero i)

split : (x k : ℕ) → x ≡ x / 2 ^ k * 2 ^ k + x % 2 ^ k
split x k = sym (div-add-mod' x (2 ^ k))

pub testbit-mod : (x k i : ℕ) → testbit (x % 2 ^ k) i ≡ (ltb i k && testbit x i)
testbit-mod x k i = elim (Bool-cases (ltb i k)) [
  | inl low ↦ rw low (
      ground (
        arith,
        ap (λ (t : ℕ). testbit t i) (split x k),
        testbit-join k (x / 2 ^ k) (x % 2 ^ k) i (mod-lt x (one-le-pow k 2 (omega arith))),
      ))
  | inr high ↦
      rw high
        (testbit-out k (x % 2 ^ k) i (mod-lt x (one-le-pow k 2 (omega arith))) (ltb→le i k high))
]

pub testbit-shr : (x k i : ℕ) → testbit (x / 2 ^ k) i ≡ testbit x (k + i)
testbit-shr x k i = ground (
  arith,
  ap (λ (t : ℕ). testbit t (k + i)) (split x k),
  testbit-join k (x / 2 ^ k) (x % 2 ^ k) (k + i) (mod-lt x (one-le-pow k 2 (omega arith))),
  ap (λ (t : ℕ). testbit (x / 2 ^ k) t) (add_sub k i),
)
  where
    add_sub : (n m : ℕ) → n + m - n ≡ m
    add_sub n m = omega arith

testbit-one : (i : ℕ) → testbit 1 i ≡ (i == 0)
unfolding testbit
testbit-one zero = refl
testbit-one (suc i) = testbit-zero i ∙ ground arith

pub testbit-pow : (k i : ℕ) → testbit (2 ^ k) i ≡ (i == k)
testbit-pow k i =
    ap (λ (t : ℕ). testbit t i) (omega arith)
    ∙ testbit-shl 1 k i
    ∙ ground (arith, testbit-one (i - k))

-- `2 ^ w - 1 - x` is the complement of `x` in `w` digits.
pub testbit-complement :
    (w x i : ℕ) → x < 2 ^ w → testbit (2 ^ w - 1 - x) i ≡ (ltb i w && not (testbit x i))
unfolding testbit
testbit-complement zero x i h =
    ap (λ (t : ℕ). testbit t i) (omega arith) ∙ testbit-zero i ∙ ground arith
testbit-complement (suc w) x zero h = ground (arith, pow-suc 2 w)
testbit-complement (suc w) x (suc i) h =
    let half : (2 ^ suc w - 1 - x) / 2 ≡ 2 ^ w - 1 - x / 2 = omega (arith, pow-suc 2 w) in
    ap (λ (t : ℕ). testbit t i) half
    ∙ testbit-complement w (x / 2) i (omega (arith, pow-suc 2 w))
    ∙ ground arith
