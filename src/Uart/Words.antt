-- ===== src/Uart/Words.antt =====
-- The words that debug_uart.c merges the bytes of a buffer into.
use mathlib.Core.Path.{ap₂}
use cr_dk.Uart.Queue.{bytes_from}
use native.Mathlib.Nat.{
  add-mul-div_left, div-eq_of_lt, one-le-pow, add-zero, mod-eq_of_lt, mul-le-mul_right, pow-suc,
  pow-le-pow_right,
}
use cr_dk.Uart.Transmit.{merge}
use cr_dk.Base.{
  testbit-join, ℕ, zero, suc, ◌+◌, ◌*◌, ◌/◌, ◌%◌, ◌^◌, ◌≤◌, ◌<◌, bit_or, ◌≡◌, refl, sym, ap, ◌∙◌,
  List, [], ◌∷◌, arith, length, take, drop, testbit-bit_or, testbit-out, testbit-shl, eq_of_testbit,
}
use cr_dk.Bits.{u32}

abbrev pub IsBytes : List ℕ → Type 0
IsBytes [] = Unit
IsBytes (b ∷ bs) = (b < 256) × IsBytes bs

pub take-IsBytes : (n : ℕ) (bs : List ℕ) → IsBytes bs → IsBytes (take n bs)
take-IsBytes zero bs l = tt
take-IsBytes (suc n) [] l = tt
take-IsBytes (suc n) (b ∷ bs) (l, ls) = (l, take-IsBytes n bs ls)

pub drop-IsBytes : (n : ℕ) (bs : List ℕ) → IsBytes bs → IsBytes (drop n bs)
drop-IsBytes zero bs l = l
drop-IsBytes (suc n) [] l = tt
drop-IsBytes (suc n) (b ∷ bs) (l, ls) = drop-IsBytes n bs ls

abbrev little_endian : List ℕ → ℕ
little_endian [] = 0
little_endian (b ∷ bs) = b + 256 * little_endian bs

or_above : (acc b k : ℕ) → acc < 2 ^ k → bit_or acc (b * 2 ^ k) ≡ b * 2 ^ k + acc
or_above acc b k h = eq_of_testbit _ _ λ i.
    testbit-bit_or acc (b * 2 ^ k) i
    ∙ ground (arith, testbit-shl b k i, testbit-out k acc i h)
    ∙ sym (testbit-join k b acc i h)

next_byte : (i : ℕ) → 2 ^ ((i + 1) * 8) ≡ 256 * 2 ^ (i * 8)
next_byte i = ap (λ (k : ℕ). 2 ^ k) (omega arith) ∙ eight (i * 8)
  where
    up : (k j : ℕ) → 2 ^ (k + suc j) ≡ 2 ^ (k + j) * 2
    up k j = ap (λ (n : ℕ). 2 ^ n) {y = suc (k + j)} (omega arith) ∙ pow-suc 2 (k + j)

    eight : (k : ℕ) → 2 ^ (k + 8) ≡ 256 * 2 ^ k
    eight k = omega (
      arith,
      up k 0,
      up k 1,
      up k 2,
      up k 3,
      up k 4,
      up k 5,
      up k 6,
      up k 7,
      ap (λ (n : ℕ). 2 ^ n) (add-zero k),
    )

small : (acc b i : ℕ) → acc < 2 ^ (i * 8) → b < 256 → b * 2 ^ (i * 8) + acc < 2 ^ ((i + 1) * 8)
small acc b i h l =
    omega (arith, next_byte i, mul-le-mul_right {m = b} {n = 255} (2 ^ (i * 8)) (omega arith))

gather : (p b l acc : ℕ) {q : ℕ} → q ≡ 256 * p → b * p + acc + q * l ≡ acc + p * (b + 256 * l)
gather p b l acc e = rw e (omega arith)

merge-little_endian :
    (bs : List ℕ) (i acc : ℕ)
    → acc < 2 ^ (i * 8)
    → IsBytes bs
    → i + length bs ≤ 4
    → merge i bs acc ≡ acc + 2 ^ (i * 8) * little_endian bs
unfolding merge
merge-little_endian [] i acc h l room = omega arith
merge-little_endian (b ∷ bs) i acc h (l, ls) room =
    ap (λ (t : ℕ). merge (i + 1) bs (u32 t)) (or_above acc b (i * 8) h)
    ∙ ap (merge (i + 1) bs) (mod-eq_of_lt whole)
    ∙ merge-little_endian bs (i + 1) (b * 2 ^ (i * 8) + acc) (small acc b i h l) ls (omega arith)
    ∙ gather (2 ^ (i * 8)) b (little_endian bs) acc (next_byte i)
  where
    whole : b * 2 ^ (i * 8) + acc < 2 ^ 32
    whole = omega (
      arith,
      small acc b i h l,
      pow-le-pow_right {n = 2} (omega arith) {i = (i + 1) * 8} {j = 32} (omega arith),
    )

bytes_from-little_endian :
    (bs : List ℕ) (i acc : ℕ)
    → acc < 2 ^ (i * 8)
    → IsBytes bs
    → bytes_from (length bs) i (acc + 2 ^ (i * 8) * little_endian bs) ≡ bs
bytes_from-little_endian [] i acc h l = refl
bytes_from-little_endian (b ∷ bs) i acc h (l, ls) = ap₂ ◌∷◌ first (
    ap (bytes_from (length bs) (i + 1))
      (sym (gather (2 ^ (i * 8)) b (little_endian bs) acc (next_byte i)))
    ∙ bytes_from-little_endian bs (i + 1) (b * 2 ^ (i * 8) + acc) (small acc b i h l) ls)
  where
    value : ℕ
    value = b + 256 * little_endian bs

    first : (acc + 2 ^ (i * 8) * value) / 2 ^ (i * 8) % 2 ^ 8 ≡ b
    first =
        ap (λ (t : ℕ). t % 2 ^ 8) (add-mul-div_left acc value (one-le-pow (i * 8) 2 (omega arith)))
        ∙ ap (λ (t : ℕ). (t + value) % 2 ^ 8) (div-eq_of_lt h)
        ∙ omega arith

merge-lt : (bs : List ℕ) (i acc : ℕ) → acc < 2 ^ 32 → merge i bs acc < 2 ^ 32
unfolding merge
merge-lt [] i acc h = h
merge-lt (b ∷ bs) i acc h = merge-lt bs (i + 1) (u32 (bit_or acc (b * 2 ^ (i * 8)))) (omega arith)

-- A word that is merged from at most four bytes holds them.
pub bytes_from-merge :
    (bs : List ℕ) → IsBytes bs → length bs ≤ 4 → bytes_from (length bs) 0 (u32 (merge 0 bs 0)) ≡ bs
bytes_from-merge bs l room =
    ap (bytes_from (length bs) 0) (
      mod-eq_of_lt (merge-lt bs 0 0 (omega arith))
      ∙ merge-little_endian bs 0 0 (omega arith) l (omega arith))
    ∙ bytes_from-little_endian bs 0 0 (omega arith) l
