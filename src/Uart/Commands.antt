-- ===== src/Uart/Commands.antt =====
-- The values that `MsmGeniWriteTxFifo` of debug_uart.c writes by CrMmioUpdateBits32.
use cr_dk.Uart.Transmit.{tx_irqs}
use cr_dk.Bits.{bit, gen_msk, u32}
use cr_dk.Base.{
  ℕ, zero, suc, ◌+◌, ◌-◌, ◌*◌, ◌/◌, ◌^◌, ◌<◌, bit_and, bit_or, ◌≡◌, refl, sym, ◌∙◌, true, arith,
  ◌==◌, testbit, testbit-bit_and, testbit-bit_or, testbit-out, testbit-shr, testbit-mod,
  testbit-complement, eq_of_testbit,
}

-- The digits of a register in which those of `mask` were replaced.
abbrev pub replaced : ℕ → ℕ → ℕ → ℕ
replaced val mask bits = u32 (bit_or (bit_and val (2 ^ 32 - 1 - mask)) (bit_and bits mask))

testbit-replaced :
    (val mask bits i : ℕ)
    → i < 32
    → testbit mask i ≡ true
    → mask < 2 ^ 32
    → testbit (replaced val mask bits) i ≡ testbit bits i
testbit-replaced val mask bits i h on small =
    testbit-mod (bit_or (bit_and val (2 ^ 32 - 1 - mask)) (bit_and bits mask)) 32 i
    ∙ ground (
      arith,
      h,
      on,
      testbit-bit_or (bit_and val (2 ^ 32 - 1 - mask)) (bit_and bits mask) i,
      testbit-bit_and val (2 ^ 32 - 1 - mask) i,
      testbit-bit_and bits mask i,
      testbit-complement 32 mask i small,
    )

-- The opcode of the command is that of a transfer.
pub start_opcode : (val : ℕ) → (replaced val (gen_msk 31 27) (1 * 2 ^ 27) / 2 ^ 27 == 1) ≡ true
unfolding gen_msk testbit
start_opcode val = rw (eq_of_testbit (x / 2 ^ 27) 1 digit) refl
  where
    x : ℕ
    x = replaced val (gen_msk 31 27) (1 * 2 ^ 27)

    in_field :
        (i : ℕ)
        → 27 + i < 32
        → testbit (gen_msk 31 27) (27 + i) ≡ true
        → testbit (x / 2 ^ 27) i ≡ testbit (1 * 2 ^ 27) (27 + i)
    in_field i h on =
        testbit-shr x 27 i
        ∙ testbit-replaced val (gen_msk 31 27) (1 * 2 ^ 27) (27 + i) h on (omega arith)

    digit : (i : ℕ) → testbit (x / 2 ^ 27) i ≡ testbit 1 i
    digit zero = in_field 0 (omega arith) refl
    digit (suc zero) = in_field 1 (omega arith) refl
    digit (suc (suc zero)) = in_field 2 (omega arith) refl
    digit (suc (suc (suc zero))) = in_field 3 (omega arith) refl
    digit (suc (suc (suc (suc zero)))) = in_field 4 (omega arith) refl
    digit (suc (suc (suc (suc (suc i))))) =
        testbit-out 5 (x / 2 ^ 27) (suc (suc (suc (suc (suc i))))) (omega arith) (omega arith)
        ∙ sym (testbit-out 1 1 (suc (suc (suc (suc (suc i))))) (omega arith) (omega arith))

-- The interrupt for the end of a transfer is switched on.
pub end_switched_on : (val : ℕ) → testbit (replaced val tx_irqs tx_irqs) 0 ≡ true
unfolding bit testbit
end_switched_on val = testbit-replaced val tx_irqs tx_irqs 0 (omega arith) refl (omega arith)
