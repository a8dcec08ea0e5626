-- ===== src/Mmio/Storage.antt =====
-- Registers that hold what was last written: the hypothesis under which what a driver reads back can
-- be told, with an instance.
use cr_dk.Base.{
  ℕ, ◌-◌, ◌^◌, ◌<◌, ◌≡◌, refl, ap, ◌∙◌, true, ◌&&◌, arith, ◌==◌, if◌then◌else◌, bit_and, bit_or,
  Bool-cases, inl, inr, ==→eq, testbit, testbit-bit_and, testbit-bit_or, testbit-complement,
  testbit-mod,
}
use cr_dk.Bits.{u32}
use cr_dk.Bits.Laws.{below_32}
use cr_dk.Mmio.{write32, Bus, update_bits32}

-- Reading changes nothing, a write is read back and touches no other register, and waiting keeps the
-- registers.
pub record IsStorage {S : Type 0} (bus : Bus S) : Type 0 where
  pub read_keeps : (a : ℕ) (s : S) → bus.after_read a s ≡ s
  pub peek-poke :
      (a v : ℕ) (s : S) (c : ℕ)
      → bus.peek (bus.poke a v s) c ≡ (if a == c then u32 v else bus.peek s c)
  pub peek-delay : (us : ℕ) (s : S) (c : ℕ) → bus.peek (bus.delay us s) c ≡ bus.peek s c
  pub peek-lt : (s : S) (a : ℕ) → bus.peek s a < 2 ^ 32

module _ {S : Type 0} {bus : Bus S} (st : IsStorage bus) where
  -- What reading a register and writing a UINT32 to it leaves in any register.
  pub peek-read_write :
      (a v : ℕ) (s : S) (c : ℕ)
      → bus.peek (write32 bus a (u32 v) (bus.after_read a s)).1 c
        ≡ (if a == c then u32 v else bus.peek s c)
  peek-read_write a v s c = rw st.read_keeps (st.peek-poke a (u32 (u32 v)) s c ∙ ground arith)

  -- `CrMmioUpdateBits32` writes the masked digits and keeps the others, in its own register alone.
  pub testbit-update_bits32 :
      (a mask bits : ℕ) (s : S) (c i : ℕ)
      → mask < 2 ^ 32
      → testbit (bus.peek (update_bits32 bus a mask bits s).1 c) i
        ≡ (if (a == c) && testbit mask i then testbit bits i else testbit (bus.peek s c) i)
  unfolding update_bits32
  testbit-update_bits32 a mask bits s c i h =
      ap (λ (t : ℕ). testbit t i) (st.peek-poke a (u32 val) (bus.after_read a s) c)
      ∙ elim (Bool-cases (a == c)) [
        | inl e ↦ rw e (rw u32_twice (rw (← same e) written))
        | inr e ↦ rw e (rw st.read_keeps refl)
      ]
    where
      val : ℕ
      val = bit_or (bit_and (bus.peek s a) (2 ^ 32 - 1 - mask)) (bit_and bits mask)

      u32_twice : u32 (u32 val) ≡ u32 val
      u32_twice = omega arith

      same : (a == c) ≡ true → bus.peek s a ≡ bus.peek s c
      same e = ap (λ (t : ℕ). bus.peek s t) (==→eq a c e)

      written :
          testbit (u32 val) i
          ≡ (if testbit mask i then testbit bits i else testbit (bus.peek s a) i)
      written =
          testbit-mod val 32 i
          ∙ ground (
            arith,
            testbit-bit_or (bit_and (bus.peek s a) (2 ^ 32 - 1 - mask)) (bit_and bits mask) i,
            testbit-bit_and (bus.peek s a) (2 ^ 32 - 1 - mask) i,
            testbit-bit_and bits mask i,
            testbit-complement 32 mask i h,
            below_32 (bus.peek s a) i (st.peek-lt s a),
            below_32 mask i h,
          )

-- A memory of registers.
abbrev pub Ram : Type 0
Ram = ℕ → ℕ

abbrev pub ram : Bus Ram
ram = record {
  peek = λ s a. u32 (s a);
  after_read = λ a s. s;
  poke = λ a v s c. if a == c then v else s c;
  delay = λ us s. s;
}

pub ram-IsStorage : IsStorage ram
ram-IsStorage = record {
  read_keeps = λ a s. refl;
  peek-poke = λ a v s c. ground arith;
  peek-delay = λ us s c. refl;
  peek-lt = λ s a. omega arith;
}
