-- ===== src/Pdc/Enable.antt =====
-- The enable bits of pdc.c: what enabling and disabling a pin does, and what the loop of
-- `PdcPinsMapping` leaves in the registers.
use cr_dk.Base.{
  inr, inl, Bool-cases, [], ◌∷◌, List, ◌≤◌, zero, suc, testbit-out, ℕ, ◌+◌, ◌/◌, ◌%◌, ◌^◌, ◌<◌, ◌≡◌,
  refl, ap, ◌∙◌, Bool, true, false, not, some, arith, ◌==◌, if◌then◌else◌, testbit,
}
use cr_dk.Bits.{u16, u32, bit, set_bits, clr_bits, get_field}
use cr_dk.Bits.Laws.{below_32, testbit-bit, testbit-set_bits, testbit-clr_bits, testbit-u32}
use cr_dk.Bits.Fields.{IsField, mask-lt, bit-IsField, testbit-get_field, get_field-lt}
use cr_dk.Status.{ok}
use cr_dk.Mmio.{Bus}
use cr_dk.Mmio.Storage.{peek-read_write, IsStorage}
use cr_dk.Pdc.{
  PdcRange, clean_pin, clean_range, clean_ranges, pdc_pins_mapping, PdcDeviceContext, bank_register,
  pdc_check_interrupt_enabled, pdc_enable_interrupt,
}

-- The enable bit of a pin.
abbrev pub enabled : {S : Type 0} → Bus S → PdcDeviceContext → ℕ → S → Bool
enabled bus ctx pin s = testbit (bus.peek s (bank_register ctx (pin / 32))) (pin % 32)

bit_field_set : (v k : ℕ) → k < 32 → not (get_field v (bit k) == 0) ≡ testbit v k
unfolding testbit
bit_field_set v k h =
    ground (arith, get_field-lt field v, testbit-get_field field v 0, ap (testbit v) add_zero)
  where
    field : IsField (bit k) k 1
    field = bit-IsField k h

    add_zero : k + 0 ≡ k
    add_zero = omega arith

-- Pins of one bank register have one index.
bank_register-injective :
    (ctx : PdcDeviceContext) (i j : ℕ)
    → i < 2 ^ 11
    → j < 2 ^ 11
    → bank_register ctx i ≡ bank_register ctx j
    → i ≡ j
bank_register-injective ctx i j hi hj e = omega arith

same_pin : (pin other : ℕ) → pin / 32 ≡ other / 32 → pin % 32 ≡ other % 32 → pin ≡ other
same_pin pin other p q = omega arith

-- The value that is written for a pin with bit `k`.
abbrev new_value : Bool → ℕ → ℕ → ℕ
new_value enable val k = if enable then set_bits val (bit k) else clr_bits val (bit k)

testbit-new_value :
    (enable : Bool) (val k i : ℕ)
    → val < 2 ^ 32
    → k < 32
    → i < 32
    → testbit (u32 (new_value enable val k)) i ≡ (if i == k then enable else testbit val i)
testbit-new_value true val k i hv hk hi =
    testbit-u32 (set_bits val (bit k)) i
    ∙ ground (arith, testbit-set_bits val (bit k) i, testbit-bit k i (omega arith))
testbit-new_value false val k i hv hk hi =
    testbit-u32 (clr_bits val (bit k)) i
    ∙ ground (
      arith,
      testbit-clr_bits val (bit k) i hv (omega (arith, mask-lt (bit-IsField k hk))),
      testbit-bit k i (omega arith),
    )

module _ {S : Type 0} {bus : Bus S} (st : IsStorage bus) (ctx : PdcDeviceContext) where
  -- Enabling or disabling a pin sets its own enable bit so, and no other pin's.
  pub pdc_enable_interrupt-enabled :
      (pin other : ℕ) (enable : Bool) (s : S)
      → pin < 2 ^ 16
      → other < 2 ^ 16
      → enabled bus ctx other (pdc_enable_interrupt bus (some ctx) pin enable s).1
        ≡ (if pin == other then enable else enabled bus ctx other s)
  unfolding pdc_enable_interrupt
  pdc_enable_interrupt-enabled pin other enable s hp ho =
      ap (λ (t : ℕ). testbit t (other % 32)) written
      ∙ ground (
        arith,
        bank_register-injective ctx (pin / 32) (other / 32),
        ap (λ (t : ℕ). bank_register ctx (t / 32)) {x = pin} {y = other},
        ap (λ (t : ℕ). bus.peek s t) {x = mine} {y = bank_register ctx (other / 32)},
        testbit-new_value enable val (pin % 32) (other % 32) (st.peek-lt s mine) (omega arith)
            (omega arith),
      )
    where
      mine : ℕ
      mine = bank_register ctx (pin / 32)

      val : ℕ
      val = bus.peek s mine

      written :
          bus.peek
            (pdc_enable_interrupt bus (some ctx) pin enable s).1
            (bank_register ctx (other / 32))
          ≡ (if mine == bank_register ctx (other / 32)
              then u32 (new_value enable val (pin % 32))
              else bus.peek s (bank_register ctx (other / 32)))
      written =
          ap (λ (t : S). bus.peek t (bank_register ctx (other / 32))) (st.read_keeps mine _)
          ∙ peek-read_write st mine (new_value enable val (pin % 32)) s
              (bank_register ctx (other / 32))

  -- `PdcCheckInterruptEnabled` reports the pin's enable bit and changes nothing.
  pub pdc_check_interrupt_enabled-enabled :
      (pin : ℕ) (s : S)
      → pdc_check_interrupt_enabled bus (some ctx) pin s ≡ (ok (enabled bus ctx pin s), s)
  unfolding pdc_check_interrupt_enabled
  pdc_check_interrupt_enabled-enabled pin s =
      rw st.read_keeps (
        rw (bit_field_set (bus.peek s (bank_register ctx (pin / 32))) (pin % 32) (omega arith))
          refl)

  clean_pin-keeps :
      (pin c i : ℕ) (s : S)
      → 5 ≤ i
      → testbit (bus.peek (clean_pin bus ctx pin s).1 c) i ≡ testbit (bus.peek s c) i
  unfolding clean_pin
  clean_pin-keeps pin c i s h =
      ap (λ (t : ℕ). testbit t i) (peek-read_write st mine (clr_bits val index) s c)
      ∙ ground (
        arith,
        ap (λ (t : ℕ). bus.peek s t) {x = mine} {y = c},
        testbit-u32 (clr_bits val index) i,
        testbit-clr_bits val index i (st.peek-lt s mine) (omega arith),
        testbit-out 5 index i (omega arith) h,
        below_32 val i (st.peek-lt s mine),
      )
    where
      mine : ℕ
      mine = bank_register ctx (u16 (pin / 32))

      val : ℕ
      val = bus.peek s mine

      index : ℕ
      index = u16 (pin % 32)

  clean_range-keeps :
      (r : PdcRange) (n k c i : ℕ) (s : S)
      → 5 ≤ i
      → testbit (bus.peek (clean_range bus ctx r n k s).1 c) i ≡ testbit (bus.peek s c) i
  unfolding clean_range
  clean_range-keeps r zero k c i s h = refl
  clean_range-keeps r (suc n) k c i s h =
      clean_range-keeps r n (k + 1) c i (clean_pin bus ctx (k + r.pdc_pin_base) s).1 h
      ∙ clean_pin-keeps (k + r.pdc_pin_base) c i s h

  clean_ranges-keeps :
      (rs : List PdcRange) (c i : ℕ) (s : S)
      → 5 ≤ i
      → testbit (bus.peek (clean_ranges bus ctx rs s).1 c) i ≡ testbit (bus.peek s c) i
  unfolding clean_ranges
  clean_ranges-keeps [] c i s h = refl
  clean_ranges-keeps (r ∷ rs) c i s h = elim (Bool-cases (r.pdc_count == 0)) [
    | inl last ↦ rw last refl
    | inr more ↦ rw more (
        clean_ranges-keeps rs c i (clean_range bus ctx r r.pdc_count 0 s).1 h
        ∙ clean_range-keeps r r.pdc_count 0 c i s h)
  ]

  -- `PdcPinsMapping` leaves every bit from bit 5 on of every register as it was: it disables no pin
  -- whose number leaves 5 or more when divided by 32.
  pub pdc_pins_mapping-keeps :
      (s : S) (c i : ℕ)
      → 5 ≤ i
      → testbit (bus.peek (pdc_pins_mapping bus ctx s).1 c) i ≡ testbit (bus.peek s c) i
  unfolding pdc_pins_mapping
  pdc_pins_mapping-keeps s c i h = clean_ranges-keeps ctx.pdc_region c i s h
