-- ===== src/Rpmh/Trigger.antt =====
-- What TcsSetTrigger of rpmh.c leaves in the control register of a TCS whose registers hold what is
-- written to them.
use cr_dk.Bits.Laws.{u32_u32, testbit-bit, testbit-clr_bits, testbit-u32}
use cr_dk.Bits.Fields.{bit-IsField, mask-lt}
use cr_dk.Rpmh.Tcs.{tcs_set_trigger, write_tcs_reg, write_tcs_reg_sync, wait_written}
use cr_dk.Rpmh.Types.{
  tcs_amc_mode_trigger, tcs_amc_mode_enable, rpmh_write_max_wait_time, tcs_reg, RpmhDeviceContext,
}
use cr_dk.Mmio.Storage.{IsStorage}
use cr_dk.Base.{
  Bool, ℕ, zero, suc, ◌^◌, ◌<◌, ◌≡◌, refl, ap, ◌∙◌, inl, inr, true, false, arith, ◌==◌,
  if◌then◌else◌, Bool-cases, eq_of_testbit,
}
use cr_dk.Bits.{set_bits, clr_bits, bit, u32}
use cr_dk.Mmio.{Bus}

pub bit-lt : (k : ℕ) → k < 32 → bit k < 2 ^ 32
bit-lt k h = mask-lt (bit-IsField k h)

module _ {S : Type 0} {bus : Bus S} (st : IsStorage bus) (c : RpmhDeviceContext) where
  wait_written-seen :
      (n reg tcs value : ℕ) (s : S)
      → (bus.peek s (tcs_reg c reg tcs) == value) ≡ true
      → wait_written bus c (suc n) reg tcs value s ≡ (tt, bus.after_read (tcs_reg c reg tcs) s)
  unfolding wait_written
  wait_written-seen n reg tcs value s h = ground (arith, h)

  wait_written-unseen :
      (n reg tcs value : ℕ) (s : S)
      → (bus.peek s (tcs_reg c reg tcs) == value) ≡ false
      → wait_written bus c (suc n) reg tcs value s
        ≡ wait_written bus c n reg tcs value (bus.delay 1 (bus.after_read (tcs_reg c reg tcs) s))
  unfolding wait_written
  wait_written-unseen n reg tcs value s h = ground (arith, h)

  -- Waiting for a value to appear changes no register.
  pub wait_written-keeps :
      (n reg tcs value : ℕ) (s : S) (a : ℕ)
      → bus.peek (wait_written bus c n reg tcs value s).1 a ≡ bus.peek s a
  unfolding wait_written
  wait_written-keeps zero reg tcs value s a = refl
  wait_written-keeps (suc n) reg tcs value s a =
      let here = tcs_reg c reg tcs in
      let kept = ap (λ (t : S). bus.peek t a) (st.read_keeps here s) in
      elim (Bool-cases (bus.peek s here == value)) [
        | inl seen ↦
            ap (λ (p : Unit {0} × S). bus.peek p.1 a) (wait_written-seen n reg tcs value s seen)
            ∙ kept
        | inr unseen ↦
            ap (λ (p : Unit {0} × S). bus.peek p.1 a) (wait_written-unseen n reg tcs value s unseen)
            ∙ wait_written-keeps n reg tcs value (bus.delay 1 (bus.after_read here s)) a
            ∙ st.peek-delay 1 (bus.after_read here s) a
            ∙ kept
      ]

  pub write_tcs_reg_sync-peek :
      (reg tcs value : ℕ) (s : S) (a : ℕ)
      → bus.peek (write_tcs_reg_sync bus c reg tcs value s).1 a
        ≡ (if tcs_reg c reg tcs == a then u32 value else bus.peek s a)
  unfolding write_tcs_reg_sync
  write_tcs_reg_sync-peek reg tcs value s a =
      wait_written-keeps rpmh_write_max_wait_time reg tcs value
        (write_tcs_reg bus c reg tcs value s).1 a
      ∙ st.peek-poke (tcs_reg c reg tcs) (u32 value) s a
      ∙ ground (arith, u32_u32 value)

  -- The second value that is written, whatever the register held.
  second_value :
      (v : ℕ)
      → v < 2 ^ 32
      → u32 (clr_bits tcs_amc_mode_enable (u32 (clr_bits tcs_amc_mode_trigger v)))
        ≡ tcs_amc_mode_enable
  second_value v h = eq_of_testbit _ _ λ i.
      let first = u32 (clr_bits tcs_amc_mode_trigger v) in
      testbit-u32 (clr_bits tcs_amc_mode_enable first) i
      ∙ ground (
        arith,
        testbit-clr_bits tcs_amc_mode_enable first i (bit-lt 16 (omega arith)) (omega arith),
        testbit-u32 (clr_bits tcs_amc_mode_trigger v) i,
        testbit-clr_bits tcs_amc_mode_trigger v i (bit-lt 24 (omega arith)) (omega arith),
        testbit-bit 24 i (omega arith),
        testbit-bit 16 i (omega arith),
      )

  -- After `TcsSetTrigger`, the control register of the set holds the enable bit, and the trigger bit
  -- too if the trigger was asked for, whatever it held; no other register has changed. The registers
  -- hold what is written to them.
  pub tcs_set_trigger-control :
      (tcs : ℕ) (trigger : Bool) (s : S) (a : ℕ)
      → bus.peek (tcs_set_trigger bus c tcs trigger s).1 a ≡ (
          if tcs_reg c c.drv_registers.reg_drv_control tcs == a
          then (if trigger
              then u32 (set_bits (u32 tcs_amc_mode_enable) tcs_amc_mode_trigger)
              else tcs_amc_mode_enable)
          else bus.peek s a)
  unfolding tcs_set_trigger
  tcs_set_trigger-control tcs trigger s a =
      elim trigger
        as (λ t.
          bus.peek (tcs_set_trigger bus c tcs t s).1 a
          ≡ (if here == a then (if t then last else tcs_amc_mode_enable) else bus.peek s a)) [
            | true ↦
                st.peek-poke here (u32 last) sync3 a
                ∙ ground (
                  arith,
                  write_tcs_reg_sync-peek control tcs (u32 tcs_amc_mode_enable) sync2 a,
                  cleared,
                  u32_u32 (set_bits (u32 tcs_amc_mode_enable) tcs_amc_mode_trigger),
                )
            | false ↦ cleared
          ]
    where
      control : ℕ
      control = c.drv_registers.reg_drv_control

      here : ℕ
      here = tcs_reg c control tcs

      last : ℕ
      last = u32 (set_bits (u32 tcs_amc_mode_enable) tcs_amc_mode_trigger)

      val : ℕ
      val = bus.peek s here

      first : ℕ
      first = u32 (clr_bits tcs_amc_mode_trigger val)

      second : ℕ
      second = u32 (clr_bits tcs_amc_mode_enable first)

      sync1 : S
      sync1 = (write_tcs_reg_sync bus c control tcs first (bus.after_read here s)).1

      sync2 : S
      sync2 = (write_tcs_reg_sync bus c control tcs second sync1).1

      sync3 : S
      sync3 = (write_tcs_reg_sync bus c control tcs (u32 tcs_amc_mode_enable) sync2).1

      cleared : bus.peek sync2 a ≡ (if here == a then tcs_amc_mode_enable else bus.peek s a)
      cleared =
          write_tcs_reg_sync-peek control tcs second sync1 a
          ∙ ground (
            arith,
            second_value val (st.peek-lt s here),
            u32_u32 (clr_bits tcs_amc_mode_enable first),
            write_tcs_reg_sync-peek control tcs first (bus.after_read here s) a,
            ap (λ (t : S). bus.peek t a) (st.read_keeps here s),
          )
