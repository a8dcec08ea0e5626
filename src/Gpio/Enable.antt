-- ===== src/Gpio/Enable.antt =====
-- GpioEnableInterrupt and GpioCheckInterruptEnabled of Library/GpioLib/gpio.c.
use cr_dk.Bits.Laws.{testbit-clr_bits, testbit-u32}
use cr_dk.Gpio.Config.{write_field, bool_value}
use cr_dk.Status.{ok}
use cr_dk.Bits.Fields.{mask-lt, get_field-write, get_field-write_other, testbit-get_field}
use cr_dk.Bits.{clr_bits, u32, get_field}
use cr_dk.Gpio.Trigger.{enable_value, cfg_at, gpio_check_interrupt_enabled, gpio_enable_interrupt}
use cr_dk.Mmio.Storage.{IsStorage}
use cr_dk.Gpio.Detection.{IsTriggerLayout}
use cr_dk.Mmio.{Bus}
use cr_dk.Gpio.Types.{GpioDeviceContext, GpioConfigRegInfo}
use cr_dk.Base.{
  ℕ, ◌+◌, ◌^◌, ◌<◌, ◌≡◌, ap, ◌∙◌, Bool, true, false, not, some, arith, leb, ◌==◌, testbit-zero,
  eq_of_testbit,
}

module _ {cfg : GpioConfigRegInfo} (l : IsTriggerLayout cfg) where
  cleared-enable :
      (v : ℕ)
      → v < 2 ^ 32
      → get_field (u32 (clr_bits v cfg.interrupt_en_msk)) cfg.interrupt_en_msk ≡ 0
  cleared-enable v small = eq_of_testbit _ _ λ i.
      testbit-get_field l.en (u32 (clr_bits v cfg.interrupt_en_msk)) i
      ∙ ground (
        arith,
        testbit-u32 (clr_bits v cfg.interrupt_en_msk) (l.en_at + i),
        testbit-clr_bits v cfg.interrupt_en_msk (l.en_at + i) small (omega (arith, mask-lt l.en)),
        (l.en).bits (l.en_at + i),
        testbit-zero i,
      )

  -- Clearing the status bit leaves the enable bit.
  raw_cleared-enable :
      (v : ℕ)
      → v < 2 ^ 32
      → get_field (u32 (clr_bits v cfg.interrupt_raw_status_msk)) cfg.interrupt_en_msk
        ≡ get_field v cfg.interrupt_en_msk
  raw_cleared-enable v small = eq_of_testbit _ _ λ i.
      testbit-get_field l.en (u32 (clr_bits v cfg.interrupt_raw_status_msk)) i
      ∙ ground (
        arith,
        testbit-u32 (clr_bits v cfg.interrupt_raw_status_msk) (l.en_at + i),
        testbit-clr_bits v cfg.interrupt_raw_status_msk (l.en_at + i) small
            (omega (arith, mask-lt l.raw)),
        (l.raw).bits (l.en_at + i),
        l.raw_en,
        testbit-get_field l.en v i,
        (l.en).fits,
      )

  enable_value-enabled :
      (enable level : Bool) (v : ℕ)
      → v < 2 ^ 32
      → get_field (enable_value cfg enable level v) cfg.interrupt_en_msk ≡ bool_value enable
  unfolding enable_value
  enable_value-enabled true level v small =
      let on = write_field v 1 cfg.interrupt_en_msk in
      get_field-write_other l.raw l.en on 1 l.raw_en (omega arith) ∙ get_field-write l.en v 1 small
  enable_value-enabled false level v small =
      let off = u32 (clr_bits v cfg.interrupt_en_msk) in
      ground (arith, raw_cleared-enable off (omega arith), cleared-enable v small)

  enable_value-lt : (enable level : Bool) (v : ℕ) → enable_value cfg enable level v < 2 ^ 32
  unfolding enable_value
  enable_value-lt enable level v = ground arith

module _ {S : Type 0} {bus : Bus S} (st : IsStorage bus) (c : GpioDeviceContext) (i : ℕ)
    (there : leb c.pin_count i ≡ false) (free : (c.gpio_pins i).reserved ≡ false) where
  abbrev cfg : GpioConfigRegInfo
  cfg = (c.gpio_pins i).reg_cfg

  abbrev at : ℕ
  at = cfg_at bus c i

  enable-run :
      (enable : Bool) (s : S)
      → (level : Bool) × (bus.peek (gpio_enable_interrupt bus (some c) i enable s).1 at
          ≡ u32 (u32 (enable_value cfg enable level (bus.peek s at))))
  unfolding gpio_enable_interrupt
  enable-run true s =
      let level = get_field 0 cfg.interrupt_detection_msk == 0 in
      let value = enable_value cfg true level (bus.peek s at) in
      let run : (gpio_enable_interrupt bus (some c) i true s).1
          ≡ bus.poke at (u32 value) (bus.after_read at s) =
        ground (arith, there, free) in
      (
        level,
        ap (λ (t : S). bus.peek t at) run
            ∙ st.peek-poke at (u32 value) (bus.after_read at s) at
            ∙ ground arith,
      )
  enable-run false s =
      let level = get_field (bus.peek (bus.after_read at s) at) cfg.interrupt_detection_msk == 0 in
      let value = enable_value cfg false level (bus.peek s at) in
      let twice = bus.after_read at (bus.after_read at s) in
      let run : (gpio_enable_interrupt bus (some c) i false s).1 ≡ bus.poke at (u32 value) twice =
        ground (arith, there, free) in
      (
        level,
        ap (λ (t : S). bus.peek t at) run ∙ st.peek-poke at (u32 value) twice at ∙ ground arith,
      )

  check-run :
      (s : S)
      → (gpio_check_interrupt_enabled bus (some c) i s).0
        ≡ ok (not (get_field (bus.peek s at) cfg.interrupt_en_msk == 0))
  unfolding gpio_check_interrupt_enabled
  check-run s = ground (arith, there, free)

  -- `GpioCheckInterruptEnabled` reports what `GpioEnableInterrupt` was last told, for a pin that exists
  -- and is not reserved, whose registers hold what is written to them and whose fields of the
  -- interrupt configuration lie apart.
  pub gpio_check_interrupt_enabled-gpio_enable_interrupt :
      IsTriggerLayout cfg
      → (enable : Bool) (s : S)
      → (gpio_check_interrupt_enabled bus
          (some c)
          i
          (gpio_enable_interrupt bus (some c) i enable s).1).0
        ≡ ok enable
  gpio_check_interrupt_enabled-gpio_enable_interrupt l enable s =
      let (level, held) = enable-run enable s in
      let value = enable_value cfg enable level (bus.peek s at) in
      let field : get_field (bus.peek (gpio_enable_interrupt bus (some c) i enable s).1 at)
            cfg.interrupt_en_msk
          ≡ bool_value enable =
        ap (λ (t : ℕ). get_field t cfg.interrupt_en_msk)
          (held ∙ omega (arith, enable_value-lt l enable level (bus.peek s at)))
        ∙ enable_value-enabled l enable level (bus.peek s at) (st.peek-lt s at) in
      check-run (gpio_enable_interrupt bus (some c) i enable s).1 ∙ ap ok (ground (arith, field))
