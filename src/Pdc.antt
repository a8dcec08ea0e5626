-- ===== src/Pdc.antt =====
-- Library/PdcLib/pdc.c and pdc_irq.c with Include/Library/pdc.h: the power domain controller, which
-- gives wake-up pins to the interrupt controller.
pub mod Ranges
pub mod Enable
pub mod Trigger
pub mod Register
mod Tests
use cr_dk.Base.{
  ℕ, zero, suc, ◌+◌, ◌-◌, ◌*◌, ◌/◌, ◌%◌, ◌^◌, Bool, true, false, not, ◌&&◌, ◌||◌, Option, none,
  some, List, [], ◌∷◌, ◌==◌, ltb, leb, if◌then◌else◌,
}
use cr_dk.Bits.{u16, u32, u64, bit, set_bits, clr_bits, get_field}
use cr_dk.Status.{Status, Result, ok, err}
use cr_dk.Mmio.{Bus, M, pure, ◌>>=◌, ◌>>◌, read32, write32}
use cr_dk.Interrupt.{
  TriggerType, InterruptConfig, HardwareInterrupt2, IrqState, on_hw, checked, register_interrupt,
  unregister_interrupt,
}

-- The fields are UINT16.
pub record PdcRange : Type 0 where
  pub pdc_pin_base : ℕ
  pub gic_spi_base : ℕ
  pub pdc_count : ℕ

-- `pdc_region` holds the array's entries; a loop that would run past its 32 entries stops there.
pub record PdcDeviceContext : Type 0 where
  pub base_address : ℕ
  pub spi_config_base : ℕ
  pub spi_config_size : ℕ
  pub pdc_range_count : ℕ
  pub pdc_region : List PdcRange

-- `GIC_SPI(x)`.
abbrev pub gic_spi : ℕ → ℕ
gic_spi x = 32 + x

abbrev pub has_pin : PdcRange → ℕ → Bool
has_pin r pin = leb r.pdc_pin_base pin && ltb pin (r.pdc_pin_base + r.pdc_count)

abbrev pub has_irq : PdcRange → ℕ → Bool
has_irq r irq = leb (gic_spi r.gic_spi_base) irq && ltb irq (gic_spi (r.gic_spi_base + r.pdc_count))

-- The loop of `PdcGetGicIrqFromPdcPin`.
unfoldable pub find_gic_irq : ℕ → List PdcRange → ℕ → Result ℕ
find_gic_irq zero rs pin = err Status.not_found
find_gic_irq (suc n) [] pin = err Status.not_found
find_gic_irq (suc n) (r ∷ rs) pin =
    if has_pin r pin
    then ok (u16 (gic_spi (r.gic_spi_base + (pin - r.pdc_pin_base))))
    else find_gic_irq n rs pin

unfoldable pub get_gic_irq_from_pdc_pin : Option PdcDeviceContext → ℕ → Result ℕ
unfolding find_gic_irq
get_gic_irq_from_pdc_pin none pin = err Status.invalid_parameter
get_gic_irq_from_pdc_pin (some ctx) pin = find_gic_irq ctx.pdc_range_count ctx.pdc_region pin

-- The loop of `PdcGetPdcPinFromGicIrq`.
unfoldable pub find_pdc_pin : ℕ → List PdcRange → ℕ → Result ℕ
find_pdc_pin zero rs irq = err Status.not_found
find_pdc_pin (suc n) [] irq = err Status.not_found
find_pdc_pin (suc n) (r ∷ rs) irq =
    if has_irq r irq
    then ok (u16 (r.pdc_pin_base + (irq - gic_spi r.gic_spi_base)))
    else find_pdc_pin n rs irq

unfoldable pub get_pdc_pin_from_gic_irq : Option PdcDeviceContext → ℕ → Result ℕ
unfolding find_pdc_pin
get_pdc_pin_from_gic_irq none irq = err Status.invalid_parameter
get_pdc_pin_from_gic_irq (some ctx) irq = find_pdc_pin ctx.pdc_range_count ctx.pdc_region irq

-- The value for the pin's configuration register (`enum PdcIrqConfig`), and the type that the
-- interrupt controller is set to: the controller inverts what the other does not support.
unfoldable pub pdc_irq_config : TriggerType → Option (ℕ × TriggerType)
pdc_irq_config TriggerType.edge_falling = some (0b010, TriggerType.edge_rising)
pdc_irq_config TriggerType.edge_rising = some (0b110, TriggerType.edge_rising)
pdc_irq_config TriggerType.edge_both = some (0b111, TriggerType.edge_rising)
pdc_irq_config TriggerType.level_low = some (0b000, TriggerType.level_high)
pdc_irq_config TriggerType.level_high = some (0b100, TriggerType.level_high)
pdc_irq_config TriggerType.invalid = none

abbrev pub is_level : TriggerType → Bool
is_level TriggerType.level_low = true
is_level TriggerType.level_high = true
is_level _ = false

abbrev pub pdc_irq_enable_bank : ℕ
pdc_irq_enable_bank = 0x10

abbrev pub pdc_irq_i_cfg : ℕ
pdc_irq_i_cfg = 0x110

-- The register that holds a pin's configuration, and the one that holds its enable bit.
abbrev pub cfg_register : PdcDeviceContext → ℕ → ℕ
cfg_register ctx pin = u64 (ctx.base_address + pdc_irq_i_cfg + pin * 4)

abbrev pub bank_register : PdcDeviceContext → ℕ → ℕ
bank_register ctx index = u64 (ctx.base_address + pdc_irq_enable_bank + index * 4)

module _ {S : Type 0} (bus : Bus S) where
  -- The shared interrupt `spi` is marked as level triggered.
  unfoldable pub set_spi_level : PdcDeviceContext → ℕ → M S Status
  set_spi_level ctx spi =
      let pin_idx = spi / 32 in
      let pin_mask = bit (spi % 32) in
      if ltb ctx.spi_config_size (pin_idx * 4) then pure Status.invalid_parameter else do
        val ← read32 bus (u64 (ctx.spi_config_base + pin_idx * 4))
        let cleared = u32 (clr_bits val pin_mask)
        write32 bus (u64 (ctx.spi_config_base + pin_idx * 4)) (u32 (set_bits cleared pin_mask))
        pure Status.success

  unfoldable pub pdc_gic_set_type : PdcDeviceContext → ℕ → TriggerType → M S (Result TriggerType)
  unfolding pdc_irq_config get_gic_irq_from_pdc_pin set_spi_level
  pdc_gic_set_type ctx pin trigger = elim (pdc_irq_config trigger) [
    | none ↦ pure (err Status.invalid_parameter)
    | some (config, gic_type) ↦ do
      write32 bus (cfg_register ctx pin) config
      if not (ctx.spi_config_base == 0) && is_level trigger
          then elim (get_gic_irq_from_pdc_pin (some ctx) pin) [
            | err e ↦ pure (err e)
            | ok irq ↦ do
              status ← set_spi_level ctx ((irq + 2 ^ 16 - 32) % 2 ^ 16)
              pure (elim status [ Status.success ↦ ok gic_type | e ↦ err e ])
          ]
          else pure (ok gic_type)
  ]

  unfoldable pub pdc_check_interrupt_enabled : Option PdcDeviceContext → ℕ → M S (Result Bool)
  pdc_check_interrupt_enabled none pin = pure (err Status.invalid_parameter)
  pdc_check_interrupt_enabled (some ctx) pin = do
    val ← read32 bus (bank_register ctx (pin / 32))
    pure (ok (not (get_field val (bit (pin % 32)) == 0)))

  -- The last read is the one of the log line.
  unfoldable pub pdc_enable_interrupt : Option PdcDeviceContext → ℕ → Bool → M S Status
  pdc_enable_interrupt none pin enable = pure Status.invalid_parameter
  pdc_enable_interrupt (some ctx) pin enable = do
    val ← read32 bus (bank_register ctx (pin / 32))
    let mask = bit (pin % 32)
    write32 bus (bank_register ctx (pin / 32))
        (u32 (if enable then set_bits val mask else clr_bits val mask))
    _ ← read32 bus (bank_register ctx (pin / 32))
    pure Status.success

  -- One round of the inner loop of `PdcPinsMapping`, for the pin that it reaches.
  unfoldable pub clean_pin : PdcDeviceContext → ℕ → M S (Unit {0})
  clean_pin ctx pin =
      let reg_index = u16 (pin / 32) in
      let irq_index = u16 (pin % 32) in
      do
        val ← read32 bus (bank_register ctx reg_index)
        write32 bus (bank_register ctx reg_index) (u32 (clr_bits val irq_index))

  -- The inner loop: `n` rounds left, `i` done.
  unfoldable pub clean_range : PdcDeviceContext → PdcRange → ℕ → ℕ → M S (Unit {0})
  unfolding clean_pin
  clean_range ctx r zero i = pure tt
  clean_range ctx r (suc n) i = do clean_pin ctx (i + r.pdc_pin_base); clean_range ctx r n (i + 1)

  -- The outer loop, which a range with no pin ends.
  unfoldable pub clean_ranges : PdcDeviceContext → List PdcRange → M S (Unit {0})
  unfolding clean_range
  clean_ranges ctx [] = pure tt
  clean_ranges ctx (r ∷ rs) =
      let rest : M S (Unit {0}) = clean_ranges ctx rs in
      if r.pdc_count == 0 then pure tt else (clean_range ctx r r.pdc_count 0 >> rest)

  unfoldable pub pdc_pins_mapping : PdcDeviceContext → M S (Unit {0})
  unfolding clean_ranges
  pdc_pins_mapping ctx = clean_ranges ctx ctx.pdc_region

  -- `PdcLibInit`: `given` is `*Ctx`, and `target` what the target's `GetPdcDevContext` returns. The
  -- result is `*Ctx` at the end.
  unfoldable pub pdc_lib_init :
      Option (Option PdcDeviceContext) → Option PdcDeviceContext → M S (Result PdcDeviceContext)
  unfolding pdc_pins_mapping
  pdc_lib_init none target = pure (err Status.invalid_parameter)
  pdc_lib_init (some (some ctx)) target = pdc_pins_mapping ctx >> pure (ok ctx)
  pdc_lib_init (some none) none = pure (err Status.not_found)
  pdc_lib_init (some none) (some ctx) = pdc_pins_mapping ctx >> pure (ok ctx)

module _ {S : Type 0} (bus : Bus S) (gic : HardwareInterrupt2 S) where
  unfoldable pub pdc_register_interrupt :
      Option PdcDeviceContext → ℕ → Option ℕ → ℕ → TriggerType → M (IrqState S) Status
  unfolding get_gic_irq_from_pdc_pin pdc_gic_set_type pdc_enable_interrupt register_interrupt
  pdc_register_interrupt none pin handler param trigger = pure Status.invalid_parameter
  pdc_register_interrupt (some ctx) pin handler param trigger =
      elim (get_gic_irq_from_pdc_pin (some ctx) pin) [
        | err e ↦ pure e
        | ok irq ↦ do
          set ← on_hw (pdc_gic_set_type bus ctx pin trigger)
          elim set [
            | err e ↦ pure e
            | ok gic_type ↦ do
              _ ← on_hw (pdc_enable_interrupt bus (some ctx) pin true)
              register_interrupt gic (record {
                param = param;
                handler = handler;
                interrupt_number = irq;
                trigger_type = gic_type;
              })
          ]
      ]

  -- The configuration's other fields are 0: no handler, trigger type `LEVEL_LOW`.
  unfoldable pub pdc_unregister_interrupt :
      Option PdcDeviceContext → ℕ → TriggerType → M (IrqState S) Status
  unfolding get_gic_irq_from_pdc_pin pdc_enable_interrupt unregister_interrupt
  pdc_unregister_interrupt none pin trigger = pure Status.invalid_parameter
  pdc_unregister_interrupt (some ctx) pin trigger = elim (get_gic_irq_from_pdc_pin (some ctx) pin) [
    | err e ↦ pure e
    | ok irq ↦ do
      _ ← on_hw (pdc_enable_interrupt bus (some ctx) pin false)
      unregister_interrupt gic (record {
        param = 0;
        handler = none;
        interrupt_number = irq;
        trigger_type = TriggerType.level_low;
      })
  ]
