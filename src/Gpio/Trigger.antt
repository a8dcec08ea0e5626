-- ===== src/Gpio/Trigger.antt =====
-- The functions of Library/GpioLib/gpio.c on the interrupt registers of a pin.
use cr_dk.Bits.{get_field, clr_bits, u32}
use cr_dk.Interrupt.{TriggerType}
use cr_dk.Gpio.Config.{write_field}
use cr_dk.Status.{ok, err, Result, Status}
use cr_dk.Gpio.Types.{GpioConfigRegType, gpio_get_cfg_reg, GpioConfigRegInfo, GpioDeviceContext}
use cr_dk.Mmio.{M, pure, ◌>>=◌, ◌>>◌, Bus, read32, write32}
use cr_dk.Base.{
  ℕ, bit_and, bit_or, Bool, false, not, ◌&&◌, Option, none, some, leb, ◌==◌, if◌then◌else◌,
}

-- The value that `GpioSetInterruptCfg` makes of the configuration register's. The detection and the
-- polarity field are cleared in two copies of the value, and the copies joined, as in the source.
unfoldable pub raised : GpioConfigRegInfo → ℕ → ℕ
raised cfg v =
    let set = write_field v 1 cfg.interrupt_raw_status_msk in
    u32
      (bit_or (clr_bits set cfg.interrupt_detection_msk) (clr_bits set cfg.interrupt_polarity_msk))

-- `SET_FIELD` of the detection and of the polarity, and of the polarity alone.
abbrev pub detect : GpioConfigRegInfo → ℕ → ℕ → ℕ
detect cfg detection v = write_field v detection cfg.interrupt_detection_msk

abbrev pub polarise : GpioConfigRegInfo → ℕ → ℕ
polarise cfg v = write_field v 1 cfg.interrupt_polarity_msk

-- The two switches over the trigger type, for the two widths of the detection field.
unfoldable pub trigger_value : GpioConfigRegInfo → TriggerType → ℕ → Status × ℕ
trigger_value cfg TriggerType.edge_rising v = (Status.success, polarise cfg (detect cfg 1 v))
trigger_value cfg TriggerType.edge_falling v = (
  Status.success,
  if cfg.interrupt_detection_width == 2 then polarise cfg (detect cfg 2 v) else detect cfg 1 v,
)
trigger_value cfg TriggerType.edge_both v =
    if cfg.interrupt_detection_width == 2
    then (Status.success, polarise cfg (detect cfg 3 v))
    else (Status.unsupported, polarise cfg (detect cfg 1 v))
trigger_value cfg TriggerType.level_high v = (Status.success, polarise cfg v)
trigger_value cfg TriggerType.level_low v = (Status.success, v)
trigger_value cfg TriggerType.invalid v = (Status.unsupported, v)

-- The value that `GpioEnableInterrupt` writes; `level` is whether the detection field reads 0.
unfoldable pub enable_value : GpioConfigRegInfo → Bool → Bool → ℕ → ℕ
enable_value cfg enable level v =
    let on = write_field (write_field v 1 cfg.interrupt_en_msk) 1 cfg.interrupt_raw_status_msk in
    let off = u32 (clr_bits v cfg.interrupt_en_msk) in
    if enable then on else if level then u32 (clr_bits off cfg.interrupt_raw_status_msk) else off

-- The value that `GpioMaskInterrupt` writes.
unfoldable pub mask_value : GpioConfigRegInfo → Bool → Bool → ℕ → ℕ
mask_value cfg mask level v =
    let kept = if level then u32 (clr_bits v cfg.interrupt_raw_status_msk) else v in
    let on = write_field (write_field v 1 cfg.interrupt_raw_status_msk) 1 cfg.interrupt_en_msk in
    if mask then u32 (clr_bits kept cfg.interrupt_en_msk) else on

module _ {S : Type 0} (bus : Bus S) where
  abbrev pub cfg_at : GpioDeviceContext → ℕ → ℕ
  cfg_at c i = gpio_get_cfg_reg c GpioConfigRegType.int_cfg_reg i

  abbrev pub status_at : GpioDeviceContext → ℕ → ℕ
  status_at c i = gpio_get_cfg_reg c GpioConfigRegType.int_status_reg i

  unfoldable pub gpio_read_irq_status : GpioDeviceContext → ℕ → M S Bool
  gpio_read_irq_status c i =
      let pin = c.gpio_pins i in
      if pin.reserved then pure false else do
        val ← read32 bus (status_at c i)
        pure (not (bit_and val pin.reg_cfg.interrupt_status_msk == 0))

  unfoldable pub gpio_clean_irq_status : GpioDeviceContext → ℕ → M S (Unit {0})
  gpio_clean_irq_status c i =
      let pin = c.gpio_pins i in
      if pin.reserved then pure tt else do
        val ← read32 bus (status_at c i)
        write32 bus (status_at c i) (u32 (clr_bits val pin.reg_cfg.interrupt_status_msk))

  unfoldable pub gpio_check_interrupt_enabled : Option GpioDeviceContext → ℕ → M S (Result Bool)
  gpio_check_interrupt_enabled none i = pure (err Status.invalid_parameter)
  gpio_check_interrupt_enabled (some c) i =
      let pin = c.gpio_pins i in
      if leb c.pin_count i
      then pure (err Status.invalid_parameter)
      else if pin.reserved
      then pure (ok false)
      else do
        val ← read32 bus (cfg_at c i)
        pure (ok (not (get_field val pin.reg_cfg.interrupt_en_msk == 0)))

  unfoldable pub gpio_enable_interrupt : Option GpioDeviceContext → ℕ → Bool → M S Status
  unfolding enable_value
  gpio_enable_interrupt none i enable = pure Status.invalid_parameter
  gpio_enable_interrupt (some c) i enable =
      let pin = c.gpio_pins i in
      if leb c.pin_count i
      then pure Status.invalid_parameter
      else if pin.reserved
      then pure Status.success
      else do
        val ← read32 bus (cfg_at c i)
        again ← if enable then pure 0 else read32 bus (cfg_at c i)
        let level = get_field again pin.reg_cfg.interrupt_detection_msk == 0
        write32 bus (cfg_at c i) (enable_value pin.reg_cfg enable level val)
        pure Status.success

  unfoldable pub gpio_mask_interrupt : Option GpioDeviceContext → ℕ → Bool → M S Status
  unfolding mask_value
  gpio_mask_interrupt none i mask = pure Status.invalid_parameter
  gpio_mask_interrupt (some c) i mask =
      let pin = c.gpio_pins i in
      if leb c.pin_count i
      then pure Status.invalid_parameter
      else if pin.reserved
      then pure Status.success
      else do
        val ← read32 bus (cfg_at c i)
        let level = get_field val pin.reg_cfg.interrupt_detection_msk == 0
        write32 bus (cfg_at c i) (mask_value pin.reg_cfg mask level val)
        pure Status.success

  unfoldable pub gpio_set_interrupt_cfg : GpioDeviceContext → ℕ → TriggerType → M S Status
  unfolding raised trigger_value gpio_clean_irq_status
  gpio_set_interrupt_cfg c i trigger =
      let pin = c.gpio_pins i in
      let cfg = pin.reg_cfg in
      let target_at = gpio_get_cfg_reg c GpioConfigRegType.int_target_reg i in
      let width = cfg.interrupt_detection_width in
      if not (width == 2) && not (width == 1)
      then pure Status.unsupported
      else if pin.reserved
      then pure Status.success
      else do
        target ← read32 bus target_at
        write32 bus target_at (write_field target cfg.target_kpss_val cfg.interrupt_target_msk)
        val ← read32 bus (cfg_at c i)
        let (status, new) = trigger_value cfg trigger (raised cfg val)
        if get_field val cfg.interrupt_raw_status_msk == 0
            then gpio_clean_irq_status c i
            else pure tt
        write32 bus (cfg_at c i) new
        pure status
