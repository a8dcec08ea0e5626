-- ===== src/Gpio/Config.antt =====
-- The functions of Library/GpioLib/gpio.c on the control and the input and output register of a pin.
use cr_dk.Status.{ok, Status, err, Result}
use cr_dk.Bits.{set_field, u64, get_field, clr_bits, u32}
use cr_dk.Mmio.{pure, M, Bus}
use cr_dk.Gpio.Types.{
  GpioConfigRegType, gpio_pull_up_no_keeper, gpio_get_cfg_reg, gpio_pull_up, gpio_tlmm_pin_stride,
  gpio_pull_none, unchange, GpioConfigParams, GpioConfigRegInfo, GpioPinInfo, GpioDeviceContext,
}
use cr_dk.Mmio.{M, pure, ◌>>=◌, ◌>>◌, Bus, read32, write32}
use cr_dk.Base.{
  ℕ, zero, suc, ◌+◌, ◌*◌, bit_and, bit_or, Bool, true, false, not, ◌&&◌, ◌||◌, Option, none, some,
  leb, ◌==◌, if◌then◌else◌,
}

-- `(CLR_BITS(r, mask) | SET_FIELD(v, mask))`, stored in a UINT32.
abbrev pub write_field : ℕ → ℕ → ℕ → ℕ
write_field r v mask = u32 (bit_or (clr_bits r mask) (set_field v mask))

unfoldable pub gpio_init_config_params : ℕ → GpioConfigParams
gpio_init_config_params pin = record {
  pin_number = pin;
  output_enable = false;
  function_sel = unchange;
  pull = unchange;
  drive_strength = unchange;
  output_value = unchange;
}

abbrev pub bool_value : Bool → ℕ
bool_value true = 1
bool_value false = 0

-- The value that `GpioSetConfig` writes to the control register.
unfoldable pub new_ctl : Bool → GpioConfigRegInfo → GpioConfigParams → ℕ → ℕ
new_ctl no_keeper cfg p ctl =
    let muxed =
      if p.function_sel == unchange then ctl else write_field ctl p.function_sel cfg.mux_sel_msk in
    let directed = write_field muxed (bool_value p.output_enable) cfg.output_enable_msk in
    let unpulled = write_field directed gpio_pull_none cfg.pull_msk in
    if p.output_enable
    then (if p.drive_strength == unchange
        then unpulled
        else write_field unpulled p.drive_strength cfg.drive_strength_msk)
    else if p.pull == unchange
    then directed
    else if no_keeper && (p.pull == gpio_pull_up)
    then write_field directed gpio_pull_up_no_keeper cfg.pull_msk
    else write_field directed p.pull cfg.pull_msk

-- The value for the input and output register.
unfoldable pub new_io : GpioConfigRegInfo → GpioConfigParams → ℕ → ℕ
new_io cfg p io =
    if p.output_enable && not (p.output_value == unchange)
    then write_field io (bit_and p.output_value 1) cfg.output_msk
    else io

-- The parameters that `GpioReadConfig` fills in from the two registers.
unfoldable pub read_params : GpioConfigRegInfo → ℕ → ℕ → ℕ → GpioConfigParams
read_params cfg pin ctl io =
    let output = not (get_field ctl cfg.output_enable_msk == 0) in
    record {
      pin_number = pin;
      output_enable = output;
      function_sel = get_field ctl cfg.mux_sel_msk;
      pull = get_field ctl cfg.pull_msk;
      drive_strength = get_field ctl cfg.drive_strength_msk;
      output_value = get_field io (if output then cfg.output_msk else cfg.input_msk);
    }

module _ {S : Type 0} (bus : Bus S) where
  -- `GpioReadConfig`; the result is `*ConfigParams` at the end.
  unfoldable pub gpio_read_config :
      Option GpioDeviceContext → Option GpioConfigParams → M S (Option GpioConfigParams)
  unfolding read_params
  gpio_read_config none p = pure p
  gpio_read_config (some c) none = pure none
  gpio_read_config (some c) (some p) =
      let pin = c.gpio_pins p.pin_number in
      if leb c.pin_count p.pin_number || pin.reserved then pure (some p) else do
        ctl ← read32 bus (gpio_get_cfg_reg c GpioConfigRegType.ctl_reg p.pin_number)
        io ← read32 bus (gpio_get_cfg_reg c GpioConfigRegType.io_reg p.pin_number)
        pure (some (read_params pin.reg_cfg p.pin_number ctl io))

  -- `GpioSetConfig`.
  unfoldable pub gpio_set_config :
      Option GpioDeviceContext → Option GpioConfigParams → M S (Unit {0})
  unfolding new_ctl new_io
  gpio_set_config none p = pure tt
  gpio_set_config (some c) none = pure tt
  gpio_set_config (some c) (some p) =
      let pin = c.gpio_pins p.pin_number in
      let ctl_at = gpio_get_cfg_reg c GpioConfigRegType.ctl_reg p.pin_number in
      let io_at = gpio_get_cfg_reg c GpioConfigRegType.io_reg p.pin_number in
      if leb c.pin_count p.pin_number || pin.reserved then pure tt else do
        ctl ← read32 bus ctl_at
        io ← read32 bus io_at
        write32 bus ctl_at (new_ctl c.pull_up_no_keeper pin.reg_cfg p ctl)
        if p.output_enable && not (p.output_value == unchange)
            then write32 bus io_at (new_io pin.reg_cfg p io)
            else pure tt

  -- `GpioReadInputVal` and `GpioReadOutputVal`: whether the value is high.
  unfoldable pub gpio_read_val : (GpioConfigRegInfo → ℕ) → GpioDeviceContext → ℕ → M S Bool
  gpio_read_val mask_of c i =
      let pin = c.gpio_pins i in
      if pin.reserved then pure false else do
        io ← read32 bus (gpio_get_cfg_reg c GpioConfigRegType.io_reg i)
        pure (not (get_field io (mask_of pin.reg_cfg) == 0))

  abbrev pub gpio_read_input_val : GpioDeviceContext → ℕ → M S Bool
  unfolding gpio_read_val
  gpio_read_input_val = gpio_read_val (λ r. r.input_msk)

  abbrev pub gpio_read_output_val : GpioDeviceContext → ℕ → M S Bool
  unfolding gpio_read_val
  gpio_read_output_val = gpio_read_val (λ r. r.output_msk)

-- The loop of `GpioLibInit`: `n` rounds left, at pin `i`.
unfoldable pub place_pins : ℕ → ℕ → ℕ → (ℕ → GpioPinInfo) → (ℕ → GpioPinInfo)
place_pins base zero i pins = pins
place_pins base (suc n) i pins =
    let pin = pins i in
    let at =
      if pin.reg_cfg.index == 0
      then u64 (base + pin.tile_offset + i * gpio_tlmm_pin_stride)
      else u64 (base + pin.reg_cfg.control_reg_offset) in
    place_pins base n (i + 1) (λ k. if k == i then record pin { pin_address = at } else pins k)

-- `GpioLibInit`: `given` is `*GpioContext`, and `target` what `CrTargetGetGpioContext` returns.
unfoldable pub gpio_lib_init :
    Option (Option GpioDeviceContext) → Option GpioDeviceContext → Result GpioDeviceContext
unfolding place_pins
gpio_lib_init none target = err Status.invalid_parameter
gpio_lib_init (some (some c)) target =
    ok (record c { gpio_pins = place_pins c.tlmm_base_address c.pin_count 0 c.gpio_pins })
gpio_lib_init (some none) none = err Status.not_found
gpio_lib_init (some none) (some c) =
    ok (record c { gpio_pins = place_pins c.tlmm_base_address c.pin_count 0 c.gpio_pins })
