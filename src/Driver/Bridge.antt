-- ===== src/Driver/Bridge.antt =====
-- Driver/Lt9611uxcCrDxe/lt9611.c: the pins of a display bridge, through the protocol of the pins.
use cr_dk.Driver.Pins.{
  protocol_gpio_config, protocol_gpio_set_io_value, protocol_gpio_register_gpio_interrupt,
}
use cr_dk.Gpio.Irq.{GpioState}
use cr_dk.Gpio.Types.{GpioConfigParams, GpioDeviceContext, gpio_pull_none}
use cr_dk.Pdc.{PdcDeviceContext}
use cr_dk.Interrupt.{HardwareInterrupt2, TriggerType}
use cr_dk.Status.{Status, cr_error}
use cr_dk.Mmio.{M, pure, ◌>>=◌, Bus}
use cr_dk.Base.{ℕ, true, false, Option, some, List, [], ◌∷◌, if◌then◌else◌}

-- `GpioIntConfig`; the fields that the code does not set are 0.
abbrev pub gpio_int_config : ℕ → GpioConfigParams
gpio_int_config pin = record {
  pin_number = pin;
  output_enable = false;
  function_sel = 0;
  pull = gpio_pull_none;
  drive_strength = 0;
  output_value = 0;
}

module _ {S : Type 0} (bus : Bus S) (c : GpioDeviceContext) where
  -- The loop over `GpioHighArray`, which ends at the first error.
  unfoldable pub drive_high : List ℕ → M (GpioState S) Status
  unfolding protocol_gpio_set_io_value
  drive_high [] = pure Status.success
  drive_high (pin ∷ pins) = do
    status ← protocol_gpio_set_io_value bus c true pin 1
    if cr_error status then pure status else drive_high pins

  -- `Lt9611EntryPoint`: `located` are the statuses of locating the two protocols, `int_pin` and
  -- `high_pins` the platform's settings, and `handler` the address of `Lt9611IrqHandler`.
  unfoldable pub lt9611_entry_point :
      HardwareInterrupt2 S
      → Option PdcDeviceContext
      → Status × Status
      → ℕ
      → List ℕ
      → ℕ
      → M (GpioState S) Status
  unfolding protocol_gpio_config drive_high protocol_gpio_register_gpio_interrupt
  lt9611_entry_point gic pdc located int_pin high_pins handler =
      if cr_error located.0
      then pure located.0
      else if cr_error located.1
      then pure located.1
      else do
        configured ← protocol_gpio_config bus c true (some (gpio_int_config int_pin))
        if cr_error configured then pure configured else do
          driven ← drive_high high_pins
          if cr_error driven
              then pure driven
              else protocol_gpio_register_gpio_interrupt bus c gic pdc true int_pin (some handler) 0
                  TriggerType.edge_falling
