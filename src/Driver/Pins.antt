-- ===== src/Driver/Pins.antt =====
-- Driver/GpioCrDxe/GpioCrDxe.c: the pins as a protocol. The protocol is published only after the
-- libraries gave the contexts, so `mGpioContext` is a context and not NULL. `this` is whether the
-- pointer to the protocol is not NULL.
use cr_dk.Gpio.Irq.{GpioState, on_irq, gpio_register_gpio_irq, gpio_init_irq}
use cr_dk.Gpio.Config.{
  gpio_lib_init, gpio_set_config, gpio_read_config, gpio_init_config_params, gpio_read_val,
  gpio_read_input_val, bool_value,
}
use cr_dk.Gpio.Types.{GpioConfigParams, GpioDeviceContext}
use cr_dk.Pdc.{PdcDeviceContext}
use cr_dk.Pdc.{pdc_lib_init}
use cr_dk.Interrupt.{HardwareInterrupt2, on_hw, TriggerType, InterruptConfig}
use cr_dk.Status.{Status, Result, ok, err, cr_error}
use cr_dk.Mmio.{M, pure, ◌>>=◌, ◌>>◌, Bus}
use cr_dk.Base.{ℕ, Bool, true, false, not, ◌||◌, Option, none, some, leb, ◌==◌, if◌then◌else◌}

-- The result is the status and `*ConfigParams` at the end.
unfoldable pub protocol_gpio_init_config_params :
    Bool → Option GpioConfigParams → Status × Option GpioConfigParams
unfolding gpio_init_config_params
protocol_gpio_init_config_params this none = (Status.invalid_parameter, none)
protocol_gpio_init_config_params false (some p) = (Status.invalid_parameter, some p)
protocol_gpio_init_config_params true (some p) =
    (Status.success, some (gpio_init_config_params p.pin_number))

module _ {S : Type 0} (bus : Bus S) (c : GpioDeviceContext) where
  -- `out` is whether `Value` is not NULL.
  unfoldable pub protocol_gpio_read_input_value : Bool → ℕ → Bool → M (GpioState S) (Result ℕ)
  unfolding gpio_read_val
  protocol_gpio_read_input_value this i out =
      if not this || not out
      then pure (err Status.invalid_parameter)
      else do high ← on_irq (on_hw (gpio_read_input_val bus c i)); pure (ok (bool_value high))

  -- The parameters that the function builds for the pin `i`.
  abbrev pub driven : ℕ → ℕ → GpioConfigParams
  unfolding gpio_init_config_params
  driven i value = record (gpio_init_config_params i) {
    output_enable = true;
    output_value = if value == 0 then 0 else 1;
  }

  unfoldable pub protocol_gpio_set_io_value : Bool → ℕ → ℕ → M (GpioState S) Status
  unfolding gpio_set_config gpio_init_config_params
  protocol_gpio_set_io_value false i value = pure Status.invalid_parameter
  protocol_gpio_set_io_value true i value = do
    on_irq (on_hw (gpio_set_config bus (some c) (some (driven i value))))
    pure Status.success

  unfoldable pub protocol_gpio_config : Bool → Option GpioConfigParams → M (GpioState S) Status
  unfolding gpio_set_config
  protocol_gpio_config this none = pure Status.invalid_parameter
  protocol_gpio_config false (some p) = pure Status.invalid_parameter
  protocol_gpio_config true (some p) = do
    on_irq (on_hw (gpio_set_config bus (some c) (some p)))
    pure Status.success

  -- The result is the status and `*ConfigParams` at the end.
  unfoldable pub protocol_gpio_get_config :
      Bool → Option GpioConfigParams → M (GpioState S) (Status × Option GpioConfigParams)
  unfolding gpio_read_config
  protocol_gpio_get_config this none = pure (Status.invalid_parameter, none)
  protocol_gpio_get_config false (some p) = pure (Status.invalid_parameter, some p)
  protocol_gpio_get_config true (some p) = do
    read ← on_irq (on_hw (gpio_read_config bus (some c) (some p)))
    pure (Status.success, read)

  unfoldable pub protocol_gpio_register_gpio_interrupt :
      HardwareInterrupt2 S
      → Option PdcDeviceContext
      → Bool
      → ℕ
      → Option ℕ
      → ℕ
      → TriggerType
      → M (GpioState S) Status
  unfolding gpio_register_gpio_irq
  protocol_gpio_register_gpio_interrupt gic pdc this i none param trigger =
      pure Status.invalid_parameter
  protocol_gpio_register_gpio_interrupt gic pdc this i (some handler) param trigger =
      if not this || leb c.pin_count i then pure Status.invalid_parameter else do
        status ← gpio_register_gpio_irq bus gic c pdc i (some handler) param trigger
        pure (if cr_error status then Status.device_error else Status.success)

module _ {S : Type 0} (bus : Bus S) (gic : HardwareInterrupt2 S) where
  -- `GpioEntryPoint`: the status, `mPdcContext` and `mGpioContext`. The targets' contexts are `pdc` and
  -- `gpio`; `config`, `isr` and `self` are as for `GpioInitIrq`.
  unfoldable pub gpio_entry_point :
      Option PdcDeviceContext
      → Option GpioDeviceContext
      → ℕ
      → ℕ
      → InterruptConfig
      → M (GpioState S) Status
      → M (GpioState S) (Status × Option PdcDeviceContext × Option GpioDeviceContext)
  unfolding gpio_lib_init gpio_init_irq pdc_lib_init
  gpio_entry_point pdc gpio isr self config install =
      on_irq (on_hw (pdc_lib_init bus (some none) pdc)) >>= λ got. elim got [
        | err e ↦ pure (Status.device_error, none, none)
        | ok p ↦ elim (gpio_lib_init (some none) gpio) [
          | err e ↦ pure (Status.device_error, some p, none)
          | ok c ↦ do
            status ← on_irq (gpio_init_irq gic isr self config)
            if cr_error status then pure (Status.device_error, some p, some c) else do
              installed ← install
              pure (if cr_error installed then installed else Status.success, some p, some c)
        ]
      ]
