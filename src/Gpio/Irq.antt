-- ===== src/Gpio/Irq.antt =====
-- Library/GpioLib/gpio_irq.c: the table of the handlers of pins that share one interrupt. A pin with a
-- port of the power domain controller has an interrupt of its own.
use cr_dk.Gpio.Trigger.{
  status_at, gpio_enable_interrupt, gpio_set_interrupt_cfg, gpio_clean_irq_status,
}
use cr_dk.Status.{Status}
use cr_dk.Gpio.Types.{GpioDeviceContext}
use cr_dk.SlotTable.{release, claim}
use cr_dk.Pdc.{PdcDeviceContext, pdc_register_interrupt}
use cr_dk.Interrupt.{
  checked, on_hw, TriggerType, InterruptConfig, register_interrupt, HardwareInterrupt2, IrqState,
}
use cr_dk.Mmio.{M, pure, Bus, read32}
use cr_dk.Base.{
  ℕ, zero, suc, ◌+◌, bit_and, Bool, true, false, ◌&&◌, Option, none, some, List, ltb, leb, ◌==◌,
  if◌then◌else◌, get_or,
}

-- `pin_info` is whether `PinInfo` is not NULL.
pub record GpioEntry : Type 0 where
  pub irq_handler : Option ℕ
  pub irq_pin : ℕ
  pub irq_param : ℕ
  pub pin_info : Bool

abbrev pub gpio_pins_max : ℕ
gpio_pins_max = 300

abbrev pub gpio_pdc_pin_number_invalid : ℕ
gpio_pdc_pin_number_invalid = 0xffff

abbrev pub gpio_index_invalid : ℕ
gpio_index_invalid = 0xffff

-- A cleared entry.
abbrev pub no_entry : GpioEntry
no_entry = record {
  irq_handler = none;
  irq_pin = gpio_index_invalid;
  irq_param = 0;
  pin_info = false;
}

-- The table of the pins, above the table of interrupts and the hardware.
pub record GpioState (S : Type 0) : Type 0 where
  pub gpio_table : List GpioEntry
  pub irq : IrqState S

abbrev pub on_irq : {S A : Type 0} → M (IrqState S) A → M (GpioState S) A
on_irq m st = let (a, irq) = m st.irq in (a, record st { irq = irq })

abbrev pub in_use : GpioEntry → Bool
in_use e = elim e.irq_handler [ none ↦ false | some h ↦ true ]

abbrev pub of_pin : ℕ → GpioEntry → Bool
of_pin i e = e.pin_info && (e.irq_pin == i)

module _ {S : Type 0} (bus : Bus S) where
  -- The part of `GpioRegisterGpioIrq` for a pin without a port.
  unfoldable pub register_shared :
      GpioDeviceContext → ℕ → Option ℕ → ℕ → TriggerType → M (GpioState S) Status
  unfolding claim gpio_set_interrupt_cfg gpio_enable_interrupt
  register_shared c i handler param trigger st =
      elim (claim in_use
        (record { irq_handler = handler; irq_pin = i; irq_param = param; pin_info = true })
        st.gpio_table) [
          | none ↦ (Status.out_of_resources, st)
          | some t ↦
              on_irq
                (on_hw (
                  checked (gpio_set_interrupt_cfg bus c i trigger)
                    (gpio_enable_interrupt bus (some c) i true)))
                (record st { gpio_table = t })
        ]

  -- `GpioUnregisterGpioIrq`; the status of disabling the interrupt is only logged.
  unfoldable pub gpio_unregister_gpio_irq : GpioDeviceContext → ℕ → M (GpioState S) Status
  unfolding release gpio_enable_interrupt
  gpio_unregister_gpio_irq c i =
      if leb gpio_pins_max i then pure Status.invalid_parameter else λ st.
      let after : GpioState S =
        (on_irq (on_hw (gpio_enable_interrupt bus (some c) i false)) st).1 in
      elim (release in_use no_entry (of_pin i) after.gpio_table) [
        | none ↦ (Status.not_found, after)
        | some t ↦ (Status.success, record after { gpio_table = t })
      ]

  -- The loop of `GpioIsr`, with `n` rounds left at entry `i`; `call` is what a handler does when it is
  -- called with its parameter. The table is read anew in each round.
  unfoldable pub gpio_isr_loop :
      (ℕ → ℕ → GpioState S → GpioState S) → GpioDeviceContext → ℕ → ℕ → GpioState S → GpioState S
  unfolding gpio_clean_irq_status
  gpio_isr_loop call c zero i st = st
  gpio_isr_loop call c (suc n) i st =
      let e = get_or st.gpio_table i no_entry in
      elim e.irq_handler [
        | none ↦ st
        | some h ↦
            let at = status_at bus c e.irq_pin in
            let read : GpioState S = (on_irq (on_hw (read32 bus at)) st).1 in
            let msk = (c.gpio_pins e.irq_pin).reg_cfg.interrupt_status_msk in
            elim (e.pin_info && ltb e.irq_pin c.pin_count) [
              | false ↦ st
              | true ↦ elim (bit_and (bus.peek st.irq.hw at) msk == 0) [
                | true ↦ gpio_isr_loop call c n (i + 1) read
                | false ↦
                    gpio_isr_loop call c n (i + 1)
                      (on_irq (on_hw (gpio_clean_irq_status bus c e.irq_pin))
                        (call h e.irq_param read)).1
              ]
            ]
      ]

  -- `GpioIsr`.
  unfoldable pub gpio_isr :
      (ℕ → ℕ → GpioState S → GpioState S) → GpioDeviceContext → GpioState S → GpioState S
  unfolding gpio_isr_loop
  gpio_isr call c st = gpio_isr_loop call c gpio_pins_max 0 st

module _ {S : Type 0} (bus : Bus S) (gic : HardwareInterrupt2 S) where
  -- `GpioRegisterGpioIrq`.
  unfoldable pub gpio_register_gpio_irq :
      GpioDeviceContext
      → Option PdcDeviceContext
      → ℕ
      → Option ℕ
      → ℕ
      → TriggerType
      → M (GpioState S) Status
  unfolding register_shared pdc_register_interrupt
  gpio_register_gpio_irq c pdc i handler param trigger =
      let port = (c.gpio_pins i).pdc_pin_number in
      if leb gpio_pins_max i
      then pure Status.invalid_parameter
      else if port == gpio_pdc_pin_number_invalid
      then register_shared bus c i handler param trigger
      else on_irq (pdc_register_interrupt bus gic pdc port handler param trigger)

-- `GpioInitIrq`: the configuration is the context's; `isr` and `self` are the addresses of the handler
-- and of the context.
unfoldable pub gpio_init_irq :
    {S : Type 0} → HardwareInterrupt2 S → ℕ → ℕ → InterruptConfig → M (IrqState S) Status
unfolding register_interrupt
gpio_init_irq gic isr self config =
    register_interrupt gic (record config { handler = some isr; param = self })
