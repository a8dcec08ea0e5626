-- ===== src/Gpio/Handlers.antt =====
-- The table of gpio_irq.c as the list of the registered pins.
use cr_dk.Gpio.Trigger.{gpio_enable_interrupt, gpio_set_interrupt_cfg}
use cr_dk.Pdc.{PdcDeviceContext, pdc_register_interrupt, get_gic_irq_from_pdc_pin}
use cr_dk.Pdc.Register.{pdc_entry, pdc_register_interrupt-success}
use cr_dk.Interrupt.Table.{IsValid, entries}
use cr_dk.Status.{Status, ok}
use cr_dk.Gpio.Types.{GpioDeviceContext}
use cr_dk.SlotTable.Laws.{claim-cases, IsCompact, release-missing}
use cr_dk.Interrupt.{occupied, checked, on_hw, TriggerType, HardwareInterrupt2}
use cr_dk.Gpio.Irq.{
  on_irq, register_shared, gpio_pdc_pin_number_invalid, gpio_register_gpio_irq, of_pin, no_entry,
  gpio_pins_max, in_use, GpioEntry, GpioState, gpio_unregister_gpio_irq,
}
use cr_dk.Mmio.{Bus}
use cr_dk.Base.{
  ℕ, ◌<◌, ◌≡◌, refl, sym, ap, ◌∙◌, ◌≢◌, inl, inr, true, Option, none, some, List, [], ◌∷◌, ◌++◌,
  arith, length,
}
use cr_dk.SlotTable.{claim, release, contents, find_first}

-- No entry stands behind a free slot, and the table has all its slots.
pub record IsPinTable (t : List GpioEntry) : Type 0 where
  pub compact : IsCompact in_use t
  pub slots : length t ≡ gpio_pins_max

abbrev pub pins : {S : Type 0} → GpioState S → List GpioEntry
pins st = contents in_use st.gpio_table

abbrev pub gpio_entry_of : ℕ → ℕ → ℕ → GpioEntry
gpio_entry_of i h param = record {
  irq_handler = some h;
  irq_pin = i;
  irq_param = param;
  pin_info = true;
}

module _ {S : Type 0} (bus : Bus S) (gic : HardwareInterrupt2 S) (c : GpioDeviceContext)
    (pdc : Option PdcDeviceContext) (i h param : ℕ) (trigger : TriggerType) (st : GpioState S) where
  abbrev pub registered : Status × GpioState S
  registered = gpio_register_gpio_irq bus gic c pdc i (some h) param trigger st

  module _ (small : i < gpio_pins_max)
      (shared : (c.gpio_pins i).pdc_pin_number ≡ gpio_pdc_pin_number_invalid) where
    register-some :
        (t : List GpioEntry)
        → claim in_use (gpio_entry_of i h param) st.gpio_table ≡ some t
        → registered
          ≡ on_irq
              (on_hw (
                checked
                  (gpio_set_interrupt_cfg bus c i trigger)
                  (gpio_enable_interrupt bus (some c) i true)))
              (record st { gpio_table = t })
    unfolding gpio_register_gpio_irq register_shared
    register-some t found = ground (arith, shared)

    register-none :
        claim in_use (gpio_entry_of i h param) st.gpio_table ≡ none
        → registered ≡ (Status.out_of_resources, st)
    unfolding gpio_register_gpio_irq register_shared
    register-none full = ground (arith, shared)

    -- A handler for a pin without a port of the power domain controller goes behind the entries of the
    -- table, even if configuring the pin fails; a full table gives CR_OUT_OF_RESOURCES and changes
    -- nothing. The table stays well formed. The pin number is below 300.
    pub gpio_register_gpio_irq-pins :
        IsPinTable st.gpio_table
        → IsPinTable registered.1.gpio_table
          × (length (pins st) < gpio_pins_max
              → pins registered.1 ≡ pins st ++ (gpio_entry_of i h param ∷ []))
          × (length (pins st) ≡ gpio_pins_max → registered ≡ (Status.out_of_resources, st))
    gpio_register_gpio_irq-pins v =
        elim (claim-cases in_use (gpio_entry_of i h param) st.gpio_table refl v.compact) [
          | inl (t, found, added, room) ↦ rw (register-some t found) (
            record { compact = added.0; slots = added.2 ∙ v.slots },
            λ _. added.1,
            λ full. absurd (omega (arith, v.slots)),
          )
          | inr (found, full) ↦
              rw (register-none found) (v, λ room. absurd (omega (arith, v.slots)), λ _. refl)
        ]

module _ {S : Type 0} (bus : Bus S) (c : GpioDeviceContext) (i : ℕ) (st : GpioState S)
    (small : i < gpio_pins_max) where
  unregister-missing :
      release in_use no_entry (of_pin i) st.gpio_table ≡ none
      → let after = gpio_unregister_gpio_irq bus c i st in
        (after.0 ≡ Status.not_found) × (after.1.irq.table ≡ st.irq.table)
  unfolding gpio_unregister_gpio_irq
  unregister-missing missing = (ground (arith, missing), ground (arith, missing))

module _ {S : Type 0} (bus : Bus S) (gic : HardwareInterrupt2 S) (c : GpioDeviceContext)
    (pdc : Option PdcDeviceContext) (i h param : ℕ) (trigger : TriggerType) (st : GpioState S)
    (small : i < gpio_pins_max)
    (port : (c.gpio_pins i).pdc_pin_number ≢ gpio_pdc_pin_number_invalid) where
  register-port : (registered bus gic c pdc i h param trigger st).1.gpio_table ≡ st.gpio_table
  unfolding gpio_register_gpio_irq
  register-port = ground (arith, port)

  register_port :
      registered bus gic c pdc i h param trigger st
      ≡ on_irq
          (pdc_register_interrupt bus gic pdc
            ((c.gpio_pins i).pdc_pin_number)
            (some h)
            param
            trigger)
          st
  unfolding gpio_register_gpio_irq
  register_port = ground (arith, port)

  -- A pin with a port of the power domain controller cannot be unregistered. If registering it succeeded,
  -- its handler stands behind the entries of the table of interrupts, under the interrupt of the port;
  -- then `GpioUnregisterGpioIrq` returns CR_NOT_FOUND, and the handler still stands there. The pin number
  -- is below 300, the table of interrupts is well formed, and the table of shared pins does not hold the
  -- pin.
  pub gpio_unregister_gpio_irq-port :
      IsValid st.irq
      → find_first (of_pin i) st.gpio_table ≡ none
      → (registered bus gic c pdc i h param trigger st).0 ≡ Status.success
      → let before = (registered bus gic c pdc i h param trigger st).1 in
        let after = gpio_unregister_gpio_irq bus c i before in
        (irq : ℕ) × (get_gic_irq_from_pdc_pin pdc ((c.gpio_pins i).pdc_pin_number) ≡ ok irq)
        × (entries before.irq ≡ entries st.irq ++ (pdc_entry irq h param ∷ []))
        × (after.0 ≡ Status.not_found)
        × (entries after.1.irq ≡ entries st.irq ++ (pdc_entry irq h param ∷ []))
  gpio_unregister_gpio_irq-port v absent good =
      let before : GpioState S = (registered bus gic c pdc i h param trigger st).1 in
      let (irq, found, added) =
        pdc_register_interrupt-success bus gic pdc ((c.gpio_pins i).pdc_pin_number) h param trigger
          st.irq v (sym (ap (λ (a : Status × GpioState S). a.0) register_port) ∙ good) in
      let there = ap (λ (a : Status × GpioState S). entries a.1.irq) register_port ∙ added in
      let (refused, kept) = unregister-missing bus c i before small (
        ap (release in_use no_entry (of_pin i)) register-port
        ∙ release-missing in_use no_entry (of_pin i) st.gpio_table absent) in
      (irq, found, there, refused, ap (contents occupied) kept ∙ there)
