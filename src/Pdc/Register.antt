-- ===== src/Pdc/Register.antt =====
-- Registering through pdc_irq.c: where the handler goes.
use cr_dk.Pdc.{
  PdcDeviceContext, get_gic_irq_from_pdc_pin, pdc_gic_set_type, pdc_enable_interrupt,
  pdc_register_interrupt, find_gic_irq, PdcRange,
}
use cr_dk.Interrupt.{
  Entry, HardwareInterrupt2, InterruptConfig, IrqState, TriggerType, register_interrupt, on_hw,
}
use cr_dk.Interrupt.Table.{IsValid, entries, register_interrupt-success}
use cr_dk.Status.{Status, Result, ok, err, Result-cases}
use cr_dk.Mmio.{Bus}
use cr_dk.Base.{
  ℕ, zero, suc, ◌≡◌, refl, sym, ap, ◌∙◌, ◌≢◌, inl, inr, true, Option, none, some, List, [], ◌∷◌,
  ◌++◌, arith, set,
}

-- The entry of a handler for interrupt `irq`.
abbrev pub pdc_entry : ℕ → ℕ → ℕ → Entry
pdc_entry irq h param = record { handler = some h; param = param; source = irq }

module _ {S : Type 0} (bus : Bus S) (gic : HardwareInterrupt2 S) (ctx : PdcDeviceContext)
    (pin h param : ℕ) (trigger : TriggerType) (st : IrqState S) where
  abbrev typed : Result TriggerType × IrqState S
  typed = on_hw (pdc_gic_set_type bus ctx pin trigger) st

  abbrev armed : IrqState S
  armed = (on_hw (pdc_enable_interrupt bus (some ctx) pin true) typed.1).1

  abbrev config_for : ℕ → TriggerType → InterruptConfig
  config_for irq gic_type = record {
    param = param;
    handler = some h;
    interrupt_number = irq;
    trigger_type = gic_type;
  }

  abbrev done : Status × IrqState S
  done = pdc_register_interrupt bus gic (some ctx) pin (some h) param trigger st

  unmapped : (e : Status) → get_gic_irq_from_pdc_pin (some ctx) pin ≡ err e → done.0 ≡ e
  unfolding pdc_register_interrupt
  unmapped e missing = ground (arith, missing)

  untyped :
      (irq : ℕ) (e : Status)
      → get_gic_irq_from_pdc_pin (some ctx) pin ≡ ok irq
      → typed.0 ≡ err e
      → done.0 ≡ e
  unfolding pdc_register_interrupt
  untyped irq e found bad = ground (arith, found, bad)

  connected :
      (irq : ℕ) (gic_type : TriggerType)
      → get_gic_irq_from_pdc_pin (some ctx) pin ≡ ok irq
      → typed.0 ≡ ok gic_type
      → done ≡ register_interrupt gic (config_for irq gic_type) armed
  unfolding pdc_register_interrupt
  connected irq gic_type found set = ground (arith, found, set)

find_gic_irq-fails :
    (n : ℕ) (rs : List PdcRange) (pin : ℕ) → find_gic_irq n rs pin ≢ err Status.success
unfolding find_gic_irq
find_gic_irq-fails zero rs pin e = absurd (cc e)
find_gic_irq-fails (suc n) [] pin e = absurd (cc e)
find_gic_irq-fails (suc n) (r ∷ rs) pin e = ground (arith, e, find_gic_irq-fails n rs pin)

module _ {S : Type 0} (bus : Bus S) (ctx : PdcDeviceContext) where
  get_gic_irq-fails : (pin : ℕ) → get_gic_irq_from_pdc_pin (some ctx) pin ≢ err Status.success
  unfolding get_gic_irq_from_pdc_pin
  get_gic_irq-fails pin = find_gic_irq-fails ctx.pdc_range_count ctx.pdc_region pin

  pdc_gic_set_type-fails :
      (pin : ℕ) (trigger : TriggerType) (s : S)
      → (pdc_gic_set_type bus ctx pin trigger s).0 ≢ err Status.success
  unfolding pdc_gic_set_type
  pdc_gic_set_type-fails pin trigger s e =
      elim (Result-cases (get_gic_irq_from_pdc_pin (some ctx) pin)) [
        | inl (bad, missing) ↦ ground (arith, e, missing, get_gic_irq-fails pin)
        | inr (irq, found) ↦ ground (arith, e, found)
      ]

  context-success :
      (gic : HardwareInterrupt2 S) (pin h param : ℕ) (trigger : TriggerType) (st : IrqState S)
      → IsValid st
      → (pdc_register_interrupt bus gic (some ctx) pin (some h) param trigger st).0 ≡ Status.success
      → (irq : ℕ) × (get_gic_irq_from_pdc_pin (some ctx) pin ≡ ok irq)
        × (entries (pdc_register_interrupt bus gic (some ctx) pin (some h) param trigger st).1
            ≡ entries st ++ (pdc_entry irq h param ∷ []))
  context-success gic pin h param trigger st v good =
      elim (Result-cases (get_gic_irq_from_pdc_pin (some ctx) pin)) [
        | inl (e, missing) ↦
            let same : e ≡ Status.success =
              sym (unmapped bus gic ctx pin h param trigger st e missing) ∙ good in
            absurd (get_gic_irq-fails pin (missing ∙ ap err same))
        | inr (irq, found) ↦ elim (Result-cases (typed bus gic ctx pin h param trigger st).0) [
          | inl (e, bad) ↦
              let same : e ≡ Status.success =
                sym (untyped bus gic ctx pin h param trigger st irq e found bad) ∙ good in
              absurd (pdc_gic_set_type-fails pin trigger st.hw (bad ∙ ap err same))
          | inr (gic_type, set) ↦
              let run = connected bus gic ctx pin h param trigger st irq gic_type found set in
              (
                irq,
                found,
                ap (λ (a : Status × IrqState S). entries a.1) run
                    ∙ register_interrupt-success gic
                        (config_for bus gic ctx pin h param trigger st irq gic_type) h
                        (armed bus gic ctx pin h param trigger st)
                        (record { compact = v.compact; slots = v.slots }) refl
                        (sym (ap (λ (a : Status × IrqState S). a.0) run) ∙ good),
              )
        ]
      ]

-- A registration that succeeds has put the handler behind the entries, under the interrupt of the pin.
pub pdc_register_interrupt-success :
    {S : Type 0} (bus : Bus S) (gic : HardwareInterrupt2 S) (pdc : Option PdcDeviceContext)
    (pin h param : ℕ) (trigger : TriggerType) (st : IrqState S)
    → IsValid st
    → (pdc_register_interrupt bus gic pdc pin (some h) param trigger st).0 ≡ Status.success
    → (irq : ℕ) × (get_gic_irq_from_pdc_pin pdc pin ≡ ok irq)
      × (entries (pdc_register_interrupt bus gic pdc pin (some h) param trigger st).1
          ≡ entries st ++ (pdc_entry irq h param ∷ []))
unfolding pdc_register_interrupt
pdc_register_interrupt-success bus gic none pin h param trigger st v good = absurd (cc good)
pdc_register_interrupt-success bus gic (some ctx) pin h param trigger st v good =
    context-success bus ctx gic pin h param trigger st v good
