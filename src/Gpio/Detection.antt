-- ===== src/Gpio/Detection.antt =====
-- What the interrupt functions of Library/GpioLib/gpio.c leave in the interrupt configuration register.
use mathlib.Core.Path.{subst}
use cr_dk.Bits.Laws.{below_32, testbit-clr_bits, testbit-u32}
use cr_dk.Bits.{clr_bits, get_field}
use cr_dk.Gpio.Config.{write_field}
use cr_dk.Bits.Fields.{get_field-write, get_field-write_other, mask-lt, IsField}
use cr_dk.Interrupt.{TriggerType}
use cr_dk.Gpio.Trigger.{detect, polarise, raised, trigger_value}
use cr_dk.Gpio.Types.{GpioConfigRegInfo}
use cr_dk.Base.{
  ℕ, ◌+◌, ◌%◌, ◌^◌, ◌≤◌, ◌<◌, bit_or, ◌≡◌, refl, sym, ap, ◌∙◌, ◌⊎◌, inl, inr, arith, testbit-bit_or,
  eq_of_testbit,
}

-- The fields of the interrupt configuration register lie apart.
pub record IsTriggerLayout (cfg : GpioConfigRegInfo) : Type 0 where
  pub en_at : ℕ
  pub pol_at : ℕ
  pub det_at : ℕ
  pub raw_at : ℕ
  pub en : IsField cfg.interrupt_en_msk en_at 1
  pub pol : IsField cfg.interrupt_polarity_msk pol_at 1
  pub det : IsField cfg.interrupt_detection_msk det_at cfg.interrupt_detection_width
  pub raw : IsField cfg.interrupt_raw_status_msk raw_at 1
  pub det_pol : (det_at + cfg.interrupt_detection_width ≤ pol_at) ⊎ (pol_at + 1 ≤ det_at)
  pub raw_det : (raw_at + 1 ≤ det_at) ⊎ (det_at + cfg.interrupt_detection_width ≤ raw_at)
  pub raw_pol : (raw_at + 1 ≤ pol_at) ⊎ (pol_at + 1 ≤ raw_at)
  pub raw_en : (raw_at + 1 ≤ en_at) ⊎ (en_at + 1 ≤ raw_at)

abbrev flip : {A B : Type 0} → A ⊎ B → B ⊎ A
flip (inl a) = inr a
flip (inr b) = inl b

module _ {cfg : GpioConfigRegInfo} (l : IsTriggerLayout cfg) where
  -- Joining the two copies brings every digit back.
  raised-same : (v : ℕ) → v < 2 ^ 32 → raised cfg v ≡ write_field v 1 cfg.interrupt_raw_status_msk
  unfolding raised
  raised-same v small = eq_of_testbit _ _ λ i.
      let set = write_field v 1 cfg.interrupt_raw_status_msk in
      testbit-u32
        (bit_or (clr_bits set cfg.interrupt_detection_msk)
          (clr_bits set cfg.interrupt_polarity_msk))
        i
      ∙ ground (
        arith,
        testbit-bit_or (clr_bits set cfg.interrupt_detection_msk)
            (clr_bits set cfg.interrupt_polarity_msk) i,
        testbit-clr_bits set cfg.interrupt_detection_msk i (omega arith)
            (omega (arith, mask-lt l.det)),
        testbit-clr_bits set cfg.interrupt_polarity_msk i (omega arith)
            (omega (arith, mask-lt l.pol)),
        (l.det).bits i,
        (l.pol).bits i,
        below_32 set i (omega arith),
        l.det_pol,
      )

  -- What the detection field holds for a trigger type, with two bits for both edges.
  abbrev pub detection_of : TriggerType → ℕ → ℕ
  detection_of TriggerType.edge_rising old = 1
  detection_of TriggerType.edge_falling old = 2
  detection_of TriggerType.edge_both old = 3
  detection_of _ old = old

  abbrev pub polarity_of : TriggerType → ℕ → ℕ
  polarity_of TriggerType.level_low old = old
  polarity_of TriggerType.invalid old = old
  polarity_of _ old = 1

  -- The three fields of a value.
  abbrev HasFields : ℕ → ℕ → ℕ → ℕ → Type 0
  HasFields v det pol raw =
      (get_field v cfg.interrupt_detection_msk ≡ det)
      × (get_field v cfg.interrupt_polarity_msk ≡ pol)
      × (get_field v cfg.interrupt_raw_status_msk ≡ raw)

  polarise-fields :
      (r : ℕ)
      → r < 2 ^ 32
      → HasFields
          (polarise cfg r)
          (get_field r cfg.interrupt_detection_msk)
          1
          (get_field r cfg.interrupt_raw_status_msk)
  polarise-fields r h = (
    get_field-write_other l.pol l.det r 1 (flip l.det_pol) h,
    get_field-write l.pol r 1 h,
    get_field-write_other l.pol l.raw r 1 (flip l.raw_pol) h,
  )

  edge-fields :
      (k r : ℕ)
      → r < 2 ^ 32
      → k < 4
      → cfg.interrupt_detection_width ≡ 2
      → HasFields (polarise cfg (detect cfg k r)) k 1 (get_field r cfg.interrupt_raw_status_msk)
  edge-fields k r h few two =
      let after = polarise-fields (detect cfg k r) (omega arith) in
      (
        after.0 ∙ get_field-write l.det r k h ∙ ap (λ (w : ℕ). k % 2 ^ w) two ∙ omega arith,
        after.1,
        after.2 ∙ get_field-write_other l.det l.raw r k (flip l.raw_det) h,
      )

  trigger_value-fields :
      (t : TriggerType) (r : ℕ)
      → r < 2 ^ 32
      → cfg.interrupt_detection_width ≡ 2
      → HasFields
          (trigger_value cfg t r).1
          (detection_of t (get_field r cfg.interrupt_detection_msk))
          (polarity_of t (get_field r cfg.interrupt_polarity_msk))
          (get_field r cfg.interrupt_raw_status_msk)
  unfolding trigger_value
  trigger_value-fields TriggerType.edge_rising r h two = edge-fields 1 r h (omega arith) two
  trigger_value-fields TriggerType.edge_falling r h two =
      subst (λ n. HasFields n 2 1 (get_field r cfg.interrupt_raw_status_msk)) (ground (arith, two))
        (edge-fields 2 r h (omega arith) two)
  trigger_value-fields TriggerType.edge_both r h two =
      subst (λ n. HasFields n 3 1 (get_field r cfg.interrupt_raw_status_msk)) (ground (arith, two))
        (edge-fields 3 r h (omega arith) two)
  trigger_value-fields TriggerType.level_high r h two = polarise-fields r h
  trigger_value-fields TriggerType.level_low r h two = (refl, refl, refl)
  trigger_value-fields TriggerType.invalid r h two = (refl, refl, refl)

  -- With a detection field of two bits, the value for the register has the detection and the polarity of
  -- an edge trigger; for a level trigger the detection field, and for a low level the polarity too, is
  -- what it was before. The interrupt status bit is set.
  pub trigger_value-raised :
      (t : TriggerType) (v : ℕ)
      → v < 2 ^ 32
      → cfg.interrupt_detection_width ≡ 2
      → let new = (trigger_value cfg t (raised cfg v)).1 in
        (get_field new cfg.interrupt_detection_msk
          ≡ detection_of t (get_field v cfg.interrupt_detection_msk))
        × (get_field new cfg.interrupt_polarity_msk
            ≡ polarity_of t (get_field v cfg.interrupt_polarity_msk))
        × (get_field new cfg.interrupt_raw_status_msk ≡ 1)
  trigger_value-raised t v small two =
      let set = write_field v 1 cfg.interrupt_raw_status_msk in
      let det_kept = get_field-write_other l.raw l.det v 1 l.raw_det small in
      let pol_kept = get_field-write_other l.raw l.pol v 1 l.raw_pol small in
      subst
        (λ r.
          HasFields (trigger_value cfg t r).1
            (detection_of t (get_field v cfg.interrupt_detection_msk))
            (polarity_of t (get_field v cfg.interrupt_polarity_msk)) 1)
        (sym (raised-same v small))
        (let fields = trigger_value-fields t set (omega arith) two in
          (
            fields.0 ∙ ap (detection_of t) det_kept,
            fields.1 ∙ ap (polarity_of t) pol_kept,
            fields.2 ∙ get_field-write l.raw v 1 small,
          ))
