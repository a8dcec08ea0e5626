-- ===== src/Pdc/Trigger.antt =====
-- `PdcGicSetType` of pdc.c: what a pin's trigger type leaves in the registers, and the type that the
-- interrupt controller is given.
use cr_dk.Base.{
  Option-cases, ap, ◌==◌, not, ◌&&◌, false, none, not, Bool, ℕ, ◌+◌, ◌-◌, ◌*◌, ◌/◌, ◌%◌, ◌^◌, ◌≤◌,
  ◌≡◌, refl, ap, ◌∙◌, ◌≢◌, inl, inr, true, some, arith, ltb, if◌then◌else◌, ltb→le, ne→==,
  Bool-cases, testbit,
}
use cr_dk.Bits.{u32, u64, bit, set_bits, clr_bits}
use cr_dk.Bits.Laws.{testbit-bit, testbit-set_bits, testbit-u32}
use cr_dk.Status.{Result-cases, Status}
use cr_dk.Interrupt.{TriggerType}
use cr_dk.Mmio.{Bus}
use cr_dk.Mmio.Storage.{peek-read_write, IsStorage}
use cr_dk.Pdc.{
  Result, ok, err, get_gic_irq_from_pdc_pin, pdc_gic_set_type, cfg_register, PdcDeviceContext,
  is_level, pdc_irq_config, set_spi_level,
}

-- The controller is only given the two types that it supports, edges as edges and levels as levels.
pub pdc_irq_config-level :
    (trigger : TriggerType) {code : ℕ} {gic_type : TriggerType}
    → pdc_irq_config trigger ≡ some (code, gic_type)
    → gic_type ≡ (if is_level trigger then TriggerType.level_high else TriggerType.edge_rising)
unfolding pdc_irq_config
pdc_irq_config-level trigger h = ground arith

-- The register value tells the five types apart.
pub pdc_irq_config-injective :
    (a b : TriggerType) {code : ℕ} {g h : TriggerType}
    → pdc_irq_config a ≡ some (code, g)
    → pdc_irq_config b ≡ some (code, h)
    → a ≡ b
unfolding pdc_irq_config
pdc_irq_config-injective a b p q = ground arith

module _ {S : Type 0} {bus : Bus S} (st : IsStorage bus) (ctx : PdcDeviceContext) where
  -- Only registers of the shared interrupts' region are written.
  set_spi_level-frame :
      (spi c : ℕ) (s : S)
      → ((a : ℕ) → a ≤ ctx.spi_config_size → u64 (ctx.spi_config_base + a) ≢ c)
      → bus.peek (set_spi_level bus ctx spi s).1 c ≡ bus.peek s c
  unfolding set_spi_level
  set_spi_level-frame spi c s apart = elim (Bool-cases (ltb ctx.spi_config_size (spi / 32 * 4))) [
    | inl out ↦ rw out refl
    | inr inside ↦ rw inside (
        peek-read_write st _ _ s c ∙ rw (ne→== _ c (apart (spi / 32 * 4) (ltb→le _ _ inside))) refl)
  ]

  -- The interrupt's bit is set in its register, if that lies in the region.
  set_spi_level-level :
      (spi : ℕ) (s : S)
      → (set_spi_level bus ctx spi s).0 ≡ Status.success
      → testbit
          (bus.peek (set_spi_level bus ctx spi s).1 (u64 (ctx.spi_config_base + spi / 32 * 4)))
          (spi % 32)
        ≡ true
  unfolding set_spi_level
  set_spi_level-level spi s h = elim (Bool-cases (ltb ctx.spi_config_size (spi / 32 * 4))) [
    | inl out ↦ absurd (ground (arith, h, out))
    | inr inside ↦ rw inside (
        ap (λ (t : ℕ). testbit t (spi % 32))
          (peek-read_write st mine (set_bits (u32 (clr_bits (bus.peek s mine) mask)) mask) s mine)
        ∙ ground (
          arith,
          testbit-u32 (set_bits (u32 (clr_bits (bus.peek s mine) mask)) mask) (spi % 32),
          testbit-set_bits (u32 (clr_bits (bus.peek s mine) mask)) mask (spi % 32),
          testbit-bit (spi % 32) (spi % 32) (omega arith),
        ))
  ]
    where
      mine : ℕ
      mine = u64 (ctx.spi_config_base + spi / 32 * 4)

      mask : ℕ
      mask = bit (spi % 32)

  -- The number of a shared interrupt, from its number at the interrupt controller.
  abbrev pub spi_of : ℕ → ℕ
  spi_of irq = (irq + 2 ^ 16 - 32) % 2 ^ 16

  module _ (pin : ℕ) (trigger : TriggerType) (s : S) where
    abbrev configured : ℕ → S
    configured code = bus.poke (cfg_register ctx pin) (u32 code) s

    abbrev wants_spi : Bool
    wants_spi = not (ctx.spi_config_base == 0) && is_level trigger

    set_type-invalid :
        pdc_irq_config trigger ≡ none
        → pdc_gic_set_type bus ctx pin trigger s ≡ (err Status.invalid_parameter, s)
    unfolding pdc_gic_set_type
    set_type-invalid h = ground arith

    set_type-edge :
        {code : ℕ} {g : TriggerType}
        → pdc_irq_config trigger ≡ some (code, g)
        → wants_spi ≡ false
        → pdc_gic_set_type bus ctx pin trigger s ≡ (ok g, configured code)
    unfolding pdc_gic_set_type
    set_type-edge h w = ground arith

    set_type-unmapped :
        {code : ℕ} {g : TriggerType} {e : Status}
        → pdc_irq_config trigger ≡ some (code, g)
        → wants_spi ≡ true
        → get_gic_irq_from_pdc_pin (some ctx) pin ≡ err e
        → pdc_gic_set_type bus ctx pin trigger s ≡ (err e, configured code)
    unfolding pdc_gic_set_type
    set_type-unmapped h w m = ground arith

    set_type-level :
        {code : ℕ} {g : TriggerType} {irq : ℕ}
        → pdc_irq_config trigger ≡ some (code, g)
        → wants_spi ≡ true
        → get_gic_irq_from_pdc_pin (some ctx) pin ≡ ok irq
        → let (status, after) = set_spi_level bus ctx (spi_of irq) (configured code) in
          pdc_gic_set_type bus ctx pin trigger s
          ≡ (elim status [ Status.success ↦ ok g | e ↦ err e ], after)
    unfolding pdc_gic_set_type
    set_type-level h w m = ground arith

    configured-code :
        {code : ℕ} {g : TriggerType}
        → pdc_irq_config trigger ≡ some (code, g)
        → bus.peek (configured code) (cfg_register ctx pin) ≡ code
    unfolding pdc_irq_config
    configured-code {code} h =
        st.peek-poke (cfg_register ctx pin) (u32 code) s (cfg_register ctx pin) ∙ ground arith

    -- What a successful call has done.
    abbrev pub TypeSet : TriggerType → S → Type 0
    TypeSet g after =
        ((code : ℕ) × (pdc_irq_config trigger ≡ some (code, g))
          × (bus.peek after (cfg_register ctx pin) ≡ code))
        × (wants_spi ≡ true
            → (irq : ℕ) × (get_gic_irq_from_pdc_pin (some ctx) pin ≡ ok irq)
              × (testbit (bus.peek after (u64 (ctx.spi_config_base + spi_of irq / 32 * 4)))
                    (spi_of irq % 32)
                  ≡ true))

    -- When `PdcGicSetType` succeeds, the pin's configuration register holds the code of the trigger
    -- type, the interrupt controller is to be set to the type that goes with it, and for a level type
    -- on a device with shared interrupts the interrupt's bit is set in their register. The shared
    -- interrupts' registers are taken to lie apart from the pin's.
    pub pdc_gic_set_type-TypeSet :
        {g : TriggerType}
        → ((a : ℕ) → a ≤ ctx.spi_config_size → u64 (ctx.spi_config_base + a) ≢ cfg_register ctx pin)
        → (pdc_gic_set_type bus ctx pin trigger s).0 ≡ ok g
        → TypeSet g (pdc_gic_set_type bus ctx pin trigger s).1
    pdc_gic_set_type-TypeSet {g} apart h = elim (Option-cases (pdc_irq_config trigger)) [
      | inl bad ↦ absurd (ground (arith, h, set_type-invalid bad))
      | inr ((code, g'), good) ↦ elim (Bool-cases wants_spi) [
        | inr edge ↦
            let same : g' ≡ g = ground (arith, h, set_type-edge good edge) in
            (
              (
                code,
                good ∙ ap (λ (t : TriggerType). some (code, t)) same,
                ap (λ (t : Result TriggerType × S). bus.peek t.1 (cfg_register ctx pin))
                      (set_type-edge good edge)
                    ∙ configured-code good,
              ),
              λ level. cc edge,
            )
        | inl level ↦ elim (Result-cases (get_gic_irq_from_pdc_pin (some ctx) pin)) [
          | inl (e, bad) ↦ absurd (ground (arith, h, set_type-unmapped good level bad))
          | inr (irq, mapped) ↦
              let run = set_type-level good level mapped in
              let same : g' ≡ g = ground (arith, h, run) in
              let done : (set_spi_level bus ctx (spi_of irq) (configured code)).0 ≡ Status.success =
                ground (arith, h, run) in
              (
                (
                  code,
                  good ∙ ap (λ (t : TriggerType). some (code, t)) same,
                  ap (λ (t : Result TriggerType × S). bus.peek t.1 (cfg_register ctx pin)) run
                      ∙ set_spi_level-frame (spi_of irq) (cfg_register ctx pin) (configured code)
                          apart
                      ∙ configured-code good,
                ),
                λ _. (
                  irq,
                  mapped,
                  ap
                        (λ (t : Result TriggerType × S).
                          testbit (bus.peek t.1 (u64 (ctx.spi_config_base + spi_of irq / 32 * 4)))
                            (spi_of irq % 32))
                        run
                      ∙ set_spi_level-level (spi_of irq) (configured code) done,
                ),
              )
        ]
      ]
    ]
