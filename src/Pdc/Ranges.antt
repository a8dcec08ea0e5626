-- ===== src/Pdc/Ranges.antt =====
-- The two searches of pdc.c through the table of pin ranges, which are inverse to one another.
use cr_dk.Base.{
  ◌↔◌, some, ℕ, zero, suc, ◌+◌, ◌^◌, ◌≤◌, ◌≡◌, ◌⊎◌, inl, inr, false, List, [], ◌∷◌, arith,
  Bool-cases,
}
use cr_dk.Status.{ok}
use cr_dk.Pdc.{
  PdcDeviceContext, get_pdc_pin_from_gic_irq, get_gic_irq_from_pdc_pin, ok, PdcRange, gic_spi,
  has_pin, has_irq, find_gic_irq, find_pdc_pin,
}

-- No pin number and no interrupt number of the range leaves 16 bits.
pub record Fits (r : PdcRange) : Type 0 where
  pub pins : r.pdc_pin_base + r.pdc_count ≤ 2 ^ 16
  pub irqs : gic_spi (r.gic_spi_base + r.pdc_count) ≤ 2 ^ 16

-- The ranges share neither pins nor interrupts.
pub record Apart (r q : PdcRange) : Type 0 where
  pub pins :
      (r.pdc_pin_base + r.pdc_count ≤ q.pdc_pin_base)
      ⊎ (q.pdc_pin_base + q.pdc_count ≤ r.pdc_pin_base)
  pub irqs :
      (r.gic_spi_base + r.pdc_count ≤ q.gic_spi_base)
      ⊎ (q.gic_spi_base + q.pdc_count ≤ r.gic_spi_base)

abbrev pub AllApart : PdcRange → List PdcRange → Type 0
AllApart r [] = Unit
AllApart r (q ∷ qs) = Apart r q × AllApart r qs

-- A table whose ranges fit and are pairwise apart.
abbrev pub IsTable : List PdcRange → Type 0
IsTable [] = Unit
IsTable (r ∷ rs) = Fits r × AllApart r rs × IsTable rs

-- What the search for a pin finds lies in no range that is apart from all.
irq_outside :
    (r : PdcRange) (n : ℕ) (rs : List PdcRange) (pin irq : ℕ)
    → AllApart r rs
    → IsTable rs
    → find_gic_irq n rs pin ≡ ok irq
    → has_irq r irq ≡ false
unfolding find_gic_irq
irq_outside r zero rs pin irq a t h = absurd (cc)
irq_outside r (suc n) [] pin irq a t h = absurd (cc)
irq_outside r (suc n) (q ∷ qs) pin irq a t h = elim (Bool-cases (has_pin q pin)) [
  | inl here ↦ ground arith
  | inr later ↦ irq_outside r n qs pin irq a.1 t.2 (ground (arith, h, later))
]

find_pdc_pin-find_gic_irq :
    (n : ℕ) (rs : List PdcRange) (pin irq : ℕ)
    → IsTable rs
    → find_gic_irq n rs pin ≡ ok irq
    → find_pdc_pin n rs irq ≡ ok pin
unfolding find_gic_irq find_pdc_pin
find_pdc_pin-find_gic_irq zero rs pin irq t h = absurd (cc)
find_pdc_pin-find_gic_irq (suc n) [] pin irq t h = absurd (cc)
find_pdc_pin-find_gic_irq (suc n) (r ∷ rs) pin irq t h = elim (Bool-cases (has_pin r pin)) [
  | inl here ↦ ground arith
  | inr later ↦
      let h' : find_gic_irq n rs pin ≡ ok irq = ground (arith, h, later) in
      rw (irq_outside r n rs pin irq t.1 t.2 h') (find_pdc_pin-find_gic_irq n rs pin irq t.2 h')
]

pin_outside :
    (r : PdcRange) (n : ℕ) (rs : List PdcRange) (irq pin : ℕ)
    → AllApart r rs
    → IsTable rs
    → find_pdc_pin n rs irq ≡ ok pin
    → has_pin r pin ≡ false
unfolding find_pdc_pin
pin_outside r zero rs irq pin a t h = absurd (cc)
pin_outside r (suc n) [] irq pin a t h = absurd (cc)
pin_outside r (suc n) (q ∷ qs) irq pin a t h = elim (Bool-cases (has_irq q irq)) [
  | inl here ↦ ground arith
  | inr later ↦ pin_outside r n qs irq pin a.1 t.2 (ground (arith, h, later))
]

find_gic_irq-find_pdc_pin :
    (n : ℕ) (rs : List PdcRange) (irq pin : ℕ)
    → IsTable rs
    → find_pdc_pin n rs irq ≡ ok pin
    → find_gic_irq n rs pin ≡ ok irq
unfolding find_gic_irq find_pdc_pin
find_gic_irq-find_pdc_pin zero rs irq pin t h = absurd (cc)
find_gic_irq-find_pdc_pin (suc n) [] irq pin t h = absurd (cc)
find_gic_irq-find_pdc_pin (suc n) (r ∷ rs) irq pin t h = elim (Bool-cases (has_irq r irq)) [
  | inl here ↦ ground arith
  | inr later ↦
      let h' : find_pdc_pin n rs irq ≡ ok pin = ground (arith, h, later) in
      rw (pin_outside r n rs irq pin t.1 t.2 h') (find_gic_irq-find_pdc_pin n rs irq pin t.2 h')
]

-- In a table of ranges that fit 16 bits and share nothing, a pin is mapped to an interrupt exactly
-- when the interrupt is mapped back to that pin.
pub get_gic_irq_iff_get_pdc_pin :
    (ctx : PdcDeviceContext) (pin irq : ℕ)
    → IsTable ctx.pdc_region
    → (get_gic_irq_from_pdc_pin (some ctx) pin ≡ ok irq)
      ↔ (get_pdc_pin_from_gic_irq (some ctx) irq ≡ ok pin)
unfolding get_gic_irq_from_pdc_pin get_pdc_pin_from_gic_irq
get_gic_irq_iff_get_pdc_pin ctx pin irq t = (
  find_pdc_pin-find_gic_irq ctx.pdc_range_count ctx.pdc_region pin irq t,
  find_gic_irq-find_pdc_pin ctx.pdc_range_count ctx.pdc_region irq pin t,
)
