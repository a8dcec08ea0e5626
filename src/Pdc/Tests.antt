-- ===== src/Pdc/Tests.antt =====
-- The controller of pdc.c on a memory of registers.
use cr_dk.Base.{◌≡◌, refl, ◌↔◌, true, some, List, [], ◌∷◌, arith, testbit}
use cr_dk.Status.{Status, ok, err}
use cr_dk.Interrupt.{TriggerType}
use cr_dk.Mmio.Storage.{Ram, ram, ram-IsStorage}
use cr_dk.Pdc.{
  PdcRange, PdcDeviceContext, get_gic_irq_from_pdc_pin, get_pdc_pin_from_gic_irq, bank_register,
  pdc_gic_set_type, pdc_enable_interrupt, pdc_pins_mapping,
}
use cr_dk.Pdc.Ranges.{IsTable, get_gic_irq_iff_get_pdc_pin}
use cr_dk.Pdc.Enable.{enabled, pdc_enable_interrupt-enabled, pdc_pins_mapping-keeps}
use cr_dk.Pdc.Trigger.{TypeSet, pdc_gic_set_type-TypeSet}

abbrev ranges : List PdcRange
ranges =
    record { pdc_pin_base = 0; gic_spi_base = 480; pdc_count = 94 }
    ∷ record { pdc_pin_base = 94; gic_spi_base = 609; pdc_count = 31 }
    ∷ []

abbrev device : PdcDeviceContext
device = record {
  base_address = 0xb22_0000;
  spi_config_base = 0x17a0_00f0;
  spi_config_size = 0x64;
  pdc_range_count = 2;
  pdc_region = ranges;
}

abbrev blank : Ram
blank a = 0

abbrev full : Ram
full a = 0xffff_ffff

ranges-IsTable : IsTable ranges
ranges-IsTable = omega arith

mapped : get_gic_irq_from_pdc_pin (some device) 100 ≡ ok 647
unfolding get_gic_irq_from_pdc_pin
mapped = refl

unmapped : get_gic_irq_from_pdc_pin (some device) 125 ≡ err Status.not_found
unfolding get_gic_irq_from_pdc_pin
unmapped = refl

get_gic_irq_iff_get_pdc_pin_example :
    (get_gic_irq_from_pdc_pin (some device) 100 ≡ ok 647)
    ↔ (get_pdc_pin_from_gic_irq (some device) 647 ≡ ok 100)
get_gic_irq_iff_get_pdc_pin_example = get_gic_irq_iff_get_pdc_pin device 100 647 ranges-IsTable

pdc_enable_interrupt-enabled_example :
    enabled ram device 37 (pdc_enable_interrupt ram (some device) 37 true blank).1 ≡ true
pdc_enable_interrupt-enabled_example =
    pdc_enable_interrupt-enabled ram-IsStorage device 37 37 true blank (omega arith) (omega arith)

pdc_pins_mapping-keeps_example :
    testbit (ram.peek (pdc_pins_mapping ram device full).1 (bank_register device 1)) 5
    ≡ testbit (ram.peek full (bank_register device 1)) 5
pdc_pins_mapping-keeps_example =
    pdc_pins_mapping-keeps ram-IsStorage device full (bank_register device 1) 5 (omega arith)

set_type_level_low :
    (pdc_gic_set_type ram device 100 TriggerType.level_low blank).0 ≡ ok TriggerType.level_high
unfolding pdc_gic_set_type
set_type_level_low = refl

pdc_gic_set_type-TypeSet_example :
    TypeSet ram-IsStorage device 100 TriggerType.level_low blank TriggerType.level_high
      (pdc_gic_set_type ram device 100 TriggerType.level_low blank).1
pdc_gic_set_type-TypeSet_example =
    pdc_gic_set_type-TypeSet ram-IsStorage device 100 TriggerType.level_low blank
      (λ a h. omega arith) set_type_level_low
