-- ===== src/Gpio/Tests.antt =====
-- The pins of gpio.c on a memory of registers.
use cr_dk.Pdc.{PdcDeviceContext}
use cr_dk.Gpio.Handlers.{
  gpio_register_gpio_irq-pins, gpio_entry_of, gpio_unregister_gpio_irq-port, pins, IsPinTable,
  registered,
}
use cr_dk.SlotTable.Laws.{IsCompact}
use cr_dk.Gpio.Irq.{no_entry, gpio_pins_max, gpio_unregister_gpio_irq, in_use, GpioState}
use cr_dk.SlotTable.{contents}
use cr_dk.Gpio.Enable.{gpio_check_interrupt_enabled-gpio_enable_interrupt}
use cr_dk.Gpio.RoundTrip.{gpio_read_config-gpio_set_config, applied}
use cr_dk.Status.{Status, ok}
use cr_dk.Bits.Fields.{bit-IsField, gen_msk-IsField}
use cr_dk.Interrupt.{initial, HardwareInterrupt2, TriggerType}
use cr_dk.Bits.{get_field, bit, gen_msk}
use cr_dk.Gpio.Detection.{trigger_value-raised, IsTriggerLayout}
use cr_dk.Gpio.Trigger.{raised, gpio_enable_interrupt, trigger_value, gpio_check_interrupt_enabled}
use cr_dk.Gpio.Config.{gpio_set_config, gpio_init_config_params, gpio_read_config}
use cr_dk.Gpio.Types.{GpioConfigRegInfo, GpioConfigParams, GpioPinInfo, GpioDeviceContext}
use cr_dk.Gpio.Fields.{IsPinLayout}
use cr_dk.Interrupt.Table.{IsValid, entries}
use cr_dk.Pdc.Register.{pdc_entry}
use cr_dk.Pdc.{get_gic_irq_from_pdc_pin}
use cr_dk.SlotTable.{find_first}
use cr_dk.Gpio.Irq.{of_pin, gpio_register_gpio_irq}
use cr_dk.Base.{
  ℕ, zero, suc, ◌+◌, ◌*◌, ◌<◌, ◌≡◌, refl, inl, inr, true, false, none, some, [], ◌∷◌, ◌++◌, arith,
  ◌==◌, if◌then◌else◌, length, replicate,
}
use cr_dk.Mmio.Storage.{Ram, ram, ram-IsStorage}

abbrev layout : GpioConfigRegInfo
layout = record {
  index = 0;
  control_reg_offset = 0;
  io_reg_offset = 4;
  int_cfg_reg_offset = 8;
  int_status_reg_offset = 12;
  int_target_reg_offset = 8;
  pull_msk = gen_msk 1 0;
  mux_sel_msk = gen_msk 5 2;
  drive_strength_msk = gen_msk 8 6;
  output_enable_msk = bit 9;
  input_msk = bit 0;
  output_msk = bit 1;
  interrupt_en_msk = bit 0;
  interrupt_polarity_msk = bit 1;
  interrupt_detection_msk = gen_msk 3 2;
  interrupt_raw_status_msk = bit 4;
  interrupt_status_msk = bit 0;
  interrupt_target_msk = gen_msk 7 5;
  target_kpss_val = 3;
  interrupt_detection_width = 2;
}

abbrev pin_at : ℕ → GpioPinInfo
pin_at i = record {
  pin_address = 0xf10_0000 + i * 0x1000;
  reserved = i == 3;
  pdc_pin_number = if i == 6 then 40 else 0xffff;
  reg_cfg = layout;
  tile_offset = 0;
}

abbrev device : GpioDeviceContext
device = record {
  tlmm_base_address = 0xf10_0000;
  pin_count = 8;
  pull_up_no_keeper = true;
  gpio_pins = pin_at;
}

abbrev blank : Ram
blank a = 0

-- Pin 5 as an input of function 2, with a pull up.
abbrev button : GpioConfigParams
button = record {
  pin_number = 5;
  output_enable = false;
  function_sel = 2;
  pull = 3;
  drive_strength = 0xff;
  output_value = 0xff;
}

layout-IsPinLayout : IsPinLayout layout
layout-IsPinLayout = record {
  mux_at = 2;
  pull_at = 0;
  drive_at = 6;
  oe_at = 9;
  out_at = 1;
  in_at = 0;
  mux = gen_msk-IsField 5 2 (omega arith) (omega arith);
  pull = gen_msk-IsField 1 0 (omega arith) (omega arith);
  drive = gen_msk-IsField 8 6 (omega arith) (omega arith);
  oe = bit-IsField 9 (omega arith);
  out = bit-IsField 1 (omega arith);
  inp = bit-IsField 0 (omega arith);
  mux_pull = inr (omega arith);
  mux_drive = inl (omega arith);
  mux_oe = inl (omega arith);
  pull_drive = inl (omega arith);
  oe_pull = inr (omega arith);
  oe_drive = inr (omega arith);
}

layout-IsTriggerLayout : IsTriggerLayout layout
layout-IsTriggerLayout = record {
  en_at = 0;
  pol_at = 1;
  det_at = 2;
  raw_at = 4;
  en = bit-IsField 0 (omega arith);
  pol = bit-IsField 1 (omega arith);
  det = gen_msk-IsField 3 2 (omega arith) (omega arith);
  raw = bit-IsField 4 (omega arith);
  det_pol = inr (omega arith);
  raw_det = inr (omega arith);
  raw_pol = inr (omega arith);
  raw_en = inr (omega arith);
}

gpio_read_config-gpio_set_config_example :
    (gpio_read_config ram
      (some device)
      (some (gpio_init_config_params 5))
      (gpio_set_config ram (some device) (some button) blank).1).0
    ≡ some (applied true layout button 0 0)
gpio_read_config-gpio_set_config_example =
    gpio_read_config-gpio_set_config ram-IsStorage device button blank refl (omega arith)
      layout-IsPinLayout

gpio_check_interrupt_enabled-gpio_enable_interrupt_example :
    (gpio_check_interrupt_enabled ram
      (some device)
      5
      (gpio_enable_interrupt ram (some device) 5 true blank).1).0
    ≡ ok true
gpio_check_interrupt_enabled-gpio_enable_interrupt_example =
    gpio_check_interrupt_enabled-gpio_enable_interrupt ram-IsStorage device 5 refl refl
      layout-IsTriggerLayout true blank

-- A pin set to rising edges before keeps the detection of edges when it is set to a high level.
trigger_value-raised_example :
    let new = (trigger_value layout TriggerType.level_high (raised layout 6)).1 in
    (get_field new layout.interrupt_detection_msk ≡ get_field 6 layout.interrupt_detection_msk)
    × (get_field new layout.interrupt_polarity_msk ≡ 1)
    × (get_field new layout.interrupt_raw_status_msk ≡ 1)
trigger_value-raised_example =
    trigger_value-raised layout-IsTriggerLayout TriggerType.level_high 6 (omega arith) refl

abbrev quiet : HardwareInterrupt2 Ram
quiet = record {
  locate = λ s. true;
  register_source = λ n s. (Status.success, s);
  set_trigger_type = λ n t s. (Status.success, s);
  enable_source = λ n s. (Status.success, s);
  disable_source = λ n s. (Status.success, s);
  end_of_interrupt = λ n s. s;
}

abbrev pdc : PdcDeviceContext
pdc = record {
  base_address = 0xb22_0000;
  spi_config_base = 0x17a0_00f0;
  spi_config_size = 0x64;
  pdc_range_count = 1;
  pdc_region = record { pdc_pin_base = 0; gic_spi_base = 480; pdc_count = 94 } ∷ [];
}

abbrev start : GpioState Ram
start = record { gpio_table = replicate gpio_pins_max no_entry; irq = initial blank }

replicate-contents : (n : ℕ) → contents in_use (replicate n no_entry) ≡ []
unfolding contents
replicate-contents zero = refl
replicate-contents (suc n) = replicate-contents n

replicate-IsCompact : (n : ℕ) → IsCompact in_use (replicate n no_entry)
replicate-IsCompact zero = tt
replicate-IsCompact (suc n) = (replicate-IsCompact n, λ e. replicate-contents n)

start-IsPinTable : IsPinTable start.gpio_table
start-IsPinTable = record { compact = replicate-IsCompact 300; slots = refl }

gpio_register_gpio_irq-pins_example :
    let after = registered ram quiet device (some pdc) 5 700 9 TriggerType.edge_both start in
    IsPinTable after.1.gpio_table
    × (length (pins start) < gpio_pins_max
        → pins after.1 ≡ pins start ++ (gpio_entry_of 5 700 9 ∷ []))
    × (length (pins start) ≡ gpio_pins_max → after ≡ (Status.out_of_resources, start))
gpio_register_gpio_irq-pins_example =
    gpio_register_gpio_irq-pins ram quiet device (some pdc) 5 700 9 TriggerType.edge_both start
      (omega arith) refl start-IsPinTable

start-IsValid : IsValid start.irq
unfolding contents
start-IsValid = record { compact = ground arith; slots = refl }

absent : find_first (of_pin 6) start.gpio_table ≡ none
unfolding find_first
absent = refl

port_ok :
    (registered ram quiet device (some pdc) 6 700 9 TriggerType.edge_both start).0 ≡ Status.success
unfolding gpio_register_gpio_irq
port_ok = refl

gpio_unregister_gpio_irq-port_example :
    let before = (registered ram quiet device (some pdc) 6 700 9 TriggerType.edge_both start).1 in
    let after = gpio_unregister_gpio_irq ram device 6 before in
    (irq : ℕ) × (get_gic_irq_from_pdc_pin (some pdc) ((device.gpio_pins 6).pdc_pin_number) ≡ ok irq)
    × (entries before.irq ≡ entries start.irq ++ (pdc_entry irq 700 9 ∷ []))
    × (after.0 ≡ Status.not_found)
    × (entries after.1.irq ≡ entries start.irq ++ (pdc_entry irq 700 9 ∷ []))
gpio_unregister_gpio_irq-port_example =
    gpio_unregister_gpio_irq-port ram quiet device (some pdc) 6 700 9 TriggerType.edge_both start
      (omega arith) (omega arith) start-IsValid absent port_ok
