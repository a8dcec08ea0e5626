-- ===== src/Gpio/Types.antt =====
-- The data of Include/Library/gpio.h, and where a pin's registers lie. The enumerations stand for the
-- numbers in the registers' fields, and are numbers here too.
use cr_dk.Bits.{u64}
use cr_dk.Base.{ℕ, ◌+◌, Bool, leb, ◌==◌, if◌then◌else◌}

pub record GpioConfigParams : Type 0 where
  pub pin_number : ℕ
  pub output_enable : Bool
  pub function_sel : ℕ
  pub pull : ℕ
  pub drive_strength : ℕ
  pub output_value : ℕ

pub record GpioConfigRegInfo : Type 0 where
  pub index : ℕ
  pub control_reg_offset : ℕ
  pub io_reg_offset : ℕ
  pub int_cfg_reg_offset : ℕ
  pub int_status_reg_offset : ℕ
  pub int_target_reg_offset : ℕ
  pub pull_msk : ℕ
  pub mux_sel_msk : ℕ
  pub drive_strength_msk : ℕ
  pub output_enable_msk : ℕ
  pub input_msk : ℕ
  pub output_msk : ℕ
  pub interrupt_en_msk : ℕ
  pub interrupt_polarity_msk : ℕ
  pub interrupt_detection_msk : ℕ
  pub interrupt_raw_status_msk : ℕ
  pub interrupt_status_msk : ℕ
  pub interrupt_target_msk : ℕ
  pub target_kpss_val : ℕ
  pub interrupt_detection_width : ℕ

-- `reg_cfg` and `tile_offset` are what `pRegCfg` and `pTileInfo` point to.
pub record GpioPinInfo : Type 0 where
  pub pin_address : ℕ
  pub reserved : Bool
  pub pdc_pin_number : ℕ
  pub reg_cfg : GpioConfigRegInfo
  pub tile_offset : ℕ

-- `gpio_pins` is the array of pins.
pub record GpioDeviceContext : Type 0 where
  pub tlmm_base_address : ℕ
  pub pin_count : ℕ
  pub pull_up_no_keeper : Bool
  pub gpio_pins : ℕ → GpioPinInfo

pub data GpioConfigRegType : Type 0 where
  ctl_reg io_reg int_cfg_reg int_status_reg int_target_reg wake_reg : GpioConfigRegType

abbrev pub unchange : ℕ
unchange = 0xff

abbrev pub gpio_pull_none : ℕ
gpio_pull_none = 0

abbrev pub gpio_pull_up_no_keeper : ℕ
gpio_pull_up_no_keeper = 2

abbrev pub gpio_pull_up : ℕ
gpio_pull_up = 3

abbrev pub gpio_tlmm_pin_stride : ℕ
gpio_tlmm_pin_stride = 0x1000

-- `GpioGetCfgRegByIndex` of gpio_internal.h.
abbrev pub reg_of_pin : GpioPinInfo → GpioConfigRegType → ℕ
reg_of_pin p GpioConfigRegType.ctl_reg =
    if p.reg_cfg.index == 0
    then p.pin_address
    else u64 (p.pin_address + p.reg_cfg.control_reg_offset)
reg_of_pin p GpioConfigRegType.io_reg = u64 (p.pin_address + p.reg_cfg.io_reg_offset)
reg_of_pin p GpioConfigRegType.int_cfg_reg = u64 (p.pin_address + p.reg_cfg.int_cfg_reg_offset)
reg_of_pin p GpioConfigRegType.int_status_reg =
    u64 (p.pin_address + p.reg_cfg.int_status_reg_offset)
reg_of_pin p GpioConfigRegType.int_target_reg =
    u64 (p.pin_address + p.reg_cfg.int_target_reg_offset)
reg_of_pin p GpioConfigRegType.wake_reg = 0

abbrev pub gpio_get_cfg_reg : GpioDeviceContext → GpioConfigRegType → ℕ → ℕ
gpio_get_cfg_reg c reg i = if leb c.pin_count i then 0 else reg_of_pin (c.gpio_pins i) reg
