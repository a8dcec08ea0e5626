-- ===== src/Rpmh/Types.antt =====
-- The data of Include/Library/rpmh.h and the constants of Library/RpmhLib/rpmh_internal.h, with the
-- register tables of rpmh.c.
use cr_dk.Base.{ℕ, ◌+◌, ◌*◌, Bool}
use cr_dk.Bits.{bit, u32, u64}
use cr_dk.Interrupt.{InterruptConfig, IrqState}

-- The field `data` of the source is `value` here.
pub record RpmhTcsCmd : Type 0 where
  pub addr : ℕ
  pub value : ℕ
  pub wait : ℕ
  pub response_required : ℕ

pub record RpmhDrvRegisters : Type 0 where
  pub reg_drv_solver_config : ℕ
  pub reg_drv_print_child_config : ℕ
  pub reg_drv_irq_clear : ℕ
  pub reg_drv_irq_status : ℕ
  pub reg_drv_irq_enable : ℕ
  pub reg_drv_cmd_msgid : ℕ
  pub reg_drv_cmd_addr : ℕ
  pub reg_drv_cmd_data : ℕ
  pub reg_drv_control : ℕ
  pub reg_drv_cmd_enable : ℕ
  pub reg_rsc_drv_tcs_offset : ℕ
  pub reg_rsc_drv_cmd_offset : ℕ

abbrev pub drv_registers_v2p7 : RpmhDrvRegisters
drv_registers_v2p7 = record {
  reg_drv_solver_config = 0x04;
  reg_drv_print_child_config = 0x0C;
  reg_drv_irq_clear = 0x08;
  reg_drv_irq_status = 0x04;
  reg_drv_irq_enable = 0x00;
  reg_drv_cmd_msgid = 0x30;
  reg_drv_cmd_addr = 0x34;
  reg_drv_cmd_data = 0x38;
  reg_drv_control = 0x14;
  reg_drv_cmd_enable = 0x1C;
  reg_rsc_drv_tcs_offset = 0x2A0;
  reg_rsc_drv_cmd_offset = 0x14;
}

abbrev pub drv_registers_v3p0 : RpmhDrvRegisters
drv_registers_v3p0 = record {
  reg_drv_solver_config = 0x04;
  reg_drv_print_child_config = 0x0C;
  reg_drv_irq_clear = 0x08;
  reg_drv_irq_status = 0x04;
  reg_drv_irq_enable = 0x00;
  reg_drv_cmd_msgid = 0x34;
  reg_drv_cmd_addr = 0x38;
  reg_drv_cmd_data = 0x3C;
  reg_drv_control = 0x24;
  reg_drv_cmd_enable = 0x2C;
  reg_rsc_drv_tcs_offset = 0x2A0;
  reg_rsc_drv_cmd_offset = 0x18;
}

pub record RpmhDrvTcsData : Type 0 where
  pub mask : ℕ
  pub offset : ℕ
  pub tcs_count : ℕ

pub record RpmhDrvTcsConfig : Type 0 where
  pub active_tcs : RpmhDrvTcsData
  pub sleep_tcs : RpmhDrvTcsData
  pub wake_tcs : RpmhDrvTcsData
  pub control_tcs : RpmhDrvTcsData

-- `drv_registers` is the table pointed to.
pub record RpmhDeviceContext : Type 0 where
  pub drv_base_address : ℕ
  pub tcs_offset : ℕ
  pub drv_id : ℕ
  pub interrupt_config : InterruptConfig
  pub num_cmds_per_tcs : ℕ
  pub tcs_busy : ℕ
  pub tcs_config : RpmhDrvTcsConfig
  pub drv_registers : RpmhDrvRegisters
  pub irq_from_rpmh_cr : Bool

-- The driver's context, the interrupt table and the hardware.
pub record RpmhState (S : Type 0) : Type 0 where
  pub ctx : RpmhDeviceContext
  pub irq : IrqState S

abbrev pub rpmh_max_cmds_each_tcs : ℕ
rpmh_max_cmds_each_tcs = 16

abbrev pub rpmh_write_max_wait_time : ℕ
rpmh_write_max_wait_time = 1000

abbrev pub tcs_amc_mode_trigger : ℕ
tcs_amc_mode_trigger = bit 24

abbrev pub tcs_amc_mode_enable : ℕ
tcs_amc_mode_enable = bit 16

-- `RPMH_TCS_CMD_MSG_ID_LEN | RPMH_TCS_CMD_MSG_ID_WRITE_FLAG_BIT`, and the bit that asks for an answer.
abbrev pub rpmh_tcs_cmd_msg_id_len : ℕ
rpmh_tcs_cmd_msg_id_len = 8

abbrev pub rpmh_tcs_cmd_msg_id_write_flag_bit : ℕ
rpmh_tcs_cmd_msg_id_write_flag_bit = bit 16

abbrev pub rpmh_tcs_cmd_msg_id_response_request_bit : ℕ
rpmh_tcs_cmd_msg_id_response_request_bit = bit 8

-- The address of a register of the controller, of a TCS, and of a command of a TCS. Products of
-- UINT32 wrap at 32 bits, the sum at 64.
abbrev pub drv_reg : RpmhDeviceContext → ℕ → ℕ
drv_reg c reg = u64 (c.drv_base_address + c.tcs_offset + reg)

abbrev pub tcs_reg : RpmhDeviceContext → ℕ → ℕ → ℕ
tcs_reg c reg tcs =
    u64
      (c.drv_base_address + c.tcs_offset + u32 (c.drv_registers.reg_rsc_drv_tcs_offset * tcs) + reg)

abbrev pub tcs_cmd_reg : RpmhDeviceContext → ℕ → ℕ → ℕ → ℕ
tcs_cmd_reg c reg tcs cmd = u64 (
    c.drv_base_address
    + c.tcs_offset
    + u32 (c.drv_registers.reg_rsc_drv_tcs_offset * tcs)
    + reg
    + u32 (c.drv_registers.reg_rsc_drv_cmd_offset * cmd))
