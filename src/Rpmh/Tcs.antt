-- ===== src/Rpmh/Tcs.antt =====
-- The functions of rpmh.c and rpmh_internal.h that act on the registers of one TCS.
use cr_dk.Base.{
  ℕ, zero, suc, ◌+◌, bit_and, bit_or, Bool, true, false, List, [], ◌∷◌, ◌==◌, if◌then◌else◌,
}
use cr_dk.Bits.{bit, u32, set_bits, clr_bits}
use cr_dk.Mmio.{Bus, M, pure, ◌>>=◌, ◌>>◌, read32, write32, sleep}
use cr_dk.Cmddb.Address.{is_addr_equal}
use cr_dk.Rpmh.Types.{
  RpmhTcsCmd, RpmhDeviceContext, rpmh_write_max_wait_time, tcs_amc_mode_trigger,
  tcs_amc_mode_enable, rpmh_tcs_cmd_msg_id_len, rpmh_tcs_cmd_msg_id_write_flag_bit,
  rpmh_tcs_cmd_msg_id_response_request_bit, drv_reg, tcs_reg, tcs_cmd_reg,
}

module _ {S : Type 0} (bus : Bus S) (c : RpmhDeviceContext) where
  abbrev pub read_tcs_reg : ℕ → ℕ → M S ℕ
  read_tcs_reg reg tcs = read32 bus (tcs_reg c reg tcs)

  abbrev pub write_tcs_reg : ℕ → ℕ → ℕ → M S (Unit {0})
  write_tcs_reg reg tcs value = write32 bus (tcs_reg c reg tcs) value

  abbrev pub read_tcs_cmd_reg : ℕ → ℕ → ℕ → M S ℕ
  read_tcs_cmd_reg reg tcs cmd = read32 bus (tcs_cmd_reg c reg tcs cmd)

  abbrev pub write_tcs_cmd_reg : ℕ → ℕ → ℕ → ℕ → M S (Unit {0})
  write_tcs_cmd_reg reg tcs cmd value = write32 bus (tcs_cmd_reg c reg tcs cmd) value

  -- The loop of `WriteTcsRegSync`, with `n` rounds left: it ends when the value is read back.
  unfoldable pub wait_written : ℕ → ℕ → ℕ → ℕ → M S (Unit {0})
  wait_written zero reg tcs value = pure tt
  wait_written (suc n) reg tcs value = do
    reg_val ← read_tcs_reg reg tcs
    elim (reg_val == value) [ true ↦ pure tt | false ↦ sleep bus 1 >> wait_written n reg tcs value ]

  unfoldable pub write_tcs_reg_sync : ℕ → ℕ → ℕ → M S (Unit {0})
  write_tcs_reg_sync reg tcs value = do
    write_tcs_reg reg tcs value
    wait_written rpmh_write_max_wait_time reg tcs value

  -- The masks are the number of the TCS itself, as in the source.
  unfoldable pub tcs_enable_interrupt : ℕ → Bool → M S (Unit {0})
  tcs_enable_interrupt tcs enable = do
    reg_val ← read32 bus (drv_reg c c.drv_registers.reg_drv_irq_enable)
    write32 bus (drv_reg c c.drv_registers.reg_drv_irq_enable)
        (u32 (if enable then set_bits reg_val tcs else clr_bits reg_val tcs))

  -- The arguments of the two `CLR_BITS` stand as in the source: the mode bit first.
  unfoldable pub tcs_set_trigger : ℕ → Bool → M S (Unit {0})
  unfolding write_tcs_reg_sync
  tcs_set_trigger tcs trigger =
      let control = c.drv_registers.reg_drv_control in
      do
        reg_val ← read_tcs_reg control tcs
        let first = u32 (clr_bits tcs_amc_mode_trigger reg_val)
        write_tcs_reg_sync control tcs first
        let second = u32 (clr_bits tcs_amc_mode_enable first)
        write_tcs_reg_sync control tcs second
        if trigger
            then (do
              write_tcs_reg_sync control tcs (u32 tcs_amc_mode_enable)
              write_tcs_reg control tcs
                  (u32 (set_bits (u32 tcs_amc_mode_enable) tcs_amc_mode_trigger)))
            else pure tt

  -- The loop over the commands of `RpmhIsCmdInflight`, with `n` rounds left and `cmd` done.
  unfoldable pub cmd_running : ℕ → ℕ → ℕ → ℕ → ℕ → M S Bool
  cmd_running current_enable request tcs zero cmd = pure false
  cmd_running current_enable request tcs (suc n) cmd =
      elim (bit_and current_enable (bit cmd) == 0) [
        | true ↦ cmd_running current_enable request tcs n (cmd + 1)
        | false ↦ do
          address ← read_tcs_cmd_reg c.drv_registers.reg_drv_cmd_addr tcs cmd
          elim (is_addr_equal request address) [
            | true ↦ pure true
            | false ↦ cmd_running current_enable request tcs n (cmd + 1)
          ]
      ]

  -- The loop of `TcsWriteBuffer` from command slot `cmd` on: the enable bits and the message header
  -- so far go round with it, and the enable bits are its result.
  unfoldable pub write_cmds : ℕ → ℕ → ℕ → ℕ → List RpmhTcsCmd → M S ℕ
  write_cmds tcs cmd enabled msg_id [] = pure enabled
  write_cmds tcs cmd enabled msg_id (tcs_cmd ∷ rest) =
      let regs = c.drv_registers in
      let enabled' = u32 (bit_or enabled (bit cmd)) in
      let msg_id' =
        if tcs_cmd.response_required == 0
        then msg_id
        else u32 (bit_or msg_id rpmh_tcs_cmd_msg_id_response_request_bit) in
      do
        write_tcs_cmd_reg regs.reg_drv_cmd_msgid tcs cmd msg_id'
        write_tcs_cmd_reg regs.reg_drv_cmd_addr tcs cmd tcs_cmd.addr
        write_tcs_cmd_reg regs.reg_drv_cmd_data tcs cmd tcs_cmd.value
        write_cmds tcs (cmd + 1) enabled' msg_id' rest

  unfoldable pub tcs_write_buffer : ℕ → ℕ → List RpmhTcsCmd → M S (Unit {0})
  unfolding write_cmds
  tcs_write_buffer tcs cmd_id cmds = do
    enabled ←
        write_cmds tcs cmd_id 0
          (u32 (bit_or rpmh_tcs_cmd_msg_id_len rpmh_tcs_cmd_msg_id_write_flag_bit)) cmds
    before ← read_tcs_reg c.drv_registers.reg_drv_cmd_enable tcs
    write_tcs_reg c.drv_registers.reg_drv_cmd_enable tcs (bit_or enabled before)
