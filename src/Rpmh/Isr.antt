-- ===== src/Rpmh/Isr.antt =====
-- The interrupt handler and the initialisation of rpmh.c.
use cr_dk.Status.{Status, cr_error}
use cr_dk.Base.{
  none, ltb, some, Option, ℕ, zero, suc, ◌+◌, ◌-◌, ◌*◌, ◌/◌, ◌%◌, ◌^◌, bit_and, true, false, not,
  leb, ◌==◌, if◌then◌else◌,
}
use cr_dk.Bits.{bit, gen_msk, ffs, u32, u64, clr_bits, get_field}
use cr_dk.Interrupt.{on_hw, IrqState, register_interrupt, HardwareInterrupt2, unregister_interrupt}
use cr_dk.Mmio.{Bus, M, pure, ◌>>=◌, ◌>>◌, read32, write32}
use cr_dk.Rpmh.Types.{
  RpmhDrvTcsData, RpmhDrvTcsConfig, RpmhDeviceContext, RpmhState, drv_registers_v2p7,
  drv_registers_v3p0, drv_reg,
}
use cr_dk.Rpmh.Tcs.{write_tcs_reg, tcs_set_trigger, tcs_enable_interrupt}
use cr_dk.Rpmh.Write.{on_regs}

-- The busy flags after set `i` is done. The arguments of `CLR_BITS` stand as in the source.
unfoldable pub clear_busy : ℕ → ℕ → ℕ
clear_busy i tcs_busy = u32 (clr_bits (bit i) tcs_busy)

module _ {S : Type 0} (bus : Bus S) where
  -- What the handler does on the registers for a set whose bit is set.
  unfoldable pub finish_tcs : ℕ → RpmhDeviceContext → M S (Unit {0})
  unfolding tcs_set_trigger tcs_enable_interrupt
  finish_tcs i c = do
    tcs_set_trigger bus c i false
    write_tcs_reg bus c c.drv_registers.reg_drv_cmd_enable i 0
    write32 bus (drv_reg c c.drv_registers.reg_drv_irq_clear) (bit i)
    if c.tcs_config.active_tcs.tcs_count == 0 then tcs_enable_interrupt bus c i false else pure tt

  -- The handler's loop: `n` rounds left, at bit `i` of the status.
  unfoldable pub tx_done_loop : ℕ → ℕ → ℕ → M (RpmhState S) (Unit {0})
  unfolding finish_tcs clear_busy
  tx_done_loop irq_status zero i st = (tt, st)
  tx_done_loop irq_status (suc n) i st =
      let done : RpmhState S = (on_regs (finish_tcs i) st).1 in
      let ctx' = record done.ctx { tcs_busy = clear_busy i done.ctx.tcs_busy } in
      elim (bit_and irq_status (bit i) == 0) [
        | true ↦ tx_done_loop irq_status n (i + 1) st
        | false ↦ tx_done_loop irq_status n (i + 1) (record done { ctx = ctx' })
      ]

module _ {S : Type 0} (bus : Bus S) (gic : HardwareInterrupt2 S) where
  -- `RpmhDrvTcsTxDoneIsr`, built for UEFI.
  unfoldable pub tx_done_isr : M (RpmhState S) (Unit {0})
  unfolding tx_done_loop unregister_interrupt
  tx_done_isr st =
      if not st.ctx.irq_from_rpmh_cr
      then (tt, record st { irq = (unregister_interrupt gic st.ctx.interrupt_config st.irq).1 })
      else (do
        irq_status ← on_regs (λ c. read32 bus (drv_reg c c.drv_registers.reg_drv_irq_status))
        tx_done_loop bus irq_status st.ctx.num_cmds_per_tcs 0)
          (record st { ctx = record st.ctx { irq_from_rpmh_cr = false } })

-- The sets' places in the controller: active, sleep and wake sets follow one another.
unfoldable pub layout_tcs : RpmhDrvTcsConfig → RpmhDrvTcsConfig
layout_tcs t =
    let place : RpmhDrvTcsData → ℕ → RpmhDrvTcsData = λ d offset. record d {
      mask = u32 ((bit d.tcs_count + 2 ^ 64 - 1) % 2 ^ 64 * 2 ^ offset);
      offset = offset;
    } in
    let sleep_offset = u32 t.active_tcs.tcs_count in
    let wake_offset = u32 (sleep_offset + t.sleep_tcs.tcs_count) in
    record t {
      active_tcs = place t.active_tcs 0;
      sleep_tcs = place t.sleep_tcs sleep_offset;
      wake_tcs = place t.wake_tcs wake_offset;
    }

-- The number of command sets that the controller has for the driver: `RSC_DRV_TCS_NUM_MSK` moved to
-- the driver's place in the configuration.
unfoldable pub max_tcs : ℕ → ℕ → ℕ
max_tcs drv_config drv_id =
    let shift = ffs (gen_msk 11 6) - 1 in
    let place = shift * drv_id in
    u32 (bit_and drv_config (u64 (gen_msk 11 6 / 2 ^ shift * 2 ^ place)) / 2 ^ place)

-- What `RpmhLibInit` learns from the controller's identification and configuration registers.
unfoldable pub probe : ℕ → ℕ → RpmhDeviceContext → RpmhDeviceContext
unfolding layout_tcs
probe drv_id_reg drv_config c = record c {
  drv_registers =
      if leb 3 (get_field drv_id_reg (gen_msk 23 16))
      then drv_registers_v3p0
      else drv_registers_v2p7;
  num_cmds_per_tcs = get_field drv_config (gen_msk 31 27);
  tcs_config = layout_tcs c.tcs_config;
}

-- The sum that the assertion compares with the sets that there are.
abbrev pub total_tcs : RpmhDrvTcsConfig → ℕ
total_tcs t =
    t.active_tcs.tcs_count + t.sleep_tcs.tcs_count + t.wake_tcs.tcs_count + t.control_tcs.tcs_count

module _ {S : Type 0} (bus : Bus S) (gic : HardwareInterrupt2 S) where
  -- `RpmhLibInit` on a context: `none` if the assertion fails. `isr` and `self` are the addresses of
  -- the handler and of the context.
  unfoldable pub init_context :
      ℕ → ℕ → RpmhDeviceContext → M (IrqState S) (Option (Status × RpmhDeviceContext))
  unfolding max_tcs probe register_interrupt
  init_context isr self given = do
    drv_id_reg ← on_hw (read32 bus given.drv_base_address)
    let c1 = probe drv_id_reg 0 given
    drv_config ←
        on_hw
          (read32 bus (u64 (given.drv_base_address + c1.drv_registers.reg_drv_print_child_config)))
    let c2 = probe drv_id_reg drv_config given
    let config = record (given.interrupt_config) { handler = some isr; param = self }
    let c3 = record c2 { interrupt_config = config }
    if ltb (max_tcs drv_config given.drv_id) (total_tcs c2.tcs_config) then pure none else do
      status ← register_interrupt gic config
      if cr_error status then pure (some (status, c3)) else do
        on_hw (
            write32 bus (drv_reg c3 c3.drv_registers.reg_drv_irq_clear)
              c3.tcs_config.active_tcs.mask)
        pure (some (status, c3))

  -- `given` is `*RpmhContextOut`, and `target` what the target's `CrTargetGetRpmhContext` returns.
  unfoldable pub rpmh_lib_init :
      ℕ
      → ℕ
      → Option (Option RpmhDeviceContext)
      → Option RpmhDeviceContext
      → M (IrqState S) (Option (Status × Option RpmhDeviceContext))
  unfolding init_context
  rpmh_lib_init isr self none target = pure (some (Status.invalid_parameter, none))
  rpmh_lib_init isr self (some none) none = pure (some (Status.not_found, none))
  rpmh_lib_init isr self (some none) (some c) = do
    out ← init_context isr self c
    pure (elim out [ none ↦ none | some (status, c') ↦ some (status, some c') ])
  rpmh_lib_init isr self (some (some c)) target = do
    out ← init_context isr self c
    pure (elim out [ none ↦ none | some (status, c') ↦ some (status, some c') ])
