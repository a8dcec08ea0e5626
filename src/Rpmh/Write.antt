-- ===== src/Rpmh/Write.antt =====
-- The functions of rpmh.c that claim a TCS and send commands through it, and the voltage regulator
-- requests built on them.
use cr_dk.Base.{
  ℕ, zero, suc, ◌+◌, ◌-◌, bit_and, Bool, true, false, not, ◌||◌, Option, none, some, List, [], ◌∷◌,
  ltb, ◌==◌, if◌then◌else◌,
}
use cr_dk.Bits.{bit, u32, set_bits}
use cr_dk.Status.{Status, cr_error}
use cr_dk.Interrupt.{on_hw}
use cr_dk.Mmio.{Bus, M, pure, ◌>>=◌, ◌>>◌}
use cr_dk.Rpmh.Types.{
  RpmhTcsCmd, RpmhDrvTcsData, RpmhDeviceContext, RpmhState, rpmh_max_cmds_each_tcs,
}
use cr_dk.Rpmh.Tcs.{read_tcs_reg, cmd_running, tcs_write_buffer, tcs_set_trigger}

-- Code on the registers, run with the driver's context.
abbrev pub on_regs : {S A : Type 0} → (RpmhDeviceContext → M S A) → M (RpmhState S) A
on_regs m st = let (a, irq) = on_hw (m st.ctx) st.irq in (a, record st { irq = irq })

-- `RpmhIsTcsBusy`.
unfoldable pub is_tcs_busy : RpmhDeviceContext → ℕ → Bool
is_tcs_busy c tcs = not (bit_and c.tcs_busy (bit tcs) == 0)

-- How often the loops over the sets from `offset` on go round: the end of the range wraps at 32 bits.
abbrev pub tcs_rounds : RpmhDrvTcsData → ℕ
tcs_rounds d = u32 (d.offset + d.tcs_count) - d.offset

-- The loop of `GetNextFreeTcs`: `n` rounds left, at set `i`; `none` for CR_NOT_FOUND.
unfoldable pub next_free : RpmhDeviceContext → ℕ → ℕ → Option ℕ
next_free c zero i = none
next_free c (suc n) i = if is_tcs_busy c i then next_free c n (i + 1) else some i

unfoldable pub get_next_free_tcs : RpmhDeviceContext → RpmhDrvTcsData → Option ℕ
unfolding next_free
get_next_free_tcs c d = next_free c (tcs_rounds d) d.offset

module _ {S : Type 0} (bus : Bus S) where
  -- The loop of `RpmhIsCmdInflight` over the active sets.
  unfoldable pub busy_with : RpmhDeviceContext → ℕ → ℕ → ℕ → M S Bool
  unfolding is_tcs_busy cmd_running
  busy_with c request zero i = pure false
  busy_with c request (suc n) i = elim (is_tcs_busy c i) [
    | false ↦ busy_with c request n (i + 1)
    | true ↦ do
      current_enable ← read_tcs_reg bus c c.drv_registers.reg_drv_cmd_enable i
      running ← cmd_running bus c current_enable request i rpmh_max_cmds_each_tcs 0
      elim running [ true ↦ pure true | false ↦ busy_with c request n (i + 1) ]
  ]

  unfoldable pub is_cmd_inflight : ℕ → RpmhDeviceContext → M S Bool
  unfolding busy_with
  is_cmd_inflight request c =
      let active = c.tcs_config.active_tcs in busy_with c request (tcs_rounds active) active.offset

  -- `ClaimFreeTcs`. `stale` is what `*FreeTcsIndex` holds before the call. The test that follows the
  -- search compares the pointer, so it is never true: a search that found nothing goes on with the
  -- stale index, and its status is returned.
  unfoldable pub claim_free_tcs : ℕ → RpmhDrvTcsData → ℕ → M (RpmhState S) (Status × ℕ)
  unfolding is_cmd_inflight get_next_free_tcs
  claim_free_tcs stale d request = do
    inflight ← on_regs (is_cmd_inflight request)
    if inflight then pure (Status.busy, stale) else λ st.
        let found = get_next_free_tcs st.ctx d in
        let status : Status = elim found [ none ↦ Status.not_found | some i ↦ Status.success ] in
        let index : ℕ = elim found [ none ↦ stale | some i ↦ i ] in
        let busy = u32 (set_bits st.ctx.tcs_busy (bit index)) in
        let ctx' = record st.ctx { tcs_busy = busy; irq_from_rpmh_cr = true } in
        ((status, index), record st { ctx = ctx' })

  -- `RpmhWrite` of the command `first` and those behind it; `stale` is the index that the stack holds.
  unfoldable pub rpmh_write : ℕ → RpmhTcsCmd → List RpmhTcsCmd → M (RpmhState S) Status
  unfolding claim_free_tcs tcs_write_buffer tcs_set_trigger
  rpmh_write stale first rest st =
      let ((status, tcs), st') = claim_free_tcs stale st.ctx.tcs_config.active_tcs first.addr st in
      if cr_error status
      then (status, st')
      else (do
        on_regs (λ c. tcs_write_buffer bus c tcs 0 (first ∷ rest))
        on_regs (λ c. tcs_set_trigger bus c tcs true)
        pure Status.success)
          st'

  abbrev pub vreg_cmd : ℕ → ℕ → RpmhTcsCmd
  vreg_cmd addr value = record { addr = u32 addr; value = value; wait = 0; response_required = 1 }

  -- The three requests. `given` is whether the context is not NULL.
  unfoldable pub rpmh_enable_vreg : Bool → ℕ → ℕ → ℕ → M (RpmhState S) Status
  unfolding rpmh_write
  rpmh_enable_vreg given stale address enable =
      if address == 0 || not given || ltb 1 enable
      then pure Status.invalid_parameter
      else rpmh_write stale (vreg_cmd (address + 4) enable) []

  unfoldable pub rpmh_set_vreg_voltage : Bool → ℕ → ℕ → ℕ → M (RpmhState S) Status
  unfolding rpmh_write
  rpmh_set_vreg_voltage given stale address voltage_mv =
      if address == 0 || not given
      then pure Status.invalid_parameter
      else rpmh_write stale (vreg_cmd (address + 0) voltage_mv) []

  unfoldable pub rpmh_set_vreg_mode : Bool → ℕ → ℕ → ℕ → M (RpmhState S) Status
  unfolding rpmh_write
  rpmh_set_vreg_mode given stale address mode =
      if address == 0 || not given || ltb 8 mode
      then pure Status.invalid_parameter
      else rpmh_write stale (vreg_cmd (address + 8) mode) []
