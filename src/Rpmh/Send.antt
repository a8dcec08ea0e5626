-- ===== src/Rpmh/Send.antt =====
-- RpmhWrite of rpmh.c as a whole, for the requests of one command: what a request that succeeds
-- leaves behind, and what the next one for the same resource gets.
use cr_dk.Bits.{u32}
use cr_dk.Rpmh.Inflight.{any_from-false, any_from, is_cmd_inflight_lem, matches, set_matches}
use cr_dk.Cmddb.Address.{is_addr_equal}
use mathlib.Core.Path.{subst}
use cr_dk.Rpmh.Request.{mark_busy-IsApart, send-IsSent, IsSent, IsApart, send}
use cr_dk.Status.{Status}
use cr_dk.Rpmh.Claim.{
  tcs_rounds-exact, is_tcs_busy-flag, mark_busy-IsTaken, IsTaken, busy_flag, mark_busy, inflight,
}
use cr_dk.Rpmh.Write.{tcs_rounds, get_next_free_tcs, claim_free_tcs, rpmh_write, is_cmd_inflight}
use cr_dk.Rpmh.Types.{RpmhDeviceContext, RpmhDrvTcsData, RpmhState, RpmhTcsCmd}
use cr_dk.Mmio.Storage.{IsStorage}
use cr_dk.Base.{
  ◌∙◌, ap, sym, ◌^◌, Option-cases, ◌<◌, inr, ◌≤◌, inl, ◌+◌, Bool-cases, ℕ, ◌≡◌, Bool, true, false,
  none, some, [], arith,
}
use cr_dk.Mmio.{Bus}

module _ {S : Type 0} {bus : Bus S} (st : IsStorage bus) (stale : ℕ) (cmd : RpmhTcsCmd)
    (rs : RpmhState S) where
  abbrev pub written : Status × RpmhState S
  written = rpmh_write bus stale cmd [] rs

  abbrev pub active : RpmhDrvTcsData
  active = rs.ctx.tcs_config.active_tcs

  abbrev pub busy_with_address : Bool
  busy_with_address = inflight bus stale active cmd.addr rs

  write-inflight : busy_with_address ≡ true → written.0 ≡ Status.busy
  unfolding rpmh_write claim_free_tcs
  write-inflight h = ground (arith, h)

  write-full :
      busy_with_address ≡ false
      → get_next_free_tcs rs.ctx active ≡ none
      → written.0 ≡ Status.not_found
  unfolding rpmh_write claim_free_tcs
  write-full h e = ground (arith, h, e)

  -- The hardware after looking for the address.
  abbrev looked : S
  looked = (is_cmd_inflight bus cmd.addr rs.ctx rs.irq.hw).1

  write-found :
      {j : ℕ}
      → busy_with_address ≡ false
      → get_next_free_tcs rs.ctx active ≡ some j
      → (written.0 ≡ Status.success)
        × (written.1.ctx ≡ mark_busy rs.ctx j)
        × (written.1.irq.hw ≡ send st (mark_busy rs.ctx j) j cmd looked)
  unfolding rpmh_write claim_free_tcs
  write-found {j} h e = (ground (arith, h, e), ground (arith, h, e), ground (arith, h, e))

  found-success :
      written.0 ≡ Status.success
      → (busy_with_address ≡ false) × ((j : ℕ) × (get_next_free_tcs rs.ctx active ≡ some j))
  found-success ok = elim (Bool-cases busy_with_address) [
    | inl running ↦ absurd (cc (ok, write-inflight running))
    | inr quiet ↦ elim (Option-cases (get_next_free_tcs rs.ctx active)) [
      | inl none_left ↦ absurd (cc (ok, write-full quiet none_left))
      | inr found ↦ (quiet, found)
    ]
  ]

  pub config_kept : written.0 ≡ Status.success → written.1.ctx.tcs_config.active_tcs ≡ active
  config_kept ok =
      let (quiet, hit) = found-success ok in
      let (j, found) = hit in
      ap (λ (c : RpmhDeviceContext). c.tcs_config.active_tcs) ((write-found quiet found).1)

  -- A request of one command that returns CR_SUCCESS claimed the first free set of the active ones, and
  -- that set holds the command: its header, address and data stand in the registers of command 0, which
  -- is enabled, and the set is triggered. The registers hold what is written to them and those of a set
  -- lie apart, and the active sets lie within the 32 flags.
  pub rpmh_write-IsSent :
      active.offset + active.tcs_count ≤ 32
      → ((j : ℕ) → j < 32 → IsApart rs.ctx j)
      → written.0 ≡ Status.success
      → (j : ℕ) × IsTaken rs.ctx written.1.ctx active j
        × IsSent bus written.1.ctx j cmd written.1.irq.hw
  rpmh_write-IsSent fits apart ok =
      let (quiet, hit) = found-success ok in
      let (j, found) = hit in
      let after = write-found quiet found in
      let ctx_after = after.1 in
      let hw_after = after.2 in
      let taken = mark_busy-IsTaken rs.ctx active fits found in
      let c' = mark_busy rs.ctx j in
      (
        j,
        subst (λ c. IsTaken rs.ctx c active j) (sym ctx_after) taken,
        subst (λ c. IsSent bus c j cmd written.1.irq.hw) (sym ctx_after)
            (subst (λ s. IsSent bus c' j cmd s) (sym hw_after)
              (send-IsSent st c' j cmd
                (mark_busy-IsApart rs.ctx j (apart j (omega (arith, taken.in_range)))) looked)),
      )

-- A set of the active ones that is busy with a command makes a request for the same resource wait.
busy_set-busy :
    {S : Type 0} {bus : Bus S} (st : IsStorage bus) (stale : ℕ) (cmd cmd' : RpmhTcsCmd)
    (rs : RpmhState S) (j : ℕ)
    → let d = rs.ctx.tcs_config.active_tcs in
      d.offset + d.tcs_count ≤ 32
      → d.offset ≤ j
      → j < d.offset + d.tcs_count
      → busy_flag rs.ctx j ≡ true
      → IsSent bus rs.ctx j cmd rs.irq.hw
      → cmd.addr < 2 ^ 32
      → is_addr_equal cmd'.addr cmd.addr ≡ true
      → inflight bus stale d cmd'.addr rs ≡ true
busy_set-busy {bus} st stale cmd cmd' rs j fits lo hi busy sent small same =
    let d = rs.ctx.tcs_config.active_tcs in
    let test = set_matches st rs.ctx cmd'.addr rs.irq.hw in
    let flag = is_tcs_busy-flag rs.ctx j (omega arith) in
    let addr_same : u32 cmd.addr ≡ cmd.addr = omega arith in
    let first : matches st rs.ctx cmd'.addr rs.irq.hw j 0 ≡ true = ground (
      arith,
      sent.command_enabled,
      sent.addr_written,
      addr_same,
      same,
      ap (is_addr_equal cmd'.addr) (sent.addr_written ∙ addr_same),
    ) in
    let hit : test j ≡ true = ground (arith, flag, busy, first) in
    ap (λ (p : Bool × _). p.0) (is_cmd_inflight_lem st rs.ctx cmd'.addr rs.irq.hw)
    ∙ elim (Bool-cases (any_from test (tcs_rounds d) d.offset)) [
      | inl some_match ↦ some_match
      | inr no_match ↦ absurd (
          cc (
            hit,
            any_from-false test (tcs_rounds d) d.offset no_match j lo
                (omega (arith, tcs_rounds-exact d fits)),
          ))
    ]

-- After a request of one command that returned CR_SUCCESS, the next one, if it is for the same resource
-- (the same address, or the same voltage regulator), returns CR_BUSY. The registers hold what is
-- written to them and those of a set lie apart, the active sets lie within the 32 flags, and the
-- address has 32 bits.
pub rpmh_write-repeat :
    {S : Type 0} {bus : Bus S} (st : IsStorage bus) (stale stale' : ℕ) (cmd cmd' : RpmhTcsCmd)
    (rs : RpmhState S)
    → let d = rs.ctx.tcs_config.active_tcs in
      d.offset + d.tcs_count ≤ 32
      → ((j : ℕ) → j < 32 → IsApart rs.ctx j)
      → (written st stale cmd rs).0 ≡ Status.success
      → cmd.addr < 2 ^ 32
      → is_addr_equal cmd'.addr cmd.addr ≡ true
      → (written st stale' cmd' (written st stale cmd rs).1).0 ≡ Status.busy
rpmh_write-repeat st stale stale' cmd cmd' rs fits apart ok small same =
    let rs1 = (written st stale cmd rs).1 in
    let (j, taken, sent) = rpmh_write-IsSent st stale cmd rs fits apart ok in
    let config = config_kept st stale cmd rs ok in
    write-inflight st stale' cmd' rs1 (
      busy_set-busy st stale' cmd cmd' rs1 j (ground (arith, config, fits))
        (ground (arith, config, taken.from_first)) (ground (arith, config, taken.in_range))
        taken.now_busy sent small same)
