-- ===== src/Rpmh/Tests.antt =====
-- The command sets of rpmh.c on a memory of registers.
use cr_dk.Rpmh.Trigger.{tcs_set_trigger-control}
use cr_dk.Rpmh.Busy.{tx_done_isr-last, tx_done_isr-single}
use cr_dk.Bits.{set_bits, get_field, u32, gen_msk, bit}
use cr_dk.Rpmh.Layout.{layout_tcs-IsPlaced, IsPlaced}
use cr_dk.Rpmh.Isr.{layout_tcs, tx_done_isr}
use cr_dk.Rpmh.Inflight.{is_cmd_inflight_lem, set_matches, any_from}
use cr_dk.Rpmh.Tcs.{tcs_set_trigger}
use cr_dk.Cmddb.Address.{is_addr_equal}
use cr_dk.Status.{Status}
use cr_dk.Rpmh.Claim.{
  inflight, claim_free_tcs-stale, claim_free_tcs-IsTaken, busy_flag, claim_free_tcs-succeeds,
  IsTaken, claimed,
}
use cr_dk.Rpmh.Send.{rpmh_write-IsSent, rpmh_write-repeat, written}
use cr_dk.Interrupt.{initial, TriggerType, HardwareInterrupt2}
use cr_dk.Rpmh.Request.{IsSent, v3p0-IsApart, IsApart}
use cr_dk.Rpmh.Types.{
  tcs_amc_mode_trigger, tcs_amc_mode_enable, tcs_reg, drv_registers_v3p0, RpmhState, RpmhDrvTcsData,
  RpmhTcsCmd, RpmhDeviceContext,
}
use cr_dk.Rpmh.Write.{tcs_rounds, is_cmd_inflight, vreg_cmd, claim_free_tcs, rpmh_write}
use cr_dk.Base.{
  ℕ, ◌+◌, ◌≤◌, ◌<◌, ◌≡◌, refl, ap, true, false, some, arith, ◌==◌, if◌then◌else◌, testbit,
  testbit-out, testbit-pow,
}
use cr_dk.Mmio.Storage.{Ram, ram, ram-IsStorage}

abbrev quiet : HardwareInterrupt2 Ram
quiet = record {
  locate = λ s. true;
  register_source = λ n s. (Status.success, s);
  set_trigger_type = λ n t s. (Status.success, s);
  enable_source = λ n s. (Status.success, s);
  disable_source = λ n s. (Status.success, s);
  end_of_interrupt = λ n s. s;
}

abbrev pub blank : Ram
blank a = 0

-- The status register names sets 0 and 2.
abbrev both_done : Ram
both_done a = 5

abbrev second_done : Ram
second_done a = 2

abbrev sets : ℕ → ℕ → RpmhDrvTcsData
sets offset count = record { mask = 0; offset = offset; tcs_count = count }

abbrev pub device : ℕ → RpmhDeviceContext
device busy = record {
  drv_base_address = 0x17a0_0000;
  tcs_offset = 0xd00;
  drv_id = 2;
  interrupt_config = record {
    param = 8;
    handler = some 200;
    interrupt_number = 43;
    trigger_type = TriggerType.level_high;
  };
  num_cmds_per_tcs = 16;
  tcs_busy = busy;
  tcs_config = record {
    active_tcs = sets 0 3;
    sleep_tcs = sets 3 3;
    wake_tcs = sets 6 3;
    control_tcs = sets 0 0;
  };
  drv_registers = drv_registers_v3p0;
  irq_from_rpmh_cr = true;
}

abbrev pub state : ℕ → Ram → RpmhState Ram
state busy s = record { ctx = device busy; irq = initial s }

abbrev enable_ldo : RpmhTcsCmd
enable_ldo = vreg_cmd ram 0x4_0204 1

abbrev set_ldo : RpmhTcsCmd
set_ldo = vreg_cmd ram 0x4_0200 1800

pub device-IsApart : (busy j : ℕ) → j < 32 → IsApart (device busy) j
device-IsApart busy j h = v3p0-IsApart (device busy) j h refl (omega arith)

claim_ok : (claimed ram 9 (sets 0 3) 0x4_0204 (state 1 blank)).0 ≡ (Status.success, 1)
unfolding claim_free_tcs bit
claim_ok = refl

claim_full : (claimed ram 9 (sets 0 3) 0x4_0204 (state 7 blank)).0 ≡ (Status.not_found, 9)
unfolding claim_free_tcs bit
claim_full = refl

write_ok : (written ram-IsStorage 9 enable_ldo (state 1 blank)).0 ≡ Status.success
unfolding rpmh_write bit
write_ok = refl

claim_free_tcs-IsTaken_example :
    IsTaken
      (device 1)
      (claimed ram 9 (sets 0 3) 0x4_0204 (state 1 blank)).1.ctx
      (sets 0 3)
      (claimed ram 9 (sets 0 3) 0x4_0204 (state 1 blank)).0.1
claim_free_tcs-IsTaken_example =
    claim_free_tcs-IsTaken ram 9 (sets 0 3) 0x4_0204 (state 1 blank) (omega arith)
      (ap (λ (p : Status × ℕ). p.0) claim_ok)

nothing_inflight : inflight ram 9 (sets 0 3) 0x4_0204 (state 5 blank) ≡ false
unfolding is_cmd_inflight bit
nothing_inflight = refl

claim_free_tcs-succeeds_example :
    (claimed ram 9 (sets 0 3) 0x4_0204 (state 5 blank)).0.0 ≡ Status.success
unfolding testbit
claim_free_tcs-succeeds_example =
    claim_free_tcs-succeeds ram 9 (sets 0 3) 0x4_0204 (state 5 blank) (omega arith) nothing_inflight
      1 (omega arith) (omega arith) refl

claim_free_tcs-stale_example :
    let run = claimed ram 9 (sets 0 3) 0x4_0204 (state 7 blank) in
    (run.0.1 ≡ 9)
    × ((k : ℕ) → 0 ≤ k → k < 0 + 3 → busy_flag (device 7) k ≡ true)
    × (busy_flag run.1.ctx 9 ≡ true)
    × (run.1.ctx.irq_from_rpmh_cr ≡ true)
claim_free_tcs-stale_example =
    claim_free_tcs-stale ram 9 (sets 0 3) 0x4_0204 (state 7 blank) (omega arith) (omega arith)
      (λ e. absurd (cc (e, ap (λ (p : Status × ℕ). p.0) claim_full)))
      (λ e. absurd (cc (e, ap (λ (p : Status × ℕ). p.0) claim_full)))

rpmh_write-IsSent_example :
    let run = written ram-IsStorage 9 enable_ldo (state 1 blank) in
    (j : ℕ) × IsTaken (device 1) run.1.ctx (sets 0 3) j
    × IsSent ram run.1.ctx j enable_ldo run.1.irq.hw
rpmh_write-IsSent_example =
    rpmh_write-IsSent ram-IsStorage 9 enable_ldo (state 1 blank) (omega arith) (device-IsApart 1)
      write_ok

same_regulator : is_addr_equal set_ldo.addr enable_ldo.addr ≡ true
unfolding is_addr_equal gen_msk get_field
same_regulator = refl

rpmh_write-repeat_example :
    (written ram-IsStorage 5 set_ldo (written ram-IsStorage 9 enable_ldo (state 1 blank)).1).0
    ≡ Status.busy
rpmh_write-repeat_example =
    rpmh_write-repeat ram-IsStorage 9 5 enable_ldo set_ldo (state 1 blank) (omega arith)
      (device-IsApart 1) write_ok (omega arith) same_regulator

is_cmd_inflight_lem_example : is_cmd_inflight ram 0x4_0204 (device 5) blank ≡ (
  any_from (set_matches ram-IsStorage (device 5) 0x4_0204 blank) (tcs_rounds (sets 0 3)) 0,
  blank,
)
is_cmd_inflight_lem_example = is_cmd_inflight_lem ram-IsStorage (device 5) 0x4_0204 blank

tcs_set_trigger-control_example :
    let at = tcs_reg (device 1) 0x24 2 in
    ram.peek (tcs_set_trigger ram (device 1) 2 false both_done).1 at ≡ (
      if at == at
      then (if false
          then u32 (set_bits (u32 tcs_amc_mode_enable) tcs_amc_mode_trigger)
          else tcs_amc_mode_enable)
      else 5)
tcs_set_trigger-control_example =
    tcs_set_trigger-control ram-IsStorage (device 1) 2 false both_done (tcs_reg (device 1) 0x24 2)

tx_done_isr-last_example : busy_flag (tx_done_isr ram quiet (state 7 both_done)).1.ctx 1 ≡ false
unfolding testbit
tx_done_isr-last_example =
    tx_done_isr-last ram quiet (state 7 both_done) 2 1 refl (omega arith) (omega arith)
      (omega arith) refl (λ i lo hi. testbit-out 3 5 i (omega arith) (omega arith)) (omega arith)

only_second : (i : ℕ) → i < 16 → testbit 2 i ≡ (i == 1)
only_second i h = testbit-pow 1 i

tx_done_isr-single_example :
    ((k : ℕ) → busy_flag (tx_done_isr ram quiet (state 2 second_done)).1.ctx k ≡ false)
    × ((tx_done_isr ram quiet (state 2 second_done)).1.ctx.irq_from_rpmh_cr ≡ false)
unfolding testbit
tx_done_isr-single_example =
    tx_done_isr-single ram quiet (state 2 second_done) 1 refl (omega arith) (omega arith)
      (omega arith) only_second refl

layout_tcs-IsPlaced_example :
    IsPlaced (layout_tcs (device 0).tcs_config).active_tcs 0 3
    × IsPlaced (layout_tcs (device 0).tcs_config).sleep_tcs 3 3
    × IsPlaced (layout_tcs (device 0).tcs_config).wake_tcs (3 + 3) 3
layout_tcs-IsPlaced_example = layout_tcs-IsPlaced (device 0).tcs_config (omega arith)
