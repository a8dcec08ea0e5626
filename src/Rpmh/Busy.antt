-- ===== src/Rpmh/Busy.antt =====
-- What the interrupt handler RpmhDrvTcsTxDoneIsr of rpmh.c does to the busy flags.
use cr_dk.Rpmh.Claim.{busy_flag}
use cr_dk.Interrupt.{unregister_interrupt, HardwareInterrupt2}
use cr_dk.Rpmh.Trigger.{bit-lt}
use cr_dk.Rpmh.Write.{on_regs}
use cr_dk.Bits.Laws.{testbit-bit, testbit-clr_bits, bit_and-bit, testbit-u32}
use cr_dk.Rpmh.Types.{drv_reg, RpmhState}
use cr_dk.Rpmh.Isr.{tx_done_isr, finish_tcs, clear_busy, tx_done_loop}
use cr_dk.Base.{
  ℕ, zero, suc, ◌+◌, ◌^◌, ◌≤◌, ◌<◌, ◌≡◌, refl, ap, ◌∙◌, ◌≢◌, inl, inr, Bool, true, false, not, ◌&&◌,
  arith, ◌==◌, ==→eq, Bool-cases, testbit,
}
use cr_dk.Bits.{bit, clr_bits}
use cr_dk.Mmio.{Bus}

-- One finished set: its flag is turned over, and every other flag goes down.
pub testbit-clear_busy :
    (i b k : ℕ) → i < 32 → b < 2 ^ 32 → testbit (clear_busy i b) k ≡ ((k == i) && not (testbit b k))
unfolding clear_busy
testbit-clear_busy i b k hi hb =
    testbit-u32 (clr_bits (bit i) b) k
    ∙ ground (
      arith,
      testbit-clr_bits (bit i) b k (bit-lt i hi) (omega arith),
      testbit-bit i k (omega arith),
    )

clear_busy-lt : (i b : ℕ) → clear_busy i b < 2 ^ 32
unfolding clear_busy
clear_busy-lt i b = omega arith

module _ {S : Type 0} (bus : Bus S) (status : ℕ) where
  -- The state after set `i` was finished.
  abbrev pub finished : ℕ → RpmhState S → RpmhState S
  finished i st =
      let done : RpmhState S = (on_regs (finish_tcs bus i) st).1 in
      record done { ctx = record done.ctx { tcs_busy = clear_busy i done.ctx.tcs_busy } }

  loop-skip :
      (n i : ℕ) (st : RpmhState S)
      → i < 64
      → testbit status i ≡ false
      → tx_done_loop bus status (suc n) i st ≡ tx_done_loop bus status n (i + 1) st
  unfolding tx_done_loop
  loop-skip n i st hi h = ground (arith, bit_and-bit status i hi, h)

  loop-finish :
      (n i : ℕ) (st : RpmhState S)
      → i < 64
      → testbit status i ≡ true
      → tx_done_loop bus status (suc n) i st ≡ tx_done_loop bus status n (i + 1) (finished i st)
  unfolding tx_done_loop
  loop-finish n i st hi h = ground (arith, bit_and-bit status i hi, h)

  -- A status with no bit of the range leaves the state as it is.
  pub loop-none :
      (n i : ℕ) (st : RpmhState S)
      → i + n ≤ 32
      → ((k : ℕ) → i ≤ k → k < i + n → testbit status k ≡ false)
      → tx_done_loop bus status n i st ≡ (tt, st)
  unfolding tx_done_loop
  loop-none zero i st fits h = refl
  loop-none (suc n) i st fits h =
      loop-skip n i st (omega arith) (h i (omega arith) (omega arith))
      ∙ loop-none n (i + 1) st (omega arith) (λ k lo hi. h k (omega arith) (omega arith))

  -- The state after the loop, when set `j` alone is named.
  pub loop-one :
      (n i j : ℕ) (st : RpmhState S)
      → i + n ≤ 32
      → i ≤ j
      → j < i + n
      → ((k : ℕ) → i ≤ k → k < i + n → testbit status k ≡ (k == j))
      → (tx_done_loop bus status n i st).1 ≡ finished j st
  loop-one zero i j st fits lo hi only = absurd (omega arith)
  loop-one (suc n) i j st fits lo hi only = elim (Bool-cases (i == j)) [
    | inl here ↦
        ap (λ (p : Unit {0} × RpmhState S). p.1)
          (loop-finish n i st (omega arith) (only i (omega arith) (omega arith) ∙ here)
            ∙ loop-none n (i + 1) (finished i st) (omega arith)
                (λ k lo' hi'. only k (omega arith) (omega arith) ∙ ground (arith, ==→eq i j here)))
        ∙ ap (λ (t : ℕ). finished t st) (==→eq i j here)
    | inr before ↦
        ap (λ (p : Unit {0} × RpmhState S). p.1)
          (loop-skip n i st (omega arith) (only i (omega arith) (omega arith) ∙ before))
        ∙ loop-one n (i + 1) j st (omega arith) (ground arith) (omega arith)
            (λ k lo' hi'. only k (omega arith) (omega arith))
  ]

  -- The busy flags after the loop, when set `j` is the last that the status names.
  pub loop-last :
      (n i j : ℕ) (st : RpmhState S)
      → i + n ≤ 32
      → st.ctx.tcs_busy < 2 ^ 32
      → i ≤ j
      → j < i + n
      → testbit status j ≡ true
      → ((k : ℕ) → j < k → k < i + n → testbit status k ≡ false)
      → (k : ℕ) → k ≢ j
      → testbit (tx_done_loop bus status n i st).1.ctx.tcs_busy k ≡ false
  loop-last zero i j st fits small lo hi last above k other = absurd (omega arith)
  loop-last (suc n) i j st fits small lo hi last above k other =
      elim (Bool-cases (testbit status i)) [
        | inr off ↦
            let ne : i ≢ j = λ e. absurd (cc (ap (testbit status) e, off, last)) in
            ap flags (loop-skip n i st (omega arith) off)
            ∙ loop-last n (i + 1) j st (omega arith) small (omega (arith, ne)) (omega arith) last
                (λ k' lo' hi'. above k' lo' (omega arith)) k other
        | inl on ↦ ap flags (loop-finish n i st (omega arith) on) ∙ elim (Bool-cases (i == j)) [
          | inl here ↦
              ap flags (
                loop-none n (i + 1) (finished i st) (omega arith)
                  (λ k' lo' hi'. above k' (omega (arith, ==→eq i j here)) (omega arith)))
              ∙ ground (arith, testbit-clear_busy i st.ctx.tcs_busy k (omega arith) small)
          | inr before ↦
              loop-last n (i + 1) j (finished i st) (omega arith) (clear_busy-lt i st.ctx.tcs_busy)
                (ground arith) (omega arith) last (λ k' lo' hi'. above k' lo' (omega arith)) k other
        ]
      ]
    where
      flags : Unit {0} × RpmhState S → Bool
      flags p = testbit p.1.ctx.tcs_busy k

module _ {S : Type 0} (bus : Bus S) (gic : HardwareInterrupt2 S) (st : RpmhState S) where
  -- The sets that the handler is told of.
  abbrev pub told : ℕ
  told = bus.peek st.irq.hw (drv_reg st.ctx st.ctx.drv_registers.reg_drv_irq_status)

  -- The state in which the handler's loop begins.
  abbrev pub entered : RpmhState S
  entered = record {
    ctx = record st.ctx { irq_from_rpmh_cr = false };
    irq = record st.irq {
      hw = bus.after_read (drv_reg st.ctx st.ctx.drv_registers.reg_drv_irq_status) st.irq.hw;
    };
  }

  isr-runs :
      st.ctx.irq_from_rpmh_cr ≡ true
      → tx_done_isr bus gic st ≡ tx_done_loop bus told st.ctx.num_cmds_per_tcs 0 entered
  unfolding tx_done_isr
  isr-runs ours = ground (arith, ours)

  -- An interrupt that no claimed set has announced leaves the driver's context as it was and takes the
  -- handler out of the table of interrupts.
  pub tx_done_isr-foreign :
      st.ctx.irq_from_rpmh_cr ≡ false
      → ((tx_done_isr bus gic st).1.ctx ≡ st.ctx)
        × ((tx_done_isr bus gic st).1.irq
            ≡ (unregister_interrupt gic st.ctx.interrupt_config st.irq).1)
  unfolding tx_done_isr
  tx_done_isr-foreign foreign = (ground (arith, foreign), ground (arith, foreign))

  -- After the handler of an announced interrupt every busy flag is down but that of the last set that
  -- the status names, whether or not the other sets have finished. The handler looks at no more than
  -- 32 bits, and the flags are a 32-bit value.
  pub tx_done_isr-last :
      (j k : ℕ)
      → st.ctx.irq_from_rpmh_cr ≡ true
      → st.ctx.num_cmds_per_tcs ≤ 32
      → st.ctx.tcs_busy < 2 ^ 32
      → j < st.ctx.num_cmds_per_tcs
      → testbit told j ≡ true
      → ((i : ℕ) → j < i → i < st.ctx.num_cmds_per_tcs → testbit told i ≡ false)
      → k ≢ j
      → busy_flag (tx_done_isr bus gic st).1.ctx k ≡ false
  tx_done_isr-last j k ours few small hi last above other =
      ap (λ (p : Unit {0} × RpmhState S). busy_flag p.1.ctx k) (isr-runs ours)
      ∙ loop-last bus told st.ctx.num_cmds_per_tcs 0 j entered (omega arith) small (omega arith)
          (omega arith) last (λ i lo up. above i lo (omega arith)) k other

  -- When the status names one set, and that set was busy, its flag is down after the handler, and the
  -- handler waits for the next claim. The handler looks at no more than 32 bits, and the flags are a
  -- 32-bit value.
  pub tx_done_isr-single :
      (j : ℕ)
      → st.ctx.irq_from_rpmh_cr ≡ true
      → st.ctx.num_cmds_per_tcs ≤ 32
      → st.ctx.tcs_busy < 2 ^ 32
      → j < st.ctx.num_cmds_per_tcs
      → ((i : ℕ) → i < st.ctx.num_cmds_per_tcs → testbit told i ≡ (i == j))
      → busy_flag st.ctx j ≡ true
      → ((k : ℕ) → busy_flag (tx_done_isr bus gic st).1.ctx k ≡ false)
        × ((tx_done_isr bus gic st).1.ctx.irq_from_rpmh_cr ≡ false)
  tx_done_isr-single j ours few small hi only busy =
      let after : (tx_done_isr bus gic st).1 ≡ finished bus told j entered =
        ap (λ (p : Unit {0} × RpmhState S). p.1) (isr-runs ours)
        ∙ loop-one bus told st.ctx.num_cmds_per_tcs 0 j entered (omega arith) (omega arith)
            (omega arith) (λ i lo up. only i (omega arith)) in
      (
        λ k.
            ap (λ (t : RpmhState S). busy_flag t.ctx k) after
            ∙ testbit-clear_busy j st.ctx.tcs_busy k (omega arith) small
            ∙ ground (arith, busy, ap (busy_flag st.ctx) {x = k} {y = j}),
        ap (λ (t : RpmhState S). t.ctx.irq_from_rpmh_cr) after,
      )
