-- ===== src/Clock/Update.antt =====
-- How the waits of clock.c and gdsc.c end.
use cr_dk.Clock.Gdsc.{poll_gdsc, agree, poll_cfg_gdsc_reg, clock_gdsc_poll_timeout_us}
use cr_dk.Clock.Enable.{has}
use cr_dk.Clock.Rcg.{cmd_reg, clock_rcg2_update_config}
use cr_dk.Clock.Types.{RcgInfo, GdscInfo, clock_rcg2_update_timeout_us}
use cr_dk.Status.{Status}
use cr_dk.Mmio.Poll.{poll, poll-Polled, Polled}
use cr_dk.Bits.{bit}
use cr_dk.Mmio.{Bus, update_bits32}
use mathlib.Core.Path.{subst}
use cr_dk.Base.{
  ℕ, zero, suc, bit_and, ◌≡◌, refl, sym, ap, ◌∙◌, Bool, true, false, ◌==◌, if◌then◌else◌, pick,
}

module _ {S : Type 0} (bus : Bus S) where
  -- What a status tells of a wait of `n` reads of a register for a test.
  unfoldable pub Waited : (ℕ → Bool) → ℕ → ℕ → S → Status → Type 0
  unfolding Polled
  Waited done a n s Status.success = Polled bus done a n s true
  Waited done a n s Status.timeout = Polled bus done a n s false
  Waited done a n s _ = ⊥

  waited_lem :
      (done : ℕ → Bool) (a n : ℕ) (s : S) (b : Bool)
      → Polled bus done a n s b
      → Waited done a n s (elim b [ true ↦ Status.success | false ↦ Status.timeout ])
  unfolding Waited
  waited_lem done a n s true p = p
  waited_lem done a n s false p = p

  -- The command register after the update bit is set, and the test that the bit is clear.
  abbrev pub updating : ℕ → RcgInfo → S → S
  updating address r s = (update_bits32 bus (cmd_reg address r) (bit 0) (bit 0) s).1

  abbrev pub is_clear : ℕ → Bool
  is_clear val = bit_and val (bit 0) == 0

  -- `ClockRcg2UpdateConfig` returns CR_SUCCESS at the first of its 500 reads that finds the update bit
  -- clear, and CR_TIMEOUT exactly when all of them find it set. It returns no other status.
  pub clock_rcg2_update_config-Waited :
      (address : ℕ) (r : RcgInfo) (s : S)
      → Waited is_clear
          (cmd_reg address r)
          clock_rcg2_update_timeout_us
          (updating address r s)
          (clock_rcg2_update_config bus address r s).0
  unfolding clock_rcg2_update_config
  clock_rcg2_update_config-Waited address r s =
      waited_lem is_clear (cmd_reg address r) clock_rcg2_update_timeout_us (updating address r s) _
        (poll-Polled bus is_clear (cmd_reg address r) clock_rcg2_update_timeout_us
          (updating address r s))

  -- The test of gdsc.c on the register of a switch.
  abbrev pub switched : Bool → ℕ → Bool
  switched enable val = agree enable (has val (bit 31))

  module _ (a : ℕ) (g : GdscInfo) (enable : Bool) (n : ℕ) (s : S) where
    -- A round of the loop, by the register that it reads.
    round : Bool → Status × S
    round cfg = elim cfg [
      | true ↦ (
        if has (bus.peek s a) (if enable then bit 16 else bit 15)
            then Status.timeout
            else Status.success,
        bus.after_read a s,
      )
      | false ↦ elim (switched enable (bus.peek s a)) [
        | true ↦ (Status.success, bus.after_read a s)
        | false ↦ poll_gdsc bus a g enable n (bus.delay 1 (bus.after_read a s))
      ]
    ]

    poll_gdsc-round :
        (b : Bool)
        → has g.gdsc_flags poll_cfg_gdsc_reg ≡ b
        → poll_gdsc bus a g enable (suc n) s ≡ round b
    unfolding poll_gdsc round
    poll_gdsc-round b h = ap round h

  poll_gdsc-poll :
      (a : ℕ) (g : GdscInfo) (enable : Bool) (n : ℕ) (s : S)
      → has g.gdsc_flags poll_cfg_gdsc_reg ≡ false
      → (poll_gdsc bus a g enable n s).0 ≡ elim (poll bus (switched enable) a n s).0 [
        | true ↦ Status.success
        | false ↦ Status.timeout
      ]
  unfolding poll_gdsc poll round
  poll_gdsc-poll a g enable zero s h = refl
  poll_gdsc-poll a g enable (suc n) s h =
      ap (λ (r : Status × S). r.0) (poll_gdsc-round a g enable n s false h)
      ∙ either (switched enable (bus.peek s a))
          (poll_gdsc-poll a g enable n (bus.delay 1 (bus.after_read a s)) h)
    where
      next : S
      next = bus.delay 1 (bus.after_read a s)

      either :
          (b : Bool)
          → (poll_gdsc bus a g enable n next).0 ≡ elim (poll bus (switched enable) a n next).0 [
            | true ↦ Status.success
            | false ↦ Status.timeout
          ]
          → (pick b (Status.success, bus.after_read a s) (poll_gdsc bus a g enable n next)).0
            ≡ elim (pick b (true, bus.after_read a s) (poll bus (switched enable) a n next)).0 [
              | true ↦ Status.success
              | false ↦ Status.timeout
            ]
      either true e = refl
      either false e = e

  -- What the loop of `ClockGdscToggleEnable` answers. On the power bit it is a wait of `n` reads. On the
  -- configuration register the first read decides: CR_TIMEOUT if it shows that power is up or down as asked,
  -- CR_SUCCESS if it does not.
  unfoldable pub Switched : ℕ → GdscInfo → Bool → ℕ → S → Bool → Status → Type 0
  unfolding Waited
  Switched a g enable n s false status = Waited (switched enable) a n s status
  Switched a g enable n s true status = status ≡ (
      if has (bus.peek s a) (if enable then bit 16 else bit 15)
      then Status.timeout
      else Status.success)

  switched_lem :
      (a : ℕ) (g : GdscInfo) (enable : Bool) (n : ℕ) (s : S) (b : Bool)
      → has g.gdsc_flags poll_cfg_gdsc_reg ≡ b
      → Switched a g enable (suc n) s b (poll_gdsc bus a g enable (suc n) s).0
  unfolding Switched round
  switched_lem a g enable n s true h =
      ap (λ (r : Status × S). r.0) (poll_gdsc-round a g enable n s true h)
  switched_lem a g enable n s false h =
      subst (Waited (switched enable) a (suc n) s) (sym (poll_gdsc-poll a g enable (suc n) s h))
        (waited_lem (switched enable) a (suc n) s _ (poll-Polled bus (switched enable) a (suc n) s))

  -- `ClockGdscToggleEnable` past its early return: the status and what it tells of the register polled.
  pub poll_gdsc-Switched :
      (a : ℕ) (g : GdscInfo) (enable : Bool) (s : S)
      → Switched a g enable clock_gdsc_poll_timeout_us s
          (has g.gdsc_flags poll_cfg_gdsc_reg)
          (poll_gdsc bus a g enable clock_gdsc_poll_timeout_us s).0
  poll_gdsc-Switched a g enable s =
      switched_lem a g enable 1999 s (has g.gdsc_flags poll_cfg_gdsc_reg) refl
