-- ===== src/Clock/Gdsc.antt =====
-- Library/ClockLib/gdsc.c: the switches of power domains.
use cr_dk.Clock.Types.{GdscInfo}
use cr_dk.Clock.Enable.{has}
use cr_dk.Status.{Status}
use cr_dk.Bits.{u64, bit}
use cr_dk.Mmio.{M, pure, ◌>>=◌, ◌>>◌, Bus, sleep, update_bits32}
use cr_dk.Base.{
  ℕ, zero, suc, ◌+◌, bit_or, Bool, true, false, not, ◌&&◌, List, [], ◌∷◌, ◌==◌, if◌then◌else◌,
}

-- The flags of a switch.
abbrev pub votable : ℕ
votable = 1

abbrev pub clamp_io : ℕ
clamp_io = 2

abbrev pub sw_reset : ℕ
sw_reset = 4

abbrev pub aon_reset : ℕ
aon_reset = 8

abbrev pub retain_ff_en : ℕ
retain_ff_en = 0x10

abbrev pub hw_ctl : ℕ
hw_ctl = 0x20

abbrev pub not_ret_periph : ℕ
not_ret_periph = 0x80

abbrev pub poll_cfg_gdsc_reg : ℕ
poll_cfg_gdsc_reg = 0x200

abbrev pub clock_gdsc_poll_timeout_us : ℕ
clock_gdsc_poll_timeout_us = 2000

abbrev pub poll_register : GdscInfo → ℕ
poll_register g =
    if has g.gdsc_flags poll_cfg_gdsc_reg
    then g.gdsc_register + 4
    else if g.gdsc_hw_ctrl_register == 0
    then g.gdsc_register
    else g.gdsc_hw_ctrl_register

abbrev pub agree : Bool → Bool → Bool
agree true b = b
agree false b = not b

module _ {S : Type 0} (bus : Bus S) where
  -- The loop that polls the switch, with `n` rounds left. In the configuration register a round ends the
  -- loop in any case: at `break` if power is up or down as asked.
  unfoldable pub poll_gdsc : ℕ → GdscInfo → Bool → ℕ → M S Status
  unfolding bit
  poll_gdsc a g enable zero s = (Status.timeout, s)
  poll_gdsc a g enable (suc n) s =
      let val = bus.peek s a in
      let s' = bus.after_read a s in
      elim (has g.gdsc_flags poll_cfg_gdsc_reg) [
        | true ↦ (
          if has val (if enable then bit 16 else bit 15) then Status.timeout else Status.success,
          s',
        )
        | false ↦ elim (agree enable (has val (bit 31))) [
          | true ↦ (Status.success, s')
          | false ↦ poll_gdsc a g enable n (bus.delay 1 s')
        ]
      ]

  -- The bit that collapses the domain is set to disable it and cleared to enable it.
  unfoldable pub set_collapse : ℕ → GdscInfo → Bool → M S ℕ
  unfolding update_bits32 bit
  set_collapse address g enable =
      let own = not (g.collapse_ctl_msk == 0) in
      let register = if own then g.collapse_ctl_register else g.gdsc_register in
      let mask = if own then g.collapse_ctl_msk else bit 0 in
      update_bits32 bus (u64 (address + register)) mask (if enable then 0 else mask)

  unfoldable pub clock_gdsc_toggle_enable : ℕ → GdscInfo → Bool → Bool → M S Status
  unfolding set_collapse poll_gdsc
  clock_gdsc_toggle_enable address g enable wait = do
    old ← set_collapse address g enable
    if has g.gdsc_flags votable && not enable && not wait
        then (do sleep bus clock_gdsc_poll_timeout_us; pure Status.success)
        else (do
          if g.gdsc_hw_ctrl_register == 0 then pure tt else sleep bus 1
          poll_gdsc (u64 (address + poll_register g)) g enable clock_gdsc_poll_timeout_us)

  -- `ClockGdsc`.
  unfoldable pub clock_gdsc : ℕ → GdscInfo → Bool → M S ℕ
  unfolding update_bits32 bit
  clock_gdsc address g enable =
      update_bits32 bus (u64 (address + g.gdsc_register)) (bit 1) (if enable then bit 1 else 0)

  -- The loop over the memories that keep their contents.
  unfoldable pub force_mem_on : ℕ → ℕ → List ℕ → M S (Unit {0})
  unfolding update_bits32
  force_mem_on address mask [] = pure tt
  force_mem_on address mask (register ∷ registers) = do
    old ← update_bits32 bus (u64 (address + register)) mask mask
    force_mem_on address mask registers

  unfoldable pub release_clamp : ℕ → GdscInfo → M S (Unit {0})
  unfolding update_bits32 bit
  release_clamp address g =
      let a = u64 (address + g.clamp_io_ctl_register) in
      do
        if has g.gdsc_flags aon_reset
            then (do
              set_to ← update_bits32 bus a (bit 4) (bit 4)
              sleep bus 1
              cleared ← update_bits32 bus a (bit 4) 0
              pure tt)
            else pure tt
        unclamped ← update_bits32 bus a (bit 0) 0
        pure tt

  -- `ClockGdscEnable`; the status of the toggle is ignored.
  unfoldable pub clock_gdsc_enable : ℕ → GdscInfo → M S Status
  unfolding clock_gdsc_toggle_enable clock_gdsc force_mem_on release_clamp update_bits32 bit
  clock_gdsc_enable address g = do
    if has g.gdsc_flags sw_reset then sleep bus 1 else pure tt
    if has g.gdsc_flags clamp_io then release_clamp address g else pure tt
    toggled ← clock_gdsc_toggle_enable address g true false
    if has g.pwr_sts_flag (bit 1)
        then force_mem_on address
            (if has g.gdsc_flags not_ret_periph then bit 14 else bit_or (bit 14) (bit 13))
            g.cxc_registers
        else pure tt
    sleep bus 1
    if has g.gdsc_flags retain_ff_en
        then (do
          old ← update_bits32 bus (u64 (address + g.gdsc_register)) (bit 11) (bit 11)
          pure tt)
        else pure tt
    if has g.gdsc_flags hw_ctl then (do old ← clock_gdsc address g true; sleep bus 1) else pure tt
    pure Status.success
