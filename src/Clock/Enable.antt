-- ===== src/Clock/Enable.antt =====
-- Library/ClockLib/clock.c: `ClockEnable`, which walks up the tree of a clock's parents. A parent that is
-- NULL is passed over; the log line that reads its name is left out.
use cr_dk.Clock.Types.{
  BranchInfo, NodeKind, NodeInfo, ClockNode, Parents, clock_node_halt_wait_timeout_us,
  clock_node_branch_halt_enable, clock_node_branch_halt_delay, clock_node_branch_halt_bypass,
  clock_node_branch_voted,
}
use cr_dk.Status.{Status}
use cr_dk.Bits.{u64, bit, gen_msk, get_field}
use cr_dk.Mmio.{M, pure, ◌>>=◌, ◌>>◌, Bus, read32, sleep, update_bits32}
use cr_dk.Base.{
  ℕ, zero, suc, ◌+◌, ◌%◌, ◌^◌, bit_and, bit_or, Bool, true, false, not, ◌&&◌, ◌||◌, Option, none,
  some, ltb, ◌==◌, if◌then◌else◌,
}

-- `x & y` as a condition.
abbrev pub has : ℕ → ℕ → Bool
has x y = not (bit_and x y == 0)

abbrev pub differs : Bool → Bool → Bool
differs true b = not b
differs false b = b

-- The test of `HaltRegVal` that ends the wait. `OffBitInverted` is a BOOLEAN of 8 bits.
unfoldable pub halted : Bool → ℕ → ℕ → Bool
unfolding bit gen_msk get_field
halted enable flag val =
    let off_bit_inverted =
      (if differs enable (has flag clock_node_branch_halt_enable) then bit 31 else 0) % 2 ^ 8 in
    if off_bit_inverted == bit_and val (bit 31)
    then true
    else enable
      && (get_field (bit_and val (bit_or (gen_msk 30 28) (bit 31))) (gen_msk 30 28) == bit 1)

module _ {S : Type 0} (bus : Bus S) where
  -- The loop of the halt check; it reads without a wait.
  unfoldable pub wait_halt : ℕ → ℕ → Bool → ℕ → M S (Unit {0})
  unfolding halted
  wait_halt a zero enable flag s = (tt, s)
  wait_halt a (suc n) enable flag s =
      let s' = bus.after_read a s in
      elim (halted enable flag (bus.peek s a)) [
        | true ↦ (tt, s')
        | false ↦ wait_halt a n enable flag s'
      ]

  -- Whether hardware gates the clock; the register is read only if there is one.
  unfoldable pub hwcg : ℕ → BranchInfo → M S Bool
  hwcg address b s =
      if b.hwcg_register == 0
      then (false, s)
      else let (val, s') = read32 bus (u64 (address + b.hwcg_register)) s in
        (has val b.hwcg_msk, s')

  -- The halt check of a branch that hardware does not gate; `status` is the last parent's.
  unfoldable pub settle : ℕ → BranchInfo → Bool → Status → M S Status
  unfolding wait_halt
  settle address b enable status =
      let flag = b.halt_check_flag in
      if has flag clock_node_branch_halt_delay || (has flag clock_node_branch_voted && not enable)
      then (do sleep bus 10; pure Status.success)
      else if (enable && has flag clock_node_branch_voted) || ltb flag 2
      then (do
        wait_halt (u64 (address + b.halt_register)) clock_node_halt_wait_timeout_us enable flag
        pure status)
      else pure status

  -- What follows the write of the enable register.
  unfoldable pub check_halt : ℕ → BranchInfo → Bool → Status → M S Status
  unfolding hwcg settle
  check_halt address b enable status =
      if has b.halt_check_flag clock_node_branch_halt_bypass then pure Status.success else (do
        gated ← hwcg address b
        if gated then pure Status.success else settle address b enable status)

  unfoldable pub enable_branch : ℕ → BranchInfo → Bool → Status → M S Status
  unfolding update_bits32 check_halt
  enable_branch address b enable status = do
    old ←
        update_bits32 bus (u64 (address + b.enable_register)) b.enable_msk
          (elim enable [ true ↦ b.enable_msk | false ↦ 0 ])
    check_halt address b enable status

  -- What `ClockEnable` does to the node itself.
  unfoldable pub enable_node : NodeInfo → Bool → Status → M S Status
  unfolding enable_branch
  enable_node i enable status = elim i.kind [
    | NodeKind.branch_2 b ↦ enable_branch i.controller_address b enable status
    | NodeKind.root_clock_generator_2 r ↦ pure status
    | NodeKind.gdsc g ↦ pure Status.unsupported
    | NodeKind.branch b ↦ pure Status.unsupported
    | NodeKind.root_clock_generator r ↦ pure Status.unsupported
  ]

  unfoldable mutual
    unfolding enable_node

    -- `ClockEnable` of a node that is not NULL.
    pub enable_tree : ClockNode → Bool → M S Status
    enable_tree (ClockNode.clock_node i ps) enable = do
      status ← enable_parents ps enable Status.success
      enable_node i enable status

    -- The loop over the parents; `status` is the last one's.
    pub enable_parents : Parents → Bool → Status → M S Status
    enable_parents Parents.no_parents enable status = pure status
    enable_parents (Parents.null_parent ps) enable status = enable_parents ps enable status
    enable_parents (Parents.more_parents p ps) enable status = do
      above ← enable_tree p enable
      enable_parents ps enable above

  -- `given` is whether the context is not NULL.
  unfoldable pub clock_enable : Bool → Option ClockNode → Bool → M S Status
  unfolding enable_tree
  clock_enable given none enable = pure Status.invalid_parameter
  clock_enable false (some c) enable = pure Status.invalid_parameter
  clock_enable true (some c) enable = enable_tree c enable
