-- ===== src/Clock/Branch.antt =====
-- What `ClockEnable` of clock.c leaves in the enable register of a branch.
use cr_dk.Clock.Enable.{
  differs, has, hwcg, wait_halt, settle, halted, check_halt, enable_branch, enable_node,
  enable_tree, enable_parents, clock_enable,
}
use cr_dk.Clock.Types.{
  clock_node_branch_halt_enable, clock_node_branch_voted, clock_node_branch_halt_bypass,
  clock_node_branch_halt_delay, BranchInfo, NodeKind, NodeInfo, ClockNode, Parents,
  clock_node_halt_wait_timeout_us,
}
use cr_dk.Status.{Status}
use cr_dk.Bits.{u64, bit, gen_msk, get_field}
use cr_dk.Bits.Laws.{bit_and-bit}
use cr_dk.Mmio.Storage.{IsStorage, testbit-update_bits32}
use cr_dk.Mmio.{M, pure, ◌>>◌, sleep, ◌>>=◌, Bus}
use cr_dk.Base.{
  ℕ, zero, suc, ◌+◌, ◌%◌, ◌^◌, ◌<◌, bit_and, bit_or, ◌≡◌, refl, ap, ◌∙◌, inl, inr, Bool, true,
  false, not, ◌&&◌, ◌||◌, some, arith, ltb, ◌==◌, if◌then◌else◌, Bool-cases, pick, testbit,
  testbit-zero,
}

-- The bit 31 that `OffBitInverted` is set to does not fit in it.
off_bit_inverted_lem : (b : Bool) → (if b then bit 31 else 0) % 2 ^ 8 ≡ 0
unfolding bit
off_bit_inverted_lem true = refl
off_bit_inverted_lem false = refl

zero_first : (x : ℕ) → (0 == x) ≡ (x == 0)
zero_first x = ground arith

off_or : (off : Bool) {t : Bool} (r : Bool) → not off ≡ t → (if off then true else r) ≡ (not t || r)
off_or true {t = true} r e = absurd (cc e)
off_or true {t = false} r e = refl
off_or false {t = true} r e = refl
off_or false {t = false} r e = absurd (cc e)

-- The wait of `ClockEnable` ends when the clock is not off, whatever the flag of the branch is and whether
-- it is enabled or disabled; or, enabling, when the state machine of its network is on.
pub halted-on :
    (enable : Bool) (flag val : ℕ)
    → halted enable flag val ≡ (
        not (testbit val 31)
        || (enable
            && (get_field (bit_and val (bit_or (gen_msk 30 28) (bit 31))) (gen_msk 30 28)
                == bit 1)))
unfolding halted
halted-on enable flag val =
    ap (λ (z : ℕ). if z == bit_and val (bit 31) then true else on)
      (off_bit_inverted_lem (differs enable (has flag clock_node_branch_halt_enable)))
    ∙ ap (λ (b : Bool). if b then true else on) (zero_first (bit_and val (bit 31)))
    ∙ off_or (bit_and val (bit 31) == 0) on (bit_and-bit val 31 (omega arith))
  where
    on : Bool
    on =
        enable
        && (get_field (bit_and val (bit_or (gen_msk 30 28) (bit 31))) (gen_msk 30 28) == bit 1)

module _ {S : Type 0} {bus : Bus S} (st : IsStorage bus) where
  wait_halt_keeps :
      (a n : ℕ) (enable : Bool) (flag : ℕ) (s : S) → (wait_halt bus a n enable flag s).1 ≡ s
  unfolding wait_halt
  wait_halt_keeps a zero enable flag s = refl
  wait_halt_keeps a (suc n) enable flag s =
      either (halted enable flag (bus.peek s a)) (wait_halt_keeps a n enable flag s)
    where
      either :
          (b : Bool)
          → (wait_halt bus a n enable flag s).1 ≡ s
          → (pick b (tt, bus.after_read a s) (wait_halt bus a n enable flag (bus.after_read a s))).1
            ≡ s
      either true e = st.read_keeps a s
      either false e = ap (λ (r : S). (wait_halt bus a n enable flag r).1) (st.read_keeps a s) ∙ e

  hwcg_keeps : (address : ℕ) (b : BranchInfo) (s : S) → (hwcg bus address b s).1 ≡ s
  unfolding hwcg
  hwcg_keeps address b s = elim (Bool-cases (b.hwcg_register == 0)) [
    | inl e ↦ rw e refl
    | inr e ↦ rw e (st.read_keeps (u64 (address + b.hwcg_register)) s)
  ]

  -- Code that leaves all registers as they are.
  record IsReading {A : Type 0} (m : M S A) : Type 0 where
    keeps : (s : S) (c : ℕ) → bus.peek (m s).1 c ≡ bus.peek s c

  pure-IsReading : {A : Type 0} (a : A) → IsReading (pure a)
  pure-IsReading a = record { keeps = λ s c. refl }

  if_IsReading :
      {A : Type 0} (b : Bool) {m k : M S A}
      → IsReading m
      → IsReading k
      → IsReading (if b then m else k)
  if_IsReading true hm hk = hm
  if_IsReading false hm hk = hk

  then_IsReading :
      {A B : Type 0} {m : M S A} {k : A → M S B}
      → IsReading m
      → ((a : A) → IsReading (k a))
      → IsReading (m >>= k)
  then_IsReading {m = m} hm hk = record {
    keeps = λ s c. (hk (m s).0).keeps (m s).1 c ∙ hm.keeps s c;
  }

  settle-IsReading :
      (address : ℕ) (b : BranchInfo) (enable : Bool) (status : Status)
      → IsReading (settle bus address b enable status)
  unfolding settle
  settle-IsReading address b enable status =
      if_IsReading
        (has flag clock_node_branch_halt_delay || (has flag clock_node_branch_voted && not enable))
        slept
        (if_IsReading ((enable && has flag clock_node_branch_voted) || ltb flag 2) polled
          (pure-IsReading status))
    where
      flag : ℕ
      flag = b.halt_check_flag

      slept : IsReading (sleep bus 10 >> pure Status.success)
      slept = record { keeps = λ s c. st.peek-delay 10 s c }

      polled : IsReading (
          wait_halt bus
            (u64 (address + b.halt_register))
            clock_node_halt_wait_timeout_us
            enable
            b.halt_check_flag
          >> pure status)
      polled = record {
        keeps = λ s c.
            ap (λ (r : S). bus.peek r c)
              (wait_halt_keeps (u64 (address + b.halt_register)) clock_node_halt_wait_timeout_us
                enable b.halt_check_flag s);
      }

  check_halt-IsReading :
      (address : ℕ) (b : BranchInfo) (enable : Bool) (status : Status)
      → IsReading (check_halt bus address b enable status)
  unfolding check_halt
  check_halt-IsReading address b enable status =
      if_IsReading (has b.halt_check_flag clock_node_branch_halt_bypass)
        (pure-IsReading Status.success)
        (then_IsReading gate λ gated.
          if_IsReading gated (pure-IsReading Status.success)
            (settle-IsReading address b enable status))
    where
      gate : IsReading (hwcg bus address b)
      gate = record { keeps = λ s c. ap (λ (r : S). bus.peek r c) (hwcg_keeps address b s) }

  enable_node_branch :
      (i : NodeInfo) (b : BranchInfo) (enable : Bool) (status : Status)
      → i.kind ≡ NodeKind.branch_2 b
      → enable_node bus i enable status ≡ enable_branch bus i.controller_address b enable status
  unfolding enable_node
  enable_node_branch i b enable status e =
      ap
        (λ (kind : NodeKind). elim kind [
          | NodeKind.branch_2 d ↦ enable_branch bus i.controller_address d enable status
          | NodeKind.root_clock_generator_2 r ↦ pure status
          | NodeKind.gdsc g ↦ pure Status.unsupported
          | NodeKind.branch d ↦ pure Status.unsupported
          | NodeKind.root_clock_generator r ↦ pure Status.unsupported
        ])
        e

  -- The word that the enable register is written under its mask.
  testbit-enable_bits :
      (enable same : Bool) (mask old k : ℕ)
      → (if same && testbit mask k
          then testbit (elim enable [ true ↦ mask | false ↦ 0 ]) k
          else testbit old k)
        ≡ (if same && testbit mask k then enable else testbit old k)
  testbit-enable_bits true same mask old k = ground arith
  testbit-enable_bits false same mask old k = ground (arith, testbit-zero k)

  testbit-enable_branch :
      (address : ℕ) (b : BranchInfo) (enable : Bool) (status : Status) (s : S) (c k : ℕ)
      → b.enable_msk < 2 ^ 32
      → testbit (bus.peek (enable_branch bus address b enable status s).1 c) k ≡ (
          if (u64 (address + b.enable_register) == c) && testbit b.enable_msk k
          then enable
          else testbit (bus.peek s c) k)
  unfolding enable_branch
  testbit-enable_branch address b enable status s c k h =
      ap (λ (v : ℕ). testbit v k) ((check_halt-IsReading address b enable status).keeps _ c)
      ∙ testbit-update_bits32 st (u64 (address + b.enable_register)) b.enable_msk
          (elim enable [ true ↦ b.enable_msk | false ↦ 0 ]) s c k h
      ∙ testbit-enable_bits enable (u64 (address + b.enable_register) == c) b.enable_msk
          (bus.peek s c) k

  -- `ClockEnable` of a branch sets the bits of its enable mask, or clears them to disable it, and keeps
  -- all other bits of all registers as enabling, or disabling, its parents left them.
  pub clock_enable-branch :
      (i : NodeInfo) (b : BranchInfo) (ps : Parents) (enable : Bool) (s : S) (c k : ℕ)
      → i.kind ≡ NodeKind.branch_2 b
      → b.enable_msk < 2 ^ 32
      → let above = (enable_parents bus ps enable Status.success s).1 in
        let after = (clock_enable bus true (some (ClockNode.clock_node i ps)) enable s).1 in
        testbit (bus.peek after c) k ≡ (
          if (u64 (i.controller_address + b.enable_register) == c) && testbit b.enable_msk k
          then enable
          else testbit (bus.peek above c) k)
  unfolding clock_enable enable_tree
  clock_enable-branch i b ps enable s c k e h =
      let (status, above) = enable_parents bus ps enable Status.success s in
      ap (λ (m : M S Status). testbit (bus.peek (m above).1 c) k)
        (enable_node_branch i b enable status e)
      ∙ testbit-enable_branch i.controller_address b enable status above c k h
