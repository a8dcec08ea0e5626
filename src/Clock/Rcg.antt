-- ===== src/Clock/Rcg.antt =====
-- Library/ClockLib/clock.c: the generators of clocks, `ClockRcg2CheckEnable`, `ClockRcg2UpdateConfig` and
-- `ClockRcg2SetRate`.
use cr_dk.Clock.Types.{FreqEntry, RcgInfo, NodeKind, ClockNode, info, clock_rcg2_update_timeout_us}
use cr_dk.Clock.Rate.{target_freq}
use cr_dk.Status.{Status}
use cr_dk.Mmio.Poll.{poll}
use cr_dk.Bits.{u32, u64, bit, gen_msk, set_field, clr_bits}
use cr_dk.Mmio.{M, pure, ◌>>=◌, ◌>>◌, Bus, read32, write32, update_bits32}
use cr_dk.Base.{
  ℕ, ◌+◌, ◌-◌, ◌*◌, ◌^◌, bit_and, bit_or, Bool, true, false, not, ◌&&◌, Option, none, some, ltb,
  ◌==◌, if◌then◌else◌,
}

abbrev pub cmd_reg : ℕ → RcgInfo → ℕ
cmd_reg address r = u64 (address + r.cmd_register)

-- The configuration registers behind the command register: CFG 4, M 8, N 0xc, D 0x10.
abbrev pub cfg_reg : ℕ → RcgInfo → ℕ → ℕ
cfg_reg address r offset = u64 (address + r.cmd_register + r.cmd_r_cfg_offset + offset)

abbrev pub rcg2 : Option ClockNode → Option (ℕ × RcgInfo)
rcg2 none = none
rcg2 (some c) = elim (info c).kind [
  | NodeKind.root_clock_generator_2 r ↦ some ((info c).controller_address, r)
  | NodeKind.gdsc g ↦ none
  | NodeKind.branch b ↦ none
  | NodeKind.branch_2 b ↦ none
  | NodeKind.root_clock_generator r ↦ none
]

-- `D2Val`: the differences are of UINT32.
unfoldable pub d2_val : ℕ → ℕ → ℕ
d2_val m n =
    let n2sub_m2 = u32 (2 * (n + 2 ^ 32 - m)) in
    if ltb n m then m else if ltb n2sub_m2 n then n2sub_m2 else n

-- `RegCfgVal`, after the source is set and behind the registers M, N and D.
unfoldable pub with_source : FreqEntry → ℕ → ℕ
unfolding clr_bits set_field gen_msk
with_source f cfg =
    u32 (bit_or (u32 (clr_bits cfg (gen_msk 10 8))) (set_field f.source_config (gen_msk 10 8)))

unfoldable pub uses_mnd : RcgInfo → FreqEntry → Bool
uses_mnd r f = not (r.mnd_width == 0) && not (f.n == 0)

unfoldable pub with_divider : RcgInfo → FreqEntry → ℕ → ℕ
unfolding clr_bits uses_mnd bit gen_msk
with_divider r f cfg =
    let mask =
      u32 (bit_or (bit_or (u64 (bit r.hid_width + 2 ^ 64 - 1)) (gen_msk 13 12)) (bit 20)) in
    let divided = bit_or (u32 (clr_bits cfg mask)) f.pre_div in
    let dual = if uses_mnd r f && not (f.n == f.m) then bit_or divided (bit 13) else divided in
    if r.hw_clock_ctrl then bit_or dual (bit 20) else dual

module _ {S : Type 0} (bus : Bus S) where
  -- `given` is whether the context is not NULL.
  unfoldable pub clock_rcg2_check_enable : Bool → Option ClockNode → M S Bool
  unfolding bit
  clock_rcg2_check_enable given node s = elim (if given then rcg2 node else none) [
    | none ↦ (false, s)
    | some (address, r) ↦
        let (val, s') = read32 bus (cmd_reg address r) s in (bit_and val (bit 31) == 0, s')
  ]

  unfoldable pub clock_rcg2_update_config : ℕ → RcgInfo → M S Status
  unfolding update_bits32 poll bit
  clock_rcg2_update_config address r = do
    old ← update_bits32 bus (cmd_reg address r) (bit 0) (bit 0)
    updated ←
        poll bus (λ val. bit_and val (bit 0) == 0) (cmd_reg address r) clock_rcg2_update_timeout_us
    pure (elim updated [ true ↦ Status.success | false ↦ Status.timeout ])

  -- The registers M, N and D.
  unfoldable pub set_mnd : ℕ → RcgInfo → FreqEntry → M S (Unit {0})
  unfolding update_bits32 d2_val bit
  set_mnd address r f = do
    let mask = u32 (bit r.mnd_width + 2 ^ 64 - 1)
    m ← update_bits32 bus (cfg_reg address r 8) mask f.m
    n ← update_bits32 bus (cfg_reg address r 0xc) mask (2 ^ 32 - 1 - u32 (f.n + 2 ^ 32 - f.m))
    d ← update_bits32 bus (cfg_reg address r 0x10) mask (bit_and mask (2 ^ 32 - 1 - d2_val f.m f.n))
    pure tt

  -- `ClockRcg2SetRate` for the entry that is chosen.
  unfoldable pub configure : ℕ → RcgInfo → FreqEntry → M S Status
  unfolding set_mnd uses_mnd with_source with_divider clock_rcg2_update_config
  configure address r f = do
    cfg ← read32 bus (cfg_reg address r 4)
    let source = with_source f cfg
    if uses_mnd r f then set_mnd address r f else pure tt
    write32 bus (cfg_reg address r 4) (with_divider r f source)
    clock_rcg2_update_config address r

  unfoldable pub clock_rcg2_set_rate : Bool → Option ClockNode → ℕ → ℕ → M S Status
  unfolding target_freq configure
  clock_rcg2_set_rate given node rate policy = elim (if given then rcg2 node else none) [
    | none ↦ pure Status.invalid_parameter
    | some (address, r) ↦ elim r.freq_table [
      | none ↦ pure Status.not_found
      | some table ↦ elim (target_freq rate policy table) [
        | none ↦ pure Status.not_found
        | some f ↦ configure address r f
      ]
    ]
  ]
