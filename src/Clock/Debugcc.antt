-- ===== src/Clock/Debugcc.antt =====
-- Library/ClockLib/debugcc.c: the measurement of a clock's frequency by counting.
use cr_dk.Clock.Lookup.{same_name}
use cr_dk.Clock.Types.{ClockController}
use cr_dk.Status.{Status, Result, ok, err}
use cr_dk.Mmio.Poll.{poll}
use cr_dk.Bits.{u32, u64, bit, gen_msk}
use cr_dk.Mmio.{M, pure, ◌>>=◌, ◌>>◌, Bus, read32, sleep, update_bits32}
use cr_dk.Base.{
  ℕ, ◌+◌, ◌-◌, ◌*◌, ◌/◌, ◌^◌, bit_and, true, false, not, Option, none, some, List, [], ◌∷◌, ◌==◌,
  if◌then◌else◌, get_elem?,
}

pub record DebugccInfo : Type 0 where
  pub name : List ℕ
  pub mux_sel : ℕ
  pub pre_div_val : ℕ

pub record DebugccController : Type 0 where
  pub debug_offset : ℕ
  pub post_div_offset : ℕ
  pub cbcr_offset : ℕ
  pub src_sel_msk : ℕ
  pub src_sel_sft : ℕ
  pub post_div_msk : ℕ
  pub post_div_sft : ℕ
  pub post_div_val : ℕ
  pub period_offset : ℕ
  pub en_msk : ℕ
  pub debug_clks : List DebugccInfo

-- `controllers` is the array up to its NULL.
pub record DebugccDriverContext : Type 0 where
  pub ctl_reg : ℕ
  pub status_reg : ℕ
  pub xo_div4_cbc_reg : ℕ
  pub controllers : List DebugccController

abbrev pub count_done_max_wait_us : ℕ
count_done_max_wait_us = 27000

abbrev pub sample_ticks_1_ms : ℕ
sample_ticks_1_ms = 0x1000

abbrev pub sample_ticks_27_ms : ℕ
sample_ticks_27_ms = 0x2_0000

abbrev pub tcxo_div_4_hz : ℕ
tcxo_div_4_hz = 4800000

-- The search in a controller's clocks.
unfoldable pub find_info : List ℕ → List DebugccInfo → Option DebugccInfo
unfolding same_name
find_info name [] = none
find_info name (c ∷ cs) =
    let rest = find_info name cs in if same_name c.name name then some c else rest

-- The controller that has the clock, its number, and the clock.
unfoldable pub find_debug_clock :
    List ℕ → ℕ → List DebugccController → Option (ℕ × DebugccController × DebugccInfo)
unfolding find_info
find_debug_clock name type [] = none
find_debug_clock name type (c ∷ cs) =
    let rest = find_debug_clock name (type + 1) cs in
    elim (find_info name c.debug_clks) [ none ↦ rest | some clock ↦ some (type, c, clock) ]

-- The frequency that the counts of the short and of the full measurement give, before the dividers.
-- The product and the sum with the count are of UINT32.
unfoldable pub counted_hz : ℕ → ℕ → ℕ
counted_hz short full =
    if short == full
    then 0
    else u64 (u32 (full * 10 + 15) * tcxo_div_4_hz) / (sample_ticks_27_ms * 10 + 35)

unfoldable pub times : ℕ → ℕ → ℕ
times hz div = if div == 0 then hz else u64 (hz * div)

unfoldable pub final_hz : DebugccController → DebugccInfo → ℕ → ℕ → ℕ
unfolding counted_hz times
final_hz c clock short full = times (times (counted_hz short full) c.post_div_val) clock.pre_div_val

module _ {S : Type 0} (bus : Bus S) where
  unfoldable pub debugcc_measure_clock_internal : ℕ → DebugccDriverContext → ℕ → M S ℕ
  unfolding update_bits32 poll bit gen_msk
  debugcc_measure_clock_internal base context ticks =
      let ctl = u64 (base + context.ctl_reg) in
      let status = u64 (base + context.status_reg) in
      do
        stopped ← update_bits32 bus ctl (bit 20) 0
        clearing ← update_bits32 bus ctl (bit 21) (bit 21)
        sleep bus 1
        cleared ← update_bits32 bus ctl (bit 21) 0
        term ← update_bits32 bus ctl (gen_msk 19 0) (bit_and ticks (gen_msk 19 0))
        started ← update_bits32 bus ctl (bit 20) (bit 20)
        done ← poll bus (λ val. not (bit_and val (bit 25) == 0)) status count_done_max_wait_us
        ended ← update_bits32 bus ctl (bit 20) 0
        result ← read32 bus status
        pure (bit_and result (gen_msk 24 0))

  -- The clock's mux and its divider are set up and enabled, and `en_msk` is the mask for that.
  unfoldable pub select_clock : ℕ → DebugccController → DebugccInfo → ℕ → M S (Unit {0})
  unfolding update_bits32
  select_clock address c clock en_msk = do
    mux ←
        update_bits32 bus (u64 (address + c.debug_offset)) c.src_sel_msk
          (bit_and (u32 (clock.mux_sel * 2 ^ c.src_sel_sft)) c.src_sel_msk)
    div ←
        update_bits32 bus (u64 (address + c.post_div_offset)) c.post_div_msk
          (bit_and (u32 (u32 (c.post_div_val + 2 ^ 32 - 1) * 2 ^ c.post_div_sft)) c.post_div_msk)
    if c.cbcr_offset == 0xffff_ffff
        then pure tt
        else (do old ← update_bits32 bus (u64 (address + c.cbcr_offset)) en_msk en_msk; pure tt)

  unfoldable pub deselect_clock : ℕ → DebugccController → ℕ → M S (Unit {0})
  unfolding update_bits32
  deselect_clock address c en_msk =
      if c.cbcr_offset == 0xffff_ffff
      then pure tt
      else (do old ← update_bits32 bus (u64 (address + c.cbcr_offset)) en_msk 0; pure tt)

  -- The measurement by counting; `gcc` is the address of the global controller.
  unfoldable pub measure_counts :
      ℕ → ℕ → DebugccDriverContext → DebugccController → DebugccInfo → M S ℕ
  unfolding update_bits32 debugcc_measure_clock_internal select_clock deselect_clock final_hz bit
  measure_counts gcc address context c clock =
      let en_msk = if c.en_msk == 0 then bit 0 else c.en_msk in
      do
        select_clock address c clock en_msk
        on ← update_bits32 bus (u64 (gcc + context.xo_div4_cbc_reg)) (bit 0) (bit 0)
        short ← debugcc_measure_clock_internal gcc context sample_ticks_1_ms
        full ← debugcc_measure_clock_internal gcc context sample_ticks_27_ms
        off ← update_bits32 bus (u64 (gcc + context.xo_div4_cbc_reg)) (bit 0) 0
        deselect_clock address c en_msk
        pure (final_hz c clock short full)

  -- A clock without a mux: a terahertz by the period that the register holds. `none` is a division by 0.
  unfoldable pub measure_period : ℕ → DebugccController → M S (Option ℕ)
  measure_period address c = do
    period ← read32 bus (u64 (address + c.period_offset))
    pure (if period == 0 then none else some (1000000000000 / period))

  abbrev pub address_of : List ClockController → ℕ → Option ℕ
  address_of cs type = elim (get_elem? cs type) [ none ↦ none | some c ↦ some c.address ]

  -- `DebugccMeasureClockRate` for a name and an out parameter that are not NULL: the frequency. `none` is
  -- a division by 0 or a read out of the array of controllers. The context has been followed before it
  -- is tested, so that it is not NULL; `clocks` is the clock context.
  unfoldable pub debugcc_measure_clock_rate :
      DebugccDriverContext → Option (List ClockController) → List ℕ → M S (Option (Result ℕ))
  unfolding find_debug_clock measure_counts measure_period
  debugcc_measure_clock_rate context none name = pure (some (err Status.invalid_parameter))
  debugcc_measure_clock_rate context (some clocks) name =
      elim (find_debug_clock name 0 context.controllers) [
        | none ↦ pure (some (err Status.not_found))
        | some (type, c, clock) ↦ elim (address_of clocks type) [
          | none ↦ pure none
          | some address ↦ elim (clock.mux_sel == 0) [
            | true ↦ do
              hz ← measure_period address c
              pure (elim hz [ none ↦ none | some f ↦ some (ok f) ])
            | false ↦ elim (address_of clocks 0) [
              | none ↦ pure none
              | some gcc ↦ do hz ← measure_counts gcc address context c clock; pure (some (ok hz))
            ]
          ]
        ]
      ]
