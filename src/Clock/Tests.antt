-- ===== src/Clock/Tests.antt =====
-- A small clock tree on a memory of registers.
use cr_dk.Clock.Hertz.{final_hz-exact, exact_hz, or_one}
use cr_dk.Clock.Branch.{halted-on, clock_enable-branch}
use cr_dk.Clock.Update.{clock_rcg2_update_config-Waited, Waited, updating, is_clear}
use cr_dk.Clock.Floor.{Floor, target_freq-Floor}
use cr_dk.Clock.Policy.{Ceiling, IsAscending, target_freq-Ceiling}
use cr_dk.Clock.Rate.{target_freq}
use cr_dk.Clock.Debugcc.{DebugccInfo, DebugccController, final_hz}
use cr_dk.Clock.Enable.{halted, clock_enable, enable_parents}
use cr_dk.Clock.Rcg.{clock_rcg2_update_config}
use cr_dk.Clock.Types.{
  FreqEntry, BranchInfo, RcgInfo, NodeKind, NodeInfo, ClockNode, Parents, clock_rcg2_policy_floor,
}
use cr_dk.Status.{Status}
use cr_dk.Bits.{bit, gen_msk, get_field, u32, u64}
use cr_dk.Mmio.Storage.{Ram, ram, ram-IsStorage}
use cr_dk.Base.{
  ℕ, ◌+◌, ◌*◌, bit_and, bit_or, ◌≡◌, refl, true, false, not, ◌&&◌, ◌||◌, some, List, [], ◌∷◌, arith,
  ◌==◌, if◌then◌else◌, testbit,
}

abbrev entry : ℕ → FreqEntry
entry hz = record { source = 0; source_config = 1; m = 1; n = 3; pre_div = 1; frequency_hz = hz }

abbrev rates : List FreqEntry
rates = entry 19200000 ∷ entry 50000000 ∷ entry 100000000 ∷ []

rates-IsAscending : IsAscending rates
rates-IsAscending = ((omega arith, (omega arith, tt)), ((omega arith, tt), (tt, tt)))

-- 60 MHz is served by 100 MHz, or by 50 MHz under the floor policy.
ceiling_of_60_mhz : target_freq 60000000 0 rates ≡ some (entry 100000000)
unfolding target_freq
ceiling_of_60_mhz = refl

floor_of_60_mhz : target_freq 60000000 1 rates ≡ some (entry 50000000)
unfolding target_freq
floor_of_60_mhz = refl

-- Under the floor policy a rate below the table gets its fastest entry.
floor_of_1_mhz : target_freq 1000000 1 rates ≡ some (entry 100000000)
unfolding target_freq
floor_of_1_mhz = refl

target_freq-Ceiling_example : Ceiling 60000000 rates (target_freq 60000000 0 rates)
target_freq-Ceiling_example = target_freq-Ceiling 60000000 0 rates (omega arith) rates-IsAscending

target_freq-Floor_example :
    Floor 60000000 rates (target_freq 60000000 clock_rcg2_policy_floor rates)
target_freq-Floor_example = target_freq-Floor 60000000 rates rates-IsAscending

abbrev uart_rcg : RcgInfo
uart_rcg = record {
  cmd_register = 0x1_8010;
  cmd_r_cfg_offset = 0;
  mnd_width = 16;
  hid_width = 5;
  hw_clock_ctrl = false;
  freq_table = some rates;
}

abbrev blank : Ram
blank a = 0

clock_rcg2_update_config-Waited_example :
    Waited ram
      (is_clear ram)
      0x118010
      500
      (updating ram 0x10_0000 uart_rcg blank)
      (clock_rcg2_update_config ram 0x10_0000 uart_rcg blank).0
clock_rcg2_update_config-Waited_example =
    clock_rcg2_update_config-Waited ram 0x10_0000 uart_rcg blank

abbrev uart_branch : BranchInfo
uart_branch = record {
  enable_register = 0x5_2008;
  enable_msk = 0x400;
  hwcg_register = 0;
  hwcg_msk = 0;
  halt_register = 0x1_8004;
  halt_check_flag = 0x80;
  halt_msk = 0;
}

abbrev uart_clock : NodeInfo
uart_clock = record {
  name = [];
  controller_address = 0x10_0000;
  kind = NodeKind.branch_2 uart_branch;
}

abbrev uart_parents : Parents
uart_parents =
    Parents.more_parents
      (ClockNode.clock_node
        (record {
          name = [];
          controller_address = 0x10_0000;
          kind = NodeKind.root_clock_generator_2 uart_rcg;
        })
        Parents.no_parents)
      Parents.no_parents

clock_enable-branch_example :
    let above = (enable_parents ram uart_parents true Status.success blank).1 in
    let after =
      (clock_enable ram true (some (ClockNode.clock_node uart_clock uart_parents)) true blank).1 in
    testbit (u32 (after 0x152008)) 10 ≡ (
      if (u64 (0x10_0000 + uart_branch.enable_register) == 0x152008)
        && testbit uart_branch.enable_msk 10
      then true
      else testbit (u32 (above 0x152008)) 10)
clock_enable-branch_example =
    clock_enable-branch ram-IsStorage uart_clock uart_branch uart_parents true blank 0x152008 10
      refl (omega arith)

halted-on_example : halted false 0 0 ≡ (
    not (testbit 0 31)
    || (false
        && (get_field (bit_and 0 (bit_or (gen_msk 30 28) (bit 31))) (gen_msk 30 28) == bit 1)))
halted-on_example = halted-on false 0 0

abbrev counter : DebugccController
counter = record {
  debug_offset = 0x62000;
  post_div_offset = 0x30000;
  cbcr_offset = 0x30004;
  src_sel_msk = 0x3ff;
  src_sel_sft = 0;
  post_div_msk = 0xf;
  post_div_sft = 0;
  post_div_val = 2;
  period_offset = 0;
  en_msk = 0;
  debug_clks = [];
}

abbrev counted : DebugccInfo
counted = record { name = []; mux_sel = 3; pre_div_val = 4 }

final_hz-exact_example :
    final_hz counter counted 4096 131072 ≡ exact_hz 4096 131072 * or_one 2 * or_one 4
final_hz-exact_example = final_hz-exact counter counted 4096 131072 (omega arith) (omega arith)
