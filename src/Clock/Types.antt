-- ===== src/Clock/Types.antt =====
-- The data of Include/Library/clock.h. A node holds its controller's address in place of a pointer to it,
-- and its kind holds the member of the union that its type stands for.
use cr_dk.Base.{ℕ, Bool, Option, List}

pub record FreqEntry : Type 0 where
  pub source : ℕ
  pub source_config : ℕ
  pub m : ℕ
  pub n : ℕ
  pub pre_div : ℕ
  pub frequency_hz : ℕ

pub record BranchInfo : Type 0 where
  pub enable_register : ℕ
  pub enable_msk : ℕ
  pub hwcg_register : ℕ
  pub hwcg_msk : ℕ
  pub halt_register : ℕ
  pub halt_check_flag : ℕ
  pub halt_msk : ℕ

-- `freq_table` is the table of `FreqCount` entries, `none` for NULL.
pub record RcgInfo : Type 0 where
  pub cmd_register : ℕ
  pub cmd_r_cfg_offset : ℕ
  pub mnd_width : ℕ
  pub hid_width : ℕ
  pub hw_clock_ctrl : Bool
  pub freq_table : Option (List FreqEntry)

pub record GdscInfo : Type 0 where
  pub gdsc_register : ℕ
  pub pwr_sts_flag : ℕ
  pub gdsc_flags : ℕ
  pub clamp_io_ctl_register : ℕ
  pub collapse_ctl_register : ℕ
  pub collapse_ctl_msk : ℕ
  pub gdsc_hw_ctrl_register : ℕ
  pub cxc_registers : List ℕ

pub data NodeKind : Type 0 where
  gdsc : GdscInfo → NodeKind
  branch : BranchInfo → NodeKind
  branch_2 : BranchInfo → NodeKind
  root_clock_generator : RcgInfo → NodeKind
  root_clock_generator_2 : RcgInfo → NodeKind

pub record NodeInfo : Type 0 where
  pub name : List ℕ
  pub controller_address : ℕ
  pub kind : NodeKind

-- A node and its parents; one of these may be NULL.
mutual
  pub data ClockNode : Type 0 where
    clock_node : NodeInfo → Parents → ClockNode

  pub data Parents : Type 0 where
    no_parents : Parents
    null_parent : Parents → Parents
    more_parents : ClockNode → Parents → Parents

abbrev pub info : ClockNode → NodeInfo
info (clock_node i ps) = i

pub record ClockController : Type 0 where
  pub address : ℕ
  pub size : ℕ
  pub mem_mapped : Bool
  pub clks : List ClockNode
  pub gdscs : List ClockNode

pub record ClockDriverContext : Type 0 where
  pub clock_controllers : List ClockController

abbrev pub clock_node_halt_wait_timeout_us : ℕ
clock_node_halt_wait_timeout_us = 200

abbrev pub clock_rcg2_update_timeout_us : ℕ
clock_rcg2_update_timeout_us = 500

abbrev pub clock_node_branch_halt_enable : ℕ
clock_node_branch_halt_enable = 1

abbrev pub clock_node_branch_halt_delay : ℕ
clock_node_branch_halt_delay = 2

abbrev pub clock_node_branch_halt_bypass : ℕ
clock_node_branch_halt_bypass = 3

abbrev pub clock_node_branch_voted : ℕ
clock_node_branch_voted = 0x80

abbrev pub clock_rcg2_policy_floor : ℕ
clock_rcg2_policy_floor = 1
