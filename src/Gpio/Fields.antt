-- ===== src/Gpio/Fields.antt =====
-- What the fields of the control register hold after GpioSetConfig of Library/GpioLib/gpio.c.
use cr_dk.Bits.{get_field}
use cr_dk.Gpio.Config.{bool_value, new_ctl, write_field}
use cr_dk.Bits.Fields.{get_field-write_other, get_field-write, IsField}
use cr_dk.Gpio.Types.{
  gpio_pull_up_no_keeper, gpio_pull_up, gpio_pull_none, unchange, GpioConfigRegInfo,
  GpioConfigParams,
}
use cr_dk.Base.{
  ℕ, ◌+◌, ◌%◌, ◌^◌, ◌≤◌, ◌<◌, ◌≡◌, ◌∙◌, ◌⊎◌, inl, inr, Bool, not, ◌&&◌, arith, ◌==◌, if◌then◌else◌,
}

-- The fields of the control register and of the input and output register lie apart.
pub record IsPinLayout (cfg : GpioConfigRegInfo) : Type 0 where
  pub mux_at : ℕ
  pub pull_at : ℕ
  pub drive_at : ℕ
  pub oe_at : ℕ
  pub out_at : ℕ
  pub in_at : ℕ
  pub mux : IsField cfg.mux_sel_msk mux_at 4
  pub pull : IsField cfg.pull_msk pull_at 2
  pub drive : IsField cfg.drive_strength_msk drive_at 3
  pub oe : IsField cfg.output_enable_msk oe_at 1
  pub out : IsField cfg.output_msk out_at 1
  pub inp : IsField cfg.input_msk in_at 1
  pub mux_pull : (mux_at + 4 ≤ pull_at) ⊎ (pull_at + 2 ≤ mux_at)
  pub mux_drive : (mux_at + 4 ≤ drive_at) ⊎ (drive_at + 3 ≤ mux_at)
  pub mux_oe : (mux_at + 4 ≤ oe_at) ⊎ (oe_at + 1 ≤ mux_at)
  pub pull_drive : (pull_at + 2 ≤ drive_at) ⊎ (drive_at + 3 ≤ pull_at)
  pub oe_pull : (oe_at + 1 ≤ pull_at) ⊎ (pull_at + 2 ≤ oe_at)
  pub oe_drive : (oe_at + 1 ≤ drive_at) ⊎ (drive_at + 3 ≤ oe_at)

abbrev flip : {A B : Type 0} → A ⊎ B → B ⊎ A
flip (inl a) = inr a
flip (inr b) = inl b

module _ {cfg : GpioConfigRegInfo} (l : IsPinLayout cfg) (no_keeper : Bool) (p : GpioConfigParams)
    (ctl : ℕ) (small : ctl < 2 ^ 32) where
  abbrev muxed : ℕ
  muxed = if p.function_sel == unchange then ctl else write_field ctl p.function_sel cfg.mux_sel_msk

  muxed-lt : muxed < 2 ^ 32
  muxed-lt = ground arith

  abbrev directed : ℕ
  directed = write_field muxed (bool_value p.output_enable) cfg.output_enable_msk

  muxed-mux : get_field muxed cfg.mux_sel_msk ≡ (
      if p.function_sel == unchange then get_field ctl cfg.mux_sel_msk else p.function_sel % 2 ^ 4)
  muxed-mux = ground (arith, get_field-write l.mux ctl p.function_sel small)

  abbrev unpulled : ℕ
  unpulled = write_field directed gpio_pull_none cfg.pull_msk

  module _ {other k w : ℕ} (g : IsField other k w) where
    muxed-other :
        (l.mux_at + 4 ≤ k) ⊎ (k + w ≤ l.mux_at) → get_field muxed other ≡ get_field ctl other
    muxed-other apart = ground (arith, get_field-write_other l.mux g ctl p.function_sel apart small)

    directed-other :
        (l.oe_at + 1 ≤ k) ⊎ (k + w ≤ l.oe_at) → get_field directed other ≡ get_field muxed other
    directed-other apart =
        get_field-write_other l.oe g muxed (bool_value p.output_enable) apart muxed-lt

    new_ctl-other :
        (l.pull_at + 2 ≤ k) ⊎ (k + w ≤ l.pull_at)
        → (l.drive_at + 3 ≤ k) ⊎ (k + w ≤ l.drive_at)
        → get_field (new_ctl no_keeper cfg p ctl) other ≡ get_field directed other
    unfolding new_ctl
    new_ctl-other pull drive = ground (
      arith,
      get_field-write_other l.pull g directed gpio_pull_none pull (omega arith),
      get_field-write_other l.pull g directed gpio_pull_up_no_keeper pull (omega arith),
      get_field-write_other l.pull g directed p.pull pull (omega arith),
      get_field-write_other l.drive g unpulled p.drive_strength drive (omega arith),
    )

  pub new_ctl-mux : get_field (new_ctl no_keeper cfg p ctl) cfg.mux_sel_msk ≡ (
      if p.function_sel == unchange then get_field ctl cfg.mux_sel_msk else p.function_sel % 2 ^ 4)
  new_ctl-mux =
      new_ctl-other l.mux (flip l.mux_pull) (flip l.mux_drive)
      ∙ directed-other l.mux (flip l.mux_oe)
      ∙ muxed-mux

  pub new_ctl-oe :
      get_field (new_ctl no_keeper cfg p ctl) cfg.output_enable_msk ≡ bool_value p.output_enable
  new_ctl-oe =
      new_ctl-other l.oe (flip l.oe_pull) (flip l.oe_drive)
      ∙ get_field-write l.oe muxed (bool_value p.output_enable) muxed-lt
      ∙ ground arith

  pub new_ctl-pull : get_field (new_ctl no_keeper cfg p ctl) cfg.pull_msk ≡ (
      if p.output_enable
      then gpio_pull_none
      else if p.pull == unchange
      then get_field ctl cfg.pull_msk
      else if no_keeper && (p.pull == gpio_pull_up)
      then gpio_pull_up_no_keeper
      else p.pull % 2 ^ 2)
  unfolding new_ctl
  new_ctl-pull = ground (
    arith,
    muxed-other l.pull l.mux_pull,
    directed-other l.pull l.oe_pull,
    get_field-write l.pull directed gpio_pull_none (omega arith),
    get_field-write l.pull directed gpio_pull_up_no_keeper (omega arith),
    get_field-write l.pull directed p.pull (omega arith),
    get_field-write_other l.drive l.pull unpulled p.drive_strength (flip l.pull_drive)
        (omega arith),
  )

  pub new_ctl-drive : get_field (new_ctl no_keeper cfg p ctl) cfg.drive_strength_msk ≡ (
      if p.output_enable && not (p.drive_strength == unchange)
      then p.drive_strength % 2 ^ 3
      else get_field ctl cfg.drive_strength_msk)
  unfolding new_ctl
  new_ctl-drive = ground (
    arith,
    muxed-other l.drive l.mux_drive,
    directed-other l.drive l.oe_drive,
    get_field-write_other l.pull l.drive directed gpio_pull_none l.pull_drive (omega arith),
    get_field-write_other l.pull l.drive directed gpio_pull_up_no_keeper l.pull_drive (omega arith),
    get_field-write_other l.pull l.drive directed p.pull l.pull_drive (omega arith),
    get_field-write l.drive unpulled p.drive_strength (omega arith),
  )
