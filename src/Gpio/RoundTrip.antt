-- ===== src/Gpio/RoundTrip.antt =====
-- GpioReadConfig after GpioSetConfig of Library/GpioLib/gpio.c.
use cr_dk.Mmio.Storage.{IsStorage}
use cr_dk.Mmio.{Bus}
use cr_dk.Bits.Fields.{get_field-write}
use cr_dk.Gpio.Config.{
  gpio_init_config_params, gpio_read_config, gpio_set_config, new_io, read_params, new_ctl,
}
use cr_dk.Bits.{u32, get_field}
use cr_dk.Gpio.Fields.{new_ctl-drive, new_ctl-pull, new_ctl-mux, new_ctl-oe, IsPinLayout}
use cr_dk.Gpio.Types.{
  GpioConfigRegType, gpio_get_cfg_reg, GpioPinInfo, GpioDeviceContext, gpio_pull_up_no_keeper,
  gpio_pull_up, gpio_pull_none, unchange, GpioConfigParams, GpioConfigRegInfo,
}
use cr_dk.Base.{
  inr, inl, Bool-cases, true, ◌≢◌, false, ◌||◌, some, leb, ℕ, ◌%◌, ◌^◌, ◌<◌, bit_and, ◌≡◌, ap, ◌∙◌,
  Bool, not, ◌&&◌, arith, ◌==◌, if◌then◌else◌, testbit-bit_and, testbit-mod, testbit-pow,
  eq_of_testbit,
}

-- What a pin is configured to by the parameters `p`, when its registers held `ctl` and `io`: what is to
-- be left unchanged is what stood there, an output has no pull, and an input keeps its drive strength.
abbrev pub applied : Bool → GpioConfigRegInfo → GpioConfigParams → ℕ → ℕ → GpioConfigParams
applied no_keeper cfg p ctl io = record {
  pin_number = p.pin_number;
  output_enable = p.output_enable;
  function_sel =
      if p.function_sel == unchange then get_field ctl cfg.mux_sel_msk else p.function_sel % 2 ^ 4;
  pull =
      if p.output_enable
      then gpio_pull_none
      else if p.pull == unchange
      then get_field ctl cfg.pull_msk
      else if no_keeper && (p.pull == gpio_pull_up)
      then gpio_pull_up_no_keeper
      else p.pull % 2 ^ 2;
  drive_strength =
      if p.output_enable && not (p.drive_strength == unchange)
      then p.drive_strength % 2 ^ 3
      else get_field ctl cfg.drive_strength_msk;
  output_value =
      if not p.output_enable
      then get_field io cfg.input_msk
      else if p.output_value == unchange
      then get_field io cfg.output_msk
      else p.output_value % 2;
}

bit_and-one : (v : ℕ) → bit_and v 1 % 2 ≡ v % 2
bit_and-one v = eq_of_testbit _ _ λ i.
    testbit-mod (bit_and v 1) 1 i
    ∙ ground (arith, testbit-bit_and v 1 i, testbit-mod v 1 i, testbit-pow 0 i)

new_ctl-lt :
    (no_keeper : Bool) (cfg : GpioConfigRegInfo) (p : GpioConfigParams) (ctl : ℕ)
    → ctl < 2 ^ 32
    → new_ctl no_keeper cfg p ctl < 2 ^ 32
unfolding new_ctl
new_ctl-lt no_keeper cfg p ctl small = ground arith

new_io-lt :
    (cfg : GpioConfigRegInfo) (p : GpioConfigParams) (io : ℕ)
    → io < 2 ^ 32
    → new_io cfg p io < 2 ^ 32
unfolding new_io
new_io-lt cfg p io small = ground arith

new_io-same :
    (cfg : GpioConfigRegInfo) (p : GpioConfigParams) (io : ℕ)
    → (p.output_enable && not (p.output_value == unchange)) ≡ false
    → new_io cfg p io ≡ io
unfolding new_io
new_io-same cfg p io e = ground (arith, e)

module _ {cfg : GpioConfigRegInfo} (l : IsPinLayout cfg) (no_keeper : Bool) (p : GpioConfigParams)
    (ctl io : ℕ) (small : ctl < 2 ^ 32) (io_small : io < 2 ^ 32) where
  value_field :
      get_field (new_io cfg p io) (if p.output_enable then cfg.output_msk else cfg.input_msk) ≡ (
        if not p.output_enable
        then get_field io cfg.input_msk
        else if p.output_value == unchange
        then get_field io cfg.output_msk
        else p.output_value % 2)
  unfolding new_io
  value_field = ground (
    arith,
    get_field-write l.out io (bit_and p.output_value 1) io_small,
    bit_and-one p.output_value,
  )

  read_params-new :
      read_params cfg p.pin_number (new_ctl no_keeper cfg p ctl) (new_io cfg p io)
      ≡ applied no_keeper cfg p ctl io
  unfolding read_params
  read_params-new = λ t. record {
    pin_number = p.pin_number;
    output_enable = output_same t;
    function_sel = new_ctl-mux l no_keeper p ctl small t;
    pull = new_ctl-pull l no_keeper p ctl small t;
    drive_strength = new_ctl-drive l no_keeper p ctl small t;
    output_value = value_same t;
  }
    where
      output_same :
          not (get_field (new_ctl no_keeper cfg p ctl) cfg.output_enable_msk == 0) ≡ p.output_enable
      output_same = ground (arith, new_ctl-oe l no_keeper p ctl small)

      value_same :
          get_field (new_io cfg p io) (
            if not (get_field (new_ctl no_keeper cfg p ctl) cfg.output_enable_msk == 0)
            then cfg.output_msk
            else cfg.input_msk)
          ≡ (if not p.output_enable
              then get_field io cfg.input_msk
              else if p.output_value == unchange
              then get_field io cfg.output_msk
              else p.output_value % 2)
      value_same =
          ap
            (λ (b : Bool).
              get_field (new_io cfg p io) (if b then cfg.output_msk else cfg.input_msk))
            output_same
          ∙ value_field

module _ {S : Type 0} {bus : Bus S} (st : IsStorage bus) (c : GpioDeviceContext)
    (p : GpioConfigParams) (s : S) where
  abbrev pub pin : GpioPinInfo
  pin = c.gpio_pins p.pin_number

  abbrev pub ctl_at : ℕ
  ctl_at = gpio_get_cfg_reg c GpioConfigRegType.ctl_reg p.pin_number

  abbrev pub io_at : ℕ
  io_at = gpio_get_cfg_reg c GpioConfigRegType.io_reg p.pin_number

  abbrev after : S
  after = (gpio_set_config bus (some c) (some p) s).1

  -- Reading both registers, and what is written to the first.
  abbrev written_ctl : S
  written_ctl =
      bus.poke ctl_at (u32 (new_ctl c.pull_up_no_keeper pin.reg_cfg p (bus.peek s ctl_at)))
        (bus.after_read io_at (bus.after_read ctl_at s))

  module _ (usable : (leb c.pin_count p.pin_number || pin.reserved) ≡ false)
      (apart : ctl_at ≢ io_at) where
    set_config-output :
        (p.output_enable && not (p.output_value == unchange)) ≡ true
        → after
          ≡ bus.poke io_at
              (u32 (new_io pin.reg_cfg p (bus.peek (bus.after_read ctl_at s) io_at)))
              written_ctl
    unfolding gpio_set_config
    set_config-output e = ground (arith, usable, e)

    set_config-input :
        (p.output_enable && not (p.output_value == unchange)) ≡ false → after ≡ written_ctl
    unfolding gpio_set_config
    set_config-input e = ground (arith, usable, e)

    written_ctl-peek :
        (a : ℕ)
        → bus.peek written_ctl a ≡ (
            if ctl_at == a
            then new_ctl c.pull_up_no_keeper pin.reg_cfg p (bus.peek s ctl_at)
            else bus.peek s a)
    written_ctl-peek a =
        let value = new_ctl c.pull_up_no_keeper pin.reg_cfg p (bus.peek s ctl_at) in
        st.peek-poke ctl_at (u32 value) (bus.after_read io_at (bus.after_read ctl_at s)) a
        ∙ ground (
          arith,
          ap (λ (t : S). bus.peek t a)
              (st.read_keeps io_at (bus.after_read ctl_at s) ∙ st.read_keeps ctl_at s),
          new_ctl-lt c.pull_up_no_keeper pin.reg_cfg p (bus.peek s ctl_at) (st.peek-lt s ctl_at),
        )

    after-peek :
        (a : ℕ)
        → bus.peek after a ≡ (
            if (io_at == a)
            then new_io pin.reg_cfg p (bus.peek s io_at)
            else if ctl_at == a
            then new_ctl c.pull_up_no_keeper pin.reg_cfg p (bus.peek s ctl_at)
            else bus.peek s a)
    after-peek a = elim (Bool-cases (p.output_enable && not (p.output_value == unchange))) [
      | inl output ↦
          let io = bus.peek (bus.after_read ctl_at s) io_at in
          let io_same : io ≡ bus.peek s io_at =
            ap (λ (t : S). bus.peek t io_at) (st.read_keeps ctl_at s) in
          ap (λ (t : S). bus.peek t a) (set_config-output output)
          ∙ st.peek-poke io_at (u32 (new_io pin.reg_cfg p io)) written_ctl a
          ∙ ground (
            arith,
            written_ctl-peek a,
            ap (new_io pin.reg_cfg p) io_same,
            new_io-lt pin.reg_cfg p (bus.peek s io_at) (st.peek-lt s io_at),
          )
      | inr input ↦
          ap (λ (t : S). bus.peek t a) (set_config-input input)
          ∙ written_ctl-peek a
          ∙ ground (
            arith,
            apart,
            new_io-same pin.reg_cfg p (bus.peek s io_at) input,
            ap (bus.peek s) {x = io_at} {y = a},
          )
    ]

    read_config-run :
        (s' : S)
        → (gpio_read_config bus (some c) (some (gpio_init_config_params p.pin_number)) s').0
          ≡ some (
              read_params pin.reg_cfg p.pin_number
                (bus.peek s' ctl_at)
                (bus.peek (bus.after_read ctl_at s') io_at))
    unfolding gpio_read_config gpio_init_config_params
    read_config-run s' = ground (arith, usable)

    -- Reading the configuration of a pin after `GpioSetConfig` gives the parameters that were set: the
    -- function, the direction, the pull and the drive strength that the direction admits, with what was
    -- to be left unchanged as it stood before, and the value driven or, for an input, the one read. The
    -- pin exists and is not reserved, its registers are two that hold what is written to them, and their
    -- fields lie apart.
    pub gpio_read_config-gpio_set_config :
        IsPinLayout pin.reg_cfg
        → (gpio_read_config bus (some c) (some (gpio_init_config_params p.pin_number)) after).0
          ≡ some (applied c.pull_up_no_keeper pin.reg_cfg p (bus.peek s ctl_at) (bus.peek s io_at))
    gpio_read_config-gpio_set_config l =
        let io = bus.peek s io_at in
        let ctl = bus.peek s ctl_at in
        let ctl_now : bus.peek after ctl_at ≡ new_ctl c.pull_up_no_keeper pin.reg_cfg p ctl =
          after-peek ctl_at ∙ ground (arith, apart) in
        let io_now : bus.peek (bus.after_read ctl_at after) io_at ≡ new_io pin.reg_cfg p io =
          ap (λ (t : S). bus.peek t io_at) (st.read_keeps ctl_at after)
          ∙ after-peek io_at
          ∙ ground arith in
        read_config-run after
        ∙ ap
            (λ (t : ℕ). some (
              read_params pin.reg_cfg p.pin_number t
                (bus.peek (bus.after_read ctl_at after) io_at)))
            ctl_now
        ∙ ap
            (λ (t : ℕ). some (
              read_params pin.reg_cfg p.pin_number (new_ctl c.pull_up_no_keeper pin.reg_cfg p ctl)
                t))
            io_now
        ∙ ap some (
            read_params-new l c.pull_up_no_keeper p ctl io (st.peek-lt s ctl_at)
              (st.peek-lt s io_at))
