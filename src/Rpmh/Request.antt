-- ===== src/Rpmh/Request.antt =====
-- What RpmhWrite of rpmh.c leaves in registers that hold what is written to them, for the requests of
-- one command that RpmhEnableVreg and its kin make.
use cr_dk.Rpmh.Claim.{mark_busy}
use cr_dk.Rpmh.Trigger.{tcs_set_trigger-control}
use cr_dk.Bits.Laws.{testbit-bit, testbit-u32, u32_u32}
use cr_dk.Rpmh.Tcs.{write_cmds, tcs_write_buffer, tcs_set_trigger}
use cr_dk.Mmio.Storage.{IsStorage}
use cr_dk.Mmio.{Bus}
use cr_dk.Bits.{bit, set_bits, u32}
use cr_dk.Rpmh.Types.{
  tcs_amc_mode_trigger, tcs_amc_mode_enable, rpmh_tcs_cmd_msg_id_response_request_bit,
  rpmh_tcs_cmd_msg_id_write_flag_bit, rpmh_tcs_cmd_msg_id_len, RpmhTcsCmd, drv_registers_v3p0,
  tcs_reg, drv_registers_v2p7, tcs_cmd_reg, RpmhDeviceContext,
}
use cr_dk.Base.{
  refl, inr, inl, testbit-bit_or, ap, [], ◌∷◌, ◌∙◌, true, testbit, bit_or, ◌==◌, if◌then◌else◌, ℕ,
  ◌+◌, ◌^◌, ◌<◌, ◌≡◌, ◌≢◌, ◌⊎◌, arith,
}

-- The registers that a request writes last lie apart from those written before.
pub record IsApart (c : RpmhDeviceContext) (tcs : ℕ) : Type 0 where
  pub addr_msgid :
      tcs_cmd_reg c c.drv_registers.reg_drv_cmd_addr tcs 0
      ≢ tcs_cmd_reg c c.drv_registers.reg_drv_cmd_msgid tcs 0
  pub data_msgid :
      tcs_cmd_reg c c.drv_registers.reg_drv_cmd_data tcs 0
      ≢ tcs_cmd_reg c c.drv_registers.reg_drv_cmd_msgid tcs 0
  pub data_addr :
      tcs_cmd_reg c c.drv_registers.reg_drv_cmd_data tcs 0
      ≢ tcs_cmd_reg c c.drv_registers.reg_drv_cmd_addr tcs 0
  pub enable_cmd :
      (reg : ℕ)
      → (reg ≡ c.drv_registers.reg_drv_cmd_msgid)
        ⊎ ((reg ≡ c.drv_registers.reg_drv_cmd_addr) ⊎ (reg ≡ c.drv_registers.reg_drv_cmd_data))
      → tcs_reg c c.drv_registers.reg_drv_cmd_enable tcs ≢ tcs_cmd_reg c reg tcs 0
  pub control_cmd :
      (reg : ℕ)
      → (reg ≡ c.drv_registers.reg_drv_cmd_msgid)
        ⊎ ((reg ≡ c.drv_registers.reg_drv_cmd_addr) ⊎ (reg ≡ c.drv_registers.reg_drv_cmd_data))
      → tcs_reg c c.drv_registers.reg_drv_control tcs ≢ tcs_cmd_reg c reg tcs 0
  pub control_enable :
      tcs_reg c c.drv_registers.reg_drv_control tcs
      ≢ tcs_reg c c.drv_registers.reg_drv_cmd_enable tcs

-- Both register tables keep the registers apart, below the end of the address space.
pub v2p7-IsApart :
    (c : RpmhDeviceContext) (tcs : ℕ)
    → tcs < 32
    → c.drv_registers ≡ drv_registers_v2p7
    → c.drv_base_address + c.tcs_offset < 2 ^ 63
    → IsApart c tcs
v2p7-IsApart c tcs small table low = record {
  addr_msgid = ground (arith, table);
  data_msgid = ground (arith, table);
  data_addr = ground (arith, table);
  enable_cmd = λ reg which. ground (arith, table);
  control_cmd = λ reg which. ground (arith, table);
  control_enable = ground (arith, table);
}

pub v3p0-IsApart :
    (c : RpmhDeviceContext) (tcs : ℕ)
    → tcs < 32
    → c.drv_registers ≡ drv_registers_v3p0
    → c.drv_base_address + c.tcs_offset < 2 ^ 63
    → IsApart c tcs
v3p0-IsApart c tcs small table low = record {
  addr_msgid = ground (arith, table);
  data_msgid = ground (arith, table);
  data_addr = ground (arith, table);
  enable_cmd = λ reg which. ground (arith, table);
  control_cmd = λ reg which. ground (arith, table);
  control_enable = ground (arith, table);
}

-- The header of a command's message, with the request for an answer.
abbrev pub msg_id_of : RpmhTcsCmd → ℕ
msg_id_of cmd =
    if cmd.response_required == 0
    then u32 (bit_or rpmh_tcs_cmd_msg_id_len rpmh_tcs_cmd_msg_id_write_flag_bit)
    else u32 (
        bit_or (u32 (bit_or rpmh_tcs_cmd_msg_id_len rpmh_tcs_cmd_msg_id_write_flag_bit))
          rpmh_tcs_cmd_msg_id_response_request_bit)

-- Set `tcs` holds `cmd` as its command 0, enabled and triggered.
pub record IsSent {S : Type 0} (bus : Bus S) (c : RpmhDeviceContext) (tcs : ℕ) (cmd : RpmhTcsCmd)
    (s : S) : Type 0 where
  pub msgid_written :
      bus.peek s (tcs_cmd_reg c c.drv_registers.reg_drv_cmd_msgid tcs 0) ≡ u32 (msg_id_of cmd)
  pub addr_written :
      bus.peek s (tcs_cmd_reg c c.drv_registers.reg_drv_cmd_addr tcs 0) ≡ u32 cmd.addr
  pub data_written :
      bus.peek s (tcs_cmd_reg c c.drv_registers.reg_drv_cmd_data tcs 0) ≡ u32 cmd.value
  pub command_enabled :
      testbit (bus.peek s (tcs_reg c c.drv_registers.reg_drv_cmd_enable tcs)) 0 ≡ true
  pub triggered :
      bus.peek s (tcs_reg c c.drv_registers.reg_drv_control tcs)
      ≡ u32 (set_bits (u32 tcs_amc_mode_enable) tcs_amc_mode_trigger)

module _ {S : Type 0} {bus : Bus S} (st : IsStorage bus) (c : RpmhDeviceContext) (tcs : ℕ)
    (cmd : RpmhTcsCmd) where
  abbrev msgid_at : ℕ
  msgid_at = tcs_cmd_reg c c.drv_registers.reg_drv_cmd_msgid tcs 0

  abbrev addr_at : ℕ
  addr_at = tcs_cmd_reg c c.drv_registers.reg_drv_cmd_addr tcs 0

  abbrev data_at : ℕ
  data_at = tcs_cmd_reg c c.drv_registers.reg_drv_cmd_data tcs 0

  abbrev enable_at : ℕ
  enable_at = tcs_reg c c.drv_registers.reg_drv_cmd_enable tcs

  abbrev control_at : ℕ
  control_at = tcs_reg c c.drv_registers.reg_drv_control tcs

  -- The command's three registers are written.
  abbrev loaded : S → S
  loaded s =
      bus.poke data_at (u32 cmd.value)
        (bus.poke addr_at (u32 cmd.addr) (bus.poke msgid_at (u32 (msg_id_of cmd)) s))

  loaded-peek :
      (s : S) (a : ℕ)
      → bus.peek (loaded s) a ≡ (
          if data_at == a
          then u32 cmd.value
          else if addr_at == a
          then u32 cmd.addr
          else if msgid_at == a
          then u32 (msg_id_of cmd)
          else bus.peek s a)
  loaded-peek s a =
      st.peek-poke data_at (u32 cmd.value)
        (bus.poke addr_at (u32 cmd.addr) (bus.poke msgid_at (u32 (msg_id_of cmd)) s)) a
      ∙ ground (
        arith,
        u32_u32 cmd.value,
        u32_u32 cmd.addr,
        u32_u32 (msg_id_of cmd),
        st.peek-poke addr_at (u32 cmd.addr) (bus.poke msgid_at (u32 (msg_id_of cmd)) s) a,
        st.peek-poke msgid_at (u32 (msg_id_of cmd)) s a,
      )

  abbrev pub send : S → S
  send s = (tcs_set_trigger bus c tcs true (tcs_write_buffer bus c tcs 0 (cmd ∷ []) s).1).1

  buffer-peek :
      (s : S) (a : ℕ)
      → bus.peek (tcs_write_buffer bus c tcs 0 (cmd ∷ []) s).1 a ≡ (
          if enable_at == a
          then u32 (bit_or (u32 (bit_or 0 (bit 0))) (bus.peek (loaded s) enable_at))
          else bus.peek (loaded s) a)
  unfolding tcs_write_buffer write_cmds
  buffer-peek s a =
      let value = bit_or (u32 (bit_or 0 (bit 0))) (bus.peek (loaded s) enable_at) in
      st.peek-poke enable_at (u32 value) (bus.after_read enable_at (loaded s)) a
      ∙ ground
          (arith, u32_u32 value, ap (λ (t : S). bus.peek t a) (st.read_keeps enable_at (loaded s)))

  pub send-IsSent : IsApart c tcs → (s : S) → IsSent bus c tcs cmd (send s)
  send-IsSent apart s =
      let s1 = (tcs_write_buffer bus c tcs 0 (cmd ∷ []) s).1 in
      let regs = c.drv_registers in
      record {
        msgid_written =
            tcs_set_trigger-control st c tcs true s1 msgid_at
            ∙ ground (
              arith,
              buffer-peek s msgid_at,
              loaded-peek s msgid_at,
              apart.addr_msgid,
              apart.data_msgid,
              apart.enable_cmd regs.reg_drv_cmd_msgid (inl refl),
              apart.control_cmd regs.reg_drv_cmd_msgid (inl refl),
            );
        addr_written =
            tcs_set_trigger-control st c tcs true s1 addr_at
            ∙ ground (
              arith,
              buffer-peek s addr_at,
              loaded-peek s addr_at,
              apart.data_addr,
              apart.enable_cmd regs.reg_drv_cmd_addr (inr (inl refl)),
              apart.control_cmd regs.reg_drv_cmd_addr (inr (inl refl)),
            );
        data_written =
            tcs_set_trigger-control st c tcs true s1 data_at
            ∙ ground (
              arith,
              buffer-peek s data_at,
              loaded-peek s data_at,
              apart.enable_cmd regs.reg_drv_cmd_data (inr (inr refl)),
              apart.control_cmd regs.reg_drv_cmd_data (inr (inr refl)),
            );
        command_enabled =
            let before = bus.peek (loaded s) enable_at in
            let value = bit_or (u32 (bit_or 0 (bit 0))) before in
            ap (λ (t : ℕ). testbit t 0)
              (tcs_set_trigger-control st c tcs true s1 enable_at
                ∙ ground (arith, buffer-peek s enable_at, apart.control_enable))
            ∙ first_bit before;
        triggered = tcs_set_trigger-control st c tcs true s1 control_at ∙ ground arith;
      }
    where
      first_bit : (v : ℕ) → testbit (u32 (bit_or (u32 (bit_or 0 (bit 0))) v)) 0 ≡ true
      first_bit v =
          testbit-u32 (bit_or (u32 (bit_or 0 (bit 0))) v) 0
          ∙ ground (
            arith,
            testbit-bit_or (u32 (bit_or 0 (bit 0))) v 0,
            testbit-u32 (bit_or 0 (bit 0)) 0,
            testbit-bit_or 0 (bit 0) 0,
            testbit-bit 0 0 (omega arith),
          )

-- Which registers lie apart does not depend on the busy flags.
pub mark_busy-IsApart : (c : RpmhDeviceContext) (j : ℕ) → IsApart c j → IsApart (mark_busy c j) j
mark_busy-IsApart c j apart = record {
  addr_msgid = apart.addr_msgid;
  data_msgid = apart.data_msgid;
  data_addr = apart.data_addr;
  enable_cmd = apart.enable_cmd;
  control_cmd = apart.control_cmd;
  control_enable = apart.control_enable;
}
