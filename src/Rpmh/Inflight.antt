-- ===== src/Rpmh/Inflight.antt =====
-- What RpmhIsCmdInflight of rpmh.c finds in registers that hold what is written to them.
use cr_dk.Bits.Laws.{bit_and-bit}
use cr_dk.Rpmh.Tcs.{cmd_running}
use cr_dk.Cmddb.Address.{is_addr_equal}
use cr_dk.Rpmh.Write.{tcs_rounds, is_cmd_inflight, busy_with, is_tcs_busy}
use cr_dk.Rpmh.Types.{rpmh_max_cmds_each_tcs, tcs_cmd_reg, tcs_reg, RpmhDeviceContext}
use cr_dk.Mmio.Storage.{IsStorage}
use cr_dk.Base.{
  ℕ, zero, suc, ◌+◌, ◌≤◌, ◌<◌, ◌≡◌, refl, ap, ◌∙◌, inl, inr, Bool, true, false, ◌&&◌, ◌||◌, arith,
  ◌==◌, ==→eq, Bool-cases, testbit,
}
use cr_dk.Mmio.{Bus}

-- Whether a test holds of one of the `n` numbers from `i` on.
abbrev pub any_from : (ℕ → Bool) → ℕ → ℕ → Bool
any_from test zero i = false
any_from test (suc n) i = test i || any_from test n (i + 1)

pub any_from-false :
    (test : ℕ → Bool) (n i : ℕ)
    → any_from test n i ≡ false
    → (k : ℕ) → i ≤ k
    → k < i + n
    → test k ≡ false
any_from-false test zero i h k lo hi = absurd (omega arith)
any_from-false test (suc n) i h k lo hi = elim (Bool-cases (k == i)) [
  | inl here ↦ ap test (==→eq k i here) ∙ ground (arith, h)
  | inr later ↦ any_from-false test n (i + 1) (ground (arith, h)) k (ground arith) (omega arith)
]

module _ {S : Type 0} {bus : Bus S} (st : IsStorage bus) (c : RpmhDeviceContext) (request : ℕ) where
  abbrev pub enable_reg : ℕ → ℕ
  enable_reg tcs = tcs_reg c c.drv_registers.reg_drv_cmd_enable tcs

  abbrev pub addr_reg : ℕ → ℕ → ℕ
  addr_reg tcs cmd = tcs_cmd_reg c c.drv_registers.reg_drv_cmd_addr tcs cmd

  -- Command `cmd` of set `tcs` is enabled and addresses what is requested.
  abbrev pub matches : S → ℕ → ℕ → Bool
  matches s tcs cmd =
      testbit (bus.peek s (enable_reg tcs)) cmd
      && is_addr_equal request (bus.peek s (addr_reg tcs cmd))

  cmd_running-off :
      (v tcs n cmd : ℕ) (s : S)
      → cmd < 64
      → testbit v cmd ≡ false
      → cmd_running bus c v request tcs (suc n) cmd s
        ≡ cmd_running bus c v request tcs n (cmd + 1) s
  unfolding cmd_running
  cmd_running-off v tcs n cmd s h e = ground (arith, bit_and-bit v cmd h, e)

  cmd_running-hit :
      (v tcs n cmd : ℕ) (s : S)
      → cmd < 64
      → testbit v cmd ≡ true
      → is_addr_equal request (bus.peek s (addr_reg tcs cmd)) ≡ true
      → cmd_running bus c v request tcs (suc n) cmd s ≡ (true, bus.after_read (addr_reg tcs cmd) s)
  unfolding cmd_running
  cmd_running-hit v tcs n cmd s h e same = ground (arith, bit_and-bit v cmd h, e, same)

  cmd_running-miss :
      (v tcs n cmd : ℕ) (s : S)
      → cmd < 64
      → testbit v cmd ≡ true
      → is_addr_equal request (bus.peek s (addr_reg tcs cmd)) ≡ false
      → cmd_running bus c v request tcs (suc n) cmd s
        ≡ cmd_running bus c v request tcs n (cmd + 1) (bus.after_read (addr_reg tcs cmd) s)
  unfolding cmd_running
  cmd_running-miss v tcs n cmd s h e other = ground (arith, bit_and-bit v cmd h, e, other)

  cmd_running_lem :
      (tcs n cmd : ℕ) (s : S)
      → cmd + n ≤ 64
      → cmd_running bus c (bus.peek s (enable_reg tcs)) request tcs n cmd s
        ≡ (any_from (matches s tcs) n cmd, s)
  unfolding cmd_running
  cmd_running_lem tcs zero cmd s fits = refl
  cmd_running_lem tcs (suc n) cmd s fits =
      let v = bus.peek s (enable_reg tcs) in
      let ih = cmd_running_lem tcs n (cmd + 1) s (omega arith) in
      let kept = st.read_keeps (addr_reg tcs cmd) s in
      elim (Bool-cases (testbit v cmd)) [
        | inr off ↦ cmd_running-off v tcs n cmd s (omega arith) off ∙ ih ∙ ground (arith, off)
        | inl on ↦ elim (Bool-cases (is_addr_equal request (bus.peek s (addr_reg tcs cmd)))) [
          | inl same ↦
              cmd_running-hit v tcs n cmd s (omega arith) on same ∙ ground (arith, on, same, kept)
          | inr other ↦
              cmd_running-miss v tcs n cmd s (omega arith) on other
              ∙ ap (cmd_running bus c v request tcs n (cmd + 1)) kept
              ∙ ih
              ∙ ground (arith, on, other)
        ]
      ]

  -- Set `tcs` is busy with a command that addresses what is requested.
  abbrev pub set_matches : S → ℕ → Bool
  set_matches s tcs = is_tcs_busy c tcs && any_from (matches s tcs) rpmh_max_cmds_each_tcs 0

  -- What the loop over the commands of a busy set does.
  abbrev scan : ℕ → S → Bool × S
  scan i s =
      cmd_running bus c (bus.peek s (enable_reg i)) request i rpmh_max_cmds_each_tcs 0
        (bus.after_read (enable_reg i) s)

  scan_lem : (i : ℕ) (s : S) → scan i s ≡ (any_from (matches s i) rpmh_max_cmds_each_tcs 0, s)
  scan_lem i s =
      ap (cmd_running bus c (bus.peek s (enable_reg i)) request i rpmh_max_cmds_each_tcs 0)
        (st.read_keeps (enable_reg i) s)
      ∙ cmd_running_lem i rpmh_max_cmds_each_tcs 0 s (omega arith)

  busy_with-free :
      (n i : ℕ) (s : S)
      → is_tcs_busy c i ≡ false
      → busy_with bus c request (suc n) i s ≡ busy_with bus c request n (i + 1) s
  unfolding busy_with
  busy_with-free n i s free = ground (arith, free)

  busy_with-hit :
      (n i : ℕ) (s s' : S)
      → is_tcs_busy c i ≡ true
      → scan i s ≡ (true, s')
      → busy_with bus c request (suc n) i s ≡ (true, s')
  unfolding busy_with
  busy_with-hit n i s s' busy h =
      ground (arith, busy, ap (λ (p : Bool × S). p.0) h, ap (λ (p : Bool × S). p.1) h)

  busy_with-miss :
      (n i : ℕ) (s s' : S)
      → is_tcs_busy c i ≡ true
      → scan i s ≡ (false, s')
      → busy_with bus c request (suc n) i s ≡ busy_with bus c request n (i + 1) s'
  unfolding busy_with
  busy_with-miss n i s s' busy h =
      ground (arith, busy, ap (λ (p : Bool × S). p.0) h, ap (λ (p : Bool × S). p.1) h)

  busy_with_lem :
      (n i : ℕ) (s : S) → busy_with bus c request n i s ≡ (any_from (set_matches s) n i, s)
  unfolding busy_with
  busy_with_lem zero i s = refl
  busy_with_lem (suc n) i s =
      let here = any_from (matches s i) rpmh_max_cmds_each_tcs 0 in
      elim (Bool-cases (is_tcs_busy c i)) [
        | inr free ↦ busy_with-free n i s free ∙ busy_with_lem n (i + 1) s ∙ rw free refl
        | inl busy ↦ elim (Bool-cases here) [
          | inl hit ↦
              busy_with-hit n i s s busy (scan_lem i s ∙ ap (λ (b : Bool). (b, s)) hit)
              ∙ rw busy (rw hit refl)
          | inr none_here ↦
              busy_with-miss n i s s busy (scan_lem i s ∙ ap (λ (b : Bool). (b, s)) none_here)
              ∙ busy_with_lem n (i + 1) s
              ∙ rw busy (rw none_here refl)
        ]
      ]

  -- A command counts as in flight exactly if one of the active sets is busy with an enabled command
  -- whose address equals the requested one, and looking changes nothing. Reading a register changes
  -- nothing.
  pub is_cmd_inflight_lem :
      (s : S)
      → let active = c.tcs_config.active_tcs in
        is_cmd_inflight bus request c s
        ≡ (any_from (set_matches s) (tcs_rounds active) active.offset, s)
  unfolding is_cmd_inflight
  is_cmd_inflight_lem s =
      let active = c.tcs_config.active_tcs in busy_with_lem (tcs_rounds active) active.offset s
