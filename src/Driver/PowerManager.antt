-- ===== src/Driver/PowerManager.antt =====
-- Driver/RpmhCrDxe/RpmhCrDxe.c: requests to the power manager by the name of a regulator. The protocol of
-- the command database is a function from a name to an address.
use cr_dk.Rpmh.Isr.{rpmh_lib_init}
use cr_dk.Interrupt.{IrqState, HardwareInterrupt2}
use cr_dk.Rpmh.Write.{rpmh_write, rpmh_enable_vreg, rpmh_set_vreg_voltage, rpmh_set_vreg_mode}
use cr_dk.Rpmh.Types.{RpmhDeviceContext, RpmhState, RpmhTcsCmd}
use cr_dk.Status.{Status, Result, ok, err, cr_error}
use cr_dk.Mmio.{M, pure, ◌>>=◌, ◌>>◌, Bus}
use cr_dk.Base.{ℕ, ◌*◌, Bool, true, false, Option, none, some, List, [], ◌∷◌, if◌then◌else◌, get_or}

abbrev pub CmdDbProtocol : Type 0
CmdDbProtocol = (ℕ → ℕ) → Result ℕ

-- Every error of the library becomes EFI_DEVICE_ERROR.
abbrev pub or_device_error : Status → Status
or_device_error status = if cr_error status then Status.device_error else Status.success

-- "ldoc3".
abbrev pub vreg_name : ℕ → ℕ
vreg_name i = get_or (108 ∷ 100 ∷ 111 ∷ 99 ∷ 51 ∷ []) i 0

module _ {S : Type 0} where
  -- What the three requests share: the address of the name, then the library's request for it. `given` is
  -- whether `mRpmhContext` is not NULL, `db` is `mCmdDbProtocol`.
  unfoldable pub by_name :
      Bool
      → Option CmdDbProtocol
      → Option (ℕ → ℕ)
      → (ℕ → M (RpmhState S) Status)
      → M (RpmhState S) Status
  by_name false db name request = pure Status.not_found
  by_name true none name request = pure Status.not_found
  by_name true (some db) none request = pure Status.not_found
  by_name true (some db) (some name) request = elim (db name) [
    | err e ↦ pure e
    | ok address ↦ do status ← request address; pure (or_device_error status)
  ]

-- `stale` is what the library's uninitialised index holds.
module _ {S : Type 0} (bus : Bus S) (stale : ℕ) where
  unfoldable pub protocol_rpmh_write : Bool → RpmhTcsCmd → List RpmhTcsCmd → M (RpmhState S) Status
  unfolding rpmh_write
  protocol_rpmh_write false cmd cmds = pure Status.not_found
  protocol_rpmh_write true cmd cmds = do
    status ← rpmh_write bus stale cmd cmds
    pure (or_device_error status)

  unfoldable pub protocol_rpmh_enable_vreg :
      Bool → Option CmdDbProtocol → Option (ℕ → ℕ) → ℕ → M (RpmhState S) Status
  unfolding by_name rpmh_enable_vreg
  protocol_rpmh_enable_vreg given db name enable =
      by_name given db name (λ address. rpmh_enable_vreg bus given stale address enable)

  unfoldable pub protocol_rpmh_set_vreg_voltage :
      Bool → Option CmdDbProtocol → Option (ℕ → ℕ) → ℕ → M (RpmhState S) Status
  unfolding by_name rpmh_set_vreg_voltage
  protocol_rpmh_set_vreg_voltage given db name voltage_mv =
      by_name given db name (λ address. rpmh_set_vreg_voltage bus given stale address voltage_mv)

  unfoldable pub protocol_rpmh_set_vreg_mode :
      Bool → Option CmdDbProtocol → Option (ℕ → ℕ) → ℕ → M (RpmhState S) Status
  unfolding by_name rpmh_set_vreg_mode
  protocol_rpmh_set_vreg_mode given db name mode =
      by_name given db name (λ address. rpmh_set_vreg_mode bus given stale address mode)

  -- Five seconds, to watch the regulator.
  abbrev pub observe : M (RpmhState S) (Unit {0})
  observe st =
      (tt, record st { irq = record st.irq { hw = bus.delay (5 * 1000 * 1000) st.irq.hw } })

  -- The requests that the entry point makes at last, each only if the one before succeeded.
  unfoldable pub exercise_vreg : Option CmdDbProtocol → M (RpmhState S) Status
  unfolding protocol_rpmh_enable_vreg protocol_rpmh_set_vreg_voltage
  exercise_vreg db = protocol_rpmh_enable_vreg true db (some vreg_name) 1 >>= λ on.
      if cr_error on
      then pure on
      else (observe
          >> (protocol_rpmh_enable_vreg true db (some vreg_name) 0 >>= λ off.
              if cr_error off
              then pure off
              else (observe
                  >> (protocol_rpmh_set_vreg_voltage true db (some vreg_name) 3300 >>= λ set_to.
                      if cr_error set_to then pure set_to else (observe >> pure Status.success)))))

module _ {S : Type 0} (bus : Bus S) (gic : HardwareInterrupt2 S) (stale : ℕ) where
  -- `RpmhEntryPoint`: the status and `mRpmhContext`, or `none` if an assertion of the library fails.
  -- `db` is the result of locating the command database's protocol, `target` the target's context, and
  -- `located` the status of locating the driver's own protocol.
  unfoldable pub rpmh_entry_point :
      ℕ
      → ℕ
      → Result CmdDbProtocol
      → Option RpmhDeviceContext
      → M (IrqState S) Status
      → Status
      → M (IrqState S) (Option (Status × Option RpmhDeviceContext))
  unfolding rpmh_lib_init exercise_vreg
  rpmh_entry_point isr self (err e) target install located = pure (some (e, none))
  rpmh_entry_point isr self (ok db) target install located =
      rpmh_lib_init bus gic isr self (some none) target >>= λ out. elim out [
        | none ↦ pure none
        | some (status, none) ↦ pure (some (Status.device_error, none))
        | some (status, some c) ↦
            if cr_error status then pure (some (Status.device_error, some c)) else do
              installed ← install
              if cr_error installed
                  then pure (some (installed, some c))
                  else if cr_error located
                  then pure (some (located, some c))
                  else λ irq.
                      let (final, after) =
                        exercise_vreg bus stale (some db) (record { ctx = c; irq = irq }) in
                      (some (final, some after.ctx), after.irq)
      ]
