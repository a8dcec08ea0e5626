-- ===== src/Driver/Requests.antt =====
-- A request by name, through the drivers and the libraries below them: CmdDBCrDxe.c finds the address,
-- RpmhCrDxe.c asks for the regulator there, and RpmhWrite sends the command.
use cr_dk.Driver.Published.{published, published-found, published-fails, or_device_error-success}
use cr_dk.Driver.PowerManager.{
  protocol_rpmh_set_vreg_mode, protocol_rpmh_set_vreg_voltage, protocol_rpmh_enable_vreg,
  CmdDbProtocol, by_name, or_device_error,
}
use cr_dk.Cmddb.Search.{get_entry_address_by_name}
use cr_dk.Cmddb.Types.{CmdDbHeader}
use cr_dk.Rpmh.Send.{rpmh_write-IsSent}
use cr_dk.Rpmh.Request.{IsApart, IsSent}
use cr_dk.Rpmh.Claim.{IsTaken}
use cr_dk.Rpmh.Write.{
  rpmh_write, rpmh_enable_vreg, rpmh_set_vreg_voltage, rpmh_set_vreg_mode, vreg_cmd,
}
use cr_dk.Rpmh.Types.{RpmhState}
use cr_dk.Mmio.Storage.{IsStorage}
use cr_dk.Mmio.{M, Bus, pure, ◌>>=◌}
use mathlib.Core.Path.{subst}
use cr_dk.Status.{Result-cases, Status, Result, ok, err}
use cr_dk.Base.{
  ℕ, ◌+◌, ◌≤◌, ◌<◌, ◌≡◌, refl, sym, ap, ◌∙◌, ◌≢◌, inl, inr, Bool, true, false, not, ◌||◌, Option,
  some, [], arith, ltb, ◌==◌, if◌then◌else◌,
}

-- The functions of `gRpmhCrProtocol` that take a name, with their last argument.
pub data VregRequest : Type 0 where
  vreg_enable vreg_voltage vreg_mode : ℕ → VregRequest

-- Where the command of a request goes, from the regulator's address, and its data.
abbrev pub place_of : VregRequest → ℕ × ℕ
place_of (VregRequest.vreg_enable on) = (4, on)
place_of (VregRequest.vreg_voltage mv) = (0, mv)
place_of (VregRequest.vreg_mode m) = (8, m)

-- The call of the protocol, on the context that the entry point made.
unfoldable pub ask :
    {S : Type 0} → Bus S → ℕ → CmdDbProtocol → (ℕ → ℕ) → VregRequest → M (RpmhState S) Status
unfolding protocol_rpmh_enable_vreg protocol_rpmh_set_vreg_voltage protocol_rpmh_set_vreg_mode
ask bus stale db name (VregRequest.vreg_enable on) =
    protocol_rpmh_enable_vreg bus stale true (some db) (some name) on
ask bus stale db name (VregRequest.vreg_voltage mv) =
    protocol_rpmh_set_vreg_voltage bus stale true (some db) (some name) mv
ask bus stale db name (VregRequest.vreg_mode m) =
    protocol_rpmh_set_vreg_mode bus stale true (some db) (some name) m

module _ {S : Type 0} {bus : Bus S} (st : IsStorage bus) (stale : ℕ) (header : Option CmdDbHeader)
    (name : ℕ → ℕ) (rs : RpmhState S) where
  -- The command that a request for `value` at `offset` leaves in the hardware.
  abbrev pub IsSentFor : ℕ → ℕ → RpmhState S → Type 0
  IsSentFor offset value after =
      (address : ℕ) × (get_entry_address_by_name header (some name) true ≡ ok address)
      × (address ≢ 0)
      × ((j : ℕ) × IsTaken rs.ctx after.ctx rs.ctx.tcs_config.active_tcs j
          × IsSent bus after.ctx j (vreg_cmd bus (address + offset) value) after.irq.hw)

  abbrev request_by_name : (ℕ → M (RpmhState S) Status) → Status × RpmhState S
  request_by_name request = by_name true (some (published header)) (some name) request rs

  abbrev after_lookup : (ℕ → M (RpmhState S) Status) → Result ℕ → Status × RpmhState S
  after_lookup request (ok address) =
      (or_device_error (request address rs).0, (request address rs).1)
  after_lookup request (err e) = (e, rs)

  abbrev looked_up : (ℕ → M (RpmhState S) Status) → Result ℕ → M (RpmhState S) Status
  looked_up request r = elim r [
    | err e ↦ pure e
    | ok address ↦ do status ← request address; pure (or_device_error status)
  ]

  request_by_name_lem :
      (request : ℕ → M (RpmhState S) Status)
      → request_by_name request ≡ after_lookup request (published header name)
  unfolding by_name
  request_by_name_lem request =
      elim (published header name) as (λ r. looked_up request r rs ≡ after_lookup request r) [
        | ok address ↦ refl
        | err e ↦ refl
      ]

  -- A request by name that succeeds found the name, and the library's request for its address succeeded.
  request_by_name-success :
      (request : ℕ → M (RpmhState S) Status)
      → (request_by_name request).0 ≡ Status.success
      → (address : ℕ) × (get_entry_address_by_name header (some name) true ≡ ok address)
        × ((request address rs).0 ≡ Status.success)
        × ((request_by_name request).1 ≡ (request address rs).1)
  request_by_name-success request success =
      let lem = request_by_name_lem request in
      elim (Result-cases (published header name)) [
        | inl (e, missing) ↦
            let answer = lem ∙ ap (after_lookup request) missing in
            absurd (
              published-fails header name
                (missing ∙ ap err (sym (ap (λ (a : Status × RpmhState S). a.0) answer) ∙ success)))
        | inr (address, found) ↦
            let answer = lem ∙ ap (after_lookup request) found in
            (
              address,
              published-found header name found,
              or_device_error-success (request address rs).0
                  (sym (ap (λ (a : Status × RpmhState S). a.0) answer) ∙ success),
              ap (λ (a : Status × RpmhState S). a.1) answer,
            )
      ]

  -- What a request of the library does that succeeds.
  abbrev Sends : (ℕ → M (RpmhState S) Status) → ℕ → ℕ → Type 0
  Sends request offset value =
      (address : ℕ)
      → (request address rs).0 ≡ Status.success
      → (address ≢ 0)
        × (request address rs ≡ rpmh_write bus stale (vreg_cmd bus (address + offset) value) [] rs)

  request_by_name-IsSentFor :
      (request : ℕ → M (RpmhState S) Status) (offset value : ℕ)
      → Sends request offset value
      → rs.ctx.tcs_config.active_tcs.offset + rs.ctx.tcs_config.active_tcs.tcs_count ≤ 32
      → ((j : ℕ) → j < 32 → IsApart rs.ctx j)
      → (request_by_name request).0 ≡ Status.success
      → IsSentFor offset value (request_by_name request).1
  request_by_name-IsSentFor request offset value sends fits apart success =
      let (address, found, done, after) = request_by_name-success request success in
      let (nonzero, is_write) = sends address done in
      let cmd = vreg_cmd bus (address + offset) value in
      let sent =
        rpmh_write-IsSent st stale cmd rs fits apart
          (sym (ap (λ (a : Status × RpmhState S). a.0) is_write) ∙ done) in
      let same = after ∙ ap (λ (a : Status × RpmhState S). a.1) is_write in
      (
        address,
        found,
        nonzero,
        subst
            (λ (a : RpmhState S).
              (j : ℕ) × IsTaken rs.ctx a.ctx rs.ctx.tcs_config.active_tcs j
              × IsSent bus a.ctx j cmd a.irq.hw)
            (sym same) sent,
      )

  guarded :
      (refused : Bool) (w : M (RpmhState S) Status)
      → ((if refused then pure Status.invalid_parameter else w) rs).0 ≡ Status.success
      → (refused ≡ false) × ((if refused then pure Status.invalid_parameter else w) rs ≡ w rs)
  guarded true w done = absurd (cc done)
  guarded false w done = (refl, refl)

  sends_if :
      (address : ℕ) (refused : Bool) (w : M (RpmhState S) Status)
      → (refused ≡ false → address ≢ 0)
      → ((if refused then pure Status.invalid_parameter else w) rs).0 ≡ Status.success
      → (address ≢ 0) × ((if refused then pure Status.invalid_parameter else w) rs ≡ w rs)
  sends_if address refused w checks done =
      let (allowed, same) = guarded refused w done in (checks allowed, same)

  rpmh_enable_vreg-Sends :
      (on : ℕ) → Sends (λ address. rpmh_enable_vreg bus true stale address on) 4 on
  unfolding rpmh_enable_vreg
  rpmh_enable_vreg-Sends on address done =
      sends_if address (address == 0 || not true || ltb 1 on)
        (rpmh_write bus stale (vreg_cmd bus (address + 4) on) []) (λ e. ground (arith, e)) done

  rpmh_set_vreg_voltage-Sends :
      (mv : ℕ) → Sends (λ address. rpmh_set_vreg_voltage bus true stale address mv) 0 mv
  unfolding rpmh_set_vreg_voltage
  rpmh_set_vreg_voltage-Sends mv address done =
      sends_if address (address == 0 || not true)
        (rpmh_write bus stale (vreg_cmd bus (address + 0) mv) []) (λ e. ground (arith, e)) done

  rpmh_set_vreg_mode-Sends :
      (mode : ℕ) → Sends (λ address. rpmh_set_vreg_mode bus true stale address mode) 8 mode
  unfolding rpmh_set_vreg_mode
  rpmh_set_vreg_mode-Sends mode address done =
      sends_if address (address == 0 || not true || ltb 8 mode)
        (rpmh_write bus stale (vreg_cmd bus (address + 8) mode) []) (λ e. ground (arith, e)) done

  -- A request for a regulator by its name that returns EFI_SUCCESS found the name in the command database,
  -- with an address that is not 0. It claimed the first free set of the active ones, and that set holds
  -- the command: the value of the request, for the register of that address that the request is about.
  -- The registers hold what is written to them and those of a set lie apart, and the active sets lie
  -- within the 32 flags.
  pub ask-IsSentFor :
      (r : VregRequest)
      → rs.ctx.tcs_config.active_tcs.offset + rs.ctx.tcs_config.active_tcs.tcs_count ≤ 32
      → ((j : ℕ) → j < 32 → IsApart rs.ctx j)
      → (ask bus stale (published header) name r rs).0 ≡ Status.success
      → IsSentFor (place_of r).0 (place_of r).1 (ask bus stale (published header) name r rs).1
  unfolding ask protocol_rpmh_enable_vreg protocol_rpmh_set_vreg_voltage protocol_rpmh_set_vreg_mode
  ask-IsSentFor (VregRequest.vreg_enable on) =
      request_by_name-IsSentFor (λ address. rpmh_enable_vreg bus true stale address on) 4 on
        (rpmh_enable_vreg-Sends on)
  ask-IsSentFor (VregRequest.vreg_voltage mv) =
      request_by_name-IsSentFor (λ address. rpmh_set_vreg_voltage bus true stale address mv) 0 mv
        (rpmh_set_vreg_voltage-Sends mv)
  ask-IsSentFor (VregRequest.vreg_mode m) =
      request_by_name-IsSentFor (λ address. rpmh_set_vreg_mode bus true stale address m) 8 m
        (rpmh_set_vreg_mode-Sends m)
