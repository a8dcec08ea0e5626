-- ===== src/Driver/Published.antt =====
-- What RpmhCrDxe.c gets from the protocol of CmdDBCrDxe.c, and what it makes of a status.
use cr_dk.Driver.PowerManager.{CmdDbProtocol, or_device_error}
use cr_dk.Driver.CommandDatabase.{or_not_found, protocol_get_entry_address_by_name}
use cr_dk.Cmddb.Search.{get_entry_address_by_name}
use cr_dk.Cmddb.Types.{CmdDbHeader}
use cr_dk.Status.{Status, Result, ok, err}
use cr_dk.Base.{ℕ, ◌≡◌, ◌≢◌, true, Option, none, some}

-- What RpmhCrDxe.c calls in CmdDBCrDxe.c.
unfoldable pub published : Option CmdDbHeader → CmdDbProtocol
unfolding protocol_get_entry_address_by_name
published header name = protocol_get_entry_address_by_name header (some name) true

or_not_found-ok : {A : Type 0} (r : Result A) {a : A} → or_not_found r ≡ ok a → r ≡ ok a
or_not_found-ok (ok b) e = e
or_not_found-ok (err x) e = absurd (cc e)

pub published-found :
    (header : Option CmdDbHeader) (name : ℕ → ℕ) {address : ℕ}
    → published header name ≡ ok address
    → get_entry_address_by_name header (some name) true ≡ ok address
unfolding published protocol_get_entry_address_by_name
published-found none name e = absurd (cc e)
published-found (some h) name e =
    or_not_found-ok (get_entry_address_by_name (some h) (some name) true) e

or_not_found-fails : {A : Type 0} (r : Result A) → or_not_found r ≢ err Status.success
or_not_found-fails (ok b) e = absurd (cc e)
or_not_found-fails (err x) e = absurd (cc e)

pub published-fails :
    (header : Option CmdDbHeader) (name : ℕ → ℕ) → published header name ≢ err Status.success
unfolding published protocol_get_entry_address_by_name
published-fails none name e = absurd (cc e)
published-fails (some h) name e =
    or_not_found-fails (get_entry_address_by_name (some h) (some name) true) e

pub or_device_error-success : (s : Status) → or_device_error s ≡ Status.success → s ≡ Status.success
or_device_error-success Status.success e = e
or_device_error-success s e = absurd (cc e)
