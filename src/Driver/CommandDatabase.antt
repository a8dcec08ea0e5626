-- ===== src/Driver/CommandDatabase.antt =====
-- Driver/CmdDBCrDxe/CmdDBCrDxe.c: the command database as a protocol.
use cr_dk.Cmddb.Search.{
  get_entry_address_by_name, get_entry_name_by_address, get_aux_data_by_name,
  get_aux_data_by_address,
}
use cr_dk.Cmddb.Types.{CmdDbHeader, validate_cmddb_header}
use cr_dk.Status.{Status, Result, ok, err, cr_error}
use cr_dk.Mmio.{M}
use cr_dk.Base.{ℕ, Bool, not, Option, none, some, List, if◌then◌else◌}

-- Every error of the library becomes EFI_NOT_FOUND.
abbrev pub or_not_found : {A : Type 0} → Result A → Result A
or_not_found (ok a) = ok a
or_not_found (err e) = err Status.not_found

-- The header is `gCmdDbHeader`; `out` is whether the out parameters are not NULL.
unfoldable pub protocol_get_entry_address_by_name :
    Option CmdDbHeader → Option (ℕ → ℕ) → Bool → Result ℕ
unfolding get_entry_address_by_name
protocol_get_entry_address_by_name none name out = err Status.invalid_parameter
protocol_get_entry_address_by_name (some h) none out = err Status.invalid_parameter
protocol_get_entry_address_by_name (some h) (some name) out =
    if not out
    then err Status.invalid_parameter
    else or_not_found (get_entry_address_by_name (some h) (some name) out)

unfoldable pub protocol_get_entry_name_by_address : Option CmdDbHeader → ℕ → Bool → Result (ℕ → ℕ)
unfolding get_entry_name_by_address
protocol_get_entry_name_by_address none address out = err Status.invalid_parameter
protocol_get_entry_name_by_address (some h) address out =
    if not out
    then err Status.invalid_parameter
    else or_not_found (get_entry_name_by_address (some h) address out)

unfoldable pub protocol_get_aux_data_by_name :
    Option CmdDbHeader → Option (ℕ → ℕ) → Bool → Result (ℕ × List ℕ)
unfolding get_aux_data_by_name
protocol_get_aux_data_by_name none name out = err Status.invalid_parameter
protocol_get_aux_data_by_name (some h) none out = err Status.invalid_parameter
protocol_get_aux_data_by_name (some h) (some name) out =
    if not out
    then err Status.invalid_parameter
    else or_not_found (get_aux_data_by_name (some h) (some name) out)

unfoldable pub protocol_get_aux_data_by_address :
    Option CmdDbHeader → ℕ → Bool → Result (ℕ × List ℕ)
unfolding get_aux_data_by_address
protocol_get_aux_data_by_address none address out = err Status.invalid_parameter
protocol_get_aux_data_by_address (some h) address out =
    if not out
    then err Status.invalid_parameter
    else or_not_found (get_aux_data_by_address (some h) address out)

-- `CmdDBEntryPoint`: the status and `gCmdDbHeader`. `located` is the firmware's region of the database.
unfoldable pub cmd_db_entry_point :
    {S : Type 0} → Result CmdDbHeader → M S Status → M S (Status × Option CmdDbHeader)
unfolding validate_cmddb_header
cmd_db_entry_point (err e) install s = ((e, none), s)
cmd_db_entry_point (ok h) install s =
    if not (validate_cmddb_header h)
    then ((Status.abort, none), s)
    else let (status, s') = install s in
      (((if cr_error status then status else Status.success), some h), s')
