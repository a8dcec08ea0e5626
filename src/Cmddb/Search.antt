-- ===== src/Cmddb/Search.antt =====
-- The functions of Library/CmdDBLib/cmddb.c that search the database. A pointer that may be NULL is an
-- `Option`.
use cr_dk.Cmddb.Address.{slave_id_msk}
use cr_dk.Status.{ok, Status, err, Result}
use cr_dk.Bits.{get_field}
use cr_dk.Cmddb.Strings.{is_zero, cr_strncmp}
use cr_dk.Cmddb.Types.{
  entry_header_size, entry_header, CmdDbEntry, rsc_slave_hw_invalid, EntryHeader, CmdDbHeader,
  ResourceHeader,
}
use cr_dk.Base.{
  ℕ, zero, suc, ◌+◌, ◌*◌, Bool, true, false, not, ◌&&◌, ◌||◌, Option, none, some, List, [], ◌∷◌,
  ◌==◌, if◌then◌else◌,
}

-- The test of one entry: the address if one is given, or the name if one is given.
unfoldable pub entry_matches : ℕ → Option (ℕ → ℕ) → EntryHeader → Bool
unfolding cr_strncmp
entry_matches addr wanted e =
    (not (addr == 0) && (e.address == addr))
    || elim wanted [ none ↦ false | some s ↦ is_zero (cr_strncmp e.id s 8) ]

-- The test of a resource: it is skipped if it is invalid, or if the address names another one.
unfoldable pub resource_searched : ℕ → ResourceHeader → Bool
resource_searched addr r =
    not (r.slave_id == rsc_slave_hw_invalid)
    && ((addr == 0) || (r.slave_id == get_field addr slave_id_msk))

abbrev pub entry_at : CmdDbHeader → ResourceHeader → ℕ → EntryHeader
entry_at h r j = entry_header h.bytes (r.header_offset + j * entry_header_size)

abbrev pub found_entry : ResourceHeader → EntryHeader → CmdDbEntry
found_entry r e = record {
  entry_address = e.address;
  name = e.id;
  entry_length = e.data_length;
  data_at = r.data_offset + e.offset;
}

module _ (h : CmdDbHeader) (addr : ℕ) (wanted : Option (ℕ → ℕ)) where
  -- The loop over the entries of a resource, with `n` rounds left, at entry `j`.
  unfoldable pub search_resource : ResourceHeader → ℕ → ℕ → Option CmdDbEntry
  unfolding entry_matches
  search_resource r zero j = none
  search_resource r (suc n) j =
      let rest = search_resource r n (j + 1) in
      if entry_matches addr wanted (entry_at h r j)
      then some (found_entry r (entry_at h r j))
      else rest

  -- The loop over the resources.
  unfoldable pub search_resources : List ResourceHeader → Option CmdDbEntry
  unfolding search_resource resource_searched
  search_resources [] = none
  search_resources (r ∷ rs) =
      let rest = search_resources rs in
      if not (resource_searched addr r)
      then rest
      else elim (search_resource r r.count 0) [ none ↦ rest | some e ↦ some e ]

-- `FindCmdDBEntry`. The callers' `entry` is never NULL.
unfoldable pub find_cmddb_entry : Option CmdDbHeader → ℕ → Option (ℕ → ℕ) → Result CmdDbEntry
unfolding search_resources
find_cmddb_entry none addr wanted = err Status.invalid_parameter
find_cmddb_entry (some h) addr wanted =
    let given : Bool = elim wanted [ none ↦ false | some s ↦ true ] in
    if (addr == 0) && not given
    then err Status.invalid_parameter
    else elim (search_resources h addr wanted h.rsc_headers) [
      | none ↦ err Status.not_found
      | some e ↦ ok e
    ]

-- `GetCmdDBEntryAddressByName`; `out` is whether the out parameter is given.
unfoldable pub get_entry_address_by_name : Option CmdDbHeader → Option (ℕ → ℕ) → Bool → Result ℕ
unfolding find_cmddb_entry
get_entry_address_by_name none wanted out = err Status.invalid_parameter
get_entry_address_by_name (some h) none out = err Status.invalid_parameter
get_entry_address_by_name (some h) (some s) out =
    if not out
    then err Status.invalid_parameter
    else elim (find_cmddb_entry (some h) 0 (some s)) [ err e ↦ err e | ok e ↦ ok e.entry_address ]

-- `GetCmdDBEntryNameByAddress`: the eight bytes of the name.
unfoldable pub get_entry_name_by_address : Option CmdDbHeader → ℕ → Bool → Result (ℕ → ℕ)
unfolding find_cmddb_entry
get_entry_name_by_address none addr out = err Status.invalid_parameter
get_entry_name_by_address (some h) addr out =
    if not out
    then err Status.invalid_parameter
    else elim (find_cmddb_entry (some h) addr none) [ err e ↦ err e | ok e ↦ ok e.name ]

-- The bytes that `cr_memcpy` copies.
unfoldable pub copied : (ℕ → ℕ) → ℕ → ℕ → List ℕ
copied b at zero = []
copied b at (suc n) = b at ∷ copied b (at + 1) n

abbrev pub aux_data : CmdDbHeader → CmdDbEntry → ℕ × List ℕ
unfolding copied
aux_data h e = (e.entry_length, copied h.bytes e.data_at e.entry_length)

-- `GetCmdDBAuxDataByName`: the length and the bytes copied.
unfoldable pub get_aux_data_by_name :
    Option CmdDbHeader → Option (ℕ → ℕ) → Bool → Result (ℕ × List ℕ)
unfolding find_cmddb_entry copied
get_aux_data_by_name none wanted out = err Status.invalid_parameter
get_aux_data_by_name (some h) wanted out =
    if not out
    then err Status.invalid_parameter
    else elim (find_cmddb_entry (some h) 0 wanted) [ err e ↦ err e | ok e ↦ ok (aux_data h e) ]

-- `GetCmdDBAuxDataByAddress`.
unfoldable pub get_aux_data_by_address : Option CmdDbHeader → ℕ → Bool → Result (ℕ × List ℕ)
unfolding find_cmddb_entry copied
get_aux_data_by_address none addr out = err Status.invalid_parameter
get_aux_data_by_address (some h) addr out =
    if not out || (addr == 0)
    then err Status.invalid_parameter
    else elim (find_cmddb_entry (some h) addr none) [ err e ↦ err e | ok e ↦ ok (aux_data h e) ]
