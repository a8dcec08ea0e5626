-- ===== src/Cmddb/Types.antt =====
-- The command database of Include/Library/cmddb.h and Library/CmdDBLib/cmddb_internal.h. What the
-- firmware left in memory behind the header is a function from offsets to bytes.
use cr_dk.Base.{ℕ, ◌+◌, ◌*◌, ◌^◌, Bool, List, ◌==◌}

pub record ResourceHeader : Type 0 where
  pub slave_id : ℕ
  pub header_offset : ℕ
  pub data_offset : ℕ
  pub count : ℕ
  pub version : ℕ

-- The flexible array member `data` is `bytes`.
pub record CmdDbHeader : Type 0 where
  pub db_version : ℕ
  pub magic : ℕ
  pub rsc_headers : List ResourceHeader
  pub checksum : ℕ
  pub bytes : ℕ → ℕ

-- The fields of an entry that the library reads; `id` is its eight bytes.
pub record EntryHeader : Type 0 where
  pub id : ℕ → ℕ
  pub address : ℕ
  pub data_length : ℕ
  pub offset : ℕ

-- `cmd_db_entry`; `data_at` is where in `bytes` its pointer points.
pub record CmdDbEntry : Type 0 where
  pub entry_address : ℕ
  pub name : ℕ → ℕ
  pub entry_length : ℕ
  pub data_at : ℕ

abbrev pub cmd_db_magic : ℕ
cmd_db_magic = 0x0c03_30db

abbrev pub cmd_db_max_slaves : ℕ
cmd_db_max_slaves = 8

abbrev pub rsc_slave_hw_invalid : ℕ
rsc_slave_hw_invalid = 0

abbrev pub entry_header_size : ℕ
entry_header_size = 24

abbrev pub read_u16 : (ℕ → ℕ) → ℕ → ℕ
read_u16 b at = b at + 2 ^ 8 * b (at + 1)

abbrev pub read_u32 : (ℕ → ℕ) → ℕ → ℕ
read_u32 b at = read_u16 b at + 2 ^ 16 * read_u16 b (at + 2)

-- The entry at an offset: little-endian, and packed.
abbrev pub entry_header : (ℕ → ℕ) → ℕ → EntryHeader
entry_header b at = record {
  id = λ i. b (at + i);
  address = read_u32 b (at + 16);
  data_length = read_u16 b (at + 20);
  offset = read_u16 b (at + 22);
}

unfoldable pub validate_cmddb_header : CmdDbHeader → Bool
validate_cmddb_header h = h.magic == cmd_db_magic
