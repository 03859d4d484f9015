-- ===== src/Block/MicroWriter.antt =====
-- blocksstable/ob_micro_block_writer.h and ob_micro_block_writer.cpp: ObMicroBlockWriter, and the
-- description ObDataStoreDesc of ob_data_store_desc.h.
pub mod Fill
pub mod Index
use lsm_storage.Prelude.{
  ℕ, ◌+◌, ◌-◌, ◌%◌, ◌^◌, Bool, Option, none, some, List, [], ◌∷◌, ◌++◌, length, take, to_le, ltb,
  leb, ◌==◌, if◌then◌else◌, Ret, success, failure, zeros,
}
use lsm_storage.Store.{StoreRow, StoreRowkey, empty_rowkey}
use lsm_storage.Memtable.Table.{to_char}
use lsm_storage.Block.Header.{MicroHeader, new_micro_header, micro_header_size, serialize_micro}

pub data MergeType : Type 0 where
  mini_merge minor_merge major_merge not_init : MergeType

-- ObDataStoreDesc. row_store_type_ is not read.
pub record DataStoreDesc : Type 0 where
  pub tablet_id : ℕ
  pub column_count : ℕ
  pub rowkey_column_count : ℕ
  pub macro_block_size : ℕ
  pub micro_block_size : ℕ
  pub schema_version : ℕ
  pub snapshot_version : ℕ
  pub merge_type : MergeType

-- ObDataStoreDesc()
abbrev pub default_desc : DataStoreDesc
default_desc = record {
  tablet_id = 0;
  column_count = 0;
  rowkey_column_count = 0;
  macro_block_size = 2097152;
  micro_block_size = 262144;
  schema_version = 0;
  snapshot_version = 0;
  merge_type = mini_merge;
}

-- `desc` is none before init.
pub record MicroWriter : Type 0 where
  pub desc : Option DataStoreDesc
  pub data_buf : List ℕ
  pub row_offsets : List ℕ
  pub micro_block_size : ℕ
  pub current_size : ℕ
  pub row_count : ℕ
  pub header : MicroHeader
  pub last_rowkey : StoreRowkey

-- ObMicroBlockWriter()
abbrev pub new_micro_writer : MicroWriter
new_micro_writer = record {
  desc = none;
  data_buf = [];
  row_offsets = [];
  micro_block_size = 0;
  current_size = 0;
  row_count = 0;
  header = new_micro_header;
  last_rowkey = empty_rowkey;
}

-- reset, where desc_ is set: it is read without a test.
unfoldable pub reset : DataStoreDesc → MicroWriter → MicroWriter
reset desc w = record w {
  desc = some desc;
  header = record new_micro_header {
    column_count = desc.column_count % 2 ^ 16;
    rowkey_column_count = desc.rowkey_column_count % 2 ^ 16;
    single_version_rows = 1;
  };
  data_buf = zeros micro_header_size;
  row_offsets = [];
  current_size = micro_header_size;
  row_count = 0;
  last_rowkey = empty_rowkey;
}

unfoldable pub init : DataStoreDesc → MicroWriter → MicroWriter × Ret
init desc w = (reset desc (record w { micro_block_size = desc.micro_block_size }), success)

-- The bytes of append with an int32 length: none where the length is negative, for which
-- std::string throws.
abbrev append_count : ℕ → List ℕ → Option (List ℕ)
append_count n bytes = if leb (2 ^ 31) n then none else some (take n bytes)

-- val_len > 0
abbrev value_bytes : ℕ → List ℕ → List ℕ
value_bytes n bytes = if leb (2 ^ 31) n then [] else take n bytes

-- [dml_flag 1B][key_len 4B][key][val_len 4B][value], the lengths cut to int32. The key's buffer
-- holds at least its length.
unfoldable pub encode_row : StoreRow → Option (List ℕ)
encode_row row =
    let key_len = row.rowkey.len % 2 ^ 32 in
    let val_len = length row.row_value % 2 ^ 32 in
    elim (append_count key_len row.rowkey.buf) [
      | none ↦ none
      | some key ↦ some (
          to_char row.dml_flag
          ∷ (to_le 4 key_len ++ (key ++ (to_le 4 val_len ++ value_bytes val_len row.row_value))))
    ]

abbrev pub appended : StoreRow → List ℕ → MicroWriter → MicroWriter
appended row bytes w = record w {
  data_buf = w.data_buf ++ bytes;
  row_offsets = w.row_offsets ++ (length w.data_buf % 2 ^ 32) ∷ [];
  current_size = length w.data_buf + length bytes;
  row_count = w.row_count + 1;
  last_rowkey = row.rowkey;
}

-- none is the exception.
unfoldable pub append_row : StoreRow → MicroWriter → Option (MicroWriter × Ret)
append_row row w = elim w.desc [
  | none ↦ some (w, failure)
  | some desc ↦ elim (encode_row row) [
    | none ↦ none
    | some bytes ↦ some (appended row bytes w, success)
  ]
]

unfoldable pub is_block_full : MicroWriter → Bool
is_block_full w = leb w.micro_block_size (w.current_size + 4096)

-- The int32 of each row's start.
unfoldable pub index_bytes : List ℕ → List ℕ
index_bytes [] = []
index_bytes (off ∷ offsets) = to_le 4 off ++ index_bytes offsets

unfoldable pub built_header : MicroWriter → ℕ → MicroHeader
built_header w data_length = record w.header {
  row_count = w.row_count % 2 ^ 32;
  row_index_offset = length w.data_buf % 2 ^ 32;
  data_length = data_length % 2 ^ 32;
  data_zlength = data_length % 2 ^ 32;
  original_length = data_length % 2 ^ 32;
  data_checksum = 0;
  max_merged_trans_version = 0;
}

-- The header goes over the front of the buffer where it fits; its result is not looked at.
unfoldable pub store_header : MicroHeader → List ℕ → List ℕ
store_header h buf = elim (serialize_micro h (length buf) buf 0) [
  | none ↦ buf
  | some (buf', pos) ↦ buf'
]

-- The block that is handed out.
unfoldable pub block_of : MicroWriter → List ℕ
block_of w =
    let buf = w.data_buf ++ index_bytes w.row_offsets in
    store_header (built_header w (length buf)) buf

abbrev pub restart : MicroWriter → Option DataStoreDesc → MicroWriter
restart w none = w
restart w (some desc) = reset desc w

-- The writer afterwards and the block; there is a desc where there is a row.
unfoldable pub build_block : MicroWriter → MicroWriter × List ℕ
build_block w = if w.row_count == 0 then (w, []) else (restart w w.desc, block_of w)
