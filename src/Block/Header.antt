-- ===== src/Block/Header.antt =====
-- blocksstable/ob_block_header.h: the headers of macro and micro blocks as bytes. An integer is
-- its bit pattern.
use lsm_storage.Prelude.{ℕ, ◌+◌, ◌*◌, Option, none, some, List, [], ◌∷◌, drop, ltb, if◌then◌else◌}
use lsm_storage.Prelude.Buffer.{put}
use lsm_storage.Prelude.Fields.{pack, unpack}

-- ObMacroBlockCommonHeader
pub record CommonHeader : Type 0 where
  pub header_size : ℕ
  pub version : ℕ
  pub magic : ℕ
  pub attr : ℕ
  pub payload_size : ℕ
  pub payload_checksum : ℕ

abbrev pub sstable_data : ℕ
sstable_data = 1

-- ObMacroBlockCommonHeader() and reset()
abbrev pub new_common_header : CommonHeader
new_common_header = record {
  header_size = 0;
  version = 1;
  magic = 1001;
  attr = sstable_data;
  payload_size = 0;
  payload_checksum = 0;
}

abbrev pub common_widths : List ℕ
common_widths = 4 ∷ 4 ∷ 4 ∷ 4 ∷ 4 ∷ 4 ∷ []

-- sizeof(ObMacroBlockCommonHeader)
abbrev pub common_header_size : ℕ
common_header_size = 24

abbrev pub common_header_values : CommonHeader → List ℕ
common_header_values h =
    h.header_size ∷ h.version ∷ h.magic ∷ h.attr ∷ h.payload_size ∷ h.payload_checksum ∷ []

-- The buffer and pos afterwards; none is -1.
unfoldable pub serialize_common : CommonHeader → ℕ → List ℕ → ℕ → Option (List ℕ × ℕ)
serialize_common h buf_len buf pos =
    if ltb buf_len (pos + common_header_size)
    then none
    else some (put pos (pack common_widths (common_header_values h)) buf, pos + common_header_size)

unfoldable pub common_of : List ℕ → Option CommonHeader
common_of (header_size ∷ version ∷ magic ∷ attr ∷ payload_size ∷ payload_checksum ∷ []) =
    some (record {
      header_size = header_size;
      version = version;
      magic = magic;
      attr = attr;
      payload_size = payload_size;
      payload_checksum = payload_checksum;
    })
common_of _ = none

abbrev pub with_pos {ℓ} : {A : Type ℓ} → ℕ → Option A → Option (A × ℕ)
with_pos pos none = none
with_pos pos (some h) = some (h, pos)

unfoldable pub deserialize_common : List ℕ → ℕ → ℕ → Option (CommonHeader × ℕ)
deserialize_common buf data_len pos =
    if ltb data_len (pos + common_header_size)
    then none
    else with_pos (pos + common_header_size) (common_of (unpack common_widths (drop pos buf)))

-- ObSSTableMacroBlockHeader::FixedHeader
pub record FixedHeader : Type 0 where
  pub header_size : ℕ
  pub version : ℕ
  pub magic : ℕ
  pub tablet_id : ℕ
  pub logical_version : ℕ
  pub data_seq : ℕ
  pub column_count : ℕ
  pub rowkey_column_count : ℕ
  pub row_store_type : ℕ
  pub row_count : ℕ
  pub occupy_size : ℕ
  pub micro_block_count : ℕ
  pub micro_block_data_offset : ℕ
  pub micro_block_data_size : ℕ
  pub idx_block_offset : ℕ
  pub idx_block_size : ℕ
  pub meta_block_offset : ℕ
  pub meta_block_size : ℕ
  pub data_checksum : ℕ

-- FixedHeader()
abbrev pub new_fixed_header : FixedHeader
new_fixed_header = record {
  header_size = 0;
  version = 0;
  magic = 0;
  tablet_id = 0;
  logical_version = 0;
  data_seq = 0;
  column_count = 0;
  rowkey_column_count = 0;
  row_store_type = 0;
  row_count = 0;
  occupy_size = 0;
  micro_block_count = 0;
  micro_block_data_offset = 0;
  micro_block_data_size = 0;
  idx_block_offset = 0;
  idx_block_size = 0;
  meta_block_offset = 0;
  meta_block_size = 0;
  data_checksum = 0;
}

abbrev pub fixed_widths : List ℕ
fixed_widths = 4 ∷ 2 ∷ 2 ∷ 8 ∷ 8 ∷ 8 ∷ 4 ∷ 4 ∷ 4 ∷ 4 ∷ 4 ∷ 4 ∷ 4 ∷ 4 ∷ 4 ∷ 4 ∷ 4 ∷ 4 ∷ 8 ∷ []

-- sizeof(FixedHeader)
abbrev pub fixed_header_size : ℕ
fixed_header_size = 88

abbrev pub fixed_header_values : FixedHeader → List ℕ
fixed_header_values h =
    h.header_size ∷ h.version ∷ h.magic ∷ h.tablet_id ∷ h.logical_version ∷ h.data_seq
    ∷ h.column_count ∷ h.rowkey_column_count ∷ h.row_store_type ∷ h.row_count ∷ h.occupy_size
    ∷ h.micro_block_count ∷ h.micro_block_data_offset ∷ h.micro_block_data_size ∷ h.idx_block_offset
    ∷ h.idx_block_size ∷ h.meta_block_offset ∷ h.meta_block_size ∷ h.data_checksum ∷ []

unfoldable pub serialize_fixed : FixedHeader → ℕ → List ℕ → ℕ → Option (List ℕ × ℕ)
serialize_fixed h buf_len buf pos =
    if ltb buf_len (pos + fixed_header_size)
    then none
    else some (put pos (pack fixed_widths (fixed_header_values h)) buf, pos + fixed_header_size)

-- ObMicroBlockHeader, each bit field a number.
pub record MicroHeader : Type 0 where
  pub magic : ℕ
  pub version : ℕ
  pub header_size : ℕ
  pub header_checksum : ℕ
  pub column_count : ℕ
  pub rowkey_column_count : ℕ
  pub has_column_checksum : ℕ
  pub has_string_out_row : ℕ
  pub all_lob_in_row : ℕ
  pub contains_hash_index : ℕ
  pub hash_index_offset : ℕ
  pub reserved : ℕ
  pub row_count : ℕ
  pub row_store_type : ℕ
  pub single_version_rows : ℕ
  pub contain_uncommitted_rows : ℕ
  pub is_last_row_last_flag : ℕ
  pub is_first_row_first_flag : ℕ
  pub flat_reserved : ℕ
  pub compressor_type : ℕ
  pub cs_reserved : ℕ
  pub row_index_offset : ℕ
  pub original_length : ℕ
  pub max_merged_trans_version : ℕ
  pub data_length : ℕ
  pub data_zlength : ℕ
  pub data_checksum : ℕ

-- ObMicroBlockHeader() and reset()
abbrev pub new_micro_header : MicroHeader
new_micro_header = record {
  magic = 1005;
  version = 1;
  header_size = 0;
  header_checksum = 0;
  column_count = 0;
  rowkey_column_count = 0;
  has_column_checksum = 0;
  has_string_out_row = 0;
  all_lob_in_row = 0;
  contains_hash_index = 0;
  hash_index_offset = 0;
  reserved = 0;
  row_count = 0;
  row_store_type = 0;
  single_version_rows = 0;
  contain_uncommitted_rows = 0;
  is_last_row_last_flag = 0;
  is_first_row_first_flag = 0;
  flat_reserved = 0;
  compressor_type = 0;
  cs_reserved = 0;
  row_index_offset = 0;
  original_length = 0;
  max_merged_trans_version = 0;
  data_length = 0;
  data_zlength = 0;
  data_checksum = 0;
}

abbrev pub micro_widths : List ℕ
micro_widths = 2 ∷ 2 ∷ 4 ∷ 2 ∷ 2 ∷ 2 ∷ 2 ∷ 4 ∷ 1 ∷ 1 ∷ 1 ∷ 1 ∷ 4 ∷ 4 ∷ 8 ∷ 4 ∷ 4 ∷ 8 ∷ []

-- get_serialize_size()
abbrev pub micro_header_size : ℕ
micro_header_size = 56

-- The bit fields share a member of two bytes and one of one byte, the first in the lowest bits.
abbrev pub micro_header_values : MicroHeader → List ℕ
micro_header_values h =
    h.magic
    ∷ h.version
    ∷ h.header_size
    ∷ h.header_checksum
    ∷ h.column_count
    ∷ h.rowkey_column_count
    ∷ (h.has_column_checksum
        + 2 * h.has_string_out_row
        + 4 * h.all_lob_in_row
        + 8 * h.contains_hash_index
        + 16 * h.hash_index_offset
        + 16384 * h.reserved)
    ∷ h.row_count
    ∷ h.row_store_type
    ∷ (h.single_version_rows
        + 2 * h.contain_uncommitted_rows
        + 4 * h.is_last_row_last_flag
        + 8 * h.is_first_row_first_flag
        + 16 * h.flat_reserved)
    ∷ h.compressor_type
    ∷ h.cs_reserved
    ∷ h.row_index_offset
    ∷ h.original_length
    ∷ h.max_merged_trans_version
    ∷ h.data_length
    ∷ h.data_zlength
    ∷ h.data_checksum
    ∷ []

unfoldable pub serialize_micro : MicroHeader → ℕ → List ℕ → ℕ → Option (List ℕ × ℕ)
serialize_micro h buf_len buf pos =
    if ltb buf_len (pos + micro_header_size)
    then none
    else some (put pos (pack micro_widths (micro_header_values h)) buf, pos + micro_header_size)
