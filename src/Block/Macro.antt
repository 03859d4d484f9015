-- ===== src/Block/Macro.antt =====
-- blocksstable/ob_macro_block.h and ob_macro_block.cpp: ObMacroBlock, and the assembly of a block
-- out of it by ObMacroBlockWriter::flush_current_macro_.
pub mod Contents
use lsm_storage.Prelude.{
  ℕ, ◌+◌, ◌-◌, ◌%◌, ◌^◌, Bool, true, false, ◌||◌, not, Option, none, some, List, [], ◌∷◌, ◌++◌,
  length, take, ltb, if◌then◌else◌, Ret, success, failure, zeros,
}
use lsm_storage.Prelude.Buffer.{put}
use lsm_storage.Block.Header.{
  CommonHeader, FixedHeader, new_common_header, new_fixed_header, sstable_data, common_header_size,
  fixed_header_size, serialize_common, serialize_fixed,
}
use lsm_storage.Block.MicroWriter.{DataStoreDesc}

-- HEADER_RESERVE
abbrev pub header_reserve : ℕ
header_reserve = 4096

pub record MacroBlock : Type 0 where
  pub data_buf : List ℕ
  pub macro_size : ℕ
  pub data_size : ℕ
  pub cur_macro_seq : ℕ
  pub macro_header : FixedHeader
  pub common_header : CommonHeader
  pub row_count : ℕ
  pub micro_block_count : ℕ
  pub is_inited : Bool

-- ObMacroBlock()
abbrev pub new_macro_block : MacroBlock
new_macro_block = record {
  data_buf = [];
  macro_size = 0;
  data_size = 0;
  cur_macro_seq = 0;
  macro_header = new_fixed_header;
  common_header = new_common_header;
  row_count = 0;
  micro_block_count = 0;
  is_inited = false;
}

-- new does not return null.
unfoldable pub init : DataStoreDesc → ℕ → MacroBlock → MacroBlock
init spec seq mb = record mb {
  cur_macro_seq = seq;
  macro_size = spec.macro_block_size;
  data_size = header_reserve;
  row_count = 0;
  micro_block_count = 0;
  data_buf = zeros spec.macro_block_size;
  macro_header = record (mb.macro_header) {
    header_size = fixed_header_size;
    version = 2;
    magic = 1007;
    tablet_id = spec.tablet_id;
    column_count = spec.column_count % 2 ^ 32;
    rowkey_column_count = spec.rowkey_column_count % 2 ^ 32;
    row_store_type = 0;
  };
  is_inited = true;
}

abbrev pub is_refused : List ℕ → MacroBlock → Bool
is_refused micro mb = not mb.is_inited || ltb mb.macro_size (mb.data_size + length micro)

abbrev pub after_write : List ℕ → MacroBlock → MacroBlock
after_write micro mb = record mb {
  data_buf = put mb.data_size micro mb.data_buf;
  data_size = mb.data_size + length micro;
}

-- The offset is set on success only.
unfoldable pub write_micro_block : List ℕ → MacroBlock → MacroBlock × Option ℕ
write_micro_block micro mb =
    if is_refused micro mb then (mb, none) else (after_write micro mb, some mb.data_size)

unfoldable pub add_row_count : ℕ → MacroBlock → MacroBlock
add_row_count n mb = record mb { row_count = mb.row_count + n }

unfoldable pub inc_micro_block_count : MacroBlock → MacroBlock
inc_micro_block_count mb = record mb { micro_block_count = mb.micro_block_count + 1 }

unfoldable pub build_common_header : MacroBlock → MacroBlock
build_common_header mb = record mb {
  macro_header = record (mb.macro_header) {
    row_count = mb.row_count;
    occupy_size = mb.data_size % 2 ^ 32;
    micro_block_count = mb.micro_block_count;
    micro_block_data_offset = header_reserve;
    micro_block_data_size = (mb.data_size - header_reserve) % 2 ^ 32;
  };
  common_header = record {
    header_size = common_header_size;
    version = 1;
    magic = 1001;
    attr = sstable_data;
    payload_size = mb.data_size % 2 ^ 32;
    payload_checksum = 0;
  };
  is_inited = false;
}

unfoldable pub get_total_size : MacroBlock → ℕ
get_total_size mb = common_header_size + fixed_header_size + mb.data_size

-- serialize on a buffer of the whole block: its result is not looked at.
abbrev pub stored : (List ℕ × ℕ) → Option (List ℕ × ℕ) → List ℕ × ℕ
stored before none = before
stored before (some after) = after

abbrev pub store_common : MacroBlock → List ℕ × ℕ → List ℕ × ℕ
store_common mb (buf, pos) =
    stored (buf, pos) (serialize_common mb.common_header (get_total_size mb) buf pos)

abbrev pub store_fixed : MacroBlock → List ℕ × ℕ → List ℕ × ℕ
store_fixed mb (buf, pos) =
    stored (buf, pos) (serialize_fixed mb.macro_header (get_total_size mb) buf pos)

abbrev pub store_data : MacroBlock → List ℕ × ℕ → List ℕ
store_data mb (buf, pos) = put pos (take mb.data_size mb.data_buf) buf

-- The headers and the data, one behind the other, in a buffer of the whole size.
unfoldable pub assemble : MacroBlock → List ℕ
assemble mb = store_data mb (store_fixed mb (store_common mb (zeros (get_total_size mb), 0)))
