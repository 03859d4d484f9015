-- ===== src/Ddl/Baseline.antt =====
-- The macro block that ObDDLService::create_database (rootserver/ob_ddl_service.cpp) writes for a
-- new database: three headers, the schema, zeros up to 2 MB.
pub mod Parts
pub mod Contents
use lsm_storage.Prelude.{ℕ, ◌+◌, ◌-◌, ◌*◌, Option, none, some, List, length, to_le, zeros}
use lsm_storage.Prelude.Buffer.{put}
use lsm_storage.Block.Header.{
  CommonHeader, FixedHeader, MicroHeader, new_common_header, new_fixed_header, new_micro_header,
  sstable_data, common_header_size, fixed_header_size, micro_header_size, serialize_common,
  serialize_fixed, serialize_micro,
}
use lsm_storage.Schema.{new_database, database_size, set_database_name, serialize_database}

-- MACRO_SIZE
abbrev pub macro_size : ℕ
macro_size = 2 * 1024 * 1024

-- schema_buf: what is serialised of the schema of the database.
unfoldable pub schema_bytes : List ℕ → ℕ → Option (List ℕ)
schema_bytes name id =
    serialize_database database_size
      (set_database_name name (record new_database { database_id = id }))

-- micro_hdr; sizeof is that of get_serialize_size.
unfoldable pub micro_header : ℕ → MicroHeader
micro_header size = record new_micro_header {
  row_count = 1;
  column_count = 1;
  data_length = size;
  data_zlength = size;
  row_store_type = 0;
  header_size = micro_header_size;
  row_index_offset = size;
}

-- sstable_hdr.fixed_header_
unfoldable pub fixed_header : ℕ → ℕ → FixedHeader
fixed_header id size = record new_fixed_header {
  magic = 1007;
  tablet_id = id;
  column_count = 1;
  row_count = 1;
  occupy_size = size;
  micro_block_count = 1;
  row_store_type = 0;
  micro_block_data_offset = common_header_size + fixed_header_size;
  micro_block_data_size = micro_header_size + size;
  header_size = fixed_header_size;
}

abbrev pub common_header : CommonHeader
common_header = record new_common_header {
  header_size = common_header_size;
  magic = 1001;
  version = 1;
  attr = sstable_data;
}

-- The results of the three calls are not looked at; a call that fails leaves buffer and offset.
abbrev pub or_same : List ℕ × ℕ → Option (List ℕ × ℕ) → List ℕ × ℕ
or_same same none = same
or_same same (some out) = out

unfoldable pub write_common : ℕ → List ℕ × ℕ
write_common room = or_same (zeros room, 0) (serialize_common common_header room (zeros room) 0)

unfoldable pub write_fixed : ℕ → ℕ → ℕ → List ℕ × ℕ → List ℕ × ℕ
unfolding fixed_header
write_fixed id size room (buf, offset) =
    or_same (buf, offset) (serialize_fixed (fixed_header id size) room buf offset)

unfoldable pub write_micro : ℕ → ℕ → List ℕ × ℕ → List ℕ × ℕ
unfolding micro_header
write_micro size room (buf, offset) =
    or_same (buf, offset) (serialize_micro (micro_header size) room buf offset)

-- The block, in a buffer of `room` bytes. payload_size_ stands 16 bytes behind the front.
unfoldable pub block_bytes : ℕ → ℕ → List ℕ → List ℕ
unfolding write_common write_fixed write_micro
block_bytes room id schema =
    let size = length schema in
    let (buf, offset) = write_micro size room (write_fixed id size room (write_common room)) in
    put 16 (to_le 4 (offset + length schema - common_header_size)) (put offset schema buf)
