-- ===== src/Block/SsTableMeta.antt =====
-- blocksstable/ob_sstable_meta.h and ob_sstable_meta.cpp: ObSSTableMeta. An integer is its bit
-- pattern.
pub mod RoundTrip
use lsm_storage.Prelude.{
  ℕ, zero, suc, ◌+◌, ◌%◌, ◌^◌, Bool, true, false, ◌&&◌, Option, none, some, List, [], ◌∷◌, ◌++◌,
  length, take, drop, to_le, from_le, ltb, leb, if◌then◌else◌, Ret, success, failure,
}
use lsm_storage.Prelude.Fields.{pack, unpack}

-- ObSSTableBasicMeta
pub record BasicMeta : Type 0 where
  pub row_count : ℕ
  pub occupy_size : ℕ
  pub original_size : ℕ
  pub data_checksum : ℕ
  pub rowkey_column_count : ℕ
  pub column_cnt : ℕ
  pub data_macro_block_count : ℕ
  pub data_micro_block_count : ℕ
  pub schema_version : ℕ
  pub create_snapshot_version : ℕ
  pub upper_trans_version : ℕ
  pub max_merged_trans_version : ℕ
  pub data_index_tree_height : ℕ
  pub row_store_type : ℕ
  pub contain_uncommitted_row : ℕ

abbrev pub zero_basic_meta : BasicMeta
zero_basic_meta = record {
  row_count = 0;
  occupy_size = 0;
  original_size = 0;
  data_checksum = 0;
  rowkey_column_count = 0;
  column_cnt = 0;
  data_macro_block_count = 0;
  data_micro_block_count = 0;
  schema_version = 0;
  create_snapshot_version = 0;
  upper_trans_version = 0;
  max_merged_trans_version = 0;
  data_index_tree_height = 0;
  row_store_type = 0;
  contain_uncommitted_row = 0;
}

-- The last four bytes are padding, zero since the constructor.
abbrev pub basic_widths : List ℕ
basic_widths = 8 ∷ 8 ∷ 8 ∷ 8 ∷ 8 ∷ 8 ∷ 8 ∷ 8 ∷ 8 ∷ 8 ∷ 8 ∷ 8 ∷ 2 ∷ 1 ∷ 1 ∷ 4 ∷ []

-- sizeof(ObSSTableBasicMeta)
abbrev pub basic_size : ℕ
basic_size = 104

abbrev pub basic_values : BasicMeta → List ℕ
basic_values m =
    m.row_count ∷ m.occupy_size ∷ m.original_size ∷ m.data_checksum ∷ m.rowkey_column_count
    ∷ m.column_cnt ∷ m.data_macro_block_count ∷ m.data_micro_block_count ∷ m.schema_version
    ∷ m.create_snapshot_version ∷ m.upper_trans_version ∷ m.max_merged_trans_version
    ∷ m.data_index_tree_height ∷ m.row_store_type ∷ m.contain_uncommitted_row ∷ 0 ∷ []

unfoldable pub basic_of : List ℕ → BasicMeta
basic_of (a ∷ b ∷ c ∷ d ∷ e ∷ f ∷ g ∷ h ∷ i ∷ j ∷ k ∷ l ∷ m ∷ n ∷ o ∷ rest) = record {
  row_count = a;
  occupy_size = b;
  original_size = c;
  data_checksum = d;
  rowkey_column_count = e;
  column_cnt = f;
  data_macro_block_count = g;
  data_micro_block_count = h;
  schema_version = i;
  create_snapshot_version = j;
  upper_trans_version = k;
  max_merged_trans_version = l;
  data_index_tree_height = m;
  row_store_type = n;
  contain_uncommitted_row = o;
}
basic_of _ = zero_basic_meta

-- data_root_info_ and macro_info_ are part of it.
pub record SsTableMeta : Type 0 where
  pub basic_meta : BasicMeta
  pub root_block_data : List ℕ
  pub root_block_offset : ℕ
  pub root_block_size : ℕ
  pub macro_ids : List ℕ
  pub macro_offsets : List ℕ
  pub macro_sizes : List ℕ
  pub is_inited : Bool

-- ObSSTableMeta()
abbrev pub new_meta : SsTableMeta
new_meta = record {
  basic_meta = zero_basic_meta;
  root_block_data = [];
  root_block_offset = 0;
  root_block_size = 0;
  macro_ids = [];
  macro_offsets = [];
  macro_sizes = [];
  is_inited = false;
}

-- The tablet id is not kept.
unfoldable pub init : ℕ → ℕ → ℕ → ℕ → SsTableMeta → SsTableMeta
init column_count rowkey_column_count schema_version snapshot_version m = record m {
  basic_meta = record (m.basic_meta) {
    rowkey_column_count = rowkey_column_count;
    column_cnt = column_count;
    schema_version = schema_version;
    create_snapshot_version = snapshot_version;
    data_index_tree_height = 1;
    row_store_type = 0;
    contain_uncommitted_row = 0;
  };
  is_inited = true;
}

unfoldable pub add_macro_block : ℕ → ℕ → ℕ → ℕ → ℕ → SsTableMeta → SsTableMeta
add_macro_block seq offset size row_count micro_block_count m = record m {
  macro_ids = m.macro_ids ++ seq ∷ [];
  macro_offsets = m.macro_offsets ++ offset ∷ [];
  macro_sizes = m.macro_sizes ++ size ∷ [];
  basic_meta = record (m.basic_meta) {
    data_macro_block_count = m.basic_meta.data_macro_block_count + 1;
    data_micro_block_count = m.basic_meta.data_micro_block_count + micro_block_count;
    row_count = m.basic_meta.row_count + row_count;
    occupy_size = m.basic_meta.occupy_size + size;
  };
}

unfoldable pub set_root_index_block : List ℕ → ℕ → SsTableMeta → SsTableMeta
set_root_index_block bytes size m = record m {
  root_block_data = take size bytes;
  root_block_size = size;
}

-- The three vectors side by side; they are of one length.
unfoldable pub triple_bytes : List ℕ → List ℕ → List ℕ → List ℕ
triple_bytes (id ∷ ids) (offset ∷ offsets) (size ∷ sizes) =
    to_le 8 id ++ (to_le 8 offset ++ (to_le 8 size ++ triple_bytes ids offsets sizes))
triple_bytes _ _ _ = []

-- What is appended to `out`.
unfoldable pub serialize : SsTableMeta → List ℕ
serialize m =
    pack basic_widths (basic_values m.basic_meta)
    ++ (to_le 8 (length m.root_block_data)
        ++ (m.root_block_data
            ++ (to_le 8 (length m.macro_ids)
                ++ triple_bytes m.macro_ids m.macro_offsets m.macro_sizes)))

abbrev pub add_triple : ℕ → ℕ → ℕ → SsTableMeta → SsTableMeta
add_triple id offset size m = record m {
  macro_ids = m.macro_ids ++ id ∷ [];
  macro_offsets = m.macro_offsets ++ offset ∷ [];
  macro_sizes = m.macro_sizes ++ size ∷ [];
}

-- The loop over the triples: it stops where fewer than 24 bytes are left.
unfoldable pub read_triples : ℕ → List ℕ → SsTableMeta → SsTableMeta
read_triples zero bytes m = m
read_triples (suc count) bytes m = elim (leb 24 (length bytes)) [
  | false ↦ m
  | true ↦
      let p = drop 8 bytes in
      let p' = drop 8 p in
      read_triples count (drop 8 p')
        (add_triple (from_le (take 8 bytes)) (from_le (take 8 p)) (from_le (take 8 p')) m)
]

-- A negative int64 counts as no triple.
abbrev pub as_count : ℕ → ℕ
as_count n = if ltb n (2 ^ 63) then n else 0

abbrev pub with_count : ℕ → SsTableMeta → SsTableMeta
with_count count m = record m {
  basic_meta = record (m.basic_meta) { data_macro_block_count = count };
}

unfoldable pub read_macro_info : List ℕ → SsTableMeta → SsTableMeta × Ret
read_macro_info bytes m = elim (leb 8 (length bytes)) [
  | false ↦ (m, failure)
  | true ↦
      let count = from_le (take 8 bytes) in
      (with_count count (read_triples (as_count count) (drop 8 bytes) m), success)
]

-- A root block that the bytes do not hold is not skipped.
unfoldable pub read_root : ℕ → List ℕ → SsTableMeta → SsTableMeta × Ret
read_root root_size bytes m = elim (ltb 0 root_size && leb root_size (length bytes)) [
  | false ↦ read_macro_info bytes m
  | true ↦
      read_macro_info (drop root_size bytes) (record m { root_block_data = take root_size bytes })
]

unfoldable pub read_sized_root : List ℕ → SsTableMeta → SsTableMeta × Ret
read_sized_root bytes m = elim (leb 8 (length bytes)) [
  | false ↦ (m, failure)
  | true ↦ read_root (from_le (take 8 bytes)) (drop 8 bytes) m
]

-- The members that are not in the bytes keep their values, and triples are added to those there.
unfoldable pub deserialize : List ℕ → SsTableMeta → SsTableMeta × Ret
deserialize bytes m = elim (leb basic_size (length bytes)) [
  | false ↦ (m, failure)
  | true ↦
      read_sized_root (drop basic_size bytes)
        (record m { basic_meta = basic_of (unpack basic_widths bytes) })
]
