-- ===== src/Block/SsTableBuilder.antt =====
-- blocksstable/ob_sstable_builder.h and ob_sstable_builder.cpp: ObSSTableBuilder.
pub mod RowCount
use lsm_storage.Prelude.{
  ℕ, Bool, true, false, Option, none, some, List, [], ◌∷◌, ◌++◌, if◌then◌else◌, Ret, success,
  failure,
}
use lsm_storage.Store.{StoreRow}
use lsm_storage.Block.MicroWriter.{DataStoreDesc, default_desc}
use lsm_storage.Block.MacroWriter.{MacroWriter, new_macro_writer, open_writer}
use lsm_storage.Block.MacroWriter
use lsm_storage.Block.SsTableMeta.{SsTableMeta, new_meta}
use lsm_storage.Block.SsTableMeta
use lsm_storage.Block.SsTable.{Disk, SsTable, new_table, create_from_blocks}

pub record SsTableBuilder : Type 0 where
  pub desc : DataStoreDesc
  pub writer : MacroWriter
  pub macro_blocks : List (List ℕ)
  pub macro_seqs : List ℕ
  pub data_file_path : ℕ
  pub meta_file_path : ℕ
  pub meta : SsTableMeta
  pub sstable : SsTable
  pub is_closed : Bool

-- ObSSTableBuilder()
abbrev pub new_builder : SsTableBuilder
new_builder = record {
  desc = default_desc;
  writer = new_macro_writer;
  macro_blocks = [];
  macro_seqs = [];
  data_file_path = 0;
  meta_file_path = 0;
  meta = new_meta;
  sstable = new_table;
  is_closed = false;
}

unfoldable pub init : DataStoreDesc → ℕ → ℕ → SsTableBuilder → SsTableBuilder × Ret
init desc data_path meta_path b =
    let (writer, ret) = open_writer desc 0 b.writer in
    let named = record b {
      desc = desc;
      data_file_path = data_path;
      meta_file_path = meta_path;
      writer = writer;
    } in
    elim ret [
      | failure ↦ (named, failure)
      | success ↦ (
        record named {
          meta =
              SsTableMeta.init desc.column_count desc.rowkey_column_count desc.schema_version
                desc.snapshot_version b.meta;
        },
        success,
      )
    ]

abbrev is_nil : List ℕ → Bool
is_nil [] = true
is_nil (x ∷ xs) = false

-- flushed_block is empty where append_row flushes nothing.
unfoldable pub keep_block : Option (List ℕ × ℕ) → SsTableBuilder → SsTableBuilder
keep_block none b = b
keep_block (some (block, seq)) b = if is_nil block then b else record b {
  macro_blocks = b.macro_blocks ++ block ∷ [];
  macro_seqs = b.macro_seqs ++ seq ∷ [];
}

abbrev pub after_append :
    SsTableBuilder → MacroWriter × Ret × Option (List ℕ × ℕ) → SsTableBuilder × Ret
after_append b (writer, failure, flushed) = (record b { writer = writer }, failure)
after_append b (writer, success, flushed) =
    (keep_block flushed (record b { writer = writer }), success)

-- none is an exception of the micro writer.
unfoldable pub append_row : StoreRow → SsTableBuilder → Option (SsTableBuilder × Ret)
append_row row b = elim (MacroWriter.append_row row b.writer) [
  | none ↦ none
  | some result ↦ some (after_append b result)
]

-- Rows appended one after the other, whatever each call returns, as the merges do it.
unfoldable pub append_rows : List StoreRow → SsTableBuilder → Option SsTableBuilder
append_rows [] b = some b
append_rows (row ∷ rows) b = elim (append_row row b) [
  | none ↦ none
  | some (b', ret) ↦ append_rows rows b'
]

abbrev pub after_close :
    Disk → SsTableBuilder → MacroWriter × Option (List ℕ × ℕ) → SsTableBuilder × Disk × Ret
after_close d b (writer, none) = (record b { writer = writer }, d, failure)
after_close d b (writer, some (block, seq)) =
    let blocks = b.macro_blocks ++ block ∷ [] in
    let seqs = b.macro_seqs ++ seq ∷ [] in
    let (sstable, d', ret) =
      create_from_blocks blocks seqs b.meta b.data_file_path b.meta_file_path d b.sstable in
    (
      record b {
        writer = writer;
        macro_blocks = blocks;
        macro_seqs = seqs;
        sstable = sstable;
        is_closed = true;
      },
      d',
      ret,
    )

unfoldable pub close : Disk → SsTableBuilder → SsTableBuilder × Disk × Ret
close d b = if b.is_closed then (b, d, success) else after_close d b (MacroWriter.close b.writer)
