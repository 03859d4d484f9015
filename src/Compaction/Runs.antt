-- ===== src/Compaction/Runs.antt =====
-- A mini merge on a concrete memtable.
use lsm_storage.Prelude.{ℕ, ◌≡◌, refl, true, false, Option, none, some, List, [], ◌∷◌, Ret, success}
use lsm_storage.Store.{df_insert}
use lsm_storage.Memtable.Data.{TransNode}
use lsm_storage.Memtable.MvccRow.{empty_mvcc_row}
use lsm_storage.Memtable.Table.{Memtable, new_memtable}
use lsm_storage.Block.MicroWriter.{DataStoreDesc, default_desc}
use lsm_storage.Block.SsTable.{Disk, SsTable, new_table, is_empty}
use lsm_storage.Compaction.{mini_merge}
use lsm_storage.Compaction.Result.{mini_merge-is_empty}

abbrev version : ℕ → TransNode
version n = record {
  tx_id = 7;
  trans_version = 1;
  node_type = 0;
  init = true;
  committed = true;
  aborted = false;
  stored = record { dml_flag = df_insert; buf = n ∷ [] };
}

abbrev two_rows : Memtable
two_rows = record new_memtable {
  is_inited = true;
  is_frozen = true;
  row_count = 2;
  engine = record {
    keyhash = [];
    btree = (1, 0) ∷ (2, 1) ∷ [];
    rows =
        record empty_mvcc_row { versions = version 5 ∷ [] }
        ∷ record empty_mvcc_row { versions = version 6 ∷ [] }
        ∷ [];
  };
}

abbrev roomy_desc : DataStoreDesc
roomy_desc = record default_desc { macro_block_size = 8400; micro_block_size = 4300 }

abbrev empty_disk : Disk
empty_disk = record { file = λ p. none; is_writable = λ p. true }

abbrev merged : Option (SsTable × Disk × Ret)
merged = mini_merge two_rows roomy_desc 1 2 empty_disk

abbrev table_of : Option (SsTable × Disk × Ret) → SsTable × Disk × Ret
table_of none = (new_table, empty_disk, success)
table_of (some r) = r

mini_merge-is_empty_example :
    (is_empty (table_of merged).0 ≡ true) × ((table_of merged).2 ≡ success)
unfolding mini_merge lsm_storage.Block.SsTableBuilder.append_rows lsm_storage.Memtable.Table.scan
    lsm_storage.Memtable.Table.scan_entries lsm_storage.Memtable.Table.scan_chain
    lsm_storage.Block.SsTableBuilder.append_row lsm_storage.Block.MacroWriter.append_row
    lsm_storage.Block.SsTableBuilder.init lsm_storage.Block.MacroWriter.open_writer
    lsm_storage.Block.MicroWriter.init lsm_storage.Block.MicroWriter.append_row
    lsm_storage.Block.MicroWriter.reset lsm_storage.Block.MicroWriter.encode_row
    lsm_storage.Memtable.MvccEngine.store_row lsm_storage.Block.MacroWriter.finish_row
    lsm_storage.Block.MicroWriter.is_block_full lsm_storage.Prelude.to_le
    lsm_storage.Block.MacroWriter.flush_full lsm_storage.Block.Macro.add_row_count
    lsm_storage.Block.Macro.init lsm_storage.Block.SsTableBuilder.keep_block
mini_merge-is_empty_example =
    mini_merge-is_empty two_rows roomy_desc 1 2 empty_disk (table_of merged).1 (table_of merged).0
      (table_of merged).2 refl
