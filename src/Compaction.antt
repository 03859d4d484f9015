-- ===== src/Compaction.antt =====
-- storage/compaction/ob_compaction.h and ob_compaction.cpp: ObCompaction. An input SSTable is the
-- pointer to it: no merge looks into one.
pub mod Result
mod Runs
use lsm_storage.Prelude.{ℕ, false, Option, none, some, List, [], ◌∷◌, ◌++◌, Ret, success}
use lsm_storage.Store.{StoreRow, StoreRowkey, default_ctx, make_rowkey}
use lsm_storage.Memtable.Table.{Memtable}
use lsm_storage.Memtable.Table
use lsm_storage.Block.MicroWriter.{DataStoreDesc}
use lsm_storage.Block.SsTable.{Disk, SsTable}
use lsm_storage.Block.SsTableBuilder.{SsTableBuilder, new_builder, init, append_rows, close}

-- What the callers get: the table and the files.
abbrev closed : SsTableBuilder × Disk × Ret → SsTable × Disk × Ret
closed (b, d, ret) = (b.sstable, d, success)

-- The rows in the order of the scan; none is an exception of the micro writer.
unfoldable pub mini_merge : Memtable → DataStoreDesc → ℕ → ℕ → Disk → Option (SsTable × Disk × Ret)
mini_merge frozen desc data_path meta_path d =
    let rows =
      Table.scan default_ctx (make_rowkey (some []) 0) false
        (make_rowkey (some (255 ∷ 255 ∷ 255 ∷ 255 ∷ [])) 4) false [] frozen in
    elim (append_rows rows (init desc data_path meta_path new_builder).0) [
      | none ↦ none
      | some b ↦ some (closed (close d b))
    ]

-- The inputs are gone over and nothing is read from them.
unfoldable pub merge_sstables :
    List (Option ℕ) → DataStoreDesc → ℕ → ℕ → Disk → SsTable × Disk × Ret
merge_sstables inputs desc data_path meta_path d =
    closed (close d (init desc data_path meta_path new_builder).0)

unfoldable pub minor_merge : List (Option ℕ) → DataStoreDesc → ℕ → ℕ → Disk → SsTable × Disk × Ret
minor_merge inputs desc data_path meta_path d = merge_sstables inputs desc data_path meta_path d

unfoldable pub major_merge :
    List (Option ℕ) → Option ℕ → DataStoreDesc → ℕ → ℕ → Disk → SsTable × Disk × Ret
major_merge inputs none desc data_path meta_path d =
    merge_sstables inputs desc data_path meta_path d
major_merge inputs (some old_major) desc data_path meta_path d =
    merge_sstables (inputs ++ some old_major ∷ []) desc data_path meta_path d
