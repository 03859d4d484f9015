-- ===== src/Compaction/Result.antt =====
-- What a merge hands out.
use lsm_storage.Prelude.{
  ℕ, ◌≡◌, ap, ◌∙◌, true, false, none, some, [], ◌∷◌, Ret, success, Option-cases, inl, inr, sym,
}
use lsm_storage.Store.{default_ctx, make_rowkey}
use lsm_storage.Memtable.Table.{Memtable}
use lsm_storage.Memtable.Table
use lsm_storage.Block.MicroWriter.{DataStoreDesc}
use lsm_storage.Block.SsTable.{Disk, SsTable, is_empty}
use lsm_storage.Block.SsTableBuilder.{new_builder, init, append_rows, close}
use lsm_storage.Block.SsTableBuilder.RowCount.{close-is_empty}
use lsm_storage.Compaction.{mini_merge}

-- The table that a mini merge of any memtable hands out reports that it is empty, whatever rows the
-- memtable holds; the merge reports success.
pub mini_merge-is_empty :
    (frozen : Memtable) (desc : DataStoreDesc) (data_path meta_path : ℕ) (d d' : Disk) (t : SsTable)
    (ret : Ret)
    → mini_merge frozen desc data_path meta_path d ≡ some (t, d', ret)
    → (is_empty t ≡ true) × (ret ≡ success)
unfolding mini_merge
mini_merge-is_empty frozen desc data_path meta_path d d' t ret run =
    let rows =
      Table.scan default_ctx (make_rowkey (some []) 0) false
        (make_rowkey (some (255 ∷ 255 ∷ 255 ∷ 255 ∷ [])) 4) false [] frozen in
    elim (Option-cases (append_rows rows (init desc data_path meta_path new_builder).0)) [
      | inl none_eq ↦
          absurd (let k : none ≡ some (t, d', ret) = (rw (mini_merge, none_eq) at run) in cc)
      | inr (b, eq) ↦
          let k : some ((close d b).0.sstable, (close d b).1, success) ≡ some (t, d', ret) =
            (rw (mini_merge, eq) at run) in
          let table : (close d b).0.sstable ≡ t = cc in
          let code : success ≡ ret = cc in
          (ap is_empty (sym table) ∙ close-is_empty desc data_path meta_path rows d b eq, sym code)
    ]
