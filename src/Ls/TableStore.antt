-- ===== src/Ls/TableStore.antt =====
-- tablet/ob_tablet_table_store.h and tablet/ob_tablet_table_store.cpp: the tables of a tablet.
-- An SSTable is the pointer to it: no read looks into one.
pub mod Reads
use lsm_storage.Prelude.{
  ℕ, Bool, true, false, Option, none, some, List, [], ◌∷◌, ◌++◌, ◌==◌, if◌then◌else◌, Ret, success,
  failure,
}
use lsm_storage.Store.{StoreCtx, StoreRow, StoreRowkey}
use lsm_storage.Memtable.Table.{Memtable, is_empty}
use lsm_storage.Memtable.Table
use lsm_storage.Ls.MemTableMgr.{MemTableMgr, new_mgr}
use lsm_storage.Ls.MemTableMgr

pub record TableStore : Type 0 where
  pub tablet_id : ℕ
  pub memtable_mgr : MemTableMgr
  pub sstables : List ℕ
  pub is_inited : Bool

unfoldable pub init : ℕ → TableStore → TableStore × Ret
init tablet_id s = (
  record s {
    tablet_id = tablet_id;
    memtable_mgr = (MemTableMgr.init tablet_id s.memtable_mgr).0;
    is_inited = true;
  },
  success,
)

unfoldable pub add_sstable : ℕ → TableStore → TableStore × Ret
add_sstable sst s = (record s { sstables = s.sstables ++ sst ∷ [] }, success)

unfoldable pub erase_first : ℕ → List ℕ → Option (List ℕ)
erase_first sst [] = none
erase_first sst (other ∷ rest) =
    let left = erase_first sst rest in
    if other == sst then some rest else elim left [ none ↦ none | some kept ↦ some (other ∷ kept) ]

unfoldable pub remove_sstable : ℕ → TableStore → TableStore × Ret
remove_sstable sst s = elim (erase_first sst s.sstables) [
  | none ↦ (s, failure)
  | some left ↦ (record s { sstables = left }, success)
]

abbrev some_rows : List StoreRow → Bool
some_rows [] = false
some_rows (_ ∷ _) = true

-- The memtables in order, until one of them has the key. What the last one left is kept.
unfoldable pub get_from :
    StoreCtx → StoreRowkey → List StoreRow → List Memtable → List StoreRow × Ret
get_from ctx rowkey results [] = (results, failure)
get_from ctx rowkey results (m ∷ rest) =
    let later = get_from ctx rowkey results rest in
    if is_empty m
    then later
    else let (found, ret) = Table.get ctx rowkey results m in
      elim ret [
        | failure ↦ get_from ctx rowkey found rest
        | success ↦ if some_rows found then (found, success) else get_from ctx rowkey found rest
      ]

-- None where the call never returns.
unfoldable pub get : StoreCtx → StoreRowkey → TableStore → Option (TableStore × List StoreRow × Ret)
get ctx rowkey s = elim (MemTableMgr.get_active_memtable s.memtable_mgr) [
  | none ↦ none
  | some (mgr, active) ↦
      let (rows, ret) = get_from ctx rowkey [] (active ∷ mgr.frozen_memtables) in
      some (record s { memtable_mgr = mgr }, rows, ret)
]

abbrev scan_all :
    StoreCtx
    → StoreRowkey
    → Bool
    → StoreRowkey
    → Bool
    → List StoreRow
    → List Memtable
    → List StoreRow
scan_all ctx start_key start_exclude end_key end_exclude results [] = results
scan_all ctx start_key start_exclude end_key end_exclude results (m ∷ rest) =
    scan_all ctx start_key start_exclude end_key end_exclude
      (results ++ Table.scan ctx start_key start_exclude end_key end_exclude [] m) rest

unfoldable pub scan :
    StoreCtx
    → StoreRowkey
    → Bool
    → StoreRowkey
    → Bool
    → TableStore
    → Option (TableStore × List StoreRow × Ret)
scan ctx start_key start_exclude end_key end_exclude s =
    elim (MemTableMgr.get_active_memtable s.memtable_mgr) [
      | none ↦ none
      | some (mgr, active) ↦ some (
        record s { memtable_mgr = mgr },
        scan_all ctx start_key start_exclude end_key end_exclude
            (Table.scan ctx start_key start_exclude end_key end_exclude [] active)
            mgr.frozen_memtables,
        success,
      )
    ]
