-- ===== src/Ls/Runs.antt =====
-- The memtables of a tablet on concrete inputs.
use lsm_storage.Memtable.MvccRow.{empty_mvcc_row}
use lsm_storage.Memtable.Data.{TransNode}
use lsm_storage.Ls.RecordScanner.Drain.{read_all, live_values, read_all-open_scan}
use lsm_storage.Ls.RecordScanner.{
  RecordScanner, new_scanner, scan_ctx, first_key, last_key, open_scan, rc_success, rc_record_eof,
}
use lsm_storage.Prelude.{
  ℕ, ◌<◌, ◌^◌, arith, true, false, none, some, List, [], ◌∷◌, ◌++◌, success, ◌≡◌, refl, ◌⊎◌, Option,
  Ret, suc, length,
}
use lsm_storage.Prelude.Assoc.{lookup}
use lsm_storage.Store.{StoreCtx, StoreRow, StoreRowkey, empty_row, df_insert, DmlFlag, df_delete}
use lsm_storage.Memtable.QueryEngine.{empty_engine, update_row}
use lsm_storage.Memtable.QueryEngine
use lsm_storage.Memtable.QueryEngine.Indexed.{IsIndexed}
use lsm_storage.Memtable.MvccEngine.{create_kv, store_row}
use lsm_storage.Memtable.MvccEngine
use lsm_storage.Memtable.MvccRow
use lsm_storage.Memtable.Table.{Memtable, LogSink, new_memtable, set, set_logged}
use lsm_storage.Memtable.Table
use lsm_storage.Memtable.Table.Reads.{node_of}
use lsm_storage.Memtable.Table.Recovery.{push}
use lsm_storage.Ls.MemTableMgr.{
  MemTableMgr, new_mgr, init, set_is_tablet_freeze, get_active_memtable, guarded,
}
use lsm_storage.Ls.MemTableMgr.Freeze.{set_is_tablet_freeze_cases, made, got, Reachable-frozen}
use lsm_storage.Ls.Freezer.{Freezer}
use lsm_storage.Ls.TableStore.{TableStore, get, scan}
use lsm_storage.Ls.TableStore.Reads.{find_first, get-find_first, get_store-set}

abbrev table : Memtable
table = record new_memtable { tablet_id = 3; is_inited = true }

-- A tablet that has been written to.
abbrev used : MemTableMgr
used = record new_mgr { tablet_id = 3; is_inited = true; active_memtable = some table }

freeze_example :
    ((used.active_memtable ≡ none) × (set_is_tablet_freeze used ≡ some (used, success)))
    ⊎ ((m : Memtable) × (used.active_memtable ≡ some m) × (set_is_tablet_freeze used ≡ none))
freeze_example = set_is_tablet_freeze_cases used refl

used_lem : get_active_memtable (init 3 new_mgr).0 ≡ some (used, table)
unfolding get_active_memtable guarded init Table.init
used_lem = refl

Reachable_example : (used.locked ≡ false) × (used.frozen_memtables ≡ [])
Reachable_example =
    Reachable-frozen used (got (init 3 new_mgr).0 used table table (made 3) used_lem)

abbrev freezer : Freezer
freezer = record { threshold = 0; is_inited = true }

abbrev key : StoreRowkey
key = record { buf = 1 ∷ []; len = 1 }

abbrev row : StoreRow
row = record empty_row { dml_flag = df_insert; rowkey = key; row_value = 5 ∷ [] }

abbrev ctx : StoreCtx
ctx = record { tx_id = 7; snapshot_version = 9; timeout = 0 }

abbrev sink : LogSink (List (List ℕ))
sink = record { append = λ log b. (log ++ b ∷ [], success) }

abbrev store : Memtable → TableStore
store m = record {
  tablet_id = 3;
  memtable_mgr = record used { active_memtable = some m };
  sstables = [];
  is_inited = true;
}

get_example :
    let (rows, ret) = push (find_first ctx key (table ∷ [])) [] in
    get ctx key (store table) ≡ some (store table, rows, ret)
get_example = get-find_first ctx key (store table) table refl refl

empty-IsIndexed : IsIndexed empty_engine
unfolding lookup
empty-IsIndexed = record {
  same = refl;
  bound = λ h a e. cc;
  apart = λ h h' a e e'. cc;
  plain = λ a r e. cc;
}

done_set : (set sink ctx row table []).2 ≡ success
unfolding set set_logged create_kv QueryEngine.get lookup QueryEngine.set update_row
    MvccEngine.mvcc_write MvccRow.mvcc_write
done_set = refl

get-store_example :
    let written = (set sink ctx row table []).0 in
    get ctx key (store written) ≡ some (store written, store_row (node_of ctx row) ∷ [], success)
get-store_example =
    get_store-set sink ctx row table [] ctx key (store (set sink ctx row table []).0)
      empty-IsIndexed done_set refl refl refl refl

abbrev version : DmlFlag → List ℕ → TransNode
version flag bytes = record {
  tx_id = 7;
  trans_version = 1;
  node_type = 0;
  init = true;
  committed = true;
  aborted = false;
  stored = record { dml_flag = flag; buf = bytes };
}

-- A row, a deleted row, and another row.
abbrev three_rows : Memtable
three_rows = record table {
  engine = record {
    keyhash = [];
    btree = (1, 0) ∷ (2, 1) ∷ (3, 2) ∷ [];
    rows =
        record empty_mvcc_row { versions = version df_insert (5 ∷ []) ∷ [] }
        ∷ record empty_mvcc_row { versions = version df_delete (6 ∷ []) ∷ [] }
        ∷ record empty_mvcc_row { versions = version df_insert (7 ∷ 8 ∷ []) ∷ [] }
        ∷ [];
  };
}

abbrev rows_of : Option (TableStore × List StoreRow × Ret) → List StoreRow
rows_of none = []
rows_of (some (s, rows, ret)) = rows

abbrev scanned : List StoreRow
scanned = rows_of (scan scan_ctx first_key false last_key false (store three_rows))

live_values_test : live_values scanned ≡ (5 ∷ []) ∷ (7 ∷ 8 ∷ []) ∷ []
unfolding live_values scan get_active_memtable guarded Table.scan store_row
    lsm_storage.Store.is_delete
live_values_test = refl

scanned_few : length (live_values scanned) < 2 ^ 31
scanned_few = rw live_values_test (omega arith)

read_all-open_scan_example :
    (c : RecordScanner) × (open_scan (some (store three_rows)) new_scanner
      ≡ some (some (store three_rows), c, rc_success))
    × (read_all (suc (length (live_values scanned))) c ≡ (live_values scanned, rc_record_eof))
unfolding scan get_active_memtable guarded
read_all-open_scan_example =
    read_all-open_scan (store three_rows) (store three_rows) scanned refl scanned_few
