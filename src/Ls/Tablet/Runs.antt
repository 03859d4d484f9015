-- ===== src/Ls/Tablet/Runs.antt =====
-- Tablets and their store on concrete inputs.
use lsm_storage.Prelude.{ℕ, ◌≡◌, ◌⊎◌, true, false, none, some, List, [], ◌∷◌, ◌++◌, success}
use lsm_storage.Prelude.Assoc.{lookup}
use lsm_storage.Prelude.File.{empty_file}
use lsm_storage.Clog.LogStorage.{LogStorage}
use lsm_storage.Clog.PalfHandle.{PalfHandle}
use lsm_storage.Clog.Streams.{new_service}
use lsm_storage.Store.{StoreCtx, StoreRow, StoreRowkey, empty_row, df_insert}
use lsm_storage.Memtable.Table.{Memtable, LogSink}
use lsm_storage.Ls.MemTableMgr.{MemTableMgr, get_active_memtable}
use lsm_storage.Ls.Tablet.{Tablet, new_tablet, init_logged}
use lsm_storage.Ls.Tablet.Unlogged.{set_each, set_each-init_logged}
use lsm_storage.Ls.ObStore.{Store, new_store, init, get_by_name, get_by_id}
use lsm_storage.Ls.ObStore.Sound.{IsLive}
use lsm_storage.Ls.ObStore.Calls.{Call, create, drop, run, run-IsLive}

-- One empty block of 8192 bytes.
abbrev storage : LogStorage
storage = record {
  block_size = 8192;
  cur_block = none;
  max_block_id = 0;
  min_block_id = 0;
  is_inited = true;
  files = (0, empty_file) ∷ [];
}

abbrev handle : PalfHandle
handle = record {
  palf_id = 1;
  epoch = 1;
  storage = storage;
  cache = record { is_inited = false; begin_lsn = 0; bytes = []; capacity = 0 };
  end_lsn = 0;
  max_lsn = 0;
  log_id = 1;
  proposal_id = 1;
  role = 1;
  is_inited = true;
}

-- A log that takes everything.
abbrev sink : LogSink (List (List ℕ))
sink = record { append = λ log bytes. (log ++ bytes ∷ [], success) }

abbrev key : StoreRowkey
key = record { buf = 1 ∷ []; len = 1 }

abbrev row : StoreRow
row = record empty_row { dml_flag = df_insert; rowkey = key; row_value = 5 ∷ [] }

abbrev ctx : StoreCtx
ctx = record { tx_id = 7; snapshot_version = 9; timeout = 0 }

set_each-init_logged_example :
    (mgr : MemTableMgr) × (m : Memtable) × (get_active_memtable
        (init_logged 3 (some handle) new_tablet new_service).0.table_store.memtable_mgr
      ≡ some (mgr, m))
    × ((set_each sink ((ctx, row) ∷ (ctx, row) ∷ []) m []).1 ≡ [])
set_each-init_logged_example =
    set_each-init_logged sink 3 (some handle) new_service ((ctx, row) ∷ (ctx, row) ∷ []) []

-- Two tablets under one id, and the first dropped, which erases the id.
abbrev calls : List Call
calls = create (97 ∷ []) 5 ∷ create (98 ∷ []) 5 ∷ drop (97 ∷ []) ∷ []

run-IsLive_example :
    (s : Store) × (run calls (init new_store).0 ≡ some s)
    × ((get_by_name (98 ∷ []) s ≡ none)
        ⊎ ((a : ℕ) × (get_by_name (98 ∷ []) s ≡ some a) × IsLive a s))
    × ((get_by_id 5 s ≡ none)
        ⊎ ((a : ℕ) × (t : Tablet) × (get_by_id 5 s ≡ some a)
            × (lookup a s.heap ≡ some t)
            × (t.tablet_id ≡ 5)))
run-IsLive_example = run-IsLive calls (98 ∷ []) 5
