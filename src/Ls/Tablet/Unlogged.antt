-- ===== src/Ls/Tablet/Unlogged.antt =====
-- A tablet and its log.
use lsm_storage.Prelude.{ℕ, ◌≡◌, refl, Option, some, false, arith, List, [], ◌∷◌, ap, ◌∙◌}
use lsm_storage.Store.{StoreCtx, StoreRow}
use lsm_storage.Memtable.Table.{Memtable, LogSink, set, set_logged, new_memtable}
use lsm_storage.Memtable.Table
use lsm_storage.Clog.PalfHandle.{PalfHandle}
use lsm_storage.Clog.Streams.{LogService}
use lsm_storage.Ls.MemTableMgr.{MemTableMgr, guarded, get_active_memtable}
use lsm_storage.Ls.Tablet.{new_tablet, init_logged, prepare}
use lsm_storage.Ls.TableStore.{TableStore}
use lsm_storage.Ls.TableStore
use lsm_storage.Ls.MemTableMgr

unlogged_step :
    {L : Type 0} (sink : LogSink L) (ctx : StoreCtx) (row : StoreRow) (m : Memtable) (log : L)
    → m.log_handler ≡ false
    → ((set sink ctx row m log).1 ≡ log) × ((set sink ctx row m log).0.log_handler ≡ false)
unfolding set set_logged
unlogged_step sink ctx row m log off = ground arith

-- Writes one after the other, whatever they return.
unfoldable pub set_each :
    {L : Type 0} → LogSink L → List (StoreCtx × StoreRow) → Memtable → L → Memtable × L
set_each sink [] m log = (m, log)
set_each sink ((ctx, row) ∷ writes) m log =
    let (m', log', ret) = set sink ctx row m log in set_each sink writes m' log'

set_each-unlogged :
    {L : Type 0} (sink : LogSink L) (writes : List (StoreCtx × StoreRow)) (m : Memtable) (log : L)
    → m.log_handler ≡ false
    → (set_each sink writes m log).1 ≡ log
unfolding set_each
set_each-unlogged sink [] m log off = refl
set_each-unlogged sink ((ctx, row) ∷ writes) m log off =
    let (same, still) = unlogged_step sink ctx row m log off in
    set_each-unlogged sink writes _ _ still ∙ same

prepared_store :
    (id : ℕ) (made : Option PalfHandle) (service : LogService)
    → (init_logged id made new_tablet service).0.table_store ≡ (prepare id new_tablet).table_store
unfolding init_logged
prepared_store id made service = ground arith

-- A tablet never logs. Whether or not a new tablet gets its log stream, its first call for the active
-- memtable returns one, and no writes to that memtable, whatever they return, change the log.
pub set_each-init_logged :
    {L : Type 0} (sink : LogSink L) (id : ℕ) (made : Option PalfHandle) (service : LogService)
    (writes : List (StoreCtx × StoreRow)) (log : L)
    → (mgr : MemTableMgr) × (m : Memtable) × (get_active_memtable
          (init_logged id made new_tablet service).0.table_store.memtable_mgr
        ≡ some (mgr, m))
      × ((set_each sink writes m log).1 ≡ log)
unfolding prepare TableStore.init MemTableMgr.init get_active_memtable guarded Table.init
set_each-init_logged sink id made service writes log = (
  _,
  (Table.init id new_memtable).0,
  ap (λ (t : TableStore). get_active_memtable t.memtable_mgr) (prepared_store id made service),
  set_each-unlogged sink writes (Table.init id new_memtable).0 log refl,
)
