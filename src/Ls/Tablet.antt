-- ===== src/Ls/Tablet.antt =====
-- tablet/ob_tablet.h and tablet/ob_tablet.cpp: ObTablet. The log service that it is given is passed
-- along, and log_handler is the address of the handler that open_ls gave.
pub mod Unlogged
mod Runs
use lsm_storage.Prelude.{
  ℕ, ◌*◌, Bool, true, false, ◌&&◌, Option, none, some, List, [], if◌then◌else◌, Ret, success,
  failure,
}
use lsm_storage.Clog.PalfHandle.{PalfHandle}
use lsm_storage.Clog.LogStorage.{Os}
use lsm_storage.Clog.LogService.{Replay, returned, replay_ls}
use lsm_storage.Clog.Streams.{LogService, open_ls, remove_ls, find_handler}
use lsm_storage.Ls.MemTableMgr.{new_mgr}
use lsm_storage.Ls.TableStore.{TableStore}
use lsm_storage.Ls.TableStore
use lsm_storage.Ls.Freezer.{Freezer}
use lsm_storage.Ls.Freezer

-- DEFAULT_MEMTABLE_SIZE
abbrev pub default_memtable_size : ℕ
default_memtable_size = 64 * 1024 * 1024

pub record Tablet : Type 0 where
  pub tablet_id : ℕ
  pub table_store : TableStore
  pub freezer : Freezer
  pub log_handler : Option ℕ
  pub has_log_service : Bool
  pub is_inited : Bool

-- ObTablet()
abbrev pub new_tablet : Tablet
new_tablet = record {
  tablet_id = 0;
  table_store = record { tablet_id = 0; memtable_mgr = new_mgr; sstables = []; is_inited = false };
  freezer = record { threshold = 0; is_inited = false };
  log_handler = none;
  has_log_service = false;
  is_inited = false;
}

-- What init does in front of the log.
unfoldable pub prepare : ℕ → Tablet → Tablet
prepare tablet_id t = record t {
  tablet_id = tablet_id;
  table_store = (TableStore.init tablet_id t.table_store).0;
  freezer = Freezer.init default_memtable_size t.freezer;
}

-- init without a log service.
unfoldable pub init : ℕ → Tablet → Tablet × Ret
unfolding prepare
init tablet_id t = (record (prepare tablet_id t) { is_inited = true }, success)

-- init with one; `made` is the handle that can be made of the directory. The handler also goes to
-- the table store, whose field nothing reads.
unfoldable pub init_logged : ℕ → Option PalfHandle → Tablet → LogService → Tablet × LogService × Ret
unfolding prepare
init_logged tablet_id made t service =
    let (service', handler) = open_ls tablet_id made service in
    let given = record (prepare tablet_id t) { has_log_service = true } in
    elim handler [
      | none ↦ (given, service', failure)
      | some address ↦
          (record given { log_handler = some address; is_inited = true }, service', success)
    ]

-- ~ObTablet()
unfoldable pub delete_tablet : Tablet → LogService → LogService
delete_tablet t service = elim t.log_handler [
  | none ↦ service
  | some address ↦ if t.has_log_service then (remove_ls t.tablet_id service).0 else service
]

unfoldable pub recover {ℓ} :
    {S : Type ℓ} → (ℕ → List ℕ → S → S × Ret) → ℕ → Os → List ℕ → Tablet → LogService → S → Replay S
recover deliver fuel os read_buf t service s =
    if t.has_log_service
    then replay_ls deliver fuel os read_buf (find_handler t.tablet_id service) s
    else returned success s
