-- ===== src/Ls/TableStore/Reads.antt =====
-- What ObTableStore::get finds: the first memtable that has the key, the active one first.
use lsm_storage.Prelude.{
  true, false, if◌then◌else◌, Option, none, some, List, [], ◌∷◌, success, Option-cases, Bool-cases,
  ◌≡◌, refl, ◌∙◌, inl, inr, arith,
}
use lsm_storage.Store.{StoreCtx, StoreRow, StoreRowkey}
use lsm_storage.Memtable.QueryEngine.Indexed.{IsIndexed}
use lsm_storage.Memtable.MvccEngine.{store_row, in_snapshot}
use lsm_storage.Memtable.Table.{Memtable, LogSink, is_empty, set, set_logged}
use lsm_storage.Memtable.Table.Reads.{filed, node_of, set_logged_seen}
use lsm_storage.Memtable.Table.Recovery.{find, push, get-find, set_success}
use lsm_storage.Ls.MemTableMgr.{MemTableMgr, get_active_memtable, guarded}
use lsm_storage.Ls.TableStore.{TableStore, get, get_from}

-- A memtable that counts no rows is not asked.
abbrev pub find_in : StoreCtx → StoreRowkey → Memtable → Option StoreRow
find_in c k m = if is_empty m then none else find c k m

abbrev pub find_first : StoreCtx → StoreRowkey → List Memtable → Option StoreRow
find_first c k [] = none
find_first c k (m ∷ rest) = elim (find_in c k m) [
  | none ↦ find_first c k rest
  | some row ↦ some row
]

get_from_lem :
    (c : StoreCtx) (k : StoreRowkey) (ms : List Memtable)
    → get_from c k [] ms ≡ push (find_first c k ms) []
unfolding get_from
get_from_lem c k [] = refl
get_from_lem c k (m ∷ rest) = elim (Bool-cases (is_empty m)) [
  | inl e ↦ ground (arith, get_from_lem c k rest)
  | inr e ↦ elim (Option-cases (find c k m)) [
    | inl missing ↦ ground (arith, get-find c k [] m, get_from_lem c k rest)
    | inr (row, found) ↦ ground (arith, get-find c k [] m)
  ]
]

active_lem :
    (mgr : MemTableMgr) (m : Memtable)
    → mgr.locked ≡ false
    → mgr.active_memtable ≡ some m
    → get_active_memtable mgr ≡ some (mgr, m)
unfolding get_active_memtable guarded
active_lem mgr m free e = ground arith

-- A read of a tablet with an active memtable returns, leaves the tablet as it was, and gives the
-- row of the first memtable that has one for the key: the active one, then the frozen ones in the
-- order in which they were frozen. It fails where none has one.
pub get-find_first :
    (c : StoreCtx) (k : StoreRowkey) (s : TableStore) (m : Memtable)
    → s.memtable_mgr.locked ≡ false
    → s.memtable_mgr.active_memtable ≡ some m
    → let (rows, ret) = push (find_first c k (m ∷ s.memtable_mgr.frozen_memtables)) [] in
      get c k s ≡ some (s, rows, ret)
unfolding get
get-find_first c k s m free e = ground (
  arith,
  active_lem s.memtable_mgr m free e,
  get_from_lem c k (m ∷ s.memtable_mgr.frozen_memtables),
)

set_logged_count :
    (ctx : StoreCtx) (row : StoreRow) (m : Memtable)
    → (set_logged ctx row m).1 ≡ success
    → is_empty (set_logged ctx row m).0 ≡ false
unfolding set_logged is_empty
set_logged_count ctx row m done = ground arith

-- A read sees the last write, whatever the frozen memtables hold: after a set on the active
-- memtable that succeeds, over sound indexes, a read of any key that is filed like the row's, by a
-- reader whose snapshot admits version 1, returns exactly the row that was written.
pub get_store-set :
    {L : Type 0} (sink : LogSink L) (ctx : StoreCtx) (row : StoreRow) (m : Memtable) (log : L)
    (c : StoreCtx) (k : StoreRowkey) (s : TableStore)
    → IsIndexed m.engine
    → (set sink ctx row m log).2 ≡ success
    → s.memtable_mgr.locked ≡ false
    → s.memtable_mgr.active_memtable ≡ some (set sink ctx row m log).0
    → filed row.rowkey ≡ filed k
    → in_snapshot c (node_of ctx row) ≡ true
    → get c k s ≡ some (s, store_row (node_of ctx row) ∷ [], success)
get_store-set sink ctx row m log c k s ok done free active same admits =
    let (_, now, wrote) = set_success sink ctx row m log done in
    let full : is_empty (set sink ctx row m log).0 ≡ false =
      rw now (set_logged_count ctx row m wrote) in
    let there : find c k (set sink ctx row m log).0 ≡ some (store_row (node_of ctx row)) =
      rw now (ground (arith, set_logged_seen ctx row m ok wrote c (filed k))) in
    get-find_first c k s (set sink ctx row m log).0 free active ∙ ground (arith, full, there)
