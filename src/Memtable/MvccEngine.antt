-- ===== src/Memtable/MvccEngine.antt =====
-- memtable/mvcc/ob_mvcc_engine.h, ob_mvcc_engine.cpp and ob_mvcc_define.h: reads and writes of
-- versions through the indexes. `new` does not return null.
pub mod Create
use lsm_storage.Prelude.{
  ℕ, zero, suc, ◌+◌, Bool, true, false, ◌&&◌, ◌||◌, not, Option, none, some, List, [], ◌∷◌, ◌++◌,
  length, get_elem?, leb, ◌==◌, if◌then◌else◌, Ret, success, failure,
}
use lsm_storage.Store.{StoreRow, StoreCtx, is_delete, invalid_version, empty_rowkey}
use lsm_storage.Memtable.Data.{MemtableData, TransNode, trans_commit}
use lsm_storage.Memtable.Key.{MemtableKey, empty_key}
use lsm_storage.Memtable.MvccRow.{MvccRow, empty_mvcc_row}
use lsm_storage.Memtable.MvccRow
use lsm_storage.Memtable.QueryEngine.{QueryEngine, BtreeIterator, update_row}
use lsm_storage.Memtable.QueryEngine

pub record TxNodeArg : Type 0 where
  pub tx_id : ℕ
  pub node_data : Option MemtableData
  pub column_cnt : ℕ

pub record WriteResult : Type 0 where
  pub can_insert : Bool
  pub need_insert : Bool
  pub is_mvcc_undo : Bool
  pub tx_node : Option TransNode
  pub value : Option ℕ
  pub mtk : MemtableKey

-- reset(); mtk_ keeps its value in the source, and is empty in every result that is passed in.
abbrev pub empty_result : WriteResult
empty_result = record {
  can_insert = false;
  need_insert = false;
  is_mvcc_undo = false;
  tx_node = none;
  value = none;
  mtk = empty_key;
}

pub has_insert : WriteResult → Bool
has_insert r = r.can_insert && r.need_insert && not r.is_mvcc_undo

-- `new ObMvccRow()`: the heap with one more object, and its address.
abbrev new_row : QueryEngine → QueryEngine × ℕ
new_row qe = (record qe { rows = qe.rows ++ empty_mvcc_row ∷ [] }, length qe.rows)

-- After query_engine_->set: on a lost race the object is dropped and the key is looked up again.
after_set : MemtableKey → QueryEngine → ℕ → QueryEngine × Ret → QueryEngine × Option ℕ × Ret
after_set key before addr (qe, success) = (qe, some addr, success)
after_set key before addr (qe, failure) =
    let found = QueryEngine.get (some key) before in (before, found.0, found.1)

unfoldable pub create_kv : MemtableKey → QueryEngine → QueryEngine × Option ℕ × Ret
unfolding after_set
create_kv key qe = elim (QueryEngine.get (some key) qe).0 [
  | some addr ↦ (qe, some addr, success)
  | none ↦
      let (grown, addr) = new_row qe in
      after_set key qe addr (QueryEngine.set (some key) (some addr) grown)
]

unfoldable pub ensure_kv : MemtableKey → Option ℕ → QueryEngine → QueryEngine × Ret
ensure_kv stored_key value qe = QueryEngine.ensure (some stored_key) value qe

-- The node is committed at version 1 at once.
unfoldable pub build_tx_node : TxNodeArg → Option TransNode
unfolding trans_commit
build_tx_node arg = elim arg.node_data [
  | none ↦ none
  | some d ↦ some (
      trans_commit 1 (record {
        tx_id = arg.tx_id;
        trans_version = invalid_version;
        node_type = 0;
        init = true;
        committed = false;
        aborted = false;
        stored = d;
      }))
]

write_outcome : TransNode → ℕ → MvccRow × Bool × Ret → MvccRow × WriteResult × Ret
write_outcome node addr (row, conflict, failure) = (row, empty_result, failure)
write_outcome node addr (row, conflict, success) = (
  row,
  record empty_result {
    can_insert = true;
    need_insert = true;
    tx_node = some node;
    value = some addr;
  },
  success,
)

-- `addr` is the address of `row`.
unfoldable pub mvcc_write : StoreCtx → ℕ → MvccRow → TxNodeArg → Bool → MvccRow × WriteResult × Ret
unfolding build_tx_node write_outcome
mvcc_write ctx addr row arg check_exist = elim (build_tx_node arg) [
  | none ↦ (row, empty_result, failure)
  | some node ↦ write_outcome node addr (MvccRow.mvcc_write ctx node check_exist row)
]

-- The head is freed, so only the rest of the chain is left.
unfoldable pub mvcc_undo : MvccRow → MvccRow
mvcc_undo row = elim row.versions [ [] ↦ row | head ∷ older ↦ record row { versions = older } ]

unfoldable pub finish_kv : WriteResult → WriteResult
finish_kv res = record res { can_insert = false }

-- The row that a reader is given for a version. Its rowkey is not set.
unfoldable pub store_row : TransNode → StoreRow
store_row n = record {
  dml_flag = n.stored.dml_flag;
  trans_version = n.trans_version;
  trans_id = n.tx_id;
  rowkey = empty_rowkey;
  row_value = n.stored.buf;
  is_deleted = is_delete n.stored.dml_flag;
}

abbrev pub in_snapshot : StoreCtx → TransNode → Bool
in_snapshot ctx n =
    (ctx.snapshot_version == invalid_version) || leb n.trans_version ctx.snapshot_version

-- The loop of get. A committed version outside the snapshot is passed by, whoever wrote it.
unfoldable pub get_visible : StoreCtx → List TransNode → Option StoreRow
unfolding store_row
get_visible ctx [] = none
get_visible ctx (n ∷ older) =
    let rest = get_visible ctx older in
    if n.committed
    then (if in_snapshot ctx n then some (store_row n) else rest)
    else if n.aborted
    then rest
    else if n.tx_id == ctx.tx_id
    then some (store_row n)
    else rest

-- The loop of scan over one chain. A committed version outside the snapshot falls through to the
-- test of the transaction.
unfoldable pub scan_visible : StoreCtx → List TransNode → Option StoreRow
unfolding store_row
scan_visible ctx [] = none
scan_visible ctx (n ∷ older) =
    let rest = scan_visible ctx older in
    if n.committed && in_snapshot ctx n
    then some (store_row n)
    else if n.aborted
    then rest
    else if n.tx_id == ctx.tx_id
    then some (store_row n)
    else rest

abbrev pub chain_at : QueryEngine → ℕ → List TransNode
chain_at qe addr = elim (get_elem? qe.rows addr) [ none ↦ [] | some row ↦ row.versions ]

abbrev push : List StoreRow → Option StoreRow → List StoreRow
push results none = results
push results (some row) = results ++ row ∷ []

abbrev ret_of : Option StoreRow → Ret
ret_of none = failure
ret_of (some row) = success

-- The row that get finds; it adds this to its results and succeeds, or fails.
unfoldable pub find_visible : StoreCtx → MemtableKey → QueryEngine → Option StoreRow
unfolding get_visible
find_visible ctx key qe = elim (QueryEngine.get (some key) qe).0 [
  | none ↦ none
  | some addr ↦ get_visible ctx (chain_at qe addr)
]

unfoldable pub get : StoreCtx → MemtableKey → List StoreRow → QueryEngine → List StoreRow × Ret
unfolding find_visible
get ctx key results qe = let found = find_visible ctx key qe in (push results found, ret_of found)

-- The loop over the iterator. Each round but the last consumes an entry of the ordered map.
unfoldable pub scan_loop :
    ℕ → StoreCtx → QueryEngine → BtreeIterator → List StoreRow → Option (List StoreRow)
unfolding scan_visible
scan_loop zero ctx qe it results = none
scan_loop (suc fuel) ctx qe it results =
    let step = QueryEngine.next qe it in
    elim step.1 [
      | failure ↦ some results
      | success ↦ elim (QueryEngine.get_value step.0) [
        | none ↦ scan_loop fuel ctx qe step.0 results
        | some addr ↦
            scan_loop fuel ctx qe step.0 (push results (scan_visible ctx (chain_at qe addr)))
      ]
    ]

unfoldable pub scan :
    StoreCtx
    → Option MemtableKey
    → Bool
    → Option MemtableKey
    → Bool
    → List StoreRow
    → QueryEngine
    → Option (List StoreRow)
unfolding scan_loop
scan ctx start_key start_exclude end_key end_exclude results qe =
    scan_loop (length qe.btree + 1) ctx qe
      (QueryEngine.scan start_key start_exclude end_key end_exclude) results

-- is_locked with lock_trans_id, which is left unset where the row is not locked.
unfoldable pub check_row_locked : MemtableKey → QueryEngine → Option ℕ
check_row_locked key qe = elim (QueryEngine.get (some key) qe).0 [
  | none ↦ none
  | some addr ↦ elim (chain_at qe addr) [
    | [] ↦ none
    | head ∷ _ ↦ if not head.committed && not head.aborted then some head.tx_id else none
  ]
]
