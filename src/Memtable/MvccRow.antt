-- ===== src/Memtable/MvccRow.antt =====
-- memtable/mvcc/ob_mvcc_row.h and memtable/mvcc/ob_mvcc_row.cpp: the versions of one key.
-- The chain is the list that prev_ leads along from list_head_, newest first. The next_ links
-- run the other way and are never followed by a reader.
pub mod Write
use lsm_storage.Prelude.{
  ℕ, Bool, true, false, ◌&&◌, not, List, [], ◌∷◌, ltb, ◌==◌, if◌then◌else◌, Ret, success, failure,
}
use lsm_storage.Store.{StoreCtx, invalid_version}
use lsm_storage.Memtable.Data.{TransNode}

pub record MvccRow : Type 0 where
  pub hash_indexed : Bool
  pub btree_indexed : Bool
  pub max_trans_version : ℕ
  pub versions : List TransNode

-- ObMvccRow()
abbrev pub empty_mvcc_row : MvccRow
empty_mvcc_row = record {
  hash_indexed = false;
  btree_indexed = false;
  max_trans_version = 0;
  versions = [];
}

unfoldable pub is_empty : MvccRow → Bool
is_empty row = elim row.versions [ [] ↦ true | _ ∷ _ ↦ false ]

unfoldable pub is_transaction_set_violation : MvccRow → ℕ → Bool
is_transaction_set_violation row snapshot =
    if snapshot == invalid_version then false else ltb snapshot row.max_trans_version

-- Where the loop over the chain ends: at an undecided version of another transaction, or with
-- `head` at the start of the rest of the chain, or at its end.
pub data Walk : Type 0 where
  conflict : Walk
  stop : List TransNode → Walk

unfoldable pub walk : ℕ → List TransNode → Walk
walk tx [] = stop []
walk tx (n ∷ older) =
    let skipped = walk tx older in
    if n.aborted
    then skipped
    else if n.committed
    then stop (n ∷ older)
    else if n.tx_id == tx
    then stop (n ∷ older)
    else conflict

-- The row, write_conflict and the result. check_exist is not read.
unfoldable pub mvcc_write : StoreCtx → TransNode → Bool → MvccRow → MvccRow × Bool × Ret
unfolding walk is_transaction_set_violation
mvcc_write ctx node check_exist row = elim (walk ctx.tx_id row.versions) [
  | conflict ↦ (row, true, failure)
  | stop rest ↦
      if is_transaction_set_violation row ctx.snapshot_version then (row, false, failure) else (
        record row {
          versions = node ∷ rest;
          max_trans_version =
              if ltb row.max_trans_version ctx.snapshot_version
                && not (ctx.snapshot_version == invalid_version)
              then ctx.snapshot_version
              else row.max_trans_version;
        },
        false,
        success,
      )
]
