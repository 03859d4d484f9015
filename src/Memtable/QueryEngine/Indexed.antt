-- ===== src/Memtable/QueryEngine/Indexed.antt =====
-- The invariant of the two indexes and the rows behind them, while only ObMemtable writes.
use lsm_storage.Prelude.{ℕ, ◌<◌, true, false, some, List, [], ◌∷◌, length, get_elem?, ◌≡◌}
use lsm_storage.Prelude.Assoc
use lsm_storage.Memtable.Data.{TransNode}
use lsm_storage.Memtable.MvccRow.{MvccRow}
use lsm_storage.Memtable.QueryEngine.{QueryEngine}

-- Every version is committed, at version 1.
abbrev pub IsCommitted : List TransNode → Type 0
IsCommitted [] = Unit {0}
IsCommitted (n ∷ older) =
    (n.committed ≡ true) × (n.aborted ≡ false) × (n.trans_version ≡ 1) × IsCommitted older

pub record IsPlain (row : MvccRow) : Type 0 where
  pub indexed : row.btree_indexed ≡ true
  pub chain : IsCommitted row.versions

-- Both indexes file the same rows under the same hashes, each entry leads to a row, and no two
-- lead to the same one.
pub record IsIndexed (qe : QueryEngine) : Type 0 where
  pub same : qe.btree ≡ qe.keyhash
  pub bound : (h a : ℕ) → Assoc.lookup h qe.keyhash ≡ some a → a < length qe.rows
  pub apart :
      (h h' a : ℕ)
      → Assoc.lookup h qe.keyhash ≡ some a
      → Assoc.lookup h' qe.keyhash ≡ some a
      → h ≡ h'
  pub plain : (a : ℕ) (row : MvccRow) → get_elem? qe.rows a ≡ some row → IsPlain row
