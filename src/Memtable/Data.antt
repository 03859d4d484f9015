-- ===== src/Memtable/Data.antt =====
-- memtable/ob_memtable_data.h, and ObMvccTransNode of memtable/mvcc/ob_mvcc_row.h.
use lsm_storage.Prelude.{ℕ, ◌+◌, Bool, true, false, List, length}
use lsm_storage.Store.{DmlFlag}

-- buf_len_ is the length of `buf`.
pub record MemtableData : Type 0 where
  pub dml_flag : DmlFlag
  pub buf : List ℕ

-- sizeof(ObMemtableDataHeader): an int32 flag, padding, an int64 length.
abbrev pub header_size : ℕ
header_size = 16

pub size : MemtableData → ℕ
size d = header_size + length d.buf

-- One version of a row. The three bits of flag_ are three Booleans; prev_ and next_ are the place
-- of the node in its row's chain; `stored` is the header and the bytes behind it.
pub record TransNode : Type 0 where
  pub tx_id : ℕ
  pub trans_version : ℕ
  pub node_type : ℕ
  pub init : Bool
  pub committed : Bool
  pub aborted : Bool
  pub stored : MemtableData

unfoldable pub trans_commit : ℕ → TransNode → TransNode
trans_commit version n = record n { trans_version = version; committed = true; aborted = false }

unfoldable pub trans_abort : TransNode → TransNode
trans_abort n = record n { aborted = true; committed = false }

pub get_dml_flag : TransNode → DmlFlag
get_dml_flag n = n.stored.dml_flag

pub get_data_size : TransNode → ℕ
get_data_size n = header_size + length n.stored.buf
