-- ===== src/Store.antt =====
-- storage/ob_define.h and storage/ob_i_store.h: the row, its key, and the context of a call.
-- A buffer is the list of its bytes, each below 256. A version is a non-negative int64, and a
-- transaction id, which is only tested for equality, is the bit pattern of its int64.
pub mod Murmur
pub mod Rowkey
use lsm_storage.Prelude.{ℕ, ◌-◌, ◌^◌, Bool, true, false, Option, none, some, List, [], take}

-- `raw` is a value of the int32 outside the enumerators, by its bit pattern.
pub data DmlFlag : Type 0 where
  df_not_set df_insert df_update df_delete df_lock df_max : DmlFlag
  raw : ℕ → DmlFlag

unfoldable pub is_delete : DmlFlag → Bool
is_delete df_delete = true
is_delete _ = false

abbrev pub invalid_version : ℕ
invalid_version = 2 ^ 63 - 1

-- -1
abbrev pub invalid_trans_id : ℕ
invalid_trans_id = 2 ^ 64 - 1

pub record StoreRowkey : Type 0 where
  pub buf : List ℕ
  pub len : ℕ

-- ObStoreRowkey()
abbrev pub empty_rowkey : StoreRowkey
empty_rowkey = record { buf = []; len = 0 }

-- ObStoreRowkey(data, length): the bytes are copied only where there are some.
unfoldable pub make_rowkey : Option (List ℕ) → ℕ → StoreRowkey
make_rowkey none n = record { buf = []; len = n }
make_rowkey (some bytes) n = record { buf = take n bytes; len = n }

pub record StoreRow : Type 0 where
  pub dml_flag : DmlFlag
  pub trans_version : ℕ
  pub trans_id : ℕ
  pub rowkey : StoreRowkey
  pub row_value : List ℕ
  pub is_deleted : Bool

-- ObStoreRow()
abbrev pub empty_row : StoreRow
empty_row = record {
  dml_flag = df_max;
  trans_version = 0;
  trans_id = invalid_trans_id;
  rowkey = empty_rowkey;
  row_value = [];
  is_deleted = false;
}

pub record StoreCtx : Type 0 where
  pub tx_id : ℕ
  pub snapshot_version : ℕ
  pub timeout : ℕ

-- ObStoreCtx()
abbrev pub default_ctx : StoreCtx
default_ctx = record { tx_id = invalid_trans_id; snapshot_version = invalid_version; timeout = 0 }
