-- ===== src/Memtable/Table.antt =====
-- memtable/ob_memtable.h and memtable/ob_memtable.cpp: ObMemtable.
-- The log handler is an interface here: `L` is the state that append changes. The pointer
-- log_handler_ is whether there is one, and the handler itself is passed along.
pub mod Codec
pub mod Reads
pub mod Recovery
pub mod Replay
use lsm_storage.Prelude.{
  ℕ, zero, suc, ◌+◌, ◌-◌, ◌*◌, ◌%◌, ◌^◌, Bool, true, false, ◌&&◌, ◌||◌, not, Option, none, some,
  List, [], ◌∷◌, ◌++◌, length, take, drop, get_elem?, to_le, from_le, ltb, leb, ◌==◌, if◌then◌else◌,
  Ret, success, failure,
}
use lsm_storage.Store.{
  DmlFlag, df_not_set, df_insert, df_update, df_delete, df_lock, df_max, raw, StoreRowkey,
  make_rowkey, StoreRow, empty_row, StoreCtx, default_ctx,
}
use lsm_storage.Store.Rowkey
use lsm_storage.Memtable.Data.{MemtableData, TransNode}
use lsm_storage.Memtable.Data
use lsm_storage.Memtable.Key.{MemtableKey, empty_key, generate_memtable_key, encode}
use lsm_storage.Memtable.MvccRow.{MvccRow}
use lsm_storage.Memtable.QueryEngine.{QueryEngine, empty_engine, update_row}
use lsm_storage.Memtable.MvccEngine.{
  TxNodeArg, WriteResult, empty_result, store_row, chain_at, create_kv, ensure_kv, finish_kv,
}
use lsm_storage.Memtable.MvccEngine

-- ObLogHandler::append with TABLET_OP_LOG_BASE_TYPE.
pub record LogSink (L : Type 0) : Type 0 where
  pub append : L → List ℕ → L × Ret

pub record Memtable : Type 0 where
  pub tablet_id : ℕ
  pub is_inited : Bool
  pub is_frozen : Bool
  pub row_count : ℕ
  pub occupy_size : ℕ
  pub snapshot_version : ℕ
  pub max_trans_version : ℕ
  pub chunks : ℕ
  pub current_chunk_offset : ℕ
  pub engine : QueryEngine
  pub log_handler : Bool

-- ObMemtable()
abbrev pub new_memtable : Memtable
new_memtable = record {
  tablet_id = 0;
  is_inited = false;
  is_frozen = false;
  row_count = 0;
  occupy_size = 0;
  snapshot_version = 0;
  max_trans_version = 0;
  chunks = 0;
  current_chunk_offset = 0;
  engine = empty_engine;
  log_handler = false;
}

unfoldable pub init : ℕ → Memtable → Memtable × Ret
init tablet_id m = (record m { tablet_id = tablet_id; is_inited = true }, success)

abbrev pub chunk_size : ℕ
chunk_size = 4 * 1024 * 1024

-- The pointer is a chunk, counted from 1, and an offset in it.
unfoldable pub alloc : ℕ → Memtable → Memtable × ℕ × ℕ
alloc n m =
    if (m.chunks == 0) || ltb chunk_size (m.current_chunk_offset + n)
    then (record m { chunks = m.chunks + 1; current_chunk_offset = n }, m.chunks + 1, 0)
    else (
      record m { current_chunk_offset = m.current_chunk_offset + n },
      m.chunks,
      m.current_chunk_offset,
    )

unfoldable pub set_frozen : Memtable → Memtable
set_frozen m = record m { is_frozen = true; snapshot_version = m.max_trans_version }

unfoldable pub is_empty : Memtable → Bool
is_empty m = m.row_count == 0

-- static_cast<char>
unfoldable pub to_char : DmlFlag → ℕ
to_char df_not_set = 0
to_char df_insert = 1
to_char df_update = 2
to_char df_delete = 3
to_char df_lock = 4
to_char df_max = 5
to_char (raw n) = n % 256

-- The cast back. A char above 127 is negative, so its int32 has the upper bits set.
unfoldable pub of_char : ℕ → DmlFlag
of_char c =
    if c == 0
    then df_not_set
    else if c == 1
    then df_insert
    else if c == 2
    then df_update
    else if c == 3
    then df_delete
    else if c == 4
    then df_lock
    else if c == 5
    then df_max
    else if ltb c 128
    then raw c
    else raw (2 ^ 32 - 256 + c)

-- The bytes that memcpy takes from the key; get_data is null only where the length is 0.
abbrev pub key_bytes : StoreRowkey → List ℕ
key_bytes rk = take rk.len rk.buf

-- [dml_flag 1B][key_len 4B][key][val_len 4B][value]
unfoldable pub serialize_row : StoreRow → List ℕ
serialize_row row =
    to_char row.dml_flag
    ∷ (to_le 4 row.rowkey.len
        ++ (key_bytes row.rowkey ++ (to_le 4 (length row.row_value) ++ row.row_value)))

write_value :
    StoreCtx → TxNodeArg → QueryEngine → ℕ → Option MvccRow → QueryEngine × WriteResult × Ret
write_value ctx arg qe addr none = (qe, empty_result, failure)
write_value ctx arg qe addr (some row) =
    let (row', res, ret) = MvccEngine.mvcc_write ctx addr row arg true in
    elim ret [
      | failure ↦ (qe, res, failure)
      | success ↦
          let written = update_row addr (λ _. row') qe in
          (
            (ensure_kv empty_key (some addr) written).0,
            record (finish_kv res) { mtk = empty_key },
            success,
          )
    ]

-- stored_key stays as it was made: no callee fills it in.
unfoldable pub mvcc_write :
    StoreCtx → MemtableKey → TxNodeArg → QueryEngine → QueryEngine × WriteResult × Ret
unfolding write_value
mvcc_write ctx key arg qe =
    let (qe', value, ret) = create_kv key qe in
    elim value [
      | none ↦ (qe', empty_result, failure)
      | some addr ↦ write_value ctx arg qe' addr (get_elem? qe'.rows addr)
    ]

abbrev pub row_data : StoreRow → MemtableData
row_data row = record { dml_flag = row.dml_flag; buf = row.row_value }

-- A row with an invalid key is written under the empty key.
abbrev pub row_key : StoreRow → MemtableKey
row_key row = (generate_memtable_key row empty_key).0

-- The second half of set, behind the log.
unfoldable pub set_logged : StoreCtx → StoreRow → Memtable → Memtable × Ret
unfolding mvcc_write
set_logged ctx row m =
    let arg : TxNodeArg = record {
      tx_id = ctx.tx_id;
      node_data = some (row_data row);
      column_cnt = 0;
    } in
    let (qe, res, ret) = mvcc_write ctx (row_key row) arg m.engine in
    elim ret [
      | failure ↦ (record m { engine = qe }, failure)
      | success ↦ (
        record m {
          engine = qe;
          row_count = m.row_count + 1;
          occupy_size = m.occupy_size + Data.size (row_data row);
          max_trans_version =
              if ltb m.max_trans_version ctx.snapshot_version
              then ctx.snapshot_version
              else m.max_trans_version;
        },
        success,
      )
    ]

module _ {L : Type 0} (sink : LogSink L) where
  abbrev log_row : StoreRow → Memtable → L → L × Ret
  log_row row m log = if m.log_handler then sink.append log (serialize_row row) else (log, success)

  unfoldable pub set : StoreCtx → StoreRow → Memtable → L → Memtable × L × Ret
  set ctx row m log =
      if not m.is_inited || m.is_frozen
      then (m, log, failure)
      else let (log', ret) = log_row row m log in
        elim ret [
          | failure ↦ (m, log', failure)
          | success ↦ let (m', done) = set_logged ctx row m in (m', log', done)
        ]

  -- Stops at the first row that fails.
  unfoldable pub multi_set : StoreCtx → List StoreRow → Memtable → L → Memtable × L × Ret
  multi_set ctx [] m log = (m, log, success)
  multi_set ctx (row ∷ rows) m log =
      let (m', log', ret) = set ctx row m log in
      elim ret [ failure ↦ (m', log', failure) | success ↦ multi_set ctx rows m' log' ]

unfoldable pub get : StoreCtx → StoreRowkey → List StoreRow → Memtable → List StoreRow × Ret
get ctx rowkey results m = MvccEngine.get ctx (encode (some rowkey) empty_key).0 results m.engine

-- The loop over one chain: any version that is committed or initialised.
unfoldable pub scan_chain : List TransNode → Option StoreRow
scan_chain [] = none
scan_chain (n ∷ older) =
    let rest = scan_chain older in if n.committed || n.init then some (store_row n) else rest

unfoldable pub scan_entries : QueryEngine → List (ℕ × ℕ) → List StoreRow
unfolding scan_chain
scan_entries qe [] = []
scan_entries qe ((h, addr) ∷ entries) = elim (scan_chain (chain_at qe addr)) [
  | none ↦ scan_entries qe entries
  | some row ↦ row ∷ scan_entries qe entries
]

-- The context and the range are not read.
unfoldable pub scan :
    StoreCtx → StoreRowkey → Bool → StoreRowkey → Bool → List StoreRow → Memtable → List StoreRow
unfolding scan_entries
scan ctx start_key start_exclude end_key end_exclude results m =
    results ++ scan_entries m.engine m.engine.btree

-- `n` bytes off the front; none where they are not there.
unfoldable pub read : ℕ → List ℕ → Option (List ℕ × List ℕ)
read n bytes = if leb n (length bytes) then some (take n bytes, drop n bytes) else none

infixl 5 ◌>>=◌
abbrev ◌>>=◌ {ℓ κ} : {A : Type ℓ} {B : Type κ} → Option A → (A → Option B) → Option B
none >>= f = none
some a >>= f = f a

-- memcpy fills the lower half of the int64; `high` is what its upper half held.
abbrev with_high : ℕ → List ℕ → ℕ
with_high high low = from_le low + 2 ^ 32 * high

-- The row that replay reads; none where it reads outside the buffer. The int64 variables key_len
-- and val_len are not initialised: `key_high` and `val_high` are what their upper halves hold.
unfoldable pub parse_row : ℕ → ℕ → List ℕ → Option StoreRow
parse_row key_high val_high bytes = do
  (dml, p₁) ← read 1 bytes
  (key_len, p₂) ← read 4 p₁
  (key, p₃) ← read (with_high key_high key_len) p₂
  (val_len, p₄) ← read 4 p₃
  (value, p₅) ← read (with_high val_high val_len) p₄
  some (record empty_row {
    dml_flag = of_char (from_le dml);
    rowkey = make_rowkey (some key) (with_high key_high key_len);
    row_value = value;
    trans_version = 1;
  })

-- none where the row is read outside the buffer. The handler is unset for the call of set.
unfoldable pub replay : ℕ → ℕ → Option (List ℕ) → Memtable → Option (Memtable × Ret)
replay key_high val_high none m = some (m, failure)
replay key_high val_high (some bytes) m = if length bytes == 0 then some (m, failure) else (do
  row ← parse_row key_high val_high bytes
  let unlogged = record m { log_handler = false }
  let (m', log', ret) =
      set {L = List (List ℕ)} (record { append = λ log b. (log, success) }) default_ctx row unlogged
        []
  some (record m' { log_handler = m.log_handler }, ret))
