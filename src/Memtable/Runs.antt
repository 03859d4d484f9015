-- ===== src/Memtable/Runs.antt =====
-- The memtable on concrete inputs.
use lsm_storage.Prelude.{
  ℕ, true, false, some, none, List, [], ◌∷◌, ◌++◌, ◌≡◌, refl, ◌⊎◌, inl, inr, arith, ◌&&◌, ◌==◌,
  if◌then◌else◌, success, failure,
}
use lsm_storage.Prelude.Assoc
use lsm_storage.Prelude.Assoc.{lookup}
use lsm_storage.Store.{
  StoreRow, StoreCtx, StoreRowkey, empty_row, default_ctx, df_insert, invalid_version,
}
use lsm_storage.Store.Rowkey
use lsm_storage.Store.Murmur.{mix_word, mix_words, xor_tail, mix_tail, murmur_bytes}
use lsm_storage.Memtable.Data.{TransNode}
use lsm_storage.Memtable.Key.{murmurhash, encode, wrapper_hash, generate_memtable_key}
use lsm_storage.Memtable.MvccRow.{is_empty, MvccRow, mvcc_write}
use lsm_storage.Memtable.MvccRow.Write.{
  IsBlocked, IsStale, written, mvcc_write_cases, IsHeld, mvcc_write-IsHeld,
}
use lsm_storage.Memtable.QueryEngine.{QueryEngine, empty_engine, update_row}
use lsm_storage.Memtable.QueryEngine
use lsm_storage.Memtable.MvccEngine
use lsm_storage.Memtable.QueryEngine.Scan.{drain, addresses, drain-scan}
use lsm_storage.Memtable.QueryEngine.Indexed.{IsIndexed}
use lsm_storage.Memtable.MvccEngine.{create_kv, store_row, in_snapshot}
use lsm_storage.Memtable.MvccEngine.Create.{find_at, version_at}
use lsm_storage.Memtable.Table.{Memtable, LogSink, new_memtable, set, set_logged, get}
use lsm_storage.Memtable.Table.Codec.{IsStorable, logged}
use lsm_storage.Memtable.Table.Reads.{Outcome, IsLate, filed, node_of, set_logged-Outcome}
use lsm_storage.Memtable.Table.Recovery.{get-set, get-set_failure}
use lsm_storage.Memtable.Table.Replay.{
  Agree, recording, set_all, set_late, replay_all, replay_all-Agree, late_write-replayed,
}

abbrev key : ℕ → StoreRowkey
key n = record { buf = n ∷ []; len = 1 }

abbrev row : ℕ → ℕ → StoreRow
row k v = record empty_row { dml_flag = df_insert; rowkey = key k; row_value = v ∷ [] }

row-IsStorable : (k v : ℕ) → IsStorable (row k v)
row-IsStorable k v = record {
  named = tt;
  whole = refl;
  key_fits = omega arith;
  value_fits = omega arith;
}

-- Transaction 7 at a snapshot.
abbrev at_snapshot : ℕ → StoreCtx
at_snapshot v = record { tx_id = 7; snapshot_version = v; timeout = 0 }

-- A log that takes everything.
abbrev sink : LogSink (List (List ℕ))
sink = record { append = λ log b. (log ++ b ∷ [], success) }

abbrev table : Memtable
table = record new_memtable { is_inited = true; log_handler = true }

empty-IsIndexed : IsIndexed empty_engine
unfolding lookup
empty-IsIndexed = record {
  same = refl;
  bound = λ h a e. cc;
  apart = λ h h' a e e'. cc;
  plain = λ a r e. cc;
}

pure_set : (set sink (at_snapshot 9) (row 1 5) table []).2 ≡ success
unfolding set set_logged create_kv QueryEngine.get lookup QueryEngine.set update_row
    MvccEngine.mvcc_write mvcc_write
pure_set = refl

pure_set_logged : (set_logged (at_snapshot 9) (row 1 5) table).1 ≡ success
unfolding set_logged create_kv QueryEngine.get lookup QueryEngine.set update_row
    MvccEngine.mvcc_write mvcc_write
pure_set_logged = refl

-- The table after a write at snapshot 9.
abbrev table_9 : Memtable
table_9 = (set_logged (at_snapshot 9) (row 1 5) table).0

table_9-IsIndexed : IsIndexed table_9.engine
table_9-IsIndexed = (set_logged-Outcome (at_snapshot 9) (row 1 5) table empty-IsIndexed).0

table_9-IsOpen : (table_9.is_inited ≡ true) × (table_9.is_frozen ≡ false)
unfolding set_logged create_kv QueryEngine.get lookup QueryEngine.set update_row
    MvccEngine.mvcc_write mvcc_write
table_9-IsOpen = (refl, refl)

table_9-IsLate : IsLate (at_snapshot 5) (filed (key 1)) table_9.engine
unfolding set_logged create_kv QueryEngine.get lookup QueryEngine.set update_row
    MvccEngine.mvcc_write mvcc_write version_at wrapper_hash encode murmurhash Rowkey.murmurhash
    Rowkey.is_valid Rowkey.get_data mix_word mix_words xor_tail mix_tail murmur_bytes
    MvccEngine.ensure_kv QueryEngine.ensure Assoc.insert generate_memtable_key
table_9-IsLate = (omega arith, omega arith)

set_logged_example :
    let r = set_logged (at_snapshot 5) (row 1 6) table_9 in
    Outcome
      (at_snapshot 5)
      (filed (key 1))
      (node_of (at_snapshot 5) (row 1 6))
      table_9.engine
      r.0.engine
      r.1
set_logged_example = set_logged-Outcome (at_snapshot 5) (row 1 6) table_9 table_9-IsIndexed

get-set_example : get (at_snapshot 9) (key 1) [] (set sink (at_snapshot 9) (row 1 5) table []).0 ≡ (
    if (filed (key 1) == filed (key 1))
      && in_snapshot (at_snapshot 9) (node_of (at_snapshot 9) (row 1 5))
    then (store_row (node_of (at_snapshot 9) (row 1 5)) ∷ [], success)
    else get (at_snapshot 9) (key 1) [] table)
get-set_example =
    get-set sink (at_snapshot 9) (row 1 5) table [] empty-IsIndexed pure_set (at_snapshot 9) (key 1)
      []

late_set : (set sink (at_snapshot 5) (row 1 6) table_9 []).2 ≡ failure
late_set =
    set_late sink (at_snapshot 5) (row 1 6) table_9 [] table_9-IsIndexed table_9-IsOpen
      table_9-IsLate

table_9-log_handler : table_9.log_handler ≡ true
unfolding set_logged create_kv QueryEngine.get lookup QueryEngine.set update_row
    MvccEngine.mvcc_write mvcc_write
table_9-log_handler = refl

get-set_failure_example :
    get (at_snapshot 9) (key 1) [] (set sink (at_snapshot 5) (row 1 6) table_9 []).0
    ≡ get (at_snapshot 9) (key 1) [] table_9
get-set_failure_example =
    get-set_failure sink (at_snapshot 5) (row 1 6) table_9 [] table_9-IsIndexed late_set
      (at_snapshot 9) (key 1) []

late_write_example :
    let (m₁, kept, ret) = set (recording sink) (at_snapshot 5) (row 1 6) table_9 ([], []) in
    (ret ≡ failure)
    × (m' : Memtable) × (replay_all 0 0 kept.1 table_9 ≡ some m')
    × ((c : StoreCtx)
        → find_at c (filed (key 1)) m'.engine ≡ (
            if in_snapshot c (node_of default_ctx (logged (row 1 6)))
            then some (store_row (node_of default_ctx (logged (row 1 6))))
            else find_at c (filed (key 1)) table_9.engine))
late_write_example =
    late_write-replayed sink 0 0 (at_snapshot 5) (row 1 6) table_9 [] refl refl table_9-IsIndexed
      table_9-IsOpen (row-IsStorable 1 6) table_9-IsLate table_9-log_handler refl

-- A memtable that is rebuilt from the log of `table`.
abbrev rebuilt : Memtable
rebuilt = record new_memtable { is_inited = true }

abbrev writes : List (StoreCtx × StoreRow)
writes = (at_snapshot 9, row 1 5) ∷ (at_snapshot 12, row 1 6) ∷ []

-- What the first and the second write leave: the memtable, the log and its records.
abbrev once : Memtable × (List (List ℕ) × List (List ℕ))
once = let (m, log, ret) = set (recording sink) (at_snapshot 9) (row 1 5) table ([], []) in (m, log)

abbrev both : Memtable × (List (List ℕ) × List (List ℕ))
both = let (m, log, ret) = set (recording sink) (at_snapshot 12) (row 1 6) once.0 once.1 in (m, log)

both_set : set_all (recording sink) writes table ([], []) ≡ some both
unfolding set set_logged create_kv QueryEngine.get lookup QueryEngine.set update_row
    MvccEngine.mvcc_write mvcc_write MvccEngine.ensure_kv QueryEngine.ensure Assoc.insert
    wrapper_hash generate_memtable_key Rowkey.is_valid Rowkey.murmurhash Rowkey.get_data
both_set = refl

replay_all_example : (n' : Memtable) × (replay_all 0 0 both.1.1 rebuilt ≡ some n') × Agree both.0 n'
replay_all_example =
    replay_all-Agree sink 0 0 writes table both.0 rebuilt [] both.1.0 both.1.1 refl refl
      (row-IsStorable 1 5, (row-IsStorable 1 6, tt)) empty-IsIndexed empty-IsIndexed (refl, refl)
      (λ c h. refl) refl both_set

-- A version that transaction 7 has not decided, and a row that it holds.
abbrev undecided : ℕ → TransNode
undecided tx = record {
  tx_id = tx;
  trans_version = invalid_version;
  node_type = 0;
  init = true;
  committed = false;
  aborted = false;
  stored = record { dml_flag = df_insert; buf = 3 ∷ [] };
}

abbrev held_row : MvccRow
held_row = record {
  hash_indexed = true;
  btree_indexed = true;
  max_trans_version = 4;
  versions = undecided 7 ∷ [];
}

mvcc_write_example :
    (IsBlocked 7 held_row.versions
      × (mvcc_write (at_snapshot 3) (undecided 7) true held_row ≡ (held_row, true, failure)))
    ⊎ ((¬ IsBlocked 7 held_row.versions)
        × IsStale (at_snapshot 3) held_row
        × (mvcc_write (at_snapshot 3) (undecided 7) true held_row ≡ (held_row, false, failure)))
    ⊎ ((¬ IsBlocked 7 held_row.versions)
        × (¬ IsStale (at_snapshot 3) held_row)
        × (mvcc_write (at_snapshot 3) (undecided 7) true held_row
            ≡ (written (at_snapshot 3) (undecided 7) held_row, false, success)))
mvcc_write_example = mvcc_write_cases (at_snapshot 3) (undecided 7) true held_row

mvcc_write-IsHeld_example :
    ((mvcc_write (at_snapshot 5) (undecided 7) true held_row).2 ≡ failure)
      × ((mvcc_write (at_snapshot 5) (undecided 7) true held_row).0 ≡ held_row)
    ⊎ IsHeld 7 (mvcc_write (at_snapshot 5) (undecided 7) true held_row).0.versions
mvcc_write-IsHeld_example =
    mvcc_write-IsHeld 7 (at_snapshot 5) (undecided 7) true held_row (refl, refl, refl)
      (inr (inl (refl, refl, refl, tt)))

abbrev two_rows : QueryEngine
two_rows = record { keyhash = []; btree = (3, 0) ∷ (5, 1) ∷ []; rows = held_row ∷ held_row ∷ [] }

drain_example :
    drain 3 two_rows (QueryEngine.scan none false none false)
    ≡ addresses (QueryEngine.scan_range none false none false two_rows)
unfolding Assoc.lower_bound
drain_example = drain-scan 3 none none false two_rows (omega arith)

drain_two : drain 3 two_rows (QueryEngine.scan none false none false) ≡ 0 ∷ 1 ∷ []
unfolding drain QueryEngine.next QueryEngine.scan Assoc.lower_bound is_empty QueryEngine.get_value
drain_two = refl
