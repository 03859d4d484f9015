-- ===== src/Ls/RecordScanner.antt =====
-- storage/ob_record_scanner.h and ob_record_scanner.cpp: ObRecordScanner, over the table store that
-- is passed along.
pub mod Drain
use lsm_storage.Prelude.{
  ℕ, ◌+◌, ◌%◌, ◌^◌, length, ltb, leb, Bool, true, false, ◌||◌, Option, none, some, List, [], ◌∷◌,
  ◌++◌, get_elem?, if◌then◌else◌, Ret, success, failure,
}
use lsm_storage.Store.{StoreCtx, StoreRow, StoreRowkey, default_ctx, make_rowkey}
use lsm_storage.Ls.TableStore.{TableStore, scan}

pub data Rc : Type 0 where
  rc_success rc_internal rc_record_eof : Rc

-- current_idx_ is read only while is_open_ is set, and is then not negative; -1 is 0 here.
pub record RecordScanner : Type 0 where
  pub row_data_cache : List (List ℕ)
  pub current_idx : ℕ
  pub is_open : Bool

-- ObRecordScanner()
abbrev pub new_scanner : RecordScanner
new_scanner = record { row_data_cache = []; current_idx = 0; is_open = false }

abbrev pub scan_ctx : StoreCtx
scan_ctx = record default_ctx { tx_id = 0 }

abbrev pub first_key : StoreRowkey
unfolding make_rowkey
first_key = make_rowkey (some []) 0

abbrev pub last_key : StoreRowkey
unfolding make_rowkey
last_key = make_rowkey (some (255 ∷ 255 ∷ 255 ∷ 255 ∷ 255 ∷ 255 ∷ 255 ∷ 255 ∷ [])) 8

abbrev pub is_nil : List ℕ → Bool
is_nil [] = true
is_nil (b ∷ bytes) = false

-- The loop over the rows: what is pushed behind the cache.
unfoldable pub keep_rows : List (List ℕ) → List StoreRow → List (List ℕ)
keep_rows cache [] = cache
keep_rows cache (row ∷ rows) =
    if row.is_deleted
    then keep_rows cache rows
    else if is_nil row.row_value
    then keep_rows cache rows
    else keep_rows (cache ++ row.row_value ∷ []) rows

-- none where the scan does not return. What an earlier scan left in the cache stays in front.
unfoldable pub open_scan :
    Option TableStore → RecordScanner → Option (Option TableStore × RecordScanner × Rc)
open_scan none c = some (none, c, rc_internal)
open_scan (some s) c = elim (scan scan_ctx first_key false last_key false s) [
  | none ↦ none
  | some (s', rows, failure) ↦ some (some s', c, rc_internal)
  | some (s', rows, success) ↦ some (
    some s',
    record { row_data_cache = keep_rows c.row_data_cache rows; current_idx = 0; is_open = true },
    rc_success,
  )
]

unfoldable pub close_scan : RecordScanner → RecordScanner × Rc
close_scan c = (new_scanner, rc_success)

-- static_cast<int>(size) as the test of next_record sees it beside an index that is not negative:
-- none is a negative int.
unfoldable pub int_size : ℕ → Option ℕ
int_size size = if ltb (size % 2 ^ 32) (2 ^ 31) then some (size % 2 ^ 32) else none

-- Whether the index is at the end or behind it.
unfoldable pub is_eof : RecordScanner → Bool
unfolding int_size
is_eof c = elim (int_size (length c.row_data_cache)) [
  | none ↦ true
  | some size ↦ leb size c.current_idx
]

-- The row is set on success only. The test keeps the index below a positive int, so that ++ stays in
-- its range.
unfoldable pub next_record : RecordScanner → RecordScanner × Option (List ℕ) × Rc
next_record c =
    if c.is_open
    then if is_eof c
      then (c, none, rc_record_eof)
      else elim (get_elem? c.row_data_cache c.current_idx) [
        | none ↦ (c, none, rc_record_eof)
        | some row ↦ (record c { current_idx = c.current_idx + 1 }, some row, rc_success)
      ]
    else (c, none, rc_internal)
