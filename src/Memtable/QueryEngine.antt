-- ===== src/Memtable/QueryEngine.antt =====
-- memtable/mvcc/ob_query_engine.h, ob_query_engine.cpp and ob_mt_hash.h: the hash table for point
-- reads and the ordered map for scans. Both hold pointers to the same ObMvccRow objects, which are
-- addresses into `rows` here; an object is made by adding it to `rows` and is never moved.
pub mod Indexed
pub mod Scan
use lsm_storage.Prelude.{
  ℕ, zero, suc, ◌-◌, ◌^◌, Bool, true, false, ◌&&◌, not, Option, none, some, List, [], ◌∷◌, length,
  get_elem?, set as set_elem, ltb, ◌==◌, if◌then◌else◌, Ret, success, failure,
}
use lsm_storage.Prelude.Assoc
use lsm_storage.Memtable.Key.{MemtableKey, empty_key, wrapper_hash}
use lsm_storage.Memtable.MvccRow.{MvccRow, is_empty}

pub record QueryEngine : Type 0 where
  pub keyhash : List (ℕ × ℕ)
  pub btree : List (ℕ × ℕ)
  pub rows : List MvccRow

abbrev pub empty_engine : QueryEngine
empty_engine = record { keyhash = []; btree = []; rows = [] }

-- A write through a pointer to an ObMvccRow.
unfoldable pub update_row : ℕ → (MvccRow → MvccRow) → QueryEngine → QueryEngine
update_row addr f qe = elim (get_elem? qe.rows addr) [
  | none ↦ qe
  | some row ↦ record qe { rows = set_elem qe.rows addr (f row) }
]

-- ObMtHash::set and get, on the hash of the wrapped key.
unfoldable pub hash_set : ℕ → ℕ → List (ℕ × ℕ) → List (ℕ × ℕ) × Ret
hash_set h addr table = elim (Assoc.lookup h table) [
  | some _ ↦ (table, failure)
  | none ↦ (Assoc.insert h addr table, success)
]

unfoldable pub hash_get : ℕ → List (ℕ × ℕ) → Option ℕ × Ret
hash_get h table = elim (Assoc.lookup h table) [
  | some addr ↦ (some addr, success)
  | none ↦ (none, failure)
]

-- ObMtHash::get_or_create; the creator gives the new object, or none with its error.
pub hash_get_or_create : ℕ → Option ℕ → List (ℕ × ℕ) → List (ℕ × ℕ) × Option ℕ × Ret
hash_get_or_create h created table = elim (Assoc.lookup h table) [
  | some addr ↦ (table, some addr, success)
  | none ↦ elim created [
    | some addr ↦ (Assoc.insert h addr table, some addr, success)
    | none ↦ (table, none, failure)
  ]
]

unfoldable pub btree_set : MemtableKey → ℕ → QueryEngine → QueryEngine
btree_set key addr qe = record qe { btree = Assoc.insert key.hash_val addr qe.btree }

abbrev set_btree_indexed : MvccRow → MvccRow
set_btree_indexed row = record row { btree_indexed = true }

abbrev set_both_indexed : MvccRow → MvccRow
set_both_indexed row = record row { btree_indexed = true; hash_indexed = true }

set_checked : MemtableKey → ℕ → QueryEngine → List (ℕ × ℕ) × Ret → QueryEngine × Ret
set_checked key addr qe (table, failure) = (qe, failure)
set_checked key addr qe (table, success) =
    (update_row addr set_both_indexed (btree_set key addr (record qe { keyhash = table })), success)

unfoldable pub set : Option MemtableKey → Option ℕ → QueryEngine → QueryEngine × Ret
unfolding set_checked btree_set hash_set
set none value qe = (qe, failure)
set (some key) none qe = (qe, failure)
set (some key) (some addr) qe =
    set_checked key addr qe (hash_set (wrapper_hash key.rowkey) addr qe.keyhash)

-- Whether the object behind the pointer is in the ordered map.
abbrev is_btree_indexed : ℕ → QueryEngine → Bool
is_btree_indexed addr qe = elim (get_elem? qe.rows addr) [
  | none ↦ false
  | some row ↦ row.btree_indexed
]

unfoldable pub ensure : Option MemtableKey → Option ℕ → QueryEngine → QueryEngine × Ret
unfolding btree_set
ensure none value qe = (qe, failure)
ensure (some key) none qe = (qe, failure)
ensure (some key) (some addr) qe =
    if is_btree_indexed addr qe
    then (qe, success)
    else (update_row addr set_btree_indexed (btree_set key addr qe), success)

-- The returned key is never filled in.
unfoldable pub get : Option MemtableKey → QueryEngine → Option ℕ × Ret
unfolding hash_get
get none qe = (none, failure)
get (some key) qe = hash_get (wrapper_hash key.rowkey) qe.keyhash

-- ObMvccRowCreator gives the address of a new object, or none with its error.
pub create_btree_kv : Option MemtableKey → Option ℕ → QueryEngine → QueryEngine × Option ℕ × Ret
unfolding btree_set
create_btree_kv none created qe = (qe, none, failure)
create_btree_kv (some key) created qe = elim (Assoc.lookup key.hash_val qe.btree) [
  | some addr ↦ (qe, some addr, success)
  | none ↦ elim created [
    | some addr ↦ (update_row addr set_btree_indexed (btree_set key addr qe), some addr, success)
    | none ↦ (qe, none, failure)
  ]
]

abbrev pub start_hash : Option MemtableKey → ℕ
start_hash none = 0
start_hash (some key) = key.hash_val

-- UINT64_MAX for an open end
abbrev pub end_hash : Option MemtableKey → ℕ
end_hash none = 2 ^ 64 - 1
end_hash (some key) = key.hash_val

-- Whether the row behind a pointer is there and has a version.
abbrev pub has_version : List MvccRow → ℕ → Bool
has_version rows addr = elim (get_elem? rows addr) [ none ↦ false | some row ↦ not (is_empty row) ]

-- The loop of scan_range from the entry that `it` points to.
unfoldable pub collect_range : List MvccRow → ℕ → Bool → List (ℕ × ℕ) → List (MemtableKey × ℕ)
collect_range rows end_h end_exclude [] = []
collect_range rows end_h end_exclude ((h, addr) ∷ it) =
    let rest = collect_range rows end_h end_exclude it in
    if ltb end_h h
    then []
    else if end_exclude && (h == end_h)
    then []
    else if has_version rows addr
    then (empty_key, addr) ∷ rest
    else rest

-- `++it` where the first entry is the excluded start.
abbrev skip_start : Bool → ℕ → List (ℕ × ℕ) → List (ℕ × ℕ)
skip_start start_exclude start_h [] = []
skip_start start_exclude start_h ((h, addr) ∷ it) =
    if start_exclude && (h == start_h) then it else (h, addr) ∷ it

unfoldable pub scan_range :
    Option MemtableKey → Bool → Option MemtableKey → Bool → QueryEngine → List (MemtableKey × ℕ)
unfolding collect_range
scan_range start_key start_exclude end_key end_exclude qe =
    collect_range qe.rows (end_hash end_key) end_exclude (
      skip_start start_exclude (start_hash start_key)
        (Assoc.lower_bound (start_hash start_key) qe.btree))

-- ObQueryEngineBtreeIterator. `curr` is the rest of the map from the current entry on, and []
-- is end().
pub record BtreeIterator : Type 0 where
  pub start_hash : ℕ
  pub end_hash : ℕ
  pub start_exclude : Bool
  pub end_exclude : Bool
  pub reverse : Bool
  pub curr : List (ℕ × ℕ)
  pub is_init : Bool

unfoldable pub scan : Option MemtableKey → Bool → Option MemtableKey → Bool → BtreeIterator
scan start_key start_exclude end_key end_exclude = record {
  start_hash = start_hash start_key;
  end_hash = end_hash end_key;
  start_exclude = start_exclude;
  end_exclude = end_exclude;
  reverse = false;
  curr = [];
  is_init = false;
}

-- The loop of next_internal_: the entry that it stops at, or end() with OB_ITER_END.
unfoldable pub seek : List MvccRow → ℕ → Bool → List (ℕ × ℕ) → List (ℕ × ℕ)
seek rows end_h end_exclude [] = []
seek rows end_h end_exclude ((h, addr) ∷ it) =
    let rest = seek rows end_h end_exclude it in
    if ltb end_h h
    then []
    else if end_exclude && (h == end_h)
    then []
    else if has_version rows addr
    then (h, addr) ∷ it
    else rest

abbrev pub tail : List (ℕ × ℕ) → List (ℕ × ℕ)
tail [] = []
tail (x ∷ xs) = xs

unfoldable pub next : QueryEngine → BtreeIterator → BtreeIterator × Ret
unfolding seek
next qe it =
    let from = if it.is_init then tail it.curr else Assoc.lower_bound it.start_hash qe.btree in
    let found = seek qe.rows it.end_hash it.end_exclude from in
    (record it { curr = found; is_init = true }, elim found [ [] ↦ failure | _ ∷ _ ↦ success ])

-- Null at end().
unfoldable pub get_value : BtreeIterator → Option ℕ
get_value it = elim it.curr [ [] ↦ none | (h, addr) ∷ _ ↦ some addr ]

pub reset : BtreeIterator → BtreeIterator
reset it = record it { is_init = false }
