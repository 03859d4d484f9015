-- ===== src/Memtable/Key.antt =====
-- memtable/ob_memtable_key.h and memtable/ob_memtable_key.cpp.
pub mod Hash
use lsm_storage.Prelude.{
  ℕ, Bool, true, false, ◌&&◌, not, Option, none, some, List, [], take, ltb, ◌==◌, if◌then◌else◌,
  Ordering, Ret, success, failure,
}
use lsm_storage.Store.{StoreRowkey, StoreRow}
use lsm_storage.Store.Murmur.{murmur_bytes}
use lsm_storage.Store.Rowkey
use lsm_storage.Store.Rowkey.{memcmp, is_eq}

pub record MemtableKey : Type 0 where
  pub key_data : Option (List ℕ)
  pub key_len : ℕ
  pub hash_val : ℕ
  pub rowkey : Option StoreRowkey

abbrev pub empty_key : MemtableKey
empty_key = record { key_data = none; key_len = 0; hash_val = 0; rowkey = none }

unfoldable pub murmurhash : Option (List ℕ) → ℕ → ℕ → ℕ
unfolding murmur_bytes
murmurhash none len seed = seed
murmurhash (some bytes) len seed = if len == 0 then seed else murmur_bytes len bytes seed

-- ObMemtableKey(data, len)
pub make_key : Option (List ℕ) → ℕ → MemtableKey
unfolding murmurhash
make_key none n = record { key_data = none; key_len = n; hash_val = 0; rowkey = none }
make_key (some bytes) n = record {
  key_data = some bytes;
  key_len = n;
  hash_val = if ltb 0 n then murmurhash (some bytes) n 0 else 0;
  rowkey = none;
}

-- A null or invalid rowkey leaves the key as it was.
unfoldable pub encode : Option StoreRowkey → MemtableKey → MemtableKey × Ret
encode none key = (key, failure)
encode (some rk) key =
    if Rowkey.is_valid rk
    then (
      record {
        key_data = Rowkey.get_data rk;
        key_len = rk.len;
        hash_val = murmurhash (Rowkey.get_data rk) rk.len 0;
        rowkey = some rk;
      },
      success,
    )
    else (key, failure)

unfoldable pub generate_memtable_key : StoreRow → MemtableKey → MemtableKey × Ret
unfolding encode
generate_memtable_key row key =
    if Rowkey.is_valid row.rowkey then encode (some row.rowkey) key else (key, failure)

bytes_of : Option (List ℕ) → List ℕ
bytes_of none = []
bytes_of (some bytes) = bytes

pub compare : MemtableKey → MemtableKey → Ordering
unfolding bytes_of memcmp
compare a b =
    if ltb a.key_len b.key_len
    then Ordering.lt
    else if ltb b.key_len a.key_len
    then Ordering.gt
    else if a.key_len == 0
    then Ordering.eq
    else memcmp a.key_len (bytes_of a.key_data) (bytes_of b.key_data)

pub equal : MemtableKey → MemtableKey → Bool
unfolding bytes_of memcmp
equal a b =
    if not (a.hash_val == 0) && not (b.hash_val == 0) && not (a.hash_val == b.hash_val)
    then false
    else if not (a.key_len == b.key_len)
    then false
    else if a.key_len == 0
    then true
    else is_eq (memcmp a.key_len (bytes_of a.key_data) (bytes_of b.key_data))

-- The copy points to its own bytes and has no rowkey.
pub dup : MemtableKey → Option MemtableKey
unfolding make_key
dup key = elim key.key_data [
  | none ↦ none
  | some bytes ↦
      if key.key_len == 0
      then none
      else some (record (make_key (some (take key.key_len bytes)) key.key_len) {
        hash_val = key.hash_val;
      })
]

-- ObStoreRowkeyWrapper::hash, of the wrapped pointer.
unfoldable pub wrapper_hash : Option StoreRowkey → ℕ
wrapper_hash none = 0
wrapper_hash (some rk) = Rowkey.murmurhash rk 0
