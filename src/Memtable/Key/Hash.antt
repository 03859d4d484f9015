-- ===== src/Memtable/Key/Hash.antt =====
-- The two hashes of a key: the cached one, by which the ordered map files a row, and that of the
-- rowkey, by which the hash table does.
use lsm_storage.Prelude.{ℕ, some, Bool-cases, ◌≡◌, refl, inl, inr, arith}
use lsm_storage.Store.{StoreRowkey, StoreRow}
use lsm_storage.Store.Rowkey
use lsm_storage.Memtable.Key.{empty_key, murmurhash, encode, generate_memtable_key, wrapper_hash}

pub murmurhash-rowkey :
    (rk : StoreRowkey) (seed : ℕ)
    → murmurhash (Rowkey.get_data rk) rk.len seed ≡ Rowkey.murmurhash rk seed
unfolding murmurhash Rowkey.murmurhash
murmurhash-rowkey rk seed = ground arith

-- Whatever row is written, the cached hash of its key is the hash of its rowkey, so that both indexes
-- file it under one hash.
pub row_key_hash :
    (row : StoreRow)
    → (generate_memtable_key row empty_key).0.hash_val
      ≡ wrapper_hash (generate_memtable_key row empty_key).0.rowkey
unfolding generate_memtable_key wrapper_hash
row_key_hash row = ground (arith, murmurhash-rowkey row.rowkey 0)

-- The key of a row is the key that a reader of its rowkey looks up.
pub row_key-encode :
    (row : StoreRow)
    → (generate_memtable_key row empty_key).0 ≡ (encode (some row.rowkey) empty_key).0
unfolding generate_memtable_key
row_key-encode row = elim (Bool-cases (Rowkey.is_valid row.rowkey)) [
  | inl e ↦ rw e refl
  | inr e ↦ rw e refl
]
