-- ===== src/Store/Rowkey.antt =====
-- ObStoreRowkey of storage/ob_i_store.h and storage/ob_i_store.cpp.
use lsm_storage.Prelude.{
  ℕ, suc, Bool, true, false, ◌&&◌, not, Option, none, some, List, [], ◌∷◌, ltb, ◌==◌, if◌then◌else◌,
  Ordering, compare as compare_ℕ,
}
use lsm_storage.Store.{StoreRowkey}
use lsm_storage.Store.Murmur.{murmur_bytes}

-- The first `n` bytes; two buffers that differ are ordered by their first difference.
unfoldable pub memcmp : ℕ → List ℕ → List ℕ → Ordering
memcmp (suc n) (a ∷ xs) (b ∷ ys) =
    let rest = memcmp n xs ys in if a == b then rest else compare_ℕ a b
memcmp _ _ _ = Ordering.eq

unfoldable pub get_data : StoreRowkey → Option (List ℕ)
get_data k = if ltb 0 k.len then some k.buf else none

abbrev is_empty : List ℕ → Bool
is_empty [] = true
is_empty (b ∷ bs) = false

unfoldable pub is_valid : StoreRowkey → Bool
is_valid k = ltb 0 k.len && not (is_empty k.buf)

unfoldable pub compare : StoreRowkey → StoreRowkey → Ordering
unfolding memcmp
compare a b =
    if ltb a.len b.len
    then Ordering.lt
    else if ltb b.len a.len
    then Ordering.gt
    else if a.len == 0
    then Ordering.eq
    else memcmp a.len a.buf b.buf

abbrev pub is_eq : Ordering → Bool
is_eq Ordering.eq = true
is_eq _ = false

unfoldable pub equal : StoreRowkey → StoreRowkey → Bool
unfolding memcmp
equal a b =
    if a.len == b.len
    then (if a.len == 0 then true else is_eq (memcmp a.len a.buf b.buf))
    else false

unfoldable pub murmurhash : StoreRowkey → ℕ → ℕ
unfolding murmur_bytes
murmurhash k seed = elim (get_data k) [
  | none ↦ seed
  | some bytes ↦ if k.len == 0 then seed else murmur_bytes k.len bytes seed
]
