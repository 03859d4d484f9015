-- ===== src/Memtable/Table/Codec.antt =====
-- The bytes of a row in the log: what ObMemtable::set writes, ObMemtable::replay reads back.
use lsm_storage.Prelude.{
  ℕ, ◌^◌, ◌<◌, some, List, [], ◌∷◌, ◌++◌, length, ◌≡◌, refl, sym, arith, to_le, from_le,
  length-to_le, from_le-to_le, take-append, drop-append, take_all, length-append, append-nil,
}
use lsm_storage.Store.{
  DmlFlag, df_not_set, df_insert, df_update, df_delete, df_lock, df_max, raw, StoreRow, StoreRowkey,
  empty_row, make_rowkey,
}
use lsm_storage.Memtable.Table.{
  read, parse_row, serialize_row, to_char, of_char, key_bytes, with_high,
}

-- A flag of the enumeration.
abbrev pub IsNamed : DmlFlag → Type 0
IsNamed (raw n) = ⊥
IsNamed d = Unit {0}

-- The key holds as many bytes as it says, and both lengths fit the four bytes of the format.
pub record IsStorable (row : StoreRow) : Type 0 where
  pub named : IsNamed row.dml_flag
  pub whole : row.rowkey.len ≡ length row.rowkey.buf
  pub key_fits : row.rowkey.len < 2 ^ 32
  pub value_fits : length row.row_value < 2 ^ 32

-- The row that a replay makes of the bytes.
abbrev pub logged : StoreRow → StoreRow
logged row = record empty_row {
  dml_flag = row.dml_flag;
  rowkey = row.rowkey;
  row_value = row.row_value;
  trans_version = 1;
}

of_char-to_char : (d : DmlFlag) → IsNamed d → of_char (from_le (to_char d ∷ [])) ≡ d
unfolding of_char to_char from_le
of_char-to_char df_not_set h = refl
of_char-to_char df_insert h = refl
of_char-to_char df_update h = refl
of_char-to_char df_delete h = refl
of_char-to_char df_lock h = refl
of_char-to_char df_max h = refl
of_char-to_char (raw n) h = absurd h

pub read_exact : (n : ℕ) (xs ys : List ℕ) → length xs ≡ n → read n (xs ++ ys) ≡ some (xs, ys)
unfolding read
read_exact n xs ys h =
    rw (← h) (ground (arith, take-append xs ys, drop-append xs ys, length-append xs ys))

read_one : (x : ℕ) (ys : List ℕ) → read 1 (x ∷ ys) ≡ some (x ∷ [], ys)
unfolding read
read_one x ys = ground arith

read_all : (xs : List ℕ) → read (length xs) xs ≡ some (xs, [])
read_all xs = rw (append-nil) at (read_exact (length xs) xs [] refl)

read_size : (n : ℕ) (ys : List ℕ) → read 4 (to_le 4 n ++ ys) ≡ some (to_le 4 n, ys)
read_size n ys = read_exact 4 (to_le 4 n) ys (length-to_le 4 n)

size_back : (n : ℕ) → n < 2 ^ 32 → with_high 0 (to_le 4 n) ≡ n
size_back n h = omega (arith, from_le-to_le 4 n h)

make_rowkey_same :
    (rk : StoreRowkey) → rk.len ≡ length rk.buf → make_rowkey (some rk.buf) rk.len ≡ rk
unfolding make_rowkey
make_rowkey_same rk h = ground (arith, take_all rk.buf)

take_key : (rk : StoreRowkey) → rk.len ≡ length rk.buf → key_bytes rk ≡ rk.buf
take_key rk h = ground (arith, take_all rk.buf)

-- Where the upper halves of the two lengths are zero, parsing the logged bytes of a storable row gives
-- it back: its flag, key and value, at version 1.
pub parse_row-serialize_row :
    (row : StoreRow) → IsStorable row → parse_row 0 0 (serialize_row row) ≡ some (logged row)
unfolding parse_row serialize_row
parse_row-serialize_row row ok =
    let rk = row.rowkey in
    let key = take_key rk ok.whole in
    rw (
      key,
      read_one,
      read_size rk.len,
      size_back rk.len ok.key_fits,
      read_exact rk.len rk.buf (to_le 4 (length row.row_value) ++ row.row_value) (sym ok.whole),
      read_size (length row.row_value) row.row_value,
      size_back (length row.row_value) ok.value_fits,
      read_all row.row_value,
      of_char-to_char row.dml_flag ok.named,
      make_rowkey_same rk ok.whole,
    )
