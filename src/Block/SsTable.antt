-- ===== src/Block/SsTable.antt =====
-- blocksstable/ob_sstable.h and ob_sstable.cpp: ObSSTable, and the two operations on files of
-- ObSSTableMeta. A path is a number.
pub mod Reads
use lsm_storage.Prelude.{
  ℕ, ◌+◌, ◌-◌, Bool, true, false, not, Option, none, some, List, [], ◌∷◌, ◌++◌, length, take, drop,
  get_elem?, ltb, ◌==◌, if◌then◌else◌, Ret, success, failure, zeros,
}
use lsm_storage.Block.SsTableMeta.{SsTableMeta, new_meta, add_macro_block, serialize, deserialize}

-- The files, and whether a path can be opened for writing. What is written is there.
pub record Disk : Type 0 where
  pub file : ℕ → Option (List ℕ)
  pub is_writable : ℕ → Bool

-- ofstream on a path: the file is made anew.
unfoldable pub put_file : ℕ → List ℕ → Disk → Disk
put_file path bytes d = record d { file = λ p. if p == path then some bytes else d.file p }

unfoldable pub save_to_file : ℕ → SsTableMeta → Disk → Disk × Ret
save_to_file path m d =
    if d.is_writable path then (put_file path (serialize m) d, success) else (d, failure)

unfoldable pub load_from_file : ℕ → Disk → SsTableMeta → SsTableMeta × Ret
load_from_file path d m = elim (d.file path) [
  | none ↦ (m, failure)
  | some bytes ↦ deserialize bytes m
]

pub record SsTable : Type 0 where
  pub meta : SsTableMeta
  pub data_file_path : ℕ
  pub meta_file_path : ℕ
  pub is_inited : Bool

-- ObSSTable(); the empty path is 0.
abbrev pub new_table : SsTable
new_table = record { meta = new_meta; data_file_path = 0; meta_file_path = 0; is_inited = false }

unfoldable pub init : ℕ → ℕ → Disk → SsTable → SsTable × Ret
init data_path meta_path d t =
    let (meta, ret) = load_from_file meta_path d t.meta in
    let named = record t { meta = meta; data_file_path = data_path; meta_file_path = meta_path } in
    elim ret [ failure ↦ (named, failure) | success ↦ (record named { is_inited = true }, success) ]

-- The loop that writes the blocks: the metadata, the bytes of the file, and the offset behind
-- them. There is a sequence number for every block.
unfoldable pub write_blocks : List (List ℕ) → List ℕ → ℕ → SsTableMeta → SsTableMeta × List ℕ
write_blocks (block ∷ blocks) (seq ∷ seqs) offset m =
    let (m', rest) =
      write_blocks blocks seqs (offset + length block)
        (add_macro_block seq offset (length block) 0 0 m) in
    (m', block ++ rest)
write_blocks _ _ offset m = (m, [])

abbrev pub written_meta : List (List ℕ) → List ℕ → SsTableMeta → SsTableMeta × List ℕ
written_meta blocks seqs meta =
    write_blocks blocks seqs 0
      (record meta { macro_ids = []; macro_offsets = []; macro_sizes = [] })

abbrev pub named_table : SsTableMeta → ℕ → ℕ → SsTable → SsTable
named_table meta data_path meta_path t = record t {
  meta = meta;
  data_file_path = data_path;
  meta_file_path = meta_path;
}

-- The result of save_to_file is not looked at.
unfoldable pub create_from_blocks :
    List (List ℕ) → List ℕ → SsTableMeta → ℕ → ℕ → Disk → SsTable → SsTable × Disk × Ret
create_from_blocks blocks seqs meta data_path meta_path d t =
    if d.is_writable data_path
    then (let (written, bytes) = written_meta blocks seqs meta in
        (
          record t {
            meta = written;
            data_file_path = data_path;
            meta_file_path = meta_path;
            is_inited = true;
          },
          (save_to_file meta_path written (put_file data_path bytes d)).0,
          success,
        ))
    else (named_table meta data_path meta_path t, d, failure)

unfoldable pub get_row_count : SsTable → ℕ
get_row_count t = t.meta.basic_meta.row_count

unfoldable pub is_empty : SsTable → Bool
is_empty t = t.meta.basic_meta.row_count == 0

unfoldable pub resize : ℕ → List ℕ → List ℕ
resize n bytes = take n bytes ++ zeros (n - length bytes)

-- seekg and read into a buffer of `size` bytes: a short read leaves the rest of the buffer.
unfoldable pub read_over : ℕ → ℕ → List ℕ → List ℕ → List ℕ
read_over offset size file buf =
    let got = take size (drop offset file) in got ++ drop (length got) buf

unfoldable pub read_macro_block : ℕ → List ℕ → Disk → SsTable → List ℕ × Ret
read_macro_block idx out d t =
    if not t.is_inited then (out, failure) else elim (get_elem? t.meta.macro_offsets idx) [
      | none ↦ (out, failure)
      | some offset ↦ elim (get_elem? t.meta.macro_sizes idx) [
        | none ↦ (out, failure)
        | some size ↦ elim (d.file t.data_file_path) [
          | none ↦ (out, failure)
          | some file ↦ (read_over offset size file (resize size out), success)
        ]
      ]
    ]
