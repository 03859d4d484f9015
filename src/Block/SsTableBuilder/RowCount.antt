-- ===== src/Block/SsTableBuilder/RowCount.antt =====
-- The row count of a table that a builder makes.
use lsm_storage.Prelude.{
  ℕ, ◌≡◌, refl, ◌∙◌, Bool, true, false, Option, none, some, List, [], ◌∷◌, length, if◌then◌else◌,
  Ret, success, failure, Option-cases, inl, inr, arith, ◌+◌, subst, Bool-cases,
}
use lsm_storage.Store.{StoreRow}
use lsm_storage.Block.MicroWriter.{DataStoreDesc}
use lsm_storage.Block.MacroWriter.{MacroWriter, open_writer}
use lsm_storage.Block.MacroWriter
use lsm_storage.Block.MicroWriter
use lsm_storage.Block.SsTableMeta.{SsTableMeta, new_meta, add_macro_block}
use lsm_storage.Block.SsTableMeta
use lsm_storage.Block.SsTable.{Disk, SsTable, write_blocks, create_from_blocks, is_empty}
use lsm_storage.Block.SsTableBuilder.{
  SsTableBuilder, new_builder, init, keep_block, append_row, close, after_append, after_close,
  append_rows,
}

-- Neither the metadata nor the table counts a row.
abbrev CountsNone : SsTableBuilder → Type 0
CountsNone b = (b.meta.basic_meta.row_count ≡ 0) × (b.sstable.meta.basic_meta.row_count ≡ 0)

init-CountsNone :
    (desc : DataStoreDesc) (data_path meta_path : ℕ)
    → CountsNone (init desc data_path meta_path new_builder).0
unfolding init open_writer MicroWriter.init SsTableMeta.init
init-CountsNone desc data_path meta_path = (refl, refl)

keep_block-CountsNone :
    (flushed : Option (List ℕ × ℕ)) (b : SsTableBuilder)
    → CountsNone b
    → CountsNone (keep_block flushed b)
unfolding keep_block
keep_block-CountsNone none b h = h
keep_block-CountsNone (some ([], seq)) b h = h
keep_block-CountsNone (some (x ∷ block, seq)) b h = h

after_append-CountsNone :
    (b : SsTableBuilder) (result : MacroWriter × Ret × Option (List ℕ × ℕ))
    → CountsNone b
    → CountsNone (after_append b result).0
after_append-CountsNone b (writer, failure, flushed) h = h
after_append-CountsNone b (writer, success, flushed) h =
    keep_block-CountsNone flushed (record b { writer = writer }) h

append_rows-CountsNone :
    (rows : List StoreRow) (b b' : SsTableBuilder)
    → CountsNone b
    → append_rows rows b ≡ some b'
    → CountsNone b'
unfolding append_rows append_row
append_rows-CountsNone [] b b' h run = let e : b ≡ b' = cc in subst (λ c. CountsNone c) e h
append_rows-CountsNone (row ∷ rows) b b' h run =
    elim (Option-cases (MacroWriter.append_row row b.writer)) [
      | inl none_eq ↦
          absurd (let k : none ≡ some b' = (rw (append_rows, append_row, none_eq) at run) in cc)
      | inr (result, eq) ↦
          append_rows-CountsNone rows (after_append b result).0 b'
            (after_append-CountsNone b result h) (rw (append_rows, append_row, eq) at run)
    ]

write_blocks-row_count :
    (blocks : List (List ℕ)) (seqs : List ℕ) (offset : ℕ) (m : SsTableMeta)
    → (write_blocks blocks seqs offset m).0.basic_meta.row_count ≡ m.basic_meta.row_count
unfolding write_blocks add_macro_block
write_blocks-row_count [] seqs offset m = refl
write_blocks-row_count (block ∷ blocks) [] offset m = refl
write_blocks-row_count (block ∷ blocks) (seq ∷ seqs) offset m =
    write_blocks-row_count blocks seqs (offset + length block)
      (add_macro_block seq offset (length block) 0 0 m)
    ∙ omega arith

create_from_blocks-row_count :
    (blocks : List (List ℕ)) (seqs : List ℕ) (meta : SsTableMeta) (data_path meta_path : ℕ)
    (d : Disk) (t : SsTable)
    → (create_from_blocks blocks seqs meta data_path meta_path d t).0.meta.basic_meta.row_count
      ≡ meta.basic_meta.row_count
unfolding create_from_blocks
create_from_blocks-row_count blocks seqs meta data_path meta_path d t =
    elim (Bool-cases (d.is_writable data_path)) [
      | inl hit ↦ rw (create_from_blocks, hit) (write_blocks-row_count blocks seqs 0 _)
      | inr miss ↦ rw (create_from_blocks, miss) refl
    ]

after_close-CountsNone :
    (d : Disk) (b : SsTableBuilder) (result : MacroWriter × Option (List ℕ × ℕ))
    → CountsNone b
    → CountsNone (after_close d b result).0
after_close-CountsNone d b (writer, none) h = h
after_close-CountsNone d b (writer, some (block, seq)) (meta_none, table_none) = (
  meta_none,
  create_from_blocks-row_count _ _ b.meta b.data_file_path b.meta_file_path d b.sstable ∙ meta_none,
)

either-CountsNone :
    (c : Bool) (x y : SsTableBuilder × Disk × Ret)
    → CountsNone x.0
    → CountsNone y.0
    → CountsNone (if c then x else y).0
either-CountsNone true x y h k = h
either-CountsNone false x y h k = k

close-CountsNone : (d : Disk) (b : SsTableBuilder) → CountsNone b → CountsNone (close d b).0
unfolding close
close-CountsNone d b h =
    either-CountsNone b.is_closed _ _ h (after_close-CountsNone d b (MacroWriter.close b.writer) h)

-- Whatever was appended, the table that a new builder holds after close reports that it is empty.
pub close-is_empty :
    (desc : DataStoreDesc) (data_path meta_path : ℕ) (rows : List StoreRow) (d : Disk)
    (b : SsTableBuilder)
    → append_rows rows (init desc data_path meta_path new_builder).0 ≡ some b
    → is_empty (close d b).0.sstable ≡ true
unfolding is_empty
close-is_empty desc data_path meta_path rows d b run =
    let start = init-CountsNone desc data_path meta_path in
    let (meta_none, table_none) =
      close-CountsNone d b (append_rows-CountsNone rows _ b start run) in
    rw table_none refl
