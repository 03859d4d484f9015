-- ===== src/Block/SsTable/Reads.antt =====
-- The blocks that an SSTable was created from are read back.
use lsm_storage.Prelude.Buffer.{drop_all}
use lsm_storage.Prelude.{
  ℕ, ◌+◌, ◌-◌, ◌≡◌, ◌≢◌, refl, ap, sym, ◌∙◌, true, some, List, [], ◌∷◌, ◌++◌, length, take, drop,
  get_elem?, success, zeros, join, assoc, append-nil, length-append, length-take, take-append,
  drop-append, arith, length-zeros, join-append,
}
use lsm_storage.Block.SsTableMeta.{SsTableMeta, add_macro_block}
use lsm_storage.Block.SsTable.{
  Disk, put_file, save_to_file, SsTable, write_blocks, create_from_blocks, resize, read_over,
  read_macro_block, written_meta,
}

-- The entries of the blocks in the metadata, the first of them at `offset`.
unfoldable block_offsets : ℕ → List (List ℕ) → List ℕ
block_offsets offset [] = []
block_offsets offset (block ∷ blocks) = offset ∷ block_offsets (offset + length block) blocks

abbrev block_sizes : List (List ℕ) → List ℕ
block_sizes [] = []
block_sizes (block ∷ blocks) = length block ∷ block_sizes blocks

write_blocks_lem :
    (blocks : List (List ℕ)) (seqs : List ℕ) (offset : ℕ) (m : SsTableMeta)
    → length seqs ≡ length blocks
    → let written = write_blocks blocks seqs offset m in
      (written.1 ≡ join blocks)
      × (written.0.macro_offsets ≡ m.macro_offsets ++ block_offsets offset blocks)
      × (written.0.macro_sizes ≡ m.macro_sizes ++ block_sizes blocks)
unfolding write_blocks block_offsets add_macro_block
write_blocks_lem [] seqs offset m h =
    (refl, sym (append-nil m.macro_offsets), sym (append-nil m.macro_sizes))
write_blocks_lem (block ∷ blocks) [] offset m h = absurd (omega arith)
write_blocks_lem (block ∷ blocks) (seq ∷ seqs) offset m h =
    let (bytes, offsets, sizes) =
      write_blocks_lem blocks seqs (offset + length block)
        (add_macro_block seq offset (length block) 0 0 m) (omega arith) in
    (
      ap (λ rest. block ++ rest) bytes,
      offsets ∙ assoc m.macro_offsets (offset ∷ []) (block_offsets (offset + length block) blocks),
      sizes ∙ assoc m.macro_sizes (length block ∷ []) (block_sizes blocks),
    )

block_offsets_at :
    (offset : ℕ) (before : List (List ℕ)) (block : List ℕ) (after : List (List ℕ))
    → get_elem? (block_offsets offset (before ++ block ∷ after)) (length before)
      ≡ some (offset + length (join before))
unfolding block_offsets
block_offsets_at offset [] block after = ap some (omega arith)
block_offsets_at offset (b ∷ before) block after =
    block_offsets_at (offset + length b) before block after
    ∙ ap some (omega (arith, length-append b (join before)))

block_sizes_at :
    (before : List (List ℕ)) (block : List ℕ) (after : List (List ℕ))
    → get_elem? (block_sizes (before ++ block ∷ after)) (length before) ≡ some (length block)
block_sizes_at [] block after = refl
block_sizes_at (b ∷ before) block after = block_sizes_at before block after

length-resize : (n : ℕ) (bytes : List ℕ) → length (resize n bytes) ≡ n
unfolding resize
length-resize n bytes = omega (
  arith,
  length-append (take n bytes) (zeros (n - length bytes)),
  length-take n bytes,
  length-zeros (n - length bytes),
)

-- A piece of the file read over a buffer of its size.
read_over_lem :
    (before : List (List ℕ)) (block : List ℕ) (after : List (List ℕ)) (out : List ℕ)
    → read_over
        (length (join before))
        (length block)
        (join (before ++ block ∷ after))
        (resize (length block) out)
      ≡ block
unfolding read_over
read_over_lem before block after out =
    let got : take (length block) (drop (length (join before)) (join (before ++ block ∷ after)))
        ≡ block =
      ap (λ xs. take (length block) (drop (length (join before)) xs))
        (join-append before (block ∷ after))
      ∙ ap (take (length block)) (drop-append (join before) _)
      ∙ take-append block (join after) in
    rw got (
      ap (λ rest. block ++ rest)
        (drop_all (resize (length block) out) (sym (length-resize (length block) out)))
      ∙ append-nil block)

put_file_lem :
    (path : ℕ) (bytes : List ℕ) (d : Disk) → (put_file path bytes d).file path ≡ some bytes
unfolding put_file
put_file_lem path bytes d = ground arith

-- Saving the metadata leaves the other files alone.
save_to_file_ne :
    (path other : ℕ) (m : SsTableMeta) (d : Disk)
    → other ≢ path
    → (save_to_file path m d).0.file other ≡ d.file other
unfolding save_to_file put_file
save_to_file_ne path other m d h = ground arith

-- A table that is created from macro blocks, with a sequence number for each, in a data file that
-- can be opened for writing and is not the metadata's, reads every block back by its index,
-- whatever the buffer of the read holds.
pub read_macro_block-create_from_blocks :
    (before : List (List ℕ)) (block : List ℕ) (after : List (List ℕ)) (seqs : List ℕ)
    (meta : SsTableMeta) (data_path meta_path : ℕ) (d : Disk) (t : SsTable) (out : List ℕ)
    → length seqs ≡ length (before ++ block ∷ after)
    → d.is_writable data_path ≡ true
    → data_path ≢ meta_path
    → (t' : SsTable) × (d' : Disk) × (create_from_blocks
          (before ++ block ∷ after)
          seqs
          meta
          data_path
          meta_path
          d
          t
        ≡ (t', d', success))
      × (read_macro_block (length before) out d' t' ≡ (block, success))
unfolding create_from_blocks read_macro_block
read_macro_block-create_from_blocks before block after seqs meta data_path meta_path d t out h
      opened distinct =
    let blocks = before ++ block ∷ after in
    let written = written_meta blocks seqs meta in
    let (bytes, offsets, sizes) =
      write_blocks_lem blocks seqs 0
        (record meta { macro_ids = []; macro_offsets = []; macro_sizes = [] }) h in
    let file : (save_to_file meta_path written.0 (put_file data_path written.1 d)).0.file data_path
        ≡ some (join blocks) =
      save_to_file_ne meta_path data_path written.0 (put_file data_path written.1 d) distinct
      ∙ put_file_lem data_path written.1 d
      ∙ ap some bytes in
    let start : some (0 + length (join before)) ≡ some (length (join before)) =
      ap some (omega arith) in
    (
      record t {
        meta = written.0;
        data_file_path = data_path;
        meta_file_path = meta_path;
        is_inited = true;
      },
      (save_to_file meta_path written.0 (put_file data_path written.1 d)).0,
      rw opened refl,
      rw
          (
            read_macro_block,
            ap (λ os. get_elem? os (length before)) offsets
                ∙ block_offsets_at 0 before block after
                ∙ start,
            ap (λ ss. get_elem? ss (length before)) sizes ∙ block_sizes_at before block after,
            file,
          )
          (ap (λ b. (b, success)) (read_over_lem before block after out)),
    )
