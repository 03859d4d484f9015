-- ===== src/Block/MicroWriter/Index.antt =====
-- The row index of a micro block: it finds every row.
use lsm_storage.Prelude.{
  ℕ, suc, ◌+◌, ◌*◌, ◌%◌, ◌^◌, ◌<◌, ◌≡◌, refl, ap, ap₂, sym, ◌∙◌, some, List, [], ◌∷◌, ◌++◌, length,
  take, drop, to_le, false, ◌==◌, zeros, join, assoc, join-append, length-append, drop-append_past,
  take-append, from_le-to_le, arith, drop-append, length-to_le,
}
use lsm_storage.Prelude.Buffer.{put, fetch, fetch-to_le, fetch-append_past}
use lsm_storage.Prelude.Fields.{pack}
use lsm_storage.Store.{StoreRow}
use lsm_storage.Block.Header.{MicroHeader, micro_widths, micro_header_values, serialize_micro}
use lsm_storage.Block.MicroWriter.{
  DataStoreDesc, MicroWriter, reset, init, encode_row, index_bytes, built_header, build_block,
  store_header, block_of, restart,
}
use lsm_storage.Block.MicroWriter.Fill.{
  build_rows, encodings, starts, Holds, init-Holds, length-buf, encodings-cons, encodings-append,
  append_rows-Holds,
}

-- Where the index of a block says that its row `i` starts.
unfoldable pub row_start : ℕ → List ℕ → ℕ
row_start i block = fetch 4 (fetch 4 24 block + 4 * i) block

packed : MicroHeader → List ℕ
packed h = pack micro_widths (micro_header_values h)

length-packed : (h : MicroHeader) → length (packed h) ≡ 56
unfolding packed pack to_le
length-packed h = refl

fetch_row_count :
    (h : MicroHeader) (rest : List ℕ)
    → h.row_count < 2 ^ 32
    → fetch 4 16 (packed h ++ rest) ≡ h.row_count
unfolding fetch packed pack to_le
fetch_row_count h rest small = from_le-to_le 4 h.row_count small

fetch_row_index :
    (h : MicroHeader) (rest : List ℕ)
    → h.row_index_offset < 2 ^ 32
    → fetch 4 24 (packed h ++ rest) ≡ h.row_index_offset
unfolding fetch packed pack to_le
fetch_row_index h rest small = from_le-to_le 4 h.row_index_offset small

fetch_data_length :
    (h : MicroHeader) (rest : List ℕ)
    → h.data_length < 2 ^ 32
    → fetch 4 40 (packed h ++ rest) ≡ h.data_length
unfolding fetch packed pack to_le
fetch_data_length h rest small = from_le-to_le 4 h.data_length small

-- The header takes the place of the zeros.
store_header_lem :
    (h : MicroHeader) (rest : List ℕ) → store_header h (zeros 56 ++ rest) ≡ packed h ++ rest
unfolding packed store_header serialize_micro put pack to_le
store_header_lem h rest = ground arith

length-index_bytes : (offsets : List ℕ) → length (index_bytes offsets) ≡ 4 * length offsets
unfolding index_bytes to_le
length-index_bytes [] = refl
length-index_bytes (off ∷ offsets) = omega (arith, length-index_bytes offsets)

length-starts : (p : ℕ) (es : List (List ℕ)) → length (starts p es) ≡ length es
unfolding starts
length-starts p [] = refl
length-starts p (e ∷ es) = ap suc (length-starts (p + length e) es)

-- The index entry behind those of the rows before it.
fetch-index_bytes :
    (p : ℕ) (xs : List (List ℕ)) (e : List ℕ) (ys : List (List ℕ))
    → p + length (join xs) < 2 ^ 32
    → fetch 4 (4 * length xs) (index_bytes (starts p (xs ++ e ∷ ys))) ≡ p + length (join xs)
unfolding index_bytes starts
fetch-index_bytes p [] e ys small = fetch-to_le 4 (p % 2 ^ 32) _ (omega arith) ∙ omega arith
fetch-index_bytes p (x ∷ xs) e ys small =
    let size : length (x ++ join xs) ≡ length x + length (join xs) = length-append x (join xs) in
    fetch-append_past 4 (4 * length xs) (4 * suc (length xs)) (to_le 4 (p % 2 ^ 32)) _
      (omega (arith, length-to_le 4 (p % 2 ^ 32)))
    ∙ fetch-index_bytes (p + length x) xs e ys (omega (arith, size))
    ∙ omega (arith, size)

-- A block as the writer that held `es` builds it.
module _ (h : MicroHeader) (xs : List (List ℕ)) (e : List ℕ) (ys : List (List ℕ)) where
  all : List (List ℕ)
  all = xs ++ e ∷ ys

  built : List ℕ
  built = packed h ++ (join all ++ index_bytes (starts 56 all))

  length-join-all : length (join all) ≡ length (join xs) + (length e + length (join ys))
  unfolding all
  length-join-all =
      ap length (join-append xs (e ∷ ys))
      ∙ length-append (join xs) (e ++ join ys)
      ∙ ap (λ n. length (join xs) + n) (length-append e (join ys))

  length-built : length built ≡ 56 + length (join all) + 4 * length all
  unfolding built
  length-built = omega (
    arith,
    length-append (packed h) (join all ++ index_bytes (starts 56 all)),
    length-append (join all) (index_bytes (starts 56 all)),
    length-index_bytes (starts 56 all),
    length-starts 56 all,
    length-packed h,
  )

  row_start-built :
      h.row_index_offset ≡ 56 + length (join all)
      → 56 + length (join all) < 2 ^ 32
      → row_start (length xs) built ≡ 56 + length (join xs)
  unfolding row_start built all
  row_start-built offset small =
      ap (λ k. fetch 4 (k + 4 * length xs) built)
        (fetch_row_index h _ (omega (arith, offset, small)) ∙ offset)
      ∙ fetch-append_past 4 (length (join all) + 4 * length xs) _ (packed h) _
          (omega (arith, length-packed h))
      ∙ fetch-append_past 4 (4 * length xs) _ (join all) _ refl
      ∙ fetch-index_bytes 56 xs e ys (omega (arith, length-join-all, small))

  row-built : take (length e) (drop (56 + length (join xs)) built) ≡ e
  unfolding built all
  row-built =
      let size : 56 + length (join xs) ≡ length (packed h) + length (join xs) =
        omega (arith, length-packed h) in
      ap (λ k. take (length e) (drop k built)) size
      ∙ ap (take (length e)) (drop-append_past (length (join xs)) (packed h) _)
      ∙ ap (λ zs. take (length e) (drop (length (join xs)) (zs ++ index_bytes (starts 56 all))))
          (join-append xs (e ∷ ys))
      ∙ ap (λ zs. take (length e) (drop (length (join xs)) zs))
          (assoc (join xs) (e ++ join ys) (index_bytes (starts 56 all)))
      ∙ ap (take (length e)) (drop-append (join xs) _)
      ∙ ap (take (length e)) (assoc e (join ys) (index_bytes (starts 56 all)))
      ∙ take-append e _

-- The header of the block that a writer builds.
header_of : MicroWriter → MicroHeader
header_of w = built_header w (length (w.data_buf ++ index_bytes w.row_offsets))

module _ (desc : DataStoreDesc) (w : MicroWriter) (xs : List (List ℕ)) (e : List ℕ)
    (ys : List (List ℕ)) (h : Holds desc (xs ++ e ∷ ys) w) where
  build_block-Holds : build_block w ≡ (reset desc w, block_of w)
  unfolding build_block
  build_block-Holds =
      let some_row : (w.row_count == 0) ≡ false =
        ground (arith, h.count_eq, length-append xs (e ∷ ys)) in
      let desc_set : restart w w.desc ≡ reset desc w = ap (restart w) h.desc_eq in
      simp (build_block, some_row, desc_set)

  block_of-built : block_of w ≡ built (header_of w) xs e ys
  unfolding block_of header_of built all
  block_of-built =
      ap (store_header (header_of w)) (
        ap₂ (λ a b. a ++ index_bytes b) h.buf_eq h.offsets_eq
        ∙ assoc (zeros 56) (join (xs ++ e ∷ ys)) _)
      ∙ store_header_lem (header_of w) _

length-encodings :
    (rows : List StoreRow) (es : List (List ℕ)) → encodings rows ≡ some es → length rows ≡ length es
unfolding encodings
length-encodings [] es h = let k : some [] ≡ some es = h in let k' : [] ≡ es = cc in ap length k'
length-encodings (row ∷ rows) es h =
    let (e, es', e_eq, es_eq, split) = encodings-cons row rows es h in
    rw split (ap suc (length-encodings rows es' es_eq))

module _ (desc : DataStoreDesc) (w : MicroWriter) (xs : List (List ℕ)) (e : List ℕ)
    (ys : List (List ℕ)) (h : Holds desc (xs ++ e ∷ ys) w)
    (small : 56 + length (join (xs ++ e ∷ ys)) + 4 * length (xs ++ e ∷ ys) < 2 ^ 31) where
  length-contents :
      length (w.data_buf ++ index_bytes w.row_offsets)
      ≡ 56 + length (join (xs ++ e ∷ ys)) + 4 * length (xs ++ e ∷ ys)
  length-contents =
      rw (h.buf_eq, h.offsets_eq)
        (omega (
          arith,
          length-append (zeros 56 ++ join (xs ++ e ∷ ys)) (index_bytes (starts 56 (xs ++ e ∷ ys))),
          length-buf (xs ++ e ∷ ys),
          length-index_bytes (starts 56 (xs ++ e ∷ ys)),
          length-starts 56 (xs ++ e ∷ ys),
        ))

  length-data_buf : length w.data_buf ≡ 56 + length (join (xs ++ e ∷ ys))
  length-data_buf = ap length h.buf_eq ∙ length-buf (xs ++ e ∷ ys)

  row_count-block_of : fetch 4 16 (block_of w) ≡ length (xs ++ e ∷ ys)
  unfolding built header_of built_header
  row_count-block_of =
      let count : w.row_count % 2 ^ 32 ≡ length (xs ++ e ∷ ys) = omega (arith, h.count_eq, small) in
      ap (fetch 4 16) (block_of-built desc w xs e ys h)
      ∙ fetch_row_count (header_of w) _ (omega arith)
      ∙ count

  length-block_of :
      length (block_of w) ≡ 56 + length (join (xs ++ e ∷ ys)) + 4 * length (xs ++ e ∷ ys)
  unfolding all
  length-block_of = ap length (block_of-built desc w xs e ys h) ∙ length-built (header_of w) xs e ys

  data_length-block_of : fetch 4 40 (block_of w) ≡ length (block_of w)
  unfolding built header_of built_header
  data_length-block_of =
      ap (fetch 4 40) (block_of-built desc w xs e ys h)
      ∙ fetch_data_length (header_of w) _ (omega arith)
      ∙ omega (arith, length-contents, length-block_of, small)

  row_start-block_of : take (length e) (drop (row_start (length xs) (block_of w)) (block_of w)) ≡ e
  unfolding all header_of built_header
  row_start-block_of =
      let offset : length w.data_buf % 2 ^ 32 ≡ 56 + length (join (xs ++ e ∷ ys)) =
        omega (arith, length-data_buf, small) in
      rw (block_of-built desc w xs e ys h) (
        ap (λ p. take (length e) (drop p (built (header_of w) xs e ys)))
          (row_start-built (header_of w) xs e ys offset (omega (arith, small)))
        ∙ row-built (header_of w) xs e ys)

-- A micro block that is built from rows that all have an encoding, of fewer than 2^31 bytes with
-- its row index: the header's row count and data length are those of the block, each entry of the
-- row index is the offset of the encoding of the row at that place, counted from the front of the
-- block, and the writer starts afresh.
pub build_rows-row_start :
    (desc : DataStoreDesc) (w : MicroWriter) (before after : List StoreRow) (row : StoreRow)
    (xs : List (List ℕ)) (e : List ℕ) (ys : List (List ℕ))
    → encodings before ≡ some xs
    → encode_row row ≡ some e
    → encodings after ≡ some ys
    → 56 + length (join (xs ++ e ∷ ys)) + 4 * length (xs ++ e ∷ ys) < 2 ^ 31
    → (w' : MicroWriter) × (block : List ℕ) × (build_rows desc (before ++ row ∷ after) w
        ≡ some (reset desc w', block))
      × (fetch 4 16 block ≡ length (before ++ row ∷ after))
      × (fetch 4 40 block ≡ length block)
      × (take (length e) (drop (row_start (length before) block) block) ≡ e)
unfolding encodings build_rows
build_rows-row_start desc w before after row xs e ys h₁ h₂ h₃ small =
    let enc = encodings-append before (row ∷ after) xs (e ∷ ys) h₁ (rw (encodings, h₂, h₃) refl) in
    let (w', run, held) =
      append_rows-Holds desc [] (init desc w).0 (before ++ row ∷ after) (xs ++ e ∷ ys)
        (init-Holds desc w) enc in
    (
      w',
      block_of w',
      rw (build_rows, run) (ap some (build_block-Holds desc w' xs e ys held)),
      row_count-block_of desc w' xs e ys held small ∙ sym (length-encodings _ _ enc),
      data_length-block_of desc w' xs e ys held small,
      rw (length-encodings before xs h₁) (row_start-block_of desc w' xs e ys held small),
    )
