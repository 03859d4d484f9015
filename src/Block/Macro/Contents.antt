-- ===== src/Block/Macro/Contents.antt =====
-- What a macro block holds when micro blocks have been written into it.
use lsm_storage.Prelude.{
  ℕ, ◌+◌, ◌-◌, ◌≤◌, ◌≡◌, refl, ap, ap₂, sym, subst, ◌∙◌, true, false, Option, none, some, List, [],
  ◌∷◌, ◌++◌, length, take, ltb, if◌then◌else◌, zeros, join, assoc, length-append, take-append,
  arith, append-nil, to_le,
}
use lsm_storage.Prelude.Buffer.{put, put-zeros, zeros-append}
use lsm_storage.Prelude.Fields.{pack}
use lsm_storage.Block.Header.{
  common_widths, common_header_values, fixed_widths, fixed_header_values, serialize_common,
  serialize_fixed,
}
use lsm_storage.Block.MicroWriter.{DataStoreDesc}
use lsm_storage.Block.Macro.{
  MacroBlock, init, write_micro_block, build_common_header, get_total_size, assemble, is_refused,
  after_write, store_common, store_fixed, store_data,
}

unfoldable pub write_all : List (List ℕ) → MacroBlock → MacroBlock × List (Option ℕ)
write_all [] mb = (mb, [])
write_all (micro ∷ micros) mb =
    let (mb₁, offset) = write_micro_block micro mb in
    let (mb₂, offsets) = write_all micros mb₁ in (mb₂, offset ∷ offsets)

-- The offsets of pieces that stand one behind the other from `p` on.
unfoldable pub offsets_from : ℕ → List (List ℕ) → List (Option ℕ)
offsets_from p [] = []
offsets_from p (micro ∷ micros) = some p ∷ offsets_from (p + length micro) micros

record Filled (content : List ℕ) (mb : MacroBlock) : Type 0 where
  buf_eq : mb.data_buf ≡ content ++ zeros (mb.macro_size - length content)
  size_eq : mb.data_size ≡ length content
  room : length content ≤ mb.macro_size
  ready : mb.is_inited ≡ true

init-Filled :
    (desc : DataStoreDesc) (seq : ℕ) (mb : MacroBlock)
    → 4096 ≤ desc.macro_block_size
    → Filled (zeros 4096) (init desc seq mb)
unfolding init
init-Filled desc seq mb h =
    let size : 4096 + (desc.macro_block_size - 4096) ≡ desc.macro_block_size = omega arith in
    record {
      buf_eq = ap zeros (sym size) ∙ zeros-append 4096 (desc.macro_block_size - 4096);
      size_eq = refl;
      room = h;
      ready = refl;
    }

write-after_write :
    (content micro : List ℕ) (mb : MacroBlock)
    → Filled content mb
    → length content + length micro ≤ mb.macro_size
    → write_micro_block micro mb ≡ (after_write micro mb, some (length content))
unfolding write_micro_block
write-after_write content micro mb h fits =
    let accepted : is_refused micro mb ≡ false = ground (arith, h.size_eq, h.ready) in
    ap (λ b. if b then (mb, none) else (after_write micro mb, some mb.data_size)) accepted
    ∙ ap (λ n. (after_write micro mb, some n)) h.size_eq

after_write-Filled :
    (content micro : List ℕ) (mb : MacroBlock)
    → Filled content mb
    → length content + length micro ≤ mb.macro_size
    → Filled (content ++ micro) (after_write micro mb)
after_write-Filled content micro mb h fits = record {
  buf_eq =
      rw (h.size_eq, h.buf_eq)
        (put-zeros content micro (mb.macro_size - length content)
          ∙ ap (λ k. (content ++ micro) ++ zeros k) (omega (arith, length-append content micro)));
  size_eq = omega (arith, length-append content micro, h.size_eq);
  room = omega (arith, length-append content micro);
  ready = h.ready;
}

write_all-Filled :
    (content : List ℕ) (micros : List (List ℕ)) (mb : MacroBlock)
    → Filled content mb
    → length content + length (join micros) ≤ mb.macro_size
    → ((write_all micros mb).1 ≡ offsets_from (length content) micros)
      × Filled (content ++ join micros) (write_all micros mb).0
unfolding write_all offsets_from
write_all-Filled content [] mb h fits =
    (refl, subst (λ c. Filled c mb) (sym (append-nil content)) h)
write_all-Filled content (micro ∷ micros) mb h fits =
    let size : length (micro ++ join micros) ≡ length micro + length (join micros) =
      length-append micro (join micros) in
    let step = write-after_write content micro mb h (omega (arith, size)) in
    let filled = after_write-Filled content micro mb h (omega (arith, size)) in
    let both : length (content ++ micro) ≡ length content + length micro =
      length-append content micro in
    let (offsets, rest) =
      write_all-Filled (content ++ micro) micros (after_write micro mb) filled
        (omega (arith, size, both)) in
    rw step (
      ap (◌∷◌ (some (length content))) (offsets ∙ ap (λ p. offsets_from p micros) both),
      subst (λ c. Filled c (write_all micros (after_write micro mb)).0)
          (assoc content micro (join micros)) rest,
    )

module _ (mb : MacroBlock) where
  common : List ℕ
  common = pack common_widths (common_header_values mb.common_header)

  fixed : List ℕ
  fixed = pack fixed_widths (fixed_header_values mb.macro_header)

  length-common : length common ≡ 24
  unfolding common pack to_le
  length-common = refl

  length-fixed : length fixed ≡ 88
  unfolding fixed pack to_le
  length-fixed = refl

  common_room : ltb (get_total_size mb) 24 ≡ false
  unfolding get_total_size
  common_room = ground arith

  fixed_room : ltb (get_total_size mb) 112 ≡ false
  unfolding get_total_size
  fixed_room = ground arith

  store_common_lem :
      store_common mb (zeros (get_total_size mb), 0)
      ≡ (common ++ zeros (get_total_size mb - 24), 24)
  unfolding common serialize_common
  store_common_lem = simp common_room (
      ap (λ xs. (xs, 24))
        (put-zeros [] common (get_total_size mb)
          ∙ ap (λ k. common ++ zeros (get_total_size mb - k)) length-common))

  store_fixed_lem :
      store_fixed mb (common ++ zeros (get_total_size mb - 24), 24)
      ≡ ((common ++ fixed) ++ zeros (get_total_size mb - 112), 112)
  unfolding fixed serialize_fixed
  store_fixed_lem = simp fixed_room (
      ap (λ xs. (xs, 112))
        (ap (λ p. put p fixed (common ++ zeros (get_total_size mb - 24))) (sym length-common)
          ∙ put-zeros common fixed (get_total_size mb - 24)
          ∙ ap (λ k. (common ++ fixed) ++ zeros k) (omega (arith, length-fixed))))

total_size : (mb : MacroBlock) (n : ℕ) → mb.data_size ≡ n → get_total_size mb - 112 - n ≡ 0
unfolding get_total_size
total_size mb n e = omega (arith, e)

-- The block that is handed out.
assemble_lem :
    (content rest : List ℕ) (mb : MacroBlock)
    → mb.data_size ≡ length content
    → mb.data_buf ≡ content ++ rest
    → assemble mb ≡ (common mb ++ fixed mb) ++ content
unfolding assemble
assemble_lem content rest mb size buf =
    let front : length (common mb ++ fixed mb) ≡ 112 =
      omega (arith, length-append (common mb) (fixed mb), length-common mb, length-fixed mb) in
    let kept : take mb.data_size mb.data_buf ≡ content =
      ap₂ take size buf ∙ take-append content rest in
    ap (λ b. store_data mb (store_fixed mb b)) (store_common_lem mb)
    ∙ ap (store_data mb) (store_fixed_lem mb)
    ∙ ap₂ (λ p xs. put p xs ((common mb ++ fixed mb) ++ zeros (get_total_size mb - 112)))
        (sym front) kept
    ∙ put-zeros (common mb ++ fixed mb) content (get_total_size mb - 112)
    ∙ ap (λ k. ((common mb ++ fixed mb) ++ content) ++ zeros k)
        (total_size mb (length content) size)
    ∙ append-nil _

-- The macro block that is made of `micros` alone.
unfoldable pub block_with : DataStoreDesc → ℕ → MacroBlock → List (List ℕ) → MacroBlock
unfolding write_all
block_with desc seq mb micros = build_common_header (write_all micros (init desc seq mb)).0

-- Micro blocks that fit behind the reserved bytes are all written into a fresh macro block, each at
-- the offset where the one before it ends. The block that is then handed out is its two headers,
-- 4096 zeros, and the micro blocks in the order of the writes.
pub assemble-block_with :
    (desc : DataStoreDesc) (seq : ℕ) (mb : MacroBlock) (micros : List (List ℕ))
    → 4096 + length (join micros) ≤ desc.macro_block_size
    → ((write_all micros (init desc seq mb)).1 ≡ offsets_from 4096 micros)
      × (assemble (block_with desc seq mb micros)
          ≡ (pack common_widths (common_header_values (block_with desc seq mb micros).common_header)
              ++ pack fixed_widths
                  (fixed_header_values (block_with desc seq mb micros).macro_header))
            ++ (zeros 4096 ++ join micros))
unfolding block_with build_common_header common fixed init
assemble-block_with desc seq mb micros fits =
    let (offsets, filled) =
      write_all-Filled (zeros 4096) micros (init desc seq mb)
        (init-Filled desc seq mb (omega arith)) fits in
    (
      offsets,
      assemble_lem (zeros 4096 ++ join micros) _ (block_with desc seq mb micros) filled.size_eq
          filled.buf_eq,
    )
