-- ===== src/Block/MacroWriter.antt =====
-- blocksstable/ob_macro_block_writer.h and ob_macro_block_writer.cpp: ObMacroBlockWriter.
use lsm_storage.Prelude.{
  ℕ, ◌+◌, ◌*◌, Bool, true, false, not, Option, none, some, List, ltb, if◌then◌else◌, Ret, success,
  failure,
}
use lsm_storage.Store.{StoreRow}
use lsm_storage.Block.MicroWriter.{
  DataStoreDesc, MicroWriter, new_micro_writer, is_block_full, build_block,
}
use lsm_storage.Block.MicroWriter
use lsm_storage.Block.Macro.{
  MacroBlock, new_macro_block, write_micro_block, add_row_count, inc_micro_block_count,
  build_common_header, assemble,
}
use lsm_storage.Block.Macro

-- macro_blocks_[0], macro_blocks_[1], and which of them current_macro_idx_ names.
pub record MacroWriter : Type 0 where
  pub desc : Option DataStoreDesc
  pub micro_writer : MicroWriter
  pub block₀ : MacroBlock
  pub block₁ : MacroBlock
  pub at_second : Bool
  pub macro_seq : ℕ
  pub total_row_count : ℕ
  pub is_opened : Bool

-- ObMacroBlockWriter()
abbrev pub new_macro_writer : MacroWriter
new_macro_writer = record {
  desc = none;
  micro_writer = new_micro_writer;
  block₀ = new_macro_block;
  block₁ = new_macro_block;
  at_second = false;
  macro_seq = 0;
  total_row_count = 0;
  is_opened = false;
}

unfoldable pub open_writer : DataStoreDesc → ℕ → MacroWriter → MacroWriter × Ret
open_writer desc parallel_idx w =
    let seq = parallel_idx * 1000000 + 1 in
    let (micro, ret) = MicroWriter.init desc w.micro_writer in
    elim ret [
      | failure ↦ (record w { desc = some desc; macro_seq = seq; micro_writer = micro }, failure)
      | success ↦ (
        record w {
          desc = some desc;
          micro_writer = micro;
          block₀ = Macro.init desc seq w.block₀;
          block₁ = Macro.init desc (seq + 1) w.block₁;
          macro_seq = seq + 2;
          at_second = false;
          total_row_count = 0;
          is_opened = true;
        },
        success,
      )
    ]

abbrev pub current : MacroWriter → MacroBlock
current w = if w.at_second then w.block₁ else w.block₀

abbrev pub set_current : MacroBlock → MacroWriter → MacroWriter
set_current mb w = if w.at_second then record w { block₁ = mb } else record w { block₀ = mb }

-- The block that is handed out with its sequence number.
unfoldable pub flush_current_macro : DataStoreDesc → MacroWriter → MacroWriter × List ℕ × ℕ
flush_current_macro desc w =
    let mb = build_common_header (current w) in
    let w₁ = set_current mb w in
    let w₂ = record w₁ { at_second = not w₁.at_second; macro_seq = w₁.macro_seq + 1 } in
    (set_current (Macro.init desc w.macro_seq (current w₂)) w₂, assemble mb, mb.cur_macro_seq)

-- A micro block is built and written. append_row looks at the result of the write in its first
-- call only; the count goes up whenever the write is not looked at.
unfoldable pub write_pending : MacroWriter → MacroWriter × Option ℕ
write_pending w =
    let (micro, bytes) = build_block w.micro_writer in
    let (mb, offset) = write_micro_block bytes (current w) in
    (set_current mb (record w { micro_writer = micro }), offset)

abbrev count_block : MacroWriter → MacroWriter
count_block w = set_current (inc_micro_block_count (current w)) w

-- What close and the second half of append_row do with the rows of an unfinished micro block.
abbrev flush_pending : MacroWriter → MacroWriter
flush_pending w = if ltb 0 w.micro_writer.row_count then count_block (write_pending w).0 else w

abbrev flushed : MacroWriter × List ℕ × ℕ → MacroWriter × Ret × Option (List ℕ × ℕ)
flushed (w, block, seq) = (w, success, some (block, seq))

-- The second half of append_row: a macro block without room for a micro block is flushed.
unfoldable pub flush_full : DataStoreDesc → MacroWriter → MacroWriter × Ret × Option (List ℕ × ℕ)
flush_full desc w =
    let mb = current w in
    if ltb mb.macro_size (mb.data_size + desc.micro_block_size)
    then flushed (flush_current_macro desc (flush_pending w))
    else (w, success, none)

unfoldable pub finish_row : DataStoreDesc → MacroWriter → MacroWriter × Ret × Option (List ℕ × ℕ)
finish_row desc w =
    if is_block_full w.micro_writer
    then (let (w', offset) = write_pending w in
        elim offset [ none ↦ (w', failure, none) | some off ↦ flush_full desc (count_block w') ])
    else flush_full desc w

-- The macro block that was flushed, if one was. none is an exception of the micro writer.
unfoldable pub append_row :
    StoreRow → MacroWriter → Option (MacroWriter × Ret × Option (List ℕ × ℕ))
append_row row w = if not w.is_opened then some (w, failure, none) else elim w.desc [
  | none ↦ some (w, failure, none)
  | some desc ↦ elim (MicroWriter.append_row row w.micro_writer) [
    | none ↦ none
    | some (micro, failure) ↦ some (record w { micro_writer = micro }, failure, none)
    | some (micro, success) ↦
        let w₁ = record w { micro_writer = micro; total_row_count = w.total_row_count + 1 } in
        some (finish_row desc (set_current (add_row_count 1 (current w₁)) w₁))
  ]
]

-- The last macro block, which is flushed whatever it holds.
unfoldable pub close : MacroWriter → MacroWriter × Option (List ℕ × ℕ)
close w = if not w.is_opened then (w, none) else elim w.desc [
  | none ↦ (w, none)
  | some desc ↦
      let (w', block, seq) = flush_current_macro desc (flush_pending w) in
      (record w' { is_opened = false }, some (block, seq))
]
