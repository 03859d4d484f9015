-- ===== src/Block/Runs.antt =====
-- Blocks and SSTables on concrete inputs.
use lsm_storage.Prelude.{
  ℕ, ◌+◌, ◌*◌, ◌≡◌, refl, ◌≢◌, Bool, true, false, Option, none, some, List, [], ◌∷◌, ◌++◌, length,
  take, drop, success, arith, zeros, join,
}
use lsm_storage.Prelude.Buffer.{fetch}
use lsm_storage.Prelude.Fields.{Fits, done, next, pack}
use lsm_storage.Store.{StoreRow, empty_row, df_insert}
use lsm_storage.Memtable.Table.{to_char}
use lsm_storage.Block.Header.{
  common_widths, common_header_values, fixed_widths, fixed_header_values,
}
use lsm_storage.Block.MicroWriter.{
  DataStoreDesc, default_desc, MicroWriter, new_micro_writer, reset, encode_row,
}
use lsm_storage.Block.MicroWriter.Fill.{build_rows, encodings}
use lsm_storage.Block.MicroWriter.Index.{row_start, build_rows-row_start}
use lsm_storage.Block.Macro.{MacroBlock, new_macro_block, assemble}
use lsm_storage.Block.Macro
use lsm_storage.Block.Macro.Contents.{write_all, offsets_from, block_with, assemble-block_with}
use lsm_storage.Block.SsTableMeta.{
  SsTableMeta, new_meta, zero_basic_meta, basic_widths, basic_values, serialize, deserialize,
  with_count,
}
use lsm_storage.Block.SsTableMeta.RoundTrip
use lsm_storage.Block.SsTableMeta.RoundTrip.{deserialize-serialize}
use lsm_storage.Block.SsTable.{Disk, SsTable, new_table, create_from_blocks, read_macro_block}
use lsm_storage.Block.SsTable.Reads.{read_macro_block-create_from_blocks}

abbrev row : ℕ → StoreRow
row n = record empty_row {
  dml_flag = df_insert;
  rowkey = record { buf = n ∷ n ∷ []; len = 2 };
  row_value = n ∷ [];
}

abbrev row_bytes : ℕ → List ℕ
row_bytes n = 1 ∷ 2 ∷ 0 ∷ 0 ∷ 0 ∷ n ∷ n ∷ 1 ∷ 0 ∷ 0 ∷ 0 ∷ n ∷ []

build_rows-row_start_example :
    (w' : MicroWriter) × (block : List ℕ) × (build_rows default_desc
        ((row 7 ∷ []) ++ row 8 ∷ row 9 ∷ [])
        new_micro_writer
      ≡ some (reset default_desc w', block))
    × (fetch 4 16 block ≡ 3)
    × (fetch 4 40 block ≡ length block)
    × (take 12 (drop (row_start 1 block) block) ≡ row_bytes 8)
unfolding encodings encode_row to_char lsm_storage.Prelude.to_le
build_rows-row_start_example =
    build_rows-row_start default_desc new_micro_writer (row 7 ∷ []) (row 9 ∷ []) (row 8)
      (row_bytes 7 ∷ []) (row_bytes 8) (row_bytes 9 ∷ []) refl refl refl (omega arith)

abbrev small_desc : DataStoreDesc
small_desc = record default_desc { macro_block_size = 4200 }

abbrev micros : List (List ℕ)
micros = (1 ∷ 2 ∷ []) ∷ (3 ∷ []) ∷ []

abbrev small_block : MacroBlock
small_block = block_with small_desc 1 new_macro_block micros

assemble-block_with_example :
    ((write_all micros (Macro.init small_desc 1 new_macro_block)).1 ≡ offsets_from 4096 micros)
    × (assemble small_block
        ≡ (pack common_widths (common_header_values small_block.common_header)
            ++ pack fixed_widths (fixed_header_values small_block.macro_header))
          ++ (zeros 4096 ++ join micros))
assemble-block_with_example = assemble-block_with small_desc 1 new_macro_block micros (omega arith)

abbrev two_blocks : SsTableMeta
two_blocks = record new_meta {
  basic_meta = record zero_basic_meta {
    data_macro_block_count = 2;
    occupy_size = 5;
    schema_version = 9;
  };
  root_block_data = 6 ∷ 7 ∷ [];
  root_block_size = 2;
  macro_ids = 1 ∷ 3 ∷ [];
  macro_offsets = 0 ∷ 2 ∷ [];
  macro_sizes = 2 ∷ 3 ∷ [];
  is_inited = true;
}

two_blocks-Fits : Fits basic_widths (basic_values two_blocks.basic_meta)
two_blocks-Fits = next (omega arith) (
    next (omega arith) (
      next (omega arith) (
        next (omega arith) (
          next (omega arith) (
            next (omega arith) (
              next (omega arith) (
                next (omega arith) (
                  next (omega arith) (
                    next (omega arith) (
                      next (omega arith) (
                        next (omega arith) (
                          next (omega arith) (
                            next (omega arith)
                              (next (omega arith) (next (omega arith) (done))))))))))))))))

deserialize-serialize_example : deserialize (serialize two_blocks) new_meta ≡ (
  with_count 2
      (record two_blocks { root_block_offset = 0; root_block_size = 0; is_inited = false }),
  success,
)
deserialize-serialize_example =
    deserialize-serialize two_blocks two_blocks-Fits (omega arith) (omega arith) (
      RoundTrip.next (omega arith) (omega arith) (omega arith)
        (RoundTrip.next (omega arith) (omega arith) (omega arith) RoundTrip.done))

abbrev empty_disk : Disk
empty_disk = record { file = λ p. none; is_writable = λ p. true }

read_macro_block-create_from_blocks_example :
    (t' : SsTable) × (d' : Disk) × (create_from_blocks
        (((1 ∷ 2 ∷ []) ∷ []) ++ (3 ∷ 4 ∷ []) ∷ (5 ∷ []) ∷ [])
        (1 ∷ 2 ∷ 3 ∷ [])
        new_meta
        1
        2
        empty_disk
        new_table
      ≡ (t', d', success))
    × (read_macro_block 1 (9 ∷ []) d' t' ≡ (3 ∷ 4 ∷ [], success))
read_macro_block-create_from_blocks_example =
    read_macro_block-create_from_blocks ((1 ∷ 2 ∷ []) ∷ []) (3 ∷ 4 ∷ []) ((5 ∷ []) ∷ [])
      (1 ∷ 2 ∷ 3 ∷ []) new_meta 1 2 empty_disk new_table (9 ∷ []) refl refl (ground arith)
