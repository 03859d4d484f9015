-- ===== src/Block.antt =====
-- storage/blocksstable: micro blocks, macro blocks and the SSTable files made of them.
pub mod Header
pub mod MicroWriter
pub mod Macro
pub mod MacroWriter
pub mod SsTableMeta
pub mod SsTable
pub mod SsTableBuilder
mod Runs
