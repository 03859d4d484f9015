-- ===== src/Ls.antt =====
-- src/storage/ls and src/storage/tablet: the memtables of a tablet and the reads over them.
pub mod MemTableMgr
pub mod Freezer
pub mod TableStore
pub mod Tablet
pub mod ObStore
pub mod RecordScanner
mod Runs
