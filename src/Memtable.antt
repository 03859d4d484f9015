-- ===== src/Memtable.antt =====
-- storage/memtable: the write buffer, from the versions of a row up to ObMemtable.
pub mod Data
pub mod Key
pub mod MvccRow
pub mod QueryEngine
pub mod MvccEngine
pub mod Table
mod Runs
