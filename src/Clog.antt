-- ===== src/Clog.antt =====
-- storage/logservice: the commit log, from the headers on disk up to ObLogService.
pub mod Header
pub mod IoWorker
pub mod IoAdapter
pub mod LogMeta
pub mod LogStorage
pub mod PalfHandle
pub mod LogHandler
pub mod LogService
pub mod PalfEnv
pub mod Streams
mod Runs
