-- ===== src/Lib.antt =====
-- The storage engine under src/storage: rows go through a write-ahead log into memtables that keep
-- several versions of a row, and a restart replays the log.
--
-- How the parts work together. ObMemtable::set (src/storage/memtable/ob_memtable.cpp) serialises a
-- row, hands the bytes to ObLogHandler::append (src/storage/logservice/ob_log_handler.cpp), and then
-- writes the row through ObMvccEngine (src/storage/memtable/mvcc/ob_mvcc_engine.cpp), which finds or
-- makes the row in ObQueryEngine and links a version into its ObMvccRow. The log handler puts a base
-- header in front of the bytes and gives them to PalfHandleImpl
-- (src/storage/logservice/palf/palf_handle_impl.cpp), which gives them an LSN, frames them with a
-- group header and appends them through LogStorage (src/storage/logservice/palf/log_storage.cpp) to
-- block files. After a restart PalfHandleImpl scans for the end of the log, and
-- ObLogService::replay_ls (src/storage/logservice/ob_log_service.cpp) walks it and delivers each
-- payload through ObLogHandler::replay to ObMemtable::replay. ObTableStore
-- (src/storage/tablet/ob_tablet_table_store.cpp) reads the memtables that ObMemTableMgr
-- (src/storage/ls/ob_memtable_mgr.cpp) keeps for a tablet.
--
-- Beside the log and the memtables stand the files that rows end in and what names them. ObSSTableBuilder
-- (src/storage/blocksstable/ob_sstable_builder.cpp) gives rows to ObMacroBlockWriter, which gathers
-- them in the micro blocks of ObMicroBlockWriter, these in an ObMacroBlock, and hands the finished
-- macro blocks to ObSSTable, which keeps their places in ObSSTableMeta. ObStorageLogger
-- (src/storage/slog/ob_storage_logger.cpp) logs what happens to the storage itself, ObKVCache
-- (src/storage/cache/ob_kv_cache.h) keeps blocks in memory, and ObSchemaService
-- (src/share/schema/ob_schema_service.cpp) holds the databases and tables. ObCompaction
-- (src/storage/compaction/ob_compaction.cpp) writes a memtable to an SSTable through the builder.
--
-- DDL statements go through ObDDLService (src/rootserver/ob_ddl_service.cpp): it appends a record to
-- the log stream 1, makes the change in ObSchemaService through ObDDLOperator, and for a database
-- writes a block with its schema and an entry of the storage log. A restart replays the log stream and
-- then the storage log. ObLogService and PalfEnvImpl (src/storage/logservice/palf/palf_env_impl.cpp)
-- keep the log streams by id; ObStore (src/storage/ls/ob_ls.cpp) keeps the tablets by name and by id.
--
-- Files:
--   Prelude           shared: Boolean tests, lists and bytes over the native numbers, association
--                     lists, buffers and files with their laws
--   Store             ob_define.h and ob_i_store.h: rows, keys and contexts; Store/Murmur is the hash
--                     of ob_i_store.cpp, Store/Rowkey the operations of ObStoreRowkey
--   Memtable/Data     memtable/ob_memtable_data.h and ObMvccTransNode
--   Memtable/Key      memtable/ob_memtable_key.h: ObMemtableKey, the wrapper's hash
--   Memtable/MvccRow  memtable/mvcc/ob_mvcc_row.cpp: the chain of versions and its write
--   Memtable/QueryEngine  memtable/mvcc/ob_mt_hash.h and ob_query_engine.h: the two indexes
--   Memtable/MvccEngine   memtable/mvcc/ob_mvcc_engine.cpp
--   Memtable/Table    memtable/ob_memtable.cpp: set, multi_set, get, scan, replay
--   Clog/Header       logservice/palf/log_entry.cpp and logservice/ob_log_base_header.h
--   Clog/LogStorage   logservice/palf/log_storage.cpp
--   Clog/PalfHandle   logservice/palf/palf_handle_impl.cpp and log_cache.h
--   Clog/LogHandler   logservice/ob_log_handler.cpp
--   Clog/LogService   ObLogService::replay_ls
--   Clog/PalfEnv      logservice/palf/palf_env_impl.cpp
--   Clog/Streams      ObLogService's log streams: init, start, stop, destroy, open_ls, remove_ls
--   Clog/IoWorker     logservice/palf/log_io_worker.cpp
--   Clog/IoAdapter    logservice/palf/log_io_adapter.cpp
--   Clog/LogMeta      logservice/palf/log_meta.cpp and log_meta_entry.cpp
--   Ls/MemTableMgr    src/storage/ls/ob_memtable_mgr.cpp: the active and the frozen memtables
--   Ls/Freezer        src/storage/ls/ob_freezer.cpp
--   Ls/TableStore     src/storage/tablet/ob_tablet_table_store.cpp
--   Block/Header      src/storage/blocksstable/ob_block_header.h
--   Block/MicroWriter src/storage/blocksstable/ob_micro_block_writer.cpp
--   Block/Macro       src/storage/blocksstable/ob_macro_block.cpp, and how a block is assembled
--   Block/MacroWriter src/storage/blocksstable/ob_macro_block_writer.cpp
--   Block/SsTableMeta src/storage/blocksstable/ob_sstable_meta.cpp
--   Block/SsTable     src/storage/blocksstable/ob_sstable.cpp and the files of the metadata
--   Block/SsTableBuilder  src/storage/blocksstable/ob_sstable_builder.cpp
--   Compaction        src/storage/compaction/ob_compaction.cpp
--   Slog              src/storage/slog/ob_storage_logger.cpp
--   Cache             src/storage/cache/ob_kv_cache.h and ob_block_cache.h
--   Schema            src/share/schema/ob_schema_service.cpp and the headers beside it
--   Ls/Tablet         src/storage/tablet/ob_tablet.cpp
--   Ls/ObStore        src/storage/ls/ob_ls.cpp
--   Ddl/Operator      src/rootserver/ob_ddl_operator.cpp
--   Ddl/Baseline      the block of a new database, of src/rootserver/ob_ddl_service.cpp
--   Ddl/Service       src/rootserver/ob_ddl_service.cpp: statements, replay, recovery
--   Ddl/Startup       ObDDLService::init
--   Ls/RecordScanner  src/storage/ob_record_scanner.cpp
-- The modules below these carry their theorems; the Runs modules hold concrete inputs.
--
-- States. A pointer to a shared row is its position in the list of rows of the query engine, and both
-- indexes lead there; the chain of versions is a list, newest first. A buffer is the list of its
-- bytes; what a buffer from malloc or an
-- uninitialised variable held before is an argument. A file is a size and a byte at each
-- offset, and the directory of a log is a map from block ids to files. What the system calls answer
-- is the record Os, an argument. An int64 that the code keeps non-negative is a natural number; a
-- uint64 wraps at 2 ^ 64, a uint32 at 2 ^ 32; the ids that the schema service gives out wrap too, and
-- the cast of a size to int is written out where the code has it. A failing call is `failure` or none. The latches and
-- mutexes make an operation one step; the operations are sequential functions of their state. The
-- mutex of ObMemTableMgr, which one thread locks twice, is a flag in the state.
--
-- Where the code hands out pointers to objects that are deleted later, a pointer is an address, and a
-- map from addresses holds the objects that are not deleted: the log streams, their handlers, the
-- tablets. The I/O worker is the one component whose threads are interleaved: its step relation has a
-- step for each critical section, each part of destroy, and each move of the condition variable,
-- spurious wakeups among them. An empty task, which the worker skips, counts as one that ran.
--
-- The files of the SSTables are a map from paths to bytes. The order in which an unordered map is gone
-- over is an argument. Undefined behaviour that the code can reach, such as a store behind a buffer, is
-- none.
--
-- Fuel. The scan of PalfHandleImpl::init takes fuel; Clog/PalfHandle/Scan shows how much is enough.
-- The scan of load has no test that it advances and is on fuel without such a bound. The loop of
-- replay_ls is on fuel; Clog/LogService/Step shows what one round does, and Clog/LogService/Whole that
-- one round for each entry and one more are enough. The scan over the block files takes as
-- many rounds as there are files. The replay of the
-- storage log has one round for each byte of the file, and the eviction of the cache one for each key.
--
-- Not modelled: the SQL front end of the DDL statements, which only calls them; the copy of the schema
-- service under src/storage/schema, which no build file compiles; the MiniOB server around the engine
-- with its libraries, which are copies of another project.
pub mod Prelude
pub mod Store
pub mod Memtable
pub mod Clog
pub mod Block
pub mod Compaction
pub mod Slog
pub mod Cache
pub mod Schema
pub mod Ddl
pub mod Ls
