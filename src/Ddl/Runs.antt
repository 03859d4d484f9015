-- ===== src/Ddl/Runs.antt =====
-- DDL statements on concrete inputs.
use lsm_storage.Prelude.{
  ℕ, ◌+◌, ◌≡◌, refl, true, false, some, List, [], ◌∷◌, ◌++◌, drop, get_elem?, success, arith,
}
use mathlib.Core.List.Perm
use lsm_storage.Memtable.Table.{LogSink}
use lsm_storage.Block.Header.{deserialize_common, micro_header_size, fixed_widths, micro_widths}
use lsm_storage.Schema.{
  c_string, set_name, TableSchema, SchemaService, new_service, new_table, set_table_name,
  deserialize_database, named_database,
}
use lsm_storage.Schema.Names.{IsText}
use lsm_storage.Clog.LogService.{returned}
use lsm_storage.Ddl.Baseline.{schema_bytes, block_bytes}
use lsm_storage.Prelude.Fields.{unpack}
use lsm_storage.Ddl.Baseline.Parts.{macro_members, micro_members, stored_header}
use lsm_storage.Ddl.Baseline.Contents.{block_bytes-schema}
use lsm_storage.Ddl.Service.{DdlService, recover_slog}
use lsm_storage.Ddl.Service.Recovery.{bare_schema}
use lsm_storage.Ddl.Service.StorageLog.{on_file}
use lsm_storage.Ddl.Service.Statements.{
  Statement, database_statement, table_statement, execute_all, logged, replay_all,
}
use lsm_storage.Ddl.Service.Restart.{AllShort, recover_slog-execute_all}

-- A log that takes everything.
abbrev sink : LogSink (List (List ℕ))
sink = record { append = λ log bytes. (log ++ bytes ∷ [], success) }

abbrev order : {A : Type 0} → List A → List A
order entries = entries

abbrev shop : List ℕ
shop = 115 ∷ 104 ∷ 111 ∷ 112 ∷ []

abbrev fruit : TableSchema
fruit = record (set_table_name (102 ∷ 105 ∷ 103 ∷ []) new_table) { database_id = 1 }

-- The database, a table of it, and the database again.
abbrev statements : List Statement
statements =
    database_statement (record { opens = true; slog_written = 100 }) shop
    ∷ table_statement fruit
    ∷ database_statement (record { opens = false; slog_written = 100 }) shop
    ∷ []

abbrev new_ddl : DdlService
new_ddl = record {
  is_inited = true;
  log_handler = true;
  schema = new_service;
  slog = on_file [];
  block_file = [];
}

abbrev done : DdlService
done = (execute_all order order sink statements new_ddl []).0

shop-IsText : IsText shop
shop-IsText = (omega arith, (omega arith, (omega arith, (omega arith, tt))))

statements-AllShort : AllShort statements
unfolding c_string set_table_name set_name
statements-AllShort = (
  (shop-IsText, omega arith, omega arith),
  ((omega arith, omega arith), ((shop-IsText, omega arith, omega arith), tt)),
)

recover_slog-execute_all_example :
    (s : SchemaService) × (replay_all order order
        (logged order order sink statements new_ddl [])
        new_service
      ≡ some s)
    × (s ≡ bare_schema done.schema)
    × (recover_slog order order (returned success (some s)) done
        ≡ some (record done { schema = s }))
recover_slog-execute_all_example =
    recover_slog-execute_all order order sink (λ databases. Perm.refl databases) statements [] []
      done statements-AllShort (omega arith) refl

block_bytes-schema_example :
    (bytes : List ℕ) × (schema_bytes shop 1 ≡ some bytes)
    × (deserialize_common (block_bytes 304 1 bytes) 304 0 ≡ some (stored_header 136, 24))
    × (unpack fixed_widths (drop 24 (block_bytes 304 1 bytes)) ≡ macro_members 1)
    × (unpack micro_widths (drop 112 (block_bytes 304 1 bytes)) ≡ micro_members)
    × (offset : ℕ) × (get_elem? (unpack fixed_widths (drop 24 (block_bytes 304 1 bytes))) 12
        ≡ some offset)
    × (deserialize_database 136 (drop (offset + micro_header_size) (block_bytes 304 1 bytes))
        ≡ some (named_database 1 shop))
block_bytes-schema_example = block_bytes-schema 304 1 shop (omega arith) (omega arith)
