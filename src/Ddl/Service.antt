-- ===== src/Ddl/Service.antt =====
-- rootserver/ob_ddl_service.h and ob_ddl_service.cpp: ObDDLService. The one schema service is a part
-- of its state. The log handler is the interface LogSink: `L` is the state that its append changes,
-- here with DDL_LOG_BASE_TYPE.
pub mod Recovery
pub mod Statements
pub mod StorageLog
pub mod Restart
use lsm_storage.Prelude.{
  ℕ, ◌+◌, ◌-◌, ◌%◌, ◌^◌, Bool, true, false, ◌||◌, not, Option, none, some, List, [], ◌∷◌, ◌++◌,
  length, take, drop, to_le, from_le, ltb, leb, ◌==◌, if◌then◌else◌, Ret, success, failure, zeros,
}
use lsm_storage.Schema.{
  TableSchema, DatabaseSchema, SchemaService, c_string, new_table, set_table_name,
}
use lsm_storage.Slog.{LogEntry, StorageLogger, write_log}
use lsm_storage.Slog
use lsm_storage.Memtable.Table.{LogSink}
use lsm_storage.Clog.LogStorage.{Os}
use lsm_storage.Clog.LogHandler.{LogHandler}
use lsm_storage.Clog.LogService.{Replay, returned, overrun, stuck, replay_ls}
use lsm_storage.Ddl.Operator
use lsm_storage.Ddl.Baseline.{macro_size, schema_bytes, block_bytes}

-- DDL_LOG_BASE_TYPE
abbrev pub ddl_type : ℕ
ddl_type = 5

-- SLOG_CREATE_DATABASE
abbrev pub slog_create_database : ℕ
slog_create_database = 4

-- ObDDLService; `log_handler` is whether the pointer is set, and block_file the bytes of the file.
pub record DdlService : Type 0 where
  pub is_inited : Bool
  pub log_handler : Bool
  pub schema : SchemaService
  pub slog : StorageLogger
  pub block_file : List ℕ

-- What the system does for the calls of one statement: whether the block file opens, and how many
-- bytes of the entry of the storage log are written. A write of a block is complete.
pub record Files : Type 0 where
  pub opens : Bool
  pub slog_written : ℕ

-- [type 8B][name_len 8B][name]
unfoldable pub database_record : List ℕ → List ℕ
database_record name = to_le 8 1 ++ (to_le 8 (length name) ++ name)

-- [type 8B][name_len 8B][name][database id 8B]
unfoldable pub table_record : TableSchema → List ℕ
table_record t =
    let name = c_string t.table_name in
    to_le 8 3 ++ (to_le 8 (length name) ++ (name ++ to_le 8 t.database_id))

-- The block of the new database goes to the end of the file.
unfoldable pub write_baseline : Bool → List ℕ → ℕ → List ℕ → List ℕ
unfolding schema_bytes block_bytes
write_baseline opens name id file =
    if opens
    then elim (schema_bytes name id) [
      | none ↦ file ++ block_bytes macro_size id (zeros 136)
      | some bytes ↦ file ++ block_bytes macro_size id bytes
    ]
    else file

module _ (database_order : List (ℕ × DatabaseSchema) → List (ℕ × DatabaseSchema))
    (table_order : List (ℕ × TableSchema) → List (ℕ × TableSchema)) where
  -- What follows the log record. `none` is -1.
  unfoldable pub finish_database : Files → List ℕ → DdlService → DdlService × Option ℕ
  finish_database files name d =
      let (schema, made) = Operator.create_database database_order table_order name d.schema in
      elim made [
        | none ↦ (record d { schema = schema }, none)
        | some id ↦ (
          record d {
            schema = schema;
            block_file = write_baseline files.opens name id d.block_file;
            slog =
                (write_log files.slog_written
                  (record { tenant_id = 1; log_type = slog_create_database; bytes = name })
                  d.slog).0;
          },
          some id,
        )
      ]

  unfoldable pub create_database :
      {L : Type 0} → LogSink L → Files → List ℕ → DdlService → L → DdlService × L × Option ℕ
  unfolding finish_database
  create_database sink files name d log =
      if not d.is_inited || not d.log_handler
      then (d, log, none)
      else let (log', ret) = sink.append log (database_record name) in
        elim ret [
          | failure ↦ (d, log', none)
          | success ↦ let (d', made) = finish_database files name d in (d', log', made)
        ]

-- The service, the log, the schema with its number, and the id.
unfoldable pub create_table :
    {L : Type 0}
    → LogSink L
    → TableSchema
    → DdlService
    → L
    → DdlService × L × TableSchema × Option ℕ
create_table sink t d log =
    if not d.is_inited || not d.log_handler
    then (d, log, t, none)
    else let (log', ret) = sink.append log (table_record t) in
      elim ret [
        | failure ↦ (d, log', t, none)
        | success ↦
            let (schema, t', made) = Operator.create_table t d.schema in
            (record d { schema = schema }, log', t', made)
      ]

-- The name that replay copies, in 256 bytes of zeros: none where the copy reads behind the record or
-- writes behind the array, or the text does not end within the array.
unfoldable pub copied_name : ℕ → List ℕ → Option (List ℕ)
copied_name size bytes =
    if ltb 256 size || ltb (length bytes) size
    then none
    else let name = c_string (take size bytes ++ zeros (256 - size)) in
      if ltb (length name) 256 then some name else none

module _ (database_order : List (ℕ × DatabaseSchema) → List (ℕ × DatabaseSchema))
    (table_order : List (ℕ × TableSchema) → List (ℕ × TableSchema)) where
  -- The record behind its name; none where it reads behind the record.
  unfoldable pub apply_record : ℕ → List ℕ → List ℕ → SchemaService → Option (SchemaService × Ret)
  apply_record kind name rest s =
      if kind == 1
      then some ((Operator.create_database database_order table_order name s).0, success)
      else if kind == 3
      then if ltb (length rest) 8
        then none
        else some (
          (Operator.create_table
              (record (set_table_name name new_table) { database_id = from_le (take 8 rest) }) s).0,
          success,
        )
      else some (s, success)

  -- none is undefined behaviour.
  unfoldable pub replay : List ℕ → SchemaService → Option (SchemaService × Ret)
  unfolding apply_record
  replay bytes s =
      if length bytes == 0
      then some (s, failure)
      else if ltb (length bytes) 16
      then none
      else let size = from_le (take 8 (drop 8 bytes)) in
        elim (copied_name size (drop 16 bytes)) [
          | none ↦ none
          | some name ↦ apply_record (from_le (take 8 bytes)) name (drop size (drop 16 bytes)) s
        ]

  -- replay as the log service calls it; none stays none.
  unfoldable pub deliver : ℕ → List ℕ → Option SchemaService → Option SchemaService × Ret
  unfolding replay
  deliver handler bytes none = (none, failure)
  deliver handler bytes (some s) = elim (replay bytes s) [
    | none ↦ (none, failure)
    | some (s', ret) ↦ (some s', ret)
  ]

  -- The callback for the entries of the storage log.
  unfoldable pub slog_callback : SchemaService → LogEntry → SchemaService
  slog_callback s e =
      if e.log_type == slog_create_database
      then (Operator.create_database database_order table_order (c_string e.payload) s).0
      else s

  -- What follows the replay of the log: none is undefined behaviour, or no end.
  unfoldable pub recover_slog : Replay (Option SchemaService) → DdlService → Option DdlService
  unfolding slog_callback
  recover_slog (returned success (some s)) d = elim (Slog.replay slog_callback s d.slog) [
    | none ↦ none
    | some (s', recovered) ↦ some (record d { schema = s' })
  ]
  recover_slog (returned failure (some s)) d = some (record d { schema = s })
  recover_slog (returned ret none) d = none
  recover_slog (overrun s) d = none
  recover_slog stuck d = none

  -- `h` is the handler of the log stream, if it is open.
  unfoldable pub recover_schema :
      ℕ → Os → List ℕ → Option LogHandler → DdlService → Option DdlService
  unfolding recover_slog deliver
  recover_schema fuel os read_buf h d =
      if not d.is_inited
      then some d
      else recover_slog (replay_ls deliver fuel os read_buf h (some d.schema)) d
