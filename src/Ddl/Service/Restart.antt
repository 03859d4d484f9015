-- ===== src/Ddl/Service/Restart.antt =====
-- A restart: both logs replayed after a series of DDL statements.
use lsm_storage.Prelude.{
  ℕ, ◌+◌, ◌^◌, ◌≤◌, ◌<◌, ◌≡◌, refl, ap, ◌∙◌, inl, inr, true, none, some, List, [], ◌∷◌, ◌++◌,
  length, success, arith, Option-cases, Ret-cases,
}
use mathlib.Core.List.{Perm}
use lsm_storage.Schema
use lsm_storage.Schema.{
  new_service, set_database_name, TableSchema, SchemaService, get_database_by_name, DatabaseSchema,
  c_string, same_string, set_name, find_database, named_database,
}
use lsm_storage.Schema.Ids.{Below, empty, insert-Below, weaken-Below, next_lem}
use lsm_storage.Slog.{LogParam, StorageLogger, write_log}
use lsm_storage.Slog.Replay.{length-entry_bytes}
use lsm_storage.Clog.LogService.{returned}
use lsm_storage.Ddl.Operator
use lsm_storage.Ddl.Service.Statements.{
  Statement, database_statement, table_statement, AllRecordable, IsOpen, execute, execute_all,
  execute-IsOpen, logged, replay_all, replay_all-logged,
}
use lsm_storage.Memtable.Table.{LogSink}
use lsm_storage.Ddl.Service.{
  table_record, database_record, create_database, create_table, Files, finish_database, DdlService,
  slog_create_database, recover_slog,
}
use lsm_storage.Schema.Names.{IsText, Finds-insert_self, c_string-set_name, same_string_refl}
use lsm_storage.Ddl.Service.StorageLog.{
  Covered, no_entry, one_entry, Covered-insert, Covered-append, on_file, write_log-on_file,
  recover_slog-same,
}
use lsm_storage.Ddl.Service.Recovery.{bare_schema}

-- A statement whose name fits the array of a schema, and whose entry the system writes completely.
abbrev pub IsShort : Statement → Type 0
IsShort (database_statement files name) =
    IsText name × (length name < 128) × (24 + length name ≤ files.slog_written)
IsShort (table_statement t) = (length (c_string t.table_name) < 256) × (t.database_id < 2 ^ 64)

abbrev pub AllShort : List Statement → Type 0
AllShort [] = Unit {0}
AllShort (st ∷ sts) = IsShort st × AllShort sts

AllShort-recordable : (sts : List Statement) → AllShort sts → AllRecordable sts
AllShort-recordable [] all = tt
AllShort-recordable (database_statement files name ∷ sts) ((text, short, whole), all) =
    ((text, omega arith), AllShort-recordable sts all)
AllShort-recordable (table_statement t ∷ sts) (fits, all) = (fits, AllShort-recordable sts all)

-- The storage log names databases of the schema only, in entries that are complete.
record IsCovered (n : ℕ) (ps : List LogParam) (d : DdlService) : Type 0 where
  few : d.schema.next_database_id ≤ n
  below : Below d.schema.next_database_id d.schema.databases
  on_disk : d.slog ≡ on_file ps
  covered : Covered d.schema.databases ps

module _ (database_order : List (ℕ × DatabaseSchema) → List (ℕ × DatabaseSchema))
    (table_order : List (ℕ × TableSchema) → List (ℕ × TableSchema)) where
  abbrev entry_for : List ℕ → LogParam
  entry_for name = record { tenant_id = 1; log_type = slog_create_database; bytes = name }

  made_taken :
      (name : List ℕ) (s : SchemaService) (e : DatabaseSchema)
      → get_database_by_name database_order table_order name s ≡ some e
      → Operator.create_database database_order table_order name s ≡ (s, none)
  unfolding Operator.create_database
  made_taken name s e taken = rw (Operator.create_database, taken) refl

  made_free :
      (name : List ℕ) (s : SchemaService)
      → get_database_by_name database_order table_order name s ≡ none
      → Operator.create_database database_order table_order name s
        ≡ ((Schema.create_database name s).0, some (Schema.create_database name s).1)
  unfolding Operator.create_database
  made_free name s free = rw (Operator.create_database, free) refl

  -- The entry of a new database names it.
  new_entry :
      (name : List ℕ) (s : SchemaService)
      → IsText name
      → length name < 128
      → Below s.next_database_id s.databases
      → Covered (Schema.create_database name s).0.databases (entry_for name ∷ [])
  unfolding Schema.create_database set_database_name
  new_entry name s text short below =
      one_entry
        (record { tenant_fits = omega arith; type_fits = omega arith; size_fits = omega arith })
        refl text
        (Finds-insert_self s.next_database_id name _ s.databases below (
          ap (λ (bytes : List ℕ). same_string bytes name) (c_string-set_name name text short)
          ∙ same_string_refl name))
        no_entry

  IsCovered-later :
      (n : ℕ) (ps : List LogParam) (d : DdlService) → IsCovered n ps d → IsCovered (n + 1) ps d
  IsCovered-later n ps d h = record {
    few = omega (arith, h.few);
    below = h.below;
    on_disk = h.on_disk;
    covered = h.covered;
  }

  finish_database-IsCovered :
      (files : Files) (name : List ℕ) (n : ℕ) (ps : List LogParam) (d : DdlService)
      → IsShort (database_statement files name)
      → n + 1 < 2 ^ 64
      → IsCovered n ps d
      → (qs : List LogParam) × IsCovered
          (n + 1)
          qs
          (finish_database database_order table_order files name d).0
  unfolding finish_database Schema.create_database
  finish_database-IsCovered files name n ps d (text, short, whole) small h =
      let few = h.few in
      elim (Option-cases (get_database_by_name database_order table_order name d.schema)) [
        | inr (e, taken) ↦ (
          ps,
          rw (finish_database, made_taken name d.schema e taken, made_taken name d.schema e taken)
              (IsCovered-later n ps d h),
        )
        | inl free ↦ (
          ps ++ entry_for name ∷ [],
          rw
              (
                finish_database,
                made_free name d.schema free,
                made_free name d.schema free,
                next_lem d.schema.next_database_id (omega arith),
              )
              (record {
                few = omega arith;
                below = insert-Below _ _ _ _ (omega arith) (weaken-Below _ _ h.below);
                on_disk =
                    ap (λ (l : StorageLogger). (write_log files.slog_written (entry_for name) l).0)
                      h.on_disk
                    ∙ write_log-on_file files.slog_written ps (entry_for name)
                        (omega (arith, length-entry_bytes (entry_for name)));
                covered =
                    Covered-append _ ps (entry_for name) (Covered-insert _ _ _ ps h.below h.covered)
                      (new_entry name d.schema text short h.below);
              }),
        )
      ]

  module _ {L : Type 0} (sink : LogSink L) where
    execute-IsCovered :
        (st : Statement) (n : ℕ) (ps : List LogParam) (d : DdlService) (log : L)
        → IsShort st
        → n + 1 < 2 ^ 64
        → IsOpen d
        → IsCovered n ps d
        → (qs : List LogParam) × IsCovered
            (n + 1)
            qs
            (execute database_order table_order sink st d log).0
    unfolding execute create_database create_table Operator.create_table Schema.create_table
    execute-IsCovered (database_statement files name) n ps d log short small on h =
        elim (Ret-cases (sink.append log (database_record name)).1) [
          | inl took ↦
              rw (create_database, on.ready, on.connected, took)
                (finish_database-IsCovered files name n ps d short small h)
          | inr refused ↦
              (ps, rw (create_database, on.ready, on.connected, refused) (IsCovered-later n ps d h))
        ]
    execute-IsCovered (table_statement t) n ps d log short small on h =
        elim (Ret-cases (sink.append log (table_record t)).1) [
          | inl took ↦ (
            ps,
            rw (create_table, on.ready, on.connected, took)
                (record {
                  few = omega (arith, h.few);
                  below = h.below;
                  on_disk = h.on_disk;
                  covered = h.covered;
                }),
          )
          | inr refused ↦
              (ps, rw (create_table, on.ready, on.connected, refused) (IsCovered-later n ps d h))
        ]

    execute_all-IsCovered :
        (sts : List Statement) (n : ℕ) (ps : List LogParam) (d : DdlService) (log : L)
        → AllShort sts
        → n + length sts < 2 ^ 64
        → IsOpen d
        → IsCovered n ps d
        → (m : ℕ) × (qs : List LogParam) × IsCovered m qs
            (execute_all database_order table_order sink sts d log).0
    unfolding execute_all
    execute_all-IsCovered [] n ps d log all few on h = (n, ps, h)
    execute_all-IsCovered (st ∷ sts) n ps d log (short, all) few on h =
        let (qs, h') = execute-IsCovered st n ps d log short (omega arith) on h in
        execute_all-IsCovered sts (n + 1) qs _ _ all (omega arith)
          (execute-IsOpen database_order table_order sink st d log on) h'

    -- A service that has just been started on empty files, and one that is started again on what the
    -- first left: the records in the log, and the file of the storage log.
    abbrev started : List ℕ → DdlService
    started block_file = record {
      is_inited = true;
      log_handler = true;
      schema = new_service;
      slog = on_file [];
      block_file = block_file;
    }

    -- A restart rebuilds the schema. After fewer than 2^64 - 1 DDL statements on a new service, with
    -- names of fewer than 128 bytes, ids of databases that are uint64 and complete writes to the storage log, whichever of the statements
    -- the log refuses and however the schema service orders its databases: the replay of the records
    -- that the log took, on a new schema service, gives the schema of the first service but for the
    -- columns of its tables, and the replay of the storage log then changes nothing.
    pub recover_slog-execute_all :
        (visits : (databases : List (ℕ × DatabaseSchema))
          → Perm databases (database_order databases))
        (sts : List Statement) (block_file : List ℕ) (log : L) (d : DdlService)
        → AllShort sts
        → length sts + 1 < 2 ^ 64
        → d.slog.file
          ≡ (execute_all database_order table_order sink sts (started block_file) log).0.slog.file
        → (s : SchemaService) × (replay_all database_order table_order
              (logged database_order table_order sink sts (started block_file) log)
              new_service
            ≡ some s)
          × (s
              ≡ bare_schema
                  (execute_all database_order table_order sink sts
                    (started block_file)
                    log).0.schema)
          × (recover_slog database_order table_order (returned success (some s)) d
              ≡ some (record d { schema = s }))
    unfolding bare_schema
    recover_slog-execute_all visits sts block_file log d all few same =
        let open_ : IsOpen (started block_file) = record { ready = refl; connected = refl } in
        let (_, ps, covered) =
          execute_all-IsCovered sts 1 [] (started block_file) log all (omega arith) open_
            (record { few = omega arith; below = empty; on_disk = refl; covered = no_entry }) in
        (
          _,
          replay_all-logged database_order table_order sink sts (started block_file) log
              (AllShort-recordable sts all) open_,
          refl,
          recover_slog-same database_order table_order visits ps _ d covered.covered
              (same ∙ ap (λ (l : StorageLogger). l.file) covered.on_disk),
        )
