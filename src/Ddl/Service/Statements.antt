-- ===== src/Ddl/Service/Statements.antt =====
-- Series of DDL statements, and the replay of what they logged.
use lsm_storage.Prelude.{
  ℕ, ◌^◌, ◌<◌, ◌≡◌, refl, ap, ◌∙◌, inl, inr, true, Option, none, some, List, [], ◌∷◌, length,
  success, failure, arith, Ret-cases, subst,
}
use lsm_storage.Schema.{TableSchema, DatabaseSchema, SchemaService, c_string}
use lsm_storage.Schema.Names.{IsText}
use lsm_storage.Memtable.Table.{LogSink}
use lsm_storage.Ddl.Operator
use lsm_storage.Ddl.Service.{
  DdlService, Files, database_record, table_record, create_database, create_table, finish_database,
  replay,
}
use lsm_storage.Ddl.Service.Recovery.{
  bare_schema, create_database-bare, replay-database_record, replay-table_record,
}

-- A DDL statement, with what the files of the system do under it.
pub data Statement : Type 0 where
  database_statement : Files → List ℕ → Statement
  table_statement : TableSchema → Statement

unfoldable pub record_of : Statement → List ℕ
record_of (database_statement files name) = database_record name
record_of (table_statement t) = table_record t

-- The name is a C string that replay's array holds, and the id of a database is a uint64.
abbrev pub IsRecordable : Statement → Type 0
IsRecordable (database_statement files name) = IsText name × (length name < 256)
IsRecordable (table_statement t) = (length (c_string t.table_name) < 256) × (t.database_id < 2 ^ 64)

abbrev pub AllRecordable : List Statement → Type 0
AllRecordable [] = Unit {0}
AllRecordable (st ∷ sts) = IsRecordable st × AllRecordable sts

pub record IsOpen (d : DdlService) : Type 0 where
  pub ready : d.is_inited ≡ true
  pub connected : d.log_handler ≡ true

module _ (database_order : List (ℕ × DatabaseSchema) → List (ℕ × DatabaseSchema))
    (table_order : List (ℕ × TableSchema) → List (ℕ × TableSchema)) where
  -- The records replayed in order; none where a replay is undefined behaviour.
  abbrev pub replay_all : List (List ℕ) → SchemaService → Option SchemaService
  replay_all [] s = some s
  replay_all (bytes ∷ records) s = elim (replay database_order table_order bytes s) [
    | none ↦ none
    | some (s', ret) ↦ replay_all records s'
  ]

  -- What a statement does to the schema once it is logged.
  abbrev pub effect : Statement → SchemaService → SchemaService
  effect (database_statement files name) s =
      (Operator.create_database database_order table_order name s).0
  effect (table_statement t) s = (Operator.create_table t s).0

  replay-effect :
      (st : Statement) (s : SchemaService)
      → IsRecordable st
      → replay database_order table_order (record_of st) (bare_schema s)
        ≡ some (bare_schema (effect st s), success)
  unfolding record_of
  replay-effect (database_statement files name) s (text, short) =
      replay-database_record database_order table_order name (bare_schema s) text short
      ∙ ap (λ r. some (r, success)) (create_database-bare database_order table_order name s)
  replay-effect (table_statement t) s (short, small) =
      replay-table_record database_order table_order t s short small

  finish_database_parts :
      (files : Files) (name : List ℕ) (d : DdlService)
      → ((finish_database database_order table_order files name d).0.schema
          ≡ (Operator.create_database database_order table_order name d.schema).0)
        × ((finish_database database_order table_order files name d).0.is_inited ≡ d.is_inited)
        × ((finish_database database_order table_order files name d).0.log_handler ≡ d.log_handler)
  unfolding finish_database
  finish_database_parts files name d = ground arith

  module _ {L : Type 0} (sink : LogSink L) where
    unfoldable pub execute : Statement → DdlService → L → DdlService × L
    execute (database_statement files name) d log =
        let (d', log', made) = create_database database_order table_order sink files name d log in
        (d', log')
    execute (table_statement t) d log =
        let (d', log', t', made) = create_table sink t d log in (d', log')

    unfoldable pub execute_all : List Statement → DdlService → L → DdlService × L
    unfolding execute
    execute_all [] d log = (d, log)
    execute_all (st ∷ sts) d log = let (d', log') = execute st d log in execute_all sts d' log'

    -- The records that the log took, in order.
    unfoldable pub logged : List Statement → DdlService → L → List (List ℕ)
    unfolding execute record_of
    logged [] d log = []
    logged (st ∷ sts) d log =
        let rest = logged sts (execute st d log).0 (execute st d log).1 in
        elim (sink.append log (record_of st)).1 [ success ↦ record_of st ∷ rest | failure ↦ rest ]

    pub execute-IsOpen :
        (st : Statement) (d : DdlService) (log : L) → IsOpen d → IsOpen (execute st d log).0
    unfolding execute create_database create_table
    execute-IsOpen (database_statement files name) d log h =
        ground (arith, finish_database_parts files name d)
    execute-IsOpen (table_statement t) d log h = ground arith

    execute_success :
        (st : Statement) (d : DdlService) (log : L)
        → IsOpen d
        → (sink.append log (record_of st)).1 ≡ success
        → (execute st d log).0.schema ≡ effect st d.schema
    unfolding execute create_database create_table record_of
    execute_success (database_statement files name) d log h e =
        ground (arith, finish_database_parts files name d)
    execute_success (table_statement t) d log h e = ground arith

    execute_failure :
        (st : Statement) (d : DdlService) (log : L)
        → IsOpen d
        → (sink.append log (record_of st)).1 ≡ failure
        → (execute st d log).0 ≡ d
    unfolding execute create_database create_table record_of
    execute_failure (database_statement files name) d log h e = ground arith
    execute_failure (table_statement t) d log h e = ground arith

    pub replay_all-logged :
        (sts : List Statement) (d : DdlService) (log : L)
        → AllRecordable sts
        → IsOpen d
        → replay_all (logged sts d log) (bare_schema d.schema)
          ≡ some (bare_schema (execute_all sts d log).0.schema)
    unfolding logged execute_all
    replay_all-logged [] d log fits h = refl
    replay_all-logged (st ∷ sts) d log (fit, fits) h =
        let (d', log') = execute st d log in
        let later = replay_all-logged sts d' log' fits (execute-IsOpen st d log h) in
        elim (Ret-cases (sink.append log (record_of st)).1) [
          | inl took ↦
              rw (logged, took, replay_all, replay-effect st d.schema fit)
                (subst
                  (λ (k : SchemaService).
                    replay_all (logged sts d' log') (bare_schema k)
                    ≡ some (bare_schema (execute_all sts d' log').0.schema))
                  (execute_success st d log h took) later)
          | inr refused ↦
              rw (logged, refused)
                (subst
                  (λ (k : DdlService).
                    replay_all (logged sts d' log') (bare_schema k.schema)
                    ≡ some (bare_schema (execute_all sts d' log').0.schema))
                  (execute_failure st d log h refused) later)
        ]
