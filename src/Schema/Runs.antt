-- ===== src/Schema/Runs.antt =====
-- The schemas on concrete inputs.
use lsm_storage.Prelude.{
  ℕ, ◌≡◌, ◌≢◌, refl, none, some, List, [], ◌∷◌, length, success, arith, ◌==◌, if◌then◌else◌,
}
use lsm_storage.Schema.{
  ColumnSchema, new_column, TableSchema, new_table, get_serialize_size, serialize_table,
  deserialize_table, DatabaseSchema, new_database, SchemaService, new_service, named_database,
  create_database, get_database_by_id, serialize_database, replay_ddl,
}
use lsm_storage.Schema.Codec.{IsColumn}
use lsm_storage.Schema.Tables
use lsm_storage.Schema.Tables.{
  IsTable, deserialize-serialize_table, serialize_table-get_serialize_size,
}
use lsm_storage.Schema.Ids.{
  Call, call_create_database, call_drop_database, run, create_database-run,
  create_database-replay_ddl,
}

abbrev column : ColumnSchema
column = record new_column { column_id = 16; data_type = 3; data_length = 8 }

column-IsColumn : IsColumn column
column-IsColumn = record {
  id_fits = omega arith;
  name_fits = refl;
  type_fits = omega arith;
  padding_fits = omega arith;
  length_fits = omega arith;
}

abbrev table : TableSchema
table = record new_table { table_id = 4; database_id = 1; column_count = 1; columns = column ∷ [] }

table-IsTable : IsTable table
table-IsTable = record {
  id_fits = omega arith;
  name_fits = refl;
  database_fits = omega arith;
  version_fits = omega arith;
  counted = refl;
  few = omega arith;
  all_columns = Tables.one_more column-IsColumn Tables.no_column;
}

deserialize-serialize_table_example :
    (bytes : List ℕ) × (serialize_table 400 table ≡ some (bytes, success))
    × (deserialize_table (length bytes) bytes new_table ≡ some (table, success))
deserialize-serialize_table_example =
    deserialize-serialize_table table table-IsTable 400 new_table (omega arith)

serialize_table-get_serialize_size_example :
    serialize_table (get_serialize_size table) table ≢ some ([], success)
serialize_table-get_serialize_size_example = serialize_table-get_serialize_size table []

abbrev calls : List Call
calls =
    call_create_database (97 ∷ [])
    ∷ call_create_database (98 ∷ [])
    ∷ call_drop_database (97 ∷ [])
    ∷ []

abbrev reached : SchemaService
reached = run (λ l. l) (λ l. l) calls new_service

create_database-run_example :
    (get_database_by_id reached.next_database_id reached ≡ none)
    × (get_database_by_id 3 (create_database (99 ∷ []) reached).0 ≡ (
        if (create_database (99 ∷ []) reached).1 == 3
        then some (named_database (create_database (99 ∷ []) reached).1 (99 ∷ []))
        else get_database_by_id 3 reached))
create_database-run_example = create_database-run (λ l. l) (λ l. l) calls (99 ∷ []) 3 (omega arith)

abbrev recovered : DatabaseSchema
recovered = record new_database { database_id = 1 }

create_database-replay_ddl_example :
    (bytes : List ℕ) × (s' : SchemaService) × (serialize_database 136 recovered ≡ some bytes)
    × (replay_ddl (0 ∷ bytes) new_service ≡ some (s', success))
    × (get_database_by_id 1 s' ≡ some recovered)
    × ((create_database (99 ∷ []) s').1 ≡ 1)
    × (get_database_by_id 1 (create_database (99 ∷ []) s').0 ≡ some (named_database 1 (99 ∷ [])))
create_database-replay_ddl_example =
    create_database-replay_ddl new_service recovered (99 ∷ []) refl (omega arith) refl
