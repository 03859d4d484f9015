-- ===== src/Ddl/Operator.antt =====
-- rootserver/ob_ddl_operator.h and ob_ddl_operator.cpp: ObDDLOperator, over the one schema service.
use lsm_storage.Prelude.{ℕ, ◌^◌, Option, none, some, List, leb, if◌then◌else◌}
use lsm_storage.Schema.{TableSchema, DatabaseSchema, SchemaService, get_database_by_name}
use lsm_storage.Schema

-- The orders in which the schema service goes over its two maps.
module _ (database_order : List (ℕ × DatabaseSchema) → List (ℕ × DatabaseSchema))
    (table_order : List (ℕ × TableSchema) → List (ℕ × TableSchema)) where
  -- The service and the id; none is -1, for a name that is taken.
  unfoldable pub create_database : List ℕ → SchemaService → SchemaService × Option ℕ
  create_database name s = elim (get_database_by_name database_order table_order name s) [
    | some d ↦ (s, none)
    | none ↦ let (s', id) = Schema.create_database name s in (s', some id)
  ]

-- The service, the schema with its number, and the id; none is a number that is negative as an int,
-- which the function returns as its error.
unfoldable pub create_table : TableSchema → SchemaService → SchemaService × TableSchema × Option ℕ
create_table t s =
    let (s', t', ret) = Schema.create_table t s in
    (s', t', if leb (2 ^ 31) ret then none else some ret)
