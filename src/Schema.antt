-- ===== src/Schema.antt =====
-- src/share/schema/ob_schema_service.h and ob_schema_service.cpp, with the schemas of
-- ob_column_schema.h, ob_table_schema.h and ob_database_schema.h. A call of serialize or
-- deserialize is given the bytes at buf + pos, and `room` is what buf_len - pos or data_len - pos
-- is; an integer is its bit pattern, and a char array the list of its bytes.
pub mod Codec
pub mod Tables
pub mod Ids
pub mod Names
mod Runs
use lsm_storage.Prelude.{
  ℕ, zero, suc, ◌+◌, ◌-◌, ◌*◌, ◌^◌, Bool, true, false, ◌&&◌, not, Option, none, some, List, [], ◌∷◌,
  ◌++◌, length, take, drop, to_le, from_le, ltb, leb, ◌==◌, if◌then◌else◌, Ret, success, failure,
  zeros, get_elem?, map, ◌%◌,
}
use lsm_storage.Prelude.Assoc.{lookup, insert, erase}

abbrev pub name_size : ℕ
name_size = 128

-- strncpy of at most 127 bytes: zeros fill what the name leaves, and the last byte stays.
unfoldable pub set_name : List ℕ → List ℕ → List ℕ
set_name name old = take 127 name ++ (zeros (127 - length name) ++ drop 127 old)

-- The bytes in front of the first zero.
unfoldable pub c_string : List ℕ → List ℕ
c_string [] = []
c_string (b ∷ bytes) = let rest = c_string bytes in if b == 0 then [] else b ∷ rest

unfoldable pub same_string : List ℕ → List ℕ → Bool
same_string [] [] = true
same_string [] (b ∷ ys) = false
same_string (a ∷ xs) [] = false
same_string (a ∷ xs) (b ∷ ys) = (a == b) && same_string xs ys

-- ObColumnSchemaV2; `padding` is the four bytes behind data_type_, which memcpy carries along.
pub record ColumnSchema : Type 0 where
  pub column_id : ℕ
  pub column_name : List ℕ
  pub data_type : ℕ
  pub padding : ℕ
  pub data_length : ℕ

-- ObColumnSchemaV2() and reset()
abbrev pub new_column : ColumnSchema
new_column = record {
  column_id = 0;
  column_name = zeros 128;
  data_type = 0;
  padding = 0;
  data_length = 0;
}

unfoldable pub set_column_name : List ℕ → ColumnSchema → ColumnSchema
set_column_name name c = record c { column_name = set_name name c.column_name }

-- sizeof(ObColumnSchemaV2)
abbrev pub column_size : ℕ
column_size = 152

unfoldable pub column_bytes : ColumnSchema → List ℕ
column_bytes c =
    to_le 8 c.column_id
    ++ (c.column_name ++ (to_le 4 c.data_type ++ (to_le 4 c.padding ++ to_le 8 c.data_length)))

-- The bytes that are stored; none is -1.
unfoldable pub serialize_column : ℕ → ColumnSchema → Option (List ℕ)
serialize_column room c = if ltb room column_size then none else some (column_bytes c)

unfoldable pub column_of : List ℕ → ColumnSchema
column_of bytes = record {
  column_id = from_le (take 8 bytes);
  column_name = take name_size (drop 8 bytes);
  data_type = from_le (take 4 (drop 136 bytes));
  padding = from_le (take 4 (drop 140 bytes));
  data_length = from_le (take 8 (drop 144 bytes));
}

unfoldable pub deserialize_column : ℕ → List ℕ → Option ColumnSchema
deserialize_column room bytes = if ltb room column_size then none else some (column_of bytes)

pub record TableSchema : Type 0 where
  pub table_id : ℕ
  pub table_name : List ℕ
  pub database_id : ℕ
  pub schema_version : ℕ
  pub column_count : ℕ
  pub columns : List ColumnSchema

-- ObTableSchema()
abbrev pub new_table : TableSchema
new_table = record {
  table_id = 0;
  table_name = zeros 128;
  database_id = 0;
  schema_version = 0;
  column_count = 0;
  columns = [];
}

-- The name loses its first byte only.
unfoldable pub reset_table : TableSchema → TableSchema
reset_table t = record new_table { table_name = 0 ∷ drop 1 t.table_name }

unfoldable pub set_table_name : List ℕ → TableSchema → TableSchema
set_table_name name t = record t { table_name = set_name name t.table_name }

unfoldable pub add_column : ColumnSchema → TableSchema → TableSchema
add_column c t = record t {
  columns = t.columns ++ c ∷ [];
  column_count = length (t.columns ++ c ∷ []);
}

unfoldable pub get_column : ℕ → TableSchema → Option ColumnSchema
get_column idx t = if leb t.column_count idx then none else get_elem? t.columns idx

-- 5 * sizeof(int64_t) and the columns
unfoldable pub get_serialize_size : TableSchema → ℕ
get_serialize_size t = 40 + column_size * length t.columns

-- What serialize stores in front of the columns: the name has 128 bytes.
unfoldable pub table_header : TableSchema → List ℕ
table_header t =
    to_le 8 t.table_id
    ++ (t.table_name
        ++ (to_le 8 t.database_id ++ (to_le 8 t.schema_version ++ to_le 8 t.column_count)))

abbrev pub header_size : ℕ
header_size = 160

-- The loop: the columns that fit, and whether all did.
unfoldable pub serialize_columns : ℕ → List ColumnSchema → List ℕ × Ret
serialize_columns room [] = ([], success)
serialize_columns room (c ∷ columns) = elim (serialize_column room c) [
  | none ↦ ([], failure)
  | some bytes ↦
      let (rest, ret) = serialize_columns (room - column_size) columns in (bytes ++ rest, ret)
]

-- What is stored in a buffer with `room` left, for a schema whose column_count_ is the number of
-- its columns; none where bytes are stored behind the buffer.
unfoldable pub serialize_table : ℕ → TableSchema → Option (List ℕ × Ret)
serialize_table room t =
    if ltb room (get_serialize_size t)
    then some ([], failure)
    else if ltb room header_size
    then none
    else (let (rest, ret) = serialize_columns (room - header_size) t.columns in
        some (table_header t ++ rest, ret))

-- The loop over the columns: it stops at the first that is not there.
unfoldable pub deserialize_columns : ℕ → ℕ → List ℕ → List ColumnSchema × Ret
deserialize_columns zero room bytes = ([], success)
deserialize_columns (suc count) room bytes = elim (deserialize_column room bytes) [
  | none ↦ ([], failure)
  | some c ↦
      let (columns, ret) =
        deserialize_columns count (room - column_size) (drop column_size bytes) in
      (c ∷ columns, ret)
]

-- A negative int64 counts as no column.
abbrev pub as_count : ℕ → ℕ
as_count n = if ltb n (2 ^ 63) then n else 0

abbrev pub with_columns : List ℕ → List ColumnSchema × Ret → TableSchema × Ret
with_columns bytes (columns, ret) = (
  record {
    table_id = from_le (take 8 bytes);
    table_name = take name_size (drop 8 bytes);
    database_id = from_le (take 8 (drop 136 bytes));
    schema_version = from_le (take 8 (drop 144 bytes));
    column_count = from_le (take 8 (drop 152 bytes));
    columns = columns;
  },
  ret,
)

-- none where it reads behind the data.
unfoldable pub deserialize_table : ℕ → List ℕ → TableSchema → Option (TableSchema × Ret)
deserialize_table room bytes t =
    if ltb room 40
    then some (t, failure)
    else if ltb room header_size
    then none
    else some (
        with_columns bytes (
          deserialize_columns (as_count (from_le (take 8 (drop 152 bytes)))) (room - header_size)
            (drop header_size bytes)))

pub record DatabaseSchema : Type 0 where
  pub database_id : ℕ
  pub database_name : List ℕ

-- ObDatabaseSchema() and reset()
abbrev pub new_database : DatabaseSchema
new_database = record { database_id = 0; database_name = zeros 128 }

-- sizeof(ObDatabaseSchema)
abbrev pub database_size : ℕ
database_size = 136

unfoldable pub set_database_name : List ℕ → DatabaseSchema → DatabaseSchema
set_database_name name d = record d { database_name = set_name name d.database_name }

unfoldable pub serialize_database : ℕ → DatabaseSchema → Option (List ℕ)
serialize_database room d =
    if ltb room database_size then none else some (to_le 8 d.database_id ++ d.database_name)

unfoldable pub deserialize_database : ℕ → List ℕ → Option DatabaseSchema
deserialize_database room bytes =
    if ltb room database_size
    then none
    else some (record {
      database_id = from_le (take 8 bytes);
      database_name = take name_size (drop 8 bytes);
    })

-- ObSchemaService. A call holds the mutex, so that it is one step.
pub record SchemaService : Type 0 where
  pub next_database_id : ℕ
  pub next_table_id : ℕ
  pub databases : List (ℕ × DatabaseSchema)
  pub tables : List (ℕ × TableSchema)

abbrev pub new_service : SchemaService
new_service = record { next_database_id = 1; next_table_id = 1; databases = []; tables = [] }

abbrev pub named_database : ℕ → List ℕ → DatabaseSchema
named_database id name = set_database_name name (record new_database { database_id = id })

-- The service and the id.
unfoldable pub create_database : List ℕ → SchemaService → SchemaService × ℕ
create_database name s = (
  record s {
    next_database_id = (s.next_database_id + 1) % 2 ^ 64;
    databases = insert s.next_database_id (named_database s.next_database_id name) s.databases;
  },
  s.next_database_id,
)

abbrev pub numbered_table : ℕ → TableSchema → TableSchema
numbered_table id t = record t { table_id = id; schema_version = 1 }

-- The service, the schema with its number, and the number as an int.
unfoldable pub create_table : TableSchema → SchemaService → SchemaService × TableSchema × ℕ
create_table t s = (
  record s {
    next_table_id = (s.next_table_id + 1) % 2 ^ 64;
    tables = insert s.next_table_id (numbered_table s.next_table_id t) s.tables;
  },
  numbered_table s.next_table_id t,
  s.next_table_id % 2 ^ 32,
)

unfoldable pub get_database_by_id : ℕ → SchemaService → Option DatabaseSchema
get_database_by_id id s = lookup id s.databases

unfoldable pub find_database : List ℕ → List (ℕ × DatabaseSchema) → Option (ℕ × DatabaseSchema)
find_database name [] = none
find_database name ((id, d) ∷ rest) =
    let later = find_database name rest in
    if same_string (c_string d.database_name) name then some (id, d) else later

unfoldable pub find_table : List ℕ → List (ℕ × TableSchema) → Option (ℕ × TableSchema)
find_table name [] = none
find_table name ((id, t) ∷ rest) =
    let later = find_table name rest in
    if same_string (c_string t.table_name) name then some (id, t) else later

unfoldable pub tables_of : ℕ → List (ℕ × TableSchema) → List (List ℕ)
tables_of database_id [] = []
tables_of database_id ((id, t) ∷ rest) =
    let later = tables_of database_id rest in
    if t.database_id == database_id then c_string t.table_name ∷ later else later

-- The orders in which the iterators of the two unordered maps go over the entries.
module _ (database_order : List (ℕ × DatabaseSchema) → List (ℕ × DatabaseSchema))
    (table_order : List (ℕ × TableSchema) → List (ℕ × TableSchema)) where
  unfoldable pub drop_database : List ℕ → SchemaService → SchemaService × Ret
  drop_database name s = elim (find_database name (database_order s.databases)) [
    | none ↦ (s, failure)
    | some (id, d) ↦ (record s { databases = erase id s.databases }, success)
  ]

  unfoldable pub get_database_by_name : List ℕ → SchemaService → Option DatabaseSchema
  get_database_by_name name s = elim (find_database name (database_order s.databases)) [
    | none ↦ none
    | some (id, d) ↦ some d
  ]

  -- The database's id is not read.
  unfoldable pub drop_table : List ℕ → SchemaService → SchemaService × Ret
  drop_table name s = elim (find_table name (table_order s.tables)) [
    | none ↦ (s, failure)
    | some (id, t) ↦ (record s { tables = erase id s.tables }, success)
  ]

  unfoldable pub get_table_by_name : List ℕ → SchemaService → Option TableSchema
  get_table_by_name name s = elim (find_table name (table_order s.tables)) [
    | none ↦ none
    | some (id, t) ↦ some t
  ]

  unfoldable pub get_all_databases : SchemaService → List (List ℕ)
  get_all_databases s = map (λ e. c_string (e.1).database_name) (database_order s.databases)

  unfoldable pub get_all_tables : ℕ → SchemaService → List (List ℕ)
  unfolding tables_of
  get_all_tables database_id s = tables_of database_id (table_order s.tables)

-- What the record changes, none where it reads behind the buffer.
unfoldable pub replay_ddl : List ℕ → SchemaService → Option (SchemaService × Ret)
replay_ddl [] s = some (s, failure)
replay_ddl (kind ∷ bytes) s =
    if kind == 0
    then elim (deserialize_database (length bytes) bytes) [
      | none ↦ some (s, failure)
      | some d ↦ some (record s { databases = insert d.database_id d s.databases }, success)
    ]
    else if kind == 1
    then elim (deserialize_table (length bytes) bytes new_table) [
      | none ↦ none
      | some (t, failure) ↦ some (s, failure)
      | some (t, success) ↦ some (record s { tables = insert t.table_id t s.tables }, success)
    ]
    else some (s, success)
