-- ===== src/Ddl/Service/Recovery.antt =====
-- The schema that the replay of the log rebuilds.
use lsm_storage.Prelude.{
  ℕ, ◌%◌, ◌+◌, ◌-◌, ◌^◌, ◌≤◌, ◌<◌, ◌≡◌, refl, ap, sym, ◌∙◌, inl, inr, false, some, List, [], ◌∷◌,
  ◌++◌, map, length, take, drop, to_le, from_le, ltb, ◌==◌, success, zeros, arith, Option-cases,
  length-append, length-to_le, take-to_le, drop-to_le, from_le-to_le, drop-append, take-append,
  append-nil,
}
use lsm_storage.Prelude.Assoc.{insert}
use lsm_storage.Prelude.Buffer.{drop-drop}
use lsm_storage.Schema.{
  TableSchema, DatabaseSchema, SchemaService, c_string, set_name, new_table, numbered_table,
  get_database_by_name,
}
use lsm_storage.Schema
use lsm_storage.Schema.Names.{IsText, c_string-IsText, c_string-append, c_string-zeros}
use lsm_storage.Ddl.Operator
use lsm_storage.Ddl.Service.{database_record, table_record, copied_name, apply_record, replay}

copied_name-text :
    (name rest : List ℕ)
    → IsText name
    → length name < 256
    → copied_name (length name) (name ++ rest) ≡ some name
unfolding copied_name
copied_name-text name rest text short = ground (
  arith,
  length-append name rest,
  take-append name rest,
  c_string-append name (zeros (256 - length name)) text (c_string-zeros (256 - length name)),
)

-- What the log keeps of a table: its name and its database.
unfoldable pub bare : TableSchema → TableSchema
bare t = record new_table {
  table_id = t.table_id;
  table_name = set_name (c_string t.table_name) (zeros 128);
  database_id = t.database_id;
  schema_version = t.schema_version;
}

abbrev bare_entry : ℕ × TableSchema → ℕ × TableSchema
bare_entry (id, t) = (id, bare t)

-- A schema without the columns of its tables.
unfoldable pub bare_schema : SchemaService → SchemaService
bare_schema s = record s { tables = map bare_entry s.tables }

map-insert :
    (id : ℕ) (t : TableSchema) (tables : List (ℕ × TableSchema))
    → map bare_entry (insert id t tables) ≡ insert id (bare t) (map bare_entry tables)
unfolding insert
map-insert id t [] = refl
map-insert id t ((other, u) ∷ tables) = ground (arith, map-insert id t tables)

create_table-bare :
    (t : TableSchema) (s : SchemaService)
    → (Operator.create_table
        (record (Schema.set_table_name (c_string t.table_name) new_table) {
          database_id = t.database_id;
        })
        (bare_schema s)).0
      ≡ bare_schema (Operator.create_table t s).0
unfolding bare_schema Operator.create_table Schema.create_table bare Schema.set_table_name
create_table-bare t s =
    ap
      (λ (ts : List (ℕ × TableSchema)). record s {
        next_table_id = (s.next_table_id + 1) % 2 ^ 64;
        tables = ts;
      })
      (sym (map-insert s.next_table_id (numbered_table s.next_table_id t) s.tables))

module _ (database_order : List (ℕ × DatabaseSchema) → List (ℕ × DatabaseSchema))
    (table_order : List (ℕ × TableSchema) → List (ℕ × TableSchema)) where
  pub create_database-bare :
      (name : List ℕ) (s : SchemaService)
      → (Operator.create_database database_order table_order name (bare_schema s)).0
        ≡ bare_schema (Operator.create_database database_order table_order name s).0
  unfolding bare_schema Operator.create_database get_database_by_name Schema.create_database
  create_database-bare name s =
      elim (Option-cases (Schema.find_database name (database_order s.databases))) [
        | inl free ↦ rw (Operator.create_database, get_database_by_name, free) refl
        | inr (d, taken) ↦ rw (Operator.create_database, get_database_by_name, taken) refl
      ]

  -- A record whose parts fit is taken apart.
  replay-record :
      (kind : ℕ) (name rest : List ℕ) (s : SchemaService)
      → kind < 2 ^ 64
      → IsText name
      → length name < 256
      → replay database_order table_order
          (to_le 8 kind ++ (to_le 8 (length name) ++ (name ++ rest)))
          s
        ≡ apply_record database_order table_order kind name rest s
  unfolding replay
  replay-record kind name rest s known text short =
      let tail = to_le 8 (length name) ++ (name ++ rest) in
      let total : 16 ≤ length (to_le 8 kind ++ tail) = omega (
        arith,
        length-append (to_le 8 kind) tail,
        length-append (to_le 8 (length name)) (name ++ rest),
        length-to_le 8 kind,
        length-to_le 8 (length name),
      ) in
      let some_bytes : (length (to_le 8 kind ++ tail) == 0) ≡ false = ground arith in
      let enough : ltb (length (to_le 8 kind ++ tail)) 16 ≡ false = ground arith in
      let front : from_le (take 8 (to_le 8 kind ++ tail)) ≡ kind =
        ap from_le (take-to_le 8 kind tail) ∙ from_le-to_le 8 kind known in
      let behind : drop 8 (to_le 8 kind ++ tail) ≡ tail = drop-to_le 8 kind tail in
      let size : from_le (take 8 tail) ≡ length name =
        ap from_le (take-to_le 8 (length name) (name ++ rest))
        ∙ from_le-to_le 8 (length name) (omega arith) in
      let body : drop 16 (to_le 8 kind ++ tail) ≡ name ++ rest =
        sym (drop-drop 8 8 (to_le 8 kind ++ tail))
        ∙ ap (drop 8) behind
        ∙ drop-to_le 8 (length name) (name ++ rest) in
      rw
        (
          replay,
          some_bytes,
          enough,
          body,
          behind,
          size,
          copied_name-text name rest text short,
          front,
          body,
          behind,
          size,
          drop-append name rest,
        )
        refl

  pub replay-database_record :
      (name : List ℕ) (s : SchemaService)
      → IsText name
      → length name < 256
      → replay database_order table_order (database_record name) s
        ≡ some ((Operator.create_database database_order table_order name s).0, success)
  unfolding database_record apply_record
  replay-database_record name s text short =
      ap
        (λ (bytes : List ℕ).
          replay database_order table_order (to_le 8 1 ++ (to_le 8 (length name) ++ bytes)) s)
        (sym (append-nil name))
      ∙ replay-record 1 name [] s (omega arith) text short

  apply_record-table :
      (t : TableSchema) (s : SchemaService)
      → t.database_id < 2 ^ 64
      → apply_record database_order table_order 3
          (c_string t.table_name)
          (to_le 8 t.database_id)
          (bare_schema s)
        ≡ some (bare_schema (Operator.create_table t s).0, success)
  unfolding apply_record
  apply_record-table t s small =
      let id : from_le (take 8 (to_le 8 t.database_id)) ≡ t.database_id =
        ap (λ (bytes : List ℕ). from_le (take 8 bytes)) (sym (append-nil (to_le 8 t.database_id)))
        ∙ ap from_le (take-to_le 8 t.database_id [])
        ∙ from_le-to_le 8 t.database_id small in
      let present : ltb (length (to_le 8 t.database_id)) 8 ≡ false =
        ground (arith, length-to_le 8 t.database_id) in
      rw (apply_record, present, id, create_table-bare t s) refl

  pub replay-table_record :
      (t : TableSchema) (s : SchemaService)
      → length (c_string t.table_name) < 256
      → t.database_id < 2 ^ 64
      → replay database_order table_order (table_record t) (bare_schema s)
        ≡ some (bare_schema (Operator.create_table t s).0, success)
  unfolding table_record
  replay-table_record t s short small =
      replay-record 3 (c_string t.table_name) (to_le 8 t.database_id) (bare_schema s) (omega arith)
        (c_string-IsText t.table_name) short
      ∙ apply_record-table t s small
