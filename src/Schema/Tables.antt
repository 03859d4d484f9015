-- ===== src/Schema/Tables.antt =====
-- The bytes of a table schema: what fits is read back, and the size that the schema asks for does
-- not fit it.
use lsm_storage.Prelude.{
  ℕ, ◌+◌, ◌-◌, ◌*◌, ◌^◌, ◌≤◌, ◌<◌, ◌≡◌, ◌≢◌, refl, ap, ◌∙◌, false, none, some, List, [], ◌∷◌, ◌++◌,
  length, take, drop, to_le, from_le, ltb, success, failure, assoc, length-to_le, from_le-to_le,
  arith, Bool-cases, inl, inr,
}
use lsm_storage.Schema.{
  ColumnSchema, column_bytes, serialize_column, deserialize_column, TableSchema, get_serialize_size,
  table_header, serialize_columns, serialize_table, deserialize_columns, as_count, with_columns,
  deserialize_table,
}
use lsm_storage.Schema.Codec.{
  IsColumn, pieces, first, second, third, fourth, fifth, sixth, length-pieces,
  column_of-column_bytes, drop-column_bytes, length-column_bytes,
}

pub data AllColumns : List ColumnSchema → Type 0 where
  no_column : AllColumns []
  one_more :
      {c : ColumnSchema} {cs : List ColumnSchema} → IsColumn c → AllColumns cs → AllColumns (c ∷ cs)

columns_bytes : List ColumnSchema → List ℕ
columns_bytes [] = []
columns_bytes (c ∷ cs) = column_bytes c ++ columns_bytes cs

serialize_columns_lem :
    (room : ℕ) (cs : List ColumnSchema)
    → 152 * length cs ≤ room
    → serialize_columns room cs ≡ (columns_bytes cs, success)
unfolding serialize_columns columns_bytes serialize_column
serialize_columns_lem room [] h = refl
serialize_columns_lem room (c ∷ cs) h =
    let fits : ltb room 152 ≡ false = ground arith in
    rw
      (
        serialize_columns,
        serialize_column,
        fits,
        serialize_columns_lem (room - 152) cs (omega arith),
      )
      refl

deserialize_columns_lem :
    (cs : List ColumnSchema)
    → AllColumns cs
    → deserialize_columns (length cs) (length (columns_bytes cs)) (columns_bytes cs) ≡ (cs, success)
unfolding deserialize_columns columns_bytes deserialize_column
deserialize_columns_lem [] all = refl
deserialize_columns_lem (c ∷ cs) (one_more h all) =
    let size = length-column_bytes c (columns_bytes cs) h in
    let fits : ltb (length (column_bytes c ++ columns_bytes cs)) 152 ≡ false =
      ground (arith, size) in
    let left : length (column_bytes c ++ columns_bytes cs) - 152 ≡ length (columns_bytes cs) =
      omega (arith, size) in
    rw
      (
        deserialize_columns,
        deserialize_column,
        fits,
        column_of-column_bytes c (columns_bytes cs) h,
        left,
        drop-column_bytes c (columns_bytes cs) h,
        deserialize_columns_lem cs all,
      )
      refl

pub record IsTable (t : TableSchema) : Type 0 where
  pub id_fits : t.table_id < 2 ^ 64
  pub name_fits : length t.table_name ≡ 128
  pub database_fits : t.database_id < 2 ^ 64
  pub version_fits : t.schema_version < 2 ^ 64
  pub counted : t.column_count ≡ length t.columns
  pub few : length t.columns < 2 ^ 63
  pub all_columns : AllColumns t.columns

table_pieces : TableSchema → List ℕ → List ℕ
table_pieces t X =
    pieces (to_le 8 t.table_id) t.table_name (to_le 8 t.database_id) (to_le 8 t.schema_version)
      (to_le 8 t.column_count) X

table_header-append : (t : TableSchema) (X : List ℕ) → table_header t ++ X ≡ table_pieces t X
unfolding table_header table_pieces pieces
table_header-append t X =
    rw
      (
        assoc (to_le 8 t.table_id)
            (t.table_name
              ++ (to_le 8 t.database_id ++ (to_le 8 t.schema_version ++ to_le 8 t.column_count)))
            X,
        assoc t.table_name
            (to_le 8 t.database_id ++ (to_le 8 t.schema_version ++ to_le 8 t.column_count)) X,
        assoc (to_le 8 t.database_id) (to_le 8 t.schema_version ++ to_le 8 t.column_count) X,
        assoc (to_le 8 t.schema_version) (to_le 8 t.column_count) X,
      )
      refl

module _ (t : TableSchema) (h : IsTable t) where
  body : List ℕ
  body = columns_bytes t.columns

  count_fits : t.column_count < 2 ^ 64
  count_fits = omega (arith, h.counted, h.few)

  length-table : length (table_header t ++ body) ≡ 160 + length body
  unfolding table_pieces
  length-table =
      ap length (table_header-append t body)
      ∙ length-pieces _ _ _ _ _ body (length-to_le 8 t.table_id) h.name_fits
          (length-to_le 8 t.database_id) (length-to_le 8 t.schema_version)
          (length-to_le 8 t.column_count)
      ∙ omega arith

  with_columns-table : with_columns (table_header t ++ body) (t.columns, success) ≡ (t, success)
  unfolding table_pieces
  with_columns-table =
      let id = length-to_le 8 t.table_id in
      let db = length-to_le 8 t.database_id in
      let ver = length-to_le 8 t.schema_version in
      let num = length-to_le 8 t.column_count in
      ap (λ b. with_columns b (t.columns, success)) (table_header-append t body)
      ∙ rw
          (
            first _ _ _ _ _ body id h.name_fits db ver num,
            second _ _ _ _ _ body id h.name_fits db ver num,
            third _ _ _ _ _ body id h.name_fits db ver num,
            fourth _ _ _ _ _ body id h.name_fits db ver num,
            fifth _ _ _ _ _ body id h.name_fits db ver num,
            from_le-to_le 8 t.table_id h.id_fits,
            from_le-to_le 8 t.database_id h.database_fits,
            from_le-to_le 8 t.schema_version h.version_fits,
            from_le-to_le 8 t.column_count count_fits,
          )
          refl

  drop-table : drop 160 (table_header t ++ body) ≡ body
  unfolding table_pieces
  drop-table =
      ap (drop 160) (table_header-append t body)
      ∙ sixth _ _ _ _ _ body (length-to_le 8 t.table_id) h.name_fits (length-to_le 8 t.database_id)
          (length-to_le 8 t.schema_version) (length-to_le 8 t.column_count)

  count-table : as_count (from_le (take 8 (drop 152 (table_header t ++ body)))) ≡ length t.columns
  unfolding table_pieces
  count-table =
      ap (λ b. as_count (from_le (take 8 (drop 152 b)))) (table_header-append t body)
      ∙ ap (λ b. as_count (from_le b))
          (fifth _ _ _ _ _ body (length-to_le 8 t.table_id) h.name_fits
            (length-to_le 8 t.database_id) (length-to_le 8 t.schema_version)
            (length-to_le 8 t.column_count))
      ∙ ap as_count (from_le-to_le 8 t.column_count count_fits)
      ∙ ground (arith, h.counted, h.few)

  -- A well-formed table schema is stored in a buffer with room for 160 bytes and 152 for each
  -- column, and deserialize makes the same schema out of those bytes, whatever object it is called on.
  pub deserialize-serialize_table :
      (room : ℕ) (old : TableSchema)
      → 160 + 152 * length t.columns ≤ room
      → (bytes : List ℕ) × (serialize_table room t ≡ some (bytes, success))
        × (deserialize_table (length bytes) bytes old ≡ some (t, success))
  unfolding serialize_table deserialize_table get_serialize_size body
  deserialize-serialize_table room old fits =
      let enough : ltb room (40 + 152 * length t.columns) ≡ false = ground arith in
      let inside : ltb room 160 ≡ false = ground arith in
      let some_data : ltb (length (table_header t ++ body)) 40 ≡ false =
        ground (arith, length-table) in
      let header_there : ltb (length (table_header t ++ body)) 160 ≡ false =
        ground (arith, length-table) in
      let left : length (table_header t ++ body) - 160 ≡ length body =
        omega (arith, length-table) in
      (
        table_header t ++ body,
        rw
            (
              serialize_table,
              enough,
              inside,
              serialize_columns_lem (room - 160) t.columns (omega arith),
            )
            refl,
        rw (deserialize_table, some_data, header_there, count-table, left, drop-table)
            (ap (λ r. some (with_columns (table_header t ++ body) r))
                (deserialize_columns_lem t.columns h.all_columns)
              ∙ ap some with_columns-table),
      )

serialize_columns-short :
    (room : ℕ) (cs : List ColumnSchema)
    → room < 152 * length cs
    → (serialize_columns room cs).1 ≡ failure
unfolding serialize_columns serialize_column
serialize_columns-short room [] h = absurd (omega arith)
serialize_columns-short room (c ∷ cs) h = elim (Bool-cases (ltb room 152)) [
  | inl short ↦ rw (serialize_columns, serialize_column, short) refl
  | inr fits ↦
      rw (serialize_columns, serialize_column, fits)
        (serialize_columns-short (room - 152) cs (ground (arith, fits)))
]

-- In a buffer of the size that a table schema itself asks for, serialize never succeeds.
pub serialize_table-get_serialize_size :
    (t : TableSchema) (bytes : List ℕ)
    → serialize_table (get_serialize_size t) t ≢ some (bytes, success)
unfolding serialize_table get_serialize_size
serialize_table-get_serialize_size t bytes done =
    let size = 40 + 152 * length t.columns in
    let enough : ltb size size ≡ false = ground arith in
    elim (Bool-cases (ltb size 160)) [
      | inl outside ↦
          let k : none ≡ some (bytes, success) = (rw (serialize_table, enough, outside) at done) in
          cc
      | inr inside ↦
          let short = serialize_columns-short (size - 160) t.columns (ground (arith, inside)) in
          let k : some (
            table_header t ++ (serialize_columns (size - 160) t.columns).0,
            (serialize_columns (size - 160) t.columns).1,
          )
              ≡ some (bytes, success) =
            (rw (serialize_table, enough, inside) at done) in
          cc
    ]
