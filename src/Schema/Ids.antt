-- ===== src/Schema/Ids.antt =====
-- The ids of databases and tables: create never gives one twice, unless a replay came first.
use lsm_storage.Prelude.{
  ℕ, ◌+◌, ◌^◌, ◌%◌, ◌<◌, ◌≤◌, ◌≡◌, refl, ap, sym, ◌∙◌, false, none, some, List, [], ◌∷◌, ◌++◌,
  length, take, to_le, ltb, ◌==◌, if◌then◌else◌, success, Bool-cases, inl, inr, arith, Option-cases,
  take-to_le, drop-to_le, from_le-to_le, length-to_le, length-append, take_all, subst,
}
use lsm_storage.Prelude.Assoc.{lookup, insert, erase, lookup-insert}
use lsm_storage.Schema.{
  TableSchema, DatabaseSchema, SchemaService, new_service, named_database, create_database,
  create_table, get_database_by_id, find_database, find_table, drop_database, drop_table,
  serialize_database, deserialize_database, replay_ddl,
}

-- Every id is below `n`.
pub data Below {A : Type 0} (n : ℕ) : List (ℕ × A) → Type 0 where
  empty : Below n []
  more : {id : ℕ} {x : A} {rest : List (ℕ × A)} → id < n → Below n rest → Below n ((id, x) ∷ rest)

module _ {A : Type 0} where
  pub insert-Below :
      (n id : ℕ) (x : A) (entries : List (ℕ × A))
      → id < n
      → Below n entries
      → Below n (insert id x entries)
  unfolding insert
  insert-Below n id x [] small below = more small empty
  insert-Below n id x ((other, y) ∷ rest) small (more h below) = elim (Bool-cases (ltb id other)) [
    | inl before ↦ rw (insert, before) (more small (more h below))
    | inr after ↦ elim (Bool-cases (other == id)) [
      | inl hit ↦ rw (insert, after, hit) (more small below)
      | inr miss ↦ rw (insert, after, miss) (more h (insert-Below n id x rest small below))
    ]
  ]

  erase-Below : (n id : ℕ) (entries : List (ℕ × A)) → Below n entries → Below n (erase id entries)
  unfolding erase
  erase-Below n id [] below = below
  erase-Below n id ((other, y) ∷ rest) (more h below) = elim (Bool-cases (other == id)) [
    | inl hit ↦ rw (erase, hit) below
    | inr miss ↦ rw (erase, miss) (more h (erase-Below n id rest below))
  ]

  pub weaken-Below : (n : ℕ) (entries : List (ℕ × A)) → Below n entries → Below (n + 1) entries
  weaken-Below n [] below = empty
  weaken-Below n ((id, x) ∷ rest) (more h below) = more (omega arith) (weaken-Below n rest below)

  lookup-Below : (n : ℕ) (entries : List (ℕ × A)) → Below n entries → lookup n entries ≡ none
  unfolding lookup
  lookup-Below n [] below = refl
  lookup-Below n ((id, x) ∷ rest) (more h below) = ground (arith, lookup-Below n rest below)

-- The counters are at most `n`, and every id in use is below its counter.
record IsFresh (n : ℕ) (s : SchemaService) : Type 0 where
  databases_few : s.next_database_id ≤ n
  tables_few : s.next_table_id ≤ n
  databases_below : Below s.next_database_id s.databases
  tables_below : Below s.next_table_id s.tables

-- A counter that has not come to its end moves on without a wrap.
pub next_lem : (n : ℕ) → n + 1 < 2 ^ 64 → (n + 1) % 2 ^ 64 ≡ n + 1
next_lem n h = omega arith

IsFresh-later : (n : ℕ) (s : SchemaService) → IsFresh n s → IsFresh (n + 1) s
IsFresh-later n s h = record {
  databases_few = omega (arith, h.databases_few);
  tables_few = omega (arith, h.tables_few);
  databases_below = h.databases_below;
  tables_below = h.tables_below;
}

-- The calls that change the service, but for the replay.
pub data Call : Type 0 where
  call_create_database : List ℕ → Call
  call_drop_database : List ℕ → Call
  call_create_table : TableSchema → Call
  call_drop_table : List ℕ → Call

module _ (database_order : List (ℕ × DatabaseSchema) → List (ℕ × DatabaseSchema))
    (table_order : List (ℕ × TableSchema) → List (ℕ × TableSchema)) where
  unfoldable pub step : Call → SchemaService → SchemaService
  step (call_create_database name) s = (create_database name s).0
  step (call_drop_database name) s = (drop_database database_order table_order name s).0
  step (call_create_table t) s = (create_table t s).0
  step (call_drop_table name) s = (drop_table database_order table_order name s).0

  unfoldable pub run : List Call → SchemaService → SchemaService
  unfolding step
  run [] s = s
  run (call ∷ calls) s = run calls (step call s)

  drop_database-IsFresh :
      (name : List ℕ) (n : ℕ) (s : SchemaService)
      → IsFresh n s
      → IsFresh n (drop_database database_order table_order name s).0
  unfolding drop_database
  drop_database-IsFresh name n s h =
      elim (Option-cases (find_database name (database_order s.databases))) [
        | inl absent ↦ rw (drop_database, absent) h
        | inr ((id, d), found) ↦
            rw (drop_database, found)
              (record {
                databases_few = h.databases_few;
                tables_few = h.tables_few;
                databases_below = erase-Below _ id s.databases h.databases_below;
                tables_below = h.tables_below;
              })
      ]

  drop_table-IsFresh :
      (name : List ℕ) (n : ℕ) (s : SchemaService)
      → IsFresh n s
      → IsFresh n (drop_table database_order table_order name s).0
  unfolding drop_table
  drop_table-IsFresh name n s h = elim (Option-cases (find_table name (table_order s.tables))) [
    | inl absent ↦ rw (drop_table, absent) h
    | inr ((id, t), found) ↦
        rw (drop_table, found)
          (record {
            databases_few = h.databases_few;
            tables_few = h.tables_few;
            databases_below = h.databases_below;
            tables_below = erase-Below _ id s.tables h.tables_below;
          })
  ]

  step-IsFresh :
      (call : Call) (n : ℕ) (s : SchemaService)
      → n + 1 < 2 ^ 64
      → IsFresh n s
      → IsFresh (n + 1) (step call s)
  unfolding step create_database create_table
  step-IsFresh (call_create_database name) n s small h =
      let few = h.databases_few in
      rw (next_lem s.next_database_id (omega arith)) (record {
        databases_few = omega arith;
        tables_few = omega (arith, h.tables_few);
        databases_below = insert-Below _ _ _ _ (omega arith) (weaken-Below _ _ h.databases_below);
        tables_below = h.tables_below;
      })
  step-IsFresh (call_drop_database name) n s small h =
      drop_database-IsFresh name (n + 1) s (IsFresh-later n s h)
  step-IsFresh (call_create_table t) n s small h =
      let few = h.tables_few in
      rw (next_lem s.next_table_id (omega arith)) (record {
        databases_few = omega (arith, h.databases_few);
        tables_few = omega arith;
        databases_below = h.databases_below;
        tables_below = insert-Below _ _ _ _ (omega arith) (weaken-Below _ _ h.tables_below);
      })
  step-IsFresh (call_drop_table name) n s small h =
      drop_table-IsFresh name (n + 1) s (IsFresh-later n s h)

  run-IsFresh :
      (calls : List Call) (n : ℕ) (s : SchemaService)
      → n + length calls < 2 ^ 64
      → IsFresh n s
      → (m : ℕ) × IsFresh m (run calls s)
  unfolding run
  run-IsFresh [] n s small h = (n, h)
  run-IsFresh (call ∷ calls) n s small h =
      run-IsFresh calls (n + 1) (step call s) (omega arith) (step-IsFresh call n s (omega arith) h)

  -- After fewer than 2^64 - 1 calls of create and drop on a new service, whatever the order of its maps, the id of
  -- the next database is in no use; create_database puts the database of that id and name there, and
  -- changes no other id.
  pub create_database-run :
      (calls : List Call) (name : List ℕ) (id : ℕ)
      → length calls + 1 < 2 ^ 64
      → (get_database_by_id (run calls new_service).next_database_id (run calls new_service) ≡ none)
        × (get_database_by_id id (create_database name (run calls new_service)).0 ≡ (
            if (create_database name (run calls new_service)).1 == id
            then some (named_database (create_database name (run calls new_service)).1 name)
            else get_database_by_id id (run calls new_service)))
  unfolding get_database_by_id create_database
  create_database-run calls name id few =
      let s = run calls new_service in
      let (_, fresh) = run-IsFresh calls 1 new_service (omega arith) (record {
        databases_few = omega arith;
        tables_few = omega arith;
        databases_below = empty;
        tables_below = empty;
      }) in
      (
        lookup-Below s.next_database_id s.databases fresh.databases_below,
        lookup-insert s.next_database_id id (named_database s.next_database_id name) s.databases,
      )

deserialize_database-bytes :
    (d : DatabaseSchema)
    → d.database_id < 2 ^ 64
    → length d.database_name ≡ 128
    → deserialize_database
        (length (to_le 8 d.database_id ++ d.database_name))
        (to_le 8 d.database_id ++ d.database_name)
      ≡ some d
unfolding deserialize_database
deserialize_database-bytes d small sized =
    let all_there : ltb (length (to_le 8 d.database_id ++ d.database_name)) 136 ≡ false = ground (
      arith,
      length-append (to_le 8 d.database_id) d.database_name,
      length-to_le 8 d.database_id,
    ) in
    let name : take 128 d.database_name ≡ d.database_name =
      ap (λ n. take n d.database_name) (sym sized) ∙ take_all d.database_name in
    rw
      (
        deserialize_database,
        all_there,
        take-to_le 8 d.database_id d.database_name,
        drop-to_le 8 d.database_id d.database_name,
        from_le-to_le 8 d.database_id small,
        name,
      )
      refl

lookup-insert_self :
    {A : Type 0} (id : ℕ) (x : A) (entries : List (ℕ × A))
    → lookup id (insert id x entries) ≡ some x
lookup-insert_self id x entries = ground (arith, lookup-insert id id x entries)

-- A replayed record of a database does not move the next id on: when the record has that id, the
-- database is there after the replay, and the next create_database gives its id to the new database,
-- which takes its place.
pub create_database-replay_ddl :
    (s : SchemaService) (d : DatabaseSchema) (name : List ℕ)
    → d.database_id ≡ s.next_database_id
    → d.database_id < 2 ^ 64
    → length d.database_name ≡ 128
    → (bytes : List ℕ) × (s' : SchemaService) × (serialize_database 136 d ≡ some bytes)
      × (replay_ddl (0 ∷ bytes) s ≡ some (s', success))
      × (get_database_by_id d.database_id s' ≡ some d)
      × ((create_database name s').1 ≡ d.database_id)
      × (get_database_by_id d.database_id (create_database name s').0
          ≡ some (named_database d.database_id name))
unfolding serialize_database replay_ddl get_database_by_id create_database
create_database-replay_ddl s d name next small sized = (
  to_le 8 d.database_id ++ d.database_name,
  record s { databases = insert d.database_id d s.databases },
  refl,
  rw (replay_ddl, deserialize_database-bytes d small sized) refl,
  lookup-insert_self d.database_id d s.databases,
  sym next,
  subst
      (λ n.
        lookup d.database_id (insert n (named_database n name) (insert d.database_id d s.databases))
        ≡ some (named_database d.database_id name))
      next (lookup-insert_self d.database_id (named_database d.database_id name) _),
)
