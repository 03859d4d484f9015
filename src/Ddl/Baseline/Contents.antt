-- ===== src/Ddl/Baseline/Contents.antt =====
-- What the block of a new database holds.
use lsm_storage.Prelude.{
  ℕ, ◌+◌, ◌-◌, ◌^◌, ◌≤◌, ◌<◌, ◌≡◌, refl, ap, sym, ◌∙◌, some, List, ◌++◌, length, take, drop, to_le,
  from_le, zeros, arith, assoc, length-append, drop-append_past, take-to_le, drop-to_le,
  from_le-to_le, take-append, length-to_le, get_elem?,
}
use lsm_storage.Prelude.Fields.{unpack, Fits, unpack-pack, done, next}
use lsm_storage.Block.Header.{fixed_widths, micro_widths, micro_header_size, deserialize_common}
use lsm_storage.Schema.{
  set_name, set_database_name, named_database, serialize_database, deserialize_database,
}
use lsm_storage.Ddl.Baseline.{schema_bytes, block_bytes}
use lsm_storage.Ddl.Baseline.Parts.{
  length-set_name, stored_header, stored, length-stored, fixed, micro, length-fixed, length-micro,
  parts_of, block_bytes_parts, deserialize_common-front, macro_members, micro_members,
  macro_members_lem, micro_members_lem,
}

-- A schema is read from the front of its bytes.
deserialize-serialize_database :
    (id : ℕ) (name rest : List ℕ)
    → id < 2 ^ 64
    → length name ≡ 128
    → deserialize_database 136 ((to_le 8 id ++ name) ++ rest)
      ≡ some (record { database_id = id; database_name = name })
unfolding deserialize_database
deserialize-serialize_database id name rest small sized =
    let split = assoc (to_le 8 id) name rest in
    let number : from_le (take 8 ((to_le 8 id ++ name) ++ rest)) ≡ id =
      ap (λ (xs : List ℕ). from_le (take 8 xs)) split
      ∙ ap from_le (take-to_le 8 id (name ++ rest))
      ∙ from_le-to_le 8 id small in
    let text : take 128 (drop 8 ((to_le 8 id ++ name) ++ rest)) ≡ name =
      ap (λ (xs : List ℕ). take 128 (drop 8 xs)) split
      ∙ ap (take 128) (drop-to_le 8 id (name ++ rest))
      ∙ ap (λ n. take n (name ++ rest)) (sym sized)
      ∙ take-append name rest in
    rw (number, text) refl

drop-parts_of :
    (room id : ℕ) (schema : List ℕ)
    → drop 168 (parts_of room id 136 schema) ≡ schema ++ zeros (room - 168 - 136)
drop-parts_of room id schema =
    let rest = schema ++ zeros (room - 168 - 136) in
    let front : 168 ≡ length (stored 136) + (length (fixed id 136) + (length (micro id 136) + 0)) =
      omega (arith, length-stored 136, length-fixed id 136, length-micro id 136) in
    ap (λ n. drop n (parts_of room id 136 schema)) front
    ∙ drop-append_past (length (fixed id 136) + (length (micro id 136) + 0)) (stored 136)
        (fixed id 136 ++ (micro id 136 ++ rest))
    ∙ drop-append_past (length (micro id 136) + 0) (fixed id 136) (micro id 136 ++ rest)
    ∙ drop-append_past 0 (micro id 136) rest

macro_members-Fits : (id : ℕ) → id < 2 ^ 64 → Fits fixed_widths (macro_members id)
macro_members-Fits id small = next (omega arith) (
    next (omega arith) (
      next (omega arith) (
        next small (
          next (omega arith) (
            next (omega arith) (
              next (omega arith) (
                next (omega arith) (
                  next (omega arith) (
                    next (omega arith) (
                      next (omega arith) (
                        next (omega arith) (
                          next (omega arith) (
                            next (omega arith) (
                              next (omega arith) (
                                next (omega arith) (
                                  next (omega arith)
                                    (next (omega arith) (next (omega arith) done))))))))))))))))))

micro_members-Fits : Fits micro_widths micro_members
micro_members-Fits = next (omega arith) (
    next (omega arith) (
      next (omega arith) (
        next (omega arith) (
          next (omega arith) (
            next (omega arith) (
              next (omega arith) (
                next (omega arith) (
                  next (omega arith) (
                    next (omega arith) (
                      next (omega arith) (
                        next (omega arith) (
                          next (omega arith) (
                            next (omega arith) (
                              next (omega arith) (
                                next (omega arith)
                                  (next (omega arith) (next (omega arith) done)))))))))))))))))

drop-stored : (size k : ℕ) (rest : List ℕ) → drop (24 + k) (stored size ++ rest) ≡ drop k rest
drop-stored size k rest =
    ap (λ n. drop (n + k) (stored size ++ rest)) (sym (length-stored size))
    ∙ drop-append_past k (stored size) rest

macro_read :
    (room id : ℕ) (schema : List ℕ)
    → id < 2 ^ 64
    → unpack fixed_widths (drop 24 (parts_of room id 136 schema)) ≡ macro_members id
macro_read room id schema small =
    let rest = micro id 136 ++ (schema ++ zeros (room - 168 - 136)) in
    ap (unpack fixed_widths) (drop-stored 136 0 (fixed id 136 ++ rest))
    ∙ ap (λ bytes. unpack fixed_widths (bytes ++ rest)) (macro_members_lem id)
    ∙ unpack-pack fixed_widths (macro_members id) rest (macro_members-Fits id small)

micro_read :
    (room id : ℕ) (schema : List ℕ)
    → unpack micro_widths (drop 112 (parts_of room id 136 schema)) ≡ micro_members
micro_read room id schema =
    let rest = micro id 136 ++ (schema ++ zeros (room - 168 - 136)) in
    let size : 88 ≡ length (fixed id 136) + 0 = omega (arith, length-fixed id 136) in
    let behind : drop 88 (fixed id 136 ++ rest) ≡ rest =
      ap (λ n. drop n (fixed id 136 ++ rest)) size ∙ drop-append_past 0 (fixed id 136) rest in
    ap (unpack micro_widths) (drop-stored 136 88 (fixed id 136 ++ rest) ∙ behind)
    ∙ ap (λ bytes. unpack micro_widths (bytes ++ (schema ++ zeros (room - 168 - 136))))
        (micro_members_lem id)
    ∙ unpack-pack micro_widths micro_members (schema ++ zeros (room - 168 - 136)) micro_members-Fits

module _ (room id : ℕ) (text : List ℕ) (enough : 304 ≤ room) (small : id < 2 ^ 64)
    (sized : length text ≡ 128) where
  length-schema : length (to_le 8 id ++ text) ≡ 136
  length-schema = omega (arith, sized, length-append (to_le 8 id) text, length-to_le 8 id)

  block_bytes_sized :
      block_bytes room id (to_le 8 id ++ text) ≡ parts_of room id 136 (to_le 8 id ++ text)
  block_bytes_sized =
      block_bytes_parts room id (to_le 8 id ++ text) (omega (arith, length-schema))
      ∙ ap (λ n. parts_of room id n (to_le 8 id ++ text)) length-schema

  common_read :
      deserialize_common (block_bytes room id (to_le 8 id ++ text)) room 0
      ≡ some (stored_header 136, 24)
  common_read =
      ap (λ (b : List ℕ). deserialize_common b room 0) block_bytes_sized
      ∙ deserialize_common-front 136 room _ (omega arith) (omega arith)

  schema_read :
      deserialize_database 136 (drop 168 (block_bytes room id (to_le 8 id ++ text)))
      ≡ some (record { database_id = id; database_name = text })
  schema_read =
      ap (λ (b : List ℕ). deserialize_database 136 (drop 168 b)) block_bytes_sized
      ∙ ap (deserialize_database 136) (drop-parts_of room id (to_le 8 id ++ text))
      ∙ deserialize-serialize_database id text (zeros (room - 168 - 136)) small sized

-- In a buffer of at least 304 bytes and for an id that is a uint64, the block of a new database gives
-- back what was put into it: its common header is read back with the size of all that is stored
-- behind it, the bytes behind that are the members of the macro header (its size, its magic number,
-- the id, the counts and sizes), the bytes at 112 are those of the header of the micro block, and
-- behind the header of the micro block, at the offset that stands in the macro header of the block,
-- the schema of the database is read back.
pub block_bytes-schema :
    (room id : ℕ) (name : List ℕ)
    → 304 ≤ room
    → id < 2 ^ 64
    → (bytes : List ℕ) × (schema_bytes name id ≡ some bytes)
      × (deserialize_common (block_bytes room id bytes) room 0 ≡ some (stored_header 136, 24))
      × (unpack fixed_widths (drop 24 (block_bytes room id bytes)) ≡ macro_members id)
      × (unpack micro_widths (drop 112 (block_bytes room id bytes)) ≡ micro_members)
      × (offset : ℕ) × (get_elem? (unpack fixed_widths (drop 24 (block_bytes room id bytes))) 12
          ≡ some offset)
      × (deserialize_database 136 (drop (offset + micro_header_size) (block_bytes room id bytes))
          ≡ some (named_database id name))
unfolding schema_bytes serialize_database set_database_name
block_bytes-schema room id name enough small =
    let text = set_name name (zeros 128) in
    let sized = length-set_name name in
    let schema = to_le 8 id ++ text in
    let whole = block_bytes_sized room id text enough small sized in
    let macro : unpack fixed_widths (drop 24 (block_bytes room id schema)) ≡ macro_members id =
      ap (λ (b : List ℕ). unpack fixed_widths (drop 24 b)) whole
      ∙ macro_read room id schema small in
    (
      schema,
      refl,
      common_read room id text enough small sized,
      macro,
      ap (λ (b : List ℕ). unpack micro_widths (drop 112 b)) whole ∙ micro_read room id schema,
      112,
      ap (λ vs. get_elem? vs 12) macro,
      schema_read room id text enough small sized,
    )
