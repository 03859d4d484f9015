-- ===== src/Ddl/Baseline/Parts.antt =====
-- The block of a new database as its parts: three headers, the schema, zeros.
use lsm_storage.Prelude.{
  ℕ, ◌+◌, ◌-◌, ◌^◌, ◌≤◌, ◌<◌, ◌≡◌, refl, ap, sym, ◌∙◌, false, some, List, [], ◌∷◌, ◌++◌, length,
  take, to_le, ltb, zeros, arith, assoc, length-append, length-take, length-zeros,
}
use lsm_storage.Prelude.Buffer.{put, put-zeros}
use lsm_storage.Prelude.Fields.{pack, unpack-pack, done, next}
use lsm_storage.Block.Header.{
  CommonHeader, common_widths, common_header_values, fixed_widths, fixed_header_values,
  micro_widths, deserialize_common, common_of, micro_header_values, serialize_common,
  serialize_fixed, serialize_micro,
}
use lsm_storage.Schema.{set_name}
use lsm_storage.Ddl.Baseline.{
  micro_header, fixed_header, common_header, write_common, write_fixed, write_micro, block_bytes,
}

common : List ℕ
common = pack common_widths (common_header_values common_header)

length-common : length common ≡ 24
unfolding common pack to_le
length-common = refl

write_common_lem : (room : ℕ) → 168 ≤ room → write_common room ≡ (common ++ zeros (room - 24), 24)
unfolding write_common serialize_common common
write_common_lem room h =
    let fits : ltb room 24 ≡ false = ground arith in
    simp fits (
      ap (λ (xs : List ℕ). (xs, 24))
        (put-zeros [] common room ∙ ap (λ k. common ++ zeros (room - k)) length-common))

module _ (id size : ℕ) where
  pub fixed : List ℕ
  fixed = pack fixed_widths (fixed_header_values (fixed_header id size))

  pub micro : List ℕ
  micro = pack micro_widths (micro_header_values (micro_header size))

  pub length-fixed : length fixed ≡ 88
  unfolding fixed pack to_le
  length-fixed = refl

  pub length-micro : length micro ≡ 56
  unfolding micro pack to_le
  length-micro = refl

  length-headers : length ((common ++ fixed) ++ micro) ≡ 168
  length-headers = omega (
    arith,
    length-append (common ++ fixed) micro,
    length-append common fixed,
    length-common,
    length-fixed,
    length-micro,
  )

  write_fixed_lem :
      (room : ℕ)
      → 168 ≤ room
      → write_fixed id size room (common ++ zeros (room - 24), 24)
        ≡ ((common ++ fixed) ++ zeros (room - 112), 112)
  unfolding write_fixed serialize_fixed fixed
  write_fixed_lem room h =
      let fits : ltb room 112 ≡ false = ground arith in
      simp fits (
        ap (λ (xs : List ℕ). (xs, 112))
          (ap (λ p. put p fixed (common ++ zeros (room - 24))) (sym length-common)
            ∙ put-zeros common fixed (room - 24)
            ∙ ap (λ k. (common ++ fixed) ++ zeros k) (omega (arith, length-fixed))))

  length-two : length (common ++ fixed) ≡ 112
  length-two = omega (arith, length-append common fixed, length-common, length-fixed)

  write_micro_lem :
      (room : ℕ)
      → 168 ≤ room
      → write_micro size room ((common ++ fixed) ++ zeros (room - 112), 112)
        ≡ (((common ++ fixed) ++ micro) ++ zeros (room - 168), 168)
  unfolding write_micro serialize_micro micro
  write_micro_lem room h =
      let fits : ltb room 168 ≡ false = ground arith in
      simp fits (
        ap (λ (xs : List ℕ). (xs, 168))
          (ap (λ p. put p micro ((common ++ fixed) ++ zeros (room - 112))) (sym length-two)
            ∙ put-zeros (common ++ fixed) micro (room - 112)
            ∙ ap (λ k. ((common ++ fixed) ++ micro) ++ zeros k) (omega (arith, length-micro))))

-- The last store changes the size of the payload only.
put_payload_size :
    (v : ℕ) (rest : List ℕ)
    → put 16 (to_le 4 v) (common ++ rest)
      ≡ pack common_widths (common_header_values (record common_header { payload_size = v }))
        ++ rest
unfolding put common pack to_le
put_payload_size v rest = refl

pub length-set_name : (name : List ℕ) → length (set_name name (zeros 128)) ≡ 128
unfolding set_name
length-set_name name = omega (
  arith,
  length-append (take 127 name) (zeros (127 - length name) ++ 0 ∷ []),
  length-append (zeros (127 - length name)) (0 ∷ []),
  length-take 127 name,
  length-zeros (127 - length name),
)

-- The common header once all is stored.
abbrev pub stored_header : ℕ → CommonHeader
stored_header size = record common_header { payload_size = 144 + size }

pub stored : ℕ → List ℕ
stored size = pack common_widths (common_header_values (stored_header size))

pub length-stored : (size : ℕ) → length (stored size) ≡ 24
unfolding stored pack to_le
length-stored size = refl

abbrev pub parts_of : ℕ → ℕ → ℕ → List ℕ → List ℕ
parts_of room id size schema =
    stored size ++ (fixed id size ++ (micro id size ++ (schema ++ zeros (room - 168 - size))))

-- The block as its parts.
pub block_bytes_parts :
    (room id : ℕ) (schema : List ℕ)
    → 168 + length schema ≤ room
    → block_bytes room id schema ≡ parts_of room id (length schema) schema
unfolding block_bytes stored
block_bytes_parts room id schema h =
    let size = length schema in
    let headers = (common ++ fixed id size) ++ micro id size in
    let left = zeros (room - 168 - size) in
    let headed : write_micro size room (write_fixed id size room (write_common room))
        ≡ (headers ++ zeros (room - 168), 168) =
      ap (λ (b : List ℕ × ℕ). write_micro size room (write_fixed id size room b))
        (write_common_lem room (omega arith))
      ∙ ap (write_micro size room) (write_fixed_lem id size room (omega arith))
      ∙ write_micro_lem id size room (omega arith) in
    let payload : 168 + size - 24 ≡ 144 + size = omega arith in
    let regrouped : (headers ++ schema) ++ left
        ≡ common ++ (fixed id size ++ (micro id size ++ (schema ++ left))) =
      simp assoc in
    ap (λ (b : List ℕ × ℕ). put 16 (to_le 4 (b.1 + size - 24)) (put b.1 schema b.0)) headed
    ∙ ap (λ v. put 16 (to_le 4 v) (put 168 schema (headers ++ zeros (room - 168)))) payload
    ∙ ap (λ p. put 16 (to_le 4 (144 + size)) (put p schema (headers ++ zeros (room - 168))))
        (sym (length-headers id size))
    ∙ ap (put 16 (to_le 4 (144 + size))) (put-zeros headers schema (room - 168) ∙ regrouped)
    ∙ put_payload_size (144 + size) (fixed id size ++ (micro id size ++ (schema ++ left)))

pub deserialize_common-front :
    (size room : ℕ) (rest : List ℕ)
    → 144 + size < 2 ^ 32
    → 24 ≤ room
    → deserialize_common (stored size ++ rest) room 0 ≡ some (stored_header size, 24)
unfolding deserialize_common common_of stored
deserialize_common-front size room rest small h =
    let fits : ltb room 24 ≡ false = ground arith in
    let back = unpack-pack common_widths (common_header_values (stored_header size)) rest (
      next (omega arith) (
        next (omega arith)
          (next (omega arith) (next (omega arith) (next small (next (omega arith) done)))))) in
    simp (fits, back) refl

-- What stands in the macro header and in the header of the micro block, member by member.
abbrev pub macro_members : ℕ → List ℕ
macro_members id =
    88 ∷ 0 ∷ 1007 ∷ id ∷ 0 ∷ 0 ∷ 1 ∷ 0 ∷ 0 ∷ 1 ∷ 136 ∷ 1 ∷ 112 ∷ 192 ∷ 0 ∷ 0 ∷ 0 ∷ 0 ∷ 0 ∷ []

abbrev pub micro_members : List ℕ
micro_members = 1005 ∷ 1 ∷ 56 ∷ 0 ∷ 1 ∷ 0 ∷ 0 ∷ 1 ∷ 0 ∷ 0 ∷ 0 ∷ 0 ∷ 136 ∷ 0 ∷ 0 ∷ 136 ∷ 136 ∷ 0 ∷ []

pub macro_members_lem : (id : ℕ) → fixed id 136 ≡ pack fixed_widths (macro_members id)
unfolding fixed fixed_header
macro_members_lem id = refl

pub micro_members_lem : (id : ℕ) → micro id 136 ≡ pack micro_widths micro_members
unfolding micro micro_header
micro_members_lem id = refl
