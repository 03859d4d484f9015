-- ===== src/Block/SsTableMeta/RoundTrip.antt =====
-- The bytes of an SSTable's metadata read back.
use lsm_storage.Prelude.{
  ℕ, suc, ◌^◌, ◌<◌, ◌≡◌, refl, ap, sym, ◌∙◌, true, false, ◌&&◌, List, [], ◌∷◌, ◌++◌, length, take,
  drop, to_le, from_le, ltb, leb, success, take-append, drop-append, take-to_le, drop-to_le,
  from_le-to_le, length-append, append-nil, assoc, arith,
}
use lsm_storage.Prelude.Fields.{pack, unpack, Fits, unpack-pack}
use lsm_storage.Block.SsTableMeta.{
  BasicMeta, SsTableMeta, new_meta, basic_widths, basic_values, basic_of, triple_bytes, serialize,
  read_triples, add_triple, as_count, with_count, read_macro_info, read_root, read_sized_root,
  deserialize,
}

-- The three vectors have one length, and every value is the bit pattern of an int64.
pub data Aligned : List ℕ → List ℕ → List ℕ → Type 0 where
  done : Aligned [] [] []
  next :
      {id offset size : ℕ} {ids offsets sizes : List ℕ}
      → id < 2 ^ 64
      → offset < 2 ^ 64
      → size < 2 ^ 64
      → Aligned ids offsets sizes
      → Aligned (id ∷ ids) (offset ∷ offsets) (size ∷ sizes)

abbrev with_triples : List ℕ → List ℕ → List ℕ → SsTableMeta → SsTableMeta
with_triples ids offsets sizes m = record m {
  macro_ids = m.macro_ids ++ ids;
  macro_offsets = m.macro_offsets ++ offsets;
  macro_sizes = m.macro_sizes ++ sizes;
}

with_triples-nil : (m : SsTableMeta) → with_triples [] [] [] m ≡ m
with_triples-nil m =
    rw (append-nil m.macro_ids, append-nil m.macro_offsets, append-nil m.macro_sizes) refl

with_triples-add_triple :
    (id offset size : ℕ) (ids offsets sizes : List ℕ) (m : SsTableMeta)
    → with_triples ids offsets sizes (add_triple id offset size m)
      ≡ with_triples (id ∷ ids) (offset ∷ offsets) (size ∷ sizes) m
with_triples-add_triple id offset size ids offsets sizes m =
    rw
      (
        assoc m.macro_ids (id ∷ []) ids,
        assoc m.macro_offsets (offset ∷ []) offsets,
        assoc m.macro_sizes (size ∷ []) sizes,
      )
      refl

-- The integer at the front of what is left, and what is left behind it.
front : (v : ℕ) (rest : List ℕ) → v < 2 ^ 64 → from_le (take 8 (to_le 8 v ++ rest)) ≡ v
front v rest small = ap from_le (take-to_le 8 v rest) ∙ from_le-to_le 8 v small

eight_left : (v : ℕ) (rest : List ℕ) → leb 8 (length (to_le 8 v ++ rest)) ≡ true
unfolding to_le
eight_left v rest = ground arith

triple_left :
    (a b c : ℕ) (rest : List ℕ)
    → leb 24 (length (to_le 8 a ++ (to_le 8 b ++ (to_le 8 c ++ rest)))) ≡ true
unfolding to_le
triple_left a b c rest = ground arith

read_triples_lem :
    (n id offset size : ℕ) (rest : List ℕ) (m : SsTableMeta)
    → id < 2 ^ 64
    → offset < 2 ^ 64
    → size < 2 ^ 64
    → read_triples (suc n) (to_le 8 id ++ (to_le 8 offset ++ (to_le 8 size ++ rest))) m
      ≡ read_triples n rest (add_triple id offset size m)
unfolding read_triples
read_triples_lem n id offset size rest m p q r =
    rw
      (
        read_triples,
        triple_left id offset size rest,
        drop-to_le 8 id (to_le 8 offset ++ (to_le 8 size ++ rest)),
        drop-to_le 8 offset (to_le 8 size ++ rest),
        drop-to_le 8 size rest,
        front id (to_le 8 offset ++ (to_le 8 size ++ rest)) p,
        front offset (to_le 8 size ++ rest) q,
        front size rest r,
      )
      refl

read_triples-triple_bytes :
    (ids offsets sizes : List ℕ) (m : SsTableMeta)
    → Aligned ids offsets sizes
    → read_triples (length ids) (triple_bytes ids offsets sizes) m
      ≡ with_triples ids offsets sizes m
unfolding read_triples triple_bytes
read_triples-triple_bytes [] [] [] m done = sym (with_triples-nil m)
read_triples-triple_bytes [] [] (size ∷ sizes) m h = elim h [ ]
read_triples-triple_bytes [] (offset ∷ offsets) sizes m h = elim h [ ]
read_triples-triple_bytes (id ∷ ids) [] sizes m h = elim h [ ]
read_triples-triple_bytes (id ∷ ids) (offset ∷ offsets) [] m h = elim h [ ]
read_triples-triple_bytes (id ∷ ids) (offset ∷ offsets) (size ∷ sizes) m (next p q r rest) =
    read_triples_lem (length ids) id offset size (triple_bytes ids offsets sizes) m p q r
    ∙ read_triples-triple_bytes ids offsets sizes (add_triple id offset size m) rest
    ∙ with_triples-add_triple id offset size ids offsets sizes m

read_macro_info_lem :
    (ids offsets sizes : List ℕ) (m : SsTableMeta)
    → Aligned ids offsets sizes
    → length ids < 2 ^ 63
    → read_macro_info (to_le 8 (length ids) ++ triple_bytes ids offsets sizes) m
      ≡ (with_count (length ids) (with_triples ids offsets sizes m), success)
unfolding read_macro_info
read_macro_info_lem ids offsets sizes m aligned small =
    let triples = triple_bytes ids offsets sizes in
    let some_count : as_count (length ids) ≡ length ids = ground arith in
    rw
      (
        read_macro_info,
        eight_left (length ids) triples,
        front (length ids) triples (omega arith),
        drop-to_le 8 (length ids) triples,
        some_count,
        read_triples-triple_bytes ids offsets sizes m aligned,
      )
      refl

abbrev rooted : BasicMeta → List ℕ → SsTableMeta
rooted b root = record new_meta { basic_meta = b; root_block_data = root }

read_root_lem :
    (b : BasicMeta) (root rest : List ℕ)
    → read_root (length root) (root ++ rest) (rooted b []) ≡ read_macro_info rest (rooted b root)
unfolding read_root
read_root_lem b [] rest = refl
read_root_lem b (x ∷ root) rest =
    let held : (ltb 0 (length (x ∷ root)) && leb (length (x ∷ root)) (length ((x ∷ root) ++ rest)))
        ≡ true =
      ground (arith, length-append (x ∷ root) rest) in
    rw (read_root, held, take-append (x ∷ root) rest, drop-append (x ∷ root) rest) refl

read_sized_root_lem :
    (b : BasicMeta) (root rest : List ℕ)
    → length root < 2 ^ 63
    → read_sized_root (to_le 8 (length root) ++ (root ++ rest)) (rooted b [])
      ≡ read_macro_info rest (rooted b root)
unfolding read_sized_root
read_sized_root_lem b root rest small =
    rw
      (
        read_sized_root,
        eight_left (length root) (root ++ rest),
        front (length root) (root ++ rest) (omega arith),
        drop-to_le 8 (length root) (root ++ rest),
      )
      (read_root_lem b root rest)

basic_of-pack :
    (b : BasicMeta) (rest : List ℕ)
    → Fits basic_widths (basic_values b)
    → basic_of (unpack basic_widths (pack basic_widths (basic_values b) ++ rest)) ≡ b
unfolding basic_of
basic_of-pack b rest fits = ap basic_of (unpack-pack basic_widths (basic_values b) rest fits)

drop_basic :
    (b : BasicMeta) (rest : List ℕ) → drop 104 (pack basic_widths (basic_values b) ++ rest) ≡ rest
unfolding pack to_le
drop_basic b rest = refl

basic_left :
    (b : BasicMeta) (rest : List ℕ)
    → leb 104 (length (pack basic_widths (basic_values b) ++ rest)) ≡ true
unfolding pack to_le
basic_left b rest = ground arith

-- The metadata of an SSTable, with a value in the range of its type in every member and its three
-- vectors of one length, is read back from its bytes into a new object. The macro block count is
-- then the number of triples, and the offset and the size of the root block are not in the bytes.
pub deserialize-serialize :
    (m : SsTableMeta)
    → Fits basic_widths (basic_values m.basic_meta)
    → length m.root_block_data < 2 ^ 63
    → length m.macro_ids < 2 ^ 63
    → Aligned m.macro_ids m.macro_offsets m.macro_sizes
    → deserialize (serialize m) new_meta ≡ (
      with_count
          (length m.macro_ids)
          (record m { root_block_offset = 0; root_block_size = 0; is_inited = false }),
      success,
    )
unfolding deserialize serialize
deserialize-serialize m fits root count aligned =
    let b = m.basic_meta in
    let infos =
      to_le 8 (length m.macro_ids) ++ triple_bytes m.macro_ids m.macro_offsets m.macro_sizes in
    let tail = to_le 8 (length m.root_block_data) ++ (m.root_block_data ++ infos) in
    rw (deserialize, basic_left b tail, drop_basic b tail, basic_of-pack b tail fits)
      (read_sized_root_lem b m.root_block_data infos root
        ∙ read_macro_info_lem m.macro_ids m.macro_offsets m.macro_sizes (rooted b m.root_block_data)
            aligned count)
