-- ===== src/Clog/LogMeta/RoundTrip.antt =====
-- What an entry of the metadata gives back.
use lsm_storage.Prelude.{
  ℕ, ◌+◌, ◌≤◌, ◌≡◌, refl, ap, sym, ◌∙◌, ◌⊎◌, inl, inr, some, false, List, ◌++◌, length, take, drop,
  ltb, success, arith, take-append, to_le,
}
use lsm_storage.Prelude.Buffer.{put, length-put, drop-put_at, drop-put_behind}
use lsm_storage.Prelude.Fields.{pack, unpack, unpack-pack, length-pack, Fits, done, next}
use lsm_storage.Clog.LogMeta.{
  LogMeta, MetaEntry, MetaHeader, new_entry, init, header_widths, body_widths, header_values,
  body_values, header_of, config_of, serialize, deserialize, meta_magic, get_serialize_size,
  meta_size,
}

abbrev stored_header : MetaHeader
stored_header = record { magic = meta_magic; meta_size = meta_size; checksum = 0 }

head_bytes : List ℕ
head_bytes = pack header_widths (header_values stored_header)

header-Fits : Fits header_widths (header_values stored_header)
header-Fits = next (omega arith) (next (omega arith) (next (omega arith) done))

length-head_bytes : length head_bytes ≡ 12
unfolding head_bytes
length-head_bytes = length-pack header_widths (header_values stored_header) header-Fits

-- The header at its place, whatever is behind it.
head_read : (rest : List ℕ) → header_of (unpack header_widths (head_bytes ++ rest)) ≡ stored_header
unfolding head_bytes
head_read rest =
    ap header_of (unpack-pack header_widths (header_values stored_header) rest header-Fits)

-- What serialize leaves.
out : List ℕ → List ℕ → ℕ → List ℕ
out body buf pos = put 12 body (put pos head_bytes buf)

module _ (body buf : List ℕ) (pos : ℕ) (sized : length body ≡ 52)
    (room : pos + 4204 ≤ length buf) where
  length-headed : length (put pos head_bytes buf) ≡ length buf
  length-headed = length-put pos head_bytes buf (omega (arith, length-head_bytes))

  head_there :
      (pos ≡ 0) ⊎ (64 ≤ pos) → (rest : List ℕ) × (drop pos (out body buf pos) ≡ head_bytes ++ rest)
  unfolding out put head_bytes pack to_le
  head_there (inl front) = (
    body ++ drop (12 + length body) (put pos head_bytes buf),
    rw front (
        ap (λ (xs : List ℕ). xs ++ (body ++ drop (12 + length body) (put 0 head_bytes buf)))
          (ap (λ n. take n (head_bytes ++ drop (length head_bytes) buf)) (sym length-head_bytes)
            ∙ take-append head_bytes (drop (length head_bytes) buf))),
  )
  head_there (inr behind) = (
    drop (pos + length head_bytes) buf,
    drop-put_behind pos 12 body (put pos head_bytes buf) (omega (arith, length-headed, sized))
          (omega (arith, sized))
        ∙ drop-put_at pos head_bytes buf (omega arith),
  )

  body_there : drop 12 (out body buf pos) ≡ body ++ drop (12 + length body) (put pos head_bytes buf)
  unfolding out
  body_there = drop-put_at 12 body (put pos head_bytes buf) (omega (arith, length-headed))

serialize-out :
    (m : LogMeta) (buf : List ℕ) (pos : ℕ)
    → pos + 4204 ≤ length buf
    → serialize (init m new_entry) (length buf) buf pos
      ≡ some (out (pack body_widths (body_values m.config_meta)) buf pos, 4204)
unfolding serialize init get_serialize_size out head_bytes
serialize-out m buf pos room =
    let fits : ltb (length buf) (pos + 4204) ≡ false = ground arith in rw fits refl

deserialize-out :
    (m old : LogMeta) (e : MetaEntry) (buf : List ℕ) (pos : ℕ)
    → (pos ≡ 0) ⊎ (64 ≤ pos)
    → pos + 4204 ≤ length buf
    → Fits body_widths (body_values m.config_meta)
    → length (pack body_widths (body_values m.config_meta)) ≡ 52
    → deserialize
        (out (pack body_widths (body_values m.config_meta)) buf pos)
        (length buf)
        pos
        e
        old
      ≡ (
        record e { header = stored_header },
        record old { config_meta = m.config_meta },
        length buf,
        success,
      )
unfolding deserialize
deserialize-out m old e buf pos place room fits sized =
    let body = pack body_widths (body_values m.config_meta) in
    let (rest, there) = head_there body buf pos sized room place in
    let enough : ltb (length buf) (pos + 12) ≡ false = ground arith in
    let complete : ltb (length buf) 4204 ≡ false = ground arith in
    let head : header_of (unpack header_widths (drop pos (out body buf pos))) ≡ stored_header =
      ap (λ (xs : List ℕ). header_of (unpack header_widths xs)) there ∙ head_read rest in
    let config : config_of (unpack body_widths (drop 12 (out body buf pos))) ≡ m.config_meta =
      ap (λ (xs : List ℕ). config_of (unpack body_widths xs)) (body_there body buf pos sized room)
      ∙ ap config_of (unpack-pack body_widths (body_values m.config_meta) _ fits) in
    simp (enough, head, complete, config) refl

-- An entry that is stored in a buffer with room for it, at its front or at 64 or later, is read back
-- from there with the membership of its log, whatever object and metadata it is read into; the
-- snapshot and the mode are not stored and stay those of the metadata that is read into.
pub deserialize-serialize :
    (m old : LogMeta) (e : MetaEntry) (buf : List ℕ) (pos : ℕ)
    → (pos ≡ 0) ⊎ (64 ≤ pos)
    → pos + 4204 ≤ length buf
    → Fits body_widths (body_values m.config_meta)
    → (stored : List ℕ) × (serialize (init m new_entry) (length buf) buf pos ≡ some (stored, 4204))
      × (deserialize stored (length buf) pos e old ≡ (
        record e { header = stored_header },
        record old { config_meta = m.config_meta },
        length buf,
        success,
      ))
deserialize-serialize m old e buf pos place room fits =
    let body = pack body_widths (body_values m.config_meta) in
    let sized : length body ≡ 52 = length-pack body_widths (body_values m.config_meta) fits in
    (
      out body buf pos,
      serialize-out m buf pos room,
      deserialize-out m old e buf pos place room fits sized,
    )
