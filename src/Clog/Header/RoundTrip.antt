-- ===== src/Clog/Header/RoundTrip.antt =====
-- What a header reads back after it has been written.
use lsm_storage.Prelude.{
  ℕ, ◌+◌, ◌*◌, ◌/◌, ◌%◌, ◌^◌, ◌≤◌, ◌<◌, List, [], ◌∷◌, ◌++◌, length, take, drop, subst, to_le,
  length-to_le, ◌≡◌, refl, sym, ◌∙◌, ◌⊎◌, inl, inr, arith,
}
use lsm_storage.Prelude.Buffer.{
  fetch-take, put, fetch, length-put, fetch-put, fetch-put_ne, fetch_eight, fetch-put_low,
}
use lsm_storage.Clog.Header.{
  LogGroupEntryHeader, store_group_header, load_group_header, group_header_size,
}

-- Each field fits its type.
pub record Fits (h : LogGroupEntryHeader) : Type 0 where
  pub magic : h.magic < 2 ^ 16
  pub version : h.version < 2 ^ 16
  pub group_entry_size : h.group_entry_size < 2 ^ 32
  pub log_id : h.log_id < 2 ^ 64
  pub log_proposal_id : h.log_proposal_id < 2 ^ 64
  pub prev_lsn : h.prev_lsn < 2 ^ 64
  pub committed_end_lsn : h.committed_end_lsn < 2 ^ 64
  pub data_checksum : h.data_checksum < 2 ^ 32

-- Integers stored one after another: an offset, a size and a value each.
abbrev put_all : List (ℕ × ℕ × ℕ) → List ℕ → List ℕ
put_all [] buf = buf
put_all ((q, k, v) ∷ stores) buf = put_all stores (put q (to_le k v) buf)

abbrev HasRoom : ℕ → List (ℕ × ℕ × ℕ) → Type 0
HasRoom size [] = Unit {0}
HasRoom size ((q, k, v) ∷ stores) = (q + k ≤ size) × HasRoom size stores

-- The `n` bytes at `p` are met by no store.
abbrev IsClear : ℕ → ℕ → List (ℕ × ℕ × ℕ) → Type 0
IsClear n p [] = Unit {0}
IsClear n p ((q, k, v) ∷ stores) = ((p + n ≤ q) ⊎ (q + k ≤ p)) × IsClear n p stores

length-put_int :
    (pos n v : ℕ) (buf : List ℕ)
    → pos + n ≤ length buf
    → length (put pos (to_le n v) buf) ≡ length buf
length-put_int pos n v buf h = length-put pos (to_le n v) buf (omega (arith, length-to_le n v))

apart :
    (n p q k v : ℕ) (buf : List ℕ)
    → q + k ≤ length buf
    → (p + n ≤ q) ⊎ (q + k ≤ p)
    → fetch n p (put q (to_le k v) buf) ≡ fetch n p buf
apart n p q k v buf fits (inl before) =
    fetch-put_ne n p q (to_le k v) buf (omega (arith, length-to_le k v)) (inl before)
apart n p q k v buf fits (inr after) =
    fetch-put_ne n p q (to_le k v) buf (omega (arith, length-to_le k v))
      (inr (omega (arith, length-to_le k v)))

fetch-put_all :
    (n p : ℕ) (stores : List (ℕ × ℕ × ℕ)) (buf : List ℕ)
    → HasRoom (length buf) stores
    → IsClear n p stores
    → fetch n p (put_all stores buf) ≡ fetch n p buf
fetch-put_all n p [] buf room clear = refl
fetch-put_all n p ((q, k, v) ∷ stores) buf (fits, room) (far, clear) =
    let same = sym (length-put_int q k v buf fits) in
    fetch-put_all n p stores (put q (to_le k v) buf) (subst (λ size. HasRoom size stores) same room)
      clear
    ∙ apart n p q k v buf fits far

length-put_all :
    (stores : List (ℕ × ℕ × ℕ)) (buf : List ℕ)
    → HasRoom (length buf) stores
    → length (put_all stores buf) ≡ length buf
length-put_all [] buf room = refl
length-put_all ((q, k, v) ∷ stores) buf (fits, room) =
    let same = length-put_int q k v buf fits in
    length-put_all stores (put q (to_le k v) buf)
      (subst (λ size. HasRoom size stores) (sym same) room)
    ∙ same

-- An integer that no later store meets is read back, whatever was stored before it.
fetch_stored :
    (n v p : ℕ) (before after : List (ℕ × ℕ × ℕ)) (buf : List ℕ)
    → v < 256 ^ n
    → HasRoom (length buf) (before ++ (p, n, v) ∷ after)
    → IsClear n p after
    → fetch n p (put_all (before ++ (p, n, v) ∷ after) buf) ≡ v
fetch_stored n v p [] after buf small (fits, room) clear =
    let same = sym (length-put_int p n v buf fits) in
    fetch-put_all n p after (put p (to_le n v) buf) (subst (λ size. HasRoom size after) same room)
      clear
    ∙ fetch-put n v p buf small fits
fetch_stored n v p ((q, k, u) ∷ before) after buf small (fits, room) clear =
    let same = sym (length-put_int q k u buf fits) in
    fetch_stored n v p before after (put q (to_le k u) buf) small
      (subst (λ size. HasRoom size (before ++ (p, n, v) ∷ after)) same room) clear

-- The stores of `store_group_header`, up to the checksum.
abbrev fields : LogGroupEntryHeader → ℕ → List (ℕ × ℕ × ℕ)
fields h pos =
    (pos, 2, h.magic)
    ∷ (pos + 2, 2, h.version)
    ∷ (pos + 4, 4, h.group_entry_size)
    ∷ (pos + 8, 8, h.log_id)
    ∷ (pos + 16, 8, h.log_proposal_id)
    ∷ (pos + 24, 8, h.prev_lsn)
    ∷ (pos + 32, 8, h.committed_end_lsn)
    ∷ []

abbrev checksum : LogGroupEntryHeader → ℕ → ℕ × ℕ × ℕ
checksum h pos = (pos + 8, 4, h.data_checksum)

store-put_all :
    (h : LogGroupEntryHeader) (pos : ℕ) (buf : List ℕ)
    → store_group_header h pos buf ≡ put_all (fields h pos ++ checksum h pos ∷ []) buf
unfolding store_group_header
store-put_all h pos buf = refl

module _ (h : LogGroupEntryHeader) (pos : ℕ) (buf : List ℕ) (ok : Fits h)
    (fits : pos + group_header_size ≤ length buf) where
  abbrev stored : List ℕ
  stored = put_all (fields h pos ++ checksum h pos ∷ []) buf

  magic_back : fetch 2 (pos) stored ≡ h.magic
  magic_back =
      fetch_stored 2 h.magic (pos) (take 0 (fields h pos))
        (drop 1 (fields h pos) ++ checksum h pos ∷ []) buf (omega (arith, ok.magic)) (omega arith)
        (omega arith)

  version_back : fetch 2 (pos + 2) stored ≡ h.version
  version_back =
      fetch_stored 2 h.version (pos + 2) (take 1 (fields h pos))
        (drop 2 (fields h pos) ++ checksum h pos ∷ []) buf (omega (arith, ok.version)) (omega arith)
        (omega arith)

  group_entry_size_back : fetch 4 (pos + 4) stored ≡ h.group_entry_size
  group_entry_size_back =
      fetch_stored 4 h.group_entry_size (pos + 4) (take 2 (fields h pos))
        (drop 3 (fields h pos) ++ checksum h pos ∷ []) buf (omega (arith, ok.group_entry_size))
        (omega arith) (omega arith)

  log_proposal_id_back : fetch 8 (pos + 16) stored ≡ h.log_proposal_id
  log_proposal_id_back =
      fetch_stored 8 h.log_proposal_id (pos + 16) (take 4 (fields h pos))
        (drop 5 (fields h pos) ++ checksum h pos ∷ []) buf (omega (arith, ok.log_proposal_id))
        (omega arith) (omega arith)

  prev_lsn_back : fetch 8 (pos + 24) stored ≡ h.prev_lsn
  prev_lsn_back =
      fetch_stored 8 h.prev_lsn (pos + 24) (take 5 (fields h pos))
        (drop 6 (fields h pos) ++ checksum h pos ∷ []) buf (omega (arith, ok.prev_lsn))
        (omega arith) (omega arith)

  committed_end_lsn_back : fetch 8 (pos + 32) stored ≡ h.committed_end_lsn
  committed_end_lsn_back =
      fetch_stored 8 h.committed_end_lsn (pos + 32) (take 6 (fields h pos))
        (drop 7 (fields h pos) ++ checksum h pos ∷ []) buf (omega (arith, ok.committed_end_lsn))
        (omega arith) (omega arith)

  -- The four bytes that the checksum replaces, and the four above them.
  log_id_back : fetch 8 (pos + 8) stored ≡ h.log_id / 2 ^ 32 * 2 ^ 32 + h.data_checksum
  log_id_back =
      let b₃ = put_all (take 3 (fields h pos)) buf in
      let b₄ = put (pos + 8) (to_le 8 h.log_id) b₃ in
      let b₇ = put_all (fields h pos) buf in
      let l₃ = length-put_all (take 3 (fields h pos)) buf (omega arith) in
      let l₄ = length-put_int (pos + 8) 8 h.log_id b₃ (omega (arith, l₃)) in
      let l₇ = length-put_all (fields h pos) buf (omega arith) in
      let low : fetch 4 (pos + 8) b₇ ≡ h.log_id % 2 ^ 32 =
        fetch-put_all 4 (pos + 8) (drop 4 (fields h pos)) b₄ (omega (arith, l₃, l₄)) (omega arith)
        ∙ fetch-put_low (pos + 8) h.log_id b₃ (omega (arith, l₃)) in
      let whole : fetch 8 (pos + 8) b₇ ≡ h.log_id =
        fetch_stored 8 h.log_id (pos + 8) (take 3 (fields h pos)) (drop 4 (fields h pos)) buf
          (omega (arith, ok.log_id)) (omega arith) (omega arith) in
      let high : fetch 4 (pos + 8 + 4) stored ≡ fetch 4 (pos + 8 + 4) b₇ =
        apart 4 (pos + 8 + 4) (pos + 8) 4 h.data_checksum b₇ (omega (arith, l₇))
          (inr (omega arith)) in
      let sum : fetch 4 (pos + 8) stored ≡ h.data_checksum =
        fetch_stored 4 h.data_checksum (pos + 8) (fields h pos) [] buf
          (omega (arith, ok.data_checksum)) (omega arith) tt in
      omega (arith, fetch_eight (pos + 8) stored, fetch_eight (pos + 8) b₇, low, whole, high, sum)

  rest_back : fetch 4 (pos + 40) stored ≡ fetch 4 (pos + 40) buf
  rest_back =
      fetch-put_all 4 (pos + 40) (fields h pos ++ checksum h pos ∷ []) buf (omega arith)
        (omega arith)

-- Reading a group header whose fields fit their types back from where it was written restores every field but two: the
-- checksum has replaced the lower half of the log id, and the checksum read is what the buffer
-- held at offset 40 before.
pub load-store_group_header :
    (h : LogGroupEntryHeader) (pos : ℕ) (buf : List ℕ)
    → Fits h
    → pos + group_header_size ≤ length buf
    → load_group_header (store_group_header h pos buf) pos ≡ record h {
      log_id = h.log_id / 2 ^ 32 * 2 ^ 32 + h.data_checksum;
      data_checksum = fetch 4 (pos + 40) buf;
    }
unfolding load_group_header
load-store_group_header h pos buf ok fits = rw (
  store-put_all h pos buf,
  magic_back h pos buf ok fits,
  version_back h pos buf ok fits,
  group_entry_size_back h pos buf ok fits,
  log_id_back h pos buf ok fits,
  log_proposal_id_back h pos buf ok fits,
  prev_lsn_back h pos buf ok fits,
  committed_end_lsn_back h pos buf ok fits,
  rest_back h pos buf ok fits,
)

pub length-store_group_header :
    (h : LogGroupEntryHeader) (pos : ℕ) (buf : List ℕ)
    → pos + group_header_size ≤ length buf
    → length (store_group_header h pos buf) ≡ length buf
length-store_group_header h pos buf fits =
    rw (store-put_all h pos buf)
      (length-put_all (fields h pos ++ checksum h pos ∷ []) buf (omega arith))

-- What is put behind a header leaves it as it is.
pub load-put :
    (bytes buf : List ℕ)
    → group_header_size + length bytes ≤ length buf
    → load_group_header (put group_header_size bytes buf) 0 ≡ load_group_header buf 0
unfolding load_group_header
load-put bytes buf fits =
    let keep =
      λ (n p : ℕ) (in_header : p + n ≤ 48). fetch-put_ne n p 48 bytes buf fits (inl in_header) in
    rw (
      keep 2 0 (omega arith),
      keep 2 2 (omega arith),
      keep 4 4 (omega arith),
      keep 8 8 (omega arith),
      keep 8 16 (omega arith),
      keep 8 24 (omega arith),
      keep 8 32 (omega arith),
      keep 4 40 (omega arith),
    )

-- A group header is read from the first 48 bytes.
pub load-take :
    (m : ℕ) (buf : List ℕ)
    → group_header_size ≤ m
    → load_group_header (take m buf) 0 ≡ load_group_header buf 0
unfolding load_group_header
load-take m buf h =
    let at = λ (n p : ℕ) (inside : p + n ≤ 48). fetch-take n p m buf (omega (arith, inside)) in
    rw
      (
        at 2 0 (omega arith),
        at 2 2 (omega arith),
        at 4 4 (omega arith),
        at 8 8 (omega arith),
        at 8 16 (omega arith),
        at 8 24 (omega arith),
        at 8 32 (omega arith),
        at 4 40 (omega arith),
      )
      refl
