-- ===== src/Clog/Header.antt =====
-- palf/log_entry.h, palf/log_entry.cpp and ob_log_base_header.h: the headers as bytes. A buffer
-- that serialize writes to is the list of the bytes that it holds before and after. An integer is
-- its bit pattern.
pub mod RoundTrip
use lsm_storage.Prelude.{
  ℕ, ◌+◌, ◌-◌, ◌*◌, ◌%◌, ◌^◌, Bool, true, false, Option, none, some, List, [], ◌∷◌, ◌++◌, length,
  take, drop, to_le, from_le, ltb, leb, ◌==◌, if◌then◌else◌, Ret, success, failure,
}
use lsm_storage.Prelude.Buffer.{put, fetch}

pub record LogEntryHeader : Type 0 where
  pub magic : ℕ
  pub version : ℕ
  pub data_len : ℕ
  pub data_checksum : ℕ

abbrev pub entry_magic : ℕ
entry_magic = 0x4C48

-- LogEntryHeader() and reset()
abbrev pub new_entry_header : LogEntryHeader
new_entry_header = record { magic = entry_magic; version = 1; data_len = 0; data_checksum = 0 }

-- sizeof(LogEntryHeader)
abbrev pub entry_header_size : ℕ
entry_header_size = 12

abbrev pub entry_header_bytes : LogEntryHeader → List ℕ
entry_header_bytes h =
    to_le 2 h.magic ++ (to_le 2 h.version ++ (to_le 4 h.data_len ++ to_le 4 h.data_checksum))

-- The buffer and pos afterwards; none is -1.
unfoldable pub serialize_entry_header : LogEntryHeader → ℕ → List ℕ → ℕ → Option (List ℕ × ℕ)
serialize_entry_header h buf_len buf pos =
    if ltb buf_len (pos + entry_header_size)
    then none
    else some (put pos (entry_header_bytes h) buf, pos + entry_header_size)

unfoldable pub deserialize_entry_header : List ℕ → ℕ → ℕ → Option (LogEntryHeader × ℕ)
deserialize_entry_header buf data_len pos =
    if ltb data_len (pos + entry_header_size)
    then none
    else some (
      record {
        magic = fetch 2 pos buf;
        version = fetch 2 (pos + 2) buf;
        data_len = fetch 4 (pos + 4) buf;
        data_checksum = fetch 4 (pos + 8) buf;
      },
      pos + entry_header_size,
    )

pub record LogGroupEntryHeader : Type 0 where
  pub magic : ℕ
  pub version : ℕ
  pub group_entry_size : ℕ
  pub log_id : ℕ
  pub log_proposal_id : ℕ
  pub prev_lsn : ℕ
  pub committed_end_lsn : ℕ
  pub data_checksum : ℕ

abbrev pub group_magic : ℕ
group_magic = 0x4752

-- LogGroupEntryHeader() and reset()
abbrev pub new_group_header : LogGroupEntryHeader
new_group_header = record {
  magic = group_magic;
  version = 1;
  group_entry_size = 0;
  log_id = 0;
  log_proposal_id = 1;
  prev_lsn = 0;
  committed_end_lsn = 0;
  data_checksum = 0;
}

unfoldable pub is_valid : LogGroupEntryHeader → Bool
is_valid h = h.magic == group_magic

-- sizeof(LogGroupEntryHeader): 44 bytes of fields and the padding behind data_checksum_
abbrev pub group_header_size : ℕ
group_header_size = 48

-- The stores of serialize, in order. `*pu32 = data_checksum_` goes through the pointer that
-- `*pu32++ = group_entry_size_` left at offset 8, onto log_id_; nothing is stored from offset 40 on.
unfoldable pub store_group_header : LogGroupEntryHeader → ℕ → List ℕ → List ℕ
store_group_header h pos buf =
    let b₁ = put pos (to_le 2 h.magic) buf in
    let b₂ = put (pos + 2) (to_le 2 h.version) b₁ in
    let b₃ = put (pos + 4) (to_le 4 h.group_entry_size) b₂ in
    let b₄ = put (pos + 8) (to_le 8 h.log_id) b₃ in
    let b₅ = put (pos + 16) (to_le 8 h.log_proposal_id) b₄ in
    let b₆ = put (pos + 24) (to_le 8 h.prev_lsn) b₅ in
    let b₇ = put (pos + 32) (to_le 8 h.committed_end_lsn) b₆ in
    put (pos + 8) (to_le 4 h.data_checksum) b₇

unfoldable pub serialize_group_header : LogGroupEntryHeader → ℕ → List ℕ → ℕ → Option (List ℕ × ℕ)
serialize_group_header h buf_len buf pos =
    if ltb buf_len (pos + group_header_size)
    then none
    else some (store_group_header h pos buf, pos + group_header_size)

unfoldable pub load_group_header : List ℕ → ℕ → LogGroupEntryHeader
load_group_header buf pos = record {
  magic = fetch 2 pos buf;
  version = fetch 2 (pos + 2) buf;
  group_entry_size = fetch 4 (pos + 4) buf;
  log_id = fetch 8 (pos + 8) buf;
  log_proposal_id = fetch 8 (pos + 16) buf;
  prev_lsn = fetch 8 (pos + 24) buf;
  committed_end_lsn = fetch 8 (pos + 32) buf;
  data_checksum = fetch 4 (pos + 40) buf;
}

unfoldable pub deserialize_group_header : List ℕ → ℕ → ℕ → Option (LogGroupEntryHeader × ℕ)
deserialize_group_header buf data_len pos =
    if ltb data_len (pos + group_header_size)
    then none
    else some (load_group_header buf pos, pos + group_header_size)

-- LogEntry: its header and its buffer.
pub record LogEntry : Type 0 where
  pub header : LogEntryHeader
  pub buf : List ℕ

-- data_len_ is a uint32.
unfoldable pub init_entry : List ℕ → LogEntry
init_entry bytes = record {
  header = record new_entry_header { data_len = length bytes % 2 ^ 32 };
  buf = bytes;
}

unfoldable pub serialize_entry : LogEntry → ℕ → List ℕ → ℕ → Option (List ℕ × ℕ)
serialize_entry e buf_len buf pos = elim (serialize_entry_header e.header buf_len buf pos) [
  | none ↦ none
  | some (out, at) ↦
      if ltb buf_len (at + length e.buf) then none else some (put at e.buf out, at + length e.buf)
]

-- The header is read into the entry, and init then makes it anew. pos is not moved past the
-- payload.
unfoldable pub deserialize_entry : List ℕ → ℕ → ℕ → Option (LogEntry × ℕ)
deserialize_entry buf data_len pos = elim (deserialize_entry_header buf data_len pos) [
  | none ↦ none
  | some (h, at) ↦
      if ltb data_len (at + h.data_len)
      then none
      else some (init_entry (take h.data_len (drop at buf)), at)
]

pub record LogBaseHeader : Type 0 where
  pub version : ℕ
  pub log_type : ℕ
  pub flag : ℕ
  pub replay_hint : ℕ

-- ObLogBaseHeader(type)
abbrev pub new_base_header : ℕ → LogBaseHeader
new_base_header log_type = record { version = 1; log_type = log_type; flag = 0; replay_hint = 0 }

-- sizeof(ObLogBaseHeader)
abbrev pub base_header_size : ℕ
base_header_size = 16

unfoldable pub base_header_bytes : LogBaseHeader → List ℕ
base_header_bytes h =
    to_le 2 h.version ++ (to_le 2 h.log_type ++ (to_le 4 h.flag ++ to_le 8 h.replay_hint))

unfoldable pub serialize_base_header : LogBaseHeader → ℕ → List ℕ → ℕ → Option (List ℕ × ℕ)
serialize_base_header h buf_len buf pos =
    if ltb buf_len (pos + base_header_size)
    then none
    else some (put pos (base_header_bytes h) buf, pos + base_header_size)

unfoldable pub deserialize_base_header : List ℕ → ℕ → ℕ → Option (LogBaseHeader × ℕ)
deserialize_base_header buf data_len pos =
    if ltb data_len (pos + base_header_size)
    then none
    else some (
      record {
        version = fetch 2 pos buf;
        log_type = fetch 2 (pos + 2) buf;
        flag = fetch 4 (pos + 4) buf;
        replay_hint = fetch 8 (pos + 8) buf;
      },
      pos + base_header_size,
    )
