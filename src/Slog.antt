-- ===== src/Slog.antt =====
-- storage/slog/ob_storage_logger.h and ob_storage_logger.cpp: ObStorageLogger, the storage log.
pub mod Replay
mod Runs
use lsm_storage.Prelude.{
  ℕ, zero, suc, ◌+◌, ◌-◌, ◌%◌, ◌^◌, Bool, true, false, ◌||◌, not, Option, none, some, List, [], ◌∷◌,
  ◌++◌, length, take, drop, to_le, from_le, ltb, leb, ◌==◌, if◌then◌else◌, Ret, success, failure,
}
use lsm_storage.Prelude.Fields.{pack, unpack}

-- ObStorageLogParam; the data is not null and has data_len_ bytes.
pub record LogParam : Type 0 where
  pub tenant_id : ℕ
  pub log_type : ℕ
  pub bytes : List ℕ

-- ObStorageLogEntry as the callback is given it, with the data behind the header.
pub record LogEntry : Type 0 where
  pub magic : ℕ
  pub total_size : ℕ
  pub tenant_id : ℕ
  pub log_type : ℕ
  pub data_len : ℕ
  pub payload : List ℕ

abbrev pub slog_magic : ℕ
slog_magic = 0x534C4F47

-- get_header_size()
abbrev pub header_size : ℕ
header_size = 24

abbrev pub header_widths : List ℕ
header_widths = 4 ∷ 4 ∷ 8 ∷ 4 ∷ 4 ∷ []

unfoldable pub entry_bytes : LogParam → List ℕ
entry_bytes p =
    let n = length p.bytes in
    pack header_widths
      (slog_magic ∷ (header_size + n) % 2 ^ 32 ∷ p.tenant_id ∷ p.log_type ∷ n % 2 ^ 32 ∷ [])
    ++ p.bytes

-- ObStorageLogger, and the file slog_0 of the directory that it is used with: none where there is
-- none. slog_file_path_ is empty, or, once init was called, that of the file.
pub record StorageLogger : Type 0 where
  pub has_path : Bool
  pub is_inited : Bool
  pub is_open : Bool
  pub file : Option (List ℕ)

-- ObStorageLogger() of a process that finds `file` on the disk.
abbrev pub new_logger : Option (List ℕ) → StorageLogger
new_logger file = record { has_path = false; is_inited = false; is_open = false; file = file }

abbrev pub created : Option (List ℕ) → List ℕ
created none = []
created (some bytes) = bytes

-- `opens` is whether the system opens or creates the file.
unfoldable pub init : Bool → StorageLogger → StorageLogger × Ret
init opens s =
    if s.is_inited
    then (s, success)
    else if opens
    then (
      record { has_path = true; is_inited = true; is_open = true; file = some (created s.file) },
      success,
    )
    else (record s { has_path = true; is_open = false }, failure)

unfoldable pub destroy : StorageLogger → StorageLogger
destroy s = record s { is_open = false; is_inited = false }

-- The file is open for appending; `written` is how many bytes the system writes, where it can be
-- none at all (-1).
unfoldable pub write_log : ℕ → LogParam → StorageLogger → StorageLogger × Ret
write_log written p s =
    if not s.is_inited || not s.is_open
    then (s, failure)
    else let bytes = entry_bytes p in
      (
        record s { file = some (created s.file ++ take written bytes) },
        if leb (length bytes) written then success else failure,
      )

unfoldable pub entry_of : List ℕ → LogEntry
entry_of (magic ∷ total_size ∷ tenant_id ∷ log_type ∷ data_len ∷ rest) = record {
  magic = magic;
  total_size = total_size;
  tenant_id = tenant_id;
  log_type = log_type;
  data_len = data_len;
  payload = [];
}
entry_of _ = record {
  magic = 0;
  total_size = 0;
  tenant_id = 0;
  log_type = 0;
  data_len = 0;
  payload = [];
}

-- What one turn of the loop comes to: it ends the loop, it runs past the buffer of the entry, or
-- it reads an entry and leaves the rest of the file.
pub data Turn : Type 0 where
  stop crash : Turn
  entry : LogEntry → List ℕ → Turn

-- The turn behind the header. A negative data_len is a size that malloc refuses and for which read
-- returns -1; a data_len of -1 passes the test.
unfoldable pub check_entry : LogEntry → List ℕ → Turn
check_entry e rest =
    if not (e.magic == slog_magic)
    then stop
    else if e.data_len == 2 ^ 32 - 1
    then crash
    else if leb (2 ^ 31) e.data_len || ltb (length rest) e.data_len
    then stop
    else entry (record e { payload = take e.data_len rest }) (drop e.data_len rest)

unfoldable pub read_entry : List ℕ → Turn
read_entry bytes =
    if ltb (length bytes) header_size
    then stop
    else check_entry (entry_of (unpack header_widths bytes)) (drop header_size bytes)

module _ {ℓ} {C : Type ℓ} (callback : C → LogEntry → C) where
  -- The loop, and how many entries it delivered; none is the crash. Every turn takes at least the
  -- 24 bytes of a header, so that one turn for each byte is enough.
  unfoldable pub replay_loop : ℕ → C → List ℕ → Option (C × ℕ)
  replay_loop zero ctx bytes = some (ctx, 0)
  replay_loop (suc fuel) ctx bytes = elim (read_entry bytes) [
    | stop ↦ some (ctx, 0)
    | crash ↦ none
    | entry e rest ↦ elim (replay_loop fuel (callback ctx e) rest) [
      | none ↦ none
      | some (ctx', recovered) ↦ some (ctx', suc recovered)
    ]
  ]

  -- The context afterwards and the number of entries; a missing file holds none, and an empty path
  -- opens nothing.
  unfoldable pub replay : C → StorageLogger → Option (C × ℕ)
  unfolding replay_loop
  replay ctx s =
      if not s.has_path
      then some (ctx, 0)
      else elim s.file [ none ↦ some (ctx, 0) | some bytes ↦ replay_loop (length bytes) ctx bytes ]
