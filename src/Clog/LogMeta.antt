-- ===== src/Clog/LogMeta.antt =====
-- palf/log_meta.h and log_meta.cpp, log_meta_entry.h and log_meta_entry.cpp: the metadata of a log and
-- its entry on disk. member_data_ is neither set nor stored and is left out of the records.
pub mod RoundTrip
use lsm_storage.Prelude.{
  ℕ, ◌+◌, ◌<◌, ◌^◌, Bool, false, Option, none, some, List, [], ◌∷◌, length, drop, ltb, ◌==◌,
  if◌then◌else◌, Ret, success, failure,
}
use lsm_storage.Prelude.Buffer.{put}
use lsm_storage.Prelude.Fields.{pack, unpack}

pub record ConfigVersion : Type 0 where
  pub config_version : ℕ
  pub config_seq : ℕ

pub record ConfigMeta : Type 0 where
  pub proposal_id : ℕ
  pub prev_lsn : ℕ
  pub prev_log_proposal_id : ℕ
  pub prev_mode_pid : ℕ
  pub config_version : ConfigVersion
  pub member_count : ℕ

pub record SnapshotMeta : Type 0 where
  pub snapshot_lsn : ℕ
  pub snapshot_version : ℕ

pub record ModeMeta : Type 0 where
  pub proposal_id : ℕ
  pub access_mode : ℕ
  pub is_applied_mode_meta : Bool

pub record LogMeta : Type 0 where
  pub config_meta : ConfigMeta
  pub snapshot_meta : SnapshotMeta
  pub mode_meta : ModeMeta
  pub log_snapshot_lsn : ℕ

-- LogConfigMeta::reset
abbrev pub new_config : ConfigMeta
new_config = record {
  proposal_id = 0;
  prev_lsn = 0;
  prev_log_proposal_id = 0;
  prev_mode_pid = 0;
  config_version = record { config_version = 0; config_seq = 0 };
  member_count = 0;
}

-- LogMeta()
abbrev pub new_meta : LogMeta
new_meta = record {
  config_meta = new_config;
  snapshot_meta = record { snapshot_lsn = 0; snapshot_version = 0 };
  mode_meta = record { proposal_id = 0; access_mode = 0; is_applied_mode_meta = false };
  log_snapshot_lsn = 0;
}

unfoldable pub init_config : ℕ → ℕ → ℕ → ℕ → ConfigVersion → ConfigMeta → ConfigMeta
init_config proposal_id prev_lsn prev_log_proposal_id prev_mode_pid version c = record c {
  proposal_id = proposal_id;
  prev_lsn = prev_lsn;
  prev_log_proposal_id = prev_log_proposal_id;
  prev_mode_pid = prev_mode_pid;
  config_version = version;
  member_count = 1;
}

unfoldable pub is_valid : ConfigMeta → Bool
is_valid c = ltb 0 c.proposal_id

-- get_serialize_size of LogMeta: 4152 + 16 + 16 + 8, the sizes in memory.
abbrev pub meta_size : ℕ
meta_size = 4192

pub record MetaHeader : Type 0 where
  pub magic : ℕ
  pub meta_size : ℕ
  pub checksum : ℕ

abbrev pub meta_magic : ℕ
meta_magic = 0x4D48

abbrev pub header_size : ℕ
header_size = 12

pub record MetaEntry : Type 0 where
  pub header : MetaHeader
  pub meta : LogMeta

-- LogMetaEntry()
abbrev pub new_entry : MetaEntry
new_entry = record {
  header = record { magic = meta_magic; meta_size = 0; checksum = 0 };
  meta = new_meta;
}

unfoldable pub init : LogMeta → MetaEntry → MetaEntry
init meta e = record e { meta = meta; header = record (e.header) { meta_size = meta_size } }

unfoldable pub get_serialize_size : MetaEntry → ℕ
get_serialize_size e = header_size + e.header.meta_size

abbrev pub header_widths : List ℕ
header_widths = 4 ∷ 4 ∷ 4 ∷ []

abbrev pub body_widths : List ℕ
body_widths = 8 ∷ 8 ∷ 8 ∷ 8 ∷ 8 ∷ 8 ∷ 4 ∷ []

abbrev pub header_values : MetaHeader → List ℕ
header_values h = h.magic ∷ h.meta_size ∷ h.checksum ∷ []

abbrev pub body_values : ConfigMeta → List ℕ
body_values c =
    c.proposal_id ∷ c.prev_lsn ∷ c.prev_log_proposal_id ∷ c.prev_mode_pid
    ∷ c.config_version.config_version ∷ c.config_version.config_seq ∷ c.member_count ∷ []

-- The header goes to `pos` and the body behind the header at the front of the buffer.
unfoldable pub serialize : MetaEntry → ℕ → List ℕ → ℕ → Option (List ℕ × ℕ)
unfolding get_serialize_size
serialize e room buf pos =
    let total = get_serialize_size e in
    if ltb room (pos + total)
    then none
    else some (
      put header_size (pack body_widths (body_values e.meta.config_meta))
          (put pos (pack header_widths (header_values e.header)) buf),
      total,
    )

abbrev pub header_of : List ℕ → MetaHeader
header_of (magic ∷ size ∷ checksum ∷ rest) = record {
  magic = magic;
  meta_size = size;
  checksum = checksum;
}
header_of values = record { magic = 0; meta_size = 0; checksum = 0 }

abbrev pub config_of : List ℕ → ConfigMeta
config_of (proposal ∷ lsn ∷ log_proposal ∷ mode ∷ version ∷ seq ∷ members ∷ rest) = record {
  proposal_id = proposal;
  prev_lsn = lsn;
  prev_log_proposal_id = log_proposal;
  prev_mode_pid = mode;
  config_version = record { config_version = version; config_seq = seq };
  member_count = members;
}
config_of values = new_config

-- The entry, the metadata and the position afterwards; `buf` has at least the 64 bytes that are read.
unfoldable pub deserialize : List ℕ → ℕ → ℕ → MetaEntry → LogMeta → MetaEntry × LogMeta × ℕ × Ret
deserialize buf data_len pos e meta =
    if ltb data_len (pos + header_size)
    then (e, meta, pos, failure)
    else let h = header_of (unpack header_widths (drop pos buf)) in
      if h.magic == meta_magic
      then if ltb data_len (header_size + h.meta_size)
        then (record e { header = h }, meta, header_size, failure)
        else (
          record e { header = h },
          record meta { config_meta = config_of (unpack body_widths (drop header_size buf)) },
          data_len,
          success,
        )
      else (record e { header = h }, meta, header_size, failure)
