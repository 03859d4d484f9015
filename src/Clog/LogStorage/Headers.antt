-- ===== src/Clog/LogStorage/Headers.antt =====
-- palf/log_storage.cpp: read_group_entry_header and read_block_.
use lsm_storage.Prelude.{
  ℕ, ◌+◌, ◌≤◌, ◌≡◌, false, ◌&&◌, Option, none, some, List, length, take, ltb, if◌then◌else◌, arith,
  success, length-take, refl,
}
use lsm_storage.Prelude.Assoc.{lookup}
use lsm_storage.Prelude.File
use lsm_storage.Clog.Header.{LogGroupEntryHeader, group_header_size, load_group_header, is_valid}
use lsm_storage.Clog.Header.RoundTrip.{load-take}
use lsm_storage.Clog.LogStorage.{LogStorage, Os, lsn_2_offset, append, read}
use lsm_storage.Clog.LogStorage.Append.{IsReadable, read-append_front}

-- The offset is that in the file, with no place for the info block.
unfoldable pub read_block : Os → ℕ → ℕ → ℕ → LogStorage → Option (List ℕ)
read_block os id offset n s = elim (lookup id s.files) [
  | none ↦ none
  | some f ↦ if os.opens && os.seeks && os.reads then some (File.read n offset f) else none
]

-- The bytes are read over the struct, whose members have the offsets that load_group_header reads;
-- none is -1.
unfoldable pub read_group_entry_header : Os → ℕ → LogStorage → Option LogGroupEntryHeader
read_group_entry_header os lsn s = elim (read os lsn group_header_size group_header_size s) [
  | none ↦ none
  | some bytes ↦
      if ltb (length bytes) group_header_size
      then none
      else let h = load_group_header bytes 0 in if is_valid h then some h else none
]

-- The header of an entry that was appended within its block, and that starts with a valid header, is
-- read back from the LSN of the append; of an entry that does not, none is.
pub read_group_entry_header-append :
    (os os' : Os) (lsn : ℕ) (bytes : List ℕ) (s s' : LogStorage)
    → lsn_2_offset lsn s.block_size + length bytes ≤ s.block_size
    → group_header_size ≤ length bytes
    → IsReadable os'
    → append os lsn bytes s ≡ (s', success)
    → read_group_entry_header os' lsn s'
      ≡ (if is_valid (load_group_header bytes 0) then some (load_group_header bytes 0) else none)
unfolding read_group_entry_header
read_group_entry_header-append os os' lsn bytes s s' within long readable e =
    let front =
      read-append_front os os' lsn 48 48 bytes s s' (omega arith) within long (omega arith) readable
        e in
    let sized : ltb (length (take 48 bytes)) 48 ≡ false = ground (arith, length-take 48 bytes) in
    rw (read_group_entry_header, front, sized, load-take 48 bytes (omega arith)) refl
