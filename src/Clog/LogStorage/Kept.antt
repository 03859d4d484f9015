-- ===== src/Clog/LogStorage/Kept.antt =====
-- What an append leaves as it was.
use lsm_storage.Prelude.{
  ℕ, ◌+◌, ◌≤◌, ◌<◌, ◌≡◌, ◌≢◌, ◌∙◌, ◌⊎◌, inl, inr, true, some, List, length, take_all, ◌==◌,
  if◌then◌else◌, success, arith, Bool-cases,
}
use lsm_storage.Prelude.Assoc
use lsm_storage.Prelude.Assoc.{lookup-insert}
use lsm_storage.Prelude.File.{File, peek, poke, peek-poke_ne}
use lsm_storage.Prelude.File
use lsm_storage.Clog.LogStorage.{
  LogStorage, Os, lsn_2_block, lsn_2_offset, open_block, write_block, append, max_info_block_size,
  file_at, is_current,
}
use lsm_storage.Clog.LogStorage.Append.{Holds}

open_block_kept :
    (os : Os) (id other : ℕ) (f : File) (s : LogStorage)
    → Assoc.lookup other s.files ≡ some f
    → Assoc.lookup other (open_block os id s).0.files ≡ some f
unfolding open_block
open_block_kept os id other f s at = ground (arith, lookup-insert id other File.empty_file s.files)

write_block_kept :
    (os : Os) (id offset other : ℕ) (bytes : List ℕ) (f : File) (s s' : LogStorage)
    → Assoc.lookup other s.files ≡ some f
    → write_block os id offset bytes s ≡ (s', success)
    → (Assoc.lookup other s'.files
        ≡ some (if id == other then File.write (offset + max_info_block_size) bytes f else f))
      × (s'.is_inited ≡ s.is_inited)
unfolding write_block
write_block_kept os id offset other bytes f s s' at e = ground (
  arith,
  take_all bytes,
  lookup-insert id other (File.write (offset + max_info_block_size) bytes (file_at id s)) s.files,
)

append_kept :
    (os : Os) (lsn other : ℕ) (bytes : List ℕ) (f : File) (s s' : LogStorage)
    → 0 < length bytes
    → Assoc.lookup other s.files ≡ some f
    → append os lsn bytes s ≡ (s', success)
    → Assoc.lookup other s'.files
      ≡ some (
          if lsn_2_block lsn s.block_size == other
          then File.write (lsn_2_offset lsn s.block_size + max_info_block_size) bytes f
          else f)
unfolding append
append_kept os lsn other bytes f s s' some_bytes at e =
    let id = lsn_2_block lsn s.block_size in
    let offset = lsn_2_offset lsn s.block_size in
    elim (Bool-cases (is_current id s.cur_block)) [
      | inl current ↦ (write_block_kept os id offset other bytes f s s' at (ground arith)).0
      | inr closed ↦
          (write_block_kept os id offset other bytes f (open_block os id s).0 s'
            (open_block_kept os id other f s at) (ground arith)).0
    ]

-- Bytes in another block, or in front of what is appended, stay where they are.
pub Holds-append :
    (os : Os) (lsn id offset : ℕ) (entry bytes : List ℕ) (s s' : LogStorage)
    → 0 < length bytes
    → (lsn_2_block lsn s.block_size ≢ id) ⊎ (offset + length entry ≤ lsn_2_offset lsn s.block_size)
    → append os lsn bytes s ≡ (s', success)
    → s'.is_inited ≡ true
    → Holds id offset entry s
    → Holds id offset entry s'
unfolding File.write
Holds-append os lsn id offset entry bytes s s' some_bytes (inl other) e inited h = record {
  inited = inited;
  file = h.file;
  found = ground (arith, append_kept os lsn id bytes h.file s s' some_bytes h.found e);
  room = h.room;
  same = h.same;
}
Holds-append os lsn id offset entry bytes s s' some_bytes (inr behind) e inited h =
    let at = lsn_2_offset lsn s.block_size + max_info_block_size in
    elim (Bool-cases (lsn_2_block lsn s.block_size == id)) [
      | inl here ↦ record {
        inited = inited;
        file = File.write at bytes h.file;
        found = ground (arith, append_kept os lsn id bytes h.file s s' some_bytes h.found e);
        room = omega (arith, h.room);
        same =
            peek-poke_ne (length entry) (offset + max_info_block_size) at bytes h.file.byte
              (inl (omega arith))
            ∙ h.same;
      }
      | inr there ↦ record {
        inited = inited;
        file = h.file;
        found = ground (arith, append_kept os lsn id bytes h.file s s' some_bytes h.found e);
        room = h.room;
        same = h.same;
      }
    ]
