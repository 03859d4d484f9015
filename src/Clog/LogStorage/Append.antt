-- ===== src/Clog/LogStorage/Append.antt =====
-- What is appended within a block is read back; what crosses its end is not.
use Prim.Native.Nat.{min}
use lsm_storage.Prelude.{
  ℕ, ◌+◌, ◌-◌, ◌%◌, ◌≤◌, ◌<◌, true, some, List, length, take, take_all, ltb, if◌then◌else◌, success,
  Option-cases, Bool-cases, ◌≡◌, refl, ◌∙◌, inl, inr, arith,
}
use lsm_storage.Prelude.Assoc
use lsm_storage.Prelude.Assoc.{lookup-insert}
use lsm_storage.Prelude.File.{File, peek, poke, peek-poke, length-read-le, length-peek, take-peek}
use lsm_storage.Prelude.File
use lsm_storage.Clog.LogStorage.{
  LogStorage, Os, lsn_2_block, lsn_2_offset, open_block, write_block, append, read,
  max_info_block_size, file_at, is_current,
}

-- The calls that a read makes succeed.
abbrev pub IsReadable : Os → Type 0
IsReadable os = (os.opens ≡ true) × (os.seeks ≡ true) × (os.reads ≡ true)

-- A state that holds `bytes` at `offset` of the block `id`, and takes reads.
pub record Holds (id offset : ℕ) (bytes : List ℕ) (s : LogStorage) : Type 0 where
  pub inited : s.is_inited ≡ true
  pub file : File
  pub found : Assoc.lookup id s.files ≡ some file
  pub room : offset + max_info_block_size + length bytes ≤ file.size
  pub same : peek (length bytes) (offset + max_info_block_size) file.byte ≡ bytes

write_block_success :
    (os : Os) (id offset : ℕ) (bytes : List ℕ) (s s' : LogStorage)
    → write_block os id offset bytes s ≡ (s', success)
    → (s'.files
        ≡ Assoc.insert id (File.write (offset + max_info_block_size) bytes (file_at id s)) s.files)
      × (s'.is_inited ≡ s.is_inited)
      × (s'.block_size ≡ s.block_size)
unfolding write_block
write_block_success os id offset bytes s s' e = ground (arith, take_all bytes)

write_block-Holds :
    (os : Os) (id offset : ℕ) (bytes : List ℕ) (s s' : LogStorage)
    → s.is_inited ≡ true
    → write_block os id offset bytes s ≡ (s', success)
    → Holds id offset bytes s' × (s'.block_size ≡ s.block_size)
unfolding File.write
write_block-Holds os id offset bytes s s' inited e =
    let (files, same, size) = write_block_success os id offset bytes s s' e in
    let file = File.write (offset + max_info_block_size) bytes (file_at id s) in
    (
      record {
        inited = same ∙ inited;
        file = file;
        found = rw files (ground (arith, lookup-insert id id file s.files));
        room = omega arith;
        same = peek-poke (offset + max_info_block_size) bytes (file_at id s).byte;
      },
      size,
    )

open_block_success :
    (os : Os) (id : ℕ) (s : LogStorage)
    → (open_block os id s).1 ≡ success
    → ((open_block os id s).0.is_inited ≡ s.is_inited)
      × ((open_block os id s).0.block_size ≡ s.block_size)
unfolding open_block
open_block_success os id s e = ground arith

append_opened :
    (os : Os) (lsn : ℕ) (bytes : List ℕ) (s s' : LogStorage)
    → 0 < length bytes
    → append os lsn bytes s ≡ (s', success)
    → (t : LogStorage) × (t.is_inited ≡ true)
      × (t.block_size ≡ s.block_size)
      × (write_block os (lsn_2_block lsn s.block_size) (lsn_2_offset lsn s.block_size) bytes t
          ≡ (s', success))
unfolding append
append_opened os lsn bytes s s' some_bytes e =
    elim (Bool-cases (is_current (lsn_2_block lsn s.block_size) s.cur_block)) [
      | inl current ↦ (s, ground arith, refl, ground arith)
      | inr other ↦
          let id = lsn_2_block lsn s.block_size in
          let opened = open_block_success os id s in
          ((open_block os id s).0, ground (arith, opened), ground (arith, opened), ground arith)
    ]

pub append-Holds :
    (os : Os) (lsn : ℕ) (bytes : List ℕ) (s s' : LogStorage)
    → 0 < length bytes
    → append os lsn bytes s ≡ (s', success)
    → Holds (lsn_2_block lsn s.block_size) (lsn_2_offset lsn s.block_size) bytes s'
      × (s'.block_size ≡ s.block_size)
append-Holds os lsn bytes s s' some_bytes e =
    let (t, inited, size, wrote) = append_opened os lsn bytes s s' some_bytes e in
    let (holds, same) = write_block-Holds os _ _ bytes t s' inited wrote in (holds, same ∙ size)

-- What is appended is read back. An append that succeeds, of bytes that end within their block,
-- leaves a log in which a read at the same LSN, of their length into a buffer that takes them, whose
-- system calls succeed, returns exactly those bytes, whatever was in the block before.
pub read-append :
    (os os' : Os) (lsn capacity : ℕ) (bytes : List ℕ) (s s' : LogStorage)
    → 0 < length bytes
    → lsn_2_offset lsn s.block_size + length bytes ≤ s.block_size
    → length bytes ≤ capacity
    → IsReadable os'
    → append os lsn bytes s ≡ (s', success)
    → read os' lsn (length bytes) capacity s' ≡ some bytes
unfolding read File.read
read-append os os' lsn capacity bytes s s' some_bytes within fits readable e =
    let (holds, size) = append-Holds os lsn bytes s s' some_bytes e in
    ground (arith, holds.found, holds.same, holds.room, holds.inited, size)

-- A longer read of a place that holds bytes returns them in front of whatever lies behind them.
pub read-Holds :
    (os : Os) (lsn capacity : ℕ) (bytes : List ℕ) (s : LogStorage)
    → Holds (lsn_2_block lsn s.block_size) (lsn_2_offset lsn s.block_size) bytes s
    → lsn_2_offset lsn s.block_size + length bytes ≤ s.block_size
    → length bytes ≤ capacity
    → IsReadable os
    → (got : List ℕ) × (read os lsn capacity capacity s ≡ some got)
      × (take (length bytes) got ≡ bytes)
      × (length bytes ≤ length got)
unfolding read File.read
read-Holds os lsn capacity bytes s holds within fits readable =
    let offset = lsn_2_offset lsn s.block_size in
    let n = if ltb s.block_size (offset + capacity) then s.block_size - offset else capacity in
    let at = offset + max_info_block_size in
    let long : length bytes ≤ n = ground arith in
    (
      File.read n at holds.file,
      ground (arith, holds.found, holds.inited),
      take-peek (length bytes) _ at holds.file.byte (omega (arith, holds.room)) ∙ holds.same,
      omega (arith, holds.room, length-peek (min n (holds.file.size - at)) at holds.file.byte),
    )

-- A read never returns a byte from behind the end of its block, however much is asked for, so that
-- of an entry that was written across that end the rest stays unread.
pub read_crossing :
    (os : Os) (lsn in_size capacity : ℕ) (s : LogStorage) (bytes : List ℕ)
    → 0 < s.block_size
    → read os lsn in_size capacity s ≡ some bytes
    → lsn_2_offset lsn s.block_size + length bytes ≤ s.block_size
unfolding read lsn_2_offset
read_crossing os lsn in_size capacity s bytes pos e =
    elim (Option-cases (Assoc.lookup (lsn_2_block lsn s.block_size) s.files)) [
      | inl missing ↦ ground arith
      | inr (f, found) ↦
          let at = lsn % s.block_size + max_info_block_size in
          let asked = if ltb capacity in_size then capacity else in_size in
          ground (
            arith,
            length-read-le (s.block_size - lsn % s.block_size) at f,
            length-read-le asked at f,
          )
    ]

-- A shorter read returns the front of what was appended.
pub read-append_front :
    (os os' : Os) (lsn capacity n : ℕ) (bytes : List ℕ) (s s' : LogStorage)
    → 0 < length bytes
    → lsn_2_offset lsn s.block_size + length bytes ≤ s.block_size
    → n ≤ length bytes
    → n ≤ capacity
    → IsReadable os'
    → append os lsn bytes s ≡ (s', success)
    → read os' lsn n capacity s' ≡ some (take n bytes)
unfolding read File.read
read-append_front os os' lsn capacity n bytes s s' some_bytes within short fits readable e =
    let (holds, size) = append-Holds os lsn bytes s s' some_bytes e in
    let offset = lsn_2_offset lsn s.block_size in
    let front = take-peek n (length bytes) (offset + max_info_block_size) holds.file.byte short in
    ground (arith, holds.found, holds.same, holds.room, holds.inited, size, front)
