-- ===== src/Clog/PalfHandle/Restart.antt =====
-- A restart over a log whose only block is block 0.
use lsm_storage.Prelude.{
  ℕ, zero, suc, ◌+◌, ◌/◌, ◌^◌, ◌≤◌, ◌<◌, true, false, some, List, length, drop, success,
  Option-cases, subst, ltb, if◌then◌else◌, [], ◌∷◌, ◌≡◌, refl, sym, ap, ◌∙◌, inl, inr, arith,
}
use lsm_storage.Prelude.Assoc
use lsm_storage.Prelude.File.{File}
use lsm_storage.Clog.LogStorage.{
  LogStorage, Os, lsn_2_offset, lsn_2_block, get_begin_lsn, count_blocks,
}
use lsm_storage.Clog.LogStorage
use lsm_storage.Clog.Header.{group_header_size}
use lsm_storage.Clog.LogStorage.Append.{IsReadable}
use lsm_storage.Clog.PalfHandle.{
  PalfHandle, frame, scan_end, init, init_scanned, load, do_append, palf_block_size,
}
use lsm_storage.Clog.PalfHandle.Append.{HasRoom, frame_parts, read-do_append}
use lsm_storage.Clog.PalfHandle.Scan.{IsBounded, scan_end_total, load_first_block}

-- A new handle over the files that another leaves.
abbrev pub reopened : PalfHandle → PalfHandle → PalfHandle
reopened fresh p = record fresh {
  is_inited = false;
  storage = record fresh.storage { is_inited = false; files = p.storage.files };
}

-- The storage once init has found one block.
abbrev found_one : PalfHandle → PalfHandle → LogStorage
found_one fresh p = record fresh.storage {
  files = p.storage.files;
  block_size = palf_block_size;
  min_block_id = 0;
  max_block_id = 0;
  is_inited = true;
}

one_block :
    (fuel : ℕ) (s : LogStorage) (f : File)
    → IsBounded 1 s
    → Assoc.lookup 0 s.files ≡ some f
    → count_blocks (suc fuel) 0 s.files ≡ 1
unfolding count_blocks
one_block zero s f bounded e = rw (e, count_blocks) refl
one_block (suc fuel) s f bounded e = elim (Option-cases (Assoc.lookup 1 s.files)) [
  | inl missing ↦ rw (e, missing, count_blocks) refl
  | inr (g, there) ↦ let below = bounded 1 g there in absurd (omega arith)
]

counted :
    (files : List (ℕ × File)) (f : File) (s : LogStorage)
    → s.files ≡ files
    → IsBounded 1 s
    → Assoc.lookup 0 files ≡ some f
    → count_blocks (length files) 0 files ≡ 1
unfolding Assoc.lookup
counted [] f s same bounded e = cc
counted (entry ∷ files) f s same bounded e =
    subst (λ fs. count_blocks (suc (length files)) 0 fs ≡ 1) same
      (one_block (length files) s f bounded (ap (Assoc.lookup 0) same ∙ e))

init_storage :
    (os : Os) (fresh p : PalfHandle)
    → count_blocks (length p.storage.files) 0 p.storage.files ≡ 1
    → LogStorage.init os palf_block_size (reopened fresh p).storage ≡ (found_one fresh p, success)
unfolding LogStorage.init
init_storage os fresh p one = rw one refl

-- A read that finds something finds a block.
read_block :
    (os : Os) (lsn in_size capacity : ℕ) (s : LogStorage) (got : List ℕ)
    → LogStorage.read os lsn in_size capacity s ≡ some got
    → (f : File) × (Assoc.lookup (lsn_2_block lsn s.block_size) s.files ≡ some f)
unfolding LogStorage.read
read_block os lsn in_size capacity s got e =
    elim (Option-cases (Assoc.lookup (lsn_2_block lsn s.block_size) s.files)) [
      | inl missing ↦ ground arith
      | inr found ↦ found
    ]

-- What the system answers when all goes well.
abbrev pub IsWritable : ℕ → Os → Type 0
IsWritable n os = (os.opens ≡ true) × (os.seeks ≡ true) × (os.writes n ≡ some n)

append_ok :
    (os : Os) (lsn : ℕ) (bytes : List ℕ) (s : LogStorage)
    → s.is_inited ≡ true
    → IsWritable (length bytes) os
    → (LogStorage.append os lsn bytes s).1 ≡ success
unfolding LogStorage.append LogStorage.open_block LogStorage.write_block
append_ok os lsn bytes s inited (opens, seeks, writes) = ground arith

-- The handle that load hands out; the scan of init went up to `lsn`.
abbrev loaded : ℕ → ℕ → PalfHandle → PalfHandle → PalfHandle
loaded palf_id lsn fresh p = record fresh {
  palf_id = palf_id;
  epoch = 1;
  storage = found_one fresh p;
  end_lsn = 0;
  max_lsn = 0;
  log_id = if ltb 0 lsn then 2 else 1;
  is_inited = true;
}

init_reopened :
    (fuel : ℕ) (os : Os) (palf_id lsn : ℕ) (fresh p : PalfHandle)
    → LogStorage.init os palf_block_size (reopened fresh p).storage ≡ (found_one fresh p, success)
    → scan_end fuel os 0 (found_one fresh p) ≡ some lsn
    → init fuel os palf_id (reopened fresh p)
      ≡ some (record (loaded palf_id lsn fresh p) { end_lsn = lsn; max_lsn = lsn }, success)
unfolding init init_scanned get_begin_lsn
init_reopened fuel os palf_id lsn fresh p began scanned = ground (arith, began, scanned)

load-reopened :
    (fuel : ℕ) (os : Os) (palf_id : ℕ) (fresh p : PalfHandle)
    → count_blocks (length p.storage.files) 0 p.storage.files ≡ 1
    → IsBounded 1 p.storage
    → palf_block_size < fuel
    → (lsn : ℕ) × (load fuel os palf_id (reopened fresh p)
        ≡ some (loaded palf_id lsn fresh p, success))
load-reopened fuel os palf_id fresh p one bounded enough =
    let (lsn, scanned) =
      scan_end_total fuel os 0 1 (found_one fresh p) (omega arith) bounded (omega arith)
        (omega arith) in
    (
      lsn,
      load_first_block fuel os palf_id (reopened fresh p)
          (record (loaded palf_id lsn fresh p) { end_lsn = lsn; max_lsn = lsn })
          (init_reopened fuel os palf_id lsn fresh p (init_storage os fresh p one) scanned) refl
          refl,
    )

do_append_ok :
    (os : Os) (garbage bytes : List ℕ) (p : PalfHandle)
    → (LogStorage.append os p.max_lsn (frame garbage bytes p) p.storage).1 ≡ success
    → (do_append os garbage bytes p).1 ≡ success
unfolding do_append
do_append_ok os garbage bytes p e = ground arith

-- A payload whose entry fits into a block and into the buffer of a reader, with the bytes that the
-- buffer of the entry held.
pub record IsEntry (capacity : ℕ) (garbage bytes : List ℕ) : Type 0 where
  pub sized : length garbage ≡ group_header_size + length bytes
  pub within : group_header_size + length bytes ≤ palf_block_size
  pub read_whole : group_header_size + length bytes ≤ capacity

loaded-HasRoom :
    (palf_id lsn capacity : ℕ) (garbage bytes : List ℕ) (fresh p : PalfHandle)
    → fresh.proposal_id < 2 ^ 64
    → IsEntry capacity garbage bytes
    → HasRoom (length bytes) (loaded palf_id lsn fresh p)
loaded-HasRoom palf_id lsn capacity garbage bytes fresh p small entry = record {
  entry = omega (arith, entry.within);
  lsn = omega (arith, entry.within);
  end_lsn = omega arith;
  log_id = ground arith;
  proposal = small;
}

loaded-do_append :
    (os : Os) (capacity : ℕ) (garbage bytes : List ℕ) (p : PalfHandle)
    → HasRoom (length bytes) p
    → IsEntry capacity garbage bytes
    → p.storage.is_inited ≡ true
    → IsWritable (group_header_size + length bytes) os
    → (do_append os garbage bytes p).1 ≡ success
loaded-do_append os capacity garbage bytes p room entry inited writable =
    let long = (frame_parts garbage bytes p room entry.sized).0 in
    do_append_ok os garbage bytes p (
      append_ok os p.max_lsn (frame garbage bytes p) p.storage inited
        (subst (λ n. IsWritable n os) (sym long) writable))

-- An entry that is written at LSN 0 is read there.
first_read :
    (os : Os) (capacity : ℕ) (garbage bytes : List ℕ) (p p' : PalfHandle)
    → p.max_lsn ≡ 0
    → p.storage.block_size ≡ palf_block_size
    → HasRoom (length bytes) p
    → IsEntry capacity garbage bytes
    → IsReadable os
    → do_append os garbage bytes p ≡ (p', success)
    → (got : List ℕ) × (LogStorage.read os 0 (group_header_size + length bytes) capacity p'.storage
        ≡ some got)
      × (drop group_header_size got ≡ bytes)
unfolding lsn_2_offset
first_read os capacity garbage bytes p p' start sized room entry readable e =
    let n = group_header_size + length bytes in
    let within : lsn_2_offset p.max_lsn p.storage.block_size + n ≤ p.storage.block_size =
      rw (start, sized) (omega (arith, entry.within)) in
    let (got, read, payload, _, _, _, _, _) =
      read-do_append os os garbage bytes capacity p p' room entry.sized within entry.read_whole
        readable e in
    (
      got,
      subst (λ lsn. LogStorage.read os lsn n capacity p'.storage ≡ some got) start read,
      payload,
    )

one_found :
    (os : Os) (n capacity : ℕ) (p : PalfHandle) (got : List ℕ)
    → IsBounded 1 p.storage
    → LogStorage.read os 0 n capacity p.storage ≡ some got
    → count_blocks (length p.storage.files) 0 p.storage.files ≡ 1
unfolding lsn_2_block
one_found os n capacity p got only e =
    let (f, found) = read_block os 0 n capacity p.storage got e in
    let block : 0 / p.storage.block_size ≡ 0 = omega arith in
    counted p.storage.files f p.storage refl only
      (subst (λ id. Assoc.lookup id p.storage.files ≡ some f) block found)

-- The first entry of a log does not survive a restart. Where a handle with blocks of the size that
-- init sets and counters that do not wrap has written `first`, whose entry fits into a block and
-- into the buffer of a read, at LSN 0 of a log whose only block is block 0, and the process starts
-- again, under a system whose calls succeed: `first` can be read at LSN 0; a load by a new handle
-- over the same files, with more rounds than a block has bytes, succeeds but ends at LSN 0; the
-- next append, of a payload `second` that fits as well, succeeds; and what is then read at LSN 0 is
-- `second`.
pub load-overwrites :
    (fuel : ℕ) (os : Os) (palf_id capacity : ℕ) (garbage first garbage' second : List ℕ)
    (p p' fresh : PalfHandle)
    → p.max_lsn ≡ 0
    → p.storage.block_size ≡ palf_block_size
    → HasRoom (length first) p
    → IsEntry capacity garbage first
    → do_append os garbage first p ≡ (p', success)
    → IsBounded 1 p'.storage
    → fresh.proposal_id < 2 ^ 64
    → IsEntry capacity garbage' second
    → IsReadable os
    → IsWritable (group_header_size + length second) os
    → palf_block_size < fuel
    → (r : PalfHandle) × (load fuel os palf_id (reopened fresh p') ≡ some (r, success))
      × (r.end_lsn ≡ 0)
      × ((do_append os garbage' second r).1 ≡ success)
      × (old new : List ℕ) × (LogStorage.read os 0
            (group_header_size + length first)
            capacity
            p'.storage
          ≡ some old)
      × (drop group_header_size old ≡ first)
      × (LogStorage.read os 0
            (group_header_size + length second)
            capacity
            (do_append os garbage' second r).0.storage
          ≡ some new)
      × (drop group_header_size new ≡ second)
load-overwrites fuel os palf_id capacity garbage first garbage' second p p' fresh start sized room
      fits e only small fits' readable writable enough =
    let (old, got, was) =
      first_read os capacity garbage first p p' start sized room fits readable e in
    let one = one_found os (group_header_size + length first) capacity p' old only got in
    let (lsn, done) = load-reopened fuel os palf_id fresh p' one only enough in
    let r = loaded palf_id lsn fresh p' in
    let room' = loaded-HasRoom palf_id lsn capacity garbage' second fresh p' small fits' in
    let ok = loaded-do_append os capacity garbage' second r room' fits' refl writable in
    let (new, again, is) =
      first_read os capacity garbage' second r (do_append os garbage' second r).0 refl refl room'
        fits' readable (ap (λ ret. ((do_append os garbage' second r).0, ret)) ok) in
    (r, done, refl, ok, old, new, got, was, again, is)
