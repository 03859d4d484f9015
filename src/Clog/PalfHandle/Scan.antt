-- ===== src/Clog/PalfHandle/Scan.antt =====
-- The scans by which a handle finds the end of its log when it starts.
use lsm_storage.Prelude.{
  ℕ, zero, suc, ◌+◌, ◌*◌, ◌/◌, ◌<◌, some, leb, success, Option-cases, Bool-cases, ◌≡◌, refl, inl,
  inr, arith,
}
use lsm_storage.Prelude.Assoc
use lsm_storage.Prelude.File.{File}
use lsm_storage.Clog.Header.{LogGroupEntryHeader}
use lsm_storage.Clog.LogStorage.{LogStorage, Os, lsn_2_block, lsn_2_offset, get_begin_lsn}
use lsm_storage.Clog.LogStorage
use lsm_storage.Clog.PalfHandle.{PalfHandle, header_at, scan_end, init, load}

-- Every block file has an id below `blocks`.
abbrev pub IsBounded : ℕ → LogStorage → Type 0
IsBounded blocks s = (id : ℕ) (f : File) → Assoc.lookup id s.files ≡ some f → id < blocks

-- There is a header only where there is a block.
header_at_block :
    (os : Os) (lsn blocks : ℕ) (s : LogStorage) (h : LogGroupEntryHeader)
    → 0 < s.block_size
    → IsBounded blocks s
    → header_at os lsn s ≡ some h
    → lsn < blocks * s.block_size
unfolding header_at LogStorage.read lsn_2_block
header_at_block os lsn blocks s h pos bounded e =
    elim (Option-cases (Assoc.lookup (lsn / s.block_size) s.files)) [
      | inl missing ↦ ground arith
      | inr (f, found) ↦ let below = bounded (lsn / s.block_size) f found in grind arith
    ]

-- The scan of init ends: where every block has an id below `blocks`, with more rounds than there are LSNs from the start to the end of the
-- last block, it finds an LSN.
pub scan_end_total :
    (fuel : ℕ) (os : Os) (lsn blocks : ℕ) (s : LogStorage)
    → 0 < s.block_size
    → IsBounded blocks s
    → blocks * s.block_size < fuel + lsn
    → 0 < fuel
    → (end_lsn : ℕ) × (scan_end fuel os lsn s ≡ some end_lsn)
unfolding scan_end
scan_end_total zero os lsn blocks s pos bounded enough some_fuel = elim some_fuel [ ]
scan_end_total (suc fuel) os lsn blocks s pos bounded enough some_fuel =
    elim (Option-cases (header_at os lsn s)) [
      | inl e ↦ (lsn, rw (e, scan_end) refl)
      | inr (h, e) ↦ elim (Bool-cases (leb h.committed_end_lsn lsn)) [
        | inl back ↦ (h.committed_end_lsn, rw (e, back, scan_end) refl)
        | inr on ↦
            let below = header_at_block os lsn blocks s h pos bounded e in
            let (end_lsn, done) =
              scan_end_total fuel os h.committed_end_lsn blocks s pos bounded (ground arith)
                (omega arith) in
            (end_lsn, rw (e, on, scan_end) done)
      ]
    ]

-- What load forgets: where the log is still in its first block, a load that gets through init
-- succeeds with the end of the log at LSN 0, whatever entries the block holds, so that the next
-- append overwrites them.
pub load_first_block :
    (fuel : ℕ) (os : Os) (palf_id : ℕ) (p q : PalfHandle)
    → init fuel os palf_id p ≡ some (q, success)
    → q.storage.min_block_id ≡ 0
    → q.storage.max_block_id ≡ 0
    → load fuel os palf_id p ≡ some (record q { end_lsn = 0; max_lsn = 0 }, success)
unfolding load get_begin_lsn
load_first_block fuel os palf_id p q started first last = ground arith
