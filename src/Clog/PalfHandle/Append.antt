-- ===== src/Clog/PalfHandle/Append.antt =====
-- PalfHandleImpl::do_append_: what an entry holds on disk, and what the next one starts at.
use lsm_storage.Prelude.{
  ℕ, ◌+◌, ◌*◌, ◌/◌, ◌^◌, ◌≤◌, ◌<◌, some, List, length, drop, success, ◌≡◌, sym, ap, ◌∙◌, arith,
}
use lsm_storage.Prelude.Buffer.{put, fetch, drop-put, length-put}
use lsm_storage.Clog.Header.{
  LogGroupEntryHeader, group_header_size, serialize_group_header, store_group_header,
  load_group_header,
}
use lsm_storage.Clog.Header.RoundTrip.{
  Fits, load-store_group_header, length-store_group_header, load-put,
}
use lsm_storage.Clog.LogStorage.{LogStorage, Os, lsn_2_offset}
use lsm_storage.Clog.LogStorage
use lsm_storage.Clog.LogStorage.Append.{IsReadable, read-append}
use lsm_storage.Clog.PalfHandle.{PalfHandle, group_header, frame, do_append}

-- The counters of a handle are in the ranges of their types, and there is room for an entry of `n`
-- bytes before any of them wraps.
pub record HasRoom (n : ℕ) (p : PalfHandle) : Type 0 where
  pub entry : group_header_size + n < 2 ^ 32
  pub lsn : p.max_lsn + n + group_header_size < 2 ^ 64
  pub end_lsn : p.end_lsn < 2 ^ 64
  pub log_id : p.log_id < 2 ^ 64
  pub proposal : p.proposal_id < 2 ^ 64

group_header-Fits : (n : ℕ) (p : PalfHandle) → HasRoom n p → Fits (group_header n p)
unfolding group_header
group_header-Fits n p room = record {
  magic = omega arith;
  version = omega arith;
  group_entry_size = omega arith;
  log_id = room.log_id;
  log_proposal_id = room.proposal;
  prev_lsn = ground arith;
  committed_end_lsn = omega arith;
  data_checksum = omega arith;
}

-- The header that a reader of an entry finds.
abbrev pub read_back : List ℕ → ℕ → PalfHandle → LogGroupEntryHeader
read_back garbage n p = record (group_header n p) {
  log_id = p.log_id / 2 ^ 32 * 2 ^ 32;
  data_checksum = fetch 4 40 garbage;
}

read_back_shape :
    (garbage : List ℕ) (n : ℕ) (p : PalfHandle)
    → record (group_header n p) {
      log_id = (group_header n p).log_id / 2 ^ 32 * 2 ^ 32 + (group_header n p).data_checksum;
      data_checksum = fetch 4 40 garbage;
    }
      ≡ read_back garbage n p
unfolding group_header
read_back_shape garbage n p = ground arith

frame-put :
    (garbage bytes : List ℕ) (p : PalfHandle)
    → HasRoom (length bytes) p
    → frame garbage bytes p
      ≡ put group_header_size bytes (store_group_header (group_header (length bytes) p) 0 garbage)
unfolding frame serialize_group_header
frame-put garbage bytes p room = ground arith

module _ (garbage bytes : List ℕ) (p : PalfHandle) (room : HasRoom (length bytes) p)
    (size : length garbage ≡ group_header_size + length bytes) where
  abbrev header : LogGroupEntryHeader
  header = group_header (length bytes) p

  stored_size : length (store_group_header header 0 garbage) ≡ group_header_size + length bytes
  stored_size = length-store_group_header header 0 garbage (omega arith) ∙ size

  length-frame : length (frame garbage bytes p) ≡ group_header_size + length bytes
  length-frame =
      rw (frame-put garbage bytes p room)
        (length-put group_header_size bytes _ (omega (arith, stored_size)) ∙ stored_size)

  -- An entry is its header and, behind it, the payload.
  pub frame_parts :
      (length (frame garbage bytes p) ≡ group_header_size + length bytes)
      × (drop group_header_size (frame garbage bytes p) ≡ bytes)
      × (load_group_header (frame garbage bytes p) 0 ≡ read_back garbage (length bytes) p)
  frame_parts = (
    length-frame,
    rw (frame-put garbage bytes p room) (drop-put group_header_size bytes _ (sym stored_size)),
    rw (frame-put garbage bytes p room) (
        load-put bytes _ (omega (arith, stored_size))
        ∙ load-store_group_header header 0 garbage (group_header-Fits _ p room) (omega arith)
        ∙ read_back_shape garbage (length bytes) p),
  )

pub do_append_success :
    (os : Os) (garbage bytes : List ℕ) (p p' : PalfHandle)
    → HasRoom (length bytes) p
    → do_append os garbage bytes p ≡ (p', success)
    → (LogStorage.append os p.max_lsn (frame garbage bytes p) p.storage ≡ (p'.storage, success))
      × (p'.max_lsn ≡ p.max_lsn + (group_header_size + length bytes))
      × (p'.end_lsn ≡ p'.max_lsn)
      × (p'.log_id ≡ p.log_id + 1)
unfolding do_append
do_append_success os garbage bytes p p' room e = ground arith

-- An entry on disk. After an append that succeeds, of an entry within its block and with counters
-- that do not wrap, a read at the LSN that it was
-- given returns the whole entry: the payload behind a header that ends where the next append will
-- start, and names the size of the entry. Of the log id only the upper half is there.
pub read-do_append :
    (os os' : Os) (garbage bytes : List ℕ) (capacity : ℕ) (p p' : PalfHandle)
    → HasRoom (length bytes) p
    → length garbage ≡ group_header_size + length bytes
    → lsn_2_offset p.max_lsn p.storage.block_size + (group_header_size + length bytes)
      ≤ p.storage.block_size
    → group_header_size + length bytes ≤ capacity
    → IsReadable os'
    → do_append os garbage bytes p ≡ (p', success)
    → (entry : List ℕ) × (LogStorage.read os' p.max_lsn
          (group_header_size + length bytes)
          capacity
          p'.storage
        ≡ some entry)
      × (drop group_header_size entry ≡ bytes)
      × (load_group_header entry 0 ≡ read_back garbage (length bytes) p)
      × ((load_group_header entry 0).committed_end_lsn ≡ p'.max_lsn)
      × ((load_group_header entry 0).group_entry_size ≡ group_header_size + length bytes)
      × (p'.max_lsn ≡ p.max_lsn + (group_header_size + length bytes))
      × (p'.end_lsn ≡ p'.max_lsn)
unfolding group_header
read-do_append os os' garbage bytes capacity p p' room size within fits readable e =
    let (wrote, next, ended, _) = do_append_success os garbage bytes p p' room e in
    let (long, payload, header) = frame_parts garbage bytes p room size in
    let entry = frame garbage bytes p in
    (
      entry,
      rw (← long) (
          read-append os os' p.max_lsn capacity entry p.storage p'.storage (omega (arith, long))
            (omega (arith, long)) (omega (arith, long)) readable wrote),
      payload,
      header,
      ap (λ h. h.committed_end_lsn) header ∙ omega (arith, next, room.lsn),
      ap (λ h. h.group_entry_size) header ∙ omega (arith, room.entry),
      next,
      ended,
    )
