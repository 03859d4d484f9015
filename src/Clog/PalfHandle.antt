-- ===== src/Clog/PalfHandle.antt =====
-- palf/palf_handle_impl.h, palf_handle_impl.cpp and log_cache.h: one log stream, which gives each
-- append its LSN and frames it with a group header.
pub mod Append
pub mod Restart
pub mod Scan
use lsm_storage.Prelude.{
  ℕ, zero, suc, ◌+◌, ◌-◌, ◌*◌, ◌%◌, ◌^◌, Bool, true, false, ◌&&◌, ◌||◌, not, Option, none, some,
  List, [], ◌∷◌, length, take, drop, ltb, leb, ◌==◌, if◌then◌else◌, Ret, success, failure,
}
use lsm_storage.Prelude.Buffer.{put}
use lsm_storage.Clog.Header.{
  LogGroupEntryHeader, new_group_header, is_valid, group_header_size, serialize_group_header,
  deserialize_group_header,
}
use lsm_storage.Clog.LogStorage.{LogStorage, Os, palf_block_size, get_begin_lsn}
use lsm_storage.Clog.LogStorage

-- The bytes from begin_lsn_ to end_lsn_.
pub record LogCache : Type 0 where
  pub is_inited : Bool
  pub begin_lsn : ℕ
  pub bytes : List ℕ
  pub capacity : ℕ

pub cache_put : ℕ → List ℕ → LogCache → LogCache × Ret
cache_put lsn bytes c =
    if ltb c.capacity (length bytes)
    then (c, failure)
    else (record c { begin_lsn = lsn; bytes = bytes }, success)

unfoldable pub cache_get : ℕ → ℕ → LogCache → Option (List ℕ)
cache_get lsn n c =
    if c.is_inited && leb c.begin_lsn lsn && ltb lsn (c.begin_lsn + length c.bytes)
    then some (take n (drop (lsn - c.begin_lsn) c.bytes))
    else none

pub record PalfHandle : Type 0 where
  pub palf_id : ℕ
  pub epoch : ℕ
  pub storage : LogStorage
  pub cache : LogCache
  pub end_lsn : ℕ
  pub max_lsn : ℕ
  pub log_id : ℕ
  pub proposal_id : ℕ
  pub role : ℕ
  pub is_inited : Bool

abbrev buffer_size : ℕ
buffer_size = 4096

-- The header at an LSN, as both scans read it: none where the loop breaks before it has one.
unfoldable pub header_at : Os → ℕ → LogStorage → Option LogGroupEntryHeader
header_at os lsn s = elim (LogStorage.read os lsn buffer_size buffer_size s) [
  | none ↦ none
  | some bytes ↦
      if ltb (length bytes) group_header_size
      then none
      else elim (deserialize_group_header bytes (length bytes) 0) [
        | none ↦ none
        | some (h, pos) ↦ if is_valid h then some h else none
      ]
]

-- The loop of init: the last LSN that a valid header ended at. None is out of fuel.
unfoldable pub scan_end : ℕ → Os → ℕ → LogStorage → Option ℕ
scan_end zero os lsn s = none
scan_end (suc fuel) os lsn s = elim (header_at os lsn s) [
  | none ↦ some lsn
  | some h ↦
      let rest = scan_end fuel os h.committed_end_lsn s in
      if leb h.committed_end_lsn lsn then some h.committed_end_lsn else rest
]

init_scanned : ℕ → Os → PalfHandle → Option (PalfHandle × Ret)
init_scanned fuel os p = elim (scan_end fuel os (get_begin_lsn p.storage) p.storage) [
  | none ↦ none
  | some lsn ↦
      some (record p { end_lsn = lsn; max_lsn = lsn; log_id = if ltb 0 lsn then 2 else 1 }, success)
]

unfoldable pub init : ℕ → Os → ℕ → PalfHandle → Option (PalfHandle × Ret)
unfolding init_scanned
init fuel os palf_id p =
    if p.is_inited
    then some (p, failure)
    else let (storage, ret) = LogStorage.init os palf_block_size p.storage in
      let named = record p { palf_id = palf_id; epoch = 1; storage = storage } in
      elim ret [
        | failure ↦ some (named, failure)
        | success ↦ init_scanned fuel os (record named { is_inited = true })
      ]

-- The second scan, of load; it has no test that the LSN grows.
unfoldable pub load_scan : ℕ → Os → ℕ → LogStorage → Option ℕ
load_scan zero os lsn s = none
load_scan (suc fuel) os lsn s = elim (header_at os lsn s) [
  | none ↦ some lsn
  | some h ↦
      let rest = load_scan fuel os h.committed_end_lsn s in
      if h.committed_end_lsn == 0 then some 0 else rest
]

load_inited : ℕ → Os → PalfHandle → Option (PalfHandle × Ret)
load_inited fuel os p =
    if (p.storage.min_block_id == p.storage.max_block_id)
      && (p.storage.min_block_id == 0)
      && (get_begin_lsn p.storage == 0)
    then some (record p { end_lsn = 0; max_lsn = 0 }, success)
    else elim (load_scan fuel os (get_begin_lsn p.storage) p.storage) [
      | none ↦ none
      | some lsn ↦ some (record p { end_lsn = lsn; max_lsn = lsn }, success)
    ]

unfoldable pub load : ℕ → Os → ℕ → PalfHandle → Option (PalfHandle × Ret)
unfolding load_inited
load fuel os palf_id p = elim (init fuel os palf_id p) [
  | none ↦ none
  | some (p', ret) ↦ elim ret [ failure ↦ some (p', failure) | success ↦ load_inited fuel os p' ]
]

-- The header of an append of `n` bytes.
unfoldable pub group_header : ℕ → PalfHandle → LogGroupEntryHeader
group_header n p = record new_group_header {
  log_id = p.log_id;
  log_proposal_id = p.proposal_id;
  prev_lsn = if ltb 0 p.end_lsn then p.end_lsn else 0;
  committed_end_lsn = (p.max_lsn + n + group_header_size) % 2 ^ 64;
  group_entry_size = (group_header_size + n) % 2 ^ 32;
}

-- The bytes of the entry, in a buffer from malloc that held `garbage`.
unfoldable pub frame : List ℕ → List ℕ → PalfHandle → List ℕ
unfolding group_header
frame garbage bytes p =
    let h = group_header (length bytes) p in
    elim (serialize_group_header h h.group_entry_size garbage 0) [
      | none ↦ put 0 bytes garbage
      | some (out, pos) ↦ put pos bytes out
    ]

-- The LSN that is given out is max_lsn_.
unfoldable pub do_append : Os → List ℕ → List ℕ → PalfHandle → PalfHandle × Ret
do_append os garbage bytes p =
    let total = (group_header_size + length bytes) % 2 ^ 32 in
    let (storage, ret) = LogStorage.append os p.max_lsn (frame garbage bytes p) p.storage in
    let sent = record p { log_id = p.log_id + 1; storage = storage } in
    elim ret [
      | failure ↦ (sent, failure)
      | success ↦ (
        record sent {
          end_lsn = (p.max_lsn + total) % 2 ^ 64;
          max_lsn = (p.max_lsn + total) % 2 ^ 64;
        },
        success,
      )
    ]

-- With the LSN and the SCN of the entry.
unfoldable pub append : Os → List ℕ → List ℕ → PalfHandle → PalfHandle × Option (ℕ × ℕ)
append os garbage bytes p =
    if not p.is_inited
    then (p, none)
    else let (p', ret) = do_append os garbage bytes p in
      elim ret [ failure ↦ (p', none) | success ↦ (p', some (p.max_lsn, p'.log_id - 1)) ]

unfoldable pub read : Os → ℕ → ℕ → ℕ → PalfHandle → Option (List ℕ)
unfolding cache_get
read os lsn n capacity p = if not p.is_inited then none else elim (cache_get lsn n p.cache) [
  | some bytes ↦ some bytes
  | none ↦ LogStorage.read os lsn n capacity p.storage
]

pub seek : ℕ → PalfHandle → PalfHandle × Ret
seek lsn p = if p.is_inited then (record p { end_lsn = lsn }, success) else (p, failure)
