-- ===== src/Clog/LogService/Step.antt =====
-- One round of replay_ls over an entry that the handler appended.
use lsm_storage.Prelude.{
  ℕ, suc, ◌+◌, ◌-◌, ◌^◌, ◌≤◌, ◌<◌, true, false, some, List, [], length, take, drop, ltb, leb, Ret,
  success, ◌≡◌, refl, sym, subst, ap, ◌∙◌, arith, drop-take,
}
use lsm_storage.Prelude.Assoc
use lsm_storage.Prelude.Buffer.{put, take-put}
use lsm_storage.Clog.Header.{
  LogGroupEntryHeader, is_valid, group_header_size, base_header_size, load_group_header,
  deserialize_group_header,
}
use lsm_storage.Clog.Header.RoundTrip.{load-take}
use lsm_storage.Clog.LogStorage.{LogStorage, Os, lsn_2_block, lsn_2_offset}
use lsm_storage.Clog.LogStorage
use lsm_storage.Clog.LogStorage.Append.{IsReadable, Holds, read-Holds, append-Holds}
use lsm_storage.Clog.PalfHandle.{PalfHandle, do_append, cache_get, frame, group_header}
use lsm_storage.Clog.PalfHandle
use lsm_storage.Clog.PalfHandle.Append.{HasRoom, read_back, frame_parts, do_append_success}
use lsm_storage.Clog.LogHandler.{LogHandler, envelope}
use lsm_storage.Clog.LogHandler
use lsm_storage.Clog.LogHandler.RoundTrip.{replay-envelope, length-envelope}
use lsm_storage.Clog.LogService.{parse_group, deliver_payload, replay_loop, buffer_size}

-- What a buffer of the loop holds in front: a whole entry.
module _ (buf entry : List ℕ) (front : take (length entry) buf ≡ entry)
    (long : group_header_size ≤ length entry) where
  front_header : load_group_header buf 0 ≡ load_group_header entry 0
  front_header = sym (load-take (length entry) buf long) ∙ ap (λ xs. load_group_header xs 0) front

  front_payload :
      take (length entry - group_header_size) (drop group_header_size buf)
      ≡ drop group_header_size entry
  front_payload =
      sym (drop-take group_header_size (length entry) _ buf (omega arith))
      ∙ ap (drop group_header_size) front

  front_group :
      (out_size : ℕ)
      → length entry ≤ out_size
      → is_valid (load_group_header entry 0) ≡ true
      → parse_group buf out_size ≡ some (load_group_header entry 0)
  unfolding parse_group deserialize_group_header is_valid
  front_group out_size enough valid = ground (arith, front_header)

read_back-valid :
    (garbage : List ℕ) (n : ℕ) (p : PalfHandle) → is_valid (read_back garbage n p) ≡ true
unfolding is_valid group_header
read_back-valid garbage n p = refl

pub do_append_kept :
    (os : Os) (garbage bytes : List ℕ) (p p' : PalfHandle)
    → do_append os garbage bytes p ≡ (p', success)
    → (p'.is_inited ≡ p.is_inited) × (p'.cache ≡ p.cache)
unfolding do_append
do_append_kept os garbage bytes p p' e = ground arith

-- A handle whose cache is empty reads from the blocks.
read_uncached :
    (os : Os) (lsn n capacity : ℕ) (p : PalfHandle)
    → p.is_inited ≡ true
    → p.cache.bytes ≡ []
    → PalfHandle.read os lsn n capacity p ≡ LogStorage.read os lsn n capacity p.storage
unfolding PalfHandle.read cache_get
read_uncached os lsn n capacity p on empty = ground arith

module _ {ℓ} {S : Type ℓ} (deliver : ℕ → List ℕ → S → S × Ret) where
  loop_step :
      (fuel : ℕ) (os : Os) (h : LogHandler) (p : PalfHandle) (begin_lsn end_lsn current : ℕ)
      (read_buf got : List ℕ) (header : LogGroupEntryHeader) (s : S)
      → ltb current end_lsn ≡ true
      → PalfHandle.read os current buffer_size buffer_size p ≡ some got
      → parse_group (put 0 got read_buf) (length got) ≡ some header
      → ltb buffer_size header.group_entry_size ≡ false
      → leb header.committed_end_lsn begin_lsn ≡ false
      → replay_loop deliver (suc fuel) os h p begin_lsn end_lsn current read_buf s
        ≡ replay_loop deliver fuel os h p begin_lsn end_lsn header.committed_end_lsn
            (put 0 got read_buf)
            (deliver_payload deliver h (put 0 got read_buf) header.group_entry_size s)
  unfolding replay_loop
  loop_step fuel os h p begin_lsn end_lsn current read_buf got header s more read parsed fits on =
      rw (more, read, parsed, fits, on, replay_loop) refl

  payload_delivered :
      (h : LogHandler) (buf entry : List ℕ) (s : S)
      → take (length entry) buf ≡ entry
      → group_header_size < length entry
      → deliver_payload deliver h buf (length entry) s
        ≡ (LogHandler.replay deliver (drop group_header_size entry) h s).0
  unfolding deliver_payload
  payload_delivered h buf entry s front long =
      ground (arith, front_payload buf entry front (omega (arith, long)))

  -- A round over an entry that the blocks of `q` hold where the handle `p` would have put it.
  pub replay_loop-Holds :
      (fuel : ℕ) (os : Os) (garbage garbage' bytes : List ℕ) (log_type handler : ℕ) (h : LogHandler)
      (p q : PalfHandle) (begin_lsn end_lsn : ℕ) (read_buf : List ℕ) (s : S)
      → log_type < 2 ^ 16
      → length garbage ≡ base_header_size + length bytes
      → Assoc.lookup log_type h.replay_handlers ≡ some handler
      → q.is_inited ≡ true
      → q.cache.bytes ≡ []
      → HasRoom (length (envelope garbage bytes log_type)) p
      → length garbage' ≡ group_header_size + length (envelope garbage bytes log_type)
      → Holds
          (lsn_2_block p.max_lsn q.storage.block_size)
          (lsn_2_offset p.max_lsn q.storage.block_size)
          (frame garbage' (envelope garbage bytes log_type) p)
          q.storage
      → lsn_2_offset p.max_lsn q.storage.block_size
          + (group_header_size + length (envelope garbage bytes log_type))
        ≤ q.storage.block_size
      → group_header_size + length (envelope garbage bytes log_type) ≤ buffer_size
      → IsReadable os
      → p.max_lsn < end_lsn
      → begin_lsn < p.max_lsn + (group_header_size + length (envelope garbage bytes log_type))
      → (buf : List ℕ) × (replay_loop deliver
            (suc fuel)
            os
            h
            q
            begin_lsn
            end_lsn
            p.max_lsn
            read_buf
            s
          ≡ replay_loop deliver fuel os h q begin_lsn end_lsn
              (p.max_lsn + (group_header_size + length (envelope garbage bytes log_type)))
              buf
              (deliver handler bytes s).0)
  unfolding group_header
  replay_loop-Holds fuel os garbage garbage' bytes log_type handler h p q begin_lsn end_lsn read_buf
        s typed size registered on empty room size' holds within fits readable more ahead =
      let sent = envelope garbage bytes log_type in
      let entry = frame garbage' sent p in
      let (long, payload, header) = frame_parts garbage' sent p room size' in
      let some_bytes = length-envelope garbage bytes log_type size in
      let (got, read, front, enough) =
        read-Holds os p.max_lsn buffer_size entry q.storage holds (omega (arith, long))
          (omega (arith, long)) readable in
      let buf = put 0 got read_buf in
      let front' : take (length entry) buf ≡ entry =
        take-put (length entry) got read_buf enough ∙ front in
      let parsed =
        front_group buf entry front' (omega (arith, long)) (length got) enough
          (ap is_valid header ∙ read_back-valid garbage' (length sent) p) in
      let total : (load_group_header entry 0).group_entry_size ≡ length entry =
        ap (λ g. g.group_entry_size) header ∙ omega (arith, room.entry, long) in
      let ended : (load_group_header entry 0).committed_end_lsn
          ≡ p.max_lsn + (group_header_size + length sent) =
        ap (λ g. g.committed_end_lsn) header ∙ omega (arith, room.lsn) in
      (
        buf,
        loop_step fuel os h q begin_lsn end_lsn p.max_lsn read_buf got (load_group_header entry 0) s
              (ground arith) (read_uncached os p.max_lsn buffer_size buffer_size q on empty ∙ read)
              parsed (ground (arith, total, long)) (ground (arith, ended))
            ∙ rw
                (
                  total,
                  ended,
                  payload_delivered h buf entry s front' (omega (arith, long, some_bytes)),
                  payload,
                  replay-envelope deliver garbage bytes log_type handler h s typed size registered,
                )
                refl,
      )

  -- What was appended is replayed. In a log to which the handler has appended an envelope, within
  -- its block and within the 4096 bytes of the loop's buffer, a round of replay_ls at the LSN of
  -- the entry hands exactly the bytes that were sent to the handler registered for their type, and
  -- goes on at the LSN that the next append gets.
  replay_loop-do_append :
      (fuel : ℕ) (os os' : Os) (garbage garbage' bytes : List ℕ) (log_type handler : ℕ)
      (h : LogHandler) (p p' : PalfHandle) (begin_lsn end_lsn : ℕ) (read_buf : List ℕ) (s : S)
      → log_type < 2 ^ 16
      → length garbage ≡ base_header_size + length bytes
      → Assoc.lookup log_type h.replay_handlers ≡ some handler
      → p.is_inited ≡ true
      → p.cache.bytes ≡ []
      → HasRoom (length (envelope garbage bytes log_type)) p
      → length garbage' ≡ group_header_size + length (envelope garbage bytes log_type)
      → lsn_2_offset p.max_lsn p.storage.block_size
          + (group_header_size + length (envelope garbage bytes log_type))
        ≤ p.storage.block_size
      → group_header_size + length (envelope garbage bytes log_type) ≤ buffer_size
      → IsReadable os'
      → do_append os garbage' (envelope garbage bytes log_type) p ≡ (p', success)
      → p.max_lsn < end_lsn
      → begin_lsn < p'.max_lsn
      → (buf : List ℕ) × (replay_loop deliver
            (suc fuel)
            os'
            h
            p'
            begin_lsn
            end_lsn
            p.max_lsn
            read_buf
            s
          ≡ replay_loop deliver fuel os' h p' begin_lsn end_lsn p'.max_lsn buf
              (deliver handler bytes s).0)
  replay_loop-do_append fuel os os' garbage garbage' bytes log_type handler h p p' begin_lsn end_lsn
        read_buf s typed size registered on empty room size' within fits readable e more ahead =
      let sent = envelope garbage bytes log_type in
      let (wrote, next, _, _) = do_append_success os garbage' sent p p' room e in
      let (long, _, _) = frame_parts garbage' sent p room size' in
      let (same, cache) = do_append_kept os garbage' sent p p' e in
      let (holds, blocks) =
        append-Holds os p.max_lsn (frame garbage' sent p) p.storage p'.storage (omega (arith, long))
          wrote in
      let size_of = group_header_size + length sent in
      subst
        (λ (n : ℕ).
          (buf : List ℕ) × (replay_loop deliver (suc fuel) os' h p' begin_lsn end_lsn p.max_lsn
              read_buf s
            ≡ replay_loop deliver fuel os' h p' begin_lsn end_lsn n buf
                (deliver handler bytes s).0))
        (sym next)
        (replay_loop-Holds fuel os' garbage garbage' bytes log_type handler h p p' begin_lsn end_lsn
          read_buf s typed size registered (same ∙ on) (ap (λ c. c.bytes) cache ∙ empty) room size'
          (subst
            (λ n.
              Holds (lsn_2_block p.max_lsn n) (lsn_2_offset p.max_lsn n) (frame garbage' sent p)
                p'.storage)
            (sym blocks) holds)
          (subst (λ n. lsn_2_offset p.max_lsn n + size_of ≤ n) (sym blocks) within) fits readable
          more (omega (arith, next)))
