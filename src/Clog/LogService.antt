-- ===== src/Clog/LogService.antt =====
-- ob_log_service.h and ob_log_service.cpp: the replay of a log stream.
pub mod Step
pub mod Whole
use lsm_storage.Prelude.{
  ℕ, zero, suc, ◌-◌, true, false, ◌||◌, Option, none, some, List, length, take, drop, ltb, leb,
  ◌==◌, if◌then◌else◌, Ret, success, failure,
}
use lsm_storage.Prelude.Buffer.{put}
use lsm_storage.Clog.Header.{
  LogGroupEntryHeader, is_valid, group_header_size, deserialize_group_header,
}
use lsm_storage.Clog.LogStorage.{Os, get_begin_lsn}
use lsm_storage.Clog.PalfHandle.{PalfHandle}
use lsm_storage.Clog.PalfHandle
use lsm_storage.Clog.LogHandler.{LogHandler}
use lsm_storage.Clog.LogHandler

-- The end of replay_ls: a return, a read behind the end of read_buf, or no fuel left.
pub data Replay {ℓ} (S : Type ℓ) : Type ℓ where
  returned : Ret → S → Replay S
  overrun : S → Replay S
  stuck : Replay S

-- The header that a round finds in read_buf, or none where it breaks.
unfoldable pub parse_group : List ℕ → ℕ → Option LogGroupEntryHeader
parse_group read_buf out_size =
    if (out_size == 0) || ltb out_size group_header_size
    then none
    else elim (deserialize_group_header read_buf out_size 0) [
      | none ↦ none
      | some (h, pos) ↦ if is_valid h then some h else none
    ]

abbrev pub buffer_size : ℕ
buffer_size = 4096

module _ {ℓ} {S : Type ℓ} (deliver : ℕ → List ℕ → S → S × Ret) where
  -- The result of the handler is not looked at. An entry without a payload is not delivered.
  unfoldable pub deliver_payload : LogHandler → List ℕ → ℕ → S → S
  deliver_payload h read_buf entry_size s =
      if leb entry_size group_header_size
      then s
      else (LogHandler.replay deliver
          (take (entry_size - group_header_size) (drop group_header_size read_buf)) h s).0

  -- The loop: `read_buf` is what the 4096 bytes of the buffer hold.
  unfoldable pub replay_loop : ℕ → Os → LogHandler → PalfHandle → ℕ → ℕ → ℕ → List ℕ → S → Replay S
  unfolding deliver_payload parse_group
  replay_loop zero os h p begin_lsn end_lsn current read_buf s = stuck
  replay_loop (suc fuel) os h p begin_lsn end_lsn current read_buf s = elim (ltb current end_lsn) [
    | false ↦ returned success s
    | true ↦ elim (PalfHandle.read os current buffer_size buffer_size p) [
      | none ↦ returned success s
      | some bytes ↦
          let buf = put 0 bytes read_buf in
          elim (parse_group buf (length bytes)) [
            | none ↦ returned success s
            | some header ↦
                let s' = deliver_payload h buf header.group_entry_size s in
                elim (ltb buffer_size header.group_entry_size) [
                  | true ↦ overrun s
                  | false ↦ elim (leb header.committed_end_lsn begin_lsn) [
                    | true ↦ returned success s'
                    | false ↦
                        replay_loop fuel os h p begin_lsn end_lsn header.committed_end_lsn buf s'
                  ]
                ]
          ]
    ]
  ]

  -- The handler of the stream, if it is open.
  unfoldable pub replay_ls : ℕ → Os → List ℕ → Option LogHandler → S → Replay S
  unfolding replay_loop
  replay_ls fuel os read_buf none s = returned failure s
  replay_ls fuel os read_buf (some h) s = elim h.palf [
    | none ↦ returned failure s
    | some p ↦
        replay_loop fuel os h p (get_begin_lsn p.storage) p.end_lsn (get_begin_lsn p.storage)
          read_buf s
  ]
