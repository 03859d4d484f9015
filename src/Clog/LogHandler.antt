-- ===== src/Clog/LogHandler.antt =====
-- ob_log_handler.h, ob_log_handler.cpp and palf/palf_handle.cpp: a component's way to the log.
-- A replay handler is a name; `deliver` is its replay, on the state `S` of the handlers.
pub mod Roles
pub mod RoundTrip
use lsm_storage.Prelude.{
  ℕ, ◌+◌, Bool, true, false, not, Option, none, some, List, [], ◌∷◌, length, drop, ◌==◌,
  if◌then◌else◌, Ret, success, failure,
}
use lsm_storage.Prelude.Assoc
use lsm_storage.Prelude.Buffer.{put}
use lsm_storage.Clog.Header.{
  new_base_header, base_header_size, serialize_base_header, deserialize_base_header,
}
use lsm_storage.Clog.LogStorage.{Os}
use lsm_storage.Clog.PalfHandle.{PalfHandle}
use lsm_storage.Clog.PalfHandle

-- TABLET_OP_LOG_BASE_TYPE
abbrev pub tablet_op : ℕ
tablet_op = 2

pub record LogHandler : Type 0 where
  pub ls_id : ℕ
  pub palf : Option PalfHandle
  pub is_inited : Bool
  pub replay_handlers : List (ℕ × ℕ)

-- init, with the handle that PalfEnvImpl made, or none with its error.
pub init : ℕ → Option PalfHandle → LogHandler → LogHandler × Ret
init ls_id made h = if h.is_inited then (h, failure) else elim made [
  | none ↦ (record h { ls_id = ls_id }, failure)
  | some p ↦ (record h { ls_id = ls_id; palf = some p; is_inited = true }, success)
]

unfoldable pub register_replay_handler : ℕ → ℕ → LogHandler → LogHandler
register_replay_handler log_type handler h = record h {
  replay_handlers = Assoc.insert log_type handler h.replay_handlers;
}

-- [ObLogBaseHeader][payload], in a buffer from malloc.
unfoldable pub envelope : List ℕ → List ℕ → ℕ → List ℕ
envelope garbage bytes log_type =
    elim (serialize_base_header (new_base_header log_type) (base_header_size + length bytes) garbage
      0) [ none ↦ put 0 bytes garbage | some (out, pos) ↦ put pos bytes out ]

append_palf : Os → List ℕ → List ℕ → LogHandler → Option PalfHandle → LogHandler × Option (ℕ × ℕ)
append_palf os garbage sent h none = (h, none)
append_palf os garbage sent h (some p) =
    let (p', at) = PalfHandle.append os garbage sent p in (record h { palf = some p' }, at)

-- `garbage` and `garbage'` are what the two buffers held. None is -1.
unfoldable pub append : Os → List ℕ → List ℕ → List ℕ → ℕ → LogHandler → LogHandler × Option (ℕ × ℕ)
unfolding append_palf
append os garbage garbage' bytes log_type h =
    if not h.is_inited
    then (h, none)
    else if length bytes == 0
    then (h, none)
    else append_palf os garbage' (envelope garbage bytes log_type) h h.palf

-- A log type that no handler is registered for is skipped.
unfoldable pub replay {ℓ} :
    {S : Type ℓ} → (ℕ → List ℕ → S → S × Ret) → List ℕ → LogHandler → S → S × Ret
replay deliver bytes h s =
    if length bytes == 0
    then (s, failure)
    else elim (deserialize_base_header bytes (length bytes) 0) [
      | none ↦ (s, failure)
      | some (header, pos) ↦ elim (Assoc.lookup header.log_type h.replay_handlers) [
        | none ↦ (s, success)
        | some handler ↦ deliver handler (drop pos bytes) s
      ]
    ]
