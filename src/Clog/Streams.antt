-- ===== src/Clog/Streams.antt =====
-- ob_log_service.h and ob_log_service.cpp: the log streams that ObLogService has open, and its start
-- and stop. The handlers that open_ls hands out are addresses; `heap` holds those not deleted.
pub mod Linked
pub mod Calls
pub mod Race
mod Runs
use lsm_storage.Prelude.{
  ℕ, ◌+◌, Bool, true, false, ◌||◌, not, Option, none, some, List, [], ◌∷◌, if◌then◌else◌, Ret,
  success, failure,
}
use lsm_storage.Prelude.Assoc.{lookup, insert, remove}
use lsm_storage.Clog.PalfHandle.{PalfHandle}
use lsm_storage.Clog.PalfEnv.{PalfEnv, new_env, delete_all, create, remove_handle}
use lsm_storage.Clog.PalfEnv
use lsm_storage.Clog.LogHandler.{LogHandler}

-- ObLogHandler as an object: palf is the address of its PalfHandleImpl.
pub record Stream : Type 0 where
  pub ls_id : ℕ
  pub palf : ℕ
  pub replay_handlers : List (ℕ × ℕ)

pub record LogService : Type 0 where
  pub is_inited : Bool
  pub is_running : Bool
  pub env : PalfEnv
  pub handlers : List (ℕ × ℕ)
  pub heap : List (ℕ × Stream)
  pub next_address : ℕ

-- ObLogService()
abbrev pub new_service : LogService
new_service = record {
  is_inited = false;
  is_running = false;
  env = new_env;
  handlers = [];
  heap = [];
  next_address = 0;
}

unfoldable pub init : LogService → LogService × Ret
init s =
    if s.is_inited
    then (s, failure)
    else let (env, ret) = PalfEnv.init s.env in
      elim ret [
        | failure ↦ (record s { env = env }, failure)
        | success ↦ (record s { env = env; is_inited = true }, success)
      ]

unfoldable pub start : LogService → LogService × Ret
start s =
    if not s.is_inited || s.is_running
    then (s, failure)
    else let (env, ret) = PalfEnv.start s.env in
      elim ret [
        | failure ↦ (record s { env = env }, failure)
        | success ↦ (record s { env = env; is_running = true }, success)
      ]

unfoldable pub stop : LogService → LogService
stop s = record s { is_running = false; env = PalfEnv.stop s.env }

unfoldable pub destroy : LogService → LogService
destroy s = record s {
  is_running = false;
  is_inited = false;
  heap = delete_all s.handlers s.heap;
  handlers = [];
  env = PalfEnv.destroy (PalfEnv.stop s.env);
}

-- The first critical section of open_ls.
unfoldable pub open_look : ℕ → LogService → Option ℕ
open_look ls_id s = lookup ls_id s.handlers

-- What follows it where the id was not found: the new handler, with the handle that the environment
-- makes, and the second critical section. None is an error.
unfoldable pub open_make : ℕ → Option PalfHandle → LogService → LogService × Option ℕ
open_make ls_id made s =
    let (env, palf) = create ls_id made s.env in
    elim palf [
      | none ↦ (record s { env = env }, none)
      | some address ↦ (
        record s {
          env = env;
          handlers = insert ls_id s.next_address s.handlers;
          heap =
              insert s.next_address (record { ls_id = ls_id; palf = address; replay_handlers = [] })
                s.heap;
          next_address = s.next_address + 1;
        },
        some s.next_address,
      )
    ]

-- open_ls with no other call between its two critical sections.
unfoldable pub open_ls : ℕ → Option PalfHandle → LogService → LogService × Option ℕ
unfolding open_look open_make
open_ls ls_id made s = elim (open_look ls_id s) [
  | some address ↦ (s, some address)
  | none ↦ open_make ls_id made s
]

-- register_replay_handler of the handler that is at the address.
unfoldable pub register : ℕ → ℕ → ℕ → LogService → LogService
register address log_type handler s = elim (lookup address s.heap) [
  | none ↦ s
  | some h ↦ record s {
    heap =
        insert address (record h { replay_handlers = insert log_type handler h.replay_handlers })
          s.heap;
  }
]

-- The result of the environment is not looked at.
unfoldable pub remove_ls : ℕ → LogService → LogService × Ret
remove_ls ls_id s = elim (lookup ls_id s.handlers) [
  | none ↦ (s, failure)
  | some address ↦ (
    record s {
      heap = remove address s.heap;
      handlers = remove ls_id s.handlers;
      env = (remove_handle ls_id s.env).0;
    },
    success,
  )
]

-- The object as LogHandler has it, with its log stream if that is not deleted.
unfoldable pub handler_of : PalfEnv → Stream → LogHandler
handler_of env h = record {
  ls_id = h.ls_id;
  palf = lookup h.palf env.heap;
  is_inited = true;
  replay_handlers = h.replay_handlers;
}

-- The handler that replay_ls works on, none where the id is not open.
unfoldable pub find_handler : ℕ → LogService → Option LogHandler
unfolding handler_of
find_handler ls_id s = elim (lookup ls_id s.handlers) [
  | none ↦ none
  | some address ↦ elim (lookup address s.heap) [ none ↦ none | some h ↦ some (handler_of s.env h) ]
]
