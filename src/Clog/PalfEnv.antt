-- ===== src/Clog/PalfEnv.antt =====
-- palf/palf_env_impl.h and palf_env_impl.cpp: PalfEnvImpl, the log streams of the process. A pointer
-- is an address: handles_ leads from ids to addresses, and `heap` holds the objects that are not
-- deleted. The handle that PalfHandleImpl::init or load makes of a directory is an argument, none
-- where it fails.
use lsm_storage.Prelude.{
  ℕ, ◌+◌, Bool, true, false, ◌||◌, not, Option, none, some, List, [], ◌∷◌, if◌then◌else◌, Ret,
  success, failure,
}
use lsm_storage.Prelude.Assoc.{lookup, insert, remove}
use lsm_storage.Clog.PalfHandle.{PalfHandle}

pub record PalfEnv : Type 0 where
  pub is_inited : Bool
  pub is_running : Bool
  pub handles : List (ℕ × ℕ)
  pub heap : List (ℕ × PalfHandle)
  pub next_address : ℕ

-- PalfEnvImpl()
abbrev pub new_env : PalfEnv
new_env = record {
  is_inited = false;
  is_running = false;
  handles = [];
  heap = [];
  next_address = 0;
}

unfoldable pub init : PalfEnv → PalfEnv × Ret
init e = if e.is_inited then (e, failure) else (record e { is_inited = true }, success)

unfoldable pub start : PalfEnv → PalfEnv × Ret
start e =
    if not e.is_inited || e.is_running
    then (e, failure)
    else (record e { is_running = true }, success)

unfoldable pub stop : PalfEnv → PalfEnv
stop e = record e { is_running = false }

-- The loop of deletes.
unfoldable pub delete_all : {V : Type 0} → List (ℕ × ℕ) → List (ℕ × V) → List (ℕ × V)
delete_all [] heap = heap
delete_all ((id, address) ∷ rest) heap = delete_all rest (remove address heap)

-- The worker was never started, so that its destroy does nothing.
unfoldable pub destroy : PalfEnv → PalfEnv
unfolding delete_all
destroy e = record e {
  is_running = false;
  heap = delete_all e.handles e.heap;
  handles = [];
  is_inited = false;
}

-- create_palf_handle_impl: a handle that was there under the id is not deleted.
unfoldable pub create : ℕ → Option PalfHandle → PalfEnv → PalfEnv × Option ℕ
create palf_id made e = elim made [
  | none ↦ (e, none)
  | some p ↦ (
    record e {
      handles = insert palf_id e.next_address e.handles;
      heap = insert e.next_address p e.heap;
      next_address = e.next_address + 1;
    },
    some e.next_address,
  )
]

-- get_palf_handle_impl
unfoldable pub get : ℕ → PalfEnv → Option ℕ
get palf_id e = lookup palf_id e.handles

-- remove_palf_handle_impl
unfoldable pub remove_handle : ℕ → PalfEnv → PalfEnv × Ret
remove_handle palf_id e = elim (lookup palf_id e.handles) [
  | none ↦ (e, failure)
  | some address ↦
      (record e { handles = remove palf_id e.handles; heap = remove address e.heap }, success)
]

-- reload_palf_handle_impl
unfoldable pub reload : ℕ → Option PalfHandle → PalfEnv → PalfEnv × Ret
reload palf_id loaded e =
    let (e', address) = create palf_id loaded e in
    elim address [ none ↦ (e', failure) | some a ↦ (e', success) ]
