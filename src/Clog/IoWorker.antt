-- ===== src/Clog/IoWorker.antt =====
-- palf/log_io_worker.h and log_io_worker.cpp: LogIOWorker, a thread that runs queued tasks. The
-- threads are interleaved: the worker, the owner that calls init and destroy, and any number of
-- threads that submit. A task is a value of `T`; what it does is not looked at.
pub mod Order
pub mod Wakeups
pub mod Shutdown
mod Runs
use lsm_storage.Prelude.{ℕ, ◌+◌, ◌-◌, ◌<◌, ◌≡◌, Bool, true, false, List, [], ◌∷◌, ◌++◌}

-- Where the worker stands in run_.
pub data Pc (T : Type 0) : Type 0 where
  unborn : Pc T  -- no thread yet
  head : Pc T  -- the test of the loop
  testing : Pc T  -- in cv_.wait, with the mutex, before the predicate
  giving_up : Pc T  -- the predicate failed; the mutex is still held
  asleep : Pc T
  woken : Pc T  -- before the mutex is taken again
  holding : T → Pc T  -- a task is taken, the mutex is free again
  ended : Pc T

-- Where the owner stands: destroy has three parts.
pub data Owner : Type 0 where
  free stopped joining : Owner

pub record IoWorker (T : Type 0) : Type 0 where
  pub queue : List T
  pub stop : Bool
  pub is_inited : Bool
  pub pc : Pc T
  pub owner : Owner
  -- submitters between the push and their notify_one
  pub pending : ℕ
  -- the tasks that were pushed and the tasks that ran, each in order
  pub submitted : List T
  pub done : List T

-- LogIOWorker()
abbrev pub new_worker : {T : Type 0} → IoWorker T
new_worker = record {
  queue = [];
  stop = false;
  is_inited = false;
  pc = unborn;
  owner = free;
  pending = 0;
  submitted = [];
  done = [];
}

-- What a notification does: the worker is the only one that waits.
abbrev pub wake : {T : Type 0} → Pc T → Pc T
wake asleep = woken
wake unborn = unborn
wake head = head
wake testing = testing
wake giving_up = giving_up
wake woken = woken
wake (holding t) = holding t
wake ended = ended

-- Whether the worker has the mutex.
abbrev pub has_mutex : {T : Type 0} → Pc T → Bool
has_mutex testing = true
has_mutex giving_up = true
has_mutex unborn = false
has_mutex head = false
has_mutex asleep = false
has_mutex woken = false
has_mutex (holding t) = false
has_mutex ended = false

pub data Step {T : Type 0} (s : IoWorker T) : IoWorker T → Type 0 where
  -- init
  start :
      s.owner ≡ free
      → s.is_inited ≡ false
      → Step s (record s { stop = false; is_inited = true; pc = head })
  -- submit_io_task, up to the end of its block and the notification
  push :
      (t : T)
      → has_mutex s.pc ≡ false
      → Step s (record s {
        queue = s.queue ++ t ∷ [];
        submitted = s.submitted ++ t ∷ [];
        pending = s.pending + 1;
      })
  notify : 0 < s.pending → Step s (record s { pending = s.pending - 1; pc = wake s.pc })
  -- destroy: the flag, the notification, the join
  set_stop :
      s.owner ≡ free → s.is_inited ≡ true → Step s (record s { stop = true; owner = stopped })
  notify_all : s.owner ≡ stopped → Step s (record s { owner = joining; pc = wake s.pc })
  join : s.owner ≡ joining → s.pc ≡ ended → Step s (record s { owner = free; is_inited = false })
  -- run_
  leave : s.pc ≡ head → s.stop ≡ true → Step s (record s { pc = ended })
  enter : s.pc ≡ head → s.stop ≡ false → Step s (record s { pc = testing })
  break_out : s.pc ≡ testing → s.queue ≡ [] → s.stop ≡ true → Step s (record s { pc = ended })
  take :
      {t : T} {rest : List T}
      → s.pc ≡ testing
      → s.queue ≡ t ∷ rest
      → Step s (record s { pc = holding t; queue = rest })
  give_up : s.pc ≡ testing → s.queue ≡ [] → s.stop ≡ false → Step s (record s { pc = giving_up })
  sleep : s.pc ≡ giving_up → Step s (record s { pc = asleep })
  spurious : s.pc ≡ asleep → Step s (record s { pc = woken })
  relock : s.pc ≡ woken → Step s (record s { pc = testing })
  run : {t : T} → s.pc ≡ holding t → Step s (record s { pc = head; done = s.done ++ t ∷ [] })

-- What schedules of all threads lead to.
pub data Reach {T : Type 0} : IoWorker T → Type 0 where
  fresh : Reach new_worker
  next : {s s' : IoWorker T} → Reach s → Step s s' → Reach s'
