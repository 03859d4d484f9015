-- ===== src/Clog/IoWorker/Runs.antt =====
-- The worker on concrete schedules.
use lsm_storage.Prelude.{ℕ, ◌<◌, ◌≡◌, refl, true, false, [], ◌∷◌, ◌++◌, arith}
use lsm_storage.Clog.IoWorker.{
  asleep, ended, holding, IoWorker, start, push, notify, enter, give_up, sleep, take, relock, Reach,
  fresh, next, free,
}
use lsm_storage.Clog.IoWorker.Order.{in_hand, Reach-kept}
use lsm_storage.Clog.IoWorker.Wakeups.{Reach-heard}
use lsm_storage.Clog.IoWorker.Shutdown.{destroy-leaves}

-- The worker sleeps, and a task has been pushed.
abbrev sleeping : IoWorker ℕ
sleeping = record {
  queue = 7 ∷ [];
  stop = false;
  is_inited = true;
  pc = asleep;
  owner = free;
  pending = 1;
  submitted = 7 ∷ [];
  done = [];
}

slept : Reach sleeping
slept =
    next
      (next (next (next (next fresh (start refl refl)) (enter refl refl)) (give_up refl refl refl))
        (sleep refl))
      (push 7 refl)

Reach-heard_example : 0 < sleeping.pending
Reach-heard_example = Reach-heard slept refl (λ e. ground arith)

-- It has been notified and has the task in its hand, with another in the queue.
abbrev working : IoWorker ℕ
working = record {
  queue = 8 ∷ [];
  stop = false;
  is_inited = true;
  pc = holding 7;
  owner = free;
  pending = 1;
  submitted = 7 ∷ 8 ∷ [];
  done = [];
}

worked : Reach working
worked =
    next (next (next (next slept (notify (omega arith))) (push 8 refl)) (relock refl))
      (take refl refl)

Reach-kept_example : working.submitted ≡ working.done ++ (in_hand working.pc ++ working.queue)
Reach-kept_example = Reach-kept worked

destroy-leaves_example :
    (s : IoWorker ℕ) × Reach s
    × (s.submitted ≡ 7 ∷ 8 ∷ [])
    × (s.pending ≡ 0)
    × (s.queue ≡ 7 ∷ 8 ∷ [])
    × (s.done ≡ [])
    × (s.pc ≡ ended)
    × (s.owner ≡ free)
    × (s.is_inited ≡ false)
destroy-leaves_example = destroy-leaves (7 ∷ 8 ∷ [])
