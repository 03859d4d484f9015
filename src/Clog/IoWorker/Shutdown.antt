-- ===== src/Clog/IoWorker/Shutdown.antt =====
-- How destroy can end: with tasks left over, or never.
use lsm_storage.Prelude.{
  ◌<◌, ◌≡◌, ◌⊎◌, inl, inr, refl, true, false, List, [], ◌∷◌, ◌++◌, arith, append_assoc, append-nil,
  subst,
}
use lsm_storage.Clog.IoWorker.{
  head, asleep, woken, ended, IoWorker, Step, start, push, notify, set_stop, notify_all, join,
  leave, enter, break_out, take, give_up, sleep, spurious, relock, run, Reach, fresh, next, free,
  joining,
}

-- A running worker at the head of its loop, with tasks that nothing has touched.
abbrev untouched : {T : Type 0} → List T → IoWorker T
untouched tasks = record {
  queue = tasks;
  stop = false;
  is_inited = true;
  pc = head;
  owner = free;
  pending = 0;
  submitted = tasks;
  done = [];
}

-- Each submission is its push and its notification.
submit_all :
    {T : Type 0} (tasks before : List T)
    → Reach (untouched before)
    → Reach (untouched (before ++ tasks))
submit_all [] before r = rw append-nil r
submit_all {T} (t ∷ tasks) before r =
    let submitted = next (next r (push t refl)) (notify (omega arith)) in
    subst (λ (ts : List T). Reach (untouched ts)) (append_assoc before (t ∷ []) tasks)
      (submit_all tasks (before ++ t ∷ []) submitted)

-- Any tasks that were submitted can be left behind: there is a schedule under which init, every
-- submission with its notification, and destroy have all returned, the thread has ended, and none
-- of the tasks has run.
pub destroy-leaves :
    {T : Type 0} (tasks : List T)
    → (s : IoWorker T) × Reach s
      × (s.submitted ≡ tasks)
      × (s.pending ≡ 0)
      × (s.queue ≡ tasks)
      × (s.done ≡ [])
      × (s.pc ≡ ended)
      × (s.owner ≡ free)
      × (s.is_inited ≡ false)
destroy-leaves tasks =
    let r = submit_all tasks [] (next fresh (start refl refl)) in
    let stopping = next (next r (set_stop refl refl)) (notify_all refl) in
    let gone = next (next stopping (leave refl refl)) (join refl refl) in
    (_, gone, refl, refl, refl, refl, refl, refl, refl)

-- A running worker at the head of its loop that has run all its tasks.
abbrev caught_up : {T : Type 0} → List T → IoWorker T
caught_up tasks = record {
  queue = [];
  stop = false;
  is_inited = true;
  pc = head;
  owner = free;
  pending = 0;
  submitted = tasks;
  done = tasks;
}

run_all :
    {T : Type 0} (tasks before : List T)
    → Reach (caught_up before)
    → Reach (caught_up (before ++ tasks))
run_all [] before r = rw append-nil r
run_all {T} (t ∷ tasks) before r =
    let queued = next (next r (push t refl)) (notify (omega arith)) in
    let taken = next (next queued (enter refl refl)) (take refl refl) in
    subst (λ (ts : List T). Reach (caught_up ts)) (append_assoc before (t ∷ []) tasks)
      (run_all tasks (before ++ t ∷ []) (next taken (run refl)))

-- What can happen while destroy waits for a sleeping thread.
only_others :
    {T : Type 0} {s s' : IoWorker T}
    → s.pc ≡ asleep
    → s.owner ≡ joining
    → s.pending ≡ 0
    → Step s s'
    → (s'.pc ≡ woken) ⊎ (0 < s'.pending)
only_others at waits none_left (start a b) = ground arith
only_others at waits none_left (push t m) = inr (omega arith)
only_others at waits none_left (notify p) = ground arith
only_others at waits none_left (set_stop a b) = ground arith
only_others at waits none_left (notify_all a) = ground arith
only_others at waits none_left (join a b) = ground arith
only_others at waits none_left (leave a b) = ground arith
only_others at waits none_left (enter a b) = ground arith
only_others at waits none_left (break_out a b c) = ground arith
only_others at waits none_left (take a b) = ground arith
only_others at waits none_left (give_up a b c) = ground arith
only_others at waits none_left (sleep a) = ground arith
only_others at waits none_left (spurious a) = inl refl
only_others at waits none_left (relock a) = ground arith
only_others at waits none_left (run a) = ground arith

-- The worker can miss the end: there is a schedule under which init and the submission of any tasks
-- return, all of them run, and destroy waits for a thread that sleeps with nobody left to notify it;
-- then each next step is a spurious wakeup or a new submission.
pub destroy-waits :
    {T : Type 0} (tasks : List T)
    → (s : IoWorker T) × Reach s
      × (s.submitted ≡ tasks)
      × (s.done ≡ tasks)
      × (s.stop ≡ true)
      × (s.owner ≡ joining)
      × (s.pc ≡ asleep)
      × (s.pending ≡ 0)
      × ((s' : IoWorker T) → Step s s' → (s'.pc ≡ woken) ⊎ (0 < s'.pending))
destroy-waits tasks =
    let idle = next (run_all tasks [] (next fresh (start refl refl))) (enter refl refl) in
    let given_up = next idle (give_up refl refl refl) in
    let told = next (next given_up (set_stop refl refl)) (notify_all refl) in
    (
      _,
      next told (sleep refl),
      refl,
      refl,
      refl,
      refl,
      refl,
      refl,
      λ s' st. only_others refl refl refl st,
    )
