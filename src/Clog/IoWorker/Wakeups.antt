-- ===== src/Clog/IoWorker/Wakeups.antt =====
-- Which notifications can be lost.
use lsm_storage.Prelude.{◌<◌, ◌≡◌, ◌≢◌, [], arith}
use lsm_storage.Clog.IoWorker.{
  Pc, giving_up, asleep, IoWorker, wake, Step, start, push, notify, set_stop, notify_all, join,
  leave, enter, break_out, take, give_up, sleep, spurious, relock, run, Reach, fresh, next,
}

wake-asleep : {T : Type 0} (p : Pc T) → wake p ≢ asleep
wake-asleep p = ground arith

wake-giving_up : {T : Type 0} (p : Pc T) → wake p ≡ giving_up → p ≡ giving_up
wake-giving_up p = ground arith

-- No task waits unheard: before the worker sleeps the queue is empty, and while it sleeps over a
-- task a notification is still to come.
record IsHeard {T : Type 0} (s : IoWorker T) : Type 0 where
  before : s.pc ≡ giving_up → s.queue ≡ []
  during : s.pc ≡ asleep → s.queue ≢ [] → 0 < s.pending

Step-IsHeard : {T : Type 0} {s s' : IoWorker T} → Step s s' → IsHeard s → IsHeard s'
Step-IsHeard (start a b) h = record { before = λ e. ground arith; during = λ e q. ground arith }
Step-IsHeard {s} (push t m) h = record { before = λ e. ground arith; during = λ e q. ground arith }
Step-IsHeard {s} (notify p) h = record {
  before = λ e. h.before (wake-giving_up s.pc e);
  during = λ e q. absurd (wake-asleep s.pc e);
}
Step-IsHeard (set_stop a b) h = record { before = h.before; during = h.during }
Step-IsHeard {s} (notify_all a) h = record {
  before = λ e. h.before (wake-giving_up s.pc e);
  during = λ e q. absurd (wake-asleep s.pc e);
}
Step-IsHeard (join a b) h = record { before = h.before; during = h.during }
Step-IsHeard (leave a b) h = record { before = λ e. ground arith; during = λ e q. ground arith }
Step-IsHeard (enter a b) h = record { before = λ e. ground arith; during = λ e q. ground arith }
Step-IsHeard (break_out a b c) h = record {
  before = λ e. ground arith;
  during = λ e q. ground arith;
}
Step-IsHeard (take a b) h = record { before = λ e. ground arith; during = λ e q. ground arith }
Step-IsHeard (give_up a b c) h = record { before = λ e. b; during = λ e q. ground arith }
Step-IsHeard (sleep a) h = record {
  before = λ e. ground arith;
  during = λ e q. absurd (q (h.before a));
}
Step-IsHeard (spurious a) h = record { before = λ e. ground arith; during = λ e q. ground arith }
Step-IsHeard (relock a) h = record { before = λ e. ground arith; during = λ e q. ground arith }
Step-IsHeard (run a) h = record { before = λ e. ground arith; during = λ e q. ground arith }

Reach-IsHeard : {T : Type 0} {s : IoWorker T} → Reach s → IsHeard s
Reach-IsHeard fresh = record { before = λ e. ground arith; during = λ e q. ground arith }
Reach-IsHeard (next r st) = Step-IsHeard st (Reach-IsHeard r)

-- No submission is lost on a sleeping worker: under every schedule, where the worker sleeps while a
-- task is in the queue, a thread is still to notify it.
pub Reach-heard :
    {T : Type 0} {s : IoWorker T} → Reach s → s.pc ≡ asleep → s.queue ≢ [] → 0 < s.pending
Reach-heard r = (Reach-IsHeard r).during
