-- ===== src/Clog/IoWorker/Order.antt =====
-- What holds of the tasks under every schedule.
use lsm_storage.Prelude.{
  ◌≡◌, refl, Bool, true, false, List, [], ◌∷◌, ◌++◌, arith, append_assoc, subst,
}
use lsm_storage.Clog.IoWorker.{
  Pc, unborn, head, testing, giving_up, asleep, woken, holding, ended, IoWorker, wake, Step, start,
  push, notify, set_stop, notify_all, join, leave, enter, break_out, take, give_up, sleep, spurious,
  relock, run, Reach, fresh, next,
}

abbrev pub in_hand : {T : Type 0} → Pc T → List T
in_hand (holding t) = t ∷ []
in_hand unborn = []
in_hand head = []
in_hand testing = []
in_hand giving_up = []
in_hand asleep = []
in_hand woken = []
in_hand ended = []

-- Whether the worker is not at its loop.
abbrev resting : {T : Type 0} → Pc T → Bool
resting unborn = true
resting ended = true
resting head = false
resting testing = false
resting giving_up = false
resting asleep = false
resting woken = false
resting (holding t) = false

in_hand-wake : {T : Type 0} (p : Pc T) → in_hand (wake p) ≡ in_hand p
in_hand-wake p = ground arith

resting-wake : {T : Type 0} (p : Pc T) → resting (wake p) ≡ resting p
resting-wake p = ground arith

resting-in_hand : {T : Type 0} (p : Pc T) → resting p ≡ true → in_hand p ≡ []
resting-in_hand p = ground arith

record IsOrdered {T : Type 0} (s : IoWorker T) : Type 0 where
  kept : s.submitted ≡ s.done ++ (in_hand s.pc ++ s.queue)
  at_rest : s.is_inited ≡ false → resting s.pc ≡ true

module _ {T : Type 0} where
  push_kept :
      (done hand queue : List T) (t : T) {submitted : List T}
      → submitted ≡ done ++ (hand ++ queue)
      → submitted ++ t ∷ [] ≡ done ++ (hand ++ (queue ++ t ∷ []))
  push_kept done hand queue t e = rw e (simp append_assoc)

  run_kept :
      (done queue : List T) (t : T) {submitted : List T}
      → submitted ≡ done ++ ((t ∷ []) ++ queue)
      → submitted ≡ (done ++ t ∷ []) ++ ([] ++ queue)
  run_kept done queue t e = rw e (simp append_assoc)

  -- A move of the worker that takes no task.
  move :
      (s : IoWorker T) (p p' : Pc T)
      → s.pc ≡ p
      → in_hand p ≡ in_hand p'
      → (resting p ≡ true → resting p' ≡ true)
      → IsOrdered s
      → IsOrdered (record s { pc = p' })
  move s p p' at hand rest h = record {
    kept = rw (← hand) (subst (λ q. s.submitted ≡ s.done ++ (in_hand q ++ s.queue)) at h.kept);
    at_rest = λ off. rest (subst (λ q. resting q ≡ true) at (h.at_rest off));
  }

Step-IsOrdered : {T : Type 0} {s s' : IoWorker T} → Step s s' → IsOrdered s → IsOrdered s'
Step-IsOrdered {s} (start a b) h = ground (arith, h.at_rest b, resting-in_hand s.pc)
Step-IsOrdered {s} (push t m) h = record {
  kept = push_kept s.done (in_hand s.pc) s.queue t h.kept;
  at_rest = h.at_rest;
}
Step-IsOrdered {s} (notify p) h = record {
  kept = rw (in_hand-wake s.pc) h.kept;
  at_rest = rw (resting-wake s.pc) h.at_rest;
}
Step-IsOrdered (set_stop a b) h = record { kept = h.kept; at_rest = h.at_rest }
Step-IsOrdered {s} (notify_all a) h = record {
  kept = rw (in_hand-wake s.pc) h.kept;
  at_rest = rw (resting-wake s.pc) h.at_rest;
}
Step-IsOrdered (join a b) h = record { kept = h.kept; at_rest = λ _. rw b refl }
Step-IsOrdered {s} (leave a b) h = move s head ended a refl (λ _. refl) h
Step-IsOrdered {s} (enter a b) h = move s head testing a refl (λ e. e) h
Step-IsOrdered {s} (break_out a b c) h = move s testing ended a refl (λ _. refl) h
Step-IsOrdered {s} (take {t} {rest} a b) h = record {
  kept =
      subst (λ q. s.submitted ≡ s.done ++ ([] ++ q)) b
        (subst (λ p. s.submitted ≡ s.done ++ (in_hand p ++ s.queue)) a h.kept);
  at_rest = λ off. subst (λ p. resting p ≡ true) a (h.at_rest off);
}
Step-IsOrdered {s} (give_up a b c) h = move s testing giving_up a refl (λ e. e) h
Step-IsOrdered {s} (sleep a) h = move s giving_up asleep a refl (λ e. e) h
Step-IsOrdered {s} (spurious a) h = move s asleep woken a refl (λ e. e) h
Step-IsOrdered {s} (relock a) h = move s woken testing a refl (λ e. e) h
Step-IsOrdered {s} (run {t} a) h = record {
  kept =
      run_kept s.done s.queue t
        (subst (λ p. s.submitted ≡ s.done ++ (in_hand p ++ s.queue)) a h.kept);
  at_rest = λ off. subst (λ p. resting p ≡ true) a (h.at_rest off);
}

Reach-IsOrdered : {T : Type 0} {s : IoWorker T} → Reach s → IsOrdered s
Reach-IsOrdered fresh = record { kept = refl; at_rest = λ _. refl }
Reach-IsOrdered (next r st) = Step-IsOrdered st (Reach-IsOrdered r)

-- Under every schedule the tasks that ran, the one in the worker's hand and those in the queue are,
-- in this order, exactly the tasks that were submitted.
pub Reach-kept :
    {T : Type 0} {s : IoWorker T} → Reach s → s.submitted ≡ s.done ++ (in_hand s.pc ++ s.queue)
Reach-kept r = (Reach-IsOrdered r).kept
