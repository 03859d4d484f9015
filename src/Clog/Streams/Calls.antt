-- ===== src/Clog/Streams/Calls.antt =====
-- Series of calls of the log service, against a map from ids to streams.
use lsm_storage.Prelude.{
  ℕ, ◌≡◌, refl, ap, sym, ◌∙◌, inl, inr, true, Option, none, some, List, [], ◌∷◌, ◌==◌,
  if◌then◌else◌, arith, Option-cases, subst,
}
use mathlib.Core.Path.{fun_ext}
use lsm_storage.Prelude.Assoc.{lookup, lookup-insert, lookup-remove}
use lsm_storage.Clog.PalfHandle.{PalfHandle}
use lsm_storage.Clog.PalfEnv.{PalfEnv, create, remove_handle}
use lsm_storage.Clog.PalfEnv
use lsm_storage.Clog.LogHandler.{LogHandler}
use lsm_storage.Clog.Streams.{
  Stream, LogService, new_service, init, start, stop, destroy, open_look, open_make, open_ls,
  remove_ls, handler_of, find_handler,
}
use lsm_storage.Clog.Streams.Linked.{
  IsLinked, IsOpenAs, made_stream, opened, removed, opened-IsLinked, removed-IsLinked,
  emptied-IsLinked,
}

-- The handler of a stream that has just been opened.
abbrev pub fresh_handler : ℕ → PalfHandle → LogHandler
fresh_handler ls p = record { ls_id = ls; palf = some p; is_inited = true; replay_handlers = [] }

find_handler-open :
    (ls a : ℕ) (x : Stream) (s : LogService)
    → lookup ls s.handlers ≡ some a
    → lookup a s.heap ≡ some x
    → find_handler ls s ≡ some (handler_of s.env x)
unfolding find_handler
find_handler-open ls a x s at object = rw (find_handler, at, object) refl

find_handler-absent :
    (ls : ℕ) (s : LogService) → lookup ls s.handlers ≡ none → find_handler ls s ≡ none
unfolding find_handler
find_handler-absent ls s absent = rw (find_handler, absent) refl

module _ (ls id : ℕ) (s : LogService) (h : IsLinked s) where
  find_handler-opened :
      (p : PalfHandle)
      → find_handler id (opened ls p s)
        ≡ (if ls == id then some (fresh_handler ls p) else find_handler id s)
  unfolding find_handler handler_of
  find_handler-opened p = elim (Option-cases (lookup id s.handlers)) [
    | inl absent ↦ ground (
      arith,
      lookup-insert ls id s.next_address s.handlers,
      lookup-insert s.next_address s.next_address (made_stream ls s) s.heap,
      lookup-insert s.env.next_address s.env.next_address p s.env.heap,
    )
    | inr (a, at) ↦
        let (x, object, own, leads) = h.stream_of id a at in
        ground (
          arith,
          lookup-insert ls id s.next_address s.handlers,
          lookup-insert s.next_address s.next_address (made_stream ls s) s.heap,
          lookup-insert s.env.next_address s.env.next_address p s.env.heap,
          lookup-insert s.next_address a (made_stream ls s) s.heap,
          lookup-insert s.env.next_address x.palf p s.env.heap,
          h.small id a,
          h.palf_small id x.palf,
        )
  ]

  find_handler-removed :
      (a : ℕ) (x : Stream)
      → IsOpenAs ls a x s
      → find_handler id (removed ls a x.palf s) ≡ (if ls == id then none else find_handler id s)
  unfolding find_handler handler_of
  find_handler-removed a x o = elim (Option-cases (lookup id s.handlers)) [
    | inl absent ↦ ground (arith, lookup-remove ls id s.handlers)
    | inr (b, at) ↦
        let (y, object, own, leads) = h.stream_of id b at in
        ground (
          arith,
          lookup-remove ls id s.handlers,
          lookup-remove a b s.heap,
          lookup-remove x.palf y.palf s.env.heap,
          h.palf_apart ls id x.palf,
          o.stream,
          o.object,
          o.own,
        )
  ]

-- The calls of the service that change it.
pub data Call : Type 0 where
  call_init call_start call_stop call_destroy : Call
  call_open_ls : ℕ → Option PalfHandle → Call
  call_remove_ls : ℕ → Call

unfoldable pub step : Call → LogService → LogService
step call_init s = (init s).0
step call_start s = (start s).0
step call_stop s = stop s
step call_destroy s = destroy s
step (call_open_ls ls made) s = (open_ls ls made s).0
step (call_remove_ls ls) s = (remove_ls ls s).0

unfoldable pub run : List Call → LogService → LogService
unfolding step
run [] s = s
run (call ∷ calls) s = run calls (step call s)

-- What a call of open_ls makes of an id: what is open stays, whatever handle could be made.
abbrev pub open_id : ℕ → Option PalfHandle → Option LogHandler → Option LogHandler
open_id ls made (some h) = some h
open_id ls none none = none
open_id ls (some p) none = some (fresh_handler ls p)

-- The calls on a map from ids to streams.
unfoldable pub spec_step : Call → (ℕ → Option LogHandler) → ℕ → Option LogHandler
spec_step call_init f id = f id
spec_step call_start f id = f id
spec_step call_stop f id = f id
spec_step call_destroy f id = none
spec_step (call_open_ls ls made) f id = if ls == id then open_id ls made (f id) else f id
spec_step (call_remove_ls ls) f id = if ls == id then none else f id

unfoldable pub run_spec : List Call → (ℕ → Option LogHandler) → ℕ → Option LogHandler
unfolding spec_step
run_spec [] f = f
run_spec (call ∷ calls) f = run_spec calls (spec_step call f)

open_ls_found :
    (ls a : ℕ) (made : Option PalfHandle) (s : LogService)
    → lookup ls s.handlers ≡ some a
    → (open_ls ls made s).0 ≡ s
unfolding open_ls open_look
open_ls_found ls a made s found = rw (open_ls, open_look, found) refl

open_ls_made :
    (ls : ℕ) (p : PalfHandle) (s : LogService)
    → lookup ls s.handlers ≡ none
    → (open_ls ls (some p) s).0 ≡ opened ls p s
unfolding open_ls open_look open_make create
open_ls_made ls p s absent = rw (open_ls, open_look, absent) refl

open_ls_failed : (ls : ℕ) (s : LogService) → lookup ls s.handlers ≡ none → (open_ls ls none s).0 ≡ s
unfolding open_ls open_look open_make create
open_ls_failed ls s absent = rw (open_ls, open_look, absent) refl

remove_ls_open :
    (ls a : ℕ) (x : Stream) (s : LogService)
    → IsOpenAs ls a x s
    → (remove_ls ls s).0 ≡ removed ls a x.palf s
unfolding remove_ls remove_handle
remove_ls_open ls a x s o = ground (arith, o.handler, o.stream)

remove_ls_absent : (ls : ℕ) (s : LogService) → lookup ls s.handlers ≡ none → (remove_ls ls s).0 ≡ s
unfolding remove_ls
remove_ls_absent ls s absent = rw (remove_ls, absent) refl

-- A service with other flags.
abbrev flagged : LogService → LogService → LogService
flagged t s = record s {
  is_inited = t.is_inited;
  is_running = t.is_running;
  env = record (s.env) { is_inited = t.env.is_inited; is_running = t.env.is_running };
}

flagged-IsLinked : (t s : LogService) → IsLinked s → IsLinked (flagged t s)
flagged-IsLinked t s h = record {
  small = h.small;
  stream_of = h.stream_of;
  palf_small = h.palf_small;
  palf_of = h.palf_of;
  palf_apart = h.palf_apart;
  closed = h.closed;
}

find_handler-flagged :
    (id : ℕ) (t s : LogService) → find_handler id (flagged t s) ≡ find_handler id s
unfolding find_handler handler_of
find_handler-flagged id t s = refl

flagged-init : (s : LogService) → flagged (init s).0 s ≡ (init s).0
unfolding init PalfEnv.init
flagged-init s = ground arith

flagged-start : (s : LogService) → flagged (start s).0 s ≡ (start s).0
unfolding start PalfEnv.start
flagged-start s = ground arith

flagged-stop : (s : LogService) → flagged (stop s) s ≡ stop s
unfolding stop PalfEnv.stop
flagged-stop s = refl

-- What a call does to the links and to the map.
record Follows (call : Call) (s : LogService) : Type 0 where
  linked : IsLinked (step call s)
  same : (id : ℕ) → find_handler id (step call s) ≡ spec_step call (λ ls. find_handler ls s) id

open_as :
    (ls a : ℕ) (s : LogService)
    → IsLinked s
    → lookup ls s.handlers ≡ some a
    → (x : Stream) × IsOpenAs ls a x s
open_as ls a s h at =
    let (x, object, own, stream) = h.stream_of ls a at in
    (x, record { handler = at; object = object; own = own; stream = stream })

flagged-Follows :
    (call : Call) (s : LogService)
    → IsLinked s
    → flagged (step call s) s ≡ step call s
    → ((id : ℕ) → spec_step call (λ ls. find_handler ls s) id ≡ find_handler id s)
    → Follows call s
flagged-Follows call s h e still = record {
  linked = subst IsLinked e (flagged-IsLinked (step call s) s h);
  same =
      λ id. ap (find_handler id) (sym e) ∙ find_handler-flagged id (step call s) s ∙ sym (still id);
}

open_absent-Follows :
    (ls : ℕ) (made : Option PalfHandle) (s : LogService)
    → IsLinked s
    → lookup ls s.handlers ≡ none
    → Follows (call_open_ls ls made) s
unfolding step spec_step
open_absent-Follows ls none s h absent = record {
  linked = subst IsLinked (sym (open_ls_failed ls s absent)) h;
  same = λ id.
      ap (find_handler id) (open_ls_failed ls s absent)
      ∙ ground (arith, find_handler-absent ls s absent);
}
open_absent-Follows ls (some p) s h absent = record {
  linked = subst IsLinked (sym (open_ls_made ls p s absent)) (opened-IsLinked ls p s h);
  same = λ id.
      ap (find_handler id) (open_ls_made ls p s absent)
      ∙ find_handler-opened ls id s h p
      ∙ ground (arith, find_handler-absent ls s absent);
}

open_ls-Follows :
    (ls : ℕ) (made : Option PalfHandle) (s : LogService)
    → IsLinked s
    → Follows (call_open_ls ls made) s
unfolding step spec_step
open_ls-Follows ls made s h = elim (Option-cases (lookup ls s.handlers)) [
  | inr (a, at) ↦
      let (x, o) = open_as ls a s h at in
      record {
        linked = subst IsLinked (sym (open_ls_found ls a made s at)) h;
        same = λ id.
            ap (find_handler id) (open_ls_found ls a made s at)
            ∙ ground (arith, find_handler-open ls a x s at o.object);
      }
  | inl absent ↦ open_absent-Follows ls made s h absent
]

remove_ls-Follows : (ls : ℕ) (s : LogService) → IsLinked s → Follows (call_remove_ls ls) s
unfolding step spec_step
remove_ls-Follows ls s h = elim (Option-cases (lookup ls s.handlers)) [
  | inl absent ↦ record {
    linked = subst IsLinked (sym (remove_ls_absent ls s absent)) h;
    same = λ id.
        ap (find_handler id) (remove_ls_absent ls s absent)
        ∙ ground (arith, find_handler-absent ls s absent);
  }
  | inr (a, at) ↦
      let (x, o) = open_as ls a s h at in
      record {
        linked = subst IsLinked (sym (remove_ls_open ls a x s o)) (removed-IsLinked ls a x s h o);
        same = λ id.
            ap (find_handler id) (remove_ls_open ls a x s o) ∙ find_handler-removed ls id s h a x o;
      }
]

step-Follows : (call : Call) (s : LogService) → IsLinked s → Follows call s
unfolding step spec_step destroy PalfEnv.destroy lookup
step-Follows call_init s h = flagged-Follows call_init s h (flagged-init s) (λ id. refl)
step-Follows call_start s h = flagged-Follows call_start s h (flagged-start s) (λ id. refl)
step-Follows call_stop s h = flagged-Follows call_stop s h (flagged-stop s) (λ id. refl)
step-Follows call_destroy s h = record {
  linked = emptied-IsLinked (destroy s) refl refl;
  same = λ id. find_handler-absent id (destroy s) refl;
}
step-Follows (call_open_ls ls made) s h = open_ls-Follows ls made s h
step-Follows (call_remove_ls ls) s h = remove_ls-Follows ls s h

run-Follows :
    (calls : List Call) (s : LogService)
    → IsLinked s
    → (id : ℕ) → find_handler id (run calls s) ≡ run_spec calls (λ ls. find_handler ls s) id
unfolding run run_spec
run-Follows [] s h id = refl
run-Follows (call ∷ calls) s h id =
    let f = step-Follows call s h in
    run-Follows calls (step call s) f.linked id
    ∙ ap (λ (g : ℕ → Option LogHandler). run_spec calls g id) (fun_ext f.same)

-- The log service is a map from ids to streams. After any calls on a new service, whatever handles
-- can be made of the directories, each id leads to the handler that the same calls on such a map
-- give: open_ls keeps what is open and otherwise gives a handler of its own with its own log stream,
-- remove_ls and destroy forget, and init, start and stop change nothing.
pub find_handler-run :
    (calls : List Call) (id : ℕ)
    → find_handler id (run calls new_service) ≡ run_spec calls (λ ls. none) id
unfolding find_handler lookup
find_handler-run calls id =
    run-Follows calls new_service (emptied-IsLinked new_service refl refl) id
