-- ===== src/Clog/Streams/Linked.antt =====
-- What holds between the two maps of the log service and the objects that they lead to.
use lsm_storage.Prelude.{ℕ, ◌+◌, ◌<◌, ◌≡◌, inl, inr, none, some, [], ◌==◌, arith, Bool-cases}
use lsm_storage.Prelude.Assoc.{lookup, insert, remove, lookup-insert, lookup-remove}
use lsm_storage.Clog.PalfHandle.{PalfHandle}
use lsm_storage.Clog.Streams.{Stream, LogService}

-- Every open id has its handler and its log stream, and no two ids share either.
pub record IsLinked (s : LogService) : Type 0 where
  pub small : (ls a : ℕ) → lookup ls s.handlers ≡ some a → a < s.next_address
  pub stream_of :
      (ls a : ℕ)
      → lookup ls s.handlers ≡ some a
      → (h : Stream) × (lookup a s.heap ≡ some h)
        × (h.ls_id ≡ ls)
        × (lookup ls s.env.handles ≡ some h.palf)
  pub palf_small : (ls q : ℕ) → lookup ls s.env.handles ≡ some q → q < s.env.next_address
  pub palf_of :
      (ls q : ℕ)
      → lookup ls s.env.handles ≡ some q
      → (p : PalfHandle) × (lookup q s.env.heap ≡ some p)
  pub palf_apart :
      (ls ls' q : ℕ)
      → lookup ls s.env.handles ≡ some q
      → lookup ls' s.env.handles ≡ some q
      → ls ≡ ls'
  pub closed : (ls : ℕ) → lookup ls s.handlers ≡ none → lookup ls s.env.handles ≡ none

abbrev pub made_stream : ℕ → LogService → Stream
made_stream ls s = record { ls_id = ls; palf = s.env.next_address; replay_handlers = [] }

abbrev pub opened : ℕ → PalfHandle → LogService → LogService
opened ls p s = record s {
  env = record (s.env) {
    handles = insert ls s.env.next_address s.env.handles;
    heap = insert s.env.next_address p s.env.heap;
    next_address = s.env.next_address + 1;
  };
  handlers = insert ls s.next_address s.handlers;
  heap = insert s.next_address (made_stream ls s) s.heap;
  next_address = s.next_address + 1;
}

pub opened-IsLinked :
    (ls : ℕ) (p : PalfHandle) (s : LogService) → IsLinked s → IsLinked (opened ls p s)
opened-IsLinked ls p s h = record {
  small = λ id a e. ground (arith, lookup-insert ls id s.next_address s.handlers, h.small id a);
  stream_of = λ id a e. elim (Bool-cases (ls == id)) [
    | inl same ↦ (
      made_stream ls s,
      ground (
        arith,
        lookup-insert ls id s.next_address s.handlers,
        lookup-insert s.next_address a (made_stream ls s) s.heap,
      ),
      ground arith,
      ground (arith, lookup-insert ls id s.env.next_address s.env.handles),
    )
    | inr other ↦
        let old : lookup id s.handlers ≡ some a =
          ground (arith, lookup-insert ls id s.next_address s.handlers) in
        let (x, at, own, leads) = h.stream_of id a old in
        (
          x,
          ground (arith, lookup-insert s.next_address a (made_stream ls s) s.heap, h.small id a),
          own,
          ground (arith, lookup-insert ls id s.env.next_address s.env.handles),
        )
  ];
  palf_small = λ id q e.
      ground (arith, lookup-insert ls id s.env.next_address s.env.handles, h.palf_small id q);
  palf_of = λ id q e. elim (Bool-cases (ls == id)) [
    | inl same ↦ (
      p,
      ground (
        arith,
        lookup-insert ls id s.env.next_address s.env.handles,
        lookup-insert s.env.next_address q p s.env.heap,
      ),
    )
    | inr other ↦
        let old : lookup id s.env.handles ≡ some q =
          ground (arith, lookup-insert ls id s.env.next_address s.env.handles) in
        let (x, at) = h.palf_of id q old in
        (x, ground (arith, lookup-insert s.env.next_address q p s.env.heap, h.palf_small id q))
  ];
  palf_apart = λ id id' q e e'. ground (
    arith,
    lookup-insert ls id s.env.next_address s.env.handles,
    lookup-insert ls id' s.env.next_address s.env.handles,
    h.palf_small id q,
    h.palf_small id' q,
    h.palf_apart id id' q,
  );
  closed = λ id e. ground (
    arith,
    lookup-insert ls id s.env.next_address s.env.handles,
    lookup-insert ls id s.next_address s.handlers,
    h.closed id,
  );
}

abbrev pub removed : ℕ → ℕ → ℕ → LogService → LogService
removed ls a q s = record s {
  heap = remove a s.heap;
  handlers = remove ls s.handlers;
  env = record (s.env) { handles = remove ls s.env.handles; heap = remove q s.env.heap };
}

-- An id that is open, its handler and its log stream.
pub record IsOpenAs (ls a : ℕ) (x : Stream) (s : LogService) : Type 0 where
  pub handler : lookup ls s.handlers ≡ some a
  pub object : lookup a s.heap ≡ some x
  pub own : x.ls_id ≡ ls
  pub stream : lookup ls s.env.handles ≡ some x.palf

pub removed-IsLinked :
    (ls a : ℕ) (x : Stream) (s : LogService)
    → IsLinked s
    → IsOpenAs ls a x s
    → IsLinked (removed ls a x.palf s)
removed-IsLinked ls a x s h o = record {
  small = λ id b e. ground (arith, lookup-remove ls id s.handlers, h.small id b);
  stream_of = λ id b e.
      let old : lookup id s.handlers ≡ some b = ground (arith, lookup-remove ls id s.handlers) in
      let (y, at, own, leads) = h.stream_of id b old in
      (
        y,
        ground (arith, lookup-remove ls id s.handlers, lookup-remove a b s.heap, o.object, o.own),
        own,
        ground (arith, lookup-remove ls id s.handlers, lookup-remove ls id s.env.handles),
      );
  palf_small = λ id q e. ground (arith, lookup-remove ls id s.env.handles, h.palf_small id q);
  palf_of = λ id q e.
      let old : lookup id s.env.handles ≡ some q =
        ground (arith, lookup-remove ls id s.env.handles) in
      let (p, at) = h.palf_of id q old in
      (
        p,
        ground (
          arith,
          lookup-remove ls id s.env.handles,
          lookup-remove x.palf q s.env.heap,
          h.palf_apart id ls q,
          o.stream,
        ),
      );
  palf_apart = λ id id' q e e'. ground (
    arith,
    lookup-remove ls id s.env.handles,
    lookup-remove ls id' s.env.handles,
    h.palf_apart id id' q,
  );
  closed = λ id e.
      ground
        (arith, lookup-remove ls id s.env.handles, lookup-remove ls id s.handlers, h.closed id);
}

-- Nothing is open.
pub emptied-IsLinked : (s : LogService) → s.handlers ≡ [] → s.env.handles ≡ [] → IsLinked s
unfolding lookup
emptied-IsLinked s none_open no_stream = record {
  small = λ id a e. ground arith;
  stream_of = λ id a e. ground arith;
  palf_small = λ id q e. ground arith;
  palf_of = λ id q e. ground arith;
  palf_apart = λ id id' q e e'. ground arith;
  closed = λ id e. ground arith;
}
