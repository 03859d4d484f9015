-- ===== src/Memtable/Table/Replay.antt =====
-- A memtable rebuilt from the log of another, and what the log holds too much.
use lsm_storage.Prelude.{
  ℕ, ◌&&◌, ◌++◌, true, append-nil, assoc, ap, Option, none, some, List, [], ◌∷◌, ◌≡◌, refl, sym,
  ◌∙◌, inl, inr, arith, ◌==◌, if◌then◌else◌, success, Ret-cases, subst, failure,
}
use lsm_storage.Store.{StoreRow, StoreCtx, default_ctx}
use lsm_storage.Memtable.QueryEngine.Indexed.{IsIndexed}
use lsm_storage.Memtable.MvccEngine.{store_row, in_snapshot}
use lsm_storage.Memtable.MvccEngine.Create.{find_at}
use lsm_storage.Memtable.Table.{Memtable, LogSink, set, replay, serialize_row}
use lsm_storage.Memtable.Table.Codec.{IsStorable, logged}
use lsm_storage.Memtable.Table.Reads.{
  IsLate, filed, node_of, set_logged-Outcome, set_logged_seen, set_logged_iff,
}
use lsm_storage.Memtable.Table.Recovery.{
  IsOpen, set_logged_lem, set_success, set_took, set-log_handler, replay-serialize_row,
}

-- A row without the transaction that wrote it, which the log does not keep.
abbrev pub anonymous : StoreRow → StoreRow
anonymous row = record row { trans_id = 0 }

abbrev pub anonymous? : Option StoreRow → Option StoreRow
anonymous? none = none
anonymous? (some row) = some (anonymous row)

-- Every reader finds the same in both memtables, but for the transaction ids.
abbrev pub Agree : Memtable → Memtable → Type 0
Agree m m' =
    (c : StoreCtx) (h : ℕ) → anonymous? (find_at c h m.engine) ≡ anonymous? (find_at c h m'.engine)

-- A log beside the list of the records that it took, in their order.
abbrev pub recording : {L : Type 0} → LogSink L → LogSink (L × List (List ℕ))
recording sink = record {
  append = λ s bytes.
      let (log, took) = sink.append s.0 bytes in
      elim took [ failure ↦ ((log, s.1), failure) | success ↦ ((log, s.1 ++ bytes ∷ []), success) ];
}

-- The records of a log replayed in order; none where a replay fails. `key_high` and `val_high` are
-- what the memory of the uninitialised halves of key_len and val_len holds.
module _ (key_high val_high : ℕ) where
  abbrev pub replay_all : List (List ℕ) → Memtable → Option Memtable
  replay_all [] m = some m
  replay_all (bytes ∷ records) m = elim (replay key_high val_high (some bytes) m) [
    | none ↦ none
    | some (m', ret) ↦ elim ret [ failure ↦ none | success ↦ replay_all records m' ]
  ]

  replay_all_step :
      (bytes : List ℕ) (records : List (List ℕ)) (m m' : Memtable)
      → replay key_high val_high (some bytes) m ≡ some (m', success)
      → replay_all (bytes ∷ records) m ≡ replay_all records m'
  replay_all_step bytes records m m' e = rw (e, replay_all) refl

abbrev pub AllStorable : List (StoreCtx × StoreRow) → Type 0
AllStorable [] = Unit {0}
AllStorable ((ctx, row) ∷ writes) = IsStorable row × AllStorable writes

store_row-logged :
    (ctx : StoreCtx) (row : StoreRow)
    → anonymous (store_row (node_of ctx row))
      ≡ anonymous (store_row (node_of default_ctx (logged row)))
unfolding store_row
store_row-logged ctx row = refl

module _ {L : Type 0} (sink : LogSink L) where
  -- The memtable and the log after the writes; none where one of them is refused.
  abbrev pub set_all : List (StoreCtx × StoreRow) → Memtable → L → Option (Memtable × L)
  set_all [] m log = some (m, log)
  set_all ((ctx, row) ∷ writes) m log =
      let (m', log', ret) = set sink ctx row m log in
      elim ret [ failure ↦ none | success ↦ set_all writes m' log' ]

  set_all_failure :
      (ctx : StoreCtx) (row : StoreRow) (writes : List (StoreCtx × StoreRow)) (m : Memtable)
      (log : L)
      → (set sink ctx row m log).2 ≡ failure
      → set_all ((ctx, row) ∷ writes) m log ≡ none
  set_all_failure ctx row writes m log failed = rw (failed, set_all) refl

  set_all_success :
      (ctx : StoreCtx) (row : StoreRow) (writes : List (StoreCtx × StoreRow)) (m : Memtable)
      (log : L)
      → {r : Memtable × L} → set_all ((ctx, row) ∷ writes) m log ≡ some r
      → (set sink ctx row m log).2 ≡ success
  set_all_success ctx row writes m log e = elim (Ret-cases (set sink ctx row m log).2) [
    | inl done ↦ done
    | inr failed ↦ cc (set_all_failure ctx row writes m log failed)
  ]

  set_all_step :
      (ctx : StoreCtx) (row : StoreRow) (writes : List (StoreCtx × StoreRow)) (m : Memtable)
      (log : L)
      → (set sink ctx row m log).2 ≡ success
      → set_all ((ctx, row) ∷ writes) m log
        ≡ set_all writes (set sink ctx row m log).0 (set sink ctx row m log).1
  set_all_step ctx row writes m log done = rw (done, set_all) refl

  set-IsIndexed :
      (ctx : StoreCtx) (row : StoreRow) (m : Memtable) (log : L)
      → IsIndexed m.engine
      → (set sink ctx row m log).2 ≡ success
      → IsIndexed (set sink ctx row m log).0.engine
  set-IsIndexed ctx row m log ok e =
      rw ((set_success sink ctx row m log e).1) ((set_logged-Outcome ctx row m ok).0)

  Agree-step :
      (ctx : StoreCtx) (row : StoreRow) (m n n' : Memtable) (log : L)
      → IsIndexed m.engine
      → (set sink ctx row m log).2 ≡ success
      → ((c : StoreCtx) (h : ℕ)
          → find_at c h n'.engine ≡ (
              if (filed row.rowkey == h) && in_snapshot c (node_of default_ctx (logged row))
              then some (store_row (node_of default_ctx (logged row)))
              else find_at c h n.engine))
      → Agree m n
      → Agree (set sink ctx row m log).0 n'
  Agree-step ctx row m n n' log ok e again same c h =
      let (_, now, done) = set_success sink ctx row m log e in
      rw (now, again c h, set_logged_seen ctx row m ok done c h)
        (ground (arith, same c h, store_row-logged ctx row))

recorded :
    {L : Type 0} (sink : LogSink L) (log : L) (kept : List (List ℕ)) (bytes : List ℕ)
    → ((recording sink).append (log, kept) bytes).1 ≡ success
    → ((recording sink).append (log, kept) bytes).0
      ≡ ((sink.append log bytes).0, kept ++ bytes ∷ [])
recorded sink log kept bytes e = ground arith

module _ {L : Type 0} (sink : LogSink L) where
  -- A write that comes too late fails, whether the log takes it or not.
  pub set_late :
      (ctx : StoreCtx) (row : StoreRow) (m : Memtable) (log : L)
      → IsIndexed m.engine
      → IsOpen m
      → IsLate ctx (filed row.rowkey) m.engine
      → (set sink ctx row m log).2 ≡ failure
  set_late ctx row m log ok open_ late = elim (Ret-cases (set sink ctx row m log).2) [
    | inl done ↦
        let (_, _, wrote) = set_success sink ctx row m log done in
        let refused = (set_logged_iff ctx row m ok).1 late in cc
    | inr failed ↦ failed
  ]

  -- From a log that has `kept` already.
  replay_all-later :
      (writes : List (StoreCtx × StoreRow)) (m m' n : Memtable) (log log' : L)
      (kept records : List (List ℕ))
      → AllStorable writes
      → IsIndexed m.engine
      → IsIndexed n.engine
      → IsOpen n
      → Agree m n
      → m.log_handler ≡ true
      → set_all (recording sink) writes m (log, kept) ≡ some (m', (log', records))
      → (added : List (List ℕ)) × (records ≡ kept ++ added)
        × (n' : Memtable) × (replay_all 0 0 added n ≡ some n')
        × Agree m' n'
  replay_all-later [] m m' n log log' kept records fits ok ok' open_ same on e =
      let now : m ≡ m' = cc in ([], cc (append-nil kept), n, refl, subst (λ k. Agree k n) now same)
  replay_all-later ((ctx, row) ∷ writes) m m' n log log' kept records (fit, fits) ok ok' open_ same
        on e =
      let bytes = serialize_row row in
      let (next, once, open', indexed, again) = replay-serialize_row row n fit open_ ok' in
      let done = set_all_success (recording sink) ctx row writes m (log, kept) e in
      let (took, log_now) = set_took (recording sink) ctx row m (log, kept) on done in
      let step = set_all_step (recording sink) ctx row writes m (log, kept) done in
      let out = (set (recording sink) ctx row m (log, kept)).0 in
      let (added, all_of, n', all, agree) =
        replay_all-later writes out m' next (sink.append log bytes).0 log' (kept ++ bytes ∷ [])
          records fits (set-IsIndexed (recording sink) ctx row m (log, kept) ok done) indexed open'
          (Agree-step (recording sink) ctx row m n next (log, kept) ok done again same)
          (set-log_handler (recording sink) ctx row m (log, kept) ∙ on)
          (ap (set_all (recording sink) writes out) (sym (recorded sink log kept bytes took))
            ∙ ap (set_all (recording sink) writes out) (sym log_now)
            ∙ sym step
            ∙ e) in
      (
        bytes ∷ added,
        all_of ∙ assoc kept (bytes ∷ []) added,
        n',
        replay_all_step 0 0 bytes added n next once ∙ all,
        agree,
      )

  -- Replaying the records that a log took of any series of writes of storable rows that all
  -- succeeded, on a memtable with sound indexes and a log handler, rebuilds the memtable: on an open
  -- memtable with sound indexes that agreed with the first one before, and where the uninitialised
  -- halves of the lengths happen to be zero, every replay succeeds, and afterwards every reader finds
  -- the same in both, but for the transaction ids.
  pub replay_all-Agree :
      (key_high val_high : ℕ) (writes : List (StoreCtx × StoreRow)) (m m' n : Memtable)
      (log log' : L) (records : List (List ℕ))
      → key_high ≡ 0
      → val_high ≡ 0
      → AllStorable writes
      → IsIndexed m.engine
      → IsIndexed n.engine
      → IsOpen n
      → Agree m n
      → m.log_handler ≡ true
      → set_all (recording sink) writes m (log, []) ≡ some (m', (log', records))
      → (n' : Memtable) × (replay_all key_high val_high records n ≡ some n') × Agree m' n'
  replay_all-Agree key_high val_high writes m m' n log log' records key_zero val_zero fits ok ok'
        open_ same on e =
      let (added, all_of, n', all, agree) =
        replay_all-later writes m m' n log log' [] records fits ok ok' open_ same on e in
      (n', rw (key_zero, val_zero, all_of) all, agree)

  -- A write of a storable row that comes too late, to an open memtable with sound indexes and a log
  -- handler that takes the row, fails but leaves a record in the log, and the replay of that record
  -- brings the row back: where the uninitialised halves of the lengths happen to be zero, the replay on the memtable
  -- succeeds, and every reader whose snapshot admits version 1 finds the refused row.
  pub late_write-replayed :
      (key_high val_high : ℕ) (ctx : StoreCtx) (row : StoreRow) (m : Memtable) (log : L)
      → key_high ≡ 0
      → val_high ≡ 0
      → IsIndexed m.engine
      → IsOpen m
      → IsStorable row
      → IsLate ctx (filed row.rowkey) m.engine
      → m.log_handler ≡ true
      → (sink.append log (serialize_row row)).1 ≡ success
      → let (m₁, kept, ret) = set (recording sink) ctx row m (log, []) in
        (ret ≡ failure)
        × (m' : Memtable) × (replay_all key_high val_high kept.1 m ≡ some m')
        × ((c : StoreCtx)
            → find_at c (filed row.rowkey) m'.engine ≡ (
                if in_snapshot c (node_of default_ctx (logged row))
                then some (store_row (node_of default_ctx (logged row)))
                else find_at c (filed row.rowkey) m.engine))
  late_write-replayed key_high val_high ctx row m log key_zero val_zero ok open_ fits late on took =
      let bytes = serialize_row row in
      let went =
        set_logged_lem (recording sink) ctx row m (log, []) ((sink.append log bytes).0, bytes ∷ [])
          open_ (rw (on, took) refl) in
      let refused = (set_logged_iff ctx row m ok).1 late in
      let (m', back, _, _, again) = replay-serialize_row row m fits open_ ok in
      (
        ground (arith, went, refused),
        m',
        rw (key_zero, val_zero, went) (replay_all_step 0 0 bytes [] m m' back),
        λ c. ground (arith, again c (filed row.rowkey)),
      )
