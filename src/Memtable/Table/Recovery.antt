-- ===== src/Memtable/Table/Recovery.antt =====
-- The log and the memtable: what a write leaves in each, and what a replay makes of it.
use lsm_storage.Prelude.{
  ℕ, true, false, ◌&&◌, Option, none, some, List, [], ◌∷◌, ◌++◌, length, ◌≡◌, refl, ap, ◌∙◌, ◌⊎◌,
  inl, inr, arith, ◌==◌, if◌then◌else◌, Ret, success, failure,
}
use lsm_storage.Store.{StoreRow, StoreCtx, StoreRowkey, default_ctx}
use lsm_storage.Memtable.Key.{empty_key, encode}
use lsm_storage.Memtable.QueryEngine.{QueryEngine}
use lsm_storage.Memtable.QueryEngine
use lsm_storage.Memtable.QueryEngine.Indexed.{IsIndexed}
use lsm_storage.Memtable.MvccEngine.{store_row, in_snapshot, find_visible}
use lsm_storage.Memtable.MvccEngine
use lsm_storage.Memtable.MvccEngine.Create.{find_at}
use lsm_storage.Memtable.Table.{Memtable, LogSink, set, set_logged, get, replay, serialize_row}
use lsm_storage.Memtable.Table.Codec.{IsStorable, logged, parse_row-serialize_row}
use lsm_storage.Memtable.Table.Reads.{
  IsLate, filed, node_of, set_logged-Outcome, set_logged_seen, set_logged_unseen,
}

-- A memtable that takes writes.
abbrev pub IsOpen : Memtable → Type 0
IsOpen m = (m.is_inited ≡ true) × (m.is_frozen ≡ false)

-- What ObMemtable::get adds to its results.
abbrev pub push : Option StoreRow → List StoreRow → List StoreRow × Ret
push none results = (results, failure)
push (some row) results = (results ++ row ∷ [], success)

abbrev pub find : StoreCtx → StoreRowkey → Memtable → Option StoreRow
find c k m = find_at c (filed k) m.engine

find_visible-find_at :
    (c : StoreCtx) (k : StoreRowkey) (m : Memtable)
    → find_visible c (encode (some k) empty_key).0 m.engine ≡ find c k m
unfolding find_visible find_at QueryEngine.get
find_visible-find_at c k m = ground arith

pub get-find :
    (c : StoreCtx) (k : StoreRowkey) (results : List StoreRow) (m : Memtable)
    → get c k results m ≡ push (find c k m) results
unfolding get MvccEngine.get
get-find c k results m = ground (arith, find_visible-find_at c k m)

module _ {L : Type 0} (sink : LogSink L) where
  -- What the log is when a write gets to the memtable.
  abbrev pub log_after : StoreRow → Memtable → L → L × Ret
  log_after row m log =
      if m.log_handler then sink.append log (serialize_row row) else (log, success)

  pub set_logged_lem :
      (ctx : StoreCtx) (row : StoreRow) (m : Memtable) (log log' : L)
      → IsOpen m
      → log_after row m log ≡ (log', success)
      → set sink ctx row m log ≡ ((set_logged ctx row m).0, log', (set_logged ctx row m).1)
  unfolding set
  set_logged_lem ctx row m log log' open_ e = ground arith

  -- A set that succeeds got through the log and wrote behind it.
  pub set_success :
      (ctx : StoreCtx) (row : StoreRow) (m : Memtable) (log : L)
      → (set sink ctx row m log).2 ≡ success
      → IsOpen m
        × ((set sink ctx row m log).0 ≡ (set_logged ctx row m).0)
        × ((set_logged ctx row m).1 ≡ success)
  unfolding set
  set_success ctx row m log e = ground arith

  -- A set that succeeds with a log handler: the log took the row.
  pub set_took :
      (ctx : StoreCtx) (row : StoreRow) (m : Memtable) (log : L)
      → m.log_handler ≡ true
      → (set sink ctx row m log).2 ≡ success
      → ((sink.append log (serialize_row row)).1 ≡ success)
        × ((set sink ctx row m log).1 ≡ (sink.append log (serialize_row row)).0)
  unfolding set
  set_took ctx row m log on e = ground arith

  pub set-log_handler :
      (ctx : StoreCtx) (row : StoreRow) (m : Memtable) (log : L)
      → (set sink ctx row m log).0.log_handler ≡ m.log_handler
  unfolding set set_logged
  set-log_handler ctx row m log = ground arith

  set_failure :
      (ctx : StoreCtx) (row : StoreRow) (m : Memtable) (log : L)
      → (set sink ctx row m log).2 ≡ failure
      → ((set sink ctx row m log).0 ≡ m)
        ⊎ (((set sink ctx row m log).0 ≡ (set_logged ctx row m).0)
            × ((set_logged ctx row m).1 ≡ failure))
  unfolding set
  set_failure ctx row m log e = ground arith

  -- After a set that succeeds, over sound indexes, a reader whose snapshot admits version 1 finds the new row under
  -- every key that is filed like the row's, and under every other key what it found before.
  pub get-set :
      (ctx : StoreCtx) (row : StoreRow) (m : Memtable) (log : L)
      → IsIndexed m.engine
      → (set sink ctx row m log).2 ≡ success
      → (c : StoreCtx) (k : StoreRowkey) (results : List StoreRow)
      → get c k results (set sink ctx row m log).0 ≡ (
          if (filed row.rowkey == filed k) && in_snapshot c (node_of ctx row)
          then (results ++ store_row (node_of ctx row) ∷ [], success)
          else get c k results m)
  get-set ctx row m log ok e c k results =
      let (open_, same, done) = set_success ctx row m log e in
      rw (same, get-find c k results (set_logged ctx row m).0, get-find c k results m)
        (ground (arith, set_logged_seen ctx row m ok done c (filed k)))

  -- After a set that fails, at whatever point, over sound indexes, every reader finds what it found before.
  pub get-set_failure :
      (ctx : StoreCtx) (row : StoreRow) (m : Memtable) (log : L)
      → IsIndexed m.engine
      → (set sink ctx row m log).2 ≡ failure
      → (c : StoreCtx) (k : StoreRowkey) (results : List StoreRow)
      → get c k results (set sink ctx row m log).0 ≡ get c k results m
  get-set_failure ctx row m log ok e c k results = elim (set_failure ctx row m log e) [
    | inl same ↦ rw same refl
    | inr (same, failed) ↦
        rw (same, get-find c k results (set_logged ctx row m).0, get-find c k results m)
          (ap (λ found. push found results) (set_logged_unseen ctx row m ok failed c (filed k)))
  ]

serialize_row_some : (row : StoreRow) → (length (serialize_row row) == 0) ≡ false
unfolding serialize_row
serialize_row_some row = ground arith

-- Behind the log, a replay is a write of the row with the context of a replay.
replay_lem :
    (row : StoreRow) (m : Memtable)
    → IsStorable row
    → IsOpen m
    → let r = set_logged default_ctx (logged row) (record m { log_handler = false }) in
      replay 0 0 (some (serialize_row row)) m
      ≡ some (record r.0 { log_handler = m.log_handler }, r.1)
unfolding replay
replay_lem row m fits open_ = ground (
  arith,
  serialize_row_some row,
  parse_row-serialize_row row fits,
  set_logged_lem {L = List (List ℕ)} (record { append = λ log b. (log, success) }) default_ctx
      (logged row) (record m { log_handler = false }) [] [] open_ refl,
)

set_logged-IsOpen :
    (ctx : StoreCtx) (row : StoreRow) (m : Memtable) → IsOpen m → IsOpen (set_logged ctx row m).0
unfolding set_logged
set_logged-IsOpen ctx row m open_ = ground arith

-- The record of a memtable that a replay leaves, without the handler that it sets back.
abbrev pub replayed : StoreRow → Memtable → Memtable
replayed row m = record (set_logged default_ctx (logged row) (record m { log_handler = false })).0 {
  log_handler = m.log_handler;
}

not-IsLate : (h : ℕ) (qe : QueryEngine) → ¬ IsLate default_ctx h qe
not-IsLate h qe late = late.0 refl

pub replay_success :
    (row : StoreRow) (m : Memtable)
    → IsStorable row
    → IsOpen m
    → IsIndexed m.engine
    → replay 0 0 (some (serialize_row row)) m ≡ some (replayed row m, success)
replay_success row m fits open_ ok =
    let unlogged = record m { log_handler = false } in
    elim (set_logged-Outcome default_ctx (logged row) unlogged ok).1 [
      | inl (late, _, _, _) ↦ absurd (not-IsLate _ m.engine late)
      | inr (_, done, _, _) ↦ replay_lem row m fits open_ ∙ ap (λ r. some (replayed row m, r)) done
    ]

-- The bytes that set logs for a storable row are replayed with success on any memtable that takes
-- writes and has sound indexes, and the replay shows the row, under transaction -1, to every reader whose snapshot
-- admits version 1, and changes nothing under any other hash.
pub replay-serialize_row :
    (row : StoreRow) (m : Memtable)
    → IsStorable row
    → IsOpen m
    → IsIndexed m.engine
    → (m' : Memtable) × (replay 0 0 (some (serialize_row row)) m ≡ some (m', success))
      × IsOpen m'
      × IsIndexed m'.engine
      × ((c : StoreCtx) (h : ℕ)
          → find_at c h m'.engine ≡ (
              if (filed row.rowkey == h) && in_snapshot c (node_of default_ctx (logged row))
              then some (store_row (node_of default_ctx (logged row)))
              else find_at c h m.engine))
replay-serialize_row row m fits open_ ok =
    let unlogged = record m { log_handler = false } in
    let e = replay_success row m fits open_ ok in
    (
      replayed row m,
      e,
      set_logged-IsOpen default_ctx (logged row) unlogged open_,
      (set_logged-Outcome default_ctx (logged row) unlogged ok).0,
      set_logged_seen default_ctx (logged row) unlogged ok
          (ground (arith, e, replay_lem row m fits open_)),
    )
