-- ===== src/Slog/Replay.antt =====
-- What replay delivers of the entries that were written.
use lsm_storage.Prelude.{
  ℕ, zero, suc, ◌+◌, ◌-◌, ◌%◌, ◌^◌, ◌≤◌, ◌<◌, ◌≡◌, refl, ap, sym, ◌∙◌, Bool, true, false, ◌||◌,
  none, some, List, [], ◌∷◌, ◌++◌, map, length, take, drop, to_le, ltb, leb, ◌==◌, failure, join,
  assoc, take_all, take-append, drop-append, length-append, arith, append-nil, inl, inr, Bool-cases,
  length-take, ltb→lt,
}
use lsm_storage.Prelude.Fields.{pack, unpack, Fits, done, next, unpack-pack}
use lsm_storage.Slog.{
  LogParam, LogEntry, slog_magic, header_widths, entry_bytes, StorageLogger, init, write_log, stop,
  entry, entry_of, check_entry, read_entry, replay_loop, replay, new_logger,
}

pub record IsLoggable (p : LogParam) : Type 0 where
  pub tenant_fits : p.tenant_id < 2 ^ 64
  pub type_fits : p.log_type < 2 ^ 32
  pub size_fits : 24 + length p.bytes < 2 ^ 31

abbrev values : LogParam → List ℕ
values p =
    slog_magic
    ∷ ((24 + length p.bytes) % 2 ^ 32)
    ∷ p.tenant_id
    ∷ p.log_type
    ∷ (length p.bytes % 2 ^ 32)
    ∷ []

header : LogParam → List ℕ
header p = pack header_widths (values p)

values-Fits : (p : LogParam) → IsLoggable p → Fits header_widths (values p)
values-Fits p h =
    next (omega arith)
      (next (omega arith) (next h.tenant_fits (next h.type_fits (next (omega arith) done))))

-- The entry that the callback is given for what was written.
unfoldable pub delivered : LogParam → LogEntry
delivered p = record {
  magic = slog_magic;
  total_size = 24 + length p.bytes;
  tenant_id = p.tenant_id;
  log_type = p.log_type;
  data_len = length p.bytes;
  payload = p.bytes;
}

bare : LogParam → LogEntry
unfolding delivered
bare p = record (delivered p) { payload = [] }

length-header : (p : LogParam) → length (header p) ≡ 24
unfolding header pack to_le
length-header p = refl

reduced : (p : LogParam) → IsLoggable p → entry_of (values p) ≡ bare p
unfolding entry_of bare delivered
reduced p h =
    let total : (24 + length p.bytes) % 2 ^ 32 ≡ 24 + length p.bytes = omega (arith, h.size_fits) in
    let size : length p.bytes % 2 ^ 32 ≡ length p.bytes = omega (arith, h.size_fits) in
    rw (total, size) refl

entry_of-header :
    (p : LogParam) (rest : List ℕ)
    → IsLoggable p
    → entry_of (unpack header_widths (header p ++ rest)) ≡ bare p
unfolding entry_of header bare delivered
entry_of-header p rest h =
    ap entry_of (unpack-pack header_widths (values p) rest (values-Fits p h)) ∙ reduced p h

-- A header and what stands behind it.
read_entry-header :
    (p : LogParam) (rest : List ℕ)
    → IsLoggable p
    → read_entry (header p ++ rest) ≡ check_entry (bare p) rest
unfolding read_entry
read_entry-header p rest h =
    let room : ltb (length (header p ++ rest)) 24 ≡ false =
      ground (arith, length-append (header p) rest, length-header p) in
    let behind : drop 24 (header p ++ rest) ≡ rest =
      ap (λ k. drop k (header p ++ rest)) (sym (length-header p)) ∙ drop-append (header p) rest in
    rw (read_entry, room, entry_of-header p rest h, behind) refl

check_entry-bare :
    (p : LogParam) (rest : List ℕ)
    → IsLoggable p
    → check_entry (bare p) (p.bytes ++ rest) ≡ entry (delivered p) rest
unfolding check_entry bare delivered
check_entry-bare p rest h =
    let some_size : (length p.bytes == 2 ^ 32 - 1) ≡ false = ground (arith, h.size_fits) in
    let present : (leb (2 ^ 31) (length p.bytes) || ltb (length (p.bytes ++ rest)) (length p.bytes))
        ≡ false =
      ground (arith, h.size_fits, length-append p.bytes rest) in
    rw (check_entry, some_size, present, take-append p.bytes rest, drop-append p.bytes rest) refl

check_entry-short :
    (p : LogParam) (rest : List ℕ)
    → IsLoggable p
    → length rest < length p.bytes
    → check_entry (bare p) rest ≡ stop
unfolding check_entry bare delivered
check_entry-short p rest h short = ground (arith, h.size_fits)

read_entry-entry_bytes :
    (p : LogParam) (rest : List ℕ)
    → IsLoggable p
    → read_entry (entry_bytes p ++ rest) ≡ entry (delivered p) rest
unfolding entry_bytes header
read_entry-entry_bytes p rest h =
    ap read_entry (assoc (header p) p.bytes rest)
    ∙ read_entry-header p (p.bytes ++ rest) h
    ∙ check_entry-bare p rest h

take-append_past : (n : ℕ) (xs ys : List ℕ) → take (length xs + n) (xs ++ ys) ≡ xs ++ take n ys
take-append_past n [] ys = let e : 0 + n ≡ n = omega arith in rw e refl
take-append_past n (x ∷ xs) ys =
    let e : suc (length xs) + n ≡ suc (length xs + n) = omega arith in
    rw e (ap (◌∷◌ x) (take-append_past n xs ys))

pub length-entry_bytes : (p : LogParam) → length (entry_bytes p) ≡ 24 + length p.bytes
unfolding entry_bytes header
length-entry_bytes p = omega (arith, length-append (header p) p.bytes, length-header p)

pub read_entry-short : (bytes : List ℕ) → length bytes < 24 → read_entry bytes ≡ stop
unfolding read_entry
read_entry-short bytes h = ground arith

read_entry-take_late :
    (p : LogParam) (k : ℕ)
    → IsLoggable p
    → k < length (entry_bytes p)
    → 24 ≤ k
    → read_entry (take k (entry_bytes p)) ≡ stop
unfolding entry_bytes header
read_entry-take_late p k h cut late =
    let split : k ≡ length (header p) + (k - 24) = omega (arith, length-header p) in
    let short : length (take (k - 24) p.bytes) < length p.bytes =
      omega
        (arith, length-take (k - 24) p.bytes, length-append (header p) p.bytes, length-header p) in
    ap (λ n. read_entry (take n (header p ++ p.bytes))) split
    ∙ ap read_entry (take-append_past (k - 24) (header p) p.bytes)
    ∙ read_entry-header p (take (k - 24) p.bytes) h
    ∙ check_entry-short p (take (k - 24) p.bytes) h short

-- An entry that was cut off ends the loop.
read_entry-take :
    (p : LogParam) (k : ℕ)
    → IsLoggable p
    → k < length (entry_bytes p)
    → read_entry (take k (entry_bytes p)) ≡ stop
read_entry-take p k h cut = elim (Bool-cases (ltb k 24)) [
  | inl early ↦
      read_entry-short (take k (entry_bytes p))
        (omega (arith, length-take k (entry_bytes p), ltb→lt k 24 early))
  | inr late ↦ read_entry-take_late p k h cut (ground arith)
]

pub data AllLoggable : List LogParam → Type 0 where
  none_left : AllLoggable []
  one_more :
      {p : LogParam} {ps : List LogParam} → IsLoggable p → AllLoggable ps → AllLoggable (p ∷ ps)

module _ {ℓ} {C : Type ℓ} (callback : C → LogEntry → C) where
  -- The callback on every entry, in order.
  unfoldable pub deliver_all : List LogParam → C → C
  deliver_all [] ctx = ctx
  deliver_all (p ∷ ps) ctx = deliver_all ps (callback ctx (delivered p))

  pub replay_loop-entries :
      (ps : List LogParam) (rest : List ℕ) (fuel : ℕ) (ctx : C)
      → AllLoggable ps
      → read_entry rest ≡ stop
      → length (join (map entry_bytes ps) ++ rest) ≤ fuel
      → replay_loop callback fuel ctx (join (map entry_bytes ps) ++ rest)
        ≡ some (deliver_all ps ctx, length ps)
  unfolding replay_loop deliver_all
  replay_loop-entries [] rest zero ctx all ends enough = refl
  replay_loop-entries [] rest (suc fuel) ctx all ends enough = rw (replay_loop, ends) refl
  replay_loop-entries (p ∷ ps) rest zero ctx (one_more h all) ends enough = absurd (
      omega (
        arith,
        length-append (entry_bytes p ++ join (map entry_bytes ps)) rest,
        length-append (entry_bytes p) (join (map entry_bytes ps)),
        length-entry_bytes p,
      ))
  replay_loop-entries (p ∷ ps) rest (suc fuel) ctx (one_more h all) ends enough =
      let left = join (map entry_bytes ps) ++ rest in
      let first : read_entry ((entry_bytes p ++ join (map entry_bytes ps)) ++ rest)
          ≡ entry (delivered p) left =
        ap read_entry (assoc (entry_bytes p) (join (map entry_bytes ps)) rest)
        ∙ read_entry-entry_bytes p left h in
      let enough' : length left ≤ fuel = omega (
        arith,
        enough,
        length-append (entry_bytes p ++ join (map entry_bytes ps)) rest,
        length-append (entry_bytes p) (join (map entry_bytes ps)),
        length-append (join (map entry_bytes ps)) rest,
        length-entry_bytes p,
      ) in
      rw
        (
          replay_loop,
          first,
          replay_loop-entries ps rest fuel (callback ctx (delivered p)) all ends enough',
        )
        refl

-- Entries written one after the other, each of them completely.
unfoldable pub write_all : List LogParam → StorageLogger → StorageLogger
write_all [] s = s
write_all (p ∷ ps) s = write_all ps (write_log (length (entry_bytes p)) p s).0

abbrev ready : List ℕ → StorageLogger
ready bytes = record { has_path = true; is_inited = true; is_open = true; file = some bytes }

write_all-ready :
    (ps : List LogParam) (bytes : List ℕ)
    → write_all ps (ready bytes) ≡ ready (bytes ++ join (map entry_bytes ps))
unfolding write_all write_log
write_all-ready [] bytes = ap ready (sym (append-nil bytes))
write_all-ready (p ∷ ps) bytes =
    ap (λ e. write_all ps (ready (bytes ++ e))) (take_all (entry_bytes p))
    ∙ write_all-ready ps (bytes ++ entry_bytes p)
    ∙ ap ready (assoc bytes (entry_bytes p) (join (map entry_bytes ps)))

-- A logger that starts on a missing file and writes entries completely, then one more of which the
-- system writes only `k` bytes, fewer than the entry has: the last call fails. A later logger over
-- the file, once its init was called, whether or not that could open the file for writing, replays
-- the complete entries to the callback in the order of the writes, counts them, and ends; before its
-- init it replays nothing.
pub replay-write_all :
    {C : Type 0} (callback : C → LogEntry → C) (ctx : C) (ps : List LogParam) (p : LogParam) (k : ℕ)
    (opens : Bool)
    → AllLoggable ps
    → IsLoggable p
    → k < length (entry_bytes p)
    → ((write_log k p (write_all ps (init true (new_logger none)).0)).1 ≡ failure)
      × (replay callback ctx
            (init opens
              (new_logger (write_log k p (write_all ps (init true (new_logger none)).0)).0.file)).0
          ≡ some (deliver_all callback ps ctx, length ps))
      × (replay callback ctx
            (new_logger (write_log k p (write_all ps (init true (new_logger none)).0)).0.file)
          ≡ some (ctx, 0))
unfolding init write_log replay
replay-write_all callback ctx ps p k opens all h cut =
    let start : write_all ps (init true (new_logger none)).0 ≡ ready (join (map entry_bytes ps)) =
      write_all-ready ps [] in
    let torn = take k (entry_bytes p) in
    let read =
      replay_loop-entries callback ps torn (length (join (map entry_bytes ps) ++ torn)) ctx all
        (read_entry-take p k h cut) (omega arith) in
    rw start (
      ground arith,
      elim opens
          as (λ o.
            replay callback ctx (init o (new_logger (some (join (map entry_bytes ps) ++ torn)))).0
            ≡ some (deliver_all callback ps ctx, length ps)) [ true ↦ read | false ↦ read ],
      refl,
    )
