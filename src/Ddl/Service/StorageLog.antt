-- ===== src/Ddl/Service/StorageLog.antt =====
-- The second replay of a recovery, over the storage log.
use lsm_storage.Prelude.{
  ℕ, ◌≤◌, ◌≡◌, refl, ap, sym, ◌∙◌, inl, inr, Bool-cases, true, false, some, List, [], ◌∷◌, ◌++◌,
  map, length, success, arith, join, append_assoc, append-nil, length-append,
}
use mathlib.Core.List.{Perm}
use lsm_storage.Prelude.Assoc.{insert}
use lsm_storage.Schema.{TableSchema, SchemaService, get_database_by_name, DatabaseSchema, c_string}
use lsm_storage.Schema.Ids.{Below}
use lsm_storage.Slog.{LogEntry, LogParam, StorageLogger, entry_bytes, write_log, replay_loop}
use lsm_storage.Slog
use lsm_storage.Slog.Replay.{
  IsLoggable, AllLoggable, none_left, one_more, delivered, deliver_all, replay_loop-entries,
  read_entry-short,
}
use lsm_storage.Clog.LogService.{returned}
use lsm_storage.Ddl.Operator
use lsm_storage.Ddl.Service.{DdlService, slog_create_database, slog_callback, recover_slog}
use lsm_storage.Schema.Names.{IsText, c_string-append, Finds, Finds-insert, Finds-perm, take_short}

-- Every name in these entries of the storage log is that of a database of the schema.
pub data Covered (databases : List (ℕ × DatabaseSchema)) : List LogParam → Type 0 where
  no_entry : Covered databases []
  one_entry :
      {p : LogParam} {ps : List LogParam}
      → IsLoggable p
      → p.log_type ≡ slog_create_database
      → IsText p.bytes
      → Finds p.bytes databases
      → Covered databases ps
      → Covered databases (p ∷ ps)

Covered-loggable :
    (databases : List (ℕ × DatabaseSchema)) (ps : List LogParam)
    → Covered databases ps
    → AllLoggable ps
Covered-loggable databases [] no_entry = none_left
Covered-loggable databases (p ∷ ps) (one_entry h kind text found rest) =
    one_more h (Covered-loggable databases ps rest)

pub Covered-insert :
    (n : ℕ) (d : DatabaseSchema) (databases : List (ℕ × DatabaseSchema)) (ps : List LogParam)
    → Below n databases
    → Covered databases ps
    → Covered (insert n d databases) ps
Covered-insert n d databases [] below no_entry = no_entry
Covered-insert n d databases (p ∷ ps) below (one_entry h kind text found rest) =
    one_entry h kind text (Finds-insert n p.bytes d databases below found)
      (Covered-insert n d databases ps below rest)

pub Covered-append :
    (databases : List (ℕ × DatabaseSchema)) (ps : List LogParam) (p : LogParam)
    → Covered databases ps
    → Covered databases (p ∷ [])
    → Covered databases (ps ++ p ∷ [])
Covered-append databases [] p no_entry last = last
Covered-append databases (q ∷ ps) p (one_entry h kind text found rest) last =
    one_entry h kind text found (Covered-append databases ps p rest last)

abbrev pub on_file : List LogParam → StorageLogger
on_file ps = record {
  has_path = true;
  is_inited = true;
  is_open = true;
  file = some (join (map entry_bytes ps));
}

join-map_snoc :
    (ps : List LogParam) (p : LogParam)
    → join (map entry_bytes (ps ++ p ∷ [])) ≡ join (map entry_bytes ps) ++ entry_bytes p
join-map_snoc [] p = append-nil (entry_bytes p)
join-map_snoc (q ∷ ps) p =
    ap (λ (bytes : List ℕ). entry_bytes q ++ bytes) (join-map_snoc ps p)
    ∙ sym (append_assoc (entry_bytes q) (join (map entry_bytes ps)) (entry_bytes p))

-- A complete write puts the entry behind the others.
pub write_log-on_file :
    (written : ℕ) (ps : List LogParam) (p : LogParam)
    → length (entry_bytes p) ≤ written
    → (write_log written p (on_file ps)).0 ≡ on_file (ps ++ p ∷ [])
unfolding write_log
write_log-on_file written ps p complete =
    ap
      (λ (bytes : List ℕ). record {
        has_path = true;
        is_inited = true;
        is_open = true;
        file = some bytes;
      })
      (ap (λ (bytes : List ℕ). join (map entry_bytes ps) ++ bytes)
          (take_short written (entry_bytes p) complete)
        ∙ sym (join-map_snoc ps p))

module _ (database_order : List (ℕ × DatabaseSchema) → List (ℕ × DatabaseSchema))
    (table_order : List (ℕ × TableSchema) → List (ℕ × TableSchema))
    (visits : (databases : List (ℕ × DatabaseSchema))
      → Perm databases (database_order databases)) where
  create_database-Finds :
      (name : List ℕ) (s : SchemaService)
      → Finds name s.databases
      → (Operator.create_database database_order table_order name s).0 ≡ s
  unfolding Operator.create_database get_database_by_name
  create_database-Finds name s found =
      ground
        (arith, Finds-perm name s.databases (database_order s.databases) (visits s.databases) found)

  slog_callback-same :
      (p : LogParam) (s : SchemaService)
      → p.log_type ≡ slog_create_database
      → IsText p.bytes
      → Finds p.bytes s.databases
      → slog_callback database_order table_order s (delivered p) ≡ s
  unfolding slog_callback delivered c_string
  slog_callback-same p s kind text found =
      let name : c_string p.bytes ≡ p.bytes =
        ap c_string (sym (append-nil p.bytes)) ∙ c_string-append p.bytes [] text refl in
      rw (kind, name) (create_database-Finds p.bytes s found)

  deliver_all-same :
      (ps : List LogParam) (s : SchemaService)
      → Covered s.databases ps
      → deliver_all (slog_callback database_order table_order) ps s ≡ s
  unfolding deliver_all
  deliver_all-same [] s no_entry = refl
  deliver_all-same (p ∷ ps) s (one_entry h kind text found rest) =
      rw (deliver_all, slog_callback-same p s kind text found) (deliver_all-same ps s rest)

  replay-file :
      (callback : SchemaService → LogEntry → SchemaService) (s : SchemaService)
      (logger : StorageLogger) (bytes : List ℕ)
      → logger.has_path ≡ true
      → logger.file ≡ some bytes
      → Slog.replay callback s logger ≡ replay_loop callback (length bytes) s bytes
  unfolding Slog.replay
  replay-file callback s logger bytes named file = rw (Slog.replay, named, file) refl

  -- Before its init the storage log replays nothing.
  replay_unnamed :
      (callback : SchemaService → LogEntry → SchemaService) (s : SchemaService)
      (logger : StorageLogger)
      → logger.has_path ≡ false
      → Slog.replay callback s logger ≡ some (s, 0)
  unfolding Slog.replay
  replay_unnamed callback s logger unnamed = rw (Slog.replay, unnamed) refl

  -- Where every entry names a database that is there, the storage log changes nothing.
  pub recover_slog-same :
      (ps : List LogParam) (s : SchemaService) (d : DdlService)
      → Covered s.databases ps
      → d.slog.file ≡ some (join (map entry_bytes ps))
      → recover_slog database_order table_order (returned success (some s)) d
        ≡ some (record d { schema = s })
  unfolding recover_slog
  recover_slog-same ps s d all file =
      let bytes = join (map entry_bytes ps) in
      let callback = slog_callback database_order table_order in
      let whole : replay_loop callback (length bytes) s bytes
          ≡ some (deliver_all callback ps s, length ps) =
        ap (λ (b : List ℕ). replay_loop callback (length bytes) s b) (sym (append-nil bytes))
        ∙ replay_loop-entries callback ps [] (length bytes) s (Covered-loggable s.databases ps all)
            (read_entry-short [] (omega arith)) (omega (arith, length-append bytes [])) in
      elim (Bool-cases d.slog.has_path) [
        | inl named ↦
            let replayed : Slog.replay callback s d.slog ≡ some (s, length ps) =
              replay-file callback s d.slog bytes named file
              ∙ whole
              ∙ ap (λ (t : SchemaService). some (t, length ps)) (deliver_all-same ps s all) in
            rw (recover_slog, replayed) refl
        | inr unnamed ↦ rw (recover_slog, replay_unnamed callback s d.slog unnamed) refl
      ]
