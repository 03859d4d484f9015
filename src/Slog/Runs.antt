-- ===== src/Slog/Runs.antt =====
-- The storage log on concrete inputs.
use lsm_storage.Prelude.{
  ℕ, ◌≡◌, refl, Bool, true, false, Option, none, some, List, [], ◌∷◌, length, failure, arith,
}
use lsm_storage.Slog.{
  LogParam, LogEntry, entry_bytes, new_logger, init, write_log, replay, StorageLogger,
}
use lsm_storage.Slog.Replay.{
  IsLoggable, none_left, one_more, deliver_all, write_all, replay-write_all,
}

abbrev first_param : LogParam
first_param = record { tenant_id = 1; log_type = 4; bytes = 5 ∷ 6 ∷ [] }

abbrev second_param : LogParam
second_param = record { tenant_id = 1; log_type = 1; bytes = [] }

abbrev collect : List LogEntry → LogEntry → List LogEntry
collect seen e = e ∷ seen

abbrev torn : StorageLogger
torn =
    (write_log 25 first_param
      (write_all (first_param ∷ second_param ∷ []) (init true (new_logger none)).0)).0

replay-write_all_example :
    ((write_log 25 first_param
        (write_all (first_param ∷ second_param ∷ []) (init true (new_logger none)).0)).1
      ≡ failure)
    × (replay collect [] (init false (new_logger torn.file)).0
        ≡ some (deliver_all collect (first_param ∷ second_param ∷ []) [], 2))
    × (replay collect [] (new_logger torn.file) ≡ some ([], 0))
unfolding entry_bytes lsm_storage.Prelude.Fields.pack lsm_storage.Prelude.to_le
replay-write_all_example =
    let first_loggable : IsLoggable first_param = record {
      tenant_fits = omega arith;
      type_fits = omega arith;
      size_fits = omega arith;
    } in
    let second_loggable : IsLoggable second_param = record {
      tenant_fits = omega arith;
      type_fits = omega arith;
      size_fits = omega arith;
    } in
    replay-write_all collect [] (first_param ∷ second_param ∷ []) first_param 25 false
      (one_more first_loggable (one_more second_loggable none_left)) first_loggable (omega arith)
