-- ===== src/Ddl/Startup.antt =====
-- ObDDLService::init: how the DDL service gets its log stream and its storage log.
use lsm_storage.Prelude.{
  ℕ, ◌≡◌, refl, Bool, true, false, Option, none, some, if◌then◌else◌, Ret, success, failure,
}
use lsm_storage.Prelude.Assoc.{lookup, insert}
use lsm_storage.Slog
use lsm_storage.Clog.PalfHandle.{PalfHandle}
use lsm_storage.Clog.PalfEnv
use lsm_storage.Clog.PalfEnv.{create}
use lsm_storage.Clog.LogHandler.{register_replay_handler}
use lsm_storage.Clog.Streams.{
  LogService, new_service, start, open_look, open_make, open_ls, register, find_handler, handler_of,
}
use lsm_storage.Clog.Streams
use lsm_storage.Clog.Streams.Calls.{fresh_handler}
use lsm_storage.Ddl.Service.{DdlService, ddl_type}

-- DDL_LS_ID
abbrev pub ddl_ls_id : ℕ
ddl_ls_id = 1

-- The service itself, as the replay handler that it registers.
abbrev pub this : ℕ
this = 0

-- `made` is the handle that can be made of the directory of the log, `opens` whether the file of the
-- storage log opens. The log service is none before the first call. The result of the storage log is
-- not looked at.
unfoldable pub init :
    Option PalfHandle → Bool → DdlService → Option LogService → DdlService × Option LogService × Ret
init made opens d service =
    if d.is_inited
    then (d, service, success)
    else let (inited, first) = Streams.init new_service in
      elim first [
        | failure ↦ (d, some inited, failure)
        | success ↦
            let (running, second) = start inited in
            elim second [
              | failure ↦ (d, some running, failure)
              | success ↦
                  let (streams, handler) = open_ls ddl_ls_id made running in
                  elim handler [
                    | none ↦ (d, some streams, failure)
                    | some address ↦ (
                      record d {
                        log_handler = true;
                        slog = (Slog.init opens d.slog).0;
                        is_inited = true;
                      },
                      some (register address ddl_type this streams),
                      success,
                    )
                  ]
            ]
      ]

-- The log service after an init that has the handle.
abbrev open_log : PalfHandle → LogService
open_log p =
    register 0 ddl_type this (open_ls ddl_ls_id (some p) (start (Streams.init new_service).0).0).0

-- Where the handle of the log can be made, init of a new service succeeds, and the handler that
-- recover_schema then finds has the new handle and the service registered for its own log type;
-- where it cannot, init fails and the service stays as it was.
pub init-find_handler :
    (p : PalfHandle) (opens : Bool) (d : DdlService) (before : Option LogService)
    → d.is_inited ≡ false
    → ((service : LogService) × (init (some p) opens d before ≡ (
      record d { log_handler = true; slog = (Slog.init opens d.slog).0; is_inited = true },
      some service,
      success,
    ))
        × (find_handler ddl_ls_id service
            ≡ some (register_replay_handler ddl_type this (fresh_handler ddl_ls_id p))))
      × ((init none opens d before).0 ≡ d)
      × ((init none opens d before).2 ≡ failure)
unfolding init Streams.init PalfEnv.init start PalfEnv.start open_ls open_look open_make create
    register find_handler handler_of register_replay_handler lookup insert
init-find_handler p opens d before fresh =
    ((open_log p, rw (init, fresh) refl, refl), rw (init, fresh) refl, rw (init, fresh) refl)
