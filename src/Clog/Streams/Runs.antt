-- ===== src/Clog/Streams/Runs.antt =====
-- The log service and the worker on concrete inputs.
use lsm_storage.Prelude.{ℕ, ◌≡◌, ◌≢◌, refl, true, false, none, some, List, [], ◌∷◌}
use lsm_storage.Prelude.Assoc.{lookup}
use lsm_storage.Prelude.File.{empty_file}
use lsm_storage.Clog.LogStorage.{LogStorage}
use lsm_storage.Clog.PalfHandle.{PalfHandle}
use lsm_storage.Clog.Streams.{
  LogService, new_service, open_look, open_make, remove_ls, find_handler,
}
use lsm_storage.Clog.Streams.Calls.{
  Call, call_init, call_start, call_open_ls, call_remove_ls, run, run_spec, fresh_handler,
  find_handler-run,
}
use lsm_storage.Clog.Streams.Race.{handler_at, open_make-twice}

-- One empty block of 8192 bytes.
abbrev storage : LogStorage
storage = record {
  block_size = 8192;
  cur_block = none;
  max_block_id = 0;
  min_block_id = 0;
  is_inited = true;
  files = (0, empty_file) ∷ [];
}

abbrev handle : PalfHandle
handle = record {
  palf_id = 1;
  epoch = 1;
  storage = storage;
  cache = record { is_inited = false; begin_lsn = 0; bytes = []; capacity = 0 };
  end_lsn = 0;
  max_lsn = 0;
  log_id = 1;
  proposal_id = 1;
  role = 1;
  is_inited = true;
}

-- Two ids are opened, the first a second time, and removed.
abbrev calls : List Call
calls =
    call_init
    ∷ call_start
    ∷ call_open_ls 1 (some handle)
    ∷ call_open_ls 2 (some handle)
    ∷ call_open_ls 1 none
    ∷ call_remove_ls 1
    ∷ []

find_handler-run_example : find_handler 2 (run calls new_service) ≡ run_spec calls (λ ls. none) 2
find_handler-run_example = find_handler-run calls 2

not_open : open_look 3 new_service ≡ none
unfolding open_look lookup
not_open = refl

open_make-twice_example :
    (s' s'' : LogService) × (first second : ℕ) × (open_make 3 (some handle) new_service
      ≡ (s', some first))
    × (open_make 3 (some handle) s' ≡ (s'', some second))
    × (first ≢ second)
    × (handler_at first s'' ≡ some (fresh_handler 3 handle))
    × (handler_at second s'' ≡ some (fresh_handler 3 handle))
    × (open_look 3 s'' ≡ some second)
    × (handler_at first (remove_ls 3 s'').0 ≡ some (fresh_handler 3 handle))
open_make-twice_example = open_make-twice 3 handle new_service not_open
