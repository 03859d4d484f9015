-- ===== src/Clog/Runs.antt =====
-- The log on concrete inputs.
use lsm_storage.Prelude.{
  ℕ, ◌+◌, ◌^◌, ◌≤◌, true, false, none, some, List, [], ◌∷◌, length, drop, ◌≡◌, refl, arith, Ret,
  success, to_le,
}
use lsm_storage.Prelude.Assoc
use lsm_storage.Prelude.Assoc.{lookup}
use lsm_storage.Prelude.Buffer.{put, fetch}
use lsm_storage.Prelude.File.{File, empty_file}
use lsm_storage.Prelude.File
use lsm_storage.Clog.Header.{
  LogGroupEntryHeader, new_group_header, group_header_size, store_group_header, load_group_header,
  serialize_group_header, serialize_base_header, base_header_bytes,
}
use lsm_storage.Clog.Header.RoundTrip.{Fits, load-store_group_header}
use lsm_storage.Clog.LogStorage.{
  LogStorage, Os, append, read, get_begin_lsn, lsn_2_offset, lsn_2_block, palf_block_size,
}
use lsm_storage.Clog.LogStorage
use lsm_storage.Clog.LogStorage.Append.{read_crossing}
use lsm_storage.Clog.PalfHandle.{PalfHandle, do_append, scan_end, init, load}
use lsm_storage.Clog.PalfHandle
use lsm_storage.Clog.PalfHandle.Append.{HasRoom, read_back, read-do_append}
use lsm_storage.Clog.LogService.{replay_ls, returned}
use lsm_storage.Clog.LogService.Whole.{
  Message, IsSendable, Appended, none_left, one_more, deliver_all, replay_ls-Appended,
}
use lsm_storage.Clog.LogHandler.{LogHandler, envelope}
use lsm_storage.Clog.PalfHandle.Restart.{reopened, IsEntry, load-overwrites}
use lsm_storage.Clog.PalfHandle.Scan.{IsBounded, scan_end_total}

-- Every call succeeds, and a write takes all its bytes.
abbrev os : Os
os = record { opens = true; seeks = true; truncates = true; reads = true; writes = some }

-- One empty block of 8192 bytes.
abbrev storage : LogStorage
storage = record {
  block_size = 8192;
  cur_block = none;
  max_block_id = 0;
  min_block_id = 0;
  is_inited = true;
  files = (0, empty_file) ∷ [];
}

abbrev header : LogGroupEntryHeader
header = record new_group_header { log_id = 2 ^ 40 + 3; data_checksum = 9 }

header-Fits : Fits header
header-Fits = record {
  magic = omega arith;
  version = omega arith;
  group_entry_size = omega arith;
  log_id = omega arith;
  log_proposal_id = omega arith;
  prev_lsn = omega arith;
  committed_end_lsn = omega arith;
  data_checksum = omega arith;
}

-- A buffer of 50 bytes.
abbrev zeros : List ℕ → List ℕ
zeros bytes = 0 ∷ 0 ∷ 0 ∷ 0 ∷ 0 ∷ 0 ∷ 0 ∷ 0 ∷ 0 ∷ 0 ∷ bytes

abbrev buffer : List ℕ
buffer = zeros (zeros (zeros (zeros (zeros []))))

header_example :
    load_group_header (store_group_header header 0 buffer) 0
    ≡ record header { log_id = 2 ^ 40 + 9; data_checksum = fetch 4 40 buffer }
header_example = load-store_group_header header 0 buffer header-Fits (omega arith)

appended : append os 100 (4 ∷ 5 ∷ []) storage ≡ ((append os 100 (4 ∷ 5 ∷ []) storage).0, success)
unfolding append LogStorage.open_block LogStorage.write_block
appended = refl

-- Four bytes that start at the last but one of the block.
crossed : read os 8190 4 4096 (append os 8190 (4 ∷ 5 ∷ 6 ∷ 7 ∷ []) storage).0 ≡ some (4 ∷ 5 ∷ [])
unfolding append read LogStorage.open_block LogStorage.write_block lsn_2_block lookup Assoc.insert
    File.read lsn_2_offset File.write File.poke
crossed = refl

read_crossing_example : lsn_2_offset 8190 8192 + length {A = ℕ} (4 ∷ 5 ∷ []) ≤ 8192
unfolding append LogStorage.open_block LogStorage.write_block lsn_2_block
read_crossing_example =
    read_crossing os 8190 4 4096 (append os 8190 (4 ∷ 5 ∷ 6 ∷ 7 ∷ []) storage).0 (4 ∷ 5 ∷ [])
      (omega arith) crossed

abbrev handle : PalfHandle
handle = record {
  palf_id = 1;
  epoch = 1;
  storage = storage;
  cache = record { is_inited = false; begin_lsn = 0; bytes = []; capacity = 0 };
  end_lsn = 0;
  max_lsn = 0;
  log_id = 1;
  proposal_id = 1;
  role = 1;
  is_inited = true;
}

handle-HasRoom : HasRoom 2 handle
handle-HasRoom = record {
  entry = omega arith;
  lsn = omega arith;
  end_lsn = omega arith;
  log_id = omega arith;
  proposal = omega arith;
}

handle_appended :
    do_append os buffer (4 ∷ 5 ∷ []) handle ≡ ((do_append os buffer (4 ∷ 5 ∷ []) handle).0, success)
unfolding do_append append PalfHandle.frame serialize_group_header put store_group_header to_le
    LogStorage.open_block LogStorage.write_block
handle_appended = refl

entry_example :
    let p' = (do_append os buffer (4 ∷ 5 ∷ []) handle).0 in
    (entry : List ℕ) × (read os 0 50 4096 p'.storage ≡ some entry)
    × (drop group_header_size entry ≡ 4 ∷ 5 ∷ [])
    × (load_group_header entry 0 ≡ read_back buffer 2 handle)
    × ((load_group_header entry 0).committed_end_lsn ≡ p'.max_lsn)
    × ((load_group_header entry 0).group_entry_size ≡ 50)
    × (p'.max_lsn ≡ 50)
    × (p'.end_lsn ≡ p'.max_lsn)
unfolding lsn_2_offset do_append append PalfHandle.frame serialize_group_header put
    store_group_header to_le LogStorage.open_block LogStorage.write_block
entry_example =
    read-do_append os os buffer (4 ∷ 5 ∷ []) 4096 handle (do_append os buffer (4 ∷ 5 ∷ []) handle).0
      handle-HasRoom refl (omega arith) (omega arith) (refl, refl, refl) handle_appended

storage-IsBounded : IsBounded 1 storage
unfolding lookup
storage-IsBounded id f e = ground arith

scan_end_example : (end_lsn : ℕ) × (scan_end 8193 os 0 storage ≡ some end_lsn)
scan_end_example =
    scan_end_total 8193 os 0 1 storage (omega arith) storage-IsBounded (omega arith) (omega arith)

-- A handle whose blocks have the size that a restart takes, an entry, and a handle of another start.
abbrev first_handle : PalfHandle
first_handle = record handle { storage = record storage { block_size = palf_block_size } }

first_HasRoom : HasRoom 2 first_handle
first_HasRoom = record {
  entry = omega arith;
  lsn = omega arith;
  end_lsn = omega arith;
  log_id = omega arith;
  proposal = omega arith;
}

abbrev first_written : PalfHandle
first_written = (do_append os buffer (4 ∷ 5 ∷ []) first_handle).0

first_appended : do_append os buffer (4 ∷ 5 ∷ []) first_handle ≡ (first_written, success)
unfolding do_append append PalfHandle.frame serialize_group_header put store_group_header to_le
    LogStorage.open_block LogStorage.write_block
first_appended = refl

first_IsBounded : IsBounded 1 first_written.storage
unfolding do_append append PalfHandle.frame serialize_group_header put store_group_header to_le
    LogStorage.open_block LogStorage.write_block lsn_2_block lookup Assoc.insert
first_IsBounded id f e = ground arith

two_bytes-IsEntry : (b c : ℕ) → IsEntry 4096 buffer (b ∷ c ∷ [])
two_bytes-IsEntry b c = record { sized = refl; within = omega arith; read_whole = omega arith }

load-overwrites_example :
    (r : PalfHandle) × (load (palf_block_size + 1) os 1 (reopened handle first_written)
      ≡ some (r, success))
    × (r.end_lsn ≡ 0)
    × ((do_append os buffer (6 ∷ 7 ∷ []) r).1 ≡ success)
    × (old new : List ℕ) × (read os 0 50 4096 first_written.storage ≡ some old)
    × (drop group_header_size old ≡ 4 ∷ 5 ∷ [])
    × (read os 0 50 4096 (do_append os buffer (6 ∷ 7 ∷ []) r).0.storage ≡ some new)
    × (drop group_header_size new ≡ 6 ∷ 7 ∷ [])
load-overwrites_example =
    load-overwrites (palf_block_size + 1) os 1 4096 buffer (4 ∷ 5 ∷ []) buffer (6 ∷ 7 ∷ [])
      first_handle first_written handle refl refl first_HasRoom (two_bytes-IsEntry 4 5)
      first_appended first_IsBounded (omega arith) (two_bytes-IsEntry 6 7) (refl, refl, refl)
      (refl, refl, refl) (omega arith)

-- A handler that keeps what it is given.
abbrev keep : ℕ → List ℕ → List (List ℕ) → List (List ℕ) × Ret
keep handler bytes kept = (bytes ∷ kept, success)

abbrev log_handler : LogHandler
log_handler = record {
  ls_id = 1;
  palf = some handle;
  is_inited = true;
  replay_handlers = (2, 8) ∷ [];
}

abbrev eighteen : List ℕ
eighteen = zeros (0 ∷ 0 ∷ 0 ∷ 0 ∷ 0 ∷ 0 ∷ 0 ∷ 0 ∷ [])

abbrev sent : List ℕ
sent = envelope eighteen (4 ∷ 5 ∷ []) 2

sent_size : length sent ≡ 18
unfolding envelope serialize_base_header base_header_bytes put to_le
sent_size = refl

abbrev entry_buffer : List ℕ
entry_buffer = zeros (zeros (zeros (zeros (0 ∷ 0 ∷ 0 ∷ 0 ∷ 0 ∷ 0 ∷ 0 ∷ 0 ∷ eighteen))))

sent-HasRoom : HasRoom (length sent) handle
sent-HasRoom = record {
  entry = omega (arith, sent_size);
  lsn = omega (arith, sent_size);
  end_lsn = omega arith;
  log_id = omega arith;
  proposal = omega arith;
}

abbrev sent_to : PalfHandle
sent_to = (do_append os entry_buffer sent handle).0

sent_done : do_append os entry_buffer sent handle ≡ (sent_to, success)
unfolding do_append append PalfHandle.frame serialize_group_header envelope serialize_base_header
    put base_header_bytes to_le store_group_header LogStorage.open_block LogStorage.write_block
sent_done = refl

sent_next : sent_to.max_lsn ≡ 66
unfolding do_append append PalfHandle.frame serialize_group_header envelope serialize_base_header
    put base_header_bytes to_le store_group_header LogStorage.open_block LogStorage.write_block
sent_next = refl

-- The same envelope sent twice.
abbrev message : Message
message = record {
  bytes = 4 ∷ 5 ∷ [];
  log_type = 2;
  handler = 8;
  garbage = eighteen;
  garbage' = entry_buffer;
}

abbrev sent_twice : PalfHandle
sent_twice = (do_append os entry_buffer sent sent_to).0

sent_twice_done : do_append os entry_buffer sent sent_to ≡ (sent_twice, success)
unfolding do_append append PalfHandle.frame serialize_group_header envelope serialize_base_header
    put base_header_bytes to_le store_group_header LogStorage.open_block LogStorage.write_block
    lsn_2_block
sent_twice_done = refl

-- The handle in the middle, and where the log of the last one begins.
sent_to_values :
    (sent_to.max_lsn ≡ 66)
    × (sent_to.end_lsn ≡ 66)
    × (sent_to.log_id ≡ 2)
    × (sent_to.proposal_id ≡ 1)
    × (sent_to.storage.block_size ≡ 8192)
    × (get_begin_lsn sent_twice.storage ≡ 0)
unfolding do_append append PalfHandle.frame serialize_group_header envelope serialize_base_header
    put base_header_bytes to_le store_group_header LogStorage.open_block LogStorage.write_block
    lsn_2_block get_begin_lsn
sent_to_values = (refl, refl, refl, refl, refl, refl)

abbrev receiver : LogHandler
receiver = record log_handler { palf = some sent_twice }

handle-IsSendable : IsSendable receiver message handle
unfolding lookup lsn_2_offset
handle-IsSendable = record {
  typed = omega arith;
  size = refl;
  registered = refl;
  room = sent-HasRoom;
  size' = omega (arith, sent_size);
  within = omega (arith, sent_size);
  fits = omega (arith, sent_size);
}

sent_to-HasRoom : HasRoom (length sent) sent_to
sent_to-HasRoom =
    let (next, end_lsn, log_id, proposal, _, _) = sent_to_values in
    record {
      entry = omega (arith, sent_size);
      lsn = omega (arith, sent_size, next);
      end_lsn = omega (arith, end_lsn);
      log_id = omega (arith, log_id);
      proposal = omega (arith, proposal);
    }

sent_to_within : lsn_2_offset sent_to.max_lsn sent_to.storage.block_size + 66 ≤ 8192
unfolding do_append append PalfHandle.frame serialize_group_header envelope serialize_base_header
    put base_header_bytes to_le store_group_header LogStorage.open_block LogStorage.write_block
    lsn_2_block lsn_2_offset
sent_to_within = omega arith

sent_to-IsSendable : IsSendable receiver message sent_to
unfolding lookup
sent_to-IsSendable =
    let (_, _, _, _, blocks, _) = sent_to_values in
    record {
      typed = omega arith;
      size = refl;
      registered = refl;
      room = sent_to-HasRoom;
      size' = omega (arith, sent_size);
      within = omega (arith, sent_size, sent_to_within, blocks);
      fits = omega (arith, sent_size);
    }

whole : Appended os receiver handle (message ∷ message ∷ []) sent_twice
whole = one_more handle-IsSendable sent_done (one_more sent_to-IsSendable sent_twice_done none_left)

replay_ls-Appended_example :
    replay_ls keep 3 os [] (some receiver) [] ≡ returned success ((4 ∷ 5 ∷ []) ∷ (4 ∷ 5 ∷ []) ∷ [])
unfolding deliver_all
replay_ls-Appended_example =
    replay_ls-Appended keep os os receiver handle sent_twice (message ∷ message ∷ []) [] [] whole
      refl refl refl sent_to_values.5 refl (refl, refl, refl)
