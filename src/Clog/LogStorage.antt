-- ===== src/Clog/LogStorage.antt =====
-- palf/lsn.h, palf/log_storage.h and palf/log_storage.cpp: the log as a row of block files.
-- An LSN, a block id and an offset are uint64. The directory is a map from block ids to files, and
-- what the system calls answer is an argument.
pub mod Append
pub mod Headers
pub mod Kept
use lsm_storage.Prelude.{
  ℕ, zero, suc, ◌+◌, ◌-◌, ◌*◌, ◌/◌, ◌%◌, ◌^◌, Bool, true, false, ◌&&◌, ◌||◌, not, Option, none,
  some, List, [], ◌∷◌, length, take, ltb, leb, ◌==◌, if◌then◌else◌, Ret, success, failure,
}
use lsm_storage.Prelude.Assoc
use lsm_storage.Prelude.File.{File, empty_file}
use lsm_storage.Prelude.File

-- 4 KB in front of each block, and 64 MB for a block with it.
abbrev pub max_info_block_size : ℕ
max_info_block_size = 4096

abbrev pub palf_phy_block_size : ℕ
palf_phy_block_size = 2 ^ 26

abbrev pub palf_block_size : ℕ
palf_block_size = palf_phy_block_size - max_info_block_size

unfoldable pub lsn_2_block : ℕ → ℕ → ℕ
lsn_2_block lsn block_size = lsn / block_size

unfoldable pub lsn_2_offset : ℕ → ℕ → ℕ
lsn_2_offset lsn block_size = lsn % block_size

-- Whether open, lseek, ftruncate and read succeed, and what write answers to a request.
pub record Os : Type 0 where
  pub opens : Bool
  pub seeks : Bool
  pub truncates : Bool
  pub reads : Bool
  pub writes : ℕ → Option ℕ

-- cur_fd_ and cur_block_id_ are one option: there is a descriptor exactly when there is an id.
pub record LogStorage : Type 0 where
  pub block_size : ℕ
  pub cur_block : Option ℕ
  pub max_block_id : ℕ
  pub min_block_id : ℕ
  pub is_inited : Bool
  pub files : List (ℕ × File)

unfoldable pub close_current_block : LogStorage → LogStorage
close_current_block s = record s { cur_block = none }

abbrev present : ℕ → List (ℕ × File) → List (ℕ × File)
present id files = elim (Assoc.lookup id files) [
  | none ↦ Assoc.insert id empty_file files
  | some f ↦ files
]

-- O_CREAT makes the file where there is none.
unfoldable pub open_block : Os → ℕ → LogStorage → LogStorage × Ret
unfolding close_current_block
open_block os id s =
    if os.opens
    then (record s { cur_block = some id; files = present id s.files }, success)
    else (close_current_block s, failure)

-- O_TRUNC, and then ftruncate to the size of a block.
unfoldable pub create_next_block : Os → LogStorage → LogStorage × Ret
create_next_block os s =
    let next_id = (s.max_block_id + 1) % 2 ^ 64 in
    if not os.opens
    then (s, failure)
    else if not os.truncates
    then (record s { files = Assoc.insert next_id empty_file s.files }, failure)
    else (
      record s {
        files = Assoc.insert next_id (File.truncate palf_phy_block_size empty_file) s.files;
        max_block_id = next_id;
      },
      success,
    )

-- How many of the blocks id, id + 1, … are there, up to `fuel`.
unfoldable pub count_blocks : ℕ → ℕ → List (ℕ × File) → ℕ
count_blocks zero id files = 0
count_blocks (suc fuel) id files =
    let rest = count_blocks fuel (id + 1) files in
    elim (Assoc.lookup id files) [ none ↦ 0 | some f ↦ rest + 1 ]

init_empty : Os → LogStorage → LogStorage × Ret
init_empty os s =
    let (s₁, r₁) =
      create_next_block os (record s { min_block_id = 0; max_block_id = 2 ^ 64 - 1 }) in
    elim r₁ [
      | failure ↦ (s₁, failure)
      | success ↦
          let (s₂, r₂) = open_block os 0 s₁ in
          elim r₂ [ failure ↦ (s₂, failure) | success ↦ (record s₂ { is_inited = true }, success) ]
    ]

-- The scan ends at the first id that has no file, after one round for each file at most.
unfoldable pub init : Os → ℕ → LogStorage → LogStorage × Ret
unfolding init_empty
init os block_size s =
    if s.is_inited
    then (s, failure)
    else let n = count_blocks (length s.files) 0 s.files in
      let sized = record s { block_size = block_size } in
      if n == 0
      then init_empty os sized
      else (record sized { min_block_id = 0; max_block_id = n - 1; is_inited = true }, success)

pub destroy : LogStorage → LogStorage
unfolding close_current_block
destroy s = record (close_current_block s) { is_inited = false }

-- write(2) through cur_fd_: the bytes it took are in the file, however many they are.
abbrev pub file_at : ℕ → LogStorage → File
file_at id s = elim (Assoc.lookup id s.files) [ none ↦ empty_file | some f ↦ f ]

unfoldable pub write_block : Os → ℕ → ℕ → List ℕ → LogStorage → LogStorage × Ret
write_block os id offset bytes s = elim (os.writes (length bytes)) [
  | none ↦ (s, failure)
  | some n ↦
      let file = File.write (offset + max_info_block_size) (take n bytes) (file_at id s) in
      let s' = record s { files = Assoc.insert id file s.files } in
      if n == length bytes
      then (if ltb s.max_block_id id then record s' { max_block_id = id } else s', success)
      else (s', failure)
]

abbrev pub is_current : ℕ → Option ℕ → Bool
is_current id none = false
is_current id (some cur) = cur == id

unfoldable pub append : Os → ℕ → List ℕ → LogStorage → LogStorage × Ret
append os lsn bytes s =
    let id = lsn_2_block lsn s.block_size in
    let offset = lsn_2_offset lsn s.block_size in
    if not s.is_inited
    then (s, failure)
    else if length bytes == 0
    then (s, success)
    else let opened = if is_current id s.cur_block then (s, success) else open_block os id s in
      elim opened.1 [
        | failure ↦ (opened.0, failure)
        | success ↦
            if os.seeks then write_block os id offset bytes opened.0 else (opened.0, failure)
      ]

-- `capacity` is the length of the caller's buffer. None is -1.
unfoldable pub read : Os → ℕ → ℕ → ℕ → LogStorage → Option (List ℕ)
read os lsn in_size capacity s =
    let id = lsn_2_block lsn s.block_size in
    let offset = lsn_2_offset lsn s.block_size in
    let asked = if ltb capacity in_size then capacity else in_size in
    let n = if ltb s.block_size (offset + asked) then s.block_size - offset else asked in
    if not s.is_inited || not os.opens then none else elim (Assoc.lookup id s.files) [
      | none ↦ none
      | some f ↦
          if os.seeks && os.reads then some (File.read n (offset + max_info_block_size) f) else none
    ]

-- The ids from `id` on, `n` of them, are unlinked.
unfoldable pub unlink : ℕ → ℕ → List (ℕ × File) → List (ℕ × File)
unlink zero id files = files
unlink (suc n) id files = unlink n (id + 1) (Assoc.erase id files)

unfoldable pub truncate : Os → ℕ → LogStorage → LogStorage × Ret
unfolding unlink
truncate os lsn s =
    let id = lsn_2_block lsn s.block_size in
    let offset = lsn_2_offset lsn s.block_size in
    elim (Assoc.lookup id s.files) [
      | none ↦ (s, failure)
      | some f ↦
          if os.opens && os.truncates
          then (
            record s {
              files =
                  unlink (s.max_block_id - id) (id + 1)
                    (Assoc.insert id (File.truncate (offset + max_info_block_size) f) s.files);
              max_block_id = id;
            },
            success,
          )
          else (s, failure)
    ]

pub truncate_prefix_blocks : ℕ → LogStorage → LogStorage
unfolding unlink
truncate_prefix_blocks lsn s =
    let id = lsn_2_block lsn s.block_size in
    record s { files = unlink (id - s.min_block_id) s.min_block_id s.files; min_block_id = id }

unfoldable pub get_begin_lsn : LogStorage → ℕ
get_begin_lsn s = s.min_block_id * s.block_size % 2 ^ 64
