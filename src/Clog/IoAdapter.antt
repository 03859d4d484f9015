-- ===== src/Clog/IoAdapter.antt =====
-- palf/log_io_adapter.h and log_io_adapter.cpp: LogIOAdapter. The directory is a map from file ids to
-- files, and what the system calls answer is an argument.
use lsm_storage.Prelude.{
  ℕ, ◌≡◌, ◌≢◌, take_all, Bool, true, false, not, ◌||◌, Option, none, some, List, ◌==◌, length, take,
  if◌then◌else◌, Ret, success, failure, arith,
}
use lsm_storage.Prelude.Assoc.{lookup, insert, lookup-insert}
use lsm_storage.Prelude.File.{File, empty_file, peek-poke, peek, poke}
use lsm_storage.Prelude.File
use lsm_storage.Clog.LogStorage.{Os}

pub record IoAdapter : Type 0 where
  pub files : List (ℕ × File)
  pub is_inited : Bool

-- LogIOAdapter(), with what the directory holds.
abbrev pub new_adapter : List (ℕ × File) → IoAdapter
new_adapter files = record { files = files; is_inited = false }

unfoldable pub init : IoAdapter → IoAdapter × Ret
init a = (record a { is_inited = true }, success)

unfoldable pub destroy : IoAdapter → IoAdapter
destroy a = record a { is_inited = false }

-- O_CREAT makes the file where there is none.
abbrev pub file_of : ℕ → IoAdapter → File
file_of id a = elim (lookup id a.files) [ none ↦ empty_file | some f ↦ f ]

abbrev pub store : ℕ → File → IoAdapter → IoAdapter
store id f a = record a { files = insert id f a.files }

-- The bytes that a short write took are in the file.
unfoldable pub pwrite : Os → ℕ → List ℕ → ℕ → IoAdapter → IoAdapter × Ret
pwrite os id bytes offset a =
    if not os.opens
    then (a, failure)
    else if not os.seeks
    then (store id (file_of id a) a, failure)
    else elim (os.writes (length bytes)) [
      | none ↦ (store id (file_of id a) a, failure)
      | some n ↦ (
        store id (File.write offset (take n bytes) (file_of id a)) a,
        if n == length bytes then success else failure,
      )
    ]

-- The bytes that are read; none where a call fails.
unfoldable pub pread : Os → ℕ → ℕ → ℕ → IoAdapter → Option (List ℕ)
pread os id n offset a = elim (lookup id a.files) [
  | none ↦ none
  | some f ↦
      if not os.opens || not os.seeks || not os.reads then none else some (File.read n offset f)
]

-- What a write that succeeds leaves in the files.
pwrite_success :
    (os : Os) (id : ℕ) (bytes : List ℕ) (offset : ℕ) (a a' : IoAdapter)
    → pwrite os id bytes offset a ≡ (a', success)
    → (a'.files ≡ insert id (File.write offset bytes (file_of id a)) a.files)
      × (os.opens ≡ true)
      × (os.seeks ≡ true)
unfolding pwrite
pwrite_success os id bytes offset a a' e = ground (arith, take_all bytes)

-- What a successful write put at an offset is read from there by the same number of bytes, and a
-- read of another file finds what it found before.
pub pread-pwrite :
    (os : Os) (id other : ℕ) (bytes : List ℕ) (offset at n : ℕ) (a a' : IoAdapter)
    → pwrite os id bytes offset a ≡ (a', success)
    → os.reads ≡ true
    → other ≢ id
    → (pread os id (length bytes) offset a' ≡ some bytes)
      × (pread os other n at a' ≡ pread os other n at a)
unfolding pread File.read File.write
pread-pwrite os id other bytes offset at n a a' e reads apart =
    let (files, opens, seeks) = pwrite_success os id bytes offset a a' e in
    let file = File.write offset bytes (file_of id a) in
    (
      rw files (
          ground
            (arith, lookup-insert id id file a.files, peek-poke offset bytes (file_of id a).byte)),
      rw files (ground (arith, lookup-insert id other file a.files)),
    )
