-- ===== src/Ls/ObStore.antt =====
-- ls/ob_ls.h and ls/ob_ls.cpp: ObStore, the tablets by name and by id. The mutex makes a call one
-- step. A pointer is an address, and `heap` holds the tablets that are not deleted.
pub mod Sound
pub mod Calls
use lsm_storage.Prelude.{
  ℕ, ◌+◌, Bool, true, false, Option, none, some, List, [], ◌∷◌, map, Ret, success, failure,
}
use lsm_storage.Prelude.Assoc
use lsm_storage.Prelude.Dict
use lsm_storage.Schema.{same_string}
use lsm_storage.Ls.Freezer.{try_freeze}
use lsm_storage.Ls.Tablet.{Tablet, new_tablet}
use lsm_storage.Ls.Tablet

pub record Store : Type 0 where
  pub tablets_by_name : List (List ℕ × ℕ)
  pub tablets_by_id : List (ℕ × ℕ)
  pub heap : List (ℕ × Tablet)
  pub next_address : ℕ
  pub is_inited : Bool

-- ObStore()
abbrev pub new_store : Store
new_store = record {
  tablets_by_name = [];
  tablets_by_id = [];
  heap = [];
  next_address = 0;
  is_inited = false;
}

-- The directory is made where there is none.
unfoldable pub init : Store → Store × Ret
init s = (record s { is_inited = true }, success)

unfoldable pub get_by_name : List ℕ → Store → Option ℕ
get_by_name name s = Dict.lookup same_string name s.tablets_by_name

unfoldable pub get_by_id : ℕ → Store → Option ℕ
get_by_id id s = Assoc.lookup id s.tablets_by_id

-- create_tablet: only the name is looked for.
unfoldable pub create_tablet : List ℕ → ℕ → Store → Store × Ret
unfolding get_by_name
create_tablet name id s = elim (get_by_name name s) [
  | some address ↦ (s, failure)
  | none ↦ (
    record s {
      heap = Assoc.insert s.next_address (Tablet.init id new_tablet).0 s.heap;
      tablets_by_name = Dict.insert same_string name s.next_address s.tablets_by_name;
      tablets_by_id = Assoc.insert id s.next_address s.tablets_by_id;
      next_address = s.next_address + 1;
    },
    success,
  )
]

-- drop_tablet of an object that is there.
unfoldable pub forget : List ℕ → ℕ → Tablet → Store → Store
forget name address t s = record s {
  tablets_by_name = Dict.remove same_string name s.tablets_by_name;
  tablets_by_id = Assoc.remove t.tablet_id s.tablets_by_id;
  heap = Assoc.remove address s.heap;
}

-- None is the use of a tablet that is deleted.
unfoldable pub drop_tablet : List ℕ → Store → Option (Store × Ret)
unfolding get_by_name forget
drop_tablet name s = elim (get_by_name name s) [
  | none ↦ some (s, failure)
  | some address ↦ elim (Assoc.lookup address s.heap) [
    | none ↦ none
    | some t ↦ some (forget name address t s, success)
  ]
]

-- The tablet after the freezer looked at it; none where that never returns.
unfoldable pub freeze_tablet : Tablet → Option Tablet
freeze_tablet t = elim (try_freeze t.freezer t.table_store.memtable_mgr) [
  | none ↦ none
  | some (mgr, froze) ↦
      some (record t { table_store = record (t.table_store) { memtable_mgr = mgr } })
]

-- The loop of try_freeze_all over the addresses in the order of the map; none where a call never
-- returns or a tablet is deleted.
unfoldable pub freeze_all : List ℕ → List (ℕ × Tablet) → Option (List (ℕ × Tablet))
unfolding freeze_tablet
freeze_all [] heap = some heap
freeze_all (address ∷ rest) heap = elim (Assoc.lookup address heap) [
  | none ↦ none
  | some t ↦ elim (freeze_tablet t) [
    | none ↦ none
    | some t' ↦ freeze_all rest (Assoc.insert address t' heap)
  ]
]

-- `order` is the order in which the iterator goes over the map.
unfoldable pub try_freeze_all : (List (List ℕ × ℕ) → List (List ℕ × ℕ)) → Store → Option Store
unfolding freeze_all
try_freeze_all order s = elim (freeze_all (map (λ e. e.1) (order s.tablets_by_name)) s.heap) [
  | none ↦ none
  | some heap ↦ some (record s { heap = heap })
]
