-- ===== src/Ls/MemTableMgr.antt =====
-- ls/ob_memtable_mgr.h and ls/ob_memtable_mgr.cpp: the active and the frozen memtables of a tablet.
-- mutex_ is a std::mutex: a thread that locks it again while it holds it waits for ever. None is a
-- call that never returns.
pub mod Freeze
use lsm_storage.Prelude.{
  ℕ, zero, suc, ◌+◌, Bool, true, false, Option, none, some, List, [], ◌∷◌, ◌++◌, if◌then◌else◌, Ret,
  success, failure,
}
use lsm_storage.Memtable.Table.{Memtable, new_memtable, set_frozen}
use lsm_storage.Memtable.Table

-- `locked` is whether the calling thread holds mutex_.
pub record MemTableMgr : Type 0 where
  pub tablet_id : ℕ
  pub active_memtable : Option Memtable
  pub frozen_memtables : List Memtable
  pub locked : Bool
  pub is_inited : Bool

-- ObMemTableMgr()
abbrev pub new_mgr : MemTableMgr
new_mgr = record {
  tablet_id = 0;
  active_memtable = none;
  frozen_memtables = [];
  locked = false;
  is_inited = false;
}

unfoldable pub init : ℕ → MemTableMgr → MemTableMgr × Ret
init tablet_id mgr = (record mgr { tablet_id = tablet_id; is_inited = true }, success)

abbrev unlocked {ℓ} : {R : Type ℓ} → Option (MemTableMgr × R) → Option (MemTableMgr × R)
unlocked none = none
unlocked (some (mgr, r)) = some (record mgr { locked = false }, r)

-- std::lock_guard over a body.
unfoldable pub guarded {ℓ} :
    {R : Type ℓ} → (MemTableMgr → Option (MemTableMgr × R)) → MemTableMgr → Option (MemTableMgr × R)
guarded body mgr = if mgr.locked then none else unlocked (body (record mgr { locked = true }))

make_active : MemTableMgr → Option (MemTableMgr × Memtable)
make_active mgr = elim mgr.active_memtable [
  | some m ↦ some (mgr, m)
  | none ↦
      let m = (Table.init mgr.tablet_id new_memtable).0 in
      some (record mgr { active_memtable = some m }, m)
]

unfoldable pub get_active_memtable : MemTableMgr → Option (MemTableMgr × Memtable)
unfolding make_active
get_active_memtable mgr = guarded make_active mgr

freeze : MemTableMgr → Option (MemTableMgr × Ret)
freeze mgr = elim mgr.active_memtable [
  | none ↦ some (mgr, success)
  | some m ↦
      elim (get_active_memtable (record mgr {
        frozen_memtables = mgr.frozen_memtables ++ set_frozen m ∷ [];
        active_memtable = none;
      })) [ none ↦ none | some (mgr', _) ↦ some (mgr', success) ]
]

unfoldable pub set_is_tablet_freeze : MemTableMgr → Option (MemTableMgr × Ret)
unfolding freeze
set_is_tablet_freeze mgr = guarded freeze mgr

-- The active memtable comes first.
unfoldable pub get_all_memtables :
    List Memtable → MemTableMgr → Option (MemTableMgr × List Memtable)
get_all_memtables out = guarded (λ mgr. some (
  mgr,
  elim mgr.active_memtable [
    | none ↦ out ++ mgr.frozen_memtables
    | some m ↦ out ++ (m ∷ mgr.frozen_memtables)
  ],
))

abbrev pub sum_sizes : List Memtable → ℕ
sum_sizes [] = 0
sum_sizes (m ∷ rest) = m.occupy_size + sum_sizes rest

abbrev pub total_size : MemTableMgr → ℕ
total_size mgr = elim mgr.active_memtable [
  | none ↦ sum_sizes mgr.frozen_memtables
  | some m ↦ m.occupy_size + sum_sizes mgr.frozen_memtables
]

unfoldable pub get_total_occupied_size : MemTableMgr → Option (MemTableMgr × ℕ)
get_total_occupied_size = guarded (λ mgr. some (mgr, total_size mgr))

-- The list without the element at a position; none where there is no such element.
unfoldable pub erase_at : ℕ → List Memtable → Option (List Memtable)
erase_at i [] = none
erase_at zero (m ∷ rest) = some rest
erase_at (suc i) (m ∷ rest) = elim (erase_at i rest) [ none ↦ none | some left ↦ some (m ∷ left) ]

-- The pointer is the position of the memtable in the list.
unfoldable pub remove_frozen_memtable : ℕ → MemTableMgr → Option (MemTableMgr × Ret)
remove_frozen_memtable i = guarded (λ mgr. elim (erase_at i mgr.frozen_memtables) [
  | none ↦ some (mgr, failure)
  | some left ↦ some (record mgr { frozen_memtables = left }, success)
])
