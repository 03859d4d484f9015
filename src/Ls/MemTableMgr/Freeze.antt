-- ===== src/Ls/MemTableMgr/Freeze.antt =====
-- The lock of a manager, and what a freeze does with it.
use lsm_storage.Prelude.{
  ℕ, ◌≤◌, ◌<◌, Bool, true, false, none, some, List, [], leb, Ret, success, Option-cases, Bool-cases,
  ◌≡◌, refl, ◌⊎◌, inl, inr, arith,
}
use lsm_storage.Memtable.Table.{Memtable}
use lsm_storage.Ls.MemTableMgr.{
  MemTableMgr, new_mgr, init, guarded, get_active_memtable, set_is_tablet_freeze, get_all_memtables,
  get_total_occupied_size, total_size, erase_at, remove_frozen_memtable,
}
use lsm_storage.Ls.Freezer.{Freezer, try_freeze}

-- A freeze, called by a thread that does not hold the lock, returns only where there is no active
-- memtable, and then changes nothing; where there is one, it locks the mutex that it holds and
-- never returns.
pub set_is_tablet_freeze_cases :
    (mgr : MemTableMgr)
    → mgr.locked ≡ false
    → ((mgr.active_memtable ≡ none) × (set_is_tablet_freeze mgr ≡ some (mgr, success)))
      ⊎ ((m : Memtable) × (mgr.active_memtable ≡ some m) × (set_is_tablet_freeze mgr ≡ none))
unfolding set_is_tablet_freeze guarded get_active_memtable
set_is_tablet_freeze_cases mgr free = elim (Option-cases mgr.active_memtable) [
  | inl e ↦ inl (e, ground arith)
  | inr (m, e) ↦ inr (m, e, ground arith)
]

-- The managers that calls which return lead to. A caller that got the active memtable may have
-- changed it in any way.
pub data Reachable : MemTableMgr → Type 0 where
  made : (tablet_id : ℕ) → Reachable (init tablet_id new_mgr).0
  got :
      (mgr mgr' : MemTableMgr) (m m' : Memtable)
      → Reachable mgr
      → get_active_memtable mgr ≡ some (mgr', m)
      → Reachable (record mgr' { active_memtable = some m' })
  froze :
      (mgr mgr' : MemTableMgr) (ret : Ret)
      → Reachable mgr
      → set_is_tablet_freeze mgr ≡ some (mgr', ret)
      → Reachable mgr'
  removed :
      (mgr mgr' : MemTableMgr) (i : ℕ) (ret : Ret)
      → Reachable mgr
      → remove_frozen_memtable i mgr ≡ some (mgr', ret)
      → Reachable mgr'
  listed :
      (mgr mgr' : MemTableMgr) (out all : List Memtable)
      → Reachable mgr
      → get_all_memtables out mgr ≡ some (mgr', all)
      → Reachable mgr'
  tried :
      (f : Freezer) (mgr mgr' : MemTableMgr) (frozen : Bool)
      → Reachable mgr
      → try_freeze f mgr ≡ some (mgr', frozen)
      → Reachable mgr'

abbrev IsIdle : MemTableMgr → Type 0
IsIdle mgr = (mgr.locked ≡ false) × (mgr.frozen_memtables ≡ [])

get_active_memtable-IsIdle :
    (mgr mgr' : MemTableMgr) (m : Memtable)
    → IsIdle mgr
    → get_active_memtable mgr ≡ some (mgr', m)
    → IsIdle mgr'
unfolding get_active_memtable guarded
get_active_memtable-IsIdle mgr mgr' m idle e = elim (Option-cases mgr.active_memtable) [
  | inl none_yet ↦ ground arith
  | inr (a, there) ↦ ground arith
]

set_is_tablet_freeze-IsIdle :
    (mgr mgr' : MemTableMgr) (ret : Ret)
    → IsIdle mgr
    → set_is_tablet_freeze mgr ≡ some (mgr', ret)
    → IsIdle mgr'
set_is_tablet_freeze-IsIdle mgr mgr' ret idle e = elim (set_is_tablet_freeze_cases mgr idle.0) [
  | inl (_, same) ↦ ground arith
  | inr (_, _, stuck) ↦ ground arith
]

remove_frozen_memtable-IsIdle :
    (mgr mgr' : MemTableMgr) (i : ℕ) (ret : Ret)
    → IsIdle mgr
    → remove_frozen_memtable i mgr ≡ some (mgr', ret)
    → IsIdle mgr'
unfolding remove_frozen_memtable guarded erase_at
remove_frozen_memtable-IsIdle mgr mgr' i ret idle e = ground arith

get_all_memtables-IsIdle :
    (mgr mgr' : MemTableMgr) (out all : List Memtable)
    → IsIdle mgr
    → get_all_memtables out mgr ≡ some (mgr', all)
    → IsIdle mgr'
unfolding get_all_memtables guarded
get_all_memtables-IsIdle mgr mgr' out all idle e = ground arith

total_lem :
    (mgr : MemTableMgr)
    → mgr.locked ≡ false
    → get_total_occupied_size mgr ≡ some (mgr, total_size mgr)
unfolding get_total_occupied_size guarded
total_lem mgr free = ground arith

-- What the test for a freeze does, called by a thread that does not hold the lock: it says no and
-- changes nothing where the freezer is not set up or the memtables are below the threshold; at the
-- threshold it says yes and changes nothing where there is no active memtable, and never returns
-- where there is one.
pub try_freeze_cases :
    (f : Freezer) (mgr : MemTableMgr)
    → mgr.locked ≡ false
    → (((f.is_inited ≡ false) ⊎ (total_size mgr < f.threshold))
        × (try_freeze f mgr ≡ some (mgr, false)))
      ⊎ ((f.is_inited ≡ true)
          × (f.threshold ≤ total_size mgr)
          × (mgr.active_memtable ≡ none)
          × (try_freeze f mgr ≡ some (mgr, true)))
      ⊎ ((f.is_inited ≡ true)
          × (f.threshold ≤ total_size mgr)
          × (m : Memtable) × (mgr.active_memtable ≡ some m)
          × (try_freeze f mgr ≡ none))
unfolding try_freeze
try_freeze_cases f mgr free = elim (Bool-cases f.is_inited) [
  | inr off ↦ inl (inl off, ground arith)
  | inl on ↦ elim (Bool-cases (leb f.threshold (total_size mgr))) [
    | inr below ↦ inl (inr (ground arith), ground (arith, total_lem mgr free))
    | inl reached ↦ elim (set_is_tablet_freeze_cases mgr free) [
      | inl (e, done) ↦ inr (inl (on, ground arith, e, ground (arith, total_lem mgr free, done)))
      | inr (m, e, stuck) ↦
          inr (inr (on, ground arith, m, e, ground (arith, total_lem mgr free, stuck)))
    ]
  ]
]

try_freeze-IsIdle :
    (f : Freezer) (mgr mgr' : MemTableMgr) (frozen : Bool)
    → IsIdle mgr
    → try_freeze f mgr ≡ some (mgr', frozen)
    → IsIdle mgr'
try_freeze-IsIdle f mgr mgr' frozen idle e = elim (try_freeze_cases f mgr idle.0) [
  | inl (_, same) ↦ ground arith
  | inr (inl (_, _, _, same)) ↦ ground arith
  | inr (inr (_, _, _, _, stuck)) ↦ ground arith
]

-- Whatever calls return, the lock is free afterwards and no memtable is ever frozen.
pub Reachable-frozen :
    (mgr : MemTableMgr) → Reachable mgr → (mgr.locked ≡ false) × (mgr.frozen_memtables ≡ [])
unfolding init
Reachable-frozen mgr (made tablet_id) = (refl, refl)
Reachable-frozen mgr (got before mgr' m m' r e) =
    get_active_memtable-IsIdle before mgr' m (Reachable-frozen before r) e
Reachable-frozen mgr (froze before mgr' ret r e) =
    set_is_tablet_freeze-IsIdle before mgr' ret (Reachable-frozen before r) e
Reachable-frozen mgr (removed before mgr' i ret r e) =
    remove_frozen_memtable-IsIdle before mgr' i ret (Reachable-frozen before r) e
Reachable-frozen mgr (listed before mgr' out all r e) =
    get_all_memtables-IsIdle before mgr' out all (Reachable-frozen before r) e
Reachable-frozen mgr (tried f before mgr' frozen r e) =
    try_freeze-IsIdle f before mgr' frozen (Reachable-frozen before r) e
