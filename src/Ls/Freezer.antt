-- ===== src/Ls/Freezer.antt =====
-- ls/ob_freezer.h and ls/ob_freezer.cpp: the test that starts a freeze.
use lsm_storage.Prelude.{ℕ, Bool, true, false, not, Option, none, some, leb, if◌then◌else◌}
use lsm_storage.Ls.MemTableMgr.{MemTableMgr, get_total_occupied_size, set_is_tablet_freeze}

-- mgr_ is the manager that is passed along.
pub record Freezer : Type 0 where
  pub threshold : ℕ
  pub is_inited : Bool

unfoldable pub init : ℕ → Freezer → Freezer
init threshold f = record { threshold = threshold; is_inited = true }

-- The result of the freeze is not looked at.
unfoldable pub try_freeze : Freezer → MemTableMgr → Option (MemTableMgr × Bool)
try_freeze f mgr =
    if not f.is_inited then some (mgr, false) else elim (get_total_occupied_size mgr) [
      | none ↦ none
      | some (mgr', total) ↦ elim (leb f.threshold total) [
        | false ↦ some (mgr', false)
        | true ↦ elim (set_is_tablet_freeze mgr') [
          | none ↦ none
          | some (mgr'', _) ↦ some (mgr'', true)
        ]
      ]
    ]
