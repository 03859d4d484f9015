-- ===== src/Memtable/MvccRow/Write.antt =====
-- ObMvccRow::mvcc_write: when it succeeds, what it links, and who may hold a row.
use lsm_storage.Prelude.{
  ℕ, ◌<◌, Bool, true, false, List, [], ◌∷◌, ltb, ◌==◌, ◌&&◌, not, if◌then◌else◌, success, failure,
  ◌≡◌, ◌≢◌, ◌⊎◌, inl, inr, refl, arith, subst, sym, ◌∙◌,
}
use lsm_storage.Store.{StoreCtx, invalid_version}
use lsm_storage.Memtable.Data.{TransNode}
use lsm_storage.Memtable.MvccRow.{
  MvccRow, conflict, stop, walk, mvcc_write, is_transaction_set_violation,
}

-- The newest version that is not aborted is undecided, and of another transaction.
abbrev pub IsBlocked : ℕ → List TransNode → Type 0
IsBlocked tx [] = ⊥
IsBlocked tx (n ∷ older) =
    ((n.aborted ≡ true) × IsBlocked tx older)
    ⊎ ((n.aborted ≡ false) × (n.committed ≡ false) × (n.tx_id ≢ tx))

-- A newer version is committed than the snapshot shows.
abbrev pub IsStale : StoreCtx → MvccRow → Type 0
IsStale ctx row =
    (ctx.snapshot_version ≢ invalid_version) × (ctx.snapshot_version < row.max_trans_version)

-- The chain without the aborted versions on top.
unfoldable pub drop_aborted : List TransNode → List TransNode
drop_aborted [] = []
drop_aborted (n ∷ older) = elim n.aborted [ true ↦ drop_aborted older | false ↦ n ∷ older ]

pub walk_cases :
    (tx : ℕ) (ns : List TransNode)
    → (IsBlocked tx ns × (walk tx ns ≡ conflict))
      ⊎ ((¬ IsBlocked tx ns) × (walk tx ns ≡ stop (drop_aborted ns)))
unfolding walk drop_aborted
walk_cases tx [] = inr (λ h. h, refl)
walk_cases tx (n ∷ older) = ground (arith, walk_cases tx older)

IsStale-cases :
    (ctx : StoreCtx) (row : MvccRow)
    → (IsStale ctx row × (is_transaction_set_violation row ctx.snapshot_version ≡ true))
      ⊎ ((¬ IsStale ctx row) × (is_transaction_set_violation row ctx.snapshot_version ≡ false))
unfolding is_transaction_set_violation
IsStale-cases ctx row = ground arith

-- The version that the chain got, and the higher of the row's version and a real snapshot.
abbrev pub written : StoreCtx → TransNode → MvccRow → MvccRow
written ctx node row = record row {
  versions = node ∷ drop_aborted row.versions;
  max_trans_version =
      if ltb row.max_trans_version ctx.snapshot_version
        && not (ctx.snapshot_version == invalid_version)
      then ctx.snapshot_version
      else row.max_trans_version;
}

-- The three outcomes of a write, each with its exact condition: a blocked row, whether or not the
-- snapshot is stale, is left as it was with write_conflict; a row that is not blocked is left as it
-- was, without write_conflict, by a stale snapshot; any other write links its version above the chain
-- and drops the aborted versions on top of it.
pub mvcc_write_cases :
    (ctx : StoreCtx) (node : TransNode) (check_exist : Bool) (row : MvccRow)
    → (IsBlocked ctx.tx_id row.versions
        × (mvcc_write ctx node check_exist row ≡ (row, true, failure)))
      ⊎ ((¬ IsBlocked ctx.tx_id row.versions)
          × IsStale ctx row
          × (mvcc_write ctx node check_exist row ≡ (row, false, failure)))
      ⊎ ((¬ IsBlocked ctx.tx_id row.versions)
          × (¬ IsStale ctx row)
          × (mvcc_write ctx node check_exist row ≡ (written ctx node row, false, success)))
unfolding mvcc_write
mvcc_write_cases ctx node check_exist row = elim (walk_cases ctx.tx_id row.versions) [
  | inl (b, e) ↦ inl (b, rw (e, mvcc_write) refl)
  | inr (free, e) ↦ elim (IsStale-cases ctx row) [
    | inl (old, t) ↦ inr (inl (free, old, rw (e, t, mvcc_write) refl))
    | inr (fresh, t) ↦ inr (inr (free, fresh, rw (e, t, mvcc_write) refl))
  ]
]

-- Every version is committed or aborted.
abbrev pub IsDecided : List TransNode → Type 0
IsDecided [] = Unit {0}
IsDecided (n ∷ older) = ((n.committed ≡ true) ⊎ (n.aborted ≡ true)) × IsDecided older

-- One transaction holds the row: each undecided version is its own, and lies above every
-- committed one.
abbrev pub IsHeld : ℕ → List TransNode → Type 0
IsHeld tx [] = Unit {0}
IsHeld tx (n ∷ older) =
    ((n.aborted ≡ true) × IsHeld tx older)
    ⊎ ((n.aborted ≡ false) × (n.committed ≡ false) × (n.tx_id ≡ tx) × IsHeld tx older)
    ⊎ ((n.aborted ≡ false) × (n.committed ≡ true) × IsDecided older)

IsDecided-IsHeld : (tx : ℕ) (ns : List TransNode) → IsDecided ns → IsHeld tx ns
IsDecided-IsHeld tx [] h = tt
IsDecided-IsHeld tx (n ∷ older) (d, h) = ground (arith, IsDecided-IsHeld tx older h)

-- A transaction that is not blocked takes the row over.
drop_aborted-IsHeld :
    (tx tx' : ℕ) (ns : List TransNode)
    → IsHeld tx ns
    → ¬ IsBlocked tx' ns
    → IsHeld tx' (drop_aborted ns)
unfolding drop_aborted
drop_aborted-IsHeld tx tx' [] h free = tt
drop_aborted-IsHeld tx tx' (n ∷ older) (inl (a, h)) free =
    rw a (drop_aborted-IsHeld tx tx' older h (λ b. free (inl (a, b))))
drop_aborted-IsHeld tx tx' (n ∷ older) (inr (inl (a, c, e, h))) free =
    let mine : n.tx_id ≡ tx' = ground (arith, λ (d : n.tx_id ≢ tx'). free (inr (a, c, d))) in
    rw a (inr (inl (a, c, mine, subst (λ t. IsHeld t older) (sym e ∙ mine) h)))
drop_aborted-IsHeld tx tx' (n ∷ older) (inr (inr (a, c, h))) free = rw a (inr (inr (a, c, h)))

-- A version that its transaction has not decided yet.
abbrev pub IsFresh : ℕ → TransNode → Type 0
IsFresh tx n = (n.aborted ≡ false) × (n.committed ≡ false) × (n.tx_id ≡ tx)

-- Writers exclude one another: if one transaction holds the row and another writes an undecided
-- version, then either the write is refused, or the writer now holds the row alone.
pub mvcc_write-IsHeld :
    (tx : ℕ) (ctx : StoreCtx) (node : TransNode) (check_exist : Bool) (row : MvccRow)
    → IsFresh ctx.tx_id node
    → IsHeld tx row.versions
    → ((mvcc_write ctx node check_exist row).2 ≡ failure)
        × ((mvcc_write ctx node check_exist row).0 ≡ row)
      ⊎ IsHeld ctx.tx_id (mvcc_write ctx node check_exist row).0.versions
mvcc_write-IsHeld tx ctx node check_exist row own held =
    elim (mvcc_write_cases ctx node check_exist row) [
      | inl (b, e) ↦ inl (rw e (refl, refl))
      | inr (inl (free, s, e)) ↦ inl (rw e (refl, refl))
      | inr (inr (free, fresh, e)) ↦ inr (
          rw e (
            inr
              (inl (own.0, own.1, own.2, drop_aborted-IsHeld tx ctx.tx_id row.versions held free))))
    ]
