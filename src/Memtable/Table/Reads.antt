-- ===== src/Memtable/Table/Reads.antt =====
-- What ObMemtable::set changes, told by what readers find.
use lsm_storage.Prelude.{
  ℕ, ◌<◌, true, false, ◌&&◌, not, some, List, [], ◌∷◌, length, get_elem?, ◌≡◌, refl, sym, ◌∙◌, ◌≢◌,
  ◌⊎◌, ◌↔◌, inl, inr, arith, ltb, ◌==◌, if◌then◌else◌, Ret, success, failure, get_elem?_exists,
  get_elem?-set_self, subst,
}
use lsm_storage.Prelude.Assoc.{lookup}
use lsm_storage.Store.{StoreRow, StoreCtx, StoreRowkey, invalid_version}
use lsm_storage.Memtable.Data.{TransNode, MemtableData}
use lsm_storage.Memtable.Key.{MemtableKey, wrapper_hash, empty_key, encode}
use lsm_storage.Memtable.Key.Hash.{row_key_hash, row_key-encode}
use lsm_storage.Memtable.MvccRow.{MvccRow}
use lsm_storage.Memtable.MvccRow
use lsm_storage.Memtable.MvccRow.Write.{IsBlocked, drop_aborted, written, mvcc_write_cases}
use lsm_storage.Memtable.QueryEngine.{QueryEngine, update_row}
use lsm_storage.Memtable.QueryEngine
use lsm_storage.Memtable.QueryEngine.Indexed.{IsIndexed, IsPlain, IsCommitted}
use lsm_storage.Memtable.MvccEngine.{
  TxNodeArg, create_kv, get_visible, chain_at, store_row, in_snapshot, build_tx_node, ensure_kv,
  find_visible,
}
use lsm_storage.Memtable.MvccEngine
use lsm_storage.Memtable.MvccEngine.Create.{
  find_at, version_at, Created, create_kv-Created, rewritten, rewritten-IsIndexed,
  find_at-rewritten, version_at-rewritten,
}
use lsm_storage.Memtable.Table.{Memtable, mvcc_write, write_value, set_logged, row_key, row_data}

IsCommitted-free : (tx : ℕ) (ns : List TransNode) → IsCommitted ns → ¬ IsBlocked tx ns
IsCommitted-free tx [] c b = b
IsCommitted-free tx (n ∷ older) c b = ground arith

IsCommitted-drop : (ns : List TransNode) → IsCommitted ns → drop_aborted ns ≡ ns
unfolding drop_aborted
IsCommitted-drop [] c = refl
IsCommitted-drop (n ∷ older) c = ground arith

-- The version that a write adds.
abbrev pub new_node : ℕ → MemtableData → TransNode
new_node tx d = record {
  tx_id = tx;
  trans_version = 1;
  node_type = 0;
  init = true;
  committed = true;
  aborted = false;
  stored = d;
}

-- The snapshot of a write is older than one that wrote under the hash before.
abbrev pub IsLate : StoreCtx → ℕ → QueryEngine → Type 0
IsLate ctx h qe =
    (ctx.snapshot_version ≢ invalid_version) × (ctx.snapshot_version < version_at h qe)

abbrev pub raised : StoreCtx → ℕ → ℕ
raised ctx v =
    if ltb v ctx.snapshot_version && not (ctx.snapshot_version == invalid_version)
    then ctx.snapshot_version
    else v

-- A write of `node` under `h`: refused with nothing for a reader to see, or seen by every reader
-- whose snapshot admits it, under that hash alone.
abbrev pub Outcome : StoreCtx → ℕ → TransNode → QueryEngine → QueryEngine → Ret → Type 0
Outcome ctx h node qe qe' ret =
    IsIndexed qe'
    × (IsLate ctx h qe
          × (ret ≡ failure)
          × ((c : StoreCtx) (h' : ℕ) → find_at c h' qe' ≡ find_at c h' qe)
          × ((h' : ℕ) → version_at h' qe' ≡ version_at h' qe)
        ⊎ ((¬ IsLate ctx h qe)
            × (ret ≡ success)
            × ((c : StoreCtx) (h' : ℕ)
                → find_at c h' qe' ≡ (
                    if (h == h') && in_snapshot c node
                    then some (store_row node)
                    else find_at c h' qe))
            × ((h' : ℕ)
                → version_at h' qe'
                  ≡ (if h == h' then raised ctx (version_at h qe) else version_at h' qe))))

module _ (ctx : StoreCtx) (arg : TxNodeArg) (d : MemtableData) (addr : ℕ) (row : MvccRow)
    (qe : QueryEngine) (some_data : arg.node_data ≡ some d) where
  write_value_late :
      MvccRow.mvcc_write ctx (new_node arg.tx_id d) true row ≡ (row, false, failure)
      → ((write_value ctx arg qe addr (some row)).0 ≡ qe)
        × ((write_value ctx arg qe addr (some row)).2 ≡ failure)
  unfolding write_value MvccEngine.mvcc_write
  write_value_late e = ground arith

  write_value_done :
      (row' : MvccRow)
      → MvccRow.mvcc_write ctx (new_node arg.tx_id d) true row ≡ (row', false, success)
      → row'.btree_indexed ≡ true
      → get_elem? qe.rows addr ≡ some row
      → addr < length qe.rows
      → ((write_value ctx arg qe addr (some row)).0 ≡ rewritten addr row' qe)
        × ((write_value ctx arg qe addr (some row)).2 ≡ success)
  unfolding write_value MvccEngine.mvcc_write ensure_kv QueryEngine.ensure update_row
  write_value_done row' e indexed at inside =
      ground (arith, get_elem?-set_self qe.rows addr row' inside)

module _ (h addr : ℕ) (row : MvccRow) (qe : QueryEngine) (found : lookup h qe.keyhash ≡ some addr)
    (here : get_elem? qe.rows addr ≡ some row) where
  find_at_row : (c : StoreCtx) → find_at c h qe ≡ get_visible c row.versions
  unfolding find_at
  find_at_row c = ground arith

  version_at_row : version_at h qe ≡ row.max_trans_version
  unfolding version_at
  version_at_row = ground arith

get_visible_new :
    (c : StoreCtx) (tx : ℕ) (d : MemtableData) (older : List TransNode)
    → get_visible c (new_node tx d ∷ older) ≡ (
        if in_snapshot c (new_node tx d)
        then some (store_row (new_node tx d))
        else get_visible c older)
unfolding get_visible
get_visible_new c tx d older = refl

-- The write to a row that is there.
write_value-Outcome :
    (ctx : StoreCtx) (arg : TxNodeArg) (d : MemtableData) (h addr : ℕ) (row : MvccRow)
    (qe : QueryEngine)
    → arg.node_data ≡ some d
    → IsIndexed qe
    → lookup h qe.keyhash ≡ some addr
    → get_elem? qe.rows addr ≡ some row
    → let r = write_value ctx arg qe addr (some row) in
      Outcome ctx h (new_node arg.tx_id d) qe r.0 r.2
write_value-Outcome ctx arg d h addr row qe some_data ok found at =
    let plain : IsPlain row = ok.plain addr row at in
    let inside : addr < length qe.rows = ok.bound h addr found in
    let node = new_node arg.tx_id d in
    let version = version_at_row h addr row qe found at in
    elim (mvcc_write_cases ctx (new_node arg.tx_id d) true row) [
      | inl (b, e) ↦ absurd (IsCommitted-free ctx.tx_id row.versions plain.chain b)
      | inr (inl (unblocked, late, e)) ↦
          let (same, failed) = write_value_late ctx arg d addr row qe some_data e in
          rw (same, failed)
            (ok, inl ((late.0, omega (arith, version, late.1)), refl, λ c h'. refl, λ h'. refl))
      | inr (inr (free, fresh, e)) ↦
          let chain = IsCommitted-drop row.versions plain.chain in
          let new : IsPlain (written ctx node row) = record {
            indexed = plain.indexed;
            chain = (refl, refl, refl, subst IsCommitted (sym chain) plain.chain);
          } in
          let (same, done) =
            write_value_done ctx arg d addr row qe some_data _ e plain.indexed at inside in
          rw (same, done)
            (
              rewritten-IsIndexed addr _ qe inside new ok,
              inr (
                λ late. fresh (late.0, omega (arith, version, late.1)),
                refl,
                λ c h'. ground (
                  arith,
                  find_at-rewritten c h addr (written ctx node row) qe h' found ok,
                  find_at_row h addr row qe found at c,
                  get_visible_new c arg.tx_id d (drop_aborted row.versions),
                  chain,
                ),
                λ h'. ground (
                  arith,
                  version_at-rewritten h addr (written ctx node row) qe h' found ok,
                  version,
                ),
              ),
            )
    ]

Created-Outcome :
    (ctx : StoreCtx) (h addr : ℕ) (node : TransNode) (qe qe' qe'' : QueryEngine) (ret : Ret)
    → Created h qe qe' addr
    → Outcome ctx h node qe' qe'' ret
    → Outcome ctx h node qe qe'' ret
Created-Outcome ctx h addr node qe qe' qe'' ret made (ok, inl (late, e, same, versions)) = (
  ok,
  inl (
    (late.0, omega (arith, made.versions h, late.1)),
    e,
    λ c h'. same c h' ∙ made.unseen c h',
    λ h'. versions h' ∙ made.versions h',
  ),
)
Created-Outcome ctx h addr node qe qe' qe'' ret made (ok, inr (fresh, e, seen, versions)) = (
  ok,
  inr (
    λ late. fresh (late.0, omega (arith, made.versions h, late.1)),
    e,
    λ c h'. rw (← made.unseen c h') (seen c h'),
    λ h'. ground (arith, versions h', made.versions h, made.versions h'),
  ),
)

mvcc_write_created :
    (ctx : StoreCtx) (key : MemtableKey) (arg : TxNodeArg) (qe qe' : QueryEngine) (addr : ℕ)
    (row : MvccRow)
    → create_kv key qe ≡ (qe', some addr, success)
    → get_elem? qe'.rows addr ≡ some row
    → mvcc_write ctx key arg qe ≡ write_value ctx arg qe' addr (some row)
unfolding mvcc_write
mvcc_write_created ctx key arg qe qe' addr row e at = ground arith

-- The write of any key: its row is found or made first.
pub mvcc_write-Outcome :
    (ctx : StoreCtx) (key : MemtableKey) (arg : TxNodeArg) (d : MemtableData) (qe : QueryEngine)
    → arg.node_data ≡ some d
    → key.hash_val ≡ wrapper_hash key.rowkey
    → IsIndexed qe
    → let r = mvcc_write ctx key arg qe in
      Outcome ctx (wrapper_hash key.rowkey) (new_node arg.tx_id d) qe r.0 r.2
mvcc_write-Outcome ctx key arg d qe some_data agree ok =
    let (qe', addr, e, made) = create_kv-Created key qe agree ok in
    let (row, at) = get_elem?_exists qe'.rows addr (made.ok.bound _ addr made.found) in
    let done = write_value-Outcome ctx arg d _ addr row qe' some_data made.ok made.found at in
    rw (mvcc_write_created ctx key arg qe qe' addr row e at)
      (Created-Outcome ctx _ addr _ qe qe' _ _ made done)

-- The hash under which a rowkey is filed: that of the empty key where the rowkey is invalid.
abbrev pub filed : StoreRowkey → ℕ
filed rk = wrapper_hash (encode (some rk) empty_key).0.rowkey

abbrev pub node_of : StoreCtx → StoreRow → TransNode
node_of ctx row = new_node ctx.tx_id (row_data row)

-- Of the engine, the part of set behind the log is the write of the row's key.
set_logged_engine :
    (ctx : StoreCtx) (row : StoreRow) (m : Memtable)
    → let r =
        mvcc_write ctx
          (row_key row)
          (record { tx_id = ctx.tx_id; node_data = some (row_data row); column_cnt = 0 })
          m.engine in
      ((set_logged ctx row m).0.engine ≡ r.0) × ((set_logged ctx row m).1 ≡ r.2)
unfolding set_logged
set_logged_engine ctx row m = ground arith

-- Over sound indexes, a write behind the log is refused exactly where a later snapshot wrote under the same hash, and
-- then no reader finds a difference; any other write succeeds, and every reader whose snapshot
-- admits version 1 finds the new row under that hash, and under every other hash what was there.
-- The indexes stay sound.
pub set_logged-Outcome :
    (ctx : StoreCtx) (row : StoreRow) (m : Memtable)
    → IsIndexed m.engine
    → let r = set_logged ctx row m in
      Outcome ctx (filed row.rowkey) (node_of ctx row) m.engine r.0.engine r.1
set_logged-Outcome ctx row m ok =
    let (same, ret) = set_logged_engine ctx row m in
    rw (same, ret, ← row_key-encode row)
      (mvcc_write-Outcome ctx (row_key row) _ (row_data row) m.engine refl (row_key_hash row) ok)

pub set_logged_seen :
    (ctx : StoreCtx) (row : StoreRow) (m : Memtable)
    → IsIndexed m.engine
    → (set_logged ctx row m).1 ≡ success
    → (c : StoreCtx) (h : ℕ)
    → find_at c h (set_logged ctx row m).0.engine ≡ (
        if (filed row.rowkey == h) && in_snapshot c (node_of ctx row)
        then some (store_row (node_of ctx row))
        else find_at c h m.engine)
set_logged_seen ctx row m ok e c h = elim (set_logged-Outcome ctx row m ok).1 [
  | inl (_, failed, _, _) ↦ cc
  | inr (_, _, seen, _) ↦ seen c h
]

pub set_logged_unseen :
    (ctx : StoreCtx) (row : StoreRow) (m : Memtable)
    → IsIndexed m.engine
    → (set_logged ctx row m).1 ≡ failure
    → (c : StoreCtx) (h : ℕ) → find_at c h (set_logged ctx row m).0.engine ≡ find_at c h m.engine
set_logged_unseen ctx row m ok e c h = elim (set_logged-Outcome ctx row m ok).1 [
  | inl (_, _, same, _) ↦ same c h
  | inr (_, done, _, _) ↦ cc
]

-- Exactly a write that is not late succeeds.
pub set_logged_iff :
    (ctx : StoreCtx) (row : StoreRow) (m : Memtable)
    → IsIndexed m.engine
    → ((set_logged ctx row m).1 ≡ failure) ↔ IsLate ctx (filed row.rowkey) m.engine
set_logged_iff ctx row m ok = elim (set_logged-Outcome ctx row m ok).1 [
  | inl (late, failed, _, _) ↦ (λ _. late, λ _. failed)
  | inr (fresh, done, _, _) ↦ (λ failed. cc, λ late. absurd (fresh late))
]
