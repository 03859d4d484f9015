-- ===== src/Memtable/MvccEngine/Create.antt =====
-- Finding or making the row of a key, and what readers see of both.
use lsm_storage.Prelude.{
  ℕ, ◌<◌, true, Option, none, some, [], ◌∷◌, ◌++◌, length, get_elem?, set as set_elem, ◌≡◌, refl,
  sym, ap₂, ◌∙◌, inl, inr, arith, ◌==◌, if◌then◌else◌, success, Option-cases, ℕ_discrete,
  set-append_end, get_elem?-append_end, get_elem?-set_self, get_elem?-set_ne,
  get_elem?-append_end_bound, length-append, length-set, get_elem?-append_left, subst,
}
use lsm_storage.Prelude.Assoc.{lookup, insert, lookup-insert}
use lsm_storage.Store.{StoreRow, StoreCtx}
use lsm_storage.Memtable.Key.{MemtableKey, wrapper_hash}
use lsm_storage.Memtable.MvccRow.{MvccRow, empty_mvcc_row}
use lsm_storage.Memtable.QueryEngine.{QueryEngine, update_row, hash_set, hash_get}
use lsm_storage.Memtable.QueryEngine
use lsm_storage.Memtable.QueryEngine.Indexed.{IsIndexed, IsPlain}
use lsm_storage.Memtable.MvccEngine.{create_kv, get_visible, chain_at}

-- What a reader finds under a hash.
unfoldable pub find_at : StoreCtx → ℕ → QueryEngine → Option StoreRow
find_at ctx h qe = elim (lookup h qe.keyhash) [
  | none ↦ none
  | some addr ↦ get_visible ctx (chain_at qe addr)
]

-- The highest snapshot that wrote under a hash; 0 where nothing did.
unfoldable pub version_at : ℕ → QueryEngine → ℕ
version_at h qe = elim (lookup h qe.keyhash) [
  | none ↦ 0
  | some addr ↦ elim (get_elem? qe.rows addr) [ none ↦ 0 | some row ↦ row.max_trans_version ]
]

abbrev pub indexed_row : MvccRow
indexed_row = record {
  hash_indexed = true;
  btree_indexed = true;
  max_trans_version = 0;
  versions = [];
}

-- The engine with a new row for `key`.
abbrev pub grown : MemtableKey → QueryEngine → QueryEngine
grown key qe = record {
  keyhash = insert (wrapper_hash key.rowkey) (length qe.rows) qe.keyhash;
  btree = insert key.hash_val (length qe.rows) qe.btree;
  rows = qe.rows ++ indexed_row ∷ [];
}

pub create_kv_found :
    (key : MemtableKey) (qe : QueryEngine) (addr : ℕ)
    → lookup (wrapper_hash key.rowkey) qe.keyhash ≡ some addr
    → create_kv key qe ≡ (qe, some addr, success)
unfolding create_kv QueryEngine.get
create_kv_found key qe addr e = rw (e, create_kv, QueryEngine.get, hash_get) refl

pub create_kv_fresh :
    (key : MemtableKey) (qe : QueryEngine)
    → lookup (wrapper_hash key.rowkey) qe.keyhash ≡ none
    → create_kv key qe ≡ (grown key qe, some (length qe.rows), success)
unfolding create_kv QueryEngine.get QueryEngine.set update_row
create_kv_fresh key qe e = ground (
  arith,
  get_elem?-append_end qe.rows empty_mvcc_row,
  set-append_end qe.rows empty_mvcc_row indexed_row,
)

-- A row is told from another by its hash.
grown-IsIndexed :
    (key : MemtableKey) (qe : QueryEngine)
    → key.hash_val ≡ wrapper_hash key.rowkey
    → lookup (wrapper_hash key.rowkey) qe.keyhash ≡ none
    → IsIndexed qe
    → IsIndexed (grown key qe)
grown-IsIndexed key qe agree absent ok = record {
  same = ap₂ (λ h t. insert h (length qe.rows) t) agree ok.same;
  bound = λ h a e. ground (
    arith,
    lookup-insert (wrapper_hash key.rowkey) h (length qe.rows) qe.keyhash,
    ok.bound h a,
    length-append qe.rows (indexed_row ∷ []),
  );
  apart = λ h h' a e e'. ground (
    arith,
    lookup-insert (wrapper_hash key.rowkey) h (length qe.rows) qe.keyhash,
    lookup-insert (wrapper_hash key.rowkey) h' (length qe.rows) qe.keyhash,
    ok.bound h a,
    ok.bound h' a,
    ok.apart h h' a,
  );
  plain = λ a row e. elim (get_elem?-append_end_bound qe.rows indexed_row row a e) [
    | inl old ↦ ok.plain a row old
    | inr new ↦ subst IsPlain new (record { indexed = refl; chain = tt })
  ];
}

find_at-grown :
    (ctx : StoreCtx) (key : MemtableKey) (qe : QueryEngine) (h : ℕ)
    → lookup (wrapper_hash key.rowkey) qe.keyhash ≡ none
    → IsIndexed qe
    → find_at ctx h (grown key qe) ≡ find_at ctx h qe
unfolding find_at get_visible
find_at-grown ctx key qe h absent ok = elim (Option-cases (lookup h qe.keyhash)) [
  | inl e ↦ ground (
    arith,
    lookup-insert (wrapper_hash key.rowkey) h (length qe.rows) qe.keyhash,
    get_elem?-append_end qe.rows indexed_row,
  )
  | inr (a, e) ↦ ground (
    arith,
    lookup-insert (wrapper_hash key.rowkey) h (length qe.rows) qe.keyhash,
    get_elem?-append_left qe.rows (indexed_row ∷ []) a (ok.bound h a e),
  )
]

version_at-grown :
    (key : MemtableKey) (qe : QueryEngine) (h : ℕ)
    → lookup (wrapper_hash key.rowkey) qe.keyhash ≡ none
    → IsIndexed qe
    → version_at h (grown key qe) ≡ version_at h qe
unfolding version_at
version_at-grown key qe h absent ok = elim (Option-cases (lookup h qe.keyhash)) [
  | inl e ↦ ground (
    arith,
    lookup-insert (wrapper_hash key.rowkey) h (length qe.rows) qe.keyhash,
    get_elem?-append_end qe.rows indexed_row,
  )
  | inr (a, e) ↦ ground (
    arith,
    lookup-insert (wrapper_hash key.rowkey) h (length qe.rows) qe.keyhash,
    get_elem?-append_left qe.rows (indexed_row ∷ []) a (ok.bound h a e),
  )
]

-- What create_kv leaves: the row of the key at an address, and nothing that a reader could tell.
pub record Created (h : ℕ) (qe qe' : QueryEngine) (addr : ℕ) : Type 0 where
  pub ok : IsIndexed qe'
  pub found : lookup h qe'.keyhash ≡ some addr
  pub unseen : (ctx : StoreCtx) (h' : ℕ) → find_at ctx h' qe' ≡ find_at ctx h' qe
  pub versions : (h' : ℕ) → version_at h' qe' ≡ version_at h' qe

-- For a key whose cached hash is that of its rowkey, over sound indexes: the row of the key is found
-- or made, the indexes stay sound, and no reader sees a difference.
pub create_kv-Created :
    (key : MemtableKey) (qe : QueryEngine)
    → key.hash_val ≡ wrapper_hash key.rowkey
    → IsIndexed qe
    → (qe' : QueryEngine) × (addr : ℕ) × (create_kv key qe ≡ (qe', some addr, success))
      × Created (wrapper_hash key.rowkey) qe qe' addr
create_kv-Created key qe agree ok =
    elim (Option-cases (lookup (wrapper_hash key.rowkey) qe.keyhash)) [
      | inl e ↦ (
        grown key qe,
        length qe.rows,
        create_kv_fresh key qe e,
        record {
          ok = grown-IsIndexed key qe agree e ok;
          found = ground (
            arith,
            lookup-insert (wrapper_hash key.rowkey) (wrapper_hash key.rowkey) (length qe.rows)
                qe.keyhash,
          );
          unseen = λ ctx h. find_at-grown ctx key qe h e ok;
          versions = λ h. version_at-grown key qe h e ok;
        },
      )
      | inr (a, e) ↦ (
        qe,
        a,
        create_kv_found key qe a e,
        record { ok = ok; found = e; unseen = λ ctx h. refl; versions = λ h. refl },
      )
    ]

-- The engine after a row has been rewritten in place.
abbrev pub rewritten : ℕ → MvccRow → QueryEngine → QueryEngine
rewritten addr row qe = record qe { rows = set_elem qe.rows addr row }

pub rewritten-IsIndexed :
    (addr : ℕ) (row : MvccRow) (qe : QueryEngine)
    → addr < length qe.rows
    → IsPlain row
    → IsIndexed qe
    → IsIndexed (rewritten addr row qe)
rewritten-IsIndexed addr row qe inside new ok = record {
  same = ok.same;
  bound = λ h a e. omega (arith, length-set qe.rows addr row, ok.bound h a e);
  apart = ok.apart;
  plain = λ a r e. elim (ℕ_discrete addr a) [
    | yes same ↦ subst IsPlain (cc (get_elem?-set_self qe.rows addr row inside)) new
    | no other ↦ ok.plain a r (sym (get_elem?-set_ne qe.rows addr a row other) ∙ e)
  ];
}

-- A rewritten row is seen under its own hash alone.
pub find_at-rewritten :
    (ctx : StoreCtx) (h addr : ℕ) (row : MvccRow) (qe : QueryEngine) (h' : ℕ)
    → lookup h qe.keyhash ≡ some addr
    → IsIndexed qe
    → find_at ctx h' (rewritten addr row qe)
      ≡ (if h == h' then get_visible ctx row.versions else find_at ctx h' qe)
unfolding find_at
find_at-rewritten ctx h addr row qe h' e ok = elim (Option-cases (lookup h' qe.keyhash)) [
  | inl e' ↦ ground arith
  | inr (a, e') ↦ elim (ℕ_discrete addr a) [
    | yes same ↦
        ground
          (arith, ok.apart h h' addr e, get_elem?-set_self qe.rows addr row (ok.bound h addr e))
    | no other ↦ ground (arith, get_elem?-set_ne qe.rows addr a row other)
  ]
]

pub version_at-rewritten :
    (h addr : ℕ) (row : MvccRow) (qe : QueryEngine) (h' : ℕ)
    → lookup h qe.keyhash ≡ some addr
    → IsIndexed qe
    → version_at h' (rewritten addr row qe)
      ≡ (if h == h' then row.max_trans_version else version_at h' qe)
unfolding version_at
version_at-rewritten h addr row qe h' e ok = elim (Option-cases (lookup h' qe.keyhash)) [
  | inl e' ↦ ground arith
  | inr (a, e') ↦ elim (ℕ_discrete addr a) [
    | yes same ↦
        ground
          (arith, ok.apart h h' addr e, get_elem?-set_self qe.rows addr row (ok.bound h addr e))
    | no other ↦ ground (arith, get_elem?-set_ne qe.rows addr a row other)
  ]
]
