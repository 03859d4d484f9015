-- ===== src/Memtable/QueryEngine/Scan.antt =====
-- The two ways to go over the ordered map: the iterator and scan_range.
use lsm_storage.Prelude.{
  ℕ, zero, suc, ◌<◌, Bool, true, false, ◌&&◌, ◌==◌, ltb, Option, none, some, List, [], ◌∷◌, length,
  map, Ret, success, failure, if◌then◌else◌, ◌≡◌, refl, sym, ap, ◌∙◌, ◌⊎◌, inl, inr, arith,
  Bool-cases,
}
use lsm_storage.Prelude.Assoc
use lsm_storage.Memtable.Key.{MemtableKey, empty_key}
use lsm_storage.Memtable.MvccRow.{MvccRow}
use lsm_storage.Memtable.QueryEngine.{
  QueryEngine, BtreeIterator, collect_range, scan_range, scan, seek, next, tail, get_value,
  has_version, start_hash,
}

-- Where the loop of next stops, scan_range collects next.
seek_cases :
    (rows : List MvccRow) (end_h : ℕ) (end_exclude : Bool) (entries : List (ℕ × ℕ))
    → ((seek rows end_h end_exclude entries ≡ [])
        × (collect_range rows end_h end_exclude entries ≡ []))
      ⊎ ((h : ℕ) × (addr : ℕ) × (rest : List (ℕ × ℕ)) × (seek rows end_h end_exclude entries
            ≡ (h, addr) ∷ rest)
          × (collect_range rows end_h end_exclude entries
              ≡ (empty_key, addr) ∷ collect_range rows end_h end_exclude rest)
          × (length rest < length entries))
unfolding seek collect_range
seek_cases rows end_h end_exclude [] = inl (refl, refl)
seek_cases rows end_h end_exclude ((h, addr) ∷ it) = elim (Bool-cases (ltb end_h h)) [
  | inl past ↦ inl (rw past refl, rw past refl)
  | inr within ↦ elim (Bool-cases (end_exclude && (h == end_h))) [
    | inl at_end ↦ inl (rw (within, at_end) refl, rw (within, at_end) refl)
    | inr on ↦ elim (Bool-cases (has_version rows addr)) [
      | inl there ↦
          inr (h, addr, it, rw (within, on, there) refl, rw (within, on, there) refl, omega arith)
      | inr empty ↦ elim (seek_cases rows end_h end_exclude it) [
        | inl (s, c) ↦ inl (rw (within, on, empty) s, rw (within, on, empty) c)
        | inr (h', addr', rest, s, c, less) ↦ inr (
          h',
          addr',
          rest,
          rw (within, on, empty) s,
          rw (within, on, empty) c,
          omega (arith, less),
        )
      ]
    ]
  ]
]

-- The rows that next and get_value give, until next ends or the fuel does.
unfoldable pub drain : ℕ → QueryEngine → BtreeIterator → List ℕ
drain zero qe it = []
drain (suc fuel) qe it =
    let (it', ret) = next qe it in
    elim ret [
      | failure ↦ []
      | success ↦ elim (get_value it') [ none ↦ [] | some addr ↦ addr ∷ drain fuel qe it' ]
    ]

abbrev remaining : QueryEngine → BtreeIterator → List (ℕ × ℕ)
remaining qe it = if it.is_init then tail it.curr else Assoc.lower_bound it.start_hash qe.btree

abbrev pub addresses : List (MemtableKey × ℕ) → List ℕ
addresses found = map (λ r. r.1) found

next_stop :
    (qe : QueryEngine) (it : BtreeIterator)
    → seek qe.rows it.end_hash it.end_exclude (remaining qe it) ≡ []
    → (next qe it).1 ≡ failure
unfolding next
next_stop qe it s = ground arith

next_at :
    (qe : QueryEngine) (it : BtreeIterator) (h addr : ℕ) (rest : List (ℕ × ℕ))
    → seek qe.rows it.end_hash it.end_exclude (remaining qe it) ≡ (h, addr) ∷ rest
    → next qe it ≡ (record it { curr = (h, addr) ∷ rest; is_init = true }, success)
unfolding next
next_at qe it h addr rest s = ground arith

drain_stop :
    (fuel : ℕ) (qe : QueryEngine) (it : BtreeIterator)
    → (next qe it).1 ≡ failure
    → drain (suc fuel) qe it ≡ []
unfolding drain
drain_stop fuel qe it e = rw (e, drain) refl

drain_step :
    (fuel : ℕ) (qe : QueryEngine) (it : BtreeIterator) (h addr : ℕ) (rest : List (ℕ × ℕ))
    → next qe it ≡ (record it { curr = (h, addr) ∷ rest; is_init = true }, success)
    → drain (suc fuel) qe it
      ≡ addr ∷ drain fuel qe (record it { curr = (h, addr) ∷ rest; is_init = true })
unfolding drain get_value
drain_step fuel qe it h addr rest e =
    let go : BtreeIterator × Ret → List ℕ = λ r. elim r.1 [
      | failure ↦ []
      | success ↦ elim (get_value r.0) [ none ↦ [] | some found ↦ found ∷ drain fuel qe r.0 ]
    ] in
    ap go e

drain_lem :
    (fuel : ℕ) (qe : QueryEngine) (it : BtreeIterator)
    → length (remaining qe it) < fuel
    → drain fuel qe it
      ≡ addresses (collect_range qe.rows it.end_hash it.end_exclude (remaining qe it))
drain_lem zero qe it h = elim h [ ]
drain_lem (suc fuel) qe it h =
    elim (seek_cases qe.rows it.end_hash it.end_exclude (remaining qe it)) [
      | inl (s, c) ↦ drain_stop fuel qe it (next_stop qe it s) ∙ ap addresses (sym c)
      | inr (h', addr, rest, s, c, less) ↦
          drain_step fuel qe it h' addr rest (next_at qe it h' addr rest s)
          ∙ ap (◌∷◌ addr) (
              drain_lem fuel qe (record it { curr = (h', addr) ∷ rest; is_init = true })
                (omega (arith, less)))
          ∙ ap addresses (sym c)
    ]

-- The iterator of a range gives, in the same order, the rows that scan_range lists for it, and then
-- ends, where the start of the range is included; one step for each entry of the map from the
-- start on, and one more, is enough.
pub drain-scan :
    (fuel : ℕ) (start_key end_key : Option MemtableKey) (end_exclude : Bool) (qe : QueryEngine)
    → length (Assoc.lower_bound (start_hash start_key) qe.btree) < fuel
    → drain fuel qe (scan start_key false end_key end_exclude)
      ≡ addresses (scan_range start_key false end_key end_exclude qe)
unfolding scan scan_range
drain-scan fuel start_key end_key end_exclude qe h =
    drain_lem fuel qe (scan start_key false end_key end_exclude) h ∙ ground arith
