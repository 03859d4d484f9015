-- ===== src/Ls/RecordScanner/Drain.antt =====
-- What a client reads from a scanner.
use lsm_storage.Prelude.{
  ℕ, zero, suc, ◌+◌, ◌≡◌, refl, ap, sym, ◌∙◌, Bool, true, false, ◌&&◌, not, none, some, List, [],
  ◌∷◌, ◌++◌, map, length, get_elem?, if◌then◌else◌, assoc, append-nil, Bool-cases, inl, inr,
  length-append, ap₂, success, ◌<◌, ◌^◌, ◌%◌, leb, subst, arith,
}
use lsm_storage.Store.{StoreRow}
use lsm_storage.Ls.TableStore.{TableStore, scan}
use lsm_storage.Ls.RecordScanner.{
  Rc, rc_success, rc_record_eof, RecordScanner, new_scanner, scan_ctx, first_key, last_key, is_nil,
  keep_rows, open_scan, next_record, is_eof, int_size,
}

-- Calls of next_record up to the first that does not succeed, `fuel` at most: the rows, and the
-- code of the last call.
unfoldable pub read_all : ℕ → RecordScanner → List (List ℕ) × Rc
read_all zero c = ([], rc_success)
read_all (suc fuel) c =
    let (c', row, rc) = next_record c in
    elim row [
      | none ↦ ([], rc)
      | some bytes ↦ let (rows, last) = read_all fuel c' in (bytes ∷ rows, last)
    ]

unfoldable pub filter {ℓ} : {A : Type ℓ} → (A → Bool) → List A → List A
filter p [] = []
filter p (x ∷ xs) = let rest = filter p xs in if p x then x ∷ rest else rest

abbrev pub is_live : StoreRow → Bool
is_live row = not row.is_deleted && not (is_nil row.row_value)

-- The values of the rows that are not deleted and not empty.
unfoldable pub live_values : List StoreRow → List (List ℕ)
unfolding filter
live_values rows = map (λ row. row.row_value) (filter is_live rows)

keep_rows-live_values :
    (cache : List (List ℕ)) (rows : List StoreRow)
    → keep_rows cache rows ≡ cache ++ live_values rows
unfolding keep_rows live_values filter
keep_rows-live_values cache [] = sym (append-nil cache)
keep_rows-live_values cache (row ∷ rows) = elim (Bool-cases row.is_deleted) [
  | inl deleted ↦ simp (deleted) (keep_rows-live_values cache rows)
  | inr kept ↦ elim (Bool-cases (is_nil row.row_value)) [
    | inl none_there ↦ simp (kept, none_there) (keep_rows-live_values cache rows)
    | inr there ↦
        simp (kept, there)
          (keep_rows-live_values (cache ++ row.row_value ∷ []) rows
            ∙ assoc cache (row.row_value ∷ []) (live_values rows))
  ]
]

get_elem?_behind :
    (before after : List (List ℕ)) (x : List ℕ)
    → get_elem? (before ++ x ∷ after) (length before) ≡ some x
get_elem?_behind [] after x = refl
get_elem?_behind (y ∷ before) after x = get_elem?_behind before after x

abbrev at_place : List (List ℕ) → ℕ → RecordScanner
at_place cache idx = record { row_data_cache = cache; current_idx = idx; is_open = true }

read_all-some :
    (fuel : ℕ) (c c' : RecordScanner) (x : List ℕ) (rc : Rc)
    → next_record c ≡ (c', some x, rc)
    → read_all (suc fuel) c ≡ (x ∷ (read_all fuel c').0, (read_all fuel c').1)
unfolding read_all
read_all-some fuel c c' x rc stepped =
    ap
      (λ t. elim t.1 [
        | none ↦ ([], t.2)
        | some bytes ↦ (bytes ∷ (read_all fuel t.0).0, (read_all fuel t.0).1)
      ])
      stepped

-- In a cache whose size is a positive int, the test is that of the index against the size.
is_eof_lem :
    (c : RecordScanner)
    → length c.row_data_cache < 2 ^ 31
    → is_eof c ≡ leb (length c.row_data_cache) c.current_idx
unfolding is_eof int_size
is_eof_lem c small =
    let same : length c.row_data_cache % 2 ^ 32 ≡ length c.row_data_cache = omega arith in
    ground (arith, same)

read_from :
    (before after : List (List ℕ))
    → length (before ++ after) < 2 ^ 31
    → read_all (suc (length after)) (at_place (before ++ after) (length before))
      ≡ (after, rc_record_eof)
unfolding read_all next_record
read_from before [] small =
    let over : is_eof (at_place (before ++ []) (length before)) ≡ true =
      is_eof_lem (at_place (before ++ []) (length before)) small
      ∙ ground (arith, length-append before []) in
    let ended : next_record (at_place (before ++ []) (length before))
        ≡ (at_place (before ++ []) (length before), none, rc_record_eof) =
      rw (next_record, over) refl in
    rw (read_all, ended) (ap (λ t. ([], t.2)) ended)
read_from before (x ∷ after) small =
    let more : is_eof (at_place (before ++ x ∷ after) (length before)) ≡ false =
      is_eof_lem (at_place (before ++ x ∷ after) (length before)) small
      ∙ ground (arith, length-append before (x ∷ after)) in
    let there : length (before ++ x ∷ []) ≡ length before + 1 = length-append before (x ∷ []) in
    let rest : read_all (suc (length after)) (at_place (before ++ x ∷ after) (length before + 1))
        ≡ (after, rc_record_eof) =
      ap₂ (λ xs n. read_all (suc (length after)) (at_place xs n))
        (sym (assoc before (x ∷ []) after)) (sym there)
      ∙ read_from (before ++ x ∷ []) after (
          subst (λ (xs : List (List ℕ)). length xs < 2 ^ 31) (sym (assoc before (x ∷ []) after))
            small) in
    let stepped : next_record (at_place (before ++ x ∷ after) (length before))
        ≡ (at_place (before ++ x ∷ after) (length before + 1), some x, rc_success) =
      rw (next_record, more, get_elem?_behind before after x) refl in
    read_all-some (suc (length after)) (at_place (before ++ x ∷ after) (length before))
      (at_place (before ++ x ∷ after) (length before + 1)) x rc_success stepped
    ∙ ap (λ t. (x ∷ t.0, t.1)) rest

-- A new scanner over a table store whose scan returns rows: open_scan succeeds, and one call of
-- next_record more than there are such rows returns the values of the rows that are not deleted and
-- not empty, in the order of the scan, and then the end, where there are fewer than 2^31 of them.
pub read_all-open_scan :
    (s s' : TableStore) (rows : List StoreRow)
    → scan scan_ctx first_key false last_key false s ≡ some (s', rows, success)
    → length (live_values rows) < 2 ^ 31
    → (c : RecordScanner) × (open_scan (some s) new_scanner ≡ some (some s', c, rc_success))
      × (read_all (suc (length (live_values rows))) c ≡ (live_values rows, rc_record_eof))
unfolding open_scan
read_all-open_scan s s' rows found small = (
  at_place (live_values rows) 0,
  rw (open_scan, found)
      (ap (λ cache. some (some s', at_place cache 0, rc_success)) (keep_rows-live_values [] rows)),
  read_from [] (live_values rows) small,
)
