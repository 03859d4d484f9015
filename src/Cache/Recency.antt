-- ===== src/Cache/Recency.antt =====
-- The cache is a list of entries, the most recently used first.
use lsm_storage.Prelude.{
  ℕ, zero, suc, ◌-◌, ◌≤◌, ◌≡◌, refl, ap, ap₂, sym, subst, ◌∙◌, true, false, Option, none, some,
  List, [], ◌∷◌, length, take, leb, if◌then◌else◌, Bool-cases, Option-cases, inl, inr, arith,
}
use lsm_storage.Cache.{
  KeyEq, KvCache, new_cache, init, clear, last, drop_last, find, erase_entry, remove, set_entry,
  get, evict, add_entry, put, erase,
}
use lsm_storage.Cache.Entries.{
  length-drop_last, take-drop_last, take_enough, empty, more, without, keys_of, Distinct,
  find-erase_entry, find_same, find-without, keys_of-without, without-Distinct, found_gone,
  length-without, without_absent, find-drop_last, keys_of-drop_last, drop_last-Distinct,
  last-keys_of, length-keys_of, take_absent,
}

-- The calls of a client.
pub data Call (K V : Type 0) : Type 0 where
  call_get : K → Call K V
  call_put : K → V → Call K V
  call_erase : K → Call K V
  call_clear : Call K V

module _ {K V : Type 0} (keys : KeyEq K) where
  -- What a call does to the list, and what get finds.
  unfoldable pub spec : ℕ → Call K V → List (K × V) → List (K × V) × Option V
  unfolding without
  spec capacity (call_get k) l = elim (find keys k l) [
    | none ↦ (l, none)
    | some v ↦ ((k, v) ∷ without keys k l, some v)
  ]
  spec capacity (call_put k v) l = elim (find keys k l) [
    | none ↦ ((k, v) ∷ take (capacity - 1) l, none)
    | some old ↦ ((k, v) ∷ without keys k l, none)
  ]
  spec capacity (call_erase k) l = (without keys k l, none)
  spec capacity call_clear l = ([], none)

  unfoldable pub step : Call K V → KvCache K V → KvCache K V × Option V
  step (call_get k) c = get keys k c
  step (call_put k v) c = (put keys k v c, none)
  step (call_erase k) c = (erase keys k c, none)
  step call_clear c = (clear c, none)

  -- The list that a cache stands for.
  record Holds (l : List (K × V)) (c : KvCache K V) : Type 0 where
    distinct : Distinct keys l
    found : (k : K) → find keys k c.entries ≡ find keys k l
    order : c.lru_list ≡ keys_of keys l
    count : c.size ≡ length l

  -- A key that comes to the front, with a value for it.
  front-Holds :
      (k : K) (v old : V) (l : List (K × V)) (c : KvCache K V) (entries : List (K × V))
      → Holds l c
      → find keys k l ≡ some old
      → ((j : K) → find keys j entries ≡ (if keys.same k j then some v else find keys j l))
      → Holds
          ((k, v) ∷ without keys k l)
          (record c { entries = entries; lru_list = k ∷ remove keys k c.lru_list })
  unfolding keys_of find
  front-Holds k v old l c entries h hit same = record {
    distinct = more (found_gone keys k l h.distinct) (without-Distinct keys k l h.distinct);
    found = λ j. ground (arith, same j, find-without keys k j l h.distinct);
    order = ap (◌∷◌ k) (ap (remove keys k) h.order ∙ sym (keys_of-without keys k l));
    count = omega (arith, h.count, length-without keys k old l hit);
  }

  abbrev evicted : K → KvCache K V → KvCache K V
  evicted oldest c = record c {
    lru_list = drop_last c.lru_list;
    entries = erase_entry keys oldest c.entries;
    size = c.size - 1;
  }

  evicted-Holds :
      (k : K) (x : K × V) (l : List (K × V)) (c : KvCache K V)
      → Holds (x ∷ l) c
      → last (keys_of keys (x ∷ l)) ≡ some k
      → Holds (drop_last (x ∷ l)) (evicted k c)
  evicted-Holds k x l c h oldest = record {
    distinct = drop_last-Distinct keys (x ∷ l) h.distinct;
    found = λ j.
        find-erase_entry keys k j c.entries
        ∙ ap (λ o. if keys.same k j then none else o) (h.found j)
        ∙ sym (find-drop_last keys k j (x ∷ l) h.distinct oldest);
    order = ap drop_last h.order ∙ sym (keys_of-drop_last keys (x ∷ l));
    count = omega (arith, h.count, length-drop_last x l);
  }

  evict_stop :
      (fuel : ℕ) (c : KvCache K V) → leb c.capacity c.size ≡ false → evict keys (suc fuel) c ≡ c
  unfolding evict
  evict_stop fuel c h = rw (evict, h) refl

  evict_exhausted :
      (fuel : ℕ) (c : KvCache K V) → last c.lru_list ≡ none → evict keys (suc fuel) c ≡ c
  unfolding evict
  evict_exhausted fuel c h = elim (Bool-cases (leb c.capacity c.size)) [
    | inl full ↦ rw (evict, full, h) refl
    | inr room ↦ evict_stop fuel c room
  ]

  evict_next :
      (fuel : ℕ) (k : K) (c : KvCache K V)
      → leb c.capacity c.size ≡ true
      → last c.lru_list ≡ some k
      → evict keys (suc fuel) c ≡ evict keys fuel (evicted k c)
  unfolding evict
  evict_next fuel k c full h = rw (evict, full, h) refl

  evict-Holds :
      (fuel : ℕ) (l : List (K × V)) (c : KvCache K V)
      → Holds l c
      → length l ≤ fuel
      → Holds (take (c.capacity - 1) l) (evict keys fuel c)
  unfolding evict last keys_of
  evict-Holds zero [] c h enough =
      subst (λ t. Holds t c) (sym (take_enough (c.capacity - 1) [] (omega arith))) h
  evict-Holds zero (x ∷ l) c h enough = absurd (omega arith)
  evict-Holds (suc fuel) [] c h enough =
      let nothing : evict keys (suc fuel) c ≡ c = evict_exhausted fuel c (ap last h.order) in
      subst (λ t. Holds t (evict keys (suc fuel) c))
        (sym (take_enough (c.capacity - 1) [] (omega arith)))
        (subst (λ c'. Holds [] c') (sym nothing) h)
  evict-Holds (suc fuel) (x ∷ l) c h enough = elim (Bool-cases (leb c.capacity c.size)) [
    | inr room ↦
        let short : length (x ∷ l) ≤ c.capacity - 1 = ground (arith, room, h.count) in
        subst (λ t. Holds t (evict keys (suc fuel) c)) (sym (take_enough _ (x ∷ l) short))
          (subst (λ c'. Holds (x ∷ l) c') (sym (evict_stop fuel c room)) h)
    | inl full ↦
        let (k, oldest) = last-keys_of keys x l in
        subst (λ c'. Holds (take (c.capacity - 1) (x ∷ l)) c')
          (sym (evict_next fuel k c full (ap last h.order ∙ oldest)))
          (subst (λ t. Holds t (evict keys fuel (evicted k c)))
            (take-drop_last (c.capacity - 1) (x ∷ l) (ground (arith, full, h.count)))
            (evict-Holds fuel (drop_last (x ∷ l)) (evicted k c) (evicted-Holds k x l c h oldest)
              (omega (arith, length-drop_last x l))))
  ]

  put-Holds_new :
      (k : K) (v : V) (l : List (K × V)) (c : KvCache K V)
      → Holds l c
      → find keys k l ≡ none
      → Holds ((k, v) ∷ l) (add_entry keys k v c)
  unfolding keys_of find
  put-Holds_new k v l c h fresh = record {
    distinct = more fresh h.distinct;
    found = λ j. ground (arith, find-erase_entry keys k j c.entries, h.found j);
    order = ap (◌∷◌ k) h.order;
    count = omega (arith, h.count);
  }

  evict-capacity : (fuel : ℕ) (c : KvCache K V) → (evict keys fuel c).capacity ≡ c.capacity
  unfolding evict
  evict-capacity zero c = refl
  evict-capacity (suc fuel) c = elim (Bool-cases (leb c.capacity c.size)) [
    | inr room ↦ ap (λ c'. c'.capacity) (evict_stop fuel c room)
    | inl full ↦ elim (Option-cases (last c.lru_list)) [
      | inl none_eq ↦ ap (λ c'. c'.capacity) (evict_exhausted fuel c none_eq)
      | inr (k, eq) ↦
          ap (λ c'. c'.capacity) (evict_next fuel k c full eq) ∙ evict-capacity fuel (evicted k c)
    ]
  ]

  erased-Holds :
      (k : K) (v : V) (l : List (K × V)) (c : KvCache K V)
      → Holds l c
      → find keys k l ≡ some v
      → Holds (without keys k l) (record c {
        lru_list = remove keys k c.lru_list;
        entries = erase_entry keys k c.entries;
        size = c.size - 1;
      })
  erased-Holds k v l c h hit = record {
    distinct = without-Distinct keys k l h.distinct;
    found = λ j.
        find-erase_entry keys k j c.entries
        ∙ ap (λ o. if keys.same k j then none else o) (h.found j)
        ∙ sym (find-without keys k j l h.distinct);
    order = ap (remove keys k) h.order ∙ sym (keys_of-without keys k l);
    count = omega (arith, h.count, length-without keys k v l hit);
  }

  -- That a call on the cache does what it does on the list.
  Agrees : ℕ → List (K × V) × Option V → KvCache K V × Option V → Type 0
  Agrees capacity (l, expected) (c, result) =
      Holds l c × (result ≡ expected) × (c.capacity ≡ capacity)

  get-Agrees :
      (k : K) (l : List (K × V)) (c : KvCache K V)
      → Holds l c
      → Agrees c.capacity (spec c.capacity (call_get k) l) (get keys k c)
  unfolding spec get Agrees
  get-Agrees k l c h = elim (Option-cases (find keys k l)) [
    | inl absent ↦ rw (spec, get, h.found k, absent) (h, refl, refl)
    | inr (v, hit) ↦
        rw (spec, get, h.found k, hit)
          (
            front-Holds k v v l c c.entries h hit
                (λ j. ground (arith, h.found j, find_same keys k j l, hit)),
            refl,
            refl,
          )
  ]

  put-Agrees :
      (k : K) (v : V) (l : List (K × V)) (c : KvCache K V)
      → Holds l c
      → Agrees c.capacity (spec c.capacity (call_put k v) l) (put keys k v c, none)
  unfolding spec put Agrees find
  put-Agrees k v l c h = elim (Option-cases (find keys k l)) [
    | inl absent ↦
        rw (spec, put, h.found k, absent)
          (
            put-Holds_new k v _ _
                (evict-Holds (length c.lru_list) l c h
                  (omega (arith, ap length h.order, length-keys_of keys l)))
                (take_absent keys (c.capacity - 1) k l absent),
            refl,
            evict-capacity (length c.lru_list) c,
          )
    | inr (old, hit) ↦
        rw (spec, put, h.found k, hit)
          (
            front-Holds k v old l c (set_entry keys k v c.entries) h hit
                (λ j. ground (arith, find-erase_entry keys k j c.entries, h.found j)),
            refl,
            refl,
          )
  ]

  erase-Agrees :
      (k : K) (l : List (K × V)) (c : KvCache K V)
      → Holds l c
      → Agrees c.capacity (spec c.capacity (call_erase k) l) (erase keys k c, none)
  unfolding spec erase Agrees
  erase-Agrees k l c h = elim (Option-cases (find keys k l)) [
    | inl absent ↦ rw (erase, h.found k, absent, without_absent keys k l absent) (h, refl, refl)
    | inr (v, hit) ↦ rw (erase, h.found k, hit) (erased-Holds k v l c h hit, refl, refl)
  ]

  step-Agrees :
      (call : Call K V) (l : List (K × V)) (c : KvCache K V)
      → Holds l c
      → Agrees c.capacity (spec c.capacity call l) (step call c)
  unfolding spec step Agrees clear keys_of
  step-Agrees (call_get k) l c h = get-Agrees k l c h
  step-Agrees (call_put k v) l c h = put-Agrees k v l c h
  step-Agrees (call_erase k) l c h = erase-Agrees k l c h
  step-Agrees call_clear l c h =
      (record { distinct = empty; found = λ j. refl; order = refl; count = refl }, refl, refl)

  -- Calls made one after the other: the state and what each of them found.
  unfoldable pub run : List (Call K V) → KvCache K V → KvCache K V × List (Option V)
  unfolding step
  run [] c = (c, [])
  run (call ∷ calls) c =
      let (c', result) = step call c in let (c'', results) = run calls c' in (c'', result ∷ results)

  unfoldable pub run_spec : ℕ → List (Call K V) → List (K × V) → List (K × V) × List (Option V)
  unfolding spec
  run_spec capacity [] l = (l, [])
  run_spec capacity (call ∷ calls) l =
      let (l', result) = spec capacity call l in
      let (l'', results) = run_spec capacity calls l' in (l'', result ∷ results)

  run-Holds :
      (calls : List (Call K V)) (l : List (K × V)) (c : KvCache K V)
      → Holds l c
      → Holds (run_spec c.capacity calls l).0 (run calls c).0
        × ((run calls c).1 ≡ (run_spec c.capacity calls l).1)
  unfolding run run_spec Agrees
  run-Holds [] l c h = (h, refl)
  run-Holds (call ∷ calls) l c h =
      let (held, result, kept) = step-Agrees call l c h in
      let (held', results) = run-Holds calls (spec c.capacity call l).0 (step call c).0 held in
      (
        subst
            (λ n.
              Holds (run_spec n calls (spec c.capacity call l).0).0 (run calls (step call c).0).0)
            kept held',
        ap₂ ◌∷◌ result (results ∙ ap (λ n. (run_spec n calls (spec c.capacity call l).0).1) kept),
      )

  -- Calls of get, put, erase and clear, in any number and order, on a new cache of a capacity find
  -- what they find on a list of entries with the most recently used first, from which a put of a new
  -- key takes the last entries until there is room for it; and the size is that list's length.
  pub run-run_spec :
      (capacity : ℕ) (calls : List (Call K V))
      → ((run calls (init capacity new_cache)).1 ≡ (run_spec capacity calls []).1)
        × ((run calls (init capacity new_cache)).0.size ≡ length (run_spec capacity calls []).0)
  unfolding init keys_of
  run-run_spec capacity calls =
      let (held, results) =
        run-Holds calls [] (init capacity new_cache)
          (record { distinct = empty; found = λ j. refl; order = refl; count = refl }) in
      (results, held.count)
