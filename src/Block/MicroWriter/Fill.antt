-- ===== src/Block/MicroWriter/Fill.antt =====
-- What a micro block writer holds when rows have been appended to it.
use lsm_storage.Prelude.{
  ℕ, ◌+◌, ◌%◌, ◌^◌, ◌≡◌, refl, ap, subst, sym, ◌∙◌, Option, none, some, Option-cases, inl, inr,
  List, [], ◌∷◌, ◌++◌, length, Ret, success, failure, zeros, join, assoc, join-append,
  length-append, append-nil, arith,
}
use lsm_storage.Store.{StoreRow}
use lsm_storage.Block.MicroWriter.{
  DataStoreDesc, MicroWriter, reset, init, encode_row, append_row, appended, build_block,
}

-- Rows appended one after the other, up to the first that fails.
unfoldable pub append_rows : List StoreRow → MicroWriter → Option (MicroWriter × Ret)
append_rows [] w = some (w, success)
append_rows (row ∷ rows) w = elim (append_row row w) [
  | none ↦ none
  | some (w', failure) ↦ some (w', failure)
  | some (w', success) ↦ append_rows rows w'
]

unfoldable pub build_rows :
    DataStoreDesc → List StoreRow → MicroWriter → Option (MicroWriter × List ℕ)
unfolding append_rows
build_rows desc rows w = elim (append_rows rows (init desc w).0) [
  | none ↦ none
  | some (w', ret) ↦ some (build_block w')
]

unfoldable pub encodings : List StoreRow → Option (List (List ℕ))
encodings [] = some []
encodings (row ∷ rows) = elim (encode_row row) [
  | none ↦ none
  | some e ↦ elim (encodings rows) [ none ↦ none | some es ↦ some (e ∷ es) ]
]

unfoldable pub starts : ℕ → List (List ℕ) → List ℕ
starts p [] = []
starts p (e ∷ es) = (p % 2 ^ 32) ∷ starts (p + length e) es

starts-append :
    (p : ℕ) (es : List (List ℕ)) (e : List ℕ)
    → starts p (es ++ e ∷ []) ≡ starts p es ++ ((p + length (join es)) % 2 ^ 32) ∷ []
unfolding starts
starts-append p [] e = let h : p + 0 ≡ p = omega arith in rw h refl
starts-append p (x ∷ es) e = ap (◌∷◌ (p % 2 ^ 32)) (
    starts-append (p + length x) es e
    ∙ ap (λ k. starts (p + length x) es ++ (k % 2 ^ 32) ∷ [])
        (omega (arith, length-append x (join es))))

-- The rows whose encodings the writer holds.
pub record Holds (desc : DataStoreDesc) (es : List (List ℕ)) (w : MicroWriter) : Type 0 where
  pub desc_eq : w.desc ≡ some desc
  pub buf_eq : w.data_buf ≡ zeros 56 ++ join es
  pub offsets_eq : w.row_offsets ≡ starts 56 es
  pub count_eq : w.row_count ≡ length es

pub init-Holds : (desc : DataStoreDesc) (w : MicroWriter) → Holds desc [] (init desc w).0
unfolding init reset starts
init-Holds desc w = record { desc_eq = refl; buf_eq = refl; offsets_eq = refl; count_eq = refl }

pub length-buf : (es : List (List ℕ)) → length (zeros 56 ++ join es) ≡ 56 + length (join es)
length-buf es = length-append (zeros 56) (join es)

appended-Holds :
    (desc : DataStoreDesc) (es : List (List ℕ)) (w : MicroWriter) (row : StoreRow) (e : List ℕ)
    → Holds desc es w
    → Holds desc (es ++ e ∷ []) (appended row e w)
appended-Holds desc es w row e h = record {
  desc_eq = h.desc_eq;
  buf_eq = rw (h.buf_eq, join-append es (e ∷ []), append-nil e) (assoc (zeros 56) (join es) e);
  offsets_eq = rw (h.buf_eq, h.offsets_eq, starts-append 56 es e, length-buf es) refl;
  count_eq = omega (arith, h.count_eq, length-append es (e ∷ []));
}

append_row-appended :
    (desc : DataStoreDesc) (w : MicroWriter) (row : StoreRow) (e : List ℕ)
    → w.desc ≡ some desc
    → encode_row row ≡ some e
    → append_row row w ≡ some (appended row e w, success)
unfolding append_row
append_row-appended desc w row e has enc = simp (append_row, has, enc)

-- A list of rows that have an encoding is the row at its head and the others.
pub encodings-cons :
    (row : StoreRow) (rows : List StoreRow) (es : List (List ℕ))
    → encodings (row ∷ rows) ≡ some es
    → (e : List ℕ) × (es' : List (List ℕ)) × (encode_row row ≡ some e)
      × (encodings rows ≡ some es')
      × (es ≡ e ∷ es')
unfolding encodings
encodings-cons row rows es h = elim (Option-cases (encode_row row)) [
  | inl none_eq ↦ absurd (let k : none ≡ some es = (rw (encodings, none_eq) at h) in cc)
  | inr (e, e_eq) ↦ elim (Option-cases (encodings rows)) [
    | inl none_eq ↦ absurd (let k : none ≡ some es = (rw (encodings, e_eq, none_eq) at h) in cc)
    | inr (es', es_eq) ↦ (
      e,
      es',
      e_eq,
      es_eq,
      (let k : some (e ∷ es') ≡ some es = (rw (encodings, e_eq, es_eq) at h) in cc),
    )
  ]
]

pub encodings-append :
    (rows₁ rows₂ : List StoreRow) (es₁ es₂ : List (List ℕ))
    → encodings rows₁ ≡ some es₁
    → encodings rows₂ ≡ some es₂
    → encodings (rows₁ ++ rows₂) ≡ some (es₁ ++ es₂)
unfolding encodings
encodings-append [] rows₂ es₁ es₂ h₁ h₂ = cc
encodings-append (row ∷ rows₁) rows₂ es₁ es₂ h₁ h₂ =
    let (e, es', e_eq, es_eq, split) = encodings-cons row rows₁ es₁ h₁ in
    rw (encodings, split, e_eq, encodings-append rows₁ rows₂ es' es₂ es_eq h₂) refl

pub append_rows-Holds :
    (desc : DataStoreDesc) (es : List (List ℕ)) (w : MicroWriter) (rows : List StoreRow)
    (es' : List (List ℕ))
    → Holds desc es w
    → encodings rows ≡ some es'
    → (w' : MicroWriter) × (append_rows rows w ≡ some (w', success)) × Holds desc (es ++ es') w'
unfolding append_rows encodings
append_rows-Holds desc es w [] es' h enc =
    let e : [] ≡ es' = (let k : some [] ≡ some es' = enc in cc) in
    (w, refl, subst (λ t. Holds desc t w) (sym (append-nil es) ∙ ap (λ t. es ++ t) e) h)
append_rows-Holds desc es w (row ∷ rows) es' h enc =
    let (e, tail, e_eq, tail_eq, split) = encodings-cons row rows es' enc in
    let (w', run, held) =
      append_rows-Holds desc (es ++ e ∷ []) (appended row e w) rows tail
        (appended-Holds desc es w row e h) tail_eq in
    (
      w',
      rw (append_rows, append_row-appended desc w row e h.desc_eq e_eq) run,
      subst (λ t. Holds desc t w') (assoc es (e ∷ []) tail ∙ ap (λ t. es ++ t) (sym split)) held,
    )
