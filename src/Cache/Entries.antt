-- ===== src/Cache/Entries.antt =====
-- Lists of entries in which no key is twice: what removing an entry or the last one does to them.
use lsm_storage.Prelude.{
  ℕ, zero, suc, ◌+◌, ◌≤◌, ◌<◌, ◌≡◌, refl, ap, sym, subst, ◌∙◌, true, none, some, List, [], ◌∷◌,
  length, take, if◌then◌else◌, Bool-cases, inl, inr, arith,
}
use lsm_storage.Cache.{KeyEq, last, drop_last, find, erase_entry, remove}

pub length-drop_last : {A : Type 0} (x : A) (l : List A) → length (drop_last (x ∷ l)) ≡ length l
unfolding drop_last
length-drop_last x [] = refl
length-drop_last x (y ∷ l) = ap suc (length-drop_last y l)

pub take-drop_last :
    {A : Type 0} (n : ℕ) (l : List A) → n < length l → take n (drop_last l) ≡ take n l
unfolding drop_last
take-drop_last zero l h = refl
take-drop_last (suc n) [] h = refl
take-drop_last (suc n) (x ∷ []) h = absurd (omega arith)
take-drop_last (suc n) (x ∷ y ∷ l) h = ap (◌∷◌ x) (take-drop_last n (y ∷ l) (omega arith))

pub take_enough : {A : Type 0} (n : ℕ) (l : List A) → length l ≤ n → take n l ≡ l
take_enough zero [] h = refl
take_enough zero (x ∷ l) h = absurd (omega arith)
take_enough (suc n) [] h = refl
take_enough (suc n) (x ∷ l) h = ap (◌∷◌ x) (take_enough n l (omega arith))

pub same_trans :
    {K : Type 0} (keys : KeyEq K) (a b c : K) → keys.same a b ≡ true → keys.same a c ≡ keys.same b c
same_trans keys a b c h = ap (λ x. keys.same x c) (keys.same_sound a b h)

pub same_right :
    {K : Type 0} (keys : KeyEq K) (a b c : K) → keys.same a b ≡ true → keys.same c a ≡ keys.same c b
same_right keys a b c h = ap (keys.same c) (keys.same_sound a b h)

module _ {K V : Type 0} (keys : KeyEq K) where
  -- The list of entries without the one of a key.
  unfoldable pub without : K → List (K × V) → List (K × V)
  without k [] = []
  without k ((k', v) ∷ l) = let rest = without k l in if keys.same k' k then l else (k', v) ∷ rest

  unfoldable pub keys_of : List (K × V) → List K
  keys_of [] = []
  keys_of ((k, v) ∷ l) = k ∷ keys_of l

  -- No key is twice in the list.
  pub data Distinct : List (K × V) → Type 0 where
    empty : Distinct []
    more :
        {k : K} {v : V} {l : List (K × V)}
        → find keys k l ≡ none
        → Distinct l
        → Distinct ((k, v) ∷ l)

  pub find-erase_entry :
      (k j : K) (entries : List (K × V))
      → find keys j (erase_entry keys k entries)
        ≡ (if keys.same k j then none else find keys j entries)
  unfolding find erase_entry
  find-erase_entry k j [] = ground arith
  find-erase_entry k j ((k', v) ∷ entries) =
      ground (arith, same_trans keys k' k j, same_right keys k j k', find-erase_entry k j entries)

  -- Keys that are equal find the same.
  pub find_same :
      (k j : K) (l : List (K × V)) → keys.same k j ≡ true → find keys k l ≡ find keys j l
  find_same k j l h = ap (λ x. find keys x l) (keys.same_sound k j h)

  pub find-without :
      (k j : K) (l : List (K × V))
      → Distinct l
      → find keys j (without k l) ≡ (if keys.same k j then none else find keys j l)
  unfolding find without
  find-without k j [] d = ground arith
  find-without k j ((k', v) ∷ l) (more fresh d) = ground (
    arith,
    same_trans keys k' k j,
    same_right keys k j k',
    find_same k' j l,
    fresh,
    find-without k j l d,
  )

  pub keys_of-without :
      (k : K) (l : List (K × V)) → keys_of (without k l) ≡ remove keys k (keys_of l)
  unfolding without remove keys_of
  keys_of-without k [] = refl
  keys_of-without k ((k', v) ∷ l) = ground (arith, keys_of-without k l)

  pub fresh_still :
      (k k' : K) (l : List (K × V))
      → find keys k' l ≡ none
      → Distinct l
      → find keys k' (without k l) ≡ none
  fresh_still k k' l fresh d = ground (arith, find-without k k' l d)

  pub without-Distinct : (k : K) (l : List (K × V)) → Distinct l → Distinct (without k l)
  unfolding without
  without-Distinct k [] d = d
  without-Distinct k ((k', v) ∷ l) (more fresh d) = elim (Bool-cases (keys.same k' k)) [
    | inl hit ↦ rw (without, hit) d
    | inr miss ↦ rw (without, miss) (more (fresh_still k k' l fresh d) (without-Distinct k l d))
  ]

  pub found_gone : (k : K) (l : List (K × V)) → Distinct l → find keys k (without k l) ≡ none
  found_gone k l d = ground (arith, find-without k k l d, keys.same_refl k)

  pub length-without :
      (k : K) (v : V) (l : List (K × V))
      → find keys k l ≡ some v
      → length (without k l) + 1 ≡ length l
  unfolding find without
  length-without k v [] h = cc
  length-without k v ((k', v') ∷ l) h = elim (Bool-cases (keys.same k' k)) [
    | inl hit ↦ rw (without, hit) (omega arith)
    | inr miss ↦
        let h' : find keys k l ≡ some v = (rw (find, miss) at h) in
        rw (without, miss) (omega (arith, length-without k v l h'))
  ]

  pub without_absent : (k : K) (l : List (K × V)) → find keys k l ≡ none → without k l ≡ l
  unfolding find without
  without_absent k [] h = refl
  without_absent k ((k', v) ∷ l) h = elim (Bool-cases (keys.same k' k)) [
    | inl hit ↦ absurd (let k : some v ≡ none = (rw (find, hit) at h) in cc)
    | inr miss ↦
        let h' : find keys k l ≡ none = (rw (find, miss) at h) in
        rw (without, miss) (ap (◌∷◌ (k', v)) (without_absent k l h'))
  ]

  pub last_found :
      (k : K) (l : List (K × V)) → last (keys_of l) ≡ some k → (v : V) × (find keys k l ≡ some v)
  unfolding last keys_of find
  last_found k [] h = cc
  last_found k ((k', v) ∷ []) h =
      let e : k' ≡ k = cc in
      (v, ground (arith, subst (λ x. keys.same k' x ≡ true) e (keys.same_refl k')))
  last_found k ((k₁, v₁) ∷ (k₂, v₂) ∷ l) h = elim (Bool-cases (keys.same k₁ k)) [
    | inl hit ↦ (v₁, ground (arith, hit))
    | inr miss ↦ let (v, e) = last_found k ((k₂, v₂) ∷ l) h in (v, ground (arith, miss, e))
  ]

  pub overlap :
      (a b c : K) (l : List (K × V))
      → keys.same a c ≡ true
      → keys.same b c ≡ true
      → find keys a l ≡ find keys b l
  overlap a b c l h h' = find_same a c l h ∙ sym (find_same b c l h')

  pub drop_last_absent :
      (k : K) (l : List (K × V)) → find keys k l ≡ none → find keys k (drop_last l) ≡ none
  unfolding find drop_last
  drop_last_absent k [] h = h
  drop_last_absent k (x ∷ []) h = refl
  drop_last_absent k ((k', v) ∷ x ∷ l) h = ground (arith, h, drop_last_absent k (x ∷ l))

  pub find-drop_last :
      (k j : K) (l : List (K × V))
      → Distinct l
      → last (keys_of l) ≡ some k
      → find keys j (drop_last l) ≡ (if keys.same k j then none else find keys j l)
  unfolding last keys_of find drop_last
  find-drop_last k j [] d h = cc
  find-drop_last k j ((k', v) ∷ []) (more fresh d) h =
      let e : k' ≡ k = cc in ground (arith, ap (λ x. keys.same x j) e)
  find-drop_last k j ((k₁, v₁) ∷ (k₂, v₂) ∷ l) (more fresh d) h =
      let (v, e) = last_found k ((k₂, v₂) ∷ l) h in
      let ih = find-drop_last k j ((k₂, v₂) ∷ l) d h in
      ground (arith, ih, fresh, e, overlap k₁ k j ((k₂, v₂) ∷ l))

  pub keys_of-drop_last : (l : List (K × V)) → keys_of (drop_last l) ≡ drop_last (keys_of l)
  unfolding keys_of drop_last
  keys_of-drop_last [] = refl
  keys_of-drop_last (x ∷ []) = refl
  keys_of-drop_last ((k, v) ∷ x ∷ l) = ap (◌∷◌ k) (keys_of-drop_last (x ∷ l))

  pub drop_last-Distinct : (l : List (K × V)) → Distinct l → Distinct (drop_last l)
  unfolding drop_last
  drop_last-Distinct [] d = d
  drop_last-Distinct (x ∷ []) d = empty
  drop_last-Distinct ((k, v) ∷ x ∷ l) (more fresh d) =
      more (drop_last_absent k (x ∷ l) fresh) (drop_last-Distinct (x ∷ l) d)

  pub last-keys_of : (x : K × V) (l : List (K × V)) → (k : K) × (last (keys_of (x ∷ l)) ≡ some k)
  unfolding last keys_of
  last-keys_of (k, v) [] = (k, refl)
  last-keys_of (k, v) (y ∷ l) = last-keys_of y l

  pub take_absent :
      (n : ℕ) (k : K) (l : List (K × V)) → find keys k l ≡ none → find keys k (take n l) ≡ none
  unfolding find
  take_absent zero k l h = refl
  take_absent (suc n) k [] h = refl
  take_absent (suc n) k ((k', v) ∷ l) h = ground (arith, h, take_absent n k l)

  pub length-keys_of : (l : List (K × V)) → length (keys_of l) ≡ length l
  unfolding keys_of
  length-keys_of [] = refl
  length-keys_of (x ∷ l) = ap suc (length-keys_of l)
