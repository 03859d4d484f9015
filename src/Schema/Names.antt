-- ===== src/Schema/Names.antt =====
-- Names as C strings, and the search for a database by its name.
use lsm_storage.Prelude.{
  ℕ, zero, suc, ◌-◌, ◌≤◌, ◌<◌, ◌≡◌, ◌≢◌, refl, ap, sym, inl, inr, true, Option, none, some, List,
  [], ◌∷◌, ◌++◌, length, take, ◌==◌, zeros, arith, Bool-cases, Option-cases, subst,
}
use mathlib.Core.List.{Mem, Perm, mem-cons, not-mem-nil}
use mathlib.Core.List.Perm
use mathlib.Core.Logic.Or
use lsm_storage.Prelude.Assoc.{insert}
use lsm_storage.Schema.{DatabaseSchema, c_string, same_string, set_name, find_database}
use lsm_storage.Schema.Ids.{Below, more}

-- The bytes of a C string.
abbrev pub IsText : List ℕ → Type 0
IsText [] = Unit {0}
IsText (b ∷ bytes) = (b ≢ 0) × IsText bytes

pub c_string-IsText : (bytes : List ℕ) → IsText (c_string bytes)
unfolding c_string
c_string-IsText [] = tt
c_string-IsText (b ∷ bytes) = elim (Bool-cases (b == 0)) [
  | inl ends ↦ rw (c_string, ends) tt
  | inr next ↦ rw (c_string, next) (ground arith, c_string-IsText bytes)
]

pub c_string-append :
    (name rest : List ℕ) → IsText name → c_string rest ≡ [] → c_string (name ++ rest) ≡ name
unfolding c_string
c_string-append [] rest text ends = ends
c_string-append (b ∷ name) rest (some_byte, text) ends =
    ground (arith, c_string-append name rest text ends)

pub c_string-zeros : (k : ℕ) → c_string (zeros k) ≡ []
unfolding c_string
c_string-zeros zero = refl
c_string-zeros (suc k) = refl

pub same_string_refl : (bytes : List ℕ) → same_string bytes bytes ≡ true
unfolding same_string
same_string_refl [] = refl
same_string_refl (b ∷ bytes) = ground (arith, same_string_refl bytes)

c_string-zeros_end : (k : ℕ) → c_string (zeros k ++ 0 ∷ []) ≡ []
unfolding c_string
c_string-zeros_end zero = refl
c_string-zeros_end (suc k) = refl

pub take_short : (n : ℕ) (bytes : List ℕ) → length bytes ≤ n → take n bytes ≡ bytes
take_short zero [] h = refl
take_short (suc n) [] h = refl
take_short zero (b ∷ bytes) h = absurd (omega arith)
take_short (suc n) (b ∷ bytes) h = ap (◌∷◌ b) (take_short n bytes (omega arith))

-- A short name comes back from the array.
pub c_string-set_name :
    (name : List ℕ) → IsText name → length name < 128 → c_string (set_name name (zeros 128)) ≡ name
unfolding set_name
c_string-set_name name text short = rw (take_short 127 name (omega arith)) (
    c_string-append name (zeros (127 - length name) ++ 0 ∷ []) text
      (c_string-zeros_end (127 - length name)))

abbrev pub Finds : List ℕ → List (ℕ × DatabaseSchema) → Type 0
Finds name databases = find_database name databases ≢ none

pub Finds-insert_self :
    (n : ℕ) (name : List ℕ) (d : DatabaseSchema) (databases : List (ℕ × DatabaseSchema))
    → Below n databases
    → same_string (c_string d.database_name) name ≡ true
    → Finds name (insert n d databases)
unfolding find_database insert
Finds-insert_self n name d [] below same = ground arith
Finds-insert_self n name d ((id, e) ∷ databases) (more h below) same =
    ground (arith, Finds-insert_self n name d databases below same)

pub Finds-insert :
    (n : ℕ) (name : List ℕ) (d : DatabaseSchema) (databases : List (ℕ × DatabaseSchema))
    → Below n databases
    → Finds name databases
    → Finds name (insert n d databases)
unfolding find_database insert
Finds-insert n name d [] below found = ground arith
Finds-insert n name d ((id, e) ∷ databases) (more h below) found =
    ground (arith, Finds-insert n name d databases below)

-- What is found is an entry, and an entry that fits is found.
find_database-Mem :
    (name : List ℕ) (databases : List (ℕ × DatabaseSchema)) (id : ℕ) (d : DatabaseSchema)
    → find_database name databases ≡ some (id, d)
    → Mem (id, d) databases × (same_string (c_string d.database_name) name ≡ true)
unfolding find_database
find_database-Mem name [] id d e = ground arith
find_database-Mem name ((other, x) ∷ databases) id d e =
    elim (Bool-cases (same_string (c_string x.database_name) name)) [
      | inl hit ↦
          let here : ◌≡◌ {A = Option (ℕ × DatabaseSchema)} (some (other, x)) (some (id, d)) =
            rw (find_database, hit) at e in
          let entry : ◌≡◌ {A = ℕ × DatabaseSchema} (other, x) (id, d) = cc in
          (
            mem-cons.1 (Or.inl (sym entry)),
            subst
                (λ (y : ℕ × DatabaseSchema). same_string (c_string (y.1).database_name) name ≡ true)
                entry hit,
          )
      | inr miss ↦
          let (m, same) = find_database-Mem name databases id d (rw (find_database, miss) at e) in
          (mem-cons.1 (Or.inr m), same)
    ]

Mem-Finds :
    (name : List ℕ) (databases : List (ℕ × DatabaseSchema)) (id : ℕ) (d : DatabaseSchema)
    → same_string (c_string d.database_name) name ≡ true
    → Mem (id, d) databases
    → Finds name databases
unfolding find_database
Mem-Finds name [] id d same m found = absurd (not-mem-nil m)
Mem-Finds name ((other, x) ∷ databases) id d same m found =
    Or.elim (hlevel) (mem-cons.0 m)
      (λ here.
        let hit : same_string (c_string x.database_name) name ≡ true =
          subst (λ (y : ℕ × DatabaseSchema). same_string (c_string (y.1).database_name) name ≡ true)
            here same in
        ground (arith, hit, found))
      (λ later. ground (arith, Mem-Finds name databases id d same later, found))

pub Finds-perm :
    (name : List ℕ) (xs ys : List (ℕ × DatabaseSchema)) → Perm xs ys → Finds name xs → Finds name ys
Finds-perm name xs ys p found nothing = elim (Option-cases (find_database name xs)) [
  | inl absent ↦ found absent
  | inr ((id, d), e) ↦
      let (m, same) = find_database-Mem name xs id d e in
      Mem-Finds name ys id d same ((Perm.mem_iff p).0 m) nothing
]
