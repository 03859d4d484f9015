-- ===== src/Prelude/Assoc.antt =====
-- A map with uint64 keys, kept in ascending order: std::map, and std::unordered_map where the
-- program never iterates over one.
use Prim.Native.Nat.{ℕ}
use mathlib.Core.Path.{◌≡◌, refl}
use mathlib.Core.List.{List, [], ◌∷◌}
use mathlib.Core.Option.{Option, none, some}
use native.Mathlib.Omega.{arith}
use lsm_storage.Prelude.Tests.{ltb, ◌==◌, if◌then◌else◌}

module _ {ℓ} {V : Type ℓ} where
  unfoldable pub lookup : ℕ → List (ℕ × V) → Option V
  lookup id [] = none
  lookup id ((other, x) ∷ entries) =
      let rest = lookup id entries in if other == id then some x else rest

  unfoldable pub insert : ℕ → V → List (ℕ × V) → List (ℕ × V)
  insert id x [] = (id, x) ∷ []
  insert id x ((other, y) ∷ entries) =
      let rest = insert id x entries in
      if ltb id other
      then (id, x) ∷ (other, y) ∷ entries
      else if other == id
      then (id, x) ∷ entries
      else (other, y) ∷ rest

  unfoldable pub erase : ℕ → List (ℕ × V) → List (ℕ × V)
  erase id [] = []
  erase id ((other, y) ∷ entries) = if other == id then entries else (other, y) ∷ erase id entries

  unfoldable pub lower_bound : ℕ → List (ℕ × V) → List (ℕ × V)
  lower_bound id [] = []
  lower_bound id ((other, y) ∷ entries) =
      let rest = lower_bound id entries in if ltb other id then rest else (other, y) ∷ entries

  pub lookup-insert :
      (id id' : ℕ) (x : V) (entries : List (ℕ × V))
      → lookup id' (insert id x entries) ≡ (if id == id' then some x else lookup id' entries)
  unfolding lookup insert
  lookup-insert id id' x [] = refl
  lookup-insert id id' x ((other, y) ∷ entries) = ground (arith, lookup-insert id id' x entries)

  -- Every entry of the id goes; in a map there is one at most.
  unfoldable pub remove : ℕ → List (ℕ × V) → List (ℕ × V)
  remove id [] = []
  remove id ((other, y) ∷ entries) =
      let rest = remove id entries in if other == id then rest else (other, y) ∷ rest

  pub lookup-remove :
      (id id' : ℕ) (entries : List (ℕ × V))
      → lookup id' (remove id entries) ≡ (if id == id' then none else lookup id' entries)
  unfolding lookup remove
  lookup-remove id id' [] = ground arith
  lookup-remove id id' ((other, y) ∷ entries) = ground (arith, lookup-remove id id' entries)
