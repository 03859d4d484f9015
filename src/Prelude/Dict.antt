-- ===== src/Prelude/Dict.antt =====
-- A map whose keys are compared by a Boolean test, as an association list.
use mathlib.Core.Path.{◌≡◌, refl}
use mathlib.Core.Logic.{◌↔◌}
use mathlib.Core.Bool.{Bool, true}
use mathlib.Core.List.{List, [], ◌∷◌}
use mathlib.Core.Option.{Option, none, some}
use native.Mathlib.Omega.{arith}
use lsm_storage.Prelude.Tests.{if◌then◌else◌}

module _ {K V : Type 0} (same : K → K → Bool) where
  unfoldable pub lookup : K → List (K × V) → Option V
  lookup k [] = none
  lookup k ((other, x) ∷ entries) =
      let rest = lookup k entries in if same other k then some x else rest

  -- A new key goes in front.
  unfoldable pub insert : K → V → List (K × V) → List (K × V)
  insert k x entries = (k, x) ∷ entries

  unfoldable pub remove : K → List (K × V) → List (K × V)
  remove k [] = []
  remove k ((other, y) ∷ entries) =
      let rest = remove k entries in if same other k then rest else (other, y) ∷ rest

  pub lookup-insert :
      (k k' : K) (x : V) (entries : List (K × V))
      → lookup k' (insert k x entries) ≡ (if same k k' then some x else lookup k' entries)
  unfolding lookup insert
  lookup-insert k k' x entries = refl

  module _ (same_iff : (a b : K) → (same a b ≡ true) ↔ (a ≡ b)) where
    pub lookup-remove :
        (k k' : K) (entries : List (K × V))
        → lookup k' (remove k entries) ≡ (if same k k' then none else lookup k' entries)
    unfolding lookup remove
    lookup-remove k k' [] = ground arith
    lookup-remove k k' ((other, y) ∷ entries) = ground (
      arith,
      lookup-remove k k' entries,
      (same_iff k k').0,
      (same_iff k k').1,
      (same_iff other k).0,
      (same_iff other k).1,
      (same_iff other k').0,
      (same_iff other k').1,
    )
