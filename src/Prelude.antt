-- ===== src/Prelude.antt =====
-- The names that the other modules share: the libraries', passed on, and those of the children:
-- Boolean tests, lists over the native numbers, little-endian integers, ordered maps.
mod Tests
mod Lists
mod Bytes
pub mod Assoc
pub mod Buffer
pub mod File
pub mod Fields
pub mod Dict
pub use Tests.*
pub use Lists.*
unfoldable pub use Bytes.{to_le, from_le}
pub use Bytes.*
pub use Prim.Native.Nat.{ℕ, zero, suc, ◌+◌, ◌-◌, ◌*◌, ◌/◌, ◌%◌, ◌^◌, ◌≤◌, ◌<◌, bit_xor}
pub use Prim.Native.Nat.{Ordering, compare}
pub use mathlib.Core.Path.{◌≡◌, refl, sym, ap, ap₂, subst, ◌∙◌}
pub use mathlib.Core.Logic.{◌≢◌, ◌↔◌, ◌⊎◌, inl, inr}
pub use mathlib.Core.Bool.{Bool, true, false, not, ◌&&◌, ◌||◌}
pub use mathlib.Core.Option.{Option, none, some}
pub use mathlib.Core.List.{List, [], ◌∷◌, ◌++◌, map, append_assoc, append-nil}
pub use native.Mathlib.Omega.{arith}
unfoldable pub use native.Mathlib.Decide.{ℕ_discrete}

-- The int that the operations return: 0, or -1 for every error.
pub data Ret : Type 0 where
  success failure : Ret

pub Ret-cases : (r : Ret) → (r ≡ success) ⊎ (r ≡ failure)
Ret-cases success = inl refl
Ret-cases failure = inr refl
