-- ===== src/Prelude/Bytes.antt =====
-- Little-endian integers as lists of bytes, as the x86 and ARM builds lay them out.
use Prim.Native.Nat.{ℕ, zero, suc, ◌+◌, ◌*◌, ◌/◌, ◌%◌, ◌^◌, ◌<◌}
use mathlib.Core.Path.{◌≡◌, refl, ap}
use mathlib.Core.List.{List, [], ◌∷◌, ◌++◌}
use native.Mathlib.Omega.{arith}
use native.Mathlib.Nat.{pow-suc}
use lsm_storage.Prelude.Lists.{length, take, drop}

-- The lowest `n` bytes of `v`.
unfoldable pub to_le : ℕ → ℕ → List ℕ
to_le zero v = []
to_le (suc n) v = (v % 256) ∷ to_le n (v / 256)

unfoldable pub from_le : List ℕ → ℕ
from_le [] = 0
from_le (b ∷ bs) = b + 256 * from_le bs

pub length-to_le : (n v : ℕ) → length (to_le n v) ≡ n
unfolding to_le
length-to_le zero v = refl
length-to_le (suc n) v = ap suc (length-to_le n (v / 256))

pub from_le-to_le : (n v : ℕ) → v < 256 ^ n → from_le (to_le n v) ≡ v
unfolding to_le from_le
from_le-to_le zero v h = omega arith
from_le-to_le (suc n) v h =
    let bound : v < 256 ^ n * 256 = (rw (pow-suc 256 n) at h) in
    omega (arith, from_le-to_le n (v / 256) (omega arith))

-- Reading an integer back from the front of what was written.
pub take-to_le : (n v : ℕ) (rest : List ℕ) → take n (to_le n v ++ rest) ≡ to_le n v
unfolding to_le
take-to_le zero v rest = refl
take-to_le (suc n) v rest = ap (◌∷◌ (v % 256)) (take-to_le n (v / 256) rest)

pub drop-to_le : (n v : ℕ) (rest : List ℕ) → drop n (to_le n v ++ rest) ≡ rest
unfolding to_le
drop-to_le zero v rest = refl
drop-to_le (suc n) v rest = drop-to_le n (v / 256) rest
