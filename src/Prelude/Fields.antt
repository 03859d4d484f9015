-- ===== src/Prelude/Fields.antt =====
-- A structure as the bytes of its members, each a little-endian integer of its own width.
use Prim.Native.Nat.{ℕ, ◌+◌, ◌^◌, ◌<◌}
use mathlib.Core.Path.{◌≡◌, refl, ap, ap₂, ◌∙◌}
use mathlib.Core.List.{List, [], ◌∷◌, ◌++◌}
use native.Mathlib.Omega.{arith}
use lsm_storage.Prelude.Lists.{length, take, drop, length-append, assoc}
use lsm_storage.Prelude.Bytes.{to_le, from_le, length-to_le, from_le-to_le, take-to_le, drop-to_le}

unfoldable pub pack : List ℕ → List ℕ → List ℕ
pack [] vs = []
pack (w ∷ ws) [] = []
pack (w ∷ ws) (v ∷ vs) = to_le w v ++ pack ws vs

unfoldable pub unpack : List ℕ → List ℕ → List ℕ
unpack [] bytes = []
unpack (w ∷ ws) bytes = from_le (take w bytes) ∷ unpack ws (drop w bytes)

abbrev pub sum : List ℕ → ℕ
sum [] = 0
sum (w ∷ ws) = w + sum ws

-- Every value is within its member's width.
pub data Fits : List ℕ → List ℕ → Type 0 where
  done : Fits [] []
  next : {w v : ℕ} {ws vs : List ℕ} → v < 256 ^ w → Fits ws vs → Fits (w ∷ ws) (v ∷ vs)

pub unpack-pack : (ws vs rest : List ℕ) → Fits ws vs → unpack ws (pack ws vs ++ rest) ≡ vs
unfolding pack unpack
unpack-pack [] [] rest done = refl
unpack-pack [] (v ∷ vs) rest fits = elim fits [ ]
unpack-pack (w ∷ ws) [] rest fits = elim fits [ ]
unpack-pack (w ∷ ws) (v ∷ vs) rest (next small fits) = rw (assoc (to_le w v) (pack ws vs) rest) (
    ap₂ ◌∷◌ (ap from_le (take-to_le w v _) ∙ from_le-to_le w v small)
      (ap (unpack ws) (drop-to_le w v _) ∙ unpack-pack ws vs rest fits))

pub length-pack : (ws vs : List ℕ) → Fits ws vs → length (pack ws vs) ≡ sum ws
unfolding pack
length-pack [] [] done = refl
length-pack [] (v ∷ vs) fits = elim fits [ ]
length-pack (w ∷ ws) [] fits = elim fits [ ]
length-pack (w ∷ ws) (v ∷ vs) (next small fits) =
    omega (arith, length-append (to_le w v) (pack ws vs), length-to_le w v, length-pack ws vs fits)
