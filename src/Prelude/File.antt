-- ===== src/Prelude/File.antt =====
-- A regular file as POSIX presents it: a size, and the byte at each offset. A write beyond the
-- end leaves zeros between; a read stops at the end.
use Prim.Native.Nat.{ℕ, zero, suc, ◌+◌, ◌-◌, ◌≤◌, ◌<◌, min, max}
use mathlib.Core.Path.{◌≡◌, refl, ap, ap₂, ◌∙◌}
use mathlib.Core.Logic.{◌⊎◌, inl, inr}
use mathlib.Core.List.{List, [], ◌∷◌}
use native.Mathlib.Omega.{arith}
use lsm_storage.Prelude.Lists.{length, take}
use lsm_storage.Prelude.Tests.{ltb, ◌==◌, if◌then◌else◌}

pub record File : Type 0 where
  pub size : ℕ
  pub byte : ℕ → ℕ

abbrev pub empty_file : File
empty_file = record { size = 0; byte = λ i. 0 }

-- ftruncate: what is cut off reads as zeros when the file grows again.
unfoldable pub truncate : ℕ → File → File
truncate n f = record { size = n; byte = λ i. if ltb i n then f.byte i else 0 }

unfoldable pub poke : ℕ → List ℕ → (ℕ → ℕ) → ℕ → ℕ
poke pos [] byte i = byte i
poke pos (b ∷ bytes) byte i = if i == pos then b else poke (pos + 1) bytes byte i

-- lseek and write
unfoldable pub write : ℕ → List ℕ → File → File
write pos bytes f = record { size = max f.size (pos + length bytes); byte = poke pos bytes f.byte }

unfoldable pub peek : ℕ → ℕ → (ℕ → ℕ) → List ℕ
peek zero pos byte = []
peek (suc n) pos byte = byte pos ∷ peek n (pos + 1) byte

-- lseek and read
unfoldable pub read : ℕ → ℕ → File → List ℕ
unfolding peek
read n pos f = peek (min n (f.size - pos)) pos f.byte

pub length-peek : (n pos : ℕ) (byte : ℕ → ℕ) → length (peek n pos byte) ≡ n
unfolding peek
length-peek zero pos byte = refl
length-peek (suc n) pos byte = ap suc (length-peek n (pos + 1) byte)

poke_outside :
    (pos : ℕ) (bytes : List ℕ) (byte : ℕ → ℕ) (i : ℕ)
    → (i < pos) ⊎ (pos + length bytes ≤ i)
    → poke pos bytes byte i ≡ byte i
unfolding poke
poke_outside pos [] byte i h = refl
poke_outside pos (b ∷ bytes) byte i h = ground (arith, poke_outside (pos + 1) bytes byte i)

peek_same :
    (n pos : ℕ) (f g : ℕ → ℕ)
    → ((i : ℕ) → pos ≤ i → i < pos + n → f i ≡ g i)
    → peek n pos f ≡ peek n pos g
unfolding peek
peek_same zero pos f g h = refl
peek_same (suc n) pos f g h =
    ap₂ ◌∷◌ (h pos (omega arith) (omega arith))
      (peek_same n (pos + 1) f g (λ i p q. h i (omega arith) (omega arith)))

-- Bytes outside a write keep their values.
pub peek-poke_ne :
    (n p q : ℕ) (bytes : List ℕ) (byte : ℕ → ℕ)
    → (p + n ≤ q) ⊎ (q + length bytes ≤ p)
    → peek n p (poke q bytes byte) ≡ peek n p byte
peek-poke_ne n p q bytes byte h = peek_same n p _ _ (λ i lo hi.
    poke_outside q bytes byte i (elim h [ inl a ↦ inl (omega arith) | inr b ↦ inr (omega arith) ]))

-- What was written is read back.
pub peek-poke :
    (pos : ℕ) (bytes : List ℕ) (byte : ℕ → ℕ)
    → peek (length bytes) pos (poke pos bytes byte) ≡ bytes
unfolding peek poke
peek-poke pos [] byte = refl
peek-poke pos (b ∷ bytes) byte = ap₂ ◌∷◌ (ground arith) (
    peek_same (length bytes) (pos + 1) _ (poke (pos + 1) bytes byte) (λ i p q. ground arith)
    ∙ peek-poke (pos + 1) bytes byte)

pub length-read-le : (n pos : ℕ) (f : File) → length (read n pos f) ≤ n
unfolding read
length-read-le n pos f = omega (arith, length-peek (min n (f.size - pos)) pos f.byte)

pub take-peek : (n m pos : ℕ) (byte : ℕ → ℕ) → n ≤ m → take n (peek m pos byte) ≡ peek n pos byte
unfolding peek
take-peek zero m pos byte h = refl
take-peek (suc n) zero pos byte h = elim h [ ]
take-peek (suc n) (suc m) pos byte h =
    ap (◌∷◌ (byte pos)) (take-peek n m (pos + 1) byte (omega arith))
