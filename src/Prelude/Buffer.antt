-- ===== src/Prelude/Buffer.antt =====
-- A buffer in memory: bytes copied to an offset, integers read from one.
use Prim.Native.Nat.{ℕ, zero, suc, ◌+◌, ◌-◌, ◌*◌, ◌%◌, ◌^◌, ◌≤◌, ◌<◌}
use mathlib.Core.Path.{◌≡◌, refl, ap, ap₂, sym, ◌∙◌}
use mathlib.Core.Logic.{◌⊎◌, inl, inr}
use mathlib.Core.List.{List, [], ◌∷◌, ◌++◌, append-nil}
use native.Mathlib.Omega.{arith}
use native.Mathlib.Nat.{pow-suc}
use lsm_storage.Prelude.Lists.{
  drop-append_past, take-append_front, take-take, drop-take, length, take, drop, length-append,
  length-take, length-drop, zeros, take-append, assoc,
}
use lsm_storage.Prelude.Bytes.{to_le, from_le, from_le-to_le, take-to_le}

-- memcpy of `bytes` to `buf + pos`
unfoldable pub put : ℕ → List ℕ → List ℕ → List ℕ
put pos bytes buf = take pos buf ++ (bytes ++ drop (pos + length bytes) buf)

-- the `n`-byte integer at `buf + pos`
unfoldable pub fetch : ℕ → ℕ → List ℕ → ℕ
fetch n pos buf = from_le (take n (drop pos buf))

pub length-put :
    (pos : ℕ) (bytes buf : List ℕ)
    → pos + length bytes ≤ length buf
    → length (put pos bytes buf) ≡ length buf
unfolding put
length-put pos bytes buf h = omega (
  arith,
  length-append (take pos buf) (bytes ++ drop (pos + length bytes) buf),
  length-append bytes (drop (pos + length bytes) buf),
  length-take pos buf,
  length-drop (pos + length bytes) buf,
)

take-take_append :
    (n q : ℕ) (buf rest : List ℕ)
    → n ≤ q
    → q ≤ length buf
    → take n (take q buf ++ rest) ≡ take n buf
take-take_append zero q buf rest h k = refl
take-take_append (suc n) zero buf rest h k = absurd (omega arith)
take-take_append (suc n) (suc q) [] rest h k = absurd (omega arith)
take-take_append (suc n) (suc q) (b ∷ buf) rest h k =
    ap (◌∷◌ b) (take-take_append n q buf rest (omega arith) (omega arith))

window_before :
    (p n q : ℕ) (buf rest : List ℕ)
    → p + n ≤ q
    → q ≤ length buf
    → take n (drop p (take q buf ++ rest)) ≡ take n (drop p buf)
window_before zero n q buf rest h k = take-take_append n q buf rest (omega arith) k
window_before (suc p) n zero buf rest h k = absurd (omega arith)
window_before (suc p) n (suc q) [] rest h k = absurd (omega arith)
window_before (suc p) n (suc q) (b ∷ buf) rest h k =
    window_before p n q buf rest (omega arith) (omega arith)

drop-append_more :
    (p : ℕ) (xs ys : List ℕ) → length xs ≤ p → drop p (xs ++ ys) ≡ drop (p - length xs) ys
drop-append_more p [] ys h = ap (λ k. drop k ys) (omega arith)
drop-append_more zero (x ∷ xs) ys h = absurd (omega arith)
drop-append_more (suc p) (x ∷ xs) ys h =
    drop-append_more p xs ys (omega arith) ∙ ap (λ k. drop k ys) (omega arith)

drop-take_append : (q : ℕ) (buf rest : List ℕ) → q ≤ length buf → drop q (take q buf ++ rest) ≡ rest
drop-take_append zero buf rest h = refl
drop-take_append (suc q) [] rest h = absurd (omega arith)
drop-take_append (suc q) (b ∷ buf) rest h = drop-take_append q buf rest (omega arith)

pub drop_all : (buf : List ℕ) {n : ℕ} → n ≡ length buf → drop n buf ≡ []
drop_all [] e = rw e refl
drop_all (b ∷ buf) e = rw e (drop_all buf refl)

drop-nil : (k : ℕ) → drop {A = ℕ} k [] ≡ []
drop-nil zero = refl
drop-nil (suc k) = refl

shift : (m k : ℕ) → suc (m + k) ≡ suc m + k
shift m k = omega arith

pub drop-drop : (k m : ℕ) (xs : List ℕ) → drop k (drop m xs) ≡ drop (m + k) xs
drop-drop k zero xs = ap (λ j. drop j xs) (omega arith)
drop-drop k (suc m) [] = drop-nil k ∙ sym (drop-nil (suc m + k))
drop-drop k (suc m) (x ∷ xs) = drop-drop k m xs ∙ ap (λ j. drop j (x ∷ xs)) (shift m k)

-- A read that does not meet the bytes put finds what was there.
pub fetch-put_ne :
    (n p q : ℕ) (bytes buf : List ℕ)
    → q + length bytes ≤ length buf
    → (p + n ≤ q) ⊎ (q + length bytes ≤ p)
    → fetch n p (put q bytes buf) ≡ fetch n p buf
unfolding put fetch
fetch-put_ne n p q bytes buf fits (inl before) =
    ap from_le (window_before p n q buf _ before (omega arith))
fetch-put_ne n p q bytes buf fits (inr after) =
    ap (λ xs. from_le (take n xs))
      (drop-append_more p (take q buf) _ (omega (arith, length-take q buf))
        ∙ drop-append_more _ bytes _ (omega (arith, length-take q buf))
        ∙ drop-drop _ (q + length bytes) buf
        ∙ ap (λ j. drop j buf) (omega (arith, length-take q buf)))

-- A read of the integer put there finds it.
pub fetch-put :
    (n v q : ℕ) (buf : List ℕ)
    → v < 256 ^ n
    → q + n ≤ length buf
    → fetch n q (put q (to_le n v) buf) ≡ v
unfolding put fetch
fetch-put n v q buf small fits =
    ap (λ xs. from_le (take n xs)) (drop-take_append q buf _ (omega arith))
    ∙ ap from_le (take-to_le n v _)
    ∙ from_le-to_le n v small

-- A longer integer is its lower bytes and the four above them.
from_le-split :
    (n m : ℕ) (xs : List ℕ)
    → m ≡ n + 4
    → from_le (take m xs) ≡ from_le (take n xs) + 256 ^ n * from_le (take 4 (drop n xs))
unfolding from_le
from_le-split zero m xs e = let four : m ≡ 4 = omega arith in rw four (omega arith)
from_le-split (suc n) zero xs e = absurd (omega arith)
from_le-split (suc n) (suc m) [] e = omega arith
from_le-split (suc n) (suc m) (x ∷ xs) e = omega (
  arith,
  from_le-split n m xs (omega arith),
  ap (λ (t : ℕ). t * from_le (take 4 (drop n xs))) (pow-suc 256 n),
)

pub fetch_eight :
    (p : ℕ) (buf : List ℕ) → fetch 8 p buf ≡ fetch 4 p buf + 2 ^ 32 * fetch 4 (p + 4) buf
unfolding fetch
fetch_eight p buf =
    from_le-split 4 8 (drop p buf) refl
    ∙ ap (λ xs. from_le (take 4 (drop p buf)) + 2 ^ 32 * from_le (take 4 xs)) (drop-drop 4 p buf)

low_bytes : (v : ℕ) (rest : List ℕ) → from_le (take 4 (to_le 8 v ++ rest)) ≡ v % 2 ^ 32
unfolding to_le from_le
low_bytes v rest = omega arith

-- The lower half of an eight-byte integer that was put.
pub fetch-put_low :
    (q v : ℕ) (buf : List ℕ) → q + 8 ≤ length buf → fetch 4 q (put q (to_le 8 v) buf) ≡ v % 2 ^ 32
unfolding put fetch
fetch-put_low q v buf fits =
    ap (λ xs. from_le (take 4 xs)) (drop-take_append q buf _ (omega arith)) ∙ low_bytes v _

-- What was put is there, behind what was kept.
pub drop-put :
    (q : ℕ) (bytes buf : List ℕ) → q + length bytes ≡ length buf → drop q (put q bytes buf) ≡ bytes
unfolding put
drop-put q bytes buf full =
    drop-take_append q buf _ (omega arith)
    ∙ ap (λ rest. bytes ++ rest) (drop_all buf full)
    ∙ append-nil bytes

-- An integer within the first `m` bytes is read from those bytes.
pub fetch-take : (n p m : ℕ) (buf : List ℕ) → p + n ≤ m → fetch n p (take m buf) ≡ fetch n p buf
unfolding fetch
fetch-take n p m buf h =
    ap (λ xs. from_le (take n xs)) (drop-take p m (m - p) buf (omega arith))
    ∙ ap from_le (take-take n (m - p) (drop p buf) (omega arith))

-- The first bytes of a buffer that something was put at the front of.
pub take-put :
    (n : ℕ) (bytes buf : List ℕ) → n ≤ length bytes → take n (put 0 bytes buf) ≡ take n bytes
unfolding put
take-put n bytes buf h = take-append_front n bytes (drop (0 + length bytes) buf) h

-- The integer at the front.
pub fetch-to_le : (n v : ℕ) (rest : List ℕ) → v < 256 ^ n → fetch n 0 (to_le n v ++ rest) ≡ v
unfolding fetch
fetch-to_le n v rest small = ap from_le (take-to_le n v rest) ∙ from_le-to_le n v small

-- A read behind the first of two pieces.
pub fetch-append_past :
    (n k p : ℕ) (xs ys : List ℕ) → p ≡ length xs + k → fetch n p (xs ++ ys) ≡ fetch n k ys
unfolding fetch
fetch-append_past n k p xs ys e =
    ap (λ q. from_le (take n (drop q (xs ++ ys)))) e
    ∙ ap (λ zs. from_le (take n zs)) (drop-append_past k xs ys)

pub zeros-append : (m n : ℕ) → zeros (m + n) ≡ zeros m ++ zeros n
zeros-append zero n = let e : 0 + n ≡ n = omega arith in rw e refl
zeros-append (suc m) n =
    let e : suc m + n ≡ suc (m + n) = omega arith in rw e (ap (◌∷◌ 0) (zeros-append m n))

drop-zeros : (m n : ℕ) → drop m (zeros n) ≡ zeros (n - m)
drop-zeros zero n = let e : n ≡ n - 0 = omega arith in ap zeros e
drop-zeros (suc m) zero = let e : 0 ≡ 0 - suc m = omega arith in ap zeros e
drop-zeros (suc m) (suc n) =
    let e : n - m ≡ suc n - suc m = omega arith in drop-zeros m n ∙ ap zeros e

-- A piece written behind what is there takes the place of zeros.
pub put-zeros :
    (content piece : List ℕ) (k : ℕ)
    → put (length content) piece (content ++ zeros k)
      ≡ (content ++ piece) ++ zeros (k - length piece)
unfolding put
put-zeros content piece k =
    ap₂ (λ xs ys. xs ++ (piece ++ ys)) (take-append content (zeros k))
      (drop-append_past (length piece) content (zeros k) ∙ drop-zeros (length piece) k)
    ∙ sym (assoc content piece _)

-- What was put stands at its place, in front of what was behind it.
pub drop-put_at :
    (q : ℕ) (bytes buf : List ℕ)
    → q ≤ length buf
    → drop q (put q bytes buf) ≡ bytes ++ drop (q + length bytes) buf
unfolding put
drop-put_at q bytes buf fits = drop-take_append q buf _ fits

-- What lies behind it is as it was.
pub drop-put_behind :
    (p q : ℕ) (bytes buf : List ℕ)
    → q + length bytes ≤ length buf
    → q + length bytes ≤ p
    → drop p (put q bytes buf) ≡ drop p buf
unfolding put
drop-put_behind p q bytes buf fits behind =
    drop-append_more p (take q buf) _ (omega (arith, length-take q buf))
    ∙ drop-append_more _ bytes _ (omega (arith, length-take q buf))
    ∙ drop-drop _ (q + length bytes) buf
    ∙ ap (λ j. drop j buf) (omega (arith, length-take q buf))
