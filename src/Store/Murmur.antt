-- ===== src/Store/Murmur.antt =====
-- The body that ObStoreRowkey::murmurhash and ObMemtableKey::murmurhash_ share, over uint64.
use lsm_storage.Prelude.{
  ℕ, zero, suc, ◌*◌, ◌/◌, ◌%◌, ◌^◌, List, [], ◌∷◌, take, drop, from_le, ◌==◌, if◌then◌else◌,
  bit_xor,
}

abbrev pub mul64 : ℕ → ℕ → ℕ
mul64 a b = a * b % 2 ^ 64

abbrev m : ℕ
m = 0xc6a4a7935bd1e995

-- x ^= x >> r, with r = 47
abbrev pub fold_high : ℕ → ℕ
fold_high x = bit_xor x (x / 2 ^ 47)

-- One round of the loop, over the word `k`.
unfoldable pub mix_word : ℕ → ℕ → ℕ
mix_word h k = mul64 (bit_xor h (mul64 (fold_high (mul64 k m)) m)) m

-- The loop: `n` words of eight bytes are left.
unfoldable pub mix_words : ℕ → List ℕ → ℕ → ℕ
unfolding from_le
mix_words zero bytes h = h
mix_words (suc n) bytes h = mix_words n (drop 8 bytes) (mix_word h (from_le (take 8 bytes)))

byte_at : List ℕ → ℕ → ℕ
byte_at [] i = 0
byte_at (b ∷ bs) zero = b
byte_at (b ∷ bs) (suc i) = byte_at bs i

-- The switch entered at `case i`, falling through to `case 1`.
unfoldable pub xor_tail : ℕ → List ℕ → ℕ → ℕ
unfolding byte_at
xor_tail zero bytes h = h
xor_tail (suc i) bytes h = xor_tail i bytes (bit_xor h (byte_at bytes i * 2 ^ (8 * i)))

unfoldable pub mix_tail : ℕ → List ℕ → ℕ → ℕ
unfolding xor_tail
mix_tail r bytes h = if r == 0 then h else mul64 (xor_tail r bytes h) m

unfoldable pub murmur_bytes : ℕ → List ℕ → ℕ → ℕ
unfolding mix_word mix_words mix_tail
murmur_bytes len bytes seed =
    let h = mix_words (len / 8) bytes (bit_xor seed (mul64 len m)) in
    let mixed = mix_tail (len % 8) (drop (8 * (len / 8)) bytes) h in
    fold_high (mul64 (fold_high mixed) m)
