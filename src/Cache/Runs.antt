-- ===== src/Cache/Runs.antt =====
-- The cache on concrete inputs.
use lsm_storage.Prelude.{ℕ, ◌≡◌, refl, true, none, some, List, [], ◌∷◌, length, arith}
use lsm_storage.Cache.{KeyEq, BlockKey, same_block, new_cache, init}
use lsm_storage.Cache.Recency.{Call, call_get, call_put, run, run_spec, run-run_spec}

same_block_sound : (a b : BlockKey) → same_block a b ≡ true → a ≡ b
unfolding same_block
same_block_sound a b h =
    let e₁ : a.macro_block_id ≡ b.macro_block_id = ground arith in
    let e₂ : a.block_offset ≡ b.block_offset = ground arith in
    let e₃ : a.block_size ≡ b.block_size = ground arith in rw (e₁, e₂, e₃) refl

same_block_refl : (a : BlockKey) → same_block a a ≡ true
unfolding same_block
same_block_refl a = ground arith

abbrev block_keys : KeyEq BlockKey
block_keys = record {
  same = same_block;
  same_sound = same_block_sound;
  same_refl = same_block_refl;
}

abbrev block : ℕ → BlockKey
block n = record { macro_block_id = n; block_offset = 4096; block_size = 100 }

abbrev calls : List (Call BlockKey ℕ)
calls =
    call_put (block 1) 10
    ∷ call_put (block 2) 20
    ∷ call_get (block 1)
    ∷ call_put (block 3) 30
    ∷ call_get (block 2)
    ∷ call_get (block 1)
    ∷ []

calls_test : (run_spec block_keys 2 calls []).1 ≡ none ∷ none ∷ some 10 ∷ none ∷ none ∷ some 10 ∷ []
unfolding run_spec same_block lsm_storage.Cache.find
calls_test = refl

run-run_spec_example :
    ((run block_keys calls (init 2 new_cache)).1 ≡ (run_spec block_keys 2 calls []).1)
    × ((run block_keys calls (init 2 new_cache)).0.size ≡ length (run_spec block_keys 2 calls []).0)
run-run_spec_example = run-run_spec block_keys 2 calls
