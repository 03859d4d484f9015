-- ===== src/Cache.antt =====
-- storage/cache/ob_kv_cache.h and ob_block_cache.h: ObKVCache, and the key of the micro block cache.
-- An operation holds the mutex throughout, so that it is one step.
pub mod Entries
pub mod Recency
mod Runs
use lsm_storage.Prelude.{
  ℕ, zero, suc, ◌+◌, ◌-◌, ◌≡◌, refl, Bool, true, false, ◌&&◌, Option, none, some, List, [], ◌∷◌,
  length, ltb, leb, ◌==◌, if◌then◌else◌, arith,
}

-- operator== of the key, which tells equal keys from others.
pub record KeyEq (K : Type 0) : Type 0 where
  pub same : K → K → Bool
  pub same_sound : (a b : K) → same a b ≡ true → a ≡ b
  pub same_refl : (a : K) → same a a ≡ true

pub record BlockKey : Type 0 where
  pub macro_block_id : ℕ
  pub block_offset : ℕ
  pub block_size : ℕ

unfoldable pub same_block : BlockKey → BlockKey → Bool
same_block a b =
    (a.macro_block_id == b.macro_block_id)
    && ((a.block_offset == b.block_offset) && (a.block_size == b.block_size))

pub record BlockValue : Type 0 where
  pub bytes : List ℕ
  pub access_count : ℕ

-- The list has a key at most once, and an entry's lru_iter_ is the key's place in it.
pub record KvCache (K V : Type 0) : Type 0 where
  pub capacity : ℕ
  pub size : ℕ
  pub entries : List (K × V)
  pub lru_list : List K

-- ObKVCache()
abbrev pub new_cache : {K V : Type 0} → KvCache K V
new_cache = record { capacity = 1024; size = 0; entries = []; lru_list = [] }

-- It is called on a cache that holds nothing, whose size_ is then right.
unfoldable pub init : {K V : Type 0} → ℕ → KvCache K V → KvCache K V
init capacity c = record c { capacity = capacity; size = 0 }

unfoldable pub clear : {K V : Type 0} → KvCache K V → KvCache K V
clear c = record c { entries = []; lru_list = []; size = 0 }

unfoldable pub last : {K : Type 0} → List K → Option K
last [] = none
last (k ∷ []) = some k
last (k ∷ k' ∷ ks) = last (k' ∷ ks)

unfoldable pub drop_last : {A : Type 0} → List A → List A
drop_last [] = []
drop_last (k ∷ []) = []
drop_last (k ∷ k' ∷ ks) = k ∷ drop_last (k' ∷ ks)

-- lru_list_.erase at the key's place
unfoldable pub remove : {K : Type 0} → KeyEq K → K → List K → List K
remove keys k [] = []
remove keys k (k' ∷ ks) = let rest = remove keys k ks in if keys.same k' k then ks else k' ∷ rest

module _ {K V : Type 0} (keys : KeyEq K) where
  unfoldable pub find : K → List (K × V) → Option V
  find k [] = none
  find k ((k', v) ∷ entries) = let rest = find k entries in if keys.same k' k then some v else rest

  -- map_.erase
  unfoldable pub erase_entry : K → List (K × V) → List (K × V)
  erase_entry k [] = []
  erase_entry k ((k', v) ∷ entries) =
      let rest = erase_entry k entries in if keys.same k' k then rest else (k', v) ∷ rest

  abbrev pub set_entry : K → V → List (K × V) → List (K × V)
  set_entry k v entries = (k, v) ∷ erase_entry k entries

  unfoldable pub get : K → KvCache K V → KvCache K V × Option V
  get k c = elim (find k c.entries) [
    | none ↦ (c, none)
    | some v ↦ (record c { lru_list = k ∷ remove keys k c.lru_list }, some v)
  ]

  -- The loop. Every turn takes a key off the list, so that one turn for each is enough.
  unfoldable pub evict : ℕ → KvCache K V → KvCache K V
  evict zero c = c
  evict (suc fuel) c = elim (leb c.capacity c.size) [
    | false ↦ c
    | true ↦ elim (last c.lru_list) [
      | none ↦ c
      | some oldest ↦ evict fuel (record c {
        lru_list = drop_last c.lru_list;
        entries = erase_entry oldest c.entries;
        size = c.size - 1;
      })
    ]
  ]

  abbrev pub add_entry : K → V → KvCache K V → KvCache K V
  add_entry k v c = record c {
    lru_list = k ∷ c.lru_list;
    entries = set_entry k v c.entries;
    size = c.size + 1;
  }

  unfoldable pub put : K → V → KvCache K V → KvCache K V
  unfolding evict
  put k v c = elim (find k c.entries) [
    | some old ↦ record c {
      entries = set_entry k v c.entries;
      lru_list = k ∷ remove keys k c.lru_list;
    }
    | none ↦ add_entry k v (evict (length c.lru_list) c)
  ]

  unfoldable pub erase : K → KvCache K V → KvCache K V
  erase k c = elim (find k c.entries) [
    | none ↦ c
    | some v ↦ record c {
      lru_list = remove keys k c.lru_list;
      entries = erase_entry k c.entries;
      size = c.size - 1;
    }
  ]
