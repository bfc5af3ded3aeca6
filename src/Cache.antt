-- ===== src/Cache.antt =====
-- engine/src/cache/lru_cache.cc: the cache of search results. `keys` is the list of keys from the
-- least to the most recently used; an iterator into it, which the map stores beside an entry, is the
-- place of its key. Reading the front of an empty list, which C++ leaves undefined, is `none`.
pub mod Queue
pub mod Laws
pub mod Store
use vector_database.Prelude.{
  ℕ, Bool, Option, none, some, List, [], ◌∷◌, ◌++◌, length, nat_beq, nat_eq, if◌then◌else◌, ◌>>=◌,
}
use vector_database.Prelude.Map.{Map, find, assign, erase}
use vector_database.Prelude.Set.{delete}

pub record LruCache (E : Type 0) : Type 0 where
  pub cache : Map ℕ E
  pub keys : List ℕ
  pub max_cache_size : ℕ

module _ {E : Type 0} where
  unfoldable pub create : ℕ → LruCache E
  create max_cache_size = record { cache = []; keys = []; max_cache_size = max_cache_size }

  unfoldable pub get : LruCache E → ℕ → LruCache E × Option E
  get s key = elim (find key s.cache) [
    | none ↦ (s, none)
    | some entry ↦ (record s { keys = delete key s.keys ++ key ∷ [] }, some entry)
  ]

  unfoldable pub invalidate : LruCache E → ℕ → LruCache E
  invalidate s key = elim (find key s.cache) [
    | none ↦ s
    | some _ ↦ record s { keys = delete key s.keys; cache = erase key s.cache }
  ]

  unfoldable pub invalidate_all : LruCache E → LruCache E
  invalidate_all s = record s { cache = []; keys = [] }

  -- the eviction of the least recently used entry
  unfoldable pub evict : LruCache E → Option (LruCache E)
  evict s = elim s.keys [
    | [] ↦ none
    | oldest ∷ rest ↦ some (record s { cache = erase oldest s.cache; keys = rest })
  ]

  unfoldable pub store : LruCache E → ℕ → E → Option (LruCache E)
  store s key entry = elim (find key s.cache) [
    | some _ ↦
        some (record s { keys = delete key s.keys ++ key ∷ []; cache = assign key entry s.cache })
    | none ↦ do
      s' ← (if nat_beq (length s.cache) s.max_cache_size then evict s else some s)
      some (record s' { keys = s'.keys ++ key ∷ []; cache = assign key entry s'.cache })
  ]
