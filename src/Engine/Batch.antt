-- ===== src/Engine/Batch.antt =====
-- engine/src/engine.cc: BatchSearch. The tasks of the thread pool read the store and write the
-- metrics; their writes interleave, and the order in which they do is an argument.
pub mod Answers
pub mod Caches
use vector_database.Prelude.{
  ℕ, zero, suc, ◌+◌, ◌*◌, ◌/◌, ◌%◌, Bool, true, false, not, ◌&&◌, Option, none, some, List, [], ◌∷◌,
  foldl, all, length, if◌then◌else◌, Text, text_eq, ◌>>=◌,
}
use vector_database.Prelude.Map.{find, assign, contains}
use vector_database.Float.{Float, Vector}
use vector_database.Index.Any.{AnyIndex, any_index}
use vector_database.Index.Hnsw.{LevelSource}
use vector_database.Store.{Data, VectorStore, search as store_search}
use vector_database.Cache.{LruCache, get, store as cache_store}
use vector_database.Metrics.{Metrics, CountType, calculate_search_latency, increment as count}
use vector_database.Validator.{validate_search}
use vector_database.Engine.{Engine}

-- std::hash<float>
pub record FloatHash (R : Type 0) : Type 0 where
  pub hash_float : R → ℕ

-- a query with its `k` and its `search_param`
abbrev pub Request : Type 0 → Type 0
Request R = Vector R × (ℕ × ℕ)

-- the exclusive or of the `count` low bits
pub xor_bits : ℕ → ℕ → ℕ → ℕ
xor_bits zero a b = 0
xor_bits (suc count) a b = (a + b) % 2 + 2 * xor_bits count (a / 2) (b / 2)

abbrev pub xor : ℕ → ℕ → ℕ
xor a b = xor_bits 64 a b

-- a write of a task to the metrics
pub data Measure (R : Type 0) : Type 0 where
  latency : R → Measure R
  finished : Measure R

module _ {R : Type 0} ⦃hash : FloatHash R⦄ where
  -- every second component, from the first on
  abbrev pub hash_vector : ℕ → Vector R → ℕ
  hash_vector acc [] = acc
  hash_vector acc (x ∷ []) = xor acc (hash.hash_float x)
  hash_vector acc (x ∷ _ ∷ rest) = hash_vector (xor acc (hash.hash_float x)) rest

  unfoldable pub hash_key : List (Request R) → ℕ
  hash_key requests =
      foldl (λ acc (r : Request R). hash_vector (xor (xor acc r.1.0) r.1.1) r.0) (length requests)
        requests

module _ {R : Type 0} ⦃f : Float R⦄ where
  abbrev pub measure : Metrics R → Measure R → Metrics R
  measure metrics (Measure.latency value) = calculate_search_latency metrics value
  measure metrics Measure.finished = count metrics CountType.search 1

module _ {R : Type 0} ⦃f : Float R⦄ ⦃source : LevelSource R⦄ where
  -- the tasks, and the collection of their results in the order of the requests
  unfoldable pub search_each :
      VectorStore R (AnyIndex R) → List (Request R) → Option (List (List (Data R)))
  search_each store [] = some []
  search_each store ((query, (k, search_param)) ∷ rest) = do
    found ← store_search store query k search_param
    others ← search_each store rest
    some (found ∷ others)

module _ {R D : Type 0} where
  abbrev pub admits_batch : Engine R D → Text → List (Request R) → Bool
  admits_batch s table_name requests =
      not s.shutdown
      && (contains table_name s.store_map
          && (contains table_name s.metrics_manager_map
              && all (λ (r : Request R). validate_search table_name r.0 r.1.0 r.1.1) requests))

module _ {R D : Type 0} ⦃f : Float R⦄ ⦃source : LevelSource R⦄ ⦃hash : FloatHash R⦄ where
  -- the part that looks into the cache, and stores new results there
  unfoldable pub answer_cached :
      Engine R D
      → Text
      → VectorStore R (AnyIndex R)
      → Metrics R
      → LruCache (List (List (Data R)))
      → List (Request R)
      → List (Measure R)
      → Option (Engine R D × List (List (Data R)))
  answer_cached s table_name store metrics cache requests measures =
      let looked = get cache (hash_key requests) in
      elim looked.1 [
        | some entry ↦ some (
          record s {
            cache_map = assign table_name looked.0 s.cache_map;
            metrics_manager_map =
                assign table_name (count metrics CountType.cache_hit 1) s.metrics_manager_map;
          },
          entry,
        )
        | none ↦ do
          results ← search_each store requests
          cache' ← cache_store looked.0 (hash_key requests) results
          some (
            record s {
              cache_map = assign table_name cache' s.cache_map;
              metrics_manager_map =
                  assign table_name (foldl measure (count metrics CountType.cache_miss 1) measures)
                    s.metrics_manager_map;
            },
            results,
          )
      ]

  unfoldable pub batch_search :
      Engine R D
      → Text
      → List (Request R)
      → List (Measure R)
      → Option (Engine R D × List (List (Data R)))
  batch_search s table_name requests measures =
      if not (admits_batch s table_name requests)
      then some (s, [])
      else if not s.metadata.use_cache
      then (do
        store ← find table_name s.store_map
        metrics ← find table_name s.metrics_manager_map
        results ← search_each store requests
        some (
          record s {
            metrics_manager_map =
                assign table_name (foldl measure metrics measures) s.metrics_manager_map;
          },
          results,
        ))
      else if not (contains table_name s.cache_map)
      then some (s, [])
      else do
        store ← find table_name s.store_map
        metrics ← find table_name s.metrics_manager_map
        cache ← find table_name s.cache_map
        answer_cached s table_name store metrics cache requests measures
