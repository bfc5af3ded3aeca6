-- ===== src/Engine/Batch/Caches.antt =====
-- The caches of the engine after BatchSearch.
use vector_database.Prelude.{
  ℕ, ◌≡◌, ◌∙◌, ◌&&◌, some, List, Text, text_eq, nat_eq, arith, Bool-cases, Option-cases, inl, inr,
  ◌⊎◌,
}
use vector_database.Prelude.Map.{find, assign}
use vector_database.Float.{Float}
use vector_database.Index.Any.{AnyIndex}
use vector_database.Index.Hnsw.{LevelSource}
use vector_database.Store.{Data, VectorStore}
use vector_database.Metrics.{Metrics}
use vector_database.Cache.{LruCache, get, evict, store as cache_store}
use vector_database.Engine.{Engine}
use vector_database.Engine.Batch.{
  FloatHash, Request, Measure, hash_key, search_each, admits_batch, answer_cached, batch_search,
}

module _ {E : Type 0} where
  get-max_cache_size : (c : LruCache E) (key : ℕ) → (get c key).0.max_cache_size ≡ c.max_cache_size
  unfolding get
  get-max_cache_size c key = ground arith

  store-max_cache_size :
      (c c' : LruCache E) (key : ℕ) (entry : E)
      → cache_store c key entry ≡ some c'
      → c'.max_cache_size ≡ c.max_cache_size
  unfolding cache_store evict
  store-max_cache_size c c' key entry e = ground arith

module _ {R D : Type 0} ⦃f : Float R⦄ ⦃source : LevelSource R⦄ ⦃hash : FloatHash R⦄ where
  -- What a batch does to the caches: at most that of its table changes, and not in size.
  pub record IsSearched (s u : Engine R D) (n : Text) : Type 0 where
    pub metadata : u.metadata ≡ s.metadata
    pub shutdown : u.shutdown ≡ s.shutdown
    pub caches :
        (u.cache_map ≡ s.cache_map)
        ⊎ ((cache cache' : LruCache (List (List (Data R)))) × (find n s.cache_map ≡ some cache)
            × (u.cache_map ≡ assign n cache' s.cache_map)
            × (cache'.max_cache_size ≡ cache.max_cache_size))

  answer_cached-IsSearched :
      (s u : Engine R D) (n : Text) (store : VectorStore R (AnyIndex R)) (metrics : Metrics R)
      (cache : LruCache (List (List (Data R)))) (requests : List (Request R))
      (measures : List (Measure R)) (results : List (List (Data R)))
      → find n s.cache_map ≡ some cache
      → answer_cached s n store metrics cache requests measures ≡ some (u, results)
      → IsSearched s u n
  unfolding answer_cached
  answer_cached-IsSearched s u n store metrics cache requests measures results found e =
      let key = hash_key requests in
      elim (Option-cases (get cache key).1) [
        | inr (entry, hit) ↦ record {
          metadata = ground arith;
          shutdown = ground arith;
          caches =
              inr (cache, (get cache key).0, found, ground arith, get-max_cache_size cache key);
        }
        | inl miss ↦ elim (Option-cases (search_each store requests)) [
          | inl thrown ↦ absurd (ground arith)
          | inr (others, es) ↦ elim (Option-cases (cache_store (get cache key).0 key others)) [
            | inl thrown ↦ absurd (ground arith)
            | inr (cache', ec) ↦ record {
              metadata = ground arith;
              shutdown = ground arith;
              caches = inr (
                cache,
                cache',
                found,
                ground arith,
                store-max_cache_size (get cache key).0 cache' key others ec
                    ∙ get-max_cache_size cache key,
              );
            }
          ]
        ]
      ]

  pub batch_search-IsSearched :
      (s u : Engine R D) (n : Text) (requests : List (Request R)) (measures : List (Measure R))
      (results : List (List (Data R)))
      → batch_search s n requests measures ≡ some (u, results)
      → IsSearched s u n
  unfolding batch_search
  batch_search-IsSearched s u n requests measures results e =
      elim (Bool-cases (admits_batch s n requests && s.metadata.use_cache)) [
        | inr plain ↦ record {
          metadata = ground arith;
          shutdown = ground arith;
          caches = inl (ground arith);
        }
        | inl cached ↦ elim (Option-cases (find n s.cache_map)) [
          | inl absent ↦ record {
            metadata = ground arith;
            shutdown = ground arith;
            caches = inl (ground arith);
          }
          | inr (cache, found) ↦ elim (Option-cases (find n s.store_map)) [
            | inl absent ↦ absurd (ground arith)
            | inr (store, here) ↦ elim (Option-cases (find n s.metrics_manager_map)) [
              | inl absent ↦ absurd (ground arith)
              | inr (metrics, there) ↦
                  answer_cached-IsSearched s u n store metrics cache requests measures results found
                    (ground arith)
            ]
          ]
        ]
      ]
