-- ===== src/Engine/Batch/Answers.antt =====
-- BatchSearch against Search: each request of a batch is answered as it is answered alone.
use vector_database.Prelude.{
  ℕ, ◌<◌, ◌≡◌, refl, ◌∙◌, true, false, not, ◌&&◌, Option, none, some, List, [], ◌∷◌, foldl, all,
  Text, text_eq, nat_eq, arith, Bool-cases, Option-cases, inl, inr,
}
use vector_database.Prelude.Map.{find, assign, contains, find-assign_self}
use vector_database.Float.{Float, Vector}
use vector_database.Index.Any.{AnyIndex, any_index, any_view, any_laws}
use vector_database.Index.Hnsw.{LevelSource}
use vector_database.Store.{Data, VectorStore, search as store_search}
use vector_database.Store.Indexed.{IsIndexed}
use vector_database.Store.Total.{search-stored}
use vector_database.Cache.{LruCache, get, store as cache_store}
use vector_database.Cache.Queue.{IsCache, queue}
use vector_database.Cache.Laws.{get-queue}
use vector_database.Cache.Store.{store-queue}
use vector_database.Metrics.{Metrics, CountType, calculate_search_latency, increment as count}
use vector_database.Validator.{validate_search}
use vector_database.Engine.{Disk, Engine, search}
use vector_database.Engine.Running.{IsRunning}
use vector_database.Engine.Present.{Table, Table-of, contains-assign_present}
use vector_database.Engine.Batch.{
  FloatHash, Request, Measure, measure, hash_key, search_each, admits_batch, answer_cached,
  batch_search,
}

fits :
    {E : Type 0} (cache : LruCache E) (key : ℕ)
    → 0 < cache.max_cache_size
    → 0 < (get cache key).0.max_cache_size
unfolding get
fits cache key room = ground arith

module _ {R D : Type 0} ⦃f : Float R⦄ ⦃source : LevelSource R⦄ ⦃disk : Disk R D⦄ where
  -- The results are those of Search, request by request, whatever the clock reads.
  abbrev pub Answers : Engine R D → Text → List (Request R) → List (List (Data R)) → Type 0
  Answers s n [] [] = Unit
  Answers s n [] (_ ∷ _) = ⊥
  Answers s n (_ ∷ _) [] = ⊥
  Answers s n ((query, (k, search_param)) ∷ rest) (found ∷ others) =
      ((latency : R)
        → (t : Engine R D) × (search s n query k search_param latency ≡ some (t, found)))
      × Answers s n rest others

  -- the entry of the cache, or the results of Search where there is none
  abbrev pub AnswersOr :
      Engine R D
      → Text
      → List (Request R)
      → List (List (Data R))
      → Option (List (List (Data R)))
      → Type 0
  AnswersOr s n requests results none = Answers s n requests results
  AnswersOr s n requests results (some entry) = results ≡ entry

  pub search_steps :
      (s : Engine R D) (n : Text) (query : Vector R) (k search_param : ℕ) (latency : R)
      (t : Table s n) (found : List (Data R))
      → s.shutdown ≡ false
      → validate_search n query k search_param ≡ true
      → store_search t.store query k search_param ≡ some found
      → search s n query k search_param latency
        ≡ some (
          record s {
            metrics_manager_map =
                assign n
                  (count (calculate_search_latency t.metrics latency) CountType.search 1)
                  s.metrics_manager_map;
          },
          found,
        )
  unfolding search
  search_steps s n query k search_param latency t found up valid e =
      let admitted : (not s.shutdown
            && (contains n s.store_map
                && (contains n s.metrics_manager_map && validate_search n query k search_param)))
          ≡ true =
        ground (arith, t.found_store, t.found_metrics) in
      rw (admitted, t.found_store, t.found_metrics, e)

  -- The tasks of a batch throw nothing.
  search_each_total :
      (s : Engine R D) (n : Text) (t : Table s n) (requests : List (Request R))
      → IsIndexed t.store
      → s.shutdown ≡ false
      → all (λ (r : Request R). validate_search n r.0 r.1.0 r.1.1) requests ≡ true
      → (results : List (List (Data R))) × (search_each t.store requests ≡ some results)
        × Answers s n requests results
  unfolding search_each
  search_each_total s n t [] h up valid = ([], refl, tt)
  search_each_total s n t ((query, (k, search_param)) ∷ rest) h up valid =
      let (found, e, _, _, _) = search-stored any_laws t.store query k search_param h in
      let (others, e', answers) = search_each_total s n t rest h up (ground arith) in
      (
        found ∷ others,
        rw (e, e'),
        (
          λ latency. (_, search_steps s n query k search_param latency t found up (ground arith) e),
          answers,
        ),
      )

module _ {R D : Type 0} ⦃f : Float R⦄ ⦃source : LevelSource R⦄ ⦃disk : Disk R D⦄
    ⦃hash : FloatHash R⦄ where
  -- New metrics of a table, and a new cache of it, leave the engine in order.
  pub measured-IsRunning :
      (s : Engine R D) (n : Text) (t : Table s n) (metrics : Metrics R)
      → IsRunning s
      → IsRunning (record s { metrics_manager_map = assign n metrics s.metrics_manager_map })
  measured-IsRunning s n t metrics h = record {
    stats_there = h.stats_there;
    metrics_there = λ m.
        contains-assign_present n m metrics t.metrics s.metrics_manager_map t.found_metrics
        ∙ h.metrics_there m;
    persistence_there = h.persistence_there;
    cache_there = h.cache_there;
    accounted = h.accounted;
  }

  cached-IsRunning :
      (s : Engine R D) (n : Text) (old new : LruCache (List (List (Data R))))
      → find n s.cache_map ≡ some old
      → IsRunning s
      → IsRunning (record s { cache_map = assign n new s.cache_map })
  cached-IsRunning s n old new e h = record {
    stats_there = h.stats_there;
    metrics_there = h.metrics_there;
    persistence_there = h.persistence_there;
    cache_there = λ m. contains-assign_present n m new old s.cache_map e ∙ h.cache_there m;
    accounted = h.accounted;
  }

  plain_steps :
      (s : Engine R D) (n : Text) (requests : List (Request R)) (measures : List (Measure R))
      (t : Table s n) (results : List (List (Data R)))
      → admits_batch s n requests ≡ true
      → s.metadata.use_cache ≡ false
      → search_each t.store requests ≡ some results
      → batch_search s n requests measures
        ≡ some (
          record s {
            metrics_manager_map = assign n (foldl measure t.metrics measures) s.metrics_manager_map;
          },
          results,
        )
  unfolding batch_search
  plain_steps s n requests measures t results admitted plain e =
      rw (admitted, plain, t.found_store, t.found_metrics, e)

  -- BatchSearch without a cache throws nothing and keeps stores and counters in agreement. It answers
  -- each request of an admitted batch as Search answers it, and any other batch with nothing.
  pub batch_search-search :
      (s : Engine R D) (n : Text) (requests : List (Request R)) (measures : List (Measure R))
      → IsRunning s
      → s.metadata.use_cache ≡ false
      → (u : Engine R D) × (results : List (List (Data R))) × (batch_search s n requests measures
          ≡ some (u, results))
        × IsRunning u
        × (admits_batch s n requests ≡ true → Answers s n requests results)
        × (admits_batch s n requests ≡ false → results ≡ [])
  unfolding batch_search
  batch_search-search s n requests measures h plain =
      elim (Bool-cases (admits_batch s n requests)) [
        | inr refused ↦ (s, [], ground arith, h, λ admitted. absurd cc, λ _. refl)
        | inl admitted ↦
            let t = Table-of s n h (ground arith) in
            let (results, e, answers) =
              search_each_total s n t requests
                (h.accounted n t.store t.stats t.found_store t.found_stats).indexed (ground arith)
                (ground arith) in
            (
              _,
              results,
              plain_steps s n requests measures t results admitted plain e,
              measured-IsRunning s n t (foldl measure t.metrics measures) h,
              λ _. answers,
              λ refused. absurd cc,
            )
      ]

  answer_hit :
      (s : Engine R D) (n : Text) (store : VectorStore R (AnyIndex R)) (metrics : Metrics R)
      (cache : LruCache (List (List (Data R)))) (requests : List (Request R))
      (measures : List (Measure R)) (entry : List (List (Data R)))
      → (get cache (hash_key requests)).1 ≡ some entry
      → answer_cached s n store metrics cache requests measures
        ≡ some (
          record s {
            cache_map = assign n (get cache (hash_key requests)).0 s.cache_map;
            metrics_manager_map =
                assign n (count metrics CountType.cache_hit 1) s.metrics_manager_map;
          },
          entry,
        )
  unfolding answer_cached
  answer_hit s n store metrics cache requests measures entry e = ground arith

  answer_miss :
      (s : Engine R D) (n : Text) (store : VectorStore R (AnyIndex R)) (metrics : Metrics R)
      (cache cache' : LruCache (List (List (Data R)))) (requests : List (Request R))
      (measures : List (Measure R)) (results : List (List (Data R)))
      → (get cache (hash_key requests)).1 ≡ none
      → search_each store requests ≡ some results
      → cache_store (get cache (hash_key requests)).0 (hash_key requests) results ≡ some cache'
      → answer_cached s n store metrics cache requests measures
        ≡ some (
          record s {
            cache_map = assign n cache' s.cache_map;
            metrics_manager_map =
                assign n
                  (foldl measure (count metrics CountType.cache_miss 1) measures)
                  s.metrics_manager_map;
          },
          results,
        )
  unfolding answer_cached
  answer_miss s n store metrics cache cache' requests measures results e es ec = ground arith

  hit_steps :
      (s : Engine R D) (n : Text) (requests : List (Request R)) (measures : List (Measure R))
      (t : Table s n) (cache : LruCache (List (List (Data R)))) (entry : List (List (Data R)))
      → admits_batch s n requests ≡ true
      → s.metadata.use_cache ≡ true
      → find n s.cache_map ≡ some cache
      → (get cache (hash_key requests)).1 ≡ some entry
      → batch_search s n requests measures
        ≡ some (
          record s {
            cache_map = assign n (get cache (hash_key requests)).0 s.cache_map;
            metrics_manager_map =
                assign n (count t.metrics CountType.cache_hit 1) s.metrics_manager_map;
          },
          entry,
        )
  unfolding batch_search
  hit_steps s n requests measures t cache entry admitted cached found e =
      let here : contains n s.cache_map ≡ true = ground (arith, found) in
      ground (
        arith,
        t.found_store,
        t.found_metrics,
        answer_hit s n t.store t.metrics cache requests measures entry e,
      )

  miss_steps :
      (s : Engine R D) (n : Text) (requests : List (Request R)) (measures : List (Measure R))
      (t : Table s n) (cache cache' : LruCache (List (List (Data R))))
      (results : List (List (Data R)))
      → admits_batch s n requests ≡ true
      → s.metadata.use_cache ≡ true
      → find n s.cache_map ≡ some cache
      → (get cache (hash_key requests)).1 ≡ none
      → search_each t.store requests ≡ some results
      → cache_store (get cache (hash_key requests)).0 (hash_key requests) results ≡ some cache'
      → batch_search s n requests measures
        ≡ some (
          record s {
            cache_map = assign n cache' s.cache_map;
            metrics_manager_map =
                assign n
                  (foldl measure (count t.metrics CountType.cache_miss 1) measures)
                  s.metrics_manager_map;
          },
          results,
        )
  unfolding batch_search
  miss_steps s n requests measures t cache cache' results admitted cached found e es ec =
      let here : contains n s.cache_map ≡ true = ground (arith, found) in
      ground (
        arith,
        t.found_store,
        t.found_metrics,
        answer_miss s n t.store t.metrics cache cache' requests measures results e es ec,
      )

  -- BatchSearch with a cache that has room for one entry throws nothing and keeps stores and counters
  -- in agreement. It answers a batch whose key is in the cache with the entry there, and any other as
  -- Search answers its requests; the cache stays in order.
  pub batch_search-cached :
      (s : Engine R D) (n : Text) (requests : List (Request R)) (measures : List (Measure R))
      (cache : LruCache (List (List (Data R))))
      → IsRunning s
      → admits_batch s n requests ≡ true
      → s.metadata.use_cache ≡ true
      → find n s.cache_map ≡ some cache
      → IsCache cache
      → 0 < cache.max_cache_size
      → (u : Engine R D) × (results : List (List (Data R))) × (batch_search s n requests measures
          ≡ some (u, results))
        × IsRunning u
        × AnswersOr s n requests results (find (hash_key requests) (queue cache))
        × ((cache' : LruCache (List (List (Data R)))) × (find n u.cache_map ≡ some cache')
            × IsCache cache')
  batch_search-cached s n requests measures cache h admitted cached found c room =
      let t = Table-of s n h (ground arith) in
      let key = hash_key requests in
      let (c', e, _) = get-queue cache key c in
      elim (Option-cases (find key (queue cache))) [
        | inr (entry, there) ↦ (
          _,
          entry,
          hit_steps s n requests measures t cache entry admitted cached found (e ∙ there),
          cached-IsRunning
              (record s {
                metrics_manager_map =
                    assign n (count t.metrics CountType.cache_hit 1) s.metrics_manager_map;
              })
              n cache (get cache key).0 found
              (measured-IsRunning s n t (count t.metrics CountType.cache_hit 1) h),
          rw there refl,
          ((get cache key).0, find-assign_self n (get cache key).0 s.cache_map, c'),
        )
        | inl absent ↦
            let (results, es, answers) =
              search_each_total s n t requests
                (h.accounted n t.store t.stats t.found_store t.found_stats).indexed (ground arith)
                (ground arith) in
            let (cache', ec, c'', _, _) =
              store-queue (get cache key).0 key results c' (fits cache key room) in
            let metrics' = foldl measure (count t.metrics CountType.cache_miss 1) measures in
            (
              _,
              results,
              miss_steps s n requests measures t cache cache' results admitted cached found
                  (e ∙ absent) es ec,
              cached-IsRunning
                  (record s { metrics_manager_map = assign n metrics' s.metrics_manager_map }) n
                  cache cache' found (measured-IsRunning s n t metrics' h),
              rw absent answers,
              (cache', find-assign_self n cache' s.cache_map, c''),
            )
      ]
