-- ===== src/Engine/Serving.antt =====
-- The operations of the engine with caches in order: nothing throws, and they stay in order.
use vector_database.Prelude.{
  ℕ, ◌<◌, ◌≡◌, refl, sym, ap, subst, ◌∙◌, true, false, not, ◌&&◌, ◌||◌, some, List, [], Text,
  text_eq, nat_eq, ◌==◌, arith, Bool-cases, Option-cases, inl, inr, ◌⊎◌,
}
use vector_database.Prelude.Map.{find, assign, contains, find-assign, find-assign_self}
use vector_database.Float.{Float, Vector}
use vector_database.Index.Any.{any_index, any_view, any_laws}
use vector_database.Index.Flat.{FlatIndexConfig}
use vector_database.Index.Hnsw.{HnswIndexConfig, LevelSource}
use vector_database.Store.{Data}
use vector_database.Store.Total.{search-stored}
use vector_database.Cache.{LruCache, create as create_cache, invalidate_all}
use vector_database.Cache.Queue.{IsCache}
use vector_database.Cache.Laws.{create-IsCache, invalidate_all-queue}
use vector_database.Validator.{validate_search, validate_create_table}
use vector_database.Engine.{Disk, Engine, search}
use vector_database.Engine.Running.{IsRunning}
use vector_database.Engine.Present.{Table-of}
use vector_database.Engine.Replica.{create_table-IsRunning}
use vector_database.Engine.Tables.{has_any, create_table, add_table}
use vector_database.Engine.Kept.{IsKept}
use vector_database.Engine.Batch as Batch
use vector_database.Engine.Batch.{FloatHash, Measure, batch_search, admits_batch}
use vector_database.Engine.Batch.Caches.{IsSearched, batch_search-IsSearched}
use vector_database.Engine.Batch.Answers.{
  measured-IsRunning, search_steps, batch_search-search, batch_search-cached,
}

invalidate_all-max_cache_size :
    {E : Type 0} (c : LruCache E) → (invalidate_all c).max_cache_size ≡ c.max_cache_size
unfolding invalidate_all
invalidate_all-max_cache_size c = refl

create-room : (E : Type 0) (n : ℕ) → 0 < n → 0 < (create_cache {E = E} n).max_cache_size
unfolding create_cache
create-room E n room = room

module _ {R D : Type 0} ⦃f : Float R⦄ ⦃source : LevelSource R⦄ where
  -- The engine is in order; where it uses caches, each is in order and has room for an entry.
  pub record IsServing (s : Engine R D) : Type 0 where
    pub running : IsRunning s
    pub caches :
        s.metadata.use_cache ≡ true
        → (n : Text) (cache : LruCache (List (List (Data R)))) → find n s.cache_map ≡ some cache
        → IsCache cache × (0 < cache.max_cache_size)

  -- one cache changed, the others did not
  assigned-IsServing :
      (s u : Engine R D) (n : Text) (cache' : LruCache (List (List (Data R))))
      → IsServing s
      → IsRunning u
      → u.metadata ≡ s.metadata
      → u.cache_map ≡ assign n cache' s.cache_map
      → (s.metadata.use_cache ≡ true → IsCache cache' × (0 < cache'.max_cache_size))
      → IsServing u
  assigned-IsServing s u n cache' h running same changed fine = record {
    running = running;
    caches = λ used m cache found. elim (Bool-cases (n == m)) [
      | inl there ↦
          let eq : cache' ≡ cache =
            ground (arith, find-assign n m cache' s.cache_map, ap (find m) changed) in
          subst (λ c. IsCache c × (0 < c.max_cache_size)) eq
            (fine (ap (λ x. x.use_cache) (sym same) ∙ used))
      | inr elsewhere ↦
          h.caches (ap (λ x. x.use_cache) (sym same) ∙ used) m cache
            (ground (arith, find-assign n m cache' s.cache_map, ap (find m) changed))
    ];
  }

  pub same-IsServing :
      (s u : Engine R D)
      → IsServing s
      → IsRunning u
      → u.metadata ≡ s.metadata
      → u.cache_map ≡ s.cache_map
      → IsServing u
  same-IsServing s u h running same unchanged = record {
    running = running;
    caches = λ used m cache found.
        h.caches (ap (λ x. x.use_cache) (sym same) ∙ used) m cache
          (ap (find m) (sym unchanged) ∙ found);
  }

  pub kept-IsServing : (s u : Engine R D) → IsServing s → IsRunning u → IsKept s u → IsServing u
  kept-IsServing s u h running k = elim k.caches [
    | inl unchanged ↦ same-IsServing s u h running k.metadata unchanged
    | inr (n, cache, found, changed) ↦
        assigned-IsServing s u n (invalidate_all cache) h running k.metadata changed (λ used. (
          (invalidate_all-queue cache).0,
          subst (λ k. 0 < k) (sym (invalidate_all-max_cache_size cache))
              (h.caches used n cache found).1,
        ))
  ]

module _ {R D : Type 0} ⦃f : Float R⦄ ⦃source : LevelSource R⦄ ⦃disk : Disk R D⦄
    ⦃hash : FloatHash R⦄ where
  pub search_total :
      (s : Engine R D) (n : Text) (query : Vector R) (k search_param : ℕ) (latency : R)
      → IsRunning s
      → (u : Engine R D) × (found : List (Data R)) × (search s n query k search_param latency
          ≡ some (u, found))
        × IsRunning u
  unfolding search
  search_total s n query k search_param latency h =
      elim (Bool-cases (
        not s.shutdown
        && (contains n s.store_map
            && (contains n s.metrics_manager_map && validate_search n query k search_param)))) [
              | inr refused ↦ (s, [], rw refused, h)
              | inl admitted ↦
                  let t = Table-of s n h (ground arith) in
                  let (found, e, _, _, _) =
                    search-stored any_laws t.store query k search_param
                      (h.accounted n t.store t.stats t.found_store t.found_stats).indexed in
                  (
                    _,
                    found,
                    search_steps s n query k search_param latency t found (ground arith)
                        (ground arith) e,
                    measured-IsRunning s n t _ h,
                  )
            ]

  searched-IsServing :
      (s u : Engine R D) (n : Text)
      → IsServing s
      → IsRunning u
      → IsSearched s u n
      → (s.metadata.use_cache ≡ true
          → (cache : LruCache (List (List (Data R)))) → find n u.cache_map ≡ some cache
          → IsCache cache)
      → IsServing u
  searched-IsServing s u n h running k fine = elim k.caches [
    | inl unchanged ↦ same-IsServing s u h running k.metadata unchanged
    | inr (cache, cache', found, changed, size) ↦
        assigned-IsServing s u n cache' h running k.metadata changed (λ used. (
          fine used cache' (ap (find n) changed ∙ find-assign_self n cache' s.cache_map),
          subst (λ k. 0 < k) (sym size) (h.caches used n cache found).1,
        ))
  ]

  refused_batch :
      (s : Engine R D) (n : Text) (requests : List (Batch.Request R)) (measures : List (Measure R))
      → admits_batch s n requests ≡ false
      → batch_search s n requests measures ≡ some (s, [])
  unfolding batch_search
  refused_batch s n requests measures refused = rw refused

  pub batch_search_total :
      (s : Engine R D) (n : Text) (requests : List (Batch.Request R)) (measures : List (Measure R))
      → IsServing s
      → (u : Engine R D) × (results : List (List (Data R))) × (batch_search s n requests measures
          ≡ some (u, results))
        × IsServing u
        × (u.metadata ≡ s.metadata)
  batch_search_total s n requests measures h = elim (Bool-cases s.metadata.use_cache) [
    | inr plain ↦
        let (u, results, e, running, _, _) =
          batch_search-search s n requests measures h.running plain in
        let k = batch_search-IsSearched s u n requests measures results e in
        (u, results, e, searched-IsServing s u n h running k (λ used. absurd cc), k.metadata)
    | inl cached ↦ elim (Bool-cases (admits_batch s n requests)) [
      | inr refused ↦ (s, [], refused_batch s n requests measures refused, h, refl)
      | inl admitted ↦ elim (Option-cases (find n s.cache_map)) [
        | inl absent ↦ absurd (ground (arith, h.running.cache_there n))
        | inr (cache, found) ↦
            let (c, room) = h.caches cached n cache found in
            let (u, results, e, running, _, (cache', found', c')) =
              batch_search-cached s n requests measures cache h.running admitted cached found c
                room in
            let k = batch_search-IsSearched s u n requests measures results e in
            (
              u,
              results,
              e,
              searched-IsServing s u n h running k
                  (λ used other there. let eq : cache' ≡ other = cc in subst IsCache eq c'),
              k.metadata,
            )
      ]
    ]
  ]

  create_table-caches :
      (s : Engine R D) (n : Text) (dimensionality : ℕ) (hnsw : HnswIndexConfig R)
      (flat : FlatIndexConfig) (cache_size : ℕ)
      → ((create_table s n dimensionality hnsw flat cache_size).0.metadata ≡ s.metadata)
        × (((create_table s n dimensionality hnsw flat cache_size).0.cache_map ≡ s.cache_map)
            ⊎ ((create_table s n dimensionality hnsw flat cache_size).0.cache_map
                ≡ assign n (create_cache cache_size) s.cache_map))
  unfolding create_table add_table
  create_table-caches s n dimensionality hnsw flat cache_size =
      elim (Bool-cases (
        (not s.metadata.primary || s.shutdown)
        || (not (validate_create_table n dimensionality hnsw flat cache_size) || has_any s n))) [
          | inl refused ↦ (ground arith, inl (ground arith))
          | inr taken ↦ (ground arith, inr (ground arith))
        ]

  pub create_table-IsServing :
      (s : Engine R D) (n : Text) (dimensionality : ℕ) (hnsw : HnswIndexConfig R)
      (flat : FlatIndexConfig) (cache_size : ℕ)
      → IsServing s
      → (s.metadata.use_cache ≡ true → 0 < cache_size)
      → IsServing (create_table s n dimensionality hnsw flat cache_size).0
        × ((create_table s n dimensionality hnsw flat cache_size).0.metadata ≡ s.metadata)
  create_table-IsServing s n dimensionality hnsw flat cache_size h room =
      let u = (create_table s n dimensionality hnsw flat cache_size).0 in
      let running = create_table-IsRunning s n dimensionality hnsw flat cache_size h.running in
      let (same, caches) = create_table-caches s n dimensionality hnsw flat cache_size in
      (
        elim caches [
          | inl unchanged ↦ same-IsServing s u h running same unchanged
          | inr changed ↦
              assigned-IsServing s u n (create_cache cache_size) h running same changed
                (λ used. (create-IsCache cache_size, create-room _ cache_size (room used)))
        ],
        same,
      )
