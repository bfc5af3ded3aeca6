-- ===== src/Server/Serving.antt =====
-- The server over an engine in order: every request is answered, between the calls of the cleaner.
use vector_database.Prelude.{
  either, ℕ, ◌<◌, ◌≡◌, refl, sym, ap, subst, Bool, true, false, Option, none, some, List, [], ◌∷◌,
  All, map, nat_beq, ◌||◌, if◌then◌else◌, length, suc, is_empty, Text, text_eq, ◌>>=◌, arith,
  Option-cases, inl, inr,
}
use vector_database.Float.{Float}
use vector_database.Index.Hnsw.{LevelSource}
use vector_database.Stats.{Stats}
use vector_database.Metrics.{Metrics}
use vector_database.Engine.{
  Disk, Engine, get_stats, get_metrics, insert, remove, batch_insert, batch_remove, search,
}
use vector_database.Engine.Writes.{insert-IsRunning, batch_insert-IsRunning}
use vector_database.Engine.Removals.{remove-IsRunning, batch_remove-IsRunning}
use vector_database.Engine.Cleaning.{cleanup-IsRunning}
use vector_database.Engine.Tables.{IndexConfig}
use vector_database.Engine.Kept.{
  same-IsKept, insert-IsKept, remove-IsKept, batch_insert-IsKept, batch_remove-IsKept,
  search-IsSame, cleanup-IsSame,
}
use vector_database.Engine.Serving.{
  IsServing, kept-IsServing, search_total, batch_search_total, create_table-IsServing,
}
use vector_database.Engine.Batch.{FloatHash, batch_search}
use vector_database.Server.{
  Request, Response, Reply, Event, missing, missing_table, reply_flag, reply_ok, insert_failed,
  remove_failed, items, handle, handle_create_table, serve,
}

module _ {R : Type 0} where
  -- Where the engine uses caches, a request to create a table asks for a cache of some size.
  abbrev pub HasRoom : Bool → Event R → Type 0
  HasRoom use_cache (Event.request (Request.create_table _ _ _ cache_size)) =
      use_cache ≡ true → 0 < cache_size
  HasRoom use_cache _ = Unit

  -- the number of requests among events
  abbrev pub count_requests : List (Event R) → ℕ
  count_requests [] = 0
  count_requests (Event.request _ ∷ rest) = suc (count_requests rest)
  count_requests (Event.cleanup _ _ ∷ rest) = count_requests rest

module _ {R D : Type 0} ⦃f : Float R⦄ ⦃source : LevelSource R⦄ ⦃disk : Disk R D⦄
    ⦃hash : FloatHash R⦄ where
  -- a call of the engine that serves
  abbrev Done : {A : Type 0} → Engine R D → Option (Engine R D × A) → Type 0
  Done {A = A} s o =
      (u : Engine R D) × (a : A) × (o ≡ some (u, a)) × IsServing u × (u.metadata ≡ s.metadata)

  -- the shape of a handler that changes the engine, and of one that reads it
  abbrev answer : {A : Type 0} → (A → Reply R) → Engine R D × A → Option (Engine R D × Reply R)
  answer reply r = some (r.0, reply r.1)

  answered :
      {A : Type 0} (s : Engine R D) (empty : Bool) (o : Option (Engine R D × A))
      (reply : A → Reply R)
      → IsServing s
      → Done s o
      → Done s (if empty then some (s, missing missing_table) else o >>= answer reply)
  answered s true o reply h done = (s, missing missing_table, refl, h, refl)
  answered s false o reply h (u, a, e, hu, same) = (u, reply a, rw e, hu, same)

  read :
      {A : Type 0} (s : Engine R D) (empty : Bool) (o : Option A) (reply : A → Reply R)
      → IsServing s
      → (a : A) × (o ≡ some a)
      → Done s
          (if empty then some (s, missing missing_table) else do found ← o; answer reply (s, found))
  read s true o reply h done = (s, missing missing_table, refl, h, refl)
  read s false o reply h (a, e) = (s, reply a, rw e, h, refl)

  get_stats_total :
      (s : Engine R D) (table : Text) → (stats : Stats) × (get_stats s table ≡ some stats)
  unfolding get_stats
  get_stats_total s table = elim (Option-cases (get_stats s table)) [
    | inl thrown ↦ absurd (ground arith)
    | inr there ↦ there
  ]

  get_metrics_total :
      (s : Engine R D) (table : Text) → (metrics : Metrics R) × (get_metrics s table ≡ some metrics)
  unfolding get_metrics
  get_metrics_total s table = elim (Option-cases (get_metrics s table)) [
    | inl thrown ↦ absurd (ground arith)
    | inr there ↦ there
  ]

  handle_create_table-IsServing :
      (s : Engine R D) (name : Text) (dimensionality : ℕ) (config : Option (IndexConfig R))
      (cache_size : ℕ)
      → IsServing s
      → (s.metadata.use_cache ≡ true → 0 < cache_size)
      → IsServing (handle_create_table s name dimensionality config cache_size).0
        × ((handle_create_table s name dimensionality config cache_size).0.metadata ≡ s.metadata)
  unfolding handle_create_table
  handle_create_table-IsServing s name dimensionality none cache_size h room = (h, refl)
  handle_create_table-IsServing s name dimensionality (some (IndexConfig.hnsw config)) cache_size h
        room =
      either (λ (r : Engine R D × Reply R). IsServing r.0 × (r.0.metadata ≡ s.metadata))
        (is_empty name
          || (nat_beq dimensionality 0
              || (nat_beq config.m 0
                  || (nat_beq config.m0 0
                      || (nat_beq config.ef_construction 0 || f.eq config.ml f.zero)))))
        _ _ (h, refl) (create_table-IsServing s name dimensionality _ _ cache_size h room)
  handle_create_table-IsServing s name dimensionality (some (IndexConfig.flat config)) cache_size h
        room =
      create_table-IsServing s name dimensionality _ _ cache_size h room

  handle-IsServing :
      (s : Engine R D) (r : Request R)
      → IsServing s
      → HasRoom s.metadata.use_cache (Event.request r)
      → Done s (handle s r)
  unfolding handle
  handle-IsServing s (Request.insert table id v content) h room =
      let (u, e, running, _, _, _) = insert-IsRunning s table id v content h.running in
      let k = insert-IsKept s u table id v content _ e in
      answered s (is_empty table) (insert s table id v content) (reply_flag insert_failed) h
        (u, _, e, kept-IsServing s u h running k, k.metadata)
  handle-IsServing s (Request.remove table id) h room =
      let (u, e, running, _, _, _) = remove-IsRunning s table id h.running in
      let k = remove-IsKept s u table id _ e in
      answered s (is_empty table) (remove s table id) (reply_flag remove_failed) h
        (u, _, e, kept-IsServing s u h running k, k.metadata)
  handle-IsServing s (Request.search table query k search_parameter latency) h room =
      let (u, found, e, running) =
        search_total s table query k search_parameter latency h.running in
      let same =
        same-IsKept s u (search-IsSame s u table query k search_parameter latency found e) in
      answered s (is_empty table) (search s table query k search_parameter latency)
        (λ found. reply_ok (Response.data_found (items found))) h
        (u, found, e, kept-IsServing s u h running same, same.metadata)
  handle-IsServing s (Request.batch_insert table vectors) h room =
      let (u, flags, e, running, _, _) = batch_insert-IsRunning s table vectors h.running in
      let k = batch_insert-IsKept s u table vectors flags e in
      answered s (is_empty table) (batch_insert s table vectors)
        (λ flags. reply_ok (Response.successes flags)) h
        (u, flags, e, kept-IsServing s u h running k, k.metadata)
  handle-IsServing s (Request.batch_remove table ids) h room =
      let (u, flags, e, running, _, _) = batch_remove-IsRunning s table ids h.running in
      let k = batch_remove-IsKept s u table ids flags e in
      answered s (is_empty table) (batch_remove s table ids)
        (λ flags. reply_ok (Response.successes flags)) h
        (u, flags, e, kept-IsServing s u h running k, k.metadata)
  handle-IsServing s (Request.batch_search table requests measures) h room =
      answered s (is_empty table) (batch_search s table requests measures)
        (λ results. reply_ok (Response.result_lists (map items results))) h
        (batch_search_total s table requests measures h)
  handle-IsServing s (Request.stats table) h room =
      read s (is_empty table) (get_stats s table) (λ found. reply_ok (Response.stats_of found)) h
        (get_stats_total s table)
  handle-IsServing s (Request.metrics table) h room =
      read s (is_empty table) (get_metrics s table) (λ found. reply_ok (Response.metrics_of found))
        h (get_metrics_total s table)
  handle-IsServing s (Request.create_table name dimensionality config cache_size) h room =
      let (hu, same) =
        handle_create_table-IsServing s name dimensionality config cache_size h room in
      (_, _, refl, hu, same)
  handle-IsServing s Request.list_tables h room = (s, _, refl, h, refl)
  handle-IsServing s Request.health_check h room = (s, _, refl, h, refl)

  -- Of an engine in order, whose caches have room where it uses them, any sequence of requests and of
  -- calls of the cleaner is carried out, and the engine is in order again: nothing throws, and each
  -- request has a reply. DropTable is not among the requests, and one to create a table asks for a
  -- cache of some size where the engine uses caches.
  pub serve-IsServing :
      (s : Engine R D) (events : List (Event R))
      → IsServing s
      → All (HasRoom s.metadata.use_cache) events
      → (u : Engine R D) × (replies : List (Reply R)) × (serve s events ≡ some (u, replies))
        × IsServing u
        × (length replies ≡ count_requests events)
  unfolding serve
  serve-IsServing s [] h room = (s, [], refl, h, refl)
  serve-IsServing s (Event.request r ∷ rest) h room =
      let (u, reply, e, hu, same) = handle-IsServing s r h room.0 in
      let (w, replies, e', hw, count) =
        serve-IsServing u rest hu (subst (λ m. All (HasRoom m.use_cache) rest) (sym same) room.1) in
      (w, reply ∷ replies, rw (e, e'), hw, ap suc count)
  serve-IsServing s (Event.cleanup table latency ∷ rest) h room =
      let (u, e, running, _) = cleanup-IsRunning s table false latency h.running in
      let same = same-IsKept s u (cleanup-IsSame s u table false latency e) in
      let (w, replies, e', hw, count) =
        serve-IsServing u rest (kept-IsServing s u h running same)
          (subst (λ m. All (HasRoom m.use_cache) rest) (sym same.metadata) room.1) in
      (w, replies, rw (e, e'), hw, count)
