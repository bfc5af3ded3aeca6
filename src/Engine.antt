-- ===== src/Engine.antt =====
-- engine/src/engine.cc: the state of the engine, and its operations on one table. An operation is one
-- step: what requests that share the lock of the engine may interleave is left out. A call that throws is `none`. Clock readings are arguments.
pub mod Logging
pub mod Present
pub mod Tables
pub mod Accounted
pub mod Running
pub mod Writes
pub mod Removals
pub mod Cleaning
pub mod Replica
pub mod Sync
pub mod Batch
pub mod Kept
pub mod Serving
use vector_database.Prelude.{
  ℕ, ◌+◌, ◌-◌, ◌%◌, ◌^◌, Bool, true, false, not, ◌&&◌, ◌||◌, Option, none, some, List, [], ◌∷◌, map,
  all, length, ltb, if◌then◌else◌, Text, text_eq, ◌>>=◌,
}
use vector_database.Prelude.Map.{Map, find, assign, contains}
use vector_database.Float.{Float, Vector}
use vector_database.Index.Any.{AnyIndex, any_index}
use vector_database.Index.Flat.{FlatIndexConfig}
use vector_database.Index.Hnsw.{HnswIndexConfig, LevelSource}
use vector_database.Store.{IndexType, Data, VectorStore}
use vector_database.Store.{
  insert as store_insert, remove as store_remove, search as store_search, cleanup as store_cleanup,
}
use vector_database.Cache.{LruCache, invalidate_all}
use vector_database.Stats.{
  Stats, StatType, StatsManager, increment, reset, adjust_for_deletions, set_removed_flag,
  set_modified_flag,
}
use vector_database.Metrics.{
  Metrics, CountType, create as create_metrics, calculate_search_latency, calculate_cleanup_latency,
  increment as count,
}
use vector_database.Validator.{
  validate_insert, validate_remove, validate_search, validate_stats, validate_metrics,
}

-- What the engine asks of the persistence managers. They keep their state in files, whose names
-- derive from the table.
pub record Disk (R D : Type 0) : Type 0 where
  pub append_insert : D → Text → ℕ → Vector R → Text → D
  pub append_remove : D → Text → ℕ → D
  pub append_create : D → Text → IndexType → HnswIndexConfig R → FlatIndexConfig → ℕ → D
  -- the constructor, which opens the log, and Clear, which removes the files
  pub open_log : D → Text → D
  pub clear : D → Text → D

pub record Metadata (R : Type 0) : Type 0 where
  pub primary : Bool
  pub reindex_threshold : R
  pub use_cache : Bool

pub record Engine (R D : Type 0) : Type 0 where
  pub metadata : Metadata R
  pub shutdown : Bool
  pub store_map : Map Text (VectorStore R (AnyIndex R))
  pub persistence_manager_map : Map Text IndexType
  pub stats_manager_map : Map Text StatsManager
  pub metrics_manager_map : Map Text (Metrics R)
  pub cache_map : Map Text (LruCache (List (List (Data R))))
  pub disk : D

module _ {R D : Type 0} where
  -- the maps that Insert and Remove look into
  abbrev pub has_table : Engine R D → Text → Bool
  has_table s table_name =
      contains table_name s.store_map
      && (contains table_name s.persistence_manager_map
          && (contains table_name s.stats_manager_map && contains table_name s.metrics_manager_map))

  abbrev pub is_writable : Engine R D → Text → Bool
  is_writable s table_name = s.metadata.primary && (not s.shutdown && has_table s table_name)

  -- the end of Insert and Remove
  unfoldable pub refresh_cache : Engine R D → Text → Option (Engine R D)
  refresh_cache s table_name =
      if s.metadata.use_cache && contains table_name s.cache_map
      then (do
        stats ← find table_name s.stats_manager_map
        cache ← find table_name s.cache_map
        some (
            if stats.modified
            then record s { cache_map = assign table_name (invalidate_all cache) s.cache_map }
            else s))
      else some s

module _ {R D : Type 0} ⦃f : Float R⦄ ⦃source : LevelSource R⦄ ⦃disk : Disk R D⦄ where
  -- the log entry, the write to the store and what follows its success
  unfoldable pub log_and_insert :
      Engine R D → Text → ℕ → Vector R → Text → Option (Engine R D × Bool)
  log_and_insert s table_name id vector content = do
    store ← find table_name s.store_map
    stats ← find table_name s.stats_manager_map
    metrics ← find table_name s.metrics_manager_map
    result ← store_insert store id vector content
    (let s' : Engine R D = record s {
      disk = disk.append_insert s.disk table_name id vector content;
      store_map = assign table_name result.0 s.store_map;
    } in
        some (
          if result.1
          then (
            record s' {
              stats_manager_map =
                  assign table_name (increment (set_modified_flag stats true) StatType.vector)
                    s.stats_manager_map;
              metrics_manager_map =
                  assign table_name (count metrics CountType.insert 1) s.metrics_manager_map;
            },
            true,
          )
          else (s', false)))

  unfoldable pub insert : Engine R D → Text → ℕ → Vector R → Text → Option (Engine R D × Bool)
  insert s table_name id vector content =
      if is_writable s table_name && validate_insert table_name id vector content
      then (do
        result ← log_and_insert s table_name id vector content
        s' ← refresh_cache result.0 table_name
        some (s', result.1))
      else some (s, false)

  unfoldable pub log_and_remove : Engine R D → Text → ℕ → Option (Engine R D × Bool)
  log_and_remove s table_name id = do
    store ← find table_name s.store_map
    stats ← find table_name s.stats_manager_map
    metrics ← find table_name s.metrics_manager_map
    (let result = store_remove store id in
        let s' : Engine R D = record s {
          disk = disk.append_remove s.disk table_name id;
          store_map = assign table_name result.0 s.store_map;
        } in
        some (
          if result.1
          then (
            record s' {
              stats_manager_map =
                  assign table_name
                    (increment
                      (increment (set_removed_flag (set_modified_flag stats true) true)
                        StatType.deleted)
                      StatType.stale)
                    s.stats_manager_map;
              metrics_manager_map =
                  assign table_name (count metrics CountType.remove 1) s.metrics_manager_map;
            },
            true,
          )
          else (s', false)))

  unfoldable pub remove : Engine R D → Text → ℕ → Option (Engine R D × Bool)
  remove s table_name id =
      if is_writable s table_name && validate_remove table_name id
      then (do
        result ← log_and_remove s table_name id
        s' ← refresh_cache result.0 table_name
        some (s', result.1))
      else some (s, false)

  -- the loops of the batch operations
  unfoldable pub insert_each :
      Engine R D → Text → List (ℕ × (Vector R × Text)) → Option (Engine R D × List Bool)
  insert_each s table_name [] = some (s, [])
  insert_each s table_name ((id, (vector, content)) ∷ rest) = do
    result ← log_and_insert s table_name id vector content
    results ← insert_each result.0 table_name rest
    some (results.0, result.1 ∷ results.1)

  unfoldable pub batch_insert :
      Engine R D → Text → List (ℕ × (Vector R × Text)) → Option (Engine R D × List Bool)
  batch_insert s table_name vectors =
      if is_writable s table_name && all (λ v. validate_insert table_name v.0 v.1.0 v.1.1) vectors
      then (do
        results ← insert_each s table_name vectors
        s' ← refresh_cache results.0 table_name
        some (s', results.1))
      else some (s, map (λ _. false) vectors)

  unfoldable pub remove_each : Engine R D → Text → List ℕ → Option (Engine R D × List Bool)
  remove_each s table_name [] = some (s, [])
  remove_each s table_name (id ∷ rest) = do
    result ← log_and_remove s table_name id
    results ← remove_each result.0 table_name rest
    some (results.0, result.1 ∷ results.1)

  unfoldable pub batch_remove : Engine R D → Text → List ℕ → Option (Engine R D × List Bool)
  batch_remove s table_name ids =
      if is_writable s table_name && all (λ id. validate_remove table_name id) ids
      then (do
        results ← remove_each s table_name ids
        s' ← refresh_cache results.0 table_name
        some (s', results.1))
      else some (s, map (λ _. false) ids)

  unfoldable pub search :
      Engine R D → Text → Vector R → ℕ → ℕ → R → Option (Engine R D × List (Data R))
  search s table_name query k search_param latency =
      if not s.shutdown
        && (contains table_name s.store_map
            && (contains table_name s.metrics_manager_map
                && validate_search table_name query k search_param))
      then (do
        store ← find table_name s.store_map
        metrics ← find table_name s.metrics_manager_map
        data_found ← store_search store query k search_param
        some (
          record s {
            metrics_manager_map =
                assign table_name
                  (count (calculate_search_latency metrics latency) CountType.search 1)
                  s.metrics_manager_map;
          },
          data_found,
        ))
      else some (s, [])

  -- "Calculate the percentage of deleted vectors to check whether a reindex would be needed."
  unfoldable pub needs_reindex : Engine R D → Stats → Bool
  needs_reindex s stats =
      let total =
        (stats.vector_count + stats.stale_count + (2 ^ 64 - stats.deleted_count)) % 2 ^ 64 in
      let ratio =
        if ltb 0 total
        then f.div (f.from_count stats.stale_count) (f.from_count total)
        else f.zero in
      f.lt s.metadata.reindex_threshold ratio

  unfoldable pub cleanup : Engine R D → Text → Bool → R → Option (Engine R D)
  cleanup s table_name force latency =
      if (s.shutdown && not force)
        || not (
            contains table_name s.store_map
            && (contains table_name s.stats_manager_map
                && contains table_name s.metrics_manager_map))
      then some s
      else do
        store ← find table_name s.store_map
        stats ← find table_name s.stats_manager_map
        metrics ← find table_name s.metrics_manager_map
        (let reindex = needs_reindex s stats.stats in
            let metrics' = count (calculate_cleanup_latency metrics latency) CountType.cleanup 1 in
            let stats' =
              reset (adjust_for_deletions (set_removed_flag stats false)) StatType.deleted in
            do
              store' ← store_cleanup store reindex
              some (record s {
                store_map = assign table_name store' s.store_map;
                stats_manager_map =
                    assign table_name (if reindex then reset stats' StatType.stale else stats')
                      s.stats_manager_map;
                metrics_manager_map =
                    assign table_name
                      (if reindex then count metrics' CountType.reindex 1 else metrics')
                      s.metrics_manager_map;
              }))

module _ {R D : Type 0} where
  unfoldable pub get_stats : Engine R D → Text → Option Stats
  get_stats s table_name =
      if not s.shutdown && (contains table_name s.stats_manager_map && validate_stats table_name)
      then (do stats ← find table_name s.stats_manager_map; some stats.stats)
      else some (record { vector_count = 0; deleted_count = 0; stale_count = 0 })

  unfoldable pub list_tables : Engine R D → List Text
  list_tables s = map (λ p. p.0) s.store_map

module _ {R D : Type 0} ⦃f : Float R⦄ where
  unfoldable pub get_metrics : Engine R D → Text → Option (Metrics R)
  get_metrics s table_name =
      if not s.shutdown
        && (contains table_name s.metrics_manager_map && validate_metrics table_name)
      then find table_name s.metrics_manager_map
      else some create_metrics
