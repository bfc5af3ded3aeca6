-- ===== src/Engine/Tables.antt =====
-- engine/src/engine.cc: the operations that make and drop tables, and ApplyWALEntry.
use vector_database.Prelude.{
  ℕ, Bool, true, false, not, ◌&&◌, ◌||◌, Option, none, some, List, [], ◌∷◌, suc, is_empty, nat_beq,
  if◌then◌else◌, Text, text_eq, ◌>>=◌,
}
use vector_database.Prelude.Map.{find, assign, erase, contains}
use vector_database.Float.{Float, Vector}
use vector_database.Index.Any.{AnyIndex, any_index}
use vector_database.Index.Distance.{DistanceMetric}
use vector_database.Index.Flat.{FlatIndexConfig, create as create_flat}
use vector_database.Index.Hnsw.{HnswIndexConfig, LevelSource, create as create_hnsw}
use vector_database.Store.{
  IndexType, create as create_store, insert as store_insert, remove as store_remove,
  compute_checksum,
}
use vector_database.Cache.{create as create_cache}
use vector_database.Stats.{
  StatType, increment, set_removed_flag, set_modified_flag, create as create_stats,
}
use vector_database.Metrics.{create as create_metrics}
use vector_database.Validator.{validate_create_table}
use vector_database.Engine.{Disk, Engine}

-- vector_db::WALEntry, with the configuration that its type says
pub data IndexConfig (R : Type 0) : Type 0 where
  hnsw : HnswIndexConfig R → IndexConfig R
  flat : FlatIndexConfig → IndexConfig R

pub data WalEntry (R : Type 0) : Type 0 where
  insert : Text → ℕ → Vector R → Text → WalEntry R
  remove : Text → ℕ → WalEntry R
  create : Text → ℕ → IndexConfig R → ℕ → WalEntry R
  drop : Text → WalEntry R

module _ {R : Type 0} where
  -- a configuration that is not set has the default values of Protobuf
  abbrev pub hnsw_config_of : R → IndexConfig R → HnswIndexConfig R
  hnsw_config_of zero (IndexConfig.hnsw config) = config
  hnsw_config_of zero (IndexConfig.flat _) = record {
    m = 0;
    m0 = 0;
    ef_construction = 0;
    ml = zero;
    metric = DistanceMetric.l2;
    vector_dimensionality = 0;
  }

  abbrev pub flat_config_of : IndexConfig R → FlatIndexConfig
  flat_config_of (IndexConfig.hnsw _) = record {
    vector_dimensionality = 0;
    metric = DistanceMetric.l2;
  }
  flat_config_of (IndexConfig.flat config) = config

  -- "Check which index has been specified"
  abbrev pub is_hnsw_config : HnswIndexConfig R → Bool
  is_hnsw_config config =
      not (nat_beq config.m 0)
      && (not (nat_beq config.m0 0)
          && (not (nat_beq config.ef_construction 0)
              && not (nat_beq config.vector_dimensionality 0)))

  abbrev pub index_type_of : HnswIndexConfig R → IndexType
  index_type_of config = if is_hnsw_config config then IndexType.hnsw else IndexType.flat

  unfoldable pub make_index : HnswIndexConfig R → FlatIndexConfig → AnyIndex R
  make_index hnsw_config flat_config =
      if is_hnsw_config hnsw_config
      then AnyIndex.hnsw (create_hnsw hnsw_config)
      else AnyIndex.flat (create_flat flat_config)

module _ {R D : Type 0} where
  abbrev pub has_any : Engine R D → Text → Bool
  has_any s name =
      contains name s.store_map
      || (contains name s.persistence_manager_map
          || (contains name s.stats_manager_map
              || (contains name s.metrics_manager_map || contains name s.cache_map)))

  abbrev pub has_all : Engine R D → Text → Bool
  has_all s name =
      contains name s.store_map
      && (contains name s.persistence_manager_map
          && (contains name s.stats_manager_map
              && (contains name s.metrics_manager_map && contains name s.cache_map)))

module _ {R D : Type 0} ⦃f : Float R⦄ ⦃disk : Disk R D⦄ where
  -- the end of CreateTable and CreateTableOnReplica
  unfoldable pub add_table :
      Engine R D → Text → ℕ → HnswIndexConfig R → FlatIndexConfig → ℕ → Engine R D
  add_table s name vector_dimensionality hnsw_config flat_config cache_size = record s {
    disk = disk.open_log s.disk name;
    store_map =
        assign name
          (create_store (index_type_of hnsw_config) (make_index hnsw_config flat_config)
            vector_dimensionality)
          s.store_map;
    persistence_manager_map = assign name (index_type_of hnsw_config) s.persistence_manager_map;
    stats_manager_map = assign name create_stats s.stats_manager_map;
    metrics_manager_map = assign name create_metrics s.metrics_manager_map;
    cache_map = assign name (create_cache cache_size) s.cache_map;
  }

  unfoldable pub create_table :
      Engine R D → Text → ℕ → HnswIndexConfig R → FlatIndexConfig → ℕ → Engine R D × Bool
  create_table s name vector_dimensionality hnsw_config flat_config cache_size =
      if not s.metadata.primary || s.shutdown
      then (s, false)
      else if not
          (validate_create_table name vector_dimensionality hnsw_config flat_config cache_size)
      then (s, false)
      else if has_any s name
      then (s, false)
      else (let logged : Engine R D = record s {
        disk =
            disk.append_create (disk.open_log s.disk name) name (index_type_of hnsw_config)
              hnsw_config flat_config cache_size;
      } in
          let s' = add_table logged name vector_dimensionality hnsw_config flat_config cache_size in
          (
            record s' {
              stats_manager_map =
                  assign name (set_modified_flag create_stats true) s'.stats_manager_map;
            },
            true,
          ))

  unfoldable pub create_table_on_replica :
      Engine R D → Text → ℕ → HnswIndexConfig R → FlatIndexConfig → ℕ → Engine R D × Bool
  create_table_on_replica s name vector_dimensionality hnsw_config flat_config cache_size =
      if s.shutdown || is_empty name
      then (s, false)
      else if has_any s name
      then (s, false)
      else (add_table s name vector_dimensionality hnsw_config flat_config cache_size, true)

  unfoldable pub drop_table_on_replica : Engine R D → Text → Engine R D × Bool
  drop_table_on_replica s name =
      if s.shutdown || is_empty name
      then (s, false)
      else if not (has_all s name)
      then (s, false)
      else (
        record s {
          disk = disk.clear s.disk name;
          store_map = erase name s.store_map;
          persistence_manager_map = erase name s.persistence_manager_map;
          stats_manager_map = erase name s.stats_manager_map;
          metrics_manager_map = erase name s.metrics_manager_map;
          cache_map = erase name s.cache_map;
        },
        true,
      )

module _ {R D : Type 0} ⦃f : Float R⦄ ⦃source : LevelSource R⦄ ⦃disk : Disk R D⦄ where
  unfoldable pub apply_insert : Engine R D → Text → ℕ → Vector R → Text → Option (Engine R D × Bool)
  apply_insert s table id vector content =
      if contains table s.store_map && contains table s.stats_manager_map
      then (do
        store ← find table s.store_map
        stats ← find table s.stats_manager_map
        result ← store_insert store id vector content
        some (
          record s {
            store_map = assign table result.0 s.store_map;
            stats_manager_map =
                if result.1
                then assign table (increment stats StatType.vector) s.stats_manager_map
                else s.stats_manager_map;
          },
          result.1,
        ))
      else some (s, false)

  unfoldable pub apply_remove : Engine R D → Text → ℕ → Option (Engine R D × Bool)
  apply_remove s table id =
      if contains table s.store_map && contains table s.stats_manager_map
      then (do
        store ← find table s.store_map
        stats ← find table s.stats_manager_map
        (let result = store_remove store id in
            some (
              record s {
                store_map = assign table result.0 s.store_map;
                stats_manager_map =
                    if result.1
                    then assign table
                        (increment (increment (set_removed_flag stats true) StatType.deleted)
                          StatType.stale)
                        s.stats_manager_map
                    else s.stats_manager_map;
              },
              result.1,
            )))
      else some (s, false)

  -- ApplyWALEntry on a replica
  unfoldable pub apply_wal_entry : Engine R D → WalEntry R → Option (Engine R D × Bool)
  apply_wal_entry s (WalEntry.insert table id vector content) =
      apply_insert s table id vector content
  apply_wal_entry s (WalEntry.remove table id) = apply_remove s table id
  apply_wal_entry s (WalEntry.create table dimensionality config cache_size) = some (
      create_table_on_replica s table dimensionality (hnsw_config_of f.zero config)
        (flat_config_of config) cache_size)
  apply_wal_entry s (WalEntry.drop table) = some (drop_table_on_replica s table)

  -- ReplicaManagerServiceImpl::Sync: the number of entries that were applied
  unfoldable pub sync : Engine R D → List (WalEntry R) → Option (Engine R D × ℕ)
  sync s [] = some (s, 0)
  sync s (entry ∷ rest) = do
    result ← apply_wal_entry s entry
    (if result.1
        then (do results ← sync result.0 rest; some (results.0, suc results.1))
        else some (result.0, 0))

module _ {R D : Type 0} ⦃f : Float R⦄ where
  -- ReplicaManagerServiceImpl::GetChecksum
  unfoldable pub get_checksum : Engine R D → Text → Option ℕ
  get_checksum s table = elim (find table s.store_map) [
    | none ↦ some 0
    | some store ↦ compute_checksum store
  ]
