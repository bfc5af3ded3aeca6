-- ===== src/Recovery.antt =====
-- engine/src/engine.cc: the constructor, which restores the tables from their files, and what the
-- destructor writes; the engine over the files of the persistence managers. Files can be opened.
pub mod Savable
pub mod Mirror
pub mod Durable
pub mod Replay
pub mod Made
pub mod Restore
pub mod Lost
pub mod Restart
use vector_database.Prelude.{
  ℕ, Bool, true, false, not, ◌&&◌, Option, none, some, List, [], ◌∷◌, length, is_empty,
  if◌then◌else◌, Text, text_eq, ◌>>=◌,
}
use vector_database.Prelude.Map.{Map, find, assign, erase, contains}
use vector_database.Float.{Float}
use vector_database.Index.Any.{AnyIndex}
use vector_database.Index.Flat.{FlatIndexConfig}
use vector_database.Index.Hnsw.{HnswIndexConfig, LevelSource}
use vector_database.Store.{IndexType, VectorStore}
use vector_database.Cache.{LruCache}
use vector_database.Stats.{StatType, set}
use vector_database.Validator.{validate_drop_table}
use vector_database.Engine.{Disk, Metadata, Engine, cleanup}
use vector_database.Engine.Tables.{
  WalEntry, hnsw_config_of, flat_config_of, has_all, create_table, apply_insert, apply_remove,
}
use vector_database.Persistence.Stream.{FloatText}
use vector_database.Persistence.Wal.{append_insert, append_remove, append_create, replay_wal}
use vector_database.Persistence.Messages.{Protobuf, TableFiles, no_files}
use vector_database.Persistence.Snapshot.{
  save_snapshot, load_snapshot, save_metadata, load_metadata, no_hnsw_config, no_flat_config,
}

-- the directory of an engine: the files of each table
abbrev pub Directory : Type 0 → Type 0
Directory B = Map Text (TableFiles B)

module _ {B : Type 0} where
  abbrev pub files_at : Directory B → Text → TableFiles B
  files_at d table = elim (find table d) [ none ↦ no_files | some files ↦ files ]

  abbrev pub log_of : TableFiles B → Text
  log_of files = elim files.write_ahead_log [ none ↦ [] | some text ↦ text ]

  abbrev pub log_text : Directory B → Text → Text
  log_text d table = log_of (files_at d table)

  abbrev pub with_log : TableFiles B → Text → TableFiles B
  with_log files text = record files { write_ahead_log = some text }

  abbrev pub write_log : Directory B → Text → Text → Directory B
  write_log d table text = assign table (with_log (files_at d table) text) d

  -- the file stays, without its text
  unfoldable pub clear_wal : TableFiles B → TableFiles B
  clear_wal files = record files {
    write_ahead_log = elim files.write_ahead_log [ none ↦ none | some _ ↦ some [] ];
  }

  -- the files that end in "_wal.log"
  unfoldable pub table_names : Directory B → List Text
  table_names [] = []
  table_names ((table, files) ∷ rest) =
      let names = table_names rest in
      elim files.write_ahead_log [ none ↦ names | some _ ↦ table ∷ names ]

module _ {R B : Type 0} ⦃text : FloatText R⦄ where
  instance abbrev pub file_disk : Disk R (Directory B)
  file_disk = record {
    append_insert = λ d table id vector content.
        write_log d table (append_insert (log_text d table) id vector content);
    append_remove = λ d table id. write_log d table (append_remove (log_text d table) id);
    append_create = λ d table index_type hnsw flat cache_size.
        write_log d table (append_create index_type (log_text d table) hnsw flat cache_size);
    open_log = λ d table. write_log d table (log_text d table);
    clear = λ d table. erase table d;
  }

module _ {R : Type 0} ⦃f : Float R⦄ where
  -- the configurations that the destructor hands to SaveMetadata; a cast to the other class gives
  -- a null pointer, which is `none`
  abbrev pub configs_at : IndexType → AnyIndex R → Option (HnswIndexConfig R × FlatIndexConfig)
  configs_at IndexType.hnsw (AnyIndex.hnsw i) = some (i.config, no_flat_config)
  configs_at IndexType.hnsw (AnyIndex.flat i) = none
  configs_at IndexType.flat (AnyIndex.hnsw i) = none
  configs_at IndexType.flat (AnyIndex.flat i) = some (no_hnsw_config, i.config)

  abbrev pub configs_of : VectorStore R (AnyIndex R) → Option (HnswIndexConfig R × FlatIndexConfig)
  configs_of store = configs_at store.index_type store.index

module _ {R B : Type 0} ⦃f : Float R⦄ ⦃source : LevelSource R⦄ ⦃text : FloatText R⦄
    ⦃proto : Protobuf R B⦄ where
  -- the callback of ReplayWAL on a primary. DropTable takes the lock of the log that ReplayWAL
  -- holds: it does not return, which is `none`.
  unfoldable pub replay_entry :
      Engine R (Directory B) → WalEntry R → Option (Engine R (Directory B))
  replay_entry s (WalEntry.insert table id vector content) = do
    result ← apply_insert s table id vector content
    some result.0
  replay_entry s (WalEntry.remove table id) = do result ← apply_remove s table id; some result.0
  replay_entry s (WalEntry.create table dimensionality config cache_size) =
      some
        (create_table s table dimensionality (hnsw_config_of f.zero config) (flat_config_of config)
          cache_size).0
  replay_entry s (WalEntry.drop table) =
      if s.metadata.primary && (not s.shutdown && (validate_drop_table table && has_all s table))
      then none
      else some s

  -- the end of the loop of the constructor, on a table that was made
  unfoldable pub fill_table : Engine R (Directory B) → Text → Option (Engine R (Directory B))
  fill_table s table = do
    stored_index_type ← find table s.persistence_manager_map
    (let loaded : Engine R (Directory B) =
          elim (load_snapshot stored_index_type (files_at s.disk table)) [
            | none ↦ s
            | some store ↦ record s { store_map = assign table store s.store_map }
          ] in
        do
          replayed ← elim (files_at loaded.disk table).write_ahead_log [
            | none ↦ some loaded
            | some file ↦ replay_wal stored_index_type table replay_entry loaded file
          ]
          store ← find table replayed.store_map
          stats ← find table replayed.stats_manager_map
          some (record replayed {
            stats_manager_map =
                assign table (set stats StatType.vector (length store.store))
                  replayed.stats_manager_map;
          }))

  -- One round of the loop over the tables. `unset_dimensionality` and `unset_cache_size` are what
  -- the two variables hold that have no value without a metadata file.
  unfoldable pub restore_table :
      ℕ → ℕ → Engine R (Directory B) → Text → Option (Engine R (Directory B))
  restore_table unset_dimensionality unset_cache_size s table =
      let created : Engine R (Directory B) × Bool =
        elim (load_metadata {R = R} (files_at s.disk table)) [
          | none ↦
              create_table s table unset_dimensionality no_hnsw_config no_flat_config
                unset_cache_size
          | some (dimensionality, (hnsw, (flat, cache_size))) ↦
              create_table s table dimensionality hnsw flat cache_size
        ] in
      let filled = fill_table created.0 table in if created.1 then filled else some created.0

  -- the loop
  unfoldable pub restore_each :
      ℕ → ℕ → Engine R (Directory B) → List Text → Option (Engine R (Directory B))
  restore_each unset_dimensionality unset_cache_size s [] = some s
  restore_each unset_dimensionality unset_cache_size s (table ∷ rest) = do
    s' ← restore_table unset_dimensionality unset_cache_size s table
    restore_each unset_dimensionality unset_cache_size s' rest

  -- Engine::Engine
  unfoldable pub start : ℕ → ℕ → Metadata R → Directory B → Option (Engine R (Directory B))
  start unset_dimensionality unset_cache_size metadata directory =
      restore_each unset_dimensionality unset_cache_size
        (record {
          metadata = metadata;
          shutdown = false;
          store_map = [];
          persistence_manager_map = [];
          stats_manager_map = [];
          metrics_manager_map = [];
          cache_map = [];
          disk = directory;
        })
        (table_names directory)

  -- one table in Engine::~Engine: SaveSnapshot, SaveMetadata and ClearWAL
  unfoldable pub save_table :
      IndexType → Text → VectorStore R (AnyIndex R) → ℕ → TableFiles B → Option (TableFiles B)
  save_table stored_index_type table store cache_size files = do
    configs ← configs_of store
    some (
        clear_wal (
          save_metadata table store.vector_dimensionality configs.0 configs.1 cache_size
            (save_snapshot stored_index_type store files)))

  -- One round of the loop of Engine::~Engine, after `shutdown` was set. `sync_replicas` is
  -- ReplicaManager::Sync(true), which changes no file and no store.
  unfoldable pub shut_down_table :
      (Engine R (Directory B) → Option (Engine R (Directory B)))
      → R
      → Engine R (Directory B)
      → Text
      → Option (Engine R (Directory B))
  shut_down_table sync_replicas latency s table = elim (find table s.persistence_manager_map) [
    | none ↦ some s
    | some stored_index_type ↦ (do
      cleaned ← cleanup s table true latency
      synced ← sync_replicas cleaned
      store ← find table synced.store_map
      files ←
          save_table stored_index_type table store
            (elim (find table synced.cache_map) [ none ↦ 32 | some cache ↦ cache.max_cache_size ])
            (files_at synced.disk table)
      some (record synced { disk = assign table files synced.disk }))
  ]

  unfoldable pub shut_down_each :
      (Engine R (Directory B) → Option (Engine R (Directory B)))
      → R
      → Engine R (Directory B)
      → List Text
      → Option (Engine R (Directory B))
  shut_down_each sync_replicas latency s [] = some s
  shut_down_each sync_replicas latency s (table ∷ rest) = do
    s' ← shut_down_table sync_replicas latency s table
    shut_down_each sync_replicas latency s' rest
