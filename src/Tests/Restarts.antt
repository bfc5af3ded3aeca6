-- ===== src/Tests/Restarts.antt =====
-- The theorems of the log and of the restoring of tables, at a table of one vector.
use vector_database.Prelude.{
  ℕ, ◌+◌, ◌≡◌, refl, sym, ap, ◌∙◌, Bool, true, false, ◌&&◌, Option, none, some, List, [], ◌∷◌, ◌++◌,
  length, is_empty, nat_beq, nat_eq, text_eq, text_beq_iff, nat_beq_iff, ◌==◌, if◌then◌else◌, Text,
  arith, inl,
}
use vector_database.Prelude.Map.{find, contains}
use vector_database.Index.Any.{AnyIndex, any_index, any_view}
use vector_database.Index.Distance.{DistanceMetric}
use vector_database.Index.Flat.{FlatIndexConfig, FlatIndex}
use vector_database.Store.{IndexType, Data, VectorStore, compute_checksum}
use vector_database.Store.Complete.{IsComplete}
use vector_database.Cache.{create as create_cache}
use vector_database.Stats.{StatsManager, widen}
use vector_database.Metrics.{create as create_metrics}
use vector_database.Validator.{validate_create_table}
use vector_database.Engine.{Engine, insert}
use vector_database.Engine.Accounted.{IsAccounted}
use vector_database.Engine.Running.{IsRunning, pick}
use vector_database.Engine.Writes.{admits_insert}
use vector_database.Engine.Tables.{create_table}
use vector_database.Persistence.Messages.{TableFiles, no_files}
use vector_database.Persistence.Snapshot.{
  no_hnsw_config, load_metadata, load_snapshot, save_metadata, save_snapshot, save_index,
  load_index, save_entries, load_entries, load_flat, save_flat, map_values,
}
use vector_database.Persistence.Snapshot.RoundTrip.{class_of}
use vector_database.Persistence.Wal.{append_remove}
use vector_database.Persistence.Wal.RoundTrip.{LogCall}
use vector_database.Recovery.{
  Directory, files_at, with_log, clear_wal, save_table, restore_table, file_disk,
}
use vector_database.Recovery.Mirror.{Mirrors, replay_all}
use vector_database.Recovery.Durable.{IsDurable, insert-IsDurable}
use vector_database.Recovery.Restore.{restore_table-IsDurable}
use vector_database.Recovery.Restart.{restore_table-save_table}
use vector_database.Recovery.Savable.{IsSavable}
use vector_database.Recovery.Lost.{restore_table-unsaved}
use vector_database.Tests.Whole.{whole, thirds}
use vector_database.Tests.Stores.{none_stale}
use vector_database.Tests.Engines.{name}
use vector_database.Tests.Files.{decimal, decimal_laws, Message, messages, message_laws}

abbrev pub flat_config : FlatIndexConfig
flat_config = record { vector_dimensionality = 2; metric = DistanceMetric.l2 }

abbrev pub one_store : VectorStore ℕ (AnyIndex ℕ)
one_store = record {
  index_type = IndexType.flat;
  store = (1, record { id = 1; vector = 5 ∷ 4 ∷ []; content = 97 ∷ [] }) ∷ [];
  index = AnyIndex.flat (record { vectors = (1, 5 ∷ 4 ∷ []) ∷ []; config = flat_config });
  vector_dimensionality = 2;
}

pub one_store-IsComplete : IsComplete one_store none_stale
unfolding find
one_store-IsComplete = record {
  indexed = record {
    sound = record { keyed = (refl, tt); sized = λ x w e. ground (arith, nat_beq_iff 1 x) };
    keyed = (refl, tt);
    own = λ x entry e. ground (arith, nat_beq_iff 1 x);
    known = λ x v e. ground (arith, nat_beq_iff 1 x);
  };
  same_dimension = refl;
  all = λ x. ground arith;
  free = λ x absent new. ground arith;
}

-- what the destructor leaves of the table
abbrev pub saved_or_none : Option (TableFiles Message) → TableFiles Message
saved_or_none none = no_files
saved_or_none (some files) = files

abbrev pub saved_files : TableFiles Message
saved_files = saved_or_none (save_table IndexType.flat name one_store 4 no_files)

saved_files_done : save_table IndexType.flat name one_store 4 no_files ≡ some saved_files
unfolding save_table
saved_files_done = refl

abbrev pub engine_over : Directory Message → Engine ℕ (Directory Message)
engine_over d = record {
  metadata = record { primary = true; reindex_threshold = 1; use_cache = true };
  shutdown = false;
  store_map = [];
  persistence_manager_map = [];
  stats_manager_map = [];
  metrics_manager_map = [];
  cache_map = [];
  disk = d;
}

one_store-IsSavable :
    IsSavable decimal_laws message_laws.valid_text name one_store no_hnsw_config flat_config 4
unfolding validate_create_table find save_entries save_flat map_values
one_store-IsSavable = record {
  configs = refl;
  same_class = refl;
  same_type = refl;
  valid = refl;
  fits = (omega arith, omega arith, omega arith, omega arith, refl, omega arith, omega arith);
  storable = record {
    entries = record { entries = ((omega arith, refl), tt); dimension = omega arith };
    index = record {
      dimension = omega arith;
      keyed = (refl, tt);
      vectors = λ k v e. ground (arith, nat_beq_iff 1 k);
    };
  };
  metadata = record {
    name = refl;
    dimension = omega arith;
    hnsw = record {
      m_fits = omega arith;
      m0_fits = omega arith;
      ef_construction_fits = omega arith;
      dimension = omega arith;
    };
    flat = omega arith;
    cache = omega arith;
  };
}

restore_table-save_table_example :
    (u : Engine ℕ (Directory Message)) × (t : VectorStore ℕ (AnyIndex ℕ)) × (stats : StatsManager)
    × (restore_table 0 0 (engine_over ((name, saved_files) ∷ [])) name ≡ some u)
    × (find name u.store_map ≡ some t)
    × IsComplete t none_stale
    × ((x : ℕ) → find x t.store ≡ find x one_store.store)
    × (compute_checksum t ≡ compute_checksum one_store)
    × (class_of t.index ≡ IndexType.flat)
    × (t.vector_dimensionality ≡ 2)
    × (find name u.stats_manager_map ≡ some stats)
    × (stats.stats.vector_count ≡ widen (length t.store))
unfolding find
restore_table-save_table_example =
    restore_table-save_table decimal_laws message_laws (engine_over ((name, saved_files) ∷ [])) name
      one_store no_hnsw_config flat_config 4 no_files saved_files none_stale 0 0
      one_store-IsComplete refl one_store-IsSavable saved_files_done refl refl

abbrev pub one_stats : StatsManager
one_stats = record {
  stats = record { vector_count = 1; deleted_count = 0; stale_count = 0 };
  modified = true;
  removed = false;
}

-- a primary with the table
abbrev pub primary : Engine ℕ (Directory Message)
primary = record {
  metadata = record { primary = true; reindex_threshold = 1; use_cache = true };
  shutdown = false;
  store_map = (name, one_store) ∷ [];
  persistence_manager_map = (name, IndexType.flat) ∷ [];
  stats_manager_map = (name, one_stats) ∷ [];
  metrics_manager_map = (name, create_metrics) ∷ [];
  cache_map = (name, create_cache 4) ∷ [];
  disk = (name, saved_files) ∷ [];
}

pub primary-IsRunning : IsRunning primary
unfolding find
primary-IsRunning = record {
  stats_there = λ n. ground arith;
  metrics_there = λ n. ground arith;
  persistence_there = λ n. ground arith;
  cache_there = λ n. ground arith;
  accounted = λ n store stats e e'.
      pick (name == n) IsAccounted one_store store one_stats stats none none
        (record {
          indexed = one_store-IsComplete.indexed;
          counting = record { counted = refl; small = omega arith };
        })
        e e' (λ absent. absurd cc);
}

primary-IsDurable : IsDurable decimal_laws primary name IndexType.flat one_store []
unfolding find load_metadata load_snapshot save_table validate_create_table replay_all clear_wal
    save_metadata save_snapshot save_index load_index save_entries load_entries load_flat save_flat
    map_values vector_database.Store.load vector_database.Index.Flat.load
    vector_database.Prelude.Map.assign
primary-IsDurable = record {
  files = record {
    dimensionality = 2;
    hnsw = no_hnsw_config ⦃f = whole⦄;
    flat = flat_config;
    cache_size = 4;
    metadata = refl;
    valid = refl;
    fits = one_store-IsSavable.fits;
    same_type = refl;
    snapshot = refl;
    indexed = one_store-IsComplete.indexed;
  };
  logged = tt;
  log = refl;
  store = one_store;
  found = refl;
  replayed = one_store;
  replays = refl;
  mirrors = record {
    indexed = one_store-IsComplete.indexed;
    same_dimension = refl;
    same = λ x. inl refl;
  };
}

insert-IsDurable_example :
    (u : Engine ℕ (Directory Message)) × (ok : Bool) × (insert primary name 2 (7 ∷ 7 ∷ []) (98 ∷ [])
      ≡ some (u, ok))
    × IsRunning u
    × IsDurable decimal_laws u name IndexType.flat one_store (
        if admits_insert primary name 2 (7 ∷ 7 ∷ []) (98 ∷ [])
        then LogCall.insert 2 (7 ∷ 7 ∷ []) (98 ∷ []) ∷ []
        else [])
insert-IsDurable_example =
    insert-IsDurable decimal_laws primary name IndexType.flat one_store [] 2 (7 ∷ 7 ∷ []) (98 ∷ [])
      primary-IsRunning primary-IsDurable (omega arith, (refl, (refl, tt)), (refl, tt))

restore_table-IsDurable_example :
    (u : Engine ℕ (Directory Message)) × (stats : StatsManager) × (restore_table 0 0
        (engine_over ((name, saved_files) ∷ []))
        name
      ≡ some u)
    × (find name u.store_map ≡ some primary-IsDurable.replayed)
    × Mirrors decimal_laws.six_digits primary-IsDurable.store primary-IsDurable.replayed
    × (find name u.stats_manager_map ≡ some stats)
    × (stats.stats.vector_count ≡ widen (length primary-IsDurable.replayed.store))
    × IsDurable decimal_laws u name IndexType.flat one_store (
        LogCall.create primary-IsDurable.files.hnsw primary-IsDurable.files.flat
          primary-IsDurable.files.cache_size
        ∷ [])
unfolding find
restore_table-IsDurable_example =
    restore_table-IsDurable decimal_laws primary (engine_over ((name, saved_files) ∷ [])) name
      IndexType.flat one_store [] 0 0 primary-IsDurable refl refl

-- the directory after a table was made in an empty one, and one entry was logged
abbrev unsaved : Directory Message
unsaved =
    (
      name,
      with_log
          (files_at (create_table (engine_over []) name 2 no_hnsw_config flat_config 4).0.disk name)
          (append_remove [] 1),
    )
    ∷ []

restore_table-unsaved_example :
    ((create_table (engine_over []) name 2 no_hnsw_config flat_config 4).1 ≡ true)
    × (restore_table 7 7 (engine_over unsaved) name ≡ some (engine_over unsaved))
unfolding find validate_create_table
restore_table-unsaved_example =
    restore_table-unsaved (engine_over []) (engine_over unsaved) name 2 no_hnsw_config flat_config 4
      (append_remove [] 1) 7 7 refl refl refl refl
