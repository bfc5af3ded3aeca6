-- ===== src/Tests/Engines.antt =====
-- The theorems of the engine at an engine with one table.
use vector_database.Prelude.{
  ℕ, ◌%◌, ◌^◌, ◌≤◌, ◌≡◌, refl, Bool, true, false, ◌&&◌, none, some, List, [], ◌∷◌, ◌++◌, length,
  foldl, all, if◌then◌else◌, ◌==◌, Text, text_eq, nat_eq,
}
use vector_database.Prelude.Map.{find, contains}
use vector_database.Index.Any.{AnyIndex}
use vector_database.Index.Flat.{FlatIndexConfig}
use vector_database.Index.Distance.{DistanceMetric}
use vector_database.Store.{VectorStore}
use vector_database.Store.Indexed.{accepts}
use vector_database.Stats.{StatsManager}
use vector_database.Validator.{validate_insert, validate_remove}
use vector_database.Engine.{
  Disk, Engine, is_writable, insert, remove, batch_insert, batch_remove, cleanup,
}
use vector_database.Engine.Tables.{WalEntry, IndexConfig, create_table, sync}
use vector_database.Engine.Running.{IsRunning}
use vector_database.Engine.Writes.{
  admits_insert, store_inserted, insert-IsRunning, batch_insert-IsRunning, log_all,
}
use vector_database.Engine.Removals.{
  admits_remove, store_removed, remove-IsRunning, batch_remove-IsRunning,
}
use vector_database.Engine.Cleaning.{runs_cleanup, cleanup-IsRunning}
use vector_database.Engine.Replica.{create_table-IsRunning}
use vector_database.Engine.Sync.{sync-IsRunning}
use vector_database.Tests.Whole.{whole, thirds}
use vector_database.Tests.Graph.{graph_config}

abbrev pub Entries : Type 0
Entries = List (WalEntry ℕ)

abbrev pub metric_config : FlatIndexConfig
metric_config = record { vector_dimensionality = 0; metric = DistanceMetric.l2 }

-- One log for all tables, which only grows.
instance abbrev pub listed : Disk ℕ Entries
listed = record {
  append_insert = λ d n id v content. d ++ WalEntry.insert n id v content ∷ [];
  append_remove = λ d n id. d ++ WalEntry.remove n id ∷ [];
  append_create = λ d n index_type h f size.
      d ++ WalEntry.create n h.vector_dimensionality (IndexConfig.hnsw h) size ∷ [];
  open_log = λ d n. d;
  clear = λ d n. d;
}

abbrev pub name : Text
name = 116 ∷ []

abbrev pub no_tables : Engine ℕ Entries
no_tables = record {
  metadata = record { primary = true; reindex_threshold = 1; use_cache = true };
  shutdown = false;
  store_map = [];
  persistence_manager_map = [];
  stats_manager_map = [];
  metrics_manager_map = [];
  cache_map = [];
  disk = [];
}

pub no_tables-IsRunning : IsRunning no_tables
unfolding find
no_tables-IsRunning = record {
  stats_there = λ n. refl;
  metrics_there = λ n. refl;
  persistence_there = λ n. refl;
  cache_there = λ n. refl;
  accounted = λ n store stats e. cc;
}

abbrev pub one_table : Engine ℕ Entries
one_table = (create_table no_tables name 2 graph_config metric_config 4).0

pub one_table-IsRunning : IsRunning one_table
one_table-IsRunning =
    create_table-IsRunning no_tables name 2 graph_config metric_config 4 no_tables-IsRunning

insert-IsRunning_example :
    (u : Engine ℕ Entries) × (insert one_table name 1 (5 ∷ 4 ∷ []) (97 ∷ [])
      ≡ some (
        u,
        admits_insert one_table name 1 (5 ∷ 4 ∷ []) (97 ∷ [])
            && elim (find name one_table.store_map) [
              | none ↦ false
              | some store ↦ accepts store 1 (5 ∷ 4 ∷ [])
            ],
      ))
    × IsRunning u
    × (u.disk ≡ (
        if admits_insert one_table name 1 (5 ∷ 4 ∷ []) (97 ∷ [])
        then one_table.disk ++ WalEntry.insert name 1 (5 ∷ 4 ∷ []) (97 ∷ []) ∷ []
        else one_table.disk))
    × ((m : Text)
        → find m u.store_map ≡ (
            if admits_insert one_table name 1 (5 ∷ 4 ∷ []) (97 ∷ []) && name == m
            then store_inserted one_table name 1 (5 ∷ 4 ∷ []) (97 ∷ [])
            else find m one_table.store_map))
    × (admits_insert one_table name 1 (5 ∷ 4 ∷ []) (97 ∷ []) ≡ false → u ≡ one_table)
insert-IsRunning_example =
    insert-IsRunning one_table name 1 (5 ∷ 4 ∷ []) (97 ∷ []) one_table-IsRunning

remove-IsRunning_example :
    (u : Engine ℕ Entries) × (remove one_table name 1
      ≡ some (
        u,
        admits_remove one_table name 1 && elim (find name one_table.store_map) [
          | none ↦ false
          | some store ↦ contains 1 store.store
        ],
      ))
    × IsRunning u
    × (u.disk ≡ (
        if admits_remove one_table name 1
        then one_table.disk ++ WalEntry.remove name 1 ∷ []
        else one_table.disk))
    × ((m : Text)
        → find m u.store_map ≡ (
            if admits_remove one_table name 1 && name == m
            then store_removed one_table name 1
            else find m one_table.store_map))
    × (admits_remove one_table name 1 ≡ false → u ≡ one_table)
remove-IsRunning_example = remove-IsRunning one_table name 1 one_table-IsRunning

abbrev two_vectors : List (ℕ × (List ℕ × Text))
two_vectors = (1, (5 ∷ 4 ∷ [], 97 ∷ [])) ∷ (2, (1 ∷ 1 ∷ [], 98 ∷ [])) ∷ []

batch_insert-IsRunning_example :
    (u : Engine ℕ Entries) × (flags : List Bool) × (batch_insert one_table name two_vectors
      ≡ some (u, flags))
    × IsRunning u
    × (length flags ≡ 2)
    × (u.disk ≡ (
        if is_writable one_table name && all (λ w. validate_insert name w.0 w.1.0 w.1.1) two_vectors
        then log_all one_table.disk name two_vectors
        else one_table.disk))
batch_insert-IsRunning_example =
    batch_insert-IsRunning one_table name two_vectors one_table-IsRunning

batch_remove-IsRunning_example :
    (u : Engine ℕ Entries) × (flags : List Bool) × (batch_remove one_table name (1 ∷ 2 ∷ [])
      ≡ some (u, flags))
    × IsRunning u
    × (length flags ≡ 2)
    × (u.disk ≡ (
        if is_writable one_table name && all (λ id. validate_remove name id) (1 ∷ 2 ∷ [])
        then foldl (λ d id. d ++ WalEntry.remove name id ∷ []) one_table.disk (1 ∷ 2 ∷ [])
        else one_table.disk))
batch_remove-IsRunning_example =
    batch_remove-IsRunning one_table name (1 ∷ 2 ∷ []) one_table-IsRunning

cleanup-IsRunning_example :
    (u : Engine ℕ Entries) × (cleanup one_table name false 3 ≡ some u)
    × IsRunning u
    × (runs_cleanup one_table name false ≡ true
        → (store : VectorStore ℕ (AnyIndex ℕ)) × (stats : StatsManager) × (find name u.store_map
            ≡ some store)
          × (find name u.stats_manager_map ≡ some stats)
          × (stats.stats.vector_count ≡ length store.store % 2 ^ 64))
cleanup-IsRunning_example = cleanup-IsRunning one_table name false 3 one_table-IsRunning

abbrev sent : List (WalEntry ℕ)
sent = WalEntry.insert name 1 (5 ∷ 4 ∷ []) (97 ∷ []) ∷ WalEntry.remove name 1 ∷ []

sync-IsRunning_example :
    (u : Engine ℕ Entries) × (successful : ℕ) × (sync one_table sent ≡ some (u, successful))
    × IsRunning u
    × (successful ≤ 2)
sync-IsRunning_example = sync-IsRunning one_table sent one_table-IsRunning
