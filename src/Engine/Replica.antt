-- ===== src/Engine/Replica.antt =====
-- Making and dropping tables, and what a replica makes of the log of its primary.
use vector_database.Prelude.{
  either, ℕ, ◌≡◌, refl, sym, ◌∙◌, Bool, true, false, not, ◌||◌, none, some, List, is_empty,
  if◌then◌else◌, Text, text_eq, nat_eq, arith, Bool-cases, inl, inr, ◌==◌,
}
use vector_database.Prelude.Map.{find, assign, erase, contains, find-assign, find-erase}
use vector_database.Float.{Float}
use vector_database.Index.Any.{AnyIndex, any_index, any_view, AnySound}
use vector_database.Index.Flat.{FlatIndexConfig, create as create_flat}
use vector_database.Index.Flat.Laws.{IsSound as IsFlatSound}
use vector_database.Index.Hnsw.{HnswIndexConfig, LevelSource, create as create_hnsw}
use vector_database.Index.Hnsw.Laws.{IsSound as IsHnswSound}
use vector_database.Index.Hnsw.Valid.Reindex.{create-IsValid}
use vector_database.Store.{IndexType, VectorStore, create as create_store}
use vector_database.Stats.{StatsManager, create as create_stats, set_modified_flag}
use vector_database.Validator.{validate_create_table}
use vector_database.Engine.{Disk, Engine}
use vector_database.Engine.Tables.{
  is_hnsw_config, index_type_of, make_index, has_any, has_all, add_table, create_table,
  create_table_on_replica, drop_table_on_replica,
}
use vector_database.Engine.Accounted.{IsAccounted, IsCounting}
use vector_database.Engine.Running.{IsRunning, pick}

has-assign :
    {A : Type 0} (n m : Text) (a : A) (o : List (Text × A))
    → contains m (assign n a o) ≡ (n == m || contains m o)
has-assign n m a o = ground (arith, find-assign n m a o)

unerased :
    {A : Type 0} (n m : Text) (a : A) (o : List (Text × A))
    → find m (erase n o) ≡ some a
    → find m o ≡ some a
unerased n m a o e = ground (arith, find-erase n m o)

twice :
    {A : Type 0} (n m : Text) (a b : A) (o : List (Text × A))
    → find m (assign n a (assign n b o)) ≡ (if n == m then some a else find m o)
twice n m a b o = ground (arith, find-assign n m a (assign n b o), find-assign n m b o)

new-IsCounting :
    (modified : Bool)
    → IsCounting 0 (if modified then set_modified_flag create_stats true else create_stats)
unfolding create_stats set_modified_flag
new-IsCounting true = record { counted = omega arith; small = omega arith }
new-IsCounting false = record { counted = omega arith; small = omega arith }

module _ {R : Type 0} ⦃f : Float R⦄ ⦃source : LevelSource R⦄ where
  new_hnsw-IsSound : (config : HnswIndexConfig R) → IsHnswSound (create_hnsw config)
  unfolding create_hnsw find
  new_hnsw-IsSound config = record { valid = create-IsValid config; sized = λ x w e. cc }

  new_flat-IsSound : (config : FlatIndexConfig) → IsFlatSound {R = R} (create_flat config)
  unfolding create_flat find
  new_flat-IsSound config = record { keyed = tt; sized = λ x w e. cc }

  new_index-IsSound :
      (hnsw_config : HnswIndexConfig R) (flat_config : FlatIndexConfig)
      → AnySound (make_index hnsw_config flat_config)
  unfolding make_index
  new_index-IsSound hnsw_config flat_config = elim (Bool-cases (is_hnsw_config hnsw_config)) [
    | inl graph ↦ rw graph (new_hnsw-IsSound hnsw_config)
    | inr exhaustive ↦ rw exhaustive (new_flat-IsSound flat_config)
  ]

  new_known :
      (hnsw_config : HnswIndexConfig R) (flat_config : FlatIndexConfig) (x : ℕ)
      → (any_view {R = R}).vector_at (make_index hnsw_config flat_config) x ≡ none
  unfolding make_index create_hnsw create_flat find
  new_known hnsw_config flat_config x = elim (Bool-cases (is_hnsw_config hnsw_config)) [
    | inl graph ↦ rw graph refl
    | inr exhaustive ↦ rw exhaustive refl
  ]

  -- A new table is empty, and its counters are 0.
  new_table-IsAccounted :
      (index_type : IndexType) (hnsw_config : HnswIndexConfig R) (flat_config : FlatIndexConfig)
      (dimensionality : ℕ) (modified : Bool)
      → IsAccounted {R = R} {I = AnyIndex R}
          (create_store index_type (make_index hnsw_config flat_config) dimensionality)
          (if modified then set_modified_flag create_stats true else create_stats)
  unfolding create_store create_stats set_modified_flag find
  new_table-IsAccounted index_type hnsw_config flat_config dimensionality modified = record {
    indexed = record {
      sound = new_index-IsSound hnsw_config flat_config;
      keyed = tt;
      own = λ x entry e. cc;
      known = λ x v e. ground (arith, new_known hnsw_config flat_config x);
    };
    counting = new-IsCounting modified;
  }

module _ {R D : Type 0} ⦃f : Float R⦄ ⦃source : LevelSource R⦄ ⦃disk : Disk R D⦄ where
  -- A new table in all maps.
  added-IsRunning :
      (s t : Engine R D) (n : Text) (store : VectorStore R (AnyIndex R)) (stats : StatsManager)
      → IsRunning s
      → IsAccounted store stats
      → ((m : Text) → find m t.store_map ≡ (if n == m then some store else find m s.store_map))
      → ((m : Text)
          → find m t.stats_manager_map
            ≡ (if n == m then some stats else find m s.stats_manager_map))
      → ((m : Text)
          → contains m t.metrics_manager_map ≡ (n == m || contains m s.metrics_manager_map))
      → ((m : Text)
          → contains m t.persistence_manager_map ≡ (n == m || contains m s.persistence_manager_map))
      → ((m : Text) → contains m t.cache_map ≡ (n == m || contains m s.cache_map))
      → IsRunning t
  added-IsRunning s t n store stats h a fs ft fm fp fc = record {
    stats_there = λ m. ground (arith, fs m, ft m, h.stats_there m);
    metrics_there = λ m. ground (arith, fs m, fm m, h.metrics_there m);
    persistence_there = λ m. ground (arith, fs m, fp m, h.persistence_there m);
    cache_there = λ m. ground (arith, fs m, fc m, h.cache_there m);
    accounted = λ m store' stats' e e'.
        pick (n == m) IsAccounted store store' stats stats' (find m s.store_map)
          (find m s.stats_manager_map) a (sym (fs m) ∙ e) (sym (ft m) ∙ e')
          (h.accounted m store' stats');
  }

  -- The state after CreateTable or CreateTableOnReplica took a table in.
  made-IsRunning :
      (s : Engine R D) (d : D) (n : Text) (dimensionality : ℕ) (hnsw_config : HnswIndexConfig R)
      (flat_config : FlatIndexConfig) (cache_size : ℕ)
      → IsRunning s
      → IsRunning
          (add_table (record s { disk = d }) n dimensionality hnsw_config flat_config cache_size)
  unfolding add_table
  made-IsRunning s d n dimensionality hnsw_config flat_config cache_size h =
      added-IsRunning s
        (add_table (record s { disk = d }) n dimensionality hnsw_config flat_config cache_size) n
        (create_store (index_type_of hnsw_config) (make_index hnsw_config flat_config)
          dimensionality)
        create_stats h
        (new_table-IsAccounted (index_type_of hnsw_config) hnsw_config flat_config dimensionality
          false)
        (λ m. find-assign n m _ s.store_map) (λ m. find-assign n m _ s.stats_manager_map)
        (λ m. has-assign n m _ s.metrics_manager_map)
        (λ m. has-assign n m _ s.persistence_manager_map) (λ m. has-assign n m _ s.cache_map)

  marked-IsRunning :
      (s : Engine R D) (d : D) (n : Text) (dimensionality : ℕ) (hnsw_config : HnswIndexConfig R)
      (flat_config : FlatIndexConfig) (cache_size : ℕ)
      → IsRunning s
      → (let t =
            add_table (record s { disk = d }) n dimensionality hnsw_config flat_config cache_size in
          IsRunning (record t {
            stats_manager_map = assign n (set_modified_flag create_stats true) t.stats_manager_map;
          }))
  unfolding add_table
  marked-IsRunning s d n dimensionality hnsw_config flat_config cache_size h =
      let t =
        add_table (record s { disk = d }) n dimensionality hnsw_config flat_config cache_size in
      added-IsRunning s
        (record t {
          stats_manager_map = assign n (set_modified_flag create_stats true) t.stats_manager_map;
        })
        n
        (create_store (index_type_of hnsw_config) (make_index hnsw_config flat_config)
          dimensionality)
        (set_modified_flag create_stats true) h
        (new_table-IsAccounted (index_type_of hnsw_config) hnsw_config flat_config dimensionality
          true)
        (λ m. find-assign n m _ s.store_map)
        (λ m. twice n m (set_modified_flag create_stats true) create_stats s.stats_manager_map)
        (λ m. has-assign n m _ s.metrics_manager_map)
        (λ m. has-assign n m _ s.persistence_manager_map) (λ m. has-assign n m _ s.cache_map)

  -- CreateTable keeps stores and counters in agreement.
  pub create_table-IsRunning :
      (s : Engine R D) (n : Text) (dimensionality : ℕ) (hnsw_config : HnswIndexConfig R)
      (flat_config : FlatIndexConfig) (cache_size : ℕ)
      → IsRunning s
      → IsRunning (create_table s n dimensionality hnsw_config flat_config cache_size).0
  unfolding create_table
  create_table-IsRunning s n dimensionality hnsw_config flat_config cache_size h =
      either (λ (r : Engine R D × Bool). IsRunning r.0) (not s.metadata.primary || s.shutdown) _ _ h
        (either (λ (r : Engine R D × Bool). IsRunning r.0)
          (not (validate_create_table n dimensionality hnsw_config flat_config cache_size)) _ _ h
          (either (λ (r : Engine R D × Bool). IsRunning r.0) (has_any s n) _ _ h
            (marked-IsRunning s _ n dimensionality hnsw_config flat_config cache_size h)))

  pub create_table_on_replica-IsRunning :
      (s : Engine R D) (n : Text) (dimensionality : ℕ) (hnsw_config : HnswIndexConfig R)
      (flat_config : FlatIndexConfig) (cache_size : ℕ)
      → IsRunning s
      → IsRunning (create_table_on_replica s n dimensionality hnsw_config flat_config cache_size).0
  unfolding create_table_on_replica
  create_table_on_replica-IsRunning s n dimensionality hnsw_config flat_config cache_size h =
      either (λ (r : Engine R D × Bool). IsRunning r.0) (s.shutdown || is_empty n) _ _ h
        (either (λ (r : Engine R D × Bool). IsRunning r.0) (has_any s n) _ _ h
          (made-IsRunning s s.disk n dimensionality hnsw_config flat_config cache_size h))

  pub drop_table_on_replica-IsRunning :
      (s : Engine R D) (n : Text) → IsRunning s → IsRunning (drop_table_on_replica s n).0
  unfolding drop_table_on_replica
  drop_table_on_replica-IsRunning s n h =
      either (λ (r : Engine R D × Bool). IsRunning r.0) (s.shutdown || is_empty n) _ _ h
        (either (λ (r : Engine R D × Bool). IsRunning r.0) (not (has_all s n)) _ _ h
          (record {
            stats_there = λ m. ground (
              arith,
              find-erase n m s.store_map,
              find-erase n m s.stats_manager_map,
              h.stats_there m,
            );
            metrics_there = λ m. ground (
              arith,
              find-erase n m s.store_map,
              find-erase n m s.metrics_manager_map,
              h.metrics_there m,
            );
            persistence_there = λ m. ground (
              arith,
              find-erase n m s.store_map,
              find-erase n m s.persistence_manager_map,
              h.persistence_there m,
            );
            cache_there = λ m.
                ground
                  (arith, find-erase n m s.store_map, find-erase n m s.cache_map, h.cache_there m);
            accounted = λ m store stats e e'.
                h.accounted m store stats (unerased n m store s.store_map e)
                  (unerased n m stats s.stats_manager_map e');
          }))
