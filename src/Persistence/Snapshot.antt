-- ===== src/Persistence/Snapshot.antt =====
-- SaveSnapshot, LoadSnapshot and SaveMetadata of the persistence manager, and the loading of metadata in
-- the constructor of the engine. The files can be opened for writing.
pub mod Entries
pub mod Reload
pub mod Reordered
pub mod RoundTrip
use vector_database.Prelude.{
  ℕ, not, ◌&&◌, Option, none, some, List, [], ◌∷◌, map, is_empty, nat_beq, if◌then◌else◌, nat_eq,
  Text, ◌>>=◌,
}
use vector_database.Prelude.Map.{Map, assign}
use vector_database.Prelude.Set.{insert_all}
use vector_database.Float.{Float}
use vector_database.Index.Any.{AnyIndex}
use vector_database.Index.Distance.{DistanceMetric}
use vector_database.Index.Flat.{FlatIndexConfig, FlatIndex, load as flat_load}
use vector_database.Index.Hnsw.{HnswIndexConfig, Node, HnswIndex, load as hnsw_load}
use vector_database.Store.{IndexType, Data, VectorStore, load as store_load}
use vector_database.Engine.Tables.{is_hnsw_config}
use vector_database.Persistence.Messages.{
  VectorEntry, StoreSnapshot, StoredNode, HnswIndexSnapshot, FlatIndexSnapshot, TableMetadata,
  Protobuf, TableFiles,
}

-- The copy of a map, value by value: its keys are distinct, so that each assignment adds one.
unfoldable pub map_values : {A B : Type 0} → (A → B) → Map ℕ A → Map ℕ B
map_values f [] = []
map_values f ((k, a) ∷ m) = (k, f a) ∷ map_values f m

module _ {R : Type 0} where
  unfoldable pub save_node : Node R → StoredNode R
  unfolding map_values
  save_node node = record {
    vector = node.vector;
    level = node.level;
    neighbors = map_values (λ ids. ids) node.neighbors;
    active = node.active;
  }

  unfoldable pub load_node : StoredNode R → Node R
  unfolding map_values
  load_node node = record {
    vector = node.vector;
    level = node.level;
    neighbors = map_values (insert_all []) node.neighbors;
    active = node.active;
  }

  unfoldable pub save_hnsw : HnswIndex R → HnswIndexSnapshot R
  save_hnsw s = record {
    m = s.config.m;
    m0 = s.config.m0;
    ef_construction = s.config.ef_construction;
    ml = s.config.ml;
    distance_metric = s.config.metric;
    vector_dimensionality = s.config.vector_dimensionality;
    levels = s.levels;
    entry_point = elim s.entry_point [ none ↦ 0 | some id ↦ id ];
    nodes = map_values save_node s.nodes;
    node_levels = map_values (λ ids. ids) s.node_levels;
  }

  -- the entry point of a snapshot always has a value
  unfoldable pub load_hnsw : HnswIndexSnapshot R → HnswIndex R
  load_hnsw m =
      hnsw_load
        (record {
          m = m.m;
          m0 = m.m0;
          ef_construction = m.ef_construction;
          ml = m.ml;
          metric = m.distance_metric;
          vector_dimensionality = m.vector_dimensionality;
        })
        m.levels (some m.entry_point) (map_values load_node m.nodes)
        (map_values (insert_all []) m.node_levels)

  unfoldable pub save_flat : FlatIndex R → FlatIndexSnapshot R
  save_flat s = record {
    distance_metric = s.config.metric;
    vector_dimensionality = s.config.vector_dimensionality;
    vectors = map_values (λ v. v) s.vectors;
  }

  unfoldable pub load_flat : FlatIndexSnapshot R → FlatIndex R
  load_flat m =
      flat_load
        (record { vector_dimensionality = m.vector_dimensionality; metric = m.distance_metric })
        (map_values (λ v. v) m.vectors)

  -- the loop over the entries of the store, and its message
  unfoldable pub save_entries : Map ℕ (Data R) → List (VectorEntry R)
  save_entries [] = []
  save_entries ((id, entry) ∷ rest) =
      record { id = id; vector = entry.vector; content = entry.content } ∷ save_entries rest

  unfoldable pub load_entries : Map ℕ (Data R) → List (VectorEntry R) → Map ℕ (Data R)
  load_entries store [] = store
  load_entries store (e ∷ rest) =
      load_entries
        (assign e.id (record { id = e.id; vector = e.vector; content = e.content }) store) rest

module _ {R B : Type 0} ⦃proto : Protobuf R B⦄ where
  -- the file of the index: an index of the other class is not saved
  unfoldable pub save_index : IndexType → AnyIndex R → Option B → Option B
  save_index IndexType.hnsw (AnyIndex.hnsw s) file = some (proto.serialize_hnsw (save_hnsw s))
  save_index IndexType.hnsw (AnyIndex.flat s) file = file
  save_index IndexType.flat (AnyIndex.hnsw s) file = file
  save_index IndexType.flat (AnyIndex.flat s) file = some (proto.serialize_flat (save_flat s))

  unfoldable pub save_snapshot :
      IndexType → VectorStore R (AnyIndex R) → TableFiles B → TableFiles B
  save_snapshot stored_index_type s files = record files {
    store_snapshot = some (
        proto.serialize_store (record {
          vector_entry = save_entries s.store;
          vector_dimensionality = s.vector_dimensionality;
        }));
    index_snapshot = save_index stored_index_type s.index files.index_snapshot;
  }

  unfoldable pub load_index : IndexType → B → AnyIndex R
  load_index IndexType.hnsw file = AnyIndex.hnsw (load_hnsw (proto.parse_hnsw file))
  load_index IndexType.flat file = AnyIndex.flat (load_flat (proto.parse_flat file))

  -- `none` is nullptr
  unfoldable pub load_snapshot : IndexType → TableFiles B → Option (VectorStore R (AnyIndex R))
  load_snapshot stored_index_type files = do
    index_file ← files.index_snapshot
    store_file ← files.store_snapshot
    (let message = proto.parse_store store_file in
        let loaded =
          store_load stored_index_type (load_index stored_index_type index_file)
            message.vector_dimensionality (load_entries [] message.vector_entry) in
        if is_empty loaded.store then none else some loaded)

module _ {R : Type 0} ⦃f : Float R⦄ where
  abbrev pub no_hnsw_config : HnswIndexConfig R
  no_hnsw_config = record {
    m = 0;
    m0 = 0;
    ef_construction = 0;
    ml = f.zero;
    metric = DistanceMetric.l2;
    vector_dimensionality = 0;
  }

abbrev pub no_flat_config : FlatIndexConfig
no_flat_config = record { vector_dimensionality = 0; metric = DistanceMetric.l2 }

module _ {R : Type 0} ⦃f : Float R⦄ where
  -- the reading of metadata in Engine::Engine: the dimension, the two configurations, the cache size
  abbrev pub read_metadata : TableMetadata R → ℕ × (HnswIndexConfig R × (FlatIndexConfig × ℕ))
  read_metadata message = (
    message.vector_dimensionality,
    (
      elim message.index_type [
        | IndexType.hnsw ↦ message.hnsw_index_config
        | IndexType.flat ↦ no_hnsw_config
      ],
      (
        elim message.index_type [
          | IndexType.hnsw ↦ no_flat_config
          | IndexType.flat ↦ message.flat_index_config
        ],
        message.cache_size,
      ),
    ),
  )

module _ {R : Type 0} ⦃f : Float R⦄ where
  -- the message of SaveMetadata
  abbrev pub metadata_message : Text → ℕ → HnswIndexConfig R → FlatIndexConfig → ℕ → TableMetadata R
  metadata_message table_name vector_dimensionality hnsw flat cache_size = record {
    table_name = table_name;
    vector_dimensionality = vector_dimensionality;
    index_type = if is_hnsw_config hnsw then IndexType.hnsw else IndexType.flat;
    hnsw_index_config = if is_hnsw_config hnsw then hnsw else no_hnsw_config;
    flat_index_config = if is_hnsw_config hnsw then no_flat_config else flat;
    cache_size = cache_size;
  }

module _ {R B : Type 0} ⦃f : Float R⦄ ⦃proto : Protobuf R B⦄ where
  unfoldable pub save_metadata :
      Text → ℕ → HnswIndexConfig R → FlatIndexConfig → ℕ → TableFiles B → TableFiles B
  save_metadata table_name vector_dimensionality hnsw flat cache_size files = record files {
    metadata = some (
        proto.serialize_metadata
          (metadata_message table_name vector_dimensionality hnsw flat cache_size));
  }

  unfoldable pub load_metadata :
      TableFiles B → Option (ℕ × (HnswIndexConfig R × (FlatIndexConfig × ℕ)))
  load_metadata files = do file ← files.metadata; some (read_metadata (proto.parse_metadata file))
