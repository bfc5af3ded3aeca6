-- ===== src/Persistence/Messages.antt =====
-- The messages of engine/proto/storage.proto, and the files of a table. Protobuf turns a message into
-- bytes and back; it is an interface. `levels` of a snapshot is max_level + 1.
pub mod Laws
use vector_database.Prelude.{ℕ, ◌≡◌, Bool, Option, none, List, Text}
use vector_database.Prelude.Map.{Map}
use vector_database.Float.{Vector}
use vector_database.Index.Distance.{DistanceMetric}
use vector_database.Index.Flat.{FlatIndexConfig}
use vector_database.Index.Hnsw.{HnswIndexConfig}
use vector_database.Store.{IndexType}

pub record VectorEntry (R : Type 0) : Type 0 where
  pub id : ℕ
  pub vector : Vector R
  pub content : Text

pub record StoreSnapshot (R : Type 0) : Type 0 where
  pub vector_entry : List (VectorEntry R)
  pub vector_dimensionality : ℕ

-- `vector_db::Node`; an IdSet is the list of its identifiers
pub record StoredNode (R : Type 0) : Type 0 where
  pub vector : Vector R
  pub level : ℕ
  pub neighbors : Map ℕ (List ℕ)
  pub active : Bool

pub record HnswIndexSnapshot (R : Type 0) : Type 0 where
  pub m : ℕ
  pub m0 : ℕ
  pub ef_construction : ℕ
  pub ml : R
  pub distance_metric : DistanceMetric
  pub vector_dimensionality : ℕ
  pub levels : ℕ
  pub entry_point : ℕ
  pub nodes : Map ℕ (StoredNode R)
  pub node_levels : Map ℕ (List ℕ)

pub record FlatIndexSnapshot (R : Type 0) : Type 0 where
  pub distance_metric : DistanceMetric
  pub vector_dimensionality : ℕ
  pub vectors : Map ℕ (Vector R)

-- a configuration that is not set has default values
pub record TableMetadata (R : Type 0) : Type 0 where
  pub table_name : Text
  pub vector_dimensionality : ℕ
  pub index_type : IndexType
  pub hnsw_index_config : HnswIndexConfig R
  pub flat_index_config : FlatIndexConfig
  pub cache_size : ℕ

-- SerializeToOstream and ParseFromIstream of each message
pub record Protobuf (R B : Type 0) : Type 0 where
  pub serialize_store : StoreSnapshot R → B
  pub parse_store : B → StoreSnapshot R
  pub serialize_hnsw : HnswIndexSnapshot R → B
  pub parse_hnsw : B → HnswIndexSnapshot R
  pub serialize_flat : FlatIndexSnapshot R → B
  pub parse_flat : B → FlatIndexSnapshot R
  pub serialize_metadata : TableMetadata R → B
  pub parse_metadata : B → TableMetadata R

-- the four files of a table, where they are there
pub record TableFiles (B : Type 0) : Type 0 where
  pub write_ahead_log : Option Text
  pub store_snapshot : Option B
  pub index_snapshot : Option B
  pub metadata : Option B

abbrev pub no_files : {B : Type 0} → TableFiles B
no_files = record {
  write_ahead_log = none;
  store_snapshot = none;
  index_snapshot = none;
  metadata = none;
}
