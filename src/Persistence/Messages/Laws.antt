-- ===== src/Persistence/Messages/Laws.antt =====
-- What Protobuf documents of engine/proto/storage.proto: numbers in the range of their fields, and
-- strings that are UTF-8, are parsed as they were serialized; so are repeated fields, in their order.
-- A map field comes back with the same keys and values, in any order.
use vector_database.Prelude.{
  ℕ, ◌^◌, ◌<◌, ◌≤◌, ◌≡◌, Bool, true, Option, none, some, List, All, Text, nat_eq,
}
use vector_database.Prelude.Map.{Map, find, IsMap}
use vector_database.Index.Hnsw.{HnswIndexConfig}
use vector_database.Persistence.Messages.{
  StoreSnapshot, StoredNode, HnswIndexSnapshot, FlatIndexSnapshot, TableMetadata, Protobuf,
}

-- map<int64, IdSet>
pub record IsSetsField (m : Map ℕ (List ℕ)) : Type 0 where
  pub keyed : IsMap m
  pub fits :
      (k : ℕ) (ids : List ℕ) → find k m ≡ some ids → (k < 2 ^ 63) × All (λ id. id < 2 ^ 64) ids

module _ {R : Type 0} where
  pub record IsNodeMessage (m : StoredNode R) : Type 0 where
    pub level : m.level < 2 ^ 63
    pub neighbors : IsSetsField m.neighbors

  pub record IsHnswMessage (m : HnswIndexSnapshot R) : Type 0 where
    pub m_fits : m.m < 2 ^ 64
    pub m0_fits : m.m0 < 2 ^ 64
    pub ef_construction_fits : m.ef_construction < 2 ^ 64
    pub dimension : m.vector_dimensionality < 2 ^ 31
    pub levels : m.levels ≤ 2 ^ 63
    pub entry_point : m.entry_point < 2 ^ 64
    pub keyed : IsMap m.nodes
    pub nodes :
        (k : ℕ) (node : StoredNode R)
        → find k m.nodes ≡ some node
        → (k < 2 ^ 64) × IsNodeMessage node
    pub node_levels : IsSetsField m.node_levels

  pub record IsFlatMessage (m : FlatIndexSnapshot R) : Type 0 where
    pub dimension : m.vector_dimensionality < 2 ^ 31
    pub keyed : IsMap m.vectors
    pub vectors : (k : ℕ) (v : List R) → find k m.vectors ≡ some v → k < 2 ^ 64

  pub record IsHnswConfigMessage (c : HnswIndexConfig R) : Type 0 where
    pub m_fits : c.m < 2 ^ 64
    pub m0_fits : c.m0 < 2 ^ 64
    pub ef_construction_fits : c.ef_construction < 2 ^ 64
    pub dimension : c.vector_dimensionality < 2 ^ 31

module _ {R : Type 0} (valid_text : Text → Bool) where
  pub record IsStoreMessage (m : StoreSnapshot R) : Type 0 where
    pub entries : All (λ e. (e.id < 2 ^ 64) × (valid_text e.content ≡ true)) m.vector_entry
    pub dimension : m.vector_dimensionality < 2 ^ 31

  pub record IsMetadataMessage (m : TableMetadata R) : Type 0 where
    pub name : valid_text m.table_name ≡ true
    pub dimension : m.vector_dimensionality < 2 ^ 31
    pub hnsw : IsHnswConfigMessage m.hnsw_index_config
    pub flat : m.flat_index_config.vector_dimensionality < 2 ^ 31
    pub cache : m.cache_size < 2 ^ 64

-- A map in another order.
pub record SameMap {A : Type 0} (m m' : Map ℕ A) : Type 0 where
  pub keyed : IsMap m'
  pub same : (k : ℕ) → find k m' ≡ find k m

module _ {R : Type 0} where
  pub record SameNode (n n' : StoredNode R) : Type 0 where
    pub vector : n'.vector ≡ n.vector
    pub level : n'.level ≡ n.level
    pub active : n'.active ≡ n.active
    pub neighbors : SameMap n.neighbors n'.neighbors

  -- the nodes under an identifier
  abbrev pub SameNodes : Option (StoredNode R) → Option (StoredNode R) → Type 0
  SameNodes none none = Unit
  SameNodes none (some _) = ⊥
  SameNodes (some _) none = ⊥
  SameNodes (some n) (some n') = SameNode n n'

  pub record SameHnsw (m m' : HnswIndexSnapshot R) : Type 0 where
    pub m_same : m'.m ≡ m.m
    pub m0_same : m'.m0 ≡ m.m0
    pub ef_construction : m'.ef_construction ≡ m.ef_construction
    pub ml : m'.ml ≡ m.ml
    pub metric : m'.distance_metric ≡ m.distance_metric
    pub dimension : m'.vector_dimensionality ≡ m.vector_dimensionality
    pub levels : m'.levels ≡ m.levels
    pub entry_point : m'.entry_point ≡ m.entry_point
    pub keyed : IsMap m'.nodes
    pub nodes : (k : ℕ) → SameNodes (find k m.nodes) (find k m'.nodes)
    pub node_levels : SameMap m.node_levels m'.node_levels

  pub record SameFlat (m m' : FlatIndexSnapshot R) : Type 0 where
    pub metric : m'.distance_metric ≡ m.distance_metric
    pub dimension : m'.vector_dimensionality ≡ m.vector_dimensionality
    pub vectors : SameMap m.vectors m'.vectors

pub record ProtobufLaws (R B : Type 0) ⦃proto : Protobuf R B⦄ : Type 0 where
  -- whether a text is UTF-8
  pub valid_text : Text → Bool
  pub store_law :
      (m : StoreSnapshot R)
      → IsStoreMessage valid_text m
      → proto.parse_store (proto.serialize_store m) ≡ m
  pub hnsw_law :
      (m : HnswIndexSnapshot R)
      → IsHnswMessage m
      → SameHnsw m (proto.parse_hnsw (proto.serialize_hnsw m))
  pub flat_law :
      (m : FlatIndexSnapshot R)
      → IsFlatMessage m
      → SameFlat m (proto.parse_flat (proto.serialize_flat m))
  pub metadata_law :
      (m : TableMetadata R)
      → IsMetadataMessage valid_text m
      → proto.parse_metadata (proto.serialize_metadata m) ≡ m
