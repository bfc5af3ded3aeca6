-- ===== src/Index/Hnsw.antt =====
-- engine/src/index/hnsw_index.cc: the state of the graph index, and its reads and writes of links.
-- A level is the number that GetRandomLevel gives, from 0 on; `levels` is max_level_ + 1, so that
-- the -1 of an empty index is 0. An exception of `at` is `none`.
pub mod Links
pub mod SearchLevel
pub mod Update
pub mod Valid
pub mod Laws
use vector_database.Prelude.{
  ℕ, ◌+◌, ◌&&◌, nat_beq, Bool, true, false, Option, none, some, List, [], ◌∷◌, if◌then◌else◌,
  nat_eq,
}
use vector_database.Prelude.Map.{Map, find, assign}
use vector_database.Prelude.Set.{member}
use vector_database.Float.{Vector}
use vector_database.Index.Distance.{DistanceMetric}

pub record HnswIndexConfig (R : Type 0) : Type 0 where
  pub m : ℕ
  pub m0 : ℕ
  pub ef_construction : ℕ
  pub ml : R
  pub metric : DistanceMetric
  pub vector_dimensionality : ℕ

pub record Node (R : Type 0) : Type 0 where
  pub vector : Vector R
  pub level : ℕ
  pub neighbors : Map ℕ (List ℕ)
  pub active : Bool

pub record HnswIndex (R : Type 0) : Type 0 where
  pub config : HnswIndexConfig R
  pub nodes : Map ℕ (Node R)
  pub node_levels : Map ℕ (List ℕ)
  pub levels : ℕ
  pub entry_point : Option ℕ

-- What the standard library makes of `ml` and an identifier in GetRandomLevel: the seeded generator,
-- the logarithm and the conversion. A function, as the generator is seeded by the identifier.
pub record LevelSource (R : Type 0) : Type 0 where
  pub random_level : R → ℕ → ℕ

-- neighbors[level], with the empty set where there is none
unfoldable pub set_at : ℕ → Map ℕ (List ℕ) → List ℕ
set_at level sets = elim (find level sets) [ none ↦ [] | some ids ↦ ids ]

module _ {R : Type 0} where
  -- the constructor without previous data
  unfoldable pub create : HnswIndexConfig R → HnswIndex R
  create config = record {
    config = config;
    nodes = [];
    node_levels = [];
    levels = 0;
    entry_point = none;
  }

  -- the first active node of the highest level
  first_entry : ℕ → Map ℕ (Node R) → Option ℕ
  first_entry levels [] = none
  first_entry levels ((id, node) ∷ rest) =
      if node.active && nat_beq (node.level + 1) levels then some id else first_entry levels rest

  -- the constructor that takes loaded data
  unfoldable pub load :
      HnswIndexConfig R → ℕ → Option ℕ → Map ℕ (Node R) → Map ℕ (List ℕ) → HnswIndex R
  unfolding first_entry
  load config levels entry_point nodes node_levels = record {
    config = config;
    nodes = nodes;
    node_levels = node_levels;
    levels = levels;
    entry_point = elim entry_point [ none ↦ first_entry levels nodes | some id ↦ some id ];
  }

  -- the node that nodes_[id] makes where there is none
  abbrev pub blank : Node R
  blank = record { vector = []; level = 0; neighbors = []; active = false }

  abbrev pub or_blank : Option (Node R) → Node R
  or_blank none = blank
  or_blank (some node) = node

  abbrev pub node_or_blank : HnswIndex R → ℕ → Node R
  node_or_blank s id = or_blank (find id s.nodes)

  -- nodes_[id].neighbors[level], read
  unfoldable pub links : HnswIndex R → ℕ → ℕ → List ℕ
  links s level id = set_at level (node_or_blank s id).neighbors

  -- nodes_[id].neighbors[level] = ids
  unfoldable pub set_links : HnswIndex R → ℕ → ℕ → List ℕ → HnswIndex R
  set_links s level id ids =
      let node = node_or_blank s id in
      record s {
        nodes = assign id (record node { neighbors = assign level ids node.neighbors }) s.nodes;
      }

  -- contained and active
  abbrev pub is_live : Map ℕ (Node R) → ℕ → Bool
  is_live nodes id = elim (find id nodes) [ none ↦ false | some node ↦ node.active ]
