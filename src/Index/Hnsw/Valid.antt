-- ===== src/Index/Hnsw/Valid.antt =====
-- The invariant of the graph index.
pub mod Insert
pub mod Remove
pub mod Search
pub mod Cleanup
pub mod Reindex
use vector_database.Prelude.{
  ℕ, ◌+◌, ◌≤◌, ◌<◌, ◌≡◌, Bool, true, false, ◌&&◌, Option, none, some, List, if◌then◌else◌, length,
  is_empty, nat_beq, nat_eq,
}
use vector_database.Prelude.Map.{find, IsMap}
use vector_database.Float.{Vector}
use vector_database.Prelude.Set.{member}
use vector_database.Index.Hnsw.{Node, HnswIndex, set_at, or_blank, links, is_live}
use vector_database.Index.Hnsw.SearchLevel.{max_neighbors}
use vector_database.Index.Hnsw.Update.Graph.{IsGraph}

module _ {R : Type 0} where
  abbrev pub level_of : HnswIndex R → ℕ → ℕ
  level_of s id = (or_blank (find id s.nodes)).level

  -- What the index stands for: the vector of each active node.
  abbrev pub vector_at : HnswIndex R → ℕ → Option (Vector R)
  vector_at s id = elim (find id s.nodes) [
    | none ↦ none
    | some node ↦ if node.active then some node.vector else none
  ]

  pub record IsValid (s : HnswIndex R) : Type 0 where
    pub keyed : IsMap s.nodes
    -- an undirected graph without loops, of bounded degree at each level
    pub graph : IsGraph s
    pub bounded : (k x : ℕ) → length (links s k x) ≤ max_neighbors s k
    -- the entry point is active and on the highest level; without one, no node is active
    pub entry_live : (e : ℕ) → s.entry_point ≡ some e → is_live s.nodes e ≡ true
    pub entry_level : (e : ℕ) → s.entry_point ≡ some e → level_of s e + 1 ≡ s.levels
    pub no_entry : s.entry_point ≡ none → (id : ℕ) → is_live s.nodes id ≡ false
    pub no_levels : s.entry_point ≡ none → s.levels ≡ 0
    pub below : (id : ℕ) → is_live s.nodes id ≡ true → level_of s id < s.levels
    -- node_levels files the active nodes by level, and has no empty set
    pub filed :
        (l id : ℕ)
        → member id (set_at l s.node_levels) ≡ (is_live s.nodes id && nat_beq (level_of s id) l)
    pub no_empty : (l : ℕ) (ids : List ℕ) → find l s.node_levels ≡ some ids → is_empty ids ≡ false
