-- ===== src/Index/Hnsw/Update.antt =====
-- HNSWIndex::Insert, InsertNoLock, ConnectNeighbors, Remove, Search, Cleanup and Reindex. The lock
-- makes each operation one step.
pub mod Graph
pub mod Prune
pub mod Connect
pub mod Levels
pub mod Clean
use vector_database.Prelude.{
  ℕ, zero, suc, ◌+◌, ◌-◌, ◌≡◌, Bool, true, false, not, ◌&&◌, ◌||◌, Option, none, some, List, [],
  ◌∷◌, ◌++◌, map, length, take, ltb, nat_beq, min, if◌then◌else◌, is_empty, nat_eq, ◌>>=◌,
}
use vector_database.Prelude.Map.{Map, find, assign, erase, contains}
use vector_database.Prelude.Set.{member, insert_all, delete, filter}
use vector_database.Prelude.Set.{insert as insert_element}
use vector_database.Float.{Float, Vector}
use vector_database.Index.{VectorIndex}
use vector_database.Index.Hnsw.{
  HnswIndexConfig, Node, HnswIndex, LevelSource, set_at, links, set_links, is_live, node_or_blank,
  create,
}
use vector_database.Index.Hnsw.SearchLevel.{search_level, select_neighbors, max_neighbors}

abbrev pub first_or : List ℕ → ℕ → ℕ
first_or [] entry_point = entry_point
first_or (nearest ∷ _) entry_point = nearest

module _ {R : Type 0} where
  unfoldable pub clean_neighbors : Map ℕ (Node R) → Map ℕ (List ℕ) → Map ℕ (List ℕ)
  clean_neighbors nodes [] = []
  clean_neighbors nodes ((level, ids) ∷ rest) =
      (level, filter (is_live nodes) ids) ∷ clean_neighbors nodes rest

  -- the loop of Cleanup: `done` are the nodes that it has passed and kept
  unfoldable pub clean : Map ℕ (Node R) → Map ℕ (Node R) → Map ℕ (Node R)
  clean done [] = done
  clean done ((id, node) ∷ rest) =
      clean
        (if node.active
          then done
            ++ (
              id,
              record node {
                neighbors = clean_neighbors (done ++ ((id, node) ∷ rest)) node.neighbors;
              },
            )
              ∷ []
          else done)
        rest

  unfoldable pub cleanup : HnswIndex R → HnswIndex R
  cleanup s = record s { nodes = clean [] s.nodes }

module _ {R : Type 0} ⦃f : Float R⦄ where
  -- the loop over e_conn: the set of each old neighbor that is not kept loses `neighbor_id`
  unfoldable pub unlink : HnswIndex R → ℕ → ℕ → List ℕ → List ℕ → HnswIndex R
  unlink s level neighbor_id kept [] = s
  unlink s level neighbor_id kept (old ∷ rest) =
      unlink
        (if member old kept
          then s
          else set_links s level old (delete neighbor_id (links s level old)))
        level neighbor_id kept rest

  -- "Prune neighbors down to max_neighbors."
  unfoldable pub prune : HnswIndex R → ℕ → ℕ → Option (HnswIndex R)
  prune s level neighbor_id =
      let e_conn = links s level neighbor_id in
      if ltb (max_neighbors s level) (length e_conn)
      then (do
        e_new_conn ← select_neighbors s (node_or_blank s neighbor_id).vector e_conn level
        some (
            set_links (unlink s level neighbor_id e_new_conn e_conn) level neighbor_id
              (insert_all [] e_new_conn)))
      else some s

  -- nodes_[a].neighbors[level].insert(b)
  unfoldable pub add_link : HnswIndex R → ℕ → ℕ → ℕ → HnswIndex R
  add_link s level a b = set_links s level a (insert_element b (links s level a))

  -- the body of the loop of ConnectNeighbors
  unfoldable pub connect_neighbor : HnswIndex R → ℕ → ℕ → ℕ → Option (HnswIndex R)
  connect_neighbor s node_id level neighbor_id = do
    neighbor ← find neighbor_id s.nodes
    (if neighbor.active
        then prune (add_link (add_link s level node_id neighbor_id) level neighbor_id node_id) level
            neighbor_id
        else some s)

  unfoldable pub connect_neighbors : HnswIndex R → ℕ → List ℕ → ℕ → Option (HnswIndex R)
  connect_neighbors s node_id [] level = some s
  connect_neighbors s node_id (neighbor_id ∷ rest) level = do
    s' ← connect_neighbor s node_id level neighbor_id
    connect_neighbors s' node_id rest level

  -- "Greedy descent to the insertion level." `count` levels are left above `new_level`.
  unfoldable pub descend : HnswIndex R → Vector R → ℕ → ℕ → ℕ → Option ℕ
  descend s vector new_level zero entry_point = some entry_point
  descend s vector new_level (suc count) entry_point = do
    nearest ← search_level s vector (some entry_point) 1 (new_level + suc count)
    descend s vector new_level count (first_or nearest entry_point)

  -- "Connect the node at all levels": `suc l` stands before the round of level `l`
  unfoldable pub connect_levels : HnswIndex R → ℕ → Vector R → ℕ → ℕ → Option (HnswIndex R)
  connect_levels s id vector entry_point zero = some s
  connect_levels s id vector entry_point (suc l) = do
    nearest ← search_level s vector (some entry_point) s.config.ef_construction l
    neighbors ← select_neighbors s vector nearest l
    s' ← connect_neighbors s id neighbors l
    connect_levels s' id vector entry_point l

  -- the new node, without links
  unfoldable pub add_node : HnswIndex R → ℕ → Vector R → ℕ → HnswIndex R
  add_node s id vector new_level = record s {
    nodes =
        assign id (record { vector = vector; level = new_level; neighbors = []; active = true })
          s.nodes;
    node_levels =
        assign new_level (insert_element id (set_at new_level s.node_levels)) s.node_levels;
  }

  -- the end of Insert: a node above all others becomes the entry point
  unfoldable pub raise_entry : HnswIndex R → ℕ → ℕ → HnswIndex R
  raise_entry s id new_level =
      if ltb s.levels (new_level + 1)
      then record s { levels = new_level + 1; entry_point = some id }
      else s

  -- Insert after its test, at a level
  unfoldable pub insert_at : HnswIndex R → ℕ → Vector R → ℕ → Option (HnswIndex R)
  insert_at s id vector new_level =
      let added = add_node s id vector new_level in
      elim s.entry_point [
        | none ↦ some (record added { levels = new_level + 1; entry_point = some id })
        | some entry_point ↦ do
          lower ← descend added vector new_level (s.levels - 1 - new_level) entry_point
          s' ← connect_levels added id vector lower (min s.levels (new_level + 1))
          some (raise_entry s' id new_level)
      ]

  -- the search for a new entry point: `suc l` stands before the round of level `l`
  unfoldable pub first_active : Map ℕ (Node R) → List ℕ → Option ℕ
  first_active nodes [] = none
  first_active nodes (candidate ∷ rest) =
      let later = first_active nodes rest in
      elim (find candidate nodes) [
        | none ↦ later
        | some node ↦ if node.active then some candidate else later
      ]

  unfoldable pub choose_entry : HnswIndex R → ℕ → HnswIndex R
  unfolding first_active
  choose_entry s zero = record s { levels = 0; entry_point = none }
  choose_entry s (suc l) = elim (find l s.node_levels) [
    | none ↦ choose_entry s l
    | some ids ↦ record s { levels = suc l; entry_point = first_active s.nodes ids }
  ]

  -- the soft removal of an active node
  unfoldable pub deactivate : HnswIndex R → ℕ → Node R → HnswIndex R
  deactivate s id node =
      let rest = delete id (set_at node.level s.node_levels) in
      record s {
        nodes = assign id (record node { active = false }) s.nodes;
        node_levels =
            if is_empty rest
            then erase node.level s.node_levels
            else assign node.level rest s.node_levels;
      }

  unfoldable pub remove : HnswIndex R → ℕ → HnswIndex R
  remove s id = elim s.entry_point [
    | none ↦ s
    | some entry_point ↦ elim (find id s.nodes) [
      | none ↦ s
      | some node ↦
          if node.active
          then (let s' = deactivate s id node in
              if nat_beq id entry_point then choose_entry s' s.levels else s')
          else s
    ]
  ]

  -- "Greedy descent from the highest level": an empty level ends the search.
  unfoldable pub search_down : HnswIndex R → Vector R → ℕ → ℕ → ℕ → Option (List ℕ)
  search_down s query ef_search zero entry_point =
      search_level s query (some entry_point) ef_search 0
  search_down s query ef_search (suc l) entry_point = do
    nearest ← search_level s query (some entry_point) ef_search (suc l)
    (if is_empty nearest
        then some []
        else search_down s query ef_search l (first_or nearest entry_point))

  unfoldable pub search : HnswIndex R → Vector R → ℕ → ℕ → Option (List ℕ)
  search s query k ef_search = elim s.entry_point [
    | none ↦ some []
    | some entry_point ↦ do
      results ← search_down s query ef_search (s.levels - 1) entry_point
      some (take k results)
  ]

module _ {R : Type 0} ⦃f : Float R⦄ ⦃source : LevelSource R⦄ where
  unfoldable pub insert_no_lock : HnswIndex R → ℕ → Vector R → Option (HnswIndex R)
  insert_no_lock s id vector =
      if not (nat_beq (length vector) s.config.vector_dimensionality) || contains id s.nodes
      then some s
      else insert_at s id vector (source.random_level s.config.ml id)

  -- Insert has the text of InsertNoLock under the lock.
  unfoldable pub insert : HnswIndex R → ℕ → Vector R → Option (HnswIndex R)
  unfolding insert_no_lock
  insert s id vector = insert_no_lock s id vector

  unfoldable pub insert_each : HnswIndex R → Map ℕ (Node R) → Option (HnswIndex R)
  insert_each s [] = some s
  insert_each s ((id, node) ∷ rest) = do s' ← insert_no_lock s id node.vector; insert_each s' rest

  unfoldable pub reindex : HnswIndex R → Option (HnswIndex R)
  reindex s = insert_each (create s.config) s.nodes

  instance abbrev pub hnsw_index : VectorIndex R (HnswIndex R)
  hnsw_index = record {
    insert = insert;
    remove = remove;
    search = search;
    cleanup = cleanup;
    reindex = reindex;
  }
