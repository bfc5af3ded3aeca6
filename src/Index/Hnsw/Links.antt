-- ===== src/Index/Hnsw/Links.antt =====
-- How the writes of the index change its links.
use vector_database.Prelude.{
  ℕ, ◌≡◌, refl, ap, ◌∙◌, true, ◌&&◌, ◌||◌, Option, none, some, List, [], if◌then◌else◌, nat_eq,
  nat_beq, nat_beq_iff, arith,
}
use vector_database.Prelude.Map.{Map, find, assign, contains, find-assign, IsMap, IsMap-assign}
use vector_database.Prelude.Set.{member}
use vector_database.Index.Hnsw.{
  Node, HnswIndex, set_at, node_or_blank, or_blank, links, set_links, is_live,
}

pub set_at-assign :
    (l k : ℕ) (ids : List ℕ) (sets : Map ℕ (List ℕ))
    → set_at k (assign l ids sets) ≡ (if nat_beq l k then ids else set_at k sets)
unfolding set_at
set_at-assign l k ids sets = ground (arith, find-assign l k ids sets)

module _ {R : Type 0} where
  -- Links lead to nodes.
  abbrev pub IsClosed : HnswIndex R → Type 0
  IsClosed s = (l a b : ℕ) → member b (links s l a) ≡ true → contains b s.nodes ≡ true

  pub links_of_find :
      (s : HnswIndex R) (level id : ℕ) (node : Node R)
      → find id s.nodes ≡ some node
      → links s level id ≡ set_at level node.neighbors
  unfolding links
  links_of_find s level id node e = ap (λ o. set_at level (or_blank o).neighbors) e

  -- A write of one set changes that set alone.
  pub links-set_links :
      (s : HnswIndex R) (l a k b : ℕ) (ids : List ℕ)
      → links (set_links s l a ids) k b ≡ (if nat_beq a b && nat_beq l k then ids else links s k b)
  unfolding links set_links
  links-set_links s l a k b ids = ground (
    arith,
    find-assign a b
        (record (node_or_blank s a) { neighbors = assign l ids (node_or_blank s a).neighbors })
        s.nodes,
    set_at-assign l k ids (node_or_blank s a).neighbors,
    nat_beq_iff a b,
  )

  -- A write keeps the nodes apart from their links, where the node is there.
  pub contains-set_links :
      (s : HnswIndex R) (l a b : ℕ) (ids : List ℕ)
      → contains b (set_links s l a ids).nodes ≡ (nat_beq a b || contains b s.nodes)
  unfolding set_links
  contains-set_links s l a b ids = ground (
    arith,
    find-assign a b
        (record (node_or_blank s a) { neighbors = assign l ids (node_or_blank s a).neighbors })
        s.nodes,
  )

module _ {R : Type 0} where
  -- what a node is apart from its links
  abbrev pub core_at : HnswIndex R → ℕ → Option (Node R)
  core_at s id = elim (find id s.nodes) [
    | none ↦ none
    | some node ↦ some (record node { neighbors = [] })
  ]

  -- The indexes differ in links alone.
  pub record SameNodes (s t : HnswIndex R) : Type 0 where
    pub config : t.config ≡ s.config
    pub node_levels : t.node_levels ≡ s.node_levels
    pub levels : t.levels ≡ s.levels
    pub entry_point : t.entry_point ≡ s.entry_point
    pub cores : (id : ℕ) → core_at t id ≡ core_at s id
    pub keyed : IsMap s.nodes → IsMap t.nodes

  pub SameNodes-refl : (s : HnswIndex R) → SameNodes s s
  SameNodes-refl s = record {
    config = refl;
    node_levels = refl;
    levels = refl;
    entry_point = refl;
    cores = λ id. refl;
    keyed = λ h. h;
  }

  pub SameNodes-trans : {s t u : HnswIndex R} → SameNodes s t → SameNodes t u → SameNodes s u
  SameNodes-trans h k = record {
    config = k.config ∙ h.config;
    node_levels = k.node_levels ∙ h.node_levels;
    levels = k.levels ∙ h.levels;
    entry_point = k.entry_point ∙ h.entry_point;
    cores = λ id. k.cores id ∙ h.cores id;
    keyed = λ m. k.keyed (h.keyed m);
  }

  pub contains-SameNodes :
      (s t : HnswIndex R) (id : ℕ) → SameNodes s t → contains id t.nodes ≡ contains id s.nodes
  contains-SameNodes s t id h = ground (arith, h.cores id)

  pub is_live-SameNodes :
      (s t : HnswIndex R) (id : ℕ) → SameNodes s t → is_live t.nodes id ≡ is_live s.nodes id
  is_live-SameNodes s t id h = ground (arith, h.cores id)

  pub set_links-SameNodes :
      (s : HnswIndex R) (l a : ℕ) (ids : List ℕ)
      → contains a s.nodes ≡ true
      → SameNodes s (set_links s l a ids)
  unfolding set_links
  set_links-SameNodes s l a ids h = record {
    config = refl;
    node_levels = refl;
    levels = refl;
    entry_point = refl;
    cores = λ id. ground (
      arith,
      find-assign a id
          (record (node_or_blank s a) { neighbors = assign l ids (node_or_blank s a).neighbors })
          s.nodes,
      nat_beq_iff a id,
    );
    keyed =
        IsMap-assign a
          (record (node_or_blank s a) { neighbors = assign l ids (node_or_blank s a).neighbors })
          s.nodes;
  }
