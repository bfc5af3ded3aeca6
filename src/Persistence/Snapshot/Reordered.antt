-- ===== src/Persistence/Snapshot/Reordered.antt =====
-- An index that is loaded from a message whose maps stand in another order.
use vector_database.Prelude.{
  ℕ, ◌+◌, ◌≡◌, refl, sym, ap, ◌∙◌, false, true, none, some, List, nat_eq, nat_beq, length, arith,
  Option, [], if◌then◌else◌, Bool,
}
use vector_database.Prelude.Map.{find, contains, IsMap}
use vector_database.Prelude.Set.{member, insert_all}
use vector_database.Float.{Float}
use vector_database.Index.Flat.{FlatIndex}
use vector_database.Index.Hnsw.{
  Node, HnswIndex, LevelSource, set_at, or_blank, links, is_live, load,
}
use vector_database.Index.Hnsw.SearchLevel.{max_neighbors}
use vector_database.Index.Hnsw.Valid.{IsValid, level_of, vector_at}
use vector_database.Index.Hnsw.Update.Graph.{IsGraph}
use vector_database.Index.Hnsw.Laws.{IsSound as HnswSound}
use vector_database.Index.Flat.Laws.{IsSound as FlatSound}
use vector_database.Index.Hnsw.Valid.Reindex.{fits}
use vector_database.Persistence.Messages.{StoredNode, HnswIndexSnapshot, FlatIndexSnapshot}
use vector_database.Persistence.Messages.Laws.{SameNodes, SameHnsw, SameFlat}
use vector_database.Persistence.Snapshot.{load_node, load_hnsw, load_flat}
use vector_database.Persistence.Snapshot.Reload.{find-map_values, map_values-IsMap}

module _ {R : Type 0} where
  -- Two indexes that answer alike.
  pub record Reordered (s t : HnswIndex R) : Type 0 where
    pub config : t.config ≡ s.config
    pub levels : t.levels ≡ s.levels
    pub entry_point : t.entry_point ≡ s.entry_point
    pub keyed : IsMap t.nodes
    pub linked : (k x : ℕ) → links t k x ≡ links s k x
    pub live : (x : ℕ) → is_live t.nodes x ≡ is_live s.nodes x
    pub level : (x : ℕ) → level_of t x ≡ level_of s x
    pub vector : (x : ℕ) → vector_at t x ≡ vector_at s x
    pub there : (x : ℕ) → contains x t.nodes ≡ contains x s.nodes
    pub sets : (k : ℕ) → find k t.node_levels ≡ find k s.node_levels

  set_at-sets :
      (s t : HnswIndex R) (k : ℕ)
      → find k t.node_levels ≡ find k s.node_levels
      → set_at k t.node_levels ≡ set_at k s.node_levels
  unfolding set_at
  set_at-sets s t k e = rw (set_at, e)

  Reordered-IsGraph : (s t : HnswIndex R) → Reordered s t → IsGraph s → IsGraph t
  Reordered-IsGraph s t h g = record {
    closed = λ l a b m. h.there b ∙ g.closed l a b (ap (member b) (sym (h.linked l a)) ∙ m);
    symmetric = λ l a b. rw (h.linked l a, h.linked l b) (g.symmetric l a b);
    irreflexive = λ l a. rw (h.linked l a) (g.irreflexive l a);
  }

  max_neighbors-config :
      (s t : HnswIndex R) (k : ℕ) → t.config ≡ s.config → max_neighbors t k ≡ max_neighbors s k
  max_neighbors-config s t k e = ap (λ c. if nat_beq k 0 then c.m0 else c.m) e

  pub Reordered-IsValid : (s t : HnswIndex R) → Reordered s t → IsValid s → IsValid t
  Reordered-IsValid s t h v = record {
    keyed = h.keyed;
    graph = Reordered-IsGraph s t h v.graph;
    bounded = λ k x. rw (h.linked k x, max_neighbors-config s t k h.config) (v.bounded k x);
    entry_live = λ x p. h.live x ∙ v.entry_live x (sym h.entry_point ∙ p);
    entry_level =
        λ x p. ap (λ l. l + 1) (h.level x) ∙ v.entry_level x (sym h.entry_point ∙ p) ∙ sym h.levels;
    no_entry = λ p x. h.live x ∙ v.no_entry (sym h.entry_point ∙ p) x;
    no_levels = λ p. h.levels ∙ v.no_levels (sym h.entry_point ∙ p);
    below = λ x p. rw (h.level x, h.levels) (v.below x (sym (h.live x) ∙ p));
    filed = λ k x.
        rw (h.live x, h.level x) (ap (member x) (set_at-sets s t k (h.sets k)) ∙ v.filed k x);
    no_empty = λ k ids p. v.no_empty k ids (sym (h.sets k) ∙ p);
  }

  -- what is loaded of the nodes under an identifier
  abbrev loaded : Option (StoredNode R) → Option (Node R)
  loaded o = elim o [ none ↦ none | some node ↦ some (load_node node) ]

  find-load_hnsw :
      (m : HnswIndexSnapshot R) (x : ℕ) → find x (load_hnsw m).nodes ≡ loaded (find x m.nodes)
  unfolding load_hnsw load
  find-load_hnsw m x = find-map_values load_node x m.nodes

  -- nodes that are the same but for the order of their levels
  record SameLoaded (o p : Option (Node R)) : Type 0 where
    vector :
        ◌≡◌ {A = Option (List R)}
          (elim p [ none ↦ none | some n ↦ if n.active then some n.vector else none ])
          (elim o [ none ↦ none | some n ↦ if n.active then some n.vector else none ])
    live :
        (elim p [ none ↦ false | some n ↦ n.active ])
        ≡ (elim o [ none ↦ false | some n ↦ n.active ])
    there :
        ◌≡◌ {A = Bool}
          (elim p [ none ↦ false | some n ↦ true ])
          (elim o [ none ↦ false | some n ↦ true ])
    level : (or_blank p).level ≡ (or_blank o).level
    linked : (k : ℕ) → set_at k (or_blank p).neighbors ≡ set_at k (or_blank o).neighbors

  set_at-loaded :
      (n n' : StoredNode R) (k : ℕ)
      → find k n'.neighbors ≡ find k n.neighbors
      → set_at k (load_node n').neighbors ≡ set_at k (load_node n).neighbors
  unfolding set_at load_node
  set_at-loaded n n' k e = ground (
    arith,
    find-map_values (insert_all []) k n'.neighbors,
    find-map_values (insert_all []) k n.neighbors,
    e,
  )

  same_loaded : (o p : Option (StoredNode R)) → SameNodes o p → SameLoaded (loaded o) (loaded p)
  unfolding load_node
  same_loaded none none h = record {
    vector = refl;
    live = refl;
    there = refl;
    level = refl;
    linked = λ k. refl;
  }
  same_loaded none (some n) h = absurd h
  same_loaded (some n) none h = absurd h
  same_loaded (some n) (some n') h = record {
    vector = ground (arith, h.vector, h.active);
    live = h.active;
    there = refl;
    level = h.level;
    linked = λ k. set_at-loaded n n' k (h.neighbors.same k);
  }

  pub load_hnsw-Reordered :
      (m m' : HnswIndexSnapshot R) → SameHnsw m m' → Reordered (load_hnsw m) (load_hnsw m')
  unfolding links load_hnsw load
  load_hnsw-Reordered m m' h =
      let fm = find-load_hnsw m in
      let fm' = find-load_hnsw m' in
      let q : (x : ℕ) → SameLoaded (loaded (find x m.nodes)) (loaded (find x m'.nodes)) =
        λ x. same_loaded (find x m.nodes) (find x m'.nodes) (h.nodes x) in
      record {
        config = λ i. record {
          m = h.m_same i;
          m0 = h.m0_same i;
          ef_construction = h.ef_construction i;
          ml = h.ml i;
          metric = h.metric i;
          vector_dimensionality = h.dimension i;
        };
        levels = h.levels;
        entry_point = ap some h.entry_point;
        keyed = map_values-IsMap load_node m'.nodes h.keyed;
        linked = λ k x.
            ap (λ o. set_at k (or_blank o).neighbors) (fm' x)
            ∙ (q x).linked k
            ∙ sym (ap (λ o. set_at k (or_blank o).neighbors) (fm x));
        live = λ x. ground (arith, fm x, fm' x, (q x).live);
        level = λ x.
            ap (λ o. (or_blank o).level) (fm' x)
            ∙ (q x).level
            ∙ sym (ap (λ o. (or_blank o).level) (fm x));
        vector = λ x. ground (arith, fm x, fm' x, (q x).vector);
        there = λ x. ground (arith, fm x, fm' x, (q x).there);
        sets = λ k.
            find-map_values (insert_all []) k m'.node_levels
            ∙ ap (λ o. elim o [ none ↦ none | some ids ↦ some (insert_all [] ids) ])
                (h.node_levels.same k)
            ∙ sym (find-map_values (insert_all []) k m.node_levels);
      }

  -- the same vectors in a flat index
  pub find-load_flat :
      (m m' : FlatIndexSnapshot R) (x : ℕ)
      → SameFlat m m'
      → find x (load_flat m').vectors ≡ find x (load_flat m).vectors
  unfolding load_flat vector_database.Index.Flat.load
  find-load_flat m m' x h = ground (
    arith,
    find-map_values (λ (v : List R). v) x m'.vectors,
    find-map_values (λ (v : List R). v) x m.vectors,
    h.vectors.same x,
  )

  pub config-load_flat :
      (m m' : FlatIndexSnapshot R) → SameFlat m m' → (load_flat m').config ≡ (load_flat m).config
  unfolding load_flat vector_database.Index.Flat.load
  config-load_flat m m' h =
      λ i. record { vector_dimensionality = h.dimension i; metric = h.metric i }

  keyed-load_flat : (m : FlatIndexSnapshot R) → IsMap m.vectors → IsMap (load_flat m).vectors
  unfolding load_flat vector_database.Index.Flat.load
  keyed-load_flat m h = map_values-IsMap (λ v. v) m.vectors h

module _ {R : Type 0} ⦃f : Float R⦄ ⦃source : LevelSource R⦄ where
  pub Reordered-HnswSound : (s t : HnswIndex R) → Reordered s t → HnswSound s → HnswSound t
  Reordered-HnswSound s t h v = record {
    valid = Reordered-IsValid s t h v.valid;
    sized = λ x w p. ap (λ c. fits c w) h.config ∙ v.sized x w (sym (h.vector x) ∙ p);
  }

module _ {R : Type 0} ⦃f : Float R⦄ where
  pub load_flat-FlatSound :
      (m m' : FlatIndexSnapshot R)
      → SameFlat m m'
      → FlatSound (load_flat m)
      → FlatSound (load_flat m')
  load_flat-FlatSound m m' h v = record {
    keyed = keyed-load_flat m' h.vectors.keyed;
    sized = λ x w p.
        ap (λ c. nat_beq (length w) c.vector_dimensionality) (config-load_flat m m' h)
        ∙ v.sized x w (sym (find-load_flat m m' x h) ∙ p);
  }
