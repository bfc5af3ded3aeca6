-- ===== src/Persistence/Snapshot/Reload.antt =====
-- An index that was saved and loaded again stands for the same vectors, and stays sound.
use vector_database.Prelude.{
  ℕ, ◌+◌, ◌≡◌, refl, ap, sym, ◌∙◌, false, none, some, List, [], ◌∷◌, is_empty, nat_eq, arith,
  Option-cases, inl, inr,
}
use vector_database.Prelude.Map.{Map, find, contains, IsMap}
use vector_database.Prelude.Set.{
  member, insert, insert_all, member-insert_all, length-insert_all-le, is_empty-insert,
}
use vector_database.Float.{Float}
use vector_database.Index.Flat.{FlatIndex}
use vector_database.Index.Hnsw.{
  Node, HnswIndex, LevelSource, set_at, or_blank, links, is_live, load,
}
use vector_database.Index.Hnsw.Valid.{IsValid, level_of, vector_at}
use vector_database.Index.Hnsw.Update.Graph.{IsGraph}
use vector_database.Index.Hnsw.Laws.{IsSound as HnswSound}
use vector_database.Index.Hnsw.Valid.Reindex.{fits}
use vector_database.Persistence.Snapshot.{
  map_values, save_node, load_node, save_hnsw, load_hnsw, save_flat, load_flat,
}

pub find-map_values :
    {A B : Type 0} (f : A → B) (k : ℕ) (m : Map ℕ A)
    → find k (map_values f m) ≡ elim (find k m) [ none ↦ none | some a ↦ some (f a) ]
unfolding find map_values
find-map_values f k [] = refl
find-map_values f k ((j, a) ∷ m) = ground (arith, find-map_values f k m)

pub map_values-IsMap : {A B : Type 0} (f : A → B) (m : Map ℕ A) → IsMap m → IsMap (map_values f m)
unfolding map_values
map_values-IsMap f [] h = tt
map_values-IsMap f ((k, a) ∷ m) h =
    (ground (arith, find-map_values f k m), map_values-IsMap f m h.1)

-- A set keeps its elements, and an empty one stays empty.
set_at-reload :
    (k : ℕ) (sets : Map ℕ (List ℕ))
    → set_at k (map_values (insert_all []) (map_values (λ ids. ids) sets))
      ≡ insert_all [] (set_at k sets)
unfolding set_at insert_all
set_at-reload k sets = ground (
  arith,
  find-map_values (insert_all []) k (map_values (λ ids. ids) sets),
  find-map_values (λ (ids : List ℕ). ids) k sets,
)

member-reload : (b : ℕ) (ids : List ℕ) → member b (insert_all [] ids) ≡ member b ids
unfolding member
member-reload b ids = member-insert_all b [] ids

is_empty-insert_all : (ids s : List ℕ) → is_empty s ≡ false → is_empty (insert_all s ids) ≡ false
unfolding insert_all
is_empty-insert_all [] s h = h
is_empty-insert_all (x ∷ ids) s h = is_empty-insert_all ids (insert x s) (is_empty-insert x s)

is_empty-reload : (ids : List ℕ) → is_empty ids ≡ false → is_empty (insert_all [] ids) ≡ false
unfolding insert_all
is_empty-reload [] h = cc
is_empty-reload (x ∷ ids) h = is_empty-insert_all ids (insert x []) (is_empty-insert x [])

map_values_self : {A : Type 0} (m : Map ℕ A) → map_values (λ a. a) m ≡ m
unfolding map_values
map_values_self [] = refl
map_values_self ((k, a) ∷ m) = ap (λ rest. (k, a) ∷ rest) (map_values_self m)

module _ {R : Type 0} where
  abbrev pub reload : HnswIndex R → HnswIndex R
  reload s = load_hnsw (save_hnsw s)

  -- what a node is after saving and loading
  find-reload :
      (s : HnswIndex R) (x : ℕ)
      → find x (reload s).nodes
        ≡ elim (find x s.nodes) [ none ↦ none | some node ↦ some (load_node (save_node node)) ]
  unfolding load_hnsw save_hnsw load
  find-reload s x = ground (
    arith,
    find-map_values load_node x (map_values save_node s.nodes),
    find-map_values save_node x s.nodes,
  )

  node_reload :
      (node : Node R)
      → load_node (save_node node) ≡ record node {
        neighbors = map_values (insert_all []) (map_values (λ ids. ids) node.neighbors);
      }
  unfolding load_node save_node
  node_reload node = refl

  neighbors-reload :
      (s : HnswIndex R) (x : ℕ)
      → (or_blank (find x (reload s).nodes)).neighbors
        ≡ map_values (insert_all []) (map_values (λ ids. ids) (or_blank (find x s.nodes)).neighbors)
  unfolding load_node save_node map_values
  neighbors-reload s x = elim (Option-cases (find x s.nodes)) [
    | inl absent ↦ rw (find-reload s x, absent)
    | inr (node, e) ↦ rw (find-reload s x, e)
  ]

  links-reload : (s : HnswIndex R) (k x : ℕ) → links (reload s) k x ≡ insert_all [] (links s k x)
  unfolding links
  links-reload s k x =
      ap (set_at k) (neighbors-reload s x) ∙ set_at-reload k (or_blank (find x s.nodes)).neighbors

  live-reload : (s : HnswIndex R) (x : ℕ) → is_live (reload s).nodes x ≡ is_live s.nodes x
  unfolding load_node save_node
  live-reload s x = ground (arith, find-reload s x)

  level_of-reload : (s : HnswIndex R) (x : ℕ) → level_of (reload s) x ≡ level_of s x
  unfolding load_node save_node
  level_of-reload s x = ground (arith, find-reload s x)

  pub vector_at-reload : (s : HnswIndex R) (x : ℕ) → vector_at (reload s) x ≡ vector_at s x
  unfolding load_node save_node
  vector_at-reload s x = ground (arith, find-reload s x)

  pub contains-reload : (s : HnswIndex R) (x : ℕ) → contains x (reload s).nodes ≡ contains x s.nodes
  contains-reload s x = ground (arith, find-reload s x)

  IsGraph-reload : (s : HnswIndex R) → IsGraph s → IsGraph (reload s)
  IsGraph-reload s g = record {
    closed = λ l a b m.
        contains-reload s b
        ∙ g.closed l a b
            (sym (member-reload b (links s l a)) ∙ ap (member b) (sym (links-reload s l a)) ∙ m);
    symmetric = λ l a b.
        rw (links-reload s l a, links-reload s l b)
          (member-reload b (links s l a) ∙ g.symmetric l a b ∙ sym (member-reload a (links s l b)));
    irreflexive =
        λ l a. rw (links-reload s l a) (member-reload a (links s l a) ∙ g.irreflexive l a);
  }

  pub config-reload : (s : HnswIndex R) → (reload s).config ≡ s.config
  unfolding load_hnsw save_hnsw load
  config-reload s = refl

  levels-reload : (s : HnswIndex R) → (reload s).levels ≡ s.levels
  unfolding load_hnsw save_hnsw load
  levels-reload s = refl

  entry_point-reload :
      (s : HnswIndex R) (e : ℕ) → s.entry_point ≡ some e → (reload s).entry_point ≡ some e
  unfolding load_hnsw save_hnsw load
  entry_point-reload s e has = rw has

  keyed-reload : (s : HnswIndex R) → IsMap s.nodes → IsMap (reload s).nodes
  unfolding load_hnsw save_hnsw load
  keyed-reload s h = map_values-IsMap load_node _ (map_values-IsMap save_node s.nodes h)

  node_levels-reload :
      (s : HnswIndex R) (k : ℕ)
      → set_at k (reload s).node_levels ≡ insert_all [] (set_at k s.node_levels)
  unfolding load_hnsw save_hnsw load
  node_levels-reload s k = set_at-reload k s.node_levels

  no_empty-reload :
      (s : HnswIndex R) (k : ℕ) (ids : List ℕ)
      → ((old : List ℕ) → find k s.node_levels ≡ some old → is_empty old ≡ false)
      → find k (reload s).node_levels ≡ some ids
      → is_empty ids ≡ false
  unfolding load_hnsw save_hnsw load
  no_empty-reload s k ids h e = elim (Option-cases (find k s.node_levels)) [
    | inl absent ↦ absurd (
        ground (
          arith,
          find-map_values (insert_all []) k (map_values (λ ids. ids) s.node_levels),
          find-map_values (λ (ids : List ℕ). ids) k s.node_levels,
        ))
    | inr (old, e') ↦ ground (
      arith,
      find-map_values (insert_all []) k (map_values (λ ids. ids) s.node_levels),
      find-map_values (λ (ids : List ℕ). ids) k s.node_levels,
      is_empty-reload old,
      h old,
    )
  ]

  -- An index with an entry point is as valid as before.
  pub reload-IsValid :
      (s : HnswIndex R) (e : ℕ) → s.entry_point ≡ some e → IsValid s → IsValid (reload s)
  reload-IsValid s e has v = record {
    keyed = keyed-reload s v.keyed;
    graph = IsGraph-reload s v.graph;
    bounded = λ k x.
        rw (links-reload s k x, config-reload s)
          (omega (arith, length-insert_all-le [] (links s k x), v.bounded k x));
    entry_live =
        λ x p. live-reload s x ∙ v.entry_live x (has ∙ sym (entry_point-reload s e has) ∙ p);
    entry_level = λ x p.
        ap (λ l. l + 1) (level_of-reload s x)
        ∙ v.entry_level x (has ∙ sym (entry_point-reload s e has) ∙ p)
        ∙ sym (levels-reload s);
    no_entry = λ p. absurd (ground (arith, entry_point-reload s e has));
    no_levels = λ p. absurd (ground (arith, entry_point-reload s e has));
    below =
        λ x p. rw (level_of-reload s x, levels-reload s) (v.below x (sym (live-reload s x) ∙ p));
    filed = λ k x.
        rw (live-reload s x, level_of-reload s x)
          (ap (member x) (node_levels-reload s k)
            ∙ member-reload x (set_at k s.node_levels)
            ∙ v.filed k x);
    no_empty = λ k ids p. no_empty-reload s k ids (v.no_empty k) p;
  }

  -- A flat index comes back as it was.
  pub reload_flat : (s : FlatIndex R) → load_flat (save_flat s) ≡ s
  unfolding load_flat save_flat vector_database.Index.Flat.load
  reload_flat s =
      ap (λ vs. record s { vectors = vs })
        (map_values_self (map_values (λ a. a) s.vectors) ∙ map_values_self s.vectors)

module _ {R : Type 0} ⦃f : Float R⦄ ⦃source : LevelSource R⦄ where
  pub reload-HnswSound :
      (s : HnswIndex R) (e : ℕ) → s.entry_point ≡ some e → HnswSound s → HnswSound (reload s)
  reload-HnswSound s e has h = record {
    valid = reload-IsValid s e has h.valid;
    sized = λ x w p.
        ap (λ c. fits c w) (config-reload s) ∙ h.sized x w (sym (vector_at-reload s x) ∙ p);
  }
