-- ===== src/Index/Hnsw/SearchLevel.antt =====
-- HNSWIndex::SearchLevel and SelectNeighbors: the greedy search on one level.
pub mod Count
pub mod Select
pub mod Total
use vector_database.Prelude.{
  ℕ, zero, suc, ◌+◌, ◌≡◌, Bool, true, false, not, ◌&&◌, ◌||◌, Option, none, some, List, [], ◌∷◌,
  map, reverse, length, drop, take, ltb, nat_beq, if◌then◌else◌, nat_eq, ◌>>=◌,
}
use vector_database.Prelude.Map.{Map, find}
use vector_database.Prelude.Set.{member, insert}
use vector_database.Float.{Float, Vector}
use vector_database.Index.Distance.{compute_distance}
use vector_database.Index.Nearest.{Pair, push, push_least, sort}
use vector_database.Index.Hnsw.{HnswIndexConfig, Node, HnswIndex, set_at}

-- The local variables of the loop: a queue with its least on top, one with its greatest on top.
pub record Exploration (R : Type 0) : Type 0 where
  pub candidates : List (Pair R)
  pub top_ef : List (Pair R)
  pub visited : List ℕ

abbrev pub max_neighbors : {R : Type 0} → HnswIndex R → ℕ → ℕ
max_neighbors s level = if nat_beq level 0 then s.config.m0 else s.config.m

module _ {R : Type 0} ⦃f : Float R⦄ (s : HnswIndex R) (query : Vector R) where
  -- the distance of a node, beside its identifier
  abbrev pub measured : ℕ → Node R → Pair R
  measured id node = (compute_distance s.config.metric query node.vector, id)

  -- the body of the loop over the neighbors
  unfoldable pub visit : Exploration R → ℕ → Option (Exploration R)
  visit x neighbor = if member neighbor x.visited then some x else do
    node ← find neighbor s.nodes
    some (
        if node.active
        then record x {
          candidates = push_least (measured neighbor node) x.candidates;
          visited = insert neighbor x.visited;
        }
        else x)

  unfoldable pub visit_all : Exploration R → List ℕ → Option (Exploration R)
  visit_all x [] = some x
  visit_all x (neighbor ∷ rest) = do x' ← visit x neighbor; visit_all x' rest

  -- distance > top_ef.top().first
  abbrev pub is_farther : Pair R → List (Pair R) → Bool
  is_farther p [] = false
  is_farther p (top ∷ _) = f.lt top.0 p.0

  -- the while loop; `none` also where the fuel ends
  unfoldable pub explore : ℕ → ℕ → ℕ → Exploration R → Option (Exploration R)
  explore ef level zero x = none
  explore ef level (suc fuel) x = elim x.candidates [
    | [] ↦ some x
    | p ∷ rest ↦
        let is_full = nat_beq (length x.top_ef) ef in
        if is_full && is_farther p x.top_ef then some (record x { candidates = rest }) else do
          node ← find p.1 s.nodes
          x' ←
              visit_all
                (record x {
                  candidates = rest;
                  top_ef = push p (if is_full then drop 1 x.top_ef else x.top_ef);
                })
                (set_at level node.neighbors)
          explore ef level fuel x'
  ]

  abbrev pub begin : ℕ → Node R → Exploration R
  begin entry_point node = record {
    candidates = measured entry_point node ∷ [];
    top_ef = [];
    visited = entry_point ∷ [];
  }

  -- Every node is a candidate once at most, so the fuel is enough.
  unfoldable pub search_level : Option ℕ → ℕ → ℕ → Option (List ℕ)
  search_level none ef level = some []
  search_level (some entry_point) ef level = if nat_beq ef 0 then some [] else do
    node ← find entry_point s.nodes
    x ← explore ef level (suc (suc (length s.nodes))) (begin entry_point node)
    some (reverse (map (λ p. p.1) x.top_ef))

  -- the first loop of SelectNeighbors
  unfoldable pub measure_all : List ℕ → Option (List (Pair R))
  measure_all [] = some []
  measure_all (id ∷ rest) = do
    node ← find id s.nodes
    ps ← measure_all rest
    some (if node.active then measured id node ∷ ps else ps)

  unfoldable pub select_neighbors : List ℕ → ℕ → Option (List ℕ)
  select_neighbors candidates level = do
    ps ← measure_all candidates
    some (map (λ p. p.1) (take (max_neighbors s level) (sort ps)))
