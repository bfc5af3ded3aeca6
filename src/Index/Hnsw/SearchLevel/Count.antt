-- ===== src/Index/Hnsw/SearchLevel/Count.antt =====
-- How many nodes a search has not visited yet.
use vector_database.Prelude.{
  ℕ, suc, ◌≤◌, ◌<◌, ◌≡◌, true, false, List, [], ◌∷◌, length, if◌then◌else◌, nat_eq, arith,
  nat_beq_iff,
}
use vector_database.Prelude.Map.{Map, find, contains}
use vector_database.Prelude.Set.{member, insert, member-insert}

module _ {V : Type 0} where
  abbrev pub unvisited : Map ℕ V → List ℕ → ℕ
  unvisited [] visited = 0
  unvisited ((id, v) ∷ m) visited =
      if member id visited then unvisited m visited else suc (unvisited m visited)

  unvisited-insert-le :
      (n : ℕ) (m : Map ℕ V) (visited : List ℕ)
      → unvisited m (insert n visited) ≤ unvisited m visited
  unvisited-insert-le n [] visited = omega arith
  unvisited-insert-le n ((id, v) ∷ m) visited =
      ground (arith, member-insert n id visited, unvisited-insert-le n m visited)

  -- A visit of a node that was not visited before.
  pub unvisited-insert :
      (n : ℕ) (m : Map ℕ V) (visited : List ℕ)
      → contains n m ≡ true
      → member n visited ≡ false
      → unvisited m (insert n visited) < unvisited m visited
  unfolding find
  unvisited-insert n [] visited h k = cc
  unvisited-insert n ((id, v) ∷ m) visited h k = ground (
    arith,
    member-insert n id visited,
    unvisited-insert-le n m visited,
    unvisited-insert n m visited,
    nat_beq_iff id n,
  )

  pub unvisited-le : (m : Map ℕ V) (visited : List ℕ) → unvisited m visited ≤ length m
  unvisited-le [] visited = omega arith
  unvisited-le ((id, v) ∷ m) visited = ground (arith, unvisited-le m visited)
