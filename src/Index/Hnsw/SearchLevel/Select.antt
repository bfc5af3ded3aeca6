-- ===== src/Index/Hnsw/SearchLevel/Select.antt =====
-- SelectNeighbors among nodes: active ones of the candidates, no more than allowed.
use vector_database.Prelude.{
  ℕ, ◌≤◌, ◌≡◌, refl, true, some, List, [], ◌∷◌, map, length, take, nat_eq, arith, All, All-take,
  All-map, Bool-cases, Option-cases, inl, inr, length-take, length-map,
}
use vector_database.Prelude.Map.{find, contains}
use vector_database.Prelude.Set.{member}
use vector_database.Float.{Float, Vector}
use vector_database.Index.Nearest.{Pair, sort}
use vector_database.Index.Nearest.Order.{All-sort_into}
use vector_database.Index.Hnsw.{HnswIndex, is_live}
use vector_database.Index.Hnsw.SearchLevel.{max_neighbors, measured, measure_all, select_neighbors}

module _ {R : Type 0} ⦃f : Float R⦄ where
  measure_all_total :
      (s : HnswIndex R) (query : Vector R) (candidates ids : List ℕ)
      → ((id : ℕ) → member id ids ≡ true → contains id s.nodes ≡ true)
      → ((id : ℕ) → member id ids ≡ true → member id candidates ≡ true)
      → (ps : List (Pair R)) × (measure_all s query ids ≡ some ps)
        × All (λ p. (is_live s.nodes p.1 ≡ true) × (member p.1 candidates ≡ true)) ps
  unfolding measure_all member
  measure_all_total s query candidates [] present within = ([], refl, tt)
  measure_all_total s query candidates (id ∷ ids) present within =
      let (ps, e, h) =
        measure_all_total s query candidates ids (λ b m. present b (ground arith))
          (λ b m. within b (ground arith)) in
      elim (Option-cases (find id s.nodes)) [
        | inl missing ↦ absurd (ground (arith, present id))
        | inr (node, found) ↦ elim (Bool-cases node.active) [
          | inl active ↦ (
            measured s query id node ∷ ps,
            rw (found, e, active),
            ((ground arith, within id (ground arith)), h),
          )
          | inr inactive ↦ (ps, rw (found, e, inactive), h)
        ]
      ]

  pub select_neighbors_total :
      (s : HnswIndex R) (query : Vector R) (candidates : List ℕ) (level : ℕ)
      → ((id : ℕ) → member id candidates ≡ true → contains id s.nodes ≡ true)
      → (chosen : List ℕ) × (select_neighbors s query candidates level ≡ some chosen)
        × (length chosen ≤ max_neighbors s level)
        × All (λ id. (is_live s.nodes id ≡ true) × (member id candidates ≡ true)) chosen
  unfolding select_neighbors sort
  select_neighbors_total s query candidates level present =
      let (ps, e, h) = measure_all_total s query candidates candidates present (λ id m. m) in
      let Chosen = λ (id : ℕ). (is_live s.nodes id ≡ true) × (member id candidates ≡ true) in
      let best = take (max_neighbors s level) (sort ps) in
      (
        map (λ p. p.1) best,
        rw e,
        omega (
          arith,
          length-map (λ (p : Pair R). p.1) best,
          length-take (max_neighbors s level) (sort ps),
        ),
        All-map Chosen (λ p. p.1) best
            (All-take (λ p. Chosen p.1) (max_neighbors s level) (sort ps)
              (All-sort_into (λ p. Chosen p.1) [] ps tt h)),
      )
