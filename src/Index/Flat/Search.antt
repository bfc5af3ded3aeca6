-- ===== src/Index/Flat/Search.antt =====
-- What FlatIndex::Search returns: the k nearest vectors, nearest first.
use mathlib.Core.List.{Perm}
use vector_database.Prelude.{
  ℕ, ◌-◌, ◌≡◌, ap, sym, ◌∙◌, true, List, [], ◌++◌, map, foldl, reverse, length, take, drop, nat_beq,
  arith, All, min, length-take, length-map, length-reverse, take-append-drop, take_sub_sub,
  drop-nil, map-reverse,
}
use vector_database.Float.{Float, Ordered, Vector}
use vector_database.Index.Nearest.{Pair, sort}
use vector_database.Index.Nearest.Order.{IsNumber, IsAscending, sort-IsAscending}
use vector_database.Index.Nearest.Sort.{sort-perm, length-sort}
use vector_database.Index.Flat.{FlatIndex, offer, measured, search}
use vector_database.Index.Flat.Nearest.{queue, foldl-offer, reverse-queue, reverse-drop}

module _ {R : Type 0} ⦃f : Float R⦄ (o : Ordered R) where
  -- The queue at the end of the loop, read from its far end.
  reverse-foldl-offer :
      (k : ℕ) (ps : List (Pair R))
      → All IsNumber ps
      → reverse (foldl (offer k) [] ps) ≡ take k (sort ps)
  unfolding sort
  reverse-foldl-offer k ps n =
      ap (λ acc. reverse (foldl (offer k) acc ps)) (sym (drop-nil (0 - k)))
      ∙ ap reverse (foldl-offer o k [] ps tt n tt)
      ∙ reverse-drop (length (queue [] ps) - k) (queue [] ps)
      ∙ ap (λ m. take (m - (m - k)) (reverse (queue [] ps))) (sym (length-reverse (queue [] ps)))
      ∙ take_sub_sub k (reverse (queue [] ps))
      ∙ ap (take k) (reverse-queue o [] ps tt n tt)

  -- Search with a query of the right dimension, where no distance is NaN, returns the identifiers of
  -- the min(k, n) nearest of the n vectors, nearest first: with the others in ascending order behind
  -- them, they are all the vectors.
  pub search-nearest :
      (s : FlatIndex R) (query : Vector R) (k : ℕ)
      → length query ≡ s.config.vector_dimensionality
      → All IsNumber (map (measured s query) s.vectors)
      → (near far : List (Pair R)) × (search s query k ≡ map (λ p. p.1) near)
        × (length near ≡ min k (length s.vectors))
        × Perm (near ++ far) (map (measured s query) s.vectors)
        × IsAscending (near ++ far)
  unfolding search
  search-nearest s query k h n =
      let ps = map (measured s query) s.vectors in
      let e : nat_beq (length query) s.config.vector_dimensionality ≡ true = ground arith in
      (
        take k (sort ps),
        drop k (sort ps),
        rw e (
            sym (map-reverse (λ p. p.1) (foldl (offer k) [] ps))
            ∙ ap (map (λ p. p.1)) (reverse-foldl-offer k ps n)),
        length-take k (sort ps)
            ∙ ap (min k) (length-sort ps ∙ length-map (measured s query) s.vectors),
        rw (take-append-drop k (sort ps)) (sort-perm ps),
        rw (take-append-drop k (sort ps)) (sort-IsAscending o ps n),
      )
