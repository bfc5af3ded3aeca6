-- ===== src/Index/Distance.antt =====
-- ComputeDistance, which engine/src/index/flat_index.cc and hnsw_index.cc both hold.
use vector_database.Prelude.{◌∷◌, length, nat_beq, if◌then◌else◌}
use vector_database.Float.{Float, Vector}

pub data DistanceMetric : Type 0 where
  l2 cosine : DistanceMetric

module _ {R : Type 0} ⦃f : Float R⦄ where
  -- the loop of the L2 branch, `acc` being `distance`
  squares : R → Vector R → Vector R → R
  squares acc (x ∷ xs) (y ∷ ys) =
      let diff = f.sub x y in squares (f.add acc (f.mul diff diff)) xs ys
  squares acc _ _ = acc

  -- one sum of products of the Cosine branch
  products : R → Vector R → Vector R → R
  products acc (x ∷ xs) (y ∷ ys) = products (f.add acc (f.mul x y)) xs ys
  products acc _ _ = acc

  cosine_distance : Vector R → Vector R → R
  unfolding products
  cosine_distance a b =
      let dot_product = products f.zero a b in
      let denominator = f.mul (f.sqrt (products f.zero a a)) (f.sqrt (products f.zero b b)) in
      if f.eq denominator f.zero then f.one else f.sub f.one (f.div dot_product denominator)

  unfoldable pub compute_distance : DistanceMetric → Vector R → Vector R → R
  unfolding squares cosine_distance
  compute_distance metric a b =
      if nat_beq (length a) (length b)
      then elim metric [
        | DistanceMetric.l2 ↦ f.sqrt (squares f.zero a b)
        | DistanceMetric.cosine ↦ cosine_distance a b
      ]
      else f.infinity
