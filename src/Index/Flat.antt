-- ===== src/Index/Flat.antt =====
-- engine/src/index/flat_index.cc: the exhaustive index. Its lock makes each operation one step.
pub mod Nearest
pub mod Search
pub mod Laws
use vector_database.Prelude.{
  ℕ, ◌≡◌, Bool, not, ◌||◌, Option, some, List, [], ◌∷◌, map, foldl, reverse, length, drop, ltb,
  nat_beq, if◌then◌else◌, nat_eq,
}
use vector_database.Prelude.Map.{Map, contains, assign, erase}
use vector_database.Float.{Float, Vector}
use vector_database.Index.{VectorIndex}
use vector_database.Index.Distance.{DistanceMetric, compute_distance}
use vector_database.Index.Nearest.{Pair, push}

pub record FlatIndexConfig : Type 0 where
  pub vector_dimensionality : ℕ
  pub metric : DistanceMetric

pub record FlatIndex (R : Type 0) : Type 0 where
  pub vectors : Map ℕ (Vector R)
  pub config : FlatIndexConfig

module _ {R : Type 0} where
  -- the two constructors
  unfoldable pub create : FlatIndexConfig → FlatIndex R
  create config = record { vectors = []; config = config }

  unfoldable pub load : FlatIndexConfig → Map ℕ (Vector R) → FlatIndex R
  load config vectors = record { vectors = vectors; config = config }

  unfoldable pub insert : FlatIndex R → ℕ → Vector R → FlatIndex R
  insert s id vector =
      if not (nat_beq (length vector) s.config.vector_dimensionality) || contains id s.vectors
      then s
      else record s { vectors = assign id vector s.vectors }

  unfoldable pub remove : FlatIndex R → ℕ → FlatIndex R
  remove s id = record s { vectors = erase id s.vectors }

module _ {R : Type 0} ⦃f : Float R⦄ where
  -- the body of the loop of Search: the queue keeps the k least
  unfoldable pub offer : ℕ → List (Pair R) → Pair R → List (Pair R)
  offer k top_k p =
      let top_k' = push p top_k in if ltb k (length top_k') then drop 1 top_k' else top_k'

  -- the pair that the loop makes of an entry
  unfoldable pub measured : FlatIndex R → Vector R → ℕ × Vector R → Pair R
  measured s query (id, vector) = (compute_distance s.config.metric query vector, id)

  unfoldable pub search : FlatIndex R → Vector R → ℕ → List ℕ
  search s query k =
      if nat_beq (length query) s.config.vector_dimensionality
      then reverse (map (λ p. p.1) (foldl (offer k) [] (map (measured s query) s.vectors)))
      else []

  -- Cleanup and Reindex do nothing.
  instance abbrev pub flat_index : VectorIndex R (FlatIndex R)
  flat_index = record {
    insert = λ s id vector. some (insert s id vector);
    remove = remove;
    search = λ s query k search_param. some (search s query k);
    cleanup = λ s. s;
    reindex = λ s. some s;
  }
