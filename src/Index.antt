-- ===== src/Index.antt =====
-- engine/include/index/vector_index.h: the abstract class `VectorIndex`, and what both indexes
-- compute distances with. A call that throws is `none`.
pub mod Distance
pub mod Nearest
pub mod Flat
pub mod Hnsw
pub mod Laws
pub mod Any
use vector_database.Prelude.{ℕ, Option, List}
use vector_database.Float.{Vector}

-- The virtual functions. `I` is the state of an index.
pub record VectorIndex (R I : Type 0) : Type 0 where
  pub insert : I → ℕ → Vector R → Option I
  pub remove : I → ℕ → I
  pub search : I → Vector R → ℕ → ℕ → Option (List ℕ)
  pub cleanup : I → I
  pub reindex : I → Option I
