-- ===== src/Tests/Indexes.antt =====
-- Runs of the indexes.
use vector_database.Prelude.{ℕ, Option, some, List, [], ◌∷◌, ◌>>=◌}
use vector_database.Index.Distance.{DistanceMetric}
use vector_database.Index.Hnsw.{HnswIndexConfig, HnswIndex, create}
use vector_database.Index.Hnsw.Update.{insert, remove, search, cleanup, reindex}
use vector_database.Tests.Whole.{whole, thirds}

abbrev config : HnswIndexConfig ℕ
config = record {
  m = 2;
  m0 = 4;
  ef_construction = 16;
  ml = 1;
  metric = DistanceMetric.l2;
  vector_dimensionality = 2;
}

build : Option (HnswIndex ℕ)
unfolding create insert remove search
build = do
  a ← insert (create config) 1 (5 ∷ 4 ∷ [])
  b ← insert a 2 (1 ∷ 1 ∷ [])
  c ← insert b 3 (9 ∷ 9 ∷ [])
  d ← insert c 4 (2 ∷ 7 ∷ [])
  e ← insert d 6 (4 ∷ 4 ∷ [])
  some e

found : Option (List ℕ)
unfolding build
found = do x ← build; search x (5 ∷ 5 ∷ []) 3 10

gone : Option (List ℕ)
unfolding build cleanup reindex
gone = do x ← build; y ← reindex (cleanup (remove (remove x 3) 1)); search y (5 ∷ 5 ∷ []) 9 10
