-- ===== src/Tests/Batches.antt =====
-- The theorems of BatchSearch at an engine with one table.
use vector_database.Prelude.{ℕ, ◌≡◌, refl, true, false, some, List, [], ◌∷◌, text_eq, nat_eq, arith}
use vector_database.Prelude.Map.{find, assign}
use vector_database.Store.{Data}
use vector_database.Cache.{LruCache, create}
use vector_database.Cache.Queue.{IsCache, queue}
use vector_database.Cache.Laws.{create-IsCache}
use vector_database.Validator.{validate_create_table}
use vector_database.Engine.{Engine}
use vector_database.Engine.Tables.{create_table, add_table}
use vector_database.Engine.Running.{IsRunning}
use vector_database.Engine.Batch.{FloatHash, Request, Measure, hash_key, admits_batch, batch_search}
use vector_database.Engine.Batch.Answers.{
  Answers, AnswersOr, batch_search-search, batch_search-cached,
}
use vector_database.Tests.Whole.{whole, thirds}
use vector_database.Tests.Engines.{Entries, listed, name, one_table, one_table-IsRunning}

-- numbers stand for floats, each its own hash
instance abbrev own_hash : FloatHash ℕ
own_hash = record { hash_float = λ x. x }

abbrev requests : List (Request ℕ)
requests = (5 ∷ 4 ∷ [], (1, 10)) ∷ (1 ∷ 1 ∷ [], (2, 10)) ∷ []

abbrev measures : List (Measure ℕ)
measures = Measure.latency 2 ∷ Measure.latency 3 ∷ Measure.finished ∷ Measure.finished ∷ []

abbrev uncached : Engine ℕ Entries
uncached = record one_table {
  metadata = record { primary = true; reindex_threshold = 1; use_cache = false };
}

uncached-IsRunning : IsRunning uncached
uncached-IsRunning = record {
  stats_there = one_table-IsRunning.stats_there;
  metrics_there = one_table-IsRunning.metrics_there;
  persistence_there = one_table-IsRunning.persistence_there;
  cache_there = one_table-IsRunning.cache_there;
  accounted = one_table-IsRunning.accounted;
}

batch_search-search_example :
    (u : Engine ℕ Entries) × (results : List (List (Data ℕ))) × (batch_search uncached name requests
        measures
      ≡ some (u, results))
    × IsRunning u
    × (admits_batch uncached name requests ≡ true → Answers uncached name requests results)
    × (admits_batch uncached name requests ≡ false → results ≡ [])
batch_search-search_example =
    batch_search-search uncached name requests measures uncached-IsRunning refl

abbrev four : LruCache (List (List (Data ℕ)))
four = record { cache = []; keys = []; max_cache_size = 4 }

four-IsCache : IsCache four
unfolding create
four-IsCache = create-IsCache 4

admitted : admits_batch one_table name requests ≡ true
unfolding create_table add_table validate_create_table find assign
admitted = refl

cached : one_table.metadata.use_cache ≡ true
unfolding create_table add_table validate_create_table find
cached = refl

found : find name one_table.cache_map ≡ some four
unfolding create_table add_table validate_create_table find assign create
found = refl

batch_search-cached_example :
    (u : Engine ℕ Entries) × (results : List (List (Data ℕ))) × (batch_search one_table name
        requests measures
      ≡ some (u, results))
    × IsRunning u
    × AnswersOr one_table name requests results (find (hash_key requests) (queue four))
    × ((cache' : LruCache (List (List (Data ℕ)))) × (find name u.cache_map ≡ some cache')
        × IsCache cache')
batch_search-cached_example =
    batch_search-cached one_table name requests measures four one_table-IsRunning admitted cached
      found four-IsCache (omega arith)
