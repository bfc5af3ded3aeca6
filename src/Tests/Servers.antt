-- ===== src/Tests/Servers.antt =====
-- The theorem of the server at an engine without tables, which requests make and fill.
use vector_database.Prelude.{ℕ, ◌≡◌, some, none, List, [], ◌∷◌, length, arith}
use vector_database.Prelude.Map.{find}
use vector_database.Engine.{Engine}
use vector_database.Engine.Tables.{IndexConfig}
use vector_database.Engine.Batch.{FloatHash, Measure}
use vector_database.Engine.Serving.{IsServing}
use vector_database.Server.{Request, Reply, Event, serve}
use vector_database.Server.Serving.{count_requests, serve-IsServing}
use vector_database.Tests.Whole.{whole, thirds}
use vector_database.Tests.Engines.{Entries, listed, name, no_tables, no_tables-IsRunning}
use vector_database.Tests.Graph.{graph_config}

-- numbers stand for floats, each its own hash
instance abbrev own_hash : FloatHash ℕ
own_hash = record { hash_float = λ x. x }

no_tables-IsServing : IsServing no_tables
unfolding find
no_tables-IsServing = record { running = no_tables-IsRunning; caches = λ used n cache. cc }

-- a table is made and filled, a removal is cleaned up, and a batch is asked twice
abbrev events : List (Event ℕ)
events =
    Event.request (Request.create_table name 2 (some (IndexConfig.hnsw graph_config)) 4)
    ∷ Event.request (Request.insert name 1 (5 ∷ 4 ∷ []) (97 ∷ []))
    ∷ Event.request (Request.batch_insert name ((2, (1 ∷ 1 ∷ [], 98 ∷ [])) ∷ []))
    ∷ Event.request (Request.remove name 1)
    ∷ Event.cleanup name 3
    ∷ Event.request (Request.batch_search name ((5 ∷ 4 ∷ [], (1, 10)) ∷ []) (Measure.finished ∷ []))
    ∷ Event.request (Request.batch_search name ((5 ∷ 4 ∷ [], (1, 10)) ∷ []) (Measure.finished ∷ []))
    ∷ Event.request (Request.create_table [] 2 none 4)
    ∷ Event.request (Request.stats [])
    ∷ Event.request Request.list_tables
    ∷ []

serve-IsServing_example :
    (u : Engine ℕ Entries) × (replies : List (Reply ℕ)) × (serve no_tables events
      ≡ some (u, replies))
    × IsServing u
    × (length replies ≡ count_requests events)
serve-IsServing_example =
    serve-IsServing no_tables events no_tables-IsServing
      (λ _. omega arith, (tt, (tt, (tt, (tt, (tt, (tt, (λ _. omega arith, (tt, (tt, tt))))))))))
