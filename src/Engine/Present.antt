-- ===== src/Engine/Present.antt =====
-- What a write of the engine finds of a table that is there.
use vector_database.Prelude.{
  ◌≡◌, true, some, List, if◌then◌else◌, Text, text_eq, text_beq_iff, nat_eq, arith, Option-cases,
  inl, inr, ◌==◌,
}
use vector_database.Prelude.Map.{find, assign, contains, find-assign}
use vector_database.Float.{Float}
use vector_database.Index.Any.{AnyIndex, any_index, any_view}
use vector_database.Index.Hnsw.{LevelSource}
use vector_database.Store.{VectorStore}
use vector_database.Stats.{StatsManager}
use vector_database.Metrics.{Metrics}
use vector_database.Engine.{Disk, Engine}
use vector_database.Engine.Running.{IsRunning}

-- A table that is not written stays as it is.
pub kept :
    {A : Type 0} (n m : Text) (a : A) (o : List (Text × A))
    → find n o ≡ some a
    → find m o ≡ (if n == m then some a else find m o)
kept n m a o e = ground (arith, text_beq_iff n m)

pub contains-assign_present :
    {A : Type 0} (n m : Text) (a b : A) (o : List (Text × A))
    → find n o ≡ some b
    → contains m (assign n a o) ≡ contains m o
contains-assign_present n m a b o e = ground (arith, find-assign n m a o, text_beq_iff n m)

module _ {R D : Type 0} ⦃f : Float R⦄ ⦃source : LevelSource R⦄ ⦃disk : Disk R D⦄ where
  -- the three things that a write needs of a table
  pub record Table (s : Engine R D) (n : Text) : Type 0 where
    pub store : VectorStore R (AnyIndex R)
    pub stats : StatsManager
    pub metrics : Metrics R
    pub found_store : find n s.store_map ≡ some store
    pub found_stats : find n s.stats_manager_map ≡ some stats
    pub found_metrics : find n s.metrics_manager_map ≡ some metrics

  pub Table-of :
      (s : Engine R D) (n : Text) → IsRunning s → contains n s.store_map ≡ true → Table s n
  Table-of s n h here = elim (Option-cases (find n s.store_map)) [
    | inl absent ↦ absurd (ground arith)
    | inr (store, e) ↦ elim (Option-cases (find n s.stats_manager_map)) [
      | inl absent ↦ absurd (ground (arith, h.stats_there n))
      | inr (stats, e') ↦ elim (Option-cases (find n s.metrics_manager_map)) [
        | inl absent ↦ absurd (ground (arith, h.metrics_there n))
        | inr (metrics, e'') ↦ record {
          store = store;
          stats = stats;
          metrics = metrics;
          found_store = e;
          found_stats = e';
          found_metrics = e'';
        }
      ]
    ]
  ]
