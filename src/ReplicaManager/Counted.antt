-- ===== src/ReplicaManager/Counted.antt =====
-- Sync of a table clears its modified flag only when each replica counted the whole log.
use vector_database.Prelude.{
  ◌≡◌, Bool, false, some, List, ◌∷◌, if◌then◌else◌, Text, text_eq, nat_eq,
}
use vector_database.Prelude.Map.{find, assign}
use vector_database.Float.{Float}
use vector_database.Index.Any.{AnyIndex}
use vector_database.Store.{IndexType, VectorStore}
use vector_database.Stats.{StatsManager, set_modified_flag}
use vector_database.Engine.{Engine}
use vector_database.Persistence.Stream.{FloatText}
use vector_database.Persistence.Wal.Lines.{FloatTextLaws}
use vector_database.Recovery.{Directory, log_text}
use vector_database.ReplicaManager.{
  Network, Attempt, ReplicaManager, offset_at, with_offset, attempts, retries, sync_replicas,
  sync_table,
}

module _ {R W : Type 0} ⦃f : Float R⦄ ⦃text : FloatText R⦄ ⦃net : Network R W⦄
    (laws : FloatTextLaws R) where
  pub sync_replicas-step :
      (index_type : IndexType) (table replica file : Text) (store : VectorStore R (AnyIndex R))
      (rest : List Text) (m : ReplicaManager W) (failed : Bool) (a : Attempt W)
      → attempts index_type table replica file store retries (record {
        network = m.network;
        offset = offset_at m table replica;
        failed = failed;
        done = false;
      })
        ≡ some a
      → sync_replicas index_type table file store (replica ∷ rest) m failed
        ≡ sync_replicas index_type table file store rest
            (record (with_offset m table replica a.offset) { network = a.network })
            a.failed
  unfolding sync_replicas
  sync_replicas-step index_type table replica file store rest m failed a e = rw e

module _ {R B : Type 0} where
  -- the state after Sync of a table, where the loops answered
  abbrev pub synced : Engine R (Directory B) → Text → StatsManager → Bool → Engine R (Directory B)
  synced s table stats failed = if failed then s else record s {
    stats_manager_map = assign table (set_modified_flag stats false) s.stats_manager_map;
  }

module _ {R W B : Type 0} ⦃f : Float R⦄ ⦃text : FloatText R⦄ ⦃net : Network R W⦄
    (laws : FloatTextLaws R) where
  pub sync_table-step :
      (s : Engine R (Directory B)) (m m' : ReplicaManager W) (table file : Text)
      (index_type : IndexType) (store : VectorStore R (AnyIndex R)) (stats : StatsManager)
      (failed : Bool)
      → find table s.store_map ≡ some store
      → find table s.stats_manager_map ≡ some stats
      → log_text s.disk table ≡ file
      → sync_replicas index_type table file store m.replicas m false ≡ some (m', failed)
      → sync_table s m table index_type ≡ some (synced s table stats failed, m')
  unfolding sync_table
  sync_table-step s m m' table file index_type store stats failed there counters log e =
      rw (sync_table, there, log, e, counters)
