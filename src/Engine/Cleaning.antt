-- ===== src/Engine/Cleaning.antt =====
-- Cleanup of the engine: it never throws, and afterwards the vector count is the number of entries.
use vector_database.Prelude.{
  ℕ, ◌%◌, ◌^◌, ◌≡◌, refl, ◌∙◌, Bool, true, false, not, ◌&&◌, ◌||◌, some, length, if◌then◌else◌,
  Text, text_eq, nat_eq, arith, Bool-cases, inl, inr,
}
use vector_database.Prelude.Map.{find, assign, contains, find-assign, find-assign_self}
use vector_database.Float.{Float}
use vector_database.Index.Any.{AnyIndex, any_index, any_view, any_laws}
use vector_database.Index.Hnsw.{LevelSource}
use vector_database.Store.{VectorStore, cleanup as store_cleanup}
use vector_database.Stats.{StatsManager, StatType, set, reset}
use vector_database.Metrics.{Metrics, CountType, calculate_cleanup_latency, increment as count}
use vector_database.Engine.{Disk, Engine, needs_reindex, cleanup}
use vector_database.Engine.Accounted.{IsCounting, note_cleanup, cleanup-IsAccounted}
use vector_database.Engine.Running.{IsRunning, written-IsRunning}
use vector_database.Engine.Present.{Table, Table-of, contains-assign_present}

-- The counters after a cleanup, with or without a rebuild of the index.
unfoldable pub note_rebuild : StatsManager → Bool → StatsManager
unfolding note_cleanup
note_rebuild s reindex = if reindex then reset (note_cleanup s) StatType.stale else note_cleanup s

rebuilt-IsCounting :
    (n : ℕ) (s : StatsManager) (reindex : Bool)
    → IsCounting n (note_cleanup s)
    → IsCounting n (note_rebuild s reindex)
      × ((note_rebuild s reindex).stats.vector_count ≡ (note_cleanup s).stats.vector_count)
unfolding note_rebuild reset set
rebuilt-IsCounting n s true h = (record { counted = h.counted; small = h.small }, refl)
rebuilt-IsCounting n s false h = (h, refl)

module _ {R : Type 0} ⦃f : Float R⦄ where
  abbrev new_metrics : Metrics R → R → Bool → Metrics R
  new_metrics metrics latency reindex =
      let metrics' = count (calculate_cleanup_latency metrics latency) CountType.cleanup 1 in
      if reindex then count metrics' CountType.reindex 1 else metrics'

module _ {R D : Type 0} ⦃f : Float R⦄ ⦃source : LevelSource R⦄ ⦃disk : Disk R D⦄ where
  -- whether Cleanup runs
  abbrev pub runs_cleanup : Engine R D → Text → Bool → Bool
  runs_cleanup s n force = not (
      (s.shutdown && not force)
      || not (
          contains n s.store_map
          && (contains n s.stats_manager_map && contains n s.metrics_manager_map)))

  cleanup_idle :
      (s : Engine R D) (n : Text) (force : Bool) (latency : R)
      → runs_cleanup s n force ≡ false
      → cleanup s n force latency ≡ some s
  unfolding cleanup
  cleanup_idle s n force latency idle = ground arith

  cleanup_steps :
      (s : Engine R D) (n : Text) (force : Bool) (latency : R) (t : Table s n)
      (store' : VectorStore R (AnyIndex R))
      → runs_cleanup s n force ≡ true
      → store_cleanup t.store (needs_reindex s t.stats.stats) ≡ some store'
      → cleanup s n force latency
        ≡ some (record s {
          store_map = assign n store' s.store_map;
          stats_manager_map =
              assign n (note_rebuild t.stats (needs_reindex s t.stats.stats)) s.stats_manager_map;
          metrics_manager_map =
              assign n
                (new_metrics t.metrics latency (needs_reindex s t.stats.stats))
                s.metrics_manager_map;
        })
  unfolding cleanup note_rebuild note_cleanup
  cleanup_steps s n force latency t store' runs e =
      let open_guard : ((s.shutdown && not force)
            || not (
                contains n s.store_map
                && (contains n s.stats_manager_map && contains n s.metrics_manager_map)))
          ≡ false =
        ground arith in
      rw (open_guard, t.found_store, t.found_stats, t.found_metrics, e)

  -- Cleanup throws nothing and keeps stores and counters in agreement. Where it runs, the vector
  -- count that it leaves is the number of stored entries, on 64 bits.
  pub cleanup-IsRunning :
      (s : Engine R D) (n : Text) (force : Bool) (latency : R)
      → IsRunning s
      → (u : Engine R D) × (cleanup s n force latency ≡ some u)
        × IsRunning u
        × (runs_cleanup s n force ≡ true
            → (store : VectorStore R (AnyIndex R)) × (stats : StatsManager) × (find n u.store_map
                ≡ some store)
              × (find n u.stats_manager_map ≡ some stats)
              × (stats.stats.vector_count ≡ length store.store % 2 ^ 64))
  cleanup-IsRunning s n force latency h = elim (Bool-cases (runs_cleanup s n force)) [
    | inr idle ↦ (s, cleanup_idle s n force latency idle, h, λ runs. absurd cc)
    | inl runs ↦
        let t = Table-of s n h (ground arith) in
        let reindex = needs_reindex s t.stats.stats in
        let (store', e, a, counted) =
          cleanup-IsAccounted any_laws t.store t.stats reindex
            (h.accounted n t.store t.stats t.found_store t.found_stats) in
        let (c, same) = rebuilt-IsCounting (length store'.store) t.stats reindex a.counting in
        let stats' = note_rebuild t.stats reindex in
        let metrics' = new_metrics t.metrics latency reindex in
        let u : Engine R D = record s {
          store_map = assign n store' s.store_map;
          stats_manager_map = assign n stats' s.stats_manager_map;
          metrics_manager_map = assign n metrics' s.metrics_manager_map;
        } in
        (
          u,
          cleanup_steps s n force latency t store' runs e,
          written-IsRunning s u n store' stats' h (ground (arith, t.found_store))
              (record { indexed = a.indexed; counting = c })
              (λ m. find-assign n m store' s.store_map)
              (λ m. find-assign n m stats' s.stats_manager_map)
              (λ m.
                contains-assign_present n m metrics' t.metrics s.metrics_manager_map
                  t.found_metrics)
              refl refl,
          λ _. (
            store',
            stats',
            find-assign_self n store' s.store_map,
            find-assign_self n stats' s.stats_manager_map,
            same ∙ counted,
          ),
        )
  ]
