-- ===== src/Recovery/Made.antt =====
-- CreateTable and LoadSnapshot in the constructor of the engine, step by step.
use vector_database.Prelude.{
  ℕ, ◌≡◌, ap, ◌∙◌, Bool, true, false, not, ◌&&◌, Option, none, some, nat_eq, Text, text_eq, arith,
  length,
}
use vector_database.Prelude.Map.{find, assign, contains, find-assign_self}
use vector_database.Float.{Float}
use vector_database.Index.Any.{AnyIndex, any_index, any_view}
use vector_database.Index.Flat.{FlatIndexConfig}
use vector_database.Index.Hnsw.{HnswIndexConfig, LevelSource}
use vector_database.Store.{IndexType, VectorStore}
use vector_database.Store.Indexed.{IsIndexed}
use vector_database.Stats.{StatType, StatsManager, create as create_stats, set, set_modified_flag}
use vector_database.Metrics.{create as create_metrics}
use vector_database.Validator.{validate_create_table}
use vector_database.Engine.{Engine}
use vector_database.Engine.Tables.{has_any, create_table, index_type_of, add_table}
use vector_database.Persistence.Stream.{FloatText}
use vector_database.Persistence.Messages.{Protobuf}
use vector_database.Persistence.Snapshot.{load_snapshot}
use vector_database.Persistence.Wal.{replay_wal, append_create}
use vector_database.Recovery.{
  Directory, files_at, log_text, with_log, write_log, file_disk, replay_entry, fill_table,
}
use vector_database.Recovery.Durable.{or_made, files_at-write_log, log_text-write_log}
use vector_database.Recovery.Replay.{IsReady}

-- the log of a table that is opened, written and opened
rewritten :
    {B : Type 0} (d : Directory B) (n : Text) (g : Text → Text)
    → (let d1 = write_log d n (log_text d n) in
        let d2 = write_log d1 n (g (log_text d1 n)) in
        files_at (write_log d2 n (log_text d2 n)) n ≡ with_log (files_at d n) (g (log_text d n)))
rewritten {B} d n g =
    let d1 : Directory B = write_log d n (log_text d n) in
    let d2 : Directory B = write_log d1 n (g (log_text d1 n)) in
    let l1 = log_text-write_log d n (log_text d n) in
    let l2 = log_text-write_log d1 n (g (log_text d1 n)) in
    files_at-write_log d2 n (log_text d2 n)
    ∙ ap (λ file. with_log (files_at d2 n) file) (l2 ∙ ap g l1)
    ∙ ap (λ files. with_log files (g (log_text d n))) (files_at-write_log d1 n (g (log_text d1 n)))
    ∙ ap (λ files. with_log files (g (log_text d n))) (files_at-write_log d n (log_text d n))

module _ {R B : Type 0} ⦃f : Float R⦄ ⦃source : LevelSource R⦄ ⦃text : FloatText R⦄
    ⦃proto : Protobuf R B⦄ where
  -- whether CreateTable takes a new table
  abbrev pub takes_table : Engine R (Directory B) → Text → Bool
  takes_table s n = s.metadata.primary && (not s.shutdown && not (has_any s n))

  -- the engine after CreateTable
  abbrev pub made :
      Engine R (Directory B)
      → Text
      → ℕ
      → HnswIndexConfig R
      → FlatIndexConfig
      → ℕ
      → Engine R (Directory B)
  made s n dimensionality hnsw flat cache_size =
      let s' =
        add_table
          (record s {
            disk =
                (file_disk {R = R} {B = B}).append_create
                  ((file_disk {R = R} {B = B}).open_log s.disk n) n (index_type_of hnsw) hnsw flat
                  cache_size;
          })
          n dimensionality hnsw flat cache_size in
      record s' {
        stats_manager_map = assign n (set_modified_flag create_stats true) s'.stats_manager_map;
      }

  pub create_table-made :
      (s : Engine R (Directory B)) (n : Text) (dimensionality : ℕ) (hnsw : HnswIndexConfig R)
      (flat : FlatIndexConfig) (cache_size : ℕ)
      → takes_table s n ≡ true
      → validate_create_table n dimensionality hnsw flat cache_size ≡ true
      → create_table s n dimensionality hnsw flat cache_size
        ≡ (made s n dimensionality hnsw flat cache_size, true)
  unfolding create_table
  create_table-made s n dimensionality hnsw flat cache_size h v =
      let primary : s.metadata.primary ≡ true = ground arith in
      let running : s.shutdown ≡ false = ground arith in
      let new : has_any s n ≡ false = ground arith in rw (primary, running, v, new)

  -- what the log of the table is then
  pub files_at-made :
      (s : Engine R (Directory B)) (n : Text) (dimensionality : ℕ) (hnsw : HnswIndexConfig R)
      (flat : FlatIndexConfig) (cache_size : ℕ)
      → files_at (made s n dimensionality hnsw flat cache_size).disk n
        ≡ with_log
            (files_at s.disk n)
            (append_create (index_type_of hnsw) (log_text s.disk n) hnsw flat cache_size)
  unfolding add_table
  files_at-made s n dimensionality hnsw flat cache_size =
      rewritten s.disk n (λ file. append_create (index_type_of hnsw) file hnsw flat cache_size)

  pub managed-made :
      (s : Engine R (Directory B)) (n : Text) (dimensionality : ℕ) (hnsw : HnswIndexConfig R)
      (flat : FlatIndexConfig) (cache_size : ℕ)
      → find n (made s n dimensionality hnsw flat cache_size).persistence_manager_map
        ≡ some (index_type_of hnsw)
  unfolding add_table
  managed-made s n dimensionality hnsw flat cache_size =
      find-assign_self n (index_type_of hnsw) s.persistence_manager_map

  -- the engine after LoadSnapshot
  abbrev with_loaded :
      Engine R (Directory B) → Text → Option (VectorStore R (AnyIndex R)) → Engine R (Directory B)
  with_loaded s n o = elim o [
    | none ↦ s
    | some store ↦ record s { store_map = assign n store s.store_map }
  ]

  abbrev pub loaded : Engine R (Directory B) → Text → IndexType → Engine R (Directory B)
  loaded s n index_type = with_loaded s n (load_snapshot index_type (files_at s.disk n))

  with_loaded-IsReady :
      (s : Engine R (Directory B)) (n : Text) (dimensionality : ℕ) (hnsw : HnswIndexConfig R)
      (flat : FlatIndexConfig) (o : Option (VectorStore R (AnyIndex R)))
      (saved : VectorStore R (AnyIndex R))
      → find n s.store_map ≡ some (or_made dimensionality hnsw flat none)
      → contains n s.stats_manager_map ≡ true
      → contains n s.metrics_manager_map ≡ true
      → IsIndexed saved
      → or_made dimensionality hnsw flat o ≡ saved
      → IsReady (with_loaded s n o) n saved
  with_loaded-IsReady s n dimensionality hnsw flat none saved there st me h e = record {
    there = there ∙ ap some e;
    stats_there = st;
    metrics_there = me;
    indexed = h;
  }
  with_loaded-IsReady s n dimensionality hnsw flat (some store) saved there st me h e = record {
    there = find-assign_self n store s.store_map ∙ ap some e;
    stats_there = st;
    metrics_there = me;
    indexed = h;
  }

  pub disk-loaded :
      (s : Engine R (Directory B)) (n : Text) (index_type : IndexType)
      → (loaded s n index_type).disk ≡ s.disk
  disk-loaded s n index_type = ground arith

  pub made-IsReady :
      (s : Engine R (Directory B)) (n : Text) (dimensionality : ℕ) (hnsw : HnswIndexConfig R)
      (flat : FlatIndexConfig) (cache_size : ℕ) (index_type : IndexType)
      (saved : VectorStore R (AnyIndex R))
      → IsIndexed saved
      → (let c = made s n dimensionality hnsw flat cache_size in
          or_made dimensionality hnsw flat (load_snapshot index_type (files_at c.disk n)) ≡ saved
          → IsReady (loaded c n index_type) n saved)
  unfolding add_table
  made-IsReady s n dimensionality hnsw flat cache_size index_type saved h e =
      let c = made s n dimensionality hnsw flat cache_size in
      with_loaded-IsReady c n dimensionality hnsw flat
        (load_snapshot index_type (files_at c.disk n)) saved (find-assign_self n _ s.store_map)
        (ground (
          arith,
          find-assign_self n (set_modified_flag create_stats true)
              (assign n create_stats s.stats_manager_map),
        ))
        (ground (arith, find-assign_self n (create_metrics {R = R}) s.metrics_manager_map)) h e

  pub fill_table-steps :
      (s u : Engine R (Directory B)) (n : Text) (index_type : IndexType) (file : Text)
      (store : VectorStore R (AnyIndex R)) (stats : StatsManager)
      → find n s.persistence_manager_map ≡ some index_type
      → (files_at (loaded s n index_type).disk n).write_ahead_log ≡ some file
      → replay_wal index_type n replay_entry (loaded s n index_type) file ≡ some u
      → find n u.store_map ≡ some store
      → find n u.stats_manager_map ≡ some stats
      → fill_table s n
        ≡ some (record u {
          stats_manager_map =
              assign n (set stats StatType.vector (length store.store)) u.stats_manager_map;
        })
  unfolding fill_table
  fill_table-steps s u n index_type file store stats e0 e1 e2 e3 e4 = rw (e0, e1, e2, e3, e4)
