-- ===== src/Recovery/Restore.antt =====
-- The constructor of the engine on a table that was left behind, after a crash or not.
use vector_database.Prelude.{
  ℕ, ◌≡◌, refl, sym, ap, subst, ◌∙◌, true, some, List, [], ◌∷◌, ◌++◌, map, foldl, All, All-append,
  nat_eq, Text, text_eq, inl, length,
}
use vector_database.Prelude.Map.{find, assign, find-assign_self}
use vector_database.Float.{Float}
use vector_database.Index.Any.{AnyIndex, any_index, any_view}
use vector_database.Index.Flat.{FlatIndexConfig}
use vector_database.Index.Hnsw.{HnswIndexConfig, LevelSource}
use vector_database.Store.{IndexType, VectorStore}
use vector_database.Stats.{StatType, StatsManager, set, widen}
use vector_database.Validator.{validate_create_table}
use vector_database.Engine.{Engine}
use vector_database.Engine.Tables.{index_type_of}
use vector_database.Persistence.Stream.{FloatText}
use vector_database.Persistence.Messages.{Protobuf, TableFiles}
use vector_database.Persistence.Snapshot.{load_metadata, load_snapshot}
use vector_database.Persistence.Wal.{append_create}
use vector_database.Persistence.Wal.Lines.{FloatTextLaws}
use vector_database.Persistence.Wal.RoundTrip.{LogCall, append_call, entry_of, IsLogged}
use vector_database.Recovery.{
  Directory, files_at, log_of, with_log, file_disk, fill_table, restore_table,
}
use vector_database.Recovery.Mirror.{Mirrors, replay_step, replay_all, replay_all-append}
use vector_database.Recovery.Durable.{
  IsSaved, IsDurable, or_made, with_log-IsSaved, foldl-snoc, map-snoc,
}
use vector_database.Recovery.Replay.{IsReady, IsReady-Table, wal_replayed}
use vector_database.Recovery.Made.{
  takes_table, made, create_table-made, files_at-made, managed-made, loaded, disk-loaded,
  made-IsReady, fill_table-steps,
}

module _ {R : Type 0} ⦃f : Float R⦄ ⦃source : LevelSource R⦄ ⦃text : FloatText R⦄
    (laws : FloatTextLaws R) where
  replay_step-create :
      (index_type : IndexType) (n : Text) (hnsw : HnswIndexConfig R) (flat : FlatIndexConfig)
      (cache_size : ℕ) (a : VectorStore R (AnyIndex R))
      → replay_step a (entry_of laws index_type n (LogCall.create hnsw flat cache_size)) ≡ some a
  unfolding replay_step
  replay_step-create IndexType.hnsw n hnsw flat cache_size a = refl
  replay_step-create IndexType.flat n hnsw flat cache_size a = refl

  replays-create :
      (index_type : IndexType) (n : Text) (hnsw : HnswIndexConfig R) (flat : FlatIndexConfig)
      (cache_size : ℕ) (calls : List (LogCall R)) (saved a : VectorStore R (AnyIndex R))
      → replay_all saved (map (entry_of laws index_type n) calls) ≡ some a
      → replay_all saved
          (map (entry_of laws index_type n) (calls ++ LogCall.create hnsw flat cache_size ∷ []))
        ≡ some a
  replays-create index_type n hnsw flat cache_size calls saved a e =
      let create : LogCall R = LogCall.create hnsw flat cache_size in
      ap (replay_all saved) (map-snoc (entry_of laws index_type n) calls create)
      ∙ replay_all-append saved a (map (entry_of laws index_type n) calls)
          (entry_of laws index_type n create) e
      ∙ replay_step-create index_type n hnsw flat cache_size a

module _ {R B : Type 0} ⦃f : Float R⦄ ⦃source : LevelSource R⦄ ⦃text : FloatText R⦄
    ⦃proto : Protobuf R B⦄ (laws : FloatTextLaws R) where
  restore_table-steps :
      (unset_dimensionality unset_cache_size : ℕ) (s : Engine R (Directory B)) (n : Text)
      (dimensionality : ℕ) (hnsw : HnswIndexConfig R) (flat : FlatIndexConfig) (cache_size : ℕ)
      → load_metadata (files_at s.disk n) ≡ some (dimensionality, (hnsw, (flat, cache_size)))
      → takes_table s n ≡ true
      → validate_create_table n dimensionality hnsw flat cache_size ≡ true
      → restore_table unset_dimensionality unset_cache_size s n
        ≡ fill_table (made s n dimensionality hnsw flat cache_size) n
  unfolding restore_table
  restore_table-steps unset_dimensionality unset_cache_size s n dimensionality hnsw flat cache_size
        e h v =
      rw (e, create_table-made s n dimensionality hnsw flat cache_size h v)

  files_left :
      (p s : Engine R (Directory B)) (n : Text) (index_type : IndexType)
      (saved : VectorStore R (AnyIndex R)) (calls : List (LogCall R))
      → (d : IsDurable laws p n index_type saved calls) → files_at s.disk n ≡ files_at p.disk n
      → files_at
          (made s n d.files.dimensionality d.files.hnsw d.files.flat d.files.cache_size).disk
          n
        ≡ with_log (files_at p.disk n) (
            foldl
              (append_call index_type)
              []
              (calls ++ LogCall.create d.files.hnsw d.files.flat d.files.cache_size ∷ []))
  unfolding append_call
  files_left p s n index_type saved calls d same =
      let k = d.files in
      files_at-made s n k.dimensionality k.hnsw k.flat k.cache_size
      ∙ ap
          (λ files.
            with_log files
              (append_create (index_type_of k.hnsw) (log_of files) k.hnsw k.flat k.cache_size))
          same
      ∙ ap
          (λ file.
            with_log (files_at p.disk n)
              (append_create (index_type_of k.hnsw) file k.hnsw k.flat k.cache_size))
          d.log
      ∙ ap
          (λ t.
            with_log (files_at p.disk n) (
              append_create t (foldl (append_call index_type) [] calls) k.hnsw k.flat k.cache_size))
          k.same_type
      ∙ ap (with_log (files_at p.disk n)) (
          sym (
            foldl-snoc (append_call index_type) [] calls
              (LogCall.create k.hnsw k.flat k.cache_size)))

  -- LoadSnapshot does not read the log
  snapshot-with_log :
      (index_type : IndexType) (files : TableFiles B) (file : Text)
      → load_snapshot {R = R} index_type (with_log files file) ≡ load_snapshot index_type files
  unfolding load_snapshot
  snapshot-with_log index_type files file = refl

  -- LoadSnapshot and ReplayWAL on a table that was made
  fill_table-Mirrors :
      (c : Engine R (Directory B)) (n : Text) (index_type : IndexType)
      (saved : VectorStore R (AnyIndex R)) (calls : List (LogCall R))
      (a : VectorStore R (AnyIndex R))
      → find n c.persistence_manager_map ≡ some index_type
      → (files_at c.disk n).write_ahead_log ≡ some (foldl (append_call index_type) [] calls)
      → IsReady (loaded c n index_type) n saved
      → All (IsLogged laws) calls
      → replay_all saved (map (entry_of laws index_type n) calls) ≡ some a
      → (u : Engine R (Directory B)) × (stats : StatsManager) × (fill_table c n ≡ some u)
        × (find n u.store_map ≡ some a)
        × (find n u.stats_manager_map ≡ some stats)
        × (stats.stats.vector_count ≡ widen (length a.store))
        × (u.disk ≡ c.disk)
  unfolding set
  fill_table-Mirrors c n index_type saved calls a managed file ready fits e =
      let (u, done, hu, du) =
        wal_replayed laws (loaded c n index_type) n index_type calls saved a ready fits e in
      let (t, same) = IsReady-Table u n a hu in
      (
        record u {
          stats_manager_map =
              assign n (set t.stats StatType.vector (length a.store)) u.stats_manager_map;
        },
        set t.stats StatType.vector (length a.store),
        fill_table-steps c u n index_type _ a t.stats managed
            (ap (λ d. (files_at d n).write_ahead_log) (disk-loaded c n index_type) ∙ file) done
            hu.there t.found_stats,
        hu.there,
        find-assign_self n _ u.stats_manager_map,
        refl,
        du ∙ disk-loaded c n index_type,
      )

  -- A table that is durable, with the files that were left behind, is made again by the constructor
  -- of an engine that takes tables, whatever variables without a value hold: its store has the same
  -- entries, up to the digits of the log, the vector count is that of the store, and the table is
  -- durable again.
  pub restore_table-IsDurable :
      (p s : Engine R (Directory B)) (n : Text) (index_type : IndexType)
      (saved : VectorStore R (AnyIndex R)) (calls : List (LogCall R))
      (unset_dimensionality unset_cache_size : ℕ)
      → (d : IsDurable laws p n index_type saved calls) → takes_table s n ≡ true
      → files_at s.disk n ≡ files_at p.disk n
      → (u : Engine R (Directory B)) × (stats : StatsManager) × (restore_table unset_dimensionality
            unset_cache_size s n
          ≡ some u)
        × (find n u.store_map ≡ some d.replayed)
        × Mirrors laws.six_digits d.store d.replayed
        × (find n u.stats_manager_map ≡ some stats)
        × (stats.stats.vector_count ≡ widen (length d.replayed.store))
        × IsDurable laws u n index_type saved
            (calls ++ LogCall.create d.files.hnsw d.files.flat d.files.cache_size ∷ [])
  unfolding set
  restore_table-IsDurable p s n index_type saved calls unset_dimensionality unset_cache_size d h
        same =
      let k = d.files in
      let create : LogCall R = LogCall.create k.hnsw k.flat k.cache_size in
      let c = made s n k.dimensionality k.hnsw k.flat k.cache_size in
      let left = files_left p s n index_type saved calls d same in
      let snapshot =
        ap (λ files. or_made k.dimensionality k.hnsw k.flat (load_snapshot index_type files)) left
        ∙ ap (or_made k.dimensionality k.hnsw k.flat)
            (snapshot-with_log index_type (files_at p.disk n) _)
        ∙ k.snapshot in
      let logged = All-append (IsLogged laws) calls (create ∷ []) d.logged (k.fits, tt) in
      let replays =
        replays-create laws index_type n k.hnsw k.flat k.cache_size calls saved d.replayed
          d.replays in
      let (u, stats, e, fa, fs, vc, du) =
        fill_table-Mirrors c n index_type saved (calls ++ create ∷ []) d.replayed
          (managed-made s n k.dimensionality k.hnsw k.flat k.cache_size ∙ ap some k.same_type)
          (ap (λ files. files.write_ahead_log) left)
          (made-IsReady s n k.dimensionality k.hnsw k.flat k.cache_size index_type saved k.indexed
            snapshot)
          logged replays in
      (
        u,
        stats,
        restore_table-steps unset_dimensionality unset_cache_size s n k.dimensionality k.hnsw k.flat
              k.cache_size (ap load_metadata same ∙ k.metadata) h k.valid
            ∙ e,
        fa,
        d.mirrors,
        fs,
        vc,
        record {
          files =
              subst (λ files. IsSaved laws files n index_type saved)
                (sym (ap (λ x. files_at x n) du ∙ left))
                (with_log-IsSaved laws (files_at p.disk n) n index_type saved _ k);
          logged = logged;
          log = ap (λ x. log_of (files_at x n)) du ∙ ap log_of left;
          store = d.replayed;
          found = fa;
          replayed = d.replayed;
          replays = replays;
          mirrors = record {
            indexed = d.mirrors.indexed;
            same_dimension = refl;
            same = λ x. inl refl;
          };
        },
      )
