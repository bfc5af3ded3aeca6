-- ===== src/Recovery/Restart.antt =====
-- A table that the destructor of the engine saved and its constructor restored.
use vector_database.Prelude.{
  ℕ, ◌≡◌, refl, sym, ap, subst, ◌∙◌, Bool, true, false, some, [], if◌then◌else◌, nat_eq, Text,
  text_eq, arith, inl, length, is_empty,
}
use vector_database.Prelude.Map.{find, assign, find-assign_self}
use vector_database.Float.{Float}
use vector_database.Index.Any.{AnyIndex, any_index, any_view}
use vector_database.Index.Flat.{FlatIndexConfig}
use vector_database.Index.Hnsw.{HnswIndexConfig, LevelSource}
use vector_database.Store.{IndexType, VectorStore, compute_checksum}
use vector_database.Store.Complete.{IsComplete}
use vector_database.Store.Indexed.{IsIndexed}
use vector_database.Stats.{StatsManager, widen}
use vector_database.Engine.{Engine}
use vector_database.Engine.Tables.{is_hnsw_config}
use vector_database.Persistence.Stream.{FloatText}
use vector_database.Persistence.Messages.{Protobuf, TableFiles}
use vector_database.Persistence.Messages.Laws.{IsMetadataMessage, ProtobufLaws}
use vector_database.Persistence.Snapshot.{
  save_snapshot, load_snapshot, save_metadata, metadata_message, read_metadata, load_metadata,
  no_hnsw_config, no_flat_config,
}
use vector_database.Persistence.Snapshot.RoundTrip.{class_of, load_snapshot-save_snapshot}
use vector_database.Persistence.Wal.Lines.{FloatTextLaws}
use vector_database.Recovery.{Directory, files_at, log_of, clear_wal, save_table, restore_table}
use vector_database.Recovery.Mirror.{replay_all, some-injective}
use vector_database.Recovery.Durable.{IsSaved, or_made}
use vector_database.Recovery.Made.{takes_table}
use vector_database.Recovery.Restore.{restore_table-IsDurable}
use vector_database.Recovery.Savable.{IsSavable, kept_configs, read_back}

module _ {R B : Type 0} ⦃f : Float R⦄ ⦃source : LevelSource R⦄ ⦃text : FloatText R⦄
    ⦃proto : Protobuf R B⦄ (laws : FloatTextLaws R) (messages : ProtobufLaws R B) where
  load_metadata-save_metadata :
      (n : Text) (dimensionality : ℕ) (hnsw : HnswIndexConfig R) (flat : FlatIndexConfig)
      (cache_size : ℕ) (files : TableFiles B)
      → IsMetadataMessage {R = R} messages.valid_text
          (metadata_message n dimensionality hnsw flat cache_size)
      → load_metadata {R = R} (save_metadata n dimensionality hnsw flat cache_size files)
        ≡ some (
          dimensionality,
          (
            if is_hnsw_config hnsw then hnsw else no_hnsw_config,
            (if is_hnsw_config hnsw then no_flat_config else flat, cache_size),
          ),
        )
  unfolding load_metadata save_metadata
  load_metadata-save_metadata n dimensionality hnsw flat cache_size files fits =
      ap (λ message. some (read_metadata message)) (messages.metadata_law _ fits)
      ∙ ap some (read_back n dimensionality hnsw flat cache_size (is_hnsw_config hnsw))

  -- what the destructor leaves
  abbrev left_files :
      Text
      → VectorStore R (AnyIndex R)
      → HnswIndexConfig R
      → FlatIndexConfig
      → ℕ
      → TableFiles B
      → TableFiles B
  left_files n store hnsw flat cache_size files = clear_wal (
      save_metadata n store.vector_dimensionality hnsw flat cache_size
        (save_snapshot (class_of store.index) store files))

  save_table-left_files :
      (n : Text) (store : VectorStore R (AnyIndex R)) (hnsw : HnswIndexConfig R)
      (flat : FlatIndexConfig) (cache_size : ℕ) (files : TableFiles B)
      → IsSavable laws messages.valid_text n store hnsw flat cache_size
      → save_table (class_of store.index) n store cache_size files
        ≡ some (left_files n store hnsw flat cache_size files)
  unfolding save_table
  save_table-left_files n store hnsw flat cache_size files h = rw h.configs

  left_files-IsSaved :
      (n : Text) (store t : VectorStore R (AnyIndex R)) (hnsw : HnswIndexConfig R)
      (flat : FlatIndexConfig) (cache_size : ℕ) (files : TableFiles B)
      → IsSavable laws messages.valid_text n store hnsw flat cache_size
      → IsIndexed t
      → load_snapshot (class_of store.index) (save_snapshot (class_of store.index) store files)
        ≡ some t
      → IsSaved laws (left_files n store hnsw flat cache_size files) n (class_of store.index) t
  unfolding clear_wal load_snapshot save_metadata load_metadata
  left_files-IsSaved n store t hnsw flat cache_size files h ht e =
      let configs = kept_configs store.index_type store.index hnsw flat h.configs h.same_type in
      record {
        dimensionality = store.vector_dimensionality;
        hnsw = hnsw;
        flat = flat;
        cache_size = cache_size;
        metadata =
            load_metadata-save_metadata n store.vector_dimensionality hnsw flat cache_size
              (save_snapshot (class_of store.index) store files) h.metadata
            ∙ (λ i. some (store.vector_dimensionality, (configs.0 i, (configs.1 i, cache_size))));
        valid = h.valid;
        fits = h.fits;
        same_type = h.same_type ∙ h.same_class;
        snapshot = ap (or_made store.vector_dimensionality hnsw flat) e;
        indexed = ht;
      }

  -- a table whose log is empty
  restore_saved :
      (s : Engine R (Directory B)) (n : Text) (index_type : IndexType)
      (t : VectorStore R (AnyIndex R)) (unset_dimensionality unset_cache_size : ℕ)
      → log_of (files_at s.disk n) ≡ []
      → IsSaved laws (files_at s.disk n) n index_type t
      → takes_table s n ≡ true
      → (u : Engine R (Directory B)) × (stats : StatsManager) × (restore_table unset_dimensionality
            unset_cache_size s n
          ≡ some u)
        × (find n u.store_map ≡ some t)
        × (find n u.stats_manager_map ≡ some stats)
        × (stats.stats.vector_count ≡ widen (length t.store))
  unfolding replay_all
  restore_saved s n index_type t unset_dimensionality unset_cache_size empty saved takes =
      let (u, stats, e, fa, _, fs, vc, _) =
        restore_table-IsDurable laws (record s { store_map = assign n t s.store_map }) s n
          index_type t [] unset_dimensionality unset_cache_size
          (record {
            files = saved;
            logged = tt;
            log = empty;
            store = t;
            found = find-assign_self n t s.store_map;
            replayed = t;
            replays = refl;
            mirrors = record {
              indexed = saved.indexed;
              same_dimension = refl;
              same = λ x. inl refl;
            };
          })
          takes refl in
      (u, stats, e, fa, fs, vc)

  log_of-left_files :
      (n : Text) (store : VectorStore R (AnyIndex R)) (hnsw : HnswIndexConfig R)
      (flat : FlatIndexConfig) (cache_size : ℕ) (files : TableFiles B)
      → log_of (left_files n store hnsw flat cache_size files) ≡ []
  unfolding clear_wal
  log_of-left_files n store hnsw flat cache_size files = ground arith

  -- A table that is not empty, whose index knows all that the store has, whose configuration is valid
  -- and whose messages Protobuf can serialize (distinct keys, numbers in the range of their fields,
  -- texts in UTF-8), is there again after the destructor saved it and the constructor of an engine
  -- that takes tables found its files: with the same entries, checksum, dimension and class of index,
  -- which knows all that the store has; and the vector count is the number of entries read as an int
  -- and widened to 64 bits, which below 2^31 is that number. Maps may come back in any order.
  pub restore_table-save_table :
      (s : Engine R (Directory B)) (n : Text) (store : VectorStore R (AnyIndex R))
      (hnsw : HnswIndexConfig R) (flat : FlatIndexConfig) (cache_size : ℕ)
      (files files' : TableFiles B) (stale : ℕ → Bool) (unset_dimensionality unset_cache_size : ℕ)
      → IsComplete store stale
      → is_empty store.store ≡ false
      → IsSavable laws messages.valid_text n store hnsw flat cache_size
      → save_table (class_of store.index) n store cache_size files ≡ some files'
      → files_at s.disk n ≡ files'
      → takes_table s n ≡ true
      → (u : Engine R (Directory B)) × (t : VectorStore R (AnyIndex R)) × (stats : StatsManager)
        × (restore_table unset_dimensionality unset_cache_size s n ≡ some u)
        × (find n u.store_map ≡ some t)
        × IsComplete t stale
        × ((x : ℕ) → find x t.store ≡ find x store.store)
        × (compute_checksum t ≡ compute_checksum store)
        × (class_of t.index ≡ class_of store.index)
        × (t.vector_dimensionality ≡ store.vector_dimensionality)
        × (find n u.stats_manager_map ≡ some stats)
        × (stats.stats.vector_count ≡ widen (length t.store))
  restore_table-save_table s n store hnsw flat cache_size files files' stale unset_dimensionality
        unset_cache_size h full savable done left takes =
      let (t, loads, ht, same, checksum, class, dimension, _) =
        load_snapshot-save_snapshot messages store files stale h full savable.storable in
      let there : files_at s.disk n ≡ left_files n store hnsw flat cache_size files =
        left
        ∙ some-injective
            (sym done ∙ save_table-left_files n store hnsw flat cache_size files savable) in
      let (u, stats, e, fa, fs, vc) =
        restore_saved s n (class_of store.index) t unset_dimensionality unset_cache_size
          (ap log_of there ∙ log_of-left_files n store hnsw flat cache_size files)
          (subst (λ fs. IsSaved laws fs n (class_of store.index) t) (sym there)
            (left_files-IsSaved n store t hnsw flat cache_size files savable ht.indexed loads))
          takes in
      (u, t, stats, e, fa, ht, same, checksum, class, dimension, fs, vc)
