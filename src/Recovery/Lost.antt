-- ===== src/Recovery/Lost.antt =====
-- A table without metadata, which the constructor of the engine does not restore.
use vector_database.Prelude.{ℕ, ◌≡◌, ap, ◌∙◌, true, false, none, some, nat_eq, Text, text_eq, arith}
use vector_database.Float.{Float}
use vector_database.Index.Any.{any_index, any_view}
use vector_database.Index.Flat.{FlatIndexConfig}
use vector_database.Index.Hnsw.{HnswIndexConfig, LevelSource}
use vector_database.Validator.{validate_create_table}
use vector_database.Engine.{Engine}
use vector_database.Engine.Tables.{create_table}
use vector_database.Persistence.Stream.{FloatText}
use vector_database.Persistence.Messages.{Protobuf}
use vector_database.Persistence.Snapshot.{load_metadata, no_hnsw_config, no_flat_config}
use vector_database.Recovery.{Directory, files_at, with_log, file_disk, restore_table}
use vector_database.Recovery.Made.{takes_table, create_table-made, files_at-made}

no_configs_invalid :
    (R : Type 0) ⦃f : Float R⦄ (n : Text) (dimensionality cache_size : ℕ)
    → validate_create_table {R = R} n dimensionality no_hnsw_config no_flat_config cache_size
      ≡ false
unfolding validate_create_table
no_configs_invalid R n dimensionality cache_size = ground arith

module _ {R B : Type 0} ⦃f : Float R⦄ ⦃source : LevelSource R⦄ ⦃text : FloatText R⦄
    ⦃proto : Protobuf R B⦄ where
  create_table_invalid :
      (s : Engine R (Directory B)) (n : Text) (dimensionality : ℕ) (hnsw : HnswIndexConfig R)
      (flat : FlatIndexConfig) (cache_size : ℕ)
      → validate_create_table n dimensionality hnsw flat cache_size ≡ false
      → create_table s n dimensionality hnsw flat cache_size ≡ (s, false)
  unfolding create_table
  create_table_invalid s n dimensionality hnsw flat cache_size h = ground arith

  -- A table that CreateTable took, and that no destructor saved, is lost: whatever was logged since,
  -- the constructor of an engine that finds its files makes no table.
  pub restore_table-unsaved :
      (p s : Engine R (Directory B)) (n : Text) (dimensionality : ℕ) (hnsw : HnswIndexConfig R)
      (flat : FlatIndexConfig) (cache_size : ℕ) (file : Text)
      (unset_dimensionality unset_cache_size : ℕ)
      → takes_table p n ≡ true
      → validate_create_table n dimensionality hnsw flat cache_size ≡ true
      → (files_at p.disk n).metadata ≡ none
      → files_at s.disk n
        ≡ with_log (files_at (create_table p n dimensionality hnsw flat cache_size).0.disk n) file
      → ((create_table p n dimensionality hnsw flat cache_size).1 ≡ true)
        × (restore_table unset_dimensionality unset_cache_size s n ≡ some s)
  unfolding restore_table load_metadata
  restore_table-unsaved p s n dimensionality hnsw flat cache_size file unset_dimensionality
        unset_cache_size h v unsaved same =
      let done = create_table-made p n dimensionality hnsw flat cache_size h v in
      let none_there : (files_at s.disk n).metadata ≡ none =
        ap (λ files. files.metadata) same
        ∙ ap (λ r. (files_at r.0.disk n).metadata) done
        ∙ ap (λ files. files.metadata) (files_at-made p n dimensionality hnsw flat cache_size)
        ∙ unsaved in
      (
        ap (λ r. r.1) done,
        rw (
          none_there,
          create_table_invalid s n unset_dimensionality no_hnsw_config no_flat_config
              unset_cache_size (no_configs_invalid R n unset_dimensionality unset_cache_size),
        ),
      )
