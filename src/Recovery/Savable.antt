-- ===== src/Recovery/Savable.antt =====
-- Tables that can be saved, and the configurations that their metadata keeps.
use vector_database.Prelude.{
  ℕ, ◌≡◌, ◌≢◌, refl, sym, ap, ◌∙◌, Bool, true, false, Option, some, if◌then◌else◌, nat_eq, Text,
  text_eq, Bool-cases, inl, inr,
}
use vector_database.Float.{Float}
use vector_database.Index.Any.{AnyIndex, any_index, any_view}
use vector_database.Index.Flat.{FlatIndexConfig}
use vector_database.Index.Hnsw.{HnswIndexConfig, LevelSource}
use vector_database.Store.{IndexType, VectorStore}
use vector_database.Validator.{validate_create_table}
use vector_database.Engine.Tables.{index_type_of, is_hnsw_config}
use vector_database.Persistence.Stream.{FloatText}
use vector_database.Persistence.Messages.Laws.{IsMetadataMessage}
use vector_database.Persistence.Snapshot.{
  metadata_message, read_metadata, no_hnsw_config, no_flat_config,
}
use vector_database.Persistence.Snapshot.RoundTrip.{class_of, IsStorable}
use vector_database.Persistence.Wal.Lines.{FloatTextLaws}
use vector_database.Persistence.Wal.RoundTrip.{LogCall, IsLogged}
use vector_database.Recovery.{configs_at, configs_of}

flat_not_hnsw : IndexType.flat ≢ IndexType.hnsw
flat_not_hnsw e = cc

first_first :
    {A C : Type 0} {a a' : A} {c c' : C}
    → ◌≡◌ {A = Option (A × C)} (some (a, c)) (some (a', c'))
    → a ≡ a'
first_first e = cc

first_second :
    {A C : Type 0} {a a' : A} {c c' : C}
    → ◌≡◌ {A = Option (A × C)} (some (a, c)) (some (a', c'))
    → c ≡ c'
first_second e = cc

module _ {R : Type 0} ⦃f : Float R⦄ ⦃source : LevelSource R⦄ where
  type_at :
      (hnsw : HnswIndexConfig R) (index_type : IndexType) (b : Bool)
      → is_hnsw_config hnsw ≡ b
      → index_type_of hnsw ≡ index_type
      → (if b then IndexType.hnsw else IndexType.flat) ≡ index_type
  type_at hnsw index_type b e t = sym (ap (λ x. if x then IndexType.hnsw else IndexType.flat) e) ∙ t

  -- The configurations of a table are those of its index, and SaveMetadata keeps them.
  pub kept_configs :
      (index_type : IndexType) (i : AnyIndex R) (hnsw : HnswIndexConfig R) (flat : FlatIndexConfig)
      → configs_at index_type i ≡ some (hnsw, flat)
      → index_type_of hnsw ≡ index_type
      → ((if is_hnsw_config hnsw then hnsw else no_hnsw_config) ≡ hnsw)
        × ((if is_hnsw_config hnsw then no_flat_config else flat) ≡ flat)
  kept_configs IndexType.hnsw (AnyIndex.hnsw i) hnsw flat e t =
      elim (Bool-cases (is_hnsw_config hnsw)) [
        | inl h ↦ rw h (refl, first_second e)
        | inr h ↦ absurd (flat_not_hnsw (type_at hnsw IndexType.hnsw false h t))
      ]
  kept_configs IndexType.hnsw (AnyIndex.flat i) hnsw flat e t = absurd cc
  kept_configs IndexType.flat (AnyIndex.hnsw i) hnsw flat e t = absurd cc
  kept_configs IndexType.flat (AnyIndex.flat i) hnsw flat e t =
      elim (Bool-cases (is_hnsw_config hnsw)) [
        | inl h ↦ absurd (flat_not_hnsw (sym (type_at hnsw IndexType.flat true h t)))
        | inr h ↦ rw h (first_first e, refl)
      ]

  pub read_back :
      (n : Text) (dimensionality : ℕ) (hnsw : HnswIndexConfig R) (flat : FlatIndexConfig)
      (cache_size : ℕ) (is_hnsw : Bool)
      → read_metadata (record {
        table_name = n;
        vector_dimensionality = dimensionality;
        index_type = if is_hnsw then IndexType.hnsw else IndexType.flat;
        hnsw_index_config = if is_hnsw then hnsw else no_hnsw_config;
        flat_index_config = if is_hnsw then no_flat_config else flat;
        cache_size = cache_size;
      })
        ≡ (
          dimensionality,
          (
            if is_hnsw then hnsw else no_hnsw_config,
            (if is_hnsw then no_flat_config else flat, cache_size),
          ),
        )
  read_back n dimensionality hnsw flat cache_size true = refl
  read_back n dimensionality hnsw flat cache_size false = refl

module _ {R : Type 0} ⦃f : Float R⦄ ⦃source : LevelSource R⦄ ⦃text : FloatText R⦄
    (laws : FloatTextLaws R) where
  -- A store whose table can be made again: its index is of its type, its configuration valid, and
  -- its messages can be serialized, where `valid_text` says which texts are UTF-8.
  pub record IsSavable (valid_text : Text → Bool) (n : Text) (store : VectorStore R (AnyIndex R))
      (hnsw : HnswIndexConfig R) (flat : FlatIndexConfig) (cache_size : ℕ) : Type 0 where
    pub configs : configs_of store ≡ some (hnsw, flat)
    pub same_class : store.index_type ≡ class_of store.index
    pub same_type : index_type_of hnsw ≡ store.index_type
    pub valid : validate_create_table n store.vector_dimensionality hnsw flat cache_size ≡ true
    pub fits : IsLogged laws (LogCall.create hnsw flat cache_size)
    pub storable : IsStorable valid_text store
    pub metadata :
        IsMetadataMessage {R = R} valid_text
          (metadata_message n store.vector_dimensionality hnsw flat cache_size)
