-- ===== src/Validator.antt =====
-- engine/src/util/input_validator.cc: the tests on the arguments of the operations of the engine.
use vector_database.Prelude.{
  ℕ, Bool, true, false, not, ◌&&◌, ◌||◌, is_empty, nat_beq, if◌then◌else◌, Text,
}
use vector_database.Float.{Float, Vector}
use vector_database.Index.Flat.{FlatIndexConfig}
use vector_database.Index.Hnsw.{HnswIndexConfig}

module _ {R : Type 0} where
  abbrev pub validate_insert : Text → ℕ → Vector R → Text → Bool
  validate_insert table_name id vector content =
      if is_empty table_name || (is_empty vector || is_empty content) then false else true

  abbrev pub validate_search : Text → Vector R → ℕ → ℕ → Bool
  validate_search table_name query k search_param =
      if is_empty table_name || (is_empty query || nat_beq k 0) then false else true

abbrev pub validate_remove : Text → ℕ → Bool
validate_remove table_name id = if is_empty table_name then false else true

abbrev pub validate_stats : Text → Bool
validate_stats table_name = if is_empty table_name then false else true

abbrev pub validate_metrics : Text → Bool
validate_metrics table_name = if is_empty table_name then false else true

abbrev pub validate_drop_table : Text → Bool
validate_drop_table name = if is_empty name then false else true

module _ {R : Type 0} ⦃f : Float R⦄ where
  unfoldable pub validate_create_table : Text → ℕ → HnswIndexConfig R → FlatIndexConfig → ℕ → Bool
  validate_create_table name vector_dimensionality hnsw_config flat_config cache_size =
      if is_empty name || nat_beq vector_dimensionality 0
      then false
      else (let is_hnsw_empty =
            nat_beq hnsw_config.vector_dimensionality 0
            && (nat_beq hnsw_config.m 0
                && (nat_beq hnsw_config.m0 0
                    && (nat_beq hnsw_config.ef_construction 0 && f.eq hnsw_config.ml f.zero))) in
          let is_flat_empty = nat_beq flat_config.vector_dimensionality 0 in
          let is_hnsw_valid =
            not (nat_beq hnsw_config.vector_dimensionality 0)
            && (not (nat_beq hnsw_config.m 0)
                && (not (nat_beq hnsw_config.m0 0)
                    && (not (nat_beq hnsw_config.ef_construction 0)
                        && not (f.eq hnsw_config.ml f.zero)))) in
          let is_flat_valid = not (nat_beq flat_config.vector_dimensionality 0) in
          if (is_hnsw_empty && is_flat_empty) || (not is_hnsw_empty && not is_flat_empty)
          then false
          else if (not is_hnsw_empty && not is_hnsw_valid)
              || (not is_flat_empty && not is_flat_valid)
          then false
          else true)
