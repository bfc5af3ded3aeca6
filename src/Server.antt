-- ===== src/Server.antt =====
-- server/src/vector_db_service_impl.cc: the handlers of the server, from a request to the status and
-- the response. DropTable needs the replica manager, and stands apart from the others.
pub mod Serving
use vector_database.Prelude.{
  ℕ, Bool, true, false, ◌||◌, Option, none, some, List, [], ◌∷◌, map, is_empty, nat_beq,
  if◌then◌else◌, Text, ◌>>=◌,
}
use vector_database.Float.{Float, Vector}
use vector_database.Index.Any.{AnyIndex}
use vector_database.Index.Flat.{FlatIndexConfig}
use vector_database.Index.Hnsw.{HnswIndexConfig, LevelSource}
use vector_database.Store.{Data}
use vector_database.Stats.{Stats}
use vector_database.Metrics.{Metrics}
use vector_database.Engine.{Disk, Engine, get_stats, get_metrics, list_tables as engine_list_tables}
use vector_database.Engine.{
  insert as engine_insert, remove as engine_remove, search as engine_search,
  batch_insert as engine_batch_insert, batch_remove as engine_batch_remove,
  cleanup as engine_cleanup,
}
use vector_database.Engine.Batch as Batch
use vector_database.Engine.Batch.{FloatHash, Measure, batch_search as engine_batch_search}
use vector_database.Engine.Tables.{IndexConfig, create_table as engine_create_table}
use vector_database.Persistence.Snapshot.{no_hnsw_config, no_flat_config}
use vector_database.Persistence.Stream.{FloatText}
use vector_database.Recovery.{Directory}
use vector_database.ReplicaManager.{Network, ReplicaManager, drop_table}

abbrev pub missing_table : Text
missing_table =
    b'm' ∷ b'i' ∷ b's' ∷ b's' ∷ b'i' ∷ b'n' ∷ b'g' ∷ 32 ∷ b't' ∷ b'a' ∷ b'b' ∷ b'l' ∷ b'e' ∷ []

abbrev pub missing_name : Text
missing_name = b'm' ∷ b'i' ∷ b's' ∷ b's' ∷ b'i' ∷ b'n' ∷ b'g' ∷ 32 ∷ b'n' ∷ b'a' ∷ b'm' ∷ b'e' ∷ []

abbrev pub missing_arguments : Text
missing_arguments =
    b'm' ∷ b'i' ∷ b's' ∷ b's' ∷ b'i' ∷ b'n' ∷ b'g' ∷ 32 ∷ b'a' ∷ b'r' ∷ b'g' ∷ b'u' ∷ b'm' ∷ b'e'
    ∷ b'n' ∷ b't' ∷ b's' ∷ []

abbrev pub missing_index_config : Text
missing_index_config =
    b'm' ∷ b'i' ∷ b's' ∷ b's' ∷ b'i' ∷ b'n' ∷ b'g' ∷ 32 ∷ b'i' ∷ b'n' ∷ b'd' ∷ b'e' ∷ b'x' ∷ 32
    ∷ b'c' ∷ b'o' ∷ b'n' ∷ b'f' ∷ b'i' ∷ b'g' ∷ []

abbrev pub insert_failed : Text
insert_failed =
    b'i' ∷ b'n' ∷ b's' ∷ b'e' ∷ b'r' ∷ b't' ∷ 32 ∷ b'f' ∷ b'a' ∷ b'i' ∷ b'l' ∷ b'e' ∷ b'd' ∷ 32 ∷ 40
    ∷ b'i' ∷ b'n' ∷ b'v' ∷ b'a' ∷ b'l' ∷ b'i' ∷ b'd' ∷ 32 ∷ b'i' ∷ b'n' ∷ b'p' ∷ b'u' ∷ b't' ∷ 41
    ∷ []

abbrev pub remove_failed : Text
remove_failed =
    b'r' ∷ b'e' ∷ b'm' ∷ b'o' ∷ b'v' ∷ b'e' ∷ 32 ∷ b'f' ∷ b'a' ∷ b'i' ∷ b'l' ∷ b'e' ∷ b'd' ∷ 32 ∷ 40
    ∷ b'i' ∷ b'n' ∷ b'v' ∷ b'a' ∷ b'l' ∷ b'i' ∷ b'd' ∷ 32 ∷ b'i' ∷ b'n' ∷ b'p' ∷ b'u' ∷ b't' ∷ 41
    ∷ []

abbrev pub healthy : Text
healthy = b'H' ∷ b'e' ∷ b'a' ∷ b'l' ∷ b't' ∷ b'h' ∷ b'y' ∷ b'!' ∷ []

-- grpc::Status
pub data Status : Type 0 where
  ok : Status
  invalid_argument : Text → Status

-- A request with its fields. That of BatchSearch has the measures of its tasks, and that of Search
-- the reading of the clock.
pub data Request (R : Type 0) : Type 0 where
  insert : Text → ℕ → Vector R → Text → Request R
  remove : Text → ℕ → Request R
  search : Text → Vector R → ℕ → ℕ → R → Request R
  batch_insert : Text → List (ℕ × (Vector R × Text)) → Request R
  batch_remove : Text → List ℕ → Request R
  batch_search : Text → List (Batch.Request R) → List (Measure R) → Request R
  stats : Text → Request R
  metrics : Text → Request R
  create_table : Text → ℕ → Option (IndexConfig R) → ℕ → Request R
  list_tables : Request R
  health_check : Request R

-- A response with its fields; `unset` is one that the handler left as it was.
pub data Response (R : Type 0) : Type 0 where
  unset : Response R
  success : Bool → Response R
  successes : List Bool → Response R
  data_found : List (ℕ × Text) → Response R
  result_lists : List (List (ℕ × Text)) → Response R
  stats_of : Stats → Response R
  metrics_of : Metrics R → Response R
  table_names : List Text → Response R
  health : Bool → Text → Response R

abbrev pub Reply : Type 0 → Type 0
Reply R = Status × Response R

module _ {R : Type 0} where
  abbrev pub missing : Text → Reply R
  missing what = (Status.invalid_argument what, Response.unset)

  -- the end of Insert and Remove
  abbrev pub reply_flag : Text → Bool → Reply R
  reply_flag message successful = (
    if successful then Status.ok else Status.invalid_argument message,
    Response.success successful,
  )

  abbrev pub reply_ok : Response R → Reply R
  reply_ok response = (Status.ok, response)

  abbrev pub items : List (Data R) → List (ℕ × Text)
  items found = map (λ (d : Data R). (d.id, d.content)) found

module _ {R D : Type 0} ⦃f : Float R⦄ ⦃disk : Disk R D⦄ where
  -- VectorDatabaseServiceImpl::CreateTable
  unfoldable pub handle_create_table :
      Engine R D → Text → ℕ → Option (IndexConfig R) → ℕ → Engine R D × Reply R
  handle_create_table s name dimensionality none cache_size = (s, missing missing_index_config)
  handle_create_table s name dimensionality (some (IndexConfig.hnsw config)) cache_size =
      if is_empty name
        || (nat_beq dimensionality 0
            || (nat_beq config.m 0
                || (nat_beq config.m0 0
                    || (nat_beq config.ef_construction 0 || f.eq config.ml f.zero))))
      then (s, missing missing_arguments)
      else (let made =
            engine_create_table s name dimensionality
              (record config { vector_dimensionality = dimensionality }) no_flat_config
              cache_size in
          (made.0, reply_ok (Response.success made.1)))
  handle_create_table s name dimensionality (some (IndexConfig.flat config)) cache_size =
      let made =
        engine_create_table s name dimensionality no_hnsw_config
          (record config { vector_dimensionality = dimensionality }) cache_size in
      (made.0, reply_ok (Response.success made.1))

module _ {R D : Type 0} ⦃f : Float R⦄ ⦃source : LevelSource R⦄ ⦃disk : Disk R D⦄
    ⦃hash : FloatHash R⦄ where
  -- the handlers, by their requests
  unfoldable pub handle : Engine R D → Request R → Option (Engine R D × Reply R)
  handle s (Request.insert table id vector content) =
      if is_empty table then some (s, missing missing_table) else (do
        result ← engine_insert s table id vector content
        some (result.0, reply_flag insert_failed result.1))
  handle s (Request.remove table id) =
      if is_empty table then some (s, missing missing_table) else (do
        result ← engine_remove s table id
        some (result.0, reply_flag remove_failed result.1))
  handle s (Request.search table query k search_parameter latency) =
      if is_empty table then some (s, missing missing_table) else (do
        result ← engine_search s table query k search_parameter latency
        some (result.0, reply_ok (Response.data_found (items result.1))))
  handle s (Request.batch_insert table vectors) =
      if is_empty table then some (s, missing missing_table) else (do
        result ← engine_batch_insert s table vectors
        some (result.0, reply_ok (Response.successes result.1)))
  handle s (Request.batch_remove table ids) =
      if is_empty table then some (s, missing missing_table) else (do
        result ← engine_batch_remove s table ids
        some (result.0, reply_ok (Response.successes result.1)))
  handle s (Request.batch_search table requests measures) =
      if is_empty table then some (s, missing missing_table) else (do
        result ← engine_batch_search s table requests measures
        some (result.0, reply_ok (Response.result_lists (map items result.1))))
  handle s (Request.stats table) =
      if is_empty table
      then some (s, missing missing_table)
      else (do found ← get_stats s table; some (s, reply_ok (Response.stats_of found)))
  handle s (Request.metrics table) =
      if is_empty table
      then some (s, missing missing_table)
      else (do found ← get_metrics s table; some (s, reply_ok (Response.metrics_of found)))
  handle s (Request.create_table name dimensionality config cache_size) =
      some (handle_create_table s name dimensionality config cache_size)
  handle s Request.list_tables = some (s, reply_ok (Response.table_names (engine_list_tables s)))
  handle s Request.health_check = some (s, reply_ok (Response.health true healthy))

-- What the engine is asked to do, one after the other: a request of a client, or the call of Cleanup
-- by the cleaner, for a table and with a reading of the clock.
pub data Event (R : Type 0) : Type 0 where
  request : Request R → Event R
  cleanup : Text → R → Event R

module _ {R D : Type 0} ⦃f : Float R⦄ ⦃source : LevelSource R⦄ ⦃disk : Disk R D⦄
    ⦃hash : FloatHash R⦄ where
  -- events one after the other, with the replies to the requests
  unfoldable pub serve : Engine R D → List (Event R) → Option (Engine R D × List (Reply R))
  serve s [] = some (s, [])
  serve s (Event.request r ∷ rest) = do
    result ← handle s r
    others ← serve result.0 rest
    some (others.0, result.1 ∷ others.1)
  serve s (Event.cleanup table latency ∷ rest) = do
    s' ← engine_cleanup s table false latency
    serve s' rest

module _ {R W B : Type 0} ⦃f : Float R⦄ ⦃text : FloatText R⦄ ⦃net : Network R W⦄ where
  -- VectorDatabaseServiceImpl::DropTable
  unfoldable pub handle_drop_table :
      Engine R (Directory B)
      → ReplicaManager W
      → Text
      → Option ((Engine R (Directory B) × ReplicaManager W) × Reply R)
  handle_drop_table s m name =
      if is_empty name
      then some ((s, m), missing missing_name)
      else (do result ← drop_table s m name; some (result.0, reply_ok (Response.success result.1)))
