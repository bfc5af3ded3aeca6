-- ===== src/ReplicaManager.antt =====
-- engine/src/replica/replica_manager.cc: what a primary sends to its replicas, and DropTable of the
-- engine, which sends before it drops. The answers of the replicas come from a network.
pub mod Offsets
pub mod Attempts
pub mod Counted
pub mod Forgotten
pub mod Steps
pub mod Following
pub mod Replication
use vector_database.Prelude.{
  ℕ, ◌+◌, ◌%◌, ◌^◌, Bool, true, false, not, ◌&&◌, ◌||◌, Option, none, some, List, [], ◌∷◌, length,
  is_empty, nat_beq, if◌then◌else◌, Text, text_eq, ◌>>=◌,
}
use vector_database.Prelude.Map.{Map, find, assign, erase, contains}
use vector_database.Float.{Float}
use vector_database.Index.Any.{AnyIndex}
use vector_database.Store.{IndexType, VectorStore, compute_checksum}
use vector_database.Stats.{StatsManager, set_modified_flag}
use vector_database.Validator.{validate_drop_table}
use vector_database.Engine.{Engine}
use vector_database.Engine.Tables.{WalEntry, has_all}
use vector_database.Persistence.Stream.{FloatText}
use vector_database.Persistence.Wal.{append_drop, serialize_wal_entries}
use vector_database.Recovery.{Directory, log_text, write_log}

-- The calls of the stub of a replica: whether the status is OK, and the number in the response.
pub record Network (R W : Type 0) : Type 0 where
  pub sync : W → Text → List (WalEntry R) → W × (Bool × ℕ)
  pub get_checksum : W → Text → Text → W × (Bool × ℕ)

-- The state of the loop over the retries: what Sync counted so far for a table and a replica,
-- whether it failed, and whether the loop was left.
pub record Attempt (W : Type 0) : Type 0 where
  pub network : W
  pub offset : ℕ
  pub failed : Bool
  pub done : Bool

pub record ReplicaManager (W : Type 0) : Type 0 where
  pub replicas : List Text
  pub wal_offsets : Map Text (Map Text ℕ)
  pub network : W

-- `i` from 0 up to kRetryCount
abbrev pub retries : List ℕ
retries = 0 ∷ 1 ∷ 2 ∷ 3 ∷ []

abbrev pub any_modified : Map Text StatsManager → Bool
any_modified [] = false
any_modified ((table, stats) ∷ rest) = stats.modified || any_modified rest

module _ {W : Type 0} where
  -- wal_offsets_per_replica_map_[table][replica]
  abbrev pub offsets_at : ReplicaManager W → Text → Map Text ℕ
  offsets_at m table = elim (find table m.wal_offsets) [ none ↦ [] | some offsets ↦ offsets ]

  abbrev pub offset_at : ReplicaManager W → Text → Text → ℕ
  offset_at m table replica = elim (find replica (offsets_at m table)) [
    | none ↦ 0
    | some offset ↦ offset
  ]

  abbrev pub with_offset : ReplicaManager W → Text → Text → ℕ → ReplicaManager W
  with_offset m table replica offset = record m {
    wal_offsets = assign table (assign replica offset (offsets_at m table)) m.wal_offsets;
  }

module _ {R W : Type 0} ⦃f : Float R⦄ ⦃text : FloatText R⦄ ⦃net : Network R W⦄ where
  -- the calls of the stub in the loop over the retries, at `i`
  unfoldable pub send : Text → Text → ℕ → ℕ → List (WalEntry R) → Attempt W → Attempt W
  send table replica checksum i entries a =
      let answer = net.sync a.network replica entries in
      let sent : Attempt W = record a {
        network = answer.0;
        offset = (a.offset + answer.1.1) % 2 ^ 64;
      } in
      let replied = net.get_checksum answer.0 replica table in
      if answer.1.0 && nat_beq answer.1.1 (length entries)
      then if replied.1.0 && nat_beq checksum replied.1.1
        then record sent { network = replied.0; done = true }
        else record sent { network = replied.0; failed = true }
      else if nat_beq i 2
      then record sent { failed = true }
      else sent

  -- the body of the loop; `file` is the text of the log
  unfoldable pub attempt :
      IndexType
      → Text
      → Text
      → Text
      → VectorStore R (AnyIndex R)
      → ℕ
      → Attempt W
      → Option (Attempt W)
  attempt index_type table replica file store i a = do
    entries ← serialize_wal_entries index_type table file a.offset
    if is_empty entries
        then some a
        else (do checksum ← compute_checksum store; some (send table replica checksum i entries a))

  -- the loop
  unfoldable pub attempts :
      IndexType
      → Text
      → Text
      → Text
      → VectorStore R (AnyIndex R)
      → List ℕ
      → Attempt W
      → Option (Attempt W)
  attempts index_type table replica file store [] a = some a
  attempts index_type table replica file store (i ∷ rest) a = do
    a' ← attempt index_type table replica file store i a
    if a'.done then some a' else attempts index_type table replica file store rest a'

  -- the loop over the replicas
  unfoldable pub sync_replicas :
      IndexType
      → Text
      → Text
      → VectorStore R (AnyIndex R)
      → List Text
      → ReplicaManager W
      → Bool
      → Option (ReplicaManager W × Bool)
  sync_replicas index_type table file store [] m failed = some (m, failed)
  sync_replicas index_type table file store (replica ∷ rest) m failed = do
    a ← attempts index_type table replica file store retries (record {
      network = m.network;
      offset = offset_at m table replica;
      failed = failed;
      done = false;
    })
    sync_replicas index_type table file store rest
        (record (with_offset m table replica a.offset) { network = a.network }) a.failed

module _ {R W B : Type 0} ⦃f : Float R⦄ ⦃text : FloatText R⦄ ⦃net : Network R W⦄ where
  -- the body of the loop over the tables
  unfoldable pub sync_table :
      Engine R (Directory B)
      → ReplicaManager W
      → Text
      → IndexType
      → Option (Engine R (Directory B) × ReplicaManager W)
  sync_table s m table index_type = elim (find table s.store_map) [
    | none ↦ some (s, m)
    | some store ↦ (do
      result ← sync_replicas index_type table (log_text s.disk table) store m.replicas m false
      some (
        elim (find table s.stats_manager_map) [
          | none ↦ s
          | some stats ↦ if result.1 then s else record s {
            stats_manager_map = assign table (set_modified_flag stats false) s.stats_manager_map;
          }
        ],
        result.0,
      ))
  ]

  unfoldable pub sync_tables :
      Engine R (Directory B)
      → ReplicaManager W
      → Map Text IndexType
      → Option (Engine R (Directory B) × ReplicaManager W)
  sync_tables s m [] = some (s, m)
  sync_tables s m ((table, index_type) ∷ rest) = do
    result ← sync_table s m table index_type
    sync_tables result.0 result.1 rest

  -- ReplicaManager::Sync
  unfoldable pub sync :
      Engine R (Directory B)
      → ReplicaManager W
      → Bool
      → Option (Engine R (Directory B) × ReplicaManager W)
  sync s m force =
      if s.shutdown && not force then some (s, m) else sync_tables s m s.persistence_manager_map

  -- one round of RunReplicaSyncLoop
  unfoldable pub sync_round :
      Engine R (Directory B) → ReplicaManager W → Option (Engine R (Directory B) × ReplicaManager W)
  sync_round s m =
      if s.shutdown || not (any_modified s.stats_manager_map) then some (s, m) else sync s m false

  -- Engine::DropTable
  unfoldable pub drop_table :
      Engine R (Directory B)
      → ReplicaManager W
      → Text
      → Option ((Engine R (Directory B) × ReplicaManager W) × Bool)
  drop_table s m name =
      if not s.metadata.primary
        || (s.shutdown || (not (validate_drop_table name) || not (has_all s name)))
      then some ((s, m), false)
      else (do
        stats ← find name s.stats_manager_map
        result ←
            sync
              (record s {
                stats_manager_map = assign name (set_modified_flag stats true) s.stats_manager_map;
                disk = write_log s.disk name (append_drop (log_text s.disk name));
              })
              m true
        (let s' = result.0 in
            some (
              (
                record s' {
                  disk = erase name s'.disk;
                  store_map = erase name s'.store_map;
                  persistence_manager_map = erase name s'.persistence_manager_map;
                  stats_manager_map = erase name s'.stats_manager_map;
                  metrics_manager_map = erase name s'.metrics_manager_map;
                  cache_map = erase name s'.cache_map;
                },
                result.1,
              ),
              true,
            )))
