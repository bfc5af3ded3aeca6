-- ===== src/Tests/Replicas.antt =====
-- The theorems of Sync at a table of one vector and a log of one entry.
use vector_database.Prelude.{
  ℕ, suc, ◌≡◌, refl, true, false, Bool, inl, some, List, [], ◌∷◌, foldl, length, text_eq, arith,
}
use vector_database.Prelude.Map.{find}
use vector_database.Store.{IndexType}
use vector_database.Store.Checksum.{compute_checksum_total}
use vector_database.Stats.{set_modified_flag}
use vector_database.Engine.{Engine}
use vector_database.Persistence.Messages.{no_files}
use vector_database.Persistence.Wal.RoundTrip.{LogCall, append_call}
use vector_database.Recovery.{Directory, with_log, log_text, file_disk}
use vector_database.Persistence.Wal.{serialize_wal_entries}
use vector_database.ReplicaManager.{Network, ReplicaManager, sync_table}
use vector_database.Engine.Running.{IsRunning}
use vector_database.Engine.Tables.{WalEntry, sync}
use vector_database.ReplicaManager.Following.{Write, IsFollowing, leading, perform_each}
use vector_database.ReplicaManager.Replication.{sync-perform_each}
use vector_database.ReplicaManager.Forgotten.{sync_table-forgotten}
use vector_database.Tests.Whole.{whole, thirds}
use vector_database.Tests.Engines.{name}
use vector_database.Tests.Files.{decimal, decimal_laws, Message, messages}
use vector_database.Tests.Restarts.{
  one_store, one_store-IsComplete, one_stats, primary, primary-IsRunning,
}

-- A replica that counts all, and whose checksum is out of reach. The network counts the calls.
instance abbrev counting : Network ℕ ℕ
counting = record {
  sync = λ w replica entries. (suc w, (true, length entries));
  get_checksum = λ w replica table. (suc w, (false, 0));
}

abbrev one_call : List (LogCall ℕ)
one_call = LogCall.remove 9 ∷ []

abbrev with_entry : Engine ℕ (Directory Message)
with_entry = record primary {
  disk = (name, with_log no_files (foldl (append_call IndexType.flat) [] one_call)) ∷ [];
}

abbrev one_replica : ReplicaManager ℕ
one_replica = record { replicas = (114 ∷ []) ∷ []; wal_offsets = []; network = 0 }

sync_table-forgotten_example :
    (m1 m2 : ReplicaManager ℕ) × (t : Engine ℕ (Directory Message)) × (sync_table with_entry
        one_replica name IndexType.flat
      ≡ some (with_entry, m1))
    × (sync_table with_entry m1 name IndexType.flat ≡ some (t, m2))
    × (m2.network ≡ m1.network)
    × (find name t.stats_manager_map ≡ some (set_modified_flag one_stats false))
unfolding find
sync_table-forgotten_example =
    sync_table-forgotten decimal_laws with_entry one_replica name (114 ∷ []) IndexType.flat one_call
      one_store one_stats (compute_checksum_total one_store).0 0 false 1 2 (omega arith, tt)
      (omega arith) refl refl refl refl (omega arith) (compute_checksum_total one_store).1 refl refl
      refl

-- a replica that has the table of the primary
abbrev secondary : Engine ℕ (Directory Message)
secondary = record primary {
  metadata = record { primary = false; reindex_threshold = 1; use_cache = true };
}

secondary-IsRunning : IsRunning secondary
secondary-IsRunning = record {
  stats_there = primary-IsRunning.stats_there;
  metrics_there = primary-IsRunning.metrics_there;
  persistence_there = primary-IsRunning.persistence_there;
  cache_there = primary-IsRunning.cache_there;
  accounted = primary-IsRunning.accounted;
}

-- the last of these is refused, as its identifier is there
abbrev writes : List (Write ℕ)
writes =
    Write.insert 7 (2 ∷ 3 ∷ []) (98 ∷ [])
    ∷ Write.remove 1
    ∷ Write.insert 7 (8 ∷ 8 ∷ []) (99 ∷ [])
    ∷ []

-- the log of the primary before
abbrev before : List (LogCall ℕ)
before = LogCall.insert 1 (5 ∷ 4 ∷ []) (97 ∷ []) ∷ []

abbrev writing : Engine ℕ (Directory Message)
writing = record primary {
  disk = (name, with_log no_files (foldl (append_call IndexType.flat) [] before)) ∷ [];
}

writing-IsRunning : IsRunning writing
writing-IsRunning = record {
  stats_there = primary-IsRunning.stats_there;
  metrics_there = primary-IsRunning.metrics_there;
  persistence_there = primary-IsRunning.persistence_there;
  cache_there = primary-IsRunning.cache_there;
  accounted = primary-IsRunning.accounted;
}

following : IsFollowing decimal_laws.six_digits writing secondary name
unfolding find
following = record {
  primary = writing-IsRunning;
  replica = secondary-IsRunning;
  writable = refl;
  original = one_store;
  copy = one_store;
  found_original = refl;
  found_copy = refl;
  mirrors = record {
    indexed = one_store-IsComplete.indexed;
    same_dimension = refl;
    same = λ x. inl refl;
  };
}

sync-perform_each_example :
    (u t : Engine ℕ (Directory Message)) × (flags : List Bool) × (entries : List (WalEntry ℕ))
    × (perform_each writing name writes ≡ some (u, flags))
    × (serialize_wal_entries IndexType.flat name (log_text u.disk name) 1 ≡ some entries)
    × (length entries ≡ 3)
    × (sync secondary entries ≡ some (t, leading flags))
    × (leading flags ≡ 3 → IsFollowing decimal_laws.six_digits u t name)
unfolding find
sync-perform_each_example =
    sync-perform_each decimal_laws writing secondary name IndexType.flat before writes following
      refl ((omega arith, (refl, (refl, tt)), (refl, tt)), tt) (refl, (refl, (refl, tt)))
      (
        (omega arith, (refl, (refl, tt)), (refl, tt)),
        (omega arith, ((omega arith, (refl, (refl, tt)), (refl, tt)), tt)),
      )
