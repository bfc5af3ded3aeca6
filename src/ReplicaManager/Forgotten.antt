-- ===== src/ReplicaManager/Forgotten.antt =====
-- A replica that is out of sync is found once, and forgotten in the next round.
use vector_database.Prelude.{
  ℕ, ◌+◌, ◌-◌, ◌%◌, ◌^◌, ◌≤◌, ◌<◌, ◌≡◌, refl, sym, ap, ◌∙◌, Bool, true, false, ◌&&◌, some, List, [],
  ◌∷◌, map, foldl, drop, length, length-map, length-drop, All, is_empty, nat_beq, nat_beq_iff,
  nat_eq, Text, text_eq, text_beq_iff, arith,
}
use vector_database.Prelude.Map.{find, find-assign_self}
use vector_database.Float.{Float}
use vector_database.Index.Any.{AnyIndex}
use vector_database.Store.{IndexType, VectorStore, compute_checksum}
use vector_database.Stats.{StatsManager, set_modified_flag}
use vector_database.Engine.{Engine}
use vector_database.Engine.Tables.{WalEntry}
use vector_database.Persistence.Stream.{FloatText}
use vector_database.Persistence.Wal.Lines.{FloatTextLaws}
use vector_database.Persistence.Wal.RoundTrip.{
  LogCall, append_call, entry_of, IsLogged, serialize_wal_entries-append_call,
}
use vector_database.Recovery.{Directory, log_text}
use vector_database.ReplicaManager.{
  Network, Attempt, ReplicaManager, offset_at, with_offset, send, attempt, attempts, retries,
  sync_replicas, sync_table,
}
use vector_database.ReplicaManager.Attempts.{attempts-go}
use vector_database.ReplicaManager.Counted.{synced, sync_table-step}
use vector_database.ReplicaManager.Offsets.{offset_at-with_offset}

length-zero : {A : Type 0} (xs : List A) → length xs ≡ 0 → is_empty xs ≡ true
length-zero [] h = refl
length-zero (x ∷ xs) h = absurd (omega arith)

length-positive : {A : Type 0} (xs : List A) → 0 < length xs → is_empty xs ≡ false
length-positive [] h = absurd (omega arith)
length-positive (x ∷ xs) h = refl

module _ {R W : Type 0} ⦃f : Float R⦄ ⦃text : FloatText R⦄ ⦃net : Network R W⦄
    (laws : FloatTextLaws R) where
  -- with nothing left to send, a try does nothing
  attempt-idle :
      (index_type : IndexType) (table replica : Text) (calls : List (LogCall R))
      (store : VectorStore R (AnyIndex R)) (i : ℕ) (a : Attempt W)
      → All (IsLogged laws) calls
      → a.offset ≡ length calls
      → attempt index_type table replica (foldl (append_call index_type) [] calls) store i a
        ≡ some a
  unfolding attempt
  attempt-idle index_type table replica calls store i a fits end =
      let entries = map (entry_of laws index_type table) calls in
      rw (
        serialize_wal_entries-append_call laws index_type table calls a.offset fits,
        length-zero (drop a.offset entries) (
            omega (
              arith,
              length-drop a.offset entries,
              length-map (entry_of laws index_type table) calls,
              end,
            )),
      )

  attempts-idle :
      (index_type : IndexType) (table replica : Text) (calls : List (LogCall R))
      (store : VectorStore R (AnyIndex R)) (is : List ℕ) (a : Attempt W)
      → All (IsLogged laws) calls
      → a.offset ≡ length calls
      → a.done ≡ false
      → attempts index_type table replica (foldl (append_call index_type) [] calls) store is a
        ≡ some a
  unfolding attempts
  attempts-idle index_type table replica calls store [] a fits end going = refl
  attempts-idle index_type table replica calls store (i ∷ is) a fits end going =
      attempts-go laws index_type table replica _ store i is a a
        (attempt-idle index_type table replica calls store i a fits end) going
      ∙ attempts-idle index_type table replica calls store is a fits end going

  -- a try that is answered with another checksum
  send-mismatch :
      (table replica : Text) (entries : List (WalEntry R)) (n i checksum sum : ℕ) (ok : Bool)
      (a : Attempt W) (w1 w2 : W)
      → n < 2 ^ 64
      → a.offset ≤ n
      → length entries ≡ n - a.offset
      → net.sync a.network replica entries ≡ (w1, (true, n - a.offset))
      → net.get_checksum w1 replica table ≡ (w2, (ok, sum))
      → (ok && nat_beq checksum sum) ≡ false
      → send table replica checksum i entries a
        ≡ record { network = w2; offset = n; failed = true; done = a.done }
  unfolding send
  send-mismatch table replica entries n i checksum sum ok a w1 w2 small le len answer reply differ =
      let all : nat_beq (n - a.offset) (length entries) ≡ true =
        (nat_beq_iff (n - a.offset) (length entries)).1 (sym len) in
      let end : (a.offset + (n - a.offset)) % 2 ^ 64 ≡ n = omega arith in
      rw (answer, reply, all, differ, end)

  attempt-mismatch :
      (index_type : IndexType) (table replica : Text) (calls : List (LogCall R))
      (store : VectorStore R (AnyIndex R)) (i checksum sum : ℕ) (ok : Bool) (a : Attempt W)
      (w1 w2 : W)
      → All (IsLogged laws) calls
      → length calls < 2 ^ 64
      → a.offset < length calls
      → compute_checksum store ≡ some checksum
      → net.sync a.network replica (drop a.offset (map (entry_of laws index_type table) calls))
        ≡ (w1, (true, length calls - a.offset))
      → net.get_checksum w1 replica table ≡ (w2, (ok, sum))
      → (ok && nat_beq checksum sum) ≡ false
      → attempt index_type table replica (foldl (append_call index_type) [] calls) store i a
        ≡ some (record { network = w2; offset = length calls; failed = true; done = a.done })
  unfolding attempt
  attempt-mismatch index_type table replica calls store i checksum sum ok a w1 w2 fits small lt cs
        answer reply differ =
      let entries = drop a.offset (map (entry_of laws index_type table) calls) in
      let len : length entries ≡ length calls - a.offset =
        length-drop a.offset (map (entry_of laws index_type table) calls)
        ∙ ap (λ l. l - a.offset) (length-map (entry_of laws index_type table) calls) in
      rw (
        serialize_wal_entries-append_call laws index_type table calls a.offset fits,
        length-positive entries (omega (arith, len)),
        cs,
        send-mismatch table replica entries (length calls) i checksum sum ok a w1 w2 small
            (omega arith) len answer reply differ,
      )

  -- The loop over the retries after such an answer: the other tries send nothing.
  attempts-mismatch :
      (index_type : IndexType) (table replica : Text) (calls : List (LogCall R))
      (store : VectorStore R (AnyIndex R)) (checksum sum offset : ℕ) (ok : Bool) (w w1 w2 : W)
      → All (IsLogged laws) calls
      → length calls < 2 ^ 64
      → offset < length calls
      → compute_checksum store ≡ some checksum
      → net.sync w replica (drop offset (map (entry_of laws index_type table) calls))
        ≡ (w1, (true, length calls - offset))
      → net.get_checksum w1 replica table ≡ (w2, (ok, sum))
      → (ok && nat_beq checksum sum) ≡ false
      → attempts index_type table replica
          (foldl (append_call index_type) [] calls)
          store
          retries
          (record { network = w; offset = offset; failed = false; done = false })
        ≡ some (record { network = w2; offset = length calls; failed = true; done = false })
  attempts-mismatch index_type table replica calls store checksum sum offset ok w w1 w2 fits small
        lt cs answer reply differ =
      let a : Attempt W = record { network = w; offset = offset; failed = false; done = false } in
      let b : Attempt W = record {
        network = w2;
        offset = length calls;
        failed = true;
        done = false;
      } in
      attempts-go laws index_type table replica _ store 0 (1 ∷ 2 ∷ 3 ∷ []) a b
        (attempt-mismatch index_type table replica calls store 0 checksum sum ok a w1 w2 fits small
          lt cs answer reply differ)
        refl
      ∙ attempts-idle index_type table replica calls store (1 ∷ 2 ∷ 3 ∷ []) b fits refl refl

  replicas-end :
      (index_type : IndexType) (table replica file : Text) (store : VectorStore R (AnyIndex R))
      (m : ReplicaManager W) (a : Attempt W)
      → attempts index_type table replica file store retries (record {
        network = m.network;
        offset = offset_at m table replica;
        failed = false;
        done = false;
      })
        ≡ some a
      → sync_replicas index_type table file store (replica ∷ []) m false
        ≡ some (record (with_offset m table replica a.offset) { network = a.network }, a.failed)
  unfolding sync_replicas
  replicas-end index_type table replica file store m a e = rw e

module _ {R W B : Type 0} ⦃f : Float R⦄ ⦃text : FloatText R⦄ ⦃net : Network R W⦄
    (laws : FloatTextLaws R) where
  -- A replica counts all that it is sent, and then reports another checksum, or none: Sync of the
  -- table leaves the modified flag. The next Sync of the same log clears it, and calls no replica.
  pub sync_table-forgotten :
      (s : Engine R (Directory B)) (m : ReplicaManager W) (table replica : Text)
      (index_type : IndexType) (calls : List (LogCall R)) (store : VectorStore R (AnyIndex R))
      (stats : StatsManager) (checksum sum : ℕ) (ok : Bool) (w1 w2 : W)
      → All (IsLogged laws) calls
      → length calls < 2 ^ 64
      → m.replicas ≡ replica ∷ []
      → find table s.store_map ≡ some store
      → find table s.stats_manager_map ≡ some stats
      → log_text s.disk table ≡ foldl (append_call index_type) [] calls
      → offset_at m table replica < length calls
      → compute_checksum store ≡ some checksum
      → net.sync m.network replica
          (drop (offset_at m table replica) (map (entry_of laws index_type table) calls))
        ≡ (w1, (true, length calls - offset_at m table replica))
      → net.get_checksum w1 replica table ≡ (w2, (ok, sum))
      → (ok && nat_beq checksum sum) ≡ false
      → (m1 m2 : ReplicaManager W) × (t : Engine R (Directory B)) × (sync_table s m table index_type
          ≡ some (s, m1))
        × (sync_table s m1 table index_type ≡ some (t, m2))
        × (m2.network ≡ m1.network)
        × (find table t.stats_manager_map ≡ some (set_modified_flag stats false))
  sync_table-forgotten s m table replica index_type calls store stats checksum sum ok w1 w2 fits
        small one there counters log lt cs answer reply differ =
      let m1 : ReplicaManager W = record (with_offset m table replica (length calls)) {
        network = w2;
      } in
      let end : offset_at m1 table replica ≡ length calls =
        offset_at-with_offset m table replica replica (length calls) w2
        ∙ ground (arith, text_beq_iff replica replica) in
      let m2 : ReplicaManager W =
        record (with_offset m1 table replica (offset_at m1 table replica)) { network = w2 } in
      (
        m1,
        m2,
        synced s table stats false,
        sync_table-step laws s m m1 table _ index_type store stats true there counters log (
            ap
              (λ rs.
                sync_replicas index_type table (foldl (append_call index_type) [] calls) store rs m
                  false)
              one
            ∙ replicas-end laws index_type table replica _ store m _ (
                attempts-mismatch laws index_type table replica calls store checksum sum
                  (offset_at m table replica) ok m.network w1 w2 fits small lt cs answer reply
                  differ)),
        sync_table-step laws s m1 m2 table _ index_type store stats false there counters log (
            ap
              (λ rs.
                sync_replicas index_type table (foldl (append_call index_type) [] calls) store rs m1
                  false)
              one
            ∙ replicas-end laws index_type table replica _ store m1 _
                (attempts-idle laws index_type table replica calls store retries _ fits end refl)),
        refl,
        find-assign_self table (set_modified_flag stats false) s.stats_manager_map,
      )
