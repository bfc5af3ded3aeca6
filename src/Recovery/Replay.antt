-- ===== src/Recovery/Replay.antt =====
-- ReplayWAL on an engine, and the restoring of a table whose log leads to its store.
use vector_database.Prelude.{
  ℕ, ◌≡◌, refl, ap, subst, ◌∙◌, true, false, some, List, [], ◌∷◌, map, foldl, All, nat_eq, Text,
  text_eq, arith, Option-cases, inl, inr,
}
use vector_database.Prelude.Map.{find, contains, find-assign_self}
use vector_database.Float.{Float, Vector}
use vector_database.Index.Any.{AnyIndex, any_index, any_view, any_laws}
use vector_database.Index.Flat.{FlatIndexConfig}
use vector_database.Index.Hnsw.{HnswIndexConfig, LevelSource}
use vector_database.Store.{IndexType, VectorStore, insert as store_insert, remove as store_remove}
use vector_database.Store.Indexed.{IsIndexed}
use vector_database.Store.Total.{remove-IsIndexed}
use vector_database.Stats.{StatType, increment, set_removed_flag}
use vector_database.Engine.{Engine}
use vector_database.Engine.Present.{Table}
use vector_database.Engine.Tables.{
  WalEntry, IndexConfig, hnsw_config_of, flat_config_of, create_table,
}
use vector_database.Engine.Sync.{inserted, taken_out, apply_insert_steps, apply_remove_steps}
use vector_database.Persistence.Stream.{FloatText, lines}
use vector_database.Persistence.Messages.{Protobuf}
use vector_database.Persistence.Wal.{replay_lines, replay_wal}
use vector_database.Persistence.Wal.Lines.{FloatTextLaws}
use vector_database.Persistence.Wal.RoundTrip.{
  LogCall, line_of, append_call, entry_of, IsLogged, lines-written, foldl-append_call,
  parse_line-line_of,
}
use vector_database.Recovery.{Directory, file_disk, replay_entry}
use vector_database.Recovery.Mirror.{replay_step, replay_all, replay_step-insert, some-injective}

module _ {R B : Type 0} ⦃f : Float R⦄ ⦃source : LevelSource R⦄ ⦃text : FloatText R⦄
    ⦃proto : Protobuf R B⦄ where
  create_table_taken :
      (s : Engine R (Directory B)) (n : Text) (dimensionality : ℕ) (hnsw : HnswIndexConfig R)
      (flat : FlatIndexConfig) (cache_size : ℕ)
      → contains n s.store_map ≡ true
      → create_table s n dimensionality hnsw flat cache_size ≡ (s, false)
  unfolding create_table
  create_table_taken s n dimensionality hnsw flat cache_size here = ground arith

  -- A table whose store is in order, and that has its counters. They need not agree with the store
  -- while the engine restores it.
  pub record IsReady (s : Engine R (Directory B)) (n : Text) (a : VectorStore R (AnyIndex R))
      : Type 0 where
    pub there : find n s.store_map ≡ some a
    pub stats_there : contains n s.stats_manager_map ≡ true
    pub metrics_there : contains n s.metrics_manager_map ≡ true
    pub indexed : IsIndexed a

  pub IsReady-Table :
      (s : Engine R (Directory B)) (n : Text) (a : VectorStore R (AnyIndex R))
      → IsReady s n a
      → (t : Table s n) × (t.store ≡ a)
  IsReady-Table s n a h = elim (Option-cases (find n s.stats_manager_map)) [
    | inl absent ↦ absurd (ground (arith, h.stats_there))
    | inr (stats, e) ↦ elim (Option-cases (find n s.metrics_manager_map)) [
      | inl absent ↦ absurd (ground (arith, h.metrics_there))
      | inr (metrics, e') ↦ (
        record {
          store = a;
          stats = stats;
          metrics = metrics;
          found_store = h.there;
          found_stats = e;
          found_metrics = e';
        },
        refl,
      )
    ]
  ]

  -- the engine follows the store of the table
  abbrev Replayed : Engine R (Directory B) → Text → WalEntry R → VectorStore R (AnyIndex R) → Type 0
  Replayed s n entry a' =
      (u : Engine R (Directory B)) × (replay_entry s entry ≡ some u)
      × IsReady u n a'
      × (u.disk ≡ s.disk)

  replay_entry-Replayed_insert :
      (s : Engine R (Directory B)) (n : Text) (id : ℕ) (v : Vector R) (content : Text)
      (a a' : VectorStore R (AnyIndex R))
      → IsReady s n a
      → replay_step a (WalEntry.insert n id v content) ≡ some a'
      → Replayed s n (WalEntry.insert n id v content) a'
  unfolding replay_entry
  replay_entry-Replayed_insert s n id v content a a' h e =
      let (t, same) = IsReady-Table s n a h in
      let (ok, e', ha) = replay_step-insert a a' n id v content h.indexed e in
      let done =
        apply_insert_steps s n id v content t a' ok (ground (arith, t.found_store, t.found_stats))
          (ap (λ b. store_insert b id v content) same ∙ e') in
      (
        inserted s n t a' ok,
        rw done,
        record {
          there = find-assign_self n a' s.store_map;
          stats_there = ground (
            arith,
            h.stats_there,
            find-assign_self n (increment t.stats StatType.vector) s.stats_manager_map,
          );
          metrics_there = h.metrics_there;
          indexed = ha;
        },
        refl,
      )

  replay_entry-Replayed_remove :
      (s : Engine R (Directory B)) (n : Text) (id : ℕ) (a : VectorStore R (AnyIndex R))
      → IsReady s n a
      → Replayed s n (WalEntry.remove n id) (store_remove a id).0
  unfolding replay_entry
  replay_entry-Replayed_remove s n id a h =
      let (t, same) = IsReady-Table s n a h in
      let done = apply_remove_steps s n id t (ground (arith, t.found_store, t.found_stats)) in
      (
        taken_out s n t id,
        rw done,
        record {
          there =
              find-assign_self n (store_remove t.store id).0 s.store_map
              ∙ ap (λ b. some (store_remove b id).0) same;
          stats_there = ground (
            arith,
            h.stats_there,
            find-assign_self n
                (increment (increment (set_removed_flag t.stats true) StatType.deleted)
                  StatType.stale)
                s.stats_manager_map,
          );
          metrics_there = h.metrics_there;
          indexed = (remove-IsIndexed any_laws a id h.indexed).1;
        },
        refl,
      )

  entry_replayed_create :
      (s : Engine R (Directory B)) (n : Text) (dimensionality : ℕ) (config : IndexConfig R)
      (cache_size : ℕ)
      → contains n s.store_map ≡ true
      → replay_entry s (WalEntry.create n dimensionality config cache_size) ≡ some s
  unfolding replay_entry
  entry_replayed_create s n dimensionality config cache_size here =
      ap (λ r. some r.0)
        (create_table_taken s n dimensionality (hnsw_config_of f.zero config)
          (flat_config_of config) cache_size here)

module _ {R B : Type 0} ⦃f : Float R⦄ ⦃source : LevelSource R⦄ ⦃text : FloatText R⦄
    ⦃proto : Protobuf R B⦄ (laws : FloatTextLaws R) where
  replay_entry-Replayed :
      (s : Engine R (Directory B)) (n : Text) (index_type : IndexType) (c : LogCall R)
      (a a' : VectorStore R (AnyIndex R))
      → IsReady s n a
      → replay_step a (entry_of laws index_type n c) ≡ some a'
      → Replayed s n (entry_of laws index_type n c) a'
  unfolding replay_step
  replay_entry-Replayed s n index_type (LogCall.insert id v content) a a' h e =
      replay_entry-Replayed_insert s n id (map laws.six_digits v) content a a' h e
  replay_entry-Replayed s n index_type (LogCall.remove id) a a' h e =
      let (u, done, hu, du) = replay_entry-Replayed_remove s n id a h in
      (u, done, subst (IsReady u n) (some-injective e) hu, du)
  replay_entry-Replayed s n IndexType.hnsw (LogCall.create hnsw flat cache_size) a a' h e = (
    s,
    entry_replayed_create s n _ _ cache_size (ground (arith, h.there)),
    subst (IsReady s n) (some-injective e) h,
    refl,
  )
  replay_entry-Replayed s n IndexType.flat (LogCall.create hnsw flat cache_size) a a' h e = (
    s,
    entry_replayed_create s n _ _ cache_size (ground (arith, h.there)),
    subst (IsReady s n) (some-injective e) h,
    refl,
  )
  replay_entry-Replayed s n index_type LogCall.drop_table a a' h e = absurd (ground arith)

  lines_replayed :
      (s : Engine R (Directory B)) (n : Text) (index_type : IndexType) (calls : List (LogCall R))
      (a a' : VectorStore R (AnyIndex R))
      → IsReady s n a
      → All (IsLogged laws) calls
      → replay_all a (map (entry_of laws index_type n) calls) ≡ some a'
      → (u : Engine R (Directory B)) × (replay_lines index_type n replay_entry s
            (map (line_of index_type) calls)
          ≡ some u)
        × IsReady u n a'
        × (u.disk ≡ s.disk)
  unfolding replay_lines replay_all
  lines_replayed s n index_type [] a a' h fits e =
      (s, refl, subst (IsReady s n) (some-injective e) h, refl)
  lines_replayed s n index_type (c ∷ calls) a a' h fits e =
      elim (Option-cases (replay_step a (entry_of laws index_type n c))) [
        | inl stuck ↦ absurd (ground arith)
        | inr (b, e') ↦
            let (u, done, hu, du) = replay_entry-Replayed s n index_type c a b h e' in
            let (w, rest, hw, dw) =
              lines_replayed u n index_type calls b a' hu fits.1 (ground arith) in
            (w, rw (parse_line-line_of laws index_type n c fits.0, done, rest), hw, dw ∙ du)
      ]

  -- ReplayWAL of the log of calls does to the engine what the entries do to the store.
  pub wal_replayed :
      (s : Engine R (Directory B)) (n : Text) (index_type : IndexType) (calls : List (LogCall R))
      (a a' : VectorStore R (AnyIndex R))
      → IsReady s n a
      → All (IsLogged laws) calls
      → replay_all a (map (entry_of laws index_type n) calls) ≡ some a'
      → (u : Engine R (Directory B)) × (replay_wal index_type n replay_entry s
            (foldl (append_call index_type) [] calls)
          ≡ some u)
        × IsReady u n a'
        × (u.disk ≡ s.disk)
  unfolding replay_wal
  wal_replayed s n index_type calls a a' h fits e =
      let (u, done, hu, du) = lines_replayed s n index_type calls a a' h fits e in
      (
        u,
        ap (λ file. replay_lines index_type n replay_entry s (lines file))
              (foldl-append_call index_type [] calls)
            ∙ ap (replay_lines index_type n replay_entry s)
                (lines-written laws index_type calls fits)
            ∙ done,
        hu,
        du,
      )
