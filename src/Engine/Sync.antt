-- ===== src/Engine/Sync.antt =====
-- ApplyWALEntry on a replica, and the handler of Sync that calls it.
use vector_database.Prelude.{
  ℕ, suc, ◌≤◌, ◌≡◌, refl, sym, ap, subst, ◌∙◌, Bool, true, false, ◌&&◌, some, List, [], ◌∷◌, length,
  if◌then◌else◌, Text, text_eq, nat_eq, arith, Bool-cases, inl, inr, ◌==◌,
}
use vector_database.Prelude.Map.{find, assign, contains, find-assign}
use vector_database.Float.{Float, Vector}
use vector_database.Index.Any.{AnyIndex, any_index, any_view, any_laws}
use vector_database.Index.Hnsw.{LevelSource}
use vector_database.Store.{VectorStore, insert as store_insert, remove as store_remove}
use vector_database.Store.Indexed.{accepts}
use vector_database.Stats.{StatsManager, StatType, set_removed_flag, set_modified_flag, increment}
use vector_database.Engine.{Disk, Engine}
use vector_database.Engine.Tables.{
  WalEntry, hnsw_config_of, flat_config_of, apply_insert, apply_remove, apply_wal_entry, sync,
}
use vector_database.Engine.Accounted.{
  IsCounting, note_insert, note_remove, insert-IsAccounted, remove-IsAccounted,
}
use vector_database.Engine.Running.{IsRunning, written-IsRunning}
use vector_database.Engine.Present.{Table, Table-of, kept}
use vector_database.Engine.Removals.{removed_flag}
use vector_database.Engine.Replica.{
  create_table_on_replica-IsRunning, drop_table_on_replica-IsRunning,
}

-- A replica counts as the primary does, and leaves the modified flag.
abbrev counted_insert : Bool → StatsManager → StatsManager
counted_insert b stats = if b then increment stats StatType.vector else stats

abbrev counted_remove : Bool → StatsManager → StatsManager
counted_remove b stats =
    if b
    then increment (increment (set_removed_flag stats true) StatType.deleted) StatType.stale
    else stats

recount_insert :
    (b : Bool) (n : ℕ) (s : StatsManager)
    → IsCounting n (if b then note_insert s else s)
    → IsCounting n (counted_insert b s)
unfolding note_insert increment set_modified_flag
recount_insert true n s h = record { counted = h.counted; small = h.small }
recount_insert false n s h = h

recount_remove :
    (b : Bool) (n : ℕ) (s : StatsManager)
    → IsCounting n (if b then note_remove s else s)
    → IsCounting n (counted_remove b s)
unfolding note_remove increment set_modified_flag set_removed_flag
recount_remove true n s h = record { counted = h.counted; small = h.small }
recount_remove false n s h = h

find_if :
    (b : Bool) (n m : Text) (x y : StatsManager) (o : List (Text × StatsManager))
    → find n o ≡ some y
    → find m (if b then assign n x o else o)
      ≡ (if n == m then some (if b then x else y) else find m o)
find_if true n m x y o e = find-assign n m x o
find_if false n m x y o e = kept n m y o e

module _ {R D : Type 0} ⦃f : Float R⦄ ⦃source : LevelSource R⦄ ⦃disk : Disk R D⦄ where
  apply_insert_absent :
      (s : Engine R D) (n : Text) (id : ℕ) (v : Vector R) (content : Text)
      → (contains n s.store_map && contains n s.stats_manager_map) ≡ false
      → apply_insert s n id v content ≡ some (s, false)
  unfolding apply_insert
  apply_insert_absent s n id v content h = rw h

  -- the state after the store answered
  abbrev pub inserted :
      (s : Engine R D) (n : Text) → Table s n → VectorStore R (AnyIndex R) → Bool → Engine R D
  inserted s n t store' ok = record s {
    store_map = assign n store' s.store_map;
    stats_manager_map =
        if ok
        then assign n (increment t.stats StatType.vector) s.stats_manager_map
        else s.stats_manager_map;
  }

  pub apply_insert_steps :
      (s : Engine R D) (n : Text) (id : ℕ) (v : Vector R) (content : Text) (t : Table s n)
      (store' : VectorStore R (AnyIndex R)) (ok : Bool)
      → (contains n s.store_map && contains n s.stats_manager_map) ≡ true
      → store_insert t.store id v content ≡ some (store', ok)
      → apply_insert s n id v content ≡ some (inserted s n t store' ok, ok)
  unfolding apply_insert
  apply_insert_steps s n id v content t store' ok h e = rw (h, t.found_store, t.found_stats, e)

  pub apply_insert_total :
      (s : Engine R D) (n : Text) (id : ℕ) (v : Vector R) (content : Text)
      → IsRunning s
      → (u : Engine R D) × (ok : Bool) × (apply_insert s n id v content ≡ some (u, ok))
        × IsRunning u
  apply_insert_total s n id v content h =
      elim (Bool-cases (contains n s.store_map && contains n s.stats_manager_map)) [
        | inr absent ↦ (s, false, apply_insert_absent s n id v content absent, h)
        | inl present ↦
            let t = Table-of s n h (ground arith) in
            let (store', e, a) =
              insert-IsAccounted any_laws t.store t.stats id v content
                (h.accounted n t.store t.stats t.found_store t.found_stats) in
            let ok = accepts t.store id v in
            (
              inserted s n t store' ok,
              ok,
              apply_insert_steps s n id v content t store' ok present e,
              written-IsRunning s (inserted s n t store' ok) n store' (counted_insert ok t.stats) h
                  (ground (arith, t.found_store))
                  (record {
                    indexed = a.indexed;
                    counting = recount_insert ok _ t.stats a.counting;
                  })
                  (λ m. find-assign n m store' s.store_map)
                  (λ m. find_if ok n m _ t.stats s.stats_manager_map t.found_stats) (λ m. refl) refl
                  refl,
            )
      ]

  apply_remove_absent :
      (s : Engine R D) (n : Text) (id : ℕ)
      → (contains n s.store_map && contains n s.stats_manager_map) ≡ false
      → apply_remove s n id ≡ some (s, false)
  unfolding apply_remove
  apply_remove_absent s n id h = rw h

  abbrev pub taken_out : (s : Engine R D) (n : Text) → Table s n → ℕ → Engine R D
  taken_out s n t id = record s {
    store_map = assign n (store_remove t.store id).0 s.store_map;
    stats_manager_map =
        if (store_remove t.store id).1
        then assign n
            (increment (increment (set_removed_flag t.stats true) StatType.deleted) StatType.stale)
            s.stats_manager_map
        else s.stats_manager_map;
  }

  pub apply_remove_steps :
      (s : Engine R D) (n : Text) (id : ℕ) (t : Table s n)
      → (contains n s.store_map && contains n s.stats_manager_map) ≡ true
      → apply_remove s n id ≡ some (taken_out s n t id, (store_remove t.store id).1)
  unfolding apply_remove
  apply_remove_steps s n id t h = rw (h, t.found_store, t.found_stats)

  pub apply_remove_total :
      (s : Engine R D) (n : Text) (id : ℕ)
      → IsRunning s
      → (u : Engine R D) × (ok : Bool) × (apply_remove s n id ≡ some (u, ok)) × IsRunning u
  apply_remove_total s n id h =
      elim (Bool-cases (contains n s.store_map && contains n s.stats_manager_map)) [
        | inr absent ↦ (s, false, apply_remove_absent s n id absent, h)
        | inl present ↦
            let t = Table-of s n h (ground arith) in
            let a =
              remove-IsAccounted any_laws t.store t.stats id
                (h.accounted n t.store t.stats t.found_store t.found_stats) in
            let ok = (store_remove t.store id).1 in
            (
              taken_out s n t id,
              ok,
              apply_remove_steps s n id t present,
              written-IsRunning s (taken_out s n t id) n (store_remove t.store id).0
                  (counted_remove ok t.stats) h (ground (arith, t.found_store))
                  (record {
                    indexed = a.indexed;
                    counting =
                        recount_remove ok (length (store_remove t.store id).0.store) t.stats (
                          subst
                            (λ b.
                              IsCounting (length (store_remove t.store id).0.store)
                                (if b then note_remove t.stats else t.stats))
                            (sym (removed_flag t.store id)) a.counting);
                  })
                  (λ m. find-assign n m _ s.store_map)
                  (λ m. find_if ok n m _ t.stats s.stats_manager_map t.found_stats) (λ m. refl) refl
                  refl,
            )
      ]

  -- A replica applies any entry without throwing, and stays in order.
  pub apply_wal_entry-IsRunning :
      (s : Engine R D) (entry : WalEntry R)
      → IsRunning s
      → (u : Engine R D) × (ok : Bool) × (apply_wal_entry s entry ≡ some (u, ok)) × IsRunning u
  unfolding apply_wal_entry
  apply_wal_entry-IsRunning s (WalEntry.insert n id v content) h =
      apply_insert_total s n id v content h
  apply_wal_entry-IsRunning s (WalEntry.remove n id) h = apply_remove_total s n id h
  apply_wal_entry-IsRunning s (WalEntry.create n dimensionality config cache_size) h = (
    _,
    _,
    refl,
    create_table_on_replica-IsRunning s n dimensionality (hnsw_config_of f.zero config)
        (flat_config_of config) cache_size h,
  )
  apply_wal_entry-IsRunning s (WalEntry.drop n) h =
      (_, _, refl, drop_table_on_replica-IsRunning s n h)

  sync_applied :
      (s u w : Engine R D) (k : ℕ) (entry : WalEntry R) (rest : List (WalEntry R))
      → apply_wal_entry s entry ≡ some (u, true)
      → sync u rest ≡ some (w, k)
      → sync s (entry ∷ rest) ≡ some (w, suc k)
  unfolding sync
  sync_applied s u w k entry rest e e' = rw (e, e')

  -- An entry that the replica refuses ends the request.
  sync_refused :
      (s u : Engine R D) (entry : WalEntry R) (rest : List (WalEntry R))
      → apply_wal_entry s entry ≡ some (u, false)
      → sync s (entry ∷ rest) ≡ some (u, 0)
  unfolding sync
  sync_refused s u entry rest e = rw e

  -- Sync answers any list of entries without throwing, and counts at most all of them. The stores
  -- and counters stay in agreement.
  pub sync-IsRunning :
      (s : Engine R D) (entries : List (WalEntry R))
      → IsRunning s
      → (u : Engine R D) × (successful : ℕ) × (sync s entries ≡ some (u, successful))
        × IsRunning u
        × (successful ≤ length entries)
  unfolding sync
  sync-IsRunning s [] h = (s, 0, refl, h, omega arith)
  sync-IsRunning s (entry ∷ rest) h =
      let (u, ok, e, hu) = apply_wal_entry-IsRunning s entry h in
      let (w, k, e', hw, le) = sync-IsRunning u rest hu in
      elim (Bool-cases ok) [
        | inl applied ↦ (
          w,
          suc k,
          sync_applied s u w k entry rest (e ∙ ap (λ b. some (u, b)) applied) e',
          hw,
          omega arith,
        )
        | inr refused ↦
            (u, 0, sync_refused s u entry rest (e ∙ ap (λ b. some (u, b)) refused), hu, omega arith)
      ]
