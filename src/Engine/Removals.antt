-- ===== src/Engine/Removals.antt =====
-- Remove of the engine, and BatchRemove.
use vector_database.Prelude.{
  ℕ, ◌≡◌, refl, ap, subst, ◌∙◌, Bool, true, false, ◌&&◌, Option, none, some, ◌==◌, ◌>>=◌, List, [],
  ◌∷◌, length, length-map, suc, map, foldl, all, if◌then◌else◌, Text, text_eq, nat_eq, arith,
  Bool-cases, inl, inr,
}
use vector_database.Prelude.Map.{find, assign, contains, find-assign, find-assign_self}
use vector_database.Float.{Float}
use vector_database.Index.Any.{AnyIndex, any_index, any_view, any_laws}
use vector_database.Index.Hnsw.{LevelSource}
use vector_database.Store.{VectorStore, remove as store_remove}
use vector_database.Metrics.{CountType, increment as count}
use vector_database.Validator.{validate_remove}
use vector_database.Engine.{
  Disk, Engine, is_writable, log_and_remove, remove, remove_each, batch_remove,
}
use vector_database.Engine.Accounted.{IsAccounted, note_remove, remove-IsAccounted}
use vector_database.Engine.Running.{IsRunning, written-IsRunning, refresh_cache_total}
use vector_database.Engine.Present.{Table, Table-of, kept, contains-assign_present}

pub removed_flag :
    {R : Type 0} ⦃f : Float R⦄ ⦃source : LevelSource R⦄ (store : VectorStore R (AnyIndex R))
    (id : ℕ)
    → (store_remove store id).1 ≡ contains id store.store
unfolding store_remove
removed_flag store id = ground arith

module _ {R D : Type 0} ⦃f : Float R⦄ ⦃source : LevelSource R⦄ ⦃disk : Disk R D⦄ where
  removal_done :
      (s : Engine R D) (n : Text) (id : ℕ) (t : Table s n)
      → contains id t.store.store ≡ true
      → log_and_remove s n id
        ≡ some (
          record s {
            disk = disk.append_remove s.disk n id;
            store_map = assign n (store_remove t.store id).0 s.store_map;
            stats_manager_map = assign n (note_remove t.stats) s.stats_manager_map;
            metrics_manager_map =
                assign n (count t.metrics CountType.remove 1) s.metrics_manager_map;
          },
          true,
        )
  unfolding log_and_remove note_remove
  removal_done s n id t present =
      rw (t.found_store, t.found_stats, t.found_metrics, removed_flag t.store id ∙ present)

  removal_declined :
      (s : Engine R D) (n : Text) (id : ℕ) (t : Table s n)
      → contains id t.store.store ≡ false
      → log_and_remove s n id
        ≡ some (
          record s {
            disk = disk.append_remove s.disk n id;
            store_map = assign n (store_remove t.store id).0 s.store_map;
          },
          false,
        )
  unfolding log_and_remove
  removal_declined s n id t absent =
      rw (t.found_store, t.found_stats, t.found_metrics, removed_flag t.store id ∙ absent)

  -- One removal of the engine: logged, answered by the store, and counted.
  pub log_and_remove_total :
      (s : Engine R D) (n : Text) (id : ℕ)
      → IsRunning s
      → (t : Table s n)
      → (u : Engine R D) × (log_and_remove s n id ≡ some (u, contains id t.store.store))
        × IsRunning u
        × (u.disk ≡ disk.append_remove s.disk n id)
        × ((m : Text) → contains m u.store_map ≡ contains m s.store_map)
        × (find n u.store_map ≡ some (store_remove t.store id).0)
  log_and_remove_total s n id h t =
      let store' : VectorStore R (AnyIndex R) = (store_remove t.store id).0 in
      let a =
        remove-IsAccounted any_laws t.store t.stats id
          (h.accounted n t.store t.stats t.found_store t.found_stats) in
      elim (Bool-cases (contains id t.store.store)) [
        | inl present ↦
            let u : Engine R D = record s {
              disk = disk.append_remove s.disk n id;
              store_map = assign n store' s.store_map;
              stats_manager_map = assign n (note_remove t.stats) s.stats_manager_map;
              metrics_manager_map =
                  assign n (count t.metrics CountType.remove 1) s.metrics_manager_map;
            } in
            (
              u,
              rw present (removal_done s n id t present),
              written-IsRunning s u n store' (note_remove t.stats) h (ground (arith, t.found_store))
                  (subst (λ b. IsAccounted store' (if b then note_remove t.stats else t.stats))
                    present a)
                  (λ m. find-assign n m store' s.store_map)
                  (λ m. find-assign n m (note_remove t.stats) s.stats_manager_map)
                  (λ m.
                    contains-assign_present n m (count t.metrics CountType.remove 1) t.metrics
                      s.metrics_manager_map t.found_metrics)
                  refl refl,
              refl,
              λ m. contains-assign_present n m store' t.store s.store_map t.found_store,
              find-assign_self n store' s.store_map,
            )
        | inr absent ↦
            let u : Engine R D = record s {
              disk = disk.append_remove s.disk n id;
              store_map = assign n store' s.store_map;
            } in
            (
              u,
              rw absent (removal_declined s n id t absent),
              written-IsRunning s u n store' t.stats h (ground (arith, t.found_store))
                  (subst (λ b. IsAccounted store' (if b then note_remove t.stats else t.stats))
                    absent a)
                  (λ m. find-assign n m store' s.store_map)
                  (λ m. kept n m t.stats s.stats_manager_map t.found_stats) (λ m. refl) refl refl,
              refl,
              λ m. contains-assign_present n m store' t.store s.store_map t.found_store,
              find-assign_self n store' s.store_map,
            )
      ]

  -- the stores after one removal of the engine
  find-log_and_remove :
      (s u : Engine R D) (n m : Text) (id : ℕ) (ok : Bool) (t : Table s n)
      → log_and_remove s n id ≡ some (u, ok)
      → find m u.store_map
        ≡ (if n == m then some (store_remove t.store id).0 else find m s.store_map)
  unfolding log_and_remove
  find-log_and_remove s u n m id ok t e = ground (
    arith,
    t.found_store,
    t.found_stats,
    t.found_metrics,
    find-assign n m (store_remove t.store id).0 s.store_map,
  )

  -- whether a request to remove is admitted
  abbrev pub admits_remove : Engine R D → Text → ℕ → Bool
  admits_remove s n id = is_writable s n && validate_remove n id

  -- what VectorStore::Remove makes of the store of a table
  abbrev pub store_removed : Engine R D → Text → ℕ → Option (VectorStore R (AnyIndex R))
  store_removed s n id = do store ← find n s.store_map; some (store_remove store id).0

  -- Remove throws nothing and keeps stores and counters in agreement. An admitted request is logged,
  -- also where the store does not have the entry, and answered with whether it has; the store of its
  -- table is what VectorStore::Remove makes of it, and the other stores stay. Any other request
  -- leaves the engine as it was and is answered with false.
  pub remove-IsRunning :
      (s : Engine R D) (n : Text) (id : ℕ)
      → IsRunning s
      → (u : Engine R D) × (remove s n id
          ≡ some (
            u,
            admits_remove s n id && elim (find n s.store_map) [
              | none ↦ false
              | some store ↦ contains id store.store
            ],
          ))
        × IsRunning u
        × (u.disk ≡ (if admits_remove s n id then disk.append_remove s.disk n id else s.disk))
        × ((m : Text)
            → find m u.store_map ≡ (
                if admits_remove s n id && n == m
                then store_removed s n id
                else find m s.store_map))
        × (admits_remove s n id ≡ false → u ≡ s)
  unfolding remove
  remove-IsRunning s n id h = elim (Bool-cases (admits_remove s n id)) [
    | inr refused ↦ (s, rw refused, h, rw refused, λ m. rw refused, λ _. refl)
    | inl admitted ↦
        let t = Table-of s n h (ground arith) in
        let (u, e, hu, d, _, _) = log_and_remove_total s n id h t in
        let (w, e', hw, stores, d') = refresh_cache_total u n hu in
        (
          w,
          rw (admitted, e, e', t.found_store),
          hw,
          rw admitted (d' ∙ d),
          λ m.
              rw (admitted, t.found_store)
                (ap (find m) stores ∙ find-log_and_remove s u n m id _ t e),
          λ refused. absurd cc,
        )
  ]

  remove_each_total :
      (s : Engine R D) (n : Text) (ids : List ℕ)
      → IsRunning s
      → contains n s.store_map ≡ true
      → (u : Engine R D) × (flags : List Bool) × (remove_each s n ids ≡ some (u, flags))
        × IsRunning u
        × (length flags ≡ length ids)
        × (u.disk ≡ foldl (λ d id. disk.append_remove d n id) s.disk ids)
  unfolding remove_each
  remove_each_total s n [] h here = (s, [], refl, h, refl, refl)
  remove_each_total s n (id ∷ rest) h here =
      let t = Table-of s n h here in
      let (u, e, hu, d, same, _) = log_and_remove_total s n id h t in
      let (w, flags, e', hw, l, d') = remove_each_total u n rest hu (same n ∙ here) in
      (
        w,
        contains id t.store.store ∷ flags,
        rw (e, e'),
        hw,
        ap suc l,
        d' ∙ ap (λ x. foldl (λ y id'. disk.append_remove y n id') x rest) d,
      )

  -- BatchRemove throws nothing, answers each request, and keeps stores and counters in agreement. It
  -- logs all requests, in their order, or none.
  pub batch_remove-IsRunning :
      (s : Engine R D) (n : Text) (ids : List ℕ)
      → IsRunning s
      → (u : Engine R D) × (flags : List Bool) × (batch_remove s n ids ≡ some (u, flags))
        × IsRunning u
        × (length flags ≡ length ids)
        × (u.disk ≡ (
            if is_writable s n && all (λ id. validate_remove n id) ids
            then foldl (λ d id. disk.append_remove d n id) s.disk ids
            else s.disk))
  unfolding batch_remove
  batch_remove-IsRunning s n ids h =
      elim (Bool-cases (is_writable s n && all (λ id. validate_remove n id) ids)) [
        | inr refused ↦
            (s, map (λ _. false) ids, rw refused, h, length-map (λ _. false) ids, rw refused)
        | inl admitted ↦
            let (u, flags, e, hu, l, d) = remove_each_total s n ids h (ground arith) in
            let (w, e', hw, _, d') = refresh_cache_total u n hu in
            (w, flags, rw (admitted, e, e'), hw, l, rw admitted (d' ∙ d))
      ]
