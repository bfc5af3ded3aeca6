-- ===== src/Engine/Logging.antt =====
-- One insertion of the engine, into the log and into the store, and what it counts.
use vector_database.Prelude.{
  ℕ, ◌≡◌, refl, ap, subst, ◌∙◌, Bool, true, false, some, if◌then◌else◌, Text, text_eq, nat_eq,
  arith, Bool-cases, inl, inr, ◌==◌,
}
use vector_database.Prelude.Map.{find, assign, contains, find-assign, find-assign_self}
use vector_database.Float.{Float, Vector}
use vector_database.Index.Any.{AnyIndex, any_index, any_view, any_laws}
use vector_database.Index.Hnsw.{LevelSource}
use vector_database.Store.{VectorStore, insert as store_insert}
use vector_database.Store.Indexed.{accepts}
use vector_database.Metrics.{CountType, increment as count}
use vector_database.Engine.{Disk, Engine, log_and_insert}
use vector_database.Engine.Accounted.{IsAccounted, note_insert, insert-IsAccounted}
use vector_database.Engine.Running.{IsRunning, written-IsRunning}
use vector_database.Engine.Present.{kept, contains-assign_present, Table}

module _ {R D : Type 0} ⦃f : Float R⦄ ⦃source : LevelSource R⦄ ⦃disk : Disk R D⦄ where
  -- the entry of the log and the answer, which do not depend on the counters
  abbrev logged_insert : Engine R D → Text → ℕ → Vector R → Text → D
  logged_insert s n id v content = disk.append_insert s.disk n id v content

  insert_accepted :
      (s : Engine R D) (n : Text) (id : ℕ) (v : Vector R) (content : Text) (t : Table s n)
      (store' : VectorStore R (AnyIndex R))
      → store_insert t.store id v content ≡ some (store', true)
      → log_and_insert s n id v content
        ≡ some (
          record s {
            disk = logged_insert s n id v content;
            store_map = assign n store' s.store_map;
            stats_manager_map = assign n (note_insert t.stats) s.stats_manager_map;
            metrics_manager_map =
                assign n (count t.metrics CountType.insert 1) s.metrics_manager_map;
          },
          true,
        )
  unfolding log_and_insert note_insert
  insert_accepted s n id v content t store' e =
      rw (t.found_store, t.found_stats, t.found_metrics, e)

  insert_declined :
      (s : Engine R D) (n : Text) (id : ℕ) (v : Vector R) (content : Text) (t : Table s n)
      (store' : VectorStore R (AnyIndex R))
      → store_insert t.store id v content ≡ some (store', false)
      → log_and_insert s n id v content
        ≡ some (
          record s {
            disk = logged_insert s n id v content;
            store_map = assign n store' s.store_map;
          },
          false,
        )
  unfolding log_and_insert
  insert_declined s n id v content t store' e =
      rw (t.found_store, t.found_stats, t.found_metrics, e)

  -- One insertion of the engine: logged, answered by the store, and counted.
  pub log_and_insert_total :
      (s : Engine R D) (n : Text) (id : ℕ) (v : Vector R) (content : Text)
      → IsRunning s
      → (t : Table s n)
      → (u : Engine R D) × (log_and_insert s n id v content ≡ some (u, accepts t.store id v))
        × IsRunning u
        × (u.disk ≡ logged_insert s n id v content)
        × ((m : Text) → contains m u.store_map ≡ contains m s.store_map)
        × (store' : VectorStore R (AnyIndex R)) × (store_insert t.store id v content
            ≡ some (store', accepts t.store id v))
        × (find n u.store_map ≡ some store')
  log_and_insert_total s n id v content h t =
      let (store', e, a) =
        insert-IsAccounted any_laws t.store t.stats id v content
          (h.accounted n t.store t.stats t.found_store t.found_stats) in
      elim (Bool-cases (accepts t.store id v)) [
        | inl taken ↦
            let u : Engine R D = record s {
              disk = logged_insert s n id v content;
              store_map = assign n store' s.store_map;
              stats_manager_map = assign n (note_insert t.stats) s.stats_manager_map;
              metrics_manager_map =
                  assign n (count t.metrics CountType.insert 1) s.metrics_manager_map;
            } in
            (
              u,
              rw taken (
                  insert_accepted s n id v content t store' (e ∙ ap (λ b. some (store', b)) taken)),
              written-IsRunning s u n store' (note_insert t.stats) h (ground (arith, t.found_store))
                  (subst (λ b. IsAccounted store' (if b then note_insert t.stats else t.stats))
                    taken a)
                  (λ m. find-assign n m store' s.store_map)
                  (λ m. find-assign n m (note_insert t.stats) s.stats_manager_map)
                  (λ m.
                    contains-assign_present n m (count t.metrics CountType.insert 1) t.metrics
                      s.metrics_manager_map t.found_metrics)
                  refl refl,
              refl,
              λ m. contains-assign_present n m store' t.store s.store_map t.found_store,
              store',
              e,
              find-assign_self n store' s.store_map,
            )
        | inr refused ↦
            let u : Engine R D = record s {
              disk = logged_insert s n id v content;
              store_map = assign n store' s.store_map;
            } in
            (
              u,
              rw refused (
                  insert_declined s n id v content t store'
                    (e ∙ ap (λ b. some (store', b)) refused)),
              written-IsRunning s u n store' t.stats h (ground (arith, t.found_store))
                  (subst (λ b. IsAccounted store' (if b then note_insert t.stats else t.stats))
                    refused a)
                  (λ m. find-assign n m store' s.store_map)
                  (λ m. kept n m t.stats s.stats_manager_map t.found_stats) (λ m. refl) refl refl,
              refl,
              λ m. contains-assign_present n m store' t.store s.store_map t.found_store,
              store',
              e,
              find-assign_self n store' s.store_map,
            )
      ]

  -- the stores after one insertion of the engine
  pub find-log_and_insert :
      (s u : Engine R D) (n m : Text) (id : ℕ) (v : Vector R) (content : Text) (ok : Bool)
      (t : Table s n) (store' : VectorStore R (AnyIndex R))
      → log_and_insert s n id v content ≡ some (u, ok)
      → store_insert t.store id v content ≡ some (store', ok)
      → find m u.store_map ≡ (if n == m then some store' else find m s.store_map)
  unfolding log_and_insert
  find-log_and_insert s u n m id v content ok t store' e e' =
      ground
        (arith, t.found_store, t.found_stats, t.found_metrics, find-assign n m store' s.store_map)
