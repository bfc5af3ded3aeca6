-- ===== src/ReplicaManager/Steps.antt =====
-- One write of a primary, and one entry on a replica, with the stores that they lead to.
use vector_database.Prelude.{ℕ, ◌≡◌, ap, subst, ◌∙◌, Bool, true, some, Text, text_eq, nat_eq, arith}
use vector_database.Prelude.Map.{find, contains, find-assign_self}
use vector_database.Float.{Float, Vector}
use vector_database.Index.Any.{AnyIndex, any_index, any_view}
use vector_database.Index.Hnsw.{LevelSource}
use vector_database.Store.{VectorStore, insert as store_insert, remove as store_remove}
use vector_database.Store.Indexed.{accepts}
use vector_database.Validator.{validate_insert, validate_remove}
use vector_database.Engine.{
  Disk, Engine, is_writable, log_and_insert, log_and_remove, refresh_cache, insert as engine_insert,
  remove as engine_remove,
}
use vector_database.Engine.Running.{IsRunning, refresh_cache_total}
use vector_database.Engine.Logging.{log_and_insert_total}
use vector_database.Engine.Present.{Table}
use vector_database.Engine.Removals.{log_and_remove_total}
use vector_database.Engine.Kept.{IsKept, insert-IsKept, remove-IsKept}
use vector_database.Engine.Tables.{apply_insert, apply_remove}
use vector_database.Engine.Sync.{
  inserted, taken_out, apply_insert_steps, apply_insert_total, apply_remove_steps,
  apply_remove_total,
}

module _ {R D : Type 0} ⦃f : Float R⦄ ⦃source : LevelSource R⦄ ⦃disk : Disk R D⦄ where
  still_writable :
      (p u : Engine R D) (n : Text)
      → is_writable p n ≡ true
      → IsRunning u
      → IsKept p u
      → contains n u.store_map ≡ true
      → is_writable u n ≡ true
  still_writable p u n w h k there =
      ground
        (arith, k.metadata, k.shutdown, h.stats_there n, h.metrics_there n, h.persistence_there n)

  insert_steps :
      (p u w : Engine R D) (n : Text) (id : ℕ) (v : Vector R) (content : Text) (ok : Bool)
      → is_writable p n ≡ true
      → validate_insert n id v content ≡ true
      → log_and_insert p n id v content ≡ some (u, ok)
      → refresh_cache u n ≡ some w
      → engine_insert p n id v content ≡ some (w, ok)
  unfolding engine_insert
  insert_steps p u w n id v content ok writable valid e ew = rw (writable, valid, e, ew)

  remove_steps :
      (p u w : Engine R D) (n : Text) (id : ℕ) (ok : Bool)
      → is_writable p n ≡ true
      → validate_remove n id ≡ true
      → log_and_remove p n id ≡ some (u, ok)
      → refresh_cache u n ≡ some w
      → engine_remove p n id ≡ some (w, ok)
  unfolding engine_remove
  remove_steps p u w n id ok writable valid e ew = rw (writable, valid, e, ew)

  pub primary_insert :
      (p : Engine R D) (n : Text) (id : ℕ) (v : Vector R) (content : Text) (t : Table p n)
      → IsRunning p
      → is_writable p n ≡ true
      → validate_insert n id v content ≡ true
      → (u : Engine R D) × (b : VectorStore R (AnyIndex R)) × (engine_insert p n id v content
          ≡ some (u, accepts t.store id v))
        × IsRunning u
        × (is_writable u n ≡ true)
        × (find n u.store_map ≡ some b)
        × (store_insert t.store id v content ≡ some (b, accepts t.store id v))
  primary_insert p n id v content t h writable valid =
      let (u, e, hu, _, _, b, eb, fb) = log_and_insert_total p n id v content h t in
      let (w, ew, hw, ws, _) = refresh_cache_total u n hu in
      let done = insert_steps p u w n id v content (accepts t.store id v) writable valid e ew in
      let found : find n w.store_map ≡ some b = ap (find n) ws ∙ fb in
      (
        w,
        b,
        done,
        hw,
        still_writable p w n writable hw (insert-IsKept p w n id v content _ done)
            (ground (arith, found)),
        found,
        eb,
      )

  pub primary_remove :
      (p : Engine R D) (n : Text) (id : ℕ) (t : Table p n)
      → IsRunning p
      → is_writable p n ≡ true
      → validate_remove n id ≡ true
      → (u : Engine R D) × (engine_remove p n id ≡ some (u, contains id t.store.store))
        × IsRunning u
        × (is_writable u n ≡ true)
        × (find n u.store_map ≡ some (store_remove t.store id).0)
  primary_remove p n id t h writable valid =
      let (u, e, hu, _, _, fb) = log_and_remove_total p n id h t in
      let (w, ew, hw, ws, _) = refresh_cache_total u n hu in
      let done = remove_steps p u w n id (contains id t.store.store) writable valid e ew in
      let found : find n w.store_map ≡ some (store_remove t.store id).0 = ap (find n) ws ∙ fb in
      (
        w,
        done,
        hw,
        still_writable p w n writable hw (remove-IsKept p w n id _ done) (ground (arith, found)),
        found,
      )

  pub replica_insert :
      (r : Engine R D) (n : Text) (id : ℕ) (v : Vector R) (content : Text) (t : Table r n)
      (a : VectorStore R (AnyIndex R)) (ok : Bool)
      → IsRunning r
      → store_insert t.store id v content ≡ some (a, ok)
      → (u : Engine R D) × (apply_insert r n id v content ≡ some (u, ok))
        × IsRunning u
        × (find n u.store_map ≡ some a)
  replica_insert r n id v content t a ok h e =
      let done =
        apply_insert_steps r n id v content t a ok (ground (arith, t.found_store, t.found_stats))
          e in
      let (u, _, e', hu) = apply_insert_total r n id v content h in
      let same : u ≡ inserted r n t a ok = cc in
      (inserted r n t a ok, done, subst IsRunning same hu, find-assign_self n a r.store_map)

  pub replica_remove :
      (r : Engine R D) (n : Text) (id : ℕ) (t : Table r n)
      → IsRunning r
      → (u : Engine R D) × (apply_remove r n id ≡ some (u, (store_remove t.store id).1))
        × IsRunning u
        × (find n u.store_map ≡ some (store_remove t.store id).0)
  replica_remove r n id t h =
      let done = apply_remove_steps r n id t (ground (arith, t.found_store, t.found_stats)) in
      let (u, _, e', hu) = apply_remove_total r n id h in
      let same : u ≡ taken_out r n t id = cc in
      (
        taken_out r n t id,
        done,
        subst IsRunning same hu,
        find-assign_self n (store_remove t.store id).0 r.store_map,
      )
