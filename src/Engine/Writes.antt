-- ===== src/Engine/Writes.antt =====
-- Insert of the engine, and BatchInsert.
use vector_database.Prelude.{
  ℕ, ◌≡◌, refl, ap, ◌∙◌, Bool, true, false, ◌&&◌, Option, none, some, ◌>>=◌, List, [], ◌∷◌, length,
  length-map, suc, map, all, if◌then◌else◌, Text, text_eq, nat_eq, arith, Bool-cases, inl, inr,
  ◌==◌,
}
use vector_database.Prelude.Map.{find, contains}
use vector_database.Float.{Float, Vector}
use vector_database.Index.Any.{AnyIndex, any_index, any_view}
use vector_database.Index.Hnsw.{LevelSource}
use vector_database.Store.{VectorStore, insert as store_insert}
use vector_database.Store.Indexed.{accepts}
use vector_database.Validator.{validate_insert}
use vector_database.Engine.{Disk, Engine, is_writable, insert, insert_each, batch_insert}
use vector_database.Engine.Running.{IsRunning, refresh_cache_total}
use vector_database.Engine.Present.{Table-of}
use vector_database.Engine.Logging.{log_and_insert_total, find-log_and_insert}

module _ {R D : Type 0} ⦃f : Float R⦄ ⦃source : LevelSource R⦄ ⦃disk : Disk R D⦄ where
  -- whether a request to insert is admitted
  abbrev pub admits_insert : Engine R D → Text → ℕ → Vector R → Text → Bool
  admits_insert s n id v content = is_writable s n && validate_insert n id v content

  -- what VectorStore::Insert makes of the store of a table
  abbrev pub store_inserted :
      Engine R D → Text → ℕ → Vector R → Text → Option (VectorStore R (AnyIndex R))
  store_inserted s n id v content = do
    store ← find n s.store_map
    result ← store_insert store id v content
    some result.0

  -- Insert throws nothing and keeps stores and counters in agreement. An admitted request is logged,
  -- also where the store refuses it, and answered as its store answers; the store of its table is
  -- what VectorStore::Insert makes of it, and the other stores stay. Any other request leaves the
  -- engine as it was and is answered with false.
  pub insert-IsRunning :
      (s : Engine R D) (n : Text) (id : ℕ) (v : Vector R) (content : Text)
      → IsRunning s
      → (u : Engine R D) × (insert s n id v content
          ≡ some (
            u,
            admits_insert s n id v content
                && elim (find n s.store_map) [ none ↦ false | some store ↦ accepts store id v ],
          ))
        × IsRunning u
        × (u.disk ≡ (
            if admits_insert s n id v content
            then disk.append_insert s.disk n id v content
            else s.disk))
        × ((m : Text)
            → find m u.store_map ≡ (
                if admits_insert s n id v content && n == m
                then store_inserted s n id v content
                else find m s.store_map))
        × (admits_insert s n id v content ≡ false → u ≡ s)
  unfolding insert
  insert-IsRunning s n id v content h = elim (Bool-cases (admits_insert s n id v content)) [
    | inr refused ↦ (s, rw refused, h, rw refused, λ m. rw refused, λ _. refl)
    | inl admitted ↦
        let t = Table-of s n h (ground arith) in
        let (u, e, hu, d, _, store', eb, _) = log_and_insert_total s n id v content h t in
        let (w, e', hw, stores, d') = refresh_cache_total u n hu in
        (
          w,
          rw (admitted, e, e', t.found_store),
          hw,
          rw admitted (d' ∙ d),
          λ m.
              rw (admitted, t.found_store, eb)
                (ap (find m) stores
                  ∙ find-log_and_insert s u n m id v content (accepts t.store id v) t store' e eb),
          λ refused. absurd cc,
        )
  ]

  -- The batch as the log receives it.
  abbrev pub log_all : D → Text → List (ℕ × (Vector R × Text)) → D
  log_all d n [] = d
  log_all d n ((id, (v, content)) ∷ rest) = log_all (disk.append_insert d n id v content) n rest

  insert_each_total :
      (s : Engine R D) (n : Text) (vectors : List (ℕ × (Vector R × Text)))
      → IsRunning s
      → contains n s.store_map ≡ true
      → (u : Engine R D) × (flags : List Bool) × (insert_each s n vectors ≡ some (u, flags))
        × IsRunning u
        × (length flags ≡ length vectors)
        × (u.disk ≡ log_all s.disk n vectors)
  unfolding insert_each
  insert_each_total s n [] h here = (s, [], refl, h, refl, refl)
  insert_each_total s n ((id, (v, content)) ∷ rest) h here =
      let t = Table-of s n h here in
      let (u, e, hu, d, same, _, _, _) = log_and_insert_total s n id v content h t in
      let (w, flags, e', hw, l, d') = insert_each_total u n rest hu (same n ∙ here) in
      (w, accepts t.store id v ∷ flags, rw (e, e'), hw, ap suc l, d' ∙ ap (λ x. log_all x n rest) d)

  -- BatchInsert throws nothing, answers each request, and keeps stores and counters in agreement. It
  -- logs all requests, in their order, or none.
  pub batch_insert-IsRunning :
      (s : Engine R D) (n : Text) (vectors : List (ℕ × (Vector R × Text)))
      → IsRunning s
      → (u : Engine R D) × (flags : List Bool) × (batch_insert s n vectors ≡ some (u, flags))
        × IsRunning u
        × (length flags ≡ length vectors)
        × (u.disk ≡ (
            if is_writable s n && all (λ w. validate_insert n w.0 w.1.0 w.1.1) vectors
            then log_all s.disk n vectors
            else s.disk))
  unfolding batch_insert
  batch_insert-IsRunning s n vectors h =
      elim (Bool-cases (is_writable s n && all (λ w. validate_insert n w.0 w.1.0 w.1.1) vectors)) [
        | inr refused ↦ (
          s,
          map (λ _. false) vectors,
          rw refused,
          h,
          length-map (λ _. false) vectors,
          rw refused,
        )
        | inl admitted ↦
            let (u, flags, e, hu, l, d) = insert_each_total s n vectors h (ground arith) in
            let (w, e', hw, _, d') = refresh_cache_total u n hu in
            (w, flags, rw (admitted, e, e'), hw, l, rw admitted (d' ∙ d))
      ]
