-- ===== src/Engine/Kept.antt =====
-- What the operations of the engine leave as it was: its settings and the caches, which a write empties.
use vector_database.Prelude.{
  ℕ, ◌≡◌, refl, ap, subst, ◌∙◌, Bool, true, false, ◌&&◌, all, Option, none, some, List, [], ◌∷◌,
  if◌then◌else◌, Text, text_eq, arith, Bool-cases, Option-cases, inl, inr, ◌⊎◌, ◌>>=◌,
}
use vector_database.Prelude.Map.{find, assign}
use vector_database.Float.{Float, Vector}
use vector_database.Index.Hnsw.{LevelSource}
use vector_database.Store.{Data}
use vector_database.Cache.{LruCache, invalidate_all}
use vector_database.Validator.{validate_insert, validate_remove}
use vector_database.Engine.{
  is_writable, Disk, Engine, refresh_cache, log_and_insert, insert, log_and_remove, remove,
  insert_each, batch_insert, remove_each, batch_remove, search, cleanup,
}

-- A result that there is comes from a first step and a second.
pub bind-some :
    {A C : Type 0} (o : Option A) (k : A → Option C) (c : C)
    → (o >>= k) ≡ some c
    → (a : A) × (o ≡ some a) × (k a ≡ some c)
bind-some none k c e = absurd cc
bind-some (some a) k c e = (a, refl, e)

module _ {R D : Type 0} where
  -- The same settings and the same caches.
  pub record IsSame (s u : Engine R D) : Type 0 where
    pub metadata : u.metadata ≡ s.metadata
    pub shutdown : u.shutdown ≡ s.shutdown
    pub caches : u.cache_map ≡ s.cache_map

  pub IsSame-refl : (s : Engine R D) → IsSame s s
  IsSame-refl s = record { metadata = refl; shutdown = refl; caches = refl }

  pub IsSame-trans : (s t u : Engine R D) → IsSame s t → IsSame t u → IsSame s u
  IsSame-trans s t u h k = record {
    metadata = k.metadata ∙ h.metadata;
    shutdown = k.shutdown ∙ h.shutdown;
    caches = k.caches ∙ h.caches;
  }

module _ {R D : Type 0} ⦃f : Float R⦄ ⦃source : LevelSource R⦄ ⦃disk : Disk R D⦄ where
  pub log_and_insert-IsSame :
      (s u : Engine R D) (n : Text) (id : ℕ) (v : Vector R) (content : Text) (ok : Bool)
      → log_and_insert s n id v content ≡ some (u, ok)
      → IsSame s u
  unfolding log_and_insert
  log_and_insert-IsSame s u n id v content ok e = record {
    metadata = ground arith;
    shutdown = ground arith;
    caches = ground arith;
  }

  pub log_and_remove-IsSame :
      (s u : Engine R D) (n : Text) (id : ℕ) (ok : Bool)
      → log_and_remove s n id ≡ some (u, ok)
      → IsSame s u
  unfolding log_and_remove
  log_and_remove-IsSame s u n id ok e = record {
    metadata = ground arith;
    shutdown = ground arith;
    caches = ground arith;
  }

  pub search-IsSame :
      (s u : Engine R D) (n : Text) (query : Vector R) (k search_param : ℕ) (latency : R)
      (found : List (Data R))
      → search s n query k search_param latency ≡ some (u, found)
      → IsSame s u
  unfolding search
  search-IsSame s u n query k search_param latency found e = record {
    metadata = ground arith;
    shutdown = ground arith;
    caches = ground arith;
  }

  pub cleanup-IsSame :
      (s u : Engine R D) (n : Text) (force : Bool) (latency : R)
      → cleanup s n force latency ≡ some u
      → IsSame s u
  unfolding cleanup
  cleanup-IsSame s u n force latency e = record {
    metadata = ground arith;
    shutdown = ground arith;
    caches = ground arith;
  }

  pub insert_each-IsSame :
      (s u : Engine R D) (n : Text) (vectors : List (ℕ × (Vector R × Text))) (flags : List Bool)
      → insert_each s n vectors ≡ some (u, flags)
      → IsSame s u
  unfolding insert_each
  insert_each-IsSame s u n [] flags e = let eq : s ≡ u = cc in subst (IsSame s) eq (IsSame-refl s)
  insert_each-IsSame s u n ((id, (v, content)) ∷ rest) flags e =
      let (r, e1, k) = bind-some (log_and_insert s n id v content) _ (u, flags) e in
      let (q, e2, k') = bind-some (insert_each r.0 n rest) _ (u, flags) k in
      IsSame-trans s r.0 u (log_and_insert-IsSame s r.0 n id v content r.1 e1)
        (let eq : q.0 ≡ u = cc in subst (IsSame r.0) eq (insert_each-IsSame r.0 q.0 n rest q.1 e2))

  pub remove_each-IsSame :
      (s u : Engine R D) (n : Text) (ids : List ℕ) (flags : List Bool)
      → remove_each s n ids ≡ some (u, flags)
      → IsSame s u
  unfolding remove_each
  remove_each-IsSame s u n [] flags e = let eq : s ≡ u = cc in subst (IsSame s) eq (IsSame-refl s)
  remove_each-IsSame s u n (id ∷ rest) flags e =
      let (r, e1, k) = bind-some (log_and_remove s n id) _ (u, flags) e in
      let (q, e2, k') = bind-some (remove_each r.0 n rest) _ (u, flags) k in
      IsSame-trans s r.0 u (log_and_remove-IsSame s r.0 n id r.1 e1)
        (let eq : q.0 ≡ u = cc in subst (IsSame r.0) eq (remove_each-IsSame r.0 q.0 n rest q.1 e2))

module _ {R D : Type 0} where
  -- The same settings; the caches are the same, or one of them was emptied.
  pub record IsKept (s u : Engine R D) : Type 0 where
    pub metadata : u.metadata ≡ s.metadata
    pub shutdown : u.shutdown ≡ s.shutdown
    pub caches :
        (u.cache_map ≡ s.cache_map)
        ⊎ ((n : Text) × (cache : LruCache (List (List (Data R)))) × (find n s.cache_map
              ≡ some cache)
            × (u.cache_map ≡ assign n (invalidate_all cache) s.cache_map))

  pub same-IsKept : (s u : Engine R D) → IsSame s u → IsKept s u
  same-IsKept s u h = record { metadata = h.metadata; shutdown = h.shutdown; caches = inl h.caches }

  refreshed-IsKept :
      (s t u : Engine R D) (n : Text) → IsSame s t → refresh_cache t n ≡ some u → IsKept s u
  unfolding refresh_cache
  refreshed-IsKept s t u n h e = elim (Option-cases (find n t.cache_map)) [
    | inl absent ↦ same-IsKept s u (
        IsSame-trans s t u h
          (record { metadata = ground arith; shutdown = ground arith; caches = ground arith }))
    | inr (cache, found) ↦ elim (Option-cases (find n t.stats_manager_map)) [
      | inl absent ↦ same-IsKept s u (
          IsSame-trans s t u h
            (record { metadata = ground arith; shutdown = ground arith; caches = ground arith }))
      | inr (stats, there) ↦ elim (Bool-cases (t.metadata.use_cache && stats.modified)) [
        | inr clean ↦ same-IsKept s u (
            IsSame-trans s t u h
              (record { metadata = ground arith; shutdown = ground arith; caches = ground arith }))
        | inl modified ↦ record {
          metadata = ground (arith, h.metadata);
          shutdown = ground (arith, h.shutdown);
          caches = inr (n, cache, ground (arith, h.caches), ground (arith, h.caches));
        }
      ]
    ]
  ]

  abbrev refreshed : {A : Type 0} → Text → Engine R D × A → Option (Engine R D × A)
  refreshed n r = do s' ← refresh_cache r.0 n; some (s', r.1)

  -- the shape of the four writes: what the log and the store do, and then the caches
  guarded-IsKept :
      {A : Type 0} (s u : Engine R D) (n : Text) (admitted : Bool) (o : Option (Engine R D × A))
      (answer otherwise : A)
      → ((t : Engine R D) (a : A) → o ≡ some (t, a) → IsSame s t)
      → (if admitted then o >>= refreshed n else some (s, otherwise)) ≡ some (u, answer)
      → IsKept s u
  guarded-IsKept {A = A} s u n false o answer otherwise same e =
      let eq : s ≡ u = cc in subst (IsKept s) eq (same-IsKept s s (IsSame-refl s))
  guarded-IsKept {A = A} s u n true o answer otherwise same e =
      let (r, e1, k) = bind-some o (refreshed n) (u, answer) e in
      let again : (Engine R D → Option (Engine R D × A)) = λ s'. some (s', r.1) in
      let (t, e2, k') = bind-some (refresh_cache r.0 n) again (u, answer) k in
      let eq : t ≡ u = cc in refreshed-IsKept s r.0 u n (same r.0 r.1 e1) (e2 ∙ ap (λ x. some x) eq)

module _ {R D : Type 0} ⦃f : Float R⦄ ⦃source : LevelSource R⦄ ⦃disk : Disk R D⦄ where
  pub insert-IsKept :
      (s u : Engine R D) (n : Text) (id : ℕ) (v : Vector R) (content : Text) (ok : Bool)
      → insert s n id v content ≡ some (u, ok)
      → IsKept s u
  unfolding insert
  insert-IsKept s u n id v content ok e =
      guarded-IsKept s u n (is_writable s n && validate_insert n id v content)
        (log_and_insert s n id v content) ok false
        (λ t a. log_and_insert-IsSame s t n id v content a) e

  pub remove-IsKept :
      (s u : Engine R D) (n : Text) (id : ℕ) (ok : Bool) → remove s n id ≡ some (u, ok) → IsKept s u
  unfolding remove
  remove-IsKept s u n id ok e =
      guarded-IsKept s u n (is_writable s n && validate_remove n id) (log_and_remove s n id) ok
        false (λ t a. log_and_remove-IsSame s t n id a) e

  pub batch_insert-IsKept :
      (s u : Engine R D) (n : Text) (vectors : List (ℕ × (Vector R × Text))) (flags : List Bool)
      → batch_insert s n vectors ≡ some (u, flags)
      → IsKept s u
  unfolding batch_insert
  batch_insert-IsKept s u n vectors flags e =
      guarded-IsKept s u n (is_writable s n && all (λ v. validate_insert n v.0 v.1.0 v.1.1) vectors)
        (insert_each s n vectors) flags _ (λ t a. insert_each-IsSame s t n vectors a) e

  pub batch_remove-IsKept :
      (s u : Engine R D) (n : Text) (ids : List ℕ) (flags : List Bool)
      → batch_remove s n ids ≡ some (u, flags)
      → IsKept s u
  unfolding batch_remove
  batch_remove-IsKept s u n ids flags e =
      guarded-IsKept s u n (is_writable s n && all (λ id. validate_remove n id) ids)
        (remove_each s n ids) flags _ (λ t a. remove_each-IsSame s t n ids a) e
