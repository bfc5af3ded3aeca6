-- ===== src/Engine/Running.antt =====
-- The operations of the engine on one table: nothing throws, and stores and counters agree.
use vector_database.Prelude.{
  ◌≡◌, refl, sym, ap, subst, ◌∙◌, Bool, true, false, ◌&&◌, Option, some, if◌then◌else◌, Text,
  text_eq, text_beq_iff, arith, Bool-cases, Option-cases, inl, inr, ◌==◌,
}
use vector_database.Prelude.Map.{find, assign, contains, find-assign}
use vector_database.Float.{Float}
use vector_database.Index.Any.{AnyIndex, any_index, any_view}
use vector_database.Index.Hnsw.{LevelSource}
use vector_database.Store.{VectorStore}
use vector_database.Cache.{invalidate_all}
use vector_database.Stats.{StatsManager}
use vector_database.Engine.{Engine, refresh_cache}
use vector_database.Engine.Accounted.{IsAccounted}

-- A relation of two entries, which were just written or stood there before.
pub pick :
    {A B : Type 0} (b : Bool) (P : A → B → Type 0) (x x' : A) (y y' : B) (o : Option A)
    (o' : Option B)
    → P x y
    → (if b then some x else o) ≡ some x'
    → (if b then some y else o') ≡ some y'
    → (o ≡ some x' → o' ≡ some y' → P x' y')
    → P x' y'
pick true P x x' y y' o o' h e e' old =
    let ex : x ≡ x' = cc in let ey : y ≡ y' = cc in subst (λ a. P a y') ex (subst (P x) ey h)
pick false P x x' y y' o o' h e e' old = old e e'

module _ {R D : Type 0} ⦃f : Float R⦄ ⦃source : LevelSource R⦄ where
  -- The maps have the same tables, and each store is in order with its counters.
  pub record IsRunning (s : Engine R D) : Type 0 where
    pub stats_there : (n : Text) → contains n s.stats_manager_map ≡ contains n s.store_map
    pub metrics_there : (n : Text) → contains n s.metrics_manager_map ≡ contains n s.store_map
    pub persistence_there :
        (n : Text) → contains n s.persistence_manager_map ≡ contains n s.store_map
    pub cache_there : (n : Text) → contains n s.cache_map ≡ contains n s.store_map
    pub accounted :
        (n : Text) (store : VectorStore R (AnyIndex R)) (stats : StatsManager)
        → find n s.store_map ≡ some store
        → find n s.stats_manager_map ≡ some stats
        → IsAccounted store stats

  -- The state after a write to one table.
  pub written-IsRunning :
      (s t : Engine R D) (n : Text) (store : VectorStore R (AnyIndex R)) (stats : StatsManager)
      → IsRunning s
      → contains n s.store_map ≡ true
      → IsAccounted store stats
      → ((m : Text) → find m t.store_map ≡ (if n == m then some store else find m s.store_map))
      → ((m : Text)
          → find m t.stats_manager_map
            ≡ (if n == m then some stats else find m s.stats_manager_map))
      → ((m : Text) → contains m t.metrics_manager_map ≡ contains m s.metrics_manager_map)
      → t.persistence_manager_map ≡ s.persistence_manager_map
      → t.cache_map ≡ s.cache_map
      → IsRunning t
  written-IsRunning s t n store stats h here a fs ft fm ep ec =
      let same : (m : Text) → contains m t.store_map ≡ contains m s.store_map =
        λ m. ground (arith, fs m, text_beq_iff n m, here) in
      record {
        stats_there = λ m. ground (arith, fs m, ft m, h.stats_there m);
        metrics_there = λ m. fm m ∙ h.metrics_there m ∙ sym (same m);
        persistence_there = λ m. ap (contains m) ep ∙ h.persistence_there m ∙ sym (same m);
        cache_there = λ m. ap (contains m) ec ∙ h.cache_there m ∙ sym (same m);
        accounted = λ m store' stats' e e'.
            pick (n == m) IsAccounted store store' stats stats' (find m s.store_map)
              (find m s.stats_manager_map) a (sym (fs m) ∙ e) (sym (ft m) ∙ e')
              (h.accounted m store' stats');
      }

  -- Only the disk and entries of caches changed.
  pub cached-IsRunning :
      (s t : Engine R D)
      → IsRunning s
      → t.store_map ≡ s.store_map
      → t.persistence_manager_map ≡ s.persistence_manager_map
      → t.stats_manager_map ≡ s.stats_manager_map
      → t.metrics_manager_map ≡ s.metrics_manager_map
      → ((n : Text) → contains n t.cache_map ≡ contains n s.cache_map)
      → IsRunning t
  cached-IsRunning s t h es ep et em ec = record {
    stats_there = λ n. ap (contains n) et ∙ h.stats_there n ∙ ap (contains n) (sym es);
    metrics_there = λ n. ap (contains n) em ∙ h.metrics_there n ∙ ap (contains n) (sym es);
    persistence_there = λ n. ap (contains n) ep ∙ h.persistence_there n ∙ ap (contains n) (sym es);
    cache_there = λ n. ec n ∙ h.cache_there n ∙ ap (contains n) (sym es);
    accounted = λ n store stats e e'.
        h.accounted n store stats (ap (find n) (sym es) ∙ e) (ap (find n) (sym et) ∙ e');
  }

  -- The end of Insert and Remove throws nothing.
  pub refresh_cache_total :
      (s : Engine R D) (n : Text)
      → IsRunning s
      → (t : Engine R D) × (refresh_cache s n ≡ some t)
        × IsRunning t
        × (t.store_map ≡ s.store_map)
        × (t.disk ≡ s.disk)
  unfolding refresh_cache
  refresh_cache_total s n h = elim (Bool-cases (s.metadata.use_cache && contains n s.cache_map)) [
    | inr unused ↦ (s, rw unused, h, refl, refl)
    | inl used ↦ elim (Option-cases (find n s.cache_map)) [
      | inl absent ↦ absurd (ground arith)
      | inr (cache, e) ↦ elim (Option-cases (find n s.stats_manager_map)) [
        | inl absent ↦ absurd (ground (arith, h.stats_there n, h.cache_there n))
        | inr (stats, e') ↦ elim (Bool-cases stats.modified) [
          | inr clean ↦ (s, rw (used, e', e, clean), h, refl, refl)
          | inl modified ↦
              let t : Engine R D = record s {
                cache_map = assign n (invalidate_all cache) s.cache_map;
              } in
              (
                t,
                rw (used, e', e, modified),
                cached-IsRunning s t h refl refl refl refl (λ m.
                    ground (
                      arith,
                      find-assign n m (invalidate_all cache) s.cache_map,
                      text_beq_iff n m,
                    )),
                refl,
                refl,
              )
        ]
      ]
    ]
  ]
