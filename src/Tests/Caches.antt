-- ===== src/Tests/Caches.antt =====
-- The theorems of the exhaustive index, the cache and the metrics at small inputs.
use mathlib.Core.List.{Perm}
use vector_database.Prelude.{
  ℕ, ◌≡◌, refl, none, some, List, [], ◌∷◌, ◌++◌, length, map, min, foldl, All, nat_eq, arith,
}
use vector_database.Prelude.Map.{find, erase}
use vector_database.Prelude.Set.{member}
use vector_database.Index.Distance.{DistanceMetric}
use vector_database.Index.Nearest.{Pair}
use vector_database.Index.Nearest.Order.{IsAscending}
use vector_database.Index.Flat.{FlatIndex, measured, search}
use vector_database.Index.Flat.Search.{search-nearest}
use vector_database.Cache.{LruCache, create, get, store}
use vector_database.Cache.Queue.{IsCache, queue}
use vector_database.Cache.Laws.{create-IsCache, get-queue, newest}
use vector_database.Cache.Store.{store-queue, store-zero}
use vector_database.Metrics.{calculate_search_latency, create as fresh_metrics}
use vector_database.Metrics.Extremes.{IsWithin, search_latency-IsWithin}
use vector_database.Tests.Whole.{whole, whole_ordered}

abbrev flat_three : FlatIndex ℕ
flat_three = record {
  vectors = (1, 5 ∷ 4 ∷ []) ∷ (2, 1 ∷ 1 ∷ []) ∷ (3, 9 ∷ 9 ∷ []) ∷ [];
  config = record { vector_dimensionality = 2; metric = DistanceMetric.l2 };
}

search-nearest_example :
    (near far : List (Pair ℕ)) × (search flat_three (5 ∷ 5 ∷ []) 2 ≡ map (λ p. p.1) near)
    × (length near ≡ min 2 3)
    × Perm (near ++ far) (map (measured flat_three (5 ∷ 5 ∷ [])) flat_three.vectors)
    × IsAscending (near ++ far)
search-nearest_example =
    search-nearest whole_ordered flat_three (5 ∷ 5 ∷ []) 2 refl (refl, (refl, (refl, tt)))

abbrev new_cache : LruCache ℕ
new_cache = record { cache = []; keys = []; max_cache_size = 1 }

abbrev no_cache : LruCache ℕ
no_cache = record { cache = []; keys = []; max_cache_size = 0 }

new_cache-IsCache : IsCache new_cache
unfolding create
new_cache-IsCache = create-IsCache 1

no_cache-IsCache : IsCache no_cache
unfolding create
no_cache-IsCache = create-IsCache 0

store-queue_example :
    (t : LruCache ℕ) × (store new_cache 7 70 ≡ some t)
    × IsCache t
    × (t.max_cache_size ≡ 1)
    × (queue t ≡ newest 1 (erase 7 (queue new_cache) ++ (7, 70) ∷ []))
store-queue_example = store-queue new_cache 7 70 new_cache-IsCache (omega arith)

-- a full cache
abbrev full_cache : LruCache ℕ
full_cache = record { cache = (7, 70) ∷ (8, 80) ∷ []; keys = 8 ∷ 7 ∷ []; max_cache_size = 2 }

full_cache-IsCache : IsCache full_cache
unfolding find member
full_cache-IsCache = record {
  keyed = (refl, (refl, tt));
  distinct = (refl, (refl, tt));
  same = λ k. ground arith;
  counted = refl;
  bounded = omega arith;
}

get-queue_example :
    IsCache (get full_cache 8).0
    × ((get full_cache 8).1 ≡ find 8 (queue full_cache))
    × (queue (get full_cache 8).0 ≡ elim (find 8 (queue full_cache)) [
      | none ↦ queue full_cache
      | some entry ↦ erase 8 (queue full_cache) ++ (8, entry) ∷ []
    ])
get-queue_example = get-queue full_cache 8 full_cache-IsCache

store-zero_example : store no_cache 7 70 ≡ none
store-zero_example = store-zero no_cache 7 70 no_cache-IsCache refl

search_latency-IsWithin_example :
    All
      (IsWithin whole_ordered
        (foldl calculate_search_latency fresh_metrics (3 ∷ 9 ∷ 5 ∷ [])).min_search_latency_ms
        (foldl calculate_search_latency fresh_metrics (3 ∷ 9 ∷ 5 ∷ [])).max_search_latency_ms)
      (3 ∷ 9 ∷ 5 ∷ [])
search_latency-IsWithin_example =
    search_latency-IsWithin whole_ordered fresh_metrics (3 ∷ 9 ∷ 5 ∷ [])
