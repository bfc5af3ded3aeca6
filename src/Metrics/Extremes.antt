-- ===== src/Metrics/Extremes.antt =====
-- The extremes of the latencies that were measured.
use vector_database.Prelude.{◌≡◌, false, List, [], ◌∷◌, foldl, All, arith}
use vector_database.Float.{Float, Ordered}
use vector_database.Metrics.{Metrics, max_of, min_of, calculate_search_latency}

module _ {R : Type 0} ⦃f : Float R⦄ (o : Ordered R) where
  -- l is not below the least and not above the greatest.
  abbrev pub IsWithin : R → R → R → Type 0
  IsWithin least greatest l = (f.lt l least ≡ false) × (f.lt greatest l ≡ false)

  IsWithin-more :
      (least greatest l new : R)
      → IsWithin least greatest l
      → IsWithin (min_of least new) (max_of greatest new) l
  IsWithin-more least greatest l new h =
      ground (arith, h, o.lt_trans l new least, o.lt_trans greatest new l)

  IsWithin-new : (least greatest new : R) → IsWithin (min_of least new) (max_of greatest new) new
  IsWithin-new least greatest new = ground (arith, o.lt_irrefl new)

  searched-IsWithin :
      (s : Metrics R) (l : R) (ls : List R)
      → IsWithin s.min_search_latency_ms s.max_search_latency_ms l
      → IsWithin
          (foldl calculate_search_latency s ls).min_search_latency_ms
          (foldl calculate_search_latency s ls).max_search_latency_ms
          l
  unfolding calculate_search_latency
  searched-IsWithin s l [] h = h
  searched-IsWithin s l (new ∷ ls) h =
      searched-IsWithin (calculate_search_latency s new) l ls
        (IsWithin-more s.min_search_latency_ms s.max_search_latency_ms l new h)

  -- After any searches, the least and the greatest latency that the metrics give enclose the latency
  -- of each of them, whatever the metrics were before.
  pub search_latency-IsWithin :
      (s : Metrics R) (ls : List R)
      → All
          (IsWithin
            (foldl calculate_search_latency s ls).min_search_latency_ms
            (foldl calculate_search_latency s ls).max_search_latency_ms)
          ls
  unfolding calculate_search_latency
  search_latency-IsWithin s [] = tt
  search_latency-IsWithin s (new ∷ ls) = (
    searched-IsWithin (calculate_search_latency s new) new ls
        (IsWithin-new s.min_search_latency_ms s.max_search_latency_ms new),
    search_latency-IsWithin (calculate_search_latency s new) ls,
  )
