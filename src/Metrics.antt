-- ===== src/Metrics.antt =====
-- engine/src/metrics/metrics_manager.cc: the counters and latencies of a table.
pub mod Extremes
use vector_database.Prelude.{ℕ, ◌+◌, ◌%◌, ◌^◌, Bool, if◌then◌else◌}
use vector_database.Float.{Float}

pub record Metrics (R : Type 0) : Type 0 where
  pub insert_count : ℕ
  pub remove_count : ℕ
  pub search_count : ℕ
  pub cleanup_count : ℕ
  pub reindex_count : ℕ
  pub average_search_latency_ms : R
  pub max_search_latency_ms : R
  pub min_search_latency_ms : R
  pub average_cleanup_latency_ms : R
  pub max_cleanup_latency_ms : R
  pub min_cleanup_latency_ms : R
  pub cache_hit : ℕ
  pub cache_miss : ℕ

pub data CountType : Type 0 where
  insert : CountType
  remove : CountType
  search : CountType
  cleanup : CountType
  reindex : CountType
  cache_hit : CountType
  cache_miss : CountType

-- the sum of two numbers of 64 bits
abbrev pub add : ℕ → ℕ → ℕ
add count step = (count + step) % 2 ^ 64

module _ {R : Type 0} ⦃f : Float R⦄ where
  unfoldable pub create : Metrics R
  create = record {
    insert_count = 0;
    remove_count = 0;
    search_count = 0;
    cleanup_count = 0;
    reindex_count = 0;
    average_search_latency_ms = f.zero;
    max_search_latency_ms = f.zero;
    min_search_latency_ms = f.largest;
    average_cleanup_latency_ms = f.zero;
    max_cleanup_latency_ms = f.zero;
    min_cleanup_latency_ms = f.largest;
    cache_hit = 0;
    cache_miss = 0;
  }

  -- std::max and std::min
  abbrev pub max_of : R → R → R
  max_of a b = if f.lt a b then b else a

  abbrev pub min_of : R → R → R
  min_of a b = if f.lt b a then b else a

  -- the average of `count` values and one more
  abbrev pub average : R → ℕ → R → R
  average old count latency =
      f.div (f.add (f.mul old (f.from_count count)) latency) (f.from_count (add count 1))

  unfoldable pub calculate_search_latency : Metrics R → R → Metrics R
  calculate_search_latency s latency = record s {
    average_search_latency_ms = average s.average_search_latency_ms s.search_count latency;
    max_search_latency_ms = max_of s.max_search_latency_ms latency;
    min_search_latency_ms = min_of s.min_search_latency_ms latency;
  }

  unfoldable pub calculate_cleanup_latency : Metrics R → R → Metrics R
  calculate_cleanup_latency s latency = record s {
    average_cleanup_latency_ms = average s.average_cleanup_latency_ms s.cleanup_count latency;
    max_cleanup_latency_ms = max_of s.max_cleanup_latency_ms latency;
    min_cleanup_latency_ms = min_of s.min_cleanup_latency_ms latency;
  }

module _ {R : Type 0} where
  unfoldable pub increment : Metrics R → CountType → ℕ → Metrics R
  increment s insert step = record s { insert_count = add s.insert_count step }
  increment s remove step = record s { remove_count = add s.remove_count step }
  increment s search step = record s { search_count = add s.search_count step }
  increment s cleanup step = record s { cleanup_count = add s.cleanup_count step }
  increment s reindex step = record s { reindex_count = add s.reindex_count step }
  increment s CountType.cache_hit step = record s { cache_hit = add s.cache_hit step }
  increment s CountType.cache_miss step = record s { cache_miss = add s.cache_miss step }
