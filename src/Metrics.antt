-- ===== src/Metrics.antt =====
-- include/metrics.h, include/chunk_timing.h and src/metrics.cpp: the counters of a session. The
-- timer and the start time belong to the platform's clock, so they are no fields here.
pub mod Percentile
pub mod Counters
pub mod Report
pub mod Summary
pub mod Reader
pub mod Threads
use vdi_cpp_wrapper.Prelude.{
  ℕ, zero, suc, ◌+◌, List, [], ◌∷◌, ◌++◌, map, Bool, true, false, ltb, if◌then◌else◌, add64,
  uint64_max,
}

pub record ChunkTiming : Type 0 where
  pub size : ℕ
  pub getcommand_us : ℕ
  pub dispatch_us : ℕ
  pub sink_us : ℕ
  pub complete_us : ℕ
  pub total_us : ℕ
  pub timestamp_us : ℕ

pub record Metrics : Type 0 where
  pub logging_enabled : Bool
  pub total_bytes : ℕ
  pub chunk_count : ℕ
  pub min_chunk_size : ℕ
  pub max_chunk_size : ℕ
  pub sum_chunk_sizes : ℕ
  pub buffer_acquire_count : ℕ
  pub buffer_release_count : ℕ
  pub buffer_pool_hits : ℕ
  pub buffer_pool_misses : ℕ
  pub timings : List ChunkTiming

-- Metrics::Metrics(timer, enable_logging)
unfoldable pub new : Bool → Metrics
new enable_logging = record {
  logging_enabled = enable_logging;
  total_bytes = 0;
  chunk_count = 0;
  min_chunk_size = uint64_max;
  max_chunk_size = 0;
  sum_chunk_sizes = 0;
  buffer_acquire_count = 0;
  buffer_release_count = 0;
  buffer_pool_hits = 0;
  buffer_pool_misses = 0;
  timings = [];
}

unfoldable pub add_bytes : Metrics → ℕ → Metrics
add_bytes m size = record m {
  total_bytes = add64 m.total_bytes size;
  chunk_count = add64 m.chunk_count 1;
}

-- The loops around compare_exchange_weak, one thread alone. A spurious failure reads the counter
-- again and goes round; the first argument is the number of these before the exchange succeeds.
unfoldable pub update_min : ℕ → ℕ → ℕ → ℕ
update_min zero size cur_min = if ltb size cur_min then size else cur_min
update_min (suc failures) size cur_min =
    if ltb size cur_min then update_min failures size cur_min else cur_min

unfoldable pub update_max : ℕ → ℕ → ℕ → ℕ
update_max zero size cur_max = if ltb cur_max size then size else cur_max
update_max (suc failures) size cur_max =
    if ltb cur_max size then update_max failures size cur_max else cur_max

-- `f` and `g` are the spurious failures of the two loops.
unfoldable pub record_chunk_size : Metrics → ℕ → ℕ → ℕ → Metrics
record_chunk_size m f g size = record m {
  min_chunk_size = update_min f size m.min_chunk_size;
  max_chunk_size = update_max g size m.max_chunk_size;
  sum_chunk_sizes = add64 m.sum_chunk_sizes size;
}

unfoldable pub record_chunk_timing : Metrics → ChunkTiming → Metrics
record_chunk_timing m timing = record m { timings = m.timings ++ timing ∷ [] }

unfoldable pub record_buffer_acquire : Metrics → Bool → Metrics
record_buffer_acquire m success =
    if success
    then record m {
      buffer_acquire_count = add64 m.buffer_acquire_count 1;
      buffer_pool_hits = add64 m.buffer_pool_hits 1;
    }
    else record m {
      buffer_acquire_count = add64 m.buffer_acquire_count 1;
      buffer_pool_misses = add64 m.buffer_pool_misses 1;
    }

unfoldable pub record_buffer_release : Metrics → Metrics
record_buffer_release m = record m { buffer_release_count = add64 m.buffer_release_count 1 }

-- std::vector<uint64_t> stage_values(field)
unfoldable pub stage_values : Metrics → (ChunkTiming → ℕ) → List ℕ
stage_values m field = map field m.timings
