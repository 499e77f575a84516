-- ===== src/Metrics/Report.antt =====
-- `Metrics::to_json` of src/metrics.cpp. What is computed and printed in floating point is a
-- parameter, and so are the process times and the elapsed time.
pub mod Order
use Prim.Native.String.{String, ◌++◌}
use Prim.Native.Nat.{min, max}
use vdi_cpp_wrapper.Prelude.{
  ℕ, ◌*◌, ◌/◌, ◌≤◌, ◌<◌, ◌≡◌, List, [], ◌∷◌, Bool, arith, ltb, ◌==◌, if◌then◌else◌, to_string,
  add64, uint64_max, u64_mod, length,
}
use vdi_cpp_wrapper.Metrics.{Metrics, ChunkTiming, stage_values, new}
use vdi_cpp_wrapper.Metrics.Percentile.{percentile}
use vdi_cpp_wrapper.Metrics.Counters.{Chunk, record_chunks, sum, least, greatest, record_chunks-new}
use native.Mathlib.Nat.{le-div_iff_mul-le, div-le_of_le-mul}

-- The outside of a report: the milliseconds since the start, the process times in units of 100 ns
-- (0 where GetProcessTimes fails), the rank of a percentile, and the texts of the numbers in
-- floating point: the throughput from the bytes and the milliseconds, the seconds, and the reuse
-- rate from the hits and the acquires.
pub record Outside : Type 0 where
  pub elapsed_ms : ℕ
  pub kernel_time : ℕ
  pub user_time : ℕ
  pub rank : ℕ → ℕ → ℕ
  pub throughput_text : ℕ → ℕ → String
  pub seconds_text : ℕ → String
  pub reuse_rate_text : ℕ → ℕ → String

-- uint64_t filetime_to_us(ft)
unfoldable pub filetime_to_us : ℕ → ℕ
filetime_to_us ft = ft / 10

-- cur_min, which is 0 where no chunk has been recorded
unfoldable pub reported_min : Metrics → ℕ
reported_min m = if m.min_chunk_size == uint64_max then 0 else m.min_chunk_size

-- avg
unfoldable pub reported_avg : Metrics → ℕ
reported_avg m = if ltb 0 m.chunk_count then m.sum_chunk_sizes / m.chunk_count else 0

-- The three lines of a stage, from `stage_p`.
pub stage_json : Outside → Metrics → (ChunkTiming → ℕ) → String
stage_json o m field =
    let stage_p : ℕ → String = λ p. to_string (percentile o.rank (stage_values m field) p) in
    "      \"p50\": "
    ++ stage_p 50
    ++ ",\n"
    ++ "      \"p95\": "
    ++ stage_p 95
    ++ ",\n"
    ++ "      \"p99\": "
    ++ stage_p 99
    ++ "\n"

-- std::string to_json() const, in its parts
sizes_json : Metrics → String
unfolding reported_min reported_avg
sizes_json m =
    "  \"chunk_sizes\": {\n"
    ++ "    \"min_bytes\": "
    ++ to_string (reported_min m)
    ++ ",\n"
    ++ "    \"avg_bytes\": "
    ++ to_string (reported_avg m)
    ++ ",\n"
    ++ "    \"max_bytes\": "
    ++ to_string m.max_chunk_size
    ++ "\n"
    ++ "  },\n"

cpu_json : Outside → String
unfolding filetime_to_us
cpu_json o =
    let kernel_us = filetime_to_us o.kernel_time in
    let user_us = filetime_to_us o.user_time in
    "  \"cpu\": {\n"
    ++ "    \"kernel_ms\": "
    ++ to_string (kernel_us / 1000)
    ++ ",\n"
    ++ "    \"user_ms\": "
    ++ to_string (user_us / 1000)
    ++ ",\n"
    ++ "    \"total_ms\": "
    ++ to_string (add64 kernel_us user_us / 1000)
    ++ "\n"
    ++ "  },\n"

pub timing_json : Outside → Metrics → String
unfolding stage_json
timing_json o m =
    "  \"per_stage_timing_us\": {\n"
    ++ "    \"getcommand\": {\n"
    ++ stage_json o m (λ t. t.getcommand_us)
    ++ "    },\n"
    ++ "    \"dispatch\": {\n"
    ++ stage_json o m (λ t. t.dispatch_us)
    ++ "    },\n"
    ++ "    \"sink\": {\n"
    ++ stage_json o m (λ t. t.sink_us)
    ++ "    },\n"
    ++ "    \"complete\": {\n"
    ++ stage_json o m (λ t. t.complete_us)
    ++ "    },\n"
    ++ "    \"total\": {\n"
    ++ stage_json o m (λ t. t.total_us)
    ++ "    }\n"
    ++ "  },\n"

pool_json : Outside → Metrics → String
pool_json o m =
    "  \"buffer_pool\": {\n"
    ++ "    \"acquires\": "
    ++ to_string m.buffer_acquire_count
    ++ ",\n"
    ++ "    \"releases\": "
    ++ to_string m.buffer_release_count
    ++ ",\n"
    ++ "    \"hits\": "
    ++ to_string m.buffer_pool_hits
    ++ ",\n"
    ++ "    \"misses\": "
    ++ to_string m.buffer_pool_misses
    ++ ",\n"
    ++ "    \"reuse_rate_pct\": "
    ++ o.reuse_rate_text m.buffer_pool_hits m.buffer_acquire_count
    ++ "\n  },\n"

unfoldable pub to_json : Outside → Metrics → String
unfolding sizes_json cpu_json timing_json pool_json
to_json o m =
    "{\n"
    ++ "  \"tool_version\": \"0.1.0\",\n"
    ++ "  \"throughput_mbps\": "
    ++ o.throughput_text m.total_bytes o.elapsed_ms
    ++ ",\n"
    ++ "  \"total_bytes\": "
    ++ to_string m.total_bytes
    ++ ",\n"
    ++ "  \"chunk_count\": "
    ++ to_string m.chunk_count
    ++ ",\n"
    ++ "  \"elapsed_seconds\": "
    ++ o.seconds_text o.elapsed_ms
    ++ ",\n"
    ++ sizes_json m
    ++ cpu_json o
    ++ timing_json o m
    ++ pool_json o m
    ++ "  \"logging_enabled\": "
    ++ (if m.logging_enabled then "true" else "false")
    ++ "\n}"

least_le : (d : ℕ) (cs : List Chunk) → least d cs ≤ d
least_le d [] = omega arith
least_le d (c ∷ cs) = ground (arith, least_le (min c.size d) cs)

le_greatest : (d : ℕ) (cs : List Chunk) → d ≤ greatest d cs
le_greatest d [] = omega arith
le_greatest d (c ∷ cs) = ground (arith, le_greatest (max c.size d) cs)

-- Every size is at least `l`, where `l` is at most the least of them.
mul-le_sum : (l d : ℕ) (cs : List Chunk) → l ≤ least d cs → l * length cs ≤ sum cs
mul-le_sum l d [] h = omega arith
mul-le_sum l d (c ∷ cs) h =
    omega (arith, mul-le_sum l (min c.size d) cs h, least_le (min c.size d) cs)

sum-le_mul : (g d : ℕ) (cs : List Chunk) → greatest d cs ≤ g → sum cs ≤ g * length cs
sum-le_mul g d [] h = omega arith
sum-le_mul g d (c ∷ cs) h =
    omega (arith, sum-le_mul g (max c.size d) cs h, le_greatest (max c.size d) cs)

-- Of chunks recorded in a new object, at least one, the first smaller than 2^64 - 1, and with a
-- sum and a number below 2^64: the reported average is the quotient of the sum by the number, and
-- it lies between the reported minimum and maximum.
pub reported_avg_bounds :
    (logging : Bool) (c : Chunk) (cs : List Chunk)
    → sum (c ∷ cs) < u64_mod
    → length (c ∷ cs) < u64_mod
    → c.size < uint64_max
    → let m = record_chunks (new logging) (c ∷ cs) in
      (reported_avg m ≡ sum (c ∷ cs) / length (c ∷ cs))
      × (reported_min m ≤ reported_avg m)
      × (reported_avg m ≤ m.max_chunk_size)
unfolding reported_avg reported_min
reported_avg_bounds logging c cs h k l =
    let m = record_chunks (new logging) (c ∷ cs) in
    let low = least uint64_max (c ∷ cs) in
    let high = greatest 0 (c ∷ cs) in
    let total = sum (c ∷ cs) in
    let n = length (c ∷ cs) in
    let (bytes, count, sums, lowest, highest) = record_chunks-new logging (c ∷ cs) in
    let summed : m.sum_chunk_sizes ≡ total = omega (arith, bytes, sums) in
    let counted : m.chunk_count ≡ n = omega (arith, count) in
    let some_low : low < uint64_max = omega (arith, least_le (min c.size uint64_max) cs) in
    let avg : reported_avg m ≡ total / n = rw (summed, counted) (ground arith) in
    let shown : reported_min m ≡ low = rw lowest (ground (arith, some_low)) in
    let positive : 0 < n = omega arith in
    let low_le : low ≤ low = omega arith in
    let high_le : high ≤ high = omega arith in
    let at_least : low * n ≤ total = mul-le_sum low uint64_max (c ∷ cs) low_le in
    let at_most : total ≤ n * high = omega (arith, sum-le_mul high 0 (c ∷ cs) high_le) in
    let above : low ≤ total / n = (le-div_iff_mul-le positive).1 at_least in
    let below : total / n ≤ high = div-le_of_le-mul n at_most in
    (avg, omega (arith, shown, avg, above), omega (arith, highest, avg, below))
