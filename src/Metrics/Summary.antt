-- ===== src/Metrics/Summary.antt =====
-- `Metrics::print_summary` of src/metrics.cpp: the text that it writes to the standard output.
use Prim.Native.String.{String, ◌++◌, count}
use vdi_cpp_wrapper.Prelude.{
  ℕ, zero, suc, ◌-◌, ◌/◌, [], ◌∷◌, Bool, ltb, ◌==◌, if◌then◌else◌, to_string, add64, uint64_max,
}
use vdi_cpp_wrapper.Metrics.{Metrics, ChunkTiming, stage_values}
use vdi_cpp_wrapper.Metrics.Percentile.{percentile}
use vdi_cpp_wrapper.Metrics.Report.{Outside, filetime_to_us}

-- The texts of the numbers in floating point with one decimal: a number of bytes in KB, the
-- seconds, the processor's share from its microseconds and the elapsed milliseconds, the
-- throughput from the bytes and the milliseconds, which may be 0 here, and the reuse rate from
-- the hits and the acquires.
pub record Decimals : Type 0 where
  pub kb_text : ℕ → String
  pub seconds_text : ℕ → String
  pub cpu_pct_text : ℕ → ℕ → String
  pub throughput_text : ℕ → ℕ → String
  pub reuse_rate_text : ℕ → ℕ → String

-- std::right << std::setw(n) << s
spaces : ℕ → String → String
spaces zero s = s
spaces (suc n) s = " " ++ spaces n s

setw : ℕ → String → String
unfolding spaces
setw n s = spaces (n - count s) s

-- cur_min, where UINT64_MAX stands for no chunk
unfoldable pub summary_min : Metrics → ℕ
summary_min m = if m.min_chunk_size == uint64_max then 0 else m.min_chunk_size

-- avg of the running sum, and avg of the totals; each is only reached with a chunk, the inner test
-- of the first is the source's.
unfoldable pub summary_avg : Metrics → ℕ
summary_avg m = if ltb 0 m.chunk_count then m.sum_chunk_sizes / m.chunk_count else 0

unfoldable pub totals_avg : Metrics → ℕ
totals_avg m = m.total_bytes / m.chunk_count

-- A line of the chunk sizes.
size_line : Decimals → String → ℕ → String
size_line d label n = label ++ to_string n ++ " bytes (" ++ d.kb_text n ++ " KB)\n"

sizes_summary : Decimals → Metrics → String
unfolding summary_min summary_avg totals_avg size_line
sizes_summary d m =
    "\nChunk Sizes:\n"
    ++ (if ltb 0 m.chunk_count
        then size_line d "  Min: " (summary_min m)
          ++ size_line d "  Avg: " (summary_avg m)
          ++ size_line d "  Max: " m.max_chunk_size
        else "  (no data)\n")
    ++ (if ltb 0 m.chunk_count
        then size_line d "\nAverage chunk size (from totals): " (totals_avg m)
        else "")

-- Nothing where GetProcessTimes fails.
cpu_summary : Outside → Decimals → Bool → String
unfolding filetime_to_us
cpu_summary o d times_known =
    let kernel_us = filetime_to_us o.kernel_time in
    let user_us = filetime_to_us o.user_time in
    let total_cpu_us = add64 kernel_us user_us in
    if times_known
    then "CPU utilization: "
      ++ d.cpu_pct_text total_cpu_us o.elapsed_ms
      ++ "%"
      ++ " (kernel="
      ++ to_string (kernel_us / 1000)
      ++ " ms, user="
      ++ to_string (user_us / 1000)
      ++ " ms, total="
      ++ to_string (total_cpu_us / 1000)
      ++ " ms)\n"
    else ""

-- The lambda print_stage
print_stage : Outside → Metrics → String → (ChunkTiming → ℕ) → String
unfolding setw
print_stage o m name field =
    let values = stage_values m field in
    setw 12 name
    ++ setw 12 (to_string (percentile o.rank values 50))
    ++ setw 12 (to_string (percentile o.rank values 95))
    ++ setw 12 (to_string (percentile o.rank values 99))
    ++ "\n"

stages_summary : Outside → Metrics → String
unfolding print_stage setw
stages_summary o m = elim m.timings [
  | [] ↦ ""
  | _ ∷ _ ↦
      "\n--- Per-Stage Latency Breakdown (us) ---\n"
      ++ setw 12 "Stage"
      ++ setw 12 "P50"
      ++ setw 12 "P95"
      ++ setw 12 "P99"
      ++ "\n"
      ++ "------------------------------------------------\n"
      ++ print_stage o m "GetCommand" (λ t. t.getcommand_us)
      ++ print_stage o m "Dispatch" (λ t. t.dispatch_us)
      ++ print_stage o m "Sink" (λ t. t.sink_us)
      ++ print_stage o m "Complete" (λ t. t.complete_us)
      ++ print_stage o m "Total" (λ t. t.total_us)
      ++ "\n"
]

pool_summary : Decimals → Metrics → String
pool_summary d m =
    "\nBuffer Pool:\n"
    ++ "  Acquires:      "
    ++ to_string m.buffer_acquire_count
    ++ "\n"
    ++ "  Releases:      "
    ++ to_string m.buffer_release_count
    ++ "\n"
    ++ "  Hits:          "
    ++ to_string m.buffer_pool_hits
    ++ "\n"
    ++ "  Misses:        "
    ++ to_string m.buffer_pool_misses
    ++ "\n"
    ++ "  Reuse rate:    "
    ++ d.reuse_rate_text m.buffer_pool_hits m.buffer_acquire_count
    ++ "%\n"

-- void print_summary() const
unfoldable pub print_summary : Outside → Decimals → Bool → Metrics → String
unfolding sizes_summary cpu_summary stages_summary pool_summary
print_summary o d times_known m =
    "Bytes: "
    ++ to_string m.total_bytes
    ++ "\n"
    ++ "Chunks: "
    ++ to_string m.chunk_count
    ++ "\n"
    ++ sizes_summary d m
    ++ "\nTotal elapsed time: "
    ++ d.seconds_text o.elapsed_ms
    ++ " s\n"
    ++ cpu_summary o d times_known
    ++ "\nThroughput MB/s: "
    ++ d.throughput_text m.total_bytes o.elapsed_ms
    ++ "\n"
    ++ stages_summary o m
    ++ pool_summary d m
    ++ (if m.logging_enabled then "\n* Logging was ON during this run\n" else "")
    ++ "\n"
