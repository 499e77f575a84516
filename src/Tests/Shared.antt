-- ===== src/Tests/Shared.antt =====
-- Threads that race on the counters, timings in two orders, the objects of a session, and its
-- failures.
use mathlib.Core.List.Perm
use mathlib.Core.Quot
use Prim.Native.Nat.{min}
use vdi_cpp_wrapper.Prelude.{
  none, ltb, if◌then◌else◌, u64_mod, ◌-◌, ℕ, ◌+◌, ◌*◌, ◌/◌, ◌≤◌, ◌≡◌, refl, List, [], ◌∷◌, true,
  false, pos, some, arith, length, get_or,
}
use vdi_cpp_wrapper.Sink.{file_sink}
use vdi_cpp_wrapper.Faults
use vdi_cpp_wrapper.Faults.{stub, set_fail_after_n_chunks, chunk_count}
use vdi_cpp_wrapper.Errors.State.{failed_state}
use vdi_cpp_wrapper.Metrics
use vdi_cpp_wrapper.Metrics.{Metrics, ChunkTiming}
use vdi_cpp_wrapper.Metrics.Percentile.{sort, percentile}
use vdi_cpp_wrapper.Metrics.Percentile.Order.{sort-IsSort, place, percentile_any_sort}
use vdi_cpp_wrapper.Metrics.Report.{Outside, to_json}
use vdi_cpp_wrapper.Metrics.Report.Order.{record_all, to_json-record_all}
use vdi_cpp_wrapper.Metrics.Threads.{
  Call, adds_bytes, records_chunk_size, Point, lowering, lowered, loads_min, lowers, fails_to_lower,
  here, there, Steps, start, further, begin, ended, all_calls, run_calls,
}
use vdi_cpp_wrapper.Metrics.Threads.Solo.{threads_finish}
use vdi_cpp_wrapper.Client.{VdiClient, new, stall_warn_ms}
use vdi_cpp_wrapper.World.{Platform}
use vdi_cpp_wrapper.Protocol.{vd_e_timeout, vd_e_close}
use vdi_cpp_wrapper.Client.Termination.{polls}
use vdi_cpp_wrapper.Client.Stall.Limit.{warnings, latest, IsClock}
use vdi_cpp_wrapper.Client.Stall.Limit.Session.{process_commands_warns}
use vdi_cpp_wrapper.Client.Lifecycle.{destroy}
use vdi_cpp_wrapper.Client.Loop.{process_commands}
use vdi_cpp_wrapper.Client.FailFast.{retries}
use vdi_cpp_wrapper.Client.Session.FailFast.{retries-run}
use vdi_cpp_wrapper.Client.Faulted.{completions}
use vdi_cpp_wrapper.Client.Faulted.Session.{process_commands_faulted}
use vdi_cpp_wrapper.Client.Objects.{absent, Uses}
use vdi_cpp_wrapper.Client.Session.{connects, opens, processes, closes, run}
use vdi_cpp_wrapper.Client.Session.Usage.{run-Uses}
use vdi_cpp_wrapper.Tests.{platform, empty_file, opened_client}

-- Two threads record sizes 5 and 3, the second with an add_bytes behind it.
abbrev work : List (List Call)
work = (records_chunk_size 5 ∷ []) ∷ (records_chunk_size 3 ∷ adds_bytes 3 ∷ []) ∷ []

abbrev raced : Metrics
raced = record (Metrics.new true) { min_chunk_size = 5 }

abbrev raced_points : List Point
raced_points = lowered 5 [] ∷ lowering 3 5 (adds_bytes 3 ∷ []) ∷ []

-- Both read the minimum; the first lowers it, so the exchange of the second fails.
race : Steps (Metrics.new true) (begin work) raced raced_points
unfolding Metrics.new
race =
    further
      (further (further (further start (here loads_min)) (there (here loads_min)))
        (here (lowers (omega arith) refl)))
      (there (here (fails_to_lower (omega arith))))

threads_finish_example :
    ((n : Metrics) × Steps raced raced_points n (ended work))
    × ((n : Metrics)
        → Steps raced raced_points n (ended work)
        → n ≡ run_calls (Metrics.new true) (all_calls work))
threads_finish_example = threads_finish (Metrics.new true) raced work raced_points race

race_ends :
    let n = run_calls (Metrics.new true) (all_calls work) in
    (n.min_chunk_size ≡ 3) × (n.max_chunk_size ≡ 5) × (n.sum_chunk_sizes ≡ 8) × (n.total_bytes ≡ 3)
unfolding run_calls Metrics.new Metrics.add_bytes Metrics.record_chunk_size Metrics.update_min
    Metrics.update_max
race_ends = (refl, refl, refl, refl)

-- The exact rank of the nearest-rank method.
abbrev nearest_rank : ℕ → ℕ → ℕ
nearest_rank p n = (p * n + 99) / 100

percentile_any_sort_example :
    let ys : List ℕ = 7 ∷ 9 ∷ [] in
    percentile nearest_rank (9 ∷ 7 ∷ []) 50
    ≡ get_or (sort ys) (place (nearest_rank 50 (length ys)) (length ys)) 0
percentile_any_sort_example =
    percentile_any_sort nearest_rank sort (9 ∷ 7 ∷ []) (7 ∷ 9 ∷ []) 50 sort-IsSort
      (Perm.swap 7 9 []) (omega arith) (omega arith) (omega arith)

abbrev outside : Outside
outside = record {
  elapsed_ms = 5;
  kernel_time = 20;
  user_time = 30;
  rank = nearest_rank;
  throughput_text = λ bytes ms. "0.00";
  seconds_text = λ ms. "0.01";
  reuse_rate_text = λ hits acquires. "100.0";
}

abbrev timing : ℕ → ChunkTiming
timing us = record {
  size = 512;
  getcommand_us = us;
  dispatch_us = 1;
  sink_us = 2 * us;
  complete_us = 4;
  total_us = 3 * us + 5;
  timestamp_us = 0;
}

to_json-record_all_example :
    to_json outside (record_all (Metrics.new false) (timing 9 ∷ timing 7 ∷ []))
    ≡ to_json outside (record_all (Metrics.new false) (timing 7 ∷ timing 9 ∷ []))
to_json-record_all_example =
    to_json-record_all outside (Metrics.new false) (timing 9 ∷ timing 7 ∷ [])
      (timing 7 ∷ timing 9 ∷ []) (Quot.sound (Perm.swap (timing 7) (timing 9) []))

run-Uses_example :
    (devices : List ℕ) × Uses
      (destroy platform (
        run platform
          (new (some (file_sink empty_file)) false stub [])
          (connects "VDI_Device_1" (pos 1) ∷ opens ∷ processes 3 ∷ closes ∷ []))).calls
      absent
      devices
run-Uses_example =
    run-Uses platform (some (file_sink empty_file)) false stub
      (connects "VDI_Device_1" (pos 1) ∷ opens ∷ processes 3 ∷ closes ∷ [])

retries-run_example :
    retries
      (destroy platform (
        run platform
          (new (some (file_sink empty_file)) false stub [])
          (connects "VDI_Device_1" (pos 1) ∷ opens ∷ processes 3 ∷ opens ∷ processes 3 ∷ []))).calls
    ≡ 0
retries-run_example =
    retries-run platform (some (file_sink empty_file)) false stub
      (connects "VDI_Device_1" (pos 1) ∷ opens ∷ processes 3 ∷ opens ∷ processes 3 ∷ [])

-- A session that is to fail with its first command.
abbrev doomed : VdiClient
doomed = record opened_client { fault_injector = set_fail_after_n_chunks Faults.new 1 }

process_commands_faulted_example :
    let d = (process_commands platform 3 doomed).1 in
    let k = chunk_count d.fault_injector in
    (completions d.calls ≡ completions doomed.calls + k)
    × (k ≤ 1)
    × (k ≡ 1 → d.state ≡ failed_state)
process_commands_faulted_example =
    process_commands_faulted platform 3 1 doomed (omega arith) (omega arith) refl

-- Each reading of the clock is 70 seconds after the last, up to the end of 64 bits; the server
-- lets two calls of GetCommand time out.
abbrev ticking : Platform
ticking = record platform {
  on_now_us = λ t. min (latest t + 70000000) (u64_mod - 1);
  on_get_command =
      λ t device timeout. if ltb (polls t) 2 then (vd_e_timeout, none) else (vd_e_close, none);
}

ticking-IsClock : IsClock ticking
ticking-IsClock = record { mono = λ t h. omega (arith, h); fits = λ t. omega arith }

process_commands_warns_example :
    let d = (process_commands ticking 5 opened_client).1 in
    (w : ℕ) × (warnings d.calls ≡ warnings opened_client.calls + w)
    × (latest opened_client.calls + w * (stall_warn_ms * 1000) ≤ latest d.calls)
unfolding latest
process_commands_warns_example =
    process_commands_warns ticking 5 opened_client ticking-IsClock (omega arith)
