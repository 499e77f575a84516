-- ===== src/Tests/Books.antt =====
-- The books of a session on the inputs of Tests.
use Prim.Native.String.{◌++◌}
use vdi_cpp_wrapper.Prelude.{
  ◌∷◌, [], some, false, pos, refl, ◌≡◌, ◌%◌, ◌/◌, length, u64_mod, arith, map, true, ◌*◌, ◌<◌,
  subst, sym,
}
use vdi_cpp_wrapper.Metrics.{ChunkTiming}
use vdi_cpp_wrapper.Metrics.Report.{Outside, to_json}
use vdi_cpp_wrapper.Metrics.Summary.{Decimals}
use vdi_cpp_wrapper.Metrics.Reader.{read_counts, read_counts-to_json}
use vdi_cpp_wrapper.Client.Report.{report}
use vdi_cpp_wrapper.Client.Accounting.Logged.{read_log, process_commands-logs}
use vdi_cpp_wrapper.Client.Accounting.Timings.{completed, AllSummed}
use vdi_cpp_wrapper.Client.Accounting.TimedHistories.{run-Timed}
use vdi_cpp_wrapper.Sink.Bytes.{file_bytes}
use vdi_cpp_wrapper.Metrics.Report.{reported_min, reported_avg}
use vdi_cpp_wrapper.Metrics.Summary.{summary_min, summary_avg, totals_avg}
use vdi_cpp_wrapper.Client.Backup.{received_bytes}
use vdi_cpp_wrapper.Client.Accounting.Measured.{process_commands-measures}
use vdi_cpp_wrapper.Client.Accounting.Reports.{run-averages}
use vdi_cpp_wrapper.Client.Session.Com.{IsBalanced, run-IsBalanced}
use vdi_cpp_wrapper.Client.Termination.{polls}
use vdi_cpp_wrapper.Client.Loop.{process_commands, run_loop, open_all, dev_count}
use vdi_cpp_wrapper.Tests.Sessions.{
  platform-WritesAll, platform-SendsWellFormed, opened_client-Accepts, backup_test,
}
use vdi_cpp_wrapper.Com
use vdi_cpp_wrapper.Client
use vdi_cpp_wrapper.Client.Loop
use vdi_cpp_wrapper.Client.Chunk
use vdi_cpp_wrapper.Client.Lifecycle
use vdi_cpp_wrapper.Client.Session
use vdi_cpp_wrapper.Metrics
use vdi_cpp_wrapper.Protocol
use vdi_cpp_wrapper.BufferPool
use vdi_cpp_wrapper.Faults
use vdi_cpp_wrapper.Sink
use vdi_cpp_wrapper.Sink.Files
use vdi_cpp_wrapper.Sink.{file_sink}
use vdi_cpp_wrapper.Faults.{stub}
use vdi_cpp_wrapper.Client.{VdiClient, new}
use vdi_cpp_wrapper.Client.Accounting.Sizes.{Shows, totals}
use vdi_cpp_wrapper.Client.Accounting.Buffers.{IsSettled}
use vdi_cpp_wrapper.Client.Accounting.Histories.{run-Shows, run-IsSettled}
use vdi_cpp_wrapper.Client.Session.{connects, opens, processes, closes, run}
use vdi_cpp_wrapper.Tests.{platform, empty_file, opened_client}

abbrev history : VdiClient
history =
    run platform (new (some (file_sink empty_file)) false stub [])
      (connects "VDI_Device_1" (pos 1) ∷ opens ∷ processes 3 ∷ closes ∷ [])

run-Shows_example : Shows history.metrics (totals history.calls)
run-Shows_example =
    run-Shows platform (some (file_sink empty_file)) false stub
      (connects "VDI_Device_1" (pos 1) ∷ opens ∷ processes 3 ∷ closes ∷ [])

run-IsSettled_example : IsSettled history
run-IsSettled_example =
    run-IsSettled platform (some (file_sink empty_file)) false stub
      (connects "VDI_Device_1" (pos 1) ∷ opens ∷ processes 3 ∷ closes ∷ [])

process_commands-measures_example :
    let d = (process_commands platform 3 opened_client).1 in
    d.metrics.total_bytes ≡ length (file_bytes d.calls) % u64_mod
unfolding received_bytes totals new Metrics.new
process_commands-measures_example =
    process_commands-measures platform 3 opened_client platform-WritesAll platform-SendsWellFormed
      refl opened_client-Accepts (refl, refl, refl, refl, refl) refl backup_test.1

run-IsBalanced_example : IsBalanced history.calls
run-IsBalanced_example =
    run-IsBalanced platform (some (file_sink empty_file)) false stub
      (connects "VDI_Device_1" (pos 1) ∷ opens ∷ processes 3 ∷ closes ∷ [])

one_chunk :
    (history.metrics.chunk_count ≡ 1)
    × (history.metrics.total_bytes ≡ 3)
    × ((totals history.calls).bytes ≡ 3)
    × ((totals history.calls).chunks ≡ 1)
unfolding run totals Session.step Lifecycle.connect Lifecycle.open_devices Com.new Com.destroy
    process_commands polls new run_loop Loop.poll_devices Chunk.poll_device
    Protocol.dispatch_command Protocol.validate_write_command BufferPool.acquire BufferPool.new
    Sink.is_open Sink.Files.is_open Sink.write Sink.Files.write Sink.Files.write_small
    Faults.on_chunk_completed Lifecycle.flush_sink Lifecycle.close Sink.flush Sink.Files.flush
    BufferPool.release Chunk.account_chunk Chunk.call_complete_command Chunk.call_get_command
    Chunk.complete_stage Chunk.execute Chunk.on_get_command_error Chunk.on_reply Chunk.receive
    Chunk.record_completion Chunk.run_command Chunk.sink_stage Chunk.store_chunk Chunk.timing_of
    Chunk.use_buffer Chunk.write_chunk Lifecycle.release_device_set dev_count Loop.finish open_all
    Loop.release_all Loop.serve Loop.start_session Client.now_us Metrics.add_bytes Metrics.new
    Metrics.record_buffer_acquire Metrics.record_buffer_release Metrics.record_chunk_size
    Metrics.record_chunk_timing Metrics.update_max Metrics.update_min Sink.Files.copy_at
    Sink.Files.flush_buffer
one_chunk = (refl, refl, refl, refl)

run-averages_example :
    (summary_avg history.metrics ≡ totals_avg history.metrics)
    × (summary_avg history.metrics ≡ reported_avg history.metrics)
    × (summary_min history.metrics ≡ reported_min history.metrics)
    × (totals_avg history.metrics ≡ (totals history.calls).bytes / (totals history.calls).chunks)
run-averages_example =
    run-averages platform (some (file_sink empty_file)) false stub
      (connects "VDI_Device_1" (pos 1) ∷ opens ∷ processes 3 ∷ closes ∷ [])
      (omega (arith, one_chunk)) (omega (arith, one_chunk)) (omega (arith, one_chunk))

run-Timed_example :
    (completed history.calls ≡ map (λ (t : ChunkTiming). t.size) history.metrics.timings)
    × AllSummed history.metrics.timings
run-Timed_example =
    run-Timed platform (some (file_sink empty_file)) false
      (connects "VDI_Device_1" (pos 1) ∷ opens ∷ processes 3 ∷ closes ∷ [])

abbrev outside : Outside
outside = record {
  elapsed_ms = 1500;
  kernel_time = 40;
  user_time = 80;
  rank = λ p n. p * n / 100;
  throughput_text = λ bytes ms. "0.5";
  seconds_text = λ ms. "1.50";
  reuse_rate_text = λ hits acquires. "100.0";
}

read_counts-to_json_example :
    read_counts (to_json outside history.metrics ++ "\n")
    ≡ some (history.metrics.total_bytes, history.metrics.chunk_count)
read_counts-to_json_example =
    read_counts-to_json outside history.metrics "\n" (omega (arith, one_chunk))
      (omega (arith, one_chunk)) (refl, (refl, (refl, refl)))

abbrev decimals : Decimals
decimals = record {
  kb_text = λ n. "0.0";
  seconds_text = λ ms. "1.5";
  cpu_pct_text = λ us ms. "0.1";
  throughput_text = λ bytes ms. "0.5";
  reuse_rate_text = λ hits acquires. "100.0";
}

process_commands-logs_example :
    let c1 = (process_commands platform 3 opened_client).1 in
    read_log (report 1 outside decimals true c1)
    ≡ some (length (file_bytes c1.calls), (totals c1.calls).chunks % u64_mod)
unfolding received_bytes totals new Metrics.new
process_commands-logs_example =
    process_commands-logs platform 3 1 outside decimals true opened_client platform-WritesAll
      platform-SendsWellFormed (λ bytes ms. (refl, (refl, (refl, refl)))) (omega arith) refl
      opened_client-Accepts (refl, refl, refl, refl, refl) refl backup_test.1
      (subst (λ bytes. length bytes < u64_mod) (sym backup_test.2) (omega arith))
