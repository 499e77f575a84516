-- ===== src/Tests/Endings.antt =====
-- How the command loop ends, on the platform of Tests and two others: at the end that the server
-- reports, at VDC_Close, and at a VDC_Write without a sink.
use vdi_cpp_wrapper.Prelude.{◌≡◌, ◌≢◌, ◌↔◌, refl, [], ◌∷◌, none, some, false, pos}
use vdi_cpp_wrapper.World.{Platform}
use vdi_cpp_wrapper.Protocol.{Command, vdc_close}
use vdi_cpp_wrapper.Sink.{file_sink}
use vdi_cpp_wrapper.Faults.{stub}
use vdi_cpp_wrapper.Errors.State.{streaming}
use vdi_cpp_wrapper.Client.{VdiClient, new}
use vdi_cpp_wrapper.Client.Loop.{
  Outcome, returned, crashed, process_commands, open_all, dev_count, run_loop,
}
use vdi_cpp_wrapper.Client.Session.{connects, opens, processes, run}
use vdi_cpp_wrapper.Client.Session.Invariant.{new-Inv, run-Inv}
use vdi_cpp_wrapper.Client.Session.Transitions.{Allows, step-Allows}
use vdi_cpp_wrapper.Client.Safety.Writes.{valid_writes}
use vdi_cpp_wrapper.Client.Safety.Crash.{process_commands_crashes}
use vdi_cpp_wrapper.Client
use vdi_cpp_wrapper.Client.Loop
use vdi_cpp_wrapper.Client.Chunk
use vdi_cpp_wrapper.Client.Lifecycle
use vdi_cpp_wrapper.Client.Termination.{polls}
use vdi_cpp_wrapper.Metrics
use vdi_cpp_wrapper.Protocol
use vdi_cpp_wrapper.BufferPool
use vdi_cpp_wrapper.Faults
use vdi_cpp_wrapper.Tests.{chunk, platform, empty_file, opened_client}

abbrev history : VdiClient
history =
    run platform (new (some (file_sink empty_file)) false stub [])
      (connects "VDI_Device_1" (pos 1) ∷ opens ∷ [])

step-Allows_example : Allows platform history (processes 3)
step-Allows_example = step-Allows platform history (processes 3) (
    run-Inv platform (new (some (file_sink empty_file)) false stub [])
      (connects "VDI_Device_1" (pos 1) ∷ opens ∷ [])
      (new-Inv (some (file_sink empty_file)) false stub))

-- A server that sends nothing but VDC_Close.
abbrev closing : Platform
closing = record platform {
  on_get_command = λ t device timeout. (0, some (record chunk { command_code = vdc_close }));
}

close_test :
    let (outcome, c) = process_commands closing 3 opened_client in
    (outcome ≡ returned) × (c.state ≡ streaming)
unfolding process_commands polls new run_loop Loop.poll_devices Chunk.poll_device
    Protocol.dispatch_command Protocol.validate_write_command BufferPool.acquire BufferPool.new
    Faults.on_chunk_completed BufferPool.release Chunk.account_chunk Chunk.call_complete_command
    Chunk.call_get_command Chunk.complete_stage Chunk.execute Chunk.on_get_command_error
    Chunk.on_reply Chunk.receive Chunk.record_completion Chunk.run_command Chunk.sink_stage
    Chunk.store_chunk Chunk.timing_of Chunk.use_buffer Chunk.write_chunk
    Lifecycle.release_device_set dev_count Loop.finish open_all Loop.release_all Loop.serve
    Loop.start_session Client.now_us Metrics.add_bytes Metrics.new Metrics.record_buffer_acquire
    Metrics.record_buffer_release Metrics.record_chunk_size Metrics.record_chunk_timing
    Metrics.update_max Metrics.update_min
close_test = (refl, refl)

abbrev sinkless : VdiClient
sinkless = record opened_client { sink = none }

crash_test : (process_commands platform 3 sinkless).0 ≡ crashed
unfolding process_commands polls new run_loop Loop.poll_devices Chunk.poll_device
    Protocol.dispatch_command Protocol.validate_write_command BufferPool.acquire BufferPool.new
    Faults.on_chunk_completed BufferPool.release Chunk.account_chunk Chunk.call_complete_command
    Chunk.call_get_command Chunk.complete_stage Chunk.execute Chunk.on_get_command_error
    Chunk.on_reply Chunk.receive Chunk.record_completion Chunk.run_command Chunk.sink_stage
    Chunk.store_chunk Chunk.timing_of Chunk.use_buffer Chunk.write_chunk
    Lifecycle.release_device_set dev_count Loop.finish open_all Loop.release_all Loop.serve
    Loop.start_session Client.now_us Metrics.add_bytes Metrics.new Metrics.record_buffer_acquire
    Metrics.record_buffer_release Metrics.record_chunk_size Metrics.record_chunk_timing
    Metrics.update_max Metrics.update_min
crash_test = refl

process_commands_crashes_example :
    let (outcome, d) = process_commands platform 3 sinkless in
    (outcome ≡ crashed)
    ↔ ((sinkless.sink ≡ none) × (valid_writes d.calls ≢ valid_writes sinkless.calls))
process_commands_crashes_example = process_commands_crashes platform 3 sinkless
