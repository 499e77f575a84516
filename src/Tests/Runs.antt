-- ===== src/Tests/Runs.antt =====
-- Whole runs of main on the inputs of Tests.
use vdi_cpp_wrapper.Prelude.{◌≡◌, ◌⊎◌, ◌≤◌, refl, [], ◌∷◌, some, arith}
use vdi_cpp_wrapper.Protocol.{vdc_write, Command, vd_e_close}
use vdi_cpp_wrapper.Sink.{file_sink}
use vdi_cpp_wrapper.Sink.Bytes.{file_bytes}
use vdi_cpp_wrapper.Faults.{stub}
use vdi_cpp_wrapper.Client.{VdiClient, new}
use vdi_cpp_wrapper.Client.Lifecycle.{destroy}
use vdi_cpp_wrapper.Client.Loop.{
  Outcome, returned, crashed, out_of_fuel, process_commands, run_loop, open_all, dev_count,
}
use vdi_cpp_wrapper.Client.Backup.{received_bytes}
use vdi_cpp_wrapper.Client.Termination.{polls}
use vdi_cpp_wrapper.Client
use vdi_cpp_wrapper.Client.Loop
use vdi_cpp_wrapper.Client.Chunk
use vdi_cpp_wrapper.Client.Lifecycle
use vdi_cpp_wrapper.Metrics
use vdi_cpp_wrapper.Protocol
use vdi_cpp_wrapper.BufferPool
use vdi_cpp_wrapper.Faults
use vdi_cpp_wrapper.Sink
use vdi_cpp_wrapper.Sink.Files
use vdi_cpp_wrapper.Com
use vdi_cpp_wrapper.Main
use vdi_cpp_wrapper.Main.{main, parse_args}
use vdi_cpp_wrapper.Sink.Handles
use vdi_cpp_wrapper.Main.Handles.{main-frees}
use vdi_cpp_wrapper.Main.Loss.{main-hides_loss}
use vdi_cpp_wrapper.Main.Exit.{main-exits}
use vdi_cpp_wrapper.Main.Backup.{main-backup}
use vdi_cpp_wrapper.Main.Start.{Starts}
use vdi_cpp_wrapper.Client.Objects.{absent, Uses}
use vdi_cpp_wrapper.Main.Usage.{main-Uses}
use vdi_cpp_wrapper.Tests.{platform, full_disk}
use vdi_cpp_wrapper.Tests.Sessions.{
  platform-WritesAll, platform-SendsWellFormed, platform-EndsAfter, platform-Cooperates,
}

-- A whole run, up to its exit code.
main_test : (main platform 3 stub 42 ("--sink" ∷ "file" ∷ [])).0 ≡ some 0
unfolding main Lifecycle.connect Lifecycle.open_devices Lifecycle.client_config Files.new Com.new
    Com.destroy Main.make_sink Main.parse_args Main.run_client Main.transfer destroy
    process_commands polls new run_loop Loop.poll_devices Chunk.poll_device
    Protocol.dispatch_command Protocol.validate_write_command BufferPool.acquire BufferPool.new
    Sink.is_open Sink.Files.is_open Sink.write Sink.Files.write Sink.Files.write_small
    Faults.on_chunk_completed Lifecycle.flush_sink Lifecycle.close Sink.flush Sink.Files.flush
    BufferPool.release Chunk.account_chunk Chunk.call_complete_command Chunk.call_get_command
    Chunk.complete_stage Chunk.execute Chunk.on_get_command_error Chunk.on_reply Chunk.receive
    Chunk.record_completion Chunk.run_command Chunk.sink_stage Chunk.store_chunk Chunk.timing_of
    Chunk.use_buffer Chunk.write_chunk Lifecycle.release_device_set dev_count Loop.finish open_all
    Loop.release_all Loop.serve Loop.start_session Client.now_us Metrics.add_bytes Metrics.new
    Metrics.record_buffer_acquire Metrics.record_buffer_release Metrics.record_chunk_size
    Metrics.record_chunk_timing Metrics.update_max Metrics.update_min Sink.Files.copy_at
    Sink.Files.flush_buffer
main_test = refl

main-Uses_example : Uses (main platform 3 stub 42 ("--sink" ∷ "file" ∷ [])).1.calls absent []
main-Uses_example = main-Uses platform 3 stub 42 ("--sink" ∷ "file" ∷ []) (λ e. cc (e, main_test))

platform-Starts : Starts platform
platform-Starts = record {
  com_starts = λ t. refl;
  instance_made = λ t. refl;
  created = λ t config. refl;
  configured = λ t timeout. refl;
  path = λ t. refl;
  file = λ t. refl;
  memory = λ t. refl;
}

main-exits_example :
    ((main platform 2 stub 42 ("--auto" ∷ [])).0 ≡ some 0)
    ⊎ ((main platform 2 stub 42 ("--auto" ∷ [])).0 ≡ some 1)
main-exits_example =
    main-exits platform 1 2 stub 42 ("--auto" ∷ []) platform-EndsAfter (omega arith)

main-backup_example :
    let (code, c) = main platform 2 stub 42 ("--sink" ∷ "file" ∷ []) in
    (code ≡ some 0) × (file_bytes c.calls ≡ received_bytes c.calls)
unfolding parse_args
main-backup_example =
    main-backup platform 1 2 42 ("--sink" ∷ "file" ∷ []) platform-WritesAll platform-SendsWellFormed
      platform-Cooperates platform-EndsAfter (omega arith) platform-Starts refl

main-frees_example :
    let t = (main platform 3 stub 42 ("--sink" ∷ "file" ∷ [])).1.calls in
    (Handles.closed_files t ≡ Handles.opened_files t)
    × (Handles.freed_buffers t ≡ Handles.allocated_buffers t)
    × (Handles.opened_files t ≤ 1)
    × (Handles.allocated_buffers t ≤ 1)
    × (Handles.misuses t ≡ 0)
main-frees_example = main-frees platform 3 stub 42 ("--sink" ∷ "file" ∷ []) (λ e. cc (e, main_test))

full_disk-Starts : Starts full_disk
full_disk-Starts = record {
  com_starts = λ t. refl;
  instance_made = λ t. refl;
  created = λ t config. refl;
  configured = λ t timeout. refl;
  path = λ t. refl;
  file = λ t. refl;
  memory = λ t. refl;
}

main-hides_loss_example :
    let (code, c) = main full_disk 2 stub 42 ("--sink" ∷ "file" ∷ []) in
    (code ≡ some 0) × (file_bytes c.calls ≡ [])
unfolding parse_args
main-hides_loss_example =
    main-hides_loss full_disk 1 2 42 ("--sink" ∷ "file" ∷ []) (λ t bytes. refl)
      (λ t device timeout h. ground arith) (omega arith) full_disk-Starts refl
