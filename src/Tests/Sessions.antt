-- ===== src/Tests/Sessions.antt =====
-- Sessions on the inputs of Tests.
use vdi_cpp_wrapper.Prelude.{
  ℕ, ◌≡◌, ◌≢◌, subst, Bool-cases, inl, inr, ◌==◌, ◌≤◌, refl, [], ◌∷◌, none, some, true, false, pos,
  arith, if◌then◌else◌, length, ◌+◌,
}
use vdi_cpp_wrapper.World.{Trace}
use vdi_cpp_wrapper.Protocol.{vdc_write, Command, vd_e_close}
use vdi_cpp_wrapper.Sink.{file_sink}
use vdi_cpp_wrapper.Sink.Bytes.{WritesAll, file_bytes}
use vdi_cpp_wrapper.Faults.{stub}
use vdi_cpp_wrapper.Errors.State.{closed}
use vdi_cpp_wrapper.Client.{VdiClient, new}
use vdi_cpp_wrapper.Client.Lifecycle.{destroy}
use vdi_cpp_wrapper.Client.Loop.{
  Outcome, returned, crashed, out_of_fuel, process_commands, run_loop, open_all, dev_count,
}
use vdi_cpp_wrapper.Client.Rules.{flow_of}
use vdi_cpp_wrapper.Client.Order.{Ordered, run_loop-Ordered}
use vdi_cpp_wrapper.Client.Backup.{Accepts, IsWellFormed, SendsWellFormed, received_bytes}
use vdi_cpp_wrapper.Client.Backup.Session.{process_commands-backup}
use vdi_cpp_wrapper.Client.Termination.{polls, EndsAfter, process_commands_ends}
use vdi_cpp_wrapper.Client.Stall.{check_stall}
use vdi_cpp_wrapper.Client.Stall.Progress.{warns_by_time, check_stall-run_loop}
use vdi_cpp_wrapper.Client.Devices
use vdi_cpp_wrapper.Client.Devices.{process_commands-Counts}
use vdi_cpp_wrapper.Client.Session.{connects, opens, processes, closes, step, run}
use vdi_cpp_wrapper.Client.Session.Loop.{created, released}
use vdi_cpp_wrapper.Client.Session.Invariant.{new-Inv, destroy-run}
use vdi_cpp_wrapper.Client.Session.Transitions.{run-closed}
use vdi_cpp_wrapper.Client
use vdi_cpp_wrapper.Client.Loop
use vdi_cpp_wrapper.Client.Chunk
use vdi_cpp_wrapper.Client.Lifecycle
use vdi_cpp_wrapper.Metrics
use vdi_cpp_wrapper.Protocol
use vdi_cpp_wrapper.BufferPool
use vdi_cpp_wrapper.Faults
use vdi_cpp_wrapper.Sink
use vdi_cpp_wrapper.Sink.Files
use vdi_cpp_wrapper.Client.Backup.Progress.{Cooperates}
use vdi_cpp_wrapper.Client.Backup.Completion.{process_commands_completes}
use vdi_cpp_wrapper.Tests.{answer, chunk, platform, empty_file, opened_client}

-- The whole backup, evaluated.
pub backup_test :
    let (outcome, c) = process_commands platform 3 opened_client in
    (outcome ≡ returned) × (c.state ≡ closed) × (file_bytes c.calls ≡ 7 ∷ 8 ∷ 9 ∷ [])
unfolding process_commands polls file_bytes new run_loop Loop.poll_devices Chunk.poll_device
    Protocol.dispatch_command Protocol.validate_write_command BufferPool.acquire BufferPool.new
    Sink.is_open Sink.Files.is_open Sink.write Sink.Files.write Sink.Files.write_small
    Faults.on_chunk_completed Lifecycle.flush_sink Lifecycle.close Sink.flush Sink.Files.flush
    BufferPool.release Chunk.account_chunk Chunk.call_complete_command Chunk.call_get_command
    Chunk.complete_stage Chunk.execute Chunk.on_get_command_error Chunk.on_reply Chunk.receive
    Chunk.record_completion Chunk.run_command Chunk.sink_stage Chunk.store_chunk Chunk.timing_of
    Chunk.use_buffer Chunk.write_chunk Lifecycle.release_device_set dev_count Loop.finish open_all
    Loop.release_all Loop.serve Loop.start_session Client.now_us Metrics.add_bytes Metrics.new
    Metrics.record_buffer_acquire Metrics.record_buffer_release Metrics.record_chunk_size
    Metrics.record_chunk_timing Metrics.update_max Metrics.update_min Sink.Files.copy_at
    Sink.Files.flush_buffer
backup_test = (refl, refl, refl)

pub platform-WritesAll : WritesAll platform
platform-WritesAll t bytes = refl

chunk-IsWellFormed : IsWellFormed chunk
chunk-IsWellFormed = ground arith

pub platform-SendsWellFormed : SendsWellFormed platform
platform-SendsWellFormed t device timeout cmd e = ground arith

pub opened_client-Accepts : Accepts opened_client (received_bytes [])
unfolding received_bytes file_bytes
opened_client-Accepts = (empty_file, refl, ground arith, ground arith, refl)

process_commands-backup_example :
    let (outcome, c) = process_commands platform 3 opened_client in
    (outcome ≢ crashed) × (c.state ≡ closed → file_bytes c.calls ≡ received_bytes c.calls)
process_commands-backup_example =
    process_commands-backup platform 3 opened_client platform-WritesAll platform-SendsWellFormed
      refl opened_client-Accepts

run_loop-Ordered_example :
    let (outcome, c) = run_loop platform 3 0 (0 ∷ []) opened_client in Ordered (flow_of outcome) c
run_loop-Ordered_example = run_loop-Ordered platform 3 0 (0 ∷ []) opened_client refl

destroy-run_example :
    let c = destroy platform (
      run platform
        (new (some (file_sink empty_file)) false stub [])
        (connects "VDI_Device_1" (pos 1) ∷ opens ∷ processes 3 ∷ closes ∷ [])) in
    (created c.calls ≤ 1) × (released c.calls ≡ created c.calls) × (c.device_set ≡ false)
destroy-run_example =
    destroy-run platform (some (file_sink empty_file)) false stub
      (connects "VDI_Device_1" (pos 1) ∷ opens ∷ processes 3 ∷ closes ∷ [])

run-closed_example :
    let c = step platform (new none true stub []) closes in
    let d = run platform c (closes ∷ opens ∷ []) in (d.state ≡ closed) × (d.calls ≡ c.calls)
run-closed_example =
    run-closed platform (new none true stub []) (closes ∷ opens ∷ []) (new-Inv none true stub)

pub platform-EndsAfter : EndsAfter 1 platform
platform-EndsAfter t device timeout h = ground arith

process_commands_ends_example : (process_commands platform 2 opened_client).0 ≢ out_of_fuel
process_commands_ends_example =
    process_commands_ends platform 1 2 opened_client platform-EndsAfter (omega arith)

process_commands-Counts_example :
    let (all, devices, c1) = open_all platform (dev_count (pos 1)) 0 [] opened_client in
    let c2 = (process_commands platform 3 opened_client).1 in
    (Devices.opened c2.calls ≡ 0 + length devices)
    × (Devices.released c2.calls ≡ (if all then length devices else 0) + 0)
unfolding Devices.opened Devices.released
process_commands-Counts_example =
    process_commands-Counts platform 0 0 3 opened_client refl refl refl refl backup_test.0

check_stall-run_loop_example :
    let c = (run_loop platform 1 0 (0 ∷ []) opened_client).1 in
    check_stall c 99 ≡ warns_by_time c 99
unfolding run_loop polls new Metrics.new Loop.poll_devices Chunk.poll_device
    Protocol.dispatch_command Protocol.validate_write_command BufferPool.acquire BufferPool.new
    Sink.is_open Files.is_open Sink.write Files.write Files.write_small Faults.on_chunk_completed
check_stall-run_loop_example = check_stall-run_loop platform 1 0 (0 ∷ []) opened_client 99 refl refl

sent_chunk :
    (t : Trace) (device timeout : ℕ) (cmd : Command)
    → (answer t device timeout).1 ≡ some cmd
    → chunk ≡ cmd
sent_chunk t device timeout cmd e = elim (Bool-cases (polls t == 0)) [
  | inl z ↦ ground arith
  | inr z ↦ ground arith
]

chunk_valid : Protocol.validate_write_command (some chunk) ≡ true
unfolding Protocol.validate_write_command
chunk_valid = refl

pub platform-Cooperates : Cooperates platform
platform-Cooperates = record {
  sends = λ t device timeout cmd e.
      subst
        (λ (d : Command).
          (d.command_code ≡ vdc_write) × (Protocol.validate_write_command (some d) ≡ true))
        (sent_chunk t device timeout cmd e) (refl, chunk_valid);
  fails = λ t device timeout e. ground arith;
  completes = λ t device cmd. refl;
  opens = λ t i. refl;
}

process_commands_completes_example :
    let (outcome, c) = process_commands platform 2 opened_client in
    (outcome ≡ returned) × (c.state ≡ closed) × (file_bytes c.calls ≡ received_bytes c.calls)
unfolding new
process_commands_completes_example =
    process_commands_completes platform 1 2 opened_client platform-WritesAll
      platform-SendsWellFormed platform-Cooperates platform-EndsAfter (omega arith) refl refl
      (refl, refl) opened_client-Accepts
