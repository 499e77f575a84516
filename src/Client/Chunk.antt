-- ===== src/Client/Chunk.antt =====
-- src/vdi_client.cpp: the body of the command loop, for one device and one round. Each stage of it
-- is a function, in the order of the code. A `break` of the inner loop, which always comes with
-- `running = false`, is `stop`; the end of the body and `continue` are `next`.
use vdi_cpp_wrapper.Prelude.{
  ℕ, List, [], ◌∷◌, Option, none, some, true, false, not, ltb, ◌==◌, if◌then◌else◌, add64, sub64,
}
use vdi_cpp_wrapper.Protocol.{
  Command, proceed, close_request, failed_result, failed, vd_e_close, vd_e_eof, vd_e_timeout,
  vdc_write, validate_write_command, dispatch_command,
}
use vdi_cpp_wrapper.World.{Platform, get_command, complete_command}
use vdi_cpp_wrapper.Sink
use vdi_cpp_wrapper.Sink.{Sink}
use vdi_cpp_wrapper.Metrics
use vdi_cpp_wrapper.Metrics.{Metrics, ChunkTiming}
use vdi_cpp_wrapper.BufferPool
use vdi_cpp_wrapper.Faults
use vdi_cpp_wrapper.Errors.State.{flushing}
use vdi_cpp_wrapper.Client.{VdiClient, fail, now_us}
use vdi_cpp_wrapper.Client.Lifecycle.{flush_sink}
use vdi_cpp_wrapper.Client.Stall.{check_stall}

-- How a part of the body ends. `crash` is the dereference of a null sink, which the code does not
-- guard against in the write stage.
pub data Flow : Type 0 where
  next stop crash : Flow

-- The branches on a failed GetCommand, at the reading `gc_end` of the clock.
unfoldable pub on_get_command_error : Platform → ℕ → ℕ → VdiClient → Flow × VdiClient
on_get_command_error P hr gc_end c =
    if hr == vd_e_close
    then (stop, flush_sink P (record c { state = flushing }))
    else if hr == vd_e_eof
    then (stop, flush_sink P (record c { state = flushing }))
    else if hr == vd_e_timeout
    then (next, check_stall c gc_end)
    else (stop, fail c)

-- The buffer that is taken from the pool and given back at once, with the high-water mark.
unfoldable pub use_buffer : Option ℕ → VdiClient → VdiClient
use_buffer none c = record c { metrics = Metrics.record_buffer_acquire c.metrics false }
use_buffer (some pool_buf) c =
    let cur = add64 c.active_buffers 1 in
    record c {
      metrics = Metrics.record_buffer_release (Metrics.record_buffer_acquire c.metrics true);
      buffer_pool = BufferPool.release c.buffer_pool pool_buf;
      max_active_buffers = if ltb c.max_active_buffers cur then cur else c.max_active_buffers;
      active_buffers = sub64 cur 1;
    }

-- The accounting of a VDC_Write, before anything of it is validated.
unfoldable pub account_chunk : Platform → ℕ → VdiClient → VdiClient
unfolding use_buffer
account_chunk P size c =
    let m =
      Metrics.add_bytes
        (Metrics.record_chunk_size c.metrics (P.on_spurious_failures c.calls 0)
          (P.on_spurious_failures c.calls 1) size)
        size in
    let (pool_buf, pool) = BufferPool.acquire c.buffer_pool in
    use_buffer pool_buf (record c { metrics = m; buffer_pool = pool })

-- The bytes that the sink can read behind `cmd->buffer`.
abbrev pub readable : Option (List ℕ) → List ℕ
readable none = []
readable (some bytes) = bytes

-- The write to an open sink, between two readings of the clock; the middle result is `sink_us`.
unfoldable pub write_chunk : Platform → Command → Sink → VdiClient → Flow × ℕ × VdiClient
unfolding now_us
write_chunk P cmd k c =
    let (sink_start, c1) = now_us P c in
    let (write_ok, k', t) = Sink.write P k c1.calls (readable cmd.buffer) cmd.size in
    let c2 = record c1 { sink = some k'; calls = t } in
    let (sink_end, c3) = now_us P c2 in
    if not write_ok
    then (stop, 0, fail c2)
    else (next, sub64 sink_end sink_start, record c3 { last_bytes_total = c3.metrics.total_bytes })

-- Stage 3, after the accounting: the validation, the test of the sink, and the write.
unfoldable pub store_chunk : Platform → Command → VdiClient → Flow × ℕ × VdiClient
unfolding write_chunk
store_chunk P cmd c =
    if not (validate_write_command (some cmd)) then (stop, 0, fail c) else elim c.sink [
      | none ↦ (crash, 0, c)
      | some k ↦ if not (Sink.is_open k) then (stop, 0, fail c) else write_chunk P cmd k c
    ]

-- Stage 3: only VDC_Write stores anything.
unfoldable pub sink_stage : Platform → Command → ℕ → VdiClient → Flow × ℕ × VdiClient
unfolding account_chunk store_chunk
sink_stage P cmd cmd_code c =
    if cmd_code == vdc_write then store_chunk P cmd (account_chunk P cmd.size c) else (next, 0, c)

-- The times that the stages have measured so far.
pub record Times : Type 0 where
  pub session_start_us : ℕ
  pub gc_start : ℕ
  pub gc_us : ℕ
  pub dispatch_us : ℕ
  pub sink_us : ℕ

-- The ChunkTiming of a completed command.
unfoldable pub timing_of : Times → ℕ → ℕ → ChunkTiming
timing_of s size cc_us = record {
  size = size;
  getcommand_us = s.gc_us;
  dispatch_us = s.dispatch_us;
  sink_us = s.sink_us;
  complete_us = cc_us;
  total_us = add64 (add64 (add64 s.gc_us s.dispatch_us) s.sink_us) cc_us;
  timestamp_us = sub64 s.gc_start s.session_start_us;
}

-- The fault injection hook and the recording of the times.
unfoldable pub record_completion : Command → Times → ℕ → VdiClient → Flow × VdiClient
unfolding timing_of
record_completion cmd s cc_us c =
    let (triggered, injector) = Faults.on_chunk_completed c.fault_injector in
    let c1 = record c { fault_injector = injector } in
    if triggered then (stop, fail c1) else (
      next,
      record c1 { metrics = Metrics.record_chunk_timing c1.metrics (timing_of s cmd.size cc_us) },
    )

-- ERROR_SUCCESS of the Windows headers
abbrev pub error_success : ℕ
error_success = 0

-- device->CompleteCommand(cmd, ERROR_SUCCESS, cmd->size, cmd->position)
unfoldable pub call_complete_command : Platform → ℕ → Command → VdiClient → ℕ × VdiClient
call_complete_command P device cmd c =
    let hr = P.on_complete_command c.calls device cmd in
    (
      hr,
      record c {
        calls = complete_command device cmd error_success cmd.size cmd.position hr ∷ c.calls;
      },
    )

-- Stage 4, and what follows it.
unfoldable pub complete_stage : Platform → ℕ → Command → Times → VdiClient → Flow × VdiClient
unfolding call_complete_command record_completion now_us
complete_stage P device cmd s c =
    let (cc_start, c1) = now_us P c in
    let (hr, c2) = call_complete_command P device cmd c1 in
    let (cc_end, c3) = now_us P c2 in
    if failed hr then (stop, fail c3) else record_completion cmd s (sub64 cc_end cc_start) c3

-- Stages 3 and 4 of a command that is to be executed. `if (!running) break` repeats the breaks of
-- stage 3.
unfoldable pub execute : Platform → ℕ → Command → ℕ → Times → VdiClient → Flow × VdiClient
unfolding sink_stage complete_stage
execute P device cmd cmd_code s c =
    let (flow, sink_us, c1) = sink_stage P cmd cmd_code c in
    elim flow [
      | next ↦ complete_stage P device cmd (record s { sink_us = sink_us }) c1
      | stop ↦ (stop, c1)
      | crash ↦ (crash, c1)
    ]

-- Stages 2 to 4 for a command that GetCommand has delivered.
unfoldable pub run_command : Platform → ℕ → Command → Times → VdiClient → Flow × VdiClient
unfolding execute now_us
run_command P device cmd s c =
    let (dispatch_start, c1) = now_us P c in
    let (cmd_code, dispatch_result) = dispatch_command (some cmd) in
    let (dispatch_end, c2) = now_us P c1 in
    let s1 = record s { dispatch_us = sub64 dispatch_end dispatch_start } in
    elim dispatch_result [
      | failed_result ↦ (stop, fail c2)
      | close_request ↦ (stop, c2)
      | proceed ↦ execute P device cmd cmd_code s1 c2
    ]

-- device->GetCommand(command_timeout_ms_, &cmd)
unfoldable pub call_get_command : Platform → ℕ → VdiClient → ℕ × Option Command × VdiClient
call_get_command P device c =
    let (hr, cmd) = P.on_get_command c.calls device c.command_timeout_ms in
    (hr, cmd, record c { calls = get_command device c.command_timeout_ms hr cmd ∷ c.calls })

-- What stage 1 leaves: the two readings of the clock, the HRESULT and the command.
pub record Reply : Type 0 where
  pub gc_start : ℕ
  pub gc_end : ℕ
  pub hr : ℕ
  pub cmd : Option Command

-- Stage 1.
unfoldable pub receive : Platform → ℕ → VdiClient → Reply × VdiClient
unfolding call_get_command now_us
receive P device c =
    let (gc_start, c1) = now_us P c in
    let (hr, cmd, c2) = call_get_command P device c1 in
    let (gc_end, c3) = now_us P c2 in
    (
      record { gc_start = gc_start; gc_end = gc_end; hr = hr; cmd = cmd },
      record c3 { last_command_us = gc_end },
    )

-- What follows GetCommand: the error branches, the null command, or the command's stages.
unfoldable pub on_reply : Platform → ℕ → Reply → Times → VdiClient → Flow × VdiClient
unfolding on_get_command_error run_command
on_reply P device r s c =
    if failed r.hr
    then on_get_command_error P r.hr r.gc_end c
    else elim r.cmd [ none ↦ (next, c) | some cmd ↦ run_command P device cmd s c ]

-- The times of a round whose GetCommand has returned.
abbrev pub first_times : ℕ → Reply → Times
first_times session_start_us r = record {
  session_start_us = session_start_us;
  gc_start = r.gc_start;
  gc_us = sub64 r.gc_end r.gc_start;
  dispatch_us = 0;
  sink_us = 0;
}

-- The whole body, for one device.
unfoldable pub poll_device : Platform → ℕ → ℕ → VdiClient → Flow × VdiClient
unfolding receive on_reply
poll_device P session_start_us device c =
    let (r, c1) = receive P device c in on_reply P device r (first_times session_start_us r) c1
