-- ===== src/Client/Handles.antt =====
-- The file and the buffer behind the sink of a session, over any history of method calls.
use Prim.Native.String.{String}
use vdi_cpp_wrapper.Prelude.{
  ℕ, ℤ, ◌≡◌, subst, ltb, sub64, ◌*◌, Option, none, some, arith, ◌==◌, if_elim, not, ◌||◌,
}
use vdi_cpp_wrapper.Protocol.{
  Command, vd_e_close, vd_e_eof, vd_e_timeout, vdc_write, validate_write_command,
}
use vdi_cpp_wrapper.World.{Platform, Trace}
use vdi_cpp_wrapper.Sink
use vdi_cpp_wrapper.Sink.{Sink, null_sink}
use vdi_cpp_wrapper.Sink.Handles.{
  misuses, Owns, write-Owns, flush-Owns, opened_files, closed_files, allocated_buffers,
  freed_buffers,
}
use vdi_cpp_wrapper.Errors.State.{flushing, is_streaming, is_flushing}
use vdi_cpp_wrapper.Com
use vdi_cpp_wrapper.Client.{VdiClient, stall_warn_ms, now_us, set_command_timeout}
use vdi_cpp_wrapper.Client.Lifecycle.{connect, open_devices, close, flush_sink, release_device_set}
use vdi_cpp_wrapper.Client.Stall.{check_stall}
use vdi_cpp_wrapper.Client.Chunk.{
  Flow, stop, crash, Times, readable, receive, on_get_command_error, use_buffer, account_chunk,
  write_chunk, store_chunk, sink_stage, call_complete_command, record_completion,
}
use vdi_cpp_wrapper.Client.Loop.{start_session}
use vdi_cpp_wrapper.Client.Rules.{AfterStore-all, Stages, option_elim, run_loop_rule}
use vdi_cpp_wrapper.Client.Session.Rules.{KeepsMethods}

abbrev sink_of : Option Sink → Sink
sink_of none = null_sink
sink_of (some k) = k

abbrev pub HoldsWith : Option Sink → Trace → Type 0
HoldsWith o t = Owns (sink_of o) t

-- What the history opened and allocated is given back, or the session's sink holds it.
abbrev pub Holds : VdiClient → Type 0
Holds c = HoldsWith c.sink c.calls

pub Owns-of_sink : (c : VdiClient) (k : Sink) → c.sink ≡ some k → Holds c → Owns k c.calls
Owns-of_sink c k e h = subst (λ (o : Option Sink). HoldsWith o c.calls) e h

flush_sink-Holds : (P : Platform) (c : VdiClient) → Holds c → Holds (flush_sink P c)
unfolding flush_sink
flush_sink-Holds P c h =
    option_elim Holds c.sink (λ e. h) (λ k e. flush-Owns P k c.calls (Owns-of_sink c k e h))

-- Calls on devices and on the device set, and those of the clock, concern no file.
same_sink : (c d : VdiClient) → d.sink ≡ c.sink → d.calls ≡ c.calls → Holds c → Holds d
same_sink c d e f h = rw (e, f) h

check_stall-Holds : (c : VdiClient) (now : ℕ) → Holds c → Holds (check_stall c now)
unfolding misuses check_stall opened_files closed_files allocated_buffers freed_buffers
check_stall-Holds c now h =
    if_elim Holds (c.last_stall_warn_us == 0) (λ _. h)
      (λ _.
        if_elim Holds (ltb (sub64 now c.last_stall_warn_us) (stall_warn_ms * 1000)) (λ _. h)
          (λ _. if_elim Holds (c.metrics.total_bytes == c.last_bytes_total) (λ _. h) (λ _. h)))

abbrev HoldsAfter : Flow × VdiClient → Type 0
HoldsAfter q = Holds q.1

on_get_command_error-Holds :
    (P : Platform) (hr now : ℕ) (c : VdiClient)
    → Holds c
    → Holds (on_get_command_error P hr now c).1
unfolding on_get_command_error
on_get_command_error-Holds P hr now c h =
    let flushed = flush_sink-Holds P (record c { state = flushing }) h in
    if_elim HoldsAfter (hr == vd_e_close) (λ _. flushed)
      (λ _.
        if_elim HoldsAfter (hr == vd_e_eof) (λ _. flushed)
          (λ _. if_elim HoldsAfter (hr == vd_e_timeout) (λ _. check_stall-Holds c now h) (λ _. h)))

account_chunk-parts :
    (P : Platform) (size : ℕ) (c : VdiClient)
    → let d = account_chunk P size c in (d.sink ≡ c.sink) × (d.calls ≡ c.calls)
unfolding account_chunk use_buffer
account_chunk-parts P size c = ground arith

abbrev HoldsStored : Flow × ℕ × VdiClient → Type 0
HoldsStored q = Holds q.2

write_chunk-Holds :
    (P : Platform) (cmd : Command) (k : Sink) (c : VdiClient)
    → Owns k c.calls
    → HoldsStored (write_chunk P cmd k c)
unfolding misuses write_chunk opened_files closed_files allocated_buffers freed_buffers
write_chunk-Holds P cmd k c h =
    let t = (now_us P c).1.calls in
    let (write_ok, k1, t1) = Sink.write P k t (readable cmd.buffer) cmd.size in
    let written = write-Owns P k t (readable cmd.buffer) cmd.size h in
    if_elim HoldsStored (not write_ok) (λ _. written) (λ _. written)

store_chunk-Holds :
    (P : Platform) (cmd : Command) (c : VdiClient) → Holds c → HoldsStored (store_chunk P cmd c)
unfolding store_chunk
store_chunk-Holds P cmd c h =
    if_elim HoldsStored (not (validate_write_command (some cmd))) (λ _. h)
      (λ _.
        option_elim HoldsStored c.sink (λ _. h)
          (λ k e.
            if_elim HoldsStored (not (Sink.is_open k)) (λ _. h)
              (λ _. write_chunk-Holds P cmd k c (Owns-of_sink c k e h))))

sink_stage-Holds :
    (P : Platform) (cmd : Command) (c : VdiClient)
    → Holds c
    → HoldsStored (sink_stage P cmd cmd.command_code c)
unfolding sink_stage
sink_stage-Holds P cmd c h =
    let c1 = account_chunk P cmd.size c in
    let (k, t) = account_chunk-parts P cmd.size c in
    if_elim HoldsStored (cmd.command_code == vdc_write)
      (λ _. store_chunk-Holds P cmd c1 (same_sink c c1 k t h)) (λ _. h)

record_completion-parts :
    (cmd : Command) (s : Times) (cc_us : ℕ) (c : VdiClient)
    → let d = (record_completion cmd s cc_us c).1 in (d.sink ≡ c.sink) × (d.calls ≡ c.calls)
unfolding record_completion
record_completion-parts cmd s cc_us c = ground arith

abbrev HoldsFlow : Flow → VdiClient → Type 0
HoldsFlow flow c = Holds c

abbrev HoldsAt : ℕ → Command → VdiClient → Type 0
HoldsAt device cmd c = Holds c

Holds-Stages : (P : Platform) → Stages P HoldsFlow HoldsAt HoldsAt (λ hr. HoldsAt)
unfolding misuses now_us call_complete_command receive opened_files closed_files allocated_buffers
    freed_buffers
Holds-Stages P = record {
  tick_held = λ device cmd c h. h;
  tick_stored = λ device cmd c h. h;
  tick_done = λ hr device cmd c h. h;
  on_error = λ device c h e.
      let (r, c1) = receive P device c in on_get_command_error-Holds P r.hr r.gc_end c1 h;
  on_null = λ device c h e f. h;
  on_command = λ device c h cmd e f. h;
  on_refused = λ device cmd c h e. h;
  on_close = λ device cmd c h e. h;
  on_store = λ device cmd c h.
      let s = sink_stage-Holds P cmd c h in
      AfterStore-all (HoldsFlow stop) (HoldsFlow crash) (HoldsAt device cmd)
        (sink_stage P cmd cmd.command_code c) s s s;
  on_complete = λ device cmd c h. h;
  on_incomplete = λ device cmd b c e h. h;
  on_done = λ hr device cmd c s cc_us e h.
      let (k, t) = record_completion-parts cmd s cc_us c in
      same_sink c (record_completion cmd s cc_us c).1 k t h;
}

release_device_set-Holds : (c : VdiClient) → Holds c → Holds (release_device_set c)
unfolding misuses release_device_set opened_files closed_files allocated_buffers freed_buffers
release_device_set-Holds c h = if_elim Holds c.device_set (λ _. h) (λ _. h)

pub close-Holds : (P : Platform) (c : VdiClient) → Holds c → Holds (close P c)
unfolding close
close-Holds P c h =
    if_elim Holds c.devices_closed (λ _. h)
      (λ _. release_device_set-Holds _ (
        if_elim Holds (is_streaming c.state || is_flushing c.state) (λ _. flush_sink-Holds P c h)
          (λ _. h)))

connect-Holds :
    (P : Platform) (c : VdiClient) (name : String) (n : ℤ) → Holds c → Holds (connect P c name n).1
unfolding misuses connect Com.new Com.destroy opened_files closed_files allocated_buffers
    freed_buffers
connect-Holds P c name n h = ground arith

open_devices-Holds : (P : Platform) (c : VdiClient) → Holds c → Holds (open_devices P c).1
unfolding misuses open_devices opened_files closed_files allocated_buffers freed_buffers
open_devices-Holds P c h = ground arith

pub Holds-KeepsMethods : (P : Platform) → KeepsMethods P Holds
unfolding misuses start_session set_command_timeout opened_files closed_files allocated_buffers
    freed_buffers
Holds-KeepsMethods P = record {
  loop = record {
    on_open = λ c i hr h. h;
    on_fail = λ c h. h;
    on_start = λ c h. h;
    on_loop = λ fuel start devices c h.
        run_loop_rule P HoldsFlow HoldsAt HoldsAt (λ hr. HoldsAt) (Holds-Stages P) fuel start
          devices c h;
    on_release = λ c device h. h;
    on_close = λ c h. close-Holds P c h;
  };
  on_connect = λ c name n h. connect-Holds P c name n h;
  on_open_devices = λ c h. open_devices-Holds P c h;
  on_set_timeout = λ c timeout_ms h. h;
}
