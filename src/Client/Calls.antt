-- ===== src/Client/Calls.antt =====
-- Parts of the command loop that make no call on a device or on the device set: they read the
-- clock, write and flush the sink, and warn. A property of the history that these four calls keep
-- is kept by each such part.
pub mod Loop
use vdi_cpp_wrapper.Prelude.{
  ℕ, ◌≡◌, sym, subst, List, ◌∷◌, some, Bool, arith, ◌==◌, not, if_elim, sub64,
}
use vdi_cpp_wrapper.Protocol.{Command, failed, vdc_write, validate_write_command, dispatch_command}
use vdi_cpp_wrapper.World.{
  Trace, Platform, read_clock, write_file, flush_file, stall_warning, complete_command,
}
use vdi_cpp_wrapper.Sink
use vdi_cpp_wrapper.Sink.{Sink}
use vdi_cpp_wrapper.Sink.Calls.{write_rule, flush_rule}
use vdi_cpp_wrapper.Errors.State.{flushing}
use vdi_cpp_wrapper.Client.{VdiClient, now_us}
use vdi_cpp_wrapper.Client.Lifecycle.{flush_sink}
use vdi_cpp_wrapper.Client.Stall.{check_stall}
use vdi_cpp_wrapper.Client.Chunk.{
  Flow, Times, Reply, readable, error_success, on_get_command_error, account_chunk, write_chunk,
  store_chunk, sink_stage, record_completion, call_complete_command, complete_stage, execute,
  run_command, on_reply,
}
use vdi_cpp_wrapper.Client.Rules.{elim_flow, dispatch_elim, option_elim}

-- The parts that write and flush make no warning.
pub record IsSteady (P : Platform) (Q : Trace → Type 0) : Type 0 where
  pub on_clock : (t : Trace) → Q t → Q (read_clock (P.on_now_us t) ∷ t)
  pub on_write :
      (t : Trace) (bytes : List ℕ)
      → Q t
      → let (done, n) = P.on_write_file t bytes in Q (write_file bytes done n ∷ t)
  pub on_flush : (t : Trace) → Q t → Q (flush_file ∷ t)

module _ (P : Platform) (Q : Trace → Type 0) (L : IsSteady P Q) where
  pub flush_steadily : (c : VdiClient) → Q c.calls → Q (flush_sink P c).calls
  unfolding flush_sink
  flush_steadily c h =
      option_elim (λ (d : VdiClient). Q d.calls) c.sink (λ _. h)
        (λ k e. flush_rule P Q L.on_write L.on_flush k c.calls h)

  account_chunk_steadily : (size : ℕ) (c : VdiClient) → Q c.calls → Q (account_chunk P size c).calls
  unfolding account_chunk
  account_chunk_steadily size c h = ground arith

  write_chunk_steadily :
      (cmd : Command) (k : Sink) (c : VdiClient) → Q c.calls → Q (write_chunk P cmd k c).2.calls
  unfolding write_chunk
  write_chunk_steadily cmd k c h =
      let t0 = (now_us P c).1.calls in
      let t1 = (Sink.write P k t0 (readable cmd.buffer) cmd.size).2 in
      let h1 : Q t1 =
        write_rule P Q L.on_write L.on_flush k t0 (readable cmd.buffer) cmd.size
          (L.on_clock c.calls h) in
      if_elim (λ (q : Flow × ℕ × VdiClient). Q q.2.calls)
        (not (Sink.write P k t0 (readable cmd.buffer) cmd.size).0) (λ _. h1) (λ _. L.on_clock t1 h1)

  store_chunk_steadily :
      (cmd : Command) (c : VdiClient) → Q c.calls → Q (store_chunk P cmd c).2.calls
  unfolding store_chunk
  store_chunk_steadily cmd c h =
      if_elim (λ (q : Flow × ℕ × VdiClient). Q q.2.calls) (not (validate_write_command (some cmd)))
        (λ _. h)
        (λ _.
          option_elim (λ (q : Flow × ℕ × VdiClient). Q q.2.calls) c.sink (λ _. h)
            (λ k e.
              if_elim (λ (q : Flow × ℕ × VdiClient). Q q.2.calls) (not (Sink.is_open k)) (λ _. h)
                (λ _. write_chunk_steadily cmd k c h)))

  pub sink_stage_steadily :
      (cmd : Command) (code : ℕ) (c : VdiClient) → Q c.calls → Q (sink_stage P cmd code c).2.calls
  unfolding sink_stage
  sink_stage_steadily cmd code c h =
      if_elim (λ (q : Flow × ℕ × VdiClient). Q q.2.calls) (code == vdc_write)
        (λ _. store_chunk_steadily cmd _ (account_chunk_steadily cmd.size c h)) (λ _. h)

pub record IsQuiet (P : Platform) (Q : Trace → Type 0) : Type 0 where
  pub on_clock : (t : Trace) → Q t → Q (read_clock (P.on_now_us t) ∷ t)
  pub on_write :
      (t : Trace) (bytes : List ℕ)
      → Q t
      → let (done, n) = P.on_write_file t bytes in Q (write_file bytes done n ∷ t)
  pub on_flush : (t : Trace) → Q t → Q (flush_file ∷ t)
  pub on_warning : (t : Trace) (n : ℕ) → Q t → Q (stall_warning n ∷ t)

steady : (P : Platform) (Q : Trace → Type 0) → IsQuiet P Q → IsSteady P Q
steady P Q L = record { on_clock = L.on_clock; on_write = L.on_write; on_flush = L.on_flush }

module _ (P : Platform) (Q : Trace → Type 0) (L : IsQuiet P Q) where
  pub flush_sink_rule : (c : VdiClient) → Q c.calls → Q (flush_sink P c).calls
  flush_sink_rule c h = flush_steadily P Q (steady P Q L) c h

  check_stall_rule : (c : VdiClient) (now : ℕ) → Q c.calls → Q (check_stall c now).calls
  unfolding check_stall
  check_stall_rule c now h = ground (arith, L.on_warning c.calls c.metrics.total_bytes)

  pub on_get_command_error_rule :
      (hr now : ℕ) (c : VdiClient) → Q c.calls → Q (on_get_command_error P hr now c).1.calls
  unfolding on_get_command_error
  on_get_command_error_rule hr now c h =
      ground (arith, flush_sink_rule (record c { state = flushing }) h, check_stall_rule c now h)

  pub sink_stage_rule :
      (cmd : Command) (code : ℕ) (c : VdiClient) → Q c.calls → Q (sink_stage P cmd code c).2.calls
  sink_stage_rule cmd code c h = sink_stage_steadily P Q (steady P Q L) cmd code c h

pub calls-record_completion :
    (cmd : Command) (s : Times) (cc_us : ℕ) (c : VdiClient)
    → (record_completion cmd s cc_us c).1.calls ≡ c.calls
unfolding record_completion
calls-record_completion cmd s cc_us c = ground arith

-- After stage 1 only CompleteCommand is called besides those four, on the device of the round.
pub record IsSilentOn (P : Platform) (Q : Trace → Type 0) (device : ℕ) : Type 0 where
  pub quiet : IsQuiet P Q
  pub on_complete :
      (t : Trace) (cmd : Command) (code n position hr : ℕ)
      → Q t
      → Q (complete_command device cmd code n position hr ∷ t)

-- The same for a property that does not depend on the device.
pub record IsSilent (P : Platform) (Q : Trace → Type 0) : Type 0 where
  pub quiet : IsQuiet P Q
  pub on_complete :
      (t : Trace) (device : ℕ) (cmd : Command) (code n position hr : ℕ)
      → Q t
      → Q (complete_command device cmd code n position hr ∷ t)

pub silent_on :
    (P : Platform) (Q : Trace → Type 0) (device : ℕ) → IsSilent P Q → IsSilentOn P Q device
silent_on P Q device L = record {
  quiet = L.quiet;
  on_complete = λ t cmd code n position hr h. L.on_complete t device cmd code n position hr h;
}

module _ (P : Platform) (Q : Trace → Type 0) (device : ℕ) (L : IsSilentOn P Q device) where
  abbrev Kept : Flow × VdiClient → Type 0
  Kept q = Q q.1.calls

  complete_stage_rule :
      (cmd : Command) (s : Times) (c : VdiClient)
      → Q c.calls
      → Kept (complete_stage P device cmd s c)
  unfolding complete_stage
  complete_stage_rule cmd s c h =
      let c1 = (now_us P c).1 in
      let (hr, c2) = call_complete_command P device cmd c1 in
      let (cc_end, c3) = now_us P c2 in
      let done : Q c3.calls = L.quiet.on_clock c2.calls (
        L.on_complete c1.calls cmd error_success cmd.size cmd.position hr
          (L.quiet.on_clock c.calls h)) in
      if_elim Kept (failed hr) (λ _. done)
        (λ _. subst Q (sym (calls-record_completion cmd s (sub64 cc_end (now_us P c).0) c3)) done)

  execute_rule :
      (cmd : Command) (code : ℕ) (s : Times) (c : VdiClient)
      → Q c.calls
      → Kept (execute P device cmd code s c)
  unfolding execute
  execute_rule cmd code s c h =
      let q = sink_stage P cmd code c in
      elim_flow (λ flow (d : VdiClient). Q d.calls) Kept q.0 q.2
        (sink_stage_rule P Q L.quiet cmd code c h)
        (λ t. complete_stage_rule cmd (record s { sink_us = q.1 }) q.2 t) (λ t. t) (λ t. t)

  run_command_rule :
      (cmd : Command) (s : Times) (c : VdiClient) → Q c.calls → Kept (run_command P device cmd s c)
  unfolding run_command
  run_command_rule cmd s c h =
      let (dispatch_start, c1) = now_us P c in
      let (dispatch_end, c2) = now_us P c1 in
      let h2 = L.quiet.on_clock c1.calls (L.quiet.on_clock c.calls h) in
      dispatch_elim Kept (dispatch_command (some cmd)).1
        (execute_rule cmd (dispatch_command (some cmd)).0
          (record s { dispatch_us = sub64 dispatch_end dispatch_start }) c2 h2)
        (λ _. h2) (λ _. h2)

  pub on_reply_rule :
      (r : Reply) (s : Times) (c : VdiClient) → Q c.calls → Kept (on_reply P device r s c)
  unfolding on_reply
  on_reply_rule r s c h =
      if_elim Kept (failed r.hr) (λ _. on_get_command_error_rule P Q L.quiet r.hr r.gc_end c h)
        (λ _. option_elim Kept r.cmd (λ _. h) (λ cmd e. run_command_rule cmd s c h))
