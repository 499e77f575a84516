-- ===== src/Client/Backup/Alive.antt =====
-- The stages of the command loop that keep an undisturbed backup going.
use vdi_cpp_wrapper.Prelude.{ℕ, ◌≡◌, ap, ◌⊎◌, some, true, arith}
use vdi_cpp_wrapper.Protocol.{
  Command, failed, vdc_write, validate_write_command, dispatch_command, proceed, vd_e_close,
  vd_e_eof, vd_e_timeout,
}
use vdi_cpp_wrapper.World.{Platform}
use vdi_cpp_wrapper.Sink.Bytes.{WritesAll, file_bytes}
use vdi_cpp_wrapper.Errors.State.{flushing}
use vdi_cpp_wrapper.Faults
use vdi_cpp_wrapper.Faults.{stub}
use vdi_cpp_wrapper.Client.{VdiClient, now_us}
use vdi_cpp_wrapper.Client.Chunk.{
  stop, Times, receive, on_get_command_error, sink_stage, call_complete_command, record_completion,
}
use vdi_cpp_wrapper.Client.Rules.{Stages}
use vdi_cpp_wrapper.Client.Backup.{SendsWellFormed, received_bytes, delivered_bytes}
use vdi_cpp_wrapper.Client.Backup.Storing.{sink_stage-Delivered}
use vdi_cpp_wrapper.Client.Backup.Steps.{
  on_get_command_error-Delivered, record_completion-Delivered, receive-Pending,
  Delivered-of_nothing, delivered_bytes-failed,
}
use vdi_cpp_wrapper.Client.Backup.Progress.{
  Cooperates, IsSteady, Alive, Incoming, Stored, Alive-of_parts, AfterStore-Alive,
  on_get_command_error_lem, sink_stage_goes_on, sink_stage-IsSteady,
}

record_completion_lem :
    (cmd : Command) (s : Times) (cc_us : ℕ) (c : VdiClient)
    → IsSteady c
    → let q = record_completion cmd s cc_us c in IsSteady q.1 × (q.0 ≡ stop → q.1.state ≡ flushing)
unfolding record_completion Faults.on_chunk_completed
record_completion_lem cmd s cc_us c h = ground (arith, h.0)

proceeds :
    (cmd : Command) → cmd.command_code ≡ vdc_write → (dispatch_command (some cmd)).1 ≡ proceed
unfolding dispatch_command
proceeds cmd e = ground (arith, e)

receive_lem :
    (P : Platform) (device : ℕ) (c : VdiClient)
    → Cooperates P
    → let (r, c1) = receive P device c in
      (failed r.hr ≡ true → (r.hr ≡ vd_e_close) ⊎ ((r.hr ≡ vd_e_eof) ⊎ (r.hr ≡ vd_e_timeout)))
      × ((cmd : Command)
          → r.cmd ≡ some cmd
          → (cmd.command_code ≡ vdc_write) × (validate_write_command (some cmd) ≡ true))
unfolding receive
receive_lem P device c k = (
  k.fails (now_us P c).1.calls device c.command_timeout_ms,
  k.sends (now_us P c).1.calls device c.command_timeout_ms,
)

receive-IsSteady :
    (P : Platform) (device : ℕ) (c : VdiClient) → IsSteady c → IsSteady (receive P device c).1
unfolding receive
receive-IsSteady P device c s = s

pub Alive-Stages :
    (P : Platform)
    → WritesAll P
    → SendsWellFormed P
    → Cooperates P
    → Stages P Alive Incoming Stored (λ hr. Stored)
unfolding now_us call_complete_command file_bytes received_bytes
Alive-Stages P w f k = record {
  tick_held = λ device cmd c h. h;
  tick_stored = λ device cmd c h. h;
  tick_done = λ hr device cmd c h. h;
  on_error = λ device c h e.
      let (r, c1) = receive P device c in
      let s =
        on_get_command_error_lem P r.hr r.gc_end c1 (receive-IsSteady P device c h.1)
          ((receive_lem P device c k).0 e) in
      Alive-of_parts (on_get_command_error P r.hr r.gc_end c1)
        (on_get_command_error-Delivered P r.hr r.gc_end c1 w
          (Delivered-of_nothing P device c h.0 (delivered_bytes-failed r.hr r.cmd e)))
        s.0 s.1;
  on_null = λ device c h e g. (
    Delivered-of_nothing P device c h.0 (ap (delivered_bytes (receive P device c).0.hr) g),
    receive-IsSteady P device c h.1,
  );
  on_command = λ device c h cmd e g.
      let (code, valid) = (receive_lem P device c k).1 cmd g in
      (receive-Pending P device c cmd f h.0 e g, receive-IsSteady P device c h.1, code, valid);
  on_refused = λ device cmd c h e. absurd (cc (proceeds cmd h.2, e));
  on_close = λ device cmd c h e. absurd (cc (proceeds cmd h.2, e));
  on_store = λ device cmd c h.
      AfterStore-Alive device cmd (sink_stage P cmd cmd.command_code c)
        (sink_stage-Delivered P device cmd c w h.0)
        (sink_stage-IsSteady P cmd cmd.command_code c h.1) (sink_stage_goes_on P device cmd c w h);
  on_complete = λ device cmd c h. h;
  on_incomplete = λ device cmd b c e h. absurd (cc (k.completes b.calls device cmd, e));
  on_done = λ hr device cmd c s cc_us e h.
      let t = record_completion_lem cmd s cc_us c h.1 in
      Alive-of_parts (record_completion cmd s cc_us c)
        (record_completion-Delivered cmd s cc_us c h.0) t.0 t.1;
}
