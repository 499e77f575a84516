-- ===== src/Client/Safety/Writes.antt =====
-- The VDC_Write commands that the server sends to a session without a sink, and the command loop
-- of src/vdi_client.cpp, stage by stage.
use vdi_cpp_wrapper.Prelude.{
  ℕ, ◌+◌, ◌≡◌, refl, ap, ◌∙◌, [], ◌∷◌, Option, none, some, true, false, arith, ◌&&◌, ◌==◌,
  if◌then◌else◌, if_elim,
}
use vdi_cpp_wrapper.Protocol.{Command, vdc_write, vdc_close, failed, validate_write_command}
use vdi_cpp_wrapper.World.{Trace, Platform, get_command}
use vdi_cpp_wrapper.Client.{VdiClient, now_us}
use vdi_cpp_wrapper.Client.Lifecycle.{flush_sink}
use vdi_cpp_wrapper.Client.Stall.{check_stall}
use vdi_cpp_wrapper.Client.Chunk.{
  Flow, next, stop, crash, Times, receive, on_get_command_error, use_buffer, account_chunk,
  store_chunk, sink_stage, call_complete_command, record_completion,
}
use vdi_cpp_wrapper.Client.Rules.{AfterStore, Stages}
use vdi_cpp_wrapper.Client.Calls.{IsQuiet}
use vdi_cpp_wrapper.Client.Storing.{dispatch_close, dispatch_refuses_none}

-- What one GetCommand has brought: 1 for a VDC_Write that the write stage accepts.
abbrev pub counts_write : ℕ → Option Command → ℕ
counts_write hr none = 0
counts_write hr (some cmd) =
    if failed hr
    then 0
    else if (cmd.command_code == vdc_write) && validate_write_command (some cmd)
    then 1
    else 0

-- The VDC_Write commands with valid fields that the server has sent.
unfoldable pub valid_writes : Trace → ℕ
valid_writes [] = 0
valid_writes (get_command device timeout hr cmd ∷ t) = valid_writes t + counts_write hr cmd
valid_writes (_ ∷ t) = valid_writes t

pub valid_writes-IsQuiet : (P : Platform) (n : ℕ) → IsQuiet P (λ t. valid_writes t ≡ n)
unfolding valid_writes
valid_writes-IsQuiet P n = record {
  on_clock = λ t e. e;
  on_write = λ t bytes e. e;
  on_flush = λ t e. e;
  on_warning = λ t k e. e;
}

-- No sink, and `n` valid commands.
abbrev pub Sinkless : ℕ → VdiClient → Type 0
Sinkless n c = (c.sink ≡ none) × (valid_writes c.calls ≡ n)

-- Started with `n` of them, a part of the loop has seen one more where it crashes, and none else.
abbrev pub Crashes : ℕ → Flow → VdiClient → Type 0
Crashes n next c = Sinkless n c
Crashes n stop c = Sinkless n c
Crashes n crash c = Sinkless (n + 1) c

abbrev pub Sent : ℕ → ℕ → Command → VdiClient → Type 0
Sent n device cmd c = Sinkless (n + counts_write 0 (some cmd)) c

abbrev pub Past : ℕ → ℕ → Command → VdiClient → Type 0
Past n device cmd c = Sinkless n c

receive-Sinkless :
    (P : Platform) (n device : ℕ) (c : VdiClient)
    → Sinkless n c
    → let (r, c1) = receive P device c in Sinkless (n + counts_write r.hr r.cmd) c1
unfolding receive valid_writes
receive-Sinkless P n device c h =
    let (r, c1) = receive P device c in (h.0, ap (λ k. k + counts_write r.hr r.cmd) h.1)

counts-failed : (hr : ℕ) (cmd : Option Command) → failed hr ≡ true → counts_write hr cmd ≡ 0
counts-failed hr none e = refl
counts-failed hr (some cmd) e = rw e refl

counts-sent :
    (hr : ℕ) (o : Option Command) (cmd : Command)
    → failed hr ≡ false
    → o ≡ some cmd
    → counts_write hr o ≡ counts_write 0 (some cmd)
counts-sent hr o cmd e f = ap (counts_write hr) f ∙ rw e refl

counts_close : (cmd : Command) → cmd.command_code ≡ vdc_close → counts_write 0 (some cmd) ≡ 0
counts_close cmd e = ground arith

on_get_command_error-Crashes :
    (P : Platform) (n hr now : ℕ) (c : VdiClient)
    → Sinkless n c
    → Crashes n (on_get_command_error P hr now c).0 (on_get_command_error P hr now c).1
unfolding on_get_command_error flush_sink check_stall valid_writes
on_get_command_error-Crashes P n hr now c h = ground arith

account_chunk-Sinkless :
    (P : Platform) (n size : ℕ) (c : VdiClient) → Sinkless n c → Sinkless n (account_chunk P size c)
unfolding account_chunk use_buffer
account_chunk-Sinkless P n size c h = ground arith

store_chunk-Crashes :
    (P : Platform) (n : ℕ) (cmd : Command) (c : VdiClient)
    → (cmd.command_code == vdc_write) ≡ true
    → Sinkless (n + counts_write 0 (some cmd)) c
    → AfterStore (Crashes n stop) (Crashes n crash) (Sinkless n) (store_chunk P cmd c)
unfolding store_chunk
store_chunk-Crashes P n cmd c w h = ground arith

sink_stage-Crashes :
    (P : Platform) (n : ℕ) (cmd : Command) (c : VdiClient)
    → Sinkless (n + counts_write 0 (some cmd)) c
    → AfterStore
        (Crashes n stop)
        (Crashes n crash)
        (Sinkless n)
        (sink_stage P cmd cmd.command_code c)
unfolding sink_stage
sink_stage-Crashes P n cmd c h =
    if_elim (AfterStore (Crashes n stop) (Crashes n crash) (Sinkless n))
      (cmd.command_code == vdc_write)
      (λ e.
        store_chunk-Crashes P n cmd (account_chunk P cmd.size c) e
          (account_chunk-Sinkless P (n + counts_write 0 (some cmd)) cmd.size c h))
      (λ e. ground arith)

record_completion-Crashes :
    (n : ℕ) (cmd : Command) (s : Times) (cc_us : ℕ) (c : VdiClient)
    → Sinkless n c
    → Crashes n (record_completion cmd s cc_us c).0 (record_completion cmd s cc_us c).1
unfolding record_completion
record_completion-Crashes n cmd s cc_us c h = ground arith

again : (n k : ℕ) (c : VdiClient) → k ≡ 0 → Sinkless (n + k) c → Sinkless n c
again n k c e h = (h.0, omega (arith, h.1))

pub Crashes-Stages : (P : Platform) (n : ℕ) → Stages P (Crashes n) (Sent n) (Past n) (λ hr. Past n)
unfolding now_us call_complete_command valid_writes
Crashes-Stages P n = record {
  tick_held = λ device cmd c h. h;
  tick_stored = λ device cmd c h. h;
  tick_done = λ hr device cmd c h. h;
  on_error = λ device c h e.
      let (r, c1) = receive P device c in
      on_get_command_error-Crashes P n r.hr r.gc_end c1 (
        again n (counts_write r.hr r.cmd) c1 (counts-failed r.hr r.cmd e)
          (receive-Sinkless P n device c h));
  on_null = λ device c h e f.
      let (r, c1) = receive P device c in
      again n (counts_write r.hr r.cmd) c1 (ap (counts_write r.hr) f)
        (receive-Sinkless P n device c h);
  on_command = λ device c h cmd e f.
      let (r, c1) = receive P device c in
      let (s, k) = receive-Sinkless P n device c h in
      (s, k ∙ ap (λ m. n + m) (counts-sent r.hr r.cmd cmd e f));
  on_refused = λ device cmd c h e. absurd (dispatch_refuses_none cmd e);
  on_close = λ device cmd c h e.
      again n (counts_write 0 (some cmd)) c (counts_close cmd (dispatch_close cmd e)) h;
  on_store = λ device cmd c h. sink_stage-Crashes P n cmd c h;
  on_complete = λ device cmd c h. h;
  on_incomplete = λ device cmd c d e h. h;
  on_done = λ hr device cmd c s cc_us e h. record_completion-Crashes n cmd s cc_us c h;
}
