-- ===== src/Client/Order.antt =====
-- The order of the calls on the devices: docs/vdi-flow.md asks that each command be completed
-- exactly once, and in order.
use vdi_cpp_wrapper.Prelude.{
  ℕ, ◌≡◌, ◌≢◌, ◌⊎◌, inl, inr, arith, refl, sym, subst, List, [], ◌∷◌, Option, none, some, true,
  false, if◌then◌else◌,
}
use vdi_cpp_wrapper.Protocol.{Command, failed, vdc_close, vdc_write}
use vdi_cpp_wrapper.World.{Trace, Platform, get_command, complete_command}
use vdi_cpp_wrapper.Errors.State.{failed_state}
use vdi_cpp_wrapper.Client.{VdiClient, now_us}
use vdi_cpp_wrapper.Client.Chunk.{
  Flow, next, stop, crash, Times, receive, sink_stage, call_complete_command, on_get_command_error,
  record_completion,
}
use vdi_cpp_wrapper.Client.Loop.{run_loop}
use vdi_cpp_wrapper.Client.Rules.{AfterStore, Stages, flow_of, run_loop_rule}
use vdi_cpp_wrapper.Client.Storing.{
  StageEnds, sink_stage-StageEnds, dispatch_close, dispatch_refuses_none,
}
use vdi_cpp_wrapper.Client.Calls.{
  IsQuiet, on_get_command_error_rule, sink_stage_rule, calls-record_completion,
}

-- The command that a device has handed over and that is not completed yet, with the device.
abbrev pub Held : Type 0
Held = Option (ℕ × Command)

abbrev pub delivered : ℕ → ℕ → Option Command → Held
delivered device hr none = none
delivered device hr (some cmd) = if failed hr then none else some (device, cmd)

-- The history is in order, and ends with `h` held: a command is fetched only while none is held,
-- and CompleteCommand is called only for the held command, on its device, with ERROR_SUCCESS and
-- the command's own size and position; after that nothing is held.
abbrev pub InOrder : Trace → Held → Type 0
InOrder [] h = h ≡ none
InOrder (get_command device timeout hr cmd ∷ t) h = InOrder t none × (h ≡ delivered device hr cmd)
InOrder (complete_command device cmd code n position hr ∷ t) h =
    InOrder t (some (device, cmd))
    × (code ≡ 0)
    × (n ≡ cmd.size)
    × (position ≡ cmd.position)
    × (h ≡ none)
InOrder (_ ∷ t) h = InOrder t h

-- `cmd` is held at the end of the history, for the reason that `Why` gives.
abbrev pub LeftHeld : (Command → Type 0) → Trace → Type 0
LeftHeld Why t = (device : ℕ) × (cmd : Command) × InOrder t (some (device, cmd)) × Why cmd

-- Between two rounds nothing is held. Where the loop ends, a command is held only if it is
-- VDC_Close, or a VDC_Write whose write stage failed the session or dereferenced the null sink.
abbrev pub Ordered : Flow → VdiClient → Type 0
Ordered next c = InOrder c.calls none
Ordered stop c =
    InOrder c.calls none
    ⊎ LeftHeld
        (λ cmd.
          (cmd.command_code ≡ vdc_close)
          ⊎ ((cmd.command_code ≡ vdc_write) × (c.state ≡ failed_state)))
        c.calls
Ordered crash c = LeftHeld (λ cmd. cmd.command_code ≡ vdc_write) c.calls

abbrev Holding : ℕ → Command → VdiClient → Type 0
Holding device cmd c = InOrder c.calls (some (device, cmd))

abbrev Free : ℕ → Command → VdiClient → Type 0
Free device cmd c = InOrder c.calls none

InOrder-IsQuiet : (P : Platform) (h : Held) → IsQuiet P (λ t. InOrder t h)
InOrder-IsQuiet P h = record {
  on_clock = λ t o. o;
  on_write = λ t bytes o. o;
  on_flush = λ t o. o;
  on_warning = λ t n o. o;
}

Ordered-of_none : (q : Flow × VdiClient) → q.0 ≢ crash → InOrder q.1.calls none → Ordered q.0 q.1
Ordered-of_none (next, c) runs o = o
Ordered-of_none (stop, c) runs o = inl o
Ordered-of_none (crash, c) runs o = absurd (runs refl)

on_get_command_error_runs :
    (P : Platform) (hr now : ℕ) (c : VdiClient) → (on_get_command_error P hr now c).0 ≢ crash
unfolding on_get_command_error
on_get_command_error_runs P hr now c = ground arith

record_completion_runs :
    (cmd : Command) (s : Times) (cc_us : ℕ) (c : VdiClient)
    → (record_completion cmd s cc_us c).0 ≢ crash
unfolding record_completion
record_completion_runs cmd s cc_us c = ground arith

-- The command that the write stage does not store stays held.
stored :
    (device : ℕ) (cmd : Command) (c : VdiClient) (q : Flow × ℕ × VdiClient)
    → StageEnds cmd c q
    → InOrder q.2.calls (some (device, cmd))
    → AfterStore (Ordered stop) (Ordered crash) (Holding device cmd) q
stored device cmd c (next, n, d) e o = o
stored device cmd c (stop, n, d) e o = inr (device, cmd, o, inr e)
stored device cmd c (crash, n, d) e o = (device, cmd, o, e.0)

-- The history after stage 1 is in order, and holds what GetCommand delivered.
receive-InOrder :
    (P : Platform) (device : ℕ) (c : VdiClient)
    → InOrder c.calls none
    → let (r, c1) = receive P device c in InOrder c1.calls (delivered device r.hr r.cmd)
unfolding receive
receive-InOrder P device c o = (o, refl)

delivered-failed :
    (device hr : ℕ) (cmd : Option Command) → failed hr ≡ true → delivered device hr cmd ≡ none
delivered-failed device hr none e = refl
delivered-failed device hr (some cmd) e = rw e

delivered-some :
    (device hr : ℕ) (o : Option Command) (cmd : Command)
    → failed hr ≡ false
    → o ≡ some cmd
    → delivered device hr o ≡ some (device, cmd)
delivered-some device hr o cmd e f = rw (f, delivered) (rw e)

Ordered-Stages : (P : Platform) → Stages P Ordered Holding Holding (λ hr. Free)
unfolding now_us call_complete_command
Ordered-Stages P = record {
  tick_held = λ device cmd c h. h;
  tick_stored = λ device cmd c h. h;
  tick_done = λ hr device cmd c h. h;
  on_error = λ device c h e.
      let (r, c1) = receive P device c in
      let o : InOrder c1.calls none =
        subst (InOrder c1.calls) (delivered-failed device r.hr r.cmd e)
          (receive-InOrder P device c h) in
      Ordered-of_none (on_get_command_error P r.hr r.gc_end c1)
        (on_get_command_error_runs P r.hr r.gc_end c1)
        (on_get_command_error_rule P (λ t. InOrder t none) (InOrder-IsQuiet P none) r.hr r.gc_end c1
          o);
  on_null = λ device c h e f.
      let (r, c1) = receive P device c in
      subst (λ o. InOrder c1.calls (delivered device r.hr o)) f (receive-InOrder P device c h);
  on_command = λ device c h cmd e f.
      let (r, c1) = receive P device c in
      subst (InOrder c1.calls) (delivered-some device r.hr r.cmd cmd e f)
        (receive-InOrder P device c h);
  on_refused = λ device cmd c h e. absurd (dispatch_refuses_none cmd e);
  on_close = λ device cmd c h e. inr (device, cmd, h, inl (dispatch_close cmd e));
  on_store = λ device cmd c h.
      stored device cmd c (sink_stage P cmd cmd.command_code c) (sink_stage-StageEnds P cmd c) (
        sink_stage_rule P (λ t. InOrder t (some (device, cmd)))
          (InOrder-IsQuiet P (some (device, cmd))) cmd cmd.command_code c h);
  on_complete = λ device cmd c h. (h, refl, refl, refl, refl);
  on_incomplete = λ device cmd b c e h. inl h;
  on_done = λ hr device cmd c s cc_us e h.
      Ordered-of_none (record_completion cmd s cc_us c) (record_completion_runs cmd s cc_us c)
        (subst (λ t. InOrder t none) (sym (calls-record_completion cmd s cc_us c)) h);
}

-- The command loop, from a history that is in order with no command held, makes its calls in
-- order: every device is asked for a command only when the last one was completed, and each
-- CompleteCommand is for the command that is held, on its own device, with ERROR_SUCCESS, that
-- command's size and its position. No command is held between the rounds of the loop, nor where it
-- ends, unless it stops at a VDC_Close, at a VDC_Write with which the session fails, or at a
-- VDC_Write for which it dereferences the null sink: such a command is not completed.
pub run_loop-Ordered :
    (P : Platform) (fuel start : ℕ) (devices : List ℕ) (c : VdiClient)
    → InOrder c.calls none
    → let (outcome, c1) = run_loop P fuel start devices c in Ordered (flow_of outcome) c1
run_loop-Ordered P fuel start devices c o =
    run_loop_rule P Ordered Holding Holding (λ hr. Free) (Ordered-Stages P) fuel start devices c o
