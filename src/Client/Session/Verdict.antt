-- ===== src/Client/Session/Verdict.antt =====
-- What the last call of src/vdi_client.cpp to the device set or a device has come to, read off the
-- history. docs/operational-behavior.md, section 1, says which state each of these leads to.
use vdi_cpp_wrapper.Prelude.{
  ℕ, ◌≡◌, refl, sym, ap, ◌∙◌, [], ◌∷◌, Option, none, some, true, false, arith, ◌==◌, ◌||◌,
  if◌then◌else◌,
}
use vdi_cpp_wrapper.Protocol.{
  Command, failed, vd_e_close, vd_e_eof, vd_e_timeout, vdc_close, vdc_write,
}
use vdi_cpp_wrapper.World.{
  Trace, Platform, co_initialize_ex, create_instance, create_ex, get_configuration, open_device,
  get_command, complete_command,
}
use vdi_cpp_wrapper.Errors.State.{SessionState, streaming, flushing, failed_state}
use vdi_cpp_wrapper.Client.{VdiClient, fail, now_us}
use vdi_cpp_wrapper.Client.Chunk.{
  Flow, next, stop, crash, Times, receive, on_get_command_error, sink_stage, call_complete_command,
  record_completion,
}
use vdi_cpp_wrapper.Client.Rules.{AfterStore, Stages}
use vdi_cpp_wrapper.Client.Calls.{IsQuiet, on_get_command_error_rule, sink_stage_rule}
use vdi_cpp_wrapper.Client.Stall.{check_stall}
use vdi_cpp_wrapper.Client.Storing.{
  StageEnds, sink_stage-StageEnds, dispatch_close, dispatch_refuses_none,
}
use vdi_cpp_wrapper.Client.Session.Loop.{flush_sink-Fields}

-- `made` and `configured` are the successes of CreateEx and GetConfiguration, `refused` is a
-- failure, `over` is the end that the server reports, by VD_E_CLOSE or VD_E_EOF, `asked` is the
-- command VDC_Close, and `undecided` stands for everything else.
pub data Verdict : Type 0 where
  undecided made configured refused over asked : Verdict

abbrev pub judge_command : Option Command → Verdict
judge_command none = undecided
judge_command (some cmd) = if cmd.command_code == vdc_close then asked else undecided

abbrev pub judge_reply : ℕ → Option Command → Verdict
judge_reply hr cmd =
    if failed hr
    then (if hr == vd_e_close || hr == vd_e_eof
        then over
        else if hr == vd_e_timeout
        then undecided
        else refused)
    else judge_command cmd

unfoldable pub verdict : Trace → Verdict
verdict [] = undecided
verdict (co_initialize_ex hr ∷ t) = if failed hr then refused else undecided
verdict (create_instance hr ∷ t) = if failed hr then refused else undecided
verdict (create_ex config hr ∷ t) = if failed hr then refused else made
verdict (get_configuration timeout hr ∷ t) = if failed hr then refused else configured
verdict (open_device i hr ∷ t) = if failed hr then refused else undecided
verdict (get_command device timeout hr cmd ∷ t) = judge_reply hr cmd
verdict (complete_command device cmd code n position hr ∷ t) =
    if failed hr then refused else undecided
verdict (_ ∷ t) = verdict t

pub verdict-IsQuiet : (P : Platform) (v : Verdict) → IsQuiet P (λ t. verdict t ≡ v)
unfolding verdict
verdict-IsQuiet P v = record {
  on_clock = λ t e. e;
  on_write = λ t bytes e. e;
  on_flush = λ t e. e;
  on_warning = λ t n e. e;
}

-- The state in which the loop stops, by the last reply of the server. Where that is neither the
-- end, nor VDC_Close, nor a failure, the write stage or the fault injector has failed the session.
abbrev pub stopped_state : Verdict → SessionState
stopped_state over = flushing
stopped_state asked = streaming
stopped_state _ = failed_state

abbrev pub Judged : Flow → VdiClient → Type 0
Judged next c = (c.state ≡ streaming) × (verdict c.calls ≡ undecided)
Judged stop c = c.state ≡ stopped_state (verdict c.calls)
Judged crash c = (c.state ≡ streaming) × (verdict c.calls ≡ undecided)

-- The same for the state and the verdict on their own.
abbrev JudgedBy : Flow → SessionState → Verdict → Type 0
JudgedBy next s v = (s ≡ streaming) × (v ≡ undecided)
JudgedBy stop s v = s ≡ stopped_state v
JudgedBy crash s v = (s ≡ streaming) × (v ≡ undecided)

judged :
    (q : Flow × VdiClient) (v : Verdict)
    → JudgedBy q.0 q.1.state v
    → verdict q.1.calls ≡ v
    → Judged q.0 q.1
judged (next, c) v h e = (h.0, e ∙ h.1)
judged (stop, c) v h e = h ∙ sym (ap stopped_state e)
judged (crash, c) v h e = (h.0, e ∙ h.1)

-- A command is held.
abbrev pub Handling : ℕ → Command → VdiClient → Type 0
Handling device cmd c = (c.state ≡ streaming) × (verdict c.calls ≡ judge_command (some cmd))

abbrev pub Undecided : VdiClient → Type 0
Undecided c = (c.state ≡ streaming) × (verdict c.calls ≡ undecided)

receive-verdict :
    (P : Platform) (device : ℕ) (c : VdiClient)
    → let (r, c1) = receive P device c in
      (c1.state ≡ c.state) × (verdict c1.calls ≡ judge_reply r.hr r.cmd)
unfolding receive verdict
receive-verdict P device c = (refl, refl)

-- CompleteCommand has answered `hr`.
abbrev pub Answered : ℕ → ℕ → Command → VdiClient → Type 0
Answered hr device cmd c =
    (c.state ≡ streaming) × (verdict c.calls ≡ (if failed hr then refused else undecided))

on_get_command_error-state :
    (P : Platform) (cmd : Option Command) (hr now : ℕ) (c : VdiClient)
    → c.state ≡ streaming
    → failed hr ≡ true
    → JudgedBy
        (on_get_command_error P hr now c).0
        (on_get_command_error P hr now c).1.state
        (judge_reply hr cmd)
unfolding on_get_command_error check_stall
on_get_command_error-state P cmd hr now c h e =
    ground (arith, flush_sink-Fields P (record c { state = flushing }))

record_completion-Judged :
    (cmd : Command) (s : Times) (cc_us : ℕ) (c : VdiClient)
    → Undecided c
    → Judged (record_completion cmd s cc_us c).0 (record_completion cmd s cc_us c).1
unfolding record_completion
record_completion-Judged cmd s cc_us c h = ground arith

-- A VDC_Write is no VDC_Close.
judge_write : (cmd : Command) → cmd.command_code ≡ vdc_write → judge_command (some cmd) ≡ undecided
judge_write cmd w = ground arith

stored :
    (device : ℕ) (cmd : Command) (c : VdiClient) (q : Flow × ℕ × VdiClient)
    → c.state ≡ streaming
    → StageEnds cmd c q
    → verdict q.2.calls ≡ judge_command (some cmd)
    → AfterStore (Judged stop) (Judged crash) (Handling device cmd) q
stored device cmd c (next, n, d) s e v = (e ∙ s, v)
stored device cmd c (stop, n, d) s e v = e.1 ∙ sym (ap stopped_state (v ∙ judge_write cmd e.0))
stored device cmd c (crash, n, d) s e v = (e.1 ∙ s, v ∙ judge_write cmd e.0)

judge_close : (cmd : Command) → cmd.command_code ≡ vdc_close → judge_command (some cmd) ≡ asked
judge_close cmd w = ground arith

judge_sent :
    (hr : ℕ) (cmd sent : Option Command)
    → failed hr ≡ false
    → cmd ≡ sent
    → judge_reply hr cmd ≡ judge_command sent
judge_sent hr cmd sent e f = rw e (ap judge_command f)

receive_null :
    (P : Platform) (device : ℕ) (c : VdiClient)
    → c.state ≡ streaming
    → let (r, c1) = receive P device c in failed r.hr ≡ false → r.cmd ≡ none → Undecided c1
receive_null P device c s e f =
    let (r, c1) = receive P device c in
    let (s1, v) = receive-verdict P device c in (s1 ∙ s, v ∙ judge_sent r.hr r.cmd none e f)

receive_command :
    (P : Platform) (device : ℕ) (c : VdiClient) (cmd : Command)
    → c.state ≡ streaming
    → let (r, c1) = receive P device c in
      failed r.hr ≡ false → r.cmd ≡ some cmd → Handling device cmd c1
receive_command P device c cmd s e f =
    let (r, c1) = receive P device c in
    let (s1, v) = receive-verdict P device c in (s1 ∙ s, v ∙ judge_sent r.hr r.cmd (some cmd) e f)

incomplete :
    (hr : ℕ) (d : VdiClient)
    → failed hr ≡ true
    → verdict d.calls ≡ (if failed hr then refused else undecided)
    → Judged stop (fail d)
incomplete hr d e v = ground arith

complete :
    (hr : ℕ) (d : VdiClient)
    → failed hr ≡ false
    → (d.state ≡ streaming) × (verdict d.calls ≡ (if failed hr then refused else undecided))
    → Undecided d
complete hr d e h = ground arith

pub Judged-Stages : (P : Platform) → Stages P Judged Handling Handling Answered
unfolding now_us call_complete_command verdict
Judged-Stages P = record {
  tick_held = λ device cmd c h. h;
  tick_stored = λ device cmd c h. h;
  tick_done = λ hr device cmd c h. h;
  on_error = λ device c h e.
      let (r, c1) = receive P device c in
      let (s, v) = receive-verdict P device c in
      judged (on_get_command_error P r.hr r.gc_end c1) (judge_reply r.hr r.cmd)
        (on_get_command_error-state P r.cmd r.hr r.gc_end c1 (s ∙ h.0) e)
        (on_get_command_error_rule P (λ t. verdict t ≡ judge_reply r.hr r.cmd)
          (verdict-IsQuiet P (judge_reply r.hr r.cmd)) r.hr r.gc_end c1 v);
  on_null = λ device c h e f. receive_null P device c h.0 e f;
  on_command = λ device c h cmd e f. receive_command P device c cmd h.0 e f;
  on_refused = λ device cmd c h e. absurd (dispatch_refuses_none cmd e);
  on_close = λ device cmd c h e.
      h.0 ∙ sym (ap stopped_state (h.1 ∙ judge_close cmd (dispatch_close cmd e)));
  on_store = λ device cmd c h.
      stored device cmd c (sink_stage P cmd cmd.command_code c) h.0 (sink_stage-StageEnds P cmd c) (
        sink_stage_rule P (λ t. verdict t ≡ judge_command (some cmd))
          (verdict-IsQuiet P (judge_command (some cmd))) cmd cmd.command_code c h.1);
  on_complete = λ device cmd c h. (h.0, refl);
  on_incomplete = λ device cmd c d e h. incomplete _ d e h.1;
  on_done =
      λ hr device cmd c s cc_us e h. record_completion-Judged cmd s cc_us c (complete hr c e h);
}
