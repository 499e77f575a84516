-- ===== src/Client/Accounting/TimedStages.antt =====
-- The stages of the command loop keep the recorded times in step with the completed commands.
use vdi_cpp_wrapper.Prelude.{ℕ, ◌≡◌, refl, ap, ◌∙◌, List, [], ◌∷◌, ◌++◌, map, if◌then◌else◌}
use mathlib.Core.List.{append-nil}
use vdi_cpp_wrapper.Protocol.{Command, failed}
use vdi_cpp_wrapper.World.{Platform}
use vdi_cpp_wrapper.Metrics.{ChunkTiming}
use vdi_cpp_wrapper.Client.{VdiClient, fail, now_us}
use vdi_cpp_wrapper.Client.Chunk.{
  Flow, stop, crash, receive, on_get_command_error, sink_stage, call_complete_command,
}
use vdi_cpp_wrapper.Client.Loop.{run_loop}
use vdi_cpp_wrapper.Client.Accounting.{on_get_command_error-SameBooks}
use vdi_cpp_wrapper.Client.Rules.{AfterStore-all, Stages, run_loop_rule}
use vdi_cpp_wrapper.Client.Calls.{sink_stage_rule, on_get_command_error_rule}
use vdi_cpp_wrapper.Client.Accounting.Timings.{
  completed, Timed, SameTimes-Timed, completed-IsQuiet, sink_stage-SameParts,
  on_get_command_error-injector, Completed, record_completion-Timed, SameBooks-Timed,
}

abbrev Timely : Flow → VdiClient → Type 0
Timely flow c = Timed c

abbrev TimelyHeld : ℕ → Command → VdiClient → Type 0
TimelyHeld device cmd c = Timed c

Timed-Stages : (P : Platform) → Stages P Timely TimelyHeld TimelyHeld Completed
unfolding now_us call_complete_command receive completed
Timed-Stages P = record {
  tick_held = λ device cmd c h. kept c h;
  tick_stored = λ device cmd c h. kept c h;
  tick_done = λ hr device cmd c h. h;
  on_error = λ device c h e.
      let (r, c1) = receive P device c in
      let quiet = completed-IsQuiet P (completed c1.calls) in
      SameBooks-Timed c1 (on_get_command_error P r.hr r.gc_end c1).1
        (on_get_command_error-SameBooks P r.hr r.gc_end c1)
        (on_get_command_error-injector P r.hr r.gc_end c1)
        (on_get_command_error_rule P (λ t. completed t ≡ completed c1.calls) quiet r.hr r.gc_end c1
          refl)
        (received device c h);
  on_null = λ device c h e f. received device c h;
  on_command = λ device c h cmd e f. received device c h;
  on_refused = λ device cmd c h e. failing c h;
  on_close = λ device cmd c h e. h;
  on_store = λ device cmd c h.
      let quiet = completed-IsQuiet P (completed c.calls) in
      let same =
        sink_stage_rule P (λ t. completed t ≡ completed c.calls) quiet cmd cmd.command_code c
          refl in
      let (f, t) = sink_stage-SameParts P cmd c in
      let s = SameTimes-Timed c (sink_stage P cmd cmd.command_code c).2 (f, t, same) h in
      AfterStore-all (Timely stop) (Timely crash) (TimelyHeld device cmd)
        (sink_stage P cmd cmd.command_code c) s s s;
  on_complete = λ device cmd c h. (
    h.no_faults,
    ap (λ ns. ns ++ (if failed (call_complete_command P device cmd c).0 then [] else cmd.size ∷ []))
        h.sized,
    h.summed,
  );
  on_incomplete = λ device cmd b c e (f, n, s). record {
    no_faults = f;
    sized = n ∙ rw e (append-nil (map (λ (t : ChunkTiming). t.size) c.metrics.timings));
    summed = s;
  };
  on_done = λ hr device cmd c s cc_us e h. record_completion-Timed hr device cmd s cc_us c e h;
}
  where
    kept : (c : VdiClient) → Timed c → Timed (now_us P c).1
    kept c h = SameTimes-Timed c (now_us P c).1 (refl, refl, refl) h

    failing : (c : VdiClient) → Timed c → Timed (fail c)
    failing c h = SameTimes-Timed c (fail c) (refl, refl, refl) h

    received : (device : ℕ) (c : VdiClient) → Timed c → Timed (receive P device c).1
    received device c h = SameTimes-Timed c (receive P device c).1 (refl, refl, refl) h

pub run_loop-Timed :
    (P : Platform) (fuel start : ℕ) (devices : List ℕ) (c : VdiClient)
    → Timed c
    → Timed (run_loop P fuel start devices c).1
run_loop-Timed P fuel start devices c h =
    run_loop_rule P Timely TimelyHeld TimelyHeld Completed (Timed-Stages P) fuel start devices c h
