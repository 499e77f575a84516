-- ===== src/Client/Stall/Progress.antt =====
-- What the stall detector of src/vdi_client.cpp sees of the progress that the loop makes.
use vdi_cpp_wrapper.Prelude.{
  ℕ, ◌*◌, ◌≡◌, subst, inl, inr, List, ◌∷◌, arith, ltb, ◌==◌, if◌then◌else◌, if_elim, Option-cases,
  sub64,
}
use vdi_cpp_wrapper.Protocol.{Command, vdc_write}
use vdi_cpp_wrapper.World.{Platform, stall_warning}
use vdi_cpp_wrapper.Metrics
use vdi_cpp_wrapper.Sink.{Sink}
use vdi_cpp_wrapper.Client.{VdiClient, now_us, stall_warn_ms}
use vdi_cpp_wrapper.Client.Stall.{check_stall}
use vdi_cpp_wrapper.Client.Chunk.{
  Flow, next, stop, crash, Times, receive, on_get_command_error, write_chunk, store_chunk,
  sink_stage, call_complete_command, record_completion,
}
use vdi_cpp_wrapper.Client.Loop.{out_of_fuel, run_loop}
use vdi_cpp_wrapper.Client.Rules.{AfterStore, Stages, flow_of, run_loop_rule}

-- The detector's copy of the byte counter is the counter.
abbrev pub InStep : VdiClient → Type 0
InStep c = c.metrics.total_bytes ≡ c.last_bytes_total

-- `InStep` is asked for only where the loop goes on.
abbrev pub Going : Flow → VdiClient → Type 0
Going next c = InStep c
Going stop c = Unit
Going crash c = Unit

write_chunk-Going :
    (P : Platform) (cmd : Command) (k : Sink) (c : VdiClient)
    → Going (write_chunk P cmd k c).0 (write_chunk P cmd k c).2
unfolding write_chunk
write_chunk-Going P cmd k c = ground arith

store_chunk-Going :
    (P : Platform) (cmd : Command) (c : VdiClient)
    → Going (store_chunk P cmd c).0 (store_chunk P cmd c).2
unfolding store_chunk
store_chunk-Going P cmd c = elim (Option-cases c.sink) [
  | inl e ↦ ground arith
  | inr (k, e) ↦ ground (arith, write_chunk-Going P cmd k c)
]

-- The counter is the copy at each stage at which the loop may go on.
abbrev Holds : ℕ → Command → VdiClient → Type 0
Holds device cmd c = InStep c

AfterStore-Going :
    (q : Flow × ℕ × VdiClient) → Going q.0 q.2 → AfterStore (Going stop) (Going crash) InStep q
AfterStore-Going (next, n, c) g = g
AfterStore-Going (stop, n, c) g = g
AfterStore-Going (crash, n, c) g = g

sink_stage-Going :
    (P : Platform) (cmd : Command) (c : VdiClient)
    → InStep c
    → Going (sink_stage P cmd cmd.command_code c).0 (sink_stage P cmd cmd.command_code c).2
unfolding sink_stage
sink_stage-Going P cmd c h =
    if_elim (λ (q : Flow × ℕ × VdiClient). Going q.0 q.2) (cmd.command_code == vdc_write)
      (λ _. store_chunk-Going P cmd _) (λ _. h)

on_get_command_error-Going :
    (P : Platform) (hr now : ℕ) (c : VdiClient)
    → InStep c
    → Going (on_get_command_error P hr now c).0 (on_get_command_error P hr now c).1
unfolding on_get_command_error check_stall
on_get_command_error-Going P hr now c h = ground arith

record_completion-Going :
    (cmd : Command) (s : Times) (cc_us : ℕ) (c : VdiClient)
    → InStep c
    → Going (record_completion cmd s cc_us c).0 (record_completion cmd s cc_us c).1
unfolding record_completion Metrics.record_chunk_timing
record_completion-Going cmd s cc_us c h = ground arith

Going-Stages : (P : Platform) → Stages P Going Holds Holds (λ hr. Holds)
unfolding now_us receive call_complete_command
Going-Stages P = record {
  tick_held = λ device cmd c h. h;
  tick_stored = λ device cmd c h. h;
  tick_done = λ hr device cmd c h. h;
  on_error = λ device c h e. on_get_command_error-Going P _ _ _ h;
  on_null = λ device c h e f. h;
  on_command = λ device c h cmd e f. h;
  on_refused = λ device cmd c h _. tt;
  on_close = λ device cmd c h _. tt;
  on_store = λ device cmd c h. AfterStore-Going _ (sink_stage-Going P cmd c h);
  on_complete = λ device cmd c h. h;
  on_incomplete = λ device cmd b c e h. tt;
  on_done = λ hr device cmd c s cc_us e h. record_completion-Going cmd s cc_us c h;
}

-- What the detector does when the counters agree: the first call only sets the time of the last
-- warning, a call within 60 s of it does nothing, and any later call warns.
abbrev pub warns_by_time : VdiClient → ℕ → VdiClient
warns_by_time c now =
    if c.last_stall_warn_us == 0
    then record c { last_stall_warn_us = now }
    else if ltb (sub64 now c.last_stall_warn_us) (stall_warn_ms * 1000)
    then c
    else record c {
      calls = stall_warning c.metrics.total_bytes ∷ c.calls;
      last_stall_warn_us = now;
    }

check_stall_lem : (c : VdiClient) (now : ℕ) → InStep c → check_stall c now ≡ warns_by_time c now
unfolding check_stall
check_stall_lem c now h = ground arith

-- In any state in which the loop is still running, after any number of rounds from a state whose
-- byte counter equals the detector's copy (a new session has 0 in both), the detector's branch
-- for progress is never taken: whether it warns depends on the clock alone, so it reports "no
-- byte progress" 60 s after the session's start or the last warning, also when bytes have been
-- written since.
pub check_stall-run_loop :
    (P : Platform) (fuel start : ℕ) (devices : List ℕ) (c : VdiClient) (now : ℕ)
    → InStep c
    → let (outcome, c1) = run_loop P fuel start devices c in
      outcome ≡ out_of_fuel → check_stall c1 now ≡ warns_by_time c1 now
check_stall-run_loop P fuel start devices c now h e = check_stall_lem c1 now (
    subst (λ o. Going (flow_of o) c1) e
      (run_loop_rule P Going Holds Holds (λ hr. Holds) (Going-Stages P) fuel start devices c h))
  where
    c1 : VdiClient
    c1 = (run_loop P fuel start devices c).1
