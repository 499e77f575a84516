-- ===== src/Client/Safety.antt =====
-- The write stage dereferences the sink's pointer with no test of its own: sessions with a sink.
pub mod Writes
pub mod Crash
use vdi_cpp_wrapper.Prelude.{
  ℕ, zero, suc, ◌+◌, ◌≡◌, ◌≢◌, refl, sym, ◌∙◌, List, [], ◌∷◌, ◌++◌, none, Bool, arith, not, if_elim,
  Option-cases, inl, inr, ◌==◌,
}
use vdi_cpp_wrapper.Protocol.{Command, vdc_write, failed}
use vdi_cpp_wrapper.World.{Platform}
use vdi_cpp_wrapper.Errors.State.{is_streaming}
use vdi_cpp_wrapper.Client.{VdiClient, now_us}
use vdi_cpp_wrapper.Client.Lifecycle.{flush_sink}
use vdi_cpp_wrapper.Client.Stall.{check_stall}
use vdi_cpp_wrapper.Client.Chunk.{
  Flow, stop, crash, Times, receive, on_get_command_error, use_buffer, account_chunk, write_chunk,
  store_chunk, sink_stage, call_complete_command, record_completion,
}
use vdi_cpp_wrapper.Client.Loop.{
  Outcome, returned, crashed, out_of_fuel, open_all, dev_count, run_loop, finish, start_session,
  serve, process_commands,
}
use vdi_cpp_wrapper.Client.Rules.{AfterStore, Stages, flow_of, run_loop_rule}

-- The session has a sink.
abbrev pub HasSink : VdiClient → Type 0
HasSink c = c.sink ≢ none

abbrev Runs : Flow → VdiClient → Type 0
Runs f c = (f ≢ crash) × HasSink c

abbrev Keeps : ℕ → Command → VdiClient → Type 0
Keeps device cmd c = HasSink c

on_get_command_error-Runs :
    (P : Platform) (hr now : ℕ) (c : VdiClient)
    → HasSink c
    → Runs (on_get_command_error P hr now c).0 (on_get_command_error P hr now c).1
unfolding on_get_command_error flush_sink check_stall
on_get_command_error-Runs P hr now c h = elim (Option-cases c.sink) [
  | inl e ↦ absurd (h e)
  | inr (k, e) ↦ ground (arith, e)
]

write_chunk-Runs :
    (P : Platform) (cmd : Command) (c : VdiClient)
    → HasSink c
    → AfterStore (Runs stop) (Runs crash) HasSink (store_chunk P cmd c)
unfolding store_chunk write_chunk
write_chunk-Runs P cmd c h = elim (Option-cases c.sink) [
  | inl e ↦ absurd (h e)
  | inr (k, e) ↦ ground (arith, e)
]

account_chunk-HasSink :
    (P : Platform) (size : ℕ) (c : VdiClient) → HasSink c → HasSink (account_chunk P size c)
unfolding account_chunk use_buffer
account_chunk-HasSink P size c h = ground arith

sink_stage-Runs :
    (P : Platform) (cmd : Command) (c : VdiClient)
    → HasSink c
    → AfterStore (Runs stop) (Runs crash) HasSink (sink_stage P cmd cmd.command_code c)
unfolding sink_stage
sink_stage-Runs P cmd c h =
    if_elim (AfterStore (Runs stop) (Runs crash) HasSink) (cmd.command_code == vdc_write)
      (λ _.
        write_chunk-Runs P cmd (account_chunk P cmd.size c) (account_chunk-HasSink P cmd.size c h))
      (λ _. h)

record_completion-Runs :
    (cmd : Command) (s : Times) (cc_us : ℕ) (c : VdiClient)
    → HasSink c
    → Runs (record_completion cmd s cc_us c).0 (record_completion cmd s cc_us c).1
unfolding record_completion
record_completion-Runs cmd s cc_us c h = ground arith

Runs-Stages : (P : Platform) → Stages P Runs Keeps Keeps (λ hr. Keeps)
unfolding now_us call_complete_command receive
Runs-Stages P = record {
  tick_held = λ device cmd c h. h;
  tick_stored = λ device cmd c h. h;
  tick_done = λ hr device cmd c h. h;
  on_error = λ device c h e.
      let (r, c1) = receive P device c in on_get_command_error-Runs P r.hr r.gc_end c1 h.1;
  on_null = λ device c h e f. h;
  on_command = λ device c h cmd e f. h.1;
  on_refused = λ device cmd c h _. (λ e. cc e, h);
  on_close = λ device cmd c h _. (λ e. cc e, h);
  on_store = λ device cmd c h. sink_stage-Runs P cmd c h;
  on_complete = λ device cmd c h. h;
  on_incomplete = λ device cmd b c e h. (λ e. cc e, h);
  on_done = λ hr device cmd c s cc_us e h. record_completion-Runs cmd s cc_us c h;
}

abbrev Safe : Outcome × VdiClient → Type 0
Safe q = q.0 ≢ crashed

serve-Safe :
    (P : Platform) (fuel : ℕ) (devices : List ℕ) (c : VdiClient)
    → HasSink c
    → Safe (serve P fuel devices c)
unfolding serve start_session
serve-Safe P fuel devices c h =
    let (start, c1) = start_session P c in
    let (outcome, c2) = run_loop P fuel start devices c1 in
    ended outcome c2
      (run_loop_rule P Runs Keeps Keeps (λ hr. Keeps) (Runs-Stages P) fuel start devices c1
        (λ e. cc e, h)).0
  where
    ended :
        (outcome : Outcome) (c2 : VdiClient)
        → flow_of outcome ≢ crash
        → Safe (elim outcome [
          | returned ↦ (returned, finish P devices c2)
          | crashed ↦ (crashed, c2)
          | out_of_fuel ↦ (out_of_fuel, c2)
        ])
    ended returned c2 d = λ e. cc e
    ended crashed c2 d = λ e. d refl
    ended out_of_fuel c2 d = λ e. cc e

open_all-sink :
    (P : Platform) (n i : ℕ) (devices : List ℕ) (c : VdiClient)
    → (open_all P n i devices c).2.sink ≡ c.sink
unfolding open_all
open_all-sink P zero i devices c = refl
open_all-sink P (suc n) i devices c =
    if_elim (λ (q : Bool × List ℕ × VdiClient). q.2.sink ≡ c.sink)
      (failed (P.on_open_device c.calls i)) (λ _. refl)
      (λ _. open_all-sink P n (i + 1) (devices ++ i ∷ []) _)

pub process_commands_runs :
    (P : Platform) (fuel : ℕ) (c : VdiClient) → HasSink c → (process_commands P fuel c).0 ≢ crashed
unfolding process_commands
process_commands_runs P fuel c h =
    let q = open_all P (dev_count c.device_count) 0 [] c in
    if_elim Safe (not (is_streaming c.state)) (λ _ e. cc e)
      (λ _.
        if_elim Safe (not c.device_set) (λ _ e. cc e)
          (λ _.
            if_elim Safe (not q.0) (λ _ e. cc e)
              (λ _.
                serve-Safe P fuel q.1 q.2
                  (λ e. h (sym (open_all-sink P (dev_count c.device_count) 0 [] c) ∙ e)))))
