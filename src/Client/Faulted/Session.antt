-- ===== src/Client/Faulted/Session.antt =====
-- The stages of the loop and process_commands as a whole, with an injector that is to fail.
use vdi_cpp_wrapper.Prelude.{
  ℕ, ◌+◌, ◌≤◌, ◌<◌, ◌≡◌, ◌≢◌, refl, sym, subst, ◌∷◌, true, arith, u64_mod,
}
use vdi_cpp_wrapper.World.{Platform, open_device}
use vdi_cpp_wrapper.Faults.{
  Counters, FaultInjector, enabled, on_chunk_completed, chunk_count, set_fail_after_n_chunks,
}
use vdi_cpp_wrapper.Faults
use vdi_cpp_wrapper.Errors.State.{SessionState, failed_state, is_flushing}
use vdi_cpp_wrapper.Client.{VdiClient, fail, now_us}
use vdi_cpp_wrapper.Client.Lifecycle.{close}
use vdi_cpp_wrapper.Client.Chunk.{
  crash, receive, on_get_command_error, sink_stage, call_complete_command,
}
use vdi_cpp_wrapper.Client.Loop.{start_session, process_commands}
use vdi_cpp_wrapper.Client.Rules.{AfterStore-all, Stages, run_loop_rule}
use vdi_cpp_wrapper.Client.Calls.{flush_sink_rule, on_get_command_error_rule, sink_stage_rule}
use vdi_cpp_wrapper.Client.Accounting.Timings.{
  sink_stage-SameParts, flush_sink-injector, on_get_command_error-injector,
}
use vdi_cpp_wrapper.Client.Session.Parts.{Parts, process_parts_rule}
use vdi_cpp_wrapper.Client.Faulted.{
  completions, completions-IsQuiet, Armed, chunk_count-Armed, Going, Stopped, By, Holding, Done,
  Going-Stopped, Going-By, carries_over, record_completion-By,
}

By-Stages :
    (P : Platform) (n b : ℕ)
    → n < u64_mod
    → Stages P (By n b) (Holding n b) (Holding n b) (Done n b)
unfolding now_us call_complete_command receive completions
By-Stages P n b w = record {
  tick_held = λ device cmd c h. h;
  tick_stored = λ device cmd c h. h;
  tick_done = λ hr device cmd c h. h;
  on_error = λ device c h e.
      let (r, c1) = receive P device c in
      let quiet = completions-IsQuiet P (completions c1.calls) in
      let (flow, d) = on_get_command_error P r.hr r.gc_end c1 in
      Going-By n b flow d (
        carries_over n b c1 d (on_get_command_error-injector P r.hr r.gc_end c1)
          (on_get_command_error_rule P (λ t. completions t ≡ completions c1.calls) quiet r.hr
            r.gc_end c1 refl)
          h);
  on_null = λ device c h e f. h;
  on_command = λ device c h cmd e f. h;
  on_refused = λ device cmd c h _. Going-Stopped n b (fail c) h;
  on_close = λ device cmd c h _. Going-Stopped n b c h;
  on_store = λ device cmd c h.
      let quiet = completions-IsQuiet P (completions c.calls) in
      let q = sink_stage P cmd cmd.command_code c in
      let h1 =
        carries_over n b c q.2 (sink_stage-SameParts P cmd c).0
          (sink_stage_rule P (λ t. completions t ≡ completions c.calls) quiet cmd cmd.command_code c
            refl)
          h in
      AfterStore-all (Stopped n b) (By n b crash) (Holding n b device cmd) q
        (Going-Stopped n b q.2 h1) h1 h1;
  on_complete = λ device cmd c (k, a, e, lt). (k, a, ground arith, lt);
  on_incomplete =
      λ device cmd b1 c f (k, a, e, lt). Going-Stopped n b (fail c) (k, a, ground arith, lt);
  on_done = λ hr device cmd c s cc_us f (k, a, e, lt).
      record_completion-By n b cmd s cc_us c k w a (ground arith) lt;
}

close_keeps :
    (P : Platform) (c : VdiClient)
    → ((close P c).fault_injector ≡ c.fault_injector)
      × (completions (close P c).calls ≡ completions c.calls)
unfolding close completions
close_keeps P c =
    let quiet = completions-IsQuiet P (completions c.calls) in
    ground (
      arith,
      flush_sink-injector P c,
      flush_sink_rule P (λ t. completions t ≡ completions c.calls) quiet c refl,
    )

not_both : (s : SessionState) → is_flushing s ≡ true → s ≢ failed_state
not_both s e f = ground arith

close-Stopped :
    (P : Platform) (n b : ℕ) (c : VdiClient)
    → is_flushing c.state ≡ true
    → Stopped n b c
    → Stopped n b (close P c)
close-Stopped P n b c e (k, a, f, le, last) =
    let (same, kept) = close_keeps P c in
    (
      k,
      subst (Armed n k) (sym same) a,
      omega (arith, kept, f),
      le,
      λ g. absurd (not_both c.state e (last g)),
    )

Stopped-Parts : (P : Platform) (n b : ℕ) → n < u64_mod → Parts P (Going n b) (By n b) (Stopped n b)
unfolding start_session completions
Stopped-Parts P n b w = record {
  on_open = λ c i hr e h. h;
  on_unopened =
      λ c i hr e h. Going-Stopped n b (fail (record c { calls = open_device i hr ∷ c.calls })) h;
  on_start = λ c h. h;
  on_loop = λ fuel start devices c h.
      run_loop_rule P (By n b) (Holding n b) (Holding n b) (Done n b) (By-Stages P n b w) fuel start
        devices c h;
  on_returned = λ c h. h;
  on_crashed = λ c h. Going-Stopped n b c h;
  on_out_of_fuel = λ c h. Going-Stopped n b c h;
  on_release = λ c device h. h;
  on_close = λ c e h. close-Stopped P n b c e h;
}

-- After set_fail_after_n_chunks n on a new injector, in the test build (0 < n < 2^64): in
-- process_commands, whatever the server and the disk do and however it ends, at most `n` commands
-- are completed, chunk_count is their number, and with the n-th the session is FAILED.
pub process_commands_faulted :
    (P : Platform) (fuel n : ℕ) (c : VdiClient)
    → 0 < n
    → n < u64_mod
    → c.fault_injector ≡ set_fail_after_n_chunks Faults.new n
    → let d = (process_commands P fuel c).1 in
      let k = chunk_count d.fault_injector in
      (completions d.calls ≡ completions c.calls + k) × (k ≤ n) × (k ≡ n → d.state ≡ failed_state)
unfolding set_fail_after_n_chunks
process_commands_faulted P fuel n c h w e =
    let b = completions c.calls in
    let going : Going n b c = (0, (_, e, refl, refl), omega arith, h) in
    let (k, a, f, le, last) =
      process_parts_rule P (Going n b) (By n b) (Stopped n b) (Stopped-Parts P n b w) fuel c
        (Going-Stopped n b c going) (λ _ _. going) in
    subst
      (λ m.
        (completions (process_commands P fuel c).1.calls ≡ b + m)
        × (m ≤ n)
        × (m ≡ n → (process_commands P fuel c).1.state ≡ failed_state))
      (sym (chunk_count-Armed n k (process_commands P fuel c).1.fault_injector a)) (f, le, last)
