-- ===== src/Client/Faulted.antt =====
-- docs/operational-behavior.md, Fault Injection Testing: a session that is to fail after `n`
-- completed commands, in the build with FAULT_INJECTION_ENABLED.
pub mod Session
use vdi_cpp_wrapper.Prelude.{
  ℕ, suc, ◌+◌, ◌≤◌, ◌<◌, ◌≡◌, ◌≢◌, refl, sym, ap, ◌∙◌, subst, [], ◌∷◌, true, arith, leb, add64,
  u64_mod, if◌then◌else◌, if_elim,
}
use vdi_cpp_wrapper.Protocol.{Command, failed}
use vdi_cpp_wrapper.World.{Trace, Platform, complete_command, open_device}
use vdi_cpp_wrapper.Faults.{
  Counters, FaultInjector, enabled, on_chunk_completed, chunk_count, set_fail_after_n_chunks,
}
use vdi_cpp_wrapper.Faults
use vdi_cpp_wrapper.Errors.State.{SessionState, failed_state, is_flushing}
use vdi_cpp_wrapper.Client.{VdiClient, fail, now_us}
use vdi_cpp_wrapper.Client.Lifecycle.{close}
use vdi_cpp_wrapper.Client.Chunk.{
  Flow, next, stop, crash, Times, receive, on_get_command_error, sink_stage, call_complete_command,
  record_completion,
}
use vdi_cpp_wrapper.Client.Loop.{start_session, process_commands}
use vdi_cpp_wrapper.Client.Rules.{AfterStore-all, Stages, run_loop_rule}
use vdi_cpp_wrapper.Client.Calls.{
  IsQuiet, flush_sink_rule, on_get_command_error_rule, sink_stage_rule,
}
use vdi_cpp_wrapper.Client.Accounting.Timings.{
  sink_stage-SameParts, flush_sink-injector, on_get_command_error-injector,
}
use vdi_cpp_wrapper.Client.Session.Parts.{Parts, process_parts_rule}

-- The commands that were completed.
unfoldable pub completions : Trace → ℕ
completions [] = 0
completions (complete_command device cmd code n position hr ∷ t) =
    if failed hr then completions t else suc (completions t)
completions (_ ∷ t) = completions t

pub completions-IsQuiet : (P : Platform) (k : ℕ) → IsQuiet P (λ t. completions t ≡ k)
unfolding completions
completions-IsQuiet P k = record {
  on_clock = λ t e. e;
  on_write = λ t bytes e. e;
  on_flush = λ t e. e;
  on_warning = λ t n e. e;
}

-- The injector is to fail at `n` and has counted `k`.
abbrev pub Armed : ℕ → ℕ → FaultInjector → Type 0
Armed n k f =
    (cs : Counters) × (f ≡ enabled cs) × (cs.fail_after_n_chunks ≡ n) × (cs.chunk_counter ≡ k)

-- `b` commands had been completed before. Fewer than `n` have been since.
abbrev pub Going : ℕ → ℕ → VdiClient → Type 0
Going n b c = (k : ℕ) × Armed n k c.fault_injector × (completions c.calls ≡ b + k) × (k < n)

-- `n` at most, and with the last of them the session has failed.
abbrev pub Stopped : ℕ → ℕ → VdiClient → Type 0
Stopped n b c =
    (k : ℕ) × Armed n k c.fault_injector
    × (completions c.calls ≡ b + k)
    × (k ≤ n)
    × (k ≡ n → c.state ≡ failed_state)

abbrev pub By : ℕ → ℕ → Flow → VdiClient → Type 0
By n b next c = Going n b c
By n b stop c = Stopped n b c
By n b crash c = Going n b c

abbrev pub Holding : ℕ → ℕ → ℕ → Command → VdiClient → Type 0
Holding n b device cmd c = Going n b c

-- CompleteCommand has been called, and the injector has not been asked yet.
abbrev pub Done : ℕ → ℕ → ℕ → ℕ → Command → VdiClient → Type 0
Done n b hr device cmd c =
    (k : ℕ) × Armed n k c.fault_injector
    × (completions c.calls ≡ (if failed hr then b + k else b + k + 1))
    × (k < n)

pub Going-Stopped : (n b : ℕ) (c : VdiClient) → Going n b c → Stopped n b c
Going-Stopped n b c (k, a, e, lt) = (k, a, e, omega arith, λ f. absurd (omega arith))

pub Going-By : (n b : ℕ) (flow : Flow) (c : VdiClient) → Going n b c → By n b flow c
Going-By n b next c h = h
Going-By n b stop c h = Going-Stopped n b c h
Going-By n b crash c h = h

pub carries_over :
    (n b : ℕ) (c d : VdiClient)
    → d.fault_injector ≡ c.fault_injector
    → completions d.calls ≡ completions c.calls
    → Going n b c
    → Going n b d
carries_over n b c d f e (k, a, g, lt) = (k, subst (Armed n k) (sym f) a, omega arith, lt)

pub chunk_count-Armed : (n k : ℕ) (f : FaultInjector) → Armed n k f → chunk_count f ≡ k
unfolding chunk_count
chunk_count-Armed n k f (cs, e, m, r) = ap chunk_count e ∙ r

-- The injector counts the command and answers whether it is the last one allowed.
enabled_answers :
    (n k : ℕ) (cs : Counters)
    → cs.fail_after_n_chunks ≡ n
    → cs.chunk_counter ≡ k
    → k < n
    → n < u64_mod
    → let (triggered, g) = on_chunk_completed (enabled cs) in
      (triggered ≡ leb n (k + 1)) × Armed n (k + 1) g
unfolding on_chunk_completed
enabled_answers n k cs m r lt w =
    let cs1 = record cs { chunk_counter = add64 cs.chunk_counter 1 } in
    let g : (on_chunk_completed (enabled cs)).1 ≡ enabled cs1 = ground arith in
    (ground arith, (cs1, g, m, omega (arith, r)))

on_chunk_completed-Armed :
    (n k : ℕ) (f : FaultInjector)
    → Armed n k f
    → k < n
    → n < u64_mod
    → let (triggered, g) = on_chunk_completed f in (triggered ≡ leb n (k + 1)) × Armed n (k + 1) g
on_chunk_completed-Armed n k f (cs, e, m, r) lt w =
    subst
      (λ h.
        let (triggered, g) = on_chunk_completed h in
        (triggered ≡ leb n (k + 1)) × Armed n (k + 1) g)
      (sym e) (enabled_answers n k cs m r lt w)

pub record_completion-By :
    (n b : ℕ) (cmd : Command) (s : Times) (cc_us : ℕ) (c : VdiClient) (k : ℕ)
    → n < u64_mod
    → Armed n k c.fault_injector
    → completions c.calls ≡ b + k + 1
    → k < n
    → let (flow, d) = record_completion cmd s cc_us c in By n b flow d
unfolding record_completion
record_completion-By n b cmd s cc_us c k w a e lt =
    let (answer, armed) = on_chunk_completed-Armed n k c.fault_injector a lt w in
    if_elim (λ (q : Flow × VdiClient). By n b q.0 q.1) (on_chunk_completed c.fault_injector).0
      (λ t. (k + 1, armed, omega (arith, e), omega (arith, lt), λ _. refl))
      (λ t. (k + 1, armed, omega (arith, e), ground arith))
