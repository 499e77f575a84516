-- ===== src/Client/Accounting/Sizes.antt =====
-- The counters of the metrics against the commands that the server has sent.
use Prim.Native.Nat.{min, max}
use vdi_cpp_wrapper.Prelude.{
  ℕ, ◌+◌, ◌%◌, ◌≡◌, refl, sym, ◌∙◌, subst, List, [], ◌∷◌, Option, none, some, true, false, arith,
  ◌==◌, if◌then◌else◌, u64_mod, uint64_max,
}
use vdi_cpp_wrapper.Protocol.{
  Command, failed_result, close_request, failed, vdc_write, dispatch_command,
}
use vdi_cpp_wrapper.World.{Trace, Platform, get_command}
use vdi_cpp_wrapper.Metrics
use vdi_cpp_wrapper.Metrics.{Metrics}
use vdi_cpp_wrapper.Metrics.Counters.{update_min_lem, update_max_lem}
use vdi_cpp_wrapper.Client.{VdiClient, now_us}
use vdi_cpp_wrapper.Client.Chunk.{
  Flow, next, stop, crash, Times, receive, on_get_command_error, use_buffer, account_chunk,
  sink_stage, call_complete_command, record_completion,
}
use vdi_cpp_wrapper.Client.Loop.{run_loop}
use vdi_cpp_wrapper.Client.Rules.{AfterStore-all, Stages, run_loop_rule}
use vdi_cpp_wrapper.Client.Calls.{IsQuiet, sink_stage_rule, on_get_command_error_rule}
use vdi_cpp_wrapper.Client.Accounting.{store_chunk-SameBooks, on_get_command_error-SameBooks}

-- The bytes and the chunks of the VDC_Write commands, and the extremes of their sizes.
pub record Totals : Type 0 where
  pub bytes : ℕ
  pub chunks : ℕ
  pub smallest : ℕ
  pub largest : ℕ

abbrev pub no_totals : Totals
no_totals = record { bytes = 0; chunks = 0; smallest = uint64_max; largest = 0 }

abbrev pub add_chunk : ℕ → Totals → Totals
add_chunk size x = record {
  bytes = x.bytes + size;
  chunks = x.chunks + 1;
  smallest = min size x.smallest;
  largest = max size x.largest;
}

abbrev pub add_command : Command → Totals → Totals
add_command cmd x = if cmd.command_code == vdc_write then add_chunk cmd.size x else x

abbrev pub add_reply : ℕ → Option Command → Totals → Totals
add_reply hr none x = x
add_reply hr (some cmd) x = if failed hr then x else add_command cmd x

-- The totals of a history of calls.
unfoldable pub totals : Trace → Totals
totals [] = no_totals
totals (get_command device timeout hr o ∷ t) = add_reply hr o (totals t)
totals (_ ∷ t) = totals t

-- The counters show the totals, modulo 2^64 where they are sums.
abbrev pub Shows : Metrics → Totals → Type 0
Shows m x =
    (m.total_bytes ≡ x.bytes % u64_mod)
    × (m.chunk_count ≡ x.chunks % u64_mod)
    × (m.sum_chunk_sizes ≡ m.total_bytes)
    × (m.min_chunk_size ≡ x.smallest)
    × (m.max_chunk_size ≡ x.largest)

-- The metrics of the client show what it has received.
abbrev pub Metered : Flow → VdiClient → Type 0
Metered flow c = Shows c.metrics (totals c.calls)

-- All but the command at hand is counted.
abbrev Uncounted : ℕ → Command → VdiClient → Type 0
Uncounted device cmd c = (x : Totals) × Shows c.metrics x × (totals c.calls ≡ add_command cmd x)

abbrev Counted : ℕ → Command → VdiClient → Type 0
Counted device cmd c = Metered next c

pub totals-IsQuiet : (P : Platform) (x : Totals) → IsQuiet P (λ t. totals t ≡ x)
unfolding totals
totals-IsQuiet P x = record {
  on_clock = λ t e. e;
  on_write = λ t bytes e. e;
  on_flush = λ t e. e;
  on_warning = λ t n e. e;
}

account_chunk-Shows :
    (P : Platform) (size : ℕ) (c : VdiClient) (x : Totals)
    → Shows c.metrics x
    → Shows (account_chunk P size c).metrics (add_chunk size x)
unfolding account_chunk use_buffer Metrics.add_bytes Metrics.record_chunk_size
    Metrics.record_buffer_acquire Metrics.record_buffer_release
account_chunk-Shows P size c x h = ground (
  arith,
  update_min_lem (P.on_spurious_failures c.calls 0) size c.metrics.min_chunk_size,
  update_max_lem (P.on_spurious_failures c.calls 1) size c.metrics.max_chunk_size,
)

sink_stage-Shows :
    (P : Platform) (cmd : Command) (c : VdiClient) (x : Totals)
    → Shows c.metrics x
    → Shows (sink_stage P cmd cmd.command_code c).2.metrics (add_command cmd x)
unfolding sink_stage
sink_stage-Shows P cmd c x h = ground (
  arith,
  account_chunk-Shows P cmd.size c x h,
  store_chunk-SameBooks P cmd (account_chunk P cmd.size c),
)

sink_stage-Metered :
    (P : Platform) (device : ℕ) (cmd : Command) (c : VdiClient)
    → Uncounted device cmd c
    → Metered next (sink_stage P cmd cmd.command_code c).2
sink_stage-Metered P device cmd c (x, h, e) =
    subst (Shows (sink_stage P cmd cmd.command_code c).2.metrics)
      (sym (
        sink_stage_rule P (λ t. totals t ≡ add_command cmd x) (totals-IsQuiet P (add_command cmd x))
          cmd cmd.command_code c e))
      (sink_stage-Shows P cmd c x h)

-- The dispatch refuses no command, and ends the loop only for the sentinel, which is no write.
refuses_none : (cmd : Command) → (dispatch_command (some cmd)).1 ≡ failed_result → ⊥
unfolding dispatch_command
refuses_none cmd e = ground arith

closes_none_counted :
    (cmd : Command) (x : Totals)
    → (dispatch_command (some cmd)).1 ≡ close_request
    → add_command cmd x ≡ x
unfolding dispatch_command
closes_none_counted cmd x e = ground arith

add_reply-failed :
    (hr : ℕ) (o : Option Command) (x : Totals) → failed hr ≡ true → add_reply hr o x ≡ x
add_reply-failed hr none x e = refl
add_reply-failed hr (some cmd) x e = rw e

add_reply-some :
    (hr : ℕ) (o : Option Command) (cmd : Command) (x : Totals)
    → failed hr ≡ false
    → o ≡ some cmd
    → add_reply hr o x ≡ add_command cmd x
add_reply-some hr o cmd x e f = rw f (rw e)

-- Stage 1 leaves the metrics alone, and adds the reply to the totals.
receive_lem :
    (P : Platform) (device : ℕ) (c : VdiClient)
    → let (r, c1) = receive P device c in
      (c1.metrics ≡ c.metrics) × (totals c1.calls ≡ add_reply r.hr r.cmd (totals c.calls))
unfolding receive totals
receive_lem P device c = (refl, refl)

receive-Metered :
    (P : Platform) (device : ℕ) (c : VdiClient)
    → Metered next c
    → let (r, c1) = receive P device c in
      add_reply r.hr r.cmd (totals c.calls) ≡ totals c.calls → Metered next c1
receive-Metered P device c h e = let (same, grown) = receive_lem P device c in rw (same, grown, e) h

error-Metered :
    (P : Platform) (hr now : ℕ) (c : VdiClient)
    → Metered next c
    → Metered next (on_get_command_error P hr now c).1
error-Metered P hr now c h =
    let same = (on_get_command_error-SameBooks P hr now c).0 in
    let quiet =
      on_get_command_error_rule P (λ t. totals t ≡ totals c.calls)
        (totals-IsQuiet P (totals c.calls)) hr now c refl in
    rw (same, quiet) h

record_completion-Metered :
    (cmd : Command) (s : Times) (cc_us : ℕ) (c : VdiClient)
    → Metered next c
    → Metered next (record_completion cmd s cc_us c).1
unfolding record_completion Metrics.record_chunk_timing
record_completion-Metered cmd s cc_us c h = ground arith

Metered-Stages : (P : Platform) → Stages P Metered Uncounted Counted (λ hr. Counted)
unfolding now_us call_complete_command totals
Metered-Stages P = record {
  tick_held = λ device cmd c h. h;
  tick_stored = λ device cmd c h. h;
  tick_done = λ hr device cmd c h. h;
  on_error = λ device c h e.
      let (r, c1) = receive P device c in
      error-Metered P r.hr r.gc_end c1
        (receive-Metered P device c h (add_reply-failed r.hr r.cmd (totals c.calls) e));
  on_null = λ device c h e f. receive-Metered P device c h (rw f refl);
  on_command = λ device c h cmd e f.
      let (r, c1) = receive P device c in
      let (same, grown) = receive_lem P device c in
      (totals c.calls, rw same h, grown ∙ add_reply-some r.hr r.cmd cmd (totals c.calls) e f);
  on_refused = λ device cmd c h e. absurd (refuses_none cmd e);
  on_close = λ device cmd c h e. rw (h.2, closes_none_counted cmd h.0 e) h.1;
  on_store = λ device cmd c h.
      let m = sink_stage-Metered P device cmd c h in
      AfterStore-all (Metered stop) (Metered crash) (Counted device cmd)
        (sink_stage P cmd cmd.command_code c) m m m;
  on_complete = λ device cmd c h. h;
  on_incomplete = λ device cmd b c e h. h;
  on_done = λ hr device cmd c s cc_us e h. record_completion-Metered cmd s cc_us c h;
}

-- However the command loop ends, and while it runs, from a state whose counters show the history
-- so far (a new session's do): the byte and chunk counters are the sum of the sizes and the
-- number of all the VDC_Write commands that the server has sent, modulo 2^64, the running sum is
-- the byte counter, and the minimum and the maximum are those of the sizes. A chunk that is
-- refused or cannot be written is counted too.
pub run_loop-Metered :
    (P : Platform) (fuel start : ℕ) (devices : List ℕ) (c : VdiClient)
    → Shows c.metrics (totals c.calls)
    → let (outcome, c1) = run_loop P fuel start devices c in Shows c1.metrics (totals c1.calls)
run_loop-Metered P fuel start devices c h =
    run_loop_rule P Metered Uncounted Counted (λ hr. Counted) (Metered-Stages P) fuel start devices
      c h
