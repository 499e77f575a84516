-- ===== src/Client/FailFast.antt =====
-- docs/operational-behavior.md, Retry Policy: nothing is tried again after a failure; only a
-- timeout of GetCommand is followed by another call.
use vdi_cpp_wrapper.Prelude.{
  ℕ, suc, ◌≡◌, refl, sym, subst, ◌⊎◌, inl, inr, [], ◌∷◌, Bool, true, false, arith, ◌&&◌, ◌||◌, ◌==◌,
  not, if◌then◌else◌,
}
use vdi_cpp_wrapper.Protocol.{Command, failed, vd_e_timeout}
use vdi_cpp_wrapper.World.{
  Event, Trace, Platform, co_initialize_ex, create_instance, create_ex, get_configuration,
  open_device, get_command, complete_command,
}
use vdi_cpp_wrapper.Errors.State.{SessionState, flushing, failed_state, closed}
use vdi_cpp_wrapper.Client.{VdiClient, fail, now_us}
use vdi_cpp_wrapper.Client.Stall.{check_stall}
use vdi_cpp_wrapper.Client.Chunk.{
  Flow, next, stop, crash, receive, on_get_command_error, sink_stage, call_complete_command,
  record_completion,
}
use vdi_cpp_wrapper.Client.Rules.{AfterStore-all, Stages}
use vdi_cpp_wrapper.Client.Calls.{
  IsQuiet, flush_sink_rule, sink_stage_rule, calls-record_completion,
}
use vdi_cpp_wrapper.Client.Session.Loop.{flush_sink-Fields}

-- The calls that can fail and be tried again.
abbrev pub is_attempt : Event → Bool
is_attempt (co_initialize_ex hr) = true
is_attempt (create_instance hr) = true
is_attempt (create_ex config hr) = true
is_attempt (get_configuration timeout hr) = true
is_attempt (open_device i hr) = true
is_attempt (get_command device timeout hr cmd) = true
is_attempt (complete_command device cmd code n position hr) = true
is_attempt _ = false

-- A failure of these, except a timeout of GetCommand.
abbrev pub is_failure : Event → Bool
is_failure (co_initialize_ex hr) = failed hr
is_failure (create_instance hr) = failed hr
is_failure (create_ex config hr) = failed hr
is_failure (get_configuration timeout hr) = failed hr
is_failure (open_device i hr) = failed hr
is_failure (get_command device timeout hr cmd) = failed hr && not (hr == vd_e_timeout)
is_failure (complete_command device cmd code n position hr) = failed hr
is_failure _ = false

unfoldable pub any_failed : Trace → Bool
any_failed [] = false
any_failed (e ∷ t) = is_failure e || any_failed t

-- The attempts that were made after a failure.
unfoldable pub retries : Trace → ℕ
retries [] = 0
retries (e ∷ t) = if is_attempt e && any_failed t then suc (retries t) else retries t

abbrev pub History : Bool → Trace → Type 0
History b t = (any_failed t ≡ b) × (retries t ≡ 0)

pub History-IsQuiet : (P : Platform) (b : Bool) → IsQuiet P (History b)
unfolding any_failed retries
History-IsQuiet P b = record {
  on_clock = λ t h. h;
  on_write = λ t bytes h. h;
  on_flush = λ t h. h;
  on_warning = λ t n h. h;
}

-- The states in which no further attempt is made.
abbrev pub IsOver : SessionState → Type 0
IsOver s = (s ≡ flushing) ⊎ ((s ≡ failed_state) ⊎ (s ≡ closed))

-- Nothing was tried again, and after a failure nothing will be.
abbrev pub Fast : VdiClient → Type 0
Fast c = (retries c.calls ≡ 0) × (any_failed c.calls ≡ true → IsOver c.state)

abbrev pub FastBy : Flow → VdiClient → Type 0
FastBy next c = History false c.calls
FastBy stop c = Fast c
FastBy crash c = History false c.calls

abbrev pub Clean : ℕ → Command → VdiClient → Type 0
Clean device cmd c = History false c.calls

abbrev pub Completed : ℕ → ℕ → Command → VdiClient → Type 0
Completed hr device cmd c = History (failed hr) c.calls

receive-History :
    (P : Platform) (device : ℕ) (c : VdiClient)
    → History false c.calls
    → let (r, c1) = receive P device c in
      History (failed r.hr && not (r.hr == vd_e_timeout)) c1.calls
unfolding receive any_failed retries
receive-History P device c h = ground arith

on_error-FastBy :
    (P : Platform) (hr now : ℕ) (c : VdiClient)
    → failed hr ≡ true
    → History (failed hr && not (hr == vd_e_timeout)) c.calls
    → let (flow, d) = on_get_command_error P hr now c in FastBy flow d
unfolding on_get_command_error check_stall any_failed retries
on_error-FastBy P hr now c f h =
    let b = failed hr && not (hr == vd_e_timeout) in
    let c1 = record c { state = flushing } in
    ground (arith, flush_sink_rule P (History b) (History-IsQuiet P b) c1 h, flush_sink-Fields P c1)

pub fails_over : (c : VdiClient) → retries c.calls ≡ 0 → Fast (fail c)
fails_over c h = (h, λ _. inr (inl refl))

pub clean_stop : (c : VdiClient) → History false c.calls → Fast c
clean_stop c h = (h.1, λ e. absurd (cc (e, h.0)))

clean_flow : (flow : Flow) (c : VdiClient) → History false c.calls → FastBy flow c
clean_flow next c h = h
clean_flow stop c h = clean_stop c h
clean_flow crash c h = h

pub FastBy-Stages : (P : Platform) → Stages P FastBy Clean Clean Completed
unfolding now_us call_complete_command any_failed retries
FastBy-Stages P = record {
  tick_held = λ device cmd c h. h;
  tick_stored = λ device cmd c h. h;
  tick_done = λ hr device cmd c h. h;
  on_error = λ device c h e.
      let (r, c1) = receive P device c in
      on_error-FastBy P r.hr r.gc_end c1 e (receive-History P device c h);
  on_null = λ device c h e f. ground (arith, receive-History P device c h);
  on_command = λ device c h cmd e f. ground (arith, receive-History P device c h);
  on_refused = λ device cmd c h _. fails_over c h.1;
  on_close = λ device cmd c h _. clean_stop c h;
  on_store = λ device cmd c h.
      let q = sink_stage P cmd cmd.command_code c in
      let h1 =
        sink_stage_rule P (History false) (History-IsQuiet P false) cmd cmd.command_code c h in
      AfterStore-all Fast (FastBy crash) (Clean device cmd) q (clean_stop q.2 h1) h1 h1;
  on_complete = λ device cmd c h. ground arith;
  on_incomplete = λ device cmd b c e h. fails_over c h.1;
  on_done = λ hr device cmd c s cc_us e h.
      let (flow, d) = record_completion cmd s cc_us c in
      let h1 = subst (History (failed hr)) (sym (calls-record_completion cmd s cc_us c)) h in
      clean_flow flow d (subst (λ b. History b d.calls) e h1);
}
