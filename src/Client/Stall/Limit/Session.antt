-- ===== src/Client/Stall/Limit/Session.antt =====
-- The stages of the loop and process_commands as a whole, by a clock that does not run backwards.
use vdi_cpp_wrapper.Prelude.{
  ℕ, ◌+◌, ◌*◌, ◌≤◌, ◌<◌, ◌≡◌, refl, sym, subst, ◌∷◌, arith, ◌==◌, if_elim, u64_mod,
}
use vdi_cpp_wrapper.Protocol.{vd_e_close, vd_e_eof, vd_e_timeout}
use vdi_cpp_wrapper.World.{Platform, read_clock, get_command}
use vdi_cpp_wrapper.Errors.State.{flushing}
use vdi_cpp_wrapper.Client.{VdiClient, now_us, stall_warn_ms}
use vdi_cpp_wrapper.Client.Lifecycle.{flush_sink, close}
use vdi_cpp_wrapper.Client.Chunk.{
  Flow, receive, on_get_command_error, sink_stage, call_complete_command, record_completion,
}
use vdi_cpp_wrapper.Client.Loop.{start_session, process_commands}
use vdi_cpp_wrapper.Client.Rules.{AfterStore-all, Stages, run_loop_rule}
use vdi_cpp_wrapper.Client.Calls.{
  IsSteady, flush_steadily, sink_stage_steadily, calls-record_completion,
}
use vdi_cpp_wrapper.Client.Session.Parts.{Parts, process_parts_rule}
use vdi_cpp_wrapper.Client.Stall.Limit.{
  warnings, latest, IsClock, Since, Limited, LimitedFlow, LimitedAt, Rare, check_stall-Limited,
  last_stall_warn_us-flush_sink, last_stall_warn_us-sink_stage,
  last_stall_warn_us-record_completion,
}

module _ (P : Platform) (K : IsClock P) (s v : ℕ) where
  Since-IsSteady : (k m : ℕ) → IsSteady P (Since k m)
  unfolding warnings latest
  Since-IsSteady k m = record {
    on_clock = λ t h. (h.0, omega (arith, h.1, K.mono t h.2), K.fits t);
    on_write = λ t bytes h. h;
    on_flush = λ t h. h;
  }

  fits_of : (c : VdiClient) → Limited s v c → latest c.calls < u64_mod
  fits_of c (w, n, low, high, top) = top

  -- A part that leaves the last warning alone, warns of nothing and does not turn the clock back.
  steadily :
      (c d : VdiClient)
      → d.last_stall_warn_us ≡ c.last_stall_warn_us
      → Since (warnings c.calls) (latest c.calls) d.calls
      → Limited s v c
      → Limited s v d
  steadily c d e (f, g, top) (w, n, low, high, _) = (w, omega arith, omega arith, omega arith, top)

  flush_sink-Limited : (c : VdiClient) → Limited s v c → Limited s v (flush_sink P c)
  flush_sink-Limited c h =
      steadily c (flush_sink P c) (last_stall_warn_us-flush_sink P c)
        (flush_steadily P _ (Since-IsSteady (warnings c.calls) (latest c.calls)) c
          (refl, omega arith, fits_of c h))
        h

  now_us-Limited : (c : VdiClient) → Limited s v c → Limited s v (now_us P c).1
  unfolding now_us warnings latest
  now_us-Limited c (w, n, low, high, top) =
      (w, n, low, omega (arith, high, K.mono c.calls top), K.fits c.calls)

  receive-Limited :
      (device : ℕ) (c : VdiClient)
      → Limited s v c
      → let (r, c1) = receive P device c in Limited s v c1 × (r.gc_end ≡ latest c1.calls)
  unfolding receive warnings latest
  receive-Limited device c (w, n, low, high, top) =
      let t1 = read_clock (P.on_now_us c.calls) ∷ c.calls in
      let (hr, cmd) = P.on_get_command t1 device c.command_timeout_ms in
      let t2 = get_command device c.command_timeout_ms hr cmd ∷ t1 in
      let later : latest t2 ≤ P.on_now_us t2 = K.mono t2 (K.fits c.calls) in
      ((w, n, low, omega (arith, high, K.mono c.calls top, later), K.fits t2), refl)

  on_error-Limited :
      (hr now : ℕ) (c : VdiClient)
      → now ≡ latest c.calls
      → Limited s v c
      → Limited s v (on_get_command_error P hr now c).1
  unfolding on_get_command_error
  on_error-Limited hr now c e h =
      let flushed = flush_sink-Limited (record c { state = flushing }) h in
      let After = λ (q : Flow × VdiClient). Limited s v q.1 in
      if_elim After (hr == vd_e_close) (λ _. flushed)
        (λ _.
          if_elim After (hr == vd_e_eof) (λ _. flushed)
            (λ _.
              if_elim After (hr == vd_e_timeout) (λ _. check_stall-Limited s v now c e h) (λ _. h)))

  Limited-Stages : Stages P (LimitedFlow s v) (LimitedAt s v) (LimitedAt s v) (λ hr. LimitedAt s v)
  unfolding call_complete_command warnings latest
  Limited-Stages = record {
    tick_held = λ device cmd c h. now_us-Limited c h;
    tick_stored = λ device cmd c h. now_us-Limited c h;
    tick_done = λ hr device cmd c h. now_us-Limited c h;
    on_error = λ device c h e.
        let (r, c1) = receive P device c in
        let (h1, last) = receive-Limited device c h in on_error-Limited r.hr r.gc_end c1 last h1;
    on_null = λ device c h e f. (receive-Limited device c h).0;
    on_command = λ device c h cmd e f. (receive-Limited device c h).0;
    on_refused = λ device cmd c h e. h;
    on_close = λ device cmd c h e. h;
    on_store = λ device cmd c h.
        let q = sink_stage P cmd cmd.command_code c in
        let h1 =
          steadily c q.2 (last_stall_warn_us-sink_stage P cmd cmd.command_code c)
            (sink_stage_steadily P _ (Since-IsSteady (warnings c.calls) (latest c.calls)) cmd
              cmd.command_code c (refl, omega arith, fits_of c h))
            h in
        AfterStore-all (Limited s v) (Limited s v) (Limited s v) q h1 h1 h1;
    on_complete = λ device cmd c h. h;
    on_incomplete = λ device cmd b c e h. h;
    on_done = λ hr device cmd c times cc_us e h.
        let d = (record_completion cmd times cc_us c).1 in
        steadily c d (last_stall_warn_us-record_completion cmd times cc_us c)
          (subst (Since (warnings c.calls) (latest c.calls))
            (sym (calls-record_completion cmd times cc_us c)) (refl, omega arith, fits_of c h))
          h;
  }

  close-Rare : (c : VdiClient) → Rare s v c → Rare s v (close P c)
  unfolding close warnings latest
  close-Rare c (w, n, low, top) =
      let flushed =
        flush_steadily P _ (Since-IsSteady (warnings c.calls) (latest c.calls)) c
          (refl, omega arith, top) in
      (w, ground (arith, flushed), ground (arith, flushed), ground (arith, flushed))

  Limited-Rare : (c : VdiClient) → Limited s v c → Rare s v c
  Limited-Rare c (w, n, low, high, top) = (w, n, omega arith, top)

  Rare-Parts : Parts P (λ c. Since v s c.calls) (LimitedFlow s v) (Rare s v)
  unfolding start_session warnings latest
  Rare-Parts = record {
    on_open = λ c i hr e h. h;
    on_unopened = λ c i hr e h. (0, omega (arith, h.0), omega (arith, h.1), h.2);
    on_start = λ c h. (
      0,
      omega (arith, h.0),
      omega (arith, h.1, K.mono c.calls h.2),
      omega arith,
      K.fits c.calls,
    );
    on_loop = λ fuel start devices c h.
        run_loop_rule P (LimitedFlow s v) (LimitedAt s v) (LimitedAt s v) (λ hr. LimitedAt s v)
          Limited-Stages fuel start devices c h;
    on_returned = λ c h. Limited-Rare c h;
    on_crashed = λ c h. Limited-Rare c h;
    on_out_of_fuel = λ c h. Limited-Rare c h;
    on_release = λ c device h. h;
    on_close = λ c e h. close-Rare c h;
  }

-- Where the clock does not run backwards and its readings are 64-bit numbers: the warnings of
-- process_commands, one for each minute at most, fit into the time between the last reading before
-- it and its own last reading, whatever the server sends.
pub process_commands_warns :
    (P : Platform) (fuel : ℕ) (c : VdiClient)
    → IsClock P
    → latest c.calls < u64_mod
    → let d = (process_commands P fuel c).1 in
      (w : ℕ) × (warnings d.calls ≡ warnings c.calls + w)
      × (latest c.calls + w * (stall_warn_ms * 1000) ≤ latest d.calls)
process_commands_warns P fuel c K top =
    let s = latest c.calls in
    let v = warnings c.calls in
    let (w, n, low, _) =
      process_parts_rule P (λ d. Since v s d.calls) (LimitedFlow s v) (Rare s v)
        (Rare-Parts P K s v) fuel c (0, omega arith, omega arith, top)
        (λ _ _. (refl, omega arith, top)) in
    (w, n, low)
