-- ===== src/Client/Stall/Limit.antt =====
-- How often check_stall of src/vdi_client.cpp warns, by a clock that does not run backwards.
pub mod Session
use vdi_cpp_wrapper.Prelude.{
  ℕ, suc, ◌+◌, ◌*◌, ◌≤◌, ◌<◌, ◌≡◌, refl, sym, subst, inl, inr, [], ◌∷◌, arith, ltb, ◌==◌,
  if◌then◌else◌, if_elim, Option-cases, sub64, u64_mod,
}
use vdi_cpp_wrapper.Protocol.{Command, vdc_write, vd_e_close, vd_e_eof, vd_e_timeout}
use vdi_cpp_wrapper.World.{Trace, Platform, read_clock, get_command, stall_warning}
use vdi_cpp_wrapper.Errors.State.{flushing}
use vdi_cpp_wrapper.Client.{VdiClient, now_us, stall_warn_ms}
use vdi_cpp_wrapper.Client.Lifecycle.{flush_sink, close}
use vdi_cpp_wrapper.Client.Stall.{check_stall}
use vdi_cpp_wrapper.Client.Chunk.{
  Flow, next, stop, crash, Times, receive, on_get_command_error, account_chunk, store_chunk,
  sink_stage, call_complete_command, record_completion,
}
use vdi_cpp_wrapper.Client.Loop.{start_session, process_commands}
use vdi_cpp_wrapper.Client.Rules.{AfterStore-all, Stages, option_elim, run_loop_rule}
use vdi_cpp_wrapper.Client.Calls.{
  IsSteady, flush_steadily, sink_stage_steadily, calls-record_completion,
}
use vdi_cpp_wrapper.Client.Session.Parts.{Parts, process_parts_rule}

unfoldable pub warnings : Trace → ℕ
warnings [] = 0
warnings (stall_warning n ∷ t) = suc (warnings t)
warnings (_ ∷ t) = warnings t

-- The last reading of the clock.
unfoldable pub latest : Trace → ℕ
latest [] = 0
latest (read_clock now ∷ t) = now
latest (_ ∷ t) = latest t

-- The clock does not run backwards, and its readings are 64-bit numbers.
pub record IsClock (P : Platform) : Type 0 where
  pub mono : (t : Trace) → latest t < u64_mod → latest t ≤ P.on_now_us t
  pub fits : (t : Trace) → P.on_now_us t < u64_mod

abbrev pub Since : ℕ → ℕ → Trace → Type 0
Since k m t = (warnings t ≡ k) × (m ≤ latest t) × (latest t < u64_mod)

-- From the time `s` on, with `v` warnings before, there was one per minute at most.
abbrev pub Limited : ℕ → ℕ → VdiClient → Type 0
Limited s v c =
    (w : ℕ) × (warnings c.calls ≡ v + w)
    × (s + w * (stall_warn_ms * 1000) ≤ c.last_stall_warn_us)
    × (c.last_stall_warn_us ≤ latest c.calls)
    × (latest c.calls < u64_mod)

abbrev pub LimitedFlow : ℕ → ℕ → Flow → VdiClient → Type 0
LimitedFlow s v flow c = Limited s v c

abbrev pub LimitedAt : ℕ → ℕ → ℕ → Command → VdiClient → Type 0
LimitedAt s v device cmd c = Limited s v c

abbrev pub Rare : ℕ → ℕ → VdiClient → Type 0
Rare s v c =
    (w : ℕ) × (warnings c.calls ≡ v + w)
    × (s + w * (stall_warn_ms * 1000) ≤ latest c.calls)
    × (latest c.calls < u64_mod)

pub last_stall_warn_us-flush_sink :
    (P : Platform) (c : VdiClient) → (flush_sink P c).last_stall_warn_us ≡ c.last_stall_warn_us
unfolding flush_sink
last_stall_warn_us-flush_sink P c =
    option_elim (λ (d : VdiClient). d.last_stall_warn_us ≡ c.last_stall_warn_us) c.sink (λ _. refl)
      (λ k e. refl)

last_stall_warn_us-store_chunk :
    (P : Platform) (cmd : Command) (c : VdiClient)
    → (store_chunk P cmd c).2.last_stall_warn_us ≡ c.last_stall_warn_us
unfolding store_chunk
last_stall_warn_us-store_chunk P cmd c = elim (Option-cases c.sink) [
  | inl e ↦ ground arith
  | inr (k, e) ↦ ground arith
]

pub last_stall_warn_us-sink_stage :
    (P : Platform) (cmd : Command) (code : ℕ) (c : VdiClient)
    → (sink_stage P cmd code c).2.last_stall_warn_us ≡ c.last_stall_warn_us
unfolding sink_stage account_chunk
last_stall_warn_us-sink_stage P cmd code c =
    ground (arith, last_stall_warn_us-store_chunk P cmd (account_chunk P cmd.size c))

pub last_stall_warn_us-record_completion :
    (cmd : Command) (s : Times) (cc_us : ℕ) (c : VdiClient)
    → (record_completion cmd s cc_us c).1.last_stall_warn_us ≡ c.last_stall_warn_us
unfolding record_completion
last_stall_warn_us-record_completion cmd s cc_us c = ground arith

pub check_stall-Limited :
    (s v now : ℕ) (c : VdiClient)
    → now ≡ latest c.calls
    → Limited s v c
    → Limited s v (check_stall c now)
unfolding check_stall warnings latest
check_stall-Limited s v now c e (w, n, low, high, top) =
    if_elim (Limited s v) (c.last_stall_warn_us == 0)
      (λ g. (w, n, ground arith, omega (arith, e), top))
      (λ _.
        if_elim (Limited s v) (ltb (sub64 now c.last_stall_warn_us) (stall_warn_ms * 1000))
          (λ _. (w, n, low, high, top))
          (λ g.
            if_elim (Limited s v) (c.metrics.total_bytes == c.last_bytes_total)
              (λ _. (w + 1, omega arith, ground arith, omega arith, top))
              (λ _. (w, n, ground arith, omega arith, top))))
