-- ===== src/Client/Accounting/Timings.antt =====
-- The recorded times against the commands that were completed, in the build without fault
-- injection.
use vdi_cpp_wrapper.Prelude.{
  ℕ, ◌+◌, ◌%◌, ◌≡◌, refl, sym, ap, ◌∙◌, List, [], ◌∷◌, ◌++◌, map, true, false, arith, ◌==◌,
  if◌then◌else◌, if_elim, u64_mod, Option-cases, inl, inr,
}
use vdi_cpp_wrapper.Protocol.{Command, failed, vdc_write}
use vdi_cpp_wrapper.World.{Trace, Platform, complete_command}
use vdi_cpp_wrapper.Faults
use vdi_cpp_wrapper.Faults.{FaultInjector, stub}
use vdi_cpp_wrapper.Metrics
use vdi_cpp_wrapper.Metrics.{Metrics, ChunkTiming}
use vdi_cpp_wrapper.Errors.State.{flushing}
use vdi_cpp_wrapper.Client.{VdiClient}
use vdi_cpp_wrapper.Client.Lifecycle.{flush_sink}
use vdi_cpp_wrapper.Client.Stall.{check_stall}
use vdi_cpp_wrapper.Client.Chunk.{
  Flow, Times, on_get_command_error, use_buffer, account_chunk, store_chunk, write_chunk,
  sink_stage, record_completion, timing_of,
}
use vdi_cpp_wrapper.Client.Accounting.{SameBooks, store_chunk-SameBooks}
use vdi_cpp_wrapper.Client.Rules.{option_elim}
use vdi_cpp_wrapper.Client.Calls.{IsQuiet, calls-record_completion}

-- The transferred bytes of the successful calls of CompleteCommand, in order.
unfoldable pub completed : Trace → List ℕ
completed [] = []
completed (complete_command device cmd code n position hr ∷ t) =
    completed t ++ (if failed hr then [] else n ∷ [])
completed (_ ∷ t) = completed t

-- The total of a timing is the sum of its stages.
abbrev pub IsSummed : ChunkTiming → Type 0
IsSummed t = t.total_us ≡ (t.getcommand_us + t.dispatch_us + t.sink_us + t.complete_us) % u64_mod

abbrev pub AllSummed : List ChunkTiming → Type 0
AllSummed [] = true ≡ true
AllSummed (t ∷ ts) = IsSummed t × AllSummed ts

pub record Timed (c : VdiClient) : Type 0 where
  pub no_faults : c.fault_injector ≡ stub
  pub sized : completed c.calls ≡ map (λ (t : ChunkTiming). t.size) c.metrics.timings
  pub summed : AllSummed c.metrics.timings

-- What the times depend on is the same.
abbrev SameTimes : VdiClient → VdiClient → Type 0
SameTimes c d =
    (d.fault_injector ≡ c.fault_injector)
    × (d.metrics.timings ≡ c.metrics.timings)
    × (completed d.calls ≡ completed c.calls)

pub SameTimes-Timed : (c d : VdiClient) → SameTimes c d → Timed c → Timed d
SameTimes-Timed c d (f, t, e) h = record {
  no_faults = f ∙ h.no_faults;
  sized = e ∙ rw t h.sized;
  summed = rw t h.summed;
}

pub completed-IsQuiet : (P : Platform) (ns : List ℕ) → IsQuiet P (λ t. completed t ≡ ns)
unfolding completed
completed-IsQuiet P ns = record {
  on_clock = λ t e. e;
  on_write = λ t bytes e. e;
  on_flush = λ t e. e;
  on_warning = λ t n e. e;
}

abbrev SameParts : VdiClient → VdiClient → Type 0
SameParts c d = (d.fault_injector ≡ c.fault_injector) × (d.metrics.timings ≡ c.metrics.timings)

account_chunk-SameParts :
    (P : Platform) (size : ℕ) (c : VdiClient) → SameParts c (account_chunk P size c)
unfolding account_chunk use_buffer Metrics.add_bytes Metrics.record_chunk_size
    Metrics.record_buffer_acquire Metrics.record_buffer_release
account_chunk-SameParts P size c = ground arith

store_chunk-injector :
    (P : Platform) (cmd : Command) (c : VdiClient)
    → (store_chunk P cmd c).2.fault_injector ≡ c.fault_injector
unfolding store_chunk write_chunk
store_chunk-injector P cmd c = elim (Option-cases c.sink) [
  | inl e ↦ ground arith
  | inr (k, e) ↦ ground arith
]

pub sink_stage-SameParts :
    (P : Platform) (cmd : Command) (c : VdiClient)
    → SameParts c (sink_stage P cmd cmd.command_code c).2
unfolding sink_stage
sink_stage-SameParts P cmd c =
    let c1 = account_chunk P cmd.size c in
    let (f, t) = account_chunk-SameParts P cmd.size c in
    if_elim (λ (q : Flow × ℕ × VdiClient). SameParts c q.2) (cmd.command_code == vdc_write)
      (λ _. (
        store_chunk-injector P cmd c1 ∙ f,
        ap (λ (m : Metrics). m.timings) (store_chunk-SameBooks P cmd c1).0 ∙ t,
      ))
      (λ _. (refl, refl))

pub flush_sink-injector :
    (P : Platform) (c : VdiClient) → (flush_sink P c).fault_injector ≡ c.fault_injector
unfolding flush_sink
flush_sink-injector P c =
    option_elim (λ (d : VdiClient). d.fault_injector ≡ c.fault_injector) c.sink (λ _. refl)
      (λ k e. refl)

pub on_get_command_error-injector :
    (P : Platform) (hr now : ℕ) (c : VdiClient)
    → (on_get_command_error P hr now c).1.fault_injector ≡ c.fault_injector
unfolding on_get_command_error check_stall
on_get_command_error-injector P hr now c =
    ground (arith, flush_sink-injector P (record c { state = flushing }))

AllSummed-append :
    (ts : List ChunkTiming) (t : ChunkTiming) → AllSummed ts → IsSummed t → AllSummed (ts ++ t ∷ [])
AllSummed-append [] t h e = (e, refl)
AllSummed-append (u ∷ ts) t (f, h) e = (f, AllSummed-append ts t h e)

map-append_one :
    (ts : List ChunkTiming) (t : ChunkTiming)
    → map (λ (u : ChunkTiming). u.size) (ts ++ t ∷ [])
      ≡ map (λ (u : ChunkTiming). u.size) ts ++ t.size ∷ []
map-append_one [] t = refl
map-append_one (u ∷ ts) t = ap (◌∷◌ u.size) (map-append_one ts t)

-- A command has been completed with `hr` and is not recorded yet.
abbrev pub Completed : ℕ → ℕ → Command → VdiClient → Type 0
Completed hr device cmd c =
    (c.fault_injector ≡ stub)
    × (completed c.calls
        ≡ map (λ (t : ChunkTiming). t.size) c.metrics.timings
          ++ (if failed hr then [] else cmd.size ∷ []))
    × AllSummed c.metrics.timings

record_completion_lem :
    (cmd : Command) (s : Times) (cc_us : ℕ) (c : VdiClient)
    → c.fault_injector ≡ stub
    → let d = (record_completion cmd s cc_us c).1 in
      (d.fault_injector ≡ stub)
      × (d.metrics.timings ≡ c.metrics.timings ++ timing_of s cmd.size cc_us ∷ [])
unfolding record_completion Metrics.record_chunk_timing Faults.on_chunk_completed
record_completion_lem cmd s cc_us c f = ground arith

timing_of-IsSummed : (s : Times) (size cc_us : ℕ) → IsSummed (timing_of s size cc_us)
unfolding timing_of
timing_of-IsSummed s size cc_us = omega arith

pub record_completion-Timed :
    (hr device : ℕ) (cmd : Command) (s : Times) (cc_us : ℕ) (c : VdiClient)
    → failed hr ≡ false
    → Completed hr device cmd c
    → Timed (record_completion cmd s cc_us c).1
unfolding timing_of
record_completion-Timed hr device cmd s cc_us c e (f, n, h) =
    let (g, t) = record_completion_lem cmd s cc_us c f in
    let sum = timing_of-IsSummed s cmd.size cc_us in
    record {
      no_faults = g;
      sized =
          rw (calls-record_completion cmd s cc_us c, t)
            (n ∙ rw e (sym (map-append_one c.metrics.timings (timing_of s cmd.size cc_us))));
      summed = rw t (AllSummed-append c.metrics.timings (timing_of s cmd.size cc_us) h sum);
    }

-- A change of the state and of the calls that completes nothing.
pub SameBooks-Timed :
    (c d : VdiClient)
    → SameBooks c d
    → d.fault_injector ≡ c.fault_injector
    → completed d.calls ≡ completed c.calls
    → Timed c
    → Timed d
SameBooks-Timed c d b f e h = SameTimes-Timed c d (f, ap (λ (m : Metrics). m.timings) b.0, e) h
