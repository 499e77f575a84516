-- ===== src/Client/Accounting/TimedHistories.antt =====
-- The recorded times over a whole history of method calls.
use Prim.Native.String.{String}
use vdi_cpp_wrapper.Prelude.{ℤ, ◌≡◌, refl, List, [], ◌∷◌, map, Option, Bool, arith}
use vdi_cpp_wrapper.World.{Platform, Trace, open_device, release_device}
use vdi_cpp_wrapper.Sink.{Sink}
use vdi_cpp_wrapper.Faults.{stub}
use vdi_cpp_wrapper.Metrics
use vdi_cpp_wrapper.Metrics.{ChunkTiming}
use vdi_cpp_wrapper.Client.{VdiClient, new, fail, set_command_timeout}
use vdi_cpp_wrapper.Client.Lifecycle.{connect, open_devices, close}
use vdi_cpp_wrapper.Client.Loop.{start_session}
use vdi_cpp_wrapper.Client.Calls.{flush_sink_rule}
use vdi_cpp_wrapper.Client.Accounting.{
  close-SameBooks, connect-SameBooks, open_devices-SameBooks, start_session-SameBooks,
}
use vdi_cpp_wrapper.Client.Accounting.TimedStages.{run_loop-Timed}
use vdi_cpp_wrapper.Client.Accounting.Timings.{
  completed, AllSummed, Timed, SameBooks-Timed, completed-IsQuiet, flush_sink-injector,
}
use vdi_cpp_wrapper.Client.Session.{Method, run}
use vdi_cpp_wrapper.Client.Session.Rules.{KeepsMethods, run_rule}

abbrev KeepsTimes : VdiClient → VdiClient → Type 0
KeepsTimes c d = (d.fault_injector ≡ c.fault_injector) × (completed d.calls ≡ completed c.calls)

close-KeepsTimes : (P : Platform) (c : VdiClient) → KeepsTimes c (close P c)
unfolding close completed
close-KeepsTimes P c = ground (
  arith,
  flush_sink-injector P c,
  flush_sink_rule P (λ t. completed t ≡ completed c.calls) (completed-IsQuiet P (completed c.calls))
      c refl,
)

connect-KeepsTimes :
    (P : Platform) (c : VdiClient) (name : String) (n : ℤ) → KeepsTimes c (connect P c name n).1
unfolding connect completed
connect-KeepsTimes P c name n = ground arith

open_devices-KeepsTimes : (P : Platform) (c : VdiClient) → KeepsTimes c (open_devices P c).1
unfolding open_devices completed
open_devices-KeepsTimes P c = ground arith

Timed-KeepsMethods : (P : Platform) → KeepsMethods P Timed
unfolding set_command_timeout start_session completed
Timed-KeepsMethods P = record {
  loop = record {
    on_open = λ c i hr h. called c (open_device i hr ∷ c.calls) refl h;
    on_fail = λ c h. SameBooks-Timed c (fail c) (refl, refl, refl, refl) refl refl h;
    on_start =
        λ c h. SameBooks-Timed c (start_session P c).1 (start_session-SameBooks P c) refl refl h;
    on_loop = λ fuel start devices c h. run_loop-Timed P fuel start devices c h;
    on_release = λ c device h. called c (release_device device ∷ c.calls) refl h;
    on_close = λ c h.
        let (f, e) = close-KeepsTimes P c in
        SameBooks-Timed c (close P c) (close-SameBooks P c) f e h;
  };
  on_connect = λ c name n h.
      let (f, e) = connect-KeepsTimes P c name n in
      SameBooks-Timed c (connect P c name n).1 (connect-SameBooks P c name n) f e h;
  on_open_devices = λ c h.
      let (f, e) = open_devices-KeepsTimes P c in
      SameBooks-Timed c (open_devices P c).1 (open_devices-SameBooks P c) f e h;
  on_set_timeout = λ c timeout_ms h.
      SameBooks-Timed c (set_command_timeout c timeout_ms) (refl, refl, refl, refl) refl refl h;
}
  where
    called :
        (c : VdiClient) (t : Trace)
        → completed t ≡ completed c.calls
        → Timed c
        → Timed (record c { calls = t })
    called c t e h = SameBooks-Timed c (record c { calls = t }) (refl, refl, refl, refl) refl e h

new-Timed : (sink : Option Sink) (logging : Bool) → Timed (new sink logging stub [])
unfolding new completed Metrics.new
new-Timed sink logging = record { no_faults = refl; sized = refl; summed = refl }

-- In the build without fault injection, after any history of method calls on a new session: there
-- is one timing for each CompleteCommand that succeeded, in order, with the bytes that it
-- transferred, and the total of each timing is the sum of its four stages, modulo 2^64.
pub run-Timed :
    (P : Platform) (sink : Option Sink) (logging : Bool) (ms : List Method)
    → let c = run P (new sink logging stub []) ms in
      (completed c.calls ≡ map (λ (t : ChunkTiming). t.size) c.metrics.timings)
      × AllSummed c.metrics.timings
run-Timed P sink logging ms =
    let h =
      run_rule P Timed (Timed-KeepsMethods P) (new sink logging stub []) ms
        (new-Timed sink logging) in
    (h.sized, h.summed)
