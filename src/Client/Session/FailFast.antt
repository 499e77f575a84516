-- ===== src/Client/Session/FailFast.antt =====
-- The retry policy over a whole history of method calls on a session.
use Prim.Native.String.{String}
use vdi_cpp_wrapper.Prelude.{ℕ, ℤ, ◌≡◌, refl, List, [], ◌∷◌, Option, Bool, false, arith}
use vdi_cpp_wrapper.World.{Platform, open_device}
use vdi_cpp_wrapper.Com
use vdi_cpp_wrapper.Sink.{Sink}
use vdi_cpp_wrapper.Faults.{FaultInjector}
use vdi_cpp_wrapper.Client.{VdiClient, new, set_command_timeout}
use vdi_cpp_wrapper.Client.Lifecycle.{connect, open_devices, close, destroy}
use vdi_cpp_wrapper.Client.Loop.{start_session, process_commands}
use vdi_cpp_wrapper.Client.Rules.{run_loop_rule}
use vdi_cpp_wrapper.Client.Calls.{flush_sink_rule}
use vdi_cpp_wrapper.Client.Session.{
  Method, connects, opens, processes, closes, sets_timeout, step, run,
}
use vdi_cpp_wrapper.Client.Session.Parts.{Parts, process_parts_rule}
use vdi_cpp_wrapper.Client.FailFast.{
  any_failed, retries, History, History-IsQuiet, Fast, FastBy, Clean, Completed, fails_over,
  clean_stop, FastBy-Stages,
}

connect-Fast :
    (P : Platform) (c : VdiClient) (name : String) (n : ℤ) → Fast c → Fast (connect P c name n).1
unfolding connect Com.new Com.destroy any_failed retries
connect-Fast P c name n h = ground arith

open_devices-Fast : (P : Platform) (c : VdiClient) → Fast c → Fast (open_devices P c).1
unfolding open_devices any_failed retries
open_devices-Fast P c h = ground arith

close-Fast : (P : Platform) (c : VdiClient) → Fast c → Fast (close P c)
unfolding close any_failed retries
close-Fast P c h =
    let b = any_failed c.calls in
    ground (arith, flush_sink_rule P (History b) (History-IsQuiet P b) c (refl, h.0))

destroy-Fast : (P : Platform) (c : VdiClient) → Fast c → Fast (destroy P c)
unfolding destroy
destroy-Fast P c h = ground (arith, close-Fast P c h)

Fast-Parts : (P : Platform) → Parts P (λ c. History false c.calls) FastBy Fast
unfolding start_session any_failed retries
Fast-Parts P = record {
  on_open = λ c i hr e h. ground arith;
  on_unopened =
      λ c i hr e h. fails_over (record c { calls = open_device i hr ∷ c.calls }) (ground arith);
  on_start = λ c h. h;
  on_loop = λ fuel start devices c h.
      run_loop_rule P FastBy Clean Clean Completed (FastBy-Stages P) fuel start devices c h;
  on_returned = λ c h. h;
  on_crashed = λ c h. clean_stop c h;
  on_out_of_fuel = λ c h. clean_stop c h;
  on_release = λ c device h. h;
  on_close = λ c e h. close-Fast P c h;
}

process_commands-Fast :
    (P : Platform) (fuel : ℕ) (c : VdiClient) → Fast c → Fast (process_commands P fuel c).1
process_commands-Fast P fuel c h =
    process_parts_rule P (λ d. History false d.calls) FastBy Fast (Fast-Parts P) fuel c h
      (λ e _. ground arith)

step-Fast : (P : Platform) (c : VdiClient) (m : Method) → Fast c → Fast (step P c m)
unfolding step set_command_timeout
step-Fast P c (connects name n) h = connect-Fast P c name n h
step-Fast P c opens h = open_devices-Fast P c h
step-Fast P c (processes fuel) h = process_commands-Fast P fuel c h
step-Fast P c closes h = close-Fast P c h
step-Fast P c (sets_timeout timeout_ms) h = h

run-Fast : (P : Platform) (c : VdiClient) (ms : List Method) → Fast c → Fast (run P c ms)
unfolding run
run-Fast P c [] h = h
run-Fast P c (m ∷ ms) h = run-Fast P (step P c m) ms (step-Fast P c m h)

-- Over any history of method calls on a new session and its destructor, whatever the platform
-- answers: once CoInitializeEx, CoCreateInstance, CreateEx, GetConfiguration, OpenDevice,
-- CompleteCommand, or GetCommand by anything but a timeout, has failed, none of these calls is
-- made again.
pub retries-run :
    (P : Platform) (sink : Option Sink) (logging : Bool) (f : FaultInjector) (ms : List Method)
    → retries (destroy P (run P (new sink logging f []) ms)).calls ≡ 0
unfolding new any_failed retries
retries-run P sink logging f ms =
    let c0 = new sink logging f [] in
    (destroy-Fast P (run P c0 ms) (run-Fast P c0 ms (refl, λ e. absurd (ground arith)))).0
