-- ===== src/Client/Calls/Loop.antt =====
-- A property of the history that the calls of the command loop keep, GetCommand with the answer
-- of the server, is kept by the loop.
use mathlib.Core.List.{Mem, mem-cons_self, mem-cons_of_mem}
use vdi_cpp_wrapper.Prelude.{ℕ, zero, suc, List, [], ◌∷◌}
use vdi_cpp_wrapper.World.{Trace, Platform, get_command}
use vdi_cpp_wrapper.Client.{VdiClient}
use vdi_cpp_wrapper.Client.Chunk.{Flow, receive, first_times, poll_device}
use vdi_cpp_wrapper.Client.Loop.{Outcome, poll_devices, run_loop}
use vdi_cpp_wrapper.Client.Rules.{elim_flow}
use vdi_cpp_wrapper.Client.Calls.{IsSilent, IsSilentOn, silent_on, on_reply_rule}

pub record IsHeard (P : Platform) (Q : Trace → Type 0) : Type 0 where
  pub silent : IsSilent P Q
  pub on_get_command :
      (t : Trace) (device timeout : ℕ)
      → Q t
      → let (hr, cmd) = P.on_get_command t device timeout in
        Q (get_command device timeout hr cmd ∷ t)

-- The same for one device.
pub record IsHeardOn (P : Platform) (Q : Trace → Type 0) (device : ℕ) : Type 0 where
  pub silent : IsSilentOn P Q device
  pub on_get_command :
      (t : Trace) (timeout : ℕ)
      → Q t
      → let (hr, cmd) = P.on_get_command t device timeout in
        Q (get_command device timeout hr cmd ∷ t)

heard_on : (P : Platform) (Q : Trace → Type 0) (device : ℕ) → IsHeard P Q → IsHeardOn P Q device
heard_on P Q device L = record {
  silent = silent_on P Q device L.silent;
  on_get_command = λ t timeout h. L.on_get_command t device timeout h;
}

-- Each device of the list keeps the property.
abbrev pub AreHeard : Platform → (Trace → Type 0) → List ℕ → Type 0
AreHeard P Q devices = (device : ℕ) → Mem device devices → IsHeardOn P Q device

module _ (P : Platform) (Q : Trace → Type 0) where
  poll_device_calls_rule :
      (start device : ℕ) (c : VdiClient)
      → IsHeardOn P Q device
      → Q c.calls
      → Q (poll_device P start device c).1.calls
  unfolding poll_device receive
  poll_device_calls_rule start device c L h =
      let (r, c1) = receive P device c in
      let clock = L.silent.quiet.on_clock in
      on_reply_rule P Q device L.silent r (first_times start r) c1
        (clock _ (L.on_get_command _ c.command_timeout_ms (clock c.calls h)))

  poll_devices_calls_rule :
      (start : ℕ) (devices : List ℕ) (c : VdiClient)
      → AreHeard P Q devices
      → Q c.calls
      → Q (poll_devices P start devices c).1.calls
  unfolding poll_devices
  poll_devices_calls_rule start [] c L h = h
  poll_devices_calls_rule start (device ∷ devices) c L h =
      let (flow, c1) = poll_device P start device c in
      elim_flow (λ (f : Flow) (d : VdiClient). Q d.calls) (λ (q : Flow × VdiClient). Q q.1.calls)
        flow c1 (poll_device_calls_rule start device c (L device mem-cons_self) h)
        (λ e. poll_devices_calls_rule start devices c1 (λ d m. L d (mem-cons_of_mem device m)) e)
        (λ e. e) (λ e. e)

  -- A property that each device of the list keeps.
  pub run_served_rule :
      (fuel start : ℕ) (devices : List ℕ) (c : VdiClient)
      → AreHeard P Q devices
      → Q c.calls
      → Q (run_loop P fuel start devices c).1.calls
  unfolding run_loop
  run_served_rule zero start devices c L h = h
  run_served_rule (suc fuel) start devices c L h =
      let (flow, c1) = poll_devices P start devices c in
      elim_flow (λ (f : Flow) (d : VdiClient). Q d.calls) (λ (q : Outcome × VdiClient). Q q.1.calls)
        flow c1 (poll_devices_calls_rule start devices c L h)
        (λ e. run_served_rule fuel start devices c1 L e) (λ e. e) (λ e. e)

  pub run_loop_calls_rule :
      IsHeard P Q
      → (fuel start : ℕ) (devices : List ℕ) (c : VdiClient) → Q c.calls
      → Q (run_loop P fuel start devices c).1.calls
  run_loop_calls_rule L fuel start devices c h =
      run_served_rule fuel start devices c (λ device _. heard_on P Q device L) h
