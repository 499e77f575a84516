-- ===== src/Client/Session/Histories.antt =====
-- A property of the history that every call to the outside keeps is kept by any methods.
use Prim.Native.String.{String}
use vdi_cpp_wrapper.Prelude.{ℕ, ℤ, List, ◌∷◌, Bool, ◌||◌, not, if_elim}
use vdi_cpp_wrapper.Protocol.{failed}
use vdi_cpp_wrapper.Errors.State.{is_streaming, is_flushing, is_connected}
use vdi_cpp_wrapper.World.{
  Trace, Platform, open_device, release_device, close_set, release_set, get_configuration,
}
use vdi_cpp_wrapper.Client.{VdiClient, set_command_timeout}
use vdi_cpp_wrapper.Client.Lifecycle.{connect, open_devices, close, release_device_set}
use vdi_cpp_wrapper.Client.Loop.{start_session, process_commands}
use vdi_cpp_wrapper.Client.Calls.{flush_sink_rule}
use vdi_cpp_wrapper.Client.Calls.Loop.{IsHeard, run_loop_calls_rule}
use vdi_cpp_wrapper.Client.Session.{Method, run}
use vdi_cpp_wrapper.Client.Session.Rules.{KeepsMethods, run_rule, process_commands_rule}

pub record KeepsCalls (P : Platform) (Q : Trace → Type 0) : Type 0 where
  pub heard : IsHeard P Q
  pub on_open : (t : Trace) (i hr : ℕ) → Q t → Q (open_device i hr ∷ t)
  pub on_release : (t : Trace) (device : ℕ) → Q t → Q (release_device device ∷ t)
  pub on_drop : (t : Trace) → Q t → Q (release_set ∷ close_set ∷ t)
  pub on_configuration : (t : Trace) (timeout hr : ℕ) → Q t → Q (get_configuration timeout hr ∷ t)
  pub on_connect :
      (c : VdiClient) (name : String) (n : ℤ) → Q c.calls → Q (connect P c name n).1.calls

module _ (P : Platform) (Q : Trace → Type 0) (L : KeepsCalls P Q) where
  abbrev Calls : VdiClient → Type 0
  Calls c = Q c.calls

  abbrev Replies : Bool × VdiClient → Type 0
  Replies q = Q q.1.calls

  drop_rule : (c : VdiClient) → Q c.calls → Q (release_device_set c).calls
  unfolding release_device_set
  drop_rule c h = if_elim Calls c.device_set (λ _. L.on_drop c.calls h) (λ _. h)

  close_calls_rule : (c : VdiClient) → Q c.calls → Q (close P c).calls
  unfolding close
  close_calls_rule c h =
      if_elim Calls c.devices_closed (λ _. h)
        (λ _. drop_rule _ (
          if_elim Calls (is_streaming c.state || is_flushing c.state)
            (λ _. flush_sink_rule P Q L.heard.silent.quiet c h) (λ _. h)))

  open_devices_calls_rule : (c : VdiClient) → Q c.calls → Q (open_devices P c).1.calls
  unfolding open_devices
  open_devices_calls_rule c h =
      let hr = P.on_get_configuration c.calls 60000 in
      let h1 = L.on_configuration c.calls 60000 hr h in
      if_elim Replies (not (is_connected c.state)) (λ _. h)
        (λ _.
          if_elim Replies (not c.device_set) (λ _. h)
            (λ _. if_elim Replies (failed hr) (λ _. h1) (λ _. h1)))

  pub Calls-KeepsMethods : KeepsMethods P Calls
  unfolding start_session set_command_timeout
  Calls-KeepsMethods = record {
    loop = record {
      on_open = λ c i hr h. L.on_open c.calls i hr h;
      on_fail = λ c h. h;
      on_start = λ c h. L.heard.silent.quiet.on_clock c.calls h;
      on_loop = λ fuel start devices c h. run_loop_calls_rule P Q L.heard fuel start devices c h;
      on_release = λ c device h. L.on_release c.calls device h;
      on_close = λ c h. close_calls_rule c h;
    };
    on_connect = L.on_connect;
    on_open_devices = λ c h. open_devices_calls_rule c h;
    on_set_timeout = λ c timeout_ms h. h;
  }

  pub process_calls_rule :
      (fuel : ℕ) (c : VdiClient) → Q c.calls → Q (process_commands P fuel c).1.calls
  process_calls_rule fuel c h = process_commands_rule P Calls Calls-KeepsMethods.loop fuel c h

  pub run_calls_rule : (c : VdiClient) (ms : List Method) → Q c.calls → Q (run P c ms).calls
  run_calls_rule c ms h = run_rule P Calls Calls-KeepsMethods c ms h
