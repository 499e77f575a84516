-- ===== src/Client/Session/Rules.antt =====
-- A property of the client that every part of a session keeps is kept by process_commands, and by
-- any history of method calls.
use Prim.Native.String.{String}
use vdi_cpp_wrapper.Prelude.{ℕ, ℤ, zero, suc, ◌+◌, List, [], ◌∷◌, ◌++◌, Bool, not, if_elim}
use vdi_cpp_wrapper.Protocol.{failed}
use vdi_cpp_wrapper.World.{Platform, open_device, release_device}
use vdi_cpp_wrapper.Errors.State.{is_streaming, is_flushing}
use vdi_cpp_wrapper.Client.{VdiClient, fail, set_command_timeout}
use vdi_cpp_wrapper.Client.Lifecycle.{connect, open_devices, close}
use vdi_cpp_wrapper.Client.Loop.{
  Outcome, returned, crashed, out_of_fuel, open_all, dev_count, run_loop, release_all, finish,
  start_session, serve, process_commands,
}
use vdi_cpp_wrapper.Client.Session.{
  Method, connects, opens, processes, closes, sets_timeout, step, run,
}

-- The parts of process_commands keep `R`.
pub record KeepsLoop (P : Platform) (R : VdiClient → Type 0) : Type 0 where
  pub on_open :
      (c : VdiClient) (i hr : ℕ) → R c → R (record c { calls = open_device i hr ∷ c.calls })
  pub on_fail : (c : VdiClient) → R c → R (fail c)
  pub on_start : (c : VdiClient) → R c → R (start_session P c).1
  pub on_loop :
      (fuel start : ℕ) (devices : List ℕ) (c : VdiClient)
      → R c
      → R (run_loop P fuel start devices c).1
  pub on_release :
      (c : VdiClient) (device : ℕ) → R c → R (record c { calls = release_device device ∷ c.calls })
  pub on_close : (c : VdiClient) → R c → R (close P c)

-- So do the other methods.
pub record KeepsMethods (P : Platform) (R : VdiClient → Type 0) : Type 0 where
  pub loop : KeepsLoop P R
  pub on_connect : (c : VdiClient) (name : String) (n : ℤ) → R c → R (connect P c name n).1
  pub on_open_devices : (c : VdiClient) → R c → R (open_devices P c).1
  pub on_set_timeout : (c : VdiClient) (timeout_ms : ℕ) → R c → R (set_command_timeout c timeout_ms)

module _ (P : Platform) (R : VdiClient → Type 0) (L : KeepsLoop P R) where
  abbrev Ends : Outcome × VdiClient → Type 0
  Ends q = R q.1

  abbrev Opens : Bool × List ℕ × VdiClient → Type 0
  Opens q = R q.2

  open_all_rule :
      (n i : ℕ) (devices : List ℕ) (c : VdiClient) → R c → Opens (open_all P n i devices c)
  unfolding open_all
  open_all_rule zero i devices c h = h
  open_all_rule (suc n) i devices c h =
      let hr = P.on_open_device c.calls i in
      let c1 = record c { calls = open_device i hr ∷ c.calls } in
      let h1 = L.on_open c i hr h in
      if_elim Opens (failed hr) (λ _. L.on_fail c1 h1)
        (λ _. open_all_rule n (i + 1) (devices ++ i ∷ []) c1 h1)

  release_all_rule : (devices : List ℕ) (c : VdiClient) → R c → R (release_all devices c)
  unfolding release_all
  release_all_rule [] c h = h
  release_all_rule (device ∷ devices) c h = release_all_rule devices _ (L.on_release c device h)

  finish_rule : (devices : List ℕ) (c : VdiClient) → R c → R (finish P devices c)
  unfolding finish
  finish_rule devices c h =
      let c1 = release_all devices c in
      let h1 = release_all_rule devices c h in
      if_elim R (is_flushing c1.state) (λ _. L.on_close c1 h1) (λ _. h1)

  serve_rule : (fuel : ℕ) (devices : List ℕ) (c : VdiClient) → R c → Ends (serve P fuel devices c)
  unfolding serve
  serve_rule fuel devices c h =
      let (start, c1) = start_session P c in
      let (outcome, c2) = run_loop P fuel start devices c1 in
      ended outcome c2 (L.on_loop fuel start devices c1 (L.on_start c h))
    where
      ended :
          (outcome : Outcome) (c2 : VdiClient)
          → R c2
          → Ends (elim outcome [
            | returned ↦ (returned, finish P devices c2)
            | crashed ↦ (crashed, c2)
            | out_of_fuel ↦ (out_of_fuel, c2)
          ])
      ended returned c2 d = finish_rule devices c2 d
      ended crashed c2 d = d
      ended out_of_fuel c2 d = d

  pub process_commands_rule : (fuel : ℕ) (c : VdiClient) → R c → Ends (process_commands P fuel c)
  unfolding process_commands
  process_commands_rule fuel c h =
      let q = open_all P (dev_count c.device_count) 0 [] c in
      let h1 = open_all_rule (dev_count c.device_count) 0 [] c h in
      if_elim Ends (not (is_streaming c.state)) (λ _. h)
        (λ _.
          if_elim Ends (not c.device_set) (λ _. h)
            (λ _. if_elim Ends (not q.0) (λ _. h1) (λ _. serve_rule fuel q.1 q.2 h1)))

module _ (P : Platform) (R : VdiClient → Type 0) (L : KeepsMethods P R) where
  step_rule : (c : VdiClient) (m : Method) → R c → R (step P c m)
  unfolding step
  step_rule c (connects name n) h = L.on_connect c name n h
  step_rule c opens h = L.on_open_devices c h
  step_rule c (processes fuel) h = process_commands_rule P R L.loop fuel c h
  step_rule c closes h = L.loop.on_close c h
  step_rule c (sets_timeout timeout_ms) h = L.on_set_timeout c timeout_ms h

  pub run_rule : (c : VdiClient) (ms : List Method) → R c → R (run P c ms)
  unfolding run
  run_rule c [] h = h
  run_rule c (m ∷ ms) h = run_rule (step P c m) ms (step_rule c m h)
