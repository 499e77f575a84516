-- ===== src/Client/Session/Usage.antt =====
-- Every call on a COM object, over a whole history of method calls and the destructor.
use mathlib.Core.List.{append-nil}
use vdi_cpp_wrapper.Prelude.{
  ℕ, ◌≡◌, refl, sym, subst, ◌⊎◌, inl, inr, List, [], ◌∷◌, ◌++◌, Option, Bool, true, false, arith,
  not, if◌then◌else◌, if_elim,
}
use vdi_cpp_wrapper.World.{Platform, read_clock}
use vdi_cpp_wrapper.Sink.{Sink}
use vdi_cpp_wrapper.Faults.{FaultInjector}
use vdi_cpp_wrapper.Errors.State.{is_streaming, is_flushing}
use vdi_cpp_wrapper.Client.{VdiClient, new, set_command_timeout}
use vdi_cpp_wrapper.Client.Lifecycle.{destroy}
use vdi_cpp_wrapper.Client.Chunk.{next, stop}
use vdi_cpp_wrapper.Client.Loop.{
  Outcome, returned, crashed, out_of_fuel, open_all, dev_count, run_loop, release_all, finish,
  start_session, serve, process_commands,
}
use vdi_cpp_wrapper.Client.Rules.{flow_of, run_loop_rule}
use vdi_cpp_wrapper.Client.Objects.{
  in_service, absent, Uses, unused, apart, Opens, run_loop-Uses, open_all-Uses, release_all-Uses,
}
use vdi_cpp_wrapper.Client.Session.{
  Method, connects, opens, processes, closes, sets_timeout, step, run,
}
use vdi_cpp_wrapper.Client.Session.Loop.{created, released, Serving, Staged, Serving-Stages}
use vdi_cpp_wrapper.Client.Session.Processing.{
  Begun, open_all-Begun, start_session-Serving, release_all-Serving,
}
use vdi_cpp_wrapper.Client.Session.Invariant.{
  Inv, new-Inv, streaming_of, step-Inv, run-Inv, destroy-Inv,
}
use vdi_cpp_wrapper.Client.Session.Objects.{
  set_of, UsesWith, UsesObjects, held_set, connect-UsesWith, open_devices-UsesWith, close-UsesWith,
  destroy-UsesWith,
}

-- What process_commands leaves open, by how it ends; `left` are the devices that are open when it
-- returns.
abbrev pub Ends : List ℕ → Outcome × VdiClient → Type 0
Ends left (returned, c) = UsesWith left c
Ends left (crashed, c) = UsesObjects c
Ends left (out_of_fuel, c) = UsesObjects c

-- The devices that are open after the opening loop has failed are not released.
abbrev pub left_open : List ℕ → Bool × List ℕ × VdiClient → List ℕ
left_open others (true, devices, c) = others
left_open others (false, devices, c) = others ++ devices

module _ (P : Platform) (n m : ℕ) (others : List ℕ) where
  finish-UsesWith :
      (devices : List ℕ) (c : VdiClient)
      → Serving n m stop c
      → Uses c.calls in_service (others ++ devices)
      → UsesWith others (finish P devices c)
  unfolding finish
  finish-UsesWith devices c s u =
      let c1 = release_all devices c in
      let u1 : UsesWith others c1 =
        held_set c1 others (release_all-Serving n m devices c s).held
          (release_all-Uses others devices c u) in
      if_elim (UsesWith others) (is_flushing c1.state) (λ _. close-UsesWith others P c1 u1)
        (λ _. u1)

  serve-Ends :
      (fuel : ℕ) (devices : List ℕ) (c : VdiClient)
      → Serving n m next c
      → Uses c.calls in_service (others ++ devices)
      → Ends others (serve P fuel devices c)
  unfolding serve start_session
  serve-Ends fuel devices c s u =
      let (start, c1) = start_session P c in
      let (outcome, c2) = run_loop P fuel start devices c1 in
      ended outcome c2
        (run_loop_rule P (Serving n m) (Staged n m) (Staged n m) (λ hr. Staged n m)
          (Serving-Stages P n m) fuel start devices c1 (start_session-Serving P n m c s))
        (run_loop-Uses P fuel start others devices c1 (apart (read_clock _) refl u))
    where
      ended :
          (outcome : Outcome) (c2 : VdiClient)
          → Serving n m (flow_of outcome) c2
          → Uses c2.calls in_service (others ++ devices)
          → Ends others (elim outcome [
            | returned ↦ (returned, finish P devices c2)
            | crashed ↦ (crashed, c2)
            | out_of_fuel ↦ (out_of_fuel, c2)
          ])
      ended returned c2 d w = finish-UsesWith devices c2 d w
      ended crashed c2 d w = (others ++ devices, held_set c2 (others ++ devices) d.held w)
      ended out_of_fuel c2 d w = (others ++ devices, held_set c2 (others ++ devices) d.held w)

  opened-Ends :
      (fuel : ℕ) (q : Bool × List ℕ × VdiClient)
      → Begun n m q
      → Opens others q
      → Ends (left_open others q) (if not q.0 then (returned, q.2) else serve P fuel q.1 q.2)
  opened-Ends fuel (true, devices, c) b u = serve-Ends fuel devices c b u
  opened-Ends fuel (false, devices, c) b u = held_set c (others ++ devices) b.0.held u

-- Where process_commands returns, no device is left open but those before, and those that a failed
-- opening loop has opened.
pub process_commands-Ends :
    (P : Platform) (fuel : ℕ) (others : List ℕ) (c : VdiClient)
    → Inv c
    → UsesWith others c
    → let q = open_all P (dev_count c.device_count) 0 [] c in
      (left : List ℕ) × ((left ≡ others) ⊎ (left ≡ left_open others q))
      × Ends left (process_commands P fuel c)
unfolding process_commands
process_commands-Ends P fuel others c v u =
    let n = dev_count c.device_count in
    let q = open_all P n 0 [] c in
    let Result = λ (r : Outcome × VdiClient).
      (left : List ℕ) × ((left ≡ others) ⊎ (left ≡ left_open others q)) × Ends left r in
    if_elim Result (not (is_streaming c.state)) (λ _. (others, inl refl, u))
      (λ e.
        if_elim Result (not c.device_set) (λ _. (others, inl refl, u))
          (λ f.
            let held : c.device_set ≡ true = ground arith in
            let s : Serving (created c.calls) (released c.calls) next c = record {
              creations = refl;
              releases = refl;
              held = held;
              not_closed = v.open_set held;
              reached = streaming_of c.state (ground arith);
            } in
            (
              left_open others q,
              inr refl,
              opened-Ends P (created c.calls) (released c.calls) others fuel q
                  (open_all-Begun P (created c.calls) (released c.calls) n 0 [] c s)
                  (open_all-Uses P n 0 others [] c (
                    subst (Uses c.calls in_service) (sym (append-nil others))
                      (subst (λ b. Uses c.calls (set_of b) others) held u))),
            )))

Ends-UsesObjects : (left : List ℕ) (q : Outcome × VdiClient) → Ends left q → UsesObjects q.1
Ends-UsesObjects left (returned, c) u = (left, u)
Ends-UsesObjects left (crashed, c) u = u
Ends-UsesObjects left (out_of_fuel, c) u = u

step-UsesObjects :
    (P : Platform) (c : VdiClient) (m : Method) → Inv c → UsesObjects c → UsesObjects (step P c m)
unfolding step set_command_timeout
step-UsesObjects P c (connects name n) v (ds, u) = (ds, connect-UsesWith ds P c name n v u)
step-UsesObjects P c opens v (ds, u) = (ds, open_devices-UsesWith ds P c u)
step-UsesObjects P c (processes fuel) v (ds, u) =
    let (left, _, e) = process_commands-Ends P fuel ds c v u in
    Ends-UsesObjects left (process_commands P fuel c) e
step-UsesObjects P c closes v (ds, u) = (ds, close-UsesWith ds P c u)
step-UsesObjects P c (sets_timeout timeout_ms) v u = u

run-UsesObjects :
    (P : Platform) (c : VdiClient) (ms : List Method)
    → Inv c
    → UsesObjects c
    → UsesObjects (run P c ms)
unfolding run
run-UsesObjects P c [] v u = u
run-UsesObjects P c (m ∷ ms) v u =
    run-UsesObjects P (step P c m) ms (step-Inv P c m v) (step-UsesObjects P c m v u)

-- Whatever the platform answers, after any history of method calls on a new session, in any order
-- and however they end, and the destructor, every call was made on an object that existed and was
-- in the right state: CreateEx on a device set just created, GetConfiguration, OpenDevice and
-- Close only between a successful CreateEx and Close, Release of the set after Close or a failed
-- CreateEx, GetCommand, CompleteCommand and Release of a device only on one that was opened and
-- not yet released, before the set is closed. In the end there is no device set.
pub run-Uses :
    (P : Platform) (sink : Option Sink) (logging : Bool) (f : FaultInjector) (ms : List Method)
    → (devices : List ℕ) × Uses (destroy P (run P (new sink logging f []) ms)).calls absent devices
unfolding new
run-Uses P sink logging f ms =
    let c0 = new sink logging f [] in
    let c = run P c0 ms in
    let v = run-Inv P c0 ms (new-Inv sink logging f) in
    let (ds, u) = run-UsesObjects P c0 ms (new-Inv sink logging f) ([], unused) in
    (
      ds,
      subst (λ b. Uses (destroy P c).calls (set_of b) ds) (destroy-Inv P c v).1
          (destroy-UsesWith ds P c u),
    )
