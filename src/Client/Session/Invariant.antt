-- ===== src/Client/Session/Invariant.antt =====
-- The device set over a whole history of calls: docs/operational-behavior.md promises that it is
-- released exactly once.
use Prim.Native.String.{String}
use vdi_cpp_wrapper.Prelude.{
  ℕ, ℤ, suc, ◌+◌, ◌≤◌, ◌≡◌, refl, inl, inr, List, [], ◌∷◌, Option, Bool, true, false, arith,
  if◌then◌else◌, Bool-cases,
}
use vdi_cpp_wrapper.World.{Platform}
use vdi_cpp_wrapper.Sink.{Sink}
use vdi_cpp_wrapper.Faults.{FaultInjector}
use vdi_cpp_wrapper.Errors.State.{SessionState, init, connected, streaming, closed, is_streaming}
use vdi_cpp_wrapper.Client.{VdiClient, new, set_command_timeout}
use vdi_cpp_wrapper.Client.Lifecycle.{connect, open_devices, close, destroy}
use vdi_cpp_wrapper.Client.Loop.{process_commands}
use vdi_cpp_wrapper.Client.Session.{
  Method, connects, opens, processes, closes, sets_timeout, step, run,
}
use vdi_cpp_wrapper.Client.Session.Loop.{created, released}
use vdi_cpp_wrapper.Client.Session.Processing.{
  Closed, Processed, close-Closed, process_commands-Processed, process_commands-refused,
}

pub record Inv (c : VdiClient) : Type 0 where
  -- what was created is released or still held, and there is one at most
  pub balanced : created c.calls ≡ released c.calls + (if c.device_set then 1 else 0)
  pub once : created c.calls ≤ 1
  pub untouched : c.state ≡ init → (created c.calls ≡ 0) × (c.device_set ≡ false)
  pub open_set : c.device_set ≡ true → c.devices_closed ≡ false
  pub flagged : c.devices_closed ≡ true → c.state ≡ closed
  pub marked : c.state ≡ closed → c.devices_closed ≡ true
  pub in_use : c.state ≡ streaming → c.device_set ≡ true
  pub attached : c.state ≡ connected → c.device_set ≡ true

pub new-Inv :
    (sink : Option Sink) (logging : Bool) (f : FaultInjector) → Inv (new sink logging f [])
unfolding new created released
new-Inv sink logging f = ground arith

pub connect-Inv :
    (P : Platform) (c : VdiClient) (name : String) (n : ℤ) → Inv c → Inv (connect P c name n).1
unfolding connect created released
connect-Inv P c name n v = ground arith

pub open_devices-Inv : (P : Platform) (c : VdiClient) → Inv c → Inv (open_devices P c).1
unfolding open_devices created released
open_devices-Inv P c v = ground arith

close_again : (P : Platform) (c : VdiClient) → c.devices_closed ≡ true → close P c ≡ c
unfolding close
close_again P c e = rw (e, close)

pub streaming_of : (s : SessionState) → is_streaming s ≡ true → s ≡ streaming
streaming_of s e = ground arith

Closed-Inv :
    (c d : VdiClient)
    → Inv c
    → Closed (created c.calls) (if c.device_set then suc (released c.calls) else released c.calls) d
    → Inv d
Closed-Inv c d v k = ground arith

pub close-Inv : (P : Platform) (c : VdiClient) → Inv c → Inv (close P c)
close-Inv P c v = elim (Bool-cases c.devices_closed) [
  | inl shut ↦ rw (close_again P c shut) v
  | inr opened ↦ Closed-Inv c (close P c) v (close-Closed P _ _ c refl refl opened)
]

Processed-Inv :
    (c d : VdiClient)
    → Inv c
    → c.device_set ≡ true
    → Processed (created c.calls) (released c.calls) d
    → Inv d
Processed-Inv c d v e (inl (s, r)) = ground arith
Processed-Inv c d v e (inr k) = ground arith

pub process_commands-Inv :
    (P : Platform) (fuel : ℕ) (c : VdiClient) → Inv c → Inv (process_commands P fuel c).1
process_commands-Inv P fuel c v = elim (Bool-cases (is_streaming c.state)) [
  | inr other ↦ rw (process_commands-refused P fuel c other) v
  | inl at_work ↦
      let st : c.state ≡ streaming = streaming_of c.state at_work in
      Processed-Inv c (process_commands P fuel c).1 v (v.in_use st) (
        process_commands-Processed P (created c.calls) (released c.calls) fuel c (record {
          creations = refl;
          releases = refl;
          held = v.in_use st;
          not_closed = v.open_set (v.in_use st);
          reached = st;
        }))
]

pub step-Inv : (P : Platform) (c : VdiClient) (m : Method) → Inv c → Inv (step P c m)
unfolding step set_command_timeout
step-Inv P c (connects name n) v = connect-Inv P c name n v
step-Inv P c opens v = open_devices-Inv P c v
step-Inv P c (processes fuel) v = process_commands-Inv P fuel c v
step-Inv P c closes v = close-Inv P c v
step-Inv P c (sets_timeout timeout_ms) v = ground arith

pub run-Inv : (P : Platform) (c : VdiClient) (ms : List Method) → Inv c → Inv (run P c ms)
unfolding run
run-Inv P c [] v = v
run-Inv P c (m ∷ ms) v = run-Inv P (step P c m) ms (step-Inv P c m v)

pub destroy-Inv :
    (P : Platform) (c : VdiClient) → Inv c → Inv (destroy P c) × ((destroy P c).device_set ≡ false)
unfolding destroy
destroy-Inv P c v = elim (Bool-cases c.devices_closed) [
  | inl shut ↦ ground arith
  | inr opened ↦ ground (
    arith,
    close-Inv P c v,
    close-Closed P (created c.calls) (released c.calls) c refl refl opened,
  )
]

-- After any history of calls on a new session, in any order and however they end, and the
-- destructor: at most one device set was created, and every one that was created was released,
-- exactly once.
pub destroy-run :
    (P : Platform) (sink : Option Sink) (logging : Bool) (f : FaultInjector) (ms : List Method)
    → let c = destroy P (run P (new sink logging f []) ms) in
      (created c.calls ≤ 1) × (released c.calls ≡ created c.calls) × (c.device_set ≡ false)
destroy-run P sink logging f ms = ground (
  arith,
  destroy-Inv P (run P (new sink logging f []) ms)
      (run-Inv P (new sink logging f []) ms (new-Inv sink logging f)),
)
