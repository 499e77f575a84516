-- ===== src/Client/Devices.antt =====
-- The virtual devices: docs/operational-behavior.md promises that each is released exactly once.
use vdi_cpp_wrapper.Prelude.{
  ℕ, zero, suc, ◌+◌, ◌≡◌, ap, ◌∙◌, List, [], ◌∷◌, ◌++◌, Bool, true, false, arith, not,
  if◌then◌else◌, if_elim, length, length-append,
}
use vdi_cpp_wrapper.Protocol.{failed}
use vdi_cpp_wrapper.World.{Trace, Platform, open_device, release_device}
use vdi_cpp_wrapper.Errors.State.{is_streaming, is_flushing}
use vdi_cpp_wrapper.Client.{VdiClient}
use vdi_cpp_wrapper.Client.Lifecycle.{close}
use vdi_cpp_wrapper.Client.Loop.{
  Outcome, returned, crashed, out_of_fuel, open_all, dev_count, run_loop, release_all, finish,
  start_session, serve, process_commands,
}
use vdi_cpp_wrapper.Client.Calls.Loop.{IsHeard, run_loop_calls_rule}
use vdi_cpp_wrapper.Client.Calls.{IsSilent, flush_sink_rule}

-- The devices that were opened, and the releases of devices.
unfoldable pub opened : Trace → ℕ
opened [] = 0
opened (open_device i hr ∷ t) = (if failed hr then 0 else 1) + opened t
opened (_ ∷ t) = opened t

unfoldable pub released : Trace → ℕ
released [] = 0
released (release_device i ∷ t) = suc (released t)
released (_ ∷ t) = released t

abbrev Counts : ℕ → ℕ → Trace → Type 0
Counts n m t = (opened t ≡ n) × (released t ≡ m)

Counts-IsSilent : (P : Platform) (n m : ℕ) → IsSilent P (Counts n m)
unfolding opened released
Counts-IsSilent P n m = record {
  quiet = record {
    on_clock = λ t e. e;
    on_write = λ t bytes e. e;
    on_flush = λ t e. e;
    on_warning = λ t k e. e;
  };
  on_complete = λ t device cmd code k position hr e. e;
}

Counts-IsHeard : (P : Platform) (n m : ℕ) → IsHeard P (Counts n m)
unfolding opened released
Counts-IsHeard P n m = record {
  silent = Counts-IsSilent P n m;
  on_get_command = λ t device timeout e. e;
}

-- The command loop neither opens nor releases a device.
run_loop-Counts :
    (P : Platform) (n m fuel start : ℕ) (devices : List ℕ) (c : VdiClient)
    → Counts n m c.calls
    → Counts n m (run_loop P fuel start devices c).1.calls
run_loop-Counts P n m fuel start devices c h =
    run_loop_calls_rule P (Counts n m) (Counts-IsHeard P n m) fuel start devices c h

close-Counts :
    (P : Platform) (n m : ℕ) (c : VdiClient) → Counts n m c.calls → Counts n m (close P c).calls
unfolding close opened released
close-Counts P n m c h =
    ground (arith, flush_sink_rule P (Counts n m) (Counts-IsSilent P n m).quiet c h)

-- One release for each device of the list.
release_all-Counts :
    (n m : ℕ) (devices : List ℕ) (c : VdiClient)
    → Counts n m c.calls
    → Counts n (length devices + m) (release_all devices c).calls
unfolding release_all opened released
release_all-Counts n m [] c h = (h.0, h.1 ∙ omega arith)
release_all-Counts n m (device ∷ devices) c h =
    let rest = release_all-Counts n (suc m) devices _ (h.0, ap suc h.1) in
    (rest.0, omega (arith, rest.1))

finish-Counts :
    (P : Platform) (n m : ℕ) (devices : List ℕ) (c : VdiClient)
    → Counts n m c.calls
    → Counts n (length devices + m) (finish P devices c).calls
unfolding finish
finish-Counts P n m devices c h =
    let c1 = release_all devices c in
    let h1 = release_all-Counts n m devices c h in
    if_elim (λ (d : VdiClient). Counts n (length devices + m) d.calls) (is_flushing c1.state)
      (λ _. close-Counts P n (length devices + m) c1 h1) (λ _. h1)

-- The opening makes a list of the devices that it opens, also where it fails.
OpenedAll : (n m : ℕ) → List ℕ → Bool × List ℕ × VdiClient → Type 0
OpenedAll n m devices q =
    (opened q.2.calls + length devices ≡ n + length q.1) × (released q.2.calls ≡ m)

opened-suc :
    (i hr : ℕ) (t : Trace) → failed hr ≡ false → opened (open_device i hr ∷ t) ≡ suc (opened t)
unfolding opened
opened-suc i hr t e = rw e (omega arith)

opened-failed : (i hr : ℕ) (t : Trace) → failed hr ≡ true → opened (open_device i hr ∷ t) ≡ opened t
unfolding opened
opened-failed i hr t e = rw e (omega arith)

open_all-Counts :
    (P : Platform) (n m k i : ℕ) (devices : List ℕ) (c : VdiClient)
    → Counts n m c.calls
    → OpenedAll n m devices (open_all P k i devices c)
unfolding open_all OpenedAll released
open_all-Counts P n m zero i devices c h = (omega (arith, h.0), h.1)
open_all-Counts P n m (suc k) i devices c h =
    let hr = P.on_open_device c.calls i in
    let c1 = record c { calls = open_device i hr ∷ c.calls } in
    if_elim (OpenedAll n m devices) (failed hr)
      (λ e. (omega (arith, opened-failed i hr c.calls e, h.0), h.1))
      (λ e.
        let step =
          open_all-Counts P (suc n) m k (i + 1) (devices ++ i ∷ []) c1
            (opened-suc i hr c.calls e ∙ ap suc h.0, h.1) in
        (omega (arith, step.0, length-append devices (i ∷ [])), step.1))

-- What `process_commands` has done where it returns.
Returns : (n m : ℕ) → Outcome × VdiClient → Type 0
Returns n m q = q.0 ≡ returned → Counts n m q.1.calls

serve-Returns :
    (P : Platform) (n m fuel : ℕ) (devices : List ℕ) (c : VdiClient)
    → Counts n m c.calls
    → Returns n (length devices + m) (serve P fuel devices c)
unfolding serve Returns start_session opened released
serve-Returns P n m fuel devices c h =
    let (start, c1) = start_session P c in
    let (outcome, c2) = run_loop P fuel start devices c1 in
    ended outcome c2 (run_loop-Counts P n m fuel start devices c1 h)
  where
    ended :
        (outcome : Outcome) (c2 : VdiClient)
        → Counts n m c2.calls
        → Returns n (length devices + m) (elim outcome [
          | returned ↦ (returned, finish P devices c2)
          | crashed ↦ (crashed, c2)
          | out_of_fuel ↦ (out_of_fuel, c2)
        ])
    ended returned c2 d = λ _. finish-Counts P n m devices c2 d
    ended crashed c2 d = λ e. ground arith
    ended out_of_fuel c2 d = λ e. ground arith

-- Let a streaming session that holds its device set have opened `n` devices and released `m`.
-- Where `process_commands` returns, the opened devices have grown by those that its opening loop
-- has listed, and the released ones by the same number where that loop has opened all devices.
-- Where an OpenDevice has failed, none has been released: the devices before it stay open.
pub process_commands-Counts :
    (P : Platform) (n m fuel : ℕ) (c : VdiClient)
    → is_streaming c.state ≡ true
    → c.device_set ≡ true
    → opened c.calls ≡ n
    → released c.calls ≡ m
    → (process_commands P fuel c).0 ≡ returned
    → let (all, devices, c1) = open_all P (dev_count c.device_count) 0 [] c in
      let c2 = (process_commands P fuel c).1 in
      (opened c2.calls ≡ n + length devices)
      × (released c2.calls ≡ (if all then length devices else 0) + m)
unfolding process_commands OpenedAll Returns
process_commands-Counts P n m fuel c streams holds h k =
    simp (streams, holds)
      (ends (open_all P (dev_count c.device_count) 0 [] c)
        (open_all-Counts P n m (dev_count c.device_count) 0 [] c (h, k)))
  where
    ends :
        (q : Bool × List ℕ × VdiClient)
        → OpenedAll n m [] q
        → let r = (if not q.0 then (returned, q.2) else serve P fuel q.1 q.2) in
          r.0 ≡ returned
          → (opened r.1.calls ≡ n + length q.1)
            × (released r.1.calls ≡ (if q.0 then length q.1 else 0) + m)
    ends (true, devices, c1) b =
        serve-Returns P (n + length devices) m fuel devices c1 (omega (arith, b.0), b.1)
    ends (false, devices, c1) b = λ _. (omega (arith, b.0), omega (arith, b.1))
